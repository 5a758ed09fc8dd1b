-- ===== src/Lease/Cluster.antt =====
-- internal/portal/lease/postgres.go, with the queries of internal/db/pgstore/leases.sql.go. Postgres's
-- advisory locks are a parameter. Every call of the database is a step of its own, since the token and the
-- row go over other connections than the lock.
use jamsesh.Prelude.{Bool, false, if◌then◌else◌, none, Option, some, suc, true, update, ℕ, ◌≡◌, ◌≢◌}

-- Advisory locks: who holds a key, and the three ways in which that changes. `drop` is the end of a
-- connection.
pub record Locks : Type 1 where
  pub State : Type 0
  pub holder : State → ℕ → Option ℕ
  pub try_lock : State → (conn key : ℕ) → Bool × State
  pub unlock : State → (conn key : ℕ) → State
  pub drop : State → ℕ → State

-- A call of Acquire: what it is asked for, the pod it runs in, and the connection it checks out.
pub record Attempt : Type 0 where
  pub session : ℕ
  pub pod : ℕ
  pub conn : ℕ

-- Where a call stands, with the token it was issued: up to `tokened` it is in Acquire, `held` and `lost`
-- are the life of the handle, the next two are in Release.
pub data Pc : Type 0 where
  idle locked : Pc
  tokened held lost stopped unlocked : ℕ → Pc
  closed : Pc

pub record Row : Type 0 where
  pub pod_id : ℕ
  pub fencing_token : ℕ
  pub released : Bool

pub record World (l : Locks) : Type 0 where
  pub locks : l.State
  pub next_token : ℕ
  pub rows : ℕ → Option Row
  pub pc : ℕ → Pc
  pub dead : ℕ → Bool

-- InsertLease: the upsert of the row.
unfoldable pub insert_lease : Attempt → ℕ → (ℕ → Option Row) → ℕ → Option Row
insert_lease a token rows =
    update rows a.session
      (some (record { pod_id = a.pod; fencing_token = token; released = false }))

-- MarkLeaseReleased: `WHERE session_id = $1`, whatever the row's token.
unfoldable pub mark_lease_released : ℕ → (ℕ → Option Row) → ℕ → Option Row
mark_lease_released session rows =
    update rows session
      (elim (rows session) [ none ↦ none | some r ↦ some (record r { released = true }) ])

module _ (l : Locks) (hashtext : ℕ → ℕ) (who : ℕ → Attempt) where
  abbrev pub key : ℕ → ℕ
  key i = hashtext (who i).session

  -- Step 2 of Acquire.
  unfoldable pub try_advisory_lock : ℕ → World l → World l
  try_advisory_lock i w =
      let (acquired, locks) = l.try_lock w.locks (who i).conn (key i) in
      record w { locks = locks; pc = update w.pc i (if acquired then locked else closed) }

  -- Step 2 ends in an error: the lock is granted or not, and the connection goes back to the pool.
  unfoldable pub try_errors : (reached : Bool) → ℕ → World l → World l
  try_errors reached i w = record w {
    locks = if reached then (l.try_lock w.locks (who i).conn (key i)).1 else w.locks;
    pc = update w.pc i closed;
  }

  -- The error paths of steps 3 and 4: the unlock is best-effort, and `reached` says whether it has been
  -- done. The connection goes back to the pool in any case.
  unfoldable pub give_up : (reached : Bool) → ℕ → World l → World l
  give_up reached i w = record w {
    locks = if reached then l.unlock w.locks (who i).conn (key i) else w.locks;
    pc = update w.pc i closed;
  }

  -- Step 3: the next value of the sequence.
  unfoldable pub issue_token : ℕ → World l → World l
  issue_token i w = record w {
    next_token = suc w.next_token;
    pc = update w.pc i (tokened w.next_token);
  }

  -- Step 4, and the handle.
  unfoldable pub insert_row : ℕ → ℕ → World l → World l
  unfolding insert_lease
  insert_row i n w = record w { rows = insert_lease (who i) n w.rows; pc = update w.pc i (held n) }

  -- A failed ping of runHeartbeat.
  unfoldable pub beat_fails : ℕ → ℕ → World l → World l
  beat_fails i n w = record w { pc = update w.pc i (lost n) }

  -- Release: the heartbeat has stopped; the advisory unlock; the row and the connection.
  unfoldable pub stop_heartbeat : ℕ → ℕ → World l → World l
  stop_heartbeat i n w = record w { pc = update w.pc i (stopped n) }

  unfoldable pub advisory_unlock : ℕ → ℕ → World l → World l
  advisory_unlock i n w = record w {
    locks = l.unlock w.locks (who i).conn (key i);
    pc = update w.pc i (unlocked n);
  }

  unfoldable pub mark_row : ℕ → World l → World l
  unfolding mark_lease_released
  mark_row i w = record w {
    rows = mark_lease_released (who i).session w.rows;
    pc = update w.pc i closed;
  }

  unfoldable pub conn_dies : ℕ → World l → World l
  conn_dies c w = record w { locks = l.drop w.locks c; dead = update w.dead c true }

abbrev pub is_open : Pc → Bool
is_open idle = false
is_open closed = false
is_open _ = true

module _ (l : Locks) (hashtext : ℕ → ℕ) (who : ℕ → Attempt) where
  -- A step of some call, or the end of a connection. A call of the database that answers an error has been
  -- done or has not: `errors`, `fails_late` and `fails_inserted` are the calls that were done although the
  -- caller sees an error, and the Boolean of a step says whether its best-effort call was done.
  pub data Step (w : World l) : World l → Type 0 where
    tries :
        (i : ℕ)
        → w.pc i ≡ idle
        → w.dead (who i).conn ≡ false
        → ((j : ℕ) → is_open (w.pc j) ≡ true → (who j).conn ≢ (who i).conn)
        → Step w (try_advisory_lock l hashtext who i w)
    errors :
        (reached : Bool) (i : ℕ)
        → w.pc i ≡ idle
        → ((j : ℕ) → is_open (w.pc j) ≡ true → (who j).conn ≢ (who i).conn)
        → Step w (try_errors l hashtext who reached i w)
    fails : (reached : Bool) (i : ℕ) → w.pc i ≡ locked → Step w (give_up l hashtext who reached i w)
    fails_late :
        (reached : Bool) (i : ℕ)
        → w.pc i ≡ locked
        → Step w (give_up l hashtext who reached i (issue_token l hashtext who i w))
    issues : (i : ℕ) → w.pc i ≡ locked → Step w (issue_token l hashtext who i w)
    fails_later :
        (reached : Bool) (i n : ℕ)
        → w.pc i ≡ tokened n
        → Step w (give_up l hashtext who reached i w)
    fails_inserted :
        (reached : Bool) (i n : ℕ)
        → w.pc i ≡ tokened n
        → Step w (give_up l hashtext who reached i (insert_row l hashtext who i n w))
    inserts : (i n : ℕ) → w.pc i ≡ tokened n → Step w (insert_row l hashtext who i n w)
    loses : (i n : ℕ) → w.pc i ≡ held n → Step w (beat_fails l hashtext who i n w)
    stops : (i n : ℕ) → w.pc i ≡ held n → Step w (stop_heartbeat l hashtext who i n w)
    stops_lost : (i n : ℕ) → w.pc i ≡ lost n → Step w (stop_heartbeat l hashtext who i n w)
    unlocks : (i n : ℕ) → w.pc i ≡ stopped n → Step w (advisory_unlock l hashtext who i n w)
    unlock_fails :
        (i n : ℕ) → w.pc i ≡ stopped n → Step w (record w { pc = update w.pc i (unlocked n) })
    marks : (i n : ℕ) → w.pc i ≡ unlocked n → Step w (mark_row l hashtext who i w)
    mark_fails : (i n : ℕ) → w.pc i ≡ unlocked n → Step w (record w { pc = update w.pc i closed })
    dies : (c : ℕ) → Step w (conn_dies l hashtext who c w)

  pub data Run (w : World l) : World l → Type 0 where
    here : Run w w
    after : {mid last : World l} → Run w mid → Step mid last → Run w last

-- A cluster that starts: no call, no row, no lock.
abbrev pub start : (l : Locks) → l.State → World l
start l s = record {
  locks = s;
  next_token = 1;
  rows = λ s. none;
  pc = λ i. idle;
  dead = λ c. false;
}
