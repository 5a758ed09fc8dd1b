-- ===== src/Lease/Exclusion.antt =====
-- At most one live call of Acquire owns the lock of a session (postgres.go).
use jamsesh.Prelude.{
  ◌==◌, arith, Bool, Bool-cases, false, if◌then◌else◌, inl, inr, refl, some, subst, true, update, ℕ,
  ◌≡◌, ◌≢◌,
}
use jamsesh.Lease.Cluster.{
  errors, fails_late, fails_inserted, try_errors, advisory_unlock, after, Attempt, beat_fails,
  closed, conn_dies, dies, fails, fails_later, give_up, held, here, insert_row, inserts, is_open,
  issue_token, issues, key, locked, Locks, loses, lost, mark_fails, mark_row, marks, Pc, Run, start,
  Step, stop_heartbeat, stopped, stops, stops_lost, tokened, tries, try_advisory_lock, unlock_fails,
  unlocked, unlocks, World,
}

-- What Postgres documents of advisory locks: a lock that is granted is held by the connection, and a held
-- lock stays with its connection whatever the other connections do.
pub record LockLaws (l : Locks) : Type 0 where
  pub try_granted :
      (s : l.State) (c k : ℕ)
      → (l.try_lock s c k).0 ≡ true
      → l.holder (l.try_lock s c k).1 k ≡ some c
  pub try_keeps :
      (s : l.State) (c k k' d : ℕ)
      → l.holder s k' ≡ some d
      → l.holder (l.try_lock s c k).1 k' ≡ some d
  pub unlock_keeps :
      (s : l.State) (c k k' d : ℕ)
      → l.holder s k' ≡ some d
      → d ≢ c
      → l.holder (l.unlock s c k) k' ≡ some d
  pub drop_keeps :
      (s : l.State) (c k d : ℕ) → l.holder s k ≡ some d → d ≢ c → l.holder (l.drop s c) k ≡ some d

-- From the lock that is granted to the unlock.
abbrev pub owns : Pc → Bool
owns locked = true
owns (tokened n) = true
owns (held n) = true
owns (lost n) = true
owns (stopped n) = true
owns _ = false

module _ (l : Locks) (laws : LockLaws l) (hashtext : ℕ → ℕ) (who : ℕ → Attempt) where
  -- An owner whose connection lives holds its key, and open calls have connections of their own.
  pub record Owned (locks : l.State) (pc : ℕ → Pc) (dead : ℕ → Bool) : Type 0 where
    pub holds :
        (i : ℕ)
        → owns (pc i) ≡ true
        → dead (who i).conn ≡ false
        → l.holder locks (key l hashtext who i) ≡ some (who i).conn
    pub apart :
        (i j : ℕ)
        → is_open (pc i) ≡ true
        → is_open (pc j) ≡ true
        → (who i).conn ≡ (who j).conn
        → i ≡ j

  -- A call moves on, and at most gives ownership up.
  moves-Owned :
      (locks : l.State) (pc : ℕ → Pc) (dead : ℕ → Bool) (i : ℕ) (p : Pc)
      → Owned locks pc dead
      → is_open (pc i) ≡ true
      → (owns p ≡ true → owns (pc i) ≡ true)
      → Owned locks (update pc i p) dead
  moves-Owned locks pc dead i p v o k = record {
    holds = λ a h d. v.holds a (ground arith) d;
    apart = λ a b h h' e. v.apart a b (ground arith) (ground arith) e;
  }

  -- A call unlocks its key and is an owner no more.
  unlocks-Owned :
      (locks : l.State) (pc : ℕ → Pc) (dead : ℕ → Bool) (i : ℕ) (p : Pc)
      → Owned locks pc dead
      → is_open (pc i) ≡ true
      → owns p ≡ false
      → Owned (l.unlock locks (who i).conn (key l hashtext who i)) (update pc i p) dead
  unlocks-Owned locks pc dead i p v o k = record {
    holds = λ a h d. kept a h d;
    apart = λ a b h h' e. v.apart a b (ground arith) (ground arith) e;
  }
    where
      kept :
          (a : ℕ)
          → owns (update pc i p a) ≡ true
          → dead (who a).conn ≡ false
          → l.holder (l.unlock locks (who i).conn (key l hashtext who i)) (key l hashtext who a)
            ≡ some (who a).conn
      kept a h d = elim (Bool-cases (a == i)) [
        | inl e ↦ absurd (ground arith)
        | inr e ↦
            laws.unlock_keeps locks (who i).conn (key l hashtext who i) (key l hashtext who a)
              (who a).conn (v.holds a (ground arith) d) (λ q. absurd (ground (arith, v.apart a i)))
      ]

  tries-Owned :
      (locks : l.State) (pc : ℕ → Pc) (dead : ℕ → Bool) (i : ℕ)
      → Owned locks pc dead
      → ((j : ℕ) → is_open (pc j) ≡ true → (who j).conn ≢ (who i).conn)
      → let t = l.try_lock locks (who i).conn (key l hashtext who i) in
        Owned t.1 (update pc i (if t.0 then locked else closed)) dead
  tries-Owned locks pc dead i v free = record { holds = kept; apart = alone }
    where
      kept :
          (a : ℕ)
          → owns (
              update pc i
                (if (l.try_lock locks (who i).conn (key l hashtext who i)).0
                  then locked
                  else closed)
                a)
            ≡ true
          → dead (who a).conn ≡ false
          → l.holder (l.try_lock locks (who i).conn (key l hashtext who i)).1 (key l hashtext who a)
            ≡ some (who a).conn
      kept a h d = elim (Bool-cases (a == i)) [
        | inl e ↦
            (let q : i ≡ a = ground arith in
              subst
                (λ b.
                  l.holder (l.try_lock locks (who i).conn (key l hashtext who i)).1
                    (key l hashtext who b)
                  ≡ some (who b).conn)
                q (laws.try_granted locks (who i).conn (key l hashtext who i) (ground arith)))
        | inr e ↦
            laws.try_keeps locks (who i).conn (key l hashtext who i) (key l hashtext who a)
              (who a).conn (v.holds a (ground arith) d)
      ]

      alone :
          (a b : ℕ)
          → is_open (
              update pc i
                (if (l.try_lock locks (who i).conn (key l hashtext who i)).0
                  then locked
                  else closed)
                a)
            ≡ true
          → is_open (
              update pc i
                (if (l.try_lock locks (who i).conn (key l hashtext who i)).0
                  then locked
                  else closed)
                b)
            ≡ true
          → (who a).conn ≡ (who b).conn
          → a ≡ b
      alone a b h h' e = ground (arith, v.apart a b, free a, free b)

  -- An error path, with or without its unlock.
  gives_up-Owned :
      (reached : Bool) (locks : l.State) (pc : ℕ → Pc) (dead : ℕ → Bool) (i : ℕ)
      → Owned locks pc dead
      → is_open (pc i) ≡ true
      → Owned
          (if reached then l.unlock locks (who i).conn (key l hashtext who i) else locks)
          (update pc i closed)
          dead
  gives_up-Owned true locks pc dead i v o = unlocks-Owned locks pc dead i closed v o refl
  gives_up-Owned false locks pc dead i v o = moves-Owned locks pc dead i closed v o (λ q. cc)

  -- A try that ends in an error leaves its call closed, and whatever it was granted with the connection.
  errors-Owned :
      (reached : Bool) (locks : l.State) (pc : ℕ → Pc) (dead : ℕ → Bool) (i : ℕ)
      → Owned locks pc dead
      → Owned
          (if reached then (l.try_lock locks (who i).conn (key l hashtext who i)).1 else locks)
          (update pc i closed)
          dead
  errors-Owned reached locks pc dead i v = record {
    holds = λ a h d. kept reached a (v.holds a (ground arith) d);
    apart = λ a b h h' e. v.apart a b (ground arith) (ground arith) e;
  }
    where
      kept :
          (reached : Bool) (a : ℕ)
          → l.holder locks (key l hashtext who a) ≡ some (who a).conn
          → l.holder
              (if reached then (l.try_lock locks (who i).conn (key l hashtext who i)).1 else locks)
              (key l hashtext who a)
            ≡ some (who a).conn
      kept true a h =
          laws.try_keeps locks (who i).conn (key l hashtext who i) (key l hashtext who a)
            (who a).conn h
      kept false a h = h

  dies-Owned :
      (locks : l.State) (pc : ℕ → Pc) (dead : ℕ → Bool) (c : ℕ)
      → Owned locks pc dead
      → Owned (l.drop locks c) pc (update dead c true)
  dies-Owned locks pc dead c v = record {
    holds = λ a h d.
        laws.drop_keeps locks c (key l hashtext who a) (who a).conn (v.holds a h (ground arith))
          (λ e. absurd (ground arith));
    apart = v.apart;
  }

  Step-Owned :
      {w w' : World l}
      → Step l hashtext who w w'
      → Owned w.locks w.pc w.dead
      → Owned w'.locks w'.pc w'.dead
  unfolding try_advisory_lock try_errors give_up issue_token insert_row beat_fails stop_heartbeat
      advisory_unlock mark_row conn_dies
  Step-Owned {w} (tries i h d f) v = tries-Owned w.locks w.pc w.dead i v f
  Step-Owned {w} (errors b i h f) v = errors-Owned b w.locks w.pc w.dead i v
  Step-Owned {w} (fails b i h) v = gives_up-Owned b w.locks w.pc w.dead i v (ground arith)
  Step-Owned {w} (fails_late b i h) v =
      gives_up-Owned b w.locks (update w.pc i (tokened w.next_token)) w.dead i
        (moves-Owned w.locks w.pc w.dead i (tokened w.next_token) v (ground arith)
          (λ _. ground arith))
        (ground arith)
  Step-Owned {w} (issues i h) v =
      moves-Owned w.locks w.pc w.dead i (tokened w.next_token) v (ground arith) (λ _. ground arith)
  Step-Owned {w} (fails_later b i n h) v = gives_up-Owned b w.locks w.pc w.dead i v (ground arith)
  Step-Owned {w} (fails_inserted b i n h) v =
      gives_up-Owned b w.locks (update w.pc i (held n)) w.dead i
        (moves-Owned w.locks w.pc w.dead i (held n) v (ground arith) (λ _. ground arith))
        (ground arith)
  Step-Owned {w} (inserts i n h) v =
      moves-Owned w.locks w.pc w.dead i (held n) v (ground arith) (λ _. ground arith)
  Step-Owned {w} (loses i n h) v =
      moves-Owned w.locks w.pc w.dead i (lost n) v (ground arith) (λ _. ground arith)
  Step-Owned {w} (stops i n h) v =
      moves-Owned w.locks w.pc w.dead i (stopped n) v (ground arith) (λ _. ground arith)
  Step-Owned {w} (stops_lost i n h) v =
      moves-Owned w.locks w.pc w.dead i (stopped n) v (ground arith) (λ _. ground arith)
  Step-Owned {w} (unlocks i n h) v =
      unlocks-Owned w.locks w.pc w.dead i (unlocked n) v (ground arith) refl
  Step-Owned {w} (unlock_fails i n h) v =
      moves-Owned w.locks w.pc w.dead i (unlocked n) v (ground arith) (λ e. cc)
  Step-Owned {w} (marks i n h) v =
      moves-Owned w.locks w.pc w.dead i closed v (ground arith) (λ e. cc)
  Step-Owned {w} (mark_fails i n h) v =
      moves-Owned w.locks w.pc w.dead i closed v (ground arith) (λ e. cc)
  Step-Owned {w} (dies c) v = dies-Owned w.locks w.pc w.dead c v

  Run-Owned :
      {w w' : World l}
      → Run l hashtext who w w'
      → Owned w.locks w.pc w.dead
      → Owned w'.locks w'.pc w'.dead
  Run-Owned here v = v
  Run-Owned (after r s) v = Step-Owned s (Run-Owned r v)

  start-Owned : (s : l.State) → Owned (start l s).locks (start l s).pc (start l s).dead
  start-Owned s = record { holds = λ i h. cc; apart = λ i j h. cc }

-- However the calls of all pods interleave, whichever of their database calls fail, done or not, best-effort
-- unlocks included, and whichever connections die, no two calls of Acquire for sessions with one lock key are owners at the same time while both connections
-- live. It relies on the laws of advisory locks.
pub mutual_exclusion :
    (l : Locks) (laws : LockLaws l) (hashtext : ℕ → ℕ) (who : ℕ → Attempt) (s : l.State)
    (w : World l)
    → Run l hashtext who (start l s) w
    → (i j : ℕ) → hashtext (who i).session ≡ hashtext (who j).session
    → owns (w.pc i) ≡ true
    → owns (w.pc j) ≡ true
    → w.dead (who i).conn ≡ false
    → w.dead (who j).conn ≡ false
    → i ≡ j
mutual_exclusion l laws hashtext who s w r i j k oi oj di dj =
    let v = Run-Owned l laws hashtext who r (start-Owned l laws hashtext who s) in
    v.apart i j (ground arith) (ground arith) (ground (arith, v.holds i oi di, v.holds j oj dj))
