-- ===== src/Lease/Fencing.antt =====
-- The fencing tokens of the calls of Acquire (postgres.go, step 3).
use jamsesh.Prelude.{
  ◌<◌, arith, Bool, false, if◌then◌else◌, inl, inr, none, Option, some, suc, true, update, ℕ, ◌≡◌,
  ◌≢◌, ◌≤◌, ◌⊎◌,
}
use jamsesh.Lease.Cluster.{
  errors, fails_late, fails_inserted, try_errors, advisory_unlock, after, Attempt, beat_fails,
  closed, conn_dies, dies, fails, fails_later, give_up, held, here, idle, insert_row, inserts,
  issue_token, issues, key, locked, Locks, loses, lost, mark_fails, mark_row, marks, Pc, Run, start,
  Step, stop_heartbeat, stopped, stops, stops_lost, tokened, tries, try_advisory_lock, unlock_fails,
  unlocked, unlocks, World,
}
use jamsesh.Lease.Exclusion.{LockLaws, mutual_exclusion, owns}

abbrev pub token : Pc → Option ℕ
token idle = none
token locked = none
token closed = none
token (tokened n) = some n
token (held n) = some n
token (lost n) = some n
token (stopped n) = some n
token (unlocked n) = some n

-- Of a run that began where the calls stood as in `old` and `bound` was the next token.
pub record Issued (bound : ℕ) (old : ℕ → Pc) (next : ℕ) (pc : ℕ → Pc) : Type 0 where
  pub grows : bound ≤ next
  pub below : (j m : ℕ) → token (pc j) ≡ some m → m < next
  pub apart : (i j m : ℕ) → token (pc i) ≡ some m → token (pc j) ≡ some m → i ≡ j
  pub later : (j m : ℕ) → token (old j) ≡ none → token (pc j) ≡ some m → bound ≤ m
  pub owners : (j : ℕ) → owns (pc j) ≡ true → (owns (old j) ≡ true) ⊎ (old j ≡ idle)
  pub starters : (j : ℕ) → pc j ≡ idle → old j ≡ idle

-- A call moves on with the token it has, or with none.
keeps-Issued :
    (bound : ℕ) (old : ℕ → Pc) (next : ℕ) (pc : ℕ → Pc) (i : ℕ) (p : Pc)
    → Issued bound old next pc
    → ((m : ℕ) → token p ≡ some m → token (pc i) ≡ some m)
    → (owns p ≡ true → (owns (pc i) ≡ true) ⊎ (pc i ≡ idle))
    → p ≢ idle
    → Issued bound old next (update pc i p)
keeps-Issued bound old next pc i p v k o n = record {
  grows = v.grows;
  below = λ j m h. v.below j m (ground (arith, k m));
  apart = λ a b m h h'. v.apart a b m (ground (arith, k m)) (ground (arith, k m));
  later = λ j m h h'. v.later j m h (ground (arith, k m));
  owners = λ j h. ground (arith, o, v.owners j, v.starters j);
  starters = λ j h. ground (arith, v.starters j);
}

tries-Issued :
    (bound : ℕ) (old : ℕ → Pc) (next : ℕ) (pc : ℕ → Pc) (i : ℕ) (acquired : Bool)
    → Issued bound old next pc
    → pc i ≡ idle
    → Issued bound old next (update pc i (if acquired then locked else closed))
tries-Issued bound old next pc i true v h =
    keeps-Issued bound old next pc i locked v (λ m. cc) (λ _. inr h) (λ q. cc)
tries-Issued bound old next pc i false v h =
    keeps-Issued bound old next pc i closed v (λ m. cc) (λ q. cc) (λ q. cc)

issues-Issued :
    (bound : ℕ) (old : ℕ → Pc) (next : ℕ) (pc : ℕ → Pc) (i : ℕ)
    → Issued bound old next pc
    → pc i ≡ locked
    → Issued bound old (suc next) (update pc i (tokened next))
issues-Issued bound old next pc i v h = record {
  grows = ground (arith, v.grows);
  below = λ j m h'. ground (arith, v.below j m);
  apart = λ a b m h' h''. ground (arith, v.apart a b m, v.below a m, v.below b m);
  later = λ j m h' h''. ground (arith, v.later j m, v.grows);
  owners = λ j h'. ground (arith, v.owners j);
  starters = λ j h'. ground (arith, v.starters j);
}

module _ (l : Locks) (hashtext : ℕ → ℕ) (who : ℕ → Attempt) (bound : ℕ) (old : ℕ → Pc) where
  Step-Issued :
      {w w' : World l}
      → Step l hashtext who w w'
      → Issued bound old w.next_token w.pc
      → Issued bound old w'.next_token w'.pc
  unfolding try_advisory_lock try_errors give_up issue_token insert_row beat_fails stop_heartbeat
      advisory_unlock mark_row conn_dies
  Step-Issued {w} (tries i h d f) v =
      tries-Issued bound old w.next_token w.pc i
        (l.try_lock w.locks (who i).conn (key l hashtext who i)).0 v h
  Step-Issued {w} (errors b i h f) v =
      keeps-Issued bound old w.next_token w.pc i closed v (λ m. cc) (λ q. cc) (λ q. cc)
  Step-Issued {w} (fails b i h) v =
      keeps-Issued bound old w.next_token w.pc i closed v (λ m. cc) (λ q. cc) (λ q. cc)
  Step-Issued {w} (fails_late b i h) v =
      keeps-Issued bound old (suc w.next_token) (update w.pc i (tokened w.next_token)) i closed
        (issues-Issued bound old w.next_token w.pc i v h) (λ m. cc) (λ q. cc) (λ q. cc)
  Step-Issued {w} (issues i h) v = issues-Issued bound old w.next_token w.pc i v h
  Step-Issued {w} (fails_later b i n h) v =
      keeps-Issued bound old w.next_token w.pc i closed v (λ m. cc) (λ q. cc) (λ q. cc)
  Step-Issued {w} (fails_inserted b i n h) v =
      keeps-Issued bound old w.next_token (update w.pc i (held n)) i closed
        (keeps-Issued bound old w.next_token w.pc i (held n) v (λ m q. ground arith)
          (λ q. ground arith) (λ q. cc))
        (λ m. cc) (λ q. cc) (λ q. cc)
  Step-Issued {w} (inserts i n h) v =
      keeps-Issued bound old w.next_token w.pc i (held n) v (λ m q. ground arith)
        (λ q. ground arith) (λ q. cc)
  Step-Issued {w} (loses i n h) v =
      keeps-Issued bound old w.next_token w.pc i (lost n) v (λ m q. ground arith)
        (λ q. ground arith) (λ q. cc)
  Step-Issued {w} (stops i n h) v =
      keeps-Issued bound old w.next_token w.pc i (stopped n) v (λ m q. ground arith)
        (λ q. ground arith) (λ q. cc)
  Step-Issued {w} (stops_lost i n h) v =
      keeps-Issued bound old w.next_token w.pc i (stopped n) v (λ m q. ground arith)
        (λ q. ground arith) (λ q. cc)
  Step-Issued {w} (unlocks i n h) v =
      keeps-Issued bound old w.next_token w.pc i (unlocked n) v (λ m q. ground arith) (λ q. cc)
        (λ q. cc)
  Step-Issued {w} (unlock_fails i n h) v =
      keeps-Issued bound old w.next_token w.pc i (unlocked n) v (λ m q. ground arith) (λ q. cc)
        (λ q. cc)
  Step-Issued {w} (marks i n h) v =
      keeps-Issued bound old w.next_token w.pc i closed v (λ m. cc) (λ q. cc) (λ q. cc)
  Step-Issued {w} (mark_fails i n h) v =
      keeps-Issued bound old w.next_token w.pc i closed v (λ m. cc) (λ q. cc) (λ q. cc)
  Step-Issued (dies c) v = v

  Run-Issued :
      {w w' : World l}
      → Run l hashtext who w w'
      → Issued bound old w.next_token w.pc
      → Issued bound old w'.next_token w'.pc
  Run-Issued here v = v
  Run-Issued (after r s) v = Step-Issued s (Run-Issued r v)

module _ (l : Locks) (hashtext : ℕ → ℕ) (who : ℕ → Attempt) where
  start-Issued : (s : l.State) → Issued 0 (λ i. idle) (start l s).next_token (start l s).pc
  start-Issued s = record {
    grows = omega arith;
    below = λ j m h. cc;
    apart = λ i j m h h'. cc;
    later = λ j m h h'. cc;
    owners = λ j h. cc;
    starters = λ j h. h;
  }

  -- What a run adds to a world that was reached.
  reached-Issued :
      (s : l.State) (w w' : World l)
      → Run l hashtext who (start l s) w
      → Run l hashtext who w w'
      → Issued w.next_token w.pc w'.next_token w'.pc
  reached-Issued s w w' r r' =
      let v = Run-Issued l hashtext who 0 (λ i. idle) r (start-Issued s) in
      Run-Issued l hashtext who w.next_token w.pc r' (record {
        grows = omega arith;
        below = v.below;
        apart = v.apart;
        later = λ j m h h'. cc;
        owners = λ j h. inl h;
        starters = λ j h. h;
      })

  Step-dead :
      {w w' : World l} (c : ℕ) → Step l hashtext who w w' → w'.dead c ≡ false → w.dead c ≡ false
  unfolding try_advisory_lock try_errors give_up issue_token insert_row beat_fails stop_heartbeat
      advisory_unlock mark_row conn_dies
  Step-dead c (tries i a b d) h = h
  Step-dead c (errors r i a f) h = h
  Step-dead c (fails r i a) h = h
  Step-dead c (fails_late r i a) h = h
  Step-dead c (issues i a) h = h
  Step-dead c (fails_later r i n a) h = h
  Step-dead c (fails_inserted r i n a) h = h
  Step-dead c (inserts i n a) h = h
  Step-dead c (loses i n a) h = h
  Step-dead c (stops i n a) h = h
  Step-dead c (stops_lost i n a) h = h
  Step-dead c (unlocks i n a) h = h
  Step-dead c (unlock_fails i n a) h = h
  Step-dead c (marks i n a) h = h
  Step-dead c (mark_fails i n a) h = h
  Step-dead c (dies d) h = ground arith

  dead_stays :
      {w w' : World l} (c : ℕ) → Run l hashtext who w w' → w'.dead c ≡ false → w.dead c ≡ false
  dead_stays c here h = h
  dead_stays c (after r s) h = dead_stays c r (Step-dead c s h)

-- A call that owns a lock on a live connection and has been issued its fencing token has a smaller one
-- than any other call that owns a lock with that key later, on a connection that lives then. Nothing is
-- said of a call whose connection ends before its token is issued.
pub takeover_fenced :
    (l : Locks) (laws : LockLaws l) (hashtext : ℕ → ℕ) (who : ℕ → Attempt) (s : l.State)
    (w w' : World l)
    → Run l hashtext who (start l s) w
    → Run l hashtext who w w'
    → (i j n m : ℕ) → hashtext (who i).session ≡ hashtext (who j).session
    → i ≢ j
    → owns (w.pc i) ≡ true
    → w.dead (who i).conn ≡ false
    → token (w.pc i) ≡ some n
    → owns (w'.pc j) ≡ true
    → w'.dead (who j).conn ≡ false
    → token (w'.pc j) ≡ some m
    → n < m
takeover_fenced l laws hashtext who s w w' r r' i j n m k ne oi di ti oj dj tj =
    let v = reached-Issued l hashtext who s w w' r r' in
    let u = reached-Issued l hashtext who s w w r here in
    elim (v.owners j oj) [
      | inl o ↦ absurd (
          ne (
            mutual_exclusion l laws hashtext who s w r i j k oi o di
              (dead_stays l hashtext who (who j).conn r' dj)))
      | inr q ↦ ground (arith, v.later j m (ground arith) tj, u.below i n ti)
    ]
