-- ===== src/Lease/Examples.antt =====
-- Tests and witnesses of the leases: two calls for one session, in two pods.
use jamsesh.Prelude.{
  ◌%◌, ◌+◌, ◌<◌, ◌==◌, arith, false, if◌then◌else◌, none, Option, refl, some, true, update, ℕ, ◌≡◌,
}
use jamsesh.Lease.Cluster.{
  advisory_unlock, after, Attempt, conn_dies, dies, held, here, insert_row, inserts, issue_token,
  issues, Locks, mark_row, marks, Run, start, stop_heartbeat, stops, tries, try_advisory_lock,
  unlocks, World,
}
use jamsesh.Lease.Exclusion.{LockLaws, mutual_exclusion}
use jamsesh.Lease.Fencing.{takeover_fenced}

abbrev table : Locks
table = record {
  State = ℕ → Option ℕ;
  holder = λ s k. s k;
  try_lock = λ s c k. elim (s k) [
    | none ↦ (true, update s k (some c))
    | some d ↦ if d == c then (true, s) else (false, s)
  ];
  unlock =
      λ s c k. update s k (elim (s k) [ none ↦ none | some d ↦ if d == c then none else some d ]);
  drop = λ s c k. elim (s k) [ none ↦ none | some d ↦ if d == c then none else some d ];
}

table-LockLaws : LockLaws table
table-LockLaws = record {
  try_granted = λ s c k h. ground arith;
  try_keeps = λ s c k k' d h. ground arith;
  unlock_keeps = λ s c k k' d h n. ground arith;
  drop_keeps = λ s c k d h n. ground arith;
}

abbrev calls : ℕ → Attempt
calls i = record { session = 7; pod = i; conn = i + 10 }

abbrev hash : ℕ → ℕ
hash s = s % 4

abbrev w0 : World table
w0 = start table (λ k. none)

abbrev w1 : World table
unfolding try_advisory_lock
w1 = try_advisory_lock table hash calls 0 w0

abbrev w3 : World table
unfolding issue_token insert_row
w3 = insert_row table hash calls 0 1 (issue_token table hash calls 0 w1)

-- The pod of call 0 has its lease.
acquire-Run : Run table hash calls w0 w3
unfolding try_advisory_lock issue_token insert_row
acquire-Run =
    after (after (after here (tries 0 refl refl (λ j. cc))) (issues 0 refl)) (inserts 0 1 refl)

-- The connection of call 0 ends, and call 1 takes over.
abbrev w6 : World table
unfolding conn_dies try_advisory_lock issue_token
w6 =
    issue_token table hash calls 1
      (try_advisory_lock table hash calls 1 (conn_dies table hash calls 10 w3))

takeover-Run : Run table hash calls w3 w6
unfolding try_advisory_lock issue_token conn_dies insert_row
takeover-Run =
    after (after (after here (dies 10)) (tries 1 refl refl (λ j h. ground arith))) (issues 1 refl)

takeover_fenced_example : 1 < 2
unfolding try_advisory_lock issue_token conn_dies insert_row
takeover_fenced_example =
    takeover_fenced table table-LockLaws hash calls (λ k. none) w3 w6 acquire-Run takeover-Run 0 1 1
      2 refl (λ q. cc) refl refl refl refl refl refl

abbrev first : ℕ
first = 0

mutual_exclusion_example : first ≡ first
unfolding try_advisory_lock issue_token insert_row
mutual_exclusion_example =
    mutual_exclusion table table-LockLaws hash calls (λ k. none) w3 acquire-Run first first refl
      refl refl refl refl

-- Call 0 stops and unlocks; call 1 acquires the session; then call 0 marks the row, which is that of call 1.
abbrev w_mark : World table
unfolding try_advisory_lock issue_token insert_row stop_heartbeat advisory_unlock mark_row
w_mark = mark_row table hash calls 0 (
    insert_row table hash calls 1 2 (
      issue_token table hash calls 1 (
        try_advisory_lock table hash calls 1
          (advisory_unlock table hash calls 0 1 (stop_heartbeat table hash calls 0 1 w3)))))

late_mark-Run : Run table hash calls w0 w_mark
unfolding try_advisory_lock issue_token insert_row stop_heartbeat advisory_unlock mark_row
late_mark-Run =
    after
      (after
        (after
          (after (after (after acquire-Run (stops 0 1 refl)) (unlocks 0 1 refl))
            (tries 1 refl refl (λ j h. ground arith)))
          (issues 1 refl))
        (inserts 1 2 refl))
      (marks 0 1 refl)

-- The lease that call 1 holds is marked released.
late_mark :
    (w_mark.pc 1 ≡ held 2)
    × (w_mark.rows 7 ≡ some (record { pod_id = 1; fencing_token = 2; released = true }))
unfolding try_advisory_lock issue_token insert_row stop_heartbeat advisory_unlock mark_row
late_mark = (refl, refl)

-- The connection of call 0 ends before its token is issued; call 1 takes over with the token 1, and call 0
-- then finishes with the token 2 and overwrites the row.
abbrev w_stale : World table
unfolding try_advisory_lock issue_token insert_row conn_dies
w_stale = insert_row table hash calls 0 2 (
    issue_token table hash calls 0 (
      insert_row table hash calls 1 1 (
        issue_token table hash calls 1
          (try_advisory_lock table hash calls 1 (conn_dies table hash calls 10 w1)))))

stale-Run : Run table hash calls w0 w_stale
unfolding try_advisory_lock issue_token insert_row conn_dies
stale-Run =
    after
      (after
        (after
          (after
            (after (after (after here (tries 0 refl refl (λ j. cc))) (dies 10))
              (tries 1 refl refl (λ j h. ground arith)))
            (issues 1 refl))
          (inserts 1 1 refl))
        (issues 0 refl))
      (inserts 0 2 refl)

stale_wins :
    (w_stale.pc 1 ≡ held 1)
    × (w_stale.dead 11 ≡ false)
    × (w_stale.pc 0 ≡ held 2)
    × (w_stale.rows 7 ≡ some (record { pod_id = 0; fencing_token = 2; released = false }))
unfolding try_advisory_lock issue_token insert_row conn_dies
stale_wins = (refl, refl, refl, refl)
