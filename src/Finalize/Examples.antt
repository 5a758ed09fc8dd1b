-- ===== src/Finalize/Examples.antt =====
-- The finalize handlers on concrete tables.
use mathlib.Core.Option
use jamsesh.Prelude.{
  ◌*◌, ◌+◌, ◌++◌, ◌-◌, [], arith, List, none, Option, refl, some, true, ℕ, ◌∷◌, ◌≡◌,
}
use jamsesh.Finalize.Acquire.{
  acquire_answer, acquire_commit, acquire_tx, AcquirePlan, AcquireRequest, insert_step, new_lock,
  release_step, status_step, supersede_step,
}
use jamsesh.Finalize.Ending.{acquire_commit_revives, mark_shipped_ends}
use jamsesh.Finalize.Escape.{shellquote}
use jamsesh.Finalize.Exclusion.{Admitted, healthy}
use jamsesh.Finalize.Expiry.{finalize_lock_ttl}
use jamsesh.Finalize.Lifecycle.{acquires, here, next, Run-OneActive}
use jamsesh.Finalize.Patch.{LockRequest, PatchBody}
use jamsesh.Finalize.Protocol.{session_ended, shipped}
use jamsesh.Finalize.Quoting.{fresh, shell_word, shellquote-shell_word}
use jamsesh.Finalize.Ship.{mark_shipped, shipped_reason, shipped_session, ShipRequest}
use jamsesh.Finalize.Store.{
  active, count_where, Db, ended, finalizing, get_active_lock, get_lock, get_session, insert_lock,
  is_active, is_org_member, is_session_member, Lock, Session, Status,
}
use jamsesh.Finalize.Takeover.{acquire_commit_holds, acquire_commit_no_theft, is_created, is_fresh}
use jamsesh.Finalize.Uniqueness.{OneActive}
use jamsesh.Go.Strings.{Bytes, codes}

abbrev alice : ℕ
alice = 7

abbrev bob : ℕ
bob = 8

abbrev hour : ℕ
hour = 3_600_000_000_000

-- Session 5 of organisation 1.
abbrev a_session : Status → Option ℕ → Session
a_session status holder = record {
  id = 5;
  org_id = 1;
  goal = [];
  status = status;
  end_reason = none;
  ended_at = none;
  finalize_locked_by = holder;
}

-- Lock 3, held by Alice since the time given.
abbrev a_lock : ℕ → Lock
a_lock t = record {
  id = 3;
  org_id = 1;
  session_id = 5;
  acquired_by = alice;
  acquired_at = t;
  last_activity_at = t;
  selected_commit_shas = codes "[]";
  target_branch = [];
  base_sha = [];
  mode = codes "squash";
  commit_message = none;
  superseded_by = none;
  released_at = none;
}

abbrev tables : List Session → List Lock → Db
tables ss ls = record {
  org_members = (1, alice) ∷ (1, bob) ∷ [];
  session_members = (1, 5, alice) ∷ (1, 5, bob) ∷ [];
  sessions = ss;
  locks = ls;
}

abbrev held : Db
held = tables (a_session finalizing (some alice) ∷ []) (a_lock hour ∷ [])

abbrev idle : Db
idle = tables (a_session active none ∷ []) []

held-OneActive : OneActive held.locks
held-OneActive = record { unique = λ s. unfold count_where is_active in ground arith }

idle-OneActive : OneActive idle.locks
idle-OneActive = record { unique = λ s. unfold count_where in omega arith }

held-Admitted :
    (a : ℕ)
    → is_org_member 1 a held.org_members ≡ true
    → is_session_member 1 5 a held.session_members ≡ true
    → Admitted held 1 5 a
held-Admitted a e f = record { in_org = e; in_session = f }

-- Bob's plan, two hours later, with Alice's lock gone idle.
abbrev takeover : AcquirePlan
takeover = record {
  org_id = 1;
  session_id = 5;
  caller = bob;
  now = 3 * hour;
  new_lock_id = 4;
  existing = some (a_lock hour);
  supersede_old_id = 0;
  session_status = finalizing;
}

abbrev first_plan : AcquirePlan
first_plan = record takeover { existing = none; session_status = active; now = hour }

acquire_commit_no_theft_example :
    count_where (is_fresh 5 (3 * hour - finalize_lock_ttl)) held.locks ≡ 0
unfolding acquire_commit acquire_tx release_step insert_step insert_lock supersede_step status_step
    acquire_answer get_lock get_active_lock is_active
acquire_commit_no_theft_example = acquire_commit_no_theft healthy takeover held refl refl

acquire_commit_holds_example :
    get_active_lock 5 (acquire_commit healthy takeover held).db.locks ≡ some (new_lock takeover)
unfolding acquire_commit acquire_tx release_step insert_step insert_lock supersede_step status_step
    acquire_answer get_lock get_active_lock is_active
acquire_commit_holds_example =
    acquire_commit_holds healthy takeover held (λ e. absurd (omega arith)) refl

-- The lock was refreshed after Bob's reads.
abbrev refreshed : Db
refreshed = tables (a_session finalizing (some alice) ∷ []) (a_lock (3 * hour) ∷ [])

abbrev once : Db
once = (acquire_commit healthy first_plan idle).db

abbrev twice : Db
twice = (acquire_commit healthy takeover once).db

Run-OneActive_example : OneActive twice.locks
Run-OneActive_example =
    Run-OneActive (next (next here (acquires healthy first_plan)) (acquires healthy takeover))
      idle-OneActive

abbrev ask : AcquireRequest
ask = record { org_id = 1; session_id = 5; body = none }

abbrev to_lock : LockRequest
to_lock = record { org_id = 1; session_id = 5; lock_id = 3 }

abbrev curation : PatchBody
curation = record {
  mode = codes "squash";
  target_branch = codes "main";
  base_sha = codes "0123456789abcdef0123456789abcdef01234567";
  selected_commit_shas = [];
  commit_message = [];
}

abbrev marshal_none : List Bytes → Option Bytes
marshal_none _ = some (codes "[]")

abbrev curated : Lock
curated = record (a_lock hour) {
  target_branch = codes "main";
  base_sha = codes "0123456789abcdef0123456789abcdef01234567";
  last_activity_at = hour + 1;
}

abbrev to_ship : ShipRequest
to_ship = record { org_id = 1; session_id = 5; final_branch_name = codes "main" }

mark_shipped_ends_example :
    let a = mark_shipped healthy (some bob) held to_ship (hour + 1) in
    (a.response ≡ shipped (shipped_session (a_session finalizing (some alice)) (hour + 1)))
    × (get_active_lock 5 a.db.locks ≡ none)
    × (Option.map (λ t. t.status) (get_session 1 5 a.db.sessions) ≡ some ended)
    × (Option.map (λ t. t.end_reason) (get_session 1 5 a.db.sessions) ≡ some (some shipped_reason))
    × (a.events ≡ session_ended 1 5 shipped_reason (codes "main") ∷ [])
unfolding is_org_member is_session_member get_session
mark_shipped_ends_example =
    mark_shipped_ends bob held to_ship (hour + 1) (a_session finalizing (some alice)) held-OneActive
      (held-Admitted bob refl refl) refl refl

-- The session ended after the reads of `first_plan`.
abbrev over : Db
over = tables (a_session ended none ∷ []) []

acquire_commit_revives_example :
    let a = acquire_commit healthy first_plan over in
    (is_created a.response ≡ true)
    × (get_session 1 5 a.db.sessions ≡ some (a_session finalizing (some bob)))
unfolding get_active_lock get_lock get_session
acquire_commit_revives_example =
    acquire_commit_revives first_plan over (a_session ended none) refl refl refl refl refl refl

shellquote-shell_word_example :
    shell_word fresh (shellquote (codes "it's") ++ 32 ∷ codes "x") ≡ some (codes "it's", codes "x")
shellquote-shell_word_example = shellquote-shell_word (codes "it's") (codes "x")
