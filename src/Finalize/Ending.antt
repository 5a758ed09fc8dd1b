-- ===== src/Finalize/Ending.antt =====
-- How a finalize lock and its session end: lock_release.go, mark_shipped.go, and a late transaction of
-- lock_acquire.go.
use mathlib.Core.Option
use jamsesh.Prelude.{
  arith, Bool-cases, false, if◌then◌else◌, inl, inr, List, none, Option, Option-cases, refl, some,
  true, ℕ, ◌∙◌, ◌∷◌, ◌≡◌, ◌≤◌,
}
use jamsesh.Finalize.Acquire.{
  acquire_answer, acquire_commit, acquire_tx, AcquirePlan, Answer, insert_step, new_lock,
  release_step, status_step, supersede_step,
}
use jamsesh.Finalize.Exclusion.{Admitted, healthy}
use jamsesh.Finalize.Patch.{LockRequest, unchanged}
use jamsesh.Finalize.Protocol.{check_session_membership, no_content, session_ended, shipped}
use jamsesh.Finalize.Release.{clear_if_pointed, clear_pointer_of, release, release_held}
use jamsesh.Finalize.Ship.{
  mark_shipped, set_ended, set_reason, ship_done, ship_finalizing, ship_release, ship_status,
  shipped_reason, shipped_session, ShipRequest,
}
use jamsesh.Finalize.Store.{
  active, count_where, Db, ended, finalizing, get_active_lock, get_lock, get_session, insert_lock,
  is_active, Lock, mark_released, release_lock, Session, update_session, update_where,
}
use jamsesh.Finalize.Takeover.{is_created}
use jamsesh.Finalize.Uniqueness.{
  active_count, active_count-none, active_count-release, get_active-zero, OneActive,
}
use jamsesh.Go.Strings.{is_some}
use mathlib.Core.List.{[]}

get_lock-release :
    (id now : ℕ) (ls : List Lock) (l : Lock)
    → get_lock id ls ≡ some l
    → get_lock id (release_lock id now ls)
      ≡ some (if is_some l.released_at then l else mark_released now l)
unfolding get_lock release_lock update_where
get_lock-release id now [] l h = cc
get_lock-release id now (x ∷ ls) l h = ground (arith, get_lock-release id now ls l)

-- What a DELETE by the holder does: one description for the first call and a repeated one.
release_by_holder :
    (caller : ℕ) (db : Db) (r : LockRequest) (now : ℕ) (l : Lock)
    → Admitted db r.org_id r.session_id caller
    → get_lock r.lock_id db.locks ≡ some l
    → l.session_id ≡ r.session_id
    → l.org_id ≡ r.org_id
    → l.acquired_by ≡ caller
    → release healthy (some caller) db r now ≡ (
        if is_some l.released_at then unchanged db no_content else record {
          response = no_content;
          db = record db {
            locks = release_lock l.id now db.locks;
            sessions = clear_if_pointed healthy r.org_id r.session_id caller db.sessions;
          };
          events = [];
        })
unfolding release release_held check_session_membership
release_by_holder caller db r now l m e hs ho ha = ground arith

get_lock_id : (id : ℕ) (ls : List Lock) (l : Lock) → get_lock id ls ≡ some l → l.id ≡ id
unfolding get_lock
get_lock_id id [] l h = cc
get_lock_id id (x ∷ ls) l h = ground (arith, get_lock_id id ls l)

-- With a live store, a member's DELETE of a lock he holds in the named session answers 204 and leaves the
-- lock released; repeating it at any later time answers 204 again and writes nothing.
pub release_twice :
    (caller : ℕ) (db : Db) (r : LockRequest) (now later : ℕ) (l : Lock)
    → Admitted db r.org_id r.session_id caller
    → get_lock r.lock_id db.locks ≡ some l
    → l.session_id ≡ r.session_id
    → l.org_id ≡ r.org_id
    → l.acquired_by ≡ caller
    → let db' = (release healthy (some caller) db r now).db in
      ((release healthy (some caller) db r now).response ≡ no_content)
      × (get_lock r.lock_id db'.locks
          ≡ some (if is_some l.released_at then l else mark_released now l))
      × (release healthy (some caller) db' r later ≡ unchanged db' no_content)
release_twice caller db r now later l m e hs ho ha = elim (Bool-cases (is_some l.released_at)) [
  | inl old ↦
      rw (release_by_holder caller db r now l m e hs ho ha, old)
        (refl, e, release_by_holder caller db r later l m e hs ho ha ∙ rw old)
  | inr new ↦
      rw (release_by_holder caller db r now l m e hs ho ha, new)
        (
          refl,
          after new,
          release_by_holder caller db' r later (mark_released now l) m' (after new) hs ho ha,
        )
]
  where
    db' : Db
    db' = record db {
      locks = release_lock l.id now db.locks;
      sessions = clear_if_pointed healthy r.org_id r.session_id caller db.sessions;
    }

    m' : Admitted db' r.org_id r.session_id caller
    m' = record { in_org = m.in_org; in_session = m.in_session }

    after :
        is_some l.released_at ≡ false
        → get_lock r.lock_id (release_lock l.id now db.locks) ≡ some (mark_released now l)
    after new =
        ground (arith, get_lock_id r.lock_id db.locks l, get_lock-release r.lock_id now db.locks l)

get_session-update :
    (org id : ℕ) (f : Session → Session)
    → ((s : Session) → (f s).org_id ≡ s.org_id)
    → ((s : Session) → (f s).id ≡ s.id)
    → (ss : List Session) (s : Session) → get_session org id ss ≡ some s
    → get_session org id (update_session org id f ss) ≡ some (f s)
unfolding get_session update_session
get_session-update org id f ho hi [] s h = cc
get_session-update org id f ho hi (x ∷ ss) s h =
    ground (arith, ho x, hi x, get_session-update org id f ho hi ss s)

active_count-release_active :
    (session now : ℕ) (ls : List Lock) (l : Lock)
    → active_count session ls ≤ 1
    → get_active_lock session ls ≡ some l
    → active_count session (release_lock l.id now ls) ≡ 0
unfolding get_active_lock count_where release_lock update_where is_active
active_count-release_active session now [] l h e = cc
active_count-release_active session now (x ∷ ls) l h e = ground (
  arith,
  Option-cases (get_active_lock session ls),
  active_count-none session ls,
  get_active-zero session ls,
  active_count-release session l.id now ls,
  active_count-release_active session now ls l,
)

-- A transaction that was prepared while the session was active makes the session finalizing again, and
-- gives it a new lock, whatever became of the session in between: also where it has ended. This takes a
-- live store, no active lock any more, a fresh identifier and a session row that is still there.
pub acquire_commit_revives :
    (p : AcquirePlan) (db : Db) (s : Session)
    → p.existing ≡ none
    → p.supersede_old_id ≡ 0
    → p.session_status ≡ active
    → get_active_lock p.session_id db.locks ≡ none
    → get_lock p.new_lock_id db.locks ≡ none
    → get_session p.org_id p.session_id db.sessions ≡ some s
    → let a = acquire_commit healthy p db in
      (is_created a.response ≡ true)
      × (get_session p.org_id p.session_id a.db.sessions
          ≡ some (record s { finalize_locked_by = some p.caller; status = finalizing }))
unfolding acquire_commit acquire_tx release_step insert_step insert_lock supersede_step status_step
    acquire_answer new_lock
acquire_commit_revives p db s he hs ha hn hi hg = (
  ground arith,
  ground (
    arith,
    get_session-update p.org_id p.session_id (λ s. record s { finalize_locked_by = some p.caller })
        (λ s. refl) (λ s. refl) db.sessions s hg,
    get_session-update p.org_id p.session_id (λ s. record s { status = finalizing }) (λ s. refl)
        (λ s. refl)
        (update_session p.org_id p.session_id (λ s. record s { finalize_locked_by = some p.caller })
          db.sessions)
        (record s { finalize_locked_by = some p.caller }),
  ),
)

-- The row of the session once mark-shipped has written it, before the pointer is looked at.
abbrev pub ended_row : Session → ℕ → Session
ended_row s now = record s { status = ended; end_reason = some shipped_reason; ended_at = some now }

get_session-ended :
    (org id now : ℕ) (ss : List Session) (s : Session)
    → get_session org id ss ≡ some s
    → get_session org id (set_reason org id now (set_ended org id ss)) ≡ some (ended_row s now)
get_session-ended org id now ss s h =
    get_session-update org id
      (λ s. record s { end_reason = some shipped_reason; ended_at = some now }) (λ s. refl)
      (λ s. refl) (set_ended org id ss) (record s { status = ended })
      (get_session-update org id (λ s. record s { status = ended }) (λ s. refl) (λ s. refl) ss s h)

get_session-cleared :
    (org id : ℕ) (ss : List Session) (s : Session)
    → get_session org id ss ≡ some s
    → get_session org id (clear_pointer_of org id ss)
      ≡ some (record s { finalize_locked_by = none })
get_session-cleared org id ss s h =
    get_session-update org id (λ s. record s { finalize_locked_by = none }) (λ s. refl) (λ s. refl)
      ss s h

-- What a completed mark-shipped answers and leaves behind.
abbrev Shipped : ShipRequest → Session → ℕ → Answer → Type 0
Shipped r s now a =
    (a.response ≡ shipped (shipped_session s now))
    × (get_active_lock r.session_id a.db.locks ≡ none)
    × (Option.map (λ t. t.status) (get_session r.org_id r.session_id a.db.sessions) ≡ some ended)
    × (Option.map (λ t. t.end_reason) (get_session r.org_id r.session_id a.db.sessions)
        ≡ some (some shipped_reason))
    × (a.events ≡ session_ended r.org_id r.session_id shipped_reason r.final_branch_name ∷ [])

ship_release-Shipped :
    (db : Db) (r : ShipRequest) (s : Session) (now : ℕ) (o : Option Lock)
    → OneActive db.locks
    → get_session r.org_id r.session_id db.sessions ≡ some (ended_row s now)
    → get_active_lock r.session_id db.locks ≡ o
    → Shipped r s now (ship_release healthy db r s now)
unfolding ship_release ship_done
ship_release-Shipped db r s now none v e q = ground arith
ship_release-Shipped db r s now (some l) v e q = ground (
  arith,
  get_active-zero r.session_id (release_lock l.id now db.locks),
  active_count-release_active r.session_id now db.locks l (v.unique r.session_id) q,
  get_session-cleared r.org_id r.session_id db.sessions (ended_row s now) e,
)

after_ended : Db → ShipRequest → ℕ → Db
after_ended db r now = record db {
  sessions = set_reason r.org_id r.session_id now (set_ended r.org_id r.session_id db.sessions);
}

mark_shipped_steps :
    (caller : ℕ) (db : Db) (r : ShipRequest) (now : ℕ) (s : Session)
    → Admitted db r.org_id r.session_id caller
    → get_session r.org_id r.session_id db.sessions ≡ some s
    → s.status ≡ finalizing
    → mark_shipped healthy (some caller) db r now
      ≡ ship_release healthy (after_ended db r now) r s now
unfolding mark_shipped ship_status ship_finalizing check_session_membership after_ended
mark_shipped_steps caller db r now s m e st = ground arith

-- With a live store, a member's mark-shipped of a finalizing session answers 200, leaves the session
-- ended as shipped and without an active lock, and announces session.ended once. It relies on the
-- uniqueness of the active lock.
pub mark_shipped_ends :
    (caller : ℕ) (db : Db) (r : ShipRequest) (now : ℕ) (s : Session)
    → OneActive db.locks
    → Admitted db r.org_id r.session_id caller
    → get_session r.org_id r.session_id db.sessions ≡ some s
    → s.status ≡ finalizing
    → let a = mark_shipped healthy (some caller) db r now in
      (a.response ≡ shipped (shipped_session s now))
      × (get_active_lock r.session_id a.db.locks ≡ none)
      × (Option.map (λ t. t.status) (get_session r.org_id r.session_id a.db.sessions) ≡ some ended)
      × (Option.map (λ t. t.end_reason) (get_session r.org_id r.session_id a.db.sessions)
          ≡ some (some shipped_reason))
      × (a.events ≡ session_ended r.org_id r.session_id shipped_reason r.final_branch_name ∷ [])
unfolding after_ended
mark_shipped_ends caller db r now s v m e st = rw (mark_shipped_steps caller db r now s m e st) (
    ship_release-Shipped (after_ended db r now) r s now (get_active_lock r.session_id db.locks) v
      (get_session-ended r.org_id r.session_id now db.sessions s e) refl)
