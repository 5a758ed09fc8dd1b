-- ===== src/Finalize/Exclusion.antt =====
-- What a caller of the finalize handlers can rely on, handler by handler.
use jamsesh.Prelude.{[], arith, false, List, none, Option, refl, some, true, ℕ, ◌≡◌, ◌≢◌}
use jamsesh.Finalize.Acquire.{acquire, acquire_branches, acquire_preflight, AcquireRequest}
use jamsesh.Finalize.Escape.{validate_base_sha, validate_target_branch}
use jamsesh.Finalize.Expiry.{is_lock_expired}
use jamsesh.Finalize.Patch.{
  LockRequest, patch, patch_curation, patch_live, patch_lock, PatchBody, store_curation,
}
use jamsesh.Finalize.Protocol.{check_session_membership, created, lock_status, Outage, updated}
use jamsesh.Finalize.Store.{
  Db, get_active_lock, get_lock, get_session, is_org_member, is_session_member, Lock, Session,
}
use jamsesh.Go.Strings.{Bytes}

-- The caller is a member of both the organisation and the session.
pub record Admitted (db : Db) (org session caller : ℕ) : Type 0 where
  pub in_org : is_org_member org caller db.org_members ≡ true
  pub in_session : is_session_member org session caller db.session_members ≡ true

-- The store answers every call.
abbrev pub healthy : Outage
healthy _ = false

-- With a live store, a member who asks for the lock while he holds the active lock gets a 201 with that
-- lock, whatever the override says, and nothing is written.
pub acquire_reentrant :
    (db : Db) (r : AcquireRequest) (caller now new_id : ℕ) (s : Session) (l : Lock)
    → Admitted db r.org_id r.session_id caller
    → get_session r.org_id r.session_id db.sessions ≡ some s
    → get_active_lock r.session_id db.locks ≡ some l
    → l.acquired_by ≡ caller
    → let a = acquire healthy (some caller) db r now new_id in
      (a.response ≡ created (lock_status l true)) × (a.db ≡ db) × (a.events ≡ [])
unfolding acquire acquire_preflight acquire_branches check_session_membership
acquire_reentrant db r caller now new_id s l m es el e = ground arith

-- A PATCH that answers 200 was made by a member holding the named lock, which was neither superseded,
-- released nor expired, and its branch and base SHA have passed the shape checks.
pub patch_updated :
    (marshal : List Bytes → Option Bytes) (down : Outage) (caller : ℕ) (db : Db) (r : LockRequest)
    (b : PatchBody) (now : ℕ) (l' : Lock)
    → (patch marshal down (some caller) db r (some b) now).response ≡ updated l'
    → (l : Lock) × (get_lock r.lock_id db.locks ≡ some l)
      × (l.acquired_by ≡ caller)
      × (l.session_id ≡ r.session_id)
      × (l.superseded_by ≡ none)
      × (l.released_at ≡ none)
      × (is_lock_expired l.last_activity_at now ≡ false)
      × (validate_target_branch b.target_branch ≡ true)
      × (validate_base_sha b.base_sha ≡ true)
unfolding patch patch_lock patch_live patch_curation store_curation
patch_updated marshal down caller db r b now l' h = patched (get_lock r.lock_id db.locks) refl
  where
    patched :
        (o : Option Lock)
        → get_lock r.lock_id db.locks ≡ o
        → (l : Lock) × (get_lock r.lock_id db.locks ≡ some l)
          × (l.acquired_by ≡ caller)
          × (l.session_id ≡ r.session_id)
          × (l.superseded_by ≡ none)
          × (l.released_at ≡ none)
          × (is_lock_expired l.last_activity_at now ≡ false)
          × (validate_target_branch b.target_branch ≡ true)
          × (validate_base_sha b.base_sha ≡ true)
    patched none e = absurd (ground arith)
    patched (some l) e = (
      l,
      e,
      ground arith,
      ground arith,
      ground arith,
      ground arith,
      ground arith,
      ground arith,
      ground arith,
    )

-- Nobody but the holder changes a lock through PATCH: for any other caller the lock table stays as it is.
pub patch_others :
    (marshal : List Bytes → Option Bytes) (down : Outage) (caller : ℕ) (db : Db) (r : LockRequest)
    (b : Option PatchBody) (now : ℕ) (l : Lock)
    → get_lock r.lock_id db.locks ≡ some l
    → l.acquired_by ≢ caller
    → (patch marshal down (some caller) db r b now).db ≡ db
unfolding patch patch_lock
patch_others marshal down caller db r b now l e ne = ground arith
