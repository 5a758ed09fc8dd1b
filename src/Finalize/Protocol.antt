-- ===== src/Finalize/Protocol.antt =====
-- What the finalize handlers share: the answers they give, the calls of the store that may fail, and
-- the membership check of internal/portal/finalize/membership.go.
use jamsesh.Prelude.{Bool, false, if◌then◌else◌, none, Option, some, true, ℕ}
use jamsesh.Finalize.Expiry.{lock_expires_at}
use jamsesh.Finalize.Store.{
  Db, driver_failure, get_session, is_org_member, is_session_member, Lock, not_found, Session,
  StoreError,
}
use jamsesh.Go.Strings.{Bytes}

-- The calls of the store that a request makes. `down c` says that the driver fails this request's call.
pub data Call : Type 0 where
  get_org_member get_session_member get_session_for_membership get_session_row get_active_row
        get_lock_row refetch_lock_row begin_tx commit_tx release_if_stale_row release_row insert_row
        supersede_row set_pointer set_status set_end_reason clear_pointer update_curation :
      Call

abbrev pub Outage : Type 0
Outage = Call → Bool

pub data Result {ℓ} (A : Type ℓ) : Type ℓ where
  ok : A → Result A
  err : StoreError → Result A

-- A `:one` query.
abbrev pub fetch {ℓ} : {A : Type ℓ} → Bool → Option A → Result A
fetch true o = err driver_failure
fetch false none = err not_found
fetch false (some a) = ok a

abbrev pub row : Bool → Option (Unit {0})
row b = if b then some tt else none

pub data Verdict : Type 0 where
  member_ok member_not_org_member member_not_session_member member_session_not_found : Verdict

-- checkSessionMembership
unfoldable pub check_session_membership : Outage → Db → ℕ → ℕ → ℕ → Result Verdict
check_session_membership down db org session account =
    elim (fetch (down get_org_member) (row (is_org_member org account db.org_members))) [
      | err not_found ↦ ok member_not_org_member
      | err e ↦ err e
      | ok _ ↦
          elim (fetch (down get_session_member)
            (row (is_session_member org session account db.session_members))) [
              | err not_found ↦
                  elim (fetch (down get_session_for_membership)
                    (get_session org session db.sessions)) [
                      | err not_found ↦ ok member_session_not_found
                      | err e ↦ err e
                      | ok _ ↦ ok member_not_session_member
                    ]
              | err e ↦ err e
              | ok _ ↦ ok member_ok
            ]
    ]

-- openapi.LockStatus
pub record LockStatus : Type 0 where
  pub lock_id : ℕ
  pub held_by_account_id : ℕ
  pub acquired_at : ℕ
  pub last_activity_at : ℕ
  pub expires_at : ℕ
  pub is_caller : Bool

-- The answers: their status code is in the comment behind each.
pub data Response : Type 0 where
  invalid_token : Response  -- 401
  body_required invalid_mode invalid_target_branch invalid_base_sha : Response  -- 400
  not_member_of_org not_member_of_session not_lock_holder : Response  -- 403
  session_not_found lock_not_found : Response  -- 404
  lock_held_by_other : (held_by lock_id expires_at : ℕ) → Response  -- 409
  override_race_lost lock_released lock_expired session_not_finalizing : Response  -- 409
  lock_superseded : (winner : ℕ) → Response  -- 409
  session_already_ended : Option Bytes → Response  -- 409
  created : LockStatus → Response  -- 201
  updated : Lock → Response  -- 200
  shipped : Session → Response  -- 200
  no_content : Response  -- 204
  internal_error : Response  -- 500

pub data Event : Type 0 where
  session_finalizing : (org session : ℕ) → Event
  session_ended : (org session : ℕ) (reason final_branch : Bytes) → Event

-- The 403 and 404 answers of the `switch verdict` that each handler has, or the rest of the handler.
abbrev pub on_membership {ℓ} : {A : Type ℓ} → Result Verdict → (Response → A) → A → A
on_membership (err e) answer rest = answer internal_error
on_membership (ok member_not_org_member) answer rest = answer not_member_of_org
on_membership (ok member_not_session_member) answer rest = answer not_member_of_session
on_membership (ok member_session_not_found) answer rest = answer session_not_found
on_membership (ok member_ok) answer rest = rest

-- lockStatus
unfoldable pub lock_status : Lock → Bool → LockStatus
unfolding lock_expires_at
lock_status l is_caller = record {
  lock_id = l.id;
  held_by_account_id = l.acquired_by;
  acquired_at = l.acquired_at;
  last_activity_at = l.last_activity_at;
  expires_at = lock_expires_at l.last_activity_at;
  is_caller = is_caller;
}
