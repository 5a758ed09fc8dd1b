-- ===== src/Finalize/Patch.antt =====
-- internal/portal/finalize/lock_patch.go. The JSON of the selection (encoding/json) is a parameter.
use jamsesh.Prelude.{◌&&◌, ◌==◌, [], if◌then◌else◌, List, none, not, Option, some, ◌||◌, ℕ, ◌∷◌}
use jamsesh.Finalize.Acquire.{Answer}
use jamsesh.Finalize.Escape.{validate_base_sha, validate_target_branch}
use jamsesh.Finalize.Expiry.{is_lock_expired}
use jamsesh.Finalize.Protocol.{
  body_required, check_session_membership, err, fetch, get_lock_row, internal_error,
  invalid_base_sha, invalid_mode, invalid_target_branch, invalid_token, lock_expired,
  lock_not_found, lock_released, lock_superseded, not_lock_holder, ok, on_membership, Outage,
  refetch_lock_row, release_row, Response, Result, update_curation, updated,
}
use jamsesh.Finalize.Store.{Db, get_lock, Lock, not_found, release_lock, update_where}
use jamsesh.Go.Strings.{Bytes, codes, is_some, same}

pub record PatchBody : Type 0 where
  pub mode : Bytes
  pub target_branch : Bytes
  pub base_sha : Bytes
  pub selected_commit_shas : List Bytes
  pub commit_message : Bytes

pub record LockRequest : Type 0 where
  pub org_id : ℕ
  pub session_id : ℕ
  pub lock_id : ℕ

-- A null for the empty message.
abbrev pub optional : Bytes → Option Bytes
optional [] = none
optional (c ∷ s) = some (c ∷ s)

-- UpdateFinalizeLockCuration
unfoldable pub curate : ℕ → PatchBody → Bytes → ℕ → List Lock → List Lock
unfolding update_where
curate id b shas now =
    update_where (λ l. l.id == id)
      λ l. record l {
        selected_commit_shas = shas;
        target_branch = b.target_branch;
        base_sha = b.base_sha;
        mode = b.mode;
        commit_message = optional b.commit_message;
        last_activity_at = now;
      }

abbrev pub unchanged : Db → Response → Answer
unchanged db r = record { response = r; db = db; events = [] }

abbrev pub update_locks : Db → List Lock → Response → Answer
update_locks db ls r = record { response = r; db = record db { locks = ls }; events = [] }

-- A missing row is a 404, any other error a 500.
abbrev pub on_fetch {ℓ} : {A : Type ℓ} → Db → Result A → Response → (A → Answer) → Answer
on_fetch db (err not_found) missing rest = unchanged db missing
on_fetch db (err e) missing rest = unchanged db internal_error
on_fetch db (ok a) missing rest = rest a

-- The re-fetch and the answer.
abbrev pub refetch : Outage → ℕ → List Lock → Response
refetch down id ls = elim (fetch (down refetch_lock_row) (get_lock id ls)) [
  | err e ↦ internal_error
  | ok l ↦ updated l
]

-- The update, with the selection as JSON, and the re-fetch.
unfoldable pub store_curation : Outage → Db → Lock → PatchBody → ℕ → Option Bytes → Answer
unfolding curate
store_curation down db l b now none = unchanged db internal_error
store_curation down db l b now (some shas) =
    if down update_curation
    then unchanged db internal_error
    else (let ls = curate l.id b shas now db.locks in update_locks db ls (refetch down l.id ls))

-- The checks of the body and the update, on a lock that is live.
unfoldable pub patch_curation :
    (List Bytes → Option Bytes) → Outage → Db → Lock → PatchBody → ℕ → Answer
unfolding store_curation
patch_curation marshal down db l b now =
    if not (same b.mode (codes "squash")) && not (same b.mode (codes "preserve"))
    then unchanged db invalid_mode
    else if not (validate_target_branch b.target_branch)
    then unchanged db invalid_target_branch
    else if not (validate_base_sha b.base_sha)
    then unchanged db invalid_base_sha
    else store_curation down db l b now (marshal b.selected_commit_shas)

-- The checks of the lock's own state, and the release of an idle one, whose error is dropped.
unfoldable pub patch_live :
    (List Bytes → Option Bytes) → Outage → Db → Lock → PatchBody → ℕ → Option ℕ → Answer
unfolding patch_curation
patch_live marshal down db l b now (some winner) = unchanged db (lock_superseded winner)
patch_live marshal down db l b now none =
    if is_some l.released_at
    then unchanged db lock_released
    else if is_lock_expired l.last_activity_at now
    then update_locks db (if down release_row then db.locks else release_lock l.id now db.locks)
        lock_expired
    else patch_curation marshal down db l b now

-- The checks on the lock that was read.
unfoldable pub patch_lock :
    (List Bytes → Option Bytes) → Outage → Db → ℕ → LockRequest → Lock → PatchBody → ℕ → Answer
unfolding patch_live
patch_lock marshal down db caller r l b now =
    if not (l.session_id == r.session_id) || not (l.org_id == r.org_id)
    then unchanged db lock_not_found
    else if not (l.acquired_by == caller)
    then unchanged db not_lock_holder
    else patch_live marshal down db l b now l.superseded_by

-- PatchFinalizeLock
unfoldable pub patch :
    (List Bytes → Option Bytes)
    → Outage
    → Option ℕ
    → Db
    → LockRequest
    → Option PatchBody
    → ℕ
    → Answer
unfolding patch_lock check_session_membership
patch marshal down none db r body now = unchanged db invalid_token
patch marshal down (some caller) db r none now = unchanged db body_required
patch marshal down (some caller) db r (some b) now =
    on_membership (check_session_membership down db r.org_id r.session_id caller) (unchanged db) (
      on_fetch db (fetch (down get_lock_row) (get_lock r.lock_id db.locks)) lock_not_found
        λ l. patch_lock marshal down db caller r l b now)
