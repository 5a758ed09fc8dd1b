-- ===== src/Finalize/Store.antt =====
-- The tables that the finalize handlers read and write (db/schema/sqlite.sql), and the queries of
-- db/queries/sqlite/finalize_locks.sql and sessions.sql as functions on them.
-- An identifier is a number, and 0 is Go's empty string; a nullable column is an Option.
use jamsesh.Prelude.{
  ◌&&◌, ◌+◌, ◌==◌, [], Bool, false, if◌then◌else◌, List, ltb, none, not, Option, some, ◌||◌, ℕ, ◌∷◌,
}
use jamsesh.Go.Strings.{Bytes, is_some}

pub data Status : Type 0 where
  active finalizing ended archived : Status

pub record Session : Type 0 where
  pub id : ℕ
  pub org_id : ℕ
  pub goal : Bytes
  pub status : Status
  pub end_reason : Option Bytes
  pub ended_at : Option ℕ
  pub finalize_locked_by : Option ℕ

pub record Lock : Type 0 where
  pub id : ℕ
  pub org_id : ℕ
  pub session_id : ℕ
  pub acquired_by : ℕ
  pub acquired_at : ℕ
  pub last_activity_at : ℕ
  pub selected_commit_shas : Bytes
  pub target_branch : Bytes
  pub base_sha : Bytes
  pub mode : Bytes
  pub commit_message : Option Bytes
  pub superseded_by : Option ℕ
  pub released_at : Option ℕ

pub record Db : Type 0 where
  pub org_members : List (ℕ × ℕ)
  pub session_members : List (ℕ × ℕ × ℕ)
  pub sessions : List Session
  pub locks : List Lock

-- The errors of the store: the two it names, and any other error of the driver.
pub data StoreError : Type 0 where
  not_found unique_violation driver_failure : StoreError

-- A row of the partial index: neither released nor superseded.
unfoldable pub is_active : ℕ → Lock → Bool
is_active session l =
    (l.session_id == session) && (not (is_some l.released_at) && not (is_some l.superseded_by))

newer : Lock → Option Lock → Option Lock
newer l none = some l
newer l (some m) = if ltb l.acquired_at m.acquired_at then some m else some l

-- GetActiveFinalizeLockForSession
unfoldable pub get_active_lock : ℕ → List Lock → Option Lock
unfolding newer
get_active_lock session [] = none
get_active_lock session (l ∷ ls) =
    if is_active session l then newer l (get_active_lock session ls) else get_active_lock session ls

-- GetFinalizeLockByID
unfoldable pub get_lock : ℕ → List Lock → Option Lock
get_lock id [] = none
get_lock id (l ∷ ls) = if l.id == id then some l else get_lock id ls

-- InsertFinalizeLock: the primary key, and the unique index on the active rows of a session.
unfoldable pub insert_lock : Lock → List Lock → Option (List Lock)
insert_lock l ls =
    if is_some (get_lock l.id ls) || is_some (get_active_lock l.session_id ls)
    then none
    else some (l ∷ ls)

-- `UPDATE finalize_locks SET … WHERE id = ? AND …`.
unfoldable pub update_where : (Lock → Bool) → (Lock → Lock) → List Lock → List Lock
update_where p f [] = []
update_where p f (l ∷ ls) = (if p l then f l else l) ∷ update_where p f ls

unfoldable pub count_where : (Lock → Bool) → List Lock → ℕ
count_where p [] = 0
count_where p (l ∷ ls) = (if p l then 1 else 0) + count_where p ls

abbrev pub unreleased : ℕ → Lock → Bool
unreleased id l = (l.id == id) && not (is_some l.released_at)

abbrev pub stale : ℕ → ℕ → Lock → Bool
stale id cutoff l = unreleased id l && ltb l.last_activity_at cutoff

abbrev pub mark_released : ℕ → Lock → Lock
mark_released now l = record l { released_at = some now }

-- ReleaseFinalizeLock
unfoldable pub release_lock : ℕ → ℕ → List Lock → List Lock
unfolding update_where
release_lock id now = update_where (unreleased id) (mark_released now)

-- ReleaseFinalizeLockIfStale, with the number of rows that it affects.
unfoldable pub release_if_stale : ℕ → ℕ → ℕ → List Lock → List Lock × ℕ
unfolding update_where count_where
release_if_stale id now cutoff ls =
    (update_where (stale id cutoff) (mark_released now) ls, count_where (stale id cutoff) ls)

-- SupersedeFinalizeLock
unfoldable pub supersede_lock : ℕ → ℕ → List Lock → List Lock
unfolding update_where
supersede_lock id winner =
    update_where (λ l. l.id == id) (λ l. record l { superseded_by = some winner })

-- GetSession
unfoldable pub get_session : ℕ → ℕ → List Session → Option Session
get_session org id [] = none
get_session org id (s ∷ ss) =
    if (s.org_id == org) && (s.id == id) then some s else get_session org id ss

unfoldable pub update_session : ℕ → ℕ → (Session → Session) → List Session → List Session
update_session org id f [] = []
update_session org id f (s ∷ ss) =
    (if (s.org_id == org) && (s.id == id) then f s else s) ∷ update_session org id f ss

-- GetOrgMember, GetSessionMember
unfoldable pub is_org_member : ℕ → ℕ → List (ℕ × ℕ) → Bool
is_org_member org account [] = false
is_org_member org account ((o, a) ∷ ms) =
    ((o == org) && (a == account)) || is_org_member org account ms

unfoldable pub is_session_member : ℕ → ℕ → ℕ → List (ℕ × ℕ × ℕ) → Bool
is_session_member org session account [] = false
is_session_member org session account ((o, s, a) ∷ ms) =
    ((o == org) && ((s == session) && (a == account))) || is_session_member org session account ms
