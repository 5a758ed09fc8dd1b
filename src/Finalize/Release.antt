-- ===== src/Finalize/Release.antt =====
-- internal/portal/finalize/lock_release.go.
use jamsesh.Prelude.{
  ◌&&◌, ◌==◌, [], Bool, false, if◌then◌else◌, List, none, not, Option, some, ◌||◌, ℕ,
}
use jamsesh.Finalize.Acquire.{Answer}
use jamsesh.Finalize.Patch.{LockRequest, on_fetch, unchanged}
use jamsesh.Finalize.Protocol.{
  check_session_membership, clear_pointer, err, fetch, get_lock_row, get_session_row,
  internal_error, invalid_token, lock_not_found, no_content, not_lock_holder, ok, on_membership,
  Outage, release_row,
}
use jamsesh.Finalize.Store.{Db, get_lock, get_session, Lock, release_lock, Session, update_session}
use jamsesh.Go.Strings.{is_some}

abbrev pub points_at : Session → ℕ → Bool
points_at s account = elim s.finalize_locked_by [ none ↦ false | some a ↦ a == account ]

-- ClearFinalizeLock
abbrev pub clear_pointer_of : ℕ → ℕ → List Session → List Session
clear_pointer_of org id = update_session org id λ s. record s { finalize_locked_by = none }

-- The pointer goes only if it still names the holder of the released lock; errors are dropped.
unfoldable pub clear_if_pointed : Outage → ℕ → ℕ → ℕ → List Session → List Session
clear_if_pointed down org session holder ss =
    elim (fetch (down get_session_row) (get_session org session ss)) [
      | err e ↦ ss
      | ok s ↦
          if points_at s holder && not (down clear_pointer)
          then clear_pointer_of org session ss
          else ss
    ]

unfoldable pub release_held : Outage → Db → ℕ → LockRequest → Lock → ℕ → Answer
unfolding clear_if_pointed
release_held down db caller r l now =
    if not (l.session_id == r.session_id) || not (l.org_id == r.org_id)
    then unchanged db lock_not_found
    else if not (l.acquired_by == caller)
    then unchanged db not_lock_holder
    else if is_some l.released_at
    then unchanged db no_content
    else if down release_row
    then unchanged db internal_error
    else record {
      response = no_content;
      db = record db {
        locks = release_lock l.id now db.locks;
        sessions = clear_if_pointed down r.org_id r.session_id l.acquired_by db.sessions;
      };
      events = [];
    }

-- ReleaseFinalizeLock
unfoldable pub release : Outage → Option ℕ → Db → LockRequest → ℕ → Answer
unfolding release_held check_session_membership
release down none db r now = unchanged db invalid_token
release down (some caller) db r now =
    on_membership (check_session_membership down db r.org_id r.session_id caller) (unchanged db) (
      on_fetch db (fetch (down get_lock_row) (get_lock r.lock_id db.locks)) lock_not_found
        λ l. release_held down db caller r l now)
