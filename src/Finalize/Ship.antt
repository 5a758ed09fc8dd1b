-- ===== src/Finalize/Ship.antt =====
-- internal/portal/finalize/mark_shipped.go. The member list of the answer is left out of the model.
use jamsesh.Prelude.{[], Bool, false, if◌then◌else◌, List, none, not, Option, some, ℕ, ◌∷◌}
use jamsesh.Finalize.Acquire.{Answer}
use jamsesh.Finalize.Patch.{on_fetch, unchanged}
use jamsesh.Finalize.Protocol.{
  check_session_membership, clear_pointer, err, fetch, get_active_row, get_session_row,
  internal_error, invalid_token, ok, on_membership, Outage, release_row, session_already_ended,
  session_ended, session_not_finalizing, session_not_found, set_end_reason, set_status, shipped,
}
use jamsesh.Finalize.Release.{clear_pointer_of, points_at}
use jamsesh.Finalize.Store.{
  active, archived, Db, ended, finalizing, get_active_lock, get_session, not_found, release_lock,
  Session, Status, update_session,
}
use jamsesh.Go.Strings.{Bytes, codes, same}

pub record ShipRequest : Type 0 where
  pub org_id : ℕ
  pub session_id : ℕ
  pub final_branch_name : Bytes  -- empty without a body

abbrev pub shipped_reason : Bytes
shipped_reason = codes "shipped"

abbrev pub is_shipped : Session → Bool
is_shipped s = elim s.end_reason [ none ↦ false | some reason ↦ same reason shipped_reason ]

abbrev pub set_ended : ℕ → ℕ → List Session → List Session
set_ended org id = update_session org id λ s. record s { status = ended }

-- SetSessionEndReason
abbrev pub set_reason : ℕ → ℕ → ℕ → List Session → List Session
set_reason org id now =
    update_session org id λ s. record s { end_reason = some shipped_reason; ended_at = some now }

abbrev pub shipped_session : Session → ℕ → Session
shipped_session s now = record s {
  status = ended;
  end_reason = some shipped_reason;
  ended_at = some now;
  finalize_locked_by = none;
}

-- The answer of a completed transition, with its event.
unfoldable pub ship_done : Db → ShipRequest → Session → ℕ → Answer
ship_done db r s now = record {
  response = shipped (shipped_session s now);
  db = db;
  events = session_ended r.org_id r.session_id shipped_reason r.final_branch_name ∷ [];
}

-- The release of the active lock, if there is one, after the session row is written. `s` is the row as
-- it was read before.
unfoldable pub ship_release : Outage → Db → ShipRequest → Session → ℕ → Answer
unfolding ship_done
ship_release down db r s now =
    elim (fetch (down get_active_row) (get_active_lock r.session_id db.locks)) [
      | err not_found ↦ ship_done db r s now
      | err e ↦ unchanged db internal_error
      | ok l ↦
          if down release_row
          then unchanged db internal_error
          else (let freed = record db { locks = release_lock l.id now db.locks } in
              if not (points_at s l.acquired_by)
              then ship_done freed r s now
              else if down clear_pointer
              then unchanged freed internal_error
              else ship_done
                  (record freed {
                    sessions = clear_pointer_of r.org_id r.session_id freed.sessions;
                  })
                  r s now)
    ]

-- The transition from finalizing: three writes, not in one transaction.
unfoldable pub ship_finalizing : Outage → Db → ShipRequest → Session → ℕ → Answer
unfolding ship_release
ship_finalizing down db r s now =
    if down set_status
    then unchanged db internal_error
    else (let stopped = record db { sessions = set_ended r.org_id r.session_id db.sessions } in
        if down set_end_reason
        then unchanged stopped internal_error
        else ship_release down
            (record stopped { sessions = set_reason r.org_id r.session_id now stopped.sessions }) r
            s now)

abbrev already_ended : Db → Session → Answer
already_ended db s =
    if is_shipped s
    then unchanged db (shipped s)
    else unchanged db (session_already_ended s.end_reason)

unfoldable pub ship_status : Outage → Db → ShipRequest → Session → ℕ → Status → Answer
unfolding ship_finalizing
ship_status down db r s now ended = already_ended db s
ship_status down db r s now archived = already_ended db s
ship_status down db r s now active = unchanged db session_not_finalizing
ship_status down db r s now finalizing = ship_finalizing down db r s now

-- MarkSessionShipped
unfoldable pub mark_shipped : Outage → Option ℕ → Db → ShipRequest → ℕ → Answer
unfolding ship_status check_session_membership
mark_shipped down none db r now = unchanged db invalid_token
mark_shipped down (some caller) db r now =
    on_membership (check_session_membership down db r.org_id r.session_id caller) (unchanged db) (
      on_fetch db (fetch (down get_session_row) (get_session r.org_id r.session_id db.sessions))
        session_not_found λ s. ship_status down db r s now s.status)
