-- ===== src/Finalize/Acquire.antt =====
-- internal/portal/finalize/lock_acquire.go. The handler reads first and writes in one transaction
-- afterwards; other requests may run between the two, so they are two functions.
use jamsesh.Prelude.{
  ◌&&◌, ◌-◌, ◌==◌, [], Bool, false, if◌then◌else◌, List, none, not, Option, some, true, ℕ, ◌∷◌,
}
use jamsesh.Finalize.Expiry.{finalize_lock_ttl, is_lock_expired, lock_expires_at}
use jamsesh.Finalize.Protocol.{
  begin_tx, check_session_membership, commit_tx, created, err, Event, fetch, get_active_row,
  get_session_row, insert_row, internal_error, invalid_token, lock_held_by_other, lock_status, ok,
  on_membership, Outage, override_race_lost, release_if_stale_row, release_row, Response,
  session_finalizing, session_not_found, set_pointer, set_status, supersede_row,
}
use jamsesh.Finalize.Store.{
  active, Db, driver_failure, finalizing, get_active_lock, get_session, insert_lock, Lock,
  not_found, release_if_stale, release_lock, Session, Status, StoreError, supersede_lock,
  unique_violation, update_session,
}
use jamsesh.Go.Strings.{codes}

pub record AcquireRequest : Type 0 where
  pub org_id : ℕ
  pub session_id : ℕ
  pub body : Option Bool  -- the body's `override`

-- What the reads hand to the transaction. An empty `supersede_old_id` is 0.
pub record AcquirePlan : Type 0 where
  pub org_id : ℕ
  pub session_id : ℕ
  pub caller : ℕ
  pub now : ℕ
  pub new_lock_id : ℕ
  pub existing : Option Lock
  pub supersede_old_id : ℕ
  pub session_status : Status

pub data Preflight : Type 0 where
  respond : Response → Preflight
  mutate : AcquirePlan → Preflight

abbrev overrides : Option Bool → Bool
overrides none = false
overrides (some b) = b

-- The branches on the lock that the reads found.
unfoldable pub acquire_branches : AcquireRequest → ℕ → ℕ → ℕ → Status → Option Lock → Preflight
unfolding is_lock_expired lock_expires_at lock_status
acquire_branches r caller now new_id status none = mutate (record {
  org_id = r.org_id;
  session_id = r.session_id;
  caller = caller;
  now = now;
  new_lock_id = new_id;
  existing = none;
  supersede_old_id = 0;
  session_status = status;
})
acquire_branches r caller now new_id status (some l) =
    if l.acquired_by == caller
    then respond (created (lock_status l true))
    else if not (is_lock_expired l.last_activity_at now) && not (overrides r.body)
    then respond (lock_held_by_other l.acquired_by l.id (lock_expires_at l.last_activity_at))
    else mutate (record {
      org_id = r.org_id;
      session_id = r.session_id;
      caller = caller;
      now = now;
      new_lock_id = new_id;
      existing = some l;
      supersede_old_id = if is_lock_expired l.last_activity_at now then 0 else l.id;
      session_status = status;
    })

-- AcquireFinalizeLock up to the transaction: `caller` is the account of the context.
unfoldable pub acquire_preflight : Outage → Option ℕ → Db → AcquireRequest → ℕ → ℕ → Preflight
unfolding acquire_branches check_session_membership
acquire_preflight down none db r now new_id = respond invalid_token
acquire_preflight down (some caller) db r now new_id =
    on_membership (check_session_membership down db r.org_id r.session_id caller) respond
      (elim (fetch (down get_session_row) (get_session r.org_id r.session_id db.sessions)) [
        | err not_found ↦ respond session_not_found
        | err e ↦ respond internal_error
        | ok sess ↦ elim (fetch (down get_active_row) (get_active_lock r.session_id db.locks)) [
          | err not_found ↦ acquire_branches r caller now new_id sess.status none
          | err e ↦ respond internal_error
          | ok l ↦ acquire_branches r caller now new_id sess.status (some l)
        ]
      ])

-- The error that leaves the transaction's closure.
pub data TxError : Type 0 where
  stale_lock_refreshed : TxError
  store_error : StoreError → TxError

pub data Tx {ℓ} (A : Type ℓ) : Type ℓ where
  done : A → Tx A
  abort : TxError → Tx A

infixl 5 ◌>>=◌
abbrev pub ◌>>=◌ {ℓ κ} : {A : Type ℓ} {B : Type κ} → Tx A → (A → Tx B) → Tx B
done a >>= f = f a
abort e >>= f = abort e

abbrev pub exec {ℓ} : {A : Type ℓ} → Bool → A → Tx A
exec true a = abort (store_error driver_failure)
exec false a = done a

abbrev pub attempt : Bool → Tx (Unit {0})
attempt down = exec down tt

-- Branches 3 and 5: the old lock goes first, so that the insert meets the unique index.
unfoldable pub release_step : Outage → AcquirePlan → Option Lock → List Lock → Tx (List Lock)
unfolding release_if_stale release_lock
release_step down p none ls = done ls
release_step down p (some old) ls =
    if p.supersede_old_id == 0
    then (do
      let (ls', n) = release_if_stale old.id p.now (p.now - finalize_lock_ttl) ls
      r ← exec (down release_if_stale_row) ls'
      (if n == 0 then abort stale_lock_refreshed else done r))
    else exec (down release_row) (release_lock old.id p.now ls)

unfoldable pub new_lock : AcquirePlan → Lock
new_lock p = record {
  id = p.new_lock_id;
  org_id = p.org_id;
  session_id = p.session_id;
  acquired_by = p.caller;
  acquired_at = p.now;
  last_activity_at = p.now;
  selected_commit_shas = codes "[]";
  target_branch = [];
  base_sha = [];
  mode = codes "squash";
  commit_message = none;
  superseded_by = none;
  released_at = none;
}

unfoldable pub insert_step : Outage → AcquirePlan → List Lock → Tx (List Lock)
unfolding new_lock
insert_step down p ls = do
  _ ← attempt (down insert_row)
  (elim (insert_lock (new_lock p) ls) [
    | none ↦ abort (store_error unique_violation)
    | some ls' ↦ done ls'
  ])

unfoldable pub supersede_step : Outage → AcquirePlan → List Lock → Tx (List Lock)
supersede_step down p ls =
    if p.supersede_old_id == 0
    then done ls
    else exec (down supersede_row) (supersede_lock p.supersede_old_id p.new_lock_id ls)

abbrev pub was_active : Status → Bool
was_active active = true
was_active _ = false

unfoldable pub status_step : Outage → AcquirePlan → List Session → Tx (List Session)
status_step down p ss =
    if was_active p.session_status
    then exec (down set_status)
        (update_session p.org_id p.session_id (λ s. record s { status = finalizing }) ss)
    else done ss

-- The closure that AcquireFinalizeLock hands to WithTx.
unfoldable pub acquire_tx : Outage → AcquirePlan → Db → Tx Db
acquire_tx down p db = do
  _ ← attempt (down begin_tx)
  released ← release_step down p p.existing db.locks
  inserted ← insert_step down p released
  superseded ← supersede_step down p inserted
  pointed ← exec (down set_pointer) (
      update_session p.org_id p.session_id (λ s. record s { finalize_locked_by = some p.caller })
        db.sessions)
  moved ← status_step down p pointed
  exec (down commit_tx) (record db { locks = superseded; sessions = moved })

pub record Answer : Type 0 where
  pub response : Response
  pub db : Db
  pub events : List Event

held_by : Option Lock → Response
held_by none = internal_error
held_by (some l) = lock_held_by_other l.acquired_by l.id (lock_expires_at l.last_activity_at)

-- The mapping of the transaction's outcome to an answer. An aborted transaction is rolled back.
unfoldable pub acquire_answer : AcquirePlan → Db → Tx Db → Answer
unfolding held_by new_lock lock_status
acquire_answer p db (abort stale_lock_refreshed) = record {
  response = held_by p.existing;
  db = db;
  events = [];
}
acquire_answer p db (abort (store_error unique_violation)) = record {
  response = override_race_lost;
  db = db;
  events = [];
}
acquire_answer p db (abort (store_error e)) = record {
  response = internal_error;
  db = db;
  events = [];
}
acquire_answer p db (done db') = record {
  response = created (lock_status (new_lock p) true);
  db = db';
  events =
      if was_active p.session_status then session_finalizing p.org_id p.session_id ∷ [] else [];
}

unfoldable pub acquire_commit : Outage → AcquirePlan → Db → Answer
unfolding acquire_answer acquire_tx
acquire_commit down p db = acquire_answer p db (acquire_tx down p db)

abbrev pub finish_preflight : Outage → Db → Preflight → Answer
finish_preflight down db (respond r) = record { response = r; db = db; events = [] }
finish_preflight down db (mutate p) = acquire_commit down p db

-- The whole handler, with nothing between its reads and its transaction.
unfoldable pub acquire : Outage → Option ℕ → Db → AcquireRequest → ℕ → ℕ → Answer
unfolding acquire_preflight acquire_commit
acquire down caller db r now new_id =
    finish_preflight down db (acquire_preflight down caller db r now new_id)
