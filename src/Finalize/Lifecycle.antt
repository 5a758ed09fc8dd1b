-- ===== src/Finalize/Lifecycle.antt =====
-- The four handlers of internal/portal/finalize as sequences of writes, which may be interleaved freely.
use jamsesh.Prelude.{arith, List, Option, some, true, ℕ, ◌≡◌, ◌≤◌}
use jamsesh.Finalize.Acquire.{acquire_commit, AcquirePlan}
use jamsesh.Finalize.Patch.{
  curate, LockRequest, optional, patch, patch_curation, patch_live, patch_lock, PatchBody,
  store_curation,
}
use jamsesh.Finalize.Protocol.{check_session_membership, Outage}
use jamsesh.Finalize.Release.{release, release_held}
use jamsesh.Finalize.Ship.{
  mark_shipped, ship_done, ship_finalizing, ship_release, ship_status, ShipRequest,
}
use jamsesh.Finalize.Store.{Db, is_active, Lock, release_lock, Session}
use jamsesh.Finalize.Takeover.{acquire_commit-OneActive}
use jamsesh.Finalize.Uniqueness.{active_count, active_count-release, count-update_where, OneActive}
use jamsesh.Go.Strings.{Bytes}
use mathlib.Core.Option.{none}

curated_active :
    (session now : ℕ) (b : PatchBody) (shas : Bytes) (l : Lock)
    → is_active session (record l {
      selected_commit_shas = shas;
      target_branch = b.target_branch;
      base_sha = b.base_sha;
      mode = b.mode;
      commit_message = optional b.commit_message;
      last_activity_at = now;
    })
      ≡ true
    → is_active session l ≡ true
unfolding is_active
curated_active session now b shas l h = h

active_count-curate :
    (session id : ℕ) (b : PatchBody) (shas : Bytes) (now : ℕ) (ls : List Lock)
    → active_count session (curate id b shas now ls) ≤ active_count session ls
unfolding curate
active_count-curate session id b shas now ls =
    count-update_where (is_active session) _ _ (curated_active session now b shas) ls

-- None of the three other handlers brings a row into the index, on any branch.
active_count-patch :
    (marshal : List Bytes → Option Bytes) (down : Outage) (caller : Option ℕ) (db : Db)
    (r : LockRequest) (body : Option PatchBody) (now session : ℕ)
    → active_count session (patch marshal down caller db r body now).db.locks
      ≤ active_count session db.locks
unfolding patch patch_lock patch_live patch_curation store_curation check_session_membership
active_count-patch marshal down none db r body now session = omega arith
active_count-patch marshal down (some caller) db r none now session = omega arith
active_count-patch marshal down (some caller) db r (some b) now session =
    grind (arith, active_count-curate, active_count-release)

active_count-delete :
    (down : Outage) (caller : Option ℕ) (db : Db) (r : LockRequest) (now session : ℕ)
    → active_count session (release down caller db r now).db.locks ≤ active_count session db.locks
unfolding release release_held
active_count-delete down none db r now session = omega arith
active_count-delete down (some caller) db r now session = grind (arith, active_count-release)

active_count-ship :
    (down : Outage) (caller : Option ℕ) (db : Db) (r : ShipRequest) (now session : ℕ)
    → active_count session (mark_shipped down caller db r now).db.locks
      ≤ active_count session db.locks
unfolding mark_shipped ship_status ship_finalizing ship_release ship_done
active_count-ship down none db r now session = omega arith
active_count-ship down (some caller) db r now session = grind (arith, active_count-release)

-- A step of the portal: a transaction of lock_acquire.go, whatever its reads saw and whenever they were
-- made, one of the other three handlers, or one of their writes alone, where requests are interleaved.
pub data Step (db : Db) : Db → Type 0 where
  acquires : (down : Outage) (p : AcquirePlan) → Step db (acquire_commit down p db).db
  patches :
      (marshal : List Bytes → Option Bytes) (down : Outage) (caller : Option ℕ) (r : LockRequest)
      (body : Option PatchBody) (now : ℕ)
      → Step db (patch marshal down caller db r body now).db
  deletes :
      (down : Outage) (caller : Option ℕ) (r : LockRequest) (now : ℕ)
      → Step db (release down caller db r now).db
  ships :
      (down : Outage) (caller : Option ℕ) (r : ShipRequest) (now : ℕ)
      → Step db (mark_shipped down caller db r now).db
  writes_release : (id now : ℕ) → Step db (record db { locks = release_lock id now db.locks })
  writes_curation :
      (id : ℕ) (b : PatchBody) (shas : Bytes) (now : ℕ)
      → Step db (record db { locks = curate id b shas now db.locks })
  writes_sessions : (ss : List Session) → Step db (record db { sessions = ss })

pub data Run (db : Db) : Db → Type 0 where
  here : Run db db
  next : {mid last : Db} → Run db mid → Step mid last → Run db last

Step-OneActive : {db db' : Db} → Step db db' → OneActive db.locks → OneActive db'.locks
Step-OneActive {db} (acquires down p) v = acquire_commit-OneActive down p db v
Step-OneActive {db} (patches marshal down caller r body now) v = record {
  unique = λ s. omega (arith, v.unique s, active_count-patch marshal down caller db r body now s);
}
Step-OneActive {db} (deletes down caller r now) v = record {
  unique = λ s. omega (arith, v.unique s, active_count-delete down caller db r now s);
}
Step-OneActive {db} (ships down caller r now) v = record {
  unique = λ s. omega (arith, v.unique s, active_count-ship down caller db r now s);
}
Step-OneActive {db} (writes_release id now) v = record {
  unique = λ s. omega (arith, v.unique s, active_count-release s id now db.locks);
}
Step-OneActive {db} (writes_curation id b shas now) v = record {
  unique = λ s. omega (arith, v.unique s, active_count-curate s id b shas now db.locks);
}
Step-OneActive (writes_sessions ss) v = v

-- From tables in which every session has at most one active finalize lock, no run of acquire, patch,
-- release and mark-shipped steps, in any order and with any failing calls, leads to tables in which a
-- session has two.
pub Run-OneActive : {db db' : Db} → Run db db' → OneActive db.locks → OneActive db'.locks
Run-OneActive here v = v
Run-OneActive (next r s) v = Step-OneActive s (Run-OneActive r v)
