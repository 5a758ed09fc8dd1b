-- ===== src/Finalize/Takeover.antt =====
-- What a transaction of lock_acquire.go leaves behind, in whatever state of the tables it runs.
use jamsesh.Prelude.{
  ◌&&◌, ◌-◌, [], ap, arith, Bool, false, if◌then◌else◌, inl, inr, List, ltb, none, not, Option,
  Option-cases, refl, some, sym, true, ℕ, ◌∙◌, ◌∷◌, ◌≡◌, ◌≢◌, ◌≤◌, ◌⊎◌,
}
use jamsesh.Finalize.Acquire.{
  ◌>>=◌, abort, acquire_answer, acquire_commit, acquire_tx, AcquirePlan, attempt, done, exec,
  insert_step, new_lock, release_step, stale_lock_refreshed, status_step, store_error,
  supersede_step, Tx, TxError,
}
use jamsesh.Finalize.Expiry.{finalize_lock_ttl}
use jamsesh.Finalize.Protocol.{begin_tx, commit_tx, created, Outage, Response, set_pointer}
use jamsesh.Finalize.Store.{
  count_where, Db, get_active_lock, insert_lock, is_active, Lock, mark_released, release_if_stale,
  stale, supersede_lock, unique_violation, update_session, update_where,
}
use jamsesh.Finalize.Uniqueness.{
  active_count-none, active_count-supersede, get_active-zero, insert_step-OneActive, OneActive,
  release_step-OneActive, supersede_step-OneActive,
}

>>=_done {ℓ κ} :
    {A : Type ℓ} {B : Type κ} (m : Tx A) (f : A → Tx B) {b : B}
    → (m >>= f) ≡ done b
    → (a : A) × (m ≡ done a) × (f a ≡ done b)
>>=_done (done a) f h = (a, refl, h)
>>=_done (abort e) f h = cc

exec_done {ℓ} : {A : Type ℓ} (down : Bool) (a : A) {b : A} → exec down a ≡ done b → a ≡ b
exec_done true a h = cc
exec_done false a h = cc

Tx-cases {ℓ} : {A : Type ℓ} (t : Tx A) → ((e : TxError) × (t ≡ abort e)) ⊎ ((a : A) × (t ≡ done a))
Tx-cases (abort e) = inl (e, refl)
Tx-cases (done a) = inr (a, refl)

-- `acquire_tx` ends with `done` only if each of its steps does.
pub record Committed (down : Outage) (p : AcquirePlan) (db db' : Db) : Type 0 where
  pub released : List Lock
  pub inserted : List Lock
  pub release_eq : release_step down p p.existing db.locks ≡ done released
  pub insert_eq : insert_step down p released ≡ done inserted
  pub supersede_eq : supersede_step down p inserted ≡ done db'.locks
  pub status_eq :
      status_step down p (
        update_session p.org_id p.session_id
          (λ s. record s { finalize_locked_by = some p.caller })
          db.sessions)
      ≡ done db'.sessions

acquire_tx-Committed :
    (down : Outage) (p : AcquirePlan) (db db' : Db)
    → acquire_tx down p db ≡ done db'
    → Committed down p db db'
unfolding acquire_tx
acquire_tx-Committed down p db db' h =
    let (_, _, h₁) = >>=_done (attempt (down begin_tx)) _ h in
    let (released, e₁, h₂) = >>=_done (release_step down p p.existing db.locks) _ h₁ in
    let (inserted, e₂, h₃) = >>=_done (insert_step down p released) _ h₂ in
    let (superseded, e₃, h₄) = >>=_done (supersede_step down p inserted) _ h₃ in
    let (pointed, e₄, h₅) = >>=_done (exec (down set_pointer) _) _ h₄ in
    let (moved, e₅, h₆) = >>=_done (status_step down p pointed) _ h₅ in
    let last = exec_done (down commit_tx) _ h₆ in
    let same = exec_done (down set_pointer) _ e₄ in
    record {
      released = released;
      inserted = inserted;
      release_eq = e₁;
      insert_eq = e₂;
      supersede_eq = e₃ ∙ ap done (ap (λ d. d.locks) last);
      status_eq = ap (status_step down p) same ∙ e₅ ∙ ap done (ap (λ d. d.sessions) last);
    }

-- Whatever happened since the reads, and whichever call of the store fails, the transaction keeps the
-- sessions at one active lock each.
pub acquire_commit-OneActive :
    (down : Outage) (p : AcquirePlan) (db : Db)
    → OneActive db.locks
    → OneActive (acquire_commit down p db).db.locks
unfolding acquire_commit acquire_answer
acquire_commit-OneActive down p db v = elim (Tx-cases (acquire_tx down p db)) [
  | inl (e, q) ↦ rw (q, acquire_commit) (aborted e)
  | inr (db', q) ↦ rw (q, acquire_commit) (kept db' (acquire_tx-Committed down p db db' q))
]
  where
    aborted : (e : TxError) → OneActive (acquire_answer p db (abort e)).db.locks
    aborted stale_lock_refreshed = v
    aborted (store_error unique_violation) = v
    aborted (store_error _) = v

    kept : (db' : Db) → Committed down p db db' → OneActive db'.locks
    kept db' c = record {
      unique = λ s. omega (
        arith,
        v.unique s,
        release_step-OneActive down p p.existing db.locks c.released c.release_eq s,
        insert_step-OneActive down p c.released c.inserted c.insert_eq s,
        supersede_step-OneActive down p c.inserted db'.locks c.supersede_eq s,
      );
    }

abbrev pub is_created : Response → Bool
is_created (created s) = true
is_created _ = false

-- Conversely a 201 comes from a committed transaction, and describes the row it has inserted.
pub created-Committed :
    (down : Outage) (p : AcquirePlan) (db : Db)
    → is_created (acquire_commit down p db).response ≡ true
    → Committed down p db (acquire_commit down p db).db
unfolding acquire_commit acquire_answer
created-Committed down p db h = elim (Tx-cases (acquire_tx down p db)) [
  | inl (e, q) ↦ absurd (refused e (rw (q, acquire_commit) at h))
  | inr (db', q) ↦ rw (q, acquire_commit) (acquire_tx-Committed down p db db' q)
]
  where
    refused : (e : TxError) → is_created (acquire_answer p db (abort e)).response ≡ true → ⊥
    refused e h = ground arith

-- Active, and touched at or after the cutoff.
abbrev pub is_fresh : ℕ → ℕ → Lock → Bool
is_fresh session cutoff l = is_active session l && not (ltb l.last_activity_at cutoff)

count-update_keep :
    (q p : Lock → Bool) (f : Lock → Lock)
    → ((l : Lock) → q l ≡ true → q (if p l then f l else l) ≡ true)
    → (ls : List Lock) → count_where q ls ≤ count_where q (update_where p f ls)
unfolding count_where update_where
count-update_keep q p f h [] = omega arith
count-update_keep q p f h (l ∷ ls) = ground (arith, h l, count-update_keep q p f h ls)

count_mono :
    (q r : Lock → Bool)
    → ((l : Lock) → q l ≡ true → r l ≡ true)
    → (ls : List Lock) → count_where q ls ≤ count_where r ls
unfolding count_where
count_mono q r h [] = omega arith
count_mono q r h (l ∷ ls) = ground (arith, h l, count_mono q r h ls)

stale_not_fresh :
    (session id now cutoff : ℕ) (l : Lock)
    → is_fresh session cutoff l ≡ true
    → is_fresh session cutoff (if stale id cutoff l then mark_released now l else l) ≡ true
stale_not_fresh session id now cutoff l h = ground arith

fresh-release_step :
    (down : Outage) (p : AcquirePlan) (old : Option Lock) (ls ls' : List Lock)
    → p.supersede_old_id ≡ 0
    → release_step down p old ls ≡ done ls'
    → let fresh = is_fresh p.session_id (p.now - finalize_lock_ttl) in
      count_where fresh ls ≤ count_where fresh ls'
unfolding release_step release_if_stale
fresh-release_step down p none ls ls' z h = ground arith
fresh-release_step down p (some old) ls ls' z h = ground (
  arith,
  count-update_keep (is_fresh p.session_id (p.now - finalize_lock_ttl))
      (stale old.id (p.now - finalize_lock_ttl)) (mark_released p.now)
      (stale_not_fresh p.session_id old.id p.now (p.now - finalize_lock_ttl)) ls,
)

insert_step-none :
    (down : Outage) (p : AcquirePlan) (ls ls' : List Lock)
    → insert_step down p ls ≡ done ls'
    → get_active_lock p.session_id ls ≡ none
unfolding insert_step insert_lock new_lock
insert_step-none down p ls ls' h = ground (arith, Option-cases (get_active_lock p.session_id ls))

-- Without an override, a 201 proves that at the moment of the transaction the session had no active lock
-- touched within the last 30 minutes: a holder who refreshes between the reads and the transaction keeps
-- the lock.
pub acquire_commit_no_theft :
    (down : Outage) (p : AcquirePlan) (db : Db)
    → p.supersede_old_id ≡ 0
    → is_created (acquire_commit down p db).response ≡ true
    → count_where (is_fresh p.session_id (p.now - finalize_lock_ttl)) db.locks ≡ 0
acquire_commit_no_theft down p db z h =
    let c = created-Committed down p db h in
    omega (
      arith,
      fresh-release_step down p p.existing db.locks c.released z c.release_eq,
      count_mono (is_fresh p.session_id (p.now - finalize_lock_ttl)) (is_active p.session_id)
          (λ l e. ground arith) c.released,
      active_count-none p.session_id c.released
          (insert_step-none down p c.released c.inserted c.insert_eq),
    )

-- The row that the transaction inserted.
insert_step_eq :
    (down : Outage) (p : AcquirePlan) (ls ls' : List Lock)
    → insert_step down p ls ≡ done ls'
    → ls' ≡ new_lock p ∷ ls
unfolding insert_step insert_lock
insert_step_eq down p ls ls' h = ground arith

supersede_others :
    (session id winner : ℕ) (ls : List Lock)
    → get_active_lock session ls ≡ none
    → get_active_lock session (supersede_lock id winner ls) ≡ none
supersede_others session id winner ls h =
    get_active-zero session _
      (omega (arith, active_count-none session ls h, active_count-supersede session id winner ls))

active_after :
    (down : Outage) (p : AcquirePlan) (ls ls' : List Lock)
    → p.supersede_old_id ≢ p.new_lock_id
    → get_active_lock p.session_id ls ≡ none
    → supersede_step down p (new_lock p ∷ ls) ≡ done ls'
    → get_active_lock p.session_id ls' ≡ some (new_lock p)
unfolding supersede_step supersede_lock update_where get_active_lock new_lock is_active
active_after down p ls ls' ne h e =
    ground (arith, supersede_others p.session_id p.supersede_old_id p.new_lock_id ls)

-- A 201 makes the caller's new row the active lock of the session, also where the old one is superseded,
-- as long as the new identifier is not that of the superseded lock.
pub acquire_commit_holds :
    (down : Outage) (p : AcquirePlan) (db : Db)
    → p.supersede_old_id ≢ p.new_lock_id
    → is_created (acquire_commit down p db).response ≡ true
    → get_active_lock p.session_id (acquire_commit down p db).db.locks ≡ some (new_lock p)
acquire_commit_holds down p db ne h =
    let c = created-Committed down p db h in
    active_after down p c.released _ ne (insert_step-none down p c.released c.inserted c.insert_eq)
      (ap (supersede_step down p) (sym (insert_step_eq down p c.released c.inserted c.insert_eq))
        ∙ c.supersede_eq)
