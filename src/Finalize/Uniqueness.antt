-- ===== src/Finalize/Uniqueness.antt =====
-- How the writes of finalize_locks.sql and the steps of lock_acquire.go's transaction change the number
-- of a session's active locks.
use jamsesh.Prelude.{
  ◌-◌, [], ap, arith, Bool, List, none, Option, Option-cases, refl, some, true, ℕ, ◌∷◌, ◌≡◌, ◌≤◌,
}
use jamsesh.Finalize.Acquire.{
  AcquirePlan, done, insert_step, new_lock, release_step, supersede_step,
}
use jamsesh.Finalize.Expiry.{finalize_lock_ttl}
use jamsesh.Finalize.Protocol.{Outage}
use jamsesh.Finalize.Store.{
  count_where, get_active_lock, insert_lock, is_active, Lock, mark_released, release_if_stale,
  release_lock, supersede_lock, update_where,
}

abbrev pub active_count : ℕ → List Lock → ℕ
active_count session = count_where (is_active session)

pub record OneActive (ls : List Lock) : Type 0 where
  pub unique : (session : ℕ) → active_count session ls ≤ 1

-- No active row is found exactly where none is counted.
pub active_count-none :
    (session : ℕ) (ls : List Lock) → get_active_lock session ls ≡ none → active_count session ls ≡ 0
unfolding get_active_lock count_where
active_count-none session [] h = refl
active_count-none session (l ∷ ls) h =
    ground (arith, active_count-none session ls, Option-cases (get_active_lock session ls))

pub get_active-zero :
    (session : ℕ) (ls : List Lock) → active_count session ls ≡ 0 → get_active_lock session ls ≡ none
unfolding get_active_lock count_where
get_active-zero session [] h = refl
get_active-zero session (l ∷ ls) h = ground (arith, get_active-zero session ls)

-- An update that only takes rows out of the index keeps the count from growing.
pub count-update_where :
    (q p : Lock → Bool) (f : Lock → Lock)
    → ((l : Lock) → q (f l) ≡ true → q l ≡ true)
    → (ls : List Lock) → count_where q (update_where p f ls) ≤ count_where q ls
unfolding count_where update_where
count-update_where q p f h [] = omega arith
count-update_where q p f h (l ∷ ls) = ground (arith, h l, count-update_where q p f h ls)

released_active :
    (session now : ℕ) (l : Lock)
    → is_active session (mark_released now l) ≡ true
    → is_active session l ≡ true
unfolding is_active
released_active session now l h = ground arith

superseded_active :
    (session winner : ℕ) (l : Lock)
    → is_active session (record l { superseded_by = some winner }) ≡ true
    → is_active session l ≡ true
unfolding is_active
superseded_active session winner l h = ground arith

pub active_count-release :
    (session id now : ℕ) (ls : List Lock)
    → active_count session (release_lock id now ls) ≤ active_count session ls
unfolding release_lock
active_count-release session id now ls =
    count-update_where (is_active session) _ _ (released_active session now) ls

pub active_count-release_if_stale :
    (session id now cutoff : ℕ) (ls : List Lock)
    → active_count session (release_if_stale id now cutoff ls).0 ≤ active_count session ls
unfolding release_if_stale
active_count-release_if_stale session id now cutoff ls =
    count-update_where (is_active session) _ _ (released_active session now) ls

pub active_count-supersede :
    (session id winner : ℕ) (ls : List Lock)
    → active_count session (supersede_lock id winner ls) ≤ active_count session ls
unfolding supersede_lock
active_count-supersede session id winner ls =
    count-update_where (is_active session) _ _ (superseded_active session winner) ls

-- The unique index: an insert that is let through adds the first active row of its session.
pub active_count-insert :
    (session : ℕ) (l : Lock) (ls ls' : List Lock)
    → insert_lock l ls ≡ some ls'
    → active_count session ls ≤ 1
    → active_count session ls' ≤ 1
unfolding insert_lock count_where is_active
active_count-insert session l ls ls' e h = ground (
  arith,
  active_count-none l.session_id ls,
  same_count,
  Option-cases (get_active_lock l.session_id ls),
)
  where
    same_count : l.session_id ≡ session → active_count l.session_id ls ≡ active_count session ls
    same_count e = ap (λ s. active_count s ls) e

-- Each step of the transaction keeps the invariant.
pub release_step-OneActive :
    (down : Outage) (p : AcquirePlan) (old : Option Lock) (ls ls' : List Lock)
    → release_step down p old ls ≡ done ls'
    → (session : ℕ) → active_count session ls' ≤ active_count session ls
unfolding release_step
release_step-OneActive down p none ls ls' e session = ground arith
release_step-OneActive down p (some old) ls ls' e session = ground (
  arith,
  active_count-release session old.id p.now ls,
  active_count-release_if_stale session old.id p.now (p.now - finalize_lock_ttl) ls,
)

pub insert_step-OneActive :
    (down : Outage) (p : AcquirePlan) (ls ls' : List Lock)
    → insert_step down p ls ≡ done ls'
    → (session : ℕ) → active_count session ls ≤ 1
    → active_count session ls' ≤ 1
unfolding insert_step
insert_step-OneActive down p ls ls' e session h =
    ground (arith, active_count-insert session (new_lock p) ls ls')

pub supersede_step-OneActive :
    (down : Outage) (p : AcquirePlan) (ls ls' : List Lock)
    → supersede_step down p ls ≡ done ls'
    → (session : ℕ) → active_count session ls' ≤ active_count session ls
unfolding supersede_step
supersede_step-OneActive down p ls ls' e session =
    ground (arith, active_count-supersede session p.supersede_old_id p.new_lock_id ls)
