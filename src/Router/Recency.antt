-- ===== src/Router/Recency.antt =====
-- What the hint cache (hint.go) remembers, and what it forgets.
use jamsesh.Prelude.{
  ◌+◌, ◌-◌, ◌==◌, ap, arith, Bool-cases, if◌then◌else◌, inl, inr, leb, length, List, ltb, negsuc,
  none, Option, Option-cases, pos, refl, some, suc, ℕ, ℤ, ◌∷◌, ◌≡◌, ◌≢◌, ◌≤◌, ◌⊎◌,
}
use jamsesh.Router.Cache.{
  Call, call, Entry, find, fresh_entry, get, gets, Hint, invalidate, invalidates, new_hint, remove,
  remove_back, run, set, sets,
}
use Prim.Native.Nat.{zero}
use mathlib.Core.List.{[]}

unfoldable pub count : ℕ → List Entry → ℕ
count s [] = 0
count s (e ∷ es) = (if e.session_id == s then 1 else 0) + count s es

-- At most one entry for each session, and no more entries than allowed.
pub record Bounded (h : Hint) : Type 0 where
  pub room : 1 ≤ h.max_entries
  pub fits : length h.ll ≤ h.max_entries
  pub unique : (s : ℕ) → count s h.ll ≤ 1

count-remove : (s t : ℕ) (es : List Entry) → count t (remove s es) ≤ count t es
unfolding count remove
count-remove s t [] = omega arith
count-remove s t (e ∷ es) = ground (arith, count-remove s t es)

count-remove_same : (s : ℕ) (es : List Entry) → count s es ≤ 1 → count s (remove s es) ≡ 0
unfolding count remove
count-remove_same s [] h = refl
count-remove_same s (e ∷ es) h = ground (arith, count-remove_same s es)

count-remove_back : (t : ℕ) (es : List Entry) → count t (remove_back es) ≤ count t es
unfolding count remove_back
count-remove_back t [] = omega arith
count-remove_back t (e ∷ []) = ground arith
count-remove_back t (e ∷ (f ∷ es)) = ground (arith, count-remove_back t (f ∷ es))

length-remove : (s : ℕ) (es : List Entry) → length (remove s es) ≤ length es
unfolding remove
length-remove s [] = omega arith
length-remove s (e ∷ es) = ground (arith, length-remove s es)

length-remove_found :
    (s : ℕ) (es : List Entry) (e : Entry)
    → find s es ≡ some e
    → length (remove s es) + 1 ≡ length es
unfolding remove find
length-remove_found s [] e h = cc
length-remove_found s (x ∷ es) e h = ground (arith, length-remove_found s es e)

length-remove_back : (es : List Entry) → length (remove_back es) ≡ length es - 1
unfolding remove_back
length-remove_back [] = omega arith
length-remove_back (e ∷ []) = omega arith
length-remove_back (e ∷ (f ∷ es)) = omega (arith, length-remove_back (f ∷ es))

find_id : (s : ℕ) (es : List Entry) (e : Entry) → find s es ≡ some e → e.session_id ≡ s
unfolding find
find_id s [] e h = cc
find_id s (x ∷ es) e h = ground (arith, find_id s es e)

count-find : (s : ℕ) (es : List Entry) → find s es ≡ none → count s es ≡ 0
unfolding find count
count-find s [] h = refl
count-find s (e ∷ es) h = ground (arith, count-find s es)

find-count : (s : ℕ) (es : List Entry) → count s es ≡ 0 → find s es ≡ none
unfolding find count
find-count s [] h = refl
find-count s (e ∷ es) h = ground (arith, find-count s es)

-- An entry put in front of a list without its session.
count-front :
    (e : Entry) (s t : ℕ) (es : List Entry)
    → e.session_id ≡ s
    → count s es ≡ 0
    → count t es ≤ 1
    → count t (e ∷ es) ≤ 1
unfolding count
count-front e s t es h z k = ground (arith, same_count)
  where
    same_count : s ≡ t → count s es ≡ count t es
    same_count q = ap (λ x. count x es) q

get-Bounded : (h : Hint) (s now : ℕ) → Bounded h → Bounded (get h s now).1
unfolding get
get-Bounded h s now b = elim (Option-cases (find s h.ll)) [
  | inl q ↦ rw (q, get) b
  | inr (e, q) ↦ elim (Bool-cases (ltb e.expiry now)) [
    | inl x ↦
        rw (q, x, get)
          (record {
            room = b.room;
            fits = omega (arith, b.fits, length-remove s h.ll);
            unique = λ t. omega (arith, b.unique t, count-remove s t h.ll);
          })
    | inr x ↦
        rw (q, x, get)
          (record {
            room = b.room;
            fits = omega (arith, b.fits, length-remove_found s h.ll e q);
            unique = λ t.
                count-front e s t (remove s h.ll) (find_id s h.ll e q)
                  (count-remove_same s h.ll (b.unique s))
                  (omega (arith, b.unique t, count-remove s t h.ll));
          })
  ]
]

set-Bounded : (h : Hint) (s p now : ℕ) → Bounded h → Bounded (set h s p now)
unfolding set
set-Bounded h s p now b = elim (Option-cases (find s h.ll)) [
  | inl q ↦ elim (Bool-cases (leb h.max_entries (length h.ll))) [
    | inl x ↦
        rw (q, x, set)
          (record {
            room = b.room;
            fits = omega (arith, b.room, b.fits, length-remove_back h.ll);
            unique = λ t.
                count-front (fresh_entry h s p now) s t (remove_back h.ll) refl
                  (omega (arith, count-find s h.ll q, count-remove_back s h.ll))
                  (omega (arith, b.unique t, count-remove_back t h.ll));
          })
    | inr x ↦
        rw (q, x, set)
          (record {
            room = b.room;
            fits = ground arith;
            unique = λ t.
                count-front (fresh_entry h s p now) s t h.ll refl (count-find s h.ll q)
                  (b.unique t);
          })
  ]
  | inr (e, q) ↦
      rw (q, set)
        (record {
          room = b.room;
          fits = omega (arith, b.fits, length-remove_found s h.ll e q);
          unique = λ t.
              count-front (fresh_entry h s p now) s t (remove s h.ll) refl
                (count-remove_same s h.ll (b.unique s))
                (omega (arith, b.unique t, count-remove s t h.ll));
        })
]

call-Bounded : (c : Call) (h : Hint) → Bounded h → Bounded (call c h)
unfolding call invalidate
call-Bounded (gets s now) h b = get-Bounded h s now b
call-Bounded (sets s p now) h b = set-Bounded h s p now b
call-Bounded (invalidates s) h b = record {
  room = b.room;
  fits = omega (arith, b.fits, length-remove s h.ll);
  unique = λ t. omega (arith, b.unique t, count-remove s t h.ll);
}

run_from-Bounded : (cs : List Call) (h : Hint) → Bounded h → Bounded (run cs h)
unfolding run
run_from-Bounded [] h b = b
run_from-Bounded (c ∷ cs) h b = run_from-Bounded cs (call c h) (call-Bounded c h b)

new-Bounded : (max ttl : ℤ) (h : Hint) → new_hint max ttl ≡ some h → Bounded h
unfolding new_hint count
new-Bounded (pos zero) ttl h e = cc
new-Bounded (negsuc n) ttl h e = cc
new-Bounded (pos (suc n)) (pos zero) h e = cc
new-Bounded (pos (suc n)) (negsuc t) h e = cc
new-Bounded (pos (suc n)) (pos (suc t)) h e = record {
  room = ground arith;
  fits = ground arith;
  unique = λ s. ground arith;
}

-- A cache that New returns holds, after any calls, at most one entry for each session, and never more
-- entries than it was allowed.
pub run-Bounded :
    (max ttl : ℤ) (h : Hint) (cs : List Call) → new_hint max ttl ≡ some h → Bounded (run cs h)
run-Bounded max ttl h cs e = run_from-Bounded cs h (new-Bounded max ttl h e)

-- A Get that follows a Set of the session answers the pod until the time to live has passed, and misses
-- after that.
pub get-set :
    (h : Hint) (s p now later : ℕ)
    → (get (set h s p now) s later).0 ≡ (if ltb (now + h.ttl) later then none else some p)
unfolding get set find
get-set h s p now later = ground (arith, Option-cases (find s h.ll))

-- A Get that follows an Invalidate of the session misses, in a cache with at most one entry for each
-- session.
pub get-invalidate : (h : Hint) (s now : ℕ) → Bounded h → (get (invalidate h s) s now).0 ≡ none
unfolding get invalidate
get-invalidate h s now b =
    ground (arith, find-count s (remove s h.ll), count-remove_same s h.ll (b.unique s))

find-remove : (s t : ℕ) (es : List Entry) → t ≢ s → find t (remove s es) ≡ find t es
unfolding find remove
find-remove s t [] n = refl
find-remove s t (e ∷ es) n = ground (arith, find-remove s t es n)

-- The last entry of the list, which Set evicts from a full cache.
unfoldable pub back : List Entry → Option Entry
back [] = none
back (e ∷ []) = some e
back (e ∷ (f ∷ es)) = back (f ∷ es)

find-remove_back :
    (t : ℕ) (es : List Entry) (e : Entry)
    → find t es ≡ some e
    → (find t (remove_back es) ≡ some e) ⊎ (back es ≡ some e)
unfolding find remove_back back
find-remove_back t [] e h = cc
find-remove_back t (x ∷ []) e h = ground arith
find-remove_back t (x ∷ (y ∷ es)) e h = ground (arith, find-remove_back t (y ∷ es) e)

-- A Set of one session keeps the entry of every other session, except that a full cache without the
-- session loses its least recently used entry.
pub set_others :
    (h : Hint) (s p now t : ℕ) (e : Entry)
    → t ≢ s
    → find t h.ll ≡ some e
    → (find t (set h s p now).ll ≡ some e)
      ⊎ ((find s h.ll ≡ none) × (h.max_entries ≤ length h.ll) × (back h.ll ≡ some e))
unfolding set find
set_others h s p now t e n q = elim (Option-cases (find s h.ll)) [
  | inr (x, k) ↦ inl (ground (arith, find-remove s t h.ll n))
  | inl k ↦ elim (Bool-cases (leb h.max_entries (length h.ll))) [
    | inr x ↦ inl (ground arith)
    | inl x ↦ elim (find-remove_back t h.ll e q) [
      | inl y ↦ inl (ground arith)
      | inr y ↦ inr (k, ground arith, y)
    ]
  ]
]
