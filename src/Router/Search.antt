-- ===== src/Router/Search.antt =====
-- sort.Slice and sort.Search as ring.go uses them: the vnode that a search finds.
use jamsesh.Prelude.{
  ◌<◌, ◌==◌, All, arith, Bool-cases, get_elem?, inl, inr, leb, length, List, refl, some, subst, suc,
  ℕ, ◌∷◌, ◌≡◌, ◌≤◌, ◌⊎◌,
}
use jamsesh.Router.Ring.{search_index, start, Vnode}
use Prim.Native.Nat.{zero}
use mathlib.Core.List.{[]}

abbrev pub Ascending : List Vnode → Type 0
Ascending [] = Unit {0}
Ascending (v ∷ vs) = All (λ w. v.hash ≤ w.hash) vs × Ascending vs

-- What sort.Slice is documented to do: its result is in order, as long as its argument, and has no other
-- elements.
pub record Sorts (sort_slice : List Vnode → List Vnode) : Type 1 where
  pub ascending : (vs : List Vnode) → Ascending (sort_slice vs)
  pub same_length : (vs : List Vnode) → length (sort_slice vs) ≡ length vs
  pub keeps : (P : Vnode → Type 0) (vs : List Vnode) → All P vs → All P (sort_slice vs)

-- The vnode of the ring that owns a hash: the first one at or above it, or the first of all where there
-- is none.
abbrev pub Owner : ℕ → List Vnode → Vnode → Type 0
Owner h vs v =
    ((i : ℕ) × (get_elem? vs i ≡ some v))
    × (((h ≤ v.hash) × All (λ w. (w.hash < h) ⊎ (v.hash ≤ w.hash)) vs)
        ⊎ (All (λ w. w.hash < h) vs × All (λ w. v.hash ≤ w.hash) vs))

pub All-map {ℓ} :
    {A : Type ℓ} (P Q : A → Type 0) → ((a : A) → P a → Q a) → (xs : List A) → All P xs → All Q xs
All-map P Q f [] w = tt
All-map P Q f (a ∷ xs) w = (f a w.0, All-map P Q f xs w.1)

some_eq {ℓ} : {A : Type ℓ} (x a : A) → some x ≡ some a → x ≡ a
some_eq x a e = cc

pub All_get_elem {ℓ} :
    {A : Type ℓ} (P : A → Type 0) (xs : List A) (i : ℕ) (a : A)
    → All P xs
    → get_elem? xs i ≡ some a
    → P a
All_get_elem P [] i a w e = cc
All_get_elem P (x ∷ xs) zero a w e = subst P (some_eq x a e) w.0
All_get_elem P (x ∷ xs) (suc i) a w e = All_get_elem P xs i a w.1 e

pub get_elem-length {ℓ} :
    {A : Type ℓ} (xs : List A) (i : ℕ) → i < length xs → (a : A) × (get_elem? xs i ≡ some a)
get_elem-length [] i h = absurd (omega arith)
get_elem-length (x ∷ xs) zero h = (x, refl)
get_elem-length (x ∷ xs) (suc i) h = get_elem-length xs i (omega arith)

search_le : (h : ℕ) (vs : List Vnode) → search_index h vs ≤ length vs
unfolding search_index
search_le h [] = omega arith
search_le h (v ∷ vs) = ground (arith, search_le h vs)

search_none : (h : ℕ) (vs : List Vnode) → search_index h vs ≡ length vs → All (λ w. w.hash < h) vs
unfolding search_index
search_none h [] e = tt
search_none h (v ∷ vs) e = (ground arith, search_none h vs (ground arith))

-- At the found index stands the first vnode at or above the hash.
search_found :
    (h : ℕ) (vs : List Vnode) (v : Vnode)
    → Ascending vs
    → get_elem? vs (search_index h vs) ≡ some v
    → (h ≤ v.hash) × All (λ w. (w.hash < h) ⊎ (v.hash ≤ w.hash)) vs
unfolding search_index
search_found h [] v a e = cc
search_found h (x ∷ vs) v a e = elim (Bool-cases (leb h x.hash)) [
  | inl y ↦
      (let q : x ≡ v = ground arith in
        subst (λ u. (h ≤ u.hash) × All (λ w. (w.hash < h) ⊎ (u.hash ≤ w.hash)) (x ∷ vs)) q
          (
            ground arith,
            (
              inr (omega arith),
              All-map (λ w. x.hash ≤ w.hash) (λ w. (w.hash < h) ⊎ (x.hash ≤ w.hash)) (λ w k. inr k)
                  vs a.0,
            ),
          ))
  | inr y ↦ (let (k, r) = search_found h vs v a.1 (ground arith) in (k, (inl (ground arith), r)))
]

pub start-length : (h : ℕ) (v : Vnode) (vs : List Vnode) → start h (v ∷ vs) < length (v ∷ vs)
unfolding start
start-length h v vs = ground (arith, search_le h (v ∷ vs))

pub start-Owner :
    (h : ℕ) (x : Vnode) (vs : List Vnode) (v : Vnode)
    → Ascending (x ∷ vs)
    → get_elem? (x ∷ vs) (start h (x ∷ vs)) ≡ some v
    → Owner h (x ∷ vs) v
unfolding start
start-Owner h x vs v a e = (
  (start h (x ∷ vs), e),
  elim (Bool-cases (search_index h (x ∷ vs) == length (x ∷ vs))) [
    | inl y ↦ inr (search_none h (x ∷ vs) (ground arith), lowest (ground arith))
    | inr y ↦ inl (search_found h (x ∷ vs) v a (rw (y, start) at e))
  ],
)
  where
    lowest : x ≡ v → All (λ w. v.hash ≤ w.hash) (x ∷ vs)
    lowest q = subst (λ u. All (λ w. u.hash ≤ w.hash) (x ∷ vs)) q (omega arith, a.0)
