-- ===== src/Automerger/Placement.antt =====
-- Where the lines of both sides go (heuristics.go, isNonOverlappingAddition).
use jamsesh.Prelude.{
  ◌&&◌, ◌++◌, [], arith, Bool, Bool-cases, false, if◌then◌else◌, inl, inr, List, not, refl, sub_ℕ,
  suc, true, ◌||◌, ℕ, ℤ, ◌∙◌, ◌∷◌, ◌≡◌,
}
use jamsesh.Automerger.Additions.{Added, before, eq_ℤ, insert, stable_sort}
use jamsesh.Go.Strings.{Bytes}

-- The lines for one position, in order.
unfoldable pub at : ℤ → List Added → List Bytes
at n [] = []
at n (x ∷ xs) = if eq_ℤ x.after_line n then x.content ∷ at n xs else at n xs

-- The merged file, without a sort and an index: before line `i` of the base stand the lines for position
-- `i - 1`, and at the end those for the last line.
unfoldable pub placed : ℕ → List Bytes → (ℤ → List Bytes) → List Bytes
placed i [] slot = slot (sub_ℕ i 1)
placed i (b ∷ bs) slot = slot (sub_ℕ i 1) ++ b ∷ placed (suc i) bs slot

at-append : (n : ℤ) (xs ys : List Added) → at n (xs ++ ys) ≡ at n xs ++ at n ys
unfolding at
at-append n [] ys = refl
at-append n (x ∷ xs) ys = ground (arith, at-append n xs ys)

-- No later line sorts before an earlier one.
unfoldable pub none_before : Added → List Added → Bool
none_before x [] = true
none_before x (y ∷ ys) = not (before y x) && none_before x ys

unfoldable pub Sorted : List Added → Type 0
unfolding none_before
Sorted [] = Unit
Sorted (x ∷ xs) = (none_before x xs ≡ true) × Sorted xs

before_trans : (x y z : Added) → before y x ≡ false → before z y ≡ false → before z x ≡ false
unfolding before
before_trans x y z h h' = ground arith

none_before_trans :
    (x y : Added) (ys : List Added)
    → before y x ≡ false
    → none_before y ys ≡ true
    → none_before x ys ≡ true
unfolding none_before
none_before_trans x y [] h h' = refl
none_before_trans x y (z ∷ zs) h h' = ground (arith, before_trans x y z, none_before_trans x y zs)

before_asym : (x y : Added) → before x y ≡ true → before y x ≡ false
unfolding before
before_asym x y h = ground arith

none_before-insert :
    (y x : Added) (ys : List Added)
    → before x y ≡ false
    → none_before y ys ≡ true
    → none_before y (insert x ys) ≡ true
unfolding none_before insert
none_before-insert y x [] h h' = ground arith
none_before-insert y x (z ∷ zs) h h' = ground (arith, none_before-insert y x zs)

insert-Sorted : (x : Added) (ys : List Added) → Sorted ys → Sorted (insert x ys)
unfolding Sorted insert none_before
insert-Sorted x [] s = (refl, tt)
insert-Sorted x (y ∷ ys) s = go (before y x) refl (insert-Sorted x ys s.1)
  where
    go :
        (b : Bool)
        → before y x ≡ b
        → Sorted (insert x ys)
        → Sorted (elim b [ true ↦ y ∷ insert x ys | false ↦ x ∷ y ∷ ys ])
    go true e r = (none_before-insert y x ys (before_asym y x e) s.0, r)
    go false e r = (ground (arith, none_before_trans x y ys e s.0), s)

pub stable_sort-Sorted : (xs : List Added) → Sorted (stable_sort xs)
unfolding Sorted stable_sort
stable_sort-Sorted [] = tt
stable_sort-Sorted (x ∷ xs) = insert-Sorted x (stable_sort xs) (stable_sort-Sorted xs)

-- The lines of one side for one position.
unfoldable pub matches : Bool → ℤ → Added → Bool
matches t n x = eq_ℤ x.after_line n && (if t then x.theirs else not x.theirs)

unfoldable pub at_side : Bool → ℤ → List Added → List Bytes
unfolding matches
at_side t n [] = []
at_side t n (x ∷ xs) = if matches t n x then x.content ∷ at_side t n xs else at_side t n xs

-- Lines of one side and position are equal in the order.
matches-before :
    (t : Bool) (n : ℤ) (x y : Added)
    → matches t n x ≡ true
    → matches t n y ≡ true
    → before y x ≡ false
unfolding matches before
matches-before t n x y h h' = ground arith

at_side-insert :
    (t : Bool) (n : ℤ) (x : Added) (ys : List Added)
    → at_side t n (insert x ys) ≡ at_side t n (x ∷ ys)
unfolding at_side insert
at_side-insert t n x [] = refl
at_side-insert t n x (y ∷ ys) = elim (Bool-cases (before y x)) [
  | inl e ↦ ground (arith, at_side-insert t n x ys, matches-before t n x y, e)
  | inr e ↦ ground (arith, e)
]

pub at_side-stable_sort :
    (t : Bool) (n : ℤ) (xs : List Added) → at_side t n (stable_sort xs) ≡ at_side t n xs
unfolding at_side stable_sort
at_side-stable_sort t n [] = refl
at_side-stable_sort t n (x ∷ xs) =
    at_side-insert t n x (stable_sort xs) ∙ ground (arith, at_side-stable_sort t n xs)

-- In a sorted list ours come first.
theirs_then_ours :
    (n : ℤ) (x y : Added) → matches true n x ≡ true → before y x ≡ false → matches false n y ≡ false
unfolding matches before
theirs_then_ours n x y h h' = ground arith

theirs_last :
    (n : ℤ) (x : Added) (ys : List Added)
    → matches true n x ≡ true
    → none_before x ys ≡ true
    → at_side false n ys ≡ []
unfolding at_side none_before
theirs_last n x [] e h = refl
theirs_last n x (y ∷ ys) e h = ground (arith, theirs_last n x ys, theirs_then_ours n x y)

eq_matches : (n : ℤ) (x : Added) → eq_ℤ x.after_line n ≡ (matches false n x || matches true n x)
unfolding matches
eq_matches n x = elim (Bool-cases x.theirs) [
  | inl e ↦ elim (Bool-cases (eq_ℤ x.after_line n)) [ inl h ↦ rw (e, h) | inr h ↦ rw (e, h) ]
  | inr e ↦ elim (Bool-cases (eq_ℤ x.after_line n)) [ inl h ↦ rw (e, h) | inr h ↦ rw (e, h) ]
]

matches_once : (n : ℤ) (x : Added) → matches false n x ≡ true → matches true n x ≡ false
unfolding matches
matches_once n x h = ground arith

pub at_sides :
    (n : ℤ) (xs : List Added) → Sorted xs → at n xs ≡ at_side false n xs ++ at_side true n xs
unfolding at at_side Sorted
at_sides n [] s = refl
at_sides n (x ∷ xs) s =
    let q : eq_ℤ x.after_line n ≡ (matches false n x || matches true n x) = eq_matches n x in
    elim (Bool-cases (matches false n x)) [
      | inl e ↦ rw (q, e) (ground (arith, at_sides n xs s.1, matches_once n x e, e))
      | inr e ↦ (elim (Bool-cases (matches true n x)) [
        | inl e' ↦ rw (q, e, e') (ground (arith, at_sides n xs s.1, theirs_last n x xs e' s.0))
        | inr e' ↦ rw (q, e, e') (at_sides n xs s.1)
      ])
    ]
