-- ===== src/Automerger/Union.antt =====
-- What isNonOverlappingAddition (heuristics.go) makes of the hunks of both sides.
use jamsesh.Prelude.{
  ◌&&◌, ◌++◌, [], ap, arith, Bool, Bool-cases, false, if◌then◌else◌, inl, inr, length, List, negsuc,
  none, not, refl, some, sub_ℕ, subst, true, ℕ, ℤ, ◌∙◌, ◌∷◌, ◌≡◌,
}
use jamsesh.Automerger.Additions.{
  Added, before, collect_added, duplicate, insert, join_lines, lines_from, merge_additions,
  stable_sort,
}
use jamsesh.Automerger.Diff.{AddHunk}
use jamsesh.Automerger.Heuristics.{normalise_lf, split_lines}
use jamsesh.Automerger.Placement.{
  at, at_side, at_side-stable_sort, at_sides, matches, placed, stable_sort-Sorted,
}
use jamsesh.Automerger.Walk.{from_line, placed_ext, up_to_line, walk_base-placed}
use jamsesh.Go.Strings.{Bytes}

from_line-insert :
    (n : ℤ) (x : Added) (ys : List Added) → from_line n (insert x ys) ≡ from_line n (x ∷ ys)
unfolding from_line insert
from_line-insert n x [] = refl
from_line-insert n x (y ∷ ys) = elim (Bool-cases (before y x)) [
  | inl e ↦ ground (arith, from_line-insert n x ys, e)
  | inr e ↦ ground (arith, e)
]

from_line-stable_sort : (n : ℤ) (xs : List Added) → from_line n (stable_sort xs) ≡ from_line n xs
unfolding from_line stable_sort
from_line-stable_sort n [] = refl
from_line-stable_sort n (x ∷ xs) =
    from_line-insert n x (stable_sort xs) ∙ ground (arith, from_line-stable_sort n xs)

from_line-append :
    (n : ℤ) (xs ys : List Added) → from_line n (xs ++ ys) ≡ (from_line n xs && from_line n ys)
unfolding from_line
from_line-append n [] ys = refl
from_line-append n (x ∷ xs) ys = ground (arith, from_line-append n xs ys)

up_to_line-insert :
    (n : ℤ) (x : Added) (ys : List Added) → up_to_line n (insert x ys) ≡ up_to_line n (x ∷ ys)
unfolding up_to_line insert
up_to_line-insert n x [] = refl
up_to_line-insert n x (y ∷ ys) = elim (Bool-cases (before y x)) [
  | inl e ↦ ground (arith, up_to_line-insert n x ys, e)
  | inr e ↦ ground (arith, e)
]

up_to_line-stable_sort : (n : ℤ) (xs : List Added) → up_to_line n (stable_sort xs) ≡ up_to_line n xs
unfolding up_to_line stable_sort
up_to_line-stable_sort n [] = refl
up_to_line-stable_sort n (x ∷ xs) =
    up_to_line-insert n x (stable_sort xs) ∙ ground (arith, up_to_line-stable_sort n xs)

up_to_line-append :
    (n : ℤ) (xs ys : List Added) → up_to_line n (xs ++ ys) ≡ (up_to_line n xs && up_to_line n ys)
unfolding up_to_line
up_to_line-append n [] ys = refl
up_to_line-append n (x ∷ xs) ys = ground (arith, up_to_line-append n xs ys)

-- All lines are of one side.
unfoldable pub of_side : Bool → List Added → Bool
of_side t [] = true
of_side t (x ∷ xs) = (if t then x.theirs else not x.theirs) && of_side t xs

of_side-append :
    (t : Bool) (xs ys : List Added) → of_side t (xs ++ ys) ≡ (of_side t xs && of_side t ys)
unfolding of_side
of_side-append t [] ys = refl
of_side-append t (x ∷ xs) ys = ground (arith, of_side-append t xs ys)

lines_from-of_side : (t : Bool) (n : ℤ) (ls : List Bytes) → of_side t (lines_from t n ls) ≡ true
unfolding of_side lines_from
lines_from-of_side t n [] = refl
lines_from-of_side true n (l ∷ ls) = lines_from-of_side true n ls
lines_from-of_side false n (l ∷ ls) = lines_from-of_side false n ls

collect_added-of_side : (t : Bool) (hs : List AddHunk) → of_side t (collect_added t hs) ≡ true
unfolding of_side collect_added
collect_added-of_side t [] = refl
collect_added-of_side t (h ∷ hs) = rw (
  of_side-append t (lines_from t h.after_base_line h.added_lines) (collect_added t hs),
  lines_from-of_side t h.after_base_line h.added_lines,
  collect_added-of_side t hs,
)

at_side-append :
    (t : Bool) (n : ℤ) (xs ys : List Added)
    → at_side t n (xs ++ ys) ≡ at_side t n xs ++ at_side t n ys
unfolding at_side
at_side-append t n [] ys = refl
at_side-append t n (x ∷ xs) ys = ground (arith, at_side-append t n xs ys)

at_side_own : (t : Bool) (n : ℤ) (xs : List Added) → of_side t xs ≡ true → at_side t n xs ≡ at n xs
unfolding at_side at of_side matches
at_side_own t n [] h = refl
at_side_own true n (x ∷ xs) h = ground (arith, at_side_own true n xs)
at_side_own false n (x ∷ xs) h = ground (arith, at_side_own false n xs)

at_side_other :
    (t : Bool) (n : ℤ) (xs : List Added) → of_side (not t) xs ≡ true → at_side t n xs ≡ []
unfolding at_side of_side matches
at_side_other t n [] h = refl
at_side_other true n (x ∷ xs) h = ground (arith, at_side_other true n xs)
at_side_other false n (x ∷ xs) h = ground (arith, at_side_other false n xs)

append_nil : (xs : List Bytes) → xs ++ [] ≡ xs
append_nil [] = refl
append_nil (x ∷ xs) = ap (λ r. x ∷ r) (append_nil xs)

at-stable_sort :
    (n : ℤ) (os ts : List Added)
    → of_side false os ≡ true
    → of_side true ts ≡ true
    → at n (stable_sort (os ++ ts)) ≡ at n os ++ at n ts
at-stable_sort n os ts h h' = rw (
  at_sides n (stable_sort (os ++ ts)) (stable_sort-Sorted (os ++ ts)),
  at_side-stable_sort false n (os ++ ts),
  at_side-stable_sort true n (os ++ ts),
  at_side-append false n os ts,
  at_side-append true n os ts,
  at_side_own false n os h,
  at_side_other false n ts h',
  at_side_other true n os h,
  at_side_own true n ts h',
  append_nil (at n os),
)

-- The hunks of a side stand within a base of so many lines.
unfoldable pub Fits : ℕ → List Added → Type 0
unfolding from_line up_to_line
Fits n xs = (from_line (negsuc 0) xs ≡ true) × (up_to_line (sub_ℕ n 1) xs ≡ true)

-- If the hunks of both sides lie within the base and add no line in common, the merged file has each line
-- of the base in order, before it the lines that ours and then the lines that theirs add there, and the
-- lines added at the end; if they share a line, there is no resolution.
pub merge_additions-placed :
    (base : Bytes) (ours theirs : List AddHunk)
    → Fits (length (split_lines (normalise_lf base))) (collect_added false ours)
    → Fits (length (split_lines (normalise_lf base))) (collect_added true theirs)
    → merge_additions base ours theirs ≡ (
        if duplicate (collect_added false ours) (collect_added true theirs)
        then none
        else some (
            join_lines (
              placed 0
                (split_lines (normalise_lf base))
                (λ n. at n (collect_added false ours) ++ at n (collect_added true theirs)))))
unfolding merge_additions Fits
merge_additions-placed base ours theirs h h' =
    let os = collect_added false ours in
    let ts = collect_added true theirs in
    let bs = split_lines (normalise_lf base) in
    let f : from_line (negsuc 0) (stable_sort (os ++ ts)) ≡ true =
      rw (from_line-stable_sort (negsuc 0) (os ++ ts), from_line-append (negsuc 0) os ts, h.0, h'.0)
        refl in
    let u : up_to_line (sub_ℕ (length bs) 1) (stable_sort (os ++ ts)) ≡ true =
      rw
        (
          up_to_line-stable_sort (sub_ℕ (length bs) 1) (os ++ ts),
          up_to_line-append (sub_ℕ (length bs) 1) os ts,
          h.1,
          h'.1,
        )
        refl in
    rw (
      walk_base-placed 0 bs (stable_sort (os ++ ts)) (stable_sort-Sorted (os ++ ts)) f
          (subst (λ k. up_to_line (sub_ℕ k 1) (stable_sort (os ++ ts)) ≡ true) (omega arith) u),
      placed_ext 0 bs (λ n. at n (stable_sort (os ++ ts))) (λ n. at n os ++ at n ts)
          (λ k l.
            at-stable_sort (sub_ℕ k 1) os ts (collect_added-of_side false ours)
              (collect_added-of_side true theirs)),
    )
