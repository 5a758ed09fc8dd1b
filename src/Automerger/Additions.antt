-- ===== src/Automerger/Additions.antt =====
-- heuristics.go: isNonOverlappingAddition and tryAutoResolve.
use jamsesh.Prelude.{
  ◌&&◌, ◌+◌, ◌++◌, ◌==◌, [], any, Bool, false, if◌then◌else◌, List, ltb_ℤ, neg_part, none, not,
  Option, pos_part, some, sub_ℕ, suc, true, ◌||◌, ℕ, ℤ, ◌∷◌,
}
use jamsesh.Automerger.Diff.{AddHunk, diff_add_only, DiffRun, failed, not_pure, pure}
use jamsesh.Automerger.Heuristics.{
  additions, Heuristic, identical, is_binary, is_identical_edit, is_whitespace_only, normalise_lf,
  split_lines, whitespace,
}
use jamsesh.Go.Strings.{Bytes, same}

-- `theirs` is the side 1.
pub record Added : Type 0 where
  pub after_line : ℤ
  pub content : Bytes
  pub theirs : Bool

abbrev pub eq_ℤ : ℤ → ℤ → Bool
eq_ℤ a b = pos_part a + neg_part b == pos_part b + neg_part a

unfoldable pub lines_from : Bool → ℤ → List Bytes → List Added
lines_from t n [] = []
lines_from t n (l ∷ ls) = record { after_line = n; content = l; theirs = t } ∷ lines_from t n ls

unfoldable pub collect_added : Bool → List AddHunk → List Added
unfolding lines_from
collect_added t [] = []
collect_added t (h ∷ hs) = lines_from t h.after_base_line h.added_lines ++ collect_added t hs

-- Some line of theirs is in the set of ours.
unfoldable pub duplicate : (ours theirs : List Added) → Bool
duplicate ours theirs = any (λ t. any (λ o. same o.content t.content) ours) theirs

-- The order of the stable sort: by position, ours first.
unfoldable pub before : Added → Added → Bool
before x y =
    if not (eq_ℤ x.after_line y.after_line)
    then ltb_ℤ x.after_line y.after_line
    else not x.theirs && y.theirs

unfoldable pub insert : Added → List Added → List Added
unfolding before
insert x [] = x ∷ []
insert x (y ∷ ys) = elim (before y x) [ true ↦ y ∷ insert x ys | false ↦ x ∷ y ∷ ys ]

unfoldable pub stable_sort : List Added → List Added
unfolding insert
stable_sort [] = []
stable_sort (x ∷ xs) = insert x (stable_sort xs)

-- The inner loop before a base line: the lines that go after position `n`, and the rest.
unfoldable pub leading : ℤ → List Added → List Bytes × List Added
leading n [] = ([], [])
leading n (x ∷ xs) = elim (eq_ℤ x.after_line n) [
  | true ↦ let (ls, rest) = leading n xs in (x.content ∷ ls, rest)
  | false ↦ ([], x ∷ xs)
]

unfoldable pub flush : List Added → List Bytes
flush [] = []
flush (x ∷ xs) = x.content ∷ flush xs

-- The walk over the base, from its line `i`.
unfoldable pub walk_base : ℕ → List Bytes → List Added → List Bytes
unfolding leading flush
walk_base i [] added = flush added
walk_base i (b ∷ bs) added =
    let (ls, rest) = leading (sub_ℕ i 1) added in ls ++ b ∷ walk_base (suc i) bs rest

-- The buffer: each line with a newline.
unfoldable pub join_lines : List Bytes → Bytes
join_lines [] = []
join_lines (l ∷ ls) = l ++ 10 ∷ join_lines ls

unfoldable pub merge_additions : Bytes → (ours theirs : List AddHunk) → Option Bytes
unfolding collect_added duplicate stable_sort walk_base join_lines split_lines
merge_additions base ours theirs =
    let os = collect_added false ours in
    let ts = collect_added true theirs in
    if duplicate os ts
    then none
    else some (join_lines (walk_base 0 (split_lines (normalise_lf base)) (stable_sort (os ++ ts))))

module _ (diff : Bytes → Bytes → Option DiffRun) where
  unfoldable pub is_non_overlapping_addition : (base ours theirs : Bytes) → Option Bytes
  unfolding diff_add_only merge_additions
  is_non_overlapping_addition base ours theirs = elim (diff_add_only diff base ours) [
    | failed ↦ none
    | not_pure ↦ none
    | pure os ↦ (elim (diff_add_only diff base theirs) [
      | failed ↦ none
      | not_pure ↦ none
      | pure ts ↦ merge_additions base os ts
    ])
  ]

  unfoldable pub try_auto_resolve : (base ours theirs : Bytes) → Option (Bytes × Heuristic)
  unfolding is_binary is_identical_edit is_whitespace_only is_non_overlapping_addition
  try_auto_resolve base ours theirs =
      if is_binary base || is_binary ours || is_binary theirs
      then none
      else (elim (is_identical_edit base ours theirs) [
        | some r ↦ some (r, identical)
        | none ↦ (elim (is_whitespace_only base ours theirs) [
          | some r ↦ some (r, whitespace)
          | none ↦ (elim (is_non_overlapping_addition base ours theirs) [
            | some r ↦ some (r, additions)
            | none ↦ none
          ])
        ])
      ])
