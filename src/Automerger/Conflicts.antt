-- ===== src/Automerger/Conflicts.antt =====
-- conflicts.go: ParseConflictRanges.
use jamsesh.Prelude.{
  ◌+◌, ◌-◌, ◌<◌, [], arith, Bool-cases, if◌then◌else◌, inl, inr, length, List, none, Option, some,
  subst, suc, ℕ, ◌∷◌, ◌≡◌, ◌≤◌,
}
use jamsesh.Go.Strings.{Bytes, codes, has_prefix, split}

pub record LineRange : Type 0 where
  pub start : ℕ
  pub stop : ℕ

-- The loop: the number of the line and the start of the open region. The last line closes a region that
-- is still open.
unfoldable pub parse_ranges : ℕ → Option ℕ → List Bytes → List LineRange
unfolding has_prefix
parse_ranges n none [] = []
parse_ranges n (some s) [] = record { start = s; stop = n - 1 } ∷ []
parse_ranges n none (l ∷ ls) =
    let opened = parse_ranges (suc n) (some n) ls in
    let skipped = parse_ranges (suc n) none ls in
    if has_prefix l (codes "<<<<<<<") then opened else skipped
parse_ranges n (some s) (l ∷ ls) =
    let opened = parse_ranges (suc n) (some n) ls in
    let closed = parse_ranges (suc n) none ls in
    let inside = parse_ranges (suc n) (some s) ls in
    if has_prefix l (codes "<<<<<<<")
    then opened
    else if has_prefix l (codes ">>>>>>>")
    then record { start = s; stop = n } ∷ closed
    else inside

-- `strings.Split` without the empty last element.
unfoldable pub drop_empty_last : List Bytes → List Bytes
drop_empty_last [] = []
drop_empty_last ([] ∷ []) = []
drop_empty_last ((c ∷ l) ∷ []) = (c ∷ l) ∷ []
drop_empty_last (l ∷ l' ∷ ls) = l ∷ drop_empty_last (l' ∷ ls)

unfoldable pub parse_conflict_ranges : Bytes → List LineRange
unfolding parse_ranges drop_empty_last split
parse_conflict_ranges content = parse_ranges 1 none (drop_empty_last (split 10 content))

-- Ranges in order, apart, and within the lines from `lo` to `hi`.
unfoldable pub Ranges : (lo hi : ℕ) → List LineRange → Type 0
Ranges lo hi [] = Unit
Ranges lo hi (r ∷ rs) =
    (lo ≤ r.start) × (r.start ≤ r.stop) × (r.stop ≤ hi) × Ranges (suc r.stop) hi rs

Ranges-weaken :
    (lo lo' hi : ℕ) (rs : List LineRange) → lo ≤ lo' → Ranges lo' hi rs → Ranges lo hi rs
unfolding Ranges
Ranges-weaken lo lo' hi [] h r = tt
Ranges-weaken lo lo' hi (x ∷ rs) h r = (omega (arith, r.0), r.1, r.2, r.3)

parse_ranges-Ranges :
    (n : ℕ) (ls : List Bytes)
    → Ranges n (n + length ls - 1) (parse_ranges n none ls)
      × ((s : ℕ) → s < n → Ranges s (n + length ls - 1) (parse_ranges n (some s) ls))
unfolding parse_ranges Ranges
parse_ranges-Ranges n [] = (tt, λ s h. (omega arith, omega arith, omega arith, tt))
parse_ranges-Ranges n (l ∷ ls) =
    let r = parse_ranges-Ranges (suc n) ls in
    let hi : suc n + length ls - 1 ≡ n + suc (length ls) - 1 = omega arith in
    let later : Ranges (suc n) (n + suc (length ls) - 1) (parse_ranges (suc n) none ls) =
      subst (λ k. Ranges (suc n) k (parse_ranges (suc n) none ls)) hi r.0 in
    let opened : Ranges n (n + suc (length ls) - 1) (parse_ranges (suc n) (some n) ls) =
      subst (λ k. Ranges n k (parse_ranges (suc n) (some n) ls)) hi (r.1 n (omega arith)) in
    (
      elim (Bool-cases (has_prefix l (codes "<<<<<<<"))) [
        | inl e ↦ rw e opened
        | inr e ↦ rw e (
            Ranges-weaken n (suc n) (n + suc (length ls) - 1) (parse_ranges (suc n) none ls)
              (omega arith) later)
      ],
      λ s h. elim (Bool-cases (has_prefix l (codes "<<<<<<<"))) [
        | inl e ↦ rw e (
            Ranges-weaken s n (n + suc (length ls) - 1) (parse_ranges (suc n) (some n) ls)
              (omega arith) opened)
        | inr e ↦ (elim (Bool-cases (has_prefix l (codes ">>>>>>>"))) [
          | inl e' ↦ rw (e, e') (omega arith, omega arith, omega arith, later)
          | inr e' ↦
              rw (e, e')
                (subst (λ k. Ranges s k (parse_ranges (suc n) (some s) ls)) hi
                  (r.1 s (omega arith)))
        ])
      ],
    )

-- The conflict ranges of any content lie within its lines, counted from 1, each with its start no later
-- than its end, in order and without overlap.
pub parse_conflict_ranges-Ranges :
    (content : Bytes)
    → Ranges 1 (length (drop_empty_last (split 10 content))) (parse_conflict_ranges content)
unfolding parse_conflict_ranges
parse_conflict_ranges-Ranges content =
    let ls = drop_empty_last (split 10 content) in
    subst (λ k. Ranges 1 k (parse_ranges 1 none ls)) (omega arith) (parse_ranges-Ranges 1 ls).0
