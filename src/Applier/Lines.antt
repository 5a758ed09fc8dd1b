-- ===== src/Applier/Lines.antt =====
-- The lines of a text, for the messages of merge commits (outcomes.go).
use jamsesh.Prelude.{
  ◌++◌, ◌==◌, [], All, ap, arith, Bool, false, inl, inr, List, list_cases, none, not, Option-cases,
  refl, sym, true, ℕ, ◌∙◌, ◌∷◌, ◌≡◌,
}
use jamsesh.Applier.Message.{commit_summary, join}
use jamsesh.Go.Strings.{
  free_of-append, Bytes, crlf_to_lf, cut, cut_eq, free_of, is_space, split, trim_left, trim_right,
  trim_space,
}

-- The first line of a text has no line feed.
cut-none : (sep : ℕ) (s : Bytes) → cut sep s ≡ none → free_of sep s ≡ true
unfolding cut free_of
cut-none sep [] h = refl
cut-none sep (c ∷ s) h = ground (arith, cut-none sep s)

trim_right-free_of :
    (p : ℕ → Bool) (c : ℕ) (s : Bytes) → free_of c s ≡ true → free_of c (trim_right p s) ≡ true
unfolding trim_right free_of
trim_right-free_of p c [] h = refl
trim_right-free_of p c (d ∷ s) h = elim (list_cases (trim_right p s)) [
  | inl x ↦ rw (trim_right, x) (ground (arith, h))
  | inr ((e, t), x) ↦
      (let r = trim_right-free_of p c s (ground (arith, h)) in
        let r' : free_of c (e ∷ t) ≡ true = ap (free_of c) (sym x) ∙ r in
        rw (trim_right, x) (ground (arith, h, r')))
]

trim_left-free_of :
    (p : ℕ → Bool) (c : ℕ) (s : Bytes) → free_of c s ≡ true → free_of c (trim_left p s) ≡ true
unfolding trim_left free_of
trim_left-free_of p c [] h = refl
trim_left-free_of p c (d ∷ s) h = ground (arith, h, trim_left-free_of p c s)

trim_space-free_of : (c : ℕ) (s : Bytes) → free_of c s ≡ true → free_of c (trim_space s) ≡ true
unfolding trim_space
trim_space-free_of c s h =
    trim_left-free_of is_space c (trim_right is_space s) (trim_right-free_of is_space c s h)

pub summary_one_line : (m : Bytes) → free_of 10 (commit_summary m) ≡ true
unfolding commit_summary
summary_one_line m = elim (Option-cases (cut 10 (trim_space m))) [
  | inl x ↦ rw (commit_summary, x) (cut-none 10 (trim_space m) x)
  | inr ((line, rest), x) ↦
      rw (commit_summary, x) (trim_space-free_of 10 line (cut_eq 10 (trim_space m) line rest x).1)
]

-- Line endings that are normal already.
pub crlf_free : (s : Bytes) → free_of 13 s ≡ true → crlf_to_lf s ≡ s
unfolding crlf_to_lf free_of
crlf_free [] h = refl
crlf_free (c ∷ []) h = refl
crlf_free (c ∷ (d ∷ s)) h = ground (arith, h, crlf_free (d ∷ s))

pub split-line : (a b : Bytes) → free_of 10 a ≡ true → split 10 (a ++ 10 ∷ b) ≡ a ∷ split 10 b
unfolding split free_of
split-line [] b h = refl
split-line (c ∷ a) b h = ground (arith, h, split-line a b)

split_one : (a : Bytes) → free_of 10 a ≡ true → split 10 a ≡ a ∷ []
unfolding split free_of
split_one [] h = refl
split_one (c ∷ a) h = ground (arith, h, split_one a)

pub split-join :
    (l : Bytes) (ls : List Bytes)
    → All (λ k. free_of 10 k ≡ true) (l ∷ ls)
    → split 10 (join (l ∷ ls)) ≡ l ∷ ls
unfolding join
split-join l [] h = split_one l h.0
split-join l (m ∷ ls) h = split-line l (join (m ∷ ls)) h.0 ∙ ap (λ r. l ∷ r) (split-join m ls h.1)

pub join-free_of :
    (c : ℕ) (ls : List Bytes)
    → (c == 10) ≡ false
    → All (λ k. free_of c k ≡ true) ls
    → free_of c (join ls) ≡ true
unfolding join free_of
join-free_of c [] n h = refl
join-free_of c (l ∷ []) n h = h.0
join-free_of c (l ∷ (m ∷ ls)) n h =
    rw (free_of-append c l (10 ∷ join (m ∷ ls)))
      (ground (arith, n, h, join-free_of c (m ∷ ls) n h.1))

-- The text ends in a byte that is no line feed.
unfoldable pub ends_visible : Bytes → Bool
ends_visible [] = false
ends_visible (c ∷ []) = not (c == 10)
ends_visible (c ∷ (d ∷ s)) = ends_visible (d ∷ s)

pub trim-newline :
    (s : Bytes) → ends_visible s ≡ true → trim_right (λ c. c == 10) (s ++ 10 ∷ []) ≡ s
unfolding ends_visible trim_right
trim-newline [] h = cc
trim-newline (c ∷ []) h = ground (arith, h)
trim-newline (c ∷ (d ∷ s)) h = rw (trim_right, trim-newline (d ∷ s) h) refl

pub ends-append : (s t : Bytes) → ends_visible t ≡ true → ends_visible (s ++ t) ≡ true
unfolding ends_visible
ends-append [] t h = h
ends-append (c ∷ []) [] h = cc
ends-append (c ∷ []) (d ∷ t) h = h
ends-append (c ∷ (d ∷ s)) t h = ends-append (d ∷ s) t h

pub free-ends : (c : ℕ) (s : Bytes) → free_of 10 (c ∷ s) ≡ true → ends_visible (c ∷ s) ≡ true
unfolding ends_visible free_of
free-ends c [] h = ground (arith, h)
free-ends c (d ∷ s) h = free-ends d s (ground (arith, h))

pub join-ends :
    (ls : List Bytes) (l : Bytes)
    → All (λ k. ends_visible k ≡ true) (l ∷ ls)
    → ends_visible (join (l ∷ ls)) ≡ true
unfolding join
join-ends [] l h = h.0
join-ends (m ∷ ls) l h =
    ends-append l (10 ∷ join (m ∷ ls)) (ends-append (10 ∷ []) (join (m ∷ ls)) (join-ends ls m h.1))
