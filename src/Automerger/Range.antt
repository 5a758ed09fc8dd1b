-- ===== src/Automerger/Range.antt =====
-- The numbers in the header of a hunk, as `diff -u` prints them, and parseHunkHeader (heuristics.go).
use jamsesh.Prelude.{◌-◌, ◌*◌, ◌+◌, ◌++◌, ◌<◌, [], ap, arith, refl, some, true, ℕ, ◌∙◌, ◌∷◌, ◌≡◌}
use jamsesh.Automerger.Diff.{
  atoi, atoi_from, behind, hunk_header, line_kind, parse_hunk_header, parse_old_range, up_to,
}
use jamsesh.Go.Strings.{
  Bytes, codes, cut-append, cut_free, cut_prefix, free_of, free_of-append, has_prefix,
}

-- A decimal numeral: its last digit stands for itself, the others for ten times as much.
pub data Numeral : Bytes → ℕ → Type 0 where
  digit : (d : ℕ) → d < 10 → Numeral ((b'0' + d) ∷ []) d
  more : (s : Bytes) (n d : ℕ) → Numeral s n → d < 10 → Numeral (s ++ (b'0' + d) ∷ []) (n * 10 + d)

-- The old range of a header: where it starts, and its length, which is left out where it is 1.
pub data OldRange : Bytes → ℕ → ℕ → Type 0 where
  one_line : (s : Bytes) (n : ℕ) → Numeral s n → OldRange s n 1
  lines :
      (s : Bytes) (n : ℕ) (t : Bytes) (m : ℕ)
      → Numeral s n
      → Numeral t m
      → OldRange (s ++ b',' ∷ t) n m

atoi_from-append :
    (k : ℕ) (s t : Bytes) (n : ℕ) → atoi_from k s ≡ some n → atoi_from k (s ++ t) ≡ atoi_from n t
unfolding atoi_from
atoi_from-append k [] t n h = ground (arith, h)
atoi_from-append k (c ∷ s) t n h = ground (arith, h, atoi_from-append (k * 10 + (c - 48)) s t n)

atoi_snoc : (s : Bytes) (c : ℕ) → atoi (s ++ c ∷ []) ≡ atoi_from 0 (s ++ c ∷ [])
unfolding atoi
atoi_snoc [] c = refl
atoi_snoc (d ∷ s) c = refl

one_digit : (n d : ℕ) → d < 10 → atoi_from n ((b'0' + d) ∷ []) ≡ some (n * 10 + d)
unfolding atoi_from
one_digit n d h = ground arith

first_digit : (d : ℕ) → d < 10 → atoi_from 0 ((b'0' + d) ∷ []) ≡ some d
unfolding atoi_from
first_digit d h = ground arith

atoi_from-Numeral : {s : Bytes} {n : ℕ} → Numeral s n → atoi_from 0 s ≡ some n
atoi_from-Numeral (digit d h) = first_digit d h
atoi_from-Numeral (more s n d p h) =
    atoi_from-append 0 s ((b'0' + d) ∷ []) n (atoi_from-Numeral p) ∙ one_digit n d h

atoi-Numeral : {s : Bytes} {n : ℕ} → Numeral s n → atoi s ≡ some n
atoi-Numeral (digit d h) = atoi_snoc [] (b'0' + d) ∙ first_digit d h
atoi-Numeral (more s n d p h) = atoi_snoc s (b'0' + d) ∙ atoi_from-Numeral (more s n d p h)

Numeral-free : {s : Bytes} {n : ℕ} (c : ℕ) → c < 48 → Numeral s n → free_of c s ≡ true
unfolding free_of
Numeral-free c h (digit d k) = ground arith
Numeral-free c h (more s n d p k) =
    free_of-append c s ((b'0' + d) ∷ []) ∙ ground (arith, Numeral-free c h p)

OldRange-free : {r : Bytes} {n m : ℕ} → OldRange r n m → free_of b' ' r ≡ true
unfolding free_of
OldRange-free (one_line s n p) = Numeral-free b' ' (omega arith) p
OldRange-free (lines s n t m p q) =
    free_of-append b' ' s (b',' ∷ t)
    ∙ ground (arith, Numeral-free b' ' (omega arith) p, Numeral-free b' ' (omega arith) q)

parse_old_range-OldRange : {r : Bytes} {n m : ℕ} → OldRange r n m → parse_old_range r ≡ some (n, m)
unfolding parse_old_range
parse_old_range-OldRange (one_line s n p) =
    rw (parse_old_range, cut_free b',' s (Numeral-free b',' (omega arith) p), atoi-Numeral p) refl
parse_old_range-OldRange (lines s n t m p q) =
    rw
      (
        parse_old_range,
        cut-append b',' s t (Numeral-free b',' (omega arith) p),
        atoi-Numeral p,
        atoi-Numeral q,
      )
      refl

up_to-append :
    (s rest : Bytes) → free_of b' ' s ≡ true → up_to (codes " +") (s ++ codes " +" ++ rest) ≡ s
unfolding up_to has_prefix cut_prefix free_of
up_to-append [] rest h = refl
up_to-append (c ∷ s) rest h = ground (arith, up_to-append s rest)

-- The header line with the old range `r`; `rest` is what stands behind " +".
abbrev pub header_line : (r rest : Bytes) → Bytes
header_line r rest = codes "@@ -" ++ (r ++ codes " +" ++ rest)

pub header_line-kind : (r rest : Bytes) → line_kind (header_line r rest) ≡ hunk_header
unfolding line_kind has_prefix cut_prefix
header_line-kind r rest = refl

pub parse_header_line :
    (r rest : Bytes) (n m : ℕ)
    → OldRange r n m
    → parse_hunk_header (header_line r rest) ≡ some (n, m)
unfolding parse_hunk_header behind cut_prefix
parse_header_line r rest n m p =
    ap parse_old_range (up_to-append r rest (OldRange-free p)) ∙ parse_old_range-OldRange p
