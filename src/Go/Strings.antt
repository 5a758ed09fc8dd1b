-- ===== src/Go/Strings.antt =====
-- Package strings of Go, as far as the program uses it. A Go string is its list of bytes.
use jamsesh.Prelude.{
  ◌&&◌, ◌+◌, ◌++◌, ◌==◌, [], arith, Bool, false, if◌then◌else◌, leb, List, none, Option, refl, some,
  subst, suc, true, zero, ◌||◌, ℕ, ◌↔◌, ◌∷◌, ◌≡◌,
}
use Prim.Native.Char.{code}
use Prim.Native.String.{String}

abbrev pub Bytes : Type 0
Bytes = List ℕ

-- The bytes of an ASCII literal.
abbrev pub codes : String → Bytes
codes String.[] = []
codes (String.◌∷◌ c s) = code c ∷ codes s

-- `s == t`.
unfoldable pub same : Bytes → Bytes → Bool
same [] [] = true
same [] (d ∷ t) = false
same (c ∷ s) [] = false
same (c ∷ s) (d ∷ t) = (c == d) && same s t

pub same_eq : (s t : Bytes) → same s t ≡ true → s ≡ t
unfolding same
same_eq [] [] h = refl
same_eq [] (d ∷ t) h = cc
same_eq (c ∷ s) [] h = cc
same_eq (c ∷ s) (d ∷ t) h = ground (arith, same_eq s t)

pub same_refl : (s : Bytes) → same s s ≡ true
unfolding same
same_refl [] = refl
same_refl (c ∷ s) = ground (arith, same_refl s)

pub same_iff : (s t : Bytes) → (same s t ≡ true) ↔ (s ≡ t)
same_iff s t = (same_eq s t, λ e. subst (λ u. same s u ≡ true) e (same_refl s))

-- `strings.CutPrefix(s, p)`: the rest of `s` behind `p`. `HasPrefix` asks whether there is one.
unfoldable pub cut_prefix : Bytes → Bytes → Option Bytes
cut_prefix s [] = some s
cut_prefix [] (p ∷ ps) = none
cut_prefix (c ∷ s) (p ∷ ps) = if c == p then cut_prefix s ps else none

abbrev pub is_some {ℓ} : {A : Type ℓ} → Option A → Bool
is_some none = false
is_some (some a) = true

unfoldable pub has_prefix : Bytes → Bytes → Bool
unfolding cut_prefix
has_prefix s p = is_some (cut_prefix s p)

pub cut_prefix-append : (p s : Bytes) → cut_prefix (p ++ s) p ≡ some s
unfolding cut_prefix
cut_prefix-append [] s = refl
cut_prefix-append (c ∷ p) s = ground (arith, cut_prefix-append p s)

pub cut_prefix_eq : (s p r : Bytes) → cut_prefix s p ≡ some r → s ≡ p ++ r
unfolding cut_prefix
cut_prefix_eq s [] r h = ground arith
cut_prefix_eq [] (p ∷ ps) r h = cc
cut_prefix_eq (c ∷ s) (p ∷ ps) r h = ground (arith, cut_prefix_eq s ps r)

-- `strings.Contains(s, t)`.
unfoldable pub contains : Bytes → Bytes → Bool
unfolding has_prefix
contains [] t = has_prefix [] t
contains (c ∷ s) t = has_prefix (c ∷ s) t || contains s t

-- Everything up to the first `sep`, and what follows it: `strings.Cut`, and `IndexByte` with slices.
unfoldable pub cut : ℕ → Bytes → Option (Bytes × Bytes)
cut sep [] = none
cut sep (c ∷ s) =
    if c == sep
    then some ([], s)
    else (elim (cut sep s) [ none ↦ none | some (a, b) ↦ some (c ∷ a, b) ])

-- `strings.SplitN(s, sep, n)` for n > 0 and one byte `sep`.
unfoldable pub split_n : ℕ → Bytes → ℕ → List Bytes
unfolding cut
split_n sep s zero = []
split_n sep s (suc zero) = s ∷ []
split_n sep s (suc (suc n)) = elim (cut sep s) [
  | none ↦ s ∷ []
  | some (a, b) ↦ a ∷ split_n sep b (suc n)
]

-- No byte of `s` is `c`.
unfoldable pub free_of : ℕ → Bytes → Bool
free_of c [] = true
free_of c (d ∷ s) = if d == c then false else free_of c s

pub cut-append :
    (sep : ℕ) (a b : Bytes) → free_of sep a ≡ true → cut sep (a ++ sep ∷ b) ≡ some (a, b)
unfolding cut free_of
cut-append sep [] b h = ground arith
cut-append sep (c ∷ a) b h = ground (arith, cut-append sep a b)

pub free_of-append : (c : ℕ) (s t : Bytes) → free_of c (s ++ t) ≡ free_of c s && free_of c t
unfolding free_of
free_of-append c [] t = refl
free_of-append c (d ∷ s) t = ground (arith, free_of-append c s t)

pub cut_free : (sep : ℕ) (s : Bytes) → free_of sep s ≡ true → cut sep s ≡ none
unfolding cut free_of
cut_free sep [] h = refl
cut_free sep (c ∷ s) h = ground (arith, cut_free sep s)

pub cut_eq :
    (sep : ℕ) (s a b : Bytes)
    → cut sep s ≡ some (a, b)
    → (s ≡ a ++ sep ∷ b) × (free_of sep a ≡ true)
unfolding cut free_of
cut_eq sep [] a b h = cc
cut_eq sep (c ∷ s) [] b h = ground arith
cut_eq sep (c ∷ s) (d ∷ a) b h = ground (arith, cut_eq sep s a b)

pub split_n_three :
    (sep : ℕ) (a b c : Bytes)
    → free_of sep a ≡ true
    → free_of sep b ≡ true
    → split_n sep (a ++ sep ∷ (b ++ sep ∷ c)) 3 ≡ a ∷ b ∷ c ∷ []
unfolding split_n
split_n_three sep a b c ha hb =
    ground (arith, cut-append sep a (b ++ sep ∷ c) ha, cut-append sep b c hb)

pub split_n_two :
    (sep : ℕ) (a b : Bytes)
    → free_of sep a ≡ true
    → free_of sep b ≡ true
    → split_n sep (a ++ sep ∷ b) 3 ≡ a ∷ b ∷ []
unfolding split_n
split_n_two sep a b ha hb = ground (arith, cut-append sep a b ha, cut_free sep b hb)

-- `strings.TrimRight(s, set)`, the set given by its test.
unfoldable pub trim_right : (ℕ → Bool) → Bytes → Bytes
trim_right p [] = []
trim_right p (c ∷ s) = elim (trim_right p s) [ [] ↦ if p c then [] else c ∷ [] | d ∷ t ↦ c ∷ d ∷ t ]

unfoldable pub trim_left : (ℕ → Bool) → Bytes → Bytes
trim_left p [] = []
trim_left p (c ∷ s) = if p c then trim_left p s else c ∷ s

-- The ASCII white space of `unicode.IsSpace` (and of `\s`, which has no vertical tab).
unfoldable pub is_space : ℕ → Bool
is_space c = (leb 9 c && leb c 13) || c == 32

unfoldable pub trim_space : Bytes → Bytes
unfolding trim_left trim_right is_space
trim_space s = trim_left is_space (trim_right is_space s)

-- `strings.Split(s, sep)` for one byte `sep`.
unfoldable pub split : ℕ → Bytes → List Bytes
split sep [] = [] ∷ []
split sep (c ∷ s) =
    let rest = split sep s in
    if c == sep then [] ∷ rest else (elim rest [ [] ↦ (c ∷ []) ∷ [] | l ∷ ls ↦ (c ∷ l) ∷ ls ])

-- `strings.ReplaceAll(s, "\r\n", "\n")`.
unfoldable pub crlf_to_lf : Bytes → Bytes
crlf_to_lf [] = []
crlf_to_lf (c ∷ []) = c ∷ []
crlf_to_lf (c ∷ (d ∷ s)) = elim (c == 13 && d == 10) [
  | true ↦ 10 ∷ crlf_to_lf s
  | false ↦ c ∷ crlf_to_lf (d ∷ s)
]

-- `strings.ToLower(s)` on ASCII.
unfoldable pub to_lower : Bytes → Bytes
to_lower [] = []
to_lower (c ∷ s) = (if leb b'A' c && leb c b'Z' then c + 32 else c) ∷ to_lower s
