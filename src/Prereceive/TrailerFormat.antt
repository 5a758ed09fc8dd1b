-- ===== src/Prereceive/TrailerFormat.antt =====
-- parseTrailers and CheckRequiredTrailers (trailers.go) on trailers in the documented form.
use jamsesh.Prelude.{
  ◌==◌, all, All, ap, arith, Bool, Bool-cases, false, inl, inr, map, not, Option, refl, some, sym,
  true, ◌||◌, ℕ, ◌↔◌, ◌∙◌, ◌∷◌, ◌≡◌,
}
use jamsesh.Go.Strings.{
  Bytes, cut-append, free_of, is_space, same, trim_left, trim_right, trim_space,
}
use jamsesh.Prereceive.Trailers.{
  after_spaces, block_loop, check_required_trailers, found_trailers, is_blank, is_continuation,
  is_key, is_key_byte, is_letter, is_missing, last_block, match_trailer, missing_of, parse_lines,
  parse_trailers, Trailer, value_of,
}
use mathlib.Core.List.{◌++◌, [], append-nil, append_assoc, List, reverse, reverse-cons}
use mathlib.Core.Option.{none}

unfoldable pub render : Trailer → Bytes
render t = t.key ++ b':' ∷ (32 ∷ t.value)

unfoldable pub starts_visible : Bytes → Bool
starts_visible [] = false
starts_visible (c ∷ s) = not (is_space c)

-- A key of the pattern, and a value that begins with a visible byte.
pub record WellFormed (t : Trailer) : Type 0 where
  pub key_ok : is_key t.key ≡ true
  pub value_ok : starts_visible t.value ≡ true

key_byte_not_colon : (c : ℕ) → is_key_byte c ≡ true → (c == b':') ≡ false
unfolding is_key_byte
key_byte_not_colon c h = ground arith

all_key-free_of : (s : Bytes) → all is_key_byte s ≡ true → free_of b':' s ≡ true
unfolding all free_of
all_key-free_of [] h = refl
all_key-free_of (c ∷ s) h = ground (arith, key_byte_not_colon c, all_key-free_of s)

is_key-free_of : (s : Bytes) → is_key s ≡ true → free_of b':' s ≡ true
unfolding is_key free_of
is_key-free_of [] h = refl
is_key-free_of (c ∷ s) h = ground (arith, all_key-free_of s)

after_spaces_visible : (v : Bytes) → starts_visible v ≡ true → after_spaces v ≡ some v
unfolding after_spaces starts_visible is_space
after_spaces_visible [] h = cc
after_spaces_visible (c ∷ s) h = ground arith

match_trailer-render : (t : Trailer) → WellFormed t → match_trailer (render t) ≡ some t
unfolding match_trailer render
match_trailer-render t w = ground (
  arith,
  cut-append b':' t.key (32 ∷ t.value) (is_key-free_of t.key w.key_ok),
  after_spaces_visible t.value w.value_ok,
)

-- A line that begins with a visible byte is not blank, and no continuation.
trim_right_visible :
    (c : ℕ) (s : Bytes) → is_space c ≡ false → (t : Bytes) × (trim_right is_space (c ∷ s) ≡ c ∷ t)
unfolding trim_right
trim_right_visible c s h = tail_kept (trim_right is_space s) refl
  where
    tail_kept :
        (r : Bytes)
        → trim_right is_space s ≡ r
        → (t : Bytes) × (trim_right is_space (c ∷ s) ≡ c ∷ t)
    tail_kept [] e = ([], ground arith)
    tail_kept (d ∷ r) e = (d ∷ r, ground arith)

trim_space_visible : (c : ℕ) (s : Bytes) → is_space c ≡ false → is_blank (c ∷ s) ≡ false
unfolding trim_space trim_left same
trim_space_visible c s h = let (t, e) = trim_right_visible c s h in ground arith

letter_visible : (c : ℕ) → is_letter c ≡ true → (is_space c ≡ false) × ((c == 32 || c == 9) ≡ false)
unfolding is_letter is_space
letter_visible c h = (ground arith, ground arith)

line_visible :
    (s rest : Bytes)
    → is_key s ≡ true
    → (is_blank (s ++ rest) ≡ false) × (is_continuation (s ++ rest) ≡ false)
unfolding is_key
line_visible [] rest h = cc
line_visible (c ∷ s) rest h =
    let (a, b) = letter_visible c (ground arith) in (trim_space_visible c (s ++ rest) a, b)

render_visible :
    (t : Trailer)
    → WellFormed t
    → (is_blank (render t) ≡ false) × (is_continuation (render t) ≡ false)
unfolding render
render_visible t w = line_visible t.key (b':' ∷ (32 ∷ t.value)) w.key_ok

block_loop_first :
    (l : Bytes) (ls : List Bytes) (t : Trailer)
    → match_trailer l ≡ some t
    → block_loop [] (l ∷ ls) ≡ block_loop (t ∷ []) ls
unfolding block_loop
block_loop_first l ls t e = ground arith

block_loop_next :
    (last : Trailer) (out : List Trailer) (l : Bytes) (ls : List Bytes) (t : Trailer)
    → is_continuation l ≡ false
    → match_trailer l ≡ some t
    → block_loop (last ∷ out) (l ∷ ls) ≡ block_loop (t ∷ last ∷ out) ls
unfolding block_loop
block_loop_next last out l ls t c e = ground arith

-- The block loop reads a rendered block back.
block_loop-render :
    (out ts : List Trailer)
    → All WellFormed ts
    → block_loop out (map render ts) ≡ some (reverse out ++ ts)
unfolding block_loop
block_loop-render [] [] w = refl
block_loop-render (l ∷ out) [] w = ap some (sym (append-nil (reverse (l ∷ out))))
block_loop-render [] (t ∷ ts) w =
    block_loop_first (render t) (map render ts) t (match_trailer-render t w.0)
    ∙ block_loop-render (t ∷ []) ts w.1
block_loop-render (l ∷ out) (t ∷ ts) w =
    block_loop_next l out (render t) (map render ts) t (render_visible t w.0).1
      (match_trailer-render t w.0)
    ∙ block_loop-render (t ∷ (l ∷ out)) ts w.1
    ∙ ap some (reverse_shift t (l ∷ out) ts)
  where
    reverse_shift :
        (t : Trailer) (out ts : List Trailer) → reverse (t ∷ out) ++ ts ≡ reverse out ++ t ∷ ts
    reverse_shift t out ts = rw (reverse-cons t out, append_assoc)

last_block-render :
    (ts : List Trailer) → All WellFormed ts → last_block (map render ts) ≡ (false, map render ts)
unfolding last_block
last_block-render [] w = refl
last_block-render (t ∷ ts) w = rw (last_block-render ts w.1, (render_visible t w.0).0)

last_block-append :
    (body : List Bytes) (ts : List Trailer)
    → All WellFormed ts
    → last_block (body ++ [] ∷ map render ts) ≡ (true, map render ts)
unfolding last_block
last_block-append [] ts w =
    rw (last_block-render ts w) (unfold trim_space trim_left trim_right same in refl)
last_block-append (l ∷ body) ts w = rw (last_block-append body ts w)

-- Whatever the lines above, a block of well-formed trailers behind a blank line is read back as it was
-- written, in order.
pub parse_lines-render :
    (body : List Bytes) (t : Trailer) (ts : List Trailer)
    → All WellFormed (t ∷ ts)
    → parse_lines (body ++ [] ∷ map render (t ∷ ts)) ≡ some (t ∷ ts)
unfolding parse_lines
parse_lines-render body t ts w =
    rw (last_block-append body (t ∷ ts) w) (block_loop-render [] (t ∷ ts) w)

-- The first trailer with the key has a value that is not blank.
abbrev pub Present : List Trailer → Bytes → Type 0
Present have key = (v : Bytes) × (value_of key have ≡ some v) × (is_blank v ≡ false)

missing_of_iff :
    (have : List Trailer) (ks : List Bytes) → (missing_of have ks ≡ []) ↔ All (Present have) ks
unfolding missing_of
missing_of_iff have ks = (found ks, complete ks)
  where
    found_value :
        (o : Option Bytes)
        → is_missing o ≡ false
        → (v : Bytes) × (o ≡ some v) × (is_blank v ≡ false)
    found_value none h = cc
    found_value (some v) h = (v, refl, h)

    found : (ks : List Bytes) → missing_of have ks ≡ [] → All (Present have) ks
    found [] h = tt
    found (k ∷ ks) h = elim (Bool-cases (is_missing (value_of k have))) [
      | inl e ↦ absurd (ground arith)
      | inr e ↦ (found_value (value_of k have) e, found ks (ground arith))
    ]

    complete : (ks : List Bytes) → All (Present have) ks → missing_of have ks ≡ []
    complete [] w = refl
    complete (k ∷ ks) ((v, e, b), w) = ground (arith, complete ks w)

-- CheckRequiredTrailers reports nothing exactly when every required key has a trailer in the message
-- whose first value is not blank.
pub check_required_trailers_iff :
    (message : Bytes) (ks : List Bytes)
    → (check_required_trailers message ks ≡ [])
      ↔ All (Present (found_trailers (parse_trailers message))) ks
unfolding check_required_trailers
check_required_trailers_iff message ks = missing_of_iff (found_trailers (parse_trailers message)) ks
