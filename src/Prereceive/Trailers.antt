-- ===== src/Prereceive/Trailers.antt =====
-- internal/portal/prereceive/trailers.go. White space is the ASCII one.
use jamsesh.Prelude.{
  ◌&&◌, ◌++◌, ◌==◌, [], all, Bool, false, if◌then◌else◌, leb, none, Option, some, true, ◌||◌, ℕ,
  ◌∷◌,
}
use jamsesh.Go.Strings.{Bytes, crlf_to_lf, cut, same, split, trim_right, trim_space}
use mathlib.Core.List.{List, reverse}

pub record Trailer : Type 0 where
  pub key : Bytes
  pub value : Bytes

unfoldable pub is_letter : ℕ → Bool
is_letter c = (leb b'A' c && leb c b'Z') || (leb b'a' c && leb c b'z')

-- [A-Za-z0-9_-]
unfoldable pub is_key_byte : ℕ → Bool
unfolding is_letter
is_key_byte c = is_letter c || (leb b'0' c && leb c b'9') || c == b'_' || c == b'-'

unfoldable pub is_key : Bytes → Bool
unfolding is_key_byte
is_key [] = false
is_key (c ∷ s) = is_letter c && all is_key_byte s

-- `\s` of a regular expression: no vertical tab.
unfoldable pub is_re_space : ℕ → Bool
is_re_space c = c == 32 || c == 9 || c == 10 || c == 12 || c == 13

-- What `\s*(.+)$` captures: the greedy `\s*` leaves at least one byte.
unfoldable pub after_spaces : Bytes → Option Bytes
unfolding is_re_space
after_spaces [] = none
after_spaces (c ∷ s) =
    let rest = after_spaces s in
    if is_re_space c then (elim rest [ none ↦ some (c ∷ s) | some v ↦ some v ]) else some (c ∷ s)

unfoldable pub after_space : Bytes → Option Bytes
unfolding after_spaces
after_space [] = none
after_space (c ∷ s) = if is_re_space c then after_spaces s else none

-- trailerRe on a line, which holds no line feed.
unfoldable pub match_trailer : Bytes → Option Trailer
unfolding is_key after_space
match_trailer l = elim (cut b':' l) [
  | none ↦ none
  | some (key, rest) ↦
      if is_key key
      then (elim (after_space rest) [
        | none ↦ none
        | some value ↦ some (record { key = key; value = value })
      ])
      else none
]

abbrev pub is_blank : Bytes → Bool
is_blank l = same (trim_space l) []

-- The lines behind the last blank line, and whether there is one.
unfoldable pub last_block : List Bytes → Bool × List Bytes
last_block [] = (false, [])
last_block (l ∷ ls) =
    let (found, block) = last_block ls in
    if found then (true, block) else if is_blank l then (true, block) else (false, l ∷ block)

-- A folded continuation, which begins with a blank or a tab.
abbrev pub is_continuation : Bytes → Bool
is_continuation [] = false
is_continuation (c ∷ s) = c == 32 || c == 9

-- The loop of parseTrailers over the block; `out` holds the last trailer first.
unfoldable pub block_loop : List Trailer → List Bytes → Option (List Trailer)
unfolding match_trailer
block_loop out [] = some (reverse out)
block_loop [] (l ∷ ls) = elim (match_trailer l) [ none ↦ none | some t ↦ block_loop (t ∷ []) ls ]
block_loop (last ∷ out) (l ∷ ls) = elim (is_continuation l) [
  | true ↦ block_loop (record last { value = last.value ++ 32 ∷ trim_space l } ∷ out) ls
  | false ↦ elim (match_trailer l) [ none ↦ none | some t ↦ block_loop (t ∷ last ∷ out) ls ]
]

-- parseTrailers on the lines of the message.
unfoldable pub parse_lines : List Bytes → Option (List Trailer)
unfolding last_block block_loop
parse_lines ls =
    let (found, block) = last_block ls in
    if found then (elim block [ [] ↦ none | l ∷ rest ↦ block_loop [] (l ∷ rest) ]) else none

-- The lines of a message: line endings normalised, trailing line feeds cut.
unfoldable pub message_lines : Bytes → List Bytes
unfolding crlf_to_lf trim_right split
message_lines message = split 10 (trim_right (λ c. c == 10) (crlf_to_lf message))

-- parseTrailers
unfoldable pub parse_trailers : Bytes → Option (List Trailer)
unfolding parse_lines message_lines
parse_trailers message = elim (trim_right (λ c. c == 10) (crlf_to_lf message)) [
  | [] ↦ none
  | c ∷ s ↦ parse_lines (message_lines message)
]

-- The map of Trailers: the first occurrence of a key wins.
unfoldable pub value_of : Bytes → List Trailer → Option Bytes
value_of key [] = none
value_of key (t ∷ ts) = if same t.key key then some t.value else value_of key ts

abbrev pub found_trailers : Option (List Trailer) → List Trailer
found_trailers none = []
found_trailers (some ts) = ts

abbrev pub is_missing : Option Bytes → Bool
is_missing none = true
is_missing (some v) = is_blank v

unfoldable pub missing_of : List Trailer → List Bytes → List Bytes
unfolding value_of
missing_of have [] = []
missing_of have (k ∷ ks) =
    if is_missing (value_of k have) then k ∷ missing_of have ks else missing_of have ks

-- CheckRequiredTrailers
unfoldable pub check_required_trailers : Bytes → List Bytes → List Bytes
unfolding missing_of parse_trailers
check_required_trailers message required =
    missing_of (found_trailers (parse_trailers message)) required
