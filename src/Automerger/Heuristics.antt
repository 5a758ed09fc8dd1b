-- ===== src/Automerger/Heuristics.antt =====
-- heuristics.go: isBinary, isIdenticalEdit, isWhitespaceOnly and the helpers of the lines.
use jamsesh.Prelude.{
  ◌&&◌, ◌==◌, [], any, Bool, false, if◌then◌else◌, length, List, none, not, Option, some, suc, take,
  true, ◌||◌, ℕ, ◌∷◌,
}
use jamsesh.Go.Strings.{Bytes, crlf_to_lf, same, split, trim_right}

-- The first 8000 bytes have a zero.
unfoldable pub is_binary : Bytes → Bool
is_binary b = any (λ c. c == 0) (take 8000 b)

unfoldable pub is_identical_edit : (base ours theirs : Bytes) → Option Bytes
is_identical_edit base ours theirs =
    if same ours theirs && not (same ours base) then some ours else none

abbrev pub normalise_lf : Bytes → Bytes
normalise_lf b = crlf_to_lf b

-- `s[:len(s)-1]` if the text ends with a newline.
unfoldable pub drop_newline : Bytes → Bytes
drop_newline [] = []
drop_newline (c ∷ []) = if c == 10 then [] else c ∷ []
drop_newline (c ∷ d ∷ s) = c ∷ drop_newline (d ∷ s)

unfoldable pub split_lines : Bytes → List Bytes
split_lines [] = []
split_lines (c ∷ s) = split 10 (drop_newline (c ∷ s))

unfoldable pub leading_tabs : Bytes → ℕ
leading_tabs [] = 0
leading_tabs (c ∷ s) = if c == 9 then suc (leading_tabs s) else 0

unfoldable pub strip : Bytes → Bytes
strip l = trim_right (λ c. c == 32 || c == 9) l

-- A turn of the loop: the line of one side against that of the base.
unfoldable pub line_agrees : (base side : Bytes) → Bool
line_agrees base side = same (strip side) (strip base) && (leading_tabs side == leading_tabs base)

-- The loop, on sides that have as many lines as the base.
unfoldable pub lines_agree : (base ours theirs : List Bytes) → Bool
lines_agree [] ours theirs = true
lines_agree (b ∷ bs) (o ∷ os) (t ∷ ts) = line_agrees b o && line_agrees b t && lines_agree bs os ts
lines_agree (b ∷ bs) [] ts = false
lines_agree (b ∷ bs) (o ∷ os) [] = false

unfoldable pub is_whitespace_only : (base ours theirs : Bytes) → Option Bytes
is_whitespace_only base ours theirs =
    let bs = split_lines (normalise_lf base) in
    let os = split_lines (normalise_lf ours) in
    let ts = split_lines (normalise_lf theirs) in
    if not (length os == length bs) || not (length ts == length bs)
    then none
    else if lines_agree bs os ts
    then some ours
    else none

pub data Heuristic : Type 0 where
  no_heuristic identical whitespace additions : Heuristic

unfoldable pub heuristic_priority : Heuristic → ℕ
heuristic_priority identical = 0
heuristic_priority whitespace = 1
heuristic_priority additions = 2
heuristic_priority no_heuristic = 99
