-- ===== src/Automerger/Diff.antt =====
-- heuristics.go: classifyDiffErr, diffAddOnly, parseUnifiedDiffAddOnly and parseHunkHeader. The process
-- `diff -u` is a parameter. Positions are the source's: lines of the base from 0, `-1` before the first.
use jamsesh.Prelude.{
  ◌&&◌, ◌*◌, ◌+◌, ◌++◌, ◌+ℤ◌, ◌-◌, ◌==◌, [], Bool, if◌then◌else◌, leb, length, List, negsuc, none,
  not, Option, pos, some, sub_ℕ, ◌||◌, ℕ, ℤ, ◌∷◌,
}
use jamsesh.Automerger.Heuristics.{split_lines}
use jamsesh.Go.Strings.{Bytes, codes, cut, cut_prefix, has_prefix, same}

-- How `diff` ended: it did not start, or it exited with a code and an output.
pub data DiffRun : Type 0 where
  not_started : DiffRun
  exited : ℕ → Bytes → DiffRun

-- classifyDiffErr, and runDiff.
unfoldable pub run_diff : DiffRun → Option Bytes
run_diff not_started = none
run_diff (exited code out) = if code == 0 || code == 1 then some out else none

pub record AddHunk : Type 0 where
  pub after_base_line : ℤ
  pub added_lines : List Bytes

-- The answer of diffAddOnly: an error, nil, or the hunks.
pub data AddOnly : Type 0 where
  failed not_pure : AddOnly
  pure : List AddHunk → AddOnly

-- `strconv.Atoi` on the digits of a range; a range of `diff` has no sign.
unfoldable pub atoi_from : ℕ → Bytes → Option ℕ
atoi_from n [] = some n
atoi_from n (c ∷ s) = if leb 48 c && leb c 57 then atoi_from (n * 10 + (c - 48)) s else none

unfoldable pub atoi : Bytes → Option ℕ
unfolding atoi_from
atoi [] = none
atoi (c ∷ s) = atoi_from 0 (c ∷ s)

-- `s[:i]` for the first place i where `t` begins, or all of `s`.
unfoldable pub up_to : Bytes → Bytes → Bytes
unfolding has_prefix
up_to t [] = []
up_to t (c ∷ s) = if has_prefix (c ∷ s) t then [] else c ∷ up_to t s

-- The header of a hunk, of a line that begins with "@@ ": where the old range starts, and its length.
unfoldable pub parse_old_range : Bytes → Option (ℕ × ℕ)
unfolding cut atoi
parse_old_range r = elim (cut 44 r) [
  | none ↦ (elim (atoi r) [ none ↦ none | some n ↦ some (n, 1) ])
  | some (a, b) ↦ (elim (atoi a) [
    | none ↦ none
    | some n ↦ (elim (atoi b) [ none ↦ none | some m ↦ some (n, m) ])
  ])
]

-- What follows the first place where `t` begins: `strings.Index`, with a slice.
unfoldable pub behind : Bytes → Bytes → Option Bytes
unfolding cut_prefix
behind t [] = cut_prefix [] t
behind t (c ∷ s) = elim (cut_prefix (c ∷ s) t) [ some r ↦ some r | none ↦ behind t s ]

unfoldable pub parse_hunk_header : Bytes → Option (ℕ × ℕ)
unfolding behind parse_old_range up_to
parse_hunk_header line = elim (behind (codes "@@ -") line) [
  | none ↦ some (0, 0)
  | some rest ↦ parse_old_range (up_to (codes " +") rest)
]

-- The cases of the switch.
pub data LineKind : Type 0 where
  file_header hunk_header deletion context : LineKind
  addition : Bytes → LineKind

unfoldable pub line_kind : Bytes → LineKind
unfolding has_prefix cut_prefix
line_kind l =
    if has_prefix l (codes "---") || has_prefix l (codes "+++")
    then file_header
    else if has_prefix l (codes "@@ ")
    then hunk_header
    else if has_prefix l (codes "-")
    then deletion
    else (elim (cut_prefix l (codes "+")) [ some text ↦ addition text | none ↦ context ])

pub record Parser : Type 0 where
  pub hunks : List AddHunk
  pub current : Option AddHunk
  pub base_line_no : ℤ

pub data Next : Type 0 where
  go_on : Parser → Next
  return : AddOnly → Next

unfoldable pub has_lines : AddHunk → Bool
has_lines h = not (length h.added_lines == 0)

unfoldable pub open_hunk : Parser → ℕ → Parser
open_hunk p start =
    let n = sub_ℕ start 2 in
    record p { current = some (record { after_base_line = n; added_lines = [] }); base_line_no = n }

unfoldable pub add_line : Parser → Bytes → Parser
add_line p text = elim p.current [
  | none ↦ p
  | some h ↦ record p {
    current =
        some
          (record { after_base_line = p.base_line_no; added_lines = h.added_lines ++ text ∷ [] });
  }
]

unfoldable pub context_line : Parser → Parser
unfolding has_lines
context_line p = elim p.current [
  | none ↦ p
  | some h ↦
      let n = p.base_line_no +ℤ pos 1 in
      if has_lines h
      then record {
        hunks = p.hunks ++ h ∷ [];
        current = some (record { after_base_line = n; added_lines = [] });
        base_line_no = n;
      }
      else record p { current = some (record h { after_base_line = n }); base_line_no = n }
]

unfoldable pub scan_line : Parser → Bytes → Next
unfolding line_kind parse_hunk_header open_hunk add_line context_line
scan_line p l = elim (line_kind l) [
  | file_header ↦ go_on p
  | hunk_header ↦ (elim (parse_hunk_header l) [
    | none ↦ return failed
    | some (start, len) ↦ go_on (open_hunk p start)
  ])
  | deletion ↦ return not_pure
  | addition text ↦ go_on (add_line p text)
  | context ↦ go_on (context_line p)
]

-- The last hunk; a nil slice is not pure.
unfoldable pub all_hunks : Parser → List AddHunk
unfolding has_lines
all_hunks p = elim p.current [
  | none ↦ p.hunks
  | some h ↦ if has_lines h then p.hunks ++ h ∷ [] else p.hunks
]

unfoldable pub finish : Parser → AddOnly
unfolding all_hunks
finish p = if length (all_hunks p) == 0 then not_pure else pure (all_hunks p)

unfoldable pub scan : Parser → List Bytes → AddOnly
unfolding scan_line finish
scan p [] = finish p
scan p (l ∷ ls) = elim (scan_line p l) [ go_on p' ↦ scan p' ls | return r ↦ r ]

-- bufio.Scanner: the lines, without a final CR, up to the first that does not fit its buffer.
unfoldable pub drop_cr : Bytes → Bytes
drop_cr [] = []
drop_cr (c ∷ []) = if c == 13 then [] else c ∷ []
drop_cr (c ∷ d ∷ s) = c ∷ drop_cr (d ∷ s)

abbrev pub max_token : ℕ
max_token = 65535

unfoldable pub scanned : List Bytes → List Bytes
unfolding drop_cr
scanned [] = []
scanned (l ∷ ls) = if leb (length l) max_token then drop_cr l ∷ scanned ls else []

unfoldable pub parse_unified_diff_add_only : Bytes → AddOnly
unfolding scan scanned split_lines
parse_unified_diff_add_only diff =
    scan (record { hunks = []; current = none; base_line_no = negsuc 0 })
      (scanned (split_lines diff))

-- `diff` gives the run on two files, or nothing if the temporary files cannot be written.
unfoldable pub diff_add_only : (Bytes → Bytes → Option DiffRun) → (base other : Bytes) → AddOnly
unfolding run_diff parse_unified_diff_add_only
diff_add_only diff base other = if same base other then pure [] else (elim (diff base other) [
  | none ↦ failed
  | some r ↦ (elim (run_diff r) [ none ↦ failed | some out ↦ parse_unified_diff_add_only out ])
])
