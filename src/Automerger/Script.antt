-- ===== src/Automerger/Script.antt =====
-- The unified diff of a pure addition, as `diff -u` prints it, and parseUnifiedDiffAddOnly (heuristics.go).
use jamsesh.Prelude.{
  ◌++◌, ◌+ℤ◌, ◌==◌, [], ap, arith, Bool, false, length, List, pos, refl, some, sub_ℕ, true, ◌||◌, ℕ,
  ℤ, ◌∙◌, ◌∷◌, ◌≡◌,
}
use jamsesh.Automerger.Additions.{Added, collect_added, lines_from}
use jamsesh.Automerger.Diff.{
  add_line, AddHunk, addition, context, context_line, has_lines, line_kind, Parser, scan, scan_line,
}
use jamsesh.Automerger.Range.{header_line, OldRange}
use jamsesh.Go.Strings.{Bytes, codes, cut_prefix, has_prefix}
use mathlib.Core.List.{append-nil, append_assoc}

pub data Edit : Type 0 where
  keep add : Bytes → Edit

-- A hunk: what its header has before and behind " +", and the range of the base that this stands for.
pub record Hunk : Type 0 where
  pub range : Bytes
  pub tail : Bytes
  pub start : ℕ
  pub len : ℕ
  pub edits : List Edit

abbrev pub header : Hunk → Bytes
header h = header_line h.range h.tail

unfoldable pub print_edits : List Edit → List Bytes
print_edits [] = []
print_edits (keep l ∷ es) = (32 ∷ l) ∷ print_edits es
print_edits (add l ∷ es) = (43 ∷ l) ∷ print_edits es

unfoldable pub print_hunks : List Hunk → List Bytes
unfolding print_edits
print_hunks [] = []
print_hunks (h ∷ hs) = header h ∷ (print_edits h.edits ++ print_hunks hs)

-- The lines that a script adds, each behind the line of the base it stands at.
unfoldable pub edits_added : Bool → ℤ → List Edit → List Added
edits_added t n [] = []
edits_added t n (keep l ∷ es) = edits_added t (n +ℤ pos 1) es
edits_added t n (add l ∷ es) =
    record { after_line = n; content = l; theirs = t } ∷ edits_added t n es

unfoldable pub hunks_added : Bool → List Hunk → List Added
unfolding edits_added
hunks_added t [] = []
hunks_added t (h ∷ hs) = edits_added t (sub_ℕ h.start 2) h.edits ++ hunks_added t hs

-- An added line that begins with "++" prints as a file header.
unfoldable pub Clear : List Edit → Type 0
Clear [] = Unit
Clear (keep l ∷ es) = Clear es
Clear (add l ∷ es) = (has_prefix l (codes "++") ≡ false) × Clear es

-- The last edit keeps a line; `b` is the answer for no edit.
unfoldable pub ends_kept : Bool → List Edit → Bool
ends_kept b [] = b
ends_kept b (keep l ∷ es) = ends_kept true es
ends_kept b (add l ∷ es) = ends_kept false es

-- The header names the range in decimal, and a hunk that another follows ends with context.
unfoldable pub Printed : List Hunk → Type 0
unfolding Clear ends_kept
Printed [] = Unit
Printed (h ∷ hs) =
    OldRange h.range h.start h.len
    × Clear h.edits
    × ((length hs == 0 || ends_kept false h.edits) ≡ true)
    × Printed hs

pub collect_added-append :
    (t : Bool) (xs ys : List AddHunk)
    → collect_added t (xs ++ ys) ≡ collect_added t xs ++ collect_added t ys
unfolding collect_added
collect_added-append t [] ys = refl
collect_added-append t (x ∷ xs) ys = rw (collect_added-append t xs ys, append_assoc)

lines_from-append :
    (t : Bool) (n : ℤ) (xs ys : List Bytes)
    → lines_from t n (xs ++ ys) ≡ lines_from t n xs ++ lines_from t n ys
unfolding lines_from
lines_from-append t n [] ys = refl
lines_from-append t n (x ∷ xs) ys =
    ap (λ r. record { after_line = n; content = x; theirs = t } ∷ r) (lines_from-append t n xs ys)

-- A parser in a hunk: what it has found, and where it stands.
unfoldable pub in_hunk : List AddHunk → ℤ → List Bytes → Parser
in_hunk hs n ls = record {
  hunks = hs;
  current = some (record { after_base_line = n; added_lines = ls });
  base_line_no = n;
}

unfoldable pub found : Bool → List AddHunk → ℤ → List Bytes → List Added
unfolding collect_added lines_from
found t hs n ls = collect_added t hs ++ lines_from t n ls

kind_add : (l : Bytes) → has_prefix l (codes "++") ≡ false → line_kind (43 ∷ l) ≡ addition l
unfolding line_kind has_prefix cut_prefix
kind_add l h = ground (arith, h)

kind_keep : (l : Bytes) → line_kind (32 ∷ l) ≡ context
unfolding line_kind has_prefix cut_prefix
kind_keep l = refl

-- Where the parser stands after some edits.
pub record Scanned (t b : Bool) (hs : List AddHunk) (n : ℤ) (ls : List Bytes) (es : List Edit)
    (rest : List Bytes) : Type 0 where
  pub hunks' : List AddHunk
  pub line' : ℤ
  pub lines' : List Bytes
  pub scans :
      scan (in_hunk hs n ls) (print_edits es ++ rest) ≡ scan (in_hunk hunks' line' lines') rest
  pub finds : found t hunks' line' lines' ≡ found t hs n ls ++ edits_added t n es
  pub clears : ends_kept b es ≡ true → lines' ≡ []

scan_add :
    (hs : List AddHunk) (n : ℤ) (ls : List Bytes) (l : Bytes) (rest : List Bytes)
    → has_prefix l (codes "++") ≡ false
    → scan (in_hunk hs n ls) ((43 ∷ l) ∷ rest) ≡ scan (in_hunk hs n (ls ++ l ∷ [])) rest
unfolding scan scan_line add_line in_hunk
scan_add hs n ls l rest h = rw (kind_add l h)

found_add :
    (t : Bool) (hs : List AddHunk) (n : ℤ) (ls : List Bytes) (l : Bytes)
    → found t hs n (ls ++ l ∷ [])
      ≡ found t hs n ls ++ record { after_line = n; content = l; theirs = t } ∷ []
unfolding found
found_add t hs n ls l = rw (lines_from-append t n ls (l ∷ []), append_assoc)

scan_keep_empty :
    (hs : List AddHunk) (n : ℤ) (l : Bytes) (rest : List Bytes)
    → scan (in_hunk hs n []) ((32 ∷ l) ∷ rest) ≡ scan (in_hunk hs (n +ℤ pos 1) []) rest
unfolding scan scan_line context_line in_hunk line_kind has_lines
scan_keep_empty hs n l rest = refl

scan_keep :
    (hs : List AddHunk) (n : ℤ) (x : Bytes) (ls : List Bytes) (l : Bytes) (rest : List Bytes)
    → scan (in_hunk hs n (x ∷ ls)) ((32 ∷ l) ∷ rest)
      ≡ scan
          (in_hunk
            (hs ++ record { after_base_line = n; added_lines = x ∷ ls } ∷ [])
            (n +ℤ pos 1)
            [])
          rest
unfolding scan scan_line context_line in_hunk line_kind has_lines
scan_keep hs n x ls l rest = ground arith

found_keep :
    (t : Bool) (hs : List AddHunk) (n m : ℤ) (ls : List Bytes)
    → found t (hs ++ record { after_base_line = n; added_lines = ls } ∷ []) m [] ≡ found t hs n ls
unfolding found
found_keep t hs n m ls = rw (
  collect_added-append t hs (record { after_base_line = n; added_lines = ls } ∷ []),
  append-nil,
  append-nil,
)

found_none : (t : Bool) (hs : List AddHunk) (n m : ℤ) → found t hs n [] ≡ found t hs m []
unfolding found
found_none t hs n m = refl

pub scan-Scanned :
    (t b : Bool) (hs : List AddHunk) (n : ℤ) (ls : List Bytes) (es : List Edit) (rest : List Bytes)
    → Clear es
    → (b ≡ true → ls ≡ [])
    → Scanned t b hs n ls es rest
unfolding print_edits edits_added Clear ends_kept
scan-Scanned t b hs n ls [] rest c e = record {
  hunks' = hs;
  line' = n;
  lines' = ls;
  scans = refl;
  finds = rw append-nil;
  clears = e;
}
scan-Scanned t b hs n ls (add l ∷ es) rest c e =
    let r = scan-Scanned t false hs n (ls ++ l ∷ []) es rest c.1 (λ q. cc) in
    record {
      hunks' = r.hunks';
      line' = r.line';
      lines' = r.lines';
      scans = scan_add hs n ls l (print_edits es ++ rest) c.0 ∙ r.scans;
      finds = r.finds ∙ rw (found_add t hs n ls l, append_assoc);
      clears = r.clears;
    }
scan-Scanned t b hs n [] (keep l ∷ es) rest c e =
    let r = scan-Scanned t true hs (n +ℤ pos 1) [] es rest c (λ q. refl) in
    record {
      hunks' = r.hunks';
      line' = r.line';
      lines' = r.lines';
      scans = scan_keep_empty hs n l (print_edits es ++ rest) ∙ r.scans;
      finds =
          r.finds ∙ ap (λ f. f ++ edits_added t (n +ℤ pos 1) es) (found_none t hs (n +ℤ pos 1) n);
      clears = r.clears;
    }
scan-Scanned t b hs n (x ∷ ls) (keep l ∷ es) rest c e =
    let hs' = hs ++ record { after_base_line = n; added_lines = x ∷ ls } ∷ [] in
    let r = scan-Scanned t true hs' (n +ℤ pos 1) [] es rest c (λ q. refl) in
    record {
      hunks' = r.hunks';
      line' = r.line';
      lines' = r.lines';
      scans = scan_keep hs n x ls l (print_edits es ++ rest) ∙ r.scans;
      finds =
          r.finds
          ∙ ap (λ f. f ++ edits_added t (n +ℤ pos 1) es) (found_keep t hs n (n +ℤ pos 1) (x ∷ ls));
      clears = r.clears;
    }
