-- ===== src/Automerger/Parsed.antt =====
-- parseUnifiedDiffAddOnly (heuristics.go) reads back the additions of a printed diff.
use jamsesh.Prelude.{
  ◌++◌, ◌==◌, [], ap, arith, Bool, Bool-cases, false, inl, inr, length, length-append, List, negsuc,
  none, refl, some, sub_ℕ, suc, sym, true, ℕ, ℤ, ◌∙◌, ◌∷◌, ◌≡◌, ◌≢◌, ◌⊎◌,
}
use jamsesh.Automerger.Additions.{Added, collect_added}
use jamsesh.Automerger.Diff.{
  go_on, AddHunk, all_hunks, file_header, finish, has_lines, hunk_header, line_kind, open_hunk,
  parse_hunk_header, Parser, pure, scan, scan_line,
}
use jamsesh.Automerger.Range.{header_line-kind, OldRange, parse_header_line}
use jamsesh.Automerger.Script.{
  header, collect_added-append, edits_added, found, Hunk, hunks_added, in_hunk, print_edits,
  print_hunks, Printed, scan-Scanned,
}
use jamsesh.Go.Strings.{codes, cut_prefix, has_prefix, Bytes}
use mathlib.Core.List.{append-nil, append_assoc}

-- Where the parser stands at the end of the hunks.
record Finished (t : Bool) (hs : List AddHunk) (n : ℤ) (ls : List Bytes) (ks : List Hunk)
    : Type 0 where
  hunks' : List AddHunk
  line' : ℤ
  lines' : List Bytes
  scans : scan (in_hunk hs n ls) (print_hunks ks) ≡ finish (in_hunk hunks' line' lines')
  finds : found t hunks' line' lines' ≡ found t hs n ls ++ hunks_added t ks

scan_line_header :
    (p : Parser) (l : Bytes) (start len : ℕ)
    → line_kind l ≡ hunk_header
    → parse_hunk_header l ≡ some (start, len)
    → scan_line p l ≡ go_on (open_hunk p start)
unfolding scan_line
scan_line_header p l start len h h' = rw (scan_line, h, h') refl

scan_next :
    (p q : Parser) (l : Bytes) (rest : List Bytes)
    → scan_line p l ≡ go_on q
    → scan p (l ∷ rest) ≡ scan q rest
unfolding scan
scan_next p q l rest h = rw (scan, h) refl

header_read :
    (p : Parser) (k : Hunk)
    → OldRange k.range k.start k.len
    → scan_line p (header k) ≡ go_on (open_hunk p k.start)
header_read p k r =
    scan_line_header p (header k) k.start k.len (header_line-kind k.range k.tail)
      (parse_header_line k.range k.tail k.start k.len r)

scan-header :
    (hs : List AddHunk) (n : ℤ) (ls : List Bytes) (k : Hunk) (rest : List Bytes)
    → OldRange k.range k.start k.len
    → scan (in_hunk hs n ls) (header k ∷ rest) ≡ scan (in_hunk hs (sub_ℕ k.start 2) []) rest
unfolding open_hunk in_hunk
scan-header hs n ls k rest p =
    scan_next (in_hunk hs n ls) (in_hunk hs (sub_ℕ k.start 2) []) (header k) rest
      (header_read (in_hunk hs n ls) k p)

restart :
    (t : Bool) (hs : List AddHunk) (n : ℤ) (ls : List Bytes) (m : ℤ) (c : ℕ)
    → ((suc c == 0) ≡ true) ⊎ (ls ≡ [])
    → found t hs m [] ≡ found t hs n ls
unfolding found
restart t hs n ls m c (inl q) = absurd (ground arith)
restart t hs n ls m c (inr q) = rw q

scan-Finished :
    (t : Bool) (hs : List AddHunk) (n : ℤ) (ls : List Bytes) (ks : List Hunk)
    → Printed ks
    → ((length ks == 0) ≡ true) ⊎ (ls ≡ [])
    → Finished t hs n ls ks
unfolding print_hunks hunks_added Printed scan
scan-Finished t hs n ls [] p e = record {
  hunks' = hs;
  line' = n;
  lines' = ls;
  scans = refl;
  finds = rw append-nil;
}
scan-Finished t hs n ls (k ∷ ks) p e =
    let s = scan-Scanned t false hs (sub_ℕ k.start 2) [] k.edits (print_hunks ks) p.1 (λ q. refl) in
    let empty : (length ks == 0 ≡ true) ⊎ (s.lines' ≡ []) = (elim (Bool-cases (length ks == 0)) [
      | inl q ↦ inl q
      | inr q ↦ inr (s.clears (ground (arith, p.2, q)))
    ]) in
    let r = scan-Finished t s.hunks' s.line' s.lines' ks p.3 empty in
    record {
      hunks' = r.hunks';
      line' = r.line';
      lines' = r.lines';
      scans = scan-header hs n ls k (print_edits k.edits ++ print_hunks ks) p.0 ∙ s.scans ∙ r.scans;
      finds =
          r.finds
          ∙ ap (λ f. f ++ hunks_added t ks)
              (s.finds
                ∙ ap (λ f. f ++ edits_added t (sub_ℕ k.start 2) k.edits)
                    (restart t hs n ls (sub_ℕ k.start 2) (length ks) e))
          ∙ rw append_assoc;
    }

finish-found :
    (t : Bool) (hs : List AddHunk) (n : ℤ) (ls : List Bytes)
    → found t hs n ls ≢ []
    → (r : List AddHunk) × (finish (in_hunk hs n ls) ≡ pure r)
      × (collect_added t r ≡ found t hs n ls)
unfolding finish in_hunk all_hunks has_lines found
finish-found t [] n [] h = absurd (h refl)
finish-found t (k ∷ hs) n [] h = (k ∷ hs, ground arith, rw append-nil)
finish-found t hs n (l ∷ ls) h = (
  hs ++ record { after_base_line = n; added_lines = l ∷ ls } ∷ [],
  ground (arith, length-append hs (record { after_base_line = n; added_lines = l ∷ ls } ∷ [])),
  rw (
    collect_added-append t hs (record { after_base_line = n; added_lines = l ∷ ls } ∷ []),
    append-nil,
  ),
)

abbrev pub first_parser : Parser
first_parser = record { hunks = []; current = none; base_line_no = negsuc 0 }

found_start : (t : Bool) (n : ℤ) (xs : List Added) → found t [] n [] ++ xs ≡ xs
unfolding found
found_start t n xs = refl

scan_file_header : (p : Parser) (l : Bytes) → line_kind l ≡ file_header → scan_line p l ≡ go_on p
unfolding scan_line
scan_file_header p l h = rw (scan_line, h) refl

scan_first :
    (a b : Bytes) (k : Hunk) (rest : List Bytes)
    → line_kind a ≡ file_header
    → line_kind b ≡ file_header
    → OldRange k.range k.start k.len
    → scan first_parser (a ∷ b ∷ header k ∷ rest)
      ≡ scan (in_hunk [] (negsuc 0) []) (header k ∷ rest)
unfolding open_hunk in_hunk
scan_first a b k rest h h' p =
    scan_next first_parser first_parser a (b ∷ header k ∷ rest) (scan_file_header first_parser a h)
    ∙ scan_next first_parser first_parser b (header k ∷ rest) (scan_file_header first_parser b h')
    ∙ scan_next first_parser (in_hunk [] (sub_ℕ k.start 2) []) (header k) rest
        (header_read first_parser k p)
    ∙ sym (scan-header [] (negsuc 0) [] k rest p)

old_file_kind : (a : Bytes) → line_kind (codes "--- " ++ a) ≡ file_header
unfolding line_kind has_prefix cut_prefix
old_file_kind a = refl

new_file_kind : (b : Bytes) → line_kind (codes "+++ " ++ b) ≡ file_header
unfolding line_kind has_prefix cut_prefix
new_file_kind b = refl

-- Of a unified diff, its headers with their ranges in decimal, whose edits only keep and add lines, in which no added line begins with "++" and each
-- hunk but the last ends with context, the parser returns exactly the added lines, each with the line of
-- the base it stands behind.
pub scan-print :
    (t : Bool) (a b : Bytes) (k : Hunk) (ks : List Hunk)
    → Printed (k ∷ ks)
    → hunks_added t (k ∷ ks) ≢ []
    → (r : List AddHunk) × (scan first_parser
          ((codes "--- " ++ a) ∷ (codes "+++ " ++ b) ∷ print_hunks (k ∷ ks))
        ≡ pure r)
      × (collect_added t r ≡ hunks_added t (k ∷ ks))
unfolding Printed print_hunks
scan-print t a b k ks p n =
    let f = scan-Finished t [] (negsuc 0) [] (k ∷ ks) p (inr refl) in
    let e : found t f.hunks' f.line' f.lines' ≡ hunks_added t (k ∷ ks) =
      f.finds ∙ found_start t (negsuc 0) (hunks_added t (k ∷ ks)) in
    let r = finish-found t f.hunks' f.line' f.lines' (λ q. n (sym e ∙ q)) in
    (
      r.0,
      scan_first (codes "--- " ++ a) (codes "+++ " ++ b) k (print_edits k.edits ++ print_hunks ks)
            (old_file_kind a) (new_file_kind b) p.0
          ∙ f.scans
          ∙ r.1,
      r.2 ∙ e,
    )
