-- ===== src/Automerger/Examples.antt =====
-- Tests and witnesses of the auto-merger.
use jamsesh.Prelude.{
  inr, inl, Bool-cases, ◌+◌, ◌++◌, ◌+ℤ◌, ◌-◌, ◌==◌, [], any, arith, false, get_elem?, if◌then◌else◌,
  length, List, negsuc, none, Option, pos, refl, some, suc, true, ℕ, ℤ, ◌∷◌, ◌≡◌, ◌≢◌,
}
use jamsesh.Automerger.Additions.{Added, collect_added}
use jamsesh.Automerger.Answers.{settle_safe}
use jamsesh.Automerger.Conflicts.{
  drop_empty_last, parse_conflict_ranges, parse_conflict_ranges-Ranges, Ranges,
}
use jamsesh.Automerger.Diff.{AddHunk, DiffRun, exited, line_kind, parse_hunk_header, pure, scan}
use jamsesh.Automerger.Heuristics.{additions, drop_newline}
use jamsesh.Automerger.Merge.{MergeState, SideChange, TreeEntry}
use jamsesh.Automerger.Parsed.{first_parser, scan-print}
use jamsesh.Automerger.Combined.{CleanTree, DiffAt, merge_diffs-Combined, unchanged, written}
use jamsesh.Automerger.Repo.{Repo, RepoLaws, Tools}
use jamsesh.Automerger.Run.{clean_merge, merge_diff_of, merge_diffs, settle, union_paths}
use jamsesh.Automerger.Range.{digit, OldRange, one_line}
use jamsesh.Automerger.Script.{add, Edit, Hunk, hunks_added, keep, print_hunks, Printed}
use jamsesh.Automerger.Verdict.{all_safe, Writable}
use jamsesh.Go.Maps.{get, Map}
use jamsesh.Go.Strings.{Bytes, codes, crlf_to_lf, same, split}
use Prim.Native.Nat.{zero}

-- A store that never fails: the blobs in order, from hash 1.
abbrev blobs : Repo
blobs = record {
  State = List Bytes;
  read_blob = λ s h. if h == 0 then none else get_elem? s (h - 1);
  write_blob = λ s b. (some (suc (length s)), s ++ b ∷ []);
  write_tree = λ s cs. (some (elim cs [ [] ↦ 100 | c ∷ rest ↦ 100 + c.hash ]), s);
}

elem-append_last : (s : List Bytes) (b : Bytes) → get_elem? (s ++ b ∷ []) (length s) ≡ some b
elem-append_last [] b = refl
elem-append_last (x ∷ s) b = elem-append_last s b

elem-append_kept :
    (s t : List Bytes) (i : ℕ) (c : Bytes) → get_elem? s i ≡ some c → get_elem? (s ++ t) i ≡ some c
elem-append_kept [] t i c h = absurd (ground (arith, h))
elem-append_kept (x ∷ s) t zero c h = h
elem-append_kept (x ∷ s) t (suc i) c h = elem-append_kept s t i c h

blobs-RepoLaws : RepoLaws blobs
blobs-RepoLaws = record {
  written = λ s b h e. ground (arith, e, elem-append_last s b);
  kept = λ s b h c e. ground (arith, e, elem-append_kept s (b ∷ []) (h - 1) c);
}

-- The base has one line; ours adds one behind it, theirs one before it.
abbrev base_text : Bytes
base_text = codes "a" ++ 10 ∷ []

abbrev ours_text : Bytes
ours_text = codes "a" ++ 10 ∷ codes "b" ++ 10 ∷ []

abbrev theirs_text : Bytes
theirs_text = codes "z" ++ 10 ∷ codes "a" ++ 10 ∷ []

abbrev ours_out : Bytes
ours_out =
    codes "--- base"
    ++ 10 ∷ codes "+++ other"
    ++ 10 ∷ codes "@@ -1 +1,2 @@"
    ++ 10 ∷ codes " a"
    ++ 10 ∷ codes "+b"
    ++ 10 ∷ []

abbrev theirs_out : Bytes
theirs_out =
    codes "--- base"
    ++ 10 ∷ codes "+++ other"
    ++ 10 ∷ codes "@@ -1 +1,2 @@"
    ++ 10 ∷ codes "+z"
    ++ 10 ∷ codes " a"
    ++ 10 ∷ []

unfoldable diff_texts : Bytes → Bytes → Option DiffRun
diff_texts base other = some (exited 1 (if same other ours_text then ours_out else theirs_out))

abbrev hunk_of : List Edit → Hunk
hunk_of es = record { range = codes "1"; tail = codes "1,2 @@"; start = 1; len = 1; edits = es }

first_range : OldRange (codes "1") 1 1
first_range = one_line (codes "1") 1 (digit 1 (omega arith))

abbrev ours_added : List Added
ours_added = record { after_line = pos 0; content = codes "b"; theirs = false } ∷ []

abbrev theirs_added : List Added
theirs_added = record { after_line = negsuc 0; content = codes "z"; theirs = true } ∷ []

abbrev crlf_text : Bytes
crlf_text = codes "a " ++ 13 ∷ 10 ∷ []

abbrev marked : Bytes
marked =
    codes "<<<<<<< ours"
    ++ 10 ∷ codes "x"
    ++ 10 ∷ codes ">>>>>>> theirs"
    ++ 10 ∷ codes "y"
    ++ 10 ∷ []

parse_conflict_ranges-Ranges_example : Ranges 1 4 (record { start = 1; stop = 3 } ∷ [])
unfolding drop_empty_last parse_conflict_ranges
parse_conflict_ranges-Ranges_example = parse_conflict_ranges-Ranges marked

scan-print_example :
    (r : List AddHunk) × (scan first_parser (
        codes "--- base" ∷ codes "+++ other" ∷ codes "@@ -1 +1,2 @@" ∷ codes " a" ∷ codes "+b" ∷ [])
      ≡ pure r)
    × (collect_added false r ≡ ours_added)
unfolding line_kind Printed parse_hunk_header hunks_added ◌+ℤ◌ print_hunks
scan-print_example =
    scan-print false (codes "base") (codes "other")
      (hunk_of (keep (codes "a") ∷ add (codes "b") ∷ [])) [] (first_range, (refl, tt), refl, tt)
      (λ e. cc)

-- A store with the three texts as blobs 1, 2 and 3, and a tool that reports a conflict.
abbrev texts : List Bytes
texts = base_text ∷ ours_text ∷ theirs_text ∷ []

abbrev tools_with : Bytes → ℤ → Tools
tools_with merged n = record { merge_file = λ b o t. some (merged, n); diff = diff_texts }

abbrev edit_of : ℕ → Map SideChange
edit_of h =
    (
      codes "f",
      record {
        from_hash = 1;
        to_hash = h;
        from_path = codes "f";
        to_path = codes "f";
        mode = 33188;
        deleted = false;
        added = false;
      },
    )
    ∷ []

abbrev base_entries : Map TreeEntry
base_entries = (codes "f", record { hash = 1; mode = 33188 }) ∷ []

blobs-Writable : (tools : Tools) → Writable blobs tools
blobs-Writable tools = record { blobs = λ s b e. cc; trees = λ s cs e. cc }

-- A tree with one file, and its diff against the base.
abbrev tree_of : ℕ → Bytes → Option TreeEntry
tree_of h p = get ((codes "f", record { hash = h; mode = 33188 }) ∷ []) p

edit_of-DiffAt : (h : ℕ) (p : Bytes) → DiffAt (get base_entries p) (tree_of h p) (get (edit_of h) p)
unfolding get
edit_of-DiffAt h p = elim (Bool-cases (same (codes "f") p)) [
  | inl e ↦ rw e (written _ refl refl)
  | inr e ↦ rw e (unchanged refl)
]

merge_diffs-Combined_example :
    CleanTree blobs (tools_with base_text (pos 0)) base_entries (tree_of 2) (tree_of 3) 104
unfolding merge_diffs union_paths same
merge_diffs-Combined_example =
    merge_diffs-Combined blobs blobs-RepoLaws (tools_with base_text (pos 0)) texts base_entries
      (tree_of 2) (tree_of 3) (edit_of 2) (edit_of 3) 104 (edit_of-DiffAt 2) (edit_of-DiffAt 3)
      (blobs-Writable (tools_with base_text (pos 0))) refl

-- A state with one conflicted file.
abbrev conflicted : MergeState
conflicted = record {
  merged_entries = base_entries;
  hard_conflicts = [];
  conflicted_files =
      record {
        path = codes "f";
        base = base_text;
        ours = ours_text;
        theirs = theirs_text;
        mode = 33188;
        ranges = [];
      }
      ∷ [];
}

settle_safe_example :
    (conflicted.conflicted_files ≢ [])
    × (conflicted.hard_conflicts ≡ [])
    × (all_safe blobs (tools_with marked (pos 1)) conflicted.conflicted_files ≡ true)
unfolding settle any same crlf_to_lf split drop_newline diff_texts
settle_safe_example =
    settle_safe blobs (tools_with marked (pos 1)) texts conflicted 104 additions refl

-- A store whose fifth write fails once.
abbrev flaky : Repo
flaky = record {
  State = List Bytes;
  read_blob = λ s h. if h == 0 then none else get_elem? s (h - 1);
  write_blob =
      λ s b. if length s == 4 then (none, s ++ [] ∷ []) else (some (suc (length s)), s ++ b ∷ []);
  write_tree = λ s cs. (some (elim cs [ [] ↦ 100 | c ∷ rest ↦ 100 + c.hash ]), s);
}

-- The write of the resolved blob fails, and Merge answers clean-merge with the tree 104, whose file is the
-- blob 4: the text with the conflict markers.
swallowed_error :
    merge_diffs flaky
      (tools_with marked (pos 1))
      texts
      (merge_diff_of (edit_of 2) (edit_of 3) base_entries)
    ≡ (some (clean_merge 104), texts ++ marked ∷ [] ∷ [])
unfolding merge_diffs union_paths same any crlf_to_lf drop_newline diff_texts
swallowed_error = refl
