-- ===== src/Automerger/Resolved.antt =====
-- The additions heuristic as a whole (heuristics.go, isNonOverlappingAddition on the output of `diff -u`).
use jamsesh.Prelude.{◌++◌, [], Bool, false, length, List, Option, some, ◌∷◌, ◌≡◌, ◌≢◌}
use jamsesh.Automerger.Additions.{Added}
use jamsesh.Automerger.Diff.{DiffRun, exited, scanned}
use jamsesh.Automerger.Heuristics.{normalise_lf, split_lines}
use jamsesh.Automerger.Script.{Hunk, hunks_added, print_hunks, Printed}
use jamsesh.Automerger.Union.{Fits}
use jamsesh.Go.Strings.{codes, Bytes, same}

-- What `diff -u` says of a side that only adds lines: two file headers and the hunks, within the base.
pub record Adds (diff : Bytes → Bytes → Option DiffRun) (base other : Bytes) (added : List Added)
    (t : Bool) : Type 0 where
  pub changed : same base other ≡ false
  pub out : Bytes
  pub runs : diff base other ≡ some (exited 1 out)
  pub old_file : Bytes
  pub new_file : Bytes
  pub hunk : Hunk
  pub more : List Hunk
  pub reads :
      scanned (split_lines out)
      ≡ (codes "--- " ++ old_file) ∷ (codes "+++ " ++ new_file) ∷ print_hunks (hunk ∷ more)
  pub printed : Printed (hunk ∷ more)
  pub adds : hunks_added t (hunk ∷ more) ≡ added
  pub nonempty : added ≢ []
  pub fits : Fits (length (split_lines (normalise_lf base))) added
