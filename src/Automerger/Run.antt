-- ===== src/Automerger/Run.antt =====
-- merge.go: Merge, tryShortCircuit, computeMergeDiff and resolveConflicts.
use jamsesh.Prelude.{
  ◌++◌, ◌==◌, [], Bool, false, if◌then◌else◌, List, ltb, none, Option, some, true, ℕ, ◌∷◌,
}
use jamsesh.Automerger.Additions.{try_auto_resolve}
use jamsesh.Automerger.Heuristics.{Heuristic, heuristic_priority, no_heuristic}
use jamsesh.Automerger.Merge.{
  apply_paths, build_side_changes, Change, Conflict, ConflictedFile, MergeState, SideChange,
  TreeEntry,
}
use jamsesh.Automerger.Repo.{Repo, Tools}
use jamsesh.Automerger.Tree.{add_dirs, build_tree, flatten_tree, keys, Nodes}
use jamsesh.Go.Maps.{Map, put}
use jamsesh.Go.Strings.{Bytes}

-- An error ends the function.
infixl 10 ◌>>=◌
abbrev ◌>>=◌ : {A B : Type 0} → Option A → (A → Option B) → Option B
none >>= f = none
some a >>= f = f a

pub data MergeResult : Type 0 where
  clean_merge : ℕ → MergeResult
  safe_auto_resolve : ℕ → Heuristic → MergeResult
  hard_conflict : List Conflict → MergeResult

-- A commit: its hash, and its tree, which may not be readable.
pub record Commit : Type 0 where
  pub hash : ℕ
  pub tree : Option ℕ

abbrev pub tree_result : Option ℕ → Option MergeResult
tree_result none = none
tree_result (some t) = some (clean_merge t)

-- Nothing if no short cut applies; `some none` is an error.
unfoldable pub try_short_circuit :
    (source draft_tip ancestor : Commit) → Option (Option MergeResult)
try_short_circuit source draft_tip ancestor =
    if source.hash == ancestor.hash
    then some (tree_result draft_tip.tree)
    else if draft_tip.hash == ancestor.hash
    then some (tree_result source.tree)
    else none

pub record MergeDiff : Type 0 where
  pub our_changes : Map SideChange
  pub their_changes : Map SideChange
  pub path_set : List Bytes
  pub merged_entries : Map TreeEntry

-- The union of the changed paths.
unfoldable pub union_paths : (ours theirs : Map SideChange) → List Bytes
unfolding keys add_dirs
union_paths ours theirs = keys (add_dirs (add_dirs [] (keys ours)) (keys theirs))

-- The literal at the end of computeMergeDiff.
abbrev pub merge_diff_of : (ours theirs : Map SideChange) → Map TreeEntry → MergeDiff
merge_diff_of ours theirs entries = record {
  our_changes = ours;
  their_changes = theirs;
  path_set = union_paths ours theirs;
  merged_entries = entries;
}

-- The trees and diffs are go-git's; the base tree is flattened.
unfoldable pub compute_merge_diff :
    (base : Option Nodes) (base_to_ours base_to_theirs : Option (List Change)) → Option MergeDiff
unfolding build_side_changes flatten_tree
compute_merge_diff base base_to_ours base_to_theirs = do
  root ← base
  ours_diff ← base_to_ours
  theirs_diff ← base_to_theirs
  ours ← build_side_changes ours_diff
  theirs ← build_side_changes theirs_diff
  entries ← flatten_tree root
  some (merge_diff_of ours theirs entries)

-- How resolveConflicts ends: a result, some file unresolved, or an error of the store.
pub data Resolution : Type 0 where
  resolved : MergeResult → Resolution
  unresolved broken : Resolution

-- The loop of resolveConflicts: the worst heuristic so far, and whether all are resolved.
pub record Progress : Type 0 where
  pub worst : Option Heuristic
  pub all_resolved : Bool

-- `-1` below every priority.
unfoldable pub worse : Option Heuristic → Heuristic → Option Heuristic
unfolding heuristic_priority
worse none h = some h
worse (some w) h = if ltb (heuristic_priority w) (heuristic_priority h) then some h else some w

unfoldable pub name_of : Option Heuristic → Heuristic
name_of none = no_heuristic
name_of (some h) = h

module _ (r : Repo) (tools : Tools) where
  -- Nothing in place of the progress is an error.
  unfoldable pub resolve_files :
      List ConflictedFile → Progress → r.State → MergeState → Option Progress × MergeState × r.State
  unfolding try_auto_resolve put worse
  resolve_files [] p s st = (some p, st, s)
  resolve_files (cf ∷ cfs) p s st = elim (try_auto_resolve tools.diff cf.base cf.ours cf.theirs) [
    | none ↦
        resolve_files cfs (record p { all_resolved = false }) s
          (record st {
            hard_conflicts =
                st.hard_conflicts ++ record { file = cf.path; ranges = cf.ranges } ∷ [];
          })
    | some (content, h) ↦
        (let (new, s') = r.write_blob s content in
          elim new [
            | none ↦ (none, st, s')
            | some hash ↦
                resolve_files cfs (record p { worst = worse p.worst h }) s'
                  (record st {
                    merged_entries =
                        put st.merged_entries cf.path (record { hash = hash; mode = cf.mode });
                  })
          ])
  ]

  unfoldable pub resolve_conflicts : r.State → MergeState → Resolution × MergeState × r.State
  unfolding resolve_files build_tree name_of
  resolve_conflicts s st =
      let (p, st', s') =
        resolve_files st.conflicted_files (record { worst = none; all_resolved = true }) s st in
      elim p [
        | none ↦ (broken, st', s')
        | some q ↦ (elim q.all_resolved [
          | false ↦ (unresolved, st', s')
          | true ↦
              (let (t, s'') = build_tree r s' st'.merged_entries in
                (
                  elim t [
                    | none ↦ broken
                    | some tree ↦ resolved (safe_auto_resolve tree (name_of q.worst))
                  ],
                  st',
                  s'',
                ))
        ])
      ]

  unfoldable pub conflicts_of : List ConflictedFile → List Conflict
  conflicts_of [] = []
  conflicts_of (cf ∷ cfs) = record { file = cf.path; ranges = cf.ranges } ∷ conflicts_of cfs

  -- The end of Merge: the hard conflicts, or the tree.
  unfoldable pub conclude : r.State → MergeState → Option MergeResult × r.State
  unfolding build_tree
  conclude s st = elim st.hard_conflicts [
    | [] ↦ (let (t, s') = build_tree r s st.merged_entries in (tree_result t, s'))
    | c ∷ cs ↦ (some (hard_conflict (c ∷ cs)), s)
  ]

  -- Merge behind applyChangesPerPath: `if result, resolved, err := …; resolved`.
  unfoldable pub settle : r.State → MergeState → Option MergeResult × r.State
  unfolding resolve_conflicts conflicts_of conclude
  settle s st = elim st.conflicted_files [
    | [] ↦ conclude s st
    | cf ∷ cfs ↦ (elim st.hard_conflicts [
      | c ∷ cs ↦ conclude s (record st { hard_conflicts = (c ∷ cs) ++ conflicts_of (cf ∷ cfs) })
      | [] ↦
          (let (res, st', s') = resolve_conflicts s st in
            elim res [
              | resolved result ↦ (some result, s')
              | unresolved ↦ conclude s' st'
              | broken ↦ conclude s' st'
            ])
    ])
  ]

  unfoldable pub merge_diffs : r.State → MergeDiff → Option MergeResult × r.State
  unfolding apply_paths settle
  merge_diffs s d =
      let (st, s') = apply_paths r tools d.our_changes d.their_changes d.path_set s (record {
        merged_entries = d.merged_entries;
        hard_conflicts = [];
        conflicted_files = [];
      }) in
      elim st [ none ↦ (none, s') | some st' ↦ settle s' st' ]

  unfoldable pub merge :
      r.State
      → (source draft_tip ancestor : Commit) (base : Option Nodes)
        (base_to_ours base_to_theirs : Option (List Change))
      → Option MergeResult × r.State
  unfolding try_short_circuit compute_merge_diff merge_diffs
  merge s source draft_tip ancestor base base_to_ours base_to_theirs =
      elim (try_short_circuit source draft_tip ancestor) [
        | some result ↦ (result, s)
        | none ↦ (elim (compute_merge_diff base base_to_ours base_to_theirs) [
          | none ↦ (none, s)
          | some d ↦ merge_diffs s d
        ])
      ]
