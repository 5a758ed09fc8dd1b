-- ===== src/Automerger/Merge.antt =====
-- merge.go: the changes of the sides, applyChangesPerPath, mergeBothModifiedPath and runThreeWayMerge.
use jamsesh.Prelude.{
  ◌&&◌, ◌++◌, ◌==◌, [], Bool, false, if◌then◌else◌, List, none, Option, pos, some, true, ◌||◌, ℕ, ℤ,
  ◌∷◌,
}
use jamsesh.Automerger.Additions.{eq_ℤ}
use jamsesh.Automerger.Conflicts.{LineRange, parse_conflict_ranges}
use jamsesh.Automerger.Repo.{Repo, Tools}
use jamsesh.Go.Maps.{delete, get, Map, put}
use jamsesh.Go.Strings.{Bytes}

pub record SideChange : Type 0 where
  pub from_hash : ℕ
  pub to_hash : ℕ
  pub from_path : Bytes
  pub to_path : Bytes
  pub mode : ℕ
  pub deleted : Bool
  pub added : Bool

pub record TreeEntry : Type 0 where
  pub hash : ℕ
  pub mode : ℕ

pub record Conflict : Type 0 where
  pub file : Bytes
  pub ranges : List LineRange

pub record ConflictedFile : Type 0 where
  pub path : Bytes
  pub base : Bytes
  pub ours : Bytes
  pub theirs : Bytes
  pub mode : ℕ
  pub ranges : List LineRange

pub record MergeState : Type 0 where
  pub merged_entries : Map TreeEntry
  pub hard_conflicts : List Conflict
  pub conflicted_files : List ConflictedFile

-- A file of a change of go-git's diff, as `Files` gives it; nothing if it fails.
pub record File : Type 0 where
  pub name : Bytes
  pub hash : ℕ
  pub mode : ℕ

abbrev pub Change : Type 0
Change = Option (Option File × Option File)

unfoldable pub effective_path : SideChange → Bytes
effective_path sc = elim sc.to_path [ [] ↦ sc.from_path | c ∷ p ↦ c ∷ p ]

unfoldable pub side_change : (old new : Option File) → SideChange
side_change none none = record {
  from_hash = 0;
  to_hash = 0;
  from_path = [];
  to_path = [];
  mode = 0;
  deleted = true;
  added = true;
}
side_change (some f) none = record {
  from_hash = f.hash;
  to_hash = 0;
  from_path = f.name;
  to_path = [];
  mode = f.mode;
  deleted = true;
  added = false;
}
side_change none (some f) = record {
  from_hash = 0;
  to_hash = f.hash;
  from_path = [];
  to_path = f.name;
  mode = f.mode;
  deleted = false;
  added = true;
}
side_change (some f) (some g) = record {
  from_hash = f.hash;
  to_hash = g.hash;
  from_path = f.name;
  to_path = g.name;
  mode = g.mode;
  deleted = false;
  added = false;
}

unfoldable pub build_side_changes_from : Map SideChange → List Change → Option (Map SideChange)
unfolding side_change effective_path put
build_side_changes_from out [] = some out
build_side_changes_from out (none ∷ cs) = none
build_side_changes_from out (some (old, new) ∷ cs) =
    let sc = side_change old new in build_side_changes_from (put out (effective_path sc) sc) cs

unfoldable pub build_side_changes : List Change → Option (Map SideChange)
unfolding build_side_changes_from
build_side_changes cs = build_side_changes_from [] cs

-- The entry that a change leaves.
unfoldable pub accept : Map TreeEntry → Bytes → SideChange → Map TreeEntry
unfolding put delete
accept m path c =
    if c.deleted then delete m path else put m path (record { hash = c.to_hash; mode = c.mode })

module _ (r : Repo) (tools : Tools) where
  unfoldable pub blob_content : r.State → ℕ → Option Bytes
  blob_content s h = if h == 0 then some [] else r.read_blob s h

  unfoldable pub entry_hash : Option TreeEntry → ℕ
  entry_hash none = 0
  entry_hash (some e) = e.hash

  -- interpretMergeFileExit: the code is the number of conflicts.
  unfoldable pub merge_file_content : (base ours theirs : Bytes) → Option (Bytes × ℤ)
  merge_file_content base ours theirs = tools.merge_file base ours theirs

  -- The end of runThreeWayMerge: the blob of the result, and its entry.
  unfoldable pub write_merged :
      r.State → MergeState → Bytes → ℕ → Bytes → Option MergeState × r.State
  unfolding put
  write_merged s st path mode merged =
      let (h, s') = r.write_blob s merged in
      (
        elim h [
          | none ↦ none
          | some new ↦ some (record st {
            merged_entries = put st.merged_entries path (record { hash = new; mode = mode });
          })
        ],
        s',
      )

  unfoldable pub record_conflict :
      MergeState → Bytes → ℕ → (base ours theirs merged : Bytes) → MergeState
  unfolding parse_conflict_ranges
  record_conflict st path mode base ours theirs merged = record st {
    conflicted_files =
        st.conflicted_files
        ++ record {
          path = path;
          base = base;
          ours = ours;
          theirs = theirs;
          mode = mode;
          ranges = parse_conflict_ranges merged;
        }
          ∷ [];
  }

  unfoldable pub merge_contents :
      r.State → MergeState → Bytes → ℕ → (base ours theirs : Bytes) → Option MergeState × r.State
  unfolding merge_file_content write_merged record_conflict
  merge_contents s st path mode base ours theirs = elim (merge_file_content base ours theirs) [
    | none ↦ (none, s)
    | some (merged, n) ↦
        if eq_ℤ n (pos 0)
        then write_merged s st path mode merged
        else write_merged s (record_conflict st path mode base ours theirs merged) path mode merged
  ]

  unfoldable pub run_three_way_merge :
      r.State → MergeState → Bytes → SideChange → SideChange → Option MergeState × r.State
  unfolding blob_content entry_hash get merge_contents
  run_three_way_merge s st path our their =
      elim (blob_content s (entry_hash (get st.merged_entries path))) [
        | none ↦ (none, s)
        | some base ↦ (elim (blob_content s our.to_hash) [
          | none ↦ (none, s)
          | some ours ↦ (elim (blob_content s their.to_hash) [
            | none ↦ (none, s)
            | some theirs ↦ merge_contents s st path our.mode base ours theirs
          ])
        ])
      ]

  unfoldable pub merge_both_modified_path :
      r.State → MergeState → Bytes → SideChange → SideChange → Option MergeState × r.State
  unfolding run_three_way_merge put delete
  merge_both_modified_path s st path our their =
      if our.deleted && their.deleted
      then (some (record st { merged_entries = delete st.merged_entries path }), s)
      else if our.deleted || their.deleted
      then (
        some (record st {
          hard_conflicts = st.hard_conflicts ++ record { file = path; ranges = [] } ∷ [];
        }),
        s,
      )
      else if our.to_hash == their.to_hash
      then (
        some (record st {
          merged_entries =
              put st.merged_entries path (record { hash = our.to_hash; mode = our.mode });
        }),
        s,
      )
      else run_three_way_merge s st path our their

  -- A turn of the loop of applyChangesPerPath.
  unfoldable pub apply_path :
      r.State → MergeState → Bytes → (our their : Option SideChange) → Option MergeState × r.State
  unfolding accept merge_both_modified_path
  apply_path s st path none none = (some st, s)
  apply_path s st path none (some t) =
      (some (record st { merged_entries = accept st.merged_entries path t }), s)
  apply_path s st path (some o) none =
      (some (record st { merged_entries = accept st.merged_entries path o }), s)
  apply_path s st path (some o) (some t) = merge_both_modified_path s st path o t

  -- The loop, in the order in which the range over the map gives the paths.
  unfoldable pub apply_paths :
      (ours theirs : Map SideChange)
      → List Bytes
      → r.State
      → MergeState
      → Option MergeState × r.State
  unfolding apply_path get
  apply_paths ours theirs [] s st = (some st, s)
  apply_paths ours theirs (p ∷ ps) s st =
      let (next_state, s') = apply_path s st p (get ours p) (get theirs p) in
      elim next_state [ none ↦ (none, s') | some st' ↦ apply_paths ours theirs ps s' st' ]
