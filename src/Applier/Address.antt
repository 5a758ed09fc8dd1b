-- ===== src/Applier/Address.antt =====
-- addressing.go. The walk over the draft's history and the diffs of its commits are go-git's: parameters.
use jamsesh.Prelude.{
  ◌++◌, [], any, Bool, false, if◌then◌else◌, leb, List, none, not, Option, some, suc, true, ◌||◌, ℕ,
  ◌∷◌,
}
use jamsesh.Automerger.Merge.{Conflict}
use jamsesh.Go.Strings.{Bytes, codes, cut_prefix, same, split_n}

-- A commit of the walk: its changes against the first parent, each with its path. Nothing stands for what
-- cannot be read.
pub record LogCommit : Type 0 where
  pub author_email : Bytes
  pub changes : Option (List (Option Bytes))

-- The commits that the walk yields, and whether an error ends it.
pub record History : Type 0 where
  pub commits : List LogCommit
  pub fails : Bool

abbrev pub is_empty : List Bytes → Bool
is_empty [] = true
is_empty (k ∷ s) = false

unfoldable pub member : Bytes → List Bytes → Bool
unfolding any same
member k s = any (same k) s

-- `set[k] = true`
unfoldable pub add_key : Bytes → List Bytes → List Bytes
unfolding member
add_key k s = if member k s then s else s ++ k ∷ []

-- `delete(s, k)`
unfoldable pub remove_key : Bytes → List Bytes → List Bytes
remove_key k [] = []
remove_key k (j ∷ s) = let rest = remove_key k s in if same k j then rest else j ∷ rest

-- The parts of `jam/<session>/<user>/<branch>`.
unfoldable pub owner_parts : List Bytes → Option Bytes
unfolding same
owner_parts (p ∷ (s ∷ (user ∷ (branch ∷ [])))) =
    if same p (codes "jam") then some (codes "@" ++ (user ++ b'/' ∷ branch)) else none
owner_parts _ = none

abbrev pub trim_prefix : Bytes → Bytes → Bytes
trim_prefix s p = elim (cut_prefix s p) [ none ↦ s | some r ↦ r ]

-- parseSourceRefOwner; nothing stands for "".
unfoldable pub parse_source_ref_owner : Bytes → Option Bytes
unfolding owner_parts cut_prefix split_n
parse_source_ref_owner source_ref =
    owner_parts (split_n b'/' (trim_prefix source_ref (codes "refs/heads/")) 4)

unfoldable pub owner_set : Bytes → List Bytes
unfolding parse_source_ref_owner
owner_set source_ref = elim (parse_source_ref_owner source_ref) [ none ↦ [] | some o ↦ o ∷ [] ]

-- The keys of needFiles.
unfoldable pub need_files : List Conflict → List Bytes
unfolding add_key
need_files [] = []
need_files (c ∷ cs) = add_key c.file (need_files cs)

-- `needFiles` and `set`.
pub record Search : Type 0 where
  pub need : List Bytes
  pub found : List Bytes

-- The changes of one commit.
unfoldable pub mark_changes : Bytes → List (Option Bytes) → Search → Search
unfolding member add_key remove_key
mark_changes email [] s = s
mark_changes email (none ∷ chs) s = mark_changes email chs s
mark_changes email (some path ∷ chs) s = mark_changes email chs (
    if member path s.need
    then record { need = remove_key path s.need; found = add_key email s.found }
    else s)

unfoldable pub mark_commit : LogCommit → Search → Search
unfolding mark_changes
mark_commit c s = elim c.changes [ none ↦ s | some chs ↦ mark_changes c.author_email chs s ]

-- The walk from the commit number `count`, and whether it ended without an error.
unfoldable pub walk_log : ℕ → List LogCommit → Bool → Search → List Bytes × Bool
unfolding mark_commit
walk_log count [] fails s = (s.found, not fails)
walk_log count (c ∷ cs) fails s =
    let rest = walk_log (suc count) cs fails (mark_commit c s) in
    if leb 100 count || is_empty s.need then (s.found, true) else rest

-- computeAddressedTo, before the keys are sorted.
unfoldable pub compute_addressed_to :
    Option History → List Conflict → (source_ref : Bytes) → List Bytes × Bool
unfolding owner_set need_files walk_log
compute_addressed_to history [] source_ref = (owner_set source_ref, true)
compute_addressed_to none (c ∷ cs) source_ref = (owner_set source_ref, false)
compute_addressed_to (some h) (c ∷ cs) source_ref =
    walk_log 0 h.commits h.fails
      (record { need = need_files (c ∷ cs); found = owner_set source_ref })
