-- ===== src/Automerger/Combined.antt =====
-- Merge (merge.go) against a three-way merge of trees, path by path.
use jamsesh.Prelude.{
  [], arith, false, List, none, Option, pos, some, sym, true, ℕ, ℤ, ◌∙◌, ◌≡◌, ◌≢◌,
}
use jamsesh.Automerger.Additions.{eq_ℤ}
use jamsesh.Automerger.Merge.{
  blob_content, Conflict, ConflictedFile, entry_hash, MergeState, SideChange, TreeEntry,
}
use jamsesh.Automerger.Outcome.{
  both_deleted, conflict_in, delete_modify, different_edits, file_in, Outcome, ours_only, same_edit,
  taken_entry, theirs_only, ThreeWay, untouched,
}
use jamsesh.Automerger.Refined.{merge_diffs-Merged}
use jamsesh.Automerger.Repo.{Repo, RepoLaws, Tools}
use jamsesh.Automerger.Run.{clean_merge, merge_diff_of, merge_diffs}
use jamsesh.Automerger.Tree.{build_tree}
use jamsesh.Automerger.Verdict.{Writable}
use jamsesh.Go.Maps.{get, Map}
use jamsesh.Go.Strings.{Bytes}

-- What a diff has at a path, from the entry of the base and the entry of the side. A diff that reports a
-- rename has nothing at the old path, and is not of this form.
pub data DiffAt (b o : Option TreeEntry) : Option SideChange → Type 0 where
  unchanged : o ≡ b → DiffAt b o none
  removed : (c : SideChange) → c.deleted ≡ true → o ≡ none → DiffAt b o (some c)
  written :
      (c : SideChange)
      → c.deleted ≡ false
      → o ≡ some (record { hash = c.to_hash; mode = c.mode })
      → DiffAt b o (some c)

module _ (r : Repo) (tools : Tools) where
  -- The merge tool has merged the three contents without a conflict, and the entry is its result, with
  -- the mode of ours.
  pub record TextMerge (s : r.State) (b : Option TreeEntry) (x y : TreeEntry) (m : Option TreeEntry)
      : Type 0 where
    pub base_content : Bytes
    pub ours_content : Bytes
    pub theirs_content : Bytes
    pub base_read : blob_content r tools s (entry_hash r tools b) ≡ some base_content
    pub ours_read : blob_content r tools s x.hash ≡ some ours_content
    pub theirs_read : blob_content r tools s y.hash ≡ some theirs_content
    pub merged : Bytes
    pub conflicts : ℤ
    pub tool : tools.merge_file base_content ours_content theirs_content ≡ some (merged, conflicts)
    pub no_conflict : eq_ℤ conflicts (pos 0) ≡ true
    pub new_hash : ℕ
    pub stored : r.read_blob s new_hash ≡ some merged
    pub entry : m ≡ some (record { hash = new_hash; mode = x.mode })

  -- The three-way merge of a path: the entries of the base, of ours and of theirs, and the merged one. A
  -- path that only one side changed is as that side has it; both sides may have deleted it or written the
  -- same content, of which the mode is that of ours; otherwise the contents are merged.
  pub data Combined (s : r.State) (b o t m : Option TreeEntry) : Type 0 where
    as_theirs : o ≡ b → m ≡ t → Combined s b o t m
    as_ours : t ≡ b → m ≡ o → Combined s b o t m
    both_gone : o ≡ none → t ≡ none → m ≡ none → Combined s b o t m
    same_content :
        (x y : TreeEntry)
        → o ≡ some x
        → t ≡ some y
        → x.hash ≡ y.hash
        → m ≡ some x
        → Combined s b o t m
    text :
        (x y : TreeEntry)
        → o ≡ some x
        → t ≡ some y
        → x.hash ≢ y.hash
        → TextMerge s b x y m
        → Combined s b o t m

  taken : (b o : Option TreeEntry) (c : SideChange) → DiffAt b o (some c) → taken_entry c ≡ o
  unfolding taken_entry
  taken b o c (removed c' h e) = rw (taken_entry, h) (sym e)
  taken b o c (written c' h e) = rw (taken_entry, h) (sym e)

  gone :
      (b o : Option TreeEntry) (c : SideChange) → DiffAt b o (some c) → c.deleted ≡ true → o ≡ none
  gone b o c (removed c' h e) k = e
  gone b o c (written c' h e) k = absurd (ground (arith, h, k))

  kept :
      (b o : Option TreeEntry) (c : SideChange)
      → DiffAt b o (some c)
      → c.deleted ≡ false
      → o ≡ some (record { hash = c.to_hash; mode = c.mode })
  kept b o c (removed c' h e) k = absurd (ground (arith, h, k))
  kept b o c (written c' h e) k = e

  same : (b o : Option TreeEntry) → DiffAt b o none → o ≡ b
  same b o (unchanged e) = e

  no_conflict_in : (p : Bytes) (cs : List Conflict) → cs ≡ [] → conflict_in p cs ≡ false
  unfolding conflict_in
  no_conflict_in p cs e = rw e

  no_file_in : (p b o t : Bytes) (fs : List ConflictedFile) → fs ≡ [] → file_in p b o t fs ≡ false
  unfolding file_in
  no_file_in p b o t fs e = rw e

  text_merged :
      (s : r.State) (st : MergeState) (p : Bytes) (b : Option TreeEntry) (u v : SideChange)
      → st.conflicted_files ≡ []
      → ThreeWay r tools b s st p u v
      → TextMerge s b
          (record { hash = u.to_hash; mode = u.mode })
          (record { hash = v.to_hash; mode = v.mode })
          (get st.merged_entries p)
  text_merged s st p b u v n w = record {
    base_content = w.base_content;
    ours_content = w.ours_content;
    theirs_content = w.theirs_content;
    base_read = w.base_read;
    ours_read = w.ours_read;
    theirs_read = w.theirs_read;
    merged = w.merged;
    conflicts = w.conflicts;
    tool = w.tool;
    no_conflict = ground (
      arith,
      w.recorded,
      no_file_in p w.base_content w.ours_content w.theirs_content st.conflicted_files n,
    );
    new_hash = w.new_hash;
    stored = w.stored;
    entry = w.entry;
  }

  Outcome-Combined :
      (s : r.State) (st : MergeState) (p : Bytes) (b o t : Option TreeEntry)
      (cu cv : Option SideChange)
      → DiffAt b o cu
      → DiffAt b t cv
      → st.conflicted_files ≡ []
      → st.hard_conflicts ≡ []
      → Outcome r tools b s st p cu cv
      → Combined s b o t (get st.merged_entries p)
  Outcome-Combined s st p b o t _ _ d d' n n' (untouched e) =
      as_theirs (same b o d) (e ∙ sym (same b t d'))
  Outcome-Combined s st p b o t _ _ d d' n n' (theirs_only v e) =
      as_theirs (same b o d) (e ∙ taken b t v d')
  Outcome-Combined s st p b o t _ _ d d' n n' (ours_only u e) =
      as_ours (same b t d') (e ∙ taken b o u d)
  Outcome-Combined s st p b o t _ _ d d' n n' (both_deleted u v h h' e) =
      both_gone (gone b o u d h) (gone b t v d' h') e
  Outcome-Combined s st p b o t _ _ d d' n n' (delete_modify u v h c) =
      absurd (ground (arith, c, no_conflict_in p st.hard_conflicts n'))
  Outcome-Combined s st p b o t _ _ d d' n n' (same_edit u v h h' q e) =
      same_content (record { hash = u.to_hash; mode = u.mode })
        (record { hash = v.to_hash; mode = v.mode }) (kept b o u d h) (kept b t v d' h') q e
  Outcome-Combined s st p b o t _ _ d d' n n' (different_edits u v h h' q w) =
      text (record { hash = u.to_hash; mode = u.mode }) (record { hash = v.to_hash; mode = v.mode })
        (kept b o u d h) (kept b t v d' h') q (text_merged s st p b u v n w)

  -- The entries that the tree of a clean merge is built of.
  pub record CleanTree (base : Map TreeEntry) (ours theirs : Bytes → Option TreeEntry) (t : ℕ)
      : Type 0 where
    pub store : r.State
    pub entries : Map TreeEntry
    pub combined : (p : Bytes) → Combined store (get base p) (ours p) (theirs p) (get entries p)
    pub built : (build_tree r store entries).0 ≡ some t

-- Let the two diffs be those of ours and of theirs against the base, with no renames. If the store takes
-- every blob and tree that it is given, sorted or not, and Merge answers clean-merge, then its tree is what
-- buildTree makes of the three-way merge of the entries at every path: a change of one side is taken, the
-- same content of both is taken with the mode of ours, and different contents are those the merge tool
-- merged without a conflict, again with the mode of ours; no path has been deleted by one side and
-- changed by the other.
pub merge_diffs-Combined :
    (r : Repo) (laws : RepoLaws r) (tools : Tools) (s : r.State) (base : Map TreeEntry)
    (ours theirs : Bytes → Option TreeEntry) (our_changes their_changes : Map SideChange) (t : ℕ)
    → ((p : Bytes) → DiffAt (get base p) (ours p) (get our_changes p))
    → ((p : Bytes) → DiffAt (get base p) (theirs p) (get their_changes p))
    → Writable r tools
    → (merge_diffs r tools s (merge_diff_of our_changes their_changes base)).0
      ≡ some (clean_merge t)
    → CleanTree r tools base ours theirs t
merge_diffs-Combined r laws tools s base ours theirs our_changes their_changes t d d' w e =
    let m = merge_diffs-Merged r laws tools s our_changes their_changes base t w e in
    record {
      store = m.store;
      entries = m.state.merged_entries;
      combined = λ p.
          Outcome-Combined r tools m.store m.state p (get base p) (ours p) (theirs p)
            (get our_changes p) (get their_changes p) (d p) (d' p) m.no_files m.no_conflicts
            (m.paths p);
      built = m.tree;
    }
