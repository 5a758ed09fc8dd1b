-- ===== src/Automerger/Outcome.antt =====
-- What applyChangesPerPath (merge.go) does to a path.
use jamsesh.Prelude.{
  ◌&&◌, ◌==◌, [], arith, Bool, Bool-cases, false, if◌then◌else◌, inl, inr, List, none, Option, pos,
  some, true, ◌||◌, ℕ, ℤ, ◌∙◌, ◌∷◌, ◌≡◌, ◌≢◌,
}
use jamsesh.Automerger.Additions.{eq_ℤ}
use jamsesh.Automerger.Merge.{
  blob_content, Conflict, ConflictedFile, entry_hash, MergeState, SideChange, TreeEntry,
}
use jamsesh.Automerger.Repo.{Repo, Tools}
use jamsesh.Go.Maps.{get}
use jamsesh.Go.Strings.{Bytes, same}

unfoldable pub conflict_in : Bytes → List Conflict → Bool
conflict_in p [] = false
conflict_in p (c ∷ cs) = same c.file p || conflict_in p cs

-- The file stands among the conflicted files with these contents.
unfoldable pub file_in : (path base ours theirs : Bytes) → List ConflictedFile → Bool
file_in p b o t [] = false
file_in p b o t (f ∷ fs) =
    (same f.path p && same f.base b && same f.ours o && same f.theirs t) || file_in p b o t fs

unfoldable pub taken_entry : SideChange → Option TreeEntry
taken_entry c = if c.deleted then none else some (record { hash = c.to_hash; mode = c.mode })

module _ (r : Repo) (tools : Tools) (base : Option TreeEntry) where
  -- The contents of a path that both sides edited, and what the merge tool made of them.
  pub record ThreeWay (s : r.State) (st : MergeState) (p : Bytes) (o t : SideChange) : Type 0 where
    pub base_content : Bytes
    pub ours_content : Bytes
    pub theirs_content : Bytes
    pub base_read : blob_content r tools s (entry_hash r tools base) ≡ some base_content
    pub ours_read : blob_content r tools s o.to_hash ≡ some ours_content
    pub theirs_read : blob_content r tools s t.to_hash ≡ some theirs_content
    pub merged : Bytes
    pub conflicts : ℤ
    pub tool : tools.merge_file base_content ours_content theirs_content ≡ some (merged, conflicts)
    pub new_hash : ℕ
    pub entry : get st.merged_entries p ≡ some (record { hash = new_hash; mode = o.mode })
    pub stored : r.read_blob s new_hash ≡ some merged
    pub recorded :
        (eq_ℤ conflicts (pos 0)
          || file_in p base_content ours_content theirs_content st.conflicted_files)
        ≡ true

  -- The cases of the three-way merge of a path, from its entry in the base and the changes of the sides.
  pub data Outcome (s : r.State) (st : MergeState) (p : Bytes)
      : Option SideChange → Option SideChange → Type 0 where
    untouched : get st.merged_entries p ≡ base → Outcome s st p none none
    theirs_only :
        (t : SideChange) → get st.merged_entries p ≡ taken_entry t → Outcome s st p none (some t)
    ours_only :
        (o : SideChange) → get st.merged_entries p ≡ taken_entry o → Outcome s st p (some o) none
    both_deleted :
        (o t : SideChange)
        → o.deleted ≡ true
        → t.deleted ≡ true
        → get st.merged_entries p ≡ none
        → Outcome s st p (some o) (some t)
    delete_modify :
        (o t : SideChange)
        → o.deleted ≢ t.deleted
        → conflict_in p st.hard_conflicts ≡ true
        → Outcome s st p (some o) (some t)
    same_edit :
        (o t : SideChange)
        → o.deleted ≡ false
        → t.deleted ≡ false
        → o.to_hash ≡ t.to_hash
        → get st.merged_entries p ≡ some (record { hash = o.to_hash; mode = o.mode })
        → Outcome s st p (some o) (some t)
    different_edits :
        (o t : SideChange)
        → o.deleted ≡ false
        → t.deleted ≡ false
        → o.to_hash ≢ t.to_hash
        → ThreeWay s st p o t
        → Outcome s st p (some o) (some t)

  -- What later turns of the loop leave of a path.
  pub record Later (p : Bytes) (s : r.State) (st : MergeState) (s' : r.State) (st' : MergeState)
      : Type 0 where
    pub same_entry : get st'.merged_entries p ≡ get st.merged_entries p
    pub conflict_kept :
        conflict_in p st.hard_conflicts ≡ true → conflict_in p st'.hard_conflicts ≡ true
    pub file_kept :
        (b o t : Bytes)
        → file_in p b o t st.conflicted_files ≡ true
        → file_in p b o t st'.conflicted_files ≡ true
    pub blob_kept : (h : ℕ) (c : Bytes) → r.read_blob s h ≡ some c → r.read_blob s' h ≡ some c

  pub content_kept :
      (s s' : r.State) (h : ℕ) (c : Bytes)
      → ((h : ℕ) (c : Bytes) → r.read_blob s h ≡ some c → r.read_blob s' h ≡ some c)
      → blob_content r tools s h ≡ some c
      → blob_content r tools s' h ≡ some c
  unfolding blob_content
  content_kept s s' h c k e = elim (Bool-cases (h == 0)) [
    | inl q ↦ ground (arith, q, e)
    | inr q ↦ ground (arith, q, e, k h c)
  ]

  pub Outcome_later :
      (p : Bytes) (s : r.State) (st : MergeState) (s' : r.State) (st' : MergeState)
      → Later p s st s' st'
      → (o t : Option SideChange) → Outcome s st p o t
      → Outcome s' st' p o t
  Outcome_later p s st s' st' l o t (untouched e) = untouched (l.same_entry ∙ e)
  Outcome_later p s st s' st' l o t (theirs_only u e) = theirs_only u (l.same_entry ∙ e)
  Outcome_later p s st s' st' l o t (ours_only u e) = ours_only u (l.same_entry ∙ e)
  Outcome_later p s st s' st' l o t (both_deleted u v a b e) =
      both_deleted u v a b (l.same_entry ∙ e)
  Outcome_later p s st s' st' l o t (delete_modify u v a c) =
      delete_modify u v a (l.conflict_kept c)
  Outcome_later p s st s' st' l o t (same_edit u v a b h e) = same_edit u v a b h (l.same_entry ∙ e)
  Outcome_later p s st s' st' l o t (different_edits u v a b h w) =
      different_edits u v a b h (record {
        base_content = w.base_content;
        ours_content = w.ours_content;
        theirs_content = w.theirs_content;
        base_read =
            content_kept s s' (entry_hash r tools base) w.base_content l.blob_kept w.base_read;
        ours_read = content_kept s s' u.to_hash w.ours_content l.blob_kept w.ours_read;
        theirs_read = content_kept s s' v.to_hash w.theirs_content l.blob_kept w.theirs_read;
        merged = w.merged;
        conflicts = w.conflicts;
        tool = w.tool;
        new_hash = w.new_hash;
        entry = l.same_entry ∙ w.entry;
        stored = l.blob_kept w.new_hash w.merged w.stored;
        recorded =
            ground (arith, w.recorded, l.file_kept w.base_content w.ours_content w.theirs_content);
      })
