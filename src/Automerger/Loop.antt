-- ===== src/Automerger/Loop.antt =====
-- applyChangesPerPath (merge.go) against the specification of a three-way merge.
use jamsesh.Prelude.{
  ◌&&◌, ◌++◌, ◌==◌, [], ap, arith, Bool-cases, false, if◌then◌else◌, inl, inr, List, none, Option,
  Option-cases, refl, some, subst, sym, true, ◌||◌, ◌∙◌, ◌∷◌, ◌≡◌, ◌≢◌,
}
use jamsesh.Automerger.Merge.{
  blob_content, Conflict, entry_hash, merge_both_modified_path, merge_contents, MergeState,
  run_three_way_merge, SideChange, TreeEntry,
}
use jamsesh.Automerger.Outcome.{
  both_deleted, conflict_in, content_kept, delete_modify, different_edits, Outcome, same_edit,
}
use jamsesh.Automerger.Paths.{conflict_in-append, merge_contents-Contents, Others}
use jamsesh.Automerger.Repo.{Repo, RepoLaws, Tools}
use jamsesh.Go.Maps.{delete, get, get-delete, get-put, Map, put}
use jamsesh.Go.Strings.{Bytes, same, same_refl}

module _ (r : Repo) (laws : RepoLaws r) (tools : Tools) where
  -- A turn: its own path has its outcome, and the others keep theirs.
  pub record Turn (p : Bytes) (base : Option TreeEntry) (o t : Option SideChange) (s : r.State)
      (st : MergeState) (s' : r.State) (st' : MergeState) : Type 0 where
    pub outcome : Outcome r tools base s' st' p o t
    pub others : Others r laws tools p s st s' st'

  three_way-Turn :
      (p : Bytes) (base : Option TreeEntry) (o t : SideChange) (s : r.State) (st st' : MergeState)
      → o.deleted ≡ false
      → t.deleted ≡ false
      → o.to_hash ≢ t.to_hash
      → get st.merged_entries p ≡ base
      → (run_three_way_merge r tools s st p o t).0 ≡ some st'
      → Turn p base (some o) (some t) s st (run_three_way_merge r tools s st p o t).1 st'
  unfolding run_three_way_merge
  three_way-Turn p base o t s st st' od td ne g e =
      elim (Option-cases (blob_content r tools s (entry_hash r tools (get st.merged_entries p)))) [
        | inl q ↦ absurd (ground (arith, q, e))
        | inr (b, q) ↦ (elim (Option-cases (blob_content r tools s o.to_hash)) [
          | inl q' ↦ absurd (ground (arith, q, q', e))
          | inr (x, q') ↦ (elim (Option-cases (blob_content r tools s t.to_hash)) [
            | inl q'' ↦ absurd (ground (arith, q, q', q'', e))
            | inr (y, q'') ↦
                (let c =
                    merge_contents-Contents r laws tools s st p o.mode b x y st'
                      (ground (arith, q, q', q'', e)) in
                  rw (run_three_way_merge, q, q', q'')
                    (record {
                      outcome = different_edits o t od td ne (record {
                        base_content = b;
                        ours_content = x;
                        theirs_content = y;
                        base_read =
                            content_kept r tools base s
                              (merge_contents r tools s st p o.mode b x y).1
                              (entry_hash r tools base) b c.blobs
                              (subst (λ h. blob_content r tools s (entry_hash r tools h) ≡ some b) g
                                q);
                        ours_read =
                            content_kept r tools base s
                              (merge_contents r tools s st p o.mode b x y).1 o.to_hash x c.blobs q';
                        theirs_read =
                            content_kept r tools base s
                              (merge_contents r tools s st p o.mode b x y).1 t.to_hash y c.blobs
                              q'';
                        merged = c.merged;
                        conflicts = c.conflicts;
                        tool = c.tool;
                        new_hash = c.new_hash;
                        entry = c.entry;
                        stored = c.stored;
                        recorded = c.recorded;
                      });
                      others = c.others;
                    }))
          ])
        ])
      ]

  -- A turn that only sets or removes the entry of its path.
  pub entry-Others :
      (p : Bytes) (s : r.State) (st : MergeState) (m : Map TreeEntry) (e : Option TreeEntry)
      → ((q : Bytes) → get m q ≡ (if same p q then e else get st.merged_entries q))
      → Others r laws tools p s st s (record st { merged_entries = m })
  entry-Others p s st m e h base q n = record {
    same_entry = rw (h q, n);
    conflict_kept = λ k. k;
    file_kept = λ b o t k. k;
    blob_kept = λ b c k. k;
  }

  pub entry_here :
      (p : Bytes) (m : Map TreeEntry) (st : MergeState) (e : Option TreeEntry)
      → ((q : Bytes) → get m q ≡ (if same p q then e else get st.merged_entries q))
      → get m p ≡ e
  entry_here p m st e h = rw (h p, same_refl p)

  conflict_turn :
      (p : Bytes) (s : r.State) (st : MergeState)
      → Others r laws tools p s st s (record st {
        hard_conflicts = st.hard_conflicts ++ record { file = p; ranges = [] } ∷ [];
      })
  conflict_turn p s st base q n = record {
    same_entry = refl;
    conflict_kept = λ k.
        rw (conflict_in-append q st.hard_conflicts (record { file = p; ranges = [] } ∷ []))
          (ground (arith, k));
    file_kept = λ b o t k. k;
    blob_kept = λ b c k. k;
  }

  conflict_here :
      (p : Bytes) (cs : List Conflict)
      → conflict_in p (cs ++ record { file = p; ranges = [] } ∷ []) ≡ true
  unfolding conflict_in
  conflict_here p cs =
      rw (conflict_in-append p cs (record { file = p; ranges = [] } ∷ []))
        (ground (arith, same_refl p))

  -- A call whose result is known.
  known-Turn :
      (p : Bytes) (base : Option TreeEntry) (o t : Option SideChange) (s : r.State)
      (st st' st0 : MergeState) (res : Option MergeState × r.State)
      → res ≡ (some st0, s)
      → res.0 ≡ some st'
      → Turn p base o t s st s st0
      → Turn p base o t s st res.1 st'
  known-Turn p base o t s st st' st0 res h e v =
      let x : st0 ≡ st' = ground (arith, ap (λ u. u.0) h, e) in
      rw h (subst (λ u. Turn p base o t s st s u) x v)

  pub both-Turn :
      (p : Bytes) (base : Option TreeEntry) (o t : SideChange) (s : r.State) (st st' : MergeState)
      → get st.merged_entries p ≡ base
      → (merge_both_modified_path r tools s st p o t).0 ≡ some st'
      → Turn p base (some o) (some t) s st (merge_both_modified_path r tools s st p o t).1 st'
  unfolding merge_both_modified_path
  both-Turn p base o t s st st' g e = elim (Bool-cases (o.deleted && t.deleted)) [
    | inl b ↦
        (let h = get-delete st.merged_entries p in
          known-Turn p base (some o) (some t) s st st'
            (record st { merged_entries = delete st.merged_entries p })
            (merge_both_modified_path r tools s st p o t) (simp b) e
            (record {
              outcome =
                  both_deleted o t (ground (arith, b)) (ground (arith, b))
                    (entry_here p (delete st.merged_entries p) st none h);
              others = entry-Others p s st (delete st.merged_entries p) none h;
            }))
    | inr b ↦ (elim (Bool-cases (o.deleted || t.deleted)) [
      | inl c ↦
          known-Turn p base (some o) (some t) s st st'
            (record st {
              hard_conflicts = st.hard_conflicts ++ record { file = p; ranges = [] } ∷ [];
            })
            (merge_both_modified_path r tools s st p o t) (simp (b, c)) e
            (record {
              outcome =
                  delete_modify o t (λ q. absurd (ground (arith, b, c, q)))
                    (conflict_here p st.hard_conflicts);
              others = conflict_turn p s st;
            })
      | inr c ↦ (elim (Bool-cases (o.to_hash == t.to_hash)) [
        | inl d ↦
            (let h = get-put st.merged_entries p (record { hash = o.to_hash; mode = o.mode }) in
              let m = put st.merged_entries p (record { hash = o.to_hash; mode = o.mode }) in
              let x : Option TreeEntry = some (record { hash = o.to_hash; mode = o.mode }) in
              known-Turn p base (some o) (some t) s st st' (record st { merged_entries = m })
                (merge_both_modified_path r tools s st p o t) (simp (b, c, d)) e
                (record {
                  outcome =
                      same_edit o t (ground (arith, c)) (ground (arith, c)) (ground (arith, d))
                        (entry_here p m st x h);
                  others = entry-Others p s st m x h;
                }))
        | inr d ↦
            (let same_call : merge_both_modified_path r tools s st p o t
                  ≡ run_three_way_merge r tools s st p o t =
                simp (b, c, d) in
              subst (λ u. Turn p base (some o) (some t) s st u.1 st') (sym same_call)
                (three_way-Turn p base o t s st st' (ground (arith, c)) (ground (arith, c))
                  (λ q. absurd (ground (arith, d, q))) g (ap (λ u. u.0) (sym same_call) ∙ e)))
      ])
    ])
  ]
