-- ===== src/Automerger/Applied.antt =====
-- applyChangesPerPath (merge.go) as a whole.
use jamsesh.Prelude.{
  [], ap, arith, Bool, Bool-cases, false, inl, inr, List, none, Option, Option-cases, refl, some,
  subst, sym, true, ◌||◌, ◌∙◌, ◌∷◌, ◌≡◌,
}
use jamsesh.Automerger.Loop.{both-Turn, entry_here, entry-Others, Turn}
use jamsesh.Automerger.Merge.{accept, apply_path, apply_paths, MergeState, SideChange, TreeEntry}
use jamsesh.Automerger.Outcome.{
  Later, ours_only, Outcome, Outcome_later, taken_entry, theirs_only, untouched,
}
use jamsesh.Automerger.Paths.{get-accept}
use jamsesh.Automerger.Repo.{Repo, RepoLaws, Tools}
use jamsesh.Go.Maps.{get, Map}
use jamsesh.Go.Strings.{Bytes, same, same_eq}

unfoldable pub listed : Bytes → List Bytes → Bool
listed p [] = false
listed p (q ∷ qs) = same q p || listed p qs

unfoldable pub Distinct : List Bytes → Type 0
unfolding listed
Distinct [] = Unit
Distinct (p ∷ ps) = (listed p ps ≡ false) × Distinct ps

module _ (r : Repo) (laws : RepoLaws r) (tools : Tools) where
  apply_path-Turn :
      (p : Bytes) (base : Option TreeEntry) (o t : Option SideChange) (s : r.State)
      (st st' : MergeState)
      → get st.merged_entries p ≡ base
      → (apply_path r tools s st p o t).0 ≡ some st'
      → Turn r laws tools p base o t s st (apply_path r tools s st p o t).1 st'
  unfolding apply_path
  apply_path-Turn p base none none s st st' g e =
      subst (λ u. Turn r laws tools p base none none s st s u) (ground (arith, e))
        (record {
          outcome = untouched g;
          others = λ b q n. record {
            same_entry = refl;
            conflict_kept = λ k. k;
            file_kept = λ x y z k. k;
            blob_kept = λ h c k. k;
          };
        })
  apply_path-Turn p base none (some t) s st st' g e =
      let m = accept st.merged_entries p t in
      let h = get-accept st.merged_entries p t in
      subst (λ u. Turn r laws tools p base none (some t) s st s u) (ground (arith, e))
        (record {
          outcome = theirs_only t (entry_here r laws tools p m st (taken_entry t) h);
          others = entry-Others r laws tools p s st m (taken_entry t) h;
        })
  apply_path-Turn p base (some o) none s st st' g e =
      let m = accept st.merged_entries p o in
      let h = get-accept st.merged_entries p o in
      subst (λ u. Turn r laws tools p base (some o) none s st s u) (ground (arith, e))
        (record {
          outcome = ours_only o (entry_here r laws tools p m st (taken_entry o) h);
          others = entry-Others r laws tools p s st m (taken_entry o) h;
        })
  apply_path-Turn p base (some o) (some t) s st st' g e =
      both-Turn r laws tools p base o t s st st' g e

  Later-trans :
      (base : Option TreeEntry) (q : Bytes) (s s' s'' : r.State) (st st' st'' : MergeState)
      → Later r tools base q s st s' st'
      → Later r tools base q s' st' s'' st''
      → Later r tools base q s st s'' st''
  Later-trans base q s s' s'' st st' st'' l l' = record {
    same_entry = l'.same_entry ∙ l.same_entry;
    conflict_kept = λ k. l'.conflict_kept (l.conflict_kept k);
    file_kept = λ b o t k. l'.file_kept b o t (l.file_kept b o t k);
    blob_kept = λ h c k. l'.blob_kept h c (l.blob_kept h c k);
  }

  loop_step :
      (ours theirs : Map SideChange) (p : Bytes) (ps : List Bytes) (s : r.State)
      (st mid : MergeState)
      → (apply_path r tools s st p (get ours p) (get theirs p)).0 ≡ some mid
      → apply_paths r tools ours theirs (p ∷ ps) s st
        ≡ apply_paths r tools ours theirs ps
            (apply_path r tools s st p (get ours p) (get theirs p)).1
            mid
  unfolding apply_paths
  loop_step ours theirs p ps s st mid x = rw (apply_paths, x)

  -- The loop leaves a path alone that it does not come to.
  apply_paths-Later :
      (ours theirs : Map SideChange) (ps : List Bytes) (s : r.State) (st st' : MergeState)
      (base : Option TreeEntry) (q : Bytes)
      → listed q ps ≡ false
      → (apply_paths r tools ours theirs ps s st).0 ≡ some st'
      → Later r tools base q s st (apply_paths r tools ours theirs ps s st).1 st'
  unfolding apply_paths listed
  apply_paths-Later ours theirs [] s st st' base q n e =
      subst (λ u. Later r tools base q s st s u) (ground (arith, e))
        (record {
          same_entry = refl;
          conflict_kept = λ k. k;
          file_kept = λ x y z k. k;
          blob_kept = λ h c k. k;
        })
  apply_paths-Later ours theirs (p ∷ ps) s st st' base q n e =
      let turn = apply_path r tools s st p (get ours p) (get theirs p) in
      elim (Option-cases turn.0) [
        | inl x ↦ absurd (ground (arith, e, x))
        | inr (mid, x) ↦
            (let l =
                (apply_path-Turn p (get st.merged_entries p) (get ours p) (get theirs p) s st mid
                    refl x).others
                  base q (ground (arith, n)) in
              let c = loop_step ours theirs p ps s st mid x in
              let l' =
                apply_paths-Later ours theirs ps turn.1 mid st' base q (ground (arith, n))
                  (ap (λ u. u.0) (sym c) ∙ e) in
              subst (λ u. Later r tools base q s st u.1 st') (sym c)
                (Later-trans base q s turn.1 (apply_paths r tools ours theirs ps turn.1 mid).1 st
                  mid st' l l'))
      ]

  listed_outcome :
      (ours theirs : Map SideChange) (ps : List Bytes) (s : r.State) (st st' : MergeState)
      → Distinct ps
      → (apply_paths r tools ours theirs ps s st).0 ≡ some st'
      → (q : Bytes) → listed q ps ≡ true
      → Outcome r tools
          (get st.merged_entries q)
          (apply_paths r tools ours theirs ps s st).1
          st'
          q
          (get ours q)
          (get theirs q)
  unfolding listed Distinct apply_paths
  listed_outcome ours theirs [] s st st' d e q h = absurd (ground (arith, h))
  listed_outcome ours theirs (p ∷ ps) s st st' d e q h =
      let turn = apply_path r tools s st p (get ours p) (get theirs p) in
      elim (Option-cases turn.0) [
        | inl x ↦ absurd (ground (arith, e, x))
        | inr (mid, x) ↦
            (let c = loop_step ours theirs p ps s st mid x in
              let e' = ap (λ u. u.0) (sym c) ∙ e in
              let v =
                apply_path-Turn p (get st.merged_entries p) (get ours p) (get theirs p) s st mid
                  refl x in
              let last = (apply_paths r tools ours theirs ps turn.1 mid).1 in
              elim (Bool-cases (same p q)) [
                | inl y ↦
                    subst
                      (λ u.
                        Outcome r tools (get st.merged_entries q) u.1 st' q (get ours q)
                          (get theirs q))
                      (sym c)
                      (subst
                        (λ k.
                          Outcome r tools (get st.merged_entries k) last st' k (get ours k)
                            (get theirs k))
                        (same_eq p q y)
                        (Outcome_later r tools (get st.merged_entries p) p turn.1 mid last st'
                          (apply_paths-Later ours theirs ps turn.1 mid st' (get st.merged_entries p)
                            p d.0 e')
                          (get ours p) (get theirs p) v.outcome))
                | inr y ↦
                    subst
                      (λ u.
                        Outcome r tools (get st.merged_entries q) u.1 st' q (get ours q)
                          (get theirs q))
                      (sym c)
                      (subst (λ b. Outcome r tools b last st' q (get ours q) (get theirs q))
                        ((v.others none q y).same_entry)
                        (listed_outcome ours theirs ps turn.1 mid st' d.1 e' q
                          (ground (arith, h, y))))
              ])
      ]

  -- If the loop over the changed paths ends without an error, then whatever the order of the paths, each
  -- path has the outcome that the three-way merge gives it from its entry in the base and the changes of
  -- both sides, and the blobs of merged files can be read. It relies on the laws of the store.
  pub apply_paths-Outcome :
      (ours theirs : Map SideChange) (ps : List Bytes) (s : r.State) (st st' : MergeState)
      → Distinct ps
      → ((q : Bytes) → listed q ps ≡ false → (get ours q ≡ none) × (get theirs q ≡ none))
      → (apply_paths r tools ours theirs ps s st).0 ≡ some st'
      → (q : Bytes)
      → Outcome r tools
          (get st.merged_entries q)
          (apply_paths r tools ours theirs ps s st).1
          st'
          q
          (get ours q)
          (get theirs q)
  apply_paths-Outcome ours theirs ps s st st' d all_listed e q = elim (Bool-cases (listed q ps)) [
    | inl h ↦ listed_outcome ours theirs ps s st st' d e q h
    | inr h ↦
        (let n = all_listed q h in
          let l = apply_paths-Later ours theirs ps s st st' (get st.merged_entries q) q h e in
          rw (n.0, n.1) (untouched l.same_entry))
  ]
