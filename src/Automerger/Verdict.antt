-- ===== src/Automerger/Verdict.antt =====
-- What the answers of Merge (merge.go) say.
use jamsesh.Prelude.{
  list_cases, ◌&&◌, ◌++◌, [], arith, Bool, Bool-cases, false, inl, inr, List, none, Option,
  Option-cases, refl, some, sym, true, ℕ, ◌∙◌, ◌∷◌, ◌≡◌, ◌≢◌,
}
use jamsesh.Automerger.Additions.{try_auto_resolve}
use jamsesh.Automerger.Heuristics.{Heuristic}
use jamsesh.Automerger.Merge.{Conflict, ConflictedFile, MergeState, TreeEntry}
use jamsesh.Automerger.Repo.{Child, Repo, Tools}
use jamsesh.Automerger.Run.{
  broken, conclude, name_of, Progress, Resolution, resolve_conflicts, resolve_files, resolved,
  safe_auto_resolve, unresolved, worse,
}
use jamsesh.Automerger.Tree.{
  all_dirs, build_dirs, build_tree, children_of, dir_before, keys, register, seed, sort_by,
}
use jamsesh.Go.Maps.{Map, put}
use jamsesh.Go.Strings.{Bytes, is_some}

module _ (r : Repo) (tools : Tools) where
  -- Every conflicted file has a safe resolution.
  unfoldable pub all_safe : List ConflictedFile → Bool
  all_safe [] = true
  all_safe (f ∷ fs) = is_some (try_auto_resolve tools.diff f.base f.ours f.theirs) && all_safe fs

  -- No write of the store fails.
  pub record Writable : Type 0 where
    pub blobs : (s : r.State) (b : Bytes) → (r.write_blob s b).0 ≢ none
    pub trees : (s : r.State) (cs : List Child) → (r.write_tree s cs).0 ≢ none

  -- What the loop of resolveConflicts leaves, from its progress and whether there are hard conflicts.
  record Resolves (fs : List ConflictedFile) (p : Progress) (st : MergeState)
      (out : Option Progress) (st' : MergeState) : Type 0 where
    safe : (q : Progress) → out ≡ some q → q.all_resolved ≡ (p.all_resolved && all_safe fs)
    hard :
        (q : Progress)
        → out ≡ some q
        → q.all_resolved ≡ false
        → p.all_resolved ≡ true
        → st'.hard_conflicts ≢ []
    kept : st.hard_conflicts ≢ [] → st'.hard_conflicts ≢ []

  append_ne : (xs : List Conflict) (x : Conflict) → xs ++ x ∷ [] ≢ []
  append_ne [] x h = cc
  append_ne (y ∷ xs) x h = cc

  resolve_files-Resolves :
      (fs : List ConflictedFile) (p : Progress) (s : r.State) (st : MergeState)
      → let res = resolve_files r tools fs p s st in Resolves fs p st res.0 res.1
  unfolding resolve_files all_safe
  resolve_files-Resolves [] p s st = record {
    safe = λ q e. ground (arith, e);
    hard = λ q e h h'. absurd (ground (arith, e, h, h'));
    kept = λ k. k;
  }
  resolve_files-Resolves (f ∷ fs) p s st =
      elim (Option-cases (try_auto_resolve tools.diff f.base f.ours f.theirs)) [
        | inl x ↦
            (let v =
                resolve_files-Resolves fs (record p { all_resolved = false }) s
                  (record st {
                    hard_conflicts =
                        st.hard_conflicts ++ record { file = f.path; ranges = f.ranges } ∷ [];
                  }) in
              rw (resolve_files, x)
                (record {
                  safe = λ q e. rw x (ground (arith, v.safe q e));
                  hard = λ q e h h'.
                      v.kept
                        (append_ne st.hard_conflicts (record { file = f.path; ranges = f.ranges }));
                  kept = λ k.
                      v.kept
                        (append_ne st.hard_conflicts (record { file = f.path; ranges = f.ranges }));
                }))
        | inr ((content, h), x) ↦ (elim (Option-cases (r.write_blob s content).0) [
          | inl y ↦
              rw (resolve_files, x, y)
                (record { safe = λ q e. cc; hard = λ q e. cc; kept = λ k. k })
          | inr (new, y) ↦
              (let v =
                  resolve_files-Resolves fs (record p { worst = worse p.worst h })
                    (r.write_blob s content).1
                    (record st {
                      merged_entries =
                          put st.merged_entries f.path (record { hash = new; mode = f.mode });
                    }) in
                rw (resolve_files, x, y)
                  (record { safe = λ q e. rw x (v.safe q e); hard = v.hard; kept = v.kept }))
        ])
      ]

  pub conclude_not_safe :
      (s : r.State) (st : MergeState) (t : ℕ) (h : Heuristic)
      → (conclude r tools s st).0 ≢ some (safe_auto_resolve t h)
  unfolding conclude
  conclude_not_safe s st t h e = elim (list_cases st.hard_conflicts) [
    | inl x ↦ (elim (Option-cases (build_tree r s st.merged_entries).0) [
      | inl y ↦ absurd (ground (arith, e, x, y))
      | inr (k, y) ↦ absurd (ground (arith, e, x, y))
    ])
    | inr ((c, cs), x) ↦ absurd (ground (arith, e, x))
  ]

  -- How resolveConflicts ends.
  pub data Ending (st : MergeState) : Resolution → MergeState → Type 0 where
    all_done :
        (t : ℕ) (h : Heuristic) (st' : MergeState)
        → all_safe st.conflicted_files ≡ true
        → Ending st (resolved (safe_auto_resolve t h)) st'
    some_left : (st' : MergeState) → st'.hard_conflicts ≢ [] → Ending st unresolved st'
    store_failed : (st' : MergeState) → ¬ Writable → Ending st broken st'

  resolve_files_total :
      (fs : List ConflictedFile) (p : Progress) (s : r.State) (st : MergeState)
      → Writable
      → (resolve_files r tools fs p s st).0 ≢ none
  unfolding resolve_files
  resolve_files_total [] p s st w = λ e. cc
  resolve_files_total (f ∷ fs) p s st w =
      elim (Option-cases (try_auto_resolve tools.diff f.base f.ours f.theirs)) [
        | inl x ↦
            rw (resolve_files, x)
              (resolve_files_total fs (record p { all_resolved = false }) s
                (record st {
                  hard_conflicts =
                      st.hard_conflicts ++ record { file = f.path; ranges = f.ranges } ∷ [];
                })
                w)
        | inr ((content, h), x) ↦ (elim (Option-cases (r.write_blob s content).0) [
          | inl y ↦ absurd (w.blobs s content y)
          | inr (new, y) ↦
              rw (resolve_files, x, y)
                (resolve_files_total fs (record p { worst = worse p.worst h })
                  (r.write_blob s content).1
                  (record st {
                    merged_entries =
                        put st.merged_entries f.path (record { hash = new; mode = f.mode });
                  })
                  w)
        ])
      ]

  build_dirs_total :
      (dirs : List Bytes) (m : Map (List Child)) (root : ℕ) (s : r.State)
      → Writable
      → (build_dirs r dirs m root s).0 ≢ none
  unfolding build_dirs
  build_dirs_total [] m root s w = λ e. cc
  build_dirs_total (d ∷ dirs) m root s w =
      elim (Option-cases (r.write_tree s (children_of m d)).0) [
        | inl y ↦ absurd (w.trees s (children_of m d) y)
        | inr (h, y) ↦
            rw (build_dirs, y)
              (build_dirs_total dirs (register m d h) (elim d [ [] ↦ h | c ∷ d' ↦ root ])
                (r.write_tree s (children_of m d)).1 w)
      ]

  build_tree_total : (s : r.State) (es : Map TreeEntry) → Writable → (build_tree r s es).0 ≢ none
  unfolding build_tree
  build_tree_total s es w =
      build_dirs_total (sort_by dir_before (keys (all_dirs (([], true) ∷ []) es))) (seed [] es) 0 s
        w

  pub resolve_conflicts-Ending :
      (s : r.State) (st : MergeState)
      → let res = resolve_conflicts r tools s st in Ending st res.0 res.1
  unfolding resolve_conflicts
  resolve_conflicts-Ending s st =
      let p0 : Progress = record { worst = none; all_resolved = true } in
      let res = resolve_files r tools st.conflicted_files p0 s st in
      let v = resolve_files-Resolves st.conflicted_files p0 s st in
      elim (Option-cases res.0) [
        | inl x ↦
            rw (resolve_conflicts, x)
              (store_failed res.1 (λ w. resolve_files_total st.conflicted_files p0 s st w x))
        | inr (q, x) ↦ (elim (Bool-cases q.all_resolved) [
          | inr y ↦ rw (resolve_conflicts, x, y) (some_left res.1 (v.hard q x y refl))
          | inl y ↦ (elim (Option-cases (build_tree r res.2 res.1.merged_entries).0) [
            | inl z ↦
                rw (resolve_conflicts, x, y, z)
                  (store_failed res.1 (λ w. build_tree_total res.2 res.1.merged_entries w z))
            | inr (t, z) ↦
                rw (resolve_conflicts, x, y, z)
                  (all_done t (name_of q.worst) res.1 (sym (v.safe q x) ∙ y))
          ])
        ])
      ]
