-- ===== src/Automerger/Answers.antt =====
-- The kinds of answer of Merge (merge.go) and what they say of the files.
use jamsesh.Prelude.{
  list_cases, ◌++◌, [], ap, arith, inl, inr, List, Option, Option-cases, refl, some, sym, true, ℕ,
  ◌∙◌, ◌∷◌, ◌≡◌, ◌≢◌,
}
use jamsesh.Automerger.Heuristics.{Heuristic}
use jamsesh.Automerger.Merge.{Conflict, MergeState}
use jamsesh.Automerger.Repo.{Repo, Tools}
use jamsesh.Automerger.Run.{
  broken, clean_merge, conclude, conflicts_of, hard_conflict, MergeResult, Resolution,
  resolve_conflicts, resolved, safe_auto_resolve, settle, unresolved,
}
use jamsesh.Automerger.Tree.{build_tree}
use jamsesh.Automerger.Verdict.{
  all_done, all_safe, conclude_not_safe, Ending, resolve_conflicts-Ending, some_left, store_failed,
  Writable,
}

module _ (r : Repo) (tools : Tools) where
  settle_clear :
      (s : r.State) (st : MergeState)
      → st.conflicted_files ≡ []
      → settle r tools s st ≡ conclude r tools s st
  unfolding settle
  settle_clear s st x = rw (settle, x)

  -- With conflicted files: hard conflicts win, or resolveConflicts decides.
  data PathTaken (s : r.State) (st : MergeState) : Option MergeResult → Type 0 where
    was_hard : (cs : List Conflict) → cs ≢ [] → PathTaken s st (some (hard_conflict cs))
    was_resolved :
        (t : ℕ) (h : Heuristic)
        → st.hard_conflicts ≡ []
        → all_safe r tools st.conflicted_files ≡ true
        → PathTaken s st (some (safe_auto_resolve t h))
    was_broken :
        (res : Option MergeResult)
        → ((t : ℕ) (h : Heuristic) → res ≢ some (safe_auto_resolve t h))
        → ¬ Writable r tools
        → PathTaken s st res

  conclude_hard :
      (s : r.State) (st : MergeState)
      → st.hard_conflicts ≢ []
      → (conclude r tools s st).0 ≡ some (hard_conflict st.hard_conflicts)
  unfolding conclude
  conclude_hard s st n = elim (list_cases st.hard_conflicts) [
    | inl x ↦ absurd (n x)
    | inr ((c, cs), x) ↦ rw (conclude, x)
  ]

  by_resolution :
      (res : Resolution) (s' : r.State) (c : Option MergeResult × r.State)
      → (elim res as (λ x. Option MergeResult × r.State) [
        | resolved a ↦ (some a, s')
        | unresolved ↦ c
        | broken ↦ c
      ]).0
        ≡ (elim res [ resolved a ↦ some a | unresolved ↦ c.0 | broken ↦ c.0 ])
  by_resolution (resolved a) s' c = refl
  by_resolution unresolved s' c = refl
  by_resolution broken s' c = refl

  settle_soft :
      (s : r.State) (st : MergeState)
      → st.conflicted_files ≢ []
      → st.hard_conflicts ≡ []
      → let res = resolve_conflicts r tools s st in
        (settle r tools s st).0 ≡ (elim res.0 [
          | resolved a ↦ some a
          | unresolved ↦ (conclude r tools res.2 res.1).0
          | broken ↦ (conclude r tools res.2 res.1).0
        ])
  unfolding settle
  settle_soft s st n h = elim (list_cases st.conflicted_files) [
    | inl x ↦ absurd (n x)
    | inr ((f, fs), x) ↦
        (let res = resolve_conflicts r tools s st in
          simp (settle, x, h) (by_resolution res.0 res.2 (conclude r tools res.2 res.1)))
  ]

  settle-PathTaken :
      (s : r.State) (st : MergeState)
      → st.conflicted_files ≢ []
      → PathTaken s st (settle r tools s st).0
  unfolding settle conclude
  settle-PathTaken s st n = elim (list_cases st.hard_conflicts) [
    | inr ((c, cs), x) ↦ (elim (list_cases st.conflicted_files) [
      | inl y ↦ absurd (n y)
      | inr ((f, fs), y) ↦
          rw (settle, y, x) (was_hard (c ∷ (cs ++ conflicts_of r tools (f ∷ fs))) (λ h. cc))
    ])
    | inl x ↦
        (let res = resolve_conflicts r tools s st in
          go res.0 res.1 res.2 (resolve_conflicts-Ending r tools s st) (settle_soft s st n x) x)
  ]
    where
      go :
          (res : Resolution) (st' : MergeState) (s' : r.State)
          → Ending r tools st res st'
          → (settle r tools s st).0 ≡ (elim res [
            | resolved a ↦ some a
            | unresolved ↦ (conclude r tools s' st').0
            | broken ↦ (conclude r tools s' st').0
          ])
          → st.hard_conflicts ≡ []
          → PathTaken s st (settle r tools s st).0
      go res _ s' (all_done t h st' a) e x = rw e (was_resolved t h x a)
      go res _ s' (some_left st' ne) e x =
          rw (e, conclude_hard s' st' ne) (was_hard st'.hard_conflicts ne)
      go res _ s' (store_failed st' w) e x =
          rw e (was_broken (conclude r tools s' st').0 (conclude_not_safe r tools s' st') w)

  clean_empty :
      (s : r.State) (st : MergeState) (t : ℕ)
      → (conclude r tools s st).0 ≡ some (clean_merge t)
      → (st.hard_conflicts ≡ []) × ((build_tree r s st.merged_entries).0 ≡ some t)
  unfolding conclude
  clean_empty s st t e = elim (list_cases st.hard_conflicts) [
    | inr ((c, cs), x) ↦ absurd (ground (arith, e, x))
    | inl x ↦ (elim (Option-cases (build_tree r s st.merged_entries).0) [
      | inl y ↦ absurd (ground (arith, e, x, y))
      | inr (k, y) ↦ (x, ground (arith, e, x, y))
    ])
  ]

  -- Merge answers safe-auto-resolve only if some file is conflicted, no path is a hard conflict, and each
  -- conflicted file has a resolution by one of the heuristics.
  pub settle_safe :
      (s : r.State) (st : MergeState) (t : ℕ) (h : Heuristic)
      → (settle r tools s st).0 ≡ some (safe_auto_resolve t h)
      → (st.conflicted_files ≢ [])
        × (st.hard_conflicts ≡ [])
        × (all_safe r tools st.conflicted_files ≡ true)
  settle_safe s st t h e = elim (list_cases st.conflicted_files) [
    | inl x ↦
        absurd (conclude_not_safe r tools s st t h (ap (λ u. u.0) (sym (settle_clear s st x)) ∙ e))
    | inr ((f, fs), x) ↦
        (let n : st.conflicted_files ≢ [] = λ y. ground (arith, x, y) in
          go (settle r tools s st).0 (settle-PathTaken s st n) e n)
  ]
    where
      go :
          (res : Option MergeResult)
          → PathTaken s st res
          → res ≡ some (safe_auto_resolve t h)
          → st.conflicted_files ≢ []
          → (st.conflicted_files ≢ [])
            × (st.hard_conflicts ≡ [])
            × (all_safe r tools st.conflicted_files ≡ true)
      go _ (was_hard cs ne) e n = absurd (ground (arith, e))
      go _ (was_resolved t' h' x a) e n = (n, x, a)
      go _ (was_broken res k w) e n = absurd (k t h e)

  -- If no write of the store fails, Merge answers clean-merge only if no file is conflicted and no path is a
  -- hard conflict, and the tree is the one built of the merged entries.
  pub settle_clean :
      (s : r.State) (st : MergeState) (t : ℕ)
      → Writable r tools
      → (settle r tools s st).0 ≡ some (clean_merge t)
      → (st.conflicted_files ≡ [])
        × (st.hard_conflicts ≡ [])
        × ((build_tree r s st.merged_entries).0 ≡ some t)
  settle_clean s st t w e = elim (list_cases st.conflicted_files) [
    | inl x ↦
        (let c = clean_empty s st t (ap (λ u. u.0) (sym (settle_clear s st x)) ∙ e) in
          (x, c.0, c.1))
    | inr ((f, fs), x) ↦
        absurd (go (settle r tools s st).0 (settle-PathTaken s st (λ y. ground (arith, x, y))) e)
  ]
    where
      go : (res : Option MergeResult) → PathTaken s st res → res ≡ some (clean_merge t) → ⊥
      go _ (was_hard cs ne) e = ground (arith, e)
      go _ (was_resolved t' h' x a) e = ground (arith, e)
      go _ (was_broken res k nw) e = nw w
