-- ===== src/Automerger/Refined.antt =====
-- Merge (merge.go) against the specification of a three-way merge.
use jamsesh.Prelude.{
  [], ap, arith, Bool, Bool-cases, false, inl, inr, List, none, Option, Option-cases, refl, some,
  sym, true, ◌||◌, ℕ, ◌∙◌, ◌∷◌, ◌≡◌,
}
use jamsesh.Automerger.Answers.{settle_clean}
use jamsesh.Automerger.Applied.{apply_paths-Outcome, Distinct, listed}
use jamsesh.Automerger.Merge.{apply_paths, MergeState, SideChange, TreeEntry}
use jamsesh.Automerger.Outcome.{Outcome}
use jamsesh.Automerger.Repo.{Repo, RepoLaws, Tools}
use jamsesh.Automerger.Run.{clean_merge, merge_diff_of, merge_diffs, MergeDiff, settle, union_paths}
use jamsesh.Automerger.Tree.{add_dirs, build_tree, keys}
use jamsesh.Automerger.Verdict.{Writable}
use jamsesh.Go.Maps.{get, Map, put, same_sym}
use jamsesh.Go.Strings.{Bytes, same, same_eq}

module _ {A : Type 0} where
  keys-put :
      (m : Map A) (k : Bytes) (a : A) (q : Bytes)
      → listed q (keys (put m k a)) ≡ (listed q (keys m) || same k q)
  unfolding put listed keys
  keys-put [] k a q = ground arith
  keys-put ((k', b) ∷ m) k a q = elim (Bool-cases (same k' k)) [
    | inl e ↦ rw e (ground (arith, ap (λ u. same u q) (same_eq k' k e)))
    | inr e ↦ ground (arith, e, keys-put m k a q)
  ]

  put-Distinct : (m : Map A) (k : Bytes) (a : A) → Distinct (keys m) → Distinct (keys (put m k a))
  unfolding put Distinct listed keys
  put-Distinct [] k a d = (refl, tt)
  put-Distinct ((k', b) ∷ m) k a d = elim (Bool-cases (same k' k)) [
    | inl e ↦ rw e d
    | inr e ↦
        rw e
          (rw (keys-put m k a k') (ground (arith, d.0, e, same_sym k' k)), put-Distinct m k a d.1)
  ]

  get_unlisted : (m : Map A) (q : Bytes) → listed q (keys m) ≡ false → get m q ≡ none
  unfolding get listed keys
  get_unlisted [] q h = refl
  get_unlisted ((k, a) ∷ m) q h = ground (arith, h, get_unlisted m q)

keys-add_dirs :
    (m : Map Bool) (ds : List Bytes) (q : Bytes)
    → listed q (keys (add_dirs m ds)) ≡ (listed q (keys m) || listed q ds)
unfolding add_dirs listed
keys-add_dirs m [] q = ground arith
keys-add_dirs m (d ∷ ds) q = ground (arith, keys-add_dirs (put m d true) ds q, keys-put m d true q)

add_dirs-Distinct :
    (m : Map Bool) (ds : List Bytes) → Distinct (keys m) → Distinct (keys (add_dirs m ds))
unfolding add_dirs
add_dirs-Distinct m [] d = d
add_dirs-Distinct m (p ∷ ds) d = add_dirs-Distinct (put m p true) ds (put-Distinct m p true d)

union_paths-Distinct : (ours theirs : Map SideChange) → Distinct (union_paths ours theirs)
unfolding union_paths Distinct keys
union_paths-Distinct ours theirs =
    add_dirs-Distinct (add_dirs [] (keys ours)) (keys theirs) (add_dirs-Distinct [] (keys ours) tt)

union_paths_cover :
    (ours theirs : Map SideChange) (q : Bytes)
    → listed q (union_paths ours theirs) ≡ false
    → (get ours q ≡ none) × (get theirs q ≡ none)
unfolding union_paths listed keys
union_paths_cover ours theirs q h =
    let e = keys-add_dirs (add_dirs [] (keys ours)) (keys theirs) q in
    let e' = keys-add_dirs [] (keys ours) q in
    (
      get_unlisted ours q (ground (arith, h, e, e')),
      get_unlisted theirs q (ground (arith, h, e, e')),
    )

module _ (r : Repo) (laws : RepoLaws r) (tools : Tools) where
  -- The state and store of a merge without conflicts, of which the tree is built.
  pub record Merged (d : MergeDiff) (t : ℕ) : Type 0 where
    pub store : r.State
    pub state : MergeState
    pub paths :
        (q : Bytes)
        → Outcome r tools
            (get d.merged_entries q)
            store
            state
            q
            (get d.our_changes q)
            (get d.their_changes q)
    pub no_files : state.conflicted_files ≡ []
    pub no_conflicts : state.hard_conflicts ≡ []
    pub tree : (build_tree r store state.merged_entries).0 ≡ some t

  first_state : MergeDiff → MergeState
  first_state d = record {
    merged_entries = d.merged_entries;
    hard_conflicts = [];
    conflicted_files = [];
  }

  loop_of : r.State → MergeDiff → Option MergeState × r.State
  unfolding first_state
  loop_of s d = apply_paths r tools d.our_changes d.their_changes d.path_set s (first_state d)

  merge_failed :
      (s : r.State) (d : MergeDiff) → (loop_of s d).0 ≡ none → (merge_diffs r tools s d).0 ≡ none
  unfolding merge_diffs loop_of first_state
  merge_failed s d x = simp (merge_diffs, x)

  merge_went_on :
      (s : r.State) (d : MergeDiff) (st : MergeState)
      → (loop_of s d).0 ≡ some st
      → merge_diffs r tools s d ≡ settle r tools (loop_of s d).1 st
  unfolding merge_diffs loop_of first_state
  merge_went_on s d st x = simp (merge_diffs, x)

  -- If no write of the store fails and Merge answers clean-merge to the changes of the two sides, the tree
  -- is built of entries in which each path has the outcome of the three-way merge, with no conflict left.
  pub merge_diffs-Merged :
      (s : r.State) (ours theirs : Map SideChange) (entries : Map TreeEntry) (t : ℕ)
      → Writable r tools
      → (merge_diffs r tools s (merge_diff_of ours theirs entries)).0 ≡ some (clean_merge t)
      → Merged (merge_diff_of ours theirs entries) t
  unfolding loop_of first_state
  merge_diffs-Merged s ours theirs entries t w e =
      let d = merge_diff_of ours theirs entries in
      elim (Option-cases (loop_of s d).0) [
        | inl x ↦ absurd (ground (arith, sym (merge_failed s d x) ∙ e))
        | inr (st, x) ↦
            (let c =
                settle_clean r tools (loop_of s d).1 st t w
                  (ap (λ u. u.0) (sym (merge_went_on s d st x)) ∙ e) in
              record {
                store = (loop_of s d).1;
                state = st;
                paths =
                    apply_paths-Outcome r laws tools ours theirs (union_paths ours theirs) s
                      (first_state d) st (union_paths-Distinct ours theirs)
                      (union_paths_cover ours theirs) x;
                no_files = c.0;
                no_conflicts = c.1;
                tree = c.2;
              })
      ]
