-- ===== src/Prereceive/Accepted.antt =====
-- What an accepted push is known to satisfy of each of its commits (commits.go, trailers.go).
use jamsesh.Prelude.{
  refl, ◌⊎◌, ◌&&◌, ◌++◌, [], All, arith, if◌then◌else◌, inl, inr, List, none, not, Option,
  Option-cases, refl, some, true, ℕ, ◌∷◌, ◌≡◌,
}
use jamsesh.Go.Strings.{codes, Bytes, same, same_iff}
use jamsesh.Prereceive.Commits.{
  parent_tree, path_rejections, required_trailers, scope_rejections, scope_violations,
  trailer_rejections, validate_commit, validate_commits, violating_paths,
}
use jamsesh.Prereceive.TrailerFormat.{check_required_trailers_iff, Present}
use jamsesh.Prereceive.Refs.{option_to_list}
use jamsesh.Prereceive.Repo.{
  ◌>>=◌, Change, Commit, Globs, Outcome, panics, Rejection, Repo, returns,
}
use jamsesh.Prereceive.Scope.{match_scope}
use jamsesh.Prereceive.Trailers.{found_trailers, parse_trailers, check_required_trailers}
use jamsesh.Prereceive.Validate.{verdict}

pub append-nil_inv {ℓ} : {A : Type ℓ} (xs ys : List A) → xs ++ ys ≡ [] → (xs ≡ []) × (ys ≡ [])
append-nil_inv [] ys h = (refl, h)
append-nil_inv (x ∷ xs) ys h = cc

pub Outcome_returns {ℓ κ} :
    {A : Type ℓ} {B : Type κ} (m : Outcome A) (f : A → Outcome B) {b : B}
    → (m >>= f) ≡ returns b
    → (a : A) × (m ≡ returns a) × (f a ≡ returns b)
Outcome_returns (returns a) f h = (a, refl, h)
Outcome_returns panics f h = cc

pub returns_eq {ℓ} : {A : Type ℓ} (a b : A) → returns a ≡ returns b → a ≡ b
returns_eq a b h = cc

pub verdict_eq : (a b : List Rejection) → verdict a ≡ verdict b → a ≡ b
verdict_eq a b h = cc

pub option_to_list_nil {ℓ} : {A : Type ℓ} (o : Option A) → option_to_list o ≡ [] → o ≡ none
option_to_list_nil none h = refl
option_to_list_nil (some a) h = cc

-- Every path of a change lies in the scope.
abbrev pub InScope : Globs → List Bytes → Change → Type 0
InScope g scope ch =
    ((ch.from ≡ []) ⊎ (match_scope g scope ch.from ≡ true))
    × ((ch.to ≡ []) ⊎ ((ch.to ≡ ch.from) ⊎ (match_scope g scope ch.to ≡ true)))

-- The loop over the changes reports nothing only if every changed path is in the scope.
pub violating_paths-InScope :
    (g : Globs) (repo : Repo) (scope : List Bytes) (chs : List Change)
    → violating_paths g repo scope chs ≡ []
    → All (InScope g scope) chs
unfolding violating_paths
violating_paths-InScope g repo scope [] h = tt
violating_paths-InScope g repo scope (ch ∷ chs) h =
    let (a, b) =
      append-nil_inv
        (if not (same ch.from []) && not (match_scope g scope ch.from) then ch.from ∷ [] else []) _
        h in
    let (c, d) =
      append-nil_inv
        (if not (same ch.to []) && (not (same ch.to ch.from) && not (match_scope g scope ch.to))
          then ch.to ∷ []
          else [])
        _ b in
    (
      (
        ground (arith, same_iff ch.from []),
        ground (arith, same_iff ch.to [], same_iff ch.to ch.from),
      ),
      violating_paths-InScope g repo scope chs d,
    )

-- The changes of a commit against its first parent could be read, and lie in the scope.
pub record Scoped (g : Globs) (repo : Repo) (scope : List Bytes) (c : Commit) : Type 0 where
  pub tree : repo.Tree
  pub tree_read : repo.tree_of c ≡ some tree
  pub changes : List Change
  pub changes_read : repo.diff_tree (parent_tree g repo c) tree ≡ some changes
  pub in_scope : All (InScope g scope) changes

-- What is asked of one commit: the three trailers, each with a first value that is not blank, and the
-- scope, if that has a pattern.
pub record CommitOk (g : Globs) (repo : Repo) (scope : List Bytes) (c : Commit) : Type 0 where
  pub trailers :
      All
        (Present (found_trailers (parse_trailers c.message)))
        (codes "Jam-Session" ∷ codes "Jam-Turn" ∷ codes "Jam-Author" ∷ [])
  pub paths : (scope ≡ []) ⊎ Scoped g repo scope c

scope_violations-Scoped :
    (g : Globs) (repo : Repo) (scope : List Bytes) (c : Commit)
    → scope_violations g repo c scope ≡ []
    → Scoped g repo scope c
unfolding scope_violations
scope_violations-Scoped g repo scope c h = elim (Option-cases (repo.tree_of c)) [
  | inl e ↦ absurd (ground (arith, h, e))
  | inr (tree, e) ↦ (elim (Option-cases (repo.diff_tree (parent_tree g repo c) tree)) [
    | inl e' ↦ absurd (ground (arith, h, e, e'))
    | inr (changes, e') ↦ record {
      tree = tree;
      tree_read = e;
      changes = changes;
      changes_read = e';
      in_scope = violating_paths-InScope g repo scope changes (ground (arith, h, e, e'));
    }
  ])
]

no_violation :
    (g : Globs) (repo : Repo) (hash : ℕ) (ps : List Bytes)
    → path_rejections g repo hash ps ≡ []
    → ps ≡ []
unfolding path_rejections
no_violation g repo hash [] h = refl
no_violation g repo hash (p ∷ ps) h = cc

validate_commit-CommitOk :
    (g : Globs) (repo : Repo) (scope : List Bytes) (c : Commit)
    → validate_commit g repo c scope ≡ []
    → CommitOk g repo scope c
unfolding validate_commit
validate_commit-CommitOk g repo scope c h =
    let (a, b) =
      append-nil_inv
        (trailer_rejections g repo c.hash (check_required_trailers c.message required_trailers)) _
        h in
    record {
      trailers =
          (check_required_trailers_iff c.message required_trailers).0
            (no_trailer (check_required_trailers c.message required_trailers) a);
      paths = no_path scope b;
    }
  where
    no_trailer : (ks : List Bytes) → trailer_rejections g repo c.hash ks ≡ [] → ks ≡ []
    no_trailer [] e = refl
    no_trailer (k ∷ ks) e = cc

    no_path : (sc : List Bytes) → scope_rejections g repo c sc ≡ [] → (sc ≡ []) ⊎ Scoped g repo sc c
    no_path [] e = inl refl
    no_path (p ∷ ps) e = inr (
        scope_violations-Scoped g repo (p ∷ ps) c
          (no_violation g repo c.hash (scope_violations g repo c (p ∷ ps)) e))

pub validate_commits-CommitOk :
    (g : Globs) (repo : Repo) (scope : List Bytes) (cs : List Commit)
    → validate_commits g repo cs scope ≡ []
    → All (CommitOk g repo scope) cs
unfolding validate_commits
validate_commits-CommitOk g repo scope [] h = tt
validate_commits-CommitOk g repo scope (c ∷ cs) h =
    let (a, b) = append-nil_inv (validate_commit g repo c scope) _ h in
    (validate_commit-CommitOk g repo scope c a, validate_commits-CommitOk g repo scope cs b)
