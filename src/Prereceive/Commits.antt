-- ===== src/Prereceive/Commits.antt =====
-- internal/portal/prereceive/commits.go.
use jamsesh.Prelude.{
  ◌&&◌, ◌++◌, ◌==◌, [], Bool, false, if◌then◌else◌, List, ltb, none, not, Option, some, ℕ, ◌∷◌,
}
use jamsesh.Go.Strings.{Bytes, codes, same}
use jamsesh.Prereceive.Repo.{
  Change, Commit, Globs, iteration_failed, missing_trailer, RefUpdate, Rejection, Repo,
  scope_violation, walk_failed,
}
use jamsesh.Prereceive.Scope.{match_scope}
use jamsesh.Prereceive.Trailers.{check_required_trailers}
use mathlib.Core.List.{[]}

abbrev pub required_trailers : List Bytes
required_trailers = codes "Jam-Session" ∷ codes "Jam-Turn" ∷ codes "Jam-Author" ∷ []

-- The loop of WalkAndValidate over the log: what comes before the stop commit, and whether the walk
-- ended by an error.
unfoldable pub collect : Option ℕ → List Commit → Bool → List Commit × Bool
collect stop [] failed = ([], failed)
collect none (c ∷ cs) failed = let (rest, broken) = collect none cs failed in (c ∷ rest, broken)
collect (some h) (c ∷ cs) failed =
    let (rest, broken) = collect (some h) cs failed in
    if c.hash == h then ([], false) else (c ∷ rest, broken)

module _ (g : Globs) (repo : Repo) where
  -- The loop of scopeViolations over the changes.
  unfoldable pub violating_paths : List Bytes → List Change → List Bytes
  unfolding match_scope
  violating_paths scope [] = []
  violating_paths scope (ch ∷ chs) =
      (if not (same ch.from []) && not (match_scope g scope ch.from) then ch.from ∷ [] else [])
      ++ ((if not (same ch.to []) && (not (same ch.to ch.from) && not (match_scope g scope ch.to))
            then ch.to ∷ []
            else [])
          ++ violating_paths scope chs)

  -- The tree to compare with; an unresolvable parent counts as the empty tree.
  unfoldable pub parent_tree : Commit → Option repo.Tree
  parent_tree c =
      if ltb 0 c.num_parents
      then (elim (repo.first_parent c) [ none ↦ none | some parent ↦ repo.tree_of parent ])
      else none

  -- scopeViolations
  unfoldable pub scope_violations : Commit → List Bytes → List Bytes
  unfolding violating_paths parent_tree
  scope_violations c scope = elim (repo.tree_of c) [
    | none ↦ codes "<error: could not read commit tree>" ∷ []
    | some tree ↦ elim (repo.diff_tree (parent_tree c) tree) [
      | none ↦ codes "<error: could not diff trees>" ∷ []
      | some changes ↦ violating_paths scope changes
    ]
  ]

  -- validateCommit: the trailers, and the scope if it has a pattern.
  unfoldable pub trailer_rejections : ℕ → List Bytes → List Rejection
  trailer_rejections hash [] = []
  trailer_rejections hash (k ∷ ks) = missing_trailer hash (k ∷ ks) ∷ []

  unfoldable pub path_rejections : ℕ → List Bytes → List Rejection
  path_rejections hash [] = []
  path_rejections hash (p ∷ ps) = scope_violation hash (p ∷ ps) ∷ []

  unfoldable pub scope_rejections : Commit → List Bytes → List Rejection
  unfolding scope_violations path_rejections
  scope_rejections c [] = []
  scope_rejections c (p ∷ ps) = path_rejections c.hash (scope_violations c (p ∷ ps))

  unfoldable pub validate_commit : Commit → List Bytes → List Rejection
  unfolding trailer_rejections scope_rejections check_required_trailers
  validate_commit c scope =
      trailer_rejections c.hash (check_required_trailers c.message required_trailers)
      ++ scope_rejections c scope

  unfoldable pub validate_commits : List Commit → List Bytes → List Rejection
  unfolding validate_commit
  validate_commits [] scope = []
  validate_commits (c ∷ cs) scope = validate_commit c scope ++ validate_commits cs scope

  abbrev pub stop_of : RefUpdate → Option ℕ
  stop_of u = if same u.old_sha [] then none else some (repo.new_hash u.old_sha)

  -- WalkAndValidate
  unfoldable pub walk_and_validate : RefUpdate → List Bytes → List Rejection
  unfolding collect validate_commits
  walk_and_validate u scope = elim (repo.log (repo.new_hash u.new_sha)) [
    | none ↦ walk_failed u.ref u.new_sha ∷ []
    | some (cs, failed) ↦
        (let (commits, broken) = collect (stop_of u) cs failed in
          if broken then iteration_failed u.ref ∷ [] else validate_commits commits scope)
  ]
