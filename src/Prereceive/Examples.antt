-- ===== src/Prereceive/Examples.antt =====
-- The policy checks on a small repository.
use jamsesh.Prelude.{
  [], all, arith, false, leb, length, none, pos, refl, some, true, ℕ, ◌↔◌, ◌∷◌, ◌≡◌, ◌≢◌,
}
use jamsesh.Go.Strings.{Bytes, codes, cut, free_of, is_space, same, trim_space}
use jamsesh.Prereceive.Commits.{validate_commit}
use jamsesh.Prereceive.Gaps.{empty_scope_allows, short_sha_panics}
use jamsesh.Prereceive.Namespace.{base_ref, check_ref_namespace_iff, user_ref}
use jamsesh.Prereceive.Refs.{check_ref_namespace, validate_ref}
use jamsesh.Prereceive.Repo.{Commit, Globs, panics, RefUpdate, Repo}
use jamsesh.Prereceive.Scope.{match_scope}
use jamsesh.Prereceive.TrailerFormat.{starts_visible, WellFormed}
use jamsesh.Prereceive.Trailers.{check_required_trailers, is_key, Trailer}
use jamsesh.Prereceive.Traversal.{NoTraversal}
use jamsesh.Prereceive.Validate.{scope_of, Session, ValidateInput, Validator}

-- Patterns that match by equality.
abbrev literal : Globs
literal = record {
  validate_pattern = λ p. true;
  match_path = λ p path. some (same p path);
  unmarshal = λ s. some (codes "docs" ∷ []);
}

abbrev message : Bytes
message = codes "work\n\nJam-Session: s\nJam-Turn: 1\nJam-Author: a"

-- Hash 2 follows hash 1; both commits change "docs" and have the trailers.
abbrev the_commit : ℕ → Commit
the_commit h = record { hash = h; message = message; num_parents = 1 }

abbrev small_repo : Repo
small_repo = record {
  Tree = Unit {0};
  new_hash = length;
  references = some [];
  commit_object = λ h. some (the_commit h);
  is_ancestor = λ a b. some (leb a.hash b.hash);
  log = λ h. some (the_commit h ∷ the_commit 1 ∷ [], false);
  tree_of = λ c. some tt;
  first_parent = λ c. none;
  diff_tree = λ a b. some (record { from = codes "docs"; to = codes "docs" } ∷ []);
}

abbrev push : RefUpdate
push = record { ref = codes "refs/heads/jam/s/a/work"; old_sha = codes "0"; new_sha = codes "00" }

abbrev limits : Validator
limits = record { max_pack_bytes = pos 100; playground_max_content_bytes = pos 0 }

abbrev the_session : Session
the_session = record { id = codes "s"; org_id = codes "o"; writable_scope = codes "[]" }

abbrev the_input : ValidateInput
the_input = record {
  repo = small_repo;
  session = some the_session;
  account_id = codes "a";
  updates = push ∷ [];
  pack_bytes = pos 10;
  repo_path = [];
  walk = none;
}

check_ref_namespace_iff_example :
    (check_ref_namespace small_repo (codes "s") (codes "a") (codes "refs/heads/jam/s/a/work")
      ≡ (true, false))
    ↔ ((branch : Bytes) × (codes "refs/heads/jam/s/a/work"
          ≡ user_ref (codes "s") (codes "a") branch)
        × (branch ≢ [])
        × NoTraversal branch)
unfolding free_of
check_ref_namespace_iff_example =
    check_ref_namespace_iff small_repo (codes "s") (codes "a") (codes "refs/heads/jam/s/a/work")
      refl refl

abbrev turn : Trailer
turn = record { key = codes "Jam-Turn"; value = codes "1" }

turn-WellFormed : WellFormed turn
unfolding is_key starts_visible all is_space
turn-WellFormed = record { key_ok = refl; value_ok = refl }

abbrev base_push : RefUpdate
base_push = record { ref = base_ref (codes "s"); old_sha = []; new_sha = codes "0" }

abbrev no_scope : Session
no_scope = record the_session { writable_scope = [] }

empty_scope_allows_example :
    (scope_of literal no_scope ≡ some [])
    × (validate_commit literal small_repo (the_commit 2) [] ≡ [])
    × ((path : Bytes) → match_scope literal [] path ≡ false)
unfolding check_required_trailers same trim_space cut all
empty_scope_allows_example = empty_scope_allows literal small_repo no_scope (the_commit 2) refl refl

abbrev lost_repo : Repo
lost_repo = record small_repo { commit_object = λ h. none }

short_sha_panics_example : validate_ref lost_repo (codes "s") (codes "a") push ≡ panics
unfolding check_ref_namespace same
short_sha_panics_example =
    short_sha_panics lost_repo (codes "s") (codes "a") push refl (λ e. cc) (omega arith) refl
