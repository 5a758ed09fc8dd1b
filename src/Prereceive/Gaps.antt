-- ===== src/Prereceive/Gaps.antt =====
-- Three corners of the policy checks: the exemption of the base ref, the empty scope, and short hashes.
use jamsesh.Prelude.{◌<◌, [], arith, false, length, List, none, refl, some, true, ◌≡◌, ◌≢◌}
use jamsesh.Go.Strings.{Bytes, free_of, same_iff}
use jamsesh.Prereceive.Commits.{required_trailers, validate_commit}
use jamsesh.Prereceive.Namespace.{base_ref, check_ref_namespace_base}
use jamsesh.Prereceive.Refs.{check_force_push, check_ref_namespace, repo_is_empty, validate_ref}
use jamsesh.Prereceive.Repo.{Commit, Globs, panics, RefUpdate, Repo, returns}
use jamsesh.Prereceive.Scope.{match_scope}
use jamsesh.Prereceive.Trailers.{check_required_trailers}
use jamsesh.Prereceive.Validate.{check_update, is_base_ref_first_push, scope_of, Session}

-- The inaugural base push skips the walk over its commits, but (for a session id without a slash) it is
-- let through only while the repository is known to hold no ref but symbolic ones.
pub check_update_base :
    (g : Globs) (repo : Repo) (session account : Bytes) (scope : List Bytes) (u : RefUpdate)
    → free_of b'/' session ≡ true
    → is_base_ref_first_push session u ≡ true
    → check_update g repo session account scope u ≡ returns []
    → repo_is_empty repo ≡ some true
unfolding check_update validate_ref is_base_ref_first_push
check_update_base g repo session account scope u hs b h =
    ground
      (arith, same_iff u.ref (base_ref session), check_ref_namespace_base repo session account hs)

-- The scope of a session that was created with an empty writable_scope lets a commit through, whatever
-- paths it changes, if it has the required trailers; yet the matcher of that scope covers no path.
pub empty_scope_allows :
    (g : Globs) (repo : Repo) (s : Session) (c : Commit)
    → s.writable_scope ≡ []
    → check_required_trailers c.message required_trailers ≡ []
    → (scope_of g s ≡ some [])
      × (validate_commit g repo c [] ≡ [])
      × ((path : Bytes) → match_scope g [] path ≡ false)
unfolding scope_of validate_commit match_scope
empty_scope_allows g repo s c e t = (ground arith, ground arith, λ path. refl)

-- An update of a writable ref whose old hash names no commit and has fewer than 12 bytes makes the check
-- panic instead of rejecting the push.
pub short_sha_panics :
    (repo : Repo) (session account : Bytes) (u : RefUpdate)
    → (check_ref_namespace repo session account u.ref).0 ≡ true
    → u.old_sha ≢ []
    → length u.old_sha < 12
    → repo.commit_object (repo.new_hash u.old_sha) ≡ none
    → validate_ref repo session account u ≡ panics
unfolding validate_ref check_force_push
short_sha_panics repo session account u a n l c = ground (arith, same_iff u.old_sha [])
