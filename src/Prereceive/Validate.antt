-- ===== src/Prereceive/Validate.antt =====
-- internal/portal/prereceive/validate.go, size.go and playground_caps.go. A size is an int64, taken here
-- as an integer: the sums of sizes are far below 2^63.
use jamsesh.Prelude.{
  ◌&&◌, ◌+◌, ◌++◌, ◌+ℤ◌, [], Bool, if◌then◌else◌, List, ltb_ℤ, none, not, Option, pos, some, ℕ, ℤ,
  ◌∷◌,
}
use jamsesh.Go.Strings.{Bytes, codes, same}
use jamsesh.Prereceive.Commits.{walk_and_validate}
use jamsesh.Prereceive.Refs.{jam_prefix, option_to_list, validate_ref}
use jamsesh.Prereceive.Repo.{
  ◌>>=◌, Globs, Outcome, panics, playground_size_exceeded, RefUpdate, Rejection, Repo, returns,
  size_limit,
}
use jamsesh.Prereceive.Scope.{compile_scope, parse_writable_scope}
use mathlib.Core.List.{[]}

pub record Validator : Type 0 where
  pub max_pack_bytes : ℤ
  pub playground_max_content_bytes : ℤ

pub record Session : Type 0 where
  pub id : Bytes
  pub org_id : Bytes
  pub writable_scope : Bytes

-- A directory entry of the walk: `none` where its size cannot be read.
pub record Entry : Type 0 where
  pub is_dir : Bool
  pub size : Option ℕ

pub record ValidateInput : Type 1 where
  pub repo : Repo
  pub session : Option Session
  pub account_id : Bytes
  pub updates : List RefUpdate
  pub pack_bytes : ℤ
  pub repo_path : Bytes
  -- What the walk of `repo_path` finds, `none` where it fails.
  pub walk : Option (List Entry)

-- CheckPackSize: `none` lets the pack through.
unfoldable pub check_pack_size : ℤ → ℤ → Option Rejection
check_pack_size pack_bytes max_bytes =
    if not (ltb_ℤ (pos 0) max_bytes)
    then none
    else if ltb_ℤ max_bytes pack_bytes
    then some size_limit
    else none

total_size : List Entry → ℕ
total_size [] = 0
total_size (e ∷ es) =
    (if e.is_dir then 0 else (elim e.size [ none ↦ 0 | some n ↦ n ])) + total_size es

unfoldable pub repo_dir_size : Bytes → Option (List Entry) → ℕ
unfolding total_size
repo_dir_size [] walk = 0
repo_dir_size (c ∷ path) none = 0
repo_dir_size (c ∷ path) (some es) = total_size es

abbrev pub reserved_playground_org_id : Bytes
reserved_playground_org_id = codes "org_playground"

-- CheckPlaygroundCaps
unfoldable pub check_playground_caps : Validator → ValidateInput → Option Session → Option Rejection
check_playground_caps v inp none = none
check_playground_caps v inp (some s) =
    if not (same s.org_id reserved_playground_org_id)
    then none
    else if not (ltb_ℤ (pos 0) v.playground_max_content_bytes)
    then none
    else if ltb_ℤ v.playground_max_content_bytes
        (pos (repo_dir_size inp.repo_path inp.walk) +ℤ inp.pack_bytes)
    then some playground_size_exceeded
    else none

unfoldable pub is_base_ref_first_push : Bytes → RefUpdate → Bool
is_base_ref_first_push session u =
    same u.old_sha [] && same u.ref (jam_prefix ++ session ++ codes "/base")

-- The result of Validate: an error, or the rejections, none for a push that is let through.

pub data Verdict : Type 0 where
  internal_failure : Verdict
  verdict : List Rejection → Verdict

module _ (g : Globs) where
  -- The body of the loop over the updates.
  unfoldable pub check_update :
      Repo → Bytes → Bytes → List Bytes → RefUpdate → Outcome (List Rejection)
  unfolding validate_ref walk_and_validate is_base_ref_first_push
  check_update repo session account scope u = validate_ref repo session account u >>= λ rejections.
      returns (
        rejections
        ++ (if is_base_ref_first_push session u then [] else walk_and_validate g repo u scope))

  unfoldable pub check_updates :
      Repo → Bytes → Bytes → List Bytes → List RefUpdate → Outcome (List Rejection)
  unfolding check_update
  check_updates repo session account scope [] = returns []
  check_updates repo session account scope (u ∷ us) =
      check_update repo session account scope u >>= λ first.
      check_updates repo session account scope us >>= λ rest. returns (first ++ rest)

  unfoldable pub scope_of : Session → Option (List Bytes)
  unfolding compile_scope parse_writable_scope
  scope_of s = elim (parse_writable_scope g s.writable_scope) [
    | none ↦ none
    | some globs ↦ compile_scope g globs
  ]

  unfoldable pub validate_session : Validator → ValidateInput → Session → Outcome Verdict
  unfolding scope_of
  validate_session v inp s = elim (scope_of s) [
    | none ↦ returns internal_failure
    | some scope ↦ check_updates inp.repo s.id inp.account_id scope inp.updates >>= λ rejections.
        returns (
          verdict (
            option_to_list (check_pack_size inp.pack_bytes v.max_pack_bytes)
            ++ (rejections ++ option_to_list (check_playground_caps v inp (some s)))))
  ]

  unfoldable pub validate : Validator → ValidateInput → Outcome Verdict
  unfolding validate_session
  validate v inp = elim inp.session [ none ↦ panics | some s ↦ validate_session v inp s ]
