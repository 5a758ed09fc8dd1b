-- ===== src/Prereceive/Refs.antt =====
-- internal/portal/prereceive/refs.go.
use jamsesh.Prelude.{
  [], any, Bool, false, if◌then◌else◌, List, none, not, Option, some, true, ◌||◌, ◌∷◌,
}
use jamsesh.Go.Strings.{Bytes, codes, contains, cut_prefix, same, split_n, to_lower}
use jamsesh.Prereceive.Repo.{
  ◌>>=◌, ancestry_failed, concrete, force_push_rejected, new_commit_unresolved,
  old_commit_unresolved, Outcome, ref_namespace_violation, RefKind, RefUpdate, Rejection, Repo,
  returns, slice_to, symbolic,
}

unfoldable pub ref_segment_safe : Bytes → Bool
unfolding contains to_lower
ref_segment_safe s =
    if contains s (codes "..")
    then false
    else not (contains (to_lower s) (codes "%2e%2e") || contains (to_lower s) (codes "%252e"))

abbrev pub jam_prefix : Bytes
jam_prefix = codes "refs/heads/jam/"

unfoldable pub is_concrete : RefKind → Bool
is_concrete symbolic = false
is_concrete concrete = true

-- repoIsEmpty
unfoldable pub repo_is_empty : Repo → Option Bool
unfolding is_concrete any
repo_is_empty repo = elim repo.references [
  | none ↦ none
  | some refs ↦ some (not (any is_concrete refs))
]

abbrev pub surely : Option Bool → Bool
surely none = false
surely (some b) = b

-- The cases on the parts of the ref behind the prefix: (allowed, is_base).
unfoldable pub check_parts : Repo → Bytes → Bytes → List Bytes → Bool × Bool
unfolding repo_is_empty ref_segment_safe
check_parts repo session account [] = (false, false)
check_parts repo session account (s ∷ []) = (false, false)
check_parts repo session account (s ∷ (owner ∷ [])) =
    if not (same s session)
    then (false, false)
    else if same owner (codes "base")
    then (if surely (repo_is_empty repo) then (true, true) else (false, true))
    else (false, false)
check_parts repo session account (s ∷ (owner ∷ (branch ∷ _))) =
    if not (same s session)
    then (false, false)
    else if not (same owner account)
    then (false, false)
    else if same branch [] || not (ref_segment_safe branch)
    then (false, false)
    else (true, false)

-- checkRefNamespace
unfoldable pub check_ref_namespace : Repo → Bytes → Bytes → Bytes → Bool × Bool
unfolding check_parts split_n cut_prefix
check_ref_namespace repo session account ref = elim (cut_prefix ref jam_prefix) [
  | none ↦ (false, false)
  | some rest ↦ check_parts repo session account (split_n b'/' rest 3)
]

-- checkForcePush: `none` accepts.
unfoldable pub check_force_push : Repo → RefUpdate → Bool → Outcome (Option Rejection)
check_force_push repo u is_base = elim (repo.commit_object (repo.new_hash u.old_sha)) [
  | none ↦ slice_to u.old_sha 12 (some (old_commit_unresolved u.ref u.old_sha))
  | some old ↦ elim (repo.commit_object (repo.new_hash u.new_sha)) [
    | none ↦ slice_to u.new_sha 12 (some (new_commit_unresolved u.ref u.new_sha))
    | some new ↦ elim (repo.is_ancestor old new) [
      | none ↦ returns (some (ancestry_failed u.ref u.old_sha u.new_sha))
      | some true ↦ returns none
      | some false ↦ do
        r ← slice_to u.old_sha 12 (force_push_rejected u.ref u.old_sha u.new_sha is_base)
        slice_to u.new_sha 12 (some r)
    ]
  ]
]

abbrev pub option_to_list {ℓ} : {A : Type ℓ} → Option A → List A
option_to_list none = []
option_to_list (some a) = a ∷ []

-- ValidateRef
unfoldable pub validate_ref : Repo → Bytes → Bytes → RefUpdate → Outcome (List Rejection)
unfolding check_ref_namespace check_force_push
validate_ref repo session account u =
    let (allowed, is_base) = check_ref_namespace repo session account u.ref in
    if not allowed
    then returns (ref_namespace_violation u.ref session account ∷ [])
    else if same u.old_sha []
    then returns []
    else (check_force_push repo u is_base >>= λ r. returns (option_to_list r))
