-- ===== src/Prereceive/Acceptance.antt =====
-- What a push that Validate lets through is known to satisfy (validate.go, refs.go, commits.go).
use jamsesh.Prereceive.Accepted.{CommitOk}
use jamsesh.Prelude.{
  ◌+ℤ◌, refl, pos, ◌≤ℤ◌, ◌≢◌, ◌⊎◌, [], All, Bool, false, List, refl, some, true, ◌≡◌,
}
use jamsesh.Go.Strings.{codes, Bytes}
use jamsesh.Prereceive.Commits.{collect, stop_of}
use jamsesh.Prereceive.Namespace.{base_ref, Writable}
use jamsesh.Prereceive.Repo.{Commit, Globs, RefUpdate, Repo}
use jamsesh.Prereceive.Validate.{repo_dir_size, Session, ValidateInput, Validator}

-- An update that WalkAndValidate passes: the commits of the walk, up to the old tip, are all right.
pub record Walked (g : Globs) (repo : Repo) (scope : List Bytes) (u : RefUpdate) : Type 0 where
  pub logged : List Commit
  pub failed : Bool
  pub commits : List Commit
  pub log_eq : repo.log (repo.new_hash u.new_sha) ≡ some (logged, failed)
  pub collect_eq : collect (stop_of g repo u) logged failed ≡ (commits, false)
  pub commits_ok : All (CommitOk g repo scope) commits

-- An update that ValidateRef passes: the ref is writable, and an existing ref moves forward only.
pub record RefOk (repo : Repo) (session account : Bytes) (u : RefUpdate) : Type 0 where
  pub allowed : Writable repo session account u.ref
  pub forward :
      (u.old_sha ≡ [])
      ⊎ ((old : Commit) × (new : Commit) × (repo.commit_object (repo.new_hash u.old_sha) ≡ some old)
          × (repo.commit_object (repo.new_hash u.new_sha) ≡ some new)
          × (repo.is_ancestor old new ≡ some true))

-- What an accepted push guarantees of each of its updates. The inaugural push of the base ref is not
-- walked.
pub record UpdateOk (g : Globs) (repo : Repo) (session account : Bytes) (scope : List Bytes)
    (u : RefUpdate) : Type 0 where
  pub ref_ok : RefOk repo session account u
  pub walked : ((u.old_sha ≡ []) × (u.ref ≡ base_ref session)) ⊎ Walked g repo scope u

-- The pack is within the limit, if there is one.
abbrev pub PackFits : Validator → ValidateInput → Type 0
PackFits v inp = (v.max_pack_bytes ≤ℤ pos 0) ⊎ (inp.pack_bytes ≤ℤ v.max_pack_bytes)

-- What the directory of the repository holds, with the pack, is within the playground's limit, if the
-- session is of the playground and there is one.
abbrev pub ContentFits : Validator → ValidateInput → Session → Type 0
ContentFits v inp s =
    (s.org_id ≢ codes "org_playground")
    ⊎ ((v.playground_max_content_bytes ≤ℤ pos 0)
        ⊎ ((pos (repo_dir_size inp.repo_path inp.walk) +ℤ inp.pack_bytes)
            ≤ℤ v.playground_max_content_bytes))
