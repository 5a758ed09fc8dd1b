-- ===== src/Prereceive/Repo.antt =====
-- The policy checks' inputs, and what they ask of code that is not part of the repository: go-git's
-- repository, doublestar's globs and the JSON decoder.
use jamsesh.Prelude.{Bool, if◌then◌else◌, length, List, ltb, Option, ℕ}
use jamsesh.Go.Strings.{Bytes}

pub data RefKind : Type 0 where
  symbolic concrete : RefKind

-- A commit, as far as the checks look at it. Its hash is a number.
pub record Commit : Type 0 where
  pub hash : ℕ
  pub message : Bytes
  pub num_parents : ℕ

-- A changed path: the names before and after, empty for an added and a deleted file.
pub record Change : Type 0 where
  pub from : Bytes
  pub to : Bytes

-- `none` is an error of the call.
pub record Repo : Type 1 where
  pub Tree : Type 0
  pub new_hash : Bytes → ℕ
  pub references : Option (List RefKind)
  pub commit_object : ℕ → Option Commit
  pub is_ancestor : Commit → Commit → Option Bool
  -- repo.Log: the commits in the order of the walk, and whether the walk ends by an error.
  pub log : ℕ → Option (List Commit × Bool)
  pub tree_of : Commit → Option Tree
  pub first_parent : Commit → Option Commit
  pub diff_tree : Option Tree → Tree → Option (List Change)

pub record Globs : Type 0 where
  pub validate_pattern : Bytes → Bool
  pub match_path : Bytes → Bytes → Option Bool
  pub unmarshal : Bytes → Option (List Bytes)

pub record RefUpdate : Type 0 where
  pub ref : Bytes
  pub old_sha : Bytes
  pub new_sha : Bytes

-- Rejections by their code and details; the message is left out.
pub data Rejection : Type 0 where
  ref_namespace_violation : (ref session account : Bytes) → Rejection
  old_commit_unresolved : (ref old_sha : Bytes) → Rejection
  new_commit_unresolved : (ref new_sha : Bytes) → Rejection
  ancestry_failed : (ref old_sha new_sha : Bytes) → Rejection
  force_push_rejected : (ref old_sha new_sha : Bytes) (is_base : Bool) → Rejection
  walk_failed : (ref new_sha : Bytes) → Rejection
  iteration_failed : (ref : Bytes) → Rejection
  missing_trailer : (commit : ℕ) (missing : List Bytes) → Rejection
  scope_violation : (commit : ℕ) (paths : List Bytes) → Rejection
  size_limit : Rejection
  playground_size_exceeded : Rejection

-- The outcome of a call that may panic.
pub data Outcome {ℓ} (A : Type ℓ) : Type ℓ where
  returns : A → Outcome A
  panics : Outcome A

infixl 5 ◌>>=◌
abbrev pub ◌>>=◌ {ℓ κ} : {A : Type ℓ} {B : Type κ} → Outcome A → (A → Outcome B) → Outcome B
returns a >>= f = f a
panics >>= f = panics

-- `s[:n]` panics where `s` is shorter.
abbrev pub slice_to {ℓ} : {A : Type ℓ} → Bytes → ℕ → A → Outcome A
slice_to s n a = if ltb (length s) n then panics else returns a
