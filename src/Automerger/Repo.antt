-- ===== src/Automerger/Repo.antt =====
-- What the merge (merge.go) uses of a repository and of the tools it starts: parameters. A hash is a number,
-- 0 the zero hash.
use jamsesh.Prelude.{List, Option, some, ℕ, ℤ, ◌≡◌}
use jamsesh.Automerger.Diff.{DiffRun}
use jamsesh.Go.Strings.{Bytes}

-- An entry of a tree object.
pub record Child : Type 0 where
  pub name : Bytes
  pub hash : ℕ
  pub mode : ℕ

-- The object store: a read finds a blob or fails; a write answers the hash or fails.
pub record Repo : Type 1 where
  pub State : Type 0
  pub read_blob : State → ℕ → Option Bytes
  pub write_blob : State → Bytes → Option ℕ × State
  pub write_tree : State → List Child → Option ℕ × State

-- `git merge-file` on base, ours and theirs, with its output and exit code, and `diff -u`. Nothing if the
-- tool did not run.
pub record Tools : Type 0 where
  pub merge_file : (base ours theirs : Bytes) → Option (Bytes × ℤ)
  pub diff : (base other : Bytes) → Option DiffRun

-- What a store does: a blob that was written can be read, and stays.
pub record RepoLaws (r : Repo) : Type 0 where
  pub written :
      (s : r.State) (b : Bytes) (h : ℕ)
      → (r.write_blob s b).0 ≡ some h
      → r.read_blob (r.write_blob s b).1 h ≡ some b
  pub kept :
      (s : r.State) (b : Bytes) (h : ℕ) (c : Bytes)
      → r.read_blob s h ≡ some c
      → r.read_blob (r.write_blob s b).1 h ≡ some c
