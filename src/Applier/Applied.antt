-- ===== src/Applier/Applied.antt =====
-- What applySuccess (outcomes.go) promises, and what it relies on of go-git.
use jamsesh.Prelude.{All, ◌≤◌, length, ◌++◌, [], false, List, some, true, ℕ, ◌∷◌, ◌≡◌}
use jamsesh.Applier.Delivery.{IsCopy, Lossy}
use jamsesh.Applier.Message.{compose_merge_message}
use jamsesh.Applier.Apply.{
  ApplyInput, Circumstances, CommitObject, emit_after_side_effect, failed, Git, merge_succeeded,
  merged, Payload, Portal, Reply,
}
use jamsesh.Events.Log.{Event, Log}
use jamsesh.Go.Strings.{Bytes, codes}

-- What is relied on of go-git: an object that was stored is read back and stays, a reference that was set
-- is there, and neither a stored object nor a refused reference moves the draft.
pub record GitLaws (g : Git) : Type 0 where
  pub stored :
      (s : g.repo.State) (o : CommitObject) (h : ℕ)
      → (g.set_commit s o).0 ≡ some h
      → g.get_commit (g.set_commit s o).1 h ≡ some o
  pub store_keeps_draft :
      (s : g.repo.State) (o : CommitObject) (session : ℕ)
      → g.draft (g.set_commit s o).1 session ≡ g.draft s session
  pub ref_set :
      (s : g.repo.State) (session h : ℕ)
      → (g.set_draft s session h).0 ≡ true
      → g.draft (g.set_draft s session h).1 session ≡ some h
  pub ref_refused :
      (s : g.repo.State) (session h : ℕ)
      → (g.set_draft s session h).0 ≡ false
      → g.draft (g.set_draft s session h).1 session ≡ g.draft s session
  pub ref_keeps_objects :
      (s : g.repo.State) (session h k : ℕ) (o : CommitObject)
      → g.get_commit s k ≡ some o
      → g.get_commit (g.set_draft s session h).1 k ≡ some o

-- The log has gained nothing but events conflict.resolved.
pub record Extended (l l' : Log) : Type 0 where
  pub rest : List Event
  pub rows : l'.db.events ≡ l.db.events ++ rest
  pub few : All (λ e. e.event_type ≡ codes "conflict.resolved") rest

module _ (g : Git) (hex : ℕ → Bytes) (marshal : Payload → ℕ) (sort : List Bytes → List Bytes) where
  -- The draft stands at a commit whose parents are the draft's tip and the source commit, which has the
  -- result's tree and the author of the source commit, and which carries the merge message.
  pub record Advanced (c : Circumstances) (inp : ApplyInput) (tree : ℕ) (p p' : Portal g.repo.State)
      (sha : ℕ) : Type 0 where
    pub source : CommitObject
    pub source_found : g.get_commit p.git inp.source_commit ≡ some source
    pub draft_moved : g.draft p'.git inp.session_id ≡ some sha
    pub object : CommitObject
    pub committed : g.get_commit p'.git sha ≡ some object
    pub parents : object.parent_hashes ≡ inp.draft_tip ∷ inp.source_commit ∷ []
    pub same_tree : object.tree_hash ≡ tree
    pub same_author : object.author ≡ source.author
    pub merge_message :
        object.message
        ≡ compose_merge_message source.message (hex inp.source_commit) inp.source_ref inp.result

  -- The log of `p'` is that of `p`, from one to three rows of the event merge.succeeded with the merge
  -- commit, exactly one if no commit of its transactions is done and yet answers an error, and nothing else
  -- but events conflict.resolved.
  pub record Announced (c : Circumstances) (inp : ApplyInput) (p p' : Portal g.repo.State) (sha : ℕ)
      : Type 0 where
    pub sent : List Event
    pub rest : List Event
    pub rows : p'.log.db.events ≡ p.log.db.events ++ (sent ++ rest)
    pub copies :
        All
          (IsCopy inp.org_id inp.session_id (record {
            event_type = codes "merge.succeeded";
            payload = marshal (merge_succeeded inp.source_commit sha sha);
          }))
          sent
    pub at_least : 1 ≤ length sent
    pub at_most : length sent ≤ 3
    pub once : ¬ Lossy c.emits inp.org_id inp.session_id → length sent ≡ 1
    pub few : All (λ e. e.event_type ≡ codes "conflict.resolved") rest

  -- The ways in which applySuccess ends.
  pub data Applied (c : Circumstances) (inp : ApplyInput) (tree : ℕ) (p p' : Portal g.repo.State)
      : Reply → Type 0 where
    untouched :
        g.draft p'.git inp.session_id ≡ g.draft p.git inp.session_id
        → p'.log ≡ p.log
        → p'.conflict_events ≡ p.conflict_events
        → Applied c inp tree p p' failed
    announced :
        (sha : ℕ)
        → Advanced c inp tree p p' sha
        → Announced c inp p p' sha
        → Applied c inp tree p p' (merged sha)
    unannounced :
        (sha : ℕ) → Advanced c inp tree p p' sha → Applied c inp tree p p' emit_after_side_effect
