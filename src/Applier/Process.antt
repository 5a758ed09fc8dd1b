-- ===== src/Applier/Process.antt =====
-- processEvent and refModeForSession (worker.go): from a commit.arrived event through the merge to Apply.
use jamsesh.Prelude.{◌&&◌, ◌==◌, [], Bool, if◌then◌else◌, List, none, not, Option, some, ℕ, ◌∷◌}
use jamsesh.Applier.Apply.{
  apply, Circumstances, conflicted, emit_after_side_effect, emit_failed, failed, Git, merged,
  Payload, Portal, Reply, with_outcome,
}
use jamsesh.Automerger.Merge.{Change}
use jamsesh.Automerger.Repo.{Tools}
use jamsesh.Automerger.Run.{Commit, merge}
use jamsesh.Automerger.Tree.{Nodes}
use jamsesh.Events.Log.{Event}
use jamsesh.Go.Strings.{Bytes, codes, same}

-- What the pipeline reads of a session's row, and a row of ref_modes.
pub record SessionRow : Type 0 where
  pub org_id : ℕ
  pub id : ℕ
  pub default_mode : Bytes

pub record RefMode : Type 0 where
  pub session_id : ℕ
  pub ref : Bytes
  pub mode : Bytes

-- The tables, and which of the queries fail.
pub record Tables : Type 0 where
  pub sessions : List SessionRow
  pub ref_modes : List RefMode
  pub session_fails : Bool
  pub mode_fails : Bool

unfoldable pub find_session : (org id : ℕ) → List SessionRow → Option SessionRow
find_session org id [] = none
find_session org id (s ∷ ss) =
    if (s.org_id == org) && (s.id == id) then some s else find_session org id ss

unfoldable pub find_mode : (session : ℕ) → (ref : Bytes) → List RefMode → Option RefMode
unfolding same
find_mode session ref [] = none
find_mode session ref (m ∷ ms) =
    if (m.session_id == session) && same m.ref ref then some m else find_mode session ref ms

-- refModeForSession; nothing is an error.
unfoldable pub ref_mode_for_session :
    Tables → (session : ℕ) → (ref default_mode : Bytes) → Option Bytes
unfolding find_mode
ref_mode_for_session t session ref default_mode =
    if t.mode_fails then none else (elim (find_mode session ref t.ref_modes) [
      | none ↦ some default_mode
      | some m ↦ some m.mode
    ])

-- The reads of go-git for the merge: the merge bases, the base's tree, and the diff of two commits' trees;
-- and whether the repository opens.
pub record Reads (g : Git) : Type 0 where
  pub opens : g.repo.State → (session : ℕ) → Bool
  pub merge_base : g.repo.State → (source draft : ℕ) → Option (List Commit)
  pub base_tree : g.repo.State → ℕ → Option Nodes
  pub diff_trees : g.repo.State → (from to : ℕ) → Option (List Change)

-- The payload of a commit.arrived event.
pub record CommitArrived : Type 0 where
  pub ref : Bytes
  pub sha : ℕ

-- What processEvent does about an error of Apply.
unfoldable pub count_failure : {State : Type 0} → Reply × Portal State → Portal State
count_failure (emit_after_side_effect, p) = with_outcome emit_failed p
count_failure (merged sha, p) = p
count_failure (conflicted ev, p) = p
count_failure (failed, p) = p

module _ (g : Git) (hex : ℕ → Bytes) (marshal : Payload → ℕ) (sort : List Bytes → List Bytes)
    (tools : Tools) (reads : Reads g) (decode : ℕ → Option CommitArrived)
    (portal_host : Bytes) where
  -- A commit as the merge takes it.
  unfoldable pub merge_side : g.repo.State → ℕ → Option Commit
  merge_side s h = elim (g.get_commit s h) [
    | none ↦ none
    | some o ↦
        some
          (record { hash = h; tree = if g.has_tree s o.tree_hash then some o.tree_hash else none })
  ]

  -- Steps 7 to 9: the merge base, the merge, and its side effects.
  unfoldable pub merge_and_apply :
      Circumstances
      → SessionRow
      → CommitArrived
      → (source draft : Commit) → Portal g.repo.State
      → Portal g.repo.State
  unfolding merge apply count_failure
  merge_and_apply c row payload source draft p =
      elim (reads.merge_base p.git source.hash draft.hash) [
        | none ↦ p
        | some [] ↦ p
        | some (ancestor ∷ bases) ↦
            (let m =
                merge g.repo tools p.git source draft ancestor (reads.base_tree p.git ancestor.hash)
                  (reads.diff_trees p.git ancestor.hash draft.hash)
                  (reads.diff_trees p.git ancestor.hash source.hash) in
              elim m.0 [
                | none ↦ record p { git = m.1 }
                | some result ↦ count_failure (
                    apply g hex marshal sort c
                      (record {
                        org_id = row.org_id;
                        session_id = row.id;
                        source_ref = payload.ref;
                        source_commit = payload.sha;
                        draft_tip = draft.hash;
                        ancestor = ancestor.hash;
                        result = result;
                        portal_host = portal_host;
                      })
                      (record p { git = m.1 }))
              ])
      ]

  -- Steps 4 to 6: the repository, the source commit and the draft's tip.
  unfoldable pub open_sides :
      Circumstances → SessionRow → CommitArrived → Portal g.repo.State → Portal g.repo.State
  unfolding merge_side merge_and_apply
  open_sides c row payload p =
      if not (reads.opens p.git row.id) then p else (elim (merge_side p.git payload.sha) [
        | none ↦ p
        | some source ↦ (elim (g.draft p.git row.id) [
          | none ↦ p
          | some tip ↦ (elim (merge_side p.git tip) [
            | none ↦ p
            | some draft ↦ merge_and_apply c row payload source draft p
          ])
        ])
      ])

  -- processEvent
  unfoldable pub process_event :
      Circumstances → Tables → Event → Portal g.repo.State → Portal g.repo.State
  unfolding find_session ref_mode_for_session open_sides
  process_event c t e p = elim (decode e.payload) [
    | none ↦ p
    | some payload ↦
        if t.session_fails then p else (elim (find_session e.org_id e.session_id t.sessions) [
          | none ↦ p
          | some row ↦ (elim (ref_mode_for_session t e.session_id payload.ref row.default_mode) [
            | none ↦ p
            | some mode ↦ if same mode (codes "isolated") then p else open_sides c row payload p
          ])
        ])
  ]
