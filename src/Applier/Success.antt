-- ===== src/Applier/Success.antt =====
-- What a clean merge or a safe resolution leaves behind Apply (outcomes.go).
use jamsesh.Prelude.{
  ◌++◌, ◌==◌, [], ap, arith, Bool, Bool-cases, inl, inr, List, not, Option-cases, refl, some, sym,
  true, ◌||◌, ℕ, ◌∙◌, ◌≡◌,
}
use jamsesh.Applier.Apply.{
  advance_draft, apply_success, ApplyInput, Circumstances, close_conflict, close_emit_failed,
  close_failed, closed, Closure, CommitObject, conflict_resolved, emit_after_side_effect,
  emit_failed, emit_payload, get_event, Git, ignored, is_unsettled, merge_commit, merge_succeeded,
  merged, Payload, Portal, Reply, succeeded, try_resolve_conflict, with_outcome,
}
use jamsesh.Applier.Delivery.{All-map, count, Delivery, emit_with_retry-Delivery, IsCopy, Lossy}
use jamsesh.Applier.Emit.{emit_with_retry}
use jamsesh.Applier.Message.{resolves_conflict}
use jamsesh.Events.Log.{DraftEvent, Log}
use jamsesh.Go.Strings.{Bytes, codes}
use jamsesh.Applier.Applied.{
  Advanced, Announced, announced, Applied, Extended, GitLaws, unannounced, untouched,
}
use mathlib.Core.List.{append-nil, append_assoc}

same-Extended : (l : Log) → Extended l l
same-Extended l = record { rest = []; rows = sym (append-nil l.db.events); few = tt }

Delivery-Extended :
    (lossy : Type 0) (left org session n : ℕ) (l : Log) (b : Bool) (l' : Log)
    → Delivery lossy left org session
        (record { event_type = codes "conflict.resolved"; payload = n })
        l
        b
        l'
    → Extended l l'
Delivery-Extended lossy left org session n l b l' v = record {
  rest = v.sent;
  rows = v.rows;
  few =
      All-map (IsCopy org session (record { event_type = codes "conflict.resolved"; payload = n }))
        (λ e. e.event_type ≡ codes "conflict.resolved") (λ e k. k.row_type) v.sent v.copies;
}

module _ (g : Git) (hex : ℕ → Bytes) (marshal : Payload → ℕ) (sort : List Bytes → List Bytes) where
  -- Behind the event the repository stays, and the reply is one of two.
  data Closed (sha : ℕ) (q : Portal g.repo.State) : Reply → Portal g.repo.State → Type 0 where
    as_merged :
        (p : Portal g.repo.State)
        → p.git ≡ q.git
        → Extended q.log p.log
        → Closed sha q (merged sha) p
    as_failed : (p : Portal g.repo.State) → p.git ≡ q.git → Closed sha q emit_after_side_effect p

  try_git :
      (c : Circumstances) (inp : ApplyInput) (event_id : Bytes) (sha : ℕ) (p : Portal g.repo.State)
      → (try_resolve_conflict g hex marshal sort c inp event_id sha p).1.git ≡ p.git
  unfolding try_resolve_conflict emit_payload
  try_git c inp event_id sha p = elim (Option-cases (get_event event_id p.conflict_events)) [
    | inl y ↦ ground (arith, y)
    | inr (ev, y) ↦ ground (arith, y)
  ]

  try_log :
      (c : Circumstances) (inp : ApplyInput) (event_id : Bytes) (sha : ℕ) (p : Portal g.repo.State)
      → Extended p.log (try_resolve_conflict g hex marshal sort c inp event_id sha p).1.log
  unfolding try_resolve_conflict emit_payload
  try_log c inp event_id sha p = elim (Bool-cases c.get_fails) [
    | inl x ↦ rw (try_resolve_conflict, x) (same-Extended p.log)
    | inr x ↦ (elim (Option-cases (get_event event_id p.conflict_events)) [
      | inl y ↦ rw (try_resolve_conflict, x, y) (same-Extended p.log)
      | inr (ev, y) ↦
          (elim (Bool-cases
            (not (ev.session_id == inp.session_id) || not (is_unsettled ev.status))) [
              | inl z ↦ rw (try_resolve_conflict, x, y, z) (same-Extended p.log)
              | inr z ↦ (elim (Bool-cases c.mark_fails) [
                | inl w ↦ rw (try_resolve_conflict, x, y, z, w) (same-Extended p.log)
                | inr w ↦
                    (let n = marshal (conflict_resolved event_id sha) in
                      let d : DraftEvent = record {
                        event_type = codes "conflict.resolved";
                        payload = n;
                      } in
                      let r = emit_with_retry c.emits_resolved inp.org_id inp.session_id d p.log in
                      rw (try_resolve_conflict, x, y, z, w)
                        (Delivery-Extended (Lossy c.emits_resolved inp.org_id inp.session_id) 3
                          inp.org_id inp.session_id n p.log r.0 r.1
                          (emit_with_retry-Delivery c.emits_resolved inp.org_id inp.session_id d
                            p.log)))
              ])
            ])
    ])
  ]

  close-Closed :
      (c : Circumstances) (inp : ApplyInput) (message : Bytes) (sha : ℕ) (p : Portal g.repo.State)
      → let r = close_conflict g hex marshal sort c inp message sha p in Closed sha p r.0 r.1
  unfolding close_conflict
  close-Closed c inp message sha p = elim (Option-cases (resolves_conflict message)) [
    | inl x ↦
        rw (close_conflict, x) (as_merged (with_outcome succeeded p) refl (same-Extended p.log))
    | inr (event_id, x) ↦
        rw (close_conflict, x)
          (replies (try_resolve_conflict g hex marshal sort c inp event_id sha p)
            (try_git c inp event_id sha p) (try_log c inp event_id sha p))
  ]
    where
      replies :
          (r : Closure × Portal g.repo.State)
          → r.1.git ≡ p.git
          → Extended p.log r.1.log
          → let q : Reply × Portal g.repo.State = elim r.0 [
            | close_emit_failed ↦ (emit_after_side_effect, with_outcome emit_failed r.1)
            | _ ↦ (merged sha, with_outcome succeeded r.1)
          ] in
            Closed sha p q.0 q.1
      replies (closed, q) e x = as_merged (with_outcome succeeded q) e x
      replies (ignored, q) e x = as_merged (with_outcome succeeded q) e x
      replies (close_failed, q) e x = as_merged (with_outcome succeeded q) e x
      replies (close_emit_failed, q) e x = as_failed (with_outcome emit_failed q) e

  module _ (laws : GitLaws g) where
    Delivery-Announced :
        (c : Circumstances) (inp : ApplyInput) (sha : ℕ) (p q : Portal g.repo.State) (b : Bool)
        (l' : Log)
        → Delivery
            (Lossy c.emits inp.org_id inp.session_id)
            3
            inp.org_id
            inp.session_id
            (record {
              event_type = codes "merge.succeeded";
              payload = marshal (merge_succeeded inp.source_commit sha sha);
            })
            p.log
            b
            l'
        → b ≡ true
        → Extended l' q.log
        → Announced g hex marshal sort c inp p q sha
    Delivery-Announced c inp sha p q b l' v e x = record {
      sent = v.sent;
      rest = x.rest;
      rows = x.rows ∙ ap (λ u. u ++ x.rest) v.rows ∙ append_assoc p.log.db.events v.sent x.rest;
      copies = v.copies;
      at_least = v.at_least e;
      at_most = v.at_most;
      once = λ n. v.once n ∙ ap count e;
      few = x.few;
    }

    Closed-Applied :
        (c : Circumstances) (inp : ApplyInput) (tree sha : ℕ) (p q : Portal g.repo.State)
        (r : Reply) (p' : Portal g.repo.State)
        → Closed sha q r p'
        → ((u : Portal g.repo.State)
            → u.git ≡ q.git
            → Advanced g hex marshal sort c inp tree p u sha)
        → ((u : Portal g.repo.State)
            → Extended q.log u.log
            → Announced g hex marshal sort c inp p u sha)
        → Applied g hex marshal sort c inp tree p p' r
    Closed-Applied c inp tree sha p q _ _ (as_merged p' e x) v a = announced sha (v p' e) (a p' x)
    Closed-Applied c inp tree sha p q _ _ (as_failed p' e) v a = unannounced sha (v p' e)

    -- From the stored merge commit on.
    advance-Applied :
        (c : Circumstances) (inp : ApplyInput) (tree sha : ℕ) (source : CommitObject)
        (p : Portal g.repo.State) (git1 : g.repo.State)
        → g.get_commit p.git inp.source_commit ≡ some source
        → g.draft git1 inp.session_id ≡ g.draft p.git inp.session_id
        → g.get_commit git1 sha ≡ some (merge_commit g hex marshal sort c inp source tree)
        → let r =
            advance_draft g hex marshal sort c inp source.message sha (record p { git = git1 }) in
          Applied g hex marshal sort c inp tree p r.1 r.0
    unfolding advance_draft emit_payload
    advance-Applied c inp tree sha source p git1 found draft stored =
        let s = g.set_draft git1 inp.session_id sha in
        let tries =
          emit_with_retry-Delivery c.emits inp.org_id inp.session_id
            (record {
              event_type = codes "merge.succeeded";
              payload = marshal (merge_succeeded inp.source_commit sha sha);
            })
            p.log in
        let r =
          emit_payload g hex marshal sort c.emits inp (codes "merge.succeeded")
            (merge_succeeded inp.source_commit sha sha) (record p { git = s.1 }) in
        elim (Bool-cases s.0) [
          | inr x ↦
              rw (advance_draft, x)
                (untouched (laws.ref_refused git1 inp.session_id sha x ∙ draft) refl refl)
          | inl x ↦
              (let v : (q : Portal g.repo.State)
                    → q.git ≡ s.1
                    → Advanced g hex marshal sort c inp tree p q sha =
                  λ q e. record {
                    source = source;
                    source_found = found;
                    draft_moved =
                        ap (λ u. g.draft u inp.session_id) e
                        ∙ laws.ref_set git1 inp.session_id sha x;
                    object = merge_commit g hex marshal sort c inp source tree;
                    committed =
                        ap (λ u. g.get_commit u sha) e
                        ∙ laws.ref_keeps_objects git1 inp.session_id sha sha
                            (merge_commit g hex marshal sort c inp source tree) stored;
                    parents = unfold merge_commit in refl;
                    same_tree = unfold merge_commit in refl;
                    same_author = unfold merge_commit in refl;
                    merge_message = unfold merge_commit in refl;
                  } in
                elim (Bool-cases r.0) [
                  | inr y ↦ rw (advance_draft, x, y) (unannounced sha (v r.1 refl))
                  | inl y ↦
                      rw (advance_draft, x, y)
                        (let k = close_conflict g hex marshal sort c inp source.message sha r.1 in
                          Closed-Applied c inp tree sha p r.1 k.0 k.1
                            (close-Closed c inp source.message sha r.1) v
                            (λ u x. Delivery-Announced c inp sha p u r.0 r.1.log tries y x))
                ])
        ]

    success-Applied :
        (c : Circumstances) (inp : ApplyInput) (tree : ℕ) (p : Portal g.repo.State)
        → let r = apply_success g hex marshal sort c inp tree p in
          Applied g hex marshal sort c inp tree p r.1 r.0
    unfolding apply_success
    success-Applied c inp tree p = elim (Option-cases (g.get_commit p.git inp.source_commit)) [
      | inl x ↦ rw (apply_success, x) (untouched refl refl refl)
      | inr (source, x) ↦ (elim (Bool-cases (g.has_tree p.git tree)) [
        | inr y ↦ rw (apply_success, x, y) (untouched refl refl refl)
        | inl y ↦
            (let o = merge_commit g hex marshal sort c inp source tree in
              let s = g.set_commit p.git o in
              let d = laws.store_keeps_draft p.git o inp.session_id in
              elim (Option-cases s.0) [
                | inl z ↦ rw (apply_success, x, y, z) (untouched d refl refl)
                | inr (sha, z) ↦
                    rw (apply_success, x, y, z)
                      (advance-Applied c inp tree sha source p s.1 x d (laws.stored p.git o sha z))
              ])
      ])
    ]

-- applySuccess ends in one of three ways: with an error that has left the draft, the log and the conflict
-- events as they were; with the hash of the merge commit, which is then the draft of the session, has the
-- draft's tip and the source commit as parents, the result's tree and the source's author, and is announced
-- by events merge.succeeded, one to three of them and exactly one unless a commit of the log is done and
-- yet answers an error, behind which the log has only conflict.resolved; or with ErrEmitAfterSideEffect,
-- and then too the draft stands at that merge commit. It relies on the laws of go-git's storage.
pub apply_success-Applied :
    (g : Git) (hex : ℕ → Bytes) (marshal : Payload → ℕ) (sort : List Bytes → List Bytes)
    (laws : GitLaws g) (c : Circumstances) (inp : ApplyInput) (tree : ℕ) (p : Portal g.repo.State)
    → let r = apply_success g hex marshal sort c inp tree p in
      Applied g hex marshal sort c inp tree p r.1 r.0
apply_success-Applied g hex marshal sort laws c inp tree p =
    success-Applied g hex marshal sort laws c inp tree p
