-- ===== src/Applier/Closing.antt =====
-- Which conflict events Apply (outcomes.go) changes.
use jamsesh.Prelude.{
  ◌&&◌, ◌++◌, ◌==◌, [], ap, arith, Bool, Bool-cases, false, inl, inr, List, not, Option-cases, some,
  subst, true, ◌||◌, ℕ, ◌∷◌, ◌≡◌,
}
use jamsesh.Applier.Apply.{
  advance_draft, apply, apply_conflict, apply_success, ApplyInput, Circumstances, close_conflict,
  close_emit_failed, close_failed, closed, Closure, conflict_detected, ConflictEvent,
  emit_after_side_effect, emit_failed, emit_payload, get_event, Git, ignored, insert_conflict,
  is_unsettled, mark_resolved, merge_commit, merge_succeeded, merged, new_conflict, Payload, Portal,
  Reply, succeeded, try_resolve_conflict, with_outcome,
}
use jamsesh.Applier.Message.{resolves_conflict}
use jamsesh.Automerger.Merge.{Conflict}
use jamsesh.Automerger.Run.{clean_merge, hard_conflict, MergeResult, safe_auto_resolve}
use jamsesh.Go.Strings.{Bytes, codes, is_some, same}

-- A row that MarkConflictEventResolved passes over.
abbrev passed_over : ℕ → ConflictEvent → Bool
passed_over session c = not (c.session_id == session) || not (is_unsettled c.status)

get-mark_kept :
    (key id : Bytes) (session sha now : ℕ) (cs : List ConflictEvent) (c : ConflictEvent)
    → get_event key cs ≡ some c
    → passed_over session c ≡ true
    → get_event key (mark_resolved id session sha now cs) ≡ some c
unfolding get_event mark_resolved
get-mark_kept key id session sha now [] c h k = h
get-mark_kept key id session sha now (d ∷ cs) c h k = elim (Bool-cases (same d.id key)) [
  | inl x ↦
      (let e : d ≡ c = ground (arith, h, x) in
        let g : (same d.id id && (d.session_id == session) && is_unsettled d.status) ≡ false =
          ground (arith, k, e) in
        rw (g, x) (ap some e))
  | inr x ↦
      (let rest = get-mark_kept key id session sha now cs c (ground (arith, h, x)) k in
        elim (Bool-cases (same d.id id && (d.session_id == session) && is_unsettled d.status)) [
          | inl y ↦ rw (y, x) rest
          | inr y ↦ rw (y, x) rest
        ])
]

get-append :
    (key : Bytes) (cs ds : List ConflictEvent) (c : ConflictEvent)
    → get_event key cs ≡ some c
    → get_event key (cs ++ ds) ≡ some c
unfolding get_event
get-append key [] ds c h = cc
get-append key (d ∷ cs) ds c h = ground (arith, h, get-append key cs ds c)

insert_kept :
    (key : Bytes) (new : ConflictEvent) (cs rows : List ConflictEvent) (c : ConflictEvent)
    → insert_conflict new cs ≡ some rows
    → get_event key cs ≡ some c
    → get_event key rows ≡ some c
unfolding insert_conflict
insert_kept key new cs rows c e h = elim (Bool-cases (is_some (get_event new.id cs))) [
  | inl x ↦ absurd (ground (arith, e, x))
  | inr x ↦
      (let q : cs ++ new ∷ [] ≡ rows = ground (arith, e, x) in
        subst (λ r. get_event key r ≡ some c) q (get-append key cs (new ∷ []) c h))
]

-- The rows of the table that are not open or belong to another session, before and after.
abbrev Spared : {State : Type 0} → ℕ → Portal State → Portal State → Type 0
Spared session p p' =
    (key : Bytes) (c : ConflictEvent)
    → get_event key p.conflict_events ≡ some c
    → passed_over session c ≡ true
    → get_event key p'.conflict_events ≡ some c

module _ (g : Git) (hex : ℕ → Bytes) (marshal : Payload → ℕ) (sort : List Bytes → List Bytes) where
  try_resolve-Spared :
      (c : Circumstances) (inp : ApplyInput) (event_id : Bytes) (sha : ℕ) (p : Portal g.repo.State)
      → Spared inp.session_id p (try_resolve_conflict g hex marshal sort c inp event_id sha p).1
  unfolding try_resolve_conflict emit_payload
  try_resolve-Spared c inp event_id sha p key row h k = elim (Bool-cases c.get_fails) [
    | inl x ↦ rw (try_resolve_conflict, x) h
    | inr x ↦ (elim (Option-cases (get_event event_id p.conflict_events)) [
      | inl y ↦ rw (try_resolve_conflict, x, y) h
      | inr (ev, y) ↦
          (elim (Bool-cases
            (not (ev.session_id == inp.session_id) || not (is_unsettled ev.status))) [
              | inl z ↦ rw (try_resolve_conflict, x, y, z) h
              | inr z ↦ (elim (Bool-cases c.mark_fails) [
                | inl w ↦ rw (try_resolve_conflict, x, y, z, w) h
                | inr w ↦
                    rw (try_resolve_conflict, x, y, z, w)
                      (get-mark_kept key event_id inp.session_id sha c.now p.conflict_events row h
                        k)
              ])
            ])
    ])
  ]

  close-Spared :
      (c : Circumstances) (inp : ApplyInput) (message : Bytes) (sha : ℕ) (p : Portal g.repo.State)
      → Spared inp.session_id p (close_conflict g hex marshal sort c inp message sha p).1
  unfolding close_conflict
  close-Spared c inp message sha p key row h k = elim (Option-cases (resolves_conflict message)) [
    | inl x ↦ rw (close_conflict, x) h
    | inr (event_id, x) ↦
        rw (close_conflict, x)
          (replies (try_resolve_conflict g hex marshal sort c inp event_id sha p)
            (try_resolve-Spared c inp event_id sha p key row h k))
  ]
    where
      replies :
          (r : Closure × Portal g.repo.State)
          → get_event key r.1.conflict_events ≡ some row
          → get_event key
              (let q : Reply × Portal g.repo.State = elim r.0 [
                | close_emit_failed ↦ (emit_after_side_effect, with_outcome emit_failed r.1)
                | _ ↦ (merged sha, with_outcome succeeded r.1)
              ] in
                q).1.conflict_events
            ≡ some row
      replies (closed, q) e = e
      replies (ignored, q) e = e
      replies (close_failed, q) e = e
      replies (close_emit_failed, q) e = e

  advance-Spared :
      (c : Circumstances) (inp : ApplyInput) (message : Bytes) (sha : ℕ) (p : Portal g.repo.State)
      → Spared inp.session_id p (advance_draft g hex marshal sort c inp message sha p).1
  unfolding advance_draft emit_payload
  advance-Spared c inp message sha p key row h k =
      let s = g.set_draft p.git inp.session_id sha in
      let r =
        emit_payload g hex marshal sort c.emits inp (codes "merge.succeeded")
          (merge_succeeded inp.source_commit sha sha) (record p { git = s.1 }) in
      elim (Bool-cases s.0) [
        | inr x ↦ rw (advance_draft, x) h
        | inl x ↦ (elim (Bool-cases r.0) [
          | inr y ↦ rw (advance_draft, x, y) h
          | inl y ↦ rw (advance_draft, x, y) (close-Spared c inp message sha r.1 key row h k)
        ])
      ]

  success-Spared :
      (c : Circumstances) (inp : ApplyInput) (tree : ℕ) (p : Portal g.repo.State)
      → Spared inp.session_id p (apply_success g hex marshal sort c inp tree p).1
  unfolding apply_success
  success-Spared c inp tree p key row h k =
      elim (Option-cases (g.get_commit p.git inp.source_commit)) [
        | inl x ↦ rw (apply_success, x) h
        | inr (source, x) ↦ (elim (Bool-cases (g.has_tree p.git tree)) [
          | inr y ↦ rw (apply_success, x, y) h
          | inl y ↦
              (let s = g.set_commit p.git (merge_commit g hex marshal sort c inp source tree) in
                elim (Option-cases s.0) [
                  | inl z ↦ rw (apply_success, x, y, z) h
                  | inr (sha, z) ↦
                      rw (apply_success, x, y, z)
                        (advance-Spared c inp source.message sha (record p { git = s.1 }) key row h
                          k)
                ])
        ])
      ]

  conflict-Spared :
      (c : Circumstances) (inp : ApplyInput) (conflicts : List Conflict) (p : Portal g.repo.State)
      → Spared inp.session_id p (apply_conflict g hex marshal sort c inp conflicts p).1
  unfolding apply_conflict emit_payload
  conflict-Spared c inp conflicts p key row h k =
      let ev = new_conflict g hex marshal sort c inp conflicts p in
      elim (Bool-cases c.insert_fails) [
        | inl x ↦ rw (apply_conflict, x) h
        | inr x ↦ (elim (Option-cases (insert_conflict ev p.conflict_events)) [
          | inl y ↦ rw (apply_conflict, x, y) h
          | inr (rows, y) ↦
              (let e = insert_kept key ev p.conflict_events rows row y h in
                let r =
                  emit_payload g hex marshal sort c.emits inp (codes "conflict.detected")
                    (conflict_detected ev) (record p { conflict_events = rows }) in
                elim (Bool-cases r.0) [
                  | inr z ↦ rw (apply_conflict, x, y, z) e
                  | inl z ↦ (elim (Bool-cases c.refetch_fails) [
                    | inl w ↦ rw (apply_conflict, x, y, z, w) e
                    | inr w ↦ (elim (Option-cases (get_event c.ulid rows)) [
                      | inl u ↦ rw (apply_conflict, x, y, z, w, u) e
                      | inr (found, u) ↦ rw (apply_conflict, x, y, z, w, u) e
                    ])
                  ])
                ])
        ])
      ]

  -- Whatever the result, whatever the trailers of the source commit name and whatever fails, Apply leaves
  -- every conflict event as it is that belongs to another session or has been resolved.
  pub apply-Spared :
      (c : Circumstances) (inp : ApplyInput) (p : Portal g.repo.State) (id : Bytes)
      (row : ConflictEvent)
      → get_event id p.conflict_events ≡ some row
      → (not (row.session_id == inp.session_id) || not (is_unsettled row.status)) ≡ true
      → get_event id (apply g hex marshal sort c inp p).1.conflict_events ≡ some row
  unfolding apply
  apply-Spared c inp p id row h k = go inp.result
    where
      go :
          (result : MergeResult)
          → get_event id
              (let q : Reply × Portal g.repo.State = elim result [
                | clean_merge tree ↦ apply_success g hex marshal sort c inp tree p
                | safe_auto_resolve tree h ↦ apply_success g hex marshal sort c inp tree p
                | hard_conflict conflicts ↦ apply_conflict g hex marshal sort c inp conflicts p
              ] in
                q).1.conflict_events
            ≡ some row
      go (clean_merge t) = success-Spared c inp t p id row h k
      go (safe_auto_resolve t u) = success-Spared c inp t p id row h k
      go (hard_conflict cs) = conflict-Spared c inp cs p id row h k
