-- ===== src/Applier/Isolation.antt =====
-- What processing an event (worker.go) leaves alone.
use jamsesh.Prelude.{
  ◌&&◌, ◌==◌, [], ap, arith, Bool-cases, inl, inr, List, list_cases, none, not, Option,
  Option-cases, refl, some, subst, sym, true, ◌||◌, ℕ, ◌∙◌, ◌∷◌, ◌≡◌, ◌⊎◌,
}
use jamsesh.Applier.Apply.{
  apply, ApplyInput, Circumstances, conflicted, ConflictEvent, emit_after_side_effect, failed,
  get_event, Git, is_unsettled, merged, Payload, Portal, Reply,
}
use jamsesh.Applier.Closing.{apply-Spared}
use jamsesh.Applier.Process.{
  CommitArrived, count_failure, find_mode, find_session, merge_and_apply, merge_side, open_sides,
  process_event, Reads, ref_mode_for_session, RefMode, SessionRow, Tables,
}
use jamsesh.Automerger.Repo.{Tools}
use jamsesh.Automerger.Run.{Commit, merge}
use jamsesh.Events.Log.{Event}
use jamsesh.Go.Strings.{Bytes, codes, same}

module _ (g : Git) (hex : ℕ → Bytes) (marshal : Payload → ℕ) (sort : List Bytes → List Bytes)
    (tools : Tools) (reads : Reads g) (decode : ℕ → Option CommitArrived)
    (portal_host : Bytes) where
  count-conflict_events :
      (r : Reply × Portal g.repo.State) → (count_failure r).conflict_events ≡ r.1.conflict_events
  unfolding count_failure
  count-conflict_events (emit_after_side_effect, p) = refl
  count-conflict_events (merged sha, p) = refl
  count-conflict_events (conflicted ev, p) = refl
  count-conflict_events (failed, p) = refl

  found_id :
      (org id : ℕ) (ss : List SessionRow) (row : SessionRow)
      → find_session org id ss ≡ some row
      → row.id ≡ id
  unfolding find_session
  found_id org id [] row h = cc
  found_id org id (s ∷ ss) row h = elim (Bool-cases ((s.org_id == org) && (s.id == id))) [
    | inl x ↦ (let e : s ≡ row = ground (arith, h, x) in ap (λ r. r.id) (sym e) ∙ ground (arith, x))
    | inr x ↦ found_id org id ss row (ground (arith, h, x))
  ]

  merge_and_apply-Spared :
      (c : Circumstances) (row : SessionRow) (payload : CommitArrived) (source draft : Commit)
      (p : Portal g.repo.State) (id : Bytes) (ev : ConflictEvent)
      → get_event id p.conflict_events ≡ some ev
      → (not (ev.session_id == row.id) || not (is_unsettled ev.status)) ≡ true
      → get_event id
          (merge_and_apply g hex marshal sort tools reads decode portal_host c row payload source
            draft p).conflict_events
        ≡ some ev
  unfolding merge_and_apply
  merge_and_apply-Spared c row payload source draft p id ev h k =
      elim (Option-cases (reads.merge_base p.git source.hash draft.hash)) [
        | inl x ↦ rw (merge_and_apply, x) h
        | inr (bases, x) ↦ (elim (list_cases bases) [
          | inl y ↦ rw (merge_and_apply, x ∙ ap some y) h
          | inr ((ancestor, rest), y) ↦
              (let m =
                  merge g.repo tools p.git source draft ancestor
                    (reads.base_tree p.git ancestor.hash)
                    (reads.diff_trees p.git ancestor.hash draft.hash)
                    (reads.diff_trees p.git ancestor.hash source.hash) in
                elim (Option-cases m.0) [
                  | inl z ↦ rw (merge_and_apply, x ∙ ap some y, z) h
                  | inr (result, z) ↦
                      (let inp : ApplyInput = record {
                        org_id = row.org_id;
                        session_id = row.id;
                        source_ref = payload.ref;
                        source_commit = payload.sha;
                        draft_tip = draft.hash;
                        ancestor = ancestor.hash;
                        result = result;
                        portal_host = portal_host;
                      } in
                        rw (merge_and_apply, x ∙ ap some y, z)
                          (ap (get_event id) (
                              count-conflict_events
                                (apply g hex marshal sort c inp (record p { git = m.1 })))
                            ∙ apply-Spared g hex marshal sort c inp (record p { git = m.1 }) id ev h
                                k))
                ])
        ])
      ]

  -- Processing an event leaves every conflict event as it is that belongs to another session than the
  -- event's or has been resolved, whatever the merge finds, whatever the commit's trailers name and
  -- whatever fails.
  pub process_event-Spared :
      (c : Circumstances) (t : Tables) (e : Event) (p : Portal g.repo.State) (id : Bytes)
      (ev : ConflictEvent)
      → get_event id p.conflict_events ≡ some ev
      → (not (ev.session_id == e.session_id) || not (is_unsettled ev.status)) ≡ true
      → get_event id
          (process_event g hex marshal sort tools reads decode portal_host c t e p).conflict_events
        ≡ some ev
  unfolding process_event open_sides
  process_event-Spared c t e p id ev h k = elim (Option-cases (decode e.payload)) [
    | inl x ↦ rw (process_event, x) h
    | inr (payload, x) ↦ (elim (Bool-cases t.session_fails) [
      | inl y ↦ rw (process_event, x, y) h
      | inr y ↦ (elim (Option-cases (find_session e.org_id e.session_id t.sessions)) [
        | inl z ↦ rw (process_event, x, y, z) h
        | inr (row, z) ↦
            (elim (Option-cases
              (ref_mode_for_session t e.session_id payload.ref row.default_mode)) [
                | inl u ↦ rw (process_event, x, y, z, u) h
                | inr (mode, u) ↦ (elim (Bool-cases (same mode (codes "isolated"))) [
                  | inl v ↦ rw (process_event, x, y, z, u, v) h
                  | inr v ↦
                      rw (process_event, x, y, z, u, v)
                        (opened row payload (found_id e.org_id e.session_id t.sessions row z))
                ])
              ])
      ])
    ])
  ]
    where
      opened :
          (row : SessionRow) (payload : CommitArrived)
          → row.id ≡ e.session_id
          → get_event id
              (open_sides g hex marshal sort tools reads decode portal_host c row payload
                p).conflict_events
            ≡ some ev
      opened row payload i =
          let k' : (not (ev.session_id == row.id) || not (is_unsettled ev.status)) ≡ true =
            subst (λ n. (not (ev.session_id == n) || not (is_unsettled ev.status)) ≡ true) (sym i)
              k in
          elim (Bool-cases (reads.opens p.git row.id)) [
            | inr x ↦ rw (open_sides, x) h
            | inl x ↦
                (elim (Option-cases (
                  merge_side g hex marshal sort tools reads decode portal_host p.git payload.sha)) [
                    | inl y ↦ rw (open_sides, x, y) h
                    | inr (source, y) ↦ (elim (Option-cases (g.draft p.git row.id)) [
                      | inl z ↦ rw (open_sides, x, y, z) h
                      | inr (tip, z) ↦
                          (elim (Option-cases (
                            merge_side g hex marshal sort tools reads decode portal_host p.git
                              tip)) [
                                | inl u ↦ rw (open_sides, x, y, z, u) h
                                | inr (draft, u) ↦
                                    rw (open_sides, x, y, z, u)
                                      (merge_and_apply-Spared c row payload source draft p id ev h
                                        k')
                              ])
                    ])
                  ])
          ]

  -- A commit on an isolated ref changes nothing: neither the repository nor the log nor the conflict
  -- events nor the counters. The ref is isolated by its own mode, or by the session's default where it
  -- has none.
  pub isolated_untouched :
      (c : Circumstances) (t : Tables) (e : Event) (p : Portal g.repo.State)
      (payload : CommitArrived) (row : SessionRow)
      → decode e.payload ≡ some payload
      → find_session e.org_id e.session_id t.sessions ≡ some row
      → ((m : RefMode) × (find_mode e.session_id payload.ref t.ref_modes ≡ some m)
          × (m.mode ≡ codes "isolated"))
        ⊎ ((find_mode e.session_id payload.ref t.ref_modes ≡ none)
            × (row.default_mode ≡ codes "isolated"))
      → process_event g hex marshal sort tools reads decode portal_host c t e p ≡ p
  unfolding process_event ref_mode_for_session
  isolated_untouched c t e p payload row d f (inl (m, x, i)) = elim (Bool-cases t.session_fails) [
    | inl y ↦ rw (process_event, d, y) refl
    | inr y ↦ (elim (Bool-cases t.mode_fails) [
      | inl z ↦ rw (process_event, d, y, f, ref_mode_for_session, z) refl
      | inr z ↦ rw (process_event, d, y, f, ref_mode_for_session, z, x, i) refl
    ])
  ]
  isolated_untouched c t e p payload row d f (inr (x, i)) = elim (Bool-cases t.session_fails) [
    | inl y ↦ rw (process_event, d, y) refl
    | inr y ↦ (elim (Bool-cases t.mode_fails) [
      | inl z ↦ rw (process_event, d, y, f, ref_mode_for_session, z) refl
      | inr z ↦ rw (process_event, d, y, f, ref_mode_for_session, z, x, i) refl
    ])
  ]
