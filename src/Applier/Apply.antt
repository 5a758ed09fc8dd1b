-- ===== src/Applier/Apply.antt =====
-- Apply (outcomes.go) with the queries of internal/db/sqlitestore/conflict_events.sql.go. Of go-git, the
-- objects and the draft ref of a session are parameters; JSON is opaque.
use jamsesh.Prelude.{
  ◌&&◌, ◌++◌, ◌==◌, [], Bool, false, if◌then◌else◌, List, none, not, Option, some, true, ◌||◌, ℕ,
  ◌∷◌,
}
use jamsesh.Applier.Address.{compute_addressed_to, History, parse_source_ref_owner}
use jamsesh.Applier.Emit.{emit_with_retry, EmitCall}
use jamsesh.Applier.Message.{compose_merge_message, resolves_conflict}
use jamsesh.Automerger.Merge.{Conflict}
use jamsesh.Automerger.Repo.{Repo}
use jamsesh.Automerger.Run.{clean_merge, hard_conflict, MergeResult, safe_auto_resolve}
use jamsesh.Events.Log.{Log}
use jamsesh.Go.Strings.{Bytes, codes, is_some, same}

pub record Signature : Type 0 where
  pub name : Bytes
  pub email : Bytes
  pub when : ℕ

pub record CommitObject : Type 0 where
  pub author : Signature
  pub committer : Signature
  pub message : Bytes
  pub tree_hash : ℕ
  pub parent_hashes : List ℕ

-- What is used of go-git: the object store of the merge, commits, and the ref jam/<session>/draft.
pub record Git : Type 1 where
  pub repo : Repo
  pub get_commit : repo.State → ℕ → Option CommitObject
  pub has_tree : repo.State → ℕ → Bool
  pub set_commit : repo.State → CommitObject → Option ℕ × repo.State
  pub draft : repo.State → (session : ℕ) → Option ℕ
  pub set_draft : repo.State → (session hash : ℕ) → Bool × repo.State
  pub log : repo.State → ℕ → Option History

pub data EventStatus : Type 0 where
  unsettled settled : EventStatus

-- A row of conflict_events; the status is `open` or `resolved`.
pub record ConflictEvent : Type 0 where
  pub id : Bytes
  pub org_id : ℕ
  pub session_id : ℕ
  pub source_commit : ℕ
  pub draft_tip : ℕ
  pub ancestor : ℕ
  pub conflicts : List Conflict
  pub addressed_to : List Bytes
  pub status : EventStatus
  pub resolving_commit_sha : Option ℕ
  pub created_at : ℕ
  pub resolved_at : Option ℕ

abbrev pub is_unsettled : EventStatus → Bool
is_unsettled unsettled = true
is_unsettled settled = false

-- GetConflictEventByID
unfoldable pub get_event : Bytes → List ConflictEvent → Option ConflictEvent
unfolding same
get_event id [] = none
get_event id (c ∷ cs) = if same c.id id then some c else get_event id cs

-- InsertConflictEvent, with the primary key.
unfoldable pub insert_conflict : ConflictEvent → List ConflictEvent → Option (List ConflictEvent)
unfolding get_event
insert_conflict c cs = if is_some (get_event c.id cs) then none else some (cs ++ c ∷ [])

-- MarkConflictEventResolved: `WHERE id = ? AND session_id = ? AND status = 'open'`.
unfoldable pub mark_resolved :
    (id : Bytes) (session sha now : ℕ) → List ConflictEvent → List ConflictEvent
unfolding same
mark_resolved id session sha now [] = []
mark_resolved id session sha now (c ∷ cs) =
    (if same c.id id && (c.session_id == session) && is_unsettled c.status
      then record c { status = settled; resolving_commit_sha = some sha; resolved_at = some now }
      else c)
    ∷ mark_resolved id session sha now cs

-- The label of the metric.
pub data Label : Type 0 where
  succeeded conflict emit_failed : Label

pub record Portal (State : Type 0) : Type 0 where
  pub git : State
  pub conflict_events : List ConflictEvent
  pub log : Log
  pub outcomes : List Label

pub data Payload : Type 0 where
  merge_succeeded : (source draft merge : ℕ) → Payload
  conflict_resolved : (event_id : Bytes) → (resolving : ℕ) → Payload
  conflict_detected : ConflictEvent → Payload

-- ApplyInput without the repository: the session's row, the commits and the result.
pub record ApplyInput : Type 0 where
  pub org_id : ℕ
  pub session_id : ℕ
  pub source_ref : Bytes
  pub source_commit : ℕ
  pub draft_tip : ℕ
  pub ancestor : ℕ
  pub result : MergeResult
  pub portal_host : Bytes

-- What a call of Apply meets: the clock, the new identifier, the attempts of its two emissions, and which
-- of its queries fail.
pub record Circumstances : Type 0 where
  pub now : ℕ
  pub ulid : Bytes
  pub emits : ℕ → EmitCall
  pub emits_resolved : ℕ → EmitCall
  pub get_fails : Bool
  pub mark_fails : Bool
  pub insert_fails : Bool
  pub refetch_fails : Bool

-- ApplyOutput, or an error: ErrEmitAfterSideEffect or any other.
pub data Reply : Type 0 where
  merged : (merge_commit : ℕ) → Reply
  conflicted : ConflictEvent → Reply
  failed : Reply
  emit_after_side_effect : Reply

-- How tryResolveConflict ends.
pub data Closure : Type 0 where
  closed ignored close_failed close_emit_failed : Closure

abbrev pub with_outcome : {State : Type 0} → Label → Portal State → Portal State
with_outcome o p = record p { outcomes = p.outcomes ++ o ∷ [] }

-- `hex` is Hash.String, `marshal` is JSON, and `sort` is sort.Strings.
module _ (g : Git) (hex : ℕ → Bytes) (marshal : Payload → ℕ) (sort : List Bytes → List Bytes) where
  -- emitWithRetry for a session, with its effect on the log.
  unfoldable pub emit_payload :
      (ℕ → EmitCall)
      → ApplyInput
      → Bytes
      → Payload
      → Portal g.repo.State
      → Bool × Portal g.repo.State
  unfolding emit_with_retry
  emit_payload tries inp event_type payload p =
      let r =
        emit_with_retry tries inp.org_id inp.session_id
          (record { event_type = event_type; payload = marshal payload }) p.log in
      (r.0, record p { log = r.1 })

  -- tryResolveConflict
  unfoldable pub try_resolve_conflict :
      Circumstances
      → ApplyInput
      → (event_id : Bytes) → (merge_sha : ℕ) → Portal g.repo.State
      → Closure × Portal g.repo.State
  unfolding get_event mark_resolved emit_payload
  try_resolve_conflict c inp event_id merge_sha p =
      if c.get_fails then (close_failed, p) else (elim (get_event event_id p.conflict_events) [
        | none ↦ (ignored, p)
        | some ev ↦
            if not (ev.session_id == inp.session_id) || not (is_unsettled ev.status)
            then (ignored, p)
            else if c.mark_fails
            then (close_failed, p)
            else (let r =
                  emit_payload c.emits_resolved inp (codes "conflict.resolved")
                    (conflict_resolved event_id merge_sha)
                    (record p {
                      conflict_events =
                          mark_resolved event_id inp.session_id merge_sha c.now p.conflict_events;
                    }) in
                (if r.0 then closed else close_emit_failed, r.1))
      ])

  -- The end of applySuccess, behind the emission of merge.succeeded.
  unfoldable pub close_conflict :
      Circumstances
      → ApplyInput
      → (source_message : Bytes) → (merge_sha : ℕ) → Portal g.repo.State
      → Reply × Portal g.repo.State
  unfolding resolves_conflict try_resolve_conflict
  close_conflict c inp source_message merge_sha p = elim (resolves_conflict source_message) [
    | none ↦ (merged merge_sha, with_outcome succeeded p)
    | some event_id ↦
        (let r = try_resolve_conflict c inp event_id merge_sha p in
          elim r.0 [
            | close_emit_failed ↦ (emit_after_side_effect, with_outcome emit_failed r.1)
            | _ ↦ (merged merge_sha, with_outcome succeeded r.1)
          ])
  ]

  -- The merge commit of applySuccess.
  unfoldable pub merge_commit : Circumstances → ApplyInput → CommitObject → ℕ → CommitObject
  unfolding compose_merge_message
  merge_commit c inp source tree = record {
    author = source.author;
    committer = record {
      name = codes "jamsesh auto-merger";
      email = codes "auto-merger@" ++ inp.portal_host;
      when = c.now;
    };
    message =
        compose_merge_message source.message (hex inp.source_commit) inp.source_ref inp.result;
    tree_hash = tree;
    parent_hashes = inp.draft_tip ∷ inp.source_commit ∷ [];
  }

  -- applySuccess from the stored merge commit: the draft ref, the event, the conflict.
  unfoldable pub advance_draft :
      Circumstances
      → ApplyInput
      → (source_message : Bytes) → (merge_sha : ℕ) → Portal g.repo.State
      → Reply × Portal g.repo.State
  unfolding emit_payload close_conflict
  advance_draft c inp source_message merge_sha p =
      let s = g.set_draft p.git inp.session_id merge_sha in
      if not s.0
      then (failed, record p { git = s.1 })
      else (let r =
            emit_payload c.emits inp (codes "merge.succeeded")
              (merge_succeeded inp.source_commit merge_sha merge_sha) (record p { git = s.1 }) in
          if r.0
          then close_conflict c inp source_message merge_sha r.1
          else (emit_after_side_effect, r.1))

  -- applySuccess, `tree` being the result's.
  unfoldable pub apply_success :
      Circumstances → ApplyInput → (tree : ℕ) → Portal g.repo.State → Reply × Portal g.repo.State
  unfolding merge_commit advance_draft
  apply_success c inp tree p = elim (g.get_commit p.git inp.source_commit) [
    | none ↦ (failed, p)
    | some source ↦
        if not (g.has_tree p.git tree)
        then (failed, p)
        else (let s = g.set_commit p.git (merge_commit c inp source tree) in
            elim s.0 [
              | none ↦ (failed, record p { git = s.1 })
              | some merge_sha ↦
                  advance_draft c inp source.message merge_sha (record p { git = s.1 })
            ])
  ]

  -- The addressees of applyConflict: the sorted set, or behind an error the owner alone, if there is one.
  unfoldable pub addressees : ApplyInput → List Conflict → Portal g.repo.State → List Bytes
  unfolding compute_addressed_to parse_source_ref_owner
  addressees inp conflicts p =
      let r = compute_addressed_to (g.log p.git inp.draft_tip) conflicts inp.source_ref in
      if r.1
      then sort r.0
      else (elim (parse_source_ref_owner inp.source_ref) [ none ↦ sort r.0 | some o ↦ o ∷ [] ])

  unfoldable pub new_conflict :
      Circumstances → ApplyInput → List Conflict → Portal g.repo.State → ConflictEvent
  unfolding addressees
  new_conflict c inp conflicts p = record {
    id = c.ulid;
    org_id = inp.org_id;
    session_id = inp.session_id;
    source_commit = inp.source_commit;
    draft_tip = inp.draft_tip;
    ancestor = inp.ancestor;
    conflicts = conflicts;
    addressed_to = addressees inp conflicts p;
    status = unsettled;
    resolving_commit_sha = none;
    created_at = c.now;
    resolved_at = none;
  }

  -- applyConflict
  unfoldable pub apply_conflict :
      Circumstances → ApplyInput → List Conflict → Portal g.repo.State → Reply × Portal g.repo.State
  unfolding new_conflict insert_conflict emit_payload get_event
  apply_conflict c inp conflicts p =
      let ev = new_conflict c inp conflicts p in
      if c.insert_fails then (failed, p) else (elim (insert_conflict ev p.conflict_events) [
        | none ↦ (failed, p)
        | some rows ↦
            (let r =
                emit_payload c.emits inp (codes "conflict.detected") (conflict_detected ev)
                  (record p { conflict_events = rows }) in
              if not r.0
              then (emit_after_side_effect, r.1)
              else if c.refetch_fails
              then (failed, r.1)
              else (elim (get_event c.ulid r.1.conflict_events) [
                | none ↦ (failed, r.1)
                | some row ↦ (conflicted row, with_outcome conflict r.1)
              ]))
      ])

  -- Apply; the kinds of a result are those of its type.
  unfoldable pub apply :
      Circumstances → ApplyInput → Portal g.repo.State → Reply × Portal g.repo.State
  unfolding apply_success apply_conflict
  apply c inp p = elim inp.result [
    | clean_merge tree ↦ apply_success c inp tree p
    | safe_auto_resolve tree h ↦ apply_success c inp tree p
    | hard_conflict conflicts ↦ apply_conflict c inp conflicts p
  ]
