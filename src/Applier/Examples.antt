-- ===== src/Applier/Examples.antt =====
-- Tests and witnesses of the outcomes: a commit 1 that is merged into a draft at 2.
use jamsesh.Prelude.{
  ◌+◌, ◌++◌, ◌==◌, [], all, any, arith, false, if◌then◌else◌, List, none, Option, refl, some, suc,
  true, update, ℕ, ◌∷◌, ◌≡◌,
}
use jamsesh.Applier.Address.{LogCommit, member}
use jamsesh.Applier.Addressees.{addressed_author}
use jamsesh.Applier.Apply.{
  new_conflict, apply, apply_success, ApplyInput, Circumstances, CommitObject, ConflictEvent,
  get_event, Git, Payload, Portal, Signature, unsettled,
}
use jamsesh.Applier.Delivery.{Delivery, Lossy, emit_with_retry-Delivery}
use jamsesh.Applier.Emit.{emit_with_retry, EmitCall}
use jamsesh.Applier.Isolation.{process_event-Spared}
use jamsesh.Applier.Message.{commit_summary, compose_merge_message, resolves_conflict}
use jamsesh.Applier.Owner.{touches}
use jamsesh.Applier.Process.{CommitArrived, process_event, Reads, Tables}
use jamsesh.Applier.Readback.{Labelled, merge_trailers, parse_trailers-compose, rc_fits}
use jamsesh.Applier.Applied.{Applied, GitLaws}
use jamsesh.Applier.Success.{apply_success-Applied}
use jamsesh.Automerger.Heuristics.{whitespace}
use jamsesh.Automerger.Merge.{Conflict}
use jamsesh.Automerger.Repo.{Repo, Tools}
use jamsesh.Automerger.Run.{clean_merge, safe_auto_resolve}
use jamsesh.Events.History.{fresh_log}
use jamsesh.Events.Log.{DraftEvent, Event}
use jamsesh.Go.Strings.{Bytes, codes, free_of, same}
use jamsesh.Prereceive.TrailerFormat.{starts_visible}
use jamsesh.Prereceive.Trailers.{parse_trailers}

record Objects : Type 0 where
  commits : ℕ → Option CommitObject
  next : ℕ
  heads : ℕ → Option ℕ

abbrev blobless : Repo
blobless = record {
  State = Objects;
  read_blob = λ s h. none;
  write_blob = λ s b. (none, s);
  write_tree = λ s cs. (none, s);
}

abbrev memory : Git
memory = record {
  repo = blobless;
  get_commit = λ s h. s.commits h;
  has_tree = λ s h. true;
  set_commit = λ s o.
      (some s.next, record s { commits = update s.commits s.next (some o); next = suc s.next });
  draft = λ s session. s.heads session;
  set_draft = λ s session h. (true, record s { heads = update s.heads session (some h) });
  log = λ s h. none;
}

memory-GitLaws : GitLaws memory
memory-GitLaws = record {
  stored = λ s o h e. ground arith;
  store_keeps_draft = λ s o session. refl;
  ref_set = λ s session h e. ground arith;
  ref_refused = λ s session h e. cc;
  ref_keeps_objects = λ s session h k o e. e;
}

abbrev ann : Signature
ann = record { name = codes "Ann"; email = codes "ann@x"; when = 5 }

abbrev source_text : Bytes
source_text = codes "Fix it" ++ 10 ∷ (10 ∷ codes "Resolves-Conflict: e1")

abbrev source_object : CommitObject
source_object = record {
  author = ann;
  committer = ann;
  message = source_text;
  tree_hash = 31;
  parent_hashes = [];
}

abbrev repository : Objects
repository = record {
  commits = λ h. if h == 1 then some source_object else none;
  next = 40;
  heads = λ s. some 2;
}

abbrev event_row : (id : Bytes) (session : ℕ) → ConflictEvent
event_row id session = record {
  id = id;
  org_id = 1;
  session_id = session;
  source_commit = 8;
  draft_tip = 9;
  ancestor = 3;
  conflicts = [];
  addressed_to = [];
  status = unsettled;
  resolving_commit_sha = none;
  created_at = 4;
  resolved_at = none;
}

abbrev portal : Portal Objects
portal = record {
  git = repository;
  conflict_events = event_row (codes "e0") 6 ∷ event_row (codes "e1") 7 ∷ [];
  log = fresh_log [];
  outcomes = [];
}

abbrev attempts : ℕ → EmitCall
attempts n = record { ulid = λ i. n + i; down = λ k. n == 0; now = 50; business = false }

abbrev circumstances : Circumstances
circumstances = record {
  now = 50;
  ulid = codes "e2";
  emits = attempts;
  emits_resolved = λ n. record (attempts n) { ulid = λ i. n + i + 9 };
  get_fails = false;
  mark_fails = false;
  insert_fails = false;
  refetch_fails = false;
}

abbrev input : ApplyInput
input = record {
  org_id = 1;
  session_id = 7;
  source_ref = codes "refs/heads/jam/7/ann/x";
  source_commit = 1;
  draft_tip = 2;
  ancestor = 3;
  result = clean_merge 30;
  portal_host = codes "x.org";
}

abbrev hex : ℕ → Bytes
hex n = codes "1f"

abbrev json : Payload → ℕ
json p = 0

abbrev unsorted : List Bytes → List Bytes
unsorted s = s

abbrev draft_event : DraftEvent
draft_event = record { event_type = codes "merge.succeeded"; payload = 0 }

-- The first attempt fails, and the second emits.
emit_with_retry-Delivery_example :
    Delivery
      (Lossy attempts 1 7)
      3
      1
      7
      draft_event
      (fresh_log [])
      (emit_with_retry attempts 1 7 draft_event (fresh_log [])).0
      (emit_with_retry attempts 1 7 draft_event (fresh_log [])).1
emit_with_retry-Delivery_example = emit_with_retry-Delivery attempts 1 7 draft_event (fresh_log [])

parse_trailers-compose_example :
    parse_trailers (
      compose_merge_message source_text
        (codes "1f")
        (codes "refs/heads/jam/7/ann/x")
        (safe_auto_resolve 30 whitespace))
    ≡ some (
        merge_trailers
          (codes "1f")
          (codes "refs/heads/jam/7/ann/x")
          (safe_auto_resolve 30 whitespace)
          (resolves_conflict source_text))
unfolding free_of commit_summary starts_visible Labelled rc_fits resolves_conflict same all
parse_trailers-compose_example =
    parse_trailers-compose source_text (codes "1f") (codes "refs/heads/jam/7/ann/x")
      (safe_auto_resolve 30 whitespace) refl refl refl (λ e. cc) refl

abbrev closing : Option ConflictEvent → Option ℕ
closing none = none
closing (some c) = c.resolving_commit_sha

-- The merge closes the conflict that its commit names.
conflict_closed :
    closing (
      get_event
        (codes "e1")
        (apply memory hex json unsorted circumstances input portal).1.conflict_events)
    ≡ some 40
unfolding get_event apply fresh_log all
conflict_closed = refl

apply_success-Applied_example :
    Applied memory hex json unsorted circumstances input 30 portal
      (apply_success memory hex json unsorted circumstances input 30 portal).1
      (apply_success memory hex json unsorted circumstances input 30 portal).0
apply_success-Applied_example =
    apply_success-Applied memory hex json unsorted memory-GitLaws circumstances input 30 portal

abbrev by : Bytes → Bytes → LogCommit
by email path = record { author_email = email; changes = some (some path ∷ []) }

abbrev in_a : Conflict
in_a = record { file = codes "a"; ranges = [] }

-- A repository whose draft has two commits: the newer one, by ann, changed b, and the older one, by bo, a.
abbrev with_history : Git
with_history = record memory {
  log = λ s h. some (record {
    commits = (by (codes "ann@x") (codes "b") ∷ []) ++ by (codes "bo@x") (codes "a") ∷ [];
    fails = false;
  });
}

addressed_author_example :
    member
      (codes "bo@x")
      (new_conflict with_history hex json unsorted circumstances input
        (in_a ∷ [])
        portal).addressed_to
    ≡ true
unfolding any same all touches
addressed_author_example =
    addressed_author with_history hex json unsorted (λ k s h. h) circumstances input portal
      (by (codes "ann@x") (codes "b") ∷ []) (by (codes "bo@x") (codes "a")) [] (in_a ∷ []) in_a refl
      refl (omega arith) refl refl

abbrev no_tools : Tools
no_tools = record { merge_file = λ b o t. none; diff = λ b o. none }

abbrev root_base : Reads memory
root_base = record {
  opens = λ s session. true;
  merge_base = λ s a b. some (record { hash = 2; tree = some 30 } ∷ []);
  base_tree = λ s h. none;
  diff_trees = λ s a b. none;
}

abbrev arrived : ℕ → Option CommitArrived
arrived n = some (record { ref = codes "refs/heads/jam/7/ann/x"; sha = 1 })

abbrev tables : Tables
tables = record {
  sessions = record { org_id = 1; id = 7; default_mode = codes "isolated" } ∷ [];
  ref_modes = [];
  session_fails = false;
  mode_fails = false;
}

abbrev commit_event : Event
commit_event = record {
  id = 1;
  org_id = 1;
  session_id = 7;
  seq = 1;
  event_type = codes "commit.arrived";
  payload = 0;
  created_at = 49;
}

process_event-Spared_example :
    get_event
      (codes "e0")
      (process_event memory hex json unsorted no_tools root_base arrived
        (codes "x.org")
        circumstances
        tables
        commit_event
        portal).conflict_events
    ≡ some (event_row (codes "e0") 6)
unfolding get_event
process_event-Spared_example =
    process_event-Spared memory hex json unsorted no_tools root_base arrived (codes "x.org")
      circumstances tables commit_event portal (codes "e0") (event_row (codes "e0") 6) refl refl
