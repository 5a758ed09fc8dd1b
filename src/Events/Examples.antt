-- ===== src/Events/Examples.antt =====
-- Tests and witnesses of the event log.
use jamsesh.Prelude.{arith, ltb, ◌&&◌, Bool, ◌+◌, ◌==◌, [], any, false, List, refl, ℕ, ◌∷◌, ◌≡◌}
use jamsesh.Events.Gapless.{Gapless, seqs}
use jamsesh.Events.History.{batches, Call, fresh_log, presences, Request, run, run-Gapless}
use jamsesh.Events.Log.{Db, DraftEvent, Event}
use jamsesh.Events.Paging.{Ascending, count_rows, read_pages, read_pages-rows, UniqueSeqs}
use jamsesh.Go.Strings.{codes}

abbrev draft : DraftEvent
draft = record { event_type = codes "commit.arrived"; payload = 5 }

-- Two events for session 7; then a call whose second insert fails; then one event more.
abbrev batch : Call
batch = record {
  ulid = λ i. i + 10;
  down = λ k. false;
  now = 1;
  org = 1;
  session = 7;
  drafts = draft ∷ draft ∷ [];
}

abbrev failing : Call
failing = record {
  ulid = λ i. i + 20;
  down = λ k. k == 3;
  now = 2;
  org = 1;
  session = 7;
  drafts = draft ∷ draft ∷ [];
}

abbrev single : Call
single = record {
  ulid = λ i. i + 30;
  down = λ k. false;
  now = 3;
  org = 1;
  session = 7;
  drafts = draft ∷ [];
}

-- A call of UpdatePresence comes last.
abbrev calls : List Request
calls =
    batches batch
    ∷ batches failing
    ∷ batches single
    ∷ presences (record single { ulid = λ i. 40; drafts = [] }) (λ p. 6) 1 (codes "r") (codes "c")
    ∷ []

abbrev log_db : Db
log_db = (run calls (fresh_log [])).db

numbers : seqs 7 log_db.events ≡ 1 ∷ 2 ∷ 3 ∷ 4 ∷ []
unfolding seqs run fresh_log any
numbers = refl

run-Gapless_example : Gapless log_db
run-Gapless_example = run-Gapless [] calls

abbrev row : (id session seq : ℕ) → Event
row id session seq = record {
  id = id;
  org_id = 1;
  session_id = session;
  seq = seq;
  event_type = codes "commit.arrived";
  payload = 5;
  created_at = 1;
}

-- A table whose rows do not stand in the order of their numbers.
abbrev shuffled : Db
shuffled = record log_db { events = row 1 7 3 ∷ row 2 8 2 ∷ row 3 7 1 ∷ row 4 7 4 ∷ row 5 7 2 ∷ [] }

shuffled-UniqueSeqs : UniqueSeqs 7 shuffled.events
unfolding UniqueSeqs
shuffled-UniqueSeqs = (
  λ e. ((λ q r. cc), ((λ q r. cc), ((λ q r. cc), ((λ q r. cc), tt)))),
  (λ e. cc, (λ e. ((λ q r. cc), ((λ q r. cc), tt)), (λ e. ((λ q r. cc), tt), (λ e. tt, tt)))),
)

read_pages-rows_example :
    (rs : List Event) × (read_pages 5 7 2 1 shuffled ≡ rs)
    × Ascending 1 rs
    × ((p : Event → Bool)
        → count_rows p rs
          ≡ count_rows (λ e. (e.session_id == 7) && ltb 1 e.seq && p e) shuffled.events)
read_pages-rows_example =
    read_pages-rows 5 7 2 1 shuffled shuffled-UniqueSeqs (omega arith) (omega arith)
