-- ===== src/Worker/Examples.antt =====
-- Tests and witnesses of the worker: two commits of session 7.
use jamsesh.Prelude.{[], false, none, refl, some, true, ℕ, ◌↔◌, ◌∷◌, ◌≡◌}
use jamsesh.Events.Log.{deliver, Event}
use jamsesh.Go.Strings.{Bytes, codes, same}
use jamsesh.Worker.Order.{Run-Served, Served}
use jamsesh.Worker.Owners.{one_drainer}
use jamsesh.Worker.Queue.{
  after, arrives, dispatches, drains, end_dispatch, enqueue, finish_event, finishes, here, idle,
  idles, is_live, receive, receives, Run, start, take_event, unsubscribes, World,
}
use jamsesh.Worker.Stop.{stop_waits}

abbrev commit_event : ℕ → Event
commit_event n = record {
  id = n;
  org_id = 1;
  session_id = 7;
  seq = n;
  event_type = codes "commit.arrived";
  payload = n;
  created_at = 50;
}

abbrev ref_of : ℕ → Bytes
ref_of n = codes "refs/heads/jam/7/ann/x"

abbrev arrived : World
unfolding deliver
arrived = record start { sub = deliver (commit_event 2) (deliver (commit_event 1) start.sub) }

abbrev queue_size : ℕ
queue_size = 1

-- The first commit starts the goroutine, and the second finds the queue full.
abbrev dispatched : World
unfolding enqueue take_event deliver same
dispatched = enqueue queue_size ref_of (commit_event 2) (
    take_event []
      (enqueue queue_size ref_of (commit_event 1) (take_event (commit_event 2 ∷ []) arrived)))

dispatched-Run : Run queue_size ref_of start dispatched
unfolding enqueue take_event deliver same
dispatched-Run =
    after
      (after (after (after here (arrives (commit_event 1) refl)) (arrives (commit_event 2) refl))
        (dispatches (commit_event 1) (commit_event 2 ∷ []) refl refl))
      (dispatches (commit_event 2) [] refl refl)

one_refused : dispatched.outcomes ≡ 1
unfolding enqueue take_event deliver same
one_refused = refl

one_drainer_example :
    ((i j : ℕ)
      → is_live (dispatched.goroutines i) ≡ true
      → is_live (dispatched.goroutines j) ≡ true
      → (dispatched.goroutines i).session ≡ (dispatched.goroutines j).session
      → i ≡ j)
    × ((s q : ℕ)
        → (dispatched.sessions s ≡ some q)
          ↔ ((is_live (dispatched.goroutines q) ≡ true) × ((dispatched.goroutines q).session ≡ s)))
one_drainer_example = one_drainer queue_size ref_of dispatched dispatched-Run

Run-Served_example : Served dispatched 7
unfolding enqueue take_event deliver same
Run-Served_example = Run-Served queue_size ref_of dispatched dispatched-Run refl 7

-- The commit is merged, the goroutine leaves, and dispatch ends behind Stop's unsubscribe.
abbrev stopped : World
unfolding receive finish_event idle end_dispatch enqueue take_event deliver same
stopped =
    end_dispatch (record (idle 0 (finish_event 0 (receive 0 (commit_event 1) [] dispatched))) {
      unsubscribed = true;
    })

stopped-Run : Run queue_size ref_of start stopped
unfolding receive finish_event idle end_dispatch enqueue take_event deliver same
stopped-Run =
    after
      (after
        (after
          (after (after dispatched-Run (receives 0 (commit_event 1) [] refl refl))
            (finishes 0 (commit_event 1) refl))
          (idles 0 refl))
        unsubscribes)
      (drains refl refl refl)

stop_waits_example :
    (stopped.dispatching ≡ false)
    × ((i : ℕ) → is_live (stopped.goroutines i) ≡ false)
    × ((s : ℕ) → stopped.sessions s ≡ none)
unfolding receive finish_event idle end_dispatch enqueue take_event deliver same
stop_waits_example = stop_waits queue_size ref_of stopped stopped-Run refl
