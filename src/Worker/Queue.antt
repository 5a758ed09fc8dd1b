-- ===== src/Worker/Queue.antt =====
-- worker.go: the dispatch goroutine, the queue and the goroutine of each session, and Stop. What stands
-- under `mu` is one step, as is a receive from a channel. The idle timer may fire whenever its goroutine
-- waits. A goroutine is known by the number of its spawn.
use jamsesh.Prelude.{
  ◌++◌, ◌-◌, [], Bool, false, if◌then◌else◌, length, List, ltb, none, Option, some, suc, true,
  update, ℕ, ◌∷◌, ◌≡◌,
}
use jamsesh.Events.Log.{deliver, Event, Subscriber}
use jamsesh.Go.Strings.{Bytes, codes}

-- Where a session's goroutine stands: in the select, in processEvent, or at its end.
pub data Phase : Type 0 where
  selecting : Phase
  processing : Event → Phase
  exited : Phase

-- processSessionQueue with its session and its queue.
pub record Goroutine : Type 0 where
  pub session : ℕ
  pub ch : List Event
  pub pc : Phase

abbrev pub is_live : Goroutine → Bool
is_live g = elim g.pc [ exited ↦ false | _ ↦ true ]

-- The event auto-merger.backpressure.
pub record Backpressure : Type 0 where
  pub org_id : ℕ
  pub session_id : ℕ
  pub dropped_ref : Bytes

-- The subscription with its end, the worker's state, and what it has done: `accepted` and `started` are,
-- by session, the events that were queued and those that processEvent was called for.
pub record World : Type 0 where
  pub sub : Subscriber
  pub unsubscribed : Bool
  pub cancelled : Bool
  pub dispatching : Bool
  pub sessions : ℕ → Option ℕ
  pub goroutines : ℕ → Goroutine
  pub spawned : ℕ
  pub wg : ℕ
  pub emitted : List Backpressure
  pub outcomes : ℕ
  pub accepted : ℕ → List Event
  pub started : ℕ → List Event

-- The new queue with its goroutine.
unfoldable pub spawn : ℕ → World → World
spawn s w = record w {
  sessions = update w.sessions s (some w.spawned);
  goroutines = update w.goroutines w.spawned (record { session = s; ch = []; pc = selecting });
  spawned = suc w.spawned;
  wg = suc w.wg;
}

-- `queue_size` is QueueSize, and `ref_of` is the decoding of a payload.
module _ (queue_size : ℕ) (ref_of : ℕ → Bytes) where
  unfoldable pub emit_backpressure : Event → World → World
  emit_backpressure e w = record w {
    emitted =
        w.emitted
        ++ record { org_id = e.org_id; session_id = e.session_id; dropped_ref = ref_of e.payload }
          ∷ [];
    outcomes = suc w.outcomes;
  }

  -- The non-blocking send to the queue of the goroutine q, and its default case.
  unfoldable pub push : Event → ℕ → World → World
  unfolding emit_backpressure
  push e q w =
      let g = w.goroutines q in
      if ltb (length g.ch) queue_size
      then record w {
        goroutines = update w.goroutines q (record g { ch = g.ch ++ e ∷ [] });
        accepted = update w.accepted e.session_id (w.accepted e.session_id ++ e ∷ []);
      }
      else emit_backpressure e w

  unfoldable pub enqueue : Event → World → World
  unfolding push spawn
  enqueue e w = elim (w.sessions e.session_id) [
    | some q ↦ push e q w
    | none ↦ push e w.spawned (spawn e.session_id w)
  ]

-- dispatch takes an event from its channel.
unfoldable pub take_event : List Event → World → World
take_event rest w = record w { sub = record w.sub { ch = rest } }

-- The end of dispatch.
unfoldable pub end_dispatch : World → World
end_dispatch w = record w { dispatching = false; wg = w.wg - 1 }

-- The goroutine i takes an event from its queue.
unfoldable pub receive : ℕ → Event → List Event → World → World
receive i e rest w =
    let g = w.goroutines i in
    record w {
      goroutines = update w.goroutines i (record g { ch = rest; pc = processing e });
      started = update w.started g.session (w.started g.session ++ e ∷ []);
    }

-- processEvent returns.
unfoldable pub finish_event : ℕ → World → World
finish_event i w = record w {
  goroutines = update w.goroutines i (record (w.goroutines i) { pc = selecting });
}

-- The end of a session's goroutine: the entry of the map, and the wait group.
unfoldable pub leave : ℕ → World → World
leave i w =
    let g = w.goroutines i in
    record w {
      sessions = update w.sessions g.session none;
      goroutines = update w.goroutines i (record g { pc = exited });
      wg = w.wg - 1;
    }

-- The idle case: under the lock the goroutine leaves if its queue is empty.
unfoldable pub idle : ℕ → World → World
unfolding leave
idle i w = elim (w.goroutines i).ch [ [] ↦ leave i w | e ∷ es ↦ w ]

module _ (queue_size : ℕ) (ref_of : ℕ → Bytes) where
  -- A step of some goroutine, an event of the log, Stop's unsubscribe, or the end of the context.
  pub data Turn (w : World) : World → Type 0 where
    arrives : (e : Event) → w.unsubscribed ≡ false → Turn w (record w { sub = deliver e w.sub })
    unsubscribes : Turn w (record w { unsubscribed = true })
    cancels : Turn w (record w { cancelled = true })
    dispatches :
        (e : Event) (rest : List Event)
        → w.dispatching ≡ true
        → w.sub.ch ≡ e ∷ rest
        → Turn w (enqueue queue_size ref_of e (take_event rest w))
    drains : w.dispatching ≡ true → w.unsubscribed ≡ true → w.sub.ch ≡ [] → Turn w (end_dispatch w)
    gives_up : w.dispatching ≡ true → w.cancelled ≡ true → Turn w (end_dispatch w)
    receives :
        (i : ℕ) (e : Event) (rest : List Event)
        → (w.goroutines i).pc ≡ selecting
        → (w.goroutines i).ch ≡ e ∷ rest
        → Turn w (receive i e rest w)
    finishes : (i : ℕ) (e : Event) → (w.goroutines i).pc ≡ processing e → Turn w (finish_event i w)
    idles : (i : ℕ) → (w.goroutines i).pc ≡ selecting → Turn w (idle i w)
    quits : (i : ℕ) → (w.goroutines i).pc ≡ selecting → w.cancelled ≡ true → Turn w (leave i w)

  pub data Run (w : World) : World → Type 0 where
    here : Run w w
    after : {mid last : World} → Run w mid → Turn mid last → Run w last

-- The worker behind Start, where the wait group counts dispatch.
abbrev pub start : World
start = record {
  sub = record { filter = codes "commit.arrived"; ch = [] };
  unsubscribed = false;
  cancelled = false;
  dispatching = true;
  sessions = λ s. none;
  goroutines = λ i. record { session = 0; ch = []; pc = exited };
  spawned = 0;
  wg = 1;
  emitted = [];
  outcomes = 0;
  accepted = λ s. [];
  started = λ s. [];
}
