-- ===== src/Worker/Outcome.antt =====
-- enqueue (worker.go): an event is queued, or answered by a backpressure event.
use jamsesh.Prelude.{
  ◌++◌, ◌<◌, ==_refl, [], ap, arith, Bool-cases, inl, inr, length, ltb, none, Option-cases, refl,
  some, ℕ, ◌∙◌, ◌∷◌, ◌≡◌, ◌≤◌,
}
use jamsesh.Events.Log.{Event}
use jamsesh.Go.Strings.{Bytes}
use jamsesh.Worker.Order.{waiting}
use jamsesh.Worker.Queue.{emit_backpressure, enqueue, push, spawn, World}

module _ (queue_size : ℕ) (ref_of : ℕ → Bytes) where
  -- The two ways in which enqueue ends, by the length of the session's queue.
  pub data Outcome (e : Event) (w w' : World) : Type 0 where
    queued :
        length (waiting w.sessions w.goroutines e.session_id) < queue_size
        → waiting w'.sessions w'.goroutines e.session_id
          ≡ waiting w.sessions w.goroutines e.session_id ++ e ∷ []
        → w'.accepted e.session_id ≡ w.accepted e.session_id ++ e ∷ []
        → w'.emitted ≡ w.emitted
        → Outcome e w w'
    refused :
        queue_size ≤ length (waiting w.sessions w.goroutines e.session_id)
        → w'.accepted ≡ w.accepted
        → w'.emitted
          ≡ w.emitted
            ++ record {
              org_id = e.org_id;
              session_id = e.session_id;
              dropped_ref = ref_of e.payload;
            }
              ∷ []
        → Outcome e w w'

  push-Outcome :
      (e : Event) (q : ℕ) (w : World)
      → w.sessions e.session_id ≡ some q
      → Outcome e w (push queue_size ref_of e q w)
  unfolding push emit_backpressure waiting
  push-Outcome e q w x = elim (Bool-cases (ltb (length (w.goroutines q).ch) queue_size)) [
    | inl y ↦ rw (y) (
        queued (rw (waiting, x) (ground arith)) (rw (waiting, x, ==_refl q) refl)
          (rw (==_refl e.session_id) refl) refl)
    | inr y ↦ rw (y) (refused (rw (waiting, x) (ground arith)) refl refl)
  ]

  spawn-waiting :
      (s : ℕ) (w : World)
      → w.sessions s ≡ none
      → waiting (spawn s w).sessions (spawn s w).goroutines s ≡ waiting w.sessions w.goroutines s
  unfolding spawn waiting
  spawn-waiting s w x = rw (waiting, x, ==_refl s, ==_refl w.spawned) refl

  spawned_entry : (s : ℕ) (w : World) → (spawn s w).sessions s ≡ some w.spawned
  unfolding spawn
  spawned_entry s w = rw (==_refl s) refl

  -- A new queue is as good as none.
  spawned-Outcome :
      (e : Event) (w w' : World)
      → w.sessions e.session_id ≡ none
      → Outcome e (spawn e.session_id w) w'
      → Outcome e w w'
  unfolding spawn
  spawned-Outcome e w w' x (queued a b c d) =
      let n = spawn-waiting e.session_id w x in
      queued (omega (arith, ap (length {A = Event}) n, a)) (b ∙ ap (λ r. r ++ e ∷ []) n) c d
  spawned-Outcome e w w' x (refused a b c) =
      let n = spawn-waiting e.session_id w x in
      refused (omega (arith, ap (length {A = Event}) n, a)) b c

  -- enqueue appends the event to the queue of its session and to nothing else exactly while that queue
  -- has fewer than QueueSize events, whether it starts a goroutine for the session or finds one; a full
  -- queue is left as it is, and one backpressure event names the session and the ref.
  pub enqueue-Outcome : (e : Event) (w : World) → Outcome e w (enqueue queue_size ref_of e w)
  unfolding enqueue
  enqueue-Outcome e w = elim (Option-cases (w.sessions e.session_id)) [
    | inr (q, x) ↦ rw (enqueue, x) (push-Outcome e q w x)
    | inl x ↦
        rw (enqueue, x)
          (spawned-Outcome e w (push queue_size ref_of e w.spawned (spawn e.session_id w)) x
            (push-Outcome e w.spawned (spawn e.session_id w) (spawned_entry e.session_id w)))
  ]
