-- ===== src/Worker/Order.antt =====
-- What the worker (worker.go) does with the events that it has queued.
use jamsesh.Prelude.{
  ◌++◌, ◌==◌, ==_refl, [], ap, arith, Bool-cases, false, if◌then◌else◌, inl, inr, length, List,
  list_cases, ltb, none, Option, Option-cases, refl, some, subst, sym, true, update, ℕ, ◌∙◌, ◌∷◌,
  ◌≡◌,
}
use jamsesh.Events.Log.{Event}
use jamsesh.Go.Strings.{Bytes}
use jamsesh.Worker.Owners.{
  Owned, Owners, Run-Owned, spawn-Owned, spawned_live, spawned_session, start-Owned,
}
use jamsesh.Worker.Queue.{
  after, arrives, cancels, dispatches, drains, emit_backpressure, end_dispatch, enqueue,
  finish_event, finishes, gives_up, Goroutine, here, idle, idles, is_live, leave, processing, push,
  quits, receive, receives, Run, selecting, spawn, start, take_event, Turn, unsubscribes, World,
}
use mathlib.Core.List.{append-nil, append_assoc}

-- The events that wait in the queue of a session.
unfoldable pub waiting : (ℕ → Option ℕ) → (ℕ → Goroutine) → ℕ → List Event
waiting sessions goroutines s = elim (sessions s) [ none ↦ [] | some q ↦ (goroutines q).ch ]

-- Nothing that was queued is lost, and the order is kept.
abbrev pub Kept : World → Type 0
Kept w = (s : ℕ) → w.accepted s ≡ w.started s ++ waiting w.sessions w.goroutines s

-- A queue that changes is that of its session.
waiting_moves :
    (sessions : ℕ → Option ℕ) (goroutines : ℕ → Goroutine) (spawned i : ℕ) (g : Goroutine) (s : ℕ)
    → Owners sessions goroutines spawned
    → is_live (goroutines i) ≡ true
    → waiting sessions (update goroutines i g) s
      ≡ (if (goroutines i).session == s then g.ch else waiting sessions goroutines s)
unfolding waiting
waiting_moves sessions goroutines spawned i g s v l = elim (Option-cases (sessions s)) [
  | inl x ↦ ground (arith, x, v.owns i l)
  | inr (q, x) ↦ (elim (Bool-cases (q == i)) [
    | inl y ↦ ground (arith, x, y, v.mapped s q x)
    | inr y ↦ ground (arith, x, y, v.owns i l)
  ])
]

waiting_own :
    (sessions : ℕ → Option ℕ) (goroutines : ℕ → Goroutine) (spawned i : ℕ)
    → Owners sessions goroutines spawned
    → is_live (goroutines i) ≡ true
    → waiting sessions goroutines (goroutines i).session ≡ (goroutines i).ch
unfolding waiting
waiting_own sessions goroutines spawned i v l = rw (waiting, v.owns i l) refl

module _ (queue_size : ℕ) (ref_of : ℕ → Bytes) where
  push-Kept :
      (e : Event) (q : ℕ) (w : World)
      → Owned w
      → Kept w
      → is_live (w.goroutines q) ≡ true
      → (w.goroutines q).session ≡ e.session_id
      → Kept (push queue_size ref_of e q w)
  unfolding push emit_backpressure
  push-Kept e q w v k l o s = elim (Bool-cases (ltb (length (w.goroutines q).ch) queue_size)) [
    | inr x ↦ rw (x) (k s)
    | inl x ↦ rw (x) (
        rw
          (waiting_moves w.sessions w.goroutines w.spawned q
            (record (w.goroutines q) { ch = (w.goroutines q).ch ++ e ∷ [] }) s v l)
          (elim (Bool-cases (s == e.session_id)) [
            | inl y ↦
                (let z : e.session_id ≡ s = ground (arith, y) in
                  let y' : ((w.goroutines q).session == s) ≡ true = ground (arith, y, o) in
                  let own : waiting w.sessions w.goroutines s ≡ (w.goroutines q).ch =
                    subst (λ t. waiting w.sessions w.goroutines t ≡ (w.goroutines q).ch) (o ∙ z)
                      (waiting_own w.sessions w.goroutines w.spawned q v l) in
                  let all : w.accepted e.session_id ≡ w.started s ++ (w.goroutines q).ch =
                    ap w.accepted z ∙ k s ∙ ap (λ r. w.started s ++ r) own in
                  rw (y, y', all) (append_assoc (w.started s) (w.goroutines q).ch (e ∷ [])))
            | inr y ↦ ground (arith, y, o, k s)
          ]))
  ]

  spawn-Kept : (s : ℕ) (w : World) → Owned w → Kept w → w.sessions s ≡ none → Kept (spawn s w)
  unfolding spawn waiting
  spawn-Kept s w v k free t = elim (Bool-cases (t == s)) [
    | inl x ↦
        (let f : w.sessions t ≡ none = ground (arith, x, free) in
          rw (waiting, x, ==_refl w.spawned) (k t ∙ rw (waiting, f) refl))
    | inr x ↦ (elim (Option-cases (w.sessions t)) [
      | inl y ↦ rw (waiting, x, y) (k t ∙ rw (waiting, y) refl)
      | inr (q, y) ↦
          (let n : (q == w.spawned) ≡ false = ground (arith, v.mapped t q y, v.fresh q) in
            rw (waiting, x, y, n) (k t ∙ rw (waiting, y) refl))
    ])
  ]

  enqueue-Kept : (e : Event) (w : World) → Owned w → Kept w → Kept (enqueue queue_size ref_of e w)
  unfolding enqueue
  enqueue-Kept e w v k = elim (Option-cases (w.sessions e.session_id)) [
    | inr (q, x) ↦
        (let m = v.mapped e.session_id q x in rw (enqueue, x) (push-Kept e q w v k m.0 m.1))
    | inl x ↦
        rw (enqueue, x)
          (push-Kept e w.spawned (spawn e.session_id w) (spawn-Owned e.session_id w v x)
            (spawn-Kept e.session_id w v k x) (spawned_live e.session_id w)
            (spawned_session e.session_id w))
  ]

receive-Kept :
    (i : ℕ) (e : Event) (rest : List Event) (w : World)
    → Owned w
    → Kept w
    → is_live (w.goroutines i) ≡ true
    → (w.goroutines i).ch ≡ e ∷ rest
    → Kept (receive i e rest w)
unfolding receive
receive-Kept i e rest w v k l h s =
    rw
      (waiting_moves w.sessions w.goroutines w.spawned i
        (record (w.goroutines i) { ch = rest; pc = processing e }) s v l)
      (elim (Bool-cases (s == (w.goroutines i).session)) [
        | inl y ↦
            (let z : (w.goroutines i).session ≡ s = ground (arith, y) in
              let y' : ((w.goroutines i).session == s) ≡ true = ground (arith, y) in
              let own : waiting w.sessions w.goroutines s ≡ e ∷ rest =
                subst (λ t. waiting w.sessions w.goroutines t ≡ (w.goroutines i).ch) z
                  (waiting_own w.sessions w.goroutines w.spawned i v l)
                ∙ h in
              let z' : w.started (w.goroutines i).session ≡ w.started s = ap w.started z in
              rw (y, y', z')
                (k s
                  ∙ ap (λ r. w.started s ++ r) own
                  ∙ sym (append_assoc (w.started s) (e ∷ []) rest)))
        | inr y ↦ ground (arith, y, k s)
      ])

finish_event-Kept :
    (i : ℕ) (w : World)
    → Owned w
    → Kept w
    → is_live (w.goroutines i) ≡ true
    → Kept (finish_event i w)
unfolding finish_event
finish_event-Kept i w v k l s =
    rw
      (waiting_moves w.sessions w.goroutines w.spawned i
        (record (w.goroutines i) { pc = selecting }) s v l)
      (elim (Bool-cases ((w.goroutines i).session == s)) [
        | inl y ↦
            (let z : (w.goroutines i).session ≡ s = ground (arith, y) in
              let own : waiting w.sessions w.goroutines s ≡ (w.goroutines i).ch =
                subst (λ t. waiting w.sessions w.goroutines t ≡ (w.goroutines i).ch) z
                  (waiting_own w.sessions w.goroutines w.spawned i v l) in
              rw (y) (k s ∙ rw own refl))
        | inr y ↦ rw (y) (k s)
      ])

-- A goroutine whose queue is empty leaves nothing behind.
leave-Kept :
    (i : ℕ) (w : World)
    → Owned w
    → Kept w
    → is_live (w.goroutines i) ≡ true
    → (w.goroutines i).ch ≡ []
    → Kept (leave i w)
unfolding leave waiting
leave-Kept i w v k l h s = elim (Bool-cases (s == (w.goroutines i).session)) [
  | inl y ↦
      (let f : w.sessions s ≡ some i = ground (arith, y, v.owns i l) in
        rw (waiting, y) (k s ∙ rw (waiting, f, h) refl))
  | inr y ↦ (elim (Option-cases (w.sessions s)) [
    | inl x ↦ rw (waiting, x, y) (k s ∙ rw (waiting, x) refl)
    | inr (q, x) ↦
        (let n : (q == i) ≡ false = ground (arith, y, v.mapped s q x) in
          rw (waiting, x, y, n) (k s ∙ rw (waiting, x) refl))
  ])
]

module _ (queue_size : ℕ) (ref_of : ℕ → Bytes) where
  uncancelled :
      {w w' : World} → Turn queue_size ref_of w w' → w'.cancelled ≡ false → w.cancelled ≡ false
  unfolding enqueue push emit_backpressure spawn take_event end_dispatch receive finish_event leave
      idle
  uncancelled (arrives e h) c = c
  uncancelled unsubscribes c = c
  uncancelled cancels c = cc
  uncancelled (dispatches e rest h k) c = ground (arith, c)
  uncancelled (drains h k l) c = c
  uncancelled (gives_up h k) c = c
  uncancelled (receives i e rest h k) c = c
  uncancelled (finishes i e h) c = c
  uncancelled (idles i h) c = ground (arith, c)
  uncancelled (quits i h k) c = c

  Turn-Kept :
      {w w' : World}
      → Turn queue_size ref_of w w'
      → w'.cancelled ≡ false
      → Owned w
      → Kept w
      → Kept w'
  unfolding take_event end_dispatch idle
  Turn-Kept (arrives e h) c v k = k
  Turn-Kept unsubscribes c v k = k
  Turn-Kept cancels c v k = k
  Turn-Kept {w} (dispatches e rest h l) c v k =
      enqueue-Kept queue_size ref_of e (take_event rest w) v k
  Turn-Kept (drains h l m) c v k = k
  Turn-Kept (gives_up h l) c v k = k
  Turn-Kept {w} (receives i e rest h l) c v k = receive-Kept i e rest w v k (rw h refl) l
  Turn-Kept {w} (finishes i e h) c v k = finish_event-Kept i w v k (rw h refl)
  Turn-Kept {w} (idles i h) c v k = elim (list_cases (w.goroutines i).ch) [
    | inl x ↦ rw (idle, x) (leave-Kept i w v k (rw h refl) x)
    | inr ((e, es), x) ↦ rw (idle, x) k
  ]
  Turn-Kept {w} (quits i h l) c v k =
      let u : w.cancelled ≡ false = c in absurd (ground (arith, u, l))

  Run-Kept : {w : World} → Run queue_size ref_of start w → w.cancelled ≡ false → Kept w
  unfolding waiting
  Run-Kept here c = λ s. refl
  Run-Kept (after r t) c =
      let u = uncancelled t c in
      Turn-Kept t c (Run-Owned queue_size ref_of r start-Owned) (Run-Kept r u)

-- What becomes of the events that were queued for a session: all have reached processEvent, or the first
-- of the others is next in the queue of a goroutine at work, which has all of them.
pub data Served (w : World) (s : ℕ) : Type 0 where
  all_started : w.accepted s ≡ w.started s → Served w s
  next_waits :
      (q : ℕ) (e : Event) (rest : List Event)
      → is_live (w.goroutines q) ≡ true
      → (w.goroutines q).session ≡ s
      → (w.goroutines q).ch ≡ e ∷ rest
      → w.accepted s ≡ w.started s ++ e ∷ rest
      → Served w s

-- As long as the context is not cancelled, and however the idle timers fire, no event that was queued
-- is lost and none overtakes another: processEvent is called for a session's events in the order in which
-- they were queued, once for each, and while one waits, a goroutine of the session is at work that has
-- it in its queue.
pub Run-Served :
    (queue_size : ℕ) (ref_of : ℕ → Bytes) (w : World)
    → Run queue_size ref_of start w
    → w.cancelled ≡ false
    → (s : ℕ) → Served w s
unfolding waiting
Run-Served queue_size ref_of w r c s =
    let v = Run-Owned queue_size ref_of r start-Owned in
    let k = Run-Kept queue_size ref_of r c s in
    elim (Option-cases (w.sessions s)) [
      | inl x ↦ all_started (k ∙ rw (waiting, x) (append-nil (w.started s)))
      | inr (q, x) ↦ (elim (list_cases (w.goroutines q).ch) [
        | inl y ↦ all_started (k ∙ rw (waiting, x, y) (append-nil (w.started s)))
        | inr ((e, rest), y) ↦
            (let m = v.mapped s q x in next_waits q e rest m.0 m.1 y (k ∙ rw (waiting, x, y) refl))
      ])
    ]
