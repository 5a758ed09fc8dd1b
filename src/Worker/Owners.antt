-- ===== src/Worker/Owners.antt =====
-- The map of worker.go and the goroutines: one goroutine for each session of the map, and no other.
use jamsesh.Prelude.{
  ◌++◌, ◌<◌, ◌==◌, [], arith, Bool-cases, false, inl, inr, length, list_cases, ltb, none, Option,
  Option-cases, refl, some, suc, true, update, ℕ, ◌↔◌, ◌∷◌, ◌≡◌,
}
use jamsesh.Events.Log.{Event}
use jamsesh.Go.Strings.{Bytes}
use jamsesh.Worker.Queue.{
  after, arrives, cancels, dispatches, drains, emit_backpressure, end_dispatch, enqueue, exited,
  finish_event, finishes, gives_up, Goroutine, here, idle, idles, is_live, leave, processing, push,
  quits, receive, receives, Run, selecting, spawn, start, take_event, Turn, unsubscribes, World,
}

-- The map has the live goroutines, each under its session, and the numbers below `spawned` are in use.
pub record Owners (sessions : ℕ → Option ℕ) (goroutines : ℕ → Goroutine) (spawned : ℕ)
    : Type 0 where
  pub mapped :
      (s q : ℕ)
      → sessions s ≡ some q
      → (is_live (goroutines q) ≡ true) × ((goroutines q).session ≡ s)
  pub owns : (i : ℕ) → is_live (goroutines i) ≡ true → sessions (goroutines i).session ≡ some i
  pub fresh : (i : ℕ) → is_live (goroutines i) ≡ true → i < spawned

-- A goroutine stays at work for its session.
moves-Owners :
    (sessions : ℕ → Option ℕ) (goroutines : ℕ → Goroutine) (spawned i : ℕ) (g : Goroutine)
    → Owners sessions goroutines spawned
    → is_live (goroutines i) ≡ true
    → is_live g ≡ true
    → g.session ≡ (goroutines i).session
    → Owners sessions (update goroutines i g) spawned
moves-Owners sessions goroutines spawned i g v l l' same = record {
  mapped = λ s q e. elim (Bool-cases (q == i)) [
    | inl x ↦ ground (arith, v.mapped s q e)
    | inr x ↦ ground (arith, v.mapped s q e)
  ];
  owns = λ a h. elim (Bool-cases (a == i)) [
    | inl x ↦ ground (arith, v.owns i l)
    | inr x ↦ ground (arith, v.owns a)
  ];
  fresh = λ a h. elim (Bool-cases (a == i)) [
    | inl x ↦ ground (arith, v.fresh i l)
    | inr x ↦ ground (arith, v.fresh a)
  ];
}

spawn-Owners :
    (sessions : ℕ → Option ℕ) (goroutines : ℕ → Goroutine) (spawned s : ℕ)
    → Owners sessions goroutines spawned
    → sessions s ≡ none
    → Owners
        (update sessions s (some spawned))
        (update goroutines spawned (record { session = s; ch = []; pc = selecting }))
        (suc spawned)
spawn-Owners sessions goroutines spawned s v free = record {
  mapped = λ t q e. elim (Bool-cases (t == s)) [
    | inl x ↦ ground arith
    | inr x ↦ ground (arith, v.mapped t q, v.fresh q)
  ];
  owns = λ a h. elim (Bool-cases (a == spawned)) [
    | inl x ↦ ground arith
    | inr x ↦ ground (arith, v.owns a)
  ];
  fresh = λ a h. elim (Bool-cases (a == spawned)) [
    | inl x ↦ ground arith
    | inr x ↦ ground (arith, v.fresh a)
  ];
}

leave-Owners :
    (sessions : ℕ → Option ℕ) (goroutines : ℕ → Goroutine) (spawned i : ℕ) (g : Goroutine)
    → Owners sessions goroutines spawned
    → is_live (goroutines i) ≡ true
    → is_live g ≡ false
    → Owners (update sessions (goroutines i).session none) (update goroutines i g) spawned
leave-Owners sessions goroutines spawned i g v l dead = record {
  mapped = λ t q e. elim (Bool-cases (t == (goroutines i).session)) [
    | inl x ↦ ground arith
    | inr x ↦ ground (arith, v.mapped t q)
  ];
  owns = λ a h. elim (Bool-cases (a == i)) [
    | inl x ↦ ground arith
    | inr x ↦ ground (arith, v.owns a, v.owns i l)
  ];
  fresh = λ a h. elim (Bool-cases (a == i)) [
    | inl x ↦ ground arith
    | inr x ↦ ground (arith, v.fresh a)
  ];
}

abbrev pub Owned : World → Type 0
Owned w = Owners w.sessions w.goroutines w.spawned

pub spawn-Owned : (s : ℕ) (w : World) → Owned w → w.sessions s ≡ none → Owned (spawn s w)
unfolding spawn
spawn-Owned s w v x = spawn-Owners w.sessions w.goroutines w.spawned s v x

pub spawned_live : (s : ℕ) (w : World) → is_live ((spawn s w).goroutines w.spawned) ≡ true
unfolding spawn
spawned_live s w = ground arith

pub spawned_session : (s : ℕ) (w : World) → ((spawn s w).goroutines w.spawned).session ≡ s
unfolding spawn
spawned_session s w = ground arith

module _ (queue_size : ℕ) (ref_of : ℕ → Bytes) where
  push-Owned :
      (e : Event) (q : ℕ) (w : World)
      → Owned w
      → is_live (w.goroutines q) ≡ true
      → Owned (push queue_size ref_of e q w)
  unfolding push emit_backpressure
  push-Owned e q w v l = elim (Bool-cases (ltb (length (w.goroutines q).ch) queue_size)) [
    | inr x ↦ rw (x) v
    | inl x ↦ rw (x) (
        moves-Owners w.sessions w.goroutines w.spawned q
          (record (w.goroutines q) { ch = (w.goroutines q).ch ++ e ∷ [] }) v l l refl)
  ]

  enqueue-Owned : (e : Event) (w : World) → Owned w → Owned (enqueue queue_size ref_of e w)
  unfolding enqueue
  enqueue-Owned e w v = elim (Option-cases (w.sessions e.session_id)) [
    | inr (q, x) ↦ rw (enqueue, x) (push-Owned e q w v (v.mapped e.session_id q x).0)
    | inl x ↦
        rw (enqueue, x)
          (push-Owned e w.spawned (spawn e.session_id w) (spawn-Owned e.session_id w v x)
            (spawned_live e.session_id w))
  ]

  pub Turn-Owned : {w w' : World} → Turn queue_size ref_of w w' → Owned w → Owned w'
  unfolding take_event end_dispatch receive finish_event leave idle
  Turn-Owned (arrives e h) v = v
  Turn-Owned unsubscribes v = v
  Turn-Owned cancels v = v
  Turn-Owned {w} (dispatches e rest h k) v = enqueue-Owned e (take_event rest w) v
  Turn-Owned (drains h k l) v = v
  Turn-Owned (gives_up h k) v = v
  Turn-Owned {w} (receives i e rest h k) v =
      moves-Owners w.sessions w.goroutines w.spawned i
        (record (w.goroutines i) { ch = rest; pc = processing e }) v (rw h refl) refl refl
  Turn-Owned {w} (finishes i e h) v =
      moves-Owners w.sessions w.goroutines w.spawned i (record (w.goroutines i) { pc = selecting })
        v (rw h refl) refl refl
  Turn-Owned {w} (idles i h) v = elim (list_cases (w.goroutines i).ch) [
    | inl x ↦
        rw (idle, x)
          (leave-Owners w.sessions w.goroutines w.spawned i
            (record (w.goroutines i) { pc = exited }) v (rw h refl) refl)
    | inr ((e, es), x) ↦ rw (idle, x) v
  ]
  Turn-Owned {w} (quits i h k) v =
      leave-Owners w.sessions w.goroutines w.spawned i (record (w.goroutines i) { pc = exited }) v
        (rw h refl) refl

  pub Run-Owned : {w w' : World} → Run queue_size ref_of w w' → Owned w → Owned w'
  Run-Owned here v = v
  Run-Owned (after r s) v = Turn-Owned s (Run-Owned r v)

pub start-Owned : Owned start
start-Owned = record { mapped = λ s q e. cc; owns = λ i h. cc; fresh = λ i h. cc }

-- However the goroutines of the worker interleave, a session has at most one goroutine at work, so that
-- no two merges of a session run at the same time, and it is the one of the map: a session has an entry
-- exactly when it has a goroutine at work.
pub one_drainer :
    (queue_size : ℕ) (ref_of : ℕ → Bytes) (w : World)
    → Run queue_size ref_of start w
    → ((i j : ℕ)
        → is_live (w.goroutines i) ≡ true
        → is_live (w.goroutines j) ≡ true
        → (w.goroutines i).session ≡ (w.goroutines j).session
        → i ≡ j)
      × ((s q : ℕ)
          → (w.sessions s ≡ some q)
            ↔ ((is_live (w.goroutines q) ≡ true) × ((w.goroutines q).session ≡ s)))
one_drainer queue_size ref_of w r =
    let v = Run-Owned queue_size ref_of r start-Owned in
    (
      λ i j li lj e. ground (arith, v.owns i li, v.owns j lj),
      λ s q. (v.mapped s q, λ h. ground (arith, h, v.owns q)),
    )
