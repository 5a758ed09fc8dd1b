-- ===== src/Worker/Stop.antt =====
-- Stop (worker.go) waits for the wait group.
use jamsesh.Prelude.{
  ◌+◌, ◌++◌, ◌<◌, ◌==◌, ==_refl, [], ap, arith, Bool-cases, false, if◌then◌else◌, inl, inr, length,
  list_cases, ltb, none, Option-cases, refl, suc, true, update, ℕ, ◌∷◌, ◌≡◌, ◌≤◌,
}
use jamsesh.Events.Log.{Event}
use jamsesh.Go.Strings.{Bytes}
use jamsesh.Worker.Owners.{Owned, Run-Owned, spawn-Owned, spawned_live, start-Owned}
use jamsesh.Worker.Queue.{
  after, arrives, cancels, dispatches, drains, emit_backpressure, end_dispatch, enqueue, exited,
  finish_event, finishes, gives_up, Goroutine, here, idle, idles, is_live, leave, processing, push,
  quits, receive, receives, Run, selecting, spawn, start, take_event, Turn, unsubscribes, World,
}
use Prim.Native.Nat.{zero}

-- The goroutines at work below a number.
unfoldable pub live_count : ℕ → (ℕ → Goroutine) → ℕ
live_count zero g = 0
live_count (suc n) g = (if is_live (g n) then 1 else 0) + live_count n g

live_count-above :
    (n i : ℕ) (g : ℕ → Goroutine) (x : Goroutine)
    → n ≤ i
    → live_count n (update g i x) ≡ live_count n g
unfolding live_count
live_count-above zero i g x h = refl
live_count-above (suc n) i g x h =
    let e : (n == i) ≡ false = ground (arith, h) in
    rw (e) (
      ap (λ (k : ℕ). (if is_live (g n) then 1 else 0) + k) (live_count-above n i g x (omega arith)))

live_count-update :
    (n i : ℕ) (g : ℕ → Goroutine) (x : Goroutine)
    → i < n
    → live_count n (update g i x) + (if is_live (g i) then 1 else 0)
      ≡ live_count n g + (if is_live x then 1 else 0)
unfolding live_count
live_count-update zero i g x h = elim h [ ]
live_count-update (suc n) i g x h = elim (Bool-cases (n == i)) [
  | inl e ↦
      (let z : n ≡ i = ground (arith, e) in
        rw (e, live_count-above n i g x (omega (arith, z)), z) (omega arith))
  | inr e ↦
      (let lt : i < n = ground (arith, e, h) in
        rw (e) (omega (arith, live_count-update n i g x lt)))
]

live_count_zero :
    (n : ℕ) (g : ℕ → Goroutine) (i : ℕ) → live_count n g ≡ 0 → i < n → is_live (g i) ≡ false
unfolding live_count
live_count_zero zero g i e h = elim h [ ]
live_count_zero (suc n) g i e h = elim (Bool-cases (i == n)) [
  | inl x ↦ ground (arith, e, x)
  | inr x ↦ live_count_zero n g i (ground (arith, e)) (ground (arith, h, x))
]

-- The wait group counts dispatch and the goroutines at work.
abbrev pub Counted : World → Type 0
Counted w = w.wg ≡ (if w.dispatching then 1 else 0) + live_count w.spawned w.goroutines

-- A goroutine that goes on, and one that leaves.
moves-count :
    (n i : ℕ) (g : ℕ → Goroutine) (x : Goroutine)
    → i < n
    → is_live (g i) ≡ true
    → is_live x ≡ true
    → live_count n (update g i x) ≡ live_count n g
moves-count n i g x h l l' = let c = live_count-update n i g x h in ground (arith, c, l, l')

leaves-count :
    (n i : ℕ) (g : ℕ → Goroutine) (x : Goroutine)
    → i < n
    → is_live (g i) ≡ true
    → is_live x ≡ false
    → suc (live_count n (update g i x)) ≡ live_count n g
leaves-count n i g x h l l' = let c = live_count-update n i g x h in ground (arith, c, l, l')

module _ (queue_size : ℕ) (ref_of : ℕ → Bytes) where
  push-Counted :
      (e : Event) (q : ℕ) (w : World)
      → Owned w
      → Counted w
      → is_live (w.goroutines q) ≡ true
      → Counted (push queue_size ref_of e q w)
  unfolding push emit_backpressure
  push-Counted e q w v k l = elim (Bool-cases (ltb (length (w.goroutines q).ch) queue_size)) [
    | inr x ↦ rw (x) k
    | inl x ↦ rw (x) (
        rw
          (moves-count w.spawned q w.goroutines
            (record (w.goroutines q) { ch = (w.goroutines q).ch ++ e ∷ [] }) (v.fresh q l) l l)
          k)
  ]

  spawn-Counted : (s : ℕ) (w : World) → Counted w → Counted (spawn s w)
  unfolding spawn live_count
  spawn-Counted s w k =
      rw
        (
          ==_refl w.spawned,
          live_count-above w.spawned w.spawned w.goroutines
              (record { session = s; ch = []; pc = selecting }) (omega arith),
        )
        (omega (arith, k))

  enqueue-Counted :
      (e : Event) (w : World) → Owned w → Counted w → Counted (enqueue queue_size ref_of e w)
  unfolding enqueue
  enqueue-Counted e w v k = elim (Option-cases (w.sessions e.session_id)) [
    | inr (q, x) ↦ rw (enqueue, x) (push-Counted e q w v k (v.mapped e.session_id q x).0)
    | inl x ↦
        rw (enqueue, x)
          (push-Counted e w.spawned (spawn e.session_id w) (spawn-Owned e.session_id w v x)
            (spawn-Counted e.session_id w k) (spawned_live e.session_id w))
  ]

  leave-Counted :
      (i : ℕ) (w : World)
      → Owned w
      → Counted w
      → is_live (w.goroutines i) ≡ true
      → Counted (leave i w)
  unfolding leave
  leave-Counted i w v k l =
      let c =
        leaves-count w.spawned i w.goroutines (record (w.goroutines i) { pc = exited })
          (v.fresh i l) l refl in
      omega (arith, k, c)

  Turn-Counted : {w w' : World} → Turn queue_size ref_of w w' → Owned w → Counted w → Counted w'
  unfolding take_event end_dispatch receive finish_event idle
  Turn-Counted (arrives e h) v k = k
  Turn-Counted unsubscribes v k = k
  Turn-Counted cancels v k = k
  Turn-Counted {w} (dispatches e rest h l) v k = enqueue-Counted e (take_event rest w) v k
  Turn-Counted (drains h l m) v k = ground (arith, h, k)
  Turn-Counted (gives_up h l) v k = ground (arith, h, k)
  Turn-Counted {w} (receives i e rest h l) v k =
      let n : is_live (w.goroutines i) ≡ true = rw h refl in
      rw
        (moves-count w.spawned i w.goroutines
          (record (w.goroutines i) { ch = rest; pc = processing e }) (v.fresh i n) n refl)
        k
  Turn-Counted {w} (finishes i e h) v k =
      let n : is_live (w.goroutines i) ≡ true = rw h refl in
      rw
        (moves-count w.spawned i w.goroutines (record (w.goroutines i) { pc = selecting })
          (v.fresh i n) n refl)
        k
  Turn-Counted {w} (idles i h) v k = elim (list_cases (w.goroutines i).ch) [
    | inl x ↦ rw (idle, x) (leave-Counted i w v k (rw h refl))
    | inr ((e, es), x) ↦ rw (idle, x) k
  ]
  Turn-Counted {w} (quits i h l) v k = leave-Counted i w v k (rw h refl)

  Run-Counted : {w : World} → Run queue_size ref_of start w → Counted w
  unfolding live_count
  Run-Counted here = refl
  Run-Counted (after r t) =
      Turn-Counted t (Run-Owned queue_size ref_of r start-Owned) (Run-Counted r)

-- When the wait group is at zero, which is when Stop returns without an error, dispatch has ended, no
-- goroutine of any session is at work, and the map is empty.
pub stop_waits :
    (queue_size : ℕ) (ref_of : ℕ → Bytes) (w : World)
    → Run queue_size ref_of start w
    → w.wg ≡ 0
    → (w.dispatching ≡ false)
      × ((i : ℕ) → is_live (w.goroutines i) ≡ false)
      × ((s : ℕ) → w.sessions s ≡ none)
stop_waits queue_size ref_of w r z =
    let v = Run-Owned queue_size ref_of r start-Owned in
    let k = Run-Counted queue_size ref_of r in
    let c : live_count w.spawned w.goroutines ≡ 0 = ground (arith, k, z) in
    let none_live : (i : ℕ) → is_live (w.goroutines i) ≡ false = λ i.
      elim (Bool-cases (is_live (w.goroutines i))) [
        | inr x ↦ x
        | inl x ↦ live_count_zero w.spawned w.goroutines i c (v.fresh i x)
      ] in
    (
      ground (arith, k, z),
      none_live,
      λ s. elim (Option-cases (w.sessions s)) [
        | inl x ↦ x
        | inr (q, x) ↦ absurd (ground (arith, v.mapped s q x, none_live q))
      ],
    )
