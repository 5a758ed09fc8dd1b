-- ===== src/Router/Successor.antt =====
-- Which pod of the ring (ring.go) answers for a key, and which one is tried next.
use jamsesh.Prelude.{
  Bool-cases, ◌%◌, ap, inr, length-append, ◌+◌, inl, Option-cases, refl, arith, ◌≢◌, length, ◌∷◌,
  ◌++◌, true, ◌<◌, some, ◌⊎◌, ◌≤◌, ℕ, List, ◌≡◌, All,
}
use jamsesh.Go.Strings.{Bytes, same, same_eq, same_iff, same_refl}
use jamsesh.Router.Ring.{
  all_vnodes, find_pod, get, get_next, hash_key, no_pod, Pod, pod_of, set_pods, Snapshot, start,
  Std, Vnode, vnodes_of, walk,
}
use jamsesh.Router.Search.{
  All_get_elem, All-map, Ascending, get_elem-length, Owner, Sorts, start-Owner, start-length,
}
use Prim.Native.Nat.{suc, zero}
use mathlib.Core.List.{[]}
use native.Mathlib.Nat.{mod-lt}

-- The vnode belongs to a pod of the map.
abbrev Known : List Pod → Vnode → Type 0
Known ps v = (p : Pod) × (find_pod v.pod_id ps ≡ some p) × (p.id ≡ v.pod_id)

find_pod_known : (ps : List Pod) (p : Pod) (id : Bytes) → find_pod id ps ≡ some p → p.id ≡ id
unfolding find_pod
find_pod_known [] p id h = cc
find_pod_known (q ∷ ps) p id h =
    ground (arith, Option-cases (find_pod id ps), find_pod_known ps p id, same_eq q.id id)

find_pod_cons :
    (q : Pod) (ps : List Pod) (id : Bytes)
    → same q.id id ≡ true
    → (p : Pod) × (find_pod id (q ∷ ps) ≡ some p)
unfolding find_pod
find_pod_cons q ps id h = elim (Option-cases (find_pod id ps)) [
  | inl e ↦ (q, ground arith)
  | inr (p, e) ↦ (p, ground arith)
]

find_pod_later :
    (q : Pod) (ps : List Pod) (id : Bytes) (p : Pod)
    → find_pod id ps ≡ some p
    → find_pod id (q ∷ ps) ≡ some p
unfolding find_pod
find_pod_later q ps id p h = ground arith

All-append {ℓ} :
    {A : Type ℓ} (P : A → Type 0) (xs ys : List A) → All P xs → All P ys → All P (xs ++ ys)
All-append P [] ys v w = w
All-append P (x ∷ xs) ys v w = (v.0, All-append P xs ys v.1 w)

module _ (std : Std) where
  vnodes_of-Known :
      (p : Pod) (ps : List Pod) (i n : ℕ) → All (Known (p ∷ ps)) (vnodes_of std p.id i n)
  unfolding vnodes_of
  vnodes_of-Known p ps i zero = tt
  vnodes_of-Known p ps i (suc n) =
      let (q, e) = find_pod_cons p ps p.id (same_refl p.id) in
      ((q, e, find_pod_known (p ∷ ps) q p.id e), vnodes_of-Known p ps (suc i) n)

  all_vnodes-Known : (n : ℕ) (ps : List Pod) → All (Known ps) (all_vnodes std n ps)
  unfolding all_vnodes
  all_vnodes-Known n [] = tt
  all_vnodes-Known n (p ∷ ps) =
      All-append (Known (p ∷ ps)) (vnodes_of std p.id 0 n) (all_vnodes std n ps)
        (vnodes_of-Known p ps 0 n)
        (All-map (Known ps) (Known (p ∷ ps))
          (λ v k. (k.0, find_pod_later p ps v.pod_id k.0 k.1, k.2)) (all_vnodes std n ps)
          (all_vnodes-Known n ps))

  length-vnodes_of : (id : Bytes) (i n : ℕ) → length (vnodes_of std id i n) ≡ n
  unfolding vnodes_of
  length-vnodes_of id i zero = refl
  length-vnodes_of id i (suc n) = ap suc (length-vnodes_of id (suc i) n)

  -- On a snapshot whose vnodes are in order and belong to pods, Get finds an owner.
  get_sorted :
      (snap : Snapshot) (key : Bytes)
      → Ascending snap.vnodes
      → All (Known snap.pods) snap.vnodes
      → 0 < length snap.vnodes
      → (v : Vnode) × (p : Pod) × Owner (hash_key std key) snap.vnodes v
        × (find_pod v.pod_id snap.pods ≡ some p)
        × (p.id ≡ v.pod_id)
        × (get std snap key ≡ some p)
  unfolding get pod_of
  get_sorted snap key a k n = found snap.vnodes refl a k n
    where
      found :
          (vs : List Vnode)
          → snap.vnodes ≡ vs
          → Ascending vs
          → All (Known snap.pods) vs
          → 0 < length vs
          → (v : Vnode) × (p : Pod) × Owner (hash_key std key) snap.vnodes v
            × (find_pod v.pod_id snap.pods ≡ some p)
            × (p.id ≡ v.pod_id)
            × (get std snap key ≡ some p)
      found [] e a k n = absurd (omega arith)
      found (x ∷ vs) e a k n =
          let h = hash_key std key in
          let (v, q) = get_elem-length (x ∷ vs) (start h (x ∷ vs)) (start-length h x vs) in
          let (p, f, i) = All_get_elem (Known snap.pods) (x ∷ vs) (start h (x ∷ vs)) v k q in
          (v, p, rw e (start-Owner h x vs v a q), f, i, rw (e, get, q, pod_of, f) refl)

  set_pods_sorted :
      (count : ℕ) (ps : List Pod)
      → Sorts std.sort_slice
      → Ascending (set_pods std count ps).vnodes
        × All (Known ps) (set_pods std count ps).vnodes
        × ((set_pods std count ps).pods ≡ ps)
        × (length (set_pods std count ps).vnodes ≡ length (all_vnodes std count ps))
  unfolding set_pods all_vnodes
  set_pods_sorted count [] s = (tt, tt, refl, refl)
  set_pods_sorted count (p ∷ ps) s = (
    s.ascending (all_vnodes std count (p ∷ ps)),
    s.keeps (Known (p ∷ ps)) (all_vnodes std count (p ∷ ps)) (all_vnodes-Known count (p ∷ ps)),
    refl,
    s.same_length (all_vnodes std count (p ∷ ps)),
  )

  all_vnodes_some :
      (count : ℕ) (ps : List Pod) → 1 ≤ count → 1 ≤ length ps → 0 < length (all_vnodes std count ps)
  unfolding all_vnodes
  all_vnodes_some count [] c n = absurd (omega arith)
  all_vnodes_some count (p ∷ ps) c n = omega (
    arith,
    length-append (vnodes_of std p.id 0 count) (all_vnodes std count ps),
    length-vnodes_of p.id 0 count,
  )

-- After SetPods with at least one pod and one virtual node for each, Get answers with a pod of the set:
-- the one whose virtual node, one of the ring's, is the first at or above the key's hash, or the first of
-- all where the hash lies above them all. It relies on sort.Slice to sort.
pub get-Owner :
    (std : Std) (count : ℕ) (ps : List Pod) (key : Bytes)
    → Sorts std.sort_slice
    → 1 ≤ count
    → 1 ≤ length ps
    → let snap = set_pods std count ps in
      (v : Vnode) × (p : Pod) × Owner (hash_key std key) snap.vnodes v
      × (find_pod v.pod_id snap.pods ≡ some p)
      × (p.id ≡ v.pod_id)
      × (get std snap key ≡ some p)
get-Owner std count ps key s c n =
    let (a, k, e, l) = set_pods_sorted std count ps s in
    get_sorted std (set_pods std count ps) key a (rw e k)
      (omega (arith, all_vnodes_some std count ps c n))

-- The pods that GetNext may answer with.
abbrev pub Other : Bytes → Pod → Type 0
Other skip p = (p ≡ no_pod) ⊎ (p.id ≢ skip)

walk-Other :
    (std : Std) (ps : List Pod) (vs : List Vnode) (skip : Bytes) (from i n : ℕ)
    → All (Known ps) vs
    → 0 < length vs
    → (p : Pod) × (walk std ps vs skip from i n ≡ some p) × Other skip p
unfolding walk pod_of
walk-Other std ps vs skip from i zero k l = (no_pod, refl, inl refl)
walk-Other std ps vs skip from i (suc n) k l =
    let (p, e, o) = walk-Other std ps vs skip from (suc i) n k l in
    let (w, q) = get_elem-length vs ((from + i) % length vs) (mod-lt (from + i) l) in
    let (u, f, g) = All_get_elem (Known ps) vs ((from + i) % length vs) w k q in
    elim (Bool-cases (same w.pod_id skip)) [
      | inl y ↦ (p, ground arith, o)
      | inr y ↦ (u, ground arith, inr (λ h. ground (arith, same_iff w.pod_id skip)))
    ]

-- With at least one pod, GetNext always finds its index in range, and answers with the zero pod or with
-- a pod other than the one to skip. It relies on sort.Slice to keep the elements.
pub get_next-Other :
    (std : Std) (count : ℕ) (ps : List Pod) (key skip : Bytes)
    → Sorts std.sort_slice
    → 1 ≤ count
    → 1 ≤ length ps
    → (p : Pod) × (get_next std (set_pods std count ps) key skip ≡ some p) × Other skip p
unfolding get_next walk
get_next-Other std count ps key skip s c n =
    let (a, k, e, l) = set_pods_sorted std count ps s in
    next (set_pods std count ps).vnodes refl (rw e k)
      (omega (arith, all_vnodes_some std count ps c n))
  where
    next :
        (vs : List Vnode)
        → (set_pods std count ps).vnodes ≡ vs
        → All (Known (set_pods std count ps).pods) vs
        → 0 < length vs
        → (p : Pod) × (get_next std (set_pods std count ps) key skip ≡ some p) × Other skip p
    next [] e k l = absurd (omega arith)
    next (v ∷ vs) e k l =
        let (p, w, o) =
          walk-Other std (set_pods std count ps).pods (v ∷ vs) skip
            (start (hash_key std key) (v ∷ vs)) 1 (length vs) k l in
        (p, rw (e, get_next) w, o)
