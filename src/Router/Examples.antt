-- ===== src/Router/Examples.antt =====
-- The router on small inputs.
use jamsesh.Router.Extract.{session_id}
use jamsesh.Prelude.{
  ◌++◌, ◌+◌, [], All, ap, arith, Bool-cases, if◌then◌else◌, inl, inr, leb, length, List, pos, refl,
  some, suc, ℕ, ◌∙◌, ◌∷◌, ◌≡◌, ◌≤◌,
}
use jamsesh.Go.Strings.{free_of, Bytes, codes}
use jamsesh.Router.Cache.{Call, gets, Hint, new_hint, run, sets}
use jamsesh.Router.Recency.{Bounded, run-Bounded}
use jamsesh.Router.Ring.{find_pod, get, hash_key, Pod, set_pods, Std, Vnode}
use jamsesh.Router.Shapes.{rest_path, session_id_rest}
use jamsesh.Router.Search.{All-map, Ascending, Owner, Sorts}
use jamsesh.Router.Successor.{get-Owner}

insert : Vnode → List Vnode → List Vnode
insert v [] = v ∷ []
insert v (w ∷ ws) = let rest = insert v ws in if leb v.hash w.hash then v ∷ w ∷ ws else w ∷ rest

insert_all : List Vnode → List Vnode
unfolding insert
insert_all [] = []
insert_all (v ∷ vs) = insert v (insert_all vs)

length-insert : (v : Vnode) (ws : List Vnode) → length (insert v ws) ≡ suc (length ws)
unfolding insert
length-insert v [] = refl
length-insert v (w ∷ ws) = ground (arith, length-insert v ws)

insert-All :
    (P : Vnode → Type 0) (v : Vnode) (ws : List Vnode) → P v → All P ws → All P (insert v ws)
unfolding insert
insert-All P v [] h k = (h, tt)
insert-All P v (w ∷ ws) h k = elim (Bool-cases (leb v.hash w.hash)) [
  | inl e ↦ rw e (h, k)
  | inr e ↦ rw e (k.0, insert-All P v ws h k.1)
]

insert-Ascending : (v : Vnode) (ws : List Vnode) → Ascending ws → Ascending (insert v ws)
unfolding insert
insert-Ascending v [] a = (tt, tt)
insert-Ascending v (w ∷ ws) a = elim (Bool-cases (leb v.hash w.hash)) [
  | inl e ↦ rw e (
    (
      ground arith,
      All-map (λ x. w.hash ≤ x.hash) (λ x. v.hash ≤ x.hash) (λ x k. ground arith) ws a.0,
    ),
    a,
  )
  | inr e ↦
      rw e (insert-All (λ x. w.hash ≤ x.hash) v ws (ground arith) a.0, insert-Ascending v ws a.1)
]

insert_all-Sorts : Sorts insert_all
unfolding insert_all
insert_all-Sorts = record { ascending = ordered; same_length = measured; keeps = kept }
  where
    ordered : (vs : List Vnode) → Ascending (insert_all vs)
    ordered [] = tt
    ordered (v ∷ vs) = insert-Ascending v (insert_all vs) (ordered vs)

    measured : (vs : List Vnode) → length (insert_all vs) ≡ length vs
    measured [] = refl
    measured (v ∷ vs) = length-insert v (insert_all vs) ∙ ap suc (measured vs)

    kept : (P : Vnode → Type 0) (vs : List Vnode) → All P vs → All P (insert_all vs)
    kept P [] w = tt
    kept P (v ∷ vs) w = insert-All P v (insert_all vs) w.0 (kept P vs w.1)

-- A hash that adds the bytes up.
sum_bytes : Bytes → ℕ
sum_bytes [] = 0
sum_bytes (c ∷ s) = c + sum_bytes s

abbrev small_std : Std
small_std = record { sum64 = sum_bytes; decimal = λ i. (b'0' + i) ∷ []; sort_slice = insert_all }

abbrev two_pods : List Pod
two_pods =
    record { id = codes "a"; address = codes "a:80" }
    ∷ record { id = codes "b"; address = codes "b:80" }
    ∷ []

get-Owner_example :
    let snap = set_pods small_std 2 two_pods in
    (v : Vnode) × (p : Pod) × Owner (hash_key small_std (codes "s")) snap.vnodes v
    × (find_pod v.pod_id snap.pods ≡ some p)
    × (p.id ≡ v.pod_id)
    × (get small_std snap (codes "s") ≡ some p)
get-Owner_example =
    get-Owner small_std 2 two_pods (codes "s") insert_all-Sorts (omega arith) (omega arith)

abbrev empty_cache : Hint
empty_cache = record { max_entries = 2; ttl = 10; ll = [] }

abbrev calls : List Call
calls = sets 1 7 0 ∷ sets 2 8 1 ∷ gets 1 2 ∷ sets 3 9 3 ∷ []

run-Bounded_example : Bounded (run calls empty_cache)
unfolding new_hint
run-Bounded_example = run-Bounded (pos 2) (pos 10) empty_cache calls refl

session_id_rest_example :
    (session_id (rest_path (codes "o") (codes "s1")) [] ≡ codes "s1")
    × (session_id (rest_path (codes "o") (codes "s1" ++ b'/' ∷ [])) [] ≡ codes "s1")
    × (session_id (rest_path (codes "o") (codes "s1" ++ b'/' ∷ (b'x' ∷ []))) [] ≡ codes "s1")
unfolding free_of
session_id_rest_example =
    session_id_rest (codes "o") (codes "s1") [] b'x' [] refl refl (omega arith)
