-- ===== src/Router/Ring.antt =====
-- internal/router/ring/ring.go. The atomic pointer is the snapshot that a call loads. `Std` is what the
-- code uses of Go's library: hash/fnv, the decimal form of an int, and sort.Slice by the hash.
use mathlib.Core.Option
use jamsesh.Prelude.{
  ◌%◌, ◌+◌, ◌++◌, ◌==◌, [], get_elem?, if◌then◌else◌, leb, length, List, none, Option, some, suc, ℕ,
  ◌∷◌,
}
use jamsesh.Go.Strings.{Bytes, same}
use Prim.Native.Nat.{zero}

pub record Pod : Type 0 where
  pub id : Bytes
  pub address : Bytes

abbrev pub no_pod : Pod
no_pod = record { id = []; address = [] }

pub record Vnode : Type 0 where
  pub hash : ℕ
  pub pod_id : Bytes

-- `pods` is the list that the map is built from.
pub record Snapshot : Type 0 where
  pub vnodes : List Vnode
  pub pods : List Pod

pub record Std : Type 0 where
  pub sum64 : Bytes → ℕ
  pub decimal : ℕ → Bytes
  pub sort_slice : List Vnode → List Vnode

-- A lookup in the map, whose later writes win.
unfoldable pub find_pod : Bytes → List Pod → Option Pod
unfolding same
find_pod id [] = none
find_pod id (p ∷ ps) =
    let later = find_pod id ps in
    elim later [ some q ↦ some q | none ↦ if same p.id id then some p else none ]

-- `snap.pods[id]`: the zero value for a missing key.
unfoldable pub pod_of : Bytes → List Pod → Pod
unfolding find_pod
pod_of id ps = elim (find_pod id ps) [ none ↦ no_pod | some p ↦ p ]

-- sort.Search for the first vnode with a hash of at least `h`; the length if there is none.
unfoldable pub search_index : ℕ → List Vnode → ℕ
search_index h [] = 0
search_index h (v ∷ vs) = let rest = search_index h vs in if leb h v.hash then 0 else suc rest

unfoldable pub start : ℕ → List Vnode → ℕ
unfolding search_index
start h vs = if search_index h vs == length vs then 0 else search_index h vs

module _ (std : Std) where
  unfoldable pub hash_vnode : Bytes → ℕ → ℕ
  hash_vnode id i = std.sum64 (id ++ b':' ∷ std.decimal i)

  unfoldable pub hash_key : Bytes → ℕ
  hash_key key = std.sum64 key

  -- The inner loop of SetPods, with `i` rounds done and `n` to come.
  unfoldable pub vnodes_of : Bytes → ℕ → ℕ → List Vnode
  unfolding hash_vnode
  vnodes_of id i zero = []
  vnodes_of id i (suc n) = record { hash = hash_vnode id i; pod_id = id } ∷ vnodes_of id (suc i) n

  unfoldable pub all_vnodes : ℕ → List Pod → List Vnode
  unfolding vnodes_of
  all_vnodes count [] = []
  all_vnodes count (p ∷ ps) = vnodes_of p.id 0 count ++ all_vnodes count ps

  -- SetPods
  unfoldable pub set_pods : ℕ → List Pod → Snapshot
  unfolding all_vnodes
  set_pods count [] = record { vnodes = []; pods = [] }
  set_pods count (p ∷ ps) = record {
    vnodes = std.sort_slice (all_vnodes count (p ∷ ps));
    pods = p ∷ ps;
  }

  -- Get: `none` is an index out of range.
  unfoldable pub get : Snapshot → Bytes → Option Pod
  unfolding hash_key start pod_of
  get snap key = elim snap.vnodes [
    | [] ↦ some no_pod
    | v ∷ vs ↦
        Option.map (λ w. pod_of w.pod_id snap.pods)
          (get_elem? (v ∷ vs) (start (hash_key key) (v ∷ vs)))
  ]

  -- The loop of GetNext, with `n` rounds to come.
  unfoldable pub walk : List Pod → List Vnode → Bytes → ℕ → ℕ → ℕ → Option Pod
  unfolding pod_of same
  walk pods vs skip from i zero = some no_pod
  walk pods vs skip from i (suc n) =
      let rest = walk pods vs skip from (suc i) n in
      elim (get_elem? vs ((from + i) % length vs)) [
        | none ↦ none
        | some w ↦ if same w.pod_id skip then rest else some (pod_of w.pod_id pods)
      ]

  -- GetNext
  unfoldable pub get_next : Snapshot → Bytes → Bytes → Option Pod
  unfolding hash_key start walk
  get_next snap key skip = elim snap.vnodes [
    | [] ↦ some no_pod
    | v ∷ vs ↦ walk snap.pods (v ∷ vs) skip (start (hash_key key) (v ∷ vs)) 1 (length vs)
  ]
