-- ===== src/Automerger/Tree.antt =====
-- merge.go: flattenTree and buildTree.
use jamsesh.Prelude.{
  ◌++◌, ◌==◌, [], Bool, false, if◌then◌else◌, List, ltb, map, none, Option, some, suc, true, ℕ, ◌∷◌,
}
use jamsesh.Automerger.Merge.{TreeEntry}
use jamsesh.Automerger.Repo.{Child, Repo}
use jamsesh.Go.Maps.{get, Map, put}
use jamsesh.Go.Strings.{Bytes}

-- A tree that was read, with the entries of a directory below it, unless that cannot be read.
mutual
  pub data Node : Type 0 where
    file_node : Bytes → ℕ → ℕ → Node
    dir_node : Bytes → Nodes → Node
    unread_dir : Bytes → Node

  pub data Nodes : Type 0 where
    no_nodes : Nodes
    node_then : Node → Nodes → Nodes

unfoldable pub full_path : (prefix name : Bytes) → Bytes
full_path [] name = name
full_path (c ∷ p) name = (c ∷ p) ++ 47 ∷ name

unfoldable mutual
  unfolding full_path put

  pub flatten_into : Nodes → Bytes → Map TreeEntry → Option (Map TreeEntry)
  flatten_into no_nodes prefix out = some out
  flatten_into (node_then n ns) prefix out = elim (flatten_node n prefix out) [
    | none ↦ none
    | some out' ↦ flatten_into ns prefix out'
  ]

  pub flatten_node : Node → Bytes → Map TreeEntry → Option (Map TreeEntry)
  flatten_node (file_node name hash mode) prefix out =
      some (put out (full_path prefix name) (record { hash = hash; mode = mode }))
  flatten_node (unread_dir name) prefix out = none
  flatten_node (dir_node name sub) prefix out = flatten_into sub (full_path prefix name) out

unfoldable pub flatten_tree : Nodes → Option (Map TreeEntry)
unfolding flatten_into
flatten_tree root = flatten_into root [] []

-- The order of strings, and the order of the directories: deeper first, then the later name.
unfoldable pub less : Bytes → Bytes → Bool
less s [] = false
less [] (d ∷ t) = true
less (c ∷ s) (d ∷ t) = let rest = less s t in if c == d then rest else ltb c d

unfoldable pub count_slashes : Bytes → ℕ
count_slashes [] = 0
count_slashes (c ∷ s) = if c == 47 then suc (count_slashes s) else count_slashes s

unfoldable pub dir_before : Bytes → Bytes → Bool
unfolding less count_slashes
dir_before a b =
    if count_slashes a == count_slashes b then less b a else ltb (count_slashes b) (count_slashes a)

module _ {ℓ} {A : Type ℓ} where
  unfoldable pub insert_by : (A → A → Bool) → A → List A → List A
  insert_by lt x [] = x ∷ []
  insert_by lt x (y ∷ ys) = elim (lt y x) [ true ↦ y ∷ insert_by lt x ys | false ↦ x ∷ y ∷ ys ]

  -- `sort.Slice`.
  unfoldable pub sort_by : (A → A → Bool) → List A → List A
  unfolding insert_by
  sort_by lt [] = []
  sort_by lt (x ∷ xs) = insert_by lt x (sort_by lt xs)

-- `filepath.Dir`, with "" for ".", and `filepath.Base`, of the clean paths of git: what stands before the
-- last slash and behind it.
unfoldable pub split_path : Bytes → Bytes × Bytes
split_path [] = ([], [])
split_path (c ∷ s) =
    let (dir, name) = split_path s in
    if count_slashes s == 0
    then (if c == 47 then ([], name) else ([], c ∷ name))
    else (c ∷ dir, name)

-- `parts[:i]` joined again, for each i below their number.
unfoldable pub parents : Bytes → List Bytes
parents [] = []
parents (c ∷ s) = let rest = map (λ d. c ∷ d) (parents s) in if c == 47 then [] ∷ rest else rest

unfoldable pub add_dirs : Map Bool → List Bytes → Map Bool
unfolding put
add_dirs dirs [] = dirs
add_dirs dirs (d ∷ ds) = add_dirs (put dirs d true) ds

unfoldable pub all_dirs : Map Bool → Map TreeEntry → Map Bool
unfolding add_dirs parents
all_dirs dirs [] = dirs
all_dirs dirs ((path, e) ∷ es) = all_dirs (add_dirs dirs (parents path)) es

unfoldable pub keys {ℓ} : {A : Type ℓ} → Map A → List Bytes
keys [] = []
keys ((k, a) ∷ m) = k ∷ keys m

-- `dirChildren[dir] = append(dirChildren[dir], child)`
unfoldable pub add_child : Map (List Child) → Bytes → Child → Map (List Child)
unfolding get put
add_child m dir c = elim (get m dir) [
  | none ↦ put m dir (c ∷ [])
  | some cs ↦ put m dir (cs ++ c ∷ [])
]

unfoldable pub seed : Map (List Child) → Map TreeEntry → Map (List Child)
unfolding add_child split_path
seed m [] = m
seed m ((path, e) ∷ es) =
    let (dir, name) = split_path path in
    seed (add_child m dir (record { name = name; hash = e.hash; mode = e.mode })) es

unfoldable pub children_of : Map (List Child) → Bytes → List Child
unfolding get sort_by
children_of m dir = elim (get m dir) [
  | none ↦ []
  | some cs ↦ sort_by (λ a b. less a.name b.name) cs
]

-- `filemode.Dir`
abbrev pub dir_mode : ℕ
dir_mode = 16384

-- The registration of a tree below its parent.
unfoldable pub register : Map (List Child) → Bytes → ℕ → Map (List Child)
unfolding add_child split_path
register m [] h = m
register m (c ∷ dir) h =
    let (parent, name) = split_path (c ∷ dir) in
    add_child m parent (record { name = name; hash = h; mode = dir_mode })

module _ (r : Repo) where
  -- The loop over the directories, with the hash of the root so far.
  unfoldable pub build_dirs : List Bytes → Map (List Child) → ℕ → r.State → Option ℕ × r.State
  unfolding children_of register
  build_dirs [] m root s = (some root, s)
  build_dirs (dir ∷ dirs) m root s =
      let (h, s') = r.write_tree s (children_of m dir) in
      elim h [
        | none ↦ (none, s')
        | some h' ↦ build_dirs dirs (register m dir h') (elim dir [ [] ↦ h' | c ∷ d ↦ root ]) s'
      ]

  unfoldable pub build_tree : r.State → Map TreeEntry → Option ℕ × r.State
  unfolding build_dirs sort_by dir_before all_dirs seed keys
  build_tree s entries =
      build_dirs (sort_by dir_before (keys (all_dirs (([], true) ∷ []) entries))) (seed [] entries)
        0 s
