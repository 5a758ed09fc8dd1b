-- ===== src/Router/Cache.antt =====
-- internal/router/cache/hint.go. The list holds the most recently used entry first. The map of the source
-- sends the id of each element of the list to that element, so a lookup in it is a search of the list.
use jamsesh.Prelude.{
  ◌+◌, ◌==◌, if◌then◌else◌, leb, length, List, ltb, none, Option, pos, some, ℕ, ℤ, ◌∷◌,
}
use Prim.Native.Nat.{suc}
use mathlib.Core.List.{[]}

pub record Entry : Type 0 where
  pub session_id : ℕ
  pub pod_id : ℕ
  pub expiry : ℕ

pub record Hint : Type 0 where
  pub max_entries : ℕ
  pub ttl : ℕ
  pub ll : List Entry

-- New: `none` is a panic.
unfoldable pub new_hint : ℤ → ℤ → Option Hint
new_hint (pos (suc n)) (pos (suc t)) = some (record { max_entries = suc n; ttl = suc t; ll = [] })
new_hint _ _ = none

unfoldable pub find : ℕ → List Entry → Option Entry
find s [] = none
find s (e ∷ es) = if e.session_id == s then some e else find s es

-- removeElement, of the element that the map holds for the id.
unfoldable pub remove : ℕ → List Entry → List Entry
remove s [] = []
remove s (e ∷ es) = let rest = remove s es in if e.session_id == s then es else e ∷ rest

-- removeElement of the back of the list.
unfoldable pub remove_back : List Entry → List Entry
remove_back [] = []
remove_back (e ∷ []) = []
remove_back (e ∷ (f ∷ es)) = e ∷ remove_back (f ∷ es)

-- Get, at the time `now`.
unfoldable pub get : Hint → ℕ → ℕ → Option ℕ × Hint
unfolding find remove
get h s now = elim (find s h.ll) [
  | none ↦ (none, h)
  | some e ↦
      if ltb e.expiry now
      then (none, record h { ll = remove s h.ll })
      else (some e.pod_id, record h { ll = e ∷ remove s h.ll })
]

-- The entry that Set writes.
abbrev pub fresh_entry : Hint → ℕ → ℕ → ℕ → Entry
fresh_entry h s p now = record { session_id = s; pod_id = p; expiry = now + h.ttl }

-- Set, at the time `now`.
unfoldable pub set : Hint → ℕ → ℕ → ℕ → Hint
unfolding find remove remove_back
set h s p now = elim (find s h.ll) [
  | some e ↦ record h { ll = fresh_entry h s p now ∷ remove s h.ll }
  | none ↦ record h {
    ll =
        fresh_entry h s p now
        ∷ (if leb h.max_entries (length h.ll) then remove_back h.ll else h.ll);
  }
]

unfoldable pub invalidate : Hint → ℕ → Hint
unfolding remove
invalidate h s = record h { ll = remove s h.ll }

-- The calls of a cache.
pub data Call : Type 0 where
  gets : (s now : ℕ) → Call
  sets : (s p now : ℕ) → Call
  invalidates : (s : ℕ) → Call

unfoldable pub call : Call → Hint → Hint
unfolding get set invalidate
call (gets s now) h = (get h s now).1
call (sets s p now) h = set h s p now
call (invalidates s) h = invalidate h s

unfoldable pub run : List Call → Hint → Hint
unfolding call
run [] h = h
run (c ∷ cs) h = run cs (call c h)
