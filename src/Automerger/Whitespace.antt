-- ===== src/Automerger/Whitespace.antt =====
-- What the whitespace heuristic accepts (heuristics.go, isWhitespaceOnly).
use jamsesh.Prelude.{◌||◌, all, ◌==◌, Bool, ◌++◌, suc, [], List, true, ℕ, ◌∷◌, ◌≡◌, ◌≢◌}
use jamsesh.Automerger.Heuristics.{leading_tabs, normalise_lf, split_lines, strip}
use jamsesh.Go.Strings.{Bytes}

-- The text as the heuristic reads it: for each line, the line without its trailing blanks, and its depth.
unfoldable pub outline : List Bytes → List (Bytes × ℕ)
unfolding strip leading_tabs
outline [] = []
outline (l ∷ ls) = (strip l, leading_tabs l) ∷ outline ls

abbrev pub is_blank : ℕ → Bool
is_blank c = c == 32 || c == 9

-- The line begins with this many tabs, and then with no other.
pub data Tabs : ℕ → Bytes → Type 0 where
  no_line : Tabs 0 []
  no_tab : (c : ℕ) (s : Bytes) → c ≢ 9 → Tabs 0 (c ∷ s)
  tab : (n : ℕ) (s : Bytes) → Tabs n s → Tabs (suc n) (9 ∷ s)

-- Two lines are the same text but for the blanks behind it, and begin with as many tabs.
pub record SameLine (a b : Bytes) : Type 0 where
  pub text : Bytes
  pub pad : Bytes
  pub pad' : Bytes
  pub first : a ≡ text ++ pad
  pub second : b ≡ text ++ pad'
  pub blank : all is_blank pad ≡ true
  pub blank' : all is_blank pad' ≡ true
  pub depth : ℕ
  pub tabs : Tabs depth a
  pub tabs' : Tabs depth b

-- Two texts line by line.
pub data SameLines : List Bytes → List Bytes → Type 0 where
  no_lines : SameLines [] []
  lines :
      (a b : Bytes) (xs bs : List Bytes)
      → SameLine a b
      → SameLines xs bs
      → SameLines (a ∷ xs) (b ∷ bs)

abbrev pub lines_of : Bytes → List Bytes
lines_of s = split_lines (normalise_lf s)
