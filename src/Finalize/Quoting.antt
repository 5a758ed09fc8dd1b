-- ===== src/Finalize/Quoting.antt =====
-- What the shell of a generated script makes of a quoted text (escape.go).
use jamsesh.Prelude.{
  ◌||◌, Bool, any, if◌then◌else◌, ◌++◌, ◌==◌, arith, false, none, Option, refl, some, true, ℕ, ◌∷◌,
  ◌≡◌,
}
use jamsesh.Finalize.Escape.{escape_quotes, shellquote}
use jamsesh.Go.Strings.{codes, Bytes}
use mathlib.Core.List.{[], append_assoc}

abbrev pub prepend : ℕ → Option (Bytes × Bytes) → Option (Bytes × Bytes)
prepend c none = none
prepend c (some (word, rest)) = some (c ∷ word, rest)

-- The bytes that a POSIX shell gives a meaning outside quotes, where a plain word has none of them.
unfoldable pub is_special : ℕ → Bool
unfolding any
is_special c = any (λ d. d == c) (10 ∷ codes "|&;<>()$`\"*?[]#~=%!{}")

abbrev pub is_blank : ℕ → Bool
is_blank c = c == 32 || c == 9

-- POSIX word reading: outside quotes a `'` opens a single-quoted part and a backslash takes the next byte,
-- which is no newline; inside, every byte stands for itself up to the closing `'`. A blank ends the word.
-- Nothing is read where there is no word, where a quote stays open, and where a byte outside quotes is
-- special.
pub data Mode : Type 0 where
  fresh outside quoted escaped : Mode

unfoldable pub shell_word : Mode → Bytes → Option (Bytes × Bytes)
unfolding is_special
shell_word fresh [] = none
shell_word outside [] = some ([], [])
shell_word quoted [] = none
shell_word escaped [] = none
shell_word quoted (c ∷ s) = elim (c == 39) [
  | true ↦ shell_word outside s
  | false ↦ prepend c (shell_word quoted s)
]
shell_word escaped (c ∷ s) = elim (c == 10) [
  | true ↦ none
  | false ↦ prepend c (shell_word outside s)
]
shell_word fresh (c ∷ s) = elim (c == 39) [
  | true ↦ shell_word quoted s
  | false ↦ elim (c == 92) [
    | true ↦ shell_word escaped s
    | false ↦ if is_blank c || is_special c then none else prepend c (shell_word outside s)
  ]
]
shell_word outside (c ∷ s) = elim (c == 39) [
  | true ↦ shell_word quoted s
  | false ↦ elim (c == 92) [
    | true ↦ shell_word escaped s
    | false ↦
        if is_blank c
        then some ([], s)
        else if is_special c
        then none
        else prepend c (shell_word outside s)
  ]
]

escape_quotes-shell_word :
    (s rest : Bytes) → shell_word quoted (escape_quotes s ++ 39 ∷ 32 ∷ rest) ≡ some (s, rest)
unfolding shell_word escape_quotes
escape_quotes-shell_word [] rest = refl
escape_quotes-shell_word (c ∷ s) rest = ground (arith, escape_quotes-shell_word s rest)

-- A shell reads the quoted text, followed by a blank, as one word, which is the text itself, whatever
-- bytes it holds, none at all included.
pub shellquote-shell_word :
    (s rest : Bytes) → shell_word fresh (shellquote s ++ 32 ∷ rest) ≡ some (s, rest)
unfolding shell_word shellquote
shellquote-shell_word s rest = rw append_assoc (escape_quotes-shell_word s rest)
