-- ===== src/Prereceive/Scope.antt =====
-- internal/portal/prereceive/scope.go, and parseWritableScope of validate.go.
use jamsesh.Prelude.{
  ◌&&◌, ◌++◌, ◌==◌, Bool, false, if◌then◌else◌, List, none, Option, some, true, ◌∷◌,
}
use jamsesh.Go.Strings.{Bytes, is_some}
use jamsesh.Prereceive.Repo.{Globs}
use mathlib.Core.List.{[]}

-- normalizeForDoublestar: "**" before a byte other than '/' becomes "**/*".
unfoldable pub normalize : Bytes → Bytes
normalize [] = []
normalize (c ∷ []) = c ∷ []
normalize (c ∷ (d ∷ [])) = c ∷ d ∷ []
normalize (c ∷ (d ∷ (e ∷ s))) = elim (c == b'*' && d == b'*') [
  | true ↦ b'*' ∷ b'*' ∷ ((if e == b'/' then [] else b'/' ∷ b'*' ∷ []) ++ normalize (e ∷ s))
  | false ↦ c ∷ normalize (d ∷ (e ∷ s))
]

module _ (g : Globs) where
  -- CompileScope: the patterns of the matcher, or an error.
  unfoldable pub compile_scope : List Bytes → Option (List Bytes)
  unfolding normalize
  compile_scope [] = some []
  compile_scope (p ∷ ps) =
      if g.validate_pattern (normalize p)
      then (elim (compile_scope ps) [ none ↦ none | some ns ↦ some (normalize p ∷ ns) ])
      else none

  -- Match
  unfoldable pub match_scope : List Bytes → Bytes → Bool
  match_scope [] path = false
  match_scope (p ∷ ps) path = elim (g.match_path p path) [
    | some true ↦ true
    | _ ↦ match_scope ps path
  ]

  unfoldable pub parse_writable_scope : Bytes → Option (List Bytes)
  parse_writable_scope [] = some []
  parse_writable_scope (c ∷ s) = g.unmarshal (c ∷ s)

  unfoldable pub validate_writable_scope : Bytes → Bool
  unfolding compile_scope
  validate_writable_scope [] = true
  validate_writable_scope (c ∷ s) = elim (g.unmarshal (c ∷ s)) [
    | none ↦ false
    | some globs ↦ is_some (compile_scope globs)
  ]
