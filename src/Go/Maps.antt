-- ===== src/Go/Maps.antt =====
-- Maps of Go with string keys, as far as the program uses them: lists of entries, each key once.
use jamsesh.Prelude.{
  [], arith, Bool-cases, if◌then◌else◌, inl, inr, List, none, Option, refl, some, true, ◌∷◌, ◌≡◌,
}
use jamsesh.Go.Strings.{Bytes, same, same_eq}

abbrev pub Map {ℓ} : Type ℓ → Type ℓ
Map A = List (Bytes × A)

pub same_trans : (a b c : Bytes) → same a b ≡ true → same b c ≡ same a c
same_trans a b c h = rw (same_eq a b h) refl

pub same_sym : (a b : Bytes) → same a b ≡ same b a
unfolding same
same_sym [] [] = refl
same_sym [] (d ∷ b) = refl
same_sym (c ∷ a) [] = refl
same_sym (c ∷ a) (d ∷ b) = ground (arith, same_sym a b)

module _ {ℓ} {A : Type ℓ} where
  -- `m[k]`, and `m[k] = a`, and `delete(m, k)`.
  unfoldable pub get : Map A → Bytes → Option A
  get [] k = none
  get ((k', a) ∷ m) k = if same k' k then some a else get m k

  unfoldable pub put : Map A → Bytes → A → Map A
  put [] k a = (k, a) ∷ []
  put ((k', b) ∷ m) k a = let rest = put m k a in if same k' k then (k', a) ∷ m else (k', b) ∷ rest

  unfoldable pub delete : Map A → Bytes → Map A
  delete [] k = []
  delete ((k', b) ∷ m) k = let rest = delete m k in if same k' k then rest else (k', b) ∷ rest

  pub get-put :
      (m : Map A) (k : Bytes) (a : A) (k' : Bytes)
      → get (put m k a) k' ≡ (if same k k' then some a else get m k')
  unfolding get put
  get-put [] k a k' = refl
  get-put ((q, b) ∷ m) k a k' = elim (Bool-cases (same q k)) [
    | inl e ↦ rw (e) (ground (arith, same_trans q k k' e))
    | inr e ↦ ground (arith, e, get-put m k a k', same_trans q k' k, same_sym k k')
  ]

  pub get-delete :
      (m : Map A) (k k' : Bytes) → get (delete m k) k' ≡ (if same k k' then none else get m k')
  unfolding get delete
  get-delete [] k k' = ground arith
  get-delete ((q, b) ∷ m) k k' = elim (Bool-cases (same q k)) [
    | inl e ↦ rw (e) (ground (arith, get-delete m k k', same_trans q k k' e))
    | inr e ↦ ground (arith, e, get-delete m k k', same_trans k k' q, same_sym k q, same_sym k' q)
  ]
