-- ===== src/Prereceive/Traversal.antt =====
-- The traversal sequences that refSegmentSafe (refs.go) looks for, as parts of a text.
use jamsesh.Prelude.{
  ◌&&◌, ◌+◌, ◌++◌, [], all, ap, arith, Bool, Bool-cases, inl, inr, leb, not, Option-cases, refl,
  subst, sym, true, ℕ, ◌∙◌, ◌∷◌, ◌≡◌, ◌≤◌,
}
use jamsesh.Go.Strings.{
  Bytes, codes, contains, cut_prefix, cut_prefix-append, cut_prefix_eq, has_prefix, to_lower,
}
use jamsesh.Prereceive.Refs.{ref_segment_safe}

-- `t` stands somewhere in `s`.
pub record Occurs (t s : Bytes) : Type 0 where
  pub left : Bytes
  pub right : Bytes
  pub split : s ≡ left ++ (t ++ right)

-- `u` is the lower-case `t` up to the case of its letters.
pub data Folds : Bytes → Bytes → Type 0 where
  empty : Folds [] []
  same_byte : (c : ℕ) (u t : Bytes) → Folds u t → Folds (c ∷ u) (c ∷ t)
  upper : (c : ℕ) (u t : Bytes) → b'A' ≤ c → c ≤ b'Z' → Folds u t → Folds (c ∷ u) ((c + 32) ∷ t)

-- `t` stands somewhere in `s`, in upper or lower case.
pub record OccursFolded (t s : Bytes) : Type 0 where
  pub spelled : Bytes
  pub folds : Folds spelled t
  pub occurs : Occurs spelled s

-- A branch name with none of "..", "%2e%2e" and "%252e".
pub record NoTraversal (s : Bytes) : Type 0 where
  pub no_dots : ¬ Occurs (codes "..") s
  pub no_encoded : ¬ OccursFolded (codes "%2e%2e") s
  pub no_twice_encoded : ¬ OccursFolded (codes "%252e") s

prefix-Occurs : (s t : Bytes) → has_prefix s t ≡ true → Occurs t s
unfolding has_prefix
prefix-Occurs s t h = elim (Option-cases (cut_prefix s t)) [
  | inl e ↦ absurd (ground (arith, e, h))
  | inr (r, e) ↦ record { left = []; right = r; split = cut_prefix_eq s t r e }
]

contains-Occurs : (s t : Bytes) → contains s t ≡ true → Occurs t s
unfolding contains
contains-Occurs [] t h = prefix-Occurs [] t h
contains-Occurs (c ∷ s) t h = elim (Bool-cases (has_prefix (c ∷ s) t)) [
  | inl e ↦ prefix-Occurs (c ∷ s) t e
  | inr e ↦
      (let o = contains-Occurs s t (ground (arith, h, e)) in
        record { left = c ∷ o.left; right = o.right; split = ap (λ u. c ∷ u) o.split })
]

append-has_prefix : (t r : Bytes) → has_prefix (t ++ r) t ≡ true
unfolding has_prefix
append-has_prefix t r = rw (has_prefix, cut_prefix-append t r) refl

contains_here : (s t : Bytes) → has_prefix s t ≡ true → contains s t ≡ true
unfolding contains
contains_here [] t h = h
contains_here (c ∷ s) t h = ground (arith, h)

contains-split : (a t r : Bytes) → contains (a ++ (t ++ r)) t ≡ true
unfolding contains
contains-split [] t r = contains_here (t ++ r) t (append-has_prefix t r)
contains-split (c ∷ a) t r = ground (arith, contains-split a t r)

Occurs-contains : (s t : Bytes) → Occurs t s → contains s t ≡ true
Occurs-contains s t o =
    subst (λ u. contains u t ≡ true) (sym o.split) (contains-split o.left t o.right)

Folds-to_lower : (u : Bytes) → Folds u (to_lower u)
unfolding to_lower
Folds-to_lower [] = empty
Folds-to_lower (c ∷ u) = elim (Bool-cases (leb b'A' c && leb c b'Z')) [
  | inl e ↦
      rw (to_lower, e)
        (upper c u (to_lower u) (ground (arith, e)) (ground (arith, e)) (Folds-to_lower u))
  | inr e ↦ rw (to_lower, e) (same_byte c u (to_lower u) (Folds-to_lower u))
]

abbrev is_not_upper : ℕ → Bool
is_not_upper c = not (leb b'A' c && leb c b'Z')

to_lower-Folds : {u t : Bytes} → Folds u t → all is_not_upper t ≡ true → to_lower u ≡ t
unfolding to_lower all
to_lower-Folds empty h = refl
to_lower-Folds (same_byte c u t f) h = ground (arith, h, to_lower-Folds f)
to_lower-Folds (upper c u t l g f) h = ground (arith, h, l, g, to_lower-Folds f)

to_lower-append : (s t : Bytes) → to_lower (s ++ t) ≡ to_lower s ++ to_lower t
unfolding to_lower
to_lower-append [] t = refl
to_lower-append (c ∷ s) t = rw (to_lower-append s t) refl

-- Where the lower-case text divides, the text does.
record Divided (s x y : Bytes) : Type 0 where
  front : Bytes
  back : Bytes
  whole : s ≡ front ++ back
  front_lower : to_lower front ≡ x
  back_lower : to_lower back ≡ y

divide : (s x y : Bytes) → to_lower s ≡ x ++ y → Divided s x y
unfolding to_lower
divide s [] y e = record { front = []; back = s; whole = refl; front_lower = refl; back_lower = e }
divide [] (c ∷ x) y e = absurd (ground (arith, e))
divide (d ∷ s) (c ∷ x) y e =
    let r = divide s x y (ground (arith, e)) in
    record {
      front = d ∷ r.front;
      back = r.back;
      whole = ap (λ u. d ∷ u) r.whole;
      front_lower = ground (arith, e, r.front_lower);
      back_lower = r.back_lower;
    }

lower-OccursFolded : (s t : Bytes) → contains (to_lower s) t ≡ true → OccursFolded t s
lower-OccursFolded s t h =
    let o = contains-Occurs (to_lower s) t h in
    let d = divide s o.left (t ++ o.right) o.split in
    let d' = divide d.back t o.right d.back_lower in
    record {
      spelled = d'.front;
      folds = subst (λ u. Folds d'.front u) d'.front_lower (Folds-to_lower d'.front);
      occurs = record {
        left = d.front;
        right = d'.back;
        split = d.whole ∙ ap (λ u. d.front ++ u) d'.whole;
      };
    }

OccursFolded-lower :
    (s t : Bytes) → all is_not_upper t ≡ true → OccursFolded t s → contains (to_lower s) t ≡ true
OccursFolded-lower s t h o =
    let e : to_lower s ≡ to_lower o.occurs.left ++ (t ++ to_lower o.occurs.right) =
      ap to_lower o.occurs.split
      ∙ to_lower-append o.occurs.left (o.spelled ++ o.occurs.right)
      ∙ ap (λ u. to_lower o.occurs.left ++ u)
          (to_lower-append o.spelled o.occurs.right
            ∙ ap (λ u. u ++ to_lower o.occurs.right) (to_lower-Folds o.folds h)) in
    Occurs-contains (to_lower s) t
      (record { left = to_lower o.occurs.left; right = to_lower o.occurs.right; split = e })

pub ref_segment_safe-NoTraversal : (s : Bytes) → ref_segment_safe s ≡ true → NoTraversal s
unfolding ref_segment_safe
ref_segment_safe-NoTraversal s h = record {
  no_dots = λ o. absurd (ground (arith, h, Occurs-contains s (codes "..") o));
  no_encoded =
      λ o. absurd (ground (arith, h, OccursFolded-lower s (codes "%2e%2e") (unfold all in refl) o));
  no_twice_encoded =
      λ o. absurd (ground (arith, h, OccursFolded-lower s (codes "%252e") (unfold all in refl) o));
}

pub NoTraversal-ref_segment_safe : (s : Bytes) → NoTraversal s → ref_segment_safe s ≡ true
unfolding ref_segment_safe
NoTraversal-ref_segment_safe s v = elim (Bool-cases (contains s (codes ".."))) [
  | inl e ↦ absurd (v.no_dots (contains-Occurs s (codes "..") e))
  | inr e ↦ (elim (Bool-cases (contains (to_lower s) (codes "%2e%2e"))) [
    | inl f ↦ absurd (v.no_encoded (lower-OccursFolded s (codes "%2e%2e") f))
    | inr f ↦ (elim (Bool-cases (contains (to_lower s) (codes "%252e"))) [
      | inl g ↦ absurd (v.no_twice_encoded (lower-OccursFolded s (codes "%252e") g))
      | inr g ↦ rw (ref_segment_safe, e, f, g) refl
    ])
  ])
]
