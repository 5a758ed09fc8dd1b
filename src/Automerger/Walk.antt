-- ===== src/Automerger/Walk.antt =====
-- The walk of isNonOverlappingAddition (heuristics.go) puts each line in its place.
use jamsesh.Prelude.{
  ◌&&◌, ◌+◌, [], ap, arith, Bool, Bool-cases, false, inl, inr, length, List, ltb_ℤ, not, refl,
  sub_ℕ, subst, suc, sym, true, zero, ℕ, ℤ, ◌∷◌, ◌≡◌, ◌≤◌,
}
use jamsesh.Automerger.Additions.{Added, before, eq_ℤ, flush, leading, walk_base}
use jamsesh.Automerger.Placement.{at, none_before, placed, Sorted}
use jamsesh.Go.Strings.{Bytes}

-- Positions in the order.
below_before :
    (n : ℤ) (x y : Added)
    → ltb_ℤ n x.after_line ≡ true
    → before y x ≡ false
    → ltb_ℤ n y.after_line ≡ true
unfolding before
below_before n x y h h' = ground arith

below_eq : (n a : ℤ) → ltb_ℤ n a ≡ true → eq_ℤ a n ≡ false
below_eq n a h = ground arith

below_other : (n m a : ℤ) → ltb_ℤ n m ≡ true → eq_ℤ a n ≡ true → eq_ℤ a m ≡ false
below_other n m a h h' = ground arith

below_split : (n a : ℤ) → ltb_ℤ a n ≡ false → eq_ℤ a n ≡ false → ltb_ℤ n a ≡ true
below_split n a h h' = ground arith

equal_split : (n a : ℤ) → ltb_ℤ a n ≡ false → ltb_ℤ n a ≡ false → eq_ℤ a n ≡ true
equal_split n a h h' = ground arith

below_next : (i : ℕ) (a : ℤ) → ltb_ℤ (sub_ℕ i 1) a ≡ true → ltb_ℤ a (sub_ℕ (suc i) 1) ≡ false
below_next i a h = ground arith

below_later : (i k : ℕ) → i ≤ k → ltb_ℤ (sub_ℕ i 1) (sub_ℕ (suc k) 1) ≡ true
below_later i k h = ground arith

-- All positions are at least `n`, above `n`, at most `n`.
unfoldable pub from_line : ℤ → List Added → Bool
from_line n [] = true
from_line n (x ∷ xs) = not (ltb_ℤ x.after_line n) && from_line n xs

unfoldable pub over : ℤ → List Added → Bool
over n [] = true
over n (x ∷ xs) = ltb_ℤ n x.after_line && over n xs

unfoldable pub up_to_line : ℤ → List Added → Bool
up_to_line n [] = true
up_to_line n (x ∷ xs) = not (ltb_ℤ n x.after_line) && up_to_line n xs

at-over : (n : ℤ) (xs : List Added) → over n xs ≡ true → at n xs ≡ []
unfolding at over
at-over n [] h = refl
at-over n (x ∷ xs) h = elim (Bool-cases (ltb_ℤ n x.after_line)) [
  | inl e ↦ rw (below_eq n x.after_line e) (at-over n xs (ground (arith, h, e)))
  | inr e ↦ absurd (ground (arith, h, e))
]

over_before :
    (n : ℤ) (x : Added) (ys : List Added)
    → ltb_ℤ n x.after_line ≡ true
    → none_before x ys ≡ true
    → over n ys ≡ true
unfolding over none_before
over_before n x [] h h' = refl
over_before n x (y ∷ ys) h h' =
    let e : before y x ≡ false = ground (arith, h') in
    rw (below_before n x y h e) (over_before n x ys h (ground (arith, h')))

over_from :
    (i : ℕ) (xs : List Added) → over (sub_ℕ i 1) xs ≡ true → from_line (sub_ℕ (suc i) 1) xs ≡ true
unfolding over from_line
over_from i [] h = refl
over_from i (x ∷ xs) h = elim (Bool-cases (ltb_ℤ (sub_ℕ i 1) x.after_line)) [
  | inl e ↦ rw (below_next i x.after_line e) (over_from i xs (ground (arith, h, e)))
  | inr e ↦ absurd (ground (arith, h, e))
]

flush-at :
    (n : ℤ) (xs : List Added) → from_line n xs ≡ true → up_to_line n xs ≡ true → flush xs ≡ at n xs
unfolding flush at from_line up_to_line
flush-at n [] h h' = refl
flush-at n (x ∷ xs) h h' =
    let e : ltb_ℤ x.after_line n ≡ false = ground (arith, h) in
    let e' : ltb_ℤ n x.after_line ≡ false = ground (arith, h') in
    rw (equal_split n x.after_line e e')
      (ap (λ r. x.content ∷ r) (flush-at n xs (ground (arith, h, e)) (ground (arith, h', e'))))

-- What the inner loop takes, and what it leaves.
record Split (n hi : ℤ) (xs : List Added) (ls : List Bytes) (rest : List Added) : Type 0 where
  taken : ls ≡ at n xs
  sorted : Sorted rest
  above : over n rest ≡ true
  bounded : up_to_line hi rest ≡ true
  same_later : (m : ℤ) → ltb_ℤ n m ≡ true → at m rest ≡ at m xs

leading-Split :
    (n hi : ℤ) (xs : List Added)
    → Sorted xs
    → from_line n xs ≡ true
    → up_to_line hi xs ≡ true
    → Split n hi xs (leading n xs).0 (leading n xs).1
unfolding leading at Sorted over from_line up_to_line
leading-Split n hi [] s f u = record {
  taken = refl;
  sorted = tt;
  above = refl;
  bounded = refl;
  same_later = λ m h. refl;
}
leading-Split n hi (x ∷ xs) s f u =
    let low : ltb_ℤ x.after_line n ≡ false = ground (arith, f) in
    let high : ltb_ℤ hi x.after_line ≡ false = ground (arith, u) in
    let r = leading-Split n hi xs s.1 (ground (arith, f, low)) (ground (arith, u, high)) in
    elim (Bool-cases (eq_ℤ x.after_line n)) [
      | inl e ↦
          rw (leading, e)
            (record {
              taken = rw e (ap (λ l. x.content ∷ l) r.taken);
              sorted = r.sorted;
              above = r.above;
              bounded = r.bounded;
              same_later = λ m h. rw (below_other n m x.after_line h e) (r.same_later m h);
            })
      | inr e ↦
          (let above = below_split n x.after_line low e in
            rw (leading, e)
              (record {
                taken = rw e (sym (at-over n xs (over_before n x xs above s.0)));
                sorted = s;
                above = rw above (over_before n x xs above s.0);
                bounded = u;
                same_later = λ m h. refl;
              }))
    ]

pub placed_ext :
    (i : ℕ) (bs : List Bytes) (f g : ℤ → List Bytes)
    → ((k : ℕ) → i ≤ k → f (sub_ℕ k 1) ≡ g (sub_ℕ k 1))
    → placed i bs f ≡ placed i bs g
unfolding placed
placed_ext i [] f g h = h i (omega arith)
placed_ext i (b ∷ bs) f g h =
    rw (h i (omega arith), placed_ext (suc i) bs f g (λ k l. h k (omega arith)))

later_slot :
    (i : ℕ) (f g : ℤ → List Bytes)
    → ((m : ℤ) → ltb_ℤ (sub_ℕ i 1) m ≡ true → f m ≡ g m)
    → (k : ℕ) → suc i ≤ k
    → f (sub_ℕ k 1) ≡ g (sub_ℕ k 1)
later_slot i f g h zero l = absurd (omega arith)
later_slot i f g h (suc k) l = h (sub_ℕ (suc k) 1) (below_later i k (omega arith))

pub walk_base-placed :
    (i : ℕ) (bs : List Bytes) (xs : List Added)
    → Sorted xs
    → from_line (sub_ℕ i 1) xs ≡ true
    → up_to_line (sub_ℕ (i + length bs) 1) xs ≡ true
    → walk_base i bs xs ≡ placed i bs (λ n. at n xs)
unfolding walk_base placed
walk_base-placed i [] xs s f u =
    flush-at (sub_ℕ i 1) xs f (subst (λ k. up_to_line (sub_ℕ k 1) xs ≡ true) (omega arith) u)
walk_base-placed i (b ∷ bs) xs s f u =
    let r = leading-Split (sub_ℕ i 1) (sub_ℕ (i + suc (length bs)) 1) xs s f u in
    let w =
      walk_base-placed (suc i) bs (leading (sub_ℕ i 1) xs).1 r.sorted
        (over_from i (leading (sub_ℕ i 1) xs).1 r.above)
        (subst (λ k. up_to_line (sub_ℕ k 1) (leading (sub_ℕ i 1) xs).1 ≡ true) (omega arith)
          r.bounded) in
    rw (
      r.taken,
      w,
      placed_ext (suc i) bs (λ n. at n (leading (sub_ℕ i 1) xs).1) (λ n. at n xs)
          (later_slot i (λ m. at m (leading (sub_ℕ i 1) xs).1) (λ m. at m xs) r.same_later),
    )
