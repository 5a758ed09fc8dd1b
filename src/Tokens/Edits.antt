-- ===== src/Tokens/Edits.antt =====
-- How the calls of the token service (service_impl.go) change the rows of oauth_tokens.
use jamsesh.Prelude.{
  ◌&&◌, ◌++◌, [], ap, arith, Bool, Bool-cases, false, inl, inr, List, none, not, Option, refl, some,
  subst, sym, true, ◌||◌, ℕ, ◌∙◌, ◌∷◌, ◌≡◌,
}
use jamsesh.Go.Maps.{same_sym}
use jamsesh.Go.Strings.{Bytes, is_some, same, same_eq}
use jamsesh.Tokens.Tables.{get_by_hash, keep_tokens, revoked, TokenRow, update_tokens}

-- Every row with the hash has been revoked.
unfoldable pub dead : Bytes → List TokenRow → Bool
unfolding same
dead h [] = true
dead h (r ∷ rs) = (not (same r.token_hash h) || is_some r.revoked_at) && dead h rs

-- UNIQUE(token_hash)
unfoldable pub distinct : List TokenRow → Bool
unfolding get_by_hash
distinct [] = true
distinct (r ∷ rs) = not (is_some (get_by_hash r.token_hash rs)) && distinct rs

-- The changes of the table, none of which adds a row with the hash `h`.
pub data Edits (h : Bytes) (rs : List TokenRow) : List TokenRow → Type 0 where
  same_rows : Edits h rs rs
  appended :
      {mid : List TokenRow} (r : TokenRow)
      → Edits h rs mid
      → same r.token_hash h ≡ false
      → get_by_hash r.token_hash mid ≡ none
      → Edits h rs (mid ++ r ∷ [])
  updated :
      {mid : List TokenRow} (p : TokenRow → Bool) (f : TokenRow → TokenRow)
      → Edits h rs mid
      → ((r : TokenRow) → (f r).token_hash ≡ r.token_hash)
      → ((r : TokenRow) → is_some r.revoked_at ≡ true → is_some (f r).revoked_at ≡ true)
      → Edits h rs (update_tokens p f mid)
  kept :
      {mid : List TokenRow} (p : TokenRow → Bool) → Edits h rs mid → Edits h rs (keep_tokens p mid)

dead-append :
    (h : Bytes) (rs : List TokenRow) (r : TokenRow)
    → dead h rs ≡ true
    → same r.token_hash h ≡ false
    → dead h (rs ++ r ∷ []) ≡ true
unfolding dead
dead-append h [] r d n = ground (arith, n)
dead-append h (q ∷ rs) r d n = ground (arith, d, n, dead-append h rs r)

dead-update :
    (h : Bytes) (p : TokenRow → Bool) (f : TokenRow → TokenRow) (rs : List TokenRow)
    → ((r : TokenRow) → (f r).token_hash ≡ r.token_hash)
    → ((r : TokenRow) → is_some r.revoked_at ≡ true → is_some (f r).revoked_at ≡ true)
    → dead h rs ≡ true
    → dead h (update_tokens p f rs) ≡ true
unfolding dead update_tokens
dead-update h p f [] k m d = refl
dead-update h p f (r ∷ rs) k m d =
    let rest = dead-update h p f rs k m (ground (arith, d)) in
    elim (Bool-cases (p r)) [
      | inr x ↦ rw (x) (ground (arith, d, rest))
      | inl x ↦
          rw (x, rest)
            (elim (Bool-cases (same r.token_hash h)) [
              | inr y ↦ rw (k r, y) refl
              | inl y ↦ rw (k r, y, m r (ground (arith, d, y))) refl
            ])
    ]

dead-keep :
    (h : Bytes) (p : TokenRow → Bool) (rs : List TokenRow)
    → dead h rs ≡ true
    → dead h (keep_tokens p rs) ≡ true
unfolding dead keep_tokens
dead-keep h p [] d = refl
dead-keep h p (r ∷ rs) d = ground (arith, d, dead-keep h p rs)

pub Edits-dead :
    {h : Bytes} {rs rs' : List TokenRow} → Edits h rs rs' → dead h rs ≡ true → dead h rs' ≡ true
Edits-dead same_rows d = d
Edits-dead {h} (appended {mid} r es n u) d = dead-append h mid r (Edits-dead es d) n
Edits-dead {h} (updated {mid} p f es k m) d = dead-update h p f mid k m (Edits-dead es d)
Edits-dead {h} (kept {mid} p es) d = dead-keep h p mid (Edits-dead es d)

get-append :
    (h : Bytes) (rs : List TokenRow) (r : TokenRow)
    → get_by_hash h rs ≡ none
    → same r.token_hash h ≡ false
    → get_by_hash h (rs ++ r ∷ []) ≡ none
unfolding get_by_hash
get-append h [] r e n = ground (arith, n)
get-append h (q ∷ rs) r e n = ground (arith, e, n, get-append h rs r)

get-update :
    (h : Bytes) (p : TokenRow → Bool) (f : TokenRow → TokenRow) (rs : List TokenRow)
    → ((r : TokenRow) → (f r).token_hash ≡ r.token_hash)
    → is_some (get_by_hash h (update_tokens p f rs)) ≡ is_some (get_by_hash h rs)
unfolding get_by_hash update_tokens
get-update h p f [] k = refl
get-update h p f (r ∷ rs) k =
    let rest = get-update h p f rs k in
    elim (Bool-cases (p r)) [
      | inr x ↦ rw (x) (ground (arith, rest))
      | inl x ↦ rw (x, k r) (ground (arith, rest))
    ]

get-keep :
    (h : Bytes) (p : TokenRow → Bool) (rs : List TokenRow)
    → get_by_hash h rs ≡ none
    → get_by_hash h (keep_tokens p rs) ≡ none
unfolding get_by_hash keep_tokens
get-keep h p [] e = refl
get-keep h p (r ∷ rs) e = ground (arith, e, get-keep h p rs)

pub none_of : (o : Option TokenRow) → not (is_some o) ≡ true → o ≡ none
none_of none h = refl
none_of (some r) h = cc

first_differs :
    (h : Bytes) (q : TokenRow) (rs : List TokenRow)
    → get_by_hash h (q ∷ rs) ≡ none
    → (same q.token_hash h ≡ false) × (get_by_hash h rs ≡ none)
unfolding get_by_hash
first_differs h q rs e = elim (Bool-cases (same q.token_hash h)) [
  | inl x ↦ absurd (ground (arith, e, x))
  | inr x ↦ (x, ground (arith, e, x))
]

distinct-append :
    (rs : List TokenRow) (r : TokenRow)
    → distinct rs ≡ true
    → get_by_hash r.token_hash rs ≡ none
    → distinct (rs ++ r ∷ []) ≡ true
unfolding distinct
distinct-append [] r d e = unfold get_by_hash in refl
distinct-append (q ∷ rs) r d e =
    let n = first_differs r.token_hash q rs e in
    let g : get_by_hash q.token_hash rs ≡ none =
      none_of (get_by_hash q.token_hash rs) (ground (arith, d)) in
    let d' : distinct rs ≡ true = ground (arith, d) in
    rw
      (
        get-append q.token_hash rs r g (same_sym r.token_hash q.token_hash ∙ n.0),
        distinct-append rs r d' n.1,
      )
      refl

distinct-update :
    (p : TokenRow → Bool) (f : TokenRow → TokenRow) (rs : List TokenRow)
    → ((r : TokenRow) → (f r).token_hash ≡ r.token_hash)
    → distinct rs ≡ true
    → distinct (update_tokens p f rs) ≡ true
unfolding distinct update_tokens
distinct-update p f [] k d = refl
distinct-update p f (r ∷ rs) k d =
    let rest = distinct-update p f rs k (ground (arith, d)) in
    let g = get-update r.token_hash p f rs k in
    elim (Bool-cases (p r)) [
      | inr x ↦ rw (x) (ground (arith, d, rest, g))
      | inl x ↦ rw (x, k r) (ground (arith, d, rest, g))
    ]

distinct-keep :
    (p : TokenRow → Bool) (rs : List TokenRow)
    → distinct rs ≡ true
    → distinct (keep_tokens p rs) ≡ true
unfolding distinct keep_tokens
distinct-keep p [] d = refl
distinct-keep p (r ∷ rs) d =
    let g : get_by_hash r.token_hash rs ≡ none =
      none_of (get_by_hash r.token_hash rs) (ground (arith, d)) in
    let k = get-keep r.token_hash p rs g in
    let rest = distinct-keep p rs (ground (arith, d)) in
    elim (Bool-cases (p r)) [ inl x ↦ rw (x, k, rest) refl | inr x ↦ rw (x) rest ]

pub Edits-distinct :
    {h : Bytes} {rs rs' : List TokenRow} → Edits h rs rs' → distinct rs ≡ true → distinct rs' ≡ true
Edits-distinct same_rows d = d
Edits-distinct (appended {mid} r es n u) d = distinct-append mid r (Edits-distinct es d) u
Edits-distinct (updated {mid} p f es k m) d = distinct-update p f mid k (Edits-distinct es d)
Edits-distinct (kept {mid} p es) d = distinct-keep p mid (Edits-distinct es d)

pub Edits-trans :
    {h : Bytes} {rs mid rs' : List TokenRow} → Edits h rs mid → Edits h mid rs' → Edits h rs rs'
Edits-trans es same_rows = es
Edits-trans es (appended r fs n u) = appended r (Edits-trans es fs) n u
Edits-trans es (updated p f fs k m) = updated p f (Edits-trans es fs) k m
Edits-trans es (kept p fs) = kept p (Edits-trans es fs)

pub absent-dead : (h : Bytes) (rs : List TokenRow) → get_by_hash h rs ≡ none → dead h rs ≡ true
unfolding get_by_hash dead
absent-dead h [] e = refl
absent-dead h (r ∷ rs) e = ground (arith, e, absent-dead h rs)

-- The only row with a hash is revoked, if it was not revoked before.
pub revoke-dead :
    (h : Bytes) (p : TokenRow → Bool) (now : ℕ) (row : TokenRow) (rs : List TokenRow)
    → distinct rs ≡ true
    → get_by_hash h rs ≡ some row
    → p row || is_some row.revoked_at ≡ true
    → dead h (update_tokens p (revoked now) rs) ≡ true
unfolding distinct get_by_hash dead update_tokens
revoke-dead h p now row [] d g i = cc
revoke-dead h p now row (r ∷ rs) d g i = elim (Bool-cases (same r.token_hash h)) [
  | inl x ↦
      (let e : row ≡ r = ground (arith, g, x) in
        let own : p r || is_some r.revoked_at ≡ true =
          subst (λ (u : TokenRow). p u || is_some u.revoked_at ≡ true) e i in
        let z : r.token_hash ≡ h = same_eq r.token_hash h x in
        let away : get_by_hash h rs ≡ none =
          ap (λ u. get_by_hash u rs) (sym z)
          ∙ none_of (get_by_hash r.token_hash rs) (ground (arith, d)) in
        let rest =
          dead-update h p (revoked now) rs (λ q. refl) (λ q k. refl) (absent-dead h rs away) in
        elim (Bool-cases (p r)) [
          | inl y ↦ rw (y, rest, x) refl
          | inr y ↦ rw (y, rest, x) (ground (arith, own, y))
        ])
  | inr x ↦
      (let rest = revoke-dead h p now row rs (ground (arith, d)) (ground (arith, g, x)) i in
        elim (Bool-cases (p r)) [ inl y ↦ rw (y, rest, x) refl | inr y ↦ rw (y, rest, x) refl ])
]
