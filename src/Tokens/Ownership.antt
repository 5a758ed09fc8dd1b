-- ===== src/Tokens/Ownership.antt =====
-- Nobody revokes the tokens of others (service_impl.go).
use jamsesh.Prelude.{
  ◌&&◌, [], any, ap, arith, Bool, Bool-cases, false, inl, inr, List, not, Option-cases, refl, some,
  subst, sym, true, ◌∙◌, ◌∷◌, ◌≡◌, ◌≢◌,
}
use jamsesh.Go.Strings.{Bytes, is_some, same, same_eq, same_refl}
use jamsesh.Tokens.Service.{Env, revoke}
use jamsesh.Tokens.Tables.{
  get_by_hash, revoke_all, revoke_token, revoked, TokenDb, TokenRow, update_tokens,
}

abbrev pub has_id : Bytes → TokenRow → Bool
has_id id r = same r.id id

-- PRIMARY KEY(id)
unfoldable pub keyed : List TokenRow → Bool
unfolding any
keyed [] = true
keyed (r ∷ rs) = not (any (has_id r.id) rs) && keyed rs

found_has_id :
    (h : Bytes) (rs : List TokenRow) (r : TokenRow)
    → get_by_hash h rs ≡ some r
    → any (has_id r.id) rs ≡ true
unfolding get_by_hash any
found_has_id h [] r g = cc
found_has_id h (q ∷ rs) r g = elim (Bool-cases (same q.token_hash h)) [
  | inl x ↦
      (let e : q ≡ r = ground (arith, g, x) in
        let k : same q.id r.id ≡ true =
          subst (λ (u : TokenRow). same q.id u.id ≡ true) e (same_refl q.id) in
        rw (k) refl)
  | inr x ↦ rw (found_has_id h rs r (ground (arith, g, x))) (ground arith)
]

-- Two rows with one key are one row.
one_key :
    (h k : Bytes) (rs : List TokenRow) (r s : TokenRow)
    → keyed rs ≡ true
    → get_by_hash h rs ≡ some r
    → get_by_hash k rs ≡ some s
    → r.id ≡ s.id
    → r ≡ s
unfolding keyed get_by_hash
one_key h k [] r s d gr gs i = cc
one_key h k (q ∷ rs) r s d gr gs i = elim (Bool-cases (same q.token_hash h)) [
  | inl x ↦ (elim (Bool-cases (same q.token_hash k)) [
    | inl y ↦ ground (arith, gr, gs, x, y)
    | inr y ↦
        (let e : q ≡ r = ground (arith, gr, x) in
          let f = found_has_id k rs s (ground (arith, gs, y)) in
          let f' : any (has_id q.id) rs ≡ true =
            subst (λ u. any (has_id u) rs ≡ true) (sym i ∙ ap (λ (t : TokenRow). t.id) (sym e)) f in
          absurd (ground (arith, d, f')))
  ])
  | inr x ↦ (elim (Bool-cases (same q.token_hash k)) [
    | inl y ↦
        (let e : q ≡ s = ground (arith, gs, y) in
          let f = found_has_id h rs r (ground (arith, gr, x)) in
          let f' : any (has_id q.id) rs ≡ true =
            subst (λ u. any (has_id u) rs ≡ true) (i ∙ ap (λ (t : TokenRow). t.id) (sym e)) f in
          absurd (ground (arith, d, f')))
    | inr y ↦
        one_key h k rs r s (ground (arith, d)) (ground (arith, gr, x)) (ground (arith, gs, y)) i
  ])
]

-- A row that an update passes over.
get-update_kept :
    (h : Bytes) (p : TokenRow → Bool) (f : TokenRow → TokenRow) (rs : List TokenRow) (r : TokenRow)
    → ((q : TokenRow) → (f q).token_hash ≡ q.token_hash)
    → get_by_hash h rs ≡ some r
    → p r ≡ false
    → get_by_hash h (update_tokens p f rs) ≡ some r
unfolding get_by_hash update_tokens
get-update_kept h p f [] r k g n = g
get-update_kept h p f (q ∷ rs) r k g n = elim (Bool-cases (same q.token_hash h)) [
  | inl x ↦
      (let e : q ≡ r = ground (arith, g, x) in
        let n' : p q ≡ false = ap p e ∙ n in rw (n', x) (ap some e))
  | inr x ↦
      (let rest = get-update_kept h p f rs r k (ground (arith, g, x)) n in
        elim (Bool-cases (p q)) [ inl y ↦ rw (y, k q, x) rest | inr y ↦ rw (y, x) rest ])
]

-- Revoke, of one token or of all, whatever token the caller names and whatever fails, leaves every row of
-- another account as it is. The table's ids are unique.
pub revoke_others :
    (hash : Bytes → Bytes) (e : Env) (caller raw : Bytes) (all_tokens : Bool) (db : TokenDb)
    (h : Bytes) (r : TokenRow)
    → keyed db.tokens ≡ true
    → get_by_hash h db.tokens ≡ some r
    → r.account_id ≢ caller
    → get_by_hash h (revoke hash e caller raw all_tokens db).1.tokens ≡ some r
unfolding revoke revoke_all revoke_token
revoke_others hash e caller raw all_tokens db h r d g n = elim (Bool-cases (e.down 0)) [
  | inl x ↦ rw (revoke, x) g
  | inr x ↦ (elim (Option-cases (get_by_hash (hash raw) db.tokens)) [
    | inl y ↦ rw (revoke, x, y) g
    | inr (row, y) ↦ (elim (Bool-cases (same row.account_id caller)) [
      | inr z ↦ rw (revoke, x, y, z) g
      | inl z ↦ (elim (Bool-cases (e.down 1)) [
        | inl u ↦ rw (revoke, x, y, z, u) g
        | inr u ↦
            (let c = same_eq row.account_id caller z in
              let a : same r.account_id row.account_id ≡ false =
                differs r.account_id row.account_id (λ q. n (q ∙ c)) in
              let i : same r.id row.id ≡ false = differs r.id row.id (λ q. n (
                ap (λ (t : TokenRow). t.account_id) (one_key h (hash raw) db.tokens r row d g y q)
                ∙ c)) in
              elim (Bool-cases all_tokens) [
                | inl w ↦
                    rw (revoke, x, y, z, u, w)
                      (get-update_kept h
                        (λ q. same q.account_id row.account_id && not (is_some q.revoked_at))
                        (revoked (e.now 0)) db.tokens r (λ q. refl) g (rw (a) refl))
                | inr w ↦
                    rw (revoke, x, y, z, u, w)
                      (get-update_kept h (λ q. same q.id row.id) (revoked (e.now 0)) db.tokens r
                        (λ q. refl) g i)
              ])
      ])
    ])
  ])
]
  where
    differs : (s t : Bytes) → s ≢ t → same s t ≡ false
    differs s t k = elim (Bool-cases (same s t)) [ inl x ↦ absurd (k (same_eq s t x)) | inr x ↦ x ]
