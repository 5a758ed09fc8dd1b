-- ===== src/Tokens/Validity.antt =====
-- Which tokens are accepted (service_impl.go).
use jamsesh.Prelude.{
  [], ap, arith, Bool-cases, false, inl, inr, ltb, none, Option-cases, refl, some, sym, ℕ, ◌↔◌, ◌∙◌,
  ◌≡◌, ◌≢◌, ◌≤◌,
}
use jamsesh.Go.Strings.{Bytes, is_some, same, same_eq}
use jamsesh.Tokens.Service.{
  accept_row, Env, ok, read_account, touched, validate_row, validate_token,
}
use jamsesh.Tokens.Tables.{Account, get_account, get_by_hash, TokenDb, TokenRow, touch_token}

module _ (hash : Bytes → Bytes) where
  -- A row with the hash that is not revoked and whose expiry does not lie in the past, with its account.
  pub record Good (raw : Bytes) (now : ℕ) (db : TokenDb) (a : Account) : Type 0 where
    pub row : TokenRow
    pub found : get_by_hash (hash raw) db.tokens ≡ some row
    pub unrevoked : row.revoked_at ≡ none
    pub unexpired : now ≤ row.expires_at
    pub account : get_account row.account_id db.accounts ≡ some a

  touched_accounts :
      (e : Env) (row : TokenRow) (db : TokenDb) → (touched hash e row db).accounts ≡ db.accounts
  unfolding touched touch_token
  touched_accounts e row db = elim (Bool-cases (e.down 1)) [
    | inl x ↦ rw (touched, x) refl
    | inr x ↦ rw (touched, x) refl
  ]

  accept-Good :
      (e : Env) (raw : Bytes) (db : TokenDb) (a : Account)
      → raw ≢ []
      → e.down 0 ≡ false
      → e.down 2 ≡ false
      → Good raw (e.now 0) db a
      → (validate_token hash e raw db).0 ≡ ok a
  unfolding validate_token validate_row accept_row read_account
  accept-Good e raw db a n d0 d2 g =
      let x : same raw [] ≡ false = not_empty raw n in
      let y : is_some g.row.revoked_at ≡ false = rw (g.unrevoked) refl in
      let z : ltb g.row.expires_at (e.now 0) ≡ false = ground (arith, g.unexpired) in
      let acc : get_account g.row.account_id (touched hash e g.row db).accounts ≡ some a =
        ap (get_account g.row.account_id) (touched_accounts e g.row db) ∙ g.account in
      rw (validate_token, x, d0, g.found, validate_row, y, z, accept_row, read_account, d2, acc)
        refl
    where
      not_empty : (s : Bytes) → s ≢ [] → same s [] ≡ false
      not_empty s k = elim (Bool-cases (same s [])) [
        | inl x ↦ absurd (k (same_eq s [] x))
        | inr x ↦ x
      ]

  accepted_row :
      (e : Env) (raw : Bytes) (db : TokenDb) (a : Account) (row : TokenRow)
      → get_by_hash (hash raw) db.tokens ≡ some row
      → (validate_row hash e row db).0 ≡ ok a
      → Good raw (e.now 0) db a
  unfolding validate_row accept_row read_account
  accepted_row e raw db a row f p = elim (Option-cases row.revoked_at) [
    | inr (t, x) ↦ absurd (ground (arith, p, x))
    | inl x ↦ (elim (Bool-cases (ltb row.expires_at (e.now 0))) [
      | inl y ↦ absurd (ground (arith, p, x, y))
      | inr y ↦ (elim (Bool-cases (e.down 2)) [
        | inl z ↦ absurd (ground (arith, p, x, y, z))
        | inr z ↦
            (let db' = touched hash e row db in
              elim (Option-cases (get_account row.account_id db'.accounts)) [
                | inl u ↦ absurd (ground (arith, p, x, y, z, u))
                | inr (b, u) ↦
                    (let same_a : b ≡ a = ground (arith, p, x, y, z, u) in
                      record {
                        row = row;
                        found = f;
                        unrevoked = x;
                        unexpired = ground (arith, y);
                        account =
                            ap (get_account row.account_id) (sym (touched_accounts e row db))
                            ∙ u
                            ∙ ap some same_a;
                      })
              ])
      ])
    ])
  ]

  only-Good :
      (e : Env) (raw : Bytes) (db : TokenDb) (a : Account)
      → (validate_token hash e raw db).0 ≡ ok a
      → Good raw (e.now 0) db a
  unfolding validate_token
  only-Good e raw db a p = elim (Bool-cases (same raw [])) [
    | inl x ↦ absurd (ground (arith, p, x))
    | inr x ↦ (elim (Bool-cases (e.down 0)) [
      | inl y ↦ absurd (ground (arith, p, x, y))
      | inr y ↦ (elim (Option-cases (get_by_hash (hash raw) db.tokens)) [
        | inl z ↦ absurd (ground (arith, p, x, y, z))
        | inr (row, z) ↦ accepted_row e raw db a row z (sym (rw (validate_token, x, y, z) refl) ∙ p)
      ])
    ])
  ]

-- With a store that answers, Validate accepts a token that is not empty exactly when the table has a row
-- with its hash that is not revoked and whose expiry does not lie in the past, and then answers the row's
-- account; whether the touch of last_used_at fails makes no difference.
pub validate_token_iff :
    (hash : Bytes → Bytes) (e : Env) (raw : Bytes) (db : TokenDb) (a : Account)
    → raw ≢ []
    → e.down 0 ≡ false
    → e.down 2 ≡ false
    → ((validate_token hash e raw db).0 ≡ ok a) ↔ Good hash raw (e.now 0) db a
validate_token_iff hash e raw db a n d0 d2 =
    (only-Good hash e raw db a, accept-Good hash e raw db a n d0 d2)
