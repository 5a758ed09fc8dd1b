-- ===== src/Tokens/Rotation.antt =====
-- What Validate and Refresh (service_impl.go) do to the rows of oauth_tokens.
use jamsesh.Prelude.{[], Bool-cases, inl, inr, ltb, Option-cases, refl, subst, sym, ◌≡◌, ◌⊎◌}
use jamsesh.Go.Strings.{Bytes, is_some, same}
use jamsesh.Tokens.Edits.{Edits, Edits-trans, same_rows}
use jamsesh.Tokens.Minting.{issue-Edits, revoke_token-Edits, touch-Edits}
use jamsesh.Tokens.Runs.{Avoids}
use jamsesh.Tokens.Service.{
  accept_row, Env, err, later_env, ok, read_account, refresh, Result, rotate, TokenError, touched,
  validate_row, validate_token,
}
use jamsesh.Tokens.Tables.{
  Account, get_account, get_by_hash, is_refresh, revoke_token, TokenDb, TokenRow,
}

-- Validate's answer, kept with its equation.
pub result_cases :
    {A : Type 0} (r : Result A) → ((a : A) × (r ≡ ok a)) ⊎ ((x : TokenError) × (r ≡ err x))
result_cases (ok a) = inl (a, refl)
result_cases (err x) = inr (x, refl)

module _ (hash : Bytes → Bytes) where
  read_same : (e : Env) (row : TokenRow) (db : TokenDb) → (read_account hash e row db).1 ≡ db
  unfolding read_account
  read_same e row db = elim (Option-cases (get_account row.account_id db.accounts)) [
    | inl x ↦ (elim (Bool-cases (e.down 2)) [
      | inl y ↦ rw (read_account, y) refl
      | inr y ↦ rw (read_account, y, x) refl
    ])
    | inr (a, x) ↦ (elim (Bool-cases (e.down 2)) [
      | inl y ↦ rw (read_account, y) refl
      | inr y ↦ rw (read_account, y, x) refl
    ])
  ]

  accept-Edits :
      (h : Bytes) (e : Env) (row : TokenRow) (db : TokenDb)
      → Edits h db.tokens (accept_row hash e row db).1.tokens
  unfolding accept_row touched
  accept-Edits h e row db =
      subst (λ (u : TokenDb). Edits h db.tokens u.tokens)
        (sym (read_same e row (touched hash e row db)))
        (elim (Bool-cases (e.down 1)) [
          | inl x ↦ rw (touched, x) same_rows
          | inr x ↦ rw (touched, x) (touch-Edits hash h row.id (e.now 0) db)
        ])

  pub validate-Edits :
      (h : Bytes) (e : Env) (raw : Bytes) (db : TokenDb)
      → Edits h db.tokens (validate_token hash e raw db).1.tokens
  unfolding validate_token validate_row
  validate-Edits h e raw db = elim (Bool-cases (same raw [])) [
    | inl x ↦ rw (validate_token, x) same_rows
    | inr x ↦ (elim (Bool-cases (e.down 0)) [
      | inl y ↦ rw (validate_token, x, y) same_rows
      | inr y ↦ (elim (Option-cases (get_by_hash (hash raw) db.tokens)) [
        | inl z ↦ rw (validate_token, x, y, z) same_rows
        | inr (row, z) ↦ (elim (Bool-cases (is_some row.revoked_at)) [
          | inl u ↦ rw (validate_token, x, y, z, validate_row, u) same_rows
          | inr u ↦ (elim (Bool-cases (ltb row.expires_at (e.now 0))) [
            | inl v ↦ rw (validate_token, x, y, z, validate_row, u, v) same_rows
            | inr v ↦ rw (validate_token, x, y, z, validate_row, u, v) (accept-Edits h e row db)
          ])
        ])
      ])
    ])
  ]

  pub rotate-Edits :
      (h : Bytes) (e : Env) (a : Account) (row : TokenRow) (db : TokenDb)
      → Avoids hash h e
      → Edits h db.tokens (rotate hash e a row db).1.tokens
  unfolding rotate later_env
  rotate-Edits h e a row db v = elim (Bool-cases (is_refresh row.kind)) [
    | inr x ↦ rw (rotate, x) same_rows
    | inl x ↦ (elim (Bool-cases (e.down 4)) [
      | inl y ↦ rw (rotate, x, y) same_rows
      | inr y ↦
          rw (rotate, x, y)
            (Edits-trans (revoke_token-Edits hash h row.id (e.now 1) db)
              (issue-Edits hash h (later_env 2 5 e) a.id (revoke_token row.id (e.now 1) db) v))
    ])
  ]

  pub refresh-Edits :
      (h : Bytes) (e : Env) (raw : Bytes) (db : TokenDb)
      → Avoids hash h e
      → Edits h db.tokens (refresh hash e raw db).1.tokens
  unfolding refresh
  refresh-Edits h e raw db v =
      let w = validate_token hash e raw db in
      let first = validate-Edits h e raw db in
      elim (result_cases w.0) [
        | inr (x, p) ↦ rw (refresh, p) first
        | inl (a, p) ↦ (elim (Bool-cases (e.down 3)) [
          | inl y ↦ rw (refresh, p, y) first
          | inr y ↦ (elim (Option-cases (get_by_hash (hash raw) w.1.tokens)) [
            | inl z ↦ rw (refresh, p, y, z) first
            | inr (row, z) ↦
                rw (refresh, p, y, z) (Edits-trans first (rotate-Edits h e a row w.1 v))
          ])
        ])
      ]
