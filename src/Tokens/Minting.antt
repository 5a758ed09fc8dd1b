-- ===== src/Tokens/Minting.antt =====
-- What the calls of service_impl.go that issue tokens do to the rows of oauth_tokens.
use jamsesh.Prelude.{
  ◌+◌, ◌++◌, [], any, arith, Bool, Bool-cases, false, inl, inr, none, not, Option-cases, refl, some,
  subst, ◌||◌, ℕ, ◌∷◌, ◌≡◌,
}
use jamsesh.Go.Strings.{Bytes, is_some, same}
use jamsesh.Tokens.Edits.{appended, Edits, Edits-trans, none_of, same_rows, updated}
use jamsesh.Tokens.Runs.{Avoids}
use jamsesh.Tokens.Service.{
  access_token_ttl, create_token, Env, issue_pair, issue_rows, issue_short_lived, refresh_token_ttl,
  token_row,
}
use jamsesh.Tokens.Tables.{
  access, get_account, get_by_hash, insert_token, refresh_kind, revoke_token, revoked,
  session_known, TokenDb, TokenRow, touch_token,
}

module _ (hash : Bytes → Bytes) where
  -- A row that is created adds to the table, if it is created.
  pub create-Edits :
      (h : Bytes) (down : Bool) (r : TokenRow) (db db' : TokenDb)
      → create_token down r db ≡ some db'
      → same r.token_hash h ≡ false
      → Edits h db.tokens db'.tokens
  unfolding create_token insert_token
  create-Edits h down r db db' e n = elim (Bool-cases down) [
    | inl x ↦ absurd (ground (arith, e, x))
    | inr x ↦
        (elim (Bool-cases (
          any (λ (q : TokenRow). same q.id r.id) db.tokens
          || is_some (get_by_hash r.token_hash db.tokens)
          || not (is_some (get_account r.account_id db.accounts))
          || not (session_known r.session_id db.sessions))) [
            | inl y ↦ absurd (ground (arith, e, x, y))
            | inr y ↦
                (let q : record db { tokens = db.tokens ++ r ∷ [] } ≡ db' =
                    ground (arith, e, x, y) in
                  subst (λ (u : TokenDb). Edits h db.tokens u.tokens) q
                    (appended r same_rows n
                      (none_of (get_by_hash r.token_hash db.tokens) (ground (arith, y)))))
          ])
  ]

  issue_rows-Edits :
      (h : Bytes) (e : Env) (account a b : Bytes) (db : TokenDb)
      → same (hash a) h ≡ false
      → same (hash b) h ≡ false
      → Edits h db.tokens (issue_rows hash e account a b db).1.tokens
  unfolding issue_rows token_row
  issue_rows-Edits h e account a b db na nb =
      let r1 =
        token_row (e.ids 0) account (hash a) access none (e.now 0) (e.now 0 + access_token_ttl) in
      let r2 =
        token_row (e.ids 1) account (hash b) refresh_kind none (e.now 0)
          (e.now 0 + refresh_token_ttl) in
      elim (Option-cases (create_token (e.down 0) r1 db)) [
        | inl x ↦ rw (issue_rows, x) same_rows
        | inr (db1, x) ↦
            (let one = create-Edits h (e.down 0) r1 db db1 x na in
              elim (Option-cases (create_token (e.down 1) r2 db1)) [
                | inl y ↦ rw (issue_rows, x, y) one
                | inr (db2, y) ↦
                    rw (issue_rows, x, y)
                      (Edits-trans one (create-Edits h (e.down 1) r2 db1 db2 y nb))
              ])
      ]

  pub issue-Edits :
      (h : Bytes) (e : Env) (account : Bytes) (db : TokenDb)
      → Avoids hash h e
      → Edits h db.tokens (issue_pair hash e account db).1.tokens
  unfolding issue_pair
  issue-Edits h e account db v = elim (Option-cases (e.raws 0)) [
    | inl x ↦ rw (issue_pair, x) same_rows
    | inr (a, x) ↦ (elim (Option-cases (e.raws 1)) [
      | inl y ↦ rw (issue_pair, x, y) same_rows
      | inr (b, y) ↦ rw (issue_pair, x, y) (issue_rows-Edits h e account a b db (v 0 a x) (v 1 b y))
    ])
  ]

  pub short-Edits :
      (h : Bytes) (e : Env) (account : Bytes) (ttl : ℕ) (db : TokenDb)
      → Avoids hash h e
      → Edits h db.tokens (issue_short_lived hash e account ttl db).1.tokens
  unfolding issue_short_lived token_row
  short-Edits h e account ttl db v = elim (Option-cases (e.raws 0)) [
    | inl x ↦ rw (issue_short_lived, x) same_rows
    | inr (a, x) ↦
        (let r = token_row (e.ids 0) account (hash a) access none (e.now 0) (e.now 0 + ttl) in
          elim (Option-cases (create_token (e.down 0) r db)) [
            | inl y ↦ rw (issue_short_lived, x, y) same_rows
            | inr (db', y) ↦
                rw (issue_short_lived, x, y) (create-Edits h (e.down 0) r db db' y (v 0 a x))
          ])
  ]

  pub touch-Edits :
      (h id : Bytes) (now : ℕ) (db : TokenDb) → Edits h db.tokens (touch_token id now db).tokens
  unfolding touch_token
  touch-Edits h id now db =
      updated (λ r. same r.id id) (λ r. record r { last_used_at = some now }) same_rows (λ r. refl)
        (λ r k. k)

  pub revoke_token-Edits :
      (h id : Bytes) (now : ℕ) (db : TokenDb) → Edits h db.tokens (revoke_token id now db).tokens
  unfolding revoke_token
  revoke_token-Edits h id now db =
      updated (λ r. same r.id id) (revoked now) same_rows (λ r. refl) (λ r k. refl)
