-- ===== src/Tokens/Changes.antt =====
-- What the other calls of service_impl.go, and so a run of calls, do to the rows of oauth_tokens.
use jamsesh.Prelude.{
  ◌&&◌, ◌+◌, ◌++◌, ◌==◌, [], All, any, ap, arith, Bool, Bool-cases, false, inl, inr, List, none,
  not, Option, Option-cases, refl, some, subst, sym, true, ◌||◌, ℕ, ◌∙◌, ◌∷◌, ◌≡◌,
}
use jamsesh.Go.Strings.{Bytes, codes, is_some, same}
use jamsesh.Tokens.Edits.{Edits, Edits-trans, kept, same_rows, updated}
use jamsesh.Tokens.Minting.{create-Edits, issue-Edits, revoke_token-Edits, short-Edits}
use jamsesh.Tokens.Runs.{
  Avoids, Call, CallAvoids, ends_session, issues, issues_anonymous, issues_existing, issues_short,
  refreshes, revokes, revokes_anonymous, run_calls, serve, validates,
}
use jamsesh.Tokens.Service.{
  anonymous_tx, create_token, Env, issue_anonymous, issue_for_existing, revoke,
  revoke_anonymous_bearer, token_row,
}
use jamsesh.Tokens.Tables.{
  Account, anonymous_session_bearer, delete_account, get_account, get_by_hash, insert_account,
  revoke_all, revoke_for_session, revoke_token, revoked, TokenDb, TokenRow,
}
use jamsesh.Tokens.Rotation.{refresh-Edits, validate-Edits}

some_value : {A : Type 0} → A → Option A → A
some_value a none = a
some_value a (some b) = b

some_eq : {A : Type 0} (a b : A) → some a ≡ some b → a ≡ b
unfolding some_value
some_eq a b e = ap (some_value a) e

module _ (hash : Bytes → Bytes) where
  existing-Edits :
      (h : Bytes) (e : Env) (account : Bytes) (session ttl : ℕ) (db : TokenDb)
      → Avoids hash h e
      → Edits h db.tokens (issue_for_existing hash e account session ttl db).1.tokens
  unfolding issue_for_existing token_row
  existing-Edits h e account session ttl db v =
      elim (Bool-cases (same account [] || session == 0)) [
        | inl x ↦ rw (issue_for_existing, x) same_rows
        | inr x ↦ (elim (Bool-cases (e.down 0)) [
          | inl y ↦ rw (issue_for_existing, x, y) same_rows
          | inr y ↦ (elim (Option-cases (get_account account db.accounts)) [
            | inl z ↦ rw (issue_for_existing, x, y, z) same_rows
            | inr (a, z) ↦ (elim (Bool-cases a.is_anonymous) [
              | inr u ↦ rw (issue_for_existing, x, y, z, u) same_rows
              | inl u ↦ (elim (Option-cases (e.raws 0)) [
                | inl w ↦ rw (issue_for_existing, x, y, z, u, w) same_rows
                | inr (raw, w) ↦
                    (let r =
                        token_row (codes "tok_" ++ e.ids 0) account (hash raw)
                          anonymous_session_bearer (some session) (e.now 0) (e.now 0 + ttl) in
                      elim (Option-cases (create_token (e.down 1) r db)) [
                        | inl k ↦ rw (issue_for_existing, x, y, z, u, w, k) same_rows
                        | inr (db', k) ↦
                            rw (issue_for_existing, x, y, z, u, w, k)
                              (create-Edits hash h (e.down 1) r db db' k (v 0 raw w))
                      ])
              ])
            ])
          ])
        ])
      ]

  pub revoke-Edits :
      (h : Bytes) (e : Env) (caller raw : Bytes) (b : Bool) (db : TokenDb)
      → Edits h db.tokens (revoke hash e caller raw b db).1.tokens
  unfolding revoke revoke_all
  revoke-Edits h e caller raw b db = elim (Bool-cases (e.down 0)) [
    | inl x ↦ rw (revoke, x) same_rows
    | inr x ↦ (elim (Option-cases (get_by_hash (hash raw) db.tokens)) [
      | inl y ↦ rw (revoke, x, y) same_rows
      | inr (row, y) ↦ (elim (Bool-cases (same row.account_id caller)) [
        | inr z ↦ rw (revoke, x, y, z) same_rows
        | inl z ↦ (elim (Bool-cases (e.down 1)) [
          | inl u ↦ rw (revoke, x, y, z, u) same_rows
          | inr u ↦ (elim (Bool-cases b) [
            | inl w ↦
                rw (revoke, x, y, z, u, w)
                  (updated (λ r. same r.account_id row.account_id && not (is_some r.revoked_at))
                    (revoked (e.now 0)) same_rows (λ r. refl) (λ r k. refl))
            | inr w ↦ rw (revoke, x, y, z, u, w) (revoke_token-Edits hash h row.id (e.now 0) db)
          ])
        ])
      ])
    ])
  ]

  delete-Edits : (h id : Bytes) (db : TokenDb) → Edits h db.tokens (delete_account id db).tokens
  unfolding delete_account
  delete-Edits h id db = kept (λ r. not (same r.account_id id)) same_rows

  pub revoke_anonymous-Edits :
      (h : Bytes) (e : Env) (raw : Bytes) (db : TokenDb)
      → Edits h db.tokens (revoke_anonymous_bearer hash e raw db).1.tokens
  unfolding revoke_anonymous_bearer
  revoke_anonymous-Edits h e raw db = elim (Bool-cases (e.down 0)) [
    | inl x ↦ rw (revoke_anonymous_bearer, x) same_rows
    | inr x ↦ (elim (Option-cases (get_by_hash (hash raw) db.tokens)) [
      | inl y ↦ rw (revoke_anonymous_bearer, x, y) same_rows
      | inr (row, y) ↦ (elim (Bool-cases (e.down 1)) [
        | inl z ↦ rw (revoke_anonymous_bearer, x, y, z) same_rows
        | inr z ↦
            (let one = revoke_token-Edits hash h row.id (e.now 0) db in
              elim (Bool-cases (e.down 2)) [
                | inl u ↦ rw (revoke_anonymous_bearer, x, y, z, u) one
                | inr u ↦
                    rw (revoke_anonymous_bearer, x, y, z, u)
                      (Edits-trans one
                        (delete-Edits h row.account_id (revoke_token row.id (e.now 0) db)))
              ])
      ])
    ])
  ]

  session-Edits :
      (h : Bytes) (s now : ℕ) (db : TokenDb)
      → Edits h db.tokens (revoke_for_session s now db).tokens
  unfolding revoke_for_session
  session-Edits h s now db =
      updated
        (λ r. (elim r.session_id [ none ↦ false | some t ↦ t == s ]) && not (is_some r.revoked_at))
        (revoked now) same_rows (λ r. refl) (λ r k. refl)

  account_rows :
      (a : Account) (db db' : TokenDb) → insert_account a db ≡ some db' → db'.tokens ≡ db.tokens
  unfolding insert_account
  account_rows a db db' e =
      elim (Bool-cases
        (any (λ (b : Account). same b.id a.id || same b.email a.email) db.accounts)) [
          | inl x ↦ absurd (ground (arith, e, x))
          | inr x ↦
              (let q : record db { accounts = db.accounts ++ a ∷ [] } ≡ db' =
                  ground (arith, e, x) in
                ap (λ (u : TokenDb). u.tokens) (sym q))
        ]

  anonymous-Edits :
      (h : Bytes) (e : Env) (account nickname : Bytes) (session ttl : ℕ) (db : TokenDb)
      (q : Bytes × TokenDb)
      → Avoids hash h e
      → anonymous_tx hash e account nickname session ttl db ≡ some q
      → Edits h db.tokens q.1.tokens
  unfolding anonymous_tx token_row
  anonymous-Edits h e account nickname session ttl db q v p =
      let a : Account = record {
        id = account;
        email = account ++ codes "@playground.local";
        display_name = nickname;
        is_anonymous = true;
        created_at = e.now 0;
      } in
      elim (Bool-cases (e.down 0)) [
        | inl x ↦ absurd (ground (arith, p, x))
        | inr x ↦ (elim (Option-cases (insert_account a db)) [
          | inl y ↦ absurd (ground (arith, p, x, y))
          | inr (db1, y) ↦ (elim (Option-cases (e.raws 1)) [
            | inl z ↦ absurd (ground (arith, p, x, y, z))
            | inr (raw, z) ↦
                (let r =
                    token_row (codes "tok_" ++ e.ids 0) account (hash raw) anonymous_session_bearer
                      (some session) (e.now 0) (e.now 0 + ttl) in
                  elim (Option-cases (create_token (e.down 1) r db1)) [
                    | inl u ↦ absurd (ground (arith, p, x, y, z, u))
                    | inr (db2, u) ↦
                        (let es = create-Edits hash h (e.down 1) r db1 db2 u (v 1 raw z) in
                          let es' =
                            subst (λ (t : List TokenRow). Edits h t db2.tokens)
                              (account_rows a db db1 y) es in
                          elim (Bool-cases (e.down 2)) [
                            | inl w ↦ absurd (ground (arith, p, x, y, z, u, w))
                            | inr w ↦
                                (let k : some (raw, db2) ≡ some q =
                                    sym (simp (anonymous_tx, x, y, z, u, w)) ∙ p in
                                  subst (λ (t : Bytes × TokenDb). Edits h db.tokens t.1.tokens)
                                    (some_eq (raw, db2) q k) es')
                          ])
                  ])
          ])
        ])
      ]

  issue_anonymous-Edits :
      (h : Bytes) (e : Env) (session : ℕ) (nickname : Bytes) (ttl : ℕ) (db : TokenDb)
      → Avoids hash h e
      → Edits h db.tokens (issue_anonymous hash e session nickname ttl db).1.tokens
  unfolding issue_anonymous
  issue_anonymous-Edits h e session nickname ttl db v =
      elim (Bool-cases (same nickname [] || session == 0)) [
        | inl x ↦ rw (issue_anonymous, x) same_rows
        | inr x ↦ (elim (Option-cases (e.raws 0)) [
          | inl y ↦ rw (issue_anonymous, x, y) same_rows
          | inr (suffix, y) ↦
              (let account = codes "anon_" ++ suffix in
                elim (Option-cases (anonymous_tx hash e account nickname session ttl db)) [
                  | inl z ↦ rw (issue_anonymous, x, y, z) same_rows
                  | inr (q, z) ↦
                      rw (issue_anonymous, x, y, z)
                        (anonymous-Edits h e account nickname session ttl db q v z)
                ])
        ])
      ]

  serve-Edits :
      (h : Bytes) (c : Call) (db : TokenDb)
      → CallAvoids hash h c
      → Edits h db.tokens (serve hash c db).tokens
  unfolding serve
  serve-Edits h (issues e a) db v = issue-Edits hash h e a db (v e refl)
  serve-Edits h (issues_short e a ttl) db v = short-Edits hash h e a ttl db (v e refl)
  serve-Edits h (validates e raw) db v = validate-Edits hash h e raw db
  serve-Edits h (refreshes e raw) db v = refresh-Edits hash h e raw db (v e refl)
  serve-Edits h (issues_anonymous e s n ttl) db v = issue_anonymous-Edits h e s n ttl db (v e refl)
  serve-Edits h (issues_existing e a s ttl) db v = existing-Edits h e a s ttl db (v e refl)
  serve-Edits h (revokes e c raw b) db v = revoke-Edits h e c raw b db
  serve-Edits h (revokes_anonymous e raw) db v = revoke_anonymous-Edits h e raw db
  serve-Edits h (ends_session s now) db v = session-Edits h s now db

  pub run-Edits :
      (h : Bytes) (cs : List Call) (db : TokenDb)
      → All (CallAvoids hash h) cs
      → Edits h db.tokens (run_calls hash cs db).tokens
  unfolding run_calls
  run-Edits h [] db v = same_rows
  run-Edits h (c ∷ cs) db v =
      Edits-trans (serve-Edits h c db v.0) (run-Edits h cs (serve hash c db) v.1)
