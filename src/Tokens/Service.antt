-- ===== src/Tokens/Service.antt =====
-- service_impl.go. SHA-256 is a parameter; what is random, the identifiers, the clock and the failures of the
-- store are in the environment of a call, each by the number of its use. Times are seconds.
use jamsesh.Prelude.{
  ◌+◌, ◌++◌, ◌==◌, [], Bool, if◌then◌else◌, ltb, none, not, Option, some, true, ◌||◌, ℕ,
}
use jamsesh.Go.Strings.{Bytes, codes, is_some, same}
use jamsesh.Tokens.Tables.{
  access, Account, anonymous_session_bearer, delete_account, get_account, get_by_hash,
  insert_account, insert_token, is_refresh, Kind, refresh_kind, revoke_all, revoke_token, TokenDb,
  TokenRow, touch_token,
}

-- Nothing for a raw token is a failure of the random source.
pub record Env : Type 0 where
  pub now : ℕ → ℕ
  pub down : ℕ → Bool
  pub raws : ℕ → Option Bytes
  pub ids : ℕ → Bytes

pub data TokenError : Type 0 where
  invalid_token expired_token revoked_token forbidden not_found driver_failure no_randomness
        bad_argument :
      TokenError

pub data Result (A : Type 0) : Type 0 where
  ok : A → Result A
  err : TokenError → Result A

pub record Pair : Type 0 where
  pub access_token : Bytes
  pub refresh_token : Bytes
  pub access_expires_at : ℕ
  pub refresh_expires_at : ℕ

abbrev pub access_token_ttl : ℕ
access_token_ttl = 3600

abbrev pub refresh_token_ttl : ℕ
refresh_token_ttl = 2592000

-- The rest of a call, behind `clocks` readings of the clock and `calls` calls of the store.
unfoldable pub later_env : (clocks calls : ℕ) → Env → Env
later_env clocks calls e = record e {
  now = λ k. e.now (clocks + k);
  down = λ k. e.down (calls + k);
}

unfoldable pub token_row :
    (id account hash : Bytes) → Kind → Option ℕ → (issued expires : ℕ) → TokenRow
token_row id account hash kind session issued expires = record {
  id = id;
  account_id = account;
  token_hash = hash;
  kind = kind;
  session_id = session;
  issued_at = issued;
  expires_at = expires;
  last_used_at = none;
  revoked_at = none;
}

-- A call of the store that may fail.
unfoldable pub create_token : Bool → TokenRow → TokenDb → Option TokenDb
unfolding insert_token
create_token down r db = if down then none else insert_token r db

module _ (hash : Bytes → Bytes) where
  -- Issue behind the two random tokens: the second insert leaves the first row if it fails.
  unfoldable pub issue_rows :
      Env → (account access_raw refresh_raw : Bytes) → TokenDb → Result Pair × TokenDb
  unfolding create_token token_row
  issue_rows e account access_raw refresh_raw db =
      let now = e.now 0 in
      elim (create_token (e.down 0)
        (token_row (e.ids 0) account (hash access_raw) access none now (now + access_token_ttl))
        db) [
          | none ↦ (err driver_failure, db)
          | some db1 ↦
              (elim (create_token (e.down 1)
                (token_row (e.ids 1) account (hash refresh_raw) refresh_kind none now
                  (now + refresh_token_ttl))
                db1) [
                  | none ↦ (err driver_failure, db1)
                  | some db2 ↦ (
                    ok (record {
                      access_token = access_raw;
                      refresh_token = refresh_raw;
                      access_expires_at = now + access_token_ttl;
                      refresh_expires_at = now + refresh_token_ttl;
                    }),
                    db2,
                  )
                ])
        ]

  -- Issue
  unfoldable pub issue_pair : Env → (account : Bytes) → TokenDb → Result Pair × TokenDb
  unfolding issue_rows
  issue_pair e account db = elim (e.raws 0) [
    | none ↦ (err no_randomness, db)
    | some access_raw ↦ (elim (e.raws 1) [
      | none ↦ (err no_randomness, db)
      | some refresh_raw ↦ issue_rows e account access_raw refresh_raw db
    ])
  ]

  -- IssueShortLived
  unfoldable pub issue_short_lived :
      Env → (account : Bytes) → (ttl : ℕ) → TokenDb → Result (Bytes × ℕ) × TokenDb
  unfolding create_token token_row
  issue_short_lived e account ttl db = elim (e.raws 0) [
    | none ↦ (err no_randomness, db)
    | some raw ↦
        (let now = e.now 0 in
          elim (create_token (e.down 0)
            (token_row (e.ids 0) account (hash raw) access none now (now + ttl)) db) [
              | none ↦ (err driver_failure, db)
              | some db' ↦ (ok (raw, now + ttl), db')
            ])
  ]

  -- The touch of Validate, which may fail.
  unfoldable pub touched : Env → TokenRow → TokenDb → TokenDb
  unfolding touch_token
  touched e row db = if e.down 1 then db else touch_token row.id (e.now 0) db

  -- Validate behind the touch: the account is read.
  unfoldable pub read_account : Env → TokenRow → TokenDb → Result Account × TokenDb
  unfolding get_account
  read_account e row db =
      if e.down 2
      then (err driver_failure, db)
      else (elim (get_account row.account_id db.accounts) [
        | none ↦ (err not_found, db)
        | some a ↦ (ok a, db)
      ])

  unfoldable pub accept_row : Env → TokenRow → TokenDb → Result Account × TokenDb
  unfolding touched read_account
  accept_row e row db = read_account e row (touched e row db)

  unfoldable pub validate_row : Env → TokenRow → TokenDb → Result Account × TokenDb
  unfolding accept_row
  validate_row e row db =
      if is_some row.revoked_at
      then (err revoked_token, db)
      else if ltb row.expires_at (e.now 0)
      then (err expired_token, db)
      else accept_row e row db

  -- Validate
  unfoldable pub validate_token : Env → (raw : Bytes) → TokenDb → Result Account × TokenDb
  unfolding get_by_hash validate_row
  validate_token e raw db =
      if same raw []
      then (err invalid_token, db)
      else if e.down 0
      then (err driver_failure, db)
      else (elim (get_by_hash (hash raw) db.tokens) [
        | none ↦ (err invalid_token, db)
        | some row ↦ validate_row e row db
      ])

  -- Refresh behind the second read of the row.
  unfoldable pub rotate : Env → Account → TokenRow → TokenDb → Result Pair × TokenDb
  unfolding revoke_token issue_pair later_env
  rotate e a row db =
      if not (is_refresh row.kind)
      then (err invalid_token, db)
      else if e.down 4
      then (err driver_failure, db)
      else issue_pair (later_env 2 5 e) a.id (revoke_token row.id (e.now 1) db)

  -- Refresh
  unfoldable pub refresh : Env → (raw : Bytes) → TokenDb → Result Pair × TokenDb
  unfolding validate_token rotate get_by_hash
  refresh e raw db =
      let v = validate_token e raw db in
      elim v.0 [
        | err x ↦ (err x, v.1)
        | ok a ↦
            if e.down 3
            then (err driver_failure, v.1)
            else (elim (get_by_hash (hash raw) v.1.tokens) [
              | none ↦ (err not_found, v.1)
              | some row ↦ rotate e a row v.1
            ])
      ]

  -- The transaction of IssueAnonymousSessionBearer.
  unfoldable pub anonymous_tx :
      Env → (account nickname : Bytes) → (session ttl : ℕ) → TokenDb → Option (Bytes × TokenDb)
  unfolding insert_account create_token token_row
  anonymous_tx e account nickname session ttl db =
      if e.down 0
      then none
      else (elim (insert_account
          (record {
            id = account;
            email = account ++ codes "@playground.local";
            display_name = nickname;
            is_anonymous = true;
            created_at = e.now 0;
          })
          db) [
            | none ↦ none
            | some db1 ↦ (elim (e.raws 1) [
              | none ↦ none
              | some raw ↦
                  (elim (create_token (e.down 1)
                    (token_row (codes "tok_" ++ e.ids 0) account (hash raw) anonymous_session_bearer
                      (some session) (e.now 0) (e.now 0 + ttl))
                    db1) [ none ↦ none | some db2 ↦ if e.down 2 then none else some (raw, db2) ])
            ])
          ])

  -- IssueAnonymousSessionBearer: the raw token, the account and the expiry.
  unfoldable pub issue_anonymous :
      Env
      → (session : ℕ) → (nickname : Bytes) → (ttl : ℕ) → TokenDb
      → Result (Bytes × Bytes × ℕ) × TokenDb
  unfolding anonymous_tx
  issue_anonymous e session nickname ttl db =
      if same nickname [] || session == 0 then (err bad_argument, db) else (elim (e.raws 0) [
        | none ↦ (err no_randomness, db)
        | some suffix ↦
            (let account = codes "anon_" ++ suffix in
              elim (anonymous_tx e account nickname session ttl db) [
                | none ↦ (err driver_failure, db)
                | some (raw, db') ↦ (ok (raw, account, e.now 0 + ttl), db')
              ])
      ])

  -- IssueAnonymousSessionBearerForExistingAccount
  unfoldable pub issue_for_existing :
      Env → (account : Bytes) → (session ttl : ℕ) → TokenDb → Result (Bytes × ℕ) × TokenDb
  unfolding get_account create_token token_row
  issue_for_existing e account session ttl db =
      if same account [] || session == 0
      then (err bad_argument, db)
      else if e.down 0
      then (err driver_failure, db)
      else (elim (get_account account db.accounts) [
        | none ↦ (err invalid_token, db)
        | some a ↦ if not a.is_anonymous then (err forbidden, db) else (elim (e.raws 0) [
          | none ↦ (err no_randomness, db)
          | some raw ↦
              (elim (create_token (e.down 1)
                (token_row (codes "tok_" ++ e.ids 0) account (hash raw) anonymous_session_bearer
                  (some session) (e.now 0) (e.now 0 + ttl))
                db) [ none ↦ (err driver_failure, db) | some db' ↦ (ok (raw, e.now 0 + ttl), db') ])
        ])
      ])

  -- Revoke: whether it answered without an error.
  unfoldable pub revoke :
      Env → (caller raw : Bytes) → (all_tokens : Bool) → TokenDb → Result (Unit {0}) × TokenDb
  unfolding get_by_hash revoke_all revoke_token
  revoke e caller raw all_tokens db =
      if e.down 0 then (err driver_failure, db) else (elim (get_by_hash (hash raw) db.tokens) [
        | none ↦ (ok tt, db)
        | some row ↦
            if not (same row.account_id caller)
            then (err forbidden, db)
            else if e.down 1
            then (err driver_failure, db)
            else (
              ok tt,
              if all_tokens
                  then revoke_all row.account_id (e.now 0) db
                  else revoke_token row.id (e.now 0) db,
            )
      ])

  -- RevokeAnonymousBearer
  unfoldable pub revoke_anonymous_bearer :
      Env → (raw : Bytes) → TokenDb → Result (Unit {0}) × TokenDb
  unfolding get_by_hash revoke_token delete_account
  revoke_anonymous_bearer e raw db =
      if e.down 0 then (err driver_failure, db) else (elim (get_by_hash (hash raw) db.tokens) [
        | none ↦ (ok tt, db)
        | some row ↦
            if e.down 1
            then (err driver_failure, db)
            else (let db1 = revoke_token row.id (e.now 0) db in
                if e.down 2
                then (err driver_failure, db1)
                else (ok tt, delete_account row.account_id db1))
      ])
