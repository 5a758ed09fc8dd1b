-- ===== src/Tokens/Spent.antt =====
-- A token that has been refreshed or revoked (service_impl.go) is of no use again.
use jamsesh.Prelude.{
  ◌&&◌, [], All, arith, Bool, Bool-cases, inl, inr, List, not, Option-cases, refl, some, subst, sym,
  true, ◌∙◌, ◌∷◌, ◌≡◌, ◌≢◌,
}
use jamsesh.Go.Strings.{Bytes, is_some, same, same_refl}
use jamsesh.Tokens.Changes.{run-Edits}
use jamsesh.Tokens.Rotation.{result_cases, validate-Edits}
use jamsesh.Tokens.Edits.{absent-dead, dead, distinct, Edits-dead, Edits-distinct, revoke-dead}
use jamsesh.Tokens.Minting.{issue-Edits}
use jamsesh.Tokens.Runs.{Avoids, Call, CallAvoids, run_calls}
use jamsesh.Tokens.Service.{
  Env, later_env, ok, Pair, refresh, revoke, rotate, validate_row, validate_token,
}
use jamsesh.Tokens.Tables.{
  Account, get_by_hash, is_refresh, revoke_all, revoke_token, TokenDb, TokenRow,
}

-- The row of a dead hash is revoked.
dead-row :
    (h : Bytes) (rs : List TokenRow) (row : TokenRow)
    → dead h rs ≡ true
    → get_by_hash h rs ≡ some row
    → is_some row.revoked_at ≡ true
unfolding dead get_by_hash
dead-row h [] row d g = cc
dead-row h (r ∷ rs) row d g = elim (Bool-cases (same r.token_hash h)) [
  | inl x ↦
      (let e : r ≡ row = ground (arith, g, x) in
        subst (λ (u : TokenRow). is_some u.revoked_at ≡ true) e (ground (arith, d, x)))
  | inr x ↦ dead-row h rs row (ground (arith, d)) (ground (arith, g, x))
]

module _ (hash : Bytes → Bytes) where
  validate_dead :
      (e : Env) (raw : Bytes) (db : TokenDb) (a : Account)
      → dead (hash raw) db.tokens ≡ true
      → (validate_token hash e raw db).0 ≢ ok a
  unfolding validate_token validate_row
  validate_dead e raw db a d p = elim (Option-cases (get_by_hash (hash raw) db.tokens)) [
    | inl x ↦ absurd (ground (arith, p, x))
    | inr (row, x) ↦
        (let k = dead-row (hash raw) db.tokens row d x in absurd (ground (arith, p, x, k)))
  ]

  refresh_dead :
      (e : Env) (raw : Bytes) (db : TokenDb) (q : Pair)
      → dead (hash raw) db.tokens ≡ true
      → (refresh hash e raw db).0 ≢ ok q
  unfolding refresh
  refresh_dead e raw db q d p = elim (result_cases (validate_token hash e raw db).0) [
    | inl (a, x) ↦ validate_dead e raw db a d x
    | inr (x, y) ↦ absurd (ground (arith, p, y))
  ]

  rotate_kills :
      (e : Env) (a : Account) (row : TokenRow) (h : Bytes) (db : TokenDb) (q : Pair)
      → Avoids hash h e
      → distinct db.tokens ≡ true
      → get_by_hash h db.tokens ≡ some row
      → (rotate hash e a row db).0 ≡ ok q
      → dead h (rotate hash e a row db).1.tokens ≡ true
  unfolding rotate later_env revoke_token
  rotate_kills e a row h db q v d g p = elim (Bool-cases (is_refresh row.kind)) [
    | inr x ↦ absurd (ground (arith, p, x))
    | inl x ↦ (elim (Bool-cases (e.down 4)) [
      | inl y ↦ absurd (ground (arith, p, x, y))
      | inr y ↦
          rw (rotate, x, y)
            (Edits-dead
              (issue-Edits hash h (later_env 2 5 e) a.id (revoke_token row.id (e.now 1) db) v)
              (revoke-dead h (λ r. same r.id row.id) (e.now 1) row db.tokens d g
                (rw (same_refl row.id) refl)))
    ])
  ]

  refresh_kills :
      (e : Env) (raw : Bytes) (db : TokenDb) (q : Pair)
      → Avoids hash (hash raw) e
      → distinct db.tokens ≡ true
      → (refresh hash e raw db).0 ≡ ok q
      → dead (hash raw) (refresh hash e raw db).1.tokens ≡ true
  unfolding refresh
  refresh_kills e raw db q v d p =
      let w = validate_token hash e raw db in
      elim (result_cases w.0) [
        | inr (x, y) ↦ absurd (ground (arith, p, y))
        | inl (a, y) ↦ (elim (Bool-cases (e.down 3)) [
          | inl z ↦ absurd (ground (arith, p, y, z))
          | inr z ↦ (elim (Option-cases (get_by_hash (hash raw) w.1.tokens)) [
            | inl u ↦ absurd (ground (arith, p, y, z, u))
            | inr (row, u) ↦
                (let p' : (rotate hash e a row w.1).0 ≡ ok q =
                    sym (rw (refresh, y, z, u) refl) ∙ p in
                  rw (refresh, y, z, u)
                    (rotate_kills e a row (hash raw) w.1 q v
                      (Edits-distinct (validate-Edits hash (hash raw) e raw db) d) u p'))
          ])
        ])
      ]

  revoke_kills :
      (e : Env) (caller raw : Bytes) (b : Bool) (db : TokenDb)
      → distinct db.tokens ≡ true
      → (revoke hash e caller raw b db).0 ≡ ok tt
      → dead (hash raw) (revoke hash e caller raw b db).1.tokens ≡ true
  unfolding revoke revoke_all revoke_token
  revoke_kills e caller raw b db d p = elim (Bool-cases (e.down 0)) [
    | inl x ↦ absurd (ground (arith, p, x))
    | inr x ↦ (elim (Option-cases (get_by_hash (hash raw) db.tokens)) [
      | inl y ↦ rw (revoke, x, y) (absent-dead (hash raw) db.tokens y)
      | inr (row, y) ↦ (elim (Bool-cases (same row.account_id caller)) [
        | inr z ↦ absurd (ground (arith, p, x, y, z))
        | inl z ↦ (elim (Bool-cases (e.down 1)) [
          | inl u ↦ absurd (ground (arith, p, x, y, z, u))
          | inr u ↦ (elim (Bool-cases b) [
            | inl w ↦
                rw (revoke, x, y, z, u, w)
                  (revoke-dead (hash raw)
                    (λ r. same r.account_id row.account_id && not (is_some r.revoked_at)) (e.now 0)
                    row db.tokens d y (rw (same_refl row.account_id) (ground arith)))
            | inr w ↦
                rw (revoke, x, y, z, u, w)
                  (revoke-dead (hash raw) (λ r. same r.id row.id) (e.now 0) row db.tokens d y
                    (rw (same_refl row.id) refl))
          ])
        ])
      ])
    ])
  ]

  -- No call with the raw token succeeds any more.
  abbrev pub Useless : Bytes → TokenDb → Type 0
  Useless raw db =
      ((e : Env) (a : Account) → (validate_token hash e raw db).0 ≢ ok a)
      × ((e : Env) (q : Pair) → (refresh hash e raw db).0 ≢ ok q)

  dead-Useless : (raw : Bytes) (db : TokenDb) → dead (hash raw) db.tokens ≡ true → Useless raw db
  dead-Useless raw db d = (λ e a. validate_dead e raw db a d, λ e q. refresh_dead e raw db q d)

-- A refresh token is good for one Refresh: once a call has answered with a pair, no later Validate or
-- Refresh accepts the token, whatever other calls come in between, fail half-way or delete rows, as long
-- as no call draws a random token with the same hash. The calls run one behind the other, on a table
-- whose hashes are unique.
pub refresh_single_use :
    (hash : Bytes → Bytes) (e : Env) (raw : Bytes) (db : TokenDb) (q : Pair) (cs : List Call)
    → distinct db.tokens ≡ true
    → Avoids hash (hash raw) e
    → (refresh hash e raw db).0 ≡ ok q
    → All (CallAvoids hash (hash raw)) cs
    → Useless hash raw (run_calls hash cs (refresh hash e raw db).1)
refresh_single_use hash e raw db q cs d v p w =
    dead-Useless hash raw (run_calls hash cs (refresh hash e raw db).1) (
      Edits-dead (run-Edits hash (hash raw) cs (refresh hash e raw db).1 w)
        (refresh_kills hash e raw db q v d p))

-- A Revoke that answers without an error, of one token or of all of the account, puts an end to the token:
-- no later Validate or Refresh accepts it, whatever other calls come in between, as long as no call draws a
-- random token with the same hash. The table's hashes are unique.
pub revoke_final :
    (hash : Bytes → Bytes) (e : Env) (caller raw : Bytes) (all_tokens : Bool) (db : TokenDb)
    (cs : List Call)
    → distinct db.tokens ≡ true
    → (revoke hash e caller raw all_tokens db).0 ≡ ok tt
    → All (CallAvoids hash (hash raw)) cs
    → Useless hash raw (run_calls hash cs (revoke hash e caller raw all_tokens db).1)
revoke_final hash e caller raw all_tokens db cs d p w =
    dead-Useless hash raw (run_calls hash cs (revoke hash e caller raw all_tokens db).1) (
      Edits-dead (run-Edits hash (hash raw) cs (revoke hash e caller raw all_tokens db).1 w)
        (revoke_kills hash e caller raw all_tokens db d p))
