-- ===== src/Tokens/Tables.antt =====
-- The tables accounts and oauth_tokens (db/schema/sqlite.sql), and the queries on them that the token service
-- uses. Identifiers of accounts are texts; those of sessions are numbers, and 0 is the empty one.
use jamsesh.Prelude.{
  ◌&&◌, ◌++◌, ◌==◌, [], any, Bool, false, if◌then◌else◌, List, none, not, Option, some, true, ◌||◌,
  ℕ, ◌∷◌,
}
use jamsesh.Go.Strings.{Bytes, is_some, same}

pub record Account : Type 0 where
  pub id : Bytes
  pub email : Bytes
  pub display_name : Bytes
  pub is_anonymous : Bool
  pub created_at : ℕ

pub data Kind : Type 0 where
  access refresh_kind anonymous_session_bearer : Kind

abbrev pub is_refresh : Kind → Bool
is_refresh refresh_kind = true
is_refresh access = false
is_refresh anonymous_session_bearer = false

pub record TokenRow : Type 0 where
  pub id : Bytes
  pub account_id : Bytes
  pub token_hash : Bytes
  pub kind : Kind
  pub session_id : Option ℕ
  pub issued_at : ℕ
  pub expires_at : ℕ
  pub last_used_at : Option ℕ
  pub revoked_at : Option ℕ

pub record TokenDb : Type 0 where
  pub accounts : List Account
  pub tokens : List TokenRow
  pub sessions : List ℕ

-- GetAccountByID
unfoldable pub get_account : Bytes → List Account → Option Account
unfolding same
get_account id [] = none
get_account id (a ∷ accs) = if same a.id id then some a else get_account id accs

-- GetOAuthTokenByHash
unfoldable pub get_by_hash : Bytes → List TokenRow → Option TokenRow
unfolding same
get_by_hash h [] = none
get_by_hash h (r ∷ rs) = if same r.token_hash h then some r else get_by_hash h rs

-- The reference of a row to a session, if it has one.
unfoldable pub session_known : Option ℕ → List ℕ → Bool
session_known none ss = true
session_known (some s) ss = any (λ t. t == s) ss

-- CreateOAuthToken and CreateAnonymousBearer: the primary key, the unique hash and the references.
unfoldable pub insert_token : TokenRow → TokenDb → Option TokenDb
unfolding get_by_hash get_account session_known
insert_token r db =
    if any (λ (q : TokenRow). same q.id r.id) db.tokens
      || is_some (get_by_hash r.token_hash db.tokens)
      || not (is_some (get_account r.account_id db.accounts))
      || not (session_known r.session_id db.sessions)
    then none
    else some (record db { tokens = db.tokens ++ r ∷ [] })

-- CreateAnonymousAccount: the primary key and the unique address.
unfoldable pub insert_account : Account → TokenDb → Option TokenDb
unfolding same
insert_account a db =
    if any (λ (b : Account). same b.id a.id || same b.email a.email) db.accounts
    then none
    else some (record db { accounts = db.accounts ++ a ∷ [] })

-- `UPDATE oauth_tokens SET … WHERE …`
unfoldable pub update_tokens :
    (TokenRow → Bool) → (TokenRow → TokenRow) → List TokenRow → List TokenRow
update_tokens p f [] = []
update_tokens p f (r ∷ rs) = (if p r then f r else r) ∷ update_tokens p f rs

abbrev pub revoked : ℕ → TokenRow → TokenRow
revoked now r = record r { revoked_at = some now }

-- RevokeOAuthToken: `WHERE id = ?`, revoked before or not.
unfoldable pub revoke_token : (id : Bytes) → (now : ℕ) → TokenDb → TokenDb
unfolding update_tokens same
revoke_token id now db = record db {
  tokens = update_tokens (λ r. same r.id id) (revoked now) db.tokens;
}

-- RevokeAllOAuthTokensForAccount
unfoldable pub revoke_all : (account : Bytes) → (now : ℕ) → TokenDb → TokenDb
unfolding update_tokens same
revoke_all account now db = record db {
  tokens =
      update_tokens (λ r. same r.account_id account && not (is_some r.revoked_at)) (revoked now)
        db.tokens;
}

-- RevokeBearersForSession
unfoldable pub revoke_for_session : (session now : ℕ) → TokenDb → TokenDb
unfolding update_tokens
revoke_for_session session now db = record db {
  tokens =
      update_tokens
        (λ r.
          (elim r.session_id [ none ↦ false | some s ↦ s == session ])
          && not (is_some r.revoked_at))
        (revoked now) db.tokens;
}

-- TouchOAuthTokenLastUsed
unfoldable pub touch_token : (id : Bytes) → (now : ℕ) → TokenDb → TokenDb
unfolding update_tokens same
touch_token id now db = record db {
  tokens = update_tokens (λ r. same r.id id) (λ r. record r { last_used_at = some now }) db.tokens;
}

unfoldable pub keep_tokens : (TokenRow → Bool) → List TokenRow → List TokenRow
keep_tokens p [] = []
keep_tokens p (r ∷ rs) = let rest = keep_tokens p rs in if p r then r ∷ rest else rest

unfoldable pub drop_account : Bytes → List Account → List Account
unfolding same
drop_account id [] = []
drop_account id (a ∷ accs) =
    let rest = drop_account id accs in if same a.id id then rest else a ∷ rest

-- DeleteAccountsByIDs on one account; its tokens go with it (ON DELETE CASCADE).
unfoldable pub delete_account : Bytes → TokenDb → TokenDb
unfolding drop_account keep_tokens same
delete_account id db = record db {
  accounts = drop_account id db.accounts;
  tokens = keep_tokens (λ r. not (same r.account_id id)) db.tokens;
}
