-- ===== src/Tokens/Examples.antt =====
-- Tests and witnesses of the tokens: account "a" with a refresh token "r", account "b" with an access token.
use jamsesh.Prelude.{
  ◌++◌, ◌==◌, [], any, ap, arith, false, none, Option, refl, some, subst, true, ℕ, ◌↔◌, ◌∷◌, ◌≡◌,
}
use jamsesh.Go.Strings.{Bytes, codes, same}
use jamsesh.Tokens.Edits.{distinct}
use jamsesh.Tokens.Ownership.{keyed, revoke_others}
use jamsesh.Tokens.Runs.{Avoids, CallAvoids, run_calls, validates}
use jamsesh.Tokens.Service.{
  driver_failure, Env, err, issue_anonymous, ok, Pair, refresh, revoke, rotate, validate_token,
}
use jamsesh.Tokens.Spent.{refresh_single_use, Useless}
use jamsesh.Tokens.Tables.{access, Account, get_by_hash, Kind, refresh_kind, TokenDb, TokenRow}
use jamsesh.Tokens.Validity.{Good, validate_token_iff}

abbrev hash : Bytes → Bytes
hash s = s

abbrev person : Bytes → Account
person id = record { id = id; email = id; display_name = id; is_anonymous = false; created_at = 0 }

abbrev row_of : (id account token : Bytes) → Kind → TokenRow
row_of id account token kind = record {
  id = id;
  account_id = account;
  token_hash = token;
  kind = kind;
  session_id = none;
  issued_at = 0;
  expires_at = 100;
  last_used_at = none;
  revoked_at = none;
}

abbrev db0 : TokenDb
db0 = record {
  accounts = person (codes "a") ∷ person (codes "b") ∷ [];
  tokens =
      row_of (codes "1") (codes "a") (codes "r") refresh_kind
      ∷ row_of (codes "2") (codes "b") (codes "s") access
      ∷ [];
  sessions = 7 ∷ [];
}

abbrev env : ℕ → Env
env n = record {
  now = λ k. 50;
  down = λ k. false;
  raws = λ k. some (n ∷ k ∷ []);
  ids = λ k. n ∷ k ∷ [];
}

abbrev pair_of : ℕ → Pair
pair_of n = record {
  access_token = n ∷ 0 ∷ [];
  refresh_token = n ∷ 1 ∷ [];
  access_expires_at = 3650;
  refresh_expires_at = 2592050;
}

env-Avoids : Avoids hash (codes "r") (env 3)
unfolding same
env-Avoids k raw p = ground (arith, p)

env_value : Env → Option Env → Env
env_value e none = e
env_value e (some f) = f

some_env : (e f : Env) → some e ≡ some f → e ≡ f
unfolding env_value
some_env e f p = ap (env_value e) p

later-CallAvoids : CallAvoids hash (codes "r") (validates (env 3) (codes "s"))
later-CallAvoids e p = subst (λ u. Avoids hash (codes "r") u) (some_env (env 3) e p) env-Avoids

refresh_single_use_example :
    Useless hash
      (codes "r")
      (run_calls hash (validates (env 3) (codes "s") ∷ []) (refresh hash (env 3) (codes "r") db0).1)
unfolding distinct refresh any
refresh_single_use_example =
    refresh_single_use hash (env 3) (codes "r") db0 (pair_of 3) (validates (env 3) (codes "s") ∷ [])
      refl env-Avoids refl (later-CallAvoids, tt)

revoke_others_example :
    get_by_hash (codes "s") (revoke hash (env 3) (codes "a") (codes "r") true db0).1.tokens
    ≡ some (row_of (codes "2") (codes "b") (codes "s") access)
unfolding keyed same get_by_hash
revoke_others_example =
    revoke_others hash (env 3) (codes "a") (codes "r") true db0 (codes "s")
      (row_of (codes "2") (codes "b") (codes "s") access) refl refl
      (λ e. absurd (ground (arith, e)))

validate_token_iff_example :
    ((validate_token hash (env 3) (codes "r") db0).0 ≡ ok (person (codes "a")))
    ↔ Good hash (codes "r") 50 db0 (person (codes "a"))
validate_token_iff_example =
    validate_token_iff hash (env 3) (codes "r") db0 (person (codes "a")) (λ e. cc) refl refl

-- Two calls of Refresh that have both read the row before either revokes it: each answers with a pair.
both_refreshed :
    (rotate hash
      (env 4)
      (person (codes "a"))
      (row_of (codes "1") (codes "a") (codes "r") refresh_kind)
      (rotate hash
        (env 3)
        (person (codes "a"))
        (row_of (codes "1") (codes "a") (codes "r") refresh_kind)
        db0).1).0
    ≡ ok (pair_of 4)
unfolding rotate any
both_refreshed = refl

-- A refresh token passes Validate.
refresh_as_access : (validate_token hash (env 3) (codes "r") db0).0 ≡ ok (person (codes "a"))
unfolding validate_token
refresh_as_access = refl

-- The second insert of Refresh's Issue fails: the old token is revoked, and no pair is answered.
abbrev broken : Env
broken = record (env 3) { down = λ k. k == 6 }

refresh_lost : (refresh hash broken (codes "r") db0).0 ≡ err driver_failure
unfolding refresh any
refresh_lost = refl

abbrev anonymous_account : Bytes
anonymous_account = codes "anon_" ++ 3 ∷ 0 ∷ []

anonymous_issued :
    (issue_anonymous hash (env 3) 7 (codes "Kit") 60 db0).0
    ≡ ok (3 ∷ 1 ∷ [], anonymous_account, 110)
unfolding issue_anonymous any
anonymous_issued = refl
