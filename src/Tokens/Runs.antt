-- ===== src/Tokens/Runs.antt =====
-- Calls of the token service (service_impl.go), one behind the other.
use jamsesh.Prelude.{[], Bool, false, List, none, Option, some, ℕ, ◌∷◌, ◌≡◌}
use jamsesh.Go.Strings.{Bytes, same}
use jamsesh.Tokens.Service.{
  Env, issue_anonymous, issue_for_existing, issue_pair, issue_short_lived, refresh, revoke,
  revoke_anonymous_bearer, validate_token,
}
use jamsesh.Tokens.Tables.{revoke_for_session, TokenDb}

-- A call of the service with its environment, or the end of a session (RevokeBearersForSession).
pub data Call : Type 0 where
  issues : Env → (account : Bytes) → Call
  issues_short : Env → (account : Bytes) → (ttl : ℕ) → Call
  validates : Env → (raw : Bytes) → Call
  refreshes : Env → (raw : Bytes) → Call
  issues_anonymous : Env → (session : ℕ) → (nickname : Bytes) → (ttl : ℕ) → Call
  issues_existing : Env → (account : Bytes) → (session ttl : ℕ) → Call
  revokes : Env → (caller raw : Bytes) → Bool → Call
  revokes_anonymous : Env → (raw : Bytes) → Call
  ends_session : (session now : ℕ) → Call

abbrev pub env_of : Call → Option Env
env_of (issues e a) = some e
env_of (issues_short e a ttl) = some e
env_of (validates e raw) = some e
env_of (refreshes e raw) = some e
env_of (issues_anonymous e s n ttl) = some e
env_of (issues_existing e a s ttl) = some e
env_of (revokes e c raw b) = some e
env_of (revokes_anonymous e raw) = some e
env_of (ends_session s now) = none

module _ (hash : Bytes → Bytes) where
  unfoldable pub serve : Call → TokenDb → TokenDb
  unfolding issue_pair issue_short_lived validate_token refresh issue_anonymous issue_for_existing
      revoke revoke_anonymous_bearer revoke_for_session
  serve (issues e a) db = (issue_pair hash e a db).1
  serve (issues_short e a ttl) db = (issue_short_lived hash e a ttl db).1
  serve (validates e raw) db = (validate_token hash e raw db).1
  serve (refreshes e raw) db = (refresh hash e raw db).1
  serve (issues_anonymous e s n ttl) db = (issue_anonymous hash e s n ttl db).1
  serve (issues_existing e a s ttl) db = (issue_for_existing hash e a s ttl db).1
  serve (revokes e c raw b) db = (revoke hash e c raw b db).1
  serve (revokes_anonymous e raw) db = (revoke_anonymous_bearer hash e raw db).1
  serve (ends_session s now) db = revoke_for_session s now db

  unfoldable pub run_calls : List Call → TokenDb → TokenDb
  unfolding serve
  run_calls [] db = db
  run_calls (c ∷ cs) db = run_calls cs (serve c db)

  -- No random token of the call has the hash.
  abbrev pub Avoids : Bytes → Env → Type 0
  Avoids h e = (k : ℕ) (raw : Bytes) → e.raws k ≡ some raw → same (hash raw) h ≡ false

  abbrev pub CallAvoids : Bytes → Call → Type 0
  CallAvoids h c = (e : Env) → env_of c ≡ some e → Avoids h e
