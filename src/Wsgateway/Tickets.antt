-- ===== src/Wsgateway/Tickets.antt =====
-- tickets.go. The entries are a map from tickets to accounts, the clock is an argument, in seconds, and the
-- random ticket is an argument of Issue. A call is atomic, as those of sync.Map are.
use jamsesh.Prelude.{◌+◌, [], if◌then◌else◌, List, ltb, none, Option, some, ℕ, ◌∷◌}
use jamsesh.Go.Maps.{delete, get, Map, put}
use jamsesh.Go.Strings.{Bytes}

pub record Ticket : Type 0 where
  pub account : ℕ
  pub expires_at : ℕ

abbrev pub ticket_ttl : ℕ
ticket_ttl = 60

unfoldable pub issue : (tok : Bytes) (account now : ℕ) → Map Ticket → Map Ticket
unfolding put
issue tok account now m = put m tok (record { account = account; expires_at = now + ticket_ttl })

unfoldable pub consume : (tok : Bytes) (now : ℕ) → Map Ticket → Option ℕ × Map Ticket
unfolding get delete
consume tok now m = elim (get m tok) [
  | none ↦ (none, m)
  | some t ↦ (if ltb t.expires_at now then none else some t.account, delete m tok)
]

-- A sweep of the janitor.
unfoldable pub sweep : (now : ℕ) → Map Ticket → Map Ticket
sweep now [] = []
sweep now ((tok, t) ∷ m) =
    let rest = sweep now m in if ltb t.expires_at now then rest else (tok, t) ∷ rest

-- The calls of the store, each with its time.
pub data Call : Type 0 where
  issues : Bytes → (account now : ℕ) → Call
  consumes : Bytes → (now : ℕ) → Call
  sweeps : (now : ℕ) → Call

unfoldable pub step : Call → Map Ticket → Map Ticket
unfolding issue consume sweep
step (issues tok a now) m = issue tok a now m
step (consumes tok now) m = (consume tok now m).1
step (sweeps now) m = sweep now m

unfoldable pub run : List Call → Map Ticket → Map Ticket
unfolding step
run [] m = m
run (c ∷ cs) m = run cs (step c m)
