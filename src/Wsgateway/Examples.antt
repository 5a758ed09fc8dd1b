-- ===== src/Wsgateway/Examples.antt =====
-- Tests and witnesses of the tickets.
use jamsesh.Prelude.{[], List, none, refl, some, ◌∷◌, ◌≡◌}
use jamsesh.Go.Maps.{Map}
use jamsesh.Go.Strings.{codes, same}
use jamsesh.Wsgateway.SingleUse.{consume_once, reissued}
use jamsesh.Wsgateway.Tickets.{Call, consume, consumes, issues, run, sweeps, Ticket}

abbrev one_ticket : Map Ticket
one_ticket = (codes "t", record { account = 9; expires_at = 100 }) ∷ []

accepted_once : (consume (codes "t") 100 one_ticket).0 ≡ some 9
unfolding consume same
accepted_once = refl

abbrev between : List Call
between = issues (codes "u") 8 50 ∷ consumes (codes "u") 51 ∷ sweeps 52 ∷ []

consume_once_example :
    (consume (codes "t") 60 (run between (consume (codes "t") 50 one_ticket).1)).0 ≡ none
unfolding reissued same
consume_once_example = consume_once (codes "t") 50 60 one_ticket between refl
