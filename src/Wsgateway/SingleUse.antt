-- ===== src/Wsgateway/SingleUse.antt =====
-- A ticket is good for one upgrade, and for its lifetime (tickets.go).
use jamsesh.Prelude.{
  ◌+◌, [], arith, Bool, false, inl, inr, List, none, Option-cases, refl, ◌||◌, ℕ, ◌∷◌, ◌≡◌,
}
use jamsesh.Go.Maps.{get, get-delete, get-put, Map}
use jamsesh.Go.Strings.{Bytes, same, same_refl}
use jamsesh.Wsgateway.Tickets.{
  Call, consume, consumes, issue, issues, run, step, sweep, sweeps, Ticket, ticket_ttl,
}

-- No call issues the ticket.
unfoldable pub reissued : Bytes → List Call → Bool
reissued tok [] = false
reissued tok (issues t a now ∷ cs) = same t tok || reissued tok cs
reissued tok (consumes t now ∷ cs) = reissued tok cs
reissued tok (sweeps now ∷ cs) = reissued tok cs

sweep_absent :
    (now : ℕ) (m : Map Ticket) (tok : Bytes) → get m tok ≡ none → get (sweep now m) tok ≡ none
unfolding sweep get
sweep_absent now [] tok h = refl
sweep_absent now ((k, t) ∷ m) tok h = ground (arith, h, sweep_absent now m tok)

consume_absent :
    (t : Bytes) (now : ℕ) (m : Map Ticket) (tok : Bytes)
    → get m tok ≡ none
    → get (consume t now m).1 tok ≡ none
unfolding consume
consume_absent t now m tok h = elim (Option-cases (get m t)) [
  | inl x ↦ rw (consume, x) h
  | inr (v, x) ↦ rw (consume, x) (rw (get-delete m t tok) (ground (arith, h)))
]

run_absent :
    (cs : List Call) (m : Map Ticket) (tok : Bytes)
    → get m tok ≡ none
    → reissued tok cs ≡ false
    → get (run cs m) tok ≡ none
unfolding run step reissued issue
run_absent [] m tok h n = h
run_absent (issues t a now ∷ cs) m tok h n =
    run_absent cs (issue t a now m) tok
      (rw (get-put m t (record { account = a; expires_at = now + ticket_ttl }) tok)
        (ground (arith, h, n)))
      (ground (arith, n))
run_absent (consumes t now ∷ cs) m tok h n =
    run_absent cs (consume t now m).1 tok (consume_absent t now m tok h) n
run_absent (sweeps now ∷ cs) m tok h n =
    run_absent cs (sweep now m) tok (sweep_absent now m tok h) n

consumed_gone : (tok : Bytes) (now : ℕ) (m : Map Ticket) → get (consume tok now m).1 tok ≡ none
unfolding consume
consumed_gone tok now m = elim (Option-cases (get m tok)) [
  | inl x ↦ rw (consume, x) x
  | inr (v, x) ↦ rw (consume, x) (rw (get-delete m tok tok, same_refl tok) refl)
]

-- Once a ticket has been consumed, with success or not, no later call of Consume accepts it, whatever
-- other calls run in between, unless the same ticket is issued again.
pub consume_once :
    (tok : Bytes) (now later : ℕ) (m : Map Ticket) (cs : List Call)
    → reissued tok cs ≡ false
    → (consume tok later (run cs (consume tok now m).1)).0 ≡ none
unfolding consume
consume_once tok now later m cs n =
    let h = run_absent cs (consume tok now m).1 tok (consumed_gone tok now m) n in
    rw (consume, h) refl
