-- ===== src/Applier/Emit.antt =====
-- emitWithRetry (outcomes.go) on the log (events/log.go), with WrapDBIfTransient (deperr/deperr.go).
use jamsesh.Prelude.{Bool, false, none, some, suc, true, ℕ}
use jamsesh.Events.Log.{DraftEvent, emit, Log}
use Prim.Native.Nat.{zero}

-- A call of Emit: the identifiers, the store's failures and the time of its transaction, and whether its
-- error, if there is one, is ErrNotFound or ErrUniqueViolation.
pub record EmitCall : Type 0 where
  pub ulid : ℕ → ℕ
  pub down : ℕ → Bool
  pub now : ℕ
  pub business : Bool

abbrev pub emit_max_retries : ℕ
emit_max_retries = 3

module _ (tries : ℕ → EmitCall) (org session : ℕ) where
  -- The loop, with `left` attempts from the number `attempt`: whether one succeeded, and the log.
  unfoldable pub emit_loop : (left attempt : ℕ) → DraftEvent → Log → Bool × Log
  unfolding emit
  emit_loop zero attempt d l = (false, l)
  emit_loop (suc left) attempt d l =
      let a = tries attempt in
      let r = emit a.ulid a.down a.now org session d l in
      elim r.0 [
        | some seq ↦ (true, r.1)
        | none ↦ (elim a.business [
          | true ↦ (false, r.1)
          | false ↦ emit_loop left (suc attempt) d r.1
        ])
      ]

  unfoldable pub emit_with_retry : DraftEvent → Log → Bool × Log
  unfolding emit_loop
  emit_with_retry d l = emit_loop emit_max_retries 0 d l
