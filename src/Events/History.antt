-- ===== src/Events/History.antt =====
-- The event log (log.go) after any calls.
use jamsesh.Prelude.{
  [], arith, Bool, Bool-cases, inl, inr, length, List, list_cases, none, Option, Option-cases, refl,
  some, subst, suc, sym, ℕ, ◌∙◌, ◌+◌, ◌∷◌, ◌≡◌, ◌≢◌,
}
use jamsesh.Events.Gapless.{count_from, Gapless, issued, seqs}
use jamsesh.Events.Log.{
  Db, DraftEvent, emit_batch, insert_and_publish, insert_tx, Log, Presence, presence_draft,
  presence_tx, publish, Subscriber, update_presence, upsert_presence,
}
use jamsesh.Events.Transaction.{insert_tx-Inserted, Inserted}
use jamsesh.Go.Strings.{Bytes}

-- A call of EmitBatch, with the store's failures and the identifiers of its transaction.
pub record Call : Type 0 where
  pub ulid : ℕ → ℕ
  pub down : ℕ → Bool
  pub now : ℕ
  pub org : ℕ
  pub session : ℕ
  pub drafts : List DraftEvent

unfoldable pub call : Call → Log → Option ℕ × Log
unfolding emit_batch
call c l = emit_batch c.ulid c.down c.now c.org c.session c.drafts l

-- A request to the log: a call of EmitBatch, or of UpdatePresence with an account, a ref and a commit, for
-- which the drafts of the call stand for nothing.
pub data Request : Type 0 where
  batches : Call → Request
  presences : Call → (marshal : Presence → ℕ) → (account : ℕ) → (ref sha : Bytes) → Request

unfoldable pub serve : Request → Log → Log
unfolding call update_presence
serve (batches c) l = (call c l).1
serve (presences c marshal account ref sha) l =
    (update_presence c.ulid c.down c.now c.org c.session marshal account ref sha l).1

unfoldable pub run : List Request → Log → Log
unfolding serve
run [] l = l
run (q ∷ qs) l = run qs (serve q l)

unfoldable pub fresh_log : List Subscriber → Log
fresh_log subs = record {
  db = record { next = λ s. none; events = []; presence = [] };
  subs = subs;
}

-- The answers of a call that emits something. `unanswered` is a commit that was done and answers an error.
pub data Answer (c : Call) (l : Log) : Option ℕ → Log → Type 0 where
  refused : Answer c l none l
  unanswered :
      (first : ℕ) (db : Db)
      → Inserted c.ulid c.down c.now c.org c.session (length c.drafts) l.db first db
      → Answer c l none (record l { db = db })
  accepted :
      (first : ℕ) (l' : Log)
      → Inserted c.ulid c.down c.now c.org c.session (length c.drafts) l.db first l'.db
      → Answer c l (some first) l'

insert_and_publish-Answer :
    (c : Call) (l : Log)
    → Gapless l.db
    → let r = insert_and_publish c.ulid c.down c.now c.org c.session c.drafts l in
      Answer c l r.0 r.1
unfolding insert_and_publish
insert_and_publish-Answer c l g =
    elim (Option-cases (insert_tx c.ulid c.down c.now c.org c.session c.drafts l.db)) [
      | inl x ↦ simp (insert_and_publish, x) refused
      | inr ((first, db), x) ↦
          (let v =
              insert_tx-Inserted c.ulid c.down c.now c.org c.session c.drafts l.db first db g x in
            let new : Log = record {
              db = db;
              subs = publish c.ulid c.down c.now c.org c.session first 0 c.drafts l.subs;
            } in
            elim (Bool-cases (c.down (3 + length c.drafts))) [
              | inl y ↦ simp (insert_and_publish, x, y) (unanswered first db v)
              | inr y ↦ simp (insert_and_publish, x, y) (accepted first new v)
            ])
    ]

module _ (ulid : ℕ → ℕ) (down : ℕ → Bool) (now org session : ℕ) where
  emit_batch_more :
      (ds : List DraftEvent) (l : Log)
      → ds ≢ []
      → emit_batch ulid down now org session ds l
        ≡ insert_and_publish ulid down now org session ds l
  unfolding emit_batch
  emit_batch_more [] l n = absurd (n refl)
  emit_batch_more (d ∷ ds) l n = refl

  emit_batch_none :
      (ds : List DraftEvent) (l : Log)
      → ds ≡ []
      → emit_batch ulid down now org session ds l ≡ (some 0, l)
  unfolding emit_batch
  emit_batch_none [] l h = refl
  emit_batch_none (d ∷ ds) l h = absurd (ground (arith, h))

-- On a log without gaps, a call of EmitBatch with drafts leaves everything as it was, or inserts them: it
-- then raises the counter by the number of drafts, leaves no gap, and answers the number behind the
-- session's last one, unless the answer to its commit is an error.
pub call-Answer :
    (c : Call) (l : Log) → Gapless l.db → c.drafts ≢ [] → Answer c l (call c l).0 (call c l).1
unfolding call
call-Answer c l g n =
    let e = emit_batch_more c.ulid c.down c.now c.org c.session c.drafts l n in
    subst (λ r. Answer c l r.0 r.1) (sym e) (insert_and_publish-Answer c l g)

Answer-Gapless :
    (c : Call) (l : Log) (o : Option ℕ) (l' : Log) → Gapless l.db → Answer c l o l' → Gapless l'.db
Answer-Gapless c l _ _ g refused = g
Answer-Gapless c l _ _ g (unanswered first db v) = v.gapless
Answer-Gapless c l _ _ g (accepted first l' v) = v.gapless

call-Gapless : (c : Call) (l : Log) → Gapless l.db → Gapless (call c l).1.db
unfolding call
call-Gapless c l g = elim (list_cases c.drafts) [
  | inl x ↦
      (let e = emit_batch_none c.ulid c.down c.now c.org c.session c.drafts l x in
        subst (λ r. Gapless r.1.db) (sym e) g)
  | inr ((d, ds), x) ↦
      Answer-Gapless c l (call c l).0 (call c l).1 g (call-Answer c l g (λ y. ground (arith, x, y)))
]

presence_tx-Gapless :
    (c : Call) (marshal : Presence → ℕ) (p : Presence) (db : Db) (first : ℕ) (db' : Db)
    → Gapless db
    → presence_tx c.ulid c.down c.now c.org c.session marshal p db ≡ some (first, db')
    → Gapless db'
unfolding presence_tx upsert_presence Gapless
presence_tx-Gapless c marshal p db first db' g e = elim (Bool-cases (c.down 0)) [
  | inl x ↦ absurd (ground (arith, e, x))
  | inr x ↦
      (insert_tx-Inserted c.ulid (λ k. c.down (suc k)) c.now c.org c.session
        (presence_draft marshal p ∷ []) (upsert_presence p db) first db' g
        (sym (simp (presence_tx, x)) ∙ e)).gapless
]

serve-Gapless : (q : Request) (l : Log) → Gapless l.db → Gapless (serve q l).db
unfolding serve update_presence
serve-Gapless (batches c) l g = call-Gapless c l g
serve-Gapless (presences c marshal account ref sha) l g =
    let p : Presence = record {
      session_id = c.session;
      account_id = account;
      ref = ref;
      org_id = c.org;
      current_sha = sha;
      last_active_at = c.now;
    } in
    elim (Option-cases (presence_tx c.ulid c.down c.now c.org c.session marshal p l.db)) [
      | inl x ↦ simp (serve, update_presence, x) g
      | inr ((first, db), x) ↦
          (let v = presence_tx-Gapless c marshal p l.db first db g x in
            elim (Bool-cases (c.down 5)) [
              | inl y ↦ simp (serve, update_presence, x, y) v
              | inr y ↦ simp (serve, update_presence, x, y) v
            ])
    ]

runs-Gapless : (qs : List Request) (l : Log) → Gapless l.db → Gapless (run qs l).db
unfolding run
runs-Gapless [] l g = g
runs-Gapless (q ∷ qs) l g = runs-Gapless qs (serve q l) (serve-Gapless q l g)

-- After any calls of EmitBatch and UpdatePresence, whichever calls of the store fail and whatever
-- identifiers they get, the events of each session are numbered 1, 2, 3 and so on up to its counter, in the
-- order of their inserts.
pub run-Gapless :
    (subs : List Subscriber) (qs : List Request) → Gapless (run qs (fresh_log subs)).db
unfolding fresh_log Gapless seqs count_from issued
run-Gapless subs qs = runs-Gapless qs (fresh_log subs) (λ s. refl)
