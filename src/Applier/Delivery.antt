-- ===== src/Applier/Delivery.antt =====
-- What emitWithRetry (outcomes.go) leaves in the log.
use jamsesh.Prelude.{
  ◌⊎◌, All, length, List, length-append, ◌≤◌, ◌+◌, ◌++◌, ◌-◌, ◌==◌, [], ap, arith, Bool, Bool-cases,
  false, if◌then◌else◌, inl, inr, none, Option, Option-cases, refl, some, subst, suc, sym, true,
  ◌||◌, ℕ, ◌∙◌, ◌∷◌, ◌≡◌,
}
use jamsesh.Applier.Emit.{emit_loop, emit_max_retries, emit_with_retry, EmitCall}
use jamsesh.Events.Gapless.{insert_event_rows}
use jamsesh.Events.Log.{
  allocate_next_seq_n, Db, DraftEvent, emit, ensure_event_seq_row, Event, event_of,
  insert_and_publish, insert_drafts, insert_event, insert_tx, Log, publish,
}
use Prim.Native.Nat.{zero}
use mathlib.Core.List.{append-nil, append_assoc}

-- A row of the events table that holds the draft.
pub record IsCopy (org session : ℕ) (d : DraftEvent) (row : Event) : Type 0 where
  pub row_org : row.org_id ≡ org
  pub row_session : row.session_id ≡ session
  pub row_type : row.event_type ≡ d.event_type
  pub row_payload : row.payload ≡ d.payload

abbrev pub count : Bool → ℕ
count true = 1
count false = 0

-- What some attempts to emit a draft, at most `left` of them, leave in the log: copies of its row and
-- nothing else, at least one where an attempt answers success, and where no attempt is `lossy`, one for a
-- success and none for a failure.
pub record Delivery (lossy : Type 0) (left org session : ℕ) (d : DraftEvent) (l : Log) (b : Bool)
    (l' : Log) : Type 0 where
  pub sent : List Event
  pub rows : l'.db.events ≡ l.db.events ++ sent
  pub copies : All (IsCopy org session d) sent
  pub at_most : length sent ≤ left
  pub at_least : b ≡ true → 1 ≤ length sent
  pub once : ¬ lossy → length sent ≡ count b

value : ℕ × Db → Option (ℕ × Db) → ℕ × Db
value p none = p
value p (some q) = q

pair_of : (p q : ℕ × Db) → some p ≡ some q → p ≡ q
unfolding value
pair_of p q e = ap (value p) e

allocate_rows :
    (n s : ℕ) (db : Db) (p : ℕ × Db) → allocate_next_seq_n n s db ≡ some p → p.1.events ≡ db.events
unfolding allocate_next_seq_n
allocate_rows n s db p e = elim (Option-cases (db.next s)) [
  | inl x ↦ absurd (ground (arith, e, x))
  | inr (old, x) ↦
      (let new : Db = record db { next = λ t. if t == s then some (old + n) else db.next t } in
        let q : some (old + n, new) ≡ some p = sym (rw (allocate_next_seq_n, x) refl) ∙ e in
        ap (λ r. r.1.events) (sym (pair_of (old + n, new) p q)))
]

module _ (ulid : ℕ → ℕ) (down : ℕ → Bool) (now org session : ℕ) where
  insert_one :
      (first : ℕ) (d : DraftEvent) (db db' : Db)
      → insert_drafts ulid down now org session first 0 (d ∷ []) db ≡ some db'
      → db'.events ≡ db.events ++ event_of ulid down now org session first 0 d ∷ []
  unfolding insert_drafts
  insert_one first d db db' e =
      let f = event_of ulid down now org session first 0 d in
      elim (Bool-cases (down 2)) [
        | inl x ↦ absurd (ground (arith, e, x))
        | inr x ↦ (elim (Option-cases (insert_event f db)) [
          | inl y ↦ absurd (ground (arith, e, x, y))
          | inr (mid, y) ↦
              (let q : mid ≡ db' = ground (arith, e, x, y) in
                ap (λ u. u.events) (sym q) ∙ ap (λ u. u.events) (insert_event_rows f db mid y))
        ])
      ]

  -- A transaction of one draft adds its row.
  insert_tx_one :
      (d : DraftEvent) (db : Db) (first : ℕ) (db' : Db)
      → insert_tx ulid down now org session (d ∷ []) db ≡ some (first, db')
      → db'.events ≡ db.events ++ event_of ulid down now org session first 0 d ∷ []
  unfolding insert_tx
  insert_tx_one d db first db' e =
      let db1 = ensure_event_seq_row session db in
      elim (Bool-cases (down 0 || down 1)) [
        | inl x ↦ absurd (ground (arith, e, x))
        | inr x ↦ (elim (Option-cases (allocate_next_seq_n 1 session db1)) [
          | inl y ↦ absurd (ground (arith, e, x, y))
          | inr ((last, db2), y) ↦
              (let first' = last - 1 + 1 in
                elim (Option-cases
                  (insert_drafts ulid down now org session first' 0 (d ∷ []) db2)) [
                    | inl z ↦ absurd (ground (arith, e, x, y, z))
                    | inr (db3, z) ↦ (elim (Bool-cases (down (2 + 1))) [
                      | inl w ↦ absurd (ground (arith, e, x, y, z, w))
                      | inr w ↦
                          (let all : some (first', db3) ≡ some (first, db') =
                              sym (simp (insert_tx, x, y, z, w)) ∙ e in
                            let q = pair_of (first', db3) (first, db') all in
                            let r : db3.events
                                ≡ db.events ++ event_of ulid down now org session first' 0 d ∷ [] =
                              insert_one first' d db2 db3 z
                              ∙ ap (λ u. u ++ event_of ulid down now org session first' 0 d ∷ [])
                                  (allocate_rows 1 session db1 (last, db2) y
                                    ∙ unfold ensure_event_seq_row in refl) in
                            subst
                              (λ u.
                                u.1.events
                                ≡ db.events ++ event_of ulid down now org session u.0 0 d ∷ [])
                              q r)
                    ])
                  ])
        ])
      ]

unfoldable pub ended : Option ℕ → Bool
ended none = false
ended (some n) = true

-- The commit of the attempt is done and answers an error.
abbrev pub Lost : EmitCall → Type 0
Lost a = a.down 4 ≡ true

none_sent :
    (lossy : Type 0) (left org session : ℕ) (d : DraftEvent) (l : Log)
    → Delivery lossy left org session d l false l
none_sent lossy left org session d l = record {
  sent = [];
  rows = sym (append-nil l.db.events);
  copies = tt;
  at_most = omega arith;
  at_least = λ e. cc;
  once = λ n. refl;
}

one_sent :
    (lossy : Type 0) (org session : ℕ) (d : DraftEvent) (l : Log) (b : Bool) (l' : Log)
    (row : Event)
    → l'.db.events ≡ l.db.events ++ row ∷ []
    → IsCopy org session d row
    → (b ≡ true) ⊎ lossy
    → Delivery lossy 1 org session d l b l'
one_sent lossy org session d l b l' row e c o = record {
  sent = row ∷ [];
  rows = e;
  copies = (c, tt);
  at_most = omega arith;
  at_least = λ h. omega arith;
  once = λ n. counted b o n;
}
  where
    counted : (b : Bool) → (b ≡ true) ⊎ lossy → ¬ lossy → 1 ≡ count b
    counted true o n = refl
    counted false (inl h) n = cc
    counted false (inr h) n = absurd (n h)

emit-Delivery :
    (a : EmitCall) (org session : ℕ) (d : DraftEvent) (l : Log)
    → let r = emit a.ulid a.down a.now org session d l in
      Delivery (Lost a) 1 org session d l (ended r.0) r.1
unfolding emit insert_and_publish ended event_of
emit-Delivery a org session d l =
    let P : Option ℕ × Log → Type 0 = λ r. Delivery (Lost a) 1 org session d l (ended r.0) r.1 in
    elim (Option-cases (insert_tx a.ulid a.down a.now org session (d ∷ []) l.db)) [
      | inl x ↦ simp (emit, insert_and_publish, x) (none_sent (Lost a) 1 org session d l)
      | inr ((first, db), x) ↦
          (let row = event_of a.ulid a.down a.now org session first 0 d in
            let copy : IsCopy org session d row = record {
              row_org = refl;
              row_session = refl;
              row_type = refl;
              row_payload = refl;
            } in
            let added = insert_tx_one a.ulid a.down a.now org session d l.db first db x in
            elim (Bool-cases (a.down 4)) [
              | inl y ↦
                  (let new : Log = record l { db = db } in
                    let e : emit a.ulid a.down a.now org session d l ≡ (none, new) =
                      simp (emit, insert_and_publish, x, y) in
                    subst P (sym e)
                      (one_sent (Lost a) org session d l false new row added copy (inr y)))
              | inr y ↦
                  (let new : Log = record {
                    db = db;
                    subs = publish a.ulid a.down a.now org session first 0 (d ∷ []) l.subs;
                  } in
                    let e : emit a.ulid a.down a.now org session d l ≡ (some first, new) =
                      simp (emit, insert_and_publish, x, y) in
                    subst P (sym e)
                      (one_sent (Lost a) org session d l true new row added copy (inl refl)))
            ])
    ]

pub All-map :
    (P Q : Event → Type 0) → ((e : Event) → P e → Q e) → (es : List Event) → All P es → All Q es
All-map P Q f [] a = tt
All-map P Q f (e ∷ es) a = (f e a.0, All-map P Q f es a.1)

All-append : (P : Event → Type 0) (xs ys : List Event) → All P xs → All P ys → All P (xs ++ ys)
All-append P [] ys a b = b
All-append P (x ∷ xs) ys a b = (a.0, All-append P xs ys a.1 b)

-- A failed attempt, and those behind it.
again-Delivery :
    (lost lossy : Type 0) (left org session : ℕ) (d : DraftEvent) (l l1 : Log) (b : Bool) (l2 : Log)
    → (lost → lossy)
    → Delivery lost 1 org session d l false l1
    → Delivery lossy left org session d l1 b l2
    → Delivery lossy (suc left) org session d l b l2
again-Delivery lost lossy left org session d l l1 b l2 f v w = record {
  sent = v.sent ++ w.sent;
  rows = w.rows ∙ ap (λ u. u ++ w.sent) v.rows ∙ append_assoc l.db.events v.sent w.sent;
  copies = All-append (IsCopy org session d) v.sent w.sent v.copies w.copies;
  at_most = omega (arith, v.at_most, w.at_most, length-append v.sent w.sent);
  at_least = λ e. omega (arith, w.at_least e, length-append v.sent w.sent);
  once = λ n. omega (arith, v.once (λ q. n (f q)), w.once n, length-append v.sent w.sent);
}

-- An attempt that is the last.
more-Delivery :
    (lost lossy : Type 0) (left org session : ℕ) (d : DraftEvent) (l : Log) (b : Bool) (l' : Log)
    → (lost → lossy)
    → Delivery lost 1 org session d l b l'
    → Delivery lossy (suc left) org session d l b l'
more-Delivery lost lossy left org session d l b l' f v = record {
  sent = v.sent;
  rows = v.rows;
  copies = v.copies;
  at_most = omega (arith, v.at_most);
  at_least = v.at_least;
  once = λ n. v.once (λ q. n (f q));
}

module _ (tries : ℕ → EmitCall) (org session : ℕ) where
  -- The answer to the commit of some attempt is lost.
  abbrev pub Lossy : Type 0
  Lossy = (k : ℕ) × Lost (tries k)

  loop-Delivery :
      (left attempt : ℕ) (d : DraftEvent) (l : Log)
      → let r = emit_loop tries org session left attempt d l in
        Delivery Lossy left org session d l r.0 r.1
  unfolding emit_loop ended
  loop-Delivery zero attempt d l = none_sent Lossy 0 org session d l
  loop-Delivery (suc left) attempt d l =
      let a = tries attempt in
      let r = emit a.ulid a.down a.now org session d l in
      let v = emit-Delivery a org session d l in
      let f : Lost a → Lossy = λ q. (attempt, q) in
      elim (Option-cases r.0) [
        | inr (seq, x) ↦
            rw (emit_loop, x)
              (more-Delivery (Lost a) Lossy left org session d l true r.1 f
                (subst (λ b. Delivery (Lost a) 1 org session d l b r.1) (ap ended x) v))
        | inl x ↦
            (let v' = subst (λ b. Delivery (Lost a) 1 org session d l b r.1) (ap ended x) v in
              elim (Bool-cases a.business) [
                | inl y ↦
                    rw (emit_loop, x, y)
                      (more-Delivery (Lost a) Lossy left org session d l false r.1 f v')
                | inr y ↦
                    rw (emit_loop, x, y)
                      (let q = emit_loop tries org session left (suc attempt) d r.1 in
                        again-Delivery (Lost a) Lossy left org session d l r.1 q.0 q.1 f v'
                          (loop-Delivery left (suc attempt) d r.1))
              ])
      ]

  -- emitWithRetry adds rows of the event to the log and nothing else, each of the right session, type and
  -- payload: at most three, and at least one where it answers success. If no commit is done and yet
  -- answers an error, it adds exactly one for a success and none for a failure.
  pub emit_with_retry-Delivery :
      (d : DraftEvent) (l : Log)
      → let r = emit_with_retry tries org session d l in Delivery Lossy 3 org session d l r.0 r.1
  unfolding emit_with_retry
  emit_with_retry-Delivery d l = loop-Delivery emit_max_retries 0 d l
