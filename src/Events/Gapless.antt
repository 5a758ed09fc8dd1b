-- ===== src/Events/Gapless.antt =====
-- The numbers of a session's events (log.go) are 1, 2, 3 and so on, whatever fails.
use jamsesh.Prelude.{
  ◌+◌, ◌++◌, ◌==◌, [], any, ap, arith, Bool, Bool-cases, false, if◌then◌else◌, inl, inr, length,
  List, none, Option, Option-cases, refl, some, subst, suc, true, ℕ, ◌∙◌, ◌∷◌, ◌≡◌,
}
use jamsesh.Events.Log.{clashes, Db, DraftEvent, Event, event_of, insert_drafts, insert_event}
use Prim.Native.Nat.{zero}
use mathlib.Core.List.{append-nil, append_assoc}

-- The numbers of a session, in the order of the inserts.
unfoldable pub seqs : ℕ → List Event → List ℕ
seqs s [] = []
seqs s (e ∷ es) = if e.session_id == s then e.seq ∷ seqs s es else seqs s es

unfoldable pub count_from : (first n : ℕ) → List ℕ
count_from first zero = []
count_from first (suc n) = first ∷ count_from (suc first) n

unfoldable pub issued : Option ℕ → ℕ
issued none = 0
issued (some n) = n

-- Each session has the events 1 to its counter, in order.
unfoldable pub Gapless : Db → Type 0
unfolding seqs count_from issued
Gapless db = (s : ℕ) → seqs s db.events ≡ count_from 1 (issued (db.next s))

seqs-append : (s : ℕ) (es fs : List Event) → seqs s (es ++ fs) ≡ seqs s es ++ seqs s fs
unfolding seqs
seqs-append s [] fs = refl
seqs-append s (e ∷ es) fs = ground (arith, seqs-append s es fs)

pub count_from-append :
    (first n m : ℕ) → count_from first (n + m) ≡ count_from first n ++ count_from (first + n) m
unfolding count_from
count_from-append first zero m =
    let e : 0 + m ≡ m = omega arith in let e' : first + 0 ≡ first = omega arith in rw (e, e') refl
count_from-append first (suc n) m =
    let e : suc n + m ≡ suc (n + m) = omega arith in
    let e' : first + suc n ≡ suc first + n = omega arith in
    rw (e, e') (ap (λ r. first ∷ r) (count_from-append (suc first) n m))

pub insert_event_rows :
    (e : Event) (db db' : Db)
    → insert_event e db ≡ some db'
    → db' ≡ record db { events = db.events ++ e ∷ [] }
unfolding insert_event
insert_event_rows e db db' h = elim (Bool-cases (any (clashes e) db.events)) [
  | inl x ↦ absurd (ground (arith, h, x))
  | inr x ↦ ground (arith, h, x)
]

seqs_one :
    (s : ℕ) (es : List Event) (e : Event)
    → seqs s (es ++ e ∷ []) ≡ (if e.session_id == s then seqs s es ++ e.seq ∷ [] else seqs s es)
unfolding seqs
seqs_one s es e = elim (Bool-cases (e.session_id == s)) [
  | inl x ↦ rw (seqs-append s es (e ∷ []), x) refl
  | inr x ↦ rw (seqs-append s es (e ∷ []), x) (rw append-nil)
]

true_eq : (n : ℕ) → (n == n) ≡ true
true_eq n = ground arith

module _ (ulid : ℕ → ℕ) (down : ℕ → Bool) (now org session : ℕ) where
  -- What the loop of the transaction adds.
  pub record AddedRows (first i : ℕ) (ds : List DraftEvent) (db db' : Db) : Type 0 where
    pub counters : db'.next ≡ db.next
    pub own : seqs session db'.events ≡ seqs session db.events ++ count_from (first + i) (length ds)
    pub others : (s : ℕ) → (session == s) ≡ false → seqs s db'.events ≡ seqs s db.events

  pub insert_drafts-rows :
      (first i : ℕ) (ds : List DraftEvent) (db db' : Db)
      → insert_drafts ulid down now org session first i ds db ≡ some db'
      → AddedRows first i ds db db'
  unfolding insert_drafts count_from event_of
  insert_drafts-rows first i [] db db' e =
      let q : db ≡ db' = ground (arith, e) in
      subst (λ d. AddedRows first i [] db d) q
        (record { counters = refl; own = rw append-nil; others = λ s n. refl })
  insert_drafts-rows first i (d ∷ ds) db db' e =
      let f = event_of ulid down now org session first i d in
      elim (Bool-cases (down (2 + i))) [
        | inl x ↦ absurd (ground (arith, e, x))
        | inr x ↦ (elim (Option-cases (insert_event f db)) [
          | inl y ↦ absurd (ground (arith, e, x, y))
          | inr (mid, y) ↦
              (let m = insert_event_rows f db mid y in
                let v = insert_drafts-rows first (suc i) ds mid db' (ground (arith, e, x, y)) in
                let one : seqs session mid.events ≡ seqs session db.events ++ (first + i) ∷ [] =
                  ap (λ u. seqs session u.events) m
                  ∙ seqs_one session db.events f
                  ∙ rw (true_eq session) in
                let q : first + suc i ≡ suc (first + i) = omega arith in
                record {
                  counters = v.counters ∙ ap (λ u. u.next) m;
                  own = v.own ∙ rw (one, q, append_assoc);
                  others = λ s n.
                      v.others s n ∙ ap (λ u. seqs s u.events) m ∙ seqs_one s db.events f ∙ rw n;
                })
        ])
      ]
