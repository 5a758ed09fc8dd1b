-- ===== src/Events/Transaction.antt =====
-- The transaction of Emit and EmitBatch (log.go) on a log without gaps.
use jamsesh.Prelude.{
  ◌+◌, ◌-◌, ◌==◌, ap, arith, Bool, Bool-cases, false, if◌then◌else◌, inl, inr, length, List, none,
  Option, Option-cases, refl, some, subst, suc, sym, true, ◌||◌, ℕ, ◌∙◌, ◌≡◌,
}
use jamsesh.Events.Gapless.{
  AddedRows, count_from, count_from-append, Gapless, insert_drafts-rows, issued, seqs,
}
use jamsesh.Events.Log.{
  allocate_next_seq_n, Db, DraftEvent, ensure_event_seq_row, insert_drafts, insert_tx,
}

ensure-issued :
    (s : ℕ) (db : Db) (t : ℕ) → issued ((ensure_event_seq_row s db).next t) ≡ issued (db.next t)
unfolding ensure_event_seq_row issued
ensure-issued s db t = elim (Bool-cases (t == s)) [
  | inr x ↦ rw x refl
  | inl x ↦
      (let q : t ≡ s = ground (arith, x) in
        elim (Option-cases (db.next s)) [
          | inl y ↦ rw (x, q, y) refl
          | inr (n, y) ↦ rw (x, q, y) refl
        ])
]

flip : (t s : ℕ) → (s == t) ≡ false → (t == s) ≡ false
flip t s h = ground (arith, h)

-- What AllocateNextSeqN leaves.
record Allocated (n s : ℕ) (db : Db) (last : ℕ) (db' : Db) : Type 0 where
  last_is : last ≡ issued (db.next s) + n
  rows : db'.events ≡ db.events
  counter : issued (db'.next s) ≡ issued (db.next s) + n
  others : (t : ℕ) → (s == t) ≡ false → db'.next t ≡ db.next t

value : Db → Option (ℕ × Db) → ℕ × Db
value db none = (0, db)
value db (some p) = p

some_pair :
    (a c : ℕ) (b d : Db) → ◌≡◌ {A = Option (ℕ × Db)} (some (a, b)) (some (c, d)) → (a ≡ c) × (b ≡ d)
unfolding value
some_pair a c b d e = (ap (λ o. (value b o).0) e, ap (λ o. (value b o).1) e)

allocate-Allocated :
    (n s : ℕ) (db : Db) (last : ℕ) (db' : Db)
    → allocate_next_seq_n n s db ≡ some (last, db')
    → Allocated n s db last db'
unfolding allocate_next_seq_n issued
allocate-Allocated n s db last db' e = elim (Option-cases (db.next s)) [
  | inl x ↦ absurd (ground (arith, e, x))
  | inr (old, x) ↦
      (let new : Db = record db { next = λ t. if t == s then some (old + n) else db.next t } in
        let e' : some (old + n, new) ≡ some (last, db') =
          sym (rw (allocate_next_seq_n, x) refl) ∙ e in
        let both = some_pair (old + n) last new db' e' in
        let d : new ≡ db' = both.1 in
        let k : (s == s) ≡ true = ground arith in
        record {
          last_is = rw x (sym both.0);
          rows = ap (λ u. u.events) (sym d);
          counter = ap (λ u. issued (u.next s)) (sym d) ∙ rw (k, x) refl;
          others = λ t h. ap (λ u. u.next t) (sym d) ∙ rw (flip t s h) refl;
        })
]

module _ (ulid : ℕ → ℕ) (down : ℕ → Bool) (now org session : ℕ) where
  -- What a transaction leaves: the next numbers, and a log without gaps.
  pub record Inserted (n : ℕ) (db : Db) (first : ℕ) (db' : Db) : Type 0 where
    pub first_is : first ≡ suc (issued (db.next session))
    pub counter : issued (db'.next session) ≡ issued (db.next session) + n
    pub gapless : Gapless db'

  rows-Inserted :
      (ds : List DraftEvent) (db : Db) (last : ℕ) (db2 db3 : Db)
      → Gapless db
      → Allocated (length ds) session (ensure_event_seq_row session db) last db2
      → AddedRows ulid down now org session (last - length ds + 1) 0 ds db2 db3
      → Inserted (length ds) db (last - length ds + 1) db3
  unfolding Gapless ensure_event_seq_row
  rows-Inserted ds db last db2 db3 g a v =
      let c = issued (db.next session) in
      let n = length ds in
      let c1 : issued ((ensure_event_seq_row session db).next session) ≡ c =
        ensure-issued session db session in
      let l : last ≡ c + n = a.last_is ∙ ap (λ u. u + n) c1 in
      let f : last - n + 1 ≡ suc c = omega (arith, l) in
      let f0 : last - n + 1 + 0 ≡ 1 + c = omega (arith, l) in
      let k : issued (db3.next session) ≡ c + n =
        ap (λ u. issued (u session)) v.counters ∙ a.counter ∙ ap (λ u. u + n) c1 in
      record {
        first_is = f;
        counter = k;
        gapless = λ s. elim (Bool-cases (session == s)) [
          | inl x ↦
              (let q : session ≡ s = ground (arith, x) in
                subst (λ t. seqs t db3.events ≡ count_from 1 (issued (db3.next t))) q
                  (v.own
                    ∙ rw (ap (seqs session) a.rows, g session, f0, k, count_from-append 1 c n)
                        refl))
          | inr x ↦
              v.others s x
              ∙ ap (seqs s) a.rows
              ∙ g s
              ∙ ap (count_from 1) (
                  sym (
                    ap (λ u. issued (u s)) v.counters
                    ∙ ap issued (a.others s x)
                    ∙ ensure-issued session db s))
        ];
      }

  pub insert_tx-Inserted :
      (ds : List DraftEvent) (db : Db) (first : ℕ) (db' : Db)
      → Gapless db
      → insert_tx ulid down now org session ds db ≡ some (first, db')
      → Inserted (length ds) db first db'
  unfolding insert_tx Gapless
  insert_tx-Inserted ds db first db' g e =
      let db1 = ensure_event_seq_row session db in
      elim (Bool-cases (down 0 || down 1)) [
        | inl x ↦ absurd (ground (arith, e, x))
        | inr x ↦ (elim (Option-cases (allocate_next_seq_n (length ds) session db1)) [
          | inl y ↦ absurd (ground (arith, e, x, y))
          | inr ((last, db2), y) ↦
              (let first' = last - length ds + 1 in
                elim (Option-cases (insert_drafts ulid down now org session first' 0 ds db2)) [
                  | inl z ↦ absurd (ground (arith, e, x, y, z))
                  | inr (db3, z) ↦ (elim (Bool-cases (down (2 + length ds))) [
                    | inl w ↦ absurd (ground (arith, e, x, y, z, w))
                    | inr w ↦
                        (let all : some (first', db3) ≡ some (first, db') =
                            sym (simp (insert_tx, x, y, z, w)) ∙ e in
                          let both = some_pair first' first db3 db' all in
                          let r =
                            rows-Inserted ds db last db2 db3 g
                              (allocate-Allocated (length ds) session db1 last db2 y)
                              (insert_drafts-rows ulid down now org session first' 0 ds db2 db3
                                z) in
                          subst (λ u. Inserted (length ds) db u db') both.0
                            (subst (λ u. Inserted (length ds) db first' u) both.1 r))
                  ])
                ])
        ])
      ]
