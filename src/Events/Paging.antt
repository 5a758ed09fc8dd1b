-- ===== src/Events/Paging.antt =====
-- Reading a session's events page by page (log.go, ListSince).
use jamsesh.Prelude.{
  ◌+◌, Bool, true, false, ◌&&◌, ◌++◌, ◌<◌, ◌==◌, [], All, ap, arith, Bool-cases, drop,
  if◌then◌else◌, inl, inr, length, List, ltb, refl, subst, suc, sym, take, ℕ, ◌∙◌, ◌∷◌, ◌≡◌, ◌≢◌,
  ◌≤◌,
}
use jamsesh.Events.Log.{Db, Event, insert_by_seq, list_since, order_by_seq, rows_since}
use Prim.Native.Nat.{zero}

-- Numbers that rise, all above `lo`.
unfoldable pub Ascending : ℕ → List Event → Type 0
Ascending lo [] = Unit
Ascending lo (e ∷ es) = (lo < e.seq) × Ascending e.seq es

-- UNIQUE(session_id, seq), for one session. The rows may stand in any order.
unfoldable pub UniqueSeqs : ℕ → List Event → Type 0
UniqueSeqs s [] = Unit
UniqueSeqs s (e ∷ es) =
    (e.session_id ≡ s → All (λ f. f.session_id ≡ s → f.seq ≢ e.seq) es) × UniqueSeqs s es

-- How many of the rows pass a test.
unfoldable pub count_rows : (Event → Bool) → List Event → ℕ
count_rows p [] = 0
count_rows p (e ∷ es) = (if p e then 1 else 0) + count_rows p es

-- The sorted rows behind a cursor.
abbrev behind_cursor : (s c : ℕ) → List Event → List Event
behind_cursor s c es = order_by_seq (rows_since s c es)

insert-All :
    (P : Event → Type 0) (e : Event) (fs : List Event) → P e → All P fs → All P (insert_by_seq e fs)
unfolding insert_by_seq
insert-All P e [] h a = (h, tt)
insert-All P e (f ∷ fs) h a = elim (Bool-cases (ltb f.seq e.seq)) [
  | inl x ↦ rw (insert_by_seq, x) (a.0, insert-All P e fs h a.1)
  | inr x ↦ rw (insert_by_seq, x) (h, a)
]

order-All : (P : Event → Type 0) (es : List Event) → All P es → All P (order_by_seq es)
unfolding order_by_seq
order-All P [] a = tt
order-All P (e ∷ es) a = insert-All P e (order_by_seq es) a.0 (order-All P es a.1)

insert-Ascending :
    (lo : ℕ) (e : Event) (fs : List Event)
    → lo < e.seq
    → Ascending lo fs
    → All (λ f. f.seq ≢ e.seq) fs
    → Ascending lo (insert_by_seq e fs)
unfolding insert_by_seq Ascending
insert-Ascending lo e [] l a n = (l, tt)
insert-Ascending lo e (f ∷ fs) l a n = elim (Bool-cases (ltb f.seq e.seq)) [
  | inl x ↦ rw (insert_by_seq, x) (a.0, insert-Ascending f.seq e fs (ground (arith, x)) a.1 n.1)
  | inr x ↦ rw (insert_by_seq, x) (l, (above_it (ground (arith, x)), a.1))
]
  where
    above_it : e.seq ≤ f.seq → e.seq < f.seq
    above_it k = elim (Bool-cases (f.seq == e.seq)) [
      | inl q ↦ absurd (n.0 (ground (arith, q)))
      | inr q ↦ ground (arith, q, k)
    ]

-- If no row of the session has a number, no row that the query selects has it.
rows-All :
    (s since k : ℕ) (es : List Event)
    → All (λ f. f.session_id ≡ s → f.seq ≢ k) es
    → All (λ f. f.seq ≢ k) (rows_since s since es)
unfolding rows_since
rows-All s since k [] a = tt
rows-All s since k (e ∷ es) a = elim (Bool-cases ((e.session_id == s) && ltb since e.seq)) [
  | inl x ↦ rw (rows_since, x) (a.0 (ground (arith, x)), rows-All s since k es a.1)
  | inr x ↦ rw (rows_since, x) (rows-All s since k es a.1)
]

behind_cursor-Ascending :
    (s c : ℕ) (es : List Event) → UniqueSeqs s es → Ascending c (behind_cursor s c es)
unfolding rows_since order_by_seq UniqueSeqs Ascending
behind_cursor-Ascending s c [] u = tt
behind_cursor-Ascending s c (e ∷ es) u = elim (Bool-cases ((e.session_id == s) && ltb c e.seq)) [
  | inl x ↦
      rw (rows_since, x)
        (insert-Ascending c e (behind_cursor s c es) (ground (arith, x))
          (behind_cursor-Ascending s c es u.1)
          (order-All (λ f. f.seq ≢ e.seq) (rows_since s c es)
            (rows-All s c e.seq es (u.0 (ground (arith, x))))))
  | inr x ↦ rw (rows_since, x) (behind_cursor-Ascending s c es u.1)
]

-- The rows behind a later cursor.
unfoldable pub above : ℕ → List Event → List Event
above m [] = []
above m (e ∷ es) = if ltb m e.seq then e ∷ above m es else above m es

rows_since-above :
    (s since m : ℕ) (es : List Event)
    → since ≤ m
    → rows_since s m es ≡ above m (rows_since s since es)
unfolding rows_since above
rows_since-above s since m [] l = refl
rows_since-above s since m (e ∷ es) l = ground (arith, rows_since-above s since m es l)

above_same : (lo m : ℕ) (es : List Event) → m ≤ lo → Ascending lo es → above m es ≡ es
unfolding above Ascending
above_same lo m [] l a = refl
above_same lo m (e ∷ es) l a = ground (arith, above_same e.seq m es (omega (arith, a.0)) a.1, a.0)

-- The number of the last event of a page, or the cursor.
unfoldable pub last_seq : ℕ → List Event → ℕ
last_seq c [] = c
last_seq c (e ∷ es) = last_seq e.seq es

last_seq-take : (c n : ℕ) (es : List Event) → Ascending c es → c ≤ last_seq c (take n es)
unfolding last_seq Ascending
last_seq-take c zero es a = omega arith
last_seq-take c (suc n) [] a = omega arith
last_seq-take c (suc n) (e ∷ es) a = omega (arith, a.0, last_seq-take e.seq n es a.1)

above-drop :
    (c n : ℕ) (es : List Event) → Ascending c es → above (last_seq c (take n es)) es ≡ drop n es
unfolding last_seq above Ascending
above-drop c zero es a = above_same c c es (omega arith) a
above-drop c (suc n) [] a = refl
above-drop c (suc n) (e ∷ es) a =
    let k = last_seq-take e.seq n es a.1 in ground (arith, k, above-drop e.seq n es a.1)

take-drop : (n : ℕ) (es : List Event) → take n es ++ drop n es ≡ es
take-drop zero es = refl
take-drop (suc n) [] = refl
take-drop (suc n) (e ∷ es) = ap (λ r. e ∷ r) (take-drop n es)

drop-length : (n : ℕ) (es : List Event) → length (drop n es) ≤ length es
drop-length zero es = omega arith
drop-length (suc n) [] = omega arith
drop-length (suc n) (e ∷ es) = omega (arith, drop-length n es)

-- A client that reads page after page, with its cursor at the last number it has seen.
unfoldable pub read_pages : (fuel session limit cursor : ℕ) → Db → List Event
unfolding list_since last_seq
read_pages zero session limit cursor db = []
read_pages (suc fuel) session limit cursor db =
    let page = list_since session cursor limit db in
    page ++ read_pages fuel session limit (last_seq cursor page) db

above-keep :
    (m : ℕ) (f : Event) (fs : List Event) → ltb m f.seq ≡ true → above m (f ∷ fs) ≡ f ∷ above m fs
unfolding above
above-keep m f fs h = rw (above, h) refl

above-skip :
    (m : ℕ) (f : Event) (fs : List Event) → ltb m f.seq ≡ false → above m (f ∷ fs) ≡ above m fs
unfolding above
above-skip m f fs h = rw (above, h) refl

insert-front :
    (e f : Event) (fs : List Event)
    → ltb f.seq e.seq ≡ false
    → insert_by_seq e (f ∷ fs) ≡ e ∷ f ∷ fs
unfolding insert_by_seq
insert-front e f fs h = rw (insert_by_seq, h) refl

insert-behind :
    (e f : Event) (fs : List Event)
    → ltb f.seq e.seq ≡ true
    → insert_by_seq e (f ∷ fs) ≡ f ∷ insert_by_seq e fs
unfolding insert_by_seq
insert-behind e f fs h = rw (insert_by_seq, h) refl

insert-above :
    (m : ℕ) (e : Event) (fs : List Event)
    → ltb m e.seq ≡ true
    → above m (insert_by_seq e fs) ≡ insert_by_seq e (above m fs)
unfolding insert_by_seq above
insert-above m e [] l = ground (arith, l)
insert-above m e (f ∷ fs) l = elim (Bool-cases (ltb f.seq e.seq)) [
  | inl x ↦ (elim (Bool-cases (ltb m f.seq)) [
    | inl y ↦
        ap (above m) (insert-behind e f fs x)
        ∙ above-keep m f (insert_by_seq e fs) y
        ∙ ap (λ r. f ∷ r) (insert-above m e fs l)
        ∙ sym (ap (insert_by_seq e) (above-keep m f fs y) ∙ insert-behind e f (above m fs) x)
    | inr y ↦
        ap (above m) (insert-behind e f fs x)
        ∙ above-skip m f (insert_by_seq e fs) y
        ∙ insert-above m e fs l
        ∙ sym (ap (insert_by_seq e) (above-skip m f fs y))
  ])
  | inr x ↦
      (let y : ltb m f.seq ≡ true = ground (arith, x, l) in
        ap (above m) (insert-front e f fs x)
        ∙ above-keep m e (f ∷ fs) l
        ∙ ap (λ r. e ∷ r) (above-keep m f fs y)
        ∙ sym (ap (insert_by_seq e) (above-keep m f fs y) ∙ insert-front e f (above m fs) x))
]

insert-below :
    (m : ℕ) (e : Event) (fs : List Event)
    → ltb m e.seq ≡ false
    → above m (insert_by_seq e fs) ≡ above m fs
unfolding insert_by_seq above
insert-below m e [] l = ground (arith, l)
insert-below m e (f ∷ fs) l = elim (Bool-cases (ltb f.seq e.seq)) [
  | inl x ↦ ground (arith, x, l, insert-below m e fs l)
  | inr x ↦ ground (arith, x, l)
]

order-above : (m : ℕ) (es : List Event) → order_by_seq (above m es) ≡ above m (order_by_seq es)
unfolding order_by_seq above
order-above m [] = refl
order-above m (e ∷ es) = elim (Bool-cases (ltb m e.seq)) [
  | inl x ↦
      rw (above, x)
        (ap (insert_by_seq e) (order-above m es) ∙ sym (insert-above m e (order_by_seq es) x))
  | inr x ↦ rw (above, x) (order-above m es ∙ sym (insert-below m e (order_by_seq es) x))
]

insert-length : (e : Event) (fs : List Event) → length (insert_by_seq e fs) ≡ suc (length fs)
unfolding insert_by_seq
insert-length e [] = refl
insert-length e (f ∷ fs) = ground (arith, insert-length e fs)

order-length : (es : List Event) → length (order_by_seq es) ≡ length es
unfolding order_by_seq
order-length [] = refl
order-length (e ∷ es) = insert-length e (order_by_seq es) ∙ ap suc (order-length es)

rows-length : (s c : ℕ) (es : List Event) → length (rows_since s c es) ≤ length es
unfolding rows_since
rows-length s c [] = omega arith
rows-length s c (e ∷ es) = ground (arith, rows-length s c es)

insert-count :
    (p : Event → Bool) (e : Event) (fs : List Event)
    → count_rows p (insert_by_seq e fs) ≡ count_rows p (e ∷ fs)
unfolding insert_by_seq count_rows
insert-count p e [] = refl
insert-count p e (f ∷ fs) = ground (arith, insert-count p e fs)

order-count :
    (p : Event → Bool) (es : List Event) → count_rows p (order_by_seq es) ≡ count_rows p es
unfolding order_by_seq count_rows
order-count p [] = refl
order-count p (e ∷ es) =
    insert-count p e (order_by_seq es) ∙ ap (λ n. (if p e then 1 else 0) + n) (order-count p es)

rows-count :
    (p : Event → Bool) (s c : ℕ) (es : List Event)
    → count_rows p (rows_since s c es)
      ≡ count_rows (λ e. (e.session_id == s) && ltb c e.seq && p e) es
unfolding rows_since count_rows
rows-count p s c [] = refl
rows-count p s c (e ∷ es) = elim (Bool-cases ((e.session_id == s) && ltb c e.seq)) [
  | inl x ↦ ground (arith, x, rows-count p s c es)
  | inr x ↦ ground (arith, x, rows-count p s c es)
]

no_rows : (es : List Event) → length es ≤ 0 → es ≡ []
no_rows [] h = refl
no_rows (e ∷ es) h = absurd (omega (arith, h))

drop_some : (n : ℕ) (es : List Event) (k : ℕ) → 0 < n → length es ≤ suc k → length (drop n es) ≤ k
drop_some zero es k h l = absurd (omega arith)
drop_some (suc n) [] k h l = omega arith
drop_some (suc n) (e ∷ es) k h l = omega (arith, drop-length n es, l)

read_pages-sorted :
    (fuel s limit c : ℕ) (db : Db)
    → UniqueSeqs s db.events
    → 0 < limit
    → length (behind_cursor s c db.events) ≤ fuel
    → read_pages fuel s limit c db ≡ behind_cursor s c db.events
unfolding read_pages list_since
read_pages-sorted zero s limit c db u p l = sym (no_rows (behind_cursor s c db.events) l)
read_pages-sorted (suc fuel) s limit c db u p l =
    let rows = behind_cursor s c db.events in
    let asc = behind_cursor-Ascending s c db.events u in
    let m = last_seq c (take limit rows) in
    let rest : behind_cursor s m db.events ≡ drop limit rows =
      ap order_by_seq (rows_since-above s c m db.events (last_seq-take c limit rows asc))
      ∙ order-above m (rows_since s c db.events)
      ∙ above-drop c limit rows asc in
    let again =
      read_pages-sorted fuel s limit m db u p
        (subst (λ r. length r ≤ fuel) (sym rest) (drop_some limit rows fuel p l)) in
    ap (λ r. take limit rows ++ r) (again ∙ rest) ∙ take-drop limit rows

-- On a table whose numbers are unique in the session, in whatever order its rows stand, a client that reads
-- pages of a positive limit, at least as many as the table has rows, gets a list of rising numbers behind
-- its cursor that holds, by any test, as many rows as the table has of the session behind the cursor: each
-- of these exactly once, and nothing else.
pub read_pages-rows :
    (fuel s limit c : ℕ) (db : Db)
    → UniqueSeqs s db.events
    → 0 < limit
    → length db.events ≤ fuel
    → (rs : List Event) × (read_pages fuel s limit c db ≡ rs)
      × Ascending c rs
      × ((p : Event → Bool)
          → count_rows p rs ≡ count_rows (λ e. (e.session_id == s) && ltb c e.seq && p e) db.events)
read_pages-rows fuel s limit c db u p l = (
  behind_cursor s c db.events,
  read_pages-sorted fuel s limit c db u p
      (omega (arith, order-length (rows_since s c db.events), rows-length s c db.events, l)),
  behind_cursor-Ascending s c db.events u,
  λ t. order-count t (rows_since s c db.events) ∙ rows-count t s c db.events,
)
