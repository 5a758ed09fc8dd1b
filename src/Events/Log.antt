-- ===== src/Events/Log.antt =====
-- log.go, with the queries of internal/db/sqlitestore/events.sql.go. A payload is opaque; `down` tells which
-- calls of the store fail in a transaction, counted from 0, and `ulid` gives the new identifiers.
use jamsesh.Prelude.{
  ◌&&◌, ◌+◌, ◌++◌, ◌-◌, ◌==◌, [], any, Bool, false, if◌then◌else◌, length, List, ltb, none, not,
  Option, some, suc, take, true, ◌||◌, ℕ, ◌∷◌,
}
use jamsesh.Go.Strings.{Bytes, codes, same}

pub record Event : Type 0 where
  pub id : ℕ
  pub org_id : ℕ
  pub session_id : ℕ
  pub seq : ℕ
  pub event_type : Bytes
  pub payload : ℕ
  pub created_at : ℕ

pub record DraftEvent : Type 0 where
  pub event_type : Bytes
  pub payload : ℕ

-- A row of the presence table, with its key in the first three fields.
pub record Presence : Type 0 where
  pub session_id : ℕ
  pub account_id : ℕ
  pub ref : Bytes
  pub org_id : ℕ
  pub current_sha : Bytes
  pub last_active_at : ℕ

-- The tables event_seq, by session, events, in the order of the inserts, and presence.
pub record Db : Type 0 where
  pub next : ℕ → Option ℕ
  pub events : List Event
  pub presence : List Presence

-- `ON CONFLICT(session_id) DO NOTHING`.
unfoldable pub ensure_event_seq_row : ℕ → Db → Db
ensure_event_seq_row s db = record db {
  next = λ t. if t == s then (elim (db.next s) [ none ↦ some 0 | some n ↦ some n ]) else db.next t;
}

-- The new counter; nothing if there is no row.
unfoldable pub allocate_next_seq_n : (n s : ℕ) → Db → Option (ℕ × Db)
allocate_next_seq_n n s db = elim (db.next s) [
  | none ↦ none
  | some old ↦
      some (old + n, record db { next = λ t. if t == s then some (old + n) else db.next t })
]

-- The primary key, and UNIQUE(session_id, seq).
unfoldable pub clashes : Event → Event → Bool
clashes e f = (e.id == f.id) || (e.session_id == f.session_id && (e.seq == f.seq))

unfoldable pub insert_event : Event → Db → Option Db
unfolding clashes
insert_event e db =
    if any (clashes e) db.events then none else some (record db { events = db.events ++ e ∷ [] })

-- UpsertPresence.
unfoldable pub put_presence : Presence → List Presence → List Presence
put_presence p [] = p ∷ []
put_presence p (q ∷ qs) =
    let rest = put_presence p qs in
    if (q.session_id == p.session_id) && (q.account_id == p.account_id) && same q.ref p.ref
    then record q { current_sha = p.current_sha; last_active_at = p.last_active_at } ∷ qs
    else q ∷ rest

unfoldable pub upsert_presence : Presence → Db → Db
unfolding put_presence
upsert_presence p db = record db { presence = put_presence p db.presence }

-- `s.ch` holds at most 64 events.
pub record Subscriber : Type 0 where
  pub filter : Bytes
  pub ch : List Event

unfoldable pub deliver : Event → Subscriber → Subscriber
deliver e s =
    if not (same s.filter []) && not (same s.filter e.event_type)
    then s
    else if ltb (length s.ch) 64
    then record s { ch = s.ch ++ e ∷ [] }
    else s

unfoldable pub fan_out : Event → List Subscriber → List Subscriber
unfolding deliver
fan_out e [] = []
fan_out e (s ∷ ss) = deliver e s ∷ fan_out e ss

pub record Log : Type 0 where
  pub db : Db
  pub subs : List Subscriber

unfoldable pub subscribe : Bytes → Log → Log
subscribe type_filter l = record l {
  subs = l.subs ++ record { filter = type_filter; ch = [] } ∷ [];
}

module _ (ulid : ℕ → ℕ) (down : ℕ → Bool) (now org session : ℕ) where
  -- The event for the draft number i.
  unfoldable pub event_of : (first i : ℕ) → DraftEvent → Event
  event_of first i d = record {
    id = ulid i;
    org_id = org;
    session_id = session;
    seq = first + i;
    event_type = d.event_type;
    payload = d.payload;
    created_at = now;
  }

  -- The loop of the transaction, from the draft number i.
  unfoldable pub insert_drafts : (first i : ℕ) → List DraftEvent → Db → Option Db
  unfolding insert_event event_of
  insert_drafts first i [] db = some db
  insert_drafts first i (d ∷ ds) db = elim (down (2 + i)) [
    | true ↦ none
    | false ↦ (elim (insert_event (event_of first i d) db) [
      | none ↦ none
      | some db' ↦ insert_drafts first (suc i) ds db'
    ])
  ]

  -- The transaction, with its commit: the first number and the new tables.
  unfoldable pub insert_tx : List DraftEvent → Db → Option (ℕ × Db)
  unfolding ensure_event_seq_row allocate_next_seq_n insert_drafts
  insert_tx drafts db =
      if down 0 || down 1
      then none
      else (elim (allocate_next_seq_n (length drafts) session (ensure_event_seq_row session db)) [
        | none ↦ none
        | some (last, db') ↦
            (let first = last - length drafts + 1 in
              elim (insert_drafts first 0 drafts db') [
                | none ↦ none
                | some db'' ↦ if down (2 + length drafts) then none else some (first, db'')
              ])
      ])

  -- Behind the commit.
  unfoldable pub publish : (first i : ℕ) → List DraftEvent → List Subscriber → List Subscriber
  unfolding fan_out event_of
  publish first i [] subs = subs
  publish first i (d ∷ ds) subs = publish first (suc i) ds (fan_out (event_of first i d) subs)

  -- insertAndPublish. A commit that answers an error has been done or has not: in insert_tx it has not, and
  -- here `down (3 + length drafts)` says that it has, so that the rows are there and nothing is published.
  unfoldable pub insert_and_publish : List DraftEvent → Log → Option ℕ × Log
  unfolding insert_tx publish
  insert_and_publish drafts l = elim (insert_tx drafts l.db) [
    | none ↦ (none, l)
    | some (first, db) ↦
        if down (3 + length drafts)
        then (none, record l { db = db })
        else (some first, record { db = db; subs = publish first 0 drafts l.subs })
  ]

  unfoldable pub emit : DraftEvent → Log → Option ℕ × Log
  unfolding insert_and_publish
  emit d l = insert_and_publish (d ∷ []) l

  unfoldable pub emit_batch : List DraftEvent → Log → Option ℕ × Log
  unfolding insert_and_publish
  emit_batch [] l = (some 0, l)
  emit_batch (d ∷ ds) l = insert_and_publish (d ∷ ds) l

-- The event of UpdatePresence; `marshal` is the JSON of its payload.
unfoldable pub presence_draft : (Presence → ℕ) → Presence → DraftEvent
presence_draft marshal p = record { event_type = codes "presence.updated"; payload = marshal p }

module _ (ulid : ℕ → ℕ) (down : ℕ → Bool) (now org session : ℕ) (marshal : Presence → ℕ) where
  -- The transaction: one call more, the upsert.
  unfoldable pub presence_tx : Presence → Db → Option (ℕ × Db)
  unfolding insert_tx upsert_presence presence_draft
  presence_tx p db =
      if down 0
      then none
      else insert_tx ulid (λ k. down (suc k)) now org session (presence_draft marshal p ∷ [])
          (upsert_presence p db)

  -- Whether there was no error, and the log. `down 5` is a commit that was done and answers an error.
  unfoldable pub update_presence : (account : ℕ) (ref sha : Bytes) → Log → Bool × Log
  unfolding presence_tx publish presence_draft
  update_presence account ref sha l =
      let p : Presence = record {
        session_id = session;
        account_id = account;
        ref = ref;
        org_id = org;
        current_sha = sha;
        last_active_at = now;
      } in
      elim (presence_tx p l.db) [
        | none ↦ (false, l)
        | some (seq, db) ↦ if down 5 then (false, record l { db = db }) else (
          true,
          record {
            db = db;
            subs = publish ulid down now org session seq 0 (presence_draft marshal p ∷ []) l.subs;
          },
        )
      ]

-- ListEventsSince: the rows, sorted, up to the limit.
unfoldable pub rows_since : (session since : ℕ) → List Event → List Event
rows_since session since [] = []
rows_since session since (e ∷ es) =
    if (e.session_id == session) && ltb since e.seq
    then e ∷ rows_since session since es
    else rows_since session since es

unfoldable pub insert_by_seq : Event → List Event → List Event
insert_by_seq e [] = e ∷ []
insert_by_seq e (f ∷ fs) = elim (ltb f.seq e.seq) [
  | true ↦ f ∷ insert_by_seq e fs
  | false ↦ e ∷ f ∷ fs
]

unfoldable pub order_by_seq : List Event → List Event
unfolding insert_by_seq
order_by_seq [] = []
order_by_seq (e ∷ es) = insert_by_seq e (order_by_seq es)

unfoldable pub list_since : (session since limit : ℕ) → Db → List Event
unfolding rows_since order_by_seq
list_since session since limit db = take limit (order_by_seq (rows_since session since db.events))
