-- ===== src/History/Order.antt =====
-- apps/api/src/modules/turns/message-history.ts: the numbers that the messages of a session carry.
use agent_waypoint.Common.{
  ℕ, ◌+◌, ◌≤◌, ◌<◌, ◌≡◌, Bool, List, [], ◌∷◌, ◌++◌, some, arith, inl, inr, ◌==◌, find?,
  update_first, All, All-append, All-map, All-update_first_each, Bool-cases,
}
use agent_waypoint.Store.{Turn, Message, Store}
use agent_waypoint.History.{
  NewMessage, create_message, message_row, max_history_seq, has_message_id, enqueue_message,
}

abbrev pub IsBefore : Message → Message → Type 0
IsBefore m n = (m.id < n.id) × (m.session_id ≡ n.session_id → m.history_seq < n.history_seq)

abbrev pub IsOrdered : List Message → Type 0
IsOrdered [] = Unit
IsOrdered (m ∷ ms) = All (IsBefore m) ms × IsOrdered ms

-- A later message of a session has a greater number, and no identifier is used twice.
pub record IsHistory (db : Store) : Type 0 where
  pub ordered : IsOrdered db.messages
  pub fresh : All (λ m. m.id < db.next_id) db.messages

pub append-IsOrdered :
    (ms : List Message) (row : Message)
    → IsOrdered ms
    → All (λ m. IsBefore m row) ms
    → IsOrdered (ms ++ row ∷ [])
append-IsOrdered [] row v h = (tt, tt)
append-IsOrdered (m ∷ ms) row v h =
    (All-append (IsBefore m) ms (row ∷ []) v.0 (h.0, tt), append-IsOrdered ms row v.1 h.1)

pub max_history_seq-le :
    (session : ℕ) (ms : List Message)
    → All (λ m. m.session_id ≡ session → m.history_seq ≤ max_history_seq session ms) ms
max_history_seq-le session [] = tt
max_history_seq-le session (m ∷ ms) = (
  λ own. ground arith,
  All-map _ _ ms (λ x h own. ground (arith, h own)) (max_history_seq-le session ms),
)

module _ (f : Message → Message) (keep_id : (x : Message) → (f x).id ≡ x.id)
    (keep_session : (x : Message) → (f x).session_id ≡ x.session_id)
    (keep_seq : (x : Message) → (f x).history_seq ≡ x.history_seq) where
  IsBefore-change : (m x : Message) → IsBefore m x → IsBefore m (f x)
  IsBefore-change m x h = rw (keep_id x, keep_session x, keep_seq x) h

  change-IsBefore : (m x : Message) → IsBefore m x → IsBefore (f m) x
  change-IsBefore m x h = rw (keep_id m, keep_session m, keep_seq m) h

  pub update_first-IsOrdered :
      (q : Message → Bool) (ms : List Message) → IsOrdered ms → IsOrdered (update_first q f ms)
  update_first-IsOrdered q [] v = tt
  update_first-IsOrdered q (m ∷ ms) v = elim (Bool-cases (q m)) [
    | inl hit ↦ rw hit (All-map _ _ ms (change-IsBefore m) v.0, v.1)
    | inr miss ↦ rw miss (
      All-update_first_each (IsBefore m) q f ms (IsBefore-change m) v.0,
      update_first-IsOrdered q ms v.1,
    )
  ]

  pub update_first-IsHistory :
      (q : Message → Bool) (db db' : Store)
      → db'.messages ≡ update_first q f db.messages
      → db'.next_id ≡ db.next_id
      → IsHistory db
      → IsHistory db'
  update_first-IsHistory q db db' rows ids v = record {
    ordered = rw rows (update_first-IsOrdered q db.messages v.ordered);
    fresh =
        rw (rows, ids) (All-update_first_each _ q f db.messages (λ x h. rw (keep_id x) h) v.fresh);
  }

-- Only the messages and the next identifier matter.
pub same_messages-IsHistory :
    (db db' : Store)
    → db'.messages ≡ db.messages
    → db'.next_id ≡ db.next_id
    → IsHistory db
    → IsHistory db'
same_messages-IsHistory db db' rows ids v = record {
  ordered = rw rows v.ordered;
  fresh = rw (rows, ids) v.fresh;
}

pub create_message-IsHistory :
    (m : NewMessage) (now : ℕ) (db : Store) → IsHistory db → IsHistory (create_message m now db).0
unfolding create_message
create_message-IsHistory m now db v =
    let row = message_row m db.next_id now (max_history_seq m.session_id db.messages + 1) in
    record {
      ordered = append-IsOrdered db.messages row v.ordered (
          before_row db.messages (max_history_seq m.session_id db.messages) v.fresh
            (max_history_seq-le m.session_id db.messages));
      fresh =
          All-append _ db.messages (row ∷ []) (All-map _ _ db.messages (λ x h. omega arith) v.fresh)
            (omega arith, tt);
    }
  where
    before_row :
        (ms : List Message) (top : ℕ)
        → All (λ x. x.id < db.next_id) ms
        → All (λ x. x.session_id ≡ m.session_id → x.history_seq ≤ top) ms
        → All (λ x. IsBefore x (message_row m db.next_id now (top + 1))) ms
    before_row [] top h k = tt
    before_row (x ∷ ms) top h k = ((h.0, λ own. omega (arith, k.0 own)), before_row ms top h.1 k.1)

pub enqueue_message-messages :
    (t : Turn) (m : Message) (db : Store)
    → ((enqueue_message t m db).messages ≡ db.messages)
      × ((enqueue_message t m db).next_id ≡ db.next_id)
unfolding enqueue_message
enqueue_message-messages t m db = ground arith

-- What a search finds is what its identifier finds.
pub found_by_id :
    (p : Message → Bool) (ms : List Message) {m : Message}
    → IsOrdered ms
    → find? p ms ≡ some m
    → find? (has_message_id m.id) ms ≡ some m
found_by_id p [] v e = cc
found_by_id p (x ∷ ms) {m} v e = elim (Bool-cases (p x)) [
  | inl hit ↦ let same : x ≡ m = ground arith in rw (← same) (ground arith)
  | inr miss ↦
      let later = found_by_id p ms v.1 (rw miss at e) in
      let above = id_above x ms v.0 later in ground arith
]
  where
    id_above :
        (x : Message) (ms : List Message) {m : Message}
        → All (IsBefore x) ms
        → find? (has_message_id m.id) ms ≡ some m
        → x.id < m.id
    id_above x [] h e = cc
    id_above x (y ∷ ms) {m} h e = elim (Bool-cases (y.id == m.id)) [
      | inl hit ↦ ground (arith, h.0.0)
      | inr miss ↦ id_above x ms h.1 (rw miss at e)
    ]
