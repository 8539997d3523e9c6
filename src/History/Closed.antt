-- ===== src/History/Closed.antt =====
-- apps/api/src/modules/turns/message-history.ts: messages that are finished, and the end of a turn.
use mathlib.Core.Option
use mathlib.Core.Option.{Option}
use agent_waypoint.Common.{
  ℕ, ◌≡◌, ◌≢◌, refl, Bool, true, false, List, [], ◌∷◌, ◌++◌, none, some, arith, inl, inr,
  if◌then◌else◌, ◌==◌, ==_iff, find?, filter, any, update_first, update_where, All, All-filter,
  All-map, Bool-cases, Option-cases,
}
use agent_waypoint.Common.Text.{Text}
use agent_waypoint.Common.Json.{Fields}
use agent_waypoint.Store.{EventType, Turn, Message, MessageState, TurnInput, Store}
use agent_waypoint.History.{has_message_id, is_unfinished, state_eq}
use agent_waypoint.History.Project.{
  close_messages, closed_message, end_turn, is_queued_input, unconfirmed_input,
}
use agent_waypoint.History.Order.{IsBefore, IsOrdered, enqueue_message-messages}

-- The content of a message that is finished.
abbrev pub finished_content : Option Message → Option Text
finished_content none = none
finished_content (some m) = if state_eq m.state MessageState.streaming then none else some m.content

abbrev pub finished_at : ℕ → List Message → Option Text
finished_at id ms = finished_content (find? (has_message_id id) ms)

abbrev pub Stays : ℕ → Text → List Message → Type 0
Stays id s ms = finished_at id ms ≡ some s

pub find?-update_first :
    (id k : ℕ) (f : Message → Message) (ms : List Message)
    → ((x : Message) → (f x).id ≡ x.id)
    → find? (has_message_id id) (update_first (has_message_id k) f ms) ≡ (
        if k == id
        then Option.map f (find? (has_message_id id) ms)
        else find? (has_message_id id) ms)
find?-update_first id k f [] keep = ground arith
find?-update_first id k f (x ∷ ms) keep = ground (arith, keep x, find?-update_first id k f ms keep)

-- A change of another message, or of one that still streams.
pub update_open-Stays :
    (id k : ℕ) (s : Text) (f : Message → Message) (ms : List Message)
    → ((x : Message) → (f x).id ≡ x.id)
    → (finished_at k ms ≡ none)
    → Stays id s ms
    → Stays id s (update_first (has_message_id k) f ms)
update_open-Stays id k s f ms keep still h = elim (Bool-cases (k == id)) [
  | inl same ↦ absurd (ground (arith, (==_iff k id).0 same))
  | inr other ↦ rw (find?-update_first id k f ms keep, other) h
]

-- A change that leaves the content and the state alone.
pub update_mild-Stays :
    (id k : ℕ) (s : Text) (f : Message → Message) (ms : List Message)
    → ((x : Message) → (f x).id ≡ x.id)
    → ((x : Message) → finished_content (some (f x)) ≡ finished_content (some x))
    → Stays id s ms
    → Stays id s (update_first (has_message_id k) f ms)
update_mild-Stays id k s f ms keep mild h = elim (Bool-cases (k == id)) [
  | inr other ↦ rw (find?-update_first id k f ms keep, other) h
  | inl same ↦ elim (Option-cases (find? (has_message_id id) ms)) [
    | inl gone ↦ absurd (ground arith)
    | inr (x, e) ↦ rw (find?-update_first id k f ms keep, same, e, mild x) (rw e at h)
  ]
]

pub append-Stays :
    (id : ℕ) (s : Text) (ms : List Message) (row : Message)
    → Stays id s ms
    → Stays id s (ms ++ row ∷ [])
append-Stays id s [] row h = cc
append-Stays id s (x ∷ ms) row h = elim (Bool-cases (x.id == id)) [
  | inl hit ↦ rw hit (rw hit at h)
  | inr miss ↦ rw miss (append-Stays id s ms row (rw miss at h))
]

-- The loop reaches the messages of its list only.
pub close_messages-Stays :
    (t : Turn) (seq id : ℕ) (s : Text) (ms : List Message) (db : Store)
    → All (λ m. m.id ≢ id) ms
    → Stays id s db.messages
    → Stays id s (close_messages t seq ms db).0.messages
unfolding close_messages
close_messages-Stays t seq id s [] db others h = h
close_messages-Stays t seq id s (m ∷ ms) db others h =
    let changed : Store = record db {
      messages = update_first (has_message_id m.id) (closed_message seq) db.messages;
    } in
    close_messages-Stays t seq id s ms _ others.1 (
      rw (enqueue_message-messages t (closed_message seq m) changed).0
        (rw (find?-update_first id m.id (closed_message seq) db.messages (λ x. refl), other) h))
  where
    other : (m.id == id) ≡ false
    other = ground (arith, others.0)

-- A finished message is not in the list that the loop is given.
pub unfinished_others :
    (turn id : ℕ) (s : Text) (ms : List Message)
    → IsOrdered ms
    → Stays id s ms
    → All (λ m. m.id ≢ id) (filter (is_unfinished turn) ms)
unfinished_others turn id s [] v h = tt
unfinished_others turn id s (m ∷ ms) v h = elim (Bool-cases (m.id == id)) [
  | inl hit ↦
      rw (done hit)
        (All-filter _ (is_unfinished turn) ms (All-map _ _ ms (λ x b. above hit x b) v.0))
  | inr miss ↦ elim (Bool-cases (is_unfinished turn m)) [
    | inl fits ↦ rw fits (ground arith, unfinished_others turn id s ms v.1 (rw miss at h))
    | inr not_it ↦ rw not_it (unfinished_others turn id s ms v.1 (rw miss at h))
  ]
]
  where
    done : (m.id == id) ≡ true → is_unfinished turn m ≡ false
    done hit = ground arith

    above : (m.id == id) ≡ true → (x : Message) → IsBefore m x → x.id ≢ id
    above hit x b = ground (arith, b.0)

pub end_turn-Stays :
    (t : Turn) (type : EventType) (seq id : ℕ) (s : Text) (payload : Fields) (now : ℕ) (db : Store)
    → IsOrdered db.messages
    → Stays id s db.messages
    → Stays id s (end_turn t type seq payload now db).0.messages
unfolding end_turn
end_turn-Stays t type seq id s payload now db v h =
    close_messages-Stays t seq id s (filter (is_unfinished t.id) db.messages) db
      (unfinished_others t.id id s db.messages v h) h

-- The message of an identifier is not an unfinished one of the turn.
abbrev pub unfinished_at : ℕ → Option Message → Bool
unfinished_at turn none = false
unfinished_at turn (some m) = is_unfinished turn m

abbrev pub any_id : ℕ → List Message → Bool
any_id id ms = any (has_message_id id) ms

close_messages-settles :
    (t : Turn) (seq id : ℕ) (ms : List Message) (db : Store)
    → (any_id id ms ≡ false → unfinished_at t.id (find? (has_message_id id) db.messages) ≡ false)
    → unfinished_at t.id (find? (has_message_id id) (close_messages t seq ms db).0.messages) ≡ false
unfolding close_messages
close_messages-settles t seq id [] db h = h refl
close_messages-settles t seq id (m ∷ ms) db h = close_messages-settles t seq id ms _ (λ rest.
    rw
      (
        (enqueue_message-messages t (closed_message seq m) changed).0,
        find?-update_first id m.id (closed_message seq) db.messages (λ x. refl),
      )
      (step rest))
  where
    changed : Store
    changed = record db {
      messages = update_first (has_message_id m.id) (closed_message seq) db.messages;
    }

    step :
        any_id id ms ≡ false
        → unfinished_at t.id (
            if m.id == id
            then Option.map (closed_message seq) (find? (has_message_id id) db.messages)
            else find? (has_message_id id) db.messages)
          ≡ false
    step rest = elim (Bool-cases (m.id == id)) [
      | inr miss ↦ rw miss (h (rw miss rest))
      | inl hit ↦ elim (Option-cases (find? (has_message_id id) db.messages)) [
        | inl gone ↦ rw (hit, gone) refl
        | inr (x, e) ↦ rw (hit, e) (ground arith)
      ]
    ]

-- What the loop's list leaves out is not unfinished.
left_out :
    (turn id : ℕ) (ms : List Message)
    → any_id id (filter (is_unfinished turn) ms) ≡ false
    → unfinished_at turn (find? (has_message_id id) ms) ≡ false
left_out turn id [] h = refl
left_out turn id (m ∷ ms) h = ground (arith, left_out turn id ms)

any-update_where_gone :
    (turn : ℕ) (inputs : List TurnInput)
    → any (is_queued_input turn) (update_where (is_queued_input turn) unconfirmed_input inputs)
      ≡ false
any-update_where_gone turn [] = refl
any-update_where_gone turn (i ∷ inputs) = elim (Bool-cases (is_queued_input turn i)) [
  | inl hit ↦ rw hit (ground (arith, any-update_where_gone turn inputs))
  | inr miss ↦ rw (miss, miss) (any-update_where_gone turn inputs)
]

-- After the end of a turn, no identifier stands for a message of the assistant of that turn that still streams,
-- and none of the turn's inputs is still queued.
pub end_turn-settles :
    (t : Turn) (type : EventType) (seq : ℕ) (payload : Fields) (now : ℕ) (db : Store)
    → ((id : ℕ)
        → unfinished_at t.id
            (find? (has_message_id id) (end_turn t type seq payload now db).0.messages)
          ≡ false)
      × (any (is_queued_input t.id) (end_turn t type seq payload now db).0.inputs ≡ false)
unfolding end_turn
end_turn-settles t type seq payload now db =
    let unfinished = filter (is_unfinished t.id) db.messages in
    (
      λ id. close_messages-settles t seq id unfinished db (left_out t.id id db.messages),
      any-update_where_gone t.id (close_messages t seq unfinished db).0.inputs,
    )
