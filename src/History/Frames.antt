-- ===== src/History/Frames.antt =====
-- apps/api/src/modules/turns/message-history.ts: the tables that the projection of an event leaves alone.
use agent_waypoint.Common.{
  ℕ, ◌≡◌, refl, ap, ◌∙◌, Bool, true, false, ◌||◌, List, [], ◌∷◌, Option, none, some, arith, inl,
  inr, if◌then◌else◌, ◌==◌, find?, any, update_first, Bool-cases, Option-cases, get_or, filter,
}
use agent_waypoint.Common.Text.{Text}
use agent_waypoint.Common.Json.{Json, Fields, get, read_string, is_true}
use agent_waypoint.Store.{
  EventType, TurnStatus, Turn, Message, TurnInput, Store, find_turn, turn_has_id,
}
use agent_waypoint.History.{
  create_message, enqueue_message, is_blank, is_for_message, is_item, has_message_id, is_unfinished,
}
use agent_waypoint.History.Project.{
  Kind, kind_of, close_messages, closed_message, end_turn, adopt_prompt, adopted_message,
  user_message, user_row, accept_input, project_user, grown_message, item_row, grow_item,
  is_finished, version_two, project_assistant, item_of, project_kind, is_other, project, find_input,
  queued_content, is_completion,
}

-- The events and the turns of one store are those of another.
pub record SameRows (db db' : Store) : Type 0 where
  pub events : db'.events ≡ db.events
  pub turns : db'.turns ≡ db.turns

SameRows-refl : (db : Store) → SameRows db db
SameRows-refl db = record { events = refl; turns = refl }

SameRows-trans : {a b c : Store} → SameRows a b → SameRows b c → SameRows a c
SameRows-trans h k = record { events = k.events ∙ h.events; turns = k.turns ∙ h.turns }

enqueue_message-SameRows :
    (t : Turn) (m : Message) (db : Store) → SameRows db (enqueue_message t m db)
unfolding enqueue_message
enqueue_message-SameRows t m db =
    elim (Bool-cases (is_blank m.content || any (is_for_message m.id) db.bot_messages)) [
      | inl skip ↦ rw (skip, enqueue_message) (SameRows-refl db)
      | inr send ↦ rw (send, enqueue_message) (record { events = refl; turns = refl })
    ]

pub close_messages-SameRows :
    (t : Turn) (seq : ℕ) (ms : List Message) (db : Store)
    → SameRows db (close_messages t seq ms db).0
unfolding close_messages
close_messages-SameRows t seq [] db = SameRows-refl db
close_messages-SameRows t seq (m ∷ ms) db =
    let changed : Store = record db {
      messages = update_first (has_message_id m.id) (closed_message seq) db.messages;
    } in
    let queued = enqueue_message-SameRows t (closed_message seq m) changed in
    let rest =
      close_messages-SameRows t seq ms (enqueue_message t (closed_message seq m) changed) in
    record { events = rest.events ∙ queued.events; turns = rest.turns ∙ queued.turns }

end_turn-events :
    (t : Turn) (type : EventType) (seq : ℕ) (payload : Fields) (now : ℕ) (db : Store)
    → (end_turn t type seq payload now db).0.events ≡ db.events
unfolding end_turn
end_turn-events t type seq payload now db =
    (close_messages-SameRows t seq (filter (is_unfinished t.id) db.messages) db).events

adopt_prompt-SameRows :
    (t : Turn) (item : Text) (seq : ℕ) (payload : Fields) (db : Store) {r : Store × Message}
    → adopt_prompt t item seq payload db ≡ some (some r)
    → SameRows db r.0
unfolding adopt_prompt
adopt_prompt-SameRows t item seq payload db {r} e =
    elim (Bool-cases (is_true (get "initial" payload))) [
      | inr later ↦ cc
      | inl initial ↦ elim (Option-cases t.user_message_id) [
        | inl nobody ↦ cc
        | inr (id, known) ↦ elim (Option-cases (find? (has_message_id id) db.messages)) [
          | inl gone ↦ cc
          | inr (m, found) ↦
              let changed : Store = record db {
                messages =
                    update_first (has_message_id id) (adopted_message t.id item seq) db.messages;
              } in
              let same : changed ≡ r.0 = cc in rw (← same) (record { events = refl; turns = refl })
        ]
      ]
    ]

user_row-SameRows :
    (t : Turn) (item : Text) (seq : ℕ) (payload : Fields) (input : Option TurnInput) (now : ℕ)
    (db : Store) {r : Store × Message}
    → user_row t item seq payload input now db ≡ some r
    → SameRows db r.0
unfolding user_row create_message
user_row-SameRows t item seq payload input now db {r} e =
    elim (Option-cases (find? (is_item t.id item) db.messages)) [
      | inr (m, found) ↦ let same : db ≡ r.0 = cc in rw (← same) (SameRows-refl db)
      | inl new ↦ elim (Option-cases (adopt_prompt t item seq payload db)) [
        | inl fails ↦ cc
        | inr (some r', adopted) ↦
            let same : r' ≡ r = cc in
            rw (← same) (adopt_prompt-SameRows t item seq payload db adopted)
        | inr (none, no_prompt) ↦
            let content = get_or (read_string (get "content" payload)) (queued_content input) in
            let same : create_message (user_message t item seq content) now db ≡ r = cc in
            rw (← same) (record { events = refl; turns = refl })
      ]
    ]

accept_input-SameRows :
    (input : Option TurnInput) (m : Message) (item : Text) (now : ℕ) (db : Store)
    → SameRows db (accept_input input m item now db)
accept_input-SameRows none m item now db = SameRows-refl db
accept_input-SameRows (some i) m item now db = record { events = refl; turns = refl }

pub project_user-SameRows :
    (t : Turn) (item : Text) (seq : ℕ) (payload : Fields) (now : ℕ) (db : Store) {r : Store × Json}
    → project_user t item seq payload now db ≡ some r
    → SameRows db r.0
unfolding project_user
project_user-SameRows t item seq payload now db {r} e =
    let input = find_input t.id (read_string (get "clientId" payload)) db.inputs in
    elim (Option-cases (user_row t item seq payload input now db)) [
      | inl fails ↦ cc
      | inr ((db', m), row) ↦
          let same : accept_input input m item now db' ≡ r.0 = cc in
          rw (← same) (
            SameRows-trans (user_row-SameRows t item seq payload input now db row)
              (accept_input-SameRows input m item now db'))
    ]

item_row-SameRows :
    (t : Turn) (item : Text) (seq now : ℕ) (db : Store) → SameRows db (item_row t item seq now db).0
unfolding create_message
item_row-SameRows t item seq now db = elim (Option-cases (find? (is_item t.id item) db.messages)) [
  | inr (m, found) ↦ rw (found, item_row) (SameRows-refl db)
  | inl new ↦ rw (new, item_row) (record { events = refl; turns = refl })
]

enqueue_if-SameRows :
    (b : Bool) (t : Turn) (m : Message) (db : Store)
    → SameRows db (if b then enqueue_message t m db else db)
enqueue_if-SameRows true t m db = enqueue_message-SameRows t m db
enqueue_if-SameRows false t m db = SameRows-refl db

grow_item-SameRows :
    (t : Turn) (type : EventType) (item : Text) (seq : ℕ) (payload : Fields) (now : ℕ) (db : Store)
    → SameRows db (grow_item t type item seq payload now db).0
unfolding grow_item
grow_item-SameRows t type item seq payload now db =
    let row = item_row t item seq now db in
    let same = item_row-SameRows t item seq now db in
    let written : Store = record row.0 {
      messages =
          update_first (has_message_id row.1.id) (grown_message type seq payload) row.0.messages;
    } in
    let told =
      enqueue_if-SameRows (is_completion type) t (grown_message type seq payload row.1) written in
    record { events = told.events ∙ same.events; turns = told.turns ∙ same.turns }

-- An event of an item of the assistant changes of the turns only the version of its own.
pub project_assistant-rows :
    (t : Turn) (type : EventType) (item : Text) (seq : ℕ) (payload : Fields) (now : ℕ) (db : Store)
    → SameRows
        (record db { turns = update_first (turn_has_id t.id) version_two db.turns })
        (project_assistant t type item seq payload now db).0
unfolding project_assistant
project_assistant-rows t type item seq payload now db =
    let db' : Store = record db { turns = update_first (turn_has_id t.id) version_two db.turns } in
    elim (Bool-cases (is_finished (find? (is_item t.id item) db.messages))) [
      | inl over ↦ rw (over, project_assistant) (SameRows-refl db')
      | inr open_ ↦
          rw (open_, project_assistant) (grow_item-SameRows t type item seq payload now db')
    ]

module _ (turn seq : ℕ) (type : EventType) (payload : Fields) (now : ℕ) (db : Store) where
  project_kind-events :
      (kind : Kind) (t : Turn) {r : Store × Json}
      → project_kind kind t type seq payload now db ≡ some r
      → r.0.events ≡ db.events
  unfolding project_kind
  project_kind-events Kind.other t {r} e = let same : db ≡ r.0 = cc in rw (← same) refl
  project_kind-events Kind.turn_end t {r} e = elim (Bool-cases (t.history_version == 2)) [
    | inl two ↦
        let same : end_turn t type seq payload now db ≡ r = cc in
        rw (← same) (end_turn-events t type seq payload now db)
    | inr one ↦ let same : db ≡ r.0 = cc in rw (← same) refl
  ]
  project_kind-events Kind.user_item t {r} e = elim (Option-cases (item_of payload)) [
    | inl gone ↦ cc
    | inr (item, there) ↦
        (project_user-SameRows t item seq payload now db (rw (there, project_kind) at e)).events
  ]
  project_kind-events Kind.assistant_item t {r} e = elim (Option-cases (item_of payload)) [
    | inl gone ↦ cc
    | inr (item, there) ↦
        let same : project_assistant t type item seq payload now db ≡ r = cc in
        rw (← same) (project_assistant-rows t type item seq payload now db).events
  ]

  -- The projection of an event leaves the events alone.
  pub project-events :
      {r : Store × Json} → project turn seq type payload now db ≡ some r → r.0.events ≡ db.events
  unfolding project
  project-events {r} e = elim (Bool-cases (is_other (kind_of type payload))) [
    | inl nothing ↦ let same : db ≡ r.0 = cc in rw (← same) refl
    | inr some_ ↦ elim (Option-cases (find_turn turn db)) [
      | inl gone ↦ cc
      | inr (t, found) ↦ project_kind-events (kind_of type payload) t {r = r} cc
    ]
  ]

abbrev pub ends : Kind → Bool
ends Kind.turn_end = true
ends _ = false

abbrev pub status_of : Option Turn → Option TurnStatus
status_of none = none
status_of (some t) = some t.status

-- The status of a turn, where it is there.
abbrev pub status_at : ℕ → List Turn → Option TurnStatus
status_at id ts = status_of (find? (turn_has_id id) ts)

abbrev pub SameStatus : List Turn → List Turn → Type 0
SameStatus ts us = (id : ℕ) → status_at id us ≡ status_at id ts

pub update_first-SameStatus :
    (p : Turn → Bool) (f : Turn → Turn) (ts : List Turn)
    → ((t : Turn) → (f t).id ≡ t.id)
    → ((t : Turn) → p t ≡ true → (f t).status ≡ t.status)
    → SameStatus ts (update_first p f ts)
update_first-SameStatus p f [] h k id = refl
update_first-SameStatus p f (t ∷ ts) h k id =
    ground (arith, h t, k t, update_first-SameStatus p f ts h k id)

module _ (turn seq : ℕ) (type : EventType) (payload : Fields) (now : ℕ) (db : Store) where
  project_kind-SameStatus :
      (kind : Kind) (t : Turn) {r : Store × Json}
      → ends kind ≡ false
      → project_kind kind t type seq payload now db ≡ some r
      → SameStatus db.turns r.0.turns
  unfolding project_kind
  project_kind-SameStatus Kind.other t {r} h e id = let same : db ≡ r.0 = cc in rw (← same) refl
  project_kind-SameStatus Kind.turn_end t {r} h e id = absurd cc
  project_kind-SameStatus Kind.user_item t {r} h e id = elim (Option-cases (item_of payload)) [
    | inl gone ↦ cc
    | inr (item, there) ↦
        ap (status_at id)
          (project_user-SameRows t item seq payload now db (rw (there, project_kind) at e)).turns
  ]
  project_kind-SameStatus Kind.assistant_item t {r} h e id = elim (Option-cases (item_of payload)) [
    | inl gone ↦ cc
    | inr (item, there) ↦
        let same : project_assistant t type item seq payload now db ≡ r = cc in
        rw (← same) (
          ap (status_at id) (project_assistant-rows t type item seq payload now db).turns
          ∙ update_first-SameStatus (turn_has_id t.id) version_two db.turns (λ x. refl)
              (λ x hit. refl) id)
  ]

  -- The projection of an event that does not end its turn leaves the status of all turns as it is.
  pub project-SameStatus :
      {r : Store × Json}
      → ends (kind_of type payload) ≡ false
      → project turn seq type payload now db ≡ some r
      → SameStatus db.turns r.0.turns
  unfolding project
  project-SameStatus {r} h e id = elim (Bool-cases (is_other (kind_of type payload))) [
    | inl nothing ↦ let same : db ≡ r.0 = cc in rw (← same) refl
    | inr some_ ↦ elim (Option-cases (find_turn turn db)) [
      | inl gone ↦ cc
      | inr (t, found) ↦
          let here : project_kind (kind_of type payload) t type seq payload now db ≡ some r = cc in
          project_kind-SameStatus (kind_of type payload) t {r = r} h here id
    ]
  ]
