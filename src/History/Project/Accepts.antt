-- ===== src/History/Project/Accepts.antt =====
-- apps/api/src/modules/turns/message-history.ts: the part of `projectMessageEvent` on the inputs of the user.
use agent_waypoint.Common.{
  ℕ, Bool, ◌&&◌, List, [], ◌∷◌, Option, none, some, if◌then◌else◌, ◌==◌, find?, update_first,
  get_or, or_else,
}
use agent_waypoint.Common.Text.{Text, text_eq}
use agent_waypoint.Common.Json.{Json, obj, Fields, get, put, read_string, is_true}
use agent_waypoint.Store.{Turn, Role, Message, MessageState, InputStatus, TurnInput, Store}
use agent_waypoint.History.{
  NewMessage, create_message, message_snapshot, has_message_id, is_item, text_json,
}

abbrev pub is_input : ℕ → Text → TurnInput → Bool
is_input turn client i = i.turn_id == turn && text_eq i.client_request_id client

abbrev pub find_input : ℕ → Option Text → List TurnInput → Option TurnInput
find_input turn none inputs = none
find_input turn (some []) inputs = none
find_input turn (some (c ∷ client)) inputs = find? (is_input turn (c ∷ client)) inputs

abbrev pub adopted_message : ℕ → Text → ℕ → Message → Message
adopted_message turn item seq m = record m {
  turn_id = some turn;
  backend_item_id = some item;
  start_event_seq = some seq;
  end_event_seq = some seq;
}

abbrev pub user_message : Turn → Text → ℕ → Text → NewMessage
user_message t item seq content = record {
  session_id = t.session_id;
  role = Role.user;
  content = content;
  turn_id = some t.id;
  backend_item_id = some item;
  state = MessageState.completed;
  start_event_seq = some seq;
  end_event_seq = some seq;
  timeline_start_seq = none;
}

-- The initial prompt's message, where the event is about it; an exception if the row is gone.
unfoldable pub adopt_prompt : Turn → Text → ℕ → Fields → Store → Option (Option (Store × Message))
adopt_prompt t item seq payload db =
    if is_true (get "initial" payload)
    then elim t.user_message_id [
      | none ↦ some none
      | some id ↦ elim (find? (has_message_id id) db.messages) [
        | none ↦ none
        | some m ↦
            let adopted = adopted_message t.id item seq in
            some (
              some (
                record db { messages = update_first (has_message_id id) adopted db.messages },
                adopted m,
              ))
      ]
    ]
    else some none

abbrev pub queued_content : Option TurnInput → Text
queued_content none = []
queued_content (some i) = i.content

abbrev pub client_of : Option TurnInput → Option Text
client_of none = none
client_of (some i) = some i.client_request_id

-- The row that an accepted input of the user stands in.
unfoldable pub user_row :
    Turn → Text → ℕ → Fields → Option TurnInput → ℕ → Store → Option (Store × Message)
user_row t item seq payload input now db = elim (find? (is_item t.id item) db.messages) [
  | some m ↦ some (db, m)
  | none ↦ elim (adopt_prompt t item seq payload db) [
    | none ↦ none
    | some (some r) ↦ some r
    | some none ↦
        let content = get_or (read_string (get "content" payload)) (queued_content input) in
        some (create_message (user_message t item seq content) now db)
  ]
]

abbrev pub accepted_input : ℕ → Text → ℕ → TurnInput → TurnInput
accepted_input message item now i = record i {
  status = InputStatus.accepted;
  message_id = some message;
  backend_item_id = some item;
  accepted_at = or_else i.accepted_at (some now);
  error_message = none;
}

abbrev pub has_input_id : ℕ → TurnInput → Bool
has_input_id id i = i.id == id

abbrev pub accept_input : Option TurnInput → Message → Text → ℕ → Store → Store
accept_input none m item now db = db
accept_input (some i) m item now db = record db {
  inputs = update_first (has_input_id i.id) (accepted_input m.id item now) db.inputs;
}

unfoldable pub project_user : Turn → Text → ℕ → Fields → ℕ → Store → Option (Store × Json)
project_user t item seq payload now db =
    let input = find_input t.id (read_string (get "clientId" payload)) db.inputs in
    elim (user_row t item seq payload input now db) [
      | none ↦ none
      | some (db', m) ↦ some (
        accept_input input m item now db',
        obj (
            put "clientRequestId" (text_json (client_of input))
              (put "message" (message_snapshot m) payload)),
      )
    ]
