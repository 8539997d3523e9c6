-- ===== src/History/Project/Grows.antt =====
-- apps/api/src/modules/turns/message-history.ts: the part of `projectMessageEvent` on the items of the assistant.
use agent_waypoint.Common.{
  ℕ, Bool, true, false, not, ◌&&◌, List, [], ◌∷◌, ◌++◌, Option, none, some, if◌then◌else◌, max,
  find?, update_first, get_or, is_some, or_else,
}
use agent_waypoint.Common.Text.{Text}
use agent_waypoint.Common.Json.{
  Json, null, bool, str, obj, Fields, end, field, get, put, read_string, whole,
}
use agent_waypoint.Store.{EventType, Turn, Role, Message, MessageState, Store, turn_has_id}
use agent_waypoint.History.{
  NewMessage, create_message, message_snapshot, enqueue_message, has_message_id, state_eq, role_eq,
  of_turn, is_item,
}

-- The greatest `endEventSeq` of the turn's messages of the assistant, 0 where there is none.
abbrev pub last_end : ℕ → List Message → ℕ
last_end turn [] = 0
last_end turn (m ∷ ms) =
    if of_turn turn m.turn_id && role_eq m.role Role.assistant
    then max (get_or m.end_event_seq 0) (last_end turn ms)
    else last_end turn ms

abbrev pub assistant_message : Turn → Text → ℕ → ℕ → NewMessage
assistant_message t item seq previous = record {
  session_id = t.session_id;
  role = Role.assistant;
  content = [];
  turn_id = some t.id;
  backend_item_id = some item;
  state = MessageState.streaming;
  start_event_seq = some seq;
  end_event_seq = none;
  timeline_start_seq = some previous;
}

abbrev pub is_completion : EventType → Bool
is_completion EventType.assistant_message_completed = true
is_completion _ = false

abbrev pub is_delta : EventType → Bool
is_delta EventType.assistant_delta = true
is_delta _ = false

-- What an event writes into its message.
abbrev pub grown_message : EventType → ℕ → Fields → Message → Message
grown_message type seq payload m =
    let chunk = get_or (read_string (get "text" payload)) [] in
    record m {
      content =
          if is_completion type
          then chunk
          else (if is_delta type then m.content ++ chunk else m.content);
      phase = or_else (read_string (get "phase" payload)) m.phase;
      state = if is_completion type then MessageState.completed else m.state;
      end_event_seq = if is_completion type then some seq else m.end_event_seq;
    }

abbrev pub item_row : Turn → Text → ℕ → ℕ → Store → Store × Message
item_row t item seq now db = elim (find? (is_item t.id item) db.messages) [
  | some m ↦ (db, m)
  | none ↦ create_message (assistant_message t item seq (last_end t.id db.messages)) now db
]

unfoldable pub grow_item : Turn → EventType → Text → ℕ → Fields → ℕ → Store → Store × Json
grow_item t type item seq payload now db =
    let known = is_some (find? (is_item t.id item) db.messages) in
    let (db', m) = item_row t item seq now db in
    let grown = grown_message type seq payload m in
    let written = record db' {
      messages = update_first (has_message_id m.id) (grown_message type seq payload) db'.messages;
    } in
    let told = put "messageId" (whole m.id) payload in
    (
      if is_completion type then enqueue_message t grown written else written,
      obj (if known && is_delta type then told else put "message" (message_snapshot grown) told),
    )

abbrev pub is_finished : Option Message → Bool
is_finished none = false
is_finished (some m) = not (state_eq m.state MessageState.streaming)

abbrev pub ignored_payload : Text → Option Message → Json
ignored_payload item none = null
ignored_payload item (some m) =
    obj
      (field "itemId" (str item) (field "messageId" (whole m.id) (field "ignored" (bool true) end)))

abbrev pub version_two : Turn → Turn
version_two t = record t { history_version = 2 }

-- An item that is finished never opens again.
unfoldable pub project_assistant : Turn → EventType → Text → ℕ → Fields → ℕ → Store → Store × Json
project_assistant t type item seq payload now db =
    let db' = record db { turns = update_first (turn_has_id t.id) version_two db.turns } in
    let existing = find? (is_item t.id item) db.messages in
    if is_finished existing
    then (db', ignored_payload item existing)
    else grow_item t type item seq payload now db'
