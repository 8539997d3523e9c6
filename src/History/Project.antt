-- ===== src/History/Project.antt =====
-- apps/api/src/modules/turns/message-history.ts: `projectMessageEvent`.
mod Ends
mod Accepts
mod Grows
unfoldable pub use Ends.*
unfoldable pub use Accepts.*
unfoldable pub use Grows.*
use agent_waypoint.Common.{
  ℕ, Bool, true, false, not, ◌&&◌, List, [], ◌∷◌, ◌++◌, Option, none, some, if◌then◌else◌, ◌==◌,
  max, find?, filter, update_first, update_where, get_or, is_some, or_else,
}
use agent_waypoint.Common.Text.{Text, text, text_eq}
use agent_waypoint.Common.Json.{
  Json, null, bool, str, arr, obj, Items, nil, cons, Fields, end, field, get, put, remove,
  read_string, is_true, whole,
}
use agent_waypoint.Store.{
  TurnStatus, EventType, Turn, Role, Message, MessageState, InputStatus, TurnInput, Store,
  find_turn, turn_has_id,
}
use agent_waypoint.History.{
  NewMessage, create_message, message_snapshot, enqueue_message, has_message_id, state_eq, role_eq,
  of_turn, is_item, is_unfinished, text_json,
}

-- What an event is about: nothing here, a message of the assistant or of the user, or the end of the turn.
pub data Kind : Type 0 where
  other assistant_item user_item turn_end : Kind

unfoldable pub kind_of : EventType → Fields → Kind
kind_of EventType.assistant_message_started payload = Kind.assistant_item
kind_of EventType.assistant_message_completed payload = Kind.assistant_item
kind_of EventType.assistant_delta payload =
    if is_some (read_string (get "itemId" payload)) then Kind.assistant_item else Kind.other
kind_of EventType.user_message_accepted payload = Kind.user_item
kind_of EventType.turn_completed payload = Kind.turn_end
kind_of EventType.turn_failed payload = Kind.turn_end
kind_of EventType.turn_cancelled payload = Kind.turn_end
kind_of _ payload = Kind.other

-- The item of the event; an event without one is an exception.
abbrev pub item_of : Fields → Option Text
item_of payload = elim (read_string (get "itemId" payload)) [
  | none ↦ none
  | some [] ↦ none
  | some (c ∷ item) ↦ some (c ∷ item)
]

unfoldable pub project_kind :
    Kind → Turn → EventType → ℕ → Fields → ℕ → Store → Option (Store × Json)
project_kind Kind.other t type seq payload now db = some (db, obj payload)
project_kind Kind.turn_end t type seq payload now db =
    if t.history_version == 2
    then some (end_turn t type seq payload now db)
    else some (db, obj payload)
project_kind Kind.user_item t type seq payload now db = elim (item_of payload) [
  | none ↦ none
  | some item ↦ project_user t item seq payload now db
]
project_kind Kind.assistant_item t type seq payload now db = elim (item_of payload) [
  | none ↦ none
  | some item ↦ some (project_assistant t type item seq payload now db)
]

abbrev pub is_other : Kind → Bool
is_other Kind.other = true
is_other _ = false

-- `projectMessageEvent`.
unfoldable pub project : ℕ → ℕ → EventType → Fields → ℕ → Store → Option (Store × Json)
project turn seq type payload now db =
    let kind = kind_of type payload in
    if is_other kind then some (db, obj payload) else elim (find_turn turn db) [
      | none ↦ none
      | some t ↦ project_kind kind t type seq payload now db
    ]
