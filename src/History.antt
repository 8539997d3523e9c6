-- ===== src/History.antt =====
-- apps/api/src/modules/turns/message-history.ts: the messages of a session, as the ordered events of its
-- turns make them. A transaction is a function on the store; `none` is an exception, which undoes it.
pub mod Project
pub mod Order
pub mod Closed
pub mod Keeps
pub mod Frames
use agent_waypoint.Common.{
  ℕ, suc, ◌+◌, Bool, true, false, not, ◌&&◌, ◌||◌, List, [], ◌∷◌, ◌++◌, Option, none, some,
  if◌then◌else◌, ◌==◌, max, find?, any, filter, update_first, update_where, get_or, is_some,
}
use agent_waypoint.Common.Text.{Text, text, text_eq, trim}
use agent_waypoint.Common.Json.{
  Json, null, bool, num, str, date, arr, obj, Items, nil, cons, Fields, end, field, get, put,
  remove, spread, read_string, is_true, whole,
}
use agent_waypoint.Store.{
  TurnStatus, EventType, Turn, Role, Message, MessageState, InputStatus, TurnInput, BotKind,
  BotMessage, Store, find_turn, turn_has_id,
}

abbrev pub in_session : ℕ → Message → Bool
in_session session m = m.session_id == session

-- `_max: { historySeq: true }`, 0 where there is none.
abbrev pub max_history_seq : ℕ → List Message → ℕ
max_history_seq session [] = 0
max_history_seq session (m ∷ ms) =
    if in_session session m
    then max m.history_seq (max_history_seq session ms)
    else max_history_seq session ms

-- The columns that a new message is given; the others have the schema's defaults.
pub record NewMessage : Type 0 where
  pub session_id : ℕ
  pub role : Role
  pub content : Text
  pub turn_id : Option ℕ
  pub backend_item_id : Option Text
  pub state : MessageState
  pub start_event_seq : Option ℕ
  pub end_event_seq : Option ℕ
  pub timeline_start_seq : Option ℕ

-- `createHistoryMessage`.
abbrev pub message_row : NewMessage → ℕ → ℕ → ℕ → Message
message_row m id now seq = record {
  id = id;
  session_id = m.session_id;
  role = m.role;
  content = m.content;
  created_at = now;
  turn_id = m.turn_id;
  backend_item_id = m.backend_item_id;
  history_seq = seq;
  state = m.state;
  phase = none;
  start_event_seq = m.start_event_seq;
  end_event_seq = m.end_event_seq;
  timeline_start_seq = m.timeline_start_seq;
}

unfoldable pub create_message : NewMessage → ℕ → Store → Store × Message
create_message m now db =
    let row = message_row m db.next_id now (max_history_seq m.session_id db.messages + 1) in
    (record db { messages = db.messages ++ row ∷ []; next_id = suc db.next_id }, row)

abbrev pub count_json : Option ℕ → Json
count_json none = null
count_json (some n) = whole n

abbrev pub text_json : Option Text → Json
text_json none = null
text_json (some s) = str s

abbrev pub role_json : Role → Json
role_json Role.user = str (text "user")
role_json Role.assistant = str (text "assistant")

abbrev pub state_json : MessageState → Json
state_json MessageState.completed = str (text "completed")
state_json MessageState.streaming = str (text "streaming")
state_json MessageState.interrupted = str (text "interrupted")

-- `messageSnapshot`; identifiers stand as numbers.
unfoldable pub message_snapshot : Message → Json
message_snapshot m = obj (
    field "id" (whole m.id) (
      field "sessionId" (whole m.session_id) (
        field "role" (role_json m.role) (
          field "content" (str m.content) (
            field "tokenCount" null (
              field "createdAt" (date m.created_at) (
                field "turnId" (count_json m.turn_id) (
                  field "backendItemId" (text_json m.backend_item_id) (
                    field "historySeq" (whole m.history_seq) (
                      field "state" (state_json m.state) (
                        field "phase" (text_json m.phase) (
                          field "startEventSeq" (count_json m.start_event_seq) (
                            field "endEventSeq" (count_json m.end_event_seq) (
                              field "timelineStartSeq" (count_json m.timeline_start_seq)
                                end))))))))))))))

abbrev pub is_blank : Text → Bool
is_blank s = elim (trim s) [ [] ↦ true | c ∷ r ↦ false ]

abbrev pub is_for_message : ℕ → BotMessage → Bool
is_for_message id b = elim b.message_id [ none ↦ false | some m ↦ m == id ]

-- The outbox row of a message of the assistant.
abbrev pub outbox_row : Turn → Message → BotMessage
outbox_row t m = record {
  project_id = t.project_id;
  session_id = t.session_id;
  kind = BotKind.turn_message;
  event_id = none;
  message_id = some m.id;
  payload = obj (
      field "turnId" (whole t.id) (
        field "messageId" (whole m.id) (
          field "scope" (str (text "assistant_message")) (
            field "phase" (text_json m.phase) (
              field "state" (state_json m.state) (
                field "historySeq" (whole m.history_seq) (
                  field "triggerIdentifier" (str t.trigger_identifier) (
                    field "triggerProvider" (text_json t.trigger_provider) (
                      field "triggerIntegrationId" (text_json t.trigger_integration_id) (
                        field "triggerMessageId" (text_json t.trigger_message_id)
                          (field "content" (str m.content) end)))))))))));
}

-- `enqueueAssistantMessage`: a blank message is not sent, and none is sent twice.
unfoldable pub enqueue_message : Turn → Message → Store → Store
enqueue_message t m db =
    if is_blank m.content || any (is_for_message m.id) db.bot_messages
    then db
    else record db { bot_messages = db.bot_messages ++ outbox_row t m ∷ [] }

abbrev pub has_message_id : ℕ → Message → Bool
has_message_id id m = m.id == id

abbrev pub state_eq : MessageState → MessageState → Bool
state_eq MessageState.completed MessageState.completed = true
state_eq MessageState.streaming MessageState.streaming = true
state_eq MessageState.interrupted MessageState.interrupted = true
state_eq _ _ = false

abbrev pub role_eq : Role → Role → Bool
role_eq Role.user Role.user = true
role_eq Role.assistant Role.assistant = true
role_eq _ _ = false

abbrev pub of_turn : ℕ → Option ℕ → Bool
of_turn turn none = false
of_turn turn (some t) = t == turn

abbrev pub has_item : Text → Option Text → Bool
has_item item none = false
has_item item (some i) = text_eq i item

-- The unique key of a turn and an item.
abbrev pub is_item : ℕ → Text → Message → Bool
is_item turn item m = of_turn turn m.turn_id && has_item item m.backend_item_id

-- `where: { turnId, role: 'assistant', state: 'streaming' }`.
abbrev pub is_unfinished : ℕ → Message → Bool
is_unfinished turn m =
    of_turn turn m.turn_id
    && role_eq m.role Role.assistant
    && state_eq m.state MessageState.streaming
