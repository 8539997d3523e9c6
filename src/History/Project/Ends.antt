-- ===== src/History/Project/Ends.antt =====
-- apps/api/src/modules/turns/message-history.ts: the part of `projectMessageEvent` on the end of a turn.
use agent_waypoint.Common.{
  ℕ, Bool, true, false, ◌&&◌, List, [], ◌∷◌, some, if◌then◌else◌, ◌==◌, filter, update_first,
  update_where, get_or,
}
use agent_waypoint.Common.Text.{text}
use agent_waypoint.Common.Json.{
  Json, arr, obj, Items, nil, cons, Fields, get, put, remove, read_string, whole,
}
use agent_waypoint.Store.{
  TurnStatus, EventType, Turn, Message, MessageState, InputStatus, TurnInput, Store, turn_has_id,
}
use agent_waypoint.History.{message_snapshot, enqueue_message, has_message_id, is_unfinished}

-- `event.type.slice(5)` of an event that ends a turn.
abbrev pub end_status : EventType → TurnStatus
end_status EventType.turn_completed = TurnStatus.completed
end_status EventType.turn_cancelled = TurnStatus.cancelled
end_status _ = TurnStatus.failed

abbrev pub closed_message : ℕ → Message → Message
closed_message seq m = record m { state = MessageState.interrupted; end_event_seq = some seq }

-- The loop over the unfinished messages.
unfoldable pub close_messages : Turn → ℕ → List Message → Store → Store × Items
close_messages t seq [] db = (db, nil)
close_messages t seq (m ∷ ms) db =
    let closed = closed_message seq m in
    let db' = enqueue_message t closed (record db {
      messages = update_first (has_message_id m.id) (closed_message seq) db.messages;
    }) in
    let rest = close_messages t seq ms db' in (rest.0, cons (message_snapshot closed) rest.1)

abbrev pub is_queued_input : ℕ → TurnInput → Bool
is_queued_input turn i =
    i.turn_id == turn && elim i.status [ InputStatus.queued ↦ true | _ ↦ false ]

abbrev pub unconfirmed_input : TurnInput → TurnInput
unconfirmed_input i = record i {
  status = InputStatus.unconfirmed;
  error_message = some (text "Turn ended before input acceptance was confirmed.");
}

abbrev pub is_failure : EventType → Bool
is_failure EventType.turn_failed = true
is_failure _ = false

abbrev pub ended_turn : EventType → Fields → ℕ → Turn → Turn
ended_turn type payload now t =
    let ended = record t { status = end_status type; ended_at = some now } in
    if is_failure type
    then record ended {
      failure_code = some (get_or (read_string (get "code" payload)) (text "RUNNER_FAILED"));
      failure_message = some (get_or (read_string (get "message" payload)) (text "Runner failed"));
    }
    else ended

-- The end of a turn of version 2: what streams is interrupted, what waits is unconfirmed.
unfoldable pub end_turn : Turn → EventType → ℕ → Fields → ℕ → Store → Store × Json
end_turn t type seq payload now db =
    let (closed, snapshots) = close_messages t seq (filter (is_unfinished t.id) db.messages) db in
    (
      record closed {
        inputs = update_where (is_queued_input t.id) unconfirmed_input closed.inputs;
        turns = update_first (turn_has_id t.id) (ended_turn type payload now) closed.turns;
      },
      obj (
          put "messages" (arr snapshots)
            (put "historyVersion" (whole 2) (remove "content" payload))),
    )
