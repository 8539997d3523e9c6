-- ===== src/Turns/Ends.antt =====
-- apps/api/src/modules/turns/turns.service.ts: how a turn of the first version ends: `turn.completed` and
-- `turn.cancelled` in `ingestRunnerEventNow`, and `failTurn`.
use agent_waypoint.Common.{
  ℕ, [], ◌∷◌, ◌++◌, Option, none, some, if◌then◌else◌, ◌==◌, update_first, get_or,
}
use agent_waypoint.Common.Text.{Text, text}
use agent_waypoint.Common.Json.{str, obj, Fields, end, field, get, read_string, whole}
use agent_waypoint.Store.{
  TurnStatus, EventType, Turn, Role, MessageState, BotKind, BotMessage, Store, find_turn,
  turn_has_id,
}
use agent_waypoint.Approvals.{is_queued, text_or_null}
use agent_waypoint.History.{NewMessage, create_message}
use agent_waypoint.Timeline.{read_trimmed}
use agent_waypoint.Turns.{Service, Fault, Action, done, throw, ◌>>◌, reading, with_store}
use agent_waypoint.Turns.Append.{append, flush_turn}
use agent_waypoint.Turns.Context.{flush_contexts}
use agent_waypoint.Turns.Content.{collect_deltas, strip_reasoning, resolve_content}

-- The message of the assistant; the other columns have their defaults.
abbrev pub final_message : Turn → Text → NewMessage
final_message t content = record {
  session_id = t.session_id;
  role = Role.assistant;
  content = content;
  turn_id = some t.id;
  backend_item_id = none;
  state = MessageState.completed;
  start_event_seq = none;
  end_event_seq = none;
  timeline_start_seq = none;
}

abbrev pub final_row : Turn → Text → BotMessage
final_row t content = record {
  project_id = t.project_id;
  session_id = t.session_id;
  kind = BotKind.turn_message;
  event_id = none;
  message_id = none;
  payload = obj (
      field "turnId" (whole t.id) (
        field "triggerIdentifier" (str t.trigger_identifier) (
          field "triggerProvider" (text_or_null t.trigger_provider) (
            field "triggerIntegrationId" (text_or_null t.trigger_integration_id) (
              field "triggerMessageId" (text_or_null t.trigger_message_id)
                (field "content" (str content) end))))));
}

-- How a turn ends: with what status, and with what failure.
pub data Ending : Type 0 where
  completes cancels : Ending
  fails : Text → Text → Ending

abbrev pub ending_status : Ending → TurnStatus
ending_status Ending.completes = TurnStatus.completed
ending_status Ending.cancels = TurnStatus.cancelled
ending_status (Ending.fails code message) = TurnStatus.failed

abbrev pub with_failure : Ending → Turn → Turn
with_failure (Ending.fails code message) t = record t {
  failure_code = some code;
  failure_message = some message;
}
with_failure ending t = t

-- `startedAt` is set of a turn that the caller found queued.
abbrev pub finished_turn : Ending → TurnStatus → Option ℕ → ℕ → Turn → Turn
finished_turn ending previous message now t = with_failure ending (record t {
  assistant_message_id = elim message [ none ↦ t.assistant_message_id | some id ↦ some id ];
  status = ending_status ending;
  ended_at = some now;
  started_at = if is_queued previous then some now else t.started_at;
})

abbrev pub change_turn : ℕ → (Turn → Turn) → Store → Option Store
change_turn turn f db = elim (find_turn turn db) [
  | none ↦ none
  | some t ↦ some (record db { turns = update_first (turn_has_id turn) f db.turns })
]

abbrev pub with_row : BotMessage → Store → Store
with_row row db = record db { bot_messages = db.bot_messages ++ row ∷ [] }

-- The transaction with a message; `none` is an exception.
unfoldable pub finish_with_message : Ending → TurnStatus → Turn → Text → ℕ → Store → Option Store
finish_with_message ending previous t content now db =
    let (db', m) = create_message (final_message t content) now db in
    elim (change_turn t.id (finished_turn ending previous (some m.id) now) db') [
      | none ↦ none
      | some stored ↦ some (with_row (final_row t content) stored)
    ]

-- The transaction; a turn that is completed always has a message, the others where there is some text.
unfoldable pub finish_rows : Ending → TurnStatus → Turn → Text → ℕ → Store → Option Store
unfolding finish_with_message
finish_rows Ending.completes previous t content now db =
    finish_with_message Ending.completes previous t content now db
finish_rows ending previous t [] now db =
    change_turn t.id (finished_turn ending previous none now) db
finish_rows ending previous t (c ∷ content) now db =
    finish_with_message ending previous t (c ∷ content) now db

unfoldable pub finish : Ending → TurnStatus → Turn → Text → ℕ → Action
finish ending previous t content now s =
    elim (finish_rows ending previous t content now s.queue.db) [
      | none ↦ throw Fault.transaction s
      | some db ↦ done (with_store db s)
    ]

-- What the turn has said, without its reasoning.
abbrev pub said : ℕ → Text → Service → Text
said turn fallback s =
    strip_reasoning (resolve_content (collect_deltas turn s.queue.db.events) fallback)

abbrev pub read_content : Fields → Option Text
read_content payload = read_string (get "content" payload)

-- `turn.completed`; without a content it is refused.
unfoldable pub complete : Turn → Fields → ℕ → Action
complete t payload now s = elim (read_content payload) [
  | none ↦ throw Fault.conflict s
  | some content ↦
      (flush_contexts t.id now
          >> flush_turn t.id now
          >> reading (λ r. finish Ending.completes t.status t (said t.id content r) now)
          >> append t.id EventType.turn_completed payload now)
        s
]

-- `turn.cancelled`.
unfoldable pub cancel : Turn → Fields → ℕ → Action
cancel t payload now =
    flush_contexts t.id now
    >> flush_turn t.id now
    >> reading
        (λ r. finish Ending.cancels t.status t (said t.id (get_or (read_content payload) []) r) now)
    >> append t.id EventType.turn_cancelled payload now

-- What `failTurn` does with the turn as it is by then.
unfoldable pub fail_found : Turn → TurnStatus → Text → Text → Fields → Text → ℕ → Action
fail_found t previous code message payload fallback now =
    if t.history_version == 2
    then append t.id EventType.turn_failed payload now
    else (reading (λ r. finish (Ending.fails code message) previous t (said t.id fallback r) now)
        >> append t.id EventType.turn_failed payload now)

unfoldable pub fail_current : ℕ → TurnStatus → Text → Text → Fields → Text → ℕ → Action
fail_current turn previous code message payload fallback now s = elim (find_turn turn s.queue.db) [
  | none ↦ done s
  | some t ↦ fail_found t previous code message payload fallback now s
]

-- `failTurn`.
unfoldable pub fail_turn : ℕ → TurnStatus → Text → Text → Fields → Text → ℕ → Action
fail_turn turn previous code message payload fallback now =
    flush_contexts turn now
    >> flush_turn turn now
    >> fail_current turn previous code message payload fallback now

-- `turn.failed`.
unfoldable pub failed : Turn → Fields → ℕ → Action
failed t payload now =
    fail_turn t.id t.status (get_or (read_trimmed (get "code" payload)) (text "RUNNER_FAILED"))
      (get_or (read_trimmed (get "message" payload)) (text "Runner reported a failure")) payload
      (get_or (read_content payload) []) now
