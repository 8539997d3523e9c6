-- ===== src/Turns/Requests.antt =====
-- apps/api/src/modules/turns/turns.service.ts: `createTurnWithResolvedSession`, the failure of its dispatch, and
-- `cancelTurnForUser`. Whether the settings allow a turn, whether a backend keeps the history of its messages, and what
-- the runner answers are arguments.
pub mod Active
pub mod Parts
pub mod Answers
pub mod Handlers
pub mod Ingests
pub mod Steers
pub mod Clocks
pub mod Exclusive
use agent_waypoint.Common.{
  ℕ, suc, ◌+◌, Bool, true, false, not, ◌&&◌, List, [], ◌∷◌, ◌++◌, Option, none, some, if◌then◌else◌,
  ◌==◌, any, update_first,
}
use agent_waypoint.Common.Text.{Text, text}
use agent_waypoint.Common.Json.{ℤ, pos, Json, bool, str, null, obj, Fields, end, field, whole}
use agent_waypoint.Store.{
  TurnStatus, EventType, Turn, Role, Message, MessageState, Store, ContextUsage, find_turn,
  is_terminal,
}
use agent_waypoint.History.{NewMessage, create_message, has_message_id}
use agent_waypoint.Timeline.{read_trimmed}
use agent_waypoint.TurnConfig.{
  SessionRuntime, read_session_runtime, requested_config, normalize_trigger, some_text,
}
use agent_waypoint.Turns.{Service, Fault, Action, done, throw}
use agent_waypoint.Turns.Ends.{fail_turn}
use agent_waypoint.Turns.Ingest.{ingest}

-- `ACTIVE_TURN_STATUSES.includes(status)`: there are three of them, and the three that are terminal.
abbrev pub is_active : Turn → Bool
is_active t = not (is_terminal t.status)

abbrev pub is_active_of : ℕ → Turn → Bool
is_active_of session t = t.session_id == session && is_active t

-- A session with its project, and what it is asked for.
pub record Session : Type 0 where
  pub id : ℕ
  pub project_id : ℕ
  pub meta : Option Json

pub record TurnRequest : Type 0 where
  pub content : Text
  pub trigger_identifier : Option Text
  pub trigger_provider : Option Text
  pub trigger_integration_id : Option Text
  pub trigger_message_id : Option Text

pub data Refusal : Type 0 where
  no_runtime switching busy : Refusal

abbrev pub prompt : Session → TurnRequest → NewMessage
prompt session input = record {
  session_id = session.id;
  role = Role.user;
  content = input.content;
  turn_id = none;
  backend_item_id = none;
  state = MessageState.completed;
  start_event_seq = none;
  end_event_seq = none;
  timeline_start_seq = none;
}

abbrev pub approval_policy : SessionRuntime → Json
approval_policy runtime = obj (
    field "autoApprove" (bool runtime.auto_approve)
      (field "autoApproveTimeoutSeconds" (whole runtime.auto_approve_timeout_seconds) end))

abbrev pub no_usage : ContextUsage
no_usage = record { remaining_ratio = none; remaining_tokens = none; window_tokens = none }

-- The row of a new turn; the columns that are not written have their defaults.
abbrev pub new_turn : ℕ → Session → SessionRuntime → TurnRequest → Bool → ℕ → Turn
new_turn id session runtime input keeps_history message = record {
  id = id;
  session_id = session.id;
  project_id = session.project_id;
  user_message_id = some message;
  assistant_message_id = none;
  history_version = if keeps_history then 2 else 1;
  backend_turn_id = none;
  runner_cursor = pos 0;
  trigger_identifier = normalize_trigger input.trigger_identifier;
  trigger_provider = some (normalize_trigger input.trigger_provider);
  trigger_integration_id = read_trimmed (some_text input.trigger_integration_id);
  trigger_message_id = read_trimmed (some_text input.trigger_message_id);
  status = TurnStatus.queued;
  backend = some runtime.backend;
  requested_backend_config = requested_config runtime.backend_config runtime.cwd;
  effective_backend_config = null;
  effective_runtime_config = approval_policy runtime;
  failure_code = none;
  failure_message = none;
  context = no_usage;
  context_updated_at = none;
  started_at = none;
  ended_at = none;
}

abbrev pub in_turn : ℕ → Message → Message
in_turn turn m = record m { turn_id = some turn }

-- The rows of a new turn: its prompt, the turn, and the prompt's turn.
abbrev pub create_rows : Session → SessionRuntime → TurnRequest → Bool → ℕ → Store → Store × Turn
create_rows session runtime input keeps_history now db =
    let (db', m) = create_message (prompt session input) now db in
    let t = new_turn db'.next_id session runtime input keeps_history m.id in
    (
      record db' {
        messages = update_first (has_message_id m.id) (in_turn t.id) db'.messages;
        turns = db'.turns ++ t ∷ [];
        next_id = suc db'.next_id;
      },
      t,
    )

pub data Created : Type 0 where
  created : Store → Turn → Created
  refused : Refusal → Created

abbrev pub made : Store × Turn → Created
made (db, t) = created db t

-- `createTurnWithResolvedSession`: nothing is written unless the session has no active turn.
unfoldable pub create_turn : (Text → Bool) → Bool → Session → TurnRequest → ℕ → Store → Created
create_turn keeps_history allowed session input now db = elim (read_session_runtime session.meta) [
  | none ↦ refused Refusal.no_runtime
  | some runtime ↦
      if not allowed
      then refused Refusal.switching
      else if any (is_active_of session.id) db.turns
      then refused Refusal.busy
      else made (create_rows session runtime input (keeps_history runtime.backend) now db)
]

abbrev pub failure_payload : Text → Text → Fields
failure_payload code message = field "code" (str code) (field "message" (str message) end)

-- The runner does not take a turn that was created.
unfoldable pub fail_dispatch : Turn → Text → ℕ → Action
fail_dispatch t message now =
    fail_turn t.id t.status (text "RUNNER_DISPATCH_FAILED") message
      (failure_payload (text "RUNNER_DISPATCH_FAILED") message) [] now

-- What the runner answers to a cancellation; `missing` is an error which says that it has no such turn.
pub data RunnerAnswer : Type 0 where
  cancelled not_cancelled missing error : RunnerAnswer

abbrev pub orphan_payload : Fields
orphan_payload =
    failure_payload (text "ORPHANED_TURN_CANCELLED")
      (text "The runner no longer had this active turn; AgentWaypoint closed the stale turn.")

unfoldable pub close_orphan : RunnerAnswer → ℕ → ℕ → Action
close_orphan RunnerAnswer.cancelled turn now = done
close_orphan RunnerAnswer.error turn now = throw Fault.runner
close_orphan _ turn now = ingest turn EventType.turn_cancelled orphan_payload now

-- `cancelTurnForUser`.
unfoldable pub cancel_turn : RunnerAnswer → ℕ → ℕ → Action
cancel_turn answer turn now s = elim (find_turn turn s.queue.db) [
  | none ↦ throw Fault.not_found s
  | some t ↦ if is_active t then close_orphan answer turn now s else done s
]
