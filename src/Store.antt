-- ===== src/Store.antt =====
-- The tables of apps/api/prisma/schema.prisma that turns, their messages and their approvals live in.
-- Identifiers are only compared; a new row takes the next number. Moments are milliseconds.
use agent_waypoint.Common.{
  ℕ, Bool, true, false, List, [], ◌∷◌, Option, ◌==◌, if◌then◌else◌, find?, max,
}
use agent_waypoint.Common.Text.{Text}
use agent_waypoint.Common.Json.{Json, ℤ}

pub data TurnStatus : Type 0 where
  queued running waiting_approval completed failed cancelled : TurnStatus

pub data EventType : Type 0 where
  turn_started assistant_message_started assistant_message_completed user_message_accepted :
      EventType
  turn_input_updated assistant_delta approval_requested approval_resolved timer_paused : EventType
  timer_resumed auto_review token_usage_updated plan_updated reasoning_delta diff_updated :
      EventType
  tool_started tool_output tool_completed turn_completed turn_failed turn_cancelled : EventType

-- A ratio as the numbers that are divided.
pub record Ratio : Type 0 where
  pub over : ℤ
  pub under : ℕ

-- `ContextUsageSnapshot`: what is known of the context that is left.
pub record ContextUsage : Type 0 where
  pub remaining_ratio : Option Ratio
  pub remaining_tokens : Option ℕ
  pub window_tokens : Option ℕ

pub record Turn : Type 0 where
  pub id : ℕ
  pub session_id : ℕ
  pub project_id : ℕ
  pub user_message_id : Option ℕ
  pub assistant_message_id : Option ℕ
  pub history_version : ℕ
  pub backend_turn_id : Option Text
  pub runner_cursor : ℤ
  pub trigger_identifier : Text
  pub trigger_provider : Option Text
  pub trigger_integration_id : Option Text
  pub trigger_message_id : Option Text
  pub status : TurnStatus
  pub backend : Option Text
  pub requested_backend_config : Json
  pub effective_backend_config : Json
  pub effective_runtime_config : Json
  pub failure_code : Option Text
  pub failure_message : Option Text
  pub context : ContextUsage
  pub context_updated_at : Option ℕ
  pub started_at : Option ℕ
  pub ended_at : Option ℕ

pub data Role : Type 0 where
  user assistant : Role

pub data MessageState : Type 0 where
  completed streaming interrupted : MessageState

pub record Message : Type 0 where
  pub id : ℕ
  pub session_id : ℕ
  pub role : Role
  pub content : Text
  pub created_at : ℕ
  pub turn_id : Option ℕ
  pub backend_item_id : Option Text
  pub history_seq : ℕ
  pub state : MessageState
  pub phase : Option Text
  pub start_event_seq : Option ℕ
  pub end_event_seq : Option ℕ
  pub timeline_start_seq : Option ℕ

pub data InputStatus : Type 0 where
  queued accepted failed unconfirmed : InputStatus

pub record TurnInput : Type 0 where
  pub id : ℕ
  pub turn_id : ℕ
  pub client_request_id : Text
  pub content : Text
  pub status : InputStatus
  pub message_id : Option ℕ
  pub backend_item_id : Option Text
  pub dispatched_at : Option ℕ
  pub accepted_at : Option ℕ
  pub error_message : Option Text

pub data ApprovalStatus : Type 0 where
  queued pending approved rejected : ApprovalStatus

pub record Approval : Type 0 where
  pub id : ℕ
  pub turn_id : ℕ
  pub request_id : Text
  pub kind : Text
  pub status : ApprovalStatus
  pub payload : Json
  pub decision : Option Text
  pub created_at : ℕ
  pub resolved_at : Option ℕ
  pub published_at : Option ℕ
  pub auto_approve_at : Option ℕ
  pub paused_at : Option ℕ
  pub paused_remaining_ms : Option ℕ

pub record Event : Type 0 where
  pub id : ℕ
  pub turn_id : ℕ
  pub seq : ℕ
  pub type : EventType
  pub payload : Json

pub data BotKind : Type 0 where
  approval_request event turn_message : BotKind

-- A row of the outbox, as it is created: queued.
pub record BotMessage : Type 0 where
  pub project_id : ℕ
  pub session_id : ℕ
  pub kind : BotKind
  pub event_id : Option ℕ
  pub message_id : Option ℕ
  pub payload : Json

pub record Snapshot : Type 0 where
  pub turn_id : ℕ
  pub event_seq : ℕ
  pub payload : Json

pub record Store : Type 0 where
  pub turns : List Turn
  pub messages : List Message
  pub inputs : List TurnInput
  pub approvals : List Approval
  pub events : List Event
  pub bot_messages : List BotMessage
  pub snapshots : List Snapshot
  pub next_id : ℕ

abbrev pub turn_has_id : ℕ → Turn → Bool
turn_has_id id t = t.id == id

abbrev pub find_turn : ℕ → Store → Option Turn
find_turn id db = find? (turn_has_id id) db.turns

-- The greatest `seq` of a turn's events, 0 where it has none.
abbrev pub latest_seq : ℕ → List Event → ℕ
latest_seq turn [] = 0
latest_seq turn (e ∷ es) =
    if e.turn_id == turn then max e.seq (latest_seq turn es) else latest_seq turn es

-- `TERMINAL_STATUSES.includes(status)`.
abbrev pub is_terminal : TurnStatus → Bool
is_terminal TurnStatus.completed = true
is_terminal TurnStatus.failed = true
is_terminal TurnStatus.cancelled = true
is_terminal _ = false
