-- ===== src/Approvals.antt =====
-- apps/api/src/modules/turns/approval-queue.service.ts: approvals of a turn are published one at a time,
-- with a timer that accepts them. Calls for one turn follow one another, since events of a turn are
-- ingested one by one.
pub mod Publish
pub mod Pause
pub mod Rows
pub mod Single
pub mod Calls
pub mod Timers
pub mod Oldest
use agent_waypoint.Common.{
  ℕ, suc, ◌+◌, ◌-◌, ◌*◌, ◌/◌, Bool, true, false, not, ◌&&◌, ◌||◌, List, [], ◌∷◌, ◌++◌, Option, none,
  some, if◌then◌else◌, ◌==◌, ltb, leb, filter, find?, any, count, update_where, update_first,
  get_or, is_some,
}
use agent_waypoint.Common.Text.{Text, text, text_eq}
use agent_waypoint.Common.Json.{
  ℤ, pos, negsuc, Json, null, bool, num, str, date, obj, Fields, end, field, get, put, as_record,
  read_number, whole,
}
use agent_waypoint.Store.{
  TurnStatus, EventType, Turn, ApprovalStatus, Approval, Event, BotKind, BotMessage, Store,
  turn_has_id, find_turn, latest_seq, is_terminal,
}

pub record Timer : Type 0 where
  pub turn_id : ℕ
  pub request_id : Text
  pub due : ℕ

-- The service: the database, the timers of the process, the calls put off to the next tick, the answers
-- given to the runner, and how often the outbox was woken.
pub record Queue : Type 0 where
  pub db : Store
  pub timers : List Timer
  pub ticks : List (ℕ × Text)
  pub accepted : List (ℕ × Text)
  pub wakes : ℕ

pub data Fault : Type 0 where
  no_pending already_paused no_timer not_paused : Fault

pub data Result {ℓ} (A : Type ℓ) : Type ℓ where
  ok : A → Result A
  err : Fault → Result A

abbrev pub status_eq : ApprovalStatus → ApprovalStatus → Bool
status_eq ApprovalStatus.queued ApprovalStatus.queued = true
status_eq ApprovalStatus.pending ApprovalStatus.pending = true
status_eq ApprovalStatus.approved ApprovalStatus.approved = true
status_eq ApprovalStatus.rejected ApprovalStatus.rejected = true
status_eq _ _ = false

abbrev pub is_request : ℕ → Text → Approval → Bool
is_request turn request a = a.turn_id == turn && text_eq a.request_id request

abbrev pub has_status : ℕ → ApprovalStatus → Approval → Bool
has_status turn st a = a.turn_id == turn && status_eq a.status st

abbrev pub has_row_id : ℕ → Approval → Bool
has_row_id id a = a.id == id

-- `readAutoApproveConfig`: whether, and after how many seconds.
abbrev pub read_flag : Option Json → Bool
read_flag (some (bool b)) = b
read_flag _ = false

abbrev pub read_seconds : Option ℤ → ℕ
read_seconds (some (pos n)) = n / 1000
read_seconds _ = 10

unfoldable pub auto_approve_config : Json → Bool × ℕ
unfolding as_record get read_number
auto_approve_config config = elim (as_record (some config)) [
  | none ↦ (false, 10)
  | some record_ ↦ (
    read_flag (get "autoApprove" record_),
    read_seconds (read_number (get "autoApproveTimeoutSeconds" record_)),
  )
]

abbrev pub date_or_null : Option ℕ → Json
date_or_null none = null
date_or_null (some t) = date t

abbrev pub count_or_null : Option ℕ → Json
count_or_null none = null
count_or_null (some n) = whole n

-- `enrichApprovalPayload`.
unfoldable pub enrich_payload : Json → Option ℕ → Option ℕ → Option ℕ → Json
unfolding as_record put
enrich_payload payload auto_approve_at paused_at remaining =
    let base : Fields = get_or (as_record (some payload)) end in
    obj (
      put "pausedRemainingMs" (count_or_null remaining) (
        put "pausedAt" (date_or_null paused_at)
          (put "autoApproveAt" (date_or_null auto_approve_at) base)))

-- `appendEvent`: the event takes the number behind the turn's last, and the outbox a row for it.
unfoldable pub append_event : ℕ → EventType → Json → Queue → Queue
append_event turn type payload q =
    let row : Event = record {
      id = q.db.next_id;
      turn_id = turn;
      seq = latest_seq turn q.db.events + 1;
      type = type;
      payload = payload;
    } in
    let stored = record q.db { events = q.db.events ++ row ∷ []; next_id = suc q.db.next_id } in
    let db : Store = elim (find_turn turn q.db) [
      | none ↦ stored
      | some t ↦ record stored {
        bot_messages =
            stored.bot_messages
            ++ record {
              project_id = t.project_id;
              session_id = t.session_id;
              kind = BotKind.event;
              event_id = some q.db.next_id;
              message_id = none;
              payload = obj end;
            }
              ∷ [];
      }
    ] in
    record q { db = db; wakes = suc q.wakes }

abbrev pub is_timer : ℕ → Text → Timer → Bool
is_timer turn request t = t.turn_id == turn && text_eq t.request_id request

unfoldable pub cancel_timer : ℕ → Text → Queue → Queue
cancel_timer turn request q = record q {
  timers = filter (λ t. not (is_timer turn request t)) q.timers;
}

unfoldable pub arm_timer : ℕ → Text → ℕ → ℕ → Queue → Queue
unfolding cancel_timer
arm_timer turn request remaining now q =
    let q' = cancel_timer turn request q in
    record q' {
      timers =
          q'.timers ++ record { turn_id = turn; request_id = request; due = now + remaining } ∷ [];
    }

-- The change of rows that `publish` makes, in its transaction.
abbrev pub published_row : ℕ → Option ℕ → Approval → Approval
published_row now at a = record a {
  status = ApprovalStatus.pending;
  published_at = some now;
  auto_approve_at = at;
  paused_at = none;
  paused_remaining_ms = none;
}

abbrev pub is_queued : TurnStatus → Bool
is_queued TurnStatus.queued = true
is_queued _ = false

abbrev pub is_waiting : TurnStatus → Bool
is_waiting TurnStatus.waiting_approval = true
is_waiting _ = false

abbrev pub waiting_turn : ℕ → Turn → Turn
waiting_turn now t = record t {
  status = TurnStatus.waiting_approval;
  started_at = if is_queued t.status then some now else t.started_at;
}

abbrev pub text_or_null : Option Text → Json
text_or_null none = null
text_or_null (some s) = str s

-- The outbox row of an approval request; `turn` is the identifier's text.
abbrev pub approval_message : Turn → Approval → BotMessage
approval_message t a = record {
  project_id = t.project_id;
  session_id = t.session_id;
  kind = BotKind.approval_request;
  event_id = none;
  message_id = none;
  payload = obj (
      field "turnId" (whole t.id) (
        field "approvalId" (str a.request_id) (
          field "kind" (str a.kind) (
            field "payload" a.payload (
              field "triggerIdentifier" (str t.trigger_identifier) (
                field "triggerProvider" (text_or_null t.trigger_provider) (
                  field "triggerIntegrationId" (text_or_null t.trigger_integration_id)
                    (field "triggerMessageId" (text_or_null t.trigger_message_id) end))))))));
}
