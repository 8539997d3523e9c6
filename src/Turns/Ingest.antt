-- ===== src/Turns/Ingest.antt =====
-- apps/api/src/modules/turns/turns.service.ts: `ingestRunnerEventNow`. Calls for one turn follow one another. A cursor in a
-- batch that waits counts as 0 where it is not a number.
pub mod Starts
pub mod Keeps
pub mod Parts
pub mod Cases
pub mod Sound
pub mod Runs
pub mod Ended
pub mod Cursor
pub mod Replays
use agent_waypoint.Common.{
  ℕ, Bool, true, false, not, ◌&&◌, ◌||◌, List, [], ◌∷◌, ◌++◌, Option, none, some, if◌then◌else◌,
  ◌==◌, any, get_or, update_first, update_where,
}
use agent_waypoint.Common.Text.{Text}
use agent_waypoint.Common.Json.{
  ℤ, pos, Json, str, num, obj, Fields, end, field, get, read_string, read_number, is_true,
}
use agent_waypoint.Store.{TurnStatus, EventType, Turn, Store, find_turn, turn_has_id, is_terminal}
use agent_waypoint.Approvals.{Queue, cancel_timer, is_waiting}
use agent_waypoint.Approvals.Publish.{
  enqueue, try_publish_next, resolved_row, resume_turn, is_pending_request,
}
use agent_waypoint.Timeline.{read_trimmed, attach_detail_ref}
use agent_waypoint.TurnConfig.{TextField, coalesced_field, is_accepted}
use agent_waypoint.Turns.{
  Key, last_write, key_eq, text_key_of, Pending, Service, Fault, Action, done, throw, ◌>>◌, reading,
  leb_ℤ, max_ℤ, with_queue,
}
use agent_waypoint.Turns.Append.{append, coalesce, flush_turn, is_pending_of, with_pending}
use agent_waypoint.Turns.Context.{build_context_usage, queue_context, flush_contexts}
use agent_waypoint.Turns.Ends.{complete, cancel, failed}
use agent_waypoint.Turns.Ingest.Starts.{start}

-- How far a turn has been told, with what waits.
abbrev pub pending_cursor : ℕ → ℤ → List Pending → ℤ
pending_cursor turn cursor [] = cursor
pending_cursor turn cursor (p ∷ ps) =
    let onward = max_ℤ cursor (get_or (read_number (get "runnerSeq" p.payload)) (pos 0)) in
    pending_cursor turn (if is_pending_of turn p then onward else cursor) ps

unfoldable pub is_replay : Turn → Fields → Service → Bool
is_replay t payload s = elim (read_number (get "runnerSeq" payload)) [
  | none ↦ false
  | some n ↦ leb_ℤ n (pending_cursor t.id t.runner_cursor s.pending)
]

abbrev pub is_output : EventType → Bool
is_output EventType.tool_output = true
is_output _ = false

abbrev pub key_payload : EventType → Fields → Fields
key_payload type payload = if is_output type then attach_detail_ref payload else payload

-- The key that an event would wait under.
unfoldable pub key_of : ℕ → EventType → Fields → Key
key_of turn type payload = elim (coalesced_field type (key_payload type payload)) [
  | none ↦ last_write turn type
  | some f ↦ text_key_of turn type (key_payload type payload) f
]

abbrev pub is_other_key : ℕ → Key → Pending → Bool
is_other_key turn key p = is_pending_of turn p && not (key_eq p.key key)

abbrev pub is_usage : EventType → Bool
is_usage EventType.token_usage_updated = true
is_usage _ = false

-- What waits under another key is stored before the event.
unfoldable pub flush_boundary : ℕ → EventType → Fields → ℕ → Action
flush_boundary turn type payload now s =
    if not (is_usage type) && any (is_other_key turn (key_of turn type payload)) s.pending
    then flush_turn turn now s
    else done s

abbrev pub ends_turn : EventType → Bool
ends_turn EventType.turn_completed = true
ends_turn EventType.turn_failed = true
ends_turn EventType.turn_cancelled = true
ends_turn _ = false

-- An event waits with others of its kind, or is stored at once.
unfoldable pub coalesce_or_append : ℕ → EventType → Fields → ℕ → Action
coalesce_or_append turn type payload now s = elim (coalesce turn type payload s.pending) [
  | some ps ↦ done (with_pending ps s)
  | none ↦ append turn type payload now s
]

-- `...(typeof payload.runnerSeq === 'number' ? { runnerSeq: payload.runnerSeq } : {})`, at the end of an object.
abbrev pub seq_field : Fields → Fields
seq_field payload = elim (read_number (get "runnerSeq" payload)) [
  | none ↦ end
  | some n ↦ field "runnerSeq" (num n) end
]

abbrev pub item_field : Fields → Fields → Fields
item_field payload rest = elim (read_string (get "itemId" payload)) [
  | none ↦ rest
  | some item ↦ field "itemId" (str item) rest
]

abbrev pub text_payload : Text → Fields → Fields
text_payload said payload = field "text" (str said) (item_field payload (seq_field payload))

abbrev pub reasoning_payload : Text → Fields → Fields
reasoning_payload delta payload = field "delta" (str delta) (seq_field payload)

-- `assistant.delta`.
unfoldable pub take_delta : Turn → Fields → ℕ → Action
take_delta t payload now =
    if is_true (get "isReasoning" payload) then done else elim (read_string (get "text" payload)) [
      | none ↦ throw Fault.conflict
      | some [] ↦ throw Fault.conflict
      | some (c ∷ said) ↦
          coalesce_or_append t.id EventType.assistant_delta (text_payload (c ∷ said) payload) now
    ]

-- `reasoning.delta`.
unfoldable pub take_reasoning : Turn → Fields → ℕ → Action
take_reasoning t payload now = elim (read_string (get "delta" payload)) [
  | none ↦ done
  | some [] ↦ done
  | some (c ∷ delta) ↦
      coalesce_or_append t.id EventType.reasoning_delta (reasoning_payload (c ∷ delta) payload) now
]

-- `turn.approval.requested`.
unfoldable pub request_approval : Turn → Fields → ℕ → Action
request_approval t payload now = elim (read_trimmed (get "requestId" payload)) [
  | none ↦ throw Fault.conflict
  | some request ↦ elim (read_trimmed (get "kind" payload)) [
    | none ↦ throw Fault.conflict
    | some kind ↦
        flush_turn t.id now
        >> reading
            (λ s r. done (with_queue (enqueue t.id request kind (obj payload) now s.queue) r))
  ]
]

-- The rows of an approval that is answered.
unfoldable pub answer_rows : Turn → Text → Text → ℕ → Store → Store
answer_rows t request decision now db = record db {
  approvals =
      update_where (is_pending_request t.id request)
        (resolved_row decision (is_accepted decision) now) db.approvals;
  turns =
      if is_waiting t.status
      then update_first (turn_has_id t.id) resume_turn db.turns
      else db.turns;
}

-- After them the timer is gone.
unfoldable pub answer : Turn → Text → Text → ℕ → Queue → Queue
unfolding answer_rows
answer t request decision now q =
    cancel_timer t.id request (record q { db = answer_rows t request decision now q.db })

-- `turn.approval.resolved`.
unfoldable pub resolve_approval : Turn → Fields → ℕ → Action
resolve_approval t payload now = elim (read_trimmed (get "requestId" payload)) [
  | none ↦ throw Fault.conflict
  | some request ↦ elim (read_trimmed (get "decision" payload)) [
    | none ↦ throw Fault.conflict
    | some decision ↦
        flush_turn t.id now
        >> reading (λ s r. done (with_queue (answer t request decision now s.queue) r))
        >> append t.id EventType.approval_resolved payload now
        >> reading (λ s r. done (with_queue (try_publish_next t.id now s.queue) r))
  ]
]

-- `thread.token_usage.updated`.
unfoldable pub take_usage : Turn → Fields → Action
take_usage t payload s = elim (build_context_usage payload) [
  | none ↦ done s
  | some usage ↦ done (record s { contexts = queue_context t.id usage s.contexts })
]

-- The cases of the switch that a turn takes while it goes on.
unfoldable pub handle_active : Turn → EventType → Fields → ℕ → Action
handle_active t EventType.assistant_message_started payload now =
    flush_turn t.id now >> append t.id EventType.assistant_message_started payload now
handle_active t EventType.assistant_message_completed payload now =
    flush_turn t.id now >> append t.id EventType.assistant_message_completed payload now
handle_active t EventType.user_message_accepted payload now =
    flush_turn t.id now >> append t.id EventType.user_message_accepted payload now
handle_active t EventType.turn_input_updated payload now =
    flush_turn t.id now >> append t.id EventType.turn_input_updated payload now
handle_active t EventType.assistant_delta payload now = take_delta t payload now
handle_active t EventType.reasoning_delta payload now = take_reasoning t payload now
handle_active t EventType.approval_requested payload now = request_approval t payload now
handle_active t EventType.approval_resolved payload now = resolve_approval t payload now
handle_active t EventType.auto_review payload now = append t.id EventType.auto_review payload now
handle_active t EventType.plan_updated payload now =
    coalesce_or_append t.id EventType.plan_updated payload now
handle_active t EventType.diff_updated payload now =
    coalesce_or_append t.id EventType.diff_updated payload now
handle_active t EventType.tool_output payload now =
    coalesce_or_append t.id EventType.tool_output (attach_detail_ref payload) now
handle_active t EventType.tool_started payload now =
    flush_turn t.id now >> append t.id EventType.tool_started (attach_detail_ref payload) now
handle_active t EventType.tool_completed payload now =
    flush_turn t.id now >> append t.id EventType.tool_completed (attach_detail_ref payload) now
handle_active t EventType.token_usage_updated payload now = take_usage t payload
handle_active t EventType.turn_completed payload now = complete t payload now
handle_active t EventType.turn_cancelled payload now = cancel t payload now
handle_active t EventType.turn_failed payload now = failed t payload now
handle_active t _ payload now = done

abbrev pub is_start : EventType → Bool
is_start EventType.turn_started = true
is_start _ = false

-- The end of a turn of version 2 is projected from its event.
unfoldable pub end_projected : Turn → EventType → Fields → ℕ → Action
end_projected t type payload now =
    flush_turn t.id now >> flush_contexts t.id now >> append t.id type payload now

-- What follows the boundary. Every case but the start begins with the test of the status.
unfoldable pub handle : Turn → EventType → Fields → ℕ → Action
handle t type payload now =
    if is_start type
    then start t payload now
    else if is_terminal t.status
    then done
    else if t.history_version == 2 && ends_turn type
    then end_projected t type payload now
    else handle_active t type payload now

-- `ingestRunnerEventNow`.
unfoldable pub ingest : ℕ → EventType → Fields → ℕ → Action
ingest turn type payload now s = elim (find_turn turn s.queue.db) [
  | none ↦ throw Fault.not_found s
  | some t ↦
      if is_replay t payload s
      then done s
      else (flush_boundary turn type payload now >> handle t type payload now) s
]
