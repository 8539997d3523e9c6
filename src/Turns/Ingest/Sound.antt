-- ===== src/Turns/Ingest/Sound.antt =====
-- apps/api/src/modules/turns/turns.service.ts: the whole of `ingestRunnerEventNow`, with the approvals of
-- apps/api/src/modules/turns/approval-queue.service.ts, over any sequence of events.
use agent_waypoint.Common.{
  ℕ, refl, Bool, true, false, not, ◌&&◌, if◌then◌else◌, ◌==◌, any, inl, inr, Bool-cases,
  Option-cases,
}
use agent_waypoint.Common.Json.{Fields}
use agent_waypoint.Store.{EventType, Turn, find_turn, is_terminal}
use agent_waypoint.Timeline.{attach_detail_ref}
use agent_waypoint.Turns.{Service, Action, done, ◌>>◌}
use agent_waypoint.Turns.Append.{append, flush_turn}
use agent_waypoint.Turns.Context.{flush_contexts}
use agent_waypoint.Turns.Ingest.{
  is_replay, flush_boundary, is_usage, is_other_key, key_of, handle_active, is_start, ends_turn,
  end_projected, handle, ingest,
}
use agent_waypoint.Turns.Ingest.Starts.{start}
use agent_waypoint.Turns.Ingest.Keeps.{
  IsSound, Keeps, then-Keeps, done-Keeps, append-Keeps, flush_turn-Keeps,
}
use agent_waypoint.Turns.Ingest.Parts.{flush_contexts-Keeps}
use agent_waypoint.Turns.Ingest.Cases.{
  start-Keeps, complete-Keeps, cancel-Keeps, failed-Keeps, coalesce_or_append-Keeps,
  take_delta-Keeps, take_reasoning-Keeps, request_approval-Keeps, resolve_approval-Keeps,
  take_usage-Keeps,
}

-- A flush, and then an event.
flush_append-Keeps :
    (turn : ℕ) (type : EventType) (payload : Fields) (now : ℕ)
    → Keeps (flush_turn turn now >> append turn type payload now)
flush_append-Keeps turn type payload now =
    then-Keeps (flush_turn turn now) (append turn type payload now) (flush_turn-Keeps turn now)
      (append-Keeps turn type payload now)

handle_active-Keeps :
    (t : Turn) (type : EventType) (payload : Fields) (now : ℕ)
    → Keeps (handle_active t type payload now)
unfolding handle_active
handle_active-Keeps t EventType.assistant_message_started payload now =
    flush_append-Keeps t.id _ payload now
handle_active-Keeps t EventType.assistant_message_completed payload now =
    flush_append-Keeps t.id _ payload now
handle_active-Keeps t EventType.user_message_accepted payload now =
    flush_append-Keeps t.id _ payload now
handle_active-Keeps t EventType.turn_input_updated payload now =
    flush_append-Keeps t.id _ payload now
handle_active-Keeps t EventType.assistant_delta payload now = take_delta-Keeps t payload now
handle_active-Keeps t EventType.reasoning_delta payload now = take_reasoning-Keeps t payload now
handle_active-Keeps t EventType.approval_requested payload now =
    request_approval-Keeps t payload now
handle_active-Keeps t EventType.approval_resolved payload now = resolve_approval-Keeps t payload now
handle_active-Keeps t EventType.auto_review payload now =
    append-Keeps t.id EventType.auto_review payload now
handle_active-Keeps t EventType.plan_updated payload now =
    coalesce_or_append-Keeps t.id EventType.plan_updated payload now refl
handle_active-Keeps t EventType.diff_updated payload now =
    coalesce_or_append-Keeps t.id EventType.diff_updated payload now refl
handle_active-Keeps t EventType.tool_output payload now =
    coalesce_or_append-Keeps t.id EventType.tool_output (attach_detail_ref payload) now refl
handle_active-Keeps t EventType.tool_started payload now =
    flush_append-Keeps t.id _ (attach_detail_ref payload) now
handle_active-Keeps t EventType.tool_completed payload now =
    flush_append-Keeps t.id _ (attach_detail_ref payload) now
handle_active-Keeps t EventType.token_usage_updated payload now = take_usage-Keeps t payload
handle_active-Keeps t EventType.turn_completed payload now = complete-Keeps t payload now
handle_active-Keeps t EventType.turn_cancelled payload now = cancel-Keeps t payload now
handle_active-Keeps t EventType.turn_failed payload now = failed-Keeps t payload now
handle_active-Keeps t EventType.turn_started payload now = done-Keeps
handle_active-Keeps t EventType.timer_paused payload now = done-Keeps
handle_active-Keeps t EventType.timer_resumed payload now = done-Keeps

-- The actions that a test chooses between.
if-Keeps : (b : Bool) (a c : Action) → Keeps a → Keeps c → Keeps (if b then a else c)
if-Keeps true a c h k = h
if-Keeps false a c h k = k

end_projected-Keeps :
    (t : Turn) (type : EventType) (payload : Fields) (now : ℕ)
    → Keeps (end_projected t type payload now)
unfolding end_projected
end_projected-Keeps t type payload now =
    then-Keeps (flush_turn t.id now >> flush_contexts t.id now) (append t.id type payload now)
      (then-Keeps (flush_turn t.id now) (flush_contexts t.id now) (flush_turn-Keeps t.id now)
        (flush_contexts-Keeps t.id now))
      (append-Keeps t.id type payload now)

handle-Keeps :
    (t : Turn) (type : EventType) (payload : Fields) (now : ℕ) → Keeps (handle t type payload now)
unfolding handle
handle-Keeps t type payload now =
    if-Keeps (is_start type) (start t payload now) _ (start-Keeps t payload now) (
      if-Keeps (is_terminal t.status) done _ done-Keeps (
        if-Keeps (t.history_version == 2 && ends_turn type) (end_projected t type payload now)
          (handle_active t type payload now) (end_projected-Keeps t type payload now)
          (handle_active-Keeps t type payload now)))

pub flush_boundary-Keeps :
    (turn : ℕ) (type : EventType) (payload : Fields) (now : ℕ)
    → Keeps (flush_boundary turn type payload now)
unfolding flush_boundary
flush_boundary-Keeps turn type payload now s v =
    elim (Bool-cases
      (not (is_usage type) && any (is_other_key turn (key_of turn type payload)) s.pending)) [
        | inl border ↦ rw border (flush_turn-Keeps turn now s v)
        | inr within ↦ rw within v
      ]

-- Whatever event is ingested, whether the call throws or not: the events of each turn keep the numbers from 1 on without
-- a gap, and only events of a kind that may wait do so.
pub ingest-IsSound :
    (turn : ℕ) (type : EventType) (payload : Fields) (now : ℕ) (s : Service)
    → IsSound s
    → IsSound (ingest turn type payload now s).0
unfolding ingest
ingest-IsSound turn type payload now s v = elim (Option-cases (find_turn turn s.queue.db)) [
  | inl gone ↦ rw (gone, ingest) v
  | inr (t, found) ↦ elim (Bool-cases (is_replay t payload s)) [
    | inl again ↦ rw (found, ingest, again) v
    | inr new ↦
        rw (found, ingest, new)
          (then-Keeps (flush_boundary turn type payload now) (handle t type payload now)
            (flush_boundary-Keeps turn type payload now) (handle-Keeps t type payload now) s v)
  ]
]
