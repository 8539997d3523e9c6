-- ===== src/Approvals/Publish.antt =====
-- apps/api/src/modules/turns/approval-queue.service.ts: `enqueueApprovalRequest`, `tryPublishNext` and `publish`, and from
-- turns.service.ts what `turn.approval.resolved` does to the queue.
use agent_waypoint.Common.{
  ℕ, suc, ◌+◌, ◌*◌, Bool, ◌&&◌, List, [], ◌∷◌, ◌++◌, Option, none, some, if◌then◌else◌, ltb, filter,
  any, update_where, update_first,
}
use agent_waypoint.Common.Text.{Text, text, text_eq}
use agent_waypoint.Common.Json.{Json}
use agent_waypoint.Store.{
  TurnStatus, EventType, Turn, ApprovalStatus, Approval, Store, turn_has_id, find_turn, is_terminal,
}
use agent_waypoint.Approvals.{
  Queue, has_status, is_request, has_row_id, auto_approve_config, enrich_payload, append_event,
  cancel_timer, arm_timer, published_row, waiting_turn, is_waiting, approval_message,
}

abbrev pub with_approvals : List Approval → Queue → Queue
with_approvals rows q = record q { db = record q.db { approvals = rows } }

-- `orderBy: { createdAt: 'asc' }`, the first of equals.
abbrev pub older : Approval → Option Approval → Approval
older a none = a
older a (some b) = if ltb b.created_at a.created_at then b else a

unfoldable pub oldest : List Approval → Option Approval
oldest [] = none
oldest (a ∷ rows) = some (older a (oldest rows))

abbrev pub auto_approve_at : Bool × ℕ → ℕ → Option ℕ
auto_approve_at (on, seconds) now =
    if on && ltb 0 seconds then some (now + seconds * 1000) else none

-- The tables after the transaction of `publish`.
abbrev pub publish_rows : Approval → Turn → ℕ → Option ℕ → Store → Store
publish_rows a t now at db = record db {
  approvals = update_first (has_row_id a.id) (published_row now at) db.approvals;
  turns =
      if is_waiting t.status
      then db.turns
      else update_first (turn_has_id t.id) (waiting_turn now) db.turns;
  bot_messages =
      if text_eq t.trigger_identifier (text "web")
      then db.bot_messages
      else db.bot_messages ++ approval_message t a ∷ [];
}

-- With no seconds to wait it is accepted on the next tick, otherwise a timer runs.
unfoldable pub arm_published : Approval → Bool × ℕ → ℕ → Queue → Queue
arm_published a (on, seconds) now q =
    if on
    then (if ltb 0 seconds
        then arm_timer a.turn_id a.request_id (seconds * 1000) now q
        else record q { ticks = q.ticks ++ (a.turn_id, a.request_id) ∷ [] })
    else q

abbrev pub dropped_row : ℕ → Approval → Approval
dropped_row now a = record a {
  status = ApprovalStatus.rejected;
  decision = some (text "cancel");
  resolved_at = some now;
}

-- `publish` for a turn that goes on.
unfoldable pub publish_open : Approval → Turn → ℕ → Queue → Queue
publish_open a t now q =
    let config = auto_approve_config t.effective_runtime_config in
    let at = auto_approve_at config now in
    arm_published a config now (
      append_event t.id EventType.approval_requested (enrich_payload a.payload at none none)
        (record q { db = publish_rows a t now at q.db }))

unfoldable pub publish : Approval → ℕ → Queue → Queue
publish a now q = elim (find_turn a.turn_id q.db) [
  | none ↦ q
  | some t ↦
      if is_terminal t.status
      then with_approvals (update_first (has_row_id a.id) (dropped_row now) q.db.approvals) q
      else publish_open a t now q
]

unfoldable pub try_publish_next : ℕ → ℕ → Queue → Queue
unfolding oldest
try_publish_next turn now q =
    if any (has_status turn ApprovalStatus.pending) q.db.approvals
    then q
    else elim (oldest (filter (has_status turn ApprovalStatus.queued) q.db.approvals)) [
      | none ↦ q
      | some a ↦ publish a now q
    ]

-- The upsert: a known request is queued afresh, and keeps its place in time.
abbrev pub requeued : Text → Json → Approval → Approval
requeued kind payload a = record a {
  kind = kind;
  status = ApprovalStatus.queued;
  decision = none;
  resolved_at = none;
  published_at = none;
  auto_approve_at = none;
  paused_at = none;
  paused_remaining_ms = none;
  payload = payload;
}

abbrev pub new_approval : ℕ → ℕ → Text → Text → Json → ℕ → Approval
new_approval id turn request kind payload now = record {
  id = id;
  turn_id = turn;
  request_id = request;
  kind = kind;
  status = ApprovalStatus.queued;
  payload = payload;
  decision = none;
  created_at = now;
  resolved_at = none;
  published_at = none;
  auto_approve_at = none;
  paused_at = none;
  paused_remaining_ms = none;
}

unfoldable pub upsert_request : ℕ → Text → Text → Json → ℕ → Store → Store
upsert_request turn request kind payload now db =
    if any (is_request turn request) db.approvals
    then record db {
      approvals = update_first (is_request turn request) (requeued kind payload) db.approvals;
    }
    else record db {
      approvals = db.approvals ++ new_approval db.next_id turn request kind payload now ∷ [];
      next_id = suc db.next_id;
    }

unfoldable pub enqueue : ℕ → Text → Text → Json → ℕ → Queue → Queue
unfolding upsert_request try_publish_next
enqueue turn request kind payload now q =
    try_publish_next turn now (record q { db = upsert_request turn request kind payload now q.db })

-- `turn.approval.resolved`: the pending row is closed, a waiting turn runs again, the timer is gone,
-- and the next approval's turn has come. `is_accepted` is `isApprovalAccepted` of the decision.
abbrev pub resolved_row : Text → Bool → ℕ → Approval → Approval
resolved_row decision accepted now a = record a {
  status = if accepted then ApprovalStatus.approved else ApprovalStatus.rejected;
  decision = some decision;
  resolved_at = some now;
}

abbrev pub resume_turn : Turn → Turn
resume_turn t = record t { status = TurnStatus.running }

abbrev pub is_pending_request : ℕ → Text → Approval → Bool
is_pending_request turn request a =
    has_status turn ApprovalStatus.pending a && text_eq a.request_id request

unfoldable pub resolve : Turn → Text → Text → Bool → Json → ℕ → Queue → Queue
unfolding try_publish_next
resolve t request decision accepted payload now q =
    let db = record q.db {
      approvals =
          update_where (is_pending_request t.id request) (resolved_row decision accepted now)
            q.db.approvals;
      turns =
          if is_waiting t.status
          then update_first (turn_has_id t.id) resume_turn q.db.turns
          else q.db.turns;
    } in
    try_publish_next t.id now (
      append_event t.id EventType.approval_resolved payload
        (cancel_timer t.id request (record q { db = db })))
