-- ===== src/Approvals/Pause.antt =====
-- apps/api/src/modules/turns/approval-queue.service.ts: `pauseTimer`, `resumeTimer`, the end of a timer (`fireAutoApprove`), and the
-- timers' recovery at the start.
use agent_waypoint.Common.{
  ℕ, ◌+◌, ◌-◌, not, ◌&&◌, List, [], ◌∷◌, ◌++◌, Option, none, some, if◌then◌else◌, leb, filter,
  find?, update_first, get_or, is_some,
}
use agent_waypoint.Common.Text.{Text}
use agent_waypoint.Common.Json.{Json, str, date, obj, field, end, whole}
use agent_waypoint.Store.{EventType, ApprovalStatus, Approval}
use agent_waypoint.Approvals.{
  Timer, Queue, Fault, Result, ok, err, is_request, status_eq, has_row_id, append_event,
  cancel_timer, arm_timer, is_timer,
}
use agent_waypoint.Approvals.Publish.{with_approvals, is_pending_request}

-- `requirePendingApproval`.
abbrev pub pending_approval : ℕ → Text → Queue → Option Approval
pending_approval turn request q = find? (is_pending_request turn request) q.db.approvals

abbrev pub paused_row : ℕ → ℕ → Approval → Approval
paused_row now remaining a = record a {
  auto_approve_at = none;
  paused_at = some now;
  paused_remaining_ms = some remaining;
}

abbrev pub paused_payload : Text → ℕ → ℕ → Json
paused_payload request now remaining = obj (
    field "requestId" (str request)
      (field "pausedAt" (date now) (field "pausedRemainingMs" (whole remaining) end)))

-- `Math.max(0, at - now)` is the subtraction of ℕ.
abbrev pub pause_row : Approval → ℕ → ℕ → ℕ → Text → Queue → Queue × Approval
pause_row a at now turn request q =
    let remaining = at - now in
    let cancelled = cancel_timer turn request q in
    let rows = update_first (has_row_id a.id) (paused_row now remaining) cancelled.db.approvals in
    (
      append_event turn EventType.timer_paused (paused_payload request now remaining)
          (with_approvals rows cancelled),
      paused_row now remaining a,
    )

unfoldable pub pause_timer : ℕ → Text → ℕ → Queue → Result (Queue × Approval)
pause_timer turn request now q = elim (pending_approval turn request q) [
  | none ↦ err Fault.no_pending
  | some a ↦ if is_some a.paused_at then err Fault.already_paused else elim a.auto_approve_at [
    | none ↦ err Fault.no_timer
    | some at ↦ ok (pause_row a at now turn request q)
  ]
]

abbrev pub resumed_row : ℕ → Approval → Approval
resumed_row at a = record a {
  auto_approve_at = some at;
  paused_at = none;
  paused_remaining_ms = none;
}

abbrev pub resumed_payload : Text → ℕ → Json
resumed_payload request at =
    obj (field "requestId" (str request) (field "autoApproveAt" (date at) end))

abbrev pub resume_row : Approval → ℕ → ℕ → Text → Queue → Queue × Approval
resume_row a now turn request q =
    let remaining = get_or a.paused_remaining_ms 0 in
    let at = now + remaining in
    let rows = update_first (has_row_id a.id) (resumed_row at) q.db.approvals in
    (
      append_event turn EventType.timer_resumed (resumed_payload request at)
          (arm_timer turn request remaining now (with_approvals rows q)),
      resumed_row at a,
    )

unfoldable pub resume_timer : ℕ → Text → ℕ → Queue → Result (Queue × Approval)
resume_timer turn request now q = elim (pending_approval turn request q) [
  | none ↦ err Fault.no_pending
  | some a ↦
      if is_some a.paused_at then ok (resume_row a now turn request q) else err Fault.not_paused
]

-- `fireAutoApprove`: the runner is told to accept, unless the approval is settled or paused by then.
unfoldable pub fire : ℕ → Text → Queue → Queue
fire turn request q = elim (find? (is_request turn request) q.db.approvals) [
  | none ↦ q
  | some a ↦
      if status_eq a.status ApprovalStatus.pending && not (is_some a.paused_at)
      then record q { accepted = q.accepted ++ (turn, request) ∷ [] }
      else q
]

-- A timer of the process ends: it is forgotten, and fires.
unfoldable pub expire_timer : Timer → Queue → Queue
unfolding fire
expire_timer t q =
    fire t.turn_id t.request_id
      (record q { timers = filter (λ x. not (is_timer t.turn_id t.request_id x)) q.timers })

-- `recoverTimers`: what was running when the process ended runs again, or fires at once.
unfoldable pub recover_one : Approval → ℕ → Queue → Queue
recover_one a now q =
    if status_eq a.status ApprovalStatus.pending && not (is_some a.paused_at)
    then elim a.auto_approve_at [
      | none ↦ q
      | some at ↦
          if leb at now
          then record q { ticks = q.ticks ++ (a.turn_id, a.request_id) ∷ [] }
          else arm_timer a.turn_id a.request_id (at - now) now q
    ]
    else q

unfoldable pub recover_rows : List Approval → ℕ → Queue → Queue
unfolding recover_one
recover_rows [] now q = q
recover_rows (a ∷ rows) now q = recover_rows rows now (recover_one a now q)

unfoldable pub recover_timers : ℕ → Queue → Queue
unfolding recover_rows
recover_timers now q = recover_rows q.db.approvals now q
