-- ===== src/Approvals/Oldest.antt =====
-- apps/api/src/modules/turns/approval-queue.service.ts: `tryPublishNext` takes the approval that came first.
use agent_waypoint.Common.{ℕ, ◌≡◌, List, [], ◌∷◌, some, find?, ◌++◌}
use agent_waypoint.Common.Json.{Json}
use agent_waypoint.Store.{Approval, ApprovalStatus, Event, EventType, Store}
use agent_waypoint.Approvals.{has_row_id}

-- A row with the identifier is pending, and shows when it was published.
abbrev pub IsShown : ℕ → ℕ → List Approval → Type 0
IsShown id now rows =
    (b : Approval) × (find? (has_row_id id) rows ≡ some b)
    × (b.status ≡ ApprovalStatus.pending)
    × (b.published_at ≡ some now)

-- The request is the last event, and belongs to the turn.
abbrev pub IsAnnounced : ℕ → List Event → List Event → Type 0
IsAnnounced turn before after =
    (e : Event) × (after ≡ before ++ e ∷ [])
    × (e.type ≡ EventType.approval_requested)
    × (e.turn_id ≡ turn)
