-- ===== src/Turns/Requests/Answers.antt =====
-- apps/api/src/modules/turns: the active turns before and after an approval is asked for, shown and answered.
use agent_waypoint.Common.{
  ℕ, ◌≡◌, refl, sym, subst, ◌∙◌, Bool, true, false, not, Option, some, ==_iff, ltb, find?,
  find?-test, any, filter, inl, inr, Bool-cases, Option-cases,
}
use agent_waypoint.Common.Text.{Text}
use agent_waypoint.Common.Json.{Json}
use agent_waypoint.Store.{
  TurnStatus, EventType, Turn, ApprovalStatus, Approval, Store, find_turn, turn_has_id, is_terminal,
}
use agent_waypoint.Approvals.{
  Queue, auto_approve_config, append_event, arm_timer, cancel_timer, has_status, is_request,
  is_waiting, waiting_turn,
}
use agent_waypoint.Approvals.Publish.{
  publish, publish_open, publish_rows, auto_approve_at, arm_published, try_publish_next,
  upsert_request, enqueue, oldest, resume_turn,
}
use agent_waypoint.History.Frames.{status_at, status_of}
use agent_waypoint.Turns.{Service, Action, done, reading, with_queue}
use agent_waypoint.Turns.Ingest.{answer_rows, answer}
use agent_waypoint.Turns.Requests.Active.{
  falsity, Shrinks, Shrinks-refl, update_first-Shrinks, Closes,
}

pub append_event-turns :
    (turn : ℕ) (type : EventType) (payload : Json) (q : Queue)
    → (append_event turn type payload q).db.turns ≡ q.db.turns
unfolding append_event
append_event-turns turn type payload q = elim (Option-cases (find_turn turn q.db)) [
  | inl gone ↦ rw (gone, append_event) refl
  | inr (t, found) ↦ rw (found, append_event) refl
]

arm_published-turns :
    (a : Approval) (config : Bool × ℕ) (now : ℕ) (q : Queue)
    → (arm_published a config now q).db.turns ≡ q.db.turns
unfolding arm_published arm_timer cancel_timer
arm_published-turns a (false, seconds) now q = refl
arm_published-turns a (true, seconds) now q = elim (Bool-cases (ltb 0 seconds)) [
  | inl later ↦ rw (later, arm_published) refl
  | inr at_once ↦ rw (at_once, arm_published) refl
]

-- A turn that goes on, and waits for an answer now.
publish_rows-Shrinks :
    (a : Approval) (t : Turn) (now : ℕ) (at : Option ℕ) (db : Store)
    → find? (turn_has_id t.id) db.turns ≡ some t
    → is_terminal t.status ≡ false
    → Shrinks db.turns (publish_rows a t now at db).turns
publish_rows-Shrinks a t now at db found open_ = elim (Bool-cases (is_waiting t.status)) [
  | inl waiting ↦ rw (waiting, publish_rows) (Shrinks-refl db.turns)
  | inr other ↦
      rw (other, publish_rows)
        (update_first-Shrinks (turn_has_id t.id) (waiting_turn now) db.turns (λ x. refl)
          (λ x e k. let same : t ≡ x = cc in rw (← same, open_) refl))
]

publish-Shrinks :
    (a : Approval) (now : ℕ) (q : Queue) → Shrinks q.db.turns (publish a now q).db.turns
unfolding publish publish_open
publish-Shrinks a now q = elim (Option-cases (find_turn a.turn_id q.db)) [
  | inl gone ↦ rw (gone, publish) (Shrinks-refl q.db.turns)
  | inr (t, found) ↦ elim (Bool-cases (is_terminal t.status)) [
    | inl over ↦ rw (found, publish, over) (Shrinks-refl q.db.turns)
    | inr open_ ↦
        let own : t.id ≡ a.turn_id =
          (==_iff t.id a.turn_id).0 (find?-test (turn_has_id a.turn_id) q.db.turns found) in
        rw (found, publish, open_)
          (subst (Shrinks q.db.turns)
            (sym (
              arm_published-turns a _ now _
              ∙ append_event-turns t.id EventType.approval_requested _ _))
            (publish_rows-Shrinks a t now
              (auto_approve_at (auto_approve_config t.effective_runtime_config) now) q.db
              (subst (λ id. find? (turn_has_id id) q.db.turns ≡ some t) (sym own) found) open_))
  ]
]

try_publish_next-Shrinks :
    (turn now : ℕ) (q : Queue) → Shrinks q.db.turns (try_publish_next turn now q).db.turns
unfolding try_publish_next
try_publish_next-Shrinks turn now q =
    elim (Bool-cases (any (has_status turn ApprovalStatus.pending) q.db.approvals)) [
      | inl busy ↦ rw (busy, try_publish_next) (Shrinks-refl q.db.turns)
      | inr idle ↦
          elim (Option-cases
            (oldest (filter (has_status turn ApprovalStatus.queued) q.db.approvals))) [
              | inl nobody ↦ rw (idle, try_publish_next, nobody) (Shrinks-refl q.db.turns)
              | inr (a, first) ↦ rw (idle, try_publish_next, first) (publish-Shrinks a now q)
            ]
    ]

upsert_request-turns :
    (turn : ℕ) (request kind : Text) (payload : Json) (now : ℕ) (db : Store)
    → (upsert_request turn request kind payload now db).turns ≡ db.turns
unfolding upsert_request
upsert_request-turns turn request kind payload now db =
    elim (Bool-cases (any (is_request turn request) db.approvals)) [
      | inl known ↦ rw (known, upsert_request) refl
      | inr new ↦ rw (new, upsert_request) refl
    ]

pub enqueue-Shrinks :
    (turn : ℕ) (request kind : Text) (payload : Json) (now : ℕ) (q : Queue)
    → Shrinks q.db.turns (enqueue turn request kind payload now q).db.turns
unfolding enqueue
enqueue-Shrinks turn request kind payload now q =
    subst (λ ts. Shrinks ts (enqueue turn request kind payload now q).db.turns)
      (upsert_request-turns turn request kind payload now q.db)
      (try_publish_next-Shrinks turn now _)

abbrev pub on_queue : (Queue → Queue) → Action
on_queue f = reading (λ s r. done (with_queue (f s.queue) r))

pub publish_next-Closes : (turn now : ℕ) → Closes (on_queue (try_publish_next turn now))
publish_next-Closes turn now s = try_publish_next-Shrinks turn now s.queue

waiting_active :
    (t : Turn) (st : TurnStatus)
    → is_waiting t.status ≡ true
    → ◌≡◌ {A = Option TurnStatus} (some st) (some t.status)
    → not (is_terminal st) ≡ true
waiting_active t TurnStatus.queued w e = refl
waiting_active t TurnStatus.running w e = refl
waiting_active t TurnStatus.waiting_approval w e = refl
waiting_active t TurnStatus.completed w e =
    let same : TurnStatus.completed ≡ t.status = cc in absurd (falsity (sym (rw (← same) at w)))
waiting_active t TurnStatus.failed w e =
    let same : TurnStatus.failed ≡ t.status = cc in absurd (falsity (sym (rw (← same) at w)))
waiting_active t TurnStatus.cancelled w e =
    let same : TurnStatus.cancelled ≡ t.status = cc in absurd (falsity (sym (rw (← same) at w)))

-- An answer lets a turn run that waits: the row is the one that the call has read.
pub answer-Shrinks :
    (t : Turn) (request decision : Text) (now : ℕ) (s : Service)
    → status_at t.id s.queue.db.turns ≡ some t.status
    → Shrinks s.queue.db.turns (on_queue (answer t request decision now) s).0.queue.db.turns
unfolding answer answer_rows cancel_timer
answer-Shrinks t request decision now s e = elim (Bool-cases (is_waiting t.status)) [
  | inr other ↦ rw (other, answer_rows) (Shrinks-refl s.queue.db.turns)
  | inl waiting ↦
      rw (waiting, answer_rows)
        (update_first-Shrinks (turn_has_id t.id) resume_turn s.queue.db.turns (λ x. refl)
          (λ x found k.
            waiting_active t x.status waiting (subst (λ o. status_of o ≡ some t.status) found e)))
]
