-- ===== src/Turns/Requests/Clocks.antt =====
-- apps/api/src/modules/turns: the active turns and the numbered events before and after the calls on the timers of approvals.
use agent_waypoint.Common.{
  ℕ, ◌≡◌, refl, sym, subst, ◌∙◌, not, ◌&&◌, leb, List, [], ◌∷◌, find?, is_some, inl, inr,
  Bool-cases, Option-cases,
}
use agent_waypoint.Common.Text.{Text}
use agent_waypoint.Common.Json.{Json}
use agent_waypoint.Store.{EventType, ApprovalStatus, Approval}
use agent_waypoint.Approvals.{
  Queue, Timer, is_request, status_eq, arm_timer, cancel_timer, append_event,
}
use agent_waypoint.Approvals.Pause.{
  pause_timer, resume_timer, pending_approval, expire_timer, fire, recover_one, recover_rows,
  recover_timers,
}
use agent_waypoint.Approvals.Calls.{after}
use agent_waypoint.Turns.{Service, with_queue}
use agent_waypoint.Turns.Append.Numbered.{IsNumbered}
use agent_waypoint.Turns.Ingest.Parts.{append_event-IsNumbered}
use agent_waypoint.Turns.Requests.Active.{same-Shrinks}
use agent_waypoint.Turns.Requests.Answers.{append_event-turns}
use agent_waypoint.Turns.Requests.Steers.{Follows}

-- The queue after another: the same turns, and events that are numbered still.
abbrev Calm : Queue → Queue → Type 0
Calm q r = (r.db.turns ≡ q.db.turns) × (IsNumbered q.db.events → IsNumbered r.db.events)

Calm-Follows : (r : Queue) (s : Service) → Calm s.queue r → Follows s (with_queue r s)
Calm-Follows r s h = (
  (λ v. record { numbered = h.1 v.numbered; waiting = v.waiting }),
  same-Shrinks s.queue.db.turns r.db.turns h.0,
)

append_event-Calm :
    (turn : ℕ) (type : EventType) (payload : Json) (q r : Queue)
    → r.db.turns ≡ q.db.turns
    → r.db.events ≡ q.db.events
    → Calm q (append_event turn type payload r)
append_event-Calm turn type payload q r same rows = (
  append_event-turns turn type payload r ∙ same,
  λ v. append_event-IsNumbered turn type payload r (subst IsNumbered (sym rows) v),
)

pause_timer-Calm :
    (turn : ℕ) (request : Text) (now : ℕ) (q : Queue)
    → Calm q (after q (pause_timer turn request now q))
unfolding pause_timer cancel_timer
pause_timer-Calm turn request now q = elim (Option-cases (pending_approval turn request q)) [
  | inl gone ↦ rw (gone, pause_timer) (refl, λ v. v)
  | inr (a, found) ↦ elim (Bool-cases (is_some a.paused_at)) [
    | inl twice ↦ rw (found, twice, pause_timer) (refl, λ v. v)
    | inr runs ↦ elim (Option-cases a.auto_approve_at) [
      | inl free ↦ rw (found, runs, free, pause_timer) (refl, λ v. v)
      | inr (at, timed) ↦
          rw (found, runs, timed, pause_timer)
            (append_event-Calm turn EventType.timer_paused _ q _ refl refl)
    ]
  ]
]

resume_timer-Calm :
    (turn : ℕ) (request : Text) (now : ℕ) (q : Queue)
    → Calm q (after q (resume_timer turn request now q))
unfolding resume_timer arm_timer cancel_timer
resume_timer-Calm turn request now q = elim (Option-cases (pending_approval turn request q)) [
  | inl gone ↦ rw (gone, resume_timer) (refl, λ v. v)
  | inr (a, found) ↦ elim (Bool-cases (is_some a.paused_at)) [
    | inl paused ↦
        rw (found, paused, resume_timer)
          (append_event-Calm turn EventType.timer_resumed _ q _ refl refl)
    | inr runs ↦ rw (found, runs, resume_timer) (refl, λ v. v)
  ]
]

-- A change that leaves the tables alone.
db-Calm : (q r : Queue) → r.db ≡ q.db → Calm q r
db-Calm q r e = rw e (refl, λ v. v)

db-fire : (turn : ℕ) (request : Text) (q : Queue) → (fire turn request q).db ≡ q.db
unfolding fire
db-fire turn request q = elim (Option-cases (find? (is_request turn request) q.db.approvals)) [
  | inl gone ↦ rw (gone, fire) refl
  | inr (a, found) ↦
      elim (Bool-cases (status_eq a.status ApprovalStatus.pending && not (is_some a.paused_at))) [
        | inl on ↦ rw (found, on, fire) refl
        | inr off ↦ rw (found, off, fire) refl
      ]
]

db-expire_timer : (t : Timer) (q : Queue) → (expire_timer t q).db ≡ q.db
unfolding expire_timer
db-expire_timer t q = db-fire t.turn_id t.request_id _

db-recover_one : (a : Approval) (now : ℕ) (q : Queue) → (recover_one a now q).db ≡ q.db
unfolding recover_one arm_timer cancel_timer
db-recover_one a now q =
    elim (Bool-cases (status_eq a.status ApprovalStatus.pending && not (is_some a.paused_at))) [
      | inr off ↦ rw (off, recover_one) refl
      | inl on ↦ elim (Option-cases a.auto_approve_at) [
        | inl free ↦ rw (on, free, recover_one) refl
        | inr (at, timed) ↦ elim (Bool-cases (leb at now)) [
          | inl due ↦ rw (on, timed, due, recover_one) refl
          | inr early ↦ rw (on, timed, early, recover_one) refl
        ]
      ]
    ]

db-recover_rows : (rows : List Approval) (now : ℕ) (q : Queue) → (recover_rows rows now q).db ≡ q.db
unfolding recover_rows
db-recover_rows [] now q = refl
db-recover_rows (a ∷ rows) now q =
    db-recover_rows rows now (recover_one a now q) ∙ db-recover_one a now q

db-recover_timers : (now : ℕ) (q : Queue) → (recover_timers now q).db ≡ q.db
unfolding recover_timers
db-recover_timers now q = db-recover_rows q.db.approvals now q

module _ (s : Service) where
  pub pause_timer-Follows :
      (turn : ℕ) (request : Text) (now : ℕ)
      → Follows s (with_queue (after s.queue (pause_timer turn request now s.queue)) s)
  pause_timer-Follows turn request now =
      Calm-Follows _ s (pause_timer-Calm turn request now s.queue)

  pub resume_timer-Follows :
      (turn : ℕ) (request : Text) (now : ℕ)
      → Follows s (with_queue (after s.queue (resume_timer turn request now s.queue)) s)
  resume_timer-Follows turn request now =
      Calm-Follows _ s (resume_timer-Calm turn request now s.queue)

  pub expire_timer-Follows : (t : Timer) → Follows s (with_queue (expire_timer t s.queue) s)
  expire_timer-Follows t =
      Calm-Follows _ s (db-Calm s.queue (expire_timer t s.queue) (db-expire_timer t s.queue))

  pub recover_timers-Follows : (now : ℕ) → Follows s (with_queue (recover_timers now s.queue) s)
  recover_timers-Follows now =
      Calm-Follows _ s
        (db-Calm s.queue (recover_timers now s.queue) (db-recover_timers now s.queue))
