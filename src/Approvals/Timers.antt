-- ===== src/Approvals/Timers.antt =====
-- apps/api/src/modules/turns/approval-queue.service.ts: the timer of an approval, over `pauseTimer` and `resumeTimer`.
use agent_waypoint.Common.{
  ℕ, ◌+◌, ◌-◌, ◌≡◌, refl, Bool, true, false, List, [], ◌∷◌, none, some, arith, find?, find?-test,
  find?-filter-not, any-filter-not, any, update_first, is_some, get_or,
}
use agent_waypoint.Common.Text.{Text, text_eq_refl}
use agent_waypoint.Store.{EventType, Approval}
use agent_waypoint.Approvals.{
  Timer, Queue, ok, has_row_id, append_event, cancel_timer, arm_timer, is_timer,
}
use agent_waypoint.Approvals.Publish.{is_pending_request}
use agent_waypoint.Approvals.Pause.{
  pending_approval, paused_row, pause_row, pause_timer, resumed_row, resume_row, resume_timer,
}
use agent_waypoint.Approvals.Single.{IsSerial, append_event-rows}
use agent_waypoint.Approvals.Rows.{find?-Stands}

-- The row that is changed under its identifier is the one that is found by its request.
find?-update_first_row :
    (p q : Approval → Bool) (f : Approval → Approval) (rows : List Approval) {a : Approval}
    → find? p rows ≡ some a
    → find? q rows ≡ some a
    → ((x : Approval) → p (f x) ≡ p x)
    → find? p (update_first q f rows) ≡ some (f a)
find?-update_first_row p q f [] e e' k = cc
find?-update_first_row p q f (x ∷ rows) {a} e e' k = ground (
  arith,
  k x,
  find?-test p (x ∷ rows) e,
  find?-test q (x ∷ rows) e',
  find?-update_first_row p q f rows {a = a},
)

pause_row-timers :
    (turn : ℕ) (request : Text) (now at : ℕ) (a : Approval) (q : Queue)
    → any (is_timer turn request) (pause_row a at now turn request q).0.timers ≡ false
unfolding append_event cancel_timer
pause_row-timers turn request now at a q = any-filter-not (is_timer turn request) q.timers

abbrev pub timer_at : ℕ → Text → ℕ → Timer
timer_at turn request due = record { turn_id = turn; request_id = request; due = due }

is_timer_self :
    (turn : ℕ) (request : Text) (due : ℕ) → is_timer turn request (timer_at turn request due) ≡ true
is_timer_self turn request due = ground (arith, text_eq_refl request)

resume_row-timers :
    (turn : ℕ) (request : Text) (later : ℕ) (b : Approval) (q : Queue)
    → find? (is_timer turn request) (resume_row b later turn request q).0.timers
      ≡ some (timer_at turn request (later + get_or b.paused_remaining_ms 0))
unfolding append_event arm_timer cancel_timer
resume_row-timers turn request later b q =
    let timer = timer_at turn request (later + get_or b.paused_remaining_ms 0) in
    find?-filter-not (is_timer turn request) q.timers timer
      (is_timer_self turn request (later + get_or b.paused_remaining_ms 0))

pause_timer_lem :
    (turn : ℕ) (request : Text) (now at : ℕ) (a : Approval) (q : Queue)
    → pending_approval turn request q ≡ some a
    → a.paused_at ≡ none
    → a.auto_approve_at ≡ some at
    → pause_timer turn request now q ≡ ok (pause_row a at now turn request q)
unfolding pause_timer
pause_timer_lem turn request now at a q found free e = rw (found, pause_timer) (simp (free, e))

resume_timer_lem :
    (turn : ℕ) (request : Text) (now : ℕ) (a : Approval) (q : Queue)
    → pending_approval turn request q ≡ some a
    → is_some a.paused_at ≡ true
    → resume_timer turn request now q ≡ ok (resume_row a now turn request q)
unfolding resume_timer
resume_timer_lem turn request now a q found held = rw (found, resume_timer) (simp held)

pause_row-pending :
    (turn : ℕ) (request : Text) (now at : ℕ) (a : Approval) (q : Queue)
    → IsSerial q.db
    → pending_approval turn request q ≡ some a
    → pending_approval turn request (pause_row a at now turn request q).0
      ≡ some (paused_row now (at - now) a)
unfolding cancel_timer
pause_row-pending turn request now at a q v found =
    rw ((append_event-rows turn EventType.timer_paused _ _).0) (
      find?-update_first_row (is_pending_request turn request) (has_row_id a.id)
        (paused_row now (at - now)) q.db.approvals found
        (find?-Stands (is_pending_request turn request) q.db.approvals v.unique found).0
        (λ x. refl))

-- Where identifiers are unique and an approval is pending, not paused and has a moment at which it is accepted: it
-- can be paused, after which it has no timer, and then resumed, after which its moment and its timer are as
-- far ahead as they were when it was paused, or at once where that moment had passed.
pub pause_resume :
    (turn : ℕ) (request : Text) (now later at : ℕ) (a : Approval) (q : Queue)
    → IsSerial q.db
    → pending_approval turn request q ≡ some a
    → a.paused_at ≡ none
    → a.auto_approve_at ≡ some at
    → (held resumed : Queue) × (b c : Approval) × (pause_timer turn request now q ≡ ok (held, b))
      × (any (is_timer turn request) held.timers ≡ false)
      × (resume_timer turn request later held ≡ ok (resumed, c))
      × (c.auto_approve_at ≡ some (later + (at - now)))
      × (find? (is_timer turn request) resumed.timers
          ≡ some (timer_at turn request (later + (at - now))))
pause_resume turn request now later at a q v found free e =
    let held = (pause_row a at now turn request q).0 in
    let b = paused_row now (at - now) a in
    (
      held,
      (resume_row b later turn request held).0,
      b,
      resumed_row (later + (at - now)) b,
      pause_timer_lem turn request now at a q found free e,
      pause_row-timers turn request now at a q,
      resume_timer_lem turn request later b held (pause_row-pending turn request now at a q v found)
          refl,
      refl,
      resume_row-timers turn request later b held,
    )
