-- ===== src/Approvals/Calls.antt =====
-- apps/api/src/modules/turns/approval-queue.service.ts: runs of the methods of ApprovalQueueService, in any order.
use native.Mathlib.Nat.{le_trans}
use agent_waypoint.Common.{
  ℕ, ◌+◌, ◌≡◌, refl, ◌∙◌, Bool, List, [], ◌∷◌, arith, inl, inr, Bool-cases, Option-cases,
  All-update_where, is_some, get_or, ◌-◌,
}
use agent_waypoint.Common.Text.{Text}
use agent_waypoint.Common.Json.{Json}
use agent_waypoint.Store.{EventType, Turn, ApprovalStatus, Approval}
use agent_waypoint.Approvals.{
  Timer, Queue, Result, ok, err, has_status, has_row_id, cancel_timer, arm_timer,
}
use agent_waypoint.Approvals.Publish.{enqueue, resolve, resolved_row, is_pending_request}
use agent_waypoint.Approvals.Pause.{
  pending_approval, paused_row, pause_row, pause_timer, resumed_row, resume_row, resume_timer, fire,
  expire_timer, recover_one, recover_rows, recover_timers,
}
use agent_waypoint.Approvals.Rows.{update_where-HasUniqueIds, count-update_where-le}
use agent_waypoint.Approvals.Single.{
  IsSerial, change_rows-IsSerial, append_event-IsSerial, try_publish_next-IsSerial,
  enqueue-IsSerial,
}

pub data Call : Type 0 where
  enqueues : ℕ → Text → Text → Json → Call
  resolves : Turn → Text → Text → Bool → Json → Call
  pauses resumes : ℕ → Text → Call
  expires : Timer → Call
  recovers : Call

-- A call that is refused changes nothing.
abbrev pub after : Queue → Result (Queue × Approval) → Queue
after q (ok (q', a)) = q'
after q (err e) = q

unfoldable pub step : Queue → ℕ × Call → Queue
step q (now, enqueues turn request kind payload) = enqueue turn request kind payload now q
step q (now, resolves t request decision accepted payload) =
    resolve t request decision accepted payload now q
step q (now, pauses turn request) = after q (pause_timer turn request now q)
step q (now, resumes turn request) = after q (resume_timer turn request now q)
step q (now, expires t) = expire_timer t q
step q (now, recovers) = recover_timers now q

unfoldable pub run : Queue → List (ℕ × Call) → Queue
unfolding step
run q [] = q
run q (c ∷ cs) = run (step q c) cs

resolve-IsSerial :
    (t : Turn) (request decision : Text) (accepted : Bool) (payload : Json) (now : ℕ) (q : Queue)
    → IsSerial q.db
    → IsSerial (resolve t request decision accepted payload now q).db
unfolding resolve cancel_timer
resolve-IsSerial t request decision accepted payload now q v =
    try_publish_next-IsSerial t.id now _ (
      append_event-IsSerial t.id EventType.approval_resolved payload _ (record {
        unique =
            update_where-HasUniqueIds (resolved_row decision accepted now) (λ x. refl)
              (is_pending_request t.id request) q.db.approvals v.unique;
        fresh =
            All-update_where _ (is_pending_request t.id request)
              (resolved_row decision accepted now) q.db.approvals (λ x _ h. h) v.fresh;
        single = λ turn.
            le_trans
              (count-update_where-le (has_status turn ApprovalStatus.pending)
                (is_pending_request t.id request) (resolved_row decision accepted now)
                q.db.approvals (λ x h. absurd (ground arith)))
              (v.single turn);
      }))

pause_row-IsSerial :
    (a : Approval) (at now turn : ℕ) (request : Text) (q : Queue)
    → IsSerial q.db
    → IsSerial (pause_row a at now turn request q).0.db
unfolding cancel_timer
pause_row-IsSerial a at now turn request q v =
    append_event-IsSerial turn EventType.timer_paused _ _ (
      change_rows-IsSerial q.db (has_row_id a.id) (paused_row now (at - now)) (λ x. refl)
        (λ k x h. h) v)

resume_row-IsSerial :
    (a : Approval) (now turn : ℕ) (request : Text) (q : Queue)
    → IsSerial q.db
    → IsSerial (resume_row a now turn request q).0.db
unfolding arm_timer cancel_timer
resume_row-IsSerial a now turn request q v =
    append_event-IsSerial turn EventType.timer_resumed _ _ (
      change_rows-IsSerial q.db (has_row_id a.id)
        (resumed_row (now + get_or a.paused_remaining_ms 0)) (λ x. refl) (λ k x h. h) v)

-- A pause or a resumption is refused, or changes the pending row that it found.
pub pause_timer_rule {ℓ} :
    (P : Queue → Type ℓ) (turn : ℕ) (request : Text) (now : ℕ) (q : Queue)
    → P q
    → ((a : Approval) (at : ℕ) → P (pause_row a at now turn request q).0)
    → P (after q (pause_timer turn request now q))
unfolding pause_timer
pause_timer_rule P turn request now q k0 k = elim (Option-cases (pending_approval turn request q)) [
  | inl missing ↦ rw (missing, pause_timer) k0
  | inr (a, found) ↦
      rw (found, pause_timer)
        (elim (Bool-cases (is_some a.paused_at)) [
          | inl held ↦ simp held k0
          | inr free ↦ simp free (elim (Option-cases a.auto_approve_at) [
            | inl never ↦ simp never k0
            | inr (at, e) ↦ simp e (k a at)
          ])
        ])
]

pub resume_timer_rule {ℓ} :
    (P : Queue → Type ℓ) (turn : ℕ) (request : Text) (now : ℕ) (q : Queue)
    → P q
    → ((a : Approval) → P (resume_row a now turn request q).0)
    → P (after q (resume_timer turn request now q))
unfolding resume_timer
resume_timer_rule P turn request now q k0 k =
    elim (Option-cases (pending_approval turn request q)) [
      | inl missing ↦ rw (missing, resume_timer) k0
      | inr (a, found) ↦
          rw (found, resume_timer)
            (elim (Bool-cases (is_some a.paused_at)) [
              | inl held ↦ simp held (k a)
              | inr free ↦ simp free k0
            ])
    ]

-- What has to do with timers alone leaves the database as it is.
db-fire : (turn : ℕ) (request : Text) (q : Queue) → (fire turn request q).db ≡ q.db
unfolding fire
db-fire turn request q = ground arith

db-recover_one : (a : Approval) (now : ℕ) (q : Queue) → (recover_one a now q).db ≡ q.db
unfolding recover_one arm_timer cancel_timer
db-recover_one a now q = ground arith

db-recover_rows : (rows : List Approval) (now : ℕ) (q : Queue) → (recover_rows rows now q).db ≡ q.db
unfolding recover_rows
db-recover_rows [] now q = refl
db-recover_rows (a ∷ rows) now q =
    db-recover_rows rows now (recover_one a now q) ∙ db-recover_one a now q

step-IsSerial : (q : Queue) (c : ℕ × Call) → IsSerial q.db → IsSerial (step q c).db
unfolding step expire_timer recover_timers
step-IsSerial q (now, enqueues turn request kind payload) v =
    enqueue-IsSerial turn request kind payload now q v
step-IsSerial q (now, resolves t request decision accepted payload) v =
    resolve-IsSerial t request decision accepted payload now q v
step-IsSerial q (now, pauses turn request) v =
    pause_timer_rule (λ x. IsSerial x.db) turn request now q v
      (λ a at. pause_row-IsSerial a at now turn request q v)
step-IsSerial q (now, resumes turn request) v =
    resume_timer_rule (λ x. IsSerial x.db) turn request now q v
      (λ a. resume_row-IsSerial a now turn request q v)
step-IsSerial q (now, expires t) v = rw (db-fire t.turn_id t.request_id _) v
step-IsSerial q (now, recovers) v = rw (db-recover_rows q.db.approvals now q) v

-- Whatever calls are made in whatever order, timers that expire and a start of the process included: where each
-- turn has at most one pending approval, no identifier of an approval is used twice and the next one is unused,
-- that is so afterwards.
pub run-IsSerial : (q : Queue) (cs : List (ℕ × Call)) → IsSerial q.db → IsSerial (run q cs).db
unfolding run
run-IsSerial q [] v = v
run-IsSerial q (c ∷ cs) v = run-IsSerial (step q c) cs (step-IsSerial q c v)
