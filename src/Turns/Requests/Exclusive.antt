-- ===== src/Turns/Requests/Exclusive.antt =====
-- apps/api/src/modules/turns/turns.service.ts: the active turns of a session, over any sequence of requests of the users, of
-- events of the runner, and of timers. A step is a call, or the part of one between two waits; the ingestion of an event
-- is one step.
use native.Mathlib.Nat.{le_trans}
use agent_waypoint.Common.{
  ℕ, zero, suc, ◌≤◌, ◌≡◌, refl, subst, arith, Bool, false, not, List, [], ◌∷◌, Option, ◌==◌, any,
  count, count-append, count-eq-zero, inl, inr, Bool-cases, Option-cases,
}
use agent_waypoint.Common.Text.{Text, text}
use agent_waypoint.Common.Json.{Fields}
use agent_waypoint.Store.{EventType, Turn, Store, find_turn}
use agent_waypoint.TurnConfig.{SessionRuntime, read_session_runtime}
use agent_waypoint.History.{create_message}
use agent_waypoint.Approvals.{Timer}
use agent_waypoint.Approvals.Pause.{pause_timer, resume_timer, expire_timer, recover_timers}
use agent_waypoint.Approvals.Calls.{after}
use agent_waypoint.Turns.Steering.{SteerAnswer, steer, begin_dispatch, Delivery, end_dispatch}
use agent_waypoint.Turns.Requests.Steers.{
  Follows, steer-Fine, begin_dispatch-Fine, end_dispatch-Fine,
}
use agent_waypoint.Turns.Requests.Clocks.{
  pause_timer-Follows, resume_timer-Follows, expire_timer-Follows, recover_timers-Follows,
}
use agent_waypoint.Turns.{PendingContext, Service, with_store, with_queue}
use agent_waypoint.Turns.Append.{
  all_keys, is_nil, flush_keys, flush_all_rounds, flush_all, flush_turn,
}
use agent_waypoint.Turns.Context.{
  flush_each_context, flush_all_contexts, flush_context, flush_contexts,
}
use agent_waypoint.Turns.Ingest.{ingest}
use agent_waypoint.Turns.Ingest.Keeps.{IsSound, same-IsSound, flush_turn-Keeps}
use agent_waypoint.Turns.Ingest.Sound.{ingest-IsSound}
use agent_waypoint.Turns.Ingest.Cases.{fail_turn-Keeps, fail_current-Keeps}
use agent_waypoint.Turns.Ingest.Parts.{flush_contexts-Keeps}
use agent_waypoint.Turns.Ends.{fail_current}
use agent_waypoint.Turns.Ingest.Runs.{
  Call, ingests, batch_timer, context_timer, stops, call, call-Keeps,
}
use agent_waypoint.Turns.Requests.{
  is_active, is_active_of, Session, TurnRequest, Created, created, refused, create_rows,
  create_turn, fail_dispatch, failure_payload, RunnerAnswer, close_orphan, orphan_payload,
  cancel_turn,
}
use agent_waypoint.Turns.Requests.Active.{Shrinks, Shrinks-refl, Closes}
use agent_waypoint.Turns.Requests.Parts.{
  then-Closes, done-Closes, flush_contexts-Closes, flush_turn-Closes, flush_key-Closes,
  flush_keys-Closes, flush_context-Closes,
}
use agent_waypoint.Turns.Requests.Handlers.{fail_turn-Closes, fail_current-Closes}
use agent_waypoint.Turns.Requests.Ingests.{ingest-Shrinks}

-- A session has one active turn at most.
unfoldable pub IsExclusive : List Turn → Type 0
IsExclusive ts = (session : ℕ) → count (is_active_of session) ts ≤ 1

pub data Step : Type 0 where
  creates : Session → TurnRequest → Bool → Step
  cancels : RunnerAnswer → ℕ → Step
  dispatch_fails : Turn → Text → Step
  -- The parts of a failure between which events may be ingested.
  saves_context saves_batches : ℕ → Step
  fails : Turn → Text → Step
  calls : Call → Step
  -- Steering, and the two parts of the dispatch of an input.
  steers : Bool → SteerAnswer → ℕ → Text → Option Text → Text → Step
  begins_dispatch : Bool → Bool → ℕ → ℕ → Step
  ends_dispatch : Delivery → ℕ → ℕ → Step
  -- The timers of approvals.
  pauses resumes : ℕ → Text → Step
  expires : Timer → Step
  recovers : Step

abbrev pub after_create : Created → Service → Service
after_create (created db t) s = with_store db s
after_create (refused why) s = s

module _ (keeps_history : Text → Bool) where
  unfoldable pub step : ℕ → Step → Service → Service
  step now (creates session input allowed) s =
      after_create (create_turn keeps_history allowed session input now s.queue.db) s
  step now (cancels answer turn) s = (cancel_turn answer turn now s).0
  step now (dispatch_fails t message) s = (fail_dispatch t message now s).0
  step now (saves_context turn) s = (flush_contexts turn now s).0
  step now (saves_batches turn) s = (flush_turn turn now s).0
  step now (fails t message) s =
      (fail_current t.id t.status (text "RUNNER_DISPATCH_FAILED") message
        (failure_payload (text "RUNNER_DISPATCH_FAILED") message) [] now s).0
  step now (calls c) s = (call now c s).0
  step now (steers enabled answer turn content client fresh) s =
      (steer enabled answer turn content client fresh now s).0
  step now (begins_dispatch stopping late turn id) s =
      (begin_dispatch stopping late turn id now s).0
  step now (ends_dispatch answer turn id) s = (end_dispatch answer turn id now s).0
  step now (pauses turn request) s =
      with_queue (after s.queue (pause_timer turn request now s.queue)) s
  step now (resumes turn request) s =
      with_queue (after s.queue (resume_timer turn request now s.queue)) s
  step now (expires t) s = with_queue (expire_timer t s.queue) s
  step now recovers s = with_queue (recover_timers now s.queue) s

  unfoldable pub run : List (ℕ × Step) → Service → Service
  unfolding step
  run [] s = s
  run ((now, x) ∷ xs) s = run xs (step now x s)

-- A sound service whose sessions have one active turn at most.
pub record IsWell (s : Service) : Type 0 where
  pub sound : IsSound s
  pub exclusive : IsExclusive s.queue.db.turns

closing-IsExclusive : (ts us : List Turn) → Shrinks ts us → IsExclusive ts → IsExclusive us
unfolding IsExclusive
closing-IsExclusive ts us h v session = le_trans (h session) (v session)

create_rows-IsExclusive :
    (session : Session) (runtime : SessionRuntime) (input : TurnRequest) (keeps : Bool) (now : ℕ)
    (db : Store)
    → any (is_active_of session.id) db.turns ≡ false
    → IsExclusive db.turns
    → IsExclusive (create_rows session runtime input keeps now db).0.turns
unfolding create_message IsExclusive
create_rows-IsExclusive session runtime input keeps now db idle v id =
    let t = (create_rows session runtime input keeps now db).1 in
    let both = count-append (is_active_of id) db.turns (t ∷ []) in
    elim (Bool-cases (session.id == id)) [
      | inl own ↦
          let same : session.id ≡ id = ground arith in
          let none_yet : count (is_active_of id) db.turns ≡ 0 =
            subst (λ k. count (is_active_of k) db.turns ≡ 0) same
              (count-eq-zero (is_active_of session.id) db.turns idle) in
          let one : count (is_active_of id) (t ∷ []) ≡ 1 = rw own refl in
          omega (arith, both, none_yet, one)
      | inr other ↦
          let nothing : count (is_active_of id) (t ∷ []) ≡ 0 = rw other refl in
          omega (arith, both, nothing, v id)
    ]

create_turn-IsWell :
    (keeps : Text → Bool) (allowed : Bool) (session : Session) (input : TurnRequest) (now : ℕ)
    (s : Service)
    → IsWell s
    → IsWell (after_create (create_turn keeps allowed session input now s.queue.db) s)
unfolding create_turn create_message
create_turn-IsWell keeps allowed session input now s v =
    elim (Option-cases (read_session_runtime session.meta)) [
      | inl gone ↦ rw (gone, create_turn) v
      | inr (runtime, there) ↦ elim (Bool-cases (not allowed)) [
        | inl switching ↦ rw (there, create_turn, switching) v
        | inr settled ↦ elim (Bool-cases (any (is_active_of session.id) s.queue.db.turns)) [
          | inl busy ↦ rw (there, create_turn, settled, busy) v
          | inr idle ↦
              rw (there, create_turn, settled, idle)
                (record {
                  sound = same-IsSound refl refl v.sound;
                  exclusive =
                      create_rows-IsExclusive session runtime input (keeps runtime.backend) now
                        s.queue.db idle v.exclusive;
                })
        ]
      ]
    ]

flush_all_rounds-Closes : (fuel now : ℕ) → Closes (flush_all_rounds fuel now)
unfolding flush_all_rounds
flush_all_rounds-Closes zero now s = Shrinks-refl s.queue.db.turns
flush_all_rounds-Closes (suc fuel) now s = elim (Bool-cases (is_nil (all_keys s))) [
  | inl empty ↦ rw empty (Shrinks-refl s.queue.db.turns)
  | inr more ↦ rw more (
      then-Closes (flush_keys now (all_keys s)) (flush_all_rounds fuel now)
        (flush_keys-Closes now (all_keys s)) (flush_all_rounds-Closes fuel now) s)
]

flush_each_context-Closes :
    (cs : List PendingContext) (now : ℕ) → Closes (flush_each_context cs now)
unfolding flush_each_context
flush_each_context-Closes [] now = done-Closes
flush_each_context-Closes (c ∷ cs) now =
    then-Closes (flush_context c.turn_id now) (flush_each_context cs now)
      (flush_context-Closes c.turn_id now) (flush_each_context-Closes cs now)

call-Shrinks :
    (now : ℕ) (c : Call) (s : Service)
    → IsSound s
    → Shrinks s.queue.db.turns (call now c s).0.queue.db.turns
unfolding call flush_all flush_all_contexts
call-Shrinks now (ingests turn type payload) s v = ingest-Shrinks turn type payload now s v
call-Shrinks now (batch_timer key) s v = flush_key-Closes now key s
call-Shrinks now (context_timer turn) s v = flush_context-Closes turn now s
call-Shrinks now stops s v =
    then-Closes (flush_all_contexts now) (flush_all now)
      (λ u. flush_each_context-Closes u.contexts now u) (flush_all_rounds-Closes 2 now) s

ingested-IsWell :
    (turn : ℕ) (type : EventType) (payload : Fields) (now : ℕ) (s : Service)
    → IsWell s
    → IsWell (ingest turn type payload now s).0
ingested-IsWell turn type payload now s v = record {
  sound = ingest-IsSound turn type payload now s v.sound;
  exclusive =
      closing-IsExclusive s.queue.db.turns _ (ingest-Shrinks turn type payload now s v.sound)
        v.exclusive;
}

close_orphan-IsWell :
    (answer : RunnerAnswer) (turn now : ℕ) (s : Service)
    → IsWell s
    → IsWell (close_orphan answer turn now s).0
unfolding close_orphan
close_orphan-IsWell RunnerAnswer.cancelled turn now s v = v
close_orphan-IsWell RunnerAnswer.error turn now s v = v
close_orphan-IsWell RunnerAnswer.not_cancelled turn now s v =
    ingested-IsWell turn EventType.turn_cancelled orphan_payload now s v
close_orphan-IsWell RunnerAnswer.missing turn now s v =
    ingested-IsWell turn EventType.turn_cancelled orphan_payload now s v

cancel_turn-IsWell :
    (answer : RunnerAnswer) (turn now : ℕ) (s : Service)
    → IsWell s
    → IsWell (cancel_turn answer turn now s).0
unfolding cancel_turn
cancel_turn-IsWell answer turn now s v = elim (Option-cases (find_turn turn s.queue.db)) [
  | inl gone ↦ rw (gone, cancel_turn) v
  | inr (t, found) ↦ elim (Bool-cases (is_active t)) [
    | inl on ↦ rw (found, cancel_turn, on) (close_orphan-IsWell answer turn now s v)
    | inr over ↦ rw (found, cancel_turn, over) v
  ]
]

Follows-IsWell : (s u : Service) → Follows s u → IsWell s → IsWell u
Follows-IsWell s u h v = record {
  sound = h.0 v.sound;
  exclusive = closing-IsExclusive s.queue.db.turns u.queue.db.turns h.1 v.exclusive;
}

module _ (keeps_history : Text → Bool) where
  step-IsWell : (now : ℕ) (x : Step) (s : Service) → IsWell s → IsWell (step keeps_history now x s)
  unfolding step fail_dispatch
  step-IsWell now (creates session input allowed) s v =
      create_turn-IsWell keeps_history allowed session input now s v
  step-IsWell now (cancels answer turn) s v = cancel_turn-IsWell answer turn now s v
  step-IsWell now (dispatch_fails t message) s v = record {
    sound = fail_turn-Keeps t.status _ message _ [] now t.id s v.sound;
    exclusive =
        closing-IsExclusive s.queue.db.turns _ (fail_turn-Closes t.status _ message _ [] now t.id s)
          v.exclusive;
  }
  step-IsWell now (saves_context turn) s v =
      Follows-IsWell s _ (flush_contexts-Keeps turn now s, flush_contexts-Closes turn now s) v
  step-IsWell now (saves_batches turn) s v =
      Follows-IsWell s _ (flush_turn-Keeps turn now s, flush_turn-Closes turn now s) v
  step-IsWell now (fails t message) s v = record {
    sound = fail_current-Keeps t.status _ message _ [] now t.id s v.sound;
    exclusive =
        closing-IsExclusive s.queue.db.turns _
          (fail_current-Closes t.status _ message _ [] now t.id s) v.exclusive;
  }
  step-IsWell now (calls c) s v = record {
    sound = call-Keeps now c s v.sound;
    exclusive = closing-IsExclusive s.queue.db.turns _ (call-Shrinks now c s v.sound) v.exclusive;
  }
  step-IsWell now (steers enabled answer turn content client fresh) s v =
      Follows-IsWell s _ (steer-Fine answer turn content fresh now enabled client s) v
  step-IsWell now (begins_dispatch stopping late turn id) s v =
      Follows-IsWell s _ (begin_dispatch-Fine stopping late turn id now s) v
  step-IsWell now (ends_dispatch answer turn id) s v =
      Follows-IsWell s _ (end_dispatch-Fine answer turn id now s) v
  step-IsWell now (pauses turn request) s v =
      Follows-IsWell s _ (pause_timer-Follows s turn request now) v
  step-IsWell now (resumes turn request) s v =
      Follows-IsWell s _ (resume_timer-Follows s turn request now) v
  step-IsWell now (expires t) s v = Follows-IsWell s _ (expire_timer-Follows s t) v
  step-IsWell now recovers s v = Follows-IsWell s _ (recover_timers-Follows s now) v

  -- Turns are created, cancelled and steered in any sessions, inputs are sent in two parts, dispatches of turns fail, at
  -- once or in parts that other steps come between, the runner's events arrive for any turns, timers of batches end,
  -- timers of approvals are paused, resumed, recovered and end, and the service stops, in any order and with whatever
  -- outcome. Where each of these steps, the ingestion of an event among them, is carried out whole before the next, no
  -- session ever has two active turns, and the events of each turn stay numbered without a gap.
  pub run-IsWell :
      (steps : List (ℕ × Step)) (s : Service) → IsWell s → IsWell (run keeps_history steps s)
  unfolding run
  run-IsWell [] s v = v
  run-IsWell ((now, x) ∷ xs) s v =
      run-IsWell xs (step keeps_history now x s) (step-IsWell now x s v)
