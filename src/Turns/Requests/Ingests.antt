-- ===== src/Turns/Requests/Ingests.antt =====
-- apps/api/src/modules/turns/turns.service.ts: the active turns before and after `ingestRunnerEventNow`.
use agent_waypoint.Common.{
  ℕ, ◌≡◌, refl, sym, subst, ap, ◌∙◌, true, not, ◌&&◌, [], ◌∷◌, Option, some, ◌==◌, ==_iff, find?,
  find?-test, any, inl, inr, Bool-cases, Option-cases,
}
use agent_waypoint.Common.Json.{Fields, get, read_string, read_number}
use agent_waypoint.Store.{TurnStatus, EventType, Turn, find_turn, turn_has_id, is_terminal}
use agent_waypoint.Approvals.{is_queued}
use agent_waypoint.Approvals.Publish.{try_publish_next}
use agent_waypoint.Timeline.{read_trimmed, attach_detail_ref}
use agent_waypoint.History.Frames.{status_at, status_of}
use agent_waypoint.Turns.{Service, Action, ◌>>◌, update_turn}
use agent_waypoint.Turns.Append.{append, flush_turn}
use agent_waypoint.Turns.Context.{flush_contexts}
use agent_waypoint.Turns.Ingest.{
  is_replay, flush_boundary, is_usage, is_other_key, key_of, answer, resolve_approval,
  handle_active, is_start, ends_turn, end_projected, handle, ingest,
}
use agent_waypoint.Turns.Ingest.Starts.{
  adopt_version, adopt_thread, start, says_two, with_version, started_turn,
}
use agent_waypoint.Turns.Ingest.Keeps.{IsSound}
use agent_waypoint.Turns.Ingest.Sound.{flush_boundary-Keeps}
use agent_waypoint.Turns.Ingest.Ended.{flush_boundary-Leaves, flush_rounds-Leaves, adopting-Leaves}
use agent_waypoint.Turns.Requests.{is_active}
use agent_waypoint.Turns.Requests.Active.{Shrinks, Shrinks-refl, Closes, append-Closes}
use agent_waypoint.Turns.Requests.Parts.{
  and_then_at-Shrinks, and_then-Shrinks, then-Closes, done-Closes, flush_turn-Closes,
  flush_contexts-Closes, update_turn-Shrinks,
}
use agent_waypoint.Turns.Requests.Answers.{on_queue, publish_next-Closes, answer-Shrinks}
use agent_waypoint.Turns.Requests.Handlers.{
  complete-Closes, cancel-Closes, failed-Closes, coalesce_or_append-Closes, take_delta-Closes,
  take_reasoning-Closes, request_approval-Closes, take_usage-Closes,
}

adopt_version-Closes : (t : Turn) (payload : Fields) → Closes (adopt_version t payload)
unfolding adopt_version
adopt_version-Closes t payload s =
    elim (Bool-cases (says_two (read_number (get "historyVersion" payload)))) [
      | inl two ↦
          rw (two, adopt_version)
            (update_turn-Shrinks t.id (with_version payload) s (λ x. refl) (λ x e k. k))
      | inr one ↦ rw (one, adopt_version) (Shrinks-refl s.queue.db.turns)
    ]

adopt_thread-Closes : (t : Turn) (payload : Fields) → Closes (adopt_thread t payload)
unfolding adopt_thread
adopt_thread-Closes t payload s = elim (Option-cases (read_string (get "threadId" payload))) [
  | inl gone ↦ rw (gone, adopt_thread) (Shrinks-refl s.queue.db.turns)
  | inr ([], there) ↦ rw (there, adopt_thread) (Shrinks-refl s.queue.db.turns)
  | inr (c ∷ thread, there) ↦ rw (there, adopt_thread) (Shrinks-refl s.queue.db.turns)
]

-- The row of a turn has the status that the call has read.
abbrev IsRead : Turn → Service → Type 0
IsRead t s = status_at t.id s.queue.db.turns ≡ some t.status

read_status :
    (t x : Turn) (s : Service)
    → IsRead t s
    → find? (turn_has_id t.id) s.queue.db.turns ≡ some x
    → x.status ≡ t.status
read_status t x s e found =
    let both : ◌≡◌ {A = Option TurnStatus} (some x.status) (some t.status) =
      subst (λ o. status_of o ≡ some t.status) found e in
    cc

queued_active : (st : TurnStatus) → is_queued st ≡ true → not (is_terminal st) ≡ true
queued_active TurnStatus.queued h = refl
queued_active TurnStatus.running h = refl
queued_active TurnStatus.waiting_approval h = refl
queued_active TurnStatus.completed h = absurd cc
queued_active TurnStatus.failed h = absurd cc
queued_active TurnStatus.cancelled h = absurd cc

module _ (t : Turn) (payload : Fields) (now : ℕ) where
  started_turn-session : (x : Turn) → (started_turn t payload now x).session_id ≡ x.session_id
  started_turn-session x = elim (Bool-cases (is_queued t.status)) [
    | inl first ↦ rw (first, started_turn) refl
    | inr later ↦ rw (later, started_turn) refl
  ]

  started_turn-active :
      (x : Turn)
      → x.status ≡ t.status
      → is_active (started_turn t payload now x) ≡ true
      → is_active x ≡ true
  started_turn-active x same k = elim (Bool-cases (is_queued t.status)) [
    | inl first ↦ rw same (queued_active t.status first)
    | inr later ↦ rw (later, started_turn) at k
  ]

  start-Shrinks :
      (s : Service)
      → IsSound s
      → IsRead t s
      → Shrinks s.queue.db.turns (start t payload now s).0.queue.db.turns
  unfolding start
  start-Shrinks s v e =
      let adopts : Action = adopt_version t payload >> adopt_thread t payload in
      let still : IsRead t (adopts s).0 = adopting-Leaves t payload s v t.id ∙ e in
      and_then-Shrinks s.queue.db.turns (append t.id EventType.turn_started payload now)
        ((adopts >> update_turn t.id (started_turn t payload now)) s)
        (and_then_at-Shrinks s.queue.db.turns (update_turn t.id (started_turn t payload now))
          (adopts s)
          (then-Closes (adopt_version t payload) (adopt_thread t payload)
            (adopt_version-Closes t payload) (adopt_thread-Closes t payload) s)
          (update_turn-Shrinks t.id (started_turn t payload now) (adopts s).0 started_turn-session
            (λ x found. started_turn-active x (read_status t x (adopts s).0 still found))))
        (append-Closes t.id EventType.turn_started payload now)

  resolve_approval-Shrinks :
      (s : Service)
      → IsSound s
      → IsRead t s
      → Shrinks s.queue.db.turns (resolve_approval t payload now s).0.queue.db.turns
  unfolding resolve_approval flush_turn
  resolve_approval-Shrinks s v e = elim (Option-cases (read_trimmed (get "requestId" payload))) [
    | inl gone ↦ rw (gone, resolve_approval) (Shrinks-refl s.queue.db.turns)
    | inr (request, there) ↦ elim (Option-cases (read_trimmed (get "decision" payload))) [
      | inl missing ↦ rw (there, resolve_approval, missing) (Shrinks-refl s.queue.db.turns)
      | inr (decision, known) ↦
          let flushes : Action = flush_turn t.id now in
          let answers : Action = on_queue (answer t request decision now) in
          let tells : Action = append t.id EventType.approval_resolved payload now in
          let still : IsRead t (flushes s).0 = flush_rounds-Leaves 2 t.id now s v t.id ∙ e in
          rw (there, resolve_approval, known)
            (and_then-Shrinks s.queue.db.turns (on_queue (try_publish_next t.id now))
              ((flushes >> answers >> tells) s)
              (and_then-Shrinks s.queue.db.turns tells ((flushes >> answers) s)
                (and_then_at-Shrinks s.queue.db.turns answers (flushes s)
                  (flush_turn-Closes t.id now s)
                  (answer-Shrinks t request decision now (flushes s).0 still))
                (append-Closes t.id EventType.approval_resolved payload now))
              (publish_next-Closes t.id now))
    ]
  ]

flush_append-Closes :
    (turn : ℕ) (type : EventType) (payload : Fields) (now : ℕ)
    → Closes (flush_turn turn now >> append turn type payload now)
flush_append-Closes turn type payload now =
    then-Closes (flush_turn turn now) (append turn type payload now) (flush_turn-Closes turn now)
      (append-Closes turn type payload now)

handle_active-Shrinks :
    (t : Turn) (type : EventType) (payload : Fields) (now : ℕ) (s : Service)
    → IsSound s
    → IsRead t s
    → Shrinks s.queue.db.turns (handle_active t type payload now s).0.queue.db.turns
unfolding handle_active
handle_active-Shrinks t EventType.assistant_message_started payload now s v e =
    flush_append-Closes t.id _ payload now s
handle_active-Shrinks t EventType.assistant_message_completed payload now s v e =
    flush_append-Closes t.id _ payload now s
handle_active-Shrinks t EventType.user_message_accepted payload now s v e =
    flush_append-Closes t.id _ payload now s
handle_active-Shrinks t EventType.turn_input_updated payload now s v e =
    flush_append-Closes t.id _ payload now s
handle_active-Shrinks t EventType.assistant_delta payload now s v e =
    take_delta-Closes t payload now s
handle_active-Shrinks t EventType.reasoning_delta payload now s v e =
    take_reasoning-Closes t payload now s
handle_active-Shrinks t EventType.approval_requested payload now s v e =
    request_approval-Closes t payload now s
handle_active-Shrinks t EventType.approval_resolved payload now s v e =
    resolve_approval-Shrinks t payload now s v e
handle_active-Shrinks t EventType.auto_review payload now s v e =
    append-Closes t.id EventType.auto_review payload now s
handle_active-Shrinks t EventType.plan_updated payload now s v e =
    coalesce_or_append-Closes t.id EventType.plan_updated payload now s
handle_active-Shrinks t EventType.diff_updated payload now s v e =
    coalesce_or_append-Closes t.id EventType.diff_updated payload now s
handle_active-Shrinks t EventType.tool_output payload now s v e =
    coalesce_or_append-Closes t.id EventType.tool_output (attach_detail_ref payload) now s
handle_active-Shrinks t EventType.tool_started payload now s v e =
    flush_append-Closes t.id _ (attach_detail_ref payload) now s
handle_active-Shrinks t EventType.tool_completed payload now s v e =
    flush_append-Closes t.id _ (attach_detail_ref payload) now s
handle_active-Shrinks t EventType.token_usage_updated payload now s v e =
    take_usage-Closes t payload s
handle_active-Shrinks t EventType.turn_completed payload now s v e = complete-Closes t payload now s
handle_active-Shrinks t EventType.turn_cancelled payload now s v e = cancel-Closes t payload now s
handle_active-Shrinks t EventType.turn_failed payload now s v e = failed-Closes t payload now s
handle_active-Shrinks t EventType.turn_started payload now s v e = done-Closes s
handle_active-Shrinks t EventType.timer_paused payload now s v e = done-Closes s
handle_active-Shrinks t EventType.timer_resumed payload now s v e = done-Closes s

end_projected-Closes :
    (t : Turn) (type : EventType) (payload : Fields) (now : ℕ)
    → Closes (end_projected t type payload now)
unfolding end_projected
end_projected-Closes t type payload now =
    then-Closes (flush_turn t.id now >> flush_contexts t.id now) (append t.id type payload now)
      (then-Closes (flush_turn t.id now) (flush_contexts t.id now) (flush_turn-Closes t.id now)
        (flush_contexts-Closes t.id now))
      (append-Closes t.id type payload now)

handle-Shrinks :
    (t : Turn) (type : EventType) (payload : Fields) (now : ℕ) (s : Service)
    → IsSound s
    → IsRead t s
    → Shrinks s.queue.db.turns (handle t type payload now s).0.queue.db.turns
unfolding handle
handle-Shrinks t type payload now s v e = elim (Bool-cases (is_start type)) [
  | inl starts ↦ rw (starts, handle) (start-Shrinks t payload now s v e)
  | inr other ↦ elim (Bool-cases (is_terminal t.status)) [
    | inl over ↦ rw (other, handle, over) (Shrinks-refl s.queue.db.turns)
    | inr open_ ↦ elim (Bool-cases (t.history_version == 2 && ends_turn type)) [
      | inl ends_ ↦ rw (other, handle, open_, ends_) (end_projected-Closes t type payload now s)
      | inr on ↦ rw (other, handle, open_, on) (handle_active-Shrinks t type payload now s v e)
    ]
  ]
]

flush_boundary-Closes :
    (turn : ℕ) (type : EventType) (payload : Fields) (now : ℕ)
    → Closes (flush_boundary turn type payload now)
unfolding flush_boundary
flush_boundary-Closes turn type payload now s =
    elim (Bool-cases
      (not (is_usage type) && any (is_other_key turn (key_of turn type payload)) s.pending)) [
        | inl border ↦ rw border (flush_turn-Closes turn now s)
        | inr within ↦ rw within (Shrinks-refl s.queue.db.turns)
      ]

found-IsRead : (turn : ℕ) (s : Service) {t : Turn} → find_turn turn s.queue.db ≡ some t → IsRead t s
found-IsRead turn s {t} found =
    let own : t.id ≡ turn =
      (==_iff t.id turn).0 (find?-test (turn_has_id turn) s.queue.db.turns found) in
    subst (λ id. status_at id s.queue.db.turns ≡ some t.status) (sym own) (ap status_of found)

-- Whatever event is ingested: no session has more active turns than before.
pub ingest-Shrinks :
    (turn : ℕ) (type : EventType) (payload : Fields) (now : ℕ) (s : Service)
    → IsSound s
    → Shrinks s.queue.db.turns (ingest turn type payload now s).0.queue.db.turns
unfolding ingest
ingest-Shrinks turn type payload now s v = elim (Option-cases (find_turn turn s.queue.db)) [
  | inl gone ↦ rw (gone, ingest) (Shrinks-refl s.queue.db.turns)
  | inr (t, found) ↦ elim (Bool-cases (is_replay t payload s)) [
    | inl again ↦ rw (found, ingest, again) (Shrinks-refl s.queue.db.turns)
    | inr new ↦
        let flushed = flush_boundary turn type payload now s in
        let still : IsRead t flushed.0 =
          flush_boundary-Leaves turn type payload now s v t.id ∙ found-IsRead turn s found in
        rw (found, ingest, new)
          (and_then_at-Shrinks s.queue.db.turns (handle t type payload now) flushed
            (flush_boundary-Closes turn type payload now s)
            (handle-Shrinks t type payload now flushed.0
              (flush_boundary-Keeps turn type payload now s v) still))
  ]
]
