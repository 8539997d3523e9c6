-- ===== src/Turns/Requests/Handlers.antt =====
-- apps/api/src/modules/turns: the active turns before and after each event that `ingestRunnerEventNow` handles.
use agent_waypoint.Common.{ℕ, [], ◌∷◌, ◌==◌, inl, inr, Bool-cases, Option-cases, get_or}
use agent_waypoint.Common.Text.{Text}
use agent_waypoint.Common.Json.{Fields, obj, get, read_string, is_true}
use agent_waypoint.Store.{TurnStatus, EventType, Turn, find_turn}
use agent_waypoint.Approvals.Publish.{enqueue}
use agent_waypoint.Timeline.{read_trimmed}
use agent_waypoint.Turns.{Action, ◌>>◌, reading}
use agent_waypoint.Turns.Append.{append, coalesce, flush_turn}
use agent_waypoint.Turns.Context.{flush_contexts, build_context_usage}
use agent_waypoint.Turns.Ends.{
  Ending, finish, said, complete, cancel, fail_found, fail_current, fail_turn, failed, read_content,
}
use agent_waypoint.Turns.Ingest.{
  coalesce_or_append, text_payload, reasoning_payload, take_delta, take_reasoning, request_approval,
  take_usage,
}
use agent_waypoint.Turns.Requests.Active.{Shrinks-refl, Closes, append-Closes}
use agent_waypoint.Turns.Requests.Parts.{
  then-Closes, flush_turn-Closes, flush_contexts-Closes, finish-Closes,
}
use agent_waypoint.Turns.Requests.Answers.{on_queue, enqueue-Shrinks}

settle-Closes : (turn now : ℕ) → Closes (flush_contexts turn now >> flush_turn turn now)
settle-Closes turn now =
    then-Closes (flush_contexts turn now) (flush_turn turn now) (flush_contexts-Closes turn now)
      (flush_turn-Closes turn now)

pub complete-Closes : (t : Turn) (payload : Fields) (now : ℕ) → Closes (complete t payload now)
unfolding complete
complete-Closes t payload now s = elim (Option-cases (read_content payload)) [
  | inl gone ↦ rw (gone, complete) (Shrinks-refl s.queue.db.turns)
  | inr (content, there) ↦
      let settle : Action = flush_contexts t.id now >> flush_turn t.id now in
      let write : Action =
        reading (λ r. finish Ending.completes t.status t (said t.id content r) now) in
      rw (there, complete)
        (then-Closes (settle >> write) (append t.id EventType.turn_completed payload now)
          (then-Closes settle write (settle-Closes t.id now)
            (λ r. finish-Closes Ending.completes t.status t (said t.id content r) now r))
          (append-Closes t.id EventType.turn_completed payload now) s)
]

pub cancel-Closes : (t : Turn) (payload : Fields) (now : ℕ) → Closes (cancel t payload now)
unfolding cancel
cancel-Closes t payload now =
    let settle : Action = flush_contexts t.id now >> flush_turn t.id now in
    let write : Action = reading (λ r.
      finish Ending.cancels t.status t (said t.id (get_or (read_content payload) []) r) now) in
    then-Closes (settle >> write) (append t.id EventType.turn_cancelled payload now)
      (then-Closes settle write (settle-Closes t.id now) (λ r.
        finish-Closes Ending.cancels t.status t (said t.id (get_or (read_content payload) []) r) now
          r))
      (append-Closes t.id EventType.turn_cancelled payload now)

module _ (previous : TurnStatus) (code message : Text) (payload : Fields) (fallback : Text)
    (now : ℕ) where
  fail_found-Closes : (t : Turn) → Closes (fail_found t previous code message payload fallback now)
  unfolding fail_found
  fail_found-Closes t s = elim (Bool-cases (t.history_version == 2)) [
    | inl two ↦ rw (two, fail_found) (append-Closes t.id EventType.turn_failed payload now s)
    | inr one ↦
        rw (one, fail_found)
          (then-Closes
            (reading
              (λ r. finish (Ending.fails code message) previous t (said t.id fallback r) now))
            (append t.id EventType.turn_failed payload now)
            (λ r. finish-Closes (Ending.fails code message) previous t (said t.id fallback r) now r)
            (append-Closes t.id EventType.turn_failed payload now) s)
  ]

  pub fail_current-Closes :
      (turn : ℕ) → Closes (fail_current turn previous code message payload fallback now)
  unfolding fail_current
  fail_current-Closes turn s = elim (Option-cases (find_turn turn s.queue.db)) [
    | inl gone ↦ rw (gone, fail_current) (Shrinks-refl s.queue.db.turns)
    | inr (t, found) ↦ rw (found, fail_current) (fail_found-Closes t s)
  ]

  pub fail_turn-Closes :
      (turn : ℕ) → Closes (fail_turn turn previous code message payload fallback now)
  unfolding fail_turn
  fail_turn-Closes turn =
      then-Closes (flush_contexts turn now >> flush_turn turn now)
        (fail_current turn previous code message payload fallback now) (settle-Closes turn now)
        (fail_current-Closes turn)

pub failed-Closes : (t : Turn) (payload : Fields) (now : ℕ) → Closes (failed t payload now)
unfolding failed
failed-Closes t payload now = fail_turn-Closes t.status _ _ payload _ now t.id

pub coalesce_or_append-Closes :
    (turn : ℕ) (type : EventType) (payload : Fields) (now : ℕ)
    → Closes (coalesce_or_append turn type payload now)
unfolding coalesce_or_append
coalesce_or_append-Closes turn type payload now s =
    elim (Option-cases (coalesce turn type payload s.pending)) [
      | inl at_once ↦ rw (at_once, coalesce_or_append) (append-Closes turn type payload now s)
      | inr (ps, kept) ↦ rw (kept, coalesce_or_append) (Shrinks-refl s.queue.db.turns)
    ]

pub take_delta-Closes : (t : Turn) (payload : Fields) (now : ℕ) → Closes (take_delta t payload now)
unfolding take_delta
take_delta-Closes t payload now s = elim (Bool-cases (is_true (get "isReasoning" payload))) [
  | inl reasoning ↦ rw (reasoning, take_delta) (Shrinks-refl s.queue.db.turns)
  | inr spoken ↦ elim (Option-cases (read_string (get "text" payload))) [
    | inl gone ↦ rw (spoken, take_delta, gone) (Shrinks-refl s.queue.db.turns)
    | inr ([], there) ↦ rw (spoken, take_delta, there) (Shrinks-refl s.queue.db.turns)
    | inr (c ∷ w, there) ↦
        rw (spoken, take_delta, there)
          (coalesce_or_append-Closes t.id EventType.assistant_delta (text_payload (c ∷ w) payload)
            now s)
  ]
]

pub take_reasoning-Closes :
    (t : Turn) (payload : Fields) (now : ℕ) → Closes (take_reasoning t payload now)
unfolding take_reasoning
take_reasoning-Closes t payload now s = elim (Option-cases (read_string (get "delta" payload))) [
  | inl gone ↦ rw (gone, take_reasoning) (Shrinks-refl s.queue.db.turns)
  | inr ([], there) ↦ rw (there, take_reasoning) (Shrinks-refl s.queue.db.turns)
  | inr (c ∷ delta, there) ↦
      rw (there, take_reasoning)
        (coalesce_or_append-Closes t.id EventType.reasoning_delta
          (reasoning_payload (c ∷ delta) payload) now s)
]

pub request_approval-Closes :
    (t : Turn) (payload : Fields) (now : ℕ) → Closes (request_approval t payload now)
unfolding request_approval
request_approval-Closes t payload now s =
    elim (Option-cases (read_trimmed (get "requestId" payload))) [
      | inl gone ↦ rw (gone, request_approval) (Shrinks-refl s.queue.db.turns)
      | inr (request, there) ↦ elim (Option-cases (read_trimmed (get "kind" payload))) [
        | inl missing ↦ rw (there, request_approval, missing) (Shrinks-refl s.queue.db.turns)
        | inr (kind, known) ↦
            rw (there, request_approval, known)
              (then-Closes (flush_turn t.id now)
                (on_queue (enqueue t.id request kind (obj payload) now))
                (flush_turn-Closes t.id now)
                (λ r. enqueue-Shrinks t.id request kind (obj payload) now r.queue) s)
      ]
    ]

pub take_usage-Closes : (t : Turn) (payload : Fields) → Closes (take_usage t payload)
unfolding take_usage
take_usage-Closes t payload s = elim (Option-cases (build_context_usage payload)) [
  | inl nothing ↦ rw (nothing, take_usage) (Shrinks-refl s.queue.db.turns)
  | inr (usage, there) ↦ rw (there, take_usage) (Shrinks-refl s.queue.db.turns)
]
