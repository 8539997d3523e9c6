-- ===== src/Turns/Ingest/Cases.antt =====
-- apps/api/src/modules/turns/turns.service.ts: the cases of `ingestRunnerEventNow`.
use agent_waypoint.Common.{
  ℕ, ◌≡◌, refl, true, [], ◌∷◌, ◌==◌, inl, inr, Bool-cases, Option-cases, get_or,
}
use agent_waypoint.Common.Text.{Text}
use agent_waypoint.Common.Json.{Fields, obj, get, read_string, read_number, is_true}
use agent_waypoint.Store.{TurnStatus, EventType, Turn, find_turn}
use agent_waypoint.Approvals.{Queue, cancel_timer}
use agent_waypoint.Approvals.Publish.{try_publish_next, enqueue}
use agent_waypoint.Timeline.{read_trimmed}
use agent_waypoint.Turns.{Action, ◌>>◌, reading, update_turn}
use agent_waypoint.Turns.Append.{append, coalesce, flush_turn}
use agent_waypoint.Turns.Append.Numbered.{IsNumbered}
use agent_waypoint.Turns.Context.{flush_contexts, build_context_usage}
use agent_waypoint.Turns.Ends.{
  Ending, finish, said, complete, cancel, fail_found, fail_current, fail_turn, failed, read_content,
}
use agent_waypoint.Turns.Ingest.{
  coalesce_or_append, text_payload, reasoning_payload, take_delta, take_reasoning, request_approval,
  answer_rows, answer, resolve_approval, take_usage,
}
use agent_waypoint.Turns.Ingest.Starts.{
  adopt_version, adopt_thread, start, says_two, with_version, started_turn,
}
use agent_waypoint.Turns.Ingest.Keeps.{
  waits, Keeps, same-IsSound, then-Keeps, append-Keeps, flush_turn-Keeps, update_turn-Keeps,
  coalesce-Waits,
}
use agent_waypoint.Turns.Ingest.Parts.{
  on_queue, on_queue-Keeps, flush_contexts-Keeps, try_publish_next-IsNumbered, enqueue-IsNumbered,
  finish-Keeps,
}

pub adopt_version-Keeps : (t : Turn) (payload : Fields) → Keeps (adopt_version t payload)
unfolding adopt_version
adopt_version-Keeps t payload s v =
    elim (Bool-cases (says_two (read_number (get "historyVersion" payload)))) [
      | inl two ↦ rw (two, adopt_version) (update_turn-Keeps t.id (with_version payload) s v)
      | inr one ↦ rw (one, adopt_version) v
    ]

pub adopt_thread-Keeps : (t : Turn) (payload : Fields) → Keeps (adopt_thread t payload)
unfolding adopt_thread
adopt_thread-Keeps t payload s v = elim (Option-cases (read_string (get "threadId" payload))) [
  | inl gone ↦ rw (gone, adopt_thread) v
  | inr ([], there) ↦ rw (there, adopt_thread) v
  | inr (c ∷ thread, there) ↦ rw (there, adopt_thread) (same-IsSound refl refl v)
]

pub start-Keeps : (t : Turn) (payload : Fields) (now : ℕ) → Keeps (start t payload now)
unfolding start
start-Keeps t payload now =
    then-Keeps _ (append t.id EventType.turn_started payload now)
      (then-Keeps _ (update_turn t.id (started_turn t payload now))
        (then-Keeps (adopt_version t payload) (adopt_thread t payload)
          (adopt_version-Keeps t payload) (adopt_thread-Keeps t payload))
        (update_turn-Keeps t.id (started_turn t payload now)))
      (append-Keeps t.id EventType.turn_started payload now)

settle-Keeps : (turn now : ℕ) → Keeps (flush_contexts turn now >> flush_turn turn now)
settle-Keeps turn now =
    then-Keeps (flush_contexts turn now) (flush_turn turn now) (flush_contexts-Keeps turn now)
      (flush_turn-Keeps turn now)

pub complete-Keeps : (t : Turn) (payload : Fields) (now : ℕ) → Keeps (complete t payload now)
unfolding complete
complete-Keeps t payload now s v = elim (Option-cases (read_content payload)) [
  | inl gone ↦ rw (gone, complete) v
  | inr (content, there) ↦
      let settle : Action = flush_contexts t.id now >> flush_turn t.id now in
      let write : Action =
        reading (λ r. finish Ending.completes t.status t (said t.id content r) now) in
      rw (there, complete)
        (then-Keeps (settle >> write) (append t.id EventType.turn_completed payload now)
          (then-Keeps settle write (settle-Keeps t.id now)
            (λ r. finish-Keeps Ending.completes t.status t (said t.id content r) now r))
          (append-Keeps t.id EventType.turn_completed payload now) s v)
]

pub cancel-Keeps : (t : Turn) (payload : Fields) (now : ℕ) → Keeps (cancel t payload now)
unfolding cancel
cancel-Keeps t payload now =
    then-Keeps _ (append t.id EventType.turn_cancelled payload now)
      (then-Keeps _
        (reading (λ r.
          finish Ending.cancels t.status t (said t.id (get_or (read_content payload) []) r) now))
        (settle-Keeps t.id now)
        (λ r.
          finish-Keeps Ending.cancels t.status t (said t.id (get_or (read_content payload) []) r)
            now r))
      (append-Keeps t.id EventType.turn_cancelled payload now)

module _ (previous : TurnStatus) (code message : Text) (payload : Fields) (fallback : Text)
    (now : ℕ) where
  fail_found-Keeps : (t : Turn) → Keeps (fail_found t previous code message payload fallback now)
  unfolding fail_found
  fail_found-Keeps t s v = elim (Bool-cases (t.history_version == 2)) [
    | inl two ↦ rw (two, fail_found) (append-Keeps t.id EventType.turn_failed payload now s v)
    | inr one ↦
        rw (one, fail_found)
          (then-Keeps
            (reading
              (λ r. finish (Ending.fails code message) previous t (said t.id fallback r) now))
            (append t.id EventType.turn_failed payload now)
            (λ r. finish-Keeps (Ending.fails code message) previous t (said t.id fallback r) now r)
            (append-Keeps t.id EventType.turn_failed payload now) s v)
  ]

  pub fail_current-Keeps :
      (turn : ℕ) → Keeps (fail_current turn previous code message payload fallback now)
  unfolding fail_current
  fail_current-Keeps turn s v = elim (Option-cases (find_turn turn s.queue.db)) [
    | inl gone ↦ rw (gone, fail_current) v
    | inr (t, found) ↦ rw (found, fail_current) (fail_found-Keeps t s v)
  ]

  pub fail_turn-Keeps :
      (turn : ℕ) → Keeps (fail_turn turn previous code message payload fallback now)
  unfolding fail_turn
  fail_turn-Keeps turn =
      then-Keeps _ (fail_current turn previous code message payload fallback now)
        (settle-Keeps turn now) (fail_current-Keeps turn)

pub failed-Keeps : (t : Turn) (payload : Fields) (now : ℕ) → Keeps (failed t payload now)
unfolding failed
failed-Keeps t payload now = fail_turn-Keeps t.status _ _ payload _ now t.id

pub coalesce_or_append-Keeps :
    (turn : ℕ) (type : EventType) (payload : Fields) (now : ℕ)
    → waits type ≡ true
    → Keeps (coalesce_or_append turn type payload now)
unfolding coalesce_or_append
coalesce_or_append-Keeps turn type payload now w s v =
    elim (Option-cases (coalesce turn type payload s.pending)) [
      | inl at_once ↦ rw (at_once, coalesce_or_append) (append-Keeps turn type payload now s v)
      | inr (ps, kept) ↦
          rw (kept, coalesce_or_append)
            (record {
              numbered = v.numbered;
              waiting = coalesce-Waits turn type payload s.pending w kept v.waiting;
            })
    ]

pub take_delta-Keeps : (t : Turn) (payload : Fields) (now : ℕ) → Keeps (take_delta t payload now)
unfolding take_delta
take_delta-Keeps t payload now s v = elim (Bool-cases (is_true (get "isReasoning" payload))) [
  | inl reasoning ↦ rw (reasoning, take_delta) v
  | inr spoken ↦ elim (Option-cases (read_string (get "text" payload))) [
    | inl gone ↦ rw (spoken, take_delta, gone) v
    | inr ([], there) ↦ rw (spoken, take_delta, there) v
    | inr (c ∷ said, there) ↦
        rw (spoken, take_delta, there)
          (coalesce_or_append-Keeps t.id EventType.assistant_delta (text_payload (c ∷ said) payload)
            now refl s v)
  ]
]

pub take_reasoning-Keeps :
    (t : Turn) (payload : Fields) (now : ℕ) → Keeps (take_reasoning t payload now)
unfolding take_reasoning
take_reasoning-Keeps t payload now s v = elim (Option-cases (read_string (get "delta" payload))) [
  | inl gone ↦ rw (gone, take_reasoning) v
  | inr ([], there) ↦ rw (there, take_reasoning) v
  | inr (c ∷ delta, there) ↦
      rw (there, take_reasoning)
        (coalesce_or_append-Keeps t.id EventType.reasoning_delta
          (reasoning_payload (c ∷ delta) payload) now refl s v)
]

pub request_approval-Keeps :
    (t : Turn) (payload : Fields) (now : ℕ) → Keeps (request_approval t payload now)
unfolding request_approval
request_approval-Keeps t payload now s v =
    elim (Option-cases (read_trimmed (get "requestId" payload))) [
      | inl gone ↦ rw (gone, request_approval) v
      | inr (request, there) ↦ elim (Option-cases (read_trimmed (get "kind" payload))) [
        | inl missing ↦ rw (there, request_approval, missing) v
        | inr (kind, known) ↦
            rw (there, request_approval, known)
              (then-Keeps (flush_turn t.id now)
                (on_queue (enqueue t.id request kind (obj payload) now)) (flush_turn-Keeps t.id now)
                (on_queue-Keeps _ (enqueue-IsNumbered t.id request kind (obj payload) now)) s v)
      ]
    ]

answer-IsNumbered :
    (t : Turn) (request decision : Text) (now : ℕ) (q : Queue)
    → IsNumbered q.db.events
    → IsNumbered (answer t request decision now q).db.events
unfolding answer answer_rows cancel_timer
answer-IsNumbered t request decision now q h = h

pub resolve_approval-Keeps :
    (t : Turn) (payload : Fields) (now : ℕ) → Keeps (resolve_approval t payload now)
unfolding resolve_approval
resolve_approval-Keeps t payload now s v =
    elim (Option-cases (read_trimmed (get "requestId" payload))) [
      | inl gone ↦ rw (gone, resolve_approval) v
      | inr (request, there) ↦ elim (Option-cases (read_trimmed (get "decision" payload))) [
        | inl missing ↦ rw (there, resolve_approval, missing) v
        | inr (decision, known) ↦
            let answers : Action = on_queue (answer t request decision now) in
            let tells : Action = append t.id EventType.approval_resolved payload now in
            rw (there, resolve_approval, known)
              (then-Keeps (flush_turn t.id now >> answers >> tells)
                (on_queue (try_publish_next t.id now))
                (then-Keeps (flush_turn t.id now >> answers) tells
                  (then-Keeps (flush_turn t.id now) answers (flush_turn-Keeps t.id now)
                    (on_queue-Keeps _ (answer-IsNumbered t request decision now)))
                  (append-Keeps t.id EventType.approval_resolved payload now))
                (on_queue-Keeps _ (try_publish_next-IsNumbered t.id now)) s v)
      ]
    ]

pub take_usage-Keeps : (t : Turn) (payload : Fields) → Keeps (take_usage t payload)
unfolding take_usage
take_usage-Keeps t payload s v = elim (Option-cases (build_context_usage payload)) [
  | inl nothing ↦ rw (nothing, take_usage) v
  | inr (usage, there) ↦ rw (there, take_usage) (same-IsSound refl refl v)
]
