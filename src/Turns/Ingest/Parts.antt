-- ===== src/Turns/Ingest/Parts.antt =====
-- apps/api/src/modules/turns/turns.service.ts and approval-queue.service.ts: the parts of `ingestRunnerEventNow` that are
-- shared by several events.
use agent_waypoint.Common.{
  ℕ, zero, suc, ◌≡◌, refl, sym, subst, Bool, true, false, [], ◌∷◌, some, ltb, find?, any, filter,
  update_first, inl, inr, Bool-cases, Option-cases,
}
use agent_waypoint.Common.Text.{Text}
use agent_waypoint.Common.Json.{Json}
use agent_waypoint.Store.{
  TurnStatus, EventType, Turn, ApprovalStatus, Approval, Store, find_turn, is_terminal, turn_has_id,
}
use agent_waypoint.Approvals.{Queue, append_event, arm_timer, cancel_timer, has_status, is_request}
use agent_waypoint.Approvals.Publish.{
  publish, publish_open, arm_published, try_publish_next, upsert_request, enqueue, oldest,
}
use agent_waypoint.History.{create_message}
use agent_waypoint.Turns.{Action, done, reading, with_queue}
use agent_waypoint.Turns.Append.Numbered.{IsNumbered, next-IsNumbered}
use agent_waypoint.Turns.Context.{
  flush_context, without_context, with_usage, flush_context_rounds, flush_contexts, is_context_of,
}
use agent_waypoint.Turns.Ends.{
  Ending, change_turn, final_message, finished_turn, with_row, final_row, finish_with_message,
  finish_rows, finish,
}
use agent_waypoint.Turns.Ingest.Keeps.{Keeps, same-IsSound, then-Keeps, update_turn-Keeps}

-- What the approvals store of a turn takes the next number as well.
pub append_event-IsNumbered :
    (turn : ℕ) (type : EventType) (payload : Json) (q : Queue)
    → IsNumbered q.db.events
    → IsNumbered (append_event turn type payload q).db.events
unfolding append_event
append_event-IsNumbered turn type payload q h = elim (Option-cases (find_turn turn q.db)) [
  | inl gone ↦ rw (gone, append_event) (next-IsNumbered q.db.events _ refl h)
  | inr (t, found) ↦ rw (found, append_event) (next-IsNumbered q.db.events _ refl h)
]

arm_published-events :
    (a : Approval) (config : Bool × ℕ) (now : ℕ) (q : Queue)
    → (arm_published a config now q).db.events ≡ q.db.events
unfolding arm_published arm_timer cancel_timer
arm_published-events a (false, seconds) now q = refl
arm_published-events a (true, seconds) now q = elim (Bool-cases (ltb 0 seconds)) [
  | inl later ↦ rw (later, arm_published) refl
  | inr at_once ↦ rw (at_once, arm_published) refl
]

publish-IsNumbered :
    (a : Approval) (now : ℕ) (q : Queue)
    → IsNumbered q.db.events
    → IsNumbered (publish a now q).db.events
unfolding publish publish_open
publish-IsNumbered a now q h = elim (Option-cases (find_turn a.turn_id q.db)) [
  | inl gone ↦ rw (gone, publish) h
  | inr (t, found) ↦ elim (Bool-cases (is_terminal t.status)) [
    | inl over ↦ rw (found, publish, over) h
    | inr open_ ↦
        rw (found, publish, open_)
          (subst IsNumbered (sym (arm_published-events a _ now _))
            (append_event-IsNumbered t.id EventType.approval_requested _ _ h))
  ]
]

pub try_publish_next-IsNumbered :
    (turn now : ℕ) (q : Queue)
    → IsNumbered q.db.events
    → IsNumbered (try_publish_next turn now q).db.events
unfolding try_publish_next
try_publish_next-IsNumbered turn now q h =
    elim (Bool-cases (any (has_status turn ApprovalStatus.pending) q.db.approvals)) [
      | inl busy ↦ rw (busy, try_publish_next) h
      | inr idle ↦
          elim (Option-cases
            (oldest (filter (has_status turn ApprovalStatus.queued) q.db.approvals))) [
              | inl nobody ↦ rw (idle, try_publish_next, nobody) h
              | inr (a, first) ↦ rw (idle, try_publish_next, first) (publish-IsNumbered a now q h)
            ]
    ]

upsert_request-events :
    (turn : ℕ) (request kind : Text) (payload : Json) (now : ℕ) (db : Store)
    → (upsert_request turn request kind payload now db).events ≡ db.events
unfolding upsert_request
upsert_request-events turn request kind payload now db =
    elim (Bool-cases (any (is_request turn request) db.approvals)) [
      | inl known ↦ rw (known, upsert_request) refl
      | inr new ↦ rw (new, upsert_request) refl
    ]

pub enqueue-IsNumbered :
    (turn : ℕ) (request kind : Text) (payload : Json) (now : ℕ) (q : Queue)
    → IsNumbered q.db.events
    → IsNumbered (enqueue turn request kind payload now q).db.events
unfolding enqueue
enqueue-IsNumbered turn request kind payload now q h =
    try_publish_next-IsNumbered turn now _
      (subst IsNumbered (sym (upsert_request-events turn request kind payload now q.db)) h)

-- The action on the queue of what it finds.
abbrev pub on_queue : (Queue → Queue) → Action
on_queue f = reading (λ s r. done (with_queue (f s.queue) r))

pub on_queue-Keeps :
    (f : Queue → Queue)
    → ((q : Queue) → IsNumbered q.db.events → IsNumbered (f q).db.events)
    → Keeps (on_queue f)
on_queue-Keeps f h s v = record { numbered = h s.queue v.numbered; waiting = v.waiting }

pub flush_context-Keeps : (turn now : ℕ) → Keeps (flush_context turn now)
unfolding flush_context
flush_context-Keeps turn now s v = elim (Option-cases (find? (is_context_of turn) s.contexts)) [
  | inl gone ↦ rw (gone, flush_context) v
  | inr (c, found) ↦
      rw (found, flush_context)
        (update_turn-Keeps turn (with_usage c.snapshot now) (without_context turn s)
          (same-IsSound refl refl v))
]

flush_context_rounds-Keeps : (fuel turn now : ℕ) → Keeps (flush_context_rounds fuel turn now)
unfolding flush_context_rounds
flush_context_rounds-Keeps zero turn now s v = v
flush_context_rounds-Keeps (suc fuel) turn now s v =
    elim (Bool-cases (any (is_context_of turn) s.contexts)) [
      | inl more ↦ rw more (
          then-Keeps (flush_context turn now) (flush_context_rounds fuel turn now)
            (flush_context-Keeps turn now) (flush_context_rounds-Keeps fuel turn now) s v)
      | inr empty ↦ rw empty v
    ]

pub flush_contexts-Keeps : (turn now : ℕ) → Keeps (flush_contexts turn now)
unfolding flush_contexts
flush_contexts-Keeps turn now = flush_context_rounds-Keeps 2 turn now

change_turn-events :
    (turn : ℕ) (f : Turn → Turn) (db : Store) {db' : Store}
    → change_turn turn f db ≡ some db'
    → db'.events ≡ db.events
change_turn-events turn f db {db'} e = elim (Option-cases (find_turn turn db)) [
  | inl gone ↦ cc
  | inr (t, found) ↦
      let changed : Store = record db { turns = update_first (turn_has_id turn) f db.turns } in
      let same : changed ≡ db' = cc in rw (← same) refl
]

module _ (ending : Ending) (previous : TurnStatus) (t : Turn) (now : ℕ) (db : Store)
    {db' : Store} where
  finish_with_message-events :
      (content : Text)
      → finish_with_message ending previous t content now db ≡ some db'
      → db'.events ≡ db.events
  unfolding finish_with_message create_message
  finish_with_message-events content e =
      let (made, m) = create_message (final_message t content) now db in
      let change = finished_turn ending previous (some m.id) now in
      elim (Option-cases (change_turn t.id change made)) [
        | inl gone ↦ cc
        | inr (stored, there) ↦
            let same : with_row (final_row t content) stored ≡ db' = cc in
            rw (← same) (change_turn-events t.id change made there)
      ]

finish_rows-events :
    (ending : Ending) (previous : TurnStatus) (t : Turn) (content : Text) (now : ℕ) (db : Store)
    {db' : Store}
    → finish_rows ending previous t content now db ≡ some db'
    → db'.events ≡ db.events
unfolding finish_rows
finish_rows-events Ending.completes previous t content now db e =
    finish_with_message-events Ending.completes previous t now db content e
finish_rows-events Ending.cancels previous t [] now db e = change_turn-events t.id _ db e
finish_rows-events Ending.cancels previous t (c ∷ content) now db e =
    finish_with_message-events Ending.cancels previous t now db (c ∷ content) e
finish_rows-events (Ending.fails code message) previous t [] now db e =
    change_turn-events t.id _ db e
finish_rows-events (Ending.fails code message) previous t (c ∷ content) now db e =
    finish_with_message-events (Ending.fails code message) previous t now db (c ∷ content) e

pub finish-Keeps :
    (ending : Ending) (previous : TurnStatus) (t : Turn) (content : Text) (now : ℕ)
    → Keeps (finish ending previous t content now)
unfolding finish
finish-Keeps ending previous t content now s v =
    elim (Option-cases (finish_rows ending previous t content now s.queue.db)) [
      | inl fails ↦ rw (fails, finish) v
      | inr (db, stored) ↦
          rw (stored, finish)
            (same-IsSound (finish_rows-events ending previous t content now s.queue.db stored) refl
              v)
    ]
