-- ===== src/Turns/Ingest/Ended.antt =====
-- apps/api/src/modules/turns/turns.service.ts: events of a turn that has ended.
use agent_waypoint.Common.{
  ℕ, zero, suc, ◌≡◌, refl, subst, ◌∙◌, true, false, not, ◌&&◌, List, [], ◌∷◌, Option, none, some,
  find?, any, inl, inr, Bool-cases, Option-cases, is_some, find?-All,
}
use agent_waypoint.Common.Json.{Fields, get, read_string, read_number}
use agent_waypoint.Store.{TurnStatus, EventType, Turn, find_turn, turn_has_id, is_terminal}
use agent_waypoint.Approvals.{is_queued}
use agent_waypoint.History.Project.{kind_of}
use agent_waypoint.History.Frames.{SameStatus, status_at, status_of, update_first-SameStatus, ends}
use agent_waypoint.Turns.{Key, Pending, Service, Fault, Action, and_then, ◌>>◌, update_turn}
use agent_waypoint.Turns.Append.{
  append, stored_payload, has_key, without_key, restoring, flush_key, flush_keys, flush_rounds,
  flush_turn, keys_of, is_nil,
}
use agent_waypoint.Turns.Append.Frames.{append-SameStatus}
use agent_waypoint.Turns.Ingest.{
  is_replay, flush_boundary, is_usage, is_other_key, key_of, handle, is_start, ingest,
}
use agent_waypoint.Turns.Ingest.Starts.{
  adopt_version, adopt_thread, start, says_two, with_version, started_turn,
}
use agent_waypoint.Turns.Ingest.Keeps.{
  waits, Waits, IsSound, Keeps, flush_key-Keeps, flush_keys-Keeps, update_turn-Keeps, then-Keeps,
}
use agent_waypoint.Turns.Ingest.Sound.{ingest-IsSound, flush_boundary-Keeps}
use agent_waypoint.Turns.Ingest.Cases.{adopt_version-Keeps, adopt_thread-Keeps}

abbrev pub Same : Service → Service → Type 0
Same s u = SameStatus s.queue.db.turns u.queue.db.turns

-- An action that leaves the status of every turn as it is, of a service that is sound.
abbrev pub Leaves : Action → Type 0
Leaves a = (s : Service) → IsSound s → Same s (a s).0

pub and_then-Same :
    (b : Action) (s : Service) (r : Service × Option Fault)
    → IsSound r.0
    → Same s r.0
    → Leaves b
    → Same s (and_then b r).0
and_then-Same b s (u, none) v h k id = k u v id ∙ h id
and_then-Same b s (u, some f) v h k id = h id

then-Leaves : (a b : Action) → Keeps a → Leaves a → Leaves b → Leaves (a >> b)
then-Leaves a b sound h k s v = and_then-Same b s (a s) (sound s v) (h s v) k

waits-ends :
    (type : EventType) (payload : Fields)
    → waits type ≡ true
    → ends (kind_of type (stored_payload type payload)) ≡ false
unfolding kind_of
waits-ends EventType.assistant_delta payload w =
    elim (Bool-cases
      (is_some (read_string (get "itemId" (stored_payload EventType.assistant_delta payload))))) [
        | inl item ↦ rw item refl
        | inr plain ↦ rw plain refl
      ]
waits-ends EventType.reasoning_delta payload w = refl
waits-ends EventType.tool_output payload w = refl
waits-ends EventType.plan_updated payload w = refl
waits-ends EventType.diff_updated payload w = refl
waits-ends _ payload w = absurd cc

restoring-Same :
    (key : Key) (p : Pending) (s : Service) (r : Service × Option Fault)
    → Same s r.0
    → Same s (restoring key p r).0
restoring-Same key p s (u, none) h = h
restoring-Same key p s (u, some f) h = elim (Bool-cases (any (has_key key) u.pending)) [
  | inl taken ↦ rw taken h
  | inr free ↦ rw free h
]

flush_key-Leaves : (now : ℕ) (key : Key) → Leaves (flush_key now key)
unfolding flush_key
flush_key-Leaves now key s v = elim (Option-cases (find? (has_key key) s.pending)) [
  | inl gone ↦ rw (gone, flush_key) (λ id. refl)
  | inr (p, found) ↦
      rw (found, flush_key)
        (restoring-Same key p s _ (
          append-SameStatus p.turn_id p.type p.payload now (without_key key s) (
            waits-ends p.type p.payload
              (find?-All Waits (has_key key) s.pending found v.waiting).0.0)))
]

flush_keys-Leaves : (now : ℕ) (keys : List Key) → Leaves (flush_keys now keys)
unfolding flush_keys
flush_keys-Leaves now [] = λ s v id. refl
flush_keys-Leaves now (key ∷ keys) =
    then-Leaves (flush_key now key) (flush_keys now keys) (flush_key-Keeps now key)
      (flush_key-Leaves now key) (flush_keys-Leaves now keys)

pub flush_rounds-Leaves : (fuel turn now : ℕ) → Leaves (flush_rounds fuel turn now)
unfolding flush_rounds
flush_rounds-Leaves zero turn now s v = λ id. refl
flush_rounds-Leaves (suc fuel) turn now s v = elim (Bool-cases (is_nil (keys_of turn s))) [
  | inl empty ↦ rw empty (λ id. refl)
  | inr more ↦ rw more (
      then-Leaves (flush_keys now (keys_of turn s)) (flush_rounds fuel turn now)
        (flush_keys-Keeps now (keys_of turn s)) (flush_keys-Leaves now (keys_of turn s))
        (flush_rounds-Leaves fuel turn now) s v)
]

pub flush_boundary-Leaves :
    (turn : ℕ) (type : EventType) (payload : Fields) (now : ℕ)
    → Leaves (flush_boundary turn type payload now)
unfolding flush_boundary flush_turn
flush_boundary-Leaves turn type payload now s v =
    elim (Bool-cases
      (not (is_usage type) && any (is_other_key turn (key_of turn type payload)) s.pending)) [
        | inl border ↦ rw border (flush_rounds-Leaves 2 turn now s v)
        | inr within ↦ rw within (λ id. refl)
      ]

pub update_turn-Same :
    (turn : ℕ) (f : Turn → Turn) (s : Service)
    → ((t : Turn) → (f t).id ≡ t.id)
    → ((t : Turn) → (f t).status ≡ t.status)
    → Same s (update_turn turn f s).0
unfolding update_turn
update_turn-Same turn f s h k = elim (Option-cases (find_turn turn s.queue.db)) [
  | inl gone ↦ rw (gone, update_turn) (λ id. refl)
  | inr (t, found) ↦
      rw (found, update_turn)
        (update_first-SameStatus (turn_has_id turn) f s.queue.db.turns h (λ x hit. k x))
]

module _ (t : Turn) (payload : Fields) where
  adopt_version-Leaves : Leaves (adopt_version t payload)
  unfolding adopt_version
  adopt_version-Leaves s v =
      elim (Bool-cases (says_two (read_number (get "historyVersion" payload)))) [
        | inl two ↦
            rw (two, adopt_version)
              (update_turn-Same t.id (with_version payload) s (λ x. refl) (λ x. refl))
        | inr one ↦ rw (one, adopt_version) (λ id. refl)
      ]

  adopt_thread-Leaves : Leaves (adopt_thread t payload)
  unfolding adopt_thread
  adopt_thread-Leaves s v = elim (Option-cases (read_string (get "threadId" payload))) [
    | inl gone ↦ rw (gone, adopt_thread) (λ id. refl)
    | inr ([], there) ↦ rw (there, adopt_thread) (λ id. refl)
    | inr (c ∷ thread, there) ↦ rw (there, adopt_thread) (λ id. refl)
  ]

  pub adopting-Keeps : Keeps (adopt_version t payload >> adopt_thread t payload)
  adopting-Keeps =
      then-Keeps (adopt_version t payload) (adopt_thread t payload) (adopt_version-Keeps t payload)
        (adopt_thread-Keeps t payload)

  pub adopting-Leaves : Leaves (adopt_version t payload >> adopt_thread t payload)
  adopting-Leaves =
      then-Leaves (adopt_version t payload) (adopt_thread t payload) (adopt_version-Keeps t payload)
        adopt_version-Leaves adopt_thread-Leaves

module _ (t : Turn) (payload : Fields) (now : ℕ) (over : is_terminal t.status ≡ true) where
  not_queued : (st : TurnStatus) → is_terminal st ≡ true → is_queued st ≡ false
  not_queued TurnStatus.queued h = absurd cc
  not_queued TurnStatus.running h = refl
  not_queued TurnStatus.waiting_approval h = refl
  not_queued TurnStatus.completed h = refl
  not_queued TurnStatus.failed h = refl
  not_queued TurnStatus.cancelled h = refl

  started_turn-status : (x : Turn) → (started_turn t payload now x).status ≡ x.status
  started_turn-status x = rw (not_queued t.status over, started_turn) refl

  started_turn-id : (x : Turn) → (started_turn t payload now x).id ≡ x.id
  started_turn-id x = rw (not_queued t.status over, started_turn) refl

  start-Leaves : Leaves (start t payload now)
  unfolding start kind_of
  start-Leaves =
      then-Leaves
        (adopt_version t payload
          >> adopt_thread t payload
          >> update_turn t.id (started_turn t payload now))
        (append t.id EventType.turn_started payload now)
        (then-Keeps (adopt_version t payload >> adopt_thread t payload)
          (update_turn t.id (started_turn t payload now)) (adopting-Keeps t payload)
          (update_turn-Keeps t.id (started_turn t payload now)))
        (then-Leaves (adopt_version t payload >> adopt_thread t payload)
          (update_turn t.id (started_turn t payload now)) (adopting-Keeps t payload)
          (adopting-Leaves t payload)
          (λ s v.
            update_turn-Same t.id (started_turn t payload now) s started_turn-id
              started_turn-status))
        (λ s v. append-SameStatus t.id EventType.turn_started payload now s refl)

  handle-Leaves : (type : EventType) → Leaves (handle t type payload now)
  unfolding handle
  handle-Leaves type s v = elim (Bool-cases (is_start type)) [
    | inl starts ↦ rw starts (start-Leaves s v)
    | inr other ↦ rw (other, over) (λ id. refl)
  ]

-- An event of a turn that has ended, whatever it is: no turn changes its status.
ingest-Same :
    (turn : ℕ) (type : EventType) (payload : Fields) (now : ℕ) (s : Service) {t : Turn}
    → IsSound s
    → find_turn turn s.queue.db ≡ some t
    → is_terminal t.status ≡ true
    → Same s (ingest turn type payload now s).0
unfolding ingest
ingest-Same turn type payload now s {t} v found over = elim (Bool-cases (is_replay t payload s)) [
  | inl again ↦ rw (found, ingest, again) (λ id. refl)
  | inr new ↦
      rw (found, ingest, new)
        (then-Leaves (flush_boundary turn type payload now) (handle t type payload now)
          (flush_boundary-Keeps turn type payload now) (flush_boundary-Leaves turn type payload now)
          (handle-Leaves t payload now over type) s v)
]

-- The events of one turn, one after the other.
unfoldable pub ingest_all : ℕ → List (EventType × (Fields × ℕ)) → Service → Service
ingest_all turn [] s = s
ingest_all turn ((type, (payload, now)) ∷ es) s =
    ingest_all turn es (ingest turn type payload now s).0

-- A turn that has ended stays as it ended: whatever events of it follow, it keeps its status.
pub ingest_all_ended :
    (turn : ℕ) (es : List (EventType × (Fields × ℕ))) (s : Service) {st : TurnStatus}
    → IsSound s
    → status_at turn s.queue.db.turns ≡ some st
    → is_terminal st ≡ true
    → status_at turn (ingest_all turn es s).queue.db.turns ≡ some st
unfolding ingest_all
ingest_all_ended turn [] s v e over = e
ingest_all_ended turn ((type, (payload, now)) ∷ es) s {st} v e over =
    elim (Option-cases (find_turn turn s.queue.db)) [
      | inl gone ↦
          let missing : ◌≡◌ {A = Option TurnStatus} none (some st) =
            subst (λ o. status_of o ≡ some st) gone e in
          absurd cc
      | inr (t, found) ↦
          let known : ◌≡◌ {A = Option TurnStatus} (some t.status) (some st) =
            subst (λ o. status_of o ≡ some st) found e in
          let same : t.status ≡ st = cc in
          ingest_all_ended turn es (ingest turn type payload now s).0
            (ingest-IsSound turn type payload now s v)
            (ingest-Same turn type payload now s v found (rw same over) turn ∙ e) over
    ]
