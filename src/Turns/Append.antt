-- ===== src/Turns/Append.antt =====
-- apps/api/src/modules/turns/turns.service.ts: `appendEventNow`, and the events that wait to be stored together:
-- `coalesceEvent`, `upsertCoalescedEvent` and the flushes. Writes of one turn follow one another, and no flush is under
-- way when a call starts.
pub mod Numbered
pub mod Frames
pub mod Flushes
use agent_waypoint.Common.{
  ℕ, zero, suc, ◌+◌, Bool, true, false, not, ◌&&◌, List, [], ◌∷◌, ◌++◌, Option, none, some,
  if◌then◌else◌, ◌==◌, find?, filter, any, map, update_first,
}
use agent_waypoint.Common.Json.{Json, ℤ, obj, Fields, end, get, read_number}
use agent_waypoint.Store.{
  EventType, Turn, Event, BotKind, BotMessage, Snapshot, Store, find_turn, turn_has_id, latest_seq,
}
use agent_waypoint.History.Project.{project}
use agent_waypoint.Timeline.Summary.{summarize_diff}
use agent_waypoint.TurnConfig.{TextField, coalesced_field, merge_text}
use agent_waypoint.Turns.{
  Key, last_write, key_eq, text_key_of, Pending, Service, Fault, Action, done, throw, ◌>>◌, leb_ℤ,
}

abbrev pub is_diff : EventType → Bool
is_diff EventType.diff_updated = true
is_diff _ = false

-- What is stored of a payload: of a diff its summary.
unfoldable pub stored_payload : EventType → Fields → Fields
stored_payload type payload = if is_diff type then summarize_diff (obj payload) else payload

abbrev pub new_event : ℕ → EventType → Json → Store → Event
new_event turn type payload db = record {
  id = db.next_id;
  turn_id = turn;
  seq = latest_seq turn db.events + 1;
  type = type;
  payload = payload;
}

abbrev pub write_event : Event → Store → Store
write_event e db = record db { events = db.events ++ e ∷ []; next_id = suc db.next_id }

abbrev pub with_cursor : ℤ → Turn → Turn
with_cursor n t = record t { runner_cursor = n }

abbrev pub is_behind : ℕ → ℤ → Turn → Bool
is_behind turn n t = turn_has_id turn t && not (leb_ℤ n t.runner_cursor)

-- The cursor of a turn only moves forward; it is a number as JSON has it.
unfoldable pub move_cursor : ℕ → Fields → Store → Store
move_cursor turn payload db = elim (read_number (get "runnerSeq" payload)) [
  | none ↦ db
  | some n ↦ record db { turns = update_first (is_behind turn n) (with_cursor n) db.turns }
]

abbrev pub has_event_id : ℕ → Event → Bool
has_event_id id e = e.id == id

abbrev pub with_payload : Json → Event → Event
with_payload payload e = record e { payload = payload }

-- The event as it is projected takes the place of the one that was written.
abbrev pub write_projected : ℕ → Json → Store → Store
write_projected id payload db = record db {
  events = update_first (has_event_id id) (with_payload payload) db.events;
}

abbrev pub is_snapshot_of : ℕ → Snapshot → Bool
is_snapshot_of turn s = s.turn_id == turn

abbrev pub new_snapshot : ℕ → ℕ → Json → Snapshot
new_snapshot turn seq payload = record { turn_id = turn; event_seq = seq; payload = payload }

abbrev pub renew_snapshot : ℕ → Json → Snapshot → Snapshot
renew_snapshot seq payload s = record s { event_seq = seq; payload = payload }

-- The upsert of a turn's last diff, whole.
unfoldable pub save_snapshot : ℕ → EventType → ℕ → Fields → Store → Store
save_snapshot turn type seq payload db =
    if is_diff type
    then record db {
      snapshots =
          if any (is_snapshot_of turn) db.snapshots
          then update_first (is_snapshot_of turn) (renew_snapshot seq (obj payload)) db.snapshots
          else db.snapshots ++ new_snapshot turn seq (obj payload) ∷ [];
    }
    else db

abbrev pub event_message : Turn → ℕ → BotMessage
event_message t id = record {
  project_id = t.project_id;
  session_id = t.session_id;
  kind = BotKind.event;
  event_id = some id;
  message_id = none;
  payload = obj end;
}

-- The outbox is told of the event where its turn is there.
unfoldable pub announce_event : ℕ → ℕ → Store → Store
announce_event turn id db = elim (find_turn turn db) [
  | none ↦ db
  | some t ↦ record db { bot_messages = db.bot_messages ++ event_message t id ∷ [] }
]

-- What follows the projection.
unfoldable pub finish_event : Event → EventType → Fields → Json → Store → Store
finish_event e type payload projected db =
    announce_event e.turn_id e.id
      (save_snapshot e.turn_id type e.seq payload (write_projected e.id projected db))

-- The transaction of `appendEventNow`; `none` is an exception, which undoes it.
unfoldable pub append_rows : ℕ → EventType → Fields → ℕ → Store → Option Store
append_rows turn type payload now db =
    let stored = stored_payload type payload in
    let e = new_event turn type (obj stored) db in
    elim (project turn e.seq type stored now (move_cursor turn payload (write_event e db))) [
      | none ↦ none
      | some (db', projected) ↦ some (finish_event e type payload projected db')
    ]

abbrev pub committed : Store → Service → Service
committed db s = record s { queue = record s.queue { db = db; wakes = suc s.queue.wakes } }

-- `appendEvent`.
unfoldable pub append : ℕ → EventType → Fields → ℕ → Action
append turn type payload now s = elim (append_rows turn type payload now s.queue.db) [
  | none ↦ throw Fault.transaction s
  | some db ↦ done (committed db s)
]

abbrev pub has_key : Key → Pending → Bool
has_key key p = key_eq p.key key

abbrev pub with_pending : List Pending → Service → Service
with_pending ps s = record s { pending = ps }

abbrev pub replace_payload : Fields → Pending → Pending
replace_payload payload p = record p { payload = payload }

abbrev pub new_pending : Key → ℕ → EventType → Fields → Pending
new_pending key turn type payload = record {
  key = key;
  turn_id = turn;
  type = type;
  payload = payload;
}

-- `upsertCoalescedEvent`.
unfoldable pub upsert_coalesced : Key → ℕ → EventType → Fields → List Pending → List Pending
upsert_coalesced key turn type payload ps =
    if any (has_key key) ps
    then update_first (has_key key) (replace_payload payload) ps
    else ps ++ new_pending key turn type payload ∷ []

abbrev pub is_last_write : EventType → Bool
is_last_write EventType.plan_updated = true
is_last_write EventType.diff_updated = true
is_last_write _ = false

abbrev pub merge_pending : TextField → Fields → Pending → Pending
merge_pending f payload p = record p { payload = merge_text f p.payload payload }

-- A text is put behind the one that waits under the same key.
unfoldable pub coalesce_text : ℕ → EventType → Fields → TextField → List Pending → List Pending
coalesce_text turn type payload f ps =
    let key = text_key_of turn type payload f in
    if any (has_key key) ps
    then update_first (has_key key) (merge_pending f payload) ps
    else upsert_coalesced key turn type payload ps

-- `coalesceEvent`; `none` is the answer false. The types of text are those that have a text field.
unfoldable pub coalesce : ℕ → EventType → Fields → List Pending → Option (List Pending)
coalesce turn type payload ps =
    if is_last_write type
    then some (upsert_coalesced (last_write turn type) turn type payload ps)
    else elim (coalesced_field type payload) [
      | none ↦ none
      | some f ↦ some (coalesce_text turn type payload f ps)
    ]

-- A batch that could not be stored waits again, unless its key has been taken.
abbrev pub restore : Key → Pending → Service → Service
restore key p s = if any (has_key key) s.pending then s else with_pending (s.pending ++ p ∷ []) s

abbrev pub without_key : Key → Service → Service
without_key key s = with_pending (filter (λ p. not (has_key key p)) s.pending) s

abbrev pub restoring : Key → Pending → Service × Option Fault → Service × Option Fault
restoring key p (s, none) = (s, none)
restoring key p (s, some f) = (restore key p s, some f)

-- `flushPendingCoalescedEvent`.
unfoldable pub flush_key : ℕ → Key → Action
flush_key now key s = elim (find? (has_key key) s.pending) [
  | none ↦ done s
  | some p ↦ restoring key p (append p.turn_id p.type p.payload now (without_key key s))
]

unfoldable pub flush_keys : ℕ → List Key → Action
flush_keys now [] = done
flush_keys now (key ∷ keys) = flush_key now key >> flush_keys now keys

abbrev pub is_pending_of : ℕ → Pending → Bool
is_pending_of turn p = p.turn_id == turn

abbrev pub keys_of : ℕ → Service → List Key
keys_of turn s = map (λ p. p.key) (filter (is_pending_of turn) s.pending)

abbrev pub is_nil {ℓ} : {A : Type ℓ} → List A → Bool
is_nil [] = true
is_nil (x ∷ xs) = false

-- `flushPendingCoalescedEventsForTurn`: rounds until nothing waits.
unfoldable pub flush_rounds : ℕ → ℕ → ℕ → Action
flush_rounds zero turn now s = throw Fault.unfinished s
flush_rounds (suc fuel) turn now s =
    if is_nil (keys_of turn s)
    then done s
    else (flush_keys now (keys_of turn s) >> flush_rounds fuel turn now) s

-- Two rounds: one that stores, one that finds nothing.
unfoldable pub flush_turn : ℕ → ℕ → Action
flush_turn turn now = flush_rounds 2 turn now

abbrev pub all_keys : Service → List Key
all_keys s = map (λ p. p.key) s.pending

-- `flushAllPendingCoalescedEvents`.
unfoldable pub flush_all_rounds : ℕ → ℕ → Action
flush_all_rounds zero now s = throw Fault.unfinished s
flush_all_rounds (suc fuel) now s =
    if is_nil (all_keys s)
    then done s
    else (flush_keys now (all_keys s) >> flush_all_rounds fuel now) s

unfoldable pub flush_all : ℕ → Action
flush_all now = flush_all_rounds 2 now
