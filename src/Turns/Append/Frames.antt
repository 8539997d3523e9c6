-- ===== src/Turns/Append/Frames.antt =====
-- apps/api/src/modules/turns/turns.service.ts: what `appendEventNow` leaves of the events and of the turns.
use agent_waypoint.Common.{
  ℕ, ◌≡◌, refl, sym, ap, ◌∙◌, false, some, inl, inr, Bool-cases, Option-cases,
}
use agent_waypoint.Common.Json.{Json, Fields, obj, read_number, get}
use agent_waypoint.Store.{EventType, Event, Store, find_turn}
use agent_waypoint.History.Project.{project, kind_of}
use agent_waypoint.History.Frames.{
  SameRows, SameStatus, status_at, update_first-SameStatus, project-SameStatus, ends,
}
use agent_waypoint.Turns.{Service}
use agent_waypoint.Turns.Append.{
  append_rows, append, is_diff, is_behind, with_cursor, stored_payload, new_event, write_event,
  move_cursor, finish_event, save_snapshot, announce_event, write_projected,
}

announce_event-SameRows : (turn id : ℕ) (db : Store) → SameRows db (announce_event turn id db)
unfolding announce_event
announce_event-SameRows turn id db = elim (Option-cases (find_turn turn db)) [
  | inl gone ↦ rw (gone, announce_event) (record { events = refl; turns = refl })
  | inr (t, found) ↦ rw (found, announce_event) (record { events = refl; turns = refl })
]

save_snapshot-SameRows :
    (turn : ℕ) (type : EventType) (seq : ℕ) (payload : Fields) (db : Store)
    → SameRows db (save_snapshot turn type seq payload db)
unfolding save_snapshot
save_snapshot-SameRows turn type seq payload db = elim (Bool-cases (is_diff type)) [
  | inl diff ↦ rw (diff, save_snapshot) (record { events = refl; turns = refl })
  | inr other ↦ rw (other, save_snapshot) (record { events = refl; turns = refl })
]

-- Of what follows the projection only the event is one of its rows.
pub finish_event-SameRows :
    (e : Event) (type : EventType) (payload : Fields) (projected : Json) (db : Store)
    → SameRows (write_projected e.id projected db) (finish_event e type payload projected db)
unfolding finish_event
finish_event-SameRows e type payload projected db =
    let written = write_projected e.id projected db in
    let saved = save_snapshot-SameRows e.turn_id type e.seq payload written in
    let announced =
      announce_event-SameRows e.turn_id e.id (save_snapshot e.turn_id type e.seq payload written) in
    record { events = announced.events ∙ saved.events; turns = announced.turns ∙ saved.turns }

pub move_cursor-events :
    (turn : ℕ) (payload : Fields) (db : Store) → (move_cursor turn payload db).events ≡ db.events
unfolding move_cursor
move_cursor-events turn payload db = elim (Option-cases (read_number (get "runnerSeq" payload))) [
  | inl silent ↦ rw (silent, move_cursor) refl
  | inr (n, told) ↦ rw (told, move_cursor) refl
]

move_cursor-SameStatus :
    (turn : ℕ) (payload : Fields) (db : Store)
    → SameStatus db.turns (move_cursor turn payload db).turns
unfolding move_cursor
move_cursor-SameStatus turn payload db =
    elim (Option-cases (read_number (get "runnerSeq" payload))) [
      | inl silent ↦ rw (silent, move_cursor) (λ id. refl)
      | inr (n, told) ↦
          rw (told, move_cursor)
            (update_first-SameStatus (is_behind turn n) (with_cursor n) db.turns (λ t. refl)
              (λ t hit. refl))
    ]

-- The store that the projection of a new event finds.
abbrev pub before_project : ℕ → EventType → Fields → Store → Store
before_project turn type payload db =
    let e = new_event turn type (obj (stored_payload type payload)) db in
    move_cursor turn payload (write_event e db)

-- A transaction that went well is its projection, with what follows it.
pub append_rows-some :
    (turn : ℕ) (type : EventType) (payload : Fields) (now : ℕ) (db : Store) {db' : Store}
    → append_rows turn type payload now db ≡ some db'
    → (r : Store × Json) × (project turn
          (new_event turn type (obj (stored_payload type payload)) db).seq
          type
          (stored_payload type payload)
          now
          (before_project turn type payload db)
        ≡ some r)
      × (finish_event
            (new_event turn type (obj (stored_payload type payload)) db)
            type
            payload
            r.1
            r.0
          ≡ db')
unfolding append_rows
append_rows-some turn type payload now db {db'} e =
    let seq = (new_event turn type (obj (stored_payload type payload)) db).seq in
    elim (Option-cases (
      project turn seq type (stored_payload type payload) now
        (before_project turn type payload db))) [
          | inl fails ↦ absurd cc
          | inr (r, done) ↦ (r, done, cc)
        ]

-- An event that does not end its turn leaves the status of all turns as it is.
pub append-SameStatus :
    (turn : ℕ) (type : EventType) (payload : Fields) (now : ℕ) (s : Service)
    → ends (kind_of type (stored_payload type payload)) ≡ false
    → SameStatus s.queue.db.turns (append turn type payload now s).0.queue.db.turns
unfolding append
append-SameStatus turn type payload now s h =
    elim (Option-cases (append_rows turn type payload now s.queue.db)) [
      | inl fails ↦ rw (fails, append) (λ id. refl)
      | inr (db, stored) ↦
          rw (stored, append)
            (λ id.
              let (r, projected, same) = append_rows-some turn type payload now s.queue.db stored in
              let e = new_event turn type (obj (stored_payload type payload)) s.queue.db in
              ap (λ db. status_at id db.turns) (sym same)
              ∙ ap (status_at id) (finish_event-SameRows e type payload r.1 r.0).turns
              ∙ project-SameStatus turn e.seq type (stored_payload type payload) now _ h projected
                  id
              ∙ move_cursor-SameStatus turn payload (write_event e s.queue.db) id)
    ]
