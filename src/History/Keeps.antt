-- ===== src/History/Keeps.antt =====
-- apps/api/src/modules/turns/message-history.ts: the messages before and after an event.
use agent_waypoint.Common.{
  ℕ, ◌≡◌, refl, Bool, true, false, List, [], ◌∷◌, ◌++◌, Option, none, some, arith, inl, inr,
  if◌then◌else◌, ◌==◌, find?, filter, update_first, Bool-cases, Option-cases, get_or, All, ◌<◌,
}
use agent_waypoint.Common.Text.{Text}
use agent_waypoint.Common.Json.{Json, Fields, is_true, get, read_string}
use agent_waypoint.Store.{
  EventType, Turn, Message, MessageState, TurnInput, Store, find_turn, turn_has_id,
}
use agent_waypoint.History.{
  NewMessage, create_message, has_message_id, enqueue_message, is_item, is_unfinished,
}
use agent_waypoint.History.Project.{
  Kind, kind_of, close_messages, closed_message, end_turn, adopt_prompt, adopted_message,
  user_message, user_row, accept_input, project_user, assistant_message, grown_message, item_row,
  grow_item, is_finished, version_two, project_assistant, item_of, project_kind, is_other, project,
  find_input, queued_content, is_completion, last_end,
}
use agent_waypoint.History.Order.{
  IsHistory, update_first-IsHistory, same_messages-IsHistory, create_message-IsHistory,
  enqueue_message-messages, found_by_id,
}
use agent_waypoint.History.Closed.{
  Stays, finished_at, update_open-Stays, update_mild-Stays, append-Stays, end_turn-Stays,
}

-- What is kept from one store to the next: the order of the messages and what is finished of them.
record Keeps (db db' : Store) : Type 0 where
  pub history : IsHistory db'
  pub stays : (id : ℕ) (s : Text) → Stays id s db.messages → Stays id s db'.messages

Keeps-refl : (db : Store) → IsHistory db → Keeps db db
Keeps-refl db v = record { history = v; stays = λ id s h. h }

-- Only the messages and the next identifier matter.
Keeps-same :
    (db one two : Store)
    → two.messages ≡ one.messages
    → two.next_id ≡ one.next_id
    → Keeps db one
    → Keeps db two
Keeps-same db one two rows ids k = record {
  history = same_messages-IsHistory one two rows ids k.history;
  stays = λ id s h. rw rows (k.stays id s h);
}

create_message-Keeps :
    (m : NewMessage) (now : ℕ) (db : Store) → IsHistory db → Keeps db (create_message m now db).0
unfolding create_message
create_message-Keeps m now db v = record {
  history = create_message-IsHistory m now db v;
  stays = λ id s h. append-Stays id s db.messages _ h;
}

close_messages-IsHistory :
    (t : Turn) (seq : ℕ) (ms : List Message) (db : Store)
    → IsHistory db
    → IsHistory (close_messages t seq ms db).0
unfolding close_messages
close_messages-IsHistory t seq [] db v = v
close_messages-IsHistory t seq (m ∷ ms) db v =
    let changed : Store = record db {
      messages = update_first (has_message_id m.id) (closed_message seq) db.messages;
    } in
    let (rows, ids) = enqueue_message-messages t (closed_message seq m) changed in
    close_messages-IsHistory t seq ms _ (
      same_messages-IsHistory changed _ rows ids (
        update_first-IsHistory (closed_message seq) (λ x. refl) (λ x. refl) (λ x. refl)
          (has_message_id m.id) db changed refl refl v))

end_turn-Keeps :
    (t : Turn) (type : EventType) (seq : ℕ) (payload : Fields) (now : ℕ) (db : Store)
    → IsHistory db
    → Keeps db (end_turn t type seq payload now db).0
unfolding end_turn
end_turn-Keeps t type seq payload now db v = record {
  history =
      same_messages-IsHistory _ _ refl refl
        (close_messages-IsHistory t seq (filter (is_unfinished t.id) db.messages) db v);
  stays = λ id s h. end_turn-Stays t type seq id s payload now db v.ordered h;
}

adopt_prompt-Keeps :
    (t : Turn) (item : Text) (seq : ℕ) (payload : Fields) (db : Store) {r : Store × Message}
    → IsHistory db
    → adopt_prompt t item seq payload db ≡ some (some r)
    → Keeps db r.0
unfolding adopt_prompt
adopt_prompt-Keeps t item seq payload db {r} v e =
    elim (Bool-cases (is_true (get "initial" payload))) [
      | inr later ↦ cc
      | inl initial ↦ elim (Option-cases t.user_message_id) [
        | inl nobody ↦ cc
        | inr (id, known) ↦ elim (Option-cases (find? (has_message_id id) db.messages)) [
          | inl gone ↦ cc
          | inr (m, found) ↦
              let adopted = adopted_message t.id item seq in
              let changed : Store = record db {
                messages = update_first (has_message_id id) adopted db.messages;
              } in
              let same : changed ≡ r.0 = cc in
              rw (← same) (record {
                history =
                    update_first-IsHistory adopted (λ x. refl) (λ x. refl) (λ x. refl)
                      (has_message_id id) db changed refl refl v;
                stays =
                    λ i s h. update_mild-Stays i id s adopted db.messages (λ x. refl) (λ x. refl) h;
              })
        ]
      ]
    ]

user_row-Keeps :
    (t : Turn) (item : Text) (seq : ℕ) (payload : Fields) (input : Option TurnInput) (now : ℕ)
    (db : Store) {r : Store × Message}
    → IsHistory db
    → user_row t item seq payload input now db ≡ some r
    → Keeps db r.0
unfolding user_row
user_row-Keeps t item seq payload input now db {r} v e =
    elim (Option-cases (find? (is_item t.id item) db.messages)) [
      | inr (m, found) ↦ let same : db ≡ r.0 = cc in rw (← same) (Keeps-refl db v)
      | inl new ↦ elim (Option-cases (adopt_prompt t item seq payload db)) [
        | inl fails ↦ cc
        | inr (some r', adopted) ↦
            let same : r' ≡ r = cc in
            rw (← same) (adopt_prompt-Keeps t item seq payload db v adopted)
        | inr (none, no_prompt) ↦
            let content = get_or (read_string (get "content" payload)) (queued_content input) in
            let same : create_message (user_message t item seq content) now db ≡ r = cc in
            rw (← same) (create_message-Keeps _ now db v)
      ]
    ]

accept_input-messages :
    (input : Option TurnInput) (m : Message) (item : Text) (now : ℕ) (db : Store)
    → ((accept_input input m item now db).messages ≡ db.messages)
      × ((accept_input input m item now db).next_id ≡ db.next_id)
accept_input-messages none m item now db = (refl, refl)
accept_input-messages (some i) m item now db = (refl, refl)

project_user-Keeps :
    (t : Turn) (item : Text) (seq : ℕ) (payload : Fields) (now : ℕ) (db : Store) {r : Store × Json}
    → IsHistory db
    → project_user t item seq payload now db ≡ some r
    → Keeps db r.0
unfolding project_user
project_user-Keeps t item seq payload now db {r} v e =
    let input = find_input t.id (read_string (get "clientId" payload)) db.inputs in
    elim (Option-cases (user_row t item seq payload input now db)) [
      | inl fails ↦ cc
      | inr ((db', m), row) ↦
          let (rows, ids) = accept_input-messages input m item now db' in
          let same : accept_input input m item now db' ≡ r.0 = cc in
          rw (← same)
            (Keeps-same db db' _ rows ids (user_row-Keeps t item seq payload input now db v row))
    ]

-- A change of a message that still streams.
open_change-Keeps :
    (db one : Store) (k : ℕ) (type : EventType) (seq : ℕ) (payload : Fields)
    → finished_at k one.messages ≡ none
    → Keeps db one
    → Keeps db (record one {
      messages = update_first (has_message_id k) (grown_message type seq payload) one.messages;
    })
open_change-Keeps db one k type seq payload still v =
    let grown = grown_message type seq payload in
    record {
      history =
          update_first-IsHistory grown (λ x. refl) (λ x. refl) (λ x. refl) (has_message_id k) one _
            refl refl v.history;
      stays =
          λ id s h. update_open-Stays id k s grown one.messages (λ x. refl) still (v.stays id s h);
    }

new_row_streams :
    (n : ℕ) (ms : List Message) (row : Message)
    → All (λ m. m.id < n) ms
    → row.state ≡ MessageState.streaming
    → row.id ≡ n
    → finished_at n (ms ++ row ∷ []) ≡ none
new_row_streams n [] row h e i = ground (arith, e, i)
new_row_streams n (m ∷ ms) row h e i = ground (arith, h.0, new_row_streams n ms row h.1 e i)

created-Keeps :
    (m : NewMessage) (now : ℕ) (db : Store)
    → IsHistory db
    → m.state ≡ MessageState.streaming
    → Keeps db (create_message m now db).0
      × (finished_at (create_message m now db).1.id (create_message m now db).0.messages ≡ none)
unfolding create_message
created-Keeps m now db v e =
    (create_message-Keeps m now db v, new_row_streams db.next_id db.messages _ v.fresh e refl)

item_row-Keeps :
    (t : Turn) (item : Text) (seq now : ℕ) (db : Store)
    → IsHistory db
    → is_finished (find? (is_item t.id item) db.messages) ≡ false
    → Keeps db (item_row t item seq now db).0
      × (finished_at (item_row t item seq now db).1.id (item_row t item seq now db).0.messages
          ≡ none)
item_row-Keeps t item seq now db v still =
    elim (Option-cases (find? (is_item t.id item) db.messages)) [
      | inr (m, found) ↦
          rw (found, item_row)
            (
              Keeps-refl db v,
              rw (found_by_id (is_item t.id item) db.messages v.ordered found) (ground arith),
            )
      | inl new ↦
          rw (new, item_row)
            (created-Keeps (assistant_message t item seq (last_end t.id db.messages)) now db v refl)
    ]

enqueued-Keeps :
    (sends : Bool) (t : Turn) (m : Message) (db one : Store)
    → Keeps db one
    → Keeps db (if sends then enqueue_message t m one else one)
enqueued-Keeps false t m db one v = v
enqueued-Keeps true t m db one v =
    let (rows, ids) = enqueue_message-messages t m one in
    Keeps-same db one (enqueue_message t m one) rows ids v

grow_item-Keeps :
    (t : Turn) (type : EventType) (item : Text) (seq : ℕ) (payload : Fields) (now : ℕ) (db : Store)
    → IsHistory db
    → is_finished (find? (is_item t.id item) db.messages) ≡ false
    → Keeps db (grow_item t type item seq payload now db).0
unfolding grow_item
grow_item-Keeps t type item seq payload now db v still =
    let (kept, streams) = item_row-Keeps t item seq now db v still in
    let row = item_row t item seq now db in
    let written : Store = record row.0 {
      messages =
          update_first (has_message_id row.1.id) (grown_message type seq payload) row.0.messages;
    } in
    let grown = open_change-Keeps db row.0 row.1.id type seq payload streams kept in
    enqueued-Keeps (is_completion type) t (grown_message type seq payload row.1) db written grown

project_assistant-Keeps :
    (t : Turn) (type : EventType) (item : Text) (seq : ℕ) (payload : Fields) (now : ℕ) (db : Store)
    → IsHistory db
    → Keeps db (project_assistant t type item seq payload now db).0
unfolding project_assistant
project_assistant-Keeps t type item seq payload now db v =
    let db' : Store = record db { turns = update_first (turn_has_id t.id) version_two db.turns } in
    let start : IsHistory db' = same_messages-IsHistory db db' refl refl v in
    elim (Bool-cases (is_finished (find? (is_item t.id item) db.messages))) [
      | inl over ↦ rw over (Keeps-same db db db' refl refl (Keeps-refl db v))
      | inr open_item ↦ rw open_item (
          let k = grow_item-Keeps t type item seq payload now db' start open_item in
          record { history = k.history; stays = k.stays })
    ]

project_kind-Keeps :
    (kind : Kind) (t : Turn) (type : EventType) (seq : ℕ) (payload : Fields) (now : ℕ) (db : Store)
    {r : Store × Json}
    → IsHistory db
    → project_kind kind t type seq payload now db ≡ some r
    → Keeps db r.0
unfolding project_kind
project_kind-Keeps Kind.other t type seq payload now db {r} v e =
    let same : db ≡ r.0 = cc in rw (← same) (Keeps-refl db v)
project_kind-Keeps Kind.turn_end t type seq payload now db {r} v e =
    elim (Bool-cases (t.history_version == 2)) [
      | inr old ↦ let same : db ≡ r.0 = ground arith in rw (← same) (Keeps-refl db v)
      | inl two ↦
          let same : end_turn t type seq payload now db ≡ r = ground arith in
          rw (← same) (end_turn-Keeps t type seq payload now db v)
    ]
project_kind-Keeps Kind.user_item t type seq payload now db {r} v e =
    elim (Option-cases (item_of payload)) [
      | inl missing ↦ absurd (ground arith)
      | inr (item, known) ↦
          project_user-Keeps t item seq payload now db v (rw (known, project_kind) at e)
    ]
project_kind-Keeps Kind.assistant_item t type seq payload now db {r} v e =
    elim (Option-cases (item_of payload)) [
      | inl missing ↦ absurd (ground arith)
      | inr (item, known) ↦
          let same : project_assistant t type item seq payload now db ≡ r = ground arith in
          rw (← same) (project_assistant-Keeps t type item seq payload now db v)
    ]

project-Keeps :
    (turn seq : ℕ) (type : EventType) (payload : Fields) (now : ℕ) (db : Store) {r : Store × Json}
    → IsHistory db
    → project turn seq type payload now db ≡ some r
    → Keeps db r.0
unfolding project
project-Keeps turn seq type payload now db {r} v e =
    elim (Bool-cases (is_other (kind_of type payload))) [
      | inl nothing ↦ let same : db ≡ r.0 = ground arith in rw (← same) (Keeps-refl db v)
      | inr something ↦ elim (Option-cases (find_turn turn db)) [
        | inl missing ↦ absurd (ground arith)
        | inr (t, found) ↦
            project_kind-Keeps (kind_of type payload) t type seq payload now db v
              (rw (something, found, project) at e)
      ]
    ]

-- Whatever event is projected without an exception: where the messages of each session are numbered upwards, no
-- identifier is used twice and the next one is unused, that is so afterwards.
pub project-IsHistory :
    (turn seq : ℕ) (type : EventType) (payload : Fields) (now : ℕ) (db : Store) {r : Store × Json}
    → IsHistory db
    → project turn seq type payload now db ≡ some r
    → IsHistory r.0
project-IsHistory turn seq type payload now db v e =
    (project-Keeps turn seq type payload now db v e).history

-- Whatever event is projected without an exception, where the messages of each session are numbered upwards and no
-- identifier is used twice: a message that does not stream any more
-- keeps its content, and does not stream again.
pub project-Stays :
    (turn seq : ℕ) (type : EventType) (payload : Fields) (now : ℕ) (db : Store) (id : ℕ) (s : Text)
    {r : Store × Json}
    → IsHistory db
    → project turn seq type payload now db ≡ some r
    → Stays id s db.messages
    → Stays id s r.0.messages
project-Stays turn seq type payload now db id s v e h =
    (project-Keeps turn seq type payload now db v e).stays id s h
