-- ===== src/WebHistory.antt =====
-- apps/web/src/app/history-messages.ts: the messages and the inputs that the web application holds, as events and pages
-- arrive. Identifiers are numbers and moments milliseconds, whose order is that of `localeCompare`. `sort` is
-- an insertion sort, which is stable as it is.
pub mod Replays
pub mod Inputs
pub mod Accepted
use agent_waypoint.Common.{
  ℕ, zero, suc, ◌+◌, Bool, true, false, not, ◌&&◌, ◌||◌, List, [], ◌∷◌, ◌++◌, Option, none, some,
  if◌then◌else◌, ◌==◌, ltb, leb, map, find?, any, update_first, get_or, is_some, or_else,
}
use agent_waypoint.Common.Text.{Text, text, text_eq}
use agent_waypoint.Store.{EventType, Role, MessageState, InputStatus}
use agent_waypoint.History.{state_eq}

-- A message with all of its columns, and the event that it was last changed by.
pub record ChatMessage : Type 0 where
  pub id : ℕ
  pub role : Role
  pub content : Text
  pub created_at : ℕ
  pub turn_id : Option ℕ
  pub backend_item_id : Option Text
  pub history_seq : Option ℕ
  pub state : MessageState
  pub phase : Option Text
  pub start_event_seq : Option ℕ
  pub end_event_seq : Option ℕ
  pub timeline_start_seq : Option ℕ
  pub last_event_seq : Option ℕ

-- The message of an error is `none` where there is no such key.
pub record QueuedInput : Type 0 where
  pub id : Text
  pub turn_id : ℕ
  pub client_request_id : Text
  pub content : Text
  pub status : InputStatus
  pub created_at : ℕ
  pub error_message : Option (Option Text)

-- `HistoryEvent`, with what is read of its payload.
pub record HistoryEvent : Type 0 where
  pub turn_id : ℕ
  pub seq : ℕ
  pub type : EventType
  pub ignored : Bool
  pub message : Option ChatMessage
  pub messages : Option (List ChatMessage)
  pub item_id : Option Text
  pub message_id : Option ℕ
  pub text : Option Text
  pub input : Option QueuedInput
  pub client_request_id : Option Text

-- `a ?? b` of a key that may be null.
abbrev pub with_turn : ℕ → ChatMessage → ChatMessage
with_turn turn m = record m { turn_id = or_else m.turn_id (some turn) }

abbrev pub with_item : Option Text → ChatMessage → ChatMessage
with_item item m = record m { backend_item_id = or_else m.backend_item_id item }

abbrev pub with_seq : ℕ → ChatMessage → ChatMessage
with_seq seq m = record m { last_event_seq = some seq }

abbrev pub snapshot_from : HistoryEvent → Option ChatMessage → Option ChatMessage
snapshot_from e none = none
snapshot_from e (some m) = some (with_item e.item_id (with_turn e.turn_id m))

-- `readHistoryMessageSnapshot`.
abbrev pub read_snapshot : HistoryEvent → Option ChatMessage
read_snapshot e = snapshot_from e e.message

abbrev pub has_id : ℕ → ChatMessage → Bool
has_id id m = m.id == id

abbrev pub last_seq : ChatMessage → ℕ
last_seq m = get_or m.last_event_seq 0

-- `{ ...previous, ...message }`.
abbrev pub merged : ChatMessage → ChatMessage → ChatMessage
merged message previous = record message {
  last_event_seq = or_else message.last_event_seq previous.last_event_seq;
}

-- A message that is known is replaced in its place, unless it has seen a later event.
abbrev pub renewed : ChatMessage → ChatMessage → ChatMessage
renewed message previous =
    if ltb (last_seq message) (last_seq previous) then previous else merged message previous

unfoldable pub merge_one : ChatMessage → List ChatMessage → List ChatMessage
merge_one message ms =
    if any (has_id message.id) ms
    then update_first (has_id message.id) (renewed message) ms
    else ms ++ message ∷ []

unfoldable pub merge_each : List ChatMessage → List ChatMessage → List ChatMessage
unfolding merge_one
merge_each [] ms = ms
merge_each (message ∷ incoming) ms = merge_each incoming (merge_one message ms)

abbrev pub by_moment : ChatMessage → ChatMessage → Bool
by_moment a b = ltb a.created_at b.created_at || (a.created_at == b.created_at && ltb a.id b.id)

abbrev pub by_seq : ChatMessage → ChatMessage → Option ℕ → Option ℕ → Bool
by_seq a b (some m) (some n) = ltb m n
by_seq a b _ _ = by_moment a b

-- The first stands before the second.
abbrev pub comes_before : ChatMessage → ChatMessage → Bool
comes_before a b = by_seq a b a.history_seq b.history_seq

abbrev pub insert {ℓ} : {A : Type ℓ} → (A → A → Bool) → A → List A → List A
insert before x [] = x ∷ []
insert before x (y ∷ ys) =
    let rest = insert before x ys in if before y x then y ∷ rest else x ∷ y ∷ ys

abbrev pub sort {ℓ} : {A : Type ℓ} → (A → A → Bool) → List A → List A
sort before [] = []
sort before (x ∷ xs) = insert before x (sort before xs)

abbrev pub put_message : ChatMessage → List ChatMessage → List ChatMessage
put_message message ms =
    if any (has_id message.id) ms
    then update_first (has_id message.id) (λ previous. message) ms
    else ms ++ message ∷ []

-- `new Map(current.map((message) => [message.id, message]))`, over what it holds.
unfoldable pub by_id : List ChatMessage → List ChatMessage → List ChatMessage
by_id [] held = held
by_id (message ∷ ms) held = by_id ms (put_message message held)

-- `mergeHistoryMessages`.
unfoldable pub merge_messages : List ChatMessage → List ChatMessage → List ChatMessage
unfolding merge_each by_id
merge_messages current incoming = sort comes_before (merge_each incoming (by_id current []))

abbrev pub is_delta : EventType → Bool
is_delta EventType.assistant_delta = true
is_delta _ = false

abbrev pub is_told : HistoryEvent → ChatMessage → Bool
is_told e m =
    (elim e.message_id [ none ↦ false | some id ↦ m.id == id ])
    && state_eq m.state MessageState.streaming
    && ltb (last_seq m) e.seq

abbrev pub extended : HistoryEvent → ChatMessage → ChatMessage
extended e m = record m { content = m.content ++ get_or e.text []; last_event_seq = some e.seq }

-- A delta goes to the end of the message that streams, once.
abbrev pub grown : HistoryEvent → ChatMessage → ChatMessage
grown e m = if is_told e m then extended e m else m

abbrev pub of_event : HistoryEvent → ChatMessage → ChatMessage
of_event e m = with_seq e.seq (with_turn e.turn_id m)

abbrev pub apply_delta : List ChatMessage → HistoryEvent → List ChatMessage
apply_delta current e =
    if is_delta e.type && is_some e.item_id then map (grown e) current else current

-- What an event does with the message or the messages that it has.
unfoldable pub apply_found :
    List ChatMessage
    → HistoryEvent
    → Option ChatMessage
    → Option (List ChatMessage)
    → List ChatMessage
unfolding merge_messages
apply_found current e (some m) ms = merge_messages current (with_seq e.seq m ∷ [])
apply_found current e none (some ms) = merge_messages current (map (of_event e) ms)
apply_found current e none none = apply_delta current e

-- `applyHistoryEvent`.
unfoldable pub apply_event : List ChatMessage → HistoryEvent → List ChatMessage
unfolding apply_found
apply_event current e =
    if e.ignored then current else apply_found current e (read_snapshot e) e.messages

-- `eventInMessageRange`.
abbrev pub event_in_range : Option ChatMessage → ℕ → Bool
event_in_range none seq = true
event_in_range (some m) seq =
    ltb (get_or m.timeline_start_seq 0) seq
    && (elim m.end_event_seq [ none ↦ true | some end_ ↦ leb seq end_ ])
