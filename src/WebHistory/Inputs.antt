-- ===== src/WebHistory/Inputs.antt =====
-- apps/web/src/app/history-messages.ts: `mergeQueuedInput` and `applyInputEvent`.
use agent_waypoint.Common.{
  ℕ, Bool, true, false, not, ◌&&◌, ◌||◌, List, [], ◌∷◌, ◌++◌, Option, none, some, if◌then◌else◌,
  ◌==◌, ltb, map, find?, or_else,
}
use agent_waypoint.Common.Text.{Text, text, text_eq}
use agent_waypoint.Store.{EventType, InputStatus}
use agent_waypoint.WebHistory.{ChatMessage, QueuedInput, HistoryEvent, sort}

abbrev pub is_same_input : QueuedInput → QueuedInput → Bool
is_same_input input entry =
    text_eq entry.client_request_id input.client_request_id && entry.turn_id == input.turn_id

abbrev pub is_accepted : InputStatus → Bool
is_accepted InputStatus.accepted = true
is_accepted _ = false

abbrev pub is_queued : InputStatus → Bool
is_queued InputStatus.queued = true
is_queued _ = false

-- An acknowledgement, or an event that tells of the queue, may arrive after the acceptance.
abbrev pub is_late : InputStatus → InputStatus → Bool
is_late previous status = is_accepted previous || (not (is_queued previous) && is_queued status)

abbrev pub drop_first {ℓ} : {A : Type ℓ} → (A → Bool) → List A → List A
drop_first p [] = []
drop_first p (x ∷ xs) = let rest = drop_first p xs in if p x then xs else x ∷ rest

abbrev pub text_before : Text → Text → Bool
text_before s [] = false
text_before [] (d ∷ t) = true
text_before (c ∷ s) (d ∷ t) = ltb c d || (c == d && text_before s t)

abbrev pub input_before : QueuedInput → QueuedInput → Bool
input_before a b =
    ltb a.created_at b.created_at || (a.created_at == b.created_at && text_before a.id b.id)

abbrev pub merged_input : QueuedInput → QueuedInput → QueuedInput
merged_input input previous = record input {
  error_message = or_else input.error_message previous.error_message;
}

-- `mergeQueuedInput`.
unfoldable pub merge_input : List QueuedInput → QueuedInput → List QueuedInput
merge_input current input = elim (find? (is_same_input input) current) [
  | none ↦ sort input_before (current ++ input ∷ [])
  | some previous ↦
      if is_late previous.status input.status
      then current
      else sort input_before
          (drop_first (is_same_input input) current ++ merged_input input previous ∷ [])
]

abbrev pub unconfirmed : ℕ → QueuedInput → QueuedInput
unconfirmed turn i =
    if i.turn_id == turn && is_queued i.status
    then record i {
      status = InputStatus.unconfirmed;
      error_message = some (some (text "Turn ended before input acceptance was confirmed."));
    }
    else i

abbrev pub ends_turn : EventType → Bool
ends_turn EventType.turn_completed = true
ends_turn EventType.turn_failed = true
ends_turn EventType.turn_cancelled = true
ends_turn _ = false

abbrev pub updates_input : EventType → Bool
updates_input EventType.turn_input_updated = true
updates_input _ = false

abbrev pub accepts_input : EventType → Bool
accepts_input EventType.user_message_accepted = true
accepts_input _ = false

abbrev pub content_of : Option ChatMessage → Text
content_of none = []
content_of (some m) = m.content

-- The empty text of a moment comes before all others.
abbrev pub moment_of : Option ChatMessage → ℕ
moment_of none = 0
moment_of (some m) = m.created_at

abbrev pub accepted_input : HistoryEvent → Text → QueuedInput
accepted_input e client = record {
  id = client;
  turn_id = e.turn_id;
  client_request_id = client;
  content = content_of e.message;
  status = InputStatus.accepted;
  created_at = moment_of e.message;
  error_message = none;
}

abbrev pub apply_acceptance : List QueuedInput → HistoryEvent → List QueuedInput
apply_acceptance current e =
    if accepts_input e.type
    then (elim e.client_request_id [
      | none ↦ current
      | some client ↦ merge_input current (accepted_input e client)
    ])
    else current

abbrev pub apply_update : List QueuedInput → HistoryEvent → List QueuedInput
apply_update current e =
    if updates_input e.type
    then (elim e.input [ none ↦ current | some input ↦ merge_input current input ])
    else apply_acceptance current e

-- `applyInputEvent`.
unfoldable pub apply_input_event : List QueuedInput → HistoryEvent → List QueuedInput
unfolding merge_input
apply_input_event current e =
    if ends_turn e.type then map (unconfirmed e.turn_id) current else apply_update current e
