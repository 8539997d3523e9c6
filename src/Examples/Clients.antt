-- ===== src/Examples/Clients.antt =====
-- The theorems on the messages and inputs of the web application at concrete states.
use agent_waypoint.Common.{ℕ, ◌≡◌, refl, true, false, List, [], ◌∷◌, none, some, any}
use agent_waypoint.Common.Text.{Text, text, text_eq}
use agent_waypoint.Store.{EventType, Role, MessageState, InputStatus}
use agent_waypoint.WebHistory.{ChatMessage, QueuedInput, HistoryEvent}
use agent_waypoint.WebHistory.Inputs.{apply_input_event}
use agent_waypoint.WebHistory.Replays.{apply_all, apply_all_again}
use agent_waypoint.WebHistory.Accepted.{is_accepted_of, apply_input_event-accepted}

abbrev shown : ChatMessage
shown = record {
  id = 7;
  role = Role.assistant;
  content = text "Hel";
  created_at = 10;
  turn_id = some 1;
  backend_item_id = some (text "b");
  history_seq = some 2;
  state = MessageState.streaming;
  phase = none;
  start_event_seq = some 3;
  end_event_seq = none;
  timeline_start_seq = some 2;
  last_event_seq = some 4;
}

abbrev delta : ℕ → Text → HistoryEvent
delta seq words = record {
  turn_id = 1;
  seq = seq;
  type = EventType.assistant_delta;
  ignored = false;
  message = none;
  messages = none;
  item_id = some (text "b");
  message_id = some 7;
  text = some words;
  input = none;
  client_request_id = none;
}

abbrev deltas : List HistoryEvent
deltas = delta 5 (text "lo ") ∷ delta 6 (text "you") ∷ []

apply_all_again_example :
    apply_all deltas (apply_all deltas (shown ∷ [])) ≡ apply_all deltas (shown ∷ [])
apply_all_again_example = apply_all_again deltas (shown ∷ []) ((refl, refl), ((refl, refl), tt))

abbrev input : InputStatus → QueuedInput
input status = record {
  id = text "c1";
  turn_id = 1;
  client_request_id = text "c1";
  content = text "more";
  status = status;
  created_at = 20;
  error_message = none;
}

-- An acknowledgement that comes after the acceptance.
abbrev late : HistoryEvent
late = record (delta 8 []) {
  type = EventType.turn_input_updated;
  input = some (input InputStatus.queued);
}

apply_input_event-accepted_example :
    any (is_accepted_of 1 (text "c1")) (apply_input_event (input InputStatus.accepted ∷ []) late)
    ≡ true
unfolding text_eq
apply_input_event-accepted_example =
    apply_input_event-accepted 1 (text "c1") (input InputStatus.accepted ∷ []) late refl
