-- ===== src/Examples/Turns.antt =====
-- The theorems on approvals and messages at concrete states.
use agent_waypoint.Common.{
  ℕ, ◌+◌, ◌-◌, ◌≡◌, refl, true, false, List, [], ◌∷◌, none, some, arith, any, find?,
}
use agent_waypoint.Common.Text.{Text, text, text_eq}
use agent_waypoint.Common.Json.{Json, null, str, Fields, end, field, get, read_string, ℤ}
use agent_waypoint.Store.{
  Turn, TurnStatus, Role, Message, MessageState, TurnInput, InputStatus, Store, EventType, Approval,
  ApprovalStatus,
}
use agent_waypoint.Approvals
use agent_waypoint.Approvals.{Queue, is_timer}
use agent_waypoint.Approvals.Pause.{pause_timer, resume_timer}
use agent_waypoint.Approvals.Single.{IsSerial}
use agent_waypoint.Approvals.Calls.{Call, run, run-IsSerial}
use agent_waypoint.Approvals.Timers.{pause_resume, timer_at}
use agent_waypoint.History.{has_message_id}
use agent_waypoint.History.Project.{
  project, kind_of, project_kind, project_assistant, grow_item, end_turn, is_queued_input,
}
use agent_waypoint.History.Order.{IsHistory}
use agent_waypoint.History.Closed.{Stays, unfinished_at, end_turn-settles}
use agent_waypoint.History.Keeps.{project-IsHistory, project-Stays}

abbrev pub turn : Turn
turn = record {
  id = 1;
  session_id = 3;
  project_id = 2;
  user_message_id = none;
  assistant_message_id = none;
  history_version = 2;
  backend_turn_id = none;
  runner_cursor = ℤ.pos 0;
  trigger_identifier = text "web";
  trigger_provider = none;
  trigger_integration_id = none;
  trigger_message_id = none;
  status = TurnStatus.running;
  backend = none;
  requested_backend_config = null;
  effective_backend_config = null;
  effective_runtime_config = null;
  failure_code = none;
  failure_message = none;
  context = record { remaining_ratio = none; remaining_tokens = none; window_tokens = none };
  context_updated_at = none;
  started_at = some 0;
  ended_at = none;
}

abbrev message : ℕ → ℕ → MessageState → Text → Message
message id seq state item = record {
  id = id;
  session_id = 3;
  role = Role.assistant;
  content = text "done";
  created_at = 10;
  turn_id = some 1;
  backend_item_id = some item;
  history_seq = seq;
  state = state;
  phase = none;
  start_event_seq = some 1;
  end_event_seq = none;
  timeline_start_seq = some 0;
}

abbrev queued_input : TurnInput
queued_input = record {
  id = 30;
  turn_id = 1;
  client_request_id = text "c1";
  content = text "more";
  status = InputStatus.queued;
  message_id = none;
  backend_item_id = none;
  dispatched_at = none;
  accepted_at = none;
  error_message = none;
}

-- A finished message and one that streams, with an input that waits.
abbrev pub store : Store
store = record {
  turns = turn ∷ [];
  messages =
      message 20 1 MessageState.completed (text "a")
      ∷ message 21 2 MessageState.streaming (text "b")
      ∷ [];
  inputs = queued_input ∷ [];
  approvals = [];
  events = [];
  bot_messages = [];
  snapshots = [];
  next_id = 40;
}

store-IsHistory : IsHistory store
store-IsHistory = record {
  ordered = ((((omega arith), λ own. omega arith), tt), (tt, tt));
  fresh = (omega arith, (omega arith, tt));
}

-- A delta of the message that streams.
abbrev delta : Fields
delta = field "itemId" (str (text "b")) (field "text" (str (text "!")) end)

abbrev grown : Store × Json
unfolding project
grown = elim (project 1 5 EventType.assistant_delta delta 100 store) [
  | none ↦ (store, null)
  | some r ↦ r
]

grows : project 1 5 EventType.assistant_delta delta 100 store ≡ some grown
unfolding project kind_of project_kind project_assistant grow_item get read_string text_eq
grows = refl

project-IsHistory_example : IsHistory grown.0
project-IsHistory_example =
    project-IsHistory 1 5 EventType.assistant_delta delta 100 store store-IsHistory grows

project-Stays_example : Stays 20 (text "done") grown.0.messages
project-Stays_example =
    project-Stays 1 5 EventType.assistant_delta delta 100 store 20 (text "done") store-IsHistory
      grows refl

end_turn-settles_example :
    ((id : ℕ)
      → unfinished_at 1 (
          find?
            (has_message_id id)
            (end_turn turn EventType.turn_cancelled 6 end 200 store).0.messages)
        ≡ false)
    × (any (is_queued_input 1) (end_turn turn EventType.turn_cancelled 6 end 200 store).0.inputs
        ≡ false)
end_turn-settles_example = end_turn-settles turn EventType.turn_cancelled 6 end 200 store

abbrev approval : Approval
approval = record {
  id = 31;
  turn_id = 1;
  request_id = text "r1";
  kind = text "command";
  status = ApprovalStatus.pending;
  payload = null;
  decision = none;
  created_at = 50;
  resolved_at = none;
  published_at = some 50;
  auto_approve_at = some 9000;
  paused_at = none;
  paused_remaining_ms = none;
}

abbrev queue : Queue
queue = record {
  db = record store { approvals = approval ∷ [] };
  timers = timer_at 1 (text "r1") 9000 ∷ [];
  ticks = [];
  accepted = [];
  wakes = 0;
}

queue-IsSerial : IsSerial queue.db
queue-IsSerial = record {
  unique = (refl, tt);
  fresh = (omega arith, tt);
  single = λ t. ground arith;
}

abbrev calls : List (ℕ × Call)
calls =
    (100, Call.enqueues 1 (text "r2") (text "command") null)
    ∷ (200, Call.pauses 1 (text "r1"))
    ∷ (300, Call.resolves turn (text "r1") (text "approve") true null)
    ∷ []

run-IsSerial_example : IsSerial (run queue calls).db
run-IsSerial_example = run-IsSerial queue calls queue-IsSerial

pause_resume_example :
    (held resumed : Queue) × (b c : Approval) × (pause_timer 1 (text "r1") 4000 queue
      ≡ Approvals.Result.ok (held, b))
    × (any (is_timer 1 (text "r1")) held.timers ≡ false)
    × (resume_timer 1 (text "r1") 6000 held ≡ Approvals.Result.ok (resumed, c))
    × (c.auto_approve_at ≡ some (6000 + (9000 - 4000)))
    × (find? (is_timer 1 (text "r1")) resumed.timers
        ≡ some (timer_at 1 (text "r1") (6000 + (9000 - 4000))))
unfolding text_eq
pause_resume_example =
    pause_resume 1 (text "r1") 4000 6000 9000 approval queue queue-IsSerial refl refl refl

-- A request that waits while nothing is pending.
abbrev waiting_queue : Queue
waiting_queue = record queue {
  db = record store {
    approvals =
        record approval {
          id = 32;
          request_id = text "r2";
          status = ApprovalStatus.queued;
          created_at = 60;
        }
        ∷ [];
  };
}
