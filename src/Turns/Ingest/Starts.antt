-- ===== src/Turns/Ingest/Starts.antt =====
-- apps/api/src/modules/turns/turns.service.ts: `turn.started` in `ingestRunnerEventNow`.
use agent_waypoint.Common.{
  ℕ, Bool, false, List, [], ◌∷◌, ◌++◌, Option, none, some, if◌then◌else◌, ◌==◌, any, update_first,
  or_else,
}
use agent_waypoint.Common.Text.{Text}
use agent_waypoint.Common.Json.{ℤ, pos, Fields, get, read_string, read_number}
use agent_waypoint.Store.{TurnStatus, EventType, Turn}
use agent_waypoint.Approvals.{is_queued}
use agent_waypoint.TurnConfig.{effective_backend_config, effective_runtime_config}
use agent_waypoint.Turns.{Action, done, ◌>>◌, update_turn, eq_ℤ}
use agent_waypoint.Turns.Append.{append}

-- `payload.historyVersion === 2`.
abbrev pub says_two : Option ℤ → Bool
says_two none = false
says_two (some n) = eq_ℤ n (pos 2000)

abbrev pub with_version : Fields → Turn → Turn
with_version payload t = record t {
  history_version = 2;
  backend_turn_id = or_else (read_string (get "backendTurnId" payload)) t.backend_turn_id;
}

unfoldable pub adopt_version : Turn → Fields → Action
adopt_version t payload =
    if says_two (read_number (get "historyVersion" payload))
    then update_turn t.id (with_version payload)
    else done

abbrev pub is_thread_of : ℕ → ℕ × Text → Bool
is_thread_of session (s, thread) = s == session

abbrev pub set_thread : ℕ → Text → List (ℕ × Text) → List (ℕ × Text)
set_thread session thread threads =
    if any (is_thread_of session) threads
    then update_first (is_thread_of session) (λ old. (session, thread)) threads
    else threads ++ (session, thread) ∷ []

-- The session of a turn is there, as the schema has it.
unfoldable pub adopt_thread : Turn → Fields → Action
adopt_thread t payload s = elim (read_string (get "threadId" payload)) [
  | none ↦ done s
  | some [] ↦ done s
  | some (c ∷ thread) ↦ done (record s { threads = set_thread t.session_id (c ∷ thread) s.threads })
]

-- `found` is the turn as the call found it.
abbrev pub with_settings : Turn → Fields → Turn → Turn
with_settings found payload t = record t {
  effective_backend_config =
      effective_backend_config payload found.backend found.requested_backend_config;
  effective_runtime_config = effective_runtime_config payload found.effective_runtime_config;
}

abbrev pub started_turn : Turn → Fields → ℕ → Turn → Turn
started_turn found payload now t =
    let set = with_settings found payload t in
    if is_queued found.status
    then record set { status = TurnStatus.running; started_at = some now }
    else set

unfoldable pub start : Turn → Fields → ℕ → Action
start t payload now =
    adopt_version t payload
    >> adopt_thread t payload
    >> update_turn t.id (started_turn t payload now)
    >> append t.id EventType.turn_started payload now
