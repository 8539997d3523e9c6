-- ===== src/Examples/Ingest.antt =====
-- The theorems on the ingestion of events and on turns at concrete states.
use agent_waypoint.Common.{
  ℕ, ◌≡◌, ◌⊎◌, refl, arith, true, not, List, [], ◌∷◌, ◌++◌, none, some, filter, find?,
}
use agent_waypoint.Common.Text.{text}
use agent_waypoint.Common.Json.{
  ℤ, str, obj, Fields, end, field, get, read_number, read_string, whole, is_true,
}
use agent_waypoint.Store.{TurnStatus, EventType}
use agent_waypoint.Examples.Turns.{turn, store}
use agent_waypoint.History.Frames.{status_at}
use agent_waypoint.History.Project.{project, kind_of}
use agent_waypoint.TurnConfig.{TextField, coalesced_field}
use agent_waypoint.Turns.{Key, text_key, key_eq, Pending, Service, Fault}
use agent_waypoint.Turns.Append.{
  has_key, append, append_rows, stored_payload, move_cursor, flush_key, flush_turn, is_pending_of,
  coalesce, coalesce_text, upsert_coalesced,
}
use agent_waypoint.Turns.Append.Flushes.{flush_turn-settles, flush_key_failed}
use agent_waypoint.Turns.Append.Numbered.{IsNumbered}
use agent_waypoint.Turns.Context.{build_context_usage}
use agent_waypoint.Turns.Context.Usage.{IsRatio, build_context_usage-IsRatio}
use agent_waypoint.Turns.Content.{strip_reasoning}
use agent_waypoint.Turns.Content.Blocks.{strip_reasoning-block}
use agent_waypoint.Turns.Ingest.{
  ingest, is_replay, flush_boundary, handle, handle_active, take_delta, coalesce_or_append,
}
use agent_waypoint.Turns.Ingest.Keeps.{IsSound}
use agent_waypoint.Turns.Ingest.Runs.{Call, run, run-IsSound}
use agent_waypoint.Turns.Ingest.Ended.{ingest_all, ingest_all_ended}
use agent_waypoint.Turns.Ingest.Replays.{ingest_again}
use agent_waypoint.Turns.Steering.{SteerAnswer}
use agent_waypoint.Turns.Requests.{Session, TurnRequest}
use agent_waypoint.Turns.Requests.Exclusive
use agent_waypoint.Turns.Requests.Exclusive.{IsExclusive, Step, IsWell, run-IsWell}

-- A service with a running turn, and nothing that waits.
abbrev idle : Service
idle = record {
  queue = record { db = store; timers = []; ticks = []; accepted = []; wakes = 0 };
  pending = [];
  contexts = [];
  threads = [];
}

abbrev no_item : Fields
no_item = field "text" (str (text "Hel")) (field "runnerSeq" (whole 1) end)

abbrev plain_key : ℕ → Key
plain_key id = text_key id EventType.assistant_delta TextField.text_field end

abbrev batch : ℕ → Fields → Pending
batch id payload = record {
  key = plain_key id;
  turn_id = id;
  type = EventType.assistant_delta;
  payload = payload;
}

abbrev waiting : Service
waiting = record idle { pending = batch 1 no_item ∷ [] }

flush_turn-settles_example :
    (((flush_turn 1 50 waiting).1 ≡ none)
      × (filter (is_pending_of 1) (flush_turn 1 50 waiting).0.pending ≡ []))
    ⊎ ((flush_turn 1 50 waiting).1 ≡ some Fault.transaction)
flush_turn-settles_example = flush_turn-settles 1 50 waiting

-- A batch of an item, for a turn that is not there.
abbrev lost : Fields
lost = field "text" (str (text "x")) (field "itemId" (str (text "i")) end)

abbrev orphaned : Service
orphaned = record idle { pending = batch 9 lost ∷ [] }

flush_orphaned : (flush_key 50 (plain_key 9) orphaned).1 ≡ some Fault.transaction
unfolding flush_key append append_rows project kind_of key_eq move_cursor get read_number
    read_string stored_payload
flush_orphaned = refl

flush_key_failed_example :
    (p : Pending) × (find? (has_key (plain_key 9)) orphaned.pending ≡ some p)
    × (flush_key 50 (plain_key 9) orphaned ≡ (
      record orphaned {
        pending = filter (λ q. not (has_key (plain_key 9) q)) orphaned.pending ++ p ∷ [];
      },
      some Fault.transaction,
    ))
flush_key_failed_example = flush_key_failed 50 (plain_key 9) orphaned flush_orphaned

no_events-IsNumbered : IsNumbered []
unfolding IsNumbered
no_events-IsNumbered id = refl

idle-IsSound : IsSound idle
idle-IsSound = record { numbered = no_events-IsNumbered; waiting = tt }

abbrev two_calls : List (ℕ × Call)
two_calls =
    (50, Call.ingests 1 EventType.assistant_delta no_item)
    ∷ (60, Call.ingests 1 EventType.tool_started (field "itemId" (str (text "t")) end))
    ∷ (70, Call.stops)
    ∷ []

run-IsSound_example : IsSound (run two_calls idle)
run-IsSound_example = run-IsSound two_calls idle idle-IsSound

abbrev ended : Service
ended = record idle {
  queue = record idle.queue {
    db = record store { turns = record turn { status = TurnStatus.cancelled } ∷ [] };
  };
}

abbrev late_events : List (EventType × (Fields × ℕ))
late_events =
    (EventType.turn_started, (end, 80))
    ∷ (EventType.turn_completed, (field "content" (str (text "late")) end, 90))
    ∷ []

ingest_all_ended_example :
    status_at 1 (ingest_all 1 late_events ended).queue.db.turns ≡ some TurnStatus.cancelled
ingest_all_ended_example =
    ingest_all_ended 1 late_events ended (record { numbered = no_events-IsNumbered; waiting = tt })
      refl refl

ingested_well : (ingest 1 EventType.assistant_delta no_item 50 idle).1 ≡ none
unfolding ingest is_replay flush_boundary handle handle_active take_delta coalesce_or_append
    coalesce coalesce_text upsert_coalesced get read_number read_string is_true coalesced_field
ingested_well = refl

ingest_again_example :
    ingest 1 EventType.assistant_delta no_item 60
      (ingest 1 EventType.assistant_delta no_item 50 idle).0
    ≡ ((ingest 1 EventType.assistant_delta no_item 50 idle).0, none)
unfolding is_true get read_number
ingest_again_example =
    ingest_again 1 no_item 50 60 idle idle-IsSound refl refl refl refl ingested_well

abbrev usage_payload : Fields
usage_payload = field "modelContextWindow" (whole 1000) (field "totalTokens" (whole 250) end)

build_context_usage-IsRatio_example : IsRatio (record { over = ℤ.pos 750000; under = 1000000 })
unfolding build_context_usage read_number get
build_context_usage-IsRatio_example =
    build_context_usage-IsRatio usage_payload
      {usage = record {
        remaining_ratio = some (record { over = ℤ.pos 750000; under = 1000000 });
        remaining_tokens = some 750;
        window_tokens = some 1000;
      }}
      {r = record { over = ℤ.pos 750000; under = 1000000 }} refl refl

strip_reasoning-block_example :
    strip_reasoning (text "a" ++ (text "<think>" ++ (text "hm" ++ (text "</think>" ++ text "b"))))
    ≡ text "ab"
strip_reasoning-block_example =
    strip_reasoning-block (text "a") (text "hm") (text "b") (ground arith, tt)
      (ground arith, (ground arith, tt)) (ground arith, tt)

abbrev session : Session
session = record {
  id = 3;
  project_id = 2;
  meta = some (obj (field "runtime" (obj (field "backend" (str (text "codex")) end)) end));
}

abbrev request : TurnRequest
request = record {
  content = text "hi";
  trigger_identifier = none;
  trigger_provider = none;
  trigger_integration_id = none;
  trigger_message_id = none;
}

-- A session that is busy, an input for its turn, the end of its turn, and another request.
abbrev steps : List (ℕ × Step)
steps =
    (50, Step.creates session request true)
    ∷ (52, Step.steers true SteerAnswer.steered 1 (text "more") (some (text "c1")) (text "c2"))
    ∷ (55, Step.pauses 1 (text "r1"))
    ∷ (60, Step.calls (Call.ingests 1 EventType.turn_cancelled end))
    ∷ (70, Step.creates session request true)
    ∷ []

idle-IsExclusive : IsExclusive store.turns
unfolding IsExclusive
idle-IsExclusive id = ground arith

run-IsWell_example : IsWell (Exclusive.run (λ backend. true) steps idle)
run-IsWell_example =
    run-IsWell (λ backend. true) steps idle
      (record { sound = idle-IsSound; exclusive = idle-IsExclusive })
