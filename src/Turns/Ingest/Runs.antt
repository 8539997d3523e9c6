-- ===== src/Turns/Ingest/Runs.antt =====
-- apps/api/src/modules/turns/turns.service.ts: sequences of the calls that change what is ingested: events of the runner
-- for any turns, the timers of what waits, and the flushes at the end of the process.
use agent_waypoint.Common.{ℕ, zero, suc, List, [], ◌∷◌, inl, inr, Bool-cases}
use agent_waypoint.Common.Json.{Fields}
use agent_waypoint.Store.{EventType}
use agent_waypoint.Turns.{Key, PendingContext, Service, Action, ◌>>◌}
use agent_waypoint.Turns.Append.{
  flush_key, flush_keys, all_keys, is_nil, flush_all_rounds, flush_all,
}
use agent_waypoint.Turns.Context.{flush_context, flush_each_context, flush_all_contexts}
use agent_waypoint.Turns.Ingest.{ingest}
use agent_waypoint.Turns.Ingest.Keeps.{
  IsSound, Keeps, then-Keeps, done-Keeps, flush_key-Keeps, flush_keys-Keeps,
}
use agent_waypoint.Turns.Ingest.Parts.{flush_context-Keeps}
use agent_waypoint.Turns.Ingest.Sound.{ingest-IsSound}

pub data Call : Type 0 where
  ingests : ℕ → EventType → Fields → Call
  batch_timer : Key → Call
  context_timer : ℕ → Call
  stops : Call

-- `onModuleDestroy` writes what is known of the contexts, and then the batches.
unfoldable pub call : ℕ → Call → Action
call now (ingests turn type payload) = ingest turn type payload now
call now (batch_timer key) = flush_key now key
call now (context_timer turn) = flush_context turn now
call now stops = flush_all_contexts now >> flush_all now

-- A call that throws does not keep the others from being made.
unfoldable pub run : List (ℕ × Call) → Service → Service
unfolding call
run [] s = s
run ((now, c) ∷ cs) s = run cs (call now c s).0

flush_all_rounds-Keeps : (fuel now : ℕ) → Keeps (flush_all_rounds fuel now)
unfolding flush_all_rounds
flush_all_rounds-Keeps zero now s v = v
flush_all_rounds-Keeps (suc fuel) now s v = elim (Bool-cases (is_nil (all_keys s))) [
  | inl empty ↦ rw empty v
  | inr more ↦ rw more (
      then-Keeps (flush_keys now (all_keys s)) (flush_all_rounds fuel now)
        (flush_keys-Keeps now (all_keys s)) (flush_all_rounds-Keeps fuel now) s v)
]

flush_each_context-Keeps : (cs : List PendingContext) (now : ℕ) → Keeps (flush_each_context cs now)
unfolding flush_each_context
flush_each_context-Keeps [] now = done-Keeps
flush_each_context-Keeps (c ∷ cs) now =
    then-Keeps (flush_context c.turn_id now) (flush_each_context cs now)
      (flush_context-Keeps c.turn_id now) (flush_each_context-Keeps cs now)

pub call-Keeps : (now : ℕ) (c : Call) → Keeps (call now c)
unfolding call flush_all flush_all_contexts
call-Keeps now (ingests turn type payload) = ingest-IsSound turn type payload now
call-Keeps now (batch_timer key) = flush_key-Keeps now key
call-Keeps now (context_timer turn) = flush_context-Keeps turn now
call-Keeps now stops =
    then-Keeps (flush_all_contexts now) (flush_all now)
      (λ s. flush_each_context-Keeps s.contexts now s) (flush_all_rounds-Keeps 2 now)

-- However events of the runner, for any turns, the timers of what waits, and stops of the service follow one another,
-- and whichever of these calls throw: the events of each turn keep the numbers from 1 on without a gap, in the order in
-- which they were stored, and only events of a kind that may wait do so.
pub run-IsSound : (calls : List (ℕ × Call)) (s : Service) → IsSound s → IsSound (run calls s)
unfolding run
run-IsSound [] s v = v
run-IsSound ((now, c) ∷ cs) s v = run-IsSound cs (call now c s).0 (call-Keeps now c s v)
