-- ===== src/Turns.antt =====
-- apps/api/src/modules/turns/turns.service.ts: the state that the ingestion of a runner's events works on, and how
-- calls that may throw follow one another. A call that throws keeps what was written before.
mod Keys
pub mod Context
pub mod Append
pub mod Content
pub mod Ends
pub mod Ingest
pub mod Steering
pub mod Requests
unfoldable pub use Keys.*
use Prim.Native.String.{String}
use package.text.Mathlib.Text.{◌==◌ as str_eq}
use agent_waypoint.Common.{
  ℕ, Bool, true, false, ◌&&◌, ◌||◌, List, [], ◌∷◌, ◌++◌, Option, none, some, if◌then◌else◌, ◌==◌,
  leb, ltb, is_some, find?, filter, update_first,
}
use agent_waypoint.Common.Text.{Text, text, text_eq}
use agent_waypoint.Common.Json.{
  ℤ, pos, negsuc, Json, null, bool, num, str, date, arr, obj, Items, nil, cons, Fields, end, field,
  get, remove,
}
use agent_waypoint.Store.{EventType, Turn, Store, ContextUsage, find_turn, turn_has_id}
use agent_waypoint.Approvals.{Queue}
use agent_waypoint.TurnConfig.{TextField, field_name}

-- `PendingCoalescedEvent`, under its key.
pub record Pending : Type 0 where
  pub key : Key
  pub turn_id : ℕ
  pub type : EventType
  pub payload : Fields

-- A pending snapshot of how much context a turn has left.
pub record PendingContext : Type 0 where
  pub turn_id : ℕ
  pub snapshot : ContextUsage

-- The service: the approvals with the database, what is pending, and the threads of the sessions' backends.
pub record Service : Type 0 where
  pub queue : Queue
  pub pending : List Pending
  pub contexts : List PendingContext
  pub threads : List (ℕ × Text)

-- What a call throws. `transaction` is an exception inside of a transaction, `runner` one of the runner's, `unfinished`
-- stands for a loop that has not ended.
pub data Fault : Type 0 where
  not_found conflict transaction runner unfinished : Fault

abbrev pub Action : Type 0
Action = Service → Service × Option Fault

abbrev pub done : Action
done s = (s, none)

abbrev pub throw : Fault → Action
throw f s = (s, some f)

abbrev pub and_then : Action → Service × Option Fault → Service × Option Fault
and_then b (s, none) = b s
and_then b (s, some f) = (s, some f)

infixl 5 ◌>>◌
abbrev pub ◌>>◌ : Action → Action → Action
◌>>◌ a b s = and_then b (a s)

-- What a call does depends on the state that it finds.
abbrev pub reading : (Service → Action) → Action
reading f s = f s s

abbrev pub with_queue : Queue → Service → Service
with_queue q s = record s { queue = q }

abbrev pub with_store : Store → Service → Service
with_store db s = record s { queue = record s.queue { db = db } }

-- `prisma.turn.update` of one turn: an exception where there is none.
unfoldable pub update_turn : ℕ → (Turn → Turn) → Action
update_turn turn f s = elim (find_turn turn s.queue.db) [
  | none ↦ throw Fault.transaction s
  | some t ↦ done (
      with_store (record s.queue.db { turns = update_first (turn_has_id turn) f s.queue.db.turns })
        s)
]
