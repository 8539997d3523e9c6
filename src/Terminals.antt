-- ===== src/Terminals.antt =====
-- apps/api/src/modules/terminals/terminals.service.ts and terminal-lifecycle.ts: the terminals that the
-- API keeps, their connections, and their closing. The state and the small changes of one terminal are
-- here; the service's methods are in the children.
pub mod Create
pub mod Attach
pub mod Close
pub mod Step
pub mod Moves
pub mod Mirror
pub mod Peers
pub mod Control
pub mod Whole
pub mod Deletion
pub mod System
pub mod Limits
pub mod Sessions
pub mod Races
pub mod Flow
use Prim.Native.Nat.{ℕ, suc, zero, ◌+◌, ◌-◌, ◌*◌, ◌≤◌, ◌<◌}
use agent_waypoint.Common.{
  Bool, true, false, not, ◌&&◌, ◌||◌, List, [], ◌∷◌, ◌++◌, map, Option, none, some, if◌then◌else◌,
  ◌==◌, ltb, leb, is_some, length, filter, find?, any, update_first,
}
use agent_waypoint.Common.Text.{Text}
use agent_waypoint.Common.Json.{ℤ}

pub data TerminalState : Type 0 where
  starting running closing exited failed : TerminalState

pub data CloseReason : Type 0 where
  user process_exit unattached_timeout api_shutdown : CloseReason

pub record Metadata : Type 0 where
  pub id : ℕ
  pub session_id : ℕ
  pub project_id : ℕ
  pub title : Text
  pub initial_cwd : Text
  pub shell : Text
  pub state : TerminalState
  pub cols : ℕ
  pub rows : ℕ
  pub created_at : ℕ
  pub connected_client_count : ℕ
  pub unattached_since : Option ℕ
  pub exit_code : Option ℤ
  pub close_reason : Option CloseReason

-- What a peer is told. `snapshot` and the messages behind it carry the place in the output.
pub data Message : Type 0 where
  ready : Metadata → Option ℕ → ℕ → Message
  snapshot : ℕ → ℕ → ℕ → Text → Message
  output : ℕ → Text → Message
  exit : Metadata → Message
  resized : ℕ → ℕ → ℕ → Message
  control_changed : Option ℕ → Message
  closing_by : CloseReason → Message

-- `live` is false while the peer's `send` is replaced by one that does nothing.
pub record Peer : Type 0 where
  pub id : ℕ
  pub live : Bool

-- What has been done to the headless screen, which is a package's; a screen is its history.
pub data ScreenCall : Type 0 where
  wrote : Text → ScreenCall
  sized : ℕ → ℕ → ScreenCall

-- The calls that wait in `outputTail`, the first to run at the head.
pub data Task : Type 0 where
  write_output : Text → Task
  send_snapshot : ℕ → Task
  apply_resize : ℕ → ℕ → ℕ → Task

-- `Entry.closing`: no promise, one that waits for the process, one that waits for so many tasks of
-- the output's tail, or one that is resolved.
pub data Closing : Type 0 where
  open_still killing settled : Closing
  draining : ℕ → Closing

pub record Entry : Type 0 where
  pub meta : Metadata
  pub open meta use {id as entry_id, state, cols, rows}
  pub owner : ℕ
  pub spawned : Bool
  pub screen : List ScreenCall
  pub peers : List Peer
  pub writer : Option ℕ
  pub unattached_since_mono : Option ℕ
  pub seq : ℕ
  pub output_tail : List Task
  pub pending_bytes : ℕ
  pub closing_promise : Closing
  -- A close by the user waits for the one under way and then disposes of the terminal.
  pub user_waits : Bool

-- What the service does outside: messages and disconnections of peers, calls of the process.
pub data Effect : Type 0 where
  sent : ℕ → ℕ → Message → Effect
  disconnected : ℕ → ℕ → Effect
  paused resumed killed : ℕ → Effect
  typed : ℕ → Text → Effect
  process_resized : ℕ → ℕ → ℕ → Effect

-- An entry of `terminalLifecycle.resources`.
pub record Resource : Type 0 where
  pub id : ℕ
  pub project_id : ℕ
  pub session_id : ℕ
  pub state : TerminalState

-- An entry of the `requests` map, under the key of its user, session and request.
pub record Request : Type 0 where
  pub user_id : ℕ
  pub session_id : ℕ
  pub request_id : ℕ
  pub terminal_id : ℕ
  pub expires : ℕ

pub record Service : Type 0 where
  pub entries : List Entry
  pub requests : List Request
  pub resources : List Resource
  pub stopping : Bool
  pub effects : List Effect

abbrev pub state_eq : TerminalState → TerminalState → Bool
state_eq starting starting = true
state_eq running running = true
state_eq closing closing = true
state_eq exited exited = true
state_eq failed failed = true
state_eq _ _ = false

abbrev pub has_id : ℕ → Entry → Bool
has_id id e = e.meta.id == id

abbrev pub resource_has_id : ℕ → Resource → Bool
resource_has_id id r = r.id == id

-- `metadata(entry)`.
abbrev pub metadata : Entry → Metadata
metadata e = record e.meta { connected_client_count = length e.peers }

-- `broadcast`: a peer that is not live yet has a `send` that does nothing.
pub broadcast : ℕ → List Peer → Message → List Effect
broadcast id [] m = []
broadcast id (p ∷ ps) m = if p.live then sent id p.id m ∷ broadcast id ps m else broadcast id ps m

pub disconnect_all : ℕ → List Peer → List Effect
disconnect_all id [] = []
disconnect_all id (p ∷ ps) = disconnected id p.id ∷ disconnect_all id ps

abbrev pub has_peer : ℕ → List Peer → Bool
has_peer peer = any (λ p. p.id == peer)

abbrev pub drop_peer : ℕ → List Peer → List Peer
drop_peer peer = filter (λ p. not (p.id == peer))

-- `peers.set`: a known peer keeps its place.
abbrev pub set_peer : Peer → List Peer → List Peer
set_peer p [] = p ∷ []
set_peer p (q ∷ ps) = if q.id == p.id then p ∷ ps else q ∷ set_peer p ps

abbrev pub set_state : TerminalState → Entry → Entry
set_state st e = record e { meta = record e.meta { state = st } }

abbrev pub resource_set_state : TerminalState → Resource → Resource
resource_set_state st r = record r { state = st }

-- `get(userId, id)`, with its check of the owner; `none` is the exception.
unfoldable pub get : ℕ → ℕ → Service → Option Entry
get user_id id s = elim (find? (has_id id) s.entries) [
  | none ↦ none
  | some e ↦ if e.owner == user_id then some e else none
]

-- Changes of an entry go to the object in the map.
abbrev pub change : ℕ → (Entry → Entry) → List Effect → Service → Service
change id f es s = record s {
  entries = update_first (has_id id) f s.entries;
  effects = s.effects ++ es;
}

-- `state(entry, state)`: the resource follows.
unfoldable pub change_state : ℕ → TerminalState → (Entry → Entry) → List Effect → Service → Service
change_state id st f es s = record s {
  entries = update_first (has_id id) (λ e. set_state st (f e)) s.entries;
  resources = update_first (resource_has_id id) (resource_set_state st) s.resources;
  effects = s.effects ++ es;
}

-- `dispose(entry)`.
unfoldable pub dispose : Entry → Service → Service
unfolding disconnect_all
dispose e s = record s {
  entries = filter (λ x. not (has_id e.meta.id x)) s.entries;
  resources = filter (λ r. not (resource_has_id e.meta.id r)) s.resources;
  effects = s.effects ++ disconnect_all e.meta.id e.peers;
}

pub data Fault : Type 0 where
  not_found conflict unavailable bad_request : Fault

pub data Result {ℓ} (A : Type ℓ) : Type ℓ where
  ok : A → Result A
  err : Fault → Result A
