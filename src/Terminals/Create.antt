-- ===== src/Terminals/Create.antt =====
-- apps/api/src/modules/terminals/terminals.service.ts: `create`, in the parts between its waits. The lock of the project is held from
-- the first part to the last, so creations of one project follow one another; those of two projects
-- interleave.
use Prim.Native.Nat.{ℕ, ◌+◌, ◌*◌}
use agent_waypoint.Common.{
  Bool, true, false, not, ◌&&◌, ◌||◌, List, [], ◌∷◌, ◌++◌, Option, none, some, if◌then◌else◌, ◌==◌,
  leb, length, filter, find?, or_else,
}
use agent_waypoint.Common.Text.{Text, text, trim, number_text}
use agent_waypoint.Common.Json.{Json, read_string}
use agent_waypoint.Terminals.{
  TerminalState, Metadata, ScreenCall, Closing, Entry, Request, Service, Fault, Result, ok, err,
  state_eq, has_id, metadata, change_state, dispose,
}
use agent_waypoint.Terminals.Attach.{is_empty}

pub record Input : Type 0 where
  pub request_id : ℕ
  pub cols : ℕ
  pub rows : ℕ
  pub preferred_id : Option ℕ
  pub ensure : Bool

-- The row of the session, as far as `create` reads it: `meta.runtime.cwd` and the project's path.
pub record Session : Type 0 where
  pub session_id : ℕ
  pub project_id : ℕ
  pub runtime_cwd : Option Json
  pub repo_path : Text

-- What the host answers: paths, the file system, the environment.
pub record Host : Type 0 where
  pub resolve : Text → Text
  pub is_accessible : Text → Bool
  pub shell : Text
  pub enabled : Bool

-- What `create` has decided when it goes on to make a terminal.
pub record Plan : Type 0 where
  pub user_id : ℕ
  pub session : Session
  pub input : Input
  pub cwd : Text
  pub number : ℕ

pub data Begun : Type 0 where
  reuses : Metadata → Begun
  makes : Plan → Begun

abbrev pub session_limit : ℕ
session_limit = 16

abbrev pub service_limit : ℕ
service_limit = 128

abbrev pub request_lifetime_ms : ℕ
request_lifetime_ms = 5 * 60 * 1000

abbrev pub in_session : ℕ → Entry → Bool
in_session id e = e.meta.session_id == id

-- `this.requests` without those that have expired.
abbrev pub live_requests : ℕ → List Request → List Request
live_requests now = filter (λ r. not (leb r.expires now))

abbrev pub is_request : ℕ → ℕ → ℕ → Request → Bool
is_request user_id session_id request_id r =
    r.user_id == user_id && r.session_id == session_id && r.request_id == request_id

abbrev pub is_reusable : Entry → Bool
is_reusable e =
    state_eq e.meta.state TerminalState.starting || state_eq e.meta.state TerminalState.running

abbrev pub is_preferred : Option ℕ → Entry → Bool
is_preferred none e = false
is_preferred (some id) e = e.meta.id == id

abbrev pub first {ℓ} : {A : Type ℓ} → List A → Option A
first [] = none
first (x ∷ xs) = some x

-- The terminal that `ensure` takes in place of a new one.
unfoldable pub reusable : Bool → Option ℕ → List Entry → Option Entry
reusable false preferred matching = none
reusable true preferred matching =
    let active = filter is_reusable matching in
    or_else (find? (is_preferred preferred) active) (first active)

-- `runtime?.cwd ?? currentSession.project.repoPath`, which has to be a text that is not blank.
unfoldable pub working_directory : Session → Option Text
unfolding read_string trim
working_directory session =
    let value : Option Text = elim session.runtime_cwd [
      | none ↦ some session.repo_path
      | some Json.null ↦ some session.repo_path
      | some v ↦ read_string (some v)
    ] in
    elim value [ none ↦ none | some cwd ↦ if is_empty (trim cwd) then none else some cwd ]

-- The checks on the service's state, down to the first look at the file system.
unfoldable pub check_limits : ℕ → Session → Input → Host → Service → Result Begun
unfolding reusable working_directory
check_limits user_id session input host s =
    let matching = filter (in_session session.session_id) s.entries in
    elim (reusable input.ensure input.preferred_id matching) [
      | some e ↦ ok (Begun.reuses (metadata e))
      | none ↦
          if leb session_limit (length matching) || leb service_limit (length s.entries)
          then err Fault.conflict
          else elim (working_directory session) [
            | none ↦ err Fault.bad_request
            | some cwd ↦ ok (
                Begun.makes (record {
                  user_id = user_id;
                  session = session;
                  input = input;
                  cwd = host.resolve cwd;
                  number = length matching + 1;
                }))
          ]
    ]

unfoldable pub begin_create : ℕ → Session → Input → Host → ℕ → Service → Service × Result Begun
begin_create user_id session input host now s =
    if s.stopping || not host.enabled
    then (s, err Fault.unavailable)
    else let s' = record s { requests = live_requests now s.requests } in
      elim (find? (is_request user_id session.session_id input.request_id) s'.requests) [
        | some r ↦ elim (find? (has_id r.terminal_id) s'.entries) [
          | none ↦ (s', err Fault.conflict)
          | some e ↦ (s', ok (Begun.reuses (metadata e)))
        ]
        | none ↦ (s', check_limits user_id session input host s')
      ]

-- Once the directory is known to be accessible: the entry and its resource, under a new identifier.
unfoldable pub new_entry : Plan → Host → ℕ → ℕ → Entry
new_entry plan host id date = record {
  meta = record {
    id = id;
    session_id = plan.session.session_id;
    project_id = plan.session.project_id;
    title = title;
    initial_cwd = plan.cwd;
    shell = host.shell;
    state = TerminalState.starting;
    cols = plan.input.cols;
    rows = plan.input.rows;
    created_at = date;
    connected_client_count = 0;
    unattached_since = none;
    exit_code = none;
    close_reason = none;
  };
  owner = plan.user_id;
  spawned = false;
  screen = ScreenCall.sized plan.input.cols plan.input.rows ∷ [];
  peers = [];
  writer = none;
  unattached_since_mono = none;
  seq = 0;
  output_tail = [];
  pending_bytes = 0;
  closing_promise = Closing.open_still;
  user_waits = false;
}
  where
    title : Text
    title = text "Terminal " ++ number_text plan.number

abbrev pub inserted : Plan → Host → ℕ → ℕ → Service → Service
inserted plan host id date s = record s {
  entries = s.entries ++ new_entry plan host id date ∷ [];
  resources =
      s.resources
      ++ record {
        id = id;
        project_id = plan.session.project_id;
        session_id = plan.session.session_id;
        state = TerminalState.starting;
      }
        ∷ [];
}

unfoldable pub insert_entry : Plan → Host → ℕ → ℕ → Service → Result Service
unfolding new_entry
insert_entry plan host id date s =
    if host.is_accessible plan.cwd then ok (inserted plan host id date s) else err Fault.bad_request

-- `factory.spawn` has settled.
abbrev pub start_entry : ℕ → ℕ → Entry → Entry
start_entry now date e = record e {
  spawned = true;
  unattached_since_mono = some now;
  meta = record e.meta { unattached_since = some date };
}

unfoldable pub spawned_entry : Plan → ℕ → ℕ → ℕ → Service → Service
unfolding change_state
spawned_entry plan id now date s =
    let started = change_state id TerminalState.running (start_entry now date) [] s in
    record started {
      requests =
          started.requests
          ++ record {
            user_id = plan.user_id;
            session_id = plan.session.session_id;
            request_id = plan.input.request_id;
            terminal_id = id;
            expires = now + request_lifetime_ms;
          }
            ∷ [];
    }

-- The caller is told that the service is unavailable.
unfoldable pub spawn_failed : ℕ → Service → Service
unfolding dispose
spawn_failed id s = elim (find? (has_id id) s.entries) [ none ↦ s | some e ↦ dispose e s ]
