-- ===== src/Examples.antt =====
-- The theorems at concrete states, which shows that their conditions can hold.
mod Turns
mod Ingest
mod Clients
mod Feeds
use agent_waypoint.Common.{
  ℕ, suc, ◌+◌, ◌-◌, ◌≤◌, ◌≡◌, ◌↔◌, refl, Bool, true, false, ◌&&◌, List, [], ◌∷◌, Option, none, some,
  if◌then◌else◌, ◌==◌, arith, inl, any, All, count, find?, is_some,
}
use agent_waypoint.Common.Text.{
  Text, text, trim, trim_start, is_space, text_eq, includes, index_of, starts_with, slice_to,
  slice_from,
}
use agent_waypoint.Common.Json.{
  Json, null, str, Fields, end, field, get, put, remove, read_string, is_true, as_record, ℤ,
}
use agent_waypoint.Terminals
use agent_waypoint.Terminals.Create
use agent_waypoint.Terminals.Create.{
  session_limit, in_session, begin_create, insert_entry, check_limits, reusable, working_directory,
  spawned_entry, new_entry,
}
use agent_waypoint.Terminals.System
use agent_waypoint.Terminals.System.{System, SystemReach}
use agent_waypoint.Terminals.Sessions.{IsWithin, session_bounded}
use agent_waypoint.Terminals.Attach.{
  attach, detach, attach_entry, detach_entry, is_attachable, output, output_effects,
}
use agent_waypoint.Terminals.Close.{
  assert_deletable, discard, in_scope, is_active, discard_each, discard_one, run_tail,
}
use agent_waypoint.Terminals.Step.{Reach, here, next, attaches, prints, runs}
use agent_waypoint.Terminals.Moves.{resource_of}
use agent_waypoint.Terminals.Flow.{AllCounted, Reach-AllCounted}
use agent_waypoint.Terminals.Mirror.{IsMirrored, SystemReach-IsMirrored}
use agent_waypoint.Terminals.Peers.{AllSound}
use agent_waypoint.Terminals.Whole.{SystemReach-AllSound}
use agent_waypoint.Terminals.Deletion.{IsOver, assert_deletable_iff, discard-leaves}

abbrev no_screen : List Terminals.ScreenCall → Text
no_screen calls = []

abbrev tab : ℕ → ℕ → Terminals.Entry
tab id project = record {
  meta = record {
    id = id;
    session_id = 3;
    project_id = project;
    title = text "Terminal 1";
    initial_cwd = text "/work";
    shell = text "/bin/bash";
    state = Terminals.TerminalState.running;
    cols = 80;
    rows = 24;
    created_at = 1000;
    connected_client_count = 0;
    unattached_since = some 1000;
    exit_code = none;
    close_reason = none;
  };
  owner = 1;
  spawned = true;
  screen = [];
  peers = [];
  writer = none;
  unattached_since_mono = some 0;
  seq = 0;
  output_tail = [];
  pending_bytes = 0;
  closing_promise = Terminals.Closing.open_still;
  user_waits = false;
}

-- Two terminals, of two projects, that nobody has opened yet.
abbrev two_tabs : Terminals.Service
two_tabs = record {
  entries = tab 5 2 ∷ tab 6 7 ∷ [];
  requests = [];
  resources = resource_of (tab 5 2) ∷ resource_of (tab 6 7) ∷ [];
  stopping = false;
  effects = [];
}

abbrev host : Create.Host
host = record {
  resolve = λ path. path;
  is_accessible = λ path. true;
  shell = text "/bin/bash";
  enabled = true;
}

abbrev session : Create.Session
session = record { session_id = 3; project_id = 2; runtime_cwd = none; repo_path = text "/work" }

abbrev input : Create.Input
input = record { request_id = 11; cols = 80; rows = 24; preferred_id = none; ensure = false }

abbrev plan : Create.Plan
plan = record { user_id = 1; session = session; input = input; cwd = text "/work"; number = 3 }

abbrev project_of : ℕ → ℕ
project_of s = if s == 3 then 2 else 7

-- The first terminal of session 3, from the start of the service: its creation begins, it is put in the map, its
-- process starts, and somebody connects to it.
abbrev first_plan : Create.Plan
first_plan = record {
  user_id = 1;
  session = session;
  input = input;
  cwd = text "/work";
  number = 1;
}

abbrev or_new : Terminals.Result Terminals.Service → Terminals.Service
or_new (Terminals.Result.ok t) = t
or_new (Terminals.Result.err e) = System.new_system.service

abbrev with_first : Terminals.Service
with_first = or_new (insert_entry first_plan host 8 4000 System.new_system.service)

abbrev with_process : Terminals.Service
with_process = spawned_entry first_plan 8 5000 6000 with_first

abbrev with_visitor : System
with_visitor = record { service = or_new (attach 1 8 9 with_process); checking = []; spawning = [] }

first_visit : SystemReach no_screen host project_of System.new_system with_visitor
unfolding begin_create insert_entry new_entry check_limits reusable working_directory trim
    trim_start is_space spawned_entry attach Terminals.get
first_visit =
    System.next
      (System.next
        (System.next
          (System.next System.here
            (System.begins 1 3000 session input first_plan refl refl refl refl))
          (System.inserts 8 4000 first_plan [] [] refl refl refl refl refl))
        (System.starts 8 5000 6000 first_plan [] [] refl refl))
      (System.serves (attaches 1 8 9 refl) refl)

SystemReach-AllSound_example : AllSound with_visitor.service
SystemReach-AllSound_example = SystemReach-AllSound no_screen host project_of first_visit

SystemReach-IsMirrored_example : IsMirrored with_visitor.service
SystemReach-IsMirrored_example = SystemReach-IsMirrored no_screen host project_of first_visit

assert_deletable_iff_example :
    (assert_deletable 2 none with_visitor.service ≡ none)
    ↔ All (IsOver 2 none) with_visitor.service.entries
assert_deletable_iff_example = assert_deletable_iff no_screen host project_of 2 none first_visit

discard-leaves_example :
    All (λ e. in_scope 2 none (resource_of e) ≡ false) (discard 2 none with_visitor.service).entries
discard-leaves_example =
    discard-leaves 2 none with_visitor.service
      (SystemReach-IsMirrored no_screen host project_of first_visit)

abbrev before_creation : System
before_creation = record { service = two_tabs; checking = []; spawning = [] }

-- A third terminal of session 3: its creation begins, and it is put in the map.
abbrev with_third : Terminals.Service
unfolding begin_create insert_entry
with_third =
    elim (insert_entry plan host 8 4000 (begin_create 1 session input host 3000 two_tabs).0) [
      | Terminals.Result.ok t ↦ t
      | Terminals.Result.err e ↦ two_tabs
    ]

abbrev after_creation : System
after_creation = record { service = with_third; checking = []; spawning = (8, plan) ∷ [] }

creation : SystemReach no_screen host project_of before_creation after_creation
unfolding begin_create insert_entry check_limits reusable working_directory trim trim_start is_space
creation =
    System.next
      (System.next System.here (System.begins 1 3000 session input plan refl refl refl refl))
      (System.inserts 8 4000 plan [] [] refl refl refl refl refl)

before_creation-IsWithin : IsWithin no_screen host project_of 3 before_creation
before_creation-IsWithin = record { loaded = omega arith; placed = tt }

session_bounded_example : count (in_session 3) with_third.entries ≤ session_limit
session_bounded_example =
    session_bounded no_screen host project_of 3 creation before_creation-IsWithin

-- Terminal 5 prints two bytes, which are then written on its screen.
abbrev printing : Terminals.Entry
printing = output 5 (text "hi") (tab 5 2)

abbrev printed : Terminals.Service
printed =
    Terminals.change 5 (output 5 (text "hi")) (output_effects 5 (text "hi") (tab 5 2)) two_tabs

abbrev written : Terminals.Service
written = run_tail no_screen printing.output_tail printing printed

prints_and_writes : Reach no_screen two_tabs written
unfolding output
prints_and_writes =
    next (next here (prints 5 (text "hi") (tab 5 2) refl refl)) (runs 5 printing refl refl)

Reach-AllCounted_example : AllCounted written
Reach-AllCounted_example = Reach-AllCounted no_screen prints_and_writes (refl, (refl, tt))
