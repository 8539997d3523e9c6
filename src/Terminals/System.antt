-- ===== src/Terminals/System.antt =====
-- apps/api/src/modules/terminals/terminals.service.ts: the service with its creations under way, and how they interleave. A creation
-- waits for the file system after it has checked the limits, and for the process after it has put the
-- terminal in the map.
use agent_waypoint.Common.{
  ℕ, ◌+◌, ◌≡◌, Bool, true, not, ◌||◌, List, ◌∷◌, ◌++◌, any, count, ◌==◌, find?, none, false, [],
}
use agent_waypoint.Common.Text.{Text}
use agent_waypoint.Terminals.{ScreenCall, Service, ok, has_id}
use agent_waypoint.Terminals.Create.{
  Input, Session, Host, Plan, Begun, in_session, begin_create, insert_entry, spawned_entry,
  spawn_failed,
}
use agent_waypoint.Terminals.Step.{Step}

-- The service with the creations under way: `checking` has passed the limits and waits for the file
-- system, `spawning` is in the map and waits for its process.
pub record System : Type 0 where
  pub service : Service
  pub checking : List Plan
  pub spawning : List (ℕ × Plan)

abbrev pub of_project : ℕ → Plan → Bool
of_project project p = p.session.project_id == project

abbrev pub of_session : ℕ → Plan → Bool
of_session session p = p.session.session_id == session

-- The service when it is made.
abbrev pub new_system : System
new_system = record {
  service = record { entries = []; requests = []; resources = []; stopping = false; effects = [] };
  checking = [];
  spawning = [];
}

-- `withProject`: the lock of the project is free.
abbrev pub is_free : ℕ → System → Bool
is_free project a =
    not (any (of_project project) a.checking || any (λ q. of_project project q.1) a.spawning)

-- The limit of a session counts what is in the map and what is about to be.
abbrev pub load : ℕ → System → ℕ
load session a =
    count (in_session session) a.service.entries + count (of_session session) a.checking

module _ (serialize : List ScreenCall → Text) (host : Host) (project_of : ℕ → ℕ) where
  -- One step of the service with its creations. `begins` waits for the lock of the project; a session's
  -- project is the database's; `inserts` has its identifier from `randomUUID`, which does not give one in use.
  pub data SystemStep (a b : System) : Type 0 where
    serves :
        {t : Service} → Step serialize a.service t → b ≡ record a { service = t } → SystemStep a b
    begins :
        (user_id now : ℕ) (session : Session) (input : Input) (plan : Plan) {s' : Service}
        → session.project_id ≡ project_of session.session_id
        → is_free session.project_id a ≡ true
        → begin_create user_id session input host now a.service ≡ (s', ok (Begun.makes plan))
        → b ≡ record a { service = s'; checking = plan ∷ a.checking }
        → SystemStep a b
    answers :
        (user_id now : ℕ) (session : Session) (input : Input)
        → is_free session.project_id a ≡ true
        → b ≡ record a { service = (begin_create user_id session input host now a.service).0 }
        → SystemStep a b
    inserts :
        (id date : ℕ) (plan : Plan) (before after : List Plan) {s' : Service}
        → find? (has_id id) a.service.entries ≡ none
        → any (λ q. q.0 == id) a.spawning ≡ false
        → a.checking ≡ before ++ plan ∷ after
        → insert_entry plan host id date a.service ≡ ok s'
        → b
          ≡ record { service = s'; checking = before ++ after; spawning = (id, plan) ∷ a.spawning }
        → SystemStep a b
    gives_up :
        (plan : Plan) (before after : List Plan)
        → a.checking ≡ before ++ plan ∷ after
        → b ≡ record a { checking = before ++ after }
        → SystemStep a b
    starts :
        (id now date : ℕ) (plan : Plan) (before after : List (ℕ × Plan))
        → a.spawning ≡ before ++ (id, plan) ∷ after
        → b ≡ record a {
          service = spawned_entry plan id now date a.service;
          spawning = before ++ after;
        }
        → SystemStep a b
    fails :
        (id : ℕ) (plan : Plan) (before after : List (ℕ × Plan))
        → a.spawning ≡ before ++ (id, plan) ∷ after
        → b ≡ record a { service = spawn_failed id a.service; spawning = before ++ after }
        → SystemStep a b

  pub data SystemReach (a : System) : System → Type 0 where
    here : SystemReach a a
    next : {b c : System} → SystemReach a b → SystemStep b c → SystemReach a c
