-- ===== src/Terminals/Mirror.antt =====
-- apps/api/src/modules/terminals/terminals.service.ts and terminal-lifecycle.ts: the map of terminals and that of resources.
use agent_waypoint.Common.{
  ℕ, ◌≡◌, refl, sym, ap, ◌∙◌, not, List, [], ◌∷◌, map, arith, filter, update_first, find?, none,
  inl, inr, ◌++◌, subst, Option-cases,
}
use agent_waypoint.Common.Text.{Text}
use agent_waypoint.Terminals.{
  TerminalState, Entry, Effect, ScreenCall, Service, has_id, resource_has_id, set_state,
  resource_set_state, change, change_state, dispose, ok,
}
use agent_waypoint.Terminals.Create.{
  Input, Session, Host, Plan, begin_create, insert_entry, inserted, new_entry, start_entry,
  spawned_entry, spawn_failed,
}
use agent_waypoint.Terminals.System.{
  System, new_system, SystemStep, SystemReach, serves, begins, answers, inserts, gives_up, starts,
  fails, here, next,
}
use agent_waypoint.Terminals.Step.{Step}
use agent_waypoint.Terminals.Moves.{resource_of, KeepsResource, Step_keeps}

-- The two maps hold the same terminals, in the same order.
abbrev pub IsMirrored : Service → Type 0
IsMirrored s = s.resources ≡ map resource_of s.entries

pub map-update_first :
    (id : ℕ) (f : Entry → Entry) (es : List Entry)
    → KeepsResource f
    → map resource_of (update_first (has_id id) f es) ≡ map resource_of es
map-update_first id f [] k = refl
map-update_first id f (e ∷ es) k = ground (arith, (k e).0, map-update_first id f es k)

map-set_state_of :
    (id : ℕ) (st : TerminalState) (f : Entry → Entry) (es : List Entry)
    → ((e : Entry) → resource_of (f e) ≡ resource_of e)
    → update_first (resource_has_id id) (resource_set_state st) (map resource_of es)
      ≡ map resource_of (update_first (has_id id) (λ e. set_state st (f e)) es)
map-set_state_of id st f [] k = refl
map-set_state_of id st f (e ∷ es) k = ground (arith, k e, map-set_state_of id st f es k)

map-filter :
    (id : ℕ) (es : List Entry)
    → filter (λ r. not (resource_has_id id r)) (map resource_of es)
      ≡ map resource_of (filter (λ e. not (has_id id e)) es)
map-filter id [] = refl
map-filter id (e ∷ es) = ground (arith, map-filter id es)

pub change-IsMirrored :
    (id : ℕ) (f : Entry → Entry) (es : List Effect) (s : Service)
    → KeepsResource f
    → IsMirrored s
    → IsMirrored (change id f es s)
change-IsMirrored id f es s k m = m ∙ sym (map-update_first id f s.entries k)

pub change_state-IsMirrored :
    (id : ℕ) (st : TerminalState) (f : Entry → Entry) (es : List Effect) (s : Service)
    → KeepsResource f
    → IsMirrored s
    → IsMirrored (change_state id st f es s)
unfolding change_state
change_state-IsMirrored id st f es s k m =
    ap (update_first (resource_has_id id) (resource_set_state st)) m
    ∙ map-set_state_of id st f s.entries (λ e. (k e).0)

pub dispose-IsMirrored : (e : Entry) (s : Service) → IsMirrored s → IsMirrored (dispose e s)
unfolding dispose
dispose-IsMirrored e s m =
    ap (filter (λ r. not (resource_has_id e.meta.id r))) m ∙ map-filter e.meta.id s.entries

map-filter_missing :
    (id : ℕ) (es : List Entry)
    → find? (has_id id) es ≡ none
    → filter (λ r. not (resource_has_id id r)) (map resource_of es) ≡ map resource_of es
map-filter_missing id [] h = refl
map-filter_missing id (e ∷ es) h = ground (arith, map-filter_missing id es)

forget-IsMirrored :
    (id : ℕ) (s : Service)
    → find? (has_id id) s.entries ≡ none
    → IsMirrored s
    → IsMirrored (record s { resources = filter (λ r. not (resource_has_id id r)) s.resources })
forget-IsMirrored id s missing m =
    ap (filter (λ r. not (resource_has_id id r))) m ∙ map-filter_missing id s.entries missing

Step-IsMirrored :
    (serialize : List ScreenCall → Text) {s t : Service}
    → Step serialize s t
    → IsMirrored s
    → IsMirrored t
Step-IsMirrored serialize st m =
    Step_keeps IsMirrored change-IsMirrored change_state-IsMirrored dispose-IsMirrored (λ es s h. h)
      (λ s h. h) forget-IsMirrored serialize st m

map-snoc :
    (es : List Entry) (e : Entry)
    → map resource_of (es ++ e ∷ []) ≡ map resource_of es ++ resource_of e ∷ []
map-snoc [] e = refl
map-snoc (x ∷ es) e = ap (◌∷◌ (resource_of x)) (map-snoc es e)

insert_entry-IsMirrored :
    (plan : Plan) (host : Host) (id date : ℕ) (s : Service) {s' : Service}
    → insert_entry plan host id date s ≡ ok s'
    → IsMirrored s
    → IsMirrored s'
unfolding insert_entry new_entry
insert_entry-IsMirrored plan host id date s {s'} made m =
    let same : inserted plan host id date s ≡ s' = ground arith in
    subst IsMirrored same (
      ap (λ rs. rs ++ resource_of (new_entry plan host id date) ∷ []) m
      ∙ sym (map-snoc s.entries (new_entry plan host id date)))

begin_create-IsMirrored :
    (user_id : ℕ) (session : Session) (input : Input) (host : Host) (now : ℕ) (s : Service)
    → IsMirrored s
    → IsMirrored (begin_create user_id session input host now s).0
unfolding begin_create
begin_create-IsMirrored user_id session input host now s m = ground arith

spawned_entry-IsMirrored :
    (plan : Plan) (id now date : ℕ) (s : Service)
    → IsMirrored s
    → IsMirrored (spawned_entry plan id now date s)
unfolding spawned_entry change_state
spawned_entry-IsMirrored plan id now date s m =
    ap (update_first (resource_has_id id) (resource_set_state TerminalState.running)) m
    ∙ map-set_state_of id TerminalState.running (start_entry now date) s.entries (λ e. refl)

spawn_failed-IsMirrored : (id : ℕ) (s : Service) → IsMirrored s → IsMirrored (spawn_failed id s)
unfolding spawn_failed
spawn_failed-IsMirrored id s m = elim (Option-cases (find? (has_id id) s.entries)) [
  | inl missing ↦ rw (missing, spawn_failed) m
  | inr (e, found) ↦ rw (found, spawn_failed) (dispose-IsMirrored e s m)
]

module _ (serialize : List ScreenCall → Text) (host : Host) (project_of : ℕ → ℕ) where
  SystemStep-IsMirrored :
      {a b : System}
      → SystemStep serialize host project_of a b
      → IsMirrored a.service
      → IsMirrored b.service
  SystemStep-IsMirrored (serves st h) m = rw h (Step-IsMirrored serialize st m)
  SystemStep-IsMirrored {a} (begins u now sn input plan pr free made h) m =
      rw h
        (subst (λ x. IsMirrored x.0) made (begin_create-IsMirrored u sn input host now a.service m))
  SystemStep-IsMirrored {a} (answers u now sn input free h) m =
      rw h (begin_create-IsMirrored u sn input host now a.service m)
  SystemStep-IsMirrored {a} (inserts id date plan before after new unused e made h) m =
      rw h (insert_entry-IsMirrored plan host id date a.service made m)
  SystemStep-IsMirrored (gives_up plan before after e h) m = rw h m
  SystemStep-IsMirrored {a} (starts id now date plan before after e h) m =
      rw h (spawned_entry-IsMirrored plan id now date a.service m)
  SystemStep-IsMirrored {a} (fails id plan before after e h) m =
      rw h (spawn_failed-IsMirrored id a.service m)

  -- From the start of the service, over any sequence of creations in their parts, of calls, of what the processes, the
  -- screens and the sweep do, of deletions and of the shutdown: the resources that a deletion looks at are those of
  -- the terminals, with their projects, sessions and states, in the same order.
  pub SystemReach-IsMirrored :
      {b : System} → SystemReach serialize host project_of new_system b → IsMirrored b.service
  SystemReach-IsMirrored here = refl
  SystemReach-IsMirrored (next r st) = SystemStep-IsMirrored st (SystemReach-IsMirrored r)
