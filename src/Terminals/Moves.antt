-- ===== src/Terminals/Moves.antt =====
-- apps/api/src/modules/terminals/terminals.service.ts: what a step can do to the map of terminals: change an entry, with or without its
-- state, dispose of one, or only have effects.
use agent_waypoint.Common.{
  ℕ, ◌≡◌, refl, Bool, true, false, List, [], ◌∷◌, ◌++◌, some, none, arith, find?, filter, not,
}
use agent_waypoint.Common.Text.{Text}
use agent_waypoint.Terminals.{
  TerminalState, CloseReason, Closing, Entry, Task, Message, broadcast, Effect, ScreenCall,
  Resource, Service, has_id, resource_has_id, change, change_state, dispose,
}
use agent_waypoint.Terminals.Attach.{
  attach_entry, detach_entry, detach_effects, output_effects, task_effects, output, run_task,
}
use agent_waypoint.Terminals.Step.{
  Step, attaches, detaches, types, resizes, controls, renames, prints, runs, closes, exits, kills,
  finishes, sweeps_one, shuts_down, shuts_end, discards, shutdown_rule, shutdown_end_rule,
  discard_rule, attach_rule, detach_rule, resize_rule, take_control_rule, rename_rule, input_rule,
  close_rule, close_by_rule, finish_close_rule, process_exits_rule, sweep_entry_rule,
}
use agent_waypoint.Terminals.Close.{close_by, process_closed, finish_entry, run_tail}

abbrev pub resource_of : Entry → Resource
resource_of e = record {
  id = e.meta.id;
  project_id = e.meta.project_id;
  session_id = e.meta.session_id;
  state = e.meta.state;
}

-- A change that leaves alone what a resource shows, and whether there is a process.
abbrev pub KeepsResource : (Entry → Entry) → Type 0
KeepsResource f = (e : Entry) → (resource_of (f e) ≡ resource_of e) × ((f e).spawned ≡ e.spawned)

detach_entry-KeepsResource : (p now date : ℕ) → KeepsResource (detach_entry p now date)
unfolding detach_entry
detach_entry-KeepsResource p now date e = ground arith

attach_entry-KeepsResource : (p : ℕ) → KeepsResource (attach_entry p)
unfolding attach_entry
attach_entry-KeepsResource p e = ground arith

run_task-KeepsResource :
    (serialize : List ScreenCall → Text) (t : Task) (e : Entry)
    → (resource_of (run_task serialize t e) ≡ resource_of e)
      × ((run_task serialize t e).spawned ≡ e.spawned)
unfolding run_task
run_task-KeepsResource serialize (Task.write_output chunk) e = (refl, refl)
run_task-KeepsResource serialize (Task.send_snapshot p) e = (refl, refl)
run_task-KeepsResource serialize (Task.apply_resize p cols rows) e = ground arith

process_closed-KeepsResource : (done : Bool) → KeepsResource (process_closed done)
unfolding process_closed
process_closed-KeepsResource true e = (refl, refl)
process_closed-KeepsResource false e = (refl, refl)

output-KeepsResource : (id : ℕ) (chunk : Text) → KeepsResource (output id chunk)
unfolding output
output-KeepsResource id chunk e = (refl, refl)

finish_entry-KeepsResource : KeepsResource finish_entry
unfolding finish_entry
finish_entry-KeepsResource e = (refl, refl)

module _ {ℓ} (P : Service → Type ℓ)
    (on_change : (id : ℕ) (f : Entry → Entry) (es : List Effect) (s : Service)
      → KeepsResource f
      → P s
      → P (change id f es s))
    (on_change_state : (id : ℕ) (st : TerminalState) (f : Entry → Entry) (es : List Effect)
        (s : Service)
      → KeepsResource f
      → P s
      → P (change_state id st f es s))
    (on_dispose : (e : Entry) (s : Service) → P s → P (dispose e s))
    (on_effects : (es : List Effect) (s : Service)
      → P s
      → P (record s { effects = s.effects ++ es }))
    (on_stop : (s : Service) → P s → P (record s { stopping = true }))
    (on_forget : (id : ℕ) (s : Service)
      → find? (has_id id) s.entries ≡ none
      → P s
      → P (record s { resources = filter (λ x. not (resource_has_id id x)) s.resources })) where
  pub close_by_keeps :
      (c : Closing) (reason : CloseReason) (e : Entry) (s : Service)
      → P s
      → P (close_by c reason e s)
  close_by_keeps c reason e s m =
      close_by_rule P reason s c e m (on_dispose e s m)
        (on_change e.meta.id _ [] s (λ x. (refl, refl)) m)
        (λ es _ _. on_change_state e.meta.id _ _ es s (λ x. (refl, refl)) m)

  run_tail_keeps :
      (serialize : List ScreenCall → Text) (ts : List Task) (e : Entry) (s : Service)
      → P s
      → P (run_tail serialize ts e s)
  unfolding run_tail
  run_tail_keeps serialize [] e s m = m
  run_tail_keeps serialize (t ∷ ts) e s m =
      on_change e.meta.id _ (task_effects serialize t e) s
        (λ x. run_task-KeepsResource serialize t _) m

  module _ (serialize : List ScreenCall → Text) where
    pub Step_keeps : {s t : Service} → Step serialize s t → P s → P t
    Step_keeps {s} (attaches u id p h) m =
        attach_rule P u id p s h
          λ e found a room. on_change id _ [] s (attach_entry-KeepsResource p) m
    Step_keeps {s} (detaches u id p now date h) m = rw h (
        detach_rule P u id p s now date m λ e found there.
          on_change id _ (detach_effects p e) s (detach_entry-KeepsResource p now date) m)
    Step_keeps {s} (types u id p keys h) m = input_rule P u id p s keys h (on_effects _ s m)
    Step_keeps {s} (resizes u id p cols rows h) m =
        resize_rule P u id p s cols rows h m (on_change id _ [] s (λ x. (refl, refl)) m)
    Step_keeps {s} (controls u id p h) m = take_control_rule P u id p s h m λ e found r there.
        on_change id _ (broadcast id e.peers (Message.control_changed (some p))) s
          (λ x. (refl, refl)) m
    Step_keeps {s} (renames u id title x h) m =
        rename_rule P u id 0 s title h (on_change id _ [] s (λ x. (refl, refl)) m)
    Step_keeps {s} (prints id chunk e found h) m =
        rw h (on_change id _ (output_effects id chunk e) s (output-KeepsResource id chunk) m)
    Step_keeps {s} (runs id e found h) m = rw h (run_tail_keeps serialize e.output_tail e s m)
    Step_keeps {s} (closes u id reason e found ns h) m =
        close_rule P reason s u id h λ x found'. close_by_keeps x.closing_promise reason x s m
    Step_keeps {s} (exits id code e found h) m =
        let noted =
          on_change e.meta.id (λ x. record x { meta = record x.meta { exit_code = some code } }) []
            s (λ x. (refl, refl)) m in
        rw h (
          process_exits_rule P code e s
            (noted, λ r. close_by_keeps e.closing_promise CloseReason.process_exit _ _ noted))
    Step_keeps {s} (kills id done e found k h) m =
        rw h (on_change id _ [] s (process_closed-KeepsResource done) m)
    Step_keeps {s} (finishes id e found d h) m = rw h (
        finish_close_rule P e s
          (λ _ es.
            on_change_state e.meta.id TerminalState.exited _ es s finish_entry-KeepsResource m)
          λ _ es.
            on_dispose _ _
              (on_change_state e.meta.id TerminalState.exited _ es s finish_entry-KeepsResource m))
    Step_keeps {s} (sweeps_one id now e found h) m = rw h (
        sweep_entry_rule P now e s m
          λ due. close_by_keeps e.closing_promise CloseReason.unattached_timeout e s m)
    Step_keeps {s} (shuts_down h) m = rw h (
        shutdown_rule P s
          (λ u id s t k v.
            close_rule P CloseReason.api_shutdown s u id k
              λ x found. close_by_keeps x.closing_promise CloseReason.api_shutdown x s v)
          m (on_stop s m))
    Step_keeps {s} (shuts_end st h) m = rw h (shutdown_end_rule P on_dispose s m)
    Step_keeps {s} (discards project session h) m =
        rw h (discard_rule P on_dispose on_forget project session s m)
