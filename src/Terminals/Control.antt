-- ===== src/Terminals/Control.antt =====
-- apps/api/src/modules/terminals/terminals.service.ts: the connections and the one in control, step by step.
use agent_waypoint.Common.{
  subst, find?-All, All, All-filter, filter, not, Bool-cases, inl, inr, ℕ, ◌≡◌, refl, Bool, true,
  false, List, [], ◌∷◌, some, arith, find?, update_first, All-update_first_each,
}
use agent_waypoint.Common.Text.{Text}
use agent_waypoint.Common.Json.{ℤ}
use agent_waypoint.Terminals.{
  TerminalState, CloseReason, Closing, Entry, Task, Message, broadcast, ScreenCall, Service, has_id,
  Effect, dispose, change_state, set_state,
}
use agent_waypoint.Terminals.Attach.{
  attach_entry, detach_entry, detach_effects, output, output_effects, task_effects,
}
use agent_waypoint.Terminals.Close.{
  process_closed, finish_entry, run_tail, process_exits, is_final, sweeps,
}
use agent_waypoint.Terminals.Step.{
  Step, attaches, detaches, types, resizes, controls, renames, prints, runs, closes, exits, kills,
  finishes, sweeps_one, shuts_down, shuts_end, discards, shutdown_rule, shutdown_end_rule,
  discard_rule, attach_rule, detach_rule, resize_rule, take_control_rule, rename_rule, input_rule,
  close_rule, find?-self, finish_close_rule, process_exits_rule, sweep_entry_rule, sweeps-eq-true,
}
use agent_waypoint.Terminals.Peers.{
  IsSound, AllSound, attach_entry-IsSound, detach_entry-IsSound, control-IsSound,
  finish_entry-IsSound, run_task-IsSound, change-AllSound, change_state-AllSound, dispose-AllSound,
  close_by-AllSound,
}

process_closed-IsSound :
    (done : Bool) (e : Entry)
    → e.closing_promise ≡ Closing.killing
    → IsSound e
    → IsSound (process_closed done e)
unfolding process_closed
process_closed-IsSound true e k v = ground arith
process_closed-IsSound false e k v = ground arith

find?-update_first_self :
    (f : Entry → Entry) (id : ℕ) (es : List Entry) {e : Entry}
    → ((x : Entry) → (f x).meta.id ≡ x.meta.id)
    → find? (has_id id) es ≡ some e
    → find? (has_id id) (update_first (has_id id) f es) ≡ some (f e)
find?-update_first_self f id [] keep h = cc
find?-update_first_self f id (x ∷ es) {e} keep h =
    ground (arith, keep x, find?-update_first_self f id es {e = e} keep)

output-IsSound : (id : ℕ) (chunk : Text) (e : Entry) → IsSound e → IsSound (output id chunk e)
unfolding output
output-IsSound id chunk e v = ground arith

run_tail-AllSound :
    (serialize : List ScreenCall → Text) (ts : List Task) (e : Entry) (s : Service)
    → find? (has_id e.meta.id) s.entries ≡ some e
    → AllSound s
    → AllSound (run_tail serialize ts e s)
unfolding run_tail
run_tail-AllSound serialize [] e s found v = v
run_tail-AllSound serialize (t ∷ ts) e s found v =
    change-AllSound e.meta.id _ (task_effects serialize t e) s found
      (run_task-IsSound serialize t ts e) v

running-spawned :
    (e : Entry) (s : Service)
    → find? (has_id e.meta.id) s.entries ≡ some e
    → AllSound s
    → e.meta.state ≡ TerminalState.running
    → e.spawned ≡ false
    → ⊥
running-spawned e s found v running without =
    let sound = (find?-All IsSound (has_id e.meta.id) s.entries found v).0 in ground arith

process_exits-AllSound :
    (code : ℤ) (e : Entry) (s : Service)
    → find? (has_id e.meta.id) s.entries ≡ some e
    → AllSound s
    → AllSound (process_exits code e s)
process_exits-AllSound code e s found v =
    let note = λ (x : Entry). record x { meta = record x.meta { exit_code = some code } } in
    let noted = change-AllSound e.meta.id note [] s found (λ h. ground arith) v in
    process_exits_rule AllSound code e s (
      noted,
      λ r.
          close_by-AllSound CloseReason.process_exit (note e) _
            (find?-update_first_self note e.meta.id s.entries (λ x. refl) found)
            (λ without. absurd (running-spawned e s found v r without)) noted,
    )

-- A close that ends with a disposal leaves nothing of its terminal, whatever it became meanwhile.
finish_dispose-AllSound :
    (e : Entry) (es : List Effect) (s : Service)
    → AllSound s
    → AllSound (
        dispose
          (record e { peers = [] })
          (change_state e.meta.id TerminalState.exited finish_entry es s))
unfolding dispose change_state finish_entry
finish_dispose-AllSound e es s v = each s.entries v
  where
    f : Entry → Entry
    f x = set_state TerminalState.exited (finish_entry x)

    each :
        (xs : List Entry)
        → All IsSound xs
        → All IsSound
            (filter (λ x. not (has_id e.meta.id x)) (update_first (has_id e.meta.id) f xs))
    each [] h = tt
    each (x ∷ xs) h = elim (Bool-cases (has_id e.meta.id x)) [
      | inl own ↦ rw (own, own) (All-filter IsSound (λ y. not (has_id e.meta.id y)) xs h.1)
      | inr other ↦ rw (other, other) (h.0, each xs h.1)
    ]

sweeps-spawned : (now : ℕ) (e : Entry) → IsSound e → sweeps now e ≡ true → e.spawned ≡ false → ⊥
sweeps-spawned now e v due without = elim (sweeps-eq-true now e due) [
  | inl running ↦ ground arith
  | inr late ↦ ground arith
]

module _ (serialize : List ScreenCall → Text) where
  pub Step-AllSound : {s t : Service} → Step serialize s t → AllSound s → AllSound t
  Step-AllSound {s} (attaches u id p h) v = attach_rule AllSound u id p s h λ e found a room.
      change-AllSound id (attach_entry p) [] s found (attach_entry-IsSound p e a room) v
  Step-AllSound {s} (detaches u id p now date h) v = rw h (
      detach_rule AllSound u id p s now date v λ e found there.
        change-AllSound id (detach_entry p now date) (detach_effects p e) s found
          (detach_entry-IsSound p now date e) v)
  Step-AllSound {s} (types u id p keys h) v = input_rule AllSound u id p s keys h v
  Step-AllSound {s} (resizes u id p cols rows h) v =
      resize_rule AllSound u id p s cols rows h v
        (All-update_first_each IsSound (has_id id) _ s.entries (λ x k. ground arith) v)
  Step-AllSound {s} (controls u id p h) v =
      take_control_rule AllSound u id p s h v λ e found r there.
        change-AllSound id (λ x. record x { writer = some p })
          (broadcast id e.peers (Message.control_changed (some p))) s found
          (control-IsSound p e r there) v
  Step-AllSound {s} (renames u id title m h) v =
      rename_rule AllSound u id 0 s title h
        (All-update_first_each IsSound (has_id id) _ s.entries (λ x k. ground arith) v)
  Step-AllSound {s} (prints id chunk e found h) v = rw h (
      change-AllSound id (output id chunk) (output_effects id chunk e) s found
        (output-IsSound id chunk e) v)
  Step-AllSound {s} (runs id e found h) v =
      rw h (run_tail-AllSound serialize e.output_tail e s (find?-self id s.entries found) v)
  Step-AllSound {s} (closes u id reason e found final h) v =
      close_rule AllSound reason s u id h λ x found'.
        let same : e ≡ x = cc in
        close_by-AllSound reason x s (find?-self id s.entries found')
          (subst (λ y. y.spawned ≡ false → is_final reason ≡ true) same final) v
  Step-AllSound {s} (exits id code e found h) v =
      rw h (process_exits-AllSound code e s (find?-self id s.entries found) v)
  Step-AllSound {s} (kills id done e found k h) v =
      rw h (change-AllSound id (process_closed done) [] s found (process_closed-IsSound done e k) v)
  Step-AllSound {s} (finishes id e found d h) v = rw h (
      finish_close_rule AllSound e s
        (λ kept es.
          change_state-AllSound e.meta.id TerminalState.exited finish_entry es s
            (find?-self id s.entries found) (finish_entry-IsSound e d kept) v)
        λ gone es. finish_dispose-AllSound e es s v)
  Step-AllSound {s} (sweeps_one id now e found h) v =
      let sound = (find?-All IsSound (has_id id) s.entries found v).0 in
      rw h (
        sweep_entry_rule AllSound now e s v λ due.
          close_by-AllSound CloseReason.unattached_timeout e s (find?-self id s.entries found)
            (λ without. absurd (sweeps-spawned now e sound due without)) v)
  Step-AllSound {s} (shuts_down h) v = rw h (
      shutdown_rule AllSound s
        (λ u id s t k w. close_rule AllSound CloseReason.api_shutdown s u id k λ x found.
          close_by-AllSound CloseReason.api_shutdown x s (find?-self id s.entries found) (λ _. refl)
            w)
        v v)
  Step-AllSound {s} (shuts_end st h) v = rw h (shutdown_end_rule AllSound dispose-AllSound s v)
  Step-AllSound {s} (discards project session h) v =
      rw h (discard_rule AllSound dispose-AllSound (λ id s missing w. w) project session s v)
