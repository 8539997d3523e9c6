-- ===== src/Terminals/Flow.antt =====
-- apps/api/src/modules/terminals/terminals.service.ts: `pendingBytes`, by which a process is paused and resumed.
use agent_waypoint.Common.{
  ℕ, ◌+◌, ◌≡◌, refl, Bool, true, false, not, List, [], ◌∷◌, ◌++◌, some, arith, inl, inr, find?, All,
  All-filter, All-update_first, All-update_first_each, find?-All, Bool-cases, ◌||◌, ap, ◌∙◌,
}
use agent_waypoint.Common.Text.{Text}
use agent_waypoint.Timeline.Summary.{byte_length}
use agent_waypoint.Terminals.{
  TerminalState, CloseReason, Entry, Task, Message, broadcast, ScreenCall, Effect, Service, has_id,
  change, change_state, dispose, set_state, state_eq,
}
use agent_waypoint.Terminals.Attach.{
  attach_entry, detach_entry, detach_effects, output, output_effects, run_task, is_writer,
}
use agent_waypoint.Terminals.Close.{
  close_by, process_closed, finish_entry, run_tail, mark_closing, one_less,
}
use agent_waypoint.Terminals.Step.{
  Step, Reach, here, next, attaches, detaches, types, resizes, controls, renames, prints, runs,
  closes, exits, kills, finishes, sweeps_one, shuts_down, shuts_end, discards, shutdown_rule,
  shutdown_end_rule, discard_rule, attach_rule, detach_rule, resize_rule, take_control_rule,
  rename_rule, input_rule, close_rule, close_by_rule, find?-self, finish_close_rule,
  process_exits_rule, sweep_entry_rule,
}

-- The bytes that wait to be written on the screen.
abbrev pub tail_bytes : List Task → ℕ
tail_bytes [] = 0
tail_bytes (Task.write_output chunk ∷ ts) = byte_length chunk + tail_bytes ts
tail_bytes (Task.send_snapshot peer ∷ ts) = tail_bytes ts
tail_bytes (Task.apply_resize peer cols rows ∷ ts) = tail_bytes ts

abbrev pub IsCounted : Entry → Type 0
IsCounted e = e.pending_bytes ≡ tail_bytes e.output_tail

abbrev pub AllCounted : Service → Type 0
AllCounted s = All IsCounted s.entries

tail_bytes-append : (ts us : List Task) → tail_bytes (ts ++ us) ≡ tail_bytes ts + tail_bytes us
tail_bytes-append [] us = omega arith
tail_bytes-append (Task.write_output chunk ∷ ts) us = omega (arith, tail_bytes-append ts us)
tail_bytes-append (Task.send_snapshot peer ∷ ts) us = tail_bytes-append ts us
tail_bytes-append (Task.apply_resize peer cols rows ∷ ts) us = tail_bytes-append ts us

change-AllCounted :
    (id : ℕ) (f : Entry → Entry) (es : List Effect) (s : Service)
    → ((e : Entry) → IsCounted e → IsCounted (f e))
    → AllCounted s
    → AllCounted (change id f es s)
change-AllCounted id f es s keep v = All-update_first_each IsCounted (has_id id) f s.entries keep v

change_state-AllCounted :
    (id : ℕ) (st : TerminalState) (f : Entry → Entry) (es : List Effect) (s : Service)
    → ((e : Entry) → IsCounted e → IsCounted (f e))
    → AllCounted s
    → AllCounted (change_state id st f es s)
unfolding change_state
change_state-AllCounted id st f es s keep v =
    All-update_first_each IsCounted (has_id id) (λ x. set_state st (f x)) s.entries keep v

dispose-AllCounted : (e : Entry) (s : Service) → AllCounted s → AllCounted (dispose e s)
unfolding dispose
dispose-AllCounted e s v = All-filter IsCounted (λ x. not (has_id e.meta.id x)) s.entries v

close_by-AllCounted :
    (reason : CloseReason) (e : Entry) (s : Service)
    → AllCounted s
    → AllCounted (close_by e.closing_promise reason e s)
close_by-AllCounted reason e s v =
    close_by_rule AllCounted reason s e.closing_promise e v (dispose-AllCounted e s v)
      (change-AllCounted e.meta.id (λ x. record x { user_waits = true }) [] s (λ x h. h) v)
      λ es o ne.
        change_state-AllCounted e.meta.id TerminalState.closing (mark_closing reason) es s
          (λ x h. h) v

attach_entry-IsCounted : (peer : ℕ) (e : Entry) → IsCounted e → IsCounted (attach_entry peer e)
unfolding attach_entry
attach_entry-IsCounted peer e v = elim (Bool-cases (state_eq e.meta.state TerminalState.running)) [
  | inl running ↦
      rw running (omega (arith, tail_bytes-append e.output_tail (Task.send_snapshot peer ∷ [])))
  | inr other ↦
      rw other (omega (arith, tail_bytes-append e.output_tail (Task.send_snapshot peer ∷ [])))
]

detach_entry-IsCounted :
    (peer now date : ℕ) (e : Entry) → IsCounted e → IsCounted (detach_entry peer now date e)
unfolding detach_entry
detach_entry-IsCounted peer now date e v = ground arith

output-IsCounted : (id : ℕ) (chunk : Text) (e : Entry) → IsCounted e → IsCounted (output id chunk e)
unfolding output
output-IsCounted id chunk e v =
    omega (arith, tail_bytes-append e.output_tail (Task.write_output chunk ∷ []))

process_closed-IsCounted :
    (done : Bool) (e : Entry) → IsCounted e → IsCounted (process_closed done e)
unfolding process_closed
process_closed-IsCounted true e v = v
process_closed-IsCounted false e v = v

finish_entry-IsCounted : (e : Entry) → IsCounted e → IsCounted (finish_entry e)
unfolding finish_entry
finish_entry-IsCounted e v = v

-- The task at the head runs, and is no longer in the tail.
run_task-IsCounted :
    (serialize : List ScreenCall → Text) (t : Task) (ts : List Task) (e : Entry)
    → e.output_tail ≡ t ∷ ts
    → IsCounted e
    → IsCounted (
        run_task serialize t
          (record e { output_tail = ts; closing_promise = one_less e.closing_promise }))
unfolding run_task
run_task-IsCounted serialize (Task.write_output chunk) ts e tail v =
    let counted : tail_bytes e.output_tail ≡ byte_length chunk + tail_bytes ts =
      ap tail_bytes tail in
    omega arith
run_task-IsCounted serialize (Task.send_snapshot peer) ts e tail v = v ∙ ap tail_bytes tail
run_task-IsCounted serialize (Task.apply_resize peer cols rows) ts e tail v =
    elim (Bool-cases
      (not (state_eq e.meta.state TerminalState.running) || not (is_writer peer e))) [
        | inl skipped ↦ rw skipped (v ∙ ap tail_bytes tail)
        | inr done ↦ rw done (v ∙ ap tail_bytes tail)
      ]

run_tail-AllCounted :
    (serialize : List ScreenCall → Text) (ts : List Task) (e : Entry) (s : Service)
    → e.output_tail ≡ ts
    → find? (has_id e.meta.id) s.entries ≡ some e
    → AllCounted s
    → AllCounted (run_tail serialize ts e s)
unfolding run_tail
run_tail-AllCounted serialize [] e s tail found v = v
run_tail-AllCounted serialize (t ∷ ts) e s tail found v =
    All-update_first IsCounted (has_id e.meta.id) _ s.entries found
      (run_task-IsCounted serialize t ts e tail
        (find?-All IsCounted (has_id e.meta.id) s.entries found v).0)
      v

module _ (serialize : List ScreenCall → Text) where
  Step-AllCounted : {s t : Service} → Step serialize s t → AllCounted s → AllCounted t
  Step-AllCounted {s} (attaches u id p h) v =
      attach_rule AllCounted u id p s h
        λ e found a room. change-AllCounted id (attach_entry p) [] s (attach_entry-IsCounted p) v
  Step-AllCounted {s} (detaches u id p now date h) v = rw h (
      detach_rule AllCounted u id p s now date v λ e found there.
        change-AllCounted id (detach_entry p now date) (detach_effects p e) s
          (detach_entry-IsCounted p now date) v)
  Step-AllCounted {s} (types u id p keys h) v = input_rule AllCounted u id p s keys h v
  Step-AllCounted {s} (resizes u id p cols rows h) v =
      resize_rule AllCounted u id p s cols rows h v (
        All-update_first_each IsCounted (has_id id) _ s.entries
          (λ x k.
            omega (arith, tail_bytes-append x.output_tail (Task.apply_resize p cols rows ∷ [])))
          v)
  Step-AllCounted {s} (controls u id p h) v =
      take_control_rule AllCounted u id p s h v λ e found r there.
        change-AllCounted id (λ x. record x { writer = some p })
          (broadcast id e.peers (Message.control_changed (some p))) s (λ x k. k) v
  Step-AllCounted {s} (renames u id title m h) v =
      rename_rule AllCounted u id 0 s title h
        (All-update_first_each IsCounted (has_id id) _ s.entries (λ x k. k) v)
  Step-AllCounted {s} (prints id chunk e found h) v = rw h (
      change-AllCounted id (output id chunk) (output_effects id chunk e) s
        (output-IsCounted id chunk) v)
  Step-AllCounted {s} (runs id e found h) v =
      rw h (run_tail-AllCounted serialize e.output_tail e s refl (find?-self id s.entries found) v)
  Step-AllCounted {s} (closes u id reason e found ns h) v =
      close_rule AllCounted reason s u id h λ x found'. close_by-AllCounted reason x s v
  Step-AllCounted {s} (exits id code e found h) v =
      let note = λ (x : Entry). record x { meta = record x.meta { exit_code = some code } } in
      let noted = change-AllCounted e.meta.id note [] s (λ x k. k) v in
      rw h (
        process_exits_rule AllCounted code e s
          (noted, λ r. close_by-AllCounted CloseReason.process_exit (note e) _ noted))
  Step-AllCounted {s} (kills id done e found k h) v =
      rw h (change-AllCounted id (process_closed done) [] s (process_closed-IsCounted done) v)
  Step-AllCounted {s} (finishes id e found d h) v = rw h (
      finish_close_rule AllCounted e s
        (λ _ es.
          change_state-AllCounted e.meta.id TerminalState.exited finish_entry es s
            finish_entry-IsCounted v)
        (λ _ es. dispose-AllCounted _ _ (
          change_state-AllCounted e.meta.id TerminalState.exited finish_entry es s
            finish_entry-IsCounted v)))
  Step-AllCounted {s} (sweeps_one id now e found h) v = rw h (
      sweep_entry_rule AllCounted now e s v
        λ due. close_by-AllCounted CloseReason.unattached_timeout e s v)
  Step-AllCounted {s} (shuts_down h) v = rw h (
      shutdown_rule AllCounted s
        (λ u id s t k w.
          close_rule AllCounted CloseReason.api_shutdown s u id k
            λ x found. close_by-AllCounted CloseReason.api_shutdown x s w)
        v v)
  Step-AllCounted {s} (shuts_end st h) v =
      rw h (shutdown_end_rule AllCounted dispose-AllCounted s v)
  Step-AllCounted {s} (discards project session h) v =
      rw h (discard_rule AllCounted dispose-AllCounted (λ id s missing w. w) project session s v)

  -- Whatever steps are taken, in whatever order: where each terminal counts as pending the bytes of the output that
  -- waits to be written on its screen, it does so afterwards.
  pub Reach-AllCounted : {s t : Service} → Reach serialize s t → AllCounted s → AllCounted t
  Reach-AllCounted here v = v
  Reach-AllCounted (next r st) v = Step-AllCounted st (Reach-AllCounted r v)
