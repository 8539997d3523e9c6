-- ===== src/Terminals/Step.antt =====
-- One step of the terminals' service: a call, or something that the outside world does. A step takes the
-- entry that it is about from the map, as the code's closures do. A terminal without a process is closed by
-- the user or by the shutdown alone, since `onExit` is not yet heard and `sweep` passes over it.
mod Rules
mod Closings
pub use Rules.*
pub use Closings.*
use agent_waypoint.Common.{
  ℕ, ◌≡◌, ◌≢◌, refl, sym, subst, Bool, true, false, List, [], ◌∷◌, Option, some, arith, inl, inr,
  find?, Bool-cases, Option-cases, ◌++◌, ◌&&◌, length, ◌<◌,
}
use agent_waypoint.Common.Text.{Text}
use agent_waypoint.Common.Json.{ℤ}
use agent_waypoint.Terminals.{
  TerminalState, CloseReason, Metadata, ScreenCall, Closing, Task, has_peer, Entry, Effect, Message,
  Service, ok, err, Fault, has_id, state_eq, get, change, change_state, dispose, broadcast,
}
use agent_waypoint.Terminals.Attach.{
  attach_entry, attach, detach_entry, detach_effects, detach, resize, take_control, rename, input,
  output, output_effects, is_attachable, max_peers,
}
use agent_waypoint.Terminals.Close.{
  close_by, close, process_closed, finish_close, finish_entry, disposes_after, run_tail,
  process_exits, sweep_entry, sweeps, mark_closing, is_final, shutdown, shutdown_end, discard,
}

module _ (serialize : List ScreenCall → Text) where
  pub data Step (s t : Service) : Type 0 where
    attaches : (user_id id peer : ℕ) → attach user_id id peer s ≡ ok t → Step s t
    detaches : (user_id id peer now date : ℕ) → t ≡ detach user_id id peer now date s → Step s t
    types : (user_id id peer : ℕ) (keys : Text) → input user_id id peer keys s ≡ ok t → Step s t
    resizes : (user_id id peer cols rows : ℕ) → resize user_id id peer cols rows s ≡ ok t → Step s t
    controls : (user_id id peer : ℕ) → take_control user_id id peer s ≡ ok t → Step s t
    renames :
        (user_id id : ℕ) (title : Text) (m : Metadata)
        → rename user_id id title s ≡ ok (t, m)
        → Step s t
    prints :
        (id : ℕ) (chunk : Text) (e : Entry)
        → find? (has_id id) s.entries ≡ some e
        → t ≡ change id (output id chunk) (output_effects id chunk e) s
        → Step s t
    runs :
        (id : ℕ) (e : Entry)
        → find? (has_id id) s.entries ≡ some e
        → t ≡ run_tail serialize e.output_tail e s
        → Step s t
    closes :
        (user_id id : ℕ) (reason : CloseReason) (e : Entry)
        → find? (has_id id) s.entries ≡ some e
        → (e.spawned ≡ false → is_final reason ≡ true)
        → close user_id id reason s ≡ ok t
        → Step s t
    exits :
        (id : ℕ) (code : ℤ) (e : Entry)
        → find? (has_id id) s.entries ≡ some e
        → t ≡ process_exits code e s
        → Step s t
    kills :
        (id : ℕ) (done : Bool) (e : Entry)
        → find? (has_id id) s.entries ≡ some e
        → e.closing_promise ≡ Closing.killing
        → t ≡ change id (process_closed done) [] s
        → Step s t
    finishes :
        (id : ℕ) (e : Entry)
        → find? (has_id id) s.entries ≡ some e
        → e.closing_promise ≡ Closing.draining 0
        → t ≡ finish_close e s
        → Step s t
    sweeps_one :
        (id now : ℕ) (e : Entry)
        → find? (has_id id) s.entries ≡ some e
        → t ≡ sweep_entry now e s
        → Step s t
    shuts_down : t ≡ shutdown s → Step s t
    shuts_end : s.stopping ≡ true → t ≡ shutdown_end s → Step s t
    discards : (project : ℕ) (session : Option ℕ) → t ≡ discard project session s → Step s t

  pub data Reach (s : Service) : Service → Type 0 where
    here : Reach s s
    next : {t u : Service} → Reach s t → Step t u → Reach s u
