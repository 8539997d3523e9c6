-- ===== src/Terminals/Close.antt =====
-- apps/api/src/modules/terminals/terminals.service.ts: the end of a terminal (`close` in its synchronous parts, `sweep`, the process's
-- exit, `onModuleDestroy`), and terminal-lifecycle.ts (`assertDeletable`, `discard`).
use Prim.Native.Nat.{ℕ, suc, ◌-◌, ◌*◌}
use agent_waypoint.Common.{
  Bool, true, false, not, ◌&&◌, ◌||◌, List, [], ◌∷◌, ◌++◌, map, Option, none, some, if◌then◌else◌,
  ◌==◌, leb, length, filter, find?,
}
use agent_waypoint.Common.Text.{Text}
use agent_waypoint.Common.Json.{ℤ}
use agent_waypoint.Terminals.{
  TerminalState, CloseReason, Message, ScreenCall, Task, Closing, Entry, Effect, Resource, Service,
  Fault, Result, ok, err, state_eq, has_id, resource_has_id, broadcast, disconnect_all, get, change,
  change_state, dispose,
}
use agent_waypoint.Terminals.Attach.{run_task, task_effects, is_empty}

abbrev pub is_user : CloseReason → Bool
is_user CloseReason.user = true
is_user _ = false

abbrev pub is_final : CloseReason → Bool
is_final CloseReason.user = true
is_final CloseReason.api_shutdown = true
is_final _ = false

-- The mark that nothing interleaves with: closing, its reason, and nobody in control.
abbrev pub mark_closing : CloseReason → Entry → Entry
mark_closing reason e = record e {
  meta = record e.meta { close_reason = some reason };
  writer = none;
  closing_promise = Closing.killing;
}

-- `close` up to its first wait, by the entry's `closing` promise.
unfoldable pub close_by : Closing → CloseReason → Entry → Service → Service
unfolding change_state dispose broadcast
close_by Closing.settled reason e s = if is_user reason then dispose e s else s
close_by Closing.open_still reason e s =
    if state_eq e.meta.state TerminalState.exited
    then (if is_user reason then dispose e s else s)
    else change_state e.meta.id TerminalState.closing (mark_closing reason)
        (broadcast e.meta.id e.peers (Message.closing_by reason)
          ++ (if e.spawned then Effect.killed e.meta.id ∷ [] else []))
        s
close_by waiting reason e s =
    if is_user reason then change e.meta.id (λ x. record x { user_waits = true }) [] s else s

unfoldable pub close : ℕ → ℕ → CloseReason → Service → Result Service
unfolding get close_by
close user_id id reason s = elim (get user_id id s) [
  | none ↦ err Fault.not_found
  | some e ↦ ok (close_by e.closing_promise reason e s)
]

-- `process.close()` has settled: well, and the tail as it stands is waited for, or with an error, and
-- the terminal can be closed again.
unfoldable pub process_closed : Bool → Entry → Entry
process_closed true e = record e { closing_promise = Closing.draining (length e.output_tail) }
process_closed false e = record e { closing_promise = Closing.open_still; user_waits = false }

-- `close` after its waits.
unfoldable pub finish_entry : Entry → Entry
finish_entry e = record e {
  meta = record e.meta { unattached_since = none };
  unattached_since_mono = none;
  peers = [];
  closing_promise = Closing.settled;
}

abbrev pub disposes_after : Entry → Bool
disposes_after e =
    e.user_waits || elim e.meta.close_reason [ none ↦ false | some reason ↦ is_final reason ]

unfoldable pub finish_close : Entry → Service → Service
unfolding change_state dispose broadcast disconnect_all finish_entry
finish_close e s =
    let exited_meta = record e.meta {
      state = TerminalState.exited;
      unattached_since = none;
      connected_client_count = length e.peers;
    } in
    let done =
      change_state e.meta.id TerminalState.exited finish_entry
        (broadcast e.meta.id e.peers (Message.exit exited_meta) ++ disconnect_all e.meta.id e.peers)
        s in
    if disposes_after e then dispose (record e { peers = [] }) done else done

-- One task of the tail runs; a close that waits for the tail has one less to wait for.
abbrev pub one_less : Closing → Closing
one_less (Closing.draining (suc n)) = Closing.draining n
one_less c = c

module _ (serialize : List ScreenCall → Text) where
  unfoldable pub run_tail : List Task → Entry → Service → Service
  unfolding run_task task_effects
  run_tail [] e s = s
  run_tail (t ∷ ts) e s =
      change e.meta.id
        (λ x.
          run_task serialize t
            (record x { output_tail = ts; closing_promise = one_less x.closing_promise }))
        (task_effects serialize t e) s

abbrev pub unattached_timeout_ms : ℕ
unattached_timeout_ms = 12 * 60 * 60 * 1000

abbrev pub is_open_still : Closing → Bool
is_open_still Closing.open_still = true
is_open_still _ = false

abbrev pub closed_by_timeout : Option CloseReason → Bool
closed_by_timeout (some CloseReason.unattached_timeout) = true
closed_by_timeout _ = false

abbrev pub is_overdue : ℕ → Option ℕ → Bool
is_overdue now none = false
is_overdue now (some since) = leb unattached_timeout_ms (now - since)

-- The test of `sweep` on one entry, `now` being read at it.
unfoldable pub sweeps : ℕ → Entry → Bool
sweeps now e =
    (state_eq e.meta.state TerminalState.closing
      && closed_by_timeout e.meta.close_reason
      && is_open_still e.closing_promise)
    || (state_eq e.meta.state TerminalState.running
        && is_empty e.peers
        && is_overdue now e.unattached_since_mono)

-- One round of the loop of `sweep`.
unfoldable pub sweep_entry : ℕ → Entry → Service → Service
unfolding sweeps close_by
sweep_entry now e s =
    if s.stopping
    then s
    else (if sweeps now e then close_by e.closing_promise CloseReason.unattached_timeout e s else s)

-- `onExit` of the process.
unfoldable pub process_exits : ℤ → Entry → Service → Service
unfolding close_by
process_exits code e s =
    let noted =
      change e.meta.id (λ x. record x { meta = record x.meta { exit_code = some code } }) [] s in
    if state_eq e.meta.state TerminalState.running
    then close_by e.closing_promise CloseReason.process_exit
        (record e { meta = record e.meta { exit_code = some code } }) noted
    else noted

-- `Promise.allSettled`: a close that throws changes nothing.
abbrev pub settled_or : Service → Result Service → Service
settled_or s (ok t) = t
settled_or s (err f) = s

-- `onModuleDestroy`: every terminal is closed, and in the end disposed of.
unfoldable pub close_each : List Entry → Service → Service
unfolding close
close_each [] s = s
close_each (e ∷ es) s =
    close_each es (settled_or s (close e.owner e.meta.id CloseReason.api_shutdown s))

unfoldable pub shutdown : Service → Service
unfolding close_each
shutdown s = if s.stopping then s else close_each s.entries (record s { stopping = true })

unfoldable pub dispose_each : List Entry → Service → Service
unfolding dispose
dispose_each [] s = s
dispose_each (e ∷ es) s = dispose_each es (dispose e s)

unfoldable pub shutdown_end : Service → Service
unfolding dispose_each
shutdown_end s = dispose_each s.entries s

-- terminal-lifecycle.ts. `none` for the session stands for all of the project.
abbrev pub in_scope : ℕ → Option ℕ → Resource → Bool
in_scope project none r = r.project_id == project
in_scope project (some session) r = r.project_id == project && r.session_id == session

abbrev pub is_active : TerminalState → Bool
is_active st =
    state_eq st TerminalState.starting
    || state_eq st TerminalState.running
    || state_eq st TerminalState.closing

unfoldable pub active_ids : ℕ → Option ℕ → List Resource → List ℕ
active_ids project session rs =
    map (λ r. r.id) (filter (λ r. in_scope project session r && is_active r.state) rs)

-- `assertDeletable`: the identifiers that stand in the way, if any.
unfoldable pub assert_deletable : ℕ → Option ℕ → Service → Option (List ℕ)
unfolding active_ids
assert_deletable project session s =
    let ids = active_ids project session s.resources in if is_empty ids then none else some ids

-- `discard`: the resource's `dispose` is the service's, of the entry that it was made for.
unfoldable pub discard_one : Resource → Service → Service
unfolding dispose
discard_one r s =
    let gone : Service = elim (find? (has_id r.id) s.entries) [ none ↦ s | some e ↦ dispose e s ] in
    record gone { resources = filter (λ x. not (resource_has_id r.id x)) gone.resources }

unfoldable pub discard_each : List Resource → ℕ → Option ℕ → Service → Service
unfolding discard_one
discard_each [] project session s = s
discard_each (r ∷ rs) project session s =
    discard_each rs project session (if in_scope project session r then discard_one r s else s)

unfoldable pub discard : ℕ → Option ℕ → Service → Service
unfolding discard_each
discard project session s = discard_each s.resources project session s
