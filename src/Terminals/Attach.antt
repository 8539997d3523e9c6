-- ===== src/Terminals/Attach.antt =====
-- apps/api/src/modules/terminals/terminals.service.ts: connections and what passes over them (`attach`, `detach`, `input`, `resize`,
-- `takeControl`, `rename`, `output`), with the tasks of the output's tail.
use Prim.Native.Nat.{ℕ, suc, ◌+◌, ◌-◌, ◌*◌}
use agent_waypoint.Common.{
  Bool, true, false, not, ◌&&◌, ◌||◌, List, [], ◌∷◌, ◌++◌, none, some, if◌then◌else◌, ◌==◌, ltb,
  leb, length, update_where, or_else,
}
use agent_waypoint.Common.Text.{Text}
use agent_waypoint.Timeline.Summary.{byte_length}
use agent_waypoint.Terminals.{
  TerminalState, Metadata, Message, Peer, ScreenCall, Task, Entry, Effect, Service, Fault, Result,
  ok, err, state_eq, metadata, broadcast, has_peer, drop_peer, set_peer, get, change,
}

abbrev pub max_peers : ℕ
max_peers = 8

abbrev pub is_attachable : TerminalState → Bool
is_attachable st = state_eq st TerminalState.running || state_eq st TerminalState.exited

-- The synchronous part of `attach`, on the entry: the snapshot is queued behind the output before it.
unfoldable pub attach_entry : ℕ → Entry → Entry
attach_entry peer e =
    let joined = record e {
      peers = set_peer (record { id = peer; live = false }) e.peers;
      output_tail = e.output_tail ++ Task.send_snapshot peer ∷ [];
    } in
    if state_eq e.meta.state TerminalState.running
    then record joined {
      unattached_since_mono = none;
      meta = record e.meta { unattached_since = none };
      writer = or_else e.writer (some peer);
    }
    else joined

unfoldable pub attach : ℕ → ℕ → ℕ → Service → Result Service
unfolding get attach_entry
attach user_id id peer s = elim (get user_id id s) [
  | none ↦ err Fault.not_found
  | some e ↦
      if s.stopping || not (is_attachable e.meta.state)
      then err Fault.conflict
      else (if leb max_peers (length e.peers)
          then err Fault.conflict
          else ok (change id (attach_entry peer) [] s))
]

-- `entry.writer === peerId`.
abbrev pub is_writer : ℕ → Entry → Bool
is_writer peer e = elim e.writer [ none ↦ false | some w ↦ w == peer ]

abbrev pub is_empty {ℓ} : {A : Type ℓ} → List A → Bool
is_empty [] = true
is_empty (x ∷ xs) = false

-- `detach` of a peer that is there; `now` and `date` are the clock's.
unfoldable pub detach_entry : ℕ → ℕ → ℕ → Entry → Entry
detach_entry peer now date e =
    let left = record e {
      peers = drop_peer peer e.peers;
      writer = if is_writer peer e then none else e.writer;
    } in
    if is_empty left.peers && state_eq e.meta.state TerminalState.running
    then record left {
      unattached_since_mono = some now;
      meta = record e.meta { unattached_since = some date };
    }
    else left

abbrev pub detach_effects : ℕ → Entry → List Effect
detach_effects peer e =
    if is_writer peer e
    then broadcast e.meta.id (drop_peer peer e.peers) (Message.control_changed none)
    else []

unfoldable pub detach : ℕ → ℕ → ℕ → ℕ → ℕ → Service → Service
unfolding get detach_entry broadcast
detach user_id id peer now date s = elim (get user_id id s) [
  | none ↦ s
  | some e ↦
      if has_peer peer e.peers
      then change id (detach_entry peer now date) (detach_effects peer e) s
      else s
]

-- `input`: only the connection in control writes to the process.
unfoldable pub input : ℕ → ℕ → ℕ → Text → Service → Result Service
unfolding get
input user_id id peer keys s = elim (get user_id id s) [
  | none ↦ err Fault.not_found
  | some e ↦
      if not (state_eq e.meta.state TerminalState.running)
        || not (is_writer peer e)
        || not (has_peer peer e.peers)
      then err Fault.conflict
      else ok (record s { effects = s.effects ++ Effect.typed id keys ∷ [] })
]

-- `resize` queues the change; it is checked again when its turn comes.
unfoldable pub resize : ℕ → ℕ → ℕ → ℕ → ℕ → Service → Result Service
unfolding get
resize user_id id peer cols rows s = elim (get user_id id s) [
  | none ↦ err Fault.not_found
  | some e ↦
      if not (state_eq e.meta.state TerminalState.running) || not (is_writer peer e)
      then ok s
      else ok (
          change id
            (λ x. record x { output_tail = x.output_tail ++ Task.apply_resize peer cols rows ∷ [] })
            [] s)
]

unfoldable pub take_control : ℕ → ℕ → ℕ → Service → Result Service
unfolding get broadcast
take_control user_id id peer s = elim (get user_id id s) [
  | none ↦ err Fault.not_found
  | some e ↦
      if not (state_eq e.meta.state TerminalState.running) || not (has_peer peer e.peers)
      then ok s
      else ok (
          change id (λ x. record x { writer = some peer })
            (broadcast id e.peers (Message.control_changed (some peer))) s)
]

unfoldable pub rename : ℕ → ℕ → Text → Service → Result (Service × Metadata)
unfolding get
rename user_id id title s = elim (get user_id id s) [
  | none ↦ err Fault.not_found
  | some e ↦
      let titled = record e { meta = record e.meta { title = title } } in
      ok
        (change id (λ x. record x { meta = record x.meta { title = title } }) [] s, metadata titled)
]

abbrev pub high_water : ℕ
high_water = 1024 * 1024

abbrev pub low_water : ℕ
low_water = 256 * 1024

-- `output`: what waits is counted in the bytes of UTF-8, until it is on the screen.
unfoldable pub output : ℕ → Text → Entry → Entry
unfolding byte_length
output id chunk e = record e {
  pending_bytes = e.pending_bytes + byte_length chunk;
  output_tail = e.output_tail ++ Task.write_output chunk ∷ [];
}

abbrev pub output_effects : ℕ → Text → Entry → List Effect
output_effects id chunk e =
    if e.spawned && ltb high_water (e.pending_bytes + byte_length chunk)
    then Effect.paused id ∷ []
    else []

abbrev pub make_live : ℕ → List Peer → List Peer
make_live peer = update_where (λ p. p.id == peer) (λ p. record p { live = true })

-- The task at the head of the output's tail; the code runs one at a time. The process, the screen and the
-- peers' `send` do not throw here: the gateway's `send` closes a connection that is behind. `serialize` is the package
-- that prints a screen.
module _ (serialize : List ScreenCall → Text) where
  unfoldable pub run_task : Task → Entry → Entry
  unfolding byte_length
  run_task (Task.write_output chunk) e = record e {
    screen = e.screen ++ ScreenCall.wrote chunk ∷ [];
    pending_bytes = e.pending_bytes - byte_length chunk;
    seq = suc e.seq;
  }
  run_task (Task.send_snapshot peer) e = record e { peers = make_live peer e.peers }
  run_task (Task.apply_resize peer cols rows) e =
      if not (state_eq e.meta.state TerminalState.running) || not (is_writer peer e)
      then e
      else record e {
        screen = e.screen ++ ScreenCall.sized cols rows ∷ [];
        meta = record e.meta { cols = cols; rows = rows };
        seq = suc e.seq;
      }

  unfoldable pub task_effects : Task → Entry → List Effect
  unfolding broadcast byte_length
  task_effects (Task.write_output chunk) e =
      (if e.spawned && ltb (e.pending_bytes - byte_length chunk) low_water
        then Effect.resumed e.meta.id ∷ []
        else [])
      ++ broadcast e.meta.id e.peers (Message.output (suc e.seq) chunk)
  task_effects (Task.send_snapshot peer) e =
      let to = Effect.sent e.meta.id peer in
      if has_peer peer e.peers
      then to (Message.ready (metadata e) e.writer peer)
        ∷ to (Message.snapshot e.seq e.meta.cols e.meta.rows (serialize e.screen))
        ∷ (if state_eq e.meta.state TerminalState.exited
            then to (Message.exit (metadata e)) ∷ []
            else [])
      else []
  task_effects (Task.apply_resize peer cols rows) e =
      if not (state_eq e.meta.state TerminalState.running) || not (is_writer peer e)
      then []
      else Effect.process_resized e.meta.id cols rows
        ∷ broadcast e.meta.id e.peers (Message.resized (suc e.seq) cols rows)
