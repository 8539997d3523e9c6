-- ===== src/Terminals/Peers.antt =====
-- apps/api/src/modules/terminals/terminals.service.ts: the connections of a terminal, the one in control, and the clock of the unattended.
use agent_waypoint.Common.{
  ℕ, zero, suc, ◌≤◌, ◌<◌, ◌≡◌, ◌≢◌, refl, ◌⊎◌, Bool, true, false, not, ◌||◌, List, [], ◌∷◌, Option,
  none, some, arith, length, All, find?, ◌==◌, All-update_first, find?-All, All-filter, get_or,
}
use agent_waypoint.Common.Text.{Text}
use agent_waypoint.Terminals.{
  TerminalState, CloseReason, Closing, Peer, Entry, ScreenCall, Task, Service, Effect, has_id,
  has_peer, drop_peer, set_peer, set_state, change, change_state, dispose,
}
use agent_waypoint.Terminals.Attach.{
  attach_entry, detach_entry, is_attachable, is_empty, max_peers, make_live, run_task,
}
use agent_waypoint.Terminals.Step.{close_by_rule}
use agent_waypoint.Terminals.Close.{
  close_by, mark_closing, finish_entry, one_less, is_final, disposes_after,
}

-- The one in control is connected, to a running terminal.
abbrev pub Controls : Option ℕ → TerminalState → List Peer → Type 0
Controls none st ps = Unit
Controls (some w) st ps = (st ≡ TerminalState.running) × (has_peer w ps ≡ true)

-- The clock runs only while nobody is connected.
abbrev pub IsUnattended : Option ℕ → TerminalState → List Peer → Type 0
IsUnattended none st ps = (st ≡ TerminalState.running) → is_empty ps ≡ false
IsUnattended (some since) st ps =
    (is_empty ps ≡ true) × ((st ≡ TerminalState.running) ⊎ (st ≡ TerminalState.closing))

-- A close under way belongs to a closing terminal, or to one whose process has started since, which is then disposed
-- of; a finished one belongs to an exited terminal.
abbrev pub IsPromised : Closing → TerminalState → Bool → Type 0
IsPromised Closing.open_still st gone = Unit
IsPromised Closing.settled st gone = st ≡ TerminalState.exited
IsPromised _ st gone = (st ≡ TerminalState.closing) ⊎ ((st ≡ TerminalState.running) × (gone ≡ true))

-- The user or the shutdown has closed it.
abbrev pub is_ended : Option CloseReason → Bool
is_ended none = false
is_ended (some reason) = is_final reason

-- A terminal without a process is starting, or closed for good meanwhile.
abbrev pub IsUnspawned : Entry → Type 0
IsUnspawned e =
    (is_empty e.peers ≡ true)
    × (((e.meta.state ≡ TerminalState.starting) × (e.closing_promise ≡ Closing.open_still))
        ⊎ ((e.meta.state ≡ TerminalState.closing) × (is_ended e.meta.close_reason ≡ true)))

pub record IsSound (e : Entry) : Type 0 where
  pub bounded : length e.peers ≤ max_peers
  pub controlled : Controls e.writer e.meta.state e.peers
  pub unattended : IsUnattended e.unattached_since_mono e.meta.state e.peers
  pub promised : IsPromised e.closing_promise e.meta.state (disposes_after e)
  pub unspawned : e.spawned ≡ false → IsUnspawned e
  pub unstarted : e.meta.state ≡ TerminalState.starting → e.spawned ≡ false

length-set_peer : (p : Peer) (ps : List Peer) → length (set_peer p ps) ≤ suc (length ps)
length-set_peer p [] = omega arith
length-set_peer p (q ∷ ps) = ground (arith, length-set_peer p ps)

has_peer-set_peer :
    (w : ℕ) (p : Peer) (ps : List Peer) → has_peer w (set_peer p ps) ≡ (p.id == w || has_peer w ps)
has_peer-set_peer w p [] = ground arith
has_peer-set_peer w p (q ∷ ps) = ground (arith, has_peer-set_peer w p ps)

has_peer-drop_peer :
    (w p : ℕ) (ps : List Peer) → p ≢ w → has_peer w (drop_peer p ps) ≡ has_peer w ps
has_peer-drop_peer w p [] h = refl
has_peer-drop_peer w p (q ∷ ps) h = ground (arith, has_peer-drop_peer w p ps h)

length-drop_peer : (p : ℕ) (ps : List Peer) → length (drop_peer p ps) ≤ length ps
length-drop_peer p [] = omega arith
length-drop_peer p (q ∷ ps) = ground (arith, length-drop_peer p ps)

length-make_live : (p : ℕ) (ps : List Peer) → length (make_live p ps) ≡ length ps
length-make_live p [] = refl
length-make_live p (q ∷ ps) = omega (arith, length-make_live p ps)

has_peer-make_live : (w p : ℕ) (ps : List Peer) → has_peer w (make_live p ps) ≡ has_peer w ps
has_peer-make_live w p [] = refl
has_peer-make_live w p (q ∷ ps) = ground (arith, has_peer-make_live w p ps)

is_empty-set_peer : (p : Peer) (ps : List Peer) → is_empty (set_peer p ps) ≡ false
is_empty-set_peer p [] = refl
is_empty-set_peer p (q ∷ ps) = ground arith

is_empty-make_live : (p : ℕ) (ps : List Peer) → is_empty (make_live p ps) ≡ is_empty ps
is_empty-make_live p [] = refl
is_empty-make_live p (q ∷ ps) = refl

pub attach_entry-IsSound :
    (p : ℕ) (e : Entry)
    → is_attachable e.meta.state ≡ true
    → length e.peers < max_peers
    → IsSound e
    → IsSound (attach_entry p e)
unfolding attach_entry
attach_entry-IsSound p e a room v = ground (
  arith,
  length-set_peer (record { id = p; live = false }) e.peers,
  is_empty-set_peer (record { id = p; live = false }) e.peers,
  has_peer-set_peer p (record { id = p; live = false }) e.peers,
  has_peer-set_peer (get_or e.writer 0) (record { id = p; live = false }) e.peers,
)

pub detach_entry-IsSound :
    (p now date : ℕ) (e : Entry) → IsSound e → IsSound (detach_entry p now date e)
unfolding detach_entry
detach_entry-IsSound p now date e v =
    ground (arith, length-drop_peer p e.peers, has_peer-drop_peer (get_or e.writer 0) p e.peers)

pub control-IsSound :
    (p : ℕ) (e : Entry)
    → e.meta.state ≡ TerminalState.running
    → has_peer p e.peers ≡ true
    → IsSound e
    → IsSound (record e { writer = some p })
control-IsSound p e r h v = ground arith

mark_closing-IsSound :
    (reason : CloseReason) (e : Entry)
    → e.meta.state ≢ TerminalState.exited
    → (e.spawned ≡ false → is_final reason ≡ true)
    → IsSound e
    → IsSound (set_state TerminalState.closing (mark_closing reason e))
mark_closing-IsSound reason e ne final v = ground arith

pub finish_entry-IsSound :
    (e : Entry)
    → e.closing_promise ≡ Closing.draining 0
    → disposes_after e ≡ false
    → IsSound e
    → IsSound (set_state TerminalState.exited (finish_entry e))
unfolding finish_entry
finish_entry-IsSound e d kept v = ground arith

IsPromised-one_less :
    (c : Closing) (st : TerminalState) (gone : Bool)
    → IsPromised c st gone
    → IsPromised (one_less c) st gone
IsPromised-one_less Closing.open_still st gone h = h
IsPromised-one_less Closing.settled st gone h = h
IsPromised-one_less Closing.killing st gone h = h
IsPromised-one_less (Closing.draining zero) st gone h = h
IsPromised-one_less (Closing.draining (suc n)) st gone h = h

pub run_task-IsSound :
    (serialize : List ScreenCall → Text) (t : Task) (ts : List Task) (e : Entry)
    → IsSound e
    → IsSound (
        run_task serialize t
          (record e { output_tail = ts; closing_promise = one_less e.closing_promise }))
unfolding run_task
run_task-IsSound serialize (Task.write_output chunk) ts e v =
    ground (arith, IsPromised-one_less e.closing_promise e.meta.state (disposes_after e))
run_task-IsSound serialize (Task.send_snapshot p) ts e v = ground (
  arith,
  IsPromised-one_less e.closing_promise e.meta.state (disposes_after e),
  length-make_live p e.peers,
  is_empty-make_live p e.peers,
  has_peer-make_live (get_or e.writer 0) p e.peers,
)
run_task-IsSound serialize (Task.apply_resize p cols rows) ts e v =
    ground (arith, IsPromised-one_less e.closing_promise e.meta.state (disposes_after e))

-- Every terminal of the service is sound.
abbrev pub AllSound : Service → Type 0
AllSound s = All IsSound s.entries

pub change-AllSound :
    (id : ℕ) (f : Entry → Entry) (es : List Effect) (s : Service) {e : Entry}
    → find? (has_id id) s.entries ≡ some e
    → (IsSound e → IsSound (f e))
    → AllSound s
    → AllSound (change id f es s)
change-AllSound id f es s found k v =
    All-update_first IsSound (has_id id) f s.entries found
      (k (find?-All IsSound (has_id id) s.entries found v).0) v

pub change_state-AllSound :
    (id : ℕ) (st : TerminalState) (f : Entry → Entry) (es : List Effect) (s : Service) {e : Entry}
    → find? (has_id id) s.entries ≡ some e
    → (IsSound e → IsSound (set_state st (f e)))
    → AllSound s
    → AllSound (change_state id st f es s)
unfolding change_state
change_state-AllSound id st f es s found k v =
    All-update_first IsSound (has_id id) (λ x. set_state st (f x)) s.entries found
      (k (find?-All IsSound (has_id id) s.entries found v).0) v

pub dispose-AllSound : (e : Entry) (s : Service) → AllSound s → AllSound (dispose e s)
unfolding dispose
dispose-AllSound e s v = All-filter IsSound (λ x. not (has_id e.meta.id x)) s.entries v

pub close_by-AllSound :
    (reason : CloseReason) (e : Entry) (s : Service)
    → find? (has_id e.meta.id) s.entries ≡ some e
    → (e.spawned ≡ false → is_final reason ≡ true)
    → AllSound s
    → AllSound (close_by e.closing_promise reason e s)
close_by-AllSound reason e s found final v =
    close_by_rule AllSound reason s e.closing_promise e v (dispose-AllSound e s v)
      (change-AllSound e.meta.id (λ x. record x { user_waits = true }) [] s found
        (λ h. ground arith) v)
      λ es o ne.
        change_state-AllSound e.meta.id TerminalState.closing (mark_closing reason) es s found
          (mark_closing-IsSound reason e ne final) v
