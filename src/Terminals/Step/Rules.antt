-- ===== src/Terminals/Step/Rules.antt =====
-- apps/api/src/modules/terminals/terminals.service.ts: what a method that succeeded did, as a rule for each.
use agent_waypoint.Common.{
  ℕ, ◌≡◌, ◌≢◌, refl, sym, subst, true, List, [], ◌∷◌, some, arith, inl, inr, find?, Bool-cases,
  Option-cases, false, ◌⊎◌, ◌++◌, ◌&&◌, length, ◌<◌,
}
use agent_waypoint.Common.Text.{Text}
use agent_waypoint.Common.Json.{ℤ}
use agent_waypoint.Terminals.{
  TerminalState, CloseReason, Metadata, Closing, Task, has_peer, Entry, Effect, Message, Service,
  ok, err, Fault, has_id, state_eq, get, change, change_state, dispose, broadcast,
}
use agent_waypoint.Terminals.Attach.{
  attach_entry, attach, detach_entry, detach_effects, detach, resize, take_control, rename, input,
  is_attachable, max_peers,
}
use agent_waypoint.Terminals.Close.{
  close_by, close, finish_close, finish_entry, disposes_after, process_exits, sweep_entry, sweeps,
  mark_closing,
}

-- What a successful call did: `get` found the entry, under its owner.
pub get-eq-some :
    (user_id id : ℕ) (s : Service) {e : Entry}
    → get user_id id s ≡ some e
    → (find? (has_id id) s.entries ≡ some e) × (e.owner ≡ user_id)
unfolding get
get-eq-some user_id id s h = ground arith

-- Each call either leaves the service as it was or makes one change of the entry that it found: what
-- holds in both cases holds after the call.
module _ {ℓ} (P : Service → Type ℓ) (user_id id peer : ℕ) (s : Service) where
  pub attach_rule :
      {t : Service}
      → attach user_id id peer s ≡ ok t
      → ((e : Entry)
          → find? (has_id id) s.entries ≡ some e
          → is_attachable e.meta.state ≡ true
          → length e.peers < max_peers
          → P (change id (attach_entry peer) [] s))
      → P t
  unfolding attach
  attach_rule {t} h k = elim (Option-cases (get user_id id s)) [
    | inl missing ↦ absurd (not_ok (rw (missing, attach) at h))
    | inr (e, found) ↦
        let same : t ≡ change id (attach_entry peer) [] s = ground arith in
        rw same (k e (get-eq-some user_id id s found).0 (ground arith) (ground arith))
  ]
    where
      not_ok : {t : Service} → err Fault.not_found ≡ ok t → ⊥
      not_ok q = cc

  pub detach_rule :
      (now date : ℕ)
      → P s
      → ((e : Entry)
          → find? (has_id id) s.entries ≡ some e
          → has_peer peer e.peers ≡ true
          → P (change id (detach_entry peer now date) (detach_effects peer e) s))
      → P (detach user_id id peer now date s)
  unfolding detach
  detach_rule now date k0 k = elim (Option-cases (get user_id id s)) [
    | inl missing ↦ rw (missing, detach) k0
    | inr (e, found) ↦
        rw (found, detach)
          (elim (Bool-cases (has_peer peer e.peers)) [
            | inl there ↦ rw there (k e (get-eq-some user_id id s found).0 there)
            | inr gone ↦ rw gone k0
          ])
  ]

  pub resize_rule :
      (cols rows : ℕ) {t : Service}
      → resize user_id id peer cols rows s ≡ ok t
      → P s
      → P (
          change id
            (λ x. record x { output_tail = x.output_tail ++ Task.apply_resize peer cols rows ∷ [] })
            []
            s)
      → P t
  unfolding resize
  resize_rule cols rows h k0 k = ground arith

  pub take_control_rule :
      {t : Service}
      → take_control user_id id peer s ≡ ok t
      → P s
      → ((e : Entry)
          → find? (has_id id) s.entries ≡ some e
          → e.meta.state ≡ TerminalState.running
          → has_peer peer e.peers ≡ true
          → P (
              change id
                (λ x. record x { writer = some peer })
                (broadcast id e.peers (Message.control_changed (some peer)))
                s))
      → P t
  unfolding take_control
  take_control_rule {t} h k0 k = elim (Option-cases (get user_id id s)) [
    | inl missing ↦ absurd (not_ok (rw (missing, take_control) at h))
    | inr (e, found) ↦
        elim (Bool-cases (state_eq e.meta.state TerminalState.running && has_peer peer e.peers)) [
          | inl both ↦
              let same : t
                  ≡ change id (λ x. record x { writer = some peer })
                      (broadcast id e.peers (Message.control_changed (some peer))) s =
                ground arith in
              rw same (k e (get-eq-some user_id id s found).0 (ground arith) (ground arith))
          | inr other ↦ let same : t ≡ s = ground arith in rw same k0
        ]
  ]
    where
      not_ok : {t : Service} → err Fault.not_found ≡ ok t → ⊥
      not_ok q = cc

  pub rename_rule :
      (title : Text) {t : Service} {m : Metadata}
      → rename user_id id title s ≡ ok (t, m)
      → P (change id (λ x. record x { meta = record x.meta { title = title } }) [] s)
      → P t
  unfolding rename
  rename_rule title h k = ground arith

  pub input_rule :
      (keys : Text) {t : Service}
      → input user_id id peer keys s ≡ ok t
      → P (record s { effects = s.effects ++ Effect.typed id keys ∷ [] })
      → P t
  unfolding input
  input_rule keys h k = ground arith

-- The marks of a close: a disposal, a wait, or the beginning.
module _ {ℓ} (P : Service → Type ℓ) (reason : CloseReason) (s : Service) where
  pub close_by_rule :
      (c : Closing) (e : Entry)
      → P s
      → P (dispose e s)
      → P (change e.meta.id (λ x. record x { user_waits = true }) [] s)
      → ((es : List Effect)
          → c ≡ Closing.open_still
          → e.meta.state ≢ TerminalState.exited
          → P (change_state e.meta.id TerminalState.closing (mark_closing reason) es s))
      → P (close_by c reason e s)
  unfolding close_by
  close_by_rule Closing.settled e k0 kd kw kc = ground arith
  close_by_rule Closing.killing e k0 kd kw kc = ground arith
  close_by_rule (Closing.draining n) e k0 kd kw kc = ground arith
  close_by_rule Closing.open_still e k0 kd kw kc =
      elim (Bool-cases (state_eq e.meta.state TerminalState.exited)) [
        | inl over ↦ rw over (ground arith)
        | inr still ↦ rw still (kc _ refl (ground arith))
      ]

  pub close_rule :
      (user_id id : ℕ) {t : Service}
      → close user_id id reason s ≡ ok t
      → ((e : Entry)
          → find? (has_id id) s.entries ≡ some e
          → P (close_by e.closing_promise reason e s))
      → P t
  unfolding close
  close_rule user_id id {t} h k = elim (Option-cases (get user_id id s)) [
    | inl missing ↦ absurd (not_ok (rw (missing, close) at h))
    | inr (e, found) ↦
        let same : t ≡ close_by e.closing_promise reason e s = ground arith in
        rw same (k e (get-eq-some user_id id s found).0)
  ]
    where
      not_ok : {t : Service} → err Fault.not_found ≡ ok t → ⊥
      not_ok q = cc

-- What `find?` gives has the identifier that was looked for.
pub find?-id :
    (id : ℕ) (es : List Entry) {e : Entry} → find? (has_id id) es ≡ some e → e.meta.id ≡ id
find?-id id [] h = cc
find?-id id (x ∷ es) {e} h = ground (arith, find?-id id es {e = e})

-- Looked for under its own identifier, it is found again.
pub find?-self :
    (id : ℕ) (es : List Entry) {e : Entry}
    → find? (has_id id) es ≡ some e
    → find? (has_id e.meta.id) es ≡ some e
find?-self id es {e} found =
    subst (λ k. find? (has_id k) es ≡ some e) (sym (find?-id id es found)) found

-- `close` of an entry after its waits: it is exited, and then perhaps disposed of.
pub finish_close_rule {ℓ} :
    (P : Service → Type ℓ) (e : Entry) (s : Service)
    → (disposes_after e ≡ false
        → (es : List Effect) → P (change_state e.meta.id TerminalState.exited finish_entry es s))
    → (disposes_after e ≡ true
        → (es : List Effect)
        → P (
            dispose
              (record e { peers = [] })
              (change_state e.meta.id TerminalState.exited finish_entry es s)))
    → P (finish_close e s)
unfolding finish_close
finish_close_rule P e s kc kd = elim (Bool-cases (disposes_after e)) [
  | inl gone ↦ rw gone (kd gone _)
  | inr kept ↦ rw kept (kc kept _)
]

-- The exit of the process is noted, and closes a running terminal.
pub process_exits_rule {ℓ} :
    (P : Service → Type ℓ) (code : ℤ) (e : Entry) (s : Service)
    → (let noted =
          change e.meta.id
            (λ x. record x { meta = record x.meta { exit_code = some code } })
            []
            s in
        P noted
        × (e.meta.state ≡ TerminalState.running
            → P (
                close_by e.closing_promise CloseReason.process_exit
                  (record e { meta = record e.meta { exit_code = some code } })
                  noted)))
    → P (process_exits code e s)
unfolding process_exits
process_exits_rule P code e s k = elim (Bool-cases (state_eq e.meta.state TerminalState.running)) [
  | inl r ↦ rw r (k.1 (ground arith))
  | inr other ↦ rw other k.0
]

pub sweep_entry_rule {ℓ} :
    (P : Service → Type ℓ) (now : ℕ) (e : Entry) (s : Service)
    → P s
    → (sweeps now e ≡ true → P (close_by e.closing_promise CloseReason.unattached_timeout e s))
    → P (sweep_entry now e s)
unfolding sweep_entry
sweep_entry_rule P now e s k0 k = elim (Bool-cases s.stopping) [
  | inl stop ↦ simp stop k0
  | inr go ↦
      simp go
        (elim (Bool-cases (sweeps now e)) [ inl due ↦ rw due (k due) | inr fresh ↦ rw fresh k0 ])
]

-- What the sweep closes is a running terminal, or one whose close by the sweep has failed.
pub sweeps-eq-true :
    (now : ℕ) (e : Entry)
    → sweeps now e ≡ true
    → (e.meta.state ≡ TerminalState.running)
      ⊎ ((e.meta.state ≡ TerminalState.closing)
          × (e.meta.close_reason ≡ some CloseReason.unattached_timeout))
unfolding sweeps
sweeps-eq-true now e h = ground arith
