-- ===== src/Turns/Ingest/Keeps.antt =====
-- apps/api/src/modules/turns/turns.service.ts: what each part of `ingestRunnerEventNow` leaves of the events and of the
-- batches that wait.
use agent_waypoint.Common.{
  ℕ, zero, suc, ◌≡◌, refl, sym, subst, Bool, true, false, not, List, [], ◌∷◌, Option, none, some,
  find?, any, inl, inr, Bool-cases, Option-cases, All, All-append, All-filter,
  All-update_first_each, find?-All,
}
use agent_waypoint.Common.Json.{Fields}
use agent_waypoint.Store.{EventType, Turn, find_turn}
use agent_waypoint.TurnConfig.{TextField, coalesced_field}
use agent_waypoint.Turns.{
  Key, last_write, text_key, text_key_of, Pending, Service, Fault, Action, done, and_then, ◌>>◌,
  update_turn,
}
use agent_waypoint.Turns.Append.{
  append, has_key, upsert_coalesced, replace_payload, merge_pending, coalesce_text, coalesce,
  is_last_write, restore, without_key, restoring, flush_key, flush_keys, flush_rounds, flush_turn,
  keys_of, is_nil,
}
use agent_waypoint.Turns.Append.Numbered.{IsNumbered, append-IsNumbered}
use agent_waypoint.Turns.Append.Flushes.{append-cases}

-- The types of the events that wait for others of their kind.
abbrev pub waits : EventType → Bool
waits EventType.assistant_delta = true
waits EventType.reasoning_delta = true
waits EventType.tool_output = true
waits EventType.plan_updated = true
waits EventType.diff_updated = true
waits _ = false

abbrev pub turn_of : Key → ℕ
turn_of (last_write turn type) = turn
turn_of (text_key turn type f metadata) = turn

-- A batch is of a type that may wait, under a key of its turn.
abbrev pub Waits : Pending → Type 0
Waits p = (waits p.type ≡ true) × (turn_of p.key ≡ p.turn_id)

-- The events of each turn are numbered without a gap, and only what may wait does.
pub record IsSound (s : Service) : Type 0 where
  pub numbered : IsNumbered s.queue.db.events
  pub waiting : All Waits s.pending

-- An action that keeps it, whether it throws or not.
abbrev pub Keeps : Action → Type 0
Keeps a = (s : Service) → IsSound s → IsSound (a s).0

pub same-IsSound :
    {s u : Service}
    → u.queue.db.events ≡ s.queue.db.events
    → u.pending ≡ s.pending
    → IsSound s
    → IsSound u
same-IsSound rows ps h = record {
  numbered = subst IsNumbered (sym rows) h.numbered;
  waiting = subst (All Waits) (sym ps) h.waiting;
}

pub and_then-IsSound :
    (b : Action) (r : Service × Option Fault) → IsSound r.0 → Keeps b → IsSound (and_then b r).0
and_then-IsSound b (s, none) h k = k s h
and_then-IsSound b (s, some f) h k = h

pub then-Keeps : (a b : Action) → Keeps a → Keeps b → Keeps (a >> b)
then-Keeps a b h k s v = and_then-IsSound b (a s) (h s v) k

pub done-Keeps : Keeps done
done-Keeps s v = v

pub append-Keeps :
    (turn : ℕ) (type : EventType) (payload : Fields) (now : ℕ)
    → Keeps (append turn type payload now)
append-Keeps turn type payload now s v = record {
  numbered = append-IsNumbered turn type payload now s v.numbered;
  waiting = elim (append-cases turn type payload now s) [
    | inl h ↦ subst (All Waits) (sym h.1) v.waiting
    | inr h ↦ rw h v.waiting
  ];
}

restore-IsSound :
    (key : Key) (p : Pending) (s : Service) → Waits p → IsSound s → IsSound (restore key p s)
restore-IsSound key p s w v = elim (Bool-cases (any (has_key key) s.pending)) [
  | inl taken ↦ rw taken v
  | inr free ↦
      rw free
        (record { numbered = v.numbered; waiting = All-append Waits s.pending _ v.waiting (w, tt) })
]

restoring-IsSound :
    (key : Key) (p : Pending) (r : Service × Option Fault)
    → Waits p
    → IsSound r.0
    → IsSound (restoring key p r).0
restoring-IsSound key p (s, none) w v = v
restoring-IsSound key p (s, some f) w v = restore-IsSound key p s w v

pub flush_key-Keeps : (now : ℕ) (key : Key) → Keeps (flush_key now key)
unfolding flush_key
flush_key-Keeps now key s v = elim (Option-cases (find? (has_key key) s.pending)) [
  | inl gone ↦ rw (gone, flush_key) v
  | inr (p, found) ↦
      rw (found, flush_key)
        (restoring-IsSound key p _ (find?-All Waits (has_key key) s.pending found v.waiting).0 (
          append-Keeps p.turn_id p.type p.payload now (without_key key s) (record {
            numbered = v.numbered;
            waiting = All-filter Waits (λ q. not (has_key key q)) s.pending v.waiting;
          })))
]

pub flush_keys-Keeps : (now : ℕ) (keys : List Key) → Keeps (flush_keys now keys)
unfolding flush_keys
flush_keys-Keeps now [] = done-Keeps
flush_keys-Keeps now (key ∷ keys) =
    then-Keeps (flush_key now key) (flush_keys now keys) (flush_key-Keeps now key)
      (flush_keys-Keeps now keys)

flush_rounds-Keeps : (fuel turn now : ℕ) → Keeps (flush_rounds fuel turn now)
unfolding flush_rounds
flush_rounds-Keeps zero turn now s v = v
flush_rounds-Keeps (suc fuel) turn now s v = elim (Bool-cases (is_nil (keys_of turn s))) [
  | inl empty ↦ rw empty v
  | inr more ↦ rw more (
      then-Keeps (flush_keys now (keys_of turn s)) (flush_rounds fuel turn now)
        (flush_keys-Keeps now (keys_of turn s)) (flush_rounds-Keeps fuel turn now) s v)
]

pub flush_turn-Keeps : (turn now : ℕ) → Keeps (flush_turn turn now)
unfolding flush_turn
flush_turn-Keeps turn now = flush_rounds-Keeps 2 turn now

pub update_turn-Keeps : (turn : ℕ) (f : Turn → Turn) → Keeps (update_turn turn f)
unfolding update_turn
update_turn-Keeps turn f s v = elim (Option-cases (find_turn turn s.queue.db)) [
  | inl gone ↦ rw (gone, update_turn) v
  | inr (t, found) ↦ rw (found, update_turn) (same-IsSound refl refl v)
]

upsert_coalesced-Waits :
    (key : Key) (turn : ℕ) (type : EventType) (payload : Fields) (ps : List Pending)
    → (waits type ≡ true) × (turn_of key ≡ turn)
    → All Waits ps
    → All Waits (upsert_coalesced key turn type payload ps)
unfolding upsert_coalesced
upsert_coalesced-Waits key turn type payload ps w h = elim (Bool-cases (any (has_key key) ps)) [
  | inl known ↦
      rw (known, upsert_coalesced)
        (All-update_first_each Waits (has_key key) (replace_payload payload) ps (λ p k. k) h)
  | inr new ↦ rw (new, upsert_coalesced) (All-append Waits ps _ h (w, tt))
]

coalesce_text-Waits :
    (turn : ℕ) (type : EventType) (payload : Fields) (f : TextField) (ps : List Pending)
    → waits type ≡ true
    → All Waits ps
    → All Waits (coalesce_text turn type payload f ps)
unfolding coalesce_text
coalesce_text-Waits turn type payload f ps w h =
    elim (Bool-cases (any (has_key (text_key_of turn type payload f)) ps)) [
      | inl known ↦
          rw (known, coalesce_text)
            (All-update_first_each Waits (has_key (text_key_of turn type payload f))
              (merge_pending f payload) ps (λ p k. k) h)
      | inr new ↦
          rw (new, coalesce_text)
            (upsert_coalesced-Waits (text_key_of turn type payload f) turn type payload ps (w, refl)
              h)
    ]

pub coalesce-Waits :
    (turn : ℕ) (type : EventType) (payload : Fields) (ps : List Pending) {qs : List Pending}
    → waits type ≡ true
    → coalesce turn type payload ps ≡ some qs
    → All Waits ps
    → All Waits qs
unfolding coalesce
coalesce-Waits turn type payload ps {qs} w e h = elim (Bool-cases (is_last_write type)) [
  | inl last ↦
      let same : upsert_coalesced (last_write turn type) turn type payload ps ≡ qs = cc in
      rw (← same) (upsert_coalesced-Waits (last_write turn type) turn type payload ps (w, refl) h)
  | inr other ↦ elim (Option-cases (coalesced_field type payload)) [
    | inl no_text ↦ cc
    | inr (f, there) ↦
        let same : coalesce_text turn type payload f ps ≡ qs = cc in
        rw (← same) (coalesce_text-Waits turn type payload f ps w h)
  ]
]
