-- ===== src/Turns/Append/Flushes.antt =====
-- apps/api/src/modules/turns/turns.service.ts: the loops of `flushPendingCoalescedEventsForTurn` and
-- `flushAllPendingCoalescedEvents`, and a flush that fails.
use agent_waypoint.Common.{
  ℕ, ◌≡◌, ◌⊎◌, refl, sym, ap, ◌∙◌, arith, Bool, true, false, not, ◌||◌, List, [], ◌∷◌, ◌++◌, Option,
  none, some, if◌then◌else◌, find?, filter, any, map, inl, inr, Bool-cases, Option-cases, All,
  All-map, any-filter-not, or_true,
}
use agent_waypoint.Common.Json.{Fields}
use agent_waypoint.Store.{EventType}
use agent_waypoint.Turns.{Key, key_eq_refl, Pending, Service, Fault, Action, ◌>>◌, and_then, done}
use agent_waypoint.Turns.Append.{
  append_rows, append, has_key, restore, without_key, restoring, flush_key, flush_keys,
  is_pending_of, keys_of, is_nil, flush_rounds, flush_turn,
}

-- Those that are not under one of the keys.
abbrev pub drop_keys : List Key → List Pending → List Pending
drop_keys [] ps = ps
drop_keys (key ∷ keys) ps = drop_keys keys (filter (λ p. not (has_key key p)) ps)

-- What a call leaves behind: it went well and those keys are gone, or a transaction failed.
abbrev Settles : List Key → Service → Service × Option Fault → Type 0
Settles keys s r =
    ((r.1 ≡ none) × (r.0.pending ≡ drop_keys keys s.pending)) ⊎ (r.1 ≡ some Fault.transaction)

filter-none :
    (key : Key) (ps : List Pending)
    → find? (has_key key) ps ≡ none
    → filter (λ p. not (has_key key p)) ps ≡ ps
filter-none key [] e = refl
filter-none key (p ∷ ps) e = ground (arith, filter-none key ps)

pub append-cases :
    (turn : ℕ) (type : EventType) (payload : Fields) (now : ℕ) (s : Service)
    → (((append turn type payload now s).1 ≡ none)
        × ((append turn type payload now s).0.pending ≡ s.pending))
      ⊎ ((append turn type payload now s) ≡ (s, some Fault.transaction))
unfolding append
append-cases turn type payload now s =
    elim (Option-cases (append_rows turn type payload now s.queue.db)) [
      | inl fails ↦ inr (rw (fails, append) refl)
      | inr (db, stored) ↦ inl (rw (stored, append) (refl, refl))
    ]

restoring-Settles :
    (key : Key) (p : Pending) (s u : Service) (r : Service × Option Fault)
    → u.pending ≡ filter (λ q. not (has_key key q)) s.pending
    → ((r.1 ≡ none) × (r.0.pending ≡ u.pending)) ⊎ (r ≡ (u, some Fault.transaction))
    → Settles (key ∷ []) s (restoring key p r)
restoring-Settles key p s u (r, none) e (inl h) = inl (refl, h.1 ∙ e)
restoring-Settles key p s u (r, none) e (inr h) = absurd cc
restoring-Settles key p s u (r, some f) e (inl h) = absurd cc
restoring-Settles key p s u (r, some f) e (inr h) = inr (ap (λ x. x.1) h)

flush_key-Settles : (now : ℕ) (key : Key) (s : Service) → Settles (key ∷ []) s (flush_key now key s)
unfolding flush_key
flush_key-Settles now key s = elim (Option-cases (find? (has_key key) s.pending)) [
  | inl gone ↦ rw (gone, flush_key) (inl (refl, sym (filter-none key s.pending gone)))
  | inr (p, found) ↦
      rw (found, flush_key)
        (restoring-Settles key p s (without_key key s) _ refl
          (append-cases p.turn_id p.type p.payload now (without_key key s)))
]

then-Settles :
    (keys later both : List Key) (s : Service) (b : Action) (r : Service × Option Fault)
    → ((ps : List Pending) → drop_keys later (drop_keys keys ps) ≡ drop_keys both ps)
    → Settles keys s r
    → ((u : Service) → Settles later u (b u))
    → Settles both s (and_then b r)
then-Settles keys later both s b (r, some f) split (inl h) k = absurd cc
then-Settles keys later both s b (r, none) split (inr h) k = absurd cc
then-Settles keys later both s b (r, some f) split (inr failed) k = inr failed
then-Settles keys later both s b (r, none) split (inl h) k = elim (k r) [
  | inl rest ↦ inl (rest.0, rest.1 ∙ ap (drop_keys later) h.1 ∙ split s.pending)
  | inr failed ↦ inr failed
]

flush_keys-Settles :
    (now : ℕ) (keys : List Key) (s : Service) → Settles keys s (flush_keys now keys s)
unfolding flush_keys
flush_keys-Settles now [] s = inl (refl, refl)
flush_keys-Settles now (key ∷ keys) s =
    then-Settles (key ∷ []) keys (key ∷ keys) s (flush_keys now keys) _ (λ ps. refl)
      (flush_key-Settles now key s) (flush_keys-Settles now keys)

covered : List Key → Pending → Bool
covered keys p = any (λ key. has_key key p) keys

module _ (fits : Pending → Bool) where
  abbrev IsCovered : List Key → Pending → Type 0
  IsCovered keys p = fits p ≡ true → covered keys p ≡ true

  IsCovered-rest :
      (key : Key) (keys : List Key) (ps : List Pending)
      → All (IsCovered (key ∷ keys)) ps
      → All (IsCovered keys) (filter (λ p. not (has_key key p)) ps)
  unfolding covered
  IsCovered-rest key keys [] h = tt
  IsCovered-rest key keys (p ∷ ps) h = elim (Bool-cases (has_key key p)) [
    | inl hit ↦ rw hit (IsCovered-rest key keys ps h.1)
    | inr miss ↦ rw miss ((λ fit. rw miss at (h.0 fit)), IsCovered-rest key keys ps h.1)
  ]

  -- Where every row that fits is under one of the keys, none is left.
  drop_keys-none :
      (keys : List Key) (ps : List Pending)
      → All (IsCovered keys) ps
      → filter fits (drop_keys keys ps) ≡ []
  unfolding covered
  drop_keys-none [] [] h = refl
  drop_keys-none [] (p ∷ ps) h = elim (Bool-cases (fits p)) [
    | inl hit ↦ absurd (ground (arith, h.0 hit))
    | inr miss ↦ rw miss (drop_keys-none [] ps h.1)
  ]
  drop_keys-none (key ∷ keys) ps h = drop_keys-none keys _ (IsCovered-rest key keys ps h)

  cons-IsCovered :
      (b : Bool) (p : Pending) (ps rest : List Pending)
      → fits p ≡ b
      → All (IsCovered (map (λ q. q.key) rest)) ps
      → All (IsCovered (map (λ q. q.key) (if b then p ∷ rest else rest))) (p ∷ ps)
  unfolding covered
  cons-IsCovered false p ps rest e h = ((λ fit. absurd cc), h)
  cons-IsCovered true p ps rest e h = (
    (λ fit. rw (key_eq_refl p.key) refl),
    All-map (IsCovered (map (λ q. q.key) rest)) _ ps
        (λ x k fit. ap (◌||◌ (has_key p.key x)) (k fit) ∙ or_true (has_key p.key x)) h,
  )

  All-IsCovered : (ps : List Pending) → All (IsCovered (map (λ q. q.key) (filter fits ps))) ps
  All-IsCovered [] = tt
  All-IsCovered (p ∷ ps) = cons-IsCovered (fits p) p ps (filter fits ps) refl (All-IsCovered ps)

  filter-drop_keys :
      (ps : List Pending) → filter fits (drop_keys (map (λ q. q.key) (filter fits ps)) ps) ≡ []
  filter-drop_keys ps = drop_keys-none _ ps (All-IsCovered ps)

-- A call ends well with none left that fits, or a transaction failed.
abbrev Empties : (Pending → Bool) → Service × Option Fault → Type 0
Empties fits r = ((r.1 ≡ none) × (filter fits r.0.pending ≡ [])) ⊎ (r.1 ≡ some Fault.transaction)

-- A round that went well leaves nothing for a second.
round-Empties :
    (fits : Pending → Bool) (s : Service) (b : Action) (r : Service × Option Fault)
    → Settles (map (λ p. p.key) (filter fits s.pending)) s r
    → ((u : Service) → filter fits u.pending ≡ [] → b u ≡ (u, none))
    → Empties fits (and_then b r)
round-Empties fits s b (r, none) (inr h) k = absurd cc
round-Empties fits s b (r, some f) (inr h) k = inr h
round-Empties fits s b (r, some f) (inl h) k = absurd cc
round-Empties fits s b (r, none) (inl h) k =
    let empty : filter fits r.pending ≡ [] =
      ap (filter fits) h.1 ∙ filter-drop_keys fits s.pending in
    inl (ap (λ x. x.1) (k r empty), ap (λ x. filter fits x.0.pending) (k r empty) ∙ empty)

first-Empties :
    (fits : Pending → Bool) (s : Service) (a b : Action) (ps : List Pending)
    → filter fits s.pending ≡ ps
    → Settles (map (λ p. p.key) ps) s (a s)
    → ((u : Service) → filter fits u.pending ≡ [] → b u ≡ (u, none))
    → Empties fits (if is_nil (map (λ p. p.key) ps) then done s else (a >> b) s)
first-Empties fits s a b [] e h k = inl (refl, e)
first-Empties fits s a b (p ∷ ps) e h k = round-Empties fits s b (a s) (rw e h) k

-- Storing what waits of a turn comes to its end within two rounds: either all went well, and nothing of the turn waits
-- any more, or a transaction failed.
pub flush_turn-settles :
    (turn now : ℕ) (s : Service)
    → (((flush_turn turn now s).1 ≡ none)
        × (filter (is_pending_of turn) (flush_turn turn now s).0.pending ≡ []))
      ⊎ ((flush_turn turn now s).1 ≡ some Fault.transaction)
unfolding flush_turn flush_rounds
flush_turn-settles turn now s =
    first-Empties (is_pending_of turn) s (flush_keys now (keys_of turn s)) (flush_rounds 1 turn now)
      (filter (is_pending_of turn) s.pending) refl (flush_keys-Settles now (keys_of turn s) s)
      (λ u e. rw e refl)

restored :
    (key : Key) (p : Pending) (s : Service)
    → restore key p (without_key key s)
      ≡ record s { pending = filter (λ q. not (has_key key q)) s.pending ++ p ∷ [] }
restored key p s = rw (any-filter-not (has_key key) s.pending) refl

failing :
    (key : Key) (p : Pending) (s : Service) (r : Service × Option Fault) {f : Fault}
    → ((r.1 ≡ none) × (r.0.pending ≡ (without_key key s).pending))
      ⊎ (r ≡ (without_key key s, some Fault.transaction))
    → (restoring key p r).1 ≡ some f
    → restoring key p r ≡ (
      record s { pending = filter (λ q. not (has_key key q)) s.pending ++ p ∷ [] },
      some Fault.transaction,
    )
failing key p s (r, none) h e = absurd cc
failing key p s (r, some g) (inl h) e = absurd cc
failing key p s (r, some g) (inr h) e =
    ap (restoring key p) h ∙ ap (λ u. (u, some Fault.transaction)) (restored key p s)

flushed_batch :
    (now : ℕ) (key : Key) (s : Service) {p : Pending}
    → find? (has_key key) s.pending ≡ some p
    → flush_key now key s
      ≡ restoring key p (append p.turn_id p.type p.payload now (without_key key s))
unfolding flush_key
flushed_batch now key s found = rw (found, flush_key) refl

-- A flush that throws is a transaction that failed: the database and all else stay as they were, and the batch waits
-- again, behind the others, under its key.
pub flush_key_failed :
    (now : ℕ) (key : Key) (s : Service) {f : Fault}
    → (flush_key now key s).1 ≡ some f
    → (p : Pending) × (find? (has_key key) s.pending ≡ some p)
      × (flush_key now key s ≡ (
        record s { pending = filter (λ q. not (has_key key q)) s.pending ++ p ∷ [] },
        some Fault.transaction,
      ))
unfolding flush_key
flush_key_failed now key s {f} e = elim (Option-cases (find? (has_key key) s.pending)) [
  | inl gone ↦
      let well : ◌≡◌ {A = Option Fault} none (some f) = rw (gone, flush_key) at e in absurd cc
  | inr (p, found) ↦
      let flushed = flushed_batch now key s found in
      (
        p,
        found,
        flushed
            ∙ failing key p s _ (append-cases p.turn_id p.type p.payload now (without_key key s))
                (ap (λ r. r.1) (sym flushed) ∙ e),
      )
]
