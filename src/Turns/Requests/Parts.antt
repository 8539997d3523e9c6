-- ===== src/Turns/Requests/Parts.antt =====
-- apps/api/src/modules/turns: the active turns before and after the flushes, the end of a turn, and an approval.
use agent_waypoint.Common.{
  ℕ, zero, suc, ◌≡◌, refl, sym, ◌∙◌, true, false, List, [], ◌∷◌, Option, none, some, find?, any,
  update_first, inl, inr, Bool-cases, Option-cases,
}
use agent_waypoint.Common.Text.{Text}
use agent_waypoint.Store.{TurnStatus, Turn, Store, find_turn, turn_has_id}
use agent_waypoint.History.{create_message}
use agent_waypoint.Turns.{Key, Pending, Service, Fault, Action, done, and_then, ◌>>◌, update_turn}
use agent_waypoint.Turns.Append.{
  has_key, without_key, restoring, flush_key, flush_keys, flush_rounds, flush_turn, keys_of, is_nil,
}
use agent_waypoint.Turns.Context.{
  flush_context, without_context, with_usage, flush_context_rounds, flush_contexts, is_context_of,
}
use agent_waypoint.Turns.Ends.{
  Ending, change_turn, final_message, finished_turn, with_row, final_row, finish_with_message,
  finish_rows, finish,
}
use agent_waypoint.Turns.Requests.{is_active}
use agent_waypoint.Turns.Requests.Active.{
  falsity, Shrinks, Shrinks-refl, Shrinks-trans, update_first-Shrinks, Closes, append-Closes,
}

-- What follows a call that throws is not done.
pub and_then_at-Shrinks :
    (ts : List Turn) (b : Action) (r : Service × Option Fault)
    → Shrinks ts r.0.queue.db.turns
    → Shrinks r.0.queue.db.turns (b r.0).0.queue.db.turns
    → Shrinks ts (and_then b r).0.queue.db.turns
and_then_at-Shrinks ts b (s, none) h k =
    Shrinks-trans ts s.queue.db.turns (b s).0.queue.db.turns h k
and_then_at-Shrinks ts b (s, some f) h k = h

pub and_then-Shrinks :
    (ts : List Turn) (b : Action) (r : Service × Option Fault)
    → Shrinks ts r.0.queue.db.turns
    → Closes b
    → Shrinks ts (and_then b r).0.queue.db.turns
and_then-Shrinks ts b r h k = and_then_at-Shrinks ts b r h (k r.0)

pub then-Closes : (a b : Action) → Closes a → Closes b → Closes (a >> b)
then-Closes a b h k s = and_then-Shrinks s.queue.db.turns b (a s) (h s) k

pub done-Closes : Closes done
done-Closes s = Shrinks-refl s.queue.db.turns

restoring-Shrinks :
    (ts : List Turn) (key : Key) (p : Pending) (r : Service × Option Fault)
    → Shrinks ts r.0.queue.db.turns
    → Shrinks ts (restoring key p r).0.queue.db.turns
restoring-Shrinks ts key p (u, none) h = h
restoring-Shrinks ts key p (u, some f) h = elim (Bool-cases (any (has_key key) u.pending)) [
  | inl taken ↦ rw taken h
  | inr free ↦ rw free h
]

pub flush_key-Closes : (now : ℕ) (key : Key) → Closes (flush_key now key)
unfolding flush_key
flush_key-Closes now key s = elim (Option-cases (find? (has_key key) s.pending)) [
  | inl gone ↦ rw (gone, flush_key) (Shrinks-refl s.queue.db.turns)
  | inr (p, found) ↦
      rw (found, flush_key)
        (restoring-Shrinks s.queue.db.turns key p _
          (append-Closes p.turn_id p.type p.payload now (without_key key s)))
]

pub flush_keys-Closes : (now : ℕ) (keys : List Key) → Closes (flush_keys now keys)
unfolding flush_keys
flush_keys-Closes now [] = done-Closes
flush_keys-Closes now (key ∷ keys) =
    then-Closes (flush_key now key) (flush_keys now keys) (flush_key-Closes now key)
      (flush_keys-Closes now keys)

flush_rounds-Closes : (fuel turn now : ℕ) → Closes (flush_rounds fuel turn now)
unfolding flush_rounds
flush_rounds-Closes zero turn now s = Shrinks-refl s.queue.db.turns
flush_rounds-Closes (suc fuel) turn now s = elim (Bool-cases (is_nil (keys_of turn s))) [
  | inl empty ↦ rw empty (Shrinks-refl s.queue.db.turns)
  | inr more ↦ rw more (
      then-Closes (flush_keys now (keys_of turn s)) (flush_rounds fuel turn now)
        (flush_keys-Closes now (keys_of turn s)) (flush_rounds-Closes fuel turn now) s)
]

pub flush_turn-Closes : (turn now : ℕ) → Closes (flush_turn turn now)
unfolding flush_turn
flush_turn-Closes turn now = flush_rounds-Closes 2 turn now

pub update_turn-Shrinks :
    (turn : ℕ) (f : Turn → Turn) (s : Service)
    → ((t : Turn) → (f t).session_id ≡ t.session_id)
    → ((t : Turn)
        → find? (turn_has_id turn) s.queue.db.turns ≡ some t
        → is_active (f t) ≡ true
        → is_active t ≡ true)
    → Shrinks s.queue.db.turns (update_turn turn f s).0.queue.db.turns
unfolding update_turn
update_turn-Shrinks turn f s h k = elim (Option-cases (find_turn turn s.queue.db)) [
  | inl gone ↦ rw (gone, update_turn) (Shrinks-refl s.queue.db.turns)
  | inr (t, found) ↦
      rw (found, update_turn) (update_first-Shrinks (turn_has_id turn) f s.queue.db.turns h k)
]

pub flush_context-Closes : (turn now : ℕ) → Closes (flush_context turn now)
unfolding flush_context
flush_context-Closes turn now s = elim (Option-cases (find? (is_context_of turn) s.contexts)) [
  | inl gone ↦ rw (gone, flush_context) (Shrinks-refl s.queue.db.turns)
  | inr (c, found) ↦
      rw (found, flush_context)
        (update_turn-Shrinks turn (with_usage c.snapshot now) (without_context turn s) (λ t. refl)
          (λ t e k. k))
]

flush_context_rounds-Closes : (fuel turn now : ℕ) → Closes (flush_context_rounds fuel turn now)
unfolding flush_context_rounds
flush_context_rounds-Closes zero turn now s = Shrinks-refl s.queue.db.turns
flush_context_rounds-Closes (suc fuel) turn now s =
    elim (Bool-cases (any (is_context_of turn) s.contexts)) [
      | inl more ↦ rw more (
          then-Closes (flush_context turn now) (flush_context_rounds fuel turn now)
            (flush_context-Closes turn now) (flush_context_rounds-Closes fuel turn now) s)
      | inr empty ↦ rw empty (Shrinks-refl s.queue.db.turns)
    ]

pub flush_contexts-Closes : (turn now : ℕ) → Closes (flush_contexts turn now)
unfolding flush_contexts
flush_contexts-Closes turn now = flush_context_rounds-Closes 2 turn now

module _ (ending : Ending) (previous : TurnStatus) (message : Option ℕ) (now : ℕ) (t : Turn) where
  finished_turn-active : is_active (finished_turn ending previous message now t) ≡ false
  finished_turn-active =
      elim ending as (λ k. is_active (finished_turn k previous message now t) ≡ false) [
        | Ending.completes ↦ refl
        | Ending.cancels ↦ refl
        | Ending.fails code words ↦ refl
      ]

  finished_turn-session : (finished_turn ending previous message now t).session_id ≡ t.session_id
  finished_turn-session =
      elim ending as (λ k. (finished_turn k previous message now t).session_id ≡ t.session_id) [
        | Ending.completes ↦ refl
        | Ending.cancels ↦ refl
        | Ending.fails code words ↦ refl
      ]

change_turn-Shrinks :
    (turn : ℕ) (ending : Ending) (previous : TurnStatus) (message : Option ℕ) (now : ℕ) (db : Store)
    {db' : Store}
    → change_turn turn (finished_turn ending previous message now) db ≡ some db'
    → Shrinks db.turns db'.turns
change_turn-Shrinks turn ending previous message now db {db'} e =
    elim (Option-cases (find_turn turn db)) [
      | inl gone ↦ cc
      | inr (t, found) ↦
          let f = finished_turn ending previous message now in
          let changed : Store = record db { turns = update_first (turn_has_id turn) f db.turns } in
          let same : changed ≡ db' = cc in
          rw (← same) (
            update_first-Shrinks (turn_has_id turn) f db.turns
              (finished_turn-session ending previous message now)
              (λ x e' k.
                absurd (falsity (sym k ∙ finished_turn-active ending previous message now x))))
    ]

finish_with_message-Shrinks :
    (ending : Ending) (previous : TurnStatus) (t : Turn) (content : Text) (now : ℕ) (db : Store)
    {db' : Store}
    → finish_with_message ending previous t content now db ≡ some db'
    → Shrinks db.turns db'.turns
unfolding finish_with_message create_message
finish_with_message-Shrinks ending previous t content now db {db'} e =
    let (made, m) = create_message (final_message t content) now db in
    elim (Option-cases (change_turn t.id (finished_turn ending previous (some m.id) now) made)) [
      | inl gone ↦ cc
      | inr (stored, there) ↦
          let same : with_row (final_row t content) stored ≡ db' = cc in
          rw (← same) (change_turn-Shrinks t.id ending previous (some m.id) now made there)
    ]

finish_rows-Shrinks :
    (ending : Ending) (previous : TurnStatus) (t : Turn) (content : Text) (now : ℕ) (db : Store)
    {db' : Store}
    → finish_rows ending previous t content now db ≡ some db'
    → Shrinks db.turns db'.turns
unfolding finish_rows
finish_rows-Shrinks Ending.completes previous t content now db e =
    finish_with_message-Shrinks Ending.completes previous t content now db e
finish_rows-Shrinks Ending.cancels previous t [] now db e =
    change_turn-Shrinks t.id Ending.cancels previous none now db e
finish_rows-Shrinks Ending.cancels previous t (c ∷ content) now db e =
    finish_with_message-Shrinks Ending.cancels previous t (c ∷ content) now db e
finish_rows-Shrinks (Ending.fails code words) previous t [] now db e =
    change_turn-Shrinks t.id (Ending.fails code words) previous none now db e
finish_rows-Shrinks (Ending.fails code words) previous t (c ∷ content) now db e =
    finish_with_message-Shrinks (Ending.fails code words) previous t (c ∷ content) now db e

pub finish-Closes :
    (ending : Ending) (previous : TurnStatus) (t : Turn) (content : Text) (now : ℕ)
    → Closes (finish ending previous t content now)
unfolding finish
finish-Closes ending previous t content now s =
    elim (Option-cases (finish_rows ending previous t content now s.queue.db)) [
      | inl fails ↦ rw (fails, finish) (Shrinks-refl s.queue.db.turns)
      | inr (db, stored) ↦
          rw (stored, finish) (finish_rows-Shrinks ending previous t content now s.queue.db stored)
    ]
