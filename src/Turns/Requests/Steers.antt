-- ===== src/Turns/Requests/Steers.antt =====
-- apps/api/src/modules/turns/turns.service.ts: the active turns and the numbered events before and after what a user adds to a
-- turn.
use agent_waypoint.Common.{
  ℕ, ◌≡◌, refl, Bool, true, false, Option, ◌==◌, find?, inl, inr, [], Bool-cases, Option-cases,
  get_or,
}
use agent_waypoint.Common.Text.{Text, text, text_eq}
use agent_waypoint.Store.{InputStatus, EventType, Turn, TurnInput, find_turn}
use agent_waypoint.History.{create_message}
use agent_waypoint.History.Project.{find_input, is_input, has_input_id}
use agent_waypoint.Turns.{Service, Fault, Action, done, throw, ◌>>◌}
use agent_waypoint.Turns.Ingest.Keeps.{IsSound, same-IsSound, then-Keeps, append-Keeps}
use agent_waypoint.Turns.Ingest.Cases.{fail_turn-Keeps}
use agent_waypoint.Turns.Requests.Active.{Shrinks, Shrinks-refl, same-Shrinks, append-Closes}
use agent_waypoint.Turns.Requests.Parts.{then-Closes}
use agent_waypoint.Turns.Requests.Handlers.{fail_turn-Closes}
use agent_waypoint.Turns.Steering.{
  same_input, store_input, queue_input, SteerAnswer, steer_plainly, steer, is_steerable,
  is_queued_turn, close_orphaned, claim_input, drop_input, mark_unsent, tell_input, begin_dispatch,
  Delivery, delivered, uncertain, failing, end_dispatch,
}

-- A state that follows another: sound where that was, with no more active turns.
abbrev pub Follows : Service → Service → Type 0
Follows s u = (IsSound s → IsSound u) × Shrinks s.queue.db.turns u.queue.db.turns

abbrev pub Fine : Action → Type 0
Fine a = (s : Service) → Follows s (a s).0

Follows-refl : (s : Service) → Follows s s
Follows-refl s = ((λ v. v), Shrinks-refl s.queue.db.turns)

-- Rows other than events and turns.
rows-Follows :
    (s u : Service)
    → u.queue.db.events ≡ s.queue.db.events
    → u.pending ≡ s.pending
    → u.queue.db.turns ≡ s.queue.db.turns
    → Follows s u
rows-Follows s u e p t = (same-IsSound e p, same-Shrinks s.queue.db.turns u.queue.db.turns t)

then-Fine : (a b : Action) → Fine a → Fine b → Fine (a >> b)
then-Fine a b h k s = (
  then-Keeps a b (λ u. (h u).0) (λ u. (k u).0) s,
  then-Closes a b (λ u. (h u).1) (λ u. (k u).1) s,
)

same_input-Fine : (i : TurnInput) (content : Text) → Fine (same_input i content)
same_input-Fine i content s = elim (Bool-cases (text_eq i.content content)) [
  | inl same ↦ rw same (Follows-refl s)
  | inr other ↦ rw other (Follows-refl s)
]

store_input-Fine : (i : TurnInput) (now : ℕ) → Fine (store_input i now)
unfolding store_input
store_input-Fine i now s = (
  (λ v. append-Keeps i.turn_id EventType.turn_input_updated _ now _ (same-IsSound refl refl v)),
  append-Closes i.turn_id EventType.turn_input_updated _ now _,
)

queue_input-Fine :
    (t : Turn) (client content : Text) (now : ℕ) → Fine (queue_input t client content now)
unfolding queue_input
queue_input-Fine t client content now s =
    elim (Option-cases (find? (is_input t.id client) s.queue.db.inputs)) [
      | inl new ↦ rw (new, queue_input) (store_input-Fine _ now s)
      | inr (i, known) ↦ rw (known, queue_input) (same_input-Fine i content s)
    ]

steer_plainly-Fine :
    (answer : SteerAnswer) (t : Turn) (content : Text) (now : ℕ)
    → Fine (steer_plainly answer t content now)
unfolding steer_plainly create_message
steer_plainly-Fine SteerAnswer.steered t content now s =
    rows-Follows s (steer_plainly SteerAnswer.steered t content now s).0 refl refl refl
steer_plainly-Fine SteerAnswer.refused t content now s = Follows-refl s
steer_plainly-Fine SteerAnswer.gone t content now s =
    then-Fine (close_orphaned t now) (throw Fault.conflict)
      (λ u. (
        fail_turn-Keeps t.status _ _ _ [] now t.id u,
        fail_turn-Closes t.status _ _ _ [] now t.id u,
      ))
      Follows-refl s

module _ (answer : SteerAnswer) (turn : ℕ) (content : Text) (fresh : Text) (now : ℕ) where
  pub steer-Fine :
      (enabled : Bool) (client : Option Text)
      → Fine (steer enabled answer turn content client fresh now)
  unfolding steer
  steer-Fine false client s = Follows-refl s
  steer-Fine true client s = elim (Option-cases (find_turn turn s.queue.db)) [
    | inl gone ↦ rw (gone, steer) (Follows-refl s)
    | inr (t, found) ↦
        rw (found, steer)
          (elim (Bool-cases (t.history_version == 2)) [
            | inl two ↦ rw two (elim (Option-cases (find_input turn client s.queue.db.inputs)) [
              | inr (i, known) ↦ rw known (same_input-Fine i content s)
              | inl new ↦ rw new (elim (Bool-cases (is_steerable t.status)) [
                | inl on ↦ rw on (queue_input-Fine t (get_or client fresh) content now s)
                | inr off ↦ rw off (Follows-refl s)
              ])
            ])
            | inr one ↦ rw one (elim (Bool-cases (is_steerable t.status)) [
              | inl on ↦ rw on (steer_plainly-Fine answer t content now s)
              | inr off ↦ rw off (Follows-refl s)
            ])
          ])
  ]

tell_input-Fine : (turn id now : ℕ) → Fine (tell_input turn id now)
unfolding tell_input
tell_input-Fine turn id now s = elim (Option-cases (find? (has_input_id id) s.queue.db.inputs)) [
  | inl gone ↦ rw (gone, tell_input) (Follows-refl s)
  | inr (i, found) ↦
      rw (found, tell_input)
        (
          append-Keeps turn EventType.turn_input_updated _ now s,
          append-Closes turn EventType.turn_input_updated _ now s,
        )
]

mark_unsent-Fine :
    (status : InputStatus) (message : Text) (id : ℕ) → Fine (mark_unsent status message id)
mark_unsent-Fine status message id s =
    rows-Follows s (mark_unsent status message id s).0 refl refl refl

drop_input-Fine : (turn id now : ℕ) → Fine (drop_input turn id now)
drop_input-Fine turn id now =
    let message = text "Turn ended before this input could be sent." in
    then-Fine (mark_unsent InputStatus.failed message id) (tell_input turn id now)
      (mark_unsent-Fine InputStatus.failed message id) (tell_input-Fine turn id now)

pub begin_dispatch-Fine :
    (stopping late : Bool) (turn id now : ℕ) → Fine (begin_dispatch stopping late turn id now)
unfolding begin_dispatch
begin_dispatch-Fine stopping late turn id now s =
    let dropped = drop_input-Fine turn id now s in
    elim (Bool-cases stopping) [
      | inl over ↦ rw (over, begin_dispatch) dropped
      | inr going ↦ elim (Option-cases (find_turn turn s.queue.db)) [
        | inl gone ↦ rw (going, gone, begin_dispatch) dropped
        | inr (t, found) ↦
            rw (going, found, begin_dispatch)
              (elim (Bool-cases (is_queued_turn t.status)) [
                | inl waits ↦ rw waits (elim (Bool-cases late) [
                  | inl ended ↦ rw ended dropped
                  | inr early ↦ rw early (Follows-refl s)
                ])
                | inr started ↦ rw started (elim (Bool-cases (is_steerable t.status)) [
                  | inl on ↦ rw on (rows-Follows s (claim_input id now s).0 refl refl refl)
                  | inr off ↦ rw off dropped
                ])
              ])
      ]
    ]

pub end_dispatch-Fine :
    (answer : Delivery) (turn id now : ℕ) → Fine (end_dispatch answer turn id now)
unfolding end_dispatch
end_dispatch-Fine delivered turn id now s =
    then-Fine done (tell_input turn id now) Follows-refl (tell_input-Fine turn id now) s
end_dispatch-Fine (uncertain message) turn id now s =
    then-Fine (mark_unsent InputStatus.unconfirmed message id) (tell_input turn id now)
      (mark_unsent-Fine InputStatus.unconfirmed message id) (tell_input-Fine turn id now) s
end_dispatch-Fine (failing message) turn id now s =
    then-Fine (mark_unsent InputStatus.failed message id) (tell_input turn id now)
      (mark_unsent-Fine InputStatus.failed message id) (tell_input-Fine turn id now) s
