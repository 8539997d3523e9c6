-- ===== src/Turns/Steering.antt =====
-- apps/api/src/modules/turns/turns.service.ts: `steerTurnForUser` and `queueConfirmedInput`: what a user adds to a turn that goes on. The
-- dispatch of an input is cut where it waits for the runner.
use agent_waypoint.Common.{
  ℕ, suc, Bool, true, false, not, ◌&&◌, List, [], ◌∷◌, ◌++◌, Option, none, some, if◌then◌else◌,
  ◌==◌, find?, update_where, get_or,
}
use agent_waypoint.Common.Text.{Text, text, text_eq}
use agent_waypoint.Common.Json.{str, obj, whole, Fields, field, end}
use agent_waypoint.Store.{
  TurnStatus, EventType, Turn, Role, MessageState, InputStatus, TurnInput, find_turn,
}
use agent_waypoint.Approvals.{date_or_null}
use agent_waypoint.History.{NewMessage, create_message, text_json, count_json}
use agent_waypoint.History.Project.{find_input, is_input, has_input_id}
use agent_waypoint.Turns.{Service, Fault, Action, done, throw, ◌>>◌, with_store}
use agent_waypoint.Turns.Append.{append}
use agent_waypoint.Turns.Ends.{fail_turn}

-- `STEERABLE_TURN_STATUSES.includes(status)`.
abbrev pub is_steerable : TurnStatus → Bool
is_steerable TurnStatus.queued = true
is_steerable TurnStatus.running = true
is_steerable _ = false

abbrev pub is_queued_turn : TurnStatus → Bool
is_queued_turn TurnStatus.queued = true
is_queued_turn _ = false

abbrev pub input_status_text : InputStatus → Text
input_status_text InputStatus.queued = text "queued"
input_status_text InputStatus.accepted = text "accepted"
input_status_text InputStatus.failed = text "failed"
input_status_text InputStatus.unconfirmed = text "unconfirmed"

-- The row as an event has it, without the time of its creation.
abbrev pub input_payload : TurnInput → Fields
input_payload i =
    field "input"
      (obj (
        field "id" (whole i.id) (
          field "turnId" (whole i.turn_id) (
            field "clientRequestId" (str i.client_request_id) (
              field "content" (str i.content) (
                field "status" (str (input_status_text i.status)) (
                  field "messageId" (count_json i.message_id) (
                    field "backendItemId" (text_json i.backend_item_id) (
                      field "dispatchedAt" (date_or_null i.dispatched_at) (
                        field "acceptedAt" (date_or_null i.accepted_at)
                          (field "errorMessage" (text_json i.error_message) end)))))))))))
      end

abbrev pub new_input : ℕ → ℕ → Text → Text → TurnInput
new_input id turn client content = record {
  id = id;
  turn_id = turn;
  client_request_id = client;
  content = content;
  status = InputStatus.queued;
  message_id = none;
  backend_item_id = none;
  dispatched_at = none;
  accepted_at = none;
  error_message = none;
}

abbrev pub with_inputs : List TurnInput → Service → Service
with_inputs rows s = with_store (record s.queue.db { inputs = rows }) s

-- The row is stored, and then told; its dispatch follows by itself.
unfoldable pub store_input : TurnInput → ℕ → Action
store_input i now s = append i.turn_id EventType.turn_input_updated (input_payload i) now (
    with_store
      (record s.queue.db { inputs = s.queue.db.inputs ++ i ∷ []; next_id = suc s.queue.db.next_id })
      s)

-- An input that is known is not stored again, and has to be the same.
abbrev pub same_input : TurnInput → Text → Action
same_input i content = if text_eq i.content content then done else throw Fault.conflict

unfoldable pub queue_input : Turn → Text → Text → ℕ → Action
unfolding store_input
queue_input t client content now s = elim (find? (is_input t.id client) s.queue.db.inputs) [
  | some i ↦ same_input i content s
  | none ↦ store_input (new_input s.queue.db.next_id t.id client content) now s
]

-- What the runner answers to an input of a turn without a history of messages.
pub data SteerAnswer : Type 0 where
  steered gone refused : SteerAnswer

abbrev pub orphaned_payload : Fields
orphaned_payload = field "code" (str (text "ORPHANED_TURN")) (
    field "message"
      (str
        (text "The runner no longer has this turn; AgentWaypoint closed the stale running record."))
      end)

abbrev pub steer_prompt : Turn → Text → NewMessage
steer_prompt t content = record {
  session_id = t.session_id;
  role = Role.user;
  content = content;
  turn_id = some t.id;
  backend_item_id = none;
  state = MessageState.completed;
  start_event_seq = none;
  end_event_seq = none;
  timeline_start_seq = none;
}

abbrev pub close_orphaned : Turn → ℕ → Action
close_orphaned t now =
    fail_turn t.id t.status (text "ORPHANED_TURN")
      (text "The runner no longer has this turn; AgentWaypoint closed the stale running record.")
      orphaned_payload [] now

unfoldable pub steer_plainly : SteerAnswer → Turn → Text → ℕ → Action
unfolding create_message
steer_plainly SteerAnswer.steered t content now s =
    done (with_store (create_message (steer_prompt t content) now s.queue.db).0 s)
steer_plainly SteerAnswer.refused t content now s = throw Fault.runner s
steer_plainly SteerAnswer.gone t content now s = (close_orphaned t now >> throw Fault.conflict) s

-- `steerTurnForUser`: `client` is the request's identifier where it has one, `fresh` the one that is made.
unfoldable pub steer : Bool → SteerAnswer → ℕ → Text → Option Text → Text → ℕ → Action
unfolding queue_input steer_plainly
steer enabled answer turn content client fresh now s =
    if not enabled then throw Fault.conflict s else elim (find_turn turn s.queue.db) [
      | none ↦ throw Fault.not_found s
      | some t ↦
          if t.history_version == 2
          then elim (find_input turn client s.queue.db.inputs) [
            | some i ↦ same_input i content s
            | none ↦
                if is_steerable t.status
                then queue_input t (get_or client fresh) content now s
                else throw Fault.conflict s
          ]
          else if is_steerable t.status
          then steer_plainly answer t content now s
          else throw Fault.conflict s
    ]

abbrev pub is_queued_input : InputStatus → Bool
is_queued_input InputStatus.queued = true
is_queued_input _ = false

abbrev pub is_unsent : ℕ → TurnInput → Bool
is_unsent id i = i.id == id && is_queued_input i.status

-- The row as it is then is told.
unfoldable pub tell_input : ℕ → ℕ → ℕ → Action
tell_input turn id now s = elim (find? (has_input_id id) s.queue.db.inputs) [
  | none ↦ throw Fault.transaction s
  | some i ↦ append turn EventType.turn_input_updated (input_payload i) now s
]

abbrev pub unsent_input : InputStatus → Text → TurnInput → TurnInput
unsent_input status message i = record i { status = status; error_message = some message }

abbrev pub mark_unsent : InputStatus → Text → ℕ → Action
mark_unsent status message id s =
    done
      (with_inputs (update_where (is_unsent id) (unsent_input status message) s.queue.db.inputs) s)

abbrev pub claimed_input : ℕ → TurnInput → TurnInput
claimed_input now i = record i { dispatched_at = some now }

abbrev pub claim_input : ℕ → ℕ → Action
claim_input id now s =
    done (with_inputs (update_where (is_unsent id) (claimed_input now) s.queue.db.inputs) s)

abbrev pub drop_input : ℕ → ℕ → ℕ → Action
drop_input turn id now =
    mark_unsent InputStatus.failed (text "Turn ended before this input could be sent.") id
    >> tell_input turn id now

-- The first part of a dispatch: an input of a turn that is over, or still queued at the deadline, or when the service
-- stops, is not sent; otherwise its row is claimed, and the runner is asked.
unfoldable pub begin_dispatch : Bool → Bool → ℕ → ℕ → ℕ → Action
unfolding tell_input
begin_dispatch stopping late turn id now s =
    if stopping then drop_input turn id now s else elim (find_turn turn s.queue.db) [
      | none ↦ drop_input turn id now s
      | some t ↦
          if is_queued_turn t.status
          then (if late then drop_input turn id now s else done s)
          else (if is_steerable t.status then claim_input id now s else drop_input turn id now s)
    ]

-- How the runner's call ended: with an error whose outcome is not certain, or another.
pub data Delivery : Type 0 where
  delivered : Delivery
  uncertain failing : Text → Delivery

abbrev pub mark_delivery : Delivery → ℕ → Action
mark_delivery delivered id = done
mark_delivery (uncertain message) id = mark_unsent InputStatus.unconfirmed message id
mark_delivery (failing message) id = mark_unsent InputStatus.failed message id

-- The second part, after the answer.
unfoldable pub end_dispatch : Delivery → ℕ → ℕ → ℕ → Action
unfolding tell_input
end_dispatch answer turn id now = mark_delivery answer id >> tell_input turn id now
