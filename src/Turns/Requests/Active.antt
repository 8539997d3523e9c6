-- ===== src/Turns/Requests/Active.antt =====
-- apps/api/src/modules/turns: how many active turns a session has, before and after the parts of
-- `ingestRunnerEventNow`.
use native.Mathlib.Nat.{le_trans}
use agent_waypoint.Common.{
  ℕ, ◌≤◌, ◌≡◌, refl, sym, subst, ap, ◌∙◌, arith, Bool, true, false, not, List, [], ◌∷◌, some, ◌==◌,
  find?, count, filter, update_first, inl, inr, Bool-cases, Option-cases,
}
use agent_waypoint.Common.Json.{Json, Fields, obj, get, read_number}
use agent_waypoint.Store.{EventType, Turn, Store, find_turn, turn_has_id, is_terminal}
use agent_waypoint.History.{is_unfinished}
use agent_waypoint.History.Project.{
  Kind, kind_of, end_turn, ended_turn, end_status, is_failure, version_two, project_assistant,
  item_of, project_kind, is_other, project,
}
use agent_waypoint.History.Frames.{
  close_messages-SameRows, project_user-SameRows, project_assistant-rows,
}
use agent_waypoint.Turns.{Service, Action}
use agent_waypoint.Turns.Append.{
  append_rows, append, is_behind, with_cursor, stored_payload, new_event, write_event, move_cursor,
}
use agent_waypoint.Turns.Append.Frames.{append_rows-some, finish_event-SameRows}
use agent_waypoint.Turns.Requests.{is_active, is_active_of}

pub falsity : true ≡ false → ⊥
falsity e = cc

-- No session has more active turns than before.
abbrev pub Shrinks : List Turn → List Turn → Type 0
Shrinks ts us = (session : ℕ) → count (is_active_of session) us ≤ count (is_active_of session) ts

pub Shrinks-refl : (ts : List Turn) → Shrinks ts ts
Shrinks-refl ts session = omega arith

pub Shrinks-trans : (ts us vs : List Turn) → Shrinks ts us → Shrinks us vs → Shrinks ts vs
Shrinks-trans ts us vs h k session = le_trans (k session) (h session)

pub same-Shrinks : (ts us : List Turn) → us ≡ ts → Shrinks ts us
same-Shrinks ts us e = subst (Shrinks ts) (sym e) (Shrinks-refl ts)

-- A change of one turn that does not make it active.
pub update_first-Shrinks :
    (p : Turn → Bool) (f : Turn → Turn) (ts : List Turn)
    → ((t : Turn) → (f t).session_id ≡ t.session_id)
    → ((t : Turn) → find? p ts ≡ some t → is_active (f t) ≡ true → is_active t ≡ true)
    → Shrinks ts (update_first p f ts)
update_first-Shrinks p f [] h k session = omega arith
update_first-Shrinks p f (t ∷ ts) h k session = elim (Bool-cases (p t)) [
  | inl hit ↦ ground (arith, h t, k t (rw hit refl))
  | inr miss ↦
      let rest = update_first-Shrinks p f ts h (λ x e. k x (rw miss e)) session in
      ground (arith, rest)
]

end_status-terminal : (type : EventType) → not (is_terminal (end_status type)) ≡ false
end_status-terminal EventType.turn_completed = refl
end_status-terminal EventType.turn_cancelled = refl
end_status-terminal _ = refl

module _ (type : EventType) (payload : Fields) (now : ℕ) (t : Turn) where
  ended_turn-active : is_active (ended_turn type payload now t) ≡ false
  ended_turn-active = elim (Bool-cases (is_failure type)) [
    | inl fails ↦ rw (fails, ended_turn) (end_status-terminal type)
    | inr other ↦ rw (other, ended_turn) (end_status-terminal type)
  ]

  ended_turn-session : (ended_turn type payload now t).session_id ≡ t.session_id
  ended_turn-session = elim (Bool-cases (is_failure type)) [
    | inl fails ↦ rw (fails, ended_turn) refl
    | inr other ↦ rw (other, ended_turn) refl
  ]

module _ (turn seq : ℕ) (type : EventType) (payload : Fields) (now : ℕ) (db : Store) where
  end_turn-Shrinks : (t : Turn) → Shrinks db.turns (end_turn t type seq payload now db).0.turns
  unfolding end_turn
  end_turn-Shrinks t =
      let closed = close_messages-SameRows t seq (filter (is_unfinished t.id) db.messages) db in
      subst
        (λ ts. Shrinks db.turns (update_first (turn_has_id t.id) (ended_turn type payload now) ts))
        (sym closed.turns)
        (update_first-Shrinks (turn_has_id t.id) (ended_turn type payload now) db.turns
          (ended_turn-session type payload now)
          (λ x e k. absurd (falsity (sym k ∙ ended_turn-active type payload now x))))

  project_kind-Shrinks :
      (kind : Kind) (t : Turn) {r : Store × Json}
      → project_kind kind t type seq payload now db ≡ some r
      → Shrinks db.turns r.0.turns
  unfolding project_kind
  project_kind-Shrinks Kind.other t {r} e =
      let same : db ≡ r.0 = cc in rw (← same) (Shrinks-refl db.turns)
  project_kind-Shrinks Kind.turn_end t {r} e = elim (Bool-cases (t.history_version == 2)) [
    | inl two ↦
        let same : end_turn t type seq payload now db ≡ r = cc in rw (← same) (end_turn-Shrinks t)
    | inr one ↦ let same : db ≡ r.0 = cc in rw (← same) (Shrinks-refl db.turns)
  ]
  project_kind-Shrinks Kind.user_item t {r} e = elim (Option-cases (item_of payload)) [
    | inl gone ↦ cc
    | inr (item, there) ↦
        same-Shrinks db.turns r.0.turns
          (project_user-SameRows t item seq payload now db (rw (there, project_kind) at e)).turns
  ]
  project_kind-Shrinks Kind.assistant_item t {r} e = elim (Option-cases (item_of payload)) [
    | inl gone ↦ cc
    | inr (item, there) ↦
        let same : project_assistant t type item seq payload now db ≡ r = cc in
        rw (← same) (
          subst (Shrinks db.turns)
            (sym (project_assistant-rows t type item seq payload now db).turns)
            (update_first-Shrinks (turn_has_id t.id) version_two db.turns (λ x. refl)
              (λ x e' k. k)))
  ]

  project-Shrinks :
      {r : Store × Json}
      → project turn seq type payload now db ≡ some r
      → Shrinks db.turns r.0.turns
  unfolding project
  project-Shrinks {r} e = elim (Bool-cases (is_other (kind_of type payload))) [
    | inl nothing ↦ let same : db ≡ r.0 = cc in rw (← same) (Shrinks-refl db.turns)
    | inr some_ ↦ elim (Option-cases (find_turn turn db)) [
      | inl gone ↦ cc
      | inr (t, found) ↦
          let here : project_kind (kind_of type payload) t type seq payload now db ≡ some r = cc in
          project_kind-Shrinks (kind_of type payload) t {r = r} here
    ]
  ]

move_cursor-Shrinks :
    (turn : ℕ) (payload : Fields) (db : Store)
    → Shrinks db.turns (move_cursor turn payload db).turns
unfolding move_cursor
move_cursor-Shrinks turn payload db = elim (Option-cases (read_number (get "runnerSeq" payload))) [
  | inl silent ↦ rw (silent, move_cursor) (Shrinks-refl db.turns)
  | inr (n, told) ↦
      rw (told, move_cursor)
        (update_first-Shrinks (is_behind turn n) (with_cursor n) db.turns (λ t. refl) (λ t e k. k))
]

-- An action after which no session has more active turns.
abbrev pub Closes : Action → Type 0
Closes a = (s : Service) → Shrinks s.queue.db.turns (a s).0.queue.db.turns

pub append-Closes :
    (turn : ℕ) (type : EventType) (payload : Fields) (now : ℕ)
    → Closes (append turn type payload now)
unfolding append
append-Closes turn type payload now s =
    elim (Option-cases (append_rows turn type payload now s.queue.db)) [
      | inl fails ↦ rw (fails, append) (Shrinks-refl s.queue.db.turns)
      | inr (db, stored) ↦
          rw (stored, append)
            (let (r, projected, same) = append_rows-some turn type payload now s.queue.db stored in
              let e = new_event turn type (obj (stored_payload type payload)) s.queue.db in
              subst (Shrinks s.queue.db.turns)
                (sym (finish_event-SameRows e type payload r.1 r.0).turns ∙ ap (λ x. x.turns) same)
                (Shrinks-trans _ _ _ (move_cursor-Shrinks turn payload (write_event e s.queue.db))
                  (project-Shrinks turn e.seq type (stored_payload type payload) now _ projected)))
    ]
