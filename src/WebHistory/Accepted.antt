-- ===== src/WebHistory/Accepted.antt =====
-- apps/web/src/app/history-messages.ts: the inputs that are shown as accepted.
use agent_waypoint.Common.{
  ℕ, ◌≡◌, refl, sym, ap, ◌∙◌, arith, Bool, true, false, ◌&&◌, ◌||◌, List, [], ◌∷◌, ◌++◌, some, ◌==◌,
  map, find?, any, inl, inr, Bool-cases, Option-cases, subst, and-left, and_off, if_false,
}
use agent_waypoint.Common.Text.{Text, text_eq}
use agent_waypoint.Store.{InputStatus}
use agent_waypoint.WebHistory.{QueuedInput, HistoryEvent, insert, sort}
use agent_waypoint.WebHistory.Inputs.{
  is_same_input, is_accepted, is_queued, is_late, drop_first, input_before, merged_input,
  merge_input, unconfirmed, ends_turn, updates_input, accepts_input, accepted_input,
  apply_acceptance, apply_input_event,
}

module _ {ℓ} {A : Type ℓ} (p : A → Bool) where
  any-insert :
      (before : A → A → Bool) (x : A) (xs : List A) → any p (insert before x xs) ≡ (p x || any p xs)
  any-insert before x [] = refl
  any-insert before x (y ∷ ys) = ground (arith, any-insert before x ys)

  any-sort : (before : A → A → Bool) (xs : List A) → any p (sort before xs) ≡ any p xs
  any-sort before [] = refl
  any-sort before (x ∷ xs) =
      any-insert before x (sort before xs) ∙ ap (◌||◌ (p x)) (any-sort before xs)

  any-append : (xs ys : List A) → any p xs ≡ true → any p (xs ++ ys) ≡ true
  any-append [] ys h = absurd cc
  any-append (x ∷ xs) ys h = ground (arith, any-append xs ys)

  any-drop_first :
      (q : A → Bool) (xs : List A) {y : A}
      → find? q xs ≡ some y
      → p y ≡ false
      → any p xs ≡ true
      → any p (drop_first q xs) ≡ true
  any-drop_first q [] e h k = absurd cc
  any-drop_first q (x ∷ xs) {y} e h k = elim (Bool-cases (q x)) [
    | inl hit ↦ let same : x ≡ y = ground arith in rw hit (rw (same, h) at k)
    | inr miss ↦ ground (arith, any-drop_first q xs {y = y})
  ]

  any-map :
      (f : A → A) (xs : List A)
      → ((x : A) → p x ≡ true → p (f x) ≡ true)
      → any p xs ≡ true
      → any p (map f xs) ≡ true
  any-map f [] k h = absurd cc
  any-map f (x ∷ xs) k h = ground (arith, k x, any-map f xs k)

-- An input of a turn that is shown as accepted.
abbrev pub is_accepted_of : ℕ → Text → QueuedInput → Bool
is_accepted_of turn client i =
    is_accepted i.status && (i.turn_id == turn && text_eq i.client_request_id client)

accepted_not_queued : (st : InputStatus) → is_accepted st ≡ true → is_queued st ≡ false
accepted_not_queued InputStatus.accepted h = refl
accepted_not_queued InputStatus.queued h = absurd cc
accepted_not_queued InputStatus.failed h = absurd cc
accepted_not_queued InputStatus.unconfirmed h = absurd cc

module _ (turn : ℕ) (client : Text) where
  merge_input-accepted :
      (current : List QueuedInput) (input : QueuedInput)
      → any (is_accepted_of turn client) current ≡ true
      → any (is_accepted_of turn client) (merge_input current input) ≡ true
  unfolding merge_input
  merge_input-accepted current input h =
      let p = is_accepted_of turn client in
      elim (Option-cases (find? (is_same_input input) current)) [
        | inl new ↦
            rw (new, merge_input)
              (any-sort p input_before (current ++ input ∷ [])
                ∙ any-append p current (input ∷ []) h)
        | inr (previous, found) ↦ elim (Bool-cases (is_late previous.status input.status)) [
          | inl late ↦ rw (found, merge_input, late) h
          | inr early ↦
              let open_ : is_accepted previous.status ≡ false = ground arith in
              rw (found, merge_input, early)
                (any-sort p input_before
                    (drop_first (is_same_input input) current ++ merged_input input previous ∷ [])
                  ∙ any-append p (drop_first (is_same_input input) current) _
                      (any-drop_first p (is_same_input input) current found (rw open_ refl) h))
        ]
      ]

  unconfirmed-accepted :
      (ended : ℕ) (i : QueuedInput)
      → is_accepted_of turn client i ≡ true
      → is_accepted_of turn client (unconfirmed ended i) ≡ true
  unconfirmed-accepted ended i h =
      let open_ : is_queued i.status ≡ false = accepted_not_queued i.status (and-left _ _ h) in
      let same : unconfirmed ended i ≡ i =
        if_false (i.turn_id == ended && is_queued i.status) _ i
          (and_off (i.turn_id == ended) _ open_) in
      subst (λ x. is_accepted_of turn client x ≡ true) (sym same) h

  apply_acceptance-accepted :
      (current : List QueuedInput) (e : HistoryEvent)
      → any (is_accepted_of turn client) current ≡ true
      → any (is_accepted_of turn client) (apply_acceptance current e) ≡ true
  apply_acceptance-accepted current e h = elim (Bool-cases (accepts_input e.type)) [
    | inr other ↦ rw (other, apply_acceptance) h
    | inl accepts ↦ elim (Option-cases e.client_request_id) [
      | inl gone ↦ rw (accepts, apply_acceptance, gone) h
      | inr (id, known) ↦
          rw (accepts, apply_acceptance, known)
            (merge_input-accepted current (accepted_input e id) h)
    ]
  ]

  -- An input that is shown as accepted stays so, whatever event arrives, however late.
  pub apply_input_event-accepted :
      (current : List QueuedInput) (e : HistoryEvent)
      → any (is_accepted_of turn client) current ≡ true
      → any (is_accepted_of turn client) (apply_input_event current e) ≡ true
  unfolding apply_input_event
  apply_input_event-accepted current e h = elim (Bool-cases (ends_turn e.type)) [
    | inl ends_ ↦
        rw (ends_, apply_input_event)
          (any-map (is_accepted_of turn client) (unconfirmed e.turn_id) current
            (unconfirmed-accepted e.turn_id) h)
    | inr on ↦ elim (Bool-cases (updates_input e.type)) [
      | inr other ↦ rw (on, apply_input_event, other) (apply_acceptance-accepted current e h)
      | inl updates ↦ elim (Option-cases e.input) [
        | inl gone ↦ rw (on, apply_input_event, updates, gone) h
        | inr (input, there) ↦
            rw (on, apply_input_event, updates, there) (merge_input-accepted current input h)
      ]
    ]
  ]
