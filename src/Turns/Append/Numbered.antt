-- ===== src/Turns/Append/Numbered.antt =====
-- apps/api/src/modules/turns/turns.service.ts: the numbers that `appendEventNow` gives to the events of a turn.
use agent_waypoint.Common.{
  ℕ, zero, suc, ◌+◌, ◌≡◌, refl, sym, subst, ap, ◌∙◌, arith, Bool, List, [], ◌∷◌, ◌++◌, some,
  if◌then◌else◌, ◌==◌, max, update_first, inl, inr, Bool-cases, Option-cases, count,
  count-update_first,
}
use agent_waypoint.Common.Json.{Fields, obj}
use agent_waypoint.Store.{EventType, Event, Store, latest_seq}
use agent_waypoint.History.Frames.{project-events}
use agent_waypoint.Turns.{Service}
use agent_waypoint.Turns.Append.Frames.{append_rows-some, finish_event-SameRows, move_cursor-events}
use agent_waypoint.Turns.Append.{
  append_rows, append, stored_payload, new_event, write_event, has_event_id, with_payload,
}

abbrev pub is_event_of : ℕ → Event → Bool
is_event_of turn e = e.turn_id == turn

-- The numbers of a turn's events, in their order.
abbrev pub seqs : ℕ → List Event → List ℕ
seqs turn [] = []
seqs turn (e ∷ es) = if is_event_of turn e then e.seq ∷ seqs turn es else seqs turn es

-- 1, 2, … n.
abbrev pub up_to : ℕ → List ℕ
up_to zero = []
up_to (suc n) = up_to n ++ suc n ∷ []

-- The events of each turn have the numbers from 1 on, without a gap, in the order in which they were stored.
unfoldable pub IsNumbered : List Event → Type 0
IsNumbered es = (turn : ℕ) → seqs turn es ≡ up_to (count (is_event_of turn) es)

abbrev greatest : List ℕ → ℕ
greatest [] = 0
greatest (n ∷ ns) = max n (greatest ns)

latest_seq-greatest : (turn : ℕ) (es : List Event) → latest_seq turn es ≡ greatest (seqs turn es)
latest_seq-greatest turn [] = refl
latest_seq-greatest turn (e ∷ es) = ground (arith, latest_seq-greatest turn es)

greatest-append : (ns : List ℕ) (n : ℕ) → greatest (ns ++ n ∷ []) ≡ max (greatest ns) n
greatest-append [] n = omega arith
greatest-append (m ∷ ns) n = omega (arith, greatest-append ns n)

greatest-up_to : (n : ℕ) → greatest (up_to n) ≡ n
greatest-up_to zero = refl
greatest-up_to (suc n) = omega (arith, greatest-append (up_to n) (suc n), greatest-up_to n)

seqs-append :
    (turn : ℕ) (es : List Event) (e : Event)
    → seqs turn (es ++ e ∷ [])
      ≡ (if is_event_of turn e then seqs turn es ++ e.seq ∷ [] else seqs turn es)
seqs-append turn [] e = refl
seqs-append turn (x ∷ es) e = ground (arith, seqs-append turn es e)

count-last :
    (turn : ℕ) (es : List Event) (e : Event)
    → count (is_event_of turn) (es ++ e ∷ []) ≡ (
        if is_event_of turn e
        then suc (count (is_event_of turn) es)
        else count (is_event_of turn) es)
count-last turn [] e = refl
count-last turn (x ∷ es) e = ground (arith, count-last turn es e)

-- The next event of a turn takes the next number.
pub next-IsNumbered :
    (es : List Event) (e : Event)
    → e.seq ≡ latest_seq e.turn_id es + 1
    → IsNumbered es
    → IsNumbered (es ++ e ∷ [])
unfolding IsNumbered
next-IsNumbered es e next h turn = elim (Bool-cases (is_event_of turn e)) [
  | inr other ↦ ground (arith, seqs-append turn es e, count-last turn es e, h turn)
  | inl own ↦
      let same : e.turn_id ≡ turn = ground arith in
      let latest : latest_seq turn es ≡ count (is_event_of turn) es =
        latest_seq-greatest turn es ∙ ap greatest (h turn) ∙ greatest-up_to _ in
      let number : e.seq ≡ suc (count (is_event_of turn) es) =
        omega (arith, latest, rw same at next) in
      rw (seqs-append turn es e, count-last turn es e, own, number)
        (ap (λ ns. ns ++ suc (count (is_event_of turn) es) ∷ []) (h turn))
]

seqs-update_first :
    (turn : ℕ) (p : Event → Bool) (f : Event → Event) (es : List Event)
    → ((e : Event) → (f e).turn_id ≡ e.turn_id)
    → ((e : Event) → (f e).seq ≡ e.seq)
    → seqs turn (update_first p f es) ≡ seqs turn es
seqs-update_first turn p f [] k l = refl
seqs-update_first turn p f (e ∷ es) k l =
    ground (arith, k e, l e, seqs-update_first turn p f es k l)

-- A change that leaves the turn and the number of an event leaves the numbers.
pub update_first-IsNumbered :
    (p : Event → Bool) (f : Event → Event) (es : List Event)
    → ((e : Event) → (f e).turn_id ≡ e.turn_id)
    → ((e : Event) → (f e).seq ≡ e.seq)
    → IsNumbered es
    → IsNumbered (update_first p f es)
unfolding IsNumbered
update_first-IsNumbered p f es k l h turn =
    seqs-update_first turn p f es k l
    ∙ h turn
    ∙ ap up_to (sym (count-update_first (is_event_of turn) p f es (λ e. ap (λ n. n == turn) (k e))))

append_rows-IsNumbered :
    (turn : ℕ) (type : EventType) (payload : Fields) (now : ℕ) (db : Store) {db' : Store}
    → append_rows turn type payload now db ≡ some db'
    → IsNumbered db.events
    → IsNumbered db'.events
append_rows-IsNumbered turn type payload now db stored h =
    let (r, projected, same) = append_rows-some turn type payload now db stored in
    let e = new_event turn type (obj (stored_payload type payload)) db in
    let moved =
      project-events turn e.seq type _ now _ projected
      ∙ move_cursor-events turn payload (write_event e db) in
    subst IsNumbered
      (sym (finish_event-SameRows e type payload r.1 r.0).events ∙ ap (λ x. x.events) same)
      (update_first-IsNumbered (has_event_id e.id) (with_payload r.1) r.0.events (λ x. refl)
        (λ x. refl) (subst IsNumbered (sym moved) (next-IsNumbered db.events e refl h)))

-- Storing an event keeps the numbers of each turn's events: from 1 on, in the order of the events, without a gap.
pub append-IsNumbered :
    (turn : ℕ) (type : EventType) (payload : Fields) (now : ℕ) (s : Service)
    → IsNumbered s.queue.db.events
    → IsNumbered (append turn type payload now s).0.queue.db.events
unfolding append
append-IsNumbered turn type payload now s h =
    elim (Option-cases (append_rows turn type payload now s.queue.db)) [
      | inl fails ↦ rw (fails, append) h
      | inr (db, stored) ↦
          rw (stored, append) (append_rows-IsNumbered turn type payload now s.queue.db stored h)
    ]
