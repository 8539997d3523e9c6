-- ===== src/Turns/Ingest/Replays.antt =====
-- apps/api/src/modules/turns/turns.service.ts: deltas of the assistant that the runner sends again.
use agent_waypoint.Common.{
  ℕ, ◌≡◌, refl, sym, subst, ap, ◌∙◌, arith, true, false, List, [], ◌∷◌, Option, none, some,
  if◌then◌else◌, ◌==◌, ==_refl, ==_iff, and-left, and_false, find?, any, inl, inr, Bool-cases,
  Option-cases, get_or, All, find?-test,
}
use agent_waypoint.Common.Text.{Text}
use agent_waypoint.Common.Json.{
  ℤ, pos, Json, num, Fields, get, put, get-put, read_string, read_number, is_true,
}
use agent_waypoint.Store.{EventType, Turn, TurnStatus, find_turn, turn_has_id, is_terminal}
use agent_waypoint.History.Frames.{status_of}
use agent_waypoint.TurnConfig.{TextField, merge_text, carry_seq, is_num, coalesced_field}
use agent_waypoint.Turns.{
  Key, last_write, text_key, key_eq, text_key_of, Pending, Service, Fault, Action, and_then,
}
use agent_waypoint.Turns.Append.{
  has_key, merge_pending, new_pending, upsert_coalesced, coalesce_text, coalesce, is_pending_of,
  with_pending,
}
use agent_waypoint.Turns.Ingest.{
  is_replay, flush_boundary, seq_field, item_field, text_payload, coalesce_or_append, take_delta,
  handle_active, handle, ingest,
}
use agent_waypoint.Turns.Ingest.Keeps.{Waits, turn_of, IsSound}
use agent_waypoint.Turns.Ingest.Sound.{flush_boundary-Keeps}
use agent_waypoint.Turns.Ingest.Ended.{Same, flush_boundary-Leaves}
use agent_waypoint.Turns.Ingest.Cursor.{told, Reaches, Reaches-append, Reaches-update}

module _ (payload : Fields) {n : ℤ}
    (numbered : read_number (get "runnerSeq" payload) ≡ some n) where
  seq_field-number : read_number (get "runnerSeq" (seq_field payload)) ≡ some n
  unfolding read_number get
  seq_field-number = rw (numbered, seq_field) refl

  item_field-number :
      read_number (get "runnerSeq" (item_field payload (seq_field payload))) ≡ some n
  unfolding read_number get
  item_field-number = elim (Option-cases (read_string (get "itemId" payload))) [
    | inl plain ↦ rw (plain, item_field) seq_field-number
    | inr (item, there) ↦ rw (there, item_field) seq_field-number
  ]

  text_payload-number : (w : Text) → read_number (get "runnerSeq" (text_payload w payload)) ≡ some n
  unfolding get
  text_payload-number w = item_field-number

  carried-number :
      (v : Option Json) (existing : Fields)
      → read_number v ≡ some n
      → read_number (
          get "runnerSeq" (elim v [
            | none ↦ existing
            | some w ↦ if is_num w then put "runnerSeq" w existing else existing
          ]))
        ≡ some n
  unfolding read_number
  carried-number (some (num m)) existing e = rw (get-put "runnerSeq" "runnerSeq" (num m) existing) e
  carried-number _ existing e = absurd cc

  merge_text-number :
      (w : Text) (existing : Fields)
      → read_number
          (get "runnerSeq" (merge_text TextField.text_field existing (text_payload w payload)))
        ≡ some n
  unfolding merge_text
  merge_text-number w existing =
      ap read_number (get-put "runnerSeq" "text" _ (carry_seq (text_payload w payload) existing))
      ∙ carried-number (get "runnerSeq" (text_payload w payload)) existing (text_payload-number w)

key_eq-turn : (a b : Key) → key_eq a b ≡ true → turn_of a ≡ turn_of b
unfolding key_eq
key_eq-turn (last_write t x) (last_write u y) e = ground arith
key_eq-turn (last_write t x) (text_key u y f m) e = absurd cc
key_eq-turn (text_key t x f m) (last_write u y) e = absurd cc
key_eq-turn (text_key t x f m) (text_key u y g k) e =
    (==_iff t u).0 (and-left (t == u) _ (and-left _ _ (and-left _ _ e)))

module _ (t : Turn) (payload : Fields) (now : ℕ) {n : ℤ}
    (numbered : read_number (get "runnerSeq" payload) ≡ some n) where
  abbrev IsMerged : Text → Pending → Type 0
  IsMerged w p =
      (is_pending_of t.id p ≡ true)
      × (told (merge_pending TextField.text_field (text_payload w payload) p) ≡ n)

  merged :
      (w : Text) (ps : List Pending)
      → All Waits ps
      → All
          (λ p.
            has_key
                (text_key_of t.id EventType.assistant_delta
                  (text_payload w payload)
                  TextField.text_field)
                p
              ≡ true
            → IsMerged w p)
          ps
  merged w [] h = tt
  merged w (p ∷ ps) h = (
    (λ hit. (
      rw (sym h.0.1 ∙ key_eq-turn p.key _ hit) (==_refl t.id),
      ap (λ o. get_or o (pos 0)) (merge_text-number payload numbered w p.payload),
    )),
    merged w ps h.1,
  )

  -- A batch that takes a delta has been told up to its number.
  coalesce_text-Reaches :
      (w : Text) (ps : List Pending)
      → All Waits ps
      → Reaches t.id n (
          coalesce_text t.id EventType.assistant_delta
            (text_payload w payload)
            TextField.text_field
            ps)
  unfolding coalesce_text upsert_coalesced
  coalesce_text-Reaches w ps h =
      let delta = text_payload w payload in
      let key = text_key_of t.id EventType.assistant_delta delta TextField.text_field in
      elim (Bool-cases (any (has_key key) ps)) [
        | inl known ↦
            rw (known, coalesce_text)
              (Reaches-update t.id n (has_key key) (merge_pending TextField.text_field delta) ps
                known (merged w ps h))
        | inr new ↦
            rw (new, coalesce_text, upsert_coalesced)
              (Reaches-append t.id n ps (new_pending key t.id EventType.assistant_delta delta)
                (==_refl t.id)
                (ap (λ o. get_or o (pos 0)) (text_payload-number payload numbered w)))
      ]

  coalesced :
      (w : Text) (s : Service)
      → coalesce_or_append t.id EventType.assistant_delta (text_payload w payload) now s ≡ (
        with_pending
            (coalesce_text t.id EventType.assistant_delta
              (text_payload w payload)
              TextField.text_field
              s.pending)
            s,
        none,
      )
  unfolding coalesce_or_append coalesce coalesced_field read_string get
  coalesced w s = refl

  -- A delta that is taken well waits in a batch that has been told up to its number.
  took :
      (u : Service)
      → is_true (get "isReasoning" payload) ≡ false
      → All Waits u.pending
      → (take_delta t payload now u).1 ≡ none
      → (ps : List Pending) × Reaches t.id n ps
        × (take_delta t payload now u ≡ (with_pending ps u, none))
  unfolding take_delta
  took u spoken h e = elim (Option-cases (read_string (get "text" payload))) [
    | inl gone ↦
        let wrong : ◌≡◌ {A = Option Fault} (some Fault.conflict) none =
          rw (spoken, take_delta, gone) at e in
        absurd cc
    | inr ([], there) ↦
        let wrong : ◌≡◌ {A = Option Fault} (some Fault.conflict) none =
          rw (spoken, take_delta, there) at e in
        absurd cc
    | inr (c ∷ w, there) ↦ (
      coalesce_text t.id EventType.assistant_delta (text_payload (c ∷ w) payload)
          TextField.text_field u.pending,
      coalesce_text-Reaches (c ∷ w) u.pending h,
      rw (spoken, take_delta, there) (coalesced (c ∷ w) u),
    )
  ]

and_then-none :
    (b : Action) (r : Service × Option Fault)
    → (and_then b r).1 ≡ none
    → (b r.0).1 ≡ none × (and_then b r ≡ b r.0)
and_then-none b (s, none) e = (e, refl)
and_then-none b (s, some f) e = absurd cc

handle-delta :
    (t : Turn) (payload : Fields) (now : ℕ) (s : Service)
    → is_terminal t.status ≡ false
    → handle t EventType.assistant_delta payload now s ≡ take_delta t payload now s
unfolding handle handle_active
handle-delta t payload now s open_ = rw (open_, handle, and_false (t.history_version == 2)) refl

-- A number that has been reached is a replay, and changes nothing.
again :
    (turn : ℕ) (payload : Fields) (later : ℕ) (s : Service) {t : Turn} {n : ℤ}
    → find_turn turn s.queue.db ≡ some t
    → read_number (get "runnerSeq" payload) ≡ some n
    → Reaches t.id n s.pending
    → ingest turn EventType.assistant_delta payload later s ≡ (s, none)
unfolding ingest is_replay
again turn payload later s {t} found numbered reaches =
    rw (found, ingest, numbered, is_replay, reaches t.runner_cursor) refl

still_found :
    (turn : ℕ) (s u : Service) {t : Turn}
    → Same s u
    → find_turn turn s.queue.db ≡ some t
    → (t' : Turn) × (find_turn turn u.queue.db ≡ some t')
still_found turn s u {t} same found = elim (Option-cases (find_turn turn u.queue.db)) [
  | inr there ↦ there
  | inl gone ↦
      let wrong : ◌≡◌ {A = Option TurnStatus} (status_of none) (status_of (some t)) =
        ap status_of (sym gone) ∙ same turn ∙ ap status_of found in
      absurd cc
]

known_replay :
    (turn : ℕ) (payload : Fields) (now : ℕ) (s : Service) {t : Turn}
    → find_turn turn s.queue.db ≡ some t
    → is_replay t payload s ≡ true
    → ingest turn EventType.assistant_delta payload now s ≡ (s, none)
unfolding ingest
known_replay turn payload now s found known = rw (found, ingest, known) refl

new_delta :
    (turn : ℕ) (payload : Fields) (now : ℕ) (s : Service) {t : Turn}
    → find_turn turn s.queue.db ≡ some t
    → is_replay t payload s ≡ false
    → is_terminal t.status ≡ false
    → ingest turn EventType.assistant_delta payload now s
      ≡ and_then
          (take_delta t payload now)
          (flush_boundary turn EventType.assistant_delta payload now s)
unfolding ingest
new_delta turn payload now s {t} found new open_ =
    rw (found, ingest, new)
      (ap (λ b. and_then b (flush_boundary turn EventType.assistant_delta payload now s))
        (λ i u. handle-delta t payload now u open_ i))

same_id :
    (turn : ℕ) (ts us : List Turn) {t u : Turn}
    → find? (turn_has_id turn) ts ≡ some t
    → find? (turn_has_id turn) us ≡ some u
    → t.id ≡ u.id
same_id turn ts us {t} {u} e f =
    (==_iff t.id turn).0 (find?-test (turn_has_id turn) ts e)
    ∙ sym ((==_iff u.id turn).0 (find?-test (turn_has_id turn) us f))

-- A delta of the assistant that has a number, for a turn that goes on, and that was ingested without an exception:
-- sent again, it is recognised and changes nothing, whatever text had to be stored before it.
pub ingest_again :
    (turn : ℕ) (payload : Fields) (now later : ℕ) (s : Service) {t : Turn} {n : ℤ}
    → IsSound s
    → find_turn turn s.queue.db ≡ some t
    → is_terminal t.status ≡ false
    → is_true (get "isReasoning" payload) ≡ false
    → read_number (get "runnerSeq" payload) ≡ some n
    → (ingest turn EventType.assistant_delta payload now s).1 ≡ none
    → ingest turn EventType.assistant_delta payload later
        (ingest turn EventType.assistant_delta payload now s).0
      ≡ ((ingest turn EventType.assistant_delta payload now s).0, none)
ingest_again turn payload now later s {t} {n} v found open_ spoken numbered e =
    elim (Bool-cases (is_replay t payload s)) [
      | inl known ↦
          subst (λ r. ingest turn EventType.assistant_delta payload later r.0 ≡ (r.0, none))
            (sym (known_replay turn payload now s found known))
            (known_replay turn payload later s found known)
      | inr new ↦
          let r = flush_boundary turn EventType.assistant_delta payload now s in
          let first = new_delta turn payload now s found new open_ in
          let (well, same) =
            and_then-none (take_delta t payload now) r (ap (λ x. x.1) (sym first) ∙ e) in
          let sound = flush_boundary-Keeps turn EventType.assistant_delta payload now s v in
          let (ps, reaches, taken) = took t payload now numbered r.0 spoken sound.waiting well in
          let (t', found') =
            still_found turn s r.0
              (flush_boundary-Leaves turn EventType.assistant_delta payload now s v) found in
          subst (λ x. ingest turn EventType.assistant_delta payload later x.0 ≡ (x.0, none))
            (sym (first ∙ same ∙ taken))
            (again turn payload later (with_pending ps r.0) found' numbered (
              subst (λ id. Reaches id n ps)
                (same_id turn s.queue.db.turns r.0.queue.db.turns found found') reaches))
    ]
