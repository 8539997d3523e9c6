-- ===== src/WebHistory/Replays.antt =====
-- apps/web/src/app/history-messages.ts: deltas that are applied again, as when the stream of events is opened anew.
use agent_waypoint.Common.{
  ◌≡◌, refl, sym, ap, ◌∙◌, arith, Bool, true, false, not, ◌&&◌, List, [], ◌∷◌, none, if◌then◌else◌,
  ltb, map, inl, inr, Bool-cases, All, All-map, is_some, subst, if_true, if_false, and_off,
  and-right,
}
use agent_waypoint.WebHistory.{
  ChatMessage, HistoryEvent, last_seq, is_delta, is_told, grown, apply_delta, snapshot_from,
  extended, apply_found, apply_event,
}

-- An event without messages of its own.
abbrev pub IsPlain : HistoryEvent → Type 0
IsPlain e = (e.message ≡ none) × (e.messages ≡ none)

unfoldable pub apply_all : List HistoryEvent → List ChatMessage → List ChatMessage
unfolding apply_event
apply_all [] ms = ms
apply_all (e ∷ es) ms = apply_all es (apply_event ms e)

-- Whether an event adds to messages.
abbrev adds : HistoryEvent → Bool
adds e = not e.ignored && (is_delta e.type && is_some e.item_id)

abbrev acts : HistoryEvent → ChatMessage → Bool
acts e m = adds e && is_told e m

abbrev effect : HistoryEvent → ChatMessage → ChatMessage
effect e m = if acts e m then extended e m else m

-- The event changes the message no more.
abbrev IsQuiet : HistoryEvent → ChatMessage → Type 0
IsQuiet e m = acts e m ≡ false

effect-fixed : (e : HistoryEvent) (m : ChatMessage) → IsQuiet e m → effect e m ≡ m
effect-fixed e m h = if_false (acts e m) (extended e m) m h

map-fixed :
    (f : ChatMessage → ChatMessage) (ms : List ChatMessage) → All (λ m. f m ≡ m) ms → map f ms ≡ ms
map-fixed f [] h = refl
map-fixed f (m ∷ ms) h = λ i. h.0 i ∷ map-fixed f ms h.1 i

map-alike :
    (f g : ChatMessage → ChatMessage) (ms : List ChatMessage)
    → ((m : ChatMessage) → f m ≡ g m)
    → map f ms ≡ map g ms
map-alike f g ms h = λ i. map (λ m. h m i) ms

All-any : (P : ChatMessage → Type 0) (ms : List ChatMessage) → ((m : ChatMessage) → P m) → All P ms
All-any P [] h = tt
All-any P (m ∷ ms) h = (h m, All-any P ms h)

idle-effect : (e : HistoryEvent) (ms : List ChatMessage) → adds e ≡ false → map (effect e) ms ≡ ms
idle-effect e ms idle =
    map-fixed (effect e) ms
      (All-any (λ m. effect e m ≡ m) ms (λ m. effect-fixed e m (ap (λ b. b && is_told e m) idle)))

kept-effect :
    (e : HistoryEvent) (ms : List ChatMessage)
    → e.ignored ≡ false
    → apply_delta ms e ≡ map (effect e) ms
kept-effect e ms kept = elim (Bool-cases (is_delta e.type && is_some e.item_id)) [
  | inr other ↦
      if_false (is_delta e.type && is_some e.item_id) _ ms other
      ∙ sym (idle-effect e ms (and_off (not e.ignored) _ other))
  | inl delta ↦
      let adding : adds e ≡ true =
        ap (λ b. not b && (is_delta e.type && is_some e.item_id)) kept ∙ delta in
      if_true (is_delta e.type && is_some e.item_id) _ ms delta
      ∙ map-alike (grown e) (effect e) ms
          (λ m. ap (λ a. if a && is_told e m then extended e m else m) (sym adding))
]

-- What such an event does, message by message.
apply_event-plain :
    (e : HistoryEvent) (ms : List ChatMessage) → IsPlain e → apply_event ms e ≡ map (effect e) ms
unfolding apply_event apply_found
apply_event-plain e ms plain = elim (Bool-cases e.ignored) [
  | inl skipped ↦
      if_true e.ignored ms _ skipped
      ∙ sym (idle-effect e ms (ap (λ b. not b && (is_delta e.type && is_some e.item_id)) skipped))
  | inr kept ↦
      if_false e.ignored ms _ kept
      ∙ (λ i. apply_found ms e (snapshot_from e (plain.0 i)) (plain.1 i))
      ∙ kept-effect e ms kept
]

grown-IsQuiet : (e : HistoryEvent) (m : ChatMessage) → IsQuiet e (extended e m)
grown-IsQuiet e m =
    let irreflexive : ltb e.seq e.seq ≡ false = ground arith in
    and_off (adds e) _ (and_off _ (ltb e.seq e.seq) irreflexive)

effect-IsQuiet : (e : HistoryEvent) (m : ChatMessage) → IsQuiet e (effect e m)
effect-IsQuiet e m = elim (Bool-cases (acts e m)) [
  | inl acting ↦
      subst (IsQuiet e) (sym (if_true (acts e m) (extended e m) m acting)) (grown-IsQuiet e m)
  | inr quiet ↦ subst (IsQuiet e) (sym (effect-fixed e m quiet)) quiet
]

weaker :
    (a b x y : Bool) → (y ≡ true → x ≡ true) → (a && (b && x)) ≡ false → (a && (b && y)) ≡ false
weaker false b x y k h = refl
weaker true false x y k h = refl
weaker true true x false k h = refl
weaker true true x true k h = sym (k refl) ∙ h

-- An event that changes a message no more does not do so either after another.
effect-keeps : (d e : HistoryEvent) (m : ChatMessage) → IsQuiet d m → IsQuiet d (effect e m)
effect-keeps d e m h = elim (Bool-cases (acts e m)) [
  | inr quiet ↦ subst (IsQuiet d) (sym (effect-fixed e m quiet)) h
  | inl acting ↦
      let newer : ltb (last_seq m) e.seq ≡ true = and-right _ _ (and-right (adds e) _ acting) in
      subst (IsQuiet d) (sym (if_true (acts e m) (extended e m) m acting))
        (weaker (adds d) _ (ltb (last_seq m) d.seq) (ltb e.seq d.seq) (λ later. ground arith) h)
]

abbrev AllQuiet : List ChatMessage → HistoryEvent → Type 0
AllQuiet ms e = All (IsQuiet e) ms

All-effect : (e : HistoryEvent) (ms : List ChatMessage) → AllQuiet (map (effect e) ms) e
All-effect e [] = tt
All-effect e (m ∷ ms) = (effect-IsQuiet e m, All-effect e ms)

effect-AllQuiet :
    (d e : HistoryEvent) (ms : List ChatMessage) → AllQuiet ms d → AllQuiet (map (effect e) ms) d
effect-AllQuiet d e [] h = tt
effect-AllQuiet d e (m ∷ ms) h = (effect-keeps d e m h.0, effect-AllQuiet d e ms h.1)

apply_all-AllQuiet :
    (d : HistoryEvent) (es : List HistoryEvent) (ms : List ChatMessage)
    → All IsPlain es
    → AllQuiet ms d
    → AllQuiet (apply_all es ms) d
unfolding apply_all
apply_all-AllQuiet d [] ms plain h = h
apply_all-AllQuiet d (e ∷ es) ms plain h =
    apply_all-AllQuiet d es (apply_event ms e) plain.1 (
      subst (λ us. AllQuiet us d) (sym (apply_event-plain e ms plain.0)) (effect-AllQuiet d e ms h))

applied-AllQuiet :
    (es : List HistoryEvent) (ms : List ChatMessage)
    → All IsPlain es
    → All (AllQuiet (apply_all es ms)) es
unfolding apply_all
applied-AllQuiet [] ms plain = tt
applied-AllQuiet (e ∷ es) ms plain = (
  apply_all-AllQuiet e es (apply_event ms e) plain.1
      (subst (λ us. AllQuiet us e) (sym (apply_event-plain e ms plain.0)) (All-effect e ms)),
  applied-AllQuiet es (apply_event ms e) plain.1,
)

quiet-fixed :
    (es : List HistoryEvent) (ms : List ChatMessage)
    → All IsPlain es
    → All (AllQuiet ms) es
    → apply_all es ms ≡ ms
unfolding apply_all
quiet-fixed [] ms plain h = refl
quiet-fixed (e ∷ es) ms plain h =
    let same : apply_event ms e ≡ ms =
      apply_event-plain e ms plain.0
      ∙ map-fixed (effect e) ms
          (All-map (IsQuiet e) (λ m. effect e m ≡ m) ms (effect-fixed e) h.0) in
    ap (apply_all es) same ∙ quiet-fixed es ms plain.1 h.1

-- Events without messages of their own, deltas above all, that arrive once more, all of them and in the same order, as
-- when a stream is opened again: the messages stay as the first time left them, so no text is shown twice.
pub apply_all_again :
    (es : List HistoryEvent) (ms : List ChatMessage)
    → All IsPlain es
    → apply_all es (apply_all es ms) ≡ apply_all es ms
apply_all_again es ms plain = quiet-fixed es (apply_all es ms) plain (applied-AllQuiet es ms plain)
