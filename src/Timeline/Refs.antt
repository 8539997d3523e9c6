-- ===== src/Timeline/Refs.antt =====
-- apps/api/src/modules/turns/timeline-event-payload.ts: references that are built are read back.
use mathlib.Core.List.{reverse, reverse-cons, reverse-reverse, reverse-append}
use agent_waypoint.Common.{
  ℕ, ◌+◌, ◌≡◌, ◌≢◌, refl, sym, ap, ◌∙◌, true, false, List, [], ◌∷◌, ◌++◌, Option, none, some, arith,
  inl, inr, ◌==◌, ltb, leb, length, take, drop, All, Bool-cases, Option-cases, is_some, ◌⊎◌,
}
use agent_waypoint.Common.Text.{Text, text_eq, trim, trim_start, is_space, index_of-append}
use agent_waypoint.Common.Json.{Json, str, Fields, get}
use agent_waypoint.Timeline.{
  ToolDetailRefKind, kind_text, read_kind, colon, non_empty, read_trimmed, read_first_trimmed,
  get_in, build_detail_ref, read_ref, parse_detail_ref, ref_keys, first_ref, explicit_ref,
  resolve_detail_ref, max_tool_detail_ref_length,
}

take-length : (s t : Text) → take (length s) (s ++ t) ≡ s
take-length [] [] = refl
take-length [] (c ∷ t) = refl
take-length (c ∷ s) t = ap (◌∷◌ c) (take-length s t)

drop-length : (s t : Text) (c : ℕ) → drop (length s + 1) (s ++ c ∷ t) ≡ t
drop-length [] t c = ground arith
drop-length (d ∷ s) t c = ground (arith, drop-length s t c)

no_colon : (kind : ToolDetailRefKind) → All (λ c. c ≢ colon) (kind_text kind)
no_colon ToolDetailRefKind.call = ground arith
no_colon ToolDetailRefKind.item = ground arith
no_colon ToolDetailRefKind.tool = ground arith
no_colon ToolDetailRefKind.event = ground arith

read_kind-kind_text : (kind : ToolDetailRefKind) → read_kind (kind_text kind) ≡ some kind
unfolding text_eq
read_kind-kind_text ToolDetailRefKind.call = refl
read_kind-kind_text ToolDetailRefKind.item = refl
read_kind-kind_text ToolDetailRefKind.tool = refl
read_kind-kind_text ToolDetailRefKind.event = refl

kind_text-length : (kind : ToolDetailRefKind) → (length (kind_text kind) == 0) ≡ false
kind_text-length ToolDetailRefKind.call = refl
kind_text-length ToolDetailRefKind.item = refl
kind_text-length ToolDetailRefKind.tool = refl
kind_text-length ToolDetailRefKind.event = refl

read_ref-kind_text :
    (kind : ToolDetailRefKind) (value : Text)
    → non_empty value ≡ some value
    → read_ref (kind_text kind) value ≡ some (kind, value)
read_ref-kind_text kind value there = rw (there, read_ref, read_kind-kind_text kind) refl

-- A reference that is built from an identifier without white space at its ends is read back as that kind and
-- identifier.
pub parse_detail_ref-build_detail_ref :
    (kind : ToolDetailRefKind) (value : Text) {r : Text}
    → trim value ≡ value
    → non_empty value ≡ some value
    → build_detail_ref kind value ≡ some r
    → parse_detail_ref r ≡ some (kind, value)
unfolding parse_detail_ref build_detail_ref
parse_detail_ref-build_detail_ref kind value {r} trimmed there e =
    elim (Bool-cases (leb (length (kind_text kind ++ colon ∷ value)) max_tool_detail_ref_length)) [
      | inr long ↦ absurd (ground arith)
      | inl short ↦
          let same : kind_text kind ++ colon ∷ value ≡ r = ground arith in
          let fits : ltb max_tool_detail_ref_length (length (kind_text kind ++ colon ∷ value))
              ≡ false =
            ground arith in
          rw
            (
              ← same,
              fits,
              index_of-append colon (kind_text kind) value (no_colon kind),
              kind_text-length kind,
              take-length (kind_text kind) (colon ∷ value),
              drop-length (kind_text kind) value colon,
              trimmed,
            )
            (read_ref-kind_text kind value there)
    ]

-- `trim` leaves nothing to trim.
trim_start-shape :
    (s : Text)
    → (trim_start s ≡ []) ⊎ ((c : ℕ) × (t : Text) × (is_space c ≡ false) × (trim_start s ≡ c ∷ t))
unfolding trim_start
trim_start-shape [] = inl refl
trim_start-shape (c ∷ s) = elim (Bool-cases (is_space c)) [
  | inl space ↦ rw space (trim_start-shape s)
  | inr word ↦ rw word (inr (c, s, word, refl))
]

trim_start-word : (c : ℕ) (s : Text) → is_space c ≡ false → trim_start (c ∷ s) ≡ c ∷ s
unfolding trim_start
trim_start-word c s word = ground arith

trim_start-snoc :
    (s : Text) (c : ℕ) → is_space c ≡ false → trim_start (s ++ c ∷ []) ≡ trim_start s ++ c ∷ []
unfolding trim_start
trim_start-snoc [] c word = ground arith
trim_start-snoc (d ∷ s) c word = ground (arith, trim_start-snoc s c word)

blank : trim_start [] ≡ []
unfolding trim_start
blank = refl

trim_start-trim_start : (s : Text) → trim_start (trim_start s) ≡ trim_start s
trim_start-trim_start s = elim (trim_start-shape s) [
  | inl gone ↦ ap trim_start gone ∙ blank ∙ sym gone
  | inr (c, t, word, e) ↦ ap trim_start e ∙ trim_start-word c t word ∙ sym e
]

trim-word :
    (s : Text) (c : ℕ) (t : Text)
    → is_space c ≡ false
    → trim_start s ≡ c ∷ t
    → trim s ≡ c ∷ reverse (trim_start (reverse t))
unfolding trim
trim-word s c t word e =
    ap (λ x. reverse (trim_start (reverse x))) e
    ∙ ap (λ x. reverse (trim_start x)) (reverse-cons c t)
    ∙ ap reverse (trim_start-snoc (reverse t) c word)
    ∙ reverse-append (trim_start (reverse t)) (c ∷ [])

trim-blank : (s : Text) → trim_start s ≡ [] → trim s ≡ []
unfolding trim trim_start
trim-blank s e = ap (λ x. reverse (trim_start (reverse x))) e

pub trim-trim : (s : Text) → trim (trim s) ≡ trim s
trim-trim s = elim (trim_start-shape s) [
  | inl gone ↦ ap trim (trim-blank s gone) ∙ trim-blank [] blank ∙ sym (trim-blank s gone)
  | inr (c, t, word, e) ↦
      let inner = trim_start (reverse t) in
      ap trim (trim-word s c t word e)
      ∙ trim-word (c ∷ reverse inner) c (reverse inner) word
          (trim_start-word c (reverse inner) word)
      ∙ ap (λ x. c ∷ reverse (trim_start x)) (reverse-reverse inner)
      ∙ ap (λ x. c ∷ reverse x) (trim_start-trim_start (reverse t))
      ∙ sym (trim-word s c t word e)
]

-- What is read from a field has nothing to trim and is not empty.
pub read_trimmed-shape :
    (v : Option Json) {s : Text} → read_trimmed v ≡ some s → (trim s ≡ s) × (non_empty s ≡ some s)
unfolding read_trimmed
read_trimmed-shape (some (str t)) {s} e = elim (Option-cases (non_empty (trim t))) [
  | inl gone ↦ cc
  | inr (u, there) ↦
      let same : trim t ≡ s = whole_of (trim t) e in
      (rw (← same) (trim-trim t), ap non_empty (sym same) ∙ e)
]
  where
    whole_of : (x : Text) {y : Text} → non_empty x ≡ some y → x ≡ y
    whole_of [] e = cc
    whole_of (c ∷ x) e = ground arith
read_trimmed-shape (some Json.null) e = cc
read_trimmed-shape (some (Json.bool b)) e = cc
read_trimmed-shape (some (Json.num n)) e = cc
read_trimmed-shape (some (Json.date d)) e = cc
read_trimmed-shape (some (Json.arr vs)) e = cc
read_trimmed-shape (some (Json.obj fs)) e = cc
read_trimmed-shape none e = cc

read_first_trimmed-shape :
    (vs : List (Option Json)) {s : Text}
    → read_first_trimmed vs ≡ some s
    → (trim s ≡ s) × (non_empty s ≡ some s)
read_first_trimmed-shape [] e = cc
read_first_trimmed-shape (v ∷ vs) {s} e = elim (Option-cases (read_trimmed v)) [
  | inl gone ↦ read_first_trimmed-shape vs (rw gone at e)
  | inr (t, here) ↦ let same : t ≡ s = cc in read_trimmed-shape v (here ∙ ap some same)
]

abbrev Readable : ToolDetailRefKind × Option Text → Type 0
Readable key = (s : Text) → key.1 ≡ some s → (trim s ≡ s) × (non_empty s ≡ some s)

first_ref-reads :
    (keys : List (ToolDetailRefKind × Option Text)) {r : Text}
    → All Readable keys
    → first_ref keys ≡ some r
    → is_some (parse_detail_ref r) ≡ true
first_ref-reads [] h e = cc
first_ref-reads ((kind, none) ∷ keys) h e = first_ref-reads keys h.1 e
first_ref-reads ((kind, some value) ∷ keys) h e =
    let (trimmed, there) = h.0 value refl in
    rw (parse_detail_ref-build_detail_ref kind value trimmed there e) refl

-- Whatever reference an event's payload is given, it is one that is read back.
pub resolve_detail_ref-reads :
    (fs : Fields) {r : Text} → resolve_detail_ref fs ≡ some r → is_some (parse_detail_ref r) ≡ true
unfolding resolve_detail_ref
resolve_detail_ref-reads fs {r} e = elim (Option-cases (explicit_ref fs)) [
  | inl other ↦
      first_ref-reads (ref_keys fs)
        (
          (λ s k.
              read_first_trimmed-shape
                (get "toolCallId" fs ∷ get "tool_call_id" fs ∷ get "callId" fs ∷ []) k),
          (
            (λ s k. read_trimmed-shape _ k),
            (
              (λ s k.
                  read_first_trimmed-shape
                    (get "itemId" fs ∷ get "item_id" fs ∷ get_in "item" "id" fs ∷ []) k),
              ((λ s k. read_trimmed-shape _ k), tt),
            ),
          ),
        )
        (rw (other, resolve_detail_ref) at e)
  | inr (s, own) ↦ let same : s ≡ r = cc in rw (← same) (explicit fs own)
]
  where
    explicit :
        (fs : Fields) {s : Text} → explicit_ref fs ≡ some s → is_some (parse_detail_ref s) ≡ true
    explicit fs {s} e = elim (Option-cases (read_trimmed (get "detailRef" fs))) [
      | inl gone ↦ cc
      | inr (t, here) ↦ elim (Bool-cases (is_some (parse_detail_ref t))) [
        | inr bad ↦ absurd (ground arith)
        | inl good ↦ let same : t ≡ s = ground arith in rw (← same) good
      ]
    ]
