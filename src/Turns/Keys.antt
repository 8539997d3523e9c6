-- ===== src/Turns/Keys.antt =====
-- apps/api/src/modules/turns/turns.service.ts: the keys that events wait under: `stableStringify` and
-- `buildTextCoalescingKey`.
use Prim.Native.String.{String}
use package.text.Mathlib.Text.{◌==◌ as str_eq}
use agent_waypoint.Common.{
  ◌≡◌, refl, arith, ==_refl, ℕ, Bool, true, false, ◌&&◌, ◌||◌, [], ◌∷◌, if◌then◌else◌, ◌==◌, leb,
  ltb,
}
use agent_waypoint.Common.Text.{Text, text, text_eq, text_eq_refl}
use agent_waypoint.Common.Json.{
  ℤ, pos, negsuc, Json, null, bool, num, str, date, arr, obj, Items, nil, cons, Fields, end, field,
  remove,
}
use package.text.Mathlib.TextEquality.{eq_iff}
use agent_waypoint.Store.{EventType}
use agent_waypoint.TurnConfig.{TextField, field_name}

-- The place of a type among the runner's, to compare two.
abbrev pub type_code : EventType → ℕ
type_code EventType.turn_started = 0
type_code EventType.assistant_message_started = 1
type_code EventType.assistant_message_completed = 2
type_code EventType.user_message_accepted = 3
type_code EventType.turn_input_updated = 4
type_code EventType.assistant_delta = 5
type_code EventType.approval_requested = 6
type_code EventType.approval_resolved = 7
type_code EventType.timer_paused = 8
type_code EventType.timer_resumed = 9
type_code EventType.auto_review = 10
type_code EventType.token_usage_updated = 11
type_code EventType.plan_updated = 12
type_code EventType.reasoning_delta = 13
type_code EventType.diff_updated = 14
type_code EventType.tool_started = 15
type_code EventType.tool_output = 16
type_code EventType.tool_completed = 17
type_code EventType.turn_completed = 18
type_code EventType.turn_failed = 19
type_code EventType.turn_cancelled = 20

abbrev pub type_eq : EventType → EventType → Bool
type_eq a b = type_code a == type_code b

abbrev pub field_code : TextField → ℕ
field_code TextField.text_field = 0
field_code TextField.delta_field = 1
field_code TextField.output_field = 2

abbrev pub leb_ℤ : ℤ → ℤ → Bool
leb_ℤ (pos m) (pos n) = leb m n
leb_ℤ (pos m) (negsuc n) = false
leb_ℤ (negsuc m) (pos n) = true
leb_ℤ (negsuc m) (negsuc n) = leb n m

abbrev pub max_ℤ : ℤ → ℤ → ℤ
max_ℤ a b = if leb_ℤ a b then b else a

abbrev pub eq_ℤ : ℤ → ℤ → Bool
eq_ℤ (pos m) (pos n) = m == n
eq_ℤ (negsuc m) (negsuc n) = m == n
eq_ℤ _ _ = false

-- Strings are sorted by their units.
abbrev pub is_before : Text → Text → Bool
is_before s [] = false
is_before [] (d ∷ t) = true
is_before (c ∷ s) (d ∷ t) = ltb c d || (c == d && is_before s t)

-- A field at its place among sorted ones; the first of two with one key counts.
abbrev pub insert_field : String → Json → Fields → Fields
insert_field k v end = field k v end
insert_field k v (field j w fs) =
    let rest = insert_field k v fs in
    if str_eq k j
    then field k v fs
    else if is_before (text k) (text j)
    then field k v (field j w fs)
    else field j w rest

-- What `stableStringify` writes of a value: the order of an object's keys does not matter.
unfoldable mutual
  pub stable : Json → Json
  stable (arr vs) = arr (stable_items vs)
  stable (obj fs) = obj (stable_fields fs)
  stable v = v

  pub stable_items : Items → Items
  stable_items nil = nil
  stable_items (cons v vs) = cons (stable v) (stable_items vs)

  pub stable_fields : Fields → Fields
  stable_fields end = end
  stable_fields (field k v fs) = insert_field k (stable v) (stable_fields fs)

unfoldable mutual
  pub eq_json : Json → Json → Bool
  eq_json null null = true
  eq_json (bool true) (bool true) = true
  eq_json (bool false) (bool false) = true
  eq_json (num m) (num n) = eq_ℤ m n
  eq_json (str s) (str t) = text_eq s t
  eq_json (date m) (date n) = m == n
  eq_json (arr vs) (arr ws) = eq_items vs ws
  eq_json (obj fs) (obj gs) = eq_fields fs gs
  eq_json _ _ = false

  pub eq_items : Items → Items → Bool
  eq_items nil nil = true
  eq_items (cons v vs) (cons w ws) = eq_json v w && eq_items vs ws
  eq_items _ _ = false

  pub eq_fields : Fields → Fields → Bool
  eq_fields end end = true
  eq_fields (field j v fs) (field k w gs) = str_eq j k && eq_json v w && eq_fields fs gs
  eq_fields _ _ = false

-- A key of `pendingCoalescedEvents`: `turn:type`, or `turn:type:field:metadata`.
pub data Key : Type 0 where
  last_write : ℕ → EventType → Key
  text_key : ℕ → EventType → TextField → Fields → Key

unfoldable pub key_eq : Key → Key → Bool
unfolding stable eq_json
key_eq (last_write t a) (last_write u b) = t == u && type_eq a b
key_eq (text_key t a f m) (text_key u b g n) =
    t == u
    && type_eq a b
    && field_code f == field_code g
    && eq_json (stable (obj m)) (stable (obj n))
key_eq _ _ = false

-- `buildTextCoalescingKey`.
abbrev pub text_key_of : ℕ → EventType → Fields → TextField → Key
text_key_of turn type payload f =
    text_key turn type f (remove "runnerSeq" (remove (field_name f) payload))

-- A key is its own.
eq_ℤ_refl : (n : ℤ) → eq_ℤ n n ≡ true
eq_ℤ_refl (pos n) = ground arith
eq_ℤ_refl (negsuc n) = ground arith

mutual
  unfolding eq_json

  eq_json_refl : (v : Json) → eq_json v v ≡ true
  eq_json_refl null = refl
  eq_json_refl (bool true) = refl
  eq_json_refl (bool false) = refl
  eq_json_refl (num n) = eq_ℤ_refl n
  eq_json_refl (str s) = text_eq_refl s
  eq_json_refl (date n) = ground arith
  eq_json_refl (arr vs) = eq_items_refl vs
  eq_json_refl (obj fs) = eq_fields_refl fs

  eq_items_refl : (vs : Items) → eq_items vs vs ≡ true
  eq_items_refl nil = refl
  eq_items_refl (cons v vs) = ground (arith, eq_json_refl v, eq_items_refl vs)

  eq_fields_refl : (fs : Fields) → eq_fields fs fs ≡ true
  eq_fields_refl end = refl
  eq_fields_refl (field k v fs) = ground (arith, eq_iff k k, eq_json_refl v, eq_fields_refl fs)

type_eq_refl : (a : EventType) → type_eq a a ≡ true
type_eq_refl a = ==_refl (type_code a)

pub key_eq_refl : (k : Key) → key_eq k k ≡ true
unfolding key_eq
key_eq_refl (last_write t a) = ground (arith, type_eq_refl a)
key_eq_refl (text_key t a f m) =
    ground (arith, type_eq_refl a, ==_refl (field_code f), eq_json_refl (stable (obj m)))
