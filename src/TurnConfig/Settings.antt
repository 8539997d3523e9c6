-- ===== src/TurnConfig/Settings.antt =====
-- apps/api/src/modules/turns/turns.service.ts: the settings on approvals in `buildEffectiveRuntimeConfig`.
use agent_waypoint.Common.{
  ℕ, ◌≡◌, refl, ap, ◌∙◌, Bool, true, false, Option, none, some, inl, inr, if◌then◌else◌,
  Option-cases, Bool-cases,
}
use agent_waypoint.Common.Text.{text}
use agent_waypoint.Common.Json.{
  Json, null, bool, num, str, obj, arr, date, Fields, end, field, get, put, get-put, read_number,
  is_true,
}
use agent_waypoint.Approvals.{auto_approve_config, read_flag, read_seconds}
use agent_waypoint.Timeline.Commands.{get-put_some}
use agent_waypoint.TurnConfig.{
  effective_runtime_config, carry, put_trimmed, put_sandbox, put_true, or_null, fields_of, is_bool,
  is_num,
}
use Prim.Native.String.{String}
use package.text.Mathlib.Text.{◌==◌ as str_eq}

get-put_sandbox :
    (j : String) (from fs : Fields)
    → str_eq "sandbox" j ≡ false
    → get j (put_sandbox from fs) ≡ get j fs
get-put_sandbox j from fs other = elim (Option-cases (get "sandbox" from)) [
  | inl gone ↦ rw (gone, put_sandbox) (get-put_some j "sandbox" _ fs other)
  | inr (obj v, e) ↦ rw (e, put_sandbox) (get-put_some j "sandbox" (some (obj v)) fs other)
  | inr (null, e) ↦ rw (e, put_sandbox) (get-put_some j "sandbox" _ fs other)
  | inr (bool b, e) ↦ rw (e, put_sandbox) (get-put_some j "sandbox" _ fs other)
  | inr (num n, e) ↦ rw (e, put_sandbox) (get-put_some j "sandbox" _ fs other)
  | inr (str t, e) ↦ rw (e, put_sandbox) (get-put_some j "sandbox" _ fs other)
  | inr (date d, e) ↦ rw (e, put_sandbox) (get-put_some j "sandbox" _ fs other)
  | inr (arr vs, e) ↦ rw (e, put_sandbox) (get-put_some j "sandbox" _ fs other)
]

get-put_true :
    (j k : String) (from fs : Fields) → str_eq k j ≡ false → get j (put_true k from fs) ≡ get j fs
get-put_true j k from fs other = elim (Bool-cases (is_true (get k from))) [
  | inl set ↦ rw set (get-put_some j k (some (bool true)) fs other)
  | inr unset ↦ rw unset refl
]

get-carry :
    (j k : String) (fits : Json → Bool) (from fs : Fields)
    → str_eq k j ≡ false
    → get j (carry k fits from fs) ≡ get j fs
get-carry j k fits from fs other = elim (Option-cases (get k from)) [
  | inl gone ↦ rw (gone, carry) refl
  | inr (v, e) ↦
      rw (e, carry)
        (elim (Bool-cases (fits v)) [
          | inl good ↦ rw good (get-put_some j k (some v) fs other)
          | inr bad ↦ rw bad refl
        ])
]

-- What the runner reports, over what was carried.
get-reported :
    (j : String) (payload carried : Fields)
    → str_eq "cwd" j ≡ false
    → str_eq "model" j ≡ false
    → str_eq "effort" j ≡ false
    → str_eq "sandbox" j ≡ false
    → str_eq "approvalPolicy" j ≡ false
    → str_eq "permissionMode" j ≡ false
    → str_eq "allowDangerouslySkipPermissions" j ≡ false
    → get j (
        put_true "allowDangerouslySkipPermissions" payload (
          put_trimmed "permissionMode" payload (
            put_trimmed "approvalPolicy" payload (
              put_sandbox payload (
                put_trimmed "effort" payload
                  (put_trimmed "model" payload (put_trimmed "cwd" payload carried)))))))
      ≡ get j carried
get-reported j payload carried a b c d e f g =
    get-put_true j "allowDangerouslySkipPermissions" payload _ g
    ∙ get-put_some j "permissionMode" _ _ f
    ∙ get-put_some j "approvalPolicy" _ _ e
    ∙ get-put_sandbox j payload _ d
    ∙ get-put_some j "effort" _ _ c
    ∙ get-put_some j "model" _ _ b
    ∙ get-put_some j "cwd" _ _ a

flag-carried :
    (v : Option Json) (k : String) (target : Fields)
    → str_eq k k ≡ true
    → get k target ≡ none
    → read_flag
        (get k (elim v [ none ↦ target | some w ↦ if is_bool w then put k w target else target ]))
      ≡ read_flag v
flag-carried none k target same gone = ap (λ x. read_flag x) gone
flag-carried (some null) k target same gone = ap (λ x. read_flag x) gone
flag-carried (some (bool b)) k target same gone =
    ap (λ x. read_flag x)
      (get-put k k (bool b) target ∙ ap (λ x. if x then some (bool b) else get k target) same)
flag-carried (some (num n)) k target same gone = ap (λ x. read_flag x) gone
flag-carried (some (str t)) k target same gone = ap (λ x. read_flag x) gone
flag-carried (some (date d)) k target same gone = ap (λ x. read_flag x) gone
flag-carried (some (arr vs)) k target same gone = ap (λ x. read_flag x) gone
flag-carried (some (obj fs)) k target same gone = ap (λ x. read_flag x) gone

seconds-carried :
    (v : Option Json) (k : String) (target : Fields)
    → str_eq k k ≡ true
    → get k target ≡ none
    → read_seconds (
        read_number
          (get k (elim v [ none ↦ target | some w ↦ if is_num w then put k w target else target ])))
      ≡ read_seconds (read_number v)
unfolding read_number
seconds-carried none k target same gone = ap (λ x. read_seconds (read_number x)) gone
seconds-carried (some null) k target same gone = ap (λ x. read_seconds (read_number x)) gone
seconds-carried (some (bool b)) k target same gone = ap (λ x. read_seconds (read_number x)) gone
seconds-carried (some (num n)) k target same gone =
    ap (λ x. read_seconds (read_number x))
      (get-put k k (num n) target ∙ ap (λ x. if x then some (num n) else get k target) same)
seconds-carried (some (str t)) k target same gone = ap (λ x. read_seconds (read_number x)) gone
seconds-carried (some (date d)) k target same gone = ap (λ x. read_seconds (read_number x)) gone
seconds-carried (some (arr vs)) k target same gone = ap (λ x. read_seconds (read_number x)) gone
seconds-carried (some (obj fs)) k target same gone = ap (λ x. read_seconds (read_number x)) gone

abbrev settings : Fields → Bool × ℕ
settings fs = (
  read_flag (get "autoApprove" fs),
  read_seconds (read_number (get "autoApproveTimeoutSeconds" fs)),
)

config-or_null : (fs : Fields) → auto_approve_config (or_null fs) ≡ settings fs
unfolding auto_approve_config
config-or_null end = refl
config-or_null (field k v fs) = refl

config-fields_of : (v : Json) → settings (fields_of v) ≡ auto_approve_config v
unfolding auto_approve_config
config-fields_of null = refl
config-fields_of (bool b) = refl
config-fields_of (num n) = refl
config-fields_of (str s) = refl
config-fields_of (date d) = refl
config-fields_of (arr vs) = refl
config-fields_of (obj fs) = refl

pair {ℓ κ} :
    {A : Type ℓ} {B : Type κ} {a a' : A} {b b' : B}
    → a ≡ a'
    → b ≡ b'
    → ◌≡◌ {A = A × B} (a, b) (a', b')
pair h k = λ i. (h i, k i)

-- Whatever the runner reports of the settings that it runs with, and whatever the turn had before: whether its
-- approvals are accepted by themselves, and after how many seconds, is as the turn had it.
pub auto_approve_config-effective_runtime_config :
    (payload : Fields) (existing : Json)
    → auto_approve_config (effective_runtime_config payload existing) ≡ auto_approve_config existing
unfolding effective_runtime_config get
auto_approve_config-effective_runtime_config payload existing =
    let e = fields_of existing in
    let first = carry "autoApprove" is_bool e end in
    let carried = carry "autoApproveTimeoutSeconds" is_num e first in
    config-or_null _
    ∙ ap (λ x. (read_flag x.0, read_seconds (read_number x.1)))
        (pair (get-reported "autoApprove" payload carried refl refl refl refl refl refl refl) (
          get-reported "autoApproveTimeoutSeconds" payload carried refl refl refl refl refl refl
            refl))
    ∙ pair
        (ap (λ x. read_flag x)
            (get-carry "autoApprove" "autoApproveTimeoutSeconds" is_num e first refl)
          ∙ flag-carried (get "autoApprove" e) "autoApprove" end refl refl)
        (seconds-carried (get "autoApproveTimeoutSeconds" e) "autoApproveTimeoutSeconds" first refl
          (get-carry "autoApproveTimeoutSeconds" "autoApprove" is_bool e end refl))
    ∙ config-fields_of existing
