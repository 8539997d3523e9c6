-- ===== src/TurnConfig.antt =====
-- apps/api/src/modules/turns/turns.service.ts: the settings that a turn is given and those that the runner reports,
-- the decisions on approvals, and the text events that are merged before they are stored.
pub mod Settings
pub mod Merging
use agent_waypoint.Common.{
  ℕ, Bool, true, false, ◌&&◌, ◌||◌, List, [], ◌∷◌, ◌++◌, Option, none, some, if◌then◌else◌, get_or,
  is_some, or_else,
}
use agent_waypoint.Common.Text.{Text, text, text_eq, trim, starts_with}
use agent_waypoint.Common.Json.{
  Json, null, bool, num, str, obj, Fields, end, field, get, put, remove, spread, as_record,
  read_string, is_true,
}
use agent_waypoint.Store.{EventType}
use agent_waypoint.Timeline.{read_trimmed, put_some}
use agent_waypoint.Approvals.{read_flag, read_seconds}
use agent_waypoint.Common.Json.{read_number}
use Prim.Native.String.{String}

-- `isApprovalAccepted`.
unfoldable pub is_accepted : Text → Bool
is_accepted decision =
    text_eq decision (text "approve")
    || text_eq decision (text "accept")
    || text_eq decision (text "acceptForSession")
    || starts_with decision (text "acceptWithExecpolicyAmendment")
    || starts_with decision (text "applyNetworkPolicyAmendment")

-- `normalizeApprovalDecisionInput`.
unfoldable pub normalize_decision : Text → Text
normalize_decision decision =
    if text_eq decision (text "approve")
    then text "accept"
    else if text_eq decision (text "reject")
    then text "decline"
    else decision

pub data ExecutionMode : Type 0 where
  read_only safe_write auto_review yolo : ExecutionMode

abbrev pub mode_text : ExecutionMode → Text
mode_text ExecutionMode.read_only = text "read-only"
mode_text ExecutionMode.safe_write = text "safe-write"
mode_text ExecutionMode.auto_review = text "auto-review"
mode_text ExecutionMode.yolo = text "yolo"

-- `normalizeExecutionMode` of a text that is trimmed.
unfoldable pub normalize_mode : Text → Option ExecutionMode
normalize_mode s =
    if text_eq s (text "read-only")
    then some ExecutionMode.read_only
    else if text_eq s (text "safe-write")
    then some ExecutionMode.safe_write
    else if text_eq s (text "auto-review")
    then some ExecutionMode.auto_review
    else if text_eq s (text "yolo")
    then some ExecutionMode.yolo
    else none

abbrev pub trimmed_or_empty : Option Json → Text
trimmed_or_empty v = get_or (read_trimmed v) []

abbrev pub is_blank : Text → Bool
is_blank [] = true
is_blank (c ∷ s) = false

-- `deriveExecutionModeFromRuntime`.
unfoldable pub derive_mode : Fields → Option ExecutionMode
derive_mode payload =
    let sandbox = trimmed_or_empty (get "sandbox" payload) in
    let policy = trimmed_or_empty (get "approvalPolicy" payload) in
    let reviewer = trimmed_or_empty (get "approvalsReviewer" payload) in
    if is_blank sandbox && is_blank policy && is_blank reviewer
    then none
    else if text_eq sandbox (text "read-only")
    then some ExecutionMode.read_only
    else if text_eq sandbox (text "danger-full-access") || text_eq policy (text "never")
    then some ExecutionMode.yolo
    else if text_eq reviewer (text "auto_review")
    then some ExecutionMode.auto_review
    else some ExecutionMode.safe_write

abbrev pub some_text : Option Text → Option Json
some_text none = none
some_text (some s) = some (str s)

-- A field that is a text which is not blank is taken over, trimmed.
abbrev pub put_trimmed : String → Fields → Fields → Fields
put_trimmed k from target = put_some k (some_text (read_trimmed (get k from))) target

abbrev pub or_null : Fields → Json
or_null end = null
or_null (field k v fs) = obj (field k v fs)

abbrev pub fields_of : Json → Fields
fields_of v = get_or (as_record (some v)) end

-- `buildRequestedBackendConfig`.
unfoldable pub requested_config : Option Fields → Option Text → Json
requested_config backend_config cwd = or_null (
    put_some "cwd" (some_text (read_trimmed (some_text cwd)))
      (spread end (get_or backend_config end)))

abbrev pub put_first : String → Fields → Fields → Fields → Fields
put_first k payload requested target =
    put_some k (some_text (or_else (read_trimmed (get k payload)) (read_trimmed (get k requested))))
      target

abbrev pub read_mode : Fields → Option ExecutionMode
read_mode fs = elim (read_trimmed (get "executionMode" fs)) [
  | none ↦ none
  | some s ↦ normalize_mode s
]

abbrev pub is_codex : Option Text → Bool
is_codex none = false
is_codex (some backend) = text_eq (trim backend) (text "codex")

abbrev pub mode_json : Option ExecutionMode → Option Json
mode_json none = none
mode_json (some m) = some (str (mode_text m))

-- `buildEffectiveBackendConfig`.
unfoldable pub effective_backend_config : Fields → Option Text → Json → Json
effective_backend_config payload backend requested_config =
    let requested = fields_of requested_config in
    let derived : Option ExecutionMode = if is_codex backend then derive_mode payload else none in
    or_null (
      put_some "executionMode"
        (mode_json (or_else (read_mode payload) (or_else (read_mode requested) derived)))
        (put_first "effort" payload requested
          (put_first "model" payload requested (put_first "cwd" payload requested end))))

abbrev pub is_bool : Json → Bool
is_bool (bool b) = true
is_bool _ = false

abbrev pub is_num : Json → Bool
is_num (num n) = true
is_num _ = false

abbrev pub carry : String → (Json → Bool) → Fields → Fields → Fields
carry k fits from target = elim (get k from) [
  | none ↦ target
  | some v ↦ if fits v then put k v target else target
]

abbrev pub put_sandbox : Fields → Fields → Fields
put_sandbox payload target = elim (get "sandbox" payload) [
  | some (obj sandbox) ↦ put "sandbox" (obj sandbox) target
  | _ ↦ put_trimmed "sandbox" payload target
]

abbrev pub put_true : String → Fields → Fields → Fields
put_true k from target = if is_true (get k from) then put k (bool true) target else target

-- `buildEffectiveRuntimeConfig`: what the turn was started with on approvals is carried over.
unfoldable pub effective_runtime_config : Fields → Json → Json
effective_runtime_config payload existing =
    let e = fields_of existing in
    let carried = carry "autoApproveTimeoutSeconds" is_num e (carry "autoApprove" is_bool e end) in
    or_null (
      put_true "allowDangerouslySkipPermissions" payload (
        put_trimmed "permissionMode" payload (
          put_trimmed "approvalPolicy" payload (
            put_sandbox payload (
              put_trimmed "effort" payload
                (put_trimmed "model" payload (put_trimmed "cwd" payload carried)))))))

pub record SessionRuntime : Type 0 where
  pub backend : Text
  pub cwd : Option Text
  pub backend_config : Option Fields
  pub auto_approve : Bool
  pub auto_approve_timeout_seconds : ℕ

-- `readSessionRuntimeFromMeta`; `none` is the exception.
unfoldable pub read_session_runtime : Option Json → Option SessionRuntime
read_session_runtime meta = elim (as_record (get "runtime" (get_or (as_record meta) end))) [
  | none ↦ none
  | some runtime ↦ elim (read_trimmed (get "backend" runtime)) [
    | none ↦ none
    | some backend ↦ some (record {
      backend = backend;
      cwd = read_trimmed (get "cwd" runtime);
      backend_config = as_record (get "backendConfig" runtime);
      auto_approve = read_flag (get "autoApprove" runtime);
      auto_approve_timeout_seconds =
          read_seconds (read_number (get "autoApproveTimeoutSeconds" runtime));
    })
  ]
]

-- `normalizeTriggerIdentifier` and `normalizeTriggerProvider`; `normalizeTriggerMessageId` and
-- `normalizeTriggerIntegrationId` are `read_trimmed`.
unfoldable pub normalize_trigger : Option Text → Text
normalize_trigger input = get_or (read_trimmed (some_text input)) (text "web")

pub data TextField : Type 0 where
  text_field delta_field output_field : TextField

abbrev pub field_name : TextField → String
field_name TextField.text_field = "text"
field_name TextField.delta_field = "delta"
field_name TextField.output_field = "output"

-- `getCoalescedTextField` of an object; of any other value it is null.
unfoldable pub coalesced_field : EventType → Fields → Option TextField
coalesced_field EventType.assistant_delta fs =
    if is_some (read_string (get "text" fs)) then some TextField.text_field else none
coalesced_field EventType.reasoning_delta fs =
    if is_some (read_string (get "delta" fs)) then some TextField.delta_field else none
coalesced_field EventType.tool_output fs =
    if is_some (read_string (get "text" fs))
    then some TextField.text_field
    else if is_some (read_string (get "output" fs))
    then some TextField.output_field
    else none
coalesced_field _ fs = none

abbrev pub text_of : TextField → Fields → Text
text_of f fs = get_or (read_string (get (field_name f) fs)) []

abbrev pub carry_seq : Fields → Fields → Fields
carry_seq from target = carry "runnerSeq" is_num from target

-- `mergeCoalescedTextPayload` of two objects.
unfoldable pub merge_text : TextField → Fields → Fields → Fields
merge_text f existing later =
    put (field_name f) (str (text_of f existing ++ text_of f later)) (carry_seq later existing)
