-- ===== src/Timeline/Summary.antt =====
-- apps/api/src/modules/turns/timeline-event-payload.ts: `summarizeTimelineEventPayload` and its helpers, and
-- `summarizeDiffPayload` of diff-payload.ts. `JSON.parse(JSON.stringify(v))` is `v` for a JSON value.
use agent_waypoint.Common.{
  ℕ, ◌+◌, ◌-◌, Bool, true, false, not, ◌&&◌, ◌||◌, List, [], ◌∷◌, ◌++◌, Option, none, some,
  if◌then◌else◌, ◌==◌, ltb, leb, length, get_or, is_some, or_else,
}
use agent_waypoint.Common.Text.{Text, text, text_eq, is_space, slice_to}
use agent_waypoint.Common.Json.{
  Json, ℤ, null, bool, num, str, date, arr, obj, Items, nil, cons, Fields, end, field, get, put,
  remove, as_record, read_string, is_true, whole,
}
use agent_waypoint.Store.{EventType}
use agent_waypoint.Timeline.{
  read_trimmed, get_in, copy_fields, copy_fallback, resolve_detail_ref, resolve_kind,
  is_command_kind, read_output_text, read_aggregated_output, max_command_preview_length, ellipsis,
}
use Prim.Native.String.{String}

-- `Buffer.byteLength(s, 'utf8')`: a pair of surrogates is one character of four bytes, a single one is replaced.
unfoldable pub byte_length : Text → ℕ
byte_length [] = 0
byte_length (c ∷ []) = if ltb c 0x80 then 1 else (if ltb c 0x800 then 2 else 3)
byte_length (c ∷ d ∷ s) =
    let two = byte_length s in
    let rest = byte_length (d ∷ s) in
    if ltb c 0x80
    then 1 + rest
    else if ltb c 0x800
    then 2 + rest
    else if (leb 0xd800 c && leb c 0xdbff) && (leb 0xdc00 d && leb d 0xdfff)
    then 4 + two
    else 3 + rest

-- `summary.outputAvailable = true; summary.outputBytes = …` where there is output.
abbrev pub note_output : Text → Fields → Fields
note_output [] fs = fs
note_output (c ∷ s) fs =
    put "outputBytes" (whole (byte_length (c ∷ s))) (put "outputAvailable" (bool true) fs)

-- `copyToolDetailRef`.
abbrev pub copy_detail_ref : Fields → Fields → Fields
copy_detail_ref target fs = elim (resolve_detail_ref fs) [
  | none ↦ target
  | some r ↦ put "detailRef" (str r) target
]

abbrev pub output_fields : List String
output_fields =
    "toolCallId" ∷ "tool_call_id" ∷ "toolId" ∷ "itemId" ∷ "item_id" ∷ "callId" ∷ "id" ∷ "title"
    ∷ "kind" ∷ "stream" ∷ "taskId" ∷ "outputAvailable" ∷ "outputBytes" ∷ []

abbrev pub is_file_change : Option Text → Bool
is_file_change none = false
is_file_change (some kind) = text_eq kind (text "file_change") || text_eq kind (text "fileChange")

-- The text of a tool that is neither a command nor a change of files stays in the summary.
abbrev pub keep_text : Fields → Fields → Fields
keep_text fs target = elim (read_string (get "text" fs)) [
  | some [] ↦ target
  | some (c ∷ s) ↦ put "text" (str (c ∷ s)) target
  | none ↦ elim (read_string (get "output" fs)) [
    | some (c ∷ s) ↦ put "output" (str (c ∷ s)) target
    | _ ↦ target
  ]
]

-- `summarizeToolOutput`.
unfoldable pub summarize_output : Fields → Fields
summarize_output fs =
    let kind = read_trimmed (get "kind" fs) in
    let summary = copy_detail_ref (copy_fields fs output_fields) fs in
    note_output (read_output_text fs)
      (if is_command_kind kind || is_file_change kind then summary else keep_text fs summary)

abbrev pub lifecycle_fields : List String
lifecycle_fields =
    "phase" ∷ "toolCallId" ∷ "tool_call_id" ∷ "toolId" ∷ "itemId" ∷ "item_id" ∷ "callId" ∷ "id"
    ∷ "title" ∷ "kind" ∷ "status" ∷ "command" ∷ "cwd" ∷ "path" ∷ "summary" ∷ "result" ∷ "outcome"
    ∷ "exitCode" ∷ "durationMs" ∷ "outputAvailable" ∷ "outputBytes" ∷ []

-- `s.replace(/\s+/g, ' ')`; the flag tells that the last unit was white space.
unfoldable pub collapse : Bool → Text → Text
collapse seen [] = []
collapse seen (c ∷ s) =
    let after_space = collapse true s in
    let after_word = collapse false s in
    if is_space c then (if seen then after_space else 32 ∷ after_space) else c ∷ after_word

unfoldable pub command_preview : Text → Text
command_preview title =
    let preview = collapse false title in
    if ltb max_command_preview_length (length preview)
    then slice_to (max_command_preview_length - 1) preview ++ ellipsis
    else preview

abbrev pub command_title : Fields → Text
command_title fs =
    get_or
      (or_else (read_trimmed (get "title" fs))
        (or_else (read_trimmed (get "command" fs)) (read_trimmed (get_in "item" "command" fs))))
      (text "Command execution")

-- Of a command, the start shows a preview, the end neither title nor folder.
abbrev pub shorten_command : Bool → Fields → Fields → Fields
shorten_command starts fs summary = remove "command" (
    if starts
    then put "title" (str (command_preview (command_title fs))) summary
    else remove "cwd" (remove "title" summary))

abbrev pub with_fallbacks : Fields → Fields → Fields
with_fallbacks fs summary = copy_fallback "durationMs" (get_in "item" "durationMs" fs) (
    copy_fallback "exitCode" (get_in "item" "exitCode" fs) (
      copy_fallback "path" (get_in "item" "path" fs) (
        copy_fallback "cwd" (get_in "item" "cwd" fs) (
          copy_fallback "command" (get_in "item" "command" fs) (
            copy_fallback "status" (get_in "item" "status" fs) (
              copy_fallback "kind" (get_in "item" "type" fs)
                (copy_fallback "itemId" (get_in "item" "id" fs) summary)))))))

-- `summarizeToolLifecycle`; the flag is `type === 'tool.started'`.
unfoldable pub summarize_lifecycle : Bool → Fields → Fields
summarize_lifecycle starts fs =
    let summary = copy_detail_ref (with_fallbacks fs (copy_fields fs lifecycle_fields)) fs in
    note_output (read_aggregated_output fs) (
      if is_command_kind (resolve_kind fs) && is_some (read_string (get "detailRef" summary))
      then shorten_command starts fs summary
      else summary)

-- `===` of two values that were parsed apart: objects are never the same.
abbrev pub same_value : Option Json → Option Json → Bool
same_value none none = true
same_value (some null) (some null) = true
same_value (some (bool true)) (some (bool true)) = true
same_value (some (bool false)) (some (bool false)) = true
same_value (some (num (ℤ.pos m))) (some (num (ℤ.pos n))) = m == n
same_value (some (num (ℤ.negsuc m))) (some (num (ℤ.negsuc n))) = m == n
same_value (some (str s)) (some (str t)) = text_eq s t
same_value (some (date m)) (some (date n)) = m == n
same_value _ _ = false

-- `summarizeMessageSnapshot`.
unfoldable pub summarize_snapshot : Fields → Option Json → Fields
summarize_snapshot message item_id =
    let summary = remove "turnId" (remove "tokenCount" (remove "sessionId" message)) in
    if is_some (read_string item_id) && same_value (get "backendItemId" summary) item_id
    then remove "backendItemId" summary
    else summary

abbrev pub repeated_field : EventType → Option String
repeated_field EventType.assistant_message_completed = some "text"
repeated_field EventType.user_message_accepted = some "content"
repeated_field _ = none

abbrev pub drop_repeated : EventType → Fields → Fields → Fields
drop_repeated type message summary = elim (repeated_field type) [
  | none ↦ summary
  | some k ↦
      if same_value (get k summary) (get "content" message) then remove k summary else summary
]

abbrev pub summarize_message : EventType → Fields → Fields
summarize_message type fs = elim (as_record (get "message" fs)) [
  | none ↦ fs
  | some message ↦
      if is_some (read_string (get "id" message))
      then drop_repeated type message
          (put "message" (obj (summarize_snapshot message (get "itemId" fs))) fs)
      else fs
]

abbrev pub summarize_entry : Json → Json
summarize_entry (obj message) = obj (summarize_snapshot message none)
summarize_entry v = v

abbrev pub summarize_entries : Items → Items
summarize_entries nil = nil
summarize_entries (cons v vs) = cons (summarize_entry v) (summarize_entries vs)

abbrev pub summarize_messages : Fields → Fields
summarize_messages fs = elim (get "messages" fs) [
  | some (arr entries) ↦ put "messages" (arr (summarize_entries entries)) fs
  | _ ↦ fs
]

abbrev pub approval_fields : List String
approval_fields =
    "requestId" ∷ "kind" ∷ "reason" ∷ "itemId" ∷ "approvalId" ∷ "autoApproveAt" ∷ "pausedAt"
    ∷ "pausedRemainingMs" ∷ []

abbrev pub is_false : Option Json → Bool
is_false (some (bool false)) = true
is_false _ = false

abbrev pub read_diff_text : Fields → Text
read_diff_text fs =
    get_or (or_else (read_string (get "unifiedDiff" fs)) (read_string (get "diff" fs))) []

abbrev pub is_empty : Text → Bool
is_empty [] = true
is_empty (c ∷ s) = false

-- `summarizeTimelineEventPayload` of an object; of any other value it is {}.
unfoldable pub summarize : EventType → Fields → Fields
summarize EventType.diff_updated fs =
    field "diffAvailable"
      (bool (is_true (get "diffAvailable" fs) || not (is_empty (read_diff_text fs))))
      (field "snapshotAvailable" (bool (not (is_false (get "snapshotAvailable" fs)))) end)
summarize EventType.tool_output fs = summarize_output fs
summarize EventType.tool_started fs = summarize_lifecycle true fs
summarize EventType.tool_completed fs = summarize_lifecycle false fs
summarize EventType.approval_requested fs = copy_fields fs approval_fields
summarize type fs = summarize_messages (summarize_message type fs)

-- `(typeof a === 'string' && a) || (typeof b === 'string' && b) || ''`.
abbrev pub first_text : Option Text → Option Text → Text
first_text (some (c ∷ s)) b = c ∷ s
first_text a b = get_or b []

abbrev pub copy_diff_stat : Option Json → Fields → Fields
copy_diff_stat (some (obj stat)) fs = put "diffStat" (obj stat) fs
copy_diff_stat (some (arr stat)) fs = put "diffStat" (arr stat) fs
copy_diff_stat _ fs = fs

-- `summarizeDiffPayload`.
unfoldable pub summarize_diff : Json → Fields
summarize_diff (obj fs) =
    let diff = first_text (read_string (get "unifiedDiff" fs)) (read_string (get "diff" fs)) in
    copy_diff_stat (get "diffStat" fs) (
      field "diffAvailable" (bool (is_true (get "diffAvailable" fs) || not (is_empty diff)))
        (field "snapshotAvailable" (bool true) end))
summarize_diff v = field "diffAvailable" (bool false) (field "snapshotAvailable" (bool true) end)
