-- ===== src/Timeline.antt =====
-- apps/api/src/modules/turns/timeline-event-payload.ts: the fields that a summary copies and the references
-- to the details of a tool's event. An object is `Fields`, a field that is missing `none`.
pub mod Summary
pub mod Refs
pub mod Commands
use agent_waypoint.Common.{
  ℕ, suc, ◌+◌, Bool, true, false, ◌&&◌, ◌||◌, List, [], ◌∷◌, ◌++◌, Option, none, some,
  if◌then◌else◌, ◌==◌, ltb, leb, length, filter, map, get_or, is_some, or_else,
}
use agent_waypoint.Common.Text.{
  Text, text, text_eq, trim, includes, index_of, slice_to, slice_from, is_space,
}
use agent_waypoint.Common.Json.{
  Json, null, bool, num, str, date, arr, obj, Fields, end, field, get, put, remove, as_record,
  read_string, is_true, whole,
}
use Prim.Native.String.{String}

abbrev pub max_timeline_metadata_length : ℕ
max_timeline_metadata_length = 4096

abbrev pub max_command_preview_length : ℕ
max_command_preview_length = 120

abbrev pub max_tool_detail_ref_length : ℕ
max_tool_detail_ref_length = 512

pub data ToolDetailRefKind : Type 0 where
  call item tool event : ToolDetailRefKind

abbrev pub kind_text : ToolDetailRefKind → Text
kind_text ToolDetailRefKind.call = text "call"
kind_text ToolDetailRefKind.item = text "item"
kind_text ToolDetailRefKind.tool = text "tool"
kind_text ToolDetailRefKind.event = text "event"

-- `['call', 'item', 'tool', 'event'].includes(kind)`.
abbrev pub read_kind : Text → Option ToolDetailRefKind
read_kind s =
    if text_eq s (text "call")
    then some ToolDetailRefKind.call
    else if text_eq s (text "item")
    then some ToolDetailRefKind.item
    else if text_eq s (text "tool")
    then some ToolDetailRefKind.tool
    else if text_eq s (text "event")
    then some ToolDetailRefKind.event
    else none

-- The colon and the ellipsis.
abbrev pub colon : ℕ
colon = 58

abbrev pub ellipsis : Text
ellipsis = 0x2026 ∷ []

abbrev pub non_empty : Text → Option Text
non_empty [] = none
non_empty (c ∷ s) = some (c ∷ s)

-- `readTrimmedString`.
unfoldable pub read_trimmed : Option Json → Option Text
read_trimmed (some (str s)) = non_empty (trim s)
read_trimmed _ = none

-- `readFirstTrimmedString`.
abbrev pub read_first_trimmed : List (Option Json) → Option Text
read_first_trimmed [] = none
read_first_trimmed (v ∷ vs) = or_else (read_trimmed v) (read_first_trimmed vs)

-- `asRecord(record[key])?.[field]`.
abbrev pub get_in : String → String → Fields → Option Json
get_in key name fs = elim (as_record (get key fs)) [ none ↦ none | some inner ↦ get name inner ]

-- `toTimelineScalar`; the text of a moment has 24 units.
unfoldable pub to_scalar : Option Json → Option Json
to_scalar (some (str s)) = some (
    str (
      if ltb max_timeline_metadata_length (length s)
      then slice_to max_timeline_metadata_length s ++ ellipsis
      else s))
to_scalar (some (date d)) = some (date d)
to_scalar (some (num n)) = some (num n)
to_scalar (some (bool b)) = some (bool b)
to_scalar _ = none

abbrev pub put_some : String → Option Json → Fields → Fields
put_some k none fs = fs
put_some k (some v) fs = put k v fs

-- The loop of `copyFields`.
abbrev pub copy_onto : Fields → Fields → List String → Fields
copy_onto result fs [] = result
copy_onto result fs (k ∷ ks) = copy_onto (put_some k (to_scalar (get k fs)) result) fs ks

abbrev pub copy_fields : Fields → List String → Fields
copy_fields fs ks = copy_onto end fs ks

-- `copyFallbackScalar`.
abbrev pub copy_fallback : String → Option Json → Fields → Fields
copy_fallback k v target =
    if is_some (get k target) then target else put_some k (to_scalar v) target

-- `buildToolDetailRef`.
unfoldable pub build_detail_ref : ToolDetailRefKind → Text → Option Text
build_detail_ref kind value =
    let detail_ref = kind_text kind ++ colon ∷ value in
    if leb (length detail_ref) max_tool_detail_ref_length then some detail_ref else none

abbrev pub read_ref : Text → Text → Option (ToolDetailRefKind × Text)
read_ref kind value = elim (non_empty value) [
  | none ↦ none
  | some v ↦ elim (read_kind kind) [ none ↦ none | some k ↦ some (k, v) ]
]

abbrev pub parse_at : Text → Option ℕ → Option (ToolDetailRefKind × Text)
parse_at detail_ref none = none
parse_at detail_ref (some i) =
    if i == 0 then none else read_ref (slice_to i detail_ref) (trim (slice_from (i + 1) detail_ref))

-- `parseEventToolDetailRef`.
unfoldable pub parse_detail_ref : Text → Option (ToolDetailRefKind × Text)
parse_detail_ref detail_ref =
    if ltb max_tool_detail_ref_length (length detail_ref)
    then none
    else parse_at detail_ref (index_of colon detail_ref)

abbrev pub ref_keys : Fields → List (ToolDetailRefKind × Option Text)
ref_keys fs =
    (
      ToolDetailRefKind.call,
      read_first_trimmed (get "toolCallId" fs ∷ get "tool_call_id" fs ∷ get "callId" fs ∷ []),
    )
    ∷ (ToolDetailRefKind.tool, read_trimmed (get "toolId" fs))
    ∷ (
      ToolDetailRefKind.item,
      read_first_trimmed (get "itemId" fs ∷ get "item_id" fs ∷ get_in "item" "id" fs ∷ []),
    )
    ∷ (ToolDetailRefKind.event, read_trimmed (get "id" fs))
    ∷ []

-- The first identifier that is there is the one that is built upon, even where it is too long.
abbrev pub first_ref : List (ToolDetailRefKind × Option Text) → Option Text
first_ref [] = none
first_ref ((kind, none) ∷ keys) = first_ref keys
first_ref ((kind, some value) ∷ keys) = build_detail_ref kind value

abbrev pub explicit_ref : Fields → Option Text
explicit_ref fs = elim (read_trimmed (get "detailRef" fs)) [
  | none ↦ none
  | some r ↦ if is_some (parse_detail_ref r) then some r else none
]

-- `resolveEventToolDetailRef` of an object; of any other value it is null.
unfoldable pub resolve_detail_ref : Fields → Option Text
resolve_detail_ref fs = elim (explicit_ref fs) [ some r ↦ some r | none ↦ first_ref (ref_keys fs) ]

abbrev pub is_text : Text → Option Json → Bool
is_text s (some (str t)) = text_eq t s
is_text s _ = false

-- `attachEventToolDetailRef`.
unfoldable pub attach_detail_ref : Fields → Fields
attach_detail_ref fs = elim (resolve_detail_ref fs) [
  | none ↦ fs
  | some r ↦ if is_text r (get "detailRef" fs) then fs else put "detailRef" (str r) fs
]

-- `resolveEventToolKind`.
abbrev pub resolve_kind : Fields → Option Text
resolve_kind fs = or_else (read_trimmed (get "kind" fs)) (read_trimmed (get_in "item" "type" fs))

abbrev pub is_alphanumeric : ℕ → Bool
is_alphanumeric c = (leb 48 c && leb c 57) || (leb 65 c && leb c 90) || (leb 97 c && leb c 122)

abbrev pub lower_case : ℕ → ℕ
lower_case c = if leb 65 c && leb c 90 then c + 32 else c

-- `isCommandToolKind`.
unfoldable pub is_command_kind : Option Text → Bool
is_command_kind none = false
is_command_kind (some kind) = includes (map lower_case (filter is_alphanumeric kind)) (
    text "bash"
    ∷ text "command"
    ∷ text "commandexecution"
    ∷ text "localcommand"
    ∷ text "shell"
    ∷ [])

-- `readToolOutputText` and `readAggregatedToolOutput` of an object.
abbrev pub read_output_text : Fields → Text
read_output_text fs =
    get_or (or_else (read_string (get "text" fs)) (read_string (get "output" fs))) []

abbrev pub read_aggregated_output : Fields → Text
read_aggregated_output fs = get_or (read_string (get_in "item" "aggregatedOutput" fs)) []
