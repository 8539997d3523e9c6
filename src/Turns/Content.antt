-- ===== src/Turns/Content.antt =====
-- apps/api/src/modules/turns/turns.service.ts: the text of the assistant that a turn's events hold, and
-- `stripReasoningBlocks`. The expressions ignore the case of ASCII letters.
pub mod Blocks
use agent_waypoint.Common.{
  ℕ, zero, suc, ◌+◌, Bool, true, false, ◌&&◌, ◌||◌, List, [], ◌∷◌, ◌++◌, Option, none, some,
  if◌then◌else◌, ◌==◌, filter, map, drop, is_some, get_or,
}
use agent_waypoint.Common.Text.{Text, text, starts_with}
use agent_waypoint.Common.Json.{Json, obj, Fields, get, as_record, read_string, is_true}
use agent_waypoint.Store.{EventType, Event}
use agent_waypoint.Timeline.{lower_case}
use mathlib.Core.Option

-- `extractAssistantDelta`: the text, where it is not reasoning.
unfoldable pub delta_of : Json → Text
delta_of payload = elim (as_record (some payload)) [
  | none ↦ []
  | some fs ↦ if is_true (get "isReasoning" fs) then [] else get_or (read_string (get "text" fs)) []
]

abbrev pub is_delta_type : EventType → Bool
is_delta_type EventType.assistant_delta = true
is_delta_type _ = false

abbrev pub is_delta_of : ℕ → Event → Bool
is_delta_of turn e = e.turn_id == turn && is_delta_type e.type

-- `chunks.join('')`.
abbrev pub join_deltas : List Event → Text
join_deltas [] = []
join_deltas (e ∷ es) = delta_of e.payload ++ join_deltas es

-- `collectAssistantDeltaContent`: the events of a turn stand in the order of their numbers.
unfoldable pub collect_deltas : ℕ → List Event → Text
collect_deltas turn es = join_deltas (filter (is_delta_of turn) es)

abbrev pub open_tag : Text
open_tag = text "<think>"

abbrev pub close_tag : Text
close_tag = text "</think>"

-- Whether a tag stands at the start, in whatever case.
unfoldable pub at_tag : Text → Text → Bool
unfolding starts_with
at_tag tag s = starts_with (map lower_case s) tag

-- `/<\/?think>/i.test(s)`.
unfoldable pub has_tag : Text → Bool
has_tag [] = false
has_tag (c ∷ s) = at_tag open_tag (c ∷ s) || at_tag close_tag (c ∷ s) || has_tag s

-- How many units there are up to the end of the first `</think>`.
unfoldable pub after_close : Text → Option ℕ
after_close [] = none
after_close (c ∷ s) = if at_tag close_tag (c ∷ s) then some 8 else Option.map suc (after_close s)

-- `replace(/<think>[\s\S]*?<\/think>/gi, '')`; the first number is how many units of a match are left to skip.
unfoldable pub strip_closed : ℕ → Text → Text
strip_closed n [] = []
strip_closed (suc n) (c ∷ s) = strip_closed n s
strip_closed zero (c ∷ s) =
    let rest = strip_closed 0 s in
    if at_tag open_tag (c ∷ s)
    then elim (after_close (drop 6 s)) [ none ↦ c ∷ rest | some k ↦ strip_closed (6 + k) s ]
    else c ∷ rest

-- `replace(/<think>[\s\S]*$/gi, '')`.
unfoldable pub strip_open : Text → Text
strip_open [] = []
strip_open (c ∷ s) = let rest = strip_open s in if at_tag open_tag (c ∷ s) then [] else c ∷ rest

-- `replace(/<\/think>/gi, '')`.
unfoldable pub strip_tags : ℕ → Text → Text
strip_tags n [] = []
strip_tags (suc n) (c ∷ s) = strip_tags n s
strip_tags zero (c ∷ s) =
    let rest = strip_tags 0 s in
    let skipped = strip_tags 7 s in if at_tag close_tag (c ∷ s) then skipped else c ∷ rest

-- `stripReasoningBlocks`.
unfoldable pub strip_reasoning : Text → Text
strip_reasoning s = if has_tag s then strip_tags 0 (strip_open (strip_closed 0 s)) else s

-- `resolveAssistantContent`.
abbrev pub resolve_content : Text → Text → Text
resolve_content [] fallback = fallback
resolve_content (c ∷ s) fallback = c ∷ s
