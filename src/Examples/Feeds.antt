-- ===== src/Examples/Feeds.antt =====
-- The theorems on what readers are sent at concrete values.
use agent_waypoint.Common.{ℕ, ◌≡◌, refl, true, false, List, [], ◌∷◌, none, some, is_some}
use agent_waypoint.Common.Text.{Text, text, trim, trim_start, is_space}
use agent_waypoint.Common.Json.{str, bool, obj, Fields, end, field, get, read_string, ℤ}
use agent_waypoint.Timeline.{
  ToolDetailRefKind, resolve_detail_ref, parse_detail_ref, build_detail_ref, read_trimmed,
}
use agent_waypoint.Timeline.Refs.{resolve_detail_ref-reads, parse_detail_ref-build_detail_ref}
use agent_waypoint.Approvals.{auto_approve_config}
use agent_waypoint.TurnConfig.{TextField, text_of, effective_runtime_config}
use agent_waypoint.TurnConfig.Settings.{auto_approve_config-effective_runtime_config}
use agent_waypoint.TurnConfig.Merging.{merge_all, text_of-merge_all}
use agent_waypoint.ContextStream.{Tracker, Update, sent, IsSpaced, sent-IsSpaced}

abbrev started : Fields
started = field "itemId" (str (text " cmd-1 ")) (field "kind" (str (text "command")) end)

resolve_detail_ref-reads_example : is_some (parse_detail_ref (text "item:cmd-1")) ≡ true
unfolding resolve_detail_ref build_detail_ref read_trimmed get trim trim_start is_space
resolve_detail_ref-reads_example = resolve_detail_ref-reads started refl

parse_detail_ref-build_detail_ref_example :
    parse_detail_ref (text "call:c:7") ≡ some (ToolDetailRefKind.call, text "c:7")
unfolding build_detail_ref trim trim_start is_space
parse_detail_ref-build_detail_ref_example =
    parse_detail_ref-build_detail_ref ToolDetailRefKind.call (text "c:7") refl refl refl

abbrev tracker : Tracker
tracker = record { last_display_percent = none; last_sent_at = 0; min_interval_ms = 1000 }

abbrev update : ℕ → ℕ → Update
update ratio now = record {
  source = record { ratio = some (ℤ.pos ratio); updated_at = none };
  force = false;
  now = now;
}

abbrev updates : List Update
updates = update 9000 5000 ∷ update 8000 5500 ∷ update 7000 6100 ∷ []

sent-IsSpaced_example : IsSpaced 1000 none 0 (sent 1 updates tracker)
sent-IsSpaced_example = sent-IsSpaced 1 updates tracker (refl, (refl, (refl, tt)))

-- Settings that accept approvals, and a report of the runner.
auto_approve_config-effective_runtime_config_example :
    auto_approve_config (
      effective_runtime_config
        (field "cwd" (str (text "/work")) end)
        (obj (field "autoApprove" (bool true) end)))
    ≡ auto_approve_config (obj (field "autoApprove" (bool true) end))
auto_approve_config-effective_runtime_config_example =
    auto_approve_config-effective_runtime_config (field "cwd" (str (text "/work")) end)
      (obj (field "autoApprove" (bool true) end))

abbrev chunk : Text → Fields
chunk s = field "text" (str s) end

text_of-merge_all_example :
    text_of TextField.text_field
      (merge_all TextField.text_field (chunk (text "a")) (chunk (text "b") ∷ chunk (text "c") ∷ []))
    ≡ text "abc"
unfolding get read_string
text_of-merge_all_example =
    text_of-merge_all TextField.text_field (chunk (text "a"))
      (chunk (text "b") ∷ chunk (text "c") ∷ [])
