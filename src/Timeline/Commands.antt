-- ===== src/Timeline/Commands.antt =====
-- apps/api/src/modules/turns/timeline-event-payload.ts: which fields a summary has.
use agent_waypoint.Common.{◌≡◌, refl, ap, ◌∙◌, false, Option, none, some, if◌then◌else◌}
use agent_waypoint.Common.Json.{Json, Fields, get, put, get-put}
use agent_waypoint.Timeline.{put_some}
use Prim.Native.String.{String}
use package.text.Mathlib.Text.{◌==◌ as str_eq}

pub get-put_other :
    (j k : String) (v : Json) (fs : Fields) → str_eq k j ≡ false → get j (put k v fs) ≡ get j fs
get-put_other j k v fs other = get-put j k v fs ∙ ap (λ b. if b then some v else get j fs) other

pub get-put_some :
    (j k : String) (v : Option Json) (fs : Fields)
    → str_eq k j ≡ false
    → get j (put_some k v fs) ≡ get j fs
get-put_some j k none fs other = refl
get-put_some j k (some v) fs other = get-put_other j k v fs other
