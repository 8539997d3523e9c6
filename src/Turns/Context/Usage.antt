-- ===== src/Turns/Context/Usage.antt =====
-- apps/api/src/modules/turns/turns.service.ts: the ratio in `buildContextUsageSnapshot`.
use agent_waypoint.Common.{
  ℕ, zero, suc, ◌≤◌, ◌<◌, ◌≡◌, arith, refl, min, Option, none, some, inl, inr, Bool-cases,
  Option-cases,
}
use agent_waypoint.Common.Json.{ℤ, pos, negsuc, Fields, get, read_number}
use agent_waypoint.Store.{Ratio, ContextUsage}
use agent_waypoint.Turns.Context.{
  clamped, remaining_tokens_of, quotient, remaining_ratio_of, usage_of, has_usage,
  build_context_usage,
}

-- A number from 0 to 1, over a denominator that is not 0.
abbrev pub IsRatio : Ratio → Type 0
IsRatio r = (0 < r.under) × (n : ℕ) × (r.over ≡ pos n) × (n ≤ r.under)

clamped-IsRatio : (over : ℤ) (under : ℕ) → 0 < under → IsRatio (clamped over under)
clamped-IsRatio (pos n) under h = (h, min n under, refl, omega arith)
clamped-IsRatio (negsuc n) under h = (h, 0, refl, omega arith)

quotient-IsRatio :
    (remaining window : Option ℤ) {r : Ratio} → quotient remaining window ≡ some r → IsRatio r
quotient-IsRatio none window e = absurd cc
quotient-IsRatio (some remaining) none e = absurd cc
quotient-IsRatio (some remaining) (some (pos zero)) e = absurd cc
quotient-IsRatio (some remaining) (some (negsuc w)) e = absurd cc
quotient-IsRatio (some remaining) (some (pos (suc w))) {r} e =
    let same : clamped remaining (suc w) ≡ r = cc in
    rw (← same) (clamped-IsRatio remaining (suc w) (omega arith))

remaining_ratio_of-IsRatio :
    (payload : Fields) {r : Ratio} → remaining_ratio_of payload ≡ some r → IsRatio r
unfolding remaining_ratio_of
remaining_ratio_of-IsRatio payload {r} e =
    elim (Option-cases (read_number (get "remainingRatio" payload))) [
      | inr (n, told) ↦
          let same : clamped n 1000 ≡ r = cc in rw (← same) (clamped-IsRatio n 1000 (omega arith))
      | inl silent ↦
          quotient-IsRatio (remaining_tokens_of payload)
            (read_number (get "modelContextWindow" payload)) cc
    ]

-- Whatever the runner tells of its tokens, also a window of none, more tokens than the window has, or less than none: a
-- ratio that is kept is a number, since nothing is divided by 0, and lies between 0 and 1.
pub build_context_usage-IsRatio :
    (payload : Fields) {usage : ContextUsage} {r : Ratio}
    → build_context_usage payload ≡ some usage
    → usage.remaining_ratio ≡ some r
    → IsRatio r
unfolding build_context_usage
build_context_usage-IsRatio payload {usage} {r} e k =
    elim (Bool-cases (has_usage (usage_of payload))) [
      | inr nothing ↦
          let wrong : ◌≡◌ {A = Option ContextUsage} none (some usage) =
            rw (nothing, build_context_usage) at e in
          absurd cc
      | inl there ↦
          let same : usage_of payload ≡ usage = cc in
          remaining_ratio_of-IsRatio payload (rw (← same) at k)
    ]
