-- ===== src/Turns/Context.antt =====
-- apps/api/src/modules/turns/turns.service.ts: `buildContextUsageSnapshot`, and the snapshots of a turn's context that
-- wait to be written. A number is kept in thousandths.
pub mod Usage
use agent_waypoint.Common.{
  ℕ, zero, suc, ◌+◌, ◌-◌, ◌/◌, Bool, true, false, not, ◌&&◌, ◌||◌, List, [], ◌∷◌, ◌++◌, Option,
  none, some, if◌then◌else◌, ◌==◌, ltb, find?, filter, any, update_first, min, or_else, is_some,
}
use agent_waypoint.Common.Json.{ℤ, pos, negsuc, Json, Fields, get, read_number}
use agent_waypoint.Store.{Turn, Ratio, ContextUsage, Store, find_turn, turn_has_id}
use agent_waypoint.Turns.{PendingContext, Service, Fault, Action, done, throw, ◌>>◌, update_turn}

-- `Math.max(a - b, 0)`.
abbrev pub minus : ℤ → ℤ → ℤ
minus (pos m) (pos n) = pos (m - n)
minus (pos m) (negsuc n) = pos (m + n + 1)
minus (negsuc m) (pos n) = pos 0
minus (negsuc m) (negsuc n) = pos (n - m)

-- `Math.max(0, n)`.
abbrev pub positive : ℤ → ℕ
positive (pos n) = n
positive (negsuc n) = 0

-- `Math.max(0, Math.round(n))`.
abbrev pub rounded : ℤ → ℕ
rounded n = (positive n + 500) / 1000

-- `Math.max(0, Math.min(1, …))` of a quotient.
abbrev pub clamp : ℤ → ℕ → ℤ
clamp (pos n) under = pos (min n under)
clamp (negsuc n) under = pos 0

abbrev pub clamped : ℤ → ℕ → Ratio
clamped over under = record { over = clamp over under; under = under }

-- `remainingTokens`, from the others where it is not told.
unfoldable pub remaining_tokens_of : Fields → Option ℤ
remaining_tokens_of payload = elim (read_number (get "remainingTokens" payload)) [
  | some n ↦ some n
  | none ↦ elim (read_number (get "modelContextWindow" payload)) [
    | none ↦ none
    | some window ↦ elim (read_number (get "totalTokens" payload)) [
      | none ↦ none
      | some total ↦ some (minus window total)
    ]
  ]
]

abbrev pub quotient : Option ℤ → Option ℤ → Option Ratio
quotient (some remaining) (some (pos (suc window))) = some (clamped remaining (suc window))
quotient _ _ = none

unfoldable pub remaining_ratio_of : Fields → Option Ratio
unfolding remaining_tokens_of
remaining_ratio_of payload = elim (read_number (get "remainingRatio" payload)) [
  | some n ↦ some (clamped n 1000)
  | none ↦ quotient (remaining_tokens_of payload) (read_number (get "modelContextWindow" payload))
]

abbrev pub rounded_tokens : Option ℤ → Option ℕ
rounded_tokens none = none
rounded_tokens (some n) = some (rounded n)

abbrev pub usage_of : Fields → ContextUsage
usage_of payload = record {
  remaining_ratio = remaining_ratio_of payload;
  remaining_tokens = rounded_tokens (remaining_tokens_of payload);
  window_tokens = rounded_tokens (read_number (get "modelContextWindow" payload));
}

abbrev pub has_usage : ContextUsage → Bool
has_usage u = is_some u.remaining_ratio || is_some u.remaining_tokens || is_some u.window_tokens

-- `buildContextUsageSnapshot`.
unfoldable pub build_context_usage : Fields → Option ContextUsage
unfolding remaining_ratio_of remaining_tokens_of
build_context_usage payload =
    let usage = usage_of payload in if has_usage usage then some usage else none

-- `{ ...existing, ...snapshot }`.
abbrev pub merge_usage : ContextUsage → ContextUsage → ContextUsage
merge_usage existing later = record {
  remaining_ratio = or_else later.remaining_ratio existing.remaining_ratio;
  remaining_tokens = or_else later.remaining_tokens existing.remaining_tokens;
  window_tokens = or_else later.window_tokens existing.window_tokens;
}

abbrev pub is_context_of : ℕ → PendingContext → Bool
is_context_of turn c = c.turn_id == turn

abbrev pub merge_context : ContextUsage → PendingContext → PendingContext
merge_context snapshot c = record c { snapshot = merge_usage c.snapshot snapshot }

-- `queueContextUsageSnapshot`.
unfoldable pub queue_context : ℕ → ContextUsage → List PendingContext → List PendingContext
queue_context turn snapshot cs =
    if any (is_context_of turn) cs
    then update_first (is_context_of turn) (merge_context snapshot) cs
    else cs ++ record { turn_id = turn; snapshot = snapshot } ∷ []

abbrev pub with_usage : ContextUsage → ℕ → Turn → Turn
with_usage usage now t = record t {
  context = merge_usage t.context usage;
  context_updated_at = some now;
}

abbrev pub without_context : ℕ → Service → Service
without_context turn s = record s { contexts = filter (λ c. not (is_context_of turn c)) s.contexts }

-- `flushPendingContextUsageSnapshot`: what cannot be written is lost.
unfoldable pub flush_context : ℕ → ℕ → Action
flush_context turn now s = elim (find? (is_context_of turn) s.contexts) [
  | none ↦ done s
  | some c ↦ update_turn turn (with_usage c.snapshot now) (without_context turn s)
]

-- `flushContextUsageSnapshotsForTurn`: two rounds, since the first leaves nothing.
unfoldable pub flush_context_rounds : ℕ → ℕ → ℕ → Action
flush_context_rounds zero turn now s = throw Fault.unfinished s
flush_context_rounds (suc fuel) turn now s =
    if any (is_context_of turn) s.contexts
    then (flush_context turn now >> flush_context_rounds fuel turn now) s
    else done s

unfoldable pub flush_contexts : ℕ → ℕ → Action
flush_contexts turn now = flush_context_rounds 2 turn now

-- `flushAllContextUsageSnapshots`: one round over the turns that wait at its start.
unfoldable pub flush_each_context : List PendingContext → ℕ → Action
flush_each_context [] now = done
flush_each_context (c ∷ cs) now = flush_context c.turn_id now >> flush_each_context cs now

unfoldable pub flush_all_contexts : ℕ → Action
flush_all_contexts now s = flush_each_context s.contexts now s
