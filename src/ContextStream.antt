-- ===== src/ContextStream.antt =====
-- apps/api/src/modules/turns/context-update-stream.ts: which changes of the remaining context are sent to a
-- reader. A ratio is a number in ten-thousandths (`negsuc` below 0), a moment a number of milliseconds.
use agent_waypoint.Common.{
  ℕ, ◌+◌, ◌/◌, ◌≤◌, ◌≡◌, ◌⊎◌, inl, inr, Bool, false, not, ◌&&◌, ◌||◌, List, [], ◌∷◌, Option, none,
  some, if◌then◌else◌, ◌==◌, ltb, min, arith, Bool-cases, Option-cases, All, refl, sym, subst,
}
use agent_waypoint.Common.Json.{ℤ}

pub record Source : Type 0 where
  pub ratio : Option ℤ
  pub updated_at : Option ℕ

pub record Payload : Type 0 where
  pub turn_id : ℕ
  pub remaining_ratio : ℕ
  pub updated_at : Option ℕ

-- `ContextUpdateStreamTracker`.
pub record Tracker : Type 0 where
  pub last_display_percent : Option ℕ
  pub last_sent_at : ℕ
  pub min_interval_ms : ℕ

abbrev pub one_whole : ℕ
one_whole = 10000

-- `normalizeRatio`.
unfoldable pub normalize_ratio : Option ℤ → Option ℕ
normalize_ratio none = none
normalize_ratio (some (ℤ.negsuc n)) = some 0
normalize_ratio (some (ℤ.pos n)) = some (min one_whole n)

-- `Math.round(ratio * 100)`: halves go up.
abbrev pub display_percent : ℕ → ℕ
display_percent ratio = (ratio + 50) / 100

abbrev pub is_shown : ℕ → Option ℕ → Bool
is_shown percent none = false
is_shown percent (some shown) = percent == shown

abbrev pub is_early : Bool → ℕ → Tracker → Bool
is_early force now tracker =
    not force
    && ltb 0 tracker.last_sent_at
    && ltb now (tracker.last_sent_at + tracker.min_interval_ms)

-- `next`; the moment is `options.now` or the clock.
unfoldable pub next : ℕ → Source → Bool → ℕ → Tracker → Tracker × Option Payload
next turn source force now tracker = elim (normalize_ratio source.ratio) [
  | none ↦ (tracker, none)
  | some ratio ↦
      if is_shown (display_percent ratio) tracker.last_display_percent || is_early force now tracker
      then (tracker, none)
      else (
        record tracker { last_display_percent = some (display_percent ratio); last_sent_at = now },
        some (record { turn_id = turn; remaining_ratio = ratio; updated_at = source.updated_at }),
      )
]

pub record Update : Type 0 where
  pub source : Source
  pub force : Bool
  pub now : ℕ

abbrev pub prepend : ℕ → Option Payload → List (ℕ × Payload) → List (ℕ × Payload)
prepend now none ps = ps
prepend now (some p) ps = (now, p) ∷ ps

-- The updates that a reader is sent, each with the moment it is sent at.
unfoldable pub sent : ℕ → List Update → Tracker → List (ℕ × Payload)
sent turn [] tracker = []
sent turn (u ∷ us) tracker =
    let r = next turn u.source u.force u.now tracker in prepend u.now r.1 (sent turn us r.0)

abbrev pub Unforced : List Update → Type 0
Unforced us = All (λ u. u.force ≡ false) us

-- Two updates in a row show different percentages, and at least the interval lies between them.
abbrev pub IsSpaced : ℕ → Option ℕ → ℕ → List (ℕ × Payload) → Type 0
IsSpaced interval percent at [] = Unit
IsSpaced interval percent at ((now, p) ∷ ps) =
    (is_shown (display_percent p.remaining_ratio) percent ≡ false)
    × (p.remaining_ratio ≤ one_whole)
    × ((at ≡ 0) ⊎ (at + interval ≤ now))
    × IsSpaced interval (some (display_percent p.remaining_ratio)) now ps

normalize_ratio-le : (r : Option ℤ) {n : ℕ} → normalize_ratio r ≡ some n → n ≤ one_whole
unfolding normalize_ratio
normalize_ratio-le none e = cc
normalize_ratio-le (some (ℤ.negsuc k)) {n} e = let same : 0 ≡ n = ground arith in omega arith
normalize_ratio-le (some (ℤ.pos k)) {n} e =
    let same : min one_whole k ≡ n = ground arith in omega arith

-- An update is dropped, or it is due and sent.
next-cases :
    (turn : ℕ) (u : Update) (tracker : Tracker)
    → (next turn u.source u.force u.now tracker ≡ (tracker, none))
      ⊎ ((ratio : ℕ) × (ratio ≤ one_whole)
          × (is_shown (display_percent ratio) tracker.last_display_percent ≡ false)
          × (is_early u.force u.now tracker ≡ false)
          × (next turn u.source u.force u.now tracker ≡ (
            record tracker {
              last_display_percent = some (display_percent ratio);
              last_sent_at = u.now;
            },
            some (record {
              turn_id = turn;
              remaining_ratio = ratio;
              updated_at = u.source.updated_at;
            }),
          )))
unfolding next
next-cases turn u tracker = elim (Option-cases (normalize_ratio u.source.ratio)) [
  | inl nothing ↦ inl (rw (nothing, next) refl)
  | inr (ratio, e) ↦
      elim (Bool-cases (
        is_shown (display_percent ratio) tracker.last_display_percent
        || is_early u.force u.now tracker)) [
          | inl dropped ↦ inl (rw (e, next, dropped) refl)
          | inr due ↦ inr (
            ratio,
            normalize_ratio-le u.source.ratio e,
            ground arith,
            ground arith,
            rw (e, next, due) refl,
          )
        ]
]

-- Where no update is forced, what is sent to a reader is spaced: each update shows another percentage than the one
-- before it, its ratio lies between 0 and 1, and it comes at least the interval after the one before it, unless that
-- one was sent at the moment 0.
pub sent-IsSpaced :
    (turn : ℕ) (us : List Update) (tracker : Tracker)
    → Unforced us
    → IsSpaced tracker.min_interval_ms tracker.last_display_percent tracker.last_sent_at
        (sent turn us tracker)
unfolding sent
sent-IsSpaced turn [] tracker h = tt
sent-IsSpaced turn (u ∷ us) tracker h = elim (next-cases turn u tracker) [
  | inl dropped ↦ subst Spaced (sym dropped) (sent-IsSpaced turn us tracker h.1)
  | inr (ratio, bound, other, due, e) ↦
      subst Spaced (sym e) (other, bound, ground (arith, h.0), sent-IsSpaced turn us _ h.1)
]
  where
    Spaced : Tracker × Option Payload → Type 0
    Spaced r =
        IsSpaced tracker.min_interval_ms tracker.last_display_percent tracker.last_sent_at
          (prepend u.now r.1 (sent turn us r.0))
