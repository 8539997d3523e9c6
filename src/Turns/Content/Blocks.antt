-- ===== src/Turns/Content/Blocks.antt =====
-- apps/api/src/modules/turns/turns.service.ts: `stripReasoningBlocks` of a text with one block.
use agent_waypoint.Common.{
  ℕ, suc, ◌+◌, ◌≡◌, ◌≢◌, refl, ap, ◌∙◌, arith, true, false, [], ◌∷◌, ◌++◌, some, ◌==◌, All,
  All-append, length, drop, or_true,
}
use agent_waypoint.Common.Text.{Text, text, starts_with}
use agent_waypoint.Timeline.{lower_case}
use agent_waypoint.Turns.Content.{
  open_tag, close_tag, at_tag, has_tag, after_close, strip_closed, strip_open, strip_tags,
  strip_reasoning,
}

-- A text without the unit <.
abbrev pub IsPlain : Text → Type 0
IsPlain s = All (λ c. c ≢ 60) s

lower_case-plain : (c : ℕ) → c ≢ 60 → (lower_case c == 60) ≡ false
lower_case-plain c h = ground arith

-- No tag starts at another unit.
plain-open : (c : ℕ) (s : Text) → c ≢ 60 → at_tag open_tag (c ∷ s) ≡ false
unfolding at_tag starts_with
plain-open c s h = rw (lower_case-plain c h) refl

plain-close : (c : ℕ) (s : Text) → c ≢ 60 → at_tag close_tag (c ∷ s) ≡ false
unfolding at_tag starts_with
plain-close c s h = rw (lower_case-plain c h) refl

strip_closed-plain : (a s : Text) → IsPlain a → strip_closed 0 (a ++ s) ≡ a ++ strip_closed 0 s
unfolding strip_closed
strip_closed-plain [] s h = refl
strip_closed-plain (c ∷ a) s h =
    rw (plain-open c (a ++ s) h.0) (ap (◌∷◌ c) (strip_closed-plain a s h.1))

strip_closed-end : (b : Text) → IsPlain b → strip_closed 0 b ≡ b
unfolding strip_closed
strip_closed-end [] h = refl
strip_closed-end (c ∷ b) h = rw (plain-open c b h.0) (ap (◌∷◌ c) (strip_closed-end b h.1))

strip_open-plain : (a : Text) → IsPlain a → strip_open a ≡ a
unfolding strip_open
strip_open-plain [] h = refl
strip_open-plain (c ∷ a) h = rw (plain-open c a h.0) (ap (◌∷◌ c) (strip_open-plain a h.1))

strip_tags-plain : (a : Text) → IsPlain a → strip_tags 0 a ≡ a
unfolding strip_tags
strip_tags-plain [] h = refl
strip_tags-plain (c ∷ a) h = rw (plain-close c a h.0) (ap (◌∷◌ c) (strip_tags-plain a h.1))

skip : (u s : Text) (n : ℕ) → strip_closed (length u + n) (u ++ s) ≡ strip_closed n s
unfolding strip_closed
skip [] s n = ap (λ m. strip_closed m s) (omega arith)
skip (c ∷ u) s n =
    let one_less : suc (length u) + n ≡ suc (length u + n) = omega arith in
    ap (λ m. strip_closed m (c ∷ (u ++ s))) one_less ∙ skip u s n

at_close : (s : Text) → at_tag close_tag (close_tag ++ s) ≡ true
unfolding at_tag starts_with
at_close s = refl

at_open : (s : Text) → at_tag open_tag (open_tag ++ s) ≡ true
unfolding at_tag starts_with
at_open s = refl

after_close-plain :
    (r s : Text) → IsPlain r → after_close (r ++ (close_tag ++ s)) ≡ some (length r + 8)
unfolding after_close
after_close-plain [] s h = rw (at_close s) refl
after_close-plain (c ∷ r) s h =
    rw (plain-close c (r ++ (close_tag ++ s)) h.0, after_close-plain r s h.1)
      (ap some (omega arith))

has_tag-open : (a s : Text) → has_tag (a ++ (open_tag ++ s)) ≡ true
unfolding has_tag
has_tag-open [] s = rw (at_open s) refl
has_tag-open (c ∷ a) s = rw (has_tag-open a s) (or_true _)

-- The tag without its first unit.
abbrev open_rest : Text
open_rest = text "think>"

match_found :
    (c : ℕ) (s : Text) (k : ℕ)
    → at_tag open_tag (c ∷ s) ≡ true
    → after_close (drop 6 s) ≡ some k
    → strip_closed 0 (c ∷ s) ≡ strip_closed (6 + k) s
unfolding strip_closed
match_found c s k e f = rw (e, f) refl

strip_closed-block :
    (r b : Text)
    → IsPlain r
    → strip_closed 0 (open_tag ++ (r ++ (close_tag ++ b))) ≡ strip_closed 0 b
strip_closed-block r b h =
    let inside = r ++ (close_tag ++ b) in
    match_found 60 (open_rest ++ inside) (length r + 8) (at_open inside) (after_close-plain r b h)
    ∙ skip open_rest inside (length r + 8)
    ∙ skip r (close_tag ++ b) 8
    ∙ skip close_tag b 0

-- A text without <, then reasoning without < between the tags <think> and </think> in lower case, then a text without
-- <: what is left are the two texts, and nothing of the block.
pub strip_reasoning-block :
    (a r b : Text)
    → IsPlain a
    → IsPlain r
    → IsPlain b
    → strip_reasoning (a ++ (open_tag ++ (r ++ (close_tag ++ b)))) ≡ a ++ b
unfolding strip_reasoning
strip_reasoning-block a r b ha hr hb =
    let stripped : strip_closed 0 (a ++ (open_tag ++ (r ++ (close_tag ++ b)))) ≡ a ++ b =
      strip_closed-plain a _ ha ∙ ap (◌++◌ a) (strip_closed-block r b hr ∙ strip_closed-end b hb) in
    let both : IsPlain (a ++ b) = All-append (λ c. c ≢ 60) a b ha hb in
    rw (has_tag-open a (r ++ (close_tag ++ b)), stripped, strip_open-plain (a ++ b) both)
      (strip_tags-plain (a ++ b) both)
