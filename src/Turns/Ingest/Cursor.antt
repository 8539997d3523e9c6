-- ===== src/Turns/Ingest/Cursor.antt =====
-- apps/api/src/modules/turns/turns.service.ts: `pendingCursor` in `ingestRunnerEventNow`.
use agent_waypoint.Common.{
  ℕ, ◌≡◌, refl, subst, arith, Bool, true, false, List, [], ◌∷◌, ◌++◌, if◌then◌else◌, any, inl, inr,
  Bool-cases, get_or, update_first, All,
}
use agent_waypoint.Common.Json.{ℤ, pos, negsuc, get, read_number}
use agent_waypoint.Turns.{Pending, leb_ℤ, max_ℤ}
use agent_waypoint.Turns.Append.{is_pending_of}
use agent_waypoint.Turns.Ingest.{pending_cursor}

leb_ℤ_refl : (a : ℤ) → leb_ℤ a a ≡ true
leb_ℤ_refl (pos n) = ground arith
leb_ℤ_refl (negsuc n) = ground arith

leb_ℤ_trans : (a b c : ℤ) → leb_ℤ a b ≡ true → leb_ℤ b c ≡ true → leb_ℤ a c ≡ true
leb_ℤ_trans (pos a) (pos b) (pos c) h k = ground arith
leb_ℤ_trans (pos a) (pos b) (negsuc c) h k = absurd cc
leb_ℤ_trans (pos a) (negsuc b) c h k = absurd cc
leb_ℤ_trans (negsuc a) (pos b) (pos c) h k = refl
leb_ℤ_trans (negsuc a) (pos b) (negsuc c) h k = absurd cc
leb_ℤ_trans (negsuc a) (negsuc b) (pos c) h k = refl
leb_ℤ_trans (negsuc a) (negsuc b) (negsuc c) h k = ground arith

leb_ℤ_total : (a b : ℤ) → leb_ℤ a b ≡ false → leb_ℤ b a ≡ true
leb_ℤ_total (pos a) (pos b) h = ground arith
leb_ℤ_total (pos a) (negsuc b) h = refl
leb_ℤ_total (negsuc a) (pos b) h = absurd cc
leb_ℤ_total (negsuc a) (negsuc b) h = ground arith

max_ℤ-left : (a b : ℤ) → leb_ℤ a (max_ℤ a b) ≡ true
max_ℤ-left a b = elim (Bool-cases (leb_ℤ a b)) [
  | inl below ↦ rw below below
  | inr above ↦ rw above (leb_ℤ_refl a)
]

max_ℤ-right : (a b : ℤ) → leb_ℤ b (max_ℤ a b) ≡ true
max_ℤ-right a b = elim (Bool-cases (leb_ℤ a b)) [
  | inl below ↦ rw below (leb_ℤ_refl b)
  | inr above ↦ rw above (leb_ℤ_total a b above)
]

-- The number that a batch has been told up to.
abbrev pub told : Pending → ℤ
told p = get_or (read_number (get "runnerSeq" p.payload)) (pos 0)

abbrev moved : ℕ → ℤ → Pending → ℤ
moved turn cursor p = if is_pending_of turn p then max_ℤ cursor (told p) else cursor

moved-ge : (turn : ℕ) (cursor : ℤ) (p : Pending) → leb_ℤ cursor (moved turn cursor p) ≡ true
moved-ge turn cursor p = elim (Bool-cases (is_pending_of turn p)) [
  | inl own ↦ rw own (max_ℤ-left cursor (told p))
  | inr other ↦ rw other (leb_ℤ_refl cursor)
]

pending_cursor-ge :
    (turn : ℕ) (cursor : ℤ) (ps : List Pending)
    → leb_ℤ cursor (pending_cursor turn cursor ps) ≡ true
pending_cursor-ge turn cursor [] = leb_ℤ_refl cursor
pending_cursor-ge turn cursor (p ∷ ps) =
    leb_ℤ_trans cursor (moved turn cursor p) _ (moved-ge turn cursor p)
      (pending_cursor-ge turn (moved turn cursor p) ps)

-- A batch of the turn that has been told up to a number moves the cursor there.
abbrev pub Reaches : ℕ → ℤ → List Pending → Type 0
Reaches turn n ps = (cursor : ℤ) → leb_ℤ n (pending_cursor turn cursor ps) ≡ true

Reaches-head :
    (turn : ℕ) (n : ℤ) (p : Pending) (ps : List Pending)
    → is_pending_of turn p ≡ true
    → told p ≡ n
    → Reaches turn n (p ∷ ps)
Reaches-head turn n p ps own e cursor =
    leb_ℤ_trans n (moved turn cursor p) _
      (rw own (subst (λ m. leb_ℤ m (max_ℤ cursor (told p)) ≡ true) e (max_ℤ-right cursor (told p))))
      (pending_cursor-ge turn (moved turn cursor p) ps)

pub Reaches-append :
    (turn : ℕ) (n : ℤ) (ps : List Pending) (p : Pending)
    → is_pending_of turn p ≡ true
    → told p ≡ n
    → Reaches turn n (ps ++ p ∷ [])
Reaches-append turn n [] p own e = Reaches-head turn n p [] own e
Reaches-append turn n (q ∷ ps) p own e =
    λ cursor. Reaches-append turn n ps p own e (moved turn cursor q)

pub Reaches-update :
    (turn : ℕ) (n : ℤ) (test : Pending → Bool) (f : Pending → Pending) (ps : List Pending)
    → any test ps ≡ true
    → All (λ p. test p ≡ true → (is_pending_of turn (f p) ≡ true) × (told (f p) ≡ n)) ps
    → Reaches turn n (update_first test f ps)
Reaches-update turn n test f [] e h = absurd cc
Reaches-update turn n test f (p ∷ ps) e h = elim (Bool-cases (test p)) [
  | inl hit ↦ rw hit (Reaches-head turn n (f p) ps (h.0 hit).0 (h.0 hit).1)
  | inr miss ↦
      rw miss (λ cursor. Reaches-update turn n test f ps (rw miss at e) h.1 (moved turn cursor p))
]
