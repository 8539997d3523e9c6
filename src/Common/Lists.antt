-- ===== src/Common/Lists.antt =====
-- Lists as rows of a table: filtering, searching and updating by a Boolean test, with lengths over
-- the native numbers.
use Prim.Native.Nat.{ℕ, suc, zero, ◌+◌, ◌≤◌}
use mathlib.Core.Path.{◌≡◌, refl, ap}
use mathlib.Core.Logic.{inl, inr}
use mathlib.Core.List.{List, [], ◌∷◌, ◌++◌}
use mathlib.Core.Bool.{Bool, true, false, not, ◌||◌}
use mathlib.Core.Option.{Option, none, some}
use native.Mathlib.Omega.{arith}
use agent_waypoint.Common.Tests.{if◌then◌else◌, Bool-cases}

module _ {ℓ} {A : Type ℓ} where
  abbrev pub length : List A → ℕ
  length [] = 0
  length (x ∷ xs) = suc (length xs)

  abbrev pub take : ℕ → List A → List A
  take zero xs = []
  take (suc n) [] = []
  take (suc n) (x ∷ xs) = x ∷ take n xs

  abbrev pub drop : ℕ → List A → List A
  drop zero xs = xs
  drop (suc n) [] = []
  drop (suc n) (x ∷ xs) = drop n xs

  abbrev pub filter : (A → Bool) → List A → List A
  filter p [] = []
  filter p (x ∷ xs) = if p x then x ∷ filter p xs else filter p xs

  abbrev pub find? : (A → Bool) → List A → Option A
  find? p [] = none
  find? p (x ∷ xs) = if p x then some x else find? p xs

  abbrev pub any : (A → Bool) → List A → Bool
  any p [] = false
  any p (x ∷ xs) = p x || any p xs

  abbrev pub count : (A → Bool) → List A → ℕ
  count p [] = 0
  count p (x ∷ xs) = if p x then suc (count p xs) else count p xs

  -- `updateMany`: the change is made in every row that fits.
  abbrev pub update_where : (A → Bool) → (A → A) → List A → List A
  update_where p f [] = []
  update_where p f (x ∷ xs) = (if p x then f x else x) ∷ update_where p f xs

  -- A change of the first row that fits, which `find?` finds.
  abbrev pub update_first : (A → Bool) → (A → A) → List A → List A
  update_first p f [] = []
  update_first p f (x ∷ xs) = if p x then f x ∷ xs else x ∷ update_first p f xs

  abbrev pub All {κ} : (A → Type κ) → List A → Type κ
  All P [] = Unit
  All P (x ∷ xs) = P x × All P xs

  pub length-append : (xs ys : List A) → length (xs ++ ys) ≡ length xs + length ys
  length-append [] ys = omega arith
  length-append (x ∷ xs) ys = omega (arith, length-append xs ys)

  pub length-filter-le : (p : A → Bool) (xs : List A) → length (filter p xs) ≤ length xs
  length-filter-le p [] = omega arith
  length-filter-le p (x ∷ xs) = ground (arith, length-filter-le p xs)

  pub length-take-le : (n : ℕ) (xs : List A) → length (take n xs) ≤ n
  length-take-le zero xs = omega arith
  length-take-le (suc n) [] = omega arith
  length-take-le (suc n) (x ∷ xs) = omega (arith, length-take-le n xs)

  pub take-append-drop : (n : ℕ) (xs : List A) → take n xs ++ drop n xs ≡ xs
  take-append-drop zero xs = refl
  take-append-drop (suc n) [] = refl
  take-append-drop (suc n) (x ∷ xs) = ap (◌∷◌ x) (take-append-drop n xs)

  pub All-append {κ} : (P : A → Type κ) (xs ys : List A) → All P xs → All P ys → All P (xs ++ ys)
  All-append P [] ys hx hy = hy
  All-append P (x ∷ xs) ys hx hy = (hx.0, All-append P xs ys hx.1 hy)

  pub All-filter {κ} :
      (P : A → Type κ) (p : A → Bool) (xs : List A) → All P xs → All P (filter p xs)
  All-filter P p [] h = tt
  All-filter P p (x ∷ xs) h = elim (Bool-cases (p x)) [
    | inl e ↦ ground (arith, All-filter P p xs h.1)
    | inr e ↦ ground (arith, All-filter P p xs h.1)
  ]

  -- A change that keeps the property of the rows that it reaches keeps it of all.
  pub All-update_where {κ} :
      (P : A → Type κ) (p : A → Bool) (f : A → A) (xs : List A)
      → ((x : A) → p x ≡ true → P x → P (f x))
      → All P xs
      → All P (update_where p f xs)
  All-update_where P p f [] keep h = tt
  All-update_where P p f (x ∷ xs) keep h =
      (ground (arith, keep x), All-update_where P p f xs keep h.1)

  pub All-update_first {κ} :
      (P : A → Type κ) (p : A → Bool) (f : A → A) (xs : List A) {x : A}
      → find? p xs ≡ some x
      → P (f x)
      → All P xs
      → All P (update_first p f xs)
  All-update_first P p f [] e k h = cc
  All-update_first P p f (y ∷ xs) {x} e k h = elim (Bool-cases (p y)) [
    | inl hit ↦ let same : x ≡ y = ground arith in rw hit (rw same at k, h.1)
    | inr miss ↦ rw miss (h.0, All-update_first P p f xs (rw miss at e) k h.1)
  ]

  pub All-update_first_each {κ} :
      (P : A → Type κ) (p : A → Bool) (f : A → A) (xs : List A)
      → ((x : A) → P x → P (f x))
      → All P xs
      → All P (update_first p f xs)
  All-update_first_each P p f [] k h = tt
  All-update_first_each P p f (x ∷ xs) k h = elim (Bool-cases (p x)) [
    | inl hit ↦ rw hit (k x h.0, h.1)
    | inr miss ↦ rw miss (h.0, All-update_first_each P p f xs k h.1)
  ]

  pub update_first_missing :
      (p : A → Bool) (f : A → A) (xs : List A) → find? p xs ≡ none → update_first p f xs ≡ xs
  update_first_missing p f [] e = refl
  update_first_missing p f (x ∷ xs) e = ground (arith, update_first_missing p f xs)

  pub All-map {κ κ'} :
      (P : A → Type κ) (Q : A → Type κ') (xs : List A) → ((x : A) → P x → Q x) → All P xs → All Q xs
  All-map P Q [] f h = tt
  All-map P Q (x ∷ xs) f h = (f x h.0, All-map P Q xs f h.1)

  -- What `find?` returns fits the test and has every property of the rows.
  pub find?-All {κ} :
      (P : A → Type κ) (p : A → Bool) (xs : List A) {x : A}
      → find? p xs ≡ some x
      → All P xs
      → P x × (p x ≡ true)
  find?-All P p [] e h = cc
  find?-All P p (y ∷ xs) {x} e h = elim (Bool-cases (p y)) [
    | inl hit ↦ let same : y ≡ x = ground arith in rw (← same) (h.0, hit)
    | inr miss ↦ find?-All P p xs (ground arith) h.1
  ]

  pub find?-test : (p : A → Bool) (xs : List A) {x : A} → find? p xs ≡ some x → p x ≡ true
  find?-test p [] e = cc
  find?-test p (y ∷ xs) {x} e = elim (Bool-cases (p y)) [
    | inl hit ↦ let same : y ≡ x = ground arith in rw (← same) hit
    | inr miss ↦ find?-test p xs (ground arith)
  ]

  -- What was filtered out is found where it is added anew.
  pub find?-filter-not :
      (p : A → Bool) (xs : List A) (x : A)
      → p x ≡ true
      → find? p (filter (λ y. not (p y)) xs ++ x ∷ []) ≡ some x
  find?-filter-not p [] x h = ground arith
  find?-filter-not p (y ∷ xs) x h = ground (arith, find?-filter-not p xs x)

  pub any-filter-not : (p : A → Bool) (xs : List A) → any p (filter (λ y. not (p y)) xs) ≡ false
  any-filter-not p [] = refl
  any-filter-not p (y ∷ xs) = ground (arith, any-filter-not p xs)

  pub count-append : (p : A → Bool) (xs ys : List A) → count p (xs ++ ys) ≡ count p xs + count p ys
  count-append p [] ys = omega arith
  count-append p (x ∷ xs) ys = ground (arith, count-append p xs ys)

  pub length-filter : (p : A → Bool) (xs : List A) → length (filter p xs) ≡ count p xs
  length-filter p [] = refl
  length-filter p (x ∷ xs) = ground (arith, length-filter p xs)

  pub count-filter-le : (p q : A → Bool) (xs : List A) → count p (filter q xs) ≤ count p xs
  count-filter-le p q [] = omega arith
  count-filter-le p q (x ∷ xs) = ground (arith, count-filter-le p q xs)

  pub count-update_first :
      (p q : A → Bool) (f : A → A) (xs : List A)
      → ((x : A) → p (f x) ≡ p x)
      → count p (update_first q f xs) ≡ count p xs
  count-update_first p q f [] k = refl
  count-update_first p q f (x ∷ xs) k = ground (arith, k x, count-update_first p q f xs k)

  pub count-eq-zero : (p : A → Bool) (xs : List A) → any p xs ≡ false → count p xs ≡ 0
  count-eq-zero p [] h = refl
  count-eq-zero p (x ∷ xs) h = ground (arith, count-eq-zero p xs)
