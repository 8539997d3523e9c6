-- ===== src/Approvals/Rows.antt =====
-- apps/api/src/modules/turns/approval-queue.service.ts: tables of approvals with their identifiers.
use agent_waypoint.Common.{
  ℕ, ◌+◌, ◌≤◌, ◌<◌, ◌≡◌, ◌≢◌, refl, ap, subst, ◌∙◌, Bool, true, false, ◌||◌, List, [], ◌∷◌, ◌++◌,
  some, arith, inl, inr, if◌then◌else◌, ◌==◌, ==_iff, ltb, filter, find?, any, All, All-map, count,
  update_first, update_where, Bool-cases, Option-cases,
}
use agent_waypoint.Store.{Approval}
use agent_waypoint.Approvals.{has_row_id}
use agent_waypoint.Approvals.Publish.{oldest}

-- Row identifiers are unique, and those to come are fresh.
abbrev pub HasUniqueIds : List Approval → Type 0
HasUniqueIds [] = Unit
HasUniqueIds (a ∷ rows) = (any (has_row_id a.id) rows ≡ false) × HasUniqueIds rows

abbrev pub Stands : (Approval → Bool) → List Approval → Approval → Type 0
Stands p rows a =
    (find? (has_row_id a.id) rows ≡ some a) × (p a ≡ true) × (any (has_row_id a.id) rows ≡ true)

pub Stands-cons :
    (p : Approval → Bool) (x a : Approval) (rows : List Approval)
    → any (has_row_id x.id) rows ≡ false
    → Stands p rows a
    → Stands p (x ∷ rows) a
Stands-cons p x a rows u (found, fits, there) = elim (Bool-cases (x.id == a.id)) [
  | inr other ↦ ground arith
  | inl same ↦
      let k : any (has_row_id a.id) rows ≡ false =
        subst (λ i. any (has_row_id i) rows ≡ false) ((==_iff x.id a.id).0 same) u in
      cc
]

Stands-head :
    (p : Approval → Bool) (x : Approval) (rows : List Approval) → p x ≡ true → Stands p (x ∷ rows) x
Stands-head p x rows h = ground arith

-- The approval that is taken stands in the table, under its identifier, with what it was chosen for.
pub oldest-Stands :
    (p : Approval → Bool) (rows : List Approval) {a : Approval}
    → HasUniqueIds rows
    → oldest (filter p rows) ≡ some a
    → Stands p rows a
unfolding oldest
oldest-Stands p [] u e = cc
oldest-Stands p (x ∷ rows) {a} u e = elim (Bool-cases (p x)) [
  | inr miss ↦ Stands-cons p x a rows u.0 (oldest-Stands p rows u.1 (rw (miss, oldest) at e))
  | inl hit ↦ elim (Option-cases (oldest (filter p rows))) [
    | inl alone ↦
        let same : x ≡ a = ground arith in
        subst (Stands p (x ∷ rows)) same (Stands-head p x rows hit)
    | inr (b, later) ↦ elim (Bool-cases (ltb b.created_at x.created_at)) [
      | inl newer ↦
          let same : b ≡ a = ground arith in
          subst (Stands p (x ∷ rows)) same
            (Stands-cons p x b rows u.0 (oldest-Stands p rows u.1 later))
      | inr first ↦
          let same : x ≡ a = ground arith in
          subst (Stands p (x ∷ rows)) same (Stands-head p x rows hit)
    ]
  ]
]

-- So does whatever a search finds.
pub find?-Stands :
    (p : Approval → Bool) (rows : List Approval) {a : Approval}
    → HasUniqueIds rows
    → find? p rows ≡ some a
    → Stands p rows a
find?-Stands p [] u e = cc
find?-Stands p (x ∷ rows) {a} u e = elim (Bool-cases (p x)) [
  | inr miss ↦ Stands-cons p x a rows u.0 (find?-Stands p rows u.1 (rw miss at e))
  | inl hit ↦
      let same : x ≡ a = ground arith in subst (Stands p (x ∷ rows)) same (Stands-head p x rows hit)
]

-- A change of a row that leaves its identifier alone keeps them unique.
pub any-update_first :
    (p q : Approval → Bool) (f : Approval → Approval) (rows : List Approval)
    → ((x : Approval) → p (f x) ≡ p x)
    → any p (update_first q f rows) ≡ any p rows
any-update_first p q f [] k = refl
any-update_first p q f (x ∷ rows) k = ground (arith, k x, any-update_first p q f rows k)

any-update_where :
    (p q : Approval → Bool) (f : Approval → Approval) (rows : List Approval)
    → ((x : Approval) → p (f x) ≡ p x)
    → any p (update_where q f rows) ≡ any p rows
any-update_where p q f [] k = refl
any-update_where p q f (x ∷ rows) k = ground (arith, k x, any-update_where p q f rows k)

module _ (f : Approval → Approval) (keep : (x : Approval) → (f x).id ≡ x.id) where
  keep_test : (id : ℕ) (x : Approval) → has_row_id id (f x) ≡ has_row_id id x
  keep_test id x = ap (λ i. i == id) (keep x)

  pub update_first-HasUniqueIds :
      (q : Approval → Bool) (rows : List Approval)
      → HasUniqueIds rows
      → HasUniqueIds (update_first q f rows)
  update_first-HasUniqueIds q [] u = tt
  update_first-HasUniqueIds q (x ∷ rows) u = elim (Bool-cases (q x)) [
    | inl hit ↦ rw hit (rw (keep x) u.0, u.1)
    | inr miss ↦
        rw miss
          (any-update_first _ q f rows (keep_test x.id) ∙ u.0, update_first-HasUniqueIds q rows u.1)
  ]

  pub update_where-HasUniqueIds :
      (q : Approval → Bool) (rows : List Approval)
      → HasUniqueIds rows
      → HasUniqueIds (update_where q f rows)
  update_where-HasUniqueIds q [] u = tt
  update_where-HasUniqueIds q (x ∷ rows) u = elim (Bool-cases (q x)) [
    | inl hit ↦ rw hit (
      rw (keep x) (any-update_where _ q f rows (keep_test x.id) ∙ u.0),
      update_where-HasUniqueIds q rows u.1,
    )
    | inr miss ↦
        rw miss
          (any-update_where _ q f rows (keep_test x.id) ∙ u.0, update_where-HasUniqueIds q rows u.1)
  ]

-- A change that makes no row pending.
pub count-update_first-le :
    (p q : Approval → Bool) (f : Approval → Approval) (rows : List Approval)
    → ((x : Approval) → p (f x) ≡ true → p x ≡ true)
    → count p (update_first q f rows) ≤ count p rows
count-update_first-le p q f [] k = omega arith
count-update_first-le p q f (x ∷ rows) k = ground (arith, k x, count-update_first-le p q f rows k)

pub count-update_where-le :
    (p q : Approval → Bool) (f : Approval → Approval) (rows : List Approval)
    → ((x : Approval) → p (f x) ≡ true → p x ≡ true)
    → count p (update_where q f rows) ≤ count p rows
count-update_where-le p q f [] k = omega arith
count-update_where-le p q f (x ∷ rows) k = ground (arith, k x, count-update_where-le p q f rows k)

-- The change of the one row that was found.
pub count-update_first_at :
    (p q : Approval → Bool) (f : Approval → Approval) (rows : List Approval) {a : Approval}
    → find? q rows ≡ some a
    → count p (update_first q f rows) ≤ count p rows + (if p (f a) then 1 else 0)
count-update_first_at p q f [] e = cc
count-update_first_at p q f (x ∷ rows) {a} e = elim (Bool-cases (q x)) [
  | inl hit ↦ let same : x ≡ a = ground arith in rw (hit, ← same) (ground arith)
  | inr miss ↦ rw miss (ground (arith, count-update_first_at p q f rows (rw miss at e)))
]

any-append :
    (x a : Approval) (rows : List Approval)
    → any (has_row_id x.id) (rows ++ a ∷ []) ≡ (any (has_row_id x.id) rows || has_row_id x.id a)
any-append x a [] = ground arith
any-append x a (y ∷ rows) = ground (arith, any-append x a rows)

pub append-HasUniqueIds :
    (rows : List Approval) (a : Approval)
    → HasUniqueIds rows
    → All (λ x. x.id ≢ a.id) rows
    → HasUniqueIds (rows ++ a ∷ [])
append-HasUniqueIds [] a u h = (refl, tt)
append-HasUniqueIds (x ∷ rows) a u h =
    (ground (arith, any-append x a rows), append-HasUniqueIds rows a u.1 h.1)

pub fresh_id : (n : ℕ) (rows : List Approval) → All (λ x. x.id < n) rows → All (λ x. x.id ≢ n) rows
fresh_id n rows h = All-map _ _ rows (λ x lt. omega arith) h
