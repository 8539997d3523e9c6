-- ===== src/Terminals/Deletion.antt =====
-- apps/api/src/modules/terminals/terminal-lifecycle.ts: `assertDeletable` and `discard`.
use agent_waypoint.Common.{
  ℕ, ◌≡◌, refl, sym, ap, ◌∙◌, ◌↔◌, ◌⊎◌, Bool, true, false, not, ◌&&◌, ◌||◌, List, [], ◌∷◌, map,
  Option, none, some, arith, filter, find?, any, All, All-map, if◌then◌else◌, ◌==◌, Bool-cases,
  Option-cases, inl, inr,
}
use agent_waypoint.Common.Text.{Text}
use agent_waypoint.Terminals.{TerminalState, Entry, Resource, ScreenCall, Service, has_id}
use agent_waypoint.Terminals.Create.{Host}
use agent_waypoint.Terminals.System.{System, SystemReach, new_system}
use agent_waypoint.Terminals.Attach.{is_empty}
use agent_waypoint.Terminals.Close.{
  in_scope, is_active, active_ids, assert_deletable, discard_one, discard_each, discard,
}
use agent_waypoint.Terminals.Step.{find?-id}
use agent_waypoint.Terminals.Moves.{resource_of}
use agent_waypoint.Terminals.Mirror.{IsMirrored, SystemReach-IsMirrored}

active_ids-eq-nil_iff :
    (project : ℕ) (session : Option ℕ) (es : List Entry)
    → (active_ids project session (map resource_of es) ≡ [])
      ↔ All (λ e. (in_scope project session (resource_of e) && is_active e.meta.state) ≡ false) es
unfolding active_ids
active_ids-eq-nil_iff project session [] = (λ _. tt, λ _. refl)
active_ids-eq-nil_iff project session (e ∷ es) =
    elim (Bool-cases (in_scope project session (resource_of e) && is_active e.meta.state)) [
      | inl hit ↦ rw hit ((λ h. cc), (λ h. cc (h.0)))
      | inr miss ↦ rw miss (
        (λ h. (refl, (active_ids-eq-nil_iff project session es).0 h)),
        (λ h. (active_ids-eq-nil_iff project session es).1 h.1),
      )
    ]

assert_deletable-eq-none_iff :
    (project : ℕ) (session : Option ℕ) (s : Service)
    → IsMirrored s
    → (assert_deletable project session s ≡ none)
      ↔ All
          (λ e. (in_scope project session (resource_of e) && is_active e.meta.state) ≡ false)
          s.entries
unfolding assert_deletable
assert_deletable-eq-none_iff project session s m = rw m (
    let law = active_ids-eq-nil_iff project session s.entries in
    (λ h. law.0 (nil_of _ h), λ h. rw (law.1 h)))
  where
    nil_of : (ids : List ℕ) → (if is_empty ids then none else some ids) ≡ none → ids ≡ []
    nil_of [] h = refl
    nil_of (i ∷ ids) h = cc

-- A terminal is out of the way of a deletion: if it is of the project, and of the session where one is named, it has
-- exited or failed.
abbrev pub IsOver : ℕ → Option ℕ → Entry → Type 0
IsOver project session e =
    e.meta.project_id ≡ project
    → (session ≡ none) ⊎ (session ≡ some e.meta.session_id)
    → (e.meta.state ≡ TerminalState.exited) ⊎ (e.meta.state ≡ TerminalState.failed)

IsOver-of :
    (project : ℕ) (session : Option ℕ) (e : Entry)
    → (in_scope project session (resource_of e) && is_active e.meta.state) ≡ false
    → IsOver project session e
IsOver-of project none e h same which = ground arith
IsOver-of project (some k) e h same (inl whole) = absurd cc
IsOver-of project (some k) e h same (inr its) = let own : k ≡ e.meta.session_id = cc in ground arith

of-IsOver :
    (project : ℕ) (session : Option ℕ) (e : Entry)
    → IsOver project session e
    → (in_scope project session (resource_of e) && is_active e.meta.state) ≡ false
of-IsOver project session e h =
    elim (Bool-cases (in_scope project session (resource_of e) && is_active e.meta.state)) [
      | inr idle ↦ idle
      | inl hit ↦ let (own, which) = hit_scope session hit in absurd (over (h own which) hit)
    ]
  where
    hit_scope :
        (session : Option ℕ)
        → (in_scope project session (resource_of e) && is_active e.meta.state) ≡ true
        → (e.meta.project_id ≡ project) × ((session ≡ none) ⊎ (session ≡ some e.meta.session_id))
    hit_scope none k = (ground arith, inl refl)
    hit_scope (some i) k =
        let own : e.meta.session_id ≡ i = ground arith in (ground arith, inr (ap some (sym own)))

    over :
        (e.meta.state ≡ TerminalState.exited) ⊎ (e.meta.state ≡ TerminalState.failed)
        → (in_scope project session (resource_of e) && is_active e.meta.state) ≡ true
        → ⊥
    over (inl a) k = ground arith
    over (inr a) k = ground arith

-- Whatever has happened since the start of the service: a project, or a session of it, may be deleted exactly when each
-- of its terminals has exited or failed. The check looks at the resources alone.
pub assert_deletable_iff :
    (serialize : List ScreenCall → Text) (host : Host) (project_of : ℕ → ℕ) (project : ℕ)
    (session : Option ℕ) {b : System}
    → SystemReach serialize host project_of new_system b
    → (assert_deletable project session b.service ≡ none)
      ↔ All (IsOver project session) b.service.entries
assert_deletable_iff serialize host project_of project session {b} r =
    let law =
      assert_deletable-eq-none_iff project session b.service
        (SystemReach-IsMirrored serialize host project_of r) in
    (
      λ h. All-map _ _ b.service.entries (IsOver-of project session) (law.0 h),
      λ h. law.1 (All-map _ _ b.service.entries (of-IsOver project session) h),
    )

-- Which entries a deletion takes away.
abbrev taken : ℕ → Option ℕ → List Resource → Entry → Bool
taken project session rs e = any (λ r. in_scope project session r && r.id == e.meta.id) rs

filter-filter :
    (p q : Entry → Bool) (es : List Entry) → filter p (filter q es) ≡ filter (λ e. q e && p e) es
filter-filter p q [] = refl
filter-filter p q (e ∷ es) = ground (arith, filter-filter p q es)

filter_missing :
    (id : ℕ) (es : List Entry)
    → find? (has_id id) es ≡ none
    → filter (λ e. not (has_id id e)) es ≡ es
filter_missing id [] h = refl
filter_missing id (e ∷ es) h = ground (arith, filter_missing id es)

entries-discard_one :
    (r : Resource) (s : Service)
    → (discard_one r s).entries ≡ filter (λ e. not (has_id r.id e)) s.entries
unfolding discard_one
entries-discard_one r s = elim (Option-cases (find? (has_id r.id) s.entries)) [
  | inl missing ↦ ground (arith, filter_missing r.id s.entries missing)
  | inr (e, found) ↦ ground (arith, find?-id r.id s.entries found)
]

entries-discard_each :
    (rs : List Resource) (project : ℕ) (session : Option ℕ) (s : Service)
    → (discard_each rs project session s).entries
      ≡ filter (λ e. not (taken project session rs e)) s.entries
unfolding discard_each
entries-discard_each [] project session s = sym (filter_all s.entries)
  where
    filter_all : (es : List Entry) → filter (λ e. not (taken project session [] e)) es ≡ es
    filter_all [] = refl
    filter_all (e ∷ es) = ap (◌∷◌ e) (filter_all es)
entries-discard_each (r ∷ rs) project session s = elim (Bool-cases (in_scope project session r)) [
  | inr out ↦ rw (out, discard_each) (entries-discard_each rs project session s)
  | inl hit ↦
      rw (hit, discard_each)
        (entries-discard_each rs project session (discard_one r s)
          ∙ ap (filter (λ e. not (taken project session rs e))) (entries-discard_one r s)
          ∙ filter-filter _ _ s.entries
          ∙ filter_cong s.entries)
]
  where
    filter_cong :
        (es : List Entry)
        → filter (λ e. not (has_id r.id e) && not (taken project session rs e)) es
          ≡ filter (λ e. not (true && r.id == e.meta.id || taken project session rs e)) es
    filter_cong [] = refl
    filter_cong (e ∷ es) = ground (arith, filter_cong es)

-- A terminal of the service that is in scope has its resource among those that are taken.
taken-own :
    (project : ℕ) (session : Option ℕ) (es : List Entry)
    → All
        (λ e.
          in_scope project session (resource_of e) ≡ true
          → taken project session (map resource_of es) e ≡ true)
        es
taken-own project session [] = tt
taken-own project session (e ∷ es) = (
  (λ h. ground arith),
  All-map _ _ es (λ x k h. ground (arith, k h)) (taken-own project session es),
)

-- Where the resources are those of the terminals, a deletion of a session or a project leaves none of its terminals.
pub discard-leaves :
    (project : ℕ) (session : Option ℕ) (s : Service)
    → IsMirrored s
    → All
        (λ e. in_scope project session (resource_of e) ≡ false)
        (discard project session s).entries
unfolding discard
discard-leaves project session s m =
    rw (entries-discard_each s.resources project session s, m)
      (left s.entries (taken-own project session s.entries))
  where
    ts : Entry → Bool
    ts = taken project session (map resource_of s.entries)

    left :
        (es : List Entry)
        → All (λ e. in_scope project session (resource_of e) ≡ true → ts e ≡ true) es
        → All (λ e. in_scope project session (resource_of e) ≡ false) (filter (λ e. not (ts e)) es)
    left [] h = tt
    left (e ∷ es) h = elim (Bool-cases (ts e)) [
      | inl hit ↦ rw hit (left es h.1)
      | inr miss ↦ rw miss (ground (arith, h.0), left es h.1)
    ]
