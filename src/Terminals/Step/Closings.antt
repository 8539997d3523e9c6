-- ===== src/Terminals/Step/Closings.antt =====
-- apps/api/src/modules/terminals: what the shutdown and a deletion did, as rules.
use agent_waypoint.Common.{
  ℕ, ◌≡◌, refl, sym, subst, true, List, [], ◌∷◌, arith, inl, inr, find?, Bool-cases, Option-cases,
  Option, none, not, filter,
}
use agent_waypoint.Terminals.{
  CloseReason, Entry, Service, Result, Resource, resource_has_id, ok, err, has_id, dispose,
}
use agent_waypoint.Terminals.Close.{
  close, close_each, settled_or, shutdown, shutdown_end, dispose_each, discard, discard_each,
  discard_one, in_scope,
}
use agent_waypoint.Terminals.Step.Rules.{find?-id}

-- The shutdown closes each terminal that is still there, by a call like any other.
pub close_each_rule {ℓ} :
    (P : Service → Type ℓ)
    → ((user_id id : ℕ) (s t : Service)
        → close user_id id CloseReason.api_shutdown s ≡ ok t
        → P s
        → P t)
    → (es : List Entry) (s : Service) → P s
    → P (close_each es s)
unfolding close_each
close_each_rule P k [] s v = v
close_each_rule P k (e ∷ es) s v =
    close_each_rule P k es _
      (each (close e.owner e.meta.id CloseReason.api_shutdown s) (k e.owner e.meta.id s))
  where
    each : (r : Result Service) → ((t : Service) → r ≡ ok t → P s → P t) → P (settled_or s r)
    each (ok t) h = h t refl v
    each (err f) h = v

pub shutdown_rule {ℓ} :
    (P : Service → Type ℓ) (s : Service)
    → ((user_id id : ℕ) (s t : Service)
        → close user_id id CloseReason.api_shutdown s ≡ ok t
        → P s
        → P t)
    → P s
    → P (record s { stopping = true })
    → P (shutdown s)
unfolding shutdown
shutdown_rule P s k v w = elim (Bool-cases s.stopping) [
  | inl twice ↦ simp twice v
  | inr once ↦ simp once (close_each_rule P k s.entries _ w)
]

pub shutdown_end_rule {ℓ} :
    (P : Service → Type ℓ)
    → ((e : Entry) (s : Service) → P s → P (dispose e s))
    → (s : Service) → P s
    → P (shutdown_end s)
unfolding shutdown_end dispose_each
shutdown_end_rule P k s v = each s.entries s v
  where
    each : (es : List Entry) (s : Service) → P s → P (dispose_each es s)
    each [] s v = v
    each (e ∷ es) s v = each es (dispose e s) (k e s v)

find?-filter_gone :
    (id : ℕ) (es : List Entry) → find? (has_id id) (filter (λ x. not (has_id id x)) es) ≡ none
find?-filter_gone id [] = refl
find?-filter_gone id (e ∷ es) = ground (arith, find?-filter_gone id es)

-- A deletion disposes of terminals, and forgets resources whose terminals are gone.
pub discard_rule {ℓ} :
    (P : Service → Type ℓ)
    → ((e : Entry) (s : Service) → P s → P (dispose e s))
    → ((id : ℕ) (s : Service)
        → find? (has_id id) s.entries ≡ none
        → P s
        → P (record s { resources = filter (λ x. not (resource_has_id id x)) s.resources }))
    → (project : ℕ) (session : Option ℕ) (s : Service) → P s
    → P (discard project session s)
unfolding discard discard_each discard_one dispose
discard_rule P kd kf project session s v = each s.resources s v
  where
    one : (r : Resource) (s : Service) → P s → P (discard_one r s)
    one r s v = elim (Option-cases (find? (has_id r.id) s.entries)) [
      | inl missing ↦ rw (missing, discard_one) (kf r.id s missing v)
      | inr (e, found) ↦
          rw (found, discard_one)
            (kf r.id (dispose e s)
              (subst (λ k. find? (has_id r.id) (filter (λ x. not (has_id k x)) s.entries) ≡ none)
                (sym (find?-id r.id s.entries found)) (find?-filter_gone r.id s.entries))
              (kd e s v))
    ]

    each : (rs : List Resource) (s : Service) → P s → P (discard_each rs project session s)
    each [] s v = v
    each (r ∷ rs) s v = elim (Bool-cases (in_scope project session r)) [
      | inl hit ↦ rw (hit, discard_each) (each rs (discard_one r s) (one r s v))
      | inr out ↦ rw (out, discard_each) (each rs s v)
    ]
