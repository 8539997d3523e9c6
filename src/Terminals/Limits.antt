-- ===== src/Terminals/Limits.antt =====
-- apps/api/src/modules/terminals/terminals.service.ts: the limits of `create`, and how many terminals the other methods leave.
use agent_waypoint.Common.{
  ℕ, ◌≤◌, ◌<◌, ◌≡◌, not, List, arith, count, count-update_first, count-filter-le, ap, length-filter,
  length, ◌==◌,
}
use agent_waypoint.Common.Text.{Text}
use agent_waypoint.Terminals.{
  Entry, ScreenCall, Service, ok, TerminalState, Effect, set_state, has_id, change, change_state,
  dispose,
}
use agent_waypoint.Terminals.Create.{
  Input, Session, Host, Plan, Begun, session_limit, service_limit, in_session, check_limits,
}
use agent_waypoint.Terminals.Step.{Step}
use agent_waypoint.Terminals.Moves.{resource_of, KeepsResource, Step_keeps}

pub check_limits-eq-makes :
    (user_id : ℕ) (session : Session) (input : Input) (host : Host) (s : Service) {plan : Plan}
    → check_limits user_id session input host s ≡ ok (Begun.makes plan)
    → (count (in_session session.session_id) s.entries < session_limit)
      × (length s.entries < service_limit)
      × (plan.session ≡ session)
unfolding check_limits
check_limits-eq-makes user_id session input host s h =
    ground (arith, length-filter (in_session session.session_id) s.entries)

-- The number of a session's terminals after what can be done to the service.
module _ (session k : ℕ) where
  abbrev pub Fits : Service → Type 0
  Fits s = count (in_session session) s.entries ≤ k

  change-Fits :
      (id : ℕ) (f : Entry → Entry) (es : List Effect) (s : Service)
      → KeepsResource f
      → Fits s
      → Fits (change id f es s)
  change-Fits id f es s keep h = omega (
    arith,
    count-update_first (in_session session) (has_id id) f s.entries
        (λ x. ap (λ r. r.session_id == session) (keep x).0),
  )

  pub change_state-Fits :
      (id : ℕ) (st : TerminalState) (f : Entry → Entry) (es : List Effect) (s : Service)
      → ((e : Entry) → resource_of (f e) ≡ resource_of e)
      → Fits s
      → Fits (change_state id st f es s)
  unfolding change_state
  change_state-Fits id st f es s keep h = omega (
    arith,
    count-update_first (in_session session) (has_id id) (λ x. set_state st (f x)) s.entries
        (λ x. ap (λ r. r.session_id == session) (keep x)),
  )

  pub dispose-Fits : (e : Entry) (s : Service) → Fits s → Fits (dispose e s)
  unfolding dispose
  dispose-Fits e s h =
      omega (arith, count-filter-le (in_session session) (λ x. not (has_id e.meta.id x)) s.entries)

  pub Step-Fits :
      (serialize : List ScreenCall → Text) {s t : Service} → Step serialize s t → Fits s → Fits t
  Step-Fits serialize st h =
      Step_keeps Fits change-Fits
        (λ id st f es s keep. change_state-Fits id st f es s (λ e. (keep e).0)) dispose-Fits
        (λ es s k. k) (λ s k. k) (λ id s missing k. k) serialize st h
