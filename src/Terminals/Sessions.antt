-- ===== src/Terminals/Sessions.antt =====
-- apps/api/src/modules/terminals/terminals.service.ts: the limit of a session under the lock of its project.
use agent_waypoint.Common.{
  ℕ, ◌+◌, ◌≤◌, ◌<◌, ◌≡◌, refl, Bool, true, false, List, [], ◌∷◌, ◌++◌, arith, find?, any, All,
  count, count-append, ap, subst, ==_iff, if◌then◌else◌, ◌==◌, Bool-cases, Option-cases, inl, inr,
}
use agent_waypoint.Common.Text.{Text}
use agent_waypoint.Terminals.{ScreenCall, Service, ok, TerminalState, has_id}
use agent_waypoint.Terminals.Create.{
  Input, Session, Host, Plan, Begun, session_limit, in_session, begin_create, live_requests,
  start_entry, insert_entry, new_entry, spawned_entry, spawn_failed,
}
use agent_waypoint.Terminals.System.{
  System, of_project, of_session, is_free, load, SystemStep, SystemReach, serves, begins, answers,
  inserts, gives_up, starts, fails, here, next,
}
use agent_waypoint.Terminals.Limits.{
  check_limits-eq-makes, Fits, change_state-Fits, dispose-Fits, Step-Fits,
}

-- A creation goes on only below the limits, and changes nothing of the map before it has checked.
pub begin_create-eq-makes :
    (user_id : ℕ) (session : Session) (input : Input) (host : Host) (now : ℕ) (s : Service)
    {s' : Service} {plan : Plan}
    → begin_create user_id session input host now s ≡ (s', ok (Begun.makes plan))
    → (count (in_session session.session_id) s.entries < session_limit)
      × (s'.entries ≡ s.entries)
      × (plan.session ≡ session)
unfolding begin_create
begin_create-eq-makes user_id session input host now s {s'} {plan} h = ground (
  arith,
  check_limits-eq-makes user_id session input host
      (record s { requests = live_requests now s.requests }) {plan = plan},
)

pub entries-begin_create :
    (user_id : ℕ) (session : Session) (input : Input) (host : Host) (now : ℕ) (s : Service)
    → (begin_create user_id session input host now s).0.entries ≡ s.entries
unfolding begin_create
entries-begin_create user_id session input host now s = ground arith

count-middle {ℓ} :
    {A : Type ℓ} (p : A → Bool) (x : A) (xs ys : List A)
    → count p (xs ++ x ∷ ys) ≡ count p (xs ++ ys) + (if p x then 1 else 0)
count-middle p x [] ys = ground arith
count-middle p x (y ∷ xs) ys = ground (arith, count-middle p x xs ys)

pub All-middle {ℓ κ} :
    {A : Type ℓ} (P : A → Type κ) (x : A) (xs ys : List A)
    → All P (xs ++ x ∷ ys)
    → All P (xs ++ ys) × P x
All-middle P x [] ys h = (h.1, h.0)
All-middle P x (y ∷ xs) ys h = let (rest, this) = All-middle P x xs ys h.1 in ((h.0, rest), this)

pub insert_entry-eq-ok :
    (plan : Plan) (host : Host) (id date : ℕ) (s : Service) {s' : Service}
    → insert_entry plan host id date s ≡ ok s'
    → s'.entries ≡ s.entries ++ new_entry plan host id date ∷ []
unfolding insert_entry
insert_entry-eq-ok plan host id date s h = ground arith

count_new :
    (session : ℕ) (plan : Plan) (host : Host) (id date : ℕ)
    → count (in_session session) (new_entry plan host id date ∷ [])
      ≡ (if of_session session plan then 1 else 0)
unfolding new_entry
count_new session plan host id date = refl

spawned_entry-Fits :
    (session k : ℕ) (plan : Plan) (id now date : ℕ) (s : Service)
    → Fits session k s
    → Fits session k (spawned_entry plan id now date s)
unfolding spawned_entry
spawned_entry-Fits session k plan id now date s h =
    change_state-Fits session k id TerminalState.running (start_entry now date) [] s (λ x. refl) h

spawn_failed-Fits :
    (session k id : ℕ) (s : Service) → Fits session k s → Fits session k (spawn_failed id s)
unfolding spawn_failed
spawn_failed-Fits session k id s h = elim (Option-cases (find? (has_id id) s.entries)) [
  | inl missing ↦ rw (missing, spawn_failed) h
  | inr (e, found) ↦ rw (found, spawn_failed) (dispose-Fits session k e s h)
]

-- With the project's lock free, none of its sessions has a creation under way.
none_checking :
    (session : ℕ) (project_of : ℕ → ℕ) (ps : List Plan)
    → All (λ p. p.session.project_id ≡ project_of p.session.session_id) ps
    → any (of_project (project_of session)) ps ≡ false
    → count (of_session session) ps ≡ 0
none_checking session project_of [] h f = refl
none_checking session project_of (p ∷ ps) h f = elim (Bool-cases (of_session session p)) [
  | inr other ↦ ground (arith, none_checking session project_of ps h.1)
  | inl same ↦
      let here : project_of p.session.session_id ≡ project_of session =
        ap project_of ((==_iff p.session.session_id session).0 same) in
      absurd (ground arith)
]

abbrev size : ℕ → System → ℕ
size session a = count (in_session session) a.service.entries

begins_load :
    (session : ℕ) (a : System) (sn : Session) (project_of : ℕ → ℕ)
    → count (in_session sn.session_id) a.service.entries < session_limit
    → sn.project_id ≡ project_of sn.session_id
    → is_free sn.project_id a ≡ true
    → All (λ p. p.session.project_id ≡ project_of p.session.session_id) a.checking
    → load session a ≤ session_limit
    → load session a + (if sn.session_id == session then 1 else 0) ≤ session_limit
begins_load session a sn project_of room pr free placed loaded =
    elim (Bool-cases (sn.session_id == session)) [
      | inr other ↦ rw other (omega arith)
      | inl same ↦
          let here : sn.session_id ≡ session = (==_iff sn.session_id session).0 same in
          let idle : any (of_project (project_of session)) a.checking ≡ false =
            ground (arith, pr, ap project_of here) in
          rw same (
            omega (
              arith,
              subst (λ k. count (in_session k) a.service.entries < session_limit) here room,
              none_checking session project_of a.checking placed idle,
            ))
    ]

module _ (serialize : List ScreenCall → Text) (host : Host) (project_of : ℕ → ℕ) where
  pub record IsWithin (session : ℕ) (a : System) : Type 0 where
    pub loaded : load session a ≤ session_limit
    pub placed : All (λ p. p.session.project_id ≡ project_of p.session.session_id) a.checking

  SystemStep-IsWithin :
      (session : ℕ) {a b : System}
      → SystemStep serialize host project_of a b
      → IsWithin session a
      → IsWithin session b
  SystemStep-IsWithin session {a} (serves st h) v =
      let fits = Step-Fits session (size session a) serialize st (omega arith) in
      rw h (record { loaded = omega arith; placed = v.placed })
  SystemStep-IsWithin session {a} (begins u now sn input plan pr free made h) v =
      let (room, kept, its) = begin_create-eq-makes u sn input host now a.service made in
      rw h (record {
        loaded =
            rw (kept, its)
              (ground (arith, begins_load session a sn project_of room pr free v.placed v.loaded));
        placed = (rw its pr, v.placed);
      })
  SystemStep-IsWithin session {a} (answers u now sn input free h) v = rw h (record {
    loaded = rw (entries-begin_create u sn input host now a.service) v.loaded;
    placed = v.placed;
  })
  SystemStep-IsWithin session {a} (inserts id date plan before after {s'} new unused e made h) v =
      rw h (record {
        loaded = omega (
          arith,
          ap (count (in_session session)) (insert_entry-eq-ok plan host id date a.service made),
          count-append (in_session session) a.service.entries (new_entry plan host id date ∷ []),
          count_new session plan host id date,
          ap (count (of_session session)) e,
          count-middle (of_session session) plan before after,
          v.loaded,
        );
        placed = (All-middle _ plan before after (subst (All _) e v.placed)).0;
      })
  SystemStep-IsWithin session {a} (gives_up plan before after e h) v = rw h (record {
    loaded = omega (
      arith,
      ap (count (of_session session)) e,
      count-middle (of_session session) plan before after,
      v.loaded,
    );
    placed = (All-middle _ plan before after (subst (All _) e v.placed)).0;
  })
  SystemStep-IsWithin session {a} (starts id now date plan before after e h) v =
      let fits =
        spawned_entry-Fits session (size session a) plan id now date a.service (omega arith) in
      rw h (record { loaded = omega arith; placed = v.placed })
  SystemStep-IsWithin session {a} (fails id plan before after e h) v =
      let fits = spawn_failed-Fits session (size session a) id a.service (omega arith) in
      rw h (record { loaded = omega arith; placed = v.placed })

  pub SystemReach-IsWithin :
      (session : ℕ) {a b : System}
      → SystemReach serialize host project_of a b
      → IsWithin session a
      → IsWithin session b
  SystemReach-IsWithin session here v = v
  SystemReach-IsWithin session (next r st) v =
      SystemStep-IsWithin session st (SystemReach-IsWithin session r v)

  -- However creations interleave with each other and with all else: where a session has at most 16 terminals with
  -- those about to be made, and each creation that is checking names the project of its session, the session
  -- has at most 16 terminals afterwards.
  pub session_bounded :
      (session : ℕ) {a b : System}
      → SystemReach serialize host project_of a b
      → IsWithin session a
      → count (in_session session) b.service.entries ≤ session_limit
  session_bounded session r v = omega (arith, (SystemReach-IsWithin session r v).loaded)
