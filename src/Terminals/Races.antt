-- ===== src/Terminals/Races.antt =====
-- apps/api/src/modules/terminals/terminals.service.ts: the limit of the service, which no lock guards.
use agent_waypoint.Common.{
  ℕ, ◌+◌, ◌≡◌, ◌≢◌, refl, true, List, [], ◌∷◌, arith, length, length-append, ap, find?, none, ◌++◌,
  ◌∙◌,
}
use agent_waypoint.Common.Text.{Text}
use agent_waypoint.Terminals.{Entry, ScreenCall, Service, ok, has_id}
use agent_waypoint.Terminals.Create.{
  Input, Session, Host, Plan, Begun, service_limit, begin_create, inserted, insert_entry, new_entry,
}
use agent_waypoint.Terminals.System.{System, SystemReach, begins, inserts, here, next}
use agent_waypoint.Terminals.Sessions.{begin_create-eq-makes, insert_entry-eq-ok}

insert_entry-accessible :
    (plan : Plan) (host : Host) (id date : ℕ) (s : Service)
    → host.is_accessible plan.cwd ≡ true
    → (t : Service) × (insert_entry plan host id date s ≡ ok t)
      × (length t.entries ≡ length s.entries + 1)
unfolding insert_entry
insert_entry-accessible plan host id date s open_dir = (
  inserted plan host id date s,
  rw open_dir refl,
  omega (arith, length-append s.entries (new_entry plan host id date ∷ [])),
)

find?-snoc :
    (id1 id2 date : ℕ) (plan : Plan) (host : Host) (es : List Entry)
    → id1 ≢ id2
    → find? (has_id id2) es ≡ none
    → find? (has_id id2) (es ++ new_entry plan host id1 date ∷ []) ≡ none
unfolding new_entry
find?-snoc id1 id2 date plan host [] apart h = ground arith
find?-snoc id1 id2 date plan host (e ∷ es) apart h =
    ground (arith, find?-snoc id1 id2 date plan host es apart)

module _ (serialize : List ScreenCall → Text) (host : Host) (project_of : ℕ → ℕ) where
  -- Whenever a service is one terminal below its limit of 128 and two creations for sessions of two
  -- projects both pass the check before either has been inserted, 129 terminals can be reached.
  pub service_limit_exceeded :
      (s s' s'' : Service) (u1 u2 n1 n2 id1 id2 date : ℕ) (sn1 sn2 : Session) (i1 i2 : Input)
      (plan1 plan2 : Plan)
      → length s.entries + 1 ≡ service_limit
      → find? (has_id id1) s.entries ≡ none
      → find? (has_id id2) s.entries ≡ none
      → id1 ≢ id2
      → sn1.project_id ≡ project_of sn1.session_id
      → sn2.project_id ≡ project_of sn2.session_id
      → sn1.project_id ≢ sn2.project_id
      → begin_create u1 sn1 i1 host n1 s ≡ (s', ok (Begun.makes plan1))
      → begin_create u2 sn2 i2 host n2 s' ≡ (s'', ok (Begun.makes plan2))
      → host.is_accessible plan1.cwd ≡ true
      → host.is_accessible plan2.cwd ≡ true
      → (b : System) × SystemReach serialize host project_of
          (record { service = s; checking = []; spawning = [] })
          b
        × (length b.service.entries ≡ service_limit + 1)
  service_limit_exceeded s s' s'' u1 u2 n1 n2 id1 id2 date sn1 sn2 i1 i2 plan1 plan2 full new1 new2
        apart f1 f2 ne b1 b2 a1 a2 =
      let (_, kept1, its1) = begin_create-eq-makes u1 sn1 i1 host n1 s b1 in
      let (_, kept2, _) = begin_create-eq-makes u2 sn2 i2 host n2 s' b2 in
      let (t1, ok1, len1) = insert_entry-accessible plan1 host id1 date s'' a1 in
      let still : find? (has_id id2) t1.entries ≡ none =
        rw (insert_entry-eq-ok plan1 host id1 date s'' ok1, kept2, kept1)
          (find?-snoc id1 id2 date plan1 host s.entries apart new2) in
      let (t2, ok2, len2) = insert_entry-accessible plan2 host id2 date t1 a2 in
      (
        record { service = t2; checking = []; spawning = (id2, plan2) ∷ (id1, plan1) ∷ [] },
        next
            (next
              (next (next here (begins u1 n1 sn1 i1 plan1 f1 refl b1 refl))
                (begins u2 n2 sn2 i2 plan2 f2 (ground arith) b2 refl))
              (inserts id1 date plan1 (plan2 ∷ []) [] (rw (kept2 ∙ kept1) new1) refl refl ok1 refl))
            (inserts id2 date plan2 [] [] still (ground arith) refl ok2 refl),
        omega (arith, ap length kept1, ap length kept2),
      )
