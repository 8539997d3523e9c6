-- ===== src/Terminals/Whole.antt =====
-- apps/api/src/modules/terminals/terminals.service.ts: connections, control and closing, from the start of the service, with creations,
-- deletions and the shutdown.
use agent_waypoint.Common.{
  ℕ, ◌≡◌, ◌≢◌, refl, sym, ap, ◌∙◌, subst, false, not, List, [], ◌∷◌, ◌++◌, none, arith, inl, inr,
  find?, any, All, All-append, All-filter, All-map, All-update_first, All-update_first_each,
  find?-All, update_first, update_first_missing, Bool-cases, Option-cases, ◌==◌,
}
use agent_waypoint.Common.Text.{Text}
use agent_waypoint.Terminals.{
  TerminalState, Entry, Effect, ScreenCall, Service, has_id, set_state, change, change_state,
  dispose,
}
use agent_waypoint.Terminals.Create.{
  Host, Plan, new_entry, start_entry, spawned_entry, spawn_failed,
}
use agent_waypoint.Terminals.Step.{Step}
use agent_waypoint.Terminals.Moves.{KeepsResource, Step_keeps}
use agent_waypoint.Terminals.Peers.{IsSound, AllSound, dispose-AllSound}
use agent_waypoint.Terminals.Control.{Step-AllSound}
use agent_waypoint.Terminals.System.{
  System, new_system, SystemStep, SystemReach, serves, begins, answers, inserts, gives_up, starts,
  fails, here, next,
}
use agent_waypoint.Terminals.Sessions.{All-middle, insert_entry-eq-ok, entries-begin_create}

-- A terminal that waits for its process has none, if it is still there.
abbrev Waits : ℕ → Service → Type 0
Waits id s = All (λ e. e.meta.id ≡ id → e.spawned ≡ false) s.entries

change-Waits :
    (id k : ℕ) (f : Entry → Entry) (es : List Effect) (s : Service)
    → KeepsResource f
    → Waits id s
    → Waits id (change k f es s)
change-Waits id k f es s keep v =
    All-update_first_each _ (has_id k) f s.entries
      (λ x h own. (keep x).1 ∙ h (sym (ap (λ r. r.id) (keep x).0) ∙ own)) v

change_state-Waits :
    (id k : ℕ) (st : TerminalState) (f : Entry → Entry) (es : List Effect) (s : Service)
    → KeepsResource f
    → Waits id s
    → Waits id (change_state k st f es s)
unfolding change_state
change_state-Waits id k st f es s keep v =
    All-update_first_each _ (has_id k) (λ x. set_state st (f x)) s.entries
      (λ x h own. (keep x).1 ∙ h (sym (ap (λ r. r.id) (keep x).0) ∙ own)) v

dispose-Waits : (id : ℕ) (e : Entry) (s : Service) → Waits id s → Waits id (dispose e s)
unfolding dispose
dispose-Waits id e s v = All-filter _ (λ x. not (has_id e.meta.id x)) s.entries v

Step-Waits :
    (serialize : List ScreenCall → Text) (id : ℕ) {s t : Service}
    → Step serialize s t
    → Waits id s
    → Waits id t
Step-Waits serialize id st v =
    Step_keeps (Waits id) (change-Waits id) (change_state-Waits id) (dispose-Waits id) (λ es s h. h)
      (λ s h. h) (λ k s missing h. h) serialize st v

missing-Waits :
    (id : ℕ) (es : List Entry)
    → find? (has_id id) es ≡ none
    → All (λ e. e.meta.id ≡ id → e.spawned ≡ false) es
missing-Waits id [] h = tt
missing-Waits id (e ∷ es) h = ((λ own. absurd (ground arith)), missing-Waits id es (ground arith))

new_entry-IsSound :
    (plan : Plan) (host : Host) (id date : ℕ) → IsSound (new_entry plan host id date)
unfolding new_entry
new_entry-IsSound plan host id date = record {
  bounded = omega arith;
  controlled = tt;
  unattended = λ h. absurd cc;
  promised = tt;
  unspawned = λ h. (refl, inl (refl, refl));
  unstarted = λ h. refl;
}

new_entry-Waits :
    (k : ℕ) (plan : Plan) (host : Host) (id date : ℕ)
    → All (λ e. e.meta.id ≡ k → e.spawned ≡ false) (new_entry plan host id date ∷ [])
unfolding new_entry
new_entry-Waits k plan host id date = ((λ own. refl), tt)

-- The process of a terminal has started: the clock of the unattended runs, though somebody may have closed it.
start_entry-IsSound :
    (now date : ℕ) (e : Entry)
    → e.spawned ≡ false
    → IsSound e
    → IsSound (set_state TerminalState.running (start_entry now date e))
start_entry-IsSound now date e without v = ground arith

spawned_entry-AllSound :
    (plan : Plan) (id now date : ℕ) (s : Service)
    → Waits id s
    → AllSound s
    → AllSound (spawned_entry plan id now date s)
unfolding spawned_entry change_state
spawned_entry-AllSound plan id now date s waits v =
    elim (Option-cases (find? (has_id id) s.entries)) [
      | inl missing ↦ rw (update_first_missing (has_id id) _ s.entries missing) v
      | inr (e, found) ↦
          let (own, is) = find?-All _ (has_id id) s.entries found waits in
          All-update_first IsSound (has_id id) _ s.entries found
            (start_entry-IsSound now date e (own (ground arith))
              (find?-All IsSound (has_id id) s.entries found v).0)
            v
    ]

spawned_entry-Waits :
    (plan : Plan) (id k now date : ℕ) (s : Service)
    → id ≢ k
    → Waits k s
    → Waits k (spawned_entry plan id now date s)
unfolding spawned_entry change_state
spawned_entry-Waits plan id k now date s other v = each s.entries v
  where
    each :
        (es : List Entry)
        → All (λ e. e.meta.id ≡ k → e.spawned ≡ false) es
        → All
            (λ e. e.meta.id ≡ k → e.spawned ≡ false)
            (update_first
              (has_id id)
              (λ e. set_state TerminalState.running (start_entry now date e))
              es)
    each [] h = tt
    each (e ∷ es) h = elim (Bool-cases (has_id id e)) [
      | inl own ↦ rw own ((λ same. absurd (ground arith)), h.1)
      | inr miss ↦ rw miss (h.0, each es h.1)
    ]

spawn_failed_keeps {ℓ} :
    (P : Service → Type ℓ) (id : ℕ) (s : Service)
    → ((e : Entry) (s : Service) → P s → P (dispose e s))
    → P s
    → P (spawn_failed id s)
unfolding spawn_failed
spawn_failed_keeps P id s k v = elim (Option-cases (find? (has_id id) s.entries)) [
  | inl missing ↦ rw (missing, spawn_failed) v
  | inr (e, found) ↦ rw (found, spawn_failed) (k e s v)
]

-- No terminal waits for two processes.
abbrev AllApart : List (ℕ × Plan) → Type 0
AllApart [] = Unit
AllApart (q ∷ qs) = All (λ r. q.0 ≢ r.0) qs × AllApart qs

AllApart-middle :
    (x : ℕ × Plan) (xs ys : List (ℕ × Plan))
    → AllApart (xs ++ x ∷ ys)
    → AllApart (xs ++ ys) × All (λ r. x.0 ≢ r.0) (xs ++ ys)
AllApart-middle x [] ys h = (h.1, h.0)
AllApart-middle x (y ∷ xs) ys h =
    let (rest, this) = AllApart-middle x xs ys h.1 in
    let (others, own) = All-middle (λ r. y.0 ≢ r.0) x xs ys h.0 in
    ((others, rest), ((λ e. own (sym e)), this))

unused-AllApart :
    (id : ℕ) (qs : List (ℕ × Plan)) → any (λ q. q.0 == id) qs ≡ false → All (λ q. id ≢ q.0) qs
unused-AllApart id [] h = tt
unused-AllApart id (q ∷ qs) h = ((λ e. absurd (ground arith)), unused-AllApart id qs (ground arith))

-- All terminals are sound, and those that wait for their processes have none.
record IsWhole (a : System) : Type 0 where
  pub sound : AllSound a.service
  pub waiting : All (λ q. Waits q.0 a.service) a.spawning
  pub apart : AllApart a.spawning

module _ (serialize : List ScreenCall → Text) (host : Host) (project_of : ℕ → ℕ) where
  SystemStep-IsWhole :
      {a b : System} → SystemStep serialize host project_of a b → IsWhole a → IsWhole b
  SystemStep-IsWhole {a} (serves st h) v = rw h (record {
    sound = Step-AllSound serialize st v.sound;
    waiting = All-map _ _ a.spawning (λ q k. Step-Waits serialize q.0 st k) v.waiting;
    apart = v.apart;
  })
  SystemStep-IsWhole {a} (begins u now sn input plan pr free made h) v =
      let same =
        sym (ap (λ x. x.0.entries) made) ∙ entries-begin_create u sn input host now a.service in
      rw h (record {
        sound = rw same v.sound;
        waiting = All-map _ _ a.spawning (λ q k. rw same k) v.waiting;
        apart = v.apart;
      })
  SystemStep-IsWhole {a} (answers u now sn input free h) v =
      let same = entries-begin_create u sn input host now a.service in
      rw h (record {
        sound = rw same v.sound;
        waiting = All-map _ _ a.spawning (λ q k. rw same k) v.waiting;
        apart = v.apart;
      })
  SystemStep-IsWhole {a} (inserts id date plan before after new unused e made h) v =
      let same = insert_entry-eq-ok plan host id date a.service made in
      rw h (record {
        sound = rw same (
            All-append IsSound a.service.entries _ v.sound
              (new_entry-IsSound plan host id date, tt));
        waiting = (
          rw same (
              All-append _ a.service.entries _ (missing-Waits id a.service.entries new)
                (new_entry-Waits id plan host id date)),
          All-map _ _ a.spawning
              (λ q k.
                rw same
                  (All-append _ a.service.entries _ k (new_entry-Waits q.0 plan host id date)))
              v.waiting,
        );
        apart = (unused-AllApart id a.spawning unused, v.apart);
      })
  SystemStep-IsWhole (gives_up plan before after e h) v =
      rw h (record { sound = v.sound; waiting = v.waiting; apart = v.apart })
  SystemStep-IsWhole {a} (starts id now date plan before after e h) v =
      let (waiting, own) = All-middle _ (id, plan) before after (subst (All _) e v.waiting) in
      let (apart, others) = AllApart-middle (id, plan) before after (subst AllApart e v.apart) in
      rw h (record {
        sound = spawned_entry-AllSound plan id now date a.service own v.sound;
        waiting = still (before ++ after) others waiting;
        apart = apart;
      })
    where
      still :
          (qs : List (ℕ × Plan))
          → All (λ q. id ≢ q.0) qs
          → All (λ q. Waits q.0 a.service) qs
          → All (λ q. Waits q.0 (spawned_entry plan id now date a.service)) qs
      still [] h k = tt
      still (q ∷ qs) h k =
          (spawned_entry-Waits plan id q.0 now date a.service h.0 k.0, still qs h.1 k.1)
  SystemStep-IsWhole {a} (fails id plan before after e h) v =
      let (waiting, own) = All-middle _ (id, plan) before after (subst (All _) e v.waiting) in
      rw h (record {
        sound = spawn_failed_keeps AllSound id a.service dispose-AllSound v.sound;
        waiting =
            All-map _ _ (before ++ after)
              (λ q k. spawn_failed_keeps (Waits q.0) id a.service (dispose-Waits q.0) k) waiting;
        apart = (AllApart-middle (id, plan) before after (subst AllApart e v.apart)).0;
      })

  SystemReach-IsWhole :
      {b : System} → SystemReach serialize host project_of new_system b → IsWhole b
  SystemReach-IsWhole here = record { sound = tt; waiting = tt; apart = tt }
  SystemReach-IsWhole (next r st) = SystemStep-IsWhole st (SystemReach-IsWhole r)

  -- From the start of the service, over any sequence of creations in their parts, of calls, of what the processes, the
  -- screens and the sweep do, of deletions and of the shutdown: a terminal has at most 8 connections, the one in
  -- control is connected and the terminal runs, the clock of the unattended runs where nobody is connected to a
  -- running terminal and nowhere where somebody is connected, a promise to close belongs to a terminal that is
  -- closing, or that started after it was closed and is to be disposed of, and a terminal without a process has no
  -- connections and is starting or closed for good.
  pub SystemReach-AllSound :
      {b : System} → SystemReach serialize host project_of new_system b → AllSound b.service
  SystemReach-AllSound r = (SystemReach-IsWhole r).sound
