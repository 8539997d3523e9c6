-- ===== src/Approvals/Single.antt =====
-- apps/api/src/modules/turns/approval-queue.service.ts: how many approvals of a turn are pending, method by method.
use native.Mathlib.Nat.{le_trans}
use agent_waypoint.Common.{
  ℕ, ◌≤◌, ◌<◌, ◌≡◌, refl, sym, subst, Bool, true, false, [], ◌∷◌, Option, none, some, arith, inl,
  inr, ◌==◌, ==_iff, filter, find?, any, All, All-map, All-append, count, count-append,
  count-eq-zero, update_first, All-update_first_each, Bool-cases, Option-cases,
}
use agent_waypoint.Common.Text.{Text}
use agent_waypoint.Common.Json.{Json}
use agent_waypoint.Store.{EventType, Turn, ApprovalStatus, Approval, Store, find_turn, is_terminal}
use agent_waypoint.Approvals.{
  Queue, has_status, has_row_id, is_request, append_event, auto_approve_config, enrich_payload,
  cancel_timer, arm_timer, published_row,
}
use agent_waypoint.Approvals.Publish.{
  oldest, auto_approve_at, publish_rows, publish_open, arm_published, publish, try_publish_next,
  requeued, new_approval, upsert_request, enqueue, dropped_row,
}
use agent_waypoint.Approvals.Rows.{
  HasUniqueIds, oldest-Stands, update_first-HasUniqueIds, count-update_first-le,
  count-update_first_at, append-HasUniqueIds, fresh_id,
}

pub record IsSerial (db : Store) : Type 0 where
  pub unique : HasUniqueIds db.approvals
  pub fresh : All (λ a. a.id < db.next_id) db.approvals
  pub single : (turn : ℕ) → count (has_status turn ApprovalStatus.pending) db.approvals ≤ 1

-- A change of rows that keeps identifiers and makes none pending keeps the table serial.
pub change_rows-IsSerial :
    (db : Store) (q : Approval → Bool) (f : Approval → Approval)
    → ((x : Approval) → (f x).id ≡ x.id)
    → ((turn : ℕ) (x : Approval)
        → has_status turn ApprovalStatus.pending (f x) ≡ true
        → has_status turn ApprovalStatus.pending x ≡ true)
    → IsSerial db
    → IsSerial (record db { approvals = update_first q f db.approvals })
change_rows-IsSerial db q f keep down v = record {
  unique = update_first-HasUniqueIds f keep q db.approvals v.unique;
  fresh = All-update_first_each _ q f db.approvals (λ x h. rw (keep x) h) v.fresh;
  single = λ turn.
      le_trans
        (count-update_first-le (has_status turn ApprovalStatus.pending) q f db.approvals
          (down turn))
        (v.single turn);
}

publish_rows-IsSerial :
    (a : Approval) (t : Turn) (now : ℕ) (at : Option ℕ) (db : Store)
    → find? (has_row_id a.id) db.approvals ≡ some a
    → any (has_status a.turn_id ApprovalStatus.pending) db.approvals ≡ false
    → IsSerial db
    → IsSerial (publish_rows a t now at db)
publish_rows-IsSerial a t now at db found idle v = record {
  unique =
      update_first-HasUniqueIds (published_row now at) (λ x. refl) (has_row_id a.id) db.approvals
        v.unique;
  fresh =
      All-update_first_each _ (has_row_id a.id) (published_row now at) db.approvals (λ x h. h)
        v.fresh;
  single = λ turn.
      let one_more =
        count-update_first_at (has_status turn ApprovalStatus.pending) (has_row_id a.id)
          (published_row now at) db.approvals found in
      elim (Bool-cases (a.turn_id == turn)) [
        | inr other ↦ omega (arith, v.single turn, rw other at one_more)
        | inl same ↦
            let idle_here =
              subst (λ k. any (has_status k ApprovalStatus.pending) db.approvals ≡ false)
                ((==_iff a.turn_id turn).0 same) idle in
            omega (
              arith,
              rw same at one_more,
              count-eq-zero (has_status turn ApprovalStatus.pending) db.approvals idle_here,
            )
      ];
}

-- Only the approvals and the next identifier matter.
pub same_rows-IsSerial :
    (db db' : Store)
    → db'.approvals ≡ db.approvals
    → db.next_id ≤ db'.next_id
    → IsSerial db
    → IsSerial db'
same_rows-IsSerial db db' e le v = record {
  unique = subst HasUniqueIds (sym e) v.unique;
  fresh = rw e (All-map _ _ db.approvals (λ x h. le_trans h le) v.fresh);
  single = λ turn. rw e (v.single turn);
}

pub append_event-rows :
    (turn : ℕ) (type : EventType) (payload : Json) (q : Queue)
    → ((append_event turn type payload q).db.approvals ≡ q.db.approvals)
      × (q.db.next_id ≤ (append_event turn type payload q).db.next_id)
unfolding append_event
append_event-rows turn type payload q = ground arith

pub append_event-IsSerial :
    (turn : ℕ) (type : EventType) (payload : Json) (q : Queue)
    → IsSerial q.db
    → IsSerial (append_event turn type payload q).db
append_event-IsSerial turn type payload q v =
    let (rows, ids) = append_event-rows turn type payload q in
    same_rows-IsSerial q.db (append_event turn type payload q).db rows ids v

arm_published-db :
    (a : Approval) (config : Bool × ℕ) (now : ℕ) (q : Queue)
    → (arm_published a config now q).db ≡ q.db
unfolding arm_published arm_timer cancel_timer
arm_published-db a config now q = ground arith

publish_open-IsSerial :
    (a : Approval) (t : Turn) (now : ℕ) (q : Queue)
    → find? (has_row_id a.id) q.db.approvals ≡ some a
    → any (has_status a.turn_id ApprovalStatus.pending) q.db.approvals ≡ false
    → IsSerial q.db
    → IsSerial (publish_open a t now q).db
unfolding publish_open
publish_open-IsSerial a t now q found idle v =
    let config = auto_approve_config t.effective_runtime_config in
    let at = auto_approve_at config now in
    let q' : Queue = record q { db = publish_rows a t now at q.db } in
    let payload = enrich_payload a.payload at none none in
    let shown = append_event t.id EventType.approval_requested payload q' in
    rw (arm_published-db a config now shown) (
      append_event-IsSerial t.id EventType.approval_requested payload q'
        (publish_rows-IsSerial a t now at q.db found idle v))

publish-IsSerial :
    (a : Approval) (now : ℕ) (q : Queue)
    → find? (has_row_id a.id) q.db.approvals ≡ some a
    → any (has_status a.turn_id ApprovalStatus.pending) q.db.approvals ≡ false
    → IsSerial q.db
    → IsSerial (publish a now q).db
unfolding publish
publish-IsSerial a now q found idle v = elim (Option-cases (find_turn a.turn_id q.db)) [
  | inl gone ↦ rw (gone, publish) v
  | inr (t, e) ↦
      rw (e, publish)
        (elim (Bool-cases (is_terminal t.status)) [
          | inl over ↦ rw over (
              change_rows-IsSerial q.db (has_row_id a.id) (dropped_row now) (λ x. refl)
                (λ turn x h. absurd (ground arith)) v)
          | inr going ↦ rw going (publish_open-IsSerial a t now q found idle v)
        ])
]

pub try_publish_next-IsSerial :
    (turn now : ℕ) (q : Queue) → IsSerial q.db → IsSerial (try_publish_next turn now q).db
unfolding try_publish_next
try_publish_next-IsSerial turn now q v =
    elim (Bool-cases (any (has_status turn ApprovalStatus.pending) q.db.approvals)) [
      | inl busy ↦ rw busy v
      | inr idle ↦
          rw idle
            (elim (Option-cases
              (oldest (filter (has_status turn ApprovalStatus.queued) q.db.approvals))) [
                | inl empty ↦ rw (empty, try_publish_next) v
                | inr (a, chosen) ↦
                    let (found, fits, _) =
                      oldest-Stands (has_status turn ApprovalStatus.queued) q.db.approvals v.unique
                        chosen in
                    let own : turn ≡ a.turn_id = ground arith in
                    rw (chosen, try_publish_next)
                      (publish-IsSerial a now q found
                        (subst
                          (λ k. any (has_status k ApprovalStatus.pending) q.db.approvals ≡ false)
                          own idle)
                        v)
              ])
    ]

upsert_request-IsSerial :
    (turn : ℕ) (request kind : Text) (payload : Json) (now : ℕ) (db : Store)
    → IsSerial db
    → IsSerial (upsert_request turn request kind payload now db)
unfolding upsert_request
upsert_request-IsSerial turn request kind payload now db v =
    elim (Bool-cases (any (is_request turn request) db.approvals)) [
      | inl known ↦ rw known (
          change_rows-IsSerial db (is_request turn request) (requeued kind payload) (λ x. refl)
            (λ k x h. absurd (ground arith)) v)
      | inr new ↦ rw new (record {
        unique =
            append-HasUniqueIds db.approvals _ v.unique (fresh_id db.next_id db.approvals v.fresh);
        fresh =
            All-append _ db.approvals _ (All-map _ _ db.approvals (λ x h. omega arith) v.fresh)
              (omega arith, tt);
        single = λ k. omega (
          arith,
          count-append (has_status k ApprovalStatus.pending) db.approvals
              (new_approval db.next_id turn request kind payload now ∷ []),
          count_queued k,
          v.single k,
        );
      })
    ]
  where
    count_queued :
        (k : ℕ)
        → count
            (has_status k ApprovalStatus.pending)
            (new_approval db.next_id turn request kind payload now ∷ [])
          ≡ 0
    count_queued k = ground arith

-- A request that arrives leaves at most one approval of each turn pending.
pub enqueue-IsSerial :
    (turn : ℕ) (request kind : Text) (payload : Json) (now : ℕ) (q : Queue)
    → IsSerial q.db
    → IsSerial (enqueue turn request kind payload now q).db
unfolding enqueue
enqueue-IsSerial turn request kind payload now q v =
    try_publish_next-IsSerial turn now _
      (upsert_request-IsSerial turn request kind payload now q.db v)
