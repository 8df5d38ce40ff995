-- ===== src/Scenario/Finalize.antt =====
-- app/scenario_api.py: the loop of _finalize_delivery ends, since each approval takes an order to a
-- later stage or leaves it waiting for none.
use neo_cloud_control_plane.Prelude.{
  ℕ, zero, suc, ◌+◌, String, ◌≡◌, refl, sym, subst, ap, ◌∙◌, Bool, true, false, none, some, [], ◌-◌,
  ◌≤◌, ◌∷◌, ◌⊎◌, inl, inr, length, eq_refl, arith, Bool-cases, Option-cases, if◌then◌else◌,
}
use neo_cloud_control_plane.Prelude.Exec.{
  Exec, Result, ok, err, gets, or_raise, continue, ◌>>=◌, ◌>>◌,
}
use neo_cloud_control_plane.Prelude.Triples.{
  After, Triple, Triple-pure, Triple-gets, Triple-or_raise, Triple-to, Triple-bind,
}
use neo_cloud_control_plane.Dict.{get, put}
use neo_cloud_control_plane.Dict.Laws.{get-put}
use neo_cloud_control_plane.Lifecycle.{OrderState, ServiceOrder, World, is_order}
use neo_cloud_control_plane.Orders.{Floats, on_order}
use neo_cloud_control_plane.Orders.Kept.{Terms, Has}
use neo_cloud_control_plane.Orders.Ends.{Anything}
use neo_cloud_control_plane.Orders.Outcome.{Outcome}
use neo_cloud_control_plane.Orders.Stages.{order_at}
use neo_cloud_control_plane.Orders.Stages.Handing.{Draws}
use neo_cloud_control_plane.Orders.Pipeline.{
  Stage, Stages, stage_of, first_state, next_state, wait_at_gate, approve_next_stage, stages_for,
  is_terminal, set_pending,
}
use neo_cloud_control_plane.Orders.Approval.{AreStages, IsStage, Follows, bind-ok, order_at-ok}
use neo_cloud_control_plane.Orders.Approval.Gates.{cleared, approve_step}
use neo_cloud_control_plane.Orders.Modes.{
  bare, stages_for-bare, bare-AreStages, bare-Follows, managed, stages_for-managed,
  managed-AreStages, managed-Follows,
}
use neo_cloud_control_plane.Orders.Outcome.Installed.{stage_k8s_install-IsStage}
use neo_cloud_control_plane.Orders.Managed.{in_place}
use neo_cloud_control_plane.Scenario.Accepting.{approve_pending, approve_unless, is_done, is_over}

-- the order waits for a stage of the list, the first one, or for none
pub record Waits {N : Type 0} (oid : String) (k8s : Bool) (more : Stages N) (w : World N)
    : Type 0 where
  pub order : ServiceOrder N
  pub stored : get oid w.orders ≡ some order
  pub same : order.managed_k8s ≡ k8s
  pub pending : (order.pending_stage ≡ none) ⊎ (order.pending_stage ≡ first_state more)

-- where an order stands in its list of stages
abbrev rest_from : {N : Type 0} → OrderState → Stages N → Stages N
rest_from st [] = []
rest_from st ((s, stage) ∷ stages) =
    if is_order s st then (s, stage) ∷ stages else rest_from st stages

-- A state is that of a stage of the list, with no more than eight to go, or of none.
abbrev Placed : {N : Type 0} → Stages N → OrderState → Type 0
Placed all st =
    (length (rest_from st all) ≤ 8)
    × ((first_state (rest_from st all) ≡ some st) ⊎ (stage_of st all ≡ none))

-- Where the approvals return, the order waits for no stage, or it is delivered, failed or rejected.
abbrev pub IsOver : {N : Type 0} → String → Result (Unit {0}) × World N → Type 0
IsOver oid (err c, w) = Unit
IsOver {N = N} oid (ok u, w) =
    (o : ServiceOrder N) × (get oid w.orders ≡ some o)
    × ((o.pending_stage ≡ none)
        ⊎ ((o.state ≡ OrderState.delivered)
            ⊎ ((o.state ≡ OrderState.failed) ⊎ (o.state ≡ OrderState.rejected))))

module _ {N : Type 0} (f : Floats N) (d : Draws) (install : Stage N) (oid : String) where
  abbrev Anywhere : World N → Type 0
  Anywhere w = Unit

  module _ (all : Stages N) (k8s : Bool) (st : OrderState) (more : Stages N)
      (next : next_state st all ≡ first_state more) where
    gate-Waits :
        (tm : Terms) (b : Bool)
        → tm.pending_stage ≡ none
        → tm.managed_k8s ≡ k8s
        → Triple
            (Has oid tm (Outcome st))
            (wait_at_gate {N = N} oid all st b)
            (λ u. Waits oid k8s more)
            Anywhere
    gate-Waits tm true p k = Triple-pure tt (λ w h. record {
      order = h.order;
      stored = h.stored;
      same = ap (λ x. x.managed_k8s) h.same ∙ k;
      pending = inl (ap (λ x. x.pending_stage) h.same ∙ p);
    })
    gate-Waits tm false p k =
        Triple-bind (or_raise (next_state st all) 500) _ (Triple-or_raise _ 500 (λ w h. tt))
          (λ st'. record { at = λ w h. waits st' w h.0 h.1 })
      where
        waits :
            (st' : OrderState) (w : World N)
            → Has oid tm (Outcome st) w
            → next_state st all ≡ some st'
            → After (λ u. Waits oid k8s more) Anywhere (set_pending (some st') oid w)
        waits st' w h n =
            rw (h.stored, on_order)
              (record {
                order = record h.order { pending_stage = some st' };
                stored = simp (get-put, eq_refl);
                same = ap (λ x. x.managed_k8s) h.same ∙ k;
                pending = inr (sym n ∙ next);
              })

    -- the gate after a stage that has returned
    after_stage-Waits :
        (tm : Terms)
        → tm.pending_stage ≡ none
        → tm.managed_k8s ≡ k8s
        → Triple
            (Has oid tm (Outcome st))
            (order_at {N = N} oid >>= λ order. wait_at_gate oid all st (is_terminal order.state))
            (λ u. Waits oid k8s more)
            Anywhere
    after_stage-Waits tm p k =
        Triple-bind (order_at oid) _
          (Triple-bind (gets (λ w. get oid w.orders)) _ (Triple-gets _)
            (λ o. Triple-to (or_raise o 500) (λ a w h. h.0.0) (Triple-or_raise o 500 (λ w h. tt))))
          (λ order. gate-Waits tm (is_terminal order.state) p k)

    approval-Waits :
        (stage : Stage N) (tm : Terms)
        → IsStage oid st stage
        → tm.pending_stage ≡ none
        → tm.managed_k8s ≡ k8s
        → Triple
            (Has oid tm Anything)
            ((stage oid >>= λ b.
                order_at oid >>= λ order. wait_at_gate oid all st (is_terminal order.state))
              >>= λ u. order_at oid)
            (λ o. Waits oid k8s more)
            Anywhere
    approval-Waits stage tm is p k =
        Triple-bind _ _
          (Triple-bind (stage oid) _ (record { at = λ w h. ran w (stage oid w).0 h refl })
            (λ b. after_stage-Waits tm p k))
          (λ u.
            Triple-bind (gets (λ w. get oid w.orders)) _ (Triple-gets _) (λ o.
              Triple-to (or_raise o 500) (λ a w h. h.0.0) (Triple-or_raise o 500 (λ w h. tt))))
      where
        ran :
            (w : World N) (r : Result Bool)
            → Has oid tm Anything w
            → (stage oid w).0 ≡ r
            → After (λ b. Has oid tm (Outcome st)) Anywhere (r, (stage oid w).1)
        ran w (ok b) h q = (is.outcome tm).ended w b h q
        ran w (err c) h q = tt

  over-ends :
      (n : ℕ) (w : World N) (o : ServiceOrder N)
      → get oid w.orders ≡ some o
      → is_done f d install o ≡ true
      → approve_pending f d install n oid w ≡ (ok tt, w)
  unfolding approve_pending
  over-ends zero w o e q = refl
  over-ends (suc n) w o e q =
      bind-ok (order_at oid) _ o w w (order_at-ok oid w o e)
      ∙ ap
          (λ b.
            approve_unless f d install b
              (approve_next_stage f d install oid >> approve_pending f d install n oid) w)
          q

  done-IsOver :
      (w : World N) (o : ServiceOrder N)
      → get oid w.orders ≡ some o
      → is_done f d install o ≡ true
      → IsOver oid (ok tt, w)
  done-IsOver w o e q = (o, e, by_pending (Option-cases o.pending_stage))
    where
      by_state :
          (st : OrderState)
          → is_over st ≡ true
          → (st ≡ OrderState.delivered) ⊎ ((st ≡ OrderState.failed) ⊎ (st ≡ OrderState.rejected))
      by_state OrderState.delivered y = inl refl
      by_state OrderState.failed y = inr (inl refl)
      by_state OrderState.rejected y = inr (inr refl)
      by_state _ y = absurd (ground (arith, y))

      by_pending :
          (o.pending_stage ≡ none) ⊎ ((st : OrderState) × (o.pending_stage ≡ some st))
          → (o.pending_stage ≡ none)
            ⊎ ((o.state ≡ OrderState.delivered)
                ⊎ ((o.state ≡ OrderState.failed) ⊎ (o.state ≡ OrderState.rejected)))
      by_pending (inl p) = inl p
      by_pending (inr (st, p)) = inr (by_state o.state (ground (arith, q, p)))

  -- with the answers of `over-ends`
  ended-IsOver :
      (n : ℕ) (w : World N) (o : ServiceOrder N)
      → get oid w.orders ≡ some o
      → is_done f d install o ≡ true
      → IsOver oid (approve_pending f d install n oid w)
  ended-IsOver n w o e q = subst (IsOver oid) (sym (over-ends n w o e q)) (done-IsOver w o e q)

  round :
      (n : ℕ) (w : World N) (o : ServiceOrder N)
      → get oid w.orders ≡ some o
      → is_done f d install o ≡ false
      → approve_pending f d install (suc n) oid w
        ≡ continue
            (approve_next_stage f d install oid w).0
            (λ u. approve_pending f d install n oid)
            (approve_next_stage f d install oid w).1
  unfolding approve_pending
  round n w o e q =
      bind-ok (order_at oid) _ o w w (order_at-ok oid w o e)
      ∙ ap
          (λ b.
            approve_unless f d install b
              (approve_next_stage f d install oid >> approve_pending f d install n oid) w)
          q

  as_many :
      (m n : ℕ) (w : World N)
      → m ≡ n
      → approve_pending f d install m oid w ≡ approve_pending f d install n oid w
  as_many m n w e = ap (λ x. approve_pending f d install x oid w) e

  none-done : (o : ServiceOrder N) → o.pending_stage ≡ none → is_done f d install o ≡ true
  none-done o e = rw e refl

  same_end :
      (n k : ℕ) (w : World N) (o : ServiceOrder N)
      → get oid w.orders ≡ some o
      → is_done f d install o ≡ true
      → (approve_pending f d install (n + k) oid w ≡ approve_pending f d install n oid w)
        × IsOver oid (approve_pending f d install n oid w)
  same_end n k w o e q =
      (over-ends (n + k) w o e q ∙ sym (over-ends n w o e q), ended-IsOver n w o e q)

  -- so many rounds are enough for an order that waits for the first of these stages
  abbrev Enough : Bool → Stages N → Type 0
  Enough k8s stages =
      (w : World N) (o : ServiceOrder N) (k : ℕ)
      → get oid w.orders ≡ some o
      → o.managed_k8s ≡ k8s
      → o.pending_stage ≡ first_state stages
      → (approve_pending f d install (length stages + k) oid w
          ≡ approve_pending f d install (length stages) oid w)
        × IsOver oid (approve_pending f d install (length stages) oid w)

  round_again :
      (k8s : Bool) (more : Stages N) (k : ℕ)
      → Enough k8s more
      → (r : Result (ServiceOrder N) × World N) → After (λ o. Waits oid k8s more) Anywhere r
      → (continue r.0 (λ u. approve_pending f d install (length more + k) oid) r.1
          ≡ continue r.0 (λ u. approve_pending f d install (length more) oid) r.1)
        × IsOver oid (continue r.0 (λ u. approve_pending f d install (length more) oid) r.1)
  round_again k8s more k ih (err c, w) h = (refl, tt)
  round_again k8s more k ih (ok o, w) h = by_pending h.pending
    where
      by_pending :
          (h.order.pending_stage ≡ none) ⊎ (h.order.pending_stage ≡ first_state more)
          → (approve_pending f d install (length more + k) oid w
              ≡ approve_pending f d install (length more) oid w)
            × IsOver oid (approve_pending f d install (length more) oid w)
      by_pending (inl q) = same_end (length more) k w h.order h.stored (none-done h.order q)
      by_pending (inr q) = ih w h.order k h.stored h.same q

  module _ (all : Stages N) (k8s : Bool)
      (same : (o : ServiceOrder N) → o.managed_k8s ≡ k8s → stages_for f d install o ≡ all) where
    approval-After :
        (st : OrderState) (stage : Stage N) (more : Stages N) (w : World N) (o : ServiceOrder N)
        → get oid w.orders ≡ some o
        → o.managed_k8s ≡ k8s
        → o.pending_stage ≡ some st
        → stage_of st all ≡ some stage
        → next_state st all ≡ first_state more
        → IsStage oid st stage
        → After (λ x. Waits oid k8s more) Anywhere (approve_next_stage f d install oid w)
    unfolding approve_next_stage
    approval-After st stage more w o e k p g n is = elim (Bool-cases o.approval_mode) [
      | inl a ↦
          subst (After (λ x. Waits oid k8s more) Anywhere)
            (sym (approve_step f d install oid w o st stage all e a p (same o k) g))
            ((approval-Waits all k8s st more n stage
                (record {
                  approval_mode = true;
                  pending_stage = none;
                  managed_k8s = k8s;
                  k8s_version = o.k8s_version;
                })
                is refl refl).at
              (cleared f d install oid o w)
              (record {
                order = record o { pending_stage = none };
                stored = simp (get-put, eq_refl);
                same = simp (a, k);
                state = tt;
              }))
      | inr a ↦ simp (e, a) tt
    ]

    stages-Enough :
        (stages : Stages N) → Follows all stages → AreStages oid stages → Enough k8s stages
    stages-Enough [] fs ss w o k e m p = same_end 0 k w o e (none-done o p)
    stages-Enough ((st, stage) ∷ more) (g, n, fs) (is, ss) w o k e m p =
        elim (Bool-cases (is_done f d install o)) [
          | inl y ↦ same_end (suc (length more)) k w o e y
          | inr u ↦
              let (again, over) =
                round_again k8s more k (stages-Enough more fs ss)
                  (approve_next_stage f d install oid w)
                  (approval-After st stage more w o e m p g n is) in
              (
                as_many (suc (length more) + k) (suc (length more + k)) w (omega arith)
                    ∙ round (length more + k) w o e u
                    ∙ (again ∙ sym (round (length more) w o e u)),
                subst (IsOver oid) (sym (round (length more) w o e u)) over,
              )
        ]

    -- the approval of a stage that the order does not have is refused
    unknown-refused :
        (st : OrderState) (w : World N) (o : ServiceOrder N)
        → get oid w.orders ≡ some o
        → o.managed_k8s ≡ k8s
        → o.pending_stage ≡ some st
        → stage_of st all ≡ none
        → (c : ℕ) × ((approve_next_stage f d install oid w).0 ≡ err c)
    unfolding approve_next_stage get put
    unknown-refused st w o e k p g = elim (Bool-cases o.approval_mode) [
      | inl a ↦ (500, simp (e, a, p, same o k, g, get-put, eq_refl))
      | inr a ↦ (409, simp (e, a))
    ]

    raised :
        (c : ℕ) (r : Result (ServiceOrder N) × World N) (m m' : Exec (World N) (Unit {0}))
        → r.0 ≡ err c
        → (continue r.0 (λ u. m) r.1 ≡ continue r.0 (λ u. m') r.1)
          × IsOver oid (continue r.0 (λ u. m') r.1)
    raised c (ok a, w) m m' e = absurd (clash e)
      where
        clash : ok a ≡ err c → ⊥
        clash q = cc
    raised c (err b, w) m m' e = (refl, tt)

    unknown-Enough :
        (st : OrderState) (n k : ℕ) (w : World N) (o : ServiceOrder N)
        → get oid w.orders ≡ some o
        → o.managed_k8s ≡ k8s
        → o.pending_stage ≡ some st
        → stage_of st all ≡ none
        → (approve_pending f d install (suc n + k) oid w
            ≡ approve_pending f d install (suc n) oid w)
          × IsOver oid (approve_pending f d install (suc n) oid w)
    unknown-Enough st n k w o e m p g = elim (Bool-cases (is_done f d install o)) [
      | inl y ↦ same_end (suc n) k w o e y
      | inr u ↦
          let (c, r) = unknown-refused st w o e m p g in
          let (same, over) =
            raised c (approve_next_stage f d install oid w)
              (approve_pending f d install (n + k) oid) (approve_pending f d install n oid) r in
          (
            as_many (suc n + k) (suc (n + k)) w (omega arith)
                ∙ round (n + k) w o e u
                ∙ (same ∙ sym (round n w o e u)),
            subst (IsOver oid) (sym (round n w o e u)) over,
          )
    ]

    rest_from-Enough :
        (st : OrderState) (stages : Stages N)
        → Follows all stages
        → AreStages oid stages
        → Enough k8s (rest_from st stages)
    rest_from-Enough st [] fs ss = stages-Enough [] tt tt
    rest_from-Enough st ((s, stage) ∷ stages) (g, n, fs) (is, ss) =
        elim (Bool-cases (is_order s st)) [
          | inl y ↦ rw y (stages-Enough ((s, stage) ∷ stages) (g, n, fs) (is, ss))
          | inr u ↦ rw u (rest_from-Enough st stages fs ss)
        ]

    Placed-Enough :
        (st : OrderState)
        → Placed all st
        → Follows all all
        → AreStages oid all
        → (w : World N) (o : ServiceOrder N) (k : ℕ) → get oid w.orders ≡ some o
        → o.managed_k8s ≡ k8s
        → o.pending_stage ≡ some st
        → (approve_pending f d install (8 + k) oid w ≡ approve_pending f d install 8 oid w)
          × IsOver oid (approve_pending f d install 8 oid w)
    Placed-Enough st (h, inr g) fs ss w o k e m p = unknown-Enough st 7 k w o e m p g
    Placed-Enough st (h, inl q) fs ss w o k e m p =
        let n = length (rest_from st all) in
        let enough = λ (j : ℕ). rest_from-Enough st all fs ss w o j e m (p ∙ sym q) in
        let to_eight : approve_pending f d install n oid w ≡ approve_pending f d install 8 oid w =
          sym (enough (8 - n)).0 ∙ as_many (n + (8 - n)) 8 w (omega (arith, h)) in
        (
          as_many (8 + k) (n + (8 - n + k)) w (omega (arith, h))
              ∙ ((enough (8 - n + k)).0 ∙ to_eight),
          subst (IsOver oid) to_eight (enough 0).1,
        )

  bare-Placed : (st : OrderState) → Placed (bare f d install) st
  bare-Placed OrderState.received = (omega arith, inr refl)
  bare-Placed OrderState.validated = (omega arith, inl refl)
  bare-Placed OrderState.reserved = (omega arith, inl refl)
  bare-Placed OrderState.provisioning = (omega arith, inl refl)
  bare-Placed OrderState.isolating = (omega arith, inl refl)
  bare-Placed OrderState.storage_binding = (omega arith, inl refl)
  bare-Placed OrderState.acceptance = (omega arith, inl refl)
  bare-Placed OrderState.k8s_installing = (omega arith, inr refl)
  bare-Placed OrderState.delivered = (omega arith, inl refl)
  bare-Placed OrderState.reclaiming = (omega arith, inr refl)
  bare-Placed OrderState.closed = (omega arith, inr refl)
  bare-Placed OrderState.rejected = (omega arith, inr refl)
  bare-Placed OrderState.compensating = (omega arith, inr refl)
  bare-Placed OrderState.failed = (omega arith, inr refl)

  managed-Placed : (st : OrderState) → Placed (managed f d install) st
  managed-Placed OrderState.received = (omega arith, inr refl)
  managed-Placed OrderState.validated = (omega arith, inl refl)
  managed-Placed OrderState.reserved = (omega arith, inl refl)
  managed-Placed OrderState.provisioning = (omega arith, inl refl)
  managed-Placed OrderState.isolating = (omega arith, inl refl)
  managed-Placed OrderState.storage_binding = (omega arith, inl refl)
  managed-Placed OrderState.acceptance = (omega arith, inl refl)
  managed-Placed OrderState.k8s_installing = (omega arith, inl refl)
  managed-Placed OrderState.delivered = (omega arith, inl refl)
  managed-Placed OrderState.reclaiming = (omega arith, inr refl)
  managed-Placed OrderState.closed = (omega arith, inr refl)
  managed-Placed OrderState.rejected = (omega arith, inr refl)
  managed-Placed OrderState.compensating = (omega arith, inr refl)
  managed-Placed OrderState.failed = (omega arith, inr refl)

  waiting-Enough :
      (w : World N) (o : ServiceOrder N) (k : ℕ) (st : OrderState)
      → IsStage oid OrderState.k8s_installing install
      → get oid w.orders ≡ some o
      → o.pending_stage ≡ some st
      → (approve_pending f d install (8 + k) oid w ≡ approve_pending f d install 8 oid w)
        × IsOver oid (approve_pending f d install 8 oid w)
  waiting-Enough w o k st is e p = elim (Bool-cases o.managed_k8s) [
    | inl y ↦
        Placed-Enough (managed f d install) true (stages_for-managed f d install) st
          (managed-Placed st) (managed-Follows f d install) (managed-AreStages f d install oid is) w
          o k e y p
    | inr n ↦
        Placed-Enough (bare f d install) false (stages_for-bare f d install) st (bare-Placed st)
          (bare-Follows f d install) (bare-AreStages f d install oid) w o k e n p
  ]

  -- with an installation of Kubernetes that is a stage like the others
  enough_rounds :
      (w : World N) (o : ServiceOrder N) (k : ℕ)
      → IsStage oid OrderState.k8s_installing install
      → get oid w.orders ≡ some o
      → (approve_pending f d install (8 + k) oid w ≡ approve_pending f d install 8 oid w)
        × IsOver oid (approve_pending f d install 8 oid w)
  enough_rounds w o k is e = elim (Option-cases o.pending_stage) [
    | inl p ↦ same_end 8 k w o e (none-done o p)
    | inr (st, p) ↦ waiting-Enough w o k st is e p
  ]

-- Where Kubernetes is installed in the foreground, the approvals of a stored order come to an end: after
-- at most eight of them one has raised an error, or the order waits for no stage or is delivered, failed
-- or rejected; any greater number ends in the same world, with the same error where one is raised.
pub approve_pending-ends :
    {N : Type 0} (f : Floats N) (d : Draws) (oid : String) (w : World N) (o : ServiceOrder N)
    (k : ℕ)
    → get oid w.orders ≡ some o
    → (approve_pending f d in_place (8 + k) oid w ≡ approve_pending f d in_place 8 oid w)
      × IsOver oid (approve_pending f d in_place 8 oid w)
approve_pending-ends f d oid w o k e =
    enough_rounds f d in_place oid w o k (stage_k8s_install-IsStage oid) e
