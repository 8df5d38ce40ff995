-- ===== src/Scenario/Silence.antt =====
-- app/scenario_api.py: an order that is delivered, and what its customer does or does not say.
use neo_cloud_control_plane.Prelude.{
  ℕ, suc, ◌+◌, ◌++◌, [], ◌∷◌, none, Option, Bool-cases, inl, inr, String, ◌≡◌, false, some, ltb,
  eq_refl, if◌then◌else◌,
}
use neo_cloud_control_plane.Prelude.Exec.{ok}
use neo_cloud_control_plane.Dict.{get}
use neo_cloud_control_plane.Dict.Laws.{get-put, get-update}
use neo_cloud_control_plane.Lifecycle.{OrderState, OrderKind, ServiceOrder}
use neo_cloud_control_plane.Orders.{Floats}
use neo_cloud_control_plane.Orders.Stages.Handing.{Draws}
use neo_cloud_control_plane.Orders.Pipeline.{Stage}
use neo_cloud_control_plane.Scenario.{Acceptance, Verdict, Portal, Outside}
use neo_cloud_control_plane.Scenario.Accepting.{
  is_settled, ensure_acceptance, finalize_delivery, maybe_deem, acceptance_report,
  decide_acceptance, build_acceptance_report, deemed_days,
}

module _ {N : Type 0} (f : Floats N) (d : Draws) (install : Stage N) (e : Outside N) where
  module _ (oid : String) (p : Portal N) (o : ServiceOrder N) (a : Acceptance)
      (stored : get oid p.world.orders ≡ some o) (named : o.id ≡ oid)
      (kind : o.kind ≡ OrderKind.new) (delivered : o.state ≡ OrderState.delivered)
      (found : get oid p.acceptances ≡ some a) (unsettled : is_settled a.status ≡ false) where
    -- the acceptance after each of the verdicts, and the order with one more event
    abbrev pub deemed : ℕ → Acceptance
    deemed at = record a {
      status = Verdict.deemed;
      billing_start_date = some a.deemed_deadline;
      decided_at = some at;
      decided_by = some "deemed";
    }

    abbrev pub approved : ℕ → Acceptance
    approved at = record a {
      status = Verdict.approved;
      billing_start_date = some at;
      reject_reason = none;
      decided_at = some at;
      decided_by = some "customer";
    }

    abbrev pub rejected : String → ℕ → Acceptance
    rejected reason span = record a {
      status = Verdict.rejected;
      billing_start_date = none;
      reject_reason = some reason;
      decided_at = some (e.clock p.readings);
      decided_by = some "customer";
      report = build_acceptance_report f e o (e.clock (suc p.readings)) p.world;
      deemed_deadline = e.clock (suc p.readings) + span;
    }

    abbrev pub noted : OrderState → String → OrderState → ServiceOrder N
    noted now detail st = record o {
      state = now;
      history = o.history ++ record { state = st; detail = detail } ∷ [];
    }

    report-delivered :
        (acceptance_report f d install e oid p).0
        ≡ ok (
            some (
              if ltb (e.clock p.readings) a.deemed_deadline
              then a
              else deemed (e.clock (suc p.readings))))
    unfolding acceptance_report ensure_acceptance maybe_deem finalize_delivery
    report-delivered = elim (Bool-cases (ltb (e.clock p.readings) a.deemed_deadline)) [
      | inl y ↦
          rw y (
            simp
              (stored, named, kind, delivered, found, unsettled, y, get-put, get-update, eq_refl))
      | inr n ↦
          rw n (
            simp
              (stored, named, kind, delivered, found, unsettled, n, get-put, get-update, eq_refl))
    ]

    approve-delivered :
        (reason : Option String)
        → ((decide_acceptance f d install e oid
              (record { decision = "approve"; reason = reason })
              p).0
            ≡ ok (some (approved (e.clock p.readings))))
          × (get oid
                (decide_acceptance f d install e oid
                  (record { decision = "approve"; reason = reason })
                  p).1.world.orders
              ≡ some (noted o.state "AcceptanceApproved" OrderState.delivered))
    unfolding decide_acceptance ensure_acceptance finalize_delivery
    approve-delivered reason = (
      simp (stored, named, kind, delivered, found, unsettled, get-put, get-update, eq_refl),
      simp (stored, named, kind, delivered, found, unsettled, get-put, get-update, eq_refl),
    )

    reject-delivered :
        (reason : String) (span : ℕ)
        → e.blank reason ≡ false
        → e.micros (deemed_days f e) ≡ some span
        → let r =
            decide_acceptance f d install e oid
              (record { decision = "reject"; reason = some reason })
              p in
          (r.0 ≡ ok (some (rejected reason span)))
          × (get oid r.1.world.orders
              ≡ some (noted OrderState.acceptance "AcceptanceRejected" OrderState.acceptance))
    unfolding decide_acceptance ensure_acceptance finalize_delivery
    reject-delivered reason span b m = (
      simp (stored, named, kind, delivered, found, unsettled, b, m, get-put, get-update, eq_refl),
      simp (stored, named, kind, delivered, found, unsettled, b, m, get-put, get-update, eq_refl),
    )

    -- A delivered order of a new kind whose acceptance is not settled. Its report leaves the acceptance
    -- as it is before the deadline, and from the deadline on it comes back deemed, with the billing from
    -- the deadline. The customer's approval comes back approved, with the billing from the time of the
    -- call; the order stays delivered, and its history says so. A rejection with a reason comes back
    -- without billing, with a new report and a deadline counted from it, and takes the order back to the
    -- acceptance.
    pub calls-delivered :
        (reason : String) (span : ℕ)
        → e.blank reason ≡ false
        → e.micros (deemed_days f e) ≡ some span
        → let approval =
            decide_acceptance f d install e oid
              (record { decision = "approve"; reason = some reason })
              p in
          let rejection =
            decide_acceptance f d install e oid
              (record { decision = "reject"; reason = some reason })
              p in
          ((acceptance_report f d install e oid p).0
            ≡ ok (
                some (
                  if ltb (e.clock p.readings) a.deemed_deadline
                  then a
                  else deemed (e.clock (suc p.readings)))))
          × (approval.0 ≡ ok (some (approved (e.clock p.readings))))
          × (get oid approval.1.world.orders
              ≡ some (noted o.state "AcceptanceApproved" OrderState.delivered))
          × (rejection.0 ≡ ok (some (rejected reason span)))
          × (get oid rejection.1.world.orders
              ≡ some (noted OrderState.acceptance "AcceptanceRejected" OrderState.acceptance))
    calls-delivered reason span b m =
        let (x, y) = approve-delivered (some reason) in
        let (u, v) = reject-delivered reason span b m in (report-delivered, x, y, u, v)
