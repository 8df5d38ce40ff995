-- ===== src/Scenario/Accepting.antt =====
-- app/scenario_api.py: the acceptance of a delivered order by the customer, and by silence. An order is
-- stored under its id.
use neo_cloud_control_plane.Prelude.{
  ℕ, zero, suc, ◌+◌, String, ◌+++◌, Bool, true, false, not, ◌&&◌, ◌||◌, Option, none, some, List,
  [], ◌∷◌, ◌++◌, ◌==◌, if◌then◌else◌, is_some, or_else, ltb, length, select,
}
use neo_cloud_control_plane.Prelude.Decimal.{decimal}
use neo_cloud_control_plane.Prelude.Exec.{Exec, pure, require, or_raise, gets, modify, ◌>>=◌, ◌>>◌}
use neo_cloud_control_plane.Dict.{get, put, update, values}
use neo_cloud_control_plane.Lifecycle.{
  NodeState, OrderState, OrderKind, NodeInstance, ServiceOrder, LifecycleEvent, StorageAllocation,
  World, is_node, is_order, lists_order, advance_node, advance_order,
}
use neo_cloud_control_plane.Orders.{Floats, on_node, on_order, for_each}
use neo_cloud_control_plane.Orders.Stages.{order_at, set_order}
use neo_cloud_control_plane.Orders.Stages.Handing.{Draws, build_access_package}
use neo_cloud_control_plane.Orders.Pipeline.{Stage, approve_next_stage}
use neo_cloud_control_plane.Scenario.{
  Verdict, Check, AcceptanceReport, Acceptance, Portal, Outside, now, on_world,
}

-- ACCEPTANCE_DEEMED_DAYS
abbrev pub acceptance_deemed_days : ℕ
acceptance_deemed_days = 7

pub record AcceptanceDecision : Type 0 where
  pub decision : String
  pub reason : Option String

abbrev pub is_settled : Verdict → Bool
is_settled Verdict.approved = true
is_settled Verdict.deemed = true
is_settled _ = false

abbrev pub is_kind_new : OrderKind → Bool
is_kind_new OrderKind.new = true
is_kind_new _ = false

-- an event of the history in this state
abbrev pub has_event : OrderState → List (LifecycleEvent OrderState) → Bool
has_event st [] = false
has_event st (e ∷ es) = is_order e.state st || has_event st es

abbrev pub append_event : {N : Type 0} → OrderState → String → ServiceOrder N → ServiceOrder N
append_event st detail o = record o {
  history = o.history ++ record { state = st; detail = detail } ∷ [];
}

abbrev pub deemed_at : ℕ → ℕ → Acceptance → Acceptance
deemed_at deadline at rec = record rec {
  status = Verdict.deemed;
  billing_start_date = some deadline;
  decided_at = some at;
  decided_by = some "deemed";
}

abbrev pub approved_at : ℕ → Acceptance → Acceptance
approved_at at rec = record rec {
  status = Verdict.approved;
  billing_start_date = some at;
  reject_reason = none;
  decided_at = some at;
  decided_by = some "customer";
}

abbrev pub rejected_at : Option String → ℕ → AcceptanceReport → ℕ → Acceptance → Acceptance
rejected_at reason at report deadline rec = record rec {
  status = Verdict.rejected;
  reject_reason = reason;
  billing_start_date = none;
  decided_at = some at;
  decided_by = some "customer";
  report = report;
  deemed_deadline = deadline;
}

-- the states in which no decision is taken
abbrev pub is_closed_off : OrderState → Bool
is_closed_off = lists_order (
    OrderState.failed ∷ OrderState.rejected ∷ OrderState.compensating ∷ OrderState.reclaiming
    ∷ OrderState.closed ∷ [])

module _ {N : Type 0} where
  -- `rec.update(…)` of the record of an order
  abbrev pub set_acceptance : String → (Acceptance → Acceptance) → Exec (Portal N) (Unit {0})
  set_acceptance oid change =
      modify (λ p. record p { acceptances = update oid change p.acceptances })

  -- a record that silence may settle
  abbrev pub is_awaited : ServiceOrder N → Acceptance → Bool
  is_awaited order rec =
      not (is_settled rec.status)
      && lists_order (OrderState.acceptance ∷ OrderState.k8s_installing ∷ OrderState.delivered ∷ [])
          order.state

  abbrev pub order_or_404 : String → Exec (Portal N) (ServiceOrder N)
  order_or_404 oid = gets (λ p. get oid p.world.orders) >>= λ o. or_raise o 404

  abbrev pub take_back : ServiceOrder N → ServiceOrder N
  take_back o =
      if is_order OrderState.delivered o.state
      then record o { state = OrderState.acceptance }
      else o

module _ {N : Type 0} (f : Floats N) (e : Outside N) where
  abbrev days_given : Option N → N
  days_given none = f.of_nat acceptance_deemed_days
  days_given (some d) = if f.is_positive d then d else f.of_nat 0

  abbrev days_set : Option String → N
  days_set none = f.of_nat acceptance_deemed_days
  days_set (some raw) = days_given (e.float_of raw)

  -- _deemed_days
  abbrev pub deemed_days : N
  deemed_days = days_set (e.environ "NOCP_ACCEPTANCE_DEEMED_DAYS")

  abbrev total_gbps : List (StorageAllocation N) → N → N
  total_gbps [] n = n
  total_gbps (sa ∷ sas) n = total_gbps sas (e.add n sa.qos_gbps)

  abbrev check : String → String → Check
  check name value = record { name = name; status = "pass"; value = value }

  -- _build_acceptance_report
  abbrev pub build_acceptance_report : ServiceOrder N → ℕ → World N → AcceptanceReport
  build_acceptance_report order report_ts w =
      let n = length order.node_ids in
      let gbps =
        total_gbps
          (select (λ (sa : StorageAllocation N). sa.order_id == order.id) (values w.storage_allocs))
          (f.of_nat 0) in
      let all = decimal n +++ "/" +++ decimal n in
      record {
        checks =
            check "nccl-allreduce" "742 GB/s"
            ∷ check "fio-storage"
                (e.show (if f.is_zero gbps then f.of_nat 40 else gbps) +++ " GB/s")
            ∷ check "burn-in" all
            ∷ check "node-ready" all
            ∷ [];
        nodes_tested = n;
        report_ts = report_ts;
      }

  abbrev pub new_acceptance : ServiceOrder N → ℕ → ℕ → World N → Acceptance
  new_acceptance order report_ts span w = record {
    order_id = order.id;
    tenant_id = order.tenant_id;
    status = Verdict.pending;
    report = build_acceptance_report order report_ts w;
    deemed_deadline = report_ts + span;
    billing_start_date = none;
    reject_reason = none;
    decided_at = none;
    decided_by = none;
  }

  -- the record of an order whose history has reached the acceptance
  abbrev pub open_acceptance : ServiceOrder N → Bool → Exec (Portal N) (Option Acceptance)
  open_acceptance order false = pure none
  open_acceptance order true = do
    span ← or_raise (e.micros deemed_days) 500
    rec ← gets (λ p. new_acceptance order (e.reached order.id) span p.world)
    modify (λ p. record p { acceptances = put order.id rec p.acceptances })
    pure (some rec)

  abbrev pub known_acceptance :
      ServiceOrder N → Option Acceptance → Exec (Portal N) (Option Acceptance)
  known_acceptance order (some rec) = pure (some rec)
  known_acceptance order none =
      open_acceptance order (has_event OrderState.acceptance order.history)

  -- _ensure_acceptance_locked
  unfoldable pub ensure_acceptance : ServiceOrder N → Exec (Portal N) (Option Acceptance)
  unfolding get put decimal
  ensure_acceptance order = do
    require (is_kind_new order.kind) 409
    found ← gets (λ p. get order.id p.acceptances)
    known_acceptance order found

-- delivered, failed or rejected: no more approvals
abbrev pub is_over : OrderState → Bool
is_over = lists_order (OrderState.delivered ∷ OrderState.failed ∷ OrderState.rejected ∷ [])

module _ {N : Type 0} (f : Floats N) (d : Draws) (install : Stage N) where
  abbrev pub approve_unless : Bool → Exec (World N) (Unit {0}) → Exec (World N) (Unit {0})
  approve_unless true approve = pure tt
  approve_unless false approve = approve

  abbrev pub is_done : ServiceOrder N → Bool
  is_done order = not (is_some order.pending_stage) || is_over order.state

  -- the loop of _finalize_delivery, at most so many rounds
  unfoldable pub approve_pending : ℕ → String → Exec (World N) (Unit {0})
  unfolding approve_next_stage
  approve_pending zero oid = pure tt
  approve_pending (suc n) oid = do
    order ← order_at oid
    approve_unless (is_done order) (approve_next_stage f d install oid >> approve_pending n oid)

  -- a node that is there and not in service yet
  abbrev pub serve_node : String → Option NodeInstance → Exec (World N) (Unit {0})
  serve_node nid none = pure tt
  serve_node nid (some node) =
      if is_node NodeState.in_service node.state
      then pure tt
      else on_node nid (advance_node NodeState.in_service "customer acceptance passed")

  abbrev pub serve : String → Exec (World N) (Unit {0})
  serve nid = gets (λ w. get nid w.nodes) >>= serve_node nid

  abbrev pub hand_over : ServiceOrder N → Exec (World N) (Unit {0})
  hand_over order = do
    for_each serve order.node_ids
    if is_some order.access_package then pure tt else build_access_package d order.id
    on_order order.id (advance_order OrderState.delivered "customer acceptance")

  abbrev pub finalize_order : ServiceOrder N → Exec (World N) (Unit {0})
  finalize_order order =
      if is_order OrderState.delivered order.state
      then pure tt
      else if order.approval_mode && is_some order.pending_stage
      then approve_pending 8 order.id
      else if is_order OrderState.acceptance order.state
      then hand_over order
      else pure tt

  -- _finalize_delivery
  unfoldable pub finalize_delivery : String → Exec (World N) (Unit {0})
  unfolding approve_pending for_each build_access_package advance_order advance_node
  finalize_delivery oid = order_at oid >>= finalize_order

  module _ (e : Outside N) where
    abbrev pub deem_approved : String → ℕ → Exec (Portal N) (Unit {0})
    deem_approved oid deadline = do
      on_world (finalize_delivery oid)
      at ← now e
      set_acceptance oid (deemed_at deadline at)
      order ← on_world (order_at oid)
      on_world (set_order (append_event order.state "AcceptanceDeemed") oid)

    abbrev pub settle_from : String → ℕ → Bool → Exec (Portal N) (Unit {0})
    settle_from oid deadline true = pure tt
    settle_from oid deadline false = deem_approved oid deadline

    abbrev pub deem : String → Acceptance → Bool → Exec (Portal N) (Unit {0})
    deem oid rec false = pure tt
    deem oid rec true = do
      at ← now e
      settle_from oid rec.deemed_deadline (ltb at rec.deemed_deadline)

    abbrev pub deem_found : ServiceOrder N → Option Acceptance → Exec (Portal N) (Unit {0})
    deem_found order none = pure tt
    deem_found order (some rec) = deem order.id rec (is_awaited order rec)

    -- _maybe_deem
    unfoldable pub maybe_deem : ServiceOrder N → Exec (Portal N) (Unit {0})
    unfolding finalize_delivery get update
    maybe_deem order = gets (λ p. get order.id p.acceptances) >>= deem_found order

    -- GET /orders/{order_id}/acceptance-report; the view of a missing record is all blank
    unfoldable pub acceptance_report : String → Exec (Portal N) (Option Acceptance)
    unfolding ensure_acceptance maybe_deem
    acceptance_report oid = do
      order ← order_or_404 oid
      rec ← ensure_acceptance f e order
      if is_some rec then maybe_deem order else pure tt
      gets (λ p. get oid p.acceptances)

    abbrev pub approve : String → Exec (Portal N) (Unit {0})
    approve oid = do
      on_world (finalize_delivery oid)
      at ← now e
      set_acceptance oid (approved_at at)
      order ← on_world (order_at oid)
      on_world (set_order (append_event order.state "AcceptanceApproved") oid)

    abbrev pub reject : String → Option String → Exec (Portal N) (Unit {0})
    reject oid reason = do
      at ← now e
      on_world (set_order take_back oid)
      on_world (set_order (append_event OrderState.acceptance "AcceptanceRejected") oid)
      report_ts ← now e
      order ← on_world (order_at oid)
      span ← or_raise (e.micros (deemed_days f e)) 500
      report ← gets (λ p. build_acceptance_report f e order report_ts p.world)
      set_acceptance oid (rejected_at reason at report (report_ts + span))

    abbrev pub decide : String → AcceptanceDecision → Exec (Portal N) (Unit {0})
    decide oid body = if body.decision == "approve" then approve oid else reject oid body.reason

    -- POST /orders/{order_id}/acceptance
    unfoldable pub decide_acceptance :
        String → AcceptanceDecision → Exec (Portal N) (Option Acceptance)
    unfolding ensure_acceptance finalize_delivery get update decimal
    decide_acceptance oid body = do
      order ← order_or_404 oid
      require (body.decision == "approve" || body.decision == "reject") 422
      require (not (body.decision == "reject" && e.blank (or_else body.reason ""))) 422
      require (not (is_closed_off order.state)) 409
      found ← ensure_acceptance f e order
      rec ← or_raise found 409
      require (not (is_settled rec.status)) 409
      decide order.id body
      gets (λ p. get order.id p.acceptances)
