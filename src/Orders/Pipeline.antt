-- ===== src/Orders/Pipeline.antt =====
-- app/lifecycle.py: how the stages of a new order follow each other (stages_for, run_new_order,
-- approve_next_stage, reject_fulfillment). The stage that installs Kubernetes is a parameter.
use neo_cloud_control_plane.Prelude.{
  ℕ, String, ◌+++◌, Bool, true, false, ◌||◌, Option, none, some, List, [], ◌∷◌, ◌++◌, if◌then◌else◌,
}
use neo_cloud_control_plane.Prelude.Decimal.{decimal}
use neo_cloud_control_plane.Prelude.Exec.{Exec, require, or_raise, gets, modify, pure, ◌>>=◌, ◌>>◌}
use neo_cloud_control_plane.Dict.{get, put}
use neo_cloud_control_plane.Tenancy.{next_seq}
use neo_cloud_control_plane.Lifecycle.{
  OrderState, OrderKind, ServiceOrder, World, lists_order, is_order, advance_order,
}
use neo_cloud_control_plane.Orders.{Floats, on_store}
use neo_cloud_control_plane.Orders.Saga.{compensate}
use neo_cloud_control_plane.Orders.Stages.{order_at, ctx_nodes, ids, set_order}
use neo_cloud_control_plane.Orders.Stages.Placing.{refuse, stage_validated, stage_reserved}
use neo_cloud_control_plane.Orders.Stages.Building.{
  stage_provisioning, stage_isolating, stage_storage_binding,
}
use neo_cloud_control_plane.Orders.Stages.Handing.{Draws, stage_acceptance, stage_delivered}

pub record OrderCreate (N : Type 0) : Type 0 where
  pub tenant_id : String
  pub kind : OrderKind
  pub blueprint_key : Option String
  pub racks : ℕ
  pub allocation_id : Option String
  pub approval_mode : Bool
  pub storage_manual : Bool
  pub storage_tb : N
  pub storage_gbps : N
  pub managed_k8s : Bool
  pub k8s_version : String

-- A stage says whether the order goes on in the background: `order.id in _K8S_BG_ORDERS` after it.
abbrev pub Stage : Type 0 → Type 0
Stage N = String → Exec (World N) Bool

abbrev pub Stages : Type 0 → Type 0
Stages N = List (OrderState × Stage N)

-- _TERMINAL_STATES
abbrev pub is_terminal : OrderState → Bool
is_terminal =
    lists_order
      (OrderState.rejected ∷ OrderState.failed ∷ OrderState.closed ∷ OrderState.delivered ∷ [])

abbrev pub is_given_up : OrderState → Bool
is_given_up = lists_order (OrderState.rejected ∷ OrderState.failed ∷ [])

module _ {N : Type 0} where
  abbrev pub in_foreground : (String → Exec (World N) (Unit {0})) → Stage N
  in_foreground m oid = m oid >>= λ u. pure false

  -- the rest of the loop of run_new_order, unless it returns
  abbrev pub go_on : Bool → Exec (World N) (Unit {0}) → Exec (World N) (Unit {0})
  go_on true rest = pure tt
  go_on false rest = rest

  -- the loop of run_new_order
  unfoldable pub run_stages : Stages N → String → Exec (World N) (Unit {0})
  run_stages [] oid = pure tt
  run_stages ((state, stage) ∷ stages) oid = do
    background ← stage oid
    order ← order_at oid
    go_on (is_given_up order.state || background) (run_stages stages oid)

  -- `dict(stages)[stage]`
  abbrev pub stage_of : OrderState → Stages N → Option (Stage N)
  stage_of st [] = none
  stage_of st ((state, stage) ∷ stages) =
      if is_order state st then some stage else stage_of st stages

  -- `stages[idx + 1][0]`
  abbrev pub first_state : Stages N → Option OrderState
  first_state [] = none
  first_state ((state, stage) ∷ stages) = some state

  abbrev pub next_state : OrderState → Stages N → Option OrderState
  next_state st [] = none
  next_state st ((state, stage) ∷ stages) =
      if is_order state st then first_state stages else next_state st stages

  abbrev pub set_pending : Option OrderState → String → Exec (World N) (Unit {0})
  set_pending p = set_order (λ o. record o { pending_stage = p })

  -- the gate after a stage
  abbrev pub wait_at_gate : String → Stages N → OrderState → Bool → Exec (World N) (Unit {0})
  wait_at_gate oid stages st true = pure tt
  wait_at_gate oid stages st false = do
    next ← or_raise (next_state st stages) 500
    set_pending (some next) oid

  abbrev pub approve_stage : Stages N → OrderState → String → Exec (World N) (Unit {0})
  approve_stage stages st oid = do
    set_pending none oid
    stage ← or_raise (stage_of st stages) 500
    stage oid
    order ← order_at oid
    wait_at_gate oid stages st (is_terminal order.state)

  unfoldable pub reject_fulfillment : String → String → Exec (World N) (Unit {0})
  unfolding advance_order compensate
  reject_fulfillment oid reason = do
    found ← gets (λ w. get oid w.orders)
    order ← or_raise found 404
    require order.approval_mode 409
    pending ← or_raise order.pending_stage 409
    set_pending none oid
    keys ← gets (λ w. ids (ctx_nodes order w))
    turn_down (lists_order (OrderState.received ∷ OrderState.validated ∷ []) order.state) keys
    where
      turn_down : Bool → List String → Exec (World N) (Unit {0})
      turn_down true keys = refuse oid ("operator: " +++ reason)
      turn_down false keys = compensate oid keys ("operator: " +++ reason)

  abbrev pub order_of : String → OrderCreate N → ServiceOrder N
  order_of oid body = record {
    id = oid;
    tenant_id = body.tenant_id;
    kind = body.kind;
    blueprint_key = body.blueprint_key;
    racks = body.racks;
    allocation_id = none;
    allocation_ids = [];
    approval_mode = body.approval_mode;
    pending_stage = none;
    storage_manual = body.storage_manual;
    storage_tb = body.storage_tb;
    storage_gbps = body.storage_gbps;
    managed_k8s = body.managed_k8s;
    k8s_version = if body.managed_k8s then body.k8s_version else "";
    k8s_cluster_id = none;
    segment_id = none;
    storage_ids = [];
    node_ids = [];
    state = OrderState.received;
    access_package = none;
    error = none;
    history = record { state = OrderState.received; detail = "" } ∷ [];
  }

module _ {N : Type 0} (f : Floats N) (d : Draws) (install : Stage N) where
  -- FULFILL_STAGES without its last stage
  abbrev pub building_stages : Stages N
  building_stages =
      (OrderState.validated, in_foreground (stage_validated f))
      ∷ (OrderState.reserved, in_foreground stage_reserved)
      ∷ (OrderState.provisioning, in_foreground stage_provisioning)
      ∷ (OrderState.isolating, in_foreground stage_isolating)
      ∷ (OrderState.storage_binding, in_foreground (stage_storage_binding f))
      ∷ (OrderState.acceptance, in_foreground (stage_acceptance d))
      ∷ []

  abbrev pub last_stages : Stages N
  last_stages = (OrderState.delivered, in_foreground (stage_delivered d)) ∷ []

  unfoldable pub stages_for : ServiceOrder N → Stages N
  unfolding stage_validated stage_reserved stage_provisioning stage_isolating stage_storage_binding
      stage_acceptance stage_delivered
  stages_for order =
      if order.managed_k8s
      then building_stages ++ (OrderState.k8s_installing, install) ∷ last_stages
      else building_stages ++ last_stages

  abbrev pub start_order : Bool → String → Exec (World N) (Unit {0})
  start_order true oid = set_pending (some OrderState.validated) oid
  start_order false oid = do order ← order_at oid; run_stages (stages_for order) oid

  unfoldable pub run_new_order : OrderCreate N → Exec (World N) (ServiceOrder N)
  unfolding stages_for run_stages next_seq
  run_new_order body = do
    n ← on_store (λ s. let (n, s') = next_seq "order" s in pure n s')
    let oid = "ord-" +++ decimal n
    modify (λ w. record w { orders = put oid (order_of oid body) w.orders })
    start_order body.approval_mode oid
    order_at oid

  unfoldable pub approve_next_stage : String → Exec (World N) (ServiceOrder N)
  unfolding stages_for
  approve_next_stage oid = do
    found ← gets (λ w. get oid w.orders)
    order ← or_raise found 404
    require order.approval_mode 409
    st ← or_raise order.pending_stage 409
    approve_stage (stages_for order) st oid
    order_at oid
