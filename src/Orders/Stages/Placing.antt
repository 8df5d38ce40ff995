-- ===== src/Orders/Stages/Placing.antt =====
-- app/lifecycle.py: _nodes_for_racks, _stage_validated and _stage_reserved. `_nodes_for_racks` raises an
-- HTTPException of status 500; no caller of it catches one.
use Prim.Native.String.{compare}
use text.Mathlib.Text.{is_le}
use neo_cloud_control_plane.Prelude.{
  ℕ, ◌+◌, String, ◌+++◌, Bool, true, false, not, ◌&&◌, ◌||◌, Option, none, some, List, [], ◌∷◌,
  ◌++◌, ◌==◌, eqb, ltb, if◌then◌else◌, select, contains, length, or_else,
}
use neo_cloud_control_plane.Prelude.Exec.{Exec, require, gets, modify, pure, ◌>>=◌, ◌>>◌}
use neo_cloud_control_plane.Prelude.Sorting.{sort_by}
use neo_cloud_control_plane.Dict.{Dict, get, values}
use neo_cloud_control_plane.Tenancy.{Rack, Tenant}
use neo_cloud_control_plane.Nico.Hosts.{reserve}
use neo_cloud_control_plane.Lifecycle.{
  NodeState, OrderState, NodeInstance, ServiceOrder, CpuNode, World, is_node, advance_node,
  advance_order,
}
use neo_cloud_control_plane.Lifecycle.Placement.{nodes_of_rack, select_racks}
use neo_cloud_control_plane.Orders.{Floats, on_nico, on_node, on_order, attempt}
use neo_cloud_control_plane.Orders.Saga.{cpu_nodes_per_tenant, compensate}
use neo_cloud_control_plane.Orders.Stages.{order_at, node_at, ctx_nodes, ids, set_order}

-- the keys of spec.BLUEPRINTS
abbrev pub blueprints : List String
blueprints = "gb200-nvl72" ∷ "gb300-nvl72" ∷ "vr-nvl72" ∷ []

-- K8S_SUPPORTED_VERSIONS and K8S_CP_NODES_PER_CLUSTER
abbrev pub k8s_supported_versions : List String
k8s_supported_versions = "v1.32.4" ∷ "v1.33.2" ∷ []

abbrev pub k8s_cp_nodes_per_cluster : ℕ
k8s_cp_nodes_per_cluster = 3

abbrev pub free_cpu : Dict CpuNode → ℕ
free_cpu d = length (select (λ (c : CpuNode). c.state == "pool_ready") (values d))

abbrev pub node_before : NodeInstance → NodeInstance → Bool
node_before a b = is_le (compare a.id b.id)

unfoldable pub nodes_for_racks : {N : Type 0} → List Rack → Exec (World N) (List NodeInstance)
nodes_for_racks [] = pure []
nodes_for_racks (rack ∷ racks) = do
  rack_nodes ← gets (λ w. nodes_of_rack rack.id w.nodes)
  require (eqb (length rack_nodes) (length rack.tray_ids)) 500
  more ← nodes_for_racks racks
  pure (sort_by node_before rack_nodes ++ more)

module _ {N : Type 0} (f : Floats N) where
  -- the first of the tests of `_stage_validated` that turns the order down
  abbrev pub objection : ServiceOrder N → World N → Option String
  objection order w =
      if not (is_known (get order.tenant_id w.store.tenants))
      then some "unknown tenant"
      else if not (contains blueprints (or_else order.blueprint_key "")) || ltb order.racks 1
      then some "invalid spec: blueprint_key/racks required"
      else if order.storage_manual && not (f.is_positive order.storage_tb)
      then some "invalid storage spec"
      else if order.managed_k8s && not (contains k8s_supported_versions order.k8s_version)
      then some "invalid k8s spec"
      else if order.managed_k8s
          && ltb (free_cpu w.cpu_nodes) (cpu_nodes_per_tenant + k8s_cp_nodes_per_cluster)
      then some "insufficient CPU pool"
      else none
    where
      is_known : Option Tenant → Bool
      is_known none = false
      is_known (some t) = true

module _ {N : Type 0} where
  abbrev pub refuse : String → String → Exec (World N) (Unit {0})
  refuse oid detail = do
    on_order oid (advance_order OrderState.rejected detail)
    set_order (λ o. record o { error = some detail }) oid

  abbrev pub place : String → Option (List Rack) → Exec (World N) (Unit {0})
  place oid none = refuse oid "insufficient capacity"
  place oid (some racks) = do
    nodes ← nodes_for_racks racks
    set_order (λ o. record o { node_ids = ids nodes }) oid

  abbrev pub validate_and_place :
      String → ServiceOrder N → Option String → Exec (World N) (Unit {0})
  validate_and_place oid order (some reason) = refuse oid reason
  validate_and_place oid order none = do
    on_order oid (advance_order OrderState.validated "policy: tenant/spec ok")
    racks ← gets (λ w.
        select_racks w.store w.nodes (or_else order.blueprint_key "") order.racks
          (get order.tenant_id w.store.tenants))
    place oid racks

  unfoldable pub stage_validated : Floats N → String → Exec (World N) (Unit {0})
  unfolding advance_order nodes_for_racks select_racks
  stage_validated f oid = do
    order ← order_at oid
    reason ← gets (objection f order)
    validate_and_place oid order reason

  abbrev pub after_reserve : String → String → Option (Unit {0}) → Exec (World N) (Option String)
  after_reserve oid key none = do
    on_node key (advance_node NodeState.cordoned "reserve failed")
    pure (some "reserve failed")
  after_reserve oid key (some _) = do
    on_node key (advance_node NodeState.reserved ("order " +++ oid))
    on_node key (modify (λ n. record n { order_id = some oid }))
    pure none

  -- a round of the loop; what comes back is the reason to stop
  abbrev pub reserve_one : String → NodeInstance → Exec (World N) (Option String)
  reserve_one oid node =
      if is_node NodeState.pool_ready node.state
      then (attempt (on_nico (reserve node.nico_host_id >>= λ h. pure tt))
          >>= after_reserve oid node.id)
      else pure (some "node not pool_ready")

  unfoldable pub reserve_nodes : String → List String → List String → Exec (World N) (Unit {0})
  unfolding advance_node reserve compensate
  reserve_nodes oid [] done = pure tt
  reserve_nodes oid (key ∷ keys) done = do
    node ← node_at key
    stop ← reserve_one oid node
    elim stop [
      | none ↦ reserve_nodes oid keys (done ++ key ∷ [])
      | some reason ↦ compensate oid done reason
    ]

  unfoldable pub stage_reserved : String → Exec (World N) (Unit {0})
  unfolding advance_order reserve_nodes
  stage_reserved oid = do
    order ← order_at oid
    nodes ← gets (ctx_nodes order)
    on_order oid (advance_order OrderState.reserved "")
    reserve_nodes oid (ids nodes) []
