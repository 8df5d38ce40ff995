-- ===== src/Orders/Stages/Handing.antt =====
-- app/lifecycle.py: _stage_acceptance, _stage_delivered and _build_access_package. The section on a
-- Kubernetes cluster in the package is not modelled.
use neo_cloud_control_plane.Prelude.{
  String, ◌+++◌, Bool, true, false, Option, none, some, List, map, map_option,
}
use neo_cloud_control_plane.Prelude.Exec.{Exec, gets, modify, pure, ◌>>=◌, ◌>>◌}
use neo_cloud_control_plane.Dict.{get}
use neo_cloud_control_plane.Tenancy.{NetworkIsolation, get_all}
use neo_cloud_control_plane.Tenancy.Report.{isolation_report}
use neo_cloud_control_plane.Shared.{
  Shared, audit, issue_service_account, write_secret, pop_sa_secret,
}
use neo_cloud_control_plane.Lifecycle.{
  NodeState, OrderState, ServiceOrder, AccessPackage, StorageAllocation, World, advance_node,
  advance_order,
}
use neo_cloud_control_plane.Orders.{on_store, on_shared, on_node, on_order, for_each}
use neo_cloud_control_plane.Orders.Saga.{compensate}
use neo_cloud_control_plane.Orders.Stages.{order_at, tenant_at, ctx_nodes, ids, set_order}

-- The random texts that a run draws, and the cuts `secret[-4:]` and `kind[:3]`.
pub record Draws : Type 0 where
  pub mask : String → String
  pub short : String → String
  pub account : String
  pub token : String
  pub storage : String
  pub redfish : String
  pub final : String

unfoldable pub issue_credentials : Draws → String → String → Exec Shared (Unit {0})
unfolding issue_service_account write_secret
issue_credentials d tenant_id oid = do
  let base = "tenants/" +++ tenant_id +++ "/" +++ oid
  issue_service_account d.mask tenant_id oid d.account d.token
  modify (λ s.
      (write_secret d.short (base +++ "/storage-s3") "s3-access-key" tenant_id (some oid) d.storage
        s).1)
  modify (λ s.
      (write_secret d.short (base +++ "/oob-redfish") "redfish-cred" tenant_id (some oid) d.redfish
        s).1)

module _ {N : Type 0} where
  abbrev pub accept : Draws → String → String → List String → Bool → Exec (World N) (Unit {0})
  accept d oid tenant_id keys false = compensate oid keys "isolation verification failed"
  accept d oid tenant_id keys true = on_shared (issue_credentials d tenant_id oid)

  unfoldable pub stage_acceptance : Draws → String → Exec (World N) (Unit {0})
  unfolding advance_order isolation_report issue_credentials compensate
  stage_acceptance d oid = do
    order ← order_at oid
    nodes ← gets (ctx_nodes order)
    tenant ← tenant_at order.tenant_id
    on_order oid (advance_order OrderState.acceptance "running isolation verification")
    report ← on_store (isolation_report tenant.id)
    accept d oid tenant.id (ids nodes) report.ok

  abbrev pub mount : String → String → StorageAllocation N → String × String
  mount tid oid v = (
    "vast-vip.tenant-data:" +++ v.view_path,
    "secret/tenants/" +++ tid +++ "/" +++ oid +++ "/storage-s3",
  )

  abbrev pub package_of :
      ServiceOrder N → Option NetworkIsolation → List (StorageAllocation N) → String → AccessPackage
  package_of order iso views secret = record {
    ssh_user = order.tenant_id;
    client_id = "sa-" +++ order.id;
    client_secret = secret;
    storage = map (mount order.tenant_id order.id) views;
    vrf = map_option (λ (i : NetworkIsolation). i.vrf) iso;
    compute_l3vni = map_option (λ (i : NetworkIsolation). i.compute_l3vni) iso;
    ib_pkey = elim iso [ none ↦ none | some i ↦ i.ib_pkey ];
  }

  unfoldable pub build_access_package : Draws → String → Exec (World N) (Unit {0})
  unfolding pop_sa_secret audit
  build_access_package d oid = do
    order ← order_at oid
    iso ← gets (λ w. get order.tenant_id w.store.netiso)
    views ← gets (λ w. get_all w.storage_allocs order.storage_ids)
    secret ← on_shared (λ s. let (v, s') = pop_sa_secret oid d.final s in pure v s')
    set_order (λ o. record o { access_package = some (package_of order iso views secret) }) oid
    on_shared (
        modify (
          audit "neocloud-os" "delivery.access-package.issue" oid "success" (some order.tenant_id)))

  abbrev pub put_in_service : String → Exec (World N) (Unit {0})
  put_in_service key = on_node key (advance_node NodeState.in_service "acceptance passed")

  unfoldable pub stage_delivered : Draws → String → Exec (World N) (Unit {0})
  unfolding advance_order advance_node isolation_report build_access_package for_each
  stage_delivered d oid = do
    order ← order_at oid
    nodes ← gets (ctx_nodes order)
    report ← on_store (isolation_report order.tenant_id)
    for_each put_in_service (ids nodes)
    build_access_package d oid
    on_order oid (advance_order OrderState.delivered "isolation ok")
