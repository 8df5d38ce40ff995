-- ===== src/Orders/Kubernetes/DayTwo.antt =====
-- app/lifecycle.py: Kubernetes on racks that are in service already (install_k8s_addon). The entry of
-- the access package that it writes is not kept.
use neo_cloud_control_plane.Prelude.{
  String, Bool, true, false, not, ◌&&◌, Option, none, some, List, [], ◌∷◌, ◌==◌, if◌then◌else◌,
  contains, any, is_text, ltb,
}
use neo_cloud_control_plane.Prelude.Exec.{Exec, raise, require, or_raise, gets, pure, ◌>>=◌, ◌>>◌}
use neo_cloud_control_plane.Dict.{get, values}
use neo_cloud_control_plane.K8s.{K8sCluster}
use neo_cloud_control_plane.Lifecycle.{OrderState, ServiceOrder, World, is_order, advance_order}
use neo_cloud_control_plane.Orders.{on_order}
use neo_cloud_control_plane.Orders.Stages.{order_at, set_order}
use neo_cloud_control_plane.Orders.Stages.Placing.{
  k8s_supported_versions, k8s_cp_nodes_per_cluster, free_cpu,
}
use neo_cloud_control_plane.Orders.Kubernetes.{is_up, on_http_error}
use neo_cloud_control_plane.Orders.Kubernetes.Running.{
  begin_k8s_install, run_k8s_install, install_k8s,
}

-- _K8sAddonBody
pub record K8sAddonBody : Type 0 where
  pub tenant_id : String
  pub allocation_id : String
  pub k8s_version : String

abbrev pub is_installed_on : String → K8sCluster → Bool
is_installed_on aid c = is_text c.allocation_id aid && is_up c.state

module _ {N : Type 0} where
  -- `next((o for o in s.orders.values() if …), None)`
  abbrev pub order_with : String → List (ServiceOrder N) → Option (ServiceOrder N)
  order_with aid [] = none
  order_with aid (o ∷ os) = if contains o.allocation_ids aid then some o else order_with aid os

  abbrev pub with_k8s : Bool → String → ServiceOrder N → ServiceOrder N
  with_k8s b version o = record o { managed_k8s = b; k8s_version = version }

  -- what is left of an add-on that failed: the order as it was delivered
  abbrev pub restore : String → Exec (World N) (Unit {0})
  restore oid = do
    set_order (with_k8s false "") oid
    on_order oid (advance_order OrderState.delivered "k8s add-on: failed")

  -- the installation in the foreground
  unfoldable pub addon_sync : String → Exec (World N) (Unit {0})
  unfolding begin_k8s_install run_k8s_install advance_order
  addon_sync oid = do
    on_http_error (install_k8s oid) (λ c. restore oid >> raise 502)
    on_order oid (advance_order OrderState.delivered "Managed K8s add-on")

  -- `_bg` of install_k8s_addon
  unfoldable pub finish_addon : String → String → Exec (World N) (Unit {0})
  unfolding run_k8s_install advance_order
  finish_addon oid iid =
      on_http_error
        (run_k8s_install oid iid
          >> on_order oid (advance_order OrderState.delivered "Managed K8s add-on"))
        (λ c. restore oid)

  abbrev pub start_addon : Bool → String → Exec (World N) (Unit {0})
  start_addon true oid = begin_k8s_install oid >>= λ iid. pure tt
  start_addon false oid = addon_sync oid

  -- POST /k8s/installs; `paced` tells whether a stage delay is set
  unfoldable pub install_k8s_addon : Bool → K8sAddonBody → Exec (World N) (ServiceOrder N)
  unfolding addon_sync begin_k8s_install
  install_k8s_addon paced body = do
    found ← gets (λ w. get body.allocation_id w.store.allocations)
    alloc ← or_raise found 404
    require (alloc.tenant_id == body.tenant_id) 404
    source ← gets (λ w. order_with body.allocation_id (values w.orders))
    src ← or_raise source 409
    require (is_order src.state OrderState.delivered) 409
    taken ← gets (λ w. any (is_installed_on alloc.id) (values w.k8s_clusters))
    require (not taken) 409
    require (contains k8s_supported_versions body.k8s_version) 422
    free ← gets (λ w. free_cpu w.cpu_nodes)
    require (not (ltb free k8s_cp_nodes_per_cluster)) 409
    set_order (with_k8s true body.k8s_version) src.id
    start_addon paced src.id
    order_at src.id
