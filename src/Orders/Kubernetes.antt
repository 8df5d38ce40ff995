-- ===== src/Orders/Kubernetes.antt =====
-- app/lifecycle.py: managed Kubernetes on the hosts of an order: how the nodes of a control plane go
-- back to the pool (_rollback_k8s_cp, and the clusters of run_terminate_order).
pub mod Installing
pub mod Running
pub mod DayTwo
use Prim.Native.String.{compare}
use text.Mathlib.Text.{is_le}
use neo_cloud_control_plane.Prelude.{
  ℕ, ◌+◌, String, ◌+++◌, Bool, true, false, not, ◌&&◌, ◌||◌, Option, none, some, List, [], ◌∷◌,
  ◌++◌, map, ◌==◌, if◌then◌else◌, select, is_text, or_else, length, ltb, eqb, contains,
}
use neo_cloud_control_plane.Prelude.Decimal.{decimal}
use neo_cloud_control_plane.Prelude.Exec.{
  Exec, Result, ok, err, raise, require, or_raise, gets, modify, pure, ◌>>=◌, ◌>>◌,
}
use neo_cloud_control_plane.Prelude.Sorting.{sort_by}
use neo_cloud_control_plane.Dict.{Dict, get, put, update, values}
use neo_cloud_control_plane.K8s.{
  ClusterState, InstallState, StageStatus, StageRow, Addon, K8sCluster, K8sInstall, mark_install,
  mark_cluster,
}
use neo_cloud_control_plane.Tenancy.{Allocation, Tray, next_seq, get_all}
use neo_cloud_control_plane.Nico.{
  Nico, Host, is_state, reserved, provisioning, provisioned, allocated,
}
use neo_cloud_control_plane.Nico.Address.{last_number}
use neo_cloud_control_plane.Nico.Hosts.{
  get_host, reserve, unreserve, provision, allocate, release, abort_provision, sanitize,
}
use neo_cloud_control_plane.Nico.Jobs.{wait_job}
use neo_cloud_control_plane.Nico.Segments.{attach_hosts}
use neo_cloud_control_plane.Lifecycle.{NodeInstance, CpuNode, ServiceOrder, World}
use neo_cloud_control_plane.Lifecycle.Placement.{take}
use neo_cloud_control_plane.Orders.{on_nico, on_store, attempt, for_each}
use neo_cloud_control_plane.Orders.Saga.{waiting, is_succeeded, set_cpu, return_cpu}
use neo_cloud_control_plane.Orders.Stages.{order_at, set_order}

-- `except HTTPException as exc: …`, with its status
abbrev pub handled : {S A : Type 0} → (ℕ → Exec S A) → Result A × S → Result A × S
handled handler (ok a, s) = (ok a, s)
handled handler (err c, s) = if eqb c 500 then (err 500, s) else handler c s

abbrev pub on_http_error : {S A : Type 0} → Exec S A → (ℕ → Exec S A) → Exec S A
on_http_error m handler s = handled handler (m s)

-- K8S_CP_NODES_PER_CLUSTER
abbrev pub cp_nodes_per_cluster : ℕ
cp_nodes_per_cluster = 3

abbrev pub cpu_before : CpuNode → CpuNode → Bool
cpu_before a b = is_le (compare a.id b.id)

abbrev pub nkd_version : String
nkd_version = "25.06"

abbrev pub cp_image : String
cp_image = "ubuntu-24.04-k8s-cp"

abbrev pub is_cp_of : String → CpuNode → Bool
is_cp_of oid c = is_text c.order_id oid && c.role == "k8s_cp"

abbrev pub is_up : ClusterState → Bool
is_up ClusterState.running = true
is_up ClusterState.installing = true
is_up _ = false

abbrev pub stands_on : Allocation → K8sCluster → Bool
stands_on alloc c =
    c.tenant_id == alloc.tenant_id && is_up c.state && is_text c.allocation_id alloc.id

module _ {N : Type 0} where
  abbrev pub set_cluster : String → (K8sCluster → K8sCluster) → Exec (World N) (Unit {0})
  set_cluster cid f = modify (λ w. record w { k8s_clusters = update cid f w.k8s_clusters })

  abbrev pub set_install : String → (K8sInstall → K8sInstall) → Exec (World N) (Unit {0})
  set_install iid f = modify (λ w. record w { k8s_installs = update iid f w.k8s_installs })

  abbrev pub host_id_of : CpuNode → Exec (World N) String
  host_id_of c = or_raise c.nico_host_id 404

  -- the release of a host with an instance, or the end of its provisioning
  abbrev pub free_host : Option String → String → Exec (World N) (Unit {0})
  free_host none host_id = on_nico (abort_provision host_id >>= λ h. pure tt)
  free_host (some i) host_id =
      if i == ""
      then on_nico (abort_provision host_id >>= λ h. pure tt)
      else on_nico (waiting (release i) >>= λ j. pure tt)

  abbrev pub undo_host : String → Host → Exec (World N) (Unit {0})
  undo_host host_id host =
      if is_state reserved host.state
      then on_nico (unreserve host_id >>= λ h. pure tt)
      else if is_state provisioning host.state
          || is_state provisioned host.state
          || is_state allocated host.state
      then free_host host.instance_id host_id
        >> on_nico (waiting (sanitize host_id) >>= λ j. pure tt)
      else pure tt

  abbrev pub undo_cp : CpuNode → Exec (World N) (Unit {0})
  undo_cp c = do host_id ← host_id_of c; host ← on_nico (get_host host_id); undo_host host_id host

  -- one round of _rollback_k8s_cp: the node goes back to the pool also where an error is passed over
  abbrev pub rollback_cp : CpuNode → Exec (World N) (Unit {0})
  rollback_cp c = do done ← attempt (undo_cp c); return_cpu c

  -- _rollback_k8s_cp
  unfoldable pub rollback_k8s_cp : String → Exec (World N) (Unit {0})
  unfolding get_host unreserve release abort_provision sanitize wait_job for_each
  rollback_k8s_cp oid = do
    mine ← gets (λ w. select (is_cp_of oid) (values w.cpu_nodes))
    for_each rollback_cp mine

  -- `except HTTPException: _rollback_k8s_cp(…); raise HTTPException(502, …)`
  abbrev pub or_roll_back : String → Exec (World N) (Unit {0}) → Exec (World N) (Unit {0})
  or_roll_back oid m = on_http_error m (λ c. rollback_k8s_cp oid >> raise 502)

  -- the way back of a control plane node of a cluster that is taken down
  abbrev pub release_cp : Option String → Exec (World N) (Unit {0})
  release_cp none = pure tt
  release_cp (some i) = if i == "" then pure tt else on_nico (waiting (release i) >>= λ j. pure tt)

  abbrev pub free_cp : CpuNode → Exec (World N) (Unit {0})
  free_cp c = do
    host_id ← host_id_of c
    host ← on_nico (get_host host_id)
    release_cp host.instance_id
    on_nico (waiting (sanitize host_id) >>= λ j. pure tt)

  abbrev pub give_cp_back : CpuNode → Exec (World N) (Unit {0})
  give_cp_back c = do done ← attempt (free_cp c); return_cpu c

  abbrev pub forget_cluster : String → Exec (World N) (Unit {0})
  forget_cluster oid = modify (λ w. record w {
    orders = update oid (λ (o : ServiceOrder N). record o { k8s_cluster_id = none }) w.orders;
  })

  unfoldable pub take_down : K8sCluster → Exec (World N) (Unit {0})
  unfolding get_host release sanitize wait_job for_each update
  take_down cluster = do
    set_cluster cluster.id (λ c. record c { state = ClusterState.deleting })
    forget_cluster cluster.order_id
    cps ← gets (λ w. get_all w.cpu_nodes cluster.cp_node_ids)
    for_each give_cp_back cps
    set_cluster cluster.id (λ c. record c {
      state = ClusterState.deleted;
      history = c.history ++ ClusterState.deleted ∷ [];
    })

  -- the clusters of an allocation of a tenant, in run_terminate_order
  unfoldable pub clusters_down : String → Allocation → Exec (World N) (Unit {0})
  unfolding take_down for_each
  clusters_down oid alloc = do
    mine ← gets (λ w. select (stands_on alloc) (values w.k8s_clusters))
    for_each take_down mine
