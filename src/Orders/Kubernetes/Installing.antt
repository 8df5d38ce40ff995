-- ===== src/Orders/Kubernetes/Installing.antt =====
-- app/lifecycle.py: the installation of Kubernetes in eight stages (_k8s_st_cp_reserve to
-- _k8s_st_active, _run_k8s_install, _stage_k8s_install). The record of an installation names its cluster
-- from the first stage on, and the cluster its control plane: they stand for the context that the
-- stages pass on.
use neo_cloud_control_plane.Prelude.{
  ℕ, ◌+◌, String, ◌+++◌, Option, none, some, List, [], ◌∷◌, ◌++◌, map, ◌==◌, if◌then◌else◌, select,
  or_else, length, ltb,
}
use neo_cloud_control_plane.Prelude.Decimal.{decimal}
use neo_cloud_control_plane.Prelude.Exec.{
  Exec, raise, require, or_raise, gets, modify, pure, ◌>>=◌, ◌>>◌,
}
use neo_cloud_control_plane.Prelude.Sorting.{sort_by}
use neo_cloud_control_plane.Dict.{Dict, get, put, update, values}
use neo_cloud_control_plane.K8s.{
  ClusterState, InstallState, StageStatus, StageRow, Addon, K8sCluster,
}
use neo_cloud_control_plane.Shared.{audit}
use neo_cloud_control_plane.Tenancy.{Tray, next_seq, get_all}
use neo_cloud_control_plane.Nico.{Host}
use neo_cloud_control_plane.Nico.Address.{last_number}
use neo_cloud_control_plane.Nico.Hosts.{reserve, provision, allocate}
use neo_cloud_control_plane.Nico.Jobs.{wait_job}
use neo_cloud_control_plane.Nico.Segments.{attach_hosts}
use neo_cloud_control_plane.Lifecycle.{
  NodeInstance, CpuNode, ServiceOrder, StorageAllocation, World,
}
use neo_cloud_control_plane.Lifecycle.Placement.{take}
use neo_cloud_control_plane.Orders.{on_nico, on_store, on_shared, for_each}
use neo_cloud_control_plane.Orders.Saga.{waiting, is_succeeded, set_cpu}
use neo_cloud_control_plane.Orders.Stages.{order_at, set_order, ids}
use neo_cloud_control_plane.Orders.Stages.Building.{set_detail}
use neo_cloud_control_plane.Orders.Kubernetes.{
  cp_nodes_per_cluster, nkd_version, cp_image, set_cluster, set_install, host_id_of,
  rollback_k8s_cp, or_roll_back, cpu_before,
}

abbrev pub managed_addons : List Addon
managed_addons =
    record { name = "cilium"; version = "1.16.5" }
    ∷ record { name = "multus"; version = "4.1.3" }
    ∷ record { name = "gpu-operator"; version = "25.3.0" }
    ∷ record { name = "network-operator"; version = "25.1.0" }
    ∷ record { name = "dcgm-exporter"; version = "3.3.9" }
    ∷ record { name = "kube-vip"; version = "0.8.7" }
    ∷ record { name = "local-path-csi"; version = "0.0.30" }
    ∷ []

abbrev pub install_checks : List String
install_checks =
    "nodes-ready" ∷ "gpu-allocatable" ∷ "rdma-resources" ∷ "nccl-smoke" ∷ "dcgm-diag" ∷ "api-vip-ha"
    ∷ []

abbrev pub first_of_list : List String → Option String
first_of_list [] = none
first_of_list (x ∷ xs) = some x

abbrev pub pending_row : String → StageRow
pending_row name = record { name = name; status = StageStatus.pending }

abbrev pub count_gpus : List Tray → ℕ
count_gpus [] = 0
count_gpus (t ∷ ts) = length t.gpu_ids + count_gpus ts

-- `node_versions[key] = version` for each key
abbrev pub put_versions : String → List String → Dict String → Dict String
put_versions version [] d = d
put_versions version (k ∷ ks) d = put_versions version ks (put k version d)

abbrev pub report_of : List NodeInstance → Option String → List (String × String)
report_of nodes view =
    let total = decimal (cp_nodes_per_cluster + length nodes) in
    let workers = decimal (length nodes) in
    ("node-ready", total +++ "/" +++ total)
    ∷ ("nccl-allreduce", "742 GB/s")
    ∷ ("dcgm-diag", workers +++ "/" +++ workers)
    ∷ ("storage-mount", or_else view "-")
    ∷ []

module _ {N : Type 0} where
  abbrev pub new_cluster :
      String → ℕ → ServiceOrder N → List CpuNode → List NodeInstance → ℕ → K8sCluster
  new_cluster cid n order cps nodes gpus = record {
    id = cid;
    tenant_id = order.tenant_id;
    order_id = order.id;
    allocation_id = first_of_list order.allocation_ids;
    name = order.tenant_id +++ "-mk8s";
    version = order.k8s_version;
    nkd_version = nkd_version;
    state = ClusterState.installing;
    api_vip = "10.250.1." +++ decimal (200 + n);
    oidc_issuer = "https://iam.neocloud.skt/realms/" +++ order.tenant_id;
    cp_node_ids = map (λ (c : CpuNode). c.id) cps;
    worker_node_ids = ids nodes;
    gpus_total = gpus;
    addons = [];
    dcgm_mode = "in-band";
    conditions = [];
    stage = "";
    stage_history = [];
    progress_pct = 0;
    acceptance = none;
    node_versions = [];
    history = ClusterState.installing ∷ [];
  }

  abbrev pub reserve_cp : String → CpuNode → Exec (World N) (Unit {0})
  reserve_cp oid c = do
    host_id ← host_id_of c
    on_nico (reserve host_id)
    modify (set_cpu (record c { order_id = some oid; role = "k8s_cp"; state = "reserved" }))

  abbrev pub reserve_plane :
      String → String → List NodeInstance → ℕ → List CpuNode → Exec (World N) (Unit {0})
  reserve_plane oid iid nodes gpus cps = do
    n ← on_store (λ s. let (n, s') = next_seq "k8s" s in pure n s')
    let cid = "k8s-" +++ decimal n
    order ← order_at oid
    modify (λ w. record w {
      k8s_clusters = put cid (new_cluster cid n order cps nodes gpus) w.k8s_clusters;
    })
    set_order (λ o. record o { k8s_cluster_id = some cid }) oid
    set_install iid (λ i. record i { cluster_id = some cid })
    or_roll_back oid (for_each (reserve_cp oid) cps)

  -- _k8s_st_cp_reserve
  unfoldable pub st_cp_reserve : String → String → List NodeInstance → ℕ → Exec (World N) (Unit {0})
  unfolding sort_by next_seq decimal reserve rollback_k8s_cp for_each update
  st_cp_reserve oid iid nodes gpus = do
    pool ← gets (λ w.
        sort_by cpu_before (select (λ (c : CpuNode). c.state == "pool_ready") (values w.cpu_nodes)))
    if ltb (length pool) cp_nodes_per_cluster
        then rollback_k8s_cp oid >> raise 409
        else reserve_plane oid iid nodes gpus (take cp_nodes_per_cluster pool)

  -- the cluster of an installation, and its control plane
  abbrev pub cluster_at : String → Exec (World N) K8sCluster
  cluster_at iid = do
    found ← gets (λ w. get iid w.k8s_installs)
    inst ← or_raise found 500
    cid ← or_raise inst.cluster_id 500
    cluster ← gets (λ w. get cid w.k8s_clusters)
    or_raise cluster 500

  abbrev pub plane_of : K8sCluster → World N → List CpuNode
  plane_of cluster w = get_all w.cpu_nodes cluster.cp_node_ids

  -- `host.host_ip or f"10.250.1.{…}"`
  abbrev pub address_of : CpuNode → Host → Exec (World N) String
  address_of c host =
      if host.host_ip == ""
      then (or_raise (last_number none c.id) 500 >>= λ n. pure ("10.250.1." +++ decimal (n + 100)))
      else pure host.host_ip

  abbrev pub provision_cp : String → Option String → CpuNode → Exec (World N) (Unit {0})
  provision_cp tenant_id segment_id c = do
    host_id ← host_id_of c
    job ← on_nico (waiting (provision host_id cp_image))
    require (is_succeeded job.state) 502
    host ← on_nico (allocate host_id tenant_id)
    let c' = record c { tenant_id = some tenant_id; state = "allocated" }
    modify (set_cpu c')
    ip ← address_of c' host
    modify (set_cpu (record c' { host_ip = ip; segment_id = segment_id }))

  -- _k8s_st_os_provision
  unfoldable pub st_os_provision : String → String → Exec (World N) (Unit {0})
  unfolding provision wait_job allocate last_number decimal rollback_k8s_cp for_each
  st_os_provision oid iid = do
    order ← order_at oid
    cluster ← cluster_at iid
    cps ← gets (plane_of cluster)
    or_roll_back oid (for_each (provision_cp order.tenant_id order.segment_id) cps)

  abbrev pub join_segment : String → CpuNode → Exec (World N) (Unit {0})
  join_segment segment_id c = modify (set_cpu (record c { segment_id = some segment_id }))

  abbrev pub attach_plane : Option String → List CpuNode → Exec (World N) (Unit {0})
  attach_plane segment_id cps = do
    sid ← or_raise segment_id 404
    on_nico (attach_hosts sid (map (λ (c : CpuNode). or_else c.nico_host_id "") cps))
    for_each (join_segment sid) cps

  -- _k8s_st_net_attach
  unfoldable pub st_net_attach : String → String → Exec (World N) (Unit {0})
  unfolding attach_hosts rollback_k8s_cp for_each
  st_net_attach oid iid = do
    order ← order_at oid
    cluster ← cluster_at iid
    cps ← gets (plane_of cluster)
    or_roll_back oid (attach_plane order.segment_id cps)

  -- _k8s_st_nkd_bootstrap
  unfoldable pub st_nkd_bootstrap : String → String → List NodeInstance → Exec (World N) (Unit {0})
  unfolding update put
  st_nkd_bootstrap oid iid nodes = do
    order ← order_at oid
    cluster ← cluster_at iid
    or_raise (first_of_list cluster.cp_node_ids) 500
    set_cluster cluster.id (λ c. record c {
      history = c.history ++ ClusterState.installing ∷ [];
      node_versions =
          put_versions order.k8s_version (map (λ (n : NodeInstance). n.tray_id) nodes)
            (put_versions order.k8s_version c.cp_node_ids c.node_versions);
    })

  -- _k8s_st_addons
  unfoldable pub st_addons : String → Exec (World N) (Unit {0})
  unfolding update
  st_addons iid = do
    cluster ← cluster_at iid
    set_cluster cluster.id (λ c. record c { addons = c.addons ++ managed_addons })

  -- _k8s_st_acceptance
  unfoldable pub st_acceptance : String → String → List NodeInstance → Exec (World N) (Unit {0})
  unfolding update decimal
  st_acceptance oid iid nodes = do
    order ← order_at oid
    cluster ← cluster_at iid
    views ← gets (λ w.
        map (λ (v : StorageAllocation N). v.view_path) (get_all w.storage_allocs order.storage_ids))
    set_cluster cluster.id (λ c. record c {
      conditions = c.conditions ++ install_checks;
      acceptance = some (report_of nodes (first_of_list views));
    })

  -- _k8s_st_telemetry
  unfoldable pub st_telemetry : String → Exec (World N) (Unit {0})
  unfolding update
  st_telemetry iid = do
    cluster ← cluster_at iid
    set_cluster cluster.id (λ c. record c { dcgm_mode = "in-band" })

  -- _k8s_st_active
  unfoldable pub st_active : String → String → Exec (World N) (Unit {0})
  unfolding update audit
  st_active oid iid = do
    order ← order_at oid
    cluster ← cluster_at iid
    set_cluster cluster.id (λ c. record c {
      state = ClusterState.running;
      stage = "active";
      history = c.history ++ ClusterState.running ∷ [];
    })
    set_install iid (λ i. record i { state = InstallState.succeeded })
    on_shared (
        modify
          (audit "neocloud-os" "k8s.cluster.install" cluster.id "success" (some order.tenant_id)))
    set_order (λ o. record o { history = set_detail ("Managed K8s " +++ o.k8s_version) o.history })
        oid
