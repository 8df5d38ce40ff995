-- ===== src/Orders/Kubernetes/Running.antt =====
-- app/lifecycle.py: the eight stages of an installation one after the other, and the stage of the order
-- around them (_begin_k8s_install, _k8s_mark, _run_k8s_install, _stage_k8s_install).
use neo_cloud_control_plane.Prelude.{
  ℕ, String, ◌+++◌, Bool, true, false, not, ◌&&◌, Option, none, some, List, [], ◌∷◌, ◌++◌, map,
  ◌==◌, if◌then◌else◌, or_else,
}
use neo_cloud_control_plane.Prelude.Decimal.{decimal}
use neo_cloud_control_plane.Prelude.Exec.{Exec, raise, gets, modify, pure, ◌>>=◌, ◌>>◌}
use neo_cloud_control_plane.Dict.{Dict, get, put, update}
use neo_cloud_control_plane.K8s.{
  ClusterState, InstallState, StageStatus, K8sCluster, K8sInstall, k8s_install_stages, mark_install,
  mark_cluster,
}
use neo_cloud_control_plane.Tenancy.{next_seq, get_all}
use neo_cloud_control_plane.Lifecycle.{NodeInstance, OrderState, ServiceOrder, World, advance_order}
use neo_cloud_control_plane.Orders.{Floats, on_store, on_order, attempt}
use neo_cloud_control_plane.Orders.Saga.{compensate}
use neo_cloud_control_plane.Orders.Stages.{order_at, tenant_at, ctx_nodes, ids}
use neo_cloud_control_plane.Orders.Stages.Building.{or_compensate}
use neo_cloud_control_plane.Orders.Stages.Handing.{Draws, stage_delivered}
use neo_cloud_control_plane.Orders.Pipeline.{Stage}
use neo_cloud_control_plane.Orders.Kubernetes.{on_http_error}
use neo_cloud_control_plane.Orders.Kubernetes.Installing.{
  first_of_list, pending_row, count_gpus, st_cp_reserve, st_os_provision, st_net_attach,
  st_nkd_bootstrap, st_addons, st_acceptance, st_telemetry, st_active,
}

-- the change of the cluster that an installation names, if it names one
abbrev pub on_named :
    (K8sCluster → K8sCluster) → Option K8sInstall → Dict K8sCluster → Dict K8sCluster
on_named f none cs = cs
on_named f (some i) cs = elim i.cluster_id [ none ↦ cs | some cid ↦ update cid f cs ]

abbrev pub install_failed : K8sInstall → K8sInstall
install_failed i = record i { state = InstallState.failed }

abbrev pub cluster_failed : K8sCluster → K8sCluster
cluster_failed c = record c {
  state = ClusterState.failed;
  history = c.history ++ ClusterState.failed ∷ [];
}

module _ {N : Type 0} where
  -- a change of an installation and of its cluster
  abbrev pub both :
      String → (K8sInstall → K8sInstall) → (K8sCluster → K8sCluster) → Exec (World N) (Unit {0})
  both iid f g = modify (λ w. record w {
    k8s_clusters = on_named g (get iid w.k8s_installs) w.k8s_clusters;
    k8s_installs = update iid f w.k8s_installs;
  })

  -- _k8s_mark
  abbrev pub mark : String → String → StageStatus → Exec (World N) (Unit {0})
  mark iid name status = both iid (mark_install name status) (mark_cluster name status)

  -- a stage, with its marks; an error is marked and raised again
  unfoldable pub run_stage : String → String → Exec (World N) (Unit {0}) → Exec (World N) (Unit {0})
  unfolding get update
  run_stage iid name stage = do
    mark iid name StageStatus.running
    on_http_error stage
        (λ c. do mark iid name StageStatus.failed; both iid install_failed cluster_failed; raise c)
    mark iid name StageStatus.done

  -- K8S_INSTALL_STAGES with _K8S_STAGE_FNS
  abbrev pub install_stages :
      String → String → List NodeInstance → ℕ → List (String × Exec (World N) (Unit {0}))
  install_stages oid iid nodes gpus =
      ("cp-reserve", st_cp_reserve oid iid nodes gpus)
      ∷ ("os-provision", st_os_provision oid iid)
      ∷ ("net-attach", st_net_attach oid iid)
      ∷ ("nkd-bootstrap", st_nkd_bootstrap oid iid nodes)
      ∷ ("addons", st_addons iid)
      ∷ ("acceptance", st_acceptance oid iid nodes)
      ∷ ("telemetry", st_telemetry iid)
      ∷ ("active", st_active oid iid)
      ∷ []

  unfoldable pub run_all :
      String → List (String × Exec (World N) (Unit {0})) → Exec (World N) (Unit {0})
  unfolding run_stage
  run_all iid [] = pure tt
  run_all iid ((name, stage) ∷ stages) = do run_stage iid name stage; run_all iid stages

  -- _run_k8s_install
  unfoldable pub run_k8s_install : String → String → Exec (World N) (Unit {0})
  unfolding run_all st_cp_reserve st_os_provision st_net_attach st_nkd_bootstrap st_addons
      st_acceptance st_telemetry st_active
  run_k8s_install oid iid = do
    order ← order_at oid
    tenant ← tenant_at order.tenant_id
    nodes ← gets (ctx_nodes order)
    gpus ←
        gets (λ w. count_gpus (get_all w.store.trays (map (λ (n : NodeInstance). n.tray_id) nodes)))
    run_all iid (install_stages oid iid nodes gpus)

  abbrev pub new_install : String → ServiceOrder N → K8sInstall
  new_install iid order = record {
    install_id = iid;
    cluster_id = none;
    tenant_id = order.tenant_id;
    allocation_id = first_of_list order.allocation_ids;
    order_id = some order.id;
    k8s_version = order.k8s_version;
    state = InstallState.running;
    stage = "cp-reserve";
    stages = map pending_row k8s_install_stages;
  }

  -- _begin_k8s_install
  unfoldable pub begin_k8s_install : String → Exec (World N) String
  unfolding advance_order next_seq decimal put
  begin_k8s_install oid = do
    on_order oid (advance_order OrderState.k8s_installing "Managed K8s")
    n ← on_store (λ s. let (n, s') = next_seq "k8s_install" s in pure n s')
    let iid = "k8i-" +++ decimal n
    order ← order_at oid
    modify (λ w. record w { k8s_installs = put iid (new_install iid order) w.k8s_installs })
    pure iid

  -- _install_k8s
  abbrev pub install_k8s : String → Exec (World N) (Unit {0})
  install_k8s oid = begin_k8s_install oid >>= run_k8s_install oid

  -- the stage in the foreground
  unfoldable pub stage_k8s_sync : String → Exec (World N) (Unit {0})
  unfolding begin_k8s_install run_k8s_install compensate
  stage_k8s_sync oid = do
    done ← attempt (install_k8s oid)
    order ← order_at oid
    nodes ← gets (ctx_nodes order)
    or_compensate oid (ids nodes) "k8s install failed" done

  -- _stage_k8s_install; in the background the order goes on with `finish_k8s_install`
  unfoldable pub stage_k8s_install : Bool → Stage N
  unfolding stage_k8s_sync begin_k8s_install
  stage_k8s_install paced oid = do
    order ← order_at oid
    if paced && not order.approval_mode
        then (begin_k8s_install oid >>= λ iid. pure true)
        else (stage_k8s_sync oid >>= λ u. pure false)

  abbrev pub give_up : String → Exec (World N) (Unit {0})
  give_up oid = do
    order ← order_at oid
    nodes ← gets (ctx_nodes order)
    compensate oid (ids nodes) "k8s install failed"

  -- `_bg` of _stage_k8s_install
  unfoldable pub finish_k8s_install : Draws → String → String → Exec (World N) (Unit {0})
  unfolding run_k8s_install stage_delivered compensate
  finish_k8s_install d oid iid =
      on_http_error (run_k8s_install oid iid >> stage_delivered d oid) (λ c. give_up oid)

module _ {N : Type 0} (f : Floats N) (environ : String → Option String)
    (float_of : String → Option N) where
  abbrev pub delay_given : Option N → N
  delay_given none = f.of_nat 0
  delay_given (some d) = if f.is_positive d then d else f.of_nat 0

  abbrev pub delay_set : Option String → N
  delay_set (some raw) = delay_given (float_of raw)
  delay_set none =
      if or_else (environ "NOCP_NICO_URL") "" == ""
      then f.of_nat 0
      else f.div (f.of_nat 5) (f.of_nat 2)

  -- _k8s_stage_delay
  abbrev pub k8s_stage_delay : N
  k8s_stage_delay = delay_set (environ "NOCP_K8S_STAGE_DELAY")
