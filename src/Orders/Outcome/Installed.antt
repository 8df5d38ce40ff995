-- ===== src/Orders/Outcome/Installed.antt =====
-- app/lifecycle.py: the outcome of _stage_k8s_install.
use neo_cloud_control_plane.Prelude.{
  ℕ, String, ◌≡◌, refl, Bool, false, Option, none, some, List, [], ◌∷◌, eqb, Bool-cases, inl, inr,
}
use neo_cloud_control_plane.Prelude.Exec.{Exec, Result, ok, err, continue, or_raise, ◌>>=◌}
use neo_cloud_control_plane.Dict.{get}
use neo_cloud_control_plane.K8s.{StageStatus, K8sCluster, K8sInstall, mark_install, mark_cluster}
use neo_cloud_control_plane.Lifecycle.{NodeInstance, CpuNode, OrderState, ServiceOrder, World}
use neo_cloud_control_plane.Orders.{caught, attempt}
use neo_cloud_control_plane.Orders.Holds.{Holds, Holds-bind, Holds-raise}
use neo_cloud_control_plane.Orders.Kept.{Terms, Has, Keeps, keeps_rules, Keeps-set, Keeps-modify}
use neo_cloud_control_plane.Orders.Ends.{Ends, Ends-Keeps, Ends-keep, Ends-bind, Anything}
use neo_cloud_control_plane.Orders.Undone.{return_cpu-Keeps, set_cpu-Keeps}
use neo_cloud_control_plane.Orders.Outcome.{Outcome, outcome_rules, ends_rules, compensate-Outcome}
use neo_cloud_control_plane.Orders.Outcome.Built.{or_compensate-Outcome}
use neo_cloud_control_plane.Orders.Stages.{order_at}
use neo_cloud_control_plane.Orders.Pipeline.{in_foreground}
use neo_cloud_control_plane.Orders.Approval.{IsStage, in_foreground-IsStage}
use neo_cloud_control_plane.Orders.Kubernetes.{
  handled, on_http_error, set_cluster, set_install, free_host, rollback_cp, rollback_k8s_cp,
  or_roll_back,
}
use neo_cloud_control_plane.Orders.Kubernetes.Installing.{
  reserve_cp, reserve_plane, st_cp_reserve, provision_cp, st_os_provision, join_segment,
  st_net_attach, st_nkd_bootstrap, st_addons, st_acceptance, st_telemetry, st_active,
}
use neo_cloud_control_plane.Orders.Kubernetes.Running.{
  both, mark, install_failed, cluster_failed, run_stage, run_all, install_stages, run_k8s_install,
  begin_k8s_install, install_k8s, stage_k8s_sync, stage_k8s_install,
}

-- an error that is handled
pub Holds-on_http_error :
    {S A : Type 0} {P : S → Type 0} (m : Exec S A) (handler : ℕ → Exec S A)
    → Holds P m
    → ((c : ℕ) → Holds P (handler c))
    → Holds P (on_http_error m handler)
Holds-on_http_error {S = S} {A = A} {P = P} m handler k h = record {
  at = λ s p. said (m s) (k.at s p);
}
  where
    said : (r : Result A × S) → P r.1 → P (handled handler r).1
    said (ok a, s) p = p
    said (err c, s) p = elim (Bool-cases (eqb c 500)) [
      | inl y ↦ rw y p
      | inr n ↦ rw n ((h c).at s p)
    ]

-- the stages of a list keep something
abbrev AllHold :
    {N : Type 0} → (World N → Type 0) → List (String × Exec (World N) (Unit {0})) → Type 0
AllHold P [] = Unit
AllHold P ((name, stage) ∷ stages) = Holds P stage × AllHold P stages

module _ {N : Type 0} {oid : String} {t : Terms} {Q : OrderState → Type 0} where
  set_cluster-Keeps :
      (cid : String) (f : K8sCluster → K8sCluster) → Keeps {N = N} oid t Q (set_cluster cid f)
  set_cluster-Keeps cid f = Keeps-modify _ (λ w. refl)

  set_install-Keeps :
      (iid : String) (f : K8sInstall → K8sInstall) → Keeps {N = N} oid t Q (set_install iid f)
  set_install-Keeps iid f = Keeps-modify _ (λ w. refl)

  both-Keeps :
      (iid : String) (f : K8sInstall → K8sInstall) (g : K8sCluster → K8sCluster)
      → Keeps {N = N} oid t Q (both iid f g)
  both-Keeps iid f g = Keeps-modify _ (λ w. refl)

  free_host-Keeps :
      (i : Option String) (host_id : String) → Keeps {N = N} oid t Q (free_host i host_id)
  free_host-Keeps none host_id = search keeps_rules
  free_host-Keeps (some i) host_id = search keeps_rules

  rollback_cp-Keeps : (c : CpuNode) → Keeps {N = N} oid t Q (rollback_cp c)
  rollback_cp-Keeps c = search (keeps_rules, free_host-Keeps, return_cpu-Keeps) depth 12

  pub rollback_k8s_cp-Keeps : (o : String) → Keeps {N = N} oid t Q (rollback_k8s_cp o)
  unfolding rollback_k8s_cp
  rollback_k8s_cp-Keeps o = search (keeps_rules, rollback_cp-Keeps)

  or_roll_back-Keeps :
      (o : String) (m : Exec (World N) (Unit {0}))
      → Keeps oid t Q m
      → Keeps oid t Q (or_roll_back o m)
  or_roll_back-Keeps o m k =
      Holds-on_http_error m _ k
        (λ c. Holds-bind (rollback_k8s_cp o) _ (rollback_k8s_cp-Keeps o) (λ u. Holds-raise 502))

  reserve_cp-Keeps : (o : String) (c : CpuNode) → Keeps {N = N} oid t Q (reserve_cp o c)
  reserve_cp-Keeps o c = search (keeps_rules, set_cpu-Keeps)

  reserve_plane-Keeps :
      (iid : String) (nodes : List NodeInstance) (gpus : ℕ) (cps : List CpuNode)
      → Keeps {N = N} oid t Q (reserve_plane oid iid nodes gpus cps)
  reserve_plane-Keeps iid nodes gpus cps =
      search
        (
          keeps_rules, Keeps-set, Keeps-modify, set_install-Keeps, or_roll_back-Keeps,
          reserve_cp-Keeps,
        )
        depth 14

  st_cp_reserve-Keeps :
      (iid : String) (nodes : List NodeInstance) (gpus : ℕ)
      → Keeps {N = N} oid t Q (st_cp_reserve oid iid nodes gpus)
  unfolding st_cp_reserve
  st_cp_reserve-Keeps iid nodes gpus =
      search (keeps_rules, rollback_k8s_cp-Keeps, reserve_plane-Keeps)

  provision_cp-Keeps :
      (tenant : String) (s : Option String) (c : CpuNode)
      → Keeps {N = N} oid t Q (provision_cp tenant s c)
  provision_cp-Keeps tenant s c = search (keeps_rules, set_cpu-Keeps) depth 14

  st_os_provision-Keeps : (iid : String) → Keeps {N = N} oid t Q (st_os_provision oid iid)
  unfolding st_os_provision
  st_os_provision-Keeps iid = search (keeps_rules, or_roll_back-Keeps, provision_cp-Keeps) depth 14

  join_segment-Keeps : (s : String) (c : CpuNode) → Keeps {N = N} oid t Q (join_segment s c)
  join_segment-Keeps s c = Keeps-modify _ (λ w. refl)

  st_net_attach-Keeps : (iid : String) → Keeps {N = N} oid t Q (st_net_attach oid iid)
  unfolding st_net_attach
  st_net_attach-Keeps iid = search (keeps_rules, or_roll_back-Keeps, join_segment-Keeps) depth 14

  st_nkd_bootstrap-Keeps :
      (iid : String) (nodes : List NodeInstance)
      → Keeps {N = N} oid t Q (st_nkd_bootstrap oid iid nodes)
  unfolding st_nkd_bootstrap
  st_nkd_bootstrap-Keeps iid nodes = search (keeps_rules, set_cluster-Keeps) depth 14

  st_addons-Keeps : (iid : String) → Keeps {N = N} oid t Q (st_addons iid)
  unfolding st_addons
  st_addons-Keeps iid = search (keeps_rules, set_cluster-Keeps) depth 14

  st_acceptance-Keeps :
      (iid : String) (nodes : List NodeInstance)
      → Keeps {N = N} oid t Q (st_acceptance oid iid nodes)
  unfolding st_acceptance
  st_acceptance-Keeps iid nodes = search (keeps_rules, set_cluster-Keeps) depth 14

  st_telemetry-Keeps : (iid : String) → Keeps {N = N} oid t Q (st_telemetry iid)
  unfolding st_telemetry
  st_telemetry-Keeps iid = search (keeps_rules, set_cluster-Keeps) depth 14

  st_active-Keeps : (iid : String) → Keeps {N = N} oid t Q (st_active oid iid)
  unfolding st_active
  st_active-Keeps iid =
      search (keeps_rules, Keeps-set, set_cluster-Keeps, set_install-Keeps) depth 16

  mark-Keeps :
      (iid name : String) (status : StageStatus) → Keeps {N = N} oid t Q (mark iid name status)
  mark-Keeps iid name status = both-Keeps iid (mark_install name status) (mark_cluster name status)

  run_stage-Keeps :
      (iid name : String) (stage : Exec (World N) (Unit {0}))
      → Keeps oid t Q stage
      → Keeps oid t Q (run_stage iid name stage)
  unfolding run_stage
  run_stage-Keeps iid name stage k =
      Holds-bind (mark iid name StageStatus.running) _ (mark-Keeps iid name StageStatus.running)
        (λ u.
          Holds-bind (on_http_error stage _) _
            (Holds-on_http_error stage _ k (λ c.
              Holds-bind (mark iid name StageStatus.failed) _
                (mark-Keeps iid name StageStatus.failed)
                (λ v.
                  Holds-bind (both iid install_failed cluster_failed) _
                    (both-Keeps iid install_failed cluster_failed) (λ x. Holds-raise c))))
            (λ v. mark-Keeps iid name StageStatus.done))

  run_all-Keeps :
      (iid : String) (stages : List (String × Exec (World N) (Unit {0})))
      → AllHold (Has oid t Q) stages
      → Keeps oid t Q (run_all iid stages)
  unfolding run_all
  run_all-Keeps iid [] a = search keeps_rules
  run_all-Keeps iid ((name, stage) ∷ stages) (k, a) =
      Holds-bind _ _ (run_stage-Keeps iid name stage k) (λ u. run_all-Keeps iid stages a)

  install_stages-Keeps :
      (iid : String) (nodes : List NodeInstance) (gpus : ℕ)
      → Keeps oid t Q (run_all iid (install_stages {N = N} oid iid nodes gpus))
  install_stages-Keeps iid nodes gpus = run_all-Keeps iid (install_stages oid iid nodes gpus) (
    st_cp_reserve-Keeps iid nodes gpus,
    (
      st_os_provision-Keeps iid,
      (
        st_net_attach-Keeps iid,
        (
          st_nkd_bootstrap-Keeps iid nodes,
          (
            st_addons-Keeps iid,
            (st_acceptance-Keeps iid nodes, (st_telemetry-Keeps iid, (st_active-Keeps iid, tt))),
          ),
        ),
      ),
    ),
  )

  pub run_k8s_install-Keeps : (iid : String) → Keeps {N = N} oid t Q (run_k8s_install oid iid)
  unfolding run_k8s_install
  run_k8s_install-Keeps iid = search (keeps_rules, install_stages-Keeps) depth 14

module _ {N : Type 0} {oid : String} {t : Terms} where
  -- `try: m … except HTTPException`, and what follows it
  module _ {A B : Type 0} {Q R : OrderState → Type 0} (k : Option A → Exec (World N) B)
      (es : (a : A) → Ends oid t Q R (k (some a))) (en : Ends oid t Anything R (k none)) where
    try-kept :
        (r : Result A) (w : World N)
        → Has oid t Anything w
        → ((a : A) → r ≡ ok a → Has oid t Q w)
        → Has oid t Anything (continue (caught r w).0 k (caught r w).1).1
    try-kept (ok a) w h q = (es a).kept w (q a refl)
    try-kept (err c) w h q = elim (Bool-cases (eqb c 500)) [
      | inl y ↦ rw y h
      | inr n ↦ rw n (en.kept w h)
    ]

    try-ended :
        (r : Result A) (w : World N) (b : B)
        → Has oid t Anything w
        → ((a : A) → r ≡ ok a → Has oid t Q w)
        → (continue (caught r w).0 k (caught r w).1).0 ≡ ok b
        → Has oid t R (continue (caught r w).0 k (caught r w).1).1
    try-ended (ok a) w b h q e = (es a).ended w b (q a refl) e
    try-ended (err c) w b h q e = elim (Bool-cases (eqb c 500)) [
      | inl y ↦ absurd (clash (rw y at e))
      | inr n ↦ rw n (en.ended w b h (rw n at e))
    ]
      where
        clash : {x : B} → err 500 ≡ ok x → ⊥
        clash e = cc

    Ends-try :
        {P : OrderState → Type 0} (m : Exec (World N) A)
        → Ends oid t P Q m
        → Ends oid t P R (attempt m >>= k)
    Ends-try m em = record {
      kept = λ w h. try-kept (m w).0 (m w).1 (em.kept w h) (λ a q. em.ended w a h q);
      ended = λ w b h. try-ended (m w).0 (m w).1 b (em.kept w h) (λ a q. em.ended w a h q);
    }

  begin_k8s_install-Ends :
      {P : OrderState → Type 0}
      → Ends {N = N} oid t P (λ s. s ≡ OrderState.k8s_installing) (begin_k8s_install oid)
  unfolding begin_k8s_install
  begin_k8s_install-Ends = search (ends_rules, Keeps-modify) depth 14

  install_k8s-Ends :
      {P : OrderState → Type 0}
      → Ends {N = N} oid t P (λ s. s ≡ OrderState.k8s_installing) (install_k8s oid)
  install_k8s-Ends =
      Ends-bind (begin_k8s_install oid) _ begin_k8s_install-Ends
        (λ iid. Ends-Keeps _ (run_k8s_install-Keeps iid))

  stage_k8s_sync-Outcome :
      {P : OrderState → Type 0}
      → Ends {N = N} oid t P (Outcome OrderState.k8s_installing) (stage_k8s_sync oid)
  unfolding stage_k8s_sync
  stage_k8s_sync-Outcome =
      Ends-try _ (λ a. search (outcome_rules, or_compensate-Outcome) depth 12)
        (search (outcome_rules, compensate-Outcome) depth 12) (install_k8s oid) install_k8s-Ends

module _ {N : Type 0} where
  -- The installation of Kubernetes in the foreground is a stage like the others: it leaves the order
  -- stored with its terms, also where it raises, and where it returns, the order is installing
  -- Kubernetes or given up, and does not go on in the background.
  pub stage_k8s_install-IsStage :
      (oid : String) → IsStage {N = N} oid OrderState.k8s_installing (stage_k8s_install false)
  unfolding stage_k8s_install
  stage_k8s_install-IsStage oid = record {
    outcome = λ t. Ends-keep (order_at oid) _ (search keeps_rules) (λ o. (synced t).outcome t);
    quiet = λ w b g. by_order w b g;
  }
    where
      synced : Terms → IsStage {N = N} oid OrderState.k8s_installing (in_foreground stage_k8s_sync)
      synced t =
          in_foreground-IsStage oid OrderState.k8s_installing stage_k8s_sync
            (λ t. stage_k8s_sync-Outcome)

      said :
          (o : Option (ServiceOrder N)) (w : World N) (b : Bool)
          → ((or_raise o 500 >>= λ x. in_foreground stage_k8s_sync oid) w).0 ≡ ok b
          → b ≡ false
      said none w b g = cc
      said (some o) w b g =
          (synced (record {
            approval_mode = false;
            pending_stage = none;
            managed_k8s = false;
            k8s_version = "";
          })).quiet
            w b g

      by_order : (w : World N) (b : Bool) → (stage_k8s_install false oid w).0 ≡ ok b → b ≡ false
      by_order w b g = said (get oid w.orders) w b g
