-- ===== src/K8s.antt =====
-- app/models.py: the Kubernetes clusters and the records of their installations (K8sCluster,
-- K8sInstall). The times, and the texts of events and checks, are not kept.
use neo_cloud_control_plane.Prelude.{
  ℕ, ◌+◌, ◌*◌, ◌/◌, ◌%◌, String, Bool, true, false, Option, List, [], ◌∷◌, ◌==◌, eqb, if◌then◌else◌,
}
use neo_cloud_control_plane.Dict.{Dict}

pub data ClusterState : Type 0 where
  installing running deleting deleted failed : ClusterState

pub data InstallState : Type 0 where
  running succeeded failed : InstallState

pub data StageStatus : Type 0 where
  pending running done failed : StageStatus

pub record StageRow : Type 0 where
  pub name : String
  pub status : StageStatus

pub record Addon : Type 0 where
  pub name : String
  pub version : String

pub record K8sCluster : Type 0 where
  pub id : String
  pub tenant_id : String
  pub order_id : String
  pub allocation_id : Option String
  pub name : String
  pub version : String
  pub nkd_version : String
  pub state : ClusterState
  pub api_vip : String
  pub oidc_issuer : String
  pub cp_node_ids : List String
  pub worker_node_ids : List String
  pub gpus_total : ℕ
  pub addons : List Addon
  pub dcgm_mode : String
  pub conditions : List String
  pub stage : String
  pub stage_history : List StageRow
  pub progress_pct : ℕ
  -- name and value of each check
  pub acceptance : Option (List (String × String))
  pub node_versions : Dict String
  pub history : List ClusterState

pub record K8sInstall : Type 0 where
  pub install_id : String
  pub cluster_id : Option String
  pub tenant_id : String
  pub allocation_id : Option String
  pub order_id : Option String
  pub k8s_version : String
  pub state : InstallState
  pub stage : String
  pub stages : List StageRow

-- K8S_INSTALL_STAGES
abbrev pub k8s_install_stages : List String
k8s_install_stages =
    "cp-reserve" ∷ "os-provision" ∷ "net-attach" ∷ "nkd-bootstrap" ∷ "addons" ∷ "acceptance"
    ∷ "telemetry" ∷ "active" ∷ []

abbrev pub is_done : StageStatus → Bool
is_done StageStatus.done = true
is_done _ = false

-- `status in ("running", "failed")`
abbrev pub is_current : StageStatus → Bool
is_current StageStatus.running = true
is_current StageStatus.failed = true
is_current _ = false

abbrev pub count_done : List StageRow → ℕ
count_done [] = 0
count_done (r ∷ rs) = (if is_done r.status then 1 else 0) + count_done rs

-- `round(done / 8 * 100)`: 25·done halves, a half going to the even side
abbrev pub eighths : ℕ → ℕ
eighths d = let m = 25 * d / 2 in if eqb (d % 2) 0 then m else m + m % 2

-- the rows of an installation
abbrev pub mark_rows : String → StageStatus → List StageRow → List StageRow
mark_rows name status [] = []
mark_rows name status (r ∷ rs) =
    (if r.name == name then record r { status = status } else r) ∷ mark_rows name status rs

-- the rows of a cluster: the first of that name, or a new one
abbrev pub mark_history : String → StageStatus → List StageRow → List StageRow
mark_history name status [] = record { name = name; status = status } ∷ []
mark_history name status (r ∷ rs) =
    let rest = mark_history name status rs in
    if r.name == name then record r { status = status } ∷ rs else r ∷ rest

-- _k8s_mark
abbrev pub mark_install : String → StageStatus → K8sInstall → K8sInstall
mark_install name status i = record i {
  stages = mark_rows name status i.stages;
  stage = if is_current status then name else i.stage;
}

abbrev pub mark_cluster : String → StageStatus → K8sCluster → K8sCluster
mark_cluster name status c =
    let rows = mark_history name status c.stage_history in
    record c {
      stage_history = rows;
      stage = if is_current status then name else c.stage;
      progress_pct = eighths (count_done rows);
    }
