-- ===== src/Tests/Placement.antt =====
-- Runs of the placement and of reconcile in app/lifecycle.py: a site with two racks of one SU, one
-- node each.
use neo_cloud_control_plane.Prelude.{
  ℕ, String, ◌≡◌, refl, true, none, some, [], ◌∷◌, arith, ◌⊎◌, is_some, length, All,
}
use neo_cloud_control_plane.Prelude.Sorting.{sort_by, insert_sorted}
use neo_cloud_control_plane.Dict.{Dict, get, put, values}
use neo_cloud_control_plane.Tenancy
use neo_cloud_control_plane.Tenancy.{
  Store, Rack, ScalableUnit, DeploymentUnit, ComputeBlock, AiFactory, ready, racks_of_su,
  factory_of_su,
}
use neo_cloud_control_plane.Lifecycle.{NodeState, NodeInstance, World}
use neo_cloud_control_plane.Lifecycle.Placement.{
  select_racks, rack_sellable, su_allowed_for, nodes_of_rack, fill, spill,
}
use neo_cloud_control_plane.Lifecycle.Selection.{IsOffered, select_racks-IsOffered}
use neo_cloud_control_plane.Lifecycle.Capacity.{select_racks-total}
use neo_cloud_control_plane.Lifecycle.Reconcile.{reconcile, start}
use neo_cloud_control_plane.Lifecycle.Mirror.{Kept, reconcile-Kept}
use neo_cloud_control_plane.Lifecycle.Mirrored.{IsMirrored, IsTaken, reconcile-IsMirrored}
use neo_cloud_control_plane.Tests.Hosts.{host}

abbrev rack_at : String → String → Rack
rack_at id tray = record {
  id = id;
  su_id = "su-1";
  blueprint_key = "gb300-nvl72";
  hac_id = "hac-1";
  tray_ids = tray ∷ [];
  state = ready;
  tenant_id = none;
}

abbrev pub site : Store
site = record Tenancy.empty {
  factories = ("f1", record { id = "f1"; name = "Ansan"; block_ids = "b1" ∷ [] }) ∷ [];
  blocks = ("b1", record { id = "b1"; du_ids = "du-1" ∷ [] }) ∷ [];
  dus = ("du-1", record { id = "du-1"; su_ids = "su-1" ∷ [] }) ∷ [];
  sus =
      (
        "su-1",
        record {
          id = "su-1";
          blueprint_key = "gb300-nvl72";
          hac_id = "hac-1";
          rack_ids = "r1" ∷ "r2" ∷ [];
        },
      )
      ∷ [];
  racks = ("r1", rack_at "r1" "t1") ∷ ("r2", rack_at "r2" "t2") ∷ [];
}

abbrev pub node_of : String → String → String → NodeInstance
node_of id tray rack = record {
  id = id;
  tray_id = tray;
  rack_id = rack;
  su_id = "su-1";
  blueprint_key = "gb300-nvl72";
  nico_host_id = id;
  nico_instance_id = none;
  tenant_id = none;
  order_id = none;
  state = NodeState.pool_ready;
  history = [];
}

abbrev pub nodes : Dict NodeInstance
nodes = ("ni-t1", node_of "ni-t1" "t1" "r1") ∷ ("ni-t2", node_of "ni-t2" "t2" "r2") ∷ []

select_racks-IsOffered_example :
    (length (rack_at "r1" "t1" ∷ rack_at "r2" "t2" ∷ []) ≡ 2)
    × (at : String) × All
        (IsOffered site nodes "gb300-nvl72" none at)
        (rack_at "r1" "t1" ∷ rack_at "r2" "t2" ∷ [])
select_racks-IsOffered_example =
    select_racks-IsOffered site nodes "gb300-nvl72" 2 none
      (rack_at "r1" "t1" ∷ rack_at "r2" "t2" ∷ [])
      (unfold select_racks rack_sellable su_allowed_for nodes_of_rack racks_of_su factory_of_su
          spill fill get put sort_by insert_sorted in
        refl)

select_racks-total_example : is_some (select_racks site nodes "gb300-nvl72" 2 none) ≡ true
select_racks-total_example = select_racks-total site nodes "gb300-nvl72" 2 none "f1" (omega arith) (
    unfold rack_sellable su_allowed_for nodes_of_rack racks_of_su factory_of_su get in
    (omega arith))

-- one node whose host has gone, and one host without a node
abbrev pub world : World ℕ
world = record {
  store = site;
  nodes = nodes;
  orders = [];
  cpu_nodes = [];
  k8s_clusters = [];
  k8s_installs = [];
  storage_allocs = [];
  nico = record {
    hosts = ("host-01", host) ∷ [];
    jobs = [];
    segments = [];
    sanitize_reports = [];
    job_latency = 0;
    fail_flags = [];
    seq = 0;
  };
  vast = record { views = []; seq = 0 };
}

reconcile-Kept_example :
    (n : NodeInstance) × (get "ni-t1" (reconcile world).1.nodes ≡ some n)
    × Kept (node_of "ni-t1" "t1" "r1") n
reconcile-Kept_example =
    reconcile-Kept world "ni-t1" (node_of "ni-t1" "t1" "r1") (unfold get in refl)

-- the host has no node yet
abbrev unmirrored : World ℕ
unmirrored = record world { nodes = [] }

reconcile-IsMirrored_example :
    IsMirrored (reconcile unmirrored).1.nodes "host-01"
    ⊎ IsTaken [] (values (start unmirrored).hosts) host
reconcile-IsMirrored_example =
    reconcile-IsMirrored unmirrored "host-01" host (unfold get put in refl)
