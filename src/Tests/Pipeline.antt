-- ===== src/Tests/Pipeline.antt =====
-- Runs of the pipeline of a new order in app/lifecycle.py: an order that waits for its first approval,
-- over the site of Tests/Placement, with natural numbers for Python's floating-point numbers.
use neo_cloud_control_plane.Prelude.{
  ℕ, ◌*◌, ◌/◌, ◌≡◌, refl, true, false, not, none, some, length, [], ◌∷◌, eqb,
}
use neo_cloud_control_plane.Dict.{get, put}
use neo_cloud_control_plane.Lifecycle.{
  NodeState, NodeInstance, OrderState, OrderKind, ServiceOrder, World,
}
use neo_cloud_control_plane.Orders.{Floats}
use neo_cloud_control_plane.Orders.Stages.Handing.{Draws}
use neo_cloud_control_plane.Orders.Pipeline.{OrderCreate, order_of, run_stages, stages_for}
use neo_cloud_control_plane.Orders.Approval.{AreStages, approve_all}
use neo_cloud_control_plane.Orders.Managed.{in_place, stages-AreStages, approvals-run_stages}
use neo_cloud_control_plane.Orders.Reclaim.{reclaim_node}
use neo_cloud_control_plane.Orders.Truth.{Told, reclaim_node-Told}
use neo_cloud_control_plane.Tests.Placement.{world, node_of}
use neo_cloud_control_plane.Tests.Hosts.{rented, nico_with}

abbrev pub numbers : Floats ℕ
numbers = record {
  of_nat = λ n. n;
  is_positive = λ n. not (eqb n 0);
  is_zero = λ n. eqb n 0;
  mul = λ m n. m * n;
  div = λ m n. m / n;
  round1 = λ n. n;
}

abbrev pub draws : Draws
draws = record {
  mask = λ s. "****";
  short = λ s. "s3-";
  account = "a0";
  token = "b1";
  storage = "c2";
  redfish = "d3";
  final = "e4";
}

abbrev wanted : OrderCreate ℕ
wanted = record {
  tenant_id = "tnt-acme";
  kind = OrderKind.new;
  blueprint_key = some "gb300-nvl72";
  racks = 1;
  allocation_id = none;
  approval_mode = true;
  storage_manual = false;
  storage_tb = 0;
  storage_gbps = 0;
  managed_k8s = false;
  k8s_version = "";
}

abbrev pub waiting : ServiceOrder ℕ
waiting = record (order_of "ord-1" wanted) { pending_stage = some OrderState.validated }

abbrev pub ordered : World ℕ
ordered = record world { orders = ("ord-1", waiting) ∷ [] }

-- a node in service whose host is rented
abbrev served : NodeInstance
served = record (node_of "ni-t1" "t1" "r1") {
  nico_host_id = "host-01";
  nico_instance_id = rented.instance_id;
  tenant_id = some "tnt-acme";
  state = NodeState.in_service;
}

abbrev serving : World ℕ
serving = record world { nodes = ("ni-t1", served) ∷ []; nico = nico_with rented }

reclaim_node-Told_example :
    Told "ord-2" "ni-t1" (some "tnt-acme") (reclaim_node "ord-2" "ni-t1" serving)
reclaim_node-Told_example =
    reclaim_node-Told "ord-2" "ni-t1" (some "tnt-acme") serving served (unfold get in refl) refl
      refl

-- an order that wants Kubernetes too
abbrev managed : ServiceOrder ℕ
managed = record waiting { managed_k8s = true; k8s_version = "v1.32.4" }

abbrev ordered_managed : World ℕ
ordered_managed = record world { orders = ("ord-1", managed) ∷ [] }

stages-AreStages_example : AreStages "ord-1" (stages_for numbers draws in_place managed)
stages-AreStages_example = stages-AreStages numbers draws "ord-1" managed

approvals-run_stages_example :
    approve_all numbers draws in_place
      (length (stages_for numbers draws in_place managed))
      "ord-1"
      ordered_managed
    ≡ run_stages (stages_for numbers draws in_place managed) "ord-1" (record ordered_managed {
      orders = put "ord-1" (record managed { pending_stage = none }) ordered_managed.orders;
    })
approvals-run_stages_example =
    approvals-run_stages numbers draws "ord-1" ordered_managed managed (unfold get in refl) refl
      refl
