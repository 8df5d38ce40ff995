-- ===== src/Tests/Orders.antt =====
-- Runs of the state machines of app/lifecycle.py.
use neo_cloud_control_plane.Prelude.{ℕ, false, none, ◌≡◌, refl, true, some, List, [], ◌∷◌, ◌⊎◌, any}
use neo_cloud_control_plane.Lifecycle.{
  new, is_node, is_order, NodeState, OrderState, LifecycleEvent, NodeInstance, ServiceOrder,
  in_service, draining, releasing, sanitizing, received, storage_binding, acceptance, delivered,
  pool_ready,
}
use neo_cloud_control_plane.Lifecycle.Machines.{serves, gates_passed}

abbrev node : NodeInstance
node = record {
  id = "ni-1";
  tray_id = "t1";
  rack_id = "r1";
  su_id = "su-1";
  blueprint_key = "gb300-nvl72";
  nico_host_id = "nh-1";
  nico_instance_id = some "inst-1";
  tenant_id = some "tnt-acme";
  order_id = some "ord-1";
  state = in_service;
  history = [];
}

abbrev order : ServiceOrder ℕ
order = record {
  id = "ord-1";
  tenant_id = "tnt-acme";
  kind = new;
  blueprint_key = some "gb300-nvl72";
  racks = 1;
  allocation_id = none;
  allocation_ids = [];
  approval_mode = false;
  pending_stage = none;
  storage_manual = false;
  storage_tb = 0;
  storage_gbps = 0;
  managed_k8s = false;
  k8s_version = "";
  k8s_cluster_id = none;
  segment_id = none;
  storage_ids = [];
  node_ids = [];
  state = received;
  access_package = none;
  error = none;
  history = [];
}

abbrev event : {A : Type 0} → A → LifecycleEvent A
event s = record { state = s; detail = "" }

abbrev reclaimed : List (LifecycleEvent NodeState)
reclaimed = event draining ∷ event releasing ∷ event sanitizing ∷ event pool_ready ∷ []

abbrev accepted : List (LifecycleEvent OrderState)
accepted = event acceptance ∷ event delivered ∷ []

gates_passed_example :
    ((serves pool_ready ≡ true)
      ⊎ (any (λ (e : LifecycleEvent NodeState). is_node sanitizing e.state) reclaimed ≡ true))
    × (any (λ (e : LifecycleEvent OrderState). is_order acceptance e.state) accepted ≡ true)
gates_passed_example =
    gates_passed in_service pool_ready reclaimed storage_binding accepted refl
      (refl, (refl, (refl, (refl, refl)))) refl (refl, (refl, refl))

abbrev placed : ServiceOrder ℕ
placed = record order { history = event received ∷ [] }

abbrev in_rack : NodeInstance
in_rack = record node { history = event in_service ∷ [] }
