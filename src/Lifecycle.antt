-- ===== src/Lifecycle.antt =====
-- app/lifecycle.py: nodes, orders and their state machines. The time of an event is not kept, and of
-- the texts that describe events and errors only the fixed part.
pub mod Machines
pub mod Placement
pub mod Selection
pub mod Capacity
pub mod Reconcile
pub mod Mirror
pub mod Unclaimed
pub mod Mirrored
use neo_cloud_control_plane.Prelude.{
  ℕ, String, Bool, true, false, ◌||◌, Option, none, some, List, [], ◌∷◌, ◌++◌, eqb, if◌then◌else◌,
}
use neo_cloud_control_plane.Dict.{Dict, get, put}
use neo_cloud_control_plane.Tenancy.{Store}
use neo_cloud_control_plane.Nico.{Nico}
use neo_cloud_control_plane.Vast.{Vast}
use neo_cloud_control_plane.K8s.{K8sCluster, K8sInstall}
use neo_cloud_control_plane.Prelude.Exec.{Exec, require, modify, gets, pure, ◌>>=◌, ◌>>◌}

pub data NodeState : Type 0 where
  discovered validating quarantined pool_ready reserved provisioning allocated : NodeState
  in_service cordoned draining releasing sanitizing rma : NodeState

pub data OrderState : Type 0 where
  received validated reserved provisioning isolating storage_binding acceptance : OrderState
  k8s_installing delivered reclaiming closed rejected compensating failed : OrderState

pub record LifecycleEvent (A : Type 0) : Type 0 where
  pub state : A
  pub detail : String

pub record NodeInstance : Type 0 where
  pub id : String
  pub tray_id : String
  pub rack_id : String
  pub su_id : String
  pub blueprint_key : String
  pub nico_host_id : String
  pub nico_instance_id : Option String
  pub tenant_id : Option String
  pub order_id : Option String
  pub state : NodeState
  pub history : List (LifecycleEvent NodeState)

pub data OrderKind : Type 0 where
  new expand shrink terminate : OrderKind

-- The package a customer is handed; the texts that are the same for all are not kept.
pub record AccessPackage : Type 0 where
  pub ssh_user : String
  pub client_id : String
  pub client_secret : String
  -- the mount and the path of the credential in the vault, of each view
  pub storage : List (String × String)
  pub vrf : Option String
  pub compute_l3vni : Option ℕ
  pub ib_pkey : Option ℕ

-- `N`: Python's floating-point numbers
pub record ServiceOrder (N : Type 0) : Type 0 where
  pub id : String
  pub tenant_id : String
  pub kind : OrderKind
  pub blueprint_key : Option String
  pub racks : ℕ
  pub allocation_id : Option String
  pub allocation_ids : List String
  pub approval_mode : Bool
  pub pending_stage : Option OrderState
  pub storage_manual : Bool
  pub storage_tb : N
  pub storage_gbps : N
  pub managed_k8s : Bool
  pub k8s_version : String
  pub k8s_cluster_id : Option String
  pub segment_id : Option String
  pub storage_ids : List String
  pub node_ids : List String
  pub state : OrderState
  pub access_package : Option AccessPackage
  pub error : Option String
  pub history : List (LifecycleEvent OrderState)

pub record CpuNode : Type 0 where
  pub id : String
  pub dpu_id : String
  pub state : String
  pub role : String
  pub nico_host_id : Option String
  pub tenant_id : Option String
  pub order_id : Option String
  pub host_ip : String
  pub segment_id : Option String

pub record StorageAllocation (N : Type 0) : Type 0 where
  pub id : String
  pub tenant_id : String
  pub order_id : String
  pub allocation_id : Option String
  pub view_path : String
  pub capacity_tb : N
  pub qos_gbps : N
  -- `state == "active"`; the other state is "reclaimed"
  pub active : Bool

-- The store's tables, those of tenancy in `store`, and the two simulators behind the adapters.
pub record World (N : Type 0) : Type 0 where
  pub store : Store
  pub nodes : Dict NodeInstance
  pub orders : Dict (ServiceOrder N)
  pub cpu_nodes : Dict CpuNode
  pub k8s_clusters : Dict K8sCluster
  pub k8s_installs : Dict K8sInstall
  pub storage_allocs : Dict (StorageAllocation N)
  pub nico : Nico
  pub vast : Vast N

abbrev node_rank : NodeState → ℕ
node_rank discovered = 0
node_rank validating = 1
node_rank quarantined = 2
node_rank pool_ready = 3
node_rank reserved = 4
node_rank provisioning = 5
node_rank allocated = 6
node_rank in_service = 7
node_rank cordoned = 8
node_rank draining = 9
node_rank releasing = 10
node_rank sanitizing = 11
node_rank rma = 12

abbrev order_rank : OrderState → ℕ
order_rank received = 0
order_rank validated = 1
order_rank reserved = 2
order_rank provisioning = 3
order_rank isolating = 4
order_rank storage_binding = 5
order_rank acceptance = 6
order_rank k8s_installing = 7
order_rank delivered = 8
order_rank reclaiming = 9
order_rank closed = 10
order_rank rejected = 11
order_rank compensating = 12
order_rank failed = 13

abbrev pub is_node : NodeState → NodeState → Bool
is_node s t = eqb (node_rank s) (node_rank t)

abbrev pub is_order : OrderState → OrderState → Bool
is_order s t = eqb (order_rank s) (order_rank t)

-- NODE_TRANSITIONS
abbrev pub node_transitions : NodeState → List NodeState
node_transitions discovered = validating ∷ []
node_transitions validating = pool_ready ∷ quarantined ∷ []
node_transitions quarantined = validating ∷ rma ∷ []
node_transitions pool_ready = reserved ∷ validating ∷ cordoned ∷ []
node_transitions reserved = provisioning ∷ pool_ready ∷ cordoned ∷ []
node_transitions provisioning = allocated ∷ quarantined ∷ releasing ∷ []
node_transitions allocated = in_service ∷ releasing ∷ []
node_transitions in_service = cordoned ∷ draining ∷ []
node_transitions cordoned = draining ∷ in_service ∷ []
node_transitions draining = releasing ∷ []
node_transitions releasing = sanitizing ∷ []
node_transitions sanitizing = pool_ready ∷ rma ∷ []
node_transitions rma = []

-- ORDER_TRANSITIONS
abbrev pub order_transitions : OrderState → List OrderState
order_transitions received = validated ∷ rejected ∷ []
order_transitions validated = reserved ∷ reclaiming ∷ rejected ∷ compensating ∷ []
order_transitions reserved = provisioning ∷ compensating ∷ []
order_transitions provisioning = isolating ∷ compensating ∷ []
order_transitions isolating = storage_binding ∷ compensating ∷ []
order_transitions storage_binding = acceptance ∷ compensating ∷ []
order_transitions acceptance = delivered ∷ k8s_installing ∷ compensating ∷ []
order_transitions k8s_installing = delivered ∷ compensating ∷ []
order_transitions delivered = closed ∷ k8s_installing ∷ []
order_transitions reclaiming = closed ∷ []
order_transitions compensating = failed ∷ []
order_transitions closed = []
order_transitions rejected = []
order_transitions failed = []

abbrev pub lists_node : List NodeState → NodeState → Bool
lists_node [] t = false
lists_node (s ∷ ss) t = eqb (node_rank s) (node_rank t) || lists_node ss t

abbrev pub lists_order : List OrderState → OrderState → Bool
lists_order [] t = false
lists_order (s ∷ ss) t = eqb (order_rank s) (order_rank t) || lists_order ss t

unfoldable pub advance_node : NodeState → String → Exec NodeInstance (Unit {0})
advance_node to detail = do
  allowed ← gets (λ n. lists_node (node_transitions n.state) to)
  require allowed 409
  modify (λ n. record n {
    state = to;
    history = n.history ++ record { state = to; detail = detail } ∷ [];
  })

unfoldable pub advance_order : {N : Type 0} → OrderState → String → Exec (ServiceOrder N) (Unit {0})
advance_order to detail = do
  allowed ← gets (λ o. lists_order (order_transitions o.state) to)
  require allowed 409
  modify (λ o. record o {
    state = to;
    history = o.history ++ record { state = to; detail = detail } ∷ [];
  })
