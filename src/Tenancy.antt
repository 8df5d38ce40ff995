-- ===== src/Tenancy.antt =====
-- app/tenancy.py over app/store.py: tenants, their network isolation, rack allocations and NVLink
-- partitions. `HTTPException` is `err` with its status. What a lookup of the store does not read
-- (the lifecycle, order and K8s tables) is left out of `Store`.
pub mod Slug
pub mod Vni
pub mod Tenants
pub mod Racks
pub mod Partitions
pub mod Report
pub mod Isolated
pub mod Isolation
pub mod Exclusive
use neo_cloud_control_plane.Prelude.{
  ℕ, ◌+◌, String, Bool, true, false, ◌||◌, ◌&&◌, Option, none, some, List, [], ◌∷◌, ◌++◌, map, ◌==◌,
  if◌then◌else◌, select, contains, is_some, is_text, or_else,
}
use neo_cloud_control_plane.Dict.{Dict, get, put, has, values}
use neo_cloud_control_plane.Shared
use neo_cloud_control_plane.Shared.{Shared}

pub data HwState : Type 0 where
  provisioning ready allocated draining faulted maintenance : HwState

pub data IsolationTier : Type 0 where
  bare_metal_dedicated vm_multitenant k8s_namespace : IsolationTier

pub data DpuMode : Type 0 where
  nic dpu dpu_zero_trust : DpuMode

pub data AllocationScope : Type 0 where
  scalable_unit rack_set hac : AllocationScope

pub record Gpu : Type 0 where
  pub id : String
  pub tray_id : String
  pub state : HwState
  pub tenant_id : Option String

pub record Dpu : Type 0 where
  pub id : String
  pub tray_id : String
  pub mode : DpuMode
  pub tenant_id : Option String

pub record Tray : Type 0 where
  pub id : String
  pub rack_id : String
  pub gpu_ids : List String
  pub dpu_id : Option String
  pub tenant_id : Option String

pub record Rack : Type 0 where
  pub id : String
  pub su_id : String
  pub blueprint_key : String
  pub hac_id : String
  pub tray_ids : List String
  pub state : HwState
  pub tenant_id : Option String

pub record ScalableUnit : Type 0 where
  pub id : String
  pub blueprint_key : String
  pub hac_id : String
  pub rack_ids : List String

pub record DeploymentUnit : Type 0 where
  pub id : String
  pub su_ids : List String

pub record ComputeBlock : Type 0 where
  pub id : String
  pub du_ids : List String

pub record AiFactory : Type 0 where
  pub id : String
  pub name : String
  pub block_ids : List String

pub record Tenant : Type 0 where
  pub id : String
  pub name : String
  pub isolation_tier : IsolationTier
  pub sla_tier : String
  pub notes : Option String

pub record NetworkIsolation : Type 0 where
  pub tenant_id : String
  pub compute_l3vni : ℕ
  pub converged_vni : ℕ
  pub oob_vni : ℕ
  pub vrf : String
  pub ib_pkey : Option ℕ

pub record Allocation : Type 0 where
  pub id : String
  pub tenant_id : String
  pub scope : AllocationScope
  pub su_id : String
  pub rack_ids : List String
  pub dpu_mode : DpuMode

pub record Partition : Type 0 where
  pub id : String
  pub rack_id : String
  pub partition_id : ℕ
  pub tray_ids : List String
  pub tenant_id : String

pub record Store : Type 0 where
  pub factories : Dict AiFactory
  pub blocks : Dict ComputeBlock
  pub dus : Dict DeploymentUnit
  pub sus : Dict ScalableUnit
  pub racks : Dict Rack
  pub trays : Dict Tray
  pub gpus : Dict Gpu
  pub dpus : Dict Dpu
  pub tenants : Dict Tenant
  pub allocations : Dict Allocation
  pub partitions : Dict Partition
  pub netiso : Dict NetworkIsolation
  pub counters : Dict ℕ
  -- the shared services' singleton, which `create_tenant` calls
  pub shared : Shared

abbrev pub empty : Store
empty = record {
  factories = [];
  blocks = [];
  dus = [];
  sus = [];
  racks = [];
  trays = [];
  gpus = [];
  dpus = [];
  tenants = [];
  allocations = [];
  partitions = [];
  netiso = [];
  counters = [];
  shared = Shared.empty;
}

-- `next_seq`: the next number of a counter
unfoldable pub next_seq : String → Store → ℕ × Store
next_seq name s =
    let n = or_else (get name s.counters) 0 + 1 in
    (n, record s { counters = put name n s.counters })

-- `[d[k] for k in keys if k in d]`
abbrev pub get_all {ℓ} : {V : Type ℓ} → Dict V → List String → List V
get_all d [] = []
get_all d (k ∷ ks) = elim (get k d) [ none ↦ get_all d ks | some v ↦ v ∷ get_all d ks ]

unfoldable pub racks_of_su : String → Store → List Rack
racks_of_su su_id s = elim (get su_id s.sus) [ none ↦ [] | some su ↦ get_all s.racks su.rack_ids ]

-- `factory_of_su`, loop by loop; a block or deployment unit that is not there is skipped
abbrev du_holds : String → Dict DeploymentUnit → String → Bool
du_holds su_id dus did = elim (get did dus) [ none ↦ false | some du ↦ contains du.su_ids su_id ]

abbrev any_du : String → Dict DeploymentUnit → List String → Bool
any_du su_id dus [] = false
any_du su_id dus (did ∷ dids) = du_holds su_id dus did || any_du su_id dus dids

abbrev any_block : String → Store → List String → Bool
any_block su_id s [] = false
any_block su_id s (bid ∷ bids) =
    elim (get bid s.blocks) [ none ↦ false | some b ↦ any_du su_id s.dus b.du_ids ]
    || any_block su_id s bids

abbrev first_factory : String → Store → List AiFactory → Option AiFactory
first_factory su_id s [] = none
first_factory su_id s (f ∷ fs) =
    if any_block su_id s f.block_ids then some f else first_factory su_id s fs

unfoldable pub factory_of_su : String → Store → Option AiFactory
factory_of_su su_id s = first_factory su_id s (values s.factories)

unfoldable pub trays_of_rack : String → Store → List Tray
trays_of_rack rack_id s = elim (get rack_id s.racks) [
  | none ↦ []
  | some rack ↦ get_all s.trays rack.tray_ids
]

unfoldable pub allocations_of_tenant : String → Store → List Allocation
allocations_of_tenant tenant_id s =
    select (λ (a : Allocation). a.tenant_id == tenant_id) (values s.allocations)

abbrev pub first_with : String → List Allocation → Option Allocation
first_with rack_id [] = none
first_with rack_id (a ∷ rest) =
    if contains a.rack_ids rack_id then some a else first_with rack_id rest

unfoldable pub allocation_for_rack : String → Store → Option Allocation
allocation_for_rack rack_id s = first_with rack_id (values s.allocations)

unfoldable pub partitions_of_rack : String → Store → List Partition
partitions_of_rack rack_id s =
    select (λ (p : Partition). p.rack_id == rack_id) (values s.partitions)

-- _default_dpu_mode
unfoldable pub default_dpu_mode : IsolationTier → DpuMode
default_dpu_mode bare_metal_dedicated = dpu
default_dpu_mode vm_multitenant = dpu_zero_trust
default_dpu_mode k8s_namespace = dpu

-- `r.tenant_id not in (None, tenant_id)`
abbrev pub held_by_other : String → Option String → Bool
held_by_other tenant_id none = false
held_by_other tenant_id (some t) = if t == tenant_id then false else true
