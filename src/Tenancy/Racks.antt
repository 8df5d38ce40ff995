-- ===== src/Tenancy/Racks.antt =====
-- app/tenancy.py: _bind_rack, _release_rack, create_allocation and delete_allocation.
use neo_cloud_control_plane.Prelude.{
  ℕ, String, ◌+++◌, Bool, true, false, not, ◌&&◌, Option, none, some, List, [], ◌∷◌, map, ◌==◌,
  if◌then◌else◌, select, contains, is_some, or_else, any,
}
use neo_cloud_control_plane.Prelude.Decimal.{decimal}
use neo_cloud_control_plane.Prelude.Exec.{
  Exec, raise, or_raise, require, gets, modify, pure, ◌>>=◌, ◌>>◌,
}
use neo_cloud_control_plane.Dict.{Dict, get, put, pop, update}
use neo_cloud_control_plane.Tenancy.{
  Store, Rack, Tray, Dpu, Gpu, Tenant, ScalableUnit, Allocation, AllocationScope, Partition,
  scalable_unit, rack_set, hac, IsolationTier, bare_metal_dedicated, DpuMode, dpu, ready, allocated,
  racks_of_su, trays_of_rack, allocation_for_rack, partitions_of_rack, default_dpu_mode, next_seq,
  held_by_other,
}

-- the loops over a rack's trays: what is set on the tray, on its DPU and on its GPUs
abbrev pub set_gpus : (Gpu → Gpu) → List String → Store → Store
set_gpus f [] s = s
set_gpus f (gid ∷ gids) s = set_gpus f gids (record s { gpus = update gid f s.gpus })

abbrev pub set_dpu : (Dpu → Dpu) → Option String → Store → Store
set_dpu f none s = s
set_dpu f (some did) s = record s { dpus = update did f s.dpus }

unfoldable pub set_trays : Option String → (Dpu → Dpu) → (Gpu → Gpu) → List Tray → Store → Store
set_trays tenant fd fg [] s = s
set_trays tenant fd fg (tray ∷ trays) s =
    let f = λ (t : Tray). record t { tenant_id = tenant } in
    set_trays tenant fd fg trays (
      set_gpus fg tray.gpu_ids
        (set_dpu fd tray.dpu_id (record s { trays = update tray.id f s.trays })))

-- `s.racks[rack_id]` raises KeyError, a status 500, where there is no such rack.
unfoldable pub bind_rack : String → String → DpuMode → Exec Store (Unit {0})
unfolding set_trays trays_of_rack
bind_rack rack_id tenant_id dpu_mode = do
  found ← gets (λ s. get rack_id s.racks)
  rack ← or_raise found 500
  let rack' : Rack = record rack { tenant_id = some tenant_id; state = allocated }
  modify (λ s. record s { racks = put rack_id rack' s.racks })
  modify (λ s.
      set_trays (some tenant_id) (λ d. record d { tenant_id = some tenant_id; mode = dpu_mode })
        (λ g. record g { tenant_id = some tenant_id; state = allocated }) (trays_of_rack rack_id s)
        s)

unfoldable pub release_rack : String → Exec Store (Unit {0})
unfolding set_trays trays_of_rack
release_rack rack_id = do
  found ← gets (λ s. get rack_id s.racks)
  rack ← or_raise found 500
  let rack' : Rack = record rack { tenant_id = none; state = ready }
  modify (λ s. record s { racks = put rack_id rack' s.racks })
  modify (λ s.
      set_trays none (λ d. record d { tenant_id = none; mode = dpu })
        (λ g. record g { tenant_id = none; state = ready }) (trays_of_rack rack_id s) s)

pub record AllocationCreate : Type 0 where
  pub tenant_id : String
  pub scope : AllocationScope
  pub su_id : String
  pub rack_ids : Option (List String)
  pub dpu_mode : Option DpuMode

-- `rid not in s.racks or s.racks[rid].su_id != su.id`, the other way round
abbrev pub in_su : ScalableUnit → Dict Rack → String → Bool
in_su su racks rid = elim (get rid racks) [ none ↦ false | some r ↦ r.su_id == su.id ]

abbrev pub all_in : (String → Bool) → List String → Bool
all_in p [] = true
all_in p (x ∷ xs) = p x && all_in p xs

-- the racks of a `rack_set` request: 422 where the list is missing or empty
abbrev pub listed_racks : Option (List String) → Exec Store (List String)
listed_racks none = raise 422
listed_racks (some []) = raise 422
listed_racks (some (r ∷ rs)) = pure (r ∷ rs)

abbrev pub target_racks :
    AllocationCreate → ScalableUnit → AllocationScope → Exec Store (List String)
target_racks body su scalable_unit = pure su.rack_ids
target_racks body su hac = gets (λ s.
    map (λ (r : Rack). r.id) (select (λ (r : Rack). r.hac_id == su.hac_id) (racks_of_su su.id s)))
target_racks body su rack_set = do
  rack_ids ← listed_racks body.rack_ids
  inside ← gets (λ s. all_in (in_su su s.racks) rack_ids)
  require inside 422
  pure rack_ids

-- the conflict check: no rack may belong to two tenants
abbrev pub unallocated : Store → List String → Bool
unallocated s rack_ids = all_in (λ r. not (is_some (allocation_for_rack r s))) rack_ids

-- a rack of the SU outside the request that another tenant holds
abbrev pub shares : List String → String → Rack → Bool
shares rack_ids tenant_id r = not (contains rack_ids r.id) && held_by_other tenant_id r.tenant_id

abbrev pub is_dedicated : IsolationTier → Bool
is_dedicated bare_metal_dedicated = true
is_dedicated _ = false

-- a dedicated tenant must not share its SU
abbrev pub may_stand : Tenant → ScalableUnit → List String → Store → Bool
may_stand tenant su rack_ids s =
    not
      (is_dedicated tenant.isolation_tier && any (shares rack_ids tenant.id) (racks_of_su su.id s))

unfoldable pub bind_racks : List String → String → DpuMode → Exec Store (Unit {0})
unfolding bind_rack
bind_racks [] tenant_id mode = pure tt
bind_racks (r ∷ rs) tenant_id mode = do bind_rack r tenant_id mode; bind_racks rs tenant_id mode

abbrev pub alloc_name : ℕ → String
alloc_name n = "alloc-" +++ decimal n

unfoldable pub create_allocation : AllocationCreate → Exec Store Allocation
unfolding racks_of_su allocation_for_rack default_dpu_mode next_seq bind_racks
create_allocation body = do
  found ← gets (λ s. get body.tenant_id s.tenants)
  tenant ← or_raise found 404
  found_su ← gets (λ s. get body.su_id s.sus)
  su ← or_raise found_su 404
  rack_ids ← target_racks body su body.scope
  clear ← gets (λ s. unallocated s rack_ids)
  require clear 409
  apart ← gets (may_stand tenant su rack_ids)
  require apart 409
  let mode = or_else body.dpu_mode (default_dpu_mode tenant.isolation_tier)
  n ← gets (λ s. (next_seq "alloc" s).0)
  modify (λ s. (next_seq "alloc" s).1)
  let alloc : Allocation = record {
    id = alloc_name n;
    tenant_id = tenant.id;
    scope = body.scope;
    su_id = su.id;
    rack_ids = rack_ids;
    dpu_mode = mode;
  }
  bind_racks rack_ids tenant.id mode
  modify (λ s. record s { allocations = put (alloc_name n) alloc s.allocations })
  pure alloc

-- `s.partitions.pop(p.id, None)` for the tenant's partitions on a rack
drop_partitions : String → List Partition → Dict Partition → Dict Partition
drop_partitions tenant_id [] parts = parts
drop_partitions tenant_id (p ∷ ps) parts =
    drop_partitions tenant_id ps (if p.tenant_id == tenant_id then pop p.id parts else parts)

unfoldable pub release_racks : List String → String → Exec Store (Unit {0})
unfolding drop_partitions release_rack partitions_of_rack
release_racks [] tenant_id = pure tt
release_racks (rid ∷ rids) tenant_id = do
  modify (λ s. record s {
    partitions = drop_partitions tenant_id (partitions_of_rack rid s) s.partitions;
  })
  release_rack rid
  release_racks rids tenant_id

unfoldable pub delete_allocation : String → Exec Store (List String)
unfolding release_racks
delete_allocation alloc_id = do
  found ← gets (λ s. get alloc_id s.allocations)
  alloc ← or_raise found 404
  release_racks alloc.rack_ids alloc.tenant_id
  modify (λ s. record s { allocations = pop alloc_id s.allocations })
  pure alloc.rack_ids
