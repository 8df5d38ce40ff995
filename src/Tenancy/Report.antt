-- ===== src/Tenancy/Report.antt =====
-- app/tenancy.py: isolation_report. A finding keeps its severity and layer; its message is not kept.
use neo_cloud_control_plane.Prelude.{
  String, Bool, true, false, not, ◌&&◌, ◌||◌, Option, none, some, List, [], ◌∷◌, ◌++◌, ◌==◌,
  if◌then◌else◌, select, contains, any,
}
use neo_cloud_control_plane.Prelude.Exec.{Exec, or_raise, gets, ◌>>=◌}
use neo_cloud_control_plane.Dict.{Dict, get, values}
use neo_cloud_control_plane.Tenancy.{
  Store, Tenant, IsolationTier, bare_metal_dedicated, vm_multitenant, DpuMode, dpu_zero_trust,
  Allocation, Partition, Rack, NetworkIsolation, racks_of_su, allocations_of_tenant, held_by_other,
}
use neo_cloud_control_plane.Tenancy.Vni.{vnis, uses}

pub data Severity : Type 0 where
  pass warn fail : Severity

pub data Layer : Type 0 where
  identity physical network process compute_isolation : Layer

pub record Finding : Type 0 where
  pub severity : Severity
  pub layer : Layer

pub record IsolationReport : Type 0 where
  pub tenant_id : String
  pub ok : Bool
  pub findings : List Finding

abbrev pub found : Severity → Layer → Finding
found severity layer = record { severity = severity; layer = layer }

-- `rid for a in allocs for rid in a.rack_ids`
abbrev pub racks_of : List Allocation → List String
racks_of [] = []
racks_of (a ∷ rest) = a.rack_ids ++ racks_of rest

-- a rack of an SU of the tenant that another tenant holds; an SU that is gone is skipped
abbrev pub shared_sus : String → List Allocation → Store → Bool
shared_sus tenant_id [] s = false
shared_sus tenant_id (a ∷ rest) s =
    any (λ (r : Rack). held_by_other tenant_id r.tenant_id) (racks_of_su a.su_id s)
    || shared_sus tenant_id rest s

abbrev pub check_physical : IsolationTier → Bool → List Finding
check_physical bare_metal_dedicated true = found fail physical ∷ []
check_physical _ _ = found pass physical ∷ []

-- a binding of another tenant with a VNI or the VRF of this one
abbrev pub collides : NetworkIsolation → NetworkIsolation → Bool
collides ni other =
    uses (vnis other) ni.compute_l3vni
    || uses (vnis other) ni.converged_vni
    || uses (vnis other) ni.oob_vni
    || other.vrf == ni.vrf

abbrev pub collisions : String → NetworkIsolation → Dict NetworkIsolation → Bool
collisions tenant_id ni [] = false
collisions tenant_id ni ((k, other) ∷ rest) =
    (not (k == tenant_id) && collides ni other) || collisions tenant_id ni rest

abbrev pub check_network : String → Option NetworkIsolation → Dict NetworkIsolation → List Finding
check_network tenant_id none all = found fail network ∷ []
check_network tenant_id (some ni) all =
    if collisions tenant_id ni all then found fail network ∷ [] else found pass network ∷ []

abbrev needs_zero_trust : IsolationTier → DpuMode → Bool
needs_zero_trust vm_multitenant dpu_zero_trust = false
needs_zero_trust vm_multitenant mode = true
needs_zero_trust tier mode = false

unfoldable pub check_dpus : IsolationTier → List Allocation → List Finding
check_dpus tier [] = []
check_dpus tier (a ∷ rest) =
    if needs_zero_trust tier a.dpu_mode
    then found warn process ∷ check_dpus tier rest
    else check_dpus tier rest

unfoldable pub check_partitions : List String → List Partition → List Finding
check_partitions racks [] = []
check_partitions racks (p ∷ rest) =
    if contains racks p.rack_id
    then check_partitions racks rest
    else found fail compute_isolation ∷ check_partitions racks rest

abbrev pub bound_partitions : List Partition → List Finding
bound_partitions [] = []
bound_partitions (p ∷ ps) = found pass compute_isolation ∷ []

abbrev pub fails : Finding → Bool
fails f = is_fail f.severity
  where
    is_fail : Severity → Bool
    is_fail fail = true
    is_fail _ = false

abbrev pub partitions_of : String → Store → List Partition
partitions_of tenant_id s =
    select (λ (p : Partition). p.tenant_id == tenant_id) (values s.partitions)

unfoldable pub report_for : Tenant → String → Store → List Finding
unfolding check_dpus check_partitions
report_for t tenant_id s =
    let allocs = allocations_of_tenant tenant_id s in
    let parts = partitions_of tenant_id s in
    found pass identity
    ∷ (check_physical t.isolation_tier (shared_sus tenant_id allocs s)
        ++ (check_network tenant_id (get tenant_id s.netiso) s.netiso
            ++ (check_dpus t.isolation_tier allocs
                ++ (check_partitions (racks_of allocs) parts ++ bound_partitions parts))))

unfoldable pub isolation_report : String → Exec Store IsolationReport
unfolding report_for allocations_of_tenant racks_of_su
isolation_report tenant_id = do
  stored ← gets (λ s. get tenant_id s.tenants)
  t ← or_raise stored 404
  gets (λ s.
      let findings = report_for t tenant_id s in
      record { tenant_id = tenant_id; ok = not (any fails findings); findings = findings })

-- GET /tenants and GET /network/vni-map
unfoldable pub list_tenants : Store → List Tenant
list_tenants s = values s.tenants

unfoldable pub vni_map : Store → List NetworkIsolation
vni_map s = values s.netiso
