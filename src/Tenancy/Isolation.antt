-- ===== src/Tenancy/Isolation.antt =====
-- What the isolation report of app/tenancy.py says of a tenant.
use neo_cloud_control_plane.Prelude.{
  String, ◌≡◌, refl, Bool, true, false, not, ◌&&◌, ◌||◌, if◌then◌else◌, Option, none, some, List,
  [], ◌∷◌, ◌++◌, arith, any, sym, ◌∙◌, ap,
}
use neo_cloud_control_plane.Prelude.Exec.{ok}
use neo_cloud_control_plane.Dict.{Dict, get, values}
use neo_cloud_control_plane.Tenancy.{
  Store, Tenant, Partition, Allocation, NetworkIsolation, IsolationTier, bare_metal_dedicated,
  allocations_of_tenant,
}
use neo_cloud_control_plane.Tenancy.Racks.{is_dedicated}
use neo_cloud_control_plane.Tenancy.Report.{
  Finding, fails, fail, pass, network, found, racks_of, shared_sus, collisions, check_physical,
  check_network, check_dpus, check_partitions, bound_partitions, partitions_of, report_for,
  isolation_report,
}
use neo_cloud_control_plane.Tenancy.Isolated.{
  is_bound_alone, is_alone-collisions, all_on, are_unshared, own, is_isolated, unshared-shared,
  stand-all_on, dedicated_lem,
}

any-append : (xs ys : List Finding) → any fails (xs ++ ys) ≡ (any fails xs || any fails ys)
any-append [] ys = refl
any-append (x ∷ xs) ys = ground (arith, any-append xs ys)

physical_fails :
    (tier : IsolationTier) (shared : Bool)
    → any fails (check_physical tier shared) ≡ (is_dedicated tier && shared)
physical_fails bare_metal_dedicated true = refl
physical_fails bare_metal_dedicated false = refl
physical_fails _ _ = refl

network_fails :
    (tenant_id : String) (o : Option NetworkIsolation) (all : Dict NetworkIsolation)
    → any fails (check_network tenant_id o all) ≡ not (is_bound_alone tenant_id o all)
network_fails tenant_id none all = refl
network_fails tenant_id (some ni) all =
    rw (sym (is_alone-collisions tenant_id ni all)) (by_test (collisions tenant_id ni all))
  where
    by_test :
        (b : Bool)
        → any fails (if b then found fail network ∷ [] else found pass network ∷ []) ≡ not (not b)
    by_test b = ground arith

dpus_warn :
    (tier : IsolationTier) (allocs : List Allocation) → any fails (check_dpus tier allocs) ≡ false
unfolding check_dpus
dpus_warn tier [] = refl
dpus_warn tier (a ∷ rest) = ground (arith, dpus_warn tier rest)

partitions_fail :
    (racks : List String) (ps : List Partition)
    → any fails (check_partitions racks ps) ≡ not (all_on racks ps)
unfolding check_partitions
partitions_fail racks [] = refl
partitions_fail racks (p ∷ ps) = ground (arith, partitions_fail racks ps)

bound_pass : (ps : List Partition) → any fails (bound_partitions ps) ≡ false
bound_pass [] = refl
bound_pass (p ∷ ps) = refl

not_any :
    (p n d q : Bool)
    → d ≡ false
    → not (false || (p || (not n || (d || (not q || false))))) ≡ (not p && n && q)
not_any p n d q e = ground arith

sound :
    (t : Tenant) (tenant_id : String) (s : Store)
    → not (any fails (report_for t tenant_id s)) ≡ is_isolated t tenant_id s
unfolding report_for allocations_of_tenant
sound t tenant_id s =
    let allocs = own tenant_id s in
    let parts = partitions_of tenant_id s in
    let physical = physical_fails t.isolation_tier (shared_sus tenant_id allocs s) in
    let network = network_fails tenant_id (get tenant_id s.netiso) s.netiso in
    let dpus = dpus_warn t.isolation_tier allocs in
    let partitions = partitions_fail (racks_of allocs) parts in
    rw (any-append, any-append, any-append, any-append, physical, network, partitions, bound_pass)
      (named _ _ _ _ _ _ (not_any _ _ _ _ dpus)
        (ap (λ b. not (is_dedicated t.isolation_tier && b)) (unshared-shared tenant_id s allocs)
          ∙ dedicated_lem t.isolation_tier (are_unshared tenant_id s allocs))
        (stand-all_on tenant_id allocs (values s.partitions)))
  where
    named :
        (r p n q p' q' : Bool) → r ≡ (not p && n && q) → not p ≡ p' → q ≡ q' → r ≡ (p' && n && q')
    named r p n q p' q' e f g = rw (e, f, g) refl

-- The report on a known tenant changes nothing and is ok exactly when a dedicated tenant shares no SU
-- with another, the tenant has a binding with no VNI and no VRF of another's, and each of its
-- partitions stands on a rack of its allocations; what it says of the DPU modes does not count.
pub isolation_report-is_isolated :
    (t : Tenant) (tenant_id : String) (s : Store)
    → get tenant_id s.tenants ≡ some t
    → isolation_report tenant_id s ≡ (
      ok (record {
        tenant_id = tenant_id;
        ok = is_isolated t tenant_id s;
        findings = report_for t tenant_id s;
      }),
      s,
    )
unfolding isolation_report
isolation_report-is_isolated t tenant_id s e = rw (e, isolation_report, sound t tenant_id s) refl
