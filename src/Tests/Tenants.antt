-- ===== src/Tests/Tenants.antt =====
-- Runs of app/tenancy.py on an empty store.
use neo_cloud_control_plane.Prelude.{
  zero, suc, ◌+◌, ◌*◌, ◌<◌, ◌≤◌, Bool, true, ap, false, ℕ, ◌≡◌, refl, none, some, [], ◌∷◌, arith,
}
use neo_cloud_control_plane.Prelude.Exec.{Result, ok, err}
use neo_cloud_control_plane.Dict.{Dict, get, has, values}
use neo_cloud_control_plane.Tenancy
use neo_cloud_control_plane.Tenancy.{
  ScalableUnit, Allocation, scalable_unit, Store, Rack, Partition, k8s_namespace, ready,
  NetworkIsolation, allocations_of_tenant,
}
use neo_cloud_control_plane.Tenancy.Slug.{slug}
use neo_cloud_control_plane.Prelude.Decimal.{decimal}
use neo_cloud_control_plane.Tenancy.Vni.{
  uses, used_vnis, compute, alloc_vni, Allocated, alloc_vni-Allocated,
}
use neo_cloud_control_plane.Tenancy.Tenants.{
  TenantCreate, create_tenant, tenant_of, IsIsolated, Created, create_tenant-IsIsolated,
  create_tenant_total, create_tenant_exhausted, registered, tenant_key,
}
use neo_cloud_control_plane.Tenancy.Racks.{AllocationCreate, create_allocation}
use neo_cloud_control_plane.Tenancy.Exclusive.{IsExclusive, create_allocation-IsExclusive}
use neo_cloud_control_plane.Tenancy.Report.{isolation_report, report_for}
use neo_cloud_control_plane.Tenancy.Isolation.{isolation_report-is_isolated}
use neo_cloud_control_plane.Tenancy.Partitions.{create_partition, IsSplit, create_partition-IsSplit}

abbrev acme : TenantCreate
acme = record { name = "Acme"; isolation_tier = k8s_namespace; sla_tier = "gold"; notes = none }

nobody : IsIsolated Tenancy.empty
unfolding get
nobody = record { apart = λ a b m n ea eb ne. absurd (none_bound m ea) }
  where
    none_bound : (m : Tenancy.NetworkIsolation) → none ≡ some m → ⊥
    none_bound m e = cc

create_tenant-IsIsolated_example : IsIsolated (create_tenant acme Tenancy.empty).1
create_tenant-IsIsolated_example = create_tenant-IsIsolated acme Tenancy.empty nobody

create_tenant_total_example : Created acme Tenancy.empty (create_tenant acme Tenancy.empty)
create_tenant_total_example =
    create_tenant_total acme Tenancy.empty (unfold has get in refl) (omega arith)

abbrev rack : Rack
rack = record {
  id = "r1";
  su_id = "su-1";
  blueprint_key = "gb300-nvl72";
  hac_id = "hac-1";
  tray_ids = "t1" ∷ "t2" ∷ [];
  state = ready;
  tenant_id = some "tnt-acme";
}

abbrev racked : Store
racked = record Tenancy.empty {
  racks = ("r1", rack) ∷ [];
  tenants = ("tnt-acme", tenant_of acme) ∷ [];
}

split : IsSplit racked
unfolding get
split = record { apart = λ a b p q t ea eb ne rack inp. absurd (none_there p (ea)) }
  where
    none_there : (p : Partition) → none ≡ some p → ⊥
    none_there p e = cc

create_partition-IsSplit_example :
    IsSplit
      (create_partition
        (record { rack_id = "r1"; tenant_id = "tnt-acme"; tray_ids = "t1" ∷ [] })
        racked).1
create_partition-IsSplit_example =
    create_partition-IsSplit
      (record { rack_id = "r1"; tenant_id = "tnt-acme"; tray_ids = "t1" ∷ [] }) racked split

-- a tenant without a network binding
isolation_report-is_isolated_example : isolation_report "tnt-acme" racked ≡ (
  ok (record {
    tenant_id = "tnt-acme";
    ok = false;
    findings = report_for (tenant_of acme) "tnt-acme" racked;
  }),
  racked,
)
unfolding get allocations_of_tenant
isolation_report-is_isolated_example =
    isolation_report-is_isolated (tenant_of acme) "tnt-acme" racked refl

slug_run : slug "Acme AI,  Inc." ≡ "acme-ai-inc"
unfolding slug
slug_run = refl

-- bindings that use the numbers from `v`, three each
fill : ℕ → ℕ → Dict NetworkIsolation
fill zero v = []
fill (suc n) v =
    (
      decimal n,
      record {
        tenant_id = decimal n;
        compute_l3vni = v;
        converged_vni = v + 1;
        oob_vni = v + 2;
        vrf = "";
        ib_pkey = none;
      },
    )
    ∷ fill n (v + 3)

fill-uses : (n v w : ℕ) → v ≤ w → w < v + 3 * n → uses (used_vnis (values (fill n v))) w ≡ true
unfolding fill
fill-uses zero v w l h = absurd (omega arith)
fill-uses (suc n) v w l h = ground (arith, fill-uses n (v + 3) w)

-- a store whose bindings use all of the compute range
abbrev full : Store
full = record Tenancy.empty { netiso = fill 3334 10000 }

full-alloc_vni : (alloc_vni compute (registered acme full)).0 ≡ err 507
full-alloc_vni =
    refused (alloc_vni compute (registered acme full)).0
      (alloc_vni-Allocated compute (registered acme full)).0
  where
    is_true : (b : Bool) → b ≡ true → b ≡ false → ⊥
    is_true b y f = cc

    refused : (r : Result ℕ) → Allocated compute (registered acme full) r → r ≡ err 507
    refused (ok v) a = absurd (is_true _ (fill-uses 3334 10000 v a.0 (omega (arith, a.1))) a.2)
    refused (err c) a = ap err a.0

create_tenant_exhausted_example :
    (create_tenant acme full ≡ (err 507, registered acme full))
    × (has (tenant_key acme.name) (registered acme full).tenants ≡ true)
    × ((registered acme full).netiso ≡ full.netiso)
    × (create_tenant acme (registered acme full) ≡ (err 409, registered acme full))
create_tenant_exhausted_example =
    create_tenant_exhausted acme full (unfold get in refl) full-alloc_vni

abbrev su : ScalableUnit
su = record { id = "su-1"; blueprint_key = "gb300-nvl72"; hac_id = "hac-1"; rack_ids = "r1" ∷ [] }

-- a free rack, and no allocation yet
abbrev free_rack : Store
free_rack = record racked {
  sus = ("su-1", su) ∷ [];
  racks = ("r1", record rack { tenant_id = none }) ∷ [];
}

none_allocated-IsExclusive : IsExclusive free_rack
unfolding get
none_allocated-IsExclusive = record { apart = λ a b x y r ea eb ne inx. absurd (none_there x ea) }
  where
    none_there : (x : Allocation) → none ≡ some x → ⊥
    none_there x e = cc

abbrev whole_su : AllocationCreate
whole_su = record {
  tenant_id = "tnt-acme";
  scope = scalable_unit;
  su_id = "su-1";
  rack_ids = none;
  dpu_mode = none;
}

create_allocation-IsExclusive_example : IsExclusive (create_allocation whole_su free_rack).1
create_allocation-IsExclusive_example =
    create_allocation-IsExclusive whole_su free_rack none_allocated-IsExclusive
