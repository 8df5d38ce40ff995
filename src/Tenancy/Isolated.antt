-- ===== src/Tenancy/Isolated.antt =====
-- What it is for a tenant of app/tenancy.py to be isolated, and how the tests of the isolation report
-- stand to it.
use neo_cloud_control_plane.Prelude.{
  String, ◌≡◌, refl, Bool, true, false, not, ◌&&◌, ◌||◌, Option, none, some, List, [], ◌∷◌, ◌++◌,
  arith, contains, any, Bool-cases, inl, inr, ℕ, eqb, ◌==◌, select,
}
use neo_cloud_control_plane.Dict.{Dict, get, values}
use neo_cloud_control_plane.Tenancy.{
  Store, Tenant, Partition, Allocation, NetworkIsolation, IsolationTier, bare_metal_dedicated,
  racks_of_su, get_all, held_by_other, Rack, ScalableUnit,
}
use neo_cloud_control_plane.Tenancy.Vni.{vnis, uses}
use neo_cloud_control_plane.Tenancy.Racks.{is_dedicated}
use neo_cloud_control_plane.Tenancy.Report.{racks_of, shared_sus, collides, collisions}

-- a number that is none of a binding's VNIs
abbrev pub is_unused : ℕ → NetworkIsolation → Bool
is_unused v b = not (eqb b.compute_l3vni v) && not (eqb b.converged_vni v) && not (eqb b.oob_vni v)

-- Two bindings with no VNI and no VRF in common.
abbrev pub are_apart : NetworkIsolation → NetworkIsolation → Bool
are_apart a b =
    is_unused a.compute_l3vni b
    && is_unused a.converged_vni b
    && is_unused a.oob_vni b
    && not (b.vrf == a.vrf)

-- A binding that has nothing in common with another tenant's.
abbrev pub is_alone : String → NetworkIsolation → Dict NetworkIsolation → Bool
is_alone tenant_id ni [] = true
is_alone tenant_id ni ((k, other) ∷ rest) =
    (k == tenant_id || are_apart ni other) && is_alone tenant_id ni rest

abbrev pub is_bound_alone : String → Option NetworkIsolation → Dict NetworkIsolation → Bool
is_bound_alone tenant_id none all = false
is_bound_alone tenant_id (some ni) all = is_alone tenant_id ni all

pub is_unused-uses : (v : ℕ) (b : NetworkIsolation) → not (uses (vnis b) v) ≡ is_unused v b
is_unused-uses v b = ground arith

pub are_apart-collides :
    (ni other : NetworkIsolation) → not (collides ni other) ≡ are_apart ni other
are_apart-collides ni other =
    shape _ _ _ (other.vrf == ni.vrf) _ _ _ (is_unused-uses ni.compute_l3vni other)
      (is_unused-uses ni.converged_vni other) (is_unused-uses ni.oob_vni other)
  where
    shape :
        (a b c v x y z : Bool)
        → not a ≡ x
        → not b ≡ y
        → not c ≡ z
        → not (a || b || c || v) ≡ (x && y && z && not v)
    shape a b c v x y z e f g = ground (arith, e, f, g)

pub is_alone-collisions :
    (tenant_id : String) (ni : NetworkIsolation) (all : Dict NetworkIsolation)
    → not (collisions tenant_id ni all) ≡ is_alone tenant_id ni all
is_alone-collisions tenant_id ni [] = refl
is_alone-collisions tenant_id ni ((k, other) ∷ rest) =
    shape (k == tenant_id) (collides ni other) (are_apart ni other) (collisions tenant_id ni rest)
      (is_alone tenant_id ni rest) (are_apart-collides ni other)
      (is_alone-collisions tenant_id ni rest)
  where
    shape : (b c d r s : Bool) → not c ≡ d → not r ≡ s → not ((not b && c) || r) ≡ ((b || d) && s)
    shape b c d r s e f = ground (arith, e, f)

-- Each partition stands on one of the racks.
abbrev pub all_on : List String → List Partition → Bool
all_on racks [] = true
all_on racks (p ∷ ps) = contains racks p.rack_id && all_on racks ps

-- a rack that no other tenant holds
abbrev pub is_free_for : String → Option Rack → Bool
is_free_for tenant_id none = true
is_free_for tenant_id (some r) = elim r.tenant_id [ none ↦ true | some t ↦ t == tenant_id ]

abbrev pub are_free : String → Dict Rack → List String → Bool
are_free tenant_id racks [] = true
are_free tenant_id racks (rid ∷ rids) =
    is_free_for tenant_id (get rid racks) && are_free tenant_id racks rids

-- No rack of the SU is another tenant's.
abbrev pub is_unshared : String → Store → Option ScalableUnit → Bool
is_unshared tenant_id s none = true
is_unshared tenant_id s (some su) = are_free tenant_id s.racks su.rack_ids

abbrev pub are_unshared : String → Store → List Allocation → Bool
are_unshared tenant_id s [] = true
are_unshared tenant_id s (a ∷ allocs) =
    is_unshared tenant_id s (get a.su_id s.sus) && are_unshared tenant_id s allocs

-- the rack is one of an allocation's
abbrev pub is_allocated : String → List Allocation → Bool
is_allocated rid [] = false
is_allocated rid (a ∷ allocs) = contains a.rack_ids rid || is_allocated rid allocs

-- each partition of the tenant stands on a rack of these allocations
abbrev pub stand_on : String → List Allocation → List Partition → Bool
stand_on tenant_id allocs [] = true
stand_on tenant_id allocs (p ∷ ps) =
    (not (p.tenant_id == tenant_id) || is_allocated p.rack_id allocs)
    && stand_on tenant_id allocs ps

abbrev pub own : String → Store → List Allocation
own tenant_id s = select (λ (a : Allocation). a.tenant_id == tenant_id) (values s.allocations)

abbrev pub is_bare_metal : IsolationTier → Bool
is_bare_metal bare_metal_dedicated = true
is_bare_metal _ = false

-- What it is for a tenant to be isolated: a dedicated tenant shares no SU, the tenant has a binding
-- with nothing in common with another's, and its partitions stand on racks of its allocations.
abbrev pub is_isolated : Tenant → String → Store → Bool
is_isolated t tenant_id s =
    (not (is_bare_metal t.isolation_tier) || are_unshared tenant_id s (own tenant_id s))
    && is_bound_alone tenant_id (get tenant_id s.netiso) s.netiso
    && stand_on tenant_id (own tenant_id s) (values s.partitions)

pub are_free-held :
    (tenant_id : String) (racks : Dict Rack) (rids : List String)
    → any (λ (r : Rack). held_by_other tenant_id r.tenant_id) (get_all racks rids)
      ≡ not (are_free tenant_id racks rids)
are_free-held tenant_id racks [] = refl
are_free-held tenant_id racks (rid ∷ rids) =
    by_rack (are_free-held tenant_id racks rids) (get rid racks)
  where
    by_rack :
        any (λ (r : Rack). held_by_other tenant_id r.tenant_id) (get_all racks rids)
          ≡ not (are_free tenant_id racks rids)
        → (o : Option Rack)
        → any
            (λ (r : Rack). held_by_other tenant_id r.tenant_id)
            (elim o [ none ↦ get_all racks rids | some r ↦ r ∷ get_all racks rids ])
          ≡ not (is_free_for tenant_id o && are_free tenant_id racks rids)
    by_rack h none = h
    by_rack h (some r) = rw h (by_tenant r.tenant_id)
      where
        by_tenant :
            (o : Option String)
            → (held_by_other tenant_id o || not (are_free tenant_id racks rids))
              ≡ not (
                  elim o [ none ↦ true | some t ↦ t == tenant_id ] && are_free tenant_id racks rids)
        by_tenant none = refl
        by_tenant (some t) = ground arith

pub unshared-shared :
    (tenant_id : String) (s : Store) (allocs : List Allocation)
    → shared_sus tenant_id allocs s ≡ not (are_unshared tenant_id s allocs)
unfolding racks_of_su
unshared-shared tenant_id s [] = refl
unshared-shared tenant_id s (a ∷ allocs) =
    rw (unshared-shared tenant_id s allocs) (by_su (get a.su_id s.sus))
  where
    by_su :
        (o : Option ScalableUnit)
        → (any
              (λ (r : Rack). held_by_other tenant_id r.tenant_id)
              (elim o [ none ↦ [] | some su ↦ get_all s.racks su.rack_ids ])
            || not (are_unshared tenant_id s allocs))
          ≡ not (is_unshared tenant_id s o && are_unshared tenant_id s allocs)
    by_su none = refl
    by_su (some su) = rw (are_free-held tenant_id s.racks su.rack_ids) (ground arith)

pub contains-append :
    (x : String) (xs ys : List String) → contains (xs ++ ys) x ≡ (contains xs x || contains ys x)
contains-append x [] ys = refl
contains-append x (z ∷ zs) ys = ground (arith, contains-append x zs ys)

pub allocated-racks :
    (rid : String) (allocs : List Allocation)
    → contains (racks_of allocs) rid ≡ is_allocated rid allocs
allocated-racks rid [] = refl
allocated-racks rid (a ∷ allocs) =
    rw (contains-append rid a.rack_ids (racks_of allocs)) (rw (allocated-racks rid allocs) refl)

pub stand-all_on :
    (tenant_id : String) (allocs : List Allocation) (ps : List Partition)
    → all_on (racks_of allocs) (select (λ (p : Partition). p.tenant_id == tenant_id) ps)
      ≡ stand_on tenant_id allocs ps
stand-all_on tenant_id allocs [] = refl
stand-all_on tenant_id allocs (p ∷ ps) = elim (Bool-cases (p.tenant_id == tenant_id)) [
  | inl y ↦
      rw y (rw (allocated-racks p.rack_id allocs) (rw (stand-all_on tenant_id allocs ps) refl))
  | inr n ↦ rw n (stand-all_on tenant_id allocs ps)
]

pub dedicated_lem :
    (tier : IsolationTier) (b : Bool)
    → not (is_dedicated tier && not b) ≡ (not (is_bare_metal tier) || b)
dedicated_lem bare_metal_dedicated b = ground arith
dedicated_lem _ b = ground arith
