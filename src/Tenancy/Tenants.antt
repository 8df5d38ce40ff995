-- ===== src/Tenancy/Tenants.antt =====
-- app/tenancy.py: create_tenant and get_tenant.
use neo_cloud_control_plane.Prelude.{
  ℕ, ◌≤◌, ◌<◌, String, ◌+++◌, ◌≡◌, ◌≢◌, refl, ap, sym, ◌∙◌, subst, true, false, not, Option, none,
  some, List, [], ◌∷◌, arith, ◌==◌, eq_iff, eq_refl, if◌then◌else◌, length, Bool-cases, inl, inr,
  ◌⊎◌,
}
use neo_cloud_control_plane.Prelude.Exec.{
  Exec, Result, ok, err, or_raise, require, gets, modify, pure, ◌>>=◌, ◌>>◌,
}
use neo_cloud_control_plane.Dict.{Dict, get, put, has, values}
use neo_cloud_control_plane.Dict.Laws.{get-put}
use neo_cloud_control_plane.Shared.{create_realm}
use neo_cloud_control_plane.Tenancy.{
  Store, Tenant, IsolationTier, NetworkIsolation, Allocation, allocations_of_tenant,
}
use neo_cloud_control_plane.Tenancy.Slug.{slug}
use neo_cloud_control_plane.Tenancy.Vni.{
  compute, converged, oob, vnis, used_vnis, uses, alloc_vni, alloc_vni_bind, alloc_vni_bind_room,
  alloc_vni_bind_err,
}

pub record TenantCreate : Type 0 where
  pub name : String
  pub isolation_tier : IsolationTier
  pub sla_tier : String
  pub notes : Option String

abbrev pub tenant_key : String → String
tenant_key name = "tnt-" +++ slug name

abbrev pub tenant_of : TenantCreate → Tenant
tenant_of body = record {
  id = tenant_key body.name;
  name = body.name;
  isolation_tier = body.isolation_tier;
  sla_tier = body.sla_tier;
  notes = body.notes;
}

abbrev pub binding : String → ℕ → ℕ → ℕ → NetworkIsolation
binding name c v o = record {
  tenant_id = tenant_key name;
  compute_l3vni = c;
  converged_vni = v;
  oob_vni = o;
  vrf = "VRF-" +++ slug name;
  ib_pkey = none;
}

-- The tenant is registered before its VNIs are found, and stays so when they are not.
unfoldable pub create_tenant : TenantCreate → Exec Store Tenant
unfolding alloc_vni create_realm
create_tenant body = do
  let tid = tenant_key body.name
  known ← gets (λ s. has tid s.tenants)
  require (not known) 409
  modify (λ s. record s { tenants = put tid (tenant_of body) s.tenants })
  c ← alloc_vni compute
  v ← alloc_vni converged
  o ← alloc_vni oob
  modify (λ s. record s { netiso = put tid (binding body.name c v o) s.netiso })
  modify (λ s. record s { shared = (create_realm tid body.name s.shared).1 })
  pure (tenant_of body)

pub record TenantView : Type 0 where
  pub tenant : Tenant
  pub network_isolation : Option NetworkIsolation
  pub allocations : List Allocation

unfoldable pub get_tenant : String → Exec Store TenantView
get_tenant tenant_id = do
  found ← gets (λ s. get tenant_id s.tenants)
  t ← or_raise found 404
  gets (λ s. record {
    tenant = t;
    network_isolation = get tenant_id s.netiso;
    allocations = allocations_of_tenant tenant_id s;
  })

-- Two bindings with no VNI in common.
abbrev pub Disjoint : NetworkIsolation → NetworkIsolation → Type 0
Disjoint a b =
    (uses (vnis b) a.compute_l3vni ≡ false)
    × (uses (vnis b) a.converged_vni ≡ false)
    × (uses (vnis b) a.oob_vni ≡ false)

-- No two tenants share a VNI.
pub record IsIsolated (s : Store) : Type 0 where
  pub apart :
      (a b : String) (m n : NetworkIsolation)
      → get a s.netiso ≡ some m
      → get b s.netiso ≡ some n
      → a ≢ b
      → Disjoint m n

-- what no binding uses, a given one does not use
unused :
    (v : ℕ) (k : String) (n : NetworkIsolation) (d : Dict NetworkIsolation)
    → uses (used_vnis (values d)) v ≡ false
    → get k d ≡ some n
    → uses (vnis n) v ≡ false
unfolding get
unused v k n [] u e = absurd (ground arith)
unused v k n ((j, m) ∷ d) u e = ground (arith, unused v k n d)

flip : (m n : NetworkIsolation) → Disjoint m n → Disjoint n m
flip m n d = ground arith

module _ (body : TenantCreate) (s : Store) where
  bound-IsIsolated :
      (c v o : ℕ) (s' : Store)
      → IsIsolated s
      → uses (used_vnis (values s.netiso)) c ≡ false
      → uses (used_vnis (values s.netiso)) v ≡ false
      → uses (used_vnis (values s.netiso)) o ≡ false
      → s'.netiso ≡ put (tenant_key body.name) (binding body.name c v o) s.netiso
      → IsIsolated s'
  bound-IsIsolated c v o s' iso fc fv fo e = record {
    apart = λ a b m n em en ne.
        placed a b m n (at_key a m em) (at_key b n en) ne (Bool-cases (tenant_key body.name == a))
          (Bool-cases (tenant_key body.name == b));
  }
    where
      new : NetworkIsolation
      new = binding body.name c v o

      at_key :
          (k : String) (m : NetworkIsolation)
          → get k s'.netiso ≡ some m
          → (if tenant_key body.name == k then some new else get k s.netiso) ≡ some m
      at_key k m em = sym (get-put (tenant_key body.name) k new s.netiso) ∙ sym (ap (get k) e) ∙ em

      free : (k : String) (n : NetworkIsolation) → get k s.netiso ≡ some n → Disjoint new n
      free k n en =
          (unused c k n s.netiso fc en, unused v k n s.netiso fv en, unused o k n s.netiso fo en)

      same : (m n : NetworkIsolation) → some m ≡ some n → m ≡ n
      same m n e = cc

      placed :
          (a b : String) (m n : NetworkIsolation)
          → (if tenant_key body.name == a then some new else get a s.netiso) ≡ some m
          → (if tenant_key body.name == b then some new else get b s.netiso) ≡ some n
          → a ≢ b
          → ((tenant_key body.name == a) ≡ true) ⊎ ((tenant_key body.name == a) ≡ false)
          → ((tenant_key body.name == b) ≡ true) ⊎ ((tenant_key body.name == b) ≡ false)
          → Disjoint m n
      placed a b m n em en ne (inl ya) (inl yb) = absurd (
          ne
            (sym ((eq_iff (tenant_key body.name) a).0 ya) ∙ (eq_iff (tenant_key body.name) b).0 yb))
      placed a b m n em en ne (inl ya) (inr fb) =
          subst (λ t. Disjoint t n) (same new m (rw ya at em)) (free b n (rw fb at en))
      placed a b m n em en ne (inr fa) (inl yb) =
          subst (λ t. Disjoint m t) (same new n (rw yb at en)) (flip new m (free a m (rw fa at em)))
      placed a b m n em en ne (inr fa) (inr fb) = iso.apart a b m n (rw fa at em) (rw fb at en) ne

  -- the store once the tenant is registered
  abbrev pub registered : Store
  registered = record s { tenants = put (tenant_key body.name) (tenant_of body) s.tenants }

  -- Whatever comes of it, a creation leaves no two tenants with a VNI in common.
  pub create_tenant-IsIsolated : IsIsolated s → IsIsolated (create_tenant body s).1
  unfolding create_tenant
  create_tenant-IsIsolated iso = elim (Bool-cases (has (tenant_key body.name) s.tenants)) [
    | inl y ↦ rw (y, create_tenant) iso
    | inr f ↦
        rw (f, create_tenant)
          (alloc_vni_bind (λ r. IsIsolated r.1) compute registered _ (record { apart = iso.apart })
            λ c lc hc fc.
              alloc_vni_bind (λ r. IsIsolated r.1) converged registered _
                (record { apart = iso.apart })
                λ v lv hv fv.
                  alloc_vni_bind (λ r. IsIsolated r.1) oob registered _
                    (record { apart = iso.apart })
                    λ o lo ho fo. bound-IsIsolated c v o _ iso fc fv fo refl)
  ]

  abbrev pub Created : Result Tenant × Store → Type 0
  Created r =
      (t : Store) × (r ≡ (ok (tenant_of body), t))
      × (get (tenant_key body.name) t.tenants ≡ some (tenant_of body))
      × ((ni : NetworkIsolation) × (get (tenant_key body.name) t.netiso ≡ some ni)
          × (10000 ≤ ni.compute_l3vni)
          × (ni.compute_l3vni < 20000)
          × (20000 ≤ ni.converged_vni)
          × (ni.converged_vni < 30000)
          × (30000 ≤ ni.oob_vni)
          × (ni.oob_vni < 40000))

  -- With at most 3,333 tenants bound, a new key is created: the tenant can be looked up, with a
  -- binding whose VNIs lie in the ranges of the three fabrics.
  pub create_tenant_total :
      has (tenant_key body.name) s.tenants ≡ false
      → length (values s.netiso) ≤ 3333
      → Created (create_tenant body s)
  unfolding create_tenant
  create_tenant_total fresh few =
      rw (fresh, create_tenant)
        (alloc_vni_bind_room Created compute registered _ few λ c lc hc fc.
          alloc_vni_bind_room Created converged registered _ few λ v lv hv fv.
            alloc_vni_bind_room Created oob registered _ few λ o lo ho fo. (
              _,
              refl,
              rw (get-put, eq_refl) refl,
              (
                binding body.name c v o,
                rw (get-put, eq_refl) refl,
                lc,
                omega arith,
                lv,
                omega arith,
                lo,
                omega arith,
              ),
            ))

  -- A key that is taken is refused with 409, and the store stays as it is.
  pub create_tenant_taken :
      has (tenant_key body.name) s.tenants ≡ true → create_tenant body s ≡ (err 409, s)
  unfolding create_tenant
  create_tenant_taken known = rw (known, create_tenant)

  exhausted :
      has (tenant_key body.name) s.tenants ≡ false
      → (alloc_vni compute registered).0 ≡ err 507
      → create_tenant body s ≡ (err 507, registered)
  unfolding create_tenant
  exhausted fresh out = rw (fresh, create_tenant) (alloc_vni_bind_err compute registered _ out)

  stays_known : has (tenant_key body.name) registered.tenants ≡ true
  stays_known = rw (get-put, eq_refl) refl

-- When the compute fabric has no VNI left, the creation of a new tenant is refused with 507 and yet
-- leaves the tenant registered, with the bindings as they were; the next try is refused with 409.
pub create_tenant_exhausted :
    (body : TenantCreate) (s : Store)
    → has (tenant_key body.name) s.tenants ≡ false
    → (alloc_vni compute (registered body s)).0 ≡ err 507
    → (create_tenant body s ≡ (err 507, registered body s))
      × (has (tenant_key body.name) (registered body s).tenants ≡ true)
      × ((registered body s).netiso ≡ s.netiso)
      × (create_tenant body (registered body s) ≡ (err 409, registered body s))
create_tenant_exhausted body s fresh out = (
  exhausted body s fresh out,
  stays_known body s,
  refl,
  create_tenant_taken body (registered body s) (stays_known body s),
)
