-- ===== src/Lifecycle/Placement.antt =====
-- app/lifecycle.py: which racks an order gets (_rack_sellable, _su_allowed_for, select_racks,
-- availability_by_site).
use Prim.Native.String.{compare}
use text.Mathlib.Text.{is_le}
use neo_cloud_control_plane.Prelude.{
  ℕ, zero, suc, ◌+◌, ◌-◌, String, Bool, true, false, not, ◌&&◌, ◌||◌, Option, none, some, List, [],
  ◌∷◌, ◌++◌, ◌==◌, eqb, leb, ltb, if◌then◌else◌, select, any, is_some, length, or_else,
}
use neo_cloud_control_plane.Prelude.Sorting.{sort_by}
use neo_cloud_control_plane.Dict.{Dict, get, put, values}
use neo_cloud_control_plane.Tenancy.{
  Store, Rack, ScalableUnit, Tenant, HwState, ready, racks_of_su, factory_of_su,
}
use neo_cloud_control_plane.Tenancy.Racks.{is_dedicated}
use neo_cloud_control_plane.Lifecycle.{NodeState, NodeInstance, is_node}

unfoldable pub nodes_of_rack : String → Dict NodeInstance → List NodeInstance
nodes_of_rack rack_id nodes = select (λ (n : NodeInstance). n.rack_id == rack_id) (values nodes)

abbrev pub all_ready : List NodeInstance → Bool
all_ready [] = true
all_ready (n ∷ ns) = is_node NodeState.pool_ready n.state && all_ready ns

abbrev pub is_ready : HwState → Bool
is_ready ready = true
is_ready _ = false

unfoldable pub rack_sellable : Dict NodeInstance → Rack → Bool
unfolding nodes_of_rack
rack_sellable nodes rack =
    not (is_some rack.tenant_id)
    && is_ready rack.state
    && eqb (length (nodes_of_rack rack.id nodes)) (length rack.tray_ids)
    && all_ready (nodes_of_rack rack.id nodes)

-- `{r.tenant_id for r in … if r.tenant_id and r.tenant_id != tenant.id}`
abbrev pub is_owner : String → Option String → Bool
is_owner tenant_id none = false
is_owner tenant_id (some t) = not (t == "") && not (t == tenant_id)

abbrev pub owners : String → List Rack → List String
owners tenant_id [] = []
owners tenant_id (r ∷ rs) =
    if is_owner tenant_id r.tenant_id
    then or_else r.tenant_id "" ∷ owners tenant_id rs
    else owners tenant_id rs

abbrev pub owner_dedicated : Store → String → Bool
owner_dedicated s o = elim (get o s.tenants) [
  | none ↦ false
  | some t ↦ is_dedicated t.isolation_tier
]

abbrev pub admits : Store → Tenant → List String → Bool
admits s tenant [] = true
admits s tenant (o ∷ os) =
    if is_dedicated tenant.isolation_tier then false else not (any (owner_dedicated s) (o ∷ os))

unfoldable pub su_allowed_for : Store → ScalableUnit → Option Tenant → Bool
unfolding racks_of_su
su_allowed_for s su none = true
su_allowed_for s su (some tenant) = admits s tenant (owners tenant.id (racks_of_su su.id s))

-- the free racks of an SU, and its site
pub record Pool : Type 0 where
  pub free : List Rack
  pub site : String

abbrev pub site_of : Store → ScalableUnit → String
site_of s su = elim (factory_of_su su.id s) [ none ↦ "(unknown)" | some f ↦ f.id ]

module _ (s : Store) (nodes : Dict NodeInstance) (blueprint_key : String)
    (tenant : Option Tenant) where
  abbrev pub is_offered : ScalableUnit → Bool
  is_offered su = su.blueprint_key == blueprint_key && su_allowed_for s su tenant

  abbrev pub pool_of : ScalableUnit → Pool
  pool_of su = record {
    free = select (rack_sellable nodes) (racks_of_su su.id s);
    site = site_of s su;
  }

  abbrev pub pools : List ScalableUnit → List Pool
  pools [] = []
  pools (su ∷ sus) = if is_offered su then pool_of su ∷ pools sus else pools sus

-- `free[:count]`
abbrev pub take {ℓ} : {A : Type ℓ} → ℕ → List A → List A
take zero xs = []
take (suc n) [] = []
take (suc n) (x ∷ xs) = x ∷ take n xs

-- `min(fits, key=lambda p: len(p[1]))`: the first of the smallest
abbrev pub smallest : Pool → List Pool → Pool
smallest p [] = p
smallest p (q ∷ qs) = smallest (if ltb (length q.free) (length p.free) then q else p) qs

-- `by_site.setdefault(fid, []).append(free)`
abbrev pub by_site : List Pool → Dict (List (List Rack)) → Dict (List (List Rack))
by_site [] d = d
by_site (p ∷ ps) d = by_site ps (put p.site (or_else (get p.site d) [] ++ p.free ∷ []) d)

abbrev pub total : List (List Rack) → ℕ
total [] = 0
total (f ∷ fs) = length f + total fs

abbrev pub candidates : ℕ → Dict (List (List Rack)) → List (ℕ × String)
candidates count [] = []
candidates count ((fid, frees) ∷ d) =
    if leb count (total frees) then (total frees, fid) ∷ candidates count d else candidates count d

-- `a < b` for pairs
abbrev pub less : ℕ × String → ℕ × String → Bool
less (m, f) (n, g) = ltb m n || (eqb m n && not (is_le (compare g f)))

abbrev pub least : ℕ × String → List (ℕ × String) → ℕ × String
least c [] = c
least c (d ∷ ds) = least (if less d c then d else c) ds

-- the loop over a site's SUs, the largest first
unfoldable pub fill : ℕ → List (List Rack) → List Rack → Option (List Rack)
fill count [] selected = none
fill count (free ∷ frees) selected =
    let selected' = selected ++ take (count - length selected) free in
    let rest = fill count frees selected' in
    if eqb (length selected') count then some selected' else rest

abbrev pub larger : List Rack → List Rack → Bool
larger f g = leb (length g) (length f)

-- the spill over the SUs of one site
unfoldable pub spill : ℕ → Dict (List (List Rack)) → List (ℕ × String) → Option (List Rack)
unfolding fill
spill count groups [] = none
spill count groups (c ∷ cs) =
    fill count (sort_by larger (or_else (get (least c cs).1 groups) [])) []

abbrev pub best_fit : ℕ → List Pool → List Pool → Option (List Rack)
best_fit count all (p ∷ ps) = some (take count (smallest p ps).free)
best_fit count all [] = spill count (by_site all []) (candidates count (by_site all []))

abbrev pub su_before : ScalableUnit → ScalableUnit → Bool
su_before a b = is_le (compare a.id b.id)

unfoldable pub select_racks :
    Store → Dict NodeInstance → String → ℕ → Option Tenant → Option (List Rack)
unfolding rack_sellable su_allowed_for spill
select_racks s nodes blueprint_key count tenant =
    let all = pools s nodes blueprint_key tenant (sort_by su_before (values s.sus)) in
    best_fit count all (select (λ (p : Pool). leb count (length p.free)) all)

abbrev pub name_of : Store → ScalableUnit → String
name_of s su = elim (factory_of_su su.id s) [ none ↦ "(unknown)" | some f ↦ f.name ]

abbrev pub tally :
    Store → Dict NodeInstance → String → Option Tenant → List ScalableUnit → Dict ℕ → Dict ℕ
tally s nodes key tenant [] out = out
tally s nodes key tenant (su ∷ sus) out = tally s nodes key tenant sus (
    if is_offered s nodes key tenant su
    then put (name_of s su)
        (or_else (get (name_of s su) out) 0
          + length (select (rack_sellable nodes) (racks_of_su su.id s)))
        out
    else out)

unfoldable pub availability_by_site : Store → Dict NodeInstance → String → Option Tenant → Dict ℕ
unfolding rack_sellable su_allowed_for
availability_by_site s nodes blueprint_key tenant =
    tally s nodes blueprint_key tenant (values s.sus) []
