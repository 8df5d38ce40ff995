-- ===== src/Lifecycle/Selection.antt =====
-- app/lifecycle.py: what select_racks picks.
use neo_cloud_control_plane.Prelude.{
  ℕ, zero, suc, ◌-◌, ◌≤◌, String, ◌≡◌, refl, subst, Bool, true, false, Option, none, some, List, [],
  ◌∷◌, ◌++◌, ◌==◌, eqb, leb, ltb, eq_iff, if◌then◌else◌, select, length, or_else, All, arith,
  Bool-cases, Option-cases, inl, inr,
}
use neo_cloud_control_plane.Prelude.Sorting.{
  sort_by, All-sort_by, In, All-In, All-select, All-append,
}
use neo_cloud_control_plane.Dict.{Dict, get, put, values}
use neo_cloud_control_plane.Dict.Laws.{get-put}
use neo_cloud_control_plane.Tenancy.{Store, Rack, ScalableUnit, Tenant, racks_of_su}
use neo_cloud_control_plane.Lifecycle.{NodeInstance}
use neo_cloud_control_plane.Lifecycle.Placement.{
  Pool, is_offered, pool_of, pools, site_of, rack_sellable, take, smallest, by_site, candidates,
  least, fill, larger, spill, best_fit, su_before, select_racks,
}

-- A rack that the order may get at a site: it is sellable, and stands in an SU of the site that has
-- the blueprint and may take the tenant.
pub record IsOffered (s : Store) (nodes : Dict NodeInstance) (key : String) (tenant : Option Tenant)
    (site : String) (r : Rack) : Type 0 where
  pub su : ScalableUnit
  pub stocked : In su (values s.sus)
  pub offered : is_offered s nodes key tenant su ≡ true
  pub here : site_of s su ≡ site
  pub member : In r (racks_of_su su.id s)
  pub sellable : rack_sellable nodes r ≡ true

module _ {A : Type 0} where
  pub length-take : (n : ℕ) (xs : List A) → n ≤ length xs → length (take n xs) ≡ n
  length-take zero xs h = refl
  length-take (suc n) [] h = absurd (omega arith)
  length-take (suc n) (x ∷ xs) h = omega (arith, length-take n xs)

  pub length-take_all : (n : ℕ) (xs : List A) → length xs ≤ n → length (take n xs) ≡ length xs
  length-take_all zero [] h = refl
  length-take_all zero (x ∷ xs) h = absurd (omega arith)
  length-take_all (suc n) [] h = refl
  length-take_all (suc n) (x ∷ xs) h = omega (arith, length-take_all n xs)

  All-take : (P : A → Type 0) (n : ℕ) (xs : List A) → All P xs → All P (take n xs)
  All-take P zero xs a = tt
  All-take P (suc n) [] a = tt
  All-take P (suc n) (x ∷ xs) a = (a.0, All-take P n xs a.1)

smallest-at : (P : Pool → Type 0) (p : Pool) (ps : List Pool) → P p → All P ps → P (smallest p ps)
smallest-at P p [] h a = h
smallest-at P p (q ∷ qs) h a =
    smallest-at P (if ltb (length q.free) (length p.free) then q else p) qs
      (chosen (ltb (length q.free) (length p.free))) a.1
  where
    chosen : (b : Bool) → P (if b then q else p)
    chosen true = a.0
    chosen false = h

module _ (s : Store) (nodes : Dict NodeInstance) (key : String) (tenant : Option Tenant) where
  abbrev Good : Pool → Type 0
  Good p = All (IsOffered s nodes key tenant p.site) p.free

  pool_of-Good :
      (su : ScalableUnit)
      → In su (values s.sus)
      → is_offered s nodes key tenant su ≡ true
      → Good (pool_of s nodes key tenant su)
  pool_of-Good su m o = each (racks_of_su su.id s) (λ r i. i)
    where
      each :
          (rs : List Rack)
          → ((r : Rack) → In r rs → In r (racks_of_su su.id s))
          → All (IsOffered s nodes key tenant (site_of s su)) (select (rack_sellable nodes) rs)
      each [] sub = tt
      each (r ∷ rs) sub = elim (Bool-cases (rack_sellable nodes r)) [
        | inl y ↦ rw y (
          record {
            su = su;
            stocked = m;
            offered = o;
            here = refl;
            member = sub r (inl refl);
            sellable = y;
          },
          each rs (λ z i. sub z (inr i)),
        )
        | inr n ↦ rw n (each rs (λ z i. sub z (inr i)))
      ]

  pools-Good :
      (sus : List ScalableUnit)
      → All (λ su. In su (values s.sus)) sus
      → All Good (pools s nodes key tenant sus)
  pools-Good [] a = tt
  pools-Good (su ∷ sus) a = elim (Bool-cases (is_offered s nodes key tenant su)) [
    | inl y ↦ rw y (pool_of-Good su a.0 y, pools-Good sus a.1)
    | inr n ↦ rw n (pools-Good sus a.1)
  ]

  -- each group holds racks of its own site
  record AreGrouped (d : Dict (List (List Rack))) : Type 0 where
    grouped :
        (site : String) (frees : List (List Rack))
        → get site d ≡ some frees
        → All (All (IsOffered s nodes key tenant site)) frees

  group_of :
      (d : Dict (List (List Rack))) (site : String)
      → AreGrouped d
      → All (All (IsOffered s nodes key tenant site)) (or_else (get site d) [])
  group_of d site g = elim (Option-cases (get site d)) [
    | inl e ↦ rw e tt
    | inr (frees, e) ↦ rw e (g.grouped site frees e)
  ]

  no_groups : AreGrouped []
  unfolding get
  no_groups = record { grouped = λ site frees e. none_there site frees e }
    where
      none_there :
          (site : String) (frees : List (List Rack))
          → none ≡ some frees
          → All (All (IsOffered s nodes key tenant site)) frees
      none_there site frees e = absurd (some≢none frees e)
        where
          some≢none : (f : List (List Rack)) → none ≡ some f → ⊥
          some≢none f e = cc

  by_site-AreGrouped :
      (ps : List Pool) (d : Dict (List (List Rack)))
      → All Good ps
      → AreGrouped d
      → AreGrouped (by_site ps d)
  by_site-AreGrouped [] d a g = g
  by_site-AreGrouped (p ∷ ps) d a g =
      by_site-AreGrouped ps (put p.site (or_else (get p.site d) [] ++ p.free ∷ []) d) a.1 (record {
        grouped = λ site frees e. elim (Bool-cases (p.site == site)) [
          | inl y ↦
              let same : p.site ≡ site = (eq_iff p.site site).0 y in
              subst (λ t. All (All (IsOffered s nodes key tenant t)) frees) same
                (subst (All (All (IsOffered s nodes key tenant p.site)))
                  (unsome _ frees (rw (get-put, y) at e))
                  (All-append _ (or_else (get p.site d) []) (p.free ∷ []) (group_of d p.site g)
                    (a.0, tt)))
          | inr n ↦ g.grouped site frees (rw (get-put, n) at e)
        ];
      })
    where
      unsome : (x y : List (List Rack)) → some x ≡ some y → x ≡ y
      unsome x y e = cc

  fill-Offered :
      (site : String) (count : ℕ) (frees : List (List Rack)) (selected rs : List Rack)
      → All (All (IsOffered s nodes key tenant site)) frees
      → All (IsOffered s nodes key tenant site) selected
      → fill count frees selected ≡ some rs
      → (length rs ≡ count) × All (IsOffered s nodes key tenant site) rs
  unfolding fill
  fill-Offered site count [] selected rs a b e = absurd (ground arith)
  fill-Offered site count (free ∷ frees) selected rs a b e =
      let selected' = selected ++ take (count - length selected) free in
      let good =
        All-append _ selected (take (count - length selected) free) b
          (All-take _ (count - length selected) free a.0) in
      elim (Bool-cases (eqb (length selected') count)) [
        | inl y ↦
            let same : selected' ≡ rs = unsome selected' rs (rw y at e) in
            subst (λ z. (length z ≡ count) × All (IsOffered s nodes key tenant site) z) same
              (full (length selected') y, good)
        | inr n ↦ fill-Offered site count frees selected' rs a.1 good (rw n at e)
      ]
    where
      unsome : (x y : List Rack) → some x ≡ some y → x ≡ y
      unsome x y e = cc

      full : (n : ℕ) → eqb n count ≡ true → n ≡ count
      full n y = ground arith

  fits-enough :
      (count : ℕ) (ps : List Pool)
      → All Good ps
      → All
          (λ p. Good p × (leb count (length p.free) ≡ true))
          (select (λ (p : Pool). leb count (length p.free)) ps)
  fits-enough count ps a = All-select Good (λ p. leb count (length p.free)) ps a

  best_fit-Offered :
      (count : ℕ) (all fits : List Pool) (rs : List Rack)
      → All Good all
      → All (λ p. Good p × (leb count (length p.free) ≡ true)) fits
      → best_fit count all fits ≡ some rs
      → (length rs ≡ count) × (site : String) × All (IsOffered s nodes key tenant site) rs
  unfolding spill
  best_fit-Offered count all (p ∷ ps) rs a f e =
      let q = smallest p ps in
      let (good, enough) =
        smallest-at (λ p. Good p × (leb count (length p.free) ≡ true)) p ps f.0 f.1 in
      subst (λ z. (length z ≡ count) × (site : String) × All (IsOffered s nodes key tenant site) z)
        (unsome (take count q.free) rs e)
        (
          length-take count q.free (at_least (length q.free) enough),
          q.site,
          All-take _ count q.free good,
        )
    where
      unsome : (x y : List Rack) → some x ≡ some y → x ≡ y
      unsome x y e = cc

      at_least : (n : ℕ) → leb count n ≡ true → count ≤ n
      at_least n h = ground arith
  best_fit-Offered count all [] rs a f e = spilled (candidates count (by_site all [])) e
    where
      groups : Dict (List (List Rack))
      groups = by_site all []

      grouped : AreGrouped groups
      grouped = by_site-AreGrouped all [] a no_groups

      spilled :
          (cs : List (ℕ × String))
          → spill count groups cs ≡ some rs
          → (length rs ≡ count) × (site : String) × All (IsOffered s nodes key tenant site) rs
      spilled [] e = absurd (ground arith)
      spilled (c ∷ cs) e =
          let site = (least c cs).1 in
          let (n, offered) =
            fill-Offered site count (sort_by larger (or_else (get site groups) [])) [] rs
              (All-sort_by larger (All (IsOffered s nodes key tenant site))
                (or_else (get site groups) []) (group_of groups site grouped))
              tt e in
          (n, site, offered)

-- The racks that an order is given are as many as it asks for, and each is sellable and stands in an
-- SU of one and the same site, with the order's blueprint, that may take the tenant.
pub select_racks-IsOffered :
    (s : Store) (nodes : Dict NodeInstance) (key : String) (count : ℕ) (tenant : Option Tenant)
    (rs : List Rack)
    → select_racks s nodes key count tenant ≡ some rs
    → (length rs ≡ count) × (site : String) × All (IsOffered s nodes key tenant site) rs
unfolding select_racks
select_racks-IsOffered s nodes key count tenant rs e =
    let sus = sort_by su_before (values s.sus) in
    let good = pools-Good s nodes key tenant sus (
      All-sort_by su_before (λ su. In su (values s.sus)) (values s.sus)
        (All-In (values s.sus) (values s.sus) (λ x m. m))) in
    best_fit-Offered s nodes key tenant count (pools s nodes key tenant sus) _ rs good
      (fits-enough s nodes key tenant count (pools s nodes key tenant sus) good) e
