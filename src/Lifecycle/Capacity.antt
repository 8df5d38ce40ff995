-- ===== src/Lifecycle/Capacity.antt =====
-- app/lifecycle.py: when select_racks finds racks.
use neo_cloud_control_plane.Prelude.{
  ℕ, ◌+◌, ◌-◌, ◌≤◌, ◌<◌, String, ◌≡◌, ◌≢◌, refl, ap, sym, ◌∙◌, subst, Bool, true, false, ◌&&◌,
  Option, none, some, List, [], ◌∷◌, ◌++◌, ◌==◌, eqb, leb, eq_iff, if◌then◌else◌, select, length,
  length-append, or_else, is_some, All, arith, Bool-cases, Option-cases, inl, inr,
}
use neo_cloud_control_plane.Prelude.Sorting.{sort_by, sum_by, sum_by-sort_by}
use neo_cloud_control_plane.Dict.{Dict, get, put, values}
use neo_cloud_control_plane.Dict.Laws.{get-put, IsDict, put-IsDict}
use neo_cloud_control_plane.Tenancy.{Store, Rack, ScalableUnit, Tenant, racks_of_su}
use neo_cloud_control_plane.Lifecycle.{NodeInstance}
use neo_cloud_control_plane.Lifecycle.Placement.{
  Pool, is_offered, pools, site_of, rack_sellable, take, by_site, candidates, less, least, total,
  fill, larger, spill, best_fit, su_before, select_racks,
}
use neo_cloud_control_plane.Lifecycle.Selection.{length-take, length-take_all}

abbrev Groups : Type 0
Groups = Dict (List (List Rack))

abbrev group : String → Groups → List (List Rack)
group site d = or_else (get site d) []

total-append : (fs : List (List Rack)) (f : List Rack) → total (fs ++ f ∷ []) ≡ total fs + length f
total-append [] f = omega arith
total-append (g ∷ fs) f = omega (arith, total-append fs f)

pool_at : String → List Pool → ℕ
pool_at site [] = 0
pool_at site (p ∷ ps) = if p.site == site then length p.free + pool_at site ps else pool_at site ps

group-put :
    (site k : String) (fs : List (List Rack)) (d : Groups)
    → group site (put k fs d) ≡ (if k == site then fs else group site d)
group-put site k fs d = elim (Bool-cases (k == site)) [
  | inl y ↦ rw (get-put, y) refl
  | inr n ↦ rw (get-put, n) refl
]

-- The racks grouped under a site are those of its pools.
total-by_site :
    (site : String) (ps : List Pool) (d : Groups)
    → total (group site (by_site ps d)) ≡ total (group site d) + pool_at site ps
unfolding pool_at
total-by_site site [] d = omega arith
total-by_site site (p ∷ ps) d = elim (Bool-cases (p.site == site)) [
  | inl y ↦
      let rest = total-by_site site ps (put p.site (group p.site d ++ p.free ∷ []) d) in
      let here = ap total (group-put site p.site (group p.site d ++ p.free ∷ []) d) in
      let grown = total-append (group p.site d) p.free in
      let same = ap (λ k. total (group k d)) ((eq_iff p.site site).0 y) in
      rw y (omega (arith, rest, rw y at here, grown, same))
  | inr n ↦
      let rest = total-by_site site ps (put p.site (group p.site d ++ p.free ∷ []) d) in
      let here = ap total (group-put site p.site (group p.site d ++ p.free ∷ []) d) in
      rw n (omega (arith, rest, rw n at here))
]

by_site-IsDict : (ps : List Pool) (d : Groups) → IsDict d → IsDict (by_site ps d)
by_site-IsDict [] d h = h
by_site-IsDict (p ∷ ps) d h =
    by_site-IsDict ps (put p.site (group p.site d ++ p.free ∷ []) d) (put-IsDict p.site _ d h)

-- each entry of a dict is what its key gives
abbrev AreEntries : Groups → Groups → Type 0
AreEntries d [] = Unit
AreEntries d ((k, v) ∷ rest) = (get k d ≡ some v) × AreEntries d rest

AreEntries-more :
    (k : String) (v : List (List Rack)) (d rest : Groups)
    → get k d ≡ none
    → AreEntries d rest
    → AreEntries ((k, v) ∷ d) rest
unfolding get
AreEntries-more k v d [] h a = tt
AreEntries-more k v d ((j, w) ∷ rest) h a = elim (Bool-cases (k == j)) [
  | inl y ↦ absurd (some≢none (sym a.0 ∙ ap (λ t. get t d) (sym ((eq_iff k j).0 y)) ∙ h))
  | inr n ↦ (rw n a.0, AreEntries-more k v d rest h a.1)
]
  where
    some≢none : some w ≢ none
    some≢none e = cc

IsDict-AreEntries : (d : Groups) → IsDict d → AreEntries d d
unfolding get
IsDict-AreEntries [] h = tt
IsDict-AreEntries ((k, v) ∷ d) h =
    (rw (eq_self k) refl, AreEntries-more k v d d h.0 (IsDict-AreEntries d h.1))
  where
    eq_self : (k : String) → (k == k) ≡ true
    eq_self k = (eq_iff k k).1 refl

module _ (count : ℕ) where
  candidates-enough :
      (d rest : Groups)
      → AreEntries d rest
      → All (λ (c : ℕ × String). count ≤ total (group c.1 d)) (candidates count rest)
  candidates-enough d [] a = tt
  candidates-enough d ((k, v) ∷ rest) a = elim (Bool-cases (leb count (total v))) [
    | inl y ↦ rw y (rw a.0 (ground arith), candidates-enough d rest a.1)
    | inr n ↦ rw n (candidates-enough d rest a.1)
  ]

  candidates-cons :
      (site : String) (d : Groups) (frees : List (List Rack))
      → get site d ≡ some frees
      → count ≤ total frees
      → (c : ℕ × String) × (cs : List (ℕ × String)) × (candidates count d ≡ c ∷ cs)
  unfolding get
  candidates-cons site [] frees e h = absurd (ground arith)
  candidates-cons site ((k, v) ∷ d) frees e h = elim (Bool-cases (leb count (total v))) [
    | inl y ↦ ((total v, k), candidates count d, rw y refl)
    | inr n ↦ elim (Bool-cases (k == site)) [
      | inl y ↦
          let same : v ≡ frees = unsome v frees (rw y at e) in
          absurd (too_few (total v) n (subst (λ z. count ≤ total z) (sym same) h))
      | inr m ↦ let (c, cs, f) = candidates-cons site d frees (rw m at e) h in (c, cs, rw n f)
    ]
  ]
    where
      unsome : (x y : List (List Rack)) → some x ≡ some y → x ≡ y
      unsome x y e = cc

      too_few : (t : ℕ) → leb count t ≡ false → count ≤ t → ⊥
      too_few t n h = ground arith

  least-at :
      (P : ℕ × String → Type 0) (c : ℕ × String) (cs : List (ℕ × String))
      → P c
      → All P cs
      → P (least c cs)
  least-at P c [] h a = h
  least-at P c (d ∷ ds) h a = least-at P (if less d c then d else c) ds (chosen (less d c)) a.1
    where
      chosen : (b : Bool) → P (if b then d else c)
      chosen true = a.0
      chosen false = h

  -- With racks enough left, the loop fills up.
  fill-some :
      (frees : List (List Rack)) (selected : List Rack)
      → length selected < count
      → count ≤ length selected + total frees
      → is_some (fill count frees selected) ≡ true
  unfolding fill
  fill-some [] selected l h = absurd (omega arith)
  fill-some (free ∷ frees) selected l h =
      let part = take (count - length selected) free in
      elim (Bool-cases (eqb (length (selected ++ part)) count)) [
        | inl y ↦ rw y refl
        | inr n ↦
            let (short, all) = partial (length part) (length-append selected part) (not_full n) in
            rw n (fill-some frees (selected ++ part) short all)
      ]
    where
      not_full :
          eqb (length (selected ++ take (count - length selected) free)) count ≡ false
          → length (selected ++ take (count - length selected) free) ≢ count
      not_full n = ground arith

      partial :
          (p : ℕ)
          → length (selected ++ take (count - length selected) free)
            ≡ length selected + length (take (count - length selected) free)
          → length (selected ++ take (count - length selected) free) ≢ count
          → (length (selected ++ take (count - length selected) free) < count)
            × (count ≤ length (selected ++ take (count - length selected) free) + total frees)
      partial p e n = elim (Bool-cases (leb (length free) (count - length selected))) [
        | inl y ↦
            let fits : length free ≤ count - length selected = ground arith in
            let all = length-take_all (count - length selected) free fits in
            (omega arith, omega arith)
        | inr f ↦
            let over : count - length selected ≤ length free = ground arith in
            let full = length-take (count - length selected) free over in absurd (n (omega arith))
      ]

  total-sort_by : (frees : List (List Rack)) → total (sort_by larger frees) ≡ total frees
  total-sort_by frees =
      sum_by-total (sort_by larger frees)
      ∙ sum_by-sort_by larger length frees
      ∙ sym (sum_by-total frees)
    where
      sum_by-total : (fs : List (List Rack)) → total fs ≡ sum_by larger length fs
      sum_by-total [] = refl
      sum_by-total (f ∷ fs) = omega (arith, sum_by-total fs)

  spill-some :
      (d : Groups) (c : ℕ × String) (cs : List (ℕ × String))
      → 0 < count
      → All (λ (c : ℕ × String). count ≤ total (group c.1 d)) (c ∷ cs)
      → is_some (spill count d (c ∷ cs)) ≡ true
  unfolding spill
  spill-some d c cs pos a =
      let frees = group (least c cs).1 d in
      let enough : count ≤ total frees = least-at (λ c. count ≤ total (group c.1 d)) c cs a.0 a.1 in
      fill-some (sort_by larger frees) [] (omega arith) (omega (arith, total-sort_by frees))

-- The racks at a site that an order may get.
module _ (s : Store) (nodes : Dict NodeInstance) (key : String) (tenant : Option Tenant)
    (site : String) where
  abbrev free_in : ScalableUnit → ℕ
  free_in su =
      if is_offered s nodes key tenant su && site_of s su == site
      then length (select (rack_sellable nodes) (racks_of_su su.id s))
      else 0

  abbrev pub free_at : List ScalableUnit → ℕ
  free_at [] = 0
  free_at (su ∷ sus) = free_in su + free_at sus

  pool_at-pools :
      (sus : List ScalableUnit) → pool_at site (pools s nodes key tenant sus) ≡ free_at sus
  unfolding pool_at
  pool_at-pools [] = refl
  pool_at-pools (su ∷ sus) = elim (Bool-cases (is_offered s nodes key tenant su)) [
    | inl y ↦ elim (Bool-cases (site_of s su == site)) [
      | inl z ↦ rw y (rw z (omega (arith, pool_at-pools sus)))
      | inr m ↦ rw y (rw m (omega (arith, pool_at-pools sus)))
    ]
    | inr n ↦ rw n (omega (arith, pool_at-pools sus))
  ]

  free_at-sort_by : (sus : List ScalableUnit) → free_at (sort_by su_before sus) ≡ free_at sus
  free_at-sort_by sus =
      sums (sort_by su_before sus) ∙ sum_by-sort_by su_before free_in sus ∙ sym (sums sus)
    where
      sums : (sus : List ScalableUnit) → free_at sus ≡ sum_by su_before free_in sus
      sums [] = refl
      sums (su ∷ sus) = ap (λ n. free_in su + n) (sums sus)

best_fit-some :
    (count : ℕ) (all : List Pool) (fits : List Pool) (site : String)
    → 0 < count
    → count ≤ pool_at site all
    → is_some (best_fit count all fits) ≡ true
best_fit-some count all (p ∷ ps) site pos h = refl
best_fit-some count all [] site pos h = elim (Option-cases (get site groups)) [
  | inl e ↦ absurd (
      nothing (total (group site groups)) (ap (λ o. total (or_else o [])) e)
        (total-by_site site all []))
  | inr (frees, e) ↦
      let enough : count ≤ total frees =
        omega (arith, total-by_site site all [], ap (λ o. total (or_else o [])) e, none_before) in
      let (c, cs, f) = candidates-cons count site groups frees e enough in
      let each = subst (All (λ (c : ℕ × String). count ≤ total (group c.1 groups))) f (
        candidates-enough count groups groups
          (IsDict-AreEntries groups (by_site-IsDict all [] tt))) in
      rw f (spill-some count groups c cs pos each)
]
  where
    groups : Groups
    groups = by_site all []

    none_before : total (group site []) ≡ 0
    none_before = unfold get in refl

    nothing : (n : ℕ) → n ≡ 0 → n ≡ total (group site []) + pool_at site all → ⊥
    nothing n e g = absurd (omega (arith, none_before))

-- An order for at least one rack gets its racks whenever some one site has as many that it may get.
pub select_racks-total :
    (s : Store) (nodes : Dict NodeInstance) (key : String) (count : ℕ) (tenant : Option Tenant)
    (site : String)
    → 0 < count
    → count ≤ free_at s nodes key tenant site (values s.sus)
    → is_some (select_racks s nodes key count tenant) ≡ true
unfolding select_racks
select_racks-total s nodes key count tenant site pos h =
    let sus = sort_by su_before (values s.sus) in
    best_fit-some count (pools s nodes key tenant sus) _ site pos (
      omega (
        arith,
        pool_at-pools s nodes key tenant site sus,
        free_at-sort_by s nodes key tenant site (values s.sus),
      ))
