-- ===== src/Tenancy/Vni.antt =====
-- app/tenancy.py: _alloc_vni, and the VNI pools of app/spec.py.
use neo_cloud_control_plane.Prelude.{
  ℕ, zero, suc, ◌+◌, ◌-◌, ◌*◌, ◌≤◌, ◌<◌, ◌≡◌, ◌≢◌, refl, ap, sym, ◌∙◌, subst, Bool, true, false,
  ◌||◌, ◌⊎◌, inl, inr, Option, none, some, List, [], ◌∷◌, arith, eqb, if◌then◌else◌, length,
}
use neo_cloud_control_plane.Prelude.Exec.{Exec, Result, ok, err, or_raise, gets, continue, ◌>>=◌}
use neo_cloud_control_plane.Dict.{values}
use neo_cloud_control_plane.Tenancy.{Store, NetworkIsolation}

pub data Fabric : Type 0 where
  compute converged oob : Fabric

-- VNI_RANGES
abbrev pub low : Fabric → ℕ
low compute = 10000
low converged = 20000
low oob = 30000

abbrev pub high : Fabric → ℕ
high compute = 19999
high converged = 29999
high oob = 39999

-- `used`: every VNI of every binding
abbrev pub vnis : NetworkIsolation → List ℕ
vnis ni = ni.compute_l3vni ∷ ni.converged_vni ∷ ni.oob_vni ∷ []

abbrev pub used_vnis : List NetworkIsolation → List ℕ
used_vnis [] = []
used_vnis (ni ∷ rest) = ni.compute_l3vni ∷ ni.converged_vni ∷ ni.oob_vni ∷ used_vnis rest

abbrev pub uses : List ℕ → ℕ → Bool
uses [] v = false
uses (u ∷ us) v = eqb u v || uses us v

-- `for vni in range(lo, hi + 1)`: `rounds` counts the values left
first_free : List ℕ → ℕ → ℕ → Option ℕ
first_free used zero vni = none
first_free used (suc rounds) vni =
    let rest = first_free used rounds (vni + 1) in if uses used vni then rest else some vni

unfoldable pub alloc_vni : Fabric → Exec Store ℕ
unfolding first_free
alloc_vni fabric = do
  used ← gets (λ s. used_vnis (values s.netiso))
  or_raise (first_free used (high fabric + 1 - low fabric) (low fabric)) 507

-- Found: in the range, free, and the least such. Not found: all of the range is used.
first_free-some :
    (used : List ℕ) (rounds vni v : ℕ)
    → first_free used rounds vni ≡ some v
    → (vni ≤ v) × (v < vni + rounds) × (uses used v ≡ false)
unfolding first_free
first_free-some used zero vni v e = absurd (ground arith)
first_free-some used (suc rounds) vni v e = ground (arith, first_free-some used rounds (vni + 1) v)

uses_at : (used : List ℕ) (a b : ℕ) → a ≡ b → uses used a ≡ true → uses used b ≡ true
uses_at used a b e h = rw e at h

first_free-none :
    (used : List ℕ) (rounds vni v : ℕ)
    → first_free used rounds vni ≡ none
    → vni ≤ v
    → v < vni + rounds
    → uses used v ≡ true
unfolding first_free
first_free-none used zero vni v e l h = absurd (omega arith)
first_free-none used (suc rounds) vni v e l h =
    ground (arith, first_free-none used rounds (vni + 1) v, uses_at used vni v)

without : ℕ → List ℕ → List ℕ
without v [] = []
without v (u ∷ us) = let rest = without v us in if eqb u v then rest else u ∷ rest

uses-without : (v w : ℕ) (us : List ℕ) → v ≢ w → uses (without v us) w ≡ uses us w
unfolding without
uses-without v w [] h = refl
uses-without v w (u ∷ us) h = ground (arith, uses-without v w us h)

length-without : (v : ℕ) (us : List ℕ) → length (without v us) ≤ length us
unfolding without
length-without v [] = omega arith
length-without v (u ∷ us) = ground (arith, length-without v us)

length-without_used : (v : ℕ) (us : List ℕ) → uses us v ≡ true → length (without v us) < length us
unfolding without
length-without_used v [] h = absurd (ground arith)
length-without_used v (u ∷ us) h = ground (arith, length-without_used v us, length-without v us)

-- As many values as are all used, there are entries.
pigeonhole :
    (rounds vni : ℕ) (us : List ℕ)
    → ((v : ℕ) → vni ≤ v → v < vni + rounds → uses us v ≡ true)
    → rounds ≤ length us
pigeonhole zero vni us h = omega arith
pigeonhole (suc rounds) vni us h =
    let less = length-without_used vni us (h vni (omega arith) (omega arith)) in
    let rest =
      pigeonhole rounds (vni + 1) (without vni us)
        (λ v l r. rw (uses-without vni v us (omega arith)) (h v (omega arith) (omega arith))) in
    omega arith

length-used_vnis : (nis : List NetworkIsolation) → length (used_vnis nis) ≡ 3 * length nis
length-used_vnis [] = omega arith
length-used_vnis (ni ∷ nis) = omega (arith, length-used_vnis nis)

pool_size : (f : Fabric) → high f + 1 - low f ≡ 10000
pool_size compute = refl
pool_size converged = refl
pool_size oob = refl

range : (f : Fabric) → low f + 9999 ≡ high f
range compute = refl
range converged = refl
range oob = refl

same_state : {A : Type 0} (o : Option A) (s : Store) → (or_raise o 507 s).1 ≡ s
same_state none s = refl
same_state (some a) s = refl

-- What `alloc_vni` gives: a VNI of the fabric's range that no tenant uses in any fabric, or 507, and
-- then every VNI of the range is used. The store stays as it is.
abbrev pub Allocated : Fabric → Store → Result ℕ → Type 0
Allocated f s (ok v) = (low f ≤ v) × (v ≤ high f) × (uses (used_vnis (values s.netiso)) v ≡ false)
Allocated f s (err c) =
    (c ≡ 507) × ((v : ℕ) → low f ≤ v → v ≤ high f → uses (used_vnis (values s.netiso)) v ≡ true)

Allocated-or_raise :
    (f : Fabric) (s : Store) (o : Option ℕ)
    → first_free (used_vnis (values s.netiso)) (high f + 1 - low f) (low f) ≡ o
    → Allocated f s (or_raise {S = Store} o 507 s).0
Allocated-or_raise f s (some v) e =
    let b = first_free-some (used_vnis (values s.netiso)) (high f + 1 - low f) (low f) v e in
    let p = pool_size f in (b.0, omega (arith, range f), b.2)
Allocated-or_raise f s none e = (
  refl,
  λ v l h.
      first_free-none (used_vnis (values s.netiso)) (high f + 1 - low f) (low f) v e l
        (omega (arith, pool_size f, range f)),
)

-- A VNI that is handed out is in its fabric's range and used by no tenant in any fabric; a refusal is
-- 507 and means that all of the range is used; the store is not changed by either.
pub alloc_vni-Allocated :
    (f : Fabric) (s : Store) → Allocated f s (alloc_vni f s).0 × ((alloc_vni f s).1 ≡ s)
unfolding alloc_vni
alloc_vni-Allocated f s = (
  Allocated-or_raise f s (first_free (used_vnis (values s.netiso)) (high f + 1 - low f) (low f))
      refl,
  same_state _ s,
)

-- With fewer than 3,334 bindings a VNI is found in each fabric.
pub alloc_vni-total :
    (f : Fabric) (s : Store)
    → length (values s.netiso) ≤ 3333
    → (v : ℕ) × ((alloc_vni f s).0 ≡ ok v)
alloc_vni-total f s h = found (alloc_vni f s).0 refl (alloc_vni-Allocated f s).0
  where
    found :
        (r : Result ℕ)
        → (alloc_vni f s).0 ≡ r
        → Allocated f s r
        → (v : ℕ) × ((alloc_vni f s).0 ≡ ok v)
    found (ok v) e a = (v, e)
    found (err c) e a = absurd (
        omega (
          arith,
          pigeonhole 10000 (low f) (used_vnis (values s.netiso))
              (λ v l r. a.1 v l (omega (arith, range f))),
          length-used_vnis (values s.netiso),
        ))

-- the same as a split on the call
pub alloc_vni_cases :
    (f : Fabric) (s : Store)
    → ((v : ℕ) × (alloc_vni f s ≡ (ok v, s)) × Allocated f s (ok v))
      ⊎ (alloc_vni f s ≡ (err 507, s))
unfolding alloc_vni
alloc_vni_cases f s =
    split (first_free (used_vnis (values s.netiso)) (high f + 1 - low f) (low f)) refl
  where
    split :
        (o : Option ℕ)
        → first_free (used_vnis (values s.netiso)) (high f + 1 - low f) (low f) ≡ o
        → ((v : ℕ) × (alloc_vni f s ≡ (ok v, s)) × Allocated f s (ok v))
          ⊎ (alloc_vni f s ≡ (err 507, s))
    split (some v) e = inl (
      v,
      ap (λ (t : Option ℕ). or_raise {S = Store} t 507 s) e,
      Allocated-or_raise f s (some v) e,
    )
    split none e = inr (ap (λ (t : Option ℕ). or_raise {S = Store} t 507 s) e)

-- What follows a call of `alloc_vni`: it is run with a VNI that is free, or not at all.
pub alloc_vni_bind :
    {A : Type 0} (P : Result A × Store → Type 0) (f : Fabric) (s : Store) (k : ℕ → Exec Store A)
    → P (err 507, s)
    → ((v : ℕ) → low f ≤ v → v ≤ high f → uses (used_vnis (values s.netiso)) v ≡ false → P (k v s))
    → P ((alloc_vni f >>= k) s)
alloc_vni_bind {A} P f s k refused given = elim (alloc_vni_cases f s) [
  | inl (v, e, a) ↦
      subst (λ (q : Result ℕ × Store). P (continue q.0 k q.1)) (sym e) (given v a.0 a.1 a.2)
  | inr e ↦ subst (λ (q : Result ℕ × Store). P (continue q.0 k q.1)) (sym e) refused
]

-- the same with room for one more binding: it is run
pub alloc_vni_bind_room :
    {A : Type 0} (P : Result A × Store → Type 0) (f : Fabric) (s : Store) (k : ℕ → Exec Store A)
    → length (values s.netiso) ≤ 3333
    → ((v : ℕ) → low f ≤ v → v ≤ high f → uses (used_vnis (values s.netiso)) v ≡ false → P (k v s))
    → P ((alloc_vni f >>= k) s)
alloc_vni_bind_room {A} P f s k few given = elim (alloc_vni_cases f s) [
  | inl (v, e, a) ↦
      subst (λ (q : Result ℕ × Store). P (continue q.0 k q.1)) (sym e) (given v a.0 a.1 a.2)
  | inr e ↦
      let (v, found) = alloc_vni-total f s few in
      absurd (ok≢err v (sym found ∙ ap (λ (q : Result ℕ × Store). q.0) e))
]
  where
    ok≢err : (v : ℕ) → ok v ≢ err 507
    ok≢err v e = cc

pub alloc_vni_bind_err :
    {A : Type 0} (f : Fabric) (s : Store) (k : ℕ → Exec Store A)
    → (alloc_vni f s).0 ≡ err 507
    → (alloc_vni f >>= k) s ≡ (err 507, s)
alloc_vni_bind_err {A} f s k out = elim (alloc_vni_cases f s) [
  | inl (v, e, a) ↦ absurd (err≢ok v (sym out ∙ ap (λ (q : Result ℕ × Store). q.0) e))
  | inr e ↦ ap (λ (q : Result ℕ × Store). continue q.0 k q.1) e
]
  where
    err≢ok : (v : ℕ) → err 507 ≢ ok v
    err≢ok v e = cc
