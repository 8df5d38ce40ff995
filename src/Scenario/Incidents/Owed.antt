-- ===== src/Scenario/Incidents/Owed.antt =====
-- app/scenario_api.py: the reports that are there and those that there have to be.
use neo_cloud_control_plane.Prelude.{
  ℕ, ◌+◌, ◌<◌, String, ◌+++◌, ◌≡◌, refl, sym, ◌∙◌, subst, arith, false, Option, none, some, List,
  [], ◌∷◌, ◌==◌, if◌then◌else◌, or_else, any, Bool-cases, inl, inr, eq_iff,
}
use neo_cloud_control_plane.Prelude.Decimal.{decimal, id_inj}
use neo_cloud_control_plane.Prelude.Exec.{Result, ok, err}
use neo_cloud_control_plane.Prelude.Triples.{After}
use neo_cloud_control_plane.Dict.{Dict, get, put, values}
use neo_cloud_control_plane.Dict.Laws.{get-put, Entries}
use neo_cloud_control_plane.Tenancy.{Store}
use neo_cloud_control_plane.Scenario.Incidents.{Incident, Rca, Desk, is_major, is_rca_of, new_rca}

abbrev pub counter : String → Store → ℕ
counter name s = or_else (get name s.counters) 0

-- the ids that a counter will give out are not in use
abbrev pub Unused {ℓ} : {V : Type ℓ} → String → ℕ → Dict V → Type ℓ
Unused prefix n d = (m : ℕ) → n < m → get (prefix +++ decimal m) d ≡ none

pub Unused-put :
    {V : Type 0} (prefix : String) (n : ℕ) (v : V) (d : Dict V)
    → Unused prefix n d
    → Unused prefix (n + 1) (put (prefix +++ decimal (n + 1)) v d)
Unused-put prefix n v d u m l =
    elim (Bool-cases ((prefix +++ decimal (n + 1)) == (prefix +++ decimal m))) [
      | inl y ↦ absurd (
          omega (
            arith,
            l,
            id_inj prefix (n + 1) m
                ((eq_iff (prefix +++ decimal (n + 1)) (prefix +++ decimal m)).0 y),
          ))
      | inr f ↦ rw get-put (rw f (u m (omega (arith, l))))
    ]

pub Unused-kept :
    {V : Type 0} (prefix : String) (n : ℕ) (k : String) (v w : V) (d : Dict V)
    → get k d ≡ some v
    → Unused prefix n d
    → Unused prefix n (put k w d)
Unused-kept prefix n k v w d e u m l = elim (Bool-cases (k == (prefix +++ decimal m))) [
  | inl y ↦ absurd (
      clash (sym (u m l) ∙ subst (λ j. get j d ≡ some v) ((eq_iff k (prefix +++ decimal m)).0 y) e))
  | inr f ↦ rw get-put (rw f (u m l))
]
  where
    clash : none ≡ some v → ⊥
    clash q = cc

pub told : {S A : Type 0} (Q : S → Type 0) (r : Result A × S) → Q r.1 → After (λ a. Q) Q r
told Q (ok a, s) h = h
told Q (err c, s) h = h

module _ {N : Type 0} where
  -- the number of reports on an incident, and the number that there has to be
  abbrev pub count_rcas : String → List (Rca N) → ℕ
  count_rcas iid [] = 0
  count_rcas iid (r ∷ rs) = (if is_rca_of iid r then 1 else 0) + count_rcas iid rs

  abbrev pub due : Option (Incident N) → ℕ
  due none = 0
  due (some i) = if i.is_resolved then (if is_major i.severity then 1 else 0) else 0

  pub record IsSortedOut (d : Desk N) : Type 0 where
    pub named : Entries (λ iid i. i.id ≡ iid) d.incidents
    pub new_incidents : Unused "inc-" (counter "incident" d.store) d.incidents
    pub new_rcas : Unused "rca-" (counter "rca" d.store) d.rcas
    pub published : (iid : String) → count_rcas iid (values d.rcas) ≡ due (get iid d.incidents)

  pub count-put :
      (iid k : String) (r : Rca N) (d : Dict (Rca N))
      → get k d ≡ none
      → count_rcas iid (values (put k r d))
        ≡ count_rcas iid (values d) + (if is_rca_of iid r then 1 else 0)
  unfolding get put
  count-put iid k r [] e = omega arith
  count-put iid k r ((j, s) ∷ d) e = elim (Bool-cases (j == k)) [
    | inl y ↦ absurd (clash (rw y at e))
    | inr n ↦ rw n (omega (arith, count-put iid k r d (rw n at e)))
  ]
    where
      clash : some s ≡ none → ⊥
      clash q = cc

  pub any-count :
      (iid : String) (rs : List (Rca N)) → count_rcas iid rs ≡ 0 → any (is_rca_of iid) rs ≡ false
  any-count iid [] e = refl
  any-count iid (r ∷ rs) e = ground (arith, e, any-count iid rs)

  -- a report is due on one incident, and there is none yet
  pub record IsDue (inc : Incident N) (d : Desk N) : Type 0 where
    pub named : Entries (λ iid i. i.id ≡ iid) d.incidents
    pub new_incidents : Unused "inc-" (counter "incident" d.store) d.incidents
    pub new_rcas : Unused "rca-" (counter "rca" d.store) d.rcas
    pub others :
        (iid : String)
        → (inc.id == iid) ≡ false
        → count_rcas iid (values d.rcas) ≡ due (get iid d.incidents)
    pub missing : count_rcas inc.id (values d.rcas) ≡ 0
    pub owed : due (get inc.id d.incidents) ≡ 1

  pub counted :
      (inc : Incident N) (d : Desk N)
      → IsDue inc d
      → (k at : String) → get k d.rcas ≡ none
      → (iid : String)
      → count_rcas iid (values (put k (new_rca k at inc) d.rcas)) ≡ due (get iid d.incidents)
  counted inc d h k at e iid = elim (Bool-cases (inc.id == iid)) [
    | inl y ↦ rw (count-put iid k (new_rca k at inc) d.rcas e) (
        rw y (
          subst (λ j. count_rcas j (values d.rcas) + 1 ≡ due (get j d.incidents))
            ((eq_iff inc.id iid).0 y) (omega (arith, h.missing, h.owed))))
    | inr n ↦
        rw (count-put iid k (new_rca k at inc) d.rcas e) (rw n (omega (arith, h.others iid n)))
  ]
