-- ===== src/Scenario/Sla/Ledger.antt =====
-- app/scenario_api.py: the service credits and the inquiries that have been filed.
use neo_cloud_control_plane.Prelude.{
  ℕ, ◌+◌, ◌<◌, String, ◌+++◌, ◌≡◌, refl, sym, ◌∙◌, subst, arith, Option, none, some, List, [], ◌∷◌,
  ◌==◌, if◌then◌else◌, Bool-cases, inl, inr, eq_iff,
}
use neo_cloud_control_plane.Prelude.Decimal.{decimal}
use neo_cloud_control_plane.Dict.{Dict, get, put, values}
use neo_cloud_control_plane.Dict.Laws.{get-put}
use neo_cloud_control_plane.Tenancy.{next_seq}
use neo_cloud_control_plane.Scenario.Incidents.{Credit, Desk, Times}
use neo_cloud_control_plane.Scenario.Incidents.Owed.{Unused, Unused-put, counter}
use neo_cloud_control_plane.Scenario.Downtime.{Reckoning}
use neo_cloud_control_plane.Scenario.Inquiries.{InquiryBody, file_new}
use neo_cloud_control_plane.Scenario.Sla.{is_credit_for, find_credit, credit_key, credit_of}

-- the entries of one table are in the other, as they were
abbrev pub AreKept {ℓ} : {V : Type ℓ} → Dict V → Dict V → Type ℓ
AreKept {V = V} held d = (k : String) (v : V) → get k held ≡ some v → get k d ≡ some v

AreKept-put :
    {V : Type 0} (held d : Dict V) (k : String) (x : V)
    → get k d ≡ none
    → AreKept held d
    → AreKept held (put k x d)
AreKept-put held d k x fresh h j v g = elim (Bool-cases (k == j)) [
  | inl y ↦ absurd (clash (sym (subst (λ i. get i d ≡ none) ((eq_iff k j).0 y) fresh) ∙ h j v g))
  | inr f ↦ rw get-put (rw f (h j v g))
]
  where
    clash : none ≡ some v → ⊥
    clash q = cc

module _ {N : Type 0} where
  abbrev pub count_credits : String → List (Credit N) → ℕ
  count_credits key [] = 0
  count_credits key (c ∷ cs) = (if is_credit_for key c then 1 else 0) + count_credits key cs

  -- The ids of credits and inquiries to come are not in use, no key has two credits, and the credits and
  -- inquiries that were `held` are there as they were.
  pub record IsLedger (held d : Desk N) : Type 0 where
    pub new_credits : Unused "crd-" (counter "sla_credit" d.store) d.sla_credits
    pub new_inquiries : Unused "inq-" (counter "inquiry" d.store) d.inquiries
    pub single : (key : String) → count_credits key (values d.sla_credits) < 2
    pub kept_credits : AreKept held.sla_credits d.sla_credits
    pub kept_inquiries : AreKept held.inquiries d.inquiries

  find-count :
      (key : String) (cs : List (Credit N)) → find_credit key cs ≡ none → count_credits key cs ≡ 0
  find-count key [] e = refl
  find-count key (c ∷ cs) e = elim (Bool-cases (is_credit_for key c)) [
    | inl y ↦ absurd (clash (rw y at e))
    | inr n ↦ rw n (omega (arith, find-count key cs (rw n at e)))
  ]
    where
      clash : some c ≡ none → ⊥
      clash q = cc

  count-put :
      (key k : String) (x : Credit N) (d : Dict (Credit N))
      → get k d ≡ none
      → count_credits key (values (put k x d))
        ≡ count_credits key (values d) + (if is_credit_for key x then 1 else 0)
  unfolding get put
  count-put key k x [] e = omega arith
  count-put key k x ((j, y) ∷ d) e = elim (Bool-cases (j == k)) [
    | inl s ↦ absurd (clash (rw s at e))
    | inr n ↦ rw n (omega (arith, count-put key k x d (rw n at e)))
  ]
    where
      clash : some y ≡ none → ⊥
      clash q = cc

  pub filed :
      (held : Desk N) (s : Reckoning N) (tenant_id month : String) (worst : Option String)
      (avail : N) (d : Desk N)
      → find_credit (credit_key s tenant_id month) (values d.sla_credits) ≡ none
      → IsLedger held d
      → IsLedger held (credit_of s tenant_id month worst avail none d).1
  unfolding next_seq
  filed held s tenant_id month worst avail d e h = record {
    new_credits = rw get-put (Unused-put "crd-" n _ d.sla_credits h.new_credits);
    single = λ key.
        rw (count-put key new _ d.sla_credits fresh)
          (elim (Bool-cases (credit_key s tenant_id month == key)) [
            | inl y ↦ rw y (
                omega (
                  arith,
                  subst (λ k. count_credits k (values d.sla_credits) ≡ 0) ((eq_iff _ key).0 y)
                      (find-count _ (values d.sla_credits) e),
                ))
            | inr f ↦ rw f (omega (arith, h.single key))
          ]);
    new_inquiries = rw get-put h.new_inquiries;
    kept_credits = AreKept-put held.sla_credits d.sla_credits new _ fresh h.kept_credits;
    kept_inquiries = h.kept_inquiries;
  }
    where
      n : ℕ
      n = counter "sla_credit" d.store

      new : String
      new = "crd-" +++ decimal (n + 1)

      fresh : get new d.sla_credits ≡ none
      fresh = h.new_credits (n + 1) (omega arith)

  pub filed_inquiry :
      (held : Desk N) (c : Times N) (body : InquiryBody) (d : Desk N)
      → IsLedger held d
      → IsLedger held (file_new c body d).1
  unfolding next_seq
  filed_inquiry held c body d h = record {
    new_credits = rw get-put h.new_credits;
    new_inquiries = rw get-put (Unused-put "inq-" n _ d.inquiries h.new_inquiries);
    single = h.single;
    kept_credits = h.kept_credits;
    kept_inquiries =
        AreKept-put held.inquiries d.inquiries _ _ (h.new_inquiries (n + 1) (omega arith))
          h.kept_inquiries;
  }
    where
      n : ℕ
      n = counter "inquiry" d.store
