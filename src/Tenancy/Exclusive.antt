-- ===== src/Tenancy/Exclusive.antt =====
-- app/tenancy.py: which allocation a rack belongs to, through create_allocation.
use neo_cloud_control_plane.Prelude.{
  ℕ, String, ◌≡◌, ◌≢◌, refl, ap, sym, ◌∙◌, subst, Bool, true, false, not, Option, none, some, List,
  [], ◌∷◌, ◌==◌, eq_iff, arith, if◌then◌else◌, contains, is_some, or_else, ◌⊎◌, inl, inr,
  Bool-cases,
}
use neo_cloud_control_plane.Prelude.Exec.{
  Exec, Result, ok, err, continue, require_rule, or_raise_rule, ◌>>=◌,
}
use neo_cloud_control_plane.Dict.{Dict, get, put, values, update}
use neo_cloud_control_plane.Dict.Laws.{get-put}
use neo_cloud_control_plane.Tenancy.{
  Store, Allocation, ScalableUnit, AllocationScope, scalable_unit, hac, rack_set, DpuMode,
  allocation_for_rack, first_with, next_seq, default_dpu_mode, Gpu, Dpu, Tray, Rack, allocated,
  trays_of_rack,
}
use neo_cloud_control_plane.Tenancy.Partitions.{all_in_at}
use neo_cloud_control_plane.Tenancy.Racks.{
  AllocationCreate, all_in, listed_racks, in_su, target_racks, unallocated, may_stand, bind_rack,
  bind_racks, create_allocation, set_trays, set_gpus, set_dpu,
}

-- No rack is in two allocations.
pub record IsExclusive (s : Store) : Type 0 where
  pub apart :
      (a b : String) (x y : Allocation) (r : String)
      → get a s.allocations ≡ some x
      → get b s.allocations ≡ some y
      → a ≢ b
      → contains x.rack_ids r ≡ true
      → contains y.rack_ids r ≡ false

-- a rack of an allocation has one
held :
    (r b : String) (y : Allocation) (d : Dict Allocation)
    → get b d ≡ some y
    → contains y.rack_ids r ≡ true
    → is_some (first_with r (values d)) ≡ true
unfolding get
held r b y [] e c = absurd (ground arith)
held r b y ((j, z) ∷ d) e c = elim (Bool-cases (j == b)) [
  | inl t ↦ first z y d (rw t at e) c
  | inr f ↦ or_rest (contains z.rack_ids r) z (first_with r (values d)) (held r b y d (rw f at e) c)
]
  where
    first :
        (z y : Allocation) (d : Dict Allocation)
        → some z ≡ some y
        → contains y.rack_ids r ≡ true
        → is_some (first_with r (z ∷ values d)) ≡ true
    first z y d e c =
        let same : z ≡ y = cc in rw (ap (λ (x : Allocation). contains x.rack_ids r) same, c) refl

    or_rest :
        (p : Bool) (z : Allocation) (o : Option Allocation)
        → is_some o ≡ true
        → is_some (if p then some z else o) ≡ true
    or_rest true z o h = refl
    or_rest false z o h = h

-- What follows a call of which `Q` holds when it ends.
bind_rule :
    {A B : Type 0} (P : Result B × Store → Type 0) (Q : Store → Type 0) (m : Exec Store A)
    (k : A → Exec Store B) (s : Store)
    → Q (m s).1
    → ((c : ℕ) (s' : Store) → Q s' → P (err c, s'))
    → ((a : A) (s' : Store) → Q s' → P (k a s'))
    → P ((m >>= k) s)
bind_rule {A} {B} P Q m k s q refused given = after (m s).0 (m s).1 q
  where
    after : (r : Result A) (s' : Store) → Q s' → P (continue r k s')
    after (ok a) s' q = given a s' q
    after (err c) s' q = refused c s' q

-- the allocations of `s`
abbrev Kept : Store → Store → Type 0
Kept s s' = s'.allocations ≡ s.allocations

Kept-set_gpus : (f : Gpu → Gpu) (gids : List String) (s : Store) → Kept s (set_gpus f gids s)
Kept-set_gpus f [] s = refl
Kept-set_gpus f (g ∷ gs) s = Kept-set_gpus f gs (record s { gpus = update g f s.gpus })

Kept-set_dpu : (f : Dpu → Dpu) (d : Option String) (s : Store) → Kept s (set_dpu f d s)
Kept-set_dpu f none s = refl
Kept-set_dpu f (some d) s = refl

Kept-set_trays :
    (t : Option String) (fd : Dpu → Dpu) (fg : Gpu → Gpu) (trays : List Tray) (s : Store)
    → Kept s (set_trays t fd fg trays s)
unfolding set_trays
Kept-set_trays t fd fg [] s = refl
Kept-set_trays t fd fg (tray ∷ trays) s =
    Kept-set_trays t fd fg trays _ ∙ Kept-set_gpus fg tray.gpu_ids _ ∙ Kept-set_dpu fd tray.dpu_id _

Kept-bind_rack :
    (r tenant : String) (mode : DpuMode) (s : Store) → Kept s (bind_rack r tenant mode s).1
unfolding bind_rack
Kept-bind_rack r tenant mode s =
    or_raise_rule (λ q. Kept s q.1) (get r s.racks) 500 _ s refl
      λ rack e.
        let rack' : Rack = record rack { tenant_id = some tenant; state = allocated } in
        let s' : Store = record s { racks = put r rack' s.racks } in
        Kept-set_trays (some tenant) (λ d. record d { tenant_id = some tenant; mode = mode })
          (λ g. record g { tenant_id = some tenant; state = allocated }) (trays_of_rack r s') s'

Kept-bind_racks :
    (rs : List String) (tenant : String) (mode : DpuMode) (s : Store)
    → Kept s (bind_racks rs tenant mode s).1
unfolding bind_racks
Kept-bind_racks [] tenant mode s = refl
Kept-bind_racks (r ∷ rs) tenant mode s =
    bind_rule (λ q. Kept s q.1) (Kept s) (bind_rack r tenant mode) _ s
      (Kept-bind_rack r tenant mode s) (λ c s' kept. kept)
      (λ u s' kept. Kept-bind_racks rs tenant mode s' ∙ kept)

state-listed_racks : (o : Option (List String)) (s : Store) → (listed_racks o s).1 ≡ s
state-listed_racks none s = refl
state-listed_racks (some []) s = refl
state-listed_racks (some (r ∷ rs)) s = refl

state-target_racks :
    (body : AllocationCreate) (su : ScalableUnit) (scope : AllocationScope) (s : Store)
    → (target_racks body su scope s).1 ≡ s
state-target_racks body su scalable_unit s = refl
state-target_racks body su hac s = refl
state-target_racks body su rack_set s =
    bind_rule (λ q. q.1 ≡ s) (λ s'. s' ≡ s) (listed_racks body.rack_ids) _ s
      (state-listed_racks body.rack_ids s) (λ c s' e. e)
      (λ rs s' e. require_rule (λ q. q.1 ≡ s) (all_in (in_su su s'.racks) rs) 422 _ s' e (λ t. e))

-- One more allocation, of racks that no other has.
placed_lem :
    (k : String) (new : Allocation) (s s' : Store)
    → IsExclusive s
    → s'.allocations ≡ put k new s.allocations
    → unallocated s new.rack_ids ≡ true
    → IsExclusive s'
unfolding allocation_for_rack
placed_lem k new s s' w e free = record {
  apart = λ a b x y r ea eb ne inx.
      placed a b x y r (at_key a x ea) (at_key b y eb) ne inx (Bool-cases (k == a))
        (Bool-cases (k == b));
}
  where
    at_key :
        (j : String) (x : Allocation)
        → get j s'.allocations ≡ some x
        → (if k == j then some new else get j s.allocations) ≡ some x
    at_key j x ex = sym (get-put k j new s.allocations) ∙ sym (ap (get j) e) ∙ ex

    same : (x y : Allocation) → some x ≡ some y → x ≡ y
    same x y e = cc

    not_both : (b : Bool) → not b ≡ true → b ≡ true → ⊥
    not_both b h j = cc

    -- a rack of the new allocation is in no other
    clear :
        (b : String) (y : Allocation) (r : String)
        → get b s.allocations ≡ some y
        → contains new.rack_ids r ≡ true
        → contains y.rack_ids r ≡ true
        → ⊥
    clear b y r eb inn iny =
        not_both _ (all_in_at _ new.rack_ids r free inn) (held r b y s.allocations eb iny)

    no_rack : (b : Bool) → (b ≡ true → ⊥) → b ≡ false
    no_rack true h = absurd (h refl)
    no_rack false h = refl

    placed :
        (a b : String) (x y : Allocation) (r : String)
        → (if k == a then some new else get a s.allocations) ≡ some x
        → (if k == b then some new else get b s.allocations) ≡ some y
        → a ≢ b
        → contains x.rack_ids r ≡ true
        → ((k == a) ≡ true) ⊎ ((k == a) ≡ false)
        → ((k == b) ≡ true) ⊎ ((k == b) ≡ false)
        → contains y.rack_ids r ≡ false
    placed a b x y r ea eb ne inx (inl ya) (inl yb) =
        absurd (ne (sym ((eq_iff k a).0 ya) ∙ (eq_iff k b).0 yb))
    placed a b x y r ea eb ne inx (inl ya) (inr fb) =
        let is_new : new ≡ x = same new x (rw ya at ea) in
        no_rack _ (
          clear b y r (rw fb at eb)
            (subst (λ (z : Allocation). contains z.rack_ids r ≡ true) (sym is_new) inx))
    placed a b x y r ea eb ne inx (inr fa) (inl yb) =
        let is_new : new ≡ y = same new y (rw yb at eb) in
        no_rack _ (λ iny.
          clear a x r (rw fa at ea)
            (subst (λ (z : Allocation). contains z.rack_ids r ≡ true) (sym is_new) iny) inx)
    placed a b x y r ea eb ne inx (inr fa) (inr fb) =
        w.apart a b x y r (rw fa at ea) (rw fb at eb) ne inx

same_allocations : (s s' : Store) → IsExclusive s → Kept s s' → IsExclusive s'
same_allocations s s' w kept = record {
  apart = λ a b x y r ea eb ne inx.
      w.apart a b x y r (ap (get a) (sym kept) ∙ ea) (ap (get b) (sym kept) ∙ eb) ne inx;
}

-- Whatever comes of an allocation, no rack is in two allocations if none was before.
pub create_allocation-IsExclusive :
    (body : AllocationCreate) (s : Store) → IsExclusive s → IsExclusive (create_allocation body s).1
unfolding create_allocation next_seq
create_allocation-IsExclusive body s w =
    or_raise_rule P (get body.tenant_id s.tenants) 404 _ s w λ tenant et.
      or_raise_rule P (get body.su_id s.sus) 404 _ s w λ su es.
        bind_rule P (λ s'. s' ≡ s) (target_racks body su body.scope) _ s
          (state-target_racks body su body.scope s) (λ c s' e. subst IsExclusive (sym e) w)
          λ rs s' e.
            let w' : IsExclusive s' = subst IsExclusive (sym e) w in
            require_rule P (unallocated s' rs) 409 _ s' w' λ free.
              require_rule P (may_stand tenant su rs s') 409 _ s' w' λ apart.
                bind_rule P (Kept s')
                  (bind_racks rs tenant.id
                    (or_else body.dpu_mode (default_dpu_mode tenant.isolation_tier)))
                  _ (next_seq "alloc" s').1
                  (Kept-bind_racks rs tenant.id
                    (or_else body.dpu_mode (default_dpu_mode tenant.isolation_tier))
                    (next_seq "alloc" s').1)
                  (λ c s₂ kept. same_allocations s' s₂ w' kept)
                  λ u s₂ kept. placed_lem _ _ s' _ w' (ap (put _ _) kept) free
  where
    P : Result Allocation × Store → Type 0
    P r = IsExclusive r.1
