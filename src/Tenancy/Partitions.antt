-- ===== src/Tenancy/Partitions.antt =====
-- app/tenancy.py: NVLink partitions.
use neo_cloud_control_plane.Prelude.{
  ◌+◌, String, ◌+++◌, ◌≡◌, ◌≢◌, refl, ap, sym, ◌∙◌, subst, Bool, true, false, not, ◌||◌, Option,
  none, some, List, [], ◌∷◌, ◌++◌, ◌==◌, if◌then◌else◌, arith, select, contains, is_text, length,
  contains-append_left, contains-append_right, ◌⊎◌, eq_iff, Bool-cases, inl, inr,
}
use neo_cloud_control_plane.Prelude.Decimal.{decimal}
use neo_cloud_control_plane.Prelude.Exec.{
  Exec, or_raise, require, gets, modify, pure, require_rule, or_raise_rule, ◌>>=◌, ◌>>◌,
}
use neo_cloud_control_plane.Dict.{Dict, get, put, has, values}
use neo_cloud_control_plane.Dict.Laws.{get-put}
use neo_cloud_control_plane.Tenancy.{Store, Partition, partitions_of_rack}
use neo_cloud_control_plane.Tenancy.Racks.{all_in}

pub record PartitionCreate : Type 0 where
  pub rack_id : String
  pub tenant_id : String
  pub tray_ids : List String

-- `{t for p in … for t in p.tray_ids}`
abbrev pub claimed : List Partition → List String
claimed [] = []
claimed (p ∷ ps) = p.tray_ids ++ claimed ps

unfoldable pub create_partition : PartitionCreate → Exec Store Partition
unfolding partitions_of_rack
create_partition body = do
  found ← gets (λ s. get body.rack_id s.racks)
  rack ← or_raise found 404
  known ← gets (λ s. has body.tenant_id s.tenants)
  require known 404
  require (is_text rack.tenant_id body.tenant_id) 409
  require (all_in (contains rack.tray_ids) body.tray_ids) 422
  there ← gets (partitions_of_rack rack.id)
  require (all_in (λ t. not (contains (claimed there) t)) body.tray_ids) 409
  let pno = length there + 1
  let pid = rack.id +++ ("-part-" +++ decimal pno)
  let part : Partition = record {
    id = pid;
    rack_id = rack.id;
    partition_id = pno;
    tray_ids = body.tray_ids;
    tenant_id = body.tenant_id;
  }
  modify (λ s. record s { partitions = put pid part s.partitions })
  pure part

-- an empty filter text filters nothing
abbrev by_text : Option String → String → Bool
by_text none t = true
by_text (some f) t = f == "" || t == f

unfoldable pub list_partitions : Option String → Option String → Store → List Partition
list_partitions rack_id tenant_id s =
    select (λ (p : Partition). by_text tenant_id p.tenant_id)
      (select (λ (p : Partition). by_text rack_id p.rack_id) (values s.partitions))

-- No tray is in two partitions of one rack.
pub record IsSplit (s : Store) : Type 0 where
  pub apart :
      (a b : String) (p q : Partition) (t : String)
      → get a s.partitions ≡ some p
      → get b s.partitions ≡ some q
      → a ≢ b
      → p.rack_id ≡ q.rack_id
      → contains p.tray_ids t ≡ true
      → contains q.tray_ids t ≡ false

pub all_in_at :
    (f : String → Bool) (xs : List String) (t : String)
    → all_in f xs ≡ true
    → contains xs t ≡ true
    → f t ≡ true
all_in_at f [] t h c = absurd (ground arith)
all_in_at f (x ∷ xs) t h c = elim (Bool-cases (x == t)) [
  | inl y ↦ subst (λ z. f z ≡ true) ((eq_iff x t).0 y) (ground arith)
  | inr n ↦ all_in_at f xs t (ground arith) (ground arith)
]

-- the trays of a partition on a rack are claimed on it
claimed_at :
    (rid b t : String) (q : Partition) (d : Dict Partition)
    → get b d ≡ some q
    → (q.rack_id == rid) ≡ true
    → contains q.tray_ids t ≡ true
    → contains (claimed (select (λ (p : Partition). p.rack_id == rid) (values d))) t ≡ true
unfolding get
claimed_at rid b t q [] e r c = absurd (ground arith)
claimed_at rid b t q ((j, p) ∷ d) e r c = elim (Bool-cases (j == b)) [
  | inl y ↦
      let same : p ≡ q = cc (rw y at e) in
      rw (subst (λ (z : Partition). (z.rack_id == rid) ≡ true) (sym same) r) (
        contains-append_left p.tray_ids _ t
          (subst (λ (z : Partition). contains z.tray_ids t ≡ true) (sym same) c))
  | inr n ↦
      let rest = claimed_at rid b t q d (rw n at e) r c in
      elim (Bool-cases (p.rack_id == rid)) [
        | inl y ↦ rw y (contains-append_right p.tray_ids _ t rest)
        | inr f ↦ rw f rest
      ]
]

-- `parts` with one more partition, on trays of its rack that none there claims
placed_IsSplit :
    (pid : String) (part : Partition) (s s' : Store)
    → IsSplit s
    → s'.partitions ≡ put pid part s.partitions
    → all_in
        (λ t. not (
          contains
            (claimed (select (λ (p : Partition). p.rack_id == part.rack_id) (values s.partitions)))
            t))
        part.tray_ids
      ≡ true
    → IsSplit s'
placed_IsSplit pid part s s' split e free = record {
  apart = λ a b p q t ea eb ne rack inp.
      placed a b p q t (at_key a p ea) (at_key b q eb) ne rack inp (Bool-cases (pid == a))
        (Bool-cases (pid == b));
}
  where
    at_key :
        (k : String) (p : Partition)
        → get k s'.partitions ≡ some p
        → (if pid == k then some part else get k s.partitions) ≡ some p
    at_key k p ep = sym (get-put pid k part s.partitions) ∙ sym (ap (get k) e) ∙ ep

    same : (p q : Partition) → some p ≡ some q → p ≡ q
    same p q e = cc

    not_both : (b : Bool) → not b ≡ true → b ≡ true → ⊥
    not_both b h k = cc

    -- a tray of the new partition is in no other on the rack
    clear :
        (b : String) (q : Partition) (t : String)
        → get b s.partitions ≡ some q
        → part.rack_id ≡ q.rack_id
        → contains part.tray_ids t ≡ true
        → contains q.tray_ids t ≡ true
        → ⊥
    clear b q t eb rack inp inq = not_both _ (all_in_at _ part.tray_ids t free inp) (
        claimed_at part.rack_id b t q s.partitions eb ((eq_iff q.rack_id part.rack_id).1 (sym rack))
          inq)

    no : (b : Bool) → (b ≡ true → ⊥) → b ≡ false
    no true h = absurd (h refl)
    no false h = refl

    placed :
        (a b : String) (p q : Partition) (t : String)
        → (if pid == a then some part else get a s.partitions) ≡ some p
        → (if pid == b then some part else get b s.partitions) ≡ some q
        → a ≢ b
        → p.rack_id ≡ q.rack_id
        → contains p.tray_ids t ≡ true
        → ((pid == a) ≡ true) ⊎ ((pid == a) ≡ false)
        → ((pid == b) ≡ true) ⊎ ((pid == b) ≡ false)
        → contains q.tray_ids t ≡ false
    placed a b p q t ea eb ne rack inp (inl ya) (inl yb) =
        absurd (ne (sym ((eq_iff pid a).0 ya) ∙ (eq_iff pid b).0 yb))
    placed a b p q t ea eb ne rack inp (inl ya) (inr fb) =
        let new : part ≡ p = same part p (rw ya at ea) in
        no _ (
          clear b q t (rw fb at eb) (ap (λ (z : Partition). z.rack_id) new ∙ rack)
            (subst (λ (z : Partition). contains z.tray_ids t ≡ true) (sym new) inp))
    placed a b p q t ea eb ne rack inp (inr fa) (inl yb) =
        let new : part ≡ q = same part q (rw yb at eb) in
        no _ (λ inq.
          clear a p t (rw fa at ea) (ap (λ (z : Partition). z.rack_id) new ∙ sym rack)
            (subst (λ (z : Partition). contains z.tray_ids t ≡ true) (sym new) inq) inp)
    placed a b p q t ea eb ne rack inp (inr fa) (inr fb) =
        split.apart a b p q t (rw fa at ea) (rw fb at eb) ne rack inp

-- Whatever comes of a creation, no tray is in two partitions of one rack if none was before.
pub create_partition-IsSplit :
    (body : PartitionCreate) (s : Store) → IsSplit s → IsSplit (create_partition body s).1
unfolding create_partition
create_partition-IsSplit body s split =
    or_raise_rule (λ r. IsSplit r.1) (get body.rack_id s.racks) 404 _ s split
      λ rack e.
        require_rule (λ r. IsSplit r.1) (has body.tenant_id s.tenants) 404 _ s split
          λ k.
            require_rule (λ r. IsSplit r.1) (is_text rack.tenant_id body.tenant_id) 409 _ s split
              λ o.
                require_rule (λ r. IsSplit r.1) (all_in (contains rack.tray_ids) body.tray_ids) 422
                  _ s split
                  λ i.
                    require_rule (λ r. IsSplit r.1)
                      (all_in (λ t. not (contains (claimed (partitions_of_rack rack.id s)) t))
                        body.tray_ids)
                      409 _ s split λ free. placed_IsSplit _ _ s _ split refl free
