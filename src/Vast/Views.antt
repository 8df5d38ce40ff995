-- ===== src/Vast/Views.antt =====
-- app/vast_fake.py: the life of one view.
use neo_cloud_control_plane.Prelude.{
  ℕ, ◌+◌, String, ◌≡◌, refl, ap, sym, ◌∙◌, false, Option, none, some, [], ◌∷◌, ◌==◌, eq_iff,
  eq_refl, Bool-cases, Option-cases, inl, inr,
}
use neo_cloud_control_plane.Dict.{Dict, get, put, pop, has}
use neo_cloud_control_plane.Dict.Laws.{get-put, get-pop}
use neo_cloud_control_plane.Vast.{
  VastView, Vast, create_view, set_quota, set_qos, delete_view, view_of,
}

module _ {N : Type 0} where
  -- the view that a creation, a quota and a QoS policy make
  abbrev pub provisioned_view :
      ℕ → String → String → String → Option String → N → N → N → VastView N
  provisioned_view id path tenant_ref subnet allocation tb gbps iops = record {
    id = id;
    path = path;
    tenant_ref = tenant_ref;
    allocation_id = allocation;
    protocols = "NFS4" ∷ "RDMA" ∷ [];
    capacity_tb = tb;
    qos_gbps = gbps;
    qos_iops_k = iops;
    export_subnet = subnet;
    state = "active";
  }

  created_lem :
      (zero : N) (path tenant subnet : String) (allocation : Option String) (v : Vast N)
      → has path v.views ≡ false
      → (create_view zero path tenant subnet allocation v).1 ≡ record v {
        seq = v.seq + 1;
        views =
            put path
              (provisioned_view (v.seq + 1) path tenant subnet allocation zero zero zero)
              v.views;
      }
  unfolding create_view
  created_lem zero path tenant subnet allocation v free = rw (free, create_view) refl

  quota_lem :
      (path : String) (tb : N) (a : VastView N) (v : Vast N)
      → get path v.views ≡ some a
      → (set_quota path tb v).1
        ≡ record v { views = put path (record a { capacity_tb = tb }) v.views }
  unfolding set_quota view_of
  quota_lem path tb a v e = rw (e, set_quota, view_of) refl

  qos_lem :
      (path : String) (gbps iops : N) (a : VastView N) (v : Vast N)
      → get path v.views ≡ some a
      → (set_qos path gbps iops v).1
        ≡ record v { views = put path (record a { qos_gbps = gbps; qos_iops_k = iops }) v.views }
  unfolding set_qos view_of
  qos_lem path gbps iops a v e = rw (e, set_qos, view_of) refl

  views-delete_view : (path : String) (v : Vast N) → (delete_view path v).1.views ≡ pop path v.views
  unfolding delete_view
  views-delete_view path v = elim (Option-cases (get path v.views)) [
    | inl e ↦ rw (e, delete_view) refl
    | inr (a, e) ↦ rw (e, delete_view) refl
  ]

  put_here :
      (path : String) (a : VastView N) (d : Dict (VastView N)) → get path (put path a d) ≡ some a
  put_here path a d = rw (get-put, eq_refl) refl

  without :
      (path q : String) (a b c : VastView N) (d : Dict (VastView N))
      → get path d ≡ none
      → get q (pop path (put path a (put path b (put path c d)))) ≡ get q d
  without path q a b c d missing = elim (Bool-cases (path == q)) [
    | inl y ↦ rw (get-pop, y) (sym (ap (λ k. get k d) (sym ((eq_iff path q).0 y)) ∙ missing))
    | inr f ↦ rw (get-pop, f) (rw (get-put, f) (rw (get-put, f) (rw (get-put, f) refl)))
  ]

  abbrev pub provisioned :
      N → N → N → N → String → String → String → Option String → Vast N → Vast N
  provisioned zero tb gbps iops path tenant subnet allocation v =
      (set_qos path gbps iops
        (set_quota path tb (create_view zero path tenant subnet allocation v).1).1).1

  module _ (zero tb gbps iops : N) (path tenant subnet : String) (allocation : Option String)
      (v : Vast N) (free : has path v.views ≡ false) where
    missing : get path v.views ≡ none
    missing = elim (Option-cases (get path v.views)) [ inl e ↦ e | inr (a, e) ↦ absurd (there a e) ]
      where
        there : (a : VastView N) → get path v.views ≡ some a → ⊥
        there a e = cc (e, free)

    abbrev view₀ : VastView N
    view₀ = provisioned_view (v.seq + 1) path tenant subnet allocation zero zero zero

    abbrev view₁ : VastView N
    view₁ = record view₀ { capacity_tb = tb }

    views-provisioned :
        (provisioned zero tb gbps iops path tenant subnet allocation v).views
        ≡ put path
            (provisioned_view (v.seq + 1) path tenant subnet allocation tb gbps iops)
            (put path view₁ (put path view₀ v.views))
    views-provisioned =
        ap (λ z. (set_qos path gbps iops (set_quota path tb z).1).1.views)
          (created_lem zero path tenant subnet allocation v free)
        ∙ ap (λ z. (set_qos path gbps iops z).1.views)
            (quota_lem path tb view₀ (record v { seq = v.seq + 1; views = put path view₀ v.views })
              (put_here path view₀ v.views))
        ∙ ap (λ z. z.views)
            (qos_lem path gbps iops view₁
              (record v { seq = v.seq + 1; views = put path view₁ (put path view₀ v.views) })
              (put_here path view₁ (put path view₀ v.views)))

    -- A view at a free path that is created, given a quota and a QoS policy holds just these; deleted
    -- again, it is gone, and every other view is as it was.
    pub delete_view-provisioned :
        (get path (provisioned zero tb gbps iops path tenant subnet allocation v).views
          ≡ some (provisioned_view (v.seq + 1) path tenant subnet allocation tb gbps iops))
        × ((q : String)
            → get q
                (delete_view path
                  (provisioned zero tb gbps iops path tenant subnet allocation v)).1.views
              ≡ get q v.views)
    delete_view-provisioned = (
      ap (get path) views-provisioned ∙ put_here path _ _,
      λ q.
          ap (get q) (
            views-delete_view path (provisioned zero tb gbps iops path tenant subnet allocation v)
            ∙ ap (pop path) views-provisioned)
          ∙ without path q _ view₁ view₀ v.views missing,
    )
