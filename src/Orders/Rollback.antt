-- ===== src/Orders/Rollback.antt =====
-- app/lifecycle.py: what _rollback_k8s_cp makes of the CPU nodes.
use neo_cloud_control_plane.Prelude.{
  String, ◌≡◌, refl, sym, subst, ◌∙◌, ap, arith, Bool, true, false, Option, none, some, List, [],
  ◌∷◌, map, if◌then◌else◌, ◌==◌, ◌&&◌, is_text, select, contains, All, map_option, Bool-cases,
  Option-cases, inl, inr, eq_iff, eq_refl,
}
use neo_cloud_control_plane.Prelude.Exec.{Exec, ok}
use neo_cloud_control_plane.Prelude.Sorting.{All-select}
use neo_cloud_control_plane.Dict.{Dict, get, put, values}
use neo_cloud_control_plane.Dict.Laws.{IsDict, Entries, get-put, get-head, get-tail}
use neo_cloud_control_plane.Nico.{Nico}
use neo_cloud_control_plane.Lifecycle.{CpuNode, World}
use neo_cloud_control_plane.Orders.{for_each, on_nico}
use neo_cloud_control_plane.Orders.Holds.{Holds, holds_rules}
use neo_cloud_control_plane.Orders.Caught.{undo_cp-IsCaught, attempt-IsCaught}
use neo_cloud_control_plane.Orders.Saga.{returned}
use neo_cloud_control_plane.Orders.Kubernetes.{
  is_cp_of, undo_cp, free_host, rollback_cp, rollback_k8s_cp,
}

abbrev ids : List CpuNode → List String
ids = map (λ c. c.id)

module _ (oid : String) where
  -- a control plane node of the order is back in the pool, without tenant, order, address and segment;
  -- any other is as it was
  abbrev pub rolled : CpuNode → CpuNode
  rolled c =
      if is_text c.order_id oid && c.role == "k8s_cp"
      then record c {
        state = "pool_ready";
        role = "general";
        tenant_id = none;
        order_id = none;
        host_ip = "";
        segment_id = none;
      }
      else c

  abbrev mine : Dict CpuNode → List CpuNode
  mine d = select (is_cp_of oid) (values d)

  -- the node of an entry is found under its id
  values-All :
      (d : Dict CpuNode)
      → IsDict d
      → Entries (λ key c. c.id ≡ key) d
      → All (λ c. get c.id d ≡ some c) (values d)
  unfolding get
  values-All [] h e = tt
  values-All ((j, v) ∷ d) h e = (
    subst (λ k. get v.id ((k, v) ∷ d) ≡ some v) e.0 (get-head v.id v d),
    further (values d) (values-All d h.1 e.1),
  )
    where
      further :
          (cs : List CpuNode)
          → All (λ c. get c.id d ≡ some c) cs
          → All (λ c. get c.id ((j, v) ∷ d) ≡ some c) cs
      further [] a = tt
      further (c ∷ cs) a = (get-tail j c.id v c d h.0 a.0, further cs a.1)

  mine-ids :
      (key : String) (c : CpuNode) (d : Dict CpuNode)
      → Entries (λ key c. c.id ≡ key) d
      → get key d ≡ some c
      → is_cp_of oid c ≡ true
      → contains (ids (mine d)) key ≡ true
  unfolding get
  mine-ids key c [] h e y = cc
  mine-ids key c ((j, v) ∷ d) h e y = elim (Bool-cases (j == key)) [
    | inl s ↦
        let same : v ≡ c = unsome (rw s at e) in
        rw (subst (λ z. is_cp_of oid z ≡ true) (sym same) y)
          (rw (h.0 ∙ (eq_iff j key).0 s) (rw eq_refl refl))
    | inr n ↦ further (is_cp_of oid v) (mine-ids key c d h.1 (rw n at e) y)
  ]
    where
      unsome : some v ≡ some c → v ≡ c
      unsome q = cc

      further :
          (b : Bool)
          → contains (ids (mine d)) key ≡ true
          → contains (ids (if b then v ∷ mine d else mine d)) key ≡ true
      further true q = ground (arith, q)
      further false q = q

  module _ {N : Type 0} where
    on_nico-Holds :
        {A : Type 0} (d : Dict CpuNode) (m : Exec Nico A)
        → Holds {S = World N} (λ w. w.cpu_nodes ≡ d) (on_nico m)
    on_nico-Holds d m = record { at = λ w h. h }

    free_host-Holds :
        (d : Dict CpuNode) (i : Option String) (hid : String)
        → Holds {S = World N} (λ w. w.cpu_nodes ≡ d) (free_host i hid)
    free_host-Holds d none hid = search (holds_rules, on_nico-Holds)
    free_host-Holds d (some i) hid = search (holds_rules, on_nico-Holds)

    undo_cp-Holds :
        (d : Dict CpuNode) (c : CpuNode) → Holds {S = World N} (λ w. w.cpu_nodes ≡ d) (undo_cp c)
    undo_cp-Holds d c = search (holds_rules, on_nico-Holds, free_host-Holds) depth 14

    -- one round, whatever NICo answers
    rollback_cp_lem :
        (c : CpuNode) (w : World N)
        → (w' : World N) × (rollback_cp c w ≡ (ok tt, w'))
          × (w'.cpu_nodes ≡ put c.id (returned c) w.cpu_nodes)
    rollback_cp_lem c w =
        let (o, e) = attempt-IsCaught (undo_cp c) w (undo_cp-IsCaught c) in
        let k = (undo_cp-Holds w.cpu_nodes c).at w refl in
        (
          record (undo_cp c w).1 { cpu_nodes = put c.id (returned c) (undo_cp c w).1.cpu_nodes },
          rw e refl,
          ap (put c.id (returned c)) k,
        )

    rolls :
        (cs : List CpuNode) (d : Dict CpuNode) (w : World N)
        → All (λ c. (get c.id d ≡ some c) × (is_cp_of oid c ≡ true)) cs
        → ((key : String)
            → contains (ids cs) key ≡ false
            → get key w.cpu_nodes ≡ map_option rolled (get key d))
        → ((for_each rollback_cp cs w).0 ≡ ok tt)
          × ((key : String)
              → get key (for_each rollback_cp cs w).1.cpu_nodes ≡ map_option rolled (get key d))
    unfolding for_each
    rolls [] d w a f = (refl, λ key. f key refl)
    rolls (c ∷ cs) d w a f =
        let (w', e, p) = rollback_cp_lem c w in rw e (rolls cs d w' a.1 (next w' p))
      where
        next :
            (w' : World N)
            → w'.cpu_nodes ≡ put c.id (returned c) w.cpu_nodes
            → (key : String) → contains (ids cs) key ≡ false
            → get key w'.cpu_nodes ≡ map_option rolled (get key d)
        next w' p key n = elim (Bool-cases (c.id == key)) [
          | inl s ↦
              rw (p, get-put) (rw s (rw (sym ((eq_iff c.id key).0 s)) (rw a.0.0 (rw a.0.1 refl))))
          | inr m ↦ rw (p, get-put) (rw m (f key (ground (arith, m, n))))
        ]

    -- Whatever NICo answers, the rollback of an order's control plane returns, and then each CPU node
    -- that was a control plane node of the order is back in the pool, without tenant, order, address and
    -- segment, and every other one is as it was; the nodes stand under their ids.
    pub rollback_k8s_cp-returned :
        (w : World N)
        → IsDict w.cpu_nodes
        → Entries (λ key c. c.id ≡ key) w.cpu_nodes
        → ((rollback_k8s_cp oid w).0 ≡ ok tt)
          × ((key : String)
              → get key (rollback_k8s_cp oid w).1.cpu_nodes
                ≡ map_option rolled (get key w.cpu_nodes))
    unfolding rollback_k8s_cp
    rollback_k8s_cp-returned w h e =
        rolls (mine w.cpu_nodes) w.cpu_nodes w
          (All-select (λ c. get c.id w.cpu_nodes ≡ some c) (is_cp_of oid) (values w.cpu_nodes)
            (values-All w.cpu_nodes h e))
          start
      where
        start :
            (key : String)
            → contains (ids (mine w.cpu_nodes)) key ≡ false
            → get key w.cpu_nodes ≡ map_option rolled (get key w.cpu_nodes)
        start key n = elim (Option-cases (get key w.cpu_nodes)) [
          | inl q ↦ rw q refl
          | inr (c, q) ↦ elim (Bool-cases (is_cp_of oid c)) [
            | inl y ↦ absurd (clash (sym n ∙ mine-ids key c w.cpu_nodes e q y))
            | inr m ↦ rw q (rw m refl)
          ]
        ]
          where
            clash : false ≡ true → ⊥
            clash q = cc
