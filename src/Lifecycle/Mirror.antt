-- ===== src/Lifecycle/Mirror.antt =====
-- app/lifecycle.py: the nodes after reconcile.
use neo_cloud_control_plane.Prelude.{
  String, ◌≡◌, refl, ap, sym, ◌∙◌, subst, false, ◌||◌, Option, none, some, List, [], ◌∷◌, ◌==◌,
  eq_iff, ◌⊎◌, inl, inr, Bool-cases, Option-cases,
}
use neo_cloud_control_plane.Dict.{Dict, get, put, has, values}
use neo_cloud_control_plane.Dict.Laws.{get-put}
use neo_cloud_control_plane.Tenancy.{Store}
use neo_cloud_control_plane.Nico.{Host}
use neo_cloud_control_plane.Lifecycle.{
  NodeState, NodeInstance, World, is_node, lists_node, node_transitions, advance_node,
}
use neo_cloud_control_plane.Lifecycle.Reconcile.{
  Sweep, orphaned, mirror, check_node, check_nodes, keys, mirror_id, registered, register_ghost,
  register_ghosts, start, sweep, reconcile,
}

-- A node that has at most been cordoned.
pub record Kept (n n' : NodeInstance) : Type 0 where
  pub same_id : n'.id ≡ n.id
  pub same_host : n'.nico_host_id ≡ n.nico_host_id
  pub same_instance : n'.nico_instance_id ≡ n.nico_instance_id
  pub same_tenant : n'.tenant_id ≡ n.tenant_id
  pub same_order : n'.order_id ≡ n.order_id
  pub at_most_cordoned : (n'.state ≡ n.state) ⊎ (n'.state ≡ NodeState.cordoned)

Kept-refl : (n : NodeInstance) → Kept n n
Kept-refl n = record {
  same_id = refl;
  same_host = refl;
  same_instance = refl;
  same_tenant = refl;
  same_order = refl;
  at_most_cordoned = inl refl;
}

Kept-trans : (a b c : NodeInstance) → Kept a b → Kept b c → Kept a c
Kept-trans a b c f g = record {
  same_id = g.same_id ∙ f.same_id;
  same_host = g.same_host ∙ f.same_host;
  same_instance = g.same_instance ∙ f.same_instance;
  same_tenant = g.same_tenant ∙ f.same_tenant;
  same_order = g.same_order ∙ f.same_order;
  at_most_cordoned = elim g.at_most_cordoned [
    | inl e ↦ elim f.at_most_cordoned [ inl d ↦ inl (e ∙ d) | inr d ↦ inr (e ∙ d) ]
    | inr e ↦ inr e
  ];
}

Kept-orphaned : (n : NodeInstance) → Kept n (orphaned n)
unfolding advance_node
Kept-orphaned n =
    elim (Bool-cases (is_node NodeState.rma n.state || is_node NodeState.cordoned n.state)) [
      | inl y ↦ rw y (Kept-refl n)
      | inr f ↦ elim (Bool-cases (lists_node (node_transitions n.state) NodeState.cordoned)) [
        | inl y ↦
            rw (f, y)
              (record {
                same_id = refl;
                same_host = refl;
                same_instance = refl;
                same_tenant = refl;
                same_order = refl;
                at_most_cordoned = inr refl;
              })
        | inr g ↦
            rw (f, g)
              (record {
                same_id = refl;
                same_host = refl;
                same_instance = refl;
                same_tenant = refl;
                same_order = refl;
                at_most_cordoned = inl refl;
              })
      ]
    ]

-- every node that was there is still there
abbrev pub Preserves : Dict NodeInstance → Dict NodeInstance → Type 0
Preserves d d' =
    (k : String) (n : NodeInstance)
    → get k d ≡ some n
    → (n' : NodeInstance) × (get k d' ≡ some n') × Kept n n'

pub Preserves-refl : (d : Dict NodeInstance) → Preserves d d
Preserves-refl d k n e = (n, e, Kept-refl n)

pub Preserves-trans : (a b c : Dict NodeInstance) → Preserves a b → Preserves b c → Preserves a c
Preserves-trans a b c f g k n e =
    let (n₁, e₁, kept) = f k n e in
    let (n₂, e₂, kept') = g k n₁ e₁ in (n₂, e₂, Kept-trans n n₁ n₂ kept kept')

Preserves-put :
    (k : String) (old new : NodeInstance) (d : Dict NodeInstance)
    → get k d ≡ some old
    → Kept old new
    → Preserves d (put k new d)
Preserves-put k old new d here kept j n e = elim (Bool-cases (k == j)) [
  | inl y ↦
      let same : old ≡ n = unsome old n (sym here ∙ ap (λ t. get t d) ((eq_iff k j).0 y) ∙ e) in
      (new, rw (get-put, y) refl, subst (λ z. Kept z new) same kept)
  | inr f ↦ (n, rw (get-put, f) e, Kept-refl n)
]
  where
    unsome : (x y : NodeInstance) → some x ≡ some y → x ≡ y
    unsome x y e = cc

Preserves-put_new :
    (k : String) (new : NodeInstance) (d : Dict NodeInstance)
    → has k d ≡ false
    → Preserves d (put k new d)
Preserves-put_new k new d fresh j n e = elim (Bool-cases (k == j)) [
  | inl y ↦ absurd (clash (ap (λ t. has t d) ((eq_iff k j).0 y)))
  | inr f ↦ (n, rw (get-put, f) e, Kept-refl n)
]
  where
    clash : has k d ≡ has j d → ⊥
    clash same = cc (same, e, fresh)

pub check_node-Preserves :
    (k : String) (node : NodeInstance) (o : Option Host) (w : Sweep)
    → get k w.nodes ≡ some node
    → Preserves w.nodes (check_node k node o w).nodes
check_node-Preserves k node none w e =
    Preserves-put k node (orphaned node) w.nodes e (Kept-orphaned node)
check_node-Preserves k node (some host) w e =
    elim (Bool-cases (lists_node (mirror host.state) node.state)) [
      | inl y ↦ rw y (Preserves-refl w.nodes)
      | inr f ↦ rw f (Preserves-refl w.nodes)
    ]

pub check_nodes-Preserves :
    (ks : List String) (w : Sweep) → Preserves w.nodes (check_nodes ks w).nodes
unfolding check_nodes
check_nodes-Preserves [] w = Preserves-refl w.nodes
check_nodes-Preserves (k ∷ ks) w = elim (Option-cases (get k w.nodes)) [
  | inl e ↦ rw (e, check_nodes) (check_nodes-Preserves ks w)
  | inr (node, e) ↦
      rw (e, check_nodes)
        (Preserves-trans w.nodes (check_node k node (get node.nico_host_id w.hosts) w).nodes _
          (check_node-Preserves k node (get node.nico_host_id w.hosts) w e)
          (check_nodes-Preserves ks (check_node k node (get node.nico_host_id w.hosts) w)))
]

pub register_ghost-Preserves :
    (s : Store) (h : Host) (w : Sweep) → Preserves w.nodes (register_ghost s h w).nodes
register_ghost-Preserves s h w = elim (Bool-cases (has (mirror_id h) w.nodes)) [
  | inl y ↦ rw y (Preserves-refl w.nodes)
  | inr f ↦ rw f (Preserves-put_new (mirror_id h) (registered s h) w.nodes f)
]

pub register_ghosts-Preserves :
    (s : Store) (hs : List Host) (w : Sweep) → Preserves w.nodes (register_ghosts s hs w).nodes
unfolding register_ghosts
register_ghosts-Preserves s [] w = Preserves-refl w.nodes
register_ghosts-Preserves s (h ∷ hs) w =
    Preserves-trans w.nodes (register_ghost s h w).nodes _ (register_ghost-Preserves s h w)
      (register_ghosts-Preserves s hs (register_ghost s h w))

-- No node is lost by a run of reconcile, and none loses its host, instance, tenant or order or is
-- moved to any other state than cordoned.
pub reconcile-Kept :
    {N : Type 0} (w : World N) (k : String) (n : NodeInstance)
    → get k w.nodes ≡ some n
    → (n' : NodeInstance) × (get k (reconcile w).1.nodes ≡ some n') × Kept n n'
unfolding reconcile sweep
reconcile-Kept w k n e =
    let checked = check_nodes (keys w.nodes) (start w) in
    Preserves-trans w.nodes checked.nodes _ (check_nodes-Preserves (keys w.nodes) (start w))
      (register_ghosts-Preserves w.store (values checked.hosts) checked) k n e
