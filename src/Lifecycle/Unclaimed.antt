-- ===== src/Lifecycle/Unclaimed.antt =====
-- app/lifecycle.py: the hosts that reconcile has not found a node for.
use neo_cloud_control_plane.Prelude.{
  String, ◌≡◌, refl, subst, true, Option, none, some, List, [], ◌∷◌, ◌==◌, eq_iff, arith,
  if◌then◌else◌, inl, inr, Bool-cases, Option-cases,
}
use neo_cloud_control_plane.Prelude.Sorting.{In}
use neo_cloud_control_plane.Dict.{Dict, get, pop, has, values}
use neo_cloud_control_plane.Dict.Laws.{get-put, Entries, Entries-put}
use neo_cloud_control_plane.Nico.{Host}
use neo_cloud_control_plane.Lifecycle.{NodeInstance, CpuNode, lists_node}
use neo_cloud_control_plane.Lifecycle.Reconcile.{
  Sweep, mirror, check_node, check_nodes, by_host_id, without_cpu,
}

pub In-values : (k : String) (h : Host) (d : Dict Host) → get k d ≡ some h → In h (values d)
unfolding get
In-values k h [] e = absurd (ground arith)
In-values k h ((j, g) ∷ d) e = elim (Bool-cases (j == k)) [
  | inl y ↦ inl (unsome (rw y at e))
  | inr f ↦ inr (In-values k h d (rw f at e))
]
  where
    unsome : some g ≡ some h → h ≡ g
    unsome e = cc

-- a host that is unclaimed was in the list from the start
pub In-pop : (k : String) (g : Host) (d : Dict Host) → In g (values (pop k d)) → In g (values d)
unfolding pop
In-pop k g [] m = m
In-pop k g ((j, h) ∷ d) m = elim (Bool-cases (j == k)) [
  | inl y ↦ inr (In-pop k g d (rw y at m))
  | inr n ↦ elim (rw n at m) [ inl e ↦ inl e | inr i ↦ inr (In-pop k g d i) ]
]

pub In-check_node :
    (k : String) (node : NodeInstance) (o : Option Host) (w : Sweep) (g : Host)
    → In g (values (check_node k node o w).hosts)
    → In g (values w.hosts)
In-check_node k node none w g m = m
In-check_node k node (some host) w g m =
    elim (Bool-cases (lists_node (mirror host.state) node.state)) [
      | inl y ↦ In-pop node.nico_host_id g w.hosts (rw y at m)
      | inr n ↦ In-pop node.nico_host_id g w.hosts (rw n at m)
    ]

pub check_nodes-none :
    (k : String) (ks : List String) (w : Sweep)
    → get k w.nodes ≡ none
    → check_nodes (k ∷ ks) w ≡ check_nodes ks w
unfolding check_nodes
check_nodes-none k ks w e = rw (e, check_nodes) refl

pub check_nodes-some :
    (k : String) (ks : List String) (w : Sweep) (node : NodeInstance)
    → get k w.nodes ≡ some node
    → check_nodes (k ∷ ks) w ≡ check_nodes ks (check_node k node (get node.nico_host_id w.hosts) w)
unfolding check_nodes
check_nodes-some k ks w node e = rw (e, check_nodes) refl

pub In-check_nodes :
    (ks : List String) (w : Sweep) (g : Host)
    → In g (values (check_nodes ks w).hosts)
    → In g (values w.hosts)
unfolding check_nodes
In-check_nodes [] w g m = m
In-check_nodes (k ∷ ks) w g m = elim (Option-cases (get k w.nodes)) [
  | inl e ↦ In-check_nodes ks w g (subst (λ v. In g (values v.hosts)) (check_nodes-none k ks w e) m)
  | inr (node, e) ↦
      let o = get node.nico_host_id w.hosts in
      In-check_node k node o w g (
        In-check_nodes ks (check_node k node o w) g
          (subst (λ v. In g (values v.hosts)) (check_nodes-some k ks w node e) m))
]

-- a node that is there after the loop over the nodes was there before, under its key
pub has-check_nodes :
    (ks : List String) (w : Sweep) (j : String)
    → has j (check_nodes ks w).nodes ≡ true
    → has j w.nodes ≡ true
unfolding check_nodes
has-check_nodes [] w j h = h
has-check_nodes (k ∷ ks) w j h = elim (Option-cases (get k w.nodes)) [
  | inl e ↦ has-check_nodes ks w j (subst (λ v. has j v.nodes ≡ true) (check_nodes-none k ks w e) h)
  | inr (node, e) ↦
      let o = get node.nico_host_id w.hosts in
      one k node o w e (
        has-check_nodes ks (check_node k node o w) j
          (subst (λ v. has j v.nodes ≡ true) (check_nodes-some k ks w node e) h))
]
  where
    one :
        (k : String) (node : NodeInstance) (o : Option Host) (w : Sweep)
        → get k w.nodes ≡ some node
        → has j (check_node k node o w).nodes ≡ true
        → has j w.nodes ≡ true
    one k node none w e q = elim (Bool-cases (k == j)) [
      | inl y ↦ subst (λ i. has i w.nodes ≡ true) ((eq_iff k j).0 y) (rw e refl)
      | inr n ↦ rw n at (rw get-put at q)
    ]
    one k node (some host) w e q = elim (Bool-cases (lists_node (mirror host.state) node.state)) [
      | inl y ↦ rw y at q
      | inr n ↦ rw n at q
    ]

-- the hosts of the sweep stand under their ids
abbrev pub AreNamed : Dict Host → Type 0
AreNamed = Entries (λ k h. h.host_id ≡ k)

pub by_host_id-AreNamed : (hs : List Host) (d : Dict Host) → AreNamed d → AreNamed (by_host_id hs d)
by_host_id-AreNamed [] d a = a
by_host_id-AreNamed (h ∷ hs) d a =
    by_host_id-AreNamed hs _ (Entries-put (λ k h. h.host_id ≡ k) h.host_id h d a refl)

pub pop-AreNamed : (k : String) (d : Dict Host) → AreNamed d → AreNamed (pop k d)
unfolding pop
pop-AreNamed k [] a = a
pop-AreNamed k ((j, h) ∷ d) a = elim (Bool-cases (j == k)) [
  | inl y ↦ rw y (pop-AreNamed k d a.1)
  | inr n ↦ rw n (a.0, pop-AreNamed k d a.1)
]

pub without_cpu-AreNamed :
    (cs : List CpuNode) (d : Dict Host) → AreNamed d → AreNamed (without_cpu cs d)
without_cpu-AreNamed [] d a = a
without_cpu-AreNamed (c ∷ cs) d a = without_cpu-AreNamed cs _ (one c.nico_host_id)
  where
    one :
        (o : Option String)
        → AreNamed (elim o [ none ↦ d | some h ↦ if h == "" then d else pop h d ])
    one none = a
    one (some h) = elim (Bool-cases (h == "")) [
      | inl y ↦ rw y a
      | inr n ↦ rw n (pop-AreNamed h d a)
    ]
