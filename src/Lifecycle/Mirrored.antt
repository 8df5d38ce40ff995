-- ===== src/Lifecycle/Mirrored.antt =====
-- app/lifecycle.py: which hosts have a node after reconcile.
use neo_cloud_control_plane.Prelude.{
  String, ◌≡◌, refl, ◌∙◌, subst, true, false, Option, none, some, List, [], ◌∷◌, ◌==◌, eq_iff,
  eq_refl, ◌⊎◌, inl, inr, Bool-cases, Option-cases,
}
use neo_cloud_control_plane.Prelude.Sorting.{In}
use neo_cloud_control_plane.Dict.{Dict, get, has, values}
use neo_cloud_control_plane.Dict.Laws.{get-put, get-pop, Entries-get}
use neo_cloud_control_plane.Tenancy.{Store}
use neo_cloud_control_plane.Nico.{Host}
use neo_cloud_control_plane.Lifecycle.{NodeInstance, World, lists_node}
use neo_cloud_control_plane.Lifecycle.Reconcile.{
  Sweep, mirror, check_node, check_nodes, keys, mirror_id, registered, register_ghost,
  register_ghosts, start, sweep, reconcile, hosts_of,
}
use neo_cloud_control_plane.Lifecycle.Mirror.{
  Preserves, check_node-Preserves, check_nodes-Preserves, register_ghosts-Preserves,
}
use neo_cloud_control_plane.Lifecycle.Unclaimed.{
  In-values, In-check_nodes, has-check_nodes, by_host_id-AreNamed, without_cpu-AreNamed,
}

-- a node of a host, however it is called
abbrev pub IsMirrored : Dict NodeInstance → String → Type 0
IsMirrored d hid = (k : String) × (n : NodeInstance) × (get k d ≡ some n) × (n.nico_host_id ≡ hid)

IsMirrored-Preserves :
    (d d' : Dict NodeInstance) (hid : String)
    → Preserves d d'
    → IsMirrored d hid
    → IsMirrored d' hid
IsMirrored-Preserves d d' hid p (k, n, e, h) =
    let (n', e', kept) = p k n e in (k, n', e', kept.same_host ∙ h)

-- what a round of the loop over the nodes does to a host that is unclaimed
check_node-claims :
    (k hid : String) (node : NodeInstance) (h : Host) (o : Option Host) (w : Sweep)
    → get k w.nodes ≡ some node
    → get hid w.hosts ≡ some h
    → (get hid (check_node k node o w).hosts ≡ some h) ⊎ (node.nico_host_id ≡ hid)
check_node-claims k hid node h none w e g = inl g
check_node-claims k hid node h (some host) w e g = elim (Bool-cases (node.nico_host_id == hid)) [
  | inl y ↦ inr ((eq_iff node.nico_host_id hid).0 y)
  | inr f ↦ elim (Bool-cases (lists_node (mirror host.state) node.state)) [
    | inl y ↦ inl (rw y (rw (get-pop, f) g))
    | inr n ↦ inl (rw n (rw (get-pop, f) g))
  ]
]

check_nodes-lem :
    (ks : List String) (hid : String) (h : Host) (w : Sweep)
    → get hid w.hosts ≡ some h
    → (get hid (check_nodes ks w).hosts ≡ some h) ⊎ IsMirrored (check_nodes ks w).nodes hid
unfolding check_nodes
check_nodes-lem [] hid h w g = inl g
check_nodes-lem (k ∷ ks) hid h w g = elim (Option-cases (get k w.nodes)) [
  | inl e ↦ rw (e, check_nodes) (check_nodes-lem ks hid h w g)
  | inr (node, e) ↦
      let o = get node.nico_host_id w.hosts in
      let w' = check_node k node o w in
      elim (check_node-claims k hid node h o w e g) [
        | inl still ↦ rw (e, check_nodes) (check_nodes-lem ks hid h w' still)
        | inr mine ↦
            let (node', e', kept) = check_node-Preserves k node o w e k node e in
            rw (e, check_nodes)
              (inr (
                IsMirrored-Preserves w'.nodes (check_nodes ks w').nodes hid
                  (check_nodes-Preserves ks w') (k, node', e', kept.same_host ∙ mine)))
      ]
]

-- The host could not get a node of its own: its id stood for a node already, or is that of another host.
abbrev pub IsTaken : Dict NodeInstance → List Host → Host → Type 0
IsTaken d hs h =
    (has (mirror_id h) d ≡ true)
    ⊎ ((g : Host) × In g hs × (mirror_id g ≡ mirror_id h) × ((g.host_id == h.host_id) ≡ false))

register_ghost-IsMirrored :
    (s : Store) (h : Host) (w : Sweep)
    → has (mirror_id h) w.nodes ≡ false
    → IsMirrored (register_ghost s h w).nodes h.host_id
register_ghost-IsMirrored s h w f =
    (mirror_id h, registered s h, rw f (rw (get-put, eq_refl) refl), refl)

register_ghosts-lem :
    (s : Store) (hs : List Host) (h : Host) (w : Sweep)
    → In h hs
    → IsMirrored (register_ghosts s hs w).nodes h.host_id ⊎ IsTaken w.nodes hs h
unfolding register_ghosts
register_ghosts-lem s [] h w m = elim m [ ]
register_ghosts-lem s (g ∷ hs) h w (inl e) = elim (Bool-cases (has (mirror_id h) w.nodes)) [
  | inl y ↦ inr (inl y)
  | inr f ↦ inl (
      IsMirrored-Preserves (register_ghost s g w).nodes _ h.host_id
        (register_ghosts-Preserves s hs (register_ghost s g w))
        (subst (λ z. IsMirrored (register_ghost s z w).nodes h.host_id) e
          (register_ghost-IsMirrored s h w f)))
]
register_ghosts-lem s (g ∷ hs) h w (inr m) =
    elim (register_ghosts-lem s hs h (register_ghost s g w) m) [
      | inl done ↦ inl done
      | inr (inr (x, n, same, other)) ↦ inr (inr (x, inr n, same, other))
      | inr (inl y) ↦ elim (Bool-cases (has (mirror_id g) w.nodes)) [
        | inl z ↦ inr (inl (rw z at y))
        | inr f ↦ elim (Bool-cases (mirror_id g == mirror_id h)) [
          | inr n ↦ inr (inl (rw n at (rw get-put at (rw f at y))))
          | inl q ↦ elim (Bool-cases (g.host_id == h.host_id)) [
            | inl i ↦ inl (
                IsMirrored-Preserves (register_ghost s g w).nodes _ h.host_id
                  (register_ghosts-Preserves s hs (register_ghost s g w))
                  (subst (IsMirrored (register_ghost s g w).nodes)
                    ((eq_iff g.host_id h.host_id).0 i) (register_ghost-IsMirrored s g w f)))
            | inr i ↦ inr (inr (g, inl refl, (eq_iff (mirror_id g) (mirror_id h)).0 q, i))
          ]
        ]
      ]
    ]

-- After a run of reconcile each host that NICo lists, those of CPU nodes aside, has a node that names
-- it, unless the id of its node stood for a node before the run, or another of these hosts, with another
-- host id, has the same one.
pub reconcile-IsMirrored :
    {N : Type 0} (w : World N) (hid : String) (h : Host)
    → get hid (start w).hosts ≡ some h
    → IsMirrored (reconcile w).1.nodes hid ⊎ IsTaken w.nodes (values (start w).hosts) h
unfolding reconcile sweep
reconcile-IsMirrored w hid h e =
    let ks = keys w.nodes in
    let checked = check_nodes ks (start w) in
    elim (check_nodes-lem ks hid h (start w) e) [
      | inr known ↦ inl (
          IsMirrored-Preserves checked.nodes _ hid
            (register_ghosts-Preserves w.store (values checked.hosts) checked) known)
      | inl still ↦
          elim (register_ghosts-lem w.store (values checked.hosts) h checked
            (In-values hid h checked.hosts still)) [
              | inl done ↦ inl (
                  subst (IsMirrored (register_ghosts w.store (values checked.hosts) checked).nodes)
                    named done)
              | inr (inl y) ↦ inr (inl (has-check_nodes ks (start w) (mirror_id h) y))
              | inr (inr (g, m, same, other)) ↦
                  inr (inr (g, In-check_nodes ks (start w) g m, same, other))
            ]
    ]
  where
    named : h.host_id ≡ hid
    named =
        Entries-get (λ k h. h.host_id ≡ k) hid h (start w).hosts
          (without_cpu-AreNamed (values w.cpu_nodes) (hosts_of w)
            (by_host_id-AreNamed (values w.nico.hosts) [] tt))
          e
