-- ===== src/Orders/Truth.antt =====
-- app/lifecycle.py: what the reclaim of a node leaves of its binding to the tenant.
use neo_cloud_control_plane.Prelude.{
  String, ◌≡◌, refl, sym, ap, ◌∙◌, Bool, true, false, Option, none, some, ◌==◌, eq_iff, eq_refl,
  Bool-cases, Option-cases, inl, inr,
}
use neo_cloud_control_plane.Prelude.Exec.{Exec, Result, ok, err, modify, continue}
use neo_cloud_control_plane.Dict.{get, put}
use neo_cloud_control_plane.Dict.Laws.{get-put}
use neo_cloud_control_plane.Nico.{Nico}
use neo_cloud_control_plane.Lifecycle.{
  NodeState, NodeInstance, World, advance_node, lists_node, node_transitions,
}
use neo_cloud_control_plane.Lifecycle.Reconcile.{note_event}
use neo_cloud_control_plane.Orders.{on_nico, on_node, attempt}
use neo_cloud_control_plane.Orders.Holds.{Holds, holds_rules, Holds-attempt}
use neo_cloud_control_plane.Orders.Reclaim.{
  Fate, stuck, release_held, after_sanitize, give_back, reclaim_steps, after_reclaim, reclaim_node,
}

-- the node under a key, which is its id, with its tenant
pub record Bound {N : Type 0} (key : String) (t : Option String) (w : World N) : Type 0 where
  pub node : NodeInstance
  pub stored : get key w.nodes ≡ some node
  pub named : node.id ≡ key
  pub tenant : node.tenant_id ≡ t

-- a change of a node that leaves its name and its tenant
pub record IsAside {A : Type 0} (m : Exec NodeInstance A) : Type 0 where
  pub same_id : (n : NodeInstance) → (m n).1.id ≡ n.id
  pub same_tenant : (n : NodeInstance) → (m n).1.tenant_id ≡ n.tenant_id

advance_node-IsAside : (st : NodeState) (detail : String) → IsAside (advance_node st detail)
unfolding advance_node
advance_node-IsAside st detail = record { same_id = by_id; same_tenant = by_tenant }
  where
    by_id : (n : NodeInstance) → (advance_node st detail n).1.id ≡ n.id
    by_id n = elim (Bool-cases (lists_node (node_transitions n.state) st)) [
      | inl y ↦ rw y refl
      | inr f ↦ rw f refl
    ]

    by_tenant : (n : NodeInstance) → (advance_node st detail n).1.tenant_id ≡ n.tenant_id
    by_tenant n = elim (Bool-cases (lists_node (node_transitions n.state) st)) [
      | inl y ↦ rw y refl
      | inr f ↦ rw f refl
    ]

forget_instance-IsAside :
    IsAside (modify (λ (n : NodeInstance). record n { nico_instance_id = none }))
forget_instance-IsAside = record { same_id = λ n. refl; same_tenant = λ n. refl }

module _ {N : Type 0} {key : String} {t : Option String} where
  module _ {A : Type 0} where
    Bound-on_nico : (m : Exec Nico A) → Holds {S = World N} (Bound key t) (on_nico m)
    Bound-on_nico m = record {
      at = λ w h. record { node = h.node; stored = h.stored; named = h.named; tenant = h.tenant };
    }

    Bound-on_node :
        (k : String) (m : Exec NodeInstance A)
        → IsAside m
        → Holds {S = World N} (Bound key t) (on_node k m)
    Bound-on_node k m a = record { at = by_node }
      where
        put_back :
            (w : World N) (n : NodeInstance)
            → get k w.nodes ≡ some n
            → Bound key t w
            → Bound key t (record w { nodes = put k (m n).1 w.nodes })
        put_back w n e h = elim (Bool-cases (k == key)) [
          | inl y ↦
              let same : n ≡ h.node =
                unsome n (sym e ∙ (ap (λ j. get j w.nodes) ((eq_iff k key).0 y) ∙ h.stored)) in
              record {
                node = (m n).1;
                stored = simp (get-put, y);
                named = a.same_id n ∙ (ap (λ z. z.id) same ∙ h.named);
                tenant = a.same_tenant n ∙ (ap (λ z. z.tenant_id) same ∙ h.tenant);
              }
          | inr f ↦ record {
            node = h.node;
            stored = simp (get-put, f) h.stored;
            named = h.named;
            tenant = h.tenant;
          }
        ]
          where
            unsome : (n : NodeInstance) → some n ≡ some h.node → n ≡ h.node
            unsome n e = cc

        by_node : (w : World N) → Bound key t w → Bound key t (on_node k m w).1
        by_node w h = elim (Option-cases (get k w.nodes)) [
          | inl e ↦ rw (e, on_node) h
          | inr (n, e) ↦ rw (e, on_node) (put_back w n e h)
        ]

  after_sanitize-Bound :
      (node : NodeInstance) (b : Bool) → Holds {S = World N} (Bound key t) (after_sanitize node b)
  after_sanitize-Bound node true =
      search (holds_rules, Bound-on_nico, Bound-on_node, advance_node-IsAside) depth 10
  after_sanitize-Bound node false =
      search (holds_rules, Bound-on_nico, Bound-on_node, advance_node-IsAside) depth 10

  release_held-Bound :
      (node : NodeInstance) (i : String) → Holds {S = World N} (Bound key t) (release_held node i)
  release_held-Bound node i =
      search (holds_rules, Bound-on_nico, Bound-on_node, forget_instance-IsAside) depth 10

  give_back-Bound : (node : NodeInstance) → Holds {S = World N} (Bound key t) (give_back node)
  give_back-Bound node =
      search
        (
          holds_rules, Bound-on_nico, Bound-on_node, advance_node-IsAside, after_sanitize-Bound,
          release_held-Bound,
        )
        depth 12

  reclaim_steps-Bound :
      (node : NodeInstance) → Holds {S = World N} (Bound key t) (reclaim_steps node)
  unfolding reclaim_steps
  reclaim_steps-Bound node =
      search (holds_rules, Bound-on_node, advance_node-IsAside, give_back-Bound) depth 10

-- the node after its reclaim by an order, with this tenant
pub record IsReclaimed {N : Type 0} (oid key : String) (t : Option String) (w : World N)
    : Type 0 where
  pub bound : Bound key t w
  pub order : bound.node.order_id ≡ some oid

-- what the outcome says of the tenant
abbrev pub Told : {N : Type 0} → String → String → Option String → Result Fate × World N → Type 0
Told oid key t (ok stuck, w) = IsReclaimed oid key t w
Told oid key t (ok _, w) = IsReclaimed oid key none w
Told oid key t (err c, w) = Bound key t w

module _ {N : Type 0} (oid key : String) (t : Option String) where
  -- the last change of the round
  changed :
      (f : NodeInstance → NodeInstance) (w : World N) (h : Bound key t w) (t' : Option String)
      → (f h.node).id ≡ h.node.id
      → (f h.node).tenant_id ≡ t'
      → (f h.node).order_id ≡ some oid
      → (on_node key (modify f) w ≡ (ok tt, record w { nodes = put key (f h.node) w.nodes }))
        × IsReclaimed oid key t' (record w { nodes = put key (f h.node) w.nodes })
  changed f w h t' i e o = (
    rw (h.stored, on_node) refl,
    record {
      bound = record {
        node = f h.node;
        stored = simp (get-put, eq_refl);
        named = i ∙ h.named;
        tenant = e;
      };
      order = o;
    },
  )

  after_reclaim-Told :
      (o : Option Bool) (w : World N) → Bound key t w → Told oid key t (after_reclaim oid key o w)
  after_reclaim-Told none w h =
      let (e, r) =
        changed (λ n. record (note_event "reclaim step failed" n) { order_id = some oid }) w h t
          refl h.tenant refl in
      rw e r
  after_reclaim-Told (some true) w h =
      let (e, r) =
        changed (λ n. record n { tenant_id = none; order_id = some oid }) w h none refl refl refl in
      rw e r
  after_reclaim-Told (some false) w h =
      let (e, r) =
        changed (λ n. record n { tenant_id = none; order_id = some oid }) w h none refl refl refl in
      rw e r

  -- The reclaim of a node that is stored under its id says the truth of its tenant: a node that is given
  -- back or disposed of has none, and a node that is stuck, or where an error is raised, still has the
  -- one it had. In the first three cases the node names the order.
  pub reclaim_node-Told :
      (w : World N) (node : NodeInstance)
      → get key w.nodes ≡ some node
      → node.id ≡ key
      → node.tenant_id ≡ t
      → Told oid key t (reclaim_node oid key w)
  unfolding reclaim_node
  reclaim_node-Told w node e i q =
      let h : Bound key t w = record { node = node; stored = e; named = i; tenant = q } in
      let done = attempt (reclaim_steps node) w in
      rw e (continued done.0 done.1 ((Holds-attempt _ (reclaim_steps-Bound node)).at w h))
    where
      continued :
          (r : Result (Option Bool)) (w : World N)
          → Bound key t w
          → Told oid key t (continue r (after_reclaim oid key) w)
      continued (ok o) w h = after_reclaim-Told o w h
      continued (err c) w h = h
