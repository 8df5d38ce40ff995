-- ===== src/Orders/Kept.antt =====
-- app/lifecycle.py: what the calls on the world leave of an order, one rule for each way to build them.
use neo_cloud_control_plane.Prelude.{
  String, ◌≡◌, refl, ◌∙◌, Bool, Option, some, eq_refl, Option-cases, inl, inr,
}
use neo_cloud_control_plane.Prelude.Exec.{Exec, modify}
use neo_cloud_control_plane.Dict.{get}
use neo_cloud_control_plane.Dict.Laws.{get-put}
use neo_cloud_control_plane.Shared.{Shared}
use neo_cloud_control_plane.Tenancy.{Store}
use neo_cloud_control_plane.Nico.{Nico}
use neo_cloud_control_plane.Vast.{Vast}
use neo_cloud_control_plane.Lifecycle.{NodeInstance, OrderState, ServiceOrder, World}
use neo_cloud_control_plane.Orders.Holds.{Holds, holds_rules}
use neo_cloud_control_plane.Orders.{on_nico, on_vast, on_store, on_shared, on_node, on_order}

-- what stays as it is while an order is worked on
pub record Terms : Type 0 where
  pub approval_mode : Bool
  pub pending_stage : Option OrderState
  pub managed_k8s : Bool
  pub k8s_version : String

abbrev pub terms : {N : Type 0} → ServiceOrder N → Terms
terms o = record {
  approval_mode = o.approval_mode;
  pending_stage = o.pending_stage;
  managed_k8s = o.managed_k8s;
  k8s_version = o.k8s_version;
}

module _ {N : Type 0} where
  -- the order is there, with these terms, in a state of this kind
  pub record Has (oid : String) (t : Terms) (Q : OrderState → Type 0) (w : World N) : Type 0 where
    pub order : ServiceOrder N
    pub stored : get oid w.orders ≡ some order
    pub same : terms order ≡ t
    pub state : Q order.state

-- `m` leaves the order with its terms in a state of the kind it was in, whether it returns or raises
abbrev pub Keeps :
    {N : Type 0} (oid : String) (t : Terms) (Q : OrderState → Type 0) {A : Type 0}
    → Exec (World N) A
    → Type 0
Keeps oid t Q m = Holds (Has oid t Q) m

module _ {N : Type 0} {oid : String} {t : Terms} {Q : OrderState → Type 0} where
  moved : (w w' : World N) → w'.orders ≡ w.orders → Has oid t Q w → Has oid t Q w'
  moved w w' e h = record {
    order = h.order;
    stored = rw e h.stored;
    same = h.same;
    state = h.state;
  }

  module _ {A : Type 0} where
    pub Keeps-on_nico : (m : Exec Nico A) → Keeps {N = N} oid t Q (on_nico m)
    Keeps-on_nico m = record { at = λ w h. moved w _ refl h }

    pub Keeps-on_vast : (m : Exec (Vast N) A) → Keeps oid t Q (on_vast m)
    Keeps-on_vast m = record { at = λ w h. moved w _ refl h }

    pub Keeps-on_store : (m : Exec Store A) → Keeps {N = N} oid t Q (on_store m)
    Keeps-on_store m = record { at = λ w h. moved w _ refl h }

    pub Keeps-on_shared : (m : Exec Shared A) → Keeps {N = N} oid t Q (on_shared m)
    Keeps-on_shared m = record { at = λ w h. moved w _ refl h }

    pub Keeps-on_node :
        (key : String) (m : Exec NodeInstance A) → Keeps {N = N} oid t Q (on_node key m)
    Keeps-on_node key m = record { at = by_node }
      where
        by_node : (w : World N) → Has oid t Q w → Has oid t Q (on_node key m w).1
        by_node w h = elim (Option-cases (get key w.nodes)) [
          | inl e ↦ rw (e, on_node) h
          | inr (n, e) ↦ rw (e, on_node) (moved w _ refl h)
        ]

  pub Keeps-modify :
      (f : World N → World N) → ((w : World N) → (f w).orders ≡ w.orders) → Keeps oid t Q (modify f)
  Keeps-modify f e = record { at = λ w h. moved w (f w) (e w) h }

  pub Keeps-set :
      (f : ServiceOrder N → ServiceOrder N)
      → ((o : ServiceOrder N) → terms (f o) ≡ terms o)
      → ((o : ServiceOrder N) → (f o).state ≡ o.state)
      → Keeps oid t Q (on_order oid (modify f))
  Keeps-set f e s = record {
    at = λ w h.
        rw (h.stored, on_order)
          (record {
            order = f h.order;
            stored = simp (get-put, eq_refl);
            same = e h.order ∙ h.same;
            state = rw (s h.order) h.state;
          });
  }

pub ruleset keeps_rules =
    (holds_rules, Keeps-on_nico, Keeps-on_vast, Keeps-on_store, Keeps-on_shared, Keeps-on_node)
