-- ===== src/Orders/Ends.antt =====
-- app/lifecycle.py: in which state an order is when a call on the world has returned.
use neo_cloud_control_plane.Prelude.{
  String, ◌≡◌, refl, ◌∙◌, ap, true, false, some, [], ◌∷◌, ◌++◌, sym, eq_refl, Bool-cases, inl, inr,
}
use neo_cloud_control_plane.Prelude.Exec.{Exec, Result, ok, err, continue, ◌>>=◌}
use neo_cloud_control_plane.Dict.{get, put}
use neo_cloud_control_plane.Dict.Laws.{get-put}
use neo_cloud_control_plane.Lifecycle.{
  OrderState, ServiceOrder, World, order_transitions, lists_order, advance_order,
}
use neo_cloud_control_plane.Orders.{on_order}
use neo_cloud_control_plane.Orders.Kept.{Terms, terms, Has, Keeps}

abbrev pub Anything : OrderState → Type 0
Anything s = Unit

-- `m`, called on an order in a state of the kind `P`, leaves it with its terms, and if it returns, in a
-- state of the kind `Q`
module _ {N : Type 0} (oid : String) (t : Terms) (P Q : OrderState → Type 0) where
  pub record Ends {A : Type 0} (m : Exec (World N) A) : Type 0 where
    pub kept : (w : World N) → Has oid t P w → Has oid t Anything (m w).1
    pub ended : (w : World N) (a : A) → Has oid t P w → (m w).0 ≡ ok a → Has oid t Q (m w).1

module _ {N : Type 0} where
  pub on_order_lem :
      {A : Type 0} (oid : String) (m : Exec (ServiceOrder N) A) (w : World N) (o : ServiceOrder N)
      → get oid w.orders ≡ some o
      → on_order oid m w ≡ ((m o).0, record w { orders = put oid (m o).1 w.orders })
  on_order_lem oid m w o e = rw (e, on_order) refl

  abbrev pub done : OrderState → String → ServiceOrder N → ServiceOrder N
  done st detail o = record o {
    state = st;
    history = o.history ++ record { state = st; detail = detail } ∷ [];
  }

  pub allowed :
      (st : OrderState) (detail : String) (o : ServiceOrder N)
      → lists_order (order_transitions o.state) st ≡ true
      → advance_order st detail o ≡ (ok tt, done st detail o)
  unfolding advance_order
  allowed st detail o y = rw y refl

  refused :
      (st : OrderState) (detail : String) (o : ServiceOrder N)
      → lists_order (order_transitions o.state) st ≡ false
      → advance_order st detail o ≡ (err 409, o)
  unfolding advance_order
  refused st detail o f = rw f refl

module _ {N : Type 0} {oid : String} {t : Terms} where
  weaker :
      (P Q : OrderState → Type 0)
      → ((s : OrderState) → P s → Q s)
      → (w : World N) → Has oid t P w
      → Has oid t Q w
  weaker P Q f w h = record {
    order = h.order;
    stored = h.stored;
    same = h.same;
    state = f h.order.state h.state;
  }

  module _ {A : Type 0} where
    pub Ends-Keeps :
        {P : OrderState → Type 0} (m : Exec (World N) A) → Keeps oid t P m → Ends oid t P P m
    Ends-Keeps {P = P} m k = record {
      kept = λ w h. weaker P Anything (λ s p. tt) (m w).1 (k.at w h);
      ended = λ w a h e. k.at w h;
    }

    pub Ends-weaken :
        {P Q R : OrderState → Type 0} (m : Exec (World N) A)
        → ((s : OrderState) → Q s → R s)
        → Ends oid t P Q m
        → Ends oid t P R m
    Ends-weaken {Q = Q} {R = R} m f e = record {
      kept = e.kept;
      ended = λ w a h g. weaker Q R f (m w).1 (e.ended w a h g);
    }

  module _ {A B : Type 0} {Q R : OrderState → Type 0} where
    continue-kept :
        (r : Result A) (f : A → Exec (World N) B) (w : World N)
        → ((a : A) → Ends oid t Q R (f a))
        → Has oid t Anything w
        → ((a : A) → r ≡ ok a → Has oid t Q w)
        → Has oid t Anything (continue r f w).1
    continue-kept (ok a) f w ef weak h = (ef a).kept w (h a refl)
    continue-kept (err c) f w ef weak h = weak

    continue-ended :
        (r : Result A) (f : A → Exec (World N) B) (w : World N) (b : B)
        → ((a : A) → Ends oid t Q R (f a))
        → ((a : A) → r ≡ ok a → Has oid t Q w)
        → (continue r f w).0 ≡ ok b
        → Has oid t R (continue r f w).1
    continue-ended (ok a) f w b ef h e = (ef a).ended w b (h a refl) e
    continue-ended (err c) f w b ef h e = absurd (clash e)
      where
        clash : err c ≡ ok b → ⊥
        clash e = cc

    pub Ends-bind :
        {P : OrderState → Type 0} (m : Exec (World N) A) (f : A → Exec (World N) B)
        → Ends oid t P Q m
        → ((a : A) → Ends oid t Q R (f a))
        → Ends oid t P R (m >>= f)
    Ends-bind m f em ef = record {
      kept = λ w h. continue-kept (m w).0 f (m w).1 ef (em.kept w h) (λ a e. em.ended w a h e);
      ended = λ w b h e. continue-ended (m w).0 f (m w).1 b ef (λ a g. em.ended w a h g) e;
    }

  -- an object of the table that is changed
  Has-put :
      {P Q : OrderState → Type 0} (w : World N) (h : Has oid t P w) (o : ServiceOrder N)
      → terms o ≡ terms h.order
      → Q o.state
      → Has oid t Q (record w { orders = put oid o w.orders })
  Has-put w h o e q = record {
    order = o;
    stored = simp (get-put, eq_refl);
    same = e ∙ h.same;
    state = q;
  }

  pub Ends-advance :
      {P : OrderState → Type 0} (st : OrderState) (detail : String)
      → Ends {N = N} oid t P (λ s. s ≡ st) (on_order oid (advance_order st detail))
  Ends-advance {P = P} st detail = record { kept = kept_order; ended = ended_order }
    where
      kept_order :
          (w : World N)
          → Has oid t P w
          → Has oid t Anything (on_order oid (advance_order st detail) w).1
      kept_order w h = elim (Bool-cases (lists_order (order_transitions h.order.state) st)) [
        | inl y ↦
            rw (on_order_lem oid (advance_order st detail) w h.order h.stored)
              (rw (allowed st detail h.order y) (Has-put w h (done st detail h.order) refl tt))
        | inr f ↦
            rw (on_order_lem oid (advance_order st detail) w h.order h.stored)
              (rw (refused st detail h.order f) (Has-put w h h.order refl tt))
      ]

      ended_order :
          (w : World N) (a : Unit)
          → Has oid t P w
          → (on_order oid (advance_order st detail) w).0 ≡ ok a
          → Has oid t (λ s. s ≡ st) (on_order oid (advance_order st detail) w).1
      ended_order w a h e = elim (Bool-cases (lists_order (order_transitions h.order.state) st)) [
        | inl y ↦
            rw (on_order_lem oid (advance_order st detail) w h.order h.stored)
              (rw (allowed st detail h.order y) (Has-put w h (done st detail h.order) refl refl))
        | inr f ↦ absurd (
            clash (
              sym (
                ap (λ r. r.0)
                  (on_order_lem oid (advance_order st detail) w h.order h.stored
                    ∙ ap
                        (λ (r : Result Unit × ServiceOrder N).
                          (r.0, record w { orders = put oid r.1 w.orders }))
                        (refused st detail h.order f)))
              ∙ e))
      ]
        where
          clash : err 409 ≡ ok a → ⊥
          clash e = cc

  -- a step that does not move the order, and one that does
  module _ {B : Type 0} {P Q : OrderState → Type 0} where
    pub Ends-keep :
        {A : Type 0} (m : Exec (World N) A) (f : A → Exec (World N) B)
        → Keeps oid t P m
        → ((a : A) → Ends oid t P Q (f a))
        → Ends oid t P Q (m >>= f)
    Ends-keep m f k e = Ends-bind m f (Ends-Keeps m k) e

    pub Ends-move :
        (st : OrderState) (detail : String) (f : Unit → Exec (World N) B)
        → ((a : Unit) → Ends oid t (λ s. s ≡ st) Q (f a))
        → Ends oid t P Q (on_order oid (advance_order st detail) >>= f)
    Ends-move st detail f e = Ends-bind _ f (Ends-advance st detail) e
