-- ===== src/Lifecycle/Machines.antt =====
-- app/lifecycle.py: the histories that `advance_node` and `advance_order` write.
use neo_cloud_control_plane.Prelude.{
  ◌≡◌, refl, subst, Bool, true, false, ◌||◌, List, [], ◌∷◌, arith, ◌⊎◌, inl, inr, any, not,
  Bool-cases,
}
use neo_cloud_control_plane.Lifecycle.{
  is_node, is_order, NodeState, OrderState, LifecycleEvent, node_transitions, order_transitions,
  lists_node, lists_order, in_service, cordoned, draining, releasing, sanitizing, acceptance,
  delivered, k8s_installing,
}

module _ {A : Type 0} (allowed : A → A → Bool) where
  -- A history whose events lead from one state to another by steps that are allowed.
  abbrev pub Legal : A → List (LifecycleEvent A) → A → Type 0
  Legal s [] t = s ≡ t
  Legal s (e ∷ es) t = (allowed s e.state ≡ true) × Legal e.state es t

  -- Of a set of states that is left only through one state, a history either ends in the set or has
  -- passed that state.
  leaves_through :
      (inside exit : A → Bool)
      → ((s t : A) → inside s ≡ true → allowed s t ≡ true → (inside t || exit t) ≡ true)
      → (s t : A) (es : List (LifecycleEvent A)) → inside s ≡ true
      → Legal s es t
      → (inside t ≡ true) ⊎ (any (λ (e : LifecycleEvent A). exit e.state) es ≡ true)
  leaves_through inside exit closed s t [] i l = inl (subst (λ z. inside z ≡ true) l i)
  leaves_through inside exit closed s t (e ∷ es) i l = elim (Bool-cases (inside e.state)) [
    | inl y ↦ elim (leaves_through inside exit closed e.state t es y l.1) [
      | inl stays ↦ inl stays
      | inr passed ↦ inr (rw passed (or_true (exit e.state)))
    ]
    | inr n ↦ inr (passes (inside e.state) (exit e.state) _ n (closed s e.state i l.0))
  ]
    where
      or_true : (b : Bool) → (b || true) ≡ true
      or_true b = ground arith

      passes : (i x r : Bool) → i ≡ false → (i || x) ≡ true → (x || r) ≡ true
      passes i x r n h = ground arith

abbrev pub node_allowed : NodeState → NodeState → Bool
node_allowed s t = lists_node (node_transitions s) t

abbrev pub order_allowed : OrderState → OrderState → Bool
order_allowed s t = lists_order (order_transitions s) t

-- a history that begins in a state, and goes on from there by steps that are allowed
abbrev pub Begun : {A : Type 0} → (A → A → Bool) → A → List (LifecycleEvent A) → A → Type 0
Begun allowed start [] t = ⊥
Begun allowed start (e ∷ es) t = (e.state ≡ start) × Legal allowed start es t

-- A node in service, or on its way out of it.
abbrev pub serves : NodeState → Bool
serves s = is_node in_service s || is_node cordoned s || is_node draining s || is_node releasing s

-- An order that is neither accepted nor delivered.
abbrev pub is_unaccepted : OrderState → Bool
is_unaccepted s = not (is_order acceptance s || is_order k8s_installing s || is_order delivered s)

serves_closed :
    (s t : NodeState)
    → serves s ≡ true
    → node_allowed s t ≡ true
    → (serves t || is_node sanitizing t) ≡ true
serves_closed in_service t i a = ground arith
serves_closed cordoned t i a = ground arith
serves_closed draining t i a = ground arith
serves_closed releasing t i a = ground arith
serves_closed s t i a = absurd (ground arith)

unaccepted_closed :
    (s t : OrderState)
    → is_unaccepted s ≡ true
    → order_allowed s t ≡ true
    → (is_unaccepted t || is_order acceptance t) ≡ true
unaccepted_closed s t i a = elim (Bool-cases (is_unaccepted t)) [
  | inl y ↦ rw y refl
  | inr f ↦ by_state s i a f
]
  where
    by_state :
        (s : OrderState)
        → is_unaccepted s ≡ true
        → order_allowed s t ≡ true
        → is_unaccepted t ≡ false
        → (is_unaccepted t || is_order acceptance t) ≡ true
    by_state acceptance i a f = absurd (ground arith)
    by_state k8s_installing i a f = absurd (ground arith)
    by_state delivered i a f = absurd (ground arith)
    by_state _ i a f = ground arith

-- A legal history of a node in service that has left it has passed sanitizing.
served_needs_sanitizing :
    (s t : NodeState) (es : List (LifecycleEvent NodeState))
    → serves s ≡ true
    → Legal node_allowed s es t
    → (serves t ≡ true)
      ⊎ (any (λ (e : LifecycleEvent NodeState). is_node sanitizing e.state) es ≡ true)
served_needs_sanitizing = leaves_through node_allowed serves (is_node sanitizing) serves_closed

-- A legal history of an order that was neither accepted nor delivered at its start and is delivered at
-- its end has passed the acceptance.
delivered_needs_acceptance :
    (s : OrderState) (es : List (LifecycleEvent OrderState))
    → is_unaccepted s ≡ true
    → Legal order_allowed s es delivered
    → any (λ (e : LifecycleEvent OrderState). is_order acceptance e.state) es ≡ true
delivered_needs_acceptance s es i l =
    elim (leaves_through order_allowed is_unaccepted (is_order acceptance) unaccepted_closed s
      delivered es i l) [ inl stays ↦ absurd (ground arith) | inr passed ↦ passed ]

-- A legal history of a node in service that has left it has passed sanitizing, and a legal history of an
-- order that was neither accepted nor delivered at its start and is delivered at its end has passed the
-- acceptance.
pub gates_passed :
    (s t : NodeState) (es : List (LifecycleEvent NodeState)) (s' : OrderState)
    (es' : List (LifecycleEvent OrderState))
    → serves s ≡ true
    → Legal node_allowed s es t
    → is_unaccepted s' ≡ true
    → Legal order_allowed s' es' delivered
    → ((serves t ≡ true)
        ⊎ (any (λ (e : LifecycleEvent NodeState). is_node sanitizing e.state) es ≡ true))
      × (any (λ (e : LifecycleEvent OrderState). is_order acceptance e.state) es' ≡ true)
gates_passed s t es s' es' i l j m =
    (served_needs_sanitizing s t es i l, delivered_needs_acceptance s' es' j m)
