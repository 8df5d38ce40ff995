-- ===== src/Orders/Approval/Gates.antt =====
-- app/lifecycle.py: one approval, and the gate after its stage.
use neo_cloud_control_plane.Prelude.{
  ℕ, zero, suc, String, ◌≡◌, refl, sym, ap, ◌∙◌, Bool, true, false, none, some, [], ◌∷◌, is_some,
  length, eq_refl, ◌||◌,
}
use neo_cloud_control_plane.Prelude.Exec.{Exec, ok, continue, ◌>>=◌, ◌>>◌}
use neo_cloud_control_plane.Dict.{get, put}
use neo_cloud_control_plane.Dict.Laws.{get-put, put-put, put-same}
use neo_cloud_control_plane.Lifecycle.{OrderState, ServiceOrder, World}
use neo_cloud_control_plane.Orders.{Floats}
use neo_cloud_control_plane.Orders.Stages.{order_at}
use neo_cloud_control_plane.Orders.Stages.Handing.{Draws}
use neo_cloud_control_plane.Orders.Pipeline.{
  Stage, Stages, go_on, run_stages, stage_of, first_state, next_state, wait_at_gate,
  approve_next_stage, stages_for, is_terminal, is_given_up,
}
use neo_cloud_control_plane.Orders.Approval.{
  IsPlaced, approve_if, bind-ok, order_at-ok, given_up-terminal, approve_all,
}

module _ {N : Type 0} (f : Floats N) (d : Draws) (install : Stage N) where
  module _ (oid : String) where
    abbrev pub cleared : ServiceOrder N → World N → World N
    cleared o w = record w { orders = put oid (record o { pending_stage = none }) w.orders }

    pub approve_step :
        (w : World N) (o : ServiceOrder N) (st : OrderState) (stage : Stage N) (all : Stages N)
        → get oid w.orders ≡ some o
        → o.approval_mode ≡ true
        → o.pending_stage ≡ some st
        → stages_for f d install o ≡ all
        → stage_of st all ≡ some stage
        → approve_next_stage f d install oid w
          ≡ ((stage oid >>= λ b.
                  order_at oid >>= λ order. wait_at_gate oid all st (is_terminal order.state))
                >>= λ u. order_at oid)
              (cleared o w)
    unfolding approve_next_stage get put
    approve_step w o st stage all e a p s g = simp (e, a, p, s, g)

    -- an order that waits for no stage
    pub approve_all_over :
        (n : ℕ) (w : World N) (o : ServiceOrder N)
        → get oid w.orders ≡ some o
        → o.pending_stage ≡ none
        → approve_all f d install n oid w ≡ (ok tt, w)
    unfolding approve_all
    approve_all_over zero w o e p = refl
    approve_all_over (suc n) w o e p =
        bind-ok (order_at oid) _ o w w (order_at-ok oid w o e)
        ∙ ap
            (λ q.
              approve_if (is_some q)
                (approve_next_stage f d install oid >> approve_all f d install n oid) w)
            p

    pub approve_all_step :
        (n : ℕ) (w : World N) (o : ServiceOrder N) (st : OrderState)
        → get oid w.orders ≡ some o
        → o.pending_stage ≡ some st
        → approve_all f d install (suc n) oid w
          ≡ continue
              (approve_next_stage f d install oid w).0
              (λ u. approve_all f d install n oid)
              (approve_next_stage f d install oid w).1
    unfolding approve_all
    approve_all_step n w o st e p =
        bind-ok (order_at oid) _ o w w (order_at-ok oid w o e)
        ∙ ap
            (λ q.
              approve_if (is_some q)
                (approve_next_stage f d install oid >> approve_all f d install n oid) w)
            p

    module _ (all : Stages N) (st : OrderState) (w : World N) (o : ServiceOrder N)
        (e : get oid w.orders ≡ some o) where
      abbrev gate : Exec (World N) (ServiceOrder N)
      gate = (order_at oid >>= λ order. wait_at_gate oid all st (is_terminal order.state)) >>= λ u.
          order_at oid

      gate_shut : is_terminal o.state ≡ true → gate w ≡ (ok o, w)
      gate_shut t = simp (e, t)

      abbrev pub waiting_for : OrderState → ServiceOrder N
      waiting_for st' = record o { pending_stage = some st' }

      abbrev pub waiting_at : OrderState → World N
      waiting_at st' = record w { orders = put oid (waiting_for st') w.orders }

      gate_open :
          (st' : OrderState)
          → is_terminal o.state ≡ false
          → next_state st all ≡ some st'
          → gate w ≡ (ok (waiting_for st'), waiting_at st')
      unfolding get put
      gate_open st' t n = simp (e, t, n) (simp (get-put, eq_refl))

      cleared_again :
          (st' : OrderState)
          → o.pending_stage ≡ none
          → cleared (waiting_for st') (waiting_at st') ≡ w
      cleared_again st' p =
          ap (λ os. record w { orders = os })
            (put-put oid (record o { pending_stage = none }) (waiting_for st') w.orders
              ∙ (ap (λ x. put oid x w.orders) (ap (λ q. record o { pending_stage = q }) (sym p))
                  ∙ put-same oid o w.orders e))

    pub go_on_nothing : (b : Bool) (w : World N) → go_on b (run_stages [] oid) w ≡ (ok tt, w)
    unfolding run_stages
    go_on_nothing true w = refl
    go_on_nothing false w = refl

    -- what the theorem says of an order that waits for the first of some stages
    abbrev pub Approves : Bool → Stages N → Type 0
    Approves k8s [] = Unit
    Approves k8s ((st, stage) ∷ more) =
        (w : World N) (o : ServiceOrder N)
        → get oid w.orders ≡ some o
        → o.approval_mode ≡ true
        → o.managed_k8s ≡ k8s
        → o.pending_stage ≡ some st
        → approve_all f d install (suc (length more)) oid w
          ≡ run_stages ((st, stage) ∷ more) oid (cleared o w)

    abbrev pub gate_of : Stages N → OrderState → Exec (World N) (ServiceOrder N)
    gate_of all st =
        (order_at oid >>= λ order. wait_at_gate oid all st (is_terminal order.state)) >>= λ u.
        order_at oid

    -- the approvals after a stage that has returned, and the loop there
    abbrev pub approvals : Stages N → OrderState → ℕ → Exec (World N) (Unit {0})
    approvals all st n = gate_of all st >>= λ u. approve_all f d install n oid

    pub shut :
        (all : Stages N) (st : OrderState) (n : ℕ) (w : World N) (o : ServiceOrder N)
        → get oid w.orders ≡ some o
        → o.pending_stage ≡ none
        → is_terminal o.state ≡ true
        → approvals all st n w ≡ (ok tt, w)
    shut all st n w o e p t =
        bind-ok (gate_of all st) _ o w w (gate_shut all st w o e t) ∙ approve_all_over n w o e p

    pub onwards :
        (k8s : Bool) (all : Stages N) (st : OrderState) (more : Stages N) (w : World N)
        (o : ServiceOrder N)
        → get oid w.orders ≡ some o
        → o.approval_mode ≡ true
        → o.managed_k8s ≡ k8s
        → o.pending_stage ≡ none
        → o.state ≡ st
        → next_state st all ≡ first_state more
        → IsPlaced st more
        → Approves k8s more
        → approvals all st (length more) w
          ≡ go_on (is_given_up o.state || false) (run_stages more oid) w
    onwards k8s all st [] w o e a k p q n t ih =
        shut all st 0 w o e p (ap is_terminal q ∙ t)
        ∙ sym (go_on_nothing (is_given_up o.state || false) w)
    onwards k8s all st ((st', stage') ∷ more) w o e a k p q n (open', alive) ih =
        bind-ok (gate_of all st) _ _ w _ (gate_open all st w o e st' (ap is_terminal q ∙ open') n)
        ∙ (ih (waiting_at all st w o e st') (waiting_for all st w o e st') (simp (get-put, eq_refl))
              a k refl
            ∙ (ap (run_stages ((st', stage') ∷ more) oid) (cleared_again all st w o e st' p)
                ∙ sym (
                    ap (λ b. go_on (b || false) (run_stages ((st', stage') ∷ more) oid) w)
                      (ap is_given_up q ∙ alive))))

    pub given_up :
        (all : Stages N) (st : OrderState) (more : Stages N) (w : World N) (o : ServiceOrder N)
        → get oid w.orders ≡ some o
        → o.pending_stage ≡ none
        → is_given_up o.state ≡ true
        → approvals all st (length more) w
          ≡ go_on (is_given_up o.state || false) (run_stages more oid) w
    given_up all st more w o e p g =
        shut all st (length more) w o e p (given_up-terminal o.state g)
        ∙ sym (ap (λ b. go_on (b || false) (run_stages more oid) w) g)
