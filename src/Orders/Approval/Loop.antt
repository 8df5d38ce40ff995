-- ===== src/Orders/Approval/Loop.antt =====
-- app/lifecycle.py: the approvals f d install oid of an order, stage after stage.
use neo_cloud_control_plane.Prelude.{
  suc, String, ◌≡◌, refl, sym, ap, ◌∙◌, Bool, true, false, none, some, [], ◌∷◌, inl, inr, length,
  eq_refl, ◌||◌,
}
use neo_cloud_control_plane.Prelude.Exec.{Result, ok, err, continue, ◌>>=◌}
use neo_cloud_control_plane.Dict.{get}
use neo_cloud_control_plane.Dict.Laws.{get-put}
use neo_cloud_control_plane.Lifecycle.{OrderState, ServiceOrder, World}
use neo_cloud_control_plane.Orders.{Floats}
use neo_cloud_control_plane.Orders.Kept.{Terms, Has}
use neo_cloud_control_plane.Orders.Ends.{Anything}
use neo_cloud_control_plane.Orders.Stages.{order_at}
use neo_cloud_control_plane.Orders.Stages.Handing.{Draws}
use neo_cloud_control_plane.Orders.Pipeline.{
  Stage, Stages, go_on, run_stages, stage_of, first_state, next_state, wait_at_gate, stages_for,
  is_terminal, is_given_up,
}
use neo_cloud_control_plane.Orders.Outcome.{Outcome}
use neo_cloud_control_plane.Orders.Approval.{
  AreStages, Follows, IsPlaced, EndsLast, bind-ok, order_at-ok, approve_all,
}
use neo_cloud_control_plane.Orders.Approval.Gates.{
  cleared, Approves, approve_step, approve_all_step, approvals, onwards, given_up,
}

module _ {N : Type 0} (f : Floats N) (d : Draws) (install : Stage N) where
  module _ (oid : String) where
    module _ (all : Stages N) (st : OrderState) (stage : Stage N) (more : Stages N) where
      -- what follows the stage, with approvals f d install oid and without
      approved : Result Bool × World N → Result (Unit {0}) × World N
      approved r =
          let x =
            continue r.0
              (λ b. order_at oid >>= λ order. wait_at_gate oid all st (is_terminal order.state))
              r.1 in
          let y = continue x.0 (λ u. order_at oid) x.1 in
          continue y.0 (λ u. approve_all f d install (length more) oid) y.1

      unattended : Result Bool × World N → Result (Unit {0}) × World N
      unattended r =
          continue r.0
            (λ b.
              order_at oid >>= λ order. go_on (is_given_up order.state || b) (run_stages more oid))
            r.1

      approved-unattended :
          (k8s : Bool) (t : Terms) (r : Result Bool) (w : World N)
          → t.approval_mode ≡ true
          → t.managed_k8s ≡ k8s
          → t.pending_stage ≡ none
          → ((b : Bool) → r ≡ ok b → (b ≡ false) × Has oid t (Outcome st) w)
          → next_state st all ≡ first_state more
          → IsPlaced st more
          → Approves f d install oid k8s more
          → approved (r, w) ≡ unattended (r, w)
      unfolding approved unattended
      approved-unattended k8s t (err c) w a k p after n s ih = refl
      approved-unattended k8s t (ok b) w a k p after n s ih =
          let (quiet, h) = after b refl in
          let still = λ (c : Bool). ap (λ b. go_on (c || b) (run_stages more oid) w) (sym quiet) in
          by_state h h.state
          ∙ (still (is_given_up h.order.state)
              ∙ sym (bind-ok (order_at oid) _ h.order w w (order_at-ok oid w h.order h.stored)))
        where
          by_state :
              (h : Has oid t (Outcome st) w)
              → Outcome st h.order.state
              → approvals f d install oid all st (length more) w
                ≡ go_on (is_given_up h.order.state || false) (run_stages more oid) w
          by_state h (inl q) =
              onwards f d install oid k8s all st more w h.order h.stored
                (ap (λ t. t.approval_mode) h.same ∙ a) (ap (λ t. t.managed_k8s) h.same ∙ k)
                (ap (λ t. t.pending_stage) h.same ∙ p) q n s ih
          by_state h (inr g) =
              given_up f d install oid all st more w h.order h.stored
                (ap (λ t. t.pending_stage) h.same ∙ p) g

      approved_lem :
          (w : World N) (o : ServiceOrder N)
          → get oid w.orders ≡ some o
          → o.approval_mode ≡ true
          → o.pending_stage ≡ some st
          → stages_for f d install o ≡ all
          → stage_of st all ≡ some stage
          → approve_all f d install (suc (length more)) oid w
            ≡ approved (stage oid (cleared f d install oid o w))
      unfolding approved
      approved_lem w o e a p s g =
          approve_all_step f d install oid (length more) w o st e p
          ∙ ap (λ y. continue y.0 (λ u. approve_all f d install (length more) oid) y.1)
              (approve_step f d install oid w o st stage all e a p s g)

      unattended_lem :
          (w : World N) → run_stages ((st, stage) ∷ more) oid w ≡ unattended (stage oid w)
      unfolding run_stages unattended
      unattended_lem w = refl

    pub loop :
        (k8s : Bool) (all : Stages N) (stages : Stages N)
        → ((o : ServiceOrder N) → o.managed_k8s ≡ k8s → stages_for f d install o ≡ all)
        → Follows all stages
        → EndsLast stages
        → AreStages oid stages
        → Approves f d install oid k8s stages
    loop k8s all [] same fs es ss = tt
    loop k8s all ((st, stage) ∷ more) same (g, n, fs) (placed, es) (is, ss) = λ w o e a k p.
        let w' = cleared f d install oid o w in
        let t : Terms = record {
          approval_mode = o.approval_mode;
          pending_stage = none;
          managed_k8s = o.managed_k8s;
          k8s_version = o.k8s_version;
        } in
        let has : Has oid t Anything w' = record {
          order = record o { pending_stage = none };
          stored = simp (get-put, eq_refl);
          same = refl;
          state = tt;
        } in
        approved_lem all st stage more w o e a p (same o k) g
        ∙ (approved-unattended all st stage more k8s t (stage oid w').0 (stage oid w').1 a k refl
              (λ b r. (is.quiet w' b r, (is.outcome t).ended w' b has r)) n placed
              (loop k8s all more same fs es ss)
            ∙ sym (unattended_lem all st stage more w'))
