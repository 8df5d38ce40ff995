-- ===== src/Orders/Managed.antt =====
-- app/lifecycle.py: the stages of any order, where Kubernetes is installed in the foreground.
use neo_cloud_control_plane.Prelude.{
  String, ◌≡◌, true, false, some, none, Bool-cases, inl, inr, length, ◌∙◌, ap,
}
use neo_cloud_control_plane.Dict.{get, put}
use neo_cloud_control_plane.Lifecycle.{OrderState, ServiceOrder, World}
use neo_cloud_control_plane.Orders.{Floats}
use neo_cloud_control_plane.Orders.Stages.Handing.{Draws}
use neo_cloud_control_plane.Orders.Pipeline.{Stage, run_stages, stages_for}
use neo_cloud_control_plane.Orders.Approval.{AreStages, approve_all}
use neo_cloud_control_plane.Orders.Kubernetes.Running.{stage_k8s_install}
use neo_cloud_control_plane.Orders.Outcome.Installed.{stage_k8s_install-IsStage}
use neo_cloud_control_plane.Orders.Modes.{
  stages_for-bare, bare-AreStages, stages_for-managed, managed-AreStages, approve_all-run_stages,
  approve_all-run_managed,
}

-- `_k8s_stage_delay()` is 0
abbrev pub in_place : {N : Type 0} → Stage N
in_place = stage_k8s_install false

module _ {N : Type 0} (f : Floats N) (d : Draws) where
  -- Where Kubernetes is installed in the foreground, each stage of an order leaves the order stored,
  -- with its approval mode, its pending stage and its Kubernetes option, also where it raises; and where
  -- it returns, the order does not go on in the background, and is in the state of the stage, or
  -- rejected or failed.
  pub stages-AreStages :
      (oid : String) (o : ServiceOrder N) → AreStages oid (stages_for f d in_place o)
  stages-AreStages oid o = elim (Bool-cases o.managed_k8s) [
    | inl y ↦
        rw (stages_for-managed f d in_place o y)
          (managed-AreStages f d in_place oid (stage_k8s_install-IsStage oid))
    | inr n ↦ rw (stages_for-bare f d in_place o n) (bare-AreStages f d in_place oid)
  ]

  -- Where Kubernetes is installed in the foreground, an order that waits for its first stage in approval
  -- mode, and is approved once for each of its stages or until it waits no longer, ends as the same
  -- order whose stages run one after the other: in the same world, and with the same error where a stage
  -- raises one.
  pub approvals-run_stages :
      (oid : String) (w : World N) (o : ServiceOrder N)
      → get oid w.orders ≡ some o
      → o.approval_mode ≡ true
      → o.pending_stage ≡ some OrderState.validated
      → approve_all f d in_place (length (stages_for f d in_place o)) oid w
        ≡ run_stages
            (stages_for f d in_place o)
            oid
            (record w { orders = put oid (record o { pending_stage = none }) w.orders })
  approvals-run_stages oid w o e a p = elim (Bool-cases o.managed_k8s) [
    | inl y ↦
        ap (λ n. approve_all f d in_place n oid w) (ap length (stages_for-managed f d in_place o y))
        ∙ approve_all-run_managed f d in_place oid w o (stage_k8s_install-IsStage oid) e a y p
    | inr n ↦
        ap (λ n. approve_all f d in_place n oid w) (ap length (stages_for-bare f d in_place o n))
        ∙ approve_all-run_stages f d in_place oid w o e a n p
  ]
