-- ===== src/Orders/Modes.antt =====
-- app/lifecycle.py: the stages of an order without Kubernetes, approved one by one or run on their own.
use neo_cloud_control_plane.Prelude.{String, ◌∷◌, ◌≡◌, refl, true, false, some, none, ◌++◌}
use neo_cloud_control_plane.Dict.{get, put}
use neo_cloud_control_plane.Lifecycle.{OrderState, ServiceOrder, World}
use neo_cloud_control_plane.Orders.{Floats}
use neo_cloud_control_plane.Orders.Stages.Handing.{Draws}
use neo_cloud_control_plane.Orders.Pipeline.{
  Stage, Stages, run_stages, building_stages, last_stages, stages_for,
}
use neo_cloud_control_plane.Orders.Approval.{
  AreStages, IsStage, in_foreground-IsStage, Follows, EndsLast, approve_all,
}
use neo_cloud_control_plane.Orders.Approval.Loop.{loop}
use neo_cloud_control_plane.Orders.Outcome.Placed.{stage_validated-Outcome, stage_reserved-Outcome}
use neo_cloud_control_plane.Orders.Outcome.Built.{
  stage_provisioning-Outcome, stage_isolating-Outcome, stage_storage_binding-Outcome,
}
use neo_cloud_control_plane.Orders.Outcome.Handed.{
  stage_acceptance-Outcome, stage_delivered-Outcome,
}

module _ {N : Type 0} (f : Floats N) (d : Draws) (install : Stage N) where
  abbrev pub bare : Stages N
  bare = building_stages f d install ++ last_stages f d install

  pub stages_for-bare :
      (o : ServiceOrder N) → o.managed_k8s ≡ false → stages_for f d install o ≡ bare
  unfolding stages_for
  stages_for-bare o e = rw e refl

  last-AreStages : (oid : String) → AreStages oid (last_stages f d install)
  last-AreStages oid =
      (in_foreground-IsStage oid OrderState.delivered _ (λ t. stage_delivered-Outcome d), tt)

  building-AreStages :
      (oid : String) (last : Stages N)
      → AreStages oid last
      → AreStages oid (building_stages f d install ++ last)
  building-AreStages oid last h = (
    in_foreground-IsStage oid OrderState.validated _ (λ t. stage_validated-Outcome f),
    (
      in_foreground-IsStage oid OrderState.reserved _ (λ t. stage_reserved-Outcome),
      (
        in_foreground-IsStage oid OrderState.provisioning _ (λ t. stage_provisioning-Outcome),
        (
          in_foreground-IsStage oid OrderState.isolating _ (λ t. stage_isolating-Outcome),
          (
            in_foreground-IsStage oid OrderState.storage_binding _
                (λ t. stage_storage_binding-Outcome f),
            (
              in_foreground-IsStage oid OrderState.acceptance _ (λ t. stage_acceptance-Outcome d),
              h,
            ),
          ),
        ),
      ),
    ),
  )

  pub bare-AreStages : (oid : String) → AreStages oid bare
  bare-AreStages oid = building-AreStages oid (last_stages f d install) (last-AreStages oid)

  -- the stages of an order with Kubernetes
  abbrev pub managed : Stages N
  managed =
      building_stages f d install ++ (OrderState.k8s_installing, install) ∷ last_stages f d install

  pub stages_for-managed :
      (o : ServiceOrder N) → o.managed_k8s ≡ true → stages_for f d install o ≡ managed
  unfolding stages_for
  stages_for-managed o e = rw e refl

  pub managed-AreStages :
      (oid : String) → IsStage oid OrderState.k8s_installing install → AreStages oid managed
  managed-AreStages oid is =
      building-AreStages oid ((OrderState.k8s_installing, install) ∷ last_stages f d install)
        (is, last-AreStages oid)

  pub bare-Follows : Follows bare bare
  bare-Follows = (
    refl,
    refl,
    (refl, refl, (refl, refl, (refl, refl, (refl, refl, (refl, refl, (refl, refl, tt)))))),
  )

  pub managed-Follows : Follows managed managed
  managed-Follows = (
    refl,
    refl,
    (
      refl,
      refl,
      (refl, refl, (refl, refl, (refl, refl, (refl, refl, (refl, refl, (refl, refl, tt)))))),
    ),
  )

  -- An order without Kubernetes that waits for its first stage in approval mode, and is approved as long
  -- as it waits, ends as the same order whose stages run one after the other: in the same world, and
  -- with the same error where a stage raises one. Seven approvals are enough.
  pub approve_all-run_stages :
      (oid : String) (w : World N) (o : ServiceOrder N)
      → get oid w.orders ≡ some o
      → o.approval_mode ≡ true
      → o.managed_k8s ≡ false
      → o.pending_stage ≡ some OrderState.validated
      → approve_all f d install 7 oid w
        ≡ run_stages
            (stages_for f d install o)
            oid
            (record w { orders = put oid (record o { pending_stage = none }) w.orders })
  approve_all-run_stages oid w o e a k p = rw (stages_for-bare o k) (
      loop f d install oid false bare bare stages_for-bare bare-Follows ends (bare-AreStages oid) w
        o e a k p)
    where
      ends : EndsLast bare
      ends = (
        (refl, refl),
        ((refl, refl), ((refl, refl), ((refl, refl), ((refl, refl), ((refl, refl), (refl, tt)))))),
      )

  -- An order that waits for its first stage in approval mode, and is approved as long as it waits, ends
  -- as the same order whose stages run one after the other, with an installation of Kubernetes that is a
  -- stage like the others where the order has one. Eight approvals are enough.
  pub approve_all-run_managed :
      (oid : String) (w : World N) (o : ServiceOrder N)
      → IsStage oid OrderState.k8s_installing install
      → get oid w.orders ≡ some o
      → o.approval_mode ≡ true
      → o.managed_k8s ≡ true
      → o.pending_stage ≡ some OrderState.validated
      → approve_all f d install 8 oid w
        ≡ run_stages
            (stages_for f d install o)
            oid
            (record w { orders = put oid (record o { pending_stage = none }) w.orders })
  approve_all-run_managed oid w o is e a k p = rw (stages_for-managed o k) (
      loop f d install oid true managed managed stages_for-managed managed-Follows ends
        (managed-AreStages oid is) w o e a k p)
    where
      ends : EndsLast managed
      ends = (
        (refl, refl),
        (
          (refl, refl),
          (
            (refl, refl),
            ((refl, refl), ((refl, refl), ((refl, refl), ((refl, refl), (refl, tt))))),
          ),
        ),
      )
