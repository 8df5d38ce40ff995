-- ===== src/Orders/Outcome/Handed.antt =====
-- app/lifecycle.py: the outcome of _stage_acceptance and _stage_delivered.
use neo_cloud_control_plane.Prelude.{String, ◌≡◌, Bool, true, false, List, inl}
use neo_cloud_control_plane.Lifecycle.{OrderState}
use neo_cloud_control_plane.Orders.Kept.{Terms, Keeps, keeps_rules, Keeps-set}
use neo_cloud_control_plane.Orders.Ends.{Ends, Ends-weaken}
use neo_cloud_control_plane.Orders.Stages.Handing.{
  Draws, accept, stage_acceptance, build_access_package, stage_delivered,
}
use neo_cloud_control_plane.Orders.Outcome.{Outcome, outcome_rules, ends_rules, compensate-Outcome}

module _ {N : Type 0} {oid : String} {t : Terms} (d : Draws) where
  accept-Outcome :
      (tenant : String) (keys : List String) (b : Bool)
      → Ends {N = N} oid t
          (λ s. s ≡ OrderState.acceptance)
          (Outcome OrderState.acceptance)
          (accept d oid tenant keys b)
  accept-Outcome tenant keys false = compensate-Outcome _ _ _
  accept-Outcome tenant keys true = search outcome_rules

  pub stage_acceptance-Outcome :
      {P : OrderState → Type 0}
      → Ends {N = N} oid t P (Outcome OrderState.acceptance) (stage_acceptance d oid)
  unfolding stage_acceptance
  stage_acceptance-Outcome = search (outcome_rules, accept-Outcome) depth 14

  build_access_package-Keeps :
      {Q : OrderState → Type 0} → Keeps {N = N} oid t Q (build_access_package d oid)
  unfolding build_access_package
  build_access_package-Keeps = search (keeps_rules, Keeps-set) depth 14

  pub stage_delivered-Outcome :
      {P : OrderState → Type 0}
      → Ends {N = N} oid t P (Outcome OrderState.delivered) (stage_delivered d oid)
  stage_delivered-Outcome {P = P} = Ends-weaken _ (λ s e. inl e) delivered
    where
      delivered : Ends {N = N} oid t P (λ s. s ≡ OrderState.delivered) (stage_delivered d oid)
      delivered = unfold stage_delivered in search (ends_rules, build_access_package-Keeps) depth 14
