-- ===== src/Orders/Outcome/Placed.antt =====
-- app/lifecycle.py: the outcome of _stage_validated and _stage_reserved.
use neo_cloud_control_plane.Prelude.{
  String, ◌≡◌, refl, Option, none, some, List, [], ◌∷◌, ◌++◌, inr, eqb, length,
}
use neo_cloud_control_plane.Prelude.Exec.{pure, require, ◌>>=◌, ◌>>◌}
use neo_cloud_control_plane.Tenancy.{Rack}
use neo_cloud_control_plane.Lifecycle.{NodeInstance, OrderState, ServiceOrder}
use neo_cloud_control_plane.Prelude.Sorting.{sort_by}
use neo_cloud_control_plane.Lifecycle.Placement.{nodes_of_rack}
use neo_cloud_control_plane.Orders.{Floats}
use neo_cloud_control_plane.Orders.Kept.{Terms, Keeps, keeps_rules}
use neo_cloud_control_plane.Orders.Holds.{Holds-bind, Holds-gets, Holds-require, Holds-pure}
use neo_cloud_control_plane.Orders.Ends.{Ends, Ends-weaken}
use neo_cloud_control_plane.Orders.Saga.{compensate}
use neo_cloud_control_plane.Orders.Stages.Placing.{
  nodes_for_racks, node_before, refuse, place, validate_and_place, stage_validated, after_reserve,
  reserve_one, reserve_nodes, stage_reserved,
}
use neo_cloud_control_plane.Orders.Outcome.{Outcome, outcome_rules, ends_rules, compensate-Outcome}

module _ {N : Type 0} {oid : String} {t : Terms} where
  nodes_for_racks-Keeps :
      {Q : OrderState → Type 0} (racks : List Rack) → Keeps {N = N} oid t Q (nodes_for_racks racks)
  unfolding nodes_for_racks
  nodes_for_racks-Keeps [] = search keeps_rules
  nodes_for_racks-Keeps {Q = Q} (rack ∷ racks) = after (nodes_for_racks-Keeps racks)
    where
      sorted :
          Keeps {N = N} oid t Q (nodes_for_racks racks)
          → (ns : List NodeInstance)
          → Keeps {N = N} oid t Q
              (nodes_for_racks racks >>= λ more. pure (sort_by node_before ns ++ more))
      sorted rest ns = Holds-bind _ _ rest (λ more. Holds-pure _)

      checked :
          Keeps {N = N} oid t Q (nodes_for_racks racks)
          → (ns : List NodeInstance)
          → Keeps {N = N} oid t Q (
              require (eqb (length ns) (length rack.tray_ids)) 500
              >> (nodes_for_racks racks >>= λ more. pure (sort_by node_before ns ++ more)))
      checked rest ns =
          Holds-bind _ _ (Holds-require (eqb (length ns) (length rack.tray_ids)) 500)
            (λ u. sorted rest ns)

      after :
          Keeps {N = N} oid t Q (nodes_for_racks racks)
          → Keeps {N = N} oid t Q (nodes_for_racks (rack ∷ racks))
      after rest =
          Holds-bind _ _ (Holds-gets (λ w. nodes_of_rack rack.id w.nodes)) (λ ns. checked rest ns)

  refuse-Outcome :
      {P : OrderState → Type 0} (st : OrderState) (detail : String)
      → Ends {N = N} oid t P (Outcome st) (refuse oid detail)
  refuse-Outcome {P = P} st detail = Ends-weaken _ (λ s e. inr (rw e refl)) refused
    where
      refused : Ends {N = N} oid t P (λ s. s ≡ OrderState.rejected) (refuse oid detail)
      refused = search ends_rules

  place-Outcome :
      (o : Option (List Rack))
      → Ends {N = N} oid t
          (λ s. s ≡ OrderState.validated)
          (Outcome OrderState.validated)
          (place oid o)
  place-Outcome none = refuse-Outcome _ _
  place-Outcome (some racks) = search (outcome_rules, nodes_for_racks-Keeps)

  validate_and_place-Outcome :
      {P : OrderState → Type 0} (order : ServiceOrder N) (o : Option String)
      → Ends oid t P (Outcome OrderState.validated) (validate_and_place oid order o)
  validate_and_place-Outcome order none = search (outcome_rules, place-Outcome)
  validate_and_place-Outcome order (some reason) = refuse-Outcome _ _

  pub stage_validated-Outcome :
      {P : OrderState → Type 0} (f : Floats N)
      → Ends oid t P (Outcome OrderState.validated) (stage_validated f oid)
  unfolding stage_validated
  stage_validated-Outcome f = search (outcome_rules, validate_and_place-Outcome)

  after_reserve-Keeps :
      {Q : OrderState → Type 0} (key : String) (o : Option Unit)
      → Keeps {N = N} oid t Q (after_reserve oid key o)
  after_reserve-Keeps key none = search keeps_rules
  after_reserve-Keeps key (some _) = search keeps_rules

  reserve_one-Keeps :
      {Q : OrderState → Type 0} (node : NodeInstance) → Keeps {N = N} oid t Q (reserve_one oid node)
  reserve_one-Keeps node = search (keeps_rules, after_reserve-Keeps)

  reserve_nodes-Outcome :
      (keys done : List String)
      → Ends {N = N} oid t
          (λ s. s ≡ OrderState.reserved)
          (Outcome OrderState.reserved)
          (reserve_nodes oid keys done)
  unfolding reserve_nodes
  reserve_nodes-Outcome [] done = search outcome_rules
  reserve_nodes-Outcome (key ∷ keys) done =
      let rest = goes_on (reserve_nodes-Outcome keys (done ++ key ∷ [])) in
      search (outcome_rules, reserve_one-Keeps, rest)
    where
      goes_on :
          Ends {N = N} oid t
            (λ s. s ≡ OrderState.reserved)
            (Outcome OrderState.reserved)
            (reserve_nodes oid keys (done ++ key ∷ []))
          → (stop : Option String)
          → Ends {N = N} oid t
              (λ s. s ≡ OrderState.reserved)
              (Outcome OrderState.reserved)
              (elim stop [
                | none ↦ reserve_nodes oid keys (done ++ key ∷ [])
                | some reason ↦ compensate oid done reason
              ])
      goes_on rest none = rest
      goes_on rest (some reason) = compensate-Outcome _ done reason

  pub stage_reserved-Outcome :
      {P : OrderState → Type 0}
      → Ends {N = N} oid t P (Outcome OrderState.reserved) (stage_reserved oid)
  unfolding stage_reserved
  stage_reserved-Outcome = search (outcome_rules, reserve_nodes-Outcome)
