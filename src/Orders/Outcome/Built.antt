-- ===== src/Orders/Outcome/Built.antt =====
-- app/lifecycle.py: the outcome of _stage_provisioning, _stage_isolating and _stage_storage_binding.
use neo_cloud_control_plane.Prelude.{
  String, ◌≡◌, not, Option, none, some, List, [], ◌∷◌, ◌==◌, select,
}
use neo_cloud_control_plane.Tenancy.{Rack, NetworkIsolation}
use neo_cloud_control_plane.Nico.{Host}
use neo_cloud_control_plane.Lifecycle.{NodeInstance, OrderState}
use neo_cloud_control_plane.Orders.{Floats}
use neo_cloud_control_plane.Orders.Kept.{Terms, Keeps, keeps_rules, Keeps-set, Keeps-modify}
use neo_cloud_control_plane.Orders.Ends.{Ends}
use neo_cloud_control_plane.Orders.Saga.{compensate}
use neo_cloud_control_plane.Orders.Undone.{sync_cpu_nodes-Keeps}
use neo_cloud_control_plane.Orders.Stages.Building.{
  after_provision, provision_one, provision_nodes, stage_provisioning, allocate_su, first_of,
  isolate, or_compensate, stage_isolating, Amounts, bind_storage, stage_storage_binding,
}
use neo_cloud_control_plane.Orders.Outcome.{Outcome, outcome_rules, compensate-Outcome}

module _ {N : Type 0} {oid : String} {t : Terms} where
  after_provision-Keeps :
      {Q : OrderState → Type 0} (tenant key : String) (o : Option Host)
      → Keeps {N = N} oid t Q (after_provision tenant key o)
  after_provision-Keeps tenant key none = search keeps_rules
  after_provision-Keeps tenant key (some host) = search keeps_rules

  provision_one-Keeps :
      {Q : OrderState → Type 0} (tenant : String) (node : NodeInstance)
      → Keeps {N = N} oid t Q (provision_one tenant node)
  provision_one-Keeps tenant node = search (keeps_rules, after_provision-Keeps)

  provision_nodes-Outcome :
      (tenant : String) (all keys : List String)
      → Ends {N = N} oid t
          (λ s. s ≡ OrderState.provisioning)
          (Outcome OrderState.provisioning)
          (provision_nodes oid tenant all keys)
  unfolding provision_nodes
  provision_nodes-Outcome tenant all [] = search outcome_rules
  provision_nodes-Outcome tenant all (key ∷ keys) =
      let rest = goes_on (provision_nodes-Outcome tenant all keys) in
      search (outcome_rules, provision_one-Keeps, rest)
    where
      goes_on :
          Ends {N = N} oid t
            (λ s. s ≡ OrderState.provisioning)
            (Outcome OrderState.provisioning)
            (provision_nodes oid tenant all keys)
          → (stop : Option String)
          → Ends {N = N} oid t
              (λ s. s ≡ OrderState.provisioning)
              (Outcome OrderState.provisioning)
              (elim stop [
                | none ↦ provision_nodes oid tenant all keys
                | some reason ↦ compensate oid (select (λ k. not (k == key)) all) reason
              ])
      goes_on rest none = rest
      goes_on rest (some reason) = compensate-Outcome _ _ reason

  pub stage_provisioning-Outcome :
      {P : OrderState → Type 0}
      → Ends {N = N} oid t P (Outcome OrderState.provisioning) (stage_provisioning oid)
  unfolding stage_provisioning
  stage_provisioning-Outcome = search (outcome_rules, provision_nodes-Outcome)

  pub first_of-Keeps :
      {Q : OrderState → Type 0} (allocs : List String) → Keeps {N = N} oid t Q (first_of allocs)
  first_of-Keeps [] = search keeps_rules
  first_of-Keeps (a ∷ more) = search keeps_rules

  allocate_su-Keeps :
      {Q : OrderState → Type 0} (tenant : String) (p : String × List String)
      → Keeps {N = N} oid t Q (allocate_su oid tenant p)
  allocate_su-Keeps tenant p = search (keeps_rules, Keeps-set)

  isolate-Keeps :
      {Q : OrderState → Type 0} (tenant : String) (nodes : List NodeInstance) (racks : List Rack)
      → Keeps {N = N} oid t Q (isolate oid tenant nodes racks)
  unfolding isolate
  isolate-Keeps tenant nodes racks =
      search (keeps_rules, Keeps-set, allocate_su-Keeps, first_of-Keeps, sync_cpu_nodes-Keeps) depth
        16

  pub or_compensate-Outcome :
      (st : OrderState) (keys : List String) (reason : String) (o : Option Unit)
      → Ends {N = N} oid t (λ s. s ≡ st) (Outcome st) (or_compensate oid keys reason o)
  or_compensate-Outcome st keys reason none = compensate-Outcome st keys reason
  or_compensate-Outcome st keys reason (some _) = search outcome_rules

  pub stage_isolating-Outcome :
      {P : OrderState → Type 0}
      → Ends {N = N} oid t P (Outcome OrderState.isolating) (stage_isolating oid)
  unfolding stage_isolating
  stage_isolating-Outcome = search (outcome_rules, isolate-Keeps, or_compensate-Outcome) depth 12

  module _ (f : Floats N) where
    bind_storage-Keeps :
        {Q : OrderState → Type 0} (tenant : String) (ni : NetworkIsolation) (a : Amounts N)
        → Keeps {N = N} oid t Q (bind_storage f oid tenant ni a)
    unfolding bind_storage
    bind_storage-Keeps tenant ni a =
        search (keeps_rules, Keeps-set, Keeps-modify, first_of-Keeps) depth 16

    pub stage_storage_binding-Outcome :
        {P : OrderState → Type 0}
        → Ends {N = N} oid t P (Outcome OrderState.storage_binding) (stage_storage_binding f oid)
    unfolding stage_storage_binding
    stage_storage_binding-Outcome =
        search (outcome_rules, bind_storage-Keeps, or_compensate-Outcome) depth 14
