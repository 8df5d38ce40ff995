-- ===== src/Orders/Outcome.antt =====
-- app/lifecycle.py: in which state each stage leaves its order.
pub mod Placed
pub mod Built
pub mod Handed
pub mod Installed
use neo_cloud_control_plane.Prelude.{
  ℕ, String, ◌≡◌, refl, Bool, true, false, Option, none, some, List, [], ◌∷◌, if◌then◌else◌, ◌⊎◌,
  inl, inr, is_some,
}
use neo_cloud_control_plane.Prelude.Exec.{Exec, pure, gets, ◌>>=◌, ◌>>◌}
use neo_cloud_control_plane.Lifecycle.{NodeInstance, OrderState, ServiceOrder, World}
use neo_cloud_control_plane.Orders.{
  on_nico, on_vast, on_store, on_node, on_order, attempt, for_each,
}
use neo_cloud_control_plane.Orders.Kept.{Terms, Has, Keeps, keeps_rules, Keeps-set}
use neo_cloud_control_plane.Orders.Holds.{Holds-for_each}
use neo_cloud_control_plane.Orders.Ends.{
  Ends, Ends-keep, Ends-move, Ends-Keeps, Ends-advance, Ends-weaken, Anything,
}
use neo_cloud_control_plane.Orders.Undone.{
  teardown_storage_and_segment-Keeps, release_allocation-Keeps, sync_cpu_nodes-Keeps,
  rollback_node-Keeps,
}
use neo_cloud_control_plane.Orders.Pipeline.{is_given_up}
use neo_cloud_control_plane.Orders.Saga.{compensate, rollback_node, release_allocation}

-- What a stage makes of its order: it is in the stage's state, or it has been given up.
abbrev pub Outcome : OrderState → OrderState → Type 0
Outcome st s = (s ≡ st) ⊎ (is_given_up s ≡ true)

pub ruleset ends_rules = (keeps_rules, Ends-keep, Ends-move, Ends-Keeps, Ends-advance, Keeps-set)

module _ {N : Type 0} {oid : String} {t : Terms} where
  pub compensate-Ends :
      {P : OrderState → Type 0} (keys : List String) (reason : String)
      → Ends {N = N} oid t P (λ s. s ≡ OrderState.failed) (compensate oid keys reason)
  unfolding compensate
  compensate-Ends keys reason =
      search
        (
          ends_rules, teardown_storage_and_segment-Keeps, release_allocation-Keeps,
          sync_cpu_nodes-Keeps, rollback_node-Keeps,
        )
        depth 16

  pub compensate-Outcome :
      {P : OrderState → Type 0} (st : OrderState) (keys : List String) (reason : String)
      → Ends {N = N} oid t P (Outcome st) (compensate oid keys reason)
  compensate-Outcome st keys reason =
      Ends-weaken _ (λ s e. inr (rw e refl)) (compensate-Ends keys reason)

  -- the last step of a stage
  pub Ends-last :
      {A : Type 0} (st : OrderState) (m : Exec (World N) A)
      → Keeps oid t (λ s. s ≡ st) m
      → Ends oid t (λ s. s ≡ st) (Outcome st) m
  Ends-last st m k = Ends-weaken m (λ s e. inl e) (Ends-Keeps m k)

pub ruleset outcome_rules =
    (keeps_rules, Ends-keep, Ends-move, Keeps-set, Ends-last, compensate-Outcome)
