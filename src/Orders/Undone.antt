-- ===== src/Orders/Undone.antt =====
-- app/lifecycle.py: what the compensation leaves of its order.
use neo_cloud_control_plane.Prelude.{String, refl, Bool, true, false, Option, none, some, List}
use neo_cloud_control_plane.Prelude.Exec.{modify}
use neo_cloud_control_plane.Lifecycle.{NodeInstance, OrderState, StorageAllocation, CpuNode}
use neo_cloud_control_plane.Orders.{on_node}
use neo_cloud_control_plane.Orders.Kept.{Terms, Keeps, keeps_rules, Keeps-modify}
use neo_cloud_control_plane.Orders.Saga.{
  teardown_view, teardown_segment, teardown_storage_and_segment, release_allocation, sync_cpu_nodes,
  rollback_node, roll_back, if_caught, stranded, lend_cpu, return_cpu, set_cpu, settle,
  release_instance, drop_view, reclaimed,
}

module _ {N : Type 0} {oid : String} {t : Terms} {Q : OrderState → Type 0} where
  reclaimed-Keeps :
      (sid : String) (sa : StorageAllocation N) (o : Option (Unit {0}))
      → Keeps {N = N} oid t Q (reclaimed sid sa o)
  reclaimed-Keeps sid sa none = search keeps_rules
  reclaimed-Keeps sid sa (some _) = Keeps-modify _ (λ w. refl)

  drop_view-Keeps :
      (sid : String) (o : Option (StorageAllocation N)) → Keeps {N = N} oid t Q (drop_view sid o)
  drop_view-Keeps sid none = search keeps_rules
  drop_view-Keeps sid (some sa) = search (keeps_rules, reclaimed-Keeps)

  teardown_view-Keeps : (sid : String) → Keeps {N = N} oid t Q (teardown_view sid)
  unfolding teardown_view
  teardown_view-Keeps sid = search (keeps_rules, drop_view-Keeps)

  teardown_segment-Keeps : (s : Option String) → Keeps {N = N} oid t Q (teardown_segment s)
  teardown_segment-Keeps none = search keeps_rules
  teardown_segment-Keeps (some s) = search keeps_rules

  pub teardown_storage_and_segment-Keeps :
      (sids : List String) (s : Option String)
      → Keeps {N = N} oid t Q (teardown_storage_and_segment sids s)
  unfolding teardown_storage_and_segment
  teardown_storage_and_segment-Keeps sids s =
      search (keeps_rules, teardown_view-Keeps, teardown_segment-Keeps)

  pub release_allocation-Keeps : (aid : String) → Keeps {N = N} oid t Q (release_allocation aid)
  unfolding release_allocation
  release_allocation-Keeps aid = search keeps_rules

  pub return_cpu-Keeps : (c : CpuNode) → Keeps {N = N} oid t Q (return_cpu c)
  return_cpu-Keeps c = Keeps-modify _ (λ w. refl)

  pub set_cpu-Keeps : (c : CpuNode) → Keeps {N = N} oid t Q (modify (set_cpu c))
  set_cpu-Keeps c = Keeps-modify _ (λ w. refl)

  lend_cpu-Keeps :
      (tenant : String) (s : Option String) (c : CpuNode)
      → Keeps {N = N} oid t Q (lend_cpu tenant s c)
  lend_cpu-Keeps tenant s c = search (keeps_rules, set_cpu-Keeps)

  settle-Keeps :
      (tenant : String) (s : Option String) (b : Bool) (mine lent : List CpuNode)
      → Keeps {N = N} oid t Q (settle tenant s b mine lent)
  settle-Keeps tenant s false mine lent = search (keeps_rules, return_cpu-Keeps)
  settle-Keeps tenant s true mine lent = search (keeps_rules, lend_cpu-Keeps)

  pub sync_cpu_nodes-Keeps :
      (tenant : String) (s : Option String) → Keeps {N = N} oid t Q (sync_cpu_nodes tenant s)
  unfolding sync_cpu_nodes
  sync_cpu_nodes-Keeps tenant s = search (keeps_rules, settle-Keeps)

  release_instance-Keeps :
      (node : NodeInstance) (i : String) → Keeps {N = N} oid t Q (release_instance node i)
  release_instance-Keeps node i = search keeps_rules

  roll_back-Keeps : (node : NodeInstance) → Keeps {N = N} oid t Q (roll_back node)
  roll_back-Keeps node = search (keeps_rules, release_instance-Keeps) depth 12

  if_caught-Keeps :
      (o : Option (Unit {0})) (key : String)
      → Keeps {N = N} oid t Q (if_caught o (on_node key (modify stranded)))
  if_caught-Keeps none key = search keeps_rules
  if_caught-Keeps (some _) key = search keeps_rules

  pub rollback_node-Keeps : (key : String) → Keeps {N = N} oid t Q (rollback_node key)
  unfolding rollback_node
  rollback_node-Keeps key = search (keeps_rules, roll_back-Keeps, if_caught-Keeps) depth 12
