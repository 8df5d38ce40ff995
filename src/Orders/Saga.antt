-- ===== src/Orders/Saga.antt =====
-- app/lifecycle.py: the saga's way back (_teardown_storage_and_segment, _compensate) and the CPU nodes
-- of a tenant (_sync_cpu_nodes).
use neo_cloud_control_plane.Prelude.{
  or_else, ℕ, ◌+◌, ◌-◌, String, ◌+++◌, Bool, true, false, ◌||◌, Option, none, some, List, [], ◌==◌,
  if◌then◌else◌, select, any, length, is_text,
}
use neo_cloud_control_plane.Prelude.Decimal.{decimal}
use neo_cloud_control_plane.Prelude.Exec.{Exec, or_raise, gets, modify, pure, ◌>>=◌, ◌>>◌}
use neo_cloud_control_plane.Dict.{get, put, has, values}
use neo_cloud_control_plane.Tenancy.{Allocation}
use neo_cloud_control_plane.Tenancy.Racks.{delete_allocation}
use neo_cloud_control_plane.Nico.{Nico, Job, JobState, succeeded}
use neo_cloud_control_plane.Nico.Address.{last_number}
use neo_cloud_control_plane.Nico.Jobs.{wait_job}
use neo_cloud_control_plane.Nico.Hosts.{unreserve, release, abort_provision, sanitize}
use neo_cloud_control_plane.Nico.Segments.{delete_segment}
use neo_cloud_control_plane.Vast.{delete_view}
use neo_cloud_control_plane.Lifecycle.{
  NodeState, OrderState, NodeInstance, ServiceOrder, CpuNode, StorageAllocation, World,
  node_transitions, lists_node, is_node, advance_node, advance_order,
}
use neo_cloud_control_plane.Lifecycle.Placement.{take}
use neo_cloud_control_plane.Lifecycle.Reconcile.{note_event}
use neo_cloud_control_plane.Orders.{
  on_nico, on_vast, on_store, on_node, on_order, attempt, for_each,
}

-- `wait_job(adapter, adapter.call(…))`, at most 60 polls
abbrev pub waiting : Exec Nico Job → Exec Nico Job
waiting call = call >>= wait_job 60

abbrev pub is_succeeded : JobState → Bool
is_succeeded succeeded = true
is_succeeded _ = false

abbrev is_of : String → CpuNode → Bool
is_of tenant_id c = is_text c.tenant_id tenant_id

abbrev pub returned : CpuNode → CpuNode
returned c = record c {
  tenant_id = none;
  state = "pool_ready";
  host_ip = "";
  segment_id = none;
  role = "general";
  order_id = none;
}

-- CPU_NODES_PER_TENANT
abbrev pub cpu_nodes_per_tenant : ℕ
cpu_nodes_per_tenant = 5

abbrev pub stranded : NodeInstance → NodeInstance
stranded node =
    if lists_node (node_transitions node.state) NodeState.cordoned
    then (advance_node NodeState.cordoned "saga rollback failed" node).1
    else note_event "saga rollback failed" node

abbrev pub unbound : NodeInstance → NodeInstance
unbound node = record node { tenant_id = none; order_id = none }

module _ {N : Type 0} where
  abbrev pub reclaimed :
      String → StorageAllocation N → Option (Unit {0}) → Exec (World N) (Unit {0})
  reclaimed sid sa none = pure tt
  reclaimed sid sa (some _) =
      modify
        (λ w. record w { storage_allocs = put sid (record sa { active = false }) w.storage_allocs })

  -- the view of a storage allocation that is active; a failure of the call is noted only
  abbrev pub drop_view : String → Option (StorageAllocation N) → Exec (World N) (Unit {0})
  drop_view sid none = pure tt
  drop_view sid (some sa) =
      if sa.active
      then attempt (on_vast (delete_view sa.view_path >>= λ v. pure tt)) >>= reclaimed sid sa
      else pure tt

  unfoldable pub teardown_view : String → Exec (World N) (Unit {0})
  unfolding delete_view
  teardown_view sid = do found ← gets (λ w. get sid w.storage_allocs); drop_view sid found

  abbrev pub teardown_segment : Option String → Exec (World N) (Unit {0})
  teardown_segment none = pure tt
  teardown_segment (some segment_id) = do
    gone ← attempt (on_nico (delete_segment segment_id))
    pure tt

  unfoldable pub teardown_storage_and_segment :
      List String → Option String → Exec (World N) (Unit {0})
  unfolding teardown_view delete_segment for_each
  teardown_storage_and_segment storage_ids segment_id = do
    for_each teardown_view storage_ids
    teardown_segment segment_id

  abbrev pub set_cpu : CpuNode → World N → World N
  set_cpu c w = record w { cpu_nodes = put c.id c w.cpu_nodes }

  abbrev pub return_cpu : CpuNode → Exec (World N) (Unit {0})
  return_cpu c = modify (set_cpu (returned c))

  -- `int(cn.id.rsplit("-", 1)[1])` raises ValueError where no number stands
  abbrev pub lend_cpu : String → Option String → CpuNode → Exec (World N) (Unit {0})
  lend_cpu tenant_id segment_id c = do
    idx ← or_raise (last_number none c.id) 500
    modify (
        set_cpu (record c {
          tenant_id = some tenant_id;
          state = "allocated";
          host_ip = "10.250.0." +++ decimal (idx + 1);
          segment_id = segment_id;
        }))

  -- what `_sync_cpu_nodes` does to the CPU nodes, by whether the tenant has an allocation
  abbrev pub settle : String → Option String → Bool → List CpuNode → List CpuNode → Exec (World N) ℕ
  settle tenant_id segment_id false mine lent = do for_each return_cpu mine; pure 0
  settle tenant_id segment_id true mine lent = do
    for_each (lend_cpu tenant_id segment_id) lent
    pure (length mine + length lent)

  -- the number of the tenant's CPU nodes comes back
  unfoldable pub sync_cpu_nodes : String → Option String → Exec (World N) ℕ
  unfolding for_each
  sync_cpu_nodes tenant_id segment_id = do
    has_gpu ←
        gets (λ w. any (λ (a : Allocation). a.tenant_id == tenant_id) (values w.store.allocations))
    mine ← gets (λ w. select (is_of tenant_id) (values w.cpu_nodes))
    pool ← gets (λ w. select (λ (c : CpuNode). c.state == "pool_ready") (values w.cpu_nodes))
    let general = length (select (λ (c : CpuNode). c.role == "general") mine)
    settle tenant_id segment_id has_gpu mine (take (cpu_nodes_per_tenant - general) pool)

  -- the way back of one node, by its state
  abbrev pub release_instance : NodeInstance → String → Exec (World N) (Unit {0})
  release_instance node i =
      if i == "" then on_nico (abort_provision node.nico_host_id >>= λ h. pure tt) else (do
        on_nico (waiting (release i))
        on_node node.id (modify (λ n. record n { nico_instance_id = none })))

  abbrev pub release_host : NodeInstance → Exec (World N) (Unit {0})
  release_host node = release_instance node (or_else node.nico_instance_id "")

  abbrev pub roll_back : NodeInstance → Exec (World N) (Unit {0})
  roll_back node =
      if is_node NodeState.reserved node.state
      then (do
        on_nico (unreserve node.nico_host_id)
        on_node node.id (advance_node NodeState.pool_ready "saga: unreserved"))
      else if is_node NodeState.provisioning node.state || is_node NodeState.allocated node.state
      then (do
        release_host node
        on_node node.id (advance_node NodeState.releasing "saga: rollback release")
        job ← on_nico (waiting (sanitize node.nico_host_id))
        on_node node.id (advance_node NodeState.sanitizing "saga: sanitizing")
        on_node node.id (
            if is_succeeded job.state
            then advance_node NodeState.pool_ready "saga: sanitized, pool return"
            else advance_node NodeState.rma "saga: sanitize failed"))
      else pure tt

  abbrev pub if_caught :
      {A : Type 0} → Option A → Exec (World N) (Unit {0}) → Exec (World N) (Unit {0})
  if_caught none handler = handler
  if_caught (some _) handler = pure tt

  unfoldable pub rollback_node : String → Exec (World N) (Unit {0})
  unfolding advance_node unreserve release abort_provision sanitize wait_job
  rollback_node key = do
    found ← gets (λ w. get key w.nodes)
    node ← or_raise found 500
    done ← attempt (roll_back node)
    if_caught done (on_node key (modify stranded))
    on_node key (modify unbound)

  unfoldable pub release_allocation : String → Exec (World N) (Unit {0})
  unfolding delete_allocation
  release_allocation aid = do
    known ← gets (λ w. has aid w.store.allocations)
    if known then on_store (delete_allocation aid >>= λ r. pure tt) else pure tt

  -- _compensate, on the nodes under these keys
  unfoldable pub compensate : String → List String → String → Exec (World N) (Unit {0})
  unfolding advance_order teardown_storage_and_segment release_allocation sync_cpu_nodes
      rollback_node for_each
  compensate oid keys reason = do
    on_order oid (advance_order OrderState.compensating ("saga: " +++ reason))
    found ← gets (λ w. get oid w.orders)
    order ← or_raise found 500
    teardown_storage_and_segment order.storage_ids order.segment_id
    on_order oid (modify (λ (o : ServiceOrder N). record o { segment_id = none }))
    for_each release_allocation order.allocation_ids
    on_order oid (modify (λ (o : ServiceOrder N). record o { allocation_ids = [] }))
    sync_cpu_nodes order.tenant_id none
    for_each rollback_node keys
    on_order oid (advance_order OrderState.failed reason)
    on_order oid (modify (λ (o : ServiceOrder N). record o { error = some reason }))
