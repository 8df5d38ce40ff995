-- ===== src/Orders/Reclaim.antt =====
-- app/lifecycle.py: an order that gives an allocation back (run_terminate_order) and the routes of
-- orders. How the Kubernetes clusters of an allocation are taken down is a parameter.
use neo_cloud_control_plane.Prelude.{
  String, ◌+++◌, Bool, true, false, ◌&&◌, ◌||◌, Option, none, some, List, [], ◌∷◌, ◌++◌, map, ◌==◌,
  if◌then◌else◌, select, is_text, or_else, contains,
}
use neo_cloud_control_plane.Prelude.Decimal.{decimal}
use neo_cloud_control_plane.Prelude.Exec.{or_raise, Exec, raise, gets, modify, pure, ◌>>=◌, ◌>>◌}
use neo_cloud_control_plane.Prelude.Sorting.{sort_by}
use neo_cloud_control_plane.Dict.{Dict, get, put, values}
use neo_cloud_control_plane.Shared.{revoke_order_credentials}
use neo_cloud_control_plane.Tenancy.{Allocation, next_seq}
use neo_cloud_control_plane.Tenancy.Racks.{delete_allocation}
use neo_cloud_control_plane.Nico.{Segment}
use neo_cloud_control_plane.Nico.Hosts.{release, sanitize, get_sanitize_report}
use neo_cloud_control_plane.Lifecycle.{
  NodeState, OrderState, OrderKind, NodeInstance, ServiceOrder, StorageAllocation, World, is_node,
  advance_node, advance_order,
}
use neo_cloud_control_plane.Lifecycle.Placement.{nodes_of_rack}
use neo_cloud_control_plane.Lifecycle.Reconcile.{note_event}
use neo_cloud_control_plane.Orders.{
  Floats, on_nico, on_store, on_shared, on_node, on_order, attempt,
}
use neo_cloud_control_plane.Orders.Saga.{
  waiting, is_succeeded, teardown_storage_and_segment, sync_cpu_nodes,
}
use neo_cloud_control_plane.Orders.Stages.{order_at, node_at, ids, set_order}
use neo_cloud_control_plane.Orders.Stages.Placing.{node_before, refuse}
use neo_cloud_control_plane.Orders.Stages.Handing.{Draws}
use neo_cloud_control_plane.Orders.Pipeline.{Stage, OrderCreate, order_of, run_new_order}

-- the tenant's nodes on the racks of an allocation
abbrev pub nodes_held : String → Dict NodeInstance → List String → List NodeInstance
nodes_held tenant_id nodes [] = []
nodes_held tenant_id nodes (rid ∷ rids) =
    select (λ (n : NodeInstance). is_text n.tenant_id tenant_id) (nodes_of_rack rid nodes)
    ++ nodes_held tenant_id nodes rids

-- `next((… for sg in segs if …), None)`
abbrev pub first_segment : (Segment → Bool) → List Segment → Option String
first_segment is_wanted [] = none
first_segment is_wanted (sg ∷ sgs) =
    if is_wanted sg then some sg.segment_id else first_segment is_wanted sgs

-- the segment of an allocation, or else one of the tenant
abbrev pub segment_for : String → String → List Segment → Option String
segment_for alloc_id tenant_id sgs =
    elim (first_segment (λ (sg : Segment). is_text sg.allocation_id alloc_id) sgs) [
      | some i ↦ some i
      | none ↦ first_segment (λ (sg : Segment). sg.tenant_ref == tenant_id) sgs
    ]

-- what became of a node that was to be reclaimed
pub data Fate : Type 0 where
  returned disposed stuck : Fate

abbrev pub is_fate : Fate → Fate → Bool
is_fate returned returned = true
is_fate disposed disposed = true
is_fate stuck stuck = true
is_fate _ _ = false

abbrev pub trouble : List Fate → Option String
trouble fates =
    if is_some_fate disposed fates && is_some_fate stuck fates
    then some "sanitize failed; reclaim incomplete"
    else if is_some_fate disposed fates
    then some "sanitize failed"
    else if is_some_fate stuck fates
    then some "reclaim incomplete"
    else none
  where
    is_some_fate : Fate → List Fate → Bool
    is_some_fate f [] = false
    is_some_fate f (g ∷ gs) = is_fate f g || is_some_fate f gs

module _ {N : Type 0} where
  abbrev pub storage_held : String → World N → List String
  storage_held alloc_id w =
      map (λ (sa : StorageAllocation N). sa.id)
        (select (λ (sa : StorageAllocation N). is_text sa.allocation_id alloc_id && sa.active)
          (values w.storage_allocs))

  abbrev pub release_held : NodeInstance → String → Exec (World N) (Unit {0})
  release_held node i = if i == "" then pure tt else (do
    on_nico (waiting (release i))
    on_node node.id (modify (λ n. record n { nico_instance_id = none })))

  -- what is given back: whether the node goes to RMA
  abbrev pub after_sanitize : NodeInstance → Bool → Exec (World N) Bool
  after_sanitize node true = do
    report ← on_nico (get_sanitize_report node.nico_host_id)
    on_node node.id (advance_node NodeState.pool_ready "sanitized ok, pool return")
    pure false
  after_sanitize node false = do
    on_node node.id (advance_node NodeState.rma "sanitize failed")
    pure true

  -- the steps of a node that is drained
  abbrev pub give_back : NodeInstance → Exec (World N) Bool
  give_back node = do
    release_held node (or_else node.nico_instance_id "")
    on_node node.id (advance_node NodeState.releasing "reclaim: nico release")
    job ← on_nico (waiting (sanitize node.nico_host_id))
    on_node node.id
        (advance_node NodeState.sanitizing "nvme erase / gpu+mem wipe / tpm reset / re-attest")
    after_sanitize node (is_succeeded job.state)

  -- the `try` of a node's round
  unfoldable pub reclaim_steps : NodeInstance → Exec (World N) Bool
  unfolding advance_node release sanitize get_sanitize_report
  reclaim_steps node =
      if is_node NodeState.in_service node.state
      then on_node node.id (advance_node NodeState.draining "reclaim: tenant workload drain")
        >> give_back node
      else if is_node NodeState.cordoned node.state
      then on_node node.id (advance_node NodeState.draining "reclaim") >> give_back node
      else if is_node NodeState.draining node.state
      then give_back node
      else pure false

  -- the binding to the tenant stays where a step has failed
  abbrev pub after_reclaim : String → String → Option Bool → Exec (World N) Fate
  after_reclaim oid key none = do
    on_node key (modify (λ n. record (note_event "reclaim step failed" n) { order_id = some oid }))
    pure stuck
  after_reclaim oid key (some lost) = do
    on_node key (modify (λ n. record n { tenant_id = none; order_id = some oid }))
    pure (if lost then disposed else returned)

  unfoldable pub reclaim_node : String → String → Exec (World N) Fate
  unfolding reclaim_steps
  reclaim_node oid key = do
    node ← node_at key
    done ← attempt (reclaim_steps node)
    after_reclaim oid key done

  -- the loop, with the fate of each node
  unfoldable pub reclaim_nodes : String → List String → Exec (World N) (List Fate)
  unfolding reclaim_node
  reclaim_nodes oid [] = pure []
  reclaim_nodes oid (key ∷ keys) = do
    fate ← reclaim_node oid key
    fates ← reclaim_nodes oid keys
    pure (fate ∷ fates)

  -- the order that an allocation was made for
  abbrev pub source_order : String → List (ServiceOrder N) → Option String
  source_order alloc_id [] = none
  source_order alloc_id (o ∷ os) =
      if contains o.allocation_ids alloc_id then some o.id else source_order alloc_id os

  abbrev pub revoke_for : String → Option String → Exec (World N) (Unit {0})
  revoke_for tenant_id none = pure tt
  revoke_for tenant_id (some src) =
      on_shared (modify (λ s. (revoke_order_credentials tenant_id src s).1))

  abbrev pub note_trouble : String → Option String → Exec (World N) (Unit {0})
  note_trouble oid none = pure tt
  note_trouble oid (some e) = set_order (λ o. record o { error = some e }) oid

module _ {N : Type 0} (clusters_down : String → Allocation → Exec (World N) (Unit {0})) where
  unfoldable pub reclaim_allocation : String → String → Allocation → Exec (World N) (Unit {0})
  unfolding advance_order reclaim_nodes teardown_storage_and_segment revoke_order_credentials
      delete_allocation sync_cpu_nodes nodes_of_rack
  reclaim_allocation oid tenant_id alloc = do
    on_order oid (advance_order OrderState.validated "reclaiming allocation")
    nodes ← gets (λ w. nodes_held tenant_id w.nodes alloc.rack_ids)
    set_order (λ o. record o { node_ids = ids nodes }) oid
    on_order oid (advance_order OrderState.reclaiming "")
    segment_id ← gets (λ w. segment_for alloc.id tenant_id (values w.nico.segments))
    storage_ids ← gets (storage_held alloc.id)
    teardown_storage_and_segment storage_ids segment_id
    fates ← reclaim_nodes oid (ids (sort_by node_before nodes))
    source ← gets (λ w. source_order alloc.id (values w.orders))
    revoke_for tenant_id source
    clusters_down oid alloc
    on_store (delete_allocation alloc.id)
    sync_cpu_nodes tenant_id none
    note_trouble oid (trouble fates)
    on_order oid (advance_order OrderState.closed "reclaim complete")

  abbrev pub held_by : String → Option Allocation → Option Allocation
  held_by tenant_id none = none
  held_by tenant_id (some alloc) = if alloc.tenant_id == tenant_id then some alloc else none

  abbrev pub reclaim_or_refuse : String → String → Option Allocation → Exec (World N) (Unit {0})
  reclaim_or_refuse oid tenant_id none = refuse oid "allocation not found for tenant"
  reclaim_or_refuse oid tenant_id (some alloc) = reclaim_allocation oid tenant_id alloc

  abbrev pub terminate_order_of : Floats N → String → OrderCreate N → ServiceOrder N
  terminate_order_of f oid body = record (order_of oid body) {
    blueprint_key = none;
    racks = 0;
    allocation_id = body.allocation_id;
    approval_mode = false;
    storage_manual = false;
    storage_tb = f.of_nat 0;
    storage_gbps = f.of_nat 0;
    managed_k8s = false;
    k8s_version = "";
  }

  unfoldable pub run_terminate_order : Floats N → OrderCreate N → Exec (World N) (ServiceOrder N)
  unfolding reclaim_allocation next_seq
  run_terminate_order f body = do
    n ← on_store (λ s. let (n, s') = next_seq "order" s in pure n s')
    let oid = "ord-" +++ decimal n
    modify (λ w. record w { orders = put oid (terminate_order_of f oid body) w.orders })
    found ← gets (λ w. get (or_else body.allocation_id "") w.store.allocations)
    reclaim_or_refuse oid body.tenant_id (held_by body.tenant_id found)
    order_at oid

  module _ (f : Floats N) (d : Draws) (install : Stage N) where
    abbrev pub by_kind : OrderKind → OrderCreate N → Exec (World N) (ServiceOrder N)
    by_kind OrderKind.new body = run_new_order f d install body
    by_kind OrderKind.terminate body = run_terminate_order f body
    by_kind _ body = raise 501

    -- POST /orders
    unfoldable pub create_order : OrderCreate N → Exec (World N) (ServiceOrder N)
    unfolding run_new_order run_terminate_order
    create_order body = by_kind body.kind body

module _ {N : Type 0} where
  -- GET /orders, of all tenants where the filter is none or empty
  unfoldable pub list_orders : Option String → World N → List (ServiceOrder N)
  list_orders tenant_id w =
      if or_else tenant_id "" == ""
      then values w.orders
      else select (λ (o : ServiceOrder N). o.tenant_id == or_else tenant_id "") (values w.orders)

  -- GET /orders/{order_id}
  unfoldable pub get_order : String → Exec (World N) (ServiceOrder N)
  get_order oid = gets (λ w. get oid w.orders) >>= λ o. or_raise o 404
