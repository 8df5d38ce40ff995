-- ===== src/Orders/Stages/Building.antt =====
-- app/lifecycle.py: _stage_provisioning, _stage_isolating and _stage_storage_binding.
use neo_cloud_control_plane.Prelude.{
  ℕ, ◌+◌, ◌*◌, String, ◌+++◌, true, not, Option, none, some, List, [], ◌∷◌, ◌++◌, map, ◌==◌, eqb,
  if◌then◌else◌, select, length, or_else,
}
use neo_cloud_control_plane.Prelude.Decimal.{decimal}
use neo_cloud_control_plane.Prelude.Exec.{
  Exec, raise, require, or_raise, gets, modify, pure, ◌>>=◌, ◌>>◌,
}
use neo_cloud_control_plane.Dict.{Dict, get, put}
use neo_cloud_control_plane.Tenancy.{Rack, NetworkIsolation, Store, rack_set, next_seq}
use neo_cloud_control_plane.Tenancy.Racks.{create_allocation}
use neo_cloud_control_plane.Tenancy.Partitions.{create_partition}
use neo_cloud_control_plane.Nico.{Nico, Host}
use neo_cloud_control_plane.Nico.Hosts.{provision, allocate}
use neo_cloud_control_plane.Nico.Segments.{create_segment}
use neo_cloud_control_plane.Vast.{create_view, set_quota, set_qos}
use neo_cloud_control_plane.Lifecycle.{
  NodeState, OrderState, NodeInstance, ServiceOrder, LifecycleEvent, World, advance_node,
  advance_order,
}
use neo_cloud_control_plane.Orders.{
  Floats, on_nico, on_vast, on_store, on_node, on_order, attempt, for_each,
}
use neo_cloud_control_plane.Orders.Saga.{waiting, is_succeeded, compensate, sync_cpu_nodes}
use neo_cloud_control_plane.Orders.Stages.{
  order_at, node_at, tenant_at, ctx_nodes, ctx_racks, ids, set_order,
}

-- DEFAULT_IMAGE
abbrev pub default_image : String
default_image = "ubuntu-24.04-nvidia"

-- the `try` of a node's round: provision, wait, allocate
unfoldable pub provision_host : String → String → Exec Nico Host
unfolding provision allocate
provision_host host_id tenant_id = do
  job ← waiting (provision host_id default_image)
  require (is_succeeded job.state) 502
  allocate host_id tenant_id

module _ {N : Type 0} where
  abbrev pub after_provision : String → String → Option Host → Exec (World N) (Option String)
  after_provision tenant_id key none = do
    on_node key (advance_node NodeState.quarantined "provision failed")
    pure (some "provision failed")
  after_provision tenant_id key (some host) = do
    on_node key
        (modify (λ n. record n { nico_instance_id = host.instance_id; tenant_id = some tenant_id }))
    on_node key (advance_node NodeState.allocated "nico instance")
    pure none

  abbrev pub provision_one : String → NodeInstance → Exec (World N) (Option String)
  provision_one tenant_id node = do
    on_node node.id (advance_node NodeState.provisioning "PXE: OS install + lockdown")
    host ← attempt (on_nico (provision_host node.nico_host_id tenant_id))
    after_provision tenant_id node.id host

  -- the loop; `all` are the keys of all nodes of the order
  unfoldable pub provision_nodes :
      String → String → List String → List String → Exec (World N) (Unit {0})
  unfolding advance_node provision_host compensate
  provision_nodes oid tenant_id all [] = pure tt
  provision_nodes oid tenant_id all (key ∷ keys) = do
    node ← node_at key
    stop ← provision_one tenant_id node
    elim stop [
      | none ↦ provision_nodes oid tenant_id all keys
      | some reason ↦ compensate oid (select (λ k. not (k == key)) all) reason
    ]

  unfoldable pub stage_provisioning : String → Exec (World N) (Unit {0})
  unfolding advance_order provision_nodes
  stage_provisioning oid = do
    order ← order_at oid
    nodes ← gets (ctx_nodes order)
    tenant ← tenant_at order.tenant_id
    on_order oid (advance_order OrderState.provisioning "image=ubuntu-24.04-nvidia")
    provision_nodes oid tenant.id (ids nodes) (ids nodes)

-- `by_su.setdefault(rack.su_id, []).append(rack.id)`
abbrev pub by_su : List Rack → Dict (List String) → Dict (List String)
by_su [] d = d
by_su (r ∷ rs) d = by_su rs (put r.su_id (or_else (get r.su_id d) [] ++ r.id ∷ []) d)

-- `ni.ib_pkey or (0x8000 + s.next_seq("pkey"))`, written to `ni.ib_pkey`
unfoldable pub pkey_of : String → NetworkIsolation → Exec Store ℕ
unfolding next_seq
pkey_of tenant_id ni s =
    if eqb (or_else ni.ib_pkey 0) 0
    then (let (n, s') = next_seq "pkey" s in keep (32768 + n) s')
    else keep (or_else ni.ib_pkey 0) s
  where
    keep : ℕ → Exec Store ℕ
    keep pkey = do
      modify (λ s. record s { netiso = put tenant_id (record ni { ib_pkey = some pkey }) s.netiso })
      pure pkey

-- `order.allocation_ids[0]` raises IndexError where there is none
abbrev pub first_of : {S : Type 0} → List String → Exec S String
first_of [] = raise 500
first_of (a ∷ more) = pure a

-- `order.history[-1].detail = …`
abbrev pub set_detail : {A : Type 0} → String → List (LifecycleEvent A) → List (LifecycleEvent A)
set_detail detail [] = []
set_detail detail (e ∷ es) = elim es [
  | [] ↦ record e { detail = detail } ∷ []
  | f ∷ fs ↦ e ∷ set_detail detail es
]

module _ {N : Type 0} where
  abbrev pub isolation_at : String → Exec (World N) NetworkIsolation
  isolation_at tid = gets (λ w. get tid w.store.netiso) >>= λ o. or_raise o 500

  abbrev pub allocate_su : String → String → String × List String → Exec (World N) (Unit {0})
  allocate_su oid tenant_id (su_id, rack_ids) = do
    alloc ← on_store (
        create_allocation (record {
          tenant_id = tenant_id;
          scope = rack_set;
          su_id = su_id;
          rack_ids = some rack_ids;
          dpu_mode = none;
        }))
    set_order (λ o. record o { allocation_ids = o.allocation_ids ++ alloc.id ∷ [] }) oid

  abbrev pub partition_rack : String → Rack → Exec (World N) (Unit {0})
  partition_rack tenant_id rack = on_store (
      create_partition
        (record { rack_id = rack.id; tenant_id = tenant_id; tray_ids = rack.tray_ids })
      >>= λ p. pure tt)

  -- the `try` of _stage_isolating
  unfoldable pub isolate :
      String → String → List NodeInstance → List Rack → Exec (World N) (Unit {0})
  unfolding create_allocation create_segment create_partition sync_cpu_nodes pkey_of for_each
  isolate oid tenant_id nodes racks = do
    for_each (allocate_su oid tenant_id) (by_su racks [])
    ni ← isolation_at tenant_id
    pkey ← on_store (pkey_of tenant_id ni)
    order ← order_at oid
    alloc_id ← first_of order.allocation_ids
    seg ← on_nico (
        create_segment tenant_id ni.vrf ni.compute_l3vni ni.converged_vni
          (map (λ (n : NodeInstance). n.nico_host_id) nodes) (some alloc_id) (some pkey))
    set_order (λ o. record o { segment_id = some seg.segment_id }) oid
    for_each (partition_rack tenant_id) racks
    cpus ← sync_cpu_nodes tenant_id (some seg.segment_id)
    set_order (λ o. record o { history = set_detail ("VPC " +++ seg.segment_id) o.history }) oid

  -- `except HTTPException: _compensate(…)`
  abbrev pub or_compensate :
      String → List String → String → Option (Unit {0}) → Exec (World N) (Unit {0})
  or_compensate oid keys reason none = compensate oid keys reason
  or_compensate oid keys reason (some _) = pure tt

  unfoldable pub stage_isolating : String → Exec (World N) (Unit {0})
  unfolding advance_order isolate compensate
  stage_isolating oid = do
    order ← order_at oid
    nodes ← gets (ctx_nodes order)
    racks ← gets (ctx_racks order)
    tenant ← tenant_at order.tenant_id
    on_order oid (advance_order OrderState.isolating "3-plane")
    done ← attempt (isolate oid tenant.id nodes racks)
    or_compensate oid (ids nodes) "isolation failed" done

-- what a view is given: the capacity in TB, and the QoS in GB/s and kIOPS
pub record Amounts (N : Type 0) : Type 0 where
  pub capacity_tb : N
  pub gbps : N
  pub kiops : N

module _ {N : Type 0} (f : Floats N) where
  -- STORAGE_TB_PER_RACK, STORAGE_GBPS_PER_RACK, STORAGE_KIOPS_PER_RACK
  abbrev pub tb_per_rack : N
  tb_per_rack = f.of_nat 500

  abbrev pub gbps_per_rack : N
  gbps_per_rack = f.of_nat 40

  abbrev pub kiops_per_rack : N
  kiops_per_rack = f.of_nat 500

  abbrev pub manual : N → N → Amounts N
  manual tb gbps = record {
    capacity_tb = tb;
    gbps = gbps;
    kiops = f.round1 (f.mul (f.div gbps gbps_per_rack) kiops_per_rack);
  }

  abbrev pub amounts : ServiceOrder N → ℕ → Amounts N
  amounts order racks =
      if order.storage_manual
      then manual order.storage_tb (
          if f.is_zero order.storage_gbps
          then f.round1 (f.mul (f.div order.storage_tb tb_per_rack) gbps_per_rack)
          else order.storage_gbps)
      else record {
        capacity_tb = f.of_nat (500 * racks);
        gbps = f.of_nat (40 * racks);
        kiops = f.of_nat (500 * racks);
      }

  -- the `try` of _stage_storage_binding
  unfoldable pub bind_storage :
      String → String → NetworkIsolation → Amounts N → Exec (World N) (Unit {0})
  unfolding create_view set_quota set_qos next_seq
  bind_storage oid tenant_id ni a = do
    let path = "/tenants/" +++ tenant_id +++ "/" +++ oid
    order ← order_at oid
    alloc_id ← first_of order.allocation_ids
    on_vast (create_view (f.of_nat 0) path tenant_id ("vrf:" +++ ni.vrf) (some alloc_id))
    on_vast (set_quota path a.capacity_tb)
    on_vast (set_qos path a.gbps a.kiops)
    n ← on_store (λ s. let (n, s') = next_seq "storage" s in pure n s')
    let sid = "st-" +++ decimal n
    modify (λ w. record w {
      storage_allocs =
          put sid
            (record {
              id = sid;
              tenant_id = tenant_id;
              order_id = oid;
              allocation_id = some alloc_id;
              view_path = path;
              capacity_tb = a.capacity_tb;
              qos_gbps = a.gbps;
              active = true;
            })
            w.storage_allocs;
    })
    set_order (λ o. record o { storage_ids = o.storage_ids ++ sid ∷ [] }) oid

  unfoldable pub stage_storage_binding : String → Exec (World N) (Unit {0})
  unfolding advance_order bind_storage compensate
  stage_storage_binding oid = do
    order ← order_at oid
    nodes ← gets (ctx_nodes order)
    racks ← gets (ctx_racks order)
    tenant ← tenant_at order.tenant_id
    ni ← isolation_at tenant.id
    on_order oid (advance_order OrderState.storage_binding "VAST view")
    done ← attempt (bind_storage oid tenant.id ni (amounts order (length racks)))
    or_compensate oid (ids nodes) "storage binding failed" done
