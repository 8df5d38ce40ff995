-- ===== src/Orders/Stages.antt =====
-- app/lifecycle.py: the stages of a new order (_stage_validated to _stage_delivered). Of the texts that
-- describe events only the fixed part is kept; traces are not kept.
pub mod Placing
pub mod Building
pub mod Handing
use neo_cloud_control_plane.Prelude.{
  ℕ, String, Bool, true, false, Option, none, some, List, [], ◌∷◌, ◌++◌, contains, map,
  if◌then◌else◌,
}
use neo_cloud_control_plane.Prelude.Exec.{Exec, or_raise, gets, modify, ◌>>=◌, ◌>>◌}
use neo_cloud_control_plane.Dict.{get}
use neo_cloud_control_plane.Tenancy.{Rack, Tenant, get_all}
use neo_cloud_control_plane.Lifecycle.{NodeInstance, ServiceOrder, OrderState, World, advance_order}
use neo_cloud_control_plane.Orders.{on_order}

abbrev pub ids : List NodeInstance → List String
ids = map (λ n. n.id)

abbrev pub seen_racks : List NodeInstance → List String → List String
seen_racks [] seen = seen
seen_racks (n ∷ ns) seen =
    seen_racks ns (if contains seen n.rack_id then seen else seen ++ n.rack_id ∷ [])

module _ {N : Type 0} where
  -- the object of a table
  abbrev pub order_at : String → Exec (World N) (ServiceOrder N)
  order_at oid = gets (λ w. get oid w.orders) >>= λ o. or_raise o 500

  abbrev pub node_at : String → Exec (World N) NodeInstance
  node_at key = gets (λ w. get key w.nodes) >>= λ o. or_raise o 500

  -- `s.tenants[tenant_id]`
  abbrev pub tenant_at : String → Exec (World N) Tenant
  tenant_at tid = gets (λ w. get tid w.store.tenants) >>= λ o. or_raise o 500

  -- _ctx_nodes; the keys of the nodes stand for the nodes
  abbrev pub ctx_nodes : ServiceOrder N → World N → List NodeInstance
  ctx_nodes order w = get_all w.nodes order.node_ids

  -- _ctx_racks
  abbrev pub ctx_racks : ServiceOrder N → World N → List Rack
  ctx_racks order w = get_all w.store.racks (seen_racks (ctx_nodes order w) [])

  abbrev pub set_order : (ServiceOrder N → ServiceOrder N) → String → Exec (World N) (Unit {0})
  set_order f oid = on_order oid (modify f)
