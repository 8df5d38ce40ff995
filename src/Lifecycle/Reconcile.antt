-- ===== src/Lifecycle/Reconcile.antt =====
-- app/lifecycle.py: the mirror of the NICo hosts in the nodes (bootstrap_nodes and reconcile). The
-- messages of findings are not kept.
use neo_cloud_control_plane.Prelude.{
  ℕ, ◌+◌, String, ◌+++◌, Bool, true, false, not, ◌&&◌, ◌||◌, Option, none, some, List, [], ◌∷◌,
  ◌++◌, map, ◌==◌, if◌then◌else◌, any, length,
}
use neo_cloud_control_plane.Prelude.Exec.{Exec, or_raise, gets, modify, pure, ◌>>=◌, ◌>>◌}
use neo_cloud_control_plane.Dict.{Dict, get, put, pop, has, values}
use neo_cloud_control_plane.Tenancy.{Store, Rack, Tray}
use neo_cloud_control_plane.Nico.{Host, HostState, is_state}
use neo_cloud_control_plane.Lifecycle.{
  NodeState, NodeInstance, CpuNode, World, is_node, lists_node, node_transitions, advance_node,
}

-- _MIRROR
abbrev pub mirror : HostState → List NodeState
mirror HostState.discovered = NodeState.discovered ∷ NodeState.validating ∷ []
mirror HostState.quarantined = NodeState.quarantined ∷ NodeState.rma ∷ []
mirror HostState.pool_ready =
    NodeState.pool_ready ∷ NodeState.discovered ∷ NodeState.validating ∷ []
mirror HostState.reserved = NodeState.reserved ∷ []
mirror HostState.provisioning = NodeState.provisioning ∷ []
mirror HostState.provisioned = NodeState.provisioning ∷ []
mirror HostState.allocated =
    NodeState.allocated ∷ NodeState.in_service ∷ NodeState.cordoned ∷ NodeState.draining ∷ []
mirror HostState.released = NodeState.releasing ∷ []
mirror HostState.sanitizing = NodeState.sanitizing ∷ []
mirror HostState.rma = NodeState.rma ∷ []

pub data FindingKind : Type 0 where
  ghost orphan state_mismatch : FindingKind

pub data FindingSeverity : Type 0 where
  info major critical : FindingSeverity

pub record ReconcileFinding : Type 0 where
  pub kind : FindingKind
  pub severity : FindingSeverity
  pub node_id : String
  pub nico_host_id : String

pub record ReconcileReport : Type 0 where
  pub checked_nodes : ℕ
  pub checked_hosts : ℕ
  pub ghosts_registered : ℕ
  pub orphans_cordoned : ℕ
  pub mismatches : ℕ
  pub ok : Bool
  pub findings : List ReconcileFinding

-- what the loops of `reconcile` change: `hosts` holds the hosts that no node has claimed
pub record Sweep : Type 0 where
  pub hosts : Dict Host
  pub nodes : Dict NodeInstance
  pub ghosts : ℕ
  pub orphans : ℕ
  pub mismatches : ℕ
  pub findings : List ReconcileFinding

abbrev pub note_event : String → NodeInstance → NodeInstance
note_event detail node = record node {
  history = node.history ++ record { state = node.state; detail = detail } ∷ [];
}

-- a node whose host has vanished
abbrev pub orphaned : NodeInstance → NodeInstance
orphaned node =
    if is_node NodeState.rma node.state || is_node NodeState.cordoned node.state
    then node
    else if lists_node (node_transitions node.state) NodeState.cordoned
    then (advance_node NodeState.cordoned "reconcile: host vanished from NICo" node).1
    else note_event "reconcile: ORPHAN (host vanished from NICo)" node

abbrev pub mismatch_severity : NodeState → HostState → FindingSeverity
mismatch_severity n h =
    if is_node NodeState.in_service n
      && (is_state h HostState.pool_ready || is_state h HostState.released)
    then critical
    else major

abbrev found : FindingKind → FindingSeverity → String → String → ReconcileFinding
found kind severity node_id host_id = record {
  kind = kind;
  severity = severity;
  node_id = node_id;
  nico_host_id = host_id;
}

-- one round of the loop over the nodes, for the node under `k`
abbrev pub check_node : String → NodeInstance → Option Host → Sweep → Sweep
check_node k node none w = record w {
  nodes = put k (orphaned node) w.nodes;
  orphans = w.orphans + 1;
  findings = w.findings ++ found orphan critical node.id node.nico_host_id ∷ [];
}
check_node k node (some host) w =
    let w' : Sweep = record w { hosts = pop node.nico_host_id w.hosts } in
    if lists_node (mirror host.state) node.state then w' else record w' {
      mismatches = w.mismatches + 1;
      findings =
          w.findings
          ++ found state_mismatch (mismatch_severity node.state host.state) node.id host.host_id
            ∷ [];
    }

abbrev pub keys {ℓ} : {V : Type ℓ} → Dict V → List String
keys = map (λ e. e.0)

unfoldable pub check_nodes : List String → Sweep → Sweep
unfolding advance_node
check_nodes [] w = w
check_nodes (k ∷ ks) w = check_nodes ks (elim (get k w.nodes) [
  | none ↦ w
  | some node ↦ check_node k node (get node.nico_host_id w.hosts) w
])

abbrev non_empty : String → String → String
non_empty s other = if s == "" then other else s

abbrev pub mirror_id : Host → String
mirror_id host = "ni-" +++ non_empty host.tray_id host.host_id

abbrev rack_of_tray : Store → String → Option Rack
rack_of_tray s tray_id = elim (get tray_id s.trays) [
  | none ↦ none
  | some tray ↦ get tray.rack_id s.racks
]

abbrev pub registered : Store → Host → NodeInstance
registered s host = record {
  id = mirror_id host;
  tray_id = host.tray_id;
  rack_id = elim (rack_of_tray s host.tray_id) [ none ↦ "" | some r ↦ r.id ];
  su_id = elim (rack_of_tray s host.tray_id) [ none ↦ "" | some r ↦ r.su_id ];
  blueprint_key = host.sku;
  nico_host_id = host.host_id;
  nico_instance_id = none;
  tenant_id = none;
  order_id = none;
  state = NodeState.discovered;
  history =
      record { state = NodeState.discovered; detail = "reconcile: registered from NICo (GHOST)" }
      ∷ [];
}

abbrev pub register_ghost : Store → Host → Sweep → Sweep
register_ghost s host w = record w {
  nodes =
      if has (mirror_id host) w.nodes
      then w.nodes
      else put (mirror_id host) (registered s host) w.nodes;
  ghosts = w.ghosts + 1;
  findings = w.findings ++ found ghost info (mirror_id host) host.host_id ∷ [];
}

unfoldable pub register_ghosts : Store → List Host → Sweep → Sweep
register_ghosts s [] w = w
register_ghosts s (h ∷ hs) w = register_ghosts s hs (register_ghost s h w)

-- `{h.host_id: h for h in …}`
abbrev pub by_host_id : List Host → Dict Host → Dict Host
by_host_id [] d = d
by_host_id (h ∷ hs) d = by_host_id hs (put h.host_id h d)

-- the hosts of CPU nodes are not mirrored
abbrev pub without_cpu : List CpuNode → Dict Host → Dict Host
without_cpu [] d = d
without_cpu (c ∷ cs) d =
    without_cpu cs (elim c.nico_host_id [ none ↦ d | some h ↦ if h == "" then d else pop h d ])

abbrev pub is_critical : ReconcileFinding → Bool
is_critical f = critical_severity f.severity
  where
    critical_severity : FindingSeverity → Bool
    critical_severity critical = true
    critical_severity _ = false

module _ {N : Type 0} where
  abbrev pub hosts_of : World N → Dict Host
  hosts_of w = by_host_id (values w.nico.hosts) []

  abbrev pub start : World N → Sweep
  start w = record {
    hosts = without_cpu (values w.cpu_nodes) (hosts_of w);
    nodes = w.nodes;
    ghosts = 0;
    orphans = 0;
    mismatches = 0;
    findings = [];
  }

  unfoldable pub sweep : World N → Sweep
  unfolding check_nodes register_ghosts
  sweep w =
      let checked = check_nodes (keys w.nodes) (start w) in
      register_ghosts w.store (values checked.hosts) checked

  unfoldable pub reconcile : Exec (World N) ReconcileReport
  unfolding sweep
  reconcile w =
      let end = sweep w in
      let report : ReconcileReport = record {
        checked_nodes = length end.nodes;
        checked_hosts = length (hosts_of w);
        ghosts_registered = end.ghosts;
        orphans_cordoned = end.orphans;
        mismatches = end.mismatches;
        ok = not (any is_critical end.findings);
        findings = end.findings;
      } in
      (pure report) (record w { nodes = end.nodes })

  -- the loop of `bootstrap_nodes`; a tray whose rack is missing raises KeyError, a status 500
  bootstrap : List Host → Exec (World N) ℕ
  bootstrap [] = pure 0
  bootstrap (host ∷ hosts) = do
    found ← gets (λ w. get host.tray_id w.store.trays)
    here ← mirrored found host
    n ← bootstrap hosts
    pure (here + n)
    where
      mirrored : Option Tray → Host → Exec (World N) ℕ
      mirrored none host = pure 0
      mirrored (some tray) host = do
        known ← gets (λ w. has ("ni-" +++ tray.id) w.nodes)
        if known then pure 0 else do
          stands ← gets (λ w. get tray.rack_id w.store.racks)
          rack ← or_raise stands 500
          let node : NodeInstance = record {
            id = "ni-" +++ tray.id;
            tray_id = tray.id;
            rack_id = rack.id;
            su_id = rack.su_id;
            blueprint_key = rack.blueprint_key;
            nico_host_id = host.host_id;
            nico_instance_id = none;
            tenant_id = none;
            order_id = none;
            state = NodeState.pool_ready;
            history =
                record { state = NodeState.pool_ready; detail = "bootstrap: NICo Day-0 mirror" }
                ∷ [];
          }
          modify (λ w. record w { nodes = put ("ni-" +++ tray.id) node w.nodes })
          pure 1

  unfoldable pub bootstrap_nodes : Exec (World N) ℕ
  unfolding bootstrap
  bootstrap_nodes w = bootstrap (values w.nico.hosts) w
