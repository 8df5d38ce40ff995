-- ===== src/Tests/Clusters.antt =====
-- A rollback of app/lifecycle.py: an order with one reserved control plane node, beside the node of
-- another tenant.
use neo_cloud_control_plane.Prelude.{String, ◌≡◌, refl, false, none, some, [], ◌∷◌, ℕ, map_option}
use neo_cloud_control_plane.Prelude.Exec.{ok}
use neo_cloud_control_plane.Dict.{get}
use neo_cloud_control_plane.Nico.{reserved}
use neo_cloud_control_plane.Lifecycle.{CpuNode, OrderState, ServiceOrder, World}
use neo_cloud_control_plane.Orders.Kubernetes.{rollback_k8s_cp}
use neo_cloud_control_plane.Orders.Rollback.{rolled, rollback_k8s_cp-returned}
use neo_cloud_control_plane.Tests.Hosts.{rented, nico_with}
use neo_cloud_control_plane.Orders.Kubernetes.DayTwo.{K8sAddonBody, install_k8s_addon}
use neo_cloud_control_plane.Orders.Restored.{Answer, with_version, install_k8s_addon-Answer}
use neo_cloud_control_plane.Tenancy.{bare_metal_dedicated, rack_set, dpu}
use neo_cloud_control_plane.Tests.Placement.{world, site}
use neo_cloud_control_plane.Tests.Pipeline.{waiting}

abbrev plane : CpuNode
plane = record {
  id = "cpu-1";
  dpu_id = "dpu-1";
  state = "reserved";
  role = "k8s_cp";
  nico_host_id = some "host-01";
  tenant_id = some "tnt-acme";
  order_id = some "ord-1";
  host_ip = "10.250.0.2";
  segment_id = some "seg-1";
}

abbrev lent : CpuNode
lent = record plane {
  id = "cpu-2";
  role = "general";
  tenant_id = some "tnt-other";
  order_id = some "ord-2";
}

abbrev installing : World ℕ
installing = record world {
  cpu_nodes = ("cpu-1", plane) ∷ ("cpu-2", lent) ∷ [];
  nico = nico_with (record rented { state = reserved; instance_id = none });
}

rollback_k8s_cp-returned_example :
    ((rollback_k8s_cp "ord-1" installing).0 ≡ ok tt)
    × ((key : String)
        → get key (rollback_k8s_cp "ord-1" installing).1.cpu_nodes
          ≡ map_option (rolled "ord-1") (get key installing.cpu_nodes))
rollback_k8s_cp-returned_example =
    rollback_k8s_cp-returned "ord-1" installing (unfold get in (refl, (refl, tt)))
      (refl, (refl, tt))

abbrev at_rest : String → String → CpuNode
at_rest id host_id = record plane {
  id = id;
  nico_host_id = some host_id;
  state = "pool_ready";
  role = "general";
  tenant_id = none;
  order_id = none;
}

abbrev in_use : ServiceOrder ℕ
in_use = record waiting {
  state = OrderState.delivered;
  pending_stage = none;
  allocation_ids = "alloc-1" ∷ [];
}

-- racks in service, beside a pool of three CPU nodes; NICo knows the host of the first only
abbrev served : World ℕ
served = record world {
  store = record site {
    tenants =
        (
          "tnt-acme",
          record {
            id = "tnt-acme";
            name = "Acme";
            isolation_tier = bare_metal_dedicated;
            sla_tier = "gold";
            notes = none;
          },
        )
        ∷ [];
    allocations =
        (
          "alloc-1",
          record {
            id = "alloc-1";
            tenant_id = "tnt-acme";
            scope = rack_set;
            su_id = "su-1";
            rack_ids = "r1" ∷ [];
            dpu_mode = dpu;
          },
        )
        ∷ [];
  };
  orders = ("ord-1", in_use) ∷ [];
  cpu_nodes =
      ("cpu-1", at_rest "cpu-1" "host-01")
      ∷ ("cpu-2", at_rest "cpu-2" "host-02")
      ∷ ("cpu-3", at_rest "cpu-3" "host-03")
      ∷ [];
}

abbrev adding : K8sAddonBody
adding = record { tenant_id = "tnt-acme"; allocation_id = "alloc-1"; k8s_version = "v1.33.2" }

install_k8s_addon-Answer_example :
    Answer "ord-1" (with_version "v1.33.2" in_use) served (install_k8s_addon false adding served)
install_k8s_addon-Answer_example =
    install_k8s_addon-Answer adding served in_use refl (unfold get in refl) refl
