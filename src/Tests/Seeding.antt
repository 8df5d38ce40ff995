-- ===== src/Tests/Seeding.antt =====
-- A run of FakeNico.seed_from_store (app/nico_fake.py) on an SU with one tray, and a CPU node; then the
-- tray goes to a tenant.
use neo_cloud_control_plane.Prelude.{◌≡◌, refl, none, some, List, [], ◌∷◌}
use neo_cloud_control_plane.Dict.{get}
use neo_cloud_control_plane.Tenancy
use neo_cloud_control_plane.Tenancy.{Store}
use neo_cloud_control_plane.Lifecycle.{CpuNode}
use neo_cloud_control_plane.Nico.{Nico, Host, allocated}
use neo_cloud_control_plane.Nico.Address.{lease_ip}
use neo_cloud_control_plane.Nico.Hosts.{reserve, provision, allocate}
use neo_cloud_control_plane.Nico.Effect.{IsBound}
use neo_cloud_control_plane.Nico.Run.{Call, reserves, provisions, allocates, step, run}
use neo_cloud_control_plane.Nico.Seeding.{seed_from_store, pool_host}
use neo_cloud_control_plane.Nico.Seeded.{seeded-IsBound}
use neo_cloud_control_plane.Tests.Hosts.{nico_with, rented}

abbrev site : Store
site = record Tenancy.empty {
  factories = ("f1", record { id = "f1"; name = "Seoul"; block_ids = "b1" ∷ [] }) ∷ [];
  blocks = ("b1", record { id = "b1"; du_ids = "d1" ∷ [] }) ∷ [];
  dus = ("d1", record { id = "d1"; su_ids = "su-1" ∷ [] }) ∷ [];
  trays =
      (
        "su-1-rack-03-tray-07",
        record {
          id = "su-1-rack-03-tray-07";
          rack_id = "su-1-rack-03";
          gpu_ids = [];
          dpu_id = none;
          tenant_id = none;
        },
      )
      ∷ [];
}

abbrev cpu_node : CpuNode
cpu_node = record {
  id = "cpu-node-12";
  dpu_id = "";
  state = "pool";
  role = "";
  nico_host_id = some "";
  tenant_id = none;
  order_id = none;
  host_ip = "";
  segment_id = none;
}

abbrev tray_in_use : Host
tray_in_use =
    record (pool_host "nh-su-1-rack-03-tray-07" "su-1-rack-03-tray-07" "" "Seoul" "10.99.19.8"
      "172.16.19.8") {
        state = allocated;
        instance_id = some "inst-2";
        tenant_ref = some "tnt-acme";
        image_ref = some "ubuntu";
        host_ip = "10.101.3.30";
      }

abbrev in_use : List Call
in_use =
    reserves "nh-su-1-rack-03-tray-07"
    ∷ provisions "nh-su-1-rack-03-tray-07" "ubuntu"
    ∷ allocates "nh-su-1-rack-03-tray-07" "tnt-acme"
    ∷ []

abbrev seeded : Nico
seeded = (seed_from_store site (("cpu-node-12", cpu_node) ∷ []) (nico_with rented)).1

tray_run : get "nh-su-1-rack-03-tray-07" (run in_use seeded).hosts ≡ some tray_in_use
unfolding run step reserve provision allocate seed_from_store lease_ip get
tray_run = refl

cpu_run :
    get "nh-cpu-node-12" seeded.hosts
    ≡ some (pool_host "nh-cpu-node-12" "cpu-node-12" "cpu-epyc" "" "10.254.1.12" "10.255.1.12")
unfolding seed_from_store get
cpu_run = refl

seeded-IsBound_example : IsBound tray_in_use
seeded-IsBound_example =
    seeded-IsBound site (("cpu-node-12", cpu_node) ∷ []) (nico_with rented) in_use
      "nh-su-1-rack-03-tray-07" tray_in_use refl tray_run
