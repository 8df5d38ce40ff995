-- ===== src/Nico/Seeding.antt =====
-- app/nico_fake.py: FakeNico.seed_from_store, the hosts of the inventory as if Day 0 had passed.
use Prim.Native.String as Text
use neo_cloud_control_plane.Prelude.{
  ℕ, String, ◌+++◌, Option, none, some, List, [], ◌∷◌, ◌==◌, if◌then◌else◌, or_else, is_some, true,
  false,
}
use neo_cloud_control_plane.Prelude.Text.{strip}
use neo_cloud_control_plane.Prelude.Decimal.{decimal}
use neo_cloud_control_plane.Prelude.Exec.{Exec, or_raise, modify, ◌>>=◌, ◌>>◌}
use neo_cloud_control_plane.Dict.{Dict, get, put, values}
use neo_cloud_control_plane.Tenancy.{Store, AiFactory, DeploymentUnit, Rack, Tray}
use neo_cloud_control_plane.Lifecycle.{CpuNode}
use neo_cloud_control_plane.Orders.{for_each}
use neo_cloud_control_plane.Nico.{Nico, Host, pool_ready}
use neo_cloud_control_plane.Nico.Address.{Ips, ips_for_tray, last_number}

-- the text before the last "-rack-"
before_rack : String → Option String
unfolding strip
before_rack Text.[] = none
before_rack (Text.◌∷◌ c s) = elim (before_rack s) [
  | some p ↦ some (Text.◌∷◌ c p)
  | none ↦ if is_some (strip "-rack-" (Text.◌∷◌ c s)) then some "" else none
]

-- `rack_id.rsplit("-rack-", 1)[0]`
unfoldable pub su_of_rack : String → String
unfolding before_rack
su_of_rack rack_id = or_else (before_rack rack_id) rack_id

abbrev pub name_sus : String → List String → Dict String → Dict String
name_sus name [] sites = sites
name_sus name (sid ∷ sids) sites = name_sus name sids (put sid name sites)

-- `none` where the source raises KeyError
unfoldable pub name_dus :
    Dict DeploymentUnit → String → List String → Dict String → Option (Dict String)
name_dus dus name [] sites = some sites
name_dus dus name (did ∷ dids) sites = elim (get did dus) [
  | none ↦ none
  | some du ↦ name_dus dus name dids (name_sus name du.su_ids sites)
]

unfoldable pub name_blocks : Store → String → List String → Dict String → Option (Dict String)
unfolding name_dus
name_blocks st name [] sites = some sites
name_blocks st name (bid ∷ bids) sites = elim (get bid st.blocks) [
  | none ↦ none
  | some b ↦ elim (name_dus st.dus name b.du_ids sites) [
    | none ↦ none
    | some known ↦ name_blocks st name bids known
  ]
]

-- `su_site`: the name of the factory of each SU
unfoldable pub su_sites : Store → List AiFactory → Dict String → Option (Dict String)
unfolding name_blocks
su_sites st [] sites = some sites
su_sites st (f ∷ fs) sites = elim (name_blocks st f.name f.block_ids sites) [
  | none ↦ none
  | some known ↦ su_sites st fs known
]

-- a NicoHost with the defaults of the class
abbrev pub pool_host : String → String → String → String → String → String → Host
pool_host host_id tray_id sku site bmc_ip dpu_ip = record {
  host_id = host_id;
  tray_id = tray_id;
  sku = sku;
  site = site;
  state = pool_ready;
  firmware_ok = true;
  attested = true;
  cordoned = false;
  instance_id = none;
  tenant_ref = none;
  image_ref = none;
  bmc_ip = bmc_ip;
  dpu_ip = dpu_ip;
  host_ip = "";
  segment_id = none;
}

abbrev pub bmc_of : Option Ips → String
bmc_of none = ""
bmc_of (some ips) = ips.bmc_ip

abbrev pub dpu_of : Option Ips → String
dpu_of none = ""
dpu_of (some ips) = ips.dpu_ip

abbrev pub sku_of : Option Rack → String
sku_of none = ""
sku_of (some r) = r.blueprint_key

unfoldable pub tray_host : Store → Dict String → Tray → Host
unfolding get su_of_rack ips_for_tray
tray_host st sites tray =
    let ips = ips_for_tray tray.id in
    pool_host ("nh-" +++ tray.id) tray.id (sku_of (get tray.rack_id st.racks))
      (or_else (get (su_of_rack tray.rack_id) sites) "") (bmc_of ips) (dpu_of ips)

-- `cn.nico_host_id or f"nh-{cn.id}"`
abbrev pub cpu_host_id : CpuNode → String
cpu_host_id cn = elim cn.nico_host_id [
  | none ↦ "nh-" +++ cn.id
  | some i ↦ if i == "" then "nh-" +++ cn.id else i
]

abbrev pub cpu_host : CpuNode → ℕ → Host
cpu_host cn idx =
    pool_host (cpu_host_id cn) cn.id "cpu-epyc" "" ("10.254.1." +++ decimal idx)
      ("10.255.1." +++ decimal idx)

-- the tables as they are emptied; `job_latency` stays
abbrev pub emptied : Nico → Nico
emptied n = record n {
  hosts = [];
  jobs = [];
  segments = [];
  sanitize_reports = [];
  fail_flags = [];
  seq = 0;
}

abbrev pub file_host : Host → Nico → Nico
file_host h n = record n { hosts = put h.host_id h n.hosts }

abbrev pub seed_cpu : CpuNode → Exec Nico (Unit {0})
seed_cpu cn = do idx ← or_raise (last_number none cn.id) 500; modify (file_host (cpu_host cn idx))

unfoldable pub seed_from_store : Store → Dict CpuNode → Exec Nico (Unit {0})
unfolding su_sites for_each tray_host last_number put decimal
seed_from_store st cpu_nodes = do
  modify emptied
  sites ← or_raise (su_sites st (values st.factories) []) 500
  for_each (λ tray. modify (file_host (tray_host st sites tray))) (values st.trays)
  for_each seed_cpu (values cpu_nodes)
