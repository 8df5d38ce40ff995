-- ===== src/Nico.antt =====
-- app/nico_fake.py: FakeNico, the bare-metal host manager. The REST functions of that file only call
-- these methods. What the methods send to the tracer is not kept: none of them reads it back.
pub mod Address
pub mod Jobs
pub mod Waiting
pub mod Hosts
pub mod Segments
pub mod Settled
pub mod Effect
pub mod Steps
pub mod Wiring
pub mod Vpc
pub mod Cycle
pub mod Run
pub mod Seeding
pub mod Seeded
pub mod Safety
use neo_cloud_control_plane.Prelude.{
  ℕ, ◌+◌, String, Bool, true, false, ◌||◌, not, Option, none, some, List, [], ◌∷◌, ◌==◌, eqb,
  if◌then◌else◌,
}
use neo_cloud_control_plane.Dict.{Dict, get, put, update}
use neo_cloud_control_plane.Prelude.Exec.{Exec, raise, or_raise, gets, require, pure, ◌>>=◌}

pub data HostState : Type 0 where
  discovered quarantined pool_ready reserved provisioning provisioned : HostState
  allocated released sanitizing rma : HostState

abbrev rank : HostState → ℕ
rank discovered = 0
rank quarantined = 1
rank pool_ready = 2
rank reserved = 3
rank provisioning = 4
rank provisioned = 5
rank allocated = 6
rank released = 7
rank sanitizing = 8
rank rma = 9

abbrev pub is_state : HostState → HostState → Bool
is_state s t = eqb (rank s) (rank t)

pub record Host : Type 0 where
  pub host_id : String
  pub tray_id : String
  pub sku : String
  pub site : String
  pub state : HostState
  pub firmware_ok : Bool
  pub attested : Bool
  pub cordoned : Bool
  pub instance_id : Option String
  pub tenant_ref : Option String
  pub image_ref : Option String
  pub bmc_ip : String
  pub dpu_ip : String
  pub host_ip : String
  pub segment_id : Option String

pub record Segment : Type 0 where
  pub segment_id : String
  pub tenant_ref : String
  pub vrf : String
  pub l3vni : ℕ
  pub converged_vni : ℕ
  pub vrf_dataplane : String
  pub host_ids : List String
  pub allocation_id : Option String
  pub ib_pkey : Option ℕ
  pub state : String

-- `op` and `state` of NicoJob, which the source writes as texts
pub data JobOp : Type 0 where
  op_provision op_release op_sanitize : JobOp

pub data JobState : Type 0 where
  running succeeded failed : JobState

pub record Job : Type 0 where
  pub job_id : String
  pub op : JobOp
  pub host_id : String
  pub state : JobState
  pub detail : String
  pub remaining_polls : ℕ

pub record SanitizeReport : Type 0 where
  pub host_id : String
  pub passed : Bool
  pub steps : List (String × Bool)

pub record Nico : Type 0 where
  pub hosts : Dict Host
  pub jobs : Dict Job
  pub segments : Dict Segment
  pub sanitize_reports : Dict SanitizeReport
  pub job_latency : ℕ
  pub fail_flags : Dict (List String)
  pub seq : ℕ

-- SANITIZE_STEPS
abbrev pub sanitize_steps : List String
sanitize_steps =
    "nvme_secure_erase" ∷ "gpu_memory_wipe" ∷ "system_memory_wipe" ∷ "tpm_reset" ∷ "re_attestation"
    ∷ "firmware_revalidation" ∷ "network_state_clear" ∷ []

-- a host is changed where it stands: `host.field = …`
abbrev pub set_host : String → Host → Nico → Nico
set_host host_id host n = record n { hosts = put host_id host n.hosts }

-- _host
unfoldable pub host_of : String → Exec Nico Host
host_of host_id n = or_raise (get host_id n.hosts) 404 n

abbrev pub in_states : HostState → List HostState → Bool
in_states s [] = false
in_states s (t ∷ ts) = is_state s t || in_states s ts

-- _require
abbrev pub require_state : Host → List HostState → Exec Nico (Unit {0})
require_state host states = require (in_states host.state states) 409
