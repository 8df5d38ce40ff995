-- ===== src/Nico/Hosts.antt =====
-- app/nico_fake.py: the operations of FakeNico on its hosts.
use neo_cloud_control_plane.Prelude.{
  ℕ, ◌+◌, String, ◌+++◌, true, false, Option, none, some, List, [], ◌∷◌, if◌then◌else◌, is_text,
}
use neo_cloud_control_plane.Prelude.Decimal.{decimal}
use neo_cloud_control_plane.Prelude.Exec.{
  Exec, ok, or_raise, gets, modify, pure, require, ◌>>=◌, ◌>>◌,
}
use neo_cloud_control_plane.Dict.{get, put, pop, values, has}
use neo_cloud_control_plane.Nico.{
  Nico, Host, HostState, Job, discovered, quarantined, pool_ready, reserved, provisioning,
  provisioned, allocated, released, sanitizing, op_provision, op_release, op_sanitize, set_host,
  host_of, require_state, SanitizeReport,
}
use neo_cloud_control_plane.Nico.Address.{lease_ip}
use neo_cloud_control_plane.Nico.Jobs.{consume_failure, new_job}

unfoldable pub get_host : String → Exec Nico Host
unfolding host_of
get_host host_id = host_of host_id

unfoldable pub validate : String → Exec Nico Host
unfolding host_of
validate host_id = do
  host ← host_of host_id
  require_state host (discovered ∷ quarantined ∷ [])
  let host' : Host = record host {
    state = if host.firmware_ok then pool_ready else quarantined;
    attested = host.firmware_ok;
  }
  modify (set_host host_id host')
  pure host'

unfoldable pub reserve : String → Exec Nico Host
unfolding host_of
reserve host_id = do
  host ← host_of host_id
  require_state host (pool_ready ∷ [])
  let host' : Host = record host { state = reserved }
  modify (set_host host_id host')
  pure host'

unfoldable pub unreserve : String → Exec Nico Host
unfolding host_of
unreserve host_id = do
  host ← host_of host_id
  require_state host (reserved ∷ [])
  let host' : Host = record host { state = pool_ready }
  modify (set_host host_id host')
  pure host'

-- A host whose id gives no number raises ValueError, a status 500, after the first two writes.
unfoldable pub provision : String → String → Exec Nico Job
unfolding host_of consume_failure new_job
provision host_id image_ref = do
  host ← host_of host_id
  require_state host (reserved ∷ [])
  let host' : Host = record host { state = provisioning; image_ref = some image_ref }
  modify (set_host host_id host')
  ip ← or_raise (lease_ip host') 500
  modify (set_host host_id (record host' { host_ip = ip }))
  fail ← consume_failure host_id "provision"
  new_job op_provision host' fail

unfoldable pub allocate : String → String → Exec Nico Host
unfolding host_of
allocate host_id tenant_ref = do
  host ← host_of host_id
  require_state host (provisioned ∷ [])
  modify (λ n. record n { seq = n.seq + 1 })
  seq ← gets (λ n. n.seq)
  let host' : Host = record host {
    state = allocated;
    instance_id = some ("inst-" +++ decimal seq);
    tenant_ref = some tenant_ref;
  }
  modify (set_host host_id host')
  pure host'

-- the first host with this instance
unfoldable pub find_instance : String → List Host → Option Host
find_instance instance_id [] = none
find_instance instance_id (h ∷ hs) =
    if is_text h.instance_id instance_id then some h else find_instance instance_id hs

unfoldable pub release : String → Exec Nico Job
unfolding find_instance new_job
release instance_id = do
  found ← gets (λ n. find_instance instance_id (values n.hosts))
  host ← or_raise found 404
  require_state host (allocated ∷ [])
  new_job op_release host false

unfoldable pub abort_provision : String → Exec Nico Host
unfolding host_of
abort_provision host_id = do
  host ← host_of host_id
  require_state host (provisioned ∷ provisioning ∷ [])
  let host' : Host = record host { state = released }
  modify (set_host host_id host')
  pure host'

unfoldable pub sanitize : String → Exec Nico Job
unfolding host_of consume_failure new_job
sanitize host_id = do
  host ← host_of host_id
  require_state host (released ∷ [])
  modify (set_host host_id (record host { state = sanitizing }))
  fail ← consume_failure host_id "sanitize"
  new_job op_sanitize host fail

unfoldable pub cordon : String → Exec Nico Host
unfolding host_of
cordon host_id = do
  host ← host_of host_id
  let host' : Host = record host { cordoned = true }
  modify (set_host host_id host')
  pure host'

unfoldable pub get_sanitize_report : String → Exec Nico SanitizeReport
get_sanitize_report host_id = do
  found ← gets (λ n. get host_id n.sanitize_reports)
  or_raise found 404

-- A host that NICo knows and the control plane does not.
unfoldable pub add_ghost : String → String → Exec Nico Host
add_ghost host_id sku n =
    let host : Host = record {
      host_id = host_id;
      tray_id = "";
      sku = sku;
      site = "";
      state = pool_ready;
      firmware_ok = true;
      attested = true;
      cordoned = false;
      instance_id = none;
      tenant_ref = none;
      image_ref = none;
      bmc_ip = "";
      dpu_ip = "";
      host_ip = "";
      segment_id = none;
    } in
    (ok host, record n { hosts = put host_id host n.hosts })

-- the REST call that makes a mirrored host vanish
unfoldable pub delete_host : String → Exec Nico String
delete_host host_id = do
  known ← gets (λ n. has host_id n.hosts)
  require known 404
  modify (λ n. record n { hosts = pop host_id n.hosts })
  pure host_id

-- the REST call that flips a host's state behind the control plane's back
unfoldable pub force_state : String → HostState → Exec Nico Host
unfolding get_host
force_state host_id state = do
  host ← get_host host_id
  let host' : Host = record host { state = state }
  modify (set_host host_id host')
  pure host'

-- `max(0, job_latency)`, which is the identity on ℕ
unfoldable pub set_config : ℕ → Nico → Nico
set_config job_latency n = record n { job_latency = job_latency }
