-- ===== src/Tests/Hosts.antt =====
-- Runs of app/nico_fake.py on one host: a compute tray of a rack.
use neo_cloud_control_plane.Prelude.{
  String, ◌≡◌, refl, true, false, none, some, List, [], ◌∷◌, ◌++◌, arith, ◌⊎◌, inl, inr, ◌∙◌, ◌==◌,
  eq_iff, Bool-cases,
}
use neo_cloud_control_plane.Prelude.Decimal.{decimal}
use neo_cloud_control_plane.Dict.{get}
use neo_cloud_control_plane.Nico.{Nico, Host, pool_ready, allocated, Job, op_release, running}
use neo_cloud_control_plane.Nico.Address.{lease_ip, ips_for_tray, last_number, number}
use neo_cloud_control_plane.Nico.Jobs.{wait_job}
use neo_cloud_control_plane.Nico.Waiting.{Waited, wait_job-Waited}
use neo_cloud_control_plane.Nico.Hosts.{
  reserve, provision, allocate, release, sanitize, find_instance,
}
use neo_cloud_control_plane.Nico.Settled.{IsSettled}
use neo_cloud_control_plane.Nico.Effect.{Passed, may_move}
use neo_cloud_control_plane.Nico.Cycle.{deliver, reclaim}
use neo_cloud_control_plane.Nico.Run.{Call, reserves, releases, sanitizes, step, run}
use neo_cloud_control_plane.Nico.Safety.{is_used, reuse_needs_sanitize, step-may_move}

abbrev pub host : Host
host = record {
  host_id = "host-01";
  tray_id = "su-1-rack-03-tray-07";
  sku = "GB300";
  site = "kr-1";
  state = pool_ready;
  firmware_ok = true;
  attested = true;
  cordoned = false;
  instance_id = none;
  tenant_ref = none;
  image_ref = none;
  bmc_ip = "10.99.19.8";
  dpu_ip = "172.16.19.8";
  host_ip = "";
  segment_id = none;
}

abbrev pub rented : Host
rented = record host {
  state = allocated;
  instance_id = some "inst-2";
  tenant_ref = some "tnt-acme";
}

abbrev pub nico_with : Host → Nico
nico_with h = record {
  hosts = ("host-01", h) ∷ [];
  jobs = [];
  segments = [];
  sanitize_reports = [];
  job_latency = 0;
  fail_flags = [];
  seq = 2;
}

settled : (h : Host) → h.host_id ≡ "host-01" → IsSettled (nico_with h)
unfolding get
settled h e = record {
  latency = refl;
  over = λ k j found. absurd (ground arith);
  keyed = λ k g found. only k g found;
  dict = (refl, tt);
}
  where
    same : (k : String) (g : Host) → some h ≡ some g → g.host_id ≡ h.host_id
    same k g found = cc

    missing : (g : Host) → none ≡ some g → ⊥
    missing g found = cc

    only : (k : String) (g : Host) → get k (nico_with h).hosts ≡ some g → g.host_id ≡ k
    only k g found = elim (Bool-cases ("host-01" == k)) [
      | inl y ↦ same k g (rw y at found) ∙ e ∙ (eq_iff "host-01" k).0 y
      | inr f ↦ absurd (missing g (rw f at found))
    ]

reuse_needs_sanitize_example :
    ((h' : Host) × (get "host-01"
          (run (releases "inst-2" ∷ sanitizes "host-01" ∷ []) (nico_with rented)).hosts
        ≡ some h')
      × (is_used h'.state ≡ true))
    ⊎ ((before : List Call) × (after : List Call) × (releases "inst-2" ∷ sanitizes "host-01" ∷ []
          ≡ before ++ sanitizes "host-01" ∷ after)
        × Passed (run (before ++ sanitizes "host-01" ∷ []) (nico_with rented)) "host-01")
reuse_needs_sanitize_example =
    reuse_needs_sanitize (releases "inst-2" ∷ sanitizes "host-01" ∷ []) (nico_with rented) "host-01"
      rented (settled rented refl) (unfold get in refl) refl

step-may_move_example :
    (h' : Host) × (get "host-01" (step (reserves "host-01") (nico_with host)).hosts ≡ some h')
    × (may_move pool_ready h'.state ≡ true)
step-may_move_example =
    step-may_move (reserves "host-01") (nico_with host) "host-01" host (settled host refl)
      (unfold get in refl)

deliver_example :
    get "host-01"
      (allocate "host-01" "tnt-acme"
        (provision "host-01" "dgx-os" (reserve "host-01" (nico_with host)).1).1).1.hosts
    ≡ some (record host {
      state = allocated;
      image_ref = some "dgx-os";
      host_ip = "10.101.3.30";
      instance_id = some "inst-4";
      tenant_ref = some "tnt-acme";
    })
unfolding decimal
deliver_example =
    deliver (nico_with host) "host-01" "dgx-os" "tnt-acme" "10.101.3.30" host (settled host refl)
      (unfold get in refl) refl (unfold lease_ip in refl) (unfold get in refl)

reclaim_example :
    get "host-01" (sanitize "host-01" (release "inst-2" (nico_with rented)).1).1.hosts
    ≡ some (record rented {
      state = pool_ready;
      attested = true;
      instance_id = none;
      tenant_ref = none;
      image_ref = none;
      host_ip = "";
    })
reclaim_example =
    reclaim (nico_with rented) "inst-2" "host-01" rented (settled rented refl) (unfold get in refl)
      (unfold find_instance in refl) refl (unfold get in refl)

-- two jobs for one host: the first was the tenant's, the second is left over
abbrev left_over : Job
left_over = record {
  job_id = "job-2";
  op = op_release;
  host_id = "host-01";
  state = running;
  detail = "";
  remaining_polls = 1;
}

abbrev polled : Nico
polled = record (nico_with rented) { jobs = ("job-2", left_over) ∷ []; job_latency = 1 }

abbrev long_job : Job
long_job = record left_over { remaining_polls = 3 }

abbrev long_polled : Nico
long_polled = record polled { jobs = ("job-2", long_job) ∷ []; job_latency = 3 }

wait_job-Waited_example : Waited true long_job (wait_job 60 long_job long_polled)
wait_job-Waited_example =
    wait_job-Waited 60 long_job long_polled rented (unfold get in refl) (unfold get in refl) refl
      (omega arith)

ips_run :
    ips_for_tray "su-1-rack-03-tray-07"
    ≡ some (record { bmc_ip = "10.99.19.8"; dpu_ip = "172.16.19.8"; host_ip = "10.101.3.30" })
unfolding ips_for_tray
ips_run = refl

last_number_run : last_number none "cpu-node-12" ≡ some 12
unfolding last_number number
last_number_run = refl

decimal_run : decimal 1203 ≡ "1203"
unfolding decimal
decimal_run = refl
