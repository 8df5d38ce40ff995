-- ===== src/Nico/Settled.antt =====
-- FakeNico with `job_latency` 0, its default: each job ends in the call that starts it.
use neo_cloud_control_plane.Prelude.{
  String, ◌≡◌, ◌≢◌, Bool, true, false, none, some, map, arith, ◌==◌, eq_refl, if◌then◌else◌,
}
use neo_cloud_control_plane.Dict.{get}
use neo_cloud_control_plane.Dict.Laws.{get-put, IsDict, put-IsDict}
use neo_cloud_control_plane.Nico.{
  Nico, Host, Job, JobOp, op_provision, op_release, op_sanitize, running, quarantined, pool_ready,
  provisioned, released, rma, sanitize_steps,
}
use neo_cloud_control_plane.Nico.Jobs.{new_job}

pub record IsSettled (n : Nico) : Type 0 where
  pub latency : n.job_latency ≡ 0
  pub over : (k : String) (j : Job) → get k n.jobs ≡ some j → j.state ≢ running
  pub keyed : (k : String) (h : Host) → get k n.hosts ≡ some h → h.host_id ≡ k
  pub dict : IsDict n.hosts

-- what the end of a job makes of its host
abbrev pub finished : JobOp → Bool → Host → Host
finished op_provision true h = record h { state = quarantined; host_ip = "" }
finished op_provision false h = record h { state = provisioned }
finished op_release _ h = record h { state = released; instance_id = none; tenant_ref = none }
finished op_sanitize true h = record h { state = rma }
finished op_sanitize false h = record h {
  state = pool_ready;
  attested = true;
  image_ref = none;
  host_ip = "";
}

module _ (host : Host) (n : Nico) (h : Host) (latency : n.job_latency ≡ 0)
    (here : get host.host_id n.hosts ≡ some h) where
  pub new_job-hosts :
      (op : JobOp) (fail : Bool) (k : String)
      → get k (new_job op host fail n).1.hosts
        ≡ (if host.host_id == k then some (finished op fail h) else get k n.hosts)
  unfolding new_job
  new_job-hosts op_provision true k = simp (latency, here, get-put)
  new_job-hosts op_provision false k = simp (latency, here, get-put)
  new_job-hosts op_sanitize true k = simp (latency, here, get-put)
  new_job-hosts op_sanitize false k = simp (latency, here, get-put)
  new_job-hosts op_release fail k = simp (latency, here, get-put)

  pub new_job-over :
      (op : JobOp) (fail : Bool)
      → ((k : String) (j : Job) → get k n.jobs ≡ some j → j.state ≢ running)
      → (k : String) (j : Job) → get k (new_job op host fail n).1.jobs ≡ some j
      → j.state ≢ running
  unfolding new_job
  new_job-over op_provision true over k j = simp (latency, here, get-put) (ground (arith, over k j))
  new_job-over op_provision false over k j =
      simp (latency, here, get-put) (ground (arith, over k j))
  new_job-over op_sanitize true over k j = simp (latency, here, get-put) (ground (arith, over k j))
  new_job-over op_sanitize false over k j = simp (latency, here, get-put) (ground (arith, over k j))
  new_job-over op_release fail over k j = simp (latency, here, get-put) (ground (arith, over k j))

  pub latency-new_job : (op : JobOp) (fail : Bool) → (new_job op host fail n).1.job_latency ≡ 0
  unfolding new_job
  latency-new_job op_provision true = simp (latency, here)
  latency-new_job op_provision false = simp (latency, here)
  latency-new_job op_sanitize true = simp (latency, here)
  latency-new_job op_sanitize false = simp (latency, here)
  latency-new_job op_release fail = simp (latency, here)

  pub new_job-IsDict :
      (op : JobOp) (fail : Bool) → IsDict n.hosts → IsDict (new_job op host fail n).1.hosts
  unfolding new_job
  new_job-IsDict op_provision true d = simp (latency, here) (put-IsDict host.host_id _ n.hosts d)
  new_job-IsDict op_provision false d = simp (latency, here) (put-IsDict host.host_id _ n.hosts d)
  new_job-IsDict op_sanitize true d = simp (latency, here) (put-IsDict host.host_id _ n.hosts d)
  new_job-IsDict op_sanitize false d = simp (latency, here) (put-IsDict host.host_id _ n.hosts d)
  new_job-IsDict op_release fail d = simp (latency, here) (put-IsDict host.host_id _ n.hosts d)

  -- a passing sanitize job files a report with all the steps
  pub report-new_job :
      h.host_id ≡ host.host_id
      → get host.host_id (new_job op_sanitize host false n).1.sanitize_reports
        ≡ some (record {
          host_id = host.host_id;
          passed = true;
          steps = map (λ s. (s, true)) sanitize_steps;
        })
  unfolding new_job
  report-new_job same = simp (latency, here, same, get-put, eq_refl)
