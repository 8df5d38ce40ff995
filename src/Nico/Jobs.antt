-- ===== src/Nico/Jobs.antt =====
-- app/nico_fake.py: the jobs of FakeNico, and the failures that tests inject.
use neo_cloud_control_plane.Prelude.{
  ℕ, zero, suc, ◌+◌, ◌-◌, String, ◌+++◌, Bool, true, false, not, ◌&&◌, none, List, [], ◌∷◌, ◌++◌,
  ◌==◌, eqb, if◌then◌else◌, contains, select, or_else,
}
use neo_cloud_control_plane.Prelude.Decimal.{decimal}
use neo_cloud_control_plane.Prelude.Exec.{Exec, ok, err, or_raise, gets, modify, pure, ◌>>=◌, ◌>>◌}
use neo_cloud_control_plane.Dict.{get, put}
use neo_cloud_control_plane.Nico.{
  Nico, Host, Job, JobOp, op_provision, op_release, op_sanitize, JobState, running, succeeded,
  failed, quarantined, pool_ready, provisioned, released, rma, SanitizeReport, sanitize_steps,
  set_host, host_of,
}

-- setdefault(host_id, set()).add(op)
unfoldable pub inject_failure : String → String → Nico → Nico
inject_failure host_id op n =
    let flags = or_else (get host_id n.fail_flags) [] in
    record n {
      fail_flags = put host_id (if contains flags op then flags else flags ++ op ∷ []) n.fail_flags;
    }

unfoldable pub consume_failure : String → String → Exec Nico Bool
consume_failure host_id op n =
    let flags = or_else (get host_id n.fail_flags) [] in
    if contains flags op
    then (
      ok true,
      record n { fail_flags = put host_id (select (λ f. not (f == op)) flags) n.fail_flags },
    )
    else (ok false, n)

-- the loop over SANITIZE_STEPS, which stops at the first step that fails
unfoldable pub run_steps : Bool → List String → List (String × Bool) × Bool
run_steps fail [] = ([], true)
run_steps fail (step ∷ steps) =
    let good = not (fail && step == "re_attestation") in
    let (rest, passed) = run_steps fail steps in
    if good then ((step, true) ∷ rest, passed) else ((step, false) ∷ [], false)

abbrev set_job : Job → Nico → Nico
set_job job n = record n { jobs = put job.job_id job n.jobs }

abbrev pub finish_provision : Job → Host → Bool → Nico → Nico
finish_provision job host true n =
    set_host job.host_id (record host { state = quarantined; host_ip = "" })
      (set_job (record job { state = failed; detail = "firmware mismatch during PXE" }) n)
finish_provision job host false n =
    set_host job.host_id (record host { state = provisioned })
      (set_job (record job { state = succeeded }) n)

abbrev pub finish_release : Job → Host → Nico → Nico
finish_release job host n =
    set_host job.host_id (record host { state = released; instance_id = none; tenant_ref = none })
      (set_job (record job { state = succeeded }) n)

abbrev file_report : Host → List (String × Bool) → Bool → Nico → Nico
file_report host steps passed n =
    let report : SanitizeReport = record {
      host_id = host.host_id;
      passed = passed;
      steps = steps;
    } in
    record n { sanitize_reports = put host.host_id report n.sanitize_reports }

abbrev pub finish_sanitize : Job → Host → List (String × Bool) × Bool → Nico → Nico
finish_sanitize job host (steps, passed) n =
    if passed
    then set_host job.host_id
        (record host { state = pool_ready; attested = true; image_ref = none; host_ip = "" })
        (set_job (record job { state = succeeded }) (file_report host steps passed n))
    else set_host job.host_id (record host { state = rma })
        (set_job (record job { state = failed; detail = "re-attestation failed" })
          (file_report host steps passed n))

abbrev finish : JobOp → Job → Host → Bool → Nico → Nico
finish op_provision job host fail n = finish_provision job host fail n
finish op_release job host fail n = finish_release job host n
finish op_sanitize job host fail n = finish_sanitize job host (run_steps fail sanitize_steps) n

-- _finish_job
unfoldable pub finish_job : Job → Bool → Exec Nico (Unit {0})
unfolding host_of run_steps
finish_job job fail = do host ← host_of job.host_id; modify (finish job.op job host fail)

-- what `_new_job` returns: the object that its calls have changed
abbrev pub current : Job → Exec Nico Job
current job n = (ok (or_else (get job.job_id n.jobs) job), n)

abbrev next_job : JobOp → Host → Nico → Job
next_job op host n = record {
  job_id = "job-" +++ decimal (n.seq + 1);
  op = op;
  host_id = host.host_id;
  state = running;
  detail = "";
  remaining_polls = n.job_latency;
}

-- `if job.remaining_polls <= 0: … elif fail: …`
abbrev start_job : Job → Bool → Exec Nico (Unit {0})
start_job job fail =
    if eqb job.remaining_polls 0
    then finish_job job fail
    else if fail
    then modify (set_job (record job { detail = "will-fail" }))
    else pure tt

-- _new_job
unfoldable pub new_job : JobOp → Host → Bool → Exec Nico Job
unfolding finish_job
new_job op host fail = do
  job ← gets (next_job op host)
  modify (λ n. set_job job (record n { seq = n.seq + 1 }))
  start_job job fail
  current job

-- `job.remaining_polls -= 1; if job.remaining_polls <= 0: …`; the count stops at 0 here
abbrev pub poll : JobState → Job → Exec Nico (Unit {0})
poll running job =
    let job' : Job = record job { remaining_polls = job.remaining_polls - 1 } in
    do
      modify (set_job job')
      if eqb job'.remaining_polls 0 then finish_job job' (job'.detail == "will-fail") else pure tt
poll _ job = pure tt

unfoldable pub get_job : String → Exec Nico Job
unfolding finish_job
get_job job_id = do
  found ← gets (λ n. get job_id n.jobs)
  job ← or_raise found 404
  poll job.state job
  current job

-- app/adapters.py: wait_job over this manager; `polls` counts the rounds left of `max_polls`
unfoldable pub wait_job : ℕ → Job → Exec Nico Job
unfolding get_job
wait_job zero job n = (err 504, n)
wait_job (suc polls) job n = elim job.state [
  | running ↦ (get_job job.job_id >>= λ j. wait_job polls j) n
  | other ↦ (ok job, n)
]
