-- ===== src/Nico/Waiting.antt =====
-- app/adapters.py: wait_job, over the jobs of app/nico_fake.py.
use neo_cloud_control_plane.Prelude.{
  ltb, ℕ, zero, suc, ◌-◌, ◌≤◌, ◌<◌, ◌≡◌, ◌≢◌, refl, Bool, true, false, some, arith, ◌==◌, eq_refl,
  eqb, Bool-cases, inl, inr,
}
use neo_cloud_control_plane.Prelude.Exec.{Result, ok, err, continue}
use neo_cloud_control_plane.Dict.{get, put}
use neo_cloud_control_plane.Dict.Laws.{get-put}
use neo_cloud_control_plane.Nico.{
  Nico, Host, Job, JobOp, JobState, op_provision, op_release, op_sanitize, running, succeeded,
  failed,
}
use neo_cloud_control_plane.Nico.Jobs.{get_job, wait_job}

-- the end of a wait: a job that is over, as it is stored
pub record IsOver (job : Job) (r : Result Job × Nico) : Type 0 where
  pub last : Job
  pub returned : r.0 ≡ ok last
  pub stored : get job.job_id r.1.jobs ≡ some last
  pub over : last.state ≢ running

abbrev ticked : Job → Job
ticked job = record job { remaining_polls = job.remaining_polls - 1 }

wait_job_over :
    (p : ℕ) (job : Job) (n : Nico) → job.state ≢ running → wait_job (suc p) job n ≡ (ok job, n)
unfolding wait_job
wait_job_over p job n o = by_state job.state refl
  where
    by_state : (s : JobState) → job.state ≡ s → wait_job (suc p) job n ≡ (ok job, n)
    by_state running e = absurd (ground (arith, o))
    by_state succeeded e = rw e refl
    by_state failed e = ground (arith, e)

module _ (job : Job) (n : Nico) (h : Host) (there : get job.job_id n.jobs ≡ some job)
    (s : job.state ≡ running) where
  get_job_last :
      get job.host_id n.hosts ≡ some h
      → job.remaining_polls - 1 ≡ 0
      → IsOver job (get_job job.job_id n)
  unfolding get_job
  get_job_last here due = by_op job.op refl (job.detail == "will-fail") refl
    where
      due' : eqb (job.remaining_polls - 1) 0 ≡ true
      due' = ground arith

      by_op :
          (op : JobOp)
          → job.op ≡ op
          → (fail : Bool) → (job.detail == "will-fail") ≡ fail
          → IsOver job (get_job job.job_id n)
      by_op op_provision e true f = record {
        last = record (ticked job) { state = failed; detail = "firmware mismatch during PXE" };
        returned = simp (there, s, due') (simp (here, e, f) (simp (get-put, eq_refl)));
        stored = simp (there, s, due') (simp (here, e, f) (simp (get-put, eq_refl)));
        over = λ o. ground arith;
      }
      by_op op_provision e false f = record {
        last = record (ticked job) { state = succeeded };
        returned = simp (there, s, due') (simp (here, e, f) (simp (get-put, eq_refl)));
        stored = simp (there, s, due') (simp (here, e, f) (simp (get-put, eq_refl)));
        over = λ o. ground arith;
      }
      by_op op_release e fail f = record {
        last = record (ticked job) { state = succeeded };
        returned = simp (there, s, due') (simp (here, e, f) (simp (get-put, eq_refl)));
        stored = simp (there, s, due') (simp (here, e, f) (simp (get-put, eq_refl)));
        over = λ o. ground arith;
      }
      by_op op_sanitize e true f = record {
        last = record (ticked job) { state = failed; detail = "re-attestation failed" };
        returned = simp (there, s, due') (simp (here, e, f) (simp (get-put, eq_refl)));
        stored = simp (there, s, due') (simp (here, e, f) (simp (get-put, eq_refl)));
        over = λ o. ground arith;
      }
      by_op op_sanitize e false f = record {
        last = record (ticked job) { state = succeeded };
        returned = simp (there, s, due') (simp (here, e, f) (simp (get-put, eq_refl)));
        stored = simp (there, s, due') (simp (here, e, f) (simp (get-put, eq_refl)));
        over = λ o. ground arith;
      }

  get_job_more :
      eqb (job.remaining_polls - 1) 0 ≡ false
      → get_job job.job_id n
        ≡ (ok (ticked job), record n { jobs = put job.job_id (ticked job) n.jobs })
  unfolding get_job
  get_job_more f = simp (there, s, f) (simp (get-put, eq_refl))

  wait_job_step :
      (p : ℕ)
      → wait_job (suc p) job n
        ≡ continue (get_job job.job_id n).0 (wait_job p) (get_job job.job_id n).1
  unfolding wait_job
  wait_job_step p = rw s refl

wait_job_last :
    (q : ℕ) (job : Job) (r : Result Job × Nico)
    → IsOver job r
    → IsOver job (continue r.0 (wait_job (suc q)) r.1)
wait_job_last q job r o = rw o.returned (
    rw (wait_job_over q o.last r.1 o.over)
      (record { last = o.last; returned = refl; stored = o.stored; over = o.over }))

-- a job that ends within fewer polls than are allowed
wait_job_ends :
    (polls : ℕ) (job : Job) (n : Nico) (h : Host)
    → get job.job_id n.jobs ≡ some job
    → get job.host_id n.hosts ≡ some h
    → job.state ≡ running
    → 0 < job.remaining_polls
    → job.remaining_polls < polls
    → IsOver job (wait_job polls job n)
wait_job_ends zero job n h there here s pos few = absurd (omega arith)
wait_job_ends (suc polls) job n h there here s pos few =
    elim (Bool-cases (eqb (job.remaining_polls - 1) 0)) [
      | inl y ↦ ended polls y few
      | inr f ↦
          let n' : Nico = record n { jobs = put job.job_id (ticked job) n.jobs } in
          let more : (ticked job).remaining_polls < polls = ground arith in
          let left : 0 < (ticked job).remaining_polls = ground arith in
          let rest =
            wait_job_ends polls (ticked job) n' h (simp (get-put, eq_refl)) here s left more in
          rw (wait_job_step job n h there s polls) (
            rw (get_job_more job n h there s f) (record {
              last = rest.last;
              returned = rest.returned;
              stored = rest.stored;
              over = rest.over;
            }))
    ]
  where
    ended :
        (p : ℕ)
        → eqb (job.remaining_polls - 1) 0 ≡ true
        → job.remaining_polls < suc p
        → IsOver job (wait_job (suc p) job n)
    ended zero y f = absurd (ground arith)
    ended (suc q) y f = rw (wait_job_step job n h there s (suc q)) (
        wait_job_last q job (get_job job.job_id n)
          (get_job_last job n h there s here (ground arith)))

-- a job that takes as many polls as are allowed, or more
wait_job_late :
    (polls : ℕ) (job : Job) (n : Nico) (h : Host)
    → get job.job_id n.jobs ≡ some job
    → get job.host_id n.hosts ≡ some h
    → job.state ≡ running
    → 0 < job.remaining_polls
    → polls ≤ job.remaining_polls
    → (wait_job polls job n).0 ≡ err 504
unfolding wait_job
wait_job_late zero job n h there here s pos many = refl
wait_job_late (suc polls) job n h there here s pos many =
    elim (Bool-cases (eqb (job.remaining_polls - 1) 0)) [
      | inl y ↦ last polls y many
      | inr f ↦
          let n' : Nico = record n { jobs = put job.job_id (ticked job) n.jobs } in
          let more : polls ≤ (ticked job).remaining_polls = ground arith in
          let left : 0 < (ticked job).remaining_polls = ground arith in
          let rest =
            wait_job_late polls (ticked job) n' h (simp (get-put, eq_refl)) here s left more in
          rw (wait_job_step job n h there s polls) (rw (get_job_more job n h there s f) rest)
    ]
  where
    last :
        (p : ℕ)
        → eqb (job.remaining_polls - 1) 0 ≡ true
        → suc p ≤ job.remaining_polls
        → (wait_job (suc p) job n).0 ≡ err 504
    last zero y m =
        let o = get_job_last job n h there s here (ground arith) in
        rw (wait_job_step job n h there s zero) (rw o.returned refl)
    last (suc q) y m = absurd (ground arith)

-- what a wait comes to, by whether the job ends within fewer polls than are allowed
abbrev pub Waited : Bool → Job → Result Job × Nico → Type 0
Waited true job r = IsOver job r
Waited false job r = r.0 ≡ err 504

-- A wait for a running job of a known host comes back with the job, stored so and no longer running,
-- exactly where the job ends within fewer polls than are allowed; where it takes as many, or more, the
-- wait fails with 504, although the last poll may have ended the job.
pub wait_job-Waited :
    (polls : ℕ) (job : Job) (n : Nico) (h : Host)
    → get job.job_id n.jobs ≡ some job
    → get job.host_id n.hosts ≡ some h
    → job.state ≡ running
    → 0 < job.remaining_polls
    → Waited (ltb job.remaining_polls polls) job (wait_job polls job n)
wait_job-Waited polls job n h there here s pos = elim (Bool-cases (ltb job.remaining_polls polls)) [
  | inl y ↦ rw y (wait_job_ends polls job n h there here s pos (ground (arith, y)))
  | inr f ↦ rw f (wait_job_late polls job n h there here s pos (ground (arith, f)))
]
