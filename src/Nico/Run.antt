-- ===== src/Nico/Run.antt =====
-- Sequences of the calls that the control plane makes (the ComputeAdapter protocol of
-- app/adapters.py) and that a test makes to inject a failure, while `job_latency` is 0.
use neo_cloud_control_plane.Prelude.{ℕ, String, Option, none, some, List, [], ◌∷◌}
use neo_cloud_control_plane.Nico.{Nico}
use neo_cloud_control_plane.Nico.Jobs.{get_job, inject_failure}
use neo_cloud_control_plane.Nico.Hosts.{
  validate, reserve, unreserve, provision, allocate, release, abort_provision, sanitize, cordon,
}
use neo_cloud_control_plane.Nico.Segments.{create_segment, attach_hosts, delete_segment}
use neo_cloud_control_plane.Nico.Settled.{IsSettled}
use neo_cloud_control_plane.Nico.Effect.{Effect}
use neo_cloud_control_plane.Nico.Steps.{
  validate-Effect, reserve-Effect, unreserve-Effect, provision-Effect, allocate-Effect,
  release-Effect, abort_provision-Effect, sanitize-Effect, cordon-Effect, get_job-Effect,
  inject_failure-Effect,
}
use neo_cloud_control_plane.Nico.Wiring.{
  create_segment-Effect, attach_hosts-Effect, delete_segment-Effect,
}

pub data Call : Type 0 where
  validates reserves unreserves releases aborts sanitizes cordons polls : String → Call
  provisions allocates injects : String → String → Call
  segments : String → String → ℕ → ℕ → List String → Option String → Option ℕ → Call
  attaches : String → List String → Call
  deletes : String → Call

unfoldable pub step : Call → Nico → Nico
step (validates h) n = (validate h n).1
step (reserves h) n = (reserve h n).1
step (unreserves h) n = (unreserve h n).1
step (releases i) n = (release i n).1
step (aborts h) n = (abort_provision h n).1
step (sanitizes h) n = (sanitize h n).1
step (cordons h) n = (cordon h n).1
step (polls j) n = (get_job j n).1
step (provisions h image) n = (provision h image n).1
step (allocates h tenant) n = (allocate h tenant n).1
step (injects h op) n = inject_failure h op n
step (segments t vrf l3 conv hs a pkey) n = (create_segment t vrf l3 conv hs a pkey n).1
step (attaches s hs) n = (attach_hosts s hs n).1
step (deletes s) n = (delete_segment s n).1

unfoldable pub run : List Call → Nico → Nico
run [] n = n
run (c ∷ cs) n = run cs (step c n)

-- the host that a call is to sanitize
abbrev pub sanitized : Call → Option String
sanitized (sanitizes h) = some h
sanitized _ = none

pub step-Effect : (c : Call) (n : Nico) → IsSettled n → Effect (sanitized c) n (step c n)
unfolding step
step-Effect (validates h) n v = validate-Effect n v h
step-Effect (reserves h) n v = reserve-Effect n v h
step-Effect (unreserves h) n v = unreserve-Effect n v h
step-Effect (releases i) n v = release-Effect n v i
step-Effect (aborts h) n v = abort_provision-Effect n v h
step-Effect (sanitizes h) n v = sanitize-Effect n v h
step-Effect (cordons h) n v = cordon-Effect n v h
step-Effect (polls j) n v = get_job-Effect n v j
step-Effect (provisions h image) n v = provision-Effect n v h image
step-Effect (allocates h tenant) n v = allocate-Effect n v h tenant
step-Effect (injects h op) n v = inject_failure-Effect n v h op
step-Effect (segments t vrf l3 conv hs a pkey) n v =
    create_segment-Effect n v t vrf l3 conv hs a pkey
step-Effect (attaches s hs) n v = attach_hosts-Effect n v s hs
step-Effect (deletes s) n v = delete_segment-Effect n v s
