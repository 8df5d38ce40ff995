-- ===== src/Nico/Steps.antt =====
-- app/nico_fake.py: the effect of each operation on hosts and jobs.
use neo_cloud_control_plane.Prelude.{
  ◌+◌, String, ◌+++◌, ◌≡◌, ◌≢◌, refl, ap, subst, sym, ◌∙◌, Bool, true, false, Option, none, some,
  [], ◌∷◌, arith, ◌==◌, eq_refl, if◌then◌else◌, is_text, Option-cases, Bool-cases, inl, inr,
  contains, or_else,
}
use neo_cloud_control_plane.Prelude.Decimal.{decimal}
use neo_cloud_control_plane.Prelude.Exec.{Exec, or_raise, modify, require, ◌>>=◌, ◌>>◌}
use neo_cloud_control_plane.Dict.{Dict, get, put, values}
use neo_cloud_control_plane.Dict.Laws.{get-put, put-put, IsDict, put-IsDict, get-tail, get-head}
use neo_cloud_control_plane.Nico.{
  Nico, Host, Job, JobState, JobOp, op_provision, op_release, op_sanitize, running, discovered,
  quarantined, pool_ready, reserved, provisioning, provisioned, allocated, released, sanitizing,
  in_states, set_host,
}
use neo_cloud_control_plane.Nico.Address.{lease_ip}
use neo_cloud_control_plane.Nico.Jobs.{
  new_job, get_job, poll, current, consume_failure, inject_failure,
}
use neo_cloud_control_plane.Nico.Hosts.{
  validate, reserve, unreserve, provision, allocate, release, abort_provision, sanitize, cordon,
  find_instance,
}
use neo_cloud_control_plane.Nico.Settled.{
  IsSettled, finished, new_job-hosts, new_job-over, latency-new_job, new_job-IsDict, report-new_job,
}
use neo_cloud_control_plane.Nico.Effect.{
  Effect, Effect-refl, Gate, Move, Moved-refl, may_stay, if-Moved,
}

-- a write of one host and of fields that no property here is about
write-Effect :
    {by : Option String} (n n' : Nico) (hid : String) (h h' : Host)
    → IsSettled n
    → get hid n.hosts ≡ some h
    → n'.hosts ≡ put hid h' n.hosts
    → n'.jobs ≡ n.jobs
    → n'.job_latency ≡ n.job_latency
    → Move (Gate by n' hid) h h'
    → Effect by n n'
write-Effect {by} n n' hid h h' v at hosts jobs latency m = record {
  latency = latency ∙ v.latency;
  over = λ k j e. v.over k j (rw jobs at e);
  moved = λ k. rw (hosts, get-put) (if-Moved (Gate by n') hid k n.hosts h h' at m);
  dict = rw hosts (put-IsDict hid h' n.hosts v.dict);
}

if_twice :
    {A : Type 0} (b : Bool) (x y z : A)
    → (if b then x else (if b then y else z)) ≡ (if b then x else z)
if_twice b x y z = ground arith

-- an operation behind a guard
guarded :
    {by : Option String} {A : Type 0} (b : Bool) (m : Exec Nico A) (n : Nico)
    → IsSettled n
    → (b ≡ true → Effect by n (m n).1)
    → Effect by n ((require b 409 >> m) n).1
guarded true m n v e = e refl
guarded false m n v e = Effect-refl n v

-- the same, then a job on that host, which ends at once
job-Effect :
    {by : Option String} (n n₁ : Nico) (h h₁ : Host) (op : JobOp) (host : Host) (fail : Bool)
    → IsSettled n
    → get host.host_id n.hosts ≡ some h
    → n₁.hosts ≡ put host.host_id h₁ n.hosts
    → n₁.jobs ≡ n.jobs
    → n₁.job_latency ≡ n.job_latency
    → Move (Gate by (new_job op host fail n₁).1 host.host_id) h (finished op fail h₁)
    → Effect by n (new_job op host fail n₁).1
job-Effect {by} n n₁ h h₁ op host fail v at hosts jobs latency m = record {
  latency = latency-new_job host n₁ h₁ still here op fail;
  over = new_job-over host n₁ h₁ still here op fail (λ k j e. v.over k j (rw jobs at e));
  moved = λ k.
      rw (new_job-hosts host n₁ h₁ still here op fail k, at_key k)
        (rw if_twice (
          if-Moved (Gate by (new_job op host fail n₁).1) host.host_id k n.hosts h
            (finished op fail h₁) at m));
  dict =
      new_job-IsDict host n₁ h₁ still here op fail
        (rw hosts (put-IsDict host.host_id h₁ n.hosts v.dict));
}
  where
    at_key : (k : String) → get k n₁.hosts ≡ (if host.host_id == k then some h₁ else get k n.hosts)
    at_key k = ap (get k) hosts ∙ get-put host.host_id k h₁ n.hosts

    still : n₁.job_latency ≡ 0
    still = latency ∙ v.latency

    here : get host.host_id n₁.hosts ≡ some h₁
    here = rw (hosts, get-put, eq_refl)

same_host : (w h : Host) → some w ≡ some h → w ≡ h
same_host w h e = cc

-- the host that `release` finds stands under its own id
find_instance-get :
    (i : String) (d : Dict Host) (h : Host)
    → IsDict d
    → ((k : String) (g : Host) → get k d ≡ some g → g.host_id ≡ k)
    → find_instance i (values d) ≡ some h
    → get h.host_id d ≡ some h
unfolding find_instance
find_instance-get i [] h u keyed e = cc
find_instance-get i ((j, w) ∷ d) h u keyed e = elim (Bool-cases (is_text w.instance_id i)) [
  | inl y ↦
      subst (λ t. get t.host_id ((j, w) ∷ d) ≡ some t) (same_host w h (rw y at e))
        (subst (λ t. get t ((j, w) ∷ d) ≡ some w) (sym (keyed j w (get-head j w d)))
          (get-head j w d))
  | inr f ↦
      get-tail j h.host_id w h d u.0
        (find_instance-get i d h u.1 (λ k g at. keyed k g (get-tail j k w g d u.0 at)) (rw f at e))
]

module _ (n : Nico) (v : IsSettled n) (hid : String) where
  pub validate-Effect : Effect none n (validate hid n).1
  unfolding validate
  validate-Effect = elim (Option-cases (get hid n.hosts)) [
    | inl e ↦ rw (e, validate) (Effect-refl n v)
    | inr (h, e) ↦
        rw (e, validate)
          (guarded (in_states h.state (discovered ∷ quarantined ∷ [])) _ n v λ g.
            write-Effect n _ hid h
              (record h {
                state = if h.firmware_ok then pool_ready else quarantined;
                attested = h.firmware_ok;
              })
              v e refl refl refl
              (record {
                same_id = refl;
                legal = ground arith;
                bound = λ b. ground arith;
                gate = λ r p. absurd (ground arith);
              }))
  ]

  pub reserve-Effect : Effect none n (reserve hid n).1
  unfolding reserve
  reserve-Effect = elim (Option-cases (get hid n.hosts)) [
    | inl e ↦ rw (e, reserve) (Effect-refl n v)
    | inr (h, e) ↦
        rw (e, reserve)
          (guarded (in_states h.state (pool_ready ∷ [])) _ n v λ g.
            write-Effect n _ hid h (record h { state = reserved }) v e refl refl refl
              (record {
                same_id = refl;
                legal = ground arith;
                bound = λ b. ground arith;
                gate = λ r p. absurd (ground arith);
              }))
  ]

  pub unreserve-Effect : Effect none n (unreserve hid n).1
  unfolding unreserve
  unreserve-Effect = elim (Option-cases (get hid n.hosts)) [
    | inl e ↦ rw (e, unreserve) (Effect-refl n v)
    | inr (h, e) ↦
        rw (e, unreserve)
          (guarded (in_states h.state (reserved ∷ [])) _ n v λ g.
            write-Effect n _ hid h (record h { state = pool_ready }) v e refl refl refl
              (record {
                same_id = refl;
                legal = ground arith;
                bound = λ b. ground arith;
                gate = λ r p. absurd (ground arith);
              }))
  ]

  pub abort_provision-Effect : Effect none n (abort_provision hid n).1
  unfolding abort_provision
  abort_provision-Effect = elim (Option-cases (get hid n.hosts)) [
    | inl e ↦ rw (e, abort_provision) (Effect-refl n v)
    | inr (h, e) ↦
        rw (e, abort_provision)
          (guarded (in_states h.state (provisioned ∷ provisioning ∷ [])) _ n v λ g.
            write-Effect n _ hid h (record h { state = released }) v e refl refl refl
              (record {
                same_id = refl;
                legal = ground arith;
                bound = λ b. ground arith;
                gate = λ r p. absurd (ground arith);
              }))
  ]

  pub cordon-Effect : Effect none n (cordon hid n).1
  unfolding cordon
  cordon-Effect = elim (Option-cases (get hid n.hosts)) [
    | inl e ↦ rw (e, cordon) (Effect-refl n v)
    | inr (h, e) ↦
        rw (e, cordon)
          (write-Effect n _ hid h (record h { cordoned = true }) v e refl refl refl
            (record {
              same_id = refl;
              legal = may_stay h.state;
              bound = λ b. ground arith;
              gate = λ r p. absurd (ground arith);
            }))
  ]

  pub allocate-Effect : (tenant_ref : String) → Effect none n (allocate hid tenant_ref n).1
  unfolding allocate
  allocate-Effect tenant_ref = elim (Option-cases (get hid n.hosts)) [
    | inl e ↦ rw (e, allocate) (Effect-refl n v)
    | inr (h, e) ↦
        rw (e, allocate)
          (guarded (in_states h.state (provisioned ∷ [])) _ n v λ g.
            write-Effect n _ hid h
              (record h {
                state = allocated;
                instance_id = some ("inst-" +++ decimal (n.seq + 1));
                tenant_ref = some tenant_ref;
              })
              v e refl refl refl
              (record {
                same_id = refl;
                legal = ground arith;
                bound = λ b. ground arith;
                gate = λ r p. absurd (ground arith);
              }))
  ]

  -- a failure flag is consumed beside the hosts and jobs
  consumed :
      {by : Option String} {A : Type 0} (op : String) (n₁ : Nico) (m : Bool → Exec Nico A)
      → ((fail : Bool) (n₂ : Nico)
          → n₂.hosts ≡ n₁.hosts
          → n₂.jobs ≡ n₁.jobs
          → n₂.job_latency ≡ n₁.job_latency
          → Effect by n (m fail n₂).1)
      → Effect by n ((consume_failure hid op >>= m) n₁).1
  unfolding consume_failure
  consumed op n₁ m e = elim (Bool-cases (contains (or_else (get hid n₁.fail_flags) []) op)) [
    | inl y ↦ rw y (e true _ refl refl refl)
    | inr y ↦ rw y (e false _ refl refl refl)
  ]

  -- the host under `hid` calls itself so
  keyed_get : (h : Host) → get hid n.hosts ≡ some h → get h.host_id n.hosts ≡ some h
  keyed_get h e = subst (λ t. get t n.hosts ≡ some h) (sym (v.keyed hid h e)) e

  keyed_put :
      (h : Host)
      → get hid n.hosts ≡ some h
      → (h' : Host) → put hid h' n.hosts ≡ put h.host_id h' n.hosts
  keyed_put h e h' = ap (λ t. put t h' n.hosts) (sym (v.keyed hid h e))

  sanitize_Move :
      (h : Host) (fail : Bool) (n₂ : Nico)
      → in_states h.state (released ∷ []) ≡ true
      → n₂.job_latency ≡ 0
      → get h.host_id n₂.hosts ≡ some (record h { state = sanitizing })
      → h.host_id ≡ hid
      → Move
          (Gate (some hid) (new_job op_sanitize h fail n₂).1 h.host_id)
          h
          (finished op_sanitize fail (record h { state = sanitizing }))
  sanitize_Move h true n₂ g latency here same = record {
    same_id = refl;
    legal = ground arith;
    bound = λ b. ground arith;
    gate = λ r p. absurd (ground arith);
  }
  sanitize_Move h false n₂ g latency here same = record {
    same_id = refl;
    legal = ground arith;
    bound = λ b. ground arith;
    gate = λ r p. (
      ap some (sym same),
      report-new_job h n₂ (record h { state = sanitizing }) latency here refl,
    );
  }

  pub sanitize-Effect : Effect (some hid) n (sanitize hid n).1
  unfolding sanitize
  sanitize-Effect = elim (Option-cases (get hid n.hosts)) [
    | inl e ↦ rw (e, sanitize) (Effect-refl n v)
    | inr (h, e) ↦
        rw (e, sanitize)
          (guarded (in_states h.state (released ∷ [])) _ n v λ g.
            consumed "sanitize" _ _ λ fail n₂ hosts jobs latency.
              job-Effect n n₂ h (record h { state = sanitizing }) op_sanitize h fail v
                (keyed_get h e) (hosts ∙ keyed_put h e _) jobs latency
                (sanitize_Move h fail n₂ g (latency ∙ v.latency)
                  (rw (hosts ∙ keyed_put h e _) (rw (get-put, eq_refl) refl)) (v.keyed hid h e)))
  ]

  provision_Move :
      (P : Type 0) (h : Host) (fail : Bool) (ip : String) (image : Option String)
      → in_states h.state (reserved ∷ []) ≡ true
      → Move P h (
          finished op_provision fail
            (record h { state = provisioning; image_ref = image; host_ip = ip }))
  provision_Move P h true ip image g = record {
    same_id = refl;
    legal = ground arith;
    bound = λ b. ground arith;
    gate = λ r p. absurd (ground arith);
  }
  provision_Move P h false ip image g = record {
    same_id = refl;
    legal = ground arith;
    bound = λ b. ground arith;
    gate = λ r p. absurd (ground arith);
  }

  pub provision-Effect : (image : String) → Effect none n (provision hid image n).1
  unfolding provision
  provision-Effect image = elim (Option-cases (get hid n.hosts)) [
    | inl e ↦ rw (e, provision) (Effect-refl n v)
    | inr (h, e) ↦
        rw (e, provision)
          (guarded (in_states h.state (reserved ∷ [])) _ n v λ g.
            leased h e g (lease_ip (record h { state = provisioning; image_ref = some image })))
  ]
    where
      leased :
          (h : Host)
          → get hid n.hosts ≡ some h
          → in_states h.state (reserved ∷ []) ≡ true
          → (o : Option String)
          → let h' : Host = record h { state = provisioning; image_ref = some image } in
            Effect none n
              ((do
                ip ← or_raise o 500
                modify (set_host hid (record h' { host_ip = ip }))
                fail ← consume_failure hid "provision"
                new_job op_provision h' fail)
                (set_host hid h' n)).1
      leased h e g none =
          write-Effect n _ hid h (record h { state = provisioning; image_ref = some image }) v e
            refl refl refl
            (record {
              same_id = refl;
              legal = ground arith;
              bound = λ b. ground arith;
              gate = λ r p. absurd (ground arith);
            })
      leased h e g (some ip) = consumed "provision" _ _ λ fail n₂ hosts jobs latency.
          job-Effect n n₂ h
            (record h { state = provisioning; image_ref = some image; host_ip = ip }) op_provision
            (record h { state = provisioning; image_ref = some image }) fail v (keyed_get h e)
            (hosts ∙ put-put hid _ _ n.hosts ∙ keyed_put h e _) jobs latency
            (provision_Move _ h fail ip (some image) g)

  polled : (j : Job) (s : JobState) → s ≢ running → Effect none n ((poll s j >> current j) n).1
  polled j running h = absurd (h refl)
  polled j _ h = Effect-refl n v

  pub get_job-Effect : Effect none n (get_job hid n).1
  unfolding get_job
  get_job-Effect = elim (Option-cases (get hid n.jobs)) [
    | inl e ↦ rw (e, get_job) (Effect-refl n v)
    | inr (j, e) ↦ rw (e, get_job) (polled j j.state (v.over hid j e))
  ]

  release_Move :
      (P : Type 0) (h : Host)
      → in_states h.state (allocated ∷ []) ≡ true
      → Move P h (finished op_release false h)
  release_Move P h g = record {
    same_id = refl;
    legal = ground arith;
    bound = λ b. ground arith;
    gate = λ r p. absurd (ground arith);
  }

  released-Effect :
      (h : Host)
      → get h.host_id n.hosts ≡ some h
      → Effect none n
          ((require (in_states h.state (allocated ∷ [])) 409 >> new_job op_release h false) n).1
  released-Effect h e = guarded (in_states h.state (allocated ∷ [])) _ n v λ g. record {
    latency = latency-new_job h n h v.latency e op_release false;
    over = new_job-over h n h v.latency e op_release false v.over;
    moved = λ k. rw (new_job-hosts h n h v.latency e op_release false k) (
        if-Moved (Gate none (new_job op_release h false n).1) h.host_id k n.hosts h _ e
          (release_Move _ h g));
    dict = new_job-IsDict h n h v.latency e op_release false v.dict;
  }

  -- `release` looks for the instance among the values
  pub release-Effect : Effect none n (release hid n).1
  unfolding release
  release-Effect = elim (Option-cases (find_instance hid (values n.hosts))) [
    | inl e ↦ rw (e, release) (Effect-refl n v)
    | inr (h, e) ↦
        rw (e, release) (released-Effect h (find_instance-get hid n.hosts h v.dict v.keyed e))
  ]

  pub inject_failure-Effect : (op : String) → Effect none n (inject_failure hid op n)
  unfolding inject_failure
  inject_failure-Effect op = record {
    latency = v.latency;
    over = v.over;
    moved = λ k. Moved-refl _ (get k n.hosts);
    dict = v.dict;
  }
