-- ===== src/Nico/Cycle.antt =====
-- The service life of one host: from the pool to a tenant, and back to the pool.
use neo_cloud_control_plane.Prelude.{
  ◌+◌, String, ◌+++◌, ◌≡◌, refl, ap, sym, ◌∙◌, subst, true, none, some, eq_refl,
}
use neo_cloud_control_plane.Prelude.Decimal.{decimal}
use neo_cloud_control_plane.Dict.{get, put, values}
use neo_cloud_control_plane.Dict.Laws.{get-put}
use neo_cloud_control_plane.Nico.{
  Nico, Host, pool_ready, reserved, allocated, released, provisioning, provisioned,
}
use neo_cloud_control_plane.Nico.Address.{lease_ip}
use neo_cloud_control_plane.Nico.Jobs.{new_job}
use neo_cloud_control_plane.Nico.Hosts.{
  reserve, provision, allocate, release, sanitize, find_instance,
}
use neo_cloud_control_plane.Nico.Settled.{IsSettled}

module _ (n : Nico) (k : String) (h : Host) (here : get k n.hosts ≡ some h) where
  reserve_ok :
      h.state ≡ pool_ready
      → (reserve k n).1 ≡ record n { hosts = put k (record h { state = reserved }) n.hosts }
  unfolding reserve
  reserve_ok s = simp (here, s)

  allocate_ok :
      (tenant : String)
      → h.state ≡ provisioned
      → get k (allocate k tenant n).1.hosts
        ≡ some (record h {
          state = allocated;
          instance_id = some ("inst-" +++ decimal (n.seq + 1));
          tenant_ref = some tenant;
        })
  unfolding allocate
  allocate_ok tenant s = simp (here, s, get-put, eq_refl)

  leased :
      (image ip : String)
      → lease_ip h ≡ some ip
      → lease_ip (record h { state = provisioning; image_ref = some image }) ≡ some ip
  unfolding lease_ip
  leased image ip e = e

  module _ (image ip : String) (s : h.state ≡ reserved) (latency : n.job_latency ≡ 0)
      (same : h.host_id ≡ k) (lease : lease_ip h ≡ some ip)
      (sound : get k n.fail_flags ≡ none) where
    provision_ok :
        get k (provision k image n).1.hosts
        ≡ some (record h { state = provisioned; image_ref = some image; host_ip = ip })
    unfolding provision
    provision_ok =
        simp (here, s, leased image ip lease) (simp (sound, latency, same, get-put, eq_refl))

    seq-provision : (provision k image n).1.seq ≡ n.seq + 1
    unfolding provision
    seq-provision =
        simp (here, s, leased image ip lease) (simp (sound, latency, same, get-put, eq_refl))

-- With job_latency 0, a host in the pool that an address can be leased to and that no failure has been
-- injected for goes to the tenant in three calls: it is allocated, runs the image at that address, and
-- its instance has the number that is two above NICo's counter.
pub deliver :
    (n : Nico) (k image tenant ip : String) (h : Host)
    → IsSettled n
    → get k n.hosts ≡ some h
    → h.state ≡ pool_ready
    → lease_ip h ≡ some ip
    → get k n.fail_flags ≡ none
    → get k (allocate k tenant (provision k image (reserve k n).1).1).1.hosts
      ≡ some (record h {
        state = allocated;
        image_ref = some image;
        host_ip = ip;
        instance_id = some ("inst-" +++ decimal (n.seq + 1 + 1));
        tenant_ref = some tenant;
      })
deliver n k image tenant ip h v here s lease sound = rw (reserve_ok n k h here s) (
    allocate_ok n₂ k (record h₁ { state = provisioned; image_ref = some image; host_ip = ip })
      (provision_ok n₁ k h₁ here₁ image ip refl v.latency (v.keyed k h here) lease₁ sound) tenant
      refl
    ∙ ap
        (λ q. some (record h {
          state = allocated;
          image_ref = some image;
          host_ip = ip;
          instance_id = some ("inst-" +++ decimal (q + 1));
          tenant_ref = some tenant;
        }))
        (seq-provision n₁ k h₁ here₁ image ip refl v.latency (v.keyed k h here) lease₁ sound))
  where
    h₁ : Host
    h₁ = record h { state = reserved }

    n₁ : Nico
    n₁ = record n { hosts = put k h₁ n.hosts }

    n₂ : Nico
    n₂ = (provision k image n₁).1

    here₁ : get k n₁.hosts ≡ some h₁
    here₁ = rw (get-put, eq_refl)

    lease₁ : lease_ip h₁ ≡ some ip
    lease₁ = unfold lease_ip in lease

module _ (n : Nico) (i : String) (h : Host) (latency : n.job_latency ≡ 0)
    (here : get h.host_id n.hosts ≡ some h) (found : find_instance i (values n.hosts) ≡ some h)
    (s : h.state ≡ allocated) where
  release_ok :
      get h.host_id (release i n).1.hosts
      ≡ some (record h { state = released; instance_id = none; tenant_ref = none })
  unfolding release new_job
  release_ok = simp (found, s) (simp (latency, here) (simp (get-put, eq_refl)))

  flags-release : (release i n).1.fail_flags ≡ n.fail_flags
  unfolding release new_job
  flags-release = simp (found, s) (simp (latency, here))

  latency-release : (release i n).1.job_latency ≡ 0
  unfolding release new_job
  latency-release = simp (found, s) (simp (latency, here))

module _ (n : Nico) (k : String) (h : Host) (latency : n.job_latency ≡ 0) (same : h.host_id ≡ k)
    (here : get k n.hosts ≡ some h) (s : h.state ≡ released)
    (sound : get k n.fail_flags ≡ none) where
  sanitize_ok :
      get k (sanitize k n).1.hosts
      ≡ some (record h { state = pool_ready; attested = true; image_ref = none; host_ip = "" })
  unfolding sanitize new_job
  sanitize_ok = simp (here, s) (simp (sound, latency, same) (simp (get-put, eq_refl)))

-- With job_latency 0, a tenant's host that no failure has been injected for, released by its instance
-- and sanitized, is back in the pool with no instance, tenant, image or address.
pub reclaim :
    (n : Nico) (i k : String) (h : Host)
    → IsSettled n
    → get k n.hosts ≡ some h
    → find_instance i (values n.hosts) ≡ some h
    → h.state ≡ allocated
    → get k n.fail_flags ≡ none
    → get k (sanitize k (release i n).1).1.hosts
      ≡ some (record h {
        state = pool_ready;
        attested = true;
        instance_id = none;
        tenant_ref = none;
        image_ref = none;
        host_ip = "";
      })
reclaim n i k h v here found s sound =
    sanitize_ok (release i n).1 k
      (record h { state = released; instance_id = none; tenant_ref = none })
      (latency-release n i h v.latency here' found s) (v.keyed k h here)
      (subst
        (λ t.
          get t (release i n).1.hosts
          ≡ some (record h { state = released; instance_id = none; tenant_ref = none }))
        (v.keyed k h here) (release_ok n i h v.latency here' found s))
      refl (ap (get k) (flags-release n i h v.latency here' found s) ∙ sound)
  where
    here' : get h.host_id n.hosts ≡ some h
    here' = subst (λ t. get t n.hosts ≡ some h) (sym (v.keyed k h here)) here
