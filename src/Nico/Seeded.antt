-- ===== src/Nico/Seeded.antt =====
-- app/nico_fake.py: the hosts after seed_from_store, and after any calls from then on.
use neo_cloud_control_plane.Prelude.{
  String, ◌≡◌, refl, sym, ◌∙◌, subst, Option, none, some, List, [], ◌∷◌, Option-cases, inl, inr,
}
use neo_cloud_control_plane.Prelude.Exec.{or_raise, modify}
use neo_cloud_control_plane.Dict.{Dict, get, values}
use neo_cloud_control_plane.Dict.Laws.{IsDict, put-IsDict, Entries, Entries-get, Entries-put}
use neo_cloud_control_plane.Tenancy.{Store, Tray}
use neo_cloud_control_plane.Lifecycle.{CpuNode}
use neo_cloud_control_plane.Orders.{for_each}
use neo_cloud_control_plane.Orders.Holds.{Holds, Holds-bind, Holds-or_raise, Holds-for_each}
use neo_cloud_control_plane.Nico.{Nico, Host, Job, pool_ready}
use neo_cloud_control_plane.Nico.Address.{last_number}
use neo_cloud_control_plane.Nico.Settled.{IsSettled}
use neo_cloud_control_plane.Nico.Effect.{Effect-IsSettled, Gate, Moved, IsBound}
use neo_cloud_control_plane.Nico.Run.{Call, sanitized, step, run, step-Effect}
use neo_cloud_control_plane.Nico.Safety.{run-IsBound}
use neo_cloud_control_plane.Nico.Seeding.{
  su_sites, tray_host, cpu_host, emptied, file_host, seed_cpu, seed_from_store,
}

-- in the pool, under its id, without instance and tenant
pub record IsPooled (k : String) (h : Host) : Type 0 where
  pub keyed : h.host_id ≡ k
  pub pooled : h.state ≡ pool_ready
  pub unused : h.instance_id ≡ none
  pub free : h.tenant_ref ≡ none

pub record IsSeeded (n : Nico) : Type 0 where
  pub latency : n.job_latency ≡ 0
  pub idle : n.jobs ≡ []
  pub hosts : Entries IsPooled n.hosts
  pub dict : IsDict n.hosts

IsPooled-IsBound : (k : String) (h : Host) → IsPooled k h → IsBound h
IsPooled-IsBound k h p = record {
  instance_bound = rw (p.unused, p.pooled) refl;
  tenant_bound = rw (p.free, p.pooled) refl;
}

IsSeeded-IsSettled : (n : Nico) → IsSeeded n → IsSettled n
unfolding get
IsSeeded-IsSettled n s = record {
  latency = s.latency;
  over = λ k j e. absurd (nowhere j (rw s.idle at e));
  keyed = λ k h e. (Entries-get IsPooled k h n.hosts s.hosts e).keyed;
  dict = s.dict;
}
  where
    nowhere : (j : Job) → none ≡ some j → ⊥
    nowhere j q = cc

file_host-IsSeeded : (h : Host) → IsPooled h.host_id h → Holds IsSeeded (modify (file_host h))
file_host-IsSeeded h p = record {
  at = λ n s. record {
    latency = s.latency;
    idle = s.idle;
    hosts = Entries-put IsPooled h.host_id h n.hosts s.hosts p;
    dict = put-IsDict h.host_id h n.hosts s.dict;
  };
}

seed_cpu-IsSeeded : (cn : CpuNode) → Holds IsSeeded (seed_cpu cn)
seed_cpu-IsSeeded cn =
    Holds-bind (or_raise (last_number none cn.id) 500) _
      (Holds-or_raise (last_number none cn.id) 500)
      (λ idx.
        file_host-IsSeeded (cpu_host cn idx)
          (record { keyed = refl; pooled = refl; unused = refl; free = refl }))

seed-IsSeeded :
    (st : Store) (cpu_nodes : Dict CpuNode) (n : Nico)
    → n.job_latency ≡ 0
    → IsSeeded (seed_from_store st cpu_nodes n).1
unfolding seed_from_store tray_host
seed-IsSeeded st cpu_nodes n e =
    (Holds-bind (or_raise (su_sites st (values st.factories) []) 500) _
        (Holds-or_raise (su_sites st (values st.factories) []) 500)
        (λ sites.
          Holds-bind (for_each (λ t. modify (file_host (tray_host st sites t))) (values st.trays)) _
            (Holds-for_each (λ t. modify (file_host (tray_host st sites t))) (values st.trays)
              (tray sites))
            (λ u. Holds-for_each seed_cpu (values cpu_nodes) seed_cpu-IsSeeded))).at
      (emptied n) (record { latency = e; idle = refl; hosts = tt; dict = tt })
  where
    tray :
        (sites : Dict String) (t : Tray)
        → Holds IsSeeded (modify (file_host (tray_host st sites t)))
    tray sites t =
        file_host-IsSeeded (tray_host st sites t)
          (record { keyed = refl; pooled = refl; unused = refl; free = refl })

-- a call makes no host
run-none :
    (cs : List Call) (n : Nico) (k : String)
    → IsSettled n
    → get k n.hosts ≡ none
    → get k (run cs n).hosts ≡ none
unfolding run
run-none [] n k v e = e
run-none (c ∷ cs) n k v e =
    run-none cs (step c n) k (Effect-IsSettled n (step c n) v (step-Effect c n v)) (
      nothing (get k (step c n).hosts) (
        subst (λ o. Moved (Gate (sanitized c) (step c n) k) o (get k (step c n).hosts)) e
          ((step-Effect c n v).moved k)))
  where
    nothing : (o : Option Host) → Moved (Gate (sanitized c) (step c n) k) none o → o ≡ none
    nothing none m = refl
    nothing (some h) m = absurd m

-- With job_latency 0, after the seeding, also where it raises, and any calls, each host has an instance
-- and a tenant exactly while it is allocated.
pub seeded-IsBound :
    (st : Store) (cpu_nodes : Dict CpuNode) (n : Nico) (cs : List Call) (k : String) (h : Host)
    → n.job_latency ≡ 0
    → get k (run cs (seed_from_store st cpu_nodes n).1).hosts ≡ some h
    → IsBound h
seeded-IsBound st cpu_nodes n cs k h l e = elim (Option-cases (get k m.hosts)) [
  | inl o ↦ absurd (clash h (sym (run-none cs m k settled o) ∙ e))
  | inr (g, o) ↦
      let (h', at, b) =
        run-IsBound cs m k g settled o
          (IsPooled-IsBound k g (Entries-get IsPooled k g m.hosts seeded.hosts o)) in
      subst IsBound (unsome h' h (sym at ∙ e)) b
]
  where
    m : Nico
    m = (seed_from_store st cpu_nodes n).1

    seeded : IsSeeded m
    seeded = seed-IsSeeded st cpu_nodes n l

    settled : IsSettled m
    settled = IsSeeded-IsSettled m seeded

    clash : (h : Host) → none ≡ some h → ⊥
    clash h q = cc

    unsome : (a b : Host) → some a ≡ some b → a ≡ b
    unsome a b q = cc
