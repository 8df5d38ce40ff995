-- ===== src/Nico/Effect.antt =====
-- What one operation of FakeNico may do to the hosts, while `job_latency` is 0.
use neo_cloud_control_plane.Prelude.{
  String, ◌≡◌, ◌≢◌, refl, Bool, true, ◌||◌, Option, none, some, map, arith, ◌==◌, eq_iff,
  if◌then◌else◌, is_some, Bool-cases, subst, inl, inr,
}
use neo_cloud_control_plane.Dict.{Dict, get}
use neo_cloud_control_plane.Dict.Laws.{IsDict}
use neo_cloud_control_plane.Nico.{
  Nico, Host, HostState, Job, running, discovered, quarantined, pool_ready, reserved, provisioning,
  provisioned, allocated, released, sanitizing, rma, is_state, sanitize_steps,
}
use neo_cloud_control_plane.Nico.Settled.{IsSettled}

-- The changes of state that an operation may make, the stay included.
abbrev pub may_move : HostState → HostState → Bool
may_move discovered t = is_state t discovered || is_state t pool_ready || is_state t quarantined
may_move quarantined t = is_state t pool_ready || is_state t quarantined
may_move pool_ready t = is_state t pool_ready || is_state t reserved
may_move reserved t =
    is_state t reserved
    || is_state t pool_ready
    || is_state t provisioning
    || is_state t provisioned
    || is_state t quarantined
may_move provisioning t = is_state t provisioning || is_state t released
may_move provisioned t = is_state t provisioned || is_state t allocated || is_state t released
may_move allocated t = is_state t allocated || is_state t released
may_move released t = is_state t released || is_state t pool_ready || is_state t rma
may_move sanitizing t = is_state t sanitizing
may_move rma t = is_state t rma

-- A host has an instance and a tenant exactly while it is allocated.
pub record IsBound (h : Host) : Type 0 where
  pub instance_bound : is_some h.instance_id ≡ is_state h.state allocated
  pub tenant_bound : is_some h.tenant_ref ≡ is_state h.state allocated

-- A passed report with all the steps is on file for the host.
abbrev pub Passed : Nico → String → Type 0
Passed n k =
    get k n.sanitize_reports
    ≡ some (record { host_id = k; passed = true; steps = map (λ s. (s, true)) sanitize_steps })

-- The call sanitizes this host, and the report is on file.
abbrev pub Gate : Option String → Nico → String → Type 0
Gate by n k = (by ≡ some k) × Passed n k

-- `P`: what a host needs to come back to the pool after it was released
pub record Move (P : Type 0) (h h' : Host) : Type 0 where
  pub same_id : h'.host_id ≡ h.host_id
  pub legal : may_move h.state h'.state ≡ true
  pub bound : IsBound h → IsBound h'
  pub gate : h.state ≡ released → h'.state ≡ pool_ready → P

abbrev pub Moved : Type 0 → Option Host → Option Host → Type 0
Moved P none none = Unit
Moved P (some h) (some h') = Move P h h'
Moved P _ _ = ⊥

-- `by`: the host that the operation is to sanitize
pub record Effect (by : Option String) (n n' : Nico) : Type 0 where
  pub latency : n'.job_latency ≡ 0
  pub over : (k : String) (j : Job) → get k n'.jobs ≡ some j → j.state ≢ running
  pub moved : (k : String) → Moved (Gate by n' k) (get k n.hosts) (get k n'.hosts)
  pub dict : IsDict n'.hosts

pub may_stay : (s : HostState) → may_move s s ≡ true
may_stay discovered = refl
may_stay _ = refl

pub Moved-refl : (P : Type 0) (o : Option Host) → Moved P o o
Moved-refl P none = tt
Moved-refl P (some h) = record {
  same_id = refl;
  legal = may_stay h.state;
  bound = λ b. b;
  gate = λ r p. absurd (ground arith);
}

-- a change of one host
pub if-Moved :
    (P : String → Type 0) (hid k : String) (d : Dict Host) (h h' : Host)
    → get hid d ≡ some h
    → Move (P hid) h h'
    → Moved (P k) (get k d) (if hid == k then some h' else get k d)
if-Moved P hid k d h h' e m = elim (Bool-cases (hid == k)) [
  | inl y ↦ rw y (subst (λ t. Moved (P t) (get t d) (some h')) ((eq_iff hid k).0 y) (rw e m))
  | inr n ↦ rw n (Moved-refl (P k) (get k d))
]

pub Effect-refl : {by : Option String} (n : Nico) → IsSettled n → Effect by n n
Effect-refl {by} n v = record {
  latency = v.latency;
  over = v.over;
  moved = λ k. Moved-refl (Gate by n k) (get k n.hosts);
  dict = v.dict;
}

-- An effect keeps the manager settled.
pub Effect-IsSettled :
    {by : Option String} (n n' : Nico) → IsSettled n → Effect by n n' → IsSettled n'
Effect-IsSettled {by} n n' v e = record {
  latency = e.latency;
  over = e.over;
  dict = e.dict;
  keyed =
      λ k h' at. keyed_moved (Gate by n' k) k (get k n.hosts) h' (v.keyed k) (rw at at (e.moved k));
}
  where
    keyed_moved :
        (P : Type 0) (k : String) (o : Option Host) (h' : Host)
        → ((h : Host) → o ≡ some h → h.host_id ≡ k)
        → Moved P o (some h')
        → h'.host_id ≡ k
    keyed_moved P k none h' v m = absurd m
    keyed_moved P k (some h) h' v m = ground (arith, v h refl, m.same_id)
