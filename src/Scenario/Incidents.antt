-- ===== src/Scenario/Incidents.antt =====
-- app/scenario_api.py: the incidents of the status page and the reports on their causes. The feed of
-- faults comes from the emulators; the texts for people are not kept.
pub mod Owed
pub mod Published
use Prim.Native.String.{compare}
use text.Mathlib.Text.{is_le}
use neo_cloud_control_plane.Prelude.{
  ℕ, suc, ◌+◌, String, ◌+++◌, Bool, true, false, not, ◌&&◌, ◌||◌, Option, none, some, List, [], ◌∷◌,
  ◌++◌, map, ◌==◌, eqb, if◌then◌else◌, or_else, is_some, is_text, any, select,
}
use neo_cloud_control_plane.Prelude.Decimal.{decimal}
use neo_cloud_control_plane.Prelude.Exec.{
  Exec, ok, pure, require, or_raise, gets, modify, ◌>>=◌, ◌>>◌,
}
use neo_cloud_control_plane.Prelude.Sorting.{sort_by}
use neo_cloud_control_plane.Dict.{Dict, get, put, values, has}
use neo_cloud_control_plane.Tenancy.{Store, next_seq}
use neo_cloud_control_plane.Lifecycle.{ServiceOrder}

pub data IncidentSeverity : Type 0 where
  p0 p1 p2 : IncidentSeverity

-- A fault of the feed; `none` is a missing entry, and `tray_id` and `gpu` are as they are printed.
pub record Fault (N : Type 0) : Type 0 where
  pub severity : Option String
  pub xid : Option ℕ
  pub kind : Option String
  pub tray_id : String
  pub gpu : String
  pub started_at : Option String
  pub at : Option String
  pub tenant_id : Option String
  pub resolved : Bool
  pub resolved_at : Option String
  pub ttr_s : Option N

pub record Incident (N : Type 0) : Type 0 where
  pub id : String
  pub key : String
  pub severity : IncidentSeverity
  pub component : String
  -- `state == "resolved"`; the other state is "investigating"
  pub is_resolved : Bool
  pub started_at : String
  pub resolved_at : Option String
  pub tenant_id : Option String
  pub mttr_min : Option N
  pub updates : List String

pub record Rca (N : Type 0) : Type 0 where
  pub rca_id : String
  pub incident_id : String
  pub tenant_id : Option String
  pub severity : IncidentSeverity
  pub published_at : String
  pub mttr_min : Option N

-- A service credit; its status is "calculated".
pub record Credit (N : Type 0) : Type 0 where
  pub credit_id : String
  pub key : String
  pub tenant_id : String
  pub month : String
  pub incident_id : Option String
  pub amount_usd : N
  pub pct_of_monthly : ℕ

-- An inquiry of the public pages, as it is received.
pub record Inquiry : Type 0 where
  pub inquiry_id : String
  pub company : String
  pub name : String
  pub email : String
  pub gpu_scale : String
  pub message : String
  pub received_at : String

-- The tables of this part of the store; `readings` counts the readings of the clock.
pub record Desk (N : Type 0) : Type 0 where
  pub store : Store
  pub incidents : Dict (Incident N)
  pub rcas : Dict (Rca N)
  pub sla_credits : Dict (Credit N)
  pub inquiries : Dict Inquiry
  pub orders : Dict (ServiceOrder N)
  pub readings : ℕ

-- What stands outside the program: `_now()` at each reading, `round(s / 60, 2)`, 0.0, and the minutes
-- between two times, rounded so (none: ValueError).
pub record Times (N : Type 0) : Type 0 where
  pub stamp_at : ℕ → String
  pub in_minutes : N → N
  pub zero : N
  pub minutes : String → String → Option N

-- _KIND_COMPONENT
abbrev pub kind_component : Dict String
kind_component =
    ("gpu", "Compute")
    ∷ ("reprovision", "Compute")
    ∷ ("cooling", "Compute")
    ∷ ("fabric", "GPU Fabric")
    ∷ ("storage", "Storage")
    ∷ ("network", "Network")
    ∷ []

-- `x or …`: a text that is there and not empty
abbrev pub filled : Option String → Option String
filled none = none
filled (some s) = if s == "" then none else some s

abbrev pub either : Option String → Option String → Option String
either none b = b
either (some a) b = some a

abbrev pub is_major : IncidentSeverity → Bool
is_major p0 = true
is_major p1 = true
is_major p2 = false

abbrev pub is_one_of : Option String → String → String → Bool
is_one_of s a b = is_text s a || is_text s b

abbrev pub is_fatal_xid : Option ℕ → Bool
is_fatal_xid none = false
is_fatal_xid (some x) = eqb x 79 || eqb x 48

module _ {N : Type 0} where
  -- _fault_severity
  abbrev pub fault_severity : Fault N → IncidentSeverity
  fault_severity f =
      if is_one_of f.severity "critical" "P0"
      then p0
      else if is_fatal_xid f.xid || is_one_of f.severity "major" "P1"
      then p1
      else p2

  -- _fault_component
  unfoldable pub fault_component : Fault N → String
  unfolding get
  fault_component f = or_else (get (or_else (filled f.kind) "gpu") kind_component) "Compute"

  abbrev pub fault_key : Fault N → String → String
  fault_key f started = f.tray_id +++ "|" +++ f.gpu +++ "|" +++ started

  abbrev pub has_recovered : Fault N → Bool
  has_recovered f = f.resolved || is_some (filled f.resolved_at)

  abbrev pub new_incident : String → String → String → Fault N → Incident N
  new_incident iid key started f = record {
    id = iid;
    key = key;
    severity = fault_severity f;
    component = fault_component f;
    is_resolved = false;
    started_at = started;
    resolved_at = none;
    tenant_id = f.tenant_id;
    mttr_min = none;
    updates = started ∷ [];
  }

  abbrev pub resolve_at : String → N → Incident N → Incident N
  resolve_at at mttr inc = record inc {
    is_resolved = true;
    resolved_at = some at;
    mttr_min = some mttr;
    updates = inc.updates ++ at ∷ [];
  }

  abbrev pub is_rca_of : String → Rca N → Bool
  is_rca_of iid r = r.incident_id == iid

  abbrev pub new_rca : String → String → Incident N → Rca N
  new_rca rid at inc = record {
    rca_id = rid;
    incident_id = inc.id;
    tenant_id = inc.tenant_id;
    severity = inc.severity;
    published_at = at;
    mttr_min = inc.mttr_min;
  }

  -- `{i["key"]: i for i in …}`, with ids for the incidents
  abbrev pub index_of : List (Incident N) → Dict String → Dict String
  index_of [] known = known
  index_of (i ∷ is) known = index_of is (put i.key i.id known)

  abbrev pub next_number : String → Exec (Desk N) ℕ
  next_number name d = let (n, s) = next_seq name d.store in (ok n, record d { store = s })

  abbrev pub file_incident : Incident N → Desk N → Desk N
  file_incident inc d = record d { incidents = put inc.id inc d.incidents }

  abbrev pub file_rca : Rca N → Desk N → Desk N
  file_rca r d = record d { rcas = put r.rca_id r d.rcas }

  abbrev pub is_for : String → Rca N → Bool
  is_for tenant_id r = elim r.tenant_id [ none ↦ true | some t ↦ t == tenant_id ]

  abbrev pub later_rca : Rca N → Rca N → Bool
  later_rca a b = is_le (compare b.published_at a.published_at)

  -- the incident of a key
  abbrev pub open_incident : Fault N → String → String → Option String → Exec (Desk N) String
  open_incident f key started (some iid) = pure iid
  open_incident f key started none = do
    n ← next_number "incident"
    modify (file_incident (new_incident ("inc-" +++ decimal n) key started f))
    pure ("inc-" +++ decimal n)

  module _ (c : Times N) where
    abbrev pub stamp : Exec (Desk N) String
    stamp d = (ok (c.stamp_at d.readings), record d { readings = suc d.readings })

    abbrev pub or_stamp : Option String → Exec (Desk N) String
    or_stamp none = stamp
    or_stamp (some at) = pure at

    abbrev pub publish : Incident N → Bool → Exec (Desk N) (Unit {0})
    publish inc true = pure tt
    publish inc false = do
      n ← next_number "rca"
      at ← stamp
      modify (file_rca (new_rca ("rca-" +++ decimal n) at inc))

    -- _publish_rca_locked
    unfoldable pub publish_rca : Incident N → Exec (Desk N) (Unit {0})
    unfolding next_seq put decimal
    publish_rca inc = do
      published ← gets (λ d. any (is_rca_of inc.id) (values d.rcas))
      publish inc published

    abbrev pub recovery_minutes : Fault N → String → String → N
    recovery_minutes f started at = elim f.ttr_s [
      | some s ↦ c.in_minutes s
      | none ↦ or_else (c.minutes started at) c.zero
    ]

    abbrev pub close_incident : Fault N → String → Incident N → Exec (Desk N) (Unit {0})
    close_incident f started inc = do
      at ← or_stamp (filled f.resolved_at)
      let inc' = resolve_at at (recovery_minutes f started at) inc
      modify (file_incident inc')
      if is_major inc.severity then publish_rca inc' else pure tt

    -- one round of _sync_incidents_locked; the index comes back
    unfoldable pub sync_fault : Fault N → Dict String → Exec (Desk N) (Dict String)
    unfolding publish_rca next_seq get put decimal fault_component
    sync_fault f index = do
      started ← or_stamp (either (filled f.started_at) (filled f.at))
      let key = fault_key f started
      iid ← open_incident f key started (get key index)
      found ← gets (λ d. get iid d.incidents)
      inc ← or_raise found 500
      if has_recovered f && not inc.is_resolved then close_incident f started inc else pure tt
      pure (put key iid index)

    unfoldable pub sync_faults : List (Fault N) → Dict String → Exec (Desk N) (Unit {0})
    unfolding sync_fault
    sync_faults [] index = pure tt
    sync_faults (f ∷ fs) index = sync_fault f index >>= sync_faults fs

    -- _sync_incidents_locked
    unfoldable pub sync_incidents : List (Fault N) → Exec (Desk N) (Unit {0})
    unfolding sync_faults put
    sync_incidents feed = do
      index ← gets (λ d. index_of (values d.incidents) [])
      sync_faults feed index

    -- GET /tenants/{tenant_id}/rca-reports
    unfoldable pub rca_reports : List (Fault N) → String → Exec (Desk N) (List (Rca N))
    unfolding sync_incidents
    rca_reports feed tenant_id = do
      known ← gets (λ d. has tenant_id d.store.tenants)
      require known 404
      sync_incidents feed
      gets (λ d. sort_by later_rca (select (is_for tenant_id) (values d.rcas)))
