-- ===== src/Scenario.antt =====
-- app/scenario_api.py: the life of a contract, over the orders of app/lifecycle.py. The texts shown to
-- people and the traces are not kept, but for the words that other code reads.
pub mod Accepting
pub mod Contract
pub mod Billing
pub mod Silence
pub mod Finalize
pub mod Terminating
pub mod Erasing
pub mod Guarded
pub mod Ending
pub mod Backup
pub mod Incidents
pub mod Downtime
pub mod StatusPage
pub mod Inquiries
pub mod Sla
use neo_cloud_control_plane.Prelude.{
  ℕ, suc, String, Bool, true, false, Option, none, some, List, [], ◌∷◌, if◌then◌else◌,
}
use neo_cloud_control_plane.Prelude.Exec.{Exec, Result, ok}
use neo_cloud_control_plane.Dict.{Dict}
use neo_cloud_control_plane.Lifecycle.{OrderState, World}

pub data Verdict : Type 0 where
  pending approved rejected deemed : Verdict

pub record Check : Type 0 where
  pub name : String
  pub status : String
  pub value : String

pub record AcceptanceReport : Type 0 where
  pub checks : List Check
  pub nodes_tested : ℕ
  pub report_ts : ℕ

-- An acceptance; times are microseconds since the epoch.
pub record Acceptance : Type 0 where
  pub order_id : String
  pub tenant_id : String
  pub status : Verdict
  pub report : AcceptanceReport
  pub deemed_deadline : ℕ
  pub billing_start_date : Option ℕ
  pub reject_reason : Option String
  pub decided_at : Option ℕ
  pub decided_by : Option String

pub data TerminationState : Type 0 where
  awaiting_backup erasing wiped closed : TerminationState

pub record ChecklistItem : Type 0 where
  pub item : String
  pub confirmed : Bool

pub record Progress : Type 0 where
  pub stage : String
  pub pct : ℕ

-- What the certificate says of one allocation.
pub record WipedAllocation : Type 0 where
  pub allocation_id : String
  pub racks : List String
  pub nodes : ℕ
  pub terminate_order_id : String
  pub reclaim_state : OrderState
  pub erase_steps : List (String × Bool)

-- What the digest of the certificate is taken of.
pub record CertBody : Type 0 where
  pub tenant_id : String
  pub termination_id : String
  pub erase_method : String
  pub erase_steps : List String
  pub allocations : List WipedAllocation
  pub issued_at : ℕ

pub record WipeCertificate : Type 0 where
  pub cert_id : String
  pub sha256 : String
  pub body : CertBody

pub record Termination : Type 0 where
  pub termination_id : String
  pub tenant_id : String
  pub state : TerminationState
  pub requested_at : ℕ
  pub checklist : List ChecklistItem
  pub backup_confirmed_at : Option ℕ
  pub progress : Progress
  pub allocations : List String
  pub orders : List String
  pub wipe_certificate : Option WipeCertificate
  pub closed_at : Option ℕ

-- The world with the two tables of this part of the store; `readings` counts the readings of the clock.
pub record Portal (N : Type 0) : Type 0 where
  pub world : World N
  pub acceptances : Dict Acceptance
  pub terminations : Dict Termination
  pub readings : ℕ

-- What stands outside the program: the clock at each reading, the environment variables, `float(s)`,
-- `timedelta(days=x)` in microseconds (none: OverflowError), `f"{x}"`, the sum and the digest of the
-- JSON text, `not s.strip()`, `round(a / b * 100)`; and the time of the first event of an order that reached the acceptance, which the history
-- of an order does not hold here.
pub record Outside (N : Type 0) : Type 0 where
  pub clock : ℕ → ℕ
  pub environ : String → Option String
  pub float_of : String → Option N
  pub micros : N → Option ℕ
  pub show : N → String
  pub add : N → N → N
  pub sha256 : CertBody → String
  pub blank : String → Bool
  pub percent : ℕ → ℕ → ℕ
  pub reached : String → ℕ

-- `_now()`
abbrev pub now : {N : Type 0} → Outside N → Exec (Portal N) ℕ
now e p = (ok (e.clock p.readings), record p { readings = suc p.readings })

abbrev pub on_world : {N A : Type 0} → Exec (World N) A → Exec (Portal N) A
on_world m p = let (r, w) = m p.world in (r, record p { world = w })
