-- ===== src/Tests/Incidents.antt =====
-- Runs of the status page and of the SLA report of app/scenario_api.py: a fault that recovers, one that
-- goes on, a small one, and a month below the target.
use neo_cloud_control_plane.Prelude.{
  ℕ, ◌+◌, ◌-◌, ◌/◌, ◌≡◌, refl, arith, true, false, none, some, [], ◌∷◌, List, map, ltb, ◌==◌, ◌+++◌,
  if◌then◌else◌, String,
}
use neo_cloud_control_plane.Dict.{get, values}
use neo_cloud_control_plane.Tenancy
use neo_cloud_control_plane.Tenancy.{Tenant, IsolationTier}
use neo_cloud_control_plane.Lifecycle.{ServiceOrder, OrderState}
use neo_cloud_control_plane.Scenario.Incidents.{Fault, Desk, Times, Credit, Inquiry}
use neo_cloud_control_plane.Scenario.Incidents.Owed.{IsSortedOut, count_rcas}
use neo_cloud_control_plane.Scenario.Downtime.{Reckoning}
use neo_cloud_control_plane.Scenario.Inquiries.{InquiryBody}
use neo_cloud_control_plane.Scenario.Sla.Calls.{DeskCall, status, reports, sla, inquire, run_desk}
use neo_cloud_control_plane.Scenario.Sla.Ledger.{IsLedger}
use neo_cloud_control_plane.Scenario.Sla.Kept.{run_desk-IsKept}
use neo_cloud_control_plane.Tests.Pipeline.{numbers, waiting}

abbrev times : Times ℕ
times = record { stamp_at = λ n. "now"; in_minutes = λ s. s / 60; zero = 0; minutes = λ s t. none }

-- in whole numbers: a month of 50 minutes
abbrev reckoning : Reckoning ℕ
reckoning = record {
  floats = numbers;
  add = λ m n. m + n;
  sub = λ m n. m - n;
  below = ltb;
  target_pct = 99;
  synthetic_minutes = 52;
  round2 = λ n. n;
  round3 = λ n. n;
  round4 = λ n. n;
  window = λ m. if m == "2026-10" then some 50 else none;
  middle = λ m. m +++ "-15";
  later_on = λ at. at +++ "+";
  month_of = λ at. "2026-10";
  minutes_since = λ at n. some n;
}

abbrev acme : Tenant
acme = record {
  id = "tnt-acme";
  name = "Acme";
  isolation_tier = IsolationTier.bare_metal_dedicated;
  sla_tier = "gold";
  notes = none;
}

abbrev delivered : ServiceOrder ℕ
delivered = record waiting { state = OrderState.delivered }

abbrev no_desk : Desk ℕ
no_desk = record {
  store = record Tenancy.empty { tenants = ("tnt-acme", acme) ∷ [] };
  incidents = [];
  rcas = [];
  sla_credits = [];
  inquiries = [];
  orders = ("ord-1", delivered) ∷ [];
  readings = 0;
}

abbrev fallen : Fault ℕ
fallen = record {
  severity = some "critical";
  xid = some 79;
  kind = some "gpu";
  tray_id = "t1";
  gpu = "3";
  started_at = some "10:00";
  at = none;
  tenant_id = some "tnt-acme";
  resolved = false;
  resolved_at = none;
  ttr_s = none;
}

abbrev recovered : Fault ℕ
recovered = record fallen { resolved = true; resolved_at = some "10:20"; ttr_s = some 1200 }

abbrev small : Fault ℕ
small = record recovered { severity = none; xid = none; gpu = "4" }

abbrev going_on : Fault ℕ
going_on = record fallen { gpu = "5"; severity = some "major" }

no_desk-IsSortedOut : IsSortedOut no_desk
unfolding get
no_desk-IsSortedOut = record {
  named = tt;
  new_incidents = λ m l. refl;
  new_rcas = λ m l. refl;
  published = λ iid. refl;
}

abbrev asked : InquiryBody
asked = record {
  company = "Acme";
  name = "Ann";
  email = "ann@acme.test";
  gpu_scale = "64";
  message = "";
}

abbrev desk_calls : List (DeskCall ℕ)
desk_calls =
    status (fallen ∷ going_on ∷ [])
    ∷ status (recovered ∷ small ∷ going_on ∷ recovered ∷ [])
    ∷ sla "tnt-acme" none true (recovered ∷ [])
    ∷ reports "tnt-acme" (recovered ∷ [])
    ∷ sla "tnt-acme" (some "2026-10") true []
    ∷ sla "tnt-acme" (some "October") false []
    ∷ inquire asked
    ∷ inquire (record asked { company = "  " })
    ∷ inquire (record asked { email = "ann" })
    ∷ inquire asked
    ∷ []

-- one report, on the first incident
published_run :
    (count_rcas "inc-1" (values (run_desk reckoning times desk_calls no_desk).rcas) ≡ 1)
    × (count_rcas "inc-2" (values (run_desk reckoning times desk_calls no_desk).rcas) ≡ 0)
    × (count_rcas "inc-3" (values (run_desk reckoning times desk_calls no_desk).rcas) ≡ 0)
unfolding run_desk
published_run = (refl, refl, refl)

no_desk-IsLedger : IsLedger no_desk no_desk
unfolding get
no_desk-IsLedger = record {
  new_credits = λ m l. refl;
  new_inquiries = λ m l. refl;
  single = λ key. omega arith;
  kept_credits = λ cid c e. e;
  kept_inquiries = λ iid i e. e;
}

run_desk-IsKept_example :
    IsSortedOut (run_desk reckoning times desk_calls no_desk)
    × IsLedger no_desk (run_desk reckoning times desk_calls no_desk)
run_desk-IsKept_example =
    run_desk-IsKept reckoning times no_desk desk_calls no_desk no_desk-IsSortedOut no_desk-IsLedger

-- one credit of half the month's charge
credit_run :
    map {B = String × ℕ}
      (λ (c : Credit ℕ). (c.credit_id, c.amount_usd))
      (values (run_desk reckoning times desk_calls no_desk).sla_credits)
    ≡ ("crd-1", 259200) ∷ []
unfolding run_desk
credit_run = refl

-- the two inquiries that are complete
inquiry_run :
    map
      (λ (i : Inquiry). i.inquiry_id)
      (values (run_desk reckoning times desk_calls no_desk).inquiries)
    ≡ "inq-1" ∷ "inq-2" ∷ []
unfolding run_desk
inquiry_run = refl
