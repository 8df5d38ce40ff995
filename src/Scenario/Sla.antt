-- ===== src/Scenario/Sla.antt =====
-- app/scenario_api.py: the report on a month's availability, and the service credit.
pub mod Ledger
pub mod Calls
pub mod Kept
use neo_cloud_control_plane.Prelude.{
  ℕ, suc, ◌+◌, String, ◌+++◌, Bool, true, false, not, ◌&&◌, Option, none, some, List, [], ◌∷◌, ◌==◌,
  if◌then◌else◌, or_else, is_text, any, select, map,
}
use neo_cloud_control_plane.Prelude.Decimal.{decimal}
use neo_cloud_control_plane.Prelude.Exec.{Exec, pure, require, or_raise, gets, modify, ◌>>=◌, ◌>>◌}
use neo_cloud_control_plane.Dict.{Dict, get, put, values, has}
use neo_cloud_control_plane.Tenancy.{next_seq}
use neo_cloud_control_plane.Lifecycle.{OrderKind, OrderState, ServiceOrder, is_order}
use neo_cloud_control_plane.Orders.{Floats}
use neo_cloud_control_plane.Scenario.Downtime.{Reckoning, SlaLine, downtime, percentage}
use neo_cloud_control_plane.Scenario.Incidents.{
  IncidentSeverity, p1, Fault, Incident, Credit, Desk, Times, filled, next_number, file_incident,
  stamp, publish_rca, sync_incidents,
}

-- RACK_HOUR_RATE_USD and HOURS_PER_MONTH of app/business.py, whole numbers all
abbrev pub rack_hour_rate_usd : Dict ℕ
rack_hour_rate_usd = ("vr-nvl72", 980) ∷ ("gb300-nvl72", 720) ∷ ("gb200-nvl72", 560) ∷ []

abbrev pub hours_per_month : ℕ
hours_per_month = 720

pub record SlaReport (N : Type 0) : Type 0 where
  pub tenant_id : String
  pub month : String
  pub availability_pct : N
  pub violated : Bool
  pub incidents : List (SlaLine N)
  pub credits : List (Credit N)
  pub monthly_amount_usd : N

module _ {N : Type 0} where
  abbrev pub has_key : String → Incident N → Bool
  has_key key i = i.key == key

  abbrev pub is_credit_for : String → Credit N → Bool
  is_credit_for key c = c.key == key

  abbrev pub file_credit : Credit N → Desk N → Desk N
  file_credit c d = record d { sla_credits = put c.credit_id c d.sla_credits }

  -- `next((c for c in … if c["key"] == ckey), None)`
  abbrev pub find_credit : String → List (Credit N) → Option (Credit N)
  find_credit key [] = none
  find_credit key (c ∷ cs) = if is_credit_for key c then some c else find_credit key cs

  module _ (s : Reckoning N) where
    -- SLA_CREDIT_TABLE
    abbrev pub sla_credit_table : List (N × ℕ)
    sla_credit_table = (s.floats.of_nat 95, 50) ∷ (s.floats.of_nat 99, 25) ∷ (s.target_pct, 10) ∷ []

    abbrev pub first_below : N → List (N × ℕ) → ℕ
    first_below avail [] = 0
    first_below avail ((limit, pct) ∷ rows) =
        if s.below avail limit then pct else first_below avail rows

    -- _credit_pct_for
    abbrev pub credit_pct_for : N → ℕ
    credit_pct_for avail = first_below avail sla_credit_table

    abbrev pub is_new_kind : OrderKind → Bool
    is_new_kind OrderKind.new = true
    is_new_kind _ = false

    abbrev pub is_charged : String → ServiceOrder N → Bool
    is_charged tenant_id o =
        o.tenant_id == tenant_id && is_new_kind o.kind && is_order o.state OrderState.delivered

    abbrev pub charge : ServiceOrder N → N
    charge o =
        let rate = or_else (get (or_else o.blueprint_key "") rack_hour_rate_usd) 600 in
        s.floats.mul (s.floats.mul (s.floats.of_nat o.racks) (s.floats.of_nat rate))
          (s.floats.of_nat hours_per_month)

    unfoldable pub sum_usd : String → List (ServiceOrder N) → N → N
    unfolding get
    sum_usd tenant_id [] total = total
    sum_usd tenant_id (o ∷ os) total =
        sum_usd tenant_id os (if is_charged tenant_id o then s.add total (charge o) else total)

    -- _tenant_monthly_usd_locked
    abbrev pub tenant_monthly_usd : String → List (ServiceOrder N) → N
    tenant_monthly_usd tenant_id os = s.round2 (sum_usd tenant_id os (s.floats.of_nat 0))

    abbrev pub in_month : String → String → Incident N → Bool
    in_month tenant_id month i = is_text i.tenant_id tenant_id && s.month_of i.started_at == month

    abbrev pub synthetic_incident : String → String → String → String → Incident N
    synthetic_incident iid key tenant_id month = record {
      id = iid;
      key = key;
      severity = p1;
      component = "Compute";
      is_resolved = true;
      started_at = s.middle month;
      resolved_at = some (s.later_on (s.middle month));
      tenant_id = some tenant_id;
      mttr_min = some s.synthetic_minutes;
      updates = s.middle month ∷ s.later_on (s.middle month) ∷ [];
    }

    -- `max(month_incs, key=…, default=None)`, the first of those
    abbrev pub mttr_of : Incident N → N
    mttr_of i = or_else i.mttr_min (s.floats.of_nat 0)

    abbrev pub worse : Incident N → List (Incident N) → Incident N
    worse best [] = best
    worse best (i ∷ is) = worse (if s.below (mttr_of best) (mttr_of i) then i else best) is

    abbrev pub worst_id : List (Incident N) → Option String
    worst_id [] = none
    worst_id (i ∷ is) = some (worse i is).id

    abbrev pub new_credit : String → String → String → String → Option String → N → N → Credit N
    new_credit cid key tenant_id month worst avail monthly = record {
      credit_id = cid;
      key = key;
      tenant_id = tenant_id;
      month = month;
      incident_id = worst;
      amount_usd = s.round2 (
          s.floats.div (s.floats.mul monthly (s.floats.of_nat (credit_pct_for avail)))
            (s.floats.of_nat 100));
      pct_of_monthly = credit_pct_for avail;
    }

    abbrev pub credit_key : String → String → String
    credit_key tenant_id month = tenant_id +++ "|" +++ month

    -- the credit that is there, or a new one
    abbrev pub credit_of :
        String → String → Option String → N → Option (Credit N) → Exec (Desk N) (Credit N)
    credit_of tenant_id month worst avail (some c) = pure c
    credit_of tenant_id month worst avail none = do
      monthly ← gets (λ d. tenant_monthly_usd tenant_id (values d.orders))
      n ← next_number "sla_credit"
      let credit =
          new_credit ("crd-" +++ decimal n) (credit_key tenant_id month) tenant_id month worst avail
            monthly
      modify (file_credit credit)
      pure credit

    abbrev pub credits_for :
        String → String → Option String → N → Bool → Exec (Desk N) (List (Credit N))
    credits_for tenant_id month worst avail false = pure []
    credits_for tenant_id month worst avail true = do
      found ← gets (λ d. find_credit (credit_key tenant_id month) (values d.sla_credits))
      credit ← credit_of tenant_id month worst avail found
      pure (credit ∷ [])

    abbrev pub sla_report_of :
        String → String → N → List (SlaLine N) → List (Credit N) → N → SlaReport N
    sla_report_of tenant_id month avail lines credits monthly = record {
      tenant_id = tenant_id;
      month = month;
      availability_pct = avail;
      violated = s.below avail s.target_pct;
      incidents = lines;
      credits = credits;
      monthly_amount_usd = monthly;
    }

    -- the report of a month that has `window` minutes
    abbrev pub report_on : String → String → N → Exec (Desk N) (SlaReport N)
    report_on tenant_id month window = do
      incs ← gets (λ d. select (in_month tenant_id month) (values d.incidents))
      down ← downtime s incs (s.floats.of_nat 0)
      let avail = s.round4 (percentage s down.1 window)
      let violated = s.below avail s.target_pct
      credits ← credits_for tenant_id month (worst_id incs) avail violated
      monthly ← gets (λ d. tenant_monthly_usd tenant_id (values d.orders))
      pure (sla_report_of tenant_id month avail down.0 credits monthly)

    module _ (c : Times N) where
      abbrev pub month_or_now : Option String → Exec (Desk N) String
      month_or_now (some month) = pure month
      month_or_now none = stamp c >>= λ at. pure (s.month_of at)

      abbrev pub file_synthetic : String → String → String → Exec (Desk N) (Unit {0})
      file_synthetic key tenant_id month = do
        n ← next_number "incident"
        let inc = synthetic_incident ("inc-" +++ decimal n) key tenant_id month
        modify (file_incident inc)
        publish_rca c inc

      abbrev pub synthesize : String → String → Bool → Exec (Desk N) (Unit {0})
      synthesize tenant_id month false = pure tt
      synthesize tenant_id month true = do
        let key = "synthetic|" +++ tenant_id +++ "|" +++ month
        known ← gets (λ d. any (has_key key) (values d.incidents))
        if known then pure tt else file_synthetic key tenant_id month

      -- GET /tenants/{tenant_id}/sla-report
      unfoldable pub sla_report :
          List (Fault N) → String → Option String → Bool → Exec (Desk N) (SlaReport N)
      unfolding sync_incidents publish_rca downtime sum_usd next_seq put decimal
      sla_report feed tenant_id wanted_month synthesize_violation = do
        known ← gets (λ d. has tenant_id d.store.tenants)
        require known 404
        month ← month_or_now (filled wanted_month)
        window ← or_raise (s.window month) 422
        sync_incidents c feed
        synthesize tenant_id month synthesize_violation
        report_on tenant_id month window
