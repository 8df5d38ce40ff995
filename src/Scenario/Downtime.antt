-- ===== src/Scenario/Downtime.antt =====
-- app/scenario_api.py: the minutes that services were down.
use neo_cloud_control_plane.Prelude.{
  ℕ, suc, String, Bool, Option, List, [], ◌∷◌, if◌then◌else◌, or_else,
}
use neo_cloud_control_plane.Prelude.Exec.{Exec, pure, or_raise, gets, modify, ◌>>=◌, ◌>>◌}
use neo_cloud_control_plane.Orders.{Floats}
use neo_cloud_control_plane.Scenario.Incidents.{IncidentSeverity, Incident, Desk}

-- What stands outside the program: sums, differences and the order of floating-point numbers with the
-- constants 99.9 and 52.6, roundings to two, three and four places, the minutes of a month (none: ValueError),
-- its middle, a time 52.6 minutes on, the month of a time, and the minutes since a time at a reading of
-- the clock, not below 0 (none: ValueError).
pub record Reckoning (N : Type 0) : Type 0 where
  pub floats : Floats N
  pub add : N → N → N
  pub sub : N → N → N
  pub below : N → N → Bool
  pub target_pct : N
  pub synthetic_minutes : N
  pub round2 : N → N
  pub round3 : N → N
  pub round4 : N → N
  pub window : String → Option N
  pub middle : String → String
  pub later_on : String → String
  pub month_of : String → String
  pub minutes_since : String → ℕ → Option N

-- one line of the report
pub record SlaLine (N : Type 0) : Type 0 where
  pub id : String
  pub severity : IncidentSeverity
  pub downtime_min : N
  pub mttr_min : Option N

module _ {N : Type 0} (s : Reckoning N) where
  -- the minutes that a service was down; the clock is read for an incident that goes on
  abbrev pub minutes_down : Incident N → Exec (Desk N) N
  minutes_down i = if i.is_resolved then pure (or_else i.mttr_min (s.floats.of_nat 0)) else (do
    at ← gets (λ d. d.readings)
    modify (λ d. record d { readings = suc d.readings })
    or_raise (s.minutes_since i.started_at at) 500)

  abbrev pub sla_line : Incident N → N → SlaLine N
  sla_line i m = record {
    id = i.id;
    severity = i.severity;
    downtime_min = s.round2 m;
    mttr_min = i.mttr_min;
  }

  -- the lines of the report, and the minutes of all of them
  unfoldable pub downtime : List (Incident N) → N → Exec (Desk N) (List (SlaLine N) × N)
  downtime [] total = pure ([], total)
  downtime (i ∷ is) total = do
    m ← minutes_down i
    rest ← downtime is (s.add total m)
    pure (sla_line i m ∷ rest.0, rest.1)

  abbrev pub not_negative : N → N
  not_negative x = if s.below x (s.floats.of_nat 0) then s.floats.of_nat 0 else x

  -- `max(0.0, 100 - total / window * 100)`
  abbrev pub percentage : N → N → N
  percentage total window =
      not_negative (
        s.sub (s.floats.of_nat 100)
          (s.floats.mul (s.floats.div total window) (s.floats.of_nat 100)))
