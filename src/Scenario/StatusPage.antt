-- ===== src/Scenario/StatusPage.antt =====
-- app/scenario_api.py: the public status page.
use Prim.Native.String.{compare}
use text.Mathlib.Text.{is_le}
use neo_cloud_control_plane.Prelude.{
  ℕ, String, Bool, true, false, not, ◌&&◌, List, [], ◌∷◌, map, ◌==◌, if◌then◌else◌, any, select,
}
use neo_cloud_control_plane.Prelude.Exec.{Exec, pure, gets, ◌>>=◌, ◌>>◌}
use neo_cloud_control_plane.Prelude.Sorting.{sort_by}
use neo_cloud_control_plane.Dict.{values}
use neo_cloud_control_plane.Lifecycle.Placement.{take}
use neo_cloud_control_plane.Scenario.Incidents.{
  IncidentSeverity, p0, Fault, Incident, Desk, Times, stamp, sync_incidents,
}
use neo_cloud_control_plane.Scenario.Downtime.{Reckoning, downtime, percentage}

-- STATUS_COMPONENTS
abbrev pub status_components : List String
status_components = "Compute" ∷ "GPU Fabric" ∷ "Storage" ∷ "Network" ∷ "Portal" ∷ []

abbrev pub is_p0 : IncidentSeverity → Bool
is_p0 p0 = true
is_p0 _ = false

abbrev pub component_state : List IncidentSeverity → String
component_state [] = "operational"
component_state (s ∷ ss) = if any is_p0 (s ∷ ss) then "outage" else "degraded"

-- `90 * 24 * 60`
abbrev pub window_min : ℕ
window_min = 129600

pub record StatusPage (N : Type 0) : Type 0 where
  pub generated_at : String
  pub components : List (String × String)
  pub incidents : List (Incident N)
  pub uptime_pct : N

module _ {N : Type 0} where
  -- the severities of the incidents of a component that are not resolved
  abbrev pub open_severities : String → List (Incident N) → List IncidentSeverity
  open_severities name is =
      map (λ (i : Incident N). i.severity)
        (select (λ (i : Incident N). not i.is_resolved && i.component == name) is)

  abbrev pub later_incident : Incident N → Incident N → Bool
  later_incident a b = is_le (compare b.started_at a.started_at)

  -- the incidents of the page: the last twenty
  abbrev pub recent : List (Incident N) → List (Incident N)
  recent is = take 20 (sort_by later_incident is)

  abbrev pub component_states : List (Incident N) → List (String × String)
  component_states is =
      map (λ name. (name, component_state (open_severities name is))) status_components

  module _ (s : Reckoning N) (c : Times N) where
    abbrev pub page : String → List (Incident N) → N → StatusPage N
    page at is minutes = record {
      generated_at = at;
      components = component_states is;
      incidents = recent is;
      uptime_pct = s.round3 (percentage s minutes (s.floats.of_nat window_min));
    }

    -- GET /status
    unfoldable pub status_page : List (Fault N) → Exec (Desk N) (StatusPage N)
    unfolding sync_incidents downtime
    status_page feed = do
      sync_incidents c feed
      is ← gets (λ d. values d.incidents)
      down ← downtime s is (s.floats.of_nat 0)
      at ← stamp c
      pure (page at is down.1)
