-- ===== src/Tests/Services.antt =====
-- Runs of app/vast_fake.py and app/trace.py.
use neo_cloud_control_plane.Prelude.{
  ℕ, ◌≤◌, String, ◌≡◌, refl, none, some, [], length, select, List, ◌++◌, ◌⊎◌,
}
use neo_cloud_control_plane.Dict.{get}
use neo_cloud_control_plane.Vast.{Vast, delete_view}
use neo_cloud_control_plane.Vast.Views.{delete_view-provisioned, provisioned, provisioned_view}
use neo_cloud_control_plane.Trace.{Tracer, new_tracer, emit, query, pos, TraceEvent}
use neo_cloud_control_plane.Trace.Log.{passes, query-passes}

abbrev no_views : Vast ℕ
no_views = record { views = []; seq = 0 }

delete_view-provisioned_example :
    (get "/tenants/zeta"
        (provisioned 0 50 40 100 "/tenants/zeta" "tnt-zeta" "10.0.1.0/24" none no_views).views
      ≡ some (provisioned_view 1 "/tenants/zeta" "tnt-zeta" "10.0.1.0/24" none 50 40 100))
    × ((q : String)
        → get q
            (delete_view "/tenants/zeta" (
              provisioned 0 50 40 100 "/tenants/zeta" "tnt-zeta" "10.0.1.0/24" none
                no_views)).1.views
          ≡ get q no_views.views)
unfolding get
delete_view-provisioned_example =
    delete_view-provisioned 0 50 40 100 "/tenants/zeta" "tnt-zeta" "10.0.1.0/24" none no_views refl

abbrev started : Tracer
started = (emit "NeoCloudOS.M1" "Vault" "REST" "PUT" "" none none (new_tracer 25000)).1

abbrev two_events : Tracer
two_events = (emit "NeoCloudOS.M1" "NICo" "REST" "GET" "" none none started).1

query-passes_example :
    (older : List TraceEvent) × (select (passes none (some "REST") none 0) two_events.events
      ≡ older ++ query none (some "REST") none 0 (pos 1) two_events)
    × (length (query none (some "REST") none 0 (pos 1) two_events) ≤ 1)
    × ((older ≡ []) ⊎ (length (query none (some "REST") none 0 (pos 1) two_events) ≡ 1))
query-passes_example = query-passes none (some "REST") none 0 0 two_events
