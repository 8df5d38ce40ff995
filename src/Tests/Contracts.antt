-- ===== src/Tests/Contracts.antt =====
-- Runs of app/scenario_api.py: a delivered order whose acceptance is open, and a tenant that leaves.
use neo_cloud_control_plane.Prelude.{
  String, Bool, ℕ, ◌+◌, ◌*◌, ◌≡◌, refl, true, false, none, some, List, [], ◌∷◌, map, ◌==◌,
}
use neo_cloud_control_plane.Prelude.Exec.{ok, err}
use neo_cloud_control_plane.Dict.{get, put, update}
use neo_cloud_control_plane.Tenancy.{bare_metal_dedicated}
use neo_cloud_control_plane.Lifecycle.{OrderState, ServiceOrder, World}
use neo_cloud_control_plane.Orders.Managed.{in_place}
use neo_cloud_control_plane.Orders.Kubernetes.{clusters_down}
use neo_cloud_control_plane.Scenario.{Verdict, Acceptance, Termination, Portal, Outside}
use neo_cloud_control_plane.Scenario.Accepting.{
  acceptance_report, decide_acceptance, approved_at, rejected_at, append_event,
  build_acceptance_report, approve_pending, new_acceptance, ensure_acceptance, maybe_deem,
  finalize_delivery,
}
use neo_cloud_control_plane.Scenario.Contract.{Course, Call, report, decision, run}
use neo_cloud_control_plane.Scenario.Billing.{Billing, run-Course, run-settled, run-Billing}
use neo_cloud_control_plane.Scenario.Silence.{calls-delivered}
use neo_cloud_control_plane.Scenario.Finalize.{IsOver, approve_pending-ends}
use neo_cloud_control_plane.Scenario.Terminating.{
  new_termination, request_termination, confirm_at, termination_checklist,
}
use neo_cloud_control_plane.Scenario.Erasing.{confirm_backup, get_wipe_certificate}
use neo_cloud_control_plane.Scenario.Guarded.{AreTerminations}
use neo_cloud_control_plane.Scenario.Backup.{
  Event, certificate, confirm, run_events, run_events-AreTerminations, confirm_backup-blocked,
  erasing-refused,
}
use neo_cloud_control_plane.Tests.Pipeline.{numbers, draws, waiting, ordered}
use neo_cloud_control_plane.Tests.Placement.{world}

-- a clock that goes on by one at each reading, and no environment variables
abbrev outside : Outside ℕ
outside = record {
  clock = λ n. 100 + n;
  environ = λ s. none;
  float_of = λ s. none;
  micros = λ n. some (n * 10);
  show = λ n. "40";
  add = λ m n. m + n;
  sha256 = λ c. "digest";
  blank = λ s. s == "";
  percent = λ m n. 0;
  reached = λ s. 50;
}

abbrev delivered : ServiceOrder ℕ
delivered = record waiting {
  state = OrderState.delivered;
  pending_stage = none;
  history = record { state = OrderState.acceptance; detail = "" } ∷ [];
}

abbrev lived : World ℕ
lived = record world { orders = ("ord-1", delivered) ∷ [] }

abbrev opened : Acceptance
opened = record {
  order_id = "ord-1";
  tenant_id = "tnt-acme";
  status = Verdict.pending;
  report = build_acceptance_report numbers outside delivered 50 lived;
  deemed_deadline = 120;
  billing_start_date = none;
  reject_reason = none;
  decided_at = none;
  decided_by = none;
}

abbrev portal : Portal ℕ
portal = record {
  world = lived;
  acceptances = ("ord-1", opened) ∷ [];
  terminations = [];
  readings = 0;
}

abbrev calls : List (Call ℕ)
calls = report "ord-1" ∷ decision "ord-1" (record { decision = "approve"; reason = none }) ∷ []

run-Course_example :
    Course outside
      (get "ord-1" portal.acceptances)
      (get "ord-1" (run numbers draws in_place outside calls portal).acceptances)
run-Course_example = run-Course numbers draws in_place outside calls portal "ord-1"

abbrev settled : Portal ℕ
settled = record portal { acceptances = ("ord-1", approved_at 110 opened) ∷ [] }

run-settled_example :
    get "ord-1" (run numbers draws in_place outside calls settled).acceptances
    ≡ some (approved_at 110 opened)
run-settled_example =
    run-settled numbers draws in_place outside calls settled "ord-1" (approved_at 110 opened)
      (unfold get in refl) refl

-- no acceptance yet
abbrev unopened : Portal ℕ
unopened = record portal { acceptances = [] }

abbrev after_calls : Acceptance
after_calls = approved_at 101 (new_acceptance numbers outside delivered 50 70 lived)

run-Billing_example : Billing outside Verdict.approved after_calls
run-Billing_example =
    run-Billing numbers draws in_place outside calls unopened "ord-1" after_calls
      (unfold get in refl)
      (unfold run acceptance_report decide_acceptance ensure_acceptance maybe_deem finalize_delivery
          get put update in
        refl)

calls-delivered_example :
    ((acceptance_report numbers draws in_place outside "ord-1" portal).0 ≡ ok (some opened))
    × ((decide_acceptance numbers draws in_place outside "ord-1"
          (record { decision = "approve"; reason = some "late" })
          portal).0
        ≡ ok (some (approved_at 100 opened)))
    × (get "ord-1"
          (decide_acceptance numbers draws in_place outside "ord-1"
            (record { decision = "approve"; reason = some "late" })
            portal).1.world.orders
        ≡ some (append_event OrderState.delivered "AcceptanceApproved" delivered))
    × ((decide_acceptance numbers draws in_place outside "ord-1"
          (record { decision = "reject"; reason = some "late" })
          portal).0
        ≡ ok (
            some (
              rejected_at
                (some "late")
                100
                (build_acceptance_report numbers outside delivered 101 lived)
                171
                opened)))
    × (get "ord-1"
          (decide_acceptance numbers draws in_place outside "ord-1"
            (record { decision = "reject"; reason = some "late" })
            portal).1.world.orders
        ≡ some (
            append_event OrderState.acceptance "AcceptanceRejected"
              (record delivered { state = OrderState.acceptance })))
calls-delivered_example =
    calls-delivered numbers draws in_place outside "ord-1" portal delivered opened
      (unfold get in refl) refl refl refl (unfold get in refl) refl "late" 70 refl refl

approve_pending-ends_example :
    (approve_pending numbers draws in_place (8 + 5) "ord-1" ordered
      ≡ approve_pending numbers draws in_place 8 "ord-1" ordered)
    × IsOver "ord-1" (approve_pending numbers draws in_place 8 "ord-1" ordered)
approve_pending-ends_example =
    approve_pending-ends numbers draws "ord-1" ordered waiting 5 (unfold get in refl)

abbrev leaving : Termination
leaving = new_termination "term-1" "tnt-acme" 90 []

abbrev left : Portal ℕ
left = record portal { terminations = ("term-1", leaving) ∷ [] }

left-AreTerminations : AreTerminations outside left.terminations
unfolding get
left-AreTerminations = record {
  dict = (refl, tt);
  entries = (record { named = refl; stands = (refl, refl, refl) }, tt);
}

abbrev events : List (Event ℕ)
events =
    confirm "tnt-acme" (map (λ i. (i, true)) termination_checklist) ∷ certificate "tnt-acme" ∷ []

run_events-AreTerminations_example :
    AreTerminations outside (run_events outside numbers clusters_down events left).terminations
run_events-AreTerminations_example =
    run_events-AreTerminations outside numbers clusters_down events left left-AreTerminations

-- two of the three items
abbrev partly : List (String × Bool)
partly =
    ("테넌트 데이터 추출(export) 완료", true)
    ∷ ("최종 백업본 확인 완료", false)
    ∷ ("외부 스토리지 이관(migration) 완료", true)
    ∷ []

confirm_backup-blocked_example :
    (confirm_backup outside numbers clusters_down "tnt-acme" partly left ≡ (err 409, left))
    × (get_wipe_certificate outside "tnt-acme" left ≡ (err 409, left))
confirm_backup-blocked_example =
    confirm_backup-blocked outside numbers clusters_down "tnt-acme" "최종 백업본 확인 완료" partly left
      leaving refl refl refl refl

abbrev in_erasure : Termination
in_erasure = confirm_at 95 leaving

abbrev erased : Portal ℕ
erased = record portal {
  world = record lived {
    store = record lived.store {
      tenants =
          (
            "tnt-acme",
            record {
              id = "tnt-acme";
              name = "Acme";
              isolation_tier = bare_metal_dedicated;
              sla_tier = "gold";
              notes = none;
            },
          )
          ∷ [];
    };
  };
  terminations = ("term-1", in_erasure) ∷ [];
}

erasing-refused_example :
    ((request_termination outside "tnt-acme" erased ≡ (err 409, erased))
      × (confirm_backup outside numbers clusters_down "tnt-acme" [] erased ≡ (err 409, erased))
      × (get_wipe_certificate outside "tnt-acme" erased ≡ (err 409, erased)))
    × (run_events outside numbers clusters_down events erased ≡ erased)
erasing-refused_example =
    erasing-refused outside numbers clusters_down "tnt-acme" [] erased in_erasure events
      (unfold get in refl) refl refl (refl, (refl, tt))
