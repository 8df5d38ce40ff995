-- ===== src/Scenario/Sla/Kept.antt =====
-- app/scenario_api.py: what the calls on incidents, credits and inquiries keep.
use neo_cloud_control_plane.Prelude.{
  suc, String, ◌≡◌, refl, Bool, true, false, Option, ◌&&◌, none, some, List, [], ◌∷◌, Option-cases,
  inl, inr,
}
use neo_cloud_control_plane.Prelude.Exec.{Exec, gets, modify, require}
use neo_cloud_control_plane.Dict.{Dict, values}
use neo_cloud_control_plane.Dict.Laws.{get-put}
use neo_cloud_control_plane.Tenancy.{next_seq}
use neo_cloud_control_plane.Orders.Holds.{
  Holds, Holds-pure, Holds-bind, Holds-if, Holds-gets, Holds-or_raise, Holds-require, holds_rules,
}
use neo_cloud_control_plane.Scenario.Incidents.{
  Fault, Incident, Rca, Desk, Times, rca_reports, sync_incidents, sync_faults, sync_fault,
  publish_rca, publish, file_incident, stamp, or_stamp, next_number, open_incident, close_incident,
  file_rca,
}
use neo_cloud_control_plane.Scenario.Incidents.Owed.{counter, IsSortedOut}
use neo_cloud_control_plane.Scenario.Downtime.{Reckoning, minutes_down, sla_line, downtime}
use neo_cloud_control_plane.Scenario.StatusPage.{status_page}
use neo_cloud_control_plane.Scenario.Inquiries.{
  InquiryBody, create_inquiry, has_char, is_at, is_filled_in,
}
use neo_cloud_control_plane.Scenario.Sla.{
  find_credit, credit_key, credits_for, month_or_now, synthesize, report_on, sla_report,
}
use neo_cloud_control_plane.Scenario.Sla.Calls.{
  DeskCall, status, reports, sla, inquire, desk_call, run_desk, run_desk-IsSortedOut,
}
use neo_cloud_control_plane.Scenario.Sla.Ledger.{IsLedger, filed, filed_inquiry}

module _ {N : Type 0} {held : Desk N} where
  -- where the credits, the inquiries and their counters do not change
  aside :
      {A : Type 0} (m : Exec (Desk N) A)
      → ((d : Desk N) → (m d).1.sla_credits ≡ d.sla_credits)
      → ((d : Desk N) → (m d).1.inquiries ≡ d.inquiries)
      → ((d : Desk N) → counter "sla_credit" (m d).1.store ≡ counter "sla_credit" d.store)
      → ((d : Desk N) → counter "inquiry" (m d).1.store ≡ counter "inquiry" d.store)
      → Holds (IsLedger held) m
  aside m e f k l = record {
    at = λ d h. record {
      new_credits = rw (e d, k d) h.new_credits;
      new_inquiries = rw (f d, l d) h.new_inquiries;
      single = rw (e d) h.single;
      kept_credits = rw (e d) h.kept_credits;
      kept_inquiries = rw (f d) h.kept_inquiries;
    };
  }

  next_incident : Holds (IsLedger held) (next_number "incident")
  unfolding next_seq
  next_incident = aside _ (λ d. refl) (λ d. refl) (λ d. rw get-put refl) (λ d. rw get-put refl)

  next_rca : Holds (IsLedger held) (next_number "rca")
  unfolding next_seq
  next_rca = aside _ (λ d. refl) (λ d. refl) (λ d. rw get-put refl) (λ d. rw get-put refl)

  filing : (i : Incident N) → Holds (IsLedger held) (modify (file_incident i))
  filing i = aside _ (λ d. refl) (λ d. refl) (λ d. refl) (λ d. refl)

  filing_rca : (r : Rca N) → Holds (IsLedger held) (modify (file_rca r))
  filing_rca r = aside _ (λ d. refl) (λ d. refl) (λ d. refl) (λ d. refl)

  module _ (c : Times N) where
    stamping : Holds (IsLedger held) (stamp c)
    stamping = aside _ (λ d. refl) (λ d. refl) (λ d. refl) (λ d. refl)

    or_stamp-IsLedger : (o : Option String) → Holds (IsLedger held) (or_stamp c o)
    or_stamp-IsLedger none = stamping
    or_stamp-IsLedger (some at) = Holds-pure at

    publish-IsLedger : (i : Incident N) (b : Bool) → Holds (IsLedger held) (publish c i b)
    publish-IsLedger i true = Holds-pure tt
    publish-IsLedger i false = search (holds_rules, next_rca, stamping, filing_rca)

    publish_rca-IsLedger : (i : Incident N) → Holds (IsLedger held) (publish_rca c i)
    unfolding publish_rca
    publish_rca-IsLedger i = search (holds_rules, publish-IsLedger)

    open_incident-IsLedger :
        (f : Fault N) (key started : String) (o : Option String)
        → Holds (IsLedger held) (open_incident f key started o)
    open_incident-IsLedger f key started (some iid) = Holds-pure iid
    open_incident-IsLedger f key started none = search (holds_rules, next_incident, filing)

    close_incident-IsLedger :
        (f : Fault N) (started : String) (i : Incident N)
        → Holds (IsLedger held) (close_incident c f started i)
    close_incident-IsLedger f started i =
        search (holds_rules, or_stamp-IsLedger, filing, publish_rca-IsLedger) depth 10

    sync_fault-IsLedger :
        (f : Fault N) (index : Dict String) → Holds (IsLedger held) (sync_fault c f index)
    unfolding sync_fault
    sync_fault-IsLedger f index =
        search (holds_rules, or_stamp-IsLedger, open_incident-IsLedger, close_incident-IsLedger)
          depth 14

    sync_faults-IsLedger :
        (fs : List (Fault N)) (index : Dict String) → Holds (IsLedger held) (sync_faults c fs index)
    unfolding sync_faults
    sync_faults-IsLedger [] index = Holds-pure tt
    sync_faults-IsLedger (f ∷ fs) index =
        Holds-bind (sync_fault c f index) _ (sync_fault-IsLedger f index)
          (λ i. sync_faults-IsLedger fs i)

    sync_incidents-IsLedger : (fs : List (Fault N)) → Holds (IsLedger held) (sync_incidents c fs)
    unfolding sync_incidents
    sync_incidents-IsLedger fs = search (holds_rules, sync_faults-IsLedger)

    module _ (s : Reckoning N) where
      month_or_now-IsLedger : (o : Option String) → Holds (IsLedger held) (month_or_now s c o)
      month_or_now-IsLedger none = search (holds_rules, stamping)
      month_or_now-IsLedger (some m) = Holds-pure m

      minutes_down-IsLedger : (i : Incident N) → Holds (IsLedger held) (minutes_down s i)
      minutes_down-IsLedger i = Holds-if i.is_resolved _ _ (Holds-pure _) (
          Holds-bind (gets (λ d. d.readings)) _ (Holds-gets _) (λ at.
            Holds-bind (modify (λ d. record d { readings = suc d.readings })) _
              (aside _ (λ d. refl) (λ d. refl) (λ d. refl) (λ d. refl))
              (λ u. Holds-or_raise (s.minutes_since i.started_at at) 500)))

      downtime-IsLedger :
          (is : List (Incident N)) (total : N) → Holds (IsLedger held) (downtime s is total)
      unfolding downtime
      downtime-IsLedger [] total = Holds-pure ([], total)
      downtime-IsLedger (i ∷ is) total =
          Holds-bind (minutes_down s i) _ (minutes_down-IsLedger i) (λ m.
            Holds-bind (downtime s is (s.add total m)) _ (downtime-IsLedger is (s.add total m))
              (λ rest. Holds-pure (sla_line s i m ∷ rest.0, rest.1)))

      synthesize-IsLedger :
          (tenant_id month : String) (b : Bool)
          → Holds (IsLedger held) (synthesize s c tenant_id month b)
      synthesize-IsLedger tenant_id month false = Holds-pure tt
      synthesize-IsLedger tenant_id month true =
          search (holds_rules, next_incident, filing, publish_rca-IsLedger) depth 12

      credits_for-IsLedger :
          (tenant_id month : String) (worst : Option String) (avail : N) (b : Bool)
          → Holds (IsLedger held) (credits_for s tenant_id month worst avail b)
      credits_for-IsLedger tenant_id month worst avail false = Holds-pure []
      credits_for-IsLedger tenant_id month worst avail true = record {
        at = λ d h.
            elim (Option-cases
              (find_credit (credit_key s tenant_id month) (values d.sla_credits))) [
                | inl e ↦ rw e (filed held s tenant_id month worst avail d e h)
                | inr (x, e) ↦ rw e h
              ];
      }

      report_on-IsLedger :
          (tenant_id month : String) (window : N)
          → Holds (IsLedger held) (report_on s tenant_id month window)
      report_on-IsLedger tenant_id month window =
          search (holds_rules, downtime-IsLedger, credits_for-IsLedger) depth 12

      sla_report-IsLedger :
          (feed : List (Fault N)) (tenant_id : String) (wanted : Option String) (b : Bool)
          → Holds (IsLedger held) (sla_report s c feed tenant_id wanted b)
      unfolding sla_report
      sla_report-IsLedger feed tenant_id wanted b =
          search
            (
              holds_rules, month_or_now-IsLedger, sync_incidents-IsLedger, synthesize-IsLedger,
              report_on-IsLedger,
            )
            depth 14

module _ {N : Type 0} (s : Reckoning N) (c : Times N) (held : Desk N) where
  desk_call-IsLedger :
      (x : DeskCall N) (d : Desk N) → IsLedger held d → IsLedger held (desk_call s c x d)
  unfolding status_page rca_reports create_inquiry
  desk_call-IsLedger (status feed) d h = (shown feed).at d h
    where
      shown : (feed : List (Fault N)) → Holds (IsLedger held) (status_page s c feed)
      shown feed = search (holds_rules, sync_incidents-IsLedger, downtime-IsLedger, stamping)
  desk_call-IsLedger (reports tenant_id feed) d h = (listed tenant_id feed).at d h
    where
      listed :
          (tenant_id : String) (feed : List (Fault N))
          → Holds (IsLedger held) (rca_reports c feed tenant_id)
      listed tenant_id feed = search (holds_rules, sync_incidents-IsLedger)
  desk_call-IsLedger (sla tenant_id month b feed) d h =
      (sla_report-IsLedger c s feed tenant_id month b).at d h
  desk_call-IsLedger (inquire body) d h = (inquired body).at d h
    where
      inquired : (body : InquiryBody) → Holds (IsLedger held) (create_inquiry c body)
      inquired body =
          Holds-bind (require _ 422) _ (Holds-require (has_char is_at body.email) 422) (λ u.
            Holds-bind (require _ 422) _
              (Holds-require (is_filled_in body.company && is_filled_in body.name) 422)
              (λ v. record { at = λ d h. filed_inquiry held c body d h }))

  run_desk-IsLedger :
      (xs : List (DeskCall N)) (d : Desk N) → IsLedger held d → IsLedger held (run_desk s c xs d)
  unfolding run_desk
  run_desk-IsLedger [] d h = h
  run_desk-IsLedger (x ∷ xs) d h =
      run_desk-IsLedger xs (desk_call s c x d) (desk_call-IsLedger x d h)

  -- Whatever is called, and whatever the feeds say, the following holds where it held before: each
  -- incident stands under its id, the ids to come of incidents, reports, credits and inquiries are
  -- unused, each incident that is resolved and major has exactly one report on its cause and any other
  -- has none, no key of a tenant and a month has two credits, and the credits and inquiries that were
  -- held are there as they were.
  pub run_desk-IsKept :
      (xs : List (DeskCall N)) (d : Desk N)
      → IsSortedOut d
      → IsLedger held d
      → IsSortedOut (run_desk s c xs d) × IsLedger held (run_desk s c xs d)
  run_desk-IsKept xs d h l = (run_desk-IsSortedOut s c xs d h, run_desk-IsLedger xs d l)
