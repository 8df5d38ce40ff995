-- ===== src/Scenario/Sla/Calls.antt =====
-- app/scenario_api.py: calls of the status page, of the reports and of the inquiries, in any order.
use neo_cloud_control_plane.Prelude.{
  ℕ, suc, ◌+◌, String, ◌+++◌, ◌≡◌, refl, ◌∙◌, ap, arith, Bool, true, false, Option, none, some,
  List, [], ◌∷◌, any, select, ◌&&◌, eq_refl,
}
use neo_cloud_control_plane.Prelude.Decimal.{decimal}
use neo_cloud_control_plane.Prelude.Exec.{gets, modify, or_raise, require}
use neo_cloud_control_plane.Prelude.Triples.{
  Triple, Triple-bind, Triple-require, Triple-or_raise, Triple-if, Triple-pure, Triple-state,
  Triple-modify, Triple-to,
}
use neo_cloud_control_plane.Dict.{values, has}
use neo_cloud_control_plane.Dict.Laws.{get-put, Entries-put}
use neo_cloud_control_plane.Tenancy.{next_seq}
use neo_cloud_control_plane.Scenario.Incidents.{
  Fault, Incident, Credit, Desk, Times, filled, stamp, rca_reports, sync_incidents, file_incident,
}
use neo_cloud_control_plane.Scenario.Incidents.Owed.{
  IsSortedOut, IsDue, Unused-put, counter, told, due,
}
use neo_cloud_control_plane.Scenario.Incidents.Published.{
  rca_reports-Triple, sync_incidents-Triple, publish_rca-IsSortedOut, read_clock, reading,
}
use neo_cloud_control_plane.Scenario.Downtime.{
  Reckoning, minutes_down, sla_line, downtime, percentage,
}
use neo_cloud_control_plane.Scenario.StatusPage.{status_page, page}
use neo_cloud_control_plane.Scenario.Inquiries.{
  InquiryBody, create_inquiry, has_char, is_at, is_filled_in,
}
use neo_cloud_control_plane.Scenario.Sla.{
  has_key, in_month, synthetic_incident, worst_id, credit_of, credits_for, month_or_now,
  file_synthetic, synthesize, sla_report, report_on, sla_report_of, tenant_monthly_usd, find_credit,
  credit_key,
}

raising :
    {N A : Type 0} (o : Option A) (n : ℕ)
    → Triple (IsSortedOut {N = N}) (or_raise o n) (λ a. IsSortedOut) IsSortedOut
raising o n = Triple-to _ (λ a d h. h.0) (Triple-or_raise o n (λ d h. h))

module _ {N : Type 0} (s : Reckoning N) (c : Times N) where
  month_or_now-Triple :
      (o : Option String) → Triple IsSortedOut (month_or_now s c o) (λ m. IsSortedOut) IsSortedOut
  month_or_now-Triple none = record { at = λ d h. read_clock c _ d h }
  month_or_now-Triple (some m) = record { at = λ d h. h }

  minutes_down-Triple :
      (i : Incident N) → Triple IsSortedOut (minutes_down s i) (λ m. IsSortedOut) IsSortedOut
  minutes_down-Triple i =
      Triple-if i.is_resolved _ _ (λ y. Triple-pure _ (λ d h. h))
        (λ n. Triple-bind (gets _) _ (reading c (λ d. d.readings)) (λ at.
          Triple-bind (modify _) _
            (Triple-modify (λ d. record d { readings = suc d.readings })
              (λ d h. read_clock c _ d h))
            (λ u. raising (s.minutes_since i.started_at at) 500)))

  downtime-Triple :
      (is : List (Incident N)) (total : N)
      → Triple IsSortedOut (downtime s is total) (λ m. IsSortedOut) IsSortedOut
  unfolding downtime
  downtime-Triple [] total = Triple-pure ([], total) (λ d h. h)
  downtime-Triple (i ∷ is) total = Triple-bind (minutes_down s i) _ (minutes_down-Triple i) (λ m.
      Triple-bind (downtime s is (s.add total m)) _ (downtime-Triple is (s.add total m))
        (λ rest. Triple-pure (sla_line s i m ∷ rest.0, rest.1) (λ d h. h)))

  file_synthetic-Triple :
      (key tenant_id month : String)
      → Triple IsSortedOut (file_synthetic s c key tenant_id month) (λ u. IsSortedOut) IsSortedOut
  unfolding next_seq
  file_synthetic-Triple key tenant_id month = record {
    at = λ d h. told IsSortedOut _ (publish_rca-IsSortedOut c _ _ (owed d h));
  }
    where
      owed :
          (d : Desk N)
          → IsSortedOut d
          → (let (n, st) = next_seq "incident" d.store in
              let inc = synthetic_incident s ("inc-" +++ decimal n) key tenant_id month in
              IsDue inc (file_incident inc (record d { store = st })))
      owed d h = record {
        named = Entries-put (λ iid i. i.id ≡ iid) _ _ d.incidents h.named refl;
        new_incidents =
            rw get-put
              (Unused-put "inc-" (counter "incident" d.store) _ d.incidents h.new_incidents);
        new_rcas = rw get-put h.new_rcas;
        others = λ iid n. rw get-put (rw n (h.published iid));
        missing =
            h.published _ ∙ ap due (h.new_incidents (counter "incident" d.store + 1) (omega arith));
        owed = rw get-put (rw eq_refl refl);
      }

  synthesize-Triple :
      (tenant_id month : String) (b : Bool)
      → Triple IsSortedOut (synthesize s c tenant_id month b) (λ u. IsSortedOut) IsSortedOut
  synthesize-Triple tenant_id month false = Triple-pure tt (λ d h. h)
  synthesize-Triple tenant_id month true =
      Triple-bind (gets _) _ (reading c (λ d. any (has_key key) (values d.incidents))) (λ known.
        Triple-if known _ _ (λ y. Triple-pure tt (λ d h. h))
          (λ n. file_synthetic-Triple key tenant_id month))
    where
      key : String
      key = "synthetic|" +++ tenant_id +++ "|" +++ month

  credit_of-Triple :
      (tenant_id month : String) (worst : Option String) (avail : N) (o : Option (Credit N))
      → Triple IsSortedOut
          (credit_of s tenant_id month worst avail o)
          (λ x. IsSortedOut)
          IsSortedOut
  unfolding next_seq
  credit_of-Triple tenant_id month worst avail (some x) = Triple-pure x (λ d h. h)
  credit_of-Triple tenant_id month worst avail none = record {
    at = λ d h. record {
      named = h.named;
      new_incidents = rw get-put h.new_incidents;
      new_rcas = rw get-put h.new_rcas;
      published = h.published;
    };
  }

  credits_for-Triple :
      (tenant_id month : String) (worst : Option String) (avail : N) (b : Bool)
      → Triple IsSortedOut
          (credits_for s tenant_id month worst avail b)
          (λ x. IsSortedOut)
          IsSortedOut
  credits_for-Triple tenant_id month worst avail false = Triple-pure [] (λ d h. h)
  credits_for-Triple tenant_id month worst avail true =
      Triple-bind (gets _) _
        (reading c (λ d. find_credit (credit_key s tenant_id month) (values d.sla_credits)))
        (λ found.
          Triple-bind (credit_of s tenant_id month worst avail found) _
            (credit_of-Triple tenant_id month worst avail found)
            (λ x. Triple-pure (x ∷ []) (λ d h. h)))

  report_on-Triple :
      (tenant_id month : String) (window : N)
      → Triple IsSortedOut (report_on s tenant_id month window) (λ r. IsSortedOut) IsSortedOut
  unfolding downtime
  report_on-Triple tenant_id month window =
      Triple-bind (gets _) _
        (reading c (λ d. select (in_month s tenant_id month) (values d.incidents)))
        (λ incs.
          Triple-bind (downtime s incs (s.floats.of_nat 0)) _
            (downtime-Triple incs (s.floats.of_nat 0))
            (λ down.
              Triple-bind
                (credits_for s tenant_id month (worst_id s incs)
                  (s.round4 (percentage s down.1 window))
                  (s.below (s.round4 (percentage s down.1 window)) s.target_pct))
                _
                (credits_for-Triple tenant_id month (worst_id s incs)
                  (s.round4 (percentage s down.1 window))
                  (s.below (s.round4 (percentage s down.1 window)) s.target_pct))
                (λ credits.
                  Triple-bind (gets _) _
                    (reading c (λ d. tenant_monthly_usd s tenant_id (values d.orders)))
                    (λ monthly.
                      Triple-pure
                        (sla_report_of s tenant_id month (s.round4 (percentage s down.1 window))
                          down.0 credits monthly)
                        (λ d h. h)))))

  sla_report-Triple :
      (feed : List (Fault N)) (tenant_id : String) (wanted : Option String) (b : Bool)
      → Triple IsSortedOut (sla_report s c feed tenant_id wanted b) (λ r. IsSortedOut) IsSortedOut
  unfolding sla_report
  sla_report-Triple feed tenant_id wanted b =
      Triple-bind (gets _) _ (reading c (λ d. has tenant_id d.store.tenants)) (λ known.
        Triple-bind (require known 404) _
          (Triple-to _ (λ u d h. h.0) (Triple-require known 404 (λ d h. h)))
          (λ u.
            Triple-bind (month_or_now s c (filled wanted)) _ (month_or_now-Triple (filled wanted))
              (λ month.
                Triple-bind (or_raise (s.window month) 422) _ (raising (s.window month) 422)
                  (λ window.
                    Triple-bind (sync_incidents c feed) _ (sync_incidents-Triple c feed) (λ v.
                      Triple-bind (synthesize s c tenant_id month b) _
                        (synthesize-Triple tenant_id month b)
                        (λ w. report_on-Triple tenant_id month window))))))

  status_page-Triple :
      (feed : List (Fault N))
      → Triple IsSortedOut (status_page s c feed) (λ a. IsSortedOut) IsSortedOut
  unfolding status_page
  status_page-Triple feed =
      Triple-bind (sync_incidents c feed) _ (sync_incidents-Triple c feed) (λ u.
        Triple-bind (gets _) _ (reading c (λ d. values d.incidents)) (λ is.
          Triple-bind (downtime s is (s.floats.of_nat 0)) _ (downtime-Triple is (s.floats.of_nat 0))
            (λ down.
              Triple-bind (stamp c) _ stamping
                (λ at. Triple-pure (page s c at is down.1) (λ d h. h)))))
    where
      stamping : Triple IsSortedOut (stamp c) (λ at. IsSortedOut) IsSortedOut
      stamping = record { at = λ d h. read_clock c _ d h }

  create_inquiry-Triple :
      (body : InquiryBody)
      → Triple IsSortedOut (create_inquiry c body) (λ iid. IsSortedOut) IsSortedOut
  unfolding create_inquiry next_seq
  create_inquiry-Triple body =
      Triple-bind (require _ 422) _
        (Triple-to _ (λ u d h. h.0) (Triple-require (has_char is_at body.email) 422 (λ d h. h)))
        (λ u.
          Triple-bind (require _ 422) _
            (Triple-to _ (λ u d h. h.0)
              (Triple-require (is_filled_in body.company && is_filled_in body.name) 422 (λ d h. h)))
            (λ v. record {
              at = λ d h. record {
                named = h.named;
                new_incidents = rw get-put h.new_incidents;
                new_rcas = rw get-put h.new_rcas;
                published = h.published;
              };
            }))

-- a call of the status page, of a tenant's reports on causes or of its SLA report, with the feed at that
-- time, or an inquiry
pub data DeskCall (N : Type 0) : Type 0 where
  status : List (Fault N) → DeskCall N
  reports : String → List (Fault N) → DeskCall N
  sla : String → Option String → Bool → List (Fault N) → DeskCall N
  inquire : InquiryBody → DeskCall N

module _ {N : Type 0} (s : Reckoning N) (c : Times N) where
  abbrev pub desk_call : DeskCall N → Desk N → Desk N
  desk_call (status feed) d = (status_page s c feed d).1
  desk_call (reports tenant_id feed) d = (rca_reports c feed tenant_id d).1
  desk_call (sla tenant_id month b feed) d = (sla_report s c feed tenant_id month b d).1
  desk_call (inquire body) d = (create_inquiry c body d).1

  unfoldable pub run_desk : List (DeskCall N) → Desk N → Desk N
  unfolding status_page rca_reports sla_report create_inquiry
  run_desk [] d = d
  run_desk (x ∷ xs) d = run_desk xs (desk_call x d)

  desk_call-IsSortedOut :
      (x : DeskCall N) (d : Desk N) → IsSortedOut d → IsSortedOut (desk_call x d)
  desk_call-IsSortedOut (status feed) d h = Triple-state _ (status_page-Triple s c feed) d h
  desk_call-IsSortedOut (reports tenant_id feed) d h =
      Triple-state _ (rca_reports-Triple c feed tenant_id) d h
  desk_call-IsSortedOut (sla tenant_id month b feed) d h =
      Triple-state _ (sla_report-Triple s c feed tenant_id month b) d h
  desk_call-IsSortedOut (inquire body) d h = Triple-state _ (create_inquiry-Triple s c body) d h

  pub run_desk-IsSortedOut :
      (xs : List (DeskCall N)) (d : Desk N) → IsSortedOut d → IsSortedOut (run_desk xs d)
  unfolding run_desk
  run_desk-IsSortedOut [] d h = h
  run_desk-IsSortedOut (x ∷ xs) d h =
      run_desk-IsSortedOut xs (desk_call x d) (desk_call-IsSortedOut x d h)
