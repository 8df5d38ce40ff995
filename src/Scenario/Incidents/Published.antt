-- ===== src/Scenario/Incidents/Published.antt =====
-- app/scenario_api.py: which incidents have a report on their cause.
use neo_cloud_control_plane.Prelude.{
  not, ◌&&◌, ℕ, ◌+◌, String, ◌+++◌, ◌≡◌, refl, sym, ◌∙◌, ap, subst, arith, true, false, Option,
  none, some, List, [], ◌∷◌, ◌==◌, if◌then◌else◌, select, Bool-cases, inl, inr, eq_iff, eq_refl,
}
use neo_cloud_control_plane.Prelude.Decimal.{decimal}
use neo_cloud_control_plane.Prelude.Exec.{pure, gets, or_raise, require}
use neo_cloud_control_plane.Prelude.Triples.{
  Triple, Triple-bind, Triple-require, Triple-gets, Triple-or_raise, Triple-if, Triple-from,
  Triple-pure,
}
use neo_cloud_control_plane.Prelude.Sorting.{sort_by}
use neo_cloud_control_plane.Dict.{Dict, get, put, values, has}
use neo_cloud_control_plane.Dict.Laws.{get-put, Entries-get, Entries-put}
use neo_cloud_control_plane.Tenancy.{next_seq}
use neo_cloud_control_plane.Scenario.Incidents.{
  Fault, Incident, Desk, Times, is_major, filled, either, publish_rca, sync_fault, sync_faults,
  sync_incidents, index_of, rca_reports, is_for, later_rca, file_incident, has_recovered, fault_key,
  resolve_at, or_stamp, open_incident, close_incident,
}
use neo_cloud_control_plane.Scenario.Incidents.Owed.{
  counter, told, Unused-put, Unused-kept, count_rcas, due, IsSortedOut, any-count, IsDue, counted,
}

module _ {N : Type 0} where
  module _ (c : Times N) where
    pub publish_rca-IsSortedOut :
        (inc : Incident N) (d : Desk N) → IsDue inc d → IsSortedOut (publish_rca c inc d).1
    unfolding publish_rca next_seq
    publish_rca-IsSortedOut inc d h = rw (any-count inc.id (values d.rcas) h.missing) (record {
      named = h.named;
      new_incidents = rw get-put h.new_incidents;
      new_rcas = rw get-put (Unused-put "rca-" (counter "rca" d.store) _ d.rcas h.new_rcas);
      published =
          counted inc d h _ (c.stamp_at d.readings)
            (h.new_rcas (counter "rca" d.store + 1) (omega arith));
    })

    -- an incident that is not resolved yet, found under its id
    abbrev IsOpen : Incident N → Desk N → Type 0
    IsOpen inc d = IsSortedOut d × (get inc.id d.incidents ≡ some inc)

    resolved :
        (inc : Incident N) (at : String) (mttr : N) (d : Desk N)
        → inc.is_resolved ≡ false
        → IsOpen inc d
        → (is_major inc.severity ≡ true
            → IsDue (resolve_at at mttr inc) (file_incident (resolve_at at mttr inc) d))
          × (is_major inc.severity ≡ false → IsSortedOut (file_incident (resolve_at at mttr inc) d))
    resolved inc at mttr d u (h, e) = (
      (λ y. record {
        named = Entries-put (λ iid i. i.id ≡ iid) inc.id _ d.incidents h.named refl;
        new_incidents = Unused-kept "inc-" _ inc.id inc _ d.incidents e h.new_incidents;
        new_rcas = h.new_rcas;
        others = λ iid n. rw get-put (rw n (h.published iid));
        missing = h.published inc.id ∙ rw e (rw u refl);
        owed = rw get-put (rw eq_refl (rw y refl));
      }),
      (λ n. record {
        named = Entries-put (λ iid i. i.id ≡ iid) inc.id _ d.incidents h.named refl;
        new_incidents = Unused-kept "inc-" _ inc.id inc _ d.incidents e h.new_incidents;
        new_rcas = h.new_rcas;
        published = λ iid. elim (Bool-cases (inc.id == iid)) [
          | inl s ↦ rw get-put (
              rw s (
                rw n (
                  subst (λ j. count_rcas j (values d.rcas) ≡ 0) ((eq_iff inc.id iid).0 s)
                    (h.published inc.id ∙ rw e (rw u refl)))))
          | inr f ↦ rw get-put (rw f (h.published iid))
        ];
      }),
    )

    pub read_clock : (n : ℕ) (d : Desk N) → IsSortedOut d → IsSortedOut (record d { readings = n })
    read_clock n d h = record {
      named = h.named;
      new_incidents = h.new_incidents;
      new_rcas = h.new_rcas;
      published = h.published;
    }

    or_stamp-Triple :
        {P E : Desk N → Type 0} (o : Option String)
        → ((d : Desk N) (n : ℕ) → P d → P (record d { readings = n }))
        → Triple P (or_stamp c o) (λ at. P) E
    or_stamp-Triple none k = record { at = λ d h. k d _ h }
    or_stamp-Triple (some at) k = record { at = λ d h. h }

    close_incident-Triple :
        (f : Fault N) (started : String) (inc : Incident N)
        → inc.is_resolved ≡ false
        → Triple (IsOpen inc) (close_incident c f started inc) (λ u. IsSortedOut) IsSortedOut
    close_incident-Triple f started inc u =
        Triple-bind (or_stamp c (filled f.resolved_at)) _
          (or_stamp-Triple _ (λ d n h. (read_clock n d h.0, h.1)))
          (λ at. record { at = λ d h. told IsSortedOut _ (at_time at _ d h) })
      where
        at_time :
            (at : String) (mttr : N) (d : Desk N)
            → IsOpen inc d
            → IsSortedOut
                ((if is_major inc.severity then publish_rca c (resolve_at at mttr inc) else pure tt)
                  (file_incident (resolve_at at mttr inc) d)).1
        at_time at mttr d h = elim (Bool-cases (is_major inc.severity)) [
          | inl y ↦ rw y (publish_rca-IsSortedOut _ _ ((resolved inc at mttr d u h).0 y))
          | inr n ↦ rw n ((resolved inc at mttr d u h).1 n)
        ]

    opened :
        (f : Fault N) (key started : String) (d : Desk N)
        → IsSortedOut d
        → IsSortedOut (open_incident f key started none d).1
    unfolding next_seq
    opened f key started d h = record {
      named = Entries-put (λ iid i. i.id ≡ iid) _ _ d.incidents h.named refl;
      new_incidents =
          rw get-put (Unused-put "inc-" (counter "incident" d.store) _ d.incidents h.new_incidents);
      new_rcas = rw get-put h.new_rcas;
      published = λ iid. elim (Bool-cases (new == iid)) [
        | inl y ↦ rw get-put (
            rw y (
              subst (λ j. count_rcas j (values d.rcas) ≡ 0) ((eq_iff new iid).0 y)
                (h.published new
                  ∙ ap due (h.new_incidents (counter "incident" d.store + 1) (omega arith)))))
        | inr n ↦ rw get-put (rw n (h.published iid))
      ];
    }
      where
        new : String
        new = "inc-" +++ decimal (counter "incident" d.store + 1)

    open_incident-Triple :
        (f : Fault N) (key started : String) (o : Option String)
        → Triple IsSortedOut (open_incident f key started o) (λ iid. IsSortedOut) IsSortedOut
    open_incident-Triple f key started none = record { at = λ d h. opened f key started d h }
    open_incident-Triple f key started (some iid) = record { at = λ d h. h }

    sync_fault-Triple :
        (f : Fault N) (index : Dict String)
        → Triple IsSortedOut (sync_fault c f index) (λ i. IsSortedOut) IsSortedOut
    unfolding sync_fault
    sync_fault-Triple f index =
        Triple-bind (or_stamp c (either (filled f.started_at) (filled f.at))) _
          (or_stamp-Triple _ (λ d n h. read_clock n d h))
          (λ started.
            Triple-bind
              (open_incident f (fault_key f started) started (get (fault_key f started) index)) _
              (open_incident-Triple f (fault_key f started) started
                (get (fault_key f started) index))
              (λ iid.
                Triple-bind (gets (λ d. get iid d.incidents)) _
                  (Triple-gets (λ d. get iid d.incidents))
                  (λ found.
                    Triple-bind (or_raise found 500) _ (Triple-or_raise found 500 (λ d h. h.0))
                      (λ inc.
                        Triple-bind
                          (if has_recovered f && not inc.is_resolved
                            then close_incident c f started inc
                            else pure tt)
                          _ (step started iid found inc)
                          (λ u. Triple-pure (put (fault_key f started) iid index) (λ d h. h))))))
      where
        step :
            (started iid : String) (found : Option (Incident N)) (inc : Incident N)
            → Triple
                (λ d. (IsSortedOut d × (get iid d.incidents ≡ found)) × (found ≡ some inc))
                (if has_recovered f && not inc.is_resolved
                  then close_incident c f started inc
                  else pure tt)
                (λ u. IsSortedOut)
                IsSortedOut
        step started iid found inc =
            Triple-if (has_recovered f && not inc.is_resolved) _ _
              (λ y.
                Triple-from _ (λ d h. found_open d h)
                  (close_incident-Triple f started inc (ground (arith, y))))
              (λ n. Triple-pure tt (λ d h. h.0.0))
          where
            found_open :
                (d : Desk N)
                → (IsSortedOut d × (get iid d.incidents ≡ found)) × (found ≡ some inc)
                → IsOpen inc d
            found_open d h = (
              h.0.0,
              subst (λ k. get k d.incidents ≡ some inc)
                  (sym (
                    Entries-get (λ iid i. i.id ≡ iid) iid inc d.incidents h.0.0.named
                      (h.0.1 ∙ h.1)))
                  (h.0.1 ∙ h.1),
            )

    sync_faults-Triple :
        (fs : List (Fault N)) (index : Dict String)
        → Triple IsSortedOut (sync_faults c fs index) (λ u. IsSortedOut) IsSortedOut
    unfolding sync_faults
    sync_faults-Triple [] index = Triple-pure tt (λ d h. h)
    sync_faults-Triple (f ∷ fs) index =
        Triple-bind (sync_fault c f index) _ (sync_fault-Triple f index)
          (λ i. sync_faults-Triple fs i)

    pub sync_incidents-Triple :
        (feed : List (Fault N))
        → Triple IsSortedOut (sync_incidents c feed) (λ u. IsSortedOut) IsSortedOut
    unfolding sync_incidents
    sync_incidents-Triple feed = record {
      at = λ d h. (sync_faults-Triple feed (index_of (values d.incidents) [])).at d h;
    }

    pub reading :
        {A : Type 0} (g : Desk N → A) → Triple IsSortedOut (gets g) (λ a. IsSortedOut) IsSortedOut
    reading g = record { at = λ d h. h }

    pub rca_reports-Triple :
        (feed : List (Fault N)) (tenant_id : String)
        → Triple IsSortedOut (rca_reports c feed tenant_id) (λ a. IsSortedOut) IsSortedOut
    unfolding rca_reports
    rca_reports-Triple feed tenant_id =
        Triple-bind (gets _) _ (reading (λ d. has tenant_id d.store.tenants)) (λ known.
          Triple-bind (require known 404) _ (Triple-require known 404 (λ d h. h)) (λ u.
            Triple-from _ (λ d h. h.0)
              (Triple-bind (sync_incidents c feed) _ (sync_incidents-Triple feed) (λ v.
                reading (λ d. sort_by later_rca (select (is_for tenant_id) (values d.rcas)))))))
