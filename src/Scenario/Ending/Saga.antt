-- ===== src/Scenario/Ending/Saga.antt =====
-- app/scenario_api.py: the saga of the erasure, and the confirmation that starts it.
use neo_cloud_control_plane.Prelude.{
  ℕ, suc, ◌+◌, String, ◌+++◌, ◌≡◌, refl, ◌∙◌, Bool, true, false, Option, some, List, [], ◌∷◌, All,
  length,
}
use neo_cloud_control_plane.Prelude.Exec.{Exec, pure, or_raise, require, gets, ◌>>=◌, ◌>>◌}
use neo_cloud_control_plane.Prelude.Triples.{
  Triple, Triple-pure, Triple-keeps, Triple-gets, Triple-or_raise, Triple-from, Triple-to,
  Triple-require, Triple-given, Triple-bind,
}
use neo_cloud_control_plane.Dict.{get}
use neo_cloud_control_plane.Tenancy.{Allocation, get_all}
use neo_cloud_control_plane.Lifecycle.{World}
use neo_cloud_control_plane.Orders.{Floats}
use neo_cloud_control_plane.Orders.Reclaim.{run_terminate_order}
use neo_cloud_control_plane.Scenario.{
  TerminationState, Termination, WipedAllocation, Portal, Outside, now, on_world,
}
use neo_cloud_control_plane.Scenario.Terminating.{
  latest_termination, set_termination, confirm_at, term_progress, erasure_stages, erase_order,
  wiped_racks, count_trays, wiped_of, cert_body_of, count_up, allocations_of, is_awaiting,
  is_none_missing, missing_items,
}
use neo_cloud_control_plane.Scenario.Erasing.{
  show_stages, add_order, erase_allocation, erase_allocations, run_termination_saga, start_saga,
  confirm_backup, issue_certificate, total_units, cert_of, termination_stage_delay,
}
use neo_cloud_control_plane.Scenario.Guarded.{SaysErased, latest-Found}
use neo_cloud_control_plane.Scenario.Ending.{
  Sound, In, In-Sound, set-Triple, progress-Turns, add_order-Turns, show_stages-Triple, wipe-Turns,
  confirm-Turns, world-Triple, Turns,
}

module _ {N : Type 0} (e : Outside N) (f : Floats N)
    (down : String → Allocation → Exec (World N) (Unit {0})) where
  erase_allocation-Triple :
      (key tenant_id aid : String) (done total : ℕ)
      → Triple
          (In e TerminationState.erasing key)
          (erase_allocation e f down key tenant_id aid done total)
          (λ a p. In e TerminationState.erasing key p × SaysErased a)
          (Sound e)
  unfolding erase_allocation
  erase_allocation-Triple key tenant_id aid done total =
      Triple-bind (gets (λ p. get aid p.world.store.allocations)) _ (Triple-gets _) (λ alloc.
        Triple-bind (gets (λ p. count_trays (get_all p.world.store.racks (wiped_racks alloc)))) _
          (Triple-gets _)
          (λ nodes.
            Triple-bind (show_stages e key aid erasure_stages done total) _
              (Triple-from _ (λ p h. h.0.0)
                (show_stages-Triple e key aid erasure_stages done total))
              (λ u.
                Triple-bind (on_world (run_terminate_order down f (erase_order f tenant_id aid))) _
                  (world-Triple e TerminationState.erasing key
                    (run_terminate_order down f (erase_order f tenant_id aid)))
                  (λ order.
                    Triple-bind (set_termination key (add_order e order.id)) _
                      (set-Triple e TerminationState.erasing TerminationState.erasing key
                        (add_order e order.id) (add_order-Turns e order.id))
                      (λ v.
                        Triple-bind
                          (set_termination key (
                            term_progress e (aid +++ ": pool-return") (done + length erasure_stages)
                              total))
                          _
                          (set-Triple e TerminationState.erasing TerminationState.erasing key
                            (term_progress e (aid +++ ": pool-return")
                              (done + length erasure_stages) total)
                            (progress-Turns e (aid +++ ": pool-return")
                              (done + length erasure_stages) total))
                          (λ x.
                            Triple-pure (wiped_of aid (wiped_racks alloc) nodes order)
                              (λ p h. (h, refl))))))))

  erase_allocations-Triple :
      (key tenant_id : String) (aids : List String) (done total : ℕ)
      → Triple
          (In e TerminationState.erasing key)
          (erase_allocations e f down key tenant_id aids done total)
          (λ as' p. In e TerminationState.erasing key p × All SaysErased as')
          (Sound e)
  unfolding erase_allocations
  erase_allocations-Triple key tenant_id [] done total = Triple-pure [] (λ p h. (h, tt))
  erase_allocations-Triple key tenant_id (aid ∷ aids) done total =
      Triple-bind (erase_allocation e f down key tenant_id aid done total)
        (λ a.
          (erase_allocations e f down key tenant_id aids (done + suc (length erasure_stages)) total)
          >>= λ more. pure (a ∷ more))
        (erase_allocation-Triple key tenant_id aid done total)
        (λ a.
          Triple-given
            ((erase_allocations e f down key tenant_id aids (done + suc (length erasure_stages))
                total)
              >>= λ more. pure (a ∷ more))
            (λ q.
              Triple-bind
                (erase_allocations e f down key tenant_id aids (done + suc (length erasure_stages))
                  total)
                (λ more. pure (a ∷ more))
                (erase_allocations-Triple key tenant_id aids (done + suc (length erasure_stages))
                  total)
                (λ more. Triple-pure (a ∷ more) (λ p h. (h.0, (q, h.1))))))

  allocations-Turns :
      (aids : List String)
      → Turns e TerminationState.erasing TerminationState.erasing
          (λ t. record t { allocations = aids })
  allocations-Turns aids = record { named = λ t. refl; state = λ t q. q; stands = λ t h. h }

  issue_certificate-Triple :
      (rec : Termination) (wiped : List WipedAllocation) (total : ℕ)
      → All SaysErased wiped
      → Triple
          (In e TerminationState.erasing rec.termination_id)
          (issue_certificate e rec wiped total)
          (λ u. In e TerminationState.wiped rec.termination_id)
          (Sound e)
  issue_certificate-Triple rec wiped total said =
      Triple-bind (now e) _
        (Triple-keeps (now e) (λ p h. h) (In-Sound e TerminationState.erasing rec.termination_id))
        (λ at.
          Triple-bind (count_up "wipe_cert") _
            (world-Triple e TerminationState.erasing rec.termination_id _)
            (λ n.
              set-Triple e TerminationState.erasing TerminationState.wiped rec.termination_id _
                (wipe-Turns e (cert_of e (cert_body_of rec wiped at) n) total refl said)))

  pub run_termination_saga-Triple :
      (rec : Termination)
      → Triple
          (In e TerminationState.erasing rec.termination_id)
          (run_termination_saga e f down rec)
          (λ u. In e TerminationState.wiped rec.termination_id)
          (Sound e)
  unfolding run_termination_saga
  run_termination_saga-Triple rec =
      Triple-bind (gets (allocations_of rec.tenant_id)) _ (Triple-gets _) (λ aids.
        Triple-bind (set_termination rec.termination_id (λ t. record t { allocations = aids })) _
          (Triple-from _ (λ p h. h.0)
            (set-Triple e TerminationState.erasing TerminationState.erasing rec.termination_id _
              (allocations-Turns aids)))
          (λ u.
            Triple-bind
              (erase_allocations e f down rec.termination_id rec.tenant_id aids 0
                (total_units e aids))
              _
              (erase_allocations-Triple rec.termination_id rec.tenant_id aids 0
                (total_units e aids))
              (λ wiped. Triple-given _ (issue_certificate-Triple rec wiped (total_units e aids)))))

  start_saga-Triple :
      (b : Bool) (rec : Termination)
      → Triple
          (In e TerminationState.erasing rec.termination_id)
          (start_saga e f down b rec)
          (λ u. (Sound e))
          (Sound e)
  start_saga-Triple true rec =
      Triple-pure tt (In-Sound e TerminationState.erasing rec.termination_id)
  start_saga-Triple false rec =
      Triple-to _ (λ u. In-Sound e TerminationState.wiped rec.termination_id)
        (run_termination_saga-Triple rec)

  awaiting : (st : TerminationState) → is_awaiting st ≡ true → st ≡ TerminationState.awaiting_backup
  awaiting TerminationState.awaiting_backup q = refl
  awaiting TerminationState.erasing q = cc
  awaiting TerminationState.wiped q = cc
  awaiting TerminationState.closed q = cc

  pub confirm_backup-Triple :
      (tenant_id : String) (body : List (String × Bool))
      → Triple (Sound e) (confirm_backup e f down tenant_id body) (λ o. (Sound e)) (Sound e)
  unfolding confirm_backup
  confirm_backup-Triple tenant_id body =
      Triple-bind (gets (latest_termination tenant_id)) _ (Triple-gets _) (λ found.
        Triple-bind (or_raise found 404) _ (Triple-or_raise found 404 (λ p h. h.0)) (λ rec.
          Triple-bind (require (is_awaiting rec.state) 409) _ (Triple-require _ 409 (λ p h. h.0.0))
            (λ u.
              Triple-bind (require (is_none_missing (missing_items body rec.checklist)) 409) _
                (Triple-require _ 409 (λ p h. h.0.0.0))
                (λ v. Triple-from _ (known found rec) (confirmed rec)))))
    where
      known :
          (found : Option Termination) (rec : Termination) (p : Portal N)
          → (((Sound e p × (latest_termination tenant_id p ≡ found)) × (found ≡ some rec))
              × (is_awaiting rec.state ≡ true))
            × (is_none_missing (missing_items body rec.checklist) ≡ true)
          → In e TerminationState.awaiting_backup rec.termination_id p
      known found rec p h =
          let (g, w, y) = latest-Found e tenant_id p rec h.0.0.0.0 (h.0.0.0.1 ∙ h.0.0.1) in
          (h.0.0.0.0, rec, g, awaiting rec.state h.0.1)

      confirmed :
          (rec : Termination)
          → Triple
              (In e TerminationState.awaiting_backup rec.termination_id)
              (now e >>= λ at.
                set_termination rec.termination_id
                  (λ t. term_progress e "erasing" 0 1 (confirm_at at t))
                >> (start_saga e f down (f.is_positive (termination_stage_delay e f down)) rec
                    >> gets (λ p. get rec.termination_id p.terminations)))
              (λ o. (Sound e))
              (Sound e)
      confirmed rec = record {
        at = λ p h.
            (Triple-bind {P = In e TerminationState.awaiting_backup rec.termination_id}
                (set_termination rec.termination_id
                  (λ t. term_progress e "erasing" 0 1 (confirm_at (e.clock p.readings) t)))
                (λ u.
                  start_saga e f down (f.is_positive (termination_stage_delay e f down)) rec
                  >> gets (λ q. get rec.termination_id q.terminations))
                (set-Triple e TerminationState.awaiting_backup TerminationState.erasing
                  rec.termination_id
                  (λ t. term_progress e "erasing" 0 1 (confirm_at (e.clock p.readings) t))
                  (confirm-Turns e (e.clock p.readings) (p.readings, refl)))
                (λ u.
                  Triple-bind
                    (start_saga e f down (f.is_positive (termination_stage_delay e f down)) rec)
                    (λ v. gets (λ q. get rec.termination_id q.terminations))
                    (start_saga-Triple (f.is_positive (termination_stage_delay e f down)) rec)
                    (λ v.
                      Triple-to (gets (λ q. get rec.termination_id q.terminations)) (λ o q h. h.0)
                        (Triple-gets (λ q. get rec.termination_id q.terminations))))).at
              (record p { readings = suc p.readings }) h;
      }
