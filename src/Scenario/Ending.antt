-- ===== src/Scenario/Ending.antt =====
-- app/scenario_api.py: the calls on terminations, and the saga, keep what their states stand for.
pub mod Saga
use neo_cloud_control_plane.Prelude.{
  ℕ, suc, ◌+◌, ◌*◌, String, ◌+++◌, ◌≡◌, refl, sym, subst, ap, ◌∙◌, Bool, true, false, not, Option,
  none, some, List, [], ◌∷◌, map, ◌==◌, eqb, if◌then◌else◌, is_some, or_else, All, length, eq_refl,
}
use neo_cloud_control_plane.Prelude.Decimal.{decimal}
use neo_cloud_control_plane.Prelude.Exec.{
  Exec, Result, ok, err, pure, or_raise, require, gets, modify, ◌>>=◌, ◌>>◌,
}
use neo_cloud_control_plane.Prelude.Triples.{
  Triple, Triple-pure, Triple-keeps, Triple-gets, Triple-or_raise, Triple-from, Triple-to,
  Triple-require, Triple-modify, Triple-given, Triple-bind, Triple-state,
}
use neo_cloud_control_plane.Dict.{Dict, get, put, update}
use neo_cloud_control_plane.Dict.Laws.{Entries-get, get-update}
use neo_cloud_control_plane.Tenancy.{Allocation, next_seq, get_all}
use neo_cloud_control_plane.Nico.{sanitize_steps}
use neo_cloud_control_plane.Lifecycle.{ServiceOrder, World}
use neo_cloud_control_plane.Orders.{Floats}
use neo_cloud_control_plane.Orders.Reclaim.{run_terminate_order}
use neo_cloud_control_plane.Scenario.{
  TerminationState, ChecklistItem, Termination, WipeCertificate, WipedAllocation, CertBody, Portal,
  Outside, Progress, now, on_world,
}
use neo_cloud_control_plane.Scenario.Contract.{Reads}
use neo_cloud_control_plane.Scenario.Terminating.{
  latest_termination, set_termination, confirm_at, close_at, term_progress, erasure_stages,
  erase_order, wiped_racks, count_trays, wiped_of, cert_body_of, count_up, allocations_of,
  request_termination, new_termination, is_awaiting, is_wiped, is_finished, is_none_missing,
  missing_items, confirm_item, is_running,
}
use neo_cloud_control_plane.Scenario.Erasing.{
  show_stages, add_order, erase_allocation, erase_allocations, wipe, run_termination_saga,
  start_saga, confirm_backup, hand_out, issue_certificate, total_units, cert_of,
  get_wipe_certificate, termination_stage_delay,
}
use neo_cloud_control_plane.Scenario.Guarded.{
  IsConfirmed, IsCertified, SaysErased, Stands, IsTermination, AreTerminations, put-AreTerminations,
  update-AreTerminations, latest-Found,
}

module _ {N : Type 0} (e : Outside N) where
  abbrev pub Sound : Portal N → Type 0
  Sound p = AreTerminations e p.terminations

  -- the termination under this id is in this state
  abbrev pub In : TerminationState → String → Portal N → Type 0
  In st key p = Sound p × (t : Termination) × (get key p.terminations ≡ some t) × (t.state ≡ st)

  pub In-Sound : (st : TerminationState) (key : String) (p : Portal N) → In st key p → Sound p
  In-Sound st key p h = h.0

  -- a change of a termination from one state to another, with what the states stand for
  pub record Turns (s s' : TerminationState) (change : Termination → Termination) : Type 0 where
    pub named : (t : Termination) → (change t).termination_id ≡ t.termination_id
    pub state : (t : Termination) → t.state ≡ s → (change t).state ≡ s'
    pub stands : (t : Termination) → Stands e s t → Stands e s' (change t)

  pub set-Triple :
      (s s' : TerminationState) (key : String) (change : Termination → Termination)
      → Turns s s' change
      → Triple (In s key) (set_termination key change) (λ u. In s' key) Sound
  set-Triple s s' key change w = Triple-modify _ said
    where
      said :
          (p : Portal N)
          → In s key p
          → In s' key (record p { terminations = update key change p.terminations })
      said p (h, t, g, q) =
          let is = Entries-get (IsTermination e) key t p.terminations h.entries g in
          (
            update-AreTerminations e key change t p.terminations h g (record {
              named = w.named t ∙ is.named;
              stands =
                  subst (λ x. Stands e x (change t)) (sym (w.state t q))
                    (w.stands t (subst (λ x. Stands e x t) q is.stands));
            }),
            change t,
            simp (get-update, g, eq_refl),
            w.state t q,
          )

  -- what the saga shows of its progress
  pub progress-Turns :
      (stage : String) (done total : ℕ)
      → Turns TerminationState.erasing TerminationState.erasing (term_progress e stage done total)
  progress-Turns stage done total = record {
    named = λ t. refl;
    state = λ t q. q;
    stands = λ t h. h;
  }

  pub add_order-Turns :
      (oid : String) → Turns TerminationState.erasing TerminationState.erasing (add_order e oid)
  add_order-Turns oid = record { named = λ t. refl; state = λ t q. q; stands = λ t h. h }

  pub show_stages-Triple :
      (key aid : String) (stages : List String) (done total : ℕ)
      → Triple
          (In TerminationState.erasing key)
          (show_stages e key aid stages done total)
          (λ u. In TerminationState.erasing key)
          Sound
  show_stages-Triple key aid [] done total = Triple-pure tt (λ p h. h)
  show_stages-Triple key aid (st ∷ stages) done total =
      Triple-bind (set_termination key _) _
        (set-Triple TerminationState.erasing TerminationState.erasing key _
          (progress-Turns (aid +++ ": " +++ st) done total))
        (λ u. show_stages-Triple key aid stages (suc done) total)

  pub wipe-Turns :
      (cert : WipeCertificate) (total : ℕ)
      → cert.sha256 ≡ e.sha256 cert.body
      → All SaysErased cert.body.allocations
      → Turns TerminationState.erasing TerminationState.wiped (wipe e cert total)
  wipe-Turns cert total q a = record {
    named = λ t. refl;
    state = λ t q. refl;
    stands = λ t h. (h.0, (cert, refl, q, a), h.2);
  }

  pub confirm-Turns :
      (at : ℕ)
      → Reads e at
      → Turns TerminationState.awaiting_backup TerminationState.erasing
          (λ t. term_progress e "erasing" 0 1 (confirm_at at t))
  confirm-Turns at r = record {
    named = λ t. refl;
    state = λ t q. refl;
    stands = λ t h. ((all_confirmed t.checklist, at, r, refl), h.1, h.2);
  }
    where
      all_confirmed :
          (cs : List ChecklistItem)
          → All (λ (c : ChecklistItem). c.confirmed ≡ true) (map confirm_item cs)
      all_confirmed [] = tt
      all_confirmed (c ∷ cs) = (refl, all_confirmed cs)

  pub close-Turns :
      (at : ℕ)
      → Turns TerminationState.wiped TerminationState.closed
          (λ t. term_progress e "closed" 1 1 (close_at at t))
  close-Turns at = record {
    named = λ t. refl;
    state = λ t q. refl;
    stands = λ t h. (h.0, h.1, refl);
  }

  pub world-Triple :
      {A : Type 0} (st : TerminationState) (key : String) (m : Exec (World N) A)
      → Triple (In st key) (on_world m) (λ a. In st key) Sound
  world-Triple st key m = Triple-keeps (on_world m) (λ p h. h) (In-Sound st key)

  pub request_termination-Triple :
      (tenant_id : String) → Triple Sound (request_termination e tenant_id) (λ t. Sound) Sound
  unfolding request_termination
  request_termination-Triple tenant_id = Triple-bind (gets _) _ (Triple-gets _) (λ known.
      Triple-bind (require known 404) _ (Triple-require known 404 (λ p h. h.0)) (λ u.
        Triple-bind (gets (latest_termination tenant_id)) _ (Triple-gets _) (λ active.
          Triple-bind (require (not (is_running active)) 409) _
            (Triple-require _ 409 (λ p h. h.0.0.0))
            (λ v.
              Triple-bind (count_up "termination") _
                (Triple-from (count_up "termination") (λ p h. h.0.0.0.0)
                  (Triple-keeps {P = Sound} (count_up "termination") (λ p h. h) (λ p h. h)))
                (λ n.
                  Triple-bind (now e) _ (Triple-keeps {P = Sound} (now e) (λ p h. h) (λ p h. h))
                    (λ at. Triple-bind (gets (allocations_of tenant_id)) _ (Triple-gets _) (λ aids.
                      filed (new_termination ("term-" +++ decimal n) tenant_id at aids)
                        (refl, refl, refl))))))))
    where
      filed :
          (rec : Termination)
          → Stands e rec.state rec
          → Triple
              (λ p. Sound p × (allocations_of tenant_id p ≡ rec.allocations))
              (modify (λ p. record p { terminations = put rec.termination_id rec p.terminations })
                >> pure rec)
              (λ t. Sound)
              Sound
      filed rec st =
          Triple-bind (modify _) _
            (Triple-modify {Q = λ u. Sound} _ (λ p h.
              put-AreTerminations e rec.termination_id rec p.terminations h.0
                (record { named = refl; stands = st })))
            (λ u. Triple-pure rec (λ p h. h))

  pub get_wipe_certificate-Triple :
      (tenant_id : String) → Triple Sound (get_wipe_certificate e tenant_id) (λ c. Sound) Sound
  unfolding get_wipe_certificate
  get_wipe_certificate-Triple tenant_id =
      Triple-bind (gets (latest_termination tenant_id)) _ (Triple-gets _) (λ found.
        Triple-bind (or_raise found 404) _ (Triple-or_raise found 404 (λ p h. h.0)) (λ rec.
          Triple-bind (require (is_finished rec.state) 409) _ (Triple-require _ 409 (λ p h. h.0.0))
            (λ u.
              Triple-bind (hand_out e rec (is_wiped rec.state)) _
                (Triple-from _ (λ p h. (h.0.0.0, h.0.0.1 ∙ h.0.1)) (handed rec rec.state refl))
                (λ v. Triple-pure rec.wipe_certificate (λ p h. h)))))
    where
      closing :
          (rec : Termination)
          → Triple
              (In TerminationState.wiped rec.termination_id)
              (hand_out e rec true)
              (λ u. Sound)
              Sound
      closing rec =
          Triple-bind (now e) _
            (Triple-keeps (now e) (λ p h. h) (In-Sound TerminationState.wiped rec.termination_id))
            (λ at.
              Triple-to _ (λ u. In-Sound TerminationState.closed rec.termination_id)
                (set-Triple TerminationState.wiped TerminationState.closed rec.termination_id _
                  (close-Turns at)))

      handed :
          (rec : Termination) (st : TerminationState)
          → rec.state ≡ st
          → Triple
              (λ p. Sound p × (latest_termination tenant_id p ≡ some rec))
              (hand_out e rec (is_wiped st))
              (λ u. Sound)
              Sound
      handed rec TerminationState.wiped q =
          Triple-from _ (λ p h. (h.0, rec, (latest-Found e tenant_id p rec h.0 h.1).0, q))
            (closing rec)
      handed rec TerminationState.awaiting_backup q = Triple-pure tt (λ p h. h.0)
      handed rec TerminationState.erasing q = Triple-pure tt (λ p h. h.0)
      handed rec TerminationState.closed q = Triple-pure tt (λ p h. h.0)
