-- ===== src/Scenario/Contract/Decisions.antt =====
-- app/scenario_api.py: each decision takes the open record of an order along steps of the contract.
use neo_cloud_control_plane.Prelude.{
  ℕ, suc, ◌+◌, String, ◌≡◌, refl, sym, ap, ◌∙◌, subst, false, Option, some, ◌==◌, eq_iff, ltb,
  Bool-cases, inl, inr,
}
use neo_cloud_control_plane.Prelude.Exec.{Exec, or_raise, gets, ◌>>=◌, ◌>>◌}
use neo_cloud_control_plane.Prelude.Triples.{
  Triple, Triple-keeps, Triple-gets, Triple-or_raise, Triple-from, Triple-modify, Triple-bind,
}
use neo_cloud_control_plane.Dict.{Dict, get, update}
use neo_cloud_control_plane.Dict.Laws.{get-update}
use neo_cloud_control_plane.Lifecycle.{OrderState, ServiceOrder, World}
use neo_cloud_control_plane.Orders.{Floats}
use neo_cloud_control_plane.Orders.Stages.{order_at, set_order}
use neo_cloud_control_plane.Orders.Stages.Handing.{Draws}
use neo_cloud_control_plane.Orders.Pipeline.{Stage}
use neo_cloud_control_plane.Scenario.{Acceptance, Portal, Outside, now, on_world}
use neo_cloud_control_plane.Scenario.Accepting.{
  is_settled, set_acceptance, deemed_at, deem_approved, approved_at, rejected_at, approve, reject,
  finalize_delivery, take_back, append_event, build_acceptance_report, deemed_days,
}
use neo_cloud_control_plane.Scenario.Contract.{Reads, Moves, approves, rejects, deems, Course, step}

-- what is said of the acceptances
abbrev pub On : {N : Type 0} → (Dict Acceptance → Type 0) → Portal N → Type 0
On P p = P p.acceptances

module _ {N : Type 0} (P : Dict Acceptance → Type 0) {B : Type 0} {Q : B → Portal N → Type 0}
    {E : Portal N → Type 0} where
  world-then :
      {A : Type 0} (m : Exec (World N) A) (k : A → Exec (Portal N) B)
      → ((p : Portal N) → On P p → E p)
      → ((a : A) → Triple (On P) (k a) Q E)
      → Triple (On P) (on_world m >>= k) Q E
  world-then m k g t = Triple-bind (on_world m) k (Triple-keeps (on_world m) (λ p h. h) g) t

  pub now-then :
      (e : Outside N) (k : ℕ → Exec (Portal N) B)
      → ((t : ℕ) → Reads e t → Triple (On P) (k t) Q E)
      → Triple (On P) (now e >>= k) Q E
  now-then e k t = record {
    at = λ p h.
        (t (e.clock p.readings) (p.readings, refl)).at (record p { readings = suc p.readings }) h;
  }

module _ {N : Type 0} (f : Floats N) (d : Draws) (install : Stage N) (e : Outside N) (key : String)
    (start : Option Acceptance) where
  -- the record under `key` has gone its course
  abbrev pub Gone : Dict Acceptance → Type 0
  Gone t = Course e start (get key t)

  -- and the record of an order is this one, not settled
  abbrev pub Open : String → Acceptance → Dict Acceptance → Type 0
  Open oid a t = Gone t × (get oid t ≡ some a) × (is_settled a.status ≡ false)

  change-Gone :
      (oid : String) (a : Acceptance) (change : Acceptance → Acceptance) (t : Dict Acceptance)
      → Open oid a t
      → Moves e (some a) (some (change a))
      → Gone (update oid change t)
  change-Gone oid a change t (g, s, u) m = elim (Bool-cases (oid == key)) [
    | inl y ↦
        rw (get-update oid key change t, y, s)
          (step (subst (Course e start) (ap (λ k. get k t) (sym ((eq_iff oid key).0 y)) ∙ s) g) m)
    | inr n ↦ rw (get-update oid key change t, n) g
  ]

  Open-Gone : (oid : String) (a : Acceptance) (p : Portal N) → On (Open oid a) p → On Gone p
  Open-Gone oid a p h = h.0

  -- `rec.update(…)` by a step of the contract
  update-Triple :
      (oid : String) (a : Acceptance) (change : Acceptance → Acceptance)
      → (is_settled a.status ≡ false → Moves e (some a) (some (change a)))
      → Triple {S = Portal N} (On (Open oid a)) (set_acceptance oid change) (λ u. On Gone) (On Gone)
  update-Triple oid a change m =
      Triple-modify {Q = λ u. On Gone} _ (λ p h. change-Gone oid a change p.acceptances h (m h.2))

  move-then :
      (oid : String) (a : Acceptance) (change : Acceptance → Acceptance)
      (k : Exec (Portal N) (Unit {0}))
      → (is_settled a.status ≡ false → Moves e (some a) (some (change a)))
      → Triple (On Gone) k (λ u. On Gone) (On Gone)
      → Triple (On (Open oid a)) (set_acceptance oid change >> k) (λ u. On Gone) (On Gone)
  move-then oid a change k m t =
      Triple-bind (set_acceptance oid change) _ (update-Triple oid a change m) (λ u. t)

  -- the last steps of a decision, on the order only
  note-Triple :
      (oid : String) (detail : String)
      → Triple {S = Portal N}
          (On Gone)
          (on_world (order_at oid) >>= λ o. on_world (set_order (append_event o.state detail) oid))
          (λ u. On Gone)
          (On Gone)
  note-Triple oid detail =
      world-then Gone (order_at oid) _ (λ p h. h)
        (λ o.
          Triple-keeps (on_world (set_order (append_event o.state detail) oid)) (λ p h. h)
            (λ p h. h))

  pub approve-Triple :
      (oid : String) (a : Acceptance)
      → Triple (On (Open oid a)) (approve f d install e oid) (λ u. On Gone) (On Gone)
  approve-Triple oid a =
      world-then (Open oid a) (finalize_delivery f d install oid) _ (Open-Gone oid a) (λ u.
        now-then (Open oid a) e _ (λ t r.
          move-then oid a (approved_at t) _ (approves t r) (note-Triple oid "AcceptanceApproved")))

  pub deem_approved-Triple :
      (oid : String) (a : Acceptance) (at : ℕ)
      → Reads e at
      → ltb at a.deemed_deadline ≡ false
      → Triple
          (On (Open oid a))
          (deem_approved f d install e oid a.deemed_deadline)
          (λ u. On Gone)
          (On Gone)
  deem_approved-Triple oid a at read late =
      world-then (Open oid a) (finalize_delivery f d install oid) _ (Open-Gone oid a) (λ u.
        now-then (Open oid a) e _ (λ t r.
          move-then oid a (deemed_at a.deemed_deadline t) _ (deems at t read r late)
            (note-Triple oid "AcceptanceDeemed")))

  pub reject-Triple :
      (oid : String) (reason : Option String) (a : Acceptance)
      → Triple (On (Open oid a)) (reject f d install e oid reason) (λ u. On Gone) (On Gone)
  reject-Triple oid reason a = now-then (Open oid a) e _ (λ t r.
      world-then (Open oid a) (set_order take_back oid) _ (Open-Gone oid a) (λ u.
        world-then (Open oid a)
          (set_order (append_event OrderState.acceptance "AcceptanceRejected") oid) _
          (Open-Gone oid a)
          (λ v. now-then (Open oid a) e _ (λ report_ts r'.
            world-then (Open oid a) (order_at oid) _ (Open-Gone oid a)
              (λ order. retest t r report_ts order)))))
    where
      retest :
          (t : ℕ)
          → Reads e t
          → (report_ts : ℕ) (order : ServiceOrder N)
          → Triple
              (On (Open oid a))
              (or_raise (e.micros (deemed_days f e)) 500 >>= λ span.
                gets (λ p. build_acceptance_report f e order report_ts p.world) >>= λ report.
                set_acceptance oid (rejected_at reason t report (report_ts + span)))
              (λ u. On Gone)
              (On Gone)
      retest t r report_ts order =
          Triple-bind (or_raise (e.micros (deemed_days f e)) 500) _
            (Triple-or_raise _ 500 (Open-Gone oid a))
            (λ span.
              Triple-bind (gets (λ p. build_acceptance_report f e order report_ts p.world)) _
                (Triple-gets _)
                (λ report.
                  Triple-from _ (λ p h. h.0.0)
                    (update-Triple oid a (rejected_at reason t report (report_ts + span))
                      (rejects reason t report (report_ts + span) r))))
