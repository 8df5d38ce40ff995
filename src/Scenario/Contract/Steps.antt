-- ===== src/Scenario/Contract/Steps.antt =====
-- app/scenario_api.py: each call takes the record of an order along steps of the contract, or leaves it.
use neo_cloud_control_plane.Prelude.{
  ℕ, String, ◌≡◌, refl, sym, ap, ◌∙◌, subst, Bool, true, false, not, ◌&&◌, ◌||◌, Option, none, some,
  ◌==◌, eq_iff, eq_refl, arith, if◌then◌else◌, is_some, or_else, ltb, Bool-cases, inl, inr,
}
use neo_cloud_control_plane.Prelude.Exec.{Exec, pure, or_raise, require, gets, modify, ◌>>=◌, ◌>>◌}
use neo_cloud_control_plane.Prelude.Triples.{
  Triple, Triple-pure, Triple-gets, Triple-or_raise, Triple-if, Triple-from, Triple-to,
  Triple-require, Triple-modify, Triple-bind, Triple-state,
}
use neo_cloud_control_plane.Dict.{Dict, get, put}
use neo_cloud_control_plane.Dict.Laws.{get-put}
use neo_cloud_control_plane.Lifecycle.{ServiceOrder}
use neo_cloud_control_plane.Orders.{Floats}
use neo_cloud_control_plane.Orders.Stages.Handing.{Draws}
use neo_cloud_control_plane.Orders.Pipeline.{Stage}
use neo_cloud_control_plane.Scenario.{Acceptance, Portal, Outside}
use neo_cloud_control_plane.Scenario.Accepting.{
  AcceptanceDecision, is_settled, ensure_acceptance, known_acceptance, open_acceptance,
  new_acceptance, settle_from, deem, deem_found, maybe_deem, order_or_404, acceptance_report,
  decide, decide_acceptance, deemed_days, is_closed_off,
}
use neo_cloud_control_plane.Scenario.Contract.{Reads, Moves, opens, Course, step}
use neo_cloud_control_plane.Scenario.Contract.Decisions.{
  On, Gone, Open, approve-Triple, reject-Triple, deem_approved-Triple, now-then,
}

module _ {N : Type 0} (f : Floats N) (d : Draws) (install : Stage N) (e : Outside N) (key : String)
    (start : Option Acceptance) where
  put-Gone :
      (oid : String) (a : Acceptance) (t : Dict Acceptance)
      → (Gone f d install e key start) t
      → get oid t ≡ none
      → Moves e none (some a)
      → (Gone f d install e key start) (put oid a t)
  put-Gone oid a t g s m = elim (Bool-cases (oid == key)) [
    | inl y ↦
        rw (get-put oid key a t, y)
          (step (subst (Course e start) (ap (λ k. get k t) (sym ((eq_iff oid key).0 y)) ∙ s) g) m)
    | inr n ↦ rw (get-put oid key a t, n) g
  ]

  -- what `_ensure_acceptance_locked` returns
  abbrev Given : String → Option Acceptance → Dict Acceptance → Type 0
  Given oid none t = (Gone f d install e key start) t
  Given oid (some a) t = (Gone f d install e key start) t × (get oid t ≡ some a)

  Given-Gone :
      (oid : String) (o : Option Acceptance) (t : Dict Acceptance)
      → Given oid o t
      → (Gone f d install e key start) t
  Given-Gone oid none t h = h
  Given-Gone oid (some a) t h = h.0

  open_acceptance-Triple :
      (order : ServiceOrder N) (b : Bool)
      → Triple
          (λ p. On (Gone f d install e key start) p × (get order.id p.acceptances ≡ none))
          (open_acceptance f e order b)
          (λ o. On (Given order.id o))
          (On (Gone f d install e key start))
  open_acceptance-Triple order false = Triple-pure none (λ p h. h.0)
  open_acceptance-Triple order true =
      Triple-bind (or_raise (e.micros (deemed_days f e)) 500) _ (Triple-or_raise _ 500 (λ p h. h.0))
        (λ span.
          Triple-bind (gets (λ p. new_acceptance f e order (e.reached order.id) span p.world)) _
            (Triple-gets _)
            (λ rec.
              Triple-bind (modify (λ p. record p { acceptances = put order.id rec p.acceptances }))
                _
                (Triple-modify {Q = λ u. On (Given order.id (some rec))} _ (λ p h. (
                  put-Gone order.id rec p.acceptances h.0.0.0 h.0.0.1
                      (opens (rw (sym h.1) refl) (rw (sym h.1) refl)),
                  simp (get-put, eq_refl),
                )))
                (λ u. Triple-pure (some rec) (λ p h. h))))

  known_acceptance-Triple :
      (order : ServiceOrder N) (o : Option Acceptance)
      → Triple
          (λ p. On (Gone f d install e key start) p × (get order.id p.acceptances ≡ o))
          (known_acceptance f e order o)
          (λ o. On (Given order.id o))
          (On (Gone f d install e key start))
  known_acceptance-Triple order none = open_acceptance-Triple order _
  known_acceptance-Triple order (some rec) = Triple-pure (some rec) (λ p h. h)

  ensure_acceptance-Triple :
      (order : ServiceOrder N)
      → Triple
          (On (Gone f d install e key start))
          (ensure_acceptance f e order)
          (λ o. On (Given order.id o))
          (On (Gone f d install e key start))
  unfolding ensure_acceptance
  ensure_acceptance-Triple order =
      Triple-bind (require _ 409) _ (Triple-require _ 409 (λ p h. h)) (λ u.
        Triple-bind (gets (λ p. get order.id p.acceptances)) _ (Triple-gets _)
          (λ o. Triple-from _ (λ p h. (h.0.0, h.1)) (known_acceptance-Triple order o)))

  order_or_404-then :
      {B : Type 0} (oid : String) (k : ServiceOrder N → Exec (Portal N) B)
      → ((o : ServiceOrder N)
          → Triple
              (On (Gone f d install e key start))
              (k o)
              (λ b. On (Gone f d install e key start))
              (On (Gone f d install e key start)))
      → Triple
          (On (Gone f d install e key start))
          (order_or_404 oid >>= k)
          (λ b. On (Gone f d install e key start))
          (On (Gone f d install e key start))
  order_or_404-then oid k t =
      Triple-bind (order_or_404 oid) k
        (Triple-bind (gets (λ p. get oid p.world.orders)) _ (Triple-gets _)
          (λ o. Triple-to (or_raise o 404) (λ a p h. h.0.0) (Triple-or_raise o 404 (λ p h. h.0))))
        t

  settle_from-Triple :
      (oid : String) (a : Acceptance) (at : ℕ) (b : Bool)
      → Reads e at
      → ltb at a.deemed_deadline ≡ b
      → Triple
          (On ((Open f d install e key start) oid a))
          (settle_from f d install e oid a.deemed_deadline b)
          (λ u. On (Gone f d install e key start))
          (On (Gone f d install e key start))
  settle_from-Triple oid a at true r q = Triple-pure tt (λ p h. h.0)
  settle_from-Triple oid a at false r q =
      (deem_approved-Triple f d install e key start) oid a at r q

  deem-Triple :
      (oid : String) (a : Acceptance) (b : Bool)
      → (b ≡ true → is_settled a.status ≡ false)
      → Triple
          (On (Given oid (some a)))
          (deem f d install e oid a b)
          (λ u. On (Gone f d install e key start))
          (On (Gone f d install e key start))
  deem-Triple oid a false u = Triple-pure tt (λ p h. h.0)
  deem-Triple oid a true u =
      now-then (Given oid (some a)) e _
        (λ t r. Triple-from _ (λ p h. (h.0, h.1, u refl)) (settle_from-Triple oid a t _ r refl))

  deem_found-Triple :
      (order : ServiceOrder N) (o : Option Acceptance)
      → Triple
          (On (Given order.id o))
          (deem_found f d install e order o)
          (λ u. On (Gone f d install e key start))
          (On (Gone f d install e key start))
  deem_found-Triple order none = Triple-pure tt (λ p h. h)
  deem_found-Triple order (some a) = deem-Triple order.id a _ (λ y. ground (arith, y))

  maybe_deem-Triple :
      (order : ServiceOrder N)
      → Triple
          (On (Gone f d install e key start))
          (maybe_deem f d install e order)
          (λ u. On (Gone f d install e key start))
          (On (Gone f d install e key start))
  unfolding maybe_deem
  maybe_deem-Triple order =
      Triple-bind (gets (λ p. get order.id p.acceptances)) _ (Triple-gets _)
        (λ o. Triple-from _ (λ p h. said o p h.0 h.1) (deem_found-Triple order o))
    where
      said :
          (o : Option Acceptance) (p : Portal N)
          → On (Gone f d install e key start) p
          → get order.id p.acceptances ≡ o
          → On (Given order.id o) p
      said none p g s = g
      said (some a) p g s = (g, s)

  pub acceptance_report-Gone :
      (oid : String) (p : Portal N)
      → (Gone f d install e key start) p.acceptances
      → (Gone f d install e key start) (acceptance_report f d install e oid p).1.acceptances
  unfolding acceptance_report
  acceptance_report-Gone oid = Triple-state _ (
      order_or_404-then oid _ (λ order.
        Triple-bind (ensure_acceptance f e order) _
          (Triple-to _ (λ o p. Given-Gone order.id o p.acceptances)
            (ensure_acceptance-Triple order))
          (λ rec.
            Triple-bind (if is_some rec then maybe_deem f d install e order else pure tt) _
              (Triple-if _ _ _ (λ y. maybe_deem-Triple order) (λ n. Triple-pure tt (λ p h. h)))
              (λ u. Triple-to _ (λ o p h. h.0) (Triple-gets _)))))

  decide-Triple :
      (oid : String) (body : AcceptanceDecision) (a : Acceptance)
      → Triple
          (On ((Open f d install e key start) oid a))
          (decide f d install e oid body)
          (λ u. On (Gone f d install e key start))
          (On (Gone f d install e key start))
  decide-Triple oid body a =
      Triple-if _ _ _ (λ y. (approve-Triple f d install e key start) oid a)
        (λ n. (reject-Triple f d install e key start) oid body.reason a)

  decide_found-Triple :
      (order : ServiceOrder N) (body : AcceptanceDecision) (found : Option Acceptance)
      → Triple
          (On (Given order.id found))
          (or_raise found 409 >>= λ rec.
            require (not (is_settled rec.status)) 409
            >> (decide f d install e order.id body >> gets (λ p. get order.id p.acceptances)))
          (λ o. On (Gone f d install e key start))
          (On (Gone f d install e key start))
  decide_found-Triple order body none = record { at = λ p h. h }
  decide_found-Triple order body (some a) =
      Triple-bind (require (not (is_settled a.status)) 409) _ (Triple-require _ 409 (λ p h. h.0))
        (λ u.
          Triple-bind (decide f d install e order.id body) _
            (Triple-from _ (λ p h. (h.0.0, h.0.1, ground (arith, h.1)))
              (decide-Triple order.id body a))
            (λ v. Triple-to _ (λ o p h. h.0) (Triple-gets _)))

  pub decide_acceptance-Gone :
      (oid : String) (body : AcceptanceDecision) (p : Portal N)
      → (Gone f d install e key start) p.acceptances
      → (Gone f d install e key start) (decide_acceptance f d install e oid body p).1.acceptances
  unfolding decide_acceptance
  decide_acceptance-Gone oid body = Triple-state (decide_acceptance f d install e oid body) (
      order_or_404-then oid _ (λ order.
        guarded (body.decision == "approve" || body.decision == "reject") 422 _ (
          guarded (not (body.decision == "reject" && e.blank (or_else body.reason ""))) 422 _ (
            guarded (not (is_closed_off order.state)) 409 _ (
              Triple-bind (ensure_acceptance f e order) _ (ensure_acceptance-Triple order)
                (λ found. decide_found-Triple order body found))))))
    where
      guarded :
          (b : Bool) (c : ℕ) (k : Exec (Portal N) (Option Acceptance))
          → Triple
              (On (Gone f d install e key start))
              k
              (λ o. On (Gone f d install e key start))
              (On (Gone f d install e key start))
          → Triple
              (On (Gone f d install e key start))
              (require b c >> k)
              (λ o. On (Gone f d install e key start))
              (On (Gone f d install e key start))
      guarded b c k t =
          Triple-bind (require b c) _ (Triple-require b c (λ p h. h))
            (λ u. Triple-from k (λ p h. h.0) t)
