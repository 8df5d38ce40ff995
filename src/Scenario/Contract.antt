-- ===== src/Scenario/Contract.antt =====
-- app/scenario_api.py: what may become of the acceptance of an order, as a relation; and the calls of
-- the customer with the rest of the program between them.
pub mod Decisions
pub mod Steps
use neo_cloud_control_plane.Prelude.{
  ℕ, suc, ◌+◌, String, ◌≡◌, refl, sym, ap, ◌∙◌, subst, Bool, true, false, not, ◌&&◌, ◌||◌, Option,
  none, some, List, [], ◌∷◌, ◌==◌, eq_iff, eq_refl, arith, if◌then◌else◌, is_some, or_else, ltb,
  Bool-cases, inl, inr, map_option, Option-cases,
}
use neo_cloud_control_plane.Prelude.Exec.{Exec, pure, or_raise, require, gets, modify, ◌>>=◌, ◌>>◌}
use neo_cloud_control_plane.Prelude.Triples.{
  Triple, Triple-pure, Triple-keeps, Triple-gets, Triple-or_raise, Triple-if, Triple-from,
  Triple-to, Triple-require, Triple-modify, Triple-bind, Triple-state,
}
use neo_cloud_control_plane.Dict.{Dict, get, put, update}
use neo_cloud_control_plane.Dict.Laws.{get-put, get-update}
use neo_cloud_control_plane.Lifecycle.{OrderState, ServiceOrder, World, lists_order}
use neo_cloud_control_plane.Orders.{Floats, on_order}
use neo_cloud_control_plane.Orders.Stages.{order_at, set_order}
use neo_cloud_control_plane.Orders.Stages.Handing.{Draws}
use neo_cloud_control_plane.Orders.Pipeline.{Stage}
use neo_cloud_control_plane.Scenario.{
  Verdict, AcceptanceReport, Acceptance, Portal, Outside, now, on_world,
}
use neo_cloud_control_plane.Scenario.Accepting.{
  AcceptanceDecision, is_settled, ensure_acceptance, known_acceptance, open_acceptance,
  new_acceptance, set_acceptance, deemed_at, deem_approved, settle_from, deem, deem_found,
  maybe_deem, order_or_404, acceptance_report, approved_at, rejected_at, approve, reject, decide,
  is_awaited, decide_acceptance, finalize_delivery, take_back, append_event,
  build_acceptance_report, deemed_days, is_closed_off,
}

-- a reading of the clock
abbrev pub Reads : {N : Type 0} → Outside N → ℕ → Type 0
Reads e t = (n : ℕ) × (t ≡ e.clock n)

-- One step of the contract on the record of an order, at readings of the clock.
pub data Moves {N : Type 0} (e : Outside N) : Option Acceptance → Option Acceptance → Type 0 where
  opens :
      {a : Acceptance}
      → a.status ≡ Verdict.pending
      → a.billing_start_date ≡ none
      → Moves e none (some a)
  approves :
      {a : Acceptance} (t : ℕ)
      → Reads e t
      → is_settled a.status ≡ false
      → Moves e (some a) (some (approved_at t a))
  rejects :
      {a : Acceptance} (reason : Option String) (t : ℕ) (report : AcceptanceReport) (deadline : ℕ)
      → Reads e t
      → is_settled a.status ≡ false
      → Moves e (some a) (some (rejected_at reason t report deadline a))
  deems :
      {a : Acceptance} (s t : ℕ)
      → Reads e s
      → Reads e t
      → ltb s a.deemed_deadline ≡ false
      → is_settled a.status ≡ false
      → Moves e (some a) (some (deemed_at a.deemed_deadline t a))

-- Steps of the contract, one after the other.
pub data Course {N : Type 0} (e : Outside N) (start : Option Acceptance)
    : Option Acceptance → Type 0 where
  here : Course e start start
  step : {a b : Option Acceptance} → Course e start a → Moves e a b → Course e start b

-- a call of the customer, or anything that the rest of the program does
pub data Call (N : Type 0) : Type 0 where
  report : String → Call N
  decision : String → AcceptanceDecision → Call N
  elsewhere : (World N → World N) → Call N

-- what a call makes of the portal
abbrev pub call :
    {N : Type 0} → Floats N → Draws → Stage N → Outside N → Call N → Portal N → Portal N
call f d install e (report oid) p = (acceptance_report f d install e oid p).1
call f d install e (decision oid body) p = (decide_acceptance f d install e oid body p).1
call f d install e (elsewhere g) p = record p { world = g p.world }

unfoldable pub run :
    {N : Type 0} → Floats N → Draws → Stage N → Outside N → List (Call N) → Portal N → Portal N
unfolding acceptance_report decide_acceptance
run f d install e [] p = p
run f d install e (c ∷ cs) p = run f d install e cs (call f d install e c p)
