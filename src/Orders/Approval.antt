-- ===== src/Orders/Approval.antt =====
-- app/lifecycle.py: an order that the operator approves stage by stage, and one that runs on its own.
pub mod Gates
pub mod Loop
use neo_cloud_control_plane.Prelude.{
  ℕ, zero, suc, String, ◌≡◌, refl, sym, ap, ◌∙◌, Bool, true, false, Option, none, some, List, [],
  ◌∷◌, ◌⊎◌, inl, inr, is_some, length, ◌==◌, eq_refl, arith, ◌||◌, if◌then◌else◌,
}
use neo_cloud_control_plane.Prelude.Exec.{
  Exec, Result, ok, err, pure, gets, modify, require, or_raise, continue, ◌>>=◌, ◌>>◌,
}
use neo_cloud_control_plane.Dict.{Dict, get, put}
use neo_cloud_control_plane.Dict.Laws.{get-put, put-put}
use neo_cloud_control_plane.Lifecycle.{OrderState, ServiceOrder, World, is_order}
use neo_cloud_control_plane.Orders.{Floats, on_order}
use neo_cloud_control_plane.Orders.Kept.{Terms, terms, Has, Keeps}
use neo_cloud_control_plane.Orders.Holds.{Holds-pure}
use neo_cloud_control_plane.Orders.Ends.{Ends, Ends-bind, Ends-Keeps, Anything}
use neo_cloud_control_plane.Orders.Stages.{order_at, set_order}
use neo_cloud_control_plane.Orders.Stages.Handing.{Draws}
use neo_cloud_control_plane.Orders.Pipeline.{
  Stage, Stages, go_on, in_foreground, run_stages, stage_of, first_state, next_state, set_pending,
  wait_at_gate, approve_stage, approve_next_stage, stages_for, is_terminal, is_given_up,
}
use neo_cloud_control_plane.Orders.Outcome.{Outcome}

module _ {N : Type 0} (oid : String) where
  -- A stage in the foreground: it keeps the terms of its order, and if it returns, the order is in the
  -- stage's state or given up.
  pub record IsStage (st : OrderState) (stage : Stage N) : Type 0 where
    pub outcome : (t : Terms) → Ends oid t Anything (Outcome st) (stage oid)
    pub quiet : (w : World N) (b : Bool) → (stage oid w).0 ≡ ok b → b ≡ false

  abbrev pub AreStages : Stages N → Type 0
  AreStages [] = Unit
  AreStages ((st, stage) ∷ stages) = IsStage st stage × AreStages stages

  pub in_foreground-IsStage :
      (st : OrderState) (m : String → Exec (World N) (Unit {0}))
      → ((t : Terms) → Ends oid t Anything (Outcome st) (m oid))
      → IsStage st (in_foreground m)
  in_foreground-IsStage st m e = record {
    outcome = λ t. Ends-bind (m oid) _ (e t) (λ u. Ends-Keeps _ (Holds-pure false));
    quiet = λ w b g. said (m oid w).0 (m oid w).1 b g;
  }
    where
      said :
          (r : Result Unit) (w : World N) (b : Bool)
          → (continue r (λ u. pure false) w).0 ≡ ok b
          → b ≡ false
      said (ok u) w b g = cc
      said (err c) w b g = cc

-- each stage of a list is found where it stands, and goes on with the next
abbrev pub Follows : {N : Type 0} → Stages N → Stages N → Type 0
Follows all [] = Unit
Follows all ((st, stage) ∷ stages) =
    (stage_of st all ≡ some stage) × (next_state st all ≡ first_state stages) × Follows all stages

-- only the last stage ends the order
abbrev pub IsPlaced : {N : Type 0} → OrderState → Stages N → Type 0
IsPlaced st [] = is_terminal st ≡ true
IsPlaced st (_ ∷ _) = (is_terminal st ≡ false) × (is_given_up st ≡ false)

abbrev pub EndsLast : {N : Type 0} → Stages N → Type 0
EndsLast [] = Unit
EndsLast ((st, stage) ∷ stages) = IsPlaced st stages × EndsLast stages

abbrev pub approve_if : {N : Type 0} → Bool → Exec (World N) (Unit {0}) → Exec (World N) (Unit {0})
approve_if true approve = approve
approve_if false approve = pure tt

pub bind-ok :
    {S A B : Type 0} (m : Exec S A) (k : A → Exec S B) (a : A) (s s' : S)
    → m s ≡ (ok a, s')
    → (m >>= k) s ≡ k a s'
bind-ok m k a s s' e = ap (λ r. continue r.0 k r.1) e

pub order_at-ok :
    {N : Type 0} (oid : String) (w : World N) (o : ServiceOrder N)
    → get oid w.orders ≡ some o
    → order_at oid w ≡ (ok o, w)
order_at-ok oid w o e = simp e

pub given_up-terminal : (s : OrderState) → is_given_up s ≡ true → is_terminal s ≡ true
given_up-terminal _ g = ground (arith, g)

module _ {N : Type 0} (f : Floats N) (d : Draws) (install : Stage N) where
  -- the operator approves as long as a stage is pending, at most so many times
  unfoldable pub approve_all : ℕ → String → Exec (World N) (Unit {0})
  approve_all zero oid = pure tt
  approve_all (suc n) oid = do
    order ← order_at oid
    approve_if (is_some order.pending_stage)
        (approve_next_stage f d install oid >> approve_all n oid)
