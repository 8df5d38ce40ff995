-- ===== src/Scenario/Billing.antt =====
-- app/scenario_api.py: when the billing of an order starts, and that a decision stands.
use neo_cloud_control_plane.Prelude.{
  ℕ, String, ◌≡◌, refl, sym, subst, true, false, Option, none, some, List, [], ◌∷◌, ltb,
}
use neo_cloud_control_plane.Dict.{get}
use neo_cloud_control_plane.Orders.{Floats}
use neo_cloud_control_plane.Orders.Stages.Handing.{Draws}
use neo_cloud_control_plane.Orders.Pipeline.{Stage}
use neo_cloud_control_plane.Scenario.{Verdict, Acceptance, Portal, Outside}
use neo_cloud_control_plane.Scenario.Accepting.{is_settled}
use neo_cloud_control_plane.Scenario.Contract.{
  Reads, Moves, opens, approves, rejects, deems, Course, here, step, Call, report, decision,
  elsewhere, call, run,
}
use neo_cloud_control_plane.Scenario.Contract.Steps.{acceptance_report-Gone, decide_acceptance-Gone}

-- The billing that a verdict stands for: none before it is settled; from the approval, at a reading of
-- the clock; or from a deadline that the clock had reached.
abbrev pub Billing : {N : Type 0} → Outside N → Verdict → Acceptance → Type 0
Billing e Verdict.pending a = a.billing_start_date ≡ none
Billing e Verdict.rejected a = a.billing_start_date ≡ none
Billing e Verdict.approved a = (t : ℕ) × Reads e t × (a.billing_start_date ≡ some t)
Billing e Verdict.deemed a =
    (t : ℕ) × Reads e t
    × (ltb t a.deemed_deadline ≡ false)
    × (a.billing_start_date ≡ some a.deemed_deadline)

module _ {N : Type 0} (e : Outside N) where
  abbrev IsBilled : Option Acceptance → Type 0
  IsBilled none = Unit
  IsBilled (some a) = Billing e a.status a

  Moves-IsBilled : {a b : Option Acceptance} → Moves e a b → IsBilled b
  Moves-IsBilled (opens s b) = rw s b
  Moves-IsBilled (approves t r u) = (t, r, refl)
  Moves-IsBilled (rejects reason t checked deadline r u) = refl
  Moves-IsBilled (deems s t rs rt late u) = (s, rs, late, refl)

  Course-IsBilled : {a b : Option Acceptance} → Course e a b → IsBilled a → IsBilled b
  Course-IsBilled here h = h
  Course-IsBilled (step c m) h = Moves-IsBilled m

  Moves-settled :
      {o b : Option Acceptance} (a : Acceptance)
      → is_settled a.status ≡ true
      → o ≡ some a
      → Moves e o b
      → b ≡ some a
  Moves-settled a s q (opens p b) = absurd (cc)
  Moves-settled a s q (approves t r u) = absurd (cc)
  Moves-settled a s q (rejects reason t checked deadline r u) = absurd (cc)
  Moves-settled a s q (deems t t' rs rt late u) = absurd (cc)

  Course-settled :
      {o b : Option Acceptance} (a : Acceptance)
      → is_settled a.status ≡ true
      → o ≡ some a
      → Course e o b
      → b ≡ some a
  Course-settled a s q here = q
  Course-settled a s q (step c m) = Moves-settled a s (Course-settled a s q c) m

  Course-trans : {a b c : Option Acceptance} → Course e a b → Course e b c → Course e a c
  Course-trans c here = c
  Course-trans c (step c' m) = step (Course-trans c c') m

module _ {N : Type 0} (f : Floats N) (d : Draws) (install : Stage N) (e : Outside N) where
  call-Course :
      (key : String) (c : Call N) (p : Portal N)
      → Course e (get key p.acceptances) (get key (call f d install e c p).acceptances)
  call-Course key (report oid) p = acceptance_report-Gone f d install e key _ oid p here
  call-Course key (decision oid body) p = decide_acceptance-Gone f d install e key _ oid body p here
  call-Course key (elsewhere g) p = here

  -- Whatever the customers call, in whatever order and with whatever the rest of the program does to
  -- its world in between, the acceptance of each order goes steps of the contract: it is opened
  -- pending, and then approved, rejected, or deemed at a reading of the clock that is not before its
  -- deadline, each only as long as it is not approved or deemed.
  pub run-Course :
      (calls : List (Call N)) (p : Portal N) (key : String)
      → Course e (get key p.acceptances) (get key (run f d install e calls p).acceptances)
  unfolding run
  run-Course [] p key = here
  run-Course (c ∷ calls) p key =
      Course-trans e (call-Course key c p) (run-Course calls (call f d install e c p) key)

  -- An acceptance that is approved or deemed stays exactly as it is, whatever the customers call and
  -- the rest of the program does to its world.
  pub run-settled :
      (calls : List (Call N)) (p : Portal N) (key : String) (a : Acceptance)
      → get key p.acceptances ≡ some a
      → is_settled a.status ≡ true
      → get key (run f d install e calls p).acceptances ≡ some a
  run-settled calls p key a g s = Course-settled e a s g (run-Course calls p key)

  -- After any calls on an order that had no acceptance, the billing of the acceptance it has now is
  -- that of its verdict: none while it is pending or rejected, from a reading of the clock where it is
  -- approved, and from the deadline where it is deemed, which the clock had reached.
  pub run-Billing :
      (calls : List (Call N)) (p : Portal N) (key : String) (a : Acceptance)
      → get key p.acceptances ≡ none
      → get key (run f d install e calls p).acceptances ≡ some a
      → Billing e a.status a
  run-Billing calls p key a g r =
      subst (IsBilled e) r
        (Course-IsBilled e (run-Course calls p key) (subst (IsBilled e) (sym g) tt))
