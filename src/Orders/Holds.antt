-- ===== src/Orders/Holds.antt =====
-- What a call on a state keeps, whether it returns or raises: one rule for each way to build a call.
use neo_cloud_control_plane.Prelude.{
  ℕ, Bool, true, false, Option, none, some, List, [], ◌∷◌, if◌then◌else◌, inl, inr, eqb, Bool-cases,
}
use neo_cloud_control_plane.Prelude.Exec.{
  Exec, Result, ok, err, pure, raise, or_raise, require, gets, continue, ◌>>=◌,
}
use neo_cloud_control_plane.Orders.{caught, attempt, for_each}

pub record Holds {S A : Type 0} (P : S → Type 0) (m : Exec S A) : Type 0 where
  pub at : (s : S) → P s → P (m s).1

module _ {S : Type 0} {P : S → Type 0} where
  module _ {A : Type 0} where
    pub Holds-pure : (a : A) → Holds P (pure a)
    Holds-pure a = record { at = λ s h. h }

    pub Holds-raise : (c : ℕ) → Holds {A = A} P (raise c)
    Holds-raise c = record { at = λ s h. h }

    pub Holds-gets : (f : S → A) → Holds P (gets f)
    Holds-gets f = record { at = λ s h. h }

    pub Holds-or_raise : (o : Option A) (c : ℕ) → Holds P (or_raise o c)
    Holds-or_raise none c = Holds-raise c
    Holds-or_raise (some a) c = Holds-pure a

    pub Holds-if :
        (b : Bool) (m n : Exec S A) → Holds P m → Holds P n → Holds P (if b then m else n)
    Holds-if true m n km kn = km
    Holds-if false m n km kn = kn

    pub Holds-attempt : (m : Exec S A) → Holds P m → Holds P (attempt m)
    Holds-attempt m km = record { at = λ s h. after (m s).0 (m s).1 (km.at s h) }
      where
        after : (r : Result A) (s : S) → P s → P (caught r s).1
        after (ok a) s h = h
        after (err c) s h = elim (Bool-cases (eqb c 500)) [ inl y ↦ rw y h | inr n ↦ rw n h ]

  pub Holds-require : (b : Bool) (c : ℕ) → Holds P (require b c)
  Holds-require true c = record { at = λ s h. h }
  Holds-require false c = record { at = λ s h. h }

  module _ {A B : Type 0} where
    continue-Holds :
        (r : Result A) (f : A → Exec S B) (s : S)
        → ((a : A) → Holds P (f a))
        → P s
        → P (continue r f s).1
    continue-Holds (ok a) f s kf h = (kf a).at s h
    continue-Holds (err c) f s kf h = h

    pub Holds-bind :
        (m : Exec S A) (f : A → Exec S B)
        → Holds P m
        → ((a : A) → Holds P (f a))
        → Holds P (m >>= f)
    Holds-bind m f km kf = record { at = λ s h. continue-Holds (m s).0 f (m s).1 kf (km.at s h) }

  pub Holds-for_each :
      {A : Type 0} (body : A → Exec S (Unit {0})) (xs : List A)
      → ((a : A) → Holds P (body a))
      → Holds P (for_each body xs)
  unfolding for_each
  Holds-for_each body [] k = Holds-pure tt
  Holds-for_each body (x ∷ xs) k = Holds-bind (body x) _ (k x) (λ u. Holds-for_each body xs k)

pub ruleset holds_rules = (
  Holds-pure, Holds-raise, Holds-gets, Holds-or_raise, Holds-require, Holds-if, Holds-attempt,
  Holds-bind, Holds-for_each,
)
