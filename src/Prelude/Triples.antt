-- ===== src/Prelude/Triples.antt =====
-- What holds after a call that has returned, and after one that has raised.
use Prim.Native.Nat.{ℕ}
use mathlib.Core.Path.{◌≡◌, refl}
use mathlib.Core.Bool.{Bool, true, false}
use mathlib.Core.Option.{Option, none, some}
use package.neo_cloud_control_plane.Prelude.Tests.{if◌then◌else◌}
use package.neo_cloud_control_plane.Prelude.Exec.{
  Exec, Result, ok, err, pure, or_raise, require, gets, modify, continue, ◌>>=◌,
}

abbrev pub After : {S A : Type 0} → (A → S → Type 0) → (S → Type 0) → Result A × S → Type 0
After Q E (ok a, s) = Q a s
After Q E (err c, s) = E s

-- From `P`, a return of `a` makes `Q a`, and an exception `E`.
pub record Triple {S A : Type 0} (P : S → Type 0) (m : Exec S A) (Q : A → S → Type 0)
    (E : S → Type 0) : Type 0 where
  pub at : (s : S) → P s → After Q E (m s)

module _ {S : Type 0} {E : S → Type 0} where
  module _ {A : Type 0} where
    pub Triple-pure :
        {P : S → Type 0} {Q : A → S → Type 0} (a : A)
        → ((s : S) → P s → Q a s)
        → Triple P (pure a) Q E
    Triple-pure a h = record { at = h }

    pub Triple-keeps :
        {P : S → Type 0} (m : Exec S A)
        → ((s : S) → P s → P (m s).1)
        → ((s : S) → P s → E s)
        → Triple P m (λ a. P) E
    Triple-keeps {P = P} m k f = record { at = λ s h. said (m s) (k s h) }
      where
        said : (r : Result A × S) → P r.1 → After (λ a. P) E r
        said (ok a, s) h = h
        said (err c, s) h = f s h

    pub Triple-gets : {P : S → Type 0} (f : S → A) → Triple P (gets f) (λ a s. P s × (f s ≡ a)) E
    Triple-gets f = record { at = λ s h. (h, refl) }

    pub Triple-or_raise :
        {P : S → Type 0} (o : Option A) (c : ℕ)
        → ((s : S) → P s → E s)
        → Triple P (or_raise o c) (λ a s. P s × (o ≡ some a)) E
    Triple-or_raise none c f = record { at = f }
    Triple-or_raise (some a) c f = record { at = λ s h. (h, refl) }

    pub Triple-if :
        {P : S → Type 0} {Q : A → S → Type 0} (b : Bool) (m n : Exec S A)
        → (b ≡ true → Triple P m Q E)
        → (b ≡ false → Triple P n Q E)
        → Triple P (if b then m else n) Q E
    Triple-if true m n f g = f refl
    Triple-if false m n f g = g refl

    pub Triple-from :
        {P P' : S → Type 0} {Q : A → S → Type 0} (m : Exec S A)
        → ((s : S) → P s → P' s)
        → Triple P' m Q E
        → Triple P m Q E
    Triple-from m f t = record { at = λ s h. t.at s (f s h) }

    -- a fact that is not about the state
    pub Triple-given :
        {P : S → Type 0} {Q : A → S → Type 0} {F : Type 0} (m : Exec S A)
        → (F → Triple P m Q E)
        → Triple (λ s. P s × F) m Q E
    Triple-given m t = record { at = λ s h. (t h.1).at s h.0 }

    pub Triple-to :
        {P : S → Type 0} {Q Q' : A → S → Type 0} (m : Exec S A)
        → ((a : A) (s : S) → Q a s → Q' a s)
        → Triple P m Q E
        → Triple P m Q' E
    Triple-to {Q = Q} {Q' = Q'} m f t = record { at = λ s h. to (m s) (t.at s h) }
      where
        to : (r : Result A × S) → After Q E r → After Q' E r
        to (ok a, s) h = f a s h
        to (err c, s) h = h

  pub Triple-require :
      {P : S → Type 0} (b : Bool) (c : ℕ)
      → ((s : S) → P s → E s)
      → Triple P (require b c) (λ _ s. P s × (b ≡ true)) E
  Triple-require true c f = record { at = λ s h. (h, refl) }
  Triple-require false c f = record { at = f }

  pub Triple-modify :
      {P : S → Type 0} {Q : Unit {0} → S → Type 0} (f : S → S)
      → ((s : S) → P s → Q tt (f s))
      → Triple P (modify f) Q E
  Triple-modify f h = record { at = h }

  module _ {A B : Type 0} where
    continue-After :
        {M : A → S → Type 0} {Q : B → S → Type 0} (r : Result A) (k : A → Exec S B) (s : S)
        → After M E (r, s)
        → ((a : A) → Triple (M a) (k a) Q E)
        → After Q E (continue r k s)
    continue-After (ok a) k s h t = (t a).at s h
    continue-After (err c) k s h t = h

    pub Triple-bind :
        {P : S → Type 0} {M : A → S → Type 0} {Q : B → S → Type 0} (m : Exec S A) (k : A → Exec S B)
        → Triple P m M E
        → ((a : A) → Triple (M a) (k a) Q E)
        → Triple P (m >>= k) Q E
    Triple-bind m k t u = record { at = λ s h. continue-After (m s).0 k (m s).1 (t.at s h) u }

-- where a return and an exception say the same of the state
pub Triple-state :
    {S A : Type 0} {P E : S → Type 0} (m : Exec S A)
    → Triple P m (λ a. E) E
    → (s : S) → P s
    → E (m s).1
Triple-state {S = S} {A = A} {E = E} m t s h = said (m s) (t.at s h)
  where
    said : (r : Result A × S) → After (λ a. E) E r → E r.1
    said (ok a, s) h = h
    said (err c, s) h = h
