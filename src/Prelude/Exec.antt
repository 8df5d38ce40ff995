-- ===== src/Prelude/Exec.antt =====
-- Methods that change an object and may raise `HTTPException`. What was written before a raise
-- stays written, so the state comes back beside the error too.
use Prim.Native.Nat.{ℕ}
use mathlib.Core.Path.{◌≡◌, refl}
use mathlib.Core.Bool.{Bool, true, false}
use mathlib.Core.Option.{Option, none, some}

-- `err status`: the status of the HTTPException; the text of its detail is not kept
pub data Result {ℓ} (A : Type ℓ) : Type ℓ where
  ok : A → Result A
  err : ℕ → Result A

abbrev pub Exec {ℓ} : Type ℓ → Type ℓ → Type ℓ
Exec S A = S → Result A × S

module _ {ℓ} {S A : Type ℓ} where
  abbrev pub pure : A → Exec S A
  pure a s = (ok a, s)

  abbrev pub raise : ℕ → Exec S A
  raise c s = (err c, s)

  -- `d.get(k)`, and a raise when the key is missing
  abbrev pub or_raise : Option A → ℕ → Exec S A
  or_raise none c = raise c
  or_raise (some a) c = pure a

  abbrev pub gets : (S → A) → Exec S A
  gets f s = (ok (f s), s)

abbrev pub modify : {S : Type 0} → (S → S) → Exec S (Unit {0})
modify f s = (ok tt, f s)

-- `if not b: raise`
abbrev pub require : {S : Type 0} → Bool → ℕ → Exec S (Unit {0})
require true c s = (ok tt, s)
require false c s = (err c, s)

abbrev pub continue {ℓ} : {S A B : Type ℓ} → Result A → (A → Exec S B) → Exec S B
continue (ok a) f s = f a s
continue (err c) f s = (err c, s)

infixl 10 ◌>>=◌ ◌>>◌
abbrev pub ◌>>=◌ {ℓ} : {S A B : Type ℓ} → Exec S A → (A → Exec S B) → Exec S B
◌>>=◌ m f s = let (r, s') = m s in continue r f s'

abbrev pub ◌>>◌ {ℓ} : {S A B : Type ℓ} → Exec S A → Exec S B → Exec S B
m >> n = m >>= λ _. n

-- What holds of an operation behind a guard: of its refusal, and of the rest when the guard holds.
pub require_rule :
    {S A : Type 0} (P : Result A × S → Type 0) (b : Bool) (c : ℕ) (k : Exec S A) (s : S)
    → P (err c, s)
    → (b ≡ true → P (k s))
    → P ((require b c >> k) s)
require_rule P true c k s refused given = given refl
require_rule P false c k s refused given = refused

pub or_raise_rule :
    {S A B : Type 0} (P : Result B × S → Type 0) (o : Option A) (c : ℕ) (k : A → Exec S B) (s : S)
    → P (err c, s)
    → ((a : A) → o ≡ some a → P (k a s))
    → P ((or_raise o c >>= k) s)
or_raise_rule P none c k s refused given = refused
or_raise_rule P (some a) c k s refused given = given a refl
