-- ===== src/Prelude/Decimal.antt =====
-- `str(n)`: the decimal digits of a number, by which the program makes its ids.
use Prim.Native.Nat.{ℕ, zero, suc, ◌+◌, ◌-◌, ◌*◌, ◌/◌, ◌%◌, ◌<◌}
use Prim.Native.Char.{Char, code}
use Prim.Native.String.{String, [], ◌∷◌, ◌++◌}
use mathlib.Core.Path.{◌≡◌, refl, ap}
use mathlib.Core.Logic.{inl, inr}
use native.Mathlib.Omega.{arith}
use text.Mathlib.TextLemmas.{append_cancel_left}
use package.neo_cloud_control_plane.Prelude.Tests.{ltb, if◌then◌else◌, Bool-cases}

digit : ℕ → Char
digit zero = "0"
digit (suc zero) = "1"
digit (suc (suc zero)) = "2"
digit (suc (suc (suc zero))) = "3"
digit (suc (suc (suc (suc zero)))) = "4"
digit (suc (suc (suc (suc (suc zero))))) = "5"
digit (suc (suc (suc (suc (suc (suc zero)))))) = "6"
digit (suc (suc (suc (suc (suc (suc (suc zero))))))) = "7"
digit (suc (suc (suc (suc (suc (suc (suc (suc zero)))))))) = "8"
digit _ = "9"

digits : ℕ → ℕ → String → String
digits zero n acc = acc
digits (suc f) n acc =
    let rest = digits f (n / 10) (digit (n % 10) ∷ acc) in
    if ltb n 10 then digit (n % 10) ∷ acc else rest

unfoldable pub decimal : ℕ → String
unfolding digits digit
decimal n = digits (suc n) n []

-- what the digits stand for
value : ℕ → String → ℕ
value a [] = a
value a (c ∷ s) = value (a * 10 + (code c - 48)) s

code-digit : (d : ℕ) → d < 10 → code (digit d) ≡ 48 + d
unfolding digit
code-digit zero h = refl
code-digit (suc zero) h = refl
code-digit (suc (suc zero)) h = refl
code-digit (suc (suc (suc zero))) h = refl
code-digit (suc (suc (suc (suc zero)))) h = refl
code-digit (suc (suc (suc (suc (suc zero))))) h = refl
code-digit (suc (suc (suc (suc (suc (suc zero)))))) h = refl
code-digit (suc (suc (suc (suc (suc (suc (suc zero))))))) h = refl
code-digit (suc (suc (suc (suc (suc (suc (suc (suc zero)))))))) h = refl
code-digit (suc (suc (suc (suc (suc (suc (suc (suc (suc zero))))))))) h = refl
code-digit (suc (suc (suc (suc (suc (suc (suc (suc (suc (suc d)))))))))) h = absurd (omega arith)

value-digits : (f n : ℕ) (acc : String) → n < f → value 0 (digits f n acc) ≡ value n acc
unfolding digits value
value-digits zero n acc h = absurd (omega arith)
value-digits (suc f) n acc h =
    let d : code (digit (n % 10)) ≡ 48 + n % 10 = code-digit (n % 10) (omega arith) in
    elim (Bool-cases (ltb n 10)) [
      | inl small ↦ rw small (ap (λ t. value t acc) (ground arith))
      | inr large ↦
          rw (large, value-digits f (n / 10) (digit (n % 10) ∷ acc) (ground arith))
            (ap (λ t. value t acc) (omega arith))
    ]

-- Different numbers have different digits.
pub decimal_inj : (m n : ℕ) → decimal m ≡ decimal n → m ≡ n
unfolding decimal value
decimal_inj m n e =
    cc (value-digits (suc m) m [] (omega arith), value-digits (suc n) n [] (omega arith))

-- So an id that is a prefix and a number shows the number.
pub id_inj : (p : String) (m n : ℕ) → p ++ decimal m ≡ p ++ decimal n → m ≡ n
id_inj p m n e = decimal_inj m n (append_cancel_left p _ _ e)
