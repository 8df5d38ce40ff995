-- ===== src/Prelude/Sorting.antt =====
-- Python's stable `sorted`, by insertion, and membership.
use mathlib.Core.Path.{◌≡◌, refl}
use mathlib.Core.Logic.{◌⊎◌, inl, inr}
use Prim.Native.Nat.{ℕ, ◌+◌}
use mathlib.Core.Bool.{Bool, true}
use mathlib.Core.List.{List, [], ◌∷◌, ◌++◌}
use native.Mathlib.Omega.{arith}
use neo_cloud_control_plane.Prelude.Tests.{Bool-cases, if◌then◌else◌}
use neo_cloud_control_plane.Prelude.Lists.{All, select}

module _ {ℓ} {A : Type ℓ} where
  module _ (before : A → A → Bool) where
    -- `x` goes before the first entry that it may stand before
    unfoldable pub insert_sorted : A → List A → List A
    insert_sorted x [] = x ∷ []
    insert_sorted x (y ∷ ys) =
        let rest = insert_sorted x ys in if before x y then x ∷ y ∷ ys else y ∷ rest

    unfoldable pub sort_by : List A → List A
    unfolding insert_sorted
    sort_by [] = []
    sort_by (x ∷ xs) = insert_sorted x (sort_by xs)

    module _ {κ} (P : A → Type κ) where
      All-insert_sorted : (x : A) (xs : List A) → P x → All P xs → All P (insert_sorted x xs)
      unfolding insert_sorted
      All-insert_sorted x [] p a = (p, tt)
      All-insert_sorted x (y ∷ ys) p a = elim (Bool-cases (before x y)) [
        | inl b ↦ rw b (p, a)
        | inr f ↦ rw f (a.0, All-insert_sorted x ys p a.1)
      ]

      -- What holds of each entry of a list holds of each entry of it sorted.
      pub All-sort_by : (xs : List A) → All P xs → All P (sort_by xs)
      unfolding sort_by
      All-sort_by [] a = tt
      All-sort_by (x ∷ xs) a = All-insert_sorted x (sort_by xs) a.0 (All-sort_by xs a.1)

    -- A sum over a list is that over the list sorted.
    module _ (f : A → ℕ) where
      abbrev pub sum_by : List A → ℕ
      sum_by [] = 0
      sum_by (x ∷ xs) = f x + sum_by xs

      sum_by-insert_sorted : (x : A) (xs : List A) → sum_by (insert_sorted x xs) ≡ f x + sum_by xs
      unfolding insert_sorted
      sum_by-insert_sorted x [] = refl
      sum_by-insert_sorted x (y ∷ ys) = elim (Bool-cases (before x y)) [
        | inl b ↦ rw b refl
        | inr n ↦ rw n (omega (arith, sum_by-insert_sorted x ys))
      ]

      pub sum_by-sort_by : (xs : List A) → sum_by (sort_by xs) ≡ sum_by xs
      unfolding sort_by
      sum_by-sort_by [] = refl
      sum_by-sort_by (x ∷ xs) =
          omega (arith, sum_by-insert_sorted x (sort_by xs), sum_by-sort_by xs)

module _ {A : Type 0} where
  abbrev pub In : A → List A → Type 0
  In x [] = ⊥
  In x (y ∷ ys) = (x ≡ y) ⊎ In x ys

  pub All-In : (xs ys : List A) → ((x : A) → In x xs → In x ys) → All (λ x. In x ys) xs
  All-In [] ys h = tt
  All-In (x ∷ xs) ys h = (h x (inl refl), All-In xs ys (λ z m. h z (inr m)))

  module _ (P : A → Type 0) where
    pub All-select :
        (p : A → Bool) (xs : List A) → All P xs → All (λ x. P x × (p x ≡ true)) (select p xs)
    All-select p [] a = tt
    All-select p (x ∷ xs) a = elim (Bool-cases (p x)) [
      | inl y ↦ rw y ((a.0, y), All-select p xs a.1)
      | inr n ↦ rw n (All-select p xs a.1)
    ]

    pub All-append : (xs ys : List A) → All P xs → All P ys → All P (xs ++ ys)
    All-append [] ys a b = b
    All-append (x ∷ xs) ys a b = (a.0, All-append xs ys a.1 b)
