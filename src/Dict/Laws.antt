-- ===== src/Dict/Laws.antt =====
-- What `get` returns after each operation.
use neo_cloud_control_plane.Prelude.{
  String, ◌≡◌, refl, none, some, [], ◌∷◌, arith, ◌==◌, eq_iff, eq_refl, if◌then◌else◌, map_option,
  Option-cases, Bool-cases, sym, ap, ◌∙◌, ◌≢◌, inl, inr, All,
}
use neo_cloud_control_plane.Dict.{Dict, get, put, pop, update}

module _ {ℓ} {V : Type ℓ} where
  pub get-put :
      (k j : String) (v : V) (d : Dict V) → get j (put k v d) ≡ (if k == j then some v else get j d)
  unfolding get put
  get-put k j v [] = refl
  get-put k j v ((i, w) ∷ d) = ground (arith, eq_iff k j, eq_iff i k, eq_iff i j, get-put k j v d)

  pub put-put : (k : String) (v w : V) (d : Dict V) → put k v (put k w d) ≡ put k v d
  unfolding put
  put-put k v w [] = ground (arith, eq_iff k k)
  put-put k v w ((i, x) ∷ d) = ground (arith, put-put k v w d)

  pub put-same : (k : String) (v : V) (d : Dict V) → get k d ≡ some v → put k v d ≡ d
  unfolding get put
  put-same k v [] e = absurd (ground (arith, e))
  put-same k v ((j, x) ∷ d) e = ground (arith, e, put-same k v d)

  pub get-pop : (k j : String) (d : Dict V) → get j (pop k d) ≡ (if k == j then none else get j d)
  unfolding get pop
  get-pop k j [] = ground arith
  get-pop k j ((i, w) ∷ d) = ground (arith, eq_iff k j, eq_iff i k, eq_iff i j, get-pop k j d)

  pub get-update :
      (k j : String) (f : V → V) (d : Dict V)
      → get j (update k f d) ≡ (if k == j then map_option f (get k d) else get j d)
  unfolding update
  get-update k j f d = elim (Option-cases (get k d)) [
    | inl e ↦ rw (e, update) (ground (arith, eq_iff k j))
    | inr (v, e) ↦ rw (e, update) (rw get-put)
  ]

-- No key stands twice, as in a Python dict.
abbrev pub IsDict {ℓ} : {V : Type ℓ} → Dict V → Type ℓ
IsDict [] = Unit
IsDict ((k, v) ∷ d) = (get k d ≡ none) × IsDict d

module _ {ℓ} {V : Type ℓ} where
  pub put-IsDict : (k : String) (v : V) (d : Dict V) → IsDict d → IsDict (put k v d)
  unfolding put
  put-IsDict k v [] h = (unfold get in refl, tt)
  put-IsDict k v ((j, w) ∷ d) h = elim (Bool-cases (j == k)) [
    | inl y ↦ rw y h
    | inr n ↦
        rw n
          (rw (get-put k j v d) (ground (arith, eq_iff j k, eq_iff k j, h.0)), put-IsDict k v d h.1)
  ]

  pub get-head : (j : String) (v : V) (d : Dict V) → get j ((j, v) ∷ d) ≡ some v
  unfolding get
  get-head j v d = rw eq_refl

  -- what is found behind the first entry is not under its key
  pub get-tail :
      (j k : String) (w v : V) (d : Dict V)
      → get j d ≡ none
      → get k d ≡ some v
      → get k ((j, w) ∷ d) ≡ some v
  unfolding get
  get-tail j k w v d fresh e = elim (Bool-cases (j == k)) [
    | inl y ↦ absurd (none≢some (sym fresh ∙ ap (λ t. get t d) ((eq_iff j k).0 y) ∙ e))
    | inr n ↦ rw n e
  ]
    where
      none≢some : none ≢ some v
      none≢some p = cc

-- A property of all entries, keys included.
abbrev pub Entries {ℓ κ} : {V : Type ℓ} → (String → V → Type κ) → Dict V → Type κ
Entries P d = All (λ e. P e.0 e.1) d

module _ {ℓ κ} {V : Type ℓ} (P : String → V → Type κ) where
  pub Entries-get : (k : String) (v : V) (d : Dict V) → Entries P d → get k d ≡ some v → P k v
  unfolding get
  Entries-get k v [] h e = cc
  Entries-get k v ((j, w) ∷ d) h e = ground (arith, eq_iff j k, Entries-get k v d, h.0)

  pub Entries-put : (k : String) (v : V) (d : Dict V) → Entries P d → P k v → Entries P (put k v d)
  unfolding put
  Entries-put k v [] h p = (p, tt)
  Entries-put k v ((j, w) ∷ d) h p = ground (arith, eq_iff j k, Entries-put k v d h.1 p)
