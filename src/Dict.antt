-- ===== src/Dict.antt =====
-- Python's `dict` with text keys, as an association list in insertion order.
pub mod Laws
use neo_cloud_control_plane.Prelude.{
  String, Bool, Option, none, some, List, [], ◌∷◌, map, ◌==◌, if◌then◌else◌, is_some,
}

abbrev pub Dict {ℓ} : Type ℓ → Type ℓ
Dict V = List (String × V)

module _ {ℓ} {V : Type ℓ} where
  -- `d.get(k)`
  unfoldable pub get : String → Dict V → Option V
  get k [] = none
  get k ((j, v) ∷ d) = if j == k then some v else get k d

  -- `d[k] = v`: a key that is there keeps its place
  unfoldable pub put : String → V → Dict V → Dict V
  put k v [] = (k, v) ∷ []
  put k v ((j, w) ∷ d) = if j == k then (j, v) ∷ d else (j, w) ∷ put k v d

  -- `d.pop(k, None)`; a dict holds a key once
  unfoldable pub pop : String → Dict V → Dict V
  pop k [] = []
  pop k ((j, v) ∷ d) = let rest = pop k d in if j == k then rest else (j, v) ∷ rest

  -- `k in d`
  abbrev pub has : String → Dict V → Bool
  has k d = is_some (get k d)

  -- `d.values()`
  abbrev pub values : Dict V → List V
  values = map (λ e. e.1)

  -- `x = d[k]; x.field = …`: a change of the object under a key, where there is one
  unfoldable pub update : String → (V → V) → Dict V → Dict V
  update k f d = elim (get k d) [ none ↦ d | some v ↦ put k (f v) d ]
