-- ===== src/Gwc/Keyed.antt =====
-- `map<uint64_t, ...>` of src/millennium/gwcMillennium.h and src/eti/gwcEti.h, as a list of partitions with
-- what is kept for each, by rising partition, which is the order that its iterator goes by.
use fosdk.Common.{ℕ, ◌≡◌, refl, Option, none, some, List, [], ◌∷◌, arith, ltb, ◌==◌, if◌then◌else◌}

abbrev pub Keyed {ℓ} : Type ℓ → Type ℓ
Keyed A = List (ℕ × A)

module _ {ℓ} {A : Type ℓ} where
  unfoldable pub lookup : ℕ → Keyed A → Option A
  lookup k [] = none
  lookup k ((j, v) ∷ m) = if j == k then some v else lookup k m

  -- `m[k] = v`
  unfoldable pub update : ℕ → A → Keyed A → Keyed A
  update k v [] = (k, v) ∷ []
  update k v ((j, w) ∷ m) =
      let rest = update k v m in
      if j == k then (k, v) ∷ m else if ltb k j then (k, v) ∷ ((j, w) ∷ m) else (j, w) ∷ rest

  pub lookup-update :
      (k j : ℕ) (v : A) (m : Keyed A)
      → lookup j (update k v m) ≡ (if k == j then some v else lookup j m)
  unfolding lookup update
  lookup-update k j v [] = refl
  lookup-update k j v ((i, w) ∷ m) = ground (arith, lookup-update k j v m)
