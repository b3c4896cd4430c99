-- ===== src/Datastore/Assoc.antt =====
-- Go maps from text, as association lists. The order of the list stands for the order in which
-- `range` visits the map, so what is proved of every list holds for every such order.
use mev_boost_relay.Prelude.{
  ◌≡◌, refl, Option, none, some, List, [], ◌∷◌, arith, Bytes, bytes_eq, bytes_eq_iff, if◌then◌else◌,
  length,
}

module _ {ℓ} {V : Type ℓ} where
  unfoldable pub lookup : Bytes → List (Bytes × V) → Option V
  lookup k [] = none
  lookup k ((j, v) ∷ m) = if bytes_eq j k then some v else lookup k m

  unfoldable pub insert : Bytes → V → List (Bytes × V) → List (Bytes × V)
  insert k v [] = (k, v) ∷ []
  insert k v ((j, w) ∷ m) = if bytes_eq j k then (k, v) ∷ m else (j, w) ∷ insert k v m

  -- Every entry of the key goes.
  unfoldable pub delete : Bytes → List (Bytes × V) → List (Bytes × V)
  delete k [] = []
  delete k ((j, w) ∷ m) = let rest = delete k m in if bytes_eq j k then rest else (j, w) ∷ rest

  pub lookup-insert :
      (k j : Bytes) (v : V) (m : List (Bytes × V))
      → lookup j (insert k v m) ≡ (if bytes_eq k j then some v else lookup j m)
  unfolding lookup insert
  lookup-insert k j v [] = refl
  lookup-insert k j v ((i, w) ∷ m) =
      ground (arith, bytes_eq_iff k j, bytes_eq_iff i k, bytes_eq_iff i j, lookup-insert k j v m)

  pub lookup-delete :
      (k j : Bytes) (m : List (Bytes × V))
      → lookup j (delete k m) ≡ (if bytes_eq k j then none else lookup j m)
  unfolding lookup delete
  lookup-delete k j [] = ground arith
  lookup-delete k j ((i, w) ∷ m) =
      ground (arith, bytes_eq_iff k j, bytes_eq_iff i k, bytes_eq_iff i j, lookup-delete k j m)

  pub insert-ne-nil : (k : Bytes) (v : V) (m : List (Bytes × V)) → length (insert k v m) ≡ 0 → ⊥
  unfolding insert
  insert-ne-nil k v [] h = omega arith
  insert-ne-nil k v ((j, w) ∷ m) h = ground arith
