-- ===== src/Store/Assoc/Laws.antt =====
-- Reading a map after a write.
use ants.Prelude.{◌≡◌, refl, none, some, [], ◌∷◌, Text, text_eq, text_eq_iff, if◌then◌else◌, arith}
use ants.Store.Assoc.{Assoc, lookup, put, remove}

module _ {ℓ} {V : Type ℓ} where
  pub lookup-put :
      (k j : Text) (v : V) (m : Assoc V)
      → lookup j (put k v m) ≡ (if text_eq k j then some v else lookup j m)
  unfolding lookup put
  lookup-put k j v [] = refl
  lookup-put k j v ((i, w) ∷ m) =
      ground (arith, text_eq_iff i k, text_eq_iff k j, text_eq_iff i j, lookup-put k j v m)

  pub lookup-remove :
      (k j : Text) (m : Assoc V)
      → lookup j (remove k m) ≡ (if text_eq k j then none else lookup j m)
  unfolding lookup remove
  lookup-remove k j [] = ground arith
  lookup-remove k j ((i, w) ∷ m) =
      ground (arith, text_eq_iff i k, text_eq_iff k j, text_eq_iff i j, lookup-remove k j m)
