-- ===== src/Store/Assoc/Unique.antt =====
-- Maps whose entries have distinct keys, as every Go map has, and selections of their entries.
use ants.Prelude.{
  ℕ, zero, suc, ◌≡◌, refl, ap, Bool, false, none, some, [], ◌∷◌, Text, text_eq, text_eq_iff, arith,
  Bool-cases, inl, inr, All, All-map_of, keep, take, sort, insert,
}
use ants.Store.Assoc.{Assoc, lookup, put, remove}
use ants.Store.Assoc.Laws.{lookup-put, lookup-remove}

module _ {ℓ} {V : Type ℓ} where
  abbrev pub IsUnique : Assoc V → Type ℓ
  IsUnique [] = Unit
  IsUnique ((k, v) ∷ m) = (lookup k m ≡ none) × IsUnique m

  pub put-IsUnique : (k : Text) (v : V) (m : Assoc V) → IsUnique m → IsUnique (put k v m)
  unfolding put lookup
  put-IsUnique k v [] h = (refl, tt)
  put-IsUnique k v ((j, w) ∷ m) h = elim (Bool-cases (text_eq j k)) [
    | inl e ↦ rw e h
    | inr e ↦ rw e (
      ground (arith, lookup-put k j v m, text_eq_iff k j, text_eq_iff j k),
      put-IsUnique k v m h.1,
    )
  ]

  pub remove-IsUnique : (k : Text) (m : Assoc V) → IsUnique m → IsUnique (remove k m)
  unfolding remove lookup
  remove-IsUnique k [] h = tt
  remove-IsUnique k ((j, w) ∷ m) h = elim (Bool-cases (text_eq j k)) [
    | inl e ↦ rw e (remove-IsUnique k m h.1)
    | inr e ↦ rw e (ground (arith, lookup-remove k j m), remove-IsUnique k m h.1)
  ]

  -- An entry of a map is what a look-up of its key finds.
  abbrev pub IsEntryOf : Assoc V → Text × V → Type ℓ
  IsEntryOf m row = lookup row.0 m ≡ some row.1

  lookup-cons_ne :
      (k j : Text) (v : V) (m : Assoc V) {w : V}
      → lookup k m ≡ none
      → lookup j m ≡ some w
      → lookup j ((k, v) ∷ m) ≡ some w
  unfolding lookup
  lookup-cons_ne k j v m absent found = ground (arith, text_eq_iff k j, ap (λ t. lookup t m))

  lookup_self : (k : Text) (v : V) (m : Assoc V) → lookup k ((k, v) ∷ m) ≡ some v
  unfolding lookup
  lookup_self k v m = ground (arith, text_eq_iff k k)

  pub entries : (m : Assoc V) → IsUnique m → All (IsEntryOf m) m
  entries [] h = tt
  entries ((k, v) ∷ m) h = (
    lookup_self k v m,
    All-map_of (IsEntryOf m) (IsEntryOf ((k, v) ∷ m)) (λ row e. lookup-cons_ne k row.0 v m h.0 e) m
        (entries m h.1),
  )

  -- Selecting, cutting and sorting entries keeps their keys distinct.
  lookup-keep-none :
      (p : Text × V → Bool) (k : Text) (m : Assoc V)
      → lookup k m ≡ none
      → lookup k (keep p m) ≡ none
  unfolding lookup
  lookup-keep-none p k [] h = refl
  lookup-keep-none p k ((j, w) ∷ m) h = ground (arith, lookup-keep-none p k m)

  pub keep-IsUnique : (p : Text × V → Bool) (m : Assoc V) → IsUnique m → IsUnique (keep p m)
  keep-IsUnique p [] h = tt
  keep-IsUnique p ((j, w) ∷ m) h = elim (Bool-cases (p (j, w))) [
    | inl e ↦ rw e (lookup-keep-none p j m h.0, keep-IsUnique p m h.1)
    | inr e ↦ rw e (keep-IsUnique p m h.1)
  ]

  lookup-take-none :
      (n : ℕ) (k : Text) (m : Assoc V) → lookup k m ≡ none → lookup k (take n m) ≡ none
  unfolding lookup
  lookup-take-none zero k m h = refl
  lookup-take-none (suc n) k [] h = refl
  lookup-take-none (suc n) k ((j, w) ∷ m) h = ground (arith, lookup-take-none n k m)

  pub take-IsUnique : (n : ℕ) (m : Assoc V) → IsUnique m → IsUnique (take n m)
  take-IsUnique zero m h = tt
  take-IsUnique (suc n) [] h = tt
  take-IsUnique (suc n) ((j, w) ∷ m) h = (lookup-take-none n j m h.0, take-IsUnique n m h.1)

  module _ (lt : Text × V → Text × V → Bool) where
    lookup-insert-none :
        (k j : Text) (v : V) (m : Assoc V)
        → text_eq j k ≡ false
        → lookup k m ≡ none
        → lookup k (insert lt (j, v) m) ≡ none
    unfolding lookup insert
    lookup-insert-none k j v [] e h = ground arith
    lookup-insert-none k j v ((i, w) ∷ m) e h = ground (arith, lookup-insert-none k j v m e)

    insert-IsUnique :
        (k : Text) (v : V) (m : Assoc V)
        → lookup k m ≡ none
        → IsUnique m
        → IsUnique (insert lt (k, v) m)
    unfolding insert lookup
    insert-IsUnique k v [] h u = (refl, tt)
    insert-IsUnique k v ((j, w) ∷ m) h u = elim (Bool-cases (lt (j, w) (k, v))) [
      | inl e ↦ rw e (
        lookup-insert-none j k v m (ground (arith, text_eq_iff j k, text_eq_iff k j)) u.0,
        insert-IsUnique k v m (ground arith) u.1,
      )
      | inr e ↦ rw e (h, u)
    ]

    lookup-sort-none : (k : Text) (m : Assoc V) → lookup k m ≡ none → lookup k (sort lt m) ≡ none
    unfolding lookup sort
    lookup-sort-none k [] h = refl
    lookup-sort-none k ((j, v) ∷ m) h =
        lookup-insert-none k j v (sort lt m) (ground arith) (lookup-sort-none k m (ground arith))

    pub sort-IsUnique : (m : Assoc V) → IsUnique m → IsUnique (sort lt m)
    unfolding sort
    sort-IsUnique [] h = tt
    sort-IsUnique ((k, v) ∷ m) h =
        insert-IsUnique k v (sort lt m) (lookup-sort-none k m h.0) (sort-IsUnique m h.1)
