-- ===== src/Store/Page/Cut.antt =====
-- internal/store/memory: the loops cut the first elements that are wanted.
use ants.Prelude.{
  ℕ, zero, suc, ◌+◌, ◌≡◌, ◌<◌, refl, arith, Bool, true, false, List, [], ◌∷◌, Int64, keep, take,
  is_pos, if◌then◌else◌, Bool-cases, inl, inr, sign_bit, word_mod,
}
use ants.Store.Page.{collect, collect_below}

module _ {ℓ} {E : Type ℓ} (wanted : E → Bool) where
  -- What a page is: no more elements than the limit, if there is one.
  abbrev pub first_of : (limit : Int64) → List E → List E
  first_of limit es = if is_pos limit then take limit (keep wanted es) else keep wanted es

  collect-any :
      (limit : Int64) (n : ℕ) (es : List E)
      → is_pos limit ≡ false
      → collect wanted limit n es ≡ keep wanted es
  unfolding collect
  collect-any limit n [] h = refl
  collect-any limit n (e ∷ es) h =
      ground (arith, collect-any limit (suc n) es, collect-any limit n es)

  collect_below-any :
      (limit : Int64) (n : ℕ) (es : List E)
      → is_pos limit ≡ false
      → collect_below wanted limit n es ≡ keep wanted es
  unfolding collect_below
  collect_below-any limit n [] h = refl
  collect_below-any limit n (e ∷ es) h =
      ground (arith, collect_below-any limit (suc n) es, collect_below-any limit n es)

  -- Behind `n` elements there is room for `k` more.
  collect-room :
      (limit : Int64) (k n : ℕ) (es : List E)
      → limit ≡ suc k + n
      → limit < sign_bit
      → collect wanted limit n es ≡ take (suc k) (keep wanted es)
  unfolding collect
  collect-room limit k n [] h b = refl
  collect-room limit zero n (e ∷ es) h b = elim (Bool-cases (wanted e)) [
    | inl w ↦ ground (arith, w, h, b)
    | inr w ↦ ground (arith, w, collect-room limit zero n es h b)
  ]
  collect-room limit (suc k) n (e ∷ es) h b = elim (Bool-cases (wanted e)) [
    | inl w ↦ ground (arith, w, h, b, collect-room limit k (suc n) es (omega arith) b)
    | inr w ↦ ground (arith, w, collect-room limit (suc k) n es h b)
  ]

  collect_below-room :
      (limit : Int64) (k n : ℕ) (es : List E)
      → limit ≡ k + n
      → 0 < limit
      → limit < sign_bit
      → collect_below wanted limit n es ≡ take k (keep wanted es)
  unfolding collect_below
  collect_below-room limit zero n [] h p b = refl
  collect_below-room limit (suc k) n [] h p b = refl
  collect_below-room limit zero n (e ∷ es) h p b = ground (arith, h, p, b)
  collect_below-room limit (suc k) n (e ∷ es) h p b = elim (Bool-cases (wanted e)) [
    | inl w ↦ ground (arith, w, h, p, b, collect_below-room limit k (suc n) es (omega arith) p b)
    | inr w ↦ ground (arith, w, h, p, b, collect_below-room limit (suc k) n es h p b)
  ]

  positive-lt : (a : Int64) → is_pos a ≡ true → a < sign_bit
  positive-lt a h = ground (arith, h)

  -- Both loops cut the first elements that are wanted, as many as the limit says, or all where there
  -- is no limit, which zero and a negative number say.
  pub collect-eq :
      (limit : Int64) (es : List E)
      → limit < word_mod
      → (collect wanted limit 0 es ≡ first_of limit es)
        × (collect_below wanted limit 0 es ≡ first_of limit es)
  collect-eq zero es b = (collect-any 0 0 es refl, collect_below-any 0 0 es refl)
  collect-eq (suc k) es b = elim (Bool-cases (is_pos (suc k))) [
    | inr h ↦ rw h (collect-any (suc k) 0 es h, collect_below-any (suc k) 0 es h)
    | inl h ↦ rw h (
      collect-room (suc k) k 0 es (omega arith) (positive-lt (suc k) h),
      collect_below-room (suc k) (suc k) 0 es (omega arith) (omega arith) (positive-lt (suc k) h),
    )
  ]
