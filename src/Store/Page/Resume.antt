-- ===== src/Store/Page/Resume.antt =====
-- internal/store/memory: pages of a list that is in the order of its sequence numbers.
use ants.Prelude.{
  ℕ, zero, suc, ◌≡◌, ◌≢◌, refl, sym, ap, subst, ◌∙◌, arith, Bool, true, false, Option, none, some,
  List, [], ◌∷◌, ◌++◌, Int64, keep, take, slt, sort, insert, All, All-keep, All-keep_test, All-take,
  All-insert, All-sort, All-map_of, Bool-cases, inl, inr,
}

abbrev pub last {ℓ} : {E : Type ℓ} → List E → Option E
last [] = none
last (e ∷ []) = some e
last (e ∷ d ∷ es) = last (d ∷ es)

some_eq {ℓ} : {A : Type ℓ} {a b : A} → some a ≡ some b → a ≡ b
some_eq h = cc h

slt_trans : (a b c : Int64) → slt a b ≡ true → slt b c ≡ true → slt a c ≡ true
slt_trans a b c h k = ground (arith, h, k)

slt_asym : (a b : Int64) → slt a b ≡ true → slt b a ≡ false
slt_asym a b h = ground (arith, h)

slt_irrefl : (a : Int64) → slt a a ≡ false
slt_irrefl a = ground arith

slt_total : (a b : Int64) → slt b a ≡ false → a ≢ b → slt a b ≡ true
slt_total a b h k = ground (arith, h, k)

module _ {E : Type 0} (seq : E → Int64) where
  abbrev pub before : E → E → Bool
  before a b = slt (seq a) (seq b)

  -- What a cursor has left.
  abbrev pub behind : Int64 → E → Bool
  behind a e = slt a (seq e)

  abbrev pub IsAscending : List E → Type 0
  IsAscending [] = Unit
  IsAscending (e ∷ es) = All (λ d. before e d ≡ true) es × IsAscending es

  abbrev pub IsDistinct : List E → Type 0
  IsDistinct [] = Unit
  IsDistinct (e ∷ es) = All (λ d. seq e ≢ seq d) es × IsDistinct es

  pub keep-IsDistinct : (p : E → Bool) (es : List E) → IsDistinct es → IsDistinct (keep p es)
  keep-IsDistinct p [] h = tt
  keep-IsDistinct p (e ∷ es) h = elim (Bool-cases (p e)) [
    | inl k ↦ rw k (All-keep (λ d. seq e ≢ seq d) p es h.0, keep-IsDistinct p es h.1)
    | inr k ↦ rw k (keep-IsDistinct p es h.1)
  ]

  pub keep-IsAscending : (p : E → Bool) (es : List E) → IsAscending es → IsAscending (keep p es)
  keep-IsAscending p [] h = tt
  keep-IsAscending p (e ∷ es) h = elim (Bool-cases (p e)) [
    | inl k ↦ rw k (All-keep (λ d. before e d ≡ true) p es h.0, keep-IsAscending p es h.1)
    | inr k ↦ rw k (keep-IsAscending p es h.1)
  ]

  insert-IsAscending :
      (e : E) (es : List E)
      → All (λ d. seq e ≢ seq d) es
      → IsAscending es
      → IsAscending (insert before e es)
  unfolding insert
  insert-IsAscending e [] n h = (tt, tt)
  insert-IsAscending e (d ∷ es) n h = elim (Bool-cases (before d e)) [
    | inl k ↦
        rw k
          (All-insert (λ c. before d c ≡ true) before e es k h.0, insert-IsAscending e es n.1 h.1)
    | inr k ↦
        let first : before e d ≡ true = slt_total (seq e) (seq d) k n.0 in
        rw k (
          (
            first,
            All-map_of _ (λ c. before e c ≡ true) (λ c. slt_trans (seq e) (seq d) (seq c) first) es
                h.0,
          ),
          h,
        )
  ]

  pub sort-IsAscending : (es : List E) → IsDistinct es → IsAscending (sort before es)
  unfolding sort
  sort-IsAscending [] h = tt
  sort-IsAscending (e ∷ es) h =
      insert-IsAscending e (sort before es) (All-sort (λ d. seq e ≢ seq d) before es h.0)
        (sort-IsAscending es h.1)

  keep-all : (p : E → Bool) (es : List E) → All (λ d. p d ≡ true) es → keep p es ≡ es
  keep-all p [] h = refl
  keep-all p (e ∷ es) h = rw h.0 (ap (λ ds. e ∷ ds) (keep-all p es h.1))

  All-last {ℓ} : (P : E → Type ℓ) (es : List E) {r : E} → All P es → last es ≡ some r → P r
  All-last P [] h k = cc k
  All-last P (e ∷ []) {r} h k = subst P (some_eq k) h.0
  All-last P (e ∷ d ∷ es) h k = All-last P (d ∷ es) h.1 k

  -- A sorted list is a page and what lies behind the page's end.
  resume_at :
      (k : ℕ) (es : List E) {r : E}
      → IsAscending es
      → last (take (suc k) es) ≡ some r
      → es ≡ take (suc k) es ++ keep (behind (seq r)) es
  resume_at k [] h l = refl
  resume_at zero (e ∷ es) {r} h l =
      subst (λ d. e ∷ es ≡ e ∷ keep (behind (seq d)) (e ∷ es)) (some_eq l)
        (ap (λ ds. e ∷ ds) (sym (rw (slt_irrefl (seq e)) (keep-all (behind (seq e)) es h.0))))
  resume_at (suc k) (e ∷ []) {r} h l =
      subst (λ d. e ∷ [] ≡ e ∷ keep (behind (seq d)) (e ∷ [])) (some_eq l)
        (ap (λ ds. e ∷ ds) (sym (rw (slt_irrefl (seq e)) refl)))
  resume_at (suc k) (e ∷ d ∷ es) {r} h l =
      let far : before e r ≡ true =
        All-last (λ c. before e c ≡ true) (take (suc k) (d ∷ es)) (All-take _ (suc k) (d ∷ es) h.0)
          l in
      ap (λ ds. e ∷ ds)
        (resume_at k (d ∷ es) h.1 l
          ∙ ap (λ ds. take (suc k) (d ∷ es) ++ ds) (sym (rw (slt_asym (seq e) (seq r) far) refl)))

  keep-behind :
      (a b : Int64) (es : List E)
      → slt a b ≡ true
      → keep (behind b) (keep (behind a) es) ≡ keep (behind b) es
  keep-behind a b [] h = refl
  keep-behind a b (e ∷ es) h = ground (arith, keep-behind a b es h, slt_trans a b (seq e) h)

  -- In an ascending list, what lies behind a cursor is the page behind it and then what lies behind
  -- the page's last element.
  pub resume :
      (a : Int64) (k : ℕ) (es : List E) {r : E}
      → IsAscending es
      → last (take (suc k) (keep (behind a) es)) ≡ some r
      → keep (behind a) es ≡ take (suc k) (keep (behind a) es) ++ keep (behind (seq r)) es
  resume a k es {r} h l =
      let far : slt a (seq r) ≡ true =
        All-last (λ c. behind a c ≡ true) (take (suc k) (keep (behind a) es))
          (All-take _ (suc k) (keep (behind a) es) (All-keep_test (behind a) es)) l in
      resume_at k (keep (behind a) es) (keep-IsAscending (behind a) es h) l
      ∙ ap (λ ds. take (suc k) (keep (behind a) es) ++ ds) (keep-behind a (seq r) es far)
