-- ===== src/Store/Specs/Latest.antt =====
-- internal/store/memory/threads.go, LatestForThread: the specification that it picks.
use ants.Prelude.{
  ◌≡◌, refl, arith, true, false, Option, none, some, List, [], ◌∷◌, Text, Int64, slt, All,
  Bool-cases, Option-cases, inl, inr, ◌⊎◌, sym, subst, ◌∙◌,
}
use ants.Domain.Errors.{ok}
use ants.Domain.Spec.{Spec}
use ants.Store.Rows.{values}
use ants.Store.Database.{Database}
use ants.Store.Specs.{is_of, newer, pick_latest, latest_for_thread}

module _ (tenant_id thread_id : Text) where
  -- Some element of a list that is the thread's.
  abbrev pub IsOneOf : Spec → List Spec → Type 0
  IsOneOf s [] = ⊥
  IsOneOf s (x ∷ xs) = ((x ≡ s) × (is_of tenant_id thread_id s ≡ true)) ⊎ IsOneOf s xs

  -- A specification of the thread has no higher version.
  abbrev pub IsNotAbove : Spec → Spec → Type 0
  IsNotAbove latest s = is_of tenant_id thread_id s ≡ true → slt latest.version s.version ≡ false

  newer-keeps :
      (a s x : Spec)
      → slt a.version x.version ≡ false
      → slt (newer (some a) s).version x.version ≡ false
  newer-keeps a s x h = ground (arith, h)

  newer-above : (o : Option Spec) (s : Spec) → slt (newer o s).version s.version ≡ false
  newer-above none s = ground arith
  newer-above (some a) s = ground arith

  newer-cases : (a s : Spec) → (newer (some a) s ≡ a) ⊎ (newer (some a) s ≡ s)
  newer-cases a s = elim (Bool-cases (slt a.version s.version)) [
    | inl e ↦ inr (rw e refl)
    | inr e ↦ inl (rw e refl)
  ]

  not_below : (v : Int64) → slt v v ≡ false
  not_below v = ground arith

  below_trans : (a b c : Int64) → slt a b ≡ false → slt b c ≡ false → slt a c ≡ false
  below_trans a b c h k = ground (arith, h, k)

  later :
      {a l : Spec} (x : Spec) (xs : List Spec)
      → (a ≡ l) ⊎ IsOneOf l xs
      → (a ≡ l) ⊎ IsOneOf l (x ∷ xs)
  later x xs (inl e) = inl e
  later x xs (inr m) = inr (inr m)

  -- The candidate behind an element of the thread's is the one before, or that element.
  joined :
      (a x : Spec) (xs : List Spec) {l : Spec}
      → is_of tenant_id thread_id x ≡ true
      → (newer (some a) x ≡ l) ⊎ IsOneOf l xs
      → (a ≡ l) ⊎ IsOneOf l (x ∷ xs)
  joined a x xs e (inr m) = inr (inr m)
  joined a x xs {l} e (inl k) = elim (newer-cases a x) [
    | inl old ↦ inl (sym old ∙ k)
    | inr new ↦
        let same : x ≡ l = sym new ∙ k in
        inr (inl (same, subst (λ s. is_of tenant_id thread_id s ≡ true) same e))
  ]

  -- From a candidate on.
  pick-some :
      (a : Spec) (xs : List Spec) {l : Spec}
      → pick_latest tenant_id thread_id (some a) xs ≡ some l
      → ((a ≡ l) ⊎ IsOneOf l xs) × (slt l.version a.version ≡ false) × All (IsNotAbove l) xs
  unfolding pick_latest
  pick-some a [] {l} h =
      let same : a ≡ l = cc h in
      (
        inl same,
        subst (λ (s : Spec). slt s.version a.version ≡ false) same (not_below a.version),
        tt,
      )
  pick-some a (x ∷ xs) {l} h = elim (Bool-cases (is_of tenant_id thread_id x)) [
    | inr e ↦
        let (from, up, rest) = pick-some a xs (ground (arith, h, e)) in
        (later x xs from, up, (λ k. cc (e, k), rest))
    | inl e ↦
        let b = newer (some a) x in
        let (from, up, rest) = pick-some b xs (ground (arith, h, e)) in
        (
          joined a x xs e from,
          below_trans l.version b.version a.version up (newer-keeps a x a (not_below a.version)),
          ((λ k. below_trans l.version b.version x.version up (newer-above (some a) x)), rest),
        )
  ]

  first :
      (x : Spec) (xs : List Spec) {l : Spec}
      → is_of tenant_id thread_id x ≡ true
      → (x ≡ l) ⊎ IsOneOf l xs
      → IsOneOf l (x ∷ xs)
  first x xs e (inr m) = inr m
  first x xs e (inl same) = inl (same, subst (λ s. is_of tenant_id thread_id s ≡ true) same e)

  pick-none :
      (xs : List Spec) {l : Spec}
      → pick_latest tenant_id thread_id none xs ≡ some l
      → IsOneOf l xs × All (IsNotAbove l) xs
  unfolding pick_latest
  pick-none [] {l} h = cc h
  pick-none (x ∷ xs) {l} h = elim (Bool-cases (is_of tenant_id thread_id x)) [
    | inr e ↦
        let (from, rest) = pick-none xs (ground (arith, h, e)) in (inr from, (λ k. cc (e, k), rest))
    | inl e ↦
        let (from, up, rest) = pick-some x xs (ground (arith, h, e)) in
        (first x xs e from, (λ k. up, rest))
  ]

-- The latest specification of a thread is one of the thread's own, and no other specification of
-- that thread and tenant has a higher version.
pub latest_for_thread-ok :
    (tenant_id thread_id : Text) (db : Database) (latest : Spec)
    → latest_for_thread tenant_id thread_id db ≡ ok latest
    → IsOneOf tenant_id thread_id latest (values db.specs)
      × All (IsNotAbove tenant_id thread_id latest) (values db.specs)
unfolding latest_for_thread
latest_for_thread-ok tenant_id thread_id db latest h =
    elim (Option-cases (pick_latest tenant_id thread_id none (values db.specs))) [
      | inl e ↦ cc (h, e)
      | inr (l, e) ↦ pick-none tenant_id thread_id (values db.specs) (ground (arith, h, e))
    ]
