-- ===== src/Planner/Branch/Grammar.antt =====
-- internal/planner/planner.go: the form of a branch.
use ants.Prelude.{
  ℕ, zero, suc, ◌≡◌, ◌≤◌, ◌<◌, refl, arith, Bool, true, false, ◌&&◌, ◌||◌, ◌==◌, [], ◌∷◌, ◌++◌, map,
  Text, bytes, is_empty, is_between, length, all, Bool-cases, inl, inr,
}
use ants.Planner.Branch.{
  dash, slug_char, has_double, replace_doubles, squeeze, trim_left, trim_right, slug_for,
  branch_for,
}

abbrev pub is_slug_char : ℕ → Bool
is_slug_char c = is_between b'a' b'z' c || (is_between b'0' b'9' c || c == b'-')

abbrev pub starts_with_dash : Text → Bool
starts_with_dash [] = false
starts_with_dash (c ∷ s) = c == dash

abbrev pub ends_with_dash : Text → Bool
ends_with_dash [] = false
ends_with_dash (c ∷ []) = c == dash
ends_with_dash (c ∷ d ∷ s) = ends_with_dash (d ∷ s)

length-replace-le : (s : Text) → length (replace_doubles s) ≤ length s
unfolding replace_doubles
length-replace-le [] = omega arith
length-replace-le (c ∷ []) = omega arith
length-replace-le (c ∷ d ∷ s) = ground (arith, length-replace-le s, length-replace-le (d ∷ s))

and_left : (a b : Bool) → (a && b) ≡ true → a ≡ true
and_left true b h = refl
and_left false b h = h

and_right : (a b : Bool) → (a && b) ≡ true → b ≡ true
and_right true b h = h
and_right false b h = cc h

and_intro : (a b : Bool) → a ≡ true → b ≡ true → (a && b) ≡ true
and_intro a b h k = cc (h, k)

or_false : (a b c : Bool) → (a || c) ≡ false → b ≡ false → (a || b) ≡ false
or_false true b c h k = cc h
or_false false b c h k = k

shrinks : (s : Text) → has_double s ≡ true → length (replace_doubles s) < length s
unfolding has_double replace_doubles
shrinks [] h = cc h
shrinks (c ∷ []) h = cc h
shrinks (c ∷ d ∷ s) h = elim (Bool-cases ((c == dash) && (d == dash))) [
  | inl e ↦ rw e (omega (arith, length-replace-le s))
  | inr e ↦ rw e (omega (arith, shrinks (d ∷ s) (ground (arith, h, e))))
]

-- The rounds are enough.
squeeze-single : (fuel : ℕ) (s : Text) → length s ≤ fuel → has_double (squeeze fuel s) ≡ false
unfolding squeeze has_double
squeeze-single zero [] h = refl
squeeze-single zero (c ∷ s) h = absurd (omega (arith, h))
squeeze-single (suc fuel) s h = elim (Bool-cases (has_double s)) [
  | inl e ↦ rw e (squeeze-single fuel (replace_doubles s) (omega (arith, h, shrinks s e)))
  | inr e ↦ rw e e
]

-- A test that dashes pass.
module _ (p : ℕ → Bool) (p_dash : p dash ≡ true) where
  all-replace : (s : Text) → all p s ≡ true → all p (replace_doubles s) ≡ true
  unfolding replace_doubles
  all-replace [] h = refl
  all-replace (c ∷ []) h = h
  all-replace (c ∷ d ∷ s) h = elim (Bool-cases ((c == dash) && (d == dash))) [
    | inl e ↦ rw (e, p_dash) (all-replace s (and_right (p d) _ (and_right (p c) _ h)))
    | inr e ↦ rw (e, and_left (p c) _ h) (all-replace (d ∷ s) (and_right (p c) _ h))
  ]

  all-squeeze : (fuel : ℕ) (s : Text) → all p s ≡ true → all p (squeeze fuel s) ≡ true
  unfolding squeeze
  all-squeeze zero s h = h
  all-squeeze (suc fuel) s h = elim (Bool-cases (has_double s)) [
    | inl e ↦ rw e (all-squeeze fuel (replace_doubles s) (all-replace s h))
    | inr e ↦ rw e h
  ]

  all-trim_left : (s : Text) → all p s ≡ true → all p (trim_left s) ≡ true
  unfolding trim_left
  all-trim_left [] h = refl
  all-trim_left (c ∷ s) h = elim (Bool-cases (c == dash)) [
    | inl e ↦ rw e (all-trim_left s (and_right (p c) _ h))
    | inr e ↦ rw e h
  ]

  all-trim_right : (s : Text) → all p s ≡ true → all p (trim_right s) ≡ true
  unfolding trim_right
  all-trim_right [] h = refl
  all-trim_right (c ∷ s) h = elim (Bool-cases (is_empty (trim_right s) && (c == dash))) [
    | inl e ↦ rw e refl
    | inr e ↦ rw (e, and_left (p c) _ h) (all-trim_right s (and_right (p c) _ h))
  ]

all-map : (s : Text) → all is_slug_char (map slug_char s) ≡ true
unfolding slug_char
all-map [] = refl
all-map (c ∷ s) =
    and_intro (is_slug_char (slug_char c)) (all is_slug_char (map slug_char s)) (ground arith)
      (all-map s)

-- Trimming leaves no dash at the ends, and makes no double.
trim_left-start : (s : Text) → starts_with_dash (trim_left s) ≡ false
unfolding trim_left
trim_left-start [] = refl
trim_left-start (c ∷ s) = elim (Bool-cases (c == dash)) [
  | inl e ↦ rw e (trim_left-start s)
  | inr e ↦ rw e e
]

double-tail : (c : ℕ) (s : Text) → has_double (c ∷ s) ≡ false → has_double s ≡ false
unfolding has_double
double-tail c [] h = refl
double-tail c (d ∷ s) h = ground (arith, h)

trim_left-single : (s : Text) → has_double s ≡ false → has_double (trim_left s) ≡ false
unfolding trim_left has_double
trim_left-single [] h = refl
trim_left-single (c ∷ s) h = elim (Bool-cases (c == dash)) [
  | inl e ↦ rw e (trim_left-single s (double-tail c s h))
  | inr e ↦ rw e h
]

ends-cons :
    (c : ℕ) (s : Text)
    → (is_empty s && (c == dash)) ≡ false
    → ends_with_dash s ≡ false
    → ends_with_dash (c ∷ s) ≡ false
ends-cons c [] e h = e
ends-cons c (d ∷ s) e h = h

trim_right-end : (s : Text) → ends_with_dash (trim_right s) ≡ false
unfolding trim_right
trim_right-end [] = refl
trim_right-end (c ∷ s) = elim (Bool-cases (is_empty (trim_right s) && (c == dash))) [
  | inl e ↦ rw e refl
  | inr e ↦ rw e (ends-cons c (trim_right s) e (trim_right-end s))
]

trim_right-start : (s : Text) → starts_with_dash s ≡ false → starts_with_dash (trim_right s) ≡ false
unfolding trim_right
trim_right-start [] h = refl
trim_right-start (c ∷ s) h = ground (arith, h)

trim_right-single_cons :
    (c : ℕ) (s : Text) → has_double (c ∷ s) ≡ false → has_double (c ∷ trim_right s) ≡ false
unfolding trim_right has_double
trim_right-single_cons c [] h = refl
trim_right-single_cons c (d ∷ s) h =
    let rest = trim_right-single_cons d s (double-tail c (d ∷ s) h) in
    elim (Bool-cases (is_empty (trim_right s) && (d == dash))) [
      | inl e ↦ rw e refl
      | inr e ↦ rw e (or_false ((c == dash) && (d == dash)) _ (has_double (d ∷ s)) h rest)
    ]

trim_right-single : (s : Text) → has_double s ≡ false → has_double (trim_right s) ≡ false
unfolding trim_right has_double
trim_right-single [] h = refl
trim_right-single (c ∷ s) h = elim (Bool-cases (is_empty (trim_right s) && (c == dash))) [
  | inl e ↦ rw e refl
  | inr e ↦ rw e (trim_right-single_cons c s h)
]

-- A name of a branch behind "ants/".
abbrev pub IsBranchSlug : Text → Type 0
IsBranchSlug s =
    (is_empty s ≡ false)
    × (all is_slug_char s ≡ true)
    × (has_double s ≡ false)
    × (starts_with_dash s ≡ false)
    × (ends_with_dash s ≡ false)

slug_for-form :
    (name : Text)
    → (all is_slug_char (slug_for name) ≡ true)
      × (has_double (slug_for name) ≡ false)
      × (starts_with_dash (slug_for name) ≡ false)
      × (ends_with_dash (slug_for name) ≡ false)
unfolding slug_for
slug_for-form name =
    let slug = map slug_char name in
    let squeezed = squeeze (length slug) slug in
    (
      all-trim_right is_slug_char refl (trim_left squeezed) (
          all-trim_left is_slug_char refl squeezed
            (all-squeeze is_slug_char refl (length slug) slug (all-map name))),
      trim_right-single (trim_left squeezed)
          (trim_left-single squeezed (squeeze-single (length slug) slug (omega arith))),
      trim_right-start (trim_left squeezed) (trim_left-start squeezed),
      trim_right-end (trim_left squeezed),
    )

-- Whatever a task is called, its branch is "ants/" and then a name that is not empty, of lower-case
-- letters, digits and single dashes, with no dash at either end.
pub branch_for-IsBranchSlug :
    (name : Text) → (slug : Text) × (branch_for name ≡ bytes "ants/" ++ slug) × IsBranchSlug slug
unfolding branch_for has_double
branch_for-IsBranchSlug name = elim (Bool-cases (is_empty (slug_for name))) [
  | inl e ↦ (bytes "task", rw e refl, (refl, refl, refl, refl, refl))
  | inr e ↦
      let (chars, single, start, end) = slug_for-form name in
      (slug_for name, rw e refl, (e, chars, single, start, end))
]
