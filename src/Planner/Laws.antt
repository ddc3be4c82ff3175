-- ===== src/Planner/Laws.antt =====
-- internal/planner/planner.go: which requests are planned, and what a catalog guarantees.
use ants.Prelude.{
  ◌≡◌, ◌↔◌, inl, inr, refl, sym, ap, subst, ◌∙◌, arith, Bool, true, false, Option, List, [], ◌∷◌,
  ◌++◌, Text, all, keep, All, Bool-cases,
}
use ants.Domain.Errors.{ok, bind-ok}
use ants.Planner.{
  PlanInput, Output, Capability, Catalog, has_prefix, contains, choose, render, parse_catalog,
  matches, plan,
}

-- `contains` finds what stands somewhere in between.
has_prefix-append : (s p : Text) → has_prefix s p ≡ true → (b : Text) × (s ≡ p ++ b)
unfolding has_prefix
has_prefix-append s [] h = (s, refl)
has_prefix-append [] (d ∷ p) h = cc h
has_prefix-append (c ∷ s) (d ∷ p) h =
    let (b, e) = has_prefix-append s p (ground (arith, h)) in
    let same : c ≡ d = ground (arith, h) in (b, cc (same, e))

append-has_prefix : (p b : Text) → has_prefix (p ++ b) p ≡ true
unfolding has_prefix
append-has_prefix [] b = refl
append-has_prefix (d ∷ p) b = ground (arith, append-has_prefix p b)

contains→infix :
    (s sub : Text) → contains s sub ≡ true → (a : Text) × (b : Text) × (s ≡ a ++ sub ++ b)
unfolding contains
contains→infix [] [] h = ([], [], refl)
contains→infix [] (d ∷ p) h = cc h
contains→infix (c ∷ s) sub h = elim (Bool-cases (has_prefix (c ∷ s) sub)) [
  | inl e ↦ let (b, k) = has_prefix-append (c ∷ s) sub e in ([], b, k)
  | inr e ↦
      let (a, b, k) = contains→infix s sub (ground (arith, h, e)) in (c ∷ a, b, ap (λ t. c ∷ t) k)
]

infix→contains : (a b sub : Text) → contains (a ++ sub ++ b) sub ≡ true
unfolding contains
infix→contains [] [] [] = refl
infix→contains [] (c ∷ b) [] = ground (arith, append-has_prefix [] (c ∷ b))
infix→contains [] b (d ∷ p) = ground (arith, append-has_prefix (d ∷ p) b)
infix→contains (c ∷ a) b sub = ground (arith, infix→contains a b sub)

contains_iff :
    (s sub : Text) → (contains s sub ≡ true) ↔ ((a : Text) × (b : Text) × (s ≡ a ++ sub ++ b))
contains_iff s sub = (
  contains→infix s sub,
  λ (a, b, e). subst (λ t. contains t sub ≡ true) (sym e) (infix→contains a b sub),
)

-- Exactly one element passes a test.
abbrev pub IsOnly : (Capability → Bool) → Capability → List Capability → Type 0
IsOnly p cap caps =
    (pre : List Capability) × (post : List Capability) × (caps ≡ pre ++ cap ∷ post)
    × All (λ c. p c ≡ false) pre
    × (p cap ≡ true)
    × All (λ c. p c ≡ false) post

keep-none :
    (p : Capability → Bool) (caps : List Capability)
    → keep p caps ≡ []
    → All (λ c. p c ≡ false) caps
keep-none p [] h = tt
keep-none p (c ∷ caps) h = elim (Bool-cases (p c)) [
  | inl e ↦ cc (h, e)
  | inr e ↦ (e, keep-none p caps (ground (arith, h, e)))
]

keep-all_false :
    (p : Capability → Bool) (caps : List Capability)
    → All (λ c. p c ≡ false) caps
    → keep p caps ≡ []
keep-all_false p [] h = refl
keep-all_false p (c ∷ caps) h = rw h.0 (keep-all_false p caps h.1)

keep-single :
    (p : Capability → Bool) (cap : Capability) (caps : List Capability)
    → keep p caps ≡ cap ∷ []
    → IsOnly p cap caps
keep-single p cap [] h = cc h
keep-single p cap (c ∷ caps) h = elim (Bool-cases (p c)) [
  | inl e ↦
      let same : c ≡ cap = ground (arith, h, e) in
      (
        [],
        caps,
        ap (λ d. d ∷ caps) same,
        tt,
        subst (λ d. p d ≡ true) same e,
        keep-none p caps (ground (arith, h, e)),
      )
  | inr e ↦
      let (pre, post, at, no_pre, matched, no_post) =
        keep-single p cap caps (ground (arith, h, e)) in
      (c ∷ pre, post, ap (λ ds. c ∷ ds) at, (e, no_pre), matched, no_post)
]

single-keep :
    (p : Capability → Bool) (cap : Capability) (pre post : List Capability)
    → All (λ c. p c ≡ false) pre
    → p cap ≡ true
    → All (λ c. p c ≡ false) post
    → keep p (pre ++ cap ∷ post) ≡ cap ∷ []
single-keep p cap [] post h e k = rw (e, keep-all_false p post k) refl
single-keep p cap (c ∷ pre) post h e k = rw h.0 (single-keep p cap pre post h.1 e k)

choose-ok :
    (caps : List Capability) (out : Output)
    → choose caps ≡ ok out
    → (cap : Capability) × (caps ≡ cap ∷ []) × (out ≡ render cap)
unfolding choose
choose-ok [] out h = cc h
choose-ok (cap ∷ []) out h = (cap, refl, cc h)
choose-ok (cap ∷ other ∷ more) out h = cc h

chosen_one : (cap : Capability) → choose (cap ∷ []) ≡ ok (render cap)
unfolding choose
chosen_one cap = refl

module _ (decode : Text → Option Catalog) (to_lower : Text → Text) where
  -- A keyword stands somewhere in a request.
  abbrev pub IsIn : (request keyword : Text) → Type 0
  IsIn request keyword = (a : Text) × (b : Text) × (request ≡ a ++ to_lower keyword ++ b)

  all-contained :
      (request : Text) (kws : List Text)
      → (all (λ kw. contains request (to_lower kw)) kws ≡ true) ↔ All (IsIn request) kws
  all-contained request [] = (λ _. tt, λ _. refl)
  all-contained request (kw ∷ kws) =
      let rest = all-contained request kws in
      let here = contains_iff request (to_lower kw) in
      elim (Bool-cases (contains request (to_lower kw))) [
        | inl e ↦ rw e (λ h. (here.0 e, rest.0 h), λ h. rest.1 h.1)
        | inr e ↦ rw e (λ h. cc h, λ h. cc (e, here.1 h.0))
      ]

  -- A capability covers a request exactly if each of its keywords, in lower case, stands somewhere
  -- in the request.
  pub matches_iff :
      (request : Text) (cap : Capability)
      → (matches to_lower request cap ≡ true) ↔ All (IsIn request) cap.request_keywords
  unfolding matches
  matches_iff request cap = all-contained request cap.request_keywords

  -- A request is planned exactly if the repository's catalog can be read and is valid and exactly
  -- one of its capabilities covers the request in lower case; the plan is then that capability's.
  -- No other is looked at: the ones before it and the ones behind it do not cover the request.
  pub plan-ok_iff :
      (input : PlanInput) (out : Output)
      → (plan decode to_lower input ≡ ok out) ↔ (
          (cat : Catalog) × (cap : Capability) × (parse_catalog decode input.repo_files ≡ ok cat)
          × IsOnly (matches to_lower (to_lower input.request)) cap cat.capabilities
          × (out ≡ render cap))
  unfolding plan
  plan-ok_iff input out = (
    λ h.
        let (cat, parsed, chosen) =
          bind-ok (parse_catalog decode input.repo_files)
            (λ cat. choose (keep (matches to_lower (to_lower input.request)) cat.capabilities)) h in
        let (cap, single, told) =
          choose-ok (keep (matches to_lower (to_lower input.request)) cat.capabilities) out
            chosen in
        (
          cat,
          cap,
          parsed,
          keep-single (matches to_lower (to_lower input.request)) cap cat.capabilities single,
          told,
        ),
    λ (cat, cap, parsed, only, told).
        let (pre, post, at, no_pre, matched, no_post) = only in
        let single : keep (matches to_lower (to_lower input.request)) cat.capabilities ≡ cap ∷ [] =
          ap (keep (matches to_lower (to_lower input.request))) at
          ∙ single-keep (matches to_lower (to_lower input.request)) cap pre post no_pre matched
              no_post in
        rw parsed (ap choose single ∙ chosen_one cap ∙ ap ok (sym told)),
  )
