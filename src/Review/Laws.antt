-- ===== src/Review/Laws.antt =====
-- internal/review/review.go: what a verdict says.
use ants.Prelude.{
  ◌≡◌, refl, sym, ap, ◌∙◌, arith, Bool, true, false, not, ◌&&◌, ◌||◌, Option, none, some, List, [],
  ◌∷◌, ◌++◌, Text, is_empty, text_eq, Int64, keep, any, all, All, All-append, Bool-cases, inl, inr,
  if◌then◌else◌, slt,
}
use ants.Domain.Errors.{ok, ◌>>=◌}
use ants.Domain.Report.{Evidence, Finding, validate_finding, is_blocking}
use ants.Store.Assoc.{Assoc, lookup, put}
use ants.Store.Assoc.Laws.{lookup-put}
use ants.Review.{
  Input, Verdict, Texts, ForbiddenPattern, forbidden_patterns, passed_by_criterion, is_marked,
  unmet, is_nil, criteria_findings, count_added_lines, check_all, find, add_finding,
  pattern_findings, all_findings, review, diff_size,
}

-- Some evidence for the criterion has passed.
unfoldable pub has_evidence : List Evidence → Text → Bool
has_evidence evs c = any (λ (e : Evidence). e.passed && text_eq e.criterion c) evs

abbrev is_none : Option Text → Bool
is_none none = true
is_none (some s) = false

-- There are criteria, evidence has passed for each of them, and no forbidden pattern is in the diff.
unfoldable pub is_ready : Texts → Input → Bool
is_ready t i =
    (not (is_nil i.spec.success_criteria) && all (has_evidence i.evidence) i.spec.success_criteria)
    && all (λ p. is_none (find t p i.diff)) forbidden_patterns

marked :
    (evs : List Evidence) (m : Assoc Bool) (c : Text)
    → is_marked (lookup c (passed_by_criterion evs m))
      ≡ (has_evidence evs c || is_marked (lookup c m))
unfolding passed_by_criterion has_evidence
marked [] m c = refl
marked (ev ∷ evs) m c = elim (Bool-cases ev.passed) [
  | inl e ↦
      ground (arith, e, marked evs (put ev.criterion true m) c, lookup-put ev.criterion c true m)
  | inr e ↦ ground (arith, e, marked evs m c)
]

unmet-eq :
    (evs : List Evidence) (cs : List Text)
    → unmet (passed_by_criterion evs []) cs ≡ keep (λ c. not (has_evidence evs c)) cs
unfolding unmet lookup
unmet-eq evs [] = refl
unmet-eq evs (c ∷ cs) = ground (arith, marked evs [] c, unmet-eq evs cs)

-- None of the findings blocks.
abbrev clear : List Finding → Bool
clear fs = all (λ f. not (is_blocking f)) fs

abbrev IsFine : Finding → Type 0
IsFine f = validate_finding f ≡ ok tt

check_all-ok : (fs : List Finding) (b : Bool) → All IsFine fs → check_all fs b ≡ ok (b && clear fs)
unfolding check_all
check_all-ok [] b h = ground arith
check_all-ok (f ∷ fs) b h =
    ground (arith, h.0, check_all-ok fs (if is_blocking f then false else b) h.1)

clear-append : (fs gs : List Finding) → clear (fs ++ gs) ≡ (clear fs && clear gs)
clear-append [] gs = refl
clear-append (f ∷ fs) gs = ground (arith, clear-append fs gs)

nil-keep : (p : Text → Bool) (cs : List Text) → is_nil (keep (λ c. not (p c)) cs) ≡ all p cs
nil-keep p [] = refl
nil-keep p (c ∷ cs) = elim (Bool-cases (p c)) [ inl e ↦ rw e (nil-keep p cs) | inr e ↦ rw e refl ]

criteria-clear :
    (evs : List Evidence) (cs : List Text)
    → clear (criteria_findings cs (keep (λ c. not (has_evidence evs c)) cs))
      ≡ (not (is_nil cs) && all (has_evidence evs) cs)
unfolding criteria_findings is_blocking
criteria-clear evs [] = refl
criteria-clear evs (c ∷ cs) =
    elim (Bool-cases (is_nil (keep (λ c. not (has_evidence evs c)) (c ∷ cs)))) [
      | inl e ↦ rw (e, sym (nil-keep (has_evidence evs) (c ∷ cs)) ∙ e) refl
      | inr e ↦ rw (e, sym (nil-keep (has_evidence evs) (c ∷ cs)) ∙ e) refl
    ]

criteria-AllFine : (cs missing : List Text) → All IsFine (criteria_findings cs missing)
unfolding criteria_findings validate_finding
criteria-AllFine [] missing = (refl, tt)
criteria-AllFine (c ∷ cs) [] = tt
criteria-AllFine (c ∷ cs) (m ∷ ms) = (refl, tt)

-- A pattern says what is wrong.
abbrev IsTold : ForbiddenPattern → Type 0
IsTold p = (is_empty p.category ≡ false) × (is_empty p.scenario ≡ false)

module _ (t : Texts) where
  add_finding-clear :
      (p : ForbiddenPattern) (o : Option Text) (fs : List Finding)
      → clear (add_finding t p o fs) ≡ (is_none o && clear fs)
  unfolding is_blocking
  add_finding-clear p none fs = refl
  add_finding-clear p (some loc) fs = refl

  add_finding-AllFine :
      (p : ForbiddenPattern) (o : Option Text) (fs : List Finding)
      → IsTold p
      → All IsFine fs
      → All IsFine (add_finding t p o fs)
  unfolding validate_finding
  add_finding-AllFine p none fs told h = h
  add_finding-AllFine p (some loc) fs (named, told) h = (ground (arith, named, told), h)

  patterns-clear :
      (ps : List ForbiddenPattern) (diff : Text)
      → clear (pattern_findings t ps diff) ≡ all (λ p. is_none (find t p diff)) ps
  unfolding pattern_findings
  patterns-clear [] diff = refl
  patterns-clear (p ∷ ps) diff =
      add_finding-clear p (find t p diff) (pattern_findings t ps diff)
      ∙ ap (λ b. is_none (find t p diff) && b) (patterns-clear ps diff)

  patterns-AllFine :
      (ps : List ForbiddenPattern) (diff : Text)
      → All IsTold ps
      → All IsFine (pattern_findings t ps diff)
  unfolding pattern_findings
  patterns-AllFine [] diff h = tt
  patterns-AllFine (p ∷ ps) diff (told, more) =
      add_finding-AllFine p (find t p diff) (pattern_findings t ps diff) told
        (patterns-AllFine ps diff more)

  size-clear : (b : Bool) → clear (if b then diff_size ∷ [] else []) ≡ true
  unfolding is_blocking
  size-clear true = refl
  size-clear false = refl

  size-AllFine : (b : Bool) → All IsFine (if b then diff_size ∷ [] else [])
  unfolding validate_finding
  size-AllFine true = (refl, tt)
  size-AllFine false = tt

  forbidden_patterns-AllTold : All IsTold forbidden_patterns
  unfolding forbidden_patterns
  forbidden_patterns-AllTold = ((refl, refl), ((refl, refl), ((refl, refl), tt)))

  all_findings-AllFine :
      (max : Int64) (i : Input) (missing : List Text) → All IsFine (all_findings t max i missing)
  unfolding all_findings
  all_findings-AllFine max i missing =
      All-append IsFine _ _ (criteria-AllFine i.spec.success_criteria missing) (
        All-append IsFine _ _
          (patterns-AllFine forbidden_patterns i.diff forbidden_patterns-AllTold)
          (size-AllFine (slt max (count_added_lines i.diff))))

  all_findings-clear :
      (max : Int64) (i : Input)
      → clear (
          all_findings t max i
            (keep (λ c. not (has_evidence i.evidence c)) i.spec.success_criteria))
        ≡ is_ready t i
  unfolding all_findings is_ready
  all_findings-clear max i =
      let criteria = i.spec.success_criteria in
      let missing = keep (λ c. not (has_evidence i.evidence c)) criteria in
      let patterns = pattern_findings t forbidden_patterns i.diff in
      let is_long = slt max (count_added_lines i.diff) in
      let size = if is_long then diff_size ∷ [] else [] in
      ground (
        arith,
        clear-append (criteria_findings criteria missing) (patterns ++ size),
        clear-append patterns size,
        criteria-clear i.evidence criteria,
        patterns-clear forbidden_patterns i.diff,
        size-clear is_long,
      )

  -- The review of every diff succeeds, whatever a number is written as and wherever patterns match.
  -- Its verdict is that the change has passed exactly if the specification has success criteria,
  -- evidence has passed for each of them, and no forbidden pattern matches the diff: the length of the
  -- diff never decides. It lists exactly the criteria without passed evidence, in their order.
  pub review-ok :
      (max : Int64) (i : Input)
      → (v : Verdict) × (review t max i ≡ ok v)
        × (v.passed ≡ is_ready t i)
        × (v.unmet_criteria ≡ keep (λ c. not (has_evidence i.evidence c)) i.spec.success_criteria)
  unfolding review
  review-ok max i =
      let criteria = i.spec.success_criteria in
      let missing = unmet (passed_by_criterion i.evidence []) criteria in
      let listed : missing ≡ keep (λ c. not (has_evidence i.evidence c)) criteria =
        unmet-eq i.evidence criteria in
      let findings = all_findings t max i missing in
      let checked = check_all-ok findings true (all_findings-AllFine max i missing) in
      (
        record { passed = clear findings; findings = findings; unmet_criteria = missing },
        ap
            (λ r. r >>= λ passed.
              ok (record { passed = passed; findings = findings; unmet_criteria = missing }))
            checked,
        ap (λ m. clear (all_findings t max i m)) listed ∙ all_findings-clear max i,
        listed,
      )
