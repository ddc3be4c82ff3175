-- ===== src/Tests/Review.antt =====
-- The reviewer at concrete inputs.
use ants.Prelude.{
  ◌≡◌, refl, ◌+◌, ◌%◌, ℕ, suc, Bool, true, false, not, Option, none, some, [], ◌∷◌, ◌++◌, Text,
  bytes, keep, text_eq, take, if◌then◌else◌,
}
use ants.Domain.Errors.{ok}
use ants.Domain.Spec.{SpecContent}
use ants.Domain.Report.{Evidence}
use ants.Review.{
  Input, Verdict, Texts, review, new_deterministic, count_added_lines, split_lines, count_added,
  find, forbidden_patterns, count_newlines,
}
use ants.Review.Laws.{has_evidence, is_ready, review-ok}

abbrev index_of : Text → Text → Option ℕ
index_of word [] = none
index_of word (c ∷ s) = elim (index_of word s) [
  | none ↦ if text_eq (take 4 (c ∷ s)) word then some 0 else none
  | some n ↦ if text_eq (take 4 (c ∷ s)) word then some 0 else some (suc n)
]

-- Each pattern stands for the one word `TODO`, and a number is written by its last digit.
abbrev texts : Texts
texts = record {
  find_string_index = λ re s. index_of (bytes "TODO") s;
  itoa = λ n. (48 + n % 10) ∷ [];
}

abbrev spec : SpecContent
spec = record {
  outcome = bytes "a page";
  assumptions = [];
  requirements = [];
  non_goals = [];
  success_criteria = bytes "builds" ∷ bytes "tested" ∷ [];
  blockers = [];
}

abbrev observed : Text → Bool → Evidence
observed criterion passed = record {
  criterion = criterion;
  command = [];
  exit_code = 0;
  passed = passed;
  log_artifact_id = [];
  at = 7;
}

abbrev diff : Text
diff = bytes "+++ b" ++ (10 ∷ bytes "+x") ++ (10 ∷ bytes "-y") ++ (10 ∷ bytes "+z")

abbrev half_tested : Input
half_tested = record {
  spec = spec;
  diff = diff;
  evidence = observed (bytes "tested") false ∷ observed (bytes "builds") true ∷ [];
}

abbrev tested : Input
tested = record half_tested { evidence = observed (bytes "tested") true ∷ half_tested.evidence }

added : count_added_lines diff ≡ 2
unfolding count_added_lines split_lines count_added
added = refl

ready : is_ready texts tested ≡ true
unfolding is_ready has_evidence find text_eq forbidden_patterns
ready = refl

unfinished : is_ready texts (record tested { diff = bytes "+x TODO" }) ≡ false
unfolding is_ready has_evidence find text_eq forbidden_patterns count_newlines
unfinished = refl

review-ok_example :
    (v : Verdict) × (review texts (new_deterministic 0) half_tested ≡ ok v)
    × (v.passed ≡ is_ready texts half_tested)
    × (v.unmet_criteria
        ≡ keep (λ c. not (has_evidence half_tested.evidence c)) spec.success_criteria)
review-ok_example = review-ok texts (new_deterministic 0) half_tested
