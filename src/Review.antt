-- ===== src/Review.antt =====
-- internal/review/review.go: the deterministic reviewer. The regular expressions and `strconv.Itoa`
-- are a parameter: where a pattern first matches, and how a number is written.
pub mod Laws
use ants.Prelude.{
  ◌+◌, ◌==◌, ℕ, zero, suc, if◌then◌else◌, Bool, true, false, not, ◌&&◌, Option, none, some, List,
  [], ◌∷◌, ◌++◌, Text, bytes, take, Int64, slt, inc,
}
use ants.Domain.Errors.{Result, ok, ◌>>=◌, ◌>>◌}
use ants.Domain.Spec.{SpecContent}
use ants.Domain.Report.{Evidence, Finding, Severity, Confidence, validate_finding, is_blocking}
use ants.Store.Assoc.{Assoc, lookup, put}

pub record Input : Type 0 where
  pub spec : SpecContent
  pub diff : Text
  pub evidence : List Evidence

pub record Verdict : Type 0 where
  pub passed : Bool
  pub findings : List Finding
  pub unmet_criteria : List Text

-- The two functions of Go's library: the start of the leftmost match of a pattern in a text, and the
-- decimal digits of a number.
pub record Texts : Type 0 where
  pub find_string_index : Text → Text → Option ℕ
  pub itoa : Int64 → Text

unfoldable pub new_deterministic : Int64 → Int64
new_deterministic max_diff_lines = if slt 0 max_diff_lines then max_diff_lines else 2000

pub record ForbiddenPattern : Type 0 where
  pub re : Text
  pub category : Text
  pub scenario : Text

unfoldable pub forbidden_patterns : List ForbiddenPattern
forbidden_patterns =
    record {
      re = bytes "(?i)\\bTODO\\b|\\bFIXME\\b|\\bHACK\\b";
      category = bytes "unfinished-work";
      scenario =
          bytes
            "the diff contains TODO/FIXME/HACK markers, so the change may be incomplete and silently shipped";
    }
    ∷ record {
      re = bytes "-----BEGIN [A-Z ]*PRIVATE KEY-----";
      category = bytes "secret-leak";
      scenario =
          bytes
            "a private key block appears in the diff; committing credentials exposes them to every reader of the repository";
    }
    ∷ record {
      re = bytes "\\bAKIA[0-9A-Z]{16}\\b";
      category = bytes "secret-leak";
      scenario = bytes "the diff contains an AWS access key id pattern";
    }
    ∷ []

-- The map from a criterion to whether evidence for it has passed.
unfoldable pub passed_by_criterion : List Evidence → Assoc Bool → Assoc Bool
passed_by_criterion [] m = m
passed_by_criterion (ev ∷ evs) m =
    passed_by_criterion evs (if ev.passed then put ev.criterion true m else m)

-- What indexing a Go map of Booleans answers.
abbrev pub is_marked : Option Bool → Bool
is_marked none = false
is_marked (some b) = b

unfoldable pub unmet : Assoc Bool → List Text → List Text
unmet m [] = []
unmet m (c ∷ cs) = let rest = unmet m cs in if is_marked (lookup c m) then rest else c ∷ rest

abbrev pub is_nil {ℓ} : {A : Type ℓ} → List A → Bool
is_nil [] = true
is_nil (x ∷ xs) = false

abbrev pub verification_gap : Finding
verification_gap = record {
  category = bytes "verification-gap";
  severity = Severity.blocker;
  confidence = Confidence.high;
  location = bytes "evidence";
  scenario =
      bytes
        "success criteria lack passing evidence, so 'done' would rest on agent confidence instead of observed facts";
}

abbrev pub spec_quality : Finding
spec_quality = record {
  category = bytes "spec-quality";
  severity = Severity.blocker;
  confidence = Confidence.high;
  location = bytes "spec";
  scenario = bytes "the spec declares no success criteria, so completion cannot be verified at all";
}

abbrev pub diff_size : Finding
diff_size = record {
  category = bytes "diff-size";
  severity = Severity.warning;
  confidence = Confidence.medium;
  location = bytes "diff";
  scenario =
      bytes
        "the diff adds more lines than the review budget covers, increasing the chance unreviewed behavior reaches the integration branch";
}

unfoldable pub criteria_findings : List Text → List Text → List Finding
criteria_findings criteria missing =
    (if not (is_nil criteria) && not (is_nil missing) then verification_gap ∷ [] else [])
    ++ (if is_nil criteria then spec_quality ∷ [] else [])

-- `strings.Count` of the newlines.
unfoldable pub count_newlines : Text → Int64
count_newlines [] = 0
count_newlines (c ∷ s) = let rest = count_newlines s in if c == 10 then inc rest else rest

-- Whether a text starts with a plus sign, and whether it starts with three.
abbrev pub starts_added : Text → Bool
starts_added [] = false
starts_added (c ∷ s) = c == 43

abbrev pub starts_header : Text → Bool
starts_header (a ∷ b ∷ c ∷ s) = (a == 43) && (b == 43) && (c == 43)
starts_header _ = false

-- The lines of a text: what stands before the first newline, and the lines behind it.
unfoldable pub split_lines : Text → Text × List Text
split_lines [] = ([], [])
split_lines (c ∷ s) =
    let rest = split_lines s in if c == 10 then ([], rest.0 ∷ rest.1) else (c ∷ rest.0, rest.1)

unfoldable pub count_added : List Text → Int64
count_added [] = 0
count_added (l ∷ ls) =
    let rest = count_added ls in if starts_added l && not (starts_header l) then inc rest else rest

unfoldable pub count_added_lines : Text → Int64
count_added_lines diff = let lines = split_lines diff in count_added (lines.0 ∷ lines.1)

unfoldable pub check_all : List Finding → Bool → Result Bool
check_all [] passed = ok passed
check_all (f ∷ fs) passed = do
  validate_finding f
  check_all fs (if is_blocking f then false else passed)

module _ (t : Texts) where
  -- The empty string, which stands for no match, is `none`.
  unfoldable pub find : ForbiddenPattern → Text → Option Text
  find p diff = elim (t.find_string_index p.re diff) [
    | none ↦ none
    | some at ↦ some (bytes "diff:" ++ t.itoa (inc (count_newlines (take at diff))))
  ]

  abbrev pub forbidden : ForbiddenPattern → Text → Finding
  forbidden p loc = record {
    category = p.category;
    severity = Severity.blocker;
    confidence = Confidence.high;
    location = loc;
    scenario = p.scenario;
  }

  abbrev pub add_finding : ForbiddenPattern → Option Text → List Finding → List Finding
  add_finding p none rest = rest
  add_finding p (some loc) rest = forbidden p loc ∷ rest

  unfoldable pub pattern_findings : List ForbiddenPattern → Text → List Finding
  pattern_findings [] diff = []
  pattern_findings (p ∷ ps) diff = add_finding p (find p diff) (pattern_findings ps diff)

  unfoldable pub all_findings : Int64 → Input → List Text → List Finding
  all_findings max_diff_lines i missing =
      criteria_findings i.spec.success_criteria missing
      ++ (pattern_findings forbidden_patterns i.diff
          ++ (if slt max_diff_lines (count_added_lines i.diff) then diff_size ∷ [] else []))

  unfoldable pub review : Int64 → Input → Result Verdict
  review max_diff_lines i =
      let missing = unmet (passed_by_criterion i.evidence []) i.spec.success_criteria in
      let findings = all_findings max_diff_lines i missing in
      check_all findings true >>= λ passed.
      ok (record { passed = passed; findings = findings; unmet_criteria = missing })
