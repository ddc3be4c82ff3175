-- ===== src/Planner/Branch.antt =====
-- internal/planner/planner.go, branchFor: the branch of a task. The source maps runes; a rune above 127
-- becomes one dash, here one for each of its bytes: a run of dashes is squeezed to one in any case.
pub mod Grammar
use ants.Prelude.{
  ℕ, zero, suc, ◌+◌, Bool, true, false, ◌&&◌, ◌||◌, ◌==◌, [], ◌∷◌, ◌++◌, map, Text, bytes, is_empty,
  is_between, length, if◌then◌else◌,
}

abbrev pub dash : ℕ
dash = b'-'

unfoldable pub slug_char : ℕ → ℕ
slug_char c =
    if is_between b'a' b'z' c || is_between b'0' b'9' c
    then c
    else if is_between b'A' b'Z' c
    then c + 32
    else dash

-- `strings.Contains(slug, "--")`.
unfoldable pub has_double : Text → Bool
has_double [] = false
has_double (c ∷ []) = false
has_double (c ∷ d ∷ s) = ((c == dash) && (d == dash)) || has_double (d ∷ s)

-- `strings.ReplaceAll(slug, "--", "-")`: from left to right, without overlaps.
unfoldable pub replace_doubles : Text → Text
replace_doubles [] = []
replace_doubles (c ∷ []) = c ∷ []
replace_doubles (c ∷ d ∷ s) =
    let past = replace_doubles s in
    let next = replace_doubles (d ∷ s) in
    if (c == dash) && (d == dash) then dash ∷ past else c ∷ next

-- The loop of replacements, which ends after at most as many rounds as there are bytes.
unfoldable pub squeeze : (fuel : ℕ) → Text → Text
unfolding has_double replace_doubles
squeeze zero s = s
squeeze (suc fuel) s =
    let next = squeeze fuel (replace_doubles s) in if has_double s then next else s

-- `strings.Trim(slug, "-")`.
unfoldable pub trim_left : Text → Text
trim_left [] = []
trim_left (c ∷ s) = let rest = trim_left s in if c == dash then rest else c ∷ s

unfoldable pub trim_right : Text → Text
trim_right [] = []
trim_right (c ∷ s) =
    let rest = trim_right s in if is_empty rest && (c == dash) then [] else c ∷ rest

unfoldable pub slug_for : (task_name : Text) → Text
unfolding slug_char squeeze trim_left trim_right
slug_for task_name =
    let slug = map slug_char task_name in trim_right (trim_left (squeeze (length slug) slug))

unfoldable pub branch_for : (task_name : Text) → Text
branch_for task_name =
    if is_empty (slug_for task_name) then bytes "ants/task" else bytes "ants/" ++ slug_for task_name
