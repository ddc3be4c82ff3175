-- ===== src/Domain/Ids.antt =====
-- internal/domain/ids.go: identifiers "<prefix>_<suffix>" and their grammar.
-- The typed identifiers (TenantID, RunID, ...) are all strings, here `Text`.
pub mod Laws
use ants.Prelude.{
  Entropy, buffer, ℕ, zero, suc, ◌%◌, Bool, true, false, not, ◌||◌, Option, none, some, List, [],
  ◌∷◌, ◌++◌, map, Text, bytes, text_eq, is_empty, is_alnum, length, all, ltb, ◌==◌, if◌then◌else◌,
}
use ants.Domain.Errors.{Result, ok, err, Error, invalidf}

-- A kind of entity, and the prefix of its identifiers.
pub data Entity : Type 0 where
  tenant project thread message spec task run workspace artifact : Entity
  policy_decision budget integration audit_event principal sandbox event : Entity

unfoldable pub prefix : Entity → Text
prefix tenant = bytes "ten"
prefix project = bytes "prj"
prefix thread = bytes "thr"
prefix message = bytes "msg"
prefix spec = bytes "spc"
prefix task = bytes "tsk"
prefix run = bytes "run"
prefix workspace = bytes "wsp"
prefix artifact = bytes "art"
prefix policy_decision = bytes "pol"
prefix budget = bytes "bgt"
prefix integration = bytes "icn"
prefix audit_event = bytes "aud"
prefix principal = bytes "prn"
prefix sandbox = bytes "sbx"
prefix event = bytes "evt"

abbrev pub separator : ℕ
separator = b'_'

abbrev pub min_id_random_chars : ℕ
min_id_random_chars = 20

abbrev pub max_id_suffix_len : ℕ
max_id_suffix_len = 64

unfoldable pub new_prefixed : Text → Text → Text
new_prefixed p suffix = p ++ separator ∷ suffix

-- `strings.Cut` at the first separator.
abbrev cons_first : ℕ → Option (Text × Text) → Option (Text × Text)
cons_first c none = none
cons_first c (some (s, t)) = some (c ∷ s, t)

unfoldable pub cut : Text → Option (Text × Text)
cut [] = none
cut (c ∷ s) = let rest = cut s in if c == separator then some ([], s) else cons_first c rest

abbrev pub invalid_id : Error
invalid_id = invalidf "invalid_id"

-- The checks on the two sides of the separator.
check_parts : Text → Text → Option (Text × Text) → Result Text
check_parts p value none = err invalid_id
check_parts p value (some (got, suffix)) =
    if not (text_eq got p)
    then err invalid_id
    else if ltb (length suffix) min_id_random_chars || ltb max_id_suffix_len (length suffix)
    then err invalid_id
    else if all is_alnum suffix
    then ok value
    else err invalid_id

unfoldable pub validate_prefixed : Text → Text → Result Text
unfolding cut check_parts
validate_prefixed p value =
    if is_empty value then err invalid_id else check_parts p value (cut value)

-- `ParseTenantID`, `ParseRunID` and the others.
unfoldable pub parse_id : Entity → Text → Result Text
unfolding prefix validate_prefixed
parse_id entity value = validate_prefixed (prefix entity) value

abbrev pub alphabet : Text
alphabet = bytes "abcdefghijklmnopqrstuvwxyzABCDEFGHIJKLMNOPQRSTUVWXYZ0123456789"

-- `alphabet[i]`, at an index within the bounds.
unfoldable pub char_at : Text → ℕ → ℕ
char_at [] i = 0
char_at (c ∷ s) zero = c
char_at (c ∷ s) (suc i) = char_at s i

abbrev random_char : ℕ → ℕ
random_char b = char_at alphabet (b % 62)

-- `NewID`, over a buffer of 26 bytes.
unfoldable pub new_id : Text → Entropy → Option Text
new_id p none = none
new_id p (some f) = some (new_prefixed p (map random_char (buffer 26 f)))
