-- ===== src/Domain/Claim.antt =====
-- internal/domain/runclaim.go: the execution lease of a run, and the token of one epoch of it.
pub mod Laws
use ants.Prelude.{
  Entropy, buffer, ℕ, zero, suc, ◌+◌, ◌*◌, ◌/◌, ◌%◌, Bool, true, false, not, ◌&&◌, ◌||◌, ◌==◌,
  Option, none, some, List, [], ◌∷◌, map, Text, bytes, text_eq, is_empty, length, any, ltb, Int64,
  slt, Time, Duration, add_time, after, if◌then◌else◌,
}
use ants.Domain.Errors.{Result, ok, err, ◌>>=◌, ◌>>◌, refuse_if, invalidf, Error, ErrorKind}
use ants.Domain.Ids.{char_at}
use ants.Domain.ClaimStatus.{ClaimStatus, eq}

pub record RunClaim : Type 0 where
  pub tenant_id : Text
  pub run_id : Text
  pub status : ClaimStatus
  pub owner : Text
  pub token : Text
  pub generation : Int64
  pub attempts : Int64
  pub acquired_at : Option Time
  pub heartbeat_at : Option Time
  pub expires_at : Option Time
  pub created_at : Time
  pub updated_at : Time

abbrev pub max_claim_owner_len : ℕ
max_claim_owner_len = 256

abbrev pub claim_token_length : ℕ
claim_token_length = 43

-- base64.RawURLEncoding: the last characters of its alphabet are `-` and `_`, and it does not pad.
abbrev base64_alphabet : Text
base64_alphabet = bytes "ABCDEFGHIJKLMNOPQRSTUVWXYZabcdefghijklmnopqrstuvwxyz0123456789-_"

base64_char : ℕ → ℕ
unfolding char_at
base64_char i = char_at base64_alphabet i

unfoldable pub encode_base64 : Text → Text
unfolding base64_char
encode_base64 [] = []
encode_base64 (a ∷ []) = base64_char (a / 4) ∷ base64_char (a % 4 * 16) ∷ []
encode_base64 (a ∷ b ∷ []) =
    base64_char (a / 4) ∷ base64_char (a % 4 * 16 + b / 16) ∷ base64_char (b % 16 * 4) ∷ []
encode_base64 (a ∷ b ∷ c ∷ rest) =
    base64_char (a / 4)
    ∷ base64_char (a % 4 * 16 + b / 16)
    ∷ base64_char (b % 16 * 4 + c / 64)
    ∷ base64_char (c % 64)
    ∷ encode_base64 rest

-- `NewRunClaimToken`, over a buffer of 32 bytes.
unfoldable pub new_run_claim_token : Entropy → Result Text
new_run_claim_token none = err (record { kind = ErrorKind.internal; code = "run_claim_token" })
new_run_claim_token (some f) = ok (encode_base64 (buffer 32 f))

abbrev pub is_control : ℕ → Bool
is_control c = ltb c 0x20 || c == 0x7f

-- The loop over the runes meets a control character exactly where a byte is one.
unfoldable pub validate_claim_owner : Text → Result (Unit {0})
validate_claim_owner owner = do
  refuse_if (is_empty owner) (invalidf "run_claim_owner")
  refuse_if (ltb max_claim_owner_len (length owner)) (invalidf "run_claim_owner")
  refuse_if (any is_control owner) (invalidf "run_claim_owner")

-- `RunClaim.ValidateFencing`, and `RunClaimRef.Validate` of internal/ports/runclaims.go.
unfoldable pub validate_fencing : (owner token : Text) (generation : Int64) → Result (Unit {0})
unfolding validate_claim_owner
validate_fencing owner token generation = do
  validate_claim_owner owner
  refuse_if (not (length token == claim_token_length)) (invalidf "run_claim_token")
  refuse_if (slt generation 1) (invalidf "run_claim_generation")

unfoldable pub matches : RunClaim → (owner token : Text) → Int64 → Bool
matches c owner token generation =
    eq c.status ClaimStatus.claimed
    && (text_eq c.owner owner && (text_eq c.token token && c.generation == generation))

-- 9999-12-31 23:59:59 UTC.
abbrev pub far_future : Time
far_future = 315537897599000000000

unfoldable pub claim_expiry : Time → Duration → Time
claim_expiry now lease =
    let later = add_time now lease in if not (after later now) then far_future else later

unfoldable pub claim_expired : Option Time → Time → Bool
claim_expired none now = false
claim_expired (some expires_at) now = not (after expires_at now)
