-- ===== src/Domain/Claim/Laws.antt =====
-- Tokens and deadlines.
use ants.Prelude.{
  ℕ, ◌+◌, ◌*◌, ◌/◌, ◌≡◌, refl, true, false, some, [], ◌∷◌, Text, buffer, length, Time, Duration,
  is_pos, arith,
}
use ants.Domain.Errors.{ok}
use ants.Domain.Claim.{
  encode_base64, new_run_claim_token, claim_token_length, claim_expiry, claim_expired,
}

length-encode_base64 : (s : Text) → length (encode_base64 s) ≡ (length s * 4 + 2) / 3
unfolding encode_base64
length-encode_base64 [] = refl
length-encode_base64 (a ∷ []) = refl
length-encode_base64 (a ∷ b ∷ []) = refl
length-encode_base64 (a ∷ b ∷ c ∷ s) = omega (arith, length-encode_base64 s)

-- A token, whatever the entropy, has the length that `Validate` asks for.
pub new_run_claim_token-length :
    (f : ℕ → ℕ) {token : Text}
    → new_run_claim_token (some f) ≡ ok token
    → length token ≡ claim_token_length
unfolding new_run_claim_token
new_run_claim_token-length f h = ground (arith, length-encode_base64 (buffer 32 f))

-- A lease that is positive has not expired when it begins.
pub claim_expiry-live :
    (now : Time) (lease : Duration)
    → is_pos lease ≡ true
    → claim_expired (some (claim_expiry now lease)) now ≡ false
unfolding claim_expired claim_expiry
claim_expiry-live now lease h = ground arith
