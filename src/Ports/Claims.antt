-- ===== src/Ports/Claims.antt =====
-- internal/ports/runclaims.go: requests about run claims.
use ants.Prelude.{not, Text, Int64, is_pos, Duration}
use ants.Domain.Errors.{Result, ◌>>◌, refuse_if, invalidf}
use ants.Domain.Claim.{validate_claim_owner, validate_fencing}

-- The credentials of one acquisition epoch.
pub record RunClaimRef : Type 0 where
  pub tenant_id : Text
  pub run_id : Text
  pub owner : Text
  pub token : Text
  pub generation : Int64

unfoldable pub validate_ref : RunClaimRef → Result (Unit {0})
unfolding validate_fencing
validate_ref r = validate_fencing r.owner r.token r.generation

unfoldable pub positive_duration : Duration → Result (Unit {0})
positive_duration d = refuse_if (not (is_pos d)) (invalidf "run_claim_lease_duration")

pub record LeaseRequest : Type 0 where
  pub tenant_id : Text
  pub run_id : Text
  pub owner : Text
  pub lease_for : Duration

unfoldable pub validate_lease : LeaseRequest → Result (Unit {0})
unfolding validate_claim_owner positive_duration
validate_lease r = do validate_claim_owner r.owner; positive_duration r.lease_for

pub record BatchRequest : Type 0 where
  pub owner : Text
  pub limit : Int64
  pub lease_for : Duration

unfoldable pub validate_batch : BatchRequest → Result (Unit {0})
unfolding validate_claim_owner positive_duration
validate_batch r = do
  validate_claim_owner r.owner
  refuse_if (not (is_pos r.limit)) (invalidf "run_claim_limit")
  positive_duration r.lease_for
