-- ===== src/Tests/Claims.antt =====
-- Leases of runs at concrete inputs.
use ants.Prelude.{
  ◌≡◌, ◌*◌, buffer, subst, ap, ◌∙◌, text_eq, refl, some, List, [], ◌∷◌, Text, Time, arith,
}
use ants.Domain.Errors.{ok}
use ants.Domain.Claim.{
  claim_expiry, RunClaim, matches, claim_expired, new_run_claim_token, encode_base64,
}
use ants.Store.Claims.{
  Store, acquire, create, complete, fenced, drop_claim, acquire_claim, write_claim, find_claim,
  claim_eligible,
}
use ants.Ports.Claims.{validate_lease}
use ants.Store.Assoc.{lookup, put}
use ants.Store.Claims.Row.{fresh_claim, Changes}
use ants.Store.Claims.Trace.{
  Call, or_stay, or_stay_with, cause, step, history, acquire_one, create_claim,
}
use ants.Store.Claims.WellFormed.{AllWell, reachable-AllWell}
use ants.Store.Claims.Fencing.{superseded-IsPowerless, IsPowerless}
use ants.Store.Claims.Lease.{history-held, acquire_grants, credentials}
use ants.Store.Claims.Steps.{step-Changes}
use ants.Tests.Fixtures.{
  empty_store, free_store, lease_request, rival_request, tenant, run_id, zeros, second,
}

abbrev token : Text
token = encode_base64 (buffer 32 zeros)

-- The claim after the first and after the second acquisition.
abbrev first_claim : RunClaim
first_claim =
    acquire_claim (fresh_claim tenant run_id 0) lease_request.owner token 0 lease_request.lease_for

abbrev first_store : Store
first_store = write_claim free_store run_id first_claim

abbrev second_claim : RunClaim
second_claim =
    acquire_claim first_claim rival_request.owner token (20 * second) rival_request.lease_for

abbrev second_store : Store
second_store = write_claim first_store run_id second_claim

abbrev calls : List (Time × Call)
calls = (0, create_claim tenant run_id) ∷ (0, acquire_one lease_request (some zeros)) ∷ []

first_acquire : acquire lease_request 0 (some zeros) free_store ≡ ok (first_store, first_claim)
unfolding acquire find_claim lookup claim_eligible text_eq new_run_claim_token encode_base64
    validate_lease put
first_acquire = refl

later_acquire :
    acquire rival_request (20 * second) (some zeros) first_store ≡ ok (second_store, second_claim)
unfolding acquire find_claim lookup claim_eligible claim_expired text_eq new_run_claim_token
    encode_base64 validate_lease put acquire_claim claim_expiry
later_acquire = refl

created : create tenant run_id 0 empty_store ≡ ok free_store
unfolding create lookup text_eq put
created = refl

free_well : AllWell 1 free_store
unfolding history step
free_well =
    subst (AllWell 1) (ap (or_stay empty_store) created)
      (reachable-AllWell ((0, create_claim tenant run_id) ∷ []) empty_store refl (omega arith))

first_well : AllWell 2 first_store
unfolding history step
first_well =
    subst (AllWell 2)
      (ap (λ x. or_stay_with x (acquire lease_request 0 (some zeros) x))
          (ap (or_stay empty_store) created)
        ∙ ap (or_stay_with free_store) first_acquire)
      (reachable-AllWell calls empty_store refl (omega arith))

reachable-AllWell_example : AllWell 2 (history calls empty_store)
reachable-AllWell_example = reachable-AllWell calls empty_store refl (omega arith)

-- The first holder, fenced off by the second.
fenced_first : fenced (credentials first_claim run_id) first_store ≡ ok first_claim
unfolding fenced find_claim lookup text_eq matches put acquire_claim encode_base64
fenced_first = refl

superseded-IsPowerless_example :
    IsPowerless
      (credentials first_claim run_id)
      (history ((20 * second, Call.finish (credentials first_claim run_id)) ∷ []) second_store)
unfolding put text_eq lookup
superseded-IsPowerless_example =
    superseded-IsPowerless 2 first_store (credentials first_claim run_id) first_claim rival_request
      (20 * second) (some zeros) (second_store, second_claim)
      ((20 * second, Call.finish (credentials first_claim run_id)) ∷ []) (refl, tt) first_well
      (omega arith) fenced_first refl later_acquire (λ h. h, tt)

step-Changes_example :
    Changes
      (cause (acquire_one lease_request (some zeros)))
      0
      free_store
      (step 0 (acquire_one lease_request (some zeros)) free_store)
unfolding lookup
step-Changes_example = step-Changes 0 (acquire_one lease_request (some zeros)) free_store (refl, tt)

-- A rival that asks while the lease runs.
abbrev rival_calls : List (Time × Call)
rival_calls = (second, acquire_one rival_request (some zeros)) ∷ []

history-held_example : lookup run_id (history rival_calls first_store).run_claims ≡ some first_claim
unfolding lookup text_eq claim_expired put acquire_claim claim_expiry
history-held_example =
    history-held run_id first_claim rival_calls first_store (refl, tt) refl refl
      ((refl, λ h. h), tt)

acquire_grants_example :
    complete (credentials first_claim run_id) (history rival_calls first_store)
    ≡ ok (drop_claim (history rival_calls first_store) run_id)
unfolding claim_expired lookup acquire_claim claim_expiry
acquire_grants_example =
    (acquire_grants 1 free_store lease_request 0 (some zeros) (first_store, first_claim) rival_calls
      (2 * second) (5 * second) (refl, tt) free_well (omega arith) first_acquire
      ((refl, λ h. h), tt) refl refl).2
