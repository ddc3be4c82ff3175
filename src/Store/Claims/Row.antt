-- ===== src/Store/Claims/Row.antt =====
-- What one operation may do to the claim of one run.
use ants.Prelude.{
  ℕ, [], ◌≡◌, refl, subst, true, Option, none, some, Text, text_eq, text_eq→eq, Time, Duration,
  Bool-cases, inl, inr,
}
use ants.Domain.Errors.{ok}
use ants.Domain.ClaimStatus.{ClaimStatus}
use ants.Domain.Claim.{RunClaim, new_run_claim_token, claim_expiry, validate_claim_owner}
use ants.Store.Assoc.{lookup}
use ants.Store.Assoc.Laws.{lookup-put, lookup-remove}
use ants.Store.Claims.{Store, claim_eligible, acquire_claim, release_claim, write_claim, drop_claim}

abbrev pub fresh_claim : (tenant_id run_id : Text) → Time → RunClaim
fresh_claim tenant_id run_id now = record {
  tenant_id = tenant_id;
  run_id = run_id;
  status = ClaimStatus.runnable;
  owner = [];
  token = [];
  generation = 0;
  attempts = 0;
  acquired_at = none;
  heartbeat_at = none;
  expires_at = none;
  created_at = now;
  updated_at = now;
}

abbrev pub extend_claim : RunClaim → Time → Duration → RunClaim
extend_claim c now extend_for = record c {
  heartbeat_at = some now;
  expires_at = some (claim_expiry now extend_for);
  updated_at = now;
}

-- From the claim before to the claim after, at the instant `now`. The call may create a claim, or act
-- on a claim as its holder (or clean up after its run), only where it has the cause to.
pub data Change (MayCreate : Type 0) (MayAct : RunClaim → Type 0) (now : Time)
    (o o' : Option RunClaim) : Type 0 where
  same : o' ≡ o → Change MayCreate MayAct now o o'
  created :
      (tenant_id run_id : Text)
      → MayCreate
      → o ≡ none
      → o' ≡ some (fresh_claim tenant_id run_id now)
      → Change MayCreate MayAct now o o'
  acquired :
      (c : RunClaim) (owner token : Text) (f : ℕ → ℕ) (lease_for : Duration)
      → o ≡ some c
      → claim_eligible c now ≡ true
      → validate_claim_owner owner ≡ ok tt
      → new_run_claim_token (some f) ≡ ok token
      → o' ≡ some (acquire_claim c owner token now lease_for)
      → Change MayCreate MayAct now o o'
  extended :
      (c : RunClaim) (extend_for : Duration)
      → MayAct c
      → o ≡ some c
      → c.status ≡ ClaimStatus.claimed
      → o' ≡ some (extend_claim c now extend_for)
      → Change MayCreate MayAct now o o'
  released :
      (c : RunClaim)
      → MayAct c
      → o ≡ some c
      → o' ≡ some (release_claim c now)
      → Change MayCreate MayAct now o o'
  dropped : (c : RunClaim) → MayAct c → o ≡ some c → o' ≡ none → Change MayCreate MayAct now o o'

-- What a call may do, for each run.
pub record Cause : Type 1 where
  pub MayCreate : Text → Type 0
  pub MayAct : Text → RunClaim → Type 0

abbrev pub Changes : Cause → Time → Store → Store → Type 0
Changes p now st st' =
    (k : Text)
    → Change (p.MayCreate k) (p.MayAct k) now (lookup k st.run_claims) (lookup k st'.run_claims)

module _ (p : Cause) (now : Time) (st : Store) where
  pub write-Changes :
      (key : Text) (c : RunClaim)
      → Change (p.MayCreate key) (p.MayAct key) now (lookup key st.run_claims) (some c)
      → Changes p now st (write_claim st key c)
  write-Changes key c h k = elim (Bool-cases (text_eq key k)) [
    | inl e ↦
        rw (lookup-put key k c st.run_claims, e)
          (subst (λ j. Change (p.MayCreate j) (p.MayAct j) now (lookup j st.run_claims) (some c))
            (text_eq→eq key k e) h)
    | inr e ↦ rw (lookup-put key k c st.run_claims, e) (Change.same refl)
  ]

  pub drop-Changes :
      (key : Text) {c : RunClaim}
      → lookup key st.run_claims ≡ some c
      → p.MayAct key c
      → Changes p now st (drop_claim st key)
  drop-Changes key {c} found h k = elim (Bool-cases (text_eq key k)) [
    | inl e ↦
        rw (lookup-remove key k st.run_claims, e)
          (subst (λ j. Change (p.MayCreate j) (p.MayAct j) now (lookup j st.run_claims) none)
            (text_eq→eq key k e) (Change.dropped c h found refl))
    | inr e ↦ rw (lookup-remove key k st.run_claims, e) (Change.same refl)
  ]
