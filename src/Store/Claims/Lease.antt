-- ===== src/Store/Claims/Lease.antt =====
-- internal/store/memory/runclaims.go: a live lease and its holder.
use ants.Prelude.{
  Entropy, ℕ, suc, ◌≤◌, ◌<◌, ◌≡◌, refl, sym, subst, ◌∙◌, true, false, Option, none, some, List, [],
  ◌∷◌, Text, text_eq_refl, length, Time, Duration, is_pos, sign_bit, arith, All,
}
use ants.Domain.ClaimStatus.{ClaimStatus}
use ants.Domain.Claim.{
  new_run_claim_token, RunClaim, claim_expired, matches, validate_fencing, validate_claim_owner,
}
use ants.Domain.Claim.Laws.{new_run_claim_token-length}
use ants.Domain.Errors.{ok, then-ok}
use ants.Ports.Claims.{RunClaimRef, LeaseRequest, validate_ref, validate_lease, positive_duration}
use ants.Store.Assoc.{lookup}
use ants.Store.Assoc.Laws.{lookup-put}
use ants.Store.Assoc.Unique.{IsUnique}
use ants.Store.Claims.{
  Store, acquire, acquire_claim, claim_eligible, heartbeat, release, complete, fenced, find_claim,
  write_claim, drop_claim, release_claim,
}
use ants.Store.Claims.Row.{Change, extend_claim}
use ants.Store.Claims.Inversion.{find_claim-ok, acquire-ok}
use ants.Store.Claims.Trace.{Call, acquire_one, step, history, Acts}
use ants.Store.Claims.Steps.{step-Changes}
use ants.Store.Claims.Keys.{step-acquire, step-IsUnique}
use ants.Store.Claims.WellFormed.{IsWell, AllWell}

-- Every call comes before the deadline of the claim, bears other credentials, and is no clean-up of
-- its run.
abbrev pub IsQuiet : Text → RunClaim → List (Time × Call) → Type 0
IsQuiet k c =
    All
      (λ (call : Time × Call). (claim_expired c.expires_at call.0 ≡ false) × (¬ (Acts call.1 k c)))

Change-held :
    {P : Type 0} {Q : RunClaim → Type 0} {now : Time} {o o' : Option RunClaim} (c : RunClaim)
    → o ≡ some c
    → c.status ≡ ClaimStatus.claimed
    → claim_expired c.expires_at now ≡ false
    → ¬ (Q c)
    → Change P Q now o o'
    → o' ≡ some c
unfolding claim_eligible
Change-held c here claimed live idle (Change.same e) = cc (e, here)
Change-held c here claimed live idle (Change.created _ _ _ e _) = cc (e, here)
Change-held {now} c here claimed live idle (Change.acquired d _ _ _ _ old free _ _ _) =
    let same : d ≡ c = cc (old, here) in
    absurd (
      clash d (subst (λ (x : RunClaim). x.status ≡ ClaimStatus.claimed) (sym same) claimed)
        (subst (λ (x : RunClaim). claim_expired x.expires_at now ≡ false) (sym same) live) free)
  where
    clash :
        (d : RunClaim)
        → d.status ≡ ClaimStatus.claimed
        → claim_expired d.expires_at now ≡ false
        → claim_eligible d now ≡ true
        → ⊥
    clash d claimed live free = ground arith
Change-held {Q} c here claimed live idle (Change.extended d _ acts old _ _) =
    absurd (idle (subst Q (cc (old, here)) acts))
Change-held {Q} c here claimed live idle (Change.released d acts old _) =
    absurd (idle (subst Q (cc (old, here)) acts))
Change-held {Q} c here claimed live idle (Change.dropped d acts old _) =
    absurd (idle (subst Q (cc (old, here)) acts))

-- While a lease is live, no call changes the claim in any way, unless it bears the claim's own
-- credentials or cleans up after the run: other workers can neither take nor extend nor end it.
pub history-held :
    (k : Text) (c : RunClaim) (calls : List (Time × Call)) (st : Store)
    → IsUnique st.run_claims
    → lookup k st.run_claims ≡ some c
    → c.status ≡ ClaimStatus.claimed
    → IsQuiet k c calls
    → lookup k (history calls st).run_claims ≡ some c
unfolding history
history-held k c [] st u here claimed quiet = here
history-held k c ((now, call) ∷ calls) st u here claimed quiet =
    history-held k c calls (step now call st) (step-IsUnique now call st u)
      (Change-held c here claimed quiet.0.0 quiet.0.1 (step-Changes now call st u k)) claimed
      quiet.1

-- The credentials that an acquisition hands out.
abbrev pub credentials : RunClaim → Text → RunClaimRef
credentials c run_id = record {
  tenant_id = c.tenant_id;
  run_id = run_id;
  owner = c.owner;
  token = c.token;
  generation = c.generation;
}

module _ (st : Store) (k : Text) (c : RunClaim) where
  matches_self : c.status ≡ ClaimStatus.claimed → matches c c.owner c.token c.generation ≡ true
  unfolding matches
  matches_self e = ground (arith, e, text_eq_refl c.owner, text_eq_refl c.token)

  fenced-credentials :
      lookup k st.run_claims ≡ some c
      → c.status ≡ ClaimStatus.claimed
      → fenced (credentials c k) st ≡ ok c
  unfolding fenced find_claim
  fenced-credentials here claimed = rw (here, text_eq_refl c.tenant_id, matches_self claimed)

  -- The holder of a live lease can extend it, give it back, and complete it.
  holder_acts :
      (now : Time) (d : Duration)
      → lookup k st.run_claims ≡ some c
      → c.status ≡ ClaimStatus.claimed
      → validate_ref (credentials c k) ≡ ok tt
      → is_pos d ≡ true
      → claim_expired c.expires_at now ≡ false
      → (heartbeat (credentials c k) d now st
          ≡ ok (write_claim st k (extend_claim c now d), extend_claim c now d))
        × (release (credentials c k) now st
            ≡ ok (write_claim st k (release_claim c now), release_claim c now))
        × (complete (credentials c k) st ≡ ok (drop_claim st k))
  unfolding heartbeat release complete
  holder_acts now d here claimed valid positive live =
      let held = fenced-credentials here claimed in
      (rw (valid, positive, held, live), rw (valid, held), rw (valid, held))

validate_ref-acquired :
    (n : ℕ) (c : RunClaim) (owner token k : Text) (now : Time) (lease_for : Duration)
    → suc n < sign_bit
    → IsWell n c
    → validate_claim_owner owner ≡ ok tt
    → length token ≡ 43
    → validate_ref (credentials (acquire_claim c owner token now lease_for) k) ≡ ok tt
unfolding validate_ref acquire_claim validate_fencing
validate_ref-acquired n c owner token k now lease_for small w valid len =
    let bound : c.generation ≤ n = w.bounded in rw (valid, len) (ground (arith, bound))

validate_lease-owner :
    (req : LeaseRequest) {x : Unit {0}}
    → validate_lease req ≡ ok x
    → validate_claim_owner req.owner ≡ ok tt
unfolding validate_lease
validate_lease-owner req h =
    (then-ok (validate_claim_owner req.owner) (positive_duration req.lease_for) h).0

token_length :
    (entropy : Entropy) {token : Text} → new_run_claim_token entropy ≡ ok token → length token ≡ 43
unfolding new_run_claim_token
token_length none h = cc
token_length (some f) h = new_run_claim_token-length f h

-- Just after an acquisition the claim stands in the store, held, with credentials that can be used.
acquired :
    (n : ℕ) (st : Store) (req : LeaseRequest) (now : Time) (entropy : Entropy)
    (r : Store × RunClaim)
    → AllWell n st
    → suc n < sign_bit
    → acquire req now entropy st ≡ ok r
    → (lookup req.run_id r.0.run_claims ≡ some r.1)
      × (r.1.status ≡ ClaimStatus.claimed)
      × (validate_ref (credentials r.1 req.run_id) ≡ ok tt)
acquired n st req now entropy r w small h =
    let (c, token, own, valid, _, minted, shape) = acquire-ok req now entropy st h in
    let there = (find_claim-ok st req.tenant_id req.run_id own).0 in
    rw shape (
      stands st req.run_id (acquire_claim c req.owner token now req.lease_for),
      unfold acquire_claim in refl,
      validate_ref-acquired n c req.owner token req.run_id now req.lease_for small
          (w req.run_id c there) (validate_lease-owner req valid) (token_length entropy minted),
    )
  where
    stands :
        (st : Store) (k : Text) (c : RunClaim) → lookup k (write_claim st k c).run_claims ≡ some c
    stands st k c = lookup-put k k c st.run_claims ∙ rw (text_eq_refl k)

-- An acquisition that succeeds gives its owner the run: as long as the deadline has not come, and
-- whatever the others do meanwhile short of a clean-up, the credentials that it handed out extend,
-- give back and complete the lease. The store has had at most `n` calls, of fewer than 2 ^ 63.
pub acquire_grants :
    (n : ℕ) (st : Store) (req : LeaseRequest) (now : Time) (entropy : Entropy)
    (r : Store × RunClaim) (calls : List (Time × Call)) (later : Time) (d : Duration)
    → IsUnique st.run_claims
    → AllWell n st
    → suc n < sign_bit
    → acquire req now entropy st ≡ ok r
    → IsQuiet req.run_id r.1 calls
    → claim_expired r.1.expires_at later ≡ false
    → is_pos d ≡ true
    → let ref = credentials r.1 req.run_id in
      let st' = history calls r.0 in
      (heartbeat ref d later st'
        ≡ ok (write_claim st' req.run_id (extend_claim r.1 later d), extend_claim r.1 later d))
      × (release ref later st'
          ≡ ok (write_claim st' req.run_id (release_claim r.1 later), release_claim r.1 later))
      × (complete ref st' ≡ ok (drop_claim st' req.run_id))
acquire_grants n st req now entropy r calls later d u w small h quiet live positive =
    let (here, claimed, valid) = acquired n st req now entropy r w small h in
    let unique : IsUnique r.0.run_claims =
      subst (λ (x : Store). IsUnique x.run_claims) (step-acquire st req now entropy r h)
        (step-IsUnique now (acquire_one req entropy) st u) in
    holder_acts (history calls r.0) req.run_id r.1 later d
      (history-held req.run_id r.1 calls r.0 unique here claimed quiet) claimed valid positive live
