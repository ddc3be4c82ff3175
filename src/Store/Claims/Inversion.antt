-- ===== src/Store/Claims/Inversion.antt =====
-- What an operation on run claims that succeeds has seen, and what it wrote.
use ants.Prelude.{
  Entropy, ◌≡◌, refl, sym, subst, Bool, true, false, not, Option, none, some, Text, text_eq,
  text_eq_iff, Time, Duration, Int64, is_pos, arith,
}
use ants.Domain.Run.{Run, is_terminal}
use ants.Domain.Errors.{Error, ok, bind-ok, then-ok, refuse_if-ok, ok-injective}
use ants.Domain.ClaimStatus.{ClaimStatus}
use ants.Domain.Claim.{RunClaim, new_run_claim_token, matches, claim_expired}
use ants.Ports.Claims.{RunClaimRef, LeaseRequest, validate_ref, validate_lease}
use ants.Store.Assoc.{lookup}
use ants.Store.Claims.{
  Store, claim_eligible, acquire_claim, release_claim, find_claim, own_run, write_claim, drop_claim,
  is_some, create, acquire, fenced, heartbeat, release, complete, cleanup_terminal,
}
use ants.Store.Claims.Row.{fresh_claim, extend_claim}

not-eq-false : (b : Bool) → not b ≡ false → b ≡ true
not-eq-false true h = refl
not-eq-false false h = cc

own_run-ok :
    (e : Error) (tenant_id : Text) (o : Option Run) {r : Run}
    → own_run e tenant_id o ≡ ok r
    → o ≡ some r
own_run-ok e tenant_id o h = ground arith

pub find_claim-ok :
    (st : Store) (tenant_id run_id : Text) {c : RunClaim}
    → find_claim st tenant_id run_id ≡ ok c
    → (lookup run_id st.run_claims ≡ some c) × (text_eq c.tenant_id tenant_id ≡ true)
unfolding find_claim
find_claim-ok st tenant_id run_id h = ground arith

pub fenced-ok :
    (ref : RunClaimRef) (st : Store) {c : RunClaim}
    → fenced ref st ≡ ok c
    → (lookup ref.run_id st.run_claims ≡ some c)
      × (matches c ref.owner ref.token ref.generation ≡ true)
unfolding fenced
fenced-ok ref st {c} h =
    let (d, found, h₁) = bind-ok (find_claim st ref.tenant_id ref.run_id) _ h in
    let (hit, h₂) = refuse_if-ok (not (matches d ref.owner ref.token ref.generation)) _ (ok d) h₁ in
    let same : d ≡ c = ok-injective h₂ in
    subst
      (λ x.
        (lookup ref.run_id st.run_claims ≡ some x)
        × (matches x ref.owner ref.token ref.generation ≡ true))
      same ((find_claim-ok st ref.tenant_id ref.run_id found).0, ground (arith, hit))

pub matches-lem :
    (c : RunClaim) (owner token : Text) (generation : Int64)
    → matches c owner token generation ≡ true
    → (c.status ≡ ClaimStatus.claimed)
      × (c.owner ≡ owner)
      × (c.token ≡ token)
      × (c.generation ≡ generation)
unfolding matches
matches-lem c owner token generation h =
    ground (arith, text_eq_iff c.owner owner, text_eq_iff c.token token)

-- What a call that succeeds has seen and done.
pub acquire-ok :
    (req : LeaseRequest) (now : Time) (entropy : Entropy) (st : Store) {r : Store × RunClaim}
    → acquire req now entropy st ≡ ok r
    → (c : RunClaim) × (token : Text) × (find_claim st req.tenant_id req.run_id ≡ ok c)
      × (validate_lease req ≡ ok tt)
      × (claim_eligible c now ≡ true)
      × (new_run_claim_token entropy ≡ ok token)
      × (r ≡ (
        write_claim st req.run_id (acquire_claim c req.owner token now req.lease_for),
        acquire_claim c req.owner token now req.lease_for,
      ))
unfolding acquire
acquire-ok req now entropy st {r} h =
    let (valid, h₁) = then-ok (validate_lease req) _ h in
    let (c, found, h₂) = bind-ok (find_claim st req.tenant_id req.run_id) _ h₁ in
    let (eligible, h₃) = refuse_if-ok (not (claim_eligible c now)) _ _ h₂ in
    let (token, minted, h₄) = bind-ok (new_run_claim_token entropy) _ h₃ in
    (c, token, found, valid, ground (arith, eligible), minted, sym (ok-injective h₄))

pub heartbeat-ok :
    (ref : RunClaimRef) (extend_for : Duration) (now : Time) (st : Store) {r : Store × RunClaim}
    → heartbeat ref extend_for now st ≡ ok r
    → (c : RunClaim) × (fenced ref st ≡ ok c)
      × (is_pos extend_for ≡ true)
      × (claim_expired c.expires_at now ≡ false)
      × (r ≡ (
        write_claim st ref.run_id (extend_claim c now extend_for),
        extend_claim c now extend_for,
      ))
unfolding heartbeat
heartbeat-ok ref extend_for now st h =
    let (_, h₁) = then-ok (validate_ref ref) _ h in
    let (positive, h₂) = refuse_if-ok (not (is_pos extend_for)) _ _ h₁ in
    let (c, found, h₃) = bind-ok (fenced ref st) _ h₂ in
    let (live, h₄) = refuse_if-ok (claim_expired c.expires_at now) _ _ h₃ in
    (c, found, not-eq-false (is_pos extend_for) positive, live, sym (ok-injective h₄))

pub release-ok :
    (ref : RunClaimRef) (now : Time) (st : Store) {r : Store × RunClaim}
    → release ref now st ≡ ok r
    → (c : RunClaim) × (fenced ref st ≡ ok c)
      × (r ≡ (write_claim st ref.run_id (release_claim c now), release_claim c now))
unfolding release
release-ok ref now st h =
    let (_, h₁) = then-ok (validate_ref ref) _ h in
    let (c, found, h₂) = bind-ok (fenced ref st) _ h₁ in (c, found, sym (ok-injective h₂))

pub complete-ok :
    (ref : RunClaimRef) (st : Store) {st' : Store}
    → complete ref st ≡ ok st'
    → (c : RunClaim) × (fenced ref st ≡ ok c) × (st' ≡ drop_claim st ref.run_id)
unfolding complete
complete-ok ref st h =
    let (_, h₁) = then-ok (validate_ref ref) _ h in
    let (c, found, h₂) = bind-ok (fenced ref st) _ h₁ in (c, found, sym (ok-injective h₂))

pub cleanup-ok :
    (tenant_id run_id : Text) (st : Store) {st' : Store}
    → cleanup_terminal tenant_id run_id st ≡ ok st'
    → (r : Run) × (lookup run_id st.runs ≡ some r)
      × (is_terminal r.status ≡ true)
      × (st' ≡ drop_claim st run_id)
unfolding cleanup_terminal
cleanup-ok tenant_id run_id st h =
    let (r, found, h₁) = bind-ok (own_run _ tenant_id (lookup run_id st.runs)) _ h in
    let (ended, h₂) = refuse_if-ok (not (is_terminal r.status)) _ _ h₁ in
    (
      r,
      own_run-ok _ tenant_id (lookup run_id st.runs) found,
      not-eq-false (is_terminal r.status) ended,
      sym (ok-injective h₂),
    )

pub create-ok :
    (tenant_id run_id : Text) (now : Time) (st : Store) {st' : Store}
    → create tenant_id run_id now st ≡ ok st'
    → (r : Run) × (lookup run_id st.runs ≡ some r)
      × (lookup run_id st.run_claims ≡ none)
      × (st' ≡ write_claim st run_id (fresh_claim tenant_id run_id now))
unfolding create
create-ok tenant_id run_id now st h =
    let (r, found, h₁) = bind-ok (own_run _ tenant_id (lookup run_id st.runs)) _ h in
    let (absent, h₂) = refuse_if-ok (is_some (lookup run_id st.run_claims)) _ _ h₁ in
    (
      r,
      own_run-ok _ tenant_id (lookup run_id st.runs) found,
      ground (arith, absent),
      sym (ok-injective h₂),
    )
