-- ===== src/Store/Claims/WellFormed.antt =====
-- internal/store/memory/runclaims.go: the well-formed claims.
use ants.Prelude.{
  ℕ, suc, ◌+◌, ◌≤◌, ◌<◌, ◌≡◌, refl, sym, ap, subst, Option, none, some, List, [], ◌∷◌, Text, length,
  Time, Duration, inc, sign_bit, arith,
}
use ants.Domain.Errors.{ok}
use ants.Domain.ClaimStatus.{ClaimStatus}
use ants.Domain.Claim.{RunClaim, validate_claim_owner, claim_token_length, claim_expiry}
use ants.Domain.Claim.Laws.{new_run_claim_token-length}
use ants.Store.Assoc.{lookup}
use ants.Store.Assoc.Unique.{IsUnique}
use ants.Store.Claims.{Store, acquire_claim, release_claim}
use ants.Store.Claims.Row.{Change, fresh_claim, extend_claim}
use ants.Store.Claims.Trace.{Call, step, history}
use ants.Store.Claims.Steps.{step-Changes}
use ants.Store.Claims.Keys.{step-IsUnique}

-- A claim after at most `n` calls. Every acquisition counts one attempt and opens one epoch; a claim
-- that is free bears no credentials, and one that is held bears credentials that can be used.
pub record IsWell (n : ℕ) (c : RunClaim) : Type 0 where
  pub counted : c.attempts ≡ c.generation
  pub bounded : c.generation ≤ n
  pub free :
      c.status ≡ ClaimStatus.runnable → (c.owner ≡ []) × (c.token ≡ []) × (c.expires_at ≡ none)
  pub held :
      c.status ≡ ClaimStatus.claimed
      → (validate_claim_owner c.owner ≡ ok tt)
        × (length c.token ≡ claim_token_length)
        × (0 < c.generation)
        × ((t : Time) × (c.expires_at ≡ some t))

abbrev pub AllWell : ℕ → Store → Type 0
AllWell n st = (k : Text) (c : RunClaim) → lookup k st.run_claims ≡ some c → IsWell n c

acquire_claim-IsWell :
    (n : ℕ) (c : RunClaim) (owner token : Text) (now : Time) (lease_for : Duration)
    → suc n < sign_bit
    → IsWell n c
    → validate_claim_owner owner ≡ ok tt
    → length token ≡ claim_token_length
    → IsWell (suc n) (acquire_claim c owner token now lease_for)
unfolding acquire_claim
acquire_claim-IsWell n c owner token now lease_for small w valid len = record {
  counted = ap inc w.counted;
  bounded = omega (arith, w.bounded);
  free = λ e. cc e;
  held = λ e. (valid, len, omega (arith, w.bounded), (claim_expiry now lease_for, refl));
}

release_claim-IsWell :
    (n : ℕ) (c : RunClaim) (now : Time) → IsWell n c → IsWell (suc n) (release_claim c now)
unfolding release_claim
release_claim-IsWell n c now w = record {
  counted = w.counted;
  bounded = omega (arith, w.bounded);
  free = λ e. (refl, refl, refl);
  held = λ e. cc e;
}

extend_claim-IsWell :
    (n : ℕ) (c : RunClaim) (now : Time) (d : Duration)
    → IsWell n c
    → c.status ≡ ClaimStatus.claimed
    → IsWell (suc n) (extend_claim c now d)
extend_claim-IsWell n c now d w e = record {
  counted = w.counted;
  bounded = omega (arith, w.bounded);
  free = λ f. cc (e, f);
  held = λ f. ((w.held e).0, (w.held e).1, (w.held e).2, (claim_expiry now d, refl));
}

fresh_claim-IsWell : (n : ℕ) (t r : Text) (now : Time) → IsWell n (fresh_claim t r now)
fresh_claim-IsWell n t r now = record {
  counted = refl;
  bounded = omega arith;
  free = λ e. (refl, refl, refl);
  held = λ e. cc e;
}

IsWell-suc : (n : ℕ) (c : RunClaim) → IsWell n c → IsWell (suc n) c
IsWell-suc n c w = record {
  counted = w.counted;
  bounded = omega (arith, w.bounded);
  free = w.free;
  held = w.held;
}

Change-IsWell :
    {P : Type 0} {Q : RunClaim → Type 0} {now : Time} {o o' : Option RunClaim} (n : ℕ)
    → suc n < sign_bit
    → ((c : RunClaim) → o ≡ some c → IsWell n c)
    → Change P Q now o o'
    → (c' : RunClaim) → o' ≡ some c'
    → IsWell (suc n) c'
Change-IsWell {now} n small w (Change.same e) c' h = IsWell-suc n c' (w c' (cc (e, h)))
Change-IsWell {now} n small w (Change.created t r _ _ e) c' h =
    subst (IsWell (suc n)) (cc (e, h)) (fresh_claim-IsWell (suc n) t r now)
Change-IsWell {now} n small w (Change.acquired c owner token f d old _ valid minted e) c' h =
    subst (IsWell (suc n)) (cc (e, h)) (
      acquire_claim-IsWell n c owner token now d small (w c old) valid
        (new_run_claim_token-length f minted))
Change-IsWell {now} n small w (Change.extended c d _ old claimed e) c' h =
    subst (IsWell (suc n)) (cc (e, h)) (extend_claim-IsWell n c now d (w c old) claimed)
Change-IsWell {now} n small w (Change.released c _ old e) c' h =
    subst (IsWell (suc n)) (cc (e, h)) (release_claim-IsWell n c now (w c old))
Change-IsWell {now} n small w (Change.dropped c _ _ e) c' h = cc (e, h)

pub step-AllWell :
    (n : ℕ) (now : Time) (call : Call) (st : Store)
    → suc n < sign_bit
    → IsUnique st.run_claims
    → AllWell n st
    → AllWell (suc n) (step now call st)
step-AllWell n now call st small u w k c' h =
    Change-IsWell n small (w k) (step-Changes now call st u k) c' h

pub history-AllWell :
    (n : ℕ) (calls : List (Time × Call)) (st : Store)
    → n + length calls < sign_bit
    → IsUnique st.run_claims
    → AllWell n st
    → AllWell (n + length calls) (history calls st) × IsUnique (history calls st).run_claims
unfolding history
history-AllWell n [] st small u w = (subst (λ m. AllWell m st) (omega arith) w, u)
history-AllWell n ((now, call) ∷ calls) st small u w =
    let (well, unique) =
      history-AllWell (suc n) calls (step now call st) (omega arith) (step-IsUnique now call st u)
        (step-AllWell n now call st (omega arith) u w) in
    (subst (λ m. AllWell m (history calls (step now call st))) (omega arith) well, unique)

-- After any history of fewer than 2 ^ 63 calls on a store without claims: every claim has counted as
-- many attempts as epochs, a free one bears no credentials and no deadline, and a held one bears an
-- owner, a token and a generation that the checks accept, and a deadline.
pub reachable-AllWell :
    (calls : List (Time × Call)) (st : Store)
    → st.run_claims ≡ []
    → length calls < sign_bit
    → AllWell (length calls) (history calls st)
unfolding lookup
reachable-AllWell calls st empty small =
    subst (λ m. AllWell m (history calls st)) (omega arith)
      (history-AllWell 0 calls st (omega arith) (subst IsUnique (sym empty) tt)
        (λ k c h. cc (ap (lookup k) empty, h))).0
