-- ===== src/Store/Claims/Fencing.antt =====
-- internal/store/memory/runclaims.go: credentials of an epoch that is over.
use ants.Prelude.{
  text_eq_refl, ℕ, suc, ◌+◌, ◌≤◌, ◌<◌, ◌≡◌, ◌≢◌, sym, ap, subst, ◌∙◌, ◌⊎◌, inl, Option, none, some,
  List, [], ◌∷◌, Text, length, Time, Duration, Int64, sign_bit, arith, All,
}
use ants.Domain.Errors.{ok}
use ants.Domain.ClaimStatus.{ClaimStatus}
use ants.Domain.Claim.{RunClaim}
use ants.Ports.Claims.{RunClaimRef, LeaseRequest}
use ants.Prelude.{Entropy}
use ants.Store.Assoc.{lookup}
use ants.Store.Assoc.Laws.{lookup-put}
use ants.Store.Assoc.Unique.{IsUnique}
use ants.Store.Claims.{
  Store, acquire, acquire_claim, release_claim, heartbeat, release, complete, fenced,
}
use ants.Store.Claims.Row.{Change}
use ants.Store.Claims.Inversion.{
  find_claim-ok, fenced-ok, matches-lem, acquire-ok, heartbeat-ok, release-ok, complete-ok,
}
use ants.Store.Claims.Trace.{Call, acquire_one, step, history, Creates}
use ants.Store.Claims.Steps.{step-Changes}
use ants.Store.Claims.Keys.{step-acquire, step-IsUnique}
use ants.Store.Claims.WellFormed.{IsWell, AllWell, step-AllWell}

-- The claim, if there is one, is in a later epoch than `g`, or has been released in that epoch.
abbrev pub IsPast : Int64 → Option RunClaim → Type 0
IsPast g none = Unit {0}
IsPast g (some c) = (g < c.generation) ⊎ ((g ≡ c.generation) × (c.status ≡ ClaimStatus.runnable))

Change-IsPast :
    {P : Type 0} {Q : RunClaim → Type 0} {now : Time} {o o' : Option RunClaim} (g : Int64) (n : ℕ)
    → n < sign_bit
    → ((c : RunClaim) → o ≡ some c → IsWell n c)
    → ¬ P
    → IsPast g o
    → Change P Q now o o'
    → IsPast g o'
unfolding acquire_claim release_claim
Change-IsPast g n small w never past (Change.same e) = subst (IsPast g) (sym e) past
Change-IsPast g n small w never past (Change.created t r p _ _) = absurd (never p)
Change-IsPast {now} g n small w never past (Change.acquired c owner token f d old _ _ _ e) =
    let before : IsPast g (some c) = subst (IsPast g) old past in
    let bound : c.generation ≤ n = (w c old).bounded in
    subst (IsPast g) (sym e) (inl (ground (arith, before, bound)))
Change-IsPast g n small w never past (Change.extended c d _ old claimed e) =
    let before : IsPast g (some c) = subst (IsPast g) old past in subst (IsPast g) (sym e) before
Change-IsPast g n small w never past (Change.released c _ old e) =
    let before : IsPast g (some c) = subst (IsPast g) old past in
    subst (IsPast g) (sym e) (ground (arith, before))
Change-IsPast g n small w never past (Change.dropped c _ _ e) = subst (IsPast g) (sym e) tt

-- No call with these credentials succeeds.
abbrev pub IsPowerless : RunClaimRef → Store → Type 0
IsPowerless ref st =
    (now : Time) (d : Duration) (r : Store × RunClaim) (st' : Store)
    → (heartbeat ref d now st ≢ ok r) × (release ref now st ≢ ok r) × (complete ref st ≢ ok st')

fenced-past :
    (ref : RunClaimRef) (st : Store) {c : RunClaim}
    → IsPast ref.generation (lookup ref.run_id st.run_claims)
    → fenced ref st ≢ ok c
fenced-past ref st {c} past h =
    let (found, hit) = fenced-ok ref st h in
    let (claimed, _, _, g) = matches-lem c ref.owner ref.token ref.generation hit in
    let here : IsPast ref.generation (some c) = subst (IsPast ref.generation) found past in
    ground (arith, here, claimed, g)

IsPast-IsPowerless :
    (ref : RunClaimRef) (st : Store)
    → IsPast ref.generation (lookup ref.run_id st.run_claims)
    → IsPowerless ref st
IsPast-IsPowerless ref st past now d r st' = (
  λ h. fenced-past ref st past (heartbeat-ok ref d now st h).1,
  λ h. fenced-past ref st past (release-ok ref now st h).1,
  λ h. fenced-past ref st past (complete-ok ref st h).1,
)

-- No call of the history creates the claim of run `k` anew.
abbrev pub NeverCreates : Text → List (Time × Call) → Type 0
NeverCreates k = All (λ (call : Time × Call). ¬ (Creates call.1 k))

history-IsPast :
    (g : Int64) (k : Text) (n : ℕ) (calls : List (Time × Call)) (st : Store)
    → n + length calls < sign_bit
    → IsUnique st.run_claims
    → AllWell n st
    → NeverCreates k calls
    → IsPast g (lookup k st.run_claims)
    → IsPast g (lookup k (history calls st).run_claims)
unfolding history
history-IsPast g k n [] st small u w never past = past
history-IsPast g k n ((now, call) ∷ calls) st small u w never past =
    history-IsPast g k (suc n) calls (step now call st) (omega arith) (step-IsUnique now call st u)
      (step-AllWell n now call st (omega arith) u w) never.1
      (Change-IsPast g n (omega arith) (w k) never.0 past (step-Changes now call st u k))

acquire-IsPast :
    (n : ℕ) (st : Store) (ref : RunClaimRef) (c : RunClaim) (req : LeaseRequest) (now : Time)
    (entropy : Entropy) (r : Store × RunClaim)
    → AllWell n st
    → n < sign_bit
    → fenced ref st ≡ ok c
    → req.run_id ≡ ref.run_id
    → acquire req now entropy st ≡ ok r
    → IsPast ref.generation (lookup ref.run_id r.0.run_claims)
unfolding acquire_claim
acquire-IsPast n st ref c req now entropy r w small held same_run h =
    let (d, token, own, _, _, _, shape) = acquire-ok req now entropy st h in
    let there = (find_claim-ok st req.tenant_id req.run_id own).0 in
    let (found, hit) = fenced-ok ref st held in
    let (_, _, _, g) = matches-lem c ref.owner ref.token ref.generation hit in
    let bound : d.generation ≤ n = (w req.run_id d there).bounded in
    let same : c ≡ d = cc (found, there, ap (λ k. lookup k st.run_claims) same_run) in
    let now_there : lookup ref.run_id r.0.run_claims
        ≡ some (acquire_claim d req.owner token now req.lease_for) =
      ap (λ (p : Store × RunClaim). lookup ref.run_id p.0.run_claims) shape
      ∙ lookup-put req.run_id ref.run_id _ st.run_claims
      ∙ rw (same_run, text_eq_refl ref.run_id) in
    subst (IsPast ref.generation) (sym now_there)
      (inl (ground (arith, bound, g, ap (λ (x : RunClaim). x.generation) same)))

-- Once anybody acquires a run whose lease had lapsed, the credentials of its last holder do nothing
-- for good: after any further calls that do not create the run's claim anew, they neither extend nor
-- release nor complete it. The store has had at most `n` calls before, of fewer than 2 ^ 63 in all.
pub superseded-IsPowerless :
    (n : ℕ) (st : Store) (ref : RunClaimRef) (c : RunClaim) (req : LeaseRequest) (now : Time)
    (entropy : Entropy) (r : Store × RunClaim) (calls : List (Time × Call))
    → IsUnique st.run_claims
    → AllWell n st
    → suc n + length calls < sign_bit
    → fenced ref st ≡ ok c
    → req.run_id ≡ ref.run_id
    → acquire req now entropy st ≡ ok r
    → NeverCreates ref.run_id calls
    → IsPowerless ref (history calls r.0)
superseded-IsPowerless n st ref c req now entropy r calls u w small held same_run h never =
    let stepped = step-acquire st req now entropy r h in
    IsPast-IsPowerless ref (history calls r.0) (
      history-IsPast ref.generation ref.run_id (suc n) calls r.0 small
        (subst (λ (x : Store). IsUnique x.run_claims) stepped
          (step-IsUnique now (acquire_one req entropy) st u))
        (subst (AllWell (suc n)) stepped
          (step-AllWell n now (acquire_one req entropy) st (omega arith) u w))
        never (acquire-IsPast n st ref c req now entropy r w (omega arith) held same_run h))
