-- ===== src/Store/Claims.antt =====
-- internal/store/memory/runclaims.go. An operation takes the instant that the store's clock shows and,
-- where it mints a token, what the source of randomness yields. Each runs under the store's write
-- lock, so operations follow one another. An operation that returns `Result Store` changes nothing
-- where it fails; `acquire_next` returns the store in either case.
pub mod Row
pub mod Inversion
pub mod Fencing
pub mod Lease
pub mod Trace
pub mod Steps
pub mod Keys
pub mod WellFormed
pub mod Batch
use ants.Prelude.{
  Entropy, ℕ, ◌+◌, Bool, true, false, not, ◌||◌, Option, none, some, List, [], ◌∷◌, Text, text_eq,
  text_lt, Time, Duration, Int64, inc, is_pos, ltb, ◌==◌, ◌&&◌, keep, take, sort, if◌then◌else◌,
}
use ants.Domain.Errors.{
  Result, ok, err, ◌>>=◌, ◌>>◌, refuse_if, invalidf, conflictf, not_foundf, Error,
}
use ants.Domain.ClaimStatus.{ClaimStatus}
use ants.Domain.Claim.{RunClaim, new_run_claim_token, matches, claim_expiry, claim_expired}
use ants.Domain.Run.{Run, is_terminal}
use ants.Ports.Claims.{
  RunClaimRef, LeaseRequest, BatchRequest, validate_ref, validate_lease, validate_batch,
}
use ants.Store.Assoc.{Assoc, lookup, put, remove}

-- The part of `storeState` that the repository reads and writes.
pub record Store : Type 0 where
  pub runs : Assoc Run
  pub run_claims : Assoc RunClaim

unfoldable pub claim_eligible : RunClaim → Time → Bool
claim_eligible c now = elim c.status [
  | ClaimStatus.runnable ↦ true
  | ClaimStatus.claimed ↦ claim_expired c.expires_at now
]

unfoldable pub acquire_claim : RunClaim → (owner token : Text) → Time → Duration → RunClaim
acquire_claim c owner token now lease_for = record c {
  status = ClaimStatus.claimed;
  owner = owner;
  token = token;
  generation = inc c.generation;
  attempts = inc c.attempts;
  acquired_at = some now;
  heartbeat_at = some now;
  expires_at = some (claim_expiry now lease_for);
  updated_at = now;
}

unfoldable pub release_claim : RunClaim → Time → RunClaim
release_claim c now = record c {
  status = ClaimStatus.runnable;
  owner = [];
  token = [];
  expires_at = none;
  updated_at = now;
}

-- A row of the tenant, or a uniform not-found.
abbrev own_claim : Text → Option RunClaim → Result RunClaim
own_claim tenant_id none = err (not_foundf "run_claim_not_found")
own_claim tenant_id (some c) =
    if not (text_eq c.tenant_id tenant_id) then err (not_foundf "run_claim_not_found") else ok c

unfoldable pub find_claim : Store → (tenant_id run_id : Text) → Result RunClaim
find_claim st tenant_id run_id = own_claim tenant_id (lookup run_id st.run_claims)

abbrev own_run : Error → Text → Option Run → Result Run
own_run e tenant_id none = err e
own_run e tenant_id (some r) = if not (text_eq r.tenant_id tenant_id) then err e else ok r

abbrev is_some : Option RunClaim → Bool
is_some none = false
is_some (some c) = true

abbrev pub write_claim : Store → Text → RunClaim → Store
write_claim st run_id c = record st { run_claims = put run_id c st.run_claims }

abbrev pub drop_claim : Store → Text → Store
drop_claim st run_id = record st { run_claims = remove run_id st.run_claims }

unfoldable pub create : (tenant_id run_id : Text) → Time → Store → Result Store
create tenant_id run_id now st = do
  _ ← own_run (invalidf "run_claim_run_unknown") tenant_id (lookup run_id st.runs)
  refuse_if (is_some (lookup run_id st.run_claims)) (conflictf "run_claim_exists")
  ok (
      write_claim st run_id (record {
        tenant_id = tenant_id;
        run_id = run_id;
        status = ClaimStatus.runnable;
        owner = [];
        token = [];
        generation = 0;
        attempts = 0;
        acquired_at = none;
        heartbeat_at = none;
        expires_at = none;
        created_at = now;
        updated_at = now;
      }))

unfoldable pub get : (tenant_id run_id : Text) → Store → Result RunClaim
get tenant_id run_id st = do c ← find_claim st tenant_id run_id; ok (record c { token = [] })

unfoldable pub acquire : LeaseRequest → Time → Entropy → Store → Result (Store × RunClaim)
acquire req now entropy st = do
  validate_lease req
  c ← find_claim st req.tenant_id req.run_id
  refuse_if (not (claim_eligible c now)) (conflictf "run_claim_held")
  token ← new_run_claim_token entropy
  let c' = acquire_claim c req.owner token now req.lease_for
  ok (write_claim st req.run_id c', c')

-- `fenced`: the referenced claim, if the credentials are those of its holder.
unfoldable pub fenced : RunClaimRef → Store → Result RunClaim
fenced ref st = do
  c ← find_claim st ref.tenant_id ref.run_id
  refuse_if (not (matches c ref.owner ref.token ref.generation))
      (conflictf "run_claim_stale_fencing")
  ok c

unfoldable pub heartbeat : RunClaimRef → Duration → Time → Store → Result (Store × RunClaim)
heartbeat ref extend_for now st = do
  validate_ref ref
  refuse_if (not (is_pos extend_for)) (invalidf "run_claim_lease_duration")
  c ← fenced ref st
  refuse_if (claim_expired c.expires_at now) (conflictf "run_claim_lease_expired")
  let c' = record c {
    heartbeat_at = some now;
    expires_at = some (claim_expiry now extend_for);
    updated_at = now;
  }
  ok (write_claim st ref.run_id c', c')

unfoldable pub release : RunClaimRef → Time → Store → Result (Store × RunClaim)
release ref now st = do
  validate_ref ref
  c ← fenced ref st
  let c' = release_claim c now
  ok (write_claim st ref.run_id c', c')

unfoldable pub complete : RunClaimRef → Store → Result Store
complete ref st = do validate_ref ref; _ ← fenced ref st; ok (drop_claim st ref.run_id)

unfoldable pub cleanup_terminal : (tenant_id run_id : Text) → Store → Result Store
cleanup_terminal tenant_id run_id st = do
  r ← own_run (not_foundf "run_not_found") tenant_id (lookup run_id st.runs)
  refuse_if (not (is_terminal r.status)) (invalidf "run_claim_not_terminal")
  ok (drop_claim st run_id)

-- The rows of the map, eldest first, in the order of `AcquireNext`.
unfoldable pub claim_before : Text × RunClaim → Text × RunClaim → Bool
claim_before (_, c) (_, d) =
    if not (c.created_at == d.created_at)
    then ltb c.created_at d.created_at
    else text_lt c.run_id d.run_id

unfoldable pub eligible_rows : Time → Store → List (Text × RunClaim)
eligible_rows now st =
    sort claim_before (keep (λ (row : Text × RunClaim). claim_eligible row.1 now) st.run_claims)

abbrev prepend : RunClaim → Store × Result (List RunClaim) → Store × Result (List RunClaim)
prepend c (st, ok cs) = (st, ok (c ∷ cs))
prepend c (st, err e) = (st, err e)

-- The loop over the selected rows; `entropy i` is what the i-th reading of randomness yields. Where
-- it fails, the rows before stay claimed.
unfoldable pub acquire_rows :
    (owner : Text)
    → Duration
    → Time
    → (ℕ → Entropy)
    → ℕ
    → List (Text × RunClaim)
    → Store
    → Store × Result (List RunClaim)
acquire_rows owner lease_for now entropy i [] st = (st, ok [])
acquire_rows owner lease_for now entropy i ((key, c) ∷ rows) st =
    elim (new_run_claim_token (entropy i)) [
      | err e ↦ (st, err e)
      | ok token ↦
          let c' = acquire_claim c owner token now lease_for in
          prepend c' (acquire_rows owner lease_for now entropy (i + 1) rows (write_claim st key c'))
    ]

unfoldable pub acquire_next :
    BatchRequest → Time → (ℕ → Entropy) → Store → Store × Result (List RunClaim)
unfolding acquire_rows eligible_rows
acquire_next req now entropy st = elim (validate_batch req) [
  | err e ↦ (st, err e)
  | ok _ ↦
      acquire_rows req.owner req.lease_for now entropy 0 (take req.limit (eligible_rows now st)) st
]
