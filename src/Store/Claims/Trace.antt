-- ===== src/Store/Claims/Trace.antt =====
-- Histories of the store: calls at instants, in the order in which they take the lock.
use ants.Prelude.{Entropy, ℕ, ◌≡◌, true, List, [], ◌∷◌, Text, Time, Duration}
use ants.Domain.Errors.{Result, ok, err}
use ants.Domain.Claim.{RunClaim, matches}
use ants.Domain.Run.{Run}
use ants.Ports.Claims.{RunClaimRef, LeaseRequest, BatchRequest}
use ants.Store.Assoc.{Assoc}
use ants.Store.Claims.{
  Store, create, acquire, acquire_next, heartbeat, release, complete, cleanup_terminal,
}
use ants.Store.Claims.Row.{Cause}

-- `update_runs` is whatever the other repositories do to the runs of the store.
pub data Call : Type 0 where
  create_claim : (tenant_id run_id : Text) → Call
  acquire_one : LeaseRequest → Entropy → Call
  acquire_many : BatchRequest → (ℕ → Entropy) → Call
  extend : RunClaimRef → Duration → Call
  give_back : RunClaimRef → Call
  finish : RunClaimRef → Call
  clean_up : (tenant_id run_id : Text) → Call
  update_runs : Assoc Run → Call

-- A call that fails leaves the store as it was, but for `acquire_many`.
abbrev pub or_stay : Store → Result Store → Store
or_stay st (ok st') = st'
or_stay st (err e) = st

abbrev pub or_stay_with : Store → Result (Store × RunClaim) → Store
or_stay_with st (ok (st', c)) = st'
or_stay_with st (err e) = st

unfoldable pub step : Time → Call → Store → Store
step now (create_claim tenant_id run_id) st = or_stay st (create tenant_id run_id now st)
step now (acquire_one req entropy) st = or_stay_with st (acquire req now entropy st)
step now (acquire_many req entropy) st = (acquire_next req now entropy st).0
step now (extend ref d) st = or_stay_with st (heartbeat ref d now st)
step now (give_back ref) st = or_stay_with st (release ref now st)
step now (finish ref) st = or_stay st (complete ref st)
step now (clean_up tenant_id run_id) st = or_stay st (cleanup_terminal tenant_id run_id st)
step now (update_runs runs) st = record st { runs = runs }

unfoldable pub history : List (Time × Call) → Store → Store
history [] st = st
history ((now, call) ∷ calls) st = history calls (step now call st)

-- The call creates the claim of run `k`.
abbrev pub Creates : Call → Text → Type 0
Creates (create_claim tenant_id run_id) k = run_id ≡ k
Creates _ k = ⊥

abbrev pub IsHolder : RunClaimRef → Text → RunClaim → Type 0
IsHolder ref k c = (ref.run_id ≡ k) × (matches c ref.owner ref.token ref.generation ≡ true)

-- The call bears the credentials of the claim `c` of run `k`, or cleans up after the run.
abbrev pub Acts : Call → Text → RunClaim → Type 0
Acts (extend ref d) k c = IsHolder ref k c
Acts (give_back ref) k c = IsHolder ref k c
Acts (finish ref) k c = IsHolder ref k c
Acts (clean_up tenant_id run_id) k c = run_id ≡ k
Acts _ k c = ⊥

abbrev pub cause : Call → Cause
cause call = record { MayCreate = Creates call; MayAct = Acts call }
