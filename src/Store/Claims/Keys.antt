-- ===== src/Store/Claims/Keys.antt =====
-- internal/store/memory/runclaims.go: the keys of the map of claims, call by call.
use ants.Prelude.{◌+◌, take, Entropy, ℕ, ◌≡◌, List, [], ◌∷◌, Text, Time, Duration, inl, inr}
use ants.Domain.Errors.{ok, Result-cases}
use ants.Domain.Claim.{RunClaim}
use ants.Ports.Claims.{validate_batch, LeaseRequest, BatchRequest}
use ants.Store.Assoc.Unique.{IsUnique, put-IsUnique, remove-IsUnique}
use ants.Store.Claims.{
  eligible_rows, Store, create, acquire, acquire_next, heartbeat, release, complete,
  cleanup_terminal, acquire_claim, acquire_rows,
}
use ants.Store.Claims.Inversion.{
  create-ok, acquire-ok, heartbeat-ok, release-ok, complete-ok, cleanup-ok,
}
use ants.Store.Claims.Batch.{end, end-cons}
use ants.Store.Claims.Trace.{
  Call, create_claim, acquire_one, acquire_many, extend, give_back, finish, clean_up, update_runs,
  step,
}

end-IsUnique :
    (owner : Text) (lease_for : Duration) (now : Time) (entropy : ℕ → Entropy) (i : ℕ)
    (rows : List (Text × RunClaim)) (st : Store)
    → IsUnique st.run_claims
    → IsUnique (end owner lease_for now entropy i rows st).run_claims
unfolding acquire_rows
end-IsUnique owner lease_for now entropy i [] st u = u
end-IsUnique owner lease_for now entropy i ((key, c) ∷ rows) st u =
    elim (end-cons owner lease_for now entropy i key c rows st) [
      | inl e ↦ rw e u
      | inr (f, token, _, e) ↦ rw e (
          end-IsUnique owner lease_for now entropy (i + 1) rows _
            (put-IsUnique key (acquire_claim c owner token now lease_for) st.run_claims u))
    ]

acquire_next-IsUnique :
    (req : BatchRequest) (now : Time) (entropy : ℕ → Entropy) (st : Store)
    → IsUnique st.run_claims
    → IsUnique (acquire_next req now entropy st).0.run_claims
unfolding acquire_next
acquire_next-IsUnique req now entropy st u = elim (Result-cases (validate_batch req)) [
  | inl (x, e) ↦
      rw (e, acquire_next)
        (end-IsUnique req.owner req.lease_for now entropy 0 (take req.limit (eligible_rows now st))
          st u)
  | inr (x, e) ↦ rw (e, acquire_next) u
]

pub step-IsUnique :
    (now : Time) (call : Call) (st : Store)
    → IsUnique st.run_claims
    → IsUnique (step now call st).run_claims
unfolding step
step-IsUnique now (create_claim tenant_id run_id) st u =
    elim (Result-cases (create tenant_id run_id now st)) [
      | inl (st', e) ↦
          let (_, _, _, shape) = create-ok tenant_id run_id now st e in
          rw (e, shape) (put-IsUnique run_id _ st.run_claims u)
      | inr (x, e) ↦ rw e u
    ]
step-IsUnique now (acquire_one req entropy) st u =
    elim (Result-cases (acquire req now entropy st)) [
      | inl (r, e) ↦
          let (_, _, _, _, _, _, shape) = acquire-ok req now entropy st e in
          rw (e, shape) (put-IsUnique req.run_id _ st.run_claims u)
      | inr (x, e) ↦ rw e u
    ]
step-IsUnique now (acquire_many req entropy) st u = acquire_next-IsUnique req now entropy st u
step-IsUnique now (extend ref d) st u = elim (Result-cases (heartbeat ref d now st)) [
  | inl (r, e) ↦
      let (_, _, _, _, shape) = heartbeat-ok ref d now st e in
      rw (e, shape) (put-IsUnique ref.run_id _ st.run_claims u)
  | inr (x, e) ↦ rw e u
]
step-IsUnique now (give_back ref) st u = elim (Result-cases (release ref now st)) [
  | inl (r, e) ↦
      let (_, _, shape) = release-ok ref now st e in
      rw (e, shape) (put-IsUnique ref.run_id _ st.run_claims u)
  | inr (x, e) ↦ rw e u
]
step-IsUnique now (finish ref) st u = elim (Result-cases (complete ref st)) [
  | inl (r, e) ↦
      let (_, _, shape) = complete-ok ref st e in
      rw (e, shape) (remove-IsUnique ref.run_id st.run_claims u)
  | inr (x, e) ↦ rw e u
]
step-IsUnique now (clean_up tenant_id run_id) st u =
    elim (Result-cases (cleanup_terminal tenant_id run_id st)) [
      | inl (st', e) ↦
          let (_, _, _, shape) = cleanup-ok tenant_id run_id st e in
          rw (e, shape) (remove-IsUnique run_id st.run_claims u)
      | inr (x, e) ↦ rw e u
    ]
step-IsUnique now (update_runs runs) st u = u

-- A successful acquisition is a step of the history.
pub step-acquire :
    (st : Store) (req : LeaseRequest) (now : Time) (entropy : Entropy) (r : Store × RunClaim)
    → acquire req now entropy st ≡ ok r
    → step now (acquire_one req entropy) st ≡ r.0
unfolding step
step-acquire st req now entropy r h = rw h
