-- ===== src/Store/Claims/Steps.antt =====
-- internal/store/memory/runclaims.go: each call as a change of the claims.
use ants.Prelude.{
  text_eq_iff, Entropy, ◌≡◌, refl, ap, none, some, Text, Time, Duration, arith, inl, inr,
  Option-cases,
}
use ants.Domain.Errors.{ok, Result-cases, then-ok}
use ants.Domain.Claim.{new_run_claim_token, validate_claim_owner}
use ants.Ports.Claims.{RunClaimRef, LeaseRequest, validate_lease, positive_duration}
use ants.Store.Assoc.{lookup, remove}
use ants.Store.Assoc.Unique.{IsUnique}
use ants.Store.Claims.{Store, create, acquire, heartbeat, release, complete, cleanup_terminal}
use ants.Store.Claims.Row.{Cause, Change, Changes, write-Changes, drop-Changes}
use ants.Store.Claims.Inversion.{
  find_claim-ok, fenced-ok, matches-lem, create-ok, acquire-ok, heartbeat-ok, release-ok,
  complete-ok, cleanup-ok,
}
use ants.Store.Claims.Batch.{acquire_next-Changes}
use ants.Store.Claims.Trace.{
  Call, create_claim, acquire_one, acquire_many, extend, give_back, finish, clean_up, update_runs,
  step, cause,
}
use ants.Store.Assoc.Laws.{lookup-remove}

validate_lease-ok :
    (req : LeaseRequest) {x : Unit {0}}
    → validate_lease req ≡ ok x
    → validate_claim_owner req.owner ≡ ok tt
unfolding validate_lease
validate_lease-ok req h =
    (then-ok (validate_claim_owner req.owner) (positive_duration req.lease_for) h).0

module _ (now : Time) (st : Store) where
  unchanged : (p : Cause) → Changes p now st st
  unchanged p k = Change.same refl

  create-Changes :
      (tenant_id run_id : Text)
      → Changes
          (cause (create_claim tenant_id run_id))
          now
          st
          (step now (create_claim tenant_id run_id) st)
  unfolding step
  create-Changes tenant_id run_id k = elim (Result-cases (create tenant_id run_id now st)) [
    | inl (st', e) ↦
        let (_, _, absent, shape) = create-ok tenant_id run_id now st e in
        rw (e, shape)
          (write-Changes (cause (create_claim tenant_id run_id)) now st run_id _
            (Change.created tenant_id run_id refl absent refl) k)
    | inr (x, e) ↦ rw e (Change.same refl)
  ]

  acquire-Changes :
      (req : LeaseRequest) (entropy : Entropy)
      → Changes (cause (acquire_one req entropy)) now st (step now (acquire_one req entropy) st)
  unfolding step new_run_claim_token
  acquire-Changes req none k = elim (Result-cases (acquire req now none st)) [
    | inl (r, e) ↦ cc ((acquire-ok req now none st e).5)
    | inr (x, e) ↦ rw e (Change.same refl)
  ]
  acquire-Changes req (some f) k = elim (Result-cases (acquire req now (some f) st)) [
    | inl (r, e) ↦
        let (c, token, own, valid, eligible, minted, shape) = acquire-ok req now (some f) st e in
        rw (e, shape)
          (write-Changes (cause (acquire_one req (some f))) now st req.run_id _
            (Change.acquired c req.owner token f req.lease_for
              (find_claim-ok st req.tenant_id req.run_id own).0 eligible
              (validate_lease-ok req valid) minted refl)
            k)
    | inr (x, e) ↦ rw e (Change.same refl)
  ]

  extend-Changes :
      (ref : RunClaimRef) (d : Duration)
      → Changes (cause (extend ref d)) now st (step now (extend ref d) st)
  unfolding step
  extend-Changes ref d k = elim (Result-cases (heartbeat ref d now st)) [
    | inl (r, e) ↦
        let (c, held, _, _, shape) = heartbeat-ok ref d now st e in
        let (found, hit) = fenced-ok ref st held in
        rw (e, shape)
          (write-Changes (cause (extend ref d)) now st ref.run_id _
            (Change.extended c d (refl, hit) found (matches-lem c _ _ _ hit).0 refl) k)
    | inr (x, e) ↦ rw e (Change.same refl)
  ]

  give_back-Changes :
      (ref : RunClaimRef) → Changes (cause (give_back ref)) now st (step now (give_back ref) st)
  unfolding step
  give_back-Changes ref k = elim (Result-cases (release ref now st)) [
    | inl (r, e) ↦
        let (c, held, shape) = release-ok ref now st e in
        let (found, hit) = fenced-ok ref st held in
        rw (e, shape)
          (write-Changes (cause (give_back ref)) now st ref.run_id _
            (Change.released c (refl, hit) found refl) k)
    | inr (x, e) ↦ rw e (Change.same refl)
  ]

  finish-Changes :
      (ref : RunClaimRef) → Changes (cause (finish ref)) now st (step now (finish ref) st)
  unfolding step
  finish-Changes ref k = elim (Result-cases (complete ref st)) [
    | inl (r, e) ↦
        let (c, held, shape) = complete-ok ref st e in
        let (found, hit) = fenced-ok ref st held in
        rw (e, shape)
          (drop-Changes (cause (finish ref)) now st ref.run_id {c = c} found (refl, hit) k)
    | inr (x, e) ↦ rw e (Change.same refl)
  ]

  clean_up-Changes :
      (tenant_id run_id : Text)
      → Changes (cause (clean_up tenant_id run_id)) now st (step now (clean_up tenant_id run_id) st)
  unfolding step
  clean_up-Changes tenant_id run_id k = elim (Result-cases (cleanup_terminal tenant_id run_id st)) [
    | inl (st', e) ↦
        let (_, _, _, shape) = cleanup-ok tenant_id run_id st e in
        rw (e, shape)
          (elim (Option-cases (lookup run_id st.run_claims)) [
            | inl absent ↦ rw (gone absent) (Change.same refl)
            | inr (c, found) ↦
                drop-Changes (cause (clean_up tenant_id run_id)) now st run_id {c = c} found refl k
          ])
    | inr (x, e) ↦ rw e (Change.same refl)
  ]
    where
      gone :
          lookup run_id st.run_claims ≡ none
          → lookup k (remove run_id st.run_claims) ≡ lookup k st.run_claims
      gone absent = ground (
        arith,
        lookup-remove run_id k st.run_claims,
        text_eq_iff run_id k,
        ap (λ j. lookup j st.run_claims),
        absent,
      )

-- Whatever the call, each claim is left alone or changed as `Change` says, for the cause that the
-- call has.
pub step-Changes :
    (now : Time) (call : Call) (st : Store)
    → IsUnique st.run_claims
    → Changes (cause call) now st (step now call st)
unfolding step
step-Changes now (create_claim tenant_id run_id) st u = create-Changes now st tenant_id run_id
step-Changes now (acquire_one req entropy) st u = acquire-Changes now st req entropy
step-Changes now (acquire_many req entropy) st u =
    acquire_next-Changes (cause (acquire_many req entropy)) req now entropy st u
step-Changes now (extend ref d) st u = extend-Changes now st ref d
step-Changes now (give_back ref) st u = give_back-Changes now st ref
step-Changes now (finish ref) st u = finish-Changes now st ref
step-Changes now (clean_up tenant_id run_id) st u = clean_up-Changes now st tenant_id run_id
step-Changes now (update_runs runs) st u = λ k. Change.same refl
