-- ===== src/Policy/Laws.antt =====
-- internal/policy/engine.go: what the engine allows and records.
use ants.Prelude.{
  ◌≡◌, ◌↔◌, ◌⊎◌, inl, inr, refl, sym, ap, ◌∙◌, subst, Bool, true, Option, none, some, Text, Time,
  Entropy, arith, Option-cases,
}
use ants.Domain.Errors.{Result, ok, err, Result-cases}
use ants.Domain.Ids.{Entity, prefix, parse_id, new_id}
use ants.Policy.{
  allow, PolicyAction, PolicyRequest, PolicyDecision, Stores, decision, decide, rule, is_ok,
  evaluate, persist, append_event, enforce, authorize, audit_event,
}

-- The only actions that can be allowed, the commits by configuration.
abbrev pub Permits : (allow_local_commits : Bool) → PolicyAction → Type 0
Permits allow_commits a =
    (a ≡ PolicyAction.sandbox_create)
    ⊎ ((a ≡ PolicyAction.sandbox_exec)
        ⊎ ((a ≡ PolicyAction.scm_local_commit) × (allow_commits ≡ true)))

rule-allow_iff :
    (allow_commits : Bool) (a : PolicyAction)
    → ((rule allow_commits a).0 ≡ allow) ↔ Permits allow_commits a
rule-allow_iff allow_commits a = ground arith

is_ok_iff {ℓ} : {A : Type ℓ} (r : Result A) → (is_ok r ≡ true) ↔ ((a : A) × (r ≡ ok a))
is_ok_iff (ok a) = (λ _. (a, refl), λ _. refl)
is_ok_iff (err e) = (λ h. cc h, λ (a, h). cc h)

-- The decision function allows a request exactly if its actor and its tenant have valid identifiers
-- and its action is creating or using a sandbox or, where the configuration allows it, a local
-- commit: every other action, unknown ones included, is denied.
pub decide-allow_iff :
    (allow_commits : Bool) (req : PolicyRequest)
    → ((decide allow_commits req).0 ≡ allow) ↔ (
        ((p : Text) × (parse_id Entity.principal req.principal ≡ ok p))
        × ((t : Text) × (parse_id Entity.tenant req.tenant_id ≡ ok t))
        × Permits allow_commits req.action)
unfolding decide
decide-allow_iff allow_commits req = ground (
  arith,
  rule-allow_iff allow_commits req.action,
  is_ok_iff (parse_id Entity.principal req.principal),
  is_ok_iff (parse_id Entity.tenant req.tenant_id),
)

module _ (stores : Stores) where
  -- The decision is in the decision store, and an event of it in the audit store.
  abbrev pub IsRecorded : PolicyDecision → Option Text → (st st' : stores.S) → Type 0
  IsRecorded d carried st st' =
      (id : Text) × (middle : stores.S) × (stores.record_decision d st ≡ ok middle)
      × (stores.append_audit (audit_event d carried id) middle ≡ ok st')

  persist-ok :
      (d d' : PolicyDecision) (carried : Option Text) (entropy : Entropy) (st st' : stores.S)
      → persist stores d carried entropy st ≡ (st', ok d')
      → (d' ≡ d) × IsRecorded d carried st st'
  unfolding persist append_event
  persist-ok d d' carried entropy st st' h = elim (Result-cases (stores.record_decision d st)) [
    | inr (x, e) ↦ cc (h, e)
    | inl (middle, e) ↦ elim (Option-cases (new_id (prefix Entity.audit_event) entropy)) [
      | inl k ↦ cc (h, e, k)
      | inr (id, k) ↦ elim (Result-cases (stores.append_audit (audit_event d carried id) middle)) [
        | inl (last, a) ↦
            let q : (last ≡ st') × (d ≡ d') = ground (arith, h, e, k, a) in
            (sym q.1, (id, middle, e, a ∙ ap ok q.0))
        | inr (x, a) ↦ cc (h, e, k, a)
      ]
    ]
  ]

  enforce-granted :
      (r : stores.S × Result PolicyDecision) (st' : stores.S) (d : PolicyDecision)
      → enforce stores r ≡ (st', some d, none)
      → (r ≡ (st', ok d)) × (d.outcome ≡ allow)
  enforce-granted (st, ok d₁) st' d h = ground (arith, h)
  enforce-granted (st, err e) st' d h = cc h

  evaluate-ok :
      (allow_commits : Bool) (req : PolicyRequest) (now : Time) (carried : Option Text)
      (e₁ e₂ : Entropy) (st st' : stores.S) (d : PolicyDecision)
      → evaluate stores allow_commits req now carried e₁ e₂ st ≡ (st', ok d)
      → (d.outcome ≡ (decide allow_commits req).0) × (d.request ≡ req) × IsRecorded d carried st st'
  unfolding evaluate decision
  evaluate-ok allow_commits req now carried e₁ e₂ st st' d h =
      elim (Option-cases (new_id (prefix Entity.policy_decision) e₁)) [
        | inl k ↦ cc (h, k)
        | inr (id, k) ↦
            let (same, recorded) =
              persist-ok (decision allow_commits req now id) d carried e₂ st st'
                (ground (arith, h, k)) in
            (
              ap (λ (x : PolicyDecision). x.outcome) same,
              ap (λ (x : PolicyDecision). x.request) same,
              subst (λ (x : PolicyDecision). IsRecorded x carried st st') (sym same) recorded,
            )
      ]

  -- What the engine lets through is a request of a known actor and tenant for an action that can be
  -- allowed, and the answer was recorded before it was given: the decision, an allowance of this
  -- very request, stands in the decision store and an event of it in the audit store.
  pub authorize-IsRecorded :
      (allow_commits : Bool) (req : PolicyRequest) (now : Time) (carried : Option Text)
      (e₁ e₂ : Entropy) (st st' : stores.S) (d : PolicyDecision)
      → authorize stores allow_commits req now carried e₁ e₂ st ≡ (st', some d, none)
      → (d.outcome ≡ allow)
        × (d.request ≡ req)
        × ((t : Text) × (parse_id Entity.tenant req.tenant_id ≡ ok t))
        × ((p : Text) × (parse_id Entity.principal req.principal ≡ ok p))
        × Permits allow_commits req.action
        × IsRecorded d carried st st'
  unfolding authorize
  authorize-IsRecorded allow_commits req now carried e₁ e₂ st st' d h =
      let (ran, granted) =
        enforce-granted (evaluate stores allow_commits req now carried e₁ e₂ st) st' d h in
      let (outcome, same, recorded) =
        evaluate-ok allow_commits req now carried e₁ e₂ st st' d ran in
      let (p, t, permits) = (decide-allow_iff allow_commits req).0 (cc (outcome, granted)) in
      (granted, same, t, p, permits, recorded)
