-- ===== src/Planner/Validity.antt =====
-- internal/planner/planner.go: what a valid catalog guarantees.
use ants.Prelude.{
  ◌≡◌, ◌≢◌, refl, arith, Bool, true, false, List, [], ◌∷◌, Text, text_eq, text_eq_iff, is_empty,
  any, All, All-map_of, Bool-cases, inl, inr, sym, ◌==◌, ◌||◌, ==_iff,
}
use ants.Domain.Errors.{Result, ok, err, Result-cases, refuse_if, ◌>>◌}
use ants.Planner.{
  CapabilityTask, Capability, Catalog, is_nil, catalog_error, validate_tasks, validate_capability,
  validate_all, validate,
}

-- A task has a name, a commit message and a file to write.
abbrev pub IsCompleteTask : CapabilityTask → Type 0
IsCompleteTask t =
    (is_empty t.name ≡ false) × (is_empty t.commit_message ≡ false) × (is_nil t.files ≡ false)

-- A capability has an identifier, keywords, tasks, each of them complete, and commands to verify all.
abbrev pub IsComplete : Capability → Type 0
IsComplete cap =
    (is_empty cap.id ≡ false)
    × (is_nil cap.request_keywords ≡ false)
    × (is_nil cap.tasks ≡ false)
    × All IsCompleteTask cap.tasks
    × (is_nil cap.verify_all ≡ false)

abbrev pub HaveDistinctIds : List Capability → Type 0
HaveDistinctIds [] = Unit
HaveDistinctIds (c ∷ caps) = All (λ (d : Capability). c.id ≢ d.id) caps × HaveDistinctIds caps

validate_tasks-ok : (ts : List CapabilityTask) → validate_tasks ts ≡ ok tt → All IsCompleteTask ts
unfolding validate_tasks
validate_tasks-ok [] h = tt
validate_tasks-ok (t ∷ ts) h = (ground (arith, h), validate_tasks-ok ts (ground (arith, h)))

-- The five checks of a capability, in turn.
chain_ok :
    (a b c d : Bool) (m : Result (Unit {0}))
    → (refuse_if a catalog_error
        >> (refuse_if b catalog_error
            >> (refuse_if c catalog_error >> (m >> refuse_if d catalog_error))))
      ≡ ok tt
    → (a ≡ false) × (b ≡ false) × (c ≡ false) × (m ≡ ok tt) × (d ≡ false)
chain_ok false false false d (ok tt) h = (refl, refl, refl, refl, ground (arith, h))
chain_ok false false false d (err e) h = cc h
chain_ok false false true d m h = cc h
chain_ok false true c d m h = cc h
chain_ok true b c d m h = cc h

validate_capability-ok :
    (seen : List Text) (cap : Capability)
    → validate_capability seen cap ≡ ok tt
    → (any (text_eq cap.id) seen ≡ false) × IsComplete cap
unfolding validate_capability
validate_capability-ok seen cap h =
    let facts : ((is_empty cap.id || any (text_eq cap.id) seen) ≡ false)
        × (is_nil cap.request_keywords ≡ false)
        × (is_nil cap.tasks ≡ false)
        × (validate_tasks cap.tasks ≡ ok tt)
        × (is_nil cap.verify_all ≡ false) =
      chain_ok _ _ _ _ _ h in
    (
      ground (arith, facts.0),
      (ground (arith, facts.0), facts.1, facts.2, validate_tasks-ok cap.tasks facts.3, facts.4),
    )

abbrev NotSeen : List Text → Capability → Type 0
NotSeen seen c = any (text_eq c.id) seen ≡ false

-- No identifier that was seen comes again.
abbrev AreNew : List Text → List Capability → Type 0
AreNew seen caps = All (NotSeen seen) caps

differs : (id : Text) (seen : List Text) (d : Capability) → NotSeen (id ∷ seen) d → id ≢ d.id
differs id seen d k e = ground (arith, k, text_eq_iff d.id id, e, sym e)

validate_all-ok :
    (seen : List Text) (caps : List Capability)
    → validate_all seen caps ≡ ok tt
    → AreNew seen caps × HaveDistinctIds caps × All IsComplete caps
unfolding validate_all
validate_all-ok seen [] h = (tt, tt, tt)
validate_all-ok seen (c ∷ caps) h = elim (Result-cases (validate_capability seen c)) [
  | inr (x, e) ↦ cc (h, e)
  | inl (u, e) ↦
      let (new, complete) = validate_capability-ok seen c e in
      let (fresh, distinct, rest) = validate_all-ok (c.id ∷ seen) caps (ground (arith, h, e)) in
      (
        (
          new,
          All-map_of (NotSeen (c.id ∷ seen)) (NotSeen seen) (λ d k. ground (arith, k)) caps fresh,
        ),
        (
          All-map_of (NotSeen (c.id ∷ seen)) (λ (d : Capability). c.id ≢ d.id)
              (λ d. differs c.id seen d) caps fresh,
          distinct,
        ),
        (complete, rest),
      )
]

-- A catalog that is accepted declares version 1 and capabilities that are complete, no two of them
-- with the same identifier.
pub validate-ok :
    (c : Catalog)
    → validate c ≡ ok tt
    → (c.version ≡ 1)
      × (is_nil c.capabilities ≡ false)
      × HaveDistinctIds c.capabilities
      × All IsComplete c.capabilities
unfolding validate
validate-ok c h = elim (Bool-cases (c.version == 1)) [
  | inr e ↦ cc (h, e)
  | inl e ↦ elim (Bool-cases (is_nil c.capabilities)) [
    | inl k ↦ cc (h, e, k)
    | inr k ↦
        let (new, distinct, complete) =
          validate_all-ok [] c.capabilities (ground (arith, h, e, k)) in
        ((==_iff c.version 1).0 e, k, distinct, complete)
  ]
]
