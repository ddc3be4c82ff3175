-- ===== src/Domain/Run/Progress.antt =====
-- internal/domain/run.go: the states that a run takes on its way.
use ants.Prelude.{
  sym, subst, ℕ, ◌+◌, ◌≤◌, ◌<◌, ◌≡◌, refl, ◌⊎◌, inl, inr, true, List, [], ◌∷◌, length, arith,
}
use ants.Domain.Errors.{ok, err, Result-cases, Error}
use ants.Domain.RunStatus.{RunStatus, can_transition}
use ants.Domain.Run.{Run, transition_to}
use ants.Domain.Run.Laws.{transition_to-lem}

-- A caller asks for one state after the other; what is refused changes nothing.
unfoldable pub drive : Run → List RunStatus → Run
drive r [] = r
drive r (s ∷ ss) = elim (transition_to r s) [ ok r' ↦ drive r' ss | err e ↦ drive r ss ]

-- The states that the run takes on the way.
unfoldable pub trail : Run → List RunStatus → List RunStatus
trail r [] = []
trail r (s ∷ ss) = elim (transition_to r s) [ ok r' ↦ s ∷ trail r' ss | err e ↦ trail r ss ]

-- What a run that completes goes through, from each stage on.
abbrev last_stages : List RunStatus
last_stages = RunStatus.reporting ∷ RunStatus.completed ∷ []

abbrev FromExecuting : List RunStatus → Type 0
FromExecuting t =
    (t ≡ RunStatus.verifying ∷ last_stages)
    ⊎ (t ≡ RunStatus.integrating ∷ RunStatus.verifying ∷ last_stages)

abbrev FromPlanning : List RunStatus → Type 0
FromPlanning t = (rest : List RunStatus) × (t ≡ RunStatus.executing ∷ rest) × FromExecuting rest

abbrev pub rank : RunStatus → ℕ
rank RunStatus.pending = 0
rank RunStatus.planning = 1
rank RunStatus.executing = 2
rank RunStatus.integrating = 3
rank RunStatus.verifying = 4
rank RunStatus.reporting = 5
rank _ = 6

rank-le : (s : RunStatus) → rank s ≤ 6
rank-le s = ground arith

can_transition-rank :
    (from to : RunStatus) → can_transition from to ≡ true → (rank from < rank to) × (rank to ≤ 6)
unfolding can_transition
can_transition-rank from to h = ground arith

-- A run changes state at most six times, and fewer times the further it is.
pub length-trail-le : (r : Run) (ss : List RunStatus) → length (trail r ss) + rank r.status ≤ 6
unfolding trail
length-trail-le r [] = omega (arith, rank-le r.status)
length-trail-le r (s ∷ ss) = elim (Result-cases (transition_to r s)) [
  | inl (r', e) ↦ ground (
    arith,
    e,
    transition_to-lem r s {r' = r'} e,
    can_transition-rank r.status s,
    length-trail-le r' ss,
  )
  | inr (x, e) ↦ ground (arith, e, length-trail-le r ss)
]

-- The stages still ahead of a run that is to complete, from each state.
abbrev pub Completes : RunStatus → List RunStatus → Type 0
Completes RunStatus.pending t =
    (rest : List RunStatus) × (t ≡ RunStatus.planning ∷ rest) × FromPlanning rest
Completes RunStatus.planning t = FromPlanning t
Completes RunStatus.executing t = FromExecuting t
Completes RunStatus.integrating t = t ≡ RunStatus.verifying ∷ last_stages
Completes RunStatus.verifying t = t ≡ last_stages
Completes RunStatus.reporting t = t ≡ RunStatus.completed ∷ []
Completes RunStatus.completed t = t ≡ []
Completes RunStatus.failed t = ⊥
Completes RunStatus.cancelled t = ⊥

Completes-step :
    (from to : RunStatus) (t : List RunStatus)
    → can_transition from to ≡ true
    → Completes to t
    → Completes from (to ∷ t)
unfolding can_transition
Completes-step RunStatus.pending RunStatus.planning t h c = (t, refl, c)
Completes-step RunStatus.planning RunStatus.executing t h c = (t, refl, c)
Completes-step RunStatus.executing RunStatus.verifying t h c = inl (cc c)
Completes-step RunStatus.executing RunStatus.integrating t h c = inr (cc c)
Completes-step RunStatus.integrating RunStatus.verifying t h c = cc c
Completes-step RunStatus.verifying RunStatus.reporting t h c = cc c
Completes-step RunStatus.reporting RunStatus.completed t h c = cc c
Completes-step _ RunStatus.failed t h c = absurd c
Completes-step _ RunStatus.cancelled t h c = absurd c
Completes-step _ _ t h c = cc h

module _ (r : Run) (s : RunStatus) (ss : List RunStatus) where
  step-ok :
      {r' : Run}
      → transition_to r s ≡ ok r'
      → (trail r (s ∷ ss) ≡ s ∷ trail r' ss) × (drive r (s ∷ ss) ≡ drive r' ss)
  unfolding trail drive
  step-ok e = ground arith

  step-err :
      {x : Error}
      → transition_to r s ≡ err x
      → (trail r (s ∷ ss) ≡ trail r ss) × (drive r (s ∷ ss) ≡ drive r ss)
  unfolding trail drive
  step-err e = ground arith

trail-Completes :
    (r : Run) (ss : List RunStatus)
    → (drive r ss).status ≡ RunStatus.completed
    → Completes r.status (trail r ss)
unfolding drive trail
trail-Completes r [] h = subst (λ s. Completes s []) (sym h) refl
trail-Completes r (s ∷ ss) h = elim (Result-cases (transition_to r s)) [
  | inl (r', e) ↦
      let (shape, after) = step-ok r s ss e in
      let (edge, moved) = transition_to-lem r s {r' = r'} e in
      let rest : Completes r'.status (trail r' ss) = trail-Completes r' ss (cc (after, h)) in
      rw shape (
        Completes-step r.status s (trail r' ss) edge
          (subst (λ (x : Run). Completes x.status (trail r' ss)) moved rest))
  | inr (x, e) ↦
      let (shape, after) = step-err r s ss e in rw shape (trail-Completes r ss (cc (after, h)))
]

-- A run that starts pending and completes has passed planning, executing, perhaps integrating, then
-- verifying and reporting, in this order and nothing else.
pub completed_trail :
    (r : Run) (ss : List RunStatus)
    → r.status ≡ RunStatus.pending
    → (drive r ss).status ≡ RunStatus.completed
    → (trail r ss ≡ RunStatus.planning ∷ RunStatus.executing ∷ RunStatus.verifying ∷ last_stages)
      ⊎ (trail r ss
          ≡ RunStatus.planning ∷ RunStatus.executing ∷ RunStatus.integrating ∷ RunStatus.verifying
            ∷ last_stages)
completed_trail r ss start h =
    let c : Completes RunStatus.pending (trail r ss) =
      subst (λ s. Completes s (trail r ss)) start (trail-Completes r ss h) in
    ground (arith, c)
