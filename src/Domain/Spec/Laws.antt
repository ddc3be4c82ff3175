-- ===== src/Domain/Spec/Laws.antt =====
-- The approval of a specification, by the operations that callers have.
use ants.Prelude.{◌≡◌, ◌≢◌, refl, ◌⊎◌, List, [], ◌∷◌, arith}
use ants.Domain.Errors.{Result, ok, err}
use ants.Domain.States.{move}
use ants.Domain.SpecStatus.{SpecStatus, status_eq, can_transition}
use ants.Domain.Spec.{Spec, transition, approve, reject, supersede}

-- What a caller may ask of a specification; what is refused changes nothing.
pub data Request : Type 0 where
  approval rejection supersession : Request

ask : Request → Spec → Result Spec
ask approval = approve
ask rejection = reject
ask supersession = supersede

abbrev or_keep : Spec → Result Spec → Spec
or_keep s (ok s') = s'
or_keep s (err e) = s

pub decide_all : List Request → Spec → Spec
decide_all [] s = s
decide_all (q ∷ qs) s = decide_all qs (or_keep s (ask q s))

ask-keeps :
    (q : Request) (s : Spec)
    → let s' = or_keep s (ask q s) in
      (s'.content ≡ s.content)
      × (s'.version ≡ s.version)
      × (s'.id ≡ s.id)
      × (s.status ≡ SpecStatus.rejected → s'.status ≡ SpecStatus.rejected)
      × (s.status ≡ SpecStatus.superseded → s'.status ≡ SpecStatus.superseded)
      × (s'.status ≡ SpecStatus.approved
          → (s.status ≡ SpecStatus.approved) ⊎ ((s.status ≡ SpecStatus.draft) × (q ≡ approval)))
      × (s'.status ≢ SpecStatus.draft)
unfolding ask approve reject supersede transition move can_transition
ask-keeps approval s = ground arith
ask-keeps rejection s = ground arith
ask-keeps supersession s = ground arith

-- Whatever callers ask, the identifier, the version and the content of a specification never change.
pub decide_all-keeps :
    (qs : List Request) (s : Spec)
    → let s' = decide_all qs s in
      (s'.content ≡ s.content) × (s'.version ≡ s.version) × (s'.id ≡ s.id)
unfolding decide_all
decide_all-keeps [] s = (refl, refl, refl)
decide_all-keeps (q ∷ qs) s =
    let s' : Spec = or_keep s (ask q s) in ground (arith, ask-keeps q s, decide_all-keeps qs s')

ask-final :
    (q : Request) (s : Spec)
    → (s.status ≡ SpecStatus.rejected) ⊎ (s.status ≡ SpecStatus.superseded)
    → or_keep s (ask q s) ≡ s
unfolding ask approve reject supersede transition move can_transition
ask-final approval s h = ground arith
ask-final rejection s h = ground arith
ask-final supersession s h = ground arith

-- A specification that is rejected or superseded stays as it is, whatever callers ask.
pub decide_all-final :
    (qs : List Request) (s : Spec)
    → (s.status ≡ SpecStatus.rejected) ⊎ (s.status ≡ SpecStatus.superseded)
    → decide_all qs s ≡ s
unfolding decide_all
decide_all-final [] s h = refl
decide_all-final (q ∷ qs) s h = rw (ask-final q s h) (decide_all-final qs s h)
