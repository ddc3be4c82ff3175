-- ===== src/Collector/Laws.antt =====
-- internal/outboxgc: previews and rounds.
use ants.Prelude.{◌≡◌, refl, true, List, Time}
use ants.Domain.Errors.{Result, ok, err, ◌>>=◌, ◌>>◌}
use ants.Ports.Outbox.{RetentionSweepResult, validate_sweep}
use ants.Store.Outbox.{Outbox}
use ants.Store.Outbox.History.{or_stay_with}
use ants.Store.Outbox.Retention.{sweep_retention, delivered_victims, discarded_victims, all_victims}
use ants.Collector.{Config, Event, request, preview, round, observed}

abbrev pub result_of : Result (Outbox × RetentionSweepResult) → Result RetentionSweepResult
result_of (ok (st, res)) = ok res
result_of (err e) = err e

abbrev pub outcome_of :
    Result (Outbox × RetentionSweepResult × List Event) → Result RetentionSweepResult
outcome_of (ok (st, res, events)) = ok res
outcome_of (err e) = err e

-- The shape of a preview and of a round: a check, then an answer that the store is paired with.
module _ (st after : Outbox) (res : RetentionSweepResult) where
  preview_of : Result (Unit {0}) → Result (Outbox × RetentionSweepResult)
  preview_of v = v >> ok (st, res)

  round_of : Result (Unit {0}) → Result (Outbox × RetentionSweepResult × List Event)
  round_of v = (v >> ok (after, res)) >>= (λ p. ok (observed p))

  same_answer :
      (v : Result (Unit {0}))
      → (result_of (preview_of v) ≡ outcome_of (round_of v)) × (or_stay_with st (preview_of v) ≡ st)
  unfolding preview_of round_of
  same_answer (ok x) = (refl, refl)
  same_answer (err e) = (refl, refl)

-- At the same instant a preview answers what a round answers, its error or its counts and its
-- cutoff, and leaves the store as it was.
pub preview-round :
    (c : Config) (now : Time) (st : Outbox)
    → (result_of (preview c now st) ≡ outcome_of (round c now st))
      × (or_stay_with st (preview c now st) ≡ st)
unfolding preview round request sweep_retention validate_sweep all_victims delivered_victims
    discarded_victims preview_of round_of
preview-round c now st = same_answer st _ _ (validate_sweep (request c true))
