-- ===== src/Collector/Inactive.antt =====
-- internal/outboxgc/service.go: a collector for which no horizon is set.
use ants.Prelude.{◌≡◌, ◌∙◌, refl, ap, sym, true, false, List, [], ◌∷◌, keep, Time, arith, is_pos}
use ants.Domain.Errors.{ok, bind-ok, ok-injective}
use ants.Ports.Outbox.{RetentionSweepResult}
use ants.Store.Outbox.{Outbox}
use ants.Store.Outbox.Stored.{Message}
use ants.Store.Outbox.Retention.{
  sweep_retention, delivered_victims, discarded_victims, all_victims, remove_victims,
}
use ants.Store.Outbox.Sweep.{sweep_retention-ok}
use ants.Collector.{Config, Event, request, round, is_active}

keep-all : (ms : List Message) → keep (λ m. true) ms ≡ ms
keep-all [] = refl
keep-all (m ∷ ms) = ap (λ (xs : List Message). m ∷ xs) (keep-all ms)

remove_none : (st : Outbox) → remove_victims [] st ≡ st
unfolding remove_victims
remove_none st = ap (λ (ms : List Message). record st { messages = ms }) (keep-all st.messages)

all_victims-inactive :
    (c : Config) (now : Time) (ms : List Message)
    → is_active c ≡ false
    → all_victims (request c false) now ms ≡ []
unfolding is_active request all_victims delivered_victims discarded_victims
all_victims-inactive c now ms h =
    let no_delivered : is_pos c.delivered_after ≡ false = ground (arith, h) in
    let no_discarded : is_pos c.discarded_after ≡ false = ground (arith, h) in
    rw (no_delivered, no_discarded)

-- A round of a collector for which no horizon is set leaves the store as it was.
pub round-inactive :
    (c : Config) (now : Time) (st : Outbox) (r : Outbox × RetentionSweepResult × List Event)
    → is_active c ≡ false
    → round c now st ≡ ok r
    → r.0 ≡ st
unfolding round request
round-inactive c now st r h k =
    let (p, swept, e) = bind-ok (sweep_retention (request c false) now st) _ k in
    let (shape, _) = sweep_retention-ok (request c false) now st {r = p} swept in
    sym (ap (λ (x : Outbox × RetentionSweepResult × List Event). x.0) (ok-injective e))
    ∙ shape
    ∙ ap (λ (vs : List Message). remove_victims vs st) (all_victims-inactive c now st.messages h)
    ∙ remove_none st
