-- ===== src/Store/Outbox/Retention.antt =====
-- internal/store/memory/outbox.go: the retention sweep.
use ants.Prelude.{
  ℕ, Bool, false, not, ◌&&◌, ◌==◌, Option, none, some, List, [], ◌∷◌, ◌++◌, Text, text_lt, ltb,
  take, keep, any, sort, length, is_pos, Time, Duration, sub_time, after, ◌-◌, if◌then◌else◌,
}
use ants.Domain.Errors.{Result, ok, ◌>>◌}
use ants.Domain.DeliveryStatus.{DeliveryStatus, eq}
use ants.Ports.Outbox.{RetentionSweepRequest, RetentionSweepResult, validate_sweep}
use ants.Store.Assoc.{Assoc, remove}
use ants.Store.Outbox.{Outbox}
use ants.Store.Outbox.Stored.{Message}

-- The instant of a terminal status that stands at or before `eligible_at`.
abbrev pub reached : Option Time → Time → Bool
reached none eligible_at = false
reached (some t) eligible_at = not (after t eligible_at)

unfoldable pub is_victim :
    DeliveryStatus → (terminal_at : Message → Option Time) → Time → Message → Bool
is_victim status terminal_at eligible_at m =
    eq m.status status && reached (terminal_at m) eligible_at

abbrev or_zero : Option Time → Time
or_zero none = 0
or_zero (some t) = t

-- The order of the victims, all of which have a terminal instant.
unfoldable pub victim_before : (terminal_at : Message → Option Time) → Message → Message → Bool
victim_before terminal_at m n =
    let a = or_zero (terminal_at m) in
    let b = or_zero (terminal_at n) in if not (a == b) then ltb a b else text_lt m.id n.id

unfoldable pub select_retention_victims :
    List Message
    → DeliveryStatus
    → (terminal_at : Message → Option Time) → (cutoff : Time) → (horizon : Duration) → List Message
select_retention_victims rows status terminal_at cutoff horizon =
    sort (victim_before terminal_at)
      (keep (is_victim status terminal_at (sub_time cutoff horizon)) rows)

-- The victims of the two classes: the delivered ones take the budget first.
unfoldable pub delivered_victims :
    RetentionSweepRequest → (cutoff : Time) → List Message → List Message
delivered_victims req cutoff ms =
    if is_pos req.delivered_older_than
    then take req.limit (
        select_retention_victims ms DeliveryStatus.delivered (λ m. m.delivered_at) cutoff
          req.delivered_older_than)
    else []

unfoldable pub discarded_victims :
    RetentionSweepRequest → (cutoff : Time) → (budget : ℕ) → List Message → List Message
discarded_victims req cutoff budget ms =
    if is_pos req.discarded_older_than && ltb 0 budget
    then take budget (
        select_retention_victims ms DeliveryStatus.discarded (λ m. m.discarded_at) cutoff
          req.discarded_older_than)
    else []

unfoldable pub all_victims : RetentionSweepRequest → (cutoff : Time) → List Message → List Message
unfolding delivered_victims discarded_victims
all_victims req cutoff ms =
    let delivered = delivered_victims req cutoff ms in
    delivered ++ discarded_victims req cutoff (req.limit - length delivered) ms

-- The keys of the victims, deleted from an index.
unfoldable pub remove_keys : (Message → Text) → List Message → Assoc ℕ → Assoc ℕ
remove_keys key [] index = index
remove_keys key (m ∷ ms) index = remove_keys key ms (remove (key m) index)

abbrev pub is_among : Message → List Message → Bool
is_among m victims = any (λ (v : Message). v.ref == m.ref) victims

unfoldable pub remove_victims : List Message → Outbox → Outbox
unfolding remove_keys
remove_victims victims st = record st {
  messages = keep (λ m. not (is_among m victims)) st.messages;
  by_id = remove_keys (λ m. m.id) victims st.by_id;
  by_dedup = remove_keys (λ m. m.dedup_key) victims st.by_dedup;
}

unfoldable pub sweep_retention :
    RetentionSweepRequest → Time → Outbox → Result (Outbox × RetentionSweepResult)
unfolding all_victims remove_victims
sweep_retention req now st = do
  validate_sweep req
  let victims = all_victims req now st.messages
  let delivered = length (delivered_victims req now st.messages)
  ok (
    if req.dry_run then st else remove_victims victims st,
    record {
      cutoff = now;
      deleted_delivered = delivered;
      deleted_discarded = length victims - delivered;
    },
  )
