-- ===== src/Store/Outbox.antt =====
-- internal/store/memory/outbox.go. A stored message is an object that the slice and both indexes point
-- to: its address is `ref`, an index holds addresses, and to write through a pointer is to replace the
-- object of that address in the slice. Every object that an index points to stands in the slice. An
-- operation takes the instant of the store's clock; one that returns `Result` changes nothing where
-- it fails.
pub mod Stored
pub mod Retention
pub mod Victims
pub mod Sweep
pub mod Operators
pub mod Queue
pub mod Sound
pub mod History
pub mod Carried
pub mod Indexed
pub mod Decisions
pub mod Kept
pub mod Published
use ants.Prelude.{
  ℕ, suc, ◌+◌, Bool, true, false, not, ◌&&◌, ◌||◌, ◌==◌, Option, none, some, List, [], ◌∷◌, ◌++◌,
  map, Text, text_eq, text_lt, is_empty, leb, ltb, take, keep, sort, length, Int64, inc, sle, slt,
  Time, Duration, add_time, after, if◌then◌else◌,
}
use ants.Domain.Errors.{Result, ok, err, ◌>>=◌, ◌>>◌, refuse_if, invalidf, not_foundf, Error}
use ants.Domain.DeliveryStatus.{DeliveryStatus}
use ants.Ports.Outbox.{
  OutboxMessage, OutboxLeaseRequest, OutboxStats, DeadLetterSummary, ListDeadLettersRequest,
  OutboxMutationRequest, OutboxMutationResult, requeue, discard, validate_list, validate_mutation,
}
use ants.Store.Assoc.{Assoc, lookup, put}
use Stored.{
  Message, new_message, is_due, lease_message, deliver_message, fail_message, classify,
  apply_requeue, apply_discard, is_dead, is_operable, after_keyset, summary, dead_before,
  is_held_by,
}

-- The part of `storeState` that the repository reads and writes. `next_ref` is an address not in use.
pub record Outbox : Type 0 where
  pub messages : List Message
  pub by_id : Assoc ℕ
  pub by_dedup : Assoc ℕ
  pub next_ref : ℕ

-- Reading and writing through a pointer.
unfoldable pub deref : ℕ → List Message → Option Message
deref r [] = none
deref r (m ∷ ms) = if m.ref == r then some m else deref r ms

unfoldable pub write : ℕ → Message → List Message → List Message
write r m' [] = []
write r m' (m ∷ ms) = let rest = write r m' ms in if m.ref == r then m' ∷ ms else m ∷ rest

abbrev pub deref_opt : Option ℕ → List Message → Option Message
deref_opt none ms = none
deref_opt (some r) ms = deref r ms

unfoldable pub find_message : Text → Outbox → Option Message
find_message id st = deref_opt (lookup id st.by_id) st.messages

abbrev pub update : Message → Outbox → Outbox
update m st = record st { messages = write m.ref m st.messages }

abbrev has : Option ℕ → Bool
has none = false
has (some r) = true

unfoldable pub publish : OutboxMessage → Time → Outbox → Result Outbox
publish msg now st = do
  refuse_if (slt msg.max_attempts 1 || slt 100 msg.max_attempts) (invalidf "outbox_max_attempts")
  ok (
      if has (lookup msg.dedup_key st.by_dedup) then st else (record {
        messages = st.messages ++ new_message st.next_ref msg now ∷ [];
        by_id = put msg.id st.next_ref st.by_id;
        by_dedup = put msg.dedup_key st.next_ref st.by_dedup;
        next_ref = suc st.next_ref;
      }))

-- The loop of `Lease` over the messages that are due.
unfoldable pub lease_all :
    (worker_id : Text) → Time → List Message → Outbox → Outbox × List OutboxMessage
lease_all worker_id until [] st = (st, [])
lease_all worker_id until (m ∷ due) st =
    let m' = lease_message m worker_id until in
    let (st', out) = lease_all worker_id until due (update m' st) in
    (
      st',
      record {
        id = m'.id;
        dedup_key = m'.dedup_key;
        tenant_id = m'.tenant_id;
        envelope = m'.envelope;
        attempts = m'.attempts;
        max_attempts = m'.max_attempts;
      }
          ∷ out,
    )

unfoldable pub due_messages : Time → Outbox → List Message
due_messages now st =
    sort (λ (m n : Message). ltb m.created_at n.created_at) (keep (is_due now) st.messages)

-- The limit is positive: the dispatcher's configuration is checked for it.
unfoldable pub lease : OutboxLeaseRequest → Time → Outbox → Outbox × List OutboxMessage
unfolding due_messages lease_all
lease req now st =
    lease_all req.worker_id (add_time now req.lease_for) (take req.limit (due_messages now st)) st

abbrev or_not_found : Option Message → Result Message
or_not_found none = err (not_foundf "outbox_message_not_found")
or_not_found (some m) = ok m

-- The message that a worker has leased, or a uniform not-found.
unfoldable pub find_held : (id leased_by : Text) → Outbox → Result Message
find_held id leased_by st = do
  m ← or_not_found (find_message id st)
  refuse_if (not (is_held_by m leased_by)) (not_foundf "outbox_message_not_found")
  ok m

unfoldable pub mark_delivered : (id leased_by : Text) → Time → Outbox → Result Outbox
mark_delivered id leased_by now st = do
  m ← find_held id leased_by st
  ok (update (deliver_message m now) st)

unfoldable pub fail_with_backoff :
    (id leased_by : Text) → Duration → (cause : Text) → Time → Outbox → Result Outbox
fail_with_backoff id leased_by retry_in cause now st = do
  m ← find_held id leased_by st
  ok (update (fail_message m retry_in cause now) st)

abbrev count_status : DeliveryStatus → OutboxStats → OutboxStats
count_status DeliveryStatus.pending s = record s { pending = inc s.pending }
count_status DeliveryStatus.leased s = record s { leased = inc s.leased }
count_status DeliveryStatus.delivered s = record s { delivered = inc s.delivered }
count_status DeliveryStatus.dead s = record s { dead = inc s.dead }
count_status DeliveryStatus.discarded s = record s { discarded = inc s.discarded }

unfoldable pub count_all : List Message → OutboxStats → OutboxStats
count_all [] s = s
count_all (m ∷ ms) s = count_all ms (count_status m.status s)

unfoldable pub stats : Outbox → OutboxStats
unfolding count_all
stats st =
    count_all st.messages
      (record { pending = 0; leased = 0; delivered = 0; dead = 0; discarded = 0 })

-- A page of the tenant's dead messages behind the cursor.
unfoldable pub list_dead_letters : ListDeadLettersRequest → Outbox → Result (List DeadLetterSummary)
list_dead_letters req st = do
  validate_list req
  let dead =
      sort dead_before
        (keep (λ m. is_dead m.status && text_eq m.tenant_id req.tenant_id) st.messages)
  let rest = keep (λ m. not (after_keyset m.created_at m.id req.after_created_at req.after_id)) dead
  ok (map summary (take req.limit rest))

unfoldable pub get_dead_letter : (tenant_id message_id : Text) → Outbox → Result DeadLetterSummary
get_dead_letter tenant_id message_id st = do
  m ← or_not_found (find_message message_id st)
  refuse_if (not (text_eq m.tenant_id tenant_id) || not (is_operable m.status))
      (not_foundf "outbox_message_not_found")
  ok (summary m)

-- The message of the tenant that an operator names, or a uniform not-found.
unfoldable pub find_own : (tenant_id message_id : Text) → Outbox → Result Message
find_own tenant_id message_id st = do
  m ← or_not_found (find_message message_id st)
  refuse_if (not (text_eq m.tenant_id tenant_id)) (not_foundf "outbox_message_not_found")
  ok m

unfoldable pub requeue_dead_letter :
    OutboxMutationRequest → Time → Outbox → Result (Outbox × OutboxMutationResult)
requeue_dead_letter req now st = do
  validate_mutation req
  m ← find_own req.tenant_id req.message_id st
  classify m req.expected_generation
  let m' = apply_requeue m now
  ok (
    update m' st,
    record {
      message_id = m.id;
      action = requeue;
      attempts_before = m.attempts;
      generation = m'.generation;
    },
  )

unfoldable pub discard_dead_letter :
    OutboxMutationRequest → Time → Outbox → Result (Outbox × OutboxMutationResult)
discard_dead_letter req now st = do
  validate_mutation req
  m ← find_own req.tenant_id req.message_id st
  classify m req.expected_generation
  let m' = apply_discard m now
  ok (
    update m' st,
    record {
      message_id = m.id;
      action = discard;
      attempts_before = m.attempts;
      generation = m'.generation;
    },
  )
