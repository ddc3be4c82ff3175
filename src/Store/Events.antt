-- ===== src/Store/Events.antt =====
-- internal/store/memory/events.go, EventRepository. `json.Marshal` is a library function: `marshal`
-- here, which fails on data that has no JSON. The sequence number is taken before it is called.
pub mod Enqueued
pub mod Delivery
use ants.Prelude.{
  ℕ, Bool, ◌&&◌, Option, none, some, List, [], ◌∷◌, ◌++◌, Text, bytes, text_eq, Int64, slt, inc,
  suc, Time, if◌then◌else◌,
}
use ants.Domain.Errors.{ErrorKind, Error, Result, ok, err}
use ants.Domain.DeliveryStatus.{DeliveryStatus}
use ants.Domain.Event.{Event}
use ants.Store.Assoc.{lookup, put}
use ants.Store.Outbox.{Outbox}
use ants.Store.Outbox.Stored.{Message}
use ants.Store.Rows.{has}
use ants.Store.Page.{collect}
use ants.Store.Database.{Database}

abbrev pub dedup_key : (event_id : Text) → Text
dedup_key event_id = bytes "event:" ++ event_id

-- The delivery of an event, as a row of the outbox.
unfoldable pub delivery : (ref : ℕ) → Event → (envelope : Text) → Int64 → Time → Message
delivery ref evt envelope max_attempts now = record {
  ref = ref;
  id = bytes "obx_" ++ evt.id;
  dedup_key = dedup_key evt.id;
  tenant_id = evt.tenant_id;
  envelope = envelope;
  status = DeliveryStatus.pending;
  attempts = 0;
  max_attempts = max_attempts;
  available_at = now;
  leased_by = [];
  lease_until = none;
  last_error = [];
  created_at = now;
  delivered_at = none;
  generation = 0;
  dead_at = none;
  discarded_at = none;
}

unfoldable pub enqueue : Event → (envelope : Text) → Int64 → Time → Outbox → Outbox
unfolding delivery
enqueue evt envelope max_attempts now st =
    let m = delivery st.next_ref evt envelope max_attempts now in
    if has (lookup m.dedup_key st.by_dedup) then st else (record {
      messages = st.messages ++ m ∷ [];
      by_id = put m.id m.ref st.by_id;
      by_dedup = put m.dedup_key m.ref st.by_dedup;
      next_ref = suc st.next_ref;
    })

abbrev pub envelope_error : Error
envelope_error = record { kind = ErrorKind.internal; code = "outbox_envelope" }

module _ (marshal : Event → Option Text) where
  abbrev append_marshalled : Event → Option Text → Time → Database → Database × Result (Unit {0})
  append_marshalled evt none now db = (db, err envelope_error)
  append_marshalled evt (some envelope) now db = (
    record db {
      outbox = enqueue evt envelope db.outbox_max_attempts now db.outbox;
      events = db.events ++ evt ∷ [];
    },
    ok tt,
  )

  unfoldable pub append : Event → Time → Database → Database × Result (Unit {0})
  unfolding enqueue
  append evt now db =
      let numbered = record evt { seq = inc db.event_seq } in
      append_marshalled numbered (marshal numbered) now (record db { event_seq = inc db.event_seq })

unfoldable pub list_by_tenant : (tenant_id : Text) (after_seq limit : Int64) → Database → List Event
list_by_tenant tenant_id after_seq limit db =
    collect (λ (e : Event). slt after_seq e.seq && text_eq e.tenant_id tenant_id) limit 0 db.events

unfoldable pub list_by_run :
    (tenant_id run_id : Text) (after_seq limit : Int64) → Database → List Event
list_by_run tenant_id run_id after_seq limit db =
    collect
      (λ (e : Event).
        slt after_seq e.seq && (text_eq e.tenant_id tenant_id && text_eq e.run_id run_id))
      limit 0 db.events
