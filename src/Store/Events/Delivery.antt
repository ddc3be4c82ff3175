-- ===== src/Store/Events/Delivery.antt =====
-- internal/store/memory/events.go: the event log and its deliveries.
use ants.Prelude.{
  some, ℕ, suc, ◌+◌, ◌≡◌, ◌≤◌, ◌<◌, refl, arith, true, Option, List, [], ◌∷◌, ◌++◌, Text, Int64,
  slt, inc, Time, length, All, All-map_of, All-append, sign_bit, Option-cases, inl, inr,
}
use ants.Domain.Event.{Event}
use ants.Store.Assoc.{lookup}
use ants.Store.Outbox.{Outbox}
use ants.Store.Outbox.Stored.{Message}
use ants.Store.Page.Resume.{IsAscending}
use ants.Store.Database.{Database}
use ants.Store.Events.{append, enqueue}
use ants.Store.Events.Enqueued.{IsQueued, IsRow, enqueue-IsQueued, enqueue-keeps, enqueue-indexed}

abbrev pub seq_of : Event → Int64
seq_of e = e.seq

module _ (marshal : Event → Option Text) (first : Outbox) where
  -- Every event of the log has a delivery, every key its row, and the log is in the order of its
  -- numbers, none of them above the store's counter. No row has an address that is still to be given.
  pub record IsDelivered (db : Database) : Type 0 where
    pub queued : All (IsQueued db.outbox) db.events
    pub indexed :
        (key : Text) (r : ℕ)
        → lookup key db.outbox.by_dedup ≡ some r
        → IsRow marshal first db.outbox.messages db.events key r
    pub issued : All (λ (m : Message). m.ref < db.outbox.next_ref) db.outbox.messages
    pub ascending : IsAscending seq_of db.events
    pub counted : All (λ e. e.seq ≤ db.event_seq) db.events

IsAscending-snoc :
    (es : List Event) (e : Event) (top : ℕ)
    → IsAscending seq_of es
    → All (λ d. d.seq ≤ top) es
    → e.seq ≡ suc top
    → suc top < sign_bit
    → IsAscending seq_of (es ++ e ∷ [])
IsAscending-snoc [] e top h c k b = (tt, tt)
IsAscending-snoc (d ∷ es) e top h c k b = (
  All-append (λ x. slt d.seq x.seq ≡ true) es (e ∷ []) h.0 (ground (arith, c.0, k, b), tt),
  IsAscending-snoc es e top h.1 c.1 k b,
)

module _ (marshal : Event → Option Text) (first : Outbox) where
  -- A number that is taken, and a log that has grown by an event that bears it.
  skipped :
      (db : Database)
      → db.event_seq + 1 < sign_bit
      → IsDelivered marshal first db
      → IsDelivered marshal first (record db { event_seq = inc db.event_seq })
  skipped db b h = record {
    queued = h.queued;
    indexed = h.indexed;
    issued = h.issued;
    ascending = h.ascending;
    counted =
        All-map_of (λ (e : Event). e.seq ≤ db.event_seq) (λ (e : Event). e.seq ≤ inc db.event_seq)
          (λ e le. omega (arith, le, b)) db.events h.counted;
  }

  grown :
      (evt : Event) (envelope : Text) (now : Time) (db : Database)
      → db.event_seq + 1 < sign_bit
      → evt.seq ≡ inc db.event_seq
      → marshal evt ≡ some envelope
      → IsDelivered marshal first db
      → IsDelivered marshal first (record db {
        event_seq = inc db.event_seq;
        outbox = enqueue evt envelope db.outbox_max_attempts now db.outbox;
        events = db.events ++ evt ∷ [];
      })
  grown evt envelope now db b numbered payload h = record {
    queued =
        All-append _ db.events (evt ∷ [])
          (All-map_of (IsQueued db.outbox)
            (IsQueued (enqueue evt envelope db.outbox_max_attempts now db.outbox))
            (λ e. enqueue-keeps evt e envelope db.outbox_max_attempts now db.outbox) db.events
            h.queued)
          (enqueue-IsQueued evt envelope db.outbox_max_attempts now db.outbox, tt);
    indexed =
        (enqueue-indexed marshal first evt envelope db.outbox_max_attempts now db.outbox db.events
          payload h.indexed h.issued).0;
    issued =
        (enqueue-indexed marshal first evt envelope db.outbox_max_attempts now db.outbox db.events
          payload h.indexed h.issued).1;
    ascending =
        IsAscending-snoc db.events evt db.event_seq h.ascending h.counted
          (omega (arith, numbered, b)) (omega (arith, b));
    counted =
        All-append (λ (e : Event). e.seq ≤ inc db.event_seq) db.events (evt ∷ [])
          (skipped db b h).counted (omega (arith, numbered), tt);
  }

module _ (marshal : Event → Option Text) where
  -- Appends that callers make, each at its instant; a refused one has taken a number.
  unfoldable pub append_all : List (Event × Time) → Database → Database
  append_all [] db = db
  append_all ((e, now) ∷ calls) db = append_all calls (append marshal e now db).0

module _ (marshal : Event → Option Text) (first : Outbox) where
  append-IsDelivered :
      (evt : Event) (now : Time) (db : Database)
      → db.event_seq + 1 < sign_bit
      → IsDelivered marshal first db
      → IsDelivered marshal first (append marshal evt now db).0
        × ((append marshal evt now db).0.event_seq ≡ inc db.event_seq)
  unfolding append
  append-IsDelivered evt now db b h =
      let numbered = record evt { seq = inc db.event_seq } in
      elim (Option-cases (marshal numbered)) [
        | inl k ↦ rw k (skipped marshal first db b h, refl)
        | inr (envelope, k) ↦ rw k (grown marshal first numbered envelope now db b refl k h, refl)
      ]

  -- However events are appended, failures among them: if every event of the log has been enqueued
  -- under its own key, every key of the outbox leads to a row that bears it and, unless the outbox
  -- `first` had the key, delivers an event of the log with its payload and tenant, and the log is in
  -- the strict order of its sequence numbers, none of them above the store's counter, as in a new
  -- store, then all this stays so. The counter stays below 2 ^ 63.
  pub append_all-IsDelivered :
      (calls : List (Event × Time)) (db : Database)
      → db.event_seq + length calls < sign_bit
      → IsDelivered marshal first db
      → IsDelivered marshal first (append_all marshal calls db)
  unfolding append_all
  append_all-IsDelivered [] db b h = h
  append_all-IsDelivered ((e, now) ∷ calls) db b h =
      let (next, count) = append-IsDelivered e now db (omega (arith, b)) h in
      append_all-IsDelivered calls (append marshal e now db).0 (omega (arith, b, count)) next
