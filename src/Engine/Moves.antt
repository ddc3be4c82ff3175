-- ===== src/Engine/Moves.antt =====
-- internal/orchestration/engine.go: what the moves change, and what they leave alone.
use ants.Prelude.{
  ◌≡◌, refl, arith, Bool, Option, List, [], ◌∷◌, ◌++◌, Text, inc, Int64, Time, Entropy,
  Option-cases, inl, inr,
}
use ants.Domain.Errors.{Result, ok, Result-cases}
use ants.Domain.Ids.{Entity, prefix, new_id}
use ants.Domain.Audit.{Metadata}
use ants.Domain.Event.{Event}
use ants.Domain.Run.{Run}
use ants.Domain.Thread.{Thread}
use ants.Domain.ThreadStatus.{ThreadStatus}
use ants.Domain.Thread as H
use ants.Store.Assoc.{Assoc}
use ants.Domain.Claim.{RunClaim}
use ants.Store.Outbox.{Outbox}
use ants.Store.Database.{Database}
use ants.Store.Events.{append, enqueue}
use ants.Store.Rows.{update_row}
use ants.Store.Threads as Threads
use ants.Store.Threads.{versioned_threads}
use ants.Store.Transactor.{new_id_or_fail}
use ants.Store.Transactor.Frame.{Keeps, then-Keeps, transact-Keeps}
use ants.Engine.{Tick, lift, on_store, emit_event, thread_event, transition_thread_with_data}

abbrev pub runs_of : Database → Assoc Run
runs_of db = db.runs

abbrev pub claims_of : Database → Assoc RunClaim
claims_of db = db.run_claims

-- A part of the state that threads and the event log are no part of.
module _ {V : Type 0} (view : Database → V) where
  abbrev pub IsApart : Type 0
  IsApart =
      (db : Database) (threads : Assoc Thread) (events : List Event) (outbox : Outbox) (seq : Int64)
      → view (record db { threads = threads; events = events; outbox = outbox; event_seq = seq })
        ≡ view db

  module _ (apart : IsApart) where
    new_id-Keeps :
        (entity : Entity) (entropy : Entropy) → Keeps view (new_id_or_fail entity entropy)
    new_id-Keeps entity entropy db = elim (Option-cases (new_id (prefix entity) entropy)) [
      | inl k ↦ ground (arith, k)
      | inr (id, k) ↦ ground (arith, k)
    ]

    append-Keeps :
        (marshal : Event → Option Text) (evt : Event) (now : Time)
        → Keeps view (append marshal evt now)
    unfolding append
    append-Keeps marshal evt now db =
        let numbered = record evt { seq = inc db.event_seq } in
        elim (Option-cases (marshal numbered)) [
          | inl k ↦ ground (arith, k, apart db db.threads db.events db.outbox (inc db.event_seq))
          | inr (envelope, k) ↦ ground (
            arith,
            k,
            apart db db.threads (db.events ++ numbered ∷ [])
                (enqueue numbered envelope db.outbox_max_attempts now db.outbox) (inc db.event_seq),
          )
        ]

    update-Keeps : (thread : Thread) (v : Int64) → Keeps view (on_store (Threads.update thread v))
    unfolding Threads.update
    update-Keeps thread v db =
        elim (Result-cases (update_row versioned_threads thread v db.threads)) [
          | inr (x, k) ↦ ground (arith, k)
          | inl ((threads, stored), k) ↦
              ground (arith, k, apart db threads db.events db.outbox db.event_seq)
        ]

    module _ (marshal : Event → Option Text) (carried : Option Text) where
      pub emit_event-Keeps :
          (event : Event) (tick : Tick) → Keeps view (emit_event marshal carried event tick)
      unfolding emit_event
      emit_event-Keeps event tick =
          then-Keeps view (new_id_or_fail Entity.event tick.entropy) _
            (new_id-Keeps Entity.event tick.entropy) (λ id. append-Keeps marshal _ tick.enqueued_at)

      -- A move of a thread, made or refused, joined to a unit or not, leaves such a part alone.
      pub transition_thread-Keeps :
          (inside : Bool) (thread : Thread) (next : ThreadStatus) (extra : Metadata) (tick : Tick)
          → Keeps view (transition_thread_with_data marshal carried inside thread next extra tick)
      unfolding transition_thread_with_data
      transition_thread-Keeps inside thread next extra tick = transact-Keeps view inside _ (
          then-Keeps view (lift (H.transition_to thread next)) _ (λ db. refl)
            (λ moved.
              then-Keeps view (on_store (Threads.update moved thread.version)) _
                (update-Keeps moved thread.version)
                (λ stored.
                  then-Keeps view (emit_event marshal carried (thread_event stored next extra) tick)
                    _ (emit_event-Keeps (thread_event stored next extra) tick) (λ _ db. refl))))

pub runs-IsApart : IsApart runs_of
runs-IsApart db threads events outbox seq = refl

pub claims-IsApart : IsApart claims_of
claims-IsApart db threads events outbox seq = refl

pub on_store-ok :
    {A : Type 0} (f : Database → Result (Database × A)) (db db' : Database) {a : A}
    → on_store f db ≡ (db', ok a)
    → f db ≡ ok (db', a)
on_store-ok f db db' h = elim (Result-cases (f db)) [
  | inr (x, k) ↦ cc (h, k)
  | inl ((mid, b), k) ↦ ground (arith, h, k)
]
