-- ===== src/Store/Events/Enqueued.antt =====
-- internal/store/memory/events.go: the rows of the outbox that deliver events.
use ants.Prelude.{
  ◌⊎◌, some, ap, ◌∙◌, IsIn, append-IsIn, append-last-IsIn, text_eq, text_eq→eq, ℕ, suc, ◌≡◌, ◌<◌,
  refl, arith, true, Option, List, [], ◌∷◌, ◌++◌, Text, text_eq_refl, Int64, Time, All, All-map_of,
  All-append, Bool-cases, inl, inr,
}
use ants.Domain.Event.{Event}
use ants.Store.Assoc.{lookup}
use ants.Store.Assoc.Laws.{lookup-put}
use ants.Store.Outbox.{Outbox, deref}
use ants.Store.Outbox.Stored.{Message}
use ants.Store.Rows.{has}
use ants.Store.Events.{enqueue, dedup_key, delivery}

-- The key of the event has a row.
abbrev pub IsQueued : Outbox → Event → Type 0
IsQueued st e = has (lookup (dedup_key e.id) st.by_dedup) ≡ true

module _ (marshal : Event → Option Text) (first : Outbox) where
  -- The row delivers an event of the log, and its payload is that event's, or its key was in use in
  -- the outbox `first` already.
  abbrev pub IsCarried : List Event → Text → Message → Type 0
  IsCarried es key m =
      ((e : Event) × IsIn e es
        × (dedup_key e.id ≡ key)
        × (marshal e ≡ some m.envelope)
        × (m.tenant_id ≡ e.tenant_id))
      ⊎ (has (lookup key first.by_dedup) ≡ true)

  -- What the index has under a key: a row that is there and bears the key.
  abbrev pub IsRow : List Message → List Event → Text → ℕ → Type 0
  IsRow ms es key r =
      (m : Message) × (deref r ms ≡ some m) × (m.dedup_key ≡ key) × IsCarried es key m

pub enqueue-IsQueued :
    (evt : Event) (envelope : Text) (max : Int64) (now : Time) (st : Outbox)
    → IsQueued (enqueue evt envelope max now st) evt
unfolding enqueue
enqueue-IsQueued evt envelope max now st =
    let key = dedup_key evt.id in
    elim (Bool-cases (has (lookup key st.by_dedup))) [
      | inl e ↦ rw e e
      | inr e ↦ rw e (ground (arith, lookup-put key key st.next_ref st.by_dedup, text_eq_refl key))
    ]

pub enqueue-keeps :
    (evt d : Event) (envelope : Text) (max : Int64) (now : Time) (st : Outbox)
    → IsQueued st d
    → IsQueued (enqueue evt envelope max now st) d
unfolding enqueue
enqueue-keeps evt d envelope max now st h =
    let key = dedup_key evt.id in
    elim (Bool-cases (has (lookup key st.by_dedup))) [
      | inl e ↦ rw e h
      | inr e ↦ rw e (ground (arith, lookup-put key (dedup_key d.id) st.next_ref st.by_dedup, h))
    ]

deref-append :
    (r : ℕ) (ms : List Message) (n m : Message)
    → deref r ms ≡ some m
    → deref r (ms ++ n ∷ []) ≡ some m
unfolding deref
deref-append r [] n m h = cc h
deref-append r (x ∷ ms) n m h = ground (arith, deref-append r ms n m)

deref-last :
    (ms : List Message) (n : Message)
    → All (λ (m : Message). m.ref < n.ref) ms
    → deref n.ref (ms ++ n ∷ []) ≡ some n
unfolding deref
deref-last [] n h = ground arith
deref-last (x ∷ ms) n h = ground (arith, h.0, deref-last ms n h.1)

module _ (marshal : Event → Option Text) (first : Outbox) where
  IsRow-append :
      (ms : List Message) (new : List Message) (es : List Event) (e : Event) (key : Text) (r : ℕ)
      → ((m : Message) → deref r ms ≡ some m → deref r new ≡ some m)
      → IsRow marshal first ms es key r
      → IsRow marshal first new (es ++ e ∷ []) key r
  IsRow-append ms new es e key r kept (m, at, own, from) = (m, kept m at, own, carried from)
    where
      carried : IsCarried marshal first es key m → IsCarried marshal first (es ++ e ∷ []) key m
      carried (inl (d, there, k, payload, tenant)) =
          inl (d, append-IsIn es (e ∷ []) d there, k, payload, tenant)
      carried (inr old) = inr old

  -- What an enqueued event does to the index and the rows.
  pub enqueue-indexed :
      (evt : Event) (envelope : Text) (max : Int64) (now : Time) (st : Outbox) (es : List Event)
      → marshal evt ≡ some envelope
      → ((key : Text) (r : ℕ)
          → lookup key st.by_dedup ≡ some r
          → IsRow marshal first st.messages es key r)
      → All (λ (m : Message). m.ref < st.next_ref) st.messages
      → ((key : Text) (r : ℕ)
          → lookup key (enqueue evt envelope max now st).by_dedup ≡ some r
          → IsRow marshal first (enqueue evt envelope max now st).messages (es ++ evt ∷ []) key r)
        × All
            (λ (m : Message). m.ref < (enqueue evt envelope max now st).next_ref)
            (enqueue evt envelope max now st).messages
  unfolding enqueue delivery
  enqueue-indexed evt envelope max now st es payload old issued =
      let n = delivery st.next_ref evt envelope max now in
      elim (Bool-cases (has (lookup (dedup_key evt.id) st.by_dedup))) [
        | inl e ↦ rw e (
          λ key r h. IsRow-append st.messages st.messages es evt key r (λ m at. at) (old key r h),
          issued,
        )
        | inr e ↦ rw e (
          λ key r h. elim (Bool-cases (text_eq (dedup_key evt.id) key)) [
            | inl k ↦
                let own = text_eq→eq (dedup_key evt.id) key k in
                let here : r ≡ st.next_ref =
                  ground (arith, h, k, lookup-put (dedup_key evt.id) key st.next_ref st.by_dedup) in
                (
                  n,
                  ap (λ q. deref q (st.messages ++ n ∷ [])) here ∙ deref-last st.messages n issued,
                  own,
                  inl (evt, append-last-IsIn es evt, own, payload, refl),
                )
            | inr k ↦
                IsRow-append st.messages (st.messages ++ n ∷ []) es evt key r
                  (λ m at. deref-append r st.messages n m at)
                  (old key r (
                    ground
                      (arith, h, k, lookup-put (dedup_key evt.id) key st.next_ref st.by_dedup)))
          ],
          All-append (λ (m : Message). m.ref < suc st.next_ref) st.messages (n ∷ [])
              (All-map_of (λ (m : Message). m.ref < st.next_ref)
                (λ (m : Message). m.ref < suc st.next_ref) (λ m le. omega (arith, le)) st.messages
                issued)
              (omega arith, tt),
        )
      ]
