-- ===== src/Store/Outbox/Published.antt =====
-- internal/store/memory/outbox.go: what publishing under a key promises.
use ants.Prelude.{
  ◌≡◌, ◌≢◌, ◌<◌, ◌⊎◌, refl, ap, ◌∙◌, subst, arith, none, List, [], ◌∷◌, ◌++◌, Text, text_eq,
  text_eq_refl, Time, length, keep, All, All-map_of, All-append, slt, ◌||◌, inl, inr,
}
use ants.Domain.Errors.{ok, refuse_if-ok, ok-injective}
use ants.Ports.Outbox.{OutboxMessage}
use ants.Store.Assoc.{lookup}
use ants.Store.Assoc.Laws.{lookup-put}
use ants.Store.Outbox.{Outbox, publish}
use ants.Store.Outbox.Stored.{Message, new_message}
use ants.Store.Outbox.History.{Call, history}
use ants.Store.Outbox.Kept.{
  SparesRows, IsOf, IsOnly, rows_at, IsPublished, history-IsPublished, keyed-same,
}

-- A key that nothing has: it is free in the index and no row bears it; the addresses of rows have been
-- given.
abbrev pub IsFree : Text → Outbox → Type 0
IsFree key st =
    (lookup key st.by_dedup ≡ none)
    × All (λ (m : Message). (m.dedup_key ≢ key) × (m.ref < st.next_ref)) st.messages

publish-IsPublished :
    (msg : OutboxMessage) (now : Time) (st st' : Outbox)
    → IsFree msg.dedup_key st
    → publish msg now st ≡ ok st'
    → IsPublished msg st.next_ref st'
unfolding publish new_message
publish-IsPublished msg now st st' (free, rows) h =
    let (_, same) = refuse_if-ok (slt msg.max_attempts 1 || slt 100 msg.max_attempts) _ _ h in
    subst (IsPublished msg st.next_ref) (ok-injective same) (
      rw free (
        (
          rw
              (
                lookup-put msg.dedup_key msg.dedup_key st.next_ref st.by_dedup,
                text_eq_refl msg.dedup_key,
              )
              refl,
          omega arith,
          one st.messages rows,
        ),
        All-append (IsOnly msg st.next_ref) st.messages _
            (All-map_of _ _ (λ m far. inl (far.0, λ at. omega (arith, far.1, at))) st.messages rows)
            (inr ((refl, refl, refl, refl, refl), refl), tt),
      ))
  where
    one :
        (ms : List Message)
        → All (λ (m : Message). (m.dedup_key ≢ msg.dedup_key) × (m.ref < st.next_ref)) ms
        → rows_at msg st.next_ref (ms ++ new_message st.next_ref msg now ∷ []) ≡ 1
    one [] h = ground arith
    one (m ∷ ms) h = ground (arith, h.0.1, one ms h.1)

-- What is published under a free key is queued, once: after it was published, and however the outbox
-- is used then, further messages published under the key among it, exactly one row bears the key as
-- long as no retention sweep runs, and every row that does carries what was published first. The key
-- was free where neither the index nor a row had it; every row's address had been given.
pub publish_once :
    (msg : OutboxMessage) (now : Time) (st st' : Outbox) (calls : List (Time × Call))
    → IsFree msg.dedup_key st
    → publish msg now st ≡ ok st'
    → All (λ (c : Time × Call). SparesRows c.1) calls
    → (length
          (keep (λ (m : Message). text_eq m.dedup_key msg.dedup_key) (history calls st').messages)
        ≡ 1)
      × All
          (λ (m : Message). (m.dedup_key ≢ msg.dedup_key) ⊎ IsOf msg m)
          (history calls st').messages
publish_once msg now st st' calls free h spares =
    let (row, only) =
      history-IsPublished msg st.next_ref calls st' spares
        (publish-IsPublished msg now st st' free h) in
    (
      ap length (keyed-same msg st.next_ref (history calls st').messages only) ∙ row.2,
      All-map_of _ _ (λ m either. elim either [ inl far ↦ inl far.0 | inr own ↦ inr own.0 ]) _ only,
    )
