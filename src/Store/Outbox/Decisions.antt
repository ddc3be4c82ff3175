-- ===== src/Store/Outbox/Decisions.antt =====
-- internal/store/memory/outbox.go: the generation of a dead message as a credential that is used up.
use ants.Prelude.{
  ℕ, suc, ◌+◌, ◌≡◌, ◌≤◌, ◌<◌, ◌⊎◌, ◌==◌, refl, sym, ap, ◌∙◌, subst, arith, false, none, some, List,
  [], ◌∷◌, Text, text_eq, inc, word_mod, Time, Duration, length, All, All-map_of, Bool-cases,
  Option-cases, inl, inr,
}
use ants.Domain.Errors.{◌>>=◌, ◌>>◌, Result, ok, err, stale_version, not_foundf}
use ants.Ports.Outbox.{
  Action, requeue, discard, OutboxMutationRequest, OutboxMutationResult, validate_mutation,
}
use ants.Store.Assoc.{lookup}
use ants.Store.Outbox.{
  Outbox, deref, write, deref_opt, find_message, find_own, requeue_dead_letter, discard_dead_letter,
}
use ants.Store.Outbox.Stored.{
  Message, new_message, fail_message, lease_message, deliver_message, classify,
}
use ants.Store.Outbox.Operators.{mutate, mutate-ok, apply, apply-lem, deref-ref}
use ants.Store.Outbox.Sound.{All-found}
use ants.Store.Outbox.Victims.{HasDistinctRefs}
use ants.Store.Outbox.History.{Call, step, history}
use ants.Store.Outbox.Carried.{Turns, Adds, step-All}
use ants.Store.Outbox.Indexed.{Spares, step-IsLed}

-- A row of address `r` is past the generation `g`, by at most `k`.
abbrev IsPast : (g r k : ℕ) → Message → Type 0
IsPast g r k m = m.ref ≡ r → (g < m.generation) × (m.generation ≤ g + k)

fail-lem :
    (m : Message) (d : Duration) (cause : Text) (now : Time)
    → ((fail_message m d cause now).ref ≡ m.ref)
      × (((fail_message m d cause now).generation ≡ m.generation)
          ⊎ ((fail_message m d cause now).generation ≡ inc m.generation))
unfolding fail_message
fail-lem m d cause now = ground arith

module _ (g r k : ℕ) (b : g + suc k < word_mod) where
  IsPast-Turns : Turns (IsPast g r k) (IsPast g r (suc k))
  unfolding lease_message deliver_message
  IsPast-Turns = record {
    kept = λ m p e. ((p e).0, omega (arith, (p e).1));
    leased = λ m w u p e. ((p e).0, omega (arith, (p e).1));
    delivered = λ m now p e. ((p e).0, omega (arith, (p e).1));
    failed = λ m d cause now p e.
        let (same, moved) = fail-lem m d cause now in
        let (lo, hi) = p (sym same ∙ e) in ground (arith, lo, hi, b, moved);
    applied = λ a m now p e.
        let (same, moved) = apply-lem a m now in
        let (lo, hi) = p (sym same ∙ e) in
        (omega (arith, lo, hi, b, moved), omega (arith, lo, hi, b, moved));
  }

  new-Adds :
      (now : Time) (call : Call) (st : Outbox)
      → r < st.next_ref
      → Adds (IsPast g r k) (IsPast g r (suc k)) IsPast-Turns now call st
  unfolding new_message
  new-Adds now (Call.publish_one msg) st issued = λ gone e. absurd (omega (arith, issued, e))
  new-Adds now (Call.lease_some req) st issued = tt
  new-Adds now (Call.deliver_one id leased_by) st issued = tt
  new-Adds now (Call.fail_one id leased_by d cause) st issued = tt
  new-Adds now (Call.operate a req) st issued = tt
  new-Adds now (Call.sweep req) st issued = tt

-- The identifier leads to the address `r`, which is in use, or nowhere; the rows there are past `g`.
abbrev IsUsed : (id : Text) → (g r k : ℕ) → Outbox → Type 0
IsUsed id g r k st =
    ((lookup id st.by_id ≡ some r) ⊎ (lookup id st.by_id ≡ none))
    × (r < st.next_ref)
    × All (IsPast g r k) st.messages

module _ (id : Text) (g r : ℕ) where
  step-IsUsed :
      (k : ℕ) (now : Time) (call : Call) (st : Outbox)
      → g + suc k < word_mod
      → Spares id call
      → IsUsed id g r k st
      → IsUsed id g r (suc k) (step now call st)
  step-IsUsed k now call st b spares (led, issued, past) =
      let (same, grown) = step-IsLed id now call st spares in
      (
        ground (arith, led, same),
        omega (arith, issued, grown),
        step-All (IsPast g r k) (IsPast g r (suc k)) (IsPast-Turns g r k b) now call st
            (new-Adds g r k b now call st issued) past,
      )

  history-IsUsed :
      (calls : List (Time × Call)) (k : ℕ) (st : Outbox)
      → g + (k + length calls) < word_mod
      → All (λ (c : Time × Call). Spares id c.1) calls
      → IsUsed id g r k st
      → IsUsed id g r (k + length calls) (history calls st)
  unfolding history
  history-IsUsed [] k st b spares used =
      (used.0, used.1, All-map_of _ _ (λ m p e. ((p e).0, omega (arith, (p e).1))) _ used.2)
  history-IsUsed ((now, call) ∷ calls) k st b spares used =
      let more =
        history-IsUsed calls (suc k) (step now call st) (omega (arith, b)) spares.1
          (step-IsUsed k now call st (omega (arith, b)) spares.0 used) in
      (more.0, more.1, All-map_of _ _ (λ m p e. ((p e).0, omega (arith, (p e).1))) _ more.2)

-- Where rows have distinct addresses, what is written is the only row of its address.
write-only :
    (q : ℕ) (m m' : Message) (ms : List Message) (P : Message → Type 0)
    → HasDistinctRefs ms
    → deref q ms ≡ some m
    → P m'
    → All (λ n. n.ref ≡ q → P n) (write q m' ms)
unfolding write deref
write-only q m m' [] P d h p = tt
write-only q m m' (n ∷ ms) P d h p = elim (Bool-cases (n.ref == q)) [
  | inl e ↦
      let same : n.ref ≡ q = ground (arith, e) in
      rw e (λ _. p, All-map_of _ _ (λ x apart at. absurd (apart (at ∙ sym same))) ms d.0)
  | inr e ↦
      rw e
        (λ at. absurd (ground (arith, e, at)), write-only q m m' ms P d.1 (ground (arith, e, h)) p)
]

-- No two rows share an address, and no identifier leads to one that is still to be given.
pub record IsIndexed (st : Outbox) : Type 0 where
  pub distinct : HasDistinctRefs st.messages
  pub issued : (id : Text) (r : ℕ) → lookup id st.by_id ≡ some r → r < st.next_ref

found-at :
    (id : Text) (st : Outbox) (m : Message)
    → find_message id st ≡ some m
    → (lookup id st.by_id ≡ some m.ref) × (deref m.ref st.messages ≡ some m)
unfolding find_message
found-at id st m h = elim (Option-cases (lookup id st.by_id)) [
  | inl e ↦ absurd (cc (h, ap (λ o. deref_opt o st.messages) e))
  | inr (r, e) ↦
      let at : deref r st.messages ≡ some m = sym (ap (λ o. deref_opt o st.messages) e) ∙ h in
      let same = deref-ref r m st.messages at in
      (e ∙ ap some (sym same), ap (λ q. deref q st.messages) same ∙ at)
]

mutated-IsUsed :
    (a : Action) (req : OutboxMutationRequest) (now : Time) (st : Outbox)
    (r : Outbox × OutboxMutationResult)
    → req.expected_generation + 1 < word_mod
    → IsIndexed st
    → mutate a req now st ≡ ok r
    → (q : ℕ) × IsUsed req.message_id req.expected_generation q 1 r.0
mutated-IsUsed a req now st r b w h =
    let (m, here, g, _, _, shape) = mutate-ok a req now st {r = r} h in
    let (led, at) = found-at req.message_id st m here in
    let (kept, next) = apply-lem a m now in
    (
      m.ref,
      subst (IsUsed req.message_id req.expected_generation m.ref 1) (sym shape) (
        inl led,
        w.issued req.message_id m.ref led,
        subst
            (λ q.
              All (IsPast req.expected_generation m.ref 1) (write q (apply a m now) st.messages))
            (sym kept)
            (write-only m.ref m (apply a m now) st.messages
              (λ n.
                (req.expected_generation < n.generation)
                × (n.generation ≤ req.expected_generation + 1))
              w.distinct at (omega (arith, next, g, b), omega (arith, next, g, b))),
      ),
    )

-- The answer to a well-formed decision that cites a generation which its message is past.
abbrev pub IsStale : Result (Outbox × OutboxMutationResult) → Type 0
IsStale r = (r ≡ err stale_version) ⊎ (r ≡ err (not_foundf "outbox_message_not_found"))

judged :
    (req : OutboxMutationRequest) (st : Outbox)
    (act : Message → Result (Outbox × OutboxMutationResult))
    → ((m : Message)
        → find_message req.message_id st ≡ some m
        → req.expected_generation < m.generation)
    → IsStale (
        find_own req.tenant_id req.message_id st >>= λ m.
        (classify m req.expected_generation >> act m))
unfolding find_own classify
judged req st act past = elim (Option-cases (find_message req.message_id st)) [
  | inl none_there ↦ rw none_there (inr refl)
  | inr (m, there) ↦
      let later = past m there in
      elim (Bool-cases (text_eq m.tenant_id req.tenant_id)) [
        | inr foreign ↦ rw (there, foreign) (inr refl)
        | inl own ↦
            let moved : (m.generation == 0) ≡ false = ground (arith, later) in
            let stale : (m.generation == req.expected_generation) ≡ false = ground (arith, later) in
            rw (there, own, moved, stale) (inl refl)
      ]
]

refused :
    (b : Action) (req : OutboxMutationRequest) (now : Time) (st : Outbox)
    → validate_mutation req ≡ ok tt
    → ((m : Message)
        → find_message req.message_id st ≡ some m
        → req.expected_generation < m.generation)
    → IsStale (mutate b req now st)
unfolding mutate requeue_dead_letter discard_dead_letter
refused requeue req now st valid past = rw valid (judged req st _ past)
refused discard req now st valid past = rw valid (judged req st _ past)

used-past :
    (id : Text) (g q k : ℕ) (st : Outbox)
    → IsUsed id g q k st
    → (m : Message) → find_message id st ≡ some m
    → g < m.generation
used-past id g q k st (led, issued, past) m here =
    let (leads, at) = found-at id st m here in
    let is_there : m.ref ≡ q = ground (arith, led, leads) in
    (All-found (IsPast g q k) id st m past here is_there).0

-- Of the operators that have seen the same generation of a message one at most decides: after a
-- requeue or a discard has succeeded, and whatever calls of the outbox follow that publish nothing
-- under the message's identifier again, every well-formed requeue or discard of the message that
-- cites the generation of the first is refused. It is told that its version is stale, or, where the
-- message has been swept or is another tenant's, that there is none: never that the message is not
-- dead. The generation does not wrap: it and the number of the calls stay below 2 ^ 64. At the first
-- decision no two rows share an address, and no identifier leads to one that is still to be given.
pub mutation_once :
    (a b : Action) (req req' : OutboxMutationRequest) (now now' : Time) (st : Outbox)
    (r : Outbox × OutboxMutationResult) (calls : List (Time × Call))
    → IsIndexed st
    → req'.message_id ≡ req.message_id
    → req'.expected_generation ≡ req.expected_generation
    → req.expected_generation + (1 + length calls) < word_mod
    → validate_mutation req' ≡ ok tt
    → All (λ (c : Time × Call). Spares req.message_id c.1) calls
    → mutate a req now st ≡ ok r
    → IsStale (mutate b req' now' (history calls r.0))
mutation_once a b req req' now now' st r calls w same_id same_gen bound valid spares h =
    let (q, used) = mutated-IsUsed a req now st r (omega (arith, bound)) w h in
    let later =
      history-IsUsed req.message_id req.expected_generation q calls 1 r.0 bound spares used in
    refused b req' now' (history calls r.0) valid (λ m here.
      let past =
        used-past req.message_id req.expected_generation q (1 + length calls) (history calls r.0)
          later m (ap (λ id. find_message id (history calls r.0)) (sym same_id) ∙ here) in
      omega (arith, past, same_gen))
