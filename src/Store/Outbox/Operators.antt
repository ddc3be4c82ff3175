-- ===== src/Store/Outbox/Operators.antt =====
-- internal/store/memory/outbox.go: operators, dead messages, and the generation as a credential.
use ants.Prelude.{
  ℕ, ◌≡◌, refl, sym, ap, ◌∙◌, subst, true, some, List, [], ◌∷◌, Text, text_eq, Int64, inc, Time,
  arith, Option-cases, inl, inr,
}
use ants.Domain.Errors.{Result, ok, ◌>>=◌, ◌>>◌, then-ok, bind-ok, ok-injective}
use ants.Domain.DeliveryStatus.{DeliveryStatus, eq_iff}
use ants.Ports.Outbox.{
  Action, requeue, discard, OutboxMutationRequest, OutboxMutationResult, validate_mutation,
}
use ants.Store.Assoc.{lookup}
use ants.Store.Outbox.{
  Outbox, deref, write, deref_opt, find_message, update, find_own, requeue_dead_letter,
  discard_dead_letter,
}
use ants.Store.Outbox.Stored.{Message, classify, apply_requeue, apply_discard}

deref-write :
    (r : ℕ) (m m' : Message) (ms : List Message)
    → deref r ms ≡ some m
    → m'.ref ≡ r
    → deref r (write r m' ms) ≡ some m'
unfolding deref write
deref-write r m m' [] h e = cc h
deref-write r m m' (n ∷ ms) h e = ground (arith, deref-write r m m' ms)

pub deref-ref : (r : ℕ) (m : Message) (ms : List Message) → deref r ms ≡ some m → m.ref ≡ r
unfolding deref
deref-ref r m [] h = cc h
deref-ref r m (n ∷ ms) h = ground (arith, deref-ref r m ms)

-- What `find_message` finds after a message has been replaced: the replacement.
pub find-update :
    (id : Text) (st : Outbox) (m m' : Message)
    → find_message id st ≡ some m
    → m'.ref ≡ m.ref
    → find_message id (update m' st) ≡ some m'
unfolding find_message
find-update id st m m' h e = elim (Option-cases (lookup id st.by_id)) [
  | inl k ↦ cc (h, ap (λ o. deref_opt o st.messages) k)
  | inr (r, k) ↦
      let found : deref r st.messages ≡ some m = sym (ap (λ o. deref_opt o st.messages) k) ∙ h in
      let same = deref-ref r m st.messages found in
      rw k (
        subst (λ q. deref r (write q m' st.messages) ≡ some m') (sym (e ∙ same))
          (deref-write r m m' st.messages found (e ∙ same)))
]

find_own-ok :
    (tenant_id message_id : Text) (st : Outbox) (m : Message)
    → find_own tenant_id message_id st ≡ ok m
    → (find_message message_id st ≡ some m) × (text_eq m.tenant_id tenant_id ≡ true)
unfolding find_own
find_own-ok tenant_id message_id st m h = elim (Option-cases (find_message message_id st)) [
  | inl e ↦ ground (arith, h, e)
  | inr (n, e) ↦ ground (arith, h, e)
]

classify-ok :
    (m : Message) (g : Int64) {x : Unit {0}}
    → classify m g ≡ ok x
    → (m.generation ≡ g) × (m.status ≡ DeliveryStatus.dead)
unfolding classify
classify-ok m g h = ground (arith, eq_iff m.status DeliveryStatus.dead)

-- The chain that both mutations are, inverted.
inverted :
    (req : OutboxMutationRequest) (now : Time) (st : Outbox) (change : Message → Time → Message)
    (action : Action) {r : Outbox × OutboxMutationResult}
    → (do
      validate_mutation req
      m ← find_own req.tenant_id req.message_id st
      classify m req.expected_generation
      ok (
        update (change m now) st,
        record {
          message_id = m.id;
          action = action;
          attempts_before = m.attempts;
          generation = (change m now).generation;
        },
      ))
      ≡ ok r
    → (m : Message) × (find_message req.message_id st ≡ some m)
      × (m.generation ≡ req.expected_generation)
      × (m.status ≡ DeliveryStatus.dead)
      × (text_eq m.tenant_id req.tenant_id ≡ true)
      × (r.0 ≡ update (change m now) st)
inverted req now st change action h =
    let (_, h₁) = then-ok (validate_mutation req) _ h in
    let (m, found, h₂) = bind-ok (find_own req.tenant_id req.message_id st) _ h₁ in
    let (ready, h₃) = then-ok (classify m req.expected_generation) _ h₂ in
    let (here, own) = find_own-ok req.tenant_id req.message_id st m found in
    let (g, d) = classify-ok m req.expected_generation ready in
    (m, here, g, d, own, sym (ap (λ (p : Outbox × OutboxMutationResult). p.0) (ok-injective h₃)))

-- Either of the two mutations.
unfoldable pub mutate :
    Action → OutboxMutationRequest → Time → Outbox → Result (Outbox × OutboxMutationResult)
mutate requeue = requeue_dead_letter
mutate discard = discard_dead_letter

unfoldable pub apply : Action → Message → Time → Message
apply requeue = apply_requeue
apply discard = apply_discard

abbrev pub IsMutated : Action → OutboxMutationRequest → Time → Outbox → Outbox → Type 0
IsMutated a req now st st' =
    (m : Message) × (find_message req.message_id st ≡ some m)
    × (m.generation ≡ req.expected_generation)
    × (m.status ≡ DeliveryStatus.dead)
    × (text_eq m.tenant_id req.tenant_id ≡ true)
    × (st' ≡ update (apply a m now) st)

pub mutate-ok :
    (a : Action) (req : OutboxMutationRequest) (now : Time) (st : Outbox)
    {r : Outbox × OutboxMutationResult}
    → mutate a req now st ≡ ok r
    → IsMutated a req now st r.0
unfolding mutate apply requeue_dead_letter discard_dead_letter
mutate-ok requeue req now st h = inverted req now st apply_requeue requeue h
mutate-ok discard req now st h = inverted req now st apply_discard discard h

pub apply-lem :
    (a : Action) (m : Message) (now : Time)
    → ((apply a m now).ref ≡ m.ref) × ((apply a m now).generation ≡ inc m.generation)
unfolding apply apply_requeue apply_discard
apply-lem requeue m now = (refl, refl)
apply-lem discard m now = (refl, refl)
