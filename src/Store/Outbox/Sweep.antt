-- ===== src/Store/Outbox/Sweep.antt =====
-- internal/store/memory/outbox.go: a retention sweep as a whole.
use ants.Prelude.{
  ℕ, suc, ◌≢◌, ◌==◌, refl, subst, List, [], ◌∷◌, All, All-keep, All-map_of, IsIn, keep-IsIn, ◌+◌,
  ◌-◌, ◌≤◌, ◌≡◌, ◌⊎◌, inl, inr, sym, ap, ◌∙◌, if◌then◌else◌, Bool, false, not, length, keep, Time,
  arith, Bool-cases,
}
use ants.Domain.Errors.{ok, then-ok, ok-injective}
use ants.Ports.Outbox.{RetentionSweepRequest, RetentionSweepResult, validate_sweep}
use ants.Store.Outbox.{Outbox}
use ants.Store.Outbox.Stored.{Message}
use ants.Store.Outbox.Retention.{
  delivered_victims, all_victims, remove_victims, sweep_retention, is_among,
}
use ants.Store.Outbox.Victims.{
  IsExpired, HasDistinctRefs, victims-All, All-IsIn, All-self, distinct-eq, victims-le,
}

pub sweep_retention-ok :
    (req : RetentionSweepRequest) (now : Time) (st : Outbox) {r : Outbox × RetentionSweepResult}
    → sweep_retention req now st ≡ ok r
    → (r.0 ≡ (if req.dry_run then st else remove_victims (all_victims req now st.messages) st))
      × (r.1 ≡ record {
        cutoff = now;
        deleted_delivered = length (delivered_victims req now st.messages);
        deleted_discarded =
            length (all_victims req now st.messages)
            - length (delivered_victims req now st.messages);
      })
unfolding sweep_retention
sweep_retention-ok req now st h =
    let same = ok-injective (then-ok (validate_sweep req) _ h).1 in
    (
      sym (ap (λ (p : Outbox × RetentionSweepResult). p.0) same),
      sym (ap (λ (p : Outbox × RetentionSweepResult). p.1) same),
    )

keep-AllDistinct :
    (p : Message → Bool) (ms : List Message) → HasDistinctRefs ms → HasDistinctRefs (keep p ms)
keep-AllDistinct p [] d = tt
keep-AllDistinct p (m ∷ ms) d = elim (Bool-cases (p m)) [
  | inl e ↦ rw e (All-keep _ p ms d.0, keep-AllDistinct p ms d.1)
  | inr e ↦ rw e (keep-AllDistinct p ms d.1)
]

-- All rows but those of one address.
abbrev others : ℕ → List Message → List Message
others r ms = keep (λ (m : Message). not (r == m.ref)) ms

others-same : (r : ℕ) (ms : List Message) → All (λ (m : Message). m.ref ≢ r) ms → others r ms ≡ ms
others-same r [] h = refl
others-same r (m ∷ ms) h = ground (arith, h.0, others-same r ms h.1)

-- At most one row has the address.
length-others :
    (r : ℕ) (ms : List Message) → HasDistinctRefs ms → length ms ≤ suc (length (others r ms))
length-others r [] d = omega arith
length-others r (m ∷ ms) d = elim (Bool-cases (r == m.ref)) [
  | inr e ↦ rw e (omega (arith, length-others r ms d.1))
  | inl e ↦
      let same : r ≡ m.ref = ground (arith, e) in
      let rest : others r ms ≡ ms =
        others-same r ms (subst (λ q. All (λ (n : Message). n.ref ≢ q) ms) (sym same) d.0) in
      rw e (omega (arith, ap length rest))
]

keep-others :
    (v : Message) (vs ms : List Message)
    → keep (λ m. not (is_among m vs)) (others v.ref ms) ≡ keep (λ m. not (is_among m (v ∷ vs))) ms
keep-others v vs [] = refl
keep-others v vs (m ∷ ms) = ground (arith, keep-others v vs ms)

without-none : (ms : List Message) → keep (λ m. not (is_among m [])) ms ≡ ms
without-none [] = refl
without-none (m ∷ ms) = ap (λ rest. m ∷ rest) (without-none ms)

-- No more rows go than there are victims.
removed-le :
    (vs ms : List Message)
    → HasDistinctRefs ms
    → length ms ≤ length (keep (λ m. not (is_among m vs)) ms) + length vs
removed-le [] ms d = omega (arith, ap length (without-none ms))
removed-le (v ∷ vs) ms d =
    let fewer = removed-le vs (others v.ref ms) (keep-AllDistinct _ ms d) in
    omega (arith, fewer, length-others v.ref ms d, ap length (keep-others v vs ms))

among-cases :
    (vs : List Message) (m : Message)
    → (is_among m vs ≡ false) ⊎ ((v : Message) × IsIn v vs × (v.ref ≡ m.ref))
among-cases [] m = inl refl
among-cases (v ∷ vs) m = elim (Bool-cases (v.ref == m.ref)) [
  | inl e ↦ inr (v, inl refl, ground (arith, e))
  | inr e ↦ elim (among-cases vs m) [
    | inl f ↦ inl (rw (e, f) refl)
    | inr (w, there, same) ↦ inr (w, inr there, same)
  ]
]

module _ (req : RetentionSweepRequest) (now : Time) (st : Outbox)
    (d : HasDistinctRefs st.messages) where
  abbrev victims : List Message
  victims = all_victims req now st.messages

  abbrev remaining : List Message
  remaining = keep (λ m. not (is_among m victims)) st.messages

  remains : (m : Message) → IsIn m st.messages → IsIn m remaining ⊎ IsExpired req now m
  remains m here = elim (among-cases victims m) [
    | inl e ↦ inl (keep-IsIn _ st.messages m here (ap not e))
    | inr (v, there, same) ↦
        let (stored, expired) =
          All-IsIn _ victims v
            (victims-All req now st.messages (λ v. IsIn v st.messages) (All-self st.messages))
            there in
        inr (subst (IsExpired req now) (distinct-eq st.messages v m d stored here same) expired)
  ]

-- A sweep that succeeds takes away at most as many rows as it reports, and reports at most as many as
-- its limit. Every row of the store is still there, or was expired: delivered or discarded, and at
-- least as old as the horizon of its class, which is set. A dry run changes nothing at all. No two
-- rows of the store share an address.
pub sweep_retention-safe :
    (req : RetentionSweepRequest) (now : Time) (st : Outbox) (r : Outbox × RetentionSweepResult)
    → HasDistinctRefs st.messages
    → sweep_retention req now st ≡ ok r
    → (length st.messages ≤ length r.0.messages + (r.1.deleted_delivered + r.1.deleted_discarded))
      × (r.1.deleted_delivered + r.1.deleted_discarded ≤ req.limit)
      × All (λ m. IsIn m r.0.messages ⊎ IsExpired req now m) st.messages
      × ((req.dry_run ≡ false) ⊎ (r.0 ≡ st))
unfolding remove_victims
sweep_retention-safe req now st r d h =
    let (store, result) = sweep_retention-ok req now st {r = r} h in
    let (few, delivered) = victims-le req now st.messages in
    let counted : r.1.deleted_delivered + r.1.deleted_discarded ≡ length (victims req now st d) =
      ground (arith, delivered, result) in
    elim (Bool-cases req.dry_run) [
      | inl dry ↦
          let same : r.0 ≡ st = store ∙ rw dry refl in
          (
            omega (arith, ap (λ (x : Outbox). length x.messages) same),
            omega (arith, few, counted),
            rw same (All-map_of _ _ (λ m here. inl here) st.messages (All-self st.messages)),
            inr same,
          )
      | inr wet ↦
          let same : r.0 ≡ remove_victims (victims req now st d) st = store ∙ rw wet refl in
          let left : r.0.messages ≡ remaining req now st d = ap (λ (x : Outbox). x.messages) same in
          (
            omega (arith, ap length left, counted, removed-le (victims req now st d) st.messages d),
            omega (arith, few, counted),
            rw left (All-map_of _ _ (remains req now st d) st.messages (All-self st.messages)),
            inl wet,
          )
    ]
