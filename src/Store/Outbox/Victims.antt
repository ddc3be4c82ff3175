-- ===== src/Store/Outbox/Victims.antt =====
-- internal/store/memory/outbox.go: the rows that the retention sweep selects.
use ants.Prelude.{
  IsIn, ℕ, ◌-◌, ◌≤◌, ◌≡◌, ◌≢◌, ◌⊎◌, inl, inr, refl, sym, ap, ◌∙◌, subst, if◌then◌else◌, Bool, true,
  false, Option, none, some, List, [], ◌∷◌, length, length-take-le, ltb, ◌&&◌, All, All-append,
  length-append, All-and, All-map_of, All-keep, All-keep_test, All-sort, All-take, is_pos, Time,
  Duration, sub_time, arith,
}
use ants.Domain.DeliveryStatus.{DeliveryStatus, eq_iff}
use ants.Ports.Outbox.{RetentionSweepRequest}
use ants.Store.Outbox.Stored.{Message}
use ants.Store.Outbox.Retention.{
  reached, is_victim, select_retention_victims, delivered_victims, discarded_victims, all_victims,
  victim_before,
}

-- The terminal instant `o` stands `horizon` or more before `now`, and the horizon is set.
abbrev pub IsOld : (now : Time) → (horizon : Duration) → Option Time → Type 0
IsOld now horizon o =
    (t : Time) × (o ≡ some t) × (t ≤ sub_time now horizon) × (is_pos horizon ≡ true)

-- A row that the request may delete: delivered or discarded, and for long enough.
abbrev pub IsExpired : RetentionSweepRequest → Time → Message → Type 0
IsExpired req now m =
    ((m.status ≡ DeliveryStatus.delivered) × IsOld now req.delivered_older_than m.delivered_at)
    ⊎ ((m.status ≡ DeliveryStatus.discarded) × IsOld now req.discarded_older_than m.discarded_at)

-- No two rows have the same address.
abbrev pub HasDistinctRefs : List Message → Type 0
HasDistinctRefs [] = Unit
HasDistinctRefs (m ∷ ms) = All (λ (n : Message). n.ref ≢ m.ref) ms × HasDistinctRefs ms

pub All-IsIn {κ} :
    (P : Message → Type κ) (ms : List Message) (m : Message) → All P ms → IsIn m ms → P m
All-IsIn P [] m h k = absurd k
All-IsIn P (n ∷ ms) m h (inl e) = subst P (sym e) h.0
All-IsIn P (n ∷ ms) m h (inr k) = All-IsIn P ms m h.1 k

pub All-self : (ms : List Message) → All (λ m. IsIn m ms) ms
All-self [] = tt
All-self (m ∷ ms) = (inl refl, All-map_of _ _ (λ n h. inr h) ms (All-self ms))

pub distinct-eq :
    (ms : List Message) (m n : Message)
    → HasDistinctRefs ms
    → IsIn m ms
    → IsIn n ms
    → m.ref ≡ n.ref
    → m ≡ n
distinct-eq [] m n d h k e = absurd h
distinct-eq (x ∷ ms) m n d (inl h) (inl k) e = h ∙ sym k
distinct-eq (x ∷ ms) m n d (inl h) (inr k) e =
    absurd (All-IsIn _ ms n d.0 k (sym e ∙ ap (λ (y : Message). y.ref) h))
distinct-eq (x ∷ ms) m n d (inr h) (inl k) e =
    absurd (All-IsIn _ ms m d.0 h (e ∙ ap (λ (y : Message). y.ref) k))
distinct-eq (x ∷ ms) m n d (inr h) (inr k) e = distinct-eq ms m n d.1 h k e

All-if {ℓ κ} :
    {A : Type ℓ} (P : A → Type κ) (b : Bool) (xs : List A)
    → (b ≡ true → All P xs)
    → All P (if b then xs else [])
All-if P true xs h = h refl
All-if P false xs h = tt

reached-lem :
    (o : Option Time) (at : Time) → reached o at ≡ true → (t : Time) × (o ≡ some t) × (t ≤ at)
reached-lem none at h = cc h
reached-lem (some t) at h = (t, refl, ground arith)

module _ (req : RetentionSweepRequest) (now : Time) (ms : List Message) where
  -- Holds of the selected rows: what holds of all rows, and that they are victims.
  select-All {κ} :
      (P : Message → Type κ) (status : DeliveryStatus) (terminal_at : Message → Option Time)
      (horizon : Duration)
      → All P ms
      → All
          (λ m. P m × (is_victim status terminal_at (sub_time now horizon) m ≡ true))
          (select_retention_victims ms status terminal_at now horizon)
  unfolding select_retention_victims
  select-All P status terminal_at horizon h = All-sort _ (victim_before terminal_at) _ (
      All-and _ _ _ (All-keep P (is_victim status terminal_at (sub_time now horizon)) ms h)
        (All-keep_test (is_victim status terminal_at (sub_time now horizon)) ms))

  class-All {κ} :
      (P : Message → Type κ) (status : DeliveryStatus) (terminal_at : Message → Option Time)
      (horizon : Duration)
      → is_pos horizon ≡ true
      → All P ms
      → All
          (λ m. P m × ((m.status ≡ status) × IsOld now horizon (terminal_at m)))
          (select_retention_victims ms status terminal_at now horizon)
  unfolding is_victim
  class-All P status terminal_at horizon pos h =
      All-map_of _ _
        (λ m both. (
          both.0,
          let old = reached-lem (terminal_at m) (sub_time now horizon) (ground (arith, both.1)) in
              (ground (arith, both.1, eq_iff m.status status), (old.0, old.1, old.2, pos)),
        ))
        _ (select-All P status terminal_at horizon h)

  delivered-All {κ} :
      (P : Message → Type κ)
      → All P ms
      → All (λ m. P m × IsExpired req now m) (delivered_victims req now ms)
  unfolding delivered_victims
  delivered-All P h = All-if _ (is_pos req.delivered_older_than) _ (λ e. All-take _ req.limit _ (
      All-map_of _ _ (λ m both. (both.0, inl both.1)) _
        (class-All P DeliveryStatus.delivered (λ m. m.delivered_at) req.delivered_older_than e h)))

  discarded-All {κ} :
      (P : Message → Type κ) (budget : ℕ)
      → All P ms
      → All (λ m. P m × IsExpired req now m) (discarded_victims req now budget ms)
  unfolding discarded_victims
  discarded-All P budget h = All-if _ (is_pos req.discarded_older_than && ltb 0 budget) _ (λ e.
      All-take _ budget _ (
        All-map_of _ _ (λ m both. (both.0, inr both.1)) _
          (class-All P DeliveryStatus.discarded (λ m. m.discarded_at) req.discarded_older_than
            (ground (arith, e)) h)))

  pub victims-All {κ} :
      (P : Message → Type κ)
      → All P ms
      → All (λ m. P m × IsExpired req now m) (all_victims req now ms)
  unfolding all_victims
  victims-All P h =
      All-append _ _ _ (delivered-All P h)
        (discarded-All P (req.limit - length (delivered_victims req now ms)) h)

  delivered-le : length (delivered_victims req now ms) ≤ req.limit
  unfolding delivered_victims
  delivered-le = ground (
    arith,
    length-take-le req.limit (
        select_retention_victims ms DeliveryStatus.delivered (λ m. m.delivered_at) now
          req.delivered_older_than),
  )

  discarded-le : (budget : ℕ) → length (discarded_victims req now budget ms) ≤ budget
  unfolding discarded_victims
  discarded-le budget = ground (
    arith,
    length-take-le budget (
        select_retention_victims ms DeliveryStatus.discarded (λ m. m.discarded_at) now
          req.discarded_older_than),
  )

  pub victims-le :
      (length (all_victims req now ms) ≤ req.limit)
      × (length (delivered_victims req now ms) ≤ length (all_victims req now ms))
  unfolding all_victims
  victims-le =
      let total =
        length-append (delivered_victims req now ms)
          (discarded_victims req now (req.limit - length (delivered_victims req now ms)) ms) in
      let few = delivered-le in
      let rest = discarded-le (req.limit - length (delivered_victims req now ms)) in
      (omega (arith, total, few, rest), omega (arith, total))
