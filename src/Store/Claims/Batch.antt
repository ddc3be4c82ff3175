-- ===== src/Store/Claims/Batch.antt =====
-- internal/store/memory/runclaims.go: the loop of `AcquireNext`.
use ants.Prelude.{
  buffer, Entropy, ◌⊎◌, ℕ, ◌+◌, ◌≡◌, refl, subst, ◌∙◌, true, false, none, some, List, [], ◌∷◌, Text,
  text_eq, text_eq→eq, text_eq_iff, Time, Duration, arith, Bool-cases, inl, inr, All, All-and,
  All-map_of, All-keep, All-keep_test, All-sort, All-take, keep, take, Option-cases,
}
use ants.Domain.Errors.{Result, ok, err, Result-cases}
use ants.Domain.Claim.{RunClaim, encode_base64, new_run_claim_token, validate_claim_owner}
use ants.Ports.Claims.{BatchRequest, validate_batch}
use ants.Store.Assoc.{lookup}
use ants.Store.Assoc.Laws.{lookup-put}
use ants.Store.Assoc.Unique.{
  IsUnique, IsEntryOf, entries, keep-IsUnique, take-IsUnique, sort-IsUnique,
}
use ants.Store.Claims.{
  Store, claim_eligible, acquire_claim, write_claim, prepend, claim_before, eligible_rows,
  acquire_rows, acquire_next,
}
use ants.Store.Claims.Row.{Cause, Change, Changes, write-Changes}

abbrev Row : Type 0
Row = Text × RunClaim

-- The rows that are to be acquired are entries of the map, and may be acquired now.
abbrev pub Selected : Time → Store → List Row → Type 0
Selected now st =
    All (λ (row : Row). IsEntryOf st.run_claims row × (claim_eligible row.1 now ≡ true))

keys_differ :
    (k : Text) (rows : List Row)
    → lookup k rows ≡ none
    → All (λ (row : Row). text_eq row.0 k ≡ false) rows
unfolding lookup
keys_differ k [] h = tt
keys_differ k ((j, c) ∷ rows) h = (ground arith, keys_differ k rows (ground arith))

absent_tail :
    (k key : Text) (c : RunClaim) (rows : List Row)
    → lookup k ((key, c) ∷ rows) ≡ none
    → lookup k rows ≡ none
unfolding lookup
absent_tail k key c rows h = ground arith

pub validate_batch-ok :
    (req : BatchRequest) {x : Unit {0}}
    → validate_batch req ≡ ok x
    → validate_claim_owner req.owner ≡ ok tt
unfolding validate_batch
validate_batch-ok req h = ground arith

Selected-write :
    (now : Time) (st : Store) (key : Text) (c : RunClaim) (rows : List Row)
    → lookup key rows ≡ none
    → Selected now st rows
    → Selected now (write_claim st key c) rows
Selected-write now st key c rows absent h =
    All-map_of _ _
      (λ (row : Row) both. (
        ground (
          arith,
          lookup-put key row.0 c st.run_claims,
          text_eq_iff key row.0,
          text_eq_iff row.0 key,
          both.0,
          both.1,
        ),
        both.1.1,
      ))
      rows (All-and _ _ rows (keys_differ key rows absent) h)

module _ (owner : Text) (lease_for : Duration) (now : Time) (entropy : ℕ → Entropy) where
  abbrev pub end : ℕ → List Row → Store → Store
  end i rows st = (acquire_rows owner lease_for now entropy i rows st).0

  prepend-store : (c : RunClaim) (r : Store × Result (List RunClaim)) → (prepend c r).0 ≡ r.0
  prepend-store c (st, ok cs) = refl
  prepend-store c (st, err e) = refl

  -- One round of the loop: it stops, or it acquires the row and goes on.
  pub end-cons :
      (i : ℕ) (key : Text) (c : RunClaim) (rows : List Row) (st : Store)
      → (end i ((key, c) ∷ rows) st ≡ st)
        ⊎ ((f : ℕ → ℕ) × (token : Text) × (new_run_claim_token (some f) ≡ ok token)
            × (end i ((key, c) ∷ rows) st
                ≡ end
                    (i + 1)
                    rows
                    (write_claim st key (acquire_claim c owner token now lease_for))))
  unfolding acquire_rows new_run_claim_token
  end-cons i key c rows st = elim (Option-cases (entropy i)) [
    | inl e ↦ inl (rw (e, end, acquire_rows))
    | inr (f, e) ↦
        inr (f, encode_base64 (buffer 32 f), refl, rw (e, end, acquire_rows) (prepend-store _ _))
  ]

  -- A run whose row is not selected keeps its claim.
  pub end-other :
      (i : ℕ) (k : Text) (rows : List Row) (st : Store)
      → lookup k rows ≡ none
      → lookup k (end i rows st).run_claims ≡ lookup k st.run_claims
  unfolding acquire_rows
  end-other i k [] st h = refl
  end-other i k ((key, c) ∷ rows) st h =
      let (differ, rest) = keys_differ k ((key, c) ∷ rows) h in
      elim (end-cons i key c rows st) [
        | inl e ↦ rw e
        | inr (f, token, _, e) ↦
            let c' : RunClaim = acquire_claim c owner token now lease_for in
            rw e (
              end-other (i + 1) k rows (write_claim st key c') (absent_tail k key c rows h)
              ∙ lookup-put key k c' st.run_claims
              ∙ rw differ)
      ]

  -- Every claim is left alone or acquired.
  pub end-Changes :
      (p : Cause) (i : ℕ) (rows : List Row) (st : Store)
      → validate_claim_owner owner ≡ ok tt
      → IsUnique rows
      → Selected now st rows
      → Changes p now st (end i rows st)
  unfolding acquire_rows
  end-Changes p i [] st valid u h k = Change.same refl
  end-Changes p i ((key, c) ∷ rows) st valid u h k = elim (end-cons i key c rows st) [
    | inl e ↦ rw e (Change.same refl)
    | inr (f, token, minted, e) ↦
        let c' : RunClaim = acquire_claim c owner token now lease_for in
        let st' : Store = write_claim st key c' in
        let first : Changes p now st st' =
          write-Changes p now st key c'
            (Change.acquired c owner token f lease_for h.0.0 h.0.1 valid minted refl) in
        rw e (elim (Bool-cases (text_eq key k)) [
          | inl hit ↦
              rw
                (end-other (i + 1) k rows st'
                  (subst (λ j. lookup j rows ≡ none) (text_eq→eq key k hit) u.0))
                (first k)
          | inr miss ↦
              subst
                (λ o.
                  Change (p.MayCreate k) (p.MayAct k) now o
                    (lookup k (end (i + 1) rows st').run_claims))
                (lookup-put key k c' st.run_claims ∙ rw miss)
                (end-Changes p (i + 1) rows st' valid u.1
                  (Selected-write now st key c' rows u.0 h.1) k)
        ])
  ]

eligible_rows-Selected :
    (now : Time) (st : Store) → IsUnique st.run_claims → Selected now st (eligible_rows now st)
unfolding eligible_rows
eligible_rows-Selected now st u =
    All-sort _ claim_before (keep (λ (row : Row). claim_eligible row.1 now) st.run_claims) (
      All-and _ _ (keep (λ (row : Row). claim_eligible row.1 now) st.run_claims)
        (All-keep _ (λ (row : Row). claim_eligible row.1 now) st.run_claims
          (entries st.run_claims u))
        (All-keep_test (λ (row : Row). claim_eligible row.1 now) st.run_claims))

eligible_rows-IsUnique :
    (now : Time) (st : Store) → IsUnique st.run_claims → IsUnique (eligible_rows now st)
unfolding eligible_rows
eligible_rows-IsUnique now st u = sort-IsUnique claim_before _ (keep-IsUnique _ st.run_claims u)

pub acquire_next-Changes :
    (p : Cause) (req : BatchRequest) (now : Time) (entropy : ℕ → Entropy) (st : Store)
    → IsUnique st.run_claims
    → Changes p now st (acquire_next req now entropy st).0
unfolding acquire_next
acquire_next-Changes p req now entropy st u k = elim (Result-cases (validate_batch req)) [
  | inl (x, e) ↦
      let valid = validate_batch-ok req e in
      rw (e, acquire_next)
        (end-Changes req.owner req.lease_for now entropy p 0 (take req.limit (eligible_rows now st))
          st valid (take-IsUnique req.limit _ (eligible_rows-IsUnique now st u))
          (All-take _ req.limit _ (eligible_rows-Selected now st u)) k)
  | inr (x, e) ↦ rw (e, acquire_next) (Change.same refl)
]
