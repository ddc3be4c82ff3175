-- ===== src/Store/Rows/Versions.antt =====
-- internal/store/memory: what a versioned update promises.
use ants.Prelude.{
  ◌≡◌, ◌≢◌, ◌≤◌, ◌<◌, ◌+◌, ℕ, suc, arith, Option-cases, word_mod, List, [], ◌∷◌, some, Text,
  text_eq_iff, Int64, inc, length, inl, inr, sym, ap, ◌∙◌,
}
use ants.Domain.Errors.{Error, Result, ok, err, Result-cases}
use ants.Store.Assoc.{Assoc, lookup, put}
use ants.Store.Assoc.Laws.{lookup-put}
use ants.Store.Rows.{Rows, Versioned, find_own, update_row}

-- Writing the version writes nothing else.
pub record IsLawful {E : Type 0} (t : Versioned E) : Type 0 where
  pub version_kept : (v : Int64) (e : E) → t.version_of (t.with_version v e) ≡ v
  pub key_kept : (v : Int64) (e : E) → t.rows.key (t.with_version v e) ≡ t.rows.key e
  pub tenant_kept : (v : Int64) (e : E) → t.rows.tenant_of (t.with_version v e) ≡ t.rows.tenant_of e

module _ {E : Type 0} (t : Rows E) where
  pub find_own-ok :
      (tenant_id id : Text) (m : Assoc E) {e : E}
      → find_own t tenant_id id m ≡ ok e
      → (lookup id m ≡ some e) × (t.tenant_of e ≡ tenant_id)
  unfolding find_own
  find_own-ok tenant_id id m {e} h = elim (Option-cases (lookup id m)) [
    | inl k ↦ cc (h, k)
    | inr (a, k) ↦ ground (arith, h, k, text_eq_iff (t.tenant_of a) tenant_id)
  ]

module _ {E : Type 0} (t : Versioned E) (lawful : IsLawful t) where
  -- What a successful update has found and leaves.
  pub update_row-ok :
      (e : E) (v : Int64) (m m' : Assoc E) (e' : E)
      → update_row t e v m ≡ ok (m', e')
      → (cur : E) × (lookup (t.rows.key e) m ≡ some cur)
        × (t.version_of cur ≡ v)
        × (t.rows.tenant_of cur ≡ t.rows.tenant_of e)
        × (e' ≡ t.with_version (inc v) e)
        × (m' ≡ put (t.rows.key e) e' m)
  unfolding update_row
  update_row-ok e v m m' e' h =
      elim (Result-cases (find_own t.rows (t.rows.tenant_of e) (t.rows.key e) m)) [
        | inr (x, found) ↦ cc (h, found)
        | inl (cur, found) ↦
            let (at_key, own) = find_own-ok t.rows (t.rows.tenant_of e) (t.rows.key e) m found in
            let facts : (t.version_of cur ≡ v)
                × (e' ≡ t.with_version (inc v) e)
                × (m' ≡ put (t.rows.key e) e' m) =
              ground (arith, h, found) in
            (cur, at_key, facts.0, own, facts.1, facts.2)
      ]

  -- The row of an identifier, if there is one, has passed a version by at most so many updates.
  abbrev IsPast : (id : Text) → (v n : ℕ) → Assoc E → Type 0
  IsPast id v n m = (c : E) → lookup id m ≡ some c → (v < t.version_of c) × (t.version_of c ≤ v + n)

  -- One caller's update: what was refused changes nothing.
  abbrev or_stay : Assoc E → Result (Assoc E × E) → Assoc E
  or_stay m (ok (m', e')) = m'
  or_stay m (err e) = m

  unfoldable pub replay : List (E × Int64) → Assoc E → Assoc E
  replay [] m = m
  replay ((e, v) ∷ calls) m = replay calls (or_stay m (update_row t e v m))

  step-IsPast :
      (id : Text) (v n : ℕ) (e : E) (w : Int64) (m : Assoc E)
      → v + suc n < word_mod
      → IsPast id v n m
      → IsPast id v (suc n) (or_stay m (update_row t e w m))
  step-IsPast id v n e w m bound past = elim (Result-cases (update_row t e w m)) [
    | inr (x, h) ↦ rw h (λ c k. ground (arith, past c k))
    | inl ((m', e'), h) ↦
        let (cur, at_key, same, own, told, wrote) = update_row-ok e w m m' e' h in
        rw (h, wrote)
          λ c k. ground (
            arith,
            lookup-put (t.rows.key e) id e' m,
            text_eq_iff (t.rows.key e) id,
            past cur,
            past c,
            lawful.version_kept (inc w) e,
          )
  ]

  replay-IsPast :
      (id : Text) (v n : ℕ) (calls : List (E × Int64)) (m : Assoc E)
      → v + (n + length calls) < word_mod
      → IsPast id v n m
      → IsPast id v (n + length calls) (replay calls m)
  unfolding replay
  replay-IsPast id v n [] m bound past = λ c k. ground (arith, past c k)
  replay-IsPast id v n ((e, w) ∷ calls) m bound past =
      let more =
        replay-IsPast id v (suc n) calls (or_stay m (update_row t e w m)) (omega arith)
          (step-IsPast id v n e w m (omega arith) past) in
      λ c k. ground (arith, more c k)

  not_again :
      (e₁ e₂ : E) (v : Int64) (m m' : Assoc E) (e₁' : E) (calls : List (E × Int64))
      → t.rows.key e₂ ≡ t.rows.key e₁
      → v + suc (length calls) < word_mod
      → update_row t e₁ v m ≡ ok (m', e₁')
      → (r : Assoc E × E) → update_row t e₂ v (replay calls m') ≢ ok r
  not_again e₁ e₂ v m m' e₁' calls same bound first (n', e₂') again =
      let (cur, at_key, had, own, told, wrote) = update_row-ok e₁ v m m' e₁' first in
      let (now, now_at, has_v, own_now, told_now, wrote_now) =
        update_row-ok e₂ v (replay calls m') n' e₂' again in
      let past : IsPast (t.rows.key e₁) v 1 m' =
        (rw wrote λ c k. ground (
          arith,
          lookup-put (t.rows.key e₁) (t.rows.key e₁) e₁' m,
          text_eq_iff (t.rows.key e₁) (t.rows.key e₁),
          lawful.version_kept (inc v) e₁,
        )) in
      let beyond =
        replay-IsPast (t.rows.key e₁) v 1 calls m' (omega arith) past now
          (ap (λ k. lookup k (replay calls m')) (sym same) ∙ now_at) in
      omega (arith, beyond, has_v)

  -- Of the callers that have read the same version of a row one at most updates it: once an update
  -- has succeeded, whatever updates of any rows follow, every update that expects the version that
  -- this one has replaced is refused. The versions do not wrap: this one and the number of the
  -- updates that follow stay below 2 ^ 64.
  pub update_once :
      (e₁ e₂ : E) (v : Int64) (m m' : Assoc E) (e₁' : E) (calls : List (E × Int64))
      → t.rows.key e₂ ≡ t.rows.key e₁
      → v + suc (length calls) < word_mod
      → update_row t e₁ v m ≡ ok (m', e₁')
      → (x : Error) × (update_row t e₂ v (replay calls m') ≡ err x)
  update_once e₁ e₂ v m m' e₁' calls same bound first =
      elim (Result-cases (update_row t e₂ v (replay calls m'))) [
        | inl (r, again) ↦ absurd (not_again e₁ e₂ v m m' e₁' calls same bound first r again)
        | inr refused ↦ refused
      ]
