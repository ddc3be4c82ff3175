-- ===== src/Store/Page.antt =====
-- internal/store/memory: the loops that cut a page out of a list.
pub mod Cut
pub mod Resume
use ants.Prelude.{ℕ, suc, Bool, ◌&&◌, List, [], ◌∷◌, Int64, sle, is_pos, if◌then◌else◌}

module _ {ℓ} {E : Type ℓ} (wanted : E → Bool) (limit : Int64) where
  -- `out` has `n` elements already. Messages, events and audit records: the limit is looked at after
  -- an element is appended.
  unfoldable pub collect : (n : ℕ) → List E → List E
  collect n [] = []
  collect n (e ∷ es) =
      let rest = collect (suc n) es in
      let skip = collect n es in
      if wanted e then if is_pos limit && sle limit (suc n) then e ∷ [] else e ∷ rest else skip

  -- Runs: the limit is looked at before an element is.
  unfoldable pub collect_below : (n : ℕ) → List E → List E
  collect_below n [] = []
  collect_below n (e ∷ es) =
      let rest = collect_below (suc n) es in
      let skip = collect_below n es in
      if is_pos limit && sle limit n then [] else if wanted e then e ∷ rest else skip
