-- ===== src/Store/Transactor/Frame.antt =====
-- internal/store/memory/transactor.go: what an operation leaves alone, whether it succeeds or fails.
use ants.Prelude.{Bool, true, false, ◌≡◌, refl, sym, ap, ◌∙◌}
use ants.Domain.Errors.{Result, ok, err}
use ants.Store.Database.{Database}
use ants.Store.Transactor.{Action, continue, restore, transact, ◌>>=◌}

-- A part of the state.
module _ {V : Type 0} (view : Database → V) where
  abbrev pub Keeps : {A : Type 0} → Action A → Type 0
  Keeps act = (db : Database) → view (act db).0 ≡ view db

  pub kept :
      {A : Type 0} (act : Action A) (db db' : Database) {r : Result A}
      → Keeps act
      → act db ≡ (db', r)
      → view db' ≡ view db
  kept act db db' h k = sym (ap (λ (x : Database × Result _). view x.0) k) ∙ h db

  pub then-Keeps :
      {A B : Type 0} (first : Action A) (next : A → Action B)
      → Keeps first
      → ((a : A) → Keeps (next a))
      → Keeps (first >>= next)
  then-Keeps first next h k db = go next k (first db) ∙ h db
    where
      go :
          {A B : Type 0} (next : A → Action B)
          → ((a : A) → Keeps (next a))
          → (r : Database × Result A) → view (continue r next).0 ≡ view r.0
      go next k (mid, ok a) = k a mid
      go next k (mid, err e) = refl

  pub transact-Keeps :
      {A : Type 0} (inside : Bool) (fn : Action A) → Keeps fn → Keeps (transact inside fn)
  unfolding transact
  transact-Keeps true fn h db = h db
  transact-Keeps false fn h db = go db (fn db) (h db)
    where
      go :
          {A : Type 0} (db : Database) (r : Database × Result A)
          → view r.0 ≡ view db
          → view (restore db r).0 ≡ view db
      go db (mid, ok a) h = h
      go db (mid, err e) h = refl
