-- ===== src/Store/Transactor.antt =====
-- internal/store/memory/transactor.go and snapshot.go: units of work. An operation that may fail half
-- way returns the state that it leaves in either case. A backup is a copy of every collection, rows
-- included, that no later write reaches: the state before. A panic is an error of the operation here.
pub mod Frame
use ants.Prelude.{
  Bool, true, false, none, some, ◌≡◌, refl, Text, Entropy, arith, Option-cases, inl, inr,
}
use ants.Domain.Errors.{ErrorKind, Error, Result, ok, err}
use ants.Domain.Ids.{Entity, prefix, new_id}
use ants.Store.Database.{Database}

abbrev pub Action : Type 0 → Type 0
Action A = Database → Database × Result A

abbrev pub continue {ℓ} :
    {A : Type 0} {B : Type ℓ}
    → Database × Result A
    → (A → Database → Database × Result B)
    → Database × Result B
continue (db, ok value) next = next value db
continue (db, err stop) next = (db, err stop)

-- What follows an operation in a function that returns its error.
infixl 5 ◌>>=◌
abbrev pub ◌>>=◌ : {A B : Type 0} → Action A → (A → Action B) → Action B
◌>>=◌ first next = λ db. continue (first db) next

infixl 5 ◌>>◌
abbrev pub ◌>>◌ : {A B : Type 0} → Action A → Action B → Action B
◌>>◌ first next = first >>= λ _. next

abbrev pub return : {A : Type 0} → A → Action A
return value = λ db. (db, ok value)

-- An operation that changes nothing where it fails.
abbrev pub settled : {A : Type 0} → Database → Result (Database × A) → Database × Result A
settled db (ok (db', value)) = (db', ok value)
settled db (err e) = (db, err e)

abbrev pub restore : {A : Type 0} → (backup : Database) → Database × Result A → Database × Result A
restore backup (db, ok value) = (db, ok value)
restore backup (db, err e) = (backup, err e)

-- `inside` says whether the context is in a unit already: then the unit is joined.
unfoldable pub transact : {A : Type 0} → (inside : Bool) → Action A → Action A
transact true fn db = fn db
transact false fn db = restore db (fn db)

-- An error of another package, which is no domain error.
abbrev pub foreign_error : Error
foreign_error = record { kind = ErrorKind.internal; code = "" }

-- A fresh identifier, or the end of the operation.
abbrev pub new_id_or_fail : Entity → Entropy → Action Text
new_id_or_fail entity entropy = λ db. elim (new_id (prefix entity) entropy) [
  | none ↦ (db, err foreign_error)
  | some id ↦ (db, ok id)
]

pub new_id-ok :
    (entity : Entity) (entropy : Entropy) (db db' : Database) {id : Text}
    → new_id_or_fail entity entropy db ≡ (db', ok id)
    → (new_id (prefix entity) entropy ≡ some id) × (db' ≡ db)
new_id-ok entity entropy db db' h = elim (Option-cases (new_id (prefix entity) entropy)) [
  | inl k ↦ cc (h, k)
  | inr (id, k) ↦ ground (arith, h, k)
]

-- Inversion of a sequence that succeeds.
pub bind-ok :
    {A B : Type 0} (first : Action A) (next : A → Action B) (db db' : Database) {b : B}
    → (first >>= next) db ≡ (db', ok b)
    → (a : A) × (mid : Database) × (first db ≡ (mid, ok a)) × (next a mid ≡ (db', ok b))
bind-ok first next db db' h = go (first db) refl h
  where
    go :
        {A B : Type 0} {next : A → Action B} {db' : Database} {b : B} {first : Database × Result A}
        (r : Database × Result A)
        → first ≡ r
        → continue r next ≡ (db', ok b)
        → (a : A) × (mid : Database) × (first ≡ (mid, ok a)) × (next a mid ≡ (db', ok b))
    go (mid, ok a) e h = (a, mid, e, h)
    go (mid, err x) e h = cc h

-- A unit of work that no other contains: all of it, or nothing.
pub transact-ok :
    {A : Type 0} (fn : Action A) (db db' : Database) {a : A}
    → transact false fn db ≡ (db', ok a)
    → fn db ≡ (db', ok a)
unfolding transact
transact-ok fn db db' h = go (fn db) db h
  where
    go :
        {A : Type 0} {db' : Database} {a : A} (r : Database × Result A) (backup : Database)
        → restore backup r ≡ (db', ok a)
        → r ≡ (db', ok a)
    go (mid, ok b) backup h = h
    go (mid, err e) backup h = cc h
