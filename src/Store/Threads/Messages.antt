-- ===== src/Store/Threads/Messages.antt =====
-- internal/store/memory/threads.go: the messages of a thread and their numbers.
use ants.Prelude.{
  Bool, ◌&&◌, ℕ, zero, suc, ◌+◌, ◌%◌, ◌≡◌, arith, List, [], ◌∷◌, ◌++◌, Text, text_eq, length,
  word_mod, Bool-cases, inl, inr,
}
use ants.Domain.Errors.{Result, ok, err}
use ants.Domain.Thread.{Message}
use ants.Store.Assoc.{put}
use ants.Store.Database.{Database}
use ants.Store.Threads.{has_thread, messages_of, append_message, messages}

-- Appends that callers make, a refused one among them.
abbrev or_stay : Database → Result (Database × Message) → Database
or_stay db (ok (db', m)) = db'
or_stay db (err e) = db

unfoldable pub append_all : List Message → Database → Database
append_all [] db = db
append_all (m ∷ ms) db = append_all ms (or_stay db (append_message m db))

abbrev pub drop {ℓ} : {A : Type ℓ} → ℕ → List A → List A
drop zero xs = xs
drop (suc n) [] = []
drop (suc n) (x ∷ xs) = drop n xs

-- The numbers go up by one from behind `k`.
abbrev pub IsNumberedFrom : ℕ → List Message → Type 0
IsNumberedFrom k [] = Unit
IsNumberedFrom k (m ∷ ms) = (m.seq ≡ suc k) × IsNumberedFrom (suc k) ms

-- Messages as a store numbers them that has `k` before.
abbrev pub number : ℕ → List Message → List Message
number k [] = []
number k (m ∷ ms) = record m { seq = suc k } ∷ number (suc k) ms

-- The thread's messages among those that callers send: the others go to other threads, or are refused
-- since the thread is not the tenant's.
abbrev pub is_accepted : Database → (thread_id : Text) → Message → Bool
is_accepted db thread_id m = text_eq m.thread_id thread_id && has_thread m.tenant_id m.thread_id db

append_message-ok :
    (m : Message) (db db' : Database) {m' : Message}
    → append_message m db ≡ ok (db', m')
    → (m' ≡ record m { seq = (length (messages_of m.thread_id db) + 1) % word_mod })
      × (db' ≡ record db {
        messages = put m.thread_id (messages_of m.thread_id db ++ m' ∷ []) db.messages;
      })
unfolding append_message
append_message-ok m db db' {m'} h = elim (Bool-cases (has_thread m.tenant_id m.thread_id db)) [
  | inr e ↦ cc (h, e)
  | inl e ↦ (ground (arith, h, e), ground (arith, h, e))
]
