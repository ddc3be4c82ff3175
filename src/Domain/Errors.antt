-- ===== src/Domain/Errors.antt =====
-- internal/domain/errors.go: the closed taxonomy of errors, and results that may be errors.
-- An `*Error` is its kind and its stable code; message, details and cause are for readers only.
use ants.Prelude.{◌⊎◌, inl, inr, ◌≡◌, refl, Bool, true, false, String, ℕ}

pub data ErrorKind : Type 0 where
  invalid unauthorized forbidden not_found conflict invalid_transition : ErrorKind
  policy_denied budget_exhausted cancelled timeout transient internal : ErrorKind

pub record Error : Type 0 where
  pub kind : ErrorKind
  pub code : String

-- The last component of each problem type URI, below https://ants.dev/problems/.
unfoldable pub problem_type : ErrorKind → String
problem_type invalid = "invalid"
problem_type unauthorized = "unauthorized"
problem_type forbidden = "forbidden"
problem_type not_found = "not-found"
problem_type conflict = "conflict"
problem_type invalid_transition = "invalid-transition"
problem_type policy_denied = "policy-denied"
problem_type budget_exhausted = "budget-exhausted"
problem_type cancelled = "cancelled"
problem_type timeout = "timeout"
problem_type transient = "transient"
problem_type internal = "internal"

unfoldable pub http_status : ErrorKind → ℕ
http_status invalid = 400
http_status unauthorized = 401
http_status forbidden = 403
http_status not_found = 404
http_status conflict = 409
http_status invalid_transition = 422
http_status policy_denied = 403
http_status budget_exhausted = 403
http_status cancelled = 408
http_status timeout = 504
http_status transient = 503
http_status internal = 500

-- An error value of Go: one of the domain's, wrapped or not, or a foreign one.
pub data Failure : Type 0 where
  domain : Error → Failure
  foreign : Failure
  wrap : Failure → Failure

-- `errors.As` unwraps until it meets a domain error.
unfoldable pub kind_of : Failure → ErrorKind
kind_of (domain e) = e.kind
kind_of foreign = internal
kind_of (wrap f) = kind_of f

abbrev retryable_kind : ErrorKind → Bool
retryable_kind transient = true
retryable_kind timeout = true
retryable_kind _ = false

unfoldable pub is_retryable : Failure → Bool
unfolding kind_of
is_retryable f = retryable_kind (kind_of f)

pub data Result {ℓ} (A : Type ℓ) : Type ℓ where
  ok : A → Result A
  err : Error → Result A

-- `if bad { return e }`.
abbrev pub refuse_if : Bool → Error → Result (Unit {0})
refuse_if true e = err e
refuse_if false e = ok tt

-- The early return of an error, with and without a value to go on with.
infixl 5 ◌>>=◌
abbrev pub ◌>>=◌ {ℓ κ} : {A : Type ℓ} {B : Type κ} → Result A → (A → Result B) → Result B
err stop >>= next = err stop
ok value >>= next = next value

infixl 5 ◌>>◌
abbrev pub ◌>>◌ {ℓ} : {A : Type ℓ} → (check : Result (Unit {0})) (next : Result A) → Result A
check >> next = check >>= λ _. next

abbrev pub invalidf : String → Error
invalidf code = record { kind = invalid; code = code }

abbrev pub conflictf : String → Error
conflictf code = record { kind = conflict; code = code }

-- `NotFoundf` puts the entity's name before `_not_found`; the codes are written out here.
abbrev pub not_foundf : String → Error
not_foundf code = record { kind = not_found; code = code }

abbrev pub stale_version : Error
stale_version = record { kind = conflict; code = "stale_version" }

abbrev pub bad_transition : Error
bad_transition = record { kind = invalid_transition; code = "invalid_state_transition" }

abbrev pub exhausted : String → Error
exhausted code = record { kind = budget_exhausted; code = code }

pub Result-cases {ℓ} :
    {A : Type ℓ} (m : Result A) → ((a : A) × (m ≡ ok a)) ⊎ ((e : Error) × (m ≡ err e))
Result-cases (ok a) = inl (a, refl)
Result-cases (err e) = inr (e, refl)

-- Inversion of a chain that succeeds, one step at a time.
pub bind-ok {ℓ κ} :
    {A : Type ℓ} {B : Type κ} (first : Result A) (next : A → Result B) {r : B}
    → (first >>= next) ≡ ok r
    → (value : A) × (first ≡ ok value) × (next value ≡ ok r)
bind-ok (err stop) next h = cc
bind-ok (ok value) next h = (value, refl, h)

pub refuse_if-ok {ℓ} :
    (b : Bool) (e : Error) {B : Type ℓ} (k : Result B) {r : B}
    → (refuse_if b e >> k) ≡ ok r
    → (b ≡ false) × (k ≡ ok r)
refuse_if-ok true e k h = cc
refuse_if-ok false e k h = (refl, h)

pub then-ok {ℓ} :
    (m : Result (Unit {0})) {B : Type ℓ} (k : Result B) {r : B}
    → (m >> k) ≡ ok r
    → (m ≡ ok tt) × (k ≡ ok r)
then-ok (ok tt) k h = (refl, h)
then-ok (err e) k h = cc

pub ok-injective {ℓ} : {A : Type ℓ} {a b : A} → ok a ≡ ok b → a ≡ b
ok-injective h = cc
