-- ===== src/Dispatch/Backoff.antt =====
-- internal/outbox/dispatcher.go: the delay before a retry.
use ants.Prelude.{
  ℕ, zero, suc, ◌+◌, ◌-◌, ◌*◌, ◌%◌, ◌≤◌, ◌<◌, ◌≡◌, ap, true, Int64, is_pos, is_neg, shl_one,
  sign_bit, word_mod, Duration, arith, if◌then◌else◌,
}
use Prim.Native.Nat.{min}
use native.Mathlib.Decide.{dec_lt}
use ants.Dispatch.{max_backoff, min_int, double, backoff_for}

abbrev pub pow2 : ℕ → ℕ
pow2 zero = 1
pow2 (suc n) = 2 * pow2 n

pow2-pos : (n : ℕ) → 1 ≤ pow2 n
pow2-pos zero = omega arith
pow2-pos (suc n) = omega (arith, pow2-pos n)

mul-swap : (b p : ℕ) → b * (2 * p) ≡ b * 2 * p
mul-swap b p = omega arith

grows : (b p : ℕ) → 1 ≤ p → b ≤ b * (2 * p)
grows zero p h = omega arith
grows (suc b) p h = omega (arith, grows b p h)

double-eq : (n : ℕ) (b : Duration) → b < sign_bit → double n b ≡ min (b * pow2 n) max_backoff
unfolding double
double-eq zero b h = ground arith
double-eq (suc n) b h = elim (dec_lt b max_backoff) [
  | yes below ↦
      let next : double n (shl_one b) ≡ min (shl_one b * pow2 n) max_backoff =
        double-eq n (shl_one b) (omega arith) in
      let same : shl_one b ≡ b * 2 = omega arith in ground (arith, next, same, mul-swap b (pow2 n))
  | no above ↦ ground (arith, grows b (pow2 n) (pow2-pos n))
]

abbrev rounds : Int64 → ℕ
rounds attempts =
    if is_neg (min_int ((attempts + (word_mod - 1)) % word_mod) 16)
    then 0
    else min_int ((attempts + (word_mod - 1)) % word_mod) 16

-- Whatever the base and the attempts, 64-bit patterns, a delay is between 0 and 24 hours: it never
-- wraps to a negative one.
pub backoff_for-le :
    (base : Duration) (attempts : Int64)
    → base < word_mod
    → attempts < word_mod
    → backoff_for base attempts ≤ max_backoff
unfolding backoff_for
backoff_for-le base attempts h k = elim (dec_lt base sign_bit) [
  | yes small ↦ ground (arith, double-eq (rounds attempts) base small)
  | no large ↦ ground arith
]

rounds-eq :
    (attempts : Int64)
    → 1 ≤ attempts
    → attempts < sign_bit
    → rounds attempts ≡ min (attempts - 1) 16
rounds-eq attempts low high = ground arith

-- For a positive base and a message that was attempted the delay is the base, doubled for each
-- attempt before this one but for 16 at most, and cut at 24 hours.
pub backoff_for-eq :
    (base : Duration) (attempts : Int64)
    → is_pos base ≡ true
    → 1 ≤ attempts
    → attempts < sign_bit
    → backoff_for base attempts ≡ min (base * pow2 (min (attempts - 1) 16)) max_backoff
unfolding backoff_for
backoff_for-eq base attempts p low high =
    let small : base < sign_bit = ground (arith, p) in
    let same = rounds-eq attempts low high in
    ground
      (arith, double-eq (rounds attempts) base small, ap pow2 same, ap (λ n. double n base) same)
