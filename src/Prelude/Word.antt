-- ===== src/Prelude/Word.antt =====
-- Go's `int` and `int64`: a value is its 64-bit two's-complement pattern, a number below 2 ^ 64.
-- A pattern of 2 ^ 63 or more stands for a negative number.
use Prim.Native.Nat.{ℕ, ◌+◌, ◌*◌, ◌%◌}
use mathlib.Core.Bool.{Bool, true, false}
use ants.Prelude.Tests.{ltb, leb, if◌then◌else◌}

abbrev pub Int64 : Type 0
Int64 = ℕ

-- 2 ^ 63 and 2 ^ 64.
abbrev pub sign_bit : ℕ
sign_bit = 9223372036854775808

abbrev pub word_mod : ℕ
word_mod = 18446744073709551616

abbrev pub is_neg : Int64 → Bool
is_neg a = leb sign_bit a

-- Signed `a < b`, `a <= b`, and `0 < a`.
abbrev pub slt : Int64 → Int64 → Bool
slt a b =
    if is_neg a then if is_neg b then ltb a b else true else if is_neg b then false else ltb a b

abbrev pub sle : Int64 → Int64 → Bool
sle a b =
    if is_neg a then if is_neg b then leb a b else true else if is_neg b then false else leb a b

abbrev pub is_pos : Int64 → Bool
is_pos a = slt 0 a

-- `a++` and `a << 1`, which wrap.
abbrev pub inc : Int64 → Int64
inc a = (a + 1) % word_mod

abbrev pub shl_one : Int64 → Int64
shl_one a = (a * 2) % word_mod
