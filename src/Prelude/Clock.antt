-- ===== src/Prelude/Clock.antt =====
-- Instants and durations. A `time.Time` is its nanoseconds since the zero time, 1 January of year 1;
-- a `time.Duration` is an `int64` of nanoseconds. The store clocks stand far from both ends of the
-- range of `time.Time`, so `Add` does not wrap; it stops at the zero time.
use Prim.Native.Nat.{ℕ, ◌+◌, ◌-◌}
use mathlib.Core.Bool.{Bool}
use ants.Prelude.Tests.{ltb, if◌then◌else◌}
use ants.Prelude.Word.{Int64, is_neg, word_mod}

abbrev pub Time : Type 0
Time = ℕ

abbrev pub Duration : Type 0
Duration = Int64

-- `t.Add(d)`, `t.Add(-d)`, `t.After(u)`.
abbrev pub add_time : Time → Duration → Time
add_time t d = if is_neg d then t - (word_mod - d) else t + d

abbrev pub sub_time : Time → Duration → Time
sub_time t d = if is_neg d then t + (word_mod - d) else t - d

abbrev pub after : Time → Time → Bool
after t u = ltb u t
