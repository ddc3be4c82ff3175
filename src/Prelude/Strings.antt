-- ===== src/Prelude/Strings.antt =====
-- Go strings: sequences of bytes. `len` counts bytes, `==` and `<` compare them in order.
use Prim.Native.Nat.{ℕ, zero, suc}
use mathlib.Core.Option.{Option}
use Prim.Native.Char.{code}
use Prim.Native.String.{String}
use mathlib.Core.Path.{◌≡◌, refl, subst}
use mathlib.Core.Logic.{◌↔◌}
use mathlib.Core.Bool.{Bool, true, false, ◌&&◌, ◌||◌}
use mathlib.Core.List.{List, [], ◌∷◌}
use native.Mathlib.Omega.{arith}
use ants.Prelude.Tests.{ltb, leb, ◌==◌}

abbrev pub Text : Type 0
Text = List ℕ

-- The bytes of an ASCII literal.
abbrev pub bytes : String → Text
bytes String.[] = []
bytes (String.◌∷◌ c s) = code c ∷ bytes s

-- What `rand.Read` does to a buffer: it fills every byte, or fails.
abbrev pub Entropy : Type 0
Entropy = Option (ℕ → ℕ)

-- The bytes of a buffer of a given length, as a source of bytes fills it.
abbrev pub buffer : ℕ → (ℕ → ℕ) → Text
buffer zero f = []
buffer (suc n) f = f n ∷ buffer n f

-- `a == b`.
unfoldable pub text_eq : Text → Text → Bool
text_eq [] [] = true
text_eq [] (d ∷ t) = false
text_eq (c ∷ s) [] = false
text_eq (c ∷ s) (d ∷ t) = (c == d) && text_eq s t

-- `a < b`, by bytes.
unfoldable pub text_lt : Text → Text → Bool
text_lt s [] = false
text_lt [] (d ∷ t) = true
text_lt (c ∷ s) (d ∷ t) = ltb c d || ((c == d) && text_lt s t)

abbrev pub is_empty : Text → Bool
is_empty [] = true
is_empty (c ∷ s) = false

abbrev pub is_between : ℕ → ℕ → ℕ → Bool
is_between lo hi c = leb lo c && leb c hi

-- `[A-Za-z0-9]`. A byte of a longer UTF-8 sequence is none of these, as its rune is none.
abbrev pub is_alnum : ℕ → Bool
is_alnum c = is_between b'a' b'z' c || is_between b'A' b'Z' c || is_between b'0' b'9' c

pub text_eq_refl : (s : Text) → text_eq s s ≡ true
unfolding text_eq
text_eq_refl [] = refl
text_eq_refl (c ∷ s) = ground (arith, text_eq_refl s)

pub text_eq→eq : (s t : Text) → text_eq s t ≡ true → s ≡ t
unfolding text_eq
text_eq→eq [] [] h = refl
text_eq→eq [] (d ∷ t) h = cc
text_eq→eq (c ∷ s) [] h = cc
text_eq→eq (c ∷ s) (d ∷ t) h = ground (arith, text_eq→eq s t)

pub text_eq_iff : (s t : Text) → (text_eq s t ≡ true) ↔ (s ≡ t)
text_eq_iff s t = (text_eq→eq s t, λ e. subst (λ u. text_eq s u ≡ true) e (text_eq_refl s))
