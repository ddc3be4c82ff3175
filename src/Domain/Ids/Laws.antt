-- ===== src/Domain/Ids/Laws.antt =====
-- internal/domain/ids.go: the grammar of identifiers.
use ants.Prelude.{
  buffer, length-map, ℕ, zero, suc, ◌%◌, ◌≤◌, ◌<◌, ◌≡◌, refl, ap, ◌↔◌, Bool, true, false, not, some,
  [], ◌∷◌, map, Text, text_eq_refl, text_eq→eq, is_alnum, length, all, ◌==◌, arith, Option-cases,
  inl, inr, subst, is_empty,
}
use ants.Domain.Errors.{ok}
use ants.Domain.Ids.{
  Entity, prefix, separator, new_prefixed, cut, check_parts, validate_prefixed, parse_id, alphabet,
  random_char, char_at, new_id,
}

-- No byte of the text is the separator.
abbrev pub no_separator : Text → Bool
no_separator = all (λ c. not (c == separator))

abbrev pub IsIdOf : Text → Text → Type 0
IsIdOf p v =
    (suffix : Text) × (v ≡ new_prefixed p suffix)
    × (20 ≤ length suffix)
    × (length suffix ≤ 64)
    × (all is_alnum suffix ≡ true)

cut-new_prefixed : (p s : Text) → no_separator p ≡ true → cut (new_prefixed p s) ≡ some (p, s)
unfolding cut new_prefixed
cut-new_prefixed [] s h = refl
cut-new_prefixed (c ∷ p) s h = ground (arith, cut-new_prefixed p s)

cut-eq-some : (v : Text) {p s : Text} → cut v ≡ some (p, s) → v ≡ new_prefixed p s
unfolding cut new_prefixed
cut-eq-some [] h = cc
cut-eq-some (c ∷ v) h = elim (Option-cases (cut v)) [
  | inl e ↦ ground (arith, e)
  | inr (r, e) ↦ ground (arith, e, cut-eq-some v {p = r.0} {s = r.1} e)
]

prefix-no_separator : (e : Entity) → no_separator (prefix e) ≡ true
unfolding prefix
prefix-no_separator Entity.tenant = refl
prefix-no_separator _ = refl

check_parts_complete :
    (p v suffix : Text)
    → 20 ≤ length suffix
    → length suffix ≤ 64
    → all is_alnum suffix ≡ true
    → check_parts p v (some (p, suffix)) ≡ ok v
unfolding check_parts
check_parts_complete p v suffix low high chars = rw (text_eq_refl p, chars) (ground arith)

check_parts_sound :
    (p v got suffix : Text) {r : Text}
    → check_parts p v (some (got, suffix)) ≡ ok r
    → (r ≡ v)
      × (got ≡ p)
      × (20 ≤ length suffix)
      × (length suffix ≤ 64)
      × (all is_alnum suffix ≡ true)
unfolding check_parts
check_parts_sound p v got suffix h = ground (arith, text_eq→eq got p)

is_empty-new_prefixed : (p s : Text) → is_empty (new_prefixed p s) ≡ false
unfolding new_prefixed
is_empty-new_prefixed [] s = refl
is_empty-new_prefixed (c ∷ p) s = refl

-- A value of the grammar is accepted as it stands.
validate_prefixed_complete :
    (p suffix : Text)
    → no_separator p ≡ true
    → 20 ≤ length suffix
    → length suffix ≤ 64
    → all is_alnum suffix ≡ true
    → validate_prefixed p (new_prefixed p suffix) ≡ ok (new_prefixed p suffix)
unfolding validate_prefixed
validate_prefixed_complete p suffix clean low high chars =
    rw (is_empty-new_prefixed p suffix, cut-new_prefixed p suffix clean)
      (check_parts_complete p (new_prefixed p suffix) suffix low high chars)

-- What is accepted is returned unchanged, and has the grammar.
validate_prefixed_sound :
    (p v : Text) {r : Text} → validate_prefixed p v ≡ ok r → (r ≡ v) × IsIdOf p v
unfolding validate_prefixed check_parts
validate_prefixed_sound p [] h = cc
validate_prefixed_sound p (c ∷ v) {r} h = elim (Option-cases (cut (c ∷ v))) [
  | inl e ↦ cc (ap (check_parts p (c ∷ v)) e)
  | inr (parts, e) ↦
      let (same, q, low, high, chars) =
        check_parts_sound p (c ∷ v) parts.0 parts.1
          (subst (λ o. check_parts p (c ∷ v) o ≡ ok r) e h) in
      (same, (parts.1, ground (arith, cut-eq-some (c ∷ v) e), low, high, chars))
]

-- An identifier is accepted exactly if it is the entity's prefix, a separator, and 20 to 64 letters
-- or digits; it is returned as it stands.
pub parse_id-ok_iff :
    (e : Entity) (v r : Text) → (parse_id e v ≡ ok r) ↔ ((r ≡ v) × IsIdOf (prefix e) v)
unfolding parse_id
parse_id-ok_iff e v r = (
  validate_prefixed_sound (prefix e) v,
  λ (same, (suffix, shape, low, high, chars)).
      rw (same, shape)
        (validate_prefixed_complete (prefix e) suffix (prefix-no_separator e) low high chars),
)

prefix-injective : (e f : Entity) → prefix e ≡ prefix f → e ≡ f
unfolding prefix
prefix-injective e f h = ground arith

-- No text is an identifier of two kinds of entities.
pub parse_id_unique :
    (e f : Entity) (v r s : Text) → parse_id e v ≡ ok r → parse_id f v ≡ ok s → e ≡ f
parse_id_unique e f v r s h k =
    let (_, (a, va, _, _, _)) = (parse_id-ok_iff e v r).0 h in
    let (_, (b, vb, _, _, _)) = (parse_id-ok_iff f v s).0 k in
    prefix-injective e f (
      cc (
        cut-new_prefixed (prefix e) a (prefix-no_separator e),
        cut-new_prefixed (prefix f) b (prefix-no_separator f),
        ap cut va,
        ap cut vb,
      ))

char_at-alnum :
    (s : Text) (i : ℕ) → all is_alnum s ≡ true → i < length s → is_alnum (char_at s i) ≡ true
unfolding char_at
char_at-alnum [] i h k = elim k [ ]
char_at-alnum (c ∷ s) zero h k = ground arith
char_at-alnum (c ∷ s) (suc i) h k = char_at-alnum s i (ground arith) (omega arith)

random_char-alnum : (b : ℕ) → is_alnum (random_char b) ≡ true
random_char-alnum b = char_at-alnum alphabet (b % 62) refl (omega arith)

all-random_char : (s : Text) → all is_alnum (map random_char s) ≡ true
all-random_char [] = refl
all-random_char (b ∷ s) = rw (random_char-alnum b) (all-random_char s)

-- A fresh identifier, whatever the entropy, is accepted for its kind.
pub parse_id-new_id :
    (e : Entity) (f : ℕ → ℕ)
    → (v : Text) × (new_id (prefix e) (some f) ≡ some v) × (parse_id e v ≡ ok v)
unfolding new_id
parse_id-new_id e f =
    let s : Text = map random_char (buffer 26 f) in
    let n : length s ≡ 26 = length-map (buffer 26 f) random_char in
    (
      new_prefixed (prefix e) s,
      refl,
      (parse_id-ok_iff e _ _).1
          (refl, (s, refl, omega arith, omega arith, all-random_char (buffer 26 f))),
    )
