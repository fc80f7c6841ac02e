-- ===== src/Base/Decimal.antt =====
-- strconv.Itoa of a natural number, and that parsing reads it back.
use Prim.Native.Nat.{ℕ, zero, suc, ◌+◌, ◌-◌, ◌*◌, ◌/◌, ◌%◌, ◌≤◌, ◌<◌}
use mathlib.Core.Path.{◌≡◌, refl, ap, ◌∙◌}
use mathlib.Core.Logic.{inl, inr}
use mathlib.Core.List.{[], ◌∷◌}
use mathlib.Core.Option.{some}
use native.Mathlib.Omega.{arith}
use neth.Base.Tests.{ltb, if◌then◌else◌, Bool-cases}
use neth.Base.Text.{Text, read_digits, parse_uint16}

-- The digits of a number in front of a text; a number has fewer digits than its successor says.
unfoldable pub digits : ℕ → ℕ → Text → Text
digits zero n rest = rest
digits (suc fuel) n rest =
    let front = digits fuel (n / 10) ((b'0' + n % 10) ∷ rest) in
    if ltb n 10 then (b'0' + n) ∷ rest else front

unfoldable pub itoa : ℕ → Text
unfolding digits
itoa n = digits (suc n) n []

read_digit :
    (limit n d : ℕ) (rest : Text)
    → d < 10
    → n * 10 + d ≤ limit
    → read_digits limit n ((b'0' + d) ∷ rest) ≡ read_digits limit (n * 10 + d) rest
unfolding read_digits
read_digit limit n d rest small fits =
    let next : n * 10 + (b'0' + d - b'0') ≡ n * 10 + d = omega arith in rw next (ground arith)

read_digits-digits :
    (limit fuel n : ℕ) (rest : Text)
    → n < fuel
    → n ≤ limit
    → read_digits limit 0 (digits fuel n rest) ≡ read_digits limit n rest
unfolding digits
read_digits-digits limit zero n rest enough fits = absurd (omega arith)
read_digits-digits limit (suc fuel) n rest enough fits = elim (Bool-cases (ltb n 10)) [
  | inl one ↦ rw one (
      read_digit limit 0 n rest (ground arith) (omega (arith, fits))
      ∙ ap (λ (m : ℕ). read_digits limit m rest) (omega arith))
  | inr more ↦ rw more (
      read_digits-digits limit fuel (n / 10) ((b'0' + n % 10) ∷ rest) (ground arith) (omega arith)
      ∙ read_digit limit (n / 10) (n % 10) rest (omega arith) (omega (arith, fits))
      ∙ ap (λ (m : ℕ). read_digits limit m rest) (omega arith))
]

IsCons : Text → Type 0
IsCons s = (c : ℕ) × (t : Text) × (s ≡ c ∷ t)

digits_onto : (fuel n c : ℕ) (rest : Text) → IsCons (digits fuel n (c ∷ rest))
unfolding digits IsCons
digits_onto zero n c rest = (c, rest, refl)
digits_onto (suc fuel) n c rest = elim (Bool-cases (ltb n 10)) [
  | inl one ↦ (b'0' + n, c ∷ rest, rw one refl)
  | inr more ↦ rw more (digits_onto fuel (n / 10) (b'0' + n % 10) (c ∷ rest))
]

itoa-IsCons : (n : ℕ) → IsCons (itoa n)
unfolding itoa IsCons
itoa-IsCons n = elim (Bool-cases (ltb n 10)) [
  | inl one ↦ (b'0' + n, [], rw one refl)
  | inr more ↦ rw more (unfold IsCons in digits_onto n (n / 10) (b'0' + n % 10) [])
]

parse-IsCons : (s : Text) → IsCons s → parse_uint16 s ≡ read_digits 65535 0 s
unfolding parse_uint16 IsCons
parse-IsCons s (c, t, same) = rw same refl

-- A port that is printed is read back.
pub parse_uint16-itoa : (n : ℕ) → n < 65536 → parse_uint16 (itoa n) ≡ some n
unfolding itoa read_digits
parse_uint16-itoa n h =
    parse-IsCons (itoa n) (itoa-IsCons n)
    ∙ read_digits-digits 65535 (suc n) n [] (omega arith) (omega arith)
