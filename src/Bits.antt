-- ===== src/Bits.antt =====
-- Bits of machine words. A word of type uint64 is a number below 2 ^ 64.
pub mod Step
use Step.{bit_or_step, bit_and_step, bit_xor_step}
use native.Mathlib.Nat.{
  pow-suc, pow-succ', one-le-pow, div-div-eq-div-mul, div-add-mod, add-mul-mod_self_right,
  mod-eq_of_lt, mod-lt, div-le_self,
}
use neth.Base.{
  ℕ, zero, suc, ◌+◌, ◌-◌, ◌*◌, ◌/◌, ◌%◌, ◌^◌, ◌≤◌, ◌<◌, max, min, bit_and, bit_or, bit_xor, ◌≡◌,
  ◌↔◌, refl, sym, ap, ◌∙◌, arith, ltb, ◌==◌, if◌then◌else◌, Bool-cases, inl, inr, tests,
}

-- The bit at position `p` of a number, the lowest at 0.
abbrev pub bit_at : ℕ → ℕ → ℕ
bit_at w zero = w % 2
bit_at w (suc p) = bit_at (w / 2) p

-- `w << s` and `w >> s` on uint64, for s < 64.
abbrev pub shl64 : ℕ → ℕ → ℕ
shl64 w s = (w * 2 ^ s) % 2 ^ 64

abbrev pub shr : ℕ → ℕ → ℕ
shr w s = w / 2 ^ s

pub bit_at-le : (w p : ℕ) → bit_at w p ≤ 1
bit_at-le w zero = omega arith
bit_at-le w (suc p) = bit_at-le (w / 2) p

pub bit_at-zero : (p : ℕ) → bit_at 0 p ≡ 0
bit_at-zero zero = refl
bit_at-zero (suc p) = bit_at-zero p

pub bit_at-bit_or : (a b p : ℕ) → bit_at (bit_or a b) p ≡ max (bit_at a p) (bit_at b p)
bit_at-bit_or a b zero = omega (arith, bit_or_step a b)
bit_at-bit_or a b (suc p) =
    let half : bit_or a b / 2 ≡ bit_or (a / 2) (b / 2) = omega (arith, bit_or_step a b) in
    rw half (bit_at-bit_or (a / 2) (b / 2) p)

pub bit_at-bit_and : (a b p : ℕ) → bit_at (bit_and a b) p ≡ min (bit_at a p) (bit_at b p)
bit_at-bit_and a b zero = omega (arith, bit_and_step a b)
bit_at-bit_and a b (suc p) =
    let half : bit_and a b / 2 ≡ bit_and (a / 2) (b / 2) = omega (arith, bit_and_step a b) in
    rw half (bit_at-bit_and (a / 2) (b / 2) p)

double : (w s : ℕ) → w * 2 ^ suc s ≡ 2 * (w * 2 ^ s)
double w s = omega (arith, ap (λ (t : ℕ). w * t) (pow-suc 2 s))

pub bit_at-shift_left :
    (s w p : ℕ) → bit_at (w * 2 ^ s) p ≡ (if ltb p s then 0 else bit_at w (p - s))
bit_at-shift_left zero w p = let same : w * 2 ^ 0 ≡ w = omega arith in rw same (ground arith)
bit_at-shift_left (suc s) w zero = grind (arith, double w s)
bit_at-shift_left (suc s) w (suc p) =
    let half : w * 2 ^ suc s / 2 ≡ w * 2 ^ s = omega (arith, double w s) in
    rw half (bit_at-shift_left s w p ∙ ground arith)

pub bit_at-shift_right : (s w p : ℕ) → bit_at (w / 2 ^ s) p ≡ bit_at w (p + s)
bit_at-shift_right zero w p =
    let same : w / 2 ^ 0 ≡ w = omega arith in let end : p + 0 ≡ p = omega arith in rw (same, end)
bit_at-shift_right (suc s) w p =
    let halves : w / 2 ^ suc s ≡ w / 2 / 2 ^ s =
      rw pow-succ' (sym (div-div-eq-div-mul w 2 (2 ^ s))) in
    let next : p + suc s ≡ suc (p + s) = omega arith in
    rw (halves, next) (bit_at-shift_right s (w / 2) p)

mod_double : (w m : ℕ) → 1 ≤ m → w % (2 * m) ≡ 2 * (w / 2 % m) + w % 2
mod_double w m pos =
    let low : ℕ = 2 * (w / 2 % m) + w % 2 in
    let split : w ≡ low + w / 2 / m * (2 * m) = omega (arith, div-add-mod (w / 2) m) in
    ap (λ (t : ℕ). t % (2 * m)) split
    ∙ add-mul-mod_self_right low (w / 2 / m) (2 * m)
    ∙ mod-eq_of_lt (omega (arith, mod-lt (w / 2) pos))

mod_pow-suc : (k w : ℕ) → w % 2 ^ suc k ≡ 2 * (w / 2 % 2 ^ k) + w % 2
mod_pow-suc k w = rw pow-succ' (mod_double w (2 ^ k) (one-le-pow k 2 (omega arith)))

pub bit_at-mod : (k w p : ℕ) → p < k → bit_at (w % 2 ^ k) p ≡ bit_at w p
bit_at-mod zero w p h = absurd (omega arith)
bit_at-mod (suc k) w zero h = omega (arith, mod_pow-suc k w)
bit_at-mod (suc k) w (suc p) h =
    let half : w % 2 ^ suc k / 2 ≡ w / 2 % 2 ^ k = omega (arith, mod_pow-suc k w) in
    rw half (bit_at-mod k (w / 2) p (omega arith))

-- Above its width a word has no bits.
pub bit_at_above : (k w p : ℕ) → w < 2 ^ k → k ≤ p → bit_at w p ≡ 0
bit_at_above zero w p h le = let none : w ≡ 0 = omega arith in rw none (bit_at-zero p)
bit_at_above (suc k) w zero h le = absurd (omega arith)
bit_at_above (suc k) w (suc p) h le =
    bit_at_above k (w / 2) p (omega (arith, pow-suc 2 k)) (omega arith)

bit_at_one : (p : ℕ) → bit_at 1 p ≡ (if p == 0 then 1 else 0)
bit_at_one zero = refl
bit_at_one (suc p) = rw (bit_at-zero p) (ground arith)

-- The single bit `1 << b`.
pub bit_at-one_shl : (b p : ℕ) → p < 64 → bit_at (shl64 1 b) p ≡ (if p == b then 1 else 0)
bit_at-one_shl b p h =
    bit_at-mod 64 (1 * 2 ^ b) p h ∙ bit_at-shift_left b 1 p ∙ ground (arith, bit_at_one (p - b))

-- Shifting left drops what passes the top of the word.
pub bit_at-shl64 :
    (w s p : ℕ) → p < 64 → bit_at (shl64 w s) p ≡ (if ltb p s then 0 else bit_at w (p - s))
bit_at-shl64 w s p h = bit_at-mod 64 (w * 2 ^ s) p h ∙ bit_at-shift_left s w p

pub bit_or-lt : (k a b : ℕ) → a < 2 ^ k → b < 2 ^ k → bit_or a b < 2 ^ k
bit_or-lt zero a b p q =
    let a0 : a ≡ 0 = omega arith in let b0 : b ≡ 0 = omega arith in rw (a0, b0) (omega arith)
bit_or-lt (suc k) a b p q = omega (
  arith,
  bit_or_step a b,
  pow-suc 2 k,
  bit_or-lt k (a / 2) (b / 2) (omega (arith, pow-suc 2 k)) (omega (arith, pow-suc 2 k)),
)

zero_of_bits_fuel : (n x : ℕ) → x ≤ n → ((p : ℕ) → bit_at x p ≡ 0) → x ≡ 0
zero_of_bits_fuel zero x h bits = omega arith
zero_of_bits_fuel (suc n) x h bits =
    omega (arith, bits 0, zero_of_bits_fuel n (x / 2) (omega (arith, bits 0)) (λ p. bits (suc p)))

-- A number with no bits is 0.
pub zero_of_bits : (x : ℕ) → ((p : ℕ) → bit_at x p ≡ 0) → x ≡ 0
zero_of_bits x bits = zero_of_bits_fuel x x (omega arith) bits

bit_at-and_one_shl :
    (w b p : ℕ) → b < 64 → bit_at (bit_and w (shl64 1 b)) p ≡ (if p == b then bit_at w b else 0)
bit_at-and_one_shl w b p h = elim (Bool-cases (ltb p 64)) [
  | inl below ↦ ground (arith, bit_at-bit_and w (shl64 1 b) p, bit_at-one_shl b p, bit_at-le w b)
  | inr above ↦
      ground (arith, bit_at-bit_and w (shl64 1 b) p, bit_at_above 64 (shl64 1 b) p (omega arith))
]

-- `w & (1 << b)` is zero exactly where the bit is.
pub bit_and-one_shl : (w b : ℕ) → b < 64 → (bit_and w (shl64 1 b) ≡ 0) ↔ (bit_at w b ≡ 0)
bit_and-one_shl w b h = (
  λ none.
      sym (bit_at-and_one_shl w b b h ∙ ground arith) ∙ ap (λ x. bit_at x b) none ∙ bit_at-zero b,
  λ clear. zero_of_bits _ (λ p. bit_at-and_one_shl w b p h ∙ ground arith),
)

pub shr-lt : {k : ℕ} (w s : ℕ) → w < k → shr w s < k
shr-lt w s h = omega (arith, div-le_self w (2 ^ s))

bit_or_nothing_fuel : (n a : ℕ) → a ≤ n → bit_or a 0 ≡ a
bit_or_nothing_fuel zero a h = let none : a ≡ 0 = omega arith in rw none
bit_or_nothing_fuel (suc n) zero h = refl
bit_or_nothing_fuel (suc n) (suc a) h =
    omega (arith, bit_or_step (suc a) 0, bit_or_nothing_fuel n (suc a / 2) (omega arith))

pub bit_or_nothing : (a : ℕ) → bit_or a 0 ≡ a
bit_or_nothing a = bit_or_nothing_fuel a a (omega arith)

bit_and_nothing : (a : ℕ) → bit_and a 0 ≡ 0
bit_and_nothing a = zero_of_bits _ (λ p. bit_at-bit_and a 0 p ∙ omega (arith, bit_at-zero p))

half_double : (q k : ℕ) → q * 2 ^ suc k / 2 ≡ q * 2 ^ k
half_double q k = omega (arith, double q k)

half_mask : (k : ℕ) → (2 ^ suc k - 1) / 2 ≡ 2 ^ k - 1
half_mask k = omega (arith, pow-suc 2 k)

mod_byte : (w m : ℕ) → 1 ≤ m → w % (256 * m) ≡ w / 256 % m * 256 + w % 256
mod_byte w m pos =
    let low : ℕ = w / 256 % m * 256 + w % 256 in
    let split : w ≡ low + w / 256 / m * (256 * m) = omega (arith, div-add-mod (w / 256) m) in
    ap (λ (t : ℕ). t % (256 * m)) split
    ∙ add-mul-mod_self_right low (w / 256 / m) (256 * m)
    ∙ mod-eq_of_lt (omega (arith, mod-lt (w / 256) pos))

-- `(q << k) | r` is a sum when `r` has `k` bits.
pub bit_or-disjoint : (k q r : ℕ) → r < 2 ^ k → bit_or (q * 2 ^ k) r ≡ q * 2 ^ k + r
bit_or-disjoint zero q r h =
    let none : r ≡ 0 = omega arith in
    let whole : q * 2 ^ 0 ≡ q = omega arith in rw (none, whole) (bit_or_nothing q ∙ omega arith)
bit_or-disjoint (suc k) q r h = omega (
  arith,
  bit_or_step (q * 2 ^ suc k) r,
  double q k,
  ap (λ (t : ℕ). bit_or t (r / 2)) (half_double q k),
  bit_or-disjoint k q (r / 2) (omega (arith, pow-suc 2 k)),
)

-- A mask of the `k` low bits is a remainder.
pub bit_and-mask : (k a : ℕ) → bit_and a (2 ^ k - 1) ≡ a % 2 ^ k
bit_and-mask zero a = bit_and_nothing a ∙ omega arith
bit_and-mask (suc k) a = omega (
  arith,
  bit_and_step a (2 ^ suc k - 1),
  pow-suc 2 k,
  one-le-pow k 2 (omega arith),
  ap (bit_and (a / 2)) (half_mask k),
  bit_and-mask k (a / 2),
  mod_pow-suc k a,
)

-- The lowest byte and the bytes above it.
pub mod-256_pow : (n v : ℕ) → v % 256 ^ suc n ≡ v / 256 % 256 ^ n * 256 + v % 256
mod-256_pow n v = rw pow-succ' (mod_byte v (256 ^ n) (one-le-pow n 256 (omega arith)))
