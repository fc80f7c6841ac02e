-- ===== src/Replay/Shift.antt =====
-- What the shift of the bitmap does to each bit.
use neth.Base.{
  ℕ, zero, suc, ◌+◌, ◌-◌, ◌/◌, ◌%◌, ◌^◌, ◌≤◌, ◌<◌, bit_or, ◌≡◌, refl, ◌∙◌, arith, List, ltb, leb,
  ◌==◌, if◌then◌else◌, length, get_or, set, length-set, get_or-set, get_or-set_cases, ◌&&◌, tests,
  Bool-cases, inl, inr, get_or-replicate,
}
use neth.Bits.{
  bit_at, bit_at-zero, shl64, shr, bit_at-shl64, bit_at-shift_right, bit_at-bit_or, bit_at_above,
  bit_or-lt, shr-lt,
}
use neth.Replay.{empty_window, shift_words, carry_bits, shift_bits, shift_window}

-- The bit of the map at a distance from its end.
abbrev pub window_bit : List ℕ → ℕ → ℕ
window_bit w pos = bit_at (get_or w (pos / 64) 0) (pos % 64)

-- The value is a `[64]uint64`.
pub record IsWindow (w : List ℕ) : Type 0 where
  pub words : length w ≡ 64
  pub fits : (j : ℕ) → get_or w j 0 < 2 ^ 64

pub empty_window-IsWindow : IsWindow empty_window
empty_window-IsWindow = record {
  words = refl;
  fits = λ j. rw (get_or-replicate {A = ℕ} 64 j 0) (omega arith);
}

pub set-IsWindow : {w : List ℕ} (i v : ℕ) → v < 2 ^ 64 → IsWindow w → IsWindow (set w i v)
set-IsWindow {w} i v h k = record {
  words = length-set w i v ∙ k.words;
  fits = λ j. get_or-set_cases (λ x. x < 2 ^ 64) w i j 0 h (k.fits j);
}

length-shift_words : (n s : ℕ) (w : List ℕ) → length (shift_words n s w) ≡ length w
unfolding shift_words
length-shift_words zero s w = refl
length-shift_words (suc n) s w = length-shift_words n s _ ∙ length-set w n _

-- Every word below the bound comes from `s` words further down, or is 0.
get_or-shift_words :
    (n s j : ℕ) (w : List ℕ)
    → n ≤ length w
    → get_or (shift_words n s w) j 0
      ≡ (if ltb j n then (if ltb j s then 0 else get_or w (j - s) 0) else get_or w j 0)
unfolding shift_words
get_or-shift_words zero s j w h = ground arith
get_or-shift_words (suc n) s j w h =
    let v = if ltb n s then 0 else get_or w (n - s) 0 in
    ground (
      arith,
      length-set w n v,
      get_or-shift_words n s j (set w n v),
      get_or-set w n j v 0,
      get_or-set w n (j - s) v 0,
    )

length-carry_bits : (n b : ℕ) (w : List ℕ) → length (carry_bits n b w) ≡ length w
unfolding carry_bits
length-carry_bits zero b w = refl
length-carry_bits (suc n) b w = length-carry_bits n b _ ∙ length-set w (suc n) _

-- A word after a shift by `b` bits, with what the word below it hands over.
abbrev carried : ℕ → ℕ → ℕ → ℕ
carried b high low = bit_or (shl64 high b) (shr low (64 - b))

get_or-carry_bits :
    (n b j : ℕ) (w : List ℕ)
    → n < length w
    → get_or (carry_bits n b w) j 0
      ≡ (if ltb 0 j && leb j n then carried b (get_or w j 0) (get_or w (j - 1) 0) else get_or w j 0)
unfolding carry_bits
get_or-carry_bits zero b j w h = ground arith
get_or-carry_bits (suc n) b j w h =
    let v = carried b (get_or w (suc n) 0) (get_or w n 0) in
    ground (
      arith,
      length-set w (suc n) v,
      get_or-carry_bits n b j (set w (suc n) v),
      get_or-set w (suc n) j v 0,
      get_or-set w (suc n) (j - 1) v 0,
    )

carried-lt : (b high low : ℕ) → low < 2 ^ 64 → carried b high low < 2 ^ 64
carried-lt b high low h = bit_or-lt 64 _ _ (omega arith) (shr-lt low (64 - b) h)

bit_at-carried :
    (b high low p : ℕ)
    → b < 64
    → p < 64
    → low < 2 ^ 64
    → bit_at (carried b high low) p
      ≡ (if ltb p b then bit_at low (p + (64 - b)) else bit_at high (p - b))
bit_at-carried b high low p hb hp h = ground (
  arith,
  bit_at-bit_or (shl64 high b) (shr low (64 - b)) p,
  bit_at-shl64 high b p hp,
  bit_at-shift_right (64 - b) low p,
  bit_at_above 64 low (p + (64 - b)) h,
)

carry_bits-IsWindow : (n b : ℕ) {w : List ℕ} → IsWindow w → IsWindow (carry_bits n b w)
unfolding carry_bits
carry_bits-IsWindow zero b k = k
carry_bits-IsWindow (suc n) b {w} k =
    carry_bits-IsWindow n b
      (set-IsWindow (suc n) _ (carried-lt b (get_or w (suc n) 0) (get_or w n 0) (k.fits n)) k)

shift_words-IsWindow : (n s : ℕ) {w : List ℕ} → IsWindow w → IsWindow (shift_words n s w)
unfolding shift_words
shift_words-IsWindow zero s k = k
shift_words-IsWindow (suc n) s {w} k =
    shift_words-IsWindow n s (set-IsWindow n _ (ground (arith, k.fits (n - s))) k)

shift_bits-IsWindow : (b : ℕ) {w : List ℕ} → IsWindow w → IsWindow (shift_bits b w)
unfolding shift_bits
shift_bits-IsWindow b {w} k =
    let carried_window = carry_bits-IsWindow 63 b k in
    elim (Bool-cases (ltb 0 b)) [
      | inl pos ↦ rw pos (set-IsWindow 0 _ (omega arith) carried_window)
      | inr none ↦ rw none k
    ]

pub shift_window-IsWindow : (w : List ℕ) (n : ℕ) → IsWindow w → IsWindow (shift_window w n)
unfolding shift_window
shift_window-IsWindow w n k = elim (Bool-cases (leb 64 (n / 64))) [
  | inl far ↦ rw far empty_window-IsWindow
  | inr near ↦ rw near (shift_bits-IsWindow (n % 64) (shift_words-IsWindow 64 (n / 64) k))
]

-- The bit of word `j` at `p` after the shift by `b` bits.
bit_at-shift_bits :
    (b j p : ℕ) {w : List ℕ}
    → b < 64
    → p < 64
    → j < 64
    → IsWindow w
    → bit_at (get_or (shift_bits b w) j 0) p ≡ (
        if ltb p b
        then (if j == 0 then 0 else bit_at (get_or w (j - 1) 0) (p + (64 - b)))
        else bit_at (get_or w j 0) (p - b))
unfolding shift_bits
bit_at-shift_bits b j p {w} hb hp hj k =
    let c = carry_bits 63 b w in
    ground (
      arith,
      k.words,
      length-carry_bits 63 b w,
      get_or-carry_bits 63 b j w,
      get_or-carry_bits 63 b 0 w,
      get_or-set c 0 j (shl64 (get_or c 0 0) b) 0,
      bit_at-shl64 (get_or c 0 0) b p hp,
      bit_at-carried b (get_or w j 0) (get_or w (j - 1) 0) p hb hp (k.fits (j - 1)),
    )

-- Both loops: the bit at `p` of word `j` comes from `a` words and `b` bits below.
bit_at-shift_both :
    (a b j p : ℕ) {w : List ℕ}
    → b < 64
    → p < 64
    → j < 64
    → IsWindow w
    → bit_at (get_or (shift_bits b (shift_words 64 a w)) j 0) p ≡ (
        if ltb p b
        then (if leb j a then 0 else bit_at (get_or w (j - 1 - a) 0) (p + (64 - b)))
        else (if ltb j a then 0 else bit_at (get_or w (j - a) 0) (p - b)))
bit_at-shift_both a b j p {w} hb hp hj k = ground (
  arith,
  k.words,
  bit_at-zero (p - b),
  bit_at-zero (p + (64 - b)),
  get_or-shift_words 64 a j w,
  get_or-shift_words 64 a (j - 1) w,
  bit_at-shift_bits b j p hb hp hj (shift_words-IsWindow 64 a k),
)

-- Where the bit at `pos - n` stands in the array.
window_bit_from :
    (w : List ℕ) (n pos : ℕ)
    → n ≤ pos
    → window_bit w (pos - n) ≡ (
        if ltb (pos % 64) (n % 64)
        then bit_at (get_or w (pos / 64 - 1 - n / 64) 0) (pos % 64 + (64 - n % 64))
        else bit_at (get_or w (pos / 64 - n / 64) 0) (pos % 64 - n % 64))
window_bit_from w n pos h = elim (Bool-cases (ltb (pos % 64) (n % 64))) [
  | inl borrow ↦
      let word : (pos - n) / 64 ≡ pos / 64 - 1 - n / 64 = omega (tests, borrow) in
      let bit : (pos - n) % 64 ≡ pos % 64 + (64 - n % 64) = omega (tests, borrow) in
      rw (borrow, word, bit)
  | inr plain ↦
      let word : (pos - n) / 64 ≡ pos / 64 - n / 64 = omega (tests, plain) in
      let bit : (pos - n) % 64 ≡ pos % 64 - n % 64 = omega (tests, plain) in rw (plain, word, bit)
]

-- `shiftWindow` moves every bit `n` places up, and drops those that pass the top.
pub window_bit-shift_window :
    (w : List ℕ) (n pos : ℕ)
    → IsWindow w
    → pos < 4096
    → window_bit (shift_window w n) pos ≡ (if ltb pos n then 0 else window_bit w (pos - n))
unfolding shift_window
window_bit-shift_window w n pos k h =
    let j = pos / 64 in
    elim (Bool-cases (leb 64 (n / 64))) [
      | inl far ↦ rw (far, get_or-replicate {A = ℕ} 64 j 0) (ground (arith, bit_at-zero (pos % 64)))
      | inr near ↦ rw near (
          ground (
            arith,
            bit_at-shift_both (n / 64) (n % 64) j (pos % 64) (omega arith) (omega arith)
                (omega arith) k,
            window_bit_from w n pos,
          ))
    ]

pub window_bit-empty : (pos : ℕ) → window_bit empty_window pos ≡ 0
window_bit-empty pos = rw (get_or-replicate {A = ℕ} 64 (pos / 64) 0) (bit_at-zero (pos % 64))
