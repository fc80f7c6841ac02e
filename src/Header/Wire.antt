-- ===== src/Header/Wire.antt =====
-- encoding/binary's big-endian fields, read and written.
use neth.Base.{
  ℕ, zero, suc, ◌+◌, ◌*◌, ◌/◌, ◌%◌, ◌^◌, ◌≤◌, ◌<◌, ◌≡◌, ◌⊎◌, inr, refl, ap, ◌∙◌, List, [], ◌∷◌,
  arith, length, get_or, set, length-set, get_or-set_ne, get_or-set_self,
}
use native.Mathlib.Nat.{pow-suc}
use neth.Bits.{mod-256_pow}
use neth.Header.{put_big_endian, get_big_endian}

pub length-put_big_endian :
    (n : ℕ) (buf : List ℕ) (at v : ℕ) → length (put_big_endian n buf at v) ≡ length buf
unfolding put_big_endian
length-put_big_endian zero buf at v = refl
length-put_big_endian (suc n) buf at v =
    length-put_big_endian n (set buf (at + n) (v % 256)) at (v / 256)
    ∙ length-set buf (at + n) (v % 256)

pub get_or-put_big_endian :
    (n : ℕ) (buf : List ℕ) (at v j : ℕ)
    → (j < at) ⊎ (at + n ≤ j)
    → get_or (put_big_endian n buf at v) j 0 ≡ get_or buf j 0
unfolding put_big_endian
get_or-put_big_endian zero buf at v j h = refl
get_or-put_big_endian (suc n) buf at v j h =
    get_or-put_big_endian n (set buf (at + n) (v % 256)) at (v / 256) j (ground arith)
    ∙ get_or-set_ne buf (at + n) j (v % 256) 0 (ground arith)

-- A field is its bytes.
pub get_big_endian_cong :
    (n : ℕ) (a b : List ℕ) (at : ℕ)
    → ((j : ℕ) → at ≤ j → j < at + n → get_or a j 0 ≡ get_or b j 0)
    → get_big_endian n a at ≡ get_big_endian n b at
unfolding get_big_endian
get_big_endian_cong zero a b at h = refl
get_big_endian_cong (suc n) a b at h = omega (
  arith,
  get_big_endian_cong n a b at (λ j p q. h j p (omega arith)),
  h (at + n) (omega arith) (omega arith),
)

pub get-put_big_endian :
    (n : ℕ) (buf : List ℕ) (at v : ℕ)
    → at + n ≤ length buf
    → get_big_endian n (put_big_endian n buf at v) at ≡ v % 256 ^ n
unfolding put_big_endian get_big_endian
get-put_big_endian zero buf at v h = omega arith
get-put_big_endian (suc n) buf at v h =
    let next = set buf (at + n) (v % 256) in
    omega (
      arith,
      mod-256_pow n v,
      length-set buf (at + n) (v % 256),
      get-put_big_endian n next at (v / 256) (rw length-set (omega arith)),
      get_or-put_big_endian n next at (v / 256) (at + n) (inr (omega arith)),
      get_or-set_self buf (at + n) (v % 256) 0 (omega arith),
    )

-- The entries are bytes.
abbrev pub IsBytes : List ℕ → Type 0
IsBytes buf = (j : ℕ) → get_or buf j 0 < 256

set_same : (xs : List ℕ) (i : ℕ) → set xs i (get_or xs i 0) ≡ xs
set_same [] i = refl
set_same (x ∷ xs) zero = refl
set_same (x ∷ xs) (suc i) = ap (◌∷◌ x) (set_same xs i)

pub put-get_big_endian :
    (n : ℕ) (buf : List ℕ) (at : ℕ)
    → IsBytes buf
    → put_big_endian n buf at (get_big_endian n buf at) ≡ buf
unfolding put_big_endian get_big_endian
put-get_big_endian zero buf at h = refl
put-get_big_endian (suc n) buf at h =
    let last : ℕ = get_or buf (at + n) 0 in
    let above : ℕ = get_big_endian n buf at in
    let low : (above * 256 + last) % 256 ≡ last = omega (arith, h (at + n)) in
    let high : (above * 256 + last) / 256 ≡ above = omega (arith, h (at + n)) in
    rw (low, high, set_same buf (at + n)) (put-get_big_endian n buf at h)

pub get_big_endian-lt :
    (n : ℕ) (buf : List ℕ) (at : ℕ) → IsBytes buf → get_big_endian n buf at < 256 ^ n
unfolding get_big_endian
get_big_endian-lt zero buf at h = omega arith
get_big_endian-lt (suc n) buf at h =
    omega (arith, pow-suc 256 n, h (at + n), get_big_endian-lt n buf at h)
