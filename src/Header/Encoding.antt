-- ===== src/Header/Encoding.antt =====
-- What `Encode` leaves in its buffer, and what `Parse` reads of that.
use neth.Base.{
  ℕ, ◌+◌, ◌*◌, ◌%◌, ◌^◌, ◌≤◌, ◌<◌, bit_and, bit_or, ◌≡◌, ◌⊎◌, inl, inr, refl, ◌∙◌, ◌==◌,
  if◌then◌else◌, List, [], ◌∷◌, arith, le→ltb, length, get_or, set, length-set, get_or-set_ne, ok,
  err,
}
use neth.Bits.{bit_or-disjoint, bit_and-mask}
use neth.Header.{
  Header, unsupported_version, version, encode, parse, put_big_endian, get_big_endian,
}
use neth.Header.Wire.{
  length-put_big_endian, get_or-put_big_endian, get_big_endian_cong, get-put_big_endian,
}

-- The first byte of a header.
abbrev pub first_byte : Header → ℕ
first_byte h = bit_or (h.version * 2 ^ 4 % 256) (bit_and h.type 0x0f)

abbrev pub first_four : Header → List ℕ → List ℕ
first_four h buf = set (set (set (set buf 0 (first_byte h)) 1 h.sub_type) 2 0) 3 0

-- The buffer after a call of `Encode` that does not fail.
unfoldable pub encoded : Header → List ℕ → List ℕ
encoded h buf =
    put_big_endian 8 (put_big_endian 4 (first_four h buf) 4 h.remote_index) 8 h.message_counter

pub encode-encoded :
    (h : Header) (buf : List ℕ) → 16 ≤ length buf → encode h buf ≡ ok (encoded h buf)
unfolding encode encoded
encode-encoded h buf fits = rw (le→ltb (length buf) 16 fits)

pub first_byte_lem : (h : Header) → first_byte h ≡ h.version % 16 * 16 + h.type % 16
first_byte_lem h =
    let high : h.version * 2 ^ 4 % 256 ≡ h.version % 16 * 2 ^ 4 = omega arith in
    rw (high, bit_and-mask 4 h.type)
      (bit_or-disjoint 4 (h.version % 16) (h.type % 16) (omega arith))

length-first_four : (h : Header) (buf : List ℕ) → length (first_four h buf) ≡ length buf
length-first_four h buf =
    length-set _ 3 0
    ∙ length-set _ 2 0
    ∙ length-set _ 1 h.sub_type
    ∙ length-set buf 0 (first_byte h)

pub length-encoded : (h : Header) (buf : List ℕ) → length (encoded h buf) ≡ length buf
unfolding encoded
length-encoded h buf =
    length-put_big_endian 8 _ 8 h.message_counter
    ∙ length-put_big_endian 4 _ 4 h.remote_index
    ∙ length-first_four h buf

-- Outside the two numbers the buffer is that of the first four writes.
get_or-encoded :
    (h : Header) (buf : List ℕ) (j : ℕ)
    → (j < 4) ⊎ (16 ≤ j)
    → get_or (encoded h buf) j 0 ≡ get_or (first_four h buf) j 0
unfolding encoded
get_or-encoded h buf j out =
    get_or-put_big_endian 8 _ 8 h.message_counter j (ground arith)
    ∙ get_or-put_big_endian 4 _ 4 h.remote_index j (ground arith)

index-encoded :
    (h : Header) (buf : List ℕ)
    → 16 ≤ length buf
    → get_big_endian 4 (encoded h buf) 4 ≡ h.remote_index % 2 ^ 32
unfolding encoded
index-encoded h buf fits =
    get_big_endian_cong 4 _ _ 4
      (λ j p q. get_or-put_big_endian 8 _ 8 h.message_counter j (inl (omega arith)))
    ∙ get-put_big_endian 4 (first_four h buf) 4 h.remote_index
        (omega (arith, length-first_four h buf))

counter-encoded :
    (h : Header) (buf : List ℕ)
    → 16 ≤ length buf
    → get_big_endian 8 (encoded h buf) 8 ≡ h.message_counter % 2 ^ 64
unfolding encoded
counter-encoded h buf fits =
    get-put_big_endian 8 _ 8 h.message_counter (
      rw (length-put_big_endian 4 (first_four h buf) 4 h.remote_index, length-first_four h buf)
        fits)

first_four-0 :
    (h : Header) (buf : List ℕ) → 1 ≤ length buf → get_or (first_four h buf) 0 0 ≡ first_byte h
first_four-0 h [] fits = absurd (omega arith)
first_four-0 h (x ∷ []) fits = refl
first_four-0 h (x ∷ y ∷ []) fits = refl
first_four-0 h (x ∷ y ∷ z ∷ buf) fits = refl

first_four-1 :
    (h : Header) (buf : List ℕ) → 2 ≤ length buf → get_or (first_four h buf) 1 0 ≡ h.sub_type
first_four-1 h [] fits = absurd (omega arith)
first_four-1 h (x ∷ []) fits = absurd (omega arith)
first_four-1 h (x ∷ y ∷ []) fits = refl
first_four-1 h (x ∷ y ∷ z ∷ buf) fits = refl

-- What the wire keeps of a header.
abbrev on_wire : Header → Header
on_wire h = record {
  version = h.version % 16;
  type = h.type % 16;
  sub_type = h.sub_type;
  remote_index = h.remote_index % 2 ^ 32;
  message_counter = h.message_counter % 2 ^ 64;
}

pub parse-encoded :
    (h : Header) (buf : List ℕ)
    → 16 ≤ length buf
    → parse (encoded h buf) ≡ (
        if h.version % 16 == version
        then ok (on_wire h)
        else err (unsupported_version (h.version % 16)))
unfolding parse
parse-encoded h buf fits =
    let first =
      get_or-encoded h buf 0 (inl (omega arith))
      ∙ first_four-0 h buf (omega arith)
      ∙ first_byte_lem h in
    let second = get_or-encoded h buf 1 (inl (omega arith)) ∙ first_four-1 h buf (omega arith) in
    rw
      (
        length-encoded h buf,
        le→ltb (length buf) 16 fits,
        first,
        second,
        index-encoded h buf fits,
        counter-encoded h buf fits,
        bit_and-mask 4 (h.version % 16 * 16 + h.type % 16),
      )
      (ground arith)

pub get_or-encoded_above :
    (h : Header) (buf : List ℕ) (j : ℕ) → 16 ≤ j → get_or (encoded h buf) j 0 ≡ get_or buf j 0
get_or-encoded_above h buf j above =
    get_or-encoded h buf j (inr above)
    ∙ get_or-set_ne _ 3 j 0 0 (omega arith)
    ∙ get_or-set_ne _ 2 j 0 0 (omega arith)
    ∙ get_or-set_ne _ 1 j h.sub_type 0 (omega arith)
    ∙ get_or-set_ne buf 0 j (first_byte h) 0 (omega arith)
