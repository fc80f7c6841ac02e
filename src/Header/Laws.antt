-- ===== src/Header/Laws.antt =====
-- header/header.go: `Encode` and `Parse` together.
use neth.Base.{
  ℕ, ◌+◌, ◌/◌, ◌^◌, ◌≤◌, ◌<◌, bit_and, ◌≡◌, sym, ap, ◌∙◌, List, [], ◌∷◌, ◌++◌, arith, length,
  get_or, set, take, take-append_exact, get_or-set_cases, drop, replicate, length-append,
  get_or-set_ne, get_or-append_left, drop-append_exact, ok,
}
use neth.Bits.{bit_and-mask}
use neth.Header.{Header, version, encode, parse, bytes, packet, get_big_endian}
use neth.Header.Wire.{IsBytes, get_big_endian_cong, put-get_big_endian}
use neth.Header.Encoding.{
  encode-encoded, encoded, first_byte, first_byte_lem, first_four, get_or-encoded_above,
  length-encoded, parse-encoded,
}

-- The fields lie in their Go types.
pub record IsHeader (h : Header) : Type 0 where
  pub version_fits : h.version < 256
  pub type_fits : h.type < 256
  pub sub_type_fits : h.sub_type < 256
  pub index_fits : h.remote_index < 2 ^ 32
  pub counter_fits : h.message_counter < 2 ^ 64

-- Into any buffer of at least 16 bytes, `Encode` of a version 1 header whose type has 4 bits and
-- whose other fields are in range succeeds, keeps the buffer's length and the bytes after the
-- header, and `Parse` reads the same header back.
pub parse-encode :
    (h : Header) (buf : List ℕ)
    → 16 ≤ length buf
    → IsHeader h
    → h.version ≡ version
    → h.type < 16
    → (out : List ℕ) × (encode h buf ≡ ok out)
      × (parse out ≡ ok h)
      × (length out ≡ length buf)
      × ((j : ℕ) → 16 ≤ j → get_or out j 0 ≡ get_or buf j 0)
parse-encode h buf fits is v t = (
  encoded h buf,
  encode-encoded h buf fits,
  parse-encoded h buf fits ∙ ground arith,
  length-encoded h buf,
  get_or-encoded_above h buf,
)

-- The bytes that the source keeps reserved are cleared.
abbrev pub clear_reserved : List ℕ → List ℕ
clear_reserved buf = set (set buf 2 0) 3 0

parse-inversion :
    (buf : List ℕ) (h : Header)
    → parse buf ≡ ok h
    → (16 ≤ length buf)
      × (get_or buf 0 0 / 2 ^ 4 ≡ 1)
      × (h ≡ record {
        version = 1;
        type = bit_and (get_or buf 0 0) 0x0f;
        sub_type = get_or buf 1 0;
        remote_index = get_big_endian 4 buf 4;
        message_counter = get_big_endian 8 buf 8;
      })
unfolding parse
parse-inversion buf h e = ground arith

clear_reserved_cong :
    (n : ℕ) (buf : List ℕ) (at : ℕ)
    → 4 ≤ at
    → get_big_endian n buf at ≡ get_big_endian n (clear_reserved buf) at
clear_reserved_cong n buf at above = get_big_endian_cong n _ _ at (λ j p q.
    sym
      (get_or-set_ne (set buf 2 0) 3 j 0 0 (omega arith) ∙ get_or-set_ne buf 2 j 0 0 (omega arith)))

clear_reserved-IsBytes : (buf : List ℕ) → IsBytes buf → IsBytes (clear_reserved buf)
clear_reserved-IsBytes buf is j =
    get_or-set_cases (λ x. x < 256) (set buf 2 0) 3 j 0 (omega arith)
      (get_or-set_cases (λ x. x < 256) buf 2 j 0 (omega arith) (is j))

first_four_same :
    (h : Header) (buf : List ℕ)
    → 16 ≤ length buf
    → first_byte h ≡ get_or buf 0 0
    → h.sub_type ≡ get_or buf 1 0
    → first_four h buf ≡ clear_reserved buf
first_four_same h [] fits p q = absurd (omega arith)
first_four_same h (x ∷ []) fits p q = absurd (omega arith)
first_four_same h (x ∷ y ∷ []) fits p q = absurd (omega arith)
first_four_same h (x ∷ y ∷ z ∷ buf) fits p q = cc

encoded_same :
    (h : Header) (buf : List ℕ)
    → IsBytes buf
    → first_four h buf ≡ clear_reserved buf
    → h.remote_index ≡ get_big_endian 4 buf 4
    → h.message_counter ≡ get_big_endian 8 buf 8
    → encoded h buf ≡ clear_reserved buf
unfolding encoded
encoded_same h buf is first index counter =
    let cleared = clear_reserved-IsBytes buf is in
    rw
      (
        first,
        index ∙ clear_reserved_cong 4 buf 4 (omega arith),
        counter ∙ clear_reserved_cong 8 buf 8 (omega arith),
        put-get_big_endian 4 (clear_reserved buf) 4 cleared,
      )
      (put-get_big_endian 8 (clear_reserved buf) 8 cleared)

-- Whatever bytes `Parse` accepts, `Encode` of the result over them gives them back with the
-- reserved bytes cleared.
pub encode-parse :
    (buf : List ℕ) (h : Header)
    → IsBytes buf
    → parse buf ≡ ok h
    → encode h buf ≡ ok (clear_reserved buf)
encode-parse buf h is e =
    let (fits, one, fields) = parse-inversion buf h e in
    let first : first_byte h ≡ get_or buf 0 0 =
      ground (arith, first_byte_lem h, bit_and-mask 4 (get_or buf 0 0), is 0) in
    encode-encoded h buf fits
    ∙ ap ok (
        encoded_same h buf is (first_four_same h buf fits first (ground arith)) (ground arith)
          (ground arith))

-- What stands behind the header does not matter to `Parse`.
pub parse-append : (xs ys : List ℕ) → 16 ≤ length xs → parse (xs ++ ys) ≡ parse xs
unfolding parse
parse-append xs ys fits = ground (
  arith,
  length-append xs ys,
  get_or-append_left xs ys 0 0,
  get_or-append_left xs ys 1 0,
  get_big_endian_cong 4 (xs ++ ys) xs 4 (λ j p q. get_or-append_left xs ys j 0 (omega arith)),
  get_big_endian_cong 8 (xs ++ ys) xs 8 (λ j p q. get_or-append_left xs ys j 0 (omega arith)),
)

bytes-encoded : (h : Header) → bytes h ≡ encoded h (replicate 16 0)
unfolding bytes
bytes-encoded h = rw (encode-encoded h (replicate 16 0) (omega arith), bytes)

pub length-bytes : (h : Header) → length (bytes h) ≡ 16
length-bytes h = ap length (bytes-encoded h) ∙ length-encoded h (replicate 16 0)

-- The receiver of a packet reads the header that it was made with, and the body behind it.
pub parse-packet :
    (h : Header) (body : List ℕ)
    → IsHeader h
    → h.version ≡ version
    → h.type < 16
    → (parse (packet h body) ≡ ok h)
      × (drop 16 (packet h body) ≡ body)
      × (take 16 (packet h body) ≡ bytes h)
unfolding packet
parse-packet h body is v t = (
  parse-append (bytes h) body (omega (arith, length-bytes h))
      ∙ ap parse (bytes-encoded h)
      ∙ parse-encoded h (replicate 16 0) (omega arith)
      ∙ ground arith,
  ap (λ n. drop n (bytes h ++ body)) (sym (length-bytes h)) ∙ drop-append_exact (bytes h) body,
  ap (λ n. take n (bytes h ++ body)) (sym (length-bytes h)) ∙ take-append_exact (bytes h) body,
)

pub length-packet : (h : Header) (body : List ℕ) → length (packet h body) ≡ 16 + length body
unfolding packet
length-packet h body = omega (arith, length-append (bytes h) body, length-bytes h)
