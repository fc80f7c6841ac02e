-- ===== src/Header.antt =====
-- header/header.go: the 16 bytes in front of every packet on the wire.
-- A byte is a number below 256. `uint8(h.Type) & 0x0F` and the shifts are written as in the source.
pub mod Wire
pub mod Encoding
pub mod Laws
use neth.Base.{
  ℕ, zero, suc, ◌+◌, ◌-◌, ◌*◌, ◌/◌, ◌%◌, ◌^◌, ◌≤◌, ◌<◌, bit_and, bit_or, Bool, List, [], ◌∷◌, ◌++◌,
  ltb, ◌==◌, if◌then◌else◌, length, get_or, set, drop, take, replicate, Result, ok, err, String,
  Option, some, none,
}
use neth.Bits.{shr}

abbrev pub version : ℕ
version = 1

abbrev pub header_len : ℕ
header_len = 16

-- MessageType is a byte; the source names five of its values.
abbrev pub type_handshake : ℕ
type_handshake = 0

abbrev pub type_message : ℕ
type_message = 1

abbrev pub type_lighthouse : ℕ
type_lighthouse = 2

abbrev pub type_test : ℕ
type_test = 3

abbrev pub type_close_tunnel : ℕ
type_close_tunnel = 4

abbrev pub handshake_initiation : ℕ
handshake_initiation = 0

abbrev pub handshake_response : ℕ
handshake_response = 1

-- The name of a type; `unknown n` is the text `Unknown(n)`.
pub data TypeName : Type 0 where
  known : String → TypeName
  unknown : ℕ → TypeName

unfoldable pub type_name : ℕ → TypeName
type_name t =
    if t == type_handshake
    then known "Handshake"
    else if t == type_message
    then known "Message"
    else if t == type_lighthouse
    then known "LightHouse"
    else if t == type_test
    then known "Test"
    else if t == type_close_tunnel
    then known "CloseTunnel"
    else unknown t

pub record Header : Type 0 where
  pub version : ℕ
  pub type : ℕ
  pub sub_type : ℕ
  pub remote_index : ℕ
  pub message_counter : ℕ

pub data HeaderError : Type 0 where
  buffer_too_small : ℕ → HeaderError
  too_short : ℕ → HeaderError
  unsupported_version : ℕ → HeaderError

-- binary.BigEndian.PutUint32(buf[at:], v) and PutUint64.
unfoldable pub put_big_endian : ℕ → List ℕ → ℕ → ℕ → List ℕ
put_big_endian zero buf at v = buf
put_big_endian (suc n) buf at v = put_big_endian n (set buf (at + n) (v % 256)) at (v / 256)

-- binary.BigEndian.Uint32(buf[at:]) and Uint64, over `n` bytes.
unfoldable pub get_big_endian : ℕ → List ℕ → ℕ → ℕ
get_big_endian zero buf at = 0
get_big_endian (suc n) buf at = get_big_endian n buf at * 256 + get_or buf (at + n) 0

-- Encode, into a buffer that may be longer than the header.
unfoldable pub encode : Header → List ℕ → Result HeaderError (List ℕ)
encode h buf =
    if ltb (length buf) header_len
    then err (buffer_too_small (length buf))
    else let first = set buf 0 (bit_or (h.version * 2 ^ 4 % 256) (bit_and h.type 0x0f)) in
      let second = set first 1 h.sub_type in
      let reserved = set (set second 2 0) 3 0 in
      let index = put_big_endian 4 reserved 4 h.remote_index in
      ok (put_big_endian 8 index 8 h.message_counter)

-- Parse.
unfoldable pub parse : List ℕ → Result HeaderError Header
parse buf =
    if ltb (length buf) header_len
    then err (too_short (length buf))
    else let v = shr (get_or buf 0 0) 4 in
      if v == version
      then ok (record {
        version = v;
        type = bit_and (get_or buf 0 0) 0x0f;
        sub_type = get_or buf 1 0;
        remote_index = get_big_endian 4 buf 4;
        message_counter = get_big_endian 8 buf 8;
      })
      else err (unsupported_version v)

-- Bytes: the error of `Encode` is dropped, and the zeroed buffer would be returned.
unfoldable pub bytes : Header → List ℕ
bytes h = elim (encode h (replicate 16 0)) [ ok buf ↦ buf | err e ↦ replicate 16 0 ]

-- A packet: the header's bytes and then the body.
unfoldable pub packet : Header → List ℕ → List ℕ
packet h body = bytes h ++ body
