-- ===== src/Net.antt =====
-- The addresses of Go's net and net/netip, as far as the program uses them.
use native.Mathlib.Nat.{one-le-pow, mul-div_cancel}
use neth.Base.Int.{ℤ, pos, negsuc}
use neth.Base.{
  ℕ, ◌+◌, ◌-◌, ◌*◌, ◌/◌, ◌^◌, ◌≡◌, ◌↔◌, refl, Bool, true, false, ◌&&◌, ◌||◌, List, [], ◌∷◌, ◌==◌,
  arith, length, take, drop, Option, none, some, ltb, if◌then◌else◌, bytes_key, Key, ◌=?◌,
}

-- netip.Addr: the zero value, an IPv4 address as a number of 32 bits, or an IPv6 address as one
-- of 128 bits. Zones are left out.
pub data Addr : Type 0 where
  no_addr : Addr
  ip4 : ℕ → Addr
  ip6 : ℕ → Addr

abbrev pub same_addr : Addr → Addr → Bool
same_addr no_addr no_addr = true
same_addr (ip4 a) (ip4 b) = a == b
same_addr (ip6 a) (ip6 b) = a == b
same_addr _ _ = false

pub same_addr_iff : (a b : Addr) → (same_addr a b ≡ true) ↔ (a ≡ b)
same_addr_iff no_addr no_addr = (λ h. refl, λ h. refl)
same_addr_iff (ip4 a) (ip4 b) = ground arith
same_addr_iff (ip6 a) (ip6 b) = ground arith
same_addr_iff _ _ = (λ h. cc, λ h. cc)

instance abbrev pub addr_key : Key Addr
addr_key = record { same = same_addr; same_iff = same_addr_iff }

-- netip.AddrFrom4 on four bytes.
unfoldable pub addr_from4 : ℕ → ℕ → ℕ → ℕ → Addr
addr_from4 a b c d = ip4 (((a * 256 + b) * 256 + c) * 256 + d)

-- netip.Prefix; `Bits` is -1, here `none`, for a prefix that is not valid.
pub record Prefix : Type 0 where
  pub addr : Addr
  pub bits : Option ℕ

abbrev pub no_prefix : Prefix
no_prefix = record { addr = no_addr; bits = none }

abbrev pub bit_len : Addr → ℕ
bit_len no_addr = 0
bit_len (ip4 a) = 32
bit_len (ip6 a) = 128

abbrev pub valid_bits : Addr → ℤ → Option ℕ
valid_bits no_addr b = none
valid_bits a (negsuc n) = none
valid_bits a (pos n) = if ltb (bit_len a) n then none else some n

-- netip.PrefixFrom
unfoldable pub prefix_from : Addr → ℤ → Prefix
prefix_from a b = record { addr = a; bits = valid_bits a b }

-- The first `bits` bits of an address of `width` bits.
abbrev pub network : ℕ → ℕ → ℕ → ℕ
network width bits a = a / 2 ^ (width - bits)

contains_addr : Addr → ℕ → Addr → Bool
contains_addr (ip4 p) bits (ip4 a) = network 32 bits a == network 32 bits p
contains_addr (ip6 p) bits (ip6 a) = network 128 bits a == network 128 bits p
contains_addr _ bits _ = false

contains_in : Option ℕ → Addr → Addr → Bool
unfolding contains_addr
contains_in none p a = false
contains_in (some bits) p a = contains_addr p bits a

-- Prefix.Contains
unfoldable pub contains : Prefix → Addr → Bool
unfolding contains_in
contains p a = contains_in p.bits p.addr a

masked_addr : Addr → ℕ → Addr
masked_addr (ip4 p) bits = ip4 (network 32 bits p * 2 ^ (32 - bits))
masked_addr (ip6 p) bits = ip6 (network 128 bits p * 2 ^ (128 - bits))
masked_addr no_addr bits = no_addr

masked_in : Option ℕ → Addr → Prefix
unfolding masked_addr
masked_in none p = no_prefix
masked_in (some bits) p = record { addr = masked_addr p bits; bits = some bits }

-- Prefix.Masked
unfoldable pub masked : Prefix → Prefix
unfolding masked_in
masked p = masked_in p.bits p.addr

-- net.UDPAddr without its zone: the bytes of the net.IP, and the port.
pub record UdpAddr : Type 0 where
  pub ip : List ℕ
  pub port : ℕ

abbrev pub v4_in_v6 : List ℕ
v4_in_v6 = 0 ∷ 0 ∷ 0 ∷ 0 ∷ 0 ∷ 0 ∷ 0 ∷ 0 ∷ 0 ∷ 0 ∷ 0xff ∷ 0xff ∷ []

-- IP.Equal: an IPv4 address and the same address in IPv6 form are equal.
unfoldable pub ip_equal : List ℕ → List ℕ → Bool
ip_equal x y =
    (length x == length y && x =? y)
    || (length x == 4 && length y == 16 && take 12 y =? v4_in_v6 && drop 12 y =? x)
    || (length x == 16 && length y == 4 && take 12 x =? v4_in_v6 && drop 12 x =? y)

network_masked :
    (width bits p : ℕ)
    → network width bits (network width bits p * 2 ^ (width - bits)) ≡ network width bits p
network_masked width bits p = mul-div_cancel _ (one-le-pow (width - bits) 2 (omega arith))

contains-masked_addr :
    (p : Addr) (bits : ℕ) (a : Addr)
    → contains_addr (masked_addr p bits) bits a ≡ contains_addr p bits a
unfolding contains_addr masked_addr
contains-masked_addr (ip4 p) bits (ip4 a) = rw (network_masked 32 bits p)
contains-masked_addr (ip6 p) bits (ip6 a) = rw (network_masked 128 bits p)
contains-masked_addr _ bits _ = refl

contains-masked_in :
    (bits : Option ℕ) (p a : Addr) → contains (masked_in bits p) a ≡ contains_in bits p a
unfolding contains contains_in masked_in
contains-masked_in none p a = refl
contains-masked_in (some bits) p a = contains-masked_addr p bits a

-- Clearing the host bits of a prefix does not change what it contains.
pub contains-masked : (p : Prefix) (a : Addr) → contains (masked p) a ≡ contains p a
unfolding contains masked
contains-masked p a = contains-masked_in p.bits p.addr a
