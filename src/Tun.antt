-- ===== src/Tun.antt =====
-- tun/tun.go: the TUN device.
-- The kernel's answers are the parameter `Kernel`; what the code asks of it is a list of calls, in
-- order. Numbers in an ifreq are little-endian, as on amd64 and arm64.
pub mod Laws
use neth.Base.{
  ℕ, zero, suc, ◌+◌, ◌-◌, ◌*◌, ◌/◌, ◌%◌, ◌^◌, bit_or, Bool, true, false, List, [], ◌∷◌, ◌++◌,
  Option, none, some, length, take, drop, set, get_or, replicate, ◌==◌, if◌then◌else◌, Result, ok,
  err, or_err,
}
use neth.Base as Base
use neth.Base.Int.{ℤ, pos, negsuc}
use neth.Base.Text.{Text, text}
use neth.Net.{Addr, no_addr, ip4, ip6, Prefix}
use neth.Header.{put_big_endian}

abbrev pub if_name_size : ℕ
if_name_size = 16

-- ifreq: 40 bytes.
abbrev pub zero_ifreq : List ℕ
zero_ifreq = replicate 40 0

-- copy(r[i:], bytes), where the bytes fit.
unfoldable pub copy_at : ℕ → List ℕ → List ℕ → List ℕ
copy_at i [] r = r
copy_at i (b ∷ bytes) r = copy_at (i + 1) bytes (set r i b)

-- setName: at most 16 bytes are copied.
unfoldable pub set_name : Text → List ℕ → List ℕ
set_name name r = copy_at 0 (take if_name_size name) r

unfoldable pub up_to_nul : Text → Text
up_to_nul [] = []
up_to_nul (c ∷ s) = let rest = up_to_nul s in if c == 0 then [] else c ∷ rest

-- getName
unfoldable pub get_name : List ℕ → Text
unfolding up_to_nul
get_name r = up_to_nul (take if_name_size r)

-- setFlags
unfoldable pub set_flags : ℕ → List ℕ → List ℕ
set_flags flags r = copy_at if_name_size (flags % 256 ∷ flags / 256 % 256 ∷ []) r

-- getFlags
unfoldable pub get_flags : List ℕ → ℕ
get_flags r = get_or r if_name_size 0 + 256 * get_or r (if_name_size + 1) 0

-- uint32 of an int.
unfoldable pub to_uint32 : ℤ → ℕ
to_uint32 (pos n) = n % 2 ^ 32
to_uint32 (negsuc n) = 2 ^ 32 - 1 - n % 2 ^ 32

-- setMTU
unfoldable pub set_mtu : ℤ → List ℕ → List ℕ
set_mtu mtu r =
    let m = to_uint32 mtu in
    copy_at if_name_size (m % 256 ∷ m / 2 ^ 8 % 256 ∷ m / 2 ^ 16 % 256 ∷ m / 2 ^ 24 % 256 ∷ []) r

abbrev pub af_inet : ℕ
af_inet = 2

-- setSockaddrIn
unfoldable pub set_sockaddr_in : List ℕ → List ℕ → List ℕ
set_sockaddr_in ip r = copy_at (if_name_size + 4) ip (set_flags af_inet r)

-- prefixMask4, for 0 to 32 bits.
unfoldable pub prefix_mask4 : ℕ → List ℕ
prefix_mask4 bits =
    let m = (2 ^ 32 - 1) * 2 ^ (32 - bits) % 2 ^ 32 in
    m / 2 ^ 24 % 256 ∷ m / 2 ^ 16 % 256 ∷ m / 2 ^ 8 % 256 ∷ m % 256 ∷ []

-- The requests of ioctl.
pub data Request : Type 0 where
  tun_set_iff set_if_addr set_if_netmask set_if_mtu get_if_flags set_if_flags : Request

pub data Call : Type 0 where
  opens closes : ℕ → Call
  requests : ℕ → Request → List ℕ → Call
  writes_file : Text → Text → Call

pub data TunError : Type 0 where
  bad_cidr only_ipv4 : Text → TunError
  open_failed socket_failed : TunError
  request_failed : Request → TunError

-- What the kernel answers: a descriptor of the clone device, one of a control socket, and the buffer
-- after a request.
pub record Kernel : Type 0 where
  pub open_clone : Option ℕ
  pub control_socket : Option ℕ
  pub ioctl : ℕ → Request → List ℕ → Option (List ℕ)

-- Device
pub record Device : Type 0 where
  pub file : ℕ
  pub name : Text

-- The calls that were made, and how it ended.
abbrev pub Calls : Type 0 → Type 0 → Type 0
Calls E A = List Call × Result E A

infixl 5 ◌>>=◌ ◌>>◌
abbrev pub ◌>>=◌ : {E A B : Type 0} → Calls E A → (A → Calls E B) → Calls E B
(calls, err e) >>= next = (calls, err e)
(calls, ok a) >>= next = let (more, r) = next a in (calls ++ more, r)

abbrev pub ◌>>◌ : {E A B : Type 0} → Calls E A → Calls E B → Calls E B
first >> then_this = first >>= λ done. then_this

-- A result with no call.
abbrev pub quiet : {E A : Type 0} → Result E A → Calls E A
quiet r = ([], r)

-- A descriptor that the kernel gives, or fails to give.
abbrev pub opened : {E : Type 0} → Option ℕ → E → Calls E ℕ
opened none e = ([], err e)
opened (some fd) e = (opens fd ∷ [], ok fd)

-- `if err != nil { unix.Close(fd); return err }`
abbrev pub closing_on_error : {E A : Type 0} → ℕ → Calls E A → Calls E A
closing_on_error fd (calls, err e) = (calls ++ closes fd ∷ [], err e)
closing_on_error fd (calls, ok a) = (calls, ok a)

-- `defer unix.Close(fd)`
abbrev pub and_close : {E A : Type 0} → ℕ → Calls E A → Calls E A
and_close fd (calls, r) = (calls ++ closes fd ∷ [], r)

-- Addr.Is4
abbrev pub is4 : Addr → Bool
is4 (ip4 a) = true
is4 _ = false

-- Addr.As4, of an IPv4 address.
abbrev pub as4 : Addr → List ℕ
as4 (ip4 a) = put_big_endian 4 (replicate 4 0) 0 a
as4 _ = replicate 4 0

abbrev pub bits_or_zero : Option ℕ → ℕ
bits_or_zero none = 0
bits_or_zero (some b) = b

module _ (k : Kernel) where
  -- ioctlPtr
  unfoldable pub ioctl_ptr : ℕ → Request → List ℕ → Calls TunError (List ℕ)
  ioctl_ptr fd req r = (requests fd req r ∷ [], or_err (k.ioctl fd req r) (request_failed req))

  -- Open from the address on, with the control socket.
  unfoldable pub configure : ℕ → ℕ → Text → Prefix → ℤ → Calls TunError Device
  configure fd sock dev_name prefix mtu = do
    let named = set_name dev_name zero_ifreq
    ioctl_ptr sock set_if_addr (set_sockaddr_in (as4 prefix.addr) named)
    ioctl_ptr sock set_if_netmask (set_sockaddr_in (prefix_mask4 (bits_or_zero prefix.bits)) named)
    ioctl_ptr sock set_if_mtu (set_mtu mtu named)
    flags ← ioctl_ptr sock get_if_flags named
    ioctl_ptr sock set_if_flags (set_flags (bit_or (get_flags flags) 1) flags)
    (
      writes_file (text "/proc/sys/net/ipv4/conf/" ++ dev_name ++ text "/rp_filter") (text "2")
          ∷ [],
      ok (record { file = fd; name = dev_name }),
    )

  -- Open; `parse_prefix` is netip.ParsePrefix.
  unfoldable pub open_device : (Text → Option Prefix) → Text → Text → ℤ → Calls TunError Device
  open_device parse_prefix name cidr mtu = do
    prefix ← quiet (or_err (parse_prefix cidr) (bad_cidr cidr))
    quiet (Base.guard (is4 prefix.addr) (only_ipv4 cidr))
    fd ← opened k.open_clone open_failed
    tun_ifr ←
        closing_on_error fd (ioctl_ptr fd tun_set_iff (set_flags 0x1001 (set_name name zero_ifreq)))
    sock ← closing_on_error fd (opened k.control_socket socket_failed)
    and_close sock (closing_on_error fd (configure fd sock (get_name tun_ifr) prefix mtu))
