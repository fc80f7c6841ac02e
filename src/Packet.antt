-- ===== src/Packet.antt =====
-- interface.go: the fields that the interface reads from an IPv4 packet.
use neth.Base.{
  ℕ, ◌+◌, ◌*◌, bit_and, not, ◌&&◌, ◌||◌, List, length, get_or, Option, none, some, ltb, leb, ◌==◌,
  if◌then◌else◌,
}
use neth.Bits.{shr}
use neth.Net.{Addr, addr_from4}
use neth.Header.{get_big_endian}
use neth.Firewall.Rules.{proto_any, proto_tcp, proto_udp}

-- dstIPFromIPv4
unfoldable pub dst_ip_from_ipv4 : List ℕ → Option Addr
dst_ip_from_ipv4 pkt =
    if ltb (length pkt) 20 || not (shr (get_or pkt 0 0) 4 == 4)
    then none
    else some (addr_from4 (get_or pkt 16 0) (get_or pkt 17 0) (get_or pkt 18 0) (get_or pkt 19 0))

-- srcIPFromIPv4
unfoldable pub src_ip_from_ipv4 : List ℕ → Option Addr
src_ip_from_ipv4 pkt =
    if ltb (length pkt) 20 || not (shr (get_or pkt 0 0) 4 == 4)
    then none
    else some (addr_from4 (get_or pkt 12 0) (get_or pkt 13 0) (get_or pkt 14 0) (get_or pkt 15 0))

-- protoFromIPv4
unfoldable pub proto_from_ipv4 : List ℕ → ℕ
proto_from_ipv4 pkt = if ltb (length pkt) 10 then proto_any else get_or pkt 9 0

-- `int(pkt[0]&0x0f) * 4`
unfoldable pub header_bytes : List ℕ → ℕ
header_bytes pkt = bit_and (get_or pkt 0 0) 0x0f * 4

-- dstPortFromIPv4
unfoldable pub dst_port_from_ipv4 : List ℕ → ℕ
dst_port_from_ipv4 pkt =
    if ltb (length pkt) 20
    then 0
    else let p = get_or pkt 9 0 in
      if (p == proto_tcp || p == proto_udp) && leb (header_bytes pkt + 4) (length pkt)
      then get_big_endian 2 pkt (header_bytes pkt + 2)
      else 0
