-- ===== src/Interface/Loops.antt =====
-- interface.go: Run, readFromTUN and readFromUDP.
-- The two loops run until the context is done. What they meet in each round is a function of the
-- round; the other goroutines change the state between two rounds.
use neth.Base.{ℕ, suc, ◌-◌, ◌*◌, ◌%◌, ◌^◌, Bool, ◌||◌, List, take, Option, leb, ◌==◌, if◌then◌else◌}
use neth.Base.Int.{ℤ, pos, negsuc}
use neth.Net.{UdpAddr}
use neth.Crypto.{Aead, Hashes}
use neth.Cert as Certs
use neth.Firewall.{second}
use neth.Handshake.{Protobuf}
use neth.Noise.{Noise}
use neth.Punchy.{Datagram}
use neth.LightHouse as Lights
use neth.Interface.{Effect, Interface}
use neth.Interface.Packets.{consume_outside_packet, consume_inside_packet}
use neth.Interface.Rounds.{Round, read_loop}

abbrev pub tun_read_buf_size : ℕ
tun_read_buf_size = 65535

abbrev pub udp_read_buf_size : ℕ
udp_read_buf_size = 65535

-- `time.Duration(n) * time.Second` as the 64 bits of a signed number.
unfoldable pub seconds64 : ℤ → ℕ
seconds64 (pos n) = n * second % 2 ^ 64
seconds64 (negsuc n) = (2 ^ 64 - suc n * second % 2 ^ 64) % 2 ^ 64

-- The interval of Run in nanoseconds: a minute where the product is not positive.
unfoldable pub run_interval : ℤ → ℕ
run_interval n =
    let interval = seconds64 n in
    if interval == 0 || leb (2 ^ 63) interval then 60 * second else interval

module _ (hashes : Hashes) (lib : Certs.Library) (proto : Protobuf) (lights : Lights.Library) where
  module _ (aead : Aead) (noise : Noise (aead.Cipher)) (can_write : Datagram → Bool) where
    module _ (now : ℕ → ℕ) (random : ℕ → Option (List ℕ)) where
      -- What a round does with the bytes that were read into the buffer.
      unfoldable pub tun_round :
          ℕ
          → List ℕ
          → Interface (aead.Cipher) (noise.State)
          → Interface (aead.Cipher) (noise.State) × List Effect
      tun_round k pkt i =
          consume_inside_packet hashes lib proto lights aead noise can_write (now k) (random k)
            (take tun_read_buf_size pkt) i

      unfoldable pub udp_round :
          ℕ
          → List ℕ × UdpAddr
          → Interface (aead.Cipher) (noise.State)
          → Interface (aead.Cipher) (noise.State) × List Effect
      udp_round k (pkt, from) i =
          consume_outside_packet hashes lib proto lights aead noise can_write (now k) (random k)
            (take udp_read_buf_size pkt) from i

      module _
          (others : ℕ
            → Interface (aead.Cipher) (noise.State)
            → Interface (aead.Cipher) (noise.State)) where
        -- readFromTUN
        unfoldable pub read_from_tun :
            (ℕ → Round (List ℕ))
            → ℕ
            → Interface (aead.Cipher) (noise.State)
            → Option (Interface (aead.Cipher) (noise.State) × List Effect)
        read_from_tun rounds fuel i = read_loop rounds others tun_round fuel 0 i

        -- readFromUDP
        unfoldable pub read_from_udp :
            (ℕ → Round (List ℕ × UdpAddr))
            → ℕ
            → Interface (aead.Cipher) (noise.State)
            → Option (Interface (aead.Cipher) (noise.State) × List Effect)
        read_from_udp rounds fuel i = read_loop rounds others udp_round fuel 0 i
