-- ===== src/Interface/Messages.antt =====
-- interface.go: consumeOutsidePacket for a message of a session.
use neth.Base.{
  ℕ, ◌≡◌, refl, arith, Bool, true, false, List, Option, none, some, ltb, length, ◌==◌, nat_key,
  Bool-cases, Option-cases, inl, inr, ok,
}
use neth.Base.Assoc.{lookup}
use neth.Base.Pointers.{deref}
use neth.Net.{UdpAddr}
use neth.Crypto.{Aead, Hashes}
use neth.Cert.{Certificate}
use neth.Cert as Certs
use neth.Header.{Header, header_len, type_message, parse as parse_header}
use neth.Replay.{check_replay}
use neth.HostMap.{HostInfo, get_by_index, write_host}
use neth.Handshake.{Protobuf}
use neth.Noise.{Noise}
use neth.Punchy.{Datagram}
use neth.LightHouse as Lights
use neth.Interface.{Interface, handle_message}
use neth.Interface.Packets.{dispatch, consume_outside_packet}
use neth.Interface.Effects.{Delivers, OnlySends-Delivers}
use neth.Interface.Safety.{others-OnlySends}
use neth.Interface.Handlers.{open_message-hostmap}

pub deref-ref :
    {V : Type 0} (store : List (ℕ × V)) (ref : Option ℕ) (q : ℕ) (v : V)
    → deref store ref ≡ some (q, v)
    → ref ≡ some q
deref-ref store none q v h = cc
deref-ref store (some p) q v h = elim (Option-cases (lookup p store)) [
  | inl missing ↦ ground (arith, h, missing)
  | inr (w, found) ↦ ground (arith, h, found)
]

-- What parses is long enough for a header.
long_enough :
    (pkt : List ℕ) (hdr : Header) → parse_header pkt ≡ ok hdr → ltb (length pkt) header_len ≡ false
unfolding parse_header
long_enough pkt hdr h = elim (Bool-cases (ltb (length pkt) header_len)) [
  | inl short ↦ ground (arith, h, short)
  | inr long ↦ long
]

module _ (hashes : Hashes) (lib : Certs.Library) (proto : Protobuf) (lights : Lights.Library) where
  module _ (aead : Aead) (noise : Noise (aead.Cipher)) (can_write : Datagram → Bool) where
    -- A packet whose header parses is handed on.
    pub parsed-dispatch :
        (now : ℕ) (random : Option (List ℕ)) (pkt : List ℕ) (from : UdpAddr) (hdr : Header)
        (i : Interface (aead.Cipher) (noise.State))
        → parse_header pkt ≡ ok hdr
        → consume_outside_packet hashes lib proto lights aead noise can_write now random pkt from i
          ≡ dispatch hashes lib proto lights aead noise can_write now random pkt hdr from i
    unfolding consume_outside_packet
    parsed-dispatch now random pkt from hdr i parsed =
        rw (consume_outside_packet, long_enough pkt hdr parsed) (rw parsed refl)

    pub is_message :
        (now : ℕ) (random : Option (List ℕ)) (pkt plaintext : List ℕ) (from : UdpAddr)
        (hdr : Header) (i : Interface (aead.Cipher) (noise.State))
        → Delivers plaintext
            (dispatch hashes lib proto lights aead noise can_write now random pkt hdr from i).1
        → (hdr.type == type_message) ≡ true
    unfolding dispatch
    is_message now random pkt plaintext from hdr i d =
        elim (Bool-cases (hdr.type == type_message)) [
          | inl message ↦ message
          | inr other ↦ absurd (
              OnlySends-Delivers
                ((dispatch hashes lib proto lights aead noise can_write now random pkt hdr from
                  i).1)
                plaintext
                (rw (dispatch, other)
                  (others-OnlySends hashes lib proto lights aead noise can_write now random pkt hdr
                    from i))
                d)
        ]

    -- The host map after a message for a session: only the session's window was written.
    pub message-hostmap :
        (now : ℕ) (random : Option (List ℕ)) (pkt : List ℕ) (from : UdpAddr) (hdr : Header) (r : ℕ)
        (host : HostInfo (aead.Cipher) Certificate) (i : Interface (aead.Cipher) (noise.State))
        → parse_header pkt ≡ ok hdr
        → (hdr.type == type_message) ≡ true
        → get_by_index hdr.remote_index i.hostmap ≡ some (r, host)
        → (consume_outside_packet hashes lib proto lights aead noise can_write now random pkt from
            i).0.hostmap
          ≡ write_host r
              (record host { replay = (check_replay host.replay hdr.message_counter).0 })
              i.hostmap
    unfolding dispatch handle_message
    message-hostmap now random pkt from hdr r host i parsed message known =
        rw (parsed-dispatch now random pkt from hdr i parsed) (
          rw (dispatch, message)
            (rw (handle_message, known) (open_message-hostmap aead r 0 now r host pkt hdr i)))
