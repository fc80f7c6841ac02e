-- ===== src/Interface/Keeps.antt =====
-- interface.go: packets from either side, and the counters that are spent.
use neth.Base.{
  ℕ, ◌≡◌, inl, inr, refl, sym, subst, arith, Bool, true, false, List, Option, ltb, length, ◌==◌,
  if◌then◌else◌, nat_key, Bool-cases, Option-cases, Result-cases,
}
use neth.Net.{Addr, UdpAddr, addr_key}
use neth.Crypto.{Aead, Hashes}
use neth.Cert.{Certificate}
use neth.Cert as Certs
use neth.Header.{
  Header, header_len, type_message, type_handshake, type_lighthouse, type_test, type_close_tunnel,
  handshake_initiation, handshake_response, parse as parse_header,
}
use neth.HostMap.{get_by_vpn_ip}
use neth.Handshake.{Protobuf}
use neth.Noise.{Noise}
use neth.Punchy.{Datagram}
use neth.LightHouse as Lights
use neth.Packet.{dst_ip_from_ipv4}
use neth.Interface.{Effect, Interface, send_to_remote, count_packet}
use neth.Interface.Packets.{
  handle_handshake, dispatch, consume_outside_packet, consume_inside_packet, forward, reach,
  start_and_queue,
}
use neth.Interface.Spent.{IsSpent, write_host-IsSpent}
use neth.Interface.Handlers.{
  complete-IsSpent, deref-eq, handle_close_tunnel-IsSpent, handle_light_house-hostmap,
  handle_message-IsSpent,
}

if-either {ℓ κ} :
    {A : Type ℓ} (P : A → Type κ) (test : Bool) (x y : A) → P x → P y → P (if test then x else y)
if-either P true x y p q = p
if-either P false x y p q = q

module _ (hashes : Hashes) (lib : Certs.Library) (proto : Protobuf) (lights : Lights.Library) where
  module _ (aead : Aead) (noise : Noise (aead.Cipher)) (can_write : Datagram → Bool) (r c : ℕ) where
    -- What a handler leaves keeps the counter spent.
    abbrev pub Keeps : Interface (aead.Cipher) (noise.State) × List Effect → Type 0
    Keeps out = IsSpent r c out.0.hostmap

    handle_handshake-IsSpent :
        (now : ℕ) (random : Option (List ℕ)) (pkt : List ℕ) (hdr : Header) (from : UdpAddr)
        (i : Interface (aead.Cipher) (noise.State))
        → IsSpent r c i.hostmap
        → Keeps (
            handle_handshake hashes lib proto lights aead noise can_write now random pkt hdr from i)
    unfolding handle_handshake
    handle_handshake-IsSpent now random pkt hdr from i s =
        elim (Bool-cases (hdr.sub_type == handshake_initiation)) [
          | inl first ↦ rw first (complete-IsSpent aead r c _ i s)
          | inr other ↦ elim (Bool-cases (hdr.sub_type == handshake_response)) [
            | inl answer ↦
                rw (handle_handshake, other) (rw answer (complete-IsSpent aead r c _ _ s))
            | inr neither ↦ rw (handle_handshake, other) (rw neither s)
          ]
        ]

    dispatch-IsSpent :
        (now : ℕ) (random : Option (List ℕ)) (pkt : List ℕ) (hdr : Header) (from : UdpAddr)
        (i : Interface (aead.Cipher) (noise.State))
        → IsSpent r c i.hostmap
        → Keeps (dispatch hashes lib proto lights aead noise can_write now random pkt hdr from i)
    unfolding dispatch
    dispatch-IsSpent now random pkt hdr from i s = elim (Bool-cases (hdr.type == type_message)) [
      | inl is ↦ rw is (handle_message-IsSpent aead r c now pkt hdr from i s)
      | inr no_message ↦
          rw (dispatch, no_message)
            (elim (Bool-cases (hdr.type == type_handshake)) [
              | inl is ↦ rw is (handle_handshake-IsSpent now random pkt hdr from i s)
              | inr no_handshake ↦
                  rw no_handshake (elim (Bool-cases (hdr.type == type_lighthouse)) [
                    | inl is ↦
                        rw is (rw (handle_light_house-hostmap aead r c lights pkt hdr from i) s)
                    | inr no_lighthouse ↦
                        rw no_lighthouse (elim (Bool-cases (hdr.type == type_test)) [
                          | inl is ↦ rw is s
                          | inr no_test ↦
                              rw no_test (elim (Bool-cases (hdr.type == type_close_tunnel)) [
                                | inl is ↦ rw is (handle_close_tunnel-IsSpent aead r c hdr i s)
                                | inr unknown ↦ rw unknown s
                              ])
                        ])
                  ])
            ])
    ]

    pub consume_outside_packet-IsSpent :
        (now : ℕ) (random : Option (List ℕ)) (pkt : List ℕ) (from : UdpAddr)
        (i : Interface (aead.Cipher) (noise.State))
        → IsSpent r c i.hostmap
        → Keeps (
            consume_outside_packet hashes lib proto lights aead noise can_write now random pkt from
              i)
    unfolding consume_outside_packet
    consume_outside_packet-IsSpent now random pkt from i s =
        if-either Keeps (ltb (length pkt) header_len) _ _ s
          (elim (Result-cases (parse_header pkt)) [
            | inl (e, bad) ↦ rw bad s
            | inr (hdr, good) ↦ rw good (dispatch-IsSpent now random pkt hdr from i s)
          ])

    reach-hostmap :
        (now : ℕ) (random : Option (List ℕ)) (dst_ip : Addr) (pkt : List ℕ)
        (i : Interface (aead.Cipher) (noise.State))
        → (reach hashes lib proto lights aead noise can_write now random dst_ip pkt i).0.hostmap
          ≡ i.hostmap
    unfolding reach start_and_queue
    reach-hostmap now random dst_ip pkt i = ground arith

    reach-IsSpent :
        (now : ℕ) (random : Option (List ℕ)) (dst_ip : Addr) (pkt : List ℕ)
        (i : Interface (aead.Cipher) (noise.State))
        → IsSpent r c i.hostmap
        → Keeps (reach hashes lib proto lights aead noise can_write now random dst_ip pkt i)
    reach-IsSpent now random dst_ip pkt i s =
        subst (IsSpent r c) (sym (reach-hostmap now random dst_ip pkt i)) s

    pub consume_inside_packet-IsSpent :
        (now : ℕ) (random : Option (List ℕ)) (pkt : List ℕ)
        (i : Interface (aead.Cipher) (noise.State))
        → IsSpent r c i.hostmap
        → Keeps
            (consume_inside_packet hashes lib proto lights aead noise can_write now random pkt i)
    unfolding consume_inside_packet forward send_to_remote count_packet get_by_vpn_ip
    consume_inside_packet-IsSpent now random pkt i s = elim (Option-cases (dst_ip_from_ipv4 pkt)) [
      | inl bad ↦ rw (consume_inside_packet, bad) s
      | inr (dst_ip, good) ↦ elim (Option-cases (get_by_vpn_ip dst_ip i.hostmap)) [
        | inl none_found ↦
            rw (consume_inside_packet, good)
              (rw (forward, none_found)
                (if-either Keeps _ _ _ (reach-IsSpent now random dst_ip pkt _ s) s))
        | inr ((q, host), found) ↦
            rw (consume_inside_packet, good)
              (rw (forward, found)
                (if-either Keeps _ _ _
                  (write_host-IsSpent r c q host _ i.hostmap
                    (deref-eq i.hostmap.hosts _ q host found) (inl refl) s)
                  s))
      ]
    ]
