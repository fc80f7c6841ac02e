-- ===== src/Interface/Effects.antt =====
-- What reaches the TUN device and what only goes to the socket.
use neth.Base.{
  ℕ, ◌+◌, ◌%◌, ◌^◌, ◌≡◌, ◌⊎◌, List, [], ◌∷◌, ◌++◌, map, drop, Result, ok, err, nat_key,
  Option-cases, inl, inr, All,
}
use neth.Net.{UdpAddr, addr_key}
use neth.Crypto.{Aead}
use neth.Cert.{Certificate}
use neth.Header.{Header, header_len}
use neth.HostMap.{HostInfo}
use neth.Punchy.{Datagram}
use neth.LightHouse as Lights
use neth.Manager.Packets.{Completed}
use neth.Interface.{
  on_handshake_complete, send_to_remote, send_pending, complete, sender_vpn, handle_light_house,
  Effect, sends, writes_tun, Interface,
}

-- Nothing for the TUN device.
abbrev pub IsSend : Effect → Type 0
IsSend (sends d) = Unit
IsSend (writes_tun pkt) = ⊥

abbrev pub OnlySends : List Effect → Type 0
OnlySends es = All IsSend es

pub map-OnlySends : (ds : List Datagram) → OnlySends (map sends ds)
map-OnlySends [] = tt
map-OnlySends (d ∷ ds) = (tt, map-OnlySends ds)

pub append-OnlySends : (es fs : List Effect) → OnlySends es → OnlySends fs → OnlySends (es ++ fs)
append-OnlySends [] fs p q = q
append-OnlySends (e ∷ es) fs p q = (p.0, append-OnlySends es fs p.1 q)

-- A packet is written to the TUN device, at whatever place of the list.
abbrev pub Delivers : List ℕ → List Effect → Type 0
Delivers pkt [] = ⊥
Delivers pkt (sends d ∷ es) = Delivers pkt es
Delivers pkt (writes_tun written ∷ es) = (written ≡ pkt) ⊎ Delivers pkt es

pub OnlySends-Delivers : (es : List Effect) (pkt : List ℕ) → OnlySends es → Delivers pkt es → ⊥
OnlySends-Delivers [] pkt only d = d
OnlySends-Delivers (sends x ∷ es) pkt only d = OnlySends-Delivers es pkt only.1 d
OnlySends-Delivers (writes_tun x ∷ es) pkt only d = only.0

module _ (aead : Aead) {State : Type 0} where
  send_pending-OnlySends :
      (r : ℕ) (host : HostInfo (aead.Cipher) Certificate) (pending : List (List ℕ))
      (i : Interface (aead.Cipher) State)
      → OnlySends (send_pending aead r host pending i).1
  unfolding send_pending send_to_remote
  send_pending-OnlySends r host [] i = tt
  send_pending-OnlySends r host (pkt ∷ pending) i = (
    tt,
    send_pending-OnlySends r (record host { counter = (host.counter + 1) % 2 ^ 64 }) pending
        (send_to_remote aead r host pkt i).0,
  )

  pub complete-OnlySends :
      {E : Type 0} (res : Result E (Completed (aead.Cipher))) (i : Interface (aead.Cipher) State)
      → OnlySends (complete aead res i).1
  unfolding complete on_handshake_complete
  complete-OnlySends (err e) i = tt
  complete-OnlySends (ok c) i = send_pending-OnlySends _ c.host c.packets _

  pub handle_light_house-OnlySends :
      (lights : Lights.Library) (pkt : List ℕ) (hdr : Header) (from : UdpAddr)
      (i : Interface (aead.Cipher) State)
      → OnlySends (handle_light_house lights pkt hdr from i).1
  unfolding handle_light_house
  handle_light_house-OnlySends lights pkt hdr from i = elim (Option-cases (sender_vpn hdr from i)) [
    | inl none_known ↦ rw (handle_light_house, none_known) tt
    | inr (sender, known) ↦ elim (Option-cases (lights.unmarshal (drop header_len pkt))) [
      | inl bad ↦ rw (handle_light_house, known, bad) tt
      | inr (msg, good) ↦ rw (handle_light_house, known, good) (map-OnlySends _)
    ]
  ]
