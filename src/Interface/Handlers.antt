-- ===== src/Interface/Handlers.antt =====
-- interface.go: the handlers of a session's packets, and the counters that are spent.
use neth.Base.{
  ℕ, ◌+◌, ◌%◌, ◌^◌, ◌<◌, ◌≡◌, inl, inr, refl, sym, subst, arith, List, [], ◌∷◌, map, Option, none,
  some, take, drop, nat_key, Bool-cases, Option-cases, Result, ok, err,
}
use neth.Base.Assoc.{lookup}
use neth.Base.Pointers.{deref}
use neth.Net.{Addr, UdpAddr, addr_key}
use neth.Crypto.{Aead}
use neth.Cert.{Certificate}
use neth.Header.{Header, header_len}
use neth.Replay.{check_replay}
use neth.HostMap.{HostInfo, HostMap, add, get_by_index, write_host}
use neth.Punchy.{Punchy, respond_to_punch}
use neth.LightHouse as Lights
use neth.Manager.Packets.{Completed}
use neth.NoiseUtil.{decrypt}
use neth.Interface.{
  Effect, sends, Interface, on_handshake_complete, send_to_remote, send_pending, complete,
  handle_light_house, handle_close_tunnel, count_packet, receive, open_message, handle_message,
  add_peer_cert,
}
use neth.Interface.Spent.{
  IsSpent, add-IsSpent, remove-IsSpent, write_other-IsSpent, write_host-IsSpent,
}

found-eq :
    {V : Type 0} (p : ℕ) (o : Option V) (q : ℕ) (v : V)
    → ◌≡◌ {A = Option (ℕ × V)} (elim o [ none ↦ none | some w ↦ some (p, w) ]) (some (q, v))
    → (o ≡ some v) × (p ≡ q)
found-eq p none q v h = cc
found-eq p (some w) q v h = (cc, cc)

-- What a reference points to is what it was looked up as.
pub deref-eq :
    {V : Type 0} (store : List (ℕ × V)) (ref : Option ℕ) (q : ℕ) (v : V)
    → deref store ref ≡ some (q, v)
    → lookup q store ≡ some v
deref-eq store none q v h = cc
deref-eq store (some p) q v h =
    let (found, same) = found-eq p (lookup p store) q v h in
    subst (λ (x : ℕ). lookup x store ≡ some v) same found

module _ (aead : Aead) {State : Type 0} (r c : ℕ) where
  send_pending-IsSpent :
      (q : ℕ) (host : HostInfo (aead.Cipher) Certificate) (pending : List (List ℕ))
      (i : Interface (aead.Cipher) State)
      → r < q
      → IsSpent r c i.hostmap
      → IsSpent r c (send_pending aead q host pending i).0.hostmap
  unfolding send_pending send_to_remote count_packet
  send_pending-IsSpent q host [] i older s = s
  send_pending-IsSpent q host (pkt ∷ pending) i older s =
      send_pending-IsSpent q (record host { counter = (host.counter + 1) % 2 ^ 64 }) pending
        (send_to_remote aead q host pkt i).0 older (write_other-IsSpent r c q _ i.hostmap older s)

  with_cert-hostmap :
      (ip : Addr) (cert : Option Certificate) (i : Interface (aead.Cipher) State)
      → (let j : Interface (aead.Cipher) State = elim cert [
        | none ↦ i
        | some c ↦ add_peer_cert ip c i
      ] in
          j.hostmap)
        ≡ i.hostmap
  unfolding add_peer_cert
  with_cert-hostmap ip none i = refl
  with_cert-hostmap ip (some cert) i = refl

  pub complete-IsSpent :
      {E : Type 0} (res : Result E (Completed (aead.Cipher))) (i : Interface (aead.Cipher) State)
      → IsSpent r c i.hostmap
      → IsSpent r c (complete aead res i).0.hostmap
  unfolding complete on_handshake_complete add_peer_cert
  complete-IsSpent (err e) i s = s
  complete-IsSpent (ok done) i s =
      let added : HostMap (aead.Cipher) Certificate = add done.host i.hostmap in
      let after : IsSpent r c added = add-IsSpent r c done.host i.hostmap s in
      let with_host : Interface (aead.Cipher) State = record i { hostmap = added } in
      send_pending-IsSpent i.hostmap.next_ref done.host done.packets _ s.older (
        subst (IsSpent r c) (sym (with_cert-hostmap done.host.vpn_ip done.host.cert with_host))
          after)

  pub handle_close_tunnel-IsSpent :
      (hdr : Header) (i : Interface (aead.Cipher) State)
      → IsSpent r c i.hostmap
      → IsSpent r c (handle_close_tunnel hdr i).hostmap
  unfolding handle_close_tunnel
  handle_close_tunnel-IsSpent hdr i s =
      elim (Option-cases (get_by_index hdr.remote_index i.hostmap)) [
        | inl unknown ↦ rw (handle_close_tunnel, unknown) s
        | inr ((q, host), known) ↦
            rw (handle_close_tunnel, known) (remove-IsSpent r c host.vpn_ip i.hostmap s)
      ]

  pub handle_light_house-hostmap :
      (lights : Lights.Library) (pkt : List ℕ) (hdr : Header) (from : UdpAddr)
      (i : Interface (aead.Cipher) State)
      → (handle_light_house lights pkt hdr from i).0.hostmap ≡ i.hostmap
  unfolding handle_light_house
  handle_light_house-hostmap lights pkt hdr from i = ground arith

  receive-hostmap :
      (now : ℕ) (host : HostInfo (aead.Cipher) Certificate) (plaintext : List ℕ)
      (i : Interface (aead.Cipher) State)
      → (receive aead now host plaintext i).0.hostmap ≡ i.hostmap
  unfolding receive
  receive-hostmap now host plaintext i = ground arith

  -- The host map after a packet for a session: only the window was written.
  pub open_message-hostmap :
      (now q : ℕ) (host : HostInfo (aead.Cipher) Certificate) (pkt : List ℕ) (hdr : Header)
      (i : Interface (aead.Cipher) State)
      → (open_message aead now q host pkt hdr i).0.hostmap
        ≡ write_host q
            (record host { replay = (check_replay host.replay hdr.message_counter).0 })
            i.hostmap
  unfolding open_message
  open_message-hostmap now q host pkt hdr i =
      elim (Bool-cases (check_replay host.replay hdr.message_counter).1) [
        | inl replayed ↦ rw (open_message, replayed) refl
        | inr fresh ↦
            elim (Option-cases (
              decrypt aead host.recv_cipher hdr.message_counter (take header_len pkt)
                (drop header_len pkt))) [
                  | inl bad ↦ rw (open_message, fresh) (rw bad refl)
                  | inr (plaintext, good) ↦
                      rw (open_message, fresh) (rw good (receive-hostmap now host plaintext _))
                ]
      ]

  pub handle_message-IsSpent :
      (now : ℕ) (pkt : List ℕ) (hdr : Header) (from : UdpAddr) (i : Interface (aead.Cipher) State)
      → IsSpent r c i.hostmap
      → IsSpent r c (handle_message aead now pkt hdr from i).0.hostmap
  unfolding handle_message get_by_index
  handle_message-IsSpent now pkt hdr from i s =
      elim (Option-cases (get_by_index hdr.remote_index i.hostmap)) [
        | inl unknown ↦ rw (handle_message, unknown) (unknown_sender i.punchy)
        | inr ((q, host), known) ↦
            rw (handle_message, known)
              (rw (open_message-hostmap now q host pkt hdr i) (
                write_host-IsSpent r c q host _ i.hostmap (deref-eq i.hostmap.hosts _ q host known)
                  (inr (hdr.message_counter, refl)) s))
      ]
    where
      unknown_sender :
          (p : Option Punchy)
          → (let out : Interface (aead.Cipher) State × List Effect = elim p [
            | none ↦ (i, [])
            | some punchy ↦ (i, map sends (respond_to_punch punchy from))
          ] in
              IsSpent r c out.0.hostmap)
      unknown_sender none = s
      unknown_sender (some punchy) = s
