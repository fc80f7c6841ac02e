-- ===== src/Manager/Sessions.antt =====
-- What the sessions stand for that the two stages complete, and how packets get to them.
use neth.Base.{
  ℕ, ◌≤◌, ◌≡◌, refl, sym, ap, subst, ◌∙◌, arith, Option, none, some, Bool, true, false, Bool-cases,
  Option-cases, inl, inr, ltb, leb, nat_key, =?_refl, List, [], ◌∷◌, length, ok, err, >>=-eq-ok,
  ok_injective, or_err, map_err, guard, guard-eq-ok, Result-cases,
}
use neth.Base.Assoc.{lookup-delete}
use neth.Net.{UdpAddr, addr_key}
use neth.Crypto.{Hashes}
use neth.Cert.{Certificate, Library, verify}
use neth.Header.{header_len, Header, parse as parse_header}
use neth.Handshake.{Protobuf, verify_hmac}
use neth.Noise.{Noise}
use neth.Punchy.{Datagram}
use neth.Manager.{
  PendingHandshake, HandshakeManager, find_index, leave, noise_read_failed, send_failed,
  packet_too_short, header_failed, unknown_remote_index,
}
use neth.Manager.Packets.{Completed, Envelope, Reply, ciphers_from_states}
use neth.Manager.Stages.{
  open_envelope, stage0_reply, stage0_completed, handle_stage0, stage1_completed, answer_stage1,
  handle_stage1,
}

-- What a session holds that completes a pending handshake: its peer, address and index, the packets
-- that were queued, and a certificate that the pool verifies at a time.
abbrev pub CompletesPending :
    {Cipher State : Type 0}
    → Library
    → List Certificate
    → ℕ
    → PendingHandshake State
    → Completed Cipher
    → Type 0
CompletesPending lib pool now ph c =
    (c.host.vpn_ip ≡ ph.remote_vpn_ip)
    × (c.host.remote ≡ ph.remote_addr)
    × (c.host.index ≡ ph.local_index)
    × (c.packets ≡ ph.pending_packets)
    × (cert : Certificate) × (c.host.cert ≡ some cert)
    × (verify lib cert pool now ≡ ok tt)

module _ (hashes : Hashes) (lib : Library) (proto : Protobuf) where
  pub open_envelope-verifies :
      (pool : List Certificate) (now : ℕ) (pkt : List ℕ) (e : Envelope)
      → open_envelope hashes lib proto pool now pkt ≡ ok e
      → (verify lib e.sender pool now ≡ ok tt) × (verify_hmac hashes e.message e.sender ≡ ok tt)
  unfolding open_envelope
  open_envelope-verifies pool now pkt e h = ground (arith, h)

  module _ {Cipher : Type 0} (noise : Noise Cipher) (can_write : Datagram → Bool) where
    stage1_completed-fields :
        (pool : List Certificate) (now : ℕ) (pkt : List ℕ) (ph : PendingHandshake (noise.State))
        (c : Completed Cipher)
        → stage1_completed hashes lib proto noise can_write pool now pkt ph ≡ ok c
        → CompletesPending lib pool now ph c
    unfolding stage1_completed
    stage1_completed-fields pool now pkt ph c h =
        let (envelope, opened, h1) = >>=-eq-ok (open_envelope hashes lib proto pool now pkt) _ h in
        let (read, _, h2) =
          >>=-eq-ok
            (or_err (noise.read_message ph.state envelope.message.noise_payload) noise_read_failed)
            _ h1 in
        let (ciphers, _, h3) = >>=-eq-ok (ciphers_from_states noise read.1 true) _ h2 in
        let checked = open_envelope-verifies pool now pkt envelope opened in
        subst (CompletesPending lib pool now ph) (ok_injective h3)
          (refl, refl, refl, refl, envelope.sender, refl, checked.0)

    answer_stage1-ok :
        (now : ℕ) (pkt : List ℕ) (idx : ℕ) (m : HandshakeManager (noise.State))
        (c : Completed Cipher)
        → (answer_stage1 hashes lib proto noise can_write now pkt idx m).1 ≡ ok c
        → (r : ℕ) × (ph : PendingHandshake (noise.State)) × (find_index idx m ≡ some (r, ph))
          × CompletesPending lib m.ca_pool now ph c
    unfolding answer_stage1
    answer_stage1-ok now pkt idx m c h = elim (Option-cases (find_index idx m)) [
      | inl missing ↦ absurd (ground (arith, missing, h))
      | inr ((r, ph), found) ↦
          (r, ph, found, stage1_completed-fields m.ca_pool now pkt ph c (ground (arith, found, h)))
    ]

    -- A response that `HandleStage1` accepts answers the pending handshake whose local index is the
    -- remote index of the packet's header. The session has that handshake's peer, address, index and
    -- queued packets, and a certificate that the CA pool verifies.
    pub handle_stage1-ok :
        (now : ℕ) (pkt : List ℕ) (m : HandshakeManager (noise.State)) (c : Completed Cipher)
        → (handle_stage1 hashes lib proto noise can_write now pkt m).1 ≡ ok c
        → (h : Header) × (r : ℕ) × (ph : PendingHandshake (noise.State)) × (parse_header pkt ≡ ok h)
          × (find_index h.remote_index m ≡ some (r, ph))
          × CompletesPending lib m.ca_pool now ph c
    unfolding handle_stage1
    handle_stage1-ok now pkt m c e = elim (Bool-cases (ltb (length pkt) header_len)) [
      | inl short ↦ absurd (ground (arith, short, e))
      | inr long ↦ elim (Result-cases (parse_header pkt)) [
        | inl (bad, failed) ↦ absurd (ground (arith, long, failed, e))
        | inr (h, parsed) ↦
            let (r, ph, found, fields) =
              answer_stage1-ok now pkt h.remote_index m c (ground (arith, long, parsed, e)) in
            (h, r, ph, parsed, found, fields)
      ]
    ]

    find_index-answer_stage1 :
        (now : ℕ) (pkt : List ℕ) (idx : ℕ) (m : HandshakeManager (noise.State))
        → find_index idx (answer_stage1 hashes lib proto noise can_write now pkt idx m).0 ≡ none
    unfolding answer_stage1 find_index leave
    find_index-answer_stage1 now pkt idx m = elim (Option-cases (find_index idx m)) [
      | inl missing ↦ rw (answer_stage1, missing) missing
      | inr ((r, ph), found) ↦
          rw (answer_stage1, found) (rw (lookup-delete idx idx m.index_map, =?_refl idx) refl)
    ]

    pub handle_stage1-parsed :
        (now : ℕ) (pkt : List ℕ) (h : Header) (m : HandshakeManager (noise.State))
        → header_len ≤ length pkt
        → parse_header pkt ≡ ok h
        → handle_stage1 hashes lib proto noise can_write now pkt m
          ≡ answer_stage1 hashes lib proto noise can_write now pkt h.remote_index m
    unfolding handle_stage1
    handle_stage1-parsed now pkt h m long parsed = ground (arith, long, parsed)

    answer_stage1-unknown :
        (now : ℕ) (pkt : List ℕ) (idx : ℕ) (m : HandshakeManager (noise.State))
        → find_index idx m ≡ none
        → (answer_stage1 hashes lib proto noise can_write now pkt idx m).1
          ≡ err (unknown_remote_index idx)
    unfolding answer_stage1
    answer_stage1-unknown now pkt idx m missing = rw (answer_stage1, missing) refl

    -- Of two responses whose headers parse to the same header, the second is refused with an unknown
    -- index, whether or not the first was accepted.
    pub handle_stage1-twice :
        (now later : ℕ) (pkt again : List ℕ) (h : Header) (m : HandshakeManager (noise.State))
        → header_len ≤ length again
        → header_len ≤ length pkt
        → parse_header pkt ≡ ok h
        → parse_header again ≡ ok h
        → let next = (handle_stage1 hashes lib proto noise can_write now pkt m).0 in
          (handle_stage1 hashes lib proto noise can_write later again next).1
          ≡ err (unknown_remote_index h.remote_index)
    handle_stage1-twice now later pkt again h m long_again long parsed parsed_again =
        let next = (handle_stage1 hashes lib proto noise can_write now pkt m).0 in
        let gone : find_index h.remote_index next ≡ none =
          ap (λ p. find_index h.remote_index p.0) (handle_stage1-parsed now pkt h m long parsed)
          ∙ find_index-answer_stage1 now pkt h.remote_index m in
        ap (λ p. p.1) (handle_stage1-parsed later again h next long_again parsed_again)
        ∙ answer_stage1-unknown later again h.remote_index next gone

    stage0_reply-verifies :
        (now : ℕ) (random : Option (List ℕ)) (pkt : List ℕ) (m : HandshakeManager (noise.State))
        (reply : Reply (noise.CipherState))
        → stage0_reply hashes lib proto noise can_write now random pkt m ≡ ok reply
        → verify lib reply.sender m.ca_pool now ≡ ok tt
    unfolding stage0_reply
    stage0_reply-verifies now random pkt m reply e =
        let (_, _, e1) =
          >>=-eq-ok (guard (leb header_len (length pkt)) (packet_too_short (length pkt))) _ e in
        let (_, _, e2) = >>=-eq-ok (map_err header_failed (parse_header pkt)) _ e1 in
        let (envelope, opened, e3) =
          >>=-eq-ok (open_envelope hashes lib proto m.ca_pool now pkt) _ e2 in
        let same : reply.sender ≡ envelope.sender = ground (arith, e3) in
        subst (λ s. verify lib s m.ca_pool now ≡ ok tt) (sym same)
          (open_envelope-verifies m.ca_pool now pkt envelope opened).0

    -- A session that `HandleStage0` completes is with the sender of the datagram, under the VPN IP of a
    -- certificate that the CA pool verifies, and starts with no queued packets; its reply was sent.
    pub handle_stage0-ok :
        (now : ℕ) (random : Option (List ℕ)) (pkt : List ℕ) (from : UdpAddr)
        (m : HandshakeManager (noise.State)) (c : Completed Cipher)
        → (handle_stage0 hashes lib proto noise can_write now random pkt from m).1 ≡ ok c
        → (cert : Certificate) × (bytes : List ℕ) × (verify lib cert m.ca_pool now ≡ ok tt)
          × (c.host.cert ≡ some cert)
          × (c.host.vpn_ip ≡ cert.vpn_ip.addr)
          × (c.host.remote ≡ from)
          × (c.packets ≡ [])
          × ((handle_stage0 hashes lib proto noise can_write now random pkt from m).0
              ≡ (bytes, from) ∷ [])
          × (can_write (bytes, from) ≡ true)
    unfolding handle_stage0 stage0_completed
    handle_stage0-ok now random pkt from m c e =
        elim (Result-cases (stage0_reply hashes lib proto noise can_write now random pkt m)) [
          | inl (bad, failed) ↦ absurd (ground (arith, failed, e))
          | inr (reply, made) ↦
              let completed : stage0_completed hashes lib proto noise can_write from reply ≡ ok c =
                ground (arith, made, e) in
              let (u, sent, e1) =
                >>=-eq-ok (guard (can_write (reply.bytes, from)) send_failed) _ completed in
              let (ciphers, _, e2) =
                >>=-eq-ok (ciphers_from_states noise reply.states false) _ e1 in
              let done = ok_injective e2 in
              (
                reply.sender,
                reply.bytes,
                stage0_reply-verifies now random pkt m reply made,
                ap (λ (x : Completed Cipher). x.host.cert) (sym done),
                ap (λ (x : Completed Cipher). x.host.vpn_ip) (sym done),
                ap (λ (x : Completed Cipher). x.host.remote) (sym done),
                ap (λ (x : Completed Cipher). x.packets) (sym done),
                rw (handle_stage0, made) refl,
                guard-eq-ok (can_write (reply.bytes, from)) send_failed sent,
              )
        ]
