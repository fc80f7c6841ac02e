-- ===== src/Interface/Once.antt =====
-- interface.go: packets that come more than once.
use neth.Base.{
  ℕ, ◌≡◌, sym, ap, subst, ◌∙◌, Bool, false, List, [], ◌∷◌, Option, some, nat_key, ok, ok_injective,
}
use neth.Base.Assoc.{lookup-insert_self}
use neth.Net.{UdpAddr}
use neth.Crypto.{Aead, Hashes}
use neth.Cert.{Certificate}
use neth.Cert as Certs
use neth.Header.{Header, parse as parse_header}
use neth.Replay.{check_replay}
use neth.Replay.Shift.{IsWindow}
use neth.Replay.Check.{check_replay-IsWindow}
use neth.Replay.History.{accepted-Spent, Spent-check_replay}
use neth.HostMap.{HostInfo, get_by_index, write_host}
use neth.HostMap.Laws.{IsHostMap}
use neth.Firewall.{expiry_tick}
use neth.Handshake.{Protobuf}
use neth.Noise.{Noise}
use neth.Punchy.{Datagram}
use neth.LightHouse as Lights
use neth.Manager.Retry.{retry_pending}
use neth.Interface.{Effect, Interface}
use neth.Interface.Packets.{consume_outside_packet, consume_inside_packet}
use neth.Interface.Effects.{Delivers}
use neth.Interface.Safety.{consume_outside_packet-Delivers}
use neth.Interface.Spent.{IsSpent}
use neth.Interface.Handlers.{deref-eq}
use neth.Interface.Keeps.{consume_outside_packet-IsSpent, consume_inside_packet-IsSpent}
use neth.Interface.Messages.{deref-ref, parsed-dispatch, is_message, message-hostmap}

-- What can happen to an interface: a packet from either side, with the bytes that are drawn for it,
-- and the ticks of the two goroutines.
pub data Event : Type 0 where
  inside : ℕ → Option (List ℕ) → List ℕ → Event
  outside : ℕ → Option (List ℕ) → List ℕ → UdpAddr → Event
  retries expires : ℕ → Event

found_once :
    {V : Type 0} {p q : ℕ} {v w : V} → ◌≡◌ {A = Option (ℕ × V)} (some (p, v)) (some (q, w)) → v ≡ w
found_once h = cc

found_same : {V : Type 0} {v w : V} → ◌≡◌ {A = Option V} (some v) (some w) → v ≡ w
found_same h = cc

module _ (hashes : Hashes) (lib : Certs.Library) (proto : Protobuf) (lights : Lights.Library) where
  module _ (aead : Aead) (noise : Noise (aead.Cipher)) (can_write : Datagram → Bool) where
    unfoldable pub step :
        Event → Interface (aead.Cipher) (noise.State) → Interface (aead.Cipher) (noise.State)
    step (inside now random pkt) i =
        (consume_inside_packet hashes lib proto lights aead noise can_write now random pkt i).0
    step (outside now random pkt from) i =
        (consume_outside_packet hashes lib proto lights aead noise can_write now random pkt from
          i).0
    step (retries now) i = record i { handshake_mgr = (retry_pending now i.handshake_mgr).0 }
    step (expires now) i = record i { fw = expiry_tick now i.fw }

    unfoldable pub run :
        List Event → Interface (aead.Cipher) (noise.State) → Interface (aead.Cipher) (noise.State)
    run [] i = i
    run (e ∷ events) i = run events (step e i)

    step-IsSpent :
        (r c : ℕ) (e : Event) (i : Interface (aead.Cipher) (noise.State))
        → IsSpent r c i.hostmap
        → IsSpent r c (step e i).hostmap
    unfolding step
    step-IsSpent r c (inside now random pkt) i s =
        consume_inside_packet-IsSpent hashes lib proto lights aead noise can_write r c now random
          pkt i s
    step-IsSpent r c (outside now random pkt from) i s =
        consume_outside_packet-IsSpent hashes lib proto lights aead noise can_write r c now random
          pkt from i s
    step-IsSpent r c (retries now) i s = s
    step-IsSpent r c (expires now) i s = s

    run-IsSpent :
        (r c : ℕ) (events : List Event) (i : Interface (aead.Cipher) (noise.State))
        → IsSpent r c i.hostmap
        → IsSpent r c (run events i).hostmap
    unfolding run
    run-IsSpent r c [] i s = s
    run-IsSpent r c (e ∷ events) i s = run-IsSpent r c events (step e i) (step-IsSpent r c e i s)

    -- A counter is spent on the session object once a packet with it was delivered.
    delivered-IsSpent :
        (now : ℕ) (random : Option (List ℕ)) (pkt plaintext : List ℕ) (from : UdpAddr)
        (hdr : Header) (r : ℕ) (host : HostInfo (aead.Cipher) Certificate)
        (i : Interface (aead.Cipher) (noise.State))
        → IsHostMap i.hostmap
        → parse_header pkt ≡ ok hdr
        → get_by_index hdr.remote_index i.hostmap ≡ some (r, host)
        → IsWindow host.replay.window
        → Delivers plaintext
            (consume_outside_packet hashes lib proto lights aead noise can_write now random pkt from
              i).1
        → IsSpent r hdr.message_counter
            (consume_outside_packet hashes lib proto lights aead noise can_write now random pkt from
              i).0.hostmap
    unfolding get_by_index write_host
    delivered-IsSpent now random pkt plaintext from hdr r host i valid parsed known window d =
        let (hdr', parsed', may) =
          consume_outside_packet-Delivers hashes lib proto lights aead noise can_write now random
            from pkt plaintext i d in
        let (q, host', src, known', fresh, _, _, _) = may in
        let same_hdr : hdr' ≡ hdr = ok_injective (sym parsed' ∙ parsed) in
        let same_host : host' ≡ host = found_once (
          sym known'
          ∙ ap (λ (x : Header). get_by_index x.remote_index i.hostmap) same_hdr
          ∙ known) in
        let fresh_here : (check_replay host.replay hdr.message_counter).1 ≡ false =
          subst
            (λ (x : HostInfo (aead.Cipher) Certificate).
              (check_replay x.replay hdr.message_counter).1 ≡ false)
            same_host
            (subst (λ (x : Header). (check_replay host'.replay x.message_counter).1 ≡ false)
              same_hdr fresh) in
        let handed =
          parsed-dispatch hashes lib proto lights aead noise can_write now random pkt from hdr i
            parsed in
        let message =
          is_message hashes lib proto lights aead noise can_write now random pkt plaintext from hdr
            i
            (subst
              (λ (out : Interface (aead.Cipher) (noise.State) × List Effect).
                Delivers plaintext out.1)
              handed d) in
        let by_index = deref-ref i.hostmap.hosts _ r host known in
        let (_, _, _, older) = valid.by_idx hdr.remote_index r by_index in
        let whole =
          message-hostmap hashes lib proto lights aead noise can_write now random pkt from hdr r
            host i parsed message known in
        subst (IsSpent r hdr.message_counter) (sym whole) (record {
          older = older;
          host = record host { replay = (check_replay host.replay hdr.message_counter).0 };
          is_there = lookup-insert_self r _ i.hostmap.hosts;
          is_window = check_replay-IsWindow host.replay hdr.message_counter window;
          is_spent = accepted-Spent host.replay hdr.message_counter window fresh_here;
        })

    -- Once a packet was written to the TUN device, no packet with the same counter is, for the same
    -- session: not after any sequence of packets from both sides and of the ticks of the two
    -- goroutines, as long as the index that the later packet names still leads to that session. The
    -- session was reached by the first packet's index in a consistent registry, as its operations keep
    -- it, and its window is an array of 64 words.
    pub consume_outside_packet_once :
        (now later : ℕ) (random random' : Option (List ℕ)) (pkt pkt' plaintext plaintext' : List ℕ)
        (from from' : UdpAddr) (hdr hdr' : Header) (r : ℕ)
        (host host' : HostInfo (aead.Cipher) Certificate) (events : List Event)
        (i : Interface (aead.Cipher) (noise.State))
        → IsHostMap i.hostmap
        → parse_header pkt ≡ ok hdr
        → get_by_index hdr.remote_index i.hostmap ≡ some (r, host)
        → IsWindow host.replay.window
        → Delivers plaintext
            (consume_outside_packet hashes lib proto lights aead noise can_write now random pkt from
              i).1
        → parse_header pkt' ≡ ok hdr'
        → hdr'.message_counter ≡ hdr.message_counter
        → get_by_index hdr'.remote_index (run (outside now random pkt from ∷ events) i).hostmap
          ≡ some (r, host')
        → ¬ Delivers plaintext'
            (consume_outside_packet hashes lib proto lights aead noise can_write later random' pkt'
              from'
              (run (outside now random pkt from ∷ events) i)).1
    unfolding run step get_by_index
    consume_outside_packet_once now later random random' pkt pkt' plaintext plaintext' from from'
          hdr hdr' r host host' events i valid parsed known window d parsed' same_counter known'
          again =
        let start =
          (consume_outside_packet hashes lib proto lights aead noise can_write now random pkt from
            i).0 in
        let end = run events start in
        let spent : IsSpent r hdr.message_counter end.hostmap =
          run-IsSpent r hdr.message_counter events start (
            delivered-IsSpent now random pkt plaintext from hdr r host i valid parsed known window
              d) in
        let (h, h_parsed, may) =
          consume_outside_packet-Delivers hashes lib proto lights aead noise can_write later random'
            from' pkt' plaintext' end again in
        let (q, found, src, h_known, fresh, _, _, _) = may in
        let same_hdr : h ≡ hdr' = ok_injective (sym h_parsed ∙ parsed') in
        let same_found : found ≡ host' = found_once (
          sym h_known
          ∙ ap (λ (x : Header). get_by_index x.remote_index end.hostmap) same_hdr
          ∙ known') in
        let there : found ≡ spent.host =
          same_found
          ∙ found_same (sym (deref-eq end.hostmap.hosts _ r host' known') ∙ spent.is_there) in
        let counter : h.message_counter ≡ hdr.message_counter =
          ap (λ (x : Header). x.message_counter) same_hdr ∙ same_counter in
        let refused = Spent-check_replay spent.host.replay hdr.message_counter spent.is_spent in
        let accepted : (check_replay spent.host.replay hdr.message_counter).1 ≡ false =
          subst
            (λ (x : HostInfo (aead.Cipher) Certificate).
              (check_replay x.replay hdr.message_counter).1 ≡ false)
            there (subst (λ (n : ℕ). (check_replay found.replay n).1 ≡ false) counter fresh) in
        cc (refused, accepted)
