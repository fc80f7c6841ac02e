-- ===== src/Interface/Serving.antt =====
-- interface.go: readFromUDP on the datagrams of a session, until the context is done.
use neth.Base.{
  ℕ, zero, suc, ◌+◌, ◌%◌, ◌^◌, ◌≤◌, ◌<◌, ◌≡◌, refl, sym, ap, subst, ◌∙◌, arith, Bool, true, false,
  List, [], ◌∷◌, map, length, take, Option, none, some, All,
}
use neth.Net.{UdpAddr}
use neth.Crypto.{Aead, Hashes}
use neth.Cert.{Certificate}
use neth.Cert as Certs
use neth.HostMap.{HostInfo, get_by_index}
use neth.Handshake.{Protobuf}
use neth.Noise.{Noise}
use neth.Punchy.{Datagram}
use neth.LightHouse as Lights
use neth.Packet.{proto_from_ipv4, dst_port_from_ipv4}
use neth.Interface.{
  Effect, sends, writes_tun, Interface, groups_of, message_packet, send_to_remote, send_pending,
}
use neth.Interface.Packets.{consume_outside_packet}
use neth.Interface.Delivery.{consume_outside_packet-message_packet}
use neth.Interface.Stream.{
  Passes, Ready, after_packet-Ready, check_replay-above, matching-allow_inbound,
}
use neth.Interface.Rounds.{
  Round, prepend, read_loop, read_loop-done, read_loop-failed, read_loop-got,
}
use neth.Interface.Loops.{udp_round, udp_read_buf_size, read_from_udp}

-- What the rounds of the loop meet from one of them on: reads that fail while the context is not
-- done, reads of a datagram that fits the buffer, and at last a context that is done.
abbrev pub Meets : (ℕ → Round (List ℕ × UdpAddr)) → UdpAddr → ℕ → List (Option (List ℕ)) → Type 0
Meets rounds from k [] = (rounds k).done ≡ true
Meets rounds from k (none ∷ reads) =
    ((rounds k).done ≡ false)
    × (((rounds k).read ≡ none)
        × (((rounds k).done_after ≡ false) × Meets rounds from (suc k) reads))
Meets rounds from k (some pkt ∷ reads) =
    ((rounds k).done ≡ false)
    × (((rounds k).read ≡ some (pkt, from))
        × ((length pkt ≤ 65535) × Meets rounds from (suc k) reads))

-- The datagrams that were read.
abbrev pub arrived : List (Option (List ℕ)) → List (List ℕ)
arrived [] = []
arrived (none ∷ reads) = arrived reads
arrived (some pkt ∷ reads) = pkt ∷ arrived reads

take_whole : (n : ℕ) (xs : List ℕ) → length xs ≤ n → take n xs ≡ xs
take_whole zero [] h = refl
take_whole zero (x ∷ xs) h = absurd (omega arith)
take_whole (suc n) [] h = refl
take_whole (suc n) (x ∷ xs) h = ap (◌∷◌ x) (take_whole n xs (omega arith))

-- Between two rounds, the other goroutines touch neither the sessions nor the firewall.
abbrev pub KeepsSessions : {A S : Type 0} → (ℕ → Interface A S → Interface A S) → Type 0
KeepsSessions {A} {S} others =
    (k : ℕ) (i : Interface A S) → ((others k i).hostmap ≡ i.hostmap) × ((others k i).fw ≡ i.fw)

module _ (hashes : Hashes) (lib : Certs.Library) (proto : Protobuf) (lights : Lights.Library) where
  module _ (aead : Aead) (noise : Noise (aead.Cipher)) (can_write : Datagram → Bool) where
    module _ (now : ℕ → ℕ) (random : ℕ → Option (List ℕ)) where
      module _
          (others : ℕ
            → Interface (aead.Cipher) (noise.State)
            → Interface (aead.Cipher) (noise.State)) where
        still-Ready :
            (sender host : HostInfo (aead.Cipher) Certificate) (r : ℕ)
            (i j : Interface (aead.Cipher) (noise.State))
            → j.hostmap ≡ i.hostmap
            → Ready hashes lib proto lights aead noise can_write sender host r i
            → Ready hashes lib proto lights aead noise can_write sender host r j
        still-Ready sender host r i j kept ready = record {
          known =
              subst (λ m. get_by_index sender.remote_index m ≡ some (r, host)) (sym kept)
                ready.known;
          keys = ready.keys;
          behind = ready.behind;
        }

        -- The loop returns, and has written the packets to the TUN device.
        abbrev pub Writes :
            List (List ℕ) → Option (Interface (aead.Cipher) (noise.State) × List Effect) → Type 0
        Writes pkts result =
            (last : Interface (aead.Cipher) (noise.State)) × (result
              ≡ some (last, map writes_tun pkts))

        Writes-more :
            (pkt : List ℕ) (pkts : List (List ℕ)) (sent : List Effect)
            (result : Option (Interface (aead.Cipher) (noise.State) × List Effect))
            → sent ≡ writes_tun pkt ∷ []
            → Writes pkts result
            → Writes (pkt ∷ pkts) (prepend sent result)
        Writes-more pkt pkts sent result one (last, e) = (last, rw one (rw e refl))

        reads_from :
            (k fuel : ℕ) (rounds : ℕ → Round (List ℕ × UdpAddr)) (reads : List (Option (List ℕ)))
            (from to : UdpAddr) (q r : ℕ) (sender host : HostInfo (aead.Cipher) Certificate)
            (pkts : List (List ℕ)) (s i : Interface (aead.Cipher) (noise.State))
            → Meets rounds from k reads
            → length reads < fuel
            → (send_pending aead q sender pkts s).1 ≡ map (λ d. sends (d, to)) (arrived reads)
            → KeepsSessions others
            → sender.remote_index < 2 ^ 32
            → sender.counter + length pkts < 2 ^ 64
            → Ready hashes lib proto lights aead noise can_write sender host r i
            → All (Passes i.fw.inbound (groups_of host.cert)) pkts
            → Writes pkts (
                read_loop rounds others
                  (udp_round hashes lib proto lights aead noise can_write now random)
                  fuel
                  k
                  i)
        unfolding send_pending send_to_remote udp_round
        reads_from k zero rounds reads from to q r sender host pkts s i meets enough same keeps
              small room ready all =
            absurd (omega arith)
        reads_from k (suc fuel) rounds [] from to q r sender host [] s i meets enough same keeps
              small room ready all =
            (i, read_loop-done rounds others _ fuel k i meets)
        reads_from k (suc fuel) rounds [] from to q r sender host (pkt ∷ pkts) s i meets enough same
              keeps small room ready all =
            cc
        reads_from k (suc fuel) rounds (none ∷ reads) from to q r sender host pkts s i
              (running, (failed, (not_after, meets))) enough same keeps small room ready all =
            subst (Writes pkts)
              (sym (read_loop-failed rounds others _ fuel k i running failed not_after))
              (reads_from (suc k) fuel rounds reads from to q r sender host pkts s (others k i)
                meets (omega arith) same keeps small room
                (still-Ready sender host r i (others k i) (keeps k i).0 ready)
                (subst (λ f. All (Passes f.inbound (groups_of host.cert)) pkts) (sym (keeps k i).1)
                  all))
        reads_from k (suc fuel) rounds (some d ∷ reads) from to q r sender host [] s i meets enough
              same keeps small room ready all =
            cc
        reads_from k (suc fuel) rounds (some d ∷ reads) from to q r sender host (pkt ∷ pkts) s i
              (running, (got, (fits, meets))) enough same keeps small room ready
              ((src, is_ipv4, matched), all) =
            let round = udp_round hashes lib proto lights aead noise can_write now random in
            let consume : List ℕ → Interface (aead.Cipher) (noise.State) × List Effect = λ p.
              consume_outside_packet hashes lib proto lights aead noise can_write (now k) (random k)
                p from i in
            let after = consume (message_packet aead sender pkt) in
            let is_packet : message_packet aead sender pkt ≡ d = cc in
            let whole : round k (d, from) i ≡ after =
              ap consume (take_whole udp_read_buf_size d fits ∙ sym is_packet) in
            let (fresh, _) =
              check_replay-above host.replay ((sender.counter + 1) % 2 ^ 64)
                (omega (arith, ready.behind, room)) in
            let allowed =
              matching-allow_inbound (now k) src (groups_of host.cert) (dst_port_from_ipv4 pkt)
                (proto_from_ipv4 pkt) i.fw matched in
            let first =
              consume_outside_packet-message_packet hashes lib proto lights aead noise can_write
                (now k) (random k) from r sender host pkt src i small ready.known ready.keys fresh
                is_ipv4 allowed in
            let (host', ready', same_cert, same_rules) =
              after_packet-Ready hashes lib proto lights aead noise can_write (now k) (random k)
                from sender host r pkt i small (omega (arith, room)) ready in
            let (kept, kept_rules) = keeps k after.0 in
            let rest =
              reads_from (suc k) fuel rounds reads from to q r
                (record sender { counter = (sender.counter + 1) % 2 ^ 64 }) host' pkts
                (send_to_remote aead q sender pkt s).0 (others k after.0) meets (omega arith) (cc)
                keeps small (omega (arith, room))
                (still-Ready _ host' r after.0 (others k after.0) kept ready')
                (subst (λ f. All (Passes f.inbound (groups_of host'.cert)) pkts) (sym kept_rules)
                  (subst (λ rules. All (Passes rules (groups_of host'.cert)) pkts) (sym same_rules)
                    (subst (λ c. All (Passes i.fw.inbound (groups_of c)) pkts) (sym same_cert)
                      all))) in
            subst (Writes (pkt ∷ pkts))
              (sym (
                read_loop-got rounds others round fuel k i (d, from) running got
                ∙ ap (λ h. prepend h.1 (read_loop rounds others round fuel (suc k) (others k h.0)))
                    whole))
              (Writes-more pkt pkts after.1 _ first rest)

        -- The loop that reads the UDP socket returns when the context is done, and until then it
        -- writes to the TUN device, unchanged and in order, all the packets that were sent one after
        -- the other through a session and arrive in order, and nothing else; reads that fail are
        -- skipped. The receiver has the session under the index that the sender knows, with the
        -- sender's send cipher as its receive cipher and no newer counter in its window; every packet
        -- is IPv4 and an inbound rule lets it in; the counters stay below 2^64; each datagram fits the
        -- buffer of 65535 bytes; and the other goroutines leave the sessions and the firewall alone.
        -- Fuel above the number of reads is enough.
        pub read_from_udp-send_pending :
            (rounds : ℕ → Round (List ℕ × UdpAddr)) (fuel : ℕ) (reads : List (Option (List ℕ)))
            (from to : UdpAddr) (q r : ℕ) (sender host : HostInfo (aead.Cipher) Certificate)
            (pkts : List (List ℕ)) (s i : Interface (aead.Cipher) (noise.State))
            → Meets rounds from 0 reads
            → length reads < fuel
            → (send_pending aead q sender pkts s).1 ≡ map (λ d. sends (d, to)) (arrived reads)
            → KeepsSessions others
            → sender.remote_index < 2 ^ 32
            → sender.counter + length pkts < 2 ^ 64
            → get_by_index sender.remote_index i.hostmap ≡ some (r, host)
            → host.recv_cipher ≡ sender.send_cipher
            → host.replay.window_end ≤ sender.counter
            → All (Passes i.fw.inbound (groups_of host.cert)) pkts
            → (last : Interface (aead.Cipher) (noise.State)) × (read_from_udp hashes lib proto
                  lights aead noise can_write now random others rounds fuel i
                ≡ some (last, map writes_tun pkts))
        unfolding read_from_udp
        read_from_udp-send_pending rounds fuel reads from to q r sender host pkts s i meets enough
              same keeps small room known keys behind all =
            reads_from 0 fuel rounds reads from to q r sender host pkts s i meets enough same keeps
              small room (record { known = known; keys = keys; behind = behind }) all
