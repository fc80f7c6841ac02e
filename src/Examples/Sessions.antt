-- ===== src/Examples/Sessions.antt =====
-- The handshake manager at concrete inputs.
use neth.Base.{
  ℕ, zero, suc, ◌+◌, ◌≡◌, refl, arith, Bool, true, List, [], ◌∷◌, ◌++◌, some, length, replicate, ok,
  err, nat_key, bytes_key,
}
use neth.Base.Assoc.{lookup, insert, delete}
use neth.Net.{ip4, UdpAddr, addr_key, no_addr}
use neth.Cert.{Certificate, parse as parse_cert, parse_der, read_extensions, verify, fingerprint}
use neth.Header.{Header, parse as parse_header, get_big_endian}
use neth.Handshake.{
  mac_of, parse_handshake_message, parse_details, verify_hmac, build_responder_message,
}
use neth.Noise.{DhKey, cipher_from_state, new_responder_state}
use neth.Punchy.{Datagram}
use neth.Manager.{
  PendingHandshake, HandshakeManager, new_handshake_manager, find_index, enter, leave, queue_packet,
  unknown_remote_index,
}
use neth.Manager.Invariant.{IsManager, new_handshake_manager-IsManager, enter-IsManager}
use neth.Manager.Pending.{enqueue_each, newest, enqueue_each-newest}
use neth.Manager.GivesUp.{GivesUp}
use neth.Manager.Runs.{
  Call, call_start, call_queue, call_retry, run, run-IsManager, find_index-queue_packet,
}
use neth.Manager.Sessions.{
  CompletesPending, handle_stage1-ok, handle_stage1-twice, handle_stage0-ok,
}
use neth.Manager.Packets.{
  Completed, new_host, ciphers_from_states, random_index, marshal_handshake_packet,
}
use neth.Manager.Stages.{
  open_envelope, stage1_completed, answer_stage1, handle_stage1, stage0_reply, stage0_completed,
  handle_stage0,
}
use neth.Examples.Certificates.{node}
use neth.Examples.Instances.{plain_library, plain_protobuf, length_hashes, counting_noise}

abbrev key : DhKey
key = record { private_key = []; public_key = [] }

abbrev remote : UdpAddr
remote = record { ip = 10 ∷ 0 ∷ 0 ∷ 1 ∷ []; port = 4242 }

abbrev always : Datagram → Bool
always d = true

-- A handshake with one packet in its queue.
abbrev started : PendingHandshake ℕ
started = record {
  state = 1;
  local_index = 4;
  remote_vpn_ip = ip4 1;
  remote_addr = remote;
  pending_packets = (65 ∷ []) ∷ [];
  attempts = 1;
  next_retry = 500;
  stage0msg = 33 ∷ [];
}

abbrev idle : HandshakeManager ℕ
idle = new_handshake_manager node key []

abbrev waiting : HandshakeManager ℕ
waiting = enter (ip4 1) started idle

waiting-IsManager : IsManager waiting
unfolding new_handshake_manager lookup
waiting-IsManager = enter-IsManager started idle refl (new_handshake_manager-IsManager node key [])

waiting-found : find_index 4 waiting ≡ some (0, started)
unfolding find_index enter new_handshake_manager lookup insert
waiting-found = refl

abbrev calls : List Call
calls =
    call_start 0 (some (4 ∷ 0 ∷ 0 ∷ 0 ∷ [])) (ip4 1) remote node
    ∷ call_queue (ip4 1) (65 ∷ [])
    ∷ call_retry 900000000
    ∷ []

run-IsManager_example : IsManager (
    run length_hashes plain_library plain_protobuf counting_noise always calls
      (new_handshake_manager node key []))
run-IsManager_example =
    run-IsManager length_hashes plain_library plain_protobuf counting_noise always node key [] calls

find_index-queue_packet_example :
    find_index 4 (queue_packet (ip4 1) (66 ∷ []) waiting)
    ≡ some
        (0, record started { pending_packets = newest (started.pending_packets ++ (66 ∷ []) ∷ []) })
find_index-queue_packet_example =
    find_index-queue_packet (66 ∷ []) 4 0 started waiting waiting-IsManager waiting-found
      (omega arith)

enqueue_each-newest_example :
    enqueue_each (replicate 49 (1 ∷ [])) ((2 ∷ []) ∷ (3 ∷ []) ∷ [])
    ≡ newest (replicate 49 (1 ∷ []) ++ ((2 ∷ []) ∷ (3 ∷ []) ∷ []))
enqueue_each-newest_example =
    enqueue_each-newest (replicate 49 (1 ∷ [])) ((2 ∷ []) ∷ (3 ∷ []) ∷ []) (omega arith)

-- The ticks of a ticker.
ticks_after : ℕ → ℕ → ℕ → List ℕ
ticks_after gap zero prev = []
ticks_after gap (suc n) prev = (prev + gap) ∷ ticks_after gap n (prev + gap)

-- Ten ticks a second.
abbrev ticker_gap : ℕ
ticker_gap = 100000000

abbrev ticks : List ℕ
ticks = ticks_after ticker_gap 2000 0

-- The response of the peer whose certificate is `node`.
abbrev details : List ℕ
details =
    4 ∷ 8 ∷ 77 ∷ (11 ∷ (67 ∷ 69 ∷ 82 ∷ 84 ∷ 73 ∷ 70 ∷ 73 ∷ 67 ∷ 65 ∷ 84 ∷ 69 ∷ 1 ∷ 2 ∷ 3 ∷ []))

abbrev tag : List ℕ
tag = replicate 32 3 ++ (details ++ (6 ∷ []))

abbrev body : List ℕ
body = length details ∷ (details ++ (1 ∷ 6 ∷ tag))

abbrev wire : ℕ → List ℕ
wire sub_type = 16 ∷ sub_type ∷ 0 ∷ 0 ∷ 0 ∷ 0 ∷ 0 ∷ 4 ∷ 0 ∷ 0 ∷ 0 ∷ 0 ∷ 0 ∷ 0 ∷ 0 ∷ 0 ∷ body

abbrev session : Completed ℕ
session = record { host = new_host (ip4 1) remote 4 8 (7, 8) node; packets = (65 ∷ []) ∷ [] }

response_header : Header
response_header = record {
  version = 1;
  type = 0;
  sub_type = 1;
  remote_index = 4;
  message_counter = 0;
}

response_accepted :
    (handle_stage1 length_hashes plain_library plain_protobuf counting_noise always 50
      (wire 1)
      waiting).1
    ≡ ok session
unfolding handle_stage1 answer_stage1 stage1_completed open_envelope find_index enter
    new_handshake_manager lookup insert parse_header get_big_endian parse_handshake_message
    parse_details parse_cert parse_der read_extensions verify verify_hmac mac_of fingerprint
    ciphers_from_states cipher_from_state leave delete
response_accepted = refl

handle_stage1-ok_example :
    (h : Header) × (r : ℕ) × (ph : PendingHandshake ℕ) × (parse_header (wire 1) ≡ ok h)
    × (find_index h.remote_index waiting ≡ some (r, ph))
    × CompletesPending plain_library [] 50 ph session
unfolding new_handshake_manager enter
handle_stage1-ok_example =
    handle_stage1-ok length_hashes plain_library plain_protobuf counting_noise always 50 (wire 1)
      waiting session response_accepted

response_parsed : parse_header (wire 1) ≡ ok response_header
unfolding parse_header get_big_endian response_header
response_parsed = refl

handle_stage1-twice_example :
    (handle_stage1 length_hashes plain_library plain_protobuf counting_noise always 60
      (wire 1)
      (handle_stage1 length_hashes plain_library plain_protobuf counting_noise always 50
        (wire 1)
        waiting).0).1
    ≡ err (unknown_remote_index 4)
unfolding response_header
handle_stage1-twice_example =
    handle_stage1-twice length_hashes plain_library plain_protobuf counting_noise always 50 60
      (wire 1) (wire 1) response_header waiting (ground arith) (ground arith) response_parsed
      response_parsed

-- The session that the responder completes.
abbrev responder_session : Completed ℕ
responder_session = record { host = new_host no_addr remote 9 4 (8, 7) node; packets = [] }

initiation_accepted :
    (handle_stage0 length_hashes plain_library plain_protobuf counting_noise always 50
      (some (9 ∷ 0 ∷ 0 ∷ 0 ∷ []))
      (wire 0)
      remote
      idle).1
    ≡ ok responder_session
unfolding handle_stage0 stage0_reply stage0_completed open_envelope new_handshake_manager
    parse_header get_big_endian parse_handshake_message parse_details parse_cert parse_der
    read_extensions verify verify_hmac mac_of fingerprint ciphers_from_states cipher_from_state
    new_responder_state random_index build_responder_message marshal_handshake_packet
initiation_accepted = refl

handle_stage0-ok_example :
    (cert : Certificate) × (bytes : List ℕ) × (verify plain_library cert (idle.ca_pool) 50 ≡ ok tt)
    × (responder_session.host.cert ≡ some cert)
    × (responder_session.host.vpn_ip ≡ cert.vpn_ip.addr)
    × (responder_session.host.remote ≡ remote)
    × (responder_session.packets ≡ [])
    × ((handle_stage0 length_hashes plain_library plain_protobuf counting_noise always 50
          (some (9 ∷ 0 ∷ 0 ∷ 0 ∷ []))
          (wire 0)
          remote
          idle).0
        ≡ (bytes, remote) ∷ [])
    × (always (bytes, remote) ≡ true)
handle_stage0-ok_example =
    handle_stage0-ok length_hashes plain_library plain_protobuf counting_noise always 50
      (some (9 ∷ 0 ∷ 0 ∷ 0 ∷ [])) (wire 0) remote idle responder_session initiation_accepted
