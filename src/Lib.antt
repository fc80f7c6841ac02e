-- ===== src/Lib.antt =====
-- neth: a mesh VPN daemon in Go, modelled as functions on values.
--
-- A node reads IPv4 packets from its TUN device, asks its firewall, and sends them encrypted to
-- the peer's session; packets from the UDP socket take the way back. Sessions come from a Noise
-- handshake that carries the certificates of both sides, and physical addresses come from
-- lighthouses. The files of this development follow those of the repository:
--   Header      header/header.go: the header in front of every packet, Encode, Parse and Bytes
--   Replay      hostmap.go: HostInfo.CheckReplay and shiftWindow
--   HostMap     hostmap.go: HostInfo and the registry HostMap
--   Firewall    firewall/: Firewall, with Rules for rule.go and Tracking for conntrack.go
--   Config      config/config.go: Load, setDefaults and Validate
--   Cert        cert/: the extensions, Parse, PEM, Verify, VerifyCA and the extensions of Sign, with
--               Keys for keys.go and Issue for GenerateCA and Sign of ca.go
--   NoiseUtil   noiseutil/aead.go: CounterNonce, Encrypt and Decrypt
--   Noise       handshake/noise.go and CipherFromState
--   Handshake   handshake/handshake.go: the pre-shared key and the messages
--   Punchy      punchy.go
--   LightHouse  lighthouse.go: the registry of addresses and the message handlers
--   Manager     handshake_manager.go: the state and QueuePacket, with Packets and Stages for
--               StartHandshake, HandleStage0 and HandleStage1, and Retry for retryPending
--   Files, Pki  pki.go: LoadPKI, and the file system
--   Tun, Udp    tun/tun.go: Open and the requests to the kernel; udp/conn.go: Listen
--   Packet      interface.go: the fields read from an IPv4 packet
--   Interface   interface.go: the handlers and sendToRemote, with Packets for consumeInsidePacket
--               and consumeOutsidePacket, Builders for what NewInterface builds, Start for
--               NewInterface, and Rounds and Loops for readFromTUN and readFromUDP
--   Commands    cmd/neth-cert/main.go in Groups, Shell and NethCert; cmd/nethd/main.go in Nethd
-- Base, Bits, Net and Crypto are shared: lists, maps, results and texts; the bit operations; the
-- types of net and net/netip; the interfaces of ciphers and hashes. The modules below each of
-- the others prove what their names say. Examples runs everything at concrete inputs.
--
-- A function of the source has the same name here, in lower case with underscores. State is
-- passed and returned; a method under a lock is one step. Objects that several maps point to
-- (HostInfo, pendingHandshake) stand in a store under a reference, which the maps hold, so that
-- a write through one map is seen through the other. Errors are data types, one constructor for
-- each message. What goes to the socket or to the TUN device is a list, in order. Times are
-- numbers of nanoseconds, and the clock, the bytes of crypto/rand and the outcome of a write to
-- the socket are arguments. Bytes are numbers, and integers of a fixed width wrap where the
-- source's would. Go visits a map in any order; the models visit a list. Loops run over lists or
-- down from a constant; only the two read loops, which end when the context is done, take fuel:
-- more than the number of rounds until then is enough. A handler reads the clock once, and every
-- reading inside it is that time. Texts are the bytes of ASCII strings: trimming and lower case,
-- which Go does for Unicode, are those of ASCII here.
--
-- Not under the repository, and so parameters: crypto/x509, encoding/pem, encoding/asn1,
-- protobuf, flynn/noise, AES-GCM, SHA-256, HMAC, ed25519, curve25519, YAML, the file system,
-- flags, the kernel, and Go's texts of addresses and times. What is assumed of them is a round
-- trip, a length, that descriptors differ, that a file system keeps its files, and, of
-- crypto/x509, that a created certificate keeps the extensions and the CA flag of its template,
-- and that it verifies in its dates against the CA whose own key signed it, when the CA's key
-- usage allows issuing, the CA verifies itself at that time, the template is not a CA and has
-- no extensions but neth's, and the new key is not the CA's. Each is a field of a record that
-- Examples fills. The kernel's and the files' answers are arguments, and the system calls a
-- list, in order.
--
-- Not modelled: goroutines and tickers, whose ticks are single steps here; the methods of tun/
-- and udp/ that only pass a call on; nethpb/, which is generated; logging.
mod Base
mod Bits
pub mod Net
pub mod Replay
pub mod Header
pub mod HostMap
pub mod Firewall
pub mod Crypto
pub mod Cert
pub mod Config
pub mod NoiseUtil
pub mod Handshake
pub mod Punchy
pub mod LightHouse
pub mod Packet
pub mod Noise
pub mod Manager
pub mod Udp
pub mod Tun
pub mod Files
pub mod Pki
pub mod Interface
pub mod Commands
mod Examples
