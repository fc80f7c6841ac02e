-- ===== src/Punchy.antt =====
-- punchy.go: hole punching with empty datagrams.
-- What is written to the socket is the list of datagrams, in order; the results of the writes are
-- dropped, as in the source.
use neth.Base.{ℕ, Bool, List, [], ◌∷◌, map, if◌then◌else◌}
use neth.Net.{UdpAddr}

-- A payload and where it is sent.
abbrev pub Datagram : Type 0
Datagram = List ℕ × UdpAddr

pub record Punchy : Type 0 where
  pub punch : Bool
  pub respond : Bool

-- Punch
unfoldable pub punch : Punchy → List UdpAddr → List Datagram
punch p remotes = if p.punch then map (λ (r : UdpAddr). ([], r)) remotes else []

-- RespondToPunch
unfoldable pub respond_to_punch : Punchy → UdpAddr → List Datagram
respond_to_punch p from = if p.respond then ([], from) ∷ [] else []
