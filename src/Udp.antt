-- ===== src/Udp.antt =====
-- udp/conn.go: the socket, which is bound with SO_REUSEPORT.
-- Package net and the system calls are the parameter `Sockets`.
use neth.Base.{ℕ, suc, Bool, ◌&&◌, ◌∷◌, ◌++◌, Option}
use neth.Base.Int.{ℤ, pos, negsuc}
use neth.Base.Text.{Text, text}
use neth.Base.Decimal.{itoa}

-- ListenConfig.ListenPacket with the network udp4, which calls the control function on a new
-- descriptor before it binds the address, and gives the descriptor and the port; RawConn.Control,
-- which says whether it called its function; and setsockopt with a level, a name and a value.
pub record Sockets : Type 0 where
  pub listen_packet : (ℕ → Bool) → Text → Option (ℕ × ℕ)
  pub raw_control : ℕ → Bool
  pub setsockopt_int : ℕ → ℕ → ℕ → ℕ → Bool

abbrev pub sol_socket : ℕ
sol_socket = 1

abbrev pub so_reuseport : ℕ
so_reuseport = 15

-- setReusePort
unfoldable pub set_reuse_port : Sockets → ℕ → Bool
set_reuse_port s fd = s.raw_control fd && s.setsockopt_int fd sol_socket so_reuseport 1

-- `%d` of an int.
unfoldable pub show_int : ℤ → Text
show_int (pos n) = itoa n
show_int (negsuc n) = b'-' ∷ itoa (suc n)

-- Listen
unfoldable pub listen : Sockets → Text → ℤ → Option (ℕ × ℕ)
listen s host port = s.listen_packet (set_reuse_port s) (host ++ text ":" ++ show_int port)
