-- ===== src/Socket.antt =====
-- util/socket.hh and util/socket.cc: what the operations of a socket do to its descriptor. What a system call returns is
-- an argument. Addresses and options, which only go to the system and come from it, are not modelled.
use computer_networking.Prelude.{ℕ, ◌&&◌, Option, none, some, List, [], length, ltb, if◌then◌else◌}
use computer_networking.FileDescriptor.{
  FdWrapper, Returned, Outcome, check_system_call, register_read, register_write, read_buffer_size,
}

-- `Socket::bind`, `Socket::connect` and `TCPSocket::listen`: the system call, and no change of the descriptor.
abbrev pub checked : FdWrapper → Option ℕ → Outcome (Unit {0})
checked w none = (w, none)
checked w (some n) = (w, some tt)

unfoldable pub connect : Returned ℕ → FdWrapper → Outcome (Unit {0})
connect r w = checked w (check_system_call r w)

-- The ways to shut a socket down.
pub data How : Type 0 where
  shut_rd : How
  shut_wr : How
  shut_rdwr : How

abbrev pub register : How → FdWrapper → FdWrapper
register shut_rd w = register_read w
register shut_wr w = register_write w
register shut_rdwr w = register_write (register_read w)

-- `Socket::shutdown`.
abbrev pub after_shutdown : How → FdWrapper → Option ℕ → Outcome (Unit {0})
after_shutdown how w none = (w, none)
after_shutdown how w (some n) = (register how w, some tt)

unfoldable pub shutdown : How → Returned ℕ → FdWrapper → Outcome (Unit {0})
shutdown how r w = after_shutdown how w (check_system_call r w)

-- `DatagramSocket::recv`, on the datagram that the system gives: its whole length is returned even where it does not
-- fit.
unfoldable pub recv : Returned (List ℕ) → FdWrapper → Outcome (List ℕ)
recv (Returned.fails again) w =
    if w.non_blocking && again then (register_read w, some []) else (w, none)
recv (Returned.returns payload) w =
    if ltb read_buffer_size (length payload) then (w, none) else (register_read w, some payload)

-- `DatagramSocket::sendto` and `DatagramSocket::send`.
abbrev pub after_send : FdWrapper → Option ℕ → Outcome (Unit {0})
after_send w none = (w, none)
after_send w (some n) = (register_write w, some tt)

unfoldable pub send : Returned ℕ → FdWrapper → Outcome (Unit {0})
send r w = after_send w (check_system_call r w)

-- `TCPSocket::accept`: the number of the new descriptor.
abbrev pub after_accept : FdWrapper → Option ℕ → Outcome ℕ
after_accept w none = (register_read w, none)
after_accept w (some fd) = (register_read w, some fd)

unfoldable pub accept : Returned ℕ → FdWrapper → Outcome ℕ
accept r w = after_accept w (check_system_call r w)
