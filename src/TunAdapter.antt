-- ===== src/TunAdapter.antt =====
-- util/tuntap_adapter.hh, util/tuntap_adapter.cc and util/lossy_fd_adapter.hh: an adapter over a TUN device, and one
-- that drops messages at random. What the device reads, how a write to it returns, and what the random engine
-- returns are arguments.
use computer_networking.Prelude.{
  ℕ, replicate, ◌%◌, Bool, true, false, not, ◌&&◌, Option, none, some, List, [], ◌∷◌, ltb, ◌==◌,
  if◌then◌else◌, u16,
}
use computer_networking.Parser
use computer_networking.Serializer
use computer_networking.Helpers.{output, parsed}
use computer_networking.FileDescriptor
use computer_networking.FileDescriptor.{FdWrapper, Returned, Outcome}
use computer_networking.TcpMessage.{TcpMessage}
use computer_networking.TcpSegment
use computer_networking.Ipv4
use computer_networking.Ipv4.{Ipv4Datagram}
use computer_networking.TcpOverIp.{
  FdAdapterConfig, FdAdapter, Unwrapped, unwrap_tcp_in_ip, wrap_tcp_in_ip,
}

-- `class TCPOverIPv4OverTunFdAdapter`.
pub record TunAdapter : Type 0 where
  pub base : FdAdapter
  pub tun : FdWrapper

-- The adapter after an operation, and what it returns; `none` is an exception.
abbrev pub Result : Type 0 → Type 0
Result A = TunAdapter × Option A

-- The strings of `read`, of the lengths of the two headers, and an empty one.
abbrev pub strs : List (List ℕ)
strs = replicate Ipv4.header_length 0 ∷ replicate TcpSegment.header_length 0 ∷ [] ∷ []

-- `read`, from the strings that the device has filled.
abbrev pub unwrap_parsed : FdAdapter → Option (Ipv4Datagram × Bool) → Option Unwrapped
unwrap_parsed a none = none
unwrap_parsed a (some (d, false)) = some (a, none)
unwrap_parsed a (some (d, true)) = unwrap_tcp_in_ip d a

unfoldable pub unwrap_bytes : List (List ℕ) → FdAdapter → Option Unwrapped
unwrap_bytes bufs a =
    unwrap_parsed a (
      parsed
        (Ipv4.parse (record { header = Ipv4.default_header; payload = [] }) (Parser.make bufs)))

abbrev pub with_base : TunAdapter → Option Unwrapped → Result (Option TcpMessage)
with_base a none = (a, none)
with_base a (some (base, message)) = (record a { base = base }, some message)

abbrev pub after_read : TunAdapter → Outcome (List (List ℕ)) → Result (Option TcpMessage)
after_read a (tun, none) = (record a { tun = tun }, none)
after_read a (tun, some bufs) = with_base (record a { tun = tun }) (unwrap_bytes bufs a.base)

-- `TCPOverIPv4OverTunFdAdapter::read`.
unfoldable pub read : Returned (List ℕ) → TunAdapter → Result (Option TcpMessage)
read r a = after_read a (FileDescriptor.read_buffers r strs a.tun)

-- The buffers that `write` gives to the device.
abbrev pub output_datagram : Option Ipv4Datagram → Option (List (List ℕ))
output_datagram none = none
output_datagram (some d) = output (Ipv4.serialize d Serializer.empty)

unfoldable pub message_buffers : TcpMessage → FdAdapter → Option (List (List ℕ))
message_buffers m a = output_datagram (wrap_tcp_in_ip m a)

abbrev pub after_write : TunAdapter → Outcome ℕ → Result (Unit {0})
after_write a (tun, none) = (record a { tun = tun }, none)
after_write a (tun, some n) = (record a { tun = tun }, some tt)

abbrev pub write_some : Returned ℕ → TunAdapter → Option (List (List ℕ)) → Result (Unit {0})
write_some r a none = (a, none)
write_some r a (some bufs) = after_write a (FileDescriptor.write_buffers r bufs a.tun)

-- `TCPOverIPv4OverTunFdAdapter::write`.
unfoldable pub write : Returned ℕ → TcpMessage → TunAdapter → Result (Unit {0})
write r m a = write_some r a (message_buffers m a.base)

-- `LossyFdAdapter::_should_drop`, where the engine returns `draw`.
unfoldable pub should_drop : Bool → ℕ → FdAdapterConfig → Bool
should_drop uplink draw cfg =
    let loss = if uplink then cfg.loss_rate_up else cfg.loss_rate_dn in
    not (loss == 0) && ltb (draw % u16) loss

-- `LossyFdAdapter::read` and `write` over this adapter.
abbrev pub lose : ℕ → Result (Option TcpMessage) → Result (Option TcpMessage)
lose draw (a, none) = (a, none)
lose draw (a, some ret) =
    if should_drop false draw a.base.cfg then (a, some none) else (a, some ret)

unfoldable pub lossy_read : ℕ → Returned (List ℕ) → TunAdapter → Result (Option TcpMessage)
lossy_read draw r a = lose draw (read r a)

unfoldable pub lossy_write : ℕ → Returned ℕ → TcpMessage → TunAdapter → Result (Unit {0})
lossy_write draw r m a = if should_drop true draw a.base.cfg then (a, some tt) else write r m a
