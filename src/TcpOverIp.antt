-- ===== src/TcpOverIp.antt =====
-- util/tcp_over_ip.hh, util/tcp_over_ip.cc, util/fd_adapter.hh and FdAdapterConfig of util/tcp_config.hh: TCP
-- messages carried in IPv4 datagrams between two addresses. An `Address` is the number and the port that its
-- accessors `ipv4_numeric` and `port` return; what `inet_ntoa` prints and the constructor reads back is the same number.
use computer_networking.Prelude.{
  ℕ, ◌+◌, ◌*◌, ◌%◌, Bool, true, false, not, ◌&&◌, ◌||◌, Option, none, some, List, [], length, ◌==◌,
  if◌then◌else◌, u16,
}
pub mod Wrapped
pub mod Related
mod Tests
use computer_networking.Parser
use computer_networking.Serializer
use computer_networking.Helpers.{parsed}
use computer_networking.TcpMessage.{TcpMessage}
use computer_networking.TcpSegment
use computer_networking.TcpSegment.{TcpSegment}
use computer_networking.Ipv4
use computer_networking.Ipv4.{Ipv4Header, Ipv4Datagram}

pub record Address : Type 0 where
  pub ipv4_numeric : ℕ
  pub port : ℕ

-- `class FdAdapterConfig` and its defaults.
pub record FdAdapterConfig : Type 0 where
  pub source : Address
  pub destination : Address
  pub loss_rate_dn : ℕ
  pub loss_rate_up : ℕ

abbrev pub default_config : FdAdapterConfig
default_config = record {
  source = record { ipv4_numeric = 0; port = 0 };
  destination = record { ipv4_numeric = 0; port = 0 };
  loss_rate_dn = 0;
  loss_rate_up = 0;
}

-- `class FdAdapterBase`: its state is all that a `TCPOverIPv4Adapter` has.
pub record FdAdapter : Type 0 where
  pub cfg : FdAdapterConfig
  pub listen : Bool

abbrev pub default_adapter : FdAdapter
default_adapter = record { cfg = default_config; listen = false }

-- `set_listening`.
abbrev pub set_listening : Bool → FdAdapter → FdAdapter
set_listening l a = record a { listen = l }

-- The adapter after a call of `unwrap_tcp_in_ip`, and the message that it returns, if any.
abbrev pub Unwrapped : Type 0
Unwrapped = FdAdapter × Option TcpMessage

-- Whether the datagram is for another address, from another address, or not TCP.
abbrev pub is_unrelated : Ipv4Header → FdAdapter → Bool
is_unrelated h a =
    (not a.listen && not (h.dst == a.cfg.source.ipv4_numeric))
    || (not a.listen && not (h.src == a.cfg.destination.ipv4_numeric))
    || not (h.proto == Ipv4.proto_tcp)

-- The last test: the port of the peer.
unfoldable pub check_peer : TcpSegment → FdAdapter → Unwrapped
check_peer seg a =
    if not (seg.udinfo.src_port == a.cfg.destination.port) then (a, none) else (a, some seg.message)

-- The addresses of the segment become those of the connection.
abbrev pub connect : Ipv4Header → TcpSegment → FdAdapter → FdAdapter
connect h seg a = set_listening false (record a {
  cfg = record a.cfg {
    source = record { ipv4_numeric = h.dst; port = a.cfg.source.port };
    destination = record { ipv4_numeric = h.src; port = seg.udinfo.src_port };
  };
})

-- What a listening adapter does with a segment.
unfoldable pub answer_listening : Ipv4Header → TcpSegment → FdAdapter → Unwrapped
answer_listening h seg a =
    if seg.message.sender.syn && not seg.message.sender.rst
    then check_peer seg (connect h seg a)
    else (a, none)

-- What follows a segment that parses.
unfoldable pub accept : Ipv4Header → TcpSegment → FdAdapter → Unwrapped
accept h seg a =
    if not (seg.udinfo.dst_port == a.cfg.source.port)
    then (a, none)
    else (if a.listen then answer_listening h seg a else check_peer seg a)

abbrev pub accept_parsed : Ipv4Header → FdAdapter → Option (TcpSegment × Bool) → Option Unwrapped
accept_parsed h a none = none
accept_parsed h a (some (seg, false)) = some (a, none)
accept_parsed h a (some (seg, true)) = some (accept h seg a)

-- `TCPOverIPv4Adapter::unwrap_tcp_in_ip`. `none` is an exception of the parser.
unfoldable pub unwrap_tcp_in_ip : Ipv4Datagram → FdAdapter → Option Unwrapped
unwrap_tcp_in_ip d a =
    let result = parsed (
      TcpSegment.parse TcpSegment.default_segment (Ipv4.pseudo_checksum d.header)
        (Parser.make d.payload)) in
    if is_unrelated d.header a then some (a, none) else accept_parsed d.header a result

-- The parts of `wrap_tcp_in_ip`: the header before its checksum, the segment before its checksum.
abbrev pub header_for : TcpMessage → FdAdapter → Ipv4Header
header_for m a = record Ipv4.default_header {
  src = a.cfg.source.ipv4_numeric;
  dst = a.cfg.destination.ipv4_numeric;
  len = (5 * 4 + 20 + length m.sender.payload) % u16;
}

abbrev pub segment_for : TcpMessage → FdAdapter → TcpSegment
segment_for m a = record {
  message = m;
  udinfo = record { src_port = a.cfg.source.port; dst_port = a.cfg.destination.port; cksum = 0 };
}

abbrev pub datagram_of : Option TcpSegment → Option Ipv4Header → Option Ipv4Datagram
datagram_of none h = none
datagram_of (some seg) none = none
datagram_of (some seg) (some h) =
    some (record {
      header = h;
      payload = Serializer.finish (TcpSegment.serialize seg Serializer.empty);
    })

-- `TCPOverIPv4Adapter::wrap_tcp_in_ip`. `none` would be an exception.
unfoldable pub wrap_tcp_in_ip : TcpMessage → FdAdapter → Option Ipv4Datagram
wrap_tcp_in_ip m a =
    let h = header_for m a in
    datagram_of (TcpSegment.compute_checksum (Ipv4.pseudo_checksum h) (segment_for m a))
      (Ipv4.compute_checksum h)
