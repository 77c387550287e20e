-- ===== src/TcpOverIp/Related.antt =====
-- What a connected adapter lets through.
use computer_networking.Prelude.{
  ◌≡◌, refl, Bool, true, false, Option, none, some, arith, inl, inr, Bool-cases,
}
use computer_networking.Parser
use computer_networking.Helpers.{parsed}
use computer_networking.TcpMessage.{TcpMessage}
use computer_networking.TcpSegment
use computer_networking.TcpSegment.{TcpSegment}
use computer_networking.Ipv4
use computer_networking.Ipv4.{Ipv4Header, Ipv4Datagram}
use computer_networking.TcpOverIp.{
  FdAdapter, unwrap_tcp_in_ip, accept, accept_parsed, check_peer, is_unrelated, Unwrapped,
}

-- The datagram carries this message from the peer to this adapter.
pub record IsFromPeer (d : Ipv4Datagram) (a : FdAdapter) (m : TcpMessage) : Type 0 where
  pub to_us : d.header.dst ≡ a.cfg.source.ipv4_numeric
  pub from_peer : d.header.src ≡ a.cfg.destination.ipv4_numeric
  pub tcp : d.header.proto ≡ Ipv4.proto_tcp
  pub segment : TcpSegment
  pub valid :
      parsed (
        TcpSegment.parse TcpSegment.default_segment
          (Ipv4.pseudo_checksum d.header)
          (Parser.make d.payload))
      ≡ some (segment, true)
  pub to_port : segment.udinfo.dst_port ≡ a.cfg.source.port
  pub from_port : segment.udinfo.src_port ≡ a.cfg.destination.port
  pub message : segment.message ≡ m

unrelated-false :
    (h : Ipv4Header) (a : FdAdapter)
    → a.listen ≡ false
    → is_unrelated h a ≡ false
    → (h.dst ≡ a.cfg.source.ipv4_numeric) × (h.src ≡ a.cfg.destination.ipv4_numeric) × (h.proto ≡ 6)
unrelated-false h a l e = (ground arith, ground arith, ground arith)

accept-some :
    (h : Ipv4Header) (seg : TcpSegment) (a b : FdAdapter) (m : TcpMessage)
    → a.listen ≡ false
    → accept h seg a ≡ (b, some m)
    → (b ≡ a)
      × (seg.udinfo.dst_port ≡ a.cfg.source.port)
      × (seg.udinfo.src_port ≡ a.cfg.destination.port)
      × (seg.message ≡ m)
unfolding accept check_peer
accept-some h seg a b m l e = (ground arith, ground arith, ground arith, ground arith)

accept_parsed-some :
    (h : Ipv4Header) (a b : FdAdapter) (m : TcpMessage) (o : Option (TcpSegment × Bool))
    → accept_parsed h a o ≡ some (b, some m)
    → (seg : TcpSegment) × (o ≡ some (seg, true)) × (accept h seg a ≡ (b, some m))
accept_parsed-some h a b m none e = absurd cc
accept_parsed-some h a b m (some (seg, false)) e = absurd cc
accept_parsed-some h a b m (some (seg, true)) e = (seg, refl, cc)

unwrap_tcp_in_ip-cases :
    (d : Ipv4Datagram) (a b : FdAdapter) (m : TcpMessage)
    → unwrap_tcp_in_ip d a ≡ some (b, some m)
    → (is_unrelated d.header a ≡ false)
      × (accept_parsed d.header a (
            parsed (
              TcpSegment.parse TcpSegment.default_segment
                (Ipv4.pseudo_checksum d.header)
                (Parser.make d.payload)))
          ≡ some (b, some m))
unfolding unwrap_tcp_in_ip
unwrap_tcp_in_ip-cases d a b m e = elim (Bool-cases (is_unrelated d.header a)) [
  | inl u ↦ absurd (unrelated-none (rw u at e))
  | inr u ↦ (u, rw u at e)
]
  where
    unrelated-none : ¬ (◌≡◌ {A = Option Unwrapped} (some (a, none)) (some (b, some m)))
    unrelated-none q = cc

-- A message that an adapter that does not listen returns came in a TCP datagram from the address of
-- the peer to the address of the adapter, in a segment that parses without an error and is from the
-- port of the peer to the port of the adapter; and the adapter stays as it is.
pub unwrap_tcp_in_ip-IsFromPeer :
    (d : Ipv4Datagram) (a b : FdAdapter) (m : TcpMessage)
    → a.listen ≡ false
    → unwrap_tcp_in_ip d a ≡ some (b, some m)
    → (b ≡ a) × IsFromPeer d a m
unwrap_tcp_in_ip-IsFromPeer d a b m l e =
    let (u, f) = unwrap_tcp_in_ip-cases d a b m e in
    let (seg, p, g) = accept_parsed-some d.header a b m _ f in
    let (to_us, from_peer, tcp) = unrelated-false d.header a l u in
    let (same, to_port, from_port, message) = accept-some d.header seg a b m l g in
    (
      same,
      record {
        to_us = to_us;
        from_peer = from_peer;
        tcp = tcp;
        segment = seg;
        valid = p;
        to_port = to_port;
        from_port = from_port;
        message = message;
      },
    )
