-- ===== src/TcpOverIp/Wrapped.antt =====
-- A message wrapped by one adapter and unwrapped by its peer.
use computer_networking.Prelude.{
  ℕ, ◌+◌, ◌≤◌, ◌<◌, ◌≡◌, refl, sym, ap, ap₂, ◌∙◌, Bool, true, false, not, ◌&&◌, ◌||◌, none, some,
  All, length, if◌then◌else◌, u16, u32, arith,
}
use computer_networking.Parser
use computer_networking.Parser.Reads.{IsByte}
use computer_networking.Serializer
use computer_networking.Helpers.{parsed}
use computer_networking.TcpMessage.{TcpMessage}
use computer_networking.TcpSegment
use computer_networking.TcpSegment.{TcpSegment, set_cksum}
use computer_networking.TcpSegment.Fields.{IsAckno, IsSegment, one_reset}
use computer_networking.TcpSegment.RoundTrip.{parse-serialize_segment}
use computer_networking.Ipv4
use computer_networking.Ipv4.{Ipv4Header, Ipv4Datagram}
use computer_networking.Ipv4.Datagram.{compute_checksum_total}
use computer_networking.TcpOverIp.{
  Address, FdAdapter, wrap_tcp_in_ip, unwrap_tcp_in_ip, header_for, segment_for, accept,
  answer_listening, check_peer, is_unrelated, connect,
}

-- The fields fit their types, and the message fits a datagram.
pub record IsMessage (m : TcpMessage) : Type 0 where
  pub seqno_word : m.sender.seqno.raw_value < u32
  pub ackno_word : IsAckno m.receiver.ackno
  pub window_word : m.receiver.window_size < u16
  pub bytes : All IsByte m.sender.payload
  pub small : length m.sender.payload + 40 < u16

pub record IsAddress (a : Address) : Type 0 where
  pub ip_word : a.ipv4_numeric < u32
  pub port_word : a.port < u16

segment_for-IsSegment :
    (m : TcpMessage) (a : FdAdapter)
    → IsMessage m
    → IsAddress a.cfg.source
    → IsAddress a.cfg.destination
    → IsSegment (segment_for m a)
segment_for-IsSegment m a v s d = record {
  src_word = s.port_word;
  dst_word = d.port_word;
  seqno_word = v.seqno_word;
  ackno_word = v.ackno_word;
  window_word = v.window_word;
  bytes = v.bytes;
  small = omega (arith, v.small);
}

pseudo_checksum-le :
    (h : Ipv4Header) → h.src < u32 → h.dst < u32 → h.proto < 256 → Ipv4.pseudo_checksum h ≤ 0xfffff
unfolding Ipv4.pseudo_checksum Ipv4.payload_length
pseudo_checksum-le h s d p = omega arith

-- The datagram that carries a message.
pub wrap_tcp_in_ip-parses :
    (m : TcpMessage) (a : FdAdapter)
    → IsMessage m
    → IsAddress a.cfg.source
    → IsAddress a.cfg.destination
    → (d : Ipv4Datagram) × (c : ℕ) × (wrap_tcp_in_ip m a ≡ some d)
      × (d.header ≡ record (header_for m a) { cksum = c })
      × ((seg : TcpSegment) × (parsed (
              TcpSegment.parse TcpSegment.default_segment
                (Ipv4.pseudo_checksum d.header)
                (Parser.make d.payload))
            ≡ some (seg, true))
          × (seg.message ≡ one_reset m)
          × (seg.udinfo.src_port ≡ a.cfg.source.port)
          × (seg.udinfo.dst_port ≡ a.cfg.destination.port))
unfolding wrap_tcp_in_ip Ipv4.pseudo_checksum Ipv4.payload_length
wrap_tcp_in_ip-parses m a v s d =
    let h = header_for m a in
    let seg = segment_for m a in
    let pseudo = Ipv4.pseudo_checksum h in
    let (c, e, b, f) = compute_checksum_total h refl in
    let (k, p, q, l, g, ok) =
      parse-serialize_segment TcpSegment.default_segment seg pseudo
        (segment_for-IsSegment m a v s d)
        (pseudo_checksum-le h s.ip_word d.ip_word (omega arith)) in
    (
      record {
        header = record h { cksum = c };
        payload = Serializer.finish (TcpSegment.serialize (set_cksum k seg) Serializer.empty);
      },
      c,
      rw (q, e),
      refl,
      (
        record (set_cksum k seg) { message = one_reset m },
        ap parsed g
            ∙ ap (λ (x : Bool). some (record (set_cksum k seg) { message = one_reset m }, not x))
                ok,
        refl,
        refl,
        refl,
      ),
    )

unwrap_tcp_in_ip-parsed :
    (d : Ipv4Datagram) (b : FdAdapter) {seg : TcpSegment}
    → is_unrelated d.header b ≡ false
    → parsed (
        TcpSegment.parse TcpSegment.default_segment
          (Ipv4.pseudo_checksum d.header)
          (Parser.make d.payload))
      ≡ some (seg, true)
    → unwrap_tcp_in_ip d b ≡ some (accept d.header seg b)
unfolding unwrap_tcp_in_ip
unwrap_tcp_in_ip-parsed d b e f = rw (e, f)

related :
    (h : Ipv4Header) (b : FdAdapter)
    → h.dst ≡ b.cfg.source.ipv4_numeric
    → h.src ≡ b.cfg.destination.ipv4_numeric
    → h.proto ≡ 6
    → is_unrelated h b ≡ false
related h b d s p = ground arith

related_listening :
    (h : Ipv4Header) (b : FdAdapter) → b.listen ≡ true → h.proto ≡ 6 → is_unrelated h b ≡ false
related_listening h b l p = ground arith

accept-peer :
    (h : Ipv4Header) (seg : TcpSegment) (b : FdAdapter)
    → b.listen ≡ false
    → seg.udinfo.dst_port ≡ b.cfg.source.port
    → seg.udinfo.src_port ≡ b.cfg.destination.port
    → accept h seg b ≡ (b, some seg.message)
unfolding accept check_peer
accept-peer h seg b l d s = ground arith

accept-listening :
    (h : Ipv4Header) (seg : TcpSegment) (b : FdAdapter)
    → b.listen ≡ true
    → seg.udinfo.dst_port ≡ b.cfg.source.port
    → accept h seg b ≡ (
        if seg.message.sender.syn && not seg.message.sender.rst
        then (connect h seg b, some seg.message)
        else (b, none))
unfolding accept check_peer answer_listening
accept-listening h seg b l d = ground arith

-- A message whose fields fit their types and which fits a datagram, wrapped by an adapter with right
-- addresses, comes out of the connected adapter with those addresses exchanged, with one RST for
-- both halves, and that adapter stays as it is.
pub unwrap_tcp_in_ip-wrap_tcp_in_ip :
    (m : TcpMessage) (a b : FdAdapter)
    → IsMessage m
    → IsAddress a.cfg.source
    → IsAddress a.cfg.destination
    → b.listen ≡ false
    → b.cfg.source ≡ a.cfg.destination
    → b.cfg.destination ≡ a.cfg.source
    → (d : Ipv4Datagram) × (wrap_tcp_in_ip m a ≡ some d)
      × (unwrap_tcp_in_ip d b ≡ some (b, some (one_reset m)))
unwrap_tcp_in_ip-wrap_tcp_in_ip m a b v s t l e f =
    let (d, c, w, h, r) = wrap_tcp_in_ip-parses m a v s t in
    let (seg, p, k, sp, dp) = r in
    (
      d,
      w,
      (unwrap_tcp_in_ip-parsed d b
            (related d.header b
              (ap (λ (x : Ipv4Header). x.dst) h ∙ sym (ap (λ (x : Address). x.ipv4_numeric) e))
              (ap (λ (x : Ipv4Header). x.src) h ∙ sym (ap (λ (x : Address). x.ipv4_numeric) f))
              (ap (λ (x : Ipv4Header). x.proto) h))
            p
          ∙ ap some (
              accept-peer d.header seg b l (dp ∙ sym (ap (λ (x : Address). x.port) e))
                (sp ∙ sym (ap (λ (x : Address). x.port) f)))
          ∙ ap (λ (x : TcpMessage). some (b, some x)) k),
    )

connected :
    (h : Ipv4Header) (seg : TcpSegment) (b : FdAdapter) (src dst : Address)
    → h.src ≡ src.ipv4_numeric
    → h.dst ≡ dst.ipv4_numeric
    → seg.udinfo.src_port ≡ src.port
    → b.cfg.source.port ≡ dst.port
    → connect h seg b
      ≡ record { cfg = record b.cfg { source = dst; destination = src }; listen = false }
connected h seg b src dst s d p q =
    ap₂
      (λ (x y : Address). record b {
        cfg = record b.cfg { source = x; destination = y };
        listen = false;
      })
      (ap₂ (λ (i j : ℕ). record { ipv4_numeric = i; port = j }) d q)
      (ap₂ (λ (i j : ℕ). record { ipv4_numeric = i; port = j }) s p)

-- A listening adapter with the port that a wrapped message is for takes the two addresses of the
-- datagram for its own, stops listening and returns the message, if the message has SYN and no RST
-- in either half; else it stays as it is and returns nothing.
pub unwrap_tcp_in_ip-listening :
    (m : TcpMessage) (a b : FdAdapter)
    → IsMessage m
    → IsAddress a.cfg.source
    → IsAddress a.cfg.destination
    → b.listen ≡ true
    → b.cfg.source.port ≡ a.cfg.destination.port
    → (d : Ipv4Datagram) × (wrap_tcp_in_ip m a ≡ some d)
      × (unwrap_tcp_in_ip d b
          ≡ some (
              if m.sender.syn && not (m.sender.rst || m.receiver.rst)
              then (
                record {
                  cfg = record b.cfg { source = a.cfg.destination; destination = a.cfg.source };
                  listen = false;
                },
                some (one_reset m),
              )
              else (b, none)))
unwrap_tcp_in_ip-listening m a b v s t l e =
    let (d, c, w, h, r) = wrap_tcp_in_ip-parses m a v s t in
    let (seg, p, k, sp, dp) = r in
    (
      d,
      w,
      unwrap_tcp_in_ip-parsed d b
            (related_listening d.header b l (ap (λ (x : Ipv4Header). x.proto) h)) p
          ∙ ap some (accept-listening d.header seg b l (dp ∙ sym e))
          ∙ ap₂
              (λ (x : TcpMessage) (y : FdAdapter).
                some (if x.sender.syn && not x.sender.rst then (y, some x) else (b, none)))
              k
              (connected d.header seg b a.cfg.source a.cfg.destination
                (ap (λ (x : Ipv4Header). x.src) h) (ap (λ (x : Ipv4Header). x.dst) h) sp e),
    )
