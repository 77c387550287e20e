-- ===== src/TcpSegment/Fields.antt =====
-- The fields of a TCP header are read back from what they are serialized to.
use computer_networking.Prelude.{
  ℕ, ◌+◌, ◌*◌, ◌<◌, ◌≡◌, refl, subst, Bool, ◌||◌, Option, none, some, List, [], ◌∷◌, ◌++◌, All,
  length, arith, u16, u32, to_num,
}
use computer_networking.Wrapping.{Wrap32}
use computer_networking.Parser.{concat}
use computer_networking.Parser.Reads.{IsByte, Reads, Reads-bind, Reads-pure, Reads-integer}
use computer_networking.Serializer
use computer_networking.Serializer.{big_endian}
use computer_networking.Serializer.Writes.{
  Writes, WritesAll-more, WritesAll-none, Writes-integer, Writes-then, Writes-buffer,
}
use computer_networking.TcpMessage.{TcpMessage}
use computer_networking.TcpSegment.{
  TcpSegment, ack_bit, ackno_of, ackno_value, flag, flags_of, parse_fields, serialize,
  serialize_fields,
}

abbrev pub IsAckno : Option Wrap32 → Type 0
IsAckno none = Unit
IsAckno (some w) = w.raw_value < u32

-- The fields fit their types, and the segment fits an IPv4 datagram.
pub record IsSegment (seg : TcpSegment) : Type 0 where
  pub src_word : seg.udinfo.src_port < u16
  pub dst_word : seg.udinfo.dst_port < u16
  pub seqno_word : seg.message.sender.seqno.raw_value < u32
  pub ackno_word : IsAckno seg.message.receiver.ackno
  pub window_word : seg.message.receiver.window_size < u16
  pub bytes : All IsByte seg.message.sender.payload
  pub small : length seg.message.sender.payload + 20 < u16

-- The one flag RST stands for that of the sender and that of the receiver.
abbrev pub one_reset : TcpMessage → TcpMessage
one_reset m = record {
  sender = record m.sender { rst = m.sender.rst || m.receiver.rst };
  receiver = record m.receiver { rst = m.sender.rst || m.receiver.rst };
}

-- The 20 bytes of a header.
abbrev pub header_parts : TcpSegment → List (List ℕ)
header_parts seg =
    big_endian 2 seg.udinfo.src_port
    ∷ big_endian 2 seg.udinfo.dst_port
    ∷ big_endian 4 seg.message.sender.seqno.raw_value
    ∷ big_endian 4 (ackno_value seg.message.receiver.ackno)
    ∷ big_endian 1 80
    ∷ big_endian 1 (flags_of seg.message)
    ∷ big_endian 2 seg.message.receiver.window_size
    ∷ big_endian 2 seg.udinfo.cksum
    ∷ big_endian 2 0
    ∷ []

abbrev pub header_bytes : TcpSegment → List ℕ
header_bytes seg = concat (header_parts seg)

serialize_fields-Writes : (seg : TcpSegment) → Writes (serialize_fields seg) (header_bytes seg)
unfolding serialize_fields
serialize_fields-Writes seg =
    (WritesAll-more
      (WritesAll-more
        (WritesAll-more
          (WritesAll-more
            (WritesAll-more
              (WritesAll-more
                (WritesAll-more
                  (WritesAll-more
                    (WritesAll-more WritesAll-none (Writes-integer 2 seg.udinfo.src_port))
                    (Writes-integer 2 seg.udinfo.dst_port))
                  (Writes-integer 4 seg.message.sender.seqno.raw_value))
                (Writes-integer 4 (ackno_value seg.message.receiver.ackno)))
              (Writes-integer 1 80))
            (Writes-integer 1 (flags_of seg.message)))
          (Writes-integer 2 seg.message.receiver.window_size))
        (Writes-integer 2 seg.udinfo.cksum))
      (Writes-integer 2 0)).joined

abbrev pub segment_bytes : TcpSegment → List ℕ
segment_bytes seg = header_bytes seg ++ seg.message.sender.payload

pub serialize-Writes : (seg : TcpSegment) → Writes (serialize seg) (segment_bytes seg)
unfolding serialize
serialize-Writes seg =
    Writes-then (serialize_fields seg) (Serializer.put_buffer seg.message.sender.payload) _ _
      (serialize_fields-Writes seg) (Writes-buffer seg.message.sender.payload)

-- The octet of the flags gives back each of them.
record IsOctet (ackno : Option Wrap32) (r s f : Bool) (octet : ℕ) : Type 0 where
  byte : octet < 256
  reset : flag octet 0x04 ≡ r
  syn : flag octet 0x02 ≡ s
  fin : flag octet 0x01 ≡ f
  ack : ackno_of octet (ackno_value ackno) ≡ ackno

flags_of-IsOctet :
    (ackno : Option Wrap32) (r s f : Bool)
    → IsOctet ackno r s f (ack_bit ackno + to_num r * 0x04 + to_num s * 0x02 + to_num f * 0x01)
flags_of-IsOctet none r s f = record {
  byte = ground arith;
  reset = ground arith;
  syn = ground arith;
  fin = ground arith;
  ack = ground arith;
}
flags_of-IsOctet (some w) r s f = record {
  byte = ground arith;
  reset = ground arith;
  syn = ground arith;
  fin = ground arith;
  ack = ground arith;
}

-- The segment without its payload, as it is read.
abbrev pub read_header : TcpSegment → TcpSegment → TcpSegment
read_header before seg = record {
  message = record {
    sender = record seg.message.sender {
      payload = before.message.sender.payload;
      rst = seg.message.sender.rst || seg.message.receiver.rst;
    };
    receiver = record seg.message.receiver {
      rst = seg.message.sender.rst || seg.message.receiver.rst;
    };
  };
  udinfo = seg.udinfo;
}

ackno_value-lt : (ackno : Option Wrap32) → IsAckno ackno → ackno_value ackno < u32
ackno_value-lt none h = omega arith
ackno_value-lt (some w) h = h

pub parse_fields-Reads :
    (before seg : TcpSegment)
    → IsSegment seg
    → seg.udinfo.cksum < u16
    → Reads (parse_fields before) (header_bytes seg) (read_header before seg, 5)
unfolding parse_fields
parse_fields-Reads before seg v c =
    let m = seg.message in
    let f =
      flags_of-IsOctet m.receiver.ackno (m.sender.rst || m.receiver.rst) m.sender.syn
        m.sender.fin in
    subst (Reads (parse_fields before) (header_bytes seg)) (cc (f.reset, f.syn, f.fin, f.ack)) (
      Reads-bind _ _ _ _ _ _ (Reads-integer 2 _ seg.udinfo.src_port refl v.src_word) (
        Reads-bind _ _ _ _ _ _ (Reads-integer 2 _ seg.udinfo.dst_port refl v.dst_word) (
          Reads-bind _ _ _ _ _ _ (Reads-integer 4 0 m.sender.seqno.raw_value refl v.seqno_word) (
            Reads-bind _ _ _ _ _ _
              (Reads-integer 4 _ (ackno_value m.receiver.ackno) refl
                (ackno_value-lt m.receiver.ackno v.ackno_word))
              (Reads-bind _ _ _ _ _ _ (Reads-integer 1 0 80 refl (omega arith)) (
                Reads-bind _ _ _ _ _ _ (Reads-integer 1 80 (flags_of m) refl f.byte) (
                  Reads-bind _ _ _ _ _ _
                    (Reads-integer 2 _ m.receiver.window_size refl v.window_word)
                    (Reads-bind _ _ _ _ _ _ (Reads-integer 2 _ seg.udinfo.cksum refl c) (
                      Reads-bind _ _ _ _ _ _ (Reads-integer 2 0 0 refl (omega arith))
                        (Reads-pure _))))))))))
