-- ===== src/TcpSegment.antt =====
-- util/tcp_segment.hh, util/tcp_segment.cc and util/udinfo.hh: a TCP message with its ports and its checksum. `to_string`
-- is not modelled. Flags occupy separate bits, so `|` adds them and a mask is `/` and `%`.
use computer_networking.Prelude.{
  ℕ, ◌+◌, ◌-◌, ◌*◌, ◌/◌, ◌%◌, Bool, true, false, not, ◌||◌, Option, none, some, List, ltb, ◌==◌,
  if◌then◌else◌, to_num,
}
use computer_networking.Wrapping.{Wrap32}
pub mod Fields
pub mod Corrupt
pub mod RoundTrip
mod Tests
use computer_networking.Parser
use computer_networking.Parser.{Parser, M, pure, with_parser, ◌>>=◌, ◌>>◌}
use computer_networking.Serializer
use computer_networking.Serializer.{Serializer}
use computer_networking.Checksum
use computer_networking.TcpMessage.{
  TcpSenderMessage, TcpReceiverMessage, TcpMessage, default_message,
}

-- `struct UserDatagramInfo`.
pub record UserDatagramInfo : Type 0 where
  pub src_port : ℕ
  pub dst_port : ℕ
  pub cksum : ℕ

-- `struct TCPSegment`.
pub record TcpSegment : Type 0 where
  pub message : TcpMessage
  pub udinfo : UserDatagramInfo

abbrev pub header_length : ℕ
header_length = 20

abbrev pub default_segment : TcpSegment
default_segment = record {
  message = default_message;
  udinfo = record { src_port = 0; dst_port = 0; cksum = 0 };
}

-- Whether the checksum of what is left to read is not 0. `none` would be that the loop of `value` does not end.
abbrev pub nonzero : Option ℕ → Option Bool
nonzero none = none
nonzero (some v) = some (not (v == 0))

unfoldable pub is_corrupt : ℕ → M Bool
is_corrupt pseudo p =
    with_parser p
      (nonzero (Checksum.value (Checksum.add_all (Parser.views p.input) (Checksum.make pseudo))))

-- One flag of the octet.
abbrev pub flag : ℕ → ℕ → Bool
flag octet bit = octet / bit % 2 == 1

-- The acknowledgment number stays only with the flag ACK.
abbrev pub ackno_of : ℕ → ℕ → Option Wrap32
ackno_of octet raw32 = if flag octet 0x10 then some (record { raw_value = raw32 }) else none

-- What `parse` makes of the header: the fields, and the length of the header in words.
unfoldable pub parse_fields : TcpSegment → M (TcpSegment × ℕ)
parse_fields before = do
  src_port ← Parser.integer 2 before.udinfo.src_port
  dst_port ← Parser.integer 2 before.udinfo.dst_port
  seqno ← Parser.integer 4 0
  ackno ← Parser.integer 4 seqno
  octet ← Parser.integer 1 0
  flags ← Parser.integer 1 octet
  window_size ← Parser.integer 2 before.message.receiver.window_size
  cksum ← Parser.integer 2 before.udinfo.cksum
  urgent ← Parser.integer 2 0
  pure (
    record {
      message = record {
        sender = record {
          seqno = record { raw_value = seqno };
          syn = flag flags 0x02;
          payload = before.message.sender.payload;
          fin = flag flags 0x01;
          rst = flag flags 0x04;
        };
        receiver = record {
          ackno = ackno_of flags ackno;
          window_size = window_size;
          rst = flag flags 0x04;
        };
      };
      udinfo = record { src_port = src_port; dst_port = dst_port; cksum = cksum };
    },
    octet / 16,
  )

abbrev pub with_payload : TcpSegment → List ℕ → TcpSegment
with_payload seg payload = record seg {
  message = record seg.message { sender = record seg.message.sender { payload = payload } };
}

-- An error, after which the segment is left as it is.
unfoldable pub refuse : TcpSegment → M TcpSegment
refuse seg = do Parser.set_error; pure seg

-- The end of `parse`: options are skipped, and the payload is all that is left.
unfoldable pub take_payload : TcpSegment × ℕ → M TcpSegment
take_payload (seg, data_offset) = do
  Parser.skip_bytes (data_offset * 4 - header_length)
  payload ← Parser.concatenate_all_remaining
  pure (with_payload seg payload)

unfoldable pub parse_payload : TcpSegment × ℕ → M TcpSegment
parse_payload (seg, data_offset) =
    if ltb data_offset 5 then refuse seg else take_payload (seg, data_offset)

-- `void TCPSegment::parse( Parser& parser, uint32_t datagram_layer_pseudo_checksum )`, on the segment before.
unfoldable pub parse : TcpSegment → ℕ → M TcpSegment
parse before pseudo = do
  corrupt ← is_corrupt pseudo
  if corrupt then refuse before else (parse_fields before >>= parse_payload)

-- The acknowledgment number that `serialize` writes, and the octet of the flags.
abbrev pub ackno_value : Option Wrap32 → ℕ
ackno_value none = 0
ackno_value (some w) = w.raw_value

abbrev pub ack_bit : Option Wrap32 → ℕ
ack_bit none = 0
ack_bit (some w) = 0x10

abbrev pub flags_of : TcpMessage → ℕ
flags_of m =
    let reset = m.sender.rst || m.receiver.rst in
    ack_bit m.receiver.ackno
    + to_num reset * 0x04
    + to_num m.sender.syn * 0x02
    + to_num m.sender.fin * 0x01

-- The integers that `serialize` writes.
unfoldable pub serialize_fields : TcpSegment → Serializer → Serializer
serialize_fields seg s = Serializer.integer 2 0 (
    Serializer.integer 2 seg.udinfo.cksum (
      Serializer.integer 2 seg.message.receiver.window_size (
        Serializer.integer 1 (flags_of seg.message) (
          Serializer.integer 1 (header_length / 4 * 16) (
            Serializer.integer 4 (ackno_value seg.message.receiver.ackno) (
              Serializer.integer 4 seg.message.sender.seqno.raw_value (
                Serializer.integer 2 seg.udinfo.dst_port
                  (Serializer.integer 2 seg.udinfo.src_port s))))))))

-- `void TCPSegment::serialize( Serializer& serializer ) const`.
unfoldable pub serialize : TcpSegment → Serializer → Serializer
serialize seg s = Serializer.put_buffer seg.message.sender.payload (serialize_fields seg s)

-- `void TCPSegment::compute_checksum( uint32_t datagram_layer_pseudo_checksum )`.
abbrev pub set_cksum : ℕ → TcpSegment → TcpSegment
set_cksum c seg = record seg { udinfo = record seg.udinfo { cksum = c } }

abbrev pub put_cksum : TcpSegment → Option ℕ → Option TcpSegment
put_cksum seg none = none
put_cksum seg (some c) = some (set_cksum c seg)

unfoldable pub compute_checksum : ℕ → TcpSegment → Option TcpSegment
compute_checksum pseudo seg = put_cksum seg (
    Checksum.value (
      Checksum.add_all (Serializer.finish (serialize (set_cksum 0 seg) Serializer.empty))
        (Checksum.make pseudo)))
