-- ===== src/TcpSegment/Tests.antt =====
-- A segment with SYN, ACK and two bytes, and one with a bit changed.
use computer_networking.Prelude.{ℕ, ◌<◌, ◌≡◌, refl, [], ◌∷◌, some, true, false, arith, u16}
use computer_networking.Parser
use computer_networking.Parser.{Parser, concat}
use computer_networking.Parser.Buffers.{Holds, make-Holds}
use computer_networking.Serializer
use computer_networking.Checksum
use computer_networking.TcpMessage.{TcpMessage}
use computer_networking.TcpSegment.{
  TcpSegment, default_segment, parse, serialize, serialize_fields, compute_checksum, set_cksum,
}
use computer_networking.TcpSegment.Fields.{IsSegment, one_reset}
use computer_networking.TcpSegment.Corrupt.{parse-corrupt}
use computer_networking.TcpSegment.RoundTrip.{parse-serialize_segment}

abbrev pub message : TcpMessage
message = record {
  sender = record {
    seqno = record { raw_value = 0x12345678 };
    syn = true;
    payload = 0x68 ∷ 0x69 ∷ [];
    fin = false;
    rst = false;
  };
  receiver = record { ackno = some (record { raw_value = 7 }); window_size = 64000; rst = false };
}

abbrev segment : TcpSegment
segment = record {
  message = message;
  udinfo = record { src_port = 1080; dst_port = 9090; cksum = 0 };
}

checksum : compute_checksum 0x1406 segment ≡ some (set_cksum 43279 segment)
unfolding compute_checksum serialize serialize_fields Serializer.integer Serializer.put_buffer
    Serializer.put_nonempty Serializer.finish Serializer.flush Checksum.value Checksum.fold
    Checksum.add_all Checksum.add
checksum = refl

segment-IsSegment : IsSegment segment
segment-IsSegment = record {
  src_word = omega arith;
  dst_word = omega arith;
  seqno_word = omega arith;
  ackno_word = omega arith;
  window_word = omega arith;
  bytes = (omega arith, (omega arith, tt));
  small = omega arith;
}

parse-serialize_segment_example :
    (c : ℕ) × (p : Parser) × (compute_checksum 0x1406 segment ≡ some (set_cksum c segment))
    × (c < u16)
    × (parse default_segment 0x1406
          (Parser.make (Serializer.finish (serialize (set_cksum c segment) Serializer.empty)))
        ≡ some (record (set_cksum c segment) { message = one_reset message }, p))
    × (p.error ≡ false)
parse-serialize_segment_example =
    parse-serialize_segment default_segment segment 0x1406 segment-IsSegment (omega arith)

-- Four bytes in two buffers.
abbrev garbled : Parser
garbled = Parser.make ((4 ∷ 56 ∷ 35 ∷ []) ∷ (130 ∷ []) ∷ [])

garbled-Holds : Holds garbled (4 ∷ 56 ∷ 35 ∷ 130 ∷ [])
garbled-Holds =
    make-Holds ((4 ∷ 56 ∷ 35 ∷ []) ∷ (130 ∷ []) ∷ []) (omega arith, (omega arith, tt)) (omega arith)

parse-corrupt_example :
    parse default_segment 1 garbled ≡ some (default_segment, record garbled { error = true })
parse-corrupt_example =
    parse-corrupt default_segment 1 garbled (4 ∷ 56 ∷ 35 ∷ 130 ∷ []) garbled-Holds
      (omega arith, (omega arith, (omega arith, (omega arith, tt)))) (omega arith) (omega arith)
      (λ e. omega arith)
