-- ===== src/Ipv4/Tests.antt =====
-- Headers and datagrams of 22 bytes from 10.0.0.1 to 10.0.0.2.
use computer_networking.Prelude.{ℕ, ◌≡◌, refl, List, [], ◌∷◌, none, some, false, arith}
use computer_networking.Parser
use computer_networking.Parser.{Parser, concat}
use computer_networking.Ref.{copies}
use computer_networking.Serializer
use computer_networking.Checksum
use computer_networking.Ipv4.{
  Ipv4Header, Ipv4Datagram, default_header, compute_checksum, serialize_header, serialize_fields,
  parse, serialize,
}
use computer_networking.Ipv4.RoundTrip.{IsHeader}
use computer_networking.Ipv4.Datagram.{parse-serialize_datagram, truncate-loses}

abbrev pub header : Ipv4Header
header = record default_header {
  len = 22;
  ttl = 64;
  cksum = 9952;
  src = 0x0a000001;
  dst = 0x0a000002;
}

abbrev pub datagram : Ipv4Datagram
datagram = record { header = header; payload = (7 ∷ []) ∷ (8 ∷ []) ∷ [] }

pub header-IsHeader : IsHeader header
header-IsHeader = record {
  ver_four = refl;
  no_options = refl;
  tos_byte = omega arith;
  len_word = omega arith;
  id_word = omega arith;
  offset_bits = omega arith;
  ttl_byte = omega arith;
  proto_byte = omega arith;
  cksum_word = omega arith;
  src_word = omega arith;
  dst_word = omega arith;
}

pub header_checksum : compute_checksum header ≡ some header
unfolding compute_checksum serialize_header serialize_fields Serializer.integer Serializer.finish
    Serializer.flush Checksum.value Checksum.fold Checksum.add_all Checksum.add
header_checksum = refl

parse-serialize_datagram_example :
    (s : Serializer.Serializer) × (payload : List (List ℕ)) × (p : Parser) × (serialize datagram
        Serializer.empty
      ≡ some s)
    × (parse (record { header = default_header; payload = [] }) (Parser.make (Serializer.finish s))
        ≡ some (record { header = header; payload = payload }, p))
    × (p.error ≡ false)
    × (concat payload ≡ 7 ∷ 8 ∷ [])
    × (Parser.construct (copies (Serializer.finish_refs s))
        ≡ some (Parser.make (Serializer.finish s)))
    × (Parser.construct (Serializer.finish_refs s) ≡ none)
parse-serialize_datagram_example =
    parse-serialize_datagram (record { header = default_header; payload = [] }) datagram
      header-IsHeader header_checksum refl

-- The front buffer has 4 bytes that are read and 6 that are not, of which 2 are the payload and 4 are padding.
abbrev padded : Parser
padded = record {
  input = record { size = 6; buffer = (1 ∷ 1 ∷ 1 ∷ 1 ∷ 7 ∷ 8 ∷ 0 ∷ 0 ∷ 0 ∷ 0 ∷ []) ∷ []; skip = 4 };
  error = false;
}

padded_truncated :
    (Parser.truncate 2 padded
      ≡ some (tt, record { input = record { size = 2; buffer = []; skip = 4 }; error = false }))
    × (Parser.all_remaining
          (record { input = record { size = 2; buffer = []; skip = 4 }; error = false })
        ≡ none)
padded_truncated =
    truncate-loses (1 ∷ 1 ∷ 1 ∷ 1 ∷ 7 ∷ 8 ∷ 0 ∷ 0 ∷ 0 ∷ 0 ∷ []) [] 4 6 2 (omega arith) (omega arith)
      (omega arith)
