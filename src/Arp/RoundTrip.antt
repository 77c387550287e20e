-- ===== src/Arp/RoundTrip.antt =====
-- `parse` and `serialize` of ARP messages, over the 28 bytes of a message.
use computer_networking.Prelude.{
  ℕ, ◌^◌, ◌<◌, ◌≡◌, refl, sym, ◌∙◌, true, false, some, none, List, [], ◌∷◌, ◌++◌, length,
  length-append, arith, u32, u64,
}
use computer_networking.Parser
use computer_networking.Parser.{Parser, M, concat, pure, ◌>>=◌}
use computer_networking.Parser.Buffers.{Holds}
use computer_networking.Parser.Reads.{
  Reads, Reads-bind, Reads-pure, Reads-integer, Reads-octets, octets_of, length-octets_of,
}
use computer_networking.Serializer
use computer_networking.Serializer.{big_endian}
use computer_networking.Serializer.Writes.{
  Writes, WritesAll-more, WritesAll-none, Writes-integer, Writes-octets, Writes-then, read-written,
}
use computer_networking.Ethernet.RoundTrip.{IsEthernetAddress}
use computer_networking.Arp.{
  ArpMessage, supported, parse_fixed, parse_addresses, parse, serialize_fixed, serialize_addresses,
  serialize,
}

-- The addresses fit their types.
abbrev pub HasAddresses : ArpMessage → Type 0
HasAddresses m =
    IsEthernetAddress m.sender_ethernet_address
    × (m.sender_ip_address < u32)
    × IsEthernetAddress m.target_ethernet_address
    × (m.target_ip_address < u32)

abbrev pub fixed_bytes : ArpMessage → List ℕ
fixed_bytes m = concat (
    big_endian 2 m.hardware_type
    ∷ big_endian 2 m.protocol_type
    ∷ big_endian 1 m.hardware_address_size
    ∷ big_endian 1 m.protocol_address_size
    ∷ big_endian 2 m.opcode
    ∷ [])

abbrev pub address_bytes : ArpMessage → List ℕ
address_bytes m = concat (
    octets_of m.sender_ethernet_address
    ∷ big_endian 4 m.sender_ip_address
    ∷ octets_of m.target_ethernet_address
    ∷ big_endian 4 m.target_ip_address
    ∷ [])

-- The 28 bytes of a message.
abbrev pub message_bytes : ArpMessage → List ℕ
message_bytes m = fixed_bytes m ++ address_bytes m

supported_bounds :
    (m : ArpMessage)
    → supported m ≡ true
    → (m.hardware_type < 2 ^ 16)
      × (m.protocol_type < 2 ^ 16)
      × (m.hardware_address_size < 2 ^ 8)
      × (m.protocol_address_size < 2 ^ 8)
      × (m.opcode < 2 ^ 16)
unfolding supported
supported_bounds m h = ground arith

serialize-Writes :
    (m : ArpMessage) → Writes (λ s. serialize_addresses m (serialize_fixed m s)) (message_bytes m)
unfolding serialize_addresses serialize_fixed
serialize-Writes m =
    Writes-then (serialize_fixed m) (serialize_addresses m) _ _
      (WritesAll-more
        (WritesAll-more
          (WritesAll-more
            (WritesAll-more (WritesAll-more WritesAll-none (Writes-integer 2 m.hardware_type))
              (Writes-integer 2 m.protocol_type))
            (Writes-integer 1 m.hardware_address_size))
          (Writes-integer 1 m.protocol_address_size))
        (Writes-integer 2 m.opcode)).joined
      (WritesAll-more
        (WritesAll-more
          (WritesAll-more (WritesAll-more WritesAll-none (Writes-octets m.sender_ethernet_address))
            (Writes-integer 4 m.sender_ip_address))
          (Writes-octets m.target_ethernet_address))
        (Writes-integer 4 m.target_ip_address)).joined

-- What `parse_fixed` makes of the message before.
abbrev with_fixed : ArpMessage → ArpMessage → ArpMessage
with_fixed before m = record before {
  hardware_type = m.hardware_type;
  protocol_type = m.protocol_type;
  hardware_address_size = m.hardware_address_size;
  protocol_address_size = m.protocol_address_size;
  opcode = m.opcode;
}

parse_fixed-Reads :
    (before m : ArpMessage)
    → supported m ≡ true
    → Reads (parse_fixed before) (fixed_bytes m) (with_fixed before m)
unfolding parse_fixed
parse_fixed-Reads before m h =
    let (b0, b1, b2, b3, b4) = supported_bounds m h in
    Reads-bind _ _ _ _ _ _ (Reads-integer 2 before.hardware_type m.hardware_type refl b0) (
      Reads-bind _ _ _ _ _ _ (Reads-integer 2 before.protocol_type m.protocol_type refl b1) (
        Reads-bind _ _ _ _ _ _
          (Reads-integer 1 before.hardware_address_size m.hardware_address_size refl b2)
          (Reads-bind _ _ _ _ _ _
            (Reads-integer 1 before.protocol_address_size m.protocol_address_size refl b3)
            (Reads-bind _ _ _ _ _ _ (Reads-integer 2 before.opcode m.opcode refl b4)
              (Reads-pure _)))))

parse_addresses-Reads :
    (before m : ArpMessage)
    → length before.sender_ethernet_address ≡ 6
    → length before.target_ethernet_address ≡ 6
    → HasAddresses m
    → Reads (parse_addresses (with_fixed before m)) (address_bytes m) m
unfolding parse_addresses
parse_addresses-Reads before m s t (h0, h1, h2, h3) =
    Reads-bind _ _ _ _ _ _
      (Reads-octets before.sender_ethernet_address m.sender_ethernet_address (s ∙ sym h0.0) h0.1)
      (Reads-bind _ _ _ _ _ _ (Reads-integer 4 before.sender_ip_address m.sender_ip_address refl h1)
        (Reads-bind _ _ _ _ _ _
          (Reads-octets before.target_ethernet_address m.target_ethernet_address (t ∙ sym h2.0)
            h2.1)
          (Reads-bind _ _ _ _ _ _
            (Reads-integer 4 before.target_ip_address m.target_ip_address refl h3) (Reads-pure m))))

supported-with_fixed : (before m : ArpMessage) → supported (with_fixed before m) ≡ supported m
unfolding supported
supported-with_fixed before m = refl

parse-Reads :
    (before m : ArpMessage)
    → length before.sender_ethernet_address ≡ 6
    → length before.target_ethernet_address ≡ 6
    → supported m ≡ true
    → HasAddresses m
    → Reads (parse before) (message_bytes m) m
unfolding parse
parse-Reads before m s t h a =
    Reads-bind (parse_fixed before) _ _ _ _ _ (parse_fixed-Reads before m h)
      (rw (supported-with_fixed before m, h) (parse_addresses-Reads before m s t a))

message_length : (m : ArpMessage) → HasAddresses m → length (message_bytes m) < u64
message_length m (h0, h1, h2, h3) = omega (
  arith,
  length-append (octets_of m.sender_ethernet_address) (
      concat (
        big_endian 4 m.sender_ip_address
        ∷ octets_of m.target_ethernet_address
        ∷ big_endian 4 m.target_ip_address
        ∷ [])),
  length-append (octets_of m.target_ethernet_address)
      (concat (big_endian 4 m.target_ip_address ∷ [])),
  length-octets_of m.sender_ethernet_address,
  length-octets_of m.target_ethernet_address,
)

-- A supported ARP message whose addresses fit their types is serialized without an exception, and
-- parsing what comes out, over any message with addresses of six bytes, gives the same message, with
-- no error and no byte left.
pub parse-serialize_message :
    (before m : ArpMessage)
    → length before.sender_ethernet_address ≡ 6
    → length before.target_ethernet_address ≡ 6
    → supported m ≡ true
    → HasAddresses m
    → (s : Serializer.Serializer) × (p : Parser) × (serialize m Serializer.empty ≡ some s)
      × (parse before (Parser.make (Serializer.finish s)) ≡ some (m, p))
      × Holds p []
unfolding serialize
parse-serialize_message before m s t h a =
    let (p, q, r) =
      read-written (λ x. serialize_addresses m (serialize_fixed m x)) (parse before)
        (message_bytes m) m (serialize-Writes m) (parse-Reads before m s t h a)
        (message_length m a) in
    (serialize_addresses m (serialize_fixed m Serializer.empty), p, rw h, q, r)

-- `serialize` throws on a message that is not supported.
pub serialize-none :
    (m : ArpMessage) (s : Serializer.Serializer) → supported m ≡ false → serialize m s ≡ none
unfolding serialize
serialize-none m s h = rw h
