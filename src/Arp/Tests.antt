-- ===== src/Arp/Tests.antt =====
-- A message through `serialize` and `parse`.
use computer_networking.Prelude.{◌≡◌, refl, [], ◌∷◌, some, arith}
use computer_networking.Parser
use computer_networking.Parser.{Parser}
use computer_networking.Parser.Buffers.{Holds}
use computer_networking.Serializer
use computer_networking.Arp.{
  ArpMessage, default_message, opcode_request, supported, parse, serialize,
}
use computer_networking.Arp.RoundTrip.{parse-serialize_message}

abbrev request : ArpMessage
request = record default_message {
  opcode = opcode_request;
  sender_ethernet_address = 2 ∷ 0 ∷ 0 ∷ 0 ∷ 0 ∷ 1 ∷ [];
  sender_ip_address = 0x0a000001;
  target_ip_address = 0x0a000002;
}

parse-serialize_message_example :
    (s : Serializer.Serializer) × (p : Parser) × (serialize request Serializer.empty ≡ some s)
    × (parse default_message (Parser.make (Serializer.finish s)) ≡ some (request, p))
    × Holds p []
unfolding supported
parse-serialize_message_example =
    parse-serialize_message default_message request refl refl refl
      ((refl, ground arith), omega arith, (refl, ground arith), omega arith)
