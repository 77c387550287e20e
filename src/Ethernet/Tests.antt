-- ===== src/Ethernet/Tests.antt =====
-- A frame through `serialize` and `parse`.
use computer_networking.Prelude.{ℕ, ◌≡◌, refl, List, [], ◌∷◌, none, some, false, arith}
use computer_networking.Parser
use computer_networking.Parser.{Parser, concat}
use computer_networking.Ref.{copies}
use computer_networking.Serializer
use computer_networking.Ethernet.{
  EthernetFrame, zero_address, ethernet_broadcast, type_ipv4, parse_frame, serialize_frame,
}
use computer_networking.Ethernet.RoundTrip.{parse_frame-serialize_frame}

abbrev before : EthernetFrame
before = record {
  header = record { dst = zero_address; src = zero_address; type = 0 };
  payload = [];
}

abbrev broadcast : EthernetFrame
broadcast = record {
  header = record { dst = ethernet_broadcast; src = 2 ∷ 0 ∷ 0 ∷ 0 ∷ 0 ∷ 1 ∷ []; type = type_ipv4 };
  payload = (1 ∷ 2 ∷ []) ∷ [] ∷ (3 ∷ []) ∷ [];
}

parse_frame-serialize_frame_example :
    (payload : List (List ℕ)) × (p : Parser) × (parse_frame before
        (Parser.make (Serializer.finish (serialize_frame broadcast Serializer.empty)))
      ≡ some (record { header = broadcast.header; payload = payload }, p))
    × (p.error ≡ false)
    × (concat payload ≡ 1 ∷ 2 ∷ 3 ∷ [])
    × (Parser.construct
          (copies (Serializer.finish_refs (serialize_frame broadcast Serializer.empty)))
        ≡ some (Parser.make (Serializer.finish (serialize_frame broadcast Serializer.empty))))
    × (Parser.construct (Serializer.finish_refs (serialize_frame broadcast Serializer.empty))
        ≡ none)
parse_frame-serialize_frame_example =
    parse_frame-serialize_frame before broadcast refl refl
      ((refl, ground arith), (refl, ground arith), omega arith) (omega arith)
