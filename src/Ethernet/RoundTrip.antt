-- ===== src/Ethernet/RoundTrip.antt =====
-- `EthernetHeader` and `EthernetFrame` are read back from what they are serialized to.
use computer_networking.Prelude.{
  ℕ, ◌<◌, ◌≡◌, refl, false, some, List, [], ◌∷◌, ◌++◌, All, length, arith, u16, u64, ◌∙◌, ◌==◌,
  if◌then◌else◌, none,
}
use computer_networking.Parser
use computer_networking.Parser.{Parser, concat, pure, ◌>>=◌}
use computer_networking.Parser.Buffers.{make-Holds}
use computer_networking.Parser.Reads.{
  Reads, Reads-bind, Reads-pure, Reads-integer, Reads-octets, IsByte, octets_of,
  all_remaining-concat,
}
use computer_networking.Serializer
use computer_networking.Serializer.{big_endian}
use computer_networking.Ref.{copies}
use computer_networking.Serializer.Borrowed.{construct-copies, construct-put_buffers}
use computer_networking.Serializer.Writes.{
  Writes, WritesAll-more, WritesAll-none, Writes-integer, Writes-octets, Writes-buffers,
  Writes-then, finish-Writes,
}
use computer_networking.Ethernet.{
  EthernetAddress, EthernetHeader, EthernetFrame, parse_header, serialize_header, parse_frame,
  serialize_frame,
}

-- Six bytes.
abbrev pub IsEthernetAddress : EthernetAddress → Type 0
IsEthernetAddress a = (length a ≡ 6) × All IsByte a

-- The fields of a header fit their types.
abbrev pub IsHeader : EthernetHeader → Type 0
IsHeader h = IsEthernetAddress h.dst × IsEthernetAddress h.src × (h.type < u16)

-- The 14 bytes of a header.
abbrev pub header_bytes : EthernetHeader → List ℕ
header_bytes h = concat (octets_of h.dst ∷ octets_of h.src ∷ big_endian 2 h.type ∷ [])

pub serialize_header-Writes : (h : EthernetHeader) → Writes (serialize_header h) (header_bytes h)
unfolding serialize_header
serialize_header-Writes h =
    (WritesAll-more
      (WritesAll-more (WritesAll-more WritesAll-none (Writes-octets h.dst)) (Writes-octets h.src))
      (Writes-integer 2 h.type)).joined

pub parse_header-Reads :
    (before h : EthernetHeader)
    → length before.dst ≡ 6
    → length before.src ≡ 6
    → IsHeader h
    → Reads (parse_header before) (header_bytes h) h
unfolding parse_header
parse_header-Reads before h d s (hd, hs, ht) =
    Reads-bind _ _ _ _ _ _ (Reads-octets before.dst h.dst (omega arith) hd.1) (
      Reads-bind _ _ _ _ _ _ (Reads-octets before.src h.src (omega arith) hs.1)
        (Reads-bind _ _ _ _ _ _ (Reads-integer 2 before.type h.type refl ht) (Reads-pure h)))

serialize_frame-Writes :
    (f : EthernetFrame) → Writes (serialize_frame f) (header_bytes f.header ++ concat f.payload)
unfolding serialize_frame
serialize_frame-Writes f =
    Writes-then (serialize_header f.header) (Serializer.put_buffers f.payload) _ _
      (serialize_header-Writes f.header) (Writes-buffers f.payload)

parse_frame-parts :
    (before : EthernetFrame) (p : Parser) {p' p'' : Parser} {h : EthernetHeader} {l : List (List ℕ)}
    → parse_header before.header p ≡ some (h, p')
    → Parser.all_remaining p' ≡ some (l, p'')
    → parse_frame before p ≡ some (record { header = h; payload = l }, p'')
unfolding parse_frame
parse_frame-parts before p e f = rw (e, ◌>>=◌) (rw (f, ◌>>=◌))

put_octets-output :
    (bs : List ℕ) (s : Serializer.Serializer) → (Serializer.put_octets bs s).output ≡ s.output
unfolding Serializer.put_octets Serializer.integer
put_octets-output [] s = refl
put_octets-output (b ∷ bs) s = put_octets-output bs (Serializer.integer 1 b s)

serialize_header-output :
    (h : EthernetHeader) (s : Serializer.Serializer) → (serialize_header h s).output ≡ s.output
unfolding serialize_header Serializer.integer
serialize_header-output h s =
    put_octets-output h.src (Serializer.put_octets h.dst s) ∙ put_octets-output h.dst s

-- A frame whose header fields fit their types and whose bytes are fewer than 2^64, is serialized to
-- references of whose owned copies a parser can be made, and parsing them, over any frame with
-- addresses of six bytes, reports no error and gives the same header and the same payload bytes,
-- perhaps divided into other buffers. A parser of the references themselves throws, since they
-- borrow the payload, if the payload has a byte, and else is the same parser.
pub parse_frame-serialize_frame :
    (before f : EthernetFrame)
    → length before.header.dst ≡ 6
    → length before.header.src ≡ 6
    → IsHeader f.header
    → length (header_bytes f.header ++ concat f.payload) < u64
    → (payload : List (List ℕ)) × (p : Parser) × (parse_frame before
          (Parser.make (Serializer.finish (serialize_frame f Serializer.empty)))
        ≡ some (record { header = f.header; payload = payload }, p))
      × (p.error ≡ false)
      × (concat payload ≡ concat f.payload)
      × (Parser.construct (copies (Serializer.finish_refs (serialize_frame f Serializer.empty)))
          ≡ some (Parser.make (Serializer.finish (serialize_frame f Serializer.empty))))
      × (Parser.construct (Serializer.finish_refs (serialize_frame f Serializer.empty)) ≡ (
          if length (concat f.payload) == 0
          then some (Parser.make (Serializer.finish (serialize_frame f Serializer.empty)))
          else none))
unfolding serialize_frame
parse_frame-serialize_frame before f d s hf small =
    let buffers = Serializer.finish (serialize_frame f Serializer.empty) in
    let (e, pieces) = finish-Writes (serialize_frame f) _ (serialize_frame-Writes f) in
    let start = make-Holds buffers pieces (rw e small) in
    let (p, q, h) =
      (parse_header-Reads before.header f.header d s hf).at (concat f.payload) _ (rw e at start) in
    let (payload, r, c) = all_remaining-concat p (concat f.payload) h in
    (
      payload,
      p,
      parse_frame-parts before _ q r,
      h.no_error,
      c,
      construct-copies (serialize_frame f Serializer.empty),
      construct-put_buffers f.payload (serialize_header f.header Serializer.empty)
          (serialize_header-output f.header Serializer.empty),
    )
