-- ===== src/Ipv4/Datagram.antt =====
-- IPv4 datagrams: the computed checksum, the round trip of a whole datagram, and what `truncate` does to
-- one that is followed by padding.
use computer_networking.Prelude.{
  ℕ, ◌+◌, ◌≤◌, ◌<◌, ◌≡◌, refl, ap, ◌∙◌, subst, false, some, none, List, [], ◌∷◌, ◌++◌, length,
  length-append, arith, u16, ◌==◌, if◌then◌else◌,
}
use computer_networking.Parser
use computer_networking.Parser.{
  BufferList, Parser, M, concat, pure, ◌>>=◌, ◌>>◌, truncate_loop, truncate_buffers, dump_all,
  dump_front,
}
use computer_networking.Parser.Buffers.{Holds, make-Holds}
use computer_networking.Parser.Reads.{all_remaining-concat}
use computer_networking.Serializer
use computer_networking.Serializer.{big_endian}
use computer_networking.Ref.{copies}
use computer_networking.Serializer.Borrowed.{construct-copies, construct-put_buffers}
use computer_networking.Serializer.Writes.{Writes, Writes-then, Writes-buffers, finish-Writes}
use computer_networking.Checksum
use computer_networking.Checksum.Laws.{value_total, add_all-word}
use computer_networking.Ipv4.{
  Ipv4Header, Ipv4Datagram, serialize_fields, serialize_header, serialize, compute_checksum,
  payload_length, parse_header, parse, put_payload, with_checksum, checksum_of,
}
use computer_networking.Ipv4.RoundTrip.{
  IsHeader, header_bytes, serialize_fields-Writes, parse_header-Reads,
}

serialize_header-four :
    (h : Ipv4Header) (s : Serializer.Serializer)
    → h.ver ≡ 4
    → serialize_header h s ≡ some (serialize_fields h s)
unfolding serialize_header
serialize_header-four h s v = ground arith

compute_checksum-value :
    (h : Ipv4Header) (c : ℕ)
    → h.ver ≡ 4
    → Checksum.value (
        Checksum.add_all
          (Serializer.finish (serialize_fields (record h { cksum = 0 }) Serializer.empty))
          (Checksum.make 0))
      ≡ some c
    → compute_checksum h ≡ some (record h { cksum = c })
unfolding compute_checksum
compute_checksum-value h c v e =
    ap (λ s. with_checksum h (checksum_of s))
      (serialize_header-four (record h { cksum = 0 }) Serializer.empty v)
    ∙ ap (with_checksum h) e

-- On a header of version 4, `compute_checksum` succeeds; it changes the checksum alone, to a 16-bit
-- number, and doing it again changes nothing.
pub compute_checksum_total :
    (h : Ipv4Header)
    → h.ver ≡ 4
    → (c : ℕ) × (compute_checksum h ≡ some (record h { cksum = c }))
      × (c < u16)
      × (compute_checksum (record h { cksum = c }) ≡ some (record h { cksum = c }))
compute_checksum_total h v =
    let s = serialize_fields (record h { cksum = 0 }) Serializer.empty in
    let (c, e, b, m, z) =
      value_total (Checksum.add_all (Serializer.finish s) (Checksum.make 0))
        (add_all-word (Serializer.finish s) _ (omega arith)) in
    (c, compute_checksum-value h c v e, b, compute_checksum-value (record h { cksum = c }) c v e)

truncate_buffers-all : (b : BufferList) (len : ℕ) → b.size ≤ len → truncate_buffers len b ≡ b
unfolding truncate_buffers
truncate_buffers-all b len k = ground arith

truncate-all :
    (p : Parser) (bytes : List ℕ) (len : ℕ)
    → Holds p bytes
    → length bytes ≤ len
    → Parser.truncate len p ≡ some (tt, p)
unfolding Parser.truncate
truncate-all p bytes len h k =
    ap (λ i. some (tt, record p { input = i }))
      (truncate_buffers-all p.input len (omega (arith, h.valid.sized, ap length h.left)))

serialize-Writes :
    (d : Ipv4Datagram)
    → Writes
        (λ s. Serializer.put_buffers d.payload (serialize_fields d.header s))
        (header_bytes d.header ++ concat d.payload)
serialize-Writes d =
    Writes-then (serialize_fields d.header) (Serializer.put_buffers d.payload) _ _
      (serialize_fields-Writes d.header) (Writes-buffers d.payload)

parse-parts :
    (before : Ipv4Datagram) (p : Parser) {p' p'' : Parser} {h : Ipv4Header} {l : List (List ℕ)}
    → parse_header before.header p ≡ some (h, p')
    → Parser.truncate (payload_length h) p' ≡ some (tt, p')
    → Parser.all_remaining p' ≡ some (l, p'')
    → parse before p ≡ some (record { header = h; payload = l }, p'')
unfolding parse
parse-parts before p e t f = rw (e, ◌>>=◌) (rw (t, ◌>>=◌) (rw (f, ◌>>=◌)))

-- A datagram with a header of fitting fields and right checksum, whose length field is that of the
-- header and the payload, is serialized without an exception; a parser can be made of owned copies
-- of the references that come out, and parsing them reports no error and gives the same header and
-- the same payload bytes, perhaps divided into other buffers. A parser of the references themselves
-- throws, since they borrow the payload, if the payload has a byte, and else is the same parser.
pub parse-serialize_datagram :
    (before d : Ipv4Datagram)
    → IsHeader d.header
    → compute_checksum d.header ≡ some d.header
    → d.header.len ≡ 20 + length (concat d.payload)
    → (s : Serializer.Serializer) × (payload : List (List ℕ)) × (p : Parser) × (serialize d
          Serializer.empty
        ≡ some s)
      × (parse before (Parser.make (Serializer.finish s))
          ≡ some (record { header = d.header; payload = payload }, p))
      × (p.error ≡ false)
      × (concat payload ≡ concat d.payload)
      × (Parser.construct (copies (Serializer.finish_refs s))
          ≡ some (Parser.make (Serializer.finish s)))
      × (Parser.construct (Serializer.finish_refs s) ≡ (
          if length (concat d.payload) == 0
          then some (Parser.make (Serializer.finish s))
          else none))
unfolding serialize serialize_header
parse-serialize_datagram before d v c n =
    let s = Serializer.put_buffers d.payload (serialize_fields d.header Serializer.empty) in
    let (e, pieces) =
      finish-Writes (λ x. Serializer.put_buffers d.payload (serialize_fields d.header x)) _
        (serialize-Writes d) in
    let start = make-Holds (Serializer.finish s) pieces (
      rw e (omega (arith, v.len_word, length-append (header_bytes d.header) (concat d.payload)))) in
    let (p, q, h) =
      (parse_header-Reads before.header d.header v c).at (concat d.payload)
        (Parser.make (Serializer.finish s))
        (subst (Holds (Parser.make (Serializer.finish s))) e start) in
    let t =
      truncate-all p (concat d.payload) (payload_length d.header) h
        (unfold payload_length in omega (arith, v.no_options, v.len_word)) in
    let (payload, r, k) = all_remaining-concat p (concat d.payload) h in
    (
      s,
      payload,
      p,
      ap (put_payload d.payload) (serialize_header-four d.header Serializer.empty v.ver_four),
      parse-parts before _ q t r,
      h.no_error,
      k,
      construct-copies s,
      construct-put_buffers d.payload (serialize_fields d.header Serializer.empty)
          (unfold serialize_fields Serializer.integer in refl),
    )

-- Where some bytes are to be kept, fewer than there are and fewer than the first buffer has,
-- `truncate` keeps none of them: the list is empty though its size is not 0, and reading what is
-- left fails.
pub truncate-loses :
    (x : List ℕ) (xs : List (List ℕ)) (skip size len : ℕ)
    → 0 < len
    → len < size
    → len < length x
    → let p : Parser = record {
      input = record { size = size; buffer = x ∷ xs; skip = skip };
      error = false;
    } in
      let q : Parser = record {
        input = record { size = len; buffer = []; skip = skip };
        error = false;
      } in
      (Parser.truncate len p ≡ some (tt, q)) × (Parser.all_remaining q ≡ none)
unfolding Parser.truncate truncate_buffers truncate_loop Parser.all_remaining dump_all dump_front
truncate-loses x xs skip size len h k l = (
  ap (λ (i : BufferList). some (tt, record { input = i; error = false })) (ground arith),
  ground arith,
)
