-- ===== src/Serializer.antt =====
-- util/parser.hh and util/parser.cc, `class Serializer`: integers are collected in big-endian order, and
-- buffers are passed on whole.
pub mod Writes
pub mod Borrowed
use computer_networking.Prelude.{
  ℕ, zero, suc, ◌+◌, ◌*◌, ◌/◌, ◌%◌, ◌^◌, ◌<◌, ◌≡◌, refl, sym, ap, ◌∙◌, List, [], ◌∷◌, ◌++◌, All,
  length, append-nil, append_assoc, arith,
}
use computer_networking.Parser.{concat}
use computer_networking.Ref.{Ref, own, borrow, objects}

-- `class Serializer`.
pub record Serializer : Type 0 where
  pub output : List Ref
  pub buffer : List ℕ

abbrev pub empty : Serializer
empty = record { output = []; buffer = [] }

-- `Serializer::flush`.
abbrev pub flushed : List Ref → List ℕ → List Ref
flushed output [] = output
flushed output (b ∷ bs) = output ++ own (b ∷ bs) ∷ []

unfoldable pub flush : Serializer → Serializer
flush s = record { output = flushed s.output s.buffer; buffer = [] }

-- The bytes of `val` in a type of so many bytes, the highest first.
abbrev pub big_endian : ℕ → ℕ → List ℕ
big_endian zero val = []
big_endian (suc k) val = (val / 256 ^ k % 256) ∷ big_endian k val

-- `void Serializer::integer( const T val )`.
unfoldable pub integer : ℕ → ℕ → Serializer → Serializer
integer width val s = record s { buffer = s.buffer ++ big_endian width val }

-- `void Serializer::buffer( Ref<std::string> buf )`: nothing for an empty object, else it is moved to the output.
unfoldable pub put_nonempty : List ℕ → Ref → Serializer → Serializer
unfolding flush
put_nonempty [] buf s = s
put_nonempty (b ∷ bs) buf s = record { output = (flush s).output ++ buf ∷ []; buffer = [] }

unfoldable pub put_ref : Ref → Serializer → Serializer
put_ref buf s = put_nonempty buf.object buf s

-- The one on a string, which the output then owns, ...
unfoldable pub put_buffer : List ℕ → Serializer → Serializer
unfolding put_ref
put_buffer buf s = put_ref (own buf) s

-- ... and the one on a vector, whose objects the output borrows.
unfoldable pub put_buffers : List (List ℕ) → Serializer → Serializer
put_buffers [] s = s
put_buffers (b ∷ bufs) s = put_buffers bufs (put_ref (borrow (own b)) s)

-- `Serializer::finish`, and the strings that what it returns gives access to.
unfoldable pub finish_refs : Serializer → List Ref
unfolding flush
finish_refs s = (flush s).output

unfoldable pub finish : Serializer → List (List ℕ)
unfolding finish_refs
finish s = objects (finish_refs s)

-- `for ( const auto& b : array ) serializer.integer( b )` over an array of bytes.
unfoldable pub put_octets : List ℕ → Serializer → Serializer
put_octets [] s = s
put_octets (b ∷ bs) s = put_octets bs (integer 1 b s)
