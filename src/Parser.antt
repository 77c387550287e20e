-- ===== src/Parser.antt =====
-- util/parser.hh and util/parser.cc, `class Parser` and its `BufferList`: reading from a queue of
-- buffers, each the string of a `Ref` that owns it: a borrowed one is refused when the parser is made. A
-- method that may throw, or read the front of an empty view, returns an option.
pub mod Buffers
pub mod Reads
use computer_networking.Prelude.{
  ℕ, zero, suc, ◌+◌, ◌-◌, ◌*◌, ◌%◌, ◌^◌, min, Bool, true, false, ◌||◌, Option, none, some, List, [],
  ◌∷◌, ◌++◌, length, take, drop, ltb, leb, ◌==◌, if◌then◌else◌, u64, sub_w,
}
use computer_networking.Ref.{Ref}

-- `class BufferList`.
pub record BufferList : Type 0 where
  pub size : ℕ
  pub buffer : List (List ℕ)
  pub skip : ℕ

-- The sum of the constructor's loop.
abbrev pub total : List (List ℕ) → ℕ
total [] = 0
total (x ∷ xs) = length x + total xs

-- A list of strings that it owns, of which nothing is skipped.
unfoldable pub hold_buffers : List (List ℕ) → BufferList
hold_buffers buffers = record { size = total buffers % u64; buffer = buffers; skip = 0 }

-- `BufferList( std::ranges::range auto&& buffers )`: its loop throws at the first borrowed `Ref`.
abbrev pub prepend : {A : Type 0} → A → Option (List A) → Option (List A)
prepend x none = none
prepend x (some xs) = some (x ∷ xs)

unfoldable pub take_over : List Ref → Option (List (List ℕ))
take_over [] = some []
take_over (x ∷ buffers) =
    let rest = take_over buffers in if x.is_borrowed then none else prepend x.object rest

abbrev pub held : Option (List (List ℕ)) → Option BufferList
held none = none
held (some strings) = some (hold_buffers strings)

unfoldable pub make_buffers : List Ref → Option BufferList
make_buffers buffers = held (take_over buffers)

-- `BufferList::peek`, on the front buffer; it throws on an empty list.
unfoldable pub peek_front : List (List ℕ) → ℕ → Option (List ℕ)
peek_front [] skip = none
peek_front (x ∷ xs) skip = some (drop skip x)

unfoldable pub peek : BufferList → Option (List ℕ)
peek b = peek_front b.buffer b.skip

-- The loop of `BufferList::remove_prefix`, on the buffers, the skipped bytes and the size. A round that
-- does not use up the front buffer has used up `len`, so the loop ends there.
unfoldable pub remove_loop : ℕ → List (List ℕ) → ℕ → ℕ → BufferList
remove_loop len [] skip size = record { size = size; buffer = []; skip = skip }
remove_loop len (x ∷ xs) skip size =
    let to_pop_now = min len (length x - skip) in
    let size' = sub_w u64 size to_pop_now in
    let more = remove_loop (len - to_pop_now) xs 0 size' in
    if len == 0
    then record { size = size; buffer = x ∷ xs; skip = skip }
    else (if skip + to_pop_now == length x
        then more
        else record { size = size'; buffer = x ∷ xs; skip = skip + to_pop_now })

unfoldable pub remove_prefix : ℕ → BufferList → BufferList
remove_prefix len b = remove_loop len b.buffer b.skip b.size

-- The loops of `BufferList::truncate`: whole buffers are kept while they fit in what is left of `len`. A
-- buffer that is larger is resized, but the second loop then erases from that buffer on, since `it` still
-- points to it. The bytes that `skip_` passes over are counted, as in the source.
unfoldable pub truncate_loop : ℕ → List (List ℕ) → List (List ℕ)
truncate_loop left [] = []
truncate_loop left (x ∷ xs) =
    let rest = truncate_loop (left - length x) xs in
    if ltb (length x) left then x ∷ rest else (if length x == left then x ∷ [] else [])

-- `BufferList::truncate`.
unfoldable pub truncate_buffers : ℕ → BufferList → BufferList
truncate_buffers len b =
    if leb b.size len
    then b
    else (if len == 0
        then record b { buffer = []; size = 0 }
        else record b { buffer = truncate_loop len b.buffer; size = len })

-- `BufferList::dump_all` where `size_` is not 0: the front buffer without its skipped bytes, and the
-- others. The front of an empty list is out of bounds.
unfoldable pub dump_front : List (List ℕ) → ℕ → Option (List (List ℕ))
dump_front [] skip = none
dump_front (x ∷ xs) skip = some ((if skip == 0 then x else drop skip x) ∷ xs)

-- `BufferList::dump_all`: what goes to `out`.
unfoldable pub dump_all : BufferList → Option (List (List ℕ))
dump_all b = if b.size == 0 then some [] else dump_front b.buffer b.skip

-- `BufferList::buffer`: the views of what is left, `skip_` taken off the first.
abbrev pub views_of : List (List ℕ) → ℕ → List (List ℕ)
views_of [] skip = []
views_of (x ∷ xs) skip = drop skip x ∷ xs

unfoldable pub views : BufferList → List (List ℕ)
views b = if b.size == 0 then [] else views_of b.buffer b.skip

-- `class Parser`.
pub record Parser : Type 0 where
  pub input : BufferList
  pub error : Bool

-- A parser over strings that it owns, and the constructor, which makes one or throws.
unfoldable pub make : List (List ℕ) → Parser
make buffers = record { input = hold_buffers buffers; error = false }

abbrev pub over_input : Option BufferList → Option Parser
over_input none = none
over_input (some input) = some (record { input = input; error = false })

unfoldable pub construct : List Ref → Option Parser
construct input = over_input (make_buffers input)

-- A parsing step: `none` is a thrown exception or an access out of bounds.
abbrev pub M : Type 0 → Type 0
M A = Parser → Option (A × Parser)

abbrev pub pure : {A : Type 0} → A → M A
pure a p = some (a, p)

infixl 5 ◌>>=◌ ◌>>◌
abbrev pub ◌>>=◌ : {A B : Type 0} → M A → (A → M B) → M B
◌>>=◌ m f p = elim (m p) [ none ↦ none | some (a, p') ↦ f a p' ]

abbrev pub ◌>>◌ : {B : Type 0} → M (Unit {0}) → M B → M B
m >> k = m >>= λ _. k

-- `Parser::has_error`, `set_error`, `remove_prefix`, `truncate` and `all_remaining`.
unfoldable pub has_error : M Bool
has_error p = some (p.error, p)

unfoldable pub set_error : M (Unit {0})
set_error p = some (tt, record p { error = true })

unfoldable pub skip_bytes : ℕ → M (Unit {0})
skip_bytes n p = some (tt, record p { input = remove_prefix n p.input })

unfoldable pub truncate : ℕ → M (Unit {0})
truncate len p = some (tt, record p { input = truncate_buffers len p.input })

-- (What `dump_all` leaves of the parser's own list is not read again.)
abbrev pub with_parser : {A : Type 0} → Parser → Option A → Option (A × Parser)
with_parser p none = none
with_parser p (some a) = some (a, p)

unfoldable pub all_remaining : M (List (List ℕ))
all_remaining p = with_parser p (dump_all p.input)

-- `Parser::check_size`.
unfoldable pub check_size : ℕ → Parser → Parser
check_size size p = if ltb p.input.size size then record p { error = true } else p

-- `input_.peek().front()`, and the removal of that byte.
unfoldable pub front_of : Option (List ℕ) → Option ℕ
front_of none = none
front_of (some []) = none
front_of (some (x ∷ xs)) = some x

unfoldable pub next_byte : M ℕ
next_byte p = with_parser (record p { input = remove_prefix 1 p.input }) (front_of (peek p.input))

-- The loop of `integer`: `out <<= 8` in a type of `width` bytes, and the next byte put into the low
-- bits that this clears (so `|=` adds it).
unfoldable pub integer_loop : ℕ → ℕ → ℕ → M ℕ
integer_loop width zero out = pure out
integer_loop width (suc rounds) out = do
  b ← next_byte
  integer_loop width rounds (out * 256 % 2 ^ (8 * width) + b)

-- `void Parser::integer( T& out )` for a type of `width` bytes; `old` is the value of `out`, which stays
-- on an error. (At one byte the source's first branch does what a round of the loop does.)
unfoldable pub integer : ℕ → ℕ → M ℕ
integer width old p =
    let p' = check_size width p in
    if p'.error then some (old, p') else integer_loop width width 0 p'

-- `for ( auto& b : array ) parser.integer( b )` over an array of bytes.
unfoldable pub octets : List ℕ → M (List ℕ)
octets [] = pure []
octets (old ∷ olds) = do b ← integer 1 old; bs ← octets olds; pure (b ∷ bs)

-- `Parser::concatenate_all_remaining`.
abbrev pub concat : List (List ℕ) → List ℕ
concat [] = []
concat (x ∷ xs) = x ++ concat xs

unfoldable pub concatenate_all_remaining : M (List ℕ)
concatenate_all_remaining = do buffers ← all_remaining; pure (concat buffers)
