-- ===== src/ByteStream.antt =====
-- src/byte_stream.hh, src/byte_stream.cc and `read` of src/byte_stream_helpers.cc: the flow-controlled
-- byte stream. `Writer` and `Reader` are views of one `ByteStream` (the accessors of the helpers file
-- cast one to the other), so their methods are functions on the one record. A byte is a number.
pub mod Inv
pub mod Read
pub mod Fifo
pub mod Refine
mod Tests
use computer_networking.Prelude.{
  ℕ, zero, suc, ◌+◌, ◌-◌, ◌/◌, ◌%◌, min, Bool, true, false, ◌&&◌, Option, none, some, List, [], ◌∷◌,
  ◌++◌, length, take, drop, ltb, ◌==◌, if◌then◌else◌, u64, add_w, sub_w,
}

-- `class ByteStream`. `buffer` holds the popped bytes before `start_index` too, until `push` drops them.
pub record ByteStream : Type 0 where
  pub capacity : ℕ
  pub error : Bool
  pub buffer : List ℕ
  pub num_bytes_pushed : ℕ
  pub num_bytes_poped : ℕ
  pub closed : Bool
  pub start_index : ℕ
  pub end_index : ℕ
  pub buffer_size : ℕ

-- `ByteStream::ByteStream( uint64_t capacity )`; the call of `reserve` changes no contents.
unfoldable pub init : ℕ → ByteStream
init capacity = record {
  capacity = capacity;
  error = false;
  buffer = [];
  num_bytes_pushed = 0;
  num_bytes_poped = 0;
  closed = false;
  start_index = 0;
  end_index = 0;
  buffer_size = 0;
}

-- `ByteStream::set_error` and `ByteStream::has_error`.
unfoldable pub set_error : ByteStream → ByteStream
set_error s = record s { error = true }

unfoldable pub has_error : ByteStream → Bool
has_error s = s.error

-- `Writer::available_capacity`: the `uint64_t` difference wraps.
unfoldable pub available_capacity : ByteStream → ℕ
available_capacity s = sub_w u64 s.capacity s.buffer_size

-- The first statement of `Writer::push`: the popped bytes go when they are more than half.
unfoldable pub compact : ByteStream → ByteStream
compact s =
    if ltb (length s.buffer / 2) s.start_index
    then record s {
      buffer = drop s.start_index s.buffer;
      end_index = sub_w u64 s.end_index s.start_index;
      start_index = 0;
    }
    else s

-- The rest of `Writer::push`.
unfoldable pub append : List ℕ → ByteStream → ByteStream
unfolding available_capacity
append bytes s =
    let num_bytes_to_push = min (available_capacity s) (length bytes) in
    record s {
      buffer = s.buffer ++ take num_bytes_to_push bytes;
      num_bytes_pushed = add_w u64 s.num_bytes_pushed num_bytes_to_push;
      end_index = add_w u64 s.end_index num_bytes_to_push;
      buffer_size = add_w u64 s.buffer_size num_bytes_to_push;
    }

-- `Writer::push`.
unfoldable pub push : List ℕ → ByteStream → ByteStream
unfolding compact append
push bytes s = append bytes (compact s)

-- `Writer::close`, `Writer::is_closed` and `Writer::bytes_pushed`.
unfoldable pub close : ByteStream → ByteStream
close s = record s { closed = true }

unfoldable pub is_closed : ByteStream → Bool
is_closed s = s.closed

unfoldable pub bytes_pushed : ByteStream → ℕ
bytes_pushed s = s.num_bytes_pushed

-- `Reader::peek`: a view of `buffer_size` bytes from `start_index` on.
unfoldable pub peek : ByteStream → List ℕ
peek s = peek_in s.buffer
  where
    peek_in : List ℕ → List ℕ
    peek_in [] = []
    peek_in (b ∷ bs) = take s.buffer_size (drop s.start_index (b ∷ bs))

-- `Reader::bytes_buffered`, `Reader::bytes_popped` and `Reader::is_finished`.
unfoldable pub bytes_buffered : ByteStream → ℕ
bytes_buffered s = s.buffer_size

unfoldable pub bytes_popped : ByteStream → ℕ
bytes_popped s = s.num_bytes_poped

unfoldable pub is_finished : ByteStream → Bool
unfolding bytes_buffered
is_finished s = s.closed && (bytes_buffered s == 0)

-- `Reader::pop`.
unfoldable pub pop : ℕ → ByteStream → ByteStream
unfolding bytes_buffered
pop len s =
    let num_bytes_to_pop = min len (bytes_buffered s) in
    record s {
      start_index = add_w u64 s.start_index num_bytes_to_pop;
      buffer_size = sub_w u64 s.buffer_size num_bytes_to_pop;
      num_bytes_poped = add_w u64 s.num_bytes_poped num_bytes_to_pop;
    }

-- What `read` does: it returns the bytes, throws `runtime_error` on an empty view, or (not a C++
-- outcome) its fuel runs out.
pub data ReadResult : Type 0 where
  returned : List ℕ → ByteStream → ReadResult
  thrown : ReadResult
  out_of_fuel : ReadResult

-- The loop of `read`: `out` are the bytes read so far.
unfoldable pub read_loop : ℕ → ℕ → List ℕ → ByteStream → ReadResult
unfolding bytes_buffered peek pop
read_loop zero max_len out s = out_of_fuel
read_loop (suc fuel) max_len out s =
    let view = peek s in
    let part = take (max_len - length out) view in
    let rest = read_loop fuel max_len (out ++ part) (pop (length part) s) in
    if ltb 0 (bytes_buffered s) && ltb (length out) max_len
    then (if length view == 0 then thrown else rest)
    else returned out s

-- `void read( Reader& reader, uint64_t max_len, std::string& out )`; two rounds are enough for a
-- valid stream.
unfoldable pub read : ℕ → ℕ → ByteStream → ReadResult
read fuel max_len s = read_loop fuel max_len [] s
