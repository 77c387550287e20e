-- ===== src/Reassembler.antt =====
-- src/reassembler.hh and src/reassembler.cc: the reassembler, which puts substrings that arrive in any order
-- back into the byte stream. Its `std::map` is a list of entries in the order of the keys. Numbers are `uint64_t`.
pub mod Order
pub mod Slices
pub mod Cache
pub mod Stored
pub mod Done
pub mod Delivered
pub mod Inv
pub mod Insert
pub mod AnyOrder
pub mod Bounds
pub mod Tests
use computer_networking.Prelude.{
  ℕ, zero, suc, ◌+◌, ◌-◌, ◌%◌, ◌^◌, min, max, Bool, true, false, not, ◌&&◌, ◌||◌, Option, none,
  some, List, [], ◌∷◌, ◌++◌, length, take, drop, ltb, leb, ◌==◌, if◌then◌else◌, u32, u64, add_w,
  sub_w,
}
use computer_networking.ByteStream
use computer_networking.ByteStream.{ByteStream}

-- An entry of `cache_`: the index of its first byte, of its last byte, and the bytes.
pub record Segment : Type 0 where
  pub start : ℕ
  pub last : ℕ
  pub bytes : List ℕ

-- `class Reassembler`.
pub record Reassembler : Type 0 where
  pub output : ByteStream
  pub cache : List Segment
  pub finish : Bool
  pub finish_set : ℕ

-- Its constructor; `finish_set` starts as -1.
abbrev pub init : ByteStream → Reassembler
init output = record { output = output; cache = []; finish = false; finish_set = u64 - 1 }

-- `uint64_t( max( int( n ), 0 ) )`: the low 32 bits of `n`, or 0 where they are a negative `int`.
unfoldable pub clamp_int : ℕ → ℕ
clamp_int n = if ltb (n % u32) (2 ^ 31) then n % u32 else 0

-- `cache_[start] = make_pair( last, bytes )`.
unfoldable pub put : Segment → List Segment → List Segment
put s [] = s ∷ []
put s (x ∷ xs) =
    let later = put s xs in
    if s.start == x.start then s ∷ xs else (if ltb s.start x.start then s ∷ x ∷ xs else x ∷ later)

-- `data.substr( pos, n )` of a `string_view`, which throws past the end.
abbrev pub substr : List ℕ → ℕ → ℕ → Option (List ℕ)
substr bytes pos n = if ltb (length bytes) pos then none else some (take n (drop pos bytes))

-- What the loop over the cache changes: `write_index`, `trimmed_data` and the cache; and how a round ends.
pub record Work : Type 0 where
  pub write_index : ℕ
  pub trimmed_data : List ℕ
  pub cache : List Segment

pub data Round : Type 0 where
  go_on : Work → Round
  break_off : Work → Round
  throws : Round

abbrev pub next_round : ℕ → Work → Option (List ℕ) → Round
next_round new_segment_start w none = Round.throws
next_round new_segment_start w (some bytes) =
    Round.go_on (record w { write_index = new_segment_start; trimmed_data = bytes })

-- A round where the data start before the current segment but reach it: the part before is cached, and the rest
-- begins after the segment.
abbrev pub put_before : ℕ → ℕ → Work → Option (List ℕ) → Option Work
put_before start last w none = none
put_before start last w (some bytes) = some (record w {
  cache = put (record { start = w.write_index; last = last; bytes = bytes }) w.cache;
})

abbrev pub after_put : ℕ → Segment → Option Work → Round
after_put last_data_index segment none = Round.throws
after_put last_data_index segment (some w) =
    let new_segment_start =
      max (add_w u64 w.write_index (sub_w u64 segment.start w.write_index))
        (add_w u64 segment.last 1) in
    if ltb last_data_index new_segment_start
    then Round.break_off w
    else next_round new_segment_start w (
        substr w.trimmed_data (sub_w u64 new_segment_start w.write_index)
          (add_w u64 (sub_w u64 last_data_index new_segment_start) 1))

unfoldable pub overlap_from_before : ℕ → Segment → Work → Round
overlap_from_before last_data_index segment w = after_put last_data_index segment (
    put_before w.write_index (sub_w u64 segment.start 1) w
      (substr w.trimmed_data 0 (sub_w u64 segment.start w.write_index)))

-- A round where the data start in the current segment or after it.
unfoldable pub overlap_from_within : ℕ → Segment → Work → Round
overlap_from_within last_data_index segment w =
    let new_segment_start = max (add_w u64 segment.last 1) w.write_index in
    if leb last_data_index segment.last
    then Round.break_off w
    else next_round new_segment_start w (
        substr w.trimmed_data (sub_w u64 new_segment_start w.write_index)
          (add_w u64 (sub_w u64 last_data_index segment.start) 1))

-- The body of the loop, its last test apart.
unfoldable pub round : ℕ → Segment → Work → Round
round last_data_index segment w =
    if ltb w.write_index segment.start
    then (if ltb last_data_index segment.start
        then Round.break_off (record w {
          cache =
              put (record { start = w.write_index; last = last_data_index; bytes = w.trimmed_data })
                w.cache;
        })
        else overlap_from_before last_data_index segment w)
    else overlap_from_within last_data_index segment w

-- The loop. The segments that it puts into the cache have keys before the current one, so that it visits
-- those that were there at its start.
abbrev pub after_round : ℕ → Round → (Work → Option Work) → Option Work
after_round last_data_index Round.throws rest = none
after_round last_data_index (Round.break_off w) rest = some w
after_round last_data_index (Round.go_on w) rest =
    if ltb last_data_index w.write_index then some w else rest w

unfoldable pub visit : ℕ → List Segment → Work → Option Work
visit last_data_index [] w = some w
visit last_data_index (segment ∷ segments) w =
    after_round last_data_index (round last_data_index segment w) (visit last_data_index segments)

-- The choice before the loop.
unfoldable pub store : ℕ → Work → Option Work
store last_data_index w = store_in w.cache
  where
    store_in : List Segment → Option Work
    store_in [] =
        if leb w.write_index last_data_index
        then some (record w {
          cache =
              put (record { start = w.write_index; last = last_data_index; bytes = w.trimmed_data })
                [];
        })
        else some w
    store_in (s ∷ ss) = visit last_data_index (s ∷ ss) w

-- What reaches beyond the last segment.
abbrev pub last_of : List Segment → Option ℕ
last_of [] = none
last_of (s ∷ []) = some s.last
last_of (s ∷ t ∷ ts) = last_of (t ∷ ts)

abbrev pub put_last : ℕ → ℕ → Work → Option (List ℕ) → Option Work
put_last start last w none = none
put_last start last w (some bytes) = some (record w {
  trimmed_data = bytes;
  cache = put (record { start = start; last = last; bytes = bytes }) w.cache;
})

abbrev pub append_to : ℕ → Option ℕ → Work → Option Work
append_to last_data_index none w = some w
append_to last_data_index (some end_of) w =
    let last_segment_start_index = max w.write_index (add_w u64 end_of 1) in
    if ltb end_of last_data_index && not (length w.trimmed_data == 0)
    then put_last last_segment_start_index last_data_index w (
        substr w.trimmed_data (sub_w u64 last_segment_start_index w.write_index)
          (add_w u64 (sub_w u64 last_data_index last_segment_start_index) 1))
    else some w

unfoldable pub append_rest : ℕ → Work → Option Work
append_rest last_data_index w = append_to last_data_index (last_of w.cache) w

-- The loop that takes the segments that are next off the cache: the bytes to push, the number of the
-- byte that is expected then, and the segments left.
unfoldable pub collect : ℕ → List Segment → List ℕ × ℕ × List Segment
collect next_expected [] = ([], next_expected, [])
collect next_expected (s ∷ ss) =
    let (data_to_push, next, rest) =
      collect (add_w u64 next_expected (add_w u64 (sub_w u64 s.last s.start) 1)) ss in
    if s.start == next_expected
    then (s.bytes ++ data_to_push, next, rest)
    else ([], next_expected, s ∷ ss)

-- The end of `insert`: the push and the close.
abbrev pub is_empty {ℓ} : {A : Type ℓ} → List A → Bool
is_empty xs = length xs == 0

unfoldable pub deliver : ℕ → Reassembler → Reassembler
deliver next_expected r =
    let (data_to_push, next, rest) = collect next_expected r.cache in
    let pushed =
      if is_empty data_to_push then r.output else ByteStream.push data_to_push r.output in
    record r {
      cache = rest;
      output =
          if r.finish && is_empty rest && leb r.finish_set next
          then ByteStream.close pushed
          else pushed;
    }

-- The end of the available window, and the last index of the data.
unfoldable pub window_end : ByteStream → ℕ
window_end s = sub_w u64 (add_w u64 (ByteStream.bytes_pushed s) (ByteStream.available_capacity s)) 1

unfoldable pub note_last : ℕ → ℕ → Bool → Reassembler → Reassembler
note_last first_index data_size is_last_substring r =
    if is_last_substring
      && leb (clamp_int (sub_w u64 (add_w u64 first_index data_size) 1))
          (clamp_int (window_end r.output))
    then record r { finish = true; finish_set = add_w u64 first_index data_size }
    else r

abbrev pub with_work : Reassembler → Option Work → Option Reassembler
with_work r none = none
with_work r (some w) = some (record r { cache = w.cache })

abbrev pub deliver_some : ℕ → Option Reassembler → Option Reassembler
deliver_some next_expected none = none
deliver_some next_expected (some r) = some (deliver next_expected r)

abbrev pub bind_work : Option Work → (Work → Option Work) → Option Work
bind_work none f = none
bind_work (some w) f = f w

-- The part of `insert` after its early return. The view `trimmed_data` lies within `data` there.
unfoldable pub insert_within : ℕ → List ℕ → Reassembler → Option Reassembler
insert_within first_index bytes r =
    let next_expected = ByteStream.bytes_pushed r.output in
    let write_index = max next_expected first_index in
    let last_data_index =
      min (clamp_int (window_end r.output))
        (clamp_int (sub_w u64 (add_w u64 first_index (length bytes)) 1)) in
    let trimmed_data =
      take (min (add_w u64 (sub_w u64 last_data_index write_index) 1) (length bytes))
        (drop (write_index - first_index) bytes) in
    deliver_some next_expected (
      with_work r (
        bind_work
          (store last_data_index
            (record { write_index = write_index; trimmed_data = trimmed_data; cache = r.cache }))
          (append_rest last_data_index)))

-- `void Reassembler::insert( uint64_t first_index, string data, bool is_last_substring )`; `none` is an
-- exception of `substr`.
unfoldable pub insert : ℕ → List ℕ → Bool → Reassembler → Option Reassembler
insert first_index bytes is_last_substring r =
    let r' = note_last first_index (length bytes) is_last_substring r in
    if ltb (window_end r.output) first_index
      || ltb (add_w u64 (length bytes) first_index) (ByteStream.bytes_pushed r.output)
    then some r'
    else insert_within first_index bytes r'

-- `uint64_t Reassembler::count_bytes_pending() const`.
unfoldable pub bytes_in : List Segment → ℕ
bytes_in [] = 0
bytes_in (s ∷ ss) = add_w u64 (length s.bytes) (bytes_in ss)

unfoldable pub count_bytes_pending : Reassembler → ℕ
count_bytes_pending r = bytes_in r.cache
