-- ===== src/Reassembler/Order.antt =====
-- Data that arrive in order at a reassembler that holds nothing.
use computer_networking.Prelude.{
  ℕ, ◌+◌, ◌-◌, ◌^◌, ◌≤◌, ◌<◌, min, max, Bool, true, false, ◌&&◌, ◌||◌, some, List, [], ◌∷◌,
  append-nil, length, take, drop, take-of_le, ltb, leb, ==_self, ne→==, ge→ltb, if◌then◌else◌, ◌≡◌,
  refl, ap, ◌∙◌, arith, u64, add_w, sub_w,
}
use computer_networking.ByteStream
use computer_networking.ByteStream.{ByteStream}
use computer_networking.ByteStream.Inv.{IsValid, available_capacity_lem}
use computer_networking.Reassembler.{
  Segment, clamp_int, put, store, append_rest, collect, deliver, window_end, note_last,
  insert_within, insert,
}

pub clamp_int-small : (n : ℕ) → n < 2 ^ 31 → clamp_int n ≡ n
unfolding clamp_int
clamp_int-small n h = ground arith

-- The stream has not come near 2^31 bytes, where `int` ends.
window_end_plain :
    (s : ByteStream)
    → IsValid s
    → s.buffer_size < s.capacity
    → ByteStream.bytes_pushed s + s.capacity < 2 ^ 31
    → window_end s ≡ ByteStream.bytes_pushed s + (s.capacity - s.buffer_size) - 1
unfolding window_end
window_end_plain s v h k =
    ap (λ a. sub_w u64 (add_w u64 (ByteStream.bytes_pushed s) a) 1) (available_capacity_lem v)
    ∙ omega arith

window_end_lem :
    (s : ByteStream)
    → IsValid s
    → s.buffer_size < s.capacity
    → ByteStream.bytes_pushed s + s.capacity < 2 ^ 31
    → clamp_int (window_end s) ≡ ByteStream.bytes_pushed s + (s.capacity - s.buffer_size) - 1
window_end_lem s v h k =
    ap clamp_int (window_end_plain s v h k)
    ∙ clamp_int-small (ByteStream.bytes_pushed s + (s.capacity - s.buffer_size) - 1) (omega arith)

-- One segment that is next in an otherwise empty cache.
store-one :
    (n : ℕ) (bytes : List ℕ)
    → 0 < length bytes
    → store (n + length bytes - 1) (record { write_index = n; trimmed_data = bytes; cache = [] })
      ≡ some (record {
        write_index = n;
        trimmed_data = bytes;
        cache = record { start = n; last = n + length bytes - 1; bytes = bytes } ∷ [];
      })
unfolding store put
store-one n bytes h = ground arith

append_rest-one :
    (n last : ℕ) (bytes : List ℕ) (s : Segment)
    → s.last ≡ last
    → append_rest last (record { write_index = n; trimmed_data = bytes; cache = s ∷ [] })
      ≡ some (record { write_index = n; trimmed_data = bytes; cache = s ∷ [] })
unfolding append_rest
append_rest-one n last bytes s e = rw (ge→ltb s.last last (omega arith))

collect-one :
    (n : ℕ) (bytes : List ℕ)
    → 0 < length bytes
    → n + length bytes < u64
    → collect n (record { start = n; last = n + length bytes - 1; bytes = bytes } ∷ [])
      ≡ (bytes, n + length bytes, [])
unfolding collect
collect-one n bytes h k = rw (==_self n, append-nil bytes) (ap (λ m. (bytes, m, [])) (omega arith))

and_true : (b : Bool) → (b && true) ≡ b
and_true true = refl
and_true false = refl

le→leb : (a b : ℕ) → a ≤ b → leb a b ≡ true
le→leb a b h = ground arith

added : (a b : ℕ) → a + b < u64 → add_w u64 a b ≡ a + b
added a b h = omega arith

max_self : (n : ℕ) → max n n ≡ n
max_self n = omega arith

-- The conditions under which data go straight to the stream: they are next, they fit in the room that the stream has, and the
-- stream is shorter than 2^31 bytes.
module _ (s : ByteStream) (bytes : List ℕ) (v : IsValid s) (some_bytes : 0 < length bytes)
    (fits : length bytes ≤ s.capacity - s.buffer_size)
    (short : ByteStream.bytes_pushed s + s.capacity < 2 ^ 31) where
  last_index :
      clamp_int (sub_w u64 (add_w u64 (ByteStream.bytes_pushed s) (length bytes)) 1)
      ≡ ByteStream.bytes_pushed s + length bytes - 1
  last_index =
      ap clamp_int (omega arith)
      ∙ clamp_int-small (ByteStream.bytes_pushed s + length bytes - 1) (omega arith)

  last_within :
      min
        (clamp_int (window_end s))
        (clamp_int (sub_w u64 (add_w u64 (ByteStream.bytes_pushed s) (length bytes)) 1))
      ≡ ByteStream.bytes_pushed s + length bytes - 1
  last_within = rw (last_index, window_end_lem s v (omega arith) short) (omega arith)

  whole :
      (n : ℕ)
      → n + length bytes < u64
      → take
          (min (add_w u64 (sub_w u64 (n + length bytes - 1) n) 1) (length bytes))
          (drop (n - n) bytes)
        ≡ bytes
  whole n h =
      let e : min (add_w u64 (sub_w u64 (n + length bytes - 1) n) 1) (length bytes) ≡ length bytes =
        omega arith in
      let z : n - n ≡ 0 = omega arith in rw (e, z) (take-of_le (length bytes) bytes (omega arith))

  in_window :
      (ltb (window_end s) (ByteStream.bytes_pushed s)
        || ltb (add_w u64 (length bytes) (ByteStream.bytes_pushed s)) (ByteStream.bytes_pushed s))
      ≡ false
  in_window = rw (
    ge→ltb (window_end s) (ByteStream.bytes_pushed s)
        (omega (arith, window_end_plain s v (omega arith) short)),
    ge→ltb (add_w u64 (length bytes) (ByteStream.bytes_pushed s)) (ByteStream.bytes_pushed s)
        (omega arith),
  )

  insert_within-next :
      (finish : Bool) (finish_set : ℕ)
      → insert_within
          (ByteStream.bytes_pushed s)
          bytes
          (record { output = s; cache = []; finish = finish; finish_set = finish_set })
        ≡ some (record {
          output =
              if finish && leb finish_set (ByteStream.bytes_pushed s + length bytes)
              then ByteStream.close (ByteStream.push bytes s)
              else ByteStream.push bytes s;
          cache = [];
          finish = finish;
          finish_set = finish_set;
        })
  unfolding insert_within deliver
  insert_within-next finish finish_set = rw (
    last_within,
    max_self (ByteStream.bytes_pushed s),
    whole (ByteStream.bytes_pushed s) (omega arith),
    store-one (ByteStream.bytes_pushed s) bytes some_bytes,
    append_rest-one (ByteStream.bytes_pushed s) (ByteStream.bytes_pushed s + length bytes - 1) bytes
        (record {
          start = ByteStream.bytes_pushed s;
          last = ByteStream.bytes_pushed s + length bytes - 1;
          bytes = bytes;
        })
        refl,
    collect-one (ByteStream.bytes_pushed s) bytes some_bytes (omega arith),
    ne→== (length bytes) 0 (λ z. omega arith),
    and_true finish,
  )

  noted :
      leb
        (clamp_int (sub_w u64 (add_w u64 (ByteStream.bytes_pushed s) (length bytes)) 1))
        (clamp_int (window_end s))
      ≡ true
  noted =
      rw (last_index, window_end_lem s v (omega arith) short)
        (le→leb (ByteStream.bytes_pushed s + length bytes - 1)
          (ByteStream.bytes_pushed s + (s.capacity - s.buffer_size) - 1) (omega arith))

  -- Data at the next index that are not empty and fit in the room of a valid stream, given to a
  -- reassembler that holds nothing and knows no end, while the bytes pushed and the capacity are
  -- together below 2^31, are pushed at once: `insert` throws nothing, nothing is left in the cache,
  -- and the stream is closed exactly after the last substring.
  pub insert-next :
      (is_last_substring : Bool) (finish_set : ℕ)
      → insert
          (ByteStream.bytes_pushed s)
          bytes
          is_last_substring
          (record { output = s; cache = []; finish = false; finish_set = finish_set })
        ≡ some (record {
          output =
              if is_last_substring
              then ByteStream.close (ByteStream.push bytes s)
              else ByteStream.push bytes s;
          cache = [];
          finish = is_last_substring;
          finish_set =
              if is_last_substring then ByteStream.bytes_pushed s + length bytes else finish_set;
        })
  unfolding insert note_last
  insert-next true finish_set = rw (
    noted,
    in_window,
    added (ByteStream.bytes_pushed s) (length bytes) (omega arith),
    insert_within-next true (ByteStream.bytes_pushed s + length bytes),
    le→leb (ByteStream.bytes_pushed s + length bytes) (ByteStream.bytes_pushed s + length bytes)
        (omega arith),
  )
  insert-next false finish_set = rw in_window (insert_within-next false finish_set)
