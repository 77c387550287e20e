-- ===== src/ByteStream/Inv.antt =====
-- The representation invariant of `ByteStream`, which every operation keeps.
use computer_networking.Prelude.{
  ℕ, ◌+◌, ◌-◌, ◌*◌, ◌^◌, ◌≤◌, ◌<◌, min, ◌≡◌, List, length, take, length-append, length-take,
  length-drop, arith, u64, add_w,
}
use computer_networking.ByteStream.{
  ByteStream, init, set_error, available_capacity, compact, append, push, close, pop,
}

-- No counter into the buffer wraps, the buffer is at most twice the capacity long, and the totals
-- agree up to the wrap of `uint64_t`.
pub record IsValid (s : ByteStream) : Type 0 where
  pub small : s.capacity < 2 ^ 62
  pub within : s.buffer_size ≤ s.capacity
  pub laid_out : s.start_index + s.buffer_size ≡ length s.buffer
  pub ends : s.end_index ≡ length s.buffer
  pub bounded : length s.buffer ≤ 2 * s.capacity
  pub counted : s.num_bytes_pushed ≡ add_w u64 s.num_bytes_poped s.buffer_size

pub init-IsValid : (capacity : ℕ) → capacity < 2 ^ 62 → IsValid (init capacity)
unfolding init
init-IsValid c h = omega arith

pub available_capacity_lem :
    {s : ByteStream} → IsValid s → available_capacity s ≡ s.capacity - s.buffer_size
unfolding available_capacity
available_capacity_lem v = omega arith

pub compact-IsValid :
    {s : ByteStream}
    → IsValid s
    → IsValid (compact s) × (length (compact s).buffer ≤ 2 * s.buffer_size)
unfolding compact
compact-IsValid {s} v = ground (arith, length-drop s.start_index s.buffer)

pub capacity-compact :
    (s : ByteStream)
    → ((compact s).capacity ≡ s.capacity) × ((compact s).buffer_size ≡ s.buffer_size)
unfolding compact
capacity-compact s = ground arith

append-IsValid :
    (bytes : List ℕ) {s : ByteStream}
    → IsValid s
    → length s.buffer ≤ 2 * s.buffer_size
    → IsValid (append bytes s)
unfolding append
append-IsValid bytes {s} v h =
    let n = min (available_capacity s) (length bytes) in
    ground
      (arith, available_capacity_lem v, length-append s.buffer (take n bytes), length-take n bytes)

-- `push` keeps the invariant.
pub push-IsValid : (bytes : List ℕ) {s : ByteStream} → IsValid s → IsValid (push bytes s)
push-IsValid bytes {s} v =
    unfold push in
    append-IsValid bytes (compact-IsValid v).0
      (ground (arith, compact-IsValid v, capacity-compact s))

-- `pop` keeps the invariant.
pub pop-IsValid : (len : ℕ) {s : ByteStream} → IsValid s → IsValid (pop len s)
unfolding pop
pop-IsValid len v = ground arith

pub close-IsValid : {s : ByteStream} → IsValid s → IsValid (close s)
unfolding close
close-IsValid v = ground arith

pub set_error-IsValid : {s : ByteStream} → IsValid s → IsValid (set_error s)
unfolding set_error
set_error-IsValid v = ground arith
