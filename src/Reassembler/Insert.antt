-- ===== src/Reassembler/Insert.antt =====
-- `insert` of a substring of the stream.
use computer_networking.Prelude.{
  ℕ, ◌+◌, ◌-◌, ◌≤◌, ◌<◌, min, max, ◌≡◌, refl, ap, ap₂, ◌∙◌, Bool, true, false, ◌&&◌, ◌||◌, some,
  List, inl, inr, Bool-cases, length, take, drop, ltb, leb, ltb→lt, ltb→ge, arith, u64, add_w,
  sub_w, ◌^◌,
}
use computer_networking.ByteStream
use computer_networking.ByteStream.{ByteStream}
use computer_networking.ByteStream.Inv.{available_capacity_lem}
use computer_networking.Reassembler.{
  Reassembler, store, append_rest, deliver, window_end, note_last, clamp_int, insert_within, insert,
  bind_work,
}
use computer_networking.Reassembler.Order.{clamp_int-small}
use computer_networking.Reassembler.Slices.{slice, length-slice, slice-slice}
use computer_networking.Reassembler.Cache.{work}
use computer_networking.Reassembler.Done.{IsDone, store-IsStored, append_rest-IsDone, old-IsDone}
use computer_networking.Reassembler.Inv.{Reassembles, deliver-Reassembles}

-- A substring of n bytes that starts at the index `first`.
module _ (source : List ℕ) (r : Reassembler) (v : Reassembles source r) (first n : ℕ)
    (some_bytes : 0 < n) (in_source : first + n ≤ length source) where
  -- The last index that the stream has room for, and the last index of the data within it.
  abbrev room_end : ℕ
  room_end = r.output.num_bytes_pushed + (r.output.capacity - r.output.buffer_size) - 1

  abbrev last : ℕ
  last = min room_end (first + n - 1)

  abbrev from : ℕ
  from = max r.output.num_bytes_pushed first

  abbrev bytes : List ℕ
  bytes = slice source first (first + n)

  length-bytes : length bytes ≡ n
  length-bytes = length-slice source first (first + n) in_source ∙ omega arith

  some_room : 0 < r.output.num_bytes_pushed + (r.output.capacity - r.output.buffer_size)
  some_room = omega (arith, v.room, v.counted, v.valid.within)

  window_end-room_end : window_end r.output ≡ room_end
  unfolding window_end ByteStream.bytes_pushed
  window_end-room_end =
      ap (λ (a : ℕ). sub_w u64 (add_w u64 r.output.num_bytes_pushed a) 1)
        (available_capacity_lem v.valid)
      ∙ omega (arith, some_room, v.short, v.within)

  min-last :
      min
        (clamp_int (window_end r.output))
        (clamp_int (sub_w u64 (add_w u64 first (length bytes)) 1))
      ≡ last
  min-last =
      ap₂ min
        (ap clamp_int window_end-room_end
          ∙ clamp_int-small room_end (omega (arith, v.short, v.within)))
        (ap (λ (i : ℕ). clamp_int (sub_w u64 (add_w u64 first i) 1)) length-bytes
          ∙ ap clamp_int (omega (arith, v.short))
          ∙ clamp_int-small (first + n - 1) (omega (arith, v.short)))

  module _ (in_room : first ≤ room_end) (not_old : r.output.num_bytes_pushed ≤ first + n) where
    trimmed :
        take (min (add_w u64 (sub_w u64 last from) 1) (length bytes)) (drop (from - first) bytes)
        ≡ slice source from (last + 1)
    trimmed =
        slice-slice source first (first + n) (from - first)
          (min (add_w u64 (sub_w u64 last from) 1) (length bytes)) from (last + 1) (omega arith)
          (omega (arith, length-bytes, v.short, some_room, v.within))

    stored :
        IsDone source r.output.num_bytes_pushed
          (r.output.num_bytes_pushed + (r.output.capacity - r.output.buffer_size))
          (bind_work (store last (work source last from r.cache)) (append_rest last))
    stored =
        let lo = r.output.num_bytes_pushed in
        let hi = lo + (r.output.capacity - r.output.buffer_size) in
        let below : last < hi = omega (arith, some_room) in
        let within : last < length source = omega arith in
        let short : hi < 2 ^ 31 = omega (arith, v.short, v.within) in
        elim (Bool-cases (ltb last from)) [
          | inl e ↦
              old-IsDone source lo hi last within below short r.cache from v.cache
                (omega (arith, ltb→lt last from e, some_room))
                (omega (arith, ltb→lt last from e, some_room))
          | inr e ↦ append_rest-IsDone source lo hi last within below short _ (
              store-IsStored source lo hi last within below short r.cache from v.cache (omega arith)
                (ltb→ge last from e))
        ]

    insert_within-Reassembles :
        (r' : Reassembler) × (insert_within first bytes r ≡ some r') × Reassembles source r'
    unfolding insert_within ByteStream.bytes_pushed
    insert_within-Reassembles = (
      deliver r.output.num_bytes_pushed (record r { cache = stored.done.cache }),
      rw (min-last, trimmed, stored.result),
      deliver-Reassembles source r stored.done.cache stored.cache
          (record {
            valid = v.valid;
            room = v.room;
            short = v.short;
            held = v.held;
            counted = v.counted;
            within = v.within;
            cache = stored.in_order;
          })
          stored.same,
    )

-- The flags of the end do not matter to what is held.
Reassembles-note_last :
    (source : List ℕ) (r : Reassembler) (first size : ℕ) (is_last : Bool)
    → Reassembles source r
    → Reassembles source (note_last first size is_last r)
unfolding note_last
Reassembles-note_last source r first size is_last v =
    elim (Bool-cases (
      is_last
      && leb (clamp_int (sub_w u64 (add_w u64 first size) 1)) (clamp_int (window_end r.output)))) [
        | inl e ↦ rw e (record {
          valid = v.valid;
          room = v.room;
          short = v.short;
          held = v.held;
          counted = v.counted;
          within = v.within;
          cache = v.cache;
        })
        | inr e ↦ rw e v
      ]

output-note_last :
    (r : Reassembler) (first size : ℕ) (is_last : Bool)
    → (note_last first size is_last r).output ≡ r.output
unfolding note_last
output-note_last r first size is_last =
    elim (Bool-cases (
      is_last
      && leb (clamp_int (sub_w u64 (add_w u64 first size) 1)) (clamp_int (window_end r.output)))) [
        | inl e ↦ rw e refl
        | inr e ↦ rw e refl
      ]

or_neither : (a b : Bool) → (a || b) ≡ false → (a ≡ false) × (b ≡ false)
or_neither true b h = absurd cc
or_neither false b h = (refl, h)

-- `insert` of it throws nothing, and leaves a reassembler of the stream.
pub insert-Reassembles :
    (source : List ℕ) (r : Reassembler) (first n : ℕ) (is_last : Bool)
    → Reassembles source r
    → 0 < n
    → first + n ≤ length source
    → (r' : Reassembler) × (insert first (slice source first (first + n)) is_last r ≡ some r')
      × Reassembles source r'
unfolding insert
insert-Reassembles source r first n is_last v h k =
    let bytes = slice source first (first + n) in
    let r1 = note_last first (length bytes) is_last r in
    let v1 = Reassembles-note_last source r first (length bytes) is_last v in
    let same = output-note_last r first (length bytes) is_last in
    elim (Bool-cases (
      ltb (window_end r.output) first
      || ltb (add_w u64 (length bytes) first) (ByteStream.bytes_pushed r.output))) [
        | inl e ↦ (r1, rw e, v1)
        | inr e ↦
            let (a, b) = or_neither _ _ e in
            let in_room : first
                ≤ r1.output.num_bytes_pushed + (r1.output.capacity - r1.output.buffer_size) - 1 =
              omega (
                arith,
                ltb→ge (window_end r.output) first a,
                ap window_end same,
                window_end-room_end source r1 v1 first n h k,
              ) in
            let not_old : r1.output.num_bytes_pushed ≤ first + n =
              unfold ByteStream.bytes_pushed in
              omega (
                arith,
                ltb→ge (add_w u64 (length bytes) first) (ByteStream.bytes_pushed r.output) b,
                ap (λ (s : ByteStream). s.num_bytes_pushed) same,
                length-bytes source r1 v1 first n h k,
              ) in
            let (r', q, w) = insert_within-Reassembles source r1 v1 first n h k in_room not_old in
            (r', rw e q, w)
      ]
