-- ===== src/Reassembler/Tests.antt =====
-- Substrings in and out of order.
use computer_networking.Prelude.{
  ℕ, ◌+◌, ◌-◌, ◌≤◌, ◌≡◌, refl, Bool, true, false, Option, none, some, List, [], ◌∷◌, arith, u64,
}
use computer_networking.ByteStream
use computer_networking.ByteStream.{ByteStream}
use computer_networking.ByteStream.Inv.{IsValid, init-IsValid}
use computer_networking.Reassembler.{
  Reassembler, init, insert, insert_within, note_last, window_end, clamp_int, store, visit, round,
  overlap_from_before, overlap_from_within, put, append_rest, collect, deliver, count_bytes_pending,
  bytes_in,
}
use computer_networking.Reassembler.Order.{insert-next}
use computer_networking.Reassembler.Slices.{slice}
use computer_networking.Reassembler.AnyOrder.{Step, run, run-in_order}
use computer_networking.Reassembler.Bounds.{run-pending_bound}
use computer_networking.ByteStream.Refine.{contents}

abbrev pub empty : ByteStream
empty = ByteStream.init 8

pub empty-IsValid : IsValid empty
empty-IsValid = init-IsValid 8 (omega arith)

abbrev and_then : Option Reassembler → (Reassembler → Option Reassembler) → Option Reassembler
and_then none f = none
and_then (some r) f = f r

abbrev seen : Option Reassembler → Option (List ℕ × ℕ × Bool)
seen none = none
seen (some r) =
    some (ByteStream.peek r.output, count_bytes_pending r, ByteStream.is_closed r.output)

abbrev twice : Option Reassembler
twice = and_then (insert 2 (2 ∷ 3 ∷ []) true (init empty)) (insert 0 (0 ∷ 1 ∷ 2 ∷ []) false)

abbrev gaps : Option Reassembler
gaps =
    and_then (and_then (insert 5 (5 ∷ []) false (init empty)) (insert 2 (2 ∷ 3 ∷ []) false))
      (insert 1 (1 ∷ 2 ∷ 3 ∷ 4 ∷ 5 ∷ 6 ∷ []) false)

-- The second part first, and last; then the first part with an overlap.
reordered : seen twice ≡ some (0 ∷ 1 ∷ 2 ∷ 3 ∷ [], 0, true)
unfolding insert insert_within note_last window_end clamp_int store visit round overlap_from_before
    overlap_from_within put append_rest collect deliver count_bytes_pending bytes_in ByteStream.init
    ByteStream.push ByteStream.append ByteStream.compact ByteStream.bytes_pushed
    ByteStream.available_capacity ByteStream.peek ByteStream.close ByteStream.is_closed
reordered = refl

-- Data around and between two segments that wait.
filled : seen gaps ≡ some ([], 6, false)
unfolding insert insert_within note_last window_end clamp_int store visit round overlap_from_before
    overlap_from_within put append_rest collect deliver count_bytes_pending bytes_in ByteStream.init
    ByteStream.push ByteStream.append ByteStream.compact ByteStream.bytes_pushed
    ByteStream.available_capacity ByteStream.peek ByteStream.close ByteStream.is_closed
filled = refl

insert-next_example :
    insert
      (ByteStream.bytes_pushed empty)
      (5 ∷ 6 ∷ [])
      true
      (record { output = empty; cache = []; finish = false; finish_set = u64 - 1 })
    ≡ some (record {
      output = ByteStream.close (ByteStream.push (5 ∷ 6 ∷ []) empty);
      cache = [];
      finish = true;
      finish_set = ByteStream.bytes_pushed empty + 2;
    })
unfolding ByteStream.init ByteStream.bytes_pushed
insert-next_example =
    insert-next empty (5 ∷ 6 ∷ []) empty-IsValid (omega arith) (omega arith) (omega arith) true
      (u64 - 1)

-- An empty substring at index 0 counts as one byte: what waits at index 1 is then pushed in the place of the byte at index 0.
abbrev displaced : Option Reassembler
displaced = and_then (insert 1 (7 ∷ 8 ∷ []) false (init empty)) (insert 0 [] false)

misplaced : seen displaced ≡ some (7 ∷ 8 ∷ [], 0, false)
unfolding insert insert_within note_last window_end clamp_int store visit round overlap_from_before
    overlap_from_within put append_rest collect deliver count_bytes_pending bytes_in ByteStream.init
    ByteStream.push ByteStream.append ByteStream.compact ByteStream.bytes_pushed
    ByteStream.available_capacity ByteStream.peek ByteStream.close ByteStream.is_closed
misplaced = refl

abbrev stream : List ℕ
stream = 10 ∷ 11 ∷ 12 ∷ 13 ∷ []

-- The end arrives first, then bytes that overlap it, with reads between.
abbrev steps : List Step
steps = Step.inserts 2 2 true ∷ Step.pops 5 ∷ Step.inserts 0 3 false ∷ Step.pops 1 ∷ []

run-in_order_example :
    (r : Reassembler) × (run stream steps (init (ByteStream.init 8)) ≡ some r)
    × (contents r.output ≡ slice stream r.output.num_bytes_poped r.output.num_bytes_pushed)
    × (r.output.num_bytes_pushed ≤ 4)
run-in_order_example =
    run-in_order stream 8 steps (omega arith) (omega arith)
      ((omega arith, omega arith), (tt, ((omega arith, omega arith), (tt, tt))))

run-pending_bound_example :
    (r : Reassembler) × (run stream steps (init (ByteStream.init 8)) ≡ some r)
    × (count_bytes_pending r + ByteStream.bytes_buffered r.output ≤ 8)
run-pending_bound_example =
    run-pending_bound stream 8 steps (omega arith) (omega arith)
      ((omega arith, omega arith), (tt, ((omega arith, omega arith), (tt, tt))))
