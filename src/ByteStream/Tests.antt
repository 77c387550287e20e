-- ===== src/ByteStream/Tests.antt =====
-- Runs of src/byte_stream.cc, and its theorems at a concrete stream.
use computer_networking.Prelude.{◌+◌, ◌≡◌, refl, true, false, List, [], ◌∷◌, ◌++◌, arith}
use computer_networking.ByteStream.{
  ByteStream, push, pop, close, peek, bytes_buffered, available_capacity, is_finished, read,
  returned,
}
use computer_networking.ByteStream.Inv.{IsValid}
use computer_networking.ByteStream.Fifo
use computer_networking.ByteStream.Fifo.{Call, pushes, pops, closes}
use computer_networking.ByteStream.Refine.{
  view, step, run, contents, all_in, all_out, step_refines, observe_refines, run-conserves,
}
use computer_networking.ByteStream.Read.{read_lem}

-- Three bytes are held, two are popped and still in the buffer.
abbrev partly_read : ByteStream
partly_read = record {
  capacity = 4;
  error = false;
  buffer = 9 ∷ 8 ∷ 7 ∷ 6 ∷ 5 ∷ [];
  num_bytes_pushed = 5;
  num_bytes_poped = 2;
  closed = false;
  start_index = 2;
  end_index = 5;
  buffer_size = 3;
}

partly_read-IsValid : IsValid partly_read
partly_read-IsValid = omega arith

push_stops_at_capacity : peek (push (4 ∷ 3 ∷ 2 ∷ []) partly_read) ≡ 7 ∷ 6 ∷ 5 ∷ 4 ∷ []
unfolding peek push
push_stops_at_capacity = refl

finishes_when_read : is_finished (pop 9 (close partly_read)) ≡ true
unfolding is_finished pop close
finishes_when_read = refl

abbrev history : List Call
history = pushes (4 ∷ 3 ∷ []) ∷ pops 2 ∷ pushes (2 ∷ 1 ∷ []) ∷ closes ∷ []

step_refines_example :
    (view (step partly_read (pushes (1 ∷ 2 ∷ [])))
      ≡ Fifo.step (view partly_read) (pushes (1 ∷ 2 ∷ [])))
    × IsValid (step partly_read (pushes (1 ∷ 2 ∷ [])))
step_refines_example = step_refines (pushes (1 ∷ 2 ∷ [])) partly_read-IsValid

observe_refines_example :
    (peek partly_read ≡ 7 ∷ 6 ∷ 5 ∷ [])
    × (bytes_buffered partly_read ≡ 3)
    × (available_capacity partly_read + 3 ≡ 4)
    × (is_finished partly_read ≡ false)
observe_refines_example = observe_refines partly_read-IsValid

run-conserves_example :
    (7 ∷ 6 ∷ 5 ∷ [] ++ all_in history partly_read
      ≡ all_out history partly_read ++ contents (run history partly_read))
    × IsValid (run history partly_read)
run-conserves_example = run-conserves history partly_read-IsValid

read_lem_example :
    (s' : ByteStream) × (read 2 2 partly_read ≡ returned (7 ∷ 6 ∷ []) s')
    × (contents s' ≡ 5 ∷ [])
    × IsValid s'
read_lem_example = read_lem 0 2 partly_read-IsValid
