-- ===== src/StreamCopy/Tests.antt =====
-- Two bytes that go from the standard input to the socket.
use computer_networking.Prelude.{ℕ, zero, suc, ◌≡◌, refl, List, [], ◌∷◌, ◌++◌, some, true, false}
use computer_networking.ByteStream
use computer_networking.ByteStream.Refine.{contents}
use computer_networking.FileDescriptor
use computer_networking.FileDescriptor.{FdWrapper, Returned}
use computer_networking.EventLoop.{Revents}
use computer_networking.StreamCopy.{
  Kernel, Poll, Moved, fill_stream, drain_stream, bidirectional_stream_copy,
}
use computer_networking.StreamCopy.Conserves.{bidirectional_stream_copy-conserves}

abbrev kernel : Kernel
kernel = record { reads = λ i. Returned.returns (104 ∷ 105 ∷ []); counts = λ i. Returned.returns 2 }

abbrev ready_at : ℕ → ℕ → Revents
ready_at zero zero = record { err = false; hup = false; readable = true; writable = true }
ready_at zero (suc j) = record { err = false; hup = false; readable = false; writable = false }
ready_at (suc i) zero = record { err = false; hup = false; readable = false; writable = false }
ready_at (suc i) (suc j) = ready_at i j

-- Rule 1 first, then rule 2.
abbrev polls : List Poll
polls =
    ((λ fd. true), (λ ps. record { count = some 1; revents = ready_at 0 }))
    ∷ ((λ fd. true), (λ ps. record { count = some 1; revents = ready_at 1 }))
    ∷ []

abbrev input : FdWrapper
input = FileDescriptor.init 0 false

abbrev socket : FdWrapper
socket = FileDescriptor.init 3 true

abbrev output : FdWrapper
output = FileDescriptor.init 1 false

-- A stream of four bytes takes what is read, and gives it to a write of one byte.
abbrev filled : Moved
filled = fill_stream (kernel.reads 0) input (ByteStream.init 4)

filled_bytes : contents filled.stream ≡ 104 ∷ 105 ∷ []
unfolding fill_stream ByteStream.init ByteStream.available_capacity ByteStream.push
    ByteStream.compact ByteStream.append FileDescriptor.read
filled_bytes = refl

drained_bytes : contents (drain_stream (Returned.returns 1) socket filled.stream).stream ≡ 105 ∷ []
unfolding fill_stream ByteStream.init ByteStream.available_capacity ByteStream.push
    ByteStream.compact ByteStream.append ByteStream.peek ByteStream.pop ByteStream.bytes_buffered
    FileDescriptor.read FileDescriptor.write FileDescriptor.write_buffers
    FileDescriptor.check_system_call drain_stream
drained_bytes = refl

bidirectional_stream_copy-conserves_example :
    let s = bidirectional_stream_copy kernel polls input socket output in
    (s.from_input ≡ s.to_socket ++ contents s.outbound)
    × (s.from_socket ≡ s.to_output ++ contents s.inbound)
bidirectional_stream_copy-conserves_example =
    bidirectional_stream_copy-conserves kernel polls input socket output
