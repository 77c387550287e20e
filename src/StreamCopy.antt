-- ===== src/StreamCopy.antt =====
-- apps/bidirectional_stream_copy.cc: the bytes of the standard input go to a socket, and those of the socket to the
-- standard output, each through a byte stream, by four rules of an event loop. What the system calls return is
-- a `Kernel`, by the number of the call. The debug output is not modelled.
pub mod Moves
pub mod Reads
pub mod Conserves
mod Tests
use computer_networking.Prelude.{
  ℕ, ◌+◌, Bool, true, false, not, ◌&&◌, ◌||◌, Option, none, some, List, [], ◌∷◌, ◌++◌, take,
  replicate, ltb, ◌==◌, if◌then◌else◌,
}
use computer_networking.ByteStream
use computer_networking.ByteStream.{ByteStream}
use computer_networking.FileDescriptor
use computer_networking.FileDescriptor.{FdWrapper, Returned, Outcome}
use computer_networking.Socket
use computer_networking.EventLoop
use computer_networking.EventLoop.{
  BasicRule, FdRule, EventLoop, Result, Direction, PollFd, Polled, direction_in, direction_out,
}

pub record Kernel : Type 0 where
  pub reads : ℕ → Returned (List ℕ)
  pub counts : ℕ → Returned ℕ

-- The local variables, the number of system calls, and, for the proofs, the bytes that the reads have returned and
-- those that the writes have taken.
pub record StreamCopy : Type 0 where
  pub input : FdWrapper
  pub socket : FdWrapper
  pub output : FdWrapper
  pub outbound : ByteStream
  pub inbound : ByteStream
  pub outbound_shutdown : Bool
  pub inbound_shutdown : Bool
  pub calls : ℕ
  pub from_input : List ℕ
  pub to_socket : List ℕ
  pub from_socket : List ℕ
  pub to_output : List ℕ

abbrev pub buffer_size : ℕ
buffer_size = 1048576

-- Before the loop, when the calls of `set_blocking` have returned.
abbrev pub start : FdWrapper → FdWrapper → FdWrapper → StreamCopy
start input socket output = record {
  input = record input { non_blocking = true };
  socket = record socket { non_blocking = true };
  output = record output { non_blocking = true };
  outbound = ByteStream.init buffer_size;
  inbound = ByteStream.init buffer_size;
  outbound_shutdown = false;
  inbound_shutdown = false;
  calls = 0;
  from_input = [];
  to_socket = [];
  from_socket = [];
  to_output = [];
}

-- What a part of a callback does to a descriptor and a stream: the bytes that it moves, and whether it returns.
pub record Moved : Type 0 where
  pub fd : FdWrapper
  pub stream : ByteStream
  pub bytes : List ℕ
  pub returned : Bool

-- The callbacks of rules 1 and 3: as many bytes as fit are read into the stream, which is closed at the end.
abbrev pub close_at_eof : FdWrapper → ByteStream → ByteStream
close_at_eof fd stream = if fd.eof then ByteStream.close stream else stream

abbrev pub after_read : ByteStream → Outcome (List ℕ) → Moved
after_read stream (fd, none) = record { fd = fd; stream = stream; bytes = []; returned = false }
after_read stream (fd, some bytes) = record {
  fd = fd;
  stream = close_at_eof fd (ByteStream.push bytes stream);
  bytes = bytes;
  returned = true;
}

unfoldable pub fill_stream : Returned (List ℕ) → FdWrapper → ByteStream → Moved
fill_stream r fd stream =
    after_read stream
      (FileDescriptor.read r (replicate (ByteStream.available_capacity stream) 0) fd)

-- The first statement of the callbacks of rules 2 and 4: what is written leaves the stream.
abbrev pub after_write : ByteStream → Outcome ℕ → Moved
after_write stream (fd, none) = record { fd = fd; stream = stream; bytes = []; returned = false }
after_write stream (fd, some n) = record {
  fd = fd;
  stream = ByteStream.pop n stream;
  bytes = take n (ByteStream.peek stream);
  returned = true;
}

unfoldable pub drain_stream : Returned ℕ → FdWrapper → ByteStream → Moved
drain_stream r fd stream =
    if ByteStream.bytes_buffered stream == 0
    then record { fd = fd; stream = stream; bytes = []; returned = true }
    else after_write stream (FileDescriptor.write r (ByteStream.peek stream) fd)

-- A callback goes on where its first part has returned.
abbrev pub and_then : StreamCopy × Bool → (StreamCopy → StreamCopy × Bool) → StreamCopy × Bool
and_then (s, false) f = (s, false)
and_then (s, true) f = f s

-- The four callbacks.
unfoldable pub read_input : Kernel → StreamCopy → StreamCopy × Bool
read_input k s =
    let m = fill_stream (k.reads s.calls) s.input s.outbound in
    (
      record s {
        input = m.fd;
        outbound = m.stream;
        from_input = s.from_input ++ m.bytes;
        calls = s.calls + 1;
      },
      m.returned,
    )

abbrev pub write_socket : Kernel → StreamCopy → StreamCopy × Bool
write_socket k s =
    let m = drain_stream (k.counts s.calls) s.socket s.outbound in
    (
      record s {
        socket = m.fd;
        outbound = m.stream;
        to_socket = s.to_socket ++ m.bytes;
        calls = s.calls + 1;
      },
      m.returned,
    )

abbrev pub after_shutdown : StreamCopy → Outcome (Unit {0}) → StreamCopy × Bool
after_shutdown s (socket, none) = (record s { socket = socket; calls = s.calls + 1 }, false)
after_shutdown s (socket, some u) =
    (record s { socket = socket; calls = s.calls + 1; outbound_shutdown = true }, true)

abbrev pub finish_socket : Kernel → StreamCopy → StreamCopy × Bool
finish_socket k s =
    let done = after_shutdown s (Socket.shutdown Socket.How.shut_wr (k.counts s.calls) s.socket) in
    if ByteStream.is_finished s.outbound then done else (s, true)

unfoldable pub feed_socket : Kernel → StreamCopy → StreamCopy × Bool
feed_socket k s = and_then (write_socket k s) (finish_socket k)

unfoldable pub read_socket : Kernel → StreamCopy → StreamCopy × Bool
read_socket k s =
    let m = fill_stream (k.reads s.calls) s.socket s.inbound in
    (
      record s {
        socket = m.fd;
        inbound = m.stream;
        from_socket = s.from_socket ++ m.bytes;
        calls = s.calls + 1;
      },
      m.returned,
    )

abbrev pub write_output : Kernel → StreamCopy → StreamCopy × Bool
write_output k s =
    let m = drain_stream (k.counts s.calls) s.output s.inbound in
    (
      record s {
        output = m.fd;
        inbound = m.stream;
        to_output = s.to_output ++ m.bytes;
        calls = s.calls + 1;
      },
      m.returned,
    )

abbrev pub after_close : StreamCopy → Outcome (Unit {0}) → StreamCopy × Bool
after_close s (output, none) = (record s { output = output; calls = s.calls + 1 }, false)
after_close s (output, some u) =
    (record s { output = output; calls = s.calls + 1; inbound_shutdown = true }, true)

abbrev pub finish_output : Kernel → StreamCopy → StreamCopy × Bool
finish_output k s =
    let done = after_close s (FileDescriptor.close (k.counts s.calls) s.output) in
    if ByteStream.is_finished s.inbound then done else (s, true)

unfoldable pub feed_output : Kernel → StreamCopy → StreamCopy × Bool
feed_output k s = and_then (write_output k s) (finish_output k)

-- The callbacks for cancellation and for errors.
unfoldable pub close_outbound : StreamCopy → StreamCopy × Bool
close_outbound s = (record s { outbound = ByteStream.close s.outbound }, true)

unfoldable pub close_inbound : StreamCopy → StreamCopy × Bool
close_inbound s = (record s { inbound = ByteStream.close s.inbound }, true)

unfoldable pub set_errors : StreamCopy → StreamCopy × Bool
set_errors s = (
  record s { outbound = ByteStream.set_error s.outbound; inbound = ByteStream.set_error s.inbound },
  true,
)

-- The interests.
abbrev pub can_fill : ByteStream → ByteStream → Bool
can_fill stream other =
    not (ByteStream.has_error stream)
    && not (ByteStream.has_error other)
    && ltb 0 (ByteStream.available_capacity stream)
    && not (ByteStream.is_closed stream)

abbrev pub can_drain : ByteStream → Bool → Bool
can_drain stream shutdown =
    not (ByteStream.bytes_buffered stream == 0) || (ByteStream.is_finished stream && not shutdown)

-- The four rules, each with a category of its own; none of their handles is kept.
abbrev pub rule :
    ℕ
    → (StreamCopy → FdWrapper)
    → Direction
    → (StreamCopy → StreamCopy × Bool)
    → (StreamCopy → Bool)
    → (StreamCopy → StreamCopy × Bool)
    → FdRule StreamCopy
rule category_id fd direction callback interest cancel = record {
  base = record {
    category_id = category_id;
    interest = interest;
    callback = callback;
    cancel_requested = λ (s : StreamCopy). false;
  };
  fd = fd;
  direction = direction;
  cancel = cancel;
  error = set_errors;
}

abbrev pub rule_1 : Kernel → FdRule StreamCopy
rule_1 k =
    rule 0 (λ (s : StreamCopy). s.input) direction_in (read_input k)
      (λ (s : StreamCopy). can_fill s.outbound s.inbound) close_outbound

abbrev pub rule_2 : Kernel → FdRule StreamCopy
rule_2 k =
    rule 1 (λ (s : StreamCopy). s.socket) direction_out (feed_socket k)
      (λ (s : StreamCopy). can_drain s.outbound s.outbound_shutdown) close_outbound

abbrev pub rule_3 : Kernel → FdRule StreamCopy
rule_3 k =
    rule 2 (λ (s : StreamCopy). s.socket) direction_in (read_socket k)
      (λ (s : StreamCopy). can_fill s.inbound s.outbound) close_inbound

abbrev pub rule_4 : Kernel → FdRule StreamCopy
rule_4 k =
    rule 3 (λ (s : StreamCopy). s.output) direction_out (feed_output k)
      (λ (s : StreamCopy). can_drain s.inbound s.inbound_shutdown) close_inbound

abbrev pub event_loop : Kernel → EventLoop StreamCopy
event_loop k = record {
  rule_categories = 0 ∷ 1 ∷ 2 ∷ 3 ∷ [];
  fd_rules = rule_1 k ∷ rule_2 k ∷ rule_3 k ∷ rule_4 k ∷ [];
  non_fd_rules = [];
}

-- The loop until `Exit` or an exception, as long as there are polls.
abbrev pub Poll : Type 0
Poll = (ℕ → Bool) × (List PollFd → Polled)

abbrev pub stops : Option Result → Bool
stops none = true
stops (some Result.success) = false
stops (some Result.timeout) = false
stops (some Result.exit) = true

unfoldable pub copy_loop : List Poll → EventLoop StreamCopy → StreamCopy → StreamCopy
copy_loop [] l s = s
copy_loop ((sockopt, poll) ∷ polls) l s =
    let w = EventLoop.wait_next_event sockopt poll l s in
    let rest = copy_loop polls w.loop w.state in if stops w.result then w.state else rest

-- `bidirectional_stream_copy`, through so many polls.
unfoldable pub bidirectional_stream_copy :
    Kernel → List Poll → FdWrapper → FdWrapper → FdWrapper → StreamCopy
bidirectional_stream_copy k polls input socket output =
    copy_loop polls (event_loop k) (start input socket output)
