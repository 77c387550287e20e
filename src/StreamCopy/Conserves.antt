-- ===== src/StreamCopy/Conserves.antt =====
-- The bytes that the copy has read are those that it has written and those that it holds.
use computer_networking.Prelude.{
  ◌≡◌, refl, none, some, List, [], ◌∷◌, ◌++◌, inl, inr, Bool-cases, arith,
}
use computer_networking.ByteStream
use computer_networking.ByteStream.{ByteStream}
use computer_networking.ByteStream.Inv.{init-IsValid}
use computer_networking.ByteStream.Refine.{contents}
use computer_networking.FileDescriptor
use computer_networking.FileDescriptor.{FdWrapper, Outcome}
use computer_networking.Socket
use computer_networking.EventLoop
use computer_networking.EventLoop.{FdRule, EventLoop, PollFd, Polled}
use computer_networking.EventLoop.Invariant.{KeepsRule, KeepsLoop, wait_next_event-Good}
use computer_networking.StreamCopy.{
  Kernel, StreamCopy, Poll, start, buffer_size, write_socket, after_shutdown, finish_socket,
  feed_socket, write_output, after_close, finish_output, feed_output, rule_1, rule_2, rule_3,
  rule_4, event_loop, stops, copy_loop, bidirectional_stream_copy,
}
use computer_networking.StreamCopy.Moves.{drain_stream-Drains}
use computer_networking.StreamCopy.Reads.{
  Conserves, Conserves-Drains, BothConserve, HasRoom, close_outbound-ready, close_inbound-ready,
  set_errors-ready, close_outbound-BothConserve, close_inbound-BothConserve,
  set_errors-BothConserve, can_fill-room, read_input-BothConserve, read_socket-BothConserve,
  and_then-BothConserve,
}

write_socket-BothConserve :
    (k : Kernel) (s : StreamCopy) → BothConserve s → BothConserve (write_socket k s).0
write_socket-BothConserve k s c = record {
  outward =
      Conserves-Drains c.outward
        (drain_stream-Drains (k.counts s.calls) s.socket s.outbound c.outward.valid);
  inward = c.inward;
}

after_shutdown-BothConserve :
    (s : StreamCopy) (o : Outcome (Unit {0})) → BothConserve s → BothConserve (after_shutdown s o).0
after_shutdown-BothConserve s (fd, none) c = record { outward = c.outward; inward = c.inward }
after_shutdown-BothConserve s (fd, some u) c = record { outward = c.outward; inward = c.inward }

finish_socket-BothConserve :
    (k : Kernel) (s : StreamCopy) → BothConserve s → BothConserve (finish_socket k s).0
finish_socket-BothConserve k s c = elim (Bool-cases (ByteStream.is_finished s.outbound)) [
  | inl e ↦ rw e (
      after_shutdown-BothConserve s (Socket.shutdown Socket.How.shut_wr (k.counts s.calls) s.socket)
        c)
  | inr e ↦ rw e c
]

feed_socket-BothConserve :
    (k : Kernel) (s : StreamCopy) → BothConserve s → BothConserve (feed_socket k s).0
unfolding feed_socket
feed_socket-BothConserve k s c =
    let d = write_socket-BothConserve k s c in
    and_then-BothConserve (write_socket k s) (finish_socket k) d
      (finish_socket-BothConserve k (write_socket k s).0 d)

write_output-BothConserve :
    (k : Kernel) (s : StreamCopy) → BothConserve s → BothConserve (write_output k s).0
write_output-BothConserve k s c = record {
  outward = c.outward;
  inward =
      Conserves-Drains c.inward
        (drain_stream-Drains (k.counts s.calls) s.output s.inbound c.inward.valid);
}

after_close-BothConserve :
    (s : StreamCopy) (o : Outcome (Unit {0})) → BothConserve s → BothConserve (after_close s o).0
after_close-BothConserve s (fd, none) c = record { outward = c.outward; inward = c.inward }
after_close-BothConserve s (fd, some u) c = record { outward = c.outward; inward = c.inward }

finish_output-BothConserve :
    (k : Kernel) (s : StreamCopy) → BothConserve s → BothConserve (finish_output k s).0
finish_output-BothConserve k s c = elim (Bool-cases (ByteStream.is_finished s.inbound)) [
  | inl e ↦ rw e (after_close-BothConserve s (FileDescriptor.close (k.counts s.calls) s.output) c)
  | inr e ↦ rw e c
]

feed_output-BothConserve :
    (k : Kernel) (s : StreamCopy) → BothConserve s → BothConserve (feed_output k s).0
unfolding feed_output
feed_output-BothConserve k s c =
    let d = write_output-BothConserve k s c in
    and_then-BothConserve (write_output k s) (finish_output k) d
      (finish_output-BothConserve k (write_output k s).0 d)

rule_1-KeepsRule : (k : Kernel) → KeepsRule BothConserve HasRoom (rule_1 k)
rule_1-KeepsRule k = record {
  ready = λ s p h. can_fill-room s.outbound s.inbound h;
  callback = λ s p q. read_input-BothConserve k s p q;
  cancel = close_outbound-BothConserve;
  error = set_errors-BothConserve;
  cancel_ready = close_outbound-ready;
  error_ready = set_errors-ready;
}

rule_2-KeepsRule : (k : Kernel) → KeepsRule BothConserve HasRoom (rule_2 k)
rule_2-KeepsRule k = record {
  ready = λ s p h. tt;
  callback = λ s p q. feed_socket-BothConserve k s p;
  cancel = close_outbound-BothConserve;
  error = set_errors-BothConserve;
  cancel_ready = close_outbound-ready;
  error_ready = set_errors-ready;
}

rule_3-KeepsRule : (k : Kernel) → KeepsRule BothConserve HasRoom (rule_3 k)
rule_3-KeepsRule k = record {
  ready = λ s p h. can_fill-room s.inbound s.outbound h;
  callback = λ s p q. read_socket-BothConserve k s p q;
  cancel = close_inbound-BothConserve;
  error = set_errors-BothConserve;
  cancel_ready = close_inbound-ready;
  error_ready = set_errors-ready;
}

rule_4-KeepsRule : (k : Kernel) → KeepsRule BothConserve HasRoom (rule_4 k)
rule_4-KeepsRule k = record {
  ready = λ s p h. tt;
  callback = λ s p q. feed_output-BothConserve k s p;
  cancel = close_inbound-BothConserve;
  error = set_errors-BothConserve;
  cancel_ready = close_inbound-ready;
  error_ready = set_errors-ready;
}

event_loop-KeepsLoop : (k : Kernel) → KeepsLoop BothConserve HasRoom (event_loop k)
event_loop-KeepsLoop k = record {
  fd_rules =
      (rule_1-KeepsRule k, (rule_2-KeepsRule k, (rule_3-KeepsRule k, (rule_4-KeepsRule k, tt))));
  non_fd_rules = tt;
}

copy_loop-BothConserve :
    (polls : List Poll) (l : EventLoop StreamCopy) (s : StreamCopy)
    → KeepsLoop BothConserve HasRoom l
    → BothConserve s
    → BothConserve (copy_loop polls l s)
unfolding copy_loop
copy_loop-BothConserve [] l s k c = c
copy_loop-BothConserve ((sockopt, poll) ∷ polls) l s k c =
    let w = EventLoop.wait_next_event sockopt poll l s in
    let g = wait_next_event-Good BothConserve HasRoom sockopt poll l s k c in
    elim (Bool-cases (stops w.result)) [
      | inl e ↦ rw e g.state
      | inr e ↦ rw e (copy_loop-BothConserve polls w.loop w.state g.loop g.state)
    ]

start-BothConserve : (i s o : FdWrapper) → BothConserve (start i s o)
start-BothConserve i s o =
    let c : Conserves (ByteStream.init buffer_size) [] [] = record {
      valid = init-IsValid buffer_size (omega arith);
      all = unfold ByteStream.init in refl;
    } in
    record { outward = c; inward = c }

-- Whatever the system calls and polls return, and as far as the loop has come: the bytes read from
-- the standard input are, in order, those written to the socket and then those that the outbound
-- stream holds, and the bytes read from the socket are those written to the standard output and then
-- those that the inbound stream holds.
pub bidirectional_stream_copy-conserves :
    (k : Kernel) (polls : List Poll) (input socket output : FdWrapper)
    → let s = bidirectional_stream_copy k polls input socket output in
      (s.from_input ≡ s.to_socket ++ contents s.outbound)
      × (s.from_socket ≡ s.to_output ++ contents s.inbound)
unfolding bidirectional_stream_copy
bidirectional_stream_copy-conserves k polls input socket output =
    let c =
      copy_loop-BothConserve polls (event_loop k) (start input socket output)
        (event_loop-KeepsLoop k) (start-BothConserve input socket output) in
    (c.outward.all, c.inward.all)
