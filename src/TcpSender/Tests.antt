-- ===== src/TcpSender/Tests.antt =====
-- Runs of src/tcp_sender.cc, and its theorems at concrete senders.
use computer_networking.Prelude.{◌≡◌, refl, true, false, Option, none, some, List, [], ◌∷◌, arith}
use computer_networking.Wrapping
use computer_networking.Wrapping.{Wrap32}
use computer_networking.ByteStream
use computer_networking.TcpMessage.{TcpSenderMessage, TcpReceiverMessage}
use computer_networking.TcpSender.{
  TcpSender, init, push, push_loop, goes_on, start, usable_window, round, send_message, end_stream,
  fill_payload, begin_stream, make_empty_message, record_sent, receive, beyond_sent, last_sent,
  abs_ackno_of, restart_timer, open_window, drop_acked, acknowledge, reopen,
}
use computer_networking.TcpSender.Inv.{IsValid}
use computer_networking.TcpSender.Push.{HasPushed, push-HasPushed}
use computer_networking.TcpSender.Covered.{HasAcked}
use computer_networking.TcpSender.Receive.{receive-IsValid, receive-HasAcked}
use computer_networking.TcpSender.Tick.{ticks, timeouts, copies, sum, ticks-early, timeouts-backoff}

abbrev isn : Wrap32
isn = record { raw_value = 4_294_967_295 }

abbrev unused : Wrap32
unused = record { raw_value = 0 }

-- The SYN is sent and two bytes wait.
abbrev stream : ByteStream.ByteStream
stream = record {
  capacity = 8;
  error = false;
  buffer = 1 ∷ 2 ∷ [];
  num_bytes_pushed = 2;
  num_bytes_poped = 0;
  closed = false;
  start_index = 0;
  end_index = 2;
  buffer_size = 2;
}

abbrev syn : TcpSenderMessage
syn = record { seqno = isn; syn = true; payload = []; fin = false; rst = false }

abbrev connecting : TcpSender
connecting = record {
  input = stream;
  isn = isn;
  initial_rto_ms = 100;
  send_buffer = (0, syn) ∷ [];
  abs_seqno = 1;
  seqno = record { raw_value = 0 };
  receive_window = 0;
  max_receive_window = 1;
  num_consecutive_retran = 0;
  current_rto = 100;
  timer = 0;
  pre_abs_ackno = 0;
  receiver_full = true;
  syn_set = true;
  fin_set = false;
}

abbrev messages_of : Option (TcpSender × List TcpSenderMessage) → Option (List TcpSenderMessage)
messages_of none = none
messages_of (some (s, ms)) = some ms

connecting-IsValid : IsValid connecting
unfolding Wrapping.wrap
connecting-IsValid = record {
  input_valid = omega arith;
  isn_word = omega arith;
  window_word = omega arith;
  outstanding = omega arith;
  chained = (refl, refl, omega arith, refl);
  numbered = refl;
  next_seqno = λ e. refl;
  unopened = λ e. cc;
  ended = λ e. cc;
}

abbrev ack : TcpReceiverMessage
ack = record { ackno = some (record { raw_value = 0 }); window_size = 5; rst = false }

-- The sender after the acknowledgment of its SYN.
abbrev established : TcpSender
established = record connecting {
  send_buffer = [];
  receive_window = 5;
  max_receive_window = 5;
  pre_abs_ackno = 1;
  receiver_full = false;
}

established-IsValid : IsValid established
unfolding Wrapping.wrap
established-IsValid = record {
  input_valid = omega arith;
  isn_word = omega arith;
  window_word = omega arith;
  outstanding = omega arith;
  chained = refl;
  numbered = refl;
  next_seqno = λ e. refl;
  unopened = λ e. cc;
  ended = λ e. cc;
}

-- The messages of `push`; with this unfolded it runs.
pushed_messages : TcpSender → Option (List TcpSenderMessage)
unfolding push push_loop goes_on start usable_window round send_message end_stream fill_payload
    begin_stream make_empty_message record_sent ByteStream.peek ByteStream.has_error
    ByteStream.is_closed ByteStream.pop init
pushed_messages s = messages_of (push s)

-- `receive`; with this unfolded it runs.
received : TcpReceiverMessage → TcpSender → TcpSender
unfolding receive beyond_sent last_sent abs_ackno_of restart_timer open_window drop_acked
    acknowledge reopen Wrapping.unwrap
received = receive unused

-- One byte of the window is taken by the SYN, and no more is sent before it is acknowledged.
sends_syn_first : pushed_messages (init stream isn 100) ≡ some (syn ∷ [])
unfolding pushed_messages
sends_syn_first = refl

ack_opens_window : received ack connecting ≡ established
unfolding received
ack_opens_window = refl

-- Both bytes then go out in one segment.
pushes_both :
    pushed_messages established
    ≡ some (record syn { seqno = record { raw_value = 0 }; syn = false; payload = 1 ∷ 2 ∷ [] } ∷ [])
unfolding pushed_messages
pushes_both = refl

push-HasPushed_example :
    (s' : TcpSender) × (ms : List TcpSenderMessage) × (push established ≡ some (s', ms))
    × HasPushed established s' ms
push-HasPushed_example = push-HasPushed established-IsValid (omega arith)

receive-IsValid_example : IsValid (receive unused ack connecting)
receive-IsValid_example = receive-IsValid unused ack connecting-IsValid (omega arith) (omega arith)

receive-HasAcked_example :
    HasAcked
      (Wrapping.unwrap (record { raw_value = 0 }) isn 1)
      connecting
      (receive unused ack connecting)
receive-HasAcked_example =
    receive-HasAcked unused (record { raw_value = 0 }) ack connecting-IsValid (omega arith)
      (omega arith) refl (unfold Wrapping.unwrap in omega arith)

ticks-early_example :
    ticks (40 ∷ 59 ∷ []) connecting ≡ (record connecting { timer = sum (40 ∷ 59 ∷ []) }, [])
ticks-early_example =
    ticks-early (40 ∷ 59 ∷ []) 0 syn [] connecting refl (omega arith) (omega arith)

abbrev retrying : TcpSender
retrying = record connecting { receiver_full = false }

timeouts-backoff_example :
    timeouts 3 retrying
    ≡ (record retrying { num_consecutive_retran = 3; current_rto = 800 }, copies 3 syn)
timeouts-backoff_example =
    timeouts-backoff 3 0 syn [] retrying refl refl refl (omega arith) (omega arith)
