-- ===== src/TcpSender.antt =====
-- src/tcp_sender.hh and src/tcp_sender.cc: the sending half of a TCP connection. A method returns the
-- new state; one that is given `transmit` also returns the messages handed to it, in order.
pub mod Inv
pub mod Filling
pub mod Round
pub mod Push
pub mod Covered
pub mod Receive
pub mod Tick
mod Tests
use computer_networking.Prelude.{
  ℕ, zero, suc, ◌+◌, ◌-◌, ◌*◌, ◌%◌, min, max, Bool, true, false, not, ◌&&◌, ◌||◌, Option, none,
  some, List, [], ◌∷◌, ◌++◌, length, take, drop, ltb, leb, ◌==◌, if◌then◌else◌, to_num, u16, u32,
  u64, add_w, sub_w,
}
use computer_networking.Wrapping
use computer_networking.Wrapping.{Wrap32}
use computer_networking.ByteStream
use computer_networking.ByteStream.{ByteStream}
use computer_networking.TcpMessage.{
  TcpSenderMessage, TcpReceiverMessage, default_sender_message, sequence_length, max_payload_size,
}

-- `class TCPSender`. An entry of `send_buffer` is a message with its absolute sequence number.
pub record TcpSender : Type 0 where
  pub input : ByteStream
  pub isn : Wrap32
  pub initial_rto_ms : ℕ
  pub send_buffer : List (ℕ × TcpSenderMessage)
  pub abs_seqno : ℕ
  pub seqno : Wrap32
  pub receive_window : ℕ
  pub max_receive_window : ℕ
  pub num_consecutive_retran : ℕ
  pub current_rto : ℕ
  pub timer : ℕ
  pub pre_abs_ackno : ℕ
  pub receiver_full : Bool
  pub syn_set : Bool
  pub fin_set : Bool

-- The constructor, with the default values of the other fields.
unfoldable pub init : ByteStream → Wrap32 → ℕ → TcpSender
init input isn initial_rto_ms = record {
  input = input;
  isn = isn;
  initial_rto_ms = initial_rto_ms;
  send_buffer = [];
  abs_seqno = 0;
  seqno = record { raw_value = 0 };
  receive_window = 1;
  max_receive_window = 1;
  num_consecutive_retran = 0;
  current_rto = 0;
  timer = 0;
  pre_abs_ackno = 0;
  receiver_full = true;
  syn_set = false;
  fin_set = false;
}

-- The loop of `sequence_numbers_in_flight`.
abbrev pub total_length : List (ℕ × TcpSenderMessage) → ℕ
total_length [] = 0
total_length ((i, m) ∷ rest) = sequence_length m + total_length rest

-- `TCPSender::sequence_numbers_in_flight` (the `uint64_t` sum wraps) and `consecutive_retransmissions`.
unfoldable pub sequence_numbers_in_flight : TcpSender → ℕ
sequence_numbers_in_flight s = total_length s.send_buffer % u64

unfoldable pub consecutive_retransmissions : TcpSender → ℕ
consecutive_retransmissions s = s.num_consecutive_retran

-- `TCPSender::make_empty_message`.
unfoldable pub make_empty_message : TcpSender → TcpSenderMessage
make_empty_message s = record default_sender_message {
  seqno = if s.syn_set then s.seqno else s.isn;
  rst = ByteStream.has_error s.input;
}

-- The variables of the loop of `push`, with the messages transmitted so far.
pub record Loop : Type 0 where
  pub sender : TcpSender
  pub message : TcpSenderMessage
  pub stream_bytes : List ℕ
  pub temp_receive_window : ℕ
  pub transmitted : List TcpSenderMessage

-- The condition of the `while` loop of `push`.
unfoldable pub goes_on : Loop → Bool
goes_on l =
    (ltb 0 l.temp_receive_window && not (length l.stream_bytes == 0))
    || (ltb 0 l.temp_receive_window && ByteStream.is_closed l.sender.input && not l.sender.fin_set)
    || not l.sender.syn_set

-- `if ( !syn_set_ ) { … }`.
unfoldable pub begin_stream : Loop → Loop
begin_stream l = if l.sender.syn_set then l else record l {
  sender = record l.sender {
    syn_set = true;
    current_rto = l.sender.initial_rto_ms;
    seqno = l.sender.isn;
  };
  message = record l.message { syn = true };
}

-- The payload: at most the window, the stream and `MAX_PAYLOAD_SIZE` allow. The difference is an
-- `int` converted to `uint64_t`.
unfoldable pub fill_payload : Loop → Loop
fill_payload l =
    let available_payload_size =
      min (min (sub_w u64 l.temp_receive_window (to_num l.message.syn)) (length l.stream_bytes))
        max_payload_size in
    if ltb 0 available_payload_size
    then record l {
      message = record l.message { payload = take available_payload_size l.stream_bytes };
      sender = record l.sender { input = ByteStream.pop available_payload_size l.sender.input };
    }
    else l

-- The FIN flag, if there is room for it and nothing else is left.
unfoldable pub end_stream : Loop → Loop
end_stream l =
    if ltb (sequence_length l.message) l.temp_receive_window
      && ByteStream.is_closed l.sender.input
      && not l.sender.fin_set
      && ByteStream.is_finished l.sender.input
    then record l {
      message = record l.message { fin = true };
      sender = record l.sender { fin_set = true };
    }
    else l

-- The state after a message of `message_length` is transmitted.
unfoldable pub record_sent : TcpSender → TcpSenderMessage → TcpSender
record_sent s message =
    let message_length = sequence_length message in
    record s {
      receive_window = sub_w u16 s.receive_window (message_length % u16);
      send_buffer = s.send_buffer ++ (s.abs_seqno, message) ∷ [];
      seqno = Wrapping.add s.seqno (message_length % u32);
      abs_seqno = add_w u64 s.abs_seqno message_length;
    }

-- `if ( message_length > 0 ) { … }`.
unfoldable pub send_message : Loop → Loop
send_message l =
    let message_length = sequence_length l.message in
    if ltb 0 message_length
    then record {
      sender = record_sent l.sender l.message;
      message = make_empty_message (record_sent l.sender l.message);
      stream_bytes = ByteStream.peek (record_sent l.sender l.message).input;
      temp_receive_window = sub_w u16 l.temp_receive_window (message_length % u16);
      transmitted = l.transmitted ++ l.message ∷ [];
    }
    else l

-- The body of the loop.
unfoldable pub round : Loop → Loop
round l = send_message (end_stream (fill_payload (begin_stream l)))

-- The loop on fuel; `none` means that the fuel ran out.
unfoldable pub push_loop : ℕ → Loop → Option Loop
push_loop zero l = none
push_loop (suc fuel) l = let rest = push_loop fuel (round l) in if goes_on l then rest else some l

-- `temp_receive_window` at the start of `push`.
unfoldable pub usable_window : TcpSender → ℕ
usable_window s = if s.receiver_full && ltb 0 s.receive_window then 1 else s.receive_window

-- The variables of `push` before its loop.
unfoldable pub start : TcpSender → Loop
start s = record {
  sender = s;
  message = make_empty_message s;
  stream_bytes = ByteStream.peek s.input;
  temp_receive_window = usable_window s;
  transmitted = [];
}

abbrev pub finish_push : Option Loop → Option (TcpSender × List TcpSenderMessage)
finish_push none = none
finish_push (some l) = some (l.sender, l.transmitted)

-- `TCPSender::push`. Each round uses up window, so the window and one more rounds are enough.
unfoldable pub push : TcpSender → Option (TcpSender × List TcpSenderMessage)
push s = finish_push (push_loop (suc (suc (usable_window s))) (start s))

-- `*prev( send_buffer_.end() )`, if there is one.
unfoldable pub last_sent : List (ℕ × TcpSenderMessage) → Option (ℕ × TcpSenderMessage)
last_sent [] = none
last_sent (x ∷ []) = some x
last_sent (x ∷ y ∷ rest) = last_sent (y ∷ rest)

-- Does the acknowledgment lie past all that was sent?
unfoldable pub beyond_sent : Option (ℕ × TcpSenderMessage) → ℕ → Bool
beyond_sent none abs_ackno = false
beyond_sent (some (i, m)) abs_ackno = ltb (add_w u64 i (sequence_length m)) abs_ackno

-- What the loop over `send_buffer_` in `receive` changes.
pub record Acked : Type 0 where
  pub window : ℕ
  pub max_window : ℕ
  pub erase_count : ℕ

-- Its body at a message that is wholly acknowledged: the SYN sets the window, any other message gives
-- back what it took.
unfoldable pub reopen : ℕ → TcpSenderMessage → Acked → Acked
reopen window_size m a =
    if m.syn
    then record {
      window = max 1 window_size;
      max_window = max 1 window_size;
      erase_count = a.erase_count + 1;
    }
    else record a { window = (a.window + sequence_length m) % u16; erase_count = a.erase_count + 1 }

-- That loop: it stops at the first message that is not wholly acknowledged.
unfoldable pub acknowledge : ℕ → ℕ → List (ℕ × TcpSenderMessage) → Acked → Acked
acknowledge abs_ackno window_size [] a = a
acknowledge abs_ackno window_size ((i, m) ∷ rest) a =
    let more = acknowledge abs_ackno window_size rest (reopen window_size m a) in
    if leb (add_w u64 i (sequence_length m)) abs_ackno then more else a

-- The statements of `receive` after that loop: a larger window is taken over, ...
unfoldable pub open_window : ℕ → TcpSender → TcpSender
open_window window_size s =
    if ltb s.max_receive_window window_size
    then record s {
      receiver_full = window_size == 0;
      receive_window = (s.receive_window + (window_size - s.max_receive_window)) % u16;
      max_receive_window = window_size;
    }
    else record s { receiver_full = window_size == 0 }

-- ... and new data restarts the timer.
unfoldable pub restart_timer : ℕ → TcpSender → TcpSender
restart_timer abs_ackno s =
    if ltb s.pre_abs_ackno abs_ackno
    then record s {
      timer = 0;
      pre_abs_ackno = abs_ackno;
      num_consecutive_retran = 0;
      current_rto = s.initial_rto_ms;
    }
    else s

-- The loop of `receive`, and the erasure of what it counted.
unfoldable pub drop_acked : ℕ → ℕ → TcpSender → TcpSender
drop_acked abs_ackno window_size s =
    let a =
      acknowledge abs_ackno window_size s.send_buffer (record {
        window = s.receive_window;
        max_window = s.max_receive_window;
        erase_count = 0;
      }) in
    record s {
      receive_window = a.window;
      max_receive_window = a.max_window;
      send_buffer = drop a.erase_count s.send_buffer;
    }

-- `msg.ackno->unwrap( isn_, abs_seqno_ )`. The source reads the optional before it tests it; `unset`
-- stands for what it finds in an empty one.
unfoldable pub abs_ackno_of : Wrap32 → TcpSender → Option Wrap32 → ℕ
abs_ackno_of unset s none = Wrapping.unwrap unset s.isn s.abs_seqno
abs_ackno_of unset s (some w) = Wrapping.unwrap w s.isn s.abs_seqno

abbrev pub is_missing : Option Wrap32 → Bool
is_missing none = true
is_missing (some w) = false

-- `TCPSender::receive`.
unfoldable pub receive : Wrap32 → TcpReceiverMessage → TcpSender → TcpSender
receive unset msg s =
    let abs_ackno = abs_ackno_of unset s msg.ackno in
    if beyond_sent (last_sent s.send_buffer) abs_ackno
    then s
    else (if is_missing msg.ackno && (msg.window_size == 0)
        then record s { input = ByteStream.set_error s.input }
        else restart_timer abs_ackno
            (open_window msg.window_size (drop_acked abs_ackno msg.window_size s)))

-- `TCPSender::tick` at the first message of `send_buffer_`.
unfoldable pub tick_first : TcpSenderMessage → TcpSender → TcpSender × List TcpSenderMessage
tick_first first s =
    if leb s.current_rto s.timer
    then (
      record s {
        num_consecutive_retran = add_w u64 s.num_consecutive_retran 1;
        current_rto =
            if not s.receiver_full || first.syn then s.current_rto * 2 % u64 else s.current_rto;
        timer = 0;
      },
      first ∷ [],
    )
    else (s, [])

-- The rest of `tick`, on `send_buffer_`.
unfoldable pub tick_buffer :
    List (ℕ × TcpSenderMessage) → TcpSender → TcpSender × List TcpSenderMessage
tick_buffer [] s = (record s { timer = 0 }, [])
tick_buffer ((i, first) ∷ rest) s = tick_first first s

-- `TCPSender::tick`.
unfoldable pub tick : ℕ → TcpSender → TcpSender × List TcpSenderMessage
tick ms_since_last_tick s =
    tick_buffer s.send_buffer (record s { timer = add_w u64 s.timer ms_since_last_tick })
