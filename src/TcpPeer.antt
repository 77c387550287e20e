-- ===== src/TcpPeer.antt =====
-- util/tcp_peer.hh: a TCP endpoint, a sender and a receiver together. The messages given to the `transmit` function are
-- listed in the order of its calls.
mod Tests
pub mod Replies
use computer_networking.Prelude.{
  ℕ, ◌+◌, ◌*◌, Bool, true, false, not, ◌&&◌, ◌||◌, Option, none, some, List, [], ◌∷◌, ◌++◌, map,
  length, ltb, ◌==◌, if◌then◌else◌, u64, add_w,
}
use computer_networking.Wrapping
use computer_networking.Wrapping.{Wrap32}
use computer_networking.ByteStream
use computer_networking.TcpMessage.{
  TcpSenderMessage, TcpReceiverMessage, TcpMessage, TcpConfig, sequence_length,
}
use computer_networking.Reassembler
use computer_networking.TcpSender
use computer_networking.TcpSender.{TcpSender}
use computer_networking.TcpReceiver
use computer_networking.TcpReceiver.{TcpReceiver}

-- `class TCPPeer`.
pub record TcpPeer : Type 0 where
  pub cfg : TcpConfig
  pub sender : TcpSender
  pub receiver : TcpReceiver
  pub need_send : Bool
  pub linger_after_streams_finish : Bool
  pub cumulative_time : ℕ
  pub time_of_last_receipt : ℕ

-- `TCPPeer( const TCPConfig& cfg )`.
abbrev pub init : TcpConfig → TcpPeer
init cfg = record {
  cfg = cfg;
  sender = TcpSender.init (ByteStream.init cfg.send_capacity) cfg.isn cfg.rt_timeout;
  receiver = TcpReceiver.init (Reassembler.init (ByteStream.init cfg.recv_capacity));
  need_send = false;
  linger_after_streams_finish = true;
  cumulative_time = 0;
  time_of_last_receipt = 0;
}

-- `send`, on each of the messages that the sender makes.
abbrev pub message_with : TcpPeer → TcpSenderMessage → TcpMessage
message_with p m = record { sender = m; receiver = TcpReceiver.send p.receiver }

unfoldable pub send_all : List TcpSenderMessage → TcpPeer → TcpPeer × List TcpMessage
send_all [] p = (p, [])
send_all (m ∷ ms) p =
    let (p', sent) = send_all ms (record p { need_send = false }) in (p', message_with p m ∷ sent)

-- `TCPPeer::push`. `none` would be that the fuel of the sender's loop is too little.
abbrev pub after_push :
    TcpPeer → Option (TcpSender × List TcpSenderMessage) → Option (TcpPeer × List TcpMessage)
after_push p none = none
after_push p (some (sender, messages)) = some (send_all messages (record p { sender = sender }))

unfoldable pub push : TcpPeer → Option (TcpPeer × List TcpMessage)
push p = after_push p (TcpSender.push p.sender)

-- `TCPPeer::tick`.
abbrev pub after_tick : TcpPeer → TcpSender × List TcpSenderMessage → TcpPeer × List TcpMessage
after_tick p (sender, messages) = send_all messages (record p { sender = sender })

unfoldable pub tick : ℕ → TcpPeer → TcpPeer × List TcpMessage
tick t p =
    after_tick (record p { cumulative_time = add_w u64 p.cumulative_time t })
      (TcpSender.tick t p.sender)

-- `TCPPeer::has_ackno`.
abbrev pub is_some {ℓ} : {A : Type ℓ} → Option A → Bool
is_some none = false
is_some (some a) = true

unfoldable pub has_ackno : TcpPeer → Bool
has_ackno p = is_some (TcpReceiver.send p.receiver).ackno

-- `TCPPeer::active`.
unfoldable pub active : TcpPeer → Bool
active p =
    let any_errors =
      ByteStream.has_error p.receiver.reassembler.output || ByteStream.has_error p.sender.input in
    let sender_active =
      not (TcpSender.sequence_numbers_in_flight p.sender == 0)
      || not (ByteStream.is_finished p.sender.input) in
    let receiver_active = not (ByteStream.is_closed p.receiver.reassembler.output) in
    let lingering =
      p.linger_after_streams_finish
      && ltb p.cumulative_time (add_w u64 p.time_of_last_receipt (10 * p.cfg.rt_timeout)) in
    not any_errors && (sender_active || receiver_active || lingering)

-- The parts of `receive`: what makes an answer due, ...
abbrev pub is_keep_alive : TcpSenderMessage → Option Wrap32 → Bool
is_keep_alive m none = false
is_keep_alive m (some ackno) = Wrapping.equal (Wrapping.add m.seqno 1) ackno

unfoldable pub note_receipt : TcpSenderMessage → TcpPeer → TcpPeer
note_receipt m p = record p {
  time_of_last_receipt = p.cumulative_time;
  need_send =
      p.need_send
      || ltb 0 (sequence_length m)
      || is_keep_alive m (TcpReceiver.send p.receiver).ackno;
}

-- ... the two halves of the message given to the receiver and the sender, ...
abbrev pub give_sender : Wrap32 → TcpReceiverMessage → TcpPeer → Option TcpReceiver → Option TcpPeer
give_sender unset m p none = none
give_sender unset m p (some receiver) =
    some (record p { receiver = receiver; sender = TcpSender.receive unset m p.sender })

unfoldable pub take_in : Wrap32 → TcpMessage → TcpPeer → Option TcpPeer
take_in unset m p =
    let noted = note_receipt m.sender p in
    give_sender unset m.receiver noted (TcpReceiver.receive m.sender noted.receiver)

-- ... an empty message where an answer is still due, ...
unfoldable pub send_due : TcpPeer × List TcpMessage → TcpPeer × List TcpMessage
send_due (p, sent) =
    if p.need_send
    then (
      record p { need_send = false },
      sent ++ message_with p (TcpSender.make_empty_message p.sender) ∷ [],
    )
    else (p, sent)

-- ... and whether to linger.
unfoldable pub note_linger : TcpPeer → TcpPeer
note_linger p =
    if ByteStream.is_closed p.receiver.reassembler.output
      && not (ByteStream.is_finished p.sender.input)
    then record p { linger_after_streams_finish = false }
    else p

abbrev pub finish_receive : Option (TcpPeer × List TcpMessage) → Option (TcpPeer × List TcpMessage)
finish_receive none = none
finish_receive (some o) = let (p, sent) = send_due o in some (note_linger p, sent)

abbrev pub push_some : Option TcpPeer → Option (TcpPeer × List TcpMessage)
push_some none = none
push_some (some p) = push p

-- `TCPPeer::receive`; `unset` is what the sender finds in an empty acknowledgment number.
unfoldable pub receive : Wrap32 → TcpMessage → TcpPeer → Option (TcpPeer × List TcpMessage)
receive unset m p =
    let o = finish_receive (push_some (take_in unset m p)) in if active p then o else some (p, [])
