-- ===== src/TcpReceiver.antt =====
-- src/tcp_receiver.hh and src/tcp_receiver.cc.
mod Tests
pub mod Reset
pub mod Order
use computer_networking.Prelude.{
  ℕ, ◌+◌, ◌-◌, ◌*◌, ◌%◌, min, Bool, true, false, ◌&&◌, ◌||◌, Option, none, some, if◌then◌else◌,
  to_num, u16, u32, u64, add_w, sub_w,
}
use computer_networking.Wrapping
use computer_networking.Wrapping.{Wrap32}
use computer_networking.ByteStream
use computer_networking.ByteStream.{ByteStream}
use computer_networking.Reassembler
use computer_networking.Reassembler.{Reassembler}
use computer_networking.TcpMessage.{TcpSenderMessage, TcpReceiverMessage, default_receiver_message}

-- `class TCPReceiver`.
pub record TcpReceiver : Type 0 where
  pub reassembler : Reassembler
  pub initial_seqno : Wrap32
  pub syn_set : Bool
  pub fin_set : Bool
  pub ackno : Option Wrap32
  pub stream_seqno : ℕ
  pub rst : Bool

-- Its constructor.
abbrev pub init : Reassembler → TcpReceiver
init reassembler = record {
  reassembler = reassembler;
  initial_seqno = record { raw_value = 0 };
  syn_set = false;
  fin_set = false;
  ackno = none;
  stream_seqno = 0;
  rst = false;
}

-- `receive` on a reset: the flag is set and the stream is in error.
unfoldable pub reset : TcpReceiver → TcpReceiver
reset r = record r {
  rst = true;
  reassembler = record r.reassembler { output = ByteStream.set_error r.reassembler.output };
}

-- The SYN and FIN flags of a message.
unfoldable pub note_syn : TcpSenderMessage → TcpReceiver → TcpReceiver
note_syn m r = if m.syn then record r { initial_seqno = m.seqno; syn_set = true } else r

unfoldable pub note_fin : TcpSenderMessage → TcpReceiver → TcpReceiver
note_fin m r = if m.fin && r.syn_set then record r { fin_set = true } else r

-- The index of the payload in the stream: the SYN takes a sequence number, and `-1 * syn_set_` as a
-- `uint32_t` takes one off again.
unfoldable pub first_index : TcpSenderMessage → TcpReceiver → ℕ
first_index m r =
    let payload_first_seqno = if m.syn then Wrapping.add m.seqno 1 else m.seqno in
    Wrapping.unwrap (Wrapping.add payload_first_seqno ((u32 - 1) * to_num r.syn_set))
      r.initial_seqno r.stream_seqno

-- The end of `receive`: `wrap` is static, and needs no acknowledgment number before.
unfoldable pub acknowledge : TcpReceiver → TcpReceiver
acknowledge r =
    let pushed = ByteStream.bytes_pushed r.reassembler.output in
    let seqno =
      if ByteStream.is_closed r.reassembler.output
      then add_w u64 (add_w u64 pushed (to_num r.syn_set)) (to_num r.fin_set)
      else add_w u64 pushed (to_num r.syn_set) in
    record r { stream_seqno = pushed; ackno = some (Wrapping.wrap seqno r.initial_seqno) }

abbrev pub after_insert : TcpReceiver → Option Reassembler → Option TcpReceiver
after_insert r none = none
after_insert r (some reassembler) = some (acknowledge (record r { reassembler = reassembler }))

-- `void TCPReceiver::receive( TCPSenderMessage message )`; `none` is an exception of the reassembler.
unfoldable pub receive : TcpSenderMessage → TcpReceiver → Option TcpReceiver
receive m r =
    let r' = note_fin m (note_syn m r) in
    if m.rst || ByteStream.has_error r.reassembler.output
    then some (reset r)
    else after_insert r' (Reassembler.insert (first_index m r') m.payload m.fin r'.reassembler)

-- `TCPReceiverMessage TCPReceiver::send() const`. The difference is a `uint64_t`, `window_size` a `uint16_t`.
unfoldable pub send : TcpReceiver → TcpReceiverMessage
send r = record {
  ackno = if r.syn_set then r.ackno else none;
  window_size =
      min (sub_w u64 65535 (Reassembler.count_bytes_pending r.reassembler))
        (ByteStream.available_capacity r.reassembler.output)
      % u16;
  rst = r.rst || ByteStream.has_error r.reassembler.output;
}
