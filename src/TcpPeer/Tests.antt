-- ===== src/TcpPeer/Tests.antt =====
-- A listening peer that answers a SYN.
use computer_networking.Prelude.{◌<◌, ◌≡◌, refl, true, some, List, length, All, arith}
use computer_networking.Wrapping
use computer_networking.Wrapping.{Wrap32}
use computer_networking.ByteStream
use computer_networking.Reassembler
use computer_networking.TcpMessage.{
  TcpMessage, default_sender_message, default_receiver_message, default_config,
}
use computer_networking.TcpSender
use computer_networking.TcpSender.Inv.{init-IsValid}
use computer_networking.TcpReceiver
use computer_networking.TcpReceiver.{TcpReceiver}
use computer_networking.TcpPeer.{TcpPeer, init, active, receive}
use computer_networking.TcpPeer.Replies.{Carries, receive-answers}

abbrev unused : Wrap32
unused = record { raw_value = 0 }

abbrev peer : TcpPeer
peer = init default_config

abbrev syn : TcpMessage
syn = record {
  sender = record default_sender_message { seqno = record { raw_value = 1000 }; syn = true };
  receiver = record default_receiver_message { window_size = 500 };
}

is_active : active peer ≡ true
unfolding active TcpSender.init ByteStream.init ByteStream.has_error ByteStream.is_closed
    ByteStream.is_finished ByteStream.bytes_buffered TcpSender.sequence_numbers_in_flight
is_active = refl

received : (r : TcpReceiver) × (TcpReceiver.receive syn.sender peer.receiver ≡ some r)
unfolding TcpReceiver.receive TcpReceiver.note_syn TcpReceiver.note_fin TcpReceiver.first_index
    Wrapping.add Wrapping.unwrap Reassembler.insert Reassembler.insert_within Reassembler.note_last
    Reassembler.window_end Reassembler.clamp_int Reassembler.store Reassembler.append_rest
    ByteStream.init ByteStream.has_error ByteStream.bytes_pushed ByteStream.available_capacity
    Reassembler.put
received = (_, refl)

receive-answers_example :
    (p' : TcpPeer) × (sent : List TcpMessage) × (receive unused syn peer ≡ some (p', sent))
    × (0 < length sent)
    × All (Carries (TcpReceiver.send received.0)) sent
unfolding TcpSender.init
receive-answers_example =
    receive-answers unused syn peer received.0 is_active (omega arith)
      (init-IsValid 64000 (record { raw_value = 137 }) 1000 (omega arith) (omega arith))
      (omega arith) (omega arith) received.1
