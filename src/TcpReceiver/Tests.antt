-- ===== src/TcpReceiver/Tests.antt =====
-- A receiver that takes data after a SYN, and a reset.
use computer_networking.Prelude.{◌≡◌, refl, true, some, [], ◌∷◌, arith}
use computer_networking.Wrapping.{Wrap32}
use computer_networking.ByteStream
use computer_networking.ByteStream.{ByteStream}
use computer_networking.Reassembler.Tests.{empty, empty-IsValid}
use computer_networking.TcpMessage.{TcpSenderMessage, default_sender_message}
use computer_networking.TcpReceiver.{receive, reset, send}
use computer_networking.TcpReceiver.Order.{established, data_message, receive-next}
use computer_networking.TcpReceiver.Reset.{receive_all, receive_all-rst}

abbrev isn : Wrap32
isn = record { raw_value = 4_294_967_295 }

receive-next_example :
    receive (data_message empty isn (1 ∷ 2 ∷ [])) (established empty isn 0)
    ≡ some (established (ByteStream.push (1 ∷ 2 ∷ []) empty) isn 0)
unfolding ByteStream.init ByteStream.bytes_pushed ByteStream.has_error ByteStream.is_closed
receive-next_example =
    receive-next empty isn 0 (1 ∷ 2 ∷ []) empty-IsValid refl refl (omega arith) (omega arith)
      (omega arith) (omega arith)

abbrev rst_message : TcpSenderMessage
rst_message = record default_sender_message { rst = true }

receive_all-rst_example :
    (receive_all (rst_message ∷ data_message empty isn (1 ∷ []) ∷ []) (established empty isn 0)
      ≡ some (reset (established empty isn 0)))
    × (ByteStream.has_error (reset (established empty isn 0)).reassembler.output ≡ true)
    × ((send (reset (established empty isn 0))).rst ≡ true)
receive_all-rst_example =
    receive_all-rst rst_message (data_message empty isn (1 ∷ []) ∷ []) (established empty isn 0)
      refl
