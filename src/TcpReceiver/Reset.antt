-- ===== src/TcpReceiver/Reset.antt =====
-- Resets.
use computer_networking.Prelude.{
  Bool, true, false, ◌||◌, Option, none, some, List, [], ◌∷◌, ◌≡◌, refl,
}
use computer_networking.ByteStream
use computer_networking.TcpMessage.{TcpSenderMessage}
use computer_networking.TcpReceiver.{TcpReceiver, reset, receive, send}

-- A connection's messages, one after the other, up to an exception.
abbrev pub and_then : Option TcpReceiver → (TcpReceiver → Option TcpReceiver) → Option TcpReceiver
and_then none f = none
and_then (some r) f = f r

unfoldable pub receive_all : List TcpSenderMessage → TcpReceiver → Option TcpReceiver
receive_all [] r = some r
receive_all (m ∷ ms) r = and_then (receive m r) (receive_all ms)

or_true : (b : Bool) → (b || true) ≡ true
or_true true = refl
or_true false = refl

receive-reset : (m : TcpSenderMessage) (r : TcpReceiver) → receive m (reset r) ≡ some (reset r)
unfolding receive reset ByteStream.has_error ByteStream.set_error
receive-reset m r = rw (or_true m.rst)

receive_all-reset :
    (ms : List TcpSenderMessage) (r : TcpReceiver) → receive_all ms (reset r) ≡ some (reset r)
unfolding receive_all
receive_all-reset [] r = refl
receive_all-reset (m ∷ ms) r = rw (receive-reset m r, receive_all-reset ms r)

receive-rst : (m : TcpSenderMessage) (r : TcpReceiver) → m.rst ≡ true → receive m r ≡ some (reset r)
unfolding receive
receive-rst m r h = rw h

send-reset : (r : TcpReceiver) → (send (reset r)).rst ≡ true
unfolding send reset
send-reset r = refl

-- A message with RST puts the stream in error and makes what `send` returns carry RST, and after it
-- no sequence of messages changes anything.
pub receive_all-rst :
    (m : TcpSenderMessage) (later : List TcpSenderMessage) (r : TcpReceiver)
    → m.rst ≡ true
    → (receive_all (m ∷ later) r ≡ some (reset r))
      × (ByteStream.has_error (reset r).reassembler.output ≡ true)
      × ((send (reset r)).rst ≡ true)
unfolding receive_all reset ByteStream.has_error ByteStream.set_error
receive_all-rst m later r h =
    (rw (receive-rst m r h) (receive_all-reset later r), refl, send-reset r)
