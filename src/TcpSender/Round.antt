-- ===== src/TcpSender/Round.antt =====
-- One round of the loop of `TCPSender::push`.
use computer_networking.Prelude.{
  ◌+◌, ◌%◌, sub_w, ◌≤◌, ◌<◌, ◌≡◌, refl, sym, ap, true, [], ◌∷◌, ◌++◌, length, arith, u16, u64,
  add_w,
}
use computer_networking.Wrapping.{wrap}
use computer_networking.Wrapping.Laws.{add-wrap}
use computer_networking.ByteStream
use computer_networking.ByteStream.Refine.{contents, peek-contents}
use computer_networking.TcpMessage.{TcpSenderMessage, sequence_length, max_payload_size}
use computer_networking.TcpSender.{
  Loop, total_length, make_empty_message, goes_on, begin_stream, fill_payload, end_stream,
  record_sent, send_message, round,
}
use computer_networking.TcpSender.Inv.{IsValid, oldest, Chain-append, total_length-append}
use computer_networking.TcpSender.Filling.{AtHead, IsFilling, filled, progress}

-- What a round has sent when it is over, in `r`: the message `m`.
pub record HasSent (l r : Loop) (m : TcpSenderMessage) : Type 0 where
  pub head : AtHead r
  pub out : r.transmitted ≡ l.transmitted ++ m ∷ []
  pub window : r.temp_receive_window + sequence_length m ≡ l.temp_receive_window
  pub room : r.sender.receive_window + sequence_length m ≡ l.sender.receive_window
  pub kept : r.sender.send_buffer ≡ l.sender.send_buffer ++ (l.sender.abs_seqno, m) ∷ []
  pub next : r.sender.abs_seqno ≡ l.sender.abs_seqno + sequence_length m
  pub carried : contents l.sender.input ≡ m.payload ++ contents r.sender.input
  pub limited : length m.payload ≤ max_payload_size
  pub nonempty : 0 < sequence_length m
  pub stamped : m.seqno ≡ wrap l.sender.abs_seqno l.sender.isn
  pub same_isn : r.sender.isn ≡ l.sender.isn
  pub closed : r.sender.input.closed ≡ l.sender.input.closed

record_sent-IsValid :
    (l t : Loop)
    → AtHead l
    → IsFilling l t
    → 0 < sequence_length t.message
    → IsValid (record_sent t.sender t.message)
unfolding record_sent
record_sent-IsValid l t h f p =
    let j : add_w u64 t.sender.abs_seqno (sequence_length t.message)
        ≡ t.sender.abs_seqno + sequence_length t.message =
      omega arith in
    record {
      input_valid = f.input_valid;
      isn_word = ground arith;
      window_word = omega arith;
      outstanding =
          ground (arith, total_length-append t.sender.send_buffer t.sender.abs_seqno t.message);
      chained =
          let i : oldest (record_sent t.sender t.message) ≡ oldest l.sender = omega (
            arith,
            total_length-append t.sender.send_buffer t.sender.abs_seqno t.message,
            ap total_length f.same_buffer,
          ) in
          Chain-append _ _ _ _ t.sender.send_buffer t.message
            (rw (i, f.same_isn, f.same_buffer, f.same_next) h.valid.chained)
            (rw (f.same_isn, f.same_next) f.stamped) p (sym j);
      numbered = ground arith;
      next_seqno = λ _.
          rw (j, f.next, f.same_next, f.same_isn)
            (add-wrap l.sender.abs_seqno (sequence_length t.message) l.sender.isn);
      unopened = λ e. cc;
      ended = f.ended;
    }

-- What `send_message` makes of a message that is not empty.
abbrev after_send : Loop → Loop
after_send t = record {
  sender = record_sent t.sender t.message;
  message = make_empty_message (record_sent t.sender t.message);
  stream_bytes = ByteStream.peek (record_sent t.sender t.message).input;
  temp_receive_window = sub_w u16 t.temp_receive_window (sequence_length t.message % u16);
  transmitted = t.transmitted ++ t.message ∷ [];
}

send_message-nonempty : (t : Loop) → 0 < sequence_length t.message → send_message t ≡ after_send t
unfolding send_message
send_message-nonempty t p = ground arith

after_send-HasSent :
    (l t : Loop)
    → AtHead l
    → IsFilling l t
    → 0 < sequence_length t.message
    → HasSent l (after_send t) t.message
after_send-HasSent l t h f p = record {
  head = record {
    valid = record_sent-IsValid l t h f p;
    fresh = refl;
    bytes = unfold record_sent in peek-contents f.input_valid;
    room = unfold record_sent in omega arith;
    to_open = unfold record_sent in λ e. cc (f.opened);
    no_wrap = unfold record_sent in omega arith;
  };
  out = ap (λ o. o ++ t.message ∷ []) f.same_out;
  window = omega arith;
  room = unfold record_sent in omega arith;
  kept = unfold record_sent in rw (f.same_buffer, f.same_next);
  next = unfold record_sent in omega arith;
  carried = unfold record_sent in f.carried;
  limited = f.limited;
  nonempty = p;
  stamped = f.stamped;
  same_isn = unfold record_sent in f.same_isn;
  closed = unfold record_sent in f.same_closed;
}

-- A round that the loop makes sends one message.
pub round-HasSent :
    (l : Loop) → AtHead l → goes_on l ≡ true → (m : TcpSenderMessage) × HasSent l (round l) m
unfolding round
round-HasSent l h g =
    let t = end_stream (fill_payload (begin_stream l)) in
    (
      t.message,
      rw (send_message-nonempty t (progress l h g))
          (after_send-HasSent l t h (filled l h) (progress l h g)),
    )
