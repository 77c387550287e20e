-- ===== src/TcpSender/Filling.antt =====
-- The message of a round of the loop of `TCPSender::push`, before it is sent.
use computer_networking.Prelude.{
  ℕ, ◌+◌, ◌%◌, sub_w, ◌≤◌, ◌<◌, ◌≡◌, refl, sym, true, false, [], ◌++◌, min, length, take,
  take-append-drop, length-take, arith, to_num, u64, inl, inr, Bool-cases,
}
use computer_networking.Wrapping.{wrap}
use computer_networking.Wrapping.Laws.{wrap-zero}
use computer_networking.ByteStream
use computer_networking.ByteStream.Inv
use computer_networking.ByteStream.Inv.{pop-IsValid}
use computer_networking.ByteStream.Refine.{contents, length-contents, contents-pop}
use computer_networking.TcpMessage.{sequence_length, max_payload_size}
use computer_networking.TcpSender.{
  Loop, make_empty_message, goes_on, begin_stream, fill_payload, end_stream,
}
use computer_networking.TcpSender.Inv.{IsValid}

-- What holds at the head of the loop.
pub record AtHead (l : Loop) : Type 0 where
  pub valid : IsValid l.sender
  pub fresh : l.message ≡ make_empty_message l.sender
  pub bytes : l.stream_bytes ≡ contents l.sender.input
  pub room : l.temp_receive_window ≤ l.sender.receive_window
  pub to_open : l.sender.syn_set ≡ false → 0 < l.temp_receive_window
  pub no_wrap : l.sender.abs_seqno + l.temp_receive_window < u64

-- What the three steps before `send_message` keep between the head of the loop, `l`, and the message
-- that they fill, in `t`.
pub record IsFilling (l t : Loop) : Type 0 where
  pub same_window : t.temp_receive_window ≡ l.temp_receive_window
  pub same_bytes : t.stream_bytes ≡ l.stream_bytes
  pub same_out : t.transmitted ≡ l.transmitted
  pub same_isn : t.sender.isn ≡ l.sender.isn
  pub same_buffer : t.sender.send_buffer ≡ l.sender.send_buffer
  pub same_next : t.sender.abs_seqno ≡ l.sender.abs_seqno
  pub same_room : t.sender.receive_window ≡ l.sender.receive_window
  pub same_closed : t.sender.input.closed ≡ l.sender.input.closed
  pub opened : t.sender.syn_set ≡ true
  pub stamped : t.message.seqno ≡ wrap l.sender.abs_seqno l.sender.isn
  pub next : t.sender.seqno ≡ wrap l.sender.abs_seqno l.sender.isn
  pub input_valid : ByteStream.Inv.IsValid t.sender.input
  pub carried : contents l.sender.input ≡ t.message.payload ++ contents t.sender.input
  pub fits : sequence_length t.message ≤ l.temp_receive_window
  pub limited : length t.message.payload ≤ max_payload_size
  pub numbered :
      l.sender.abs_seqno + sequence_length t.message
      ≡ 1 + t.sender.input.num_bytes_poped + to_num t.sender.fin_set
  pub ended :
      t.sender.fin_set ≡ true → (t.sender.input.closed ≡ true) × (t.sender.input.buffer_size ≡ 0)
  pub syn_new : to_num t.message.syn + to_num l.sender.syn_set ≡ 1

-- The message is still empty but for its SYN flag.
abbrev IsBare : Loop → Type 0
IsBare t = (t.message.payload ≡ []) × (t.message.fin ≡ false)

begun : (l : Loop) → AtHead l → IsFilling l (begin_stream l) × IsBare (begin_stream l)
unfolding begin_stream make_empty_message
begun l h =
    ground (
      arith,
      h.valid.next_seqno,
      h.valid.unopened,
      h.valid.ended,
      h.to_open,
      wrap-zero l.sender.isn,
    )

pop_front :
    (n : ℕ) {s : ByteStream.ByteStream}
    → ByteStream.Inv.IsValid s
    → ((ByteStream.pop n s).closed ≡ s.closed)
      × ((ByteStream.pop n s).num_bytes_poped ≡ (s.num_bytes_poped + min n s.buffer_size) % u64)
      × (contents s ≡ take n (contents s) ++ contents (ByteStream.pop n s))
      × ByteStream.Inv.IsValid (ByteStream.pop n s)
pop_front n {s} v = (
  unfold ByteStream.pop in refl,
  unfold ByteStream.pop ByteStream.bytes_buffered in refl,
  rw (contents-pop n v) (sym (take-append-drop n (contents s))),
  pop-IsValid n v,
)

fill-of_bare :
    (l t : Loop)
    → AtHead l
    → IsFilling l t
    → IsBare t
    → IsFilling l (fill_payload t) × ((fill_payload t).message.fin ≡ false)
unfolding fill_payload
fill-of_bare l t h f b =
    let n =
      min (min (sub_w u64 t.temp_receive_window (to_num t.message.syn)) (length t.stream_bytes))
        max_payload_size in
    let c : contents t.sender.input ≡ l.stream_bytes = cc (h.bytes, f.carried) in
    ground (
      arith,
      f.ended,
      pop_front n f.input_valid,
      length-contents f.input_valid,
      length-take n t.stream_bytes,
    )

end-of_filled :
    (l t : Loop) → AtHead l → IsFilling l t → t.message.fin ≡ false → IsFilling l (end_stream t)
unfolding end_stream ByteStream.is_closed ByteStream.is_finished ByteStream.bytes_buffered
end-of_filled l t h f b = ground (arith, f.ended)

pub filled : (l : Loop) → AtHead l → IsFilling l (end_stream (fill_payload (begin_stream l)))
filled l h =
    let (f, b) = begun l h in
    let (g, e) = fill-of_bare l (begin_stream l) h f b in
    end-of_filled l (fill_payload (begin_stream l)) h g e

-- Once the stream is open, a round that the loop makes has something to send.
fill_some :
    (l : Loop)
    → AtHead l
    → l.sender.syn_set ≡ true
    → goes_on l ≡ true
    → 0 < sequence_length (end_stream (fill_payload l)).message
unfolding end_stream fill_payload goes_on ByteStream.is_closed ByteStream.is_finished
    ByteStream.bytes_buffered make_empty_message
fill_some l h e g = ground (
  arith,
  h.valid.ended,
  length-contents h.valid.input_valid,
  length-take
      (min (min (sub_w u64 l.temp_receive_window 0) (length l.stream_bytes)) max_payload_size)
      l.stream_bytes,
)

begin_stream-of_open : (l : Loop) → l.sender.syn_set ≡ true → begin_stream l ≡ l
unfolding begin_stream
begin_stream-of_open l e = ground arith

pub progress :
    (l : Loop)
    → AtHead l
    → goes_on l ≡ true
    → 0 < sequence_length (end_stream (fill_payload (begin_stream l))).message
progress l h g = elim (Bool-cases l.sender.syn_set) [
  | inl e ↦ rw (begin_stream-of_open l e) (fill_some l h e g)
  | inr e ↦ ground (arith, (filled l h).syn_new)
]
