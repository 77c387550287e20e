-- ===== src/TcpSender/Receive.antt =====
-- `TCPSender::receive`: which messages an acknowledgment removes, and that the invariant is kept.
use computer_networking.Prelude.{
  ℕ, ◌+◌, ◌≤◌, ◌<◌, ◌≡◌, refl, sym, ap, ◌∙◌, false, ◌&&◌, inl, inr, Bool-cases, some, List, [], ◌∷◌,
  drop, drop-append_length, arith, u16, u64, ◌==◌,
}
use computer_networking.Wrapping.{Wrap32, wrap}
use computer_networking.Wrapping
use computer_networking.ByteStream
use computer_networking.ByteStream.Inv.{set_error-IsValid}
use computer_networking.TcpMessage.{TcpSenderMessage, TcpReceiverMessage, sequence_length}
use computer_networking.TcpSender.{
  TcpSender, Acked, drop_acked, open_window, restart_timer, receive, beyond_sent, last_sent,
  is_missing, abs_ackno_of, total_length,
}
use computer_networking.TcpSender.Inv.{IsValid, Chain, oldest}
use computer_networking.TcpSender.Covered.{
  IsSplit, acknowledge-IsSplit, HasAcked, total_length-append, Chain-empty, nil-of_append,
}

-- The loop's counters, all from the sender.
abbrev counters : TcpSender → Acked
counters s = record {
  window = s.receive_window;
  max_window = s.max_receive_window;
  erase_count = 0;
}

abbrev dropped : TcpSender → Acked → TcpSender
dropped s a = record s {
  receive_window = a.window;
  max_receive_window = a.max_window;
  send_buffer = drop a.erase_count s.send_buffer;
}

unopened-window :
    {k : ℕ} {s : TcpSender} {a : Acked}
    → IsValid s
    → IsSplit s.isn (oldest s) s.abs_seqno k s.send_buffer (counters s) a
    → s.syn_set ≡ false
    → a ≡ counters s
unopened-window {k} {s} {a} v p e =
    let u = v.unopened e in
    let f = v.numbered in
    let z : total_length s.send_buffer ≡ 0 =
      ground (arith, v.unopened e, v.numbered, v.outstanding) in
    p.unmoved (
      nil-of_append p.front p.back
        (sym (Chain-empty s.isn (oldest s) s.abs_seqno s.send_buffer v.chained z) ∙ p.split))

dropped-IsValid :
    {k : ℕ} {s : TcpSender} {a : Acked}
    → IsValid s
    → IsSplit s.isn (oldest s) s.abs_seqno k s.send_buffer (counters s) a
    → HasAcked k s (dropped s a) × IsValid (dropped s a)
dropped-IsValid {k} {s} {a} v p =
    let d : drop a.erase_count s.send_buffer ≡ p.back =
      ap (drop a.erase_count) p.split
      ∙ drop-append_length p.front p.back a.erase_count (omega (arith, p.count)) in
    let t = total_length-append p.front p.back in
    let o : oldest (dropped s a) ≡ oldest s + total_length p.front =
      omega (arith, v.outstanding, ap total_length p.split, ap total_length d) in
    (
      record {
        front = p.front;
        split = rw d p.split;
        covered = p.covered;
        pending = rw d p.pending;
        advanced = o;
      },
      record {
        input_valid = v.input_valid;
        isn_word = v.isn_word;
        window_word = p.window_word;
        outstanding = omega (arith, v.outstanding, ap total_length p.split, ap total_length d);
        chained = rw (o, d) p.chained;
        numbered = v.numbered;
        next_seqno = v.next_seqno;
        unopened = λ e. ground (arith, v.unopened e, unopened-window v p e);
        ended = v.ended;
      },
    )

drop_acked-IsValid :
    (k w : ℕ) {s : TcpSender}
    → IsValid s
    → s.abs_seqno < u64
    → w < u16
    → HasAcked k s (drop_acked k w s) × IsValid (drop_acked k w s)
unfolding drop_acked
drop_acked-IsValid k w {s} v n hw = dropped-IsValid v (
    acknowledge-IsSplit s.isn (oldest s) s.abs_seqno k w s.send_buffer (counters s) v.chained n
      v.window_word hw)

open_window-IsValid : (w : ℕ) {s : TcpSender} → IsValid s → w < u16 → IsValid (open_window w s)
unfolding open_window
open_window-IsValid w {s} v hw = ground (arith, v.unopened, v.ended, v.next_seqno)

restart_timer-IsValid : (k : ℕ) {s : TcpSender} → IsValid s → IsValid (restart_timer k s)
unfolding restart_timer
restart_timer-IsValid k {s} v = ground (arith, v.unopened, v.ended, v.next_seqno)

send_buffer-update :
    (k w : ℕ) (s : TcpSender)
    → ((restart_timer k (open_window w s)).send_buffer ≡ s.send_buffer)
      × ((restart_timer k (open_window w s)).abs_seqno ≡ s.abs_seqno)
unfolding restart_timer open_window
send_buffer-update k w s = ground arith

set_error-IsSenderValid :
    {s : TcpSender} → IsValid s → IsValid (record s { input = ByteStream.set_error s.input })
unfolding ByteStream.set_error
set_error-IsSenderValid v = record {
  input_valid = unfold ByteStream.set_error in set_error-IsValid v.input_valid;
  isn_word = v.isn_word;
  window_word = v.window_word;
  outstanding = v.outstanding;
  chained = v.chained;
  numbered = v.numbered;
  next_seqno = v.next_seqno;
  unopened = v.unopened;
  ended = v.ended;
}

-- `receive` keeps a sender with abs_seqno below 2^64 valid, whatever the acknowledgment number of
-- the message and also where it has none, if the window of the message is a 16-bit number.
pub receive-IsValid :
    (unset : Wrap32) (msg : TcpReceiverMessage) {s : TcpSender}
    → IsValid s
    → s.abs_seqno < u64
    → msg.window_size < u16
    → IsValid (receive unset msg s)
unfolding receive
receive-IsValid unset msg {s} v n h =
    let k = abs_ackno_of unset s msg.ackno in
    elim (Bool-cases (beyond_sent (last_sent s.send_buffer) k)) [
      | inl e ↦ rw e v
      | inr e ↦ rw e (elim (Bool-cases (is_missing msg.ackno && (msg.window_size == 0))) [
        | inl f ↦ rw f (set_error-IsSenderValid v)
        | inr f ↦ rw f (
            restart_timer-IsValid k (
              open_window-IsValid msg.window_size (drop_acked-IsValid k msg.window_size v n h).1 h))
      ])
    ]

within-sent :
    (isn : Wrap32) (i j k : ℕ) (xs : List (ℕ × TcpSenderMessage))
    → Chain isn i xs j
    → j < u64
    → k ≤ j
    → beyond_sent (last_sent xs) k ≡ false
unfolding beyond_sent last_sent
within-sent isn i j k [] c n h = refl
within-sent isn i j k ((x, m) ∷ []) (c0, c1, c2, c3) n h = ground arith
within-sent isn i j k ((x, m) ∷ y ∷ xs) (c0, c1, c2, c3) n h =
    within-sent isn (i + sequence_length m) j k (y ∷ xs) c3 n h

-- On a valid sender with abs_seqno below 2^64, a message whose window is a 16-bit number and whose
-- acknowledgment number unwraps to no more than abs_seqno removes from the front of the send buffer
-- exactly the messages that it covers whole, and the oldest outstanding number advances by their
-- lengths.
pub receive-HasAcked :
    (unset w : Wrap32) (msg : TcpReceiverMessage) {s : TcpSender}
    → IsValid s
    → s.abs_seqno < u64
    → msg.window_size < u16
    → msg.ackno ≡ some w
    → Wrapping.unwrap w s.isn s.abs_seqno ≤ s.abs_seqno
    → HasAcked (Wrapping.unwrap w s.isn s.abs_seqno) s (receive unset msg s)
unfolding receive abs_ackno_of
receive-HasAcked unset w msg {s} v n h a b =
    let k = Wrapping.unwrap w s.isn s.abs_seqno in
    let e = within-sent s.isn (oldest s) s.abs_seqno k s.send_buffer v.chained n b in
    let f = send_buffer-update k msg.window_size (drop_acked k msg.window_size s) in
    let d = (drop_acked-IsValid k msg.window_size v n h).0 in
    rw a (
      rw e (record {
        front = d.front;
        split = rw f.0 d.split;
        covered = d.covered;
        pending = rw f.0 d.pending;
        advanced = rw (f.0, f.1) d.advanced;
      }))
