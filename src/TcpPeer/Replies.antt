-- ===== src/TcpPeer/Replies.antt =====
-- When a peer answers.
use computer_networking.Prelude.{
  All-append, ◌^◌, ◌≤◌, ◌<◌, Bool, true, false, ◌||◌, some, List, [], ◌∷◌, length, length-append,
  ltb, lt→ltb, ◌≡◌, refl, ap, All, Bool-cases, inl, inr, arith, u16,
}
use computer_networking.Wrapping.{Wrap32}
use computer_networking.TcpMessage.{
  TcpMessage, TcpSenderMessage, TcpReceiverMessage, sequence_length,
}
use computer_networking.TcpSender.{TcpSender, restart_timer, open_window, drop_acked}
use computer_networking.TcpSender
use computer_networking.TcpSender.Inv.{IsValid}
use computer_networking.TcpSender.Push.{push-HasPushed}
use computer_networking.TcpSender.Receive.{receive-IsValid}
use computer_networking.TcpReceiver.{TcpReceiver}
use computer_networking.TcpReceiver
use computer_networking.TcpPeer.{
  TcpPeer, message_with, is_keep_alive, send_all, push, active, note_receipt, take_in, send_due,
  note_linger, receive,
}

-- Every message sent carries the acknowledgment of the receiver.
abbrev pub Carries : TcpReceiverMessage → TcpMessage → Type 0
Carries ack m = m.receiver ≡ ack

send_all-Carries :
    (ms : List TcpSenderMessage) (p : TcpPeer)
    → All (Carries (TcpReceiver.send p.receiver)) (send_all ms p).1
      × ((send_all ms p).0.receiver ≡ p.receiver)
unfolding send_all
send_all-Carries [] p = (tt, refl)
send_all-Carries (m ∷ ms) p =
    let rest = send_all-Carries ms (record p { need_send = false }) in ((refl, rest.0), rest.1)

send_due-Carries :
    (ack : TcpReceiverMessage) (p : TcpPeer) (sent : List TcpMessage)
    → TcpReceiver.send p.receiver ≡ ack
    → All (Carries ack) sent
    → All (Carries ack) (send_due (p, sent)).1
unfolding send_due
send_due-Carries ack p sent e h = elim (Bool-cases p.need_send) [
  | inl q ↦ rw q (
      All-append (Carries ack) sent (message_with p (TcpSender.make_empty_message p.sender) ∷ []) h
        (e, tt))
  | inr q ↦ rw q h
]

send_due-more : (p : TcpPeer) (sent : List TcpMessage) → length sent ≤ length (send_due (p, sent)).1
unfolding send_due
send_due-more p sent = elim (Bool-cases p.need_send) [
  | inl q ↦ rw q (
      omega
        (arith, length-append sent (message_with p (TcpSender.make_empty_message p.sender) ∷ [])))
  | inr q ↦ rw q (omega arith)
]

send_due-some :
    (ms : List TcpSenderMessage) (p : TcpPeer)
    → p.need_send ≡ true
    → 0 < length (send_due (send_all ms p)).1
unfolding send_all
send_due-some [] p h = unfold send_due in rw h (omega arith)
send_due-some (m ∷ ms) p h =
    let rest = send_all ms (record p { need_send = false }) in
    omega (arith, send_due-more rest.0 (message_with p m ∷ rest.1))

or_true : (a b c : Bool) → b ≡ true → (a || b || c) ≡ true
or_true true b c h = refl
or_true false b c h = rw h

note_receipt-due :
    (m : TcpSenderMessage) (p : TcpPeer)
    → 0 < sequence_length m
    → (note_receipt m p).need_send ≡ true
unfolding note_receipt
note_receipt-due m p h =
    or_true p.need_send (ltb 0 (sequence_length m))
      (is_keep_alive m (TcpReceiver.send p.receiver).ackno) (lt→ltb 0 (sequence_length m) h)

noted-receiver :
    (m : TcpSenderMessage) (p : TcpPeer) (r : TcpReceiver)
    → TcpReceiver.receive m p.receiver ≡ some r
    → TcpReceiver.receive m (note_receipt m p).receiver ≡ some r
unfolding note_receipt
noted-receiver m p r e = e

abs_seqno-receive :
    (unset : Wrap32) (m : TcpReceiverMessage) (s : TcpSender)
    → (TcpSender.receive unset m s).abs_seqno ≡ s.abs_seqno
unfolding TcpSender.receive restart_timer open_window drop_acked
abs_seqno-receive unset m s = ground arith

-- An active peer with a valid sender, whose abs_seqno is below 2^63, answers every message that
-- takes sequence numbers and whose window is a 16-bit number, if its receiver takes the message in
-- without an exception: `receive` returns, at least one message goes out, and all that go out carry
-- what the receiver says then.
pub receive-answers :
    (unset : Wrap32) (m : TcpMessage) (p : TcpPeer) (r : TcpReceiver)
    → active p ≡ true
    → 0 < sequence_length m.sender
    → IsValid p.sender
    → p.sender.abs_seqno < 2 ^ 63
    → m.receiver.window_size < u16
    → TcpReceiver.receive m.sender p.receiver ≡ some r
    → (p' : TcpPeer) × (sent : List TcpMessage) × (receive unset m p ≡ some (p', sent))
      × (0 < length sent)
      × All (Carries (TcpReceiver.send r)) sent
unfolding receive push take_in note_receipt
receive-answers unset m p r h k v n w e =
    let s = TcpSender.receive unset m.receiver p.sender in
    let sv = receive-IsValid unset m.receiver v (omega arith) w in
    let (s', ms, q, pushed) =
      push-HasPushed sv
        (omega (arith, abs_seqno-receive unset m.receiver p.sender, sv.window_word)) in
    let p1 : TcpPeer = record (note_receipt m.sender p) { receiver = r; sender = s' } in
    let o = send_due (send_all ms p1) in
    let carried = send_all-Carries ms p1 in
    (
      note_linger o.0,
      o.1,
      rw (h, noted-receiver m.sender p r e, q),
      send_due-some ms p1 (note_receipt-due m.sender p k),
      send_due-Carries (TcpReceiver.send r) (send_all ms p1).0 (send_all ms p1).1
          (ap TcpReceiver.send carried.1) carried.0,
    )
