-- ===== src/TcpReceiver/Order.antt =====
-- Data that arrive in order at a receiver.
use computer_networking.Prelude.{
  ℕ, ◌+◌, ◌-◌, ◌^◌, ◌≤◌, ◌<◌, true, false, some, List, [], length, ◌≡◌, ap, ◌∙◌, arith, u64, add_w,
}
use computer_networking.Wrapping
use computer_networking.Wrapping.{Wrap32, IsWrap32, wrap, unwrap}
use computer_networking.Wrapping.Laws.{unwrap-wrap}
use computer_networking.ByteStream
use computer_networking.ByteStream.{ByteStream}
use computer_networking.ByteStream.Inv.{
  IsValid, compact-IsValid, capacity-compact, available_capacity_lem,
}
use computer_networking.Reassembler.Order.{insert-next}
use computer_networking.TcpMessage.{TcpSenderMessage}
use computer_networking.TcpReceiver.{
  TcpReceiver, first_index, acknowledge, note_syn, note_fin, receive,
}

compact-same :
    (s : ByteStream)
    → ((ByteStream.compact s).num_bytes_pushed ≡ s.num_bytes_pushed)
      × ((ByteStream.compact s).closed ≡ s.closed)
unfolding ByteStream.compact
compact-same s = ground arith

pushed-push :
    (s : ByteStream) (bytes : List ℕ)
    → IsValid s
    → length bytes ≤ s.capacity - s.buffer_size
    → ByteStream.bytes_pushed s + length bytes < u64
    → ByteStream.bytes_pushed (ByteStream.push bytes s) ≡ ByteStream.bytes_pushed s + length bytes
unfolding ByteStream.push ByteStream.append ByteStream.bytes_pushed
pushed-push s bytes v h k =
    let room = available_capacity_lem ((compact-IsValid v).0) in
    omega (arith, room, capacity-compact s, (compact-same s).0)

closed-push :
    (s : ByteStream) (bytes : List ℕ)
    → ByteStream.is_closed (ByteStream.push bytes s) ≡ ByteStream.is_closed s
unfolding ByteStream.push ByteStream.append ByteStream.is_closed
closed-push s bytes = (compact-same s).1

-- A receiver that has had the SYN, whose cache is empty and which has acknowledged all that came.
abbrev pub established : ByteStream → Wrap32 → ℕ → TcpReceiver
established s isn finish_set = record {
  reassembler = record { output = s; cache = []; finish = false; finish_set = finish_set };
  initial_seqno = isn;
  syn_set = true;
  fin_set = false;
  ackno = some (wrap (ByteStream.bytes_pushed s + 1) isn);
  stream_seqno = ByteStream.bytes_pushed s;
  rst = false;
}

abbrev pub data_message : ByteStream → Wrap32 → List ℕ → TcpSenderMessage
data_message s isn bytes = record {
  seqno = wrap (ByteStream.bytes_pushed s + 1) isn;
  syn = false;
  payload = bytes;
  fin = false;
  rst = false;
}

distance_self : (n : ℕ) → Wrapping.distance n n < 2 ^ 31
distance_self n = ground arith

added : (a b : ℕ) → a + b < u64 → add_w u64 a b ≡ a + b
added a b h = omega arith

first_index-next :
    (s : ByteStream) (isn : Wrap32) (finish_set : ℕ) (bytes : List ℕ)
    → IsWrap32 isn
    → ByteStream.bytes_pushed s < 2 ^ 31
    → first_index (data_message s isn bytes) (established s isn finish_set)
      ≡ ByteStream.bytes_pushed s
unfolding first_index Wrapping.add wrap
first_index-next s isn finish_set bytes w h =
    ap (λ n. unwrap (record { raw_value = n }) isn (ByteStream.bytes_pushed s)) (omega arith)
    ∙ unwrap-wrap (ByteStream.bytes_pushed s) isn (ByteStream.bytes_pushed s) w (omega arith)
        (omega arith) (distance_self (ByteStream.bytes_pushed s))

-- A receiver that has had the SYN, whose reassembler holds nothing and whose valid stream is open
-- and free of errors, given a message without flags at the sequence number that it acknowledged,
-- with some bytes that fit in the room of the stream, while the bytes pushed and the capacity are
-- together below 2^31: `receive` throws nothing and leaves the receiver of the same kind whose
-- stream has the bytes pushed and whose acknowledgment number is that of the byte after them.
pub receive-next :
    (s : ByteStream) (isn : Wrap32) (finish_set : ℕ) (bytes : List ℕ)
    → IsValid s
    → ByteStream.has_error s ≡ false
    → ByteStream.is_closed s ≡ false
    → IsWrap32 isn
    → 0 < length bytes
    → length bytes ≤ s.capacity - s.buffer_size
    → ByteStream.bytes_pushed s + s.capacity < 2 ^ 31
    → receive (data_message s isn bytes) (established s isn finish_set)
      ≡ some (established (ByteStream.push bytes s) isn finish_set)
unfolding receive note_syn note_fin acknowledge
receive-next s isn finish_set bytes v no_error open_ w some_bytes fits short = rw (
  no_error,
  first_index-next s isn finish_set bytes w (omega arith),
  insert-next s bytes v some_bytes fits short false finish_set,
  closed-push s bytes,
  open_,
  added (ByteStream.bytes_pushed (ByteStream.push bytes s)) 1
      (omega (arith, pushed-push s bytes v fits (omega arith))),
)
