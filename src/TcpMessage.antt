-- ===== src/TcpMessage.antt =====
-- util/tcp_sender_message.hh, util/tcp_receiver_message.hh and the constants of util/tcp_config.hh:
-- what a TCP sender and a TCP receiver tell each other.
use computer_networking.Prelude.{ℕ, ◌+◌, Bool, false, Option, none, List, [], length, to_num}
use computer_networking.Wrapping.{Wrap32}

-- `struct TCPSenderMessage`.
pub record TcpSenderMessage : Type 0 where
  pub seqno : Wrap32
  pub syn : Bool
  pub payload : List ℕ
  pub fin : Bool
  pub rst : Bool

-- The defaults of its fields.
abbrev pub default_sender_message : TcpSenderMessage
default_sender_message = record {
  seqno = record { raw_value = 0 };
  syn = false;
  payload = [];
  fin = false;
  rst = false;
}

-- `size_t sequence_length() const`.
abbrev pub sequence_length : TcpSenderMessage → ℕ
sequence_length m = to_num m.syn + length m.payload + to_num m.fin

-- `struct TCPReceiverMessage`.
pub record TcpReceiverMessage : Type 0 where
  pub ackno : Option Wrap32
  pub window_size : ℕ
  pub rst : Bool

abbrev pub default_receiver_message : TcpReceiverMessage
default_receiver_message = record { ackno = none; window_size = 0; rst = false }

-- `struct TCPMessage` of util/tcp_segment.hh.
pub record TcpMessage : Type 0 where
  pub sender : TcpSenderMessage
  pub receiver : TcpReceiverMessage

abbrev pub default_message : TcpMessage
default_message = record { sender = default_sender_message; receiver = default_receiver_message }

-- `TCPConfig::MAX_PAYLOAD_SIZE`, `DEFAULT_CAPACITY` and `TIMEOUT_DFLT`.
abbrev pub max_payload_size : ℕ
max_payload_size = 1000

abbrev pub default_capacity : ℕ
default_capacity = 64000

abbrev pub timeout_dflt : ℕ
timeout_dflt = 1000

-- The instance fields of `class TCPConfig`.
pub record TcpConfig : Type 0 where
  pub rt_timeout : ℕ
  pub recv_capacity : ℕ
  pub send_capacity : ℕ
  pub isn : Wrap32

-- Their defaults.
abbrev pub default_config : TcpConfig
default_config = record {
  rt_timeout = timeout_dflt;
  recv_capacity = default_capacity;
  send_capacity = default_capacity;
  isn = record { raw_value = 137 };
}
