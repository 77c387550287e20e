-- ===== src/TcpOverIp/Tests.antt =====
-- A client at 10.0.0.1, port 1080, and a server at 10.0.0.2, port 9090.
use computer_networking.Prelude.{◌≡◌, refl, [], ◌∷◌, none, some, true, false, arith}
use computer_networking.TcpMessage.{TcpMessage}
use computer_networking.TcpSegment.Fields.{one_reset}
use computer_networking.Ipv4.{Ipv4Datagram}
use computer_networking.TcpOverIp.{
  Address, FdAdapter, default_config, wrap_tcp_in_ip, unwrap_tcp_in_ip,
}
use computer_networking.TcpOverIp.Wrapped.{
  IsMessage, IsAddress, unwrap_tcp_in_ip-wrap_tcp_in_ip, unwrap_tcp_in_ip-listening,
}
use computer_networking.TcpOverIp.Related.{IsFromPeer, unwrap_tcp_in_ip-IsFromPeer}

abbrev client_address : Address
client_address = record { ipv4_numeric = 0x0a000001; port = 1080 }

abbrev server_address : Address
server_address = record { ipv4_numeric = 0x0a000002; port = 9090 }

abbrev client : FdAdapter
client = record {
  cfg = record default_config { source = client_address; destination = server_address };
  listen = false;
}

abbrev server : FdAdapter
server = record {
  cfg = record default_config { source = server_address; destination = client_address };
  listen = false;
}

abbrev listener : FdAdapter
listener = record {
  cfg = record default_config { source = record { ipv4_numeric = 0; port = 9090 } };
  listen = true;
}

abbrev syn : TcpMessage
syn = record {
  sender = record {
    seqno = record { raw_value = 0x12345678 };
    syn = true;
    payload = 0x68 ∷ [];
    fin = false;
    rst = false;
  };
  receiver = record { ackno = none; window_size = 64000; rst = false };
}

syn-IsMessage : IsMessage syn
syn-IsMessage = record {
  seqno_word = omega arith;
  ackno_word = tt;
  window_word = omega arith;
  bytes = (omega arith, tt);
  small = omega arith;
}

client-IsAddress : IsAddress client_address
client-IsAddress = record { ip_word = omega arith; port_word = omega arith }

server-IsAddress : IsAddress server_address
server-IsAddress = record { ip_word = omega arith; port_word = omega arith }

unwrap_tcp_in_ip-wrap_tcp_in_ip_example :
    (d : Ipv4Datagram) × (wrap_tcp_in_ip syn client ≡ some d)
    × (unwrap_tcp_in_ip d server ≡ some (server, some (one_reset syn)))
unwrap_tcp_in_ip-wrap_tcp_in_ip_example =
    unwrap_tcp_in_ip-wrap_tcp_in_ip syn client server syn-IsMessage client-IsAddress
      server-IsAddress refl refl refl

unwrap_tcp_in_ip-listening_example :
    (d : Ipv4Datagram) × (wrap_tcp_in_ip syn client ≡ some d)
    × (unwrap_tcp_in_ip d listener ≡ some (server, some (one_reset syn)))
unwrap_tcp_in_ip-listening_example =
    unwrap_tcp_in_ip-listening syn client listener syn-IsMessage client-IsAddress server-IsAddress
      refl refl

wrapped :
    (d : Ipv4Datagram) × (wrap_tcp_in_ip syn client ≡ some d)
    × (unwrap_tcp_in_ip d server ≡ some (server, some syn))
wrapped =
    unwrap_tcp_in_ip-wrap_tcp_in_ip syn client server syn-IsMessage client-IsAddress
      server-IsAddress refl refl refl

unwrap_tcp_in_ip-IsFromPeer_example : (server ≡ server) × IsFromPeer wrapped.0 server syn
unwrap_tcp_in_ip-IsFromPeer_example =
    unwrap_tcp_in_ip-IsFromPeer wrapped.0 server server syn refl wrapped.2
