-- ===== src/TcpOverIp/Tests.antt =====
-- A segment on its way between two adapters (libsponge/tcp_helpers/tcp_over_ip.cc).
use cs.Prelude.{◌≡◌, refl, true, false, some, [], ◌∷◌, arith}
use cs.Buffer.{str}
use cs.Buffer
use cs.BufferList.{BufferList, concatenate_all}
use cs.Parser.{no_error}
use cs.Segment.{TcpSegment}
use cs.Segment
use cs.Segment.HeaderReads.{InWidth}
use cs.Ipv4.{Ipv4Datagram}
use cs.Ipv4
use cs.TcpOverIp.{FdAdapter, FdAdapterConfig, with_ports, wrap_tcp_in_ip, unwrap_tcp_in_ip}
use cs.TcpOverIp.Delivery.{HasAddresses, Peers, connected, unwrap_tcp_in_ip-wrap_tcp_in_ip}

-- From 10.0.0.1, port 1234, to 10.0.0.2, port 80.
abbrev client : FdAdapter
client = record {
  config = record {
    source = record { ipv4_numeric = 167772161; port = 1234 };
    destination = record { ipv4_numeric = 167772162; port = 80 };
    loss_rate_dn = 0;
    loss_rate_up = 0;
  };
  listening = false;
}

abbrev server_config : FdAdapterConfig
server_config = record {
  source = record { ipv4_numeric = 167772162; port = 80 };
  destination = record { ipv4_numeric = 167772161; port = 1234 };
  loss_rate_dn = 0;
  loss_rate_up = 0;
}

client-HasAddresses : HasAddresses client
client-HasAddresses = record {
  source_ip = omega arith;
  destination_ip = omega arith;
  source_port = omega arith;
  destination_port = omega arith;
}

client-Peers : Peers client server_config
client-Peers = record { here = refl; there = refl }

abbrev three_bytes : TcpSegment
three_bytes = record {
  header = record Segment.blank { seqno = record { raw_value = 77 }; ack = true; win = 9000 };
  payload = Buffer.of_string (1 ∷ 2 ∷ 255 ∷ []);
}

three_bytes-InWidth : InWidth three_bytes.header
three_bytes-InWidth = record {
  sport = omega arith;
  dport = omega arith;
  seqno = omega arith;
  ackno = omega arith;
  doff_least = omega arith;
  doff_most = omega arith;
  win = omega arith;
  cksum = omega arith;
  uptr = omega arith;
}

unwrap_tcp_in_ip-wrap_tcp_in_ip_example :
    (d : Ipv4Datagram) × (l : BufferList) × (d' : Ipv4Datagram) × (seg : TcpSegment)
    × (wrap_tcp_in_ip three_bytes client ≡ some (with_ports three_bytes client, d))
    × (Ipv4.serialize d ≡ some l)
    × (Ipv4.parse (Buffer.of_string (concatenate_all l)) Ipv4.new ≡ some (no_error, d'))
    × (unwrap_tcp_in_ip d' (connected server_config) ≡ some (some seg, connected server_config))
    × (seg.header ≡ record (with_ports three_bytes client).header { cksum = seg.header.cksum })
    × (str seg.payload ≡ 1 ∷ 2 ∷ 255 ∷ [])
unwrap_tcp_in_ip-wrap_tcp_in_ip_example =
    unwrap_tcp_in_ip-wrap_tcp_in_ip three_bytes client server_config Ipv4.new client-HasAddresses
      client-Peers three_bytes-InWidth (omega arith, omega arith) (omega arith) (omega arith)
