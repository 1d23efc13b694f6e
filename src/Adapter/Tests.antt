-- ===== src/Adapter/Tests.antt =====
-- Runs of the adapters.
use cs.Prelude.{ℕ, suc, ◌≡◌, refl, true, false, some, [], ◌∷◌, arith}
use cs.Outcome.{returned, thrown}
use cs.Buffer
use cs.BufferList.{BufferList}
use cs.Segment.{TcpSegment}
use cs.Segment
use cs.Segment.HeaderReads.{InWidth}
use cs.TcpOverIp.{FdAdapter, FdAdapterConfig}
use cs.TcpOverIp.Delivery.{HasAddresses}
use cs.FileDescriptor
use cs.UdpSocket.{DatagramCalls, recv}
use cs.Adapter.{Adapter}
use cs.Adapter.Lossy.{LossyFdAdapter, write, should_drop}
use cs.Adapter.Delivery.{Arrives, take_datagram-Arrives}

abbrev client : FdAdapter
client = record {
  config = record {
    source = record { ipv4_numeric = 167772161; port = 1234 };
    destination = record { ipv4_numeric = 167772162; port = 80 };
    loss_rate_dn = 0;
    loss_rate_up = 0;
  };
  listening = false;
}

abbrev server : FdAdapterConfig
server = record client.config {
  source = client.config.destination;
  destination = client.config.source;
}

abbrev seg : TcpSegment
seg = record { header = record Segment.blank { syn = true }; payload = Buffer.of_string (7 ∷ []) }

client-HasAddresses : HasAddresses client
client-HasAddresses = record {
  source_ip = omega arith;
  destination_ip = omega arith;
  source_port = omega arith;
  destination_port = omega arith;
}

seg-InWidth : InWidth seg.header
seg-InWidth = record {
  sport = omega arith;
  dport = omega arith;
  seqno = omega arith;
  ackno = omega arith;
  doff_least = omega arith;
  doff_most = omega arith;
  win = omega arith;
  cksum = omega arith;
  uptr = omega arith;
}

take_datagram-Arrives_example :
    (l : BufferList) × (seg' : TcpSegment) × Arrives seg client server server l seg'
take_datagram-Arrives_example =
    take_datagram-Arrives seg client server server client-HasAddresses
      (record { here = refl; there = refl }) seg-InWidth (omega arith, omega arith)
      (omega arith, tt) (omega arith)

-- It has a segment at each read.
abbrev echo : Adapter FdAdapter ℕ
echo = record {
  fd = λ a. FileDescriptor.new 7;
  config = λ a. a.config;
  read = λ a k. returned (some seg, a, suc k);
  write = λ s a k. returned (a, suc k);
  tick = λ ms a k. returned (a, k);
  set_config = λ c a. record a { config = c };
  set_listening = λ l a. record a { listening = l };
}

abbrev lossy : LossyFdAdapter FdAdapter ℕ
lossy = record { rand = 3; adapter = client }

-- The third number is below the rate, so that the segment is lost.
lost_upwards :
    write
      (λ g. (g, suc g))
      echo
      seg
      (record lossy {
        adapter = record client { config = record client.config { loss_rate_up = 4 } };
      })
      0
    ≡ returned (
      record {
        rand = 4;
        adapter = record client { config = record client.config { loss_rate_up = 4 } };
      },
      0,
    )
unfolding write should_drop
lost_upwards = refl

abbrev calls : DatagramCalls ℕ
calls = record {
  recvfrom = λ f mtu k. (some (client.config.source, 1 ∷ 2 ∷ []), k);
  sendmsg = λ f to views k. (some 1, k);
}

oversized : recv calls 1 (FileDescriptor.new 3) 0 ≡ thrown
unfolding recv
oversized = refl
