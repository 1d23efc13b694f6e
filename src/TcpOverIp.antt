-- ===== src/TcpOverIp.antt =====
-- libsponge/tcp_helpers/tcp_over_ip.hh and tcp_over_ip.cc, with `FdAdapterBase` of fd_adapter.hh and
-- `FdAdapterConfig` of tcp_config.hh. An `Address` is its IPv4 number and its port: the way through
-- `inet_ntoa` and back is left out.
pub mod Delivery
mod Tests
use cs.Prelude.{
  ℕ, ◌+◌, ◌*◌, ◌%◌, ◌^◌, Bool, true, false, not, ◌&&◌, Option, none, some, if◌then◌else◌, ◌==◌,
}
use cs.Buffer
use cs.BufferList.{BufferList, to_buffer}
use cs.Parser.{ParseResult, failed}
use cs.Segment.{TcpSegment}
use cs.Segment
use cs.Segment.Wire
use cs.Ipv4.{Ipv4Datagram, Ipv4Header, pseudo_cksum}
use cs.Ipv4

pub record Address : Type 0 where
  pub ipv4_numeric : ℕ
  pub port : ℕ

pub record FdAdapterConfig : Type 0 where
  pub source : Address
  pub destination : Address
  pub loss_rate_dn : ℕ
  pub loss_rate_up : ℕ

-- A configuration as it is made.
abbrev pub default_adapter_config : FdAdapterConfig
default_adapter_config = record {
  source = record { ipv4_numeric = 0; port = 0 };
  destination = record { ipv4_numeric = 0; port = 0 };
  loss_rate_dn = 0;
  loss_rate_up = 0;
}

pub record FdAdapter : Type 0 where
  pub config : FdAdapterConfig
  pub listening : Bool

-- `IPv4Header::PROTO_TCP`.
abbrev proto_tcp : ℕ
proto_tcp = 6

-- The adapter that answers the sender of this segment from now on.
abbrev pub target : Ipv4Header → TcpSegment → FdAdapter → FdAdapter
target ip tcp_seg a = record a {
  config = record a.config {
    source = record { ipv4_numeric = ip.dst; port = a.config.source.port };
    destination = record { ipv4_numeric = ip.src; port = tcp_seg.header.sport };
  };
  listening = false;
}

-- The last check, whether the segment is from the peer.
abbrev pub from_peer : TcpSegment → FdAdapter → Option TcpSegment × FdAdapter
from_peer tcp_seg a =
    if not (tcp_seg.header.sport == a.config.destination.port) then (none, a) else (some tcp_seg, a)

-- From the check of the destination's port on.
unfoldable pub accept : Ipv4Header → TcpSegment → FdAdapter → Option TcpSegment × FdAdapter
accept ip tcp_seg a =
    if not (tcp_seg.header.dport == a.config.source.port)
    then (none, a)
    else if not a.listening
    then from_peer tcp_seg a
    else if tcp_seg.header.syn && not tcp_seg.header.rst
    then from_peer tcp_seg (target ip tcp_seg a)
    else (none, a)

-- What the payload's `parse` comes to.
abbrev pub checked :
    Ipv4Header
    → FdAdapter
    → Option (ParseResult × TcpSegment)
    → Option (Option TcpSegment × FdAdapter)
checked ip a none = none
checked ip a (some (r, tcp_seg)) = some (if failed r then (none, a) else accept ip tcp_seg a)

-- The segment in the payload, if it is one buffer.
abbrev pub segment_in : Ipv4Datagram → Option (ParseResult × TcpSegment)
segment_in d = elim (to_buffer d.payload) [
  | none ↦ none
  | some b ↦ Segment.Wire.parse b (pseudo_cksum d.header) Segment.new
]

-- `none` is an exception.
unfoldable pub unwrap_tcp_in_ip : Ipv4Datagram → FdAdapter → Option (Option TcpSegment × FdAdapter)
unfolding accept
unwrap_tcp_in_ip ip_dgram a =
    if not a.listening && not (ip_dgram.header.dst == a.config.source.ipv4_numeric)
    then some (none, a)
    else if not a.listening && not (ip_dgram.header.src == a.config.destination.ipv4_numeric)
    then some (none, a)
    else if not (ip_dgram.header.proto == proto_tcp)
    then some (none, a)
    else checked ip_dgram.header a (segment_in ip_dgram)

-- The segment with its port numbers set.
abbrev pub with_ports : TcpSegment → FdAdapter → TcpSegment
with_ports seg a = record seg {
  header = record seg.header { sport = a.config.source.port; dport = a.config.destination.port };
}

-- The header for a segment: its length has 16 bits.
abbrev pub header_for : TcpSegment → FdAdapter → Ipv4Header
header_for seg a = record Ipv4.blank {
  src = a.config.source.ipv4_numeric;
  dst = a.config.destination.ipv4_numeric;
  len = (Ipv4.blank.hlen * 4 + seg.header.doff * 4 + Buffer.size seg.payload) % 2 ^ 16;
}

-- The segment, as it is changed, and the datagram.
abbrev pub wrapped : TcpSegment → FdAdapter → Option BufferList → Option (TcpSegment × Ipv4Datagram)
wrapped seg a none = none
wrapped seg a (some l) = some (with_ports seg a, record { header = header_for seg a; payload = l })

unfoldable pub wrap_tcp_in_ip : TcpSegment → FdAdapter → Option (TcpSegment × Ipv4Datagram)
wrap_tcp_in_ip seg a =
    wrapped seg a (Segment.Wire.serialize (with_ports seg a) (pseudo_cksum (header_for seg a)))
