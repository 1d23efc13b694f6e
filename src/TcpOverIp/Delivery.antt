-- ===== src/TcpOverIp/Delivery.antt =====
-- A segment that one adapter wraps and its peer unwraps (libsponge/tcp_helpers/tcp_over_ip.cc).
use cs.Prelude.{
  ◌^◌, ◌≤◌, ◌<◌, ◌≡◌, refl, sym, ap, ◌∙◌, subst, true, false, some, [], ◌∷◌, length, ◌==◌, arith,
}
use cs.Buffer.{Buffer, str}
use cs.Buffer
use cs.BufferList.{BufferList, concatenate_all}
use cs.BufferList
use cs.BufferList.Laws.{InMemory, concatenate_all_lem, size_lem}
use cs.Parser.{no_error}
use cs.Parser.Laws.{AllBytes}
use cs.Segment.{TcpSegment, TcpHeader}
use cs.Segment
use cs.Segment.Wire as Wire
use cs.Segment.HeaderReads as SegmentReads
use cs.Segment.RoundTrip as SegmentTrip
use cs.Ipv4.{Ipv4Datagram, Ipv4Header, pseudo_cksum, payload_length}
use cs.Ipv4
use cs.Ipv4.HeaderReads as Ipv4Reads
use cs.Ipv4.RoundTrip as Ipv4Trip
use cs.TcpOverIp.{
  FdAdapter, with_ports, header_for, wrapped, FdAdapterConfig, wrap_tcp_in_ip, unwrap_tcp_in_ip,
  accept,
}

-- The widths of what an adapter is configured with.
pub record HasAddresses (a : FdAdapter) : Type 0 where
  pub source_ip : a.config.source.ipv4_numeric < 2 ^ 32
  pub destination_ip : a.config.destination.ipv4_numeric < 2 ^ 32
  pub source_port : a.config.source.port < 2 ^ 16
  pub destination_port : a.config.destination.port < 2 ^ 16

-- An adapter that does not listen.
abbrev pub connected : FdAdapterConfig → FdAdapter
connected config = record { config = config; listening = false }

-- It is configured with the other's addresses.
pub record Peers (a : FdAdapter) (config : FdAdapterConfig) : Type 0 where
  pub here : config.source ≡ a.config.destination
  pub there : config.destination ≡ a.config.source

pseudo_small :
    (h : Ipv4Header) → h.src < 2 ^ 32 → h.dst < 2 ^ 32 → h.proto < 256 → pseudo_cksum h < 2 ^ 19
unfolding pseudo_cksum
pseudo_small h s d p = omega arith

pseudo_same :
    (h g : Ipv4Header) → g ≡ record h { cksum = g.cksum } → pseudo_cksum g ≡ pseudo_cksum h
unfolding pseudo_cksum
pseudo_same h g e = ap pseudo_cksum e

-- A peer takes a segment with its ports from a datagram with its addresses.
accept-peer :
    (h : Ipv4Header) (g : TcpHeader) (p : Buffer) (seg : TcpSegment) (a : FdAdapter)
    (b : FdAdapterConfig)
    → Peers a b
    → g ≡ record (with_ports seg a).header { cksum = g.cksum }
    → accept h (record { header = g; payload = p }) (connected b)
      ≡ (some (record { header = g; payload = p }), connected b)
unfolding accept
accept-peer h g p seg a b peers e =
    let d : (g.dport == b.source.port) ≡ true =
      ground (arith, ap (λ x. x.dport) e, ap (λ x. x.port) peers.here) in
    let s : (g.sport == b.destination.port) ≡ true =
      ground (arith, ap (λ x. x.sport) e, ap (λ x. x.port) peers.there) in
    rw (d, s) refl

unwrap_lem :
    (h : Ipv4Header) (g : TcpHeader) (buffer p : Buffer) (seg : TcpSegment) (a : FdAdapter)
    (b : FdAdapterConfig)
    → Peers a b
    → h ≡ record (header_for seg a) { cksum = h.cksum }
    → g ≡ record (with_ports seg a).header { cksum = g.cksum }
    → Wire.parse buffer (pseudo_cksum h) Segment.new
      ≡ some (no_error, record { header = g; payload = p })
    → unwrap_tcp_in_ip (record { header = h; payload = buffer ∷ [] }) (connected b)
      ≡ some (some (record { header = g; payload = p }), connected b)
unfolding unwrap_tcp_in_ip
unwrap_lem h g buffer p seg a b peers eh eg parsed =
    let d : (h.dst == b.source.ipv4_numeric) ≡ true =
      ground (arith, ap (λ x. x.dst) eh, ap (λ x. x.ipv4_numeric) peers.here) in
    let s : (h.src == b.destination.ipv4_numeric) ≡ true =
      ground (arith, ap (λ x. x.src) eh, ap (λ x. x.ipv4_numeric) peers.there) in
    let tcp : (h.proto == 6) ≡ true = ground (arith, ap (λ x. x.proto) eh) in
    rw (unwrap_tcp_in_ip, d, s, tcp, parsed) (ap some (accept-peer h g p seg a b peers eg))

header_for-InWidth :
    (seg : TcpSegment) (a : FdAdapter) → HasAddresses a → Ipv4Reads.InWidth (header_for seg a)
header_for-InWidth seg a ok = record {
  ver = refl;
  hlen_least = omega arith;
  hlen_most = omega arith;
  tos = omega arith;
  len = omega arith;
  id = omega arith;
  offset = omega arith;
  ttl = omega arith;
  proto = omega arith;
  cksum = omega arith;
  src = ok.source_ip;
  dst = ok.destination_ip;
}

pub with_ports-InWidth :
    (seg : TcpSegment) (a : FdAdapter)
    → HasAddresses a
    → SegmentReads.InWidth seg.header
    → SegmentReads.InWidth (with_ports seg a).header
with_ports-InWidth seg a ok w = record {
  sport = ok.source_port;
  dport = ok.destination_port;
  seqno = w.seqno;
  ackno = w.ackno;
  doff_least = w.doff_least;
  doff_most = w.doff_most;
  win = w.win;
  cksum = w.cksum;
  uptr = w.uptr;
}

-- A segment of an adapter with a payload of at most 65000 bytes is wrapped in a datagram that can be serialized,
-- and from whose bytes, parsed without an error, a connected peer unwraps the same payload and the
-- same header, with the adapter's ports and the checksum; the peer's configuration stays as it is.
pub unwrap_tcp_in_ip-wrap_tcp_in_ip :
    (seg : TcpSegment) (a : FdAdapter) (b : FdAdapterConfig) (old : Ipv4Datagram)
    → HasAddresses a
    → Peers a b
    → SegmentReads.InWidth seg.header
    → InMemory seg.payload
    → AllBytes (str seg.payload)
    → length (str seg.payload) ≤ 65000
    → (d : Ipv4Datagram) × (l : BufferList) × (d' : Ipv4Datagram) × (seg' : TcpSegment)
      × (wrap_tcp_in_ip seg a ≡ some (with_ports seg a, d))
      × (Ipv4.serialize d ≡ some l)
      × (Ipv4.parse (Buffer.of_string (concatenate_all l)) old ≡ some (no_error, d'))
      × (unwrap_tcp_in_ip d' (connected b) ≡ some (some seg', connected b))
      × (seg'.header ≡ record (with_ports seg a).header { cksum = seg'.header.cksum })
      × (str seg'.payload ≡ str seg.payload)
unfolding wrap_tcp_in_ip
unwrap_tcp_in_ip-wrap_tcp_in_ip seg a b old ok peers w m all small =
    let pseudo = pseudo_cksum (header_for seg a) in
    let bound = pseudo_small (header_for seg a) ok.source_ip ok.destination_ip (omega arith) in
    let c =
      SegmentTrip.serialize-Carried (with_ports seg a) pseudo (with_ports-InWidth seg a ok w) m all
        (omega (arith, bound, small)) in
    let d : Ipv4Datagram = record { header = header_for seg a; payload = c.bytes } in
    let size : BufferList.size c.bytes ≡ payload_length (header_for seg a) = omega (
      arith,
      size_lem c.bytes,
      ap length (concatenate_all_lem c.bytes),
      c.size,
      w.doff_most,
      small,
    ) in
    let i =
      Ipv4Trip.serialize-Carried d old (header_for-InWidth seg a ok) size
        (omega (arith, w.doff_most, small)) in
    let (p, read, same) =
      c.parsed Segment.new i.buffer i.in_memory (i.payload ∙ sym (concatenate_all_lem c.bytes)) in
    (
      d,
      i.bytes,
      record { header = i.header; payload = i.buffer ∷ [] },
      record { header = c.header; payload = p },
      ap (wrapped seg a) c.serialized,
      i.serialized,
      i.parsed,
      unwrap_lem i.header c.header i.buffer p seg a b peers i.same c.same (
          subst
            (λ n.
              Wire.parse i.buffer n Segment.new
              ≡ some (no_error, record { header = c.header; payload = p }))
            (sym (pseudo_same (header_for seg a) i.header i.same)) read),
      c.same,
      same,
    )
