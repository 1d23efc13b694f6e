-- ===== src/Adapter/Delivery.antt =====
-- A segment that one UDP adapter sends and another takes (libsponge/tcp_helpers/fd_adapter.cc), and
-- an adapter that loses nothing (lossy_fd_adapter.hh).
use cs.Prelude.{
  ℕ, ◌≤◌, ◌≡◌, refl, ap, true, not, ◌&&◌, Option, none, some, length, ◌==◌, arith, if◌then◌else◌,
}
use cs.Outcome.{returned, ◌>>=◌}
use cs.Buffer.{str}
use cs.Buffer
use cs.BufferList.{BufferList, concatenate_all}
use cs.BufferList.Laws.{InMemory}
use cs.Parser.Laws.{AllBytes}
use cs.Segment.{TcpSegment}
use cs.Segment
use cs.Segment.Wire as Wire
use cs.Segment.HeaderReads as SegmentReads
use cs.Segment.RoundTrip as SegmentTrip
use cs.TcpOverIp.{Address, FdAdapter, FdAdapterConfig, with_ports}
use cs.TcpOverIp.Delivery.{HasAddresses, Peers, connected, with_ports-InWidth}
use cs.UdpSocket.{ReceivedDatagram}
use cs.Adapter.{Adapter}
use cs.Adapter.Udp.{take_datagram, same_address, answering}
use cs.Adapter.Lossy.{LossyFdAdapter, should_drop, read, write}

same_address_lem : (x y : Address) → y ≡ x → same_address x y ≡ true
same_address_lem x y e =
    let ip : (x.ipv4_numeric == y.ipv4_numeric) ≡ true =
      ground (arith, ap (λ z. z.ipv4_numeric) e) in
    let port : (x.port == y.port) ≡ true = ground (arith, ap (λ z. z.port) e) in rw (ip, port) refl

-- The datagram that carries these bytes from an adapter.
abbrev pub datagram_from : FdAdapter → BufferList → ReceivedDatagram
datagram_from a l = record { source_address = a.config.source; payload = concatenate_all l }

-- What a segment that arrives whole comes to, for its peer and for an adapter that listens.
pub record Arrives (seg : TcpSegment) (a : FdAdapter) (b c : FdAdapterConfig) (l : BufferList)
    (seg' : TcpSegment) : Type 0 where
  pub serialized : Wire.serialize (with_ports seg a) 0 ≡ some l
  pub header : seg'.header ≡ record (with_ports seg a).header { cksum = seg'.header.cksum }
  pub payload : str seg'.payload ≡ str seg.payload
  pub by_peer : take_datagram (datagram_from a l) (connected b) ≡ returned (some seg', connected b)
  pub by_listener :
      take_datagram (datagram_from a l) (record { config = c; listening = true })
      ≡ returned (
          if seg.header.syn && not seg.header.rst
          then (some seg', answering a.config.source (record { config = c; listening = true }))
          else (none, record { config = c; listening = true }))

-- A segment with a payload of at most 65000 bytes that a UDP adapter serializes, and whose bytes come
-- in one datagram: a peer takes the same payload and the same header, with the adapter's ports and
-- the checksum, and keeps its configuration; an adapter that listens takes it where it is a SYN
-- without a reset, and answers the adapter's address from then on, and no other segment.
pub take_datagram-Arrives :
    (seg : TcpSegment) (a : FdAdapter) (b c : FdAdapterConfig)
    → HasAddresses a
    → Peers a b
    → SegmentReads.InWidth seg.header
    → InMemory seg.payload
    → AllBytes (str seg.payload)
    → length (str seg.payload) ≤ 65000
    → (l : BufferList) × (seg' : TcpSegment) × Arrives seg a b c l seg'
unfolding take_datagram
take_datagram-Arrives seg a b c ok peers w m all small =
    let t =
      SegmentTrip.serialize-Carried (with_ports seg a) 0 (with_ports-InWidth seg a ok w) m all
        (omega (arith, small)) in
    let (p, parsed, same) =
      t.parsed Segment.new (Buffer.of_string (concatenate_all t.bytes))
        (omega arith, omega (arith, t.size, w.doff_most, small)) refl in
    let from : same_address a.config.source b.destination ≡ true =
      same_address_lem a.config.source b.destination peers.there in
    let seg' : TcpSegment = record { header = t.header; payload = p } in
    let syn : seg'.header.syn ≡ seg.header.syn = ap (λ h. h.syn) t.same in
    let rst : seg'.header.rst ≡ seg.header.rst = ap (λ h. h.rst) t.same in
    (
      t.bytes,
      seg',
      record {
        serialized = t.serialized;
        header = t.same;
        payload = same;
        by_peer = rw (take_datagram, from, parsed) refl;
        by_listener = rw (take_datagram, parsed, syn, rst) refl;
      },
    )

module _ {A G K : Type 0} (random : G → ℕ × G) (inner : Adapter A K) where
  -- With loss rates of 0 an adapter is as if it were not wrapped: a read that leaves the rate for
  -- reads at 0 gives what the inner adapter's gives, and a write with a rate of 0 does what the inner
  -- adapter's does, and no random number is drawn.
  pub lossless :
      (a : LossyFdAdapter A G) (seg : TcpSegment) (k k' : K) (got : Option TcpSegment) (b : A)
      → (inner.config a.adapter).loss_rate_up ≡ 0
      → inner.read a.adapter k ≡ returned (got, b, k')
      → (inner.config b).loss_rate_dn ≡ 0
      → (read random inner a k ≡ returned (got, record a { adapter = b }, k'))
        × (write random inner seg a k ≡ (
            inner.write seg a.adapter k >>= (λ (x, k''). returned (record a { adapter = x }, k''))))
  unfolding read write should_drop
  lossless a seg k k' got b up e dn = (rw (read, e, dn) refl, rw (write, up) refl)
