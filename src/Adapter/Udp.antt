-- ===== src/Adapter/Udp.antt =====
-- Class `TCPOverUDPSocketAdapter` of libsponge/tcp_helpers/fd_adapter.hh and fd_adapter.cc.
use cs.Prelude.{Bool, false, not, ◌&&◌, Option, none, some, ◌==◌, if◌then◌else◌}
use cs.Outcome.{Outcome, returned, ◌>>=◌, of_option}
use cs.Buffer
use cs.ViewList
use cs.Parser.{ParseResult, failed}
use cs.Segment.{TcpSegment}
use cs.Segment
use cs.Segment.Wire
use cs.TcpOverIp.{Address, FdAdapter, with_ports}
use cs.FileDescriptor.{FileDescriptor}
use cs.UdpSocket.{DatagramCalls, ReceivedDatagram, recv, sendto, default_mtu}
use cs.Adapter.{Adapter}

pub record UdpAdapter : Type 0 where
  pub base : FdAdapter
  pub sock : FileDescriptor

abbrev pub same_address : Address → Address → Bool
same_address a b = (a.ipv4_numeric == b.ipv4_numeric) && (a.port == b.port)

-- The adapter that answers this address from now on.
abbrev pub answering : Address → FdAdapter → FdAdapter
answering source b = record { config = record b.config { destination = source }; listening = false }

-- A segment that was parsed, from `if (listening())` on.
abbrev pub heard : Address → TcpSegment → FdAdapter → Option TcpSegment × FdAdapter
heard source seg b =
    if not b.listening
    then (some seg, b)
    else if seg.header.syn && not seg.header.rst
    then (some seg, answering source b)
    else (none, b)

abbrev pub parsed : Address → FdAdapter → ParseResult × TcpSegment → Option TcpSegment × FdAdapter
parsed source b (r, seg) = if failed r then (none, b) else heard source seg b

-- What a datagram comes to.
unfoldable pub take_datagram :
    ReceivedDatagram → FdAdapter → Outcome (Option TcpSegment × FdAdapter)
take_datagram datagram b =
    if not b.listening && not (same_address datagram.source_address b.config.destination)
    then returned (none, b)
    else of_option (Segment.Wire.parse (Buffer.of_string datagram.payload) 0 Segment.new)
      >>= (λ r. returned (parsed datagram.source_address b r))

module _ {K : Type 0} (calls : DatagramCalls K) where
  unfoldable pub read : UdpAdapter → K → Outcome (Option TcpSegment × UdpAdapter × K)
  unfolding take_datagram
  read a k = recv calls default_mtu a.sock k >>= (λ (datagram, d, k').
      take_datagram datagram a.base
      >>= (λ (seg, b). returned (seg, record { base = b; sock = d }, k')))

  unfoldable pub write : TcpSegment → UdpAdapter → K → Outcome (UdpAdapter × K)
  write seg a k = of_option (Segment.Wire.serialize (with_ports seg a.base) 0) >>= (λ l.
      sendto calls a.base.config.destination (ViewList.of_buffers l) a.sock k
      >>= (λ (d, k'). returned (record a { sock = d }, k')))

  abbrev pub udp_adapter : Adapter UdpAdapter K
  udp_adapter = record {
    fd = λ a. a.sock;
    config = λ a. a.base.config;
    read = read;
    write = write;
    tick = λ ms a k. returned (a, k);
    set_config = λ c a. record a { base = record a.base { config = c } };
    set_listening = λ l a. record a { base = record a.base { listening = l } };
  }
