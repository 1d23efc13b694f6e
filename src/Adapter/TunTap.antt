-- ===== src/Adapter/TunTap.antt =====
-- Classes `TCPOverIPv4OverTunFdAdapter` and `TCPOverIPv4OverEthernetAdapter` of
-- libsponge/tcp_helpers/tuntap_adapter.hh and tuntap_adapter.cc, on a TUN or TAP descriptor.
use cs.Prelude.{ℕ, ◌-◌, ◌^◌, true, Option, none, some, List, [], ◌∷◌, if◌then◌else◌}
use cs.Outcome.{Outcome, returned, ◌>>=◌, of_option}
use cs.Buffer
use cs.BufferList.{BufferList}
use cs.ViewList
use cs.Parser.{ParseResult, failed}
use cs.Segment.{TcpSegment}
use cs.Ipv4.{Ipv4Datagram}
use cs.Ipv4
use cs.Ethernet.{EthernetFrame, EthernetAddress}
use cs.Ethernet
use cs.NetworkInterface.{NetworkInterface, send_datagram, recv_frame}
use cs.NetworkInterface
use cs.TcpOverIp.{FdAdapter, wrap_tcp_in_ip, unwrap_tcp_in_ip}
use cs.FileDescriptor.{SystemCalls, FileDescriptor}
use cs.FileDescriptor
use cs.Adapter.{Adapter}

pub record TunAdapter : Type 0 where
  pub base : FdAdapter
  pub tun : FileDescriptor

pub record EthernetAdapter : Type 0 where
  pub base : FdAdapter
  pub tap : FileDescriptor
  pub interface : NetworkInterface
  pub next_hop : ℕ

-- The default limit of `FileDescriptor::read`.
abbrev pub no_limit : ℕ
no_limit = 2 ^ 64 - 1

module _ {K : Type 0} (os : SystemCalls K) where
  -- `FileDescriptor::write` of all that a list of buffers holds.
  abbrev pub write_all : BufferList → FileDescriptor → K → Outcome (FileDescriptor × K)
  write_all l d k =
      FileDescriptor.write os (ViewList.of_buffers l) true d k
      >>= (λ (n, d', k'). returned (d', k'))

  -- A datagram read from the device, where it could be parsed.
  abbrev pub unwrapped :
      ParseResult × Ipv4Datagram → FdAdapter → Outcome (Option TcpSegment × FdAdapter)
  unwrapped (r, d) b = if failed r then returned (none, b) else of_option (unwrap_tcp_in_ip d b)

  unfoldable pub tun_read : TunAdapter → K → Outcome (Option TcpSegment × TunAdapter × K)
  tun_read a k = FileDescriptor.read os no_limit a.tun k >>= (λ (bytes, d, k').
      of_option (Ipv4.parse (Buffer.of_string bytes) Ipv4.new) >>= (λ r.
        unwrapped r a.base >>= (λ (seg, b). returned (seg, record { base = b; tun = d }, k'))))

  unfoldable pub tun_write : TcpSegment → TunAdapter → K → Outcome (TunAdapter × K)
  tun_write seg a k = of_option (wrap_tcp_in_ip seg a.base) >>= (λ (seg', datagram).
      of_option (Ipv4.serialize datagram)
      >>= (λ l. write_all l a.tun k >>= (λ (d, k'). returned (record a { tun = d }, k'))))

  -- `send_pending`, for the queue as it stands.
  unfoldable pub send_pending_from :
      List EthernetFrame → EthernetAdapter → K → Outcome (EthernetAdapter × K)
  send_pending_from [] a k = returned (a, k)
  send_pending_from (f ∷ fs) a k = write_all (Ethernet.serialize f) a.tap k >>= (λ (d, k').
      send_pending_from fs
        (record a { tap = d; interface = record a.interface { frames_out = fs } }) k')

  abbrev pub send_pending : EthernetAdapter → K → Outcome (EthernetAdapter × K)
  send_pending a k = send_pending_from a.interface.frames_out a k

  -- What `recv_frame` gave, once the pending frames are sent.
  abbrev pub unwrap_received :
      Option Ipv4Datagram → EthernetAdapter × K → Outcome (Option TcpSegment × EthernetAdapter × K)
  unwrap_received none (a, k) = returned (none, a, k)
  unwrap_received (some d) (a, k) =
      of_option (unwrap_tcp_in_ip d a.base)
      >>= (λ (seg, b). returned (seg, record a { base = b }, k))

  abbrev pub take_frame :
      ParseResult × EthernetFrame
      → EthernetAdapter
      → K
      → Outcome (Option TcpSegment × EthernetAdapter × K)
  take_frame (r, frame) a k =
      if failed r
      then returned (none, a, k)
      else recv_frame frame a.interface >>= (λ (ip_dgram, ni).
        send_pending (record a { interface = ni }) k >>= unwrap_received ip_dgram)

  unfoldable pub ethernet_read :
      EthernetAdapter → K → Outcome (Option TcpSegment × EthernetAdapter × K)
  unfolding send_pending_from
  ethernet_read a k = FileDescriptor.read os no_limit a.tap k >>= (λ (bytes, d, k').
      of_option (Ethernet.parse (Buffer.of_string bytes) Ethernet.new)
      >>= (λ r. take_frame r (record a { tap = d }) k'))

  unfoldable pub ethernet_tick : ℕ → EthernetAdapter → K → Outcome (EthernetAdapter × K)
  unfolding send_pending_from
  ethernet_tick ms_since_last_tick a k =
      send_pending (record a { interface = NetworkInterface.tick ms_since_last_tick a.interface }) k

  unfoldable pub ethernet_write : TcpSegment → EthernetAdapter → K → Outcome (EthernetAdapter × K)
  unfolding send_pending_from
  ethernet_write seg a k = of_option (wrap_tcp_in_ip seg a.base) >>= (λ (seg', datagram).
      send_datagram datagram a.next_hop a.interface
      >>= (λ ni. send_pending (record a { interface = ni }) k))

  -- The constructor: an empty frame is written to the device.
  unfoldable pub new_ethernet :
      FileDescriptor → EthernetAddress → ℕ → ℕ → FdAdapter → K → Outcome (EthernetAdapter × K)
  new_ethernet tap eth_address ip_address next_hop base k =
      write_all (Ethernet.serialize Ethernet.new) tap k >>= (λ (d, k'). returned (
        record {
          base = base;
          tap = d;
          interface = NetworkInterface.init eth_address ip_address;
          next_hop = next_hop;
        },
        k',
      ))

  abbrev pub tun_adapter : Adapter TunAdapter K
  tun_adapter = record {
    fd = λ a. a.tun;
    config = λ a. a.base.config;
    read = tun_read;
    write = tun_write;
    tick = λ ms a k. returned (a, k);
    set_config = λ c a. record a { base = record a.base { config = c } };
    set_listening = λ l a. record a { base = record a.base { listening = l } };
  }

  abbrev pub ethernet_adapter : Adapter EthernetAdapter K
  ethernet_adapter = record {
    fd = λ a. a.tap;
    config = λ a. a.base.config;
    read = ethernet_read;
    write = ethernet_write;
    tick = ethernet_tick;
    set_config = λ c a. record a { base = record a.base { config = c } };
    set_listening = λ l a. record a { base = record a.base { listening = l } };
  }
