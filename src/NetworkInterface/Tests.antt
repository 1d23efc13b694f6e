-- ===== src/NetworkInterface/Tests.antt =====
-- Runs of libsponge/network_interface.cc on two interfaces.
use cs.Prelude.{◌≡◌, refl, none, some, [], ◌∷◌, ◌++◌, arith}
use cs.BufferList.{BufferList, size, size_from}
use cs.Outcome.{returned}
use cs.Table.{find}
use cs.Ipv4.{Ipv4Datagram}
use cs.Ipv4
use cs.Ethernet.{EthernetFrame, broadcast, type_ipv4}
use cs.Ipv4.HeaderReads.{InWidth}
use cs.Ipv4.RoundTrip.{parse-serialize_datagram}
use cs.NetworkInterface.{NetworkInterface, init, send_datagram, recv_frame, tick}
use cs.NetworkInterface.Aging.{Inv}
use cs.NetworkInterface.Resolution.{frame, HasAddresses, resolution}
use cs.NetworkInterface.Invariant.{ticked, start, Reachable-Inv}

abbrev first_interface : NetworkInterface
first_interface = init (2 ∷ 0 ∷ 0 ∷ 0 ∷ 0 ∷ 1 ∷ []) 167772161

abbrev second_interface : NetworkInterface
second_interface = init (2 ∷ 0 ∷ 0 ∷ 0 ∷ 0 ∷ 2 ∷ []) 167772162

first-HasAddresses : HasAddresses first_interface
first-HasAddresses = record {
  ethernet = record { size = refl; bytes = omega arith };
  ip = omega arith;
}

second-HasAddresses : HasAddresses second_interface
second-HasAddresses = record {
  ethernet = record { size = refl; bytes = omega arith };
  ip = omega arith;
}

-- Without a payload.
abbrev small_datagram : Ipv4Datagram
small_datagram = record Ipv4.new { header = record Ipv4.blank { len = 20 } }

small-InWidth : InWidth small_datagram.header
small-InWidth = record {
  ver = refl;
  hlen_least = omega arith;
  hlen_most = omega arith;
  tos = omega arith;
  len = omega arith;
  id = omega arith;
  offset = omega arith;
  ttl = omega arith;
  proto = omega arith;
  cksum = omega arith;
  src = omega arith;
  dst = omega arith;
}

small_size : size small_datagram.payload ≡ 0
unfolding size size_from
small_size = refl

small_string : BufferList
small_string =
    let (l, _, _, _, _, _) =
      parse-serialize_datagram small_datagram Ipv4.new small-InWidth small_size (omega arith) in
    l

small_serialized : Ipv4.serialize small_datagram ≡ some small_string
unfolding small_string
small_serialized =
    let (_, _, e, _, _, _) =
      parse-serialize_datagram small_datagram Ipv4.new small-InWidth small_size (omega arith) in
    e

nothing_known : find 167772162 first_interface.arp_cache ≡ none
unfolding find
nothing_known = refl

nothing_waits : find 167772162 first_interface.frames_cannot_find_arp ≡ none
unfolding find
nothing_waits = refl

resolution_example :
    (a1 : NetworkInterface) × (b1 : NetworkInterface) × (a2 : NetworkInterface)
    × (question : EthernetFrame) × (answer : EthernetFrame) × (send_datagram small_datagram
          167772162 first_interface
        ≡ returned a1)
    × (a1.frames_out ≡ question ∷ [])
    × (recv_frame question second_interface ≡ returned (none, b1))
    × (b1.frames_out ≡ answer ∷ [])
    × (recv_frame answer a1 ≡ returned (none, a2))
    × (a2.frames_out
        ≡ a1.frames_out
          ++ frame (2 ∷ 0 ∷ 0 ∷ 0 ∷ 0 ∷ 2 ∷ []) (2 ∷ 0 ∷ 0 ∷ 0 ∷ 0 ∷ 1 ∷ []) type_ipv4 small_string
            ∷ [])
resolution_example =
    resolution first_interface second_interface small_datagram small_string first-HasAddresses
      second-HasAddresses nothing_known nothing_waits small_serialized

-- An interface that knows one address.
abbrev knowing : NetworkInterface
knowing = record first_interface {
  arp_cache = (167772162, record { eth_addr = broadcast; ttl = 30000 }) ∷ [];
}

knowing-Inv : Inv knowing
knowing-Inv = record { cache = ((omega arith, omega arith), tt); waiting = tt }

Reachable-Inv_example : Inv (tick 1000 first_interface)
Reachable-Inv_example =
    Reachable-Inv (2 ∷ 0 ∷ 0 ∷ 0 ∷ 0 ∷ 1 ∷ []) 167772161 (tick 1000 first_interface)
      (ticked 1000 start (omega arith))
