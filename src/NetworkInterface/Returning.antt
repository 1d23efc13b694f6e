-- ===== src/NetworkInterface/Returning.antt =====
-- That `send_datagram` (libsponge/network_interface.cc) returns.
use cs.Prelude.{ℕ, ◌≡◌, inl, inr, Option-cases, some}
use cs.BufferList.{BufferList}
use cs.Outcome.{Returns}
use cs.Table.{find}
use cs.Ipv4.{Ipv4Datagram}
use cs.Ipv4
use cs.Arp.{supported}
use cs.Arp
use cs.NetworkInterface.{NetworkInterface, start_waiting, send_datagram}

start_waiting-Returns :
    (d : Ipv4Datagram) (ip : ℕ) (ni : NetworkInterface)
    → Returns (λ _. Unit {0}) (start_waiting d ip ni)
unfolding Arp.serialize supported
start_waiting-Returns d ip ni = tt

-- A datagram that can be serialized is sent, or waits.
pub send_datagram-Returns :
    (d : Ipv4Datagram) (l : BufferList) (ip : ℕ) (ni : NetworkInterface)
    → Ipv4.serialize d ≡ some l
    → Returns (λ _. Unit {0}) (send_datagram d ip ni)
unfolding send_datagram
send_datagram-Returns d l ip ni e = elim (Option-cases (find ip ni.arp_cache)) [
  | inr (entry, known) ↦ rw (Returns, send_datagram, known, e) tt
  | inl unknown ↦ elim (Option-cases (find ip ni.frames_cannot_find_arp)) [
    | inl nothing ↦ rw (Returns, send_datagram, unknown, nothing) (start_waiting-Returns d ip ni)
    | inr (w, some_wait) ↦ rw (Returns, send_datagram, unknown, some_wait) tt
  ]
]
