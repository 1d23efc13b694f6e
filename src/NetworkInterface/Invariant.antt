-- ===== src/NetworkInterface/Invariant.antt =====
-- The invariant of libsponge/network_interface.cc: times to live that have not run out, and queues
-- of waiting datagrams that are not empty.
use cs.Prelude.{
  ℕ, ◌<◌, ◌^◌, ◌≡◌, subst, inl, inr, Bool-cases, Option, Option-cases, none, some, List, [], ◌∷◌,
  length-append, ◌==◌, not, ◌&&◌, arith,
}
use cs.BufferList.{BufferList, to_buffer}
use cs.Outcome.{returned, Holds, Holds-then, Holds-of_option}
use cs.Table.{Table, find, AllValues, Maybe, AllValues-find, AllValues-assign, AllValues-erase}
use cs.Ipv4.{Ipv4Datagram}
use cs.Ipv4
use cs.Ethernet.{EthernetAddress, EthernetFrame, same_address, broadcast, type_arp, type_ipv4}
use cs.Arp.{ArpMessage, opcode_reply}
use cs.Arp
use cs.NetworkInterface.{
  NetworkInterface, Waiting, init, tick, push, push_datagram, push_datagrams, push_message, request,
  reply, learn, flush, start_waiting, send_datagram, recv_message, recv_arp, recv_ipv4, recv_frame,
}
use cs.NetworkInterface.Aging.{Inv, EntryInv, WaitingInv, tick-Inv}

push-Inv :
    (dst : EthernetAddress) (type : ℕ) (payload : BufferList) (ni : NetworkInterface)
    → Inv ni
    → Inv (push dst type payload ni)
push-Inv dst type payload ni inv = record { cache = inv.cache; waiting = inv.waiting }

push_datagram-Inv :
    (dst : EthernetAddress) (d : Ipv4Datagram) (ni : NetworkInterface)
    → Inv ni
    → Holds Inv (push_datagram dst d ni)
push_datagram-Inv dst d ni inv =
    Holds-of_option Inv (Ipv4.serialize d) _ (λ payload. push-Inv dst type_ipv4 payload ni inv)

push_datagrams-Inv :
    (dst : EthernetAddress) (ds : List Ipv4Datagram) (ni : NetworkInterface)
    → Inv ni
    → Holds Inv (push_datagrams dst ds ni)
unfolding push_datagrams
push_datagrams-Inv dst [] ni inv = inv
push_datagrams-Inv dst (d ∷ ds) ni inv =
    Holds-then Inv Inv (push_datagram dst d ni) (push_datagrams dst ds)
      (push_datagram-Inv dst d ni inv) (λ ni' inv'. push_datagrams-Inv dst ds ni' inv')

waiting-Inv :
    (ni : NetworkInterface) (t : Table Waiting)
    → Inv ni
    → AllValues WaitingInv t
    → Inv (record ni { frames_cannot_find_arp = t })
waiting-Inv ni t inv all = record { cache = inv.cache; waiting = all }

start_waiting-Inv :
    (d : Ipv4Datagram) (ip : ℕ) (ni : NetworkInterface) → Inv ni → Holds Inv (start_waiting d ip ni)
start_waiting-Inv d ip ni inv =
    Holds-then Inv Inv (push_message broadcast (request ip ni) ni) _
      (Holds-of_option Inv (Arp.serialize (request ip ni)) _
        (λ s. push-Inv broadcast type_arp _ ni inv))
      (λ ni' inv'. waiting-Inv ni' _ inv' (
        AllValues-assign WaitingInv ip _ ni'.frames_cannot_find_arp
          (omega arith, omega arith, omega arith) inv'.waiting))

-- Sending keeps the invariant, where no exception is thrown.
pub send_datagram-Inv :
    (d : Ipv4Datagram) (ip : ℕ) (ni : NetworkInterface) → Inv ni → Holds Inv (send_datagram d ip ni)
unfolding send_datagram
send_datagram-Inv d ip ni inv = elim (Option-cases (find ip ni.arp_cache)) [
  | inr (entry, e) ↦ rw (Holds, send_datagram, e) (push_datagram-Inv entry.eth_addr d ni inv)
  | inl unknown ↦ elim (Option-cases (find ip ni.frames_cannot_find_arp)) [
    | inl nothing ↦ rw (Holds, send_datagram, unknown, nothing) (start_waiting-Inv d ip ni inv)
    | inr (w, e) ↦
        let old : WaitingInv w =
          subst (Maybe WaitingInv) e
            (AllValues-find WaitingInv ip ni.frames_cannot_find_arp inv.waiting) in
        rw (Holds, send_datagram, unknown, e)
          (waiting-Inv ni _ inv (
            AllValues-assign WaitingInv ip _ ni.frames_cannot_find_arp
              (old.0, old.1, omega (arith, old.2, length-append w.dgrams (d ∷ []))) inv.waiting))
  ]
]

learn-Inv : (m : ArpMessage) (ni : NetworkInterface) → Inv ni → Inv (learn m ni)
learn-Inv m ni inv = record {
  cache =
      AllValues-assign EntryInv m.sender_ip_address _ ni.arp_cache (omega arith, omega arith)
        inv.cache;
  waiting = inv.waiting;
}

flush-Inv :
    (m : ArpMessage) (w : Option Waiting) (ni : NetworkInterface)
    → Inv ni
    → Holds Inv (flush m w ni)
flush-Inv m none ni inv = tt
flush-Inv m (some w) ni inv =
    Holds-then Inv Inv (push_datagrams m.sender_ethernet_address w.dgrams ni) _
      (push_datagrams-Inv m.sender_ethernet_address w.dgrams ni inv)
      (λ ni' inv'.
        waiting-Inv ni' _ inv'
          (AllValues-erase WaitingInv m.sender_ip_address ni'.frames_cannot_find_arp inv'.waiting))

recv_message-Inv : (m : ArpMessage) (ni : NetworkInterface) → Inv ni → Holds Inv (recv_message m ni)
unfolding recv_message
recv_message-Inv m ni inv = elim (Bool-cases (m.target_ip_address == ni.ip_address)) [
  | inr other ↦ rw (Holds, recv_message, other) inv
  | inl mine ↦ elim (Bool-cases (m.opcode == opcode_reply)) [
    | inl r ↦ rw (Holds, recv_message, mine, r) (flush-Inv m _ (learn m ni) (learn-Inv m ni inv))
    | inr q ↦
        rw (Holds, recv_message, mine, q)
          (Holds-of_option Inv (Arp.serialize (reply m ni)) _
            (λ s. push-Inv m.sender_ethernet_address type_arp _ (learn m ni) (learn-Inv m ni inv)))
  ]
]

recv_frame-Inv :
    (f : EthernetFrame) (ni : NetworkInterface) → Inv ni → Holds (λ r. Inv r.1) (recv_frame f ni)
unfolding recv_frame recv_arp recv_ipv4
recv_frame-Inv f ni inv =
    elim (Bool-cases (
      not (same_address f.header.dst broadcast)
      && not (same_address f.header.dst ni.ethernet_address))) [
        | inl other ↦ rw (Holds, recv_frame, other) inv
        | inr mine ↦ elim (Bool-cases (f.header.type == type_arp)) [
          | inl arp ↦
              rw (Holds, recv_frame, mine, arp)
                (Holds-of_option (λ r. Inv r.1) (to_buffer f.payload) _
                  λ b.
                    Holds-of_option (λ r. Inv r.1) (Arp.parse b Arp.new) _
                      λ parsed.
                        Holds-then Inv (λ r. Inv r.1) (recv_message parsed.1 ni) _
                          (recv_message-Inv parsed.1 ni inv) λ ni' inv'. inv')
          | inr no_arp ↦ elim (Bool-cases (f.header.type == type_ipv4)) [
            | inl ipv4 ↦
                rw (Holds, recv_frame, mine, no_arp, ipv4)
                  (Holds-of_option (λ r. Inv r.1) (to_buffer f.payload) _
                    λ b. Holds-of_option (λ r. Inv r.1) (Ipv4.parse b Ipv4.new) _ λ parsed. inv)
            | inr no_ipv4 ↦ rw (Holds, recv_frame, mine, no_arp, no_ipv4) inv
          ]
        ]
      ]

-- The states of an interface that is used: calls that return, and its owner, which takes frames out of
-- its queue.
pub data Reachable (ethernet_address : EthernetAddress) (ip_address : ℕ)
    : NetworkInterface → Type 0 where
  start : Reachable ethernet_address ip_address (init ethernet_address ip_address)
  sent :
      {ni ni' : NetworkInterface} (d : Ipv4Datagram) (ip : ℕ)
      → Reachable ethernet_address ip_address ni
      → send_datagram d ip ni ≡ returned ni'
      → Reachable ethernet_address ip_address ni'
  received :
      {ni ni' : NetworkInterface} (f : EthernetFrame) (d : Option Ipv4Datagram)
      → Reachable ethernet_address ip_address ni
      → recv_frame f ni ≡ returned (d, ni')
      → Reachable ethernet_address ip_address ni'
  ticked :
      {ni : NetworkInterface} (ms : ℕ)
      → Reachable ethernet_address ip_address ni
      → ms < 2 ^ 31
      → Reachable ethernet_address ip_address (tick ms ni)
  taken :
      {ni : NetworkInterface} (fs : List EthernetFrame)
      → Reachable ethernet_address ip_address ni
      → Reachable ethernet_address ip_address (record ni { frames_out = fs })

-- In each state that calls which return lead to, with ticks that fit an `int`: no time to live in the
-- cache or of waiting datagrams has run out or is above the one it starts with, and no queue of
-- waiting datagrams is empty.
pub Reachable-Inv :
    (ethernet_address : EthernetAddress) (ip_address : ℕ) (ni : NetworkInterface)
    → Reachable ethernet_address ip_address ni
    → Inv ni
Reachable-Inv e i _ start = record { cache = tt; waiting = tt }
Reachable-Inv e i _ (sent {ni} d ip r eq) =
    subst (Holds Inv) eq (send_datagram-Inv d ip ni (Reachable-Inv e i ni r))
Reachable-Inv e i _ (received {ni} f d r eq) =
    subst (Holds (λ r. Inv r.1)) eq (recv_frame-Inv f ni (Reachable-Inv e i ni r))
Reachable-Inv e i _ (ticked {ni} ms r h) = tick-Inv ms ni h (Reachable-Inv e i ni r)
Reachable-Inv e i _ (taken {ni} fs r) =
    let inv = Reachable-Inv e i ni r in record { cache = inv.cache; waiting = inv.waiting }
