-- ===== src/NetworkInterface.antt =====
-- libsponge/network_interface.hh and network_interface.cc. An `Address` is its IPv4 number. A time to
-- live is an `int`, kept as its 32 bits.
pub mod Resolution
pub mod Aging
pub mod Invariant
pub mod Returning
mod Tests
use cs.Prelude.{
  ℕ, ◌+◌, ◌-◌, ◌%◌, ◌^◌, Bool, not, ◌&&◌, ◌||◌, Option, none, some, List, [], ◌∷◌, ◌++◌,
  if◌then◌else◌, ltb, leb, ◌==◌,
}
use cs.BufferList.{BufferList, to_buffer}
use cs.BufferList
use cs.Outcome.{Outcome, returned, undefined, ◌>>=◌, of_option}
use cs.Table.{Table, find, assign, erase}
use cs.Ipv4.{Ipv4Datagram}
use cs.Ipv4
use cs.Ethernet.{EthernetAddress, EthernetFrame, broadcast, same_address, type_arp, type_ipv4}
use cs.Arp.{ArpMessage, opcode_request, opcode_reply}
use cs.Arp

pub record ArpEntry : Type 0 where
  pub eth_addr : EthernetAddress
  pub ttl : ℕ

-- The datagrams that wait for an address, and how long they still do.
pub record Waiting : Type 0 where
  pub dgrams : List Ipv4Datagram
  pub ttl : ℕ

pub record NetworkInterface : Type 0 where
  pub arp_cache : Table ArpEntry
  pub ethernet_address : EthernetAddress
  pub ip_address : ℕ
  pub frames_out : List EthernetFrame
  pub frames_cannot_find_arp : Table Waiting

-- `ARP_CONSTANT`.
abbrev pub arp_pending_ttl : ℕ
arp_pending_ttl = 5000

abbrev pub arp_cache_ttl : ℕ
arp_cache_ttl = 30000

-- The constructor.
abbrev pub init : EthernetAddress → ℕ → NetworkInterface
init ethernet_address ip_address = record {
  arp_cache = [];
  ethernet_address = ethernet_address;
  ip_address = ip_address;
  frames_out = [];
  frames_cannot_find_arp = [];
}

-- `_frames_out.push` of a frame from this interface.
abbrev pub push : EthernetAddress → ℕ → BufferList → NetworkInterface → NetworkInterface
push dst type payload ni = record ni {
  frames_out =
      ni.frames_out
      ++ record {
        header = record { dst = dst; src = ni.ethernet_address; type = type };
        payload = payload;
      }
        ∷ [];
}

-- A datagram in a frame.
abbrev pub push_datagram :
    EthernetAddress → Ipv4Datagram → NetworkInterface → Outcome NetworkInterface
push_datagram dst dgram ni = do
  payload ← of_option (Ipv4.serialize dgram)
  returned (push dst type_ipv4 payload ni)

-- A message in a frame.
abbrev pub push_message : EthernetAddress → ArpMessage → NetworkInterface → Outcome NetworkInterface
push_message dst seg ni = do
  s ← of_option (Arp.serialize seg)
  returned (push dst type_arp (BufferList.of_string s) ni)

abbrev pub request : ℕ → NetworkInterface → ArpMessage
request next_hop_ip ni = record Arp.new {
  opcode = opcode_request;
  sender_ethernet_address = ni.ethernet_address;
  sender_ip_address = ni.ip_address;
  target_ip_address = next_hop_ip;
}

-- The request for an address that nothing waits for yet, and the datagram that waits from now on.
abbrev pub start_waiting : Ipv4Datagram → ℕ → NetworkInterface → Outcome NetworkInterface
start_waiting dgram next_hop_ip ni = do
  ni' ← push_message broadcast (request next_hop_ip ni) ni
  returned (record ni' {
    frames_cannot_find_arp =
        assign next_hop_ip (record { dgrams = dgram ∷ []; ttl = arp_pending_ttl })
          ni'.frames_cannot_find_arp;
  })

unfoldable pub send_datagram : Ipv4Datagram → ℕ → NetworkInterface → Outcome NetworkInterface
send_datagram dgram next_hop_ip ni = elim (find next_hop_ip ni.arp_cache) [
  | some entry ↦ push_datagram entry.eth_addr dgram ni
  | none ↦ elim (find next_hop_ip ni.frames_cannot_find_arp) [
    | none ↦ start_waiting dgram next_hop_ip ni
    | some w ↦ returned (record ni {
      frames_cannot_find_arp =
          assign next_hop_ip (record w { dgrams = w.dgrams ++ dgram ∷ [] })
            ni.frames_cannot_find_arp;
    })
  ]
]

-- The sender's addresses of a message, into the cache.
abbrev pub learn : ArpMessage → NetworkInterface → NetworkInterface
learn seg ni = record ni {
  arp_cache =
      assign seg.sender_ip_address
        (record { eth_addr = seg.sender_ethernet_address; ttl = arp_cache_ttl }) ni.arp_cache;
}

unfoldable pub push_datagrams :
    EthernetAddress → List Ipv4Datagram → NetworkInterface → Outcome NetworkInterface
push_datagrams dst [] ni = returned ni
push_datagrams dst (dgram ∷ dgrams) ni = push_datagram dst dgram ni >>= push_datagrams dst dgrams

-- What waits for the sender of a reply. Where nothing does, the code reads through the end of the
-- map.
abbrev pub flush : ArpMessage → Option Waiting → NetworkInterface → Outcome NetworkInterface
flush seg none ni = undefined
flush seg (some w) ni = do
  ni' ← push_datagrams seg.sender_ethernet_address w.dgrams ni
  returned (record ni' {
    frames_cannot_find_arp = erase seg.sender_ip_address ni'.frames_cannot_find_arp;
  })

abbrev pub reply : ArpMessage → NetworkInterface → ArpMessage
reply seg ni = record Arp.new {
  opcode = opcode_reply;
  sender_ethernet_address = ni.ethernet_address;
  sender_ip_address = ni.ip_address;
  target_ip_address = seg.sender_ip_address;
  target_ethernet_address = seg.sender_ethernet_address;
}

-- The part of `recv_frame` for a message.
unfoldable pub recv_message : ArpMessage → NetworkInterface → Outcome NetworkInterface
recv_message seg ni =
    if not (seg.target_ip_address == ni.ip_address)
    then returned ni
    else if seg.opcode == opcode_reply
    then flush seg (find seg.sender_ip_address ni.frames_cannot_find_arp) (learn seg ni)
    else push_message seg.sender_ethernet_address (reply seg ni) (learn seg ni)

-- A message from a frame's payload. The result of `parse` is not looked at, here and below.
unfoldable pub recv_arp :
    BufferList → NetworkInterface → Outcome (Option Ipv4Datagram × NetworkInterface)
recv_arp payload ni = do
  b ← of_option (to_buffer payload)
  parsed ← of_option (Arp.parse b Arp.new)
  ni' ← recv_message parsed.1 ni
  returned (none, ni')

-- A datagram from a frame's payload.
unfoldable pub recv_ipv4 :
    BufferList → NetworkInterface → Outcome (Option Ipv4Datagram × NetworkInterface)
recv_ipv4 payload ni = do
  b ← of_option (to_buffer payload)
  parsed ← of_option (Ipv4.parse b Ipv4.new)
  returned (some parsed.1, ni)

unfoldable pub recv_frame :
    EthernetFrame → NetworkInterface → Outcome (Option Ipv4Datagram × NetworkInterface)
recv_frame frame ni =
    if not (same_address frame.header.dst broadcast)
      && not (same_address frame.header.dst ni.ethernet_address)
    then returned (none, ni)
    else if frame.header.type == type_arp
    then recv_arp frame.payload ni
    else if frame.header.type == type_ipv4
    then recv_ipv4 frame.payload ni
    else returned (none, ni)

-- `ttl -= ms_since_last_tick`: the unsigned difference, as an `int` again.
abbrev pub aged : ℕ → ℕ → ℕ
aged ms_since_last_tick ttl = (ttl + 2 ^ 32 - ms_since_last_tick % 2 ^ 32) % 2 ^ 32

-- `ttl <= 0`.
abbrev pub expired : ℕ → Bool
expired ttl = (ttl == 0) || leb (2 ^ 31) ttl

-- The loop of `tick` over a map: entries get older, and those that expire are erased.
unfoldable pub age : {V : Type 0} → (V → ℕ) → (ℕ → V → V) → ℕ → Table V → Table V
age ttl with_ttl ms [] = []
age ttl with_ttl ms ((ip, v) ∷ t) =
    let rest = age ttl with_ttl ms t in
    if expired (aged ms (ttl v)) then rest else (ip, with_ttl (aged ms (ttl v)) v) ∷ rest

abbrev pub age_cache : ℕ → Table ArpEntry → Table ArpEntry
age_cache ms t = age (λ e. e.ttl) (λ ttl e. record e { ttl = ttl }) ms t

abbrev pub age_waiting : ℕ → Table Waiting → Table Waiting
age_waiting ms t = age (λ w. w.ttl) (λ ttl w. record w { ttl = ttl }) ms t

unfoldable pub tick : ℕ → NetworkInterface → NetworkInterface
unfolding age
tick ms_since_last_tick ni = record ni {
  arp_cache = age_cache ms_since_last_tick ni.arp_cache;
  frames_cannot_find_arp = age_waiting ms_since_last_tick ni.frames_cannot_find_arp;
}
