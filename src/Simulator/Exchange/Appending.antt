-- ===== src/Simulator/Exchange/Appending.antt =====
-- An interface that receives a frame only adds to its queue of frames (libsponge/network_interface.cc),
-- so that an exchange of apps/network_simulator.cc leaves what was queued while it went on.
use cs.Prelude.{
  ℕ, ◌≡◌, refl, sym, ap, ◌∙◌, not, ◌&&◌, Option, none, some, List, [], ◌∷◌, ◌++◌, append-nil,
  append_assoc, ◌==◌, inl, inr, Bool-cases,
}
use cs.Outcome.{Holds, Holds-then, Holds-weaken, Holds-of_option}
use cs.Table.{find}
use cs.BufferList.{BufferList, to_buffer}
use cs.Ipv4.{Ipv4Datagram}
use cs.Ipv4
use cs.Ethernet.{EthernetAddress, EthernetFrame, same_address, broadcast, type_arp, type_ipv4}
use cs.Arp.{ArpMessage, opcode_reply}
use cs.Arp
use cs.NetworkInterface.{
  NetworkInterface, Waiting, push, push_datagram, push_datagrams, push_message, reply, learn, flush,
  recv_message, recv_arp, recv_ipv4,
}
use cs.NetworkInterface

-- The second list is the first with more at its end.
pub record Extends (fs gs : List EthernetFrame) : Type 0 where
  pub new : List EthernetFrame
  pub more : gs ≡ fs ++ new

pub Extends-same : (fs : List EthernetFrame) → Extends fs fs
Extends-same fs = record { new = []; more = sym (append-nil fs) }

pub Extends-then : (fs gs hs : List EthernetFrame) → Extends fs gs → Extends gs hs → Extends fs hs
Extends-then fs gs hs a b = record {
  new = a.new ++ b.new;
  more = b.more ∙ ap (λ x. x ++ b.new) a.more ∙ append_assoc fs a.new b.new;
}

abbrev pub Grown : NetworkInterface → NetworkInterface → Type 0
Grown ni ni' = Extends ni.frames_out ni'.frames_out

push-Grown :
    (dst : EthernetAddress) (type : ℕ) (payload : BufferList) (ni : NetworkInterface)
    → Grown ni (push dst type payload ni)
push-Grown dst type payload ni = record { new = _; more = refl }

push_datagram-Grown :
    (dst : EthernetAddress) (d : Ipv4Datagram) (ni : NetworkInterface)
    → Holds (Grown ni) (push_datagram dst d ni)
push_datagram-Grown dst d ni =
    Holds-of_option (Grown ni) (Ipv4.serialize d) _ (λ payload. push-Grown dst type_ipv4 payload ni)

push_message-Grown :
    (dst : EthernetAddress) (m : ArpMessage) (ni : NetworkInterface)
    → Holds (Grown ni) (push_message dst m ni)
push_message-Grown dst m ni =
    Holds-of_option (Grown ni) (Arp.serialize m) _ (λ s. push-Grown dst type_arp _ ni)

push_datagrams-Grown :
    (dst : EthernetAddress) (ds : List Ipv4Datagram) (ni : NetworkInterface)
    → Holds (Grown ni) (push_datagrams dst ds ni)
unfolding push_datagrams
push_datagrams-Grown dst [] ni = Extends-same ni.frames_out
push_datagrams-Grown dst (d ∷ ds) ni =
    Holds-then (Grown ni) (Grown ni) (push_datagram dst d ni) (push_datagrams dst ds)
      (push_datagram-Grown dst d ni)
      (λ ni' g.
        Holds-weaken (Grown ni') (Grown ni) (push_datagrams dst ds ni')
          (λ ni'' g'. Extends-then ni.frames_out ni'.frames_out ni''.frames_out g g')
          (push_datagrams-Grown dst ds ni'))

flush-Grown :
    (m : ArpMessage) (w : Option Waiting) (ni : NetworkInterface) → Holds (Grown ni) (flush m w ni)
flush-Grown m none ni = tt
flush-Grown m (some w) ni =
    Holds-then (Grown ni) (Grown ni) (push_datagrams m.sender_ethernet_address w.dgrams ni) _
      (push_datagrams-Grown m.sender_ethernet_address w.dgrams ni)
      (λ ni' g. record { new = g.new; more = g.more })

recv_message-Grown : (m : ArpMessage) (ni : NetworkInterface) → Holds (Grown ni) (recv_message m ni)
unfolding recv_message
recv_message-Grown m ni = elim (Bool-cases (not (m.target_ip_address == ni.ip_address))) [
  | inl other ↦ rw other (Extends-same ni.frames_out)
  | inr here ↦ rw here (elim (Bool-cases (m.opcode == opcode_reply)) [
    | inl answer ↦
        rw answer (flush-Grown m (find m.sender_ip_address ni.frames_cannot_find_arp) (learn m ni))
    | inr question ↦
        rw question (push_message-Grown m.sender_ethernet_address (reply m ni) (learn m ni))
  ])
]

abbrev pub GrownAfter : NetworkInterface → Option Ipv4Datagram × NetworkInterface → Type 0
GrownAfter ni r = Grown ni r.1

recv_arp-Grown :
    (payload : BufferList) (ni : NetworkInterface) → Holds (GrownAfter ni) (recv_arp payload ni)
unfolding recv_arp
recv_arp-Grown payload ni = Holds-of_option (GrownAfter ni) (to_buffer payload) _ (λ b.
    Holds-of_option (GrownAfter ni) (Arp.parse b Arp.new) _ (λ r.
      Holds-then (Grown ni) (GrownAfter ni) (recv_message r.1 ni) _ (recv_message-Grown r.1 ni)
        (λ ni' g. g)))

recv_ipv4-Grown :
    (payload : BufferList) (ni : NetworkInterface) → Holds (GrownAfter ni) (recv_ipv4 payload ni)
unfolding recv_ipv4
recv_ipv4-Grown payload ni = Holds-of_option (GrownAfter ni) (to_buffer payload) _ (λ b.
    Holds-of_option (GrownAfter ni) (Ipv4.parse b Ipv4.new) _ (λ r. Extends-same ni.frames_out))

pub interface_recv_frame-Grown :
    (f : EthernetFrame) (ni : NetworkInterface)
    → Holds (GrownAfter ni) (NetworkInterface.recv_frame f ni)
unfolding NetworkInterface.recv_frame
interface_recv_frame-Grown f ni =
    elim (Bool-cases (
      not (same_address f.header.dst broadcast)
      && not (same_address f.header.dst ni.ethernet_address))) [
        | inl other ↦ rw other (Extends-same ni.frames_out)
        | inr ours ↦ rw ours (elim (Bool-cases (f.header.type == type_arp)) [
          | inl arp ↦ rw arp (recv_arp-Grown f.payload ni)
          | inr no_arp ↦ rw no_arp (elim (Bool-cases (f.header.type == type_ipv4)) [
            | inl ipv4 ↦ rw ipv4 (recv_ipv4-Grown f.payload ni)
            | inr neither ↦ rw neither (Extends-same ni.frames_out)
          ])
        ])
      ]
