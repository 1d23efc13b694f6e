-- ===== src/NetworkInterface/Resolution.antt =====
-- How libsponge/network_interface.cc learns an address and sends what waits for it.
use cs.Prelude.{
  ℕ, ◌<◌, ◌^◌, ◌≡◌, refl, sym, ap, ◌∙◌, true, inl, inr, ◌⊎◌, Bool-cases, none, some, List, [], ◌∷◌,
  ◌++◌, map, append_assoc, append-nil, ◌==◌, arith,
}
use cs.Buffer
use cs.BufferList.{BufferList}
use cs.BufferList
use cs.Outcome.{returned, ◌>>=◌}
use cs.Table.{find, assign, erase, find-assign, find-erase}
use cs.Parser.{no_error}
use cs.Ipv4.{Ipv4Datagram}
use cs.Ipv4
use cs.Ethernet.{EthernetAddress, EthernetFrame, broadcast, same_address, type_arp, type_ipv4}
use cs.Ethernet.Laws.{IsAddress}
use cs.Arp.{ArpMessage, supported, opcode_request, opcode_reply}
use cs.Arp
use cs.Arp.Laws.{InWidth, parse-serialize_message}
use cs.NetworkInterface.{
  NetworkInterface, Waiting, push, push_datagrams, request, reply, learn, send_datagram,
  recv_message, recv_arp, recv_frame, arp_cache_ttl,
}

-- A frame with these addresses.
abbrev pub frame : EthernetAddress → EthernetAddress → ℕ → BufferList → EthernetFrame
frame dst src type payload = record {
  header = record { dst = dst; src = src; type = type };
  payload = payload;
}

-- Each datagram can be serialized, to these strings.
pub data AllSerialize : List Ipv4Datagram → List BufferList → Type 0 where
  none_left : AllSerialize [] []
  one_more :
      {d : Ipv4Datagram} {l : BufferList} {ds : List Ipv4Datagram} {ls : List BufferList}
      → Ipv4.serialize d ≡ some l
      → AllSerialize ds ls
      → AllSerialize (d ∷ ds) (l ∷ ls)

same_address_refl : (a : EthernetAddress) → same_address a a ≡ true
same_address_refl [] = refl
same_address_refl (x ∷ a) = ground (arith, same_address_refl a)

-- The interface with frames added to its queue.
abbrev with_frames : NetworkInterface → List EthernetFrame → NetworkInterface
with_frames ni fs = record ni { frames_out = ni.frames_out ++ fs }

abbrev datagram_frames : EthernetAddress → EthernetAddress → List BufferList → List EthernetFrame
datagram_frames dst src ls = map (frame dst src type_ipv4) ls

push_datagrams_lem :
    (dst : EthernetAddress) (ds : List Ipv4Datagram) (ls : List BufferList) (ni : NetworkInterface)
    → AllSerialize ds ls
    → push_datagrams dst ds ni
      ≡ returned (with_frames ni (datagram_frames dst ni.ethernet_address ls))
unfolding push_datagrams
push_datagrams_lem dst _ _ ni none_left =
    ap (λ fs. returned (record ni { frames_out = fs })) (sym (append-nil ni.frames_out))
push_datagrams_lem dst _ _ ni (one_more {d} {l} {ds} {ls} e es) = rw e (
    push_datagrams_lem dst ds ls (push dst type_ipv4 l ni) es
    ∙ ap (λ fs. returned (record ni { frames_out = fs })) (append_assoc ni.frames_out _ _))

-- A frame with a message, for this interface or for all.
recv_frame-message :
    (m : ArpMessage) (s : List ℕ) (dst src : EthernetAddress) (ni : NetworkInterface)
    → Arp.parse (Buffer.of_string s) Arp.new ≡ some (no_error, m)
    → (dst ≡ broadcast) ⊎ (dst ≡ ni.ethernet_address)
    → recv_frame (frame dst src type_arp (BufferList.of_string s)) ni
      ≡ (recv_message m ni >>= λ ni'. returned (none, ni'))
unfolding recv_frame recv_arp
recv_frame-message m s dst src ni e (inl all) = rw (all, e) refl
recv_frame-message m s dst src ni e (inr own) =
    let same : same_address dst ni.ethernet_address ≡ true =
      ap (λ a. same_address a ni.ethernet_address) own ∙ same_address_refl ni.ethernet_address in
    elim (Bool-cases (same_address dst broadcast)) [
      | inl all ↦ rw (all, e) refl
      | inr one ↦ rw (one, same, e) refl
    ]

-- A reply to this interface, with datagrams that wait for its sender.
recv_message-reply :
    (m : ArpMessage) (ni : NetworkInterface) (w : Waiting) (ls : List BufferList)
    → m.target_ip_address ≡ ni.ip_address
    → m.opcode ≡ opcode_reply
    → find m.sender_ip_address ni.frames_cannot_find_arp ≡ some w
    → AllSerialize w.dgrams ls
    → recv_message m ni
      ≡ returned
          (record (with_frames
            (learn m ni)
            (datagram_frames m.sender_ethernet_address ni.ethernet_address ls)) {
              frames_cannot_find_arp = erase m.sender_ip_address ni.frames_cannot_find_arp;
            })
unfolding recv_message
recv_message-reply m ni w ls mine op f all =
    let a : (m.target_ip_address == ni.ip_address) ≡ true = ground (arith, mine) in
    let b : (m.opcode == opcode_reply) ≡ true = ground (arith, op) in
    rw (a, b, f, push_datagrams_lem m.sender_ethernet_address w.dgrams ls (learn m ni) all) refl

-- When a frame for the interface holds a message that is read as a reply to it, each datagram that waits for
-- the reply's sender, if all of them can be serialized, is pushed in its order, in a frame to the
-- sender's Ethernet address; that address is in the cache afterwards, with a new time to live, and
-- nothing waits for it any more.
pub recv_frame-reply :
    (m : ArpMessage) (s : List ℕ) (src : EthernetAddress) (ni : NetworkInterface) (w : Waiting)
    (ls : List BufferList)
    → Arp.parse (Buffer.of_string s) Arp.new ≡ some (no_error, m)
    → m.target_ip_address ≡ ni.ip_address
    → m.opcode ≡ opcode_reply
    → find m.sender_ip_address ni.frames_cannot_find_arp ≡ some w
    → AllSerialize w.dgrams ls
    → (ni' : NetworkInterface) × (recv_frame
          (frame ni.ethernet_address src type_arp (BufferList.of_string s))
          ni
        ≡ returned (none, ni'))
      × (ni'.frames_out
          ≡ ni.frames_out ++ map (frame m.sender_ethernet_address ni.ethernet_address type_ipv4) ls)
      × (find m.sender_ip_address ni'.arp_cache
          ≡ some (record { eth_addr = m.sender_ethernet_address; ttl = arp_cache_ttl }))
      × (find m.sender_ip_address ni'.frames_cannot_find_arp ≡ none)
recv_frame-reply m s src ni w ls e mine op f all = (
  _,
  recv_frame-message m s ni.ethernet_address src ni e (inr refl)
      ∙ ap (λ o. o >>= λ ni'. returned (none, ni')) (recv_message-reply m ni w ls mine op f all),
  refl,
  find-assign m.sender_ip_address
      (record { eth_addr = m.sender_ethernet_address; ttl = arp_cache_ttl }) ni.arp_cache,
  find-erase m.sender_ip_address ni.frames_cannot_find_arp,
)

-- The addresses of an interface fit a message.
pub record HasAddresses (ni : NetworkInterface) : Type 0 where
  pub ethernet : IsAddress ni.ethernet_address
  pub ip : ni.ip_address < 2 ^ 32

request-InWidth :
    (a : NetworkInterface) (ip : ℕ) → HasAddresses a → ip < 2 ^ 32 → InWidth (request ip a)
request-InWidth a ip ok small = record {
  sender_ethernet_address = ok.ethernet;
  sender_ip_address = ok.ip;
  target_ethernet_address = record { size = refl; bytes = omega arith };
  target_ip_address = small;
}

reply-InWidth :
    (a b : NetworkInterface)
    → HasAddresses a
    → HasAddresses b
    → InWidth (reply (request b.ip_address a) b)
reply-InWidth a b ok ok' = record {
  sender_ethernet_address = ok'.ethernet;
  sender_ip_address = ok'.ip;
  target_ethernet_address = ok.ethernet;
  target_ip_address = ok.ip;
}

request-supported : (a : NetworkInterface) (ip : ℕ) → supported (request ip a) ≡ true
unfolding supported
request-supported a ip = refl

reply-supported : (a b : NetworkInterface) → supported (reply (request b.ip_address a) b) ≡ true
unfolding supported
reply-supported a b = refl

-- A datagram for an interface that is not in the cache, where none waits for it yet.
send_datagram-new :
    (d : Ipv4Datagram) (ip : ℕ) (s : List ℕ) (a : NetworkInterface)
    → find ip a.arp_cache ≡ none
    → find ip a.frames_cannot_find_arp ≡ none
    → Arp.serialize (request ip a) ≡ some s
    → send_datagram d ip a
      ≡ returned (record (push broadcast type_arp (BufferList.of_string s) a) {
        frames_cannot_find_arp =
            assign ip (record { dgrams = d ∷ []; ttl = 5000 }) a.frames_cannot_find_arp;
      })
unfolding send_datagram
send_datagram-new d ip s a unknown nothing e = rw (send_datagram, unknown, nothing, e) refl

recv_message-request :
    (a b : NetworkInterface) (s : List ℕ)
    → Arp.serialize (reply (request b.ip_address a) b) ≡ some s
    → recv_message (request b.ip_address a) b
      ≡ returned (
          push a.ethernet_address type_arp
            (BufferList.of_string s)
            (learn (request b.ip_address a) b))
unfolding recv_message
recv_message-request a b s e =
    let mine : (b.ip_address == b.ip_address) ≡ true = ground arith in rw (mine, e) refl

-- Two interfaces on one network, where the first has neither the second's address nor datagrams that
-- wait for it: a datagram that the first is to send makes it push a request; when the second gets
-- that frame, it pushes a reply; and when the first gets this one, it pushes the datagram, in a frame
-- to the second.
pub resolution :
    (a b : NetworkInterface) (d : Ipv4Datagram) (l : BufferList)
    → HasAddresses a
    → HasAddresses b
    → find b.ip_address a.arp_cache ≡ none
    → find b.ip_address a.frames_cannot_find_arp ≡ none
    → Ipv4.serialize d ≡ some l
    → (a1 : NetworkInterface) × (b1 : NetworkInterface) × (a2 : NetworkInterface)
      × (question : EthernetFrame) × (answer : EthernetFrame) × (send_datagram d b.ip_address a
          ≡ returned a1)
      × (a1.frames_out ≡ a.frames_out ++ question ∷ [])
      × (recv_frame question b ≡ returned (none, b1))
      × (b1.frames_out ≡ b.frames_out ++ answer ∷ [])
      × (recv_frame answer a1 ≡ returned (none, a2))
      × (a2.frames_out
          ≡ a1.frames_out ++ frame b.ethernet_address a.ethernet_address type_ipv4 l ∷ [])
resolution a b d l ok ok' unknown nothing e =
    let (s, written, _, read) =
      parse-serialize_message (request b.ip_address a) Arp.new
        (request-InWidth a b.ip_address ok ok'.ip) (request-supported a b.ip_address) in
    let (s', written', _, read') =
      parse-serialize_message (reply (request b.ip_address a) b) Arp.new (reply-InWidth a b ok ok')
        (reply-supported a b) in
    let (a2, got, out, _, _) =
      recv_frame-reply (reply (request b.ip_address a) b) s' b.ethernet_address
        (record (push broadcast type_arp (BufferList.of_string s) a) {
          frames_cannot_find_arp =
              assign b.ip_address (record { dgrams = d ∷ []; ttl = 5000 }) a.frames_cannot_find_arp;
        })
        (record { dgrams = d ∷ []; ttl = 5000 }) (l ∷ []) read' refl refl
        (find-assign b.ip_address (record { dgrams = d ∷ []; ttl = 5000 }) a.frames_cannot_find_arp)
        (one_more e none_left) in
    (
      _,
      _,
      a2,
      _,
      _,
      send_datagram-new d b.ip_address s a unknown nothing written,
      refl,
      recv_frame-message (request b.ip_address a) s broadcast a.ethernet_address b read (inl refl)
          ∙ ap (λ o. o >>= λ ni'. returned (none, ni')) (recv_message-request a b s' written'),
      refl,
      got,
      out,
    )
