-- ===== src/Receiver/Handshake.antt =====
-- The first segment of a peer (`segment_received` of libsponge/tcp_receiver.cc).
use cs.Prelude.{ℕ, ◌∙◌, ◌^◌, ◌<◌, ◌≡◌, refl, true, false, some, [], arith, Bool-cases, inl, inr}
use cs.Seqno.{WrappingInt32, IsWord32, wrap}
use cs.Buffer.{str}
use cs.Reassembler.{push_substring}
use cs.Reassembler
use cs.Reassembler.Delivery.{init-Inv}
use cs.Segment.{TcpSegment}
use cs.Receiver.{
  TcpReceiver, init, segment_received, inbound, deliver, take_fin, set_ackno, ackno, answer,
}
use cs.Receiver.Sync.{Synced, received}

-- A new receiver that has seen a SYN.
abbrev pub opened : ℕ → WrappingInt32 → TcpReceiver
opened capacity isn = record {
  reassembler = Reassembler.init capacity;
  syn_received = true;
  fin_received = false;
  isn = isn;
  last_ackno = record { raw_value = 0 };
  checkpoint = 0;
}

nothing_pushed :
    (capacity i : ℕ)
    → push_substring [] i false (Reassembler.init capacity) ≡ some (Reassembler.init capacity)
unfolding push_substring Reassembler.init
nothing_pushed capacity i = refl

opened-deliver :
    (capacity : ℕ) (seg : TcpSegment)
    → seg.header.fin ≡ false
    → str seg.payload ≡ []
    → deliver seg (opened capacity seg.header.seqno) ≡ some (opened capacity seg.header.seqno)
unfolding deliver Reassembler.init
opened-deliver capacity seg no_fin no_bytes =
    elim (Bool-cases (inbound seg (opened capacity seg.header.seqno))) [
      | inl inside ↦ rw (inside, no_bytes, no_fin, nothing_pushed) refl
      | inr outside ↦ rw outside
    ]

opened-answer :
    (capacity : ℕ) (seg : TcpSegment)
    → seg.header.syn ≡ true
    → answer seg (init capacity) (inbound seg (opened capacity seg.header.seqno)) ≡ true
unfolding init
opened-answer capacity seg syn = ground (arith, syn)

pub syn_taken :
    (capacity : ℕ) (seg : TcpSegment)
    → seg.header.syn ≡ true
    → seg.header.fin ≡ false
    → str seg.payload ≡ []
    → segment_received seg (init capacity)
      ≡ some (true, set_ackno (opened capacity seg.header.seqno))
unfolding segment_received take_fin init Reassembler.init
syn_taken capacity seg syn no_fin no_bytes =
    received seg (init capacity) (opened capacity seg.header.seqno)
      (opened capacity seg.header.seqno) (rw syn refl) (rw syn)
      (opened-deliver capacity seg no_fin no_bytes)
    ∙ rw (opened-answer capacity seg syn, no_fin)

-- A plain SYN opens a new receiver: it is answered, the receiver is in step with the peer whatever
-- the peer's stream is going to be, and it asks for the number after the SYN's.
pub segment_received-syn :
    (S : ℕ → ℕ) (capacity : ℕ) (seg : TcpSegment)
    → capacity < 2 ^ 64
    → seg.header.syn ≡ true
    → seg.header.fin ≡ false
    → str seg.payload ≡ []
    → IsWord32 seg.header.seqno
    → (r : TcpReceiver) × (segment_received seg (init capacity) ≡ some (true, r))
      × Synced S r
      × (ackno r ≡ some (wrap 1 seg.header.seqno))
unfolding segment_received set_ackno take_fin init Reassembler.init
segment_received-syn S capacity seg small syn no_fin no_bytes word = (
  set_ackno (opened capacity seg.header.seqno),
  syn_taken capacity seg syn no_fin no_bytes,
  record {
    open_now = refl;
    word = word;
    stream = init-Inv S capacity small;
    acked = refl;
    followed = refl;
  },
  refl,
)
