-- ===== src/Transfer/Pieces.antt =====
-- What the segments of libsponge/tcp_sender.cc carry: stretches of the stream that the client writes,
-- each at the place that its number says.
use cs.Prelude.{
  ℕ, ◌+◌, ◌-◌, ◌^◌, ◌≤◌, ◌<◌, ◌≡◌, sym, subst, true, false, List, [], ◌∷◌, ◌++◌, All, length,
}
use cs.Seqno.{WrappingInt32, wrap}
use cs.Buffer.{str}
use cs.BufferList.Laws.{contents}
use cs.Reassembler.Slice.{slice}
use cs.Segment.{TcpSegment, length_in_sequence_space}
use cs.Sender.{TcpSender}
use cs.Sender.Flight.{bit, Chain}

module _ (S : ℕ → ℕ) (isn : WrappingInt32) where
  -- A segment at the 64-bit number `n`; the SYN has the number 0 and is not among them.
  pub record Piece (n : ℕ) (seg : TcpSegment) : Type 0 where
    pub after_syn : 1 ≤ n
    pub plain : seg.header.syn ≡ false
    pub numbered : seg.header.seqno ≡ wrap n isn
    pub bytes : str seg.payload ≡ slice S (n - 1) (length (str seg.payload))
    pub short : length (str seg.payload) < 2 ^ 16

  abbrev pub Pieces : ℕ → List TcpSegment → Type 0
  Pieces n [] = Unit {0}
  Pieces n (seg ∷ segs) = Piece n seg × Pieces (n + length_in_sequence_space seg) segs

  pub Pieces-append :
      (n m : ℕ) (segs : List TcpSegment) (seg : TcpSegment)
      → Chain isn n segs m
      → Pieces n segs
      → Piece m seg
      → Pieces n (segs ++ seg ∷ [])
  unfolding Chain
  Pieces-append n m [] seg e p q = (subst (λ k. Piece k seg) (sym e) q, tt)
  Pieces-append n m (first ∷ segs) seg (at, filled, c) p q =
      (p.0, Pieces-append (n + length_in_sequence_space first) m segs seg c p.1 q)

  -- A sender whose client has written `w` bytes of the stream: what it still holds is the end of
  -- them, and what it may send again are pieces of the stream, after the handshake.
  pub record Flows (w : ℕ) (s : TcpSender) : Type 0 where
    pub same_isn : s.isn ≡ isn
    pub started : s.syn_flag ≡ true
    pub position : s.next_seqno + s.stream.size ≡ w + 1 + bit s.fin_sent
    pub within : s.stream.size ≤ w
    pub held : contents s.stream.stream_buffer ≡ slice S (w - s.stream.size) s.stream.size
    pub outgoing : Pieces s.recv_ackno s.segments_outgoing

  -- What is queued since the number `n`.
  pub record Queued (n : ℕ) (s : TcpSender) : Type 0 where
    pub chain : Chain isn n s.segments_out s.next_seqno
    pub out : Pieces n s.segments_out

-- Segments with the numbers that they have in 64 bits, from `n` on.
abbrev pub label : ℕ → List TcpSegment → List (ℕ × TcpSegment)
label n [] = []
label n (seg ∷ segs) = (n, seg) ∷ label (n + length_in_sequence_space seg) segs

pub label-Pieces :
    (S : ℕ → ℕ) (isn : WrappingInt32) (n : ℕ) (segs : List TcpSegment)
    → Pieces S isn n segs
    → All (λ (m, seg). Piece S isn m seg) (label n segs)
label-Pieces S isn n [] p = tt
label-Pieces S isn n (seg ∷ segs) p =
    (p.0, label-Pieces S isn (n + length_in_sequence_space seg) segs p.1)
