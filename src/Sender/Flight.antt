-- ===== src/Sender/Flight.antt =====
-- The segments in flight (`_segments_outgoing` of libsponge/tcp_sender.cc): numbered one after the
-- other, from the number that is acknowledged to the next one.
use cs.Prelude.{
  ℕ, ◌+◌, ◌-◌, ◌^◌, ◌≤◌, ◌<◌, ◌≡◌, refl, sym, ◌∙◌, subst, Bool, false, ◌&&◌, not, List, [], ◌∷◌,
  ◌++◌, append-nil, append_assoc, arith, if◌then◌else◌,
}
use cs.Seqno.{WrappingInt32, IsWord32, wrap}
use cs.Buffer.{str}
use cs.BufferList.Laws.{contents}
use cs.ByteStream.{eof}
use cs.ByteStream.Valid.{IsValid}
use cs.Segment.{TcpSegment, length_in_sequence_space}
use cs.Sender.{TcpSender}

abbrev pub bit : Bool → ℕ
bit b = if b then 1 else 0

-- Segments that follow each other without a gap from `n` up to `m`, none of them empty.
unfoldable pub Chain : WrappingInt32 → ℕ → List TcpSegment → ℕ → Type 0
Chain isn n [] m = n ≡ m
Chain isn n (seg ∷ segs) m =
    (seg.header.seqno ≡ wrap n isn)
    × (0 < length_in_sequence_space seg)
    × Chain isn (n + length_in_sequence_space seg) segs m

unfoldable pub payloads : List TcpSegment → List ℕ
payloads [] = []
payloads (seg ∷ segs) = str seg.payload ++ payloads segs

pub Chain-le : (isn : WrappingInt32) (n m : ℕ) (segs : List TcpSegment) → Chain isn n segs m → n ≤ m
unfolding Chain
Chain-le isn n m [] e = omega arith
Chain-le isn n m (seg ∷ segs) (at, filled, c) =
    omega (arith, Chain-le isn (n + length_in_sequence_space seg) m segs c)

pub Chain-append :
    (isn : WrappingInt32) (n m k : ℕ) (segs segs' : List TcpSegment)
    → Chain isn n segs m
    → Chain isn m segs' k
    → Chain isn n (segs ++ segs') k
unfolding Chain
Chain-append isn n m k [] segs' e c = subst (λ i. Chain isn i segs' k) (sym e) c
Chain-append isn n m k (seg ∷ segs) segs' (at, filled, c) c' =
    (at, filled, Chain-append isn (n + length_in_sequence_space seg) m k segs segs' c c')

pub payloads-append :
    (segs segs' : List TcpSegment) → payloads (segs ++ segs') ≡ payloads segs ++ payloads segs'
unfolding payloads
payloads-append [] segs' = refl
payloads-append (seg ∷ segs) segs' = rw (payloads-append segs segs', append_assoc)

-- Numbers that are still to be sent: of the stream's bytes, of the FIN and of the SYN.
abbrev pub pending : TcpSender → ℕ
pending s = s.stream.size + bit (not s.fin_sent) + bit (not s.syn_flag)

-- Every number that the sender is going to use.
abbrev pub load : TcpSender → ℕ
load s = s.next_seqno + pending s

-- No number wraps, and all that may ever be in flight is told apart by 32 bits.
abbrev pub InRange : TcpSender → Type 0
InRange s = (load s < 2 ^ 62) × (load s < s.recv_ackno + 2 ^ 30)

pub record Valid (s : TcpSender) : Type 0 where
  pub word : IsWord32 s.isn
  pub stream : IsValid s.stream
  pub chain : Chain s.isn s.recv_ackno s.segments_outgoing s.next_seqno
  pub counted : s.bytes_in_flight ≡ s.next_seqno - s.recv_ackno
  pub ended : (s.fin_sent && not (eof s.stream)) ≡ false

-- What an operation that only sends does to a sender: it appends the same new segments to both
-- queues, numbered from the next number on, and their payloads are what left the stream.
pub record Sends (s s' : TcpSender) : Type 0 where
  pub sent : List TcpSegment
  pub valid : Valid s'
  pub outgoing : s'.segments_outgoing ≡ s.segments_outgoing ++ sent
  pub out : s'.segments_out ≡ s.segments_out ++ sent
  pub chain : Chain s.isn s.next_seqno sent s'.next_seqno
  pub bytes : payloads sent ++ contents s'.stream.stream_buffer ≡ contents s.stream.stream_buffer
  pub all : load s' ≡ load s
  pub same_isn : s'.isn ≡ s.isn
  pub same_ackno : s'.recv_ackno ≡ s.recv_ackno
  pub same_window : s'.window_size ≡ s.window_size

pub Sends-refl : (s : TcpSender) → Valid s → Sends s s
unfolding Chain payloads
Sends-refl s v = record {
  sent = [];
  valid = v;
  outgoing = sym (append-nil s.segments_outgoing);
  out = sym (append-nil s.segments_out);
  chain = refl;
  bytes = refl;
  all = refl;
  same_isn = refl;
  same_ackno = refl;
  same_window = refl;
}

pub Sends-trans : (s t u : TcpSender) → Sends s t → Sends t u → Sends s u
Sends-trans s t u a b = record {
  sent = a.sent ++ b.sent;
  valid = b.valid;
  outgoing = rw (b.outgoing, a.outgoing, append_assoc);
  out = rw (b.out, a.out, append_assoc);
  chain =
      Chain-append s.isn _ _ _ a.sent b.sent a.chain
        (subst (λ i. Chain i t.next_seqno b.sent u.next_seqno) a.same_isn b.chain);
  bytes = rw (payloads-append a.sent b.sent, append_assoc, b.bytes) a.bytes;
  all = b.all ∙ a.all;
  same_isn = b.same_isn ∙ a.same_isn;
  same_ackno = b.same_ackno ∙ a.same_ackno;
  same_window = b.same_window ∙ a.same_window;
}

pub InRange-Sends : (s t : TcpSender) → Sends s t → InRange s → InRange t
InRange-Sends s t a (small, near) =
    (omega (arith, small, a.all), omega (arith, near, a.all, a.same_ackno))
