-- ===== src/Transfer/Receiving.antt =====
-- The receiver at the other end (libsponge/tcp_receiver.cc): it takes pieces, and its client reads.
use cs.Prelude.{
  ℕ, ◌+◌, ◌-◌, ◌^◌, ◌<◌, ◌≡◌, refl, sym, ap, ◌∙◌, subst, Bool, false, ◌&&◌, not, some, List, ◌++◌,
  arith, inl, inr, Bool-cases,
}
use cs.Seqno.{WrappingInt32, wrap}
use cs.BufferList.Laws.{contents}
use cs.ByteStream.{ByteStream}
use cs.ByteStream
use cs.Reassembler.Slice.{slice}
use cs.Reassembler.Window.{InRange}
use cs.Reassembler.Delivery.{moves_on, read-Delivered}
use cs.Segment.{TcpSegment}
use cs.Receiver.{
  TcpReceiver, segment_received, refused, inbound, take_fin, set_ackno, due, answer, stream_out,
}
use cs.Receiver.Sync.{Synced, Carries, received, deliver-Fed, finish-Synced}
use cs.Transfer.Pieces.{Piece}

-- Segments that differ in nothing that a receiver looks at.
pub record Alike (seg seg' : TcpSegment) : Type 0 where
  pub same_seqno : seg'.header.seqno ≡ seg.header.seqno
  pub same_syn : seg'.header.syn ≡ seg.header.syn
  pub same_fin : seg'.header.fin ≡ seg.header.fin
  pub same_payload : seg'.payload ≡ seg.payload

-- Segment number `n` can be told apart from those 2^32 away, and no FIN was acknowledged.
pub record Near (n : ℕ) (r : TcpReceiver) : Type 0 where
  pub going : due r ≡ r.reassembler.first_unassemble_byte + 1
  pub small : r.reassembler.first_unassemble_byte + r.reassembler.capacity < 2 ^ 62
  pub below : n < r.reassembler.first_unassemble_byte + 2 ^ 30
  pub above : r.reassembler.first_unassemble_byte + 2 < n + 2 ^ 30

module _ (S : ℕ → ℕ) (isn : WrappingInt32) where
  -- What the client has read, with what is still in the output, is the front of the stream.
  pub record Receives (read : List ℕ) (r : TcpReceiver) : Type 0 where
    pub synced : Synced S r
    pub same_isn : r.isn ≡ isn
    pub front :
        read ++ contents (stream_out r).stream_buffer
        ≡ slice S 0 r.reassembler.first_unassemble_byte

  pub carries :
      (n : ℕ) (seg seg' : TcpSegment) (r : TcpReceiver)
      → Piece S isn n seg
      → Alike seg seg'
      → Near n r
      → r.isn ≡ isn
      → Carries S r seg' (n - 1)
  carries n seg seg' r p a near e = record {
    plain = a.same_syn ∙ p.plain;
    numbered =
        a.same_seqno
        ∙ p.numbered
        ∙ ap (wrap n) (sym e)
        ∙ ap (λ k. wrap k r.isn) (omega (arith, p.after_syn));
    bytes = rw (a.same_payload) p.bytes;
    short = rw (a.same_payload) p.short;
    going = near.going;
    small = near.small;
    below = omega (arith, near.below);
    above = omega (arith, near.above, p.after_syn);
  }

  pub unmoved :
      (seg : TcpSegment) (r : TcpReceiver)
      → seg.header.syn ≡ false
      → ((set_ackno (take_fin seg r)).reassembler ≡ r.reassembler)
        × ((set_ackno (take_fin seg r)).isn ≡ r.isn)
  unfolding set_ackno take_fin
  unmoved seg r plain = elim (Bool-cases (seg.header.fin && not r.fin_received)) [
    | inl ends ↦ rw (ends, plain) (refl, refl)
    | inr on ↦ rw on (refl, refl)
  ]

  -- A piece that is near is taken without failing, and the front of the stream grows by what fits.
  pub segment_received-Receives :
      (n : ℕ) (seg seg' : TcpSegment) (read : List ℕ) (r : TcpReceiver)
      → Piece S isn n seg
      → Alike seg seg'
      → Near n r
      → Receives read r
      → (b : Bool) × (r' : TcpReceiver) × (segment_received seg' r ≡ some (b, r'))
        × Receives read r'
  unfolding segment_received
  segment_received-Receives n seg seg' read r p a near h =
      let c = carries n seg seg' r p a near h.same_isn in
      elim (Bool-cases (refused seg' r)) [
        | inl stops ↦ (false, r, rw stops, h)
        | inr passes ↦
            let (r', e, f) = deliver-Fed S r seg' (n - 1) h.synced c (omega (arith, near.small)) in
            let (s', w, at) = finish-Synced S r r' seg' h.synced c.plain f in
            let (q, i) = unmoved seg' r' c.plain in
            (
              answer seg' r (inbound seg' r),
              set_ackno (take_fin seg' r'),
              received seg' r r r' passes (rw c.plain) e,
              record {
                synced = s';
                same_isn = i ∙ f.same_isn ∙ h.same_isn;
                front =
                    subst
                      (λ t.
                        read ++ contents t.output.stream_buffer ≡ slice S 0 t.first_unassemble_byte)
                      (sym q)
                      (moves_on S read r.reassembler r'.reassembler h.synced.stream f.stream
                        (f.window, f.capacity) h.front);
              },
            )
      ]

  -- The client reads.
  pub read-Receives :
      (read bytes : List ℕ) (n : ℕ) (r : TcpReceiver) (s : ByteStream)
      → Receives read r
      → InRange r.reassembler
      → ByteStream.read n (stream_out r) ≡ some (bytes, s)
      → Receives (read ++ bytes) (record r { reassembler = record r.reassembler { output = s } })
  read-Receives read bytes n r s h range e =
      let (inv, front) =
        read-Delivered S read bytes n r.reassembler s h.synced.stream range e h.front in
      record {
        synced = record {
          open_now = h.synced.open_now;
          word = h.synced.word;
          stream = inv;
          acked = h.synced.acked;
          followed = h.synced.followed;
        };
        same_isn = h.same_isn;
        front = front;
      }
