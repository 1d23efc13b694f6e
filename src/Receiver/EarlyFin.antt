-- ===== src/Receiver/EarlyFin.antt =====
-- A FIN that overtakes bytes (`segment_received` of libsponge/tcp_receiver.cc, with
-- `push_substring` of libsponge/stream_reassembler.cc).
use cs.Prelude.{
  ℕ, ◌+◌, ◌<◌, ◌≡◌, refl, ap, ◌∙◌, true, false, some, [], arith, sub64, Bool-cases, inl, inr,
}
use cs.Buffer.{str}
use cs.BufferList.Laws.{contents}
use cs.ByteStream
use cs.Reassembler.{StreamReassembler, push_substring}
use cs.Reassembler.Window.{limit}
use cs.Segment.{TcpSegment}
use cs.Seqno.{wrap}
use cs.Receiver.{
  ackno, TcpReceiver, segment_received, inbound, deliver, take_fin, set_ackno, due, abs_seqno,
  stream_out,
}
use cs.Receiver.Sync.{Synced, Carries, received, seqno_index, window_start, deliver_inside}

abbrev ended : StreamReassembler → StreamReassembler
ended q = record q { eof = true; output = ByteStream.end_input q.output }

empty_end :
    (i : ℕ) (q : StreamReassembler)
    → q.num_unassembled_byte ≡ 0
    → push_substring [] i true q ≡ some (ended q)
unfolding push_substring
empty_end i q none_held = elim (Bool-cases q.eof) [
  | inl e ↦ rw (push_substring, e, none_held) refl
  | inr e ↦ rw (push_substring, e, none_held) refl
]

module _ (S : ℕ → ℕ) (r : TcpReceiver) (seg : TcpSegment) (i : ℕ) (s : Synced S r)
    (c : Carries S r seg i) (ahead : r.reassembler.first_unassemble_byte < i)
    (within : i < limit r.reassembler) where
  early_inbound : inbound seg r ≡ true
  unfolding inbound
  early_inbound = ground (
    arith,
    seqno_index S r seg i s c,
    window_start S r s (omega (arith, c.small)) c.going,
    s.stream,
    s.stream.output,
    c,
    s,
  )

  early_index : sub64 (abs_seqno seg r) 1 ≡ i
  early_index = omega (arith, seqno_index S r seg i s c, c.small, c.below)

  -- A receiver that is in step with its peer, with indexes below 2^62, no end seen before and nothing
  -- held, gets a FIN without bytes that lies in the window, past bytes that have not come: the call
  -- answers, the output is ended as it is, and the acknowledgment number is two past the front, as if
  -- the byte at the front had come.
  pub early_fin_ends :
      str seg.payload ≡ []
      → seg.header.fin ≡ true
      → r.reassembler.eof ≡ false
      → r.fin_received ≡ false
      → r.reassembler.num_unassembled_byte ≡ 0
      → (r' : TcpReceiver) × (segment_received seg r ≡ some (true, r'))
        × ((stream_out r').if_end ≡ true)
        × (contents (stream_out r').stream_buffer ≡ contents (stream_out r).stream_buffer)
        × (ackno r' ≡ some (wrap (r.reassembler.first_unassemble_byte + 2) r.isn))
  unfolding take_fin set_ackno ByteStream.end_input
  early_fin_ends no_bytes fin open_now new none_held =
      let q : StreamReassembler = ended r.reassembler in
      let r1 : TcpReceiver = record r { reassembler = q; checkpoint = q.first_unassemble_byte } in
      let pushed : deliver seg r ≡ some r1 =
        deliver_inside S r seg q i early_inbound early_index
          (rw (no_bytes, fin) (empty_end i r.reassembler none_held)) in
      let taken : take_fin seg r1 ≡ record r1 { fin_received = true } =
        rw (fin, new, c.plain) refl in
      let next : due (record r1 { fin_received = true }) ≡ r.reassembler.first_unassemble_byte + 2 =
        ground (arith, none_held, c.small) in
      (
        set_ackno (take_fin seg r1),
        received seg r r r1 (rw (c.plain, s.open_now, open_now) refl) (rw c.plain) pushed
            ∙ rw early_inbound refl,
        rw (fin, new, c.plain) refl,
        rw (fin, new, c.plain) refl,
        ap (λ t. ackno (set_ackno t)) taken ∙ rw s.open_now (ap (λ k. some (wrap k r.isn)) next),
      )
