-- ===== src/Transfer/Recovery.antt =====
-- How a link gets over a loss: the timer of libsponge/tcp_sender.cc sends the oldest segment again,
-- and libsponge/tcp_receiver.cc takes it.
use cs.Prelude.{
  ℕ, ◌+◌, ◌-◌, ◌^◌, ◌<◌, ◌≡◌, refl, sym, ap, ◌∙◌, subst, true, false, some, List, [], ◌∷◌, ◌++◌,
  arith, length, get_elem?, leb, add64, sub64,
}
use cs.Seqno.{WrappingInt32, IsWord32}
use cs.Buffer.{str}
use cs.Reassembler.Window.{limit}
use cs.Reassembler.Push.{push_substring-Pushed}
use cs.Segment.{TcpSegment}
use cs.Sender.{running, tick}
use cs.Sender.Timer.{tick_late}
use cs.Receiver.{TcpReceiver, segment_received, inbound, take_fin, set_ackno, abs_seqno}
use cs.Receiver.Sync.{Synced, Carries, received, seqno_index, window_start, deliver_inside}
use cs.Transfer.{Link, Step, Reach, established, sent, wait, arrive}
use cs.Transfer.Pieces.{Piece, Pieces, label}
use cs.Transfer.Receiving.{Alike, Near, carries, unmoved}
use cs.Transfer.Invariant.{Keeps}
use cs.Transfer.Delivery.{Reach-Kept, stream_of}

module _ (S : ℕ → ℕ) (r : TcpReceiver) (seg : TcpSegment) (s : Synced S r)
    (c : Carries S r seg r.reassembler.first_unassemble_byte)
    (some_bytes : 0 < length (str seg.payload))
    (space : r.reassembler.first_unassemble_byte < limit r.reassembler)
    (open_now : r.reassembler.eof ≡ false) where
  front_inbound : inbound seg r ≡ true
  unfolding inbound
  front_inbound = ground (
    arith,
    seqno_index S r seg r.reassembler.first_unassemble_byte s c,
    window_start S r s (omega (arith, c.small)) c.going,
    s.stream,
    s.stream.output,
    c,
    s,
  )

  front_index : sub64 (abs_seqno seg r) 1 ≡ r.reassembler.first_unassemble_byte
  front_index = omega (arith, seqno_index S r seg r.reassembler.first_unassemble_byte s c, c.small)

  -- A segment at the front moves the front.
  front_moves :
      (r' : TcpReceiver) × (segment_received seg r ≡ some (true, r'))
      × (r.reassembler.first_unassemble_byte < r'.reassembler.first_unassemble_byte)
  front_moves =
      let (q, e, p) =
        push_substring-Pushed S (str seg.payload) r.reassembler.first_unassemble_byte seg.header.fin
          r.reassembler s.stream (omega (arith, c.small)) c.bytes (omega (arith, c.small, c.short))
          (omega (arith, space)) in
      let r1 : TcpReceiver = record r { reassembler = q; checkpoint = q.first_unassemble_byte } in
      let same = unmoved S r.isn seg r1 c.plain in
      (
        set_ackno (take_fin seg r1),
        received seg r r r1 (rw (c.plain, s.open_now, open_now) refl) (rw c.plain) (
              deliver_inside S r seg q r.reassembler.first_unassemble_byte front_inbound front_index
                e)
            ∙ rw front_inbound refl,
        subst (λ t. r.reassembler.first_unassemble_byte < t.first_unassemble_byte) (sym same.0)
            (ground (arith, p.reached, some_bytes, space)),
      )

get-append_end : {A : Type 0} (xs : List A) (x : A) → get_elem? (xs ++ x ∷ []) (length xs) ≡ some x
get-append_end [] x = refl
get-append_end (y ∷ xs) x = get-append_end xs x

-- The sender waits for an answer, its timer is about to run out, and the receiver, whose front it
-- knows and which has not seen the end, has room.
pub record Stalled (l : Link) (ms : ℕ) (seg : TcpSegment) (segs : List TcpSegment) : Type 0 where
  pub on : l.sender.state ≡ running
  pub late : leb l.sender.retransmission_timeout (add64 l.sender.time ms) ≡ true
  pub oldest : l.sender.segments_outgoing ≡ seg ∷ segs
  pub some_bytes : 0 < length (str seg.payload)
  pub caught_up : l.sender.recv_ackno ≡ l.receiver.reassembler.first_unassemble_byte + 1
  pub near : Near l.sender.recv_ackno l.receiver
  pub space : l.receiver.reassembler.first_unassemble_byte < limit l.receiver.reassembler
  pub open_now : l.receiver.reassembler.eof ≡ false

-- The timer's step.
abbrev pub resent : ℕ → Link → Link
resent ms l = sent l.sender.recv_ackno (tick ms l.sender) l

resent_arrives :
    (S : ℕ → ℕ) (isn : WrappingInt32) (l : Link) (ms : ℕ) (seg : TcpSegment)
    (segs : List TcpSegment)
    → Keeps S isn l
    → Stalled l ms seg segs
    → ((resent ms l).network ≡ l.network ++ (l.sender.recv_ackno, seg) ∷ [])
      × (r : TcpReceiver) × (segment_received seg l.receiver ≡ some (true, r))
      × Step (resent ms l) (record (resent ms l) { receiver = r })
      × (l.receiver.reassembler.first_unassemble_byte < r.reassembler.first_unassemble_byte)
resent_arrives S isn l ms seg segs k h =
    let p : Piece S isn l.sender.recv_ackno seg =
      (subst (Pieces S isn l.sender.recv_ackno) h.oldest k.sound.flows.outgoing).0 in
    let at : l.sender.recv_ackno - 1 ≡ l.receiver.reassembler.first_unassemble_byte =
      omega (arith, h.caught_up) in
    let c : Carries S l.receiver seg l.receiver.reassembler.first_unassemble_byte =
      subst (Carries S l.receiver seg) at
        (carries S isn l.sender.recv_ackno seg seg l.receiver p alike h.near k.receives.same_isn) in
    let (r, e, f) =
      front_moves S l.receiver seg k.receives.synced c h.some_bytes h.space h.open_now in
    (
      ap (λ q. l.network ++ label l.sender.recv_ackno q) out,
      r,
      e,
      arrive (resent ms l) (length l.network) l.sender.recv_ackno seg seg true r on_the_way alike
          h.near e,
      f,
    )
  where
    alike : Alike seg seg
    alike = record { same_seqno = refl; same_syn = refl; same_fin = refl; same_payload = refl }

    out : (tick ms l.sender).segments_out ≡ seg ∷ []
    out =
        ap (λ s. s.segments_out) (tick_late ms l.sender seg segs h.on h.late h.oldest)
        ∙ ap (λ q. q ++ seg ∷ []) k.idle

    on_the_way :
        get_elem?
          (l.network ++ label l.sender.recv_ackno (tick ms l.sender).segments_out)
          (length l.network)
        ≡ some (l.sender.recv_ackno, seg)
    on_the_way =
        ap (λ q. get_elem? (l.network ++ label l.sender.recv_ackno q) (length l.network)) out
        ∙ get-append_end l.network (l.sender.recv_ackno, seg)

-- After the handshake of two ends with capacities below 2^64 and any steps: where the sender waits
-- for an answer to a segment with bytes that the receiver lacks, its timer is about to run out, it
-- knows the receiver's front, and the receiver has room and has not seen the end, the timer's step
-- sends exactly that segment, once, and the receiver takes it, which is a step that moves the front.
pub Reach-Recovers :
    (send_capacity retx_timeout window recv_capacity : ℕ) (isn : WrappingInt32) (l : Link) (ms : ℕ)
    (seg : TcpSegment) (segs : List TcpSegment)
    → send_capacity < 2 ^ 64
    → recv_capacity < 2 ^ 64
    → IsWord32 isn
    → Reach (established send_capacity retx_timeout isn window recv_capacity) l
    → Stalled l ms seg segs
    → Step l (resent ms l)
      × ((resent ms l).network ≡ l.network ++ (l.sender.recv_ackno, seg) ∷ [])
      × (r : TcpReceiver) × (segment_received seg l.receiver ≡ some (true, r))
      × Step (resent ms l) (record (resent ms l) { receiver = r })
      × (l.receiver.reassembler.first_unassemble_byte < r.reassembler.first_unassemble_byte)
Reach-Recovers send_capacity retx_timeout window recv_capacity isn l ms seg segs small small' word r
      h =
    let (out, r', e, step, f) =
      resent_arrives (stream_of 0 l.written) isn l ms seg segs
        (Reach-Kept send_capacity retx_timeout window recv_capacity isn l small small' word r 0)
        h in
    (wait l ms, out, r', e, step, f)
