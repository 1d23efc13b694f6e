-- ===== src/Transfer/Handshake.antt =====
-- The calls of libsponge/tcp_sender.cc and tcp_receiver.cc that bring two new ends to an established
-- link.
use cs.Prelude.{
  ℕ, ◌≡◌, refl, ap, ◌∙◌, true, false, Option, none, some, subst, [], ◌∷◌, arith, min, inl, inr,
  Bool-cases, ◌==◌, add64, sub64,
}
use cs.Seqno.{WrappingInt32, IsWord32, wrap, unwrap}
use cs.Seqno.Laws.{unwrap-wrap}
use cs.ByteStream
use cs.ByteStream.{ByteStream, pop_output, peek_output}
use cs.BufferList.{BufferList, remove_prefix, concatenate}
use cs.Segment.{TcpSegment}
use cs.Sender.{
  TcpSender, fill_window, fill_loop, fill_once, send_data, ack_received, drop_acked, restart_timer,
  make_segment_and_send, syn_segment, running, stop, numbered, room, window_of, max_payload_size,
}
use cs.Sender
use cs.Sender.Acked.{accepted}
use cs.Receiver.{TcpReceiver, segment_received, set_ackno}
use cs.Receiver
use cs.Receiver.{ackno}
use cs.Receiver.Handshake.{opened, syn_taken}
use cs.Reassembler
use cs.Transfer.{Link, answered, established}

-- The sender when its SYN is on the way.
abbrev waiting : ℕ → ℕ → WrappingInt32 → TcpSender
waiting capacity retx_timeout isn = record (Sender.init capacity retx_timeout isn) {
  segments_outgoing = numbered syn_segment (Sender.init capacity retx_timeout isn) ∷ [];
  bytes_in_flight = 1;
  next_seqno = 1;
  syn_flag = true;
  state = running;
}

syn_goes_out :
    (capacity retx_timeout : ℕ) (isn : WrappingInt32)
    → fill_window (Sender.init capacity retx_timeout isn)
      ≡ some (record (waiting capacity retx_timeout isn) {
        segments_out = numbered syn_segment (Sender.init capacity retx_timeout isn) ∷ [];
      })
unfolding fill_window Sender.init make_segment_and_send
syn_goes_out capacity retx_timeout isn = refl

pop_empty :
    (n capacity : ℕ) → pop_output n (ByteStream.init capacity) ≡ some (ByteStream.init capacity)
unfolding ByteStream.init pop_output remove_prefix
pop_empty n capacity =
    let none_there : 0 ≡ min n 0 = omega arith in
    subst
      (λ l.
        popped (ByteStream.init capacity) l (remove_prefix l []) ≡ some (ByteStream.init capacity))
      none_there refl
  where
    popped : ByteStream → ℕ → Option BufferList → Option ByteStream
    popped s l o = elim o [
      | none ↦ none
      | some rest ↦
          some (record s {
            stream_buffer = rest;
            size = sub64 s.size l;
            num_read = add64 s.num_read l;
          })
    ]

read_empty :
    (n capacity : ℕ)
    → ByteStream.read n (ByteStream.init capacity) ≡ some ([], ByteStream.init capacity)
unfolding ByteStream.read peek_output concatenate ByteStream.init
read_empty n capacity = rw (ByteStream.read, pop_empty n capacity) refl

-- The sender with the SYN acknowledged, before the timer stops.
abbrev going : ℕ → ℕ → WrappingInt32 → ℕ → TcpSender
going capacity retx_timeout isn window = record (answered capacity retx_timeout isn window) {
  state = running;
}

-- With no bytes to send nothing is sent.
nothing_to_send :
    (capacity retx_timeout : ℕ) (isn : WrappingInt32) (window size : ℕ)
    → fill_once size (going capacity retx_timeout isn window)
      ≡ some (false, going capacity retx_timeout isn window)
unfolding fill_once send_data Sender.init ByteStream.init
nothing_to_send capacity retx_timeout isn window size =
    elim (Bool-cases (room size (going capacity retx_timeout isn window) == 0)) [
      | inl full ↦ rw (fill_once, full) refl
      | inr open_now ↦
          rw
            (
              fill_once,
              open_now,
              read_empty (min (room size (going capacity retx_timeout isn window)) max_payload_size)
                  capacity,
            )
            refl
    ]

fill_going :
    (capacity retx_timeout : ℕ) (isn : WrappingInt32) (window : ℕ)
    → fill_window (going capacity retx_timeout isn window)
      ≡ some (going capacity retx_timeout isn window)
unfolding fill_window fill_loop Sender.init
fill_going capacity retx_timeout isn window =
    rw
      (
        fill_loop,
        nothing_to_send capacity retx_timeout isn window
            (window_of (going capacity retx_timeout isn window)),
      )
      refl

syn_acknowledged :
    (capacity retx_timeout : ℕ) (isn : WrappingInt32) (window : ℕ)
    → IsWord32 isn
    → drop_acked 1
        (waiting capacity retx_timeout isn).segments_outgoing
        (accepted window (waiting capacity retx_timeout isn))
      ≡ going capacity retx_timeout isn window
unfolding drop_acked Sender.init
syn_acknowledged capacity retx_timeout isn window word =
    let at : unwrap (wrap 0 isn) isn 1 ≡ 0 =
      unwrap-wrap 0 1 isn word (omega arith) (omega arith) (omega arith) in
    rw at refl

ack_taken :
    (capacity retx_timeout : ℕ) (isn : WrappingInt32) (window : ℕ)
    → IsWord32 isn
    → ack_received (wrap 1 isn) window (waiting capacity retx_timeout isn)
      ≡ some (true, answered capacity retx_timeout isn window)
unfolding ack_received restart_timer Sender.init
ack_taken capacity retx_timeout isn window word =
    let at : unwrap (wrap 1 isn) isn 1 ≡ 1 =
      unwrap-wrap 1 1 isn word (omega arith) (omega arith) (omega arith) in
    rw
      (
        ack_received,
        at,
        syn_acknowledged capacity retx_timeout isn window word,
        fill_going capacity retx_timeout isn window,
      )
      refl

wrap_zero : (isn : WrappingInt32) → IsWord32 isn → wrap 0 isn ≡ isn
unfolding wrap
wrap_zero isn word = ap (λ k. record { raw_value = k }) (omega (arith, word))

-- A new sender's `fill_window` queues one segment; a new receiver takes it, is then the receiver of
-- the established link, and asks for the number after it; and the sender, with its queue emptied,
-- takes that acknowledgment and is then the sender of the established link.
pub handshake_establishes :
    (send_capacity retx_timeout window recv_capacity : ℕ) (isn : WrappingInt32)
    → IsWord32 isn
    → let l : Link = established send_capacity retx_timeout isn window recv_capacity in
      (syn : TcpSegment) × (s : TcpSender) × (fill_window
          (Sender.init send_capacity retx_timeout isn)
        ≡ some s)
      × (s.segments_out ≡ syn ∷ [])
      × (segment_received syn (Receiver.init recv_capacity) ≡ some (true, l.receiver))
      × (ackno l.receiver ≡ some (wrap 1 isn))
      × (ack_received (wrap 1 isn) window (record s { segments_out = [] }) ≡ some (true, l.sender))
unfolding Sender.init set_ackno Reassembler.init
handshake_establishes send_capacity retx_timeout window recv_capacity isn word = (
  numbered syn_segment (Sender.init send_capacity retx_timeout isn),
  record (waiting send_capacity retx_timeout isn) {
    segments_out = numbered syn_segment (Sender.init send_capacity retx_timeout isn) ∷ [];
  },
  syn_goes_out send_capacity retx_timeout isn,
  refl,
  syn_taken recv_capacity _ refl refl refl
      ∙ ap (λ k. some (true, set_ackno (opened recv_capacity k))) (wrap_zero isn word),
  refl,
  ack_taken send_capacity retx_timeout isn window word,
)
