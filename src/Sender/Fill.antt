-- ===== src/Sender/Fill.antt =====
-- `fill_window` of libsponge/tcp_sender.cc: its loop ends, and what it sends is what it read.
use cs.Prelude.{
  ℕ, zero, suc, ◌+◌, ◌<◌, ◌≡◌, refl, sym, ◌∙◌, true, false, some, [], ◌∷◌, arith, Bool-cases, inl,
  inr, add64,
}
use cs.Sender.{
  TcpSender, running, make_segment_and_send, numbered, fill_loop, fill_window, syn_segment, enough,
  window_of,
}
use cs.Sender.Flight.{
  Chain, payloads, Chain-append, Chain-le, pending, InRange, Valid, Sends, Sends-refl, Sends-trans,
  InRange-Sends,
}
use cs.Sender.Round.{fill_once-Sends}

fill_loop-Sends :
    (rounds window : ℕ) (s : TcpSender)
    → Valid s
    → InRange s
    → pending s < rounds
    → (s' : TcpSender) × (fill_loop rounds window s ≡ some s') × Sends s s'
unfolding fill_loop
fill_loop-Sends zero window s v range h = absurd (omega arith)
fill_loop-Sends (suc rounds) window s v range h =
    let (b, s', e, a, o, c) = fill_once-Sends window s v range in
    elim c [
      | inl over ↦ (s', rw (fill_loop, e, over), a)
      | inr (goes_on, fewer) ↦
          let (s'', e', a') =
            fill_loop-Sends rounds window s' a.valid (InRange-Sends s s' a range) (omega arith) in
          (s'', rw (fill_loop, e, goes_on, e'), Sends-trans s s' s'' a a')
    ]

-- The SYN.
syn_sent-Sends :
    (s : TcpSender)
    → Valid s
    → InRange s
    → s.syn_flag ≡ false
    → Sends s (record (make_segment_and_send syn_segment s) { syn_flag = true; state = running })
unfolding make_segment_and_send Chain payloads
syn_sent-Sends s v range unsent =
    let moved : add64 s.next_seqno 1 ≡ s.next_seqno + 1 = omega (arith, range.0) in
    let link : Chain s.isn s.next_seqno (numbered syn_segment s ∷ []) (add64 s.next_seqno 1) =
      (refl, omega arith, sym moved) in
    record {
      sent = numbered syn_segment s ∷ [];
      valid = record {
        word = v.word;
        stream = v.stream;
        chain = Chain-append s.isn _ _ _ s.segments_outgoing _ v.chain link;
        counted =
            omega
              (arith, moved, v.counted, range.0, Chain-le s.isn _ _ s.segments_outgoing v.chain);
        ended = v.ended;
      };
      outgoing = refl;
      out = refl;
      chain = link;
      bytes = refl;
      all = ground (arith, moved, unsent);
      same_isn = refl;
      same_ackno = refl;
      same_window = refl;
    }

pub fill_window_started :
    (s : TcpSender)
    → s.syn_flag ≡ true
    → s.old_syn_flag ≡ true
    → fill_window s ≡ fill_loop (enough s) (window_of s) s
unfolding fill_window
fill_window_started s sent started = rw (sent, started)

-- On a valid sender whose numbers stay below 2^62 and within 2^30 of what is acknowledged,
-- `fill_window` ends without an exception: it appends new segments to both queues, numbered
-- without a gap from the next number on and none of them empty, and their payloads are exactly the
-- bytes that left the stream, in order; the numbers still to be used are the same.
pub fill_window-Sends :
    (s : TcpSender)
    → Valid s
    → InRange s
    → (s' : TcpSender) × (fill_window s ≡ some s') × Sends s s'
unfolding fill_window
fill_window-Sends s v range = elim (Bool-cases s.syn_flag) [
  | inr unsent ↦ (_, rw unsent, syn_sent-Sends s v range unsent)
  | inl sent ↦ elim (Bool-cases s.old_syn_flag) [
    | inr unacked ↦ (s, rw (sent, unacked), Sends-refl s v)
    | inl started ↦
        let (s', e, a) =
          fill_loop-Sends (enough s) (window_of s) s v range (ground (arith, sent)) in
        (s', fill_window_started s sent started ∙ e, a)
  ]
]
