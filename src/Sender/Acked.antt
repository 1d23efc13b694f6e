-- ===== src/Sender/Acked.antt =====
-- `ack_received` of libsponge/tcp_sender.cc.
use cs.Prelude.{
  ◌≢◌, if◌then◌else◌, ℕ, ◌+◌, ◌≤◌, ◌<◌, ◌≡◌, refl, sym, ap, ◌∙◌, subst, ◌⊎◌, inl, inr, true, false,
  some, List, [], ◌∷◌, ◌++◌, arith, leb, ltb, Bool-cases, add64, sub64,
}
use cs.Seqno.{WrappingInt32, IsWord32, wrap, unwrap}
use cs.Seqno.Laws.{unwrap-wrap}
use cs.Segment.{TcpSegment, length_in_sequence_space}
use cs.Sender.{TcpSender, drop_acked, ack_received, restart_timer, fill_window, is_empty, stop}
use cs.Sender.Flight.{Chain, Chain-le, InRange, Valid, Sends}
use cs.Sender.Fill.{fill_window-Sends}

-- The first segment that is left goes past what is acknowledged.
unfoldable pub Blocked : ℕ → ℕ → List TcpSegment → Type 0
Blocked abs_ackno n [] = abs_ackno ≡ abs_ackno
Blocked abs_ackno n (seg ∷ segs) = abs_ackno < n + length_in_sequence_space seg

-- The segments of the queue that are acknowledged whole have gone, and nothing else.
pub record Drops (abs_ackno : ℕ) (s t : TcpSender) : Type 0 where
  pub gone : List TcpSegment
  pub split : s.segments_outgoing ≡ gone ++ t.segments_outgoing
  pub chain : Chain s.isn s.recv_ackno gone t.recv_ackno
  pub upto : t.recv_ackno ≤ abs_ackno
  pub blocked : Blocked abs_ackno t.recv_ackno t.segments_outgoing
  pub valid : Valid t
  pub range : InRange t
  pub out : t.segments_out ≡ s.segments_out
  pub same_next : t.next_seqno ≡ s.next_seqno

module _ (abs_ackno : ℕ) where
  abbrev pub popped : TcpSegment → List TcpSegment → TcpSender → TcpSender
  popped seg segs s = record s {
    segments_outgoing = segs;
    bytes_in_flight = sub64 s.bytes_in_flight (length_in_sequence_space seg);
    recv_ackno = add64 (unwrap seg.header.seqno s.isn s.next_seqno) (length_in_sequence_space seg);
  }

  segment_end :
      (s : TcpSender) (seg : TcpSegment)
      → IsWord32 s.isn
      → InRange s
      → s.recv_ackno + length_in_sequence_space seg ≤ s.next_seqno
      → seg.header.seqno ≡ wrap s.recv_ackno s.isn
      → add64 (unwrap seg.header.seqno s.isn s.next_seqno) (length_in_sequence_space seg)
        ≡ s.recv_ackno + length_in_sequence_space seg
  segment_end s seg word range before at = omega (
    arith,
    ap (λ n. unwrap n s.isn s.next_seqno) at
        ∙ unwrap-wrap s.recv_ackno s.next_seqno s.isn word (omega arith) (omega (arith, range.1))
            (omega arith),
    range.0,
  )

  popped-Valid :
      (s : TcpSender) (seg : TcpSegment) (segs : List TcpSegment) (end : ℕ)
      → Valid s
      → InRange s
      → end ≡ s.recv_ackno + length_in_sequence_space seg
      → Chain s.isn (s.recv_ackno + length_in_sequence_space seg) segs s.next_seqno
      → Valid (record s {
        segments_outgoing = segs;
        bytes_in_flight = sub64 s.bytes_in_flight (length_in_sequence_space seg);
        recv_ackno = end;
      })
  popped-Valid s seg segs end v range e c = record {
    word = v.word;
    stream = v.stream;
    chain = rw e c;
    counted = omega (arith, v.counted, range.0, Chain-le s.isn _ _ segs c, e);
    ended = v.ended;
  }

  stays-Drops :
      (s : TcpSender)
      → Valid s
      → InRange s
      → s.recv_ackno ≤ abs_ackno
      → Blocked abs_ackno s.recv_ackno s.segments_outgoing
      → Drops abs_ackno s s
  unfolding Chain
  stays-Drops s v range upto b = record {
    gone = [];
    split = refl;
    chain = refl;
    upto = upto;
    blocked = b;
    valid = v;
    range = range;
    out = refl;
    same_next = refl;
  }

  pops-Drops :
      (s t : TcpSender) (seg : TcpSegment) (segs : List TcpSegment)
      → seg.header.seqno ≡ wrap s.recv_ackno s.isn
      → 0 < length_in_sequence_space seg
      → s.segments_outgoing ≡ seg ∷ segs
      → add64 (unwrap seg.header.seqno s.isn s.next_seqno) (length_in_sequence_space seg)
        ≡ s.recv_ackno + length_in_sequence_space seg
      → Drops abs_ackno (popped seg segs s) t
      → Drops abs_ackno s t
  unfolding Chain
  pops-Drops s t seg segs at filled e end d = record {
    gone = seg ∷ d.gone;
    split = e ∙ ap (◌∷◌ seg) d.split;
    chain = (at, filled, subst (λ n. Chain s.isn n d.gone t.recv_ackno) end d.chain);
    upto = d.upto;
    blocked = d.blocked;
    valid = d.valid;
    range = d.range;
    out = d.out;
    same_next = d.same_next;
  }

  pub drop_acked-Drops :
      (segs : List TcpSegment) (s : TcpSender)
      → Valid s
      → InRange s
      → s.recv_ackno ≤ abs_ackno
      → s.segments_outgoing ≡ segs
      → Drops abs_ackno s (drop_acked abs_ackno segs s)
  unfolding drop_acked Blocked Chain
  drop_acked-Drops [] s v range upto e =
      stays-Drops s v range upto (subst (λ q. Blocked abs_ackno s.recv_ackno q) (sym e) refl)
  drop_acked-Drops (seg ∷ segs) s v range upto e =
      let (at, filled, c) : Chain s.isn s.recv_ackno (seg ∷ segs) s.next_seqno =
        subst (λ q. Chain s.isn s.recv_ackno q s.next_seqno) e v.chain in
      let end = segment_end s seg v.word range (Chain-le s.isn _ _ segs c) at in
      let v' = popped-Valid s seg segs _ v range end c in
      elim (Bool-cases (leb (popped seg segs s).recv_ackno abs_ackno)) [
        | inl whole ↦ rw whole (
            pops-Drops s _ seg segs at filled e end (
              drop_acked-Drops segs (popped seg segs s) v'
                (omega (arith, range.0), omega (arith, range.1, end, Chain-le s.isn _ _ segs c))
                (ground arith) refl))
        | inr part ↦ rw part (
            stays-Drops s v range upto
              (subst (λ q. Blocked abs_ackno s.recv_ackno q) (sym e) (ground (arith, end))))
      ]

-- The state in which the queue is cut.
abbrev pub accepted : ℕ → TcpSender → TcpSender
accepted window s = record s { window_size = window; old_syn_flag = true }

-- The timer starts anew, and stops where nothing is in flight; the queues are as they were.
pub record Restarted (s t : TcpSender) : Type 0 where
  pub time : t.time ≡ 0
  pub attempts : t.consecutive_retransmissions ≡ 0
  pub timeout : t.retransmission_timeout ≡ s.initial_retransmission_timeout
  pub stops : s.segments_outgoing ≡ [] → t.state ≡ stop
  pub goes_on : s.segments_outgoing ≢ [] → t.state ≡ s.state
  pub same_outgoing : t.segments_outgoing ≡ s.segments_outgoing
  pub same_out : t.segments_out ≡ s.segments_out

restart_timer-Restarted : (s : TcpSender) → Restarted s (restart_timer s)
unfolding restart_timer
restart_timer-Restarted s = record {
  time = refl;
  attempts = refl;
  timeout = refl;
  stops = λ e. rw e refl;
  goes_on = λ h. still s.segments_outgoing h;
  same_outgoing = refl;
  same_out = refl;
}
  where
    still : (q : List TcpSegment) → q ≢ [] → (if is_empty q then stop else s.state) ≡ s.state
    still [] h = absurd (h refl)
    still (seg ∷ segs) h = refl

-- What became of an acknowledgment that says something new.
pub record Acks (abs_ackno window : ℕ) (s s' : TcpSender) : Type 0 where
  pub cut : TcpSender
  pub filled : TcpSender
  pub drops : Drops abs_ackno (accepted window s) cut
  pub sends : Sends cut filled
  pub fills : fill_window cut ≡ some filled
  pub result : s' ≡ restart_timer filled
  pub restarts : Restarted filled s'

-- On a valid sender whose numbers stay below 2^62 and within 2^30 of what is acknowledged: an
-- acknowledgment of what was not sent is refused and changes nothing; one that says nothing new
-- only sets the window; any other never fails: it removes from the queue exactly the segments that
-- it covers whole, fills the window and restarts the timer.
pub ack_received-Acks :
    (s : TcpSender) (ackno : WrappingInt32) (window : ℕ)
    → Valid s
    → InRange s
    → ((s.next_seqno < unwrap ackno s.isn s.next_seqno)
        × (ack_received ackno window s ≡ some (false, s)))
      ⊎ ((unwrap ackno s.isn s.next_seqno ≤ s.recv_ackno)
          × (ack_received ackno window s ≡ some (true, record s { window_size = window })))
      ⊎ ((s.recv_ackno < unwrap ackno s.isn s.next_seqno)
          × (unwrap ackno s.isn s.next_seqno ≤ s.next_seqno)
          × (s' : TcpSender) × (ack_received ackno window s ≡ some (true, s'))
          × Acks (unwrap ackno s.isn s.next_seqno) window s s')
unfolding ack_received
ack_received-Acks s ackno window v range = elim (Bool-cases (ltb s.next_seqno abs_ackno)) [
  | inl unsent ↦ inl (ground arith, rw unsent)
  | inr sent ↦ elim (Bool-cases (leb abs_ackno s.recv_ackno)) [
    | inl old ↦ inr (inl (ground arith, rw (sent, old)))
    | inr fresh ↦
        let d : Drops abs_ackno start cut =
          drop_acked-Drops abs_ackno s.segments_outgoing start
            (record {
              word = v.word;
              stream = v.stream;
              chain = v.chain;
              counted = v.counted;
              ended = v.ended;
            })
            range (ground arith) refl in
        let (filled, e, a) = fill_window-Sends cut d.valid d.range in
        inr (
          inr (
            ground arith,
            ground arith,
            restart_timer filled,
            rw (sent, fresh, e),
            record {
              cut = cut;
              filled = filled;
              drops = d;
              sends = a;
              fills = e;
              result = refl;
              restarts = restart_timer-Restarted filled;
            },
          ))
  ]
]
  where
    abs_ackno : ℕ
    abs_ackno = unwrap ackno s.isn s.next_seqno

    start : TcpSender
    start = accepted window s

    cut : TcpSender
    cut = drop_acked abs_ackno s.segments_outgoing start
