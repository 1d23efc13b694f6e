-- ===== src/Sender/Round.antt =====
-- One round of the loop in `fill_window` (libsponge/tcp_sender.cc).
use cs.Prelude.{
  ℕ, ◌⊎◌, ◌+◌, ◌≤◌, ◌<◌, ◌≡◌, refl, sym, ap, Bool, true, false, ◌&&◌, ◌||◌, not, some, List, [],
  ◌∷◌, ◌++◌, append-nil, arith, length, take, drop, min, length-take, length-drop, take-append-drop,
  empty_append, Bool-cases, inl, inr, ◌==◌,
}
use cs.BufferList.Laws.{contents}
use cs.ByteStream.{ByteStream, eof}
use cs.ByteStream
use cs.ByteStream.Fifo
use cs.ByteStream.Valid.{IsValid, pop_output-Simulated, peek_output_lem}
use cs.Segment.{TcpSegment, length_in_sequence_space}
use cs.Sender.{
  TcpSender, running, make_segment_and_send, numbered, room, with_fin, data_segment, send_data,
  fill_once, max_payload_size,
}
use cs.Sender.Flight.{
  bit, Chain, payloads, Chain-append, Chain-le, pending, InRange, Valid, Sends, Sends-refl,
}

-- What one round of the loop takes from the stream, and why it was the last.
pub record Round (window : ℕ) (s : TcpSender) (b : Bool) (s' : TcpSender) : Type 0 where
  pub taken : ℕ
  pub fits : taken ≤ room window s
  pub held : taken ≤ s.stream.size
  pub advances : s'.next_seqno + bit (not s'.fin_sent) ≡ s.next_seqno + taken + bit (not s.fin_sent)
  pub stops : (b ≡ true) ⊎ (room window s ≡ 0) ⊎ (s'.stream.size ≡ 0)

-- A read of a valid stream.
pub record Taken (s rest : ByteStream) (n : ℕ) (got : List ℕ) : Type 0 where
  pub valid : IsValid rest
  pub joined : got ++ contents rest.stream_buffer ≡ contents s.stream_buffer
  pub split : length got + rest.size ≡ s.size
  pub most : length got ≡ min n s.size
  pub ended : rest.if_end ≡ s.if_end

pub read-some :
    (s : ByteStream) (n : ℕ)
    → IsValid s
    → (got : List ℕ) × (rest : ByteStream) × (ByteStream.read n s ≡ some (got, rest))
      × Taken s rest n got
unfolding ByteStream.read Fifo.step
read-some s n v =
    let (rest, e, m) = pop_output-Simulated s n v in
    let got : ByteStream.peek_output n s ≡ take n (contents s.stream_buffer) =
      peek_output_lem s n v in
    let left : contents rest.stream_buffer ≡ drop n (contents s.stream_buffer) =
      sym (ap (λ q. q.1.queue) m.same) in
    (
      ByteStream.peek_output n s,
      rest,
      rw (ByteStream.read, e),
      record {
        valid = m.valid;
        joined = rw (got, left) (take-append-drop n (contents s.stream_buffer));
        split = omega (
          arith,
          ap length got,
          ap length left,
          length-take n (contents s.stream_buffer),
          length-drop n (contents s.stream_buffer),
          v.sized,
          m.valid.sized,
        );
        most = omega (arith, ap length got, length-take n (contents s.stream_buffer), v.sized);
        ended = sym (ap (λ q. q.1.ended) m.same);
      },
    )

module _ (s : TcpSender) (rest : ByteStream) (n : ℕ) (got : List ℕ) (v : Valid s)
    (range : InRange s) (t : Taken s.stream rest n got) where
  read_on : TcpSender
  read_on = record s { stream = rest; fin_sent = s.fin_sent || with_fin s rest }

  seg : TcpSegment
  seg = data_segment got (with_fin s rest)

  sent_on : TcpSender
  sent_on = record (make_segment_and_send seg read_on) { state = running }

  still_ended : (read_on.fin_sent && not (eof rest)) ≡ false
  unfolding read_on
  still_ended = ground (arith, v.ended, t.split, t.ended)

  counts : length_in_sequence_space seg ≡ length got + bit (with_fin s rest)
  unfolding seg
  counts = ground (arith, t.split, v.stream)

  pays : length got + bit (with_fin s rest) + pending read_on ≡ pending s
  unfolding read_on
  pays = ground (arith, t.split)

  less : 0 < length_in_sequence_space seg → pending read_on < pending s
  less filled = omega (arith, pays, counts)

  nothing_sent : length_in_sequence_space seg ≡ 0 → Sends s read_on
  unfolding read_on Chain payloads
  nothing_sent e = record {
    sent = [];
    valid = record {
      word = v.word;
      stream = t.valid;
      chain = v.chain;
      counted = v.counted;
      ended = still_ended;
    };
    outgoing = sym (append-nil s.segments_outgoing);
    out = sym (append-nil s.segments_out);
    chain = refl;
    bytes = empty_append got (omega (arith, counts, e)) t.joined;
    all = omega (arith, pays, counts, e);
    same_isn = refl;
    same_ackno = refl;
    same_window = refl;
  }

  segment_sent : 0 < length_in_sequence_space seg → Sends s sent_on
  unfolding sent_on make_segment_and_send seg read_on Chain payloads
  segment_sent filled =
      let moved : sent_on.next_seqno ≡ s.next_seqno + length_in_sequence_space seg =
        omega (arith, range.0, pays, counts) in
      let link : Chain s.isn s.next_seqno (numbered seg read_on ∷ []) sent_on.next_seqno =
        (refl, filled, sym moved) in
      record {
        sent = numbered seg read_on ∷ [];
        valid = record {
          word = v.word;
          stream = t.valid;
          chain = Chain-append s.isn _ _ _ s.segments_outgoing _ v.chain link;
          counted = omega (
            arith,
            moved,
            v.counted,
            range.0,
            pays,
            counts,
            Chain-le s.isn _ _ s.segments_outgoing v.chain,
          );
          ended = still_ended;
        };
        outgoing = refl;
        out = refl;
        chain = link;
        bytes = rw append-nil t.joined;
        all = omega (arith, moved, pays, counts);
        same_isn = refl;
        same_ackno = refl;
        same_window = refl;
      }

  -- Either nothing goes out and the loop ends, or one segment does and less is pending.
  send_data-Sends :
      Sends s (send_data got rest s).1
      × (((send_data got rest s).0 ≡ false)
          ⊎ ((send_data got rest s).0 ≡ true) × (pending (send_data got rest s).1 < pending s))
  unfolding send_data seg sent_on read_on make_segment_and_send
  send_data-Sends = elim (Bool-cases (length_in_sequence_space seg == 0)) [
    | inl none_left ↦ (rw none_left (nothing_sent (ground arith)), inl (rw none_left))
    | inr filled ↦
        (rw filled (segment_sent (ground arith)), inr (rw filled, rw filled (less (ground arith))))
  ]

  module _ (window : ℕ) (limited : n ≡ min (room window s) max_payload_size) where
    nothing_sent-Round : length_in_sequence_space seg ≡ 0 → Round window s false read_on
    unfolding read_on
    nothing_sent-Round e = record {
      taken = 0;
      fits = omega arith;
      held = omega arith;
      advances = omega (arith, pays, counts, e, t.split);
      stops = elim (Bool-cases (room window s == 0)) [
        | inl full ↦ inr (inl (ground arith))
        | inr open_now ↦ inr (inr (ground (arith, t.most, t.split, counts, e, limited)))
      ];
    }

    segment_sent-Round : Round window s true sent_on
    unfolding sent_on make_segment_and_send seg read_on
    segment_sent-Round = record {
      taken = length got;
      fits = omega (arith, t.most, limited);
      held = omega (arith, t.most);
      advances = omega (arith, range.0, pays, counts, t.split);
      stops = inl refl;
    }

    send_data-Round : Round window s (send_data got rest s).0 (send_data got rest s).1
    unfolding send_data seg sent_on read_on make_segment_and_send
    send_data-Round = elim (Bool-cases (length_in_sequence_space seg == 0)) [
      | inl none_left ↦ rw none_left (nothing_sent-Round (ground arith))
      | inr filled ↦ rw filled segment_sent-Round
    ]

over-Round :
    (window : ℕ) (s : TcpSender)
    → ((room window s ≡ 0) ⊎ (s.stream.size ≡ 0))
    → Round window s false s
over-Round window s e = record {
  taken = 0;
  fits = omega arith;
  held = omega arith;
  advances = omega arith;
  stops = inr e;
}

-- A round does not throw, it only sends, and the loop ends or less is left to send.
pub fill_once-Sends :
    (window : ℕ) (s : TcpSender)
    → Valid s
    → InRange s
    → (b : Bool) × (s' : TcpSender) × (fill_once window s ≡ some (b, s'))
      × Sends s s'
      × Round window s b s'
      × ((b ≡ false) ⊎ (b ≡ true) × (pending s' < pending s))
unfolding fill_once
fill_once-Sends window s v range =
    elim (Bool-cases ((room window s == 0) || (eof s.stream && s.fin_sent))) [
      | inl over ↦
          (false, s, rw over, Sends-refl s v, over-Round window s (ground (arith, over)), inl refl)
      | inr goes_on ↦
          let n : ℕ = min (room window s) max_payload_size in
          let (got, rest, e, t) = read-some s.stream n v.stream in
          let r = send_data-Sends s rest n got v range t in
          (
            (send_data got rest s).0,
            (send_data got rest s).1,
            rw (goes_on, e),
            r.0,
            send_data-Round s rest n got v range t window refl,
            r.1,
          )
    ]
