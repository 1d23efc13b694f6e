-- ===== src/Transfer/Filling.antt =====
-- `fill_window` of libsponge/tcp_sender.cc queues pieces of the stream.
use cs.Prelude.{
  ℕ, ◌+◌, ◌-◌, ◌≤◌, ◌<◌, ◌≡◌, refl, sym, ap, ◌∙◌, subst, zero, suc, add64, Bool, true, false, ◌&&◌,
  ◌||◌, Option, none, some, List, [], ◌∷◌, ◌++◌, arith, length, take, drop, min, inl, inr,
  Bool-cases, ◌==◌, take-all, take-append_le, drop-append_ge,
}
use cs.Seqno.{WrappingInt32, wrap}
use cs.BufferList.Laws.{contents}
use cs.ByteStream.{ByteStream, eof}
use cs.Reassembler.Slice.{slice, take-slice, drop-slice}
use cs.Segment.{length_in_sequence_space}
use cs.Sender.{
  TcpSender, running, make_segment_and_send, numbered, room, with_fin, data_segment, send_data,
  fill_once, fill_loop, fill_window, max_payload_size, enough, window_of,
}
use cs.Sender.Flight.{
  bit, Chain, Chain-append, pending, InRange, Valid, Sends, Sends-refl, Sends-trans, InRange-Sends,
}
use cs.Sender.Round.{Taken, read-some, fill_once-Sends}
use cs.Sender.Fill.{fill_window_started}
use cs.Transfer.Pieces.{Piece, Pieces-append, Flows, Queued}

-- The front of a stretch, and the rest.
pub slice_front :
    (S : ℕ → ℕ) (i n : ℕ) (xs ys : List ℕ)
    → xs ++ ys ≡ slice S i n
    → length xs ≤ n
    → (xs ≡ slice S i (length xs)) × (ys ≡ slice S (i + length xs) (n - length xs))
slice_front S i n xs ys e h = (
  sym (take-all (length xs) xs (omega arith))
      ∙ sym (take-append_le (length xs) xs ys (omega arith))
      ∙ ap (take (length xs)) e
      ∙ take-slice S (length xs) i n h,
  sym (drop-append_ge (length xs) xs ys (omega arith) ∙ ap (λ k. drop k ys) none_left)
      ∙ ap (drop (length xs)) e
      ∙ drop-slice S (length xs) i n,
)
  where
    none_left : length xs - length xs ≡ 0
    none_left = omega arith

module _ (S : ℕ → ℕ) (isn : WrappingInt32) (w from : ℕ) where
  abbrev pub Good : TcpSender → Type 0
  Good s = Flows S isn w s × Queued S isn from s

  module _ (s : TcpSender) (rest : ByteStream) (n : ℕ) (got : List ℕ) (v : Valid s)
      (range : InRange s) (f : Flows S isn w s) (t : Taken s.stream rest n got)
      (few : n ≤ max_payload_size) where
    cut :
        (got ≡ slice S (w - s.stream.size) (length got))
        × (contents rest.stream_buffer
            ≡ slice S (w - s.stream.size + length got) (s.stream.size - length got))
    cut =
        slice_front S (w - s.stream.size) s.stream.size got (contents rest.stream_buffer)
          (t.joined ∙ f.held) (omega (arith, t.split))

    rest_held : contents rest.stream_buffer ≡ slice S (w - rest.size) rest.size
    rest_held =
        let i : w - s.stream.size + length got ≡ w - rest.size = omega (arith, t.split, f.within) in
        let k : s.stream.size - length got ≡ rest.size = omega (arith, t.split) in
        cut.1 ∙ ap (λ j. slice S j (s.stream.size - length got)) i ∙ ap (slice S (w - rest.size)) k

    -- Nothing follows the FIN.
    fin_last : s.fin_sent ≡ true → length_in_sequence_space (data_segment got (with_fin s rest)) ≡ 0
    fin_last sent = ground (arith, sent, v.ended, t.split)

    sent_piece :
        s.fin_sent ≡ false
        → Piece S isn s.next_seqno (numbered (data_segment got (with_fin s rest)) s)
    sent_piece open_now = record {
      after_syn = ground (arith, f.position, f.within, open_now);
      plain = refl;
      numbered = ap (λ k. wrap s.next_seqno k) f.same_isn;
      bytes =
          let i : w - s.stream.size ≡ s.next_seqno - 1 = ground (arith, f.position, open_now) in
          cut.0 ∙ ap (λ j. slice S j (length got)) i;
      short = omega (arith, t.most, few);
    }

    counts :
        length_in_sequence_space (data_segment got (with_fin s rest))
        ≡ length got + bit (with_fin s rest)
    counts = ground (arith, t.split, v.stream)

    nothing_sent :
        Queued S isn from s
        → length_in_sequence_space (data_segment got (with_fin s rest)) ≡ 0
        → Good (record s { stream = rest; fin_sent = s.fin_sent || with_fin s rest })
    nothing_sent q e = (
      record {
        same_isn = f.same_isn;
        started = f.started;
        position = ground (arith, f.position, counts, e, t.split);
        within = omega (arith, t.split, f.within);
        held = rest_held;
        outgoing = f.outgoing;
      },
      record { chain = q.chain; out = q.out },
    )

    open_still :
        0 < length_in_sequence_space (data_segment got (with_fin s rest)) → s.fin_sent ≡ false
    open_still filled = elim (Bool-cases s.fin_sent) [
      | inl sent ↦ absurd (omega (arith, fin_last sent, filled))
      | inr on ↦ on
    ]

    segment_sent :
        Queued S isn from s
        → 0 < length_in_sequence_space (data_segment got (with_fin s rest))
        → Good
            (record (make_segment_and_send
              (data_segment got (with_fin s rest))
              (record s { stream = rest; fin_sent = s.fin_sent || with_fin s rest })) {
                state = running;
              })
    unfolding make_segment_and_send Chain
    segment_sent q filled =
        let on = open_still filled in
        let p = sent_piece on in
        let moved : add64 s.next_seqno
              (length_in_sequence_space (data_segment got (with_fin s rest)))
            ≡ s.next_seqno + length_in_sequence_space (data_segment got (with_fin s rest)) =
          ground (arith, range.0, counts, t.split, on) in
        let link : Chain isn s.next_seqno (numbered (data_segment got (with_fin s rest)) s ∷ [])
            (add64 s.next_seqno (length_in_sequence_space (data_segment got (with_fin s rest)))) =
          (p.numbered, filled, sym moved) in
        (
          record {
            same_isn = f.same_isn;
            started = f.started;
            position = ground (arith, f.position, counts, moved, t.split, on);
            within = omega (arith, t.split, f.within);
            held = rest_held;
            outgoing =
                Pieces-append S isn _ _ s.segments_outgoing _
                  (subst (λ k. Chain k s.recv_ackno s.segments_outgoing s.next_seqno) f.same_isn
                    v.chain)
                  f.outgoing p;
          },
          record {
            chain = Chain-append isn _ _ _ s.segments_out _ q.chain link;
            out = Pieces-append S isn _ _ s.segments_out _ q.chain q.out p;
          },
        )

    send_data-Good : Queued S isn from s → Good (send_data got rest s).1
    unfolding send_data
    send_data-Good q =
        elim (Bool-cases (length_in_sequence_space (data_segment got (with_fin s rest)) == 0)) [
          | inl none_left ↦ rw none_left (nothing_sent q (ground arith))
          | inr filled ↦ rw filled (segment_sent q (ground arith))
        ]

  abbrev AfterOne : Option (Bool × TcpSender) → Type 0
  AfterOne none = Unit {0}
  AfterOne (some (b, s)) = Good s

  fill_once-Good :
      (window : ℕ) (s : TcpSender) → Valid s → InRange s → Good s → AfterOne (fill_once window s)
  unfolding fill_once
  fill_once-Good window s v range (f, q) =
      elim (Bool-cases ((room window s == 0) || (eof s.stream && s.fin_sent))) [
        | inl over ↦ rw over (f, q)
        | inr goes_on ↦
            let n : ℕ = min (room window s) max_payload_size in
            let (got, rest, e, t) = read-some s.stream n v.stream in
            rw (goes_on, e) (send_data-Good s rest n got v range f t (omega arith) q)
      ]

  fill_loop-Good :
      (rounds window : ℕ) (s : TcpSender)
      → Valid s
      → InRange s
      → pending s < rounds
      → Good s
      → (s' : TcpSender) × (fill_loop rounds window s ≡ some s') × Sends s s' × Good s'
  unfolding fill_loop
  fill_loop-Good zero window s v range h g = absurd (omega arith)
  fill_loop-Good (suc rounds) window s v range h g =
      let (b, s', e, a, o, c) = fill_once-Sends window s v range in
      let g' : Good s' = subst (λ r. AfterOne r) e (fill_once-Good window s v range g) in
      elim c [
        | inl over ↦ (s', rw (fill_loop, e, over), a, g')
        | inr (goes_on, fewer) ↦
            let (s'', e', a', g'') =
              fill_loop-Good rounds window s' a.valid (InRange-Sends s s' a range) (omega arith)
                g' in
            (s'', rw (fill_loop, e, goes_on, e'), Sends-trans s s' s'' a a', g'')
      ]

  -- After the handshake `fill_window` ends without an exception, and what it queues are pieces of the
  -- stream that follow each other.
  pub fill_window-Good :
      (s : TcpSender)
      → Valid s
      → InRange s
      → Good s
      → (s' : TcpSender) × (fill_window s ≡ some s') × Sends s s' × Good s'
  unfolding fill_window
  fill_window-Good s v range g = elim (Bool-cases s.old_syn_flag) [
    | inr unacked ↦ (s, rw (g.0.started, unacked), Sends-refl s v, g)
    | inl started ↦
        let (s', e, a, g') =
          fill_loop-Good (enough s) (window_of s) s v range (ground (arith, g.0.started)) g in
        (s', fill_window_started s g.0.started started ∙ e, a, g')
  ]
