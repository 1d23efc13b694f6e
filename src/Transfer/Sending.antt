-- ===== src/Transfer/Sending.antt =====
-- `fill_window` and `ack_received` of libsponge/tcp_sender.cc after the handshake.
use cs.Prelude.{
  ℕ, ◌+◌, ◌≡◌, refl, sym, ap, ◌∙◌, subst, Bool, true, false, some, List, [], ◌∷◌, ◌++◌, arith, inl,
  inr, Bool-cases, leb, ltb,
}
use cs.Seqno.{WrappingInt32, unwrap}
use cs.Segment.{TcpSegment, length_in_sequence_space}
use cs.Sender.{TcpSender, fill_window, drop_acked, ack_received, restart_timer}
use cs.Sender.Flight.{Chain, InRange, Valid, InRange-Sends}
use cs.Sender.Acked.{Drops, popped, accepted, drop_acked-Drops}
use cs.Transfer.Pieces.{Pieces, Flows, Queued}
use cs.Transfer.Filling.{fill_window-Good}

module _ (S : ℕ → ℕ) (isn : WrappingInt32) (w : ℕ) where
  -- A sender between two calls: nothing is queued.
  pub record Sound (s : TcpSender) : Type 0 where
    pub valid : Valid s
    pub range : InRange s
    pub flows : Flows S isn w s

  -- A sender after a call, whose queue starts at the number `from`.
  pub record Sending (from : ℕ) (s : TcpSender) : Type 0 where
    pub sound : Sound s
    pub out : Pieces S isn from s.segments_out

  module _ (s : TcpSender) (v : Valid s) (range : InRange s) (f : Flows S isn w s)
      (empty : s.segments_out ≡ []) where
    nothing-Queued : Queued S isn s.next_seqno s
    unfolding Chain
    nothing-Queued = record {
      chain = subst (λ q. Chain isn s.next_seqno q s.next_seqno) (sym empty) refl;
      out = subst (λ q. Pieces S isn s.next_seqno q) (sym empty) tt;
    }

    filled-Sending :
        (s' : TcpSender) × (fill_window s ≡ some s')
        × Sound s'
        × Pieces S isn s.next_seqno s'.segments_out
    filled-Sending =
        let (s', e, a, g) = fill_window-Good S isn w s.next_seqno s v range (f, nothing-Queued) in
        (
          s',
          e,
          record { valid = a.valid; range = InRange-Sends s s' a range; flows = g.0 },
          g.1.out,
        )

  -- What the rest of a sender says is of no account.
  pub same-Sound :
      (s t : TcpSender)
      → t.isn ≡ s.isn
      → t.syn_flag ≡ s.syn_flag
      → t.next_seqno ≡ s.next_seqno
      → t.stream ≡ s.stream
      → t.fin_sent ≡ s.fin_sent
      → t.recv_ackno ≡ s.recv_ackno
      → t.segments_outgoing ≡ s.segments_outgoing
      → t.bytes_in_flight ≡ s.bytes_in_flight
      → Sound s
      → Sound t
  same-Sound s t i y n b fin r o c g = record {
    valid = record {
      word = rw i g.valid.word;
      stream = rw b g.valid.stream;
      chain = rw (i, n, r, o) g.valid.chain;
      counted = rw (n, r, c) g.valid.counted;
      ended = rw (b, fin) g.valid.ended;
    };
    range = rw (n, b, fin, y, r) g.range;
    flows = record {
      same_isn = i ∙ g.flows.same_isn;
      started = y ∙ g.flows.started;
      position = rw (n, b, fin) g.flows.position;
      within = rw b g.flows.within;
      held = rw b g.flows.held;
      outgoing = rw (r, o) g.flows.outgoing;
    };
  }

  pub flushed : (s : TcpSender) → Sound s → Sound (record s { segments_out = [] })
  flushed s = same-Sound s (record s { segments_out = [] }) refl refl refl refl refl refl refl refl

  -- Filling the window of a sender with nothing queued.
  pub fill_window-Sending :
      (s : TcpSender)
      → Sound s
      → s.segments_out ≡ []
      → (s' : TcpSender) × (fill_window s ≡ some s') × Sending s.next_seqno s'
  fill_window-Sending s g empty =
      let (s', e, g', p) = filled-Sending s g.valid g.range g.flows empty in
      (s', e, record { sound = g'; out = p })

  -- The queue without its front.
  Pieces-rest :
      (n m : ℕ) (gone rest : List TcpSegment)
      → Chain isn n gone m
      → Pieces S isn n (gone ++ rest)
      → Pieces S isn m rest
  unfolding Chain
  Pieces-rest n m [] rest e p = subst (λ k. Pieces S isn k rest) e p
  Pieces-rest n m (seg ∷ gone) rest (at, filled, c) p =
      Pieces-rest (n + length_in_sequence_space seg) m gone rest c p.1

  drop_acked_keeps :
      (abs_ackno : ℕ) (segs : List TcpSegment) (s : TcpSender)
      → let t : TcpSender = drop_acked abs_ackno segs s in
        (t.isn ≡ s.isn)
        × (t.syn_flag ≡ s.syn_flag)
        × (t.next_seqno ≡ s.next_seqno)
        × (t.stream ≡ s.stream)
        × (t.fin_sent ≡ s.fin_sent)
  unfolding drop_acked
  drop_acked_keeps abs_ackno [] s = (refl, refl, refl, refl, refl)
  drop_acked_keeps abs_ackno (seg ∷ segs) s =
      elim (Bool-cases (leb (popped abs_ackno seg segs s).recv_ackno abs_ackno)) [
        | inl whole ↦ rw whole (drop_acked_keeps abs_ackno segs (popped abs_ackno seg segs s))
        | inr part ↦ rw part (refl, refl, refl, refl, refl)
      ]

  cut-Flows :
      (abs_ackno : ℕ) (s t : TcpSender)
      → t ≡ drop_acked abs_ackno s.segments_outgoing s
      → Drops abs_ackno s t
      → Flows S isn w s
      → Flows S isn w t
  cut-Flows abs_ackno s t e d f =
      let (i, y, n, b, fin) = drop_acked_keeps abs_ackno s.segments_outgoing s in
      record {
        same_isn = ap (λ u. u.isn) e ∙ i ∙ f.same_isn;
        started = ap (λ u. u.syn_flag) e ∙ y ∙ f.started;
        position = rw (e, n, b, fin) f.position;
        within = rw (e, b) f.within;
        held = rw (e, b) f.held;
        outgoing =
            Pieces-rest s.recv_ackno t.recv_ackno d.gone t.segments_outgoing
              (subst (λ k. Chain k s.recv_ackno d.gone t.recv_ackno) f.same_isn d.chain)
              (subst (λ q. Pieces S isn s.recv_ackno q) d.split f.outgoing);
      }

  -- An acknowledgment, whatever it says, does not make the call fail, and what it lets out are the
  -- pieces that come next.
  pub ack_received-Sending :
      (s : TcpSender) (ackno : WrappingInt32) (window : ℕ)
      → Sound s
      → s.segments_out ≡ []
      → (b : Bool) × (s' : TcpSender) × (ack_received ackno window s ≡ some (b, s'))
        × Sending s.next_seqno s'
  unfolding ack_received restart_timer
  ack_received-Sending s ackno window g empty = elim (Bool-cases (ltb s.next_seqno abs_ackno)) [
    | inl unsent ↦ (false, s, rw unsent, record { sound = g; out = subst Out (sym empty) tt })
    | inr sent ↦ elim (Bool-cases (leb abs_ackno s.recv_ackno)) [
      | inl old ↦ (
        true,
        record s { window_size = window },
        rw (sent, old),
        record {
          sound =
              same-Sound s (record s { window_size = window }) refl refl refl refl refl refl refl
                refl g;
          out = subst Out (sym empty) tt;
        },
      )
      | inr fresh ↦
          let d : Drops abs_ackno start cut =
            drop_acked-Drops abs_ackno s.segments_outgoing start start-Sound.valid start-Sound.range
              (ground arith) refl in
          let (filled, e, g', p) =
            filled-Sending cut d.valid d.range
              (cut-Flows abs_ackno start cut refl d start-Sound.flows) (d.out ∙ empty) in
          (
            true,
            restart_timer filled,
            rw (sent, fresh, e),
            record {
              sound =
                  same-Sound filled (restart_timer filled) refl refl refl refl refl refl refl refl
                    g';
              out = subst (λ n. Pieces S isn n filled.segments_out) d.same_next p;
            },
          )
    ]
  ]
    where
      abs_ackno : ℕ
      abs_ackno = unwrap ackno s.isn s.next_seqno

      Out : List TcpSegment → Type 0
      Out = Pieces S isn s.next_seqno

      start : TcpSender
      start = accepted window s

      cut : TcpSender
      cut = drop_acked abs_ackno s.segments_outgoing start

      -- The window and the flag are of no account.
      start-Sound : Sound start
      start-Sound = same-Sound s start refl refl refl refl refl refl refl refl g
