-- ===== src/Transfer/Timing.antt =====
-- What the timer of libsponge/tcp_sender.cc sends again.
use cs.Prelude.{
  ℕ, ◌≡◌, refl, sym, subst, List, [], ◌∷◌, ◌++◌, inl, inr, Bool-cases, leb, add64, add32, mul64,
}
use cs.Seqno.{WrappingInt32}
use cs.Segment.{TcpSegment}
use cs.Sender.{TcpSender, stop, tick, send_again}
use cs.Sender.Timer.{state_cases, tick_stopped, tick_early, tick_expired}
use cs.Transfer.Pieces.{Pieces}
use cs.Transfer.Sending.{Sound, Sending, same-Sound}

module _ (S : ℕ → ℕ) (isn : WrappingInt32) (w : ℕ) where
  abbrev later : TcpSender → TcpSender
  later s = record s {
    time = 0;
    consecutive_retransmissions = add32 s.consecutive_retransmissions 1;
    retransmission_timeout = mul64 s.retransmission_timeout 2;
  }

  send_again-Sending :
      (segs : List TcpSegment) (s : TcpSender)
      → s.segments_outgoing ≡ segs
      → Sound S isn w s
      → s.segments_out ≡ []
      → Sending S isn w s.recv_ackno (send_again segs s)
  send_again-Sending [] s e g empty = record {
    sound =
        same-Sound S isn w s (record s { state = stop }) refl refl refl refl refl refl refl refl g;
    out = subst (Pieces S isn s.recv_ackno) (sym empty) tt;
  }
  send_again-Sending (seg ∷ segs) s e g empty = record {
    sound =
        same-Sound S isn w s (record s { segments_out = s.segments_out ++ seg ∷ [] }) refl refl refl
          refl refl refl refl refl g;
    out =
        subst (λ q. Pieces S isn s.recv_ackno (q ++ seg ∷ [])) (sym empty)
          ((subst (Pieces S isn s.recv_ackno) e g.flows.outgoing).0, tt);
  }

  -- Time that passes sends the oldest segment again, if anything.
  pub tick-Sending :
      (ms : ℕ) (s : TcpSender)
      → Sound S isn w s
      → s.segments_out ≡ []
      → Sending S isn w s.recv_ackno (tick ms s)
  tick-Sending ms s g empty = elim (state_cases s.state) [
    | inr off ↦
        subst (Sending S isn w s.recv_ackno) (sym (tick_stopped ms s off))
          (record { sound = g; out = subst (Pieces S isn s.recv_ackno) (sym empty) tt })
    | inl on ↦ elim (Bool-cases (leb s.retransmission_timeout (add64 s.time ms))) [
      | inr early ↦ subst (Sending S isn w s.recv_ackno) (sym (tick_early ms s on early)) (record {
        sound =
            same-Sound S isn w s (record s { time = add64 s.time ms }) refl refl refl refl refl refl
              refl refl g;
        out = subst (Pieces S isn s.recv_ackno) (sym empty) tt;
      })
      | inl late ↦ subst (Sending S isn w s.recv_ackno) (sym (tick_expired ms s on late)) (
          send_again-Sending s.segments_outgoing (later s) refl
            (same-Sound S isn w s (later s) refl refl refl refl refl refl refl refl g) empty)
    ]
  ]
