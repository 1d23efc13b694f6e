-- ===== src/Sender/Window.antt =====
-- How far `fill_window` of libsponge/tcp_sender.cc goes beyond the peer's window.
use cs.Prelude.{ℕ, zero, suc, ◌+◌, ◌^◌, ◌≤◌, ◌<◌, ◌≡◌, ◌∙◌, inl, inr, Bool, true, not, some, arith}
use cs.Sender.{TcpSender, fill_loop, fill_window, window_of, enough}
use cs.Sender.Flight.{bit, Chain-le, pending, InRange, Valid, Sends, InRange-Sends}
use cs.Sender.Round.{Round, fill_once-Sends}
use cs.Sender.Fill.{fill_window_started}

-- What is sent, with a FIN counted in advance, lies in the window but for one number.
abbrev InWindow : ℕ → TcpSender → Type 0
InWindow window s = s.next_seqno + bit (not s.fin_sent) ≤ s.recv_ackno + window + 1

Round-within :
    (window : ℕ) (s s' : TcpSender) (b : Bool)
    → window < 2 ^ 16
    → Valid s
    → InRange s
    → Sends s s'
    → Round window s b s'
    → InWindow window s
    → InWindow window s'
Round-within window s s' b small v (all, near) a o h = ground (
  arith,
  o.fits,
  o.held,
  o.advances,
  v.ended,
  a.same_ackno,
  Chain-le s.isn _ _ s.segments_outgoing v.chain,
)

fill_loop_within :
    (rounds window : ℕ) (s : TcpSender)
    → window < 2 ^ 16
    → Valid s
    → InRange s
    → pending s < rounds
    → InWindow window s
    → (s' : TcpSender) × (fill_loop rounds window s ≡ some s')
      × (s'.recv_ackno ≡ s.recv_ackno)
      × InWindow window s'
unfolding fill_loop
fill_loop_within zero window s small v range h inside = absurd (omega arith)
fill_loop_within (suc rounds) window s small v range h inside =
    let (b, s', e, a, o, c) = fill_once-Sends window s v range in
    let inside' : InWindow window s' = Round-within window s s' b small v range a o inside in
    elim c [
      | inl over ↦ (s', rw (fill_loop, e, over), a.same_ackno, inside')
      | inr (goes_on, fewer) ↦
          let (s'', e', r, i) =
            fill_loop_within rounds window s' small a.valid (InRange-Sends s s' a range)
              (omega arith) inside' in
          (s'', rw (fill_loop, e, goes_on, e'), r ∙ a.same_ackno, i)
    ]

-- A started valid sender, with numbers in range, whose segments in flight lie in the peer's window, counted as 1 where it is 0,
-- keeps them there when it fills the window, but that a FIN may lie one number beyond.
pub fill_window_within :
    (s : TcpSender)
    → Valid s
    → InRange s
    → s.syn_flag ≡ true
    → s.old_syn_flag ≡ true
    → s.window_size < 2 ^ 16
    → s.next_seqno ≤ s.recv_ackno + window_of s
    → (s' : TcpSender) × (fill_window s ≡ some s')
      × (s'.recv_ackno ≡ s.recv_ackno)
      × (s'.next_seqno ≤ s'.recv_ackno + window_of s + bit s'.fin_sent)
fill_window_within s v range sent started small inside =
    let (s', e, r, i) =
      fill_loop_within (enough s) (window_of s) s (ground arith) v range (ground (arith, sent))
        (ground arith) in
    (s', fill_window_started s sent started ∙ e, r, ground (arith, i, r))

fill_loop_overshoots :
    (rounds window : ℕ) (s : TcpSender)
    → Valid s
    → InRange s
    → pending s < rounds
    → s.recv_ackno + window < s.next_seqno
    → (s' : TcpSender) × (fill_loop rounds window s ≡ some s') × (s'.stream.size ≡ 0)
unfolding fill_loop
fill_loop_overshoots zero window s v range h past = absurd (omega arith)
fill_loop_overshoots (suc rounds) window s v range h past =
    let (b, s', e, a, o, c) = fill_once-Sends window s v range in
    elim c [
      | inl over ↦ (s', rw (fill_loop, e, over), ground (arith, o.stops, over, range.1, range.0))
      | inr (goes_on, fewer) ↦
          let (s'', e', z) =
            fill_loop_overshoots rounds window s' a.valid (InRange-Sends s s' a range) (omega arith)
              (omega (arith, a.same_ackno, Chain-le s.isn _ _ a.sent a.chain)) in
          (s'', rw (fill_loop, e, goes_on, e'), z)
    ]

-- A started valid sender, with numbers in range, that has more in flight than the peer's window, which may have shrunk, sends
-- all that its stream holds, since what is left of the window wraps around below 0.
pub fill_window_overshoots :
    (s : TcpSender)
    → Valid s
    → InRange s
    → s.syn_flag ≡ true
    → s.old_syn_flag ≡ true
    → s.recv_ackno + window_of s < s.next_seqno
    → (s' : TcpSender) × (fill_window s ≡ some s') × (s'.stream.size ≡ 0)
fill_window_overshoots s v range sent started past =
    let (s', e, z) =
      fill_loop_overshoots (enough s) (window_of s) s v range (ground (arith, sent)) past in
    (s', fill_window_started s sent started ∙ e, z)
