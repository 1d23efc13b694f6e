-- ===== src/Sender/Timer.antt =====
-- The retransmission timer (`tick` of libsponge/tcp_sender.cc).
use cs.Prelude.{
  ℕ, zero, suc, ◌+◌, ◌*◌, ◌^◌, ◌≤◌, ◌<◌, ◌≡◌, refl, ◌∙◌, ap, true, false, List, [], ◌∷◌, ◌++◌,
  append_assoc, append-nil, arith, leb, add64, add32, mul64, sym, subst, ◌⊎◌, inl, inr,
  if◌then◌else◌,
}
use cs.Segment.{TcpSegment}
use cs.Sender.{TcpSender, TcpState, running, stop, tick, timed_out, send_again}

pub repeat : ℕ → TcpSegment → List TcpSegment
repeat zero seg = []
repeat (suc n) seg = seg ∷ repeat n seg

-- The timer runs out `n` times in a row.
unfoldable pub expire : ℕ → TcpSender → TcpSender
expire zero s = s
expire (suc n) s = expire n (tick s.retransmission_timeout s)

pub state_cases : (t : TcpState) → (t ≡ running) ⊎ (t ≡ stop)
state_cases running = inl refl
state_cases stop = inr refl

-- The clock is set to `t` in a running sender.
abbrev at_time : ℕ → TcpSender → TcpSender
at_time t s =
    let s' : TcpSender = record s { time = t } in
    if leb s.retransmission_timeout t then timed_out s' else s'

tick_running :
    (ms : ℕ) (s : TcpSender) → s.state ≡ running → tick ms s ≡ at_time (add64 s.time ms) s
unfolding tick
tick_running ms s on = rw on

pub tick_stopped : (ms : ℕ) (s : TcpSender) → s.state ≡ stop → tick ms s ≡ s
unfolding tick
tick_stopped ms s off = rw off

pub tick_early :
    (ms : ℕ) (s : TcpSender)
    → s.state ≡ running
    → leb s.retransmission_timeout (add64 s.time ms) ≡ false
    → tick ms s ≡ record s { time = add64 s.time ms }
tick_early ms s on early = tick_running ms s on ∙ rw early

pub tick_expired :
    (ms : ℕ) (s : TcpSender)
    → s.state ≡ running
    → leb s.retransmission_timeout (add64 s.time ms) ≡ true
    → tick ms s ≡ timed_out (record s { time = add64 s.time ms })
tick_expired ms s on late = tick_running ms s on ∙ rw late

abbrev pub again : TcpSegment → TcpSender → TcpSender
again seg s = record s {
  segments_out = s.segments_out ++ seg ∷ [];
  consecutive_retransmissions = add32 s.consecutive_retransmissions 1;
  retransmission_timeout = mul64 s.retransmission_timeout 2;
  time = 0;
}

-- The time is up: the oldest segment goes out again.
pub tick_late :
    (ms : ℕ) (s : TcpSender) (seg : TcpSegment) (segs : List TcpSegment)
    → s.state ≡ running
    → leb s.retransmission_timeout (add64 s.time ms) ≡ true
    → s.segments_outgoing ≡ seg ∷ segs
    → tick ms s ≡ again seg s
tick_late ms s seg segs on late q =
    tick_running ms s on
    ∙ rw late (
        ap
          (λ q'. send_again q' (record s {
            consecutive_retransmissions = add32 s.consecutive_retransmissions 1;
            retransmission_timeout = mul64 s.retransmission_timeout 2;
            time = 0;
          }))
          q)

-- Time that passes in two steps, of which the first does not reach the timeout, has the effect of
-- one step, while the clock does not wrap.
pub tick_add :
    (s : TcpSender) (a b : ℕ)
    → s.time + a < s.retransmission_timeout
    → s.time + a + b < 2 ^ 64
    → tick b (tick a s) ≡ tick (a + b) s
unfolding tick
tick_add s a b early small = elim (state_cases s.state) [
  | inr off ↦
      ap (tick b) (tick_stopped a s off) ∙ tick_stopped b s off ∙ sym (tick_stopped (a + b) s off)
  | inl on ↦
      let sum : add64 (add64 s.time a) b ≡ add64 s.time (a + b) = omega arith in
      ap (tick b) (tick_early a s on (ground arith))
      ∙ tick_running b (record s { time = add64 s.time a }) on
      ∙ ap (λ t. at_time t s) sum
      ∙ sym (tick_running (a + b) s on)
]

pow_pos : (n : ℕ) → 1 ≤ 2 ^ n
pow_pos zero = omega arith
pow_pos (suc n) = grind (arith, pow_pos n)

pow_suc : (t n : ℕ) → t * 2 ^ suc n ≡ t * 2 * 2 ^ n
pow_suc t n = grind arith

le_mul : (t n : ℕ) → t ≤ t * 2 ^ n
le_mul t n = grind (arith, pow_pos n)

-- With segments in flight and the clock at 0, `n` timeouts in a row send the oldest segment `n`
-- times, count `n` retransmissions and multiply the timeout by 2^n, while neither number wraps;
-- the segments in flight stay.
pub expire_lem :
    (n : ℕ) (s : TcpSender) (seg : TcpSegment) (segs : List TcpSegment)
    → s.state ≡ running
    → s.time ≡ 0
    → s.segments_outgoing ≡ seg ∷ segs
    → s.retransmission_timeout * 2 ^ n < 2 ^ 64
    → s.consecutive_retransmissions + n < 2 ^ 32
    → ((expire n s).segments_out ≡ s.segments_out ++ repeat n seg)
      × ((expire n s).retransmission_timeout ≡ s.retransmission_timeout * 2 ^ n)
      × ((expire n s).consecutive_retransmissions ≡ s.consecutive_retransmissions + n)
      × ((expire n s).segments_outgoing ≡ s.segments_outgoing)
unfolding expire repeat
expire_lem zero s seg segs on start q small few =
    (sym (append-nil s.segments_out), omega arith, omega arith, refl)
expire_lem (suc n) s seg segs on start q small few =
    let one : 1 ≤ 2 ^ n = pow_pos n in
    let double : s.retransmission_timeout * 2 ^ suc n ≡ s.retransmission_timeout * 2 * 2 ^ n =
      pow_suc s.retransmission_timeout n in
    let least : s.retransmission_timeout * 2 ≤ s.retransmission_timeout * 2 * 2 ^ n =
      le_mul (s.retransmission_timeout * 2) n in
    let late : leb s.retransmission_timeout (add64 s.time s.retransmission_timeout) ≡ true =
      ground (arith, start, least, double, small) in
    let e : expire (suc n) s ≡ expire n (again seg s) =
      ap (expire n) (tick_late s.retransmission_timeout s seg segs on late q) in
    let wide : mul64 s.retransmission_timeout 2 ≡ s.retransmission_timeout * 2 =
      omega (arith, least, double, small) in
    let counted : add32 s.consecutive_retransmissions 1 ≡ s.consecutive_retransmissions + 1 =
      omega (arith, few) in
    let (o, t, c, g) =
      expire_lem n (again seg s) seg segs on refl q
        (subst (λ k. k * 2 ^ n < 2 ^ 64) (sym wide) (omega (arith, double, small)))
        (omega (arith, few, counted)) in
    (
      ap (λ u. u.segments_out) e ∙ o ∙ append_assoc s.segments_out (seg ∷ []) (repeat n seg),
      ap (λ u. u.retransmission_timeout) e ∙ t ∙ ap (λ k. k * 2 ^ n) wide ∙ sym double,
      ap (λ u. u.consecutive_retransmissions) e ∙ omega (arith, c, counted),
      ap (λ u. u.segments_outgoing) e ∙ g,
    )
