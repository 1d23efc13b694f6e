-- ===== src/Connection/Closing.antt =====
-- How a connection ends with too many retransmissions (`tick` of libsponge/tcp_connection.cc).
use cs.Prelude.{
  ℕ, ◌+◌, ◌^◌, ◌≤◌, ◌<◌, ◌≡◌, refl, sym, ap, ◌∙◌, Bool, true, false, List, [], ◌∷◌, ◌++◌, subst,
  arith, ltb, if◌then◌else◌, add64,
}
use cs.ByteStream.{set_error}
use cs.Segment.{TcpSegment}
use cs.Sender.{TcpSender, running}
use cs.Sender.Timer.{again, tick_late}
use cs.Connection.{
  TcpConnection, set_ack_and_window, pop, fail, retransmit, max_retx_attempts, half_close, lingered,
  tick,
}

-- Both streams have failed, and the connection is not active.
pub record Dead (c : TcpConnection) : Type 0 where
  pub inactive : c.if_active ≡ false
  pub inbound : c.receiver.reassembler.output.error ≡ true
  pub outbound : c.sender.stream.error ≡ true

abbrev pub rst_of : TcpSegment → TcpSegment
rst_of seg = record seg { header = record seg.header { rst = true } }

-- The outcome where the call ends the connection, with what is sent and what stays queued.
pub record Ends (c c' : TcpConnection) (last : List TcpSegment) : Type 0 where
  pub dead : Dead c'
  pub out : c'.segments_out ≡ c.segments_out ++ last
  pub dropped : c'.sender.segments_out ≡ []

-- Time passes in a connection whose sender then is `s`.
abbrev waited : ℕ → TcpSender → TcpConnection → TcpConnection
waited ms s c = record c {
  time_since_last_segment_received = add64 c.time_since_last_segment_received ms;
  sender = s;
}

closed_if :
    (b : Bool) (c : TcpConnection)
    → c.if_active ≡ false
    → (if b then record c { if_active = false } else c) ≡ c
closed_if true c e = ap (λ a. record c { if_active = a }) (sym e)
closed_if false c e = refl

settled : (c : TcpConnection) → c.if_active ≡ false → lingered (half_close c) ≡ c
settled c e = ap lingered (closed_if _ c e) ∙ closed_if _ c e

-- The last attempt.
abbrev last_sent : TcpSegment → TcpConnection → TcpConnection
last_sent seg c =
    let failed : TcpConnection = fail (pop [] c) in
    record failed {
      segments_out = failed.segments_out ++ rst_of (set_ack_and_window c.receiver seg) ∷ [];
    }

retransmit_last :
    (seg : TcpSegment) (c : TcpConnection)
    → ltb max_retx_attempts c.sender.consecutive_retransmissions ≡ true
    → retransmit (seg ∷ []) c ≡ last_sent seg c
unfolding retransmit
retransmit_last seg c e = rw e

last_sent-Ends :
    (seg : TcpSegment) (c : TcpConnection)
    → Ends c (last_sent seg c) (rst_of (set_ack_and_window c.receiver seg) ∷ [])
unfolding fail set_error
last_sent-Ends seg c = record {
  dead = record { inactive = refl; inbound = refl; outbound = refl };
  out = refl;
  dropped = refl;
}

-- When the timer of a sender with nothing queued runs out after eight or more retransmissions in a
-- row, the connection ends: the oldest segment in flight goes out once more, with the reset flag.
pub tick_gives_up :
    (ms : ℕ) (c : TcpConnection) (seg : TcpSegment) (segs : List TcpSegment)
    → c.sender.state ≡ running
    → c.sender.segments_out ≡ []
    → c.sender.segments_outgoing ≡ seg ∷ segs
    → c.sender.retransmission_timeout ≤ c.sender.time + ms
    → c.sender.time + ms < 2 ^ 64
    → 8 ≤ c.sender.consecutive_retransmissions
    → c.sender.consecutive_retransmissions + 1 < 2 ^ 32
    → Ends c (tick ms c) (rst_of (set_ack_and_window c.receiver seg) ∷ [])
unfolding tick
tick_gives_up ms c seg segs on empty q late small many few =
    subst (λ t. Ends c t (rst_of (set_ack_and_window c.receiver seg) ∷ [])) (sym result)
      (record { dead = ends.dead; out = ends.out; dropped = ends.dropped })
  where
    timed : TcpConnection
    timed = waited ms (again seg c.sender) c

    ends : Ends timed (last_sent seg timed) (rst_of (set_ack_and_window c.receiver seg) ∷ [])
    ends = last_sent-Ends seg timed

    result : tick ms c ≡ last_sent seg timed
    result =
        ap (λ t. lingered (half_close (retransmit t.segments_out (waited ms t c))))
          (tick_late ms c.sender seg segs on (ground arith) q)
        ∙ ap (λ u. lingered (half_close (retransmit (u ++ seg ∷ []) timed))) empty
        ∙ ap (λ t. lingered (half_close t)) (retransmit_last seg timed (ground arith))
        ∙ settled (last_sent seg timed) ends.dead.inactive
