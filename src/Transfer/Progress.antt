-- ===== src/Transfer/Progress.antt =====
-- No call of either end (libsponge/tcp_sender.cc and tcp_receiver.cc) fails on a link.
use cs.Prelude.{ℕ, ◌^◌, ◌<◌, ◌≡◌, Bool, some, get_elem?, length, All-get}
use cs.Seqno.{WrappingInt32, IsWord32}
use cs.Segment.{TcpSegment}
use cs.Sender.{TcpSender, fill_window, ack_received}
use cs.Receiver.{TcpReceiver, segment_received}
use cs.Transfer.{Link, Reach, established}
use cs.Transfer.Sending.{fill_window-Sending, ack_received-Sending}
use cs.Transfer.Receiving.{Alike, Near, segment_received-Receives}
use cs.Transfer.Delivery.{Reach-Kept, stream_of}

-- The calls that could fail do not: filling the window, any acknowledgment, and any segment that was
-- sent and is near, which says too that no FIN is acknowledged.
pub record Responds (l : Link) : Type 0 where
  pub fills : (s : TcpSender) × (fill_window l.sender ≡ some s)
  pub hears :
      (ackno : WrappingInt32) (window : ℕ)
      → (b : Bool) × (s : TcpSender) × (ack_received ackno window l.sender ≡ some (b, s))
  pub takes :
      (i n : ℕ) (seg seg' : TcpSegment)
      → get_elem? l.network i ≡ some (n, seg)
      → Alike seg seg'
      → Near n l.receiver
      → (b : Bool) × (r : TcpReceiver) × (segment_received seg' l.receiver ≡ some (b, r))

-- After the handshake of two ends with capacities below 2^64 and any steps: the sender fills its
-- window and takes any acknowledgment without failing, and while the receiver has acknowledged no FIN
-- and its indexes stay below 2^62, it takes any segment that was sent and whose number is within 2^30
-- of its front without failing.
pub Reach-Responds :
    (send_capacity retx_timeout window recv_capacity : ℕ) (isn : WrappingInt32) (l : Link)
    → send_capacity < 2 ^ 64
    → recv_capacity < 2 ^ 64
    → IsWord32 isn
    → Reach (established send_capacity retx_timeout isn window recv_capacity) l
    → Responds l
Reach-Responds send_capacity retx_timeout window recv_capacity isn l small small' word r =
    let S : ℕ → ℕ = stream_of 0 l.written in
    let k =
      Reach-Kept send_capacity retx_timeout window recv_capacity isn l small small' word r 0 in
    record {
      fills =
          let (s, e, g) = fill_window-Sending S isn (length l.written) l.sender k.sound k.idle in
          (s, e);
      hears = λ ackno w.
          let (b, s, e, g) =
            ack_received-Sending S isn (length l.written) l.sender ackno w k.sound k.idle in
          (b, s, e);
      takes = λ i n seg seg' at a near.
          let (b, t, e, g) =
            segment_received-Receives S isn n seg seg' l.read l.receiver
              (All-get _ l.network i k.pieces at) a near k.receives in
          (b, t, e);
    }
