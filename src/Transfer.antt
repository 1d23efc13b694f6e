-- ===== src/Transfer.antt =====
-- One direction of a connection: the sender of one end (libsponge/tcp_sender.cc), a network, and the
-- receiver of the other end (libsponge/tcp_receiver.cc). The network may lose, repeat and reorder
-- segments, and acknowledgments are whatever arrives.
pub mod Pieces
pub mod Filling
pub mod Sending
pub mod Timing
pub mod Client
pub mod Receiving
pub mod Invariant
pub mod Delivery
pub mod Progress
pub mod Recovery
pub mod Handshake
mod Tests
use cs.Prelude.{ℕ, ◌^◌, ◌<◌, ◌≡◌, Bool, true, false, some, List, [], ◌++◌, length, take, get_elem?}
use cs.Seqno.{WrappingInt32}
use cs.ByteStream.{ByteStream, end_input}
use cs.ByteStream
use cs.Reassembler.Window.{InRange}
use cs.Segment.{TcpSegment}
use cs.Sender.{TcpSender, fill_window, ack_received, tick}
use cs.Sender
use cs.Sender.Flight
use cs.Receiver.{TcpReceiver, segment_received, set_ackno, stream_out}
use cs.Receiver.Handshake.{opened}
use cs.Transfer.Pieces.{label}
use cs.Transfer.Receiving.{Alike, Near}

-- The two ends, every segment that was ever sent with its 64-bit number, and what the clients have
-- written and read.
pub record Link : Type 0 where
  pub sender : TcpSender
  pub receiver : TcpReceiver
  pub network : List (ℕ × TcpSegment)
  pub written : List ℕ
  pub read : List ℕ

-- A sender whose SYN was acknowledged.
abbrev pub answered : ℕ → ℕ → WrappingInt32 → ℕ → TcpSender
answered capacity retx_timeout isn window = record (Sender.init capacity retx_timeout isn) {
  recv_ackno = 1;
  window_size = window;
  next_seqno = 1;
  syn_flag = true;
  old_syn_flag = true;
}

-- After the handshake.
abbrev pub established : ℕ → ℕ → WrappingInt32 → ℕ → ℕ → Link
established send_capacity retx_timeout isn window recv_capacity = record {
  sender = answered send_capacity retx_timeout isn window;
  receiver = set_ackno (opened recv_capacity isn);
  network = [];
  written = [];
  read = [];
}

-- What a call of the sender queued goes out, from the number `n` on.
abbrev pub sent : ℕ → TcpSender → Link → Link
sent n s l = record l {
  sender = record s { segments_out = [] };
  network = l.network ++ label n s.segments_out;
}

abbrev pub with_bytes : List ℕ → TcpSender → TcpSender
with_bytes bytes s = record s { stream = (ByteStream.write bytes s.stream).1 }

-- What may happen next. A client does not write after its FIN has gone, and numbers stay below 2^62
-- and within 2^30 of what is acknowledged or put together.
pub data Step : Link → Link → Type 0 where
  write :
      (l : Link) (bytes : List ℕ)
      → l.sender.fin_sent ≡ false
      → length bytes < 2 ^ 64
      → Flight.InRange (with_bytes bytes l.sender)
      → Step l (record l {
        sender = with_bytes bytes l.sender;
        written = l.written ++ take (ByteStream.write bytes l.sender.stream).0 bytes;
      })
  close :
      (l : Link)
      → Step l (record l { sender = record l.sender { stream = end_input l.sender.stream } })
  fill :
      (l : Link) (s : TcpSender)
      → fill_window l.sender ≡ some s
      → Step l (sent l.sender.next_seqno s l)
  acknowledge :
      (l : Link) (ackno : WrappingInt32) (window : ℕ) (b : Bool) (s : TcpSender)
      → ack_received ackno window l.sender ≡ some (b, s)
      → Step l (sent l.sender.next_seqno s l)
  wait : (l : Link) (ms : ℕ) → Step l (sent l.sender.recv_ackno (tick ms l.sender) l)
  arrive :
      (l : Link) (i n : ℕ) (seg seg' : TcpSegment) (b : Bool) (r : TcpReceiver)
      → get_elem? l.network i ≡ some (n, seg)
      → Alike seg seg'
      → Near n l.receiver
      → segment_received seg' l.receiver ≡ some (b, r)
      → Step l (record l { receiver = r })
  consume :
      (l : Link) (n : ℕ) (bytes : List ℕ) (s : ByteStream)
      → InRange l.receiver.reassembler
      → ByteStream.read n (stream_out l.receiver) ≡ some (bytes, s)
      → Step l (record l {
        receiver = record l.receiver { reassembler = record l.receiver.reassembler { output = s } };
        read = l.read ++ bytes;
      })

pub data Reach (start : Link) : Link → Type 0 where
  here : Reach start start
  next : {l m : Link} → Reach start l → Step l m → Reach start m
