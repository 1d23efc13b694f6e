-- ===== src/Segment.antt =====
-- libsponge/tcp_helpers/tcp_header.hh and tcp_segment.hh, tcp_segment.cc: the fields of a TCP header,
-- and a segment. Ports, checksum and urgent pointer take no part in the state machines.
pub mod Wire
pub mod HeaderReads
pub mod RoundTrip
pub mod Safety
mod Tests
use cs.Prelude.{ℕ, Bool, false, if◌then◌else◌, add64}
use cs.Seqno.{WrappingInt32}
use cs.Buffer.{Buffer}
use cs.Buffer

pub record TcpHeader : Type 0 where
  pub sport : ℕ
  pub dport : ℕ
  pub seqno : WrappingInt32
  pub ackno : WrappingInt32
  pub doff : ℕ
  pub urg : Bool
  pub ack : Bool
  pub psh : Bool
  pub rst : Bool
  pub syn : Bool
  pub fin : Bool
  pub win : ℕ
  pub cksum : ℕ
  pub uptr : ℕ

abbrev zero_seqno : WrappingInt32
zero_seqno = record { raw_value = 0 }

-- The default member initializers; `doff` is `LENGTH / 4`.
abbrev pub blank : TcpHeader
blank = record {
  sport = 0;
  dport = 0;
  seqno = zero_seqno;
  ackno = zero_seqno;
  doff = 5;
  urg = false;
  ack = false;
  psh = false;
  rst = false;
  syn = false;
  fin = false;
  win = 0;
  cksum = 0;
  uptr = 0;
}

pub record TcpSegment : Type 0 where
  pub header : TcpHeader
  pub payload : Buffer

-- `TCPSegment seg;`
abbrev pub new : TcpSegment
new = record { header = blank; payload = Buffer.empty }

abbrev bit : Bool → ℕ
bit b = if b then 1 else 0

abbrev pub length_in_sequence_space : TcpSegment → ℕ
length_in_sequence_space s =
    add64 (add64 (Buffer.size s.payload) (bit s.header.syn)) (bit s.header.fin)
