-- ===== src/Segment/Wire.antt =====
-- libsponge/tcp_helpers/tcp_header.cc and tcp_segment.cc: segments as bytes. Bits that `|` joins do
-- not overlap, so that they are added; `&` with a mask of adjacent bits is a quotient or a remainder.
use cs.Prelude.{
  ℕ, ◌+◌, ◌-◌, ◌*◌, ◌/◌, ◌%◌, Bool, true, false, not, ◌&&◌, Option, none, some, List, [], ◌∷◌, ◌^◌,
  if◌then◌else◌, ltb, ◌==◌,
}
use cs.Seqno.{same}
use cs.Buffer.{Buffer, str}
use cs.BufferList.{BufferList, append}
use cs.BufferList
use cs.Parser.{
  M, ◌>>=◌, give, get_error, NetParser, ParseResult, bad_checksum, header_too_short, of_buffer, u8,
  u16, u32, skip, put_u8, put_u16, put_u32, resize,
}
use cs.Checksum.{InternetChecksum, add, value}
use cs.Checksum
use cs.Segment.{TcpHeader, TcpSegment}

-- `TCPHeader::LENGTH`.
abbrev header_length : ℕ
header_length = 20

-- Whether the bit that counts `m` is set.
abbrev pub has_bit : ℕ → ℕ → Bool
has_bit m x = x / m % 2 == 1

abbrev pub fields : ℕ → ℕ → ℕ → ℕ → ℕ → ℕ → ℕ → ℕ → ℕ → TcpHeader
fields sport dport seqno ackno off flags win cksum uptr = record {
  sport = sport;
  dport = dport;
  seqno = record { raw_value = seqno };
  ackno = record { raw_value = ackno };
  doff = off / 2 ^ 4;
  urg = has_bit 32 flags;
  ack = has_bit 16 flags;
  psh = has_bit 8 flags;
  rst = has_bit 4 flags;
  syn = has_bit 2 flags;
  fin = has_bit 1 flags;
  win = win;
  cksum = cksum;
  uptr = uptr;
}

-- The end of `parse`, from the check of the data offset on: the result, and the fields.
unfoldable pub parse_rest : TcpHeader → M (ParseResult × TcpHeader)
parse_rest h =
    if ltb h.doff 5
    then give (header_too_short, h)
    else do _ ← skip (h.doff * 4 - header_length); e ← get_error; give (e, h)

-- `TCPHeader::parse`, which sets every field.
unfoldable pub parse_header : M (ParseResult × TcpHeader)
parse_header = do
  sport ← u16
  dport ← u16
  seqno ← u32
  ackno ← u32
  off ← u8
  flags ← u8
  win ← u16
  cksum ← u16
  uptr ← u16
  parse_rest (fields sport dport seqno ackno off flags win cksum uptr)

abbrev flag : ℕ → Bool → ℕ
flag m b = if b then m else 0

abbrev pub flag_byte : TcpHeader → ℕ
flag_byte h =
    flag 32 h.urg + flag 16 h.ack + flag 8 h.psh + flag 4 h.rst + flag 2 h.syn + flag 1 h.fin

-- The string before it is resized.
unfoldable pub written : TcpHeader → List ℕ
written h =
    let s1 =
      put_u32 (put_u32 (put_u16 (put_u16 [] h.sport) h.dport) h.seqno.raw_value)
        h.ackno.raw_value in
    let s2 = put_u16 (put_u8 (put_u8 s1 (h.doff * 16)) (flag_byte h)) h.win in
    put_u16 (put_u16 s2 h.cksum) h.uptr

-- `TCPHeader::serialize`; `none` is the exception.
unfoldable pub serialize_header : TcpHeader → Option (List ℕ)
serialize_header h = if ltb h.doff 5 then none else some (resize (4 * h.doff) (written h))

-- `TCPHeader::operator==`.
abbrev same_flag : Bool → Bool → Bool
same_flag true b = b
same_flag false b = not b

unfoldable pub same_header : TcpHeader → TcpHeader → Bool
same_header h g =
    same h.seqno g.seqno
    && same h.ackno g.ackno
    && (h.doff == g.doff)
    && same_flag h.urg g.urg
    && same_flag h.ack g.ack
    && same_flag h.psh g.psh
    && same_flag h.rst g.rst
    && same_flag h.syn g.syn
    && same_flag h.fin g.fin
    && (h.win == g.win)
    && (h.uptr == g.uptr)

-- What `_header.parse(p)` leaves; its result is not looked at.
abbrev pub parsed :
    Option ((ParseResult × TcpHeader) × NetParser) → Option (ParseResult × TcpSegment)
parsed none = none
parsed (some ((r, h), p)) = some (p.error, record { header = h; payload = p.buffer })

-- `TCPSegment::parse` into a segment, which keeps its value where the checksum is bad.
unfoldable pub parse : Buffer → ℕ → TcpSegment → Option (ParseResult × TcpSegment)
parse b datagram_layer_checksum seg =
    if value (add (str b) (Checksum.init datagram_layer_checksum)) == 0
    then parsed (parse_header (of_buffer b))
    else some (bad_checksum, seg)

-- The header with the checksum over the whole segment, from its string with the field at 0.
abbrev pub with_cksum : TcpSegment → ℕ → List ℕ → TcpHeader
with_cksum seg datagram_layer_checksum s = record seg.header {
  cksum = value (add (str seg.payload) (add s (Checksum.init datagram_layer_checksum)));
}

abbrev pub joined : Buffer → Option (List ℕ) → Option BufferList
joined payload none = none
joined payload (some s) = some (append (append [] (BufferList.of_string s)) (payload ∷ []))

-- The second half of `serialize`, from the string with the field at 0.
abbrev pub summed : TcpSegment → ℕ → Option (List ℕ) → Option BufferList
summed seg datagram_layer_checksum none = none
summed seg datagram_layer_checksum (some s) =
    joined seg.payload (serialize_header (with_cksum seg datagram_layer_checksum s))

-- `TCPSegment::serialize`.
unfoldable pub serialize : TcpSegment → ℕ → Option BufferList
serialize seg datagram_layer_checksum =
    summed seg datagram_layer_checksum (serialize_header (record seg.header { cksum = 0 }))
