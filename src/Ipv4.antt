-- ===== src/Ipv4.antt =====
-- libsponge/tcp_helpers/ipv4_header.hh, ipv4_header.cc, ipv4_datagram.hh and ipv4_datagram.cc. Bits
-- that `|` joins do not overlap, so that they are added.
pub mod HeaderReads
pub mod RoundTrip
pub mod Errors
mod Tests
use cs.Prelude.{
  ℕ, ◌+◌, ◌-◌, ◌*◌, ◌/◌, ◌%◌, ◌^◌, Bool, true, false, not, Option, none, some, List, [], ◌∷◌,
  if◌then◌else◌, length, take, ltb, ◌==◌, add32,
}
use cs.Buffer.{Buffer, str}
use cs.Buffer
use cs.BufferList.{BufferList, append}
use cs.BufferList
use cs.Parser.{
  M, ◌>>=◌, give, get_error, NetParser, ParseResult, no_error, bad_checksum, header_too_short,
  packet_too_short, wrong_ip_version, truncated_packet, of_buffer, failed, u8, u16, u32, skip,
  put_u8, put_u16, put_u32, resize,
}
use cs.Checksum.{add, value}
use cs.Checksum

pub record Ipv4Header : Type 0 where
  pub ver : ℕ
  pub hlen : ℕ
  pub tos : ℕ
  pub len : ℕ
  pub id : ℕ
  pub df : Bool
  pub mf : Bool
  pub offset : ℕ
  pub ttl : ℕ
  pub proto : ℕ
  pub cksum : ℕ
  pub src : ℕ
  pub dst : ℕ

-- `IPv4Header::LENGTH`.
abbrev pub header_length : ℕ
header_length = 20

-- A header with the initial values of its fields.
abbrev pub blank : Ipv4Header
blank = record {
  ver = 4;
  hlen = 5;
  tos = 0;
  len = 0;
  id = 0;
  df = true;
  mf = false;
  offset = 0;
  ttl = 128;
  proto = 6;
  cksum = 0;
  src = 0;
  dst = 0;
}

abbrev pub fields : ℕ → ℕ → ℕ → ℕ → ℕ → ℕ → ℕ → ℕ → ℕ → ℕ → Ipv4Header
fields first_byte tos len id fo_val ttl proto cksum src dst = record {
  ver = first_byte / 2 ^ 4;
  hlen = first_byte % 16;
  tos = tos;
  len = len;
  id = id;
  df = fo_val / 16384 % 2 == 1;
  mf = fo_val / 8192 % 2 == 1;
  offset = fo_val % 8192;
  ttl = ttl;
  proto = proto;
  cksum = cksum;
  src = src;
  dst = dst;
}

-- The result at the end of `parse`: `e` is the parser's error.
abbrev pub verdict : ParseResult → ℕ → ParseResult
verdict e check = if failed e then e else if check == 0 then no_error else bad_checksum

-- The end of `parse`, from the checks of the fields on.
unfoldable pub checks : List ℕ → Ipv4Header → M (ParseResult × Ipv4Header)
checks original h =
    if ltb (length original) (4 * h.hlen)
    then give (packet_too_short, h)
    else if not (h.ver == 4)
    then give (wrong_ip_version, h)
    else if ltb h.hlen 5
    then give (header_too_short, h)
    else if not (length original == h.len)
    then give (truncated_packet, h)
    else do
      _ ← skip (h.hlen * 4 - header_length)
      e ← get_error
      give (verdict e (value (add (take (4 * h.hlen) original) (Checksum.init 0))), h)

-- The fields one after another, and the checks.
unfoldable pub parse_fields : List ℕ → M (ParseResult × Ipv4Header)
parse_fields original = do
  first_byte ← u8
  tos ← u8
  len ← u16
  id ← u16
  fo_val ← u16
  ttl ← u8
  proto ← u8
  cksum ← u16
  src ← u32
  dst ← u32
  checks original (fields first_byte tos len id fo_val ttl proto cksum src dst)

-- `IPv4Header::parse` into a header, which keeps its fields where the data is too short.
unfoldable pub parse_header : Ipv4Header → M (ParseResult × Ipv4Header)
parse_header h p =
    if ltb (Buffer.size p.buffer) header_length
    then some ((packet_too_short, h), p)
    else parse_fields (str p.buffer) p

abbrev pub first_byte : Ipv4Header → ℕ
first_byte h = (h.ver * 2 ^ 4 + h.hlen % 16) % 256

abbrev pub fo_val : Ipv4Header → ℕ
fo_val h = (if h.df then 16384 else 0) + (if h.mf then 8192 else 0) + h.offset % 8192

-- The string before it is resized.
unfoldable pub written : Ipv4Header → List ℕ
written h =
    let s1 = put_u16 (put_u16 (put_u8 (put_u8 [] (first_byte h)) h.tos) h.len) h.id in
    let s2 = put_u16 (put_u8 (put_u8 (put_u16 s1 (fo_val h)) h.ttl) h.proto) h.cksum in
    put_u32 (put_u32 s2 h.src) h.dst

-- `IPv4Header::serialize`; `none` is either exception.
unfoldable pub serialize_header : Ipv4Header → Option (List ℕ)
serialize_header h =
    if not (h.ver == 4)
    then none
    else if ltb (4 * h.hlen) header_length
    then none
    else some (resize (4 * h.hlen) (written h))

-- As 16 bits: the difference wraps around.
abbrev pub payload_length : Ipv4Header → ℕ
payload_length h = (h.len + 2 ^ 16 - 4 * h.hlen) % 2 ^ 16

unfoldable pub pseudo_cksum : Ipv4Header → ℕ
pseudo_cksum h =
    add32
      (add32 (add32 (h.src / 2 ^ 16 + h.src % 2 ^ 16) (h.dst / 2 ^ 16 + h.dst % 2 ^ 16)) h.proto)
      (payload_length h)

pub record Ipv4Datagram : Type 0 where
  pub header : Ipv4Header
  pub payload : BufferList

-- A datagram with the initial values of its fields.
abbrev pub new : Ipv4Datagram
new = record { header = blank; payload = [] }

-- What `_header.parse(p)` leaves; its result is not looked at.
abbrev pub parsed :
    Option ((ParseResult × Ipv4Header) × NetParser) → Option (ParseResult × Ipv4Datagram)
parsed none = none
parsed (some ((r, h), p)) = some (
  (if not (Buffer.size p.buffer == payload_length h) then packet_too_short else p.error),
  record { header = h; payload = p.buffer ∷ [] },
)

-- `IPv4Datagram::parse` into a datagram.
unfoldable pub parse : Buffer → Ipv4Datagram → Option (ParseResult × Ipv4Datagram)
parse b d = parsed (parse_header d.header (of_buffer b))

-- The header with the checksum over its string with the field at 0.
abbrev pub with_cksum : Ipv4Header → List ℕ → Ipv4Header
with_cksum h s = record h { cksum = value (add s (Checksum.init 0)) }

abbrev pub joined : BufferList → Option (List ℕ) → Option BufferList
joined payload none = none
joined payload (some s) = some (append (append [] (BufferList.of_string s)) payload)

-- The second half of `serialize`, from the string with the field at 0.
abbrev pub summed : Ipv4Datagram → Option (List ℕ) → Option BufferList
summed d none = none
summed d (some s) = joined d.payload (serialize_header (with_cksum d.header s))

-- `IPv4Datagram::serialize`; `none` is an exception.
unfoldable pub serialize : Ipv4Datagram → Option BufferList
serialize d =
    if not (BufferList.size d.payload == payload_length d.header)
    then none
    else summed d (serialize_header (record d.header { cksum = 0 }))
