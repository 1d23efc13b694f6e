-- ===== src/Ethernet.antt =====
-- libsponge/tcp_helpers/ethernet_header.hh, ethernet_header.cc, ethernet_frame.hh and
-- ethernet_frame.cc. An array of six bytes is a list.
pub mod Laws
mod Tests
use cs.Prelude.{
  ℕ, ◌*◌, ◌+◌, Bool, Option, none, some, List, [], ◌∷◌, if◌then◌else◌, ltb, ◌==◌, ◌&&◌,
}
use cs.Buffer.{Buffer, str}
use cs.Buffer
use cs.BufferList.{BufferList, append}
use cs.BufferList
use cs.Parser.{
  M, ◌>>=◌, give, get_error, NetParser, ParseResult, packet_too_short, of_buffer, u16, bytes,
  put_bytes, put_u16, zeros,
}

abbrev pub EthernetAddress : Type 0
EthernetAddress = List ℕ

-- `std::array`'s comparison.
abbrev pub same_address : EthernetAddress → EthernetAddress → Bool
same_address [] [] = Bool.true
same_address [] (y ∷ ys) = Bool.false
same_address (x ∷ xs) [] = Bool.false
same_address (x ∷ xs) (y ∷ ys) = (x == y) && same_address xs ys

-- `ETHERNET_BROADCAST`.
abbrev pub broadcast : EthernetAddress
broadcast = 255 ∷ 255 ∷ 255 ∷ 255 ∷ 255 ∷ 255 ∷ []

pub record EthernetHeader : Type 0 where
  pub dst : EthernetAddress
  pub src : EthernetAddress
  pub type : ℕ

-- `EthernetHeader::LENGTH`, `TYPE_IPv4` and `TYPE_ARP`.
abbrev pub header_length : ℕ
header_length = 14

abbrev pub type_ipv4 : ℕ
type_ipv4 = 2048

abbrev pub type_arp : ℕ
type_arp = 2054

-- The fields one after another: the result, and the header.
unfoldable pub parse_fields : M (ParseResult × EthernetHeader)
parse_fields = do
  dst ← bytes 6
  src ← bytes 6
  type ← u16
  e ← get_error
  give (e, record { dst = dst; src = src; type = type })

-- `EthernetHeader::parse` into a header, which keeps its fields where the data is too short.
unfoldable pub parse_header : EthernetHeader → M (ParseResult × EthernetHeader)
parse_header h p =
    if ltb (Buffer.size p.buffer) header_length
    then some ((packet_too_short, h), p)
    else parse_fields p

-- `EthernetHeader::serialize`.
unfoldable pub serialize_header : EthernetHeader → List ℕ
serialize_header h = put_u16 (put_bytes (put_bytes [] h.dst) h.src) h.type

pub record EthernetFrame : Type 0 where
  pub header : EthernetHeader
  pub payload : BufferList

-- A frame with the initial values of its fields.
abbrev pub new : EthernetFrame
new = record { header = record { dst = zeros 6; src = zeros 6; type = 0 }; payload = [] }

-- What `_header.parse(p)` leaves; its result is not looked at.
abbrev pub parsed :
    Option ((ParseResult × EthernetHeader) × NetParser) → Option (ParseResult × EthernetFrame)
parsed none = none
parsed (some ((r, h), p)) = some (p.error, record { header = h; payload = p.buffer ∷ [] })

-- `EthernetFrame::parse` into a frame.
unfoldable pub parse : Buffer → EthernetFrame → Option (ParseResult × EthernetFrame)
parse b f = parsed (parse_header f.header (of_buffer b))

-- `EthernetFrame::serialize`.
unfoldable pub serialize : EthernetFrame → BufferList
unfolding serialize_header
serialize f = append (append [] (BufferList.of_string (serialize_header f.header))) f.payload
