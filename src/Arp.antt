-- ===== src/Arp.antt =====
-- libsponge/tcp_helpers/arp_message.hh and arp_message.cc.
pub mod Laws
use cs.Prelude.{ℕ, Bool, not, ◌&&◌, ◌||◌, Option, none, some, List, [], if◌then◌else◌, ltb, ◌==◌}
use cs.Buffer.{Buffer}
use cs.Buffer
use cs.Parser.{
  M, ◌>>=◌, give, get_error, NetParser, ParseResult, packet_too_short, unsupported, of_buffer, u8,
  u16, u32, bytes, put_bytes, put_u8, put_u16, put_u32, zeros,
}
use cs.Ethernet.{EthernetAddress, type_ipv4}

pub record ArpMessage : Type 0 where
  pub hardware_type : ℕ
  pub protocol_type : ℕ
  pub hardware_address_size : ℕ
  pub protocol_address_size : ℕ
  pub opcode : ℕ
  pub sender_ethernet_address : EthernetAddress
  pub sender_ip_address : ℕ
  pub target_ethernet_address : EthernetAddress
  pub target_ip_address : ℕ

-- `ARPMessage::LENGTH`, `TYPE_ETHERNET`, `OPCODE_REQUEST` and `OPCODE_REPLY`.
abbrev pub message_length : ℕ
message_length = 28

abbrev pub type_ethernet : ℕ
type_ethernet = 1

abbrev pub opcode_request : ℕ
opcode_request = 1

abbrev pub opcode_reply : ℕ
opcode_reply = 2

-- A message with the initial values of its fields.
abbrev pub new : ArpMessage
new = record {
  hardware_type = type_ethernet;
  protocol_type = type_ipv4;
  hardware_address_size = 6;
  protocol_address_size = 4;
  opcode = 0;
  sender_ethernet_address = zeros 6;
  sender_ip_address = 0;
  target_ethernet_address = zeros 6;
  target_ip_address = 0;
}

unfoldable pub supported : ArpMessage → Bool
supported m =
    (m.hardware_type == type_ethernet)
    && (m.protocol_type == type_ipv4)
    && (m.hardware_address_size == 6)
    && (m.protocol_address_size == 4)
    && ((m.opcode == opcode_request) || (m.opcode == opcode_reply))

-- The addresses, the sender's and the target's, into a message.
unfoldable pub parse_addresses : ArpMessage → M (ParseResult × ArpMessage)
parse_addresses m = do
  sender_ethernet ← bytes 6
  sender_ip ← u32
  target_ethernet ← bytes 6
  target_ip ← u32
  e ← get_error
  give (
    e,
    record m {
      sender_ethernet_address = sender_ethernet;
      sender_ip_address = sender_ip;
      target_ethernet_address = target_ethernet;
      target_ip_address = target_ip;
    },
  )

-- The end of `parse`, from `supported` on.
unfoldable pub parse_supported : ArpMessage → M (ParseResult × ArpMessage)
parse_supported m = if not (supported m) then give (unsupported, m) else parse_addresses m

-- The fields one after another, into a message.
unfoldable pub parse_fields : ArpMessage → M (ParseResult × ArpMessage)
parse_fields m = do
  hardware_type ← u16
  protocol_type ← u16
  hardware_address_size ← u8
  protocol_address_size ← u8
  opcode ← u16
  parse_supported (record m {
    hardware_type = hardware_type;
    protocol_type = protocol_type;
    hardware_address_size = hardware_address_size;
    protocol_address_size = protocol_address_size;
    opcode = opcode;
  })

-- What is left of the parser is dropped.
abbrev pub parsed :
    Option ((ParseResult × ArpMessage) × NetParser) → Option (ParseResult × ArpMessage)
parsed none = none
parsed (some (r, p)) = some r

-- `ARPMessage::parse` into a message, which keeps the fields that are not read.
unfoldable pub parse : Buffer → ArpMessage → Option (ParseResult × ArpMessage)
parse b m =
    if ltb (Buffer.size b) message_length
    then some (packet_too_short, m)
    else parsed (parse_fields m (of_buffer b))

-- The string of a message, whatever its fields.
unfoldable pub written : ArpMessage → List ℕ
written m =
    let s1 =
      put_u8 (put_u8 (put_u16 (put_u16 [] m.hardware_type) m.protocol_type) m.hardware_address_size)
        m.protocol_address_size in
    let s2 =
      put_u32 (put_bytes (put_u16 s1 m.opcode) m.sender_ethernet_address) m.sender_ip_address in
    put_u32 (put_bytes s2 m.target_ethernet_address) m.target_ip_address

-- `none` is the exception.
unfoldable pub serialize : ArpMessage → Option (List ℕ)
unfolding written put_u8 put_u16 put_u32 put_bytes supported
serialize m = if not (supported m) then none else some (written m)
