-- ===== src/Arp/Laws.antt =====
-- What the messages of libsponge/tcp_helpers/arp_message.cc are read as.
use cs.Prelude.{
  ℕ, ◌/◌, ◌%◌, ◌^◌, ◌<◌, ◌≡◌, refl, ap, ◌∙◌, true, false, some, ltb, List, [], ◌∷◌, ◌++◌,
  append_assoc, length, length-append, arith,
}
use cs.Buffer.{Buffer, str}
use cs.Buffer
use cs.BufferList.Laws.{InMemory}
use cs.Parser.{no_error, give, put_u8, put_u16, put_u32, put_bytes}
use cs.Parser.Safety.{Safe, Safe-then, give-Safe, get_error-Safe, u32-Safe, bytes-Safe}
use cs.Parser.Laws.{
  Reads, Reads-then, give-Reads, byte-Reads, u16-Reads, u32-Reads, get_error-Reads, put_bytes_lem,
  put_u32_lem, u32_string,
}
use cs.Ethernet.Laws.{IsAddress, address-Reads}
use cs.Arp.{
  ArpMessage, supported, parse_addresses, parse_supported, parse_fields, parse, written, serialize,
}

pub record InWidth (m : ArpMessage) : Type 0 where
  pub sender_ethernet_address : IsAddress m.sender_ethernet_address
  pub sender_ip_address : m.sender_ip_address < 2 ^ 32
  pub target_ethernet_address : IsAddress m.target_ethernet_address
  pub target_ip_address : m.target_ip_address < 2 ^ 32

abbrev front_string : ArpMessage → List ℕ
front_string m =
    (m.hardware_type / 2 ^ 8 % 256)
    ∷ (m.hardware_type / 2 ^ 0 % 256)
    ∷ (m.protocol_type / 2 ^ 8 % 256)
    ∷ (m.protocol_type / 2 ^ 0 % 256)
    ∷ (m.hardware_address_size / 2 ^ 0 % 256)
    ∷ (m.protocol_address_size / 2 ^ 0 % 256)
    ∷ (m.opcode / 2 ^ 8 % 256)
    ∷ (m.opcode / 2 ^ 0 % 256)
    ∷ []

abbrev addresses_string : ArpMessage → List ℕ
addresses_string m =
    m.sender_ethernet_address
    ++ (u32_string m.sender_ip_address
        ++ (m.target_ethernet_address ++ u32_string m.target_ip_address))

nested : (a b c d e : List ℕ) → a ++ b ++ c ++ d ++ e ≡ a ++ (b ++ (c ++ (d ++ e)))
nested a b c d e = rw (append_assoc, append_assoc, append_assoc)

written_lem : (m : ArpMessage) → InWidth m → written m ≡ front_string m ++ addresses_string m
unfolding written put_u8 put_u16
written_lem m w =
    let F = front_string m in
    let S = m.sender_ethernet_address in
    let T = m.target_ethernet_address in
    ap (λ s. put_u32 (put_bytes (put_u32 s m.sender_ip_address) T) m.target_ip_address)
      (put_bytes_lem F S w.sender_ethernet_address.bytes)
    ∙ ap (λ s. put_u32 (put_bytes s T) m.target_ip_address)
        (put_u32_lem (F ++ S) m.sender_ip_address)
    ∙ ap (λ s. put_u32 s m.target_ip_address)
        (put_bytes_lem (F ++ S ++ u32_string m.sender_ip_address) T w.target_ethernet_address.bytes)
    ∙ put_u32_lem (F ++ S ++ u32_string m.sender_ip_address ++ T) m.target_ip_address
    ∙ nested F S (u32_string m.sender_ip_address) T (u32_string m.target_ip_address)

parse_addresses-Reads :
    (m old : ArpMessage) (b : Buffer)
    → InWidth m
    → InMemory b
    → str b ≡ addresses_string m
    → Reads
        (parse_addresses old)
        b
        (
          no_error,
          record m {
            hardware_type = old.hardware_type;
            protocol_type = old.protocol_type;
            hardware_address_size = old.hardware_address_size;
            protocol_address_size = old.protocol_address_size;
            opcode = old.opcode;
          },
        )
        []
unfolding parse_addresses
parse_addresses-Reads msg old b w m e =
    Reads-then _ (address-Reads msg.sender_ethernet_address _ b w.sender_ethernet_address m e)
      λ b m e. Reads-then _ (u32-Reads msg.sender_ip_address _ b m e w.sender_ip_address) λ b m e.
        Reads-then _ (address-Reads msg.target_ethernet_address _ b w.target_ethernet_address m e)
          λ b m e.
            Reads-then _ (u32-Reads msg.target_ip_address _ b m e w.target_ip_address) λ b m e.
              Reads-then (λ e. give (e, _)) (get_error-Reads b _ m e) λ b m e. give-Reads _ b _ m e

supported_lem :
    (m : ArpMessage)
    → supported m ≡ true
    → (m.hardware_type < 2 ^ 16)
      × (m.protocol_type < 2 ^ 16)
      × (m.hardware_address_size < 256)
      × (m.protocol_address_size < 256)
      × (m.opcode < 2 ^ 16)
unfolding supported
supported_lem m s = ground arith

abbrev copied : ArpMessage → ArpMessage → ArpMessage
copied m old = record old {
  hardware_type = m.hardware_type;
  protocol_type = m.protocol_type;
  hardware_address_size = m.hardware_address_size;
  protocol_address_size = m.protocol_address_size;
  opcode = m.opcode;
}

copied-supported : (m old : ArpMessage) → supported (copied m old) ≡ supported m
unfolding supported
copied-supported m old = refl

parse_supported-Reads :
    (m old : ArpMessage) (b : Buffer)
    → InWidth m
    → supported m ≡ true
    → InMemory b
    → str b ≡ addresses_string m
    → Reads (parse_supported (copied m old)) b (no_error, m) []
unfolding parse_supported
parse_supported-Reads msg old b w s m e =
    let ok : supported (copied msg old) ≡ true = copied-supported msg old ∙ s in
    rw (parse_supported, ok) (parse_addresses-Reads msg (copied msg old) b w m e)

parse_fields-Reads :
    (m old : ArpMessage) (b : Buffer)
    → InWidth m
    → supported m ≡ true
    → InMemory b
    → str b ≡ front_string m ++ addresses_string m
    → Reads (parse_fields old) b (no_error, m) []
unfolding parse_fields
parse_fields-Reads msg old b w s m e =
    let (hardware, protocol, hardware_size, protocol_size, opcode) = supported_lem msg s in
    Reads-then _ (u16-Reads msg.hardware_type _ b m e hardware) λ b m e.
      Reads-then _ (u16-Reads msg.protocol_type _ b m e protocol) λ b m e.
        Reads-then _ (byte-Reads msg.hardware_address_size _ b m e hardware_size) λ b m e.
          Reads-then _ (byte-Reads msg.protocol_address_size _ b m e protocol_size) λ b m e.
            Reads-then _ (u16-Reads msg.opcode _ b m e opcode)
              λ b m e. parse_supported-Reads msg old b w s m e

message_size : (m : ArpMessage) → InWidth m → length (written m) ≡ 28
message_size m w =
    ap length (written_lem m w)
    ∙ omega (
      arith,
      length-append m.sender_ethernet_address (
          u32_string m.sender_ip_address
          ++ (m.target_ethernet_address ++ u32_string m.target_ip_address)),
      length-append m.target_ethernet_address (u32_string m.target_ip_address),
      w.sender_ethernet_address.size,
      w.target_ethernet_address.size,
    )

-- A supported message, with addresses in their widths, is serialized to 28 bytes, which are parsed
-- without an error to the same message.
pub parse-serialize_message :
    (m old : ArpMessage)
    → InWidth m
    → supported m ≡ true
    → (s : List ℕ) × (serialize m ≡ some s)
      × (length s ≡ 28)
      × (parse (Buffer.of_string s) old ≡ some (no_error, m))
unfolding serialize parse
parse-serialize_message m old w ok =
    let size = message_size m w in
    let long : ltb (length (written m)) 28 ≡ false = ground (arith, size) in
    let read =
      parse_fields-Reads m old (Buffer.of_string (written m)) w ok
        (omega arith, omega (arith, size)) (written_lem m w) in
    (written m, rw ok refl, size, rw (long, read.result) refl)

parse_addresses-Safe : (m : ArpMessage) → Safe (parse_addresses m)
unfolding parse_addresses
parse_addresses-Safe m = Safe-then (bytes-Safe 6) λ _. Safe-then u32-Safe λ _.
    Safe-then (bytes-Safe 6)
      λ _. Safe-then u32-Safe λ _. Safe-then get_error-Safe λ e. give-Safe (e, _)
