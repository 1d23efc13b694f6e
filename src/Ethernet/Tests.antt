-- ===== src/Ethernet/Tests.antt =====
-- A frame that is written and read (libsponge/tcp_helpers/ethernet_frame.cc).
use cs.Prelude.{[], ◌∷◌}
use cs.Buffer
use cs.Ethernet.{EthernetFrame, broadcast, type_arp}

abbrev one_byte : EthernetFrame
one_byte = record {
  header = record { dst = broadcast; src = 2 ∷ 0 ∷ 0 ∷ 0 ∷ 0 ∷ 1 ∷ []; type = type_arp };
  payload = Buffer.of_string (9 ∷ []) ∷ [];
}
