-- ===== src/Simulator/Tests.antt =====
-- Runs of the simulated network.
use cs.Prelude.{ℕ, ◌≤◌, ◌≡◌, refl, [], ◌∷◌}
use cs.Outcome.{thrown}
use cs.Ipv4.{Ipv4Datagram}
use cs.Ethernet.{EthernetAddress}
use cs.Router.{choose, initial}
use cs.Simulator.{ip}
use cs.Simulator.Hosts.{Host, HostName, new_host, made, expect, check, receive_all}
use cs.Simulator.Routes.{table, first_route, choose_never_mit5}

abbrev macs : ℕ → EthernetAddress
macs i = 2 ∷ 0 ∷ 0 ∷ 0 ∷ 0 ∷ i ∷ []

abbrev quiet : Host
quiet = new_host HostName.cherrypie (ip 192 168 0 2) (ip 192 168 0 1) (macs 9)

abbrev dgram : Ipv4Datagram
dgram = made (ip 192 168 0 2) 63 (65 ∷ []) quiet

-- It expects a datagram that it does not receive.
expecting_in_vain : check (expect dgram quiet) ≡ thrown
unfolding check receive_all
expecting_in_vain = refl

choose_never_mit5_example :
    (choose (ip 128 30 76 255) (table macs) (initial first_route)).best_route.interface_num ≤ 5
choose_never_mit5_example = choose_never_mit5 macs (ip 128 30 76 255)
