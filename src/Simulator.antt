-- ===== src/Simulator.antt =====
-- apps/network_simulator.cc: a router with seven interfaces, the hosts on its networks, and datagrams
-- that these send to each other. The Ethernet addresses and the text of a datagram, which the code
-- draws at random, are parameters; a host's name is one of the six in the code. Printing is left out.
pub mod Hosts
pub mod Exchange
pub mod Routes
mod Tests
use cs.Prelude.{
  ℕ, zero, suc, ◌+◌, ◌-◌, ◌*◌, ◌%◌, ◌^◌, Bool, true, false, Option, none, some, List, [], ◌∷◌,
  get_elem?, ◌==◌, if◌then◌else◌,
}
use cs.Outcome.{Outcome, returned, thrown, ◌>>=◌, of_option}
use cs.Table.{Table, find, assign}
use cs.Ipv4.{Ipv4Datagram}
use cs.Ethernet.{EthernetAddress}
use cs.NetworkInterface
use cs.Router.{Router, AsyncNetworkInterface, add_interface, add_route, set_at, route}
use cs.Simulator.Hosts.{Host, HostName, new_host, place, send_to, expect, check, same_name}
use cs.Simulator.Exchange.{exchange_two, exchange_three}

pub record Network : Type 0 where
  pub router : Router
  pub hosts : Table Host

-- An address from its four numbers.
abbrev pub ip : ℕ → ℕ → ℕ → ℕ → ℕ
ip a b c d = ((a * 256 + b) * 256 + c) * 256 + d

abbrev pub default_id : ℕ
default_id = 0

abbrev pub eth0_id : ℕ
eth0_id = 1

abbrev pub eth1_id : ℕ
eth1_id = 2

abbrev pub eth2_id : ℕ
eth2_id = 3

abbrev pub uun3_id : ℕ
uun3_id = 4

abbrev pub hs4_id : ℕ
hs4_id = 5

abbrev pub mit5_id : ℕ
mit5_id = 6

abbrev pub async : EthernetAddress → ℕ → AsyncNetworkInterface
async mac address = record { interface = NetworkInterface.init mac address; datagrams_out = [] }

abbrev add : EthernetAddress → ℕ → Router → Router
add mac address r = (add_interface (async mac address) r).1

-- The router with its interfaces, from an address for each.
abbrev pub with_interfaces : (ℕ → EthernetAddress) → Router
with_interfaces macs = add (macs 6) (ip 128 30 76 255) (
    add (macs 5) (ip 143 195 0 2) (
      add (macs 4) (ip 198 178 229 1) (
        add (macs 3) (ip 192 168 0 1) (
          add (macs 2) (ip 172 16 0 1) (
            add (macs 1) (ip 10 0 0 1)
              (add (macs 0) (ip 171 67 76 46) (record { interfaces = []; route_table = [] })))))))

-- `add_route`, nine times.
abbrev pub with_routes : Router → Router
with_routes r = add_route (ip 128 30 76 255) 16 (some (ip 128 30 0 1)) mit5_id (
    add_route (ip 143 195 192 0) 19 (some (ip 143 195 0 1)) hs4_id (
      add_route (ip 143 195 128 0) 18 (some (ip 143 195 0 1)) hs4_id (
        add_route (ip 143 195 0 0) 17 (some (ip 143 195 0 1)) hs4_id (
          add_route (ip 198 178 229 0) 24 none uun3_id (
            add_route (ip 192 168 0 0) 24 none eth2_id (
              add_route (ip 172 16 0 0) 16 none eth1_id (
                add_route (ip 10 0 0 0) 8 none eth0_id
                  (add_route (ip 0 0 0 0) 0 (some (ip 171 67 76 1)) default_id r))))))))

abbrev entry : HostName → ℕ → ℕ → EthernetAddress → ℕ × Host
entry name address next_hop mac = (place name, new_host name address next_hop mac)

abbrev pub all_hosts : (ℕ → EthernetAddress) → Table Host
all_hosts macs =
    entry HostName.applesauce (ip 10 0 0 2) (ip 10 0 0 1) (macs 7)
    ∷ entry HostName.default_router (ip 171 67 76 1) 0 (macs 8)
    ∷ entry HostName.cherrypie (ip 192 168 0 2) (ip 192 168 0 1) (macs 9)
    ∷ entry HostName.hs_router (ip 143 195 0 1) 0 (macs 10)
    ∷ entry HostName.dm42 (ip 198 178 229 42) (ip 198 178 229 1) (macs 11)
    ∷ entry HostName.dm43 (ip 198 178 229 43) (ip 198 178 229 1) (macs 12)
    ∷ []

-- The constructor.
unfoldable pub new_network : (ℕ → EthernetAddress) → Network
new_network macs = record { router = with_routes (with_interfaces macs); hosts = all_hosts macs }

-- `host(name)`.
unfoldable pub host : HostName → Network → Outcome Host
host name net =
    of_option (find (place name) net.hosts)
    >>= (λ h. if same_name h.name name then returned h else thrown)

-- The objects that references were handed out to, put back.
abbrev pub put_interface : ℕ → AsyncNetworkInterface → Network → Network
put_interface n a net = record net {
  router = record net.router { interfaces = set_at n a net.router.interfaces };
}

abbrev pub put_host : HostName → Host → Network → Network
put_host name h net = record net { hosts = assign (place name) h net.hosts }

-- One cable between an interface of the router and a host.
unfoldable pub connect_two : ℕ → HostName → Network → Outcome Network
unfolding host
connect_two n name net = of_option (get_elem? net.router.interfaces n) >>= (λ x.
    host name net >>= (λ h. exchange_two x h.interface >>= (λ (x', y').
      returned (put_interface n x' (put_host name (record h { interface = y' }) net)))))

-- A network that an interface of the router shares with two hosts.
unfoldable pub connect_three : ℕ → HostName → HostName → Network → Outcome Network
unfolding host
connect_three n name name' net = of_option (get_elem? net.router.interfaces n) >>= (λ x.
    host name net >>= (λ h. host name' net >>= (λ h'.
      exchange_three x h.interface h'.interface >>= (λ (x', y', z'). returned (
        put_interface n x' (
          put_host name (record h { interface = y' })
            (put_host name' (record h' { interface = z' }) net)))))))

unfoldable pub simulate_physical_connections : Network → Outcome Network
unfolding connect_two connect_three
simulate_physical_connections net =
    connect_two default_id HostName.default_router net
    >>= connect_two eth0_id HostName.applesauce
    >>= connect_two eth2_id HostName.cherrypie
    >>= connect_two hs4_id HostName.hs_router
    >>= connect_three uun3_id HostName.dm42 HostName.dm43

-- The rounds of the loop in `simulate`.
unfoldable pub rounds : ℕ → Network → Outcome Network
unfolding simulate_physical_connections
rounds zero net = returned net
rounds (suc n) net =
    route net.router
    >>= (λ r. simulate_physical_connections (record net { router = r }) >>= rounds n)

-- The check of every host.
unfoldable pub check_all : Table Host → Outcome (Table Host)
check_all [] = returned []
check_all ((k, h) ∷ t) = check h >>= (λ h'. check_all t >>= (λ t'. returned ((k, h') ∷ t')))

unfoldable pub simulate : Network → Outcome Network
unfolding rounds check_all
simulate net =
    rounds 256 net
    >>= (λ net'. check_all net'.hosts >>= (λ t. returned (record net' { hosts = t })))

-- One block of `network_simulator`: a datagram is sent, it is expected at another host with a time to
-- live that is one less, and the network runs.
unfoldable pub trial : HostName → ℕ → HostName → List ℕ → Network → Outcome Network
unfolding simulate host
trial source destination target text net = host source net >>= (λ h.
    send_to destination 64 text h >>= (λ (dgram_sent, h').
      let net' : Network = put_host source h' net in
      let hopped : Ipv4Datagram = record dgram_sent {
        header = record dgram_sent.header { ttl = (dgram_sent.header.ttl + 255) % 256 };
      } in
      host target net' >>= (λ g. simulate (put_host target (expect hopped g) net'))))
