-- ===== src/Router/Tests.antt =====
-- Runs of libsponge/router.cc on small tables.
use cs.Prelude.{zero, suc, ℕ, ◌≡◌, refl, true, false, none, some, ◌⊎◌, [], ◌∷◌, arith}
use cs.BufferList.{size, size_from}
use cs.Outcome.{returned}
use cs.Ipv4.{Ipv4Datagram}
use cs.Ipv4.HeaderReads.{InWidth}
use cs.Ipv4.RoundTrip.{parse-serialize_datagram}
use cs.NetworkInterface
use cs.Ipv4
use cs.Router.{RouteEntry, Router, applies, choose, initial, queue, route, hop}
use cs.Router.Search.{All, Longest, choose-Longest}
use cs.Router.Draining.{AllSendable, route-drains}

-- 0.0.0.0/0, 10.0.0.0/8 and 10.1.0.0/16.
abbrev default_route : RouteEntry
default_route = record { dst = 0; prefix_length = 0; next_hop = some 1; interface_num = 0 }

abbrev wide_route : RouteEntry
wide_route = record { dst = 167772160; prefix_length = 8; next_hop = none; interface_num = 1 }

abbrev narrow_route : RouteEntry
narrow_route = record { dst = 167837696; prefix_length = 16; next_hop = none; interface_num = 2 }

choose-Longest_example :
    let c =
      choose 167837697 (default_route ∷ wide_route ∷ narrow_route ∷ []) (initial default_route) in
    (c.if_find_route ≡ false)
      × All (λ r. applies 167837697 r ≡ false) (default_route ∷ wide_route ∷ narrow_route ∷ [])
    ⊎ (c.if_find_route ≡ true)
      × Longest 167837697 (default_route ∷ wide_route ∷ narrow_route ∷ []) c.best_route
choose-Longest_example =
    choose-Longest 167837697 default_route (wide_route ∷ narrow_route ∷ []) (omega arith)

default_applies : applies 1 default_route ≡ true
unfolding applies
default_applies = refl

wide_idle : applies 1 wide_route ≡ false
unfolding applies
wide_idle = refl

abbrev waiting_datagram : Ipv4Datagram
waiting_datagram = record Ipv4.new { header = record Ipv4.blank { len = 20; dst = 167772170 } }

waiting-InWidth : InWidth (hop waiting_datagram).header
waiting-InWidth = record {
  ver = refl;
  hlen_least = omega arith;
  hlen_most = omega arith;
  tos = omega arith;
  len = omega arith;
  id = omega arith;
  offset = omega arith;
  ttl = omega arith;
  proto = omega arith;
  cksum = omega arith;
  src = omega arith;
  dst = omega arith;
}

waiting_size : size (hop waiting_datagram).payload ≡ 0
unfolding size size_from
waiting_size = refl

abbrev a_router : Router
a_router = record {
  interfaces =
      record {
        interface = NetworkInterface.init (2 ∷ 0 ∷ 0 ∷ 0 ∷ 0 ∷ 1 ∷ []) 167772161;
        datagrams_out = waiting_datagram ∷ [];
      }
      ∷ [];
  route_table = record wide_route { interface_num = 0 } ∷ [];
}

sendable : (k : ℕ) → AllSendable (queue k a_router)
sendable zero =
    let (l, _, e, _, _, _) =
      parse-serialize_datagram (hop waiting_datagram) Ipv4.new waiting-InWidth waiting_size
        (omega arith) in
    ((l, e), tt)
sendable (suc k) = tt

route-drains_example : (r : Router) × (route a_router ≡ returned r) × ((k : ℕ) → queue k r ≡ [])
route-drains_example = route-drains a_router sendable (omega arith, tt)
