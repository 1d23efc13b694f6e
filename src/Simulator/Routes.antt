-- ===== src/Simulator/Routes.antt =====
-- The routes of apps/network_simulator.cc.
use cs.Prelude.{ℕ, ◌≤◌, ◌≡◌, ◌⊎◌, inl, inr, false, some, List, [], ◌∷◌, ltb, arith, Bool-cases}
use cs.Ethernet.{EthernetAddress}
use cs.Router.{RouteEntry, Choice, applies, choose, longer, initial, add_route, add_interface}
use cs.Simulator.{new_network, ip, mit5_id}

-- The route for 128.30.76.255/16, whose host bits are not 0.
abbrev pub mit5_route : RouteEntry
mit5_route = record {
  dst = ip 128 30 76 255;
  prefix_length = 16;
  next_hop = some (ip 128 30 0 1);
  interface_num = mit5_id;
}

mit5_route-applies : (dst : ℕ) → applies dst mit5_route ≡ false
unfolding applies
mit5_route-applies dst = ground arith

-- An entry that does not apply, or that leads to one of the other interfaces.
abbrev Elsewhere : ℕ → List RouteEntry → Type 0
Elsewhere dst [] = Unit {0}
Elsewhere dst (r ∷ rs) = ((applies dst r ≡ false) ⊎ (r.interface_num ≤ 5)) × Elsewhere dst rs

longer_elsewhere :
    (r : RouteEntry) (c : Choice)
    → r.interface_num ≤ 5
    → c.best_route.interface_num ≤ 5
    → (longer r c).best_route.interface_num ≤ 5
longer_elsewhere r c h k = elim (Bool-cases (ltb c.max_prefix_mask r.prefix_length)) [
  | inl e ↦ rw e h
  | inr e ↦ rw e k
]

choose-Elsewhere :
    (dst : ℕ) (rs : List RouteEntry) (c : Choice)
    → Elsewhere dst rs
    → c.best_route.interface_num ≤ 5
    → (choose dst rs c).best_route.interface_num ≤ 5
unfolding choose
choose-Elsewhere dst [] c h k = k
choose-Elsewhere dst (r ∷ rs) c (inl no_match, h) k =
    rw (choose, no_match) (choose-Elsewhere dst rs c h k)
choose-Elsewhere dst (r ∷ rs) c (inr near, h) k = elim (Bool-cases (applies dst r)) [
  | inl e ↦ rw (choose, e) (choose-Elsewhere dst rs (longer r c) h (longer_elsewhere r c near k))
  | inr e ↦ rw (choose, e) (choose-Elsewhere dst rs c h k)
]

-- The table of the network.
abbrev pub table : (ℕ → EthernetAddress) → List RouteEntry
table macs = (new_network macs).router.route_table

-- The first entry of the table.
abbrev pub first_route : RouteEntry
first_route = record {
  dst = 0;
  prefix_length = 0;
  next_hop = some (ip 171 67 76 1);
  interface_num = 0;
}

-- For no destination does the loop over the network's table choose the interface `mit5`: the route
-- for 128.30.76.255/16 never applies, so that datagrams to that network leave by another interface.
pub choose_never_mit5 :
    (macs : ℕ → EthernetAddress) (dst : ℕ)
    → (choose dst (table macs) (initial first_route)).best_route.interface_num ≤ 5
unfolding new_network add_route add_interface
choose_never_mit5 macs dst =
    choose-Elsewhere dst (table macs) (initial first_route)
      (
        inr (omega arith),
        (
          inr (omega arith),
          (
            inr (omega arith),
            (
              inr (omega arith),
              (
                inr (omega arith),
                (
                  inr (omega arith),
                  (inr (omega arith), (inr (omega arith), (inl (mit5_route-applies dst), tt))),
                ),
              ),
            ),
          ),
        ),
      )
      (omega arith)
