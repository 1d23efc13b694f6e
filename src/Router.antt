-- ===== src/Router.antt =====
-- libsponge/router.hh and router.cc. An `Address` is its IPv4 number.
pub mod Search
pub mod Queues
pub mod Draining
mod Tests
use cs.Prelude.{
  ℕ, zero, suc, ◌+◌, ◌-◌, ◌*◌, ◌/◌, ◌^◌, Bool, true, false, ◌&&◌, ◌||◌, Option, none, some, List,
  [], ◌∷◌, ◌++◌, if◌then◌else◌, ltb, ◌==◌, length, get_elem?,
}
use cs.Outcome.{Outcome, returned, thrown, undefined, ◌>>=◌, of_option}
use cs.Ipv4.{Ipv4Datagram}
use cs.Ethernet.{EthernetFrame}
use cs.NetworkInterface.{NetworkInterface, send_datagram}
use cs.NetworkInterface

pub record AsyncNetworkInterface : Type 0 where
  pub interface : NetworkInterface
  pub datagrams_out : List Ipv4Datagram

-- What `NetworkInterface::recv_frame` returns is pushed.
abbrev queued : Option Ipv4Datagram → List Ipv4Datagram → List Ipv4Datagram
queued none q = q
queued (some d) q = q ++ d ∷ []

unfoldable pub recv_frame : EthernetFrame → AsyncNetworkInterface → Outcome AsyncNetworkInterface
recv_frame frame a = do
  got ← NetworkInterface.recv_frame frame a.interface
  returned (record { interface = got.1; datagrams_out = queued got.0 a.datagrams_out })

pub record RouteEntry : Type 0 where
  pub dst : ℕ
  pub prefix_length : ℕ
  pub next_hop : Option ℕ
  pub interface_num : ℕ

pub record Router : Type 0 where
  pub interfaces : List AsyncNetworkInterface
  pub route_table : List RouteEntry

-- The interface's index, and the router.
unfoldable pub add_interface : AsyncNetworkInterface → Router → ℕ × Router
add_interface a router =
    (length router.interfaces, record router { interfaces = router.interfaces ++ a ∷ [] })

unfoldable pub add_route : ℕ → ℕ → Option ℕ → ℕ → Router → Router
add_route route_prefix prefix_length next_hop interface_num router = record router {
  route_table =
      router.route_table
      ++ record {
        dst = route_prefix;
        prefix_length = prefix_length;
        next_hop = next_hop;
        interface_num = interface_num;
      }
        ∷ [];
}

-- `dst & mask`, where the mask's lowest `32 - prefix_length` bits are 0. Shifts by 32 and more are
-- undefined, so that lengths above 32 are not meant; for length 0 the result is not used.
abbrev pub masked : ℕ → ℕ → ℕ
masked prefix_length dst = dst / 2 ^ (32 - prefix_length) * 2 ^ (32 - prefix_length)

unfoldable pub applies : ℕ → RouteEntry → Bool
applies dst r = (r.prefix_length == 0) || (masked r.prefix_length dst == r.dst)

-- The variables of the loop over the table.
pub record Choice : Type 0 where
  pub best_route : RouteEntry
  pub max_prefix_mask : ℕ
  pub if_find_route : Bool

abbrev pub longer : RouteEntry → Choice → Choice
longer r c =
    if ltb c.max_prefix_mask r.prefix_length
    then record { best_route = r; max_prefix_mask = r.prefix_length; if_find_route = true }
    else record c { if_find_route = true }

unfoldable pub choose : ℕ → List RouteEntry → Choice → Choice
choose dst [] c = c
choose dst (r ∷ rs) c = choose dst rs (if applies dst r then longer r c else c)

-- The loop's variables before it.
abbrev pub initial : RouteEntry → Choice
initial r = record { best_route = r; max_prefix_mask = 0; if_find_route = false }

-- The element that `interface(N)` refers to, replaced.
unfoldable pub set_at : {A : Type 0} → ℕ → A → List A → List A
set_at n x [] = []
set_at zero x (y ∷ ys) = x ∷ ys
set_at (suc n) x (y ∷ ys) = y ∷ set_at n x ys

abbrev pub send_by : ℕ → Ipv4Datagram → ℕ → Router → Outcome Router
send_by n dgram next_hop router = do
  a ← of_option (get_elem? router.interfaces n)
  ni ← send_datagram dgram next_hop a.interface
  returned (record router { interfaces = set_at n (record a { interface = ni }) router.interfaces })

abbrev pub next_hop_of : Option ℕ → ℕ → ℕ
next_hop_of none dst = dst
next_hop_of (some next_hop) dst = next_hop

-- The end of `route_one_datagram`, from the loop on, for a table with this first entry.
unfoldable pub forward : Ipv4Datagram → List RouteEntry → Router → Outcome Router
forward dgram [] router = returned router
forward dgram (first ∷ rs) router =
    let c = choose dgram.header.dst (first ∷ rs) (initial first) in
    if c.if_find_route
    then send_by c.best_route.interface_num dgram
        (next_hop_of c.best_route.next_hop dgram.header.dst) router
    else returned router

-- The datagram with a time to live that is one less.
abbrev pub hop : Ipv4Datagram → Ipv4Datagram
hop dgram = record dgram { header = record dgram.header { ttl = dgram.header.ttl - 1 } }

unfoldable pub route_one_datagram : Ipv4Datagram → Router → Outcome Router
unfolding forward
route_one_datagram dgram router =
    if (hop dgram).header.ttl == 0
    then returned router
    else forward (hop dgram) router.route_table router

-- `queue.pop()` on an interface's queue.
abbrev pub popped : List Ipv4Datagram → List Ipv4Datagram
popped [] = []
popped (d ∷ ds) = ds

abbrev pub pop_front : ℕ → Option AsyncNetworkInterface → Router → Router
pop_front n none router = router
pop_front n (some a) router = record router {
  interfaces = set_at n (record a { datagrams_out = popped a.datagrams_out }) router.interfaces;
}

abbrev pub pop : ℕ → Router → Router
pop n router = pop_front n (get_elem? router.interfaces n) router

-- The queue of an interface.
abbrev pub queue : ℕ → Router → List Ipv4Datagram
queue n router = elim (get_elem? router.interfaces n) [ none ↦ [] | some a ↦ a.datagrams_out ]

-- `while (not queue.empty())`, on fuel.
unfoldable pub drain : ℕ → ℕ → Router → Outcome Router
drain zero n router = returned router
drain (suc fuel) n router = elim (queue n router) [
  | [] ↦ returned router
  | d ∷ ds ↦ route_one_datagram d router >>= λ router'. drain fuel n (pop n router')
]

-- `route`, from an interface on: so many are left. The fuel is the length of the queue.
unfoldable pub route_from : ℕ → ℕ → Router → Outcome Router
route_from zero n router = returned router
route_from (suc left) n router =
    drain (length (queue n router)) n router >>= route_from left (n + 1)

unfoldable pub route : Router → Outcome Router
route router = route_from (length router.interfaces) 0 router
