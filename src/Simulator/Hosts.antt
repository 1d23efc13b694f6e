-- ===== src/Simulator/Hosts.antt =====
-- Class `Host` of apps/network_simulator.cc.
pub mod Checking
use cs.Prelude.{
  ℕ, zero, suc, ◌+◌, ◌*◌, ◌%◌, ◌^◌, Bool, true, false, not, ◌&&◌, Option, none, some, List, [], ◌∷◌,
  ◌++◌, ◌==◌, if◌then◌else◌,
}
use cs.Outcome.{Outcome, returned, thrown, ◌>>=◌, of_option}
use cs.BufferList.{concatenate_all}
use cs.BufferList
use cs.Ipv4.{Ipv4Datagram}
use cs.Ipv4
use cs.Ethernet.{EthernetAddress}
use cs.NetworkInterface.{send_datagram}
use cs.NetworkInterface
use cs.Router.{AsyncNetworkInterface}

pub data HostName : Type 0 where
  applesauce : HostName
  default_router : HostName
  cherrypie : HostName
  hs_router : HostName
  dm42 : HostName
  dm43 : HostName

-- A name's place among the names, by which names are told apart.
abbrev pub place : HostName → ℕ
place HostName.applesauce = 0
place HostName.default_router = 1
place HostName.cherrypie = 2
place HostName.hs_router = 3
place HostName.dm42 = 4
place HostName.dm43 = 5

abbrev pub same_name : HostName → HostName → Bool
same_name a b = place a == place b

pub record Host : Type 0 where
  pub name : HostName
  pub my_address : ℕ
  pub interface : AsyncNetworkInterface
  pub next_hop : ℕ
  pub expecting_to_receive : List Ipv4Datagram

-- The constructor, with the Ethernet address that it draws.
abbrev pub new_host : HostName → ℕ → ℕ → EthernetAddress → Host
new_host name my_address next_hop mac = record {
  name = name;
  my_address = my_address;
  interface = record { interface = NetworkInterface.init mac my_address; datagrams_out = [] };
  next_hop = next_hop;
  expecting_to_receive = [];
}

-- The comparison of two strings.
unfoldable pub same_bytes : List ℕ → List ℕ → Bool
same_bytes [] [] = true
same_bytes [] (y ∷ ys) = false
same_bytes (x ∷ xs) [] = false
same_bytes (x ∷ xs) (y ∷ ys) = (x == y) && same_bytes xs ys

-- `serialize().concatenate()`.
unfoldable pub bytes_of : Ipv4Datagram → Outcome (List ℕ)
bytes_of d = of_option (Ipv4.serialize d) >>= (λ l. returned (concatenate_all l))

-- `x.serialize().concatenate() == expected.serialize().concatenate()`.
unfoldable pub same_datagram : Ipv4Datagram → Ipv4Datagram → Outcome Bool
unfolding bytes_of same_bytes
same_datagram x expected =
    bytes_of x >>= (λ a. bytes_of expected >>= (λ b. returned (same_bytes a b)))

unfoldable pub expecting : Ipv4Datagram → List Ipv4Datagram → Outcome Bool
unfolding same_datagram
expecting expected [] = returned false
expecting expected (x ∷ xs) =
    same_datagram x expected >>= (λ same. if same then returned true else expecting expected xs)

abbrev pub put_front : Ipv4Datagram → Outcome (List Ipv4Datagram) → Outcome (List Ipv4Datagram)
put_front x m = m >>= (λ xs. returned (x ∷ xs))

unfoldable pub remove_expectation : Ipv4Datagram → List Ipv4Datagram → Outcome (List Ipv4Datagram)
unfolding same_datagram
remove_expectation expected [] = returned []
remove_expectation expected (x ∷ xs) =
    same_datagram x expected
    >>= (λ same. if same then returned xs else put_front x (remove_expectation expected xs))

-- The datagram with this text for its payload, and the host.
abbrev pub made : ℕ → ℕ → List ℕ → Host → Ipv4Datagram
made destination ttl text h = record {
  header = record Ipv4.blank {
    src = h.my_address;
    dst = destination;
    len = (Ipv4.blank.hlen * 4 + BufferList.size (BufferList.of_string text)) % 2 ^ 16;
    ttl = ttl;
  };
  payload = BufferList.of_string text;
}

unfoldable pub send_to : ℕ → ℕ → List ℕ → Host → Outcome (Ipv4Datagram × Host)
send_to destination ttl text h =
    send_datagram (made destination ttl text h) h.next_hop h.interface.interface >>= (λ ni.
      returned (
        made destination ttl text h,
        record h { interface = record h.interface { interface = ni } },
      ))

abbrev pub expect : Ipv4Datagram → Host → Host
expect expected h = record h { expecting_to_receive = h.expecting_to_receive ++ expected ∷ [] }

abbrev pub is_empty : List Ipv4Datagram → Bool
is_empty [] = true
is_empty (d ∷ ds) = false

-- The loop of `check` over what was received: what is still expected after it.
unfoldable pub receive_all : List Ipv4Datagram → List Ipv4Datagram → Outcome (List Ipv4Datagram)
unfolding expecting remove_expectation
receive_all [] es = returned es
receive_all (d ∷ ds) es =
    expecting d es
    >>= (λ found. if not found then thrown else remove_expectation d es >>= receive_all ds)

unfoldable pub check : Host → Outcome Host
unfolding receive_all
check h = receive_all h.interface.datagrams_out h.expecting_to_receive >>= (λ es.
    if not (is_empty es)
    then thrown
    else returned (record h {
      expecting_to_receive = es;
      interface = record h.interface { datagrams_out = [] };
    }))
