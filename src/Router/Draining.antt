-- ===== src/Router/Draining.antt =====
-- That `Router::route` (libsponge/router.cc) returns, with the queues of received datagrams empty.
use cs.Prelude.{
  ℕ, zero, suc, ◌+◌, ◌<◌, ◌≤◌, ◌≡◌, ◌≢◌, refl, sym, ap, ◌∙◌, subst, inl, inr, ◌⊎◌, Bool-cases,
  Option, none, some, List, [], ◌∷◌, length, get_elem?, ◌==◌, arith, if◌then◌else◌,
}
use native.Mathlib.Decide.{dec_lt}
use cs.Outcome.{returned}
use cs.Ipv4.{Ipv4Datagram}
use cs.NetworkInterface.{send_datagram}
use cs.Router.{
  AsyncNetworkInterface, Router, RouteEntry, send_by, next_hop_of, forward, hop, route_one_datagram,
  choose, initial, popped, pop, pop_front, queue, drain, route_from, route,
}
use cs.Outcome.{Returns, Returns-then, Returns-weaken, Returns-value}
use cs.BufferList.{BufferList}
use cs.Ipv4
use cs.NetworkInterface.Returning.{send_datagram-Returns}
use cs.Router.{Choice, longer, applies}
use cs.Router.Search.{All}
use cs.Router.Queues.{
  same_queue, length-set_at, present, queue_at, pop_front-same, pop_front-other, beyond,
}

-- Each datagram can be serialized when its time to live is one less.
abbrev pub AllSendable : List Ipv4Datagram → Type 0
AllSendable [] = Unit {0}
AllSendable (d ∷ ds) = ((l : BufferList) × (Ipv4.serialize (hop d) ≡ some l)) × AllSendable ds

-- The table's interfaces are there.
abbrev pub InRange : Router → Type 0
InRange r = All (λ e. e.interface_num < length r.interfaces) r.route_table

-- A router with the same queues, as many interfaces and the same table.
record Kept (r r' : Router) : Type 0 where
  queues : (k : ℕ) → queue k r' ≡ queue k r
  count : length r'.interfaces ≡ length r.interfaces
  table : r'.route_table ≡ r.route_table

Kept-refl : (r : Router) → Kept r r
Kept-refl r = record { queues = λ k. refl; count = refl; table = refl }

InRange-kept :
    (r r' : Router)
    → length r'.interfaces ≡ length r.interfaces
    → r'.route_table ≡ r.route_table
    → InRange r
    → InRange r'
InRange-kept r r' count table h =
    subst (All (λ e. e.interface_num < length r'.interfaces)) (sym table)
      (subst (λ n. All (λ e. e.interface_num < n) r.route_table) (sym count) h)

-- The entry that the loop comes to is in range.
choose_range :
    (n dst : ℕ) (rs : List RouteEntry) (c : Choice)
    → c.best_route.interface_num < n
    → All (λ e. e.interface_num < n) rs
    → (choose dst rs c).best_route.interface_num < n
unfolding choose
choose_range n dst [] c h all = h
choose_range n dst (r ∷ rs) c h (first, all) =
    choose_range n dst rs (if applies dst r then longer r c else c) (ground arith) all

send_by-Kept :
    (n : ℕ) (d : Ipv4Datagram) (l : BufferList) (next_hop : ℕ) (r : Router)
    → Ipv4.serialize d ≡ some l
    → n < length r.interfaces
    → Returns (Kept r) (send_by n d next_hop r)
send_by-Kept n d l next_hop r e h =
    let (a, at_n) = present n r.interfaces h in
    rw (Returns, at_n)
      (Returns-then (λ _. Unit {0}) (Kept r) (send_datagram d next_hop a.interface) _
        (send_datagram-Returns d l next_hop a.interface e)
        (λ ni _. record {
          queues = λ k. same_queue k n a (record a { interface = ni }) r.interfaces at_n refl;
          count = length-set_at n (record a { interface = ni }) r.interfaces;
          table = refl;
        }))

forward-Kept :
    (d : Ipv4Datagram) (l : BufferList) (t : List RouteEntry) (r : Router)
    → Ipv4.serialize d ≡ some l
    → All (λ e. e.interface_num < length r.interfaces) t
    → Returns (Kept r) (forward d t r)
unfolding forward
forward-Kept d l [] r e all = Kept-refl r
forward-Kept d l (first ∷ rs) r e (h, all) =
    let c = choose d.header.dst (first ∷ rs) (initial first) in
    elim (Bool-cases c.if_find_route) [
      | inl found ↦
          rw (Returns, forward, found)
            (send_by-Kept c.best_route.interface_num d l
              (next_hop_of c.best_route.next_hop d.header.dst) r e
              (choose_range (length r.interfaces) d.header.dst (first ∷ rs) (initial first) h
                (h, all)))
      | inr idle ↦ rw (Returns, forward, idle) (Kept-refl r)
    ]

route_one_datagram-Kept :
    (d : Ipv4Datagram) (l : BufferList) (r : Router)
    → Ipv4.serialize (hop d) ≡ some l
    → InRange r
    → Returns (Kept r) (route_one_datagram d r)
unfolding route_one_datagram
route_one_datagram-Kept d l r e h = elim (Bool-cases ((hop d).header.ttl == 0)) [
  | inl over ↦ rw (Returns, route_one_datagram, over) (Kept-refl r)
  | inr alive ↦ rw (Returns, route_one_datagram, alive) (forward-Kept (hop d) l r.route_table r e h)
]

-- What draining one queue comes to.
record Drained (n : ℕ) (r r' : Router) : Type 0 where
  drained : queue n r' ≡ []
  others : (k : ℕ) → k ≢ n → queue k r' ≡ queue k r
  count : length r'.interfaces ≡ length r.interfaces
  table : r'.route_table ≡ r.route_table

pop_front-count :
    (n : ℕ) (o : Option AsyncNetworkInterface) (r : Router)
    → (length (pop_front n o r).interfaces ≡ length r.interfaces)
      × ((pop_front n o r).route_table ≡ r.route_table)
pop_front-count n none r = (refl, refl)
pop_front-count n (some a) r =
    (length-set_at n (record a { datagrams_out = popped a.datagrams_out }) r.interfaces, refl)

-- What draining keeps, seen from before a datagram was routed and popped.
Drained-before :
    (n : ℕ) (r r' r'' : Router) → Kept r r' → Drained n (pop n r') r'' → Drained n r r''
Drained-before n r r' r'' kept d =
    let (count, table) = pop_front-count n (get_elem? r'.interfaces n) r' in
    record {
      drained = d.drained;
      others = λ k ne.
          d.others k ne ∙ pop_front-other n k (get_elem? r'.interfaces n) r' ne ∙ kept.queues k;
      count = d.count ∙ count ∙ kept.count;
      table = d.table ∙ table ∙ kept.table;
    }

list_cases :
    (q : List Ipv4Datagram)
    → (q ≡ []) ⊎ (d : Ipv4Datagram) × (ds : List Ipv4Datagram) × (q ≡ d ∷ ds)
list_cases [] = inl refl
list_cases (d ∷ ds) = inr (d, ds, refl)

Drained-empty : (n : ℕ) (r : Router) → queue n r ≡ [] → Drained n r r
Drained-empty n r e = record { drained = e; others = λ k ne. refl; count = refl; table = refl }

-- With fuel for each datagram in the queue, the loop ends with the queue empty.
drain-Drained :
    (fuel n : ℕ) (r : Router)
    → length (queue n r) ≤ fuel
    → AllSendable (queue n r)
    → InRange r
    → Returns (Drained n r) (drain fuel n r)
unfolding drain
drain-Drained zero n r h ok range = elim (list_cases (queue n r)) [
  | inl e ↦ Drained-empty n r e
  | inr (d, ds, e) ↦ absurd (omega (arith, ap length e))
]
drain-Drained (suc fuel) n r h ok range = elim (list_cases (queue n r)) [
  | inl e ↦ rw (Returns, drain, e) (Drained-empty n r e)
  | inr (d, ds, e) ↦
      let ((l, s), rest) = subst AllSendable e ok in
      rw (Returns, drain, e)
        (Returns-then (Kept r) (Drained n r) (route_one_datagram d r) _
          (route_one_datagram-Kept d l r s range)
          λ r' kept.
            let tail : queue n (pop n r') ≡ ds =
              pop_front-same n (get_elem? r'.interfaces n) r' refl
              ∙ ap popped (kept.queues n ∙ e) in
            let (count, table) = pop_front-count n (get_elem? r'.interfaces n) r' in
            Returns-weaken (Drained n (pop n r')) (Drained n r) (drain fuel n (pop n r'))
              (λ r''. Drained-before n r r' r'' kept)
              (drain-Drained fuel n (pop n r') (omega (arith, ap length tail, ap length e))
                (subst AllSendable (sym tail) rest)
                (InRange-kept r (pop n r') (count ∙ kept.count) (table ∙ kept.table) range)))
]

-- What draining so many queues, one after another, comes to.
Emptied : ℕ → ℕ → Router → Router → Type 0
Emptied left n r r' =
    ((k : ℕ) → n ≤ k → k < n + left → queue k r' ≡ [])
    × ((k : ℕ) → (k < n) ⊎ (n + left ≤ k) → queue k r' ≡ queue k r)

Emptied-before :
    (left n : ℕ) (r r1 r2 : Router)
    → Drained n r r1
    → Emptied left (n + 1) r1 r2
    → Emptied (suc left) n r r2
unfolding Emptied
Emptied-before left n r r1 r2 d (later, outside) = (
  λ k low high. elim (dec_lt n k) [
    | yes above ↦ later k (omega arith) (omega arith)
    | no below ↦
        let here : n ≡ k = omega arith in
        outside k (inl (omega arith)) ∙ ap (λ j. queue j r1) (sym here) ∙ d.drained
  ],
  λ k out.
      let apart : (k ≢ n) × ((k < n + 1) ⊎ (n + 1 + left ≤ k)) = away left n k out in
      outside k apart.1 ∙ d.others k apart.0,
)
  where
    away :
        (left n k : ℕ) → (k < n) ⊎ (n + suc left ≤ k) → (k ≢ n) × ((k < n + 1) ⊎ (n + 1 + left ≤ k))
    away left n k (inl low) = (λ e. absurd (omega arith), inl (omega arith))
    away left n k (inr high) = (λ e. absurd (omega arith), inr (omega arith))

-- The queues that are left are still such that they can be sent.
sendable-kept :
    (n k : ℕ) (r r1 : Router) → Drained n r r1 → AllSendable (queue k r) → AllSendable (queue k r1)
sendable-kept n k r r1 d ok = elim (Bool-cases (k == n)) [
  | inl here ↦
      let at_n : k ≡ n = ground arith in
      subst AllSendable (sym (ap (λ j. queue j r1) at_n ∙ d.drained)) tt
  | inr there ↦ subst AllSendable (sym (d.others k (λ at_n. absurd (ground arith)))) ok
]

route_from-Emptied :
    (left n : ℕ) (r : Router)
    → ((k : ℕ) → AllSendable (queue k r))
    → InRange r
    → Returns (Emptied left n r) (route_from left n r)
unfolding route_from Emptied
route_from-Emptied zero n r ok range = (λ k low high. absurd (omega arith), λ k out. refl)
route_from-Emptied (suc left) n r ok range =
    Returns-then (Drained n r) (Emptied (suc left) n r) (drain (length (queue n r)) n r) _
      (drain-Drained (length (queue n r)) n r (omega arith) (ok n) range)
      λ r1 d.
        Returns-weaken (Emptied left (n + 1) r1) (Emptied (suc left) n r)
          (route_from left (n + 1) r1) (λ r2. Emptied-before left n r r1 r2 d)
          (route_from-Emptied left (n + 1) r1 (λ k. sendable-kept n k r r1 d (ok k))
            (InRange-kept r r1 d.count d.table range))

-- When each received datagram can be serialized and each entry of the table names an interface that
-- is there, `route` returns, and no interface has a received datagram left in its queue: the fuel is
-- enough.
pub route-drains :
    (r : Router)
    → ((k : ℕ) → AllSendable (queue k r))
    → InRange r
    → (r' : Router) × (route r ≡ returned r') × ((k : ℕ) → queue k r' ≡ [])
unfolding route Emptied
route-drains r ok range =
    Returns-value (λ r'. (k : ℕ) → queue k r' ≡ []) (route r)
      (Returns-weaken (Emptied (length r.interfaces) 0 r) _ (route_from (length r.interfaces) 0 r)
        (λ r' (emptied, others) k. elim (dec_lt k (length r.interfaces)) [
          | yes low ↦ emptied k (omega arith) (omega arith)
          | no high ↦
              others k (inr (omega arith)) ∙ queue_at k none r (beyond k r.interfaces (omega arith))
        ])
        (route_from-Emptied (length r.interfaces) 0 r ok range))
