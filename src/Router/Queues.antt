-- ===== src/Router/Queues.antt =====
-- The queues of a router's interfaces (libsponge/router.cc), as its elements are replaced.
use cs.Prelude.{
  ℕ, zero, suc, ◌<◌, ◌≤◌, ◌≡◌, ◌≢◌, refl, sym, ap, ◌∙◌, subst, inl, inr, Bool-cases, Option, none,
  some, List, [], ◌∷◌, length, get_elem?, ◌==◌, arith,
}
use cs.Ipv4.{Ipv4Datagram}
use cs.Router.{AsyncNetworkInterface, Router, set_at, popped, pop_front, queue}

-- The queue of an interface in a list.
abbrev pub queue_in : ℕ → List AsyncNetworkInterface → List Ipv4Datagram
queue_in k l = elim (get_elem? l k) [ none ↦ [] | some a ↦ a.datagrams_out ]

set-same :
    (n : ℕ) (a x : AsyncNetworkInterface) (l : List AsyncNetworkInterface)
    → get_elem? l n ≡ some a
    → queue_in n (set_at n x l) ≡ x.datagrams_out
unfolding set_at
set-same n a x [] e = absurd (cc)
set-same zero a x (b ∷ l) e = refl
set-same (suc n) a x (b ∷ l) e = set-same n a x l e

set-other :
    (n k : ℕ) (x : AsyncNetworkInterface) (l : List AsyncNetworkInterface)
    → k ≢ n
    → queue_in k (set_at n x l) ≡ queue_in k l
unfolding set_at
set-other n k x [] ne = refl
set-other zero zero x (b ∷ l) ne = absurd (ne refl)
set-other zero (suc k) x (b ∷ l) ne = refl
set-other (suc n) zero x (b ∷ l) ne = refl
set-other (suc n) (suc k) x (b ∷ l) ne = set-other n k x l (λ e. ne (ap suc e))

pub same_queue :
    (k n : ℕ) (a x : AsyncNetworkInterface) (l : List AsyncNetworkInterface)
    → get_elem? l n ≡ some a
    → x.datagrams_out ≡ a.datagrams_out
    → queue_in k (set_at n x l) ≡ queue_in k l
same_queue k n a x l e same = elim (Bool-cases (k == n)) [
  | inl here ↦
      let at_n : k ≡ n = ground arith in
      subst (λ j. queue_in j (set_at n x l) ≡ queue_in j l) (sym at_n)
        (set-same n a x l e
          ∙ same
          ∙ sym (ap (λ o. elim o [ none ↦ [] | some b ↦ b.datagrams_out ]) e))
  | inr there ↦ set-other n k x l (λ at_n. absurd (ground arith))
]

pub length-set_at : {A : Type 0} (n : ℕ) (x : A) (l : List A) → length (set_at n x l) ≡ length l
unfolding set_at
length-set_at n x [] = refl
length-set_at zero x (b ∷ l) = refl
length-set_at (suc n) x (b ∷ l) = ap suc (length-set_at n x l)

pub present :
    (k : ℕ) (l : List AsyncNetworkInterface)
    → k < length l
    → (a : AsyncNetworkInterface) × (get_elem? l k ≡ some a)
present k [] h = absurd (omega arith)
present zero (a ∷ l) h = (a, refl)
present (suc k) (a ∷ l) h = present k l (omega arith)

pub queue_at :
    (n : ℕ) (o : Option AsyncNetworkInterface) (r : Router)
    → get_elem? r.interfaces n ≡ o
    → queue n r ≡ elim o [ none ↦ [] | some a ↦ a.datagrams_out ]
queue_at n o r e = ap (λ o. elim o [ none ↦ [] | some a ↦ a.datagrams_out ]) e

pub pop_front-same :
    (n : ℕ) (o : Option AsyncNetworkInterface) (r : Router)
    → get_elem? r.interfaces n ≡ o
    → queue n (pop_front n o r) ≡ popped (queue n r)
pop_front-same n none r e = queue_at n none r e ∙ sym (ap popped (queue_at n none r e))
pop_front-same n (some a) r e =
    set-same n a (record a { datagrams_out = popped a.datagrams_out }) r.interfaces e
    ∙ sym (ap popped (queue_at n (some a) r e))

pub pop_front-other :
    (n k : ℕ) (o : Option AsyncNetworkInterface) (r : Router)
    → k ≢ n
    → queue k (pop_front n o r) ≡ queue k r
pop_front-other n k none r ne = refl
pop_front-other n k (some a) r ne =
    set-other n k (record a { datagrams_out = popped a.datagrams_out }) r.interfaces ne

pub beyond : (k : ℕ) (l : List AsyncNetworkInterface) → length l ≤ k → get_elem? l k ≡ none
beyond k [] h = refl
beyond zero (a ∷ l) h = absurd (omega arith)
beyond (suc k) (a ∷ l) h = beyond k l (omega arith)
