-- ===== src/NetworkInterface/Aging.antt =====
-- The times to live of libsponge/network_interface.cc.
use cs.Prelude.{
  ℕ, ◌+◌, ◌-◌, ◌^◌, ◌<◌, ◌≤◌, ◌≡◌, refl, sym, ap, ap₂, ◌∙◌, subst, true, false, [], ◌∷◌, length,
  arith,
}
use native.Mathlib.Decide.{dec_lt}
use cs.Table.{Table, AllValues, AllValues-implies}
use cs.NetworkInterface.{
  NetworkInterface, ArpEntry, Waiting, aged, expired, age, tick, arp_cache_ttl, arp_pending_ttl,
}

-- A time to live that has not run out, as an `int`.
abbrev pub Alive : ℕ → Type 0
Alive ttl = (0 < ttl) × (ttl < 2 ^ 31)

aged_lem :
    (m ttl : ℕ) → Alive ttl → m < ttl → (aged m ttl ≡ ttl - m) × (expired (aged m ttl) ≡ false)
aged_lem m ttl alive h = ground arith

expired_lem : (m ttl : ℕ) → Alive ttl → m < 2 ^ 31 → ttl ≤ m → expired (aged m ttl) ≡ true
expired_lem m ttl alive small h = ground arith

module _ {V : Type 0} (ttl : V → ℕ) (with_ttl : ℕ → V → V) where
  age_expires :
      (m ip : ℕ) (v : V) (t : Table V)
      → Alive (ttl v)
      → m < 2 ^ 31
      → ttl v ≤ m
      → age ttl with_ttl m ((ip, v) ∷ t) ≡ age ttl with_ttl m t
  unfolding age
  age_expires m ip v t alive small h =
      let e : expired (aged m (ttl v)) ≡ true = expired_lem m (ttl v) alive small h in
      rw (age, e) refl

  age_stays :
      (m ip : ℕ) (v : V) (t : Table V)
      → Alive (ttl v)
      → m < ttl v
      → age ttl with_ttl m ((ip, v) ∷ t) ≡ (ip, with_ttl (ttl v - m) v) ∷ age ttl with_ttl m t
  unfolding age
  age_stays m ip v t alive h =
      let (a, e) = aged_lem m (ttl v) alive h in
      rw (age, e) (ap (λ n. (ip, with_ttl n v) ∷ age ttl with_ttl m t) a)

  -- The second of two rounds, after an entry that the first one keeps.
  age_kept :
      (m n ip : ℕ) (v : V) (t1 t2 : Table V)
      → ((k : ℕ) → ttl (with_ttl k v) ≡ k)
      → ((j k : ℕ) → with_ttl k (with_ttl j v) ≡ with_ttl k v)
      → m + n < 2 ^ 31
      → Alive (ttl v)
      → m < ttl v
      → age ttl with_ttl n t1 ≡ age ttl with_ttl (m + n) t2
      → age ttl with_ttl n ((ip, with_ttl (ttl v - m) v) ∷ t1)
        ≡ age ttl with_ttl (m + n) ((ip, v) ∷ t2)
  age_kept m n ip v t1 t2 get set h alive kept rest =
      let w = with_ttl (ttl v - m) v in
      let left : ttl w ≡ ttl v - m = get (ttl v - m) in
      elim (dec_lt n (ttl v - m)) [
        | no dead ↦
            age_expires n ip w t1 (omega arith, omega arith) (omega arith) (omega arith)
            ∙ rest
            ∙ sym (age_expires (m + n) ip v t2 alive (omega arith) (omega arith))
        | yes both ↦
            age_stays n ip w t1 (omega arith, omega arith) (omega arith)
            ∙ ap₂ (λ u t. (ip, u) ∷ t)
                (set (ttl v - m) (ttl w - n) ∙ ap (λ k. with_ttl k v) (omega arith)) rest
            ∙ sym (age_stays (m + n) ip v t2 alive (omega arith))
      ]

  age_twice :
      (m n : ℕ) (t : Table V)
      → ((v : V) (k : ℕ) → ttl (with_ttl k v) ≡ k)
      → ((v : V) (j k : ℕ) → with_ttl k (with_ttl j v) ≡ with_ttl k v)
      → m + n < 2 ^ 31
      → AllValues (λ v. Alive (ttl v)) t
      → age ttl with_ttl n (age ttl with_ttl m t) ≡ age ttl with_ttl (m + n) t
  unfolding age
  age_twice m n [] get set h all = refl
  age_twice m n ((ip, v) ∷ t) get set h (alive, all) = elim (dec_lt m (ttl v)) [
    | no dead ↦
        ap (age ttl with_ttl n) (age_expires m ip v t alive (omega arith) (omega arith))
        ∙ age_twice m n t get set h all
        ∙ sym (age_expires (m + n) ip v t alive (omega arith) (omega arith))
    | yes kept ↦
        ap (age ttl with_ttl n) (age_stays m ip v t alive kept)
        ∙ age_kept m n ip v (age ttl with_ttl m t) t (get v) (set v) h alive kept
            (age_twice m n t get set h all)
  ]

  -- What holds of the entries still holds of those that are left.
  age-AllValues :
      (P : V → Type 0) (m : ℕ) (t : Table V)
      → m < 2 ^ 31
      → ((v : V) → P v → Alive (ttl v))
      → ((v : V) (k : ℕ) → P v → 0 < k → k ≤ ttl v → P (with_ttl k v))
      → AllValues P t
      → AllValues P (age ttl with_ttl m t)
  unfolding age
  age-AllValues P m [] h live less all = tt
  age-AllValues P m ((ip, v) ∷ t) h live less (p, all) =
      let rest = age-AllValues P m t h live less all in
      elim (dec_lt m (ttl v)) [
        | no dead ↦ subst (AllValues P) (sym (age_expires m ip v t (live v p) h (omega arith))) rest
        | yes kept ↦
            subst (AllValues P) (sym (age_stays m ip v t (live v p) kept))
              (less v (ttl v - m) p (omega arith) (omega arith), rest)
      ]

-- An entry of the cache that has not run out.
abbrev pub EntryInv : ArpEntry → Type 0
EntryInv e = (0 < e.ttl) × (e.ttl ≤ arp_cache_ttl)

-- At least one datagram waits, and it has not waited for too long.
abbrev pub WaitingInv : Waiting → Type 0
WaitingInv w = (0 < w.ttl) × (w.ttl ≤ arp_pending_ttl) × (0 < length w.dgrams)

pub record Inv (ni : NetworkInterface) : Type 0 where
  pub cache : AllValues EntryInv ni.arp_cache
  pub waiting : AllValues WaitingInv ni.frames_cannot_find_arp

entry-Alive : (e : ArpEntry) → EntryInv e → Alive e.ttl
entry-Alive e inv = omega arith

waiting-Alive : (w : Waiting) → WaitingInv w → Alive w.ttl
waiting-Alive w inv = omega arith

-- Two ticks come to one tick of their sum, while it fits an `int`, for entries that have not run out.
pub tick-tick :
    (m n : ℕ) (ni : NetworkInterface)
    → m + n < 2 ^ 31
    → Inv ni
    → tick n (tick m ni) ≡ tick (m + n) ni
unfolding tick
tick-tick m n ni h inv =
    ap₂ (λ c w. record ni { arp_cache = c; frames_cannot_find_arp = w })
      (age_twice (λ e. e.ttl) (λ ttl e. record e { ttl = ttl }) m n ni.arp_cache (λ v k. refl)
        (λ v j k. refl) h (AllValues-implies EntryInv _ ni.arp_cache entry-Alive inv.cache))
      (age_twice (λ w. w.ttl) (λ ttl w. record w { ttl = ttl }) m n ni.frames_cannot_find_arp
        (λ v k. refl) (λ v j k. refl) h
        (AllValues-implies WaitingInv _ ni.frames_cannot_find_arp waiting-Alive inv.waiting))

pub tick-Inv : (m : ℕ) (ni : NetworkInterface) → m < 2 ^ 31 → Inv ni → Inv (tick m ni)
unfolding tick
tick-Inv m ni h inv = record {
  cache =
      age-AllValues (λ e. e.ttl) (λ ttl e. record e { ttl = ttl }) EntryInv m ni.arp_cache h
        entry-Alive (λ e k old more less. (more, omega arith)) inv.cache;
  waiting =
      age-AllValues (λ w. w.ttl) (λ ttl w. record w { ttl = ttl }) WaitingInv m
        ni.frames_cannot_find_arp h waiting-Alive (λ w k old more less. (more, omega arith, old.2))
        inv.waiting;
}
