-- ===== src/Simulator/Hosts/Checking.antt =====
-- What `check` of apps/network_simulator.cc finds out.
use cs.Prelude.{
  ℕ, ◌≡◌, refl, sym, subst, ap, ap₂, ◌∙◌, Bool, true, false, not, List, [], ◌∷◌, ◌++◌, append-nil,
  ◌==◌, if◌then◌else◌, inl, inr, Bool-cases, arith,
}
use cs.Outcome.{Outcome, returned, thrown, undefined, Holds, Holds-then, Holds-weaken, ◌>>=◌}
use cs.Ipv4.{Ipv4Datagram}
use cs.Simulator.Hosts.{
  Host, same_bytes, bytes_of, same_datagram, expecting, remove_expectation, receive_all, check,
  is_empty,
}

same_bytes-true : (a b : List ℕ) → same_bytes a b ≡ true → a ≡ b
unfolding same_bytes
same_bytes-true [] [] e = refl
same_bytes-true [] (y ∷ ys) e = absurd (ground arith)
same_bytes-true (x ∷ xs) [] e = absurd (ground arith)
same_bytes-true (x ∷ xs) (y ∷ ys) e = elim (Bool-cases (x == y)) [
  | inl h ↦
      let head : x ≡ y = ground arith in
      let tail : xs ≡ ys = same_bytes-true xs ys (rw (sym e, h) refl) in ap₂ (◌∷◌) head tail
  | inr h ↦ absurd (ground arith)
]

-- What was received is what was expected, one for one, by their bytes.
pub data Matches : List Ipv4Datagram → List Ipv4Datagram → Type 0 where
  none_left : Matches [] []
  one :
      (d e : Ipv4Datagram) (before after : List Ipv4Datagram) {ds : List Ipv4Datagram}
      → bytes_of e ≡ bytes_of d
      → Matches ds (before ++ after)
      → Matches (d ∷ ds) (before ++ e ∷ after)

-- The first of a list with the bytes of a datagram is left out.
record Removed (d : Ipv4Datagram) (es rest : List Ipv4Datagram) : Type 0 where
  e : Ipv4Datagram
  before : List Ipv4Datagram
  after : List Ipv4Datagram
  split : es ≡ before ++ e ∷ after
  left : rest ≡ before ++ after
  same : bytes_of e ≡ bytes_of d

returned_eq {ℓ} : {A : Type ℓ} {a b : A} → returned a ≡ returned b → a ≡ b
returned_eq {a} {b} e = ap (λ o. elim o [ returned x ↦ x | _ ↦ a ]) e

abbrev IsValue {ℓ} : {A : Type ℓ} → Outcome A → Type 0
IsValue (returned a) = Unit {0}
IsValue thrown = ⊥
IsValue undefined = ⊥

compared :
    (x d : Ipv4Datagram) (a b : Outcome (List ℕ))
    → bytes_of x ≡ a
    → bytes_of d ≡ b
    → (a >>= (λ s. b >>= (λ t. returned (same_bytes s t)))) ≡ returned true
    → bytes_of x ≡ bytes_of d
compared x d (returned s) (returned t) ea eb h =
    ea ∙ ap returned (same_bytes-true s t (returned_eq h)) ∙ sym eb
compared x d (returned s) thrown ea eb h = absurd (subst IsValue (sym h) tt)
compared x d (returned s) undefined ea eb h = absurd (subst IsValue (sym h) tt)
compared x d thrown b ea eb h = absurd (subst IsValue (sym h) tt)
compared x d undefined b ea eb h = absurd (subst IsValue (sym h) tt)

same_datagram-true :
    (x d : Ipv4Datagram) → same_datagram x d ≡ returned true → bytes_of x ≡ bytes_of d
unfolding same_datagram
same_datagram-true x d h = compared x d (bytes_of x) (bytes_of d) refl refl h

-- Where the datagram is among those that are expected, one with its bytes is removed.
remove_expectation-Removed :
    (d : Ipv4Datagram) (es : List Ipv4Datagram)
    → expecting d es ≡ returned true
    → Holds (Removed d es) (remove_expectation d es)
unfolding expecting remove_expectation
remove_expectation-Removed d [] h = absurd (true_false (returned_eq h))
  where
    true_false : false ≡ true → ⊥
    true_false e = subst (λ b. if b then ⊥ else Unit {0}) e tt
remove_expectation-Removed d (x ∷ xs) h =
    by_first (same_datagram x d) refl h (remove_expectation-Removed d xs)
  where
    by_first :
        (m : Outcome Bool)
        → same_datagram x d ≡ m
        → (m >>= (λ same. if same then returned true else expecting d xs)) ≡ returned true
        → (expecting d xs ≡ returned true → Holds (Removed d xs) (remove_expectation d xs))
        → Holds (Removed d (x ∷ xs)) (
            m >>= (λ same.
              if same then returned xs else remove_expectation d xs >>= (λ ys. returned (x ∷ ys))))
    by_first (returned true) e k later = record {
      e = x;
      before = [];
      after = xs;
      split = refl;
      left = refl;
      same = same_datagram-true x d e;
    }
    by_first (returned false) e k later =
        Holds-then (Removed d xs) (Removed d (x ∷ xs)) (remove_expectation d xs) _ (later k)
          (λ ys r. record {
            e = r.e;
            before = x ∷ r.before;
            after = r.after;
            split = ap (◌∷◌ x) r.split;
            left = ap (◌∷◌ x) r.left;
            same = r.same;
          })
    by_first thrown e k later = tt
    by_first undefined e k later = tt

receive_all-Matches :
    (ds es : List Ipv4Datagram)
    → Holds
        (λ rest. (before : List Ipv4Datagram) → Matches before rest → Matches (ds ++ before) es)
        (receive_all ds es)
unfolding receive_all
receive_all-Matches [] es = λ before m. m
receive_all-Matches (d ∷ ds) es = found_first (expecting d es) refl (receive_all-Matches ds)
  where
    found_first :
        (m : Outcome Bool)
        → expecting d es ≡ m
        → ((fs : List Ipv4Datagram)
            → Holds
                (λ rest.
                  (before : List Ipv4Datagram) → Matches before rest → Matches (ds ++ before) fs)
                (receive_all ds fs))
        → Holds
            (λ rest.
              (before : List Ipv4Datagram) → Matches before rest → Matches (d ∷ ds ++ before) es)
            (m >>= (λ found.
              if not found then thrown else remove_expectation d es >>= receive_all ds))
    found_first (returned false) e later = tt
    found_first (returned true) e later =
        Holds-then (Removed d es) _ (remove_expectation d es) (receive_all ds)
          (remove_expectation-Removed d es e)
          (λ fs r.
            Holds-weaken _ _ (receive_all ds fs)
              (λ rest k before m. subst (Matches (d ∷ ds ++ before)) (sym r.split) (
                one d r.e r.before r.after r.same
                  (subst (Matches (ds ++ before)) r.left (k before m))))
              (later fs))
    found_first thrown e later = tt
    found_first undefined e later = tt

emptied : (es : List Ipv4Datagram) → is_empty es ≡ true → es ≡ []
emptied [] e = refl
emptied (x ∷ es) e = absurd (subst (λ b. if b then ⊥ else Unit {0}) e tt)

-- A host passes its check only where the datagrams that it received are those that it expected, one
-- for one by their bytes, and then expects nothing more and has taken all that it received.
pub check-Matches :
    (h : Host)
    → Holds
        (λ h'.
          Matches h.interface.datagrams_out h.expecting_to_receive
          × (h'.expecting_to_receive ≡ [])
          × (h'.interface.datagrams_out ≡ []))
        (check h)
unfolding check
check-Matches h =
    Holds-then _ _ (receive_all h.interface.datagrams_out h.expecting_to_receive) _
      (receive_all-Matches h.interface.datagrams_out h.expecting_to_receive)
      (λ es k. elim (Bool-cases (is_empty es)) [
        | inl e ↦ rw e (
          subst (λ ds. Matches ds h.expecting_to_receive) (append-nil h.interface.datagrams_out)
              (k [] (subst (Matches []) (sym (emptied es e)) none_left)),
          emptied es e,
          refl,
        )
        | inr e ↦ rw e tt
      ])
