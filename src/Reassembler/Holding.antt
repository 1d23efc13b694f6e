-- ===== src/Reassembler/Holding.antt =====
-- No byte that is held is lost in the loops of `push_substring`
-- (libsponge/stream_reassembler.cc), over a set of pieces of the sender's stream.
use cs.Prelude.{
  ℕ, ◌+◌, ◌^◌, ◌≤◌, ◌<◌, ◌≡◌, ◌⊎◌, inl, inr, none, some, List, [], ◌∷◌, arith, length, sub64, ltb,
  Bool-cases, ◌==◌, false,
}
use cs.Reassembler.{
  Unassembled, Pending, rev_onto, lower_bound, absorb, back_loop, back_from_end, back_from,
  merge_back, forward_loop, merge_forward, insert,
}
use cs.Reassembler.Store.{Fits, Store, Store-skip, Store-rev_onto, Store-after}
use cs.Reassembler.Missing.{Missing}
use cs.Reassembler.Loops.{Grown, merge_cases, lower_bound-rev_onto}

module _ (j : ℕ) where
  -- Index `j` lies in a piece, or in one of several.
  abbrev pub In : Unassembled → Type 0
  In u = (u.index ≤ j) × (j < u.index + length u.bytes)

  abbrev pub Held : List Unassembled → Type 0
  Held [] = ⊥
  Held (u ∷ us) = In u ⊎ Held us

  abbrev pub Has : Pending → Type 0
  Has p = In p.piece ⊎ Held p.store

  -- To change what stands from an iterator on.
  through :
      {X : Type 0} (before xs ys : List Unassembled)
      → (Held xs → X ⊎ Held ys)
      → Held (rev_onto before xs)
      → X ⊎ Held (rev_onto before ys)
  unfolding rev_onto
  through {X = X} [] xs ys f h = f h
  through {X = X} (u ∷ before) xs ys f h = through before (u ∷ xs) (u ∷ ys) step h
    where
      step : Held (u ∷ xs) → X ⊎ Held (u ∷ ys)
      step (inl i) = inr (inl i)
      step (inr k) = elim (f k) [ inl x ↦ inl x | inr y ↦ inr (inr y) ]

  pub insert-Held :
      (u : Unassembled) (us : List Unassembled)
      → Missing u.index us
      → In u ⊎ Held us
      → Held (insert u us)
  unfolding insert
  insert-Held u [] m (inl i) = inl i
  insert-Held u [] m (inr k) = absurd k
  insert-Held u (v ∷ us) m h =
      let rest : In u ⊎ Held us → Held (insert u us) = insert-Held u us m.1 in
      elim (Bool-cases (ltb u.index v.index)) [
        | inl less ↦ rw less h
        | inr more ↦
            let other : (u.index == v.index) ≡ false = ground (arith, m.0) in
            rw (more, other) (behind rest h)
      ]
    where
      behind : (In u ⊎ Held us → Held (insert u us)) → In u ⊎ Held (v ∷ us) → Held (v ∷ insert u us)
      behind rest (inl i) = inr (rest (inl i))
      behind rest (inr (inl i)) = inl i
      behind rest (inr (inr k)) = inr (rest (inr k))

  onto : (before xs : List Unassembled) → Held xs → Held (rev_onto before xs)
  unfolding rev_onto
  onto [] xs h = h
  onto (u ∷ before) xs h = onto before (u ∷ xs) (inr h)

  module _ (S : ℕ → ℕ) (limit first : ℕ) (small : limit < 2 ^ 64) where
    -- A piece that grew by a member has what both had.
    grown :
        {X : Type 0} (a u m : Unassembled)
        → Grown S limit first a u m
        → In a ⊎ (In u ⊎ X)
        → In m ⊎ X
    grown a u m g (inl i) = inl (omega (arith, g.left, i), omega (arith, g.covers, i))
    grown a u m g (inr (inl i)) = inl (omega (arith, g.low, i), omega (arith, g.over, i))
    grown a u m g (inr (inr x)) = inr x

    forward_loop-Has :
        (k : ℕ) (a : Unassembled) (count : ℕ) (after : List Unassembled)
        → first ≤ k + 1
        → Fits S limit first a
        → Store S limit k after
        → In a ⊎ Held after
        → Has (forward_loop a count after)
    unfolding forward_loop
    forward_loop-Has k a count [] h f s i = i
    forward_loop-Has k a count (u ∷ after) h f s i =
        merge_cases S limit first small k a u f h s.0 s.1 s.2
          (λ r. Has (elim r [
            | none ↦ record { piece = a; count = count; store = u ∷ after }
            | some merged ↦ forward_loop merged (sub64 count (length u.bytes)) after
          ]))
          (λ _. i)
          λ m g. forward_loop-Has u.index m _ after (omega arith) g.fits s.3 (grown a u m g i)

    -- A member that stands past an iterator goes into the piece.
    merged :
        (a v u m : Unassembled) (before after : List Unassembled)
        → Grown S limit first a u m
        → In a ⊎ Held (rev_onto before (v ∷ u ∷ after))
        → In m ⊎ Held (rev_onto before (v ∷ after))
    merged a v u m before after g (inl i) = grown a u m g (inl i)
    merged a v u m before after g (inr k) =
        grown a u m g (inr (through before (v ∷ u ∷ after) (v ∷ after) out k))
      where
        out : Held (v ∷ u ∷ after) → In u ⊎ Held (v ∷ after)
        out (inl i) = inr (inl i)
        out (inr (inl i)) = inl i
        out (inr (inr k)) = inr (inr k)

    back_loop-Has :
        (lo : ℕ) (a : Unassembled) (count : ℕ) (before : List Unassembled) (u : Unassembled)
        (after : List Unassembled)
        → first ≤ lo + 1
        → Fits S limit first a
        → Store S limit lo (rev_onto before (u ∷ after))
        → In a ⊎ Held (rev_onto before (u ∷ after))
        → Has (back_loop a count before u after)
    unfolding back_loop rev_onto
    back_loop-Has lo a count [] u after h f s i = i
    back_loop-Has lo a count (v ∷ before) u after h f s i =
        let (k, hk, t) = Store-after S limit lo (v ∷ before) (u ∷ after) s in
        merge_cases S limit first small k a u f (omega arith) t.0 t.1 t.2
          (λ r. Has (elim r [
            | none ↦ record { piece = a; count = count; store = rev_onto (v ∷ before) (u ∷ after) }
            | some merged ↦ back_loop merged (sub64 count (length u.bytes)) before v after
          ]))
          (λ _. i)
          λ m g.
            back_loop-Has lo m _ before v after h g.fits
              (Store-rev_onto S limit lo before (v ∷ u ∷ after) (v ∷ after)
                (λ j _. Store-skip S limit j v u after) s)
              (merged a v u m before after g i)

    back_from_end-Has :
        (lo : ℕ) (a : Unassembled) (count : ℕ) (before : List Unassembled) (u : Unassembled)
        → first ≤ lo + 1
        → Fits S limit first a
        → Store S limit lo (rev_onto before (u ∷ []))
        → In a ⊎ Held (rev_onto before (u ∷ []))
        → Has (back_from_end a count before u)
    unfolding back_from_end rev_onto
    back_from_end-Has lo a count [] u h f s i =
        merge_cases S limit first small lo a u f h s.0 s.1 s.2
          (λ r. Has (elim r [
            | none ↦ record { piece = a; count = count; store = u ∷ [] }
            | some merged ↦ absorb merged u count []
          ]))
          (λ _. i) λ m g. grown a u m g i
    back_from_end-Has lo a count (v ∷ before) u h f s i =
        let (k, hk, t) = Store-after S limit lo (v ∷ before) (u ∷ []) s in
        merge_cases S limit first small k a u f (omega arith) t.0 t.1 t.2
          (λ r. Has (elim r [
            | none ↦ record { piece = a; count = count; store = rev_onto (v ∷ before) (u ∷ []) }
            | some merged ↦ back_loop merged (sub64 count (length u.bytes)) before v []
          ]))
          (λ _. i)
          λ m g.
            back_loop-Has lo m _ before v [] h g.fits
              (Store-rev_onto S limit lo before (v ∷ u ∷ []) (v ∷ [])
                (λ j _. Store-skip S limit j v u []) s)
              (merged a v u m before [] g i)

    back_from-Has :
        (lo : ℕ) (a : Unassembled) (count : ℕ) (before after : List Unassembled)
        → first ≤ lo + 1
        → Fits S limit first a
        → Store S limit lo (rev_onto before after)
        → In a ⊎ Held (rev_onto before after)
        → Has (back_from a count before after)
    unfolding back_from rev_onto
    back_from-Has lo a count [] after h f s i = i
    back_from-Has lo a count (u ∷ before) [] h f s i = back_from_end-Has lo a count before u h f s i
    back_from-Has lo a count (v ∷ before) (u ∷ after) h f s i =
        back_loop-Has lo a count (v ∷ before) u after h f s i

    pub merge_back-Has :
        (lo : ℕ) (p : Pending)
        → first ≤ lo + 1
        → Fits S limit first p.piece
        → Store S limit lo p.store
        → Has p
        → Has (merge_back p)
    unfolding merge_back
    merge_back-Has lo p h f s i =
        let e : rev_onto before after ≡ p.store = lower_bound-rev_onto p.piece.index [] p.store in
        back_from-Has lo p.piece p.count before after h f (rw e s) (rw e i)
      where
        before : List Unassembled
        before = (lower_bound p.piece.index [] p.store).0

        after : List Unassembled
        after = (lower_bound p.piece.index [] p.store).1

    pub merge_forward-Has :
        (lo : ℕ) (p : Pending)
        → first ≤ lo + 1
        → Fits S limit first p.piece
        → Store S limit lo p.store
        → Has p
        → Has (merge_forward p)
    unfolding merge_forward
    merge_forward-Has lo p h f s i =
        let e : rev_onto before after ≡ p.store = lower_bound-rev_onto p.piece.index [] p.store in
        let (k, hk, t) = Store-after S limit lo before after (rw e s) in
        let on : In p.piece ⊎ Held after → Has q =
          forward_loop-Has k p.piece p.count after (omega arith) f t in
        moved on (rw e i)
      where
        before : List Unassembled
        before = (lower_bound p.piece.index [] p.store).0

        after : List Unassembled
        after = (lower_bound p.piece.index [] p.store).1

        q : Pending
        q = forward_loop p.piece p.count after

        moved :
            (In p.piece ⊎ Held after → Has q)
            → In p.piece ⊎ Held (rev_onto before after)
            → In q.piece ⊎ Held (rev_onto before q.store)
        moved on (inl i) = elim (on (inl i)) [ inl x ↦ inl x | inr y ↦ inr (onto before q.store y) ]
        moved on (inr k) = through before after q.store (λ y. on (inr y)) k
