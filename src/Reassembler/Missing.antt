-- ===== src/Reassembler/Missing.antt =====
-- Members of the set with other indexes than a piece's, so that `set::insert`
-- (libsponge/stream_reassembler.cc) adds the piece.
use cs.Prelude.{
  ℕ, ◌+◌, ◌-◌, ◌≤◌, ◌<◌, ◌≡◌, ◌≢◌, List, [], ◌∷◌, arith, length, ltb, Bool-cases, inl, inr,
}
use cs.Reassembler.{Unassembled, rev_onto, lower_bound, insert}
use cs.Reassembler.Store.{Store, total}

abbrev pub Missing : ℕ → List Unassembled → Type 0
Missing i [] = Unit {0}
Missing i (u ∷ us) = (u.index ≢ i) × Missing i us

pub Missing-rev_onto :
    (i : ℕ) (before after : List Unassembled)
    → Missing i before
    → Missing i after
    → Missing i (rev_onto before after)
unfolding rev_onto
Missing-rev_onto i [] after b a = a
Missing-rev_onto i (u ∷ before) after b a = Missing-rev_onto i before (u ∷ after) b.1 (b.0, a)

pub total-insert :
    (u : Unassembled) (us : List Unassembled)
    → Missing u.index us
    → total (insert u us) ≡ length u.bytes + total us
unfolding insert
total-insert u [] m = omega arith
total-insert u (v ∷ us) m = ground (arith, total-insert u us m.1)

pub lower_bound_before :
    (i : ℕ) (before us : List Unassembled)
    → Missing i before
    → Missing i (lower_bound i before us).0
unfolding lower_bound
lower_bound_before i before [] m = m
lower_bound_before i before (u ∷ us) m = elim (Bool-cases (ltb u.index i)) [
  | inl less ↦ rw less (lower_bound_before i (u ∷ before) us (ground arith, m))
  | inr more ↦ rw more m
]

module _ (S : ℕ → ℕ) (limit : ℕ) where
  pub Store-Missing : (i k : ℕ) (us : List Unassembled) → i ≤ k → Store S limit k us → Missing i us
  Store-Missing i k [] h s = tt
  Store-Missing i k (u ∷ us) h s = (omega arith, Store-Missing i u.index us (omega arith) s.3)

  -- What `lower_bound` leads to stands from the index on.
  pub lower_bound-Store :
      (i j : ℕ) (before us : List Unassembled)
      → Store S limit j (lower_bound i before us).1
      → 0 < i
      → Store S limit (i - 1) (lower_bound i before us).1
  unfolding lower_bound
  lower_bound-Store i j before [] s h = tt
  lower_bound-Store i j before (u ∷ us) s h = elim (Bool-cases (ltb u.index i)) [
    | inl less ↦ rw less (lower_bound-Store i j (u ∷ before) us (rw less at s) h)
    | inr more ↦
        let t : Store S limit j (u ∷ us) = rw more at s in
        rw more (
          let from_here : i - 1 < u.index = ground arith in
          (from_here, t.1, record { from = omega arith; upto = t.2.upto; right = t.2.right }, t.3))
  ]
