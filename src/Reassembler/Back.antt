-- ===== src/Reassembler/Back.antt =====
-- The first loop, which merges a piece with the members before it (`push_substring` of
-- libsponge/stream_reassembler.cc), over a set of pieces of the sender's stream.
use cs.Prelude.{ℕ, ◌+◌, ◌%◌, ◌^◌, ◌≤◌, ◌<◌, ◌≡◌, none, some, List, [], ◌∷◌, arith, length, sub64}
use cs.Reassembler.{
  Unassembled, Pending, rev_onto, lower_bound, absorb, back_loop, back_from_end, back_from,
  merge_back,
}
use cs.Reassembler.Store.{
  Fits, Store, Store-skip, Store-rev_onto, Store-after, total, total-rev_onto,
}
use cs.Reassembler.Loops.{Kept, Kept-trans, merge_cases, lower_bound-rev_onto}

module _ (S : ℕ → ℕ) (limit first : ℕ) (small : limit < 2 ^ 64) where
  drop_member :
      (count : ℕ) (before : List Unassembled) (v u : Unassembled) (after : List Unassembled)
      → u.index + length u.bytes ≤ limit
      → count ≡ total (rev_onto (v ∷ before) (u ∷ after)) % 2 ^ 64
      → sub64 count (length u.bytes) ≡ total (rev_onto before (v ∷ after)) % 2 ^ 64
  unfolding rev_onto
  drop_member count before v u after h e =
      omega (arith, total-rev_onto before (v ∷ u ∷ after), total-rev_onto before (v ∷ after))

  back_loop-Kept :
      (lo : ℕ) (a : Unassembled) (count : ℕ) (before : List Unassembled) (u : Unassembled)
      (after : List Unassembled)
      → first ≤ lo + 1
      → Fits S limit first a
      → Store S limit lo (rev_onto before (u ∷ after))
      → count ≡ total (rev_onto before (u ∷ after)) % 2 ^ 64
      → Kept S limit first lo a (back_loop a count before u after)
  unfolding back_loop rev_onto
  back_loop-Kept lo a count [] u after h f s c = record {
    fits = f;
    left = omega arith;
    covers = omega arith;
    store = s;
    counted = c;
  }
  back_loop-Kept lo a count (v ∷ before) u after h f s c =
      let (k, hk, t) = Store-after S limit lo (v ∷ before) (u ∷ after) s in
      merge_cases S limit first small k a u f (omega arith) t.0 t.1 t.2
        (λ r. Kept S limit first lo a (elim r [
          | none ↦ record { piece = a; count = count; store = rev_onto (v ∷ before) (u ∷ after) }
          | some merged ↦ back_loop merged (sub64 count (length u.bytes)) before v after
        ]))
        (λ _. record { fits = f; left = omega arith; covers = omega arith; store = s; counted = c })
        λ m g.
          Kept-trans S limit first lo a m _ (g.left, g.covers)
            (back_loop-Kept lo m _ before v after h g.fits
              (Store-rev_onto S limit lo before (v ∷ u ∷ after) (v ∷ after)
                (λ j _. Store-skip S limit j v u after) s)
              (drop_member count before v u after t.2.upto c))

  back_from_end-Kept :
      (lo : ℕ) (a : Unassembled) (count : ℕ) (before : List Unassembled) (u : Unassembled)
      → first ≤ lo + 1
      → Fits S limit first a
      → Store S limit lo (rev_onto before (u ∷ []))
      → count ≡ total (rev_onto before (u ∷ [])) % 2 ^ 64
      → Kept S limit first lo a (back_from_end a count before u)
  unfolding back_from_end rev_onto
  back_from_end-Kept lo a count [] u h f s c =
      merge_cases S limit first small lo a u f h s.0 s.1 s.2
        (λ r. Kept S limit first lo a (elim r [
          | none ↦ record { piece = a; count = count; store = u ∷ [] }
          | some merged ↦ absorb merged u count []
        ]))
        (λ _. record { fits = f; left = omega arith; covers = omega arith; store = s; counted = c })
        λ m g. record {
          fits = g.fits;
          left = g.left;
          covers = g.covers;
          store = tt;
          counted = omega arith;
        }
  back_from_end-Kept lo a count (v ∷ before) u h f s c =
      let (k, hk, t) = Store-after S limit lo (v ∷ before) (u ∷ []) s in
      merge_cases S limit first small k a u f (omega arith) t.0 t.1 t.2
        (λ r. Kept S limit first lo a (elim r [
          | none ↦ record { piece = a; count = count; store = rev_onto (v ∷ before) (u ∷ []) }
          | some merged ↦ back_loop merged (sub64 count (length u.bytes)) before v []
        ]))
        (λ _. record { fits = f; left = omega arith; covers = omega arith; store = s; counted = c })
        λ m g.
          Kept-trans S limit first lo a m _ (g.left, g.covers)
            (back_loop-Kept lo m _ before v [] h g.fits
              (Store-rev_onto S limit lo before (v ∷ u ∷ []) (v ∷ [])
                (λ j _. Store-skip S limit j v u []) s)
              (drop_member count before v u [] t.2.upto c))

  back_from-Kept :
      (lo : ℕ) (a : Unassembled) (count : ℕ) (before after : List Unassembled)
      → first ≤ lo + 1
      → Fits S limit first a
      → Store S limit lo (rev_onto before after)
      → count ≡ total (rev_onto before after) % 2 ^ 64
      → Kept S limit first lo a (back_from a count before after)
  unfolding back_from rev_onto
  back_from-Kept lo a count [] after h f s c = record {
    fits = f;
    left = omega arith;
    covers = omega arith;
    store = s;
    counted = c;
  }
  back_from-Kept lo a count (u ∷ before) [] h f s c = back_from_end-Kept lo a count before u h f s c
  back_from-Kept lo a count (v ∷ before) (u ∷ after) h f s c =
      back_loop-Kept lo a count (v ∷ before) u after h f s c

  pub merge_back-Kept :
      (lo : ℕ) (p : Pending)
      → first ≤ lo + 1
      → Fits S limit first p.piece
      → Store S limit lo p.store
      → p.count ≡ total p.store % 2 ^ 64
      → Kept S limit first lo p.piece (merge_back p)
  unfolding merge_back
  merge_back-Kept lo p h f s c =
      let e : rev_onto before after ≡ p.store = lower_bound-rev_onto p.piece.index [] p.store in
      back_from-Kept lo p.piece p.count before after h f (rw e s) (rw e c)
    where
      before : List Unassembled
      before = (lower_bound p.piece.index [] p.store).0

      after : List Unassembled
      after = (lower_bound p.piece.index [] p.store).1
