-- ===== src/Reassembler/Forward.antt =====
-- The second loop, which merges a piece with the members after it (`push_substring` of
-- libsponge/stream_reassembler.cc), over a set of pieces of the sender's stream.
use cs.Prelude.{
  ℕ, ◌+◌, ◌-◌, ◌%◌, ◌^◌, ◌≤◌, ◌<◌, ◌≡◌, refl, ap, subst, sym, ◌∙◌, none, some, List, [], ◌∷◌, arith,
  length, sub64,
}
use cs.Reassembler.{Unassembled, Pending, rev_onto, lower_bound, forward_loop, merge_forward}
use cs.Reassembler.Store.{Fits, Store, Store-le, Store-rev_onto, Store-after, total, total-rev_onto}
use cs.Reassembler.Missing.{
  Missing, Missing-rev_onto, lower_bound_before, lower_bound-Store, Store-Missing,
}
use cs.Reassembler.Loops.{Kept, Grown, merge_cases, lower_bound-rev_onto}

module _ (S : ℕ → ℕ) (limit first : ℕ) where
  -- What the second loop makes of a piece and the members from an iterator on: it stops at a member
  -- that the piece does not reach. `extra` bytes are held before the iterator.
  pub record Forwarded (extra k : ℕ) (a : Unassembled) (q : Pending) : Type 0 where
    pub fits : Fits S limit first q.piece
    pub left : q.piece.index ≤ a.index
    pub covers : a.index + length a.bytes ≤ q.piece.index + length q.piece.bytes
    pub store : Store S limit k q.store
    pub counted : q.count ≡ (extra + total q.store) % 2 ^ 64
    pub same_left : a.index ≤ k + 1 → q.piece.index ≡ a.index
    pub reached : a.index ≤ k + 1 → Store S limit (q.piece.index + length q.piece.bytes) q.store

  module _ (small : limit < 2 ^ 64) where
    drop_first :
        (extra count : ℕ) (u : Unassembled) (after : List Unassembled)
        → u.index + length u.bytes ≤ limit
        → count ≡ (extra + total (u ∷ after)) % 2 ^ 64
        → sub64 count (length u.bytes) ≡ (extra + total after) % 2 ^ 64
    drop_first extra count u after h e = omega arith

    stopped :
        (end : ℕ) (k : ℕ) (u : Unassembled) (after : List Unassembled)
        → end < u.index
        → Store S limit k (u ∷ after)
        → Store S limit end (u ∷ after)
    stopped end k u after h s =
        (h, s.1, record { from = omega arith; upto = s.2.upto; right = s.2.right }, s.3)

    pub forward_loop-Forwarded :
        (extra k : ℕ) (a : Unassembled) (count : ℕ) (after : List Unassembled)
        → first ≤ k + 1
        → Fits S limit first a
        → Store S limit k after
        → count ≡ (extra + total after) % 2 ^ 64
        → Forwarded extra k a (forward_loop a count after)
    unfolding forward_loop
    forward_loop-Forwarded extra k a count [] h f s c = record {
      fits = f;
      left = omega arith;
      covers = omega arith;
      store = tt;
      counted = c;
      same_left = λ _. refl;
      reached = λ _. tt;
    }
    forward_loop-Forwarded extra k a count (u ∷ after) h f s c =
        merge_cases S limit first small k a u f h s.0 s.1 s.2
          (λ r. Forwarded extra k a (elim r [
            | none ↦ record { piece = a; count = count; store = u ∷ after }
            | some merged ↦ forward_loop merged (sub64 count (length u.bytes)) after
          ]))
          (λ away. record {
            fits = f;
            left = omega arith;
            covers = omega arith;
            store = s;
            counted = c;
            same_left = λ _. refl;
            reached = λ le. stopped _ k u after (omega arith) s;
          })
          λ m g. grown m g (
            forward_loop-Forwarded extra u.index m _ after (omega arith) g.fits s.3
              (drop_first extra count u after s.2.upto c))
      where
        grown :
            (m : Unassembled)
            → Grown S limit first a u m
            → {q : Pending} → Forwarded extra u.index m q
            → Forwarded extra k a q
        grown m g {q} w = record {
          fits = w.fits;
          left = omega (arith, g.left, w.left);
          covers = omega (arith, g.covers, w.covers);
          store = Store-le S limit k u.index q.store (omega arith) w.store;
          counted = w.counted;
          same_left = λ le. w.same_left (omega (arith, g.left)) ∙ omega (arith, g.low);
          reached = λ le. w.reached (omega (arith, g.left));
        }

    -- An iterator at the first member that is not before an index below them all.
    lower_bound_first :
        (i lo : ℕ) (us : List Unassembled)
        → i ≤ lo + 1
        → Store S limit lo us
        → lower_bound i [] us ≡ ([], us)
    unfolding lower_bound
    lower_bound_first i lo [] h s = refl
    lower_bound_first i lo (u ∷ us) h s = ground arith

    pub merge_forward-Kept :
        (lo : ℕ) (p : Pending)
        → first ≤ lo + 1
        → Fits S limit first p.piece
        → Store S limit lo p.store
        → p.count ≡ total p.store % 2 ^ 64
        → Kept S limit first lo p.piece (merge_forward p)
    unfolding merge_forward
    merge_forward-Kept lo p h f s c =
        let e : rev_onto before after ≡ p.store = lower_bound-rev_onto p.piece.index [] p.store in
        let s' : Store S limit lo (rev_onto before after) = rw e s in
        let (k, hk, t) = Store-after S limit lo before after s' in
        let count : p.count ≡ (total before + total after) % 2 ^ 64 =
          omega (arith, ap total e, total-rev_onto before after) in
        let w =
          forward_loop-Forwarded (total before) k p.piece p.count after (omega arith) f t count in
        record {
          fits = w.fits;
          left = w.left;
          covers = w.covers;
          store =
              Store-rev_onto S limit lo before after (forward_loop p.piece p.count after).store
                (λ j hj tj.
                  (forward_loop-Forwarded (total before) j p.piece p.count after (omega arith) f tj
                    count).store)
                s';
          counted =
              w.counted
              ∙ ap (λ n. n % 2 ^ 64)
                  (sym (total-rev_onto before (forward_loop p.piece p.count after).store));
        }
      where
        before : List Unassembled
        before = (lower_bound p.piece.index [] p.store).0

        after : List Unassembled
        after = (lower_bound p.piece.index [] p.store).1

    -- Where the piece is at the front, the members that are left stand past it.
    pub merge_forward_reached :
        (lo : ℕ) (p : Pending)
        → first ≤ lo + 1
        → Fits S limit first p.piece
        → Store S limit lo p.store
        → p.count ≡ total p.store % 2 ^ 64
        → p.piece.index ≤ lo + 1
        → let q = merge_forward p in Store S limit (q.piece.index + length q.piece.bytes) q.store
    unfolding merge_forward rev_onto
    merge_forward_reached lo p h f s c le =
        rw (lower_bound_first p.piece.index lo p.store le s)
          ((forward_loop-Forwarded 0 lo p.piece p.count p.store h f s (omega arith)).reached le)

    -- Where the piece is past the front, no member that is left has its index.
    pub merge_forward-Missing :
        (lo : ℕ) (p : Pending)
        → first ≤ lo + 1
        → Fits S limit first p.piece
        → Store S limit lo p.store
        → p.count ≡ total p.store % 2 ^ 64
        → 0 < p.piece.index
        → let q = merge_forward p in Missing q.piece.index q.store
    unfolding merge_forward
    merge_forward-Missing lo p h f s c le =
        let e : rev_onto before after ≡ p.store = lower_bound-rev_onto p.piece.index [] p.store in
        let (j, hj, t) = Store-after S limit lo before after (rw e s) in
        let t' : Store S limit (p.piece.index - 1) after =
          lower_bound-Store S limit p.piece.index j [] p.store t (omega arith) in
        let count : p.count ≡ (total before + total after) % 2 ^ 64 =
          omega (arith, ap total e, total-rev_onto before after) in
        let w =
          forward_loop-Forwarded (total before) (p.piece.index - 1) p.piece p.count after
            (omega arith) f t' count in
        subst (λ i. Missing i (merge_forward p).store) (sym (w.same_left (omega arith)))
          (Missing-rev_onto p.piece.index before (forward_loop p.piece p.count after).store
            (lower_bound_before p.piece.index [] p.store tt)
            (Store-Missing S limit p.piece.index _ (forward_loop p.piece p.count after).store
              (omega (arith, w.covers, w.left)) (w.reached (omega arith))))
      where
        before : List Unassembled
        before = (lower_bound p.piece.index [] p.store).0

        after : List Unassembled
        after = (lower_bound p.piece.index [] p.store).1
