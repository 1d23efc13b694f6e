-- ===== src/Reassembler/Loops.antt =====
-- The two loops that merge a piece with its neighbours (`push_substring` of
-- libsponge/stream_reassembler.cc), over a set of pieces of the sender's stream.
use cs.Prelude.{
  ℕ, ◌+◌, ◌%◌, ◌^◌, ◌≤◌, ◌<◌, ◌≡◌, refl, ◌⊎◌, Option, none, some, List, [], ◌∷◌, arith, length, min,
}
use cs.Reassembler.{Unassembled, Pending, merge_substring, rev_onto, lower_bound}
use cs.Reassembler.Store.{Fits, Store, Merged, apart, together, merge_substring-Merged, total}

pub lower_bound-rev_onto :
    (i : ℕ) (before after : List Unassembled)
    → let (b, a) = lower_bound i before after in rev_onto b a ≡ rev_onto before after
unfolding lower_bound rev_onto
lower_bound-rev_onto i before [] = refl
lower_bound-rev_onto i before (u ∷ after) =
    ground (arith, lower_bound-rev_onto i (u ∷ before) after)

module _ (S : ℕ → ℕ) (limit first : ℕ) where
  -- What the loops make of a piece `a` and the members: a piece of the stream that covers `a`, and
  -- members past `lo`, whose bytes are counted.
  pub record Kept (lo : ℕ) (a : Unassembled) (q : Pending) : Type 0 where
    pub fits : Fits S limit first q.piece
    pub left : q.piece.index ≤ a.index
    pub covers : a.index + length a.bytes ≤ q.piece.index + length q.piece.bytes
    pub store : Store S limit lo q.store
    pub counted : q.count ≡ total q.store % 2 ^ 64

  -- A piece that grew by a member.
  pub record Grown (a u m : Unassembled) : Type 0 where
    pub fits : Fits S limit first m
    pub left : m.index ≤ a.index
    pub covers : a.index + length a.bytes ≤ m.index + length m.bytes
    pub low : m.index ≡ min a.index u.index
    pub over : u.index + length u.bytes ≤ m.index + length m.bytes

  abbrev pub Apart : Unassembled → Unassembled → Type 0
  Apart a u = (a.index + length a.bytes < u.index) ⊎ (u.index + length u.bytes < a.index)

  pub Kept-trans :
      (lo : ℕ) (a m : Unassembled) (q : Pending)
      → (m.index ≤ a.index) × (a.index + length a.bytes ≤ m.index + length m.bytes)
      → Kept lo m q
      → Kept lo a q
  Kept-trans lo a m q g k = record {
    fits = k.fits;
    left = omega arith;
    covers = omega arith;
    store = k.store;
    counted = k.counted;
  }

  module _ (small : limit < 2 ^ 64) where
    -- The cases of `merge_substring` for a piece and a member.
    pub merge_cases :
        (k : ℕ) (a u : Unassembled)
        → Fits S limit first a
        → first ≤ k + 1
        → k < u.index
        → 0 < length u.bytes
        → Fits S limit k u
        → (P : Option Unassembled → Type 0) → (Apart a u → P none)
        → ((m : Unassembled) → Grown a u m → P (some m))
        → P (merge_substring a u)
    merge_cases k a u f h1 h2 h3 g P none_case some_case =
        go _ (merge_substring-Merged S limit first k a u small f h1 h2 h3 g)
      where
        go : (r : Option Unassembled) → Merged S limit first a u r → P r
        go r (apart h) = none_case h
        go r (together m f' i e) = some_case m (record {
          fits = f';
          left = omega arith;
          covers = omega arith;
          low = omega arith;
          over = omega arith;
        })
