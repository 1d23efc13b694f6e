-- ===== src/Reassembler/Store.antt =====
-- What the set of stored substrings holds (libsponge/stream_reassembler.cc): pieces of the sender's
-- stream `S`, by rising index, past the bytes already put together and inside the window.
use cs.Prelude.{
  ℕ, ◌+◌, ◌-◌, ◌^◌, ◌≤◌, ◌<◌, ◌≡◌, refl, ap₂, ◌∙◌, ◌⊎◌, Option, none, some, List, [], ◌∷◌, arith,
  length, min, max, inl, inr, ltb, ◌||◌, Bool, Bool-cases, if◌then◌else◌,
}
use cs.Reassembler.{Unassembled, merge_substring, rev_onto, insert}
use cs.Reassembler.Slice.{slice, length-slice, piece, joined, merge_substring-piece}

-- The bytes held, as often as they are held.
abbrev pub total : List Unassembled → ℕ
total [] = 0
total (u ∷ us) = length u.bytes + total us

pub total-rev_onto :
    (before after : List Unassembled) → total (rev_onto before after) ≡ total before + total after
unfolding rev_onto
total-rev_onto [] after = omega arith
total-rev_onto (u ∷ before) after = omega (arith, total-rev_onto before (u ∷ after))

module _ (S : ℕ → ℕ) (limit : ℕ) where
  -- A piece of the stream from index `first` on, inside the window; it may be empty.
  pub record Fits (first : ℕ) (u : Unassembled) : Type 0 where
    pub from : first ≤ u.index
    pub upto : u.index + length u.bytes ≤ limit
    pub right : u.bytes ≡ slice S u.index (length u.bytes)

  -- The members of the set, all past index `lo`.
  abbrev pub Store : ℕ → List Unassembled → Type 0
  Store lo [] = Unit {0}
  Store lo (u ∷ us) = (lo < u.index) × (0 < length u.bytes) × Fits lo u × Store u.index us

  pub Fits-le : {i j : ℕ} {u : Unassembled} → i ≤ j → Fits j u → Fits i u
  Fits-le h f = record { from = omega arith; upto = f.upto; right = f.right }

  pub Store-le : (i j : ℕ) (us : List Unassembled) → i ≤ j → Store j us → Store i us
  Store-le i j [] h s = tt
  Store-le i j (u ∷ us) h s = (omega arith, s.1, Fits-le h s.2, s.3)

  pub Store-skip :
      (lo : ℕ) (u v : Unassembled) (us : List Unassembled)
      → Store lo (u ∷ v ∷ us)
      → Store lo (u ∷ us)
  Store-skip lo u v us s = (s.0, s.1, s.2, Store-le u.index v.index us (omega arith) s.3.3)

  -- To change what stands from an iterator on.
  pub Store-rev_onto :
      (lo : ℕ) (before xs ys : List Unassembled)
      → ((k : ℕ) → lo ≤ k → Store k xs → Store k ys)
      → Store lo (rev_onto before xs)
      → Store lo (rev_onto before ys)
  unfolding rev_onto
  Store-rev_onto lo [] xs ys f s = f lo (omega arith) s
  Store-rev_onto lo (u ∷ before) xs ys f s =
      Store-rev_onto lo before (u ∷ xs) (u ∷ ys)
        (λ k h t. (t.0, t.1, t.2, f u.index (omega arith) t.3)) s

  -- What stands from an iterator on is past what stands before it.
  pub Store-after :
      (lo : ℕ) (before xs : List Unassembled)
      → Store lo (rev_onto before xs)
      → (k : ℕ) × (lo ≤ k) × Store k xs
  unfolding rev_onto
  Store-after lo [] xs s = (lo, omega arith, s)
  Store-after lo (u ∷ before) xs s =
      let (k, h, t) = Store-after lo before (u ∷ xs) s in (u.index, omega arith, t.3)

  -- The outcome of `merge_substring` of a new piece and a member.
  pub data Merged (first : ℕ) (a b : Unassembled) : Option Unassembled → Type 0 where
    apart :
        (a.index + length a.bytes < b.index) ⊎ (b.index + length b.bytes < a.index)
        → Merged first a b none
    together :
        (m : Unassembled)
        → Fits first m
        → m.index ≡ min a.index b.index
        → m.index + length m.bytes ≡ max (a.index + length a.bytes) (b.index + length b.bytes)
        → Merged first a b (some m)

  abbrev apart_test : Unassembled → Unassembled → Bool
  apart_test a b = ltb (a.index + length a.bytes) b.index || ltb (b.index + length b.bytes) a.index

  abbrev both : Unassembled → Unassembled → Unassembled
  both a b = joined S a.index (length a.bytes) b.index (length b.bytes)

  piece_eq :
      (u : Unassembled)
      → u.bytes ≡ slice S u.index (length u.bytes)
      → u ≡ piece S u.index (length u.bytes)
  piece_eq u e = ground arith

  pub merge_substring-Merged :
      (first lo : ℕ) (a b : Unassembled)
      → limit < 2 ^ 64
      → Fits first a
      → first ≤ lo + 1
      → lo < b.index
      → 0 < length b.bytes
      → Fits lo b
      → Merged first a b (merge_substring a b)
  merge_substring-Merged first lo a b h f1 h2 h3 h4 f2 = elim (Bool-cases (apart_test a b)) [
    | inl away ↦ rw (as_pieces, away) (apart (ground arith))
    | inr meet ↦
        rw (as_pieces, meet)
          (together (both a b)
            (record { from = omega arith; upto = omega (arith, long); right = rw length-slice })
            refl (omega (arith, long)))
  ]
    where
      long :
          length (both a b).bytes
          ≡ max (a.index + length a.bytes) (b.index + length b.bytes) - min a.index b.index
      long = length-slice S (min a.index b.index) _

      as_pieces : merge_substring a b ≡ (if apart_test a b then none else some (both a b))
      as_pieces =
          ap₂ merge_substring (piece_eq a f1.right) (piece_eq b f2.right)
          ∙ merge_substring-piece S a.index (length a.bytes) b.index (length b.bytes) (omega arith)
              (omega arith) (omega arith) h4

  pub insert-Store :
      (lo : ℕ) (u : Unassembled) (us : List Unassembled)
      → lo < u.index
      → 0 < length u.bytes
      → Fits lo u
      → Store lo us
      → Store lo (insert u us)
  unfolding insert
  insert-Store lo u [] h1 h2 f s = (h1, h2, f, tt)
  insert-Store lo u (v ∷ us) h1 h2 f s = ground (arith, insert-Store v.index u us)
