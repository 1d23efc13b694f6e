-- ===== src/Reassembler/Slice.antt =====
-- Stretches of the byte stream that a sender means, and what `merge_substring`
-- (libsponge/stream_reassembler.cc) makes of two of them.
use cs.Prelude.{
  ◌∙◌, ℕ, zero, suc, ◌+◌, ◌-◌, ◌^◌, ◌≤◌, ◌<◌, ◌≡◌, refl, ap, sym, none, some, List, [], ◌∷◌, ◌++◌,
  arith, length, take, drop, min, max, ltb, ◌||◌, if◌then◌else◌, add64, sub64,
}
use cs.Reassembler.{Unassembled, merge_substring, last}

module _ (S : ℕ → ℕ) where
  -- The `n` bytes of the stream from index `i` on.
  abbrev pub slice : ℕ → ℕ → List ℕ
  slice i zero = []
  slice i (suc n) = S i ∷ slice (i + 1) n

  pub length-slice : (i n : ℕ) → length (slice i n) ≡ n
  length-slice i zero = refl
  length-slice i (suc n) = ap suc (length-slice (i + 1) n)

  slice_at : (i j n : ℕ) → i ≡ j → slice i n ≡ slice j n
  slice_at i j n e = ap (λ k. slice k n) e

  pub slice-add : (i m n : ℕ) → slice i (m + n) ≡ slice i m ++ slice (i + m) n
  slice-add i zero n =
      let k : i + 0 ≡ i = omega arith in let z : 0 + n ≡ n = omega arith in rw (k, z)
  slice-add i (suc m) n =
      let k : suc m + n ≡ suc (m + n) = omega arith in
      let j : i + suc m ≡ i + 1 + m = omega arith in
      rw (k, j) (ap (◌∷◌ (S i)) (slice-add (i + 1) m n))

  -- The stretch up to `n`, cut where `m` bytes are left.
  pub slice_from_zero : (m n : ℕ) → m ≤ n → slice 0 n ≡ slice 0 (n - m) ++ slice (n - m) m
  slice_from_zero m n h =
      let all : n ≡ n - m + m = omega arith in
      let from : 0 + (n - m) ≡ n - m = omega arith in
      ap (slice 0) all ∙ slice-add 0 (n - m) m ∙ ap (λ i. slice 0 (n - m) ++ slice i m) from

  pub drop-slice : (m i n : ℕ) → drop m (slice i n) ≡ slice (i + m) (n - m)
  drop-slice zero i n =
      let k : i + 0 ≡ i = omega arith in let z : n - 0 ≡ n = omega arith in rw (k, z)
  drop-slice (suc m) i zero = let z : 0 - suc m ≡ 0 = omega arith in rw z
  drop-slice (suc m) i (suc n) =
      let z : suc n - suc m ≡ n - m = omega arith in
      let j : i + suc m ≡ i + 1 + m = omega arith in rw (z, j) (drop-slice m (i + 1) n)

  pub take-slice : (m i n : ℕ) → m ≤ n → take m (slice i n) ≡ slice i m
  take-slice zero i n h = refl
  take-slice (suc m) i zero h = absurd (omega arith)
  take-slice (suc m) i (suc n) h = ap (◌∷◌ (S i)) (take-slice m (i + 1) n (omega arith))

  -- A stretch, and the rest of one that meets it.
  slice-join :
      (i m j n k : ℕ)
      → i ≤ j
      → j ≤ i + m
      → i + m ≤ j + n
      → k ≡ i + m - j
      → slice i m ++ drop k (slice j n) ≡ slice i (j + n - i)
  slice-join i m j n k h1 h2 h3 e =
      let at : j + k ≡ i + m = omega arith in
      let total : j + n - i ≡ m + (n - k) = omega arith in
      rw (drop-slice k j n, at, total) (sym (slice-add i m (n - k)))

  -- A piece is a stretch of the stream.
  abbrev pub piece : ℕ → ℕ → Unassembled
  piece i n = record { index = i; bytes = slice i n }

  abbrev pub joined : ℕ → ℕ → ℕ → ℕ → Unassembled
  joined i m j n = piece (min i j) (max (i + m) (j + n) - min i j)

  -- Pieces apart do not merge, and pieces that meet or overlap merge to the stretch that both cover.
  pub merge_substring-piece :
      (i m j n : ℕ)
      → i + m < 2 ^ 64
      → j + n < 2 ^ 64
      → 0 < j
      → 0 < n
      → merge_substring (piece i m) (piece j n)
        ≡ (if ltb (i + m) j || ltb (j + n) i then none else some (joined i m j n))
  unfolding merge_substring
  merge_substring-piece i m j n h1 h2 h3 h4 = ground (
    arith,
    length-slice i m,
    length-slice j n,
    slice-join i m j n (sub64 (add64 (last (piece i m)) 1) j),
    slice-join j n i m (sub64 (add64 (last (piece j n)) 1) i),
  )
