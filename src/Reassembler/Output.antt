-- ===== src/Reassembler/Output.antt =====
-- A merged piece goes out, or into the set (`push_substring` of libsponge/stream_reassembler.cc).
use cs.Prelude.{
  ℕ, ◌+◌, ◌-◌, ◌≤◌, ◌<◌, ◌≡◌, ap, ◌∙◌, true, List, ◌++◌, arith, length, ltb, inl, inr, Bool-cases,
}
use cs.BufferList.Laws.{contents}
use cs.ByteStream.Valid.{write_fits}
use cs.Reassembler.{StreamReassembler, Unassembled, write_piece, keep_back}
use cs.Reassembler.Slice.{slice, slice-add}
use cs.Reassembler.Store.{Fits, Store, insert-Store}
use cs.Reassembler.Missing.{Missing, total-insert}
use cs.Reassembler.Window.{limit, InRange, Inv}

module _ (S : ℕ → ℕ) where
  extended :
      (held bytes : List ℕ) (first size n start all : ℕ)
      → size ≤ first
      → held ≡ slice S (first - size) size
      → bytes ≡ slice S first n
      → start ≡ first - size
      → all ≡ size + n
      → held ++ bytes ≡ slice S start all
  extended held bytes first size n start all h e b s a =
      let at : first - size + size ≡ first = omega arith in
      let joins : slice S (first - size) (size + n)
          ≡ slice S (first - size) size ++ slice S first n =
        slice-add S (first - size) size n
        ∙ ap (λ i. slice S (first - size) size ++ slice S i n) at in
      rw (e, b, s, a, joins)

  -- A piece at the front is written whole.
  pub write_piece-Inv :
      (u : Unassembled) (r : StreamReassembler)
      → Inv S r
      → InRange r
      → Fits S (limit r) r.first_unassemble_byte u
      → u.index ≡ r.first_unassemble_byte
      → Store S (limit r) (u.index + length u.bytes) r.unassembled
      → Inv S (write_piece u r)
        × ((write_piece u r).first_unassemble_byte ≡ u.index + length u.bytes)
        × (limit (write_piece u r) ≡ limit r)
  write_piece-Inv u r v range f at past =
      let (n, valid, size, held, counted, bounded) =
        write_fits r.output u.bytes v.output (omega arith) in
      let moved : (write_piece u r).first_unassemble_byte ≡ u.index + length u.bytes =
        omega (arith, n) in
      let window : limit (write_piece u r) ≡ limit r = omega (arith, n, size) in
      (
        record {
          output = valid;
          bounded = bounded ∙ v.bounded;
          written = omega (arith, n, counted, v.written);
          recent = omega (arith, n, size, v.recent);
          delivered =
              held
              ∙ extended (contents r.output.stream_buffer) u.bytes r.first_unassemble_byte
                  r.output.size (length u.bytes) _ _ v.recent v.delivered
                  (f.right ∙ ap (λ i. slice S i (length u.bytes)) at) (omega arith) size;
          stored = rw (window, moved) past;
          counted = v.counted;
        },
        moved,
        window,
      )

  -- A piece past the front is stored.
  pub keep_back-Inv :
      (u : Unassembled) (r : StreamReassembler)
      → Inv S r
      → InRange r
      → Fits S (limit r) r.first_unassemble_byte u
      → r.first_unassemble_byte < u.index
      → Missing u.index r.unassembled
      → Inv S (keep_back u r)
  unfolding keep_back
  keep_back-Inv u r v range f past missing = elim (Bool-cases (ltb 0 (length u.bytes))) [
    | inr none_left ↦ rw none_left v
    | inl filled ↦
        let later : ltb r.first_unassemble_byte u.index ≡ true = ground arith in
        rw (filled, later)
          (record {
            output = v.output;
            bounded = v.bounded;
            written = v.written;
            recent = v.recent;
            delivered = v.delivered;
            stored =
                insert-Store S (limit r) r.first_unassemble_byte u r.unassembled past (ground arith)
                  f v.stored;
            counted = omega (arith, v.counted, total-insert u r.unassembled missing);
          })
  ]
