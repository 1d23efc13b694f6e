-- ===== src/Reassembler/Finish.antt =====
-- The end of `push_substring` (libsponge/stream_reassembler.cc), from the merged piece on.
use cs.Prelude.{
  ℕ, ◌+◌, ◌%◌, ◌^◌, ◌≤◌, ◌<◌, ◌≡◌, refl, ◌∙◌, ◌⊎◌, Bool, true, ◌&&◌, arith, length, ◌==◌, inl, inr,
  Bool-cases,
}
use cs.ByteStream.{ByteStream}
use cs.ByteStream
use cs.Reassembler.{
  StreamReassembler, Unassembled, Pending, finish, write_piece, write_out, keep_back, end_if_done,
}
use cs.Reassembler.Store.{Fits, Store, total}
use cs.Reassembler.Missing.{Missing}
use cs.Reassembler.Window.{limit, SameWindow, InRange, Inv, ending, with_eof, end_if_done-Inv}
use cs.Reassembler.Output.{write_piece-Inv, keep_back-Inv}

module _ (S : ℕ → ℕ) where
  -- What a push leaves behind: the window stays where it is, and the front does not move back.
  pub record Pushed (r r' : StreamReassembler) (front : ℕ) : Type 0 where
    pub inv : Inv S r'
    pub window : SameWindow r r'
    pub forward : r.first_unassemble_byte ≤ r'.first_unassemble_byte
    pub reached : front ≤ r'.first_unassemble_byte
    pub ended : r'.eof ≡ true → r'.num_unassembled_byte ≡ 0 → r'.output.if_end ≡ true

  pub end_if_done-Pushed :
      (r r' : StreamReassembler) (front : ℕ)
      → Inv S r'
      → SameWindow r r'
      → r.first_unassemble_byte ≤ r'.first_unassemble_byte
      → front ≤ r'.first_unassemble_byte
      → Pushed r (end_if_done r') front
  unfolding ByteStream.end_input
  end_if_done-Pushed r r' front v w f g = record {
    inv = end_if_done-Inv S r' v;
    window = (ground arith, ground arith);
    forward = ground arith;
    reached = ground arith;
    ended = λ e z. ground arith;
  }

  write_out_front :
      (eof : Bool) (u : Unassembled) (r : StreamReassembler)
      → Inv S (write_piece u r)
      → u.index ≡ r.first_unassemble_byte
      → Inv S (write_out eof u r)
        × ((write_out eof u r).first_unassemble_byte ≡ (write_piece u r).first_unassemble_byte)
        × SameWindow (write_piece u r) (write_out eof u r)
  unfolding write_out ByteStream.write ByteStream.end_input
  write_out_front eof u r v at =
      let here : (u.index == r.first_unassemble_byte) ≡ true = ground arith in
      elim (Bool-cases (((ByteStream.write u.bytes r.output).0 == length u.bytes) && eof)) [
        | inl ends ↦
            rw (here, ends) (with_eof S true _ (ending S (write_piece u r) v), refl, (refl, refl))
        | inr on ↦ rw (here, on) (v, refl, (refl, refl))
      ]

  pub write_out_later :
      (eof : Bool) (u : Unassembled) (r : StreamReassembler)
      → r.first_unassemble_byte < u.index
      → write_out eof u r ≡ r
  unfolding write_out
  write_out_later eof u r h = ground arith

  keep_back_front :
      (u : Unassembled) (r : StreamReassembler)
      → u.index ≤ r.first_unassemble_byte
      → keep_back u r ≡ r
  unfolding keep_back
  keep_back_front u r h = ground arith

  keep_back_same :
      (u : Unassembled) (r : StreamReassembler)
      → ((keep_back u r).first_unassemble_byte ≡ r.first_unassemble_byte)
        × SameWindow r (keep_back u r)
  unfolding keep_back
  keep_back_same u r = (ground arith, (ground arith, ground arith))

  -- The state with the loops' results in it.
  abbrev pub with_loops : Pending → StreamReassembler → StreamReassembler
  with_loops p r = record r { unassembled = p.store; num_unassembled_byte = p.count }

  with_loops-Inv :
      (p : Pending) (r : StreamReassembler)
      → Inv S r
      → Store S (limit r) r.first_unassemble_byte p.store
      → p.count ≡ total p.store % 2 ^ 64
      → Inv S (with_loops p r)
  with_loops-Inv p r v s c = record {
    output = v.output;
    bounded = v.bounded;
    written = v.written;
    recent = v.recent;
    delivered = v.delivered;
    stored = s;
    counted = c;
  }

  pub finish-Pushed :
      (eof : Bool) (p : Pending) (r : StreamReassembler) (front : ℕ)
      → Inv S r
      → InRange r
      → Fits S (limit r) r.first_unassemble_byte p.piece
      → Store S (limit r) r.first_unassemble_byte p.store
      → p.count ≡ total p.store % 2 ^ 64
      → ((p.piece.index ≡ r.first_unassemble_byte)
          × Store S (limit r) (p.piece.index + length p.piece.bytes) p.store
          × (front ≤ p.piece.index + length p.piece.bytes))
        ⊎ ((r.first_unassemble_byte < p.piece.index)
            × Missing p.piece.index p.store
            × (front ≤ r.first_unassemble_byte))
      → Pushed r (finish eof p r) front
  unfolding finish
  finish-Pushed eof p r front v range f s c (inl (at, past, h)) =
      let start = with_loops-Inv p r v s c in
      let (w, moved, window) = write_piece-Inv S p.piece (with_loops p r) start range f at past in
      let (w', moved', window') = write_out_front eof p.piece (with_loops p r) w at in
      rw
        (keep_back_front p.piece (write_out eof p.piece (with_loops p r))
          (omega (arith, moved, moved')))
        (end_if_done-Pushed r _ front w' (window'.0 ∙ window, window'.1)
          (omega (arith, moved, moved', f.from)) (omega (arith, moved, moved')))
  finish-Pushed eof p r front v range f s c (inr (later, missing, h)) =
      let same = keep_back_same p.piece (with_loops p r) in
      rw (write_out_later eof p.piece (with_loops p r) later) (
        end_if_done-Pushed r _ front
          (keep_back-Inv S p.piece (with_loops p r) (with_loops-Inv p r v s c) range f later
            missing)
          same.1 (omega (arith, same.0)) (omega (arith, same.0)))
