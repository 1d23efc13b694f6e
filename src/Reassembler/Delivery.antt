-- ===== src/Reassembler/Delivery.antt =====
-- A whole run of a reassembler (libsponge/stream_reassembler.cc): substrings arrive, and a client
-- reads from the output.
use cs.Prelude.{
  ◌⊎◌, inl, inr, subst, some_eq, ℕ, ◌+◌, ◌-◌, ◌^◌, ◌≤◌, ◌<◌, ◌≡◌, refl, ap, sym, ◌∙◌, Bool, some,
  List, [], ◌∷◌, ◌++◌, arith, length, take, drop, min, drop-min_right, take-all, take-append_le,
  length-append, ap₂, take-append-drop, length-drop, append_assoc,
}
use cs.BufferList.Laws.{contents}
use cs.ByteStream.{ByteStream}
use cs.ByteStream
use cs.ByteStream.Valid.{IsValid, init-IsValid, read_lem}
use cs.Reassembler.{StreamReassembler, Unassembled, init, push_substring}
use cs.Reassembler.Slice.{slice, length-slice, drop-slice, take-slice, slice_from_zero}
use cs.Reassembler.Store.{Store}
use cs.Reassembler.Window.{limit, SameWindow, InRange, Inv}
use cs.Reassembler.Push.{push_substring-Pushed}
use cs.Reassembler.Taken.{
  Brings, Outside, came_or_not, Covered, front-Covered, push_substring-Covered,
}

module _ (S : ℕ → ℕ) where
  -- A run from a new reassembler to a state, with the bytes that the client has read: what arrives
  -- are pieces of the stream that start in the window, and indexes do not wrap.
  pub data Run (capacity : ℕ) : List ℕ → StreamReassembler → Type 0 where
    start : Run capacity [] (init capacity)
    push :
        {out : List ℕ} {r r' : StreamReassembler} (bytes : List ℕ) (index : ℕ) (eof : Bool)
        → Run capacity out r
        → InRange r
        → bytes ≡ slice S index (length bytes)
        → index + length bytes < 2 ^ 64
        → index ≤ limit r
        → push_substring bytes index eof r ≡ some r'
        → Run capacity out r'
    read :
        {out bytes all : List ℕ} {r : StreamReassembler} {s : ByteStream} (n : ℕ)
        → Run capacity out r
        → InRange r
        → ByteStream.read n r.output ≡ some (bytes, s)
        → all ≡ out ++ bytes
        → Run capacity all (record r { output = s })

  widen :
      (end end' lo : ℕ) (us : List Unassembled)
      → end ≤ end'
      → Store S end lo us
      → Store S end' lo us
  widen end end' lo [] h s = tt
  widen end end' lo (u ∷ us) h s = (
    s.0,
    s.1,
    record { from = s.2.from; upto = omega (arith, s.2.upto); right = s.2.right },
    widen end end' u.index us h s.3,
  )

  -- What has been read is the stream up to the bytes in the output.
  read_part :
      (out : List ℕ) (r : StreamReassembler)
      → Inv S r
      → out ++ contents r.output.stream_buffer ≡ slice S 0 r.first_unassemble_byte
      → out ≡ slice S 0 (r.first_unassemble_byte - r.output.size)
  read_part out r v all =
      sym (take-all (length out) out (omega arith))
      ∙ sym (take-append_le (length out) out (contents r.output.stream_buffer) (omega arith))
      ∙ ap (take (length out)) all
      ∙ take-slice S (length out) 0 r.first_unassemble_byte (omega (arith, long))
      ∙ ap (slice S 0) (omega (arith, long, v.output.sized, v.recent))
    where
      long : length out + length (contents r.output.stream_buffer) ≡ r.first_unassemble_byte
      long =
          sym (length-append out (contents r.output.stream_buffer))
          ∙ ap length all
          ∙ length-slice S 0 r.first_unassemble_byte

  -- The output moves on from there.
  pub moves_on :
      (out : List ℕ) (r r' : StreamReassembler)
      → Inv S r
      → Inv S r'
      → SameWindow r r'
      → out ++ contents r.output.stream_buffer ≡ slice S 0 r.first_unassemble_byte
      → out ++ contents r'.output.stream_buffer ≡ slice S 0 r'.first_unassemble_byte
  moves_on out r r' v v' w all =
      let at : r.first_unassemble_byte - r.output.size ≡ r'.first_unassemble_byte - r'.output.size =
        omega (
          arith, w.0, w.1, v.recent, v'.recent, v.output.within, v'.output.within, v.bounded,
          v'.bounded,
        ) in
      ap₂ ◌++◌ (read_part out r v all ∙ ap (slice S 0) at) v'.delivered
      ∙ sym (slice_from_zero S r'.output.size r'.first_unassemble_byte v'.recent)

  read-Inv :
      (n : ℕ) (r : StreamReassembler) (s : ByteStream)
      → Inv S r
      → InRange r
      → IsValid s
      → contents s.stream_buffer ≡ drop n (contents r.output.stream_buffer)
      → s.capacity ≡ r.output.capacity
      → s.num_write ≡ r.output.num_write
      → Inv S (record r { output = s })
  read-Inv n r s v range valid rest cap written = record {
    output = valid;
    bounded = cap ∙ v.bounded;
    written = written ∙ v.written;
    recent = omega (arith, size, v.recent);
    delivered =
        rest
        ∙ sym (drop-min_right n (contents r.output.stream_buffer))
        ∙ ap₂ drop (ap (min n) (sym v.output.sized)) v.delivered
        ∙ drop-slice S (min n r.output.size) (r.first_unassemble_byte - r.output.size) r.output.size
        ∙ ap₂ (slice S) (omega (arith, size, v.recent)) (omega (arith, size));
    stored = widen _ _ _ r.unassembled (omega (arith, size)) v.stored;
    counted = v.counted;
  }
    where
      size : s.size ≡ r.output.size - n
      size = omega (
        arith,
        valid.sized,
        ap length rest,
        length-drop n (contents r.output.stream_buffer),
        v.output.sized,
      )

  -- What a client reads goes to the end of what it has read.
  pub read-Delivered :
      (out bytes : List ℕ) (n : ℕ) (r : StreamReassembler) (s : ByteStream)
      → Inv S r
      → InRange r
      → ByteStream.read n r.output ≡ some (bytes, s)
      → out ++ contents r.output.stream_buffer ≡ slice S 0 r.first_unassemble_byte
      → Inv S (record r { output = s })
        × ((out ++ bytes) ++ contents s.stream_buffer ≡ slice S 0 r.first_unassemble_byte)
  read-Delivered out bytes n r s inv range e all =
      let (valid, got, rest, cap, written) = read_lem r.output s n bytes inv.output e in
      (
        read-Inv n r s inv range valid rest cap written,
        rw (append_assoc, got, rest)
            (ap (◌++◌ out) (take-append-drop n (contents r.output.stream_buffer)) ∙ all),
      )

  -- A new reassembler holds nothing.
  pub init-Inv : (capacity : ℕ) → capacity < 2 ^ 64 → Inv S (init capacity)
  unfolding init ByteStream.init
  init-Inv capacity h = record {
    output = init-IsValid capacity h;
    bounded = refl;
    written = refl;
    recent = omega arith;
    delivered = refl;
    stored = tt;
    counted = refl;
  }

  Run-Sliced :
      (capacity : ℕ) {out : List ℕ} {r : StreamReassembler}
      → capacity < 2 ^ 64
      → Run capacity out r
      → Inv S r × (out ++ contents r.output.stream_buffer ≡ slice S 0 r.first_unassemble_byte)
  unfolding init ByteStream.init
  Run-Sliced capacity h start = (init-Inv capacity h, refl)
  Run-Sliced capacity {out} h (push bytes index eof run range right small inside e) =
      let (inv, all) = Run-Sliced capacity h run in
      let (r', e', p) = push_substring-Pushed S bytes index eof _ inv range right small inside in
      subst
        (λ t.
          Inv S t × (out ++ contents t.output.stream_buffer ≡ slice S 0 t.first_unassemble_byte))
        (some_eq (sym e' ∙ e)) (p.inv, moves_on out _ r' inv p.inv p.window all)
  Run-Sliced capacity h (read {out} {bytes} {all = everything} {r} {s} n run range e at) =
      let (inv, all) = Run-Sliced capacity h run in
      let (inv', all') = read-Delivered out bytes n r s inv range e all in (inv', rw at all')

  -- Index `j` was in none of the substrings, or past the window when it came.
  abbrev pub Lacking :
      ℕ → {capacity : ℕ} {out : List ℕ} {r : StreamReassembler} → Run capacity out r → Type 0
  Lacking j start = Unit {0}
  Lacking j (push {r} bytes index eof run range right small inside e) =
      Outside j bytes index r × Lacking j run
  Lacking j (read n run range e at) = Lacking j run

  Run-Covered :
      (j capacity : ℕ) {out : List ℕ} {r : StreamReassembler}
      → capacity < 2 ^ 64
      → (run : Run capacity out r) → Lacking j run ⊎ Covered j r
  Run-Covered j capacity h start = inl tt
  Run-Covered j capacity h (push {r} {r'} bytes index eof run range right small inside e) =
      let inv = (Run-Sliced capacity h run).0 in
      let on : Brings j bytes index r ⊎ Covered j r → Covered j r' =
        push_substring-Covered S j bytes index eof r r' inv range right small inside e in
      elim (Run-Covered j capacity h run) [
        | inr had ↦ inr (on (inr had))
        | inl lacked ↦ elim (came_or_not j bytes index r) [
          | inl brings ↦ inr (on (inl brings))
          | inr outside ↦ inl (outside, lacked)
        ]
      ]
  Run-Covered j capacity h (read n run range e at) = Run-Covered j capacity h run

  -- After any run from a new reassembler, of pieces of one stream that arrive in any order, each
  -- starting in the window, and of reads, while indexes do not wrap: the bytes read, with those still
  -- in the output, are the stream's bytes up to the front; the index at the front has not come in the
  -- window; and any index that came in the window is before the front or in a piece that is held.
  pub Run-Delivered :
      (capacity j : ℕ) {out : List ℕ} {r : StreamReassembler}
      → capacity < 2 ^ 64
      → (run : Run capacity out r)
      → Inv S r
        × (out ++ contents r.output.stream_buffer ≡ slice S 0 r.first_unassemble_byte)
        × Lacking r.first_unassemble_byte run
        × (Lacking j run ⊎ Covered j r)
  Run-Delivered capacity j {out} {r} h run =
      let (inv, all) = Run-Sliced capacity h run in
      (
        inv,
        all,
        elim (Run-Covered r.first_unassemble_byte capacity h run) [
          | inl lacked ↦ lacked
          | inr covered ↦ absurd (front-Covered S r inv covered)
        ],
        Run-Covered j capacity h run,
      )
