-- ===== src/Reassembler/Window.antt =====
-- The invariant of a reassembler (libsponge/stream_reassembler.cc) that is fed substrings of one
-- stream, and the part of a substring that `push_substring` keeps.
use cs.Prelude.{
  ℕ, ◌+◌, ◌-◌, ◌%◌, ◌^◌, ◌≤◌, ◌<◌, ◌≡◌, refl, ap, ◌∙◌, Bool, ◌&&◌, some, List, arith, length, take,
  drop, min, max, ◌==◌, inl, inr, Bool-cases, length-take, length-drop,
}
use cs.BufferList.Laws.{contents}
use cs.ByteStream.{ByteStream}
use cs.ByteStream
use cs.ByteStream.Valid.{IsValid}
use cs.Reassembler.{
  StreamReassembler, Unassembled, trim, begin_index, end_index, res_index, end_if_done,
}
use cs.Reassembler.Slice.{slice, drop-slice, take-slice}
use cs.Reassembler.Store.{Fits, Store, total}

-- The end of the window: the bytes taken out of the output so far, and the capacity.
abbrev pub limit : StreamReassembler → ℕ
limit r = r.first_unassemble_byte + r.capacity - r.output.size

-- The window stays where it is.
abbrev pub SameWindow : StreamReassembler → StreamReassembler → Type 0
SameWindow r r' = (limit r' ≡ limit r) × (r'.capacity ≡ r.capacity)

-- Two windows from the first byte that is not put together, indexes do not wrap.
abbrev pub InRange : StreamReassembler → Type 0
InRange r = r.first_unassemble_byte + r.capacity + r.capacity < 2 ^ 64

module _ (S : ℕ → ℕ) where
  -- The output ends with the stretch of the stream up to the first byte that is not put together,
  -- and the set holds pieces of the stream past that byte.
  pub record Inv (r : StreamReassembler) : Type 0 where
    pub output : IsValid r.output
    pub bounded : r.output.capacity ≡ r.capacity
    pub written : r.output.num_write ≡ r.first_unassemble_byte
    pub recent : r.output.size ≤ r.first_unassemble_byte
    pub delivered :
        contents r.output.stream_buffer
        ≡ slice S (r.first_unassemble_byte - r.output.size) r.output.size
    pub stored : Store S (limit r) r.first_unassemble_byte r.unassembled
    pub counted : r.num_unassembled_byte ≡ total r.unassembled % 2 ^ 64

  pub ending :
      (r : StreamReassembler) → Inv r → Inv (record r { output = ByteStream.end_input r.output })
  unfolding ByteStream.end_input
  ending r v = record {
    output = record {
      in_memory = v.output.in_memory;
      sized = v.output.sized;
      within = v.output.within;
      small = v.output.small;
      counted = v.output.counted;
    };
    bounded = v.bounded;
    written = v.written;
    recent = v.recent;
    delivered = v.delivered;
    stored = v.stored;
    counted = v.counted;
  }

  pub with_eof : (e : Bool) (r : StreamReassembler) → Inv r → Inv (record r { eof = e })
  with_eof e r v = record {
    output = v.output;
    bounded = v.bounded;
    written = v.written;
    recent = v.recent;
    delivered = v.delivered;
    stored = v.stored;
    counted = v.counted;
  }

  pub end_if_done-Inv : (r : StreamReassembler) → Inv r → Inv (end_if_done r)
  end_if_done-Inv r v = elim (Bool-cases ((r.num_unassembled_byte == 0) && r.eof)) [
    | inl done ↦ rw done (ending r v)
    | inr more ↦ rw more v
  ]

  -- The part of a substring that is kept is a piece of the stream in the window.
  pub trim_lem :
      (bytes : List ℕ) (index : ℕ) (r : StreamReassembler)
      → Inv r
      → InRange r
      → bytes ≡ slice S index (length bytes)
      → index + length bytes < 2 ^ 64
      → index ≤ limit r
      → r.first_unassemble_byte < index + length bytes
      → (u : Unassembled) × (trim bytes index r ≡ some u)
        × Fits S (limit r) r.first_unassemble_byte u
        × (u.index ≡ max index r.first_unassemble_byte)
        × (u.index + length u.bytes ≡ min (index + length bytes) (limit r))
  unfolding trim
  trim_lem bytes index r v range e small h k = (
    record { index = max index first; bytes = kept },
    rw (begins, ends, resumes) (ground arith),
    record { from = omega arith; upto = omega (arith, long); right = rw long right },
    refl,
    omega (arith, long),
  )
    where
      open r use {first_unassemble_byte as first}

      kept : List ℕ
      kept =
          take (min (length bytes) (limit r - index) - (first - index)) (drop (first - index) bytes)

      begins : begin_index index r ≡ first - index
      begins = ground arith

      ends : end_index bytes index r ≡ min (length bytes) (limit r - index)
      ends = ground (arith, v.output, v.bounded)

      resumes : res_index index r ≡ max index first
      resumes = ground arith

      long : length kept ≡ min (length bytes) (limit r - index) - (first - index)
      long = omega (
        arith,
        length-take (min (length bytes) (limit r - index) - (first - index))
            (drop (first - index) bytes),
        length-drop (first - index) bytes,
      )

      right :
          kept ≡ slice S (max index first) (min (length bytes) (limit r - index) - (first - index))
      right =
          let at : index + (first - index) ≡ max index first = omega arith in
          ap
            (λ b.
              take (min (length bytes) (limit r - index) - (first - index))
                (drop (first - index) b))
            e
          ∙ ap (take (min (length bytes) (limit r - index) - (first - index)))
              (drop-slice S (first - index) index (length bytes))
          ∙ take-slice S _ (index + (first - index)) (length bytes - (first - index)) (omega arith)
          ∙ ap (λ i. slice S i (min (length bytes) (limit r - index) - (first - index))) at
