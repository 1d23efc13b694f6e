-- ===== src/Reassembler/Taken.antt =====
-- Every byte that `push_substring` (libsponge/stream_reassembler.cc) takes is put together or held.
use cs.Prelude.{
  [], ◌∷◌, ℕ, ◌+◌, ◌%◌, ◌^◌, ◌≤◌, ◌<◌, ◌≡◌, ◌⊎◌, inl, inr, Bool, ◌||◌, ◌&&◌, some, some_eq, List,
  arith, length, subst, sym, ◌∙◌, leb, ltb, Bool-cases,
}
use cs.Reassembler.{
  StreamReassembler, Unassembled, Pending, push_substring, merge_all, finish, end_if_done,
  keep_back, write_out, nothing_new, merge_back, merge_forward,
}
use cs.Reassembler.Slice.{slice}
use cs.Reassembler.Store.{Fits, Fits-le, Store, total}
use cs.Reassembler.Missing.{Missing}
use cs.Reassembler.Back.{merge_back-Kept}
use cs.Reassembler.Forward.{merge_forward-Kept, merge_forward_reached, merge_forward-Missing}
use cs.Reassembler.Window.{limit, InRange, Inv, with_eof, trim_lem}
use cs.Reassembler.Finish.{finish-Pushed, with_loops, write_out_later}
use cs.Reassembler.Holding.{In, Held, Has, insert-Held, merge_back-Has, merge_forward-Has}

-- Index `j` is before the front, or a held piece has it.
abbrev pub Covered : ℕ → StreamReassembler → Type 0
Covered j r = (j < r.first_unassemble_byte) ⊎ Held j r.unassembled

-- A substring brings index `j`, inside the window.
abbrev pub Brings : ℕ → List ℕ → ℕ → StreamReassembler → Type 0
Brings j bytes index r = (index ≤ j) × (j < index + length bytes) × (j < limit r)

-- It does not bring it.
abbrev pub Outside : ℕ → List ℕ → ℕ → StreamReassembler → Type 0
Outside j bytes index r = (j < index) ⊎ (index + length bytes ≤ j) ⊎ (limit r ≤ j)

pub came_or_not :
    (j : ℕ) (bytes : List ℕ) (index : ℕ) (r : StreamReassembler)
    → Brings j bytes index r ⊎ Outside j bytes index r
came_or_not j bytes index r = elim (Bool-cases (leb index j)) [
  | inr before ↦ inr (inl (ground arith))
  | inl from ↦ elim (Bool-cases (ltb j (index + length bytes))) [
    | inr past ↦ inr (inr (inl (ground arith)))
    | inl inside ↦ elim (Bool-cases (ltb j (limit r))) [
      | inr cut ↦ inr (inr (inr (ground arith)))
      | inl kept ↦ inl (ground arith, ground arith, ground arith)
    ]
  ]
]

write_out_store :
    (eof : Bool) (u : Unassembled) (r : StreamReassembler)
    → (write_out eof u r).unassembled ≡ r.unassembled
unfolding write_out
write_out_store eof u r = ground arith

end_if_done_store : (r : StreamReassembler) → (end_if_done r).unassembled ≡ r.unassembled
end_if_done_store r = ground arith

end_if_done_first :
    (r : StreamReassembler) → (end_if_done r).first_unassemble_byte ≡ r.first_unassemble_byte
end_if_done_first r = ground arith

module _ (j : ℕ) where
  keep_back-Held :
      (u : Unassembled) (r : StreamReassembler)
      → r.first_unassemble_byte < u.index
      → Missing u.index r.unassembled
      → In j u ⊎ Held j r.unassembled
      → Held j (keep_back u r).unassembled
  unfolding keep_back
  keep_back-Held u r later m i =
      elim (Bool-cases (ltb 0 (length u.bytes) && ltb r.first_unassemble_byte u.index)) [
        | inl kept ↦ rw kept (insert-Held j u r.unassembled m i)
        | inr off ↦ rw off (elim i [ inl x ↦ absurd (ground (arith, x)) | inr y ↦ y ])
      ]

  keep_back_store :
      (u : Unassembled) (r : StreamReassembler)
      → u.index ≤ (keep_back u r).first_unassemble_byte
      → (keep_back u r).unassembled ≡ r.unassembled
  unfolding keep_back
  keep_back_store u r h = ground arith

module _ (S : ℕ → ℕ) (j : ℕ) where
  finish-Covered :
      (eof : Bool) (p : Pending) (r : StreamReassembler)
      → Inv S r
      → InRange r
      → Fits S (limit r) r.first_unassemble_byte p.piece
      → Store S (limit r) r.first_unassemble_byte p.store
      → p.count ≡ total p.store % 2 ^ 64
      → ((p.piece.index ≡ r.first_unassemble_byte)
          × Store S (limit r) (p.piece.index + length p.piece.bytes) p.store)
        ⊎ ((r.first_unassemble_byte < p.piece.index) × Missing p.piece.index p.store)
      → (j < r.first_unassemble_byte) ⊎ Has j p
      → Covered j (finish eof p r)
  unfolding finish
  finish-Covered eof p r v range f s c (inl (at, past)) i =
      let written = write_out eof p.piece (with_loops S p r) in
      let q =
        finish-Pushed S eof p r (p.piece.index + length p.piece.bytes) v range f s c
          (inl (at, past, omega arith)) in
      let same = end_if_done_first (keep_back p.piece written) in
      let store =
        end_if_done_store (keep_back p.piece written)
        ∙ keep_back_store j p.piece written (omega (arith, q.forward, same, at))
        ∙ write_out_store eof p.piece (with_loops S p r) in
      elim i [
        | inl before ↦ inl (omega (arith, q.forward, before))
        | inr (inl in_piece) ↦ inl (omega (arith, q.reached, in_piece))
        | inr (inr held) ↦ inr (subst (Held j) (sym store) held)
      ]
  finish-Covered eof p r v range f s c (inr (later, missing)) i =
      let written = write_out eof p.piece (with_loops S p r) in
      let q = finish-Pushed S eof p r 0 v range f s c (inr (later, missing, omega arith)) in
      let same : written ≡ with_loops S p r =
        write_out_later S eof p.piece (with_loops S p r) later in
      let keep : In j p.piece ⊎ Held j p.store → Held j (finish eof p r).unassembled = λ h.
        subst (Held j) (sym (end_if_done_store (keep_back p.piece written)))
          (rw same (keep_back-Held j p.piece (with_loops S p r) later missing h)) in
      elim i [ inl before ↦ inl (omega (arith, q.forward, before)) | inr h ↦ inr (keep h) ]

  merge_all-Covered :
      (u : Unassembled) (eof : Bool) (r : StreamReassembler)
      → Inv S r
      → InRange r
      → Fits S (limit r) r.first_unassemble_byte u
      → (j < r.first_unassemble_byte) ⊎ (In j u ⊎ Held j r.unassembled)
      → Covered j (finish eof (merge_all u r) r)
  unfolding merge_all
  merge_all-Covered u eof r v range f i = elim (Bool-cases (leb u.index first)) [
    | inl here ↦
        let at : u.index ≡ first = ground (arith, f.from) in
        let back =
          merge_back-Kept S (limit r) first small first start (omega arith) f v.stored v.counted in
        let k =
          merge_forward-Kept S (limit r) first small first (merge_back start) (omega arith)
            back.fits back.store back.counted in
        finish-Covered eof (merge_forward (merge_back start)) r v range k.fits k.store k.counted
          (inl (
            omega (arith, k.left, k.fits.from, back.left, at),
            merge_forward_reached S (limit r) first small first (merge_back start) (omega arith)
                back.fits back.store back.counted (omega (arith, back.left, at)),
          ))
          (carried first (omega arith) f v.stored back.fits back.store i)
    | inr later ↦
        let past : Fits S (limit r) (first + 1) u = record {
          from = ground arith;
          upto = f.upto;
          right = f.right;
        } in
        let back =
          merge_back-Kept S (limit r) (first + 1) small first start (omega arith) past v.stored
            v.counted in
        let k =
          merge_forward-Kept S (limit r) (first + 1) small first (merge_back start) (omega arith)
            back.fits back.store back.counted in
        finish-Covered eof (merge_forward (merge_back start)) r v range
          (Fits-le S (limit r) (omega arith) k.fits) k.store k.counted
          (inr (
            omega (arith, k.fits.from),
            merge_forward-Missing S (limit r) (first + 1) small first (merge_back start)
                (omega arith) back.fits back.store back.counted (omega (arith, back.fits.from)),
          ))
          (carried (first + 1) (omega arith) past v.stored back.fits back.store i)
  ]
    where
      first : ℕ
      first = r.first_unassemble_byte

      small : limit r < 2 ^ 64
      small = omega arith

      start : Pending
      start = record { piece = u; count = r.num_unassembled_byte; store = r.unassembled }

      carried :
          (from : ℕ)
          → from ≤ first + 1
          → Fits S (limit r) from u
          → Store S (limit r) first r.unassembled
          → Fits S (limit r) from (merge_back start).piece
          → Store S (limit r) first (merge_back start).store
          → (j < first) ⊎ (In j u ⊎ Held j r.unassembled)
          → (j < first) ⊎ Has j (merge_forward (merge_back start))
      carried from h f s f' s' (inl before) = inl before
      carried from h f s f' s' (inr i) = inr (
          merge_forward-Has j S (limit r) from small first (merge_back start) h f' s'
            (merge_back-Has j S (limit r) from small first start h f s i))

  -- What was put together or held stays so, and what the substring brings is then put together or
  -- held.
  pub push_substring-Covered :
      (bytes : List ℕ) (index : ℕ) (eof : Bool) (r r' : StreamReassembler)
      → Inv S r
      → InRange r
      → bytes ≡ slice S index (length bytes)
      → index + length bytes < 2 ^ 64
      → index ≤ limit r
      → push_substring bytes index eof r ≡ some r'
      → Brings j bytes index r ⊎ Covered j r
      → Covered j r'
  unfolding push_substring
  push_substring-Covered bytes index eof r r' v range e h k done i =
      elim (Bool-cases (nothing_new bytes index r)) [
        | inl old ↦ subst (Covered j) (some_eq (rw old at done)) (
            rw (end_if_done_store seen, end_if_done_first seen)
              (elim i [ inl b ↦ inl (ground (arith, b)) | inr c ↦ c ]))
        | inr new ↦
            let (u, t, f, at, end) = trim_lem S bytes index seen v' range e h k (ground arith) in
            subst (Covered j) (some_eq (rw (new, t) at done)) (
              merge_all-Covered u eof seen v' range f (elim i [
                | inl b ↦ elim (Bool-cases (ltb j r.first_unassemble_byte)) [
                  | inl before ↦ inl (ground arith)
                  | inr past ↦ inr (inl (ground (arith, b, at), ground (arith, b, end)))
                ]
                | inr (inl before) ↦ inl before
                | inr (inr held) ↦ inr (inr held)
              ]))
      ]
    where
      seen : StreamReassembler
      seen = record r { eof = r.eof || eof }

      v' : Inv S seen
      v' = with_eof S (r.eof || eof) r v

module _ (S : ℕ → ℕ) where
  Store-Held : (j end lo : ℕ) (us : List Unassembled) → Store S end lo us → j ≤ lo → Held j us → ⊥
  Store-Held j end lo [] s h k = k
  Store-Held j end lo (u ∷ us) s h (inl i) = omega (arith, s.0, i)
  Store-Held j end lo (u ∷ us) s h (inr k) = Store-Held j end u.index us s.3 (omega (arith, s.0)) k

  -- The byte at the front is neither put together nor held.
  pub front-Covered : (r : StreamReassembler) → Inv S r → Covered r.first_unassemble_byte r → ⊥
  front-Covered r v (inl before) = omega arith
  front-Covered r v (inr held) =
      Store-Held r.first_unassemble_byte _ r.first_unassemble_byte r.unassembled v.stored
        (omega arith) held
