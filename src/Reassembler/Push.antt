-- ===== src/Reassembler/Push.antt =====
-- `StreamReassembler::push_substring` (libsponge/stream_reassembler.cc): substrings of one stream,
-- in any order and overlapping, leave an initial stretch of that stream in the output.
use cs.Prelude.{
  ℕ, ◌+◌, ◌^◌, ◌≤◌, ◌<◌, ◌≡◌, refl, Bool, ◌||◌, some, List, arith, length, min, max, leb,
  if◌then◌else◌, inl, inr, Bool-cases,
}
use cs.Reassembler.{
  StreamReassembler, Unassembled, Pending, push_substring, merge_all, finish, end_if_done,
  nothing_new, merge_back, merge_forward,
}
use cs.Reassembler.Slice.{slice}
use cs.Reassembler.Store.{Fits, Fits-le}
use cs.Reassembler.Back.{merge_back-Kept}
use cs.Reassembler.Forward.{merge_forward-Kept, merge_forward_reached, merge_forward-Missing}
use cs.Reassembler.Window.{limit, InRange, Inv, with_eof, trim_lem}
use cs.Reassembler.Finish.{Pushed, end_if_done-Pushed, finish-Pushed}

module _ (S : ℕ → ℕ) where
  -- How far a substring brings the front, if it starts there or before.
  abbrev pub front : List ℕ → ℕ → StreamReassembler → ℕ
  front bytes index r =
      if leb index r.first_unassemble_byte then min (index + length bytes) (limit r) else 0

  module _ (bytes : List ℕ) (index : ℕ) (eof : Bool) (r : StreamReassembler) (v : Inv S r)
      (range : InRange r) where
    small : limit r < 2 ^ 64
    small = omega arith

    merge_all-Pushed :
        (u : Unassembled)
        → Fits S (limit r) r.first_unassemble_byte u
        → (u.index ≡ max index r.first_unassemble_byte)
        → (u.index + length u.bytes ≡ min (index + length bytes) (limit r))
        → Pushed S r (finish eof (merge_all u r) r) (front bytes index r)
    unfolding merge_all
    merge_all-Pushed u f at end = elim (Bool-cases (leb index first)) [
      | inl reached ↦
          let back =
            merge_back-Kept S (limit r) first small first start (omega arith) f v.stored
              v.counted in
          let k =
            merge_forward-Kept S (limit r) first small first (merge_back start) (omega arith)
              back.fits back.store back.counted in
          let here : u.index ≡ first = ground arith in
          finish-Pushed S eof (merge_forward (merge_back start)) r (front bytes index r) v range
            k.fits k.store k.counted
            (inl (
              omega (arith, k.left, k.fits.from, back.left, here),
              merge_forward_reached S (limit r) first small first (merge_back start) (omega arith)
                  back.fits back.store back.counted (omega (arith, back.left, here)),
              rw reached (omega (arith, end, back.covers, k.covers)),
            ))
      | inr later ↦
          let past : Fits S (limit r) (first + 1) u = record {
            from = ground arith;
            upto = f.upto;
            right = f.right;
          } in
          let back =
            merge_back-Kept S (limit r) (first + 1) small first start (omega arith) past v.stored
              v.counted in
          let k =
            merge_forward-Kept S (limit r) (first + 1) small first (merge_back start) (omega arith)
              back.fits back.store back.counted in
          finish-Pushed S eof (merge_forward (merge_back start)) r (front bytes index r) v range
            (Fits-le S (limit r) (omega arith) k.fits) k.store k.counted
            (inr (
              omega (arith, k.fits.from),
              merge_forward-Missing S (limit r) (first + 1) small first (merge_back start)
                  (omega arith) back.fits back.store back.counted (omega (arith, back.fits.from)),
              rw later (omega arith),
            ))
    ]
      where
        first : ℕ
        first = r.first_unassemble_byte

        start : Pending
        start = record { piece = u; count = r.num_unassembled_byte; store = r.unassembled }

  Pushed-with_eof :
      (e : Bool) (r r' : StreamReassembler) (n : ℕ)
      → Pushed S (record r { eof = e }) r' n
      → Pushed S r r' n
  Pushed-with_eof e r r' n p = record {
    inv = p.inv;
    window = p.window;
    forward = p.forward;
    reached = p.reached;
    ended = p.ended;
  }

  -- A substring of the stream that starts in the window is taken in: the call does not fail, the
  -- output still ends with the stretch of the stream up to the front, the set holds pieces of the
  -- stream past the front, the window stays where it is, the front does not move back, and if the
  -- substring starts at the front or before it, the front moves to the substring's end or to the
  -- window's. If then nothing is counted as held and the end was seen, the output is ended.
  pub push_substring-Pushed :
      (bytes : List ℕ) (index : ℕ) (eof : Bool) (r : StreamReassembler)
      → Inv S r
      → InRange r
      → bytes ≡ slice S index (length bytes)
      → index + length bytes < 2 ^ 64
      → index ≤ limit r
      → (r' : StreamReassembler) × (push_substring bytes index eof r ≡ some r')
        × Pushed S r r' (front bytes index r)
  unfolding push_substring
  push_substring-Pushed bytes index eof r v range e h k =
      elim (Bool-cases (nothing_new bytes index r)) [
        | inl old ↦ (
          end_if_done seen,
          rw old,
          Pushed-with_eof _ r _ (front bytes index r) (
              end_if_done-Pushed S seen seen (front bytes index r) v' (refl, refl) (omega arith)
                (ground arith)),
        )
        | inr new ↦
            let (u, t, f, at, end) = trim_lem S bytes index seen v' range e h k (ground arith) in
            (
              finish eof (merge_all u seen) seen,
              rw (new, t),
              Pushed-with_eof _ r _ (front bytes index r)
                  (merge_all-Pushed bytes index eof seen v' range u f at end),
            )
      ]
    where
      seen : StreamReassembler
      seen = record r { eof = r.eof || eof }

      v' : Inv S seen
      v' = with_eof S (r.eof || eof) r v
