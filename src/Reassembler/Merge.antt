-- ===== src/Reassembler/Merge.antt =====
-- The set of stored substrings of libsponge/stream_reassembler.cc, `merge_substring`, and the two
-- loops that merge a new piece with its neighbours. The set is the list of its members by rising
-- index; an iterator is the members before it, nearest first, and those from it on.
use cs.Prelude.{
  ℕ, Option, none, some, List, [], ◌∷◌, ◌++◌, ◌||◌, if◌then◌else◌, ltb, leb, length, drop, min,
  add64, sub64, ◌==◌,
}

-- `typeUnassembled`; `operator<` compares indexes alone.
pub record Unassembled : Type 0 where
  pub index : ℕ
  pub bytes : List ℕ

-- The index of the last byte of a piece; it wraps for an empty piece at 0.
abbrev pub last : Unassembled → ℕ
last u = sub64 (add64 u.index (length u.bytes)) 1

-- The bytes of a piece past an index inside it, that is `string(begin + r - l + 1, end)`.
abbrev pub past : ℕ → Unassembled → List ℕ
past r u = drop (sub64 (add64 r 1) u.index) u.bytes

-- `none` where it returns false.
unfoldable pub merge_substring : Unassembled → Unassembled → Option Unassembled
merge_substring a b =
    if ltb (add64 (last a) 1) b.index || ltb (add64 (last b) 1) a.index
    then none
    else some (record {
      index = min a.index b.index;
      bytes =
          if leb a.index b.index
          then (if ltb (last a) (last b) then a.bytes ++ past (last a) b else a.bytes)
          else if ltb (last b) (last a)
          then b.bytes ++ past (last b) a
          else b.bytes;
    })

-- The members before an iterator put in front of those from it on.
unfoldable pub rev_onto : List Unassembled → List Unassembled → List Unassembled
rev_onto [] after = after
rev_onto (u ∷ before) after = rev_onto before (u ∷ after)

-- The iterator `lower_bound`, from `before` on.
unfoldable pub lower_bound :
    ℕ → List Unassembled → List Unassembled → List Unassembled × List Unassembled
lower_bound i before [] = (before, [])
lower_bound i before (u ∷ after) =
    let further = lower_bound i (u ∷ before) after in
    if ltb u.index i then further else (before, u ∷ after)

-- `resIndex`, `resData`, `_num_unassembled_byte` and `_unassembled`.
pub record Pending : Type 0 where
  pub piece : Unassembled
  pub count : ℕ
  pub store : List Unassembled

-- A merge that succeeded: the member's bytes are no longer counted as stored.
abbrev pub absorb : Unassembled → Unassembled → ℕ → List Unassembled → Pending
absorb merged u count store = record {
  piece = merged;
  count = sub64 count (length u.bytes);
  store = store;
}

-- The first loop, at its test, with an iterator at the member `u`.
unfoldable pub back_loop :
    Unassembled → ℕ → List Unassembled → Unassembled → List Unassembled → Pending
back_loop piece count [] u after = record { piece = piece; count = count; store = u ∷ after }
back_loop piece count (v ∷ before) u after = elim (merge_substring piece u) [
  | none ↦ record { piece = piece; count = count; store = rev_onto (v ∷ before) (u ∷ after) }
  | some merged ↦ back_loop merged (sub64 count (length u.bytes)) before v after
]

-- Its first round at `end()`, where the iterator steps back to the last member `u`.
unfoldable pub back_from_end : Unassembled → ℕ → List Unassembled → Unassembled → Pending
unfolding back_loop
back_from_end piece count [] u = elim (merge_substring piece u) [
  | none ↦ record { piece = piece; count = count; store = u ∷ [] }
  | some merged ↦ absorb merged u count []
]
back_from_end piece count (v ∷ before) u = elim (merge_substring piece u) [
  | none ↦ record { piece = piece; count = count; store = rev_onto (v ∷ before) (u ∷ []) }
  | some merged ↦ back_loop merged (sub64 count (length u.bytes)) before v []
]

-- The first loop from `lower_bound`.
unfoldable pub back_from : Unassembled → ℕ → List Unassembled → List Unassembled → Pending
unfolding back_from_end back_loop
back_from piece count [] after = record { piece = piece; count = count; store = after }
back_from piece count (u ∷ before) [] = back_from_end piece count before u
back_from piece count (v ∷ before) (u ∷ after) = back_loop piece count (v ∷ before) u after

unfoldable pub merge_back : Pending → Pending
unfolding lower_bound back_from rev_onto merge_substring
merge_back p =
    let (before, after) = lower_bound p.piece.index [] p.store in
    back_from p.piece p.count before after

-- The second loop.
unfoldable pub forward_loop : Unassembled → ℕ → List Unassembled → Pending
forward_loop piece count [] = record { piece = piece; count = count; store = [] }
forward_loop piece count (u ∷ after) = elim (merge_substring piece u) [
  | none ↦ record { piece = piece; count = count; store = u ∷ after }
  | some merged ↦ forward_loop merged (sub64 count (length u.bytes)) after
]

unfoldable pub merge_forward : Pending → Pending
unfolding lower_bound forward_loop rev_onto merge_substring
merge_forward p =
    let (before, after) = lower_bound p.piece.index [] p.store in
    let q = forward_loop p.piece p.count after in record q { store = rev_onto before q.store }

-- `set::insert`: a member with the index of another is not added.
unfoldable pub insert : Unassembled → List Unassembled → List Unassembled
insert u [] = u ∷ []
insert u (v ∷ store) =
    if ltb u.index v.index
    then u ∷ v ∷ store
    else if u.index == v.index
    then v ∷ store
    else v ∷ insert u store
