-- ===== src/ViewList.antt =====
-- class `BufferViewList` of libsponge/util/buffer.hh and buffer.cc: a queue of views, each the bytes
-- that it shows.
pub mod Laws
use cs.Prelude.{
  ℕ, ◌+◌, ◌-◌, Option, none, some, List, [], ◌∷◌, map, ltb, ◌==◌, if◌then◌else◌, length, drop,
}
use cs.Buffer.{str}
use cs.BufferList.{BufferList}

abbrev pub BufferViewList : Type 0
BufferViewList = List (List ℕ)

-- The constructors, from a string and from a list of buffers.
abbrev pub of_string : List ℕ → BufferViewList
of_string s = s ∷ []

abbrev pub of_buffers : BufferList → BufferViewList
of_buffers l = map str l

unfoldable pub size_from : ℕ → BufferViewList → ℕ
size_from ret [] = ret
size_from ret (v ∷ l) = size_from (ret + length v) l

unfoldable pub size : BufferViewList → ℕ
unfolding size_from
size l = size_from 0 l

-- `none` is the exception `out_of_range`.
unfoldable pub remove_prefix : ℕ → BufferViewList → Option BufferViewList
remove_prefix n [] = if n == 0 then some [] else none
remove_prefix n (v ∷ l) =
    let rest = remove_prefix (n - length v) l in
    if n == 0 then some (v ∷ l) else if ltb n (length v) then some (drop n v ∷ l) else rest
