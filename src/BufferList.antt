-- ===== src/BufferList.antt =====
-- class `BufferList` of libsponge/util/buffer.hh and buffer.cc: a queue of buffers read as one
-- string.
pub mod Laws
use cs.Prelude.{
  ℕ, ◌+◌, ◌-◌, Bool, Option, none, some, List, [], ◌∷◌, ◌++◌, ltb, leb, ◌==◌, if◌then◌else◌, length,
  take,
}
use cs.Buffer.{Buffer, str}
use cs.Buffer

abbrev pub BufferList : Type 0
BufferList = List Buffer

-- The constructor from a string.
abbrev pub of_string : List ℕ → BufferList
of_string s = Buffer.of_string s ∷ []

abbrev pub append : BufferList → BufferList → BufferList
append l other = l ++ other

-- The conversion to one buffer; `none` is the exception.
abbrev pub to_buffer : BufferList → Option Buffer
to_buffer [] = some Buffer.empty
to_buffer (b ∷ []) = some b
to_buffer (b ∷ c ∷ l) = none

-- The loop of `concatenate()`: `ret` is what has been joined so far.
unfoldable pub concatenate_all_from : List ℕ → BufferList → List ℕ
concatenate_all_from ret [] = ret
concatenate_all_from ret (b ∷ l) = concatenate_all_from (ret ++ str b) l

unfoldable pub concatenate_all : BufferList → List ℕ
unfolding concatenate_all_from
concatenate_all l = concatenate_all_from [] l

-- The loop of `concatenate(n)`.
unfoldable pub concatenate_from : ℕ → List ℕ → BufferList → List ℕ
concatenate_from n ret [] = ret
concatenate_from n ret (b ∷ l) =
    concatenate_from n
      (ret ++ (if leb (length ret + Buffer.size b) n then str b else take (n - length ret) (str b)))
      l

unfoldable pub concatenate : ℕ → BufferList → List ℕ
unfolding concatenate_from
concatenate n l = concatenate_from n [] l

unfoldable pub size_from : ℕ → BufferList → ℕ
size_from ret [] = ret
size_from ret (b ∷ l) = size_from (ret + Buffer.size b) l

unfoldable pub size : BufferList → ℕ
unfolding size_from
size l = size_from 0 l

-- The front buffer after its prefix is removed, put back.
abbrev put_back : Option Buffer → BufferList → Option BufferList
put_back none l = none
put_back (some b) l = some (b ∷ l)

-- `none` is the exception `out_of_range`.
unfoldable pub remove_prefix : ℕ → BufferList → Option BufferList
remove_prefix n [] = if n == 0 then some [] else none
remove_prefix n (b ∷ l) =
    let rest = remove_prefix (n - Buffer.size b) l in
    if n == 0
    then some (b ∷ l)
    else if ltb n (Buffer.size b)
    then put_back (Buffer.remove_prefix n b) l
    else rest
