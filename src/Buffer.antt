-- ===== src/Buffer.antt =====
-- class `Buffer` of libsponge/util/buffer.hh and buffer.cc: a shared string and an offset into it.
-- A byte is a number; sharing is not visible, since no operation writes to the string.
use cs.Prelude.{
  ℕ, Bool, Option, none, some, List, [], ltb, ◌==◌, if◌then◌else◌, length, drop, add64, get_elem?,
}

pub record Buffer : Type 0 where
  pub storage : Option (List ℕ)
  pub starting_offset : ℕ

-- `Buffer()` and `Buffer(string)`.
abbrev pub empty : Buffer
empty = record { storage = none; starting_offset = 0 }

abbrev pub of_string : List ℕ → Buffer
of_string s = record { storage = some s; starting_offset = 0 }

-- `str`, which `copy` and the conversion to a view return too.
abbrev pub str : Buffer → List ℕ
str b = elim b.storage [ none ↦ [] | some s ↦ drop b.starting_offset s ]

abbrev pub size : Buffer → ℕ
size b = length (str b)

-- `str().at(n)`; `none` is the exception `out_of_range`.
abbrev pub at : ℕ → Buffer → Option ℕ
at n b = get_elem? (str b) n

-- `_storage and _starting_offset == _storage->size()`, with the offset already moved.
used_up : Option (List ℕ) → ℕ → Bool
used_up none offset = Bool.false
used_up (some s) offset = offset == length s

-- `none` is the exception `out_of_range`.
unfoldable pub remove_prefix : ℕ → Buffer → Option Buffer
unfolding used_up
remove_prefix n b =
    let offset : ℕ = add64 b.starting_offset n in
    if ltb (size b) n
    then none
    else some (record {
      storage = if used_up b.storage offset then none else b.storage;
      starting_offset = offset;
    })
