-- ===== src/Seqno.antt =====
-- libsponge/wrapping_integers.hh and wrapping_integers.cc: 32-bit sequence numbers relative to an
-- initial one, and their 64-bit absolute form.
pub mod Laws
mod Tests
use cs.Prelude.{ℕ, ◌<◌, ◌/◌, ◌%◌, ◌^◌, Bool, ◌&&◌, ltb, leb, ◌==◌, if◌then◌else◌}
use cs.Prelude.{add64, sub64, mul64, add32, sub32}

pub record WrappingInt32 : Type 0 where
  pub raw_value : ℕ

-- A 32-bit value is in range.
abbrev pub IsWord32 : WrappingInt32 → Type 0
IsWord32 n = n.raw_value < 2 ^ 32

-- `operator-`: the `int32_t` is kept as its bit pattern.
abbrev pub diff : WrappingInt32 → WrappingInt32 → ℕ
diff a b = sub32 a.raw_value b.raw_value

-- `operator==`.
abbrev pub same : WrappingInt32 → WrappingInt32 → Bool
same a b = a.raw_value == b.raw_value

-- `operator+`.
abbrev pub advance : WrappingInt32 → ℕ → WrappingInt32
advance a b = record { raw_value = add32 a.raw_value b }

-- `operator-` with a number of steps: `a + -b`.
abbrev pub retreat : WrappingInt32 → ℕ → WrappingInt32
retreat a b = advance a (sub32 0 b)

unfoldable pub wrap : ℕ → WrappingInt32 → WrappingInt32
wrap n isn = record { raw_value = add32 (n % 2 ^ 32) isn.raw_value }

-- The candidate at or below the checkpoint.
abbrev pub left_of : ℕ → ℕ → ℕ
left_of offset checkpoint =
    let overflow_part : ℕ = sub64 checkpoint offset / 2 ^ 32 in
    add64 offset (mul64 overflow_part (2 ^ 32))

unfoldable pub unwrap : WrappingInt32 → WrappingInt32 → ℕ → ℕ
unwrap n isn checkpoint =
    let offset : ℕ = diff n isn in
    let left : ℕ = left_of offset checkpoint in
    let right : ℕ = add64 left (2 ^ 32) in
    if (checkpoint % 2 ^ 32 == 0) && leb checkpoint offset
    then offset
    else if ltb (sub64 checkpoint left) (sub64 right checkpoint)
    then left
    else right
