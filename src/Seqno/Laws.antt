-- ===== src/Seqno/Laws.antt =====
-- Conversions between absolute and relative sequence numbers
-- (libsponge/wrapping_integers.cc).
use cs.Prelude.{ℕ, ◌+◌, ◌-◌, ◌≤◌, ◌<◌, ◌^◌, ◌≡◌, ◌⊎◌, inl, inr, min, max, arith}
use cs.Seqno.{WrappingInt32, IsWord32, diff, wrap, unwrap, advance, retreat}

-- Whatever the checkpoint, the absolute number that `unwrap` picks wraps back to the same relative
-- number, for a relative number and an initial number of 32 bits and a checkpoint of 64 bits.
pub wrap-unwrap :
    (n isn : WrappingInt32) (checkpoint : ℕ)
    → IsWord32 n
    → IsWord32 isn
    → checkpoint < 2 ^ 64
    → wrap (unwrap n isn checkpoint) isn ≡ n
unfolding wrap unwrap
wrap-unwrap n isn checkpoint hn hi hc = ground arith

-- An absolute number less than 2^31 below the checkpoint, or at most 2^31 above it, survives
-- `wrap` and `unwrap`.
pub unwrap-wrap :
    (n checkpoint : ℕ) (isn : WrappingInt32)
    → IsWord32 isn
    → n < 2 ^ 63
    → checkpoint < n + 2 ^ 31
    → n ≤ checkpoint + 2 ^ 31
    → unwrap (wrap n isn) isn checkpoint ≡ n
unfolding wrap unwrap
unwrap-wrap n checkpoint isn hi hn lo hi' = ground arith

-- How far apart two numbers are.
abbrev pub distance : ℕ → ℕ → ℕ
distance a b = max a b - min a b

-- From a checkpoint below 2^63 that is 0 or at most 2^31 below the offset of the relative number,
-- `unwrap` gives a number that wraps to the relative one and is closest to the checkpoint: no other
-- that wraps to it is less far away.
pub unwrap_nearest :
    (n isn : WrappingInt32) (checkpoint m : ℕ)
    → IsWord32 n
    → IsWord32 isn
    → checkpoint < 2 ^ 63
    → ((checkpoint ≡ 0) ⊎ (diff n isn ≤ checkpoint + 2 ^ 31))
    → wrap m isn ≡ n
    → (wrap (unwrap n isn checkpoint) isn ≡ n)
      × (distance (unwrap n isn checkpoint) checkpoint ≤ distance m checkpoint)
unfolding wrap unwrap
unwrap_nearest n isn checkpoint m hn hi hc (inl zero) e = (ground arith, ground arith)
unwrap_nearest n isn checkpoint m hn hi hc (inr near) e = (ground arith, ground arith)

-- From checkpoint 0 the result is the least number that wraps to the relative one; but from a
-- checkpoint that is positive and more than 2^31 below that least number, `unwrap` steps back past
-- 0, and the result is that number plus 2^64 - 2^32.
pub unwrap_small_checkpoint :
    (n isn : WrappingInt32) (checkpoint : ℕ)
    → IsWord32 n
    → IsWord32 isn
    → 0 < checkpoint
    → checkpoint + 2 ^ 31 < diff n isn
    → (unwrap n isn 0 ≡ diff n isn) × (unwrap n isn checkpoint ≡ diff n isn + (2 ^ 64 - 2 ^ 32))
unfolding unwrap
unwrap_small_checkpoint n isn checkpoint hn hi h k = (ground arith, ground arith)

-- Stepping a relative number forward and back by the same 32-bit amount gives it again, the
-- forward step is what `diff` measures, and `wrap` turns addition into such a step.
pub advance_laws :
    (a : WrappingInt32) (n b : ℕ)
    → IsWord32 a
    → b < 2 ^ 32
    → (retreat (advance a b) b ≡ a)
      × (diff (advance a b) a ≡ b)
      × (wrap (n + b) a ≡ advance (wrap n a) b)
unfolding wrap
advance_laws a n b ha hb = (ground arith, ground arith, ground arith)
