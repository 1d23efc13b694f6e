-- ===== src/Seqno/Tests.antt =====
-- Runs of libsponge/wrapping_integers.cc on concrete numbers, as in tests/wrapping_integers_*.cc.
use cs.Prelude.{inr, ℕ, ◌+◌, ◌-◌, ◌*◌, ◌≤◌, ◌^◌, ◌≡◌, refl, arith}
use cs.Seqno.{WrappingInt32, wrap, unwrap}
use cs.Seqno.Laws.{distance, unwrap-wrap, unwrap_nearest}

abbrev at : ℕ → WrappingInt32
at k = record { raw_value = k }

wrap_run : wrap (3 * 2 ^ 32 + 17) (at 15) ≡ at 32
unfolding wrap
wrap_run = refl

unwrap_run : unwrap (at (2 ^ 32 - 1)) (at 10) (3 * 2 ^ 32) ≡ 3 * 2 ^ 32 - 11
unfolding unwrap
unwrap_run = refl

unwrap-wrap_example : unwrap (wrap (2 ^ 33 + 5) (at 77)) (at 77) (2 ^ 33) ≡ 2 ^ 33 + 5
unwrap-wrap_example =
    unwrap-wrap (2 ^ 33 + 5) (2 ^ 33) (at 77) (omega arith) (omega arith) (omega arith)
      (omega arith)

unwrap_nearest_example :
    (wrap (unwrap (at 4) (at 1) (2 ^ 32)) (at 1) ≡ at 4)
    × (distance (unwrap (at 4) (at 1) (2 ^ 32)) (2 ^ 32) ≤ distance 3 (2 ^ 32))
unfolding wrap
unwrap_nearest_example =
    unwrap_nearest (at 4) (at 1) (2 ^ 32) 3 (omega arith) (omega arith) (omega arith)
      (inr (omega arith)) four
  where
    four : wrap 3 (at 1) ≡ at 4
    four = refl
