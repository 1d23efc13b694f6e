-- ===== src/Checksum.antt =====
-- `InternetChecksum` of libsponge/util/util.hh and util.cc.
pub mod Laws
mod Tests
use cs.Prelude.{
  ℕ, ◌+◌, ◌-◌, ◌*◌, ◌/◌, ◌%◌, ◌^◌, ◌<◌, arith, Bool, true, false, not, List, [], ◌∷◌, if◌then◌else◌,
  add32, lt_wf,
}
use mathlib.Core.Logic.{dite}
use mathlib.Core.WellFounded.{Acc}
use native.Mathlib.Decide.{dec_lt}

pub record InternetChecksum : Type 0 where
  pub sum : ℕ
  pub parity : Bool

-- The constructor.
abbrev pub init : ℕ → InternetChecksum
init initial_sum = record { sum = initial_sum; parity = false }

-- One byte: the first of a pair counts 256 times, as 16 bits.
abbrev pub add_byte : ℕ → InternetChecksum → InternetChecksum
add_byte b c = record {
  sum = add32 c.sum (if not c.parity then b * 256 % 2 ^ 16 else b);
  parity = not c.parity;
}

unfoldable pub add : List ℕ → InternetChecksum → InternetChecksum
add [] c = c
add (b ∷ bs) c = add bs (add_byte b c)

pub halves_less : (r : ℕ) → 65535 < r → r / 2 ^ 16 + r % 2 ^ 16 < r
halves_less r h = omega arith

-- `while (ret > 0xffff) { ret = (ret >> 16) + (ret & 0xffff); }`
unfoldable pub fold : (r : ℕ) → Acc ◌<◌ r → ℕ
fold r (Acc.intro _ smaller) =
    dite (dec_lt 65535 r) (λ h. fold (r / 2 ^ 16 + r % 2 ^ 16) (smaller _ (halves_less r h)))
      (λ h. r)

-- The complement, as 16 bits.
unfoldable pub value : InternetChecksum → ℕ
unfolding fold lt_wf
value c = 65535 - fold c.sum (lt_wf.apply c.sum)
