-- ===== src/Checksum/Laws.antt =====
-- What the Internet checksum (libsponge/util/util.cc) computes.
use cs.Prelude.{
  ℕ, ◌+◌, ◌-◌, ◌*◌, ◌/◌, ◌%◌, ◌^◌, ◌≤◌, ◌<◌, ◌≡◌, refl, ap, ◌∙◌, arith, Bool, false, not, List, [],
  ◌∷◌, ◌++◌, length, if◌then◌else◌, ◌==◌, lt_wf,
}
use cs.Parser.Laws.{AllBytes}
use cs.Checksum.{InternetChecksum, init, add, add_byte, fold, value, halves_less}
use mathlib.Core.Logic.{dif_pos, dif_neg}
use mathlib.Core.WellFounded.{Acc}
use native.Mathlib.Bridge.{le_prop}
use native.Mathlib.Decide.{dec_lt}

-- The sum in ones' complement: 0 for 0, and otherwise the number from 1 to 65535 that agrees with
-- it modulo 65535.
abbrev pub folded : ℕ → ℕ
folded r = if r == 0 then 0 else (r - 1) % 65535 + 1

folded_step : (r : ℕ) → 65535 < r → folded (r / 2 ^ 16 + r % 2 ^ 16) ≡ folded r
folded_step r h = ground arith

folded_small : (r : ℕ) → r ≤ 65535 → r ≡ folded r
folded_small r h = ground arith

pub fold_lem : (r : ℕ) (w : Acc ◌<◌ r) → fold r w ≡ folded r
unfolding fold
fold_lem r (Acc.intro _ smaller) = elim (dec_lt 65535 r) [
  | yes h ↦
      rw (dif_pos _ le_prop h, fold_lem (r / 2 ^ 16 + r % 2 ^ 16) (smaller _ (halves_less r h)))
        (folded_step r h)
  | no h ↦ rw (dif_neg _ h) (folded_small r (omega arith))
]

-- The bytes as 16-bit numbers in network byte order, added up; a last single byte counts as the
-- high half of a number. The flag tells that the next byte is a low half.
unfoldable pub words : Bool → List ℕ → ℕ
words low [] = 0
words low (b ∷ bs) = (if low then b else b * 256) + words (not low) bs

pub add_lem :
    (bs : List ℕ) (c : InternetChecksum)
    → AllBytes bs
    → c.sum + 65280 * length bs < 2 ^ 32
    → (add bs c).sum ≡ c.sum + words c.parity bs
unfolding add words
add_lem [] c all h = omega arith
add_lem (b ∷ bs) c (byte, all) h = ground (arith, add_lem bs (add_byte b c) all)

pub add-append : (xs ys : List ℕ) (c : InternetChecksum) → add (xs ++ ys) c ≡ add ys (add xs c)
unfolding add
add-append [] ys c = refl
add-append (x ∷ xs) ys c = add-append xs ys (add_byte x c)

-- While the sum of 32 bits does not overflow, the value is the complement of the sum in ones'
-- complement of the data's 16-bit numbers and the initial sum.
pub value-add :
    (bs : List ℕ) (initial_sum : ℕ)
    → AllBytes bs
    → initial_sum + 65280 * length bs < 2 ^ 32
    → value (add bs (init initial_sum)) ≡ 65535 - folded (initial_sum + words false bs)
unfolding value
value-add bs initial_sum all h =
    ap (λ n. 65535 - n)
      (fold_lem _ (lt_wf.apply (add bs (init initial_sum)).sum)
        ∙ ap folded (add_lem bs (init initial_sum) all h))

-- With the complement of the rest of the data stored in it, the data's sum is all ones.
pub folded_complement : (s : ℕ) → folded (s + (65535 - folded s)) ≡ 65535
folded_complement s = ground arith

pub folded_max : (s : ℕ) → folded s ≤ 65535
folded_max s = ground arith

pub words_max : (low : Bool) (bs : List ℕ) → AllBytes bs → words low bs ≤ 65280 * length bs
unfolding words
words_max low [] all = omega arith
words_max low (b ∷ bs) (byte, all) = ground (arith, words_max (not low) bs all)
