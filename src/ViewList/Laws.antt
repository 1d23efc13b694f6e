-- ===== src/ViewList/Laws.antt =====
-- A list of views (libsponge/util/buffer.cc) read as the one string that it shows.
use cs.Prelude.{
  ℕ, zero, suc, ◌+◌, ◌-◌, ◌≤◌, ◌≡◌, refl, sym, ◌∙◌, some, List, [], ◌∷◌, ◌++◌, ltb, arith, length,
  drop, length-append, drop-append_le, drop-append_ge, inl, inr, Bool-cases,
}
use cs.BufferList.{BufferList}
use cs.BufferList.Laws.{contents}
use cs.ViewList.{BufferViewList, of_buffers, size, size_from, remove_prefix}

-- The bytes that a list of views shows.
abbrev pub joined : BufferViewList → List ℕ
joined [] = []
joined (v ∷ l) = v ++ joined l

pub of_buffers_lem : (l : BufferList) → joined (of_buffers l) ≡ contents l
of_buffers_lem [] = refl
of_buffers_lem (b ∷ l) = rw (of_buffers_lem l)

size_from_lem : (ret : ℕ) (l : BufferViewList) → size_from ret l ≡ ret + length (joined l)
unfolding size_from
size_from_lem ret [] = omega arith
size_from_lem ret (v ∷ l) =
    omega (arith, size_from_lem (ret + length v) l, length-append v (joined l))

pub size_lem : (l : BufferViewList) → size l ≡ length (joined l)
unfolding size
size_lem l = omega (arith, size_from_lem 0 l)

-- Up to its length, a prefix can be removed, and the bytes from there on are left.
pub remove_prefix_lem :
    (n : ℕ) (l : BufferViewList)
    → n ≤ length (joined l)
    → (l' : BufferViewList) × (remove_prefix n l ≡ some l') × (joined l' ≡ drop n (joined l))
unfolding remove_prefix
remove_prefix_lem zero [] h = ([], refl, refl)
remove_prefix_lem (suc n) [] h = absurd (omega arith)
remove_prefix_lem zero (v ∷ l) h = (v ∷ l, refl, refl)
remove_prefix_lem (suc n) (v ∷ l) h = elim (Bool-cases (ltb (suc n) (length v))) [
  | inl part ↦
      (drop (suc n) v ∷ l, ground arith, sym (drop-append_le (suc n) v (joined l) (ground arith)))
  | inr whole ↦
      let (l', e, c) =
        remove_prefix_lem (suc n - length v) l (ground (arith, length-append v (joined l))) in
      (l', ground arith, c ∙ sym (drop-append_ge (suc n) v (joined l) (ground arith)))
]
