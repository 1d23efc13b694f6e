-- ===== src/BufferList/Laws.antt =====
-- A list of buffers (libsponge/util/buffer.cc) read as the one string that it holds.
use cs.Prelude.{
  ℕ, zero, suc, ◌+◌, ◌-◌, ◌^◌, ◌≤◌, ◌<◌, ◌≡◌, refl, ap, ◌∙◌, sym, Option, none, some, List, [], ◌∷◌,
  ◌++◌, ltb, leb, arith, length, take, drop, length-append, drop-all, take-append_le,
  take-append_ge, drop-append_le, drop-append_ge, append_assoc, append-nil, inl, inr, Bool-cases,
  length-drop, drop-drop, drop-nil, ◌==◌, if◌then◌else◌, add64, length-take, take-nil,
}
use cs.Buffer.{Buffer, str}
use cs.Buffer
use cs.BufferList.{
  BufferList, concatenate_all, concatenate_all_from, concatenate, concatenate_from, size, size_from,
  remove_prefix,
}

-- The bytes that a list of buffers holds.
abbrev pub contents : BufferList → List ℕ
contents [] = []
contents (b ∷ l) = str b ++ contents l

pub contents-append : (l m : BufferList) → contents (l ++ m) ≡ contents l ++ contents m
contents-append [] m = refl
contents-append (b ∷ l) m = rw (contents-append l m, append_assoc)

-- A buffer's offset lies in its string, and the string is addressable.
abbrev pub InMemory : Buffer → Type 0
InMemory b = elim b.storage [
  | none ↦ Unit {0}
  | some s ↦ (b.starting_offset ≤ length s) × (length s < 2 ^ 64)
]

abbrev pub AllInMemory : BufferList → Type 0
AllInMemory [] = Unit {0}
AllInMemory (b ∷ l) = InMemory b × AllInMemory l

concatenate_all_from_lem :
    (ret : List ℕ) (l : BufferList) → concatenate_all_from ret l ≡ ret ++ contents l
unfolding concatenate_all_from
concatenate_all_from_lem ret [] = rw append-nil
concatenate_all_from_lem ret (b ∷ l) = rw (concatenate_all_from_lem (ret ++ str b) l, append_assoc)

pub concatenate_all_lem : (l : BufferList) → concatenate_all l ≡ contents l
unfolding concatenate_all
concatenate_all_lem l = concatenate_all_from_lem [] l

take_whole :
    (xs ys : List ℕ) (n m k : ℕ)
    → k + length xs ≤ n
    → m ≡ n - (k + length xs)
    → take (n - k) (xs ++ ys) ≡ xs ++ take m ys
take_whole xs ys n m k h e =
    let r : n - k - length xs ≡ m = omega arith in take-append_ge (n - k) xs ys (omega arith) ∙ rw r

take_part :
    (xs ys : List ℕ) (k m : ℕ) → k ≤ length xs → m ≡ 0 → take k xs ++ take m ys ≡ take k (xs ++ ys)
take_part xs ys k m h e = rw (e, append-nil, take-append_le k xs ys h)

concatenate_from_lem :
    (n : ℕ) (ret : List ℕ) (l : BufferList)
    → length ret ≤ n
    → concatenate_from n ret l ≡ ret ++ take (n - length ret) (contents l)
unfolding concatenate_from
concatenate_from_lem n ret [] h = rw (take-nil ℕ, append-nil)
concatenate_from_lem n ret (b ∷ l) h = elim (Bool-cases (leb (length ret + Buffer.size b) n)) [
  | inl fits ↦ rw fits (
      concatenate_from_lem n (ret ++ str b) l (ground (arith, length-append ret (str b)))
      ∙ append_assoc ret (str b) _
      ∙ ap (◌++◌ ret) (
          sym (
            take_whole (str b) (contents l) n _ (length ret) (ground arith)
              (ground (arith, length-append ret (str b))))))
  | inr over ↦ rw over (
      concatenate_from_lem n (ret ++ take (n - length ret) (str b)) l (
        ground (
          arith,
          length-append ret (take (n - length ret) (str b)),
          length-take (n - length ret) (str b),
        ))
      ∙ append_assoc ret (take (n - length ret) (str b)) _
      ∙ ap (◌++◌ ret) (
          take_part (str b) (contents l) (n - length ret) _ (ground arith) (
            ground (
              arith,
              length-append ret (take (n - length ret) (str b)),
              length-take (n - length ret) (str b),
            ))))
]

size_from_lem : (ret : ℕ) (l : BufferList) → size_from ret l ≡ ret + length (contents l)
unfolding size_from
size_from_lem ret [] = omega arith
size_from_lem ret (b ∷ l) =
    omega (arith, size_from_lem (ret + Buffer.size b) l, length-append (str b) (contents l))

pub size_lem : (l : BufferList) → size l ≡ length (contents l)
unfolding size
size_lem l = omega (arith, size_from_lem 0 l)

-- What is left of a string's buffer when its prefix is removed, released if nothing is.
remainder : ℕ → ℕ → List ℕ → Buffer
remainder n offset s = record {
  storage = if offset + n == length s then none else some s;
  starting_offset = offset + n;
}

remainder_lem :
    (n offset : ℕ) (s : List ℕ)
    → offset + n ≤ length s
    → length s < 2 ^ 64
    → (str (remainder n offset s) ≡ drop n (drop offset s)) × InMemory (remainder n offset s)
unfolding remainder
remainder_lem n offset s h m = elim (Bool-cases (offset + n == length s)) [
  | inl all ↦ rw all (sym (drop-drop n offset s ∙ drop-all (offset + n) s (ground arith)), tt)
  | inr some_left ↦ rw some_left (sym (drop-drop n offset s), (h, m))
]

remove_prefix-some :
    (n offset : ℕ) (s : List ℕ)
    → offset + n ≤ length s
    → length s < 2 ^ 64
    → Buffer.remove_prefix n (record { storage = some s; starting_offset = offset })
      ≡ some (remainder n offset s)
unfolding Buffer.remove_prefix remainder
remove_prefix-some n offset s h m = ground (arith, length-drop offset s)

-- Up to its size, a prefix can be removed from a valid buffer: it stays valid, and what is left is
-- the string from there on.
pub buffer_remove_prefix :
    (n : ℕ) (b : Buffer)
    → n ≤ Buffer.size b
    → InMemory b
    → (b' : Buffer) × (Buffer.remove_prefix n b ≡ some b') × (str b' ≡ drop n (str b)) × InMemory b'
unfolding Buffer.remove_prefix
buffer_remove_prefix n b h m = go b.storage b.starting_offset h m
  where
    go :
        (st : Option (List ℕ)) (offset : ℕ)
        → let c : Buffer = record { storage = st; starting_offset = offset } in
          n ≤ Buffer.size c
          → InMemory c
          → (b' : Buffer) × (Buffer.remove_prefix n c ≡ some b')
            × (str b' ≡ drop n (str c))
            × InMemory b'
    go none offset h m = (
      record { storage = none; starting_offset = add64 offset n },
      ground arith,
      sym (drop-nil ℕ n),
      tt,
    )
    go (some s) offset h m =
        let fits : offset + n ≤ length s = omega (arith, length-drop offset s) in
        let kept = remainder_lem n offset s fits m.1 in
        (remainder n offset s, remove_prefix-some n offset s fits m.1, kept.0, kept.1)

-- Up to its length, a prefix can be removed from a valid list of buffers: it stays valid, and its
-- bytes are those from there on.
pub remove_prefix_lem :
    (n : ℕ) (l : BufferList)
    → n ≤ length (contents l)
    → AllInMemory l
    → (l' : BufferList) × (remove_prefix n l ≡ some l')
      × (contents l' ≡ drop n (contents l))
      × AllInMemory l'
unfolding remove_prefix
remove_prefix_lem zero [] h m = ([], refl, refl, tt)
remove_prefix_lem (suc n) [] h m = absurd (omega arith)
remove_prefix_lem zero (b ∷ l) h m = (b ∷ l, refl, refl, m)
remove_prefix_lem (suc n) (b ∷ l) h m = elim (Bool-cases (ltb (suc n) (Buffer.size b))) [
  | inl part ↦
      let (b', e, c, v) = buffer_remove_prefix (suc n) b (ground arith) m.0 in
      (
        b' ∷ l,
        ground arith,
        rw c (sym (drop-append_le (suc n) (str b) (contents l) (ground arith))),
        (v, m.1),
      )
  | inr whole ↦
      let (l', e, c, v) =
        remove_prefix_lem (suc n - Buffer.size b) l
          (ground (arith, length-append (str b) (contents l))) m.1 in
      (l', ground arith, c ∙ sym (drop-append_ge (suc n) (str b) (contents l) (ground arith)), v)
]

-- Past its length the removal throws.
pub remove_prefix_short :
    (n : ℕ) (l : BufferList) → length (contents l) < n → remove_prefix n l ≡ none
unfolding remove_prefix
remove_prefix_short zero l h = absurd (omega arith)
remove_prefix_short (suc n) [] h = ground arith
remove_prefix_short (suc n) (b ∷ l) h =
    ground
      (arith, length-append (str b) (contents l), remove_prefix_short (suc n - Buffer.size b) l)

pub concatenate_lem : (n : ℕ) (l : BufferList) → concatenate n l ≡ take n (contents l)
unfolding concatenate
concatenate_lem n l =
    let all : n - 0 ≡ n = omega arith in
    concatenate_from_lem n [] l (omega arith) ∙ ap (λ k. take k (contents l)) all

pub AllInMemory-append : (l m : BufferList) → AllInMemory l → AllInMemory m → AllInMemory (l ++ m)
AllInMemory-append [] m h k = k
AllInMemory-append (b ∷ l) m h k = (h.0, AllInMemory-append l m h.1 k)
