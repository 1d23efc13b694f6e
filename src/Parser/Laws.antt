-- ===== src/Parser/Laws.antt =====
-- What the readers of libsponge/util/parser.cc get from a buffer that starts with what they want.
use cs.Prelude.{
  ℕ, ◌+◌, ◌-◌, ◌*◌, ◌/◌, ◌%◌, ◌^◌, ◌≤◌, ◌<◌, ◌≡◌, false, zero, suc, get_elem?, Option-cases, inl,
  inr, refl, sym, ap, ◌∙◌, Option, none, some, List, [], ◌∷◌, ◌++◌, arith, length, drop, ltb,
  take-all, append-nil, append_assoc, subst, length-append,
}
use cs.Buffer.{Buffer, str}
use cs.Buffer
use cs.BufferList.Laws.{InMemory, buffer_remove_prefix}
use cs.Parser.{
  M, ◌>>=◌, give, of_buffer, parse_int, parse_checked, skip_checked, done, get_error, zeros, resize,
  put_bytes, put_u8, put_u16, put_u32, read_from, check_size, u8, u16, u32, skip, bytes, no_error,
}

-- A read of `a` that leaves the bytes `rest`, without an error.
pub record Reads {A : Type 0} (m : M A) (b : Buffer) (a : A) (rest : List ℕ) : Type 0 where
  pub left : Buffer
  pub result : m (of_buffer b) ≡ some (a, of_buffer left)
  pub bytes : str left ≡ rest
  pub in_memory : InMemory left

abbrev pub AllBytes : List ℕ → Type 0
AllBytes [] = Unit {0}
AllBytes (x ∷ xs) = (x < 256) × AllBytes xs

pub AllBytes-append : (xs ys : List ℕ) → AllBytes xs → AllBytes ys → AllBytes (xs ++ ys)
AllBytes-append [] ys h k = k
AllBytes-append (x ∷ xs) ys (b, h) k = (b, AllBytes-append xs ys h k)

pub AllBytes-zeros : (n : ℕ) → AllBytes (zeros n)
AllBytes-zeros zero = tt
AllBytes-zeros (suc n) = (omega arith, AllBytes-zeros n)

check_size_lem : (n : ℕ) (b : Buffer) → n ≤ Buffer.size b → check_size n (of_buffer b) ≡ of_buffer b
unfolding check_size
check_size_lem n b h = let fits : ltb (Buffer.size b) n ≡ false = ground arith in rw fits

parse_int_step :
    (len v : ℕ) (b left : Buffer)
    → len ≤ Buffer.size b
    → read_from (8 * len) len 0 0 b ≡ some v
    → Buffer.remove_prefix len b ≡ some left
    → parse_int len (of_buffer b) ≡ some (v, of_buffer left)
unfolding parse_int parse_checked
parse_int_step len v b left h r e = ap (parse_checked len) (check_size_lem len b h) ∙ rw (r, e)

-- The loop over the buffer's string.
read_list : ℕ → ℕ → ℕ → ℕ → List ℕ → Option ℕ
read_list width zero i ret s = some ret
read_list width (suc left) i ret s = elim (get_elem? s i) [
  | none ↦ none
  | some c ↦ read_list width left (i + 1) ((ret * 256 % 2 ^ width + c) % 2 ^ width) s
]

read_from_lem :
    (width left i ret : ℕ) (b : Buffer)
    → read_from width left i ret b ≡ read_list width left i ret (str b)
unfolding read_from read_list
read_from_lem width zero i ret b = refl
read_from_lem width (suc left) i ret b = elim (Option-cases (get_elem? (str b) i)) [
  | inl over ↦ rw (read_from, read_list, over)
  | inr (c, e) ↦ rw (read_from, read_list, e) (read_from_lem width left _ _ b)
]

-- A number in the string's front.
parse_int-Reads :
    (len v : ℕ) (b : Buffer) (s : List ℕ)
    → InMemory b
    → str b ≡ s
    → len ≤ length s
    → read_list (8 * len) len 0 0 s ≡ some v
    → Reads (parse_int len) b v (drop len s)
parse_int-Reads len v b s m e h r =
    let fits : len ≤ Buffer.size b = omega (arith, ap length e) in
    let (left, e', d, m') = buffer_remove_prefix len b fits m in
    record {
      left = left;
      result =
          parse_int_step len v b left fits
            (read_from_lem (8 * len) len 0 0 b ∙ ap (read_list (8 * len) len 0 0) e ∙ r) e';
      bytes = d ∙ ap (drop len) e;
      in_memory = m';
    }

pub u8-Reads :
    (x : ℕ) (rest : List ℕ) (b : Buffer)
    → InMemory b
    → str b ≡ x ∷ rest
    → x < 256
    → Reads u8 b x rest
unfolding u8 read_list
u8-Reads x rest b m e h = parse_int-Reads 1 x b (x ∷ rest) m e (omega arith) (ground arith)

-- A byte as it is written.
pub byte-Reads :
    (x : ℕ) (rest : List ℕ) (b : Buffer)
    → InMemory b
    → str b ≡ (x / 2 ^ 0 % 256) ∷ rest
    → x < 256
    → Reads u8 b x rest
byte-Reads x rest b m e h =
    let same : x / 2 ^ 0 % 256 ≡ x = omega arith in
    u8-Reads x rest b m (e ∙ ap (λ y. y ∷ rest) same) h

pub u16-Reads :
    (x : ℕ) (rest : List ℕ) (b : Buffer)
    → InMemory b
    → str b ≡ (x / 2 ^ 8 % 256) ∷ (x / 2 ^ 0 % 256) ∷ rest
    → x < 2 ^ 16
    → Reads u16 b x rest
unfolding u16 read_list
u16-Reads x rest b m e h =
    parse_int-Reads 2 x b ((x / 2 ^ 8 % 256) ∷ (x / 2 ^ 0 % 256) ∷ rest) m e (omega arith)
      (ground arith)

pub u32-Reads :
    (x : ℕ) (rest : List ℕ) (b : Buffer)
    → InMemory b
    → str b ≡ (x / 2 ^ 24 % 256) ∷ (x / 2 ^ 16 % 256) ∷ (x / 2 ^ 8 % 256) ∷ (x / 2 ^ 0 % 256) ∷ rest
    → x < 2 ^ 32
    → Reads u32 b x rest
unfolding u32 read_list
u32-Reads x rest b m e h =
    parse_int-Reads 4 x b
      ((x / 2 ^ 24 % 256) ∷ (x / 2 ^ 16 % 256) ∷ (x / 2 ^ 8 % 256) ∷ (x / 2 ^ 0 % 256) ∷ rest) m e
      (omega arith) (ground arith)

-- One read after another.
pub Reads-then :
    {A B : Type 0} {m : M A} (f : A → M B) {b : Buffer} {a : A} {rest : List ℕ} {a' : B}
    {rest' : List ℕ}
    → Reads m b a rest
    → ((b' : Buffer) → InMemory b' → str b' ≡ rest → Reads (f a) b' a' rest')
    → Reads (m >>= f) b a' rest'
Reads-then f r next =
    let q = next r.left r.in_memory r.bytes in
    record {
      left = q.left;
      result = rw (◌>>=◌, r.result) q.result;
      bytes = q.bytes;
      in_memory = q.in_memory;
    }

pub give-Reads :
    {A : Type 0} (a : A) (b : Buffer) (rest : List ℕ)
    → InMemory b
    → str b ≡ rest
    → Reads (give a) b a rest
give-Reads a b rest m e = record { left = b; result = refl; bytes = e; in_memory = m }

pub skip-Reads :
    (n : ℕ) (b : Buffer) (rest : List ℕ)
    → InMemory b
    → n ≤ Buffer.size b
    → drop n (str b) ≡ rest
    → Reads (skip n) b tt rest
unfolding skip skip_checked
skip-Reads n b rest m h d =
    let (left, e, s, m') = buffer_remove_prefix n b h m in
    record {
      left = left;
      result = ap (λ p. done (skip_checked n p)) (check_size_lem n b h) ∙ rw e;
      bytes = s ∙ d;
      in_memory = m';
    }

-- An array of bytes.
pub bytes-Reads :
    (xs rest : List ℕ) (b : Buffer)
    → InMemory b
    → str b ≡ xs ++ rest
    → AllBytes xs
    → Reads (bytes (length xs)) b xs rest
unfolding bytes
bytes-Reads [] rest b m e h = give-Reads [] b rest m e
bytes-Reads (x ∷ xs) rest b m e (h, hs) =
    Reads-then _ (u8-Reads x (xs ++ rest) b m e h) (λ b' m' e'.
      Reads-then _ (bytes-Reads xs rest b' m' e' hs)
        (λ b'' m'' e''. give-Reads (x ∷ xs) b'' rest m'' e''))

pub length-zeros : (n : ℕ) → length (zeros n) ≡ n
length-zeros zero = refl
length-zeros (suc n) = omega (arith, length-zeros n)

pub drop-append_left : (xs ys : List ℕ) → drop (length xs) (xs ++ ys) ≡ ys
drop-append_left [] ys = refl
drop-append_left (x ∷ xs) ys = drop-append_left xs ys

-- Padding is skipped.
pub padding-Reads :
    (n : ℕ) (rest : List ℕ) (b : Buffer)
    → InMemory b
    → str b ≡ zeros n ++ rest
    → Reads (skip n) b tt rest
padding-Reads n rest b m e =
    skip-Reads n b rest m (omega (arith, ap length e, length-append (zeros n) rest, length-zeros n))
      (ap (drop n) e
        ∙ subst (λ k. drop k (zeros n ++ rest) ≡ rest) (length-zeros n)
            (drop-append_left (zeros n) rest))

pub get_error-Reads :
    (b : Buffer) (rest : List ℕ) → InMemory b → str b ≡ rest → Reads get_error b no_error rest
get_error-Reads b rest m e = record { left = b; result = refl; bytes = e; in_memory = m }

-- What `resize` does to a string that is not longer.
pub resize_lem : (n : ℕ) (s : List ℕ) → length s ≤ n → resize n s ≡ s ++ zeros (n - length s)
unfolding resize
resize_lem n s h = ap (λ t. t ++ zeros (n - length s)) (take-all n s h)

-- The bytes of a number.
abbrev pub u16_string : ℕ → List ℕ
u16_string x = (x / 2 ^ 8 % 256) ∷ (x / 2 ^ 0 % 256) ∷ []

abbrev pub u32_string : ℕ → List ℕ
u32_string x = (x / 2 ^ 24 % 256) ∷ (x / 2 ^ 16 % 256) ∷ (x / 2 ^ 8 % 256) ∷ (x / 2 ^ 0 % 256) ∷ []

pub put_u16_lem : (s : List ℕ) (x : ℕ) → put_u16 s x ≡ s ++ u16_string x
unfolding put_u16
put_u16_lem s x = append_assoc s ((x / 2 ^ 8 % 256) ∷ []) ((x / 2 ^ 0 % 256) ∷ [])

pub put_u32_lem : (s : List ℕ) (x : ℕ) → put_u32 s x ≡ s ++ u32_string x
unfolding put_u32
put_u32_lem s x = rw (append_assoc, append_assoc, append_assoc)

-- Bytes that are written one by one.
pub put_bytes_lem : (s xs : List ℕ) → AllBytes xs → put_bytes s xs ≡ s ++ xs
unfolding put_bytes put_u8
put_bytes_lem s [] all = sym (append-nil s)
put_bytes_lem s (x ∷ xs) (h, all) =
    let same : x / 2 ^ 0 % 256 ≡ x = omega arith in
    put_bytes_lem (s ++ (x / 2 ^ 0 % 256) ∷ []) xs all
    ∙ append_assoc s ((x / 2 ^ 0 % 256) ∷ []) xs
    ∙ ap (λ y. s ++ y ∷ xs) same
