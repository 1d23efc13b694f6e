-- ===== src/Parser/Safety.antt =====
-- Readers of libsponge/util/parser.cc that do not throw, whatever is in the buffer.
use cs.Prelude.{
  ℕ, zero, suc, ◌+◌, ◌*◌, ◌%◌, ◌^◌, ◌≤◌, ◌<◌, ◌≡◌, refl, ap, ◌∙◌, Bool-cases, ◌⊎◌, inl, inr, some,
  List, [], ◌∷◌, arith, length, ltb, get_elem?,
}
use cs.Buffer.{Buffer, str}
use cs.Buffer
use cs.BufferList.Laws.{InMemory, buffer_remove_prefix}
use cs.Parser.{
  M, ◌>>=◌, give, get_error, parse_int, parse_checked, skip, skip_checked, done, read_from,
  check_size, u8, u16, u32, bytes, ParseResult, no_error, packet_too_short, NetParser,
}

-- The errors that a parser comes to.
abbrev pub Usual : ParseResult → Type 0
Usual e = (e ≡ no_error) ⊎ (e ≡ packet_too_short)

abbrev pub Fine : NetParser → Type 0
Fine p = InMemory p.buffer × Usual p.error

-- A call returns, and leaves the parser fine.
pub record Returns {A : Type 0} (m : M A) (p : NetParser) : Type 0 where
  pub value : A
  pub left : NetParser
  pub result : m p ≡ some (value, left)
  pub fine : Fine left

abbrev pub Safe : {A : Type 0} → M A → Type 0
Safe m = (p : NetParser) → Fine p → Returns m p

pub give-Safe : {A : Type 0} (a : A) → Safe (give a)
give-Safe a p fine = record { value = a; left = p; result = refl; fine = fine }

pub get_error-Safe : Safe get_error
get_error-Safe p fine = record { value = p.error; left = p; result = refl; fine = fine }

pub Safe-then :
    {A B : Type 0} {m : M A} {f : A → M B} → Safe m → ((a : A) → Safe (f a)) → Safe (m >>= f)
Safe-then s next p fine =
    let r = s p fine in
    let q = next r.value r.left r.fine in
    record { value = q.value; left = q.left; result = rw (◌>>=◌, r.result) q.result; fine = q.fine }

get_elem?-some : (s : List ℕ) (i : ℕ) → i < length s → (x : ℕ) × (get_elem? s i ≡ some x)
get_elem?-some [] i h = absurd (omega (arith, h))
get_elem?-some (x ∷ s) zero h = (x, refl)
get_elem?-some (x ∷ s) (suc i) h = get_elem?-some s i (omega arith)

-- With enough bytes, the loop gets to its end.
read_from-some :
    (width left i ret : ℕ) (b : Buffer)
    → i + left ≤ Buffer.size b
    → (v : ℕ) × (read_from width left i ret b ≡ some v)
unfolding read_from
read_from-some width zero i ret b h = (ret, refl)
read_from-some width (suc left) i ret b h =
    let (c, e) = get_elem?-some (str b) i (omega arith) in
    let (v, r) =
      read_from-some width left (i + 1) ((ret * 256 % 2 ^ width + c) % 2 ^ width) b (omega arith) in
    (v, rw (read_from, e) r)

checked-Returns :
    (len : ℕ) (b : Buffer)
    → InMemory b
    → len ≤ Buffer.size b
    → Returns (parse_checked len) (record { buffer = b; error = no_error })
unfolding parse_checked
checked-Returns len b m h =
    let (v, r) = read_from-some (8 * len) len 0 0 b (omega arith) in
    let (left, e, _, m') = buffer_remove_prefix len b h m in
    record {
      value = v;
      left = record { buffer = left; error = no_error };
      result = rw (r, e) refl;
      fine = (m', inl refl);
    }

-- A parser that has failed gives 0 and stays as it is.
failed-Returns :
    (len : ℕ) (b : Buffer)
    → InMemory b
    → Returns (parse_checked len) (record { buffer = b; error = packet_too_short })
unfolding parse_checked
failed-Returns len b m = record {
  value = 0;
  left = record { buffer = b; error = packet_too_short };
  result = refl;
  fine = (m, inr refl);
}

-- `check_size` leaves a parser that has failed, or one with enough bytes.
checked_size :
    (n : ℕ) (p : NetParser)
    → Fine p
    → (check_size n p ≡ record p { error = packet_too_short })
      ⊎ (check_size n p ≡ record p { error = no_error }) × (n ≤ Buffer.size p.buffer)
unfolding check_size
checked_size n p (m, usual) = elim (Bool-cases (ltb (Buffer.size p.buffer) n)) [
  | inl short ↦ inl (rw short refl)
  | inr long ↦ elim usual [
    | inl e ↦ inr (rw long (λ i. record p { error = e i }), ground arith)
    | inr e ↦ inl (rw long (λ i. record p { error = e i }))
  ]
]

-- A call that comes to another one.
pub along : {A : Type 0} {m f : M A} {p q : NetParser} → m p ≡ f q → Returns f q → Returns m p
along e r = record { value = r.value; left = r.left; result = e ∙ r.result; fine = r.fine }

pub parse_int-Safe : (len : ℕ) → Safe (parse_int len)
unfolding parse_int
parse_int-Safe len p fine = elim (checked_size len p fine) [
  | inl e ↦ along (ap (parse_checked len) e) (failed-Returns len p.buffer fine.0)
  | inr (e, h) ↦ along (ap (parse_checked len) e) (checked-Returns len p.buffer fine.0 h)
]

pub u8-Safe : Safe u8
unfolding u8
u8-Safe = parse_int-Safe 1

pub u16-Safe : Safe u16
unfolding u16
u16-Safe = parse_int-Safe 2

pub u32-Safe : Safe u32
unfolding u32
u32-Safe = parse_int-Safe 4

skip_done : ℕ → M (Unit {0})
skip_done n p = done (skip_checked n p)

pub skip-Safe : (n : ℕ) → Safe (skip n)
unfolding skip skip_checked skip_done
skip-Safe n p fine = elim (checked_size n p fine) [
  | inl e ↦
      along {f = skip_done n} {q = record p { error = packet_too_short }} (ap (skip_done n) e)
        (record {
          value = tt;
          left = record p { error = packet_too_short };
          result = refl;
          fine = (fine.0, inr refl);
        })
  | inr (e, h) ↦
      let (left, r, _, m) = buffer_remove_prefix n p.buffer h fine.0 in
      along {f = skip_done n} {q = record p { error = no_error }} (ap (skip_done n) e) (record {
        value = tt;
        left = record { buffer = left; error = no_error };
        result = rw r refl;
        fine = (m, inl refl);
      })
]

pub bytes-Safe : (n : ℕ) → Safe (bytes n)
unfolding bytes
bytes-Safe zero = give-Safe []
bytes-Safe (suc n) = Safe-then u8-Safe λ b. Safe-then (bytes-Safe n) λ bs. give-Safe (b ∷ bs)
