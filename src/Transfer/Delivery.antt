-- ===== src/Transfer/Delivery.antt =====
-- What the client of a receiver (libsponge/tcp_receiver.cc) reads is what the client of the sender at
-- the other end (libsponge/tcp_sender.cc) wrote.
use cs.Prelude.{
  ℕ, zero, suc, ◌+◌, ◌^◌, ◌≤◌, ◌<◌, ◌≡◌, refl, sym, ap, ap₂, ◌∙◌, some, some_eq, List, [], ◌∷◌,
  ◌++◌, arith, length, take, get_elem?,
}
use native.Mathlib.Decide.{dec_le}
use cs.Seqno.{WrappingInt32, IsWord32}
use cs.BufferList.Laws.{contents}
use cs.Reassembler.Slice.{slice, take-slice}
use cs.Receiver.{stream_out}
use cs.Transfer.{Link, Reach, established}
use cs.Transfer.Invariant.{Agrees, Keeps, Reach-Keeps, established-Keeps}

-- A list as a stream, which goes on with `d`.
abbrev pub stream_of : ℕ → List ℕ → ℕ → ℕ
stream_of d [] i = d
stream_of d (x ∷ xs) zero = x
stream_of d (x ∷ xs) (suc i) = stream_of d xs i

slice_shift :
    (S T : ℕ → ℕ) (i j n : ℕ) → ((k : ℕ) → S (i + k) ≡ T (j + k)) → slice S i n ≡ slice T j n
slice_shift S T i j zero h = refl
slice_shift S T i j (suc n) h =
    let zero_right : i ≡ i + 0 = omega arith in
    let here : S i ≡ T j = ap S zero_right ∙ h 0 ∙ ap T (omega arith) in
    ap₂ ◌∷◌ here
      (slice_shift S T (i + 1) (j + 1) n (λ k. ap S (omega arith) ∙ h (1 + k) ∙ ap T (omega arith)))

stream_of-Agrees : (d : ℕ) (isn : WrappingInt32) (xs : List ℕ) → Agrees (stream_of d xs) isn xs
stream_of-Agrees d isn [] = refl
stream_of-Agrees d isn (x ∷ xs) = ap (◌∷◌ x) (
    stream_of-Agrees d isn xs
    ∙ slice_shift (stream_of d xs) (stream_of d (x ∷ xs)) 0 1 (length xs) (λ k.
      let l : 0 + k ≡ k = omega arith in let r : 1 + k ≡ suc k = omega arith in rw (l, r) refl))

get-slice : (S : ℕ → ℕ) (i j n : ℕ) → j < n → get_elem? (slice S i n) j ≡ some (S (i + j))
get-slice S i j zero h = absurd (omega arith)
get-slice S i zero (suc n) h = ap (λ k. some (S k)) (omega arith)
get-slice S i (suc j) (suc n) h =
    get-slice S (i + 1) j n (omega arith) ∙ ap (λ k. some (S k)) (omega arith)

stream_of_end : (d : ℕ) (xs : List ℕ) → stream_of d xs (length xs) ≡ d
stream_of_end d [] = refl
stream_of_end d (x ∷ xs) = stream_of_end d xs

-- Bytes that are the front of every stream that goes on from `xs` are a front of `xs`.
no_more :
    (xs ys : List ℕ) (n : ℕ)
    → ys ≡ slice (stream_of 0 xs) 0 n
    → ys ≡ slice (stream_of 1 xs) 0 n
    → n ≤ length xs
no_more xs ys n e e' = elim (dec_le n (length xs)) [
  | yes h ↦ h
  | no h ↦ absurd (
      omega (
        arith,
        some_eq (
            sym (past 0 (omega arith))
            ∙ ap (λ l. get_elem? l (length xs)) (sym e ∙ e')
            ∙ past 1 (omega arith)),
      ))
]
  where
    past : (d : ℕ) → length xs < n → get_elem? (slice (stream_of d xs) 0 n) (length xs) ≡ some d
    past d h =
        get-slice (stream_of d xs) 0 (length xs) n h
        ∙ ap some (ap (stream_of d xs) (omega arith) ∙ stream_of_end d xs)

front-take :
    (xs ys : List ℕ) (n : ℕ) → ys ≡ slice (stream_of 0 xs) 0 n → n ≤ length xs → ys ≡ take n xs
front-take xs ys n e h =
    e
    ∙ sym (take-slice (stream_of 0 xs) n 0 (length xs) h)
    ∙ ap (take n) (sym (stream_of-Agrees 0 (record { raw_value = 0 }) xs))

pub Reach-Kept :
    (send_capacity retx_timeout window recv_capacity : ℕ) (isn : WrappingInt32) (l : Link)
    → send_capacity < 2 ^ 64
    → recv_capacity < 2 ^ 64
    → IsWord32 isn
    → Reach (established send_capacity retx_timeout isn window recv_capacity) l
    → (d : ℕ) → Keeps (stream_of d l.written) isn l
Reach-Kept send_capacity retx_timeout window recv_capacity isn l small small' word r d =
    Reach-Keeps (stream_of d l.written) isn
      (established-Keeps (stream_of d l.written) isn send_capacity retx_timeout window recv_capacity
        small small' word)
      r (stream_of-Agrees d isn l.written)

-- After the handshake of two ends with capacities below 2^64 and any steps, in which a network loses,
-- repeats and reorders segments and acknowledgments say anything, while numbers stay below 2^62 and
-- within 2^30 of what is acknowledged, and what arrives is within 2^30 of the receiver's front and
-- comes before a FIN is acknowledged: what the reading client has read, with the bytes that wait for
-- it, is a front of what the writing client has written.
pub Reach-Delivered :
    (send_capacity retx_timeout window recv_capacity : ℕ) (isn : WrappingInt32) (l : Link)
    → send_capacity < 2 ^ 64
    → recv_capacity < 2 ^ 64
    → IsWord32 isn
    → Reach (established send_capacity retx_timeout isn window recv_capacity) l
    → let n : ℕ = l.receiver.reassembler.first_unassemble_byte in
      (n ≤ length l.written)
      × (l.read ++ contents (stream_out l.receiver).stream_buffer ≡ take n l.written)
Reach-Delivered send_capacity retx_timeout window recv_capacity isn l small small' word r =
    let fits = no_more l.written _ n (front 0) (front 1) in
    (fits, front-take l.written _ n (front 0) fits)
  where
    n : ℕ
    n = l.receiver.reassembler.first_unassemble_byte

    front :
        (d : ℕ)
        → l.read ++ contents (stream_out l.receiver).stream_buffer
          ≡ slice (stream_of d l.written) 0 n
    front d =
        let k =
          Reach-Kept send_capacity retx_timeout window recv_capacity isn l small small' word r d in
        k.receives.front
