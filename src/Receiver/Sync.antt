-- ===== src/Receiver/Sync.antt =====
-- A receiver (libsponge/tcp_receiver.cc) whose peer numbers the bytes of one stream.
use cs.Prelude.{
  ◌⊎◌, ◌||◌, ℕ, sym, subst, ◌∙◌, ◌+◌, ◌^◌, ◌≤◌, ◌<◌, ◌≡◌, refl, Bool, true, false, ◌&&◌, not, some,
  arith, length, Bool-cases, inl, inr, sub64,
}
use cs.Seqno.{IsWord32, wrap, unwrap}
use cs.Seqno.Laws.{unwrap-wrap}
use cs.Buffer.{str}
use cs.Reassembler.{StreamReassembler, push_substring}
use cs.Reassembler.Slice.{slice}
use cs.Reassembler.Window.{limit, InRange, Inv}
use cs.Reassembler.Push.{push_substring-Pushed}
use cs.Segment.{TcpSegment}
use cs.Receiver.{
  TcpReceiver, segment_received, refused, take_syn, inbound, deliver, take_fin, set_ackno, due,
  abs_seqno, finish, answer,
}

-- The SYN has come, and the acknowledgment number and the checkpoint agree with the bytes put
-- together.
pub record Synced (S : ℕ → ℕ) (r : TcpReceiver) : Type 0 where
  pub open_now : r.syn_received ≡ true
  pub word : IsWord32 r.isn
  pub stream : Inv S r.reassembler
  pub acked : r.last_ackno ≡ wrap (due r) r.isn
  pub followed : r.checkpoint ≡ r.reassembler.first_unassemble_byte

-- A segment that carries the stream's bytes from index `i` on, without a SYN.
pub record Carries (S : ℕ → ℕ) (r : TcpReceiver) (seg : TcpSegment) (i : ℕ) : Type 0 where
  pub plain : seg.header.syn ≡ false
  pub numbered : seg.header.seqno ≡ wrap (i + 1) r.isn
  pub bytes : str seg.payload ≡ slice S i (length (str seg.payload))
  pub short : length (str seg.payload) < 2 ^ 16
  pub going : due r ≡ r.reassembler.first_unassemble_byte + 1
  pub small : r.reassembler.first_unassemble_byte + r.reassembler.capacity < 2 ^ 62
  pub below : i < r.reassembler.first_unassemble_byte + 2 ^ 30
  pub above : r.reassembler.first_unassemble_byte < i + 2 ^ 30

-- The call where nothing returns early.
pub received :
    (seg : TcpSegment) (r r1 r2 : TcpReceiver)
    → refused seg r ≡ false
    → take_syn seg r ≡ r1
    → deliver seg r1 ≡ some r2
    → segment_received seg r ≡ some (answer seg r (inbound seg r1), set_ackno (take_fin seg r2))
unfolding segment_received
received seg r r1 r2 passes t e = rw (passes, t, e, finish, t)

module _ (S : ℕ → ℕ) where
  pub seqno_index :
      (r : TcpReceiver) (seg : TcpSegment) (i : ℕ)
      → Synced S r
      → Carries S r seg i
      → abs_seqno seg r ≡ i + 1
  seqno_index r seg i s c =
      rw (c.numbered, s.followed)
        (unwrap-wrap (i + 1) r.reassembler.first_unassemble_byte r.isn s.word
          (omega (arith, c.small, c.below)) (omega (arith, c.above)) (omega (arith, c.below)))

  pub window_start :
      (r : TcpReceiver)
      → Synced S r
      → r.reassembler.first_unassemble_byte < 2 ^ 62
      → due r ≡ r.reassembler.first_unassemble_byte + 1
      → unwrap r.last_ackno r.isn r.checkpoint ≡ r.reassembler.first_unassemble_byte + 1
  window_start r s small e =
      rw (s.acked, s.followed, e)
        (unwrap-wrap (r.reassembler.first_unassemble_byte + 1) r.reassembler.first_unassemble_byte
          r.isn s.word (omega arith) (omega arith) (omega arith))

  -- What lies in the window starts in the reassembler's window.
  inbound_index :
      (r : TcpReceiver) (seg : TcpSegment) (i : ℕ)
      → Synced S r
      → Carries S r seg i
      → inbound seg r ≡ true
      → i ≤ limit r.reassembler
  unfolding inbound
  inbound_index r seg i s c h = ground (
    arith,
    seqno_index r seg i s c,
    window_start r s (omega (arith, c.small)) c.going,
    s.stream,
    s.stream.output,
    c,
    s,
  )

  -- The reassembler after the segment, whether it lay in the window or not.
  pub record Fed (r r' : TcpReceiver) : Type 0 where
    pub stream : Inv S r'.reassembler
    pub window : limit r'.reassembler ≡ limit r.reassembler
    pub capacity : r'.reassembler.capacity ≡ r.reassembler.capacity
    pub forward : r.reassembler.first_unassemble_byte ≤ r'.reassembler.first_unassemble_byte
    pub followed : r'.checkpoint ≡ r'.reassembler.first_unassemble_byte
    pub same_isn : r'.isn ≡ r.isn
    pub same_syn : r'.syn_received ≡ r.syn_received
    pub same_fin : r'.fin_received ≡ r.fin_received

  pub deliver_inside :
      (r : TcpReceiver) (seg : TcpSegment) (q : StreamReassembler) (i : ℕ)
      → inbound seg r ≡ true
      → sub64 (abs_seqno seg r) 1 ≡ i
      → push_substring (str seg.payload) i seg.header.fin r.reassembler ≡ some q
      → deliver seg r ≡ some (record r { reassembler = q; checkpoint = q.first_unassemble_byte })
  unfolding deliver
  deliver_inside r seg q i inside index e = rw (inside, index, e)

  pub deliver-Fed :
      (r : TcpReceiver) (seg : TcpSegment) (i : ℕ)
      → Synced S r
      → Carries S r seg i
      → InRange r.reassembler
      → (r' : TcpReceiver) × (deliver seg r ≡ some r') × Fed r r'
  unfolding deliver
  deliver-Fed r seg i s c range = elim (Bool-cases (inbound seg r)) [
    | inr outside ↦ (
      r,
      rw outside,
      record {
        stream = s.stream;
        window = refl;
        capacity = refl;
        forward = omega arith;
        followed = s.followed;
        same_isn = refl;
        same_syn = refl;
        same_fin = refl;
      },
    )
    | inl inside ↦
        let index : sub64 (abs_seqno seg r) 1 ≡ i =
          omega (arith, seqno_index r seg i s c, c.small, c.below) in
        let (q, e, p) =
          push_substring-Pushed S (str seg.payload) i seg.header.fin r.reassembler s.stream range
            c.bytes (omega (arith, c.small, c.below, c.short)) (inbound_index r seg i s c inside) in
        (
          record r { reassembler = q; checkpoint = q.first_unassemble_byte },
          deliver_inside r seg q i inside index e,
          record {
            stream = p.inv;
            window = p.window.0;
            capacity = p.window.1;
            forward = p.forward;
            followed = refl;
            same_isn = refl;
            same_syn = refl;
            same_fin = refl;
          },
        )
  ]

  due_least :
      (r : TcpReceiver)
      → r.reassembler.first_unassemble_byte < 2 ^ 63
      → r.reassembler.first_unassemble_byte + 1 ≤ due r
  due_least r small = ground arith

  pub finish-Synced :
      (r r' : TcpReceiver) (seg : TcpSegment)
      → Synced S r
      → seg.header.syn ≡ false
      → Fed r r'
      → Synced S (set_ackno (take_fin seg r'))
        × (limit (set_ackno (take_fin seg r')).reassembler ≡ limit r.reassembler)
        × ((set_ackno (take_fin seg r')).reassembler.first_unassemble_byte
            ≡ r'.reassembler.first_unassemble_byte)
  unfolding set_ackno take_fin
  finish-Synced r r' seg s plain f = elim (Bool-cases (seg.header.fin && not r'.fin_received)) [
    | inl ends ↦
        rw (ends, plain)
          ((
            record {
              open_now = f.same_syn ∙ s.open_now;
              word = subst (λ n. IsWord32 n) (sym f.same_isn) s.word;
              stream = f.stream;
              acked = refl;
              followed = f.followed;
            },
            f.window,
            refl,
          ))
    | inr goes_on ↦ rw goes_on (
        (
          record {
            open_now = f.same_syn ∙ s.open_now;
            word = subst (λ n. IsWord32 n) (sym f.same_isn) s.word;
            stream = f.stream;
            acked = refl;
            followed = f.followed;
          },
          f.window,
          refl,
        ))
  ]

  plain_due :
      (seg : TcpSegment) (r : TcpReceiver)
      → seg.header.fin ≡ false
      → r.fin_received ≡ false
      → r.reassembler.first_unassemble_byte < 2 ^ 63
      → due (set_ackno (take_fin seg r))
        ≡ (set_ackno (take_fin seg r)).reassembler.first_unassemble_byte + 1
  unfolding set_ackno take_fin
  plain_due seg r no_fin none_yet small = rw (no_fin, none_yet) (omega arith)

  -- A receiver that is in step with its peer, has acknowledged no FIN and has indexes below 2^62,
  -- takes any segment of the peer's stream of less than 2^16 bytes, without a SYN, that starts within
  -- 2^30 of the front: it does not fail, stays in step, keeps its window's end, and does not lower
  -- the acknowledgment number that it asks for. Where neither this segment nor one before carried a
  -- FIN, it has still acknowledged none: it asks for the number after the front.
  pub segment_received-Synced :
      (r : TcpReceiver) (seg : TcpSegment) (i : ℕ)
      → Synced S r
      → Carries S r seg i
      → InRange r.reassembler
      → (ok : Bool) × (r' : TcpReceiver) × (segment_received seg r ≡ some (ok, r'))
        × Synced S r'
        × (limit r'.reassembler ≡ limit r.reassembler)
        × (due r ≤ due r')
        × (((r.fin_received || seg.header.fin) ≡ true)
            ⊎ (due r' ≡ r'.reassembler.first_unassemble_byte + 1))
  unfolding segment_received
  segment_received-Synced r seg i s c range = elim (Bool-cases (refused seg r)) [
    | inl stops ↦ (false, r, rw stops, s, refl, omega arith, inr c.going)
    | inr passes ↦
        let (r', e, f) = deliver-Fed r seg i s c range in
        let (s', w, at) = finish-Synced r r' seg s c.plain f in
        (
          answer seg r (inbound seg r),
          set_ackno (take_fin seg r'),
          received seg r r r' passes (rw c.plain) e,
          s',
          w,
          omega (
            arith,
            c.going,
            c.small,
            at,
            f.forward,
            w,
            s'.stream.output,
            due_least (set_ackno (take_fin seg r'))
                (omega (arith, at, w, f.window, c.small, s'.stream, s.stream)),
          ),
          elim (Bool-cases (r.fin_received || seg.header.fin)) [
            | inl fin ↦ inl fin
            | inr plain ↦ inr (
                plain_due seg r' (ground arith) (f.same_fin ∙ ground (arith, plain))
                  (omega (arith, at, w, f.window, c.small, s'.stream, s.stream)))
          ],
        )
  ]
