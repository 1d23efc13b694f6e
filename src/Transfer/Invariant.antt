-- ===== src/Transfer/Invariant.antt =====
-- What holds of a link (libsponge/tcp_sender.cc and tcp_receiver.cc) after every step.
use cs.Prelude.{
  ℕ, ◌+◌, ◌^◌, ◌<◌, ◌≡◌, refl, sym, ap, ap₂, ◌∙◌, subst, false, some_eq, List, [], ◌++◌, arith,
  length, take, All, All-append, All-get, length-append, length-take,
}
use cs.Seqno.{WrappingInt32, IsWord32}
use cs.ByteStream
use cs.ByteStream.{end_input}
use cs.ByteStream.Valid.{write_cut, init-IsValid}
use cs.Reassembler.Slice.{slice}
use cs.Sender.{TcpSender}
use cs.Sender
use cs.Sender.Flight.{Chain, Valid}
use cs.Sender.Flight
use cs.Receiver.{set_ackno}
use cs.Reassembler
use cs.Reassembler.Delivery.{init-Inv}
use cs.Transfer.{
  Link, Step, Reach, write, close, fill, acknowledge, wait, arrive, consume, here, next, sent,
  established, answered, with_bytes,
}
use cs.Transfer.Pieces.{Piece, label-Pieces, label}
use cs.Transfer.Filling.{slice_front}
use cs.Transfer.Sending.{Sound, flushed, Sending, fill_window-Sending, ack_received-Sending}
use cs.Transfer.Timing.{tick-Sending}
use cs.Transfer.Client.{write-Sound, close-Sound}
use cs.Transfer.Receiving.{Receives, segment_received-Receives, read-Receives}

module _ (S : ℕ → ℕ) (isn : WrappingInt32) where
  -- What the writer has written is the front of the stream.
  abbrev pub Agrees : List ℕ → Type 0
  Agrees xs = xs ≡ slice S 0 (length xs)

  pub record Keeps (l : Link) : Type 0 where
    pub sound : Sound S isn (length l.written) l.sender
    pub idle : l.sender.segments_out ≡ []
    pub pieces : All (λ (n, seg). Piece S isn n seg) l.network
    pub receives : Receives S isn l.read l.receiver

  sent-Keeps :
      (n : ℕ) (s : TcpSender) (l : Link)
      → Keeps l
      → Sending S isn (length l.written) n s
      → Keeps (sent n s l)
  sent-Keeps n s l k g = record {
    sound = flushed S isn _ s g.sound;
    idle = refl;
    pieces =
        All-append _ l.network (label n s.segments_out) k.pieces
          (label-Pieces S isn n s.segments_out g.out);
    receives = k.receives;
  }

  cut_Agrees :
      (xs ys : List ℕ) → Agrees (xs ++ ys) → Agrees xs × (ys ≡ slice S (length xs) (length ys))
  cut_Agrees xs ys e =
      let (front, rest) =
        slice_front S 0 (length (xs ++ ys)) xs ys e (omega (arith, length-append xs ys)) in
      (front, rest ∙ ap₂ (slice S) (omega arith) (omega (arith, length-append xs ys)))

  Step-Agrees : {l m : Link} → Step l m → Agrees m.written → Agrees l.written
  Step-Agrees (write l bytes open_now short range) a = (cut_Agrees l.written _ a).0
  Step-Agrees (close l) a = a
  Step-Agrees (fill l s e) a = a
  Step-Agrees (acknowledge l ackno window b s e) a = a
  Step-Agrees (wait l ms) a = a
  Step-Agrees (arrive l i n seg seg' b r at same near e) a = a
  Step-Agrees (consume l n bytes s range e) a = a

  write-Keeps :
      (l : Link) (bytes : List ℕ)
      → let n : ℕ = (ByteStream.write bytes l.sender.stream).0 in
        let m : Link = record l {
          sender = with_bytes bytes l.sender;
          written = l.written ++ take n bytes;
        } in
        l.sender.fin_sent ≡ false
        → length bytes < 2 ^ 64
        → Flight.InRange (with_bytes bytes l.sender)
        → Agrees m.written
        → Keeps l
        → Keeps m
  write-Keeps l bytes open_now short range a k = record {
    sound =
        subst (λ w. Sound S isn w (with_bytes bytes l.sender)) (sym all)
          (write-Sound S isn (length l.written) bytes l.sender k.sound open_now short
            ((cut_Agrees l.written _ a).1 ∙ ap (slice S (length l.written)) taken) range);
    idle = k.idle;
    pieces = k.pieces;
    receives = k.receives;
  }
    where
      n : ℕ
      n = (ByteStream.write bytes l.sender.stream).0

      taken : length (take n bytes) ≡ n
      taken =
          omega
            (arith, length-take n bytes, (write_cut l.sender.stream bytes k.sound.valid.stream).0)

      all : length (l.written ++ take n bytes) ≡ length l.written + n
      all = omega (arith, length-append l.written (take n bytes), taken)

  -- Every step keeps what holds of a link.
  Step-Keeps : {l m : Link} → Step l m → Agrees m.written → Keeps l → Keeps m
  Step-Keeps (write l bytes open_now short range) a k = write-Keeps l bytes open_now short range a k
  Step-Keeps (close l) a k = record {
    sound = close-Sound S isn (length l.written) l.sender k.sound;
    idle = k.idle;
    pieces = k.pieces;
    receives = k.receives;
  }
  Step-Keeps (fill l s e) a k =
      let (s', e', g) = fill_window-Sending S isn _ l.sender k.sound k.idle in
      sent-Keeps _ s l k (subst (Sending S isn _ _) (some_eq (sym e' ∙ e)) g)
  Step-Keeps (acknowledge l ackno window b s e) a k =
      let (b', s', e', g) = ack_received-Sending S isn _ l.sender ackno window k.sound k.idle in
      sent-Keeps _ s l k (subst (Sending S isn _ _) (ap (λ p. p.1) (some_eq (sym e' ∙ e))) g)
  Step-Keeps (wait l ms) a k = sent-Keeps _ _ l k (tick-Sending S isn _ ms l.sender k.sound k.idle)
  Step-Keeps (arrive l i n seg seg' b r at same near e) a k =
      let (b', r', e', g) =
        segment_received-Receives S isn n seg seg' l.read l.receiver
          (All-get _ l.network i k.pieces at) same near k.receives in
      record {
        sound = k.sound;
        idle = k.idle;
        pieces = k.pieces;
        receives = subst (Receives S isn l.read) (ap (λ p. p.1) (some_eq (sym e' ∙ e))) g;
      }
  Step-Keeps (consume l n bytes s range e) a k = record {
    sound = k.sound;
    idle = k.idle;
    pieces = k.pieces;
    receives = read-Receives S isn l.read bytes n l.receiver s k.receives range e;
  }

  pub Reach-Keeps : {start m : Link} → Keeps start → Reach start m → Agrees m.written → Keeps m
  Reach-Keeps k here a = k
  Reach-Keeps k (next r t) a = Step-Keeps t a (Reach-Keeps k r (Step-Agrees t a))

  answered-Sound :
      (capacity retx_timeout window : ℕ)
      → capacity < 2 ^ 64
      → IsWord32 isn
      → Sound S isn 0 (answered capacity retx_timeout isn window)
  unfolding Sender.init Chain
  answered-Sound capacity retx_timeout window small word = record {
    valid = record {
      word = word;
      stream = init-IsValid capacity (omega arith);
      chain = refl;
      counted = refl;
      ended = refl;
    };
    range = (omega arith, omega arith);
    flows = record {
      same_isn = refl;
      started = refl;
      position = refl;
      within = omega arith;
      held = refl;
      outgoing = tt;
    };
  }

  pub established-Keeps :
      (send_capacity retx_timeout window recv_capacity : ℕ)
      → send_capacity < 2 ^ 64
      → recv_capacity < 2 ^ 64
      → IsWord32 isn
      → Keeps (established send_capacity retx_timeout isn window recv_capacity)
  unfolding Sender.init set_ackno Reassembler.init ByteStream.init
  established-Keeps send_capacity retx_timeout window recv_capacity small small' word = record {
    sound = answered-Sound send_capacity retx_timeout window small word;
    idle = refl;
    pieces = tt;
    receives = record {
      synced = record {
        open_now = refl;
        word = word;
        stream = init-Inv S recv_capacity small';
        acked = refl;
        followed = refl;
      };
      same_isn = refl;
      front = refl;
    };
  }
