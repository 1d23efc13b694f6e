-- ===== src/FileDescriptor/Pipes.antt =====
-- A kernel of pipes: a descriptor gives the bytes that are waiting and takes all that is written. It
-- shows that what is relied on of a kernel can be had.
use cs.FileDescriptor.Working.{IsWorking}
use cs.Prelude.{
  zero, suc, ◌<◌, ◌⊎◌, length-take, ℕ, ◌≡◌, ◌≢◌, refl, sym, ap, ◌∙◌, true, false, some, List, ◌++◌,
  length, take, drop, ◌==◌, if◌then◌else◌, arith, take-all, inl, inr, Bool-cases,
}
use cs.ViewList.Laws.{joined}
use cs.FileDescriptor.{SystemCalls}
use cs.FileDescriptor.Kernel.{IsKernel}

pub record Pipe : Type 0 where
  pub waiting : List ℕ
  pub got : List ℕ
  pub sent : List ℕ

abbrev pub Pipes : Type 0
Pipes = ℕ → Pipe

abbrev pub set : ℕ → Pipe → Pipes → Pipes
set f p k g = if g == f then p else k g

abbrev pub got : ℕ → Pipes → List ℕ
got f k = (k f).got

abbrev pub sent : ℕ → Pipes → List ℕ
sent f k = (k f).sent

abbrev pub pipe_calls : SystemCalls Pipes
pipe_calls = record {
  read = λ f n k. (
    some (take n (k f).waiting),
    set f (record (k f) { waiting = drop n (k f).waiting; got = (k f).got ++ take n (k f).waiting })
        k,
  );
  writev =
      λ f b k. (some (length (joined b)), set f (record (k f) { sent = (k f).sent ++ joined b }) k);
  close = λ f k. (true, k);
  shutdown = λ f how k. (true, k);
}

set_same : (f : ℕ) (p : Pipe) (k : Pipes) → set f p k f ≡ p
set_same f p k = let e : (f == f) ≡ true = ground arith in rw e refl

set_other : (f g : ℕ) (p : Pipe) (k : Pipes) → g ≢ f → set f p k g ≡ k g
set_other f g p k h = let e : (g == f) ≡ false = ground arith in rw e refl

-- A field that the new pipe has as the old one is the same everywhere.
set_kept :
    (field : Pipe → List ℕ) (f g : ℕ) (p : Pipe) (k : Pipes)
    → field p ≡ field (k f)
    → field (set f p k g) ≡ field (k g)
set_kept field f g p k h = elim (Bool-cases (g == f)) [
  | inl e ↦ let same : f ≡ g = ground arith in rw e (h ∙ ap (λ x. field (k x)) same)
  | inr e ↦ rw e refl
]

pub pipe_calls-IsKernel : IsKernel pipe_calls got sent
pipe_calls-IsKernel = record {
  got-read = λ f n k. ap (λ p. p.got) (set_same f _ k);
  got-read_other = λ f g n k h. ap (λ p. p.got) (set_other f g _ k h);
  sent-read = λ f g n k. set_kept (λ p. p.sent) f g _ k refl;
  sent-writev = λ f b k.
      ap (λ p. p.sent) (set_same f _ k)
      ∙ ap (◌++◌ ((k f).sent)) (sym (take-all (length (joined b)) (joined b) (omega arith)));
  sent-writev_other = λ f g b k h. ap (λ p. p.sent) (set_other f g _ k h);
  got-writev = λ f g b k. set_kept (λ p. p.got) f g _ k refl;
  got-close = λ f g k. refl;
  sent-close = λ f g k. refl;
  got-shutdown = λ f g how k. refl;
  sent-shutdown = λ f g how k. refl;
}

none_or_some : (n : ℕ) → (n ≡ 0) ⊎ (0 < n)
none_or_some zero = inl refl
none_or_some (suc n) = inr (omega arith)

pub pipe_calls-IsWorking : IsWorking pipe_calls
pipe_calls-IsWorking = record {
  reads = λ f n k. (take n (k f).waiting, refl, omega (arith, length-take n (k f).waiting));
  writes = λ f b k. (length (joined b), refl, omega arith, none_or_some (length (joined b)));
  closes = λ f k. refl;
  shuts = λ f how k. refl;
}
