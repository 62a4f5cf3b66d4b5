-- ===== src/Pipe/Receiving.antt =====
-- `piperead` takes bytes off the front of the pipe's contents.
use xv6_riscv_zig.Prelude.{
  ℕ, zero, suc, ◌+◌, ◌-◌, ◌≤◌, ◌<◌, ◌≡◌, refl, ap, subst, Bool, true, false, ◌&&◌, [], arith,
  Bool-cases, inl, inr, ◌⊎◌, ltb, leb, ltb→lt, ltb-false, leb→le, leb-false, ==_iff, ◌==◌,
  if◌then◌else◌,
}
use xv6_riscv_zig.Pipe.{
  Pipe, writers, wakeup_on, UserMem, copyout, sub32, add32, Read, got, interrupted, empty, ReadStep,
  reads_on, stops, read_step, read_loop, piperead,
}
use xv6_riscv_zig.Pipe.Ring.{queued, used, contents, IsPipe}
use xv6_riscv_zig.Pipe.Taken.{
  Taken, Taken-trans, chunk, landed, chunk_lem, landed-before, landed-behind, Taken-same,
  Taken-chunk,
}

-- How a run of `piperead` may end. It never runs out of fuel.
pub data ReadDone (killed : Bool) (addr n : ℕ) (u : UserMem) (p : Pipe) : Read → Type 0 where
  done :
      (v : UserMem) (q : Pipe) (j : ℕ)
      → Taken addr n 0 j u v p q
      → (j ≡ n) ⊎ ((contents q ≡ []) ⊎ (u.present (addr + j) < n - j))
      → ReadDone killed addr n u p (got v (wakeup_on writers q) j)
  stopped :
      contents p ≡ []
      → p.writeopen ≡ true
      → killed ≡ true
      → ReadDone killed addr n u p (interrupted p)
  waits :
      contents p ≡ [] → p.writeopen ≡ true → killed ≡ false → ReadDone killed addr n u p (empty p)

-- How the copying loop may end, from `i` bytes on
data LoopDone (addr n i : ℕ) (u : UserMem) (p : Pipe) : Read → Type 0 where
  looped :
      (v : UserMem) (q : Pipe) (j : ℕ)
      → Taken addr n i j u v p q
      → (j ≡ n) ⊎ ((contents q ≡ []) ⊎ (u.present (addr + j) < n - j))
      → LoopDone addr n i u p (got v (wakeup_on writers q) j)

data StepDone (addr n i : ℕ) (u : UserMem) (p : Pipe) : ReadStep → Type 0 where
  further :
      (v : UserMem) (q : Pipe) (j : ℕ)
      → Taken addr n i j u v p q
      → i < j
      → StepDone addr n i u p (reads_on v q j)
  ended :
      (v : UserMem) (q : Pipe)
      → Taken addr n i i u v p q
      → (i ≡ n) ⊎ ((contents q ≡ []) ⊎ (u.present (addr + i) < n - i))
      → StepDone addr n i u p (stops v q i)

read_step-StepDone :
    (addr n i : ℕ) (u : UserMem) (p : Pipe)
    → IsPipe p
    → i ≤ n
    → StepDone addr n i u p (read_step u addr n i p)
unfolding read_step copyout
read_step-StepDone addr n i u p valid le = elim (Bool-cases (ltb i n)) [
  | inr all ↦ rw all (ended u p same (inl (omega (arith, ltb-false i n all, le))))
  | inl more ↦ elim (Bool-cases (sub32 p.nwrite p.nread == 0)) [
    | inl none_left ↦
        rw (more, none_left)
          (ended u p same
            (inr (inl (ap (queued p.ring p.nread) ((==_iff (used p) 0).0 none_left)))))
    | inr some_left ↦ elim (Bool-cases (leb (chunk n i p) (u.present (addr + i)))) [
      | inl fits ↦
          rw (more, some_left, fits)
            (further (landed addr n i u p) (record p { nread = add32 p.nread (chunk n i p) })
              (i + chunk n i p)
              (Taken-chunk addr n i u p valid (ltb→lt i n more) some_left
                (leb→le (chunk n i p) (u.present (addr + i)) fits))
              (omega (
                arith,
                (chunk_lem p.nread p.nwrite n i valid.used_le (ltb→lt i n more) some_left).0,
              )))
      | inr missing ↦
          rw (more, some_left, missing)
            (ended (landed addr n i u p) p
              (Taken-same addr n i u (landed addr n i u p) p valid le (landed-before addr n i u p)
                (landed-behind addr n i u p le) refl)
              (inr (inr (omega (arith, leb-false (chunk n i p) (u.present (addr + i)) missing)))))
    ]
  ]
]
  where
    same : Taken addr n i i u u p p
    same = Taken-same addr n i u u p valid le (λ x h. refl) (λ x h. refl) refl

LoopDone-further :
    (addr n i j : ℕ) (u v : UserMem) (p q : Pipe) (r : Read)
    → Taken addr n i j u v p q
    → LoopDone addr n j v q r
    → LoopDone addr n i u p r
LoopDone-further addr n i j u v p q r s (looped w q' k t e) =
    looped w q' k (Taken-trans addr n i j k u v w p q q' s t) (
      subst (λ there. (k ≡ n) ⊎ ((contents q' ≡ []) ⊎ (there (addr + k) < n - k))) s.same_present e)

read_loop-LoopDone :
    (addr n fuel i : ℕ) (u : UserMem) (p : Pipe)
    → IsPipe p
    → i ≤ n
    → n - i < fuel
    → LoopDone addr n i u p (read_loop u addr n fuel i p)
unfolding read_loop
read_loop-LoopDone addr n zero i u p valid le enough = absurd (omega (arith, enough))
read_loop-LoopDone addr n (suc fuel) i u p valid le enough =
    after (read_step u addr n i p) (read_step-StepDone addr n i u p valid le)
      (λ v q j valid' le' lt.
        read_loop-LoopDone addr n fuel j v q valid' le' (omega (arith, enough, lt)))
  where
    after :
        (w : ReadStep)
        → StepDone addr n i u p w
        → ((v : UserMem) (q : Pipe) (j : ℕ)
            → IsPipe q
            → j ≤ n
            → i < j
            → LoopDone addr n j v q (read_loop v addr n fuel j q))
        → LoopDone addr n i u p (elim w [
          | reads_on v q j ↦ read_loop v addr n fuel j q
          | stops v q j ↦ got v (wakeup_on writers q) j
        ])
    after (reads_on v q j) (further _ _ _ s lt) rest =
        LoopDone-further addr n i j u v p q (read_loop v addr n fuel j q) s
          (rest v q j s.valid s.le_n lt)
    after (stops v q j) (ended _ _ s e) rest = looped v q i s e

ReadDone-looped :
    (killed : Bool) (addr n : ℕ) (u : UserMem) (p : Pipe) (r : Read)
    → LoopDone addr n 0 u p r
    → ReadDone killed addr n u p r
ReadDone-looped killed addr n u p r (looped v q j s e) = done v q j s e

-- Let the counters of the pipe be at most 512 bytes apart. Then a run of `piperead` ends in one of
-- three ways. It returns a number of bytes: these were taken off the front of the pipe's contents,
-- in order, into the caller's buffer, nothing outside the buffer was written, they are `n`, or all
-- the pipe held, or fewer since the buffer has a missing page, and the writers were woken; or it
-- returns -1, with the pipe empty and open for writing, since the process was killed; or it sleeps,
-- with the pipe empty and open for writing. It always ends, and the counters stay at most 512 bytes
-- apart.
pub piperead_lem :
    (killed : Bool) (addr n : ℕ) (u : UserMem) (p : Pipe)
    → IsPipe p
    → ReadDone killed addr n u p (piperead u killed addr n p)
unfolding piperead
piperead_lem killed addr n u p valid = elim (Bool-cases (p.nread == p.nwrite && p.writeopen)) [
  | inr go ↦ rw go (
      ReadDone-looped killed addr n u p (read_loop u addr n (suc n) 0 p)
        (read_loop-LoopDone addr n (suc n) 0 u p valid (omega arith) (omega arith)))
  | inl wait ↦ rw wait (idle wait killed)
]
  where
    no_bytes : (p.nread == p.nwrite && p.writeopen) ≡ true → contents p ≡ []
    no_bytes wait =
        let same : p.nread ≡ p.nwrite = (==_iff p.nread p.nwrite).0 (ground arith) in
        ap (queued p.ring p.nread) {x = used p} {y = 0}
          (omega (arith, same, valid.nread_lt, valid.nwrite_lt))

    idle :
        (p.nread == p.nwrite && p.writeopen) ≡ true
        → (k : Bool) → ReadDone k addr n u p (if k then interrupted p else empty p)
    idle wait true = stopped (no_bytes wait) (ground arith) refl
    idle wait false = waits (no_bytes wait) (ground arith) refl
