-- ===== src/Pipe/Sending.antt =====
-- `pipewrite` appends to the contents of the pipe.
use xv6_riscv_zig.Prelude.{
  ℕ, zero, suc, ◌+◌, ◌-◌, ◌%◌, ◌≤◌, ◌<◌, ◌≡◌, refl, ◌∙◌, subst, Bool, true, false, not, ◌||◌, arith,
  length, Bool-cases, inl, inr, ◌⊎◌, min, ltb, leb, ltb→lt, ltb-false, leb→le, leb-false, ◌==◌,
}
use xv6_riscv_zig.Pipe.{
  pipesize, Pipe, readers, wakeup_on, UserMem, copy, copyin, add32, Write, wrote, refused, full,
  WriteStep, goes_on, ends, finish_write, write_chunk, write_step, write_loop, pipewrite,
}
use xv6_riscv_zig.Pipe.Ring.{used, contents, IsPipe, length-queued, contents-copy}
use xv6_riscv_zig.Pipe.Sent.{
  Sent, Sent-refl, Sent-trans, chunk_lem, chunk_pos, full_lem, chunk, landed, Sent-chunk,
}

-- How a run of `pipewrite` that starts with `i` bytes written may end. It never runs out of fuel.
pub data WriteDone (u : UserMem) (killed : ℕ → Bool) (addr n i : ℕ) (p : Pipe)
    : Write → Type 0 where
  done :
      (q : Pipe) (j : ℕ)
      → Sent u addr i j p q
      → (j ≡ n) ⊎ ((j < n) × (u.present (addr + j) < n - j))
      → WriteDone u killed addr n i p (wrote (wakeup_on readers q) j)
  stopped :
      (q : Pipe) (j : ℕ)
      → Sent u addr i j p q
      → (p.readopen ≡ false) ⊎ (killed j ≡ true)
      → WriteDone u killed addr n i p (refused q)
  waits :
      (q : Pipe) (j : ℕ)
      → Sent u addr i j p q
      → j < n
      → length (contents q) ≡ pipesize
      → WriteDone u killed addr n i p (full (wakeup_on readers q) j)

-- A round either goes on with more bytes written, or ends the run.
data StepDone (u : UserMem) (killed : ℕ → Bool) (addr n i : ℕ) (p : Pipe) : WriteStep → Type 0 where
  further :
      (q : Pipe) (j : ℕ)
      → Sent u addr i j p q
      → i < j
      → j ≤ n
      → StepDone u killed addr n i p (goes_on q j)
  ended : (r : Write) → WriteDone u killed addr n i p r → StepDone u killed addr n i p (ends r)

write_chunk-StepDone :
    (u : UserMem) (killed : ℕ → Bool) (addr n i : ℕ) (p : Pipe)
    → IsPipe p
    → i < n
    → (p.nwrite == add32 p.nread pipesize) ≡ false
    → StepDone u killed addr n i p (write_chunk u addr n i p)
unfolding write_chunk copyin finish_write
write_chunk-StepDone u killed addr n i p valid lt room =
    let (fits, near, le) =
      chunk_lem p.nread p.nwrite n i valid.nread_lt valid.nwrite_lt valid.used_le lt in
    let pos : 0 < chunk n i p =
      chunk_pos p.nread p.nwrite n i valid.nread_lt valid.nwrite_lt valid.used_le lt room in
    let there = u.present (addr + i) in
    elim (Bool-cases (leb (chunk n i p) there)) [
      | inl all ↦
          let h : chunk n i p ≤ there = leb→le (chunk n i p) there all in
          rw all (
            further
              (record p {
                ring =
                    copy p.ring (p.nwrite % pipesize) u.byte (addr + i) (min (chunk n i p) there);
                nwrite = add32 p.nwrite (chunk n i p);
              })
              (i + chunk n i p)
              (Sent-chunk u addr n i p valid lt (min (chunk n i p) there) (omega (arith, h)))
              (omega (arith, pos)) (omega (arith, le)))
      | inr some_missing ↦
          let h : there < chunk n i p = leb-false (chunk n i p) there some_missing in
          rw some_missing (
            ended (wrote (wakeup_on readers (landed u addr n i p)) i) (
              done (landed u addr n i p) i
                (Sent-refl u addr i p (landed u addr n i p)
                  (record {
                    nread_lt = valid.nread_lt;
                    nwrite_lt = valid.nwrite_lt;
                    used_le = valid.used_le;
                  })
                  (contents-copy p u.byte (addr + i) (min (chunk n i p) there) valid
                    (omega (arith, fits)))
                  refl refl refl)
                (inr (lt, omega (arith, h, le)))))
    ]

write_step-StepDone :
    (u : UserMem) (killed : ℕ → Bool) (addr n i : ℕ) (p : Pipe)
    → IsPipe p
    → i ≤ n
    → StepDone u killed addr n i p (write_step u killed addr n i p)
unfolding write_step finish_write
write_step-StepDone u killed addr n i p valid le = elim (Bool-cases (ltb i n)) [
  | inr all ↦ rw all (
      ended (wrote (wakeup_on readers p) i) (
        done p i (Sent-refl u addr i p p valid refl refl refl refl)
          (inl (omega (arith, ltb-false i n all, le)))))
  | inl more ↦ elim (Bool-cases (not p.readopen || killed i)) [
    | inl stop ↦
        rw (more, stop)
          (ended (refused p)
            (stopped p i (Sent-refl u addr i p p valid refl refl refl refl) (ground arith)))
    | inr live ↦ elim (Bool-cases (p.nwrite == add32 p.nread pipesize)) [
      | inl no_room ↦
          rw (more, live, no_room)
            (ended (full (wakeup_on readers p) i) (
              waits p i (Sent-refl u addr i p p valid refl refl refl refl) (ltb→lt i n more) (
                length-queued p.ring p.nread (used p)
                ∙ full_lem p.nread p.nwrite valid.nread_lt no_room)))
      | inr room ↦
          rw (more, live, room)
            (write_chunk-StepDone u killed addr n i p valid (ltb→lt i n more) room)
    ]
  ]
]

WriteDone-further :
    (u : UserMem) (killed : ℕ → Bool) (addr n i j : ℕ) (p q : Pipe) (r : Write)
    → Sent u addr i j p q
    → WriteDone u killed addr n j q r
    → WriteDone u killed addr n i p r
WriteDone-further u killed addr n i j p q r s (done q' k t e) =
    done q' k (Sent-trans u addr i j k p q q' s t) e
WriteDone-further u killed addr n i j p q r s (stopped q' k t e) =
    stopped q' k (Sent-trans u addr i j k p q q' s t)
      (subst (λ b. (b ≡ false) ⊎ (killed k ≡ true)) s.same_readopen e)
WriteDone-further u killed addr n i j p q r s (waits q' k t lt e) =
    waits q' k (Sent-trans u addr i j k p q q' s t) lt e

write_loop-WriteDone :
    (u : UserMem) (killed : ℕ → Bool) (addr n fuel i : ℕ) (p : Pipe)
    → IsPipe p
    → i ≤ n
    → n - i < fuel
    → WriteDone u killed addr n i p (write_loop u killed addr n fuel i p)
unfolding write_loop
write_loop-WriteDone u killed addr n zero i p valid le enough = absurd (omega (arith, enough))
write_loop-WriteDone u killed addr n (suc fuel) i p valid le enough =
    after (write_step u killed addr n i p) (write_step-StepDone u killed addr n i p valid le)
      (λ q j valid' le' lt.
        write_loop-WriteDone u killed addr n fuel j q valid' le' (omega (arith, enough, lt)))
  where
    after :
        (w : WriteStep)
        → StepDone u killed addr n i p w
        → ((q : Pipe) (j : ℕ)
            → IsPipe q
            → j ≤ n
            → i < j
            → WriteDone u killed addr n j q (write_loop u killed addr n fuel j q))
        → WriteDone u killed addr n i p
            (elim w [ goes_on q j ↦ write_loop u killed addr n fuel j q | ends r ↦ r ])
    after (goes_on q j) (further _ _ s lt le') rest =
        WriteDone-further u killed addr n i j p q (write_loop u killed addr n fuel j q) s
          (rest q j s.valid le' lt)
    after (ends r) (ended _ d) rest = d

-- Let the counters of the pipe be at most 512 bytes apart, and `i` of the `n` bytes be written.
-- Then a run of `pipewrite` appends the next bytes of the caller's buffer, in order, to the pipe's
-- contents, and ends in one of three ways: it returns the number of bytes written, which is `n`
-- unless the buffer has a missing page, and has woken the readers; it returns -1, where the read
-- end is closed or the process was killed; or it sleeps with the ring full, after it has woken the
-- readers. It always ends, and the counters stay at most 512 bytes apart.
pub pipewrite_lem :
    (u : UserMem) (killed : ℕ → Bool) (addr n i : ℕ) (p : Pipe)
    → IsPipe p
    → i ≤ n
    → WriteDone u killed addr n i p (pipewrite u killed addr n i p)
unfolding pipewrite
pipewrite_lem u killed addr n i p valid le =
    write_loop-WriteDone u killed addr n (suc n) i p valid le (omega arith)
