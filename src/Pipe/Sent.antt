-- ===== src/Pipe/Sent.antt =====
-- What one chunk of `pipewrite` appends to a pipe, and how chunks add up.
use xv6_riscv_zig.Prelude.{
  ℕ, ◌+◌, ◌-◌, ◌%◌, ◌^◌, ◌≤◌, ◌<◌, ◌≡◌, refl, ap, ◌∙◌, sym, subst, true, false, ◌++◌, arith, min,
  ==_iff, ◌==◌, append_assoc, append-nil,
}
use xv6_riscv_zig.Pipe.{pipesize, Pipe, UserMem, copy, sub32, add32}
use xv6_riscv_zig.Pipe.Ring.{slice, contents, IsPipe, slice-append, contents-write}

-- From `p` to `q`, the bytes `i` to `j` of the caller's buffer at `addr` were appended, and
-- neither end was closed.
pub record Sent (u : UserMem) (addr i j : ℕ) (p q : Pipe) : Type 0 where
  pub valid : IsPipe q
  pub le : i ≤ j
  pub bytes : contents q ≡ contents p ++ slice u.byte (addr + i) (j - i)
  pub same_nread : q.nread ≡ p.nread
  pub same_readopen : q.readopen ≡ p.readopen
  pub same_writeopen : q.writeopen ≡ p.writeopen

pub Sent-refl :
    (u : UserMem) (addr i : ℕ) (p q : Pipe)
    → IsPipe q
    → contents q ≡ contents p
    → q.nread ≡ p.nread
    → q.readopen ≡ p.readopen
    → q.writeopen ≡ p.writeopen
    → Sent u addr i i p q
Sent-refl u addr i p q valid e n r w = record {
  valid = valid;
  le = omega arith;
  bytes =
      e
      ∙ sym (append-nil (contents p))
      ∙ ap (λ k. contents p ++ slice u.byte (addr + i) k) {x = 0} {y = i - i} (omega arith);
  same_nread = n;
  same_readopen = r;
  same_writeopen = w;
}

pub Sent-trans :
    (u : UserMem) (addr i j k : ℕ) (p q r : Pipe)
    → Sent u addr i j p q
    → Sent u addr j k q r
    → Sent u addr i k p r
Sent-trans u addr i j k p q r s t = record {
  valid = t.valid;
  le = omega (arith, s.le, t.le);
  bytes =
      t.bytes
      ∙ ap (λ xs. xs ++ slice u.byte (addr + j) (k - j)) s.bytes
      ∙ append_assoc (contents p) (slice u.byte (addr + i) (j - i))
          (slice u.byte (addr + j) (k - j))
      ∙ ap (λ xs. contents p ++ xs)
          (ap (λ a. slice u.byte (addr + i) (j - i) ++ slice u.byte a (k - j)) {x = addr + j}
              {y = addr + i + (j - i)} (omega (arith, s.le))
            ∙ sym (slice-append u.byte (addr + i) (j - i) (k - j))
            ∙ ap (slice u.byte (addr + i)) {x = (j - i) + (k - j)} {y = k - i}
                (omega (arith, s.le, t.le)));
  same_nread = t.same_nread ∙ s.same_nread;
  same_readopen = t.same_readopen ∙ s.same_readopen;
  same_writeopen = t.same_writeopen ∙ s.same_writeopen;
}

-- The arithmetic of one chunk
pub chunk_lem :
    (r w n i : ℕ)
    → r < 2 ^ 32
    → w < 2 ^ 32
    → sub32 w r ≤ pipesize
    → i < n
    → let c = min (pipesize - w % pipesize) (min (sub32 pipesize (sub32 w r)) (n - i)) in
      (sub32 w r + c ≤ pipesize) × (w % pipesize + c ≤ pipesize) × (c ≤ n - i)
chunk_lem r w n i hr hw hu lt = (omega arith, omega arith, omega arith)

pub chunk_pos :
    (r w n i : ℕ)
    → r < 2 ^ 32
    → w < 2 ^ 32
    → sub32 w r ≤ pipesize
    → i < n
    → (w == add32 r pipesize) ≡ false
    → 0 < min (pipesize - w % pipesize) (min (sub32 pipesize (sub32 w r)) (n - i))
chunk_pos r w n i hr hw hu lt h = ground arith

pub full_lem : (r w : ℕ) → r < 2 ^ 32 → (w == add32 r pipesize) ≡ true → sub32 w r ≡ pipesize
full_lem r w hr h =
    let e : w ≡ (r + pipesize) % 2 ^ 32 = (==_iff w (add32 r pipesize)).0 h in omega (arith, e)

-- The size of the next chunk
abbrev pub chunk : ℕ → ℕ → Pipe → ℕ
chunk n i p =
    min (pipesize - p.nwrite % pipesize) (min (sub32 pipesize (sub32 p.nwrite p.nread)) (n - i))

-- The pipe after the copy of the next chunk, which a missing page may have cut short
abbrev pub landed : UserMem → ℕ → ℕ → ℕ → Pipe → Pipe
landed u addr n i p = record p {
  ring =
      copy p.ring (p.nwrite % pipesize) u.byte (addr + i)
        (min (chunk n i p) (u.present (addr + i)));
}

pub Sent-chunk :
    (u : UserMem) (addr n i : ℕ) (p : Pipe)
    → IsPipe p
    → i < n
    → (g : ℕ) → g ≡ chunk n i p
    → Sent u addr i (i + chunk n i p) p (record p {
      ring = copy p.ring (p.nwrite % pipesize) u.byte (addr + i) g;
      nwrite = add32 p.nwrite (chunk n i p);
    })
Sent-chunk u addr n i p valid lt g e =
    let (fits, near, le) =
      chunk_lem p.nread p.nwrite n i valid.nread_lt valid.nwrite_lt valid.used_le lt in
    let (valid', same) = contents-write p u.byte (addr + i) (chunk n i p) valid fits near in
    subst
      (λ k. Sent u addr i (i + chunk n i p) p (record p {
        ring = copy p.ring (p.nwrite % pipesize) u.byte (addr + i) k;
        nwrite = add32 p.nwrite (chunk n i p);
      }))
      (sym e)
      (record {
        valid = valid';
        le = omega arith;
        bytes =
            same
            ∙ ap (λ k. contents p ++ slice u.byte (addr + i) k) {x = chunk n i p}
                {y = i + chunk n i p - i} (omega arith);
        same_nread = refl;
        same_readopen = refl;
        same_writeopen = refl;
      })
