-- ===== src/Pipe/Ring.antt =====
-- The bytes in a pipe's ring as a list, and what copying into the ring does to them.
use xv6_riscv_zig.Prelude.{
  ℕ, zero, suc, ◌+◌, ◌%◌, ◌^◌, ◌≤◌, ◌<◌, ◌≡◌, refl, ap, ap₂, ◌∙◌, sym, List, [], ◌∷◌, ◌++◌, arith,
  length,
}
pub use xv6_riscv_zig.Prelude.{slice, slice-append, slice-same}
use xv6_riscv_zig.Pipe.{pipesize, Pipe, sub32, add32, copy}

-- `k` bytes of a ring from the counter `r` on
abbrev pub queued : (ℕ → ℕ) → ℕ → ℕ → List ℕ
queued d r zero = []
queued d r (suc k) = d (r % pipesize) ∷ queued d (r + 1) k

abbrev pub used : Pipe → ℕ
used p = sub32 p.nwrite p.nread

-- The abstract view of a pipe: the bytes written and not yet read, in order
abbrev pub contents : Pipe → List ℕ
contents p = queued p.ring p.nread (used p)

-- The counters are 32-bit numbers, and at most `pipesize` bytes apart.
pub record IsPipe (p : Pipe) : Type 0 where
  pub nread_lt : p.nread < 2 ^ 32
  pub nwrite_lt : p.nwrite < 2 ^ 32
  pub used_le : used p ≤ pipesize

pub queued-append :
    (d : ℕ → ℕ) (r k m : ℕ) → queued d r (k + m) ≡ queued d r k ++ queued d (r + k) m
queued-append d r zero m =
    let (at, len) : (r ≡ r + 0) × (0 + m ≡ m) = (omega arith, omega arith) in
    λ i. queued d (at i) (len i)
queued-append d r (suc k) m =
    ap (queued d r) {x = suc k + m} {y = suc (k + m)} (omega arith)
    ∙ ap (λ q. d (r % pipesize) ∷ q)
        (queued-append d (r + 1) k m ∙ ap (λ b. queued d (r + 1) k ++ queued d b m) (omega arith))

pub length-queued : (d : ℕ → ℕ) (r k : ℕ) → length (queued d r k) ≡ k
length-queued d r zero = refl
length-queued d r (suc k) = ap suc (length-queued d (r + 1) k)

pub queued-same :
    (d e : ℕ → ℕ) (r k : ℕ)
    → ((j : ℕ) → j < k → d ((r + j) % pipesize) ≡ e ((r + j) % pipesize))
    → queued d r k ≡ queued e r k
queued-same d e r zero h = refl
queued-same d e r (suc k) h =
    ap₂ (λ b q. b ∷ q)
      (ap (λ b. d (b % pipesize)) {x = r} {y = r + 0} (omega arith)
        ∙ h 0 (omega arith)
        ∙ ap (λ b. e (b % pipesize)) {x = r + 0} {y = r} (omega arith))
      (queued-same d e (r + 1) k (λ j lt.
        ap (λ b. d (b % pipesize)) {x = r + 1 + j} {y = r + suc j} (omega arith)
        ∙ h (suc j) (omega arith)
        ∙ ap (λ b. e (b % pipesize)) {x = r + suc j} {y = r + 1 + j} (omega arith)))

-- Up to its end, the ring is a piece of memory.
pub queued-slice :
    (d : ℕ → ℕ) (r k : ℕ) → r % pipesize + k ≤ pipesize → queued d r k ≡ slice d (r % pipesize) k
queued-slice d r zero h = refl
queued-slice d r (suc zero) h = refl
queued-slice d r (suc (suc k)) h =
    ap (λ q. d (r % pipesize) ∷ q)
      (queued-slice d (r + 1) (suc k) (omega arith)
        ∙ ap (λ a. slice d a (suc k)) {x = (r + 1) % pipesize} {y = r % pipesize + 1} (omega arith))

-- The counters wrap at a multiple of the ring's size.
pub queued-wrap : (d : ℕ → ℕ) (r k : ℕ) → queued d (r % 2 ^ 32) k ≡ queued d r k
queued-wrap d r zero = refl
queued-wrap d r (suc k) =
    ap₂ (λ b q. d b ∷ q) (omega arith)
      (sym (queued-wrap d (r % 2 ^ 32 + 1) k)
        ∙ ap (λ b. queued d b k) {x = (r % 2 ^ 32 + 1) % 2 ^ 32} {y = (r + 1) % 2 ^ 32}
            (omega arith)
        ∙ queued-wrap d (r + 1) k)

pub copy-in :
    (d : ℕ → ℕ) (to : ℕ) (f : ℕ → ℕ) (a k j : ℕ) → j < k → copy d to f a k (to + j) ≡ f (a + j)
unfolding copy
copy-in d to f a k j h = ground arith

pub copy-out :
    (d : ℕ → ℕ) (to : ℕ) (f : ℕ → ℕ) (a k q : ℕ) → (to ≤ q → to + k ≤ q) → copy d to f a k q ≡ d q
unfolding copy
copy-out d to f a k q h = ground arith

-- A free entry of the ring is not one that is queued.
free-queued :
    (r w g j : ℕ)
    → r < 2 ^ 32
    → w < 2 ^ 32
    → j < sub32 w r
    → sub32 w r + g ≤ pipesize
    → w % pipesize ≤ (r + j) % pipesize
    → w % pipesize + g ≤ (r + j) % pipesize
free-queued r w g j hr hw hj hg h = omega arith

-- Bytes that are copied to free entries do not change the contents.
pub contents-copy :
    (p : Pipe) (f : ℕ → ℕ) (a g : ℕ)
    → IsPipe p
    → used p + g ≤ pipesize
    → contents (record p { ring = copy p.ring (p.nwrite % pipesize) f a g }) ≡ contents p
contents-copy p f a g valid h =
    queued-same (copy p.ring (p.nwrite % pipesize) f a g) p.ring p.nread (used p) (λ j lt.
      copy-out p.ring (p.nwrite % pipesize) f a g ((p.nread + j) % pipesize)
        (free-queued p.nread p.nwrite g j valid.nread_lt valid.nwrite_lt lt h))

used-add :
    (r w c : ℕ)
    → r < 2 ^ 32
    → w < 2 ^ 32
    → sub32 w r + c ≤ pipesize
    → sub32 (add32 w c) r ≡ sub32 w r + c
used-add r w c hr hw h = omega arith

used-end : (r w : ℕ) → r < 2 ^ 32 → w < 2 ^ 32 → (r + sub32 w r) % 2 ^ 32 ≡ w
used-end r w hr hw = omega arith

-- A chunk that fits between `nwrite` and the ring's end, and into the free entries, is appended.
pub contents-write :
    (p : Pipe) (f : ℕ → ℕ) (a c : ℕ)
    → IsPipe p
    → used p + c ≤ pipesize
    → p.nwrite % pipesize + c ≤ pipesize
    → let q : Pipe = record p {
      ring = copy p.ring (p.nwrite % pipesize) f a c;
      nwrite = add32 p.nwrite c;
    } in
      IsPipe q × (contents q ≡ contents p ++ slice f a c)
contents-write p f a c valid fits near = (valid', same)
  where
    pos : ℕ
    pos = p.nwrite % pipesize

    d : ℕ → ℕ
    d = copy p.ring pos f a c

    more : sub32 (add32 p.nwrite c) p.nread ≡ used p + c
    more = used-add p.nread p.nwrite c valid.nread_lt valid.nwrite_lt fits

    valid' : IsPipe (record p { ring = d; nwrite = add32 p.nwrite c })
    valid' = record { nread_lt = valid.nread_lt; nwrite_lt = omega arith; used_le = rw more fits }

    new : queued d (p.nread + used p) c ≡ slice f a c
    new =
        sym (queued-wrap d (p.nread + used p) c)
        ∙ ap (λ b. queued d b c) (used-end p.nread p.nwrite valid.nread_lt valid.nwrite_lt)
        ∙ queued-slice d p.nwrite c near
        ∙ slice-same d f pos a c (λ j lt. copy-in p.ring pos f a c j lt)

    same : queued d p.nread (sub32 (add32 p.nwrite c) p.nread) ≡ contents p ++ slice f a c
    same =
        ap (queued d p.nread) more
        ∙ queued-append d p.nread (used p) c
        ∙ ap₂ (λ x y. x ++ y) (contents-copy p f a c valid fits) new
