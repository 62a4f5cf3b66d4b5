-- ===== src/Pipe/Taken.antt =====
-- What one chunk of `piperead` takes off the front of a pipe, and how chunks add up.
use xv6_riscv_zig.Prelude.{
  ℕ, ◌+◌, ◌-◌, ◌%◌, ◌^◌, ◌≤◌, ◌<◌, ◌≡◌, refl, ap, ap₂, ◌∙◌, sym, false, ◌++◌, arith, min, ◌==◌,
  append_assoc,
}
use xv6_riscv_zig.Pipe.{pipesize, Pipe, UserMem, copy, sub32, add32}
use xv6_riscv_zig.Pipe.Ring.{
  slice, queued, used, contents, IsPipe, slice-append, slice-same, queued-append, queued-slice,
  queued-wrap, copy-in, copy-out,
}

-- From `p` to `q` and from memory `u` to `v`, the first bytes of the contents went to the bytes `i`
-- to `j` of the caller's buffer at `addr`, and nothing outside the bytes `i` to `n` was written.
pub record Taken (addr n i j : ℕ) (u v : UserMem) (p q : Pipe) : Type 0 where
  pub valid : IsPipe q
  pub le : i ≤ j
  pub le_n : j ≤ n
  pub bytes : contents p ≡ slice v.byte (addr + i) (j - i) ++ contents q
  pub before : (x : ℕ) → x < addr + i → v.byte x ≡ u.byte x
  pub behind : (x : ℕ) → addr + n ≤ x → v.byte x ≡ u.byte x
  pub same_present : v.present ≡ u.present

pub Taken-trans :
    (addr n i j k : ℕ) (u v w : UserMem) (p q r : Pipe)
    → Taken addr n i j u v p q
    → Taken addr n j k v w q r
    → Taken addr n i k u w p r
Taken-trans addr n i j k u v w p q r s t = record {
  valid = t.valid;
  le = omega (arith, s.le, t.le);
  le_n = t.le_n;
  bytes =
      s.bytes
      ∙ ap₂ (λ xs ys. xs ++ ys)
          (slice-same v.byte w.byte (addr + i) (addr + i) (j - i)
            (λ x lt. sym (t.before (addr + i + x) (omega (arith, lt, s.le)))))
          t.bytes
      ∙ sym (
          append_assoc (slice w.byte (addr + i) (j - i)) (slice w.byte (addr + j) (k - j))
            (contents r))
      ∙ ap (λ xs. xs ++ contents r)
          (ap (λ a. slice w.byte (addr + i) (j - i) ++ slice w.byte a (k - j)) {x = addr + j}
              {y = addr + i + (j - i)} (omega (arith, s.le))
            ∙ sym (slice-append w.byte (addr + i) (j - i) (k - j))
            ∙ ap (slice w.byte (addr + i)) {x = (j - i) + (k - j)} {y = k - i}
                (omega (arith, s.le, t.le)));
  before = λ x lt. t.before x (omega (arith, lt, s.le)) ∙ s.before x lt;
  behind = λ x le. t.behind x le ∙ s.behind x le;
  same_present = t.same_present ∙ s.same_present;
}

-- The size of the next chunk
abbrev pub chunk : ℕ → ℕ → Pipe → ℕ
chunk n i p = min (min (sub32 p.nwrite p.nread) (n - i)) (pipesize - p.nread % pipesize)

-- The caller's memory after the copy of the next chunk, which a missing page may have cut short
abbrev pub landed : ℕ → ℕ → ℕ → UserMem → Pipe → UserMem
landed addr n i u p = record u {
  byte =
      copy u.byte (addr + i) p.ring (p.nread % pipesize) (min (chunk n i p) (u.present (addr + i)));
}

used-sub :
    (r w c : ℕ) → r < 2 ^ 32 → w < 2 ^ 32 → c ≤ sub32 w r → sub32 w (add32 r c) ≡ sub32 w r - c
used-sub r w c hr hw h = omega arith

-- A chunk that ends before the ring does is taken off the front.
contents-read :
    (p : Pipe) (c : ℕ)
    → IsPipe p
    → c ≤ used p
    → p.nread % pipesize + c ≤ pipesize
    → let q : Pipe = record p { nread = add32 p.nread c } in
      IsPipe q × (contents p ≡ slice p.ring (p.nread % pipesize) c ++ contents q)
contents-read p c valid le near = (valid', same)
  where
    less : sub32 p.nwrite (add32 p.nread c) ≡ used p - c
    less = used-sub p.nread p.nwrite c valid.nread_lt valid.nwrite_lt le

    valid' : IsPipe (record p { nread = add32 p.nread c })
    valid' = record {
      nread_lt = omega arith;
      nwrite_lt = valid.nwrite_lt;
      used_le = rw less (omega (arith, valid.used_le));
    }

    rest :
        queued p.ring (p.nread + c) (used p - c) ≡ contents (record p { nread = add32 p.nread c })
    rest =
        sym (queued-wrap p.ring (p.nread + c) (used p - c))
        ∙ ap (queued p.ring (add32 p.nread c)) (sym less)

    same :
        contents p
        ≡ slice p.ring (p.nread % pipesize) c ++ contents (record p { nread = add32 p.nread c })
    same =
        ap (queued p.ring p.nread) {x = used p} {y = c + (used p - c)} (omega (arith, le))
        ∙ queued-append p.ring p.nread c (used p - c)
        ∙ ap₂ (λ x y. x ++ y) (queued-slice p.ring p.nread c near) rest

pub chunk_lem :
    (r w n i : ℕ)
    → sub32 w r ≤ pipesize
    → i < n
    → (sub32 w r == 0) ≡ false
    → let c = min (min (sub32 w r) (n - i)) (pipesize - r % pipesize) in
      (0 < c) × (c ≤ sub32 w r) × (r % pipesize + c ≤ pipesize) × (c ≤ n - i)
chunk_lem r w n i hu lt some_left = (ground arith, omega arith, omega arith, omega arith)

-- A copy into the caller's buffer changes nothing outside it.
pub landed-before :
    (addr n i : ℕ) (u : UserMem) (p : Pipe) (x : ℕ)
    → x < addr + i
    → (landed addr n i u p).byte x ≡ u.byte x
landed-before addr n i u p x lt =
    copy-out u.byte (addr + i) p.ring (p.nread % pipesize)
      (min (chunk n i p) (u.present (addr + i))) x (λ le. absurd (omega (arith, lt, le)))

pub landed-behind :
    (addr n i : ℕ) (u : UserMem) (p : Pipe)
    → i ≤ n
    → (x : ℕ) → addr + n ≤ x
    → (landed addr n i u p).byte x ≡ u.byte x
landed-behind addr n i u p le x h =
    copy-out u.byte (addr + i) p.ring (p.nread % pipesize)
      (min (chunk n i p) (u.present (addr + i))) x (λ le'. omega (arith, le, h))

pub Taken-same :
    (addr n i : ℕ) (u v : UserMem) (p : Pipe)
    → IsPipe p
    → i ≤ n
    → ((x : ℕ) → x < addr + i → v.byte x ≡ u.byte x)
    → ((x : ℕ) → addr + n ≤ x → v.byte x ≡ u.byte x)
    → v.present ≡ u.present
    → Taken addr n i i u v p p
Taken-same addr n i u v p valid le before behind present = record {
  valid = valid;
  le = omega arith;
  le_n = le;
  bytes = ap (λ k. slice v.byte (addr + i) k ++ contents p) {x = 0} {y = i - i} (omega arith);
  before = before;
  behind = behind;
  same_present = present;
}

pub Taken-chunk :
    (addr n i : ℕ) (u : UserMem) (p : Pipe)
    → IsPipe p
    → i < n
    → (sub32 p.nwrite p.nread == 0) ≡ false
    → chunk n i p ≤ u.present (addr + i)
    → Taken addr n i
        (i + chunk n i p)
        u
        (landed addr n i u p)
        p
        (record p { nread = add32 p.nread (chunk n i p) })
Taken-chunk addr n i u p valid lt some_left all =
    let (pos, le, near, le') = chunk_lem p.nread p.nwrite n i valid.used_le lt some_left in
    let (valid', same) = contents-read p (chunk n i p) valid le near in
    let read_pos = p.nread % pipesize in
    record {
      valid = valid';
      le = omega arith;
      le_n = omega (arith, le', lt);
      bytes =
          same
          ∙ ap (λ xs. xs ++ contents (record p { nread = add32 p.nread (chunk n i p) }))
              (slice-same p.ring (landed addr n i u p).byte read_pos (addr + i) (chunk n i p)
                  (λ j h. sym (
                    copy-in u.byte (addr + i) p.ring read_pos
                      (min (chunk n i p) (u.present (addr + i))) j (omega (arith, h, all))))
                ∙ ap (slice (landed addr n i u p).byte (addr + i)) {x = chunk n i p}
                    {y = i + chunk n i p - i} (omega arith));
      before = landed-before addr n i u p;
      behind = landed-behind addr n i u p (omega (arith, lt));
      same_present = refl;
    }
