-- ===== src/Content/Reading.antt =====
-- What `readi` returns of a file.
use xv6_riscv_zig.Prelude.{
  ℕ, zero, suc, ◌+◌, ◌-◌, ◌*◌, ◌/◌, ◌%◌, ◌^◌, ◌≤◌, ◌<◌, ◌≡◌, ◌≢◌, ◌⊎◌, refl, fun_ext, ap, ap₂, ◌∙◌,
  sym, subst, false, ltb, ltb→lt, ltb-false, ◌==◌, ==_iff, ne→==_false, if◌then◌else◌, arith,
  Bool-cases, inl, inr, min, ok, some, ◌||◌,
}
use xv6_riscv_zig.Pipe.{UserMem, copy}
use xv6_riscv_zig.Pipe.Memory.{copy-zero, copy-copy, copy-same, copyout-all}
use xv6_riscv_zig.Blocks.{bsize, Superblock, Dinode, Disk}
use xv6_riscv_zig.Content.{maxfile, Copied, readi_loop, readi, add32}
use xv6_riscv_zig.Content.Slots.{slot, content, IsFile}
use xv6_riscv_zig.Content.Extending.{
  IsFull, Extended, Extended-refl, Extended-trans, Extended-empty,
}
use xv6_riscv_zig.Content.Mapping.{bmap-Mapped}

-- All of the memory is there.
abbrev pub AllPresent : UserMem → Type 0
AllPresent u = (q : ℕ) → bsize ≤ u.present q

-- `t` of the file's bytes from `off` on are at `dst`, and nothing else has changed: all of the `n`
-- asked for, or as many as come before a hole that has no block while the disk is full.
pub record ReadsTo (sb : Superblock) (ip : Dinode) (d : Disk) (u : UserMem) (dst off n : ℕ)
    (res : Copied) (t : ℕ) : Type 0 where
  pub within : t ≤ n
  pub complete : (t ≡ n) ⊎ (IsFull sb res.disk × (slot ip d ((off + t) / bsize) ≡ 0))
  pub extended : Extended sb ip d res.ip res.disk
  pub memory : (q : ℕ) → res.mem.byte q ≡ copy u.byte dst (content ip d) off t q

-- The bytes of a block that the file has
block_content :
    (ip : Dinode) (d : Disk) (off addr j m : ℕ)
    → slot ip d (off / bsize) ≡ addr
    → addr ≢ 0
    → m ≤ bsize - off % bsize
    → j < m
    → d.bytes addr (off % bsize + j) ≡ content ip d (off + j)
block_content ip d off addr j m here ne small lt =
    ap₂ (λ a i. d.bytes a i) (sym here) (omega (arith, small, lt))
    ∙ sym (
        ap (λ t. if t then 0 else d.bytes (slot ip d (off / bsize)) ((off + j) % bsize))
          (ne→==_false (slot ip d (off / bsize)) 0 (λ e. ne (sym here ∙ e))))
    ∙ ap (λ b. if slot ip d b == 0 then 0 else d.bytes (slot ip d b) ((off + j) % bsize))
        {x = off / bsize} {y = (off + j) / bsize} (omega (arith, small, lt))

-- A round of the loop, and those behind it
ReadsTo-next :
    {sb : Superblock} {ip ip1 : Dinode} {d d1 : Disk} {u : UserMem} {dst off addr n m : ℕ}
    {res : Copied} {t : ℕ}
    → Extended sb ip d ip1 d1
    → slot ip1 d1 (off / bsize) ≡ addr
    → addr ≢ 0
    → m ≤ bsize - off % bsize
    → m ≤ n
    → off + n ≤ maxfile * bsize
    → ReadsTo sb ip1 d1
        (record u { byte = copy u.byte dst (d1.bytes addr) (off % bsize) m })
        (dst + m)
        (off + m)
        (n - m)
        res
        t
    → ReadsTo sb ip d u dst off n res (m + t)
ReadsTo-next {ip} {ip1} {d} {d1} {u} {dst} {off} {addr} {n} {m} {res} {t} e here ne small fits
      inside r =
    record {
      within = omega (arith, r.within, fits);
      complete = elim r.complete [
        | inl all ↦ inl (omega (arith, all, fits))
        | inr (full, empty) ↦ inr (
          full,
          Extended-empty {m = (off + (m + t)) / bsize} e (omega (arith, inside, r.within, fits)) (
              ap (λ x. slot ip1 d1 (x / bsize)) {x = off + (m + t)} {y = off + m + t} (omega arith)
              ∙ empty),
        )
      ];
      extended = Extended-trans e r.extended;
      memory = λ q.
          r.memory q
          ∙ ap (λ f. copy f (dst + m) (content ip1 d1) (off + m) t q)
              (fun_ext (λ p.
                copy-same u.byte (d1.bytes addr) (content ip1 d1) dst (off % bsize) off m p
                  (λ j lt. block_content ip1 d1 off addr j m here ne small lt)))
          ∙ copy-copy u.byte (content ip1 d1) dst off m t q
          ∙ copy-same u.byte (content ip1 d1) (content ip d) dst off off (m + t) q
              (λ j lt. e.bytes (off + j) (omega (arith, lt, r.within, fits, inside)));
    }

readi_loop-ReadsTo :
    (sb : Superblock) (k n tot off dst : ℕ) (ip : Dinode) (d : Disk) (u : UserMem)
    → IsFile sb ip d
    → AllPresent u
    → tot ≤ n
    → n - tot ≤ k
    → off + (n - tot) ≤ maxfile * bsize
    → (res : Copied) × (t : ℕ) × (readi_loop sb k n tot off dst ip d u ≡ ok res)
      × (res.tot ≡ some (tot + t))
      × ReadsTo sb ip d u dst off (n - tot) res t
unfolding readi_loop
readi_loop-ReadsTo sb zero n tot off dst ip d u file there le enough inside = (
  record { ip = ip; disk = d; mem = u; tot = some tot },
  0,
  refl,
  ap some (omega arith),
  record {
    within = omega arith;
    complete = inl (omega (arith, enough));
    extended = Extended-refl sb ip d file;
    memory = λ q. sym (copy-zero u.byte (content ip d) dst off q);
  },
)
readi_loop-ReadsTo sb (suc k) n tot off dst ip d u file there le enough inside =
    elim (Bool-cases (ltb tot n)) [
      | inr past ↦ (
        record { ip = ip; disk = d; mem = u; tot = some tot },
        0,
        rw past refl,
        ap some (omega arith),
        record {
          within = omega arith;
          complete = inl (omega (arith, le, ltb-false tot n past));
          extended = Extended-refl sb ip d file;
          memory = λ q. sym (copy-zero u.byte (content ip d) dst off q);
        },
      )
      | inl more ↦
          let lt = ltb→lt tot n more in
          let (ip1, d1, addr, run, mapped) =
            bmap-Mapped sb ip d (off / bsize) file (omega (arith, lt, inside)) in
          elim mapped.found [
            | inl (null, full, empty) ↦ (
              record { ip = ip1; disk = d1; mem = u; tot = some tot },
              0,
              rw (more, run, (==_iff addr 0).1 null) refl,
              ap some (omega arith),
              record {
                within = omega arith;
                complete = inr (
                  full,
                  ap (λ x. slot ip d (x / bsize)) {x = off + 0} {y = off} (omega arith) ∙ empty,
                );
                extended = mapped.extended;
                memory = λ q. sym (copy-zero u.byte (content ip d) dst off q);
              },
            )
            | inr (ne, here) ↦
                let m : ℕ = min (n - tot) (bsize - off % bsize) in
                let u1 : UserMem = record u {
                  byte = copy u.byte dst (d1.bytes addr) (off % bsize) m;
                } in
                let (res, t, ran, total, reads) =
                  readi_loop-ReadsTo sb k n (tot + m) (off + m) (dst + m) ip1 d1 u1
                    mapped.extended.file there (omega (arith, lt)) (omega (arith, lt, enough))
                    (omega (arith, lt, inside)) in
                (
                  res,
                  m + t,
                  rw
                      (
                        more,
                        run,
                        ne→==_false addr 0 ne,
                        copyout-all u dst (d1.bytes addr) (off % bsize) m
                            (fits_in m dst (omega arith)),
                      )
                      ran,
                  total ∙ ap some (omega arith),
                  ReadsTo-next mapped.extended here ne (omega arith) (omega arith) inside (
                      subst (λ left. ReadsTo sb ip1 d1 u1 (dst + m) (off + m) left res t)
                        (omega arith) reads),
                )
          ]
    ]
  where
    fits_in : (m q : ℕ) → m ≤ bsize → m ≤ u.present q
    fits_in m q small = omega (arith, small, there q)

-- Let the blocks of a file be its own, its size fit, the caller's memory be there, `off + n` be below
-- 2^32, and `log_write` not panic. A `readi` from `off` on, up to the end of the file, does not panic or fail: it copies the file's bytes to `dst`,
-- `n` of them or all up to the file's end, and nothing else. It stops earlier only before a block that
-- the file does not have while none is free. The file keeps its bytes, and is one still.
pub readi_lem :
    (sb : Superblock) (ip : Dinode) (d : Disk) (u : UserMem) (dst off n : ℕ)
    → IsFile sb ip d
    → AllPresent u
    → ip.size ≤ maxfile * bsize
    → off ≤ ip.size
    → off + n < 2 ^ 32
    → (res : Copied) × (t : ℕ) × (readi sb ip d u dst off n ≡ ok res)
      × (res.tot ≡ some t)
      × ReadsTo sb ip d u dst off (min n (ip.size - off)) res t
unfolding readi
readi_lem sb ip d u dst off n file there fits le small = elim (Bool-cases (ltb ip.size (off + n))) [
  | inl cut ↦
      rw (not_guarded, cut)
        (reads (ip.size - off) (omega (arith, ltb→lt ip.size (off + n) cut))
          (omega (arith, le, fits)))
  | inr whole ↦
      rw (not_guarded, whole)
        (reads n (omega (arith, ltb-false ip.size (off + n) whole, le))
          (omega (arith, ltb-false ip.size (off + n) whole, fits)))
]
  where
    not_guarded : (ltb ip.size off || ltb (add32 off n) off) ≡ false
    not_guarded = ground arith

    reads :
        (n' : ℕ)
        → n' ≡ min n (ip.size - off)
        → off + n' ≤ maxfile * bsize
        → (res : Copied) × (t : ℕ) × (readi_loop sb n' n' 0 off dst ip d u ≡ ok res)
          × (res.tot ≡ some t)
          × ReadsTo sb ip d u dst off (min n (ip.size - off)) res t
    reads n' e inside =
        let (res, t, ran, total, r) =
          readi_loop-ReadsTo sb n' n' 0 off dst ip d u file there (omega arith) (omega arith)
            (omega (arith, inside)) in
        (
          res,
          t,
          ran,
          total ∙ ap some (omega arith),
          subst (λ m. ReadsTo sb ip d u dst off m res t) {x = n' - 0} {y = min n (ip.size - off)}
              (omega (arith, e)) r,
        )
