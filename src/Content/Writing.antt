-- ===== src/Content/Writing.antt =====
-- What `writei` does to a file.
use xv6_riscv_zig.Prelude.{
  ℕ, zero, suc, ◌+◌, ◌-◌, ◌*◌, ◌/◌, ◌%◌, ◌≤◌, ◌<◌, ◌≡◌, ◌≢◌, ◌⊎◌, ap, ap₂, ◌∙◌, sym, subst, ltb,
  ltb→lt, ltb-false, ==_iff, ne→==_false, arith, Bool-cases, inl, inr, min, Run, ok,
}
use xv6_riscv_zig.Pipe.{UserMem, copy}
use xv6_riscv_zig.Pipe.Memory.{copy-zero, copy-copy, copy-under, copyin-all}
use xv6_riscv_zig.Blocks.{bsize, Superblock, Dinode, Disk}
use xv6_riscv_zig.Content.{maxfile, writei_loop}
use xv6_riscv_zig.Content.Slots.{slot, content, IsFile}
use xv6_riscv_zig.Content.Extending.{IsFull, Extended, Extended-refl}
use xv6_riscv_zig.Content.Mapping.{bmap-Mapped}
use xv6_riscv_zig.Content.Overwriting.{overwrite, overwrite-IsFile, overwrite-content}
use xv6_riscv_zig.Content.Reading.{AllPresent}

-- `t` bytes of `f` from `src` on are the file's bytes from `off` on, and all other bytes are as they
-- were: all of the `n` given, or as many as come before a hole that has no block while the disk is
-- full. What was written has blocks.
pub record WritesTo (sb : Superblock) (ip : Dinode) (d : Disk) (f : ℕ → ℕ) (src off n : ℕ)
    (ip' : Dinode) (d' : Disk) (t : ℕ) : Type 0 where
  pub within : t ≤ n
  pub complete : (t ≡ n) ⊎ IsFull sb d'
  pub file : IsFile sb ip' d'
  pub bytes : (x : ℕ) → x < maxfile * bsize → content ip' d' x ≡ copy (content ip d) off f src t x
  pub mapped : (x : ℕ) → off ≤ x → x < off + t → slot ip' d' (x / bsize) ≢ 0
  pub kept : (m : ℕ) → m ≤ maxfile → slot ip d m ≢ 0 → slot ip' d' m ≢ 0
  pub size : ip'.size ≡ ip.size

-- Where nothing is written
WritesTo-none :
    (sb : Superblock) (ip : Dinode) (d : Disk) (f : ℕ → ℕ) (src off n : ℕ) (ip' : Dinode)
    (d' : Disk)
    → Extended sb ip d ip' d'
    → (0 ≡ n) ⊎ IsFull sb d'
    → WritesTo sb ip d f src off n ip' d' 0
WritesTo-none sb ip d f src off n ip' d' e why = record {
  within = omega arith;
  complete = why;
  file = e.file;
  bytes = λ x lt. e.bytes x lt ∙ sym (copy-zero (content ip d) f off src x);
  mapped = λ x le lt. absurd (omega (arith, le, lt));
  kept = λ m le ne z. ne (sym (e.slots m le ne) ∙ z);
  size = e.size;
}

-- A round of the loop, and those behind it
WritesTo-next :
    (sb : Superblock) (ip ip1 ip' : Dinode) (d d1 d' : Disk) (f : ℕ → ℕ) (src off addr n m t : ℕ)
    → (e : Extended sb ip d ip1 d1) → (here : slot ip1 d1 (off / bsize) ≡ addr) → (ne : addr ≢ 0)
    → (small : m ≤ bsize - off % bsize) → m ≤ n
    → (inside : off + n ≤ maxfile * bsize) → (start : off < maxfile * bsize)
    → WritesTo sb ip1
        (overwrite sb ip1 d1 off addr m f src e.file here ne small start)
        f
        (src + m)
        (off + m)
        (n - m)
        ip'
        d'
        t
    → WritesTo sb ip d f src off n ip' d' (m + t)
WritesTo-next sb ip ip1 ip' d d1 d' f src off addr n m t e here ne small fits inside start w =
    record {
      within = omega (arith, w.within, fits);
      complete = elim w.complete [ inl all ↦ inl (omega (arith, all, fits)) | inr full ↦ inr full ];
      file = w.file;
      bytes = λ x lt.
          w.bytes x lt
          ∙ copy-under (content ip1 d2) (copy (content ip d) off f src m) f (off + m) (src + m) t x
              (overwrite-content sb ip1 d1 off addr m f src e.file here ne small start x lt
                ∙ copy-under (content ip1 d1) (content ip d) f off src m x (e.bytes x lt))
          ∙ copy-copy (content ip d) f off src m t x;
      mapped = λ x le lt. elim (Bool-cases (ltb x (off + m))) [
        | inl now ↦
            let at : x / bsize ≡ off / bsize = omega (arith, le, ltb→lt x (off + m) now, small) in
            w.kept (x / bsize) (omega (arith, at, start))
              (λ z. ne (sym here ∙ ap (slot ip1 d1) (sym at) ∙ z))
        | inr later ↦ w.mapped x (ltb-false x (off + m) later) (omega (arith, lt))
      ];
      kept = λ k le some_block. w.kept k le (λ z. some_block (sym (e.slots k le some_block) ∙ z));
      size = w.size ∙ e.size;
    }
  where
    d2 : Disk
    d2 = overwrite sb ip1 d1 off addr m f src e.file here ne small start

counted :
    {r : Run (Dinode × Disk × ℕ × ℕ)} {a a' b b' : ℕ} (ip : Dinode) (d : Disk)
    → r ≡ ok (ip, d, a, b)
    → a ≡ a'
    → b ≡ b'
    → r ≡ ok (ip, d, a', b')
counted ip d ran p q = ran ∙ ap₂ (λ a b. ok (ip, d, a, b)) p q

pub writei_loop-WritesTo :
    (sb : Superblock) (k n tot off src : ℕ) (ip : Dinode) (d : Disk) (u : UserMem)
    → IsFile sb ip d
    → AllPresent u
    → tot ≤ n
    → n - tot ≤ k
    → off + (n - tot) ≤ maxfile * bsize
    → (ip' : Dinode) × (d' : Disk) × (t : ℕ) × (writei_loop sb k n tot off src ip d u
        ≡ ok (ip', d', tot + t, off + t))
      × WritesTo sb ip d u.byte src off (n - tot) ip' d' t
unfolding writei_loop
writei_loop-WritesTo sb zero n tot off src ip d u file there le enough inside = (
  ip,
  d,
  0,
  ap₂ (λ a b. ok (ip, d, a, b)) (omega arith) (omega arith),
  WritesTo-none sb ip d u.byte src off (n - tot) ip d (Extended-refl sb ip d file)
      (inl (omega (arith, enough))),
)
writei_loop-WritesTo sb (suc k) n tot off src ip d u file there le enough inside =
    elim (Bool-cases (ltb tot n)) [
      | inr past ↦ (
        ip,
        d,
        0,
        rw past (ap₂ (λ a b. ok (ip, d, a, b)) (omega arith) (omega arith)),
        WritesTo-none sb ip d u.byte src off (n - tot) ip d (Extended-refl sb ip d file)
            (inl (omega (arith, le, ltb-false tot n past))),
      )
      | inl more ↦
          let lt = ltb→lt tot n more in
          let (ip1, d1, addr, run, mapped) =
            bmap-Mapped sb ip d (off / bsize) file (omega (arith, lt, inside)) in
          elim mapped.found [
            | inl (null, full, empty) ↦ (
              ip1,
              d1,
              0,
              rw (more, run, (==_iff addr 0).1 null)
                  (ap₂ (λ a b. ok (ip1, d1, a, b)) (omega arith) (omega arith)),
              WritesTo-none sb ip d u.byte src off (n - tot) ip1 d1 mapped.extended (inr full),
            )
            | inr (ne, here) ↦
                let m : ℕ = min (n - tot) (bsize - off % bsize) in
                let start : off < maxfile * bsize = omega (arith, lt, inside) in
                let small : m ≤ bsize - off % bsize = omega arith in
                let d2 =
                  overwrite sb ip1 d1 off addr m u.byte src mapped.extended.file here ne small
                    start in
                let (ip', d', t, ran, w) =
                  writei_loop-WritesTo sb k n (tot + m) (off + m) (src + m) ip1 d2 u
                    (overwrite-IsFile sb ip1 d1 off addr m u.byte src mapped.extended.file here ne
                      small start)
                    there (omega (arith, lt)) (omega (arith, lt, enough))
                    (omega (arith, lt, inside)) in
                (
                  ip',
                  d',
                  m + t,
                  rw
                      (
                        more,
                        run,
                        ne→==_false addr 0 ne,
                        copyin-all (d1.bytes addr) (off % bsize) u src m
                            (fits_in m src (omega arith)),
                      )
                      (counted {a = tot + m + t} {a' = tot + (m + t)} {b = off + m + t}
                        {b' = off + (m + t)} ip' d' ran (omega arith) (omega arith)),
                  WritesTo-next sb ip ip1 ip' d d1 d' u.byte src off addr (n - tot) m t
                      mapped.extended here ne small (omega arith) inside start
                      (subst (λ left. WritesTo sb ip1 d2 u.byte (src + m) (off + m) left ip' d' t)
                        (omega arith) w),
                )
          ]
    ]
  where
    fits_in : (m q : ℕ) → m ≤ bsize → m ≤ u.present q
    fits_in m q small = omega (arith, small, there q)
