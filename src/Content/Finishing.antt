-- ===== src/Content/Finishing.antt =====
-- `writei` as a whole, and `readi` after it.
use xv6_riscv_zig.Prelude.{
  ℕ, ◌+◌, ◌-◌, ◌*◌, ◌%◌, ◌≤◌, ◌<◌, ◌≡◌, refl, ap, ◌∙◌, sym, subst, subst₂, false, ltb, ltb→lt,
  ltb-false, arith, Bool-cases, inl, inr, max, Run, ok, Option, some, ◌||◌, update, update_self,
  le→ltb_false,
}
use xv6_riscv_zig.Pipe.{UserMem}
use xv6_riscv_zig.Pipe.Ring.{copy-in}
use xv6_riscv_zig.Blocks.Logging.{Logs, Logs-trans}
use xv6_riscv_zig.Content.Logging.{iupdate-Logs, writei_loop-Logs}
use xv6_riscv_zig.Blocks.{bsize, Superblock, Dinode, Disk}
use xv6_riscv_zig.Content.{maxfile, end_write, writei, add32, iupdate, iblock, ipb, Copied, readi}
use xv6_riscv_zig.Content.Slots.{content, IsFile}
use xv6_riscv_zig.Content.Reading.{AllPresent, readi_lem}
use xv6_riscv_zig.Content.Writing.{WritesTo, writei_loop-WritesTo}

-- What `writei` leaves: the bytes are written, the file is as long as before or as far as was written,
-- the inode on the disk is the one in memory, and each block that was changed was given to `log_write`.
pub record Wrote (sb : Superblock) (inum : ℕ) (ip : Dinode) (d : Disk) (f : ℕ → ℕ) (src off n : ℕ)
    (ip' : Dinode) (d' : Disk) (t : ℕ) : Type 0 where
  pub writes : WritesTo sb ip d f src off n (record ip' { size = ip.size }) d' t
  pub size : ip'.size ≡ max ip.size (off + t)
  pub on_disk : d'.dinodes (iblock inum sb) (inum % ipb) ≡ ip'
  pub logs : Logs d d'

finish :
    (sb : Superblock) (inum : ℕ) (ip ip' : Dinode) (d d' : Disk) (f : ℕ → ℕ) (src off n t s : ℕ)
    → WritesTo sb ip d f src off n ip' d' t
    → s ≡ max ip.size (off + t)
    → Logs d d'
    → Wrote sb inum ip d f src off n
        (record ip' { size = s })
        (iupdate sb inum (record ip' { size = s }) d')
        t
unfolding iupdate
finish sb inum ip ip' d d' f src off n t s w e logs = record {
  writes = record {
    within = w.within;
    complete = w.complete;
    file = record {
      meta = w.file.meta;
      inside = w.file.inside;
      beyond = w.file.beyond;
      used = w.file.used;
      distinct = w.file.distinct;
    };
    bytes = w.bytes;
    mapped = w.mapped;
    kept = w.kept;
    size = refl;
  };
  size = e;
  on_disk =
      ap (λ g. g (inum % ipb))
        (update_self d'.dinodes (iblock inum sb)
          (update (d'.dinodes (iblock inum sb)) (inum % ipb) (record ip' { size = s })))
      ∙ update_self (d'.dinodes (iblock inum sb)) (inum % ipb) (record ip' { size = s });
  logs =
      Logs-trans d d' (iupdate sb inum (record ip' { size = s }) d') logs
        (iupdate-Logs sb inum (record ip' { size = s }) d');
}

-- Let the blocks of a file be its own, the caller's memory be there, `off` be at most the file's size,
-- and `log_write` not panic. A `writei` of `n` bytes that fit into the largest file does not panic or fail: from `off` on
-- the file has the caller's bytes, all `n` of them or, only where no block is free, fewer, and its
-- other bytes are as they were. The file grows where it was shorter, its inode is in its block, and it
-- is a file still. Each block that was changed was given to `log_write`.
pub writei_lem :
    (sb : Superblock) (inum : ℕ) (ip : Dinode) (d : Disk) (u : UserMem) (src off n : ℕ)
    → IsFile sb ip d
    → AllPresent u
    → off ≤ ip.size
    → off + n ≤ maxfile * bsize
    → (ip' : Dinode) × (d' : Disk) × (t : ℕ) × (writei sb inum ip d u src off n
        ≡ ok (ip', d', some t))
      × Wrote sb inum ip d u.byte src off n ip' d' t
unfolding writei end_write
writei_lem sb inum ip d u src off n file there le inside =
    let (ip1, d1, t, ran, w) =
      writei_loop-WritesTo sb n n 0 off src ip d u file there (omega arith) (omega arith)
        (omega (arith, inside)) in
    let logs = writei_loop-Logs sb n n 0 off src ip d u (ip1, d1, 0 + t, off + t) there ran in
    let ran' = ran ∙ ap (λ a. ok (ip1, d1, a, off + t)) {x = 0 + t} {y = t} (omega arith) in
    let w1 : WritesTo sb ip d u.byte src off n ip1 d1 t =
      subst (λ m. WritesTo sb ip d u.byte src off m ip1 d1 t) {x = n - 0} {y = n} (omega arith) w in
    elim (Bool-cases (ltb ip1.size (off + t))) [
      | inl longer ↦ (
        record ip1 { size = off + t },
        iupdate sb inum (record ip1 { size = off + t }) d1,
        t,
        rw (not_guarded, fits, ran', longer) refl,
        finish sb inum ip ip1 d d1 u.byte src off n t (off + t) w1
            (omega (arith, ltb→lt ip1.size (off + t) longer, w.size)) logs,
      )
      | inr same ↦ (
        ip1,
        iupdate sb inum ip1 d1,
        t,
        rw (not_guarded, fits, ran', same) refl,
        finish sb inum ip ip1 d d1 u.byte src off n t ip1.size w1
            (omega (arith, ltb-false ip1.size (off + t) same, w.size)) logs,
      )
    ]
  where
    not_guarded : (ltb ip.size off || ltb (add32 off n) off) ≡ false
    not_guarded = ground arith

    fits : ltb (maxfile * bsize) (off + n) ≡ false
    fits = le→ltb_false (maxfile * bsize) (off + n) inside

-- `readi` of `n` bytes from `off` on returns `n`, and has at `dst` what `u` has at `src`.
abbrev pub ReadsBack : Superblock → UserMem → UserMem → ℕ → ℕ → ℕ → ℕ → Dinode → Disk → Type 0
ReadsBack sb u v src dst off n ip d =
    (res : Copied) × (readi sb ip d v dst off n ≡ ok res)
    × (res.tot ≡ some n)
    × ((j : ℕ) → j < n → res.mem.byte (dst + j) ≡ u.byte (src + j))

reads_back :
    (sb : Superblock) (inum : ℕ) (ip : Dinode) (d : Disk) (u v : UserMem) (src dst off n : ℕ)
    (ip' : Dinode) (d' : Disk)
    → AllPresent v
    → ip.size ≤ maxfile * bsize
    → off + n ≤ maxfile * bsize
    → Wrote sb inum ip d u.byte src off n ip' d' n
    → ReadsBack sb u v src dst off n ip' d'
reads_back sb inum ip d u v src dst off n ip' d' there fits inside w =
    let (res, t, ran, total, r) =
      readi_lem sb ip' d' v dst off n file there (omega (arith, w.size, fits, inside))
        (omega (arith, w.size)) (omega (arith, inside)) in
    let all : t ≡ n = elim (Bool-cases (ltb t n)) [
      | inl short ↦ elim r.complete [
        | inl e ↦ omega (arith, e, w.size)
        | inr (full, empty) ↦
            absurd (w.writes.mapped (off + t) (omega arith) (omega (arith, ltb→lt t n short)) empty)
      ]
      | inr enough ↦ omega (arith, r.within, ltb-false t n enough)
    ] in
    (
      res,
      ran,
      total ∙ ap some all,
      λ j lt.
          r.memory (dst + j)
          ∙ copy-in v.byte dst (content ip' d') off t j (omega (arith, all, lt))
          ∙ w.writes.bytes (off + j) (omega (arith, inside, lt))
          ∙ copy-in (content ip d) off u.byte src n j lt,
    )
  where
    file : IsFile sb ip' d'
    file = record {
      meta = w.writes.file.meta;
      inside = w.writes.file.inside;
      beyond = w.writes.file.beyond;
      used = w.writes.file.used;
      distinct = w.writes.file.distinct;
    }

-- Under the same conditions, let the file's size fit and `writei` return `n`. Then `readi` of the same
-- range returns `n` too, into any memory that is there, and has at `dst` the bytes that were written.
pub readi-writei :
    (sb : Superblock) (inum : ℕ) (ip : Dinode) (d : Disk) (u v : UserMem) (src dst off n : ℕ)
    (ip' : Dinode) (d' : Disk)
    → IsFile sb ip d
    → AllPresent u
    → AllPresent v
    → ip.size ≤ maxfile * bsize
    → off ≤ ip.size
    → off + n ≤ maxfile * bsize
    → writei sb inum ip d u src off n ≡ ok (ip', d', some n)
    → ReadsBack sb u v src dst off n ip' d'
readi-writei sb inum ip d u v src dst off n ip' d' file there there' fits le inside wrote =
    let (ip1, d1, t, ran, w) = writei_lem sb inum ip d u src off n file there le inside in
    let same : ◌≡◌ {A = Run (Dinode × Disk × Option ℕ)} (ok (ip1, d1, some t))
        (ok (ip', d', some n)) =
      sym ran ∙ wrote in
    let inode : ip1 ≡ ip' = cc same in
    let disk : d1 ≡ d' = cc same in
    subst₂ (ReadsBack sb u v src dst off n) inode disk (
      reads_back sb inum ip d u v src dst off n ip1 d1 there' fits inside
        (subst (Wrote sb inum ip d u.byte src off n ip1 d1) {x = t} {y = n} (cc same) w))
