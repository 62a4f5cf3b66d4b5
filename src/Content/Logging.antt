-- ===== src/Content/Logging.antt =====
-- Each block that `writei` or `itrunc` changes is given to `log_write`.
use xv6_riscv_zig.Prelude.{
  ℕ, zero, suc, ◌+◌, ◌-◌, ◌*◌, ◌/◌, ◌%◌, ◌≡◌, refl, ap, sym, subst, true, Option, none, ◌||◌, ltb,
  ◌==◌, if◌then◌else◌, min, update, update_ne, Run, ok, panic, arith, Bool-cases, inl, inr, ◌>>=◌,
}
use xv6_riscv_zig.Pipe.{UserMem, copyin}
use xv6_riscv_zig.Pipe.Memory.{copyin-all}
use xv6_riscv_zig.Blocks.{bsize, Superblock, Dinode, Disk, mark_logged, put_word, balloc, bfree}
use xv6_riscv_zig.Blocks.Logging.{Logs, Logs-refl, Logs-trans, Logs-change, balloc-Logs, bfree-Logs}
use xv6_riscv_zig.Content.{
  ndirect, nindirect, put_dinode, iblock, ipb, iupdate, addr_block, entry_block, bmap_indirect,
  bmap, free_direct, free_entries, free_indirect, writei_loop, end_write, writei, maxfile, add32,
}
use xv6_riscv_zig.Content.Reading.{AllPresent}

pub iupdate-Logs :
    (sb : Superblock) (inum : ℕ) (ip : Dinode) (d : Disk) → Logs d (iupdate sb inum ip d)
unfolding iupdate
iupdate-Logs sb inum ip d =
    Logs-change d (put_dinode (iblock inum sb) (inum % ipb) ip d) (iblock inum sb) refl
      (λ c ne. (refl, refl, update_ne d.dinodes (iblock inum sb) c _ (λ e. ne (sym e))))

addr_block-Logs :
    (sb : Superblock) (i : ℕ) (ip : Dinode) (d : Disk) → Logs d (addr_block sb i ip d).1
unfolding addr_block
addr_block-Logs sb i ip d = elim (Bool-cases (ip.addrs i == 0)) [
  | inl hole ↦ elim (Bool-cases ((balloc sb d).1 == 0)) [
    | inl full ↦ rw (hole, full) (balloc-Logs sb d)
    | inr got ↦ rw (hole, got) (balloc-Logs sb d)
  ]
  | inr there ↦ rw there (Logs-refl d)
]

entry_block-Logs : (sb : Superblock) (ind bn : ℕ) (d : Disk) → Logs d (entry_block sb ind bn d).0
unfolding entry_block
entry_block-Logs sb ind bn d = elim (Bool-cases (d.words ind bn == 0)) [
  | inl hole ↦ elim (Bool-cases ((balloc sb d).1 == 0)) [
    | inl full ↦ rw (hole, full) (balloc-Logs sb d)
    | inr got ↦
        let t = (balloc sb d).0 in
        let put : Disk = put_word ind bn (balloc sb d).1 t in
        rw (hole, got)
          (Logs-trans d t (mark_logged ind put) (balloc-Logs sb d) (
            Logs-change t put ind refl
              (λ c ne. (refl, update_ne t.words ind c _ (λ e. ne (sym e)), refl))))
  ]
  | inr there ↦ rw there (Logs-refl d)
]

bmap_indirect-Logs :
    (sb : Superblock) (ip : Dinode) (bn : ℕ) (d : Disk) → Logs d (bmap_indirect sb ip bn d).1
unfolding bmap_indirect
bmap_indirect-Logs sb ip bn d =
    let (ip1, d1, ind) = addr_block sb ndirect ip d in
    elim (Bool-cases ((addr_block sb ndirect ip d).2 == 0)) [
      | inl none_free ↦ rw none_free (addr_block-Logs sb ndirect ip d)
      | inr block ↦ rw block (
          Logs-trans d d1 (entry_block sb ind bn d1).0 (addr_block-Logs sb ndirect ip d)
            (entry_block-Logs sb ind bn d1))
    ]

bmap-Logs :
    (sb : Superblock) (ip : Dinode) (bn : ℕ) (d : Disk) (r : Dinode × Disk × ℕ)
    → bmap sb ip bn d ≡ ok r
    → Logs d r.1
unfolding bmap
bmap-Logs sb ip bn d r run = elim (Bool-cases (ltb bn ndirect)) [
  | inl direct ↦
      let now : addr_block sb bn ip d ≡ r = cc (rw (direct, bmap) at run) in
      subst (λ q. Logs d q.1) now (addr_block-Logs sb bn ip d)
  | inr far ↦ elim (Bool-cases (ltb (bn - ndirect) nindirect)) [
    | inl near ↦
        let now : bmap_indirect sb ip (bn - ndirect) d ≡ r = cc (rw (far, near, bmap) at run) in
        subst (λ q. Logs d q.1) now (bmap_indirect-Logs sb ip (bn - ndirect) d)
    | inr out ↦ cc (rw (far, out, bmap) at run)
  ]
]

pub writei_loop-Logs :
    (sb : Superblock) (k n tot off src : ℕ) (ip : Dinode) (d : Disk) (u : UserMem)
    (r : Dinode × Disk × ℕ × ℕ)
    → AllPresent u
    → writei_loop sb k n tot off src ip d u ≡ ok r
    → Logs d r.1
unfolding writei_loop
writei_loop-Logs sb zero n tot off src ip d u r there run =
    let now : (ip, d, tot, off) ≡ r = cc run in subst (λ q. Logs d q.1) now (Logs-refl d)
writei_loop-Logs sb (suc k) n tot off src ip d u r there run = elim (Bool-cases (ltb tot n)) [
  | inr done ↦
      let now : (ip, d, tot, off) ≡ r = cc (rw (done, writei_loop) at run) in
      subst (λ q. Logs d q.1) now (Logs-refl d)
  | inl more ↦
      round (bmap sb ip (off / bsize) d) (bmap-Logs sb ip (off / bsize) d)
        (λ ip1 e ran. writei_loop-Logs sb k n (tot + m) (off + m) (src + m) ip1 e u r there ran)
        (rw (more, writei_loop) at run)
]
  where
    m : ℕ
    m = min (n - tot) (bsize - off % bsize)

    put : Disk → ℕ → Disk
    put d1 addr = record d1 {
      bytes = update d1.bytes addr (copyin (d1.bytes addr) (off % bsize) u src m).0;
    }

    round :
        (b : Run (Dinode × Disk × ℕ))
        → ((q : Dinode × Disk × ℕ) → b ≡ ok q → Logs d q.1)
        → ((ip1 : Dinode) (e : Disk)
            → writei_loop sb k n (tot + m) (off + m) (src + m) ip1 e u ≡ ok r
            → Logs e r.1)
        → ◌>>=◌ {B = Dinode × Disk × ℕ × ℕ} b (λ q.
          if q.2 == 0
          then ok (q.0, q.1, tot, off)
          else (if (copyin (q.1.bytes q.2) (off % bsize) u src m).1
              then writei_loop sb k n
                  (tot + m)
                  (off + m)
                  (src + m)
                  q.0
                  (mark_logged q.2 (put q.1 q.2))
                  u
              else ok (q.0, put q.1 q.2, tot, off)))
          ≡ ok r
        → Logs d r.1
    round (panic text) logs later ran = cc ran
    round (ok (ip1, d1, addr)) logs later ran =
        let first = logs (ip1, d1, addr) refl in
        elim (Bool-cases (addr == 0)) [
          | inl full ↦
              let now : (ip1, d1, tot, off) ≡ r = cc (rw full at ran) in
              subst (λ q. Logs d q.1) now first
          | inr block ↦
              let copied : (copyin (d1.bytes addr) (off % bsize) u src m).1 ≡ true =
                ap (λ x. x.1)
                  (copyin-all (d1.bytes addr) (off % bsize) u src m (omega (arith, there src))) in
              Logs-trans d (mark_logged addr (put d1 addr)) r.1
                (Logs-trans d d1 (mark_logged addr (put d1 addr)) first (
                  Logs-change d1 (put d1 addr) addr refl
                    (λ c ne. (update_ne d1.bytes addr c _ (λ e. ne (sym e)), refl, refl))))
                (later ip1 (mark_logged addr (put d1 addr)) (rw (block, copied) at ran))
        ]

pub writei-Logs :
    (sb : Superblock) (inum : ℕ) (ip : Dinode) (d : Disk) (u : UserMem) (src off n : ℕ)
    (r : Dinode × Disk × Option ℕ)
    → AllPresent u
    → writei sb inum ip d u src off n ≡ ok r
    → Logs d r.1
unfolding writei end_write
writei-Logs sb inum ip d u src off n r there run =
    elim (Bool-cases (ltb ip.size off || ltb (add32 off n) off)) [
      | inl bad ↦
          let now : (ip, d, none) ≡ r = cc (rw (bad, writei) at run) in
          subst (λ q. Logs d q.1) now (Logs-refl d)
      | inr good ↦ elim (Bool-cases (ltb (maxfile * bsize) (off + n))) [
        | inl large ↦
            let now : (ip, d, none) ≡ r = cc (rw (good, large, writei) at run) in
            subst (λ q. Logs d q.1) now (Logs-refl d)
        | inr fits ↦
            written (writei_loop sb n n 0 off src ip d u)
              (λ q e. writei_loop-Logs sb n n 0 off src ip d u q there e)
              (rw (good, fits, writei) at run)
      ]
    ]
  where
    written :
        (l : Run (Dinode × Disk × ℕ × ℕ))
        → ((q : Dinode × Disk × ℕ × ℕ) → l ≡ ok q → Logs d q.1)
        → ◌>>=◌ {B = Dinode × Disk × Option ℕ} l (λ q. ok (end_write sb inum q)) ≡ ok r
        → Logs d r.1
    written (panic text) logs ran = cc ran
    written (ok (ip1, d1, tot, to)) logs ran =
        let now : end_write sb inum (ip1, d1, tot, to) ≡ r = cc ran in
        subst (λ q. Logs d q.1) now
          (Logs-trans d d1 (end_write sb inum (ip1, d1, tot, to)).1 (logs (ip1, d1, tot, to) refl)
            (iupdate-Logs sb inum _ d1))

free_direct-Logs :
    (sb : Superblock) (i k : ℕ) (ip : Dinode) (d : Disk) (r : Dinode × Disk)
    → free_direct sb i k ip d ≡ ok r
    → Logs d r.1
unfolding free_direct
free_direct-Logs sb i zero ip d r run =
    let now : (ip, d) ≡ r = cc run in subst (λ q. Logs d q.1) now (Logs-refl d)
free_direct-Logs sb i (suc k) ip d r run = elim (Bool-cases (ip.addrs i == 0)) [
  | inl hole ↦ free_direct-Logs sb (i + 1) k ip d r (rw (hole, free_direct) at run)
  | inr block ↦
      freed (bfree sb (ip.addrs i) d) (bfree-Logs sb (ip.addrs i) d)
        (λ t ran. free_direct-Logs sb (i + 1) k (record ip { addrs = update ip.addrs i 0 }) t r ran)
        (rw (block, free_direct) at run)
]
  where
    freed :
        (b : Run Disk)
        → ((t : Disk) → b ≡ ok t → Logs d t)
        → ((t : Disk)
            → free_direct sb (i + 1) k (record ip { addrs = update ip.addrs i 0 }) t ≡ ok r
            → Logs t r.1)
        → (b >>= λ t. free_direct sb (i + 1) k (record ip { addrs = update ip.addrs i 0 }) t) ≡ ok r
        → Logs d r.1
    freed (panic text) logs later ran = cc ran
    freed (ok t) logs later ran = Logs-trans d t r.1 (logs t refl) (later t ran)

free_entries-Logs :
    (sb : Superblock) (a : ℕ → ℕ) (j k : ℕ) (d r : Disk) → free_entries sb a j k d ≡ ok r → Logs d r
unfolding free_entries
free_entries-Logs sb a j zero d r run = let now : d ≡ r = cc run in subst (Logs d) now (Logs-refl d)
free_entries-Logs sb a j (suc k) d r run = elim (Bool-cases (a j == 0)) [
  | inl hole ↦ free_entries-Logs sb a (j + 1) k d r (rw (hole, free_entries) at run)
  | inr block ↦
      freed (bfree sb (a j) d) (bfree-Logs sb (a j) d)
        (λ t ran. free_entries-Logs sb a (j + 1) k t r ran) (rw (block, free_entries) at run)
]
  where
    freed :
        (b : Run Disk)
        → ((t : Disk) → b ≡ ok t → Logs d t)
        → ((t : Disk) → free_entries sb a (j + 1) k t ≡ ok r → Logs t r)
        → (b >>= λ t. free_entries sb a (j + 1) k t) ≡ ok r
        → Logs d r
    freed (panic text) logs later ran = cc ran
    freed (ok t) logs later ran = Logs-trans d t r (logs t refl) (later t ran)

free_indirect-Logs :
    (sb : Superblock) (ip : Dinode) (d : Disk) (r : Dinode × Disk)
    → free_indirect sb ip d ≡ ok r
    → Logs d r.1
unfolding free_indirect
free_indirect-Logs sb ip d r run = elim (Bool-cases (ip.addrs ndirect == 0)) [
  | inl hole ↦
      let now : (ip, d) ≡ r = cc (rw (hole, free_indirect) at run) in
      subst (λ q. Logs d q.1) now (Logs-refl d)
  | inr block ↦
      entries (free_entries sb (d.words (ip.addrs ndirect)) 0 nindirect d)
        (free_entries-Logs sb (d.words (ip.addrs ndirect)) 0 nindirect d)
        (rw (block, free_indirect) at run)
]
  where
    last :
        (t : Disk) (b : Run Disk)
        → Logs d t
        → ((t' : Disk) → b ≡ ok t' → Logs t t')
        → ◌>>=◌ {B = Dinode × Disk} b
            (λ t'. ok (record ip { addrs = update ip.addrs ndirect 0 }, t'))
          ≡ ok r
        → Logs d r.1
    last t (panic text) before logs ran = cc ran
    last t (ok t') before logs ran =
        let now : (record ip { addrs = update ip.addrs ndirect 0 }, t') ≡ r = cc ran in
        subst (λ q. Logs d q.1) now (Logs-trans d t t' before (logs t' refl))

    entries :
        (b : Run Disk)
        → ((t : Disk) → b ≡ ok t → Logs d t)
        → ◌>>=◌ {B = Dinode × Disk} b (λ t.
          ◌>>=◌ {B = Dinode × Disk}
            (bfree sb (ip.addrs ndirect) t)
            (λ t'. ok (record ip { addrs = update ip.addrs ndirect 0 }, t')))
          ≡ ok r
        → Logs d r.1
    entries (panic text) logs ran = cc ran
    entries (ok t) logs ran =
        last t (bfree sb (ip.addrs ndirect) t) (logs t refl) (bfree-Logs sb (ip.addrs ndirect) t)
          ran

pub itrunc-Logs :
    (sb : Superblock) (inum : ℕ) (ip : Dinode) (d : Disk) (ip1 ip2 : Dinode) (d1 d2 : Disk)
    → free_direct sb 0 ndirect ip d ≡ ok (ip1, d1)
    → free_indirect sb ip1 d1 ≡ ok (ip2, d2)
    → Logs d (iupdate sb inum (record ip2 { size = 0 }) d2)
itrunc-Logs sb inum ip d ip1 ip2 d1 d2 ran ran' =
    Logs-trans d d1 (iupdate sb inum (record ip2 { size = 0 }) d2)
      (free_direct-Logs sb 0 ndirect ip d (ip1, d1) ran)
      (Logs-trans d1 d2 (iupdate sb inum (record ip2 { size = 0 }) d2)
        (free_indirect-Logs sb ip1 d1 (ip2, d2) ran')
        (iupdate-Logs sb inum (record ip2 { size = 0 }) d2))
