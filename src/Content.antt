-- ===== src/Content.antt =====
-- kernel/fs.c: the content of an inode, in blocks that its copy in memory (`ip`, a `Dinode` here)
-- lists. The caller holds the inode's lock.
pub mod Slots
pub mod Growth
pub mod Extending
pub mod Mapping
pub mod Reading
pub mod Logging
pub mod Overwriting
pub mod Writing
pub mod Finishing
pub mod Durable
pub mod Clearing
pub mod Truncating
mod Tests
use Prim.Native.String.{String}
use xv6_riscv_zig.Prelude.{
  ℕ, zero, suc, ◌+◌, ◌-◌, ◌*◌, ◌/◌, ◌%◌, ◌^◌, min, Bool, true, false, ◌||◌, Option, none, some, ltb,
  ◌==◌, if◌then◌else◌, update, Run, ok, panic, ◌>>=◌,
}
use xv6_riscv_zig.Pipe.{UserMem, copyin, copyout}
use xv6_riscv_zig.Blocks.{bsize, Superblock, Dinode, Disk, mark_logged, put_word, balloc, bfree}

-- `NDIRECT`, `NINDIRECT`, `MAXFILE`, and `IPB`, the inodes of a block
abbrev pub ndirect : ℕ
ndirect = 12

abbrev pub nindirect : ℕ
nindirect = 256

abbrev pub maxfile : ℕ
maxfile = 268

abbrev pub ipb : ℕ
ipb = 16

-- `IBLOCK`
pub iblock : ℕ → Superblock → ℕ
iblock inum sb = inum / ipb + sb.inodestart

abbrev pub put_dinode : ℕ → ℕ → Dinode → Disk → Disk
put_dinode bno i ip d = record d { dinodes = update d.dinodes bno (update (d.dinodes bno) i ip) }

pub iupdate : Superblock → ℕ → Dinode → Disk → Disk
unfolding iblock
iupdate sb inum ip d = mark_logged (iblock inum sb) (put_dinode (iblock inum sb) (inum % ipb) ip d)

-- The block of `ip->addrs[i]`, which is allocated where there is none
pub addr_block : Superblock → ℕ → Dinode → Disk → Dinode × Disk × ℕ
addr_block sb i ip d =
    let (t, addr) = balloc sb d in
    let taken =
      if addr == 0 then (ip, t, 0) else (record ip { addrs = update ip.addrs i addr }, t, addr) in
    if ip.addrs i == 0 then taken else (ip, d, ip.addrs i)

-- The block of entry `bn` of the indirect block `ind`
pub entry_block : Superblock → ℕ → ℕ → Disk → Disk × ℕ
entry_block sb ind bn d =
    let (t, addr) = balloc sb d in
    let taken = if addr == 0 then (t, 0) else (mark_logged ind (put_word ind bn addr t), addr) in
    if d.words ind bn == 0 then taken else (d, d.words ind bn)

-- The second half of `bmap`
pub bmap_indirect : Superblock → Dinode → ℕ → Disk → Dinode × Disk × ℕ
unfolding addr_block entry_block
bmap_indirect sb ip bn d =
    let (ip1, d1, ind) = addr_block sb ndirect ip d in
    let (d2, addr) = entry_block sb ind bn d1 in if ind == 0 then (ip1, d1, 0) else (ip1, d2, addr)

pub bmap : Superblock → Dinode → ℕ → Disk → Run (Dinode × Disk × ℕ)
unfolding bmap_indirect
bmap sb ip bn d =
    if ltb bn ndirect
    then ok (addr_block sb bn ip d)
    else (if ltb (bn - ndirect) nindirect
        then ok (bmap_indirect sb ip (bn - ndirect) d)
        else panic "bmap: out of range")

-- The first loop of `itrunc`, with `k` rounds to go
pub free_direct : Superblock → ℕ → ℕ → Dinode → Disk → Run (Dinode × Disk)
free_direct sb i zero ip d = ok (ip, d)
free_direct sb i (suc k) ip d =
    let freed = do
      t ← bfree sb (ip.addrs i) d
      free_direct sb (i + 1) k (record ip { addrs = update ip.addrs i 0 }) t
    in let rest = free_direct sb (i + 1) k ip d in if ip.addrs i == 0 then rest else freed

-- The loop on the indirect block's entries `a`
pub free_entries : Superblock → (ℕ → ℕ) → ℕ → ℕ → Disk → Run Disk
free_entries sb a j zero d = ok d
free_entries sb a j (suc k) d =
    let freed = (do t ← bfree sb (a j) d; free_entries sb a (j + 1) k t) in
    let rest = free_entries sb a (j + 1) k d in if a j == 0 then rest else freed

pub free_indirect : Superblock → Dinode → Disk → Run (Dinode × Disk)
free_indirect sb ip d =
    let ind = ip.addrs ndirect in
    let freed = do
      t ← free_entries sb (d.words ind) 0 nindirect d
      t' ← bfree sb ind t
      ok (record ip { addrs = update ip.addrs ndirect 0 }, t')
    in if ind == 0 then ok (ip, d) else freed

pub itrunc : Superblock → ℕ → Dinode → Disk → Run (Dinode × Disk)
unfolding iupdate
itrunc sb inum ip d = do
  (ip1, d1) ← free_direct sb 0 ndirect ip d
  (ip2, d2) ← free_indirect sb ip1 d1
  ok (record ip2 { size = 0 }, iupdate sb inum (record ip2 { size = 0 }) d2)

-- `x + y` on `uint`
abbrev pub add32 : ℕ → ℕ → ℕ
add32 x y = (x + y) % 2 ^ 32

-- What a loop of `readi` or `writei` leaves: the inode, the disk, the caller's memory, and the number
-- of bytes copied, `none` for -1
pub record Copied : Type 0 where
  pub ip : Dinode
  pub disk : Disk
  pub mem : UserMem
  pub tot : Option ℕ

-- The loop of `readi`. Each round copies at least one byte, so that `n - tot` rounds are enough.
pub readi_loop : Superblock → ℕ → ℕ → ℕ → ℕ → ℕ → Dinode → Disk → UserMem → Run Copied
unfolding bmap
readi_loop sb zero n tot off dst ip d u = ok (record { ip = ip; disk = d; mem = u; tot = some tot })
readi_loop sb (suc k) n tot off dst ip d u =
    let round = do
      (ip1, d1, addr) ← bmap sb ip (off / bsize) d
      let m = min (n - tot) (bsize - off % bsize)
      let out = copyout u dst (d1.bytes addr) (off % bsize) m
      let rest = readi_loop sb k n (tot + m) (off + m) (dst + m) ip1 d1 out.0
      if addr == 0
          then ok (record { ip = ip1; disk = d1; mem = u; tot = some tot })
          else (if out.1
              then rest
              else ok (record { ip = ip1; disk = d1; mem = out.0; tot = none }))
    in if ltb tot n then round else ok (record { ip = ip; disk = d; mem = u; tot = some tot })

pub readi : Superblock → Dinode → Disk → UserMem → ℕ → ℕ → ℕ → Run Copied
unfolding readi_loop
readi sb ip d u dst off n =
    let n' = if ltb ip.size (off + n) then ip.size - off else n in
    if ltb ip.size off || ltb (add32 off n) off
    then ok (record { ip = ip; disk = d; mem = u; tot = some 0 })
    else readi_loop sb n' n' 0 off dst ip d u

-- The loop of `writei`, which also returns `off`. A copy that fails may have changed the block, but
-- it is not logged.
pub writei_loop :
    Superblock → ℕ → ℕ → ℕ → ℕ → ℕ → Dinode → Disk → UserMem → Run (Dinode × Disk × ℕ × ℕ)
unfolding bmap
writei_loop sb zero n tot off src ip d u = ok (ip, d, tot, off)
writei_loop sb (suc k) n tot off src ip d u =
    let round = do
      (ip1, d1, addr) ← bmap sb ip (off / bsize) d
      let m = min (n - tot) (bsize - off % bsize)
      let got = copyin (d1.bytes addr) (off % bsize) u src m
      let d2 = record d1 { bytes = update d1.bytes addr got.0 }
      let rest = writei_loop sb k n (tot + m) (off + m) (src + m) ip1 (mark_logged addr d2) u
      if addr == 0 then ok (ip1, d1, tot, off) else (if got.1 then rest else ok (ip1, d2, tot, off))
    in if ltb tot n then round else ok (ip, d, tot, off)

-- The end of `writei`
pub end_write : Superblock → ℕ → Dinode × Disk × ℕ × ℕ → Dinode × Disk × Option ℕ
unfolding iupdate
end_write sb inum (ip, d, tot, off) =
    let ip1 = if ltb ip.size off then record ip { size = off } else ip in
    (ip1, iupdate sb inum ip1 d, some tot)

pub writei : Superblock → ℕ → Dinode → Disk → UserMem → ℕ → ℕ → ℕ → Run (Dinode × Disk × Option ℕ)
unfolding writei_loop end_write
writei sb inum ip d u src off n =
    let written = (do r ← writei_loop sb n n 0 off src ip d u; ok (end_write sb inum r)) in
    if ltb ip.size off || ltb (add32 off n) off
    then ok (ip, d, none)
    else (if ltb (maxfile * bsize) (off + n) then ok (ip, d, none) else written)
