-- ===== src/Blocks.antt =====
-- kernel/fs.c: the blocks of the disk, and the allocator on its bitmap. A block's data are read
-- under the casts of the code, as bytes, as 32-bit words or as inodes: no block is used under two of
-- these, but `bzero` clears it under each.
pub mod Bits
pub mod Search
pub mod Bitmap
pub mod Allocation
pub mod Freeing
pub mod Logging
mod Tests
use Prim.Native.String.{String}
use xv6_riscv_zig.Prelude.{
  ℕ, zero, suc, ◌+◌, ◌-◌, ◌*◌, ◌/◌, ◌%◌, min, Bool, true, false, not, Option, none, some, List, ◌∷◌,
  ltb, ◌==◌, if◌then◌else◌, update, Run, ok, panic,
}

-- `BSIZE`
abbrev pub bsize : ℕ
bsize = 1024

-- `BPB`, the bits of a block
abbrev pub bpb : ℕ
bpb = 8192

-- The fields of `struct superblock` that this code reads
pub record Superblock : Type 0 where
  pub size : ℕ
  pub ninodes : ℕ
  pub inodestart : ℕ
  pub bmapstart : ℕ

-- `struct dinode`
pub record Dinode : Type 0 where
  pub type : ℕ
  pub major : ℕ
  pub minor : ℕ
  pub nlink : ℕ
  pub size : ℕ
  pub addrs : ℕ → ℕ

-- What `memset(dip, 0, sizeof(*dip))` leaves
abbrev pub no_dinode : Dinode
no_dinode = record { type = 0; major = 0; minor = 0; nlink = 0; size = 0; addrs = λ i. 0 }

-- The blocks of the device, as the buffer cache shows them, with the blocks given to `log_write`,
-- the last one first. `log_write` changes no data. Whether it panics depends on the log alone:
-- Log/Calls runs the list on it. What is said of a run here is said of one in which no call panics.
pub record Disk : Type 0 where
  pub bytes : ℕ → ℕ → ℕ
  pub words : ℕ → ℕ → ℕ
  pub dinodes : ℕ → ℕ → Dinode
  pub logged : List ℕ

abbrev pub mark_logged : ℕ → Disk → Disk
mark_logged bno d = record d { logged = bno ∷ d.logged }

abbrev pub put_byte : ℕ → ℕ → ℕ → Disk → Disk
put_byte bno i v d = record d { bytes = update d.bytes bno (update (d.bytes bno) i v) }

abbrev pub put_word : ℕ → ℕ → ℕ → Disk → Disk
put_word bno i v d = record d { words = update d.words bno (update (d.words bno) i v) }

pub bzero : ℕ → Disk → Disk
bzero bno d = mark_logged bno (record d {
  bytes = update d.bytes bno (λ i. 0);
  words = update d.words bno (λ i. 0);
  dinodes = update d.dinodes bno (λ i. no_dinode);
})

-- `v & (1 << k)`, `v | (1 << k)` and `v & ~(1 << k)`
unfoldable pub bit : ℕ → ℕ → Bool
bit v zero = v % 2 == 1
bit v (suc k) = bit (v / 2) k

pub set_bit : ℕ → ℕ → ℕ
set_bit v zero = v / 2 * 2 + 1
set_bit v (suc k) = set_bit (v / 2) k * 2 + v % 2

pub clear_bit : ℕ → ℕ → ℕ
clear_bit v zero = v / 2 * 2
clear_bit v (suc k) = clear_bit (v / 2) k * 2 + v % 2

-- `BBLOCK`
unfoldable pub bblock : ℕ → Superblock → ℕ
bblock b sb = b / bpb + sb.bmapstart

-- The inner loop of `balloc`: the first clear bit of a bitmap block from `bi` on, with `k` to go
pub find_bit : (ℕ → ℕ) → ℕ → ℕ → Option ℕ
unfolding bit
find_bit content bi zero = none
find_bit content bi (suc k) =
    let rest = find_bit content (bi + 1) k in
    if bit (content (bi / 8)) (bi % 8) then rest else some bi

-- The body of the inner loop where the bit is clear
pub take_block : Superblock → ℕ → ℕ → Disk → Disk
unfolding bblock bzero set_bit
take_block sb b bi d =
    let bno = bblock b sb in
    bzero (b + bi)
      (mark_logged bno (put_byte bno (bi / 8) (set_bit (d.bytes bno (bi / 8)) (bi % 8)) d))

-- The outer loop from block `b` on, in at most `fuel` rounds
pub balloc_from : Superblock → ℕ → ℕ → Disk → Disk × ℕ
unfolding find_bit take_block bblock
balloc_from sb zero b d = (d, 0)
balloc_from sb (suc fuel) b d =
    let rest = balloc_from sb fuel (b + bpb) d in
    if ltb b sb.size
    then (elim (find_bit (d.bytes (bblock b sb)) 0 (min bpb (sb.size - b))) [
      | some bi ↦ (take_block sb b bi d, b + bi)
      | none ↦ rest
    ])
    else (d, 0)

-- 0 stands for no block.
pub balloc : Superblock → Disk → Disk × ℕ
unfolding balloc_from
balloc sb d = balloc_from sb (sb.size / bpb + 1) 0 d

pub bfree : Superblock → ℕ → Disk → Run Disk
unfolding bblock bit clear_bit
bfree sb b d =
    let bno = bblock b sb in
    let bi = b % bpb in
    if bit (d.bytes bno (bi / 8)) (bi % 8)
    then ok (mark_logged bno (put_byte bno (bi / 8) (clear_bit (d.bytes bno (bi / 8)) (bi % 8)) d))
    else panic "freeing free block"
