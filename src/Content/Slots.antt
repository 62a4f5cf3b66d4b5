-- ===== src/Content/Slots.antt =====
-- What a file is: its blocks, and its bytes, where what has no block reads as 0.
use xv6_riscv_zig.Prelude.{
  ℕ, ◌+◌, ◌-◌, ◌/◌, ◌%◌, ◌≤◌, ◌<◌, ◌≡◌, ◌≢◌, true, ltb, ◌==◌, if◌then◌else◌,
}
use xv6_riscv_zig.Blocks.{bsize, bpb, Superblock, Dinode, Disk}
use xv6_riscv_zig.Blocks.Search.{in_use}
use xv6_riscv_zig.Blocks.Allocation.{MetaInUse}
use xv6_riscv_zig.Content.{ndirect, maxfile}

-- The block of a file's slot: `maxfile` blocks of data, and behind them the indirect block
abbrev pub slot : Dinode → Disk → ℕ → ℕ
slot ip d k =
    if ltb k ndirect
    then ip.addrs k
    else (if ltb k maxfile
        then (if ip.addrs ndirect == 0 then 0 else d.words (ip.addrs ndirect) (k - ndirect))
        else ip.addrs ndirect)

abbrev pub content : Dinode → Disk → ℕ → ℕ
content ip d off =
    if slot ip d (off / bsize) == 0 then 0 else d.bytes (slot ip d (off / bsize)) (off % bsize)

-- The blocks of a file lie behind the bitmap, are in use, and are different blocks.
pub record IsFile (sb : Superblock) (ip : Dinode) (d : Disk) : Type 0 where
  pub meta : MetaInUse sb d
  pub inside : (k : ℕ) → k ≤ maxfile → slot ip d k ≢ 0 → slot ip d k < sb.size
  pub beyond :
      (k : ℕ) → k ≤ maxfile → slot ip d k ≢ 0 → sb.bmapstart + (sb.size / bpb + 1) ≤ slot ip d k
  pub used : (k : ℕ) → k ≤ maxfile → slot ip d k ≢ 0 → in_use sb d (slot ip d k) ≡ true
  pub distinct :
      (k m : ℕ) → k ≤ maxfile → m ≤ maxfile → k ≢ m → slot ip d k ≢ 0 → slot ip d k ≢ slot ip d m
