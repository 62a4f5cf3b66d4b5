-- ===== src/Blocks/Tests.antt =====
-- A disk of 20 blocks whose bitmap, block 3, has blocks 0 to 3 and 10 in use.
use xv6_riscv_zig.Prelude.{
  ℕ, zero, suc, ◌<◌, ◌≡◌, ◌≢◌, refl, sym, ◌∙◌, [], ◌==◌, if◌then◌else◌, ok, arith,
}
use xv6_riscv_zig.Blocks.{Superblock, Disk, no_dinode, bit, bblock, balloc, bfree}
use xv6_riscv_zig.Blocks.Search.{in_use}
use xv6_riscv_zig.Blocks.Allocation.{MetaInUse, Allocated, balloc_lem}
use xv6_riscv_zig.Blocks.Freeing.{bfree-balloc}

abbrev sb : Superblock
sb = record { size = 20; ninodes = 8; inodestart = 2; bmapstart = 3 }

abbrev disk : Disk
disk = record {
  bytes = λ b i. if b == 3 then (if i == 0 then 15 else (if i == 1 then 4 else 0)) else b;
  words = λ b i. 7;
  dinodes = λ b i. no_dinode;
  logged = [];
}

meta : MetaInUse sb disk
unfolding bit bblock
meta zero lt = refl
meta (suc zero) lt = refl
meta (suc (suc zero)) lt = refl
meta (suc (suc (suc zero))) lt = refl
meta (suc (suc (suc (suc c)))) lt = absurd (omega (arith, lt))

first_free : (balloc sb disk).1 ≡ 4
unfolding balloc
first_free = refl

balloc_lem_example : Allocated sb disk 0 (balloc sb disk)
balloc_lem_example = balloc_lem sb disk meta

taken : (balloc sb disk).1 ≢ 0
taken e = omega (arith, sym first_free ∙ e)

bfree-balloc_example :
    (t : Disk) × (bfree sb (balloc sb disk).1 (balloc sb disk).0 ≡ ok t)
    × ((c : ℕ) → c < sb.size → in_use sb t c ≡ in_use sb disk c)
bfree-balloc_example = bfree-balloc sb disk meta taken
