-- ===== src/Content/Tests.antt =====
-- A file of one block on a disk of 20 blocks.
use xv6_riscv_zig.Prelude.{
  ℕ, zero, suc, ◌+◌, ◌≡◌, ◌≢◌, refl, true, some, none, [], ◌==◌, if◌then◌else◌, ok, panic, arith,
  length, false, Run, min, ◌-◌, Option, ◌∙◌, sym, ap,
}
use xv6_riscv_zig.Pipe.{UserMem, copyin}
use xv6_riscv_zig.Blocks.{Superblock, Dinode, Disk, no_dinode, bit, bblock}
use xv6_riscv_zig.Blocks.Search.{in_use}
use xv6_riscv_zig.Blocks.Allocation.{MetaInUse}
use xv6_riscv_zig.Content.{itrunc, bmap, readi, writei, Copied}
use xv6_riscv_zig.Log.{Log}
use xv6_riscv_zig.Log.Calls.{log_calls}
use xv6_riscv_zig.Content.Durable.{AllLogged, writei-AllLogged}
use xv6_riscv_zig.Content.Slots.{slot, IsFile}
use xv6_riscv_zig.Content.Extending.{Mapped}
use xv6_riscv_zig.Content.Mapping.{bmap-Mapped}
use xv6_riscv_zig.Content.Reading.{AllPresent, ReadsTo, readi_lem}
use xv6_riscv_zig.Content.Truncating.{Truncated, itrunc_lem}
use xv6_riscv_zig.Content.Finishing.{Wrote, writei_lem, ReadsBack, readi-writei}

abbrev sb : Superblock
sb = record { size = 20; ninodes = 8; inodestart = 2; bmapstart = 3 }

-- The bitmap, block 3, has blocks 0 to 3 and 10 in use.
abbrev disk : Disk
disk = record {
  bytes = λ b i. if b == 3 then (if i == 0 then 15 else (if i == 1 then 4 else 0)) else i;
  words = λ b i. 7;
  dinodes = λ b i. no_dinode;
  logged = [];
}

abbrev ip : Dinode
ip = record {
  type = 2;
  major = 0;
  minor = 0;
  nlink = 1;
  size = 1000;
  addrs = λ i. if i == 0 then 10 else 0;
}

meta : MetaInUse sb disk
unfolding bit bblock
meta zero lt = refl
meta (suc zero) lt = refl
meta (suc (suc zero)) lt = refl
meta (suc (suc (suc zero))) lt = refl
meta (suc (suc (suc (suc c)))) lt = absurd (omega (arith, lt))

-- Only the first slot has a block.
first_slot : (k : ℕ) → slot ip disk k ≢ 0 → (k ≡ 0) × (slot ip disk k ≡ 10)
first_slot zero ne = (refl, refl)
first_slot (suc k) ne = absurd (ne (ground arith))

ten_used : in_use sb disk 10 ≡ true
unfolding bit bblock
ten_used = refl

ip-IsFile : IsFile sb ip disk
ip-IsFile = record {
  meta = meta;
  inside = λ k le ne. omega (arith, (first_slot k ne).1);
  beyond = λ k le ne. omega (arith, (first_slot k ne).1);
  used = λ k le ne. ap (in_use sb disk) (first_slot k ne).1 ∙ ten_used;
  distinct =
      λ k m le le' apart ne e. apart ((first_slot k ne).0 ∙ sym (first_slot m (λ z. ne (e ∙ z))).0);
}

abbrev user : UserMem
user = record { byte = λ q. q + 5; present = λ q. 4096 }

user-AllPresent : AllPresent user
user-AllPresent q = omega arith

bmap-Mapped_example :
    (ip' : Dinode) × (d' : Disk) × (addr : ℕ) × (bmap sb ip 20 disk ≡ ok (ip', d', addr))
    × Mapped sb ip disk 20 ip' d' addr
bmap-Mapped_example = bmap-Mapped sb ip disk 20 ip-IsFile (omega arith)

readi_lem_example :
    (res : Copied) × (t : ℕ) × (readi sb ip disk user 40 900 300 ≡ ok res)
    × (res.tot ≡ some t)
    × ReadsTo sb ip disk user 40 900 (min 300 (ip.size - 900)) res t
readi_lem_example =
    readi_lem sb ip disk user 40 900 300 ip-IsFile user-AllPresent (omega arith) (omega arith)
      (omega arith)

writei_lem_example :
    (ip' : Dinode) × (d' : Disk) × (t : ℕ) × (writei sb 3 ip disk user 40 900 300
      ≡ ok (ip', d', some t))
    × Wrote sb 3 ip disk user.byte 40 900 300 ip' d' t
writei_lem_example =
    writei_lem sb 3 ip disk user 40 900 300 ip-IsFile user-AllPresent (omega arith) (omega arith)

-- What a run returned
abbrev result {ℓ} : {A : Type ℓ} → A → Run A → A
result a (ok b) = b
result a (panic m) = a

-- 50 bytes are written into the block that is there.
abbrev written : Dinode × Disk × Option ℕ
unfolding writei copyin
written = result (ip, disk, none) (writei sb 3 ip disk user 40 900 50)

writes_all : writei sb 3 ip disk user 40 900 50 ≡ ok (written.0, written.1, some 50)
unfolding writei copyin
writes_all = refl

readi-writei_example : ReadsBack sb user user 40 7000 900 50 written.0 written.1
readi-writei_example =
    readi-writei sb 3 ip disk user user 40 7000 900 50 written.0 written.1 ip-IsFile user-AllPresent
      user-AllPresent (omega arith) (omega arith) (omega arith) writes_all

itrunc_lem_example :
    (ip' : Dinode) × (d' : Disk) × (itrunc sb 3 ip disk ≡ ok (ip', d'))
    × Truncated sb 3 ip disk ip' d'
itrunc_lem_example = itrunc_lem sb ip disk ip-IsFile 3

-- A log inside a transaction, with no block logged
abbrev log : Log
log = record {
  disk = λ b w. 0;
  cached = λ b w. 0;
  refs = λ b. 0;
  power = 9;
  start = 30;
  size = 30;
  outstanding = 1;
  committing = false;
  n = 0;
  block = λ i. 0;
}

two_calls : length written.1.logged ≡ 2
unfolding writei copyin
two_calls = refl

writei-AllLogged_example :
    (t : Log) × (log_calls written.1.logged log ≡ ok t) × AllLogged disk written.1 t
writei-AllLogged_example =
    writei-AllLogged sb 3 ip disk user 40 900 50 written.0 written.1 (some 50) log user-AllPresent
      writes_all (omega arith) (omega (arith, two_calls)) (omega (arith, two_calls))
