-- ===== src/Inodes/Tests.antt =====
-- A table of two entries.
use xv6_riscv_zig.Prelude.{
  ℕ, zero, suc, ◌≡◌, refl, ap, sym, false, some, List, [], ◌∷◌, get_elem?, arith,
}
use xv6_riscv_zig.Blocks.{Superblock, no_dinode}
use xv6_riscv_zig.Inodes.{Inode, iget}
use xv6_riscv_zig.Inodes.Distinct.{Step, gets, here, next}
use xv6_riscv_zig.Inodes.Steps.{inodes_distinct}

abbrev sb : Superblock
sb = record { size = 20; ninodes = 8; inodestart = 2; bmapstart = 3 }

abbrev entry : ℕ → ℕ → ℕ → Inode
entry dev inum ref = record {
  dev = dev;
  inum = inum;
  ref = ref;
  lock = record { locked = false; pid = 0 };
  valid = false;
  dinode = no_dinode;
}

abbrev table : List Inode
table = entry 0 0 0 ∷ entry 0 0 0 ∷ []

table_free : (k : ℕ) (i : Inode) → get_elem? table k ≡ some i → i.ref ≡ 0
table_free zero i e = let same : entry 0 0 0 ≡ i = cc e in ap (λ (x : Inode). x.ref) (sym same)
table_free (suc zero) i e =
    let same : entry 0 0 0 ≡ i = cc e in ap (λ (x : Inode). x.ref) (sym same)
table_free (suc (suc k)) i e = cc e

-- Inode 5 is looked up twice, and inode 7 once.
abbrev looked_up : List Inode
looked_up = entry 1 5 2 ∷ entry 1 7 1 ∷ []

abbrev first : List Inode
first = entry 1 5 1 ∷ entry 0 0 0 ∷ []

abbrev second : List Inode
second = entry 1 5 1 ∷ entry 1 7 1 ∷ []

look_up5 : Step sb table first
unfolding iget
look_up5 = gets 1 5 0 refl

look_up7 : Step sb first second
unfolding iget
look_up7 = gets 1 7 1 refl

look_up5_again : Step sb second looked_up
unfolding iget
look_up5_again = gets 1 5 0 refl

inodes_distinct_example : ¬ ((◌≡◌ {A = ℕ} 1 1) × (◌≡◌ {A = ℕ} 5 7))
inodes_distinct_example =
    inodes_distinct sb table looked_up table_free
      (next (next (next here look_up5) look_up7) look_up5_again) 0 1 (entry 1 5 2) (entry 1 7 1)
      refl refl (omega arith) (omega arith) (omega arith)
