-- ===== src/Log/Header.antt =====
-- The header block of the log: what `write_head` puts there, `read_head` finds again.
use xv6_riscv_zig.Prelude.{
  ℕ, zero, suc, ◌+◌, ◌<◌, ◌≤◌, ◌≡◌, refl, ◌∙◌, arith, update, update_self, update_ne, ◌==◌,
  Bool-cases, inl, inr, ==_iff,
}
use xv6_riscv_zig.Log.{Block, write_blocks, read_blocks}

-- The header block that `write_head` leaves: the count, then the block numbers.
abbrev pub header : ℕ → (ℕ → ℕ) → Block → Block
header n block h = write_blocks block n 0 (update h 0 n)

write_blocks-count : (block : ℕ → ℕ) (k i : ℕ) (h : Block) → write_blocks block k i h 0 ≡ h 0
unfolding write_blocks
write_blocks-count block zero i h = refl
write_blocks-count block (suc k) i h =
    write_blocks-count block k (i + 1) (update h (i + 1) (block i))
    ∙ update_ne h (i + 1) 0 (block i) (omega arith)

write_blocks-below :
    (block : ℕ → ℕ) (k i : ℕ) (h : Block) (w : ℕ) → w ≤ i → write_blocks block k i h w ≡ h w
unfolding write_blocks
write_blocks-below block zero i h w p = refl
write_blocks-below block (suc k) i h w p =
    write_blocks-below block k (i + 1) (update h (i + 1) (block i)) w (omega arith)
    ∙ update_ne h (i + 1) w (block i) (omega arith)

write_blocks-at :
    (block : ℕ → ℕ) (k i : ℕ) (h : Block) (j : ℕ)
    → i ≤ j
    → j < i + k
    → write_blocks block k i h (j + 1) ≡ block j
unfolding write_blocks
write_blocks-at block zero i h j p q = absurd (omega arith)
write_blocks-at block (suc k) i h j p q = elim (Bool-cases (i == j)) [
  | inl e ↦ rw (← (==_iff i j).0 e) (
      write_blocks-below block k (i + 1) (update h (i + 1) (block i)) (i + 1) (omega arith)
      ∙ update_self h (i + 1) (block i))
  | inr ne ↦
      write_blocks-at block k (i + 1) (update h (i + 1) (block i)) j (ground arith) (omega arith)
]

pub header-count : (n : ℕ) (block : ℕ → ℕ) (h : Block) → header n block h 0 ≡ n
header-count n block h = write_blocks-count block n 0 (update h 0 n) ∙ update_self h 0 n

pub header-block :
    (n : ℕ) (block : ℕ → ℕ) (h : Block) (j : ℕ) → j < n → header n block h (j + 1) ≡ block j
header-block n block h j p = write_blocks-at block n 0 (update h 0 n) j (omega arith) (omega arith)

read_blocks-below :
    (h : Block) (k i : ℕ) (block : ℕ → ℕ) (j : ℕ) → j < i → read_blocks h k i block j ≡ block j
unfolding read_blocks
read_blocks-below h zero i block j p = refl
read_blocks-below h (suc k) i block j p =
    read_blocks-below h k (i + 1) (update block i (h (i + 1))) j (omega arith)
    ∙ update_ne block i j (h (i + 1)) (omega arith)

pub read_blocks-at :
    (h : Block) (k i : ℕ) (block : ℕ → ℕ) (j : ℕ)
    → i ≤ j
    → j < i + k
    → read_blocks h k i block j ≡ h (j + 1)
unfolding read_blocks
read_blocks-at h zero i block j p q = absurd (omega arith)
read_blocks-at h (suc k) i block j p q = elim (Bool-cases (i == j)) [
  | inl e ↦ rw (← (==_iff i j).0 e) (
      read_blocks-below h k (i + 1) (update block i (h (i + 1))) i (omega arith)
      ∙ update_self block i (h (i + 1)))
  | inr ne ↦ read_blocks-at h k (i + 1) (update block i (h (i + 1))) j (ground arith) (omega arith)
]
