-- ===== src/Blocks/Search.antt =====
-- The bit that a bitmap block has for a block, and the first one that is clear.
use xv6_riscv_zig.Prelude.{
  ℕ, zero, suc, ◌+◌, ◌/◌, ◌%◌, ◌≤◌, ◌<◌, ◌≡◌, Bool, true, false, Option, none, some, arith,
  Bool-cases, inl, inr, subst, ◌==◌, ==_iff,
}
use xv6_riscv_zig.Blocks.{Superblock, Disk, bit, bblock, find_bit, bpb}

abbrev pub bit_of : (ℕ → ℕ) → ℕ → Bool
bit_of content i = bit (content (i / 8)) (i % 8)

-- The bitmap has block `b` in use.
abbrev pub in_use : Superblock → Disk → ℕ → Bool
in_use sb d b = bit_of (d.bytes (bblock b sb)) (b % bpb)

-- The first bit that is clear among `k` from `bi` on, if there is one
abbrev pub FirstClear : (ℕ → ℕ) → ℕ → ℕ → Option ℕ → Type 0
FirstClear content bi k none = (j : ℕ) → bi ≤ j → j < bi + k → bit_of content j ≡ true
FirstClear content bi k (some i) =
    (bi ≤ i)
    × (i < bi + k)
    × (bit_of content i ≡ false)
    × ((j : ℕ) → bi ≤ j → j < i → bit_of content j ≡ true)

-- `i` or a later number
from_next :
    (content : ℕ → ℕ) (bi n j : ℕ)
    → bit_of content bi ≡ true
    → ((j : ℕ) → bi + 1 ≤ j → j < n → bit_of content j ≡ true)
    → bi ≤ j
    → j < n
    → bit_of content j ≡ true
from_next content bi n j here rest le lt = elim (Bool-cases (bi == j)) [
  | inl same ↦ subst (λ i. bit_of content i ≡ true) ((==_iff bi j).0 same) here
  | inr other ↦ rest j (ground arith) lt
]

FirstClear-next :
    (content : ℕ → ℕ) (bi k : ℕ) (o : Option ℕ)
    → bit_of content bi ≡ true
    → FirstClear content (bi + 1) k o
    → FirstClear content bi (suc k) o
FirstClear-next content bi k none here rest =
    λ j. from_next content bi (bi + suc k) j here (λ j le lt. rest j le (omega (arith, lt)))
FirstClear-next content bi k (some i) here (le, lt, clear, before) =
    (omega (arith, le), omega (arith, lt), clear, λ j. from_next content bi i j here before)

pub find_bit-FirstClear :
    (content : ℕ → ℕ) (bi k : ℕ) → FirstClear content bi k (find_bit content bi k)
unfolding find_bit
find_bit-FirstClear content bi zero = λ j le lt. absurd (omega (arith, le, lt))
find_bit-FirstClear content bi (suc k) = elim (Bool-cases (bit_of content bi)) [
  | inl set ↦ rw set (
      FirstClear-next content bi k (find_bit content (bi + 1) k) set
        (find_bit-FirstClear content (bi + 1) k))
  | inr clear ↦
      rw clear (omega arith, omega arith, clear, λ j le lt. absurd (omega (arith, le, lt)))
]
