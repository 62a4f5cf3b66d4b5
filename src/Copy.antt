-- ===== src/Copy.antt =====
-- kernel/vm.c: `custom_memcpy`, with which `copyin` and `copyout` copy each page.
pub mod Words
mod Tests
use xv6_riscv_zig.Prelude.{
  ℕ, zero, suc, ◌+◌, ◌-◌, ◌*◌, ◌/◌, ◌%◌, not, ◌&&◌, ltb, leb, ◌==◌, if◌then◌else◌, update,
}
use xv6_riscv_zig.Str.{move_up}

-- Where the first loop leaves memory, both pointers and the number of bytes
pub record Cursor : Type 0 where
  pub memory : ℕ → ℕ
  pub dst : ℕ
  pub src : ℕ
  pub n : ℕ

-- The first loop of `custom_memcpy`: bytes, while neither pointer is aligned. (A negative `n` does
-- what 0 does.)
pub align_loop : (ℕ → ℕ) → ℕ → ℕ → ℕ → Cursor
align_loop f dst src zero = record { memory = f; dst = dst; src = src; n = 0 }
align_loop f dst src (suc n) =
    let rest = align_loop (update f dst (f src)) (dst + 1) (src + 1) n in
    if not (dst % 8 == 0) && not (src % 8 == 0)
    then rest
    else record { memory = f; dst = dst; src = src; n = suc n }

-- `*dst_pos64 = *src_pos64`: eight bytes are read, then written.
pub copy_word : (ℕ → ℕ) → ℕ → ℕ → ℕ → ℕ
copy_word f dst src q = if leb dst q && ltb q (dst + 8) then f (src + (q - dst)) else f q

-- The second loop, of `k` words
pub word_loop : (ℕ → ℕ) → ℕ → ℕ → ℕ → ℕ → ℕ
unfolding copy_word
word_loop f dst src zero = f
word_loop f dst src (suc k) = word_loop (copy_word f dst src) (dst + 8) (src + 8) k

-- The last loop copies what is left byte by byte.
pub custom_memcpy : (ℕ → ℕ) → ℕ → ℕ → ℕ → ℕ → ℕ
unfolding align_loop word_loop
custom_memcpy f dst src n =
    let c = align_loop f dst src n in
    let words : ℕ = c.n / 8 in
    move_up (word_loop c.memory c.dst c.src words) (c.dst + 8 * words) (c.src + 8 * words) (c.n % 8)
