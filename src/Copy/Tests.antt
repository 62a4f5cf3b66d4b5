-- ===== src/Copy/Tests.antt =====
-- Runs of `custom_memcpy`.
use xv6_riscv_zig.Prelude.{ℕ, ◌+◌, ◌-◌, ◌≡◌, refl, inr, ◌&&◌, ltb, leb, if◌then◌else◌, arith}
use xv6_riscv_zig.Copy.{custom_memcpy, align_loop, word_loop}
use xv6_riscv_zig.Copy.Words.{custom_memcpy_lem}
use xv6_riscv_zig.Str.{move_up}

-- A memory that holds at each address the address
abbrev bytes : ℕ → ℕ
bytes q = q

-- Only the destination is not aligned, so that no byte is copied before the words.
custom_memcpy_last : custom_memcpy bytes 1001 16 30 1030 ≡ 45
unfolding custom_memcpy align_loop word_loop move_up
custom_memcpy_last = refl

custom_memcpy_lem_example :
    custom_memcpy bytes 1001 13 30 1010
    ≡ (if leb 1001 1010 && ltb 1010 (1001 + 30) then bytes (13 + (1010 - 1001)) else bytes 1010)
custom_memcpy_lem_example = custom_memcpy_lem bytes 1001 13 30 1010 (inr (omega arith))
