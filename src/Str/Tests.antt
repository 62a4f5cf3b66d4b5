-- ===== src/Str/Tests.antt =====
-- Runs of the memory and string functions on small inputs.
use xv6_riscv_zig.Prelude.{
  ◌%◌, ◌↔◌, pos, ℕ, ◌+◌, ◌-◌, ◌≡◌, refl, inl, ◌&&◌, ltb, leb, if◌then◌else◌, arith,
}
use xv6_riscv_zig.Str.{strncmp, strncpy, memset, memmove, move_down, move_up, safestrcpy}
use xv6_riscv_zig.Str.Move.{memmove_lem}
use xv6_riscv_zig.Str.Compare.{SameText, strncmp-SameText}
use xv6_riscv_zig.Str.Pad.{padded, strncpy-padded, memset_lem}
use xv6_riscv_zig.Str.Text.{HasText, safestrcpy-HasText}

-- A memory that holds at each address the address, and 0 at 23
abbrev bytes : ℕ → ℕ
bytes q = if leb 23 q && ltb q 24 then 0 else q

-- Source and destination overlap, and byte 14 was overwritten before it is read in ascending order.
memmove_overlap : memmove bytes 12 10 5 14 ≡ 12
unfolding memmove move_down move_up
memmove_overlap = refl

memmove_lem_example :
    memmove bytes 12 10 5 14
    ≡ (if leb 12 14 && ltb 14 (12 + 5) then bytes (10 + (14 - 12)) else bytes 14)
memmove_lem_example = memmove_lem bytes 12 10 5 14

safestrcpy-HasText_example : HasText bytes 4 20 6 (safestrcpy bytes 4 20 7)
safestrcpy-HasText_example = safestrcpy-HasText bytes 4 20 6 (inl (omega arith))

strncmp-SameText_example : (strncmp bytes 20 30 4 ≡ pos 0) ↔ SameText bytes 20 30 4
strncmp-SameText_example = strncmp-SameText bytes 20 30 4

strncpy-padded_example :
    strncpy bytes 4 20 6 8 ≡ (if leb 4 8 && ltb 8 (4 + 6) then padded bytes 20 (8 - 4) else bytes 8)
strncpy-padded_example = strncpy-padded bytes 4 20 6 8 (inl (omega arith))

memset_lem_example :
    memset bytes 4 300 6 8 ≡ (if leb 4 8 && ltb 8 (4 + 6) then 300 % 256 else bytes 8)
memset_lem_example = memset_lem bytes 4 300 6 8
