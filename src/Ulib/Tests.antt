-- ===== src/Ulib/Tests.antt =====
-- Texts are compared and searched.
use xv6_riscv_zig.Prelude.{ℕ, ◌≡◌, refl, ◌&&◌, ltb, leb, if◌then◌else◌, arith, some}
use xv6_riscv_zig.Str.{strncmp}
use xv6_riscv_zig.Ulib.{strcmp}
use xv6_riscv_zig.Ulib.Search.{strcmp-strncmp}

-- A memory that holds at each address the address, and 0 at 23
abbrev bytes : ℕ → ℕ
bytes q = if leb 23 q && ltb q 24 then 0 else q

strcmp-strncmp_example : strcmp 9 bytes 20 30 ≡ some (strncmp bytes 20 30 8)
strcmp-strncmp_example = strcmp-strncmp 9 bytes 20 30 3 8 refl (omega arith) (omega arith)
