-- ===== src/Ulib.antt =====
-- user/ulib/ulib.c: loops over a text up to its NUL. They run on fuel, and `none` is the result where
-- the fuel ends first.
pub mod Search
mod Tests
use xv6_riscv_zig.Prelude.{
  ℕ, zero, suc, ◌+◌, Bool, not, ◌&&◌, ◌==◌, if◌then◌else◌, ℤ, sub_ℕ, Option, none, some,
}

pub strcmp : ℕ → (ℕ → ℕ) → ℕ → ℕ → Option ℤ
strcmp zero f p q = none
strcmp (suc fuel) f p q =
    let rest = strcmp fuel f (p + 1) (q + 1) in
    if not (f p == 0) && f p == f q then rest else some (sub_ℕ (f p) (f q))

-- What `strchr` returns: a pointer, or 0
pub data Found : Type 0 where
  found : ℕ → Found
  missing : Found

-- The test of the loop comes first, so that the NUL itself is never found.
pub strchr : ℕ → (ℕ → ℕ) → ℕ → ℕ → Option Found
strchr zero f s c = none
strchr (suc fuel) f s c =
    let rest = strchr fuel f (s + 1) c in
    if f s == 0 then some missing else (if f s == c then some (found s) else rest)
