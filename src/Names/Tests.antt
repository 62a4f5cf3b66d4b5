-- ===== src/Names/Tests.antt =====
-- The path `//ab/c`, at address 20
use xv6_riscv_zig.Prelude.{ℕ, refl, inl, List, [], ◌∷◌, get_or, ◌-◌, ltb, if◌then◌else◌, arith}
use xv6_riscv_zig.Names.{skipelem}
use xv6_riscv_zig.Names.Texts.{TextAt, drop_slashes}
use xv6_riscv_zig.Names.Elements.{Skips, skipelem-Skips}

abbrev path : List ℕ
path = 47 ∷ 47 ∷ 97 ∷ 98 ∷ 47 ∷ 99 ∷ []

abbrev bytes : ℕ → ℕ
bytes q = if ltb q 20 then 1 else get_or path (q - 20) 0

path-TextAt : TextAt bytes 20 path
path-TextAt = (
  refl,
  (λ e. omega (arith, e)),
  (
    refl,
    (λ e. omega (arith, e)),
    (
      refl,
      (λ e. omega (arith, e)),
      (
        refl,
        (λ e. omega (arith, e)),
        (refl, (λ e. omega (arith, e)), (refl, (λ e. omega (arith, e)), refl)),
      ),
    ),
  ),
)

skipelem-Skips_example : Skips bytes 2 (drop_slashes path) (skipelem 9 bytes 20 2)
skipelem-Skips_example =
    skipelem-Skips 9 bytes 20 2 path path-TextAt (omega arith) (inl (omega arith))
