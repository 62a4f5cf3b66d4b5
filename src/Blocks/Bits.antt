-- ===== src/Blocks/Bits.antt =====
-- The bits of a byte.
use xv6_riscv_zig.Prelude.{
  ℕ, zero, suc, ◌+◌, ◌*◌, ◌/◌, ◌%◌, ◌≡◌, ◌≢◌, refl, ap, ◌∙◌, true, false, ◌==◌, arith,
}
use xv6_riscv_zig.Blocks.{bit, set_bit, clear_bit}

pub bit-set_bit_self : (v k : ℕ) → bit (set_bit v k) k ≡ true
unfolding bit set_bit
bit-set_bit_self v zero = ground arith
bit-set_bit_self v (suc k) =
    ap (λ w. bit w k) {x = (set_bit (v / 2) k * 2 + v % 2) / 2} {y = set_bit (v / 2) k}
      (omega arith)
    ∙ bit-set_bit_self (v / 2) k

pub bit-set_bit_ne : (v k j : ℕ) → k ≢ j → bit (set_bit v k) j ≡ bit v j
unfolding bit set_bit
bit-set_bit_ne v zero zero ne = absurd (ne refl)
bit-set_bit_ne v zero (suc j) ne =
    ap (λ w. bit w j) {x = (v / 2 * 2 + 1) / 2} {y = v / 2} (omega arith)
bit-set_bit_ne v (suc k) zero ne =
    ap (λ (w : ℕ). w == 1) {x = (set_bit (v / 2) k * 2 + v % 2) % 2} {y = v % 2} (omega arith)
bit-set_bit_ne v (suc k) (suc j) ne =
    ap (λ w. bit w j) {x = (set_bit (v / 2) k * 2 + v % 2) / 2} {y = set_bit (v / 2) k}
      (omega arith)
    ∙ bit-set_bit_ne (v / 2) k j (λ e. ne (ap suc e))

pub bit-clear_bit_self : (v k : ℕ) → bit (clear_bit v k) k ≡ false
unfolding bit clear_bit
bit-clear_bit_self v zero = ground arith
bit-clear_bit_self v (suc k) =
    ap (λ w. bit w k) {x = (clear_bit (v / 2) k * 2 + v % 2) / 2} {y = clear_bit (v / 2) k}
      (omega arith)
    ∙ bit-clear_bit_self (v / 2) k

pub bit-clear_bit_ne : (v k j : ℕ) → k ≢ j → bit (clear_bit v k) j ≡ bit v j
unfolding bit clear_bit
bit-clear_bit_ne v zero zero ne = absurd (ne refl)
bit-clear_bit_ne v zero (suc j) ne =
    ap (λ w. bit w j) {x = (v / 2 * 2) / 2} {y = v / 2} (omega arith)
bit-clear_bit_ne v (suc k) zero ne =
    ap (λ (w : ℕ). w == 1) {x = (clear_bit (v / 2) k * 2 + v % 2) % 2} {y = v % 2} (omega arith)
bit-clear_bit_ne v (suc k) (suc j) ne =
    ap (λ w. bit w j) {x = (clear_bit (v / 2) k * 2 + v % 2) / 2} {y = clear_bit (v / 2) k}
      (omega arith)
    ∙ bit-clear_bit_ne (v / 2) k j (λ e. ne (ap suc e))

-- A byte whose bit was clear comes back.
pub clear_bit-set_bit : (v k : ℕ) → bit v k ≡ false → clear_bit (set_bit v k) k ≡ v
unfolding bit set_bit clear_bit
clear_bit-set_bit v zero free = ground arith
clear_bit-set_bit v (suc k) free =
    ap (λ (w : ℕ). w * 2 + (set_bit (v / 2) k * 2 + v % 2) % 2)
      (ap (λ w. clear_bit w k) {x = (set_bit (v / 2) k * 2 + v % 2) / 2} {y = set_bit (v / 2) k}
          (omega arith)
        ∙ clear_bit-set_bit (v / 2) k free)
    ∙ omega arith
