-- ===== src/Print/Buffer.antt =====
-- `printint` keeps within its `char buf[16]`.
use xv6_riscv_zig.Prelude.{
  ℕ, zero, suc, ◌+◌, ◌-◌, ◌/◌, ◌%◌, ◌^◌, ◌<◌, ◌≤◌, ◌≡◌, ◌⊎◌, Bool, false, List, [], ◌∷◌, arith, leb,
  ◌==◌, ◌&&◌, Bool-cases, inl, inr, length, subst,
}
use xv6_riscv_zig.Print.{digit, digit_loop, number}
use xv6_riscv_zig.Print.Decimal.{tens}

-- One division by the base takes a digit off.
shrinks :
    (base x k : ℕ)
    → (base ≡ 10) ⊎ (base ≡ 16)
    → (x / base == 0) ≡ false
    → x < tens (suc k)
    → (0 < k) × (x / base < tens k)
shrinks base x zero (inl e) more h = absurd (small (subst (λ b. (x / b == 0) ≡ false) e more) h)
  where
    small : (x / 10 == 0) ≡ false → x < 10 → ⊥
    small m lt = ground arith
shrinks base x zero (inr e) more h = absurd (small (subst (λ b. (x / b == 0) ≡ false) e more) h)
  where
    small : (x / 16 == 0) ≡ false → x < 10 → ⊥
    small m lt = ground arith
shrinks base x (suc k) (inl e) more h = (omega arith, rw e (omega arith))
shrinks base x (suc k) (inr e) more h = (omega arith, rw e (omega arith))

length-digit_loop :
    (k fuel base x : ℕ) (buf : List ℕ)
    → (base ≡ 10) ⊎ (base ≡ 16)
    → x < tens k
    → 0 < k
    → length (digit_loop fuel base x buf) ≤ k + length buf
unfolding digit_loop
length-digit_loop zero fuel base x buf b h pos = absurd (omega arith)
length-digit_loop (suc k) zero base x buf b h pos = omega arith
length-digit_loop (suc k) (suc fuel) base x buf b h pos = elim (Bool-cases (x / base == 0)) [
  | inl last ↦ rw last (omega arith)
  | inr more ↦
      let (pos', h') = shrinks base x k b more h in
      rw more
        (omega (arith, length-digit_loop k fuel base (x / base) (digit (x % base) ∷ buf) b h' pos'))
]

-- For a 32-bit number and base 10 or 16, `printint` puts at most 11 of 16 bytes into its buffer.
pub length-number :
    (xx base : ℕ) (sgn : Bool)
    → xx < 2 ^ 32
    → (base ≡ 10) ⊎ (base ≡ 16)
    → length (number xx base sgn) ≤ 11
unfolding number
length-number xx base sgn h b = elim (Bool-cases (sgn && leb (2 ^ 31) xx)) [
  | inl neg ↦
      rw neg (
        omega (arith, length-digit_loop 10 32 base (2 ^ 32 - xx) [] b (ground arith) (omega arith)))
  | inr plain ↦
      rw plain (omega (arith, length-digit_loop 10 32 base xx [] b (omega arith) (omega arith)))
]
