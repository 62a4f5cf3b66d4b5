-- ===== src/Print/Decimal.antt =====
-- `atoi` reads back what `printf` writes.
use xv6_riscv_zig.Prelude.{
  ℕ, zero, suc, ◌+◌, ◌*◌, ◌/◌, ◌%◌, ◌^◌, ◌<◌, ◌≡◌, ap, ◌∙◌, true, false, List, [], ◌∷◌, ◌++◌, arith,
  leb, ◌==◌, ◌&&◌, Bool-cases, inl, inr, append-nil, some,
}
use xv6_riscv_zig.Print.{
  digit, digit_loop, number, printint, first_arg, later_args, convert, format, vprintf, atoi_from,
  atoi,
}

abbrev pub tens : ℕ → ℕ
tens zero = 1
tens (suc k) = 10 * tens k

digit_decimal : (d : ℕ) → d < 10 → digit d ≡ 48 + d
unfolding digit
digit_decimal d h = ground arith

-- One digit is read.
atoi_from-digit :
    (n d : ℕ) (s : List ℕ)
    → d < 10
    → n * 10 + d < 2147483600
    → atoi_from n (digit d ∷ s) ≡ atoi_from (n * 10 + d) s
unfolding atoi_from
atoi_from-digit n d s h small =
    rw (digit_decimal d h) (elim (Bool-cases (leb 48 (48 + d) && leb (48 + d) 57)) [
      | inl yes_digit ↦
          let fits : leb (2 ^ 31) (n * 10 + (48 + d)) ≡ false = ground arith in
          rw (yes_digit, fits) (ap (λ m. atoi_from m s) (omega arith))
      | inr not_digit ↦ absurd (ground arith)
    ])

fuel_left : (fuel x : ℕ) → x < tens (suc fuel) → (x / 10 == 0) ≡ false → 0 < fuel
fuel_left zero x h more = absurd (ground arith)
fuel_left (suc fuel) x h more = omega arith

pub atoi_from-digit_loop :
    (fuel x : ℕ) (s : List ℕ)
    → x < tens fuel
    → x < 2147483600
    → 0 < fuel
    → atoi_from 0 (digit_loop fuel 10 x s) ≡ atoi_from x s
unfolding digit_loop
atoi_from-digit_loop zero x s h small pos = absurd (omega arith)
atoi_from-digit_loop (suc fuel) x s h small pos = elim (Bool-cases (x / 10 == 0)) [
  | inl last ↦ rw last (
      atoi_from-digit 0 (x % 10) s (omega arith) (omega (arith, small))
      ∙ ap (λ n. atoi_from n s) (ground arith))
  | inr more ↦ rw more (
      atoi_from-digit_loop fuel (x / 10) (digit (x % 10) ∷ s) (omega arith) (omega (arith, small))
        (fuel_left fuel x h more)
      ∙ atoi_from-digit (x / 10) (x % 10) s (omega arith) (omega (arith, small))
      ∙ ap (λ n. atoi_from n s) (omega arith))
]

number_positive : (n : ℕ) → n < 2 ^ 31 → number n 10 true ≡ digit_loop 32 10 n []
unfolding number
number_positive n h = elim (Bool-cases (leb (2 ^ 31) n)) [
  | inl big ↦ absurd (ground arith)
  | inr small ↦ rw small
]

-- `atoi` of what `%d` writes for a number below 2147483600 is that number, with no overflow. (From
-- there on `atoi` overflows its `int` before it subtracts `'0'`.)
pub atoi-vprintf :
    (text : ℕ → List ℕ) (n : ℕ)
    → n < 2147483600
    → atoi (vprintf text (b'%' ∷ b'd' ∷ []) (n ∷ [])) ≡ some n
unfolding atoi vprintf format convert first_arg later_args printint
atoi-vprintf text n h =
    ap (λ m. atoi (number m 10 true ++ [])) {x = n % 2 ^ 32} {y = n} (omega arith)
    ∙ ap atoi (append-nil (number n 10 true))
    ∙ ap atoi (number_positive n (omega (arith, h)))
    ∙ atoi_from-digit_loop 32 n [] (omega arith) h (omega arith)
