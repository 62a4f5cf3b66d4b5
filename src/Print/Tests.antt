-- ===== src/Print/Tests.antt =====
-- Runs of `printf` and `atoi` on small inputs.
use xv6_riscv_zig.Prelude.{ℕ, ◌≡◌, ◌≤◌, refl, true, List, [], ◌∷◌, arith, inl, length, some}
use xv6_riscv_zig.Print.{
  vprintf, format, convert, first_arg, later_args, printint, number, digit_loop, digit, atoi,
}
use xv6_riscv_zig.Print.Decimal.{atoi-vprintf}
use xv6_riscv_zig.Print.Buffer.{length-number}

abbrev no_text : ℕ → List ℕ
no_text s = []

-- "-42%": the sign bit is read by `%d`.
negative_percent :
    vprintf no_text (b'%' ∷ b'd' ∷ b'%' ∷ b'%' ∷ []) (4294967254 ∷ [])
    ≡ b'-' ∷ b'4' ∷ b'2' ∷ b'%' ∷ []
unfolding vprintf format convert first_arg later_args printint number digit_loop digit
negative_percent = refl

atoi-vprintf_example : atoi (vprintf no_text (b'%' ∷ b'd' ∷ []) (1048576 ∷ [])) ≡ some 1048576
atoi-vprintf_example = atoi-vprintf no_text 1048576 (omega arith)

length-number_example : length (number 4294967295 10 true) ≤ 11
length-number_example = length-number 4294967295 10 true (omega arith) (inl refl)
