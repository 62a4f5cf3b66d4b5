-- ===== src/Print.antt =====
-- user/ulib/printf.c and `atoi` of user/ulib/ulib.c. Text is a list of bytes: output in the order
-- it is written, a string up to its NUL.
pub mod Decimal
pub mod Buffer
mod Tests
use xv6_riscv_zig.Prelude.{
  ℕ, zero, suc, ◌+◌, ◌-◌, ◌*◌, ◌/◌, ◌%◌, ◌^◌, Bool, true, false, ◌&&◌, Option, none, some, List, [],
  ◌∷◌, ◌++◌, ltb, leb, ◌==◌, if◌then◌else◌,
}

-- The entries of `digits[]` at 0 to 15
pub digit : ℕ → ℕ
digit d = if ltb d 10 then b'0' + d else b'A' + (d - 10)

-- The digit loop of `printint`. What was put into `buf` last is written first.
pub digit_loop : ℕ → ℕ → ℕ → List ℕ → List ℕ
unfolding digit
digit_loop zero base x buf = buf
digit_loop (suc fuel) base x buf =
    let buf' = digit (x % base) ∷ buf in
    let rest = digit_loop fuel base (x / base) buf' in if x / base == 0 then buf' else rest

-- What `printint` holds in `buf` at its end, last entry first. `xx` is an `int` as a bit pattern.
-- The fuel is enough for 32 bits in any base from 2 on.
pub number : ℕ → ℕ → Bool → List ℕ
unfolding digit_loop
number xx base sgn =
    if sgn && leb (2 ^ 31) xx
    then b'-' ∷ digit_loop 32 base (2 ^ 32 - xx) []
    else digit_loop 32 base xx []

pub printint : ℕ → ℕ → Bool → List ℕ → List ℕ
unfolding number
printint xx base sgn out = out ++ number xx base sgn

-- The loop of `printptr`: `k` hexadecimal digits from the top of the 64-bit `x`
pub pointer_loop : ℕ → ℕ → List ℕ
unfolding digit
pointer_loop zero x = []
pointer_loop (suc k) x = digit (x / 2 ^ 60) ∷ pointer_loop k (x * 16 % 2 ^ 64)

pub printptr : ℕ → List ℕ → List ℕ
unfolding pointer_loop
printptr x out = out ++ b'0' ∷ b'x' ∷ pointer_loop 16 x

-- The argument that `va_arg` reads, as a 64-bit word, and those behind it
pub first_arg : List ℕ → ℕ
first_arg [] = 0
first_arg (a ∷ args) = a

pub later_args : List ℕ → List ℕ
later_args [] = []
later_args (a ∷ args) = args

-- What `%s` writes for the pointer `s`: `text` gives the string at an address.
pub string_of : (ℕ → List ℕ) → ℕ → List ℕ
string_of text s = if s == 0 then b'(' ∷ b'n' ∷ b'u' ∷ b'l' ∷ b'l' ∷ b')' ∷ [] else text s

-- What `vprintf` writes for a character behind `%`, and whether it reads an argument
pub convert : (ℕ → List ℕ) → ℕ → ℕ → List ℕ × Bool
unfolding printint printptr string_of
convert text c arg =
    if c == b'd'
    then (printint (arg % 2 ^ 32) 10 true [], true)
    else (if c == b'l'
        then (printint (arg % 2 ^ 32) 10 false [], true)
        else (if c == b'x'
            then (printint (arg % 2 ^ 32) 16 false [], true)
            else (if c == b'p'
                then (printptr arg [], true)
                else (if c == b's'
                    then (string_of text arg, true)
                    else (if c == b'c'
                        then (arg % 256 ∷ [], true)
                        else (if c == b'%' then (c ∷ [], false) else (b'%' ∷ c ∷ [], false)))))))

-- The loop of `vprintf`; `percent` is its `state`.
pub format : (ℕ → List ℕ) → Bool → List ℕ → List ℕ → List ℕ
unfolding convert first_arg later_args
format text percent [] args = []
format text true (c ∷ fmt) args =
    let (written, reads) = convert text c (first_arg args) in
    written ++ format text false fmt (if reads then later_args args else args)
format text false (c ∷ fmt) args =
    let plain = c ∷ format text false fmt args in
    let after_percent = format text true fmt args in if c == b'%' then after_percent else plain

pub vprintf : (ℕ → List ℕ) → List ℕ → List ℕ → List ℕ
unfolding format
vprintf text fmt args = format text false fmt args

-- The loop of `atoi`. It computes `n*10 + *s` first: `none` is an overflow of this `int`, which C leaves
-- undefined.
pub atoi_from : ℕ → List ℕ → Option ℕ
atoi_from n [] = some n
atoi_from n (c ∷ s) =
    let rest = atoi_from (n * 10 + c - b'0') s in
    if leb b'0' c && leb c b'9' then (if leb (2 ^ 31) (n * 10 + c) then none else rest) else some n

pub atoi : List ℕ → Option ℕ
unfolding atoi_from
atoi s = atoi_from 0 s
