-- ===== src/Prelude/Panic.antt =====
-- Code that may stop in the kernel's `panic`, and 32-bit counters.
use Prim.Native.Nat.{ℕ, ◌+◌, ◌-◌, ◌%◌, ◌^◌, ◌<◌}
use Prim.Native.String.{String}
use mathlib.Core.Path.{◌≡◌}
use mathlib.Core.Bool.{Bool, true, false}
use native.Mathlib.Omega.{arith}

-- `panic message` is a call of the kernel's `panic`, which does not return.
pub data Run {ℓ} (A : Type ℓ) : Type ℓ where
  ok : A → Run A
  panic : String → Run A

infixl 5 ◌>>=◌ ◌>>◌
abbrev pub ◌>>=◌ {ℓ κ} : {A : Type ℓ} {B : Type κ} → Run A → (A → Run B) → Run B
ok a >>= f = f a
panic m >>= f = panic m

abbrev pub ◌>>◌ {ℓ} : {B : Type ℓ} → Run (Unit {0}) → Run B → Run B
m >> k = m >>= λ _. k

-- `if(test) panic(message);`
abbrev pub panic_if : Bool → String → Run (Unit {0})
panic_if true m = panic m
panic_if false m = ok tt

-- `x + 1` and `x - 1` on a 32-bit counter
abbrev pub inc32 : ℕ → ℕ
inc32 x = (x + 1) % 2 ^ 32

abbrev pub dec32 : ℕ → ℕ
dec32 x = (x + (2 ^ 32 - 1)) % 2 ^ 32

pub dec32-inc32 : (x : ℕ) → x < 2 ^ 32 → dec32 (inc32 x) ≡ x
dec32-inc32 x h = omega arith
