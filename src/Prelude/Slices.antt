-- ===== src/Prelude/Slices.antt =====
-- Pieces of a memory as lists.
use Prim.Native.Nat.{ℕ, zero, suc, ◌+◌, ◌<◌, ◌≤◌}
use mathlib.Core.Path.{◌≡◌, refl, ap, ap₂, ◌∙◌}
use mathlib.Core.List.{List, [], ◌∷◌, ◌++◌}
use native.Mathlib.Omega.{arith}
use xv6_riscv_zig.Prelude.Lists.{length, take}

-- `k` bytes of a memory from `a` on
abbrev pub slice : (ℕ → ℕ) → ℕ → ℕ → List ℕ
slice f a zero = []
slice f a (suc k) = f a ∷ slice f (a + 1) k

pub slice-append : (f : ℕ → ℕ) (a k m : ℕ) → slice f a (k + m) ≡ slice f a k ++ slice f (a + k) m
slice-append f a zero m =
    let (at, len) : (a ≡ a + 0) × (0 + m ≡ m) = (omega arith, omega arith) in
    λ i. slice f (at i) (len i)
slice-append f a (suc k) m =
    ap (slice f a) {x = suc k + m} {y = suc (k + m)} (omega arith)
    ∙ ap (λ r. f a ∷ r)
        (slice-append f (a + 1) k m ∙ ap (λ b. slice f (a + 1) k ++ slice f b m) (omega arith))

pub slice-same :
    (f g : ℕ → ℕ) (a b k : ℕ)
    → ((j : ℕ) → j < k → f (a + j) ≡ g (b + j))
    → slice f a k ≡ slice g b k
slice-same f g a b zero h = refl
slice-same f g a b (suc k) h =
    ap₂ (λ x q. x ∷ q)
      (ap f {x = a} {y = a + 0} (omega arith)
        ∙ h 0 (omega arith)
        ∙ ap g {x = b + 0} {y = b} (omega arith))
      (slice-same f g (a + 1) (b + 1) k (λ j lt.
        ap f {x = a + 1 + j} {y = a + suc j} (omega arith)
        ∙ h (suc j) (omega arith)
        ∙ ap g {x = b + suc j} {y = b + 1 + j} (omega arith)))

pub length-slice : (f : ℕ → ℕ) (a k : ℕ) → length (slice f a k) ≡ k
length-slice f a zero = refl
length-slice f a (suc k) = ap suc (length-slice f (a + 1) k)

pub take-slice : (f : ℕ → ℕ) (a k m : ℕ) → k ≤ m → take k (slice f a m) ≡ slice f a k
take-slice f a zero m h = refl
take-slice f a (suc k) zero h = absurd (omega (arith, h))
take-slice f a (suc k) (suc m) h = ap (λ r. f a ∷ r) (take-slice f (a + 1) k m (omega (arith, h)))
