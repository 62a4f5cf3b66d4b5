-- ===== src/Pipe/Memory.antt =====
-- Copies between a process's memory and the kernel's, where no page is missing.
use xv6_riscv_zig.Prelude.{
  ℕ, ◌+◌, ◌-◌, ◌≤◌, ◌<◌, ◌≡◌, refl, ap, true, ◌&&◌, ltb, leb, if◌then◌else◌, min, arith, le→leb,
  ap₂, Bool-cases, inl, inr,
}
use xv6_riscv_zig.Pipe.{UserMem, copy, copyin, copyout}

pub copy-zero : (f g : ℕ → ℕ) (to from q : ℕ) → copy f to g from 0 q ≡ f q
unfolding copy
copy-zero f g to from q = ground arith

-- A copy in two parts is a copy.
pub copy-copy :
    (f g : ℕ → ℕ) (to from a b q : ℕ)
    → copy (copy f to g from a) (to + a) g (from + a) b q ≡ copy f to g from (a + b) q
unfolding copy
copy-copy f g to from a b q = elim (Bool-cases (leb (to + a) q && ltb q (to + a + b))) [
  | inl late ↦
      let whole : (leb to q && ltb q (to + (a + b))) ≡ true = ground arith in
      rw (late, whole) (ap g {x = from + a + (q - (to + a))} {y = from + (q - to)} (ground arith))
  | inr early ↦ ground arith
]

-- Only what is copied matters.
pub copy-same :
    (f g h : ℕ → ℕ) (to from from' k q : ℕ)
    → ((j : ℕ) → j < k → g (from + j) ≡ h (from' + j))
    → copy f to g from k q ≡ copy f to h from' k q
unfolding copy
copy-same f g h to from from' k q same = elim (Bool-cases (leb to q && ltb q (to + k))) [
  | inl here ↦ rw here (same (q - to) (ground arith))
  | inr there ↦ rw there refl
]

pub copyout-all :
    (u : UserMem) (addr : ℕ) (ring : ℕ → ℕ) (from len : ℕ)
    → len ≤ u.present addr
    → copyout u addr ring from len ≡ (record u { byte = copy u.byte addr ring from len }, true)
unfolding copyout
copyout-all u addr ring from len le =
    ap₂ (λ k b. (record u { byte = copy u.byte addr ring from k }, b))
      {x = min len (u.present addr)} {y = len} (omega (arith, le)) (le→leb len (u.present addr) le)

pub copyin-all :
    (ring : ℕ → ℕ) (to : ℕ) (u : UserMem) (addr len : ℕ)
    → len ≤ u.present addr
    → copyin ring to u addr len ≡ (copy ring to u.byte addr len, true)
unfolding copyin
copyin-all ring to u addr len le =
    ap₂ (λ k b. (copy ring to u.byte addr k, b)) {x = min len (u.present addr)} {y = len}
      (omega (arith, le)) (le→leb len (u.present addr) le)

-- Only the byte below a copy matters for a byte of the result.
pub copy-under :
    (f f' g : ℕ → ℕ) (to from k q : ℕ) → f q ≡ f' q → copy f to g from k q ≡ copy f' to g from k q
unfolding copy
copy-under f f' g to from k q e =
    ap (λ b. if leb to q && ltb q (to + k) then g (from + (q - to)) else b) e
