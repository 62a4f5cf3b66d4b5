-- ===== src/Ulib/Search.antt =====
-- Where the loops over a text end, and with what.
use xv6_riscv_zig.Prelude.{
  ℕ, zero, suc, ◌+◌, ◌<◌, ◌≡◌, ◌≢◌, ◌⊎◌, inl, inr, refl, ap, ◌∙◌, subst, true, not, ◌&&◌, ◌==◌,
  if◌then◌else◌, arith, Bool-cases, ==_iff, ne→==_false, some,
}
use xv6_riscv_zig.Str.{strncmp}
use xv6_riscv_zig.Ulib.{strcmp, strchr, found, missing}

-- Where the first text has its NUL at index `k`, `strcmp` ends within `k + 1` rounds, with what
-- `strncmp` of any `n` greater than `k` returns.
pub strcmp-strncmp :
    (fuel : ℕ) (f : ℕ → ℕ) (p q k n : ℕ)
    → f (p + k) ≡ 0
    → k < fuel
    → k < n
    → strcmp fuel f p q ≡ some (strncmp f p q n)
unfolding strcmp strncmp
strcmp-strncmp zero f p q k n nul enough le = absurd (omega (arith, enough))
strcmp-strncmp (suc fuel) f p q k zero nul enough le = absurd (omega (arith, le))
strcmp-strncmp (suc fuel) f p q zero (suc n) nul enough le =
    let end : (f p == 0) ≡ true =
      (==_iff (f p) 0).1 (ap f {x = p} {y = p + 0} (omega arith) ∙ nul) in
    rw end refl
strcmp-strncmp (suc fuel) f p q (suc k) (suc n) nul enough le =
    let ih =
      strcmp-strncmp fuel f (p + 1) (q + 1) k n
        (ap f {x = p + 1 + k} {y = p + suc k} (omega arith) ∙ nul) (omega (arith, enough))
        (omega (arith, le)) in
    elim (Bool-cases (not (f p == 0) && f p == f q)) [
      | inl same ↦ rw same ih
      | inr differ ↦ rw differ refl
    ]

-- Let neither a NUL nor `c` be among the first `n` bytes of a text, and one of them behind these.
-- Then `strchr` ends within `n + 1` rounds, with a pointer to that byte where it is not the NUL, and
-- with 0 where it is.
pub strchr_lem :
    (fuel : ℕ) (f : ℕ → ℕ) (s c n : ℕ)
    → ((j : ℕ) → j < n → (f (s + j) ≢ 0) × (f (s + j) ≢ c))
    → (f (s + n) ≡ 0) ⊎ (f (s + n) ≡ c)
    → n < fuel
    → strchr fuel f s c ≡ some (if f (s + n) == 0 then missing else found (s + n))
unfolding strchr
strchr_lem zero f s c n before there enough = absurd (omega (arith, enough))
strchr_lem (suc fuel) f s c zero before there enough =
    ap (λ p. strchr (suc fuel) f p c) {x = s} {y = s + 0} (omega arith) ∙ first (s + 0) there
  where
    first :
        (p : ℕ)
        → (f p ≡ 0) ⊎ (f p ≡ c)
        → strchr (suc fuel) f p c ≡ some (if f p == 0 then missing else found p)
    first p end = elim (Bool-cases (f p == 0)) [
      | inl nul ↦ rw nul refl
      | inr more ↦ elim end [
        | inl nul ↦ cc ((==_iff (f p) 0).1 nul, more)
        | inr same ↦ rw (more, (==_iff (f p) c).1 same) refl
      ]
    ]
strchr_lem (suc fuel) f s c (suc n) before there enough =
    let (text, other) : (f s ≢ 0) × (f s ≢ c) = here in
    rw (ne→==_false (f s) 0 text, ne→==_false (f s) c other)
      (strchr_lem fuel f (s + 1) c n
          (λ j lt.
            subst (λ p. (f p ≢ 0) × (f p ≢ c)) {x = s + suc j} {y = s + 1 + j} (omega arith)
              (before (suc j) (omega (arith, lt))))
          (subst (λ p. (f p ≡ 0) ⊎ (f p ≡ c)) {x = s + suc n} {y = s + 1 + n} (omega arith) there)
          (omega (arith, enough))
        ∙ ap (λ p. some (if f p == 0 then missing else found p)) {x = s + 1 + n} {y = s + suc n}
            (omega arith))
  where
    here : (f s ≢ 0) × (f s ≢ c)
    here =
        subst (λ p. (f p ≢ 0) × (f p ≢ c)) {x = s + 0} {y = s} (omega arith)
          (before 0 (omega arith))
