-- ===== src/Str/Compare.antt =====
-- What the comparisons of memory and text decide.
use xv6_riscv_zig.Prelude.{
  ℕ, zero, suc, ◌+◌, ◌-◌, ◌≤◌, ◌<◌, ◌≡◌, ◌≢◌, ◌↔◌, ◌⊎◌, inl, inr, refl, ap, ◌∙◌, false, not, ◌&&◌,
  ◌==◌, arith, Bool-cases, ==_iff, pos, sub_ℕ, sub_ℕ-self, eq_of_sub_ℕ, some,
}
use xv6_riscv_zig.Str.{strlen, memcmp, strncmp}

strlen_from :
    (fuel : ℕ) (f : ℕ → ℕ) (s i n : ℕ)
    → ((j : ℕ) → j < n → f (s + j) ≢ 0)
    → f (s + n) ≡ 0
    → i ≤ n
    → n - i < fuel
    → strlen fuel f s i ≡ some n
unfolding strlen
strlen_from zero f s i n text nul le enough = absurd (omega (arith, enough))
strlen_from (suc fuel) f s i n text nul le enough = elim (Bool-cases (f (s + i) == 0)) [
  | inl end ↦ elim (Bool-cases (i == n)) [
    | inl same ↦ rw end (ap some ((==_iff i n).0 same))
    | inr short ↦ absurd (text i (ground arith) ((==_iff (f (s + i)) 0).0 end))
  ]
  | inr more ↦ elim (Bool-cases (i == n)) [
    | inl same ↦
        let p : i ≡ n = (==_iff i n).0 same in absurd (stop (ap (λ k. f (s + k)) p ∙ nul) more)
    | inr short ↦
        let lt : i < n = ground arith in
        rw more
          (strlen_from fuel f s (i + 1) n text nul (omega (arith, lt)) (omega (arith, lt, enough)))
  ]
]
  where
    stop : f (s + i) ≡ 0 → (f (s + i) == 0) ≡ false → ⊥
    stop e h = ground arith

-- Where a NUL stands at `s + n` and none before it, `strlen` ends within `n + 1` rounds with `n`.
pub strlen_lem :
    (fuel : ℕ) (f : ℕ → ℕ) (s n : ℕ)
    → ((j : ℕ) → j < n → f (s + j) ≢ 0)
    → f (s + n) ≡ 0
    → n < fuel
    → strlen fuel f s 0 ≡ some n
strlen_lem fuel f s n text nul enough =
    strlen_from fuel f s 0 n text nul (omega arith) (omega arith)

-- The `n` bytes are the same.
abbrev pub SameBytes : (ℕ → ℕ) → ℕ → ℕ → ℕ → Type 0
SameBytes f s1 s2 zero = Unit
SameBytes f s1 s2 (suc n) = (f s1 ≡ f s2) × SameBytes f (s1 + 1) (s2 + 1) n

-- The texts are the same up to their NUL, or for `n` bytes.
abbrev pub SameText : (ℕ → ℕ) → ℕ → ℕ → ℕ → Type 0
SameText f p q zero = Unit
SameText f p q (suc n) = (f p ≡ f q) × ((f p ≡ 0) ⊎ SameText f (p + 1) (q + 1) n)

-- `memcmp` returns 0 exactly where the `n` bytes are the same.
pub memcmp-SameBytes : (f : ℕ → ℕ) (s1 s2 n : ℕ) → (memcmp f s1 s2 n ≡ pos 0) ↔ SameBytes f s1 s2 n
unfolding memcmp
memcmp-SameBytes f s1 s2 zero = (λ e. tt, λ h. refl)
memcmp-SameBytes f s1 s2 (suc n) = elim (Bool-cases (f s1 == f s2)) [
  | inl same ↦
      let (there, back) = memcmp-SameBytes f (s1 + 1) (s2 + 1) n in
      rw same (λ e. ((==_iff (f s1) (f s2)).0 same, there e), λ h. back h.1)
  | inr differ ↦
      rw differ
        (λ e. absurd (apart (eq_of_sub_ℕ (f s1) (f s2) e) differ), λ h. absurd (apart h.0 differ))
]
  where
    apart : f s1 ≡ f s2 → (f s1 == f s2) ≡ false → ⊥
    apart e h = ground arith

-- `strncmp` returns 0 exactly where the texts are the same up to their NUL, or for `n` bytes.
pub strncmp-SameText : (f : ℕ → ℕ) (p q n : ℕ) → (strncmp f p q n ≡ pos 0) ↔ SameText f p q n
unfolding strncmp
strncmp-SameText f p q zero = (λ e. tt, λ h. refl)
strncmp-SameText f p q (suc n) = elim (Bool-cases (not (f p == 0) && f p == f q)) [
  | inl on ↦
      let (there, back) = strncmp-SameText f (p + 1) (q + 1) n in
      let same : f p ≡ f q = ground arith in
      let nz : f p ≢ 0 = λ z. ground arith in
      rw on
        (λ e. (same, inr (there e)), λ h. elim h.1 [ inl z ↦ absurd (nz z) | inr rest ↦ back rest ])
  | inr off ↦ rw off (
    λ e. let same = eq_of_sub_ℕ (f p) (f q) e in (same, inl (ended same off)),
    λ h. ap (λ b. sub_ℕ (f p) b) {x = f q} {y = f p} (omega (arith, h.0)) ∙ sub_ℕ-self (f p),
  )
]
  where
    ended : f p ≡ f q → (not (f p == 0) && f p == f q) ≡ false → f p ≡ 0
    ended e h = ground arith
