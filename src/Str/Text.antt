-- ===== src/Str/Text.antt =====
-- What `safestrcpy` leaves behind.
use xv6_riscv_zig.Prelude.{
  ℕ, zero, suc, ◌+◌, ◌≤◌, ◌<◌, ◌≡◌, ◌≢◌, refl, ap, ◌∙◌, sym, ◌⊎◌, inl, inr, ◌==◌, ==_iff, arith,
  update, update_self, update_ne, Bool-cases,
}
use xv6_riscv_zig.Str.{copy_text, safestrcpy}

-- The memory `r` holds at `s` the first `len` bytes of the text at `t` in `f`, none of them NUL,
-- and a NUL behind them. It is the whole text, or as much as `n` bytes and the NUL have room for;
-- nothing but those `n + 1` bytes differs from `f`.
pub record HasText (f : ℕ → ℕ) (s t n : ℕ) (r : ℕ → ℕ) : Type 0 where
  pub len : ℕ
  pub le : len ≤ n
  pub nul : r (s + len) ≡ 0
  pub same : (i : ℕ) → i < len → (r (s + i) ≡ f (t + i)) × (f (t + i) ≢ 0)
  pub whole : (len ≡ n) ⊎ (f (t + len) ≡ 0)
  pub frame : (x : ℕ) → (s ≤ x → s + n < x) → r x ≡ f x

HasText-later :
    (f : ℕ → ℕ) (s t n : ℕ) (r : ℕ → ℕ)
    → (s + suc n < t) ⊎ (t + suc n < s)
    → f t ≢ 0
    → HasText (update f s (f t)) (s + 1) (t + 1) n r
    → HasText f s t (suc n) r
HasText-later f s t n r apart ne h = record {
  len = suc h.len;
  le = omega (arith, h.le);
  nul = ap r {x = s + suc h.len} {y = s + 1 + h.len} (omega arith) ∙ h.nul;
  same = at;
  whole = elim h.whole [
    | inl all ↦ inl (omega (arith, all))
    | inr end ↦ inr (sym (text h.len h.le) ∙ end)
  ];
  frame = λ x out.
      h.frame x (λ le. omega (arith, out (omega (arith, le))))
      ∙ update_ne f s x (f t) (λ e. omega (arith, e, out (omega (arith, e))));
}
  where
    text : (i : ℕ) → i ≤ n → update f s (f t) (t + 1 + i) ≡ f (t + suc i)
    text i le =
        update_ne f s (t + 1 + i) (f t)
          (λ e. elim apart [ inl l ↦ omega (arith, e, l) | inr g ↦ omega (arith, e, g, le) ])
        ∙ ap f {x = t + 1 + i} {y = t + suc i} (omega arith)

    at : (i : ℕ) → i < suc h.len → (r (s + i) ≡ f (t + i)) × (f (t + i) ≢ 0)
    at zero lt = (
      ap r {x = s + 0} {y = s} (omega arith)
          ∙ h.frame s (λ le. absurd (omega (arith, le)))
          ∙ update_self f s (f t)
          ∙ ap f {x = t} {y = t + 0} (omega arith),
      λ e. ne (ap f {x = t} {y = t + 0} (omega arith) ∙ e),
    )
    at (suc i) lt =
        let le : i ≤ n = omega (arith, lt, h.le) in
        let (got, nz) = h.same i (omega (arith, lt)) in
        (
          ap r {x = s + suc i} {y = s + 1 + i} (omega arith) ∙ got ∙ text i le,
          λ e. nz (text i le ∙ e),
        )

HasText-ended :
    (f : ℕ → ℕ) (s t n : ℕ) → f t ≡ 0 → HasText f s t (suc n) (update (update f s (f t)) (s + 1) 0)
HasText-ended f s t n e = record {
  len = 0;
  le = omega arith;
  nul =
      ap (update (update f s (f t)) (s + 1) 0) {x = s + 0} {y = s} (omega arith)
      ∙ update_ne (update f s (f t)) (s + 1) s 0 (λ p. omega (arith, p))
      ∙ update_self f s (f t)
      ∙ e;
  same = λ i lt. absurd (omega (arith, lt));
  whole = inr (ap f {x = t + 0} {y = t} (omega arith) ∙ e);
  frame = λ x out.
      update_ne (update f s (f t)) (s + 1) x 0 (λ p. omega (arith, p, out (omega (arith, p))))
      ∙ update_ne f s x (f t) (λ p. omega (arith, p, out (omega (arith, p))));
}

-- For objects that lie apart, `safestrcpy` with room for `n + 1` bytes leaves a text of at most `n`
-- bytes and a NUL behind it: the first bytes of the source, all of them up to its NUL where they
-- fit. It writes nothing outside those `n + 1` bytes.
pub safestrcpy-HasText :
    (f : ℕ → ℕ) (s t n : ℕ) → (s + n < t) ⊎ (t + n < s) → HasText f s t n (safestrcpy f s t (suc n))
unfolding safestrcpy copy_text
safestrcpy-HasText f s t zero apart = record {
  len = 0;
  le = omega arith;
  nul = ap (update f s 0) {x = s + 0} {y = s} (omega arith) ∙ update_self f s 0;
  same = λ i lt. absurd (omega (arith, lt));
  whole = inl refl;
  frame = λ x out. update_ne f s x 0 (λ p. omega (arith, p, out (omega (arith, p))));
}
safestrcpy-HasText f s t (suc n) apart = elim (Bool-cases (f t == 0)) [
  | inl end ↦ rw end (HasText-ended f s t n ((==_iff (f t) 0).0 end))
  | inr more ↦ rw more (
      HasText-later f s t n (safestrcpy (update f s (f t)) (s + 1) (t + 1) (suc n)) apart
        (λ e. ground arith)
        (safestrcpy-HasText (update f s (f t)) (s + 1) (t + 1) n
          (elim apart [ inl l ↦ inl (omega (arith, l)) | inr g ↦ inr (omega (arith, g)) ])))
]
