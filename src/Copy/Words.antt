-- ===== src/Copy/Words.antt =====
-- `custom_memcpy` copies as a byte-by-byte copy does.
use xv6_riscv_zig.Prelude.{
  ℕ, zero, suc, ◌+◌, ◌-◌, ◌*◌, ◌/◌, ◌%◌, ◌≤◌, ◌≡◌, refl, ap, ◌∙◌, sym, ap₂, ◌⊎◌, inl, inr, ◌&&◌,
  ltb, leb, ◌==◌, not, arith, if◌then◌else◌, update, Bool-cases,
}
use xv6_riscv_zig.Str.Move.{moved, moved-in, moved-out, within, up-one, move_up-moved}
use xv6_riscv_zig.Copy.{Cursor, align_loop, copy_word, word_loop, custom_memcpy}

-- Objects of `n` bytes at `d` and `s` do not overlap.
abbrev pub Apart : ℕ → ℕ → ℕ → Type 0
Apart d s n = (d + n ≤ s) ⊎ (s + n ≤ d)

-- A copy in two parts is a copy.
moved-moved :
    (f g : ℕ → ℕ) (d s a b q : ℕ)
    → Apart d s (a + b)
    → ((x : ℕ) → g x ≡ moved f d s a x)
    → moved g (d + a) (s + a) b q ≡ moved f d s (a + b) q
moved-moved f g d s a b q apart first = elim (within (d + a) b q) [
  | inl (le, lt) ↦
      moved-in g (d + a) (s + a) b q le lt
      ∙ first (s + a + (q - (d + a)))
      ∙ moved-out f d s a (s + a + (q - (d + a)))
          (λ h. elim apart [ inl l ↦ omega (arith, l, h) | inr r ↦ omega (arith, r, h, le, lt) ])
      ∙ ap f {x = s + a + (q - (d + a))} {y = s + (q - d)} (omega (arith, le))
      ∙ sym (moved-in f d s (a + b) q (omega (arith, le)) (omega (arith, lt)))
  | inr out ↦ elim (within d a q) [
    | inl (le, lt) ↦
        moved-out g (d + a) (s + a) b q out
        ∙ first q
        ∙ moved-in f d s a q le lt
        ∙ sym (moved-in f d s (a + b) q le (omega (arith, lt)))
    | inr far ↦
        moved-out g (d + a) (s + a) b q out
        ∙ first q
        ∙ moved-out f d s a q far
        ∙ sym (moved-out f d s (a + b) q (λ h. omega (arith, far h, out (omega (arith, far h)))))
  ]
]

copy_word-moved : (f : ℕ → ℕ) (d s q : ℕ) → copy_word f d s q ≡ moved f d s 8 q
unfolding copy_word
copy_word-moved f d s q = refl

word_loop-moved :
    (f : ℕ → ℕ) (d s k q : ℕ) → Apart d s (8 * k) → word_loop f d s k q ≡ moved f d s (8 * k) q
unfolding word_loop
word_loop-moved f d s zero q apart = sym (moved-out f d s 0 q (λ h. omega (arith, h)))
word_loop-moved f d s (suc k) q apart =
    word_loop-moved (copy_word f d s) (d + 8) (s + 8) k q
      (elim apart [ inl l ↦ inl (omega (arith, l)) | inr r ↦ inr (omega (arith, r)) ])
    ∙ moved-moved f (copy_word f d s) d s 8 (8 * k) q
        (elim apart [ inl l ↦ inl (omega (arith, l)) | inr r ↦ inr (omega (arith, r)) ])
        (copy_word-moved f d s)
    ∙ ap (λ n. moved f d s n q) {x = 8 + 8 * k} {y = 8 * suc k} (omega arith)

-- What the first loop has done: `a` bytes are copied, the cursor stands behind them.
record Aligned (f : ℕ → ℕ) (d s n : ℕ) (c : Cursor) : Type 0 where
  a : ℕ
  dst : c.dst ≡ d + a
  src : c.src ≡ s + a
  all : a + c.n ≡ n
  copied : (x : ℕ) → c.memory x ≡ moved f d s a x

align_loop-Aligned : (f : ℕ → ℕ) (d s n : ℕ) → Apart d s n → Aligned f d s n (align_loop f d s n)
unfolding align_loop
align_loop-Aligned f d s zero apart = record {
  a = 0;
  dst = omega arith;
  src = omega arith;
  all = omega arith;
  copied = λ x. sym (moved-out f d s 0 x (λ h. omega (arith, h)));
}
align_loop-Aligned f d s (suc n) apart = elim (Bool-cases (not (d % 8 == 0) && not (s % 8 == 0))) [
  | inl go ↦
      let ih =
        align_loop-Aligned (update f d (f s)) (d + 1) (s + 1) n
          (elim apart [ inl l ↦ inl (omega (arith, l)) | inr r ↦ inr (omega (arith, r)) ]) in
      rw go (record {
        a = suc ih.a;
        dst = omega (arith, ih.dst);
        src = omega (arith, ih.src);
        all = omega (arith, ih.all);
        copied = λ x.
            ih.copied x
            ∙ up-one f d s ih.a x (elim apart [
              | inl l ↦ inl (omega (arith, l))
              | inr r ↦ inr (omega (arith, r, ih.all))
            ]);
      })
  | inr stop ↦ rw stop (record {
    a = 0;
    dst = omega arith;
    src = omega arith;
    all = omega arith;
    copied = λ x. sym (moved-out f d s 0 x (λ h. omega (arith, h)));
  })
]

-- For objects that do not overlap, `custom_memcpy` leaves at `dst` to `dst + n` what stood at `src`
-- to `src + n`, and changes no other byte, however the two are aligned.
pub custom_memcpy_lem :
    (f : ℕ → ℕ) (dst src n q : ℕ)
    → (dst + n ≤ src) ⊎ (src + n ≤ dst)
    → custom_memcpy f dst src n q
      ≡ (if leb dst q && ltb q (dst + n) then f (src + (q - dst)) else f q)
unfolding custom_memcpy
custom_memcpy_lem f dst src n q apart =
    let c = align_loop f dst src n in
    let al = align_loop-Aligned f dst src n apart in
    let w : ℕ = c.n / 8 in
    let m = word_loop c.memory c.dst c.src w in
    let size : 8 * w + c.n % 8 ≡ c.n = omega arith in
    move_up-moved m (c.dst + 8 * w) (c.src + 8 * w) (c.n % 8) q (elim apart [
      | inl l ↦ inl (omega (arith, l, al.dst, al.src, al.all))
      | inr r ↦ inr (omega (arith, r, al.dst, al.src, al.all, size))
    ])
    ∙ moved-moved c.memory m c.dst c.src (8 * w) (c.n % 8) q
        (elim apart [
          | inl l ↦ inl (omega (arith, l, al.dst, al.src, al.all, size))
          | inr r ↦ inr (omega (arith, r, al.dst, al.src, al.all, size))
        ])
        (λ x. word_loop-moved c.memory c.dst c.src w x (elim apart [
          | inl l ↦ inl (omega (arith, l, al.dst, al.src, al.all, size))
          | inr r ↦ inr (omega (arith, r, al.dst, al.src, al.all, size))
        ]))
    ∙ ap (λ k. moved c.memory c.dst c.src k q) size
    ∙ ap₂ (λ d s. moved c.memory d s c.n q) al.dst al.src
    ∙ moved-moved f c.memory dst src al.a c.n q
        (elim apart [
          | inl l ↦ inl (omega (arith, l, al.all))
          | inr r ↦ inr (omega (arith, r, al.all))
        ])
        al.copied
    ∙ ap (λ k. moved f dst src k q) al.all
