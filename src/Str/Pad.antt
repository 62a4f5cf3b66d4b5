-- ===== src/Str/Pad.antt =====
-- What `memset` and `strncpy` leave behind.
use xv6_riscv_zig.Prelude.{
  ℕ, zero, suc, ◌+◌, ◌-◌, ◌%◌, ◌≤◌, ◌<◌, ◌≡◌, ◌≢◌, true, false, refl, ap, ◌∙◌, sym, ◌⊎◌, inl, inr,
  ◌&&◌, ltb, leb, ◌==◌, arith, if◌then◌else◌, update, update_self, update_ne, Bool-cases, ==_iff,
}
use xv6_riscv_zig.Str.{memset, zero_fill, strncpy}
use xv6_riscv_zig.Str.Move.{within}

-- What a memory holds at `q` after `n` bytes from `d` on were written, the `j`-th one `g j`
abbrev pub written : (ℕ → ℕ) → ℕ → ℕ → (ℕ → ℕ) → ℕ → ℕ
written f d n g q = if leb d q && ltb q (d + n) then g (q - d) else f q

written-in :
    (f : ℕ → ℕ) (d n : ℕ) (g : ℕ → ℕ) (q : ℕ) → d ≤ q → q < d + n → written f d n g q ≡ g (q - d)
written-in f d n g q h k = ground arith

written-out :
    (f : ℕ → ℕ) (d n : ℕ) (g : ℕ → ℕ) (q : ℕ) → (d ≤ q → d + n ≤ q) → written f d n g q ≡ f q
written-out f d n g q h = ground arith

-- One byte, and then those behind it
written-one :
    (f : ℕ → ℕ) (d n : ℕ) (g h : ℕ → ℕ) (q : ℕ)
    → ((j : ℕ) → j < n → g j ≡ h (j + 1))
    → written (update f d (h 0)) (d + 1) n g q ≡ written f d (suc n) h q
written-one f d n g h q same = elim (within (d + 1) n q) [
  | inl (le, lt) ↦
      written-in (update f d (h 0)) (d + 1) n g q le lt
      ∙ same (q - (d + 1)) (omega (arith, le, lt))
      ∙ ap h {x = q - (d + 1) + 1} {y = q - d} (omega (arith, le))
      ∙ sym (written-in f d (suc n) h q (omega (arith, le)) (omega (arith, lt)))
  | inr out ↦ elim (Bool-cases (d == q)) [
    | inl e ↦
        let p : d ≡ q = (==_iff d q).0 e in
        written-out (update f d (h 0)) (d + 1) n g q out
        ∙ ap (update f d (h 0)) (sym p)
        ∙ update_self f d (h 0)
        ∙ ap h {x = 0} {y = q - d} (omega (arith, p))
        ∙ sym (written-in f d (suc n) h q (omega (arith, p)) (omega (arith, p)))
    | inr other ↦
        let ne : d ≢ q = λ p. ground arith in
        written-out (update f d (h 0)) (d + 1) n g q out
        ∙ update_ne f d q (h 0) ne
        ∙ sym (written-out f d (suc n) h q (λ le. omega (arith, le, out, ne)))
  ]
]

written_none : (f : ℕ → ℕ) (d : ℕ) (g : ℕ → ℕ) (q : ℕ) → f q ≡ written f d 0 g q
written_none f d g q = sym (written-out f d 0 g q (λ h. omega (arith, h)))

-- `memset` writes the low byte of `c` to the `n` bytes from `dst` on, and nothing else.
pub memset_lem :
    (f : ℕ → ℕ) (dst c n q : ℕ)
    → memset f dst c n q ≡ (if leb dst q && ltb q (dst + n) then c % 256 else f q)
unfolding memset
memset_lem f dst c zero q = written_none f dst (λ j. c % 256) q
memset_lem f dst c (suc n) q =
    memset_lem (update f dst (c % 256)) (dst + 1) c n q
    ∙ written-one f dst n (λ j. c % 256) (λ j. c % 256) q (λ j lt. refl)

zero_fill_lem : (f : ℕ → ℕ) (s n q : ℕ) → zero_fill f s n q ≡ written f s n (λ j. 0) q
unfolding zero_fill
zero_fill_lem f s zero q = written_none f s (λ j. 0) q
zero_fill_lem f s (suc n) q =
    zero_fill_lem (update f s 0) (s + 1) n q ∙ written-one f s n (λ j. 0) (λ j. 0) q (λ j lt. refl)

-- The `j`-th byte of the text at `t`, with zeros behind its NUL
abbrev pub padded : (ℕ → ℕ) → ℕ → ℕ → ℕ
padded f t zero = f t
padded f t (suc j) = if f t == 0 then 0 else padded f (t + 1) j

shift : (f : ℕ → ℕ) (t i : ℕ) → f (t + 1 + i) ≡ f (t + suc i)
shift f t i = ap f {x = t + 1 + i} {y = t + suc i} (omega arith)

first_byte : (f : ℕ → ℕ) (t : ℕ) → f t ≡ f (t + 0)
first_byte f t = ap f {x = t} {y = t + 0} (omega arith)

padded-same :
    (f g : ℕ → ℕ) (t j : ℕ)
    → ((i : ℕ) → i ≤ j → g (t + i) ≡ f (t + i))
    → padded g t j ≡ padded f t j
padded-same f g t zero h = first_byte g t ∙ h 0 (omega arith) ∙ sym (first_byte f t)
padded-same f g t (suc j) h =
    let head : g t ≡ f t = first_byte g t ∙ h 0 (omega arith) ∙ sym (first_byte f t) in
    let tail =
      padded-same f g (t + 1) j
        (λ i le. shift g t i ∙ h (suc i) (omega (arith, le)) ∙ sym (shift f t i)) in
    λ k. if head k == 0 then 0 else tail k

-- For objects that lie apart, `strncpy` writes `n` bytes to `s`, and nothing else: the text at `t`
-- up to its NUL, and zeros behind it.
pub strncpy-padded :
    (f : ℕ → ℕ) (s t n q : ℕ)
    → (s + n ≤ t) ⊎ (t + n ≤ s)
    → strncpy f s t n q ≡ (if leb s q && ltb q (s + n) then padded f t (q - s) else f q)
unfolding strncpy
strncpy-padded f s t zero q apart = written_none f s (padded f t) q
strncpy-padded f s t (suc n) q apart = elim (Bool-cases (f t == 0)) [
  | inl end ↦ rw end (
      zero_fill_lem (update f s (f t)) (s + 1) n q
      ∙ written-one f s n (λ j. 0) (padded f t) q (λ j lt. sym (behind end j)))
  | inr more ↦ rw more (
      strncpy-padded (update f s (f t)) (s + 1) (t + 1) n q
        (elim apart [ inl l ↦ inl (omega (arith, l)) | inr g ↦ inr (omega (arith, g)) ])
      ∙ written-one f s n (padded (update f s (f t)) (t + 1)) (padded f t) q (λ j lt.
        padded-same f (update f s (f t)) (t + 1) j (λ i le.
          update_ne f s (t + 1 + i) (f t)
            (λ e. elim apart [ inl l ↦ omega (arith, e, l) | inr g ↦ omega (arith, e, g, le, lt) ]))
        ∙ sym (next_byte more j)))
]
  where
    behind : (f t == 0) ≡ true → (j : ℕ) → padded f t (j + 1) ≡ 0
    behind end j = ap (padded f t) {x = j + 1} {y = suc j} (omega arith) ∙ rw end

    next_byte : (f t == 0) ≡ false → (j : ℕ) → padded f t (j + 1) ≡ padded f (t + 1) j
    next_byte more j = ap (padded f t) {x = j + 1} {y = suc j} (omega arith) ∙ rw more
