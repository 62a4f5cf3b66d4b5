-- ===== src/Names/Texts.antt =====
-- Texts in memory, and their elements between slashes.
use xv6_riscv_zig.Prelude.{
  ℕ, zero, suc, ◌+◌, ◌-◌, ◌≤◌, ◌<◌, ◌≡◌, ◌≢◌, inl, inr, refl, ap, ◌∙◌, List, [], ◌∷◌, length, slice,
  ◌==◌, ne→==_false, if◌then◌else◌, arith, Bool-cases, some,
}
use xv6_riscv_zig.Names.{slash, skip_slashes, scan_elem}

-- At `p` stands the text `l`, with a NUL behind it.
abbrev pub TextAt : (ℕ → ℕ) → ℕ → List ℕ → Type 0
TextAt f p [] = f p ≡ 0
TextAt f p (c ∷ l) = (f p ≡ c) × (c ≢ 0) × TextAt f (p + 1) l

-- A text without its leading slashes
abbrev pub drop_slashes : List ℕ → List ℕ
drop_slashes [] = []
drop_slashes (c ∷ l) = if c == slash then drop_slashes l else c ∷ l

-- A text up to its first slash, and from there on
abbrev pub first_elem : List ℕ → List ℕ
first_elem [] = []
first_elem (c ∷ l) = if c == slash then [] else c ∷ first_elem l

abbrev pub behind_elem : List ℕ → List ℕ
behind_elem [] = []
behind_elem (c ∷ l) = if c == slash then c ∷ l else behind_elem l

-- Where a loop stops: at `q` in the text at `p`, with `m` left of it
pub record Stops (f : ℕ → ℕ) (p : ℕ) (l : List ℕ) (q : ℕ) (m : List ℕ) : Type 0 where
  pub text : TextAt f q m
  pub from : p ≤ q
  pub passed : q + length m ≡ p + length l

pub skip_slashes-Stops :
    (fuel : ℕ) (f : ℕ → ℕ) (p : ℕ) (l : List ℕ)
    → TextAt f p l
    → length l < fuel
    → (q : ℕ) × (skip_slashes fuel f p ≡ some q) × Stops f p l q (drop_slashes l)
unfolding skip_slashes
skip_slashes-Stops zero f p l text enough = absurd (omega (arith, enough))
skip_slashes-Stops (suc fuel) f p [] text enough =
    (p, rw (text) refl, record { text = text; from = omega arith; passed = refl })
skip_slashes-Stops (suc fuel) f p (c ∷ l) (here, ne, rest) enough = elim (Bool-cases (c == slash)) [
  | inl is_slash ↦
      let (q, ran, s) = skip_slashes-Stops fuel f (p + 1) l rest (omega (arith, enough)) in
      (
        q,
        rw (here, is_slash) ran,
        rw is_slash (record {
          text = s.text;
          from = omega (arith, s.from);
          passed = omega (arith, s.passed);
        }),
      )
  | inr other ↦ (
    p,
    rw (here, other) refl,
    rw other (record { text = (here, ne, rest); from = omega arith; passed = refl }),
  )
]

pub scan_elem-Stops :
    (fuel : ℕ) (f : ℕ → ℕ) (p : ℕ) (l : List ℕ)
    → TextAt f p l
    → length l < fuel
    → (q : ℕ) × (scan_elem fuel f p ≡ some q)
      × Stops f p l q (behind_elem l)
      × (slice f p (q - p) ≡ first_elem l)
unfolding scan_elem
scan_elem-Stops zero f p l text enough = absurd (omega (arith, enough))
scan_elem-Stops (suc fuel) f p [] text enough = (
  p,
  rw text refl,
  record { text = text; from = omega arith; passed = refl },
  ap (slice f p) {x = p - p} {y = 0} (omega arith),
)
scan_elem-Stops (suc fuel) f p (c ∷ l) (here, ne, rest) enough = elim (Bool-cases (c == slash)) [
  | inl is_slash ↦ (
    p,
    rw (here, is_slash) refl,
    rw is_slash (record { text = (here, ne, rest); from = omega arith; passed = refl }),
    rw is_slash (ap (slice f p) {x = p - p} {y = 0} (omega arith)),
  )
  | inr other ↦
      let (q, ran, s, elem) = scan_elem-Stops fuel f (p + 1) l rest (omega (arith, enough)) in
      (
        q,
        rw (here, other, ne→==_false c 0 ne) ran,
        rw other (record {
          text = s.text;
          from = omega (arith, s.from);
          passed = omega (arith, s.passed);
        }),
        rw other (
            ap (slice f p) {x = q - p} {y = suc (q - (p + 1))} (omega (arith, s.from))
            ∙ ap (λ b. b ∷ slice f (p + 1) (q - (p + 1))) here
            ∙ ap (λ r. c ∷ r) elem),
      )
]

-- A text stays where its bytes stay.
pub TextAt-same :
    (f g : ℕ → ℕ) (p : ℕ) (l : List ℕ)
    → ((j : ℕ) → j ≤ length l → g (p + j) ≡ f (p + j))
    → TextAt f p l
    → TextAt g p l
TextAt-same f g p [] same text =
    ap g {x = p} {y = p + 0} (omega arith)
    ∙ same 0 (omega arith)
    ∙ ap f {x = p + 0} {y = p} (omega arith)
    ∙ text
TextAt-same f g p (c ∷ l) same (here, ne, rest) = (
  ap g {x = p} {y = p + 0} (omega arith)
      ∙ same 0 (omega arith)
      ∙ ap f {x = p + 0} {y = p} (omega arith)
      ∙ here,
  ne,
  TextAt-same f g (p + 1) l
      (λ j le.
        ap g {x = p + 1 + j} {y = p + suc j} (omega arith)
        ∙ same (suc j) (omega (arith, le))
        ∙ ap f {x = p + suc j} {y = p + 1 + j} (omega arith))
      rest,
)
