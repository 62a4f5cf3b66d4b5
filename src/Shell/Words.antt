-- ===== src/Shell/Words.antt =====
-- What `gettoken` and `peek` take from a line of words alone.
use xv6_riscv_zig.Prelude.{
  ℕ, zero, suc, ◌+◌, ◌-◌, ◌≤◌, ◌<◌, ◌≡◌, ◌≢◌, inl, inr, refl, sym, ap, ◌∙◌, subst, true, false, not,
  ◌&&◌, List, [], ◌∷◌, ◌==◌, ne→==_false, arith, Bool-cases,
}
use xv6_riscv_zig.Shell.{
  has, whitespace, symbols, singles, skip_white, skip_word, read_token, gettoken, peek,
}
use xv6_riscv_zig.Shell.Tokens.{mark, IsWord}

-- White space from `p` up to `q`
abbrev pub White : (ℕ → ℕ) → ℕ → ℕ → Type 0
White f p q = (p ≤ q) × ((j : ℕ) → p ≤ j → j < q → has whitespace (f j) ≡ true)

-- The line from `q` on is the words `ws`, each with white space, or nothing, behind it.
abbrev pub Spells : (ℕ → ℕ) → ℕ → ℕ → List (ℕ × ℕ) → Type 0
Spells f es q [] = q ≡ es
Spells f es q ((a, eq) ∷ ws) =
    (a ≡ q) × IsWord f es q eq × (q' : ℕ) × White f eq q' × Spells f es q' ws

-- No symbol, so no byte that a parser looks for
pub no_symbol :
    (c : ℕ)
    → has symbols c ≡ false
    → (has (40 ∷ []) c ≡ false)
      × (has (60 ∷ 62 ∷ []) c ≡ false)
      × (has (124 ∷ 41 ∷ 38 ∷ 59 ∷ []) c ≡ false)
      × (has (124 ∷ []) c ≡ false)
      × (has (38 ∷ []) c ≡ false)
      × (has (59 ∷ []) c ≡ false)
      × (has singles c ≡ false)
      × ((c == 62) ≡ false)
unfolding has
no_symbol c none = (
  ground arith,
  ground arith,
  ground arith,
  ground arith,
  ground arith,
  ground arith,
  ground arith,
  ground arith,
)

skip_white-White :
    (f : ℕ → ℕ) (k p q : ℕ)
    → q ≤ p + k
    → White f p q
    → has whitespace (f q) ≡ false
    → skip_white f k p ≡ q
unfolding skip_white
skip_white-White f zero p q le (from, white) stop = omega (arith, le, from)
skip_white-White f (suc k) p q le (from, white) stop = elim (Bool-cases (p == q)) [
  | inl same ↦ let e : p ≡ q = ground arith in rw (ap (λ j. has whitespace (f j)) e ∙ stop) e
  | inr less ↦
      let lt : p < q = ground arith in
      rw (white p (omega arith) lt) (
        skip_white-White f k (p + 1) q (omega (arith, le))
          (omega (arith, lt), λ j a b. white j (omega (arith, a)) b) stop)
]

skip_word-word :
    (f : ℕ → ℕ) (es k p eq : ℕ)
    → p + k ≡ es
    → p ≤ eq
    → eq ≤ es
    → ((j : ℕ) → p ≤ j → j < eq → mark (f j) ≡ false)
    → (eq < es → mark (f eq) ≡ true)
    → skip_word f k p ≡ eq
unfolding skip_word mark
skip_word-word f es zero p eq e from inside bytes ends = omega (arith, e, from, inside)
skip_word-word f es (suc k) p eq e from inside bytes ends = elim (Bool-cases (p == eq)) [
  | inl same ↦
      let here : p ≡ eq = ground arith in
      let stop = ap (λ j. mark (f j)) here ∙ ends (omega (arith, e, here)) in
      let off : (not (has whitespace (f p)) && not (has symbols (f p))) ≡ false = ground arith in
      rw off here
  | inr less ↦
      let lt : p < eq = ground arith in
      let plain = bytes p (omega arith) lt in
      let on : (not (has whitespace (f p)) && not (has symbols (f p))) ≡ true = ground arith in
      rw on (
        skip_word-word f es k (p + 1) eq (omega (arith, e)) (omega (arith, lt)) inside
          (λ j a b. bytes j (omega (arith, a)) b) ends)
]

module _ (f : ℕ → ℕ) (es : ℕ) (null : f es ≡ 0) where
  -- A place where no white space and no symbol stands
  abbrev pub Still : ℕ → Type 0
  Still q = (q ≤ es) × (has whitespace (f q) ≡ false) × (has symbols (f q) ≡ false)

  pub end_Still : Still es
  unfolding has
  end_Still = (omega arith, ap (has whitespace) null, ap (has symbols) null)

  pub Spells-Still : (q : ℕ) (ws : List (ℕ × ℕ)) → Spells f es q ws → Still q
  unfolding mark
  Spells-Still q [] e = subst Still (sym e) end_Still
  Spells-Still q ((a, eq) ∷ ws) (_, w, q', white, rest) =
      let plain = w.bytes q (omega arith) w.some_byte in
      (omega (arith, w.some_byte, w.inside), ground arith, ground arith)

  -- From white space before a still place, a byte is looked for that is not there.
  pub peek-Still :
      (toks : List ℕ) (p q : ℕ)
      → White f p q
      → Still q
      → has toks (f q) ≡ false
      → peek f es toks p ≡ (false, q)
  unfolding peek
  peek-Still toks p q white still missing =
      rw (skip_white-White f (es - p) p q (omega (arith, still.0, white.0)) white still.1, missing)
        (ap (λ b. (b, q)) (ground arith))

  pub no_White : (q : ℕ) → White f q q
  no_White q = (omega arith, λ j a b. absurd (omega (arith, a, b)))

  pub gettoken-word :
      (q eq q' : ℕ)
      → f q ≢ 0
      → IsWord f es q eq
      → White f eq q'
      → Still q'
      → gettoken f es q ≡ record { ret = 97; q = q; eq = eq; s = q' }
  unfolding gettoken read_token mark
  gettoken-word q eq q' byte w white still =
      let plain = w.bytes q (omega arith) w.some_byte in
      let black : has whitespace (f q) ≡ false = ground arith in
      let (_, _, _, _, _, _, other, less) = no_symbol (f q) (ground arith) in
      let here : skip_white f (es - q) q ≡ q =
        skip_white-White f (es - q) q q (omega arith) (no_White q) black in
      let word : skip_word f (es - q) q ≡ eq =
        skip_word-word f es (es - q) q eq (omega (arith, w.some_byte, w.inside))
          (omega (arith, w.some_byte)) w.inside w.bytes
          (λ lt. elim w.ends [
            | inl marked ↦ marked
            | inr last ↦ absurd (omega (arith, last, lt))
          ]) in
      let on : skip_white f (es - eq) eq ≡ q' =
        skip_white-White f (es - eq) eq q' (omega (arith, w.inside, white.0, still.0)) white
          still.1 in
      rw (here, ne→==_false (f q) 0 byte, other, less, word, on) refl

  pub gettoken-end : gettoken f es es ≡ record { ret = 0; q = es; eq = es; s = es }
  unfolding gettoken read_token
  gettoken-end =
      let here : skip_white f (es - es) es ≡ es =
        skip_white-White f (es - es) es es (omega arith) (no_White es) end_Still.1 in
      rw (here, null, here) refl
