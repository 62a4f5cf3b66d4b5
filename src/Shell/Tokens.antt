-- ===== src/Shell/Tokens.antt =====
-- What `gettoken` and `peek` take from a line that ends at `es`.
use xv6_riscv_zig.Prelude.{
  ℕ, zero, suc, ◌+◌, ◌-◌, ◌≤◌, ◌<◌, ◌≡◌, ◌≢◌, ◌⊎◌, inl, inr, refl, sym, ap, ◌∙◌, Bool, true, false,
  not, ◌||◌, ◌&&◌, List, ◌==◌, ==_iff, arith, Bool-cases,
}
use xv6_riscv_zig.Shell.{
  has, whitespace, symbols, singles, skip_white, skip_word, Token, read_token, gettoken, peek,
}

-- The bytes that end a word
unfoldable pub mark : ℕ → Bool
unfolding has
mark c = has whitespace c || has symbols c

-- A word from `q` up to `eq`
pub record IsWord (f : ℕ → ℕ) (es q eq : ℕ) : Type 0 where
  pub some_byte : q < eq
  pub inside : eq ≤ es
  pub bytes : (j : ℕ) → q ≤ j → j < eq → mark (f j) ≡ false
  pub ends : (mark (f eq) ≡ true) ⊎ (eq ≡ es)

-- Where `read_token` stops
pub record Reads (f : ℕ → ℕ) (es q : ℕ) (r : ℕ × ℕ) : Type 0 where
  pub from : q ≤ r.1
  pub inside : r.1 ≤ es
  pub advances : f q ≢ 0 → q < r.1
  pub word : r.0 ≡ 97 → IsWord f es q r.1

pub record Took (f : ℕ → ℕ) (es s : ℕ) (t : Token) : Type 0 where
  pub from : s ≤ t.s
  pub inside : t.s ≤ es
  pub advances : f s ≢ 0 → s < t.s
  pub word : t.ret ≡ 97 → IsWord f es t.q t.eq
  pub behind : t.ret ≡ 97 → s < t.s

pub record Peeked (f : ℕ → ℕ) (es s : ℕ) (r : Bool × ℕ) : Type 0 where
  pub from : s ≤ r.1
  pub inside : r.1 ≤ es
  pub byte : r.0 ≡ true → f r.1 ≢ 0

symbols_lem : (c : ℕ) → has singles c ≡ false → (c == 62) ≡ false → has symbols c ≡ false
unfolding has
symbols_lem c a b = ground arith

not_single : (c : ℕ) → has singles c ≡ true → c ≢ 97
unfolding has
not_single c single e = ground arith

module _ (f : ℕ → ℕ) (es : ℕ) (null : f es ≡ 0) where
  skip_white-range :
      (k s : ℕ)
      → (s ≤ skip_white f k s)
        × (skip_white f k s ≤ s + k)
        × ((has whitespace (f (skip_white f k s)) ≡ false) ⊎ (skip_white f k s ≡ s + k))
  unfolding skip_white
  skip_white-range zero s = (omega arith, omega arith, inr (omega arith))
  skip_white-range (suc k) s = elim (Bool-cases (has whitespace (f s))) [
    | inl white ↦
        let (a, b, c) = skip_white-range k (s + 1) in
        rw white (
          omega (arith, a),
          omega (arith, b),
          elim c [ inl stop ↦ inl stop | inr e ↦ inr (omega (arith, e)) ],
        )
    | inr black ↦ rw black (omega arith, omega arith, inl black)
  ]

  skip_white-stop :
      (s : ℕ)
      → s ≤ es
      → (s ≤ skip_white f (es - s) s)
        × (skip_white f (es - s) s ≤ es)
        × (has whitespace (f (skip_white f (es - s) s)) ≡ false)
  unfolding has
  skip_white-stop s le =
      let (a, b, c) = skip_white-range (es - s) s in
      (
        a,
        omega (arith, b, le),
        elim c [
          | inl stop ↦ stop
          | inr e ↦
              ap (λ p. has whitespace (f p)) {x = skip_white f (es - s) s} {y = es}
                (omega (arith, e, le))
              ∙ ap (has whitespace) null
        ],
      )

  skip_word-range :
      (k s : ℕ)
      → s + k ≡ es
      → (s ≤ skip_word f k s)
        × (skip_word f k s ≤ es)
        × ((j : ℕ) → s ≤ j → j < skip_word f k s → mark (f j) ≡ false)
        × ((mark (f (skip_word f k s)) ≡ true) ⊎ (skip_word f k s ≡ es))
        × (mark (f s) ≡ false → s < es → s < skip_word f k s)
  unfolding skip_word mark
  skip_word-range zero s e = (
    omega arith,
    omega (arith, e),
    (λ j a b. absurd (omega (arith, a, b))),
    inr (omega (arith, e)),
    λ m lt. absurd (omega (arith, e, lt)),
  )
  skip_word-range (suc k) s e = elim (Bool-cases (mark (f s))) [
    | inl stop ↦
        let off : (not (has whitespace (f s)) && not (has symbols (f s))) ≡ false = ground arith in
        rw off (
          omega arith,
          omega (arith, e),
          (λ j a b. absurd (omega (arith, a, b))),
          inl stop,
          λ m lt. absurd (ground arith),
        )
    | inr goes ↦
        let on : (not (has whitespace (f s)) && not (has symbols (f s))) ≡ true = ground arith in
        let (a, b, c, d, _) = skip_word-range k (s + 1) (omega (arith, e)) in
        rw on (
          omega (arith, a),
          b,
          (λ j from to. elim (Bool-cases (s == j)) [
            | inl here ↦ ap (λ p. mark (f p)) (sym ((==_iff s j).0 here)) ∙ goes
            | inr later ↦ c j (ground arith) to
          ]),
          d,
          λ m lt. omega (arith, a),
        )
  ]

  read_token-Reads :
      (q : ℕ) → q ≤ es → has whitespace (f q) ≡ false → Reads f es q (read_token f es q)
  unfolding read_token mark
  read_token-Reads q le black = elim (Bool-cases (f q == 0)) [
    | inl end ↦ rw end (record {
      from = omega arith;
      inside = le;
      advances = λ ne. absurd (ne ((==_iff (f q) 0).0 end));
      word = λ e. absurd (omega (arith, e));
    })
    | inr byte ↦
        let lt : q < es = reads_before q le byte in
        elim (Bool-cases (has singles (f q))) [
          | inl single ↦
              rw (byte, single)
                (record {
                  from = omega arith;
                  inside = omega (arith, lt);
                  advances = λ ne. omega arith;
                  word = λ e. absurd (not_single (f q) single e);
                })
          | inr other ↦ elim (Bool-cases (f q == 62)) [
            | inl more ↦ elim (Bool-cases (f (q + 1) == 62)) [
              | inl twice ↦
                  rw (byte, other, more, twice)
                    (record {
                      from = omega arith;
                      inside = omega (
                        arith,
                        reads_before (q + 1) (omega (arith, lt)) (not_null (q + 1) twice),
                      );
                      advances = λ ne. omega arith;
                      word = λ e. absurd (omega (arith, e));
                    })
              | inr once ↦
                  rw (byte, other, more, once)
                    (record {
                      from = omega arith;
                      inside = omega (arith, lt);
                      advances = λ ne. omega arith;
                      word = λ e. absurd (omega (arith, e));
                    })
            ]
            | inr word ↦
                let (a, b, c, d, e) = skip_word-range (es - q) q (omega (arith, lt)) in
                let plain : mark (f q) ≡ false = rw (black, symbols_lem (f q) other word) refl in
                let go = e plain lt in
                rw (byte, other, word)
                  (record {
                    from = a;
                    inside = b;
                    advances = λ ne. go;
                    word = λ r. record { some_byte = go; inside = b; bytes = c; ends = d };
                  })
          ]
        ]
  ]
    where
      reads_before : (p : ℕ) → p ≤ es → (f p == 0) ≡ false → p < es
      reads_before p le' byte = elim (Bool-cases (p == es)) [
        | inl e ↦ absurd (cc ((==_iff (f p) 0).1 (ap f ((==_iff p es).0 e) ∙ null), byte))
        | inr ne ↦ ground arith
      ]

      not_null : (p : ℕ) → (f p == 62) ≡ true → (f p == 0) ≡ false
      not_null p e = ground arith

  pub gettoken-Took : (s : ℕ) → s ≤ es → Took f es s (gettoken f es s)
  unfolding gettoken
  gettoken-Took s le =
      let (a, b, c) = skip_white-stop s le in
      let r = read_token-Reads (skip_white f (es - s) s) b c in
      let (a', b', c') = skip_white-stop (gettoken f es s).eq r.inside in
      record {
        from = omega (arith, a, a', r.from);
        inside = b';
        advances = λ ne. elim (Bool-cases (skip_white f (es - s) s == s)) [
          | inl here ↦
              let go =
                r.advances
                  (λ z. ne (sym (ap f ((==_iff (skip_white f (es - s) s) s).0 here)) ∙ z)) in
              omega (arith, a, a', go)
          | inr later ↦
              let far : s < skip_white f (es - s) s = ground arith in omega (arith, far, a', r.from)
        ];
        word = λ e. r.word e;
        behind = λ e. omega (arith, a, a', (r.word e).some_byte);
      }

  pub peek-Peeked : (toks : List ℕ) (s : ℕ) → s ≤ es → Peeked f es s (peek f es toks s)
  unfolding peek
  peek-Peeked toks s le =
      let (a, b, c) = skip_white-stop s le in
      record {
        from = a;
        inside = b;
        byte = λ full z. peeks_byte (f (skip_white f (es - s) s)) z full;
      }
    where
      peeks_byte : (c : ℕ) → c ≡ 0 → (not (c == 0) && has toks c) ≡ true → ⊥
      peeks_byte c z full = ground arith
