-- ===== src/Shell/Commands.antt =====
-- The parsers of commands and pipes.
use xv6_riscv_zig.Prelude.{
  ℕ, zero, suc, ◌+◌, ◌-◌, ◌≤◌, ◌<◌, ◌≡◌, inl, inr, true, List, [], ◌∷◌, ◌++◌, length, length-append,
  leb, ◌==◌, ==_iff, if◌then◌else◌, arith, Bool-cases,
}
use xv6_riscv_zig.Shell.{
  maxargs, Cmd, execcmd, pipecmd, Redir, redirected, Parse, parsed, panics, ◌>>=◌, gettoken, peek,
  parseredirs, parseblock, parse_args, parseexec, parsepipe,
}
use xv6_riscv_zig.Shell.Tokens.{gettoken-Took, peek-Peeked}
use xv6_riscv_zig.Shell.Parsing.{
  Ends, Words, Fits, Redirs, Goes, Words-append, redirected-Fits, bind_Ends, Goes-weaken, taken,
  parseredirs-Ends,
}

module _ (f : ℕ → ℕ) (es : ℕ) (null : f es ≡ 0) where
  -- A parser of lines that ends from behind `s` on
  abbrev pub LineBehind : ℕ → (ℕ → Parse (Cmd × ℕ)) → Type 0
  LineBehind s line = (p : ℕ) → s < p → p ≤ es → Ends (Goes es (Fits f es) p) (line p)

  -- Redirections behind a command
  parse_args-Ends :
      (fuel : ℕ) (args : List (ℕ × ℕ)) (rs : List Redir) (s : ℕ)
      → s ≤ es
      → es - s < fuel
      → Words f es args
      → length args < maxargs
      → Redirs f es rs
      → Ends (Goes es (Fits f es) s) (parse_args f es fuel args rs s)
  unfolding parse_args Ends Fits
  parse_args-Ends zero args rs s le enough words few all = absurd (omega (arith, enough))
  parse_args-Ends (suc fuel) args rs s le enough words few all =
      let toks : List ℕ = 124 ∷ 41 ∷ 38 ∷ 59 ∷ [] in
      let p = peek-Peeked f es null toks s le in
      let built = redirected-Fits f es rs (execcmd args) all (words, few) in
      let s1 = (peek f es toks s).1 in
      let t = gettoken f es s1 in
      let took = gettoken-Took f es null s1 p.inside in
      elim (Bool-cases (peek f es toks s).0) [
        | inl stops ↦ rw stops (p.from, p.inside, built)
        | inr more ↦ elim (Bool-cases (t.ret == 0)) [
          | inl nothing ↦ rw (more, nothing) (omega (arith, p.from, took.from), took.inside, built)
          | inr token ↦ elim (Bool-cases (t.ret == 97)) [
            | inl word ↦ elim (Bool-cases (leb maxargs (length args + 1))) [
              | inl many ↦ rw (more, token, word, many) tt
              | inr room ↦
                  let e = (==_iff t.ret 97).0 word in
                  let go = took.behind e in
                  rw (more, token, word, room)
                    (bind_Ends (Goes es (Redirs f es) t.s) (Goes es (Fits f es) s)
                      (parseredirs f es fuel rs t.s)
                      (λ r. parse_args f es fuel (args ++ ((t.q, t.eq) ∷ [])) r.0 r.1)
                      (parseredirs-Ends f es null fuel rs t.s took.inside
                        (omega (arith, enough, p.from, go, took.inside)) all)
                      (λ r (from, inside, all').
                        Goes-weaken es (Fits f es) s r.1
                          (parse_args f es fuel (args ++ ((t.q, t.eq) ∷ [])) r.0 r.1)
                          (omega (arith, from, go, p.from))
                          (parse_args-Ends fuel (args ++ ((t.q, t.eq) ∷ [])) r.0 r.1 inside
                            (omega (arith, enough, from, go, p.from, inside))
                            (Words-append f es args t.q t.eq words (took.word e))
                            (ground (arith, length-append args ((t.q, t.eq) ∷ []), room)) all')))
            ]
            | inr other ↦ rw (more, token, other) tt
          ]
        ]
      ]

  parseblock-Ends :
      (fuel s0 : ℕ) (line : ℕ → Parse (Cmd × ℕ)) (s : ℕ)
      → LineBehind s0 line
      → s0 ≤ s
      → s ≤ es
      → es - s < fuel
      → Ends (Goes es (Fits f es) s) (parseblock f es fuel line s)
  unfolding parseblock Ends
  parseblock-Ends fuel s0 line s ends le0 le enough = elim (Bool-cases (peek f es (40 ∷ []) s).0) [
    | inl opens ↦
        let (go, inside) = taken f es null (40 ∷ []) s le opens in
        let p = (gettoken f es (peek f es (40 ∷ []) s).1).s in
        rw opens (
          bind_Ends (Goes es (Fits f es) p) (Goes es (Fits f es) s) (line p)
            (λ r.
              if (peek f es (41 ∷ []) r.1).0
              then (parseredirs f es fuel [] (gettoken f es (peek f es (41 ∷ []) r.1).1).s >>= λ x.
                  parsed (redirected x.0 r.0, x.1))
              else panics "syntax - missing )")
            (ends p (omega (arith, le0, go)) inside)
            (λ r (from, inside', fits). elim (Bool-cases (peek f es (41 ∷ []) r.1).0) [
              | inl closes ↦
                  rw closes (closed r.0 r.1 (omega (arith, go, from)) inside' fits closes)
              | inr lacks ↦ rw lacks tt
            ]))
    | inr other ↦ rw other tt
  ]
    where
      closed :
          (c : Cmd) (q : ℕ)
          → s ≤ q
          → q ≤ es
          → Fits f es c
          → (peek f es (41 ∷ []) q).0 ≡ true
          → Ends (Goes es (Fits f es) s) (
              parseredirs f es fuel [] (gettoken f es (peek f es (41 ∷ []) q).1).s >>= λ x.
              parsed (redirected x.0 c, x.1))
      closed c q from inside fits closes =
          let (go, within) = taken f es null (41 ∷ []) q inside closes in
          let q' = (gettoken f es (peek f es (41 ∷ []) q).1).s in
          bind_Ends (Goes es (Redirs f es) q') (Goes es (Fits f es) s) (parseredirs f es fuel [] q')
            (λ x. parsed (redirected x.0 c, x.1))
            (parseredirs-Ends f es null fuel [] q' within (omega (arith, from, go, enough, within))
              tt)
            (λ x (on, inside', all).
              (omega (arith, from, go, on), inside', redirected-Fits f es x.0 c all fits))

  parseexec-Ends :
      (fuel s0 : ℕ) (line : ℕ → Parse (Cmd × ℕ)) (s : ℕ)
      → LineBehind s0 line
      → s0 ≤ s
      → s ≤ es
      → es - s < fuel
      → Ends (Goes es (Fits f es) s) (parseexec f es fuel line s)
  unfolding parseexec
  parseexec-Ends fuel s0 line s ends le0 le enough =
      let p = peek-Peeked f es null (40 ∷ []) s le in
      let s1 = (peek f es (40 ∷ []) s).1 in
      elim (Bool-cases (peek f es (40 ∷ []) s).0) [
        | inl opens ↦ rw opens (
            Goes-weaken es (Fits f es) s s1 (parseblock f es fuel line s1) p.from (
              parseblock-Ends fuel s0 line s1 ends (omega (arith, le0, p.from)) p.inside
                (omega (arith, enough, p.from, p.inside))))
        | inr plain ↦ rw plain (
            bind_Ends (Goes es (Redirs f es) s1) (Goes es (Fits f es) s)
              (parseredirs f es fuel [] s1) (λ r. parse_args f es fuel [] r.0 r.1)
              (parseredirs-Ends f es null fuel [] s1 p.inside
                (omega (arith, enough, p.from, p.inside)) tt)
              (λ r (from, inside, all).
                Goes-weaken es (Fits f es) s r.1 (parse_args f es fuel [] r.0 r.1)
                  (omega (arith, from, p.from))
                  (parse_args-Ends fuel [] r.0 r.1 inside
                    (omega (arith, enough, from, p.from, inside)) tt (omega arith) all)))
      ]

  pub parsepipe-Ends :
      (fuel s0 : ℕ) (line : ℕ → Parse (Cmd × ℕ)) (s : ℕ)
      → LineBehind s0 line
      → s0 ≤ s
      → s ≤ es
      → es - s < fuel
      → Ends (Goes es (Fits f es) s) (parsepipe f es fuel line s)
  unfolding parsepipe Ends Fits
  parsepipe-Ends zero s0 line s ends le0 le enough = absurd (omega (arith, enough))
  parsepipe-Ends (suc fuel) s0 line s ends le0 le enough =
      bind_Ends (Goes es (Fits f es) s) (Goes es (Fits f es) s) (parseexec f es (suc fuel) line s)
        (λ r.
          if (peek f es (124 ∷ []) r.1).0
          then (parsepipe f es fuel line (gettoken f es (peek f es (124 ∷ []) r.1).1).s >>= λ x.
              parsed (pipecmd r.0 x.0, x.1))
          else parsed (r.0, (peek f es (124 ∷ []) r.1).1))
        (parseexec-Ends (suc fuel) s0 line s ends le0 le enough)
        (λ r (from, inside, fits). elim (Bool-cases (peek f es (124 ∷ []) r.1).0) [
          | inl more ↦
              let (go, within) = taken f es null (124 ∷ []) r.1 inside more in
              let q = (gettoken f es (peek f es (124 ∷ []) r.1).1).s in
              rw more (
                bind_Ends (Goes es (Fits f es) q) (Goes es (Fits f es) s)
                  (parsepipe f es fuel line q) (λ x. parsed (pipecmd r.0 x.0, x.1))
                  (parsepipe-Ends fuel s0 line q ends (omega (arith, le0, from, go)) within
                    (omega (arith, enough, from, go, within)))
                  (λ x (on, inside', right). (omega (arith, from, go, on), inside', (fits, right))))
          | inr stop ↦
              let p = peek-Peeked f es null (124 ∷ []) r.1 inside in
              rw stop (omega (arith, from, p.from), p.inside, fits)
        ])
