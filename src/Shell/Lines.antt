-- ===== src/Shell/Lines.antt =====
-- The parser of lines.
use xv6_riscv_zig.Prelude.{ℕ, zero, suc, ◌-◌, ◌≤◌, ◌<◌, ◌≡◌, inl, inr, [], ◌∷◌, arith, Bool-cases}
use xv6_riscv_zig.Shell.{
  Cmd, listcmd, backcmd, Parse, parsed, ◌>>=◌, gettoken, peek, parsepipe, parse_backs, end_of_line,
  one_line, parseline,
}
use xv6_riscv_zig.Shell.Tokens.{peek-Peeked}
use xv6_riscv_zig.Shell.Parsing.{Ends, Fits, Goes, bind_Ends, Goes-weaken, taken}
use xv6_riscv_zig.Shell.Commands.{LineBehind, parsepipe-Ends}

module _ (f : ℕ → ℕ) (es : ℕ) (null : f es ≡ 0) where
  parse_backs-Ends :
      (fuel : ℕ) (c : Cmd) (s : ℕ)
      → s ≤ es
      → es - s < fuel
      → Fits f es c
      → Ends (Goes es (Fits f es) s) (parse_backs f es fuel c s)
  unfolding parse_backs Ends Fits
  parse_backs-Ends zero c s le enough fits = absurd (omega (arith, enough))
  parse_backs-Ends (suc fuel) c s le enough fits = elim (Bool-cases (peek f es (38 ∷ []) s).0) [
    | inl more ↦
        let (go, inside) = taken f es null (38 ∷ []) s le more in
        let q = (gettoken f es (peek f es (38 ∷ []) s).1).s in
        rw more (
          Goes-weaken es (Fits f es) s q (parse_backs f es fuel (backcmd c) q) (omega (arith, go))
            (parse_backs-Ends fuel (backcmd c) q inside (omega (arith, enough, go, inside)) fits))
    | inr stop ↦ let p = peek-Peeked f es null (38 ∷ []) s le in rw stop (p.from, p.inside, fits)
  ]

  end_of_line-Ends :
      (s0 : ℕ) (line : ℕ → Parse (Cmd × ℕ)) (c : Cmd) (s : ℕ)
      → LineBehind f es null s0 line
      → s0 ≤ s
      → s ≤ es
      → Fits f es c
      → Ends (Goes es (Fits f es) s0) (end_of_line f es line (c, s))
  unfolding end_of_line Ends Fits
  end_of_line-Ends s0 line c s ends le0 le fits = elim (Bool-cases (peek f es (59 ∷ []) s).0) [
    | inl more ↦
        let (go, inside) = taken f es null (59 ∷ []) s le more in
        let q = (gettoken f es (peek f es (59 ∷ []) s).1).s in
        rw more (
          bind_Ends (Goes es (Fits f es) q) (Goes es (Fits f es) s0) (line q)
            (λ x. parsed (listcmd c x.0, x.1)) (ends q (omega (arith, le0, go)) inside)
            (λ x (on, inside', right). (omega (arith, le0, go, on), inside', (fits, right))))
    | inr stop ↦
        let p = peek-Peeked f es null (59 ∷ []) s le in
        rw stop (omega (arith, le0, p.from), p.inside, fits)
  ]

  one_line-Ends :
      (fuel : ℕ) (line : ℕ → Parse (Cmd × ℕ)) (s : ℕ)
      → LineBehind f es null s line
      → s ≤ es
      → es - s < fuel
      → Ends (Goes es (Fits f es) s) (one_line f es fuel line s)
  unfolding one_line
  one_line-Ends fuel line s ends le enough =
      bind_Ends (Goes es (Fits f es) s) (Goes es (Fits f es) s) (parsepipe f es fuel line s)
        (λ r. parse_backs f es fuel r.0 r.1 >>= end_of_line f es line)
        (parsepipe-Ends f es null fuel s line s ends (omega arith) le enough)
        (λ r (from, inside, fits).
          bind_Ends (Goes es (Fits f es) r.1) (Goes es (Fits f es) s)
            (parse_backs f es fuel r.0 r.1) (end_of_line f es line)
            (parse_backs-Ends fuel r.0 r.1 inside (omega (arith, enough, from, inside)) fits)
            (λ x (on, inside', fits').
              end_of_line-Ends s line x.0 x.1 ends (omega (arith, from, on)) inside' fits'))

  pub parseline-Ends :
      (fuel s : ℕ) → s ≤ es → es - s < fuel → Ends (Goes es (Fits f es) s) (parseline f es fuel s)
  unfolding parseline
  parseline-Ends zero s le enough = absurd (omega (arith, enough))
  parseline-Ends (suc fuel) s le enough =
      one_line-Ends (suc fuel) (λ p. parseline f es fuel p) s
        (λ p lt inside. parseline-Ends fuel p inside (omega (arith, enough, lt, inside))) le enough
